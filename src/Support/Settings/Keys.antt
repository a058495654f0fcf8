-- ===== src/Support/Settings/Keys.antt =====
-- The map of PackageSettings: finding after putting, and the order of the keys.
use software.Base.{ℕ, ◌<◌, ◌≤◌, ◌≡◌, refl, none, some, arith, ◌⊎◌, inl, inr, subst, sym, ap}
use software.Support.Settings.{
  setting, empty, null, plain, array, object, Elements, nil, element, Setting, Settings, end, entry,
  find, at, put, unset,
}

-- The keys stand in their order, in the settings that are held too: they are above a number, and each is
-- above the one before it.
unfoldable mutual
  pub IsOrdered : Setting → Type 0
  IsOrdered (setting i empty) = Unit
  IsOrdered (setting i null) = Unit
  IsOrdered (setting i (plain n c)) = Unit
  IsOrdered (setting i (array es)) = AreOrdered es
  IsOrdered (setting i (object m)) = IsMap m

  pub AreOrdered : Elements → Type 0
  AreOrdered nil = Unit
  AreOrdered (element s es) = IsOrdered s × AreOrdered es

  pub IsMap : Settings → Type 0
  IsMap end = Unit
  IsMap (entry k s m) = IsOrdered s × IsAbove k m

  pub IsAbove : ℕ → Settings → Type 0
  IsAbove b end = Unit
  IsAbove b (entry k s m) = (b < k) × IsOrdered s × IsAbove k m

pub key-cases : (i j : ℕ) → (i ≡ j) ⊎ (i ≡ j → ⊥)
key-cases i j = ground arith

pub find-IsAbove : (k b : ℕ) (m : Settings) → k ≤ b → IsAbove b m → find k m ≡ none
unfolding find IsOrdered
find-IsAbove k b end h a = refl
find-IsAbove k b (entry j v m) h (a, o, r) = ground (arith, find-IsAbove k j m)

pub find-put : (k : ℕ) (s : Setting) (m : Settings) → find k (put k s m) ≡ some s
unfolding find put
find-put k s end = ground arith
find-put k s (entry j t m) = ground (arith, find-put k s m)

pub find-put_other :
    (i k : ℕ) (s : Setting) (m : Settings) → (i ≡ k → ⊥) → find i (put k s m) ≡ find i m
unfolding find put
find-put_other i k s end h = ground arith
find-put_other i k s (entry j t m) h = ground (arith, find-put_other i k s m h)

pub put-IsAbove :
    (b k : ℕ) (s : Setting) (m : Settings)
    → b < k
    → IsOrdered s
    → IsAbove b m
    → IsAbove b (put k s m)
unfolding put IsOrdered
put-IsAbove b k s end h o a = (h, o, tt)
put-IsAbove b k s (entry j t m) h o a = ground (arith, put-IsAbove j k s m)

pub put-IsMap : (k : ℕ) (s : Setting) (m : Settings) → IsOrdered s → IsMap m → IsMap (put k s m)
unfolding put IsOrdered
put-IsMap k s end o a = (o, tt)
put-IsMap k s (entry j t m) o a = ground (arith, put-IsAbove j k s m)

pub at-put : (k : ℕ) (s : Setting) (m : Settings) → at k (put k s m) ≡ s
unfolding at
at-put k s m = ap (λ o. elim o [ none ↦ unset | some x ↦ x ]) (find-put k s m)

pub at-put_other : (i k : ℕ) (s : Setting) (m : Settings) → (i ≡ k → ⊥) → at i (put k s m) ≡ at i m
unfolding at
at-put_other i k s m h = ap (λ o. elim o [ none ↦ unset | some x ↦ x ]) (find-put_other i k s m h)

pub at-IsAbove : (k : ℕ) (m : Settings) → IsAbove k m → at k m ≡ unset
unfolding at
at-IsAbove k m a =
    ap (λ o. elim o [ none ↦ unset | some x ↦ x ]) (find-IsAbove k k m (omega arith) a)

pub at-entry : (k j : ℕ) (s : Setting) (m : Settings) → k ≡ j → at k (entry j s m) ≡ s
unfolding at find
at-entry k j s m e = ground arith

pub at-entry_other :
    (k j : ℕ) (s : Setting) (m : Settings) → (k ≡ j → ⊥) → at k (entry j s m) ≡ at k m
unfolding at find
at-entry_other k j s m h = ground arith

pub IsAbove-IsMap : (b : ℕ) (m : Settings) → IsAbove b m → IsMap m
unfolding IsOrdered
IsAbove-IsMap b end a = tt
IsAbove-IsMap b (entry i t n) a = (a.1, a.2)

pub at-IsMap : (k : ℕ) (m : Settings) → IsMap m → IsOrdered (at k m)
unfolding at find IsOrdered
at-IsMap k end h = tt
at-IsMap k (entry j s m) h =
    let rest : IsOrdered (at k m) = at-IsMap k m (IsAbove-IsMap j m h.1) in
    elim (key-cases k j) [
      | inl e ↦ subst IsOrdered (sym (at-entry k j s m e)) h.0
      | inr n ↦ subst IsOrdered (sym (at-entry_other k j s m n)) rest
    ]
