-- ===== src/Support/Settings/Hash/Compared.antt =====
-- Settings in which nothing is ignored, and what == says of their entries.
use software.Base.{
  ℕ, ◌≡◌, refl, sym, ap, ◌∙◌, Bool, true, false, not, ◌&&◌, ◌||◌, ◌==◌, if◌then◌else◌, Bool-cases,
  and-split, Option, none, some, some-eq, ◌⊎◌, inl, inr, subst,
}
use software.Support.Settings.{
  Setting, setting, Value, empty, null, plain, array, object, Elements, nil, element, Settings, end,
  entry, is_ignored, is_true, find, at, unset, equal, entries_equal, entries_known,
}
use software.Support.Settings.Keys.{IsOrdered, IsMap, at-IsMap}
use software.Support.Settings.Hash.Fold.{NoneIsIgnored}

-- Nothing is ignored in comparisons.
unfoldable mutual
  pub IsCompared : Setting → Type 0
  IsCompared (setting i v) = (i ≡ false) × ValueIsCompared v

  pub ValueIsCompared : Value → Type 0
  ValueIsCompared empty = Unit
  ValueIsCompared null = Unit
  ValueIsCompared (plain n c) = Unit
  ValueIsCompared (array es) = AreCompared es
  ValueIsCompared (object m) = AllAreCompared m

  pub AreCompared : Elements → Type 0
  AreCompared nil = Unit
  AreCompared (element s es) = IsCompared s × AreCompared es

  pub AllAreCompared : Settings → Type 0
  AllAreCompared end = Unit
  AllAreCompared (entry k s m) = IsCompared s × AllAreCompared m

pub compared : (j b : Bool) → j ≡ false → (j || b) ≡ true → b ≡ true
compared j b h e = ap (λ x. x || b) (sym h) ∙ e

pub not_equal : (j : Bool) → j ≡ false → (j || false) ≡ true → ⊥
not_equal j h e = true-false (sym (compared j false h e))
  where
    true-false : true ≡ false → ⊥
    true-false h = cc

pub is_ignored-IsCompared : (s : Setting) → IsCompared s → is_ignored s ≡ false
unfolding IsCompared
is_ignored-IsCompared (setting i v) h = h.0

pub AllAreCompared-NoneIsIgnored : (m : Settings) → AllAreCompared m → NoneIsIgnored m
unfolding IsCompared
AllAreCompared-NoneIsIgnored end h = tt
AllAreCompared-NoneIsIgnored (entry k s m) h =
    (is_ignored-IsCompared s h.0, AllAreCompared-NoneIsIgnored m h.1)

pub find-IsCompared :
    (k : ℕ) (m : Settings) (w : Setting) → AllAreCompared m → find k m ≡ some w → IsCompared w
unfolding IsCompared find
find-IsCompared k end w h e = cc
find-IsCompared k (entry j s m) w h e =
    let found : (b : Bool) → (k == j) ≡ b → (if b then some s else find k m) ≡ some w =
      λ b q. ap (λ x. if x then some s else find k m) (sym q) ∙ e in
    elim (Bool-cases (k == j)) [
      | inl q ↦ subst IsCompared (some-eq (found true q)) h.0
      | inr q ↦ find-IsCompared k m w h.1 (found false q)
    ]

pub find-IsOrdered :
    (k : ℕ) (m : Settings) (w : Setting) → IsMap m → find k m ≡ some w → IsOrdered w
unfolding at
find-IsOrdered k m w h e =
    subst IsOrdered (ap (λ o. elim o [ none ↦ unset | some x ↦ x ]) e) (at-IsMap k m h)

chosen :
    (rest t : Bool) (v : Setting) (o : Option Setting)
    → (elim o [ none ↦ not t && rest | some w ↦ equal v w && rest ]) ≡ true
    → (rest ≡ true)
      × (((o ≡ none) × (t ≡ false)) ⊎ ((w : Setting) × (o ≡ some w) × (equal v w ≡ true)))
chosen rest false v none h = (h, inl (refl, refl))
chosen rest true v none h = cc
chosen rest t v (some w) h = let (p, q) = and-split (equal v w) rest h in (q, inr (w, refl, p))

known :
    (rest t : Bool) (o : Option Setting)
    → (elim o [ none ↦ not t && rest | some w ↦ rest ]) ≡ true
    → (rest ≡ true) × (o ≡ none → t ≡ false)
known rest false none h = (h, λ n. refl)
known rest true none h = cc
known rest t (some w) h = (h, λ n. cc)

pub find_unfold :
    (k j : ℕ) (u : Setting) (r : Settings) (v : Setting)
    → find k (entry j u r) ≡ some v
    → (if k == j then some u else find k r) ≡ some v
unfolding find
find_unfold k j u r v f = f

-- What one entry of the right-hand side says.
pub entries_equal-entry :
    (j : ℕ) (v : Setting) (r m : Settings)
    → is_ignored v ≡ false
    → entries_equal (entry j v r) m ≡ true
    → (entries_equal r m ≡ true)
      × (((find j m ≡ none) × (is_true v ≡ false))
          ⊎ ((w : Setting) × (find j m ≡ some w) × (equal v w ≡ true)))
unfolding equal
entries_equal-entry j v r m i e =
    let rest : Bool = entries_equal r m in
    chosen rest (is_true v) v (find j m) (
      ap
        (λ b.
          if b
          then rest
          else elim (find j m) [ none ↦ not (is_true v) && rest | some w ↦ equal v w && rest ])
        (sym i)
      ∙ e)

pub entries_known-entry :
    (j : ℕ) (w : Setting) (m r : Settings)
    → is_ignored w ≡ false
    → entries_known (entry j w m) r ≡ true
    → (entries_known m r ≡ true) × (find j r ≡ none → is_true w ≡ false)
unfolding entries_known
entries_known-entry j w m r i e =
    let rest : Bool = entries_known m r in
    known rest (is_true w) (find j r) (
      ap
        (λ b.
          if b then rest else elim (find j r) [ none ↦ not (is_true w) && rest | some x ↦ rest ])
        (sym i)
      ∙ e)
