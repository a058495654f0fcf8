-- ===== src/Support/Settings/Merge.antt =====
-- mergeMissing and mergeAndAssign against the settings that they leave.
use software.Base.{
  ℕ, ◌≡◌, refl, sym, ap, ◌∙◌, Option, none, some, List, [], ◌∷◌, Result, ok, err, inl, inr, subst,
}
use software.Support.Settings.{
  Setting, setting, empty, null, plain, array, object, Settings, end, entry, Error, at, put, unset,
  merge_missing, merge_missing_all,
}
use software.Support.Settings.Keys.{
  IsOrdered, IsMap, IsAbove, at-put, at-put_other, at-IsAbove, IsAbove-IsMap, key-cases, at-entry,
  at-entry_other,
}

-- What is set on a way of keys: the first setting that is neither empty nor an object, and what is left
-- of the way there.
unfoldable pub leaf : List ℕ → Setting → Option (List ℕ × Setting)
unfolding at
leaf way (setting i empty) = none
leaf way (setting i null) = some (way, setting i null)
leaf way (setting i (plain n c)) = some (way, setting i (plain n c))
leaf way (setting i (array es)) = some (way, setting i (array es))
leaf [] (setting i (object m)) = none
leaf (k ∷ way) (setting i (object m)) = leaf way (at k m)

abbrev pub or_else :
    Option (List ℕ × Setting) → Option (List ℕ × Setting) → Option (List ℕ × Setting)
or_else a b = elim a [ some x ↦ some x | none ↦ b ]

leaf-unset : (way : List ℕ) → leaf way unset ≡ none
unfolding leaf
leaf-unset way = refl

or_else-none : (a : Option (List ℕ × Setting)) → or_else a none ≡ a
or_else-none none = refl
or_else-none (some x) = refl

-- What is set on a way after a merge, from what one setting of the right-hand side leaves there.
leaf-at :
    (k j : ℕ) (way : List ℕ) (v s : Setting) (r m : Settings)
    → leaf way s ≡ or_else (leaf way (at j m)) (leaf way v)
    → IsAbove j r
    → or_else (leaf way (at k (put j s m))) (leaf way (at k r))
      ≡ or_else (leaf way (at k m)) (leaf way (at k (entry j v r)))
unfolding leaf
leaf-at k j way v s r m h a = elim (key-cases k j) [
  | inl e ↦
      let x : at k (put j s m) ≡ s = subst (λ i. at k (put i s m) ≡ s) e (at-put k s m) in
      let y : at k r ≡ unset = at-IsAbove k r (subst (λ i. IsAbove i r) (sym e) a) in
      ap (λ t. or_else (leaf way t) (leaf way (at k r))) x
      ∙ ap (λ t. or_else (leaf way s) (leaf way t)) y
      ∙ or_else-none (leaf way s)
      ∙ subst (λ i. leaf way s ≡ or_else (leaf way (at i m)) (leaf way v)) (sym e) h
      ∙ ap (λ t. or_else (leaf way (at k m)) (leaf way t)) (sym (at-entry k j v r e))
  | inr n ↦
      ap (λ t. or_else (leaf way t) (leaf way (at k r))) (at-put_other k j s m n)
      ∙ ap (λ t. or_else (leaf way (at k m)) (leaf way t)) (sym (at-entry_other k j v r n))
]

abbrev pub goes_on :
    Result Error (Unit {0})
    → Settings
    → Result Error (Unit {0}) × Settings
    → Result Error (Unit {0}) × Settings
goes_on e x y = elim e [ err z ↦ (err z, x) | ok u ↦ y ]

pub goes_on-ok :
    (e : Result Error (Unit {0})) (x : Settings) (y : Result Error (Unit {0}) × Settings)
    → (goes_on e x y).0 ≡ ok tt
    → (e ≡ ok tt) × (goes_on e x y ≡ y)
goes_on-ok (ok u) x y h = (refl, refl)
goes_on-ok (err z) x y h = cc

-- A step of the loop that comes to its end.
merge_missing_all-entry :
    (j : ℕ) (v : Setting) (m r : Settings)
    → (merge_missing_all m (entry j v r)).0 ≡ ok tt
    → ((merge_missing (at j m) v).0 ≡ ok tt)
      × (merge_missing_all m (entry j v r)
          ≡ merge_missing_all (put j (merge_missing (at j m) v).1 m) r)
unfolding merge_missing
merge_missing_all-entry j v m r h =
    goes_on-ok (merge_missing (at j m) v).0 (put j (merge_missing (at j m) v).1 m)
      (merge_missing_all (put j (merge_missing (at j m) v).1 m) r) h

mutual
  unfolding merge_missing leaf IsOrdered

  leaf-merge_missing_here :
      (s r : Setting) (way : List ℕ)
      → IsOrdered r
      → (merge_missing s r).0 ≡ ok tt
      → leaf way (merge_missing s r).1 ≡ or_else (leaf way s) (leaf way r)
  leaf-merge_missing_here (setting j empty) r way o h = refl
  leaf-merge_missing_here (setting j null) r way o h = refl
  leaf-merge_missing_here (setting j (plain n c)) r way o h = refl
  leaf-merge_missing_here (setting j (array es)) r way o h = refl
  leaf-merge_missing_here (setting j (object m)) (setting i (object r)) [] o h = refl
  leaf-merge_missing_here (setting j (object m)) (setting i (object r)) (k ∷ way) o h =
      leaf-merge_missing_all m r k way o h
  leaf-merge_missing_here (setting j (object m)) (setting i empty) way o h = cc
  leaf-merge_missing_here (setting j (object m)) (setting i null) way o h = cc
  leaf-merge_missing_here (setting j (object m)) (setting i (plain n c)) way o h = cc
  leaf-merge_missing_here (setting j (object m)) (setting i (array es)) way o h = cc

  leaf-merge_missing_all :
      (m r : Settings) (k : ℕ) (way : List ℕ)
      → IsMap r
      → (merge_missing_all m r).0 ≡ ok tt
      → leaf way (at k (merge_missing_all m r).1) ≡ or_else (leaf way (at k m)) (leaf way (at k r))
  leaf-merge_missing_all m end k way o h = sym (or_else-none (leaf way (at k m)))
  leaf-merge_missing_all m (entry j v r) k way o h =
      let s : Setting = (merge_missing (at j m) v).1 in
      let (e, p) = merge_missing_all-entry j v m r h in
      let first = leaf-merge_missing_here (at j m) v way o.0 e in
      let rest =
        leaf-merge_missing_all (put j s m) r k way (IsAbove-IsMap j r o.1)
          (ap (λ x. x.0) (sym p) ∙ h) in
      ap (λ x. leaf way (at k x.1)) p ∙ rest ∙ leaf-at k j way v s r m first o.1

-- What mergeMissing leaves on a way of keys when it returns: what was set there before, and else what
-- the other settings set. The keys of the other settings are in order.
pub leaf-merge_missing :
    (s r : Setting) (way : List ℕ)
    → IsOrdered r
    → (merge_missing s r).0 ≡ ok tt
    → leaf way (merge_missing s r).1 ≡ or_else (leaf way s) (leaf way r)
leaf-merge_missing s r way o h = leaf-merge_missing_here s r way o h
