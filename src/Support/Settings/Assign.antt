-- ===== src/Support/Settings/Assign.antt =====
-- mergeAndAssign against the settings that it leaves.
use software.Base.{ℕ, ◌≡◌, ◌≤◌, refl, sym, ap, ◌∙◌, some, List, [], ◌∷◌, ok, inl, inr, subst, arith}
use software.Support.Settings.{
  Setting, setting, empty, null, plain, array, object, Settings, end, entry, at, put,
  merge_and_assign, merge_and_assign_all,
}
use software.Support.Settings.Keys.{
  IsOrdered, IsMap, IsAbove, at-put, at-put_other, IsAbove-IsMap, key-cases, at-entry,
  at-entry_other,
}
use software.Support.Settings.Merge.{leaf, goes_on-ok}

-- A step of the loop that comes to its end.
merge_and_assign_all-entry :
    (j : ℕ) (v : Setting) (m r : Settings)
    → (merge_and_assign_all m (entry j v r)).0 ≡ ok tt
    → ((merge_and_assign (at j m) v).0 ≡ ok tt)
      × (merge_and_assign_all m (entry j v r)
          ≡ merge_and_assign_all (put j (merge_and_assign (at j m) v).1 m) r)
unfolding merge_and_assign
merge_and_assign_all-entry j v m r h =
    goes_on-ok (merge_and_assign (at j m) v).0 (put j (merge_and_assign (at j m) v).1 m)
      (merge_and_assign_all (put j (merge_and_assign (at j m) v).1 m) r) h

-- A key below those of the other settings is left alone.
at-merge_and_assign_all :
    (k b : ℕ) (m r : Settings)
    → k ≤ b
    → IsAbove b r
    → (merge_and_assign_all m r).0 ≡ ok tt
    → at k (merge_and_assign_all m r).1 ≡ at k m
unfolding IsOrdered merge_and_assign
at-merge_and_assign_all k b m end l a h = refl
at-merge_and_assign_all k b m (entry j v r) l a h =
    let s : Setting = (merge_and_assign (at j m) v).1 in
    let (e, p) = merge_and_assign_all-entry j v m r h in
    let rest =
      at-merge_and_assign_all k j (put j s m) r (omega (arith, a.0, l)) a.2
        (ap (λ x. x.0) (sym p) ∙ h) in
    ap (λ x. at k x.1) p ∙ rest ∙ at-put_other k j s m (λ q. omega (arith, a.0, l, q))

mutual
  unfolding merge_and_assign leaf IsOrdered

  leaf-merge_and_assign_here :
      (s r : Setting) (way : List ℕ) (x : List ℕ × Setting)
      → IsOrdered r
      → (merge_and_assign s r).0 ≡ ok tt
      → leaf way r ≡ some x
      → leaf way (merge_and_assign s r).1 ≡ some x
  leaf-merge_and_assign_here (setting j empty) r way x o h l = l
  leaf-merge_and_assign_here (setting j null) r way x o h l = l
  leaf-merge_and_assign_here (setting j (plain n c)) r way x o h l = l
  leaf-merge_and_assign_here (setting j (array es)) r way x o h l = l
  leaf-merge_and_assign_here (setting j (object m)) (setting i (object r)) [] x o h l = l
  leaf-merge_and_assign_here (setting j (object m)) (setting i (object r)) (k ∷ way) x o h l =
      leaf-merge_and_assign_all m r k way x o h l
  leaf-merge_and_assign_here (setting j (object m)) (setting i empty) way x o h l = cc
  leaf-merge_and_assign_here (setting j (object m)) (setting i null) way x o h l = cc
  leaf-merge_and_assign_here (setting j (object m)) (setting i (plain n c)) way x o h l = cc
  leaf-merge_and_assign_here (setting j (object m)) (setting i (array es)) way x o h l = cc

  leaf-merge_and_assign_all :
      (m r : Settings) (k : ℕ) (way : List ℕ) (x : List ℕ × Setting)
      → IsMap r
      → (merge_and_assign_all m r).0 ≡ ok tt
      → leaf way (at k r) ≡ some x
      → leaf way (at k (merge_and_assign_all m r).1) ≡ some x
  leaf-merge_and_assign_all m end k way x o h l = cc
  leaf-merge_and_assign_all m (entry j v r) k way x o h l =
      let s : Setting = (merge_and_assign (at j m) v).1 in
      let (e, p) = merge_and_assign_all-entry j v m r h in
      let h' = ap (λ y. y.0) (sym p) ∙ h in
      ap (λ y. leaf way (at k y.1)) p ∙ (elim (key-cases k j) [
        | inl q ↦
            let same =
              at-merge_and_assign_all j j (put j s m) r (omega arith) o.1 h' ∙ at-put j s m in
            let got =
              leaf-merge_and_assign_here (at j m) v way x o.0 e
                (ap (leaf way) (sym (at-entry k j v r q)) ∙ l) in
            subst (λ i. leaf way (at i (merge_and_assign_all (put j s m) r).1) ≡ some x) (sym q)
              (ap (leaf way) same ∙ got)
        | inr n ↦
            leaf-merge_and_assign_all (put j s m) r k way x (IsAbove-IsMap j r o.1) h'
              (ap (leaf way) (sym (at-entry_other k j v r n)) ∙ l)
      ])

-- What the other settings set on a way of keys stands there when mergeAndAssign returns. The keys of
-- the other settings are in order.
pub leaf-merge_and_assign :
    (s r : Setting) (way : List ℕ) (x : List ℕ × Setting)
    → IsOrdered r
    → (merge_and_assign s r).0 ≡ ok tt
    → leaf way r ≡ some x
    → leaf way (merge_and_assign s r).1 ≡ some x
leaf-merge_and_assign s r way x o h l = leaf-merge_and_assign_here s r way x o h l
