-- ===== src/Support/Settings/Hash/Equal.antt =====
-- Equal settings have one hash.
use software.Base.{
  ℕ, ◌≡◌, refl, sym, ap, ap₂, ◌∙◌, Bool, true, false, ◌&&◌, ◌==◌, ==_iff, if◌then◌else◌, Bool-cases,
  Option-cases, and-split, none, some, some-eq, inl, inr, subst,
}
use software.Support.Settings.{
  Setting, setting, empty, null, plain, array, object, Elements, nil, element, Settings, end, entry,
  is_empty, is_true, is_bool_true, find, at, unset, equal, elements_equal, entries_equal,
  entries_known,
}
use software.Support.Settings.Keys.{IsOrdered, AreOrdered, IsMap, IsAbove-IsMap}
use software.Support.Settings.Hash.{hash_of, hash_elements}
use software.Support.Settings.Hash.Fold.{hash_at, hashed, Agree, folded-Agree}
use software.Support.Settings.Hash.Compared.{
  IsCompared, AreCompared, AllAreCompared, compared, not_equal, is_ignored-IsCompared,
  AllAreCompared-NoneIsIgnored, find-IsCompared, find-IsOrdered, find_unfold, entries_equal-entry,
  entries_known-entry,
}

module _ (combine : ℕ → ℕ → ℕ) (hash_key : ℕ → ℕ) (hash_plain : (index content : ℕ) → ℕ) where
  hashed-not_true : (s : Setting) → is_true s ≡ false → hashed combine hash_key hash_plain s ≡ 0
  unfolding is_true is_empty is_bool_true hash_of
  hashed-not_true (setting i empty) h = refl
  hashed-not_true (setting i null) h = cc
  hashed-not_true (setting i (plain n c)) h = cc
  hashed-not_true (setting i (array es)) h = cc
  hashed-not_true (setting i (object m)) h = cc

  hash_at-found :
      (k : ℕ) (m : Settings) (w : Setting)
      → find k m ≡ some w
      → hash_at combine hash_key hash_plain k m ≡ hashed combine hash_key hash_plain w
  unfolding at
  hash_at-found k m w e =
      ap (λ o. hashed combine hash_key hash_plain (elim o [ none ↦ unset | some x ↦ x ])) e

  hash_at-missing :
      (k : ℕ) (m : Settings) → find k m ≡ none → hash_at combine hash_key hash_plain k m ≡ 0
  unfolding at hash_of
  hash_at-missing k m e =
      ap (λ o. hashed combine hash_key hash_plain (elim o [ none ↦ unset | some x ↦ x ])) e

  -- A setting of the left-hand side that the right-hand side does not have.
  hashed-known :
      (m r : Settings) (k : ℕ) (w : Setting)
      → AllAreCompared m
      → entries_known m r ≡ true
      → find k m ≡ some w
      → find k r ≡ none
      → hashed combine hash_key hash_plain w ≡ 0
  unfolding IsCompared find
  hashed-known end r k w a e f n = cc
  hashed-known (entry j u m) r k w a e f n =
      let (rest, c) = entries_known-entry j u m r (is_ignored-IsCompared u a.0) e in
      let found : (b : Bool) → (k == j) ≡ b → (if b then some u else find k m) ≡ some w =
        λ b q. ap (λ x. if x then some u else find k m) (sym q) ∙ f in
      elim (Bool-cases (k == j)) [
        | inl q ↦
            let no_j : find j r ≡ none = subst (λ x. find x r ≡ none) ((==_iff k j).0 q) n in
            ap (hashed combine hash_key hash_plain) (sym (some-eq (found true q)))
            ∙ hashed-not_true u (c no_j)
        | inr q ↦ hashed-known m r k w a.1 rest (found false q) n
      ]

  hash_entries-Agree :
      (r m : Settings)
      → AllAreCompared m
      → ((k : ℕ) (v : Setting)
          → find k r ≡ some v
          → hash_at combine hash_key hash_plain k m ≡ hashed combine hash_key hash_plain v)
      → entries_known m r ≡ true
      → Agree combine hash_key hash_plain m r
  hash_entries-Agree r m a each e k = elim (Option-cases (find k r)) [
    | inr (v, f) ↦ each k v f ∙ sym (hash_at-found k r v f)
    | inl n ↦ elim (Option-cases (find k m)) [
      | inr (w, g) ↦
          hash_at-found k m w g ∙ hashed-known m r k w a e g n ∙ sym (hash_at-missing k r n)
      | inl g ↦ hash_at-missing k m g ∙ sym (hash_at-missing k r n)
    ]
  ]

  mutual
    unfolding equal hash_of IsCompared IsOrdered

    hash_of-equal_here :
        (r s : Setting)
        → IsCompared r
        → IsCompared s
        → IsOrdered r
        → IsOrdered s
        → equal r s ≡ true
        → hashed combine hash_key hash_plain s ≡ hashed combine hash_key hash_plain r
    hash_of-equal_here (setting i empty) (setting j empty) a b o o' e = refl
    hash_of-equal_here (setting i empty) (setting j null) a b o o' e = elim (not_equal j b.0 e) [ ]
    hash_of-equal_here (setting i empty) (setting j (plain n2 c2)) a b o o' e =
        elim (not_equal j b.0 e) [ ]
    hash_of-equal_here (setting i empty) (setting j (array fs)) a b o o' e =
        elim (not_equal j b.0 e) [ ]
    hash_of-equal_here (setting i empty) (setting j (object m)) a b o o' e =
        elim (not_equal j b.0 e) [ ]
    hash_of-equal_here (setting i null) (setting j empty) a b o o' e = elim (not_equal j b.0 e) [ ]
    hash_of-equal_here (setting i null) (setting j null) a b o o' e = refl
    hash_of-equal_here (setting i null) (setting j (plain n2 c2)) a b o o' e =
        elim (not_equal j b.0 e) [ ]
    hash_of-equal_here (setting i null) (setting j (array fs)) a b o o' e =
        elim (not_equal j b.0 e) [ ]
    hash_of-equal_here (setting i null) (setting j (object m)) a b o o' e =
        elim (not_equal j b.0 e) [ ]
    hash_of-equal_here (setting i (plain n c)) (setting j empty) a b o o' e =
        elim (not_equal j b.0 e) [ ]
    hash_of-equal_here (setting i (plain n c)) (setting j null) a b o o' e =
        elim (not_equal j b.0 e) [ ]
    hash_of-equal_here (setting i (plain n c)) (setting j (plain n2 c2)) a b o o' e =
        let (p, q) = and-split (n == n2) (c == c2) (compared j ((n == n2) && (c == c2)) b.0 e) in
        ap₂ hash_plain (sym ((==_iff n n2).0 p)) (sym ((==_iff c c2).0 q))
    hash_of-equal_here (setting i (plain n c)) (setting j (array fs)) a b o o' e =
        elim (not_equal j b.0 e) [ ]
    hash_of-equal_here (setting i (plain n c)) (setting j (object m)) a b o o' e =
        elim (not_equal j b.0 e) [ ]
    hash_of-equal_here (setting i (array es)) (setting j empty) a b o o' e =
        elim (not_equal j b.0 e) [ ]
    hash_of-equal_here (setting i (array es)) (setting j null) a b o o' e =
        elim (not_equal j b.0 e) [ ]
    hash_of-equal_here (setting i (array es)) (setting j (plain n2 c2)) a b o o' e =
        elim (not_equal j b.0 e) [ ]
    hash_of-equal_here (setting i (array es)) (setting j (array fs)) a b o o' e =
        hash_elements-equal es fs 0 a.1 b.1 o o' (compared j (elements_equal es fs) b.0 e)
    hash_of-equal_here (setting i (array es)) (setting j (object m)) a b o o' e =
        elim (not_equal j b.0 e) [ ]
    hash_of-equal_here (setting i (object r)) (setting j empty) a b o o' e =
        elim (not_equal j b.0 e) [ ]
    hash_of-equal_here (setting i (object r)) (setting j null) a b o o' e =
        elim (not_equal j b.0 e) [ ]
    hash_of-equal_here (setting i (object r)) (setting j (plain n2 c2)) a b o o' e =
        elim (not_equal j b.0 e) [ ]
    hash_of-equal_here (setting i (object r)) (setting j (array fs)) a b o o' e =
        elim (not_equal j b.0 e) [ ]
    hash_of-equal_here (setting i (object r)) (setting j (object m)) a b o o' e =
        let (p, q) =
          and-split (entries_equal r m) (entries_known m r)
            (compared j (entries_equal r m && entries_known m r) b.0 e) in
        ap (combine 0) (
          folded-Agree combine hash_key hash_plain r o (AllAreCompared-NoneIsIgnored r a.1) m 0 o'
            (AllAreCompared-NoneIsIgnored m b.1)
            (hash_entries-Agree r m b.1 (hash_entries-equal r m a.1 b.1 o o' p) q))

    hash_elements-equal :
        (es fs : Elements) (h : ℕ)
        → AreCompared es
        → AreCompared fs
        → AreOrdered es
        → AreOrdered fs
        → elements_equal es fs ≡ true
        → hash_elements combine hash_key hash_plain fs h
          ≡ hash_elements combine hash_key hash_plain es h
    hash_elements-equal nil nil h a b o o' e = refl
    hash_elements-equal nil (element w fs) h a b o o' e = cc
    hash_elements-equal (element v es) nil h a b o o' e = cc
    hash_elements-equal (element v es) (element w fs) h (a, as') (b, bs) (o, os) (o', os') e =
        let (p, q) = and-split (equal v w) (elements_equal es fs) e in
        ap (λ x. hash_elements combine hash_key hash_plain fs (combine h x))
          (hash_of-equal_here v w a b o o' p)
        ∙ hash_elements-equal es fs (combine h (hashed combine hash_key hash_plain v)) as' bs os os'
            q

    hash_entries-equal :
        (r m : Settings)
        → AllAreCompared r
        → AllAreCompared m
        → IsMap r
        → IsMap m
        → entries_equal r m ≡ true
        → (k : ℕ) (v : Setting) → find k r ≡ some v
        → hash_at combine hash_key hash_plain k m ≡ hashed combine hash_key hash_plain v
    hash_entries-equal end m a b o o' e k v f = cc
    hash_entries-equal (entry j u r) m a b o o' e k v f =
        let (rest, c) = entries_equal-entry j u r m (is_ignored-IsCompared u a.0) e in
        let found : (x : Bool) → (k == j) ≡ x → (if x then some u else find k r) ≡ some v =
          λ x q. ap (λ y. if y then some u else find k r) (sym q) ∙ find_unfold k j u r v f in
        elim (Bool-cases (k == j)) [
          | inl q ↦
              let at_j : hash_at combine hash_key hash_plain k m
                  ≡ hash_at combine hash_key hash_plain j m =
                ap (λ x. hash_at combine hash_key hash_plain x m) ((==_iff k j).0 q) in
              let u_is_v = ap (hashed combine hash_key hash_plain) (some-eq (found true q)) in
              elim c [
                | inl (n, t) ↦ at_j ∙ hash_at-missing j m n ∙ sym (hashed-not_true u t) ∙ u_is_v
                | inr (w, g, p) ↦
                    at_j
                    ∙ hash_at-found j m w g
                    ∙ hash_of-equal_here u w a.0 (find-IsCompared j m w b g) o.0
                        (find-IsOrdered j m w o' g) p
                    ∙ u_is_v
              ]
          | inr q ↦ hash_entries-equal r m a.1 b (IsAbove-IsMap j r o.1) o' rest k v (found false q)
        ]

  -- Equal settings have one hash, when nothing in them is ignored in comparisons and their keys are in order.
  pub hash_of-equal :
      (r s : Setting)
      → IsCompared r
      → IsCompared s
      → IsOrdered r
      → IsOrdered s
      → equal r s ≡ true
      → hash_of combine hash_key hash_plain s ≡ hash_of combine hash_key hash_plain r
  hash_of-equal r s a b o o' e = hash_of-equal_here r s a b o o' e
