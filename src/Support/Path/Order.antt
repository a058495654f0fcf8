-- ===== src/Support/Path/Order.antt =====
-- PackagePath::operator<. Boost's iequals is a parameter that compares strings up to case.
use software.Base.{
  ℕ, suc, ◌≡◌, refl, sym, ap, ◌∙◌, ◌↔◌, Bool, true, false, ◌||◌, if◌then◌else◌, ltb, arith, List,
  [], ◌∷◌, map, Bool-cases, inl, inr,
}
use software.Support.Path.{Str, PackagePath, to_lower, less_by, namespaces, namespace_order, less}

pub record IsStrictOrder {ℓ} {A : Type ℓ} (lt : A → A → Bool) : Type ℓ where
  pub asym : (x y : A) → lt x y ≡ true → lt y x ≡ false
  pub trans : (x y z : A) → lt x y ≡ true → lt y z ≡ true → lt x z ≡ true

-- A strict weak order: of two ordered elements any third is above the first or below the second.
pub record IsWeakOrder {ℓ} {A : Type ℓ} (lt : A → A → Bool) : Type ℓ where
  pub asym : (x y : A) → lt x y ≡ true → lt y x ≡ false
  pub cotrans : (x y z : A) → lt x z ≡ true → (lt x y || lt y z) ≡ true

module _ {ℓ} {A : Type ℓ} (lt : A → A → Bool) (w : IsWeakOrder lt) where
  less_by-asym : (xs ys : List A) → less_by lt xs ys ≡ true → less_by lt ys xs ≡ false
  less_by-asym [] [] h = cc
  less_by-asym [] (y ∷ ys) h = refl
  less_by-asym (x ∷ xs) [] h = cc
  less_by-asym (x ∷ xs) (y ∷ ys) h = ground (arith, w.asym x y, less_by-asym xs ys)

  less_by-cotrans :
      (xs ys zs : List A) → less_by lt xs zs ≡ true → (less_by lt xs ys || less_by lt ys zs) ≡ true
  less_by-cotrans [] ys [] h = absurd (cc)
  less_by-cotrans (x ∷ xs) ys [] h = absurd (cc)
  less_by-cotrans [] [] (z ∷ zs) h = refl
  less_by-cotrans [] (y ∷ ys) (z ∷ zs) h = refl
  less_by-cotrans (x ∷ xs) [] (z ∷ zs) h = refl
  less_by-cotrans (x ∷ xs) (y ∷ ys) (z ∷ zs) h =
      ground (arith, w.cotrans x y z, w.cotrans y z x, w.cotrans z x y, less_by-cotrans xs ys zs)

  less_by_trans :
      (xs ys zs : List A)
      → less_by lt xs ys ≡ true
      → less_by lt ys zs ≡ true
      → less_by lt xs zs ≡ true
  less_by_trans xs ys zs h k = ground (arith, less_by-cotrans xs zs ys h, less_by-asym ys zs k)

  pub less_by-IsWeakOrder : IsWeakOrder (less_by lt)
  less_by-IsWeakOrder = record { asym = less_by-asym; cotrans = less_by-cotrans }

abbrev less_char : ℕ → ℕ → Bool
less_char a b = ltb (to_lower a) (to_lower b)

less_char-IsWeakOrder : IsWeakOrder less_char
less_char-IsWeakOrder = record { asym = λ x y h. ground arith; cotrans = λ x y z h. ground arith }

elements-IsWeakOrder : IsWeakOrder (less_by (less_by less_char))
elements-IsWeakOrder = less_by-IsWeakOrder _ (less_by-IsWeakOrder _ less_char-IsWeakOrder)

module _ (iequals : Str → Str → Bool)
    (up_to_case : (a b : Str) → (iequals a b ≡ true) ↔ (map to_lower a ≡ map to_lower b)) where
  iequals_refl : (a : Str) → iequals a a ≡ true
  iequals_refl a = (up_to_case a a).1 refl

  iequals_cong : (a b c : Str) → iequals a b ≡ true → iequals a c ≡ iequals b c
  iequals_cong a b c h =
      let same = (up_to_case a b).0 h in
      elim (Bool-cases (iequals a c)) [
        | inl p ↦ p ∙ sym ((up_to_case b c).1 (sym same ∙ (up_to_case a c).0 p))
        | inr p ↦ elim (Bool-cases (iequals b c)) [
          | inl q ↦ absurd (cc (sym p ∙ (up_to_case a c).1 (same ∙ (up_to_case b c).0 q)))
          | inr q ↦ p ∙ sym q
        ]
      ]

  iequals_sym : (a b : Str) → iequals a b ≡ iequals b a
  iequals_sym a b = elim (Bool-cases (iequals a b)) [
    | inl p ↦ p ∙ sym ((up_to_case b a).1 (sym ((up_to_case a b).0 p)))
    | inr p ↦ elim (Bool-cases (iequals b a)) [
      | inl q ↦ absurd (cc (sym p ∙ (up_to_case a b).1 (sym ((up_to_case b a).0 q))))
      | inr q ↦ p ∙ sym q
    ]
  ]

  -- The place of a namespace in the list; those that are not listed come last.
  rank : List Str → Str → ℕ
  rank [] a = 0
  rank (n ∷ ns) a = if iequals a n then 0 else suc (rank ns a)

  rank_cong : (ns : List Str) (a b : Str) → iequals a b ≡ true → rank ns a ≡ rank ns b
  unfolding rank
  rank_cong [] a b h = refl
  rank_cong (n ∷ ns) a b h = rw (iequals_cong a b n h, rank_cong ns a b h) refl

  namespace_order-rank :
      (ns : List Str) (a b : Str)
      → iequals a b ≡ false
      → namespace_order iequals ns a b ≡ ltb (rank ns a) (rank ns b)
  unfolding namespace_order rank
  namespace_order-rank [] a b h = refl
  namespace_order-rank (n ∷ ns) a b h =
      ground (arith, iequals_cong a n b, iequals_sym n b, namespace_order-rank ns a b h)

  less_head :
      (x y : Str) (xs ys : PackagePath)
      → iequals x y ≡ false
      → less iequals (x ∷ xs) (y ∷ ys) ≡ ltb (rank namespaces x) (rank namespaces y)
  unfolding less
  less_head x y xs ys h = rw h (namespace_order-rank namespaces x y h)

  less_tail :
      (x y : Str) (xs ys : PackagePath)
      → iequals x y ≡ true
      → less iequals (x ∷ xs) (y ∷ ys) ≡ less_by (less_by less_char) (x ∷ xs) (y ∷ ys)
  unfolding less
  less_tail x y xs ys h = rw h refl

  less_asym : (p q : PackagePath) → less iequals p q ≡ true → less iequals q p ≡ false
  unfolding less
  less_asym [] [] h = refl
  less_asym [] (y ∷ ys) h = refl
  less_asym (x ∷ xs) [] h = cc
  less_asym (x ∷ xs) (y ∷ ys) h = elim (Bool-cases (iequals x y)) [
    | inl e ↦
        less_tail y x ys xs (sym (iequals_sym x y) ∙ e)
        ∙ elements-IsWeakOrder.asym (x ∷ xs) (y ∷ ys) (sym (less_tail x y xs ys e) ∙ h)
    | inr e ↦ ground (arith, less_head x y xs ys e, less_head y x ys xs (sym (iequals_sym x y) ∙ e))
  ]

  less-heads :
      (x y z : Str) (xs ys zs : PackagePath)
      → less iequals (x ∷ xs) (y ∷ ys) ≡ true
      → less iequals (y ∷ ys) (z ∷ zs) ≡ true
      → less iequals (x ∷ xs) (z ∷ zs) ≡ true
  less-heads x y z xs ys zs h k = elim (Bool-cases (iequals x y)) [
    | inl e ↦ elim (Bool-cases (iequals y z)) [
      | inl f ↦
          less_tail x z xs zs (iequals_cong x y z e ∙ f)
          ∙ less_by_trans _ (less_by-IsWeakOrder _ less_char-IsWeakOrder) (x ∷ xs) (y ∷ ys) (z ∷ zs)
              (sym (less_tail x y xs ys e) ∙ h) (sym (less_tail y z ys zs f) ∙ k)
      | inr f ↦
          less_head x z xs zs (iequals_cong x y z e ∙ f)
          ∙ ap (λ r. ltb r (rank namespaces z)) (rank_cong namespaces x y e)
          ∙ sym (less_head y z ys zs f)
          ∙ k
    ]
    | inr e ↦ elim (Bool-cases (iequals y z)) [
      | inl f ↦
          let same = iequals_sym x z ∙ sym (iequals_cong y z x f) ∙ iequals_sym y x ∙ e in
          less_head x z xs zs same
          ∙ ap (λ r. ltb (rank namespaces x) r) (sym (rank_cong namespaces y z f))
          ∙ sym (less_head x y xs ys e)
          ∙ h
      | inr f ↦ ground (
        arith,
        less_head x y xs ys e,
        less_head y z ys zs f,
        less_head x z xs zs,
        rank_cong namespaces x z,
      )
    ]
  ]

  less_trans :
      (p q r : PackagePath)
      → less iequals p q ≡ true
      → less iequals q r ≡ true
      → less iequals p r ≡ true
  unfolding less
  less_trans [] [] r h k = k
  less_trans [] (y ∷ ys) [] h k = absurd (cc)
  less_trans [] (y ∷ ys) (z ∷ zs) h k = refl
  less_trans (x ∷ xs) [] r h k = absurd (cc)
  less_trans (x ∷ xs) (y ∷ ys) [] h k = absurd (cc)
  less_trans (x ∷ xs) (y ∷ ys) (z ∷ zs) h k = less-heads x y z xs ys zs h k

  -- operator< is a strict order when iequals compares up to case: no two paths are each before the
  -- other, and it is transitive.
  pub less-IsStrictOrder : IsStrictOrder (less iequals)
  less-IsStrictOrder = record { asym = less_asym; trans = less_trans }
