-- ===== src/Base/Select.antt =====
-- Selecting from a list by a test: the first element, the elements, and whether there is one.
use mathlib.Core.Path.{◌≡◌, refl, sym, ap, subst, ◌∙◌}
use mathlib.Core.Bool.{Bool, true, false, ◌||◌}
use mathlib.Core.List.{List, [], ◌∷◌, ◌++◌}
use mathlib.Core.Option.{Option, none, some}
use native.Mathlib.Omega.{arith}
use mathlib.Core.Logic.{inl, inr}
use software.Base.Tests.{if◌then◌else◌, Bool-cases, some-eq}
use software.Base.Lists.{All}

module _ {ℓ} {A : Type ℓ} where
  abbrev pub find_by : (A → Bool) → List A → Option A
  find_by p [] = none
  find_by p (x ∷ xs) = let rest = find_by p xs in if p x then some x else rest

  abbrev pub filter_by : (A → Bool) → List A → List A
  filter_by p [] = []
  filter_by p (x ∷ xs) = let rest = filter_by p xs in if p x then x ∷ rest else rest

  abbrev pub any : (A → Bool) → List A → Bool
  any p [] = false
  any p (x ∷ xs) = p x || any p xs

  pub find_by-append_none :
      (p : A → Bool) (xs ys : List A) → find_by p xs ≡ none → find_by p (xs ++ ys) ≡ find_by p ys
  find_by-append_none p [] ys h = refl
  find_by-append_none p (x ∷ xs) ys h = ground (arith, find_by-append_none p xs ys)

  pub find_by-append_some :
      (p : A → Bool) (xs ys : List A) (x : A)
      → find_by p xs ≡ some x
      → find_by p (xs ++ ys) ≡ some x
  find_by-append_some p [] ys x h = cc
  find_by-append_some p (y ∷ xs) ys x h = ground (arith, find_by-append_some p xs ys x)

  -- What is found satisfies the test, and whatever holds of all.
  pub find_by-found {κ} :
      (P : A → Type κ) (p : A → Bool) (xs : List A) (x : A)
      → All P xs
      → find_by p xs ≡ some x
      → P x × (p x ≡ true)
  find_by-found P p [] x h e = cc
  find_by-found P p (y ∷ xs) x h e = elim (Bool-cases (p y)) [
    | inl q ↦
        let same : y ≡ x = some-eq (sym (ap (λ b. if b then some y else find_by p xs) q) ∙ e) in
        subst (λ z. P z × (p z ≡ true)) same (h.0, q)
    | inr q ↦ find_by-found P p xs x h.1 (sym (ap (λ b. if b then some y else find_by p xs) q) ∙ e)
  ]

  pub find_by-none : (p : A → Bool) (xs : List A) → All (λ x. p x ≡ false) xs → find_by p xs ≡ none
  find_by-none p [] h = refl
  find_by-none p (x ∷ xs) h = ground (arith, find_by-none p xs)

  pub All-find_by-none :
      (p : A → Bool) (xs : List A) → find_by p xs ≡ none → All (λ x. p x ≡ false) xs
  All-find_by-none p [] h = tt
  All-find_by-none p (x ∷ xs) h = ground (arith, All-find_by-none p xs)

  pub any-append : (p : A → Bool) (xs ys : List A) → any p (xs ++ ys) ≡ (any p xs || any p ys)
  any-append p [] ys = refl
  any-append p (x ∷ xs) ys = ground (arith, any-append p xs ys)

  pub any-none : (p : A → Bool) (xs : List A) → All (λ x. p x ≡ false) xs → any p xs ≡ false
  any-none p [] h = refl
  any-none p (x ∷ xs) h = ground (arith, any-none p xs)

  pub All-any-false : (p : A → Bool) (xs : List A) → any p xs ≡ false → All (λ x. p x ≡ false) xs
  All-any-false p [] h = tt
  All-any-false p (x ∷ xs) h = ground (arith, All-any-false p xs)

  pub any-found : (p : A → Bool) (xs : List A) → any p xs ≡ true → (x : A) × (find_by p xs ≡ some x)
  any-found p [] h = cc
  any-found p (x ∷ xs) h = elim (Bool-cases (p x)) [
    | inl e ↦ (x, ap (λ b. if b then some x else find_by p xs) e)
    | inr e ↦
        let (y, f) = any-found p xs (sym (ap (λ b. b || any p xs) e) ∙ h) in
        (y, ap (λ b. if b then some x else find_by p xs) e ∙ f)
  ]

  pub any-imp :
      (p q : A → Bool) (xs : List A)
      → ((x : A) → p x ≡ true → q x ≡ true)
      → any p xs ≡ true
      → any q xs ≡ true
  any-imp p q [] h e = cc
  any-imp p q (x ∷ xs) h e = elim (Bool-cases (p x)) [
    | inl f ↦ ap (λ b. b || any q xs) (h x f)
    | inr f ↦
        let rest = any-imp p q xs h (sym (ap (λ b. b || any p xs) f) ∙ e) in
        elim (Bool-cases (q x)) [
          | inl g ↦ ap (λ b. b || any q xs) g
          | inr g ↦ ap (λ b. b || any q xs) g ∙ rest
        ]
  ]

  pub All-filter_by {κ} :
      (P : A → Type κ) (p : A → Bool) (xs : List A) → All P xs → All P (filter_by p xs)
  All-filter_by P p [] h = tt
  All-filter_by P p (x ∷ xs) h = elim (Bool-cases (p x)) [
    | inl e ↦
        subst (λ b. All P (if b then x ∷ filter_by p xs else filter_by p xs)) (sym e)
          (h.0, All-filter_by P p xs h.1)
    | inr e ↦
        subst (λ b. All P (if b then x ∷ filter_by p xs else filter_by p xs)) (sym e)
          (All-filter_by P p xs h.1)
  ]

  pub filter_by-holds : (p : A → Bool) (xs : List A) → All (λ x. p x ≡ true) (filter_by p xs)
  filter_by-holds p [] = tt
  filter_by-holds p (x ∷ xs) = elim (Bool-cases (p x)) [
    | inl e ↦
        subst (λ b. All (λ y. p y ≡ true) (if b then x ∷ filter_by p xs else filter_by p xs))
          (sym e) (e, filter_by-holds p xs)
    | inr e ↦
        subst (λ b. All (λ y. p y ≡ true) (if b then x ∷ filter_by p xs else filter_by p xs))
          (sym e) (filter_by-holds p xs)
  ]

  pub any-filter_by :
      (p q : A → Bool) (xs : List A)
      → ((x : A) → q x ≡ true → p x ≡ true)
      → any q xs ≡ true
      → any q (filter_by p xs) ≡ true
  any-filter_by p q [] h e = cc
  any-filter_by p q (x ∷ xs) h e = elim (Bool-cases (q x)) [
    | inl f ↦
        ap (λ b. any q (if b then x ∷ filter_by p xs else filter_by p xs)) (h x f)
        ∙ ap (λ b. b || any q (filter_by p xs)) f
    | inr f ↦
        let rest = any-filter_by p q xs h (sym (ap (λ b. b || any q xs) f) ∙ e) in
        elim (Bool-cases (p x)) [
          | inl g ↦
              ap (λ b. any q (if b then x ∷ filter_by p xs else filter_by p xs)) g
              ∙ ap (λ b. b || any q (filter_by p xs)) f
              ∙ rest
          | inr g ↦ ap (λ b. any q (if b then x ∷ filter_by p xs else filter_by p xs)) g ∙ rest
        ]
  ]
