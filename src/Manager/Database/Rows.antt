-- ===== src/Manager/Database/Rows.antt =====
-- Ids of rows: distinct, and kept when rows are taken out or added.
use software.Base.{
  ℕ, ◌≡◌, refl, sym, ap, subst, ◌∙◌, Bool, true, false, not, ◌&&◌, ◌||◌, ◌==◌, if◌then◌else◌,
  Bool-cases, List, [], ◌∷◌, ◌++◌, map, mem, mem-append, distinct, distinct_snoc, distinct-split,
  find_by, find_by-found, some, some-eq, All, All-map, filter_by, any, inl, inr, arith,
}

module _ {ℓ} {A : Type ℓ} (id : A → ℕ) where
  pub map-append : (xs ys : List A) → map id (xs ++ ys) ≡ map id xs ++ map id ys
  map-append [] ys = refl
  map-append (x ∷ xs) ys = ap (λ zs. id x ∷ zs) (map-append xs ys)

  pub mem-map_kept :
      (i : ℕ) (xs ys : List A) → mem i (map id xs) ≡ true → mem i (map id (xs ++ ys)) ≡ true
  mem-map_kept i xs ys h =
      ap (mem i) (map-append xs ys)
      ∙ mem-append i (map id xs) (map id ys)
      ∙ ap (λ b. b || mem i (map id ys)) h

  pub mem-map_last : (xs : List A) (x : A) → mem (id x) (map id (xs ++ x ∷ [])) ≡ true
  mem-map_last xs x =
      ap (mem (id x)) (map-append xs (x ∷ []))
      ∙ mem-append (id x) (map id xs) (id x ∷ [])
      ∙ ground arith

  pub distinct-map_snoc :
      (xs : List A) (x : A)
      → mem (id x) (map id xs) ≡ false
      → distinct (map id xs) ≡ true
      → distinct (map id (xs ++ x ∷ [])) ≡ true
  distinct-map_snoc xs x m d =
      ap distinct (map-append xs (x ∷ [])) ∙ distinct_snoc (id x) (map id xs) ∙ ground arith

  mem-filter_absent :
      (p : A → Bool) (i : ℕ) (xs : List A)
      → mem i (map id xs) ≡ false
      → mem i (map id (filter_by p xs)) ≡ false
  mem-filter_absent p i [] h = refl
  mem-filter_absent p i (x ∷ xs) h = ground (arith, mem-filter_absent p i xs)

  pub distinct-filter_by :
      (p : A → Bool) (xs : List A)
      → distinct (map id xs) ≡ true
      → distinct (map id (filter_by p xs)) ≡ true
  distinct-filter_by p [] h = refl
  distinct-filter_by p (x ∷ xs) h =
      ground (arith, distinct-filter_by p xs, mem-filter_absent p (id x) xs)

  -- A row that is taken out has its id alone.
  pub any-id_absent :
      (p : A → Bool) (i : ℕ) (xs : List A)
      → mem i (map id xs) ≡ false
      → any (λ x. p x && (id x == i)) xs ≡ false
  any-id_absent p i [] h = refl
  any-id_absent p i (x ∷ xs) h = ground (arith, any-id_absent p i xs)

  -- What keeps a row also keeps its id.
  pub mem-filter_by :
      (p : A → Bool) (i : ℕ) (xs : List A)
      → mem i (map id xs) ≡ true
      → any (λ x. p x && (id x == i)) xs ≡ false
      → mem i (map id (filter_by (λ x. not (p x)) xs)) ≡ true
  mem-filter_by p i [] h e = cc
  mem-filter_by p i (x ∷ xs) h e = ground (arith, mem-filter_by p i xs)

  pub All-absent :
      (xs : List A) (i : ℕ) → mem i (map id xs) ≡ false → All (λ x. (id x == i) ≡ false) xs
  All-absent [] i h = tt
  All-absent (x ∷ xs) i h = ground (arith, All-absent xs i)

  pub All-known : (xs : List A) → All (λ x. mem (id x) (map id xs) ≡ true) xs
  All-known [] = tt
  All-known (x ∷ xs) = (ground arith, All-map _ _ (λ y h. ground arith) xs (All-known xs))

  -- An element that is found is also found by its id.
  pub find_by-id :
      (p : A → Bool) (xs : List A) (x : A)
      → distinct (map id xs) ≡ true
      → find_by p xs ≡ some x
      → find_by (λ y. id y == id x) xs ≡ some x
  find_by-id p [] x d e = cc
  find_by-id p (y ∷ xs) x d e =
      let (m, d') = distinct-split (id y) (map id xs) d in
      elim (Bool-cases (p y)) [
        | inl q ↦
            let same : y ≡ x = some-eq (sym (ap (λ b. if b then some y else find_by p xs) q) ∙ e) in
            subst (λ z. find_by (λ y'. id y' == id z) (y ∷ xs) ≡ some z) same (ground arith)
        | inr q ↦
            let e' = sym (ap (λ b. if b then some y else find_by p xs) q) ∙ e in
            let (k, _) =
              find_by-found (λ z. mem (id z) (map id xs) ≡ true) p xs x (All-known xs) e' in
            let rest = find_by-id p xs x d' e' in ground arith
      ]

  -- A known id is found.
  pub find_by-known :
      (i : ℕ) (xs : List A)
      → mem i (map id xs) ≡ true
      → (x : A) × (find_by (λ y. id y == i) xs ≡ some x)
  find_by-known i [] h = cc
  find_by-known i (x ∷ xs) h = elim (Bool-cases (id x == i)) [
    | inl e ↦ (x, ap (λ b. if b then some x else find_by (λ y. id y == i) xs) e)
    | inr e ↦
        let (y, f) = find_by-known i xs (ground arith) in
        (y, ap (λ b. if b then some x else find_by (λ y. id y == i) xs) e ∙ f)
  ]

-- What holds of an element is true of any.
pub All-any {ℓ} :
    {A : Type ℓ} (xs : List A) → All (λ x. (p : A → Bool) → p x ≡ true → any p xs ≡ true) xs
All-any [] = tt
All-any (x ∷ xs) = (
  λ p e. ap (λ b. b || any p xs) e,
  All-map _ _ (λ y h p e. ground (arith, h p e)) xs (All-any xs),
)
