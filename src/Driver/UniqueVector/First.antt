-- ===== src/Driver/UniqueVector/First.antt =====
-- What insert() of a range leaves in a vector: the elements in the order of their first places.
use software.Base.{
  ℕ, ◌≡◌, refl, sym, ap, subst, ◌∙◌, true, false, ◌||◌, ==_iff, if◌then◌else◌, Bool-cases, List, [],
  ◌∷◌, ◌++◌, append_assoc, append-nil, mem, mem-append, distinct, distinct_snoc, arith, inl, inr,
}
use software.Driver.UniqueVector.{UniqueVector, insert_one, insert_all}

-- The reference: the elements of `xs` that are not in `seen`, each at its first place.
abbrev pub first_places : (seen xs : List ℕ) → List ℕ
first_places seen [] = []
first_places seen (x ∷ xs) =
    let later = first_places (seen ++ x ∷ []) xs in
    let again = first_places seen xs in if mem x seen then again else x ∷ later

-- The set has the elements of the vector.
abbrev pub IsUnique : UniqueVector → Type 0
IsUnique c = (c.v ≡ c.u) × (distinct c.v ≡ true)

grown : ℕ → UniqueVector → UniqueVector
grown x c = record { v = c.v ++ x ∷ []; u = c.u ++ x ∷ [] }

insert_one-there : (x : ℕ) (c : UniqueVector) → mem x c.u ≡ true → (insert_one x c).0 ≡ c
unfolding insert_one
insert_one-there x c e = rw (insert_one, e) refl

insert_one-new : (x : ℕ) (c : UniqueVector) → mem x c.u ≡ false → (insert_one x c).0 ≡ grown x c
unfolding insert_one grown
insert_one-new x c e = rw (insert_one, e) refl

pub insert_all-first_places :
    (xs : List ℕ) (c : UniqueVector) → (insert_all xs c).v ≡ c.v ++ first_places c.u xs
unfolding insert_all grown
insert_all-first_places [] c = sym (append-nil c.v)
insert_all-first_places (x ∷ xs) c = elim (Bool-cases (mem x c.u)) [
  | inl e ↦
      rw e (ap (λ d. (insert_all xs d).v) (insert_one-there x c e) ∙ insert_all-first_places xs c)
  | inr e ↦ rw e (
      ap (λ d. (insert_all xs d).v) (insert_one-new x c e)
      ∙ insert_all-first_places xs (grown x c)
      ∙ append_assoc c.v (x ∷ []) _)
]

pub insert_all-u :
    (xs : List ℕ) (c : UniqueVector) → (insert_all xs c).u ≡ c.u ++ first_places c.u xs
unfolding insert_all grown
insert_all-u [] c = sym (append-nil c.u)
insert_all-u (x ∷ xs) c = elim (Bool-cases (mem x c.u)) [
  | inl e ↦ rw e (ap (λ d. (insert_all xs d).u) (insert_one-there x c e) ∙ insert_all-u xs c)
  | inr e ↦ rw e (
      ap (λ d. (insert_all xs d).u) (insert_one-new x c e)
      ∙ insert_all-u xs (grown x c)
      ∙ append_assoc c.u (x ∷ []) _)
]

-- Inserting two ranges is inserting them one behind the other.
pub insert_all-append :
    (xs ys : List ℕ) (c : UniqueVector) → insert_all (xs ++ ys) c ≡ insert_all ys (insert_all xs c)
unfolding insert_all
insert_all-append [] ys c = refl
insert_all-append (x ∷ xs) ys c = insert_all-append xs ys (insert_one x c).0

pub mem-insert_all :
    (xs : List ℕ) (c : UniqueVector) (x : ℕ) → mem x (insert_all xs c).u ≡ (mem x c.u || mem x xs)
unfolding insert_all grown
mem-insert_all [] c x = ground arith
mem-insert_all (y ∷ ys) c x = elim (Bool-cases (mem y c.u)) [
  | inl e ↦
      ap (λ d. mem x (insert_all ys d).u) (insert_one-there y c e)
      ∙ mem-insert_all ys c x
      ∙ ground (arith, ==_iff x y, λ (q : x ≡ y). ap (λ z. mem z c.u) q)
  | inr e ↦
      ap (λ d. mem x (insert_all ys d).u) (insert_one-new y c e)
      ∙ mem-insert_all ys (grown y c) x
      ∙ ap (λ b. b || mem x ys) (mem-append x c.u (y ∷ []))
      ∙ ground arith
]

pub insert_all-IsUnique : (xs : List ℕ) (c : UniqueVector) → IsUnique c → IsUnique (insert_all xs c)
unfolding insert_all grown
insert_all-IsUnique [] c i = i
insert_all-IsUnique (x ∷ xs) c (same, d) = elim (Bool-cases (mem x c.u)) [
  | inl e ↦
      subst (λ z. IsUnique (insert_all xs z)) (sym (insert_one-there x c e))
        (insert_all-IsUnique xs c (same, d))
  | inr e ↦
      subst (λ z. IsUnique (insert_all xs z)) (sym (insert_one-new x c e))
        (insert_all-IsUnique xs (grown x c) (
          ap (λ l. l ++ x ∷ []) same,
          distinct_snoc x c.v ∙ (let absent = ap (mem x) same ∙ e in ground arith),
        ))
]

-- Inserting what is there changes nothing.
pub insert_all-again :
    (xs : List ℕ) (c : UniqueVector)
    → ((x : ℕ) → mem x xs ≡ true → mem x c.u ≡ true)
    → insert_all xs c ≡ c
unfolding insert_all
insert_all-again [] c h = refl
insert_all-again (x ∷ xs) c h =
    ap (insert_all xs) (insert_one-there x c (h x (ground arith)))
    ∙ insert_all-again xs c (λ y m. h y (ground arith))
