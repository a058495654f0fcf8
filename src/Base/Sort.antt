-- ===== src/Base/Sort.antt =====
-- std::sort with a comparison function, as a stable insertion sort, and membership in permutations.
use Prim.Native.Nat.{ℕ}
use mathlib.Core.Path.{◌≡◌, refl, ap, ◌∙◌}
use mathlib.Core.Bool.{Bool, true, false, Bool-set}
use mathlib.Core.Logic.{∥∥₁_elim}
use mathlib.Core.List.{List, [], ◌∷◌, Perm, Permᴰ}
use mathlib.Core.List.Perm
use native.Mathlib.Omega.{arith}
use software.Base.Tests.{if◌then◌else◌, ==_iff}
use software.Base.Sets.{mem, distinct}

module _ {ℓ} {A : Type ℓ} (less : A → A → Bool) where
  insert_sorted : A → List A → List A
  insert_sorted x [] = x ∷ []
  insert_sorted x (y ∷ ys) = if less y x then y ∷ insert_sorted x ys else x ∷ y ∷ ys

  unfoldable pub sort : List A → List A
  unfolding insert_sorted
  sort [] = []
  sort (x ∷ xs) = insert_sorted x (sort xs)

  insert_sorted-perm : (x : A) (xs : List A) → Perm (insert_sorted x xs) (x ∷ xs)
  unfolding insert_sorted
  insert_sorted-perm x [] = Perm.rfl
  insert_sorted-perm x (y ∷ ys) = ground (
    arith,
    Perm.trans (Perm.cons y (insert_sorted-perm x ys)) (Perm.swap x y ys),
    Perm.refl (x ∷ y ∷ ys),
  )

  pub sort-perm : (xs : List A) → Perm (sort xs) xs
  unfolding sort
  sort-perm [] = Perm.rfl
  sort-perm (x ∷ xs) = Perm.trans (insert_sorted-perm x (sort xs)) (Perm.cons x (sort-perm xs))

  -- No element is less than the one before it.
  abbrev pub IsSorted : List A → Type 0
  IsSorted [] = Unit
  IsSorted (x ∷ []) = Unit
  IsSorted (x ∷ y ∷ ys) = (less y x ≡ false) × IsSorted (y ∷ ys)

  module _ (asym : (a b : A) → less a b ≡ true → less b a ≡ false) where
    insert_sorted-IsSorted : (x : A) (xs : List A) → IsSorted xs → IsSorted (insert_sorted x xs)
    unfolding insert_sorted
    insert_sorted-IsSorted x [] h = tt
    insert_sorted-IsSorted x (y ∷ []) h = ground (arith, asym y x)
    insert_sorted-IsSorted x (y ∷ z ∷ zs) h =
        ground (arith, asym y x, insert_sorted-IsSorted x (z ∷ zs) h.1)

    pub sort-IsSorted : (xs : List A) → IsSorted (sort xs)
    unfolding sort
    sort-IsSorted [] = tt
    sort-IsSorted (x ∷ xs) = insert_sorted-IsSorted x (sort xs) (sort-IsSorted xs)

mem-permᴰ : (x : ℕ) {xs ys : List ℕ} → Permᴰ xs ys → mem x xs ≡ mem x ys
mem-permᴰ x Permᴰ.nil = refl
mem-permᴰ x (Permᴰ.cons e p) = cc (mem-permᴰ x p)
mem-permᴰ x (Permᴰ.swap {a = a} {b = b} {a' = c} {b' = d} {l = l} e f) =
    ground (arith, ==_iff x a, ==_iff x b, ==_iff x c, ==_iff x d)
mem-permᴰ x (Permᴰ.trans p q) = mem-permᴰ x p ∙ mem-permᴰ x q

pub mem-perm : (x : ℕ) {xs ys : List ℕ} → Perm xs ys → mem x xs ≡ mem x ys
mem-perm x p = ∥∥₁_elim p (Bool-set _ _) (mem-permᴰ x)

distinct-permᴰ : {xs ys : List ℕ} → Permᴰ xs ys → distinct xs ≡ distinct ys
distinct-permᴰ Permᴰ.nil = refl
distinct-permᴰ (Permᴰ.cons {a = a} {b = b} {l₁ = xs} {l₂ = ys} e p) =
    ground (arith, mem-permᴰ a p, distinct-permᴰ p, ap (λ x. mem x ys) e)
distinct-permᴰ (Permᴰ.swap {a = a} {b = b} {a' = c} {b' = d} {l = l} e f) = ground (
  arith,
  ==_iff a b,
  ==_iff c d,
  ap (λ x. mem x l) e,
  ap (λ x. mem x l) f,
  ap (λ x. mem b (x ∷ l)) e,
)
distinct-permᴰ (Permᴰ.trans p q) = distinct-permᴰ p ∙ distinct-permᴰ q

pub distinct-perm : {xs ys : List ℕ} → Perm xs ys → distinct xs ≡ distinct ys
distinct-perm p = ∥∥₁_elim p (Bool-set _ _) distinct-permᴰ
