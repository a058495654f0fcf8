-- ===== src/Base/Sets.antt =====
-- Sets of numbers (std::unordered_set of pointers or paths) as the list of their elements in
-- iteration order, with a Boolean membership test.
use Prim.Native.Nat.{ℕ, suc, ◌<◌, ◌≤◌}
use mathlib.Core.Path.{◌≡◌, refl, sym, ap, subst}
use mathlib.Core.Logic.{inl, inr}
use mathlib.Core.Bool.{Bool, true, false, not, ◌&&◌, ◌||◌}
use mathlib.Core.List.{List, [], ◌∷◌, ◌++◌}
use native.Mathlib.Omega.{arith}
use software.Base.Tests.{◌==◌, if◌then◌else◌, and-split, not-true, or-cases, Bool-cases, ==_iff}
use software.Base.Lists.{All, count_if, length}

abbrev pub mem : ℕ → List ℕ → Bool
mem x [] = false
mem x (y ∷ ys) = x == y || mem x ys

pub mem-append : (x : ℕ) (ys zs : List ℕ) → mem x (ys ++ zs) ≡ (mem x ys || mem x zs)
mem-append x [] zs = refl
mem-append x (y ∷ ys) zs = ground (arith, mem-append x ys zs)

-- insert() on the list of the set's elements.
abbrev pub insert : ℕ → List ℕ → List ℕ
insert x xs = if mem x xs then xs else xs ++ x ∷ []

pub mem-insert : (x y : ℕ) (ys : List ℕ) → mem x (insert y ys) ≡ (x == y || mem x ys)
mem-insert x y ys = ground (arith, mem-append x ys (y ∷ []))

-- No element stands twice.
abbrev pub distinct : List ℕ → Bool
distinct [] = true
distinct (x ∷ xs) = not (mem x xs) && distinct xs

pub distinct_snoc :
    (x : ℕ) (xs : List ℕ) → distinct (xs ++ x ∷ []) ≡ (not (mem x xs) && distinct xs)
distinct_snoc x [] = refl
distinct_snoc x (y ∷ xs) = ground (arith, distinct_snoc x xs, mem-append y xs (x ∷ []))

pub distinct-split :
    (x : ℕ) (xs : List ℕ) → distinct (x ∷ xs) ≡ true → (mem x xs ≡ false) × (distinct xs ≡ true)
distinct-split x xs h = let (a, b) = and-split (not (mem x xs)) (distinct xs) h in (not-true a, b)

pub distinct-insert : (x : ℕ) (xs : List ℕ) → distinct xs ≡ true → distinct (insert x xs) ≡ true
distinct-insert x xs h = ground (arith, distinct_snoc x xs)

pub All-mem {κ} : (P : ℕ → Type κ) (xs : List ℕ) → All P xs → (x : ℕ) → mem x xs ≡ true → P x
All-mem P [] h x m = absurd (cc)
All-mem P (y ∷ ys) h x m = elim (or-cases (x == y) (mem x ys) m) [
  | inl e ↦ subst P (sym ((==_iff x y).0 e)) h.0
  | inr e ↦ All-mem P ys h.1 x e
]

pub All-of_mem {κ} : (P : ℕ → Type κ) (xs : List ℕ) → ((x : ℕ) → mem x xs ≡ true → P x) → All P xs
All-of_mem P [] h = tt
All-of_mem P (y ∷ ys) h = (h y (ground arith), All-of_mem P ys λ x m. h x (ground arith))

pub count_if-cong :
    (p q : ℕ → Bool) (xs : List ℕ)
    → ((x : ℕ) → mem x xs ≡ true → p x ≡ q x)
    → count_if p xs ≡ count_if q xs
count_if-cong p q [] h = refl
count_if-cong p q (x ∷ xs) h =
    ground (arith, h x (ground arith), count_if-cong p q xs (λ y m. h y (ground arith)))

pub count_if-zero :
    (p : ℕ → Bool) (xs : List ℕ) (x : ℕ) → mem x xs ≡ true → count_if p xs ≡ 0 → p x ≡ false
count_if-zero p [] x m e = absurd (cc)
count_if-zero p (y ∷ ys) x m e =
    ground (arith, count_if-zero p ys x, ==_iff x y, λ (h : x ≡ y). ap p h)

pub count_if_eq_zero :
    (p : ℕ → Bool) (xs : List ℕ) → ((x : ℕ) → mem x xs ≡ true → p x ≡ false) → count_if p xs ≡ 0
count_if_eq_zero p [] h = refl
count_if_eq_zero p (x ∷ xs) h =
    ground (arith, h x (ground arith), count_if_eq_zero p xs (λ y m. h y (ground arith)))

pub count_if-pos :
    (p : ℕ → Bool) (xs : List ℕ) → 0 < count_if p xs → (x : ℕ) × (mem x xs ≡ true) × (p x ≡ true)
count_if-pos p [] h = absurd (omega arith)
count_if-pos p (x ∷ xs) h = elim (Bool-cases (p x)) [
  | inl e ↦ (x, ground arith, e)
  | inr e ↦ let (y, m, q) = count_if-pos p xs (ground arith) in (y, ground arith, q)
]

pub nil_of_not_mem : (xs : List ℕ) → ((x : ℕ) → mem x xs ≡ true → ⊥) → xs ≡ []
nil_of_not_mem [] h = refl
nil_of_not_mem (x ∷ xs) h = absurd (h x (ground arith))

-- One element leaves the count.
pub count_if-drop :
    (p q : ℕ → Bool) (xs : List ℕ) (x : ℕ)
    → distinct xs ≡ true
    → mem x xs ≡ true
    → p x ≡ true
    → q x ≡ false
    → ((y : ℕ) → (x == y) ≡ false → p y ≡ q y)
    → count_if p xs ≡ suc (count_if q xs)
count_if-drop p q [] x d m a b h = absurd (cc)
count_if-drop p q (y ∷ ys) x d m a b h = elim (Bool-cases (x == y)) [
  | inl e ↦
      let same = (==_iff x y).0 e in
      let rest : count_if p ys ≡ count_if q ys =
        count_if-cong p q ys
          (λ z k. h z (ground (arith, ==_iff x z, λ (f : x ≡ z). ap (λ w. mem w ys) f))) in
      ground (arith, ap p same, ap q same)
  | inr e ↦ ground (arith, h y e, count_if-drop p q ys x (ground arith) (ground arith) a b h)
]

remove : ℕ → List ℕ → List ℕ
remove x [] = []
remove x (y ∷ ys) = if x == y then ys else y ∷ remove x ys

length-remove : (x : ℕ) (ys : List ℕ) → mem x ys ≡ true → suc (length (remove x ys)) ≡ length ys
unfolding remove
length-remove x [] m = cc
length-remove x (y ∷ ys) m = ground (arith, length-remove x ys)

mem-remove :
    (x z : ℕ) (ys : List ℕ) → (z == x) ≡ false → mem z ys ≡ true → mem z (remove x ys) ≡ true
unfolding remove
mem-remove x z [] n m = cc
mem-remove x z (y ∷ ys) n m = ground (arith, mem-remove x z ys, ==_iff x y)

-- A set has no more elements than one that holds it.
pub length-le_of_sub :
    (xs ys : List ℕ)
    → distinct xs ≡ true
    → ((x : ℕ) → mem x xs ≡ true → mem x ys ≡ true)
    → length xs ≤ length ys
length-le_of_sub [] ys d sub = omega arith
length-le_of_sub (x ∷ xs) ys d sub =
    let shorter = length-le_of_sub xs (remove x ys) (ground arith) λ z m.
      mem-remove x z ys (ground (arith, ==_iff z x, λ (e : z ≡ x). ap (λ w. mem w xs) e))
        (sub z (ground arith)) in
    omega (arith, length-remove x ys (sub x (ground arith)))

-- A set with as many elements as one that holds it is the same set.
pub mem_of_length :
    (xs ys : List ℕ)
    → distinct xs ≡ true
    → ((x : ℕ) → mem x xs ≡ true → mem x ys ≡ true)
    → length ys ≤ length xs
    → (y : ℕ) → mem y ys ≡ true
    → mem y xs ≡ true
mem_of_length xs ys d sub l y m = elim (Bool-cases (mem y xs)) [
  | inl e ↦ e
  | inr e ↦
      let longer = length-le_of_sub (y ∷ xs) ys (ground arith) (λ x k.
        elim (or-cases (x == y) (mem x xs) k) [
          | inl f ↦ rw ((==_iff x y).0 f) m
          | inr f ↦ sub x f
        ]) in
      absurd (omega arith)
]

pub distinct_prefix : (xs ys : List ℕ) → distinct (xs ++ ys) ≡ true → distinct xs ≡ true
distinct_prefix [] ys d = refl
distinct_prefix (x ∷ xs) ys d = ground (arith, mem-append x xs ys, distinct_prefix xs ys)
