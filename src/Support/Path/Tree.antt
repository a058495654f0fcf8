-- ===== src/Support/Path/Tree.antt =====
-- Paths as a tree: isRootOf, back and hasSameParent.
use software.Base.{
  ℕ, zero, suc, ◌≤◌, ◌<◌, ◌≡◌, ◌≢◌, refl, sym, ap, ap₂, subst, ◌↔◌, Bool, true, false, ◌&&◌, ◌||◌,
  ◌==◌, ltb, arith, ==_iff, [], ◌∷◌, ◌++◌, length, length-append, take, drop, Bool-cases, inl, inr,
  and-split,
}
use software.Support.Path.{
  Str, PackagePath, same_string, same_front, is_root_of, from_difference, back, append_path, parent,
  common_root, has_same_parent, same_path,
}

pub same_string-eq : (a b : Str) → same_string a b ≡ true → a ≡ b
same_string-eq [] [] h = refl
same_string-eq [] (y ∷ ys) h = absurd (cc)
same_string-eq (x ∷ xs) [] h = absurd (cc)
same_string-eq (x ∷ xs) (y ∷ ys) h =
    let (first, rest) = and-split (x == y) (same_string xs ys) h in
    ap₂ (λ u us. u ∷ us) ((==_iff x y).0 first) (same_string-eq xs ys rest)

pub same_string_refl : (a : Str) → same_string a a ≡ true
same_string_refl [] = refl
same_string_refl (x ∷ xs) = ground (arith, same_string_refl xs)

same_front-drop :
    (p q : PackagePath) → same_front p q ≡ true → length p ≤ length q → p ++ drop (length p) q ≡ q
unfolding same_front
same_front-drop [] q h l = refl
same_front-drop (x ∷ xs) [] h l = absurd (omega arith)
same_front-drop (x ∷ xs) (y ∷ ys) h l =
    let (first, rest) = and-split (same_string x y) (same_front xs ys) h in
    ap₂ (λ u us. u ∷ us) (same_string-eq x y first) (same_front-drop xs ys rest (omega arith))

same_front-append : (p r : PackagePath) → same_front p (p ++ r) ≡ true
unfolding same_front
same_front-append [] r = refl
same_front-append (x ∷ xs) r = ground (arith, same_string_refl x, same_front-append xs r)

is_root_of-cases :
    (p q : PackagePath) → is_root_of p q ≡ true → (length p < length q) × (same_front p q ≡ true)
unfolding is_root_of
is_root_of-cases p q h = (ground arith, ground arith)

-- A path is the root of another one exactly when that one goes on with at least one element.
pub is_root_of_iff :
    (p q : PackagePath)
    → (is_root_of p q ≡ true) ↔ ((r : PackagePath) × (0 < length r) × (append_path p r ≡ q))
unfolding is_root_of
is_root_of_iff p q = (
  (λ h.
      let (shorter, front) = is_root_of-cases p q h in
      let whole = same_front-drop p q front (omega arith) in
      (
        drop (length p) q,
        omega (arith, ap length whole, length-append p (drop (length p) q)),
        whole,
      )),
  λ (r, longer, e). rw (sym e, same_front-append p r) (ground (arith, length-append p r)),
)

from_difference-root : (r p : PackagePath) → same_front r p ≡ true → from_difference r p ≡ []
unfolding same_front from_difference
from_difference-root [] p h = refl
from_difference-root (x ∷ xs) [] h = refl
from_difference-root (x ∷ xs) (y ∷ ys) h =
    let (first, rest) = and-split (same_string x y) (same_front xs ys) h in
    rw (same_string-eq x y first, same_string_refl y) (from_difference-root xs ys rest)

-- `back` takes a root off: put behind the root, its result is the path again. Of any other path it
-- is empty.
pub append-back :
    (p root : PackagePath)
    → ((is_root_of root p ≡ true) → append_path root (back p root) ≡ p)
      × ((is_root_of root p ≡ false) → back p root ≡ [])
unfolding back
append-back p root = (
  (λ h.
      let (shorter, front) = is_root_of-cases root p h in
      rw (h, from_difference-root root p front) (same_front-drop root p front (omega arith))),
  λ h. rw h refl,
)

-- Both paths have at least two elements, of which the first are the same.
abbrev pub shares_namespace : PackagePath → PackagePath → Bool
shares_namespace (x ∷ x' ∷ xs) (y ∷ y' ∷ ys) = same_string x y
shares_namespace _ _ = false

root-shares_namespace :
    (p1 : PackagePath) (x y : Str) (xs ys : PackagePath)
    → p1 ≢ []
    → is_root_of p1 (x ∷ xs) ≡ true
    → is_root_of p1 (y ∷ ys) ≡ true
    → shares_namespace (x ∷ xs) (y ∷ ys) ≡ true
unfolding same_front
root-shares_namespace [] x y xs ys n a b = absurd (n refl)
root-shares_namespace (e ∷ es) x y [] ys n a b =
    absurd (omega (arith, (is_root_of-cases (e ∷ es) (x ∷ []) a).0))
root-shares_namespace (e ∷ es) x y (x' ∷ xs) [] n a b =
    absurd (omega (arith, (is_root_of-cases (e ∷ es) (y ∷ []) b).0))
root-shares_namespace (e ∷ es) x y (x' ∷ xs) (y' ∷ ys) n a b =
    let (_, f) = is_root_of-cases (e ∷ es) (x ∷ x' ∷ xs) a in
    let (_, g) = is_root_of-cases (e ∷ es) (y ∷ y' ∷ ys) b in
    let first = same_string-eq e x (and-split _ _ f).0 in
    subst (λ z. same_string z y ≡ true) first (and-split _ _ g).0

length-take : (k : ℕ) (xs : PackagePath) → k ≤ length xs → length (take k xs) ≡ k
length-take zero xs l = refl
length-take (suc k) [] l = absurd (omega arith)
length-take (suc k) (x ∷ xs) l = omega (arith, length-take k xs (omega arith))

take-take : (k : ℕ) (xs : PackagePath) → take k (take (suc k) xs) ≡ take k xs
take-take zero xs = refl
take-take (suc k) [] = refl
take-take (suc k) (x ∷ xs) = ap (λ t. x ∷ t) (take-take k xs)

parent-take :
    (k : ℕ) (x : Str) (xs : PackagePath)
    → suc k ≤ length xs
    → parent (x ∷ take (suc k) xs) ≡ x ∷ take k xs
unfolding parent
parent-take k x xs l = rw (length-take (suc k) xs l) (ap (λ t. x ∷ t) (take-take k xs))

single-root :
    (x y : Str) (xs ys : PackagePath)
    → (is_root_of (x ∷ []) (x ∷ xs) && is_root_of (x ∷ []) (y ∷ ys))
      ≡ shares_namespace (x ∷ xs) (y ∷ ys)
unfolding is_root_of same_front
single-root x y [] ys = refl
single-root x y (x' ∷ xs) [] = ground arith
single-root x y (x' ∷ xs) (y' ∷ ys) = ground (arith, same_string_refl x)

common_root_nil : (n : ℕ) (p q : PackagePath) → common_root n [] p q ≡ false
unfolding common_root
common_root_nil zero p q = refl
common_root_nil (suc n) p q = refl

-- The loop, from the first `suc k` elements of the path on.
common_root-take :
    (k n : ℕ) (x y : Str) (xs ys : PackagePath)
    → k ≤ length xs
    → k ≤ n
    → common_root (suc n) (x ∷ take k xs) (x ∷ xs) (y ∷ ys) ≡ shares_namespace (x ∷ xs) (y ∷ ys)
unfolding common_root
common_root-take zero n x y xs ys l m =
    let top : common_root n (parent (x ∷ [])) (x ∷ xs) (y ∷ ys) ≡ false = common_root_nil n _ _ in
    rw top (ground (arith, single-root x y xs ys))
common_root-take (suc k) zero x y xs ys l m = absurd (omega arith)
common_root-take (suc k) (suc n) x y xs ys l m =
    let rest = common_root-take k n x y xs ys (omega arith) (omega arith) in
    let p1 = x ∷ take (suc k) xs in
    rw (parent-take k x xs l, rest)
      (elim (Bool-cases (is_root_of p1 (x ∷ xs) && is_root_of p1 (y ∷ ys))) [
        | inl b ↦
            let (f, g) = and-split _ _ b in
            rw (b, root-shares_namespace p1 x y xs ys (λ h. absurd (cc)) f g) refl
        | inr b ↦ rw b refl
      ])

take-all : (xs : PackagePath) → take (length xs) xs ≡ xs
take-all [] = refl
take-all (x ∷ xs) = ap (λ t. x ∷ t) (take-all xs)

-- Two paths have the same parent exactly when neither is empty and they are equal up to case, or
-- both have at least two elements of which the first are the same.
pub has_same_parent-shares_namespace :
    (p q : PackagePath)
    → has_same_parent p q
      ≡ (ltb 0 (length p) && ltb 0 (length q) && same_path p q || shares_namespace p q)
unfolding has_same_parent
has_same_parent-shares_namespace [] q = refl
has_same_parent-shares_namespace (x ∷ []) [] = refl
has_same_parent-shares_namespace (x ∷ x' ∷ xs) [] = ground arith
has_same_parent-shares_namespace (x ∷ xs) (y ∷ ys) =
    let loop =
      subst
        (λ t.
          common_root (suc (suc (length xs))) (x ∷ t) (x ∷ xs) (y ∷ ys)
          ≡ shares_namespace (x ∷ xs) (y ∷ ys))
        (take-all xs)
        (common_root-take (length xs) (suc (length xs)) x y xs ys (omega arith) (omega arith)) in
    ground (arith, loop)
