-- ===== src/Support/Version/Order.antt =====
-- The comparisons of PackageVersion agree with each other.
use software.Base.{◌≡◌, refl, true, false, not, ◌||◌, ltb, arith, [], ◌∷◌}
use software.Support.Path.{Str}
use software.Support.Path.Order.{IsWeakOrder, less_by-IsWeakOrder}
use software.Support.Version.{
  VersionLib, PackageVersion, version, branch, less_string, less, le, gt, ge,
}

-- What the library says of its comparisons.
pub record IsOrderedLib {V R : Type 0} (lib : VersionLib V R) : Type 0 where
  pub weak : IsWeakOrder lib.less_version
  pub gt_lem : (v w : V) → lib.gt_version v w ≡ lib.less_version w v
  pub le_lem : (v w : V) → lib.le_version v w ≡ not (lib.less_version w v)
  pub ge_lem : (v w : V) → lib.ge_version v w ≡ not (lib.less_version v w)

-- A branch has a name, as the constructors make sure.
abbrev pub IsNamed : {V : Type 0} → PackageVersion V → Type 0
IsNamed (branch b) = less_string [] b ≡ true
IsNamed (version v) = Unit

ltb-IsWeakOrder : IsWeakOrder ltb
ltb-IsWeakOrder = record { asym = λ x y h. ground arith; cotrans = λ x y z h. ground arith }

abbrev strings : IsWeakOrder less_string
strings = less_by-IsWeakOrder ltb ltb-IsWeakOrder

pub less_string_nil : (a : Str) → less_string a [] ≡ false
less_string_nil [] = refl
less_string_nil (c ∷ s) = refl

module _ {V R : Type 0} (lib : VersionLib V R) (laws : IsOrderedLib lib) where
  less_asym :
      (a b : PackageVersion V) → IsNamed a → IsNamed b → less lib a b ≡ true → less lib b a ≡ false
  unfolding less
  less_asym (branch a) (branch b) n m h = strings.asym a b h
  less_asym (branch a) (version w) n m h = ground (arith, n)
  less_asym (version v) (branch b) n m h = absurd (ground (arith, m))
  less_asym (version v) (version w) n m h = laws.weak.asym v w h

  less_cotrans :
      (a b c : PackageVersion V)
      → IsNamed a
      → IsNamed b
      → IsNamed c
      → less lib a c ≡ true
      → (less lib a b || less lib b c) ≡ true
  unfolding less
  less_cotrans (branch a) (branch b) (branch c) n m k h = strings.cotrans a b c h
  less_cotrans (branch a) (version w) c n m k h = ground (arith, less_string_nil a)
  less_cotrans (branch a) (branch b) (version x) n m k h = ground (arith, less_string_nil b)
  less_cotrans (version v) b (branch c) n m k h = absurd (ground (arith, k))
  less_cotrans (version v) (branch b) (version x) n m k h = ground (arith, less_string_nil b)
  less_cotrans (version v) (version w) (version x) n m k h = laws.weak.cotrans v w x h

  -- What a comparison of package versions promises.
  pub record IsConsistent (a b : PackageVersion V) : Type 0 where
    pub greater : gt lib a b ≡ less lib b a
    pub at_most : le lib a b ≡ not (less lib b a)
    pub at_least : ge lib a b ≡ not (less lib a b)
    pub one_way : less lib a b ≡ true → less lib b a ≡ false
    pub between :
        (c : PackageVersion V)
        → IsNamed c
        → less lib a b ≡ true
        → (less lib a c || less lib c b) ≡ true

  comparisons :
      (a b : PackageVersion V)
      → IsNamed a
      → IsNamed b
      → (gt lib a b ≡ less lib b a)
        × (le lib a b ≡ not (less lib b a))
        × (ge lib a b ≡ not (less lib a b))
  unfolding less gt le ge
  comparisons (branch a) (branch b) n m = (refl, refl, refl)
  comparisons (branch a) (version w) n m = (refl, refl, refl)
  comparisons (version v) (branch b) n m = (refl, refl, refl)
  comparisons (version v) (version w) n m = (laws.gt_lem v w, laws.le_lem v w, laws.ge_lem v w)

  -- The four comparisons of package versions with a name agree, and make a strict weak order, when the
  -- library's comparisons of versions do.
  pub comparisons-IsConsistent : (a b : PackageVersion V) → IsNamed a → IsNamed b → IsConsistent a b
  comparisons-IsConsistent a b n m =
      let (g, l, e) = comparisons a b n m in
      record {
        greater = g;
        at_most = l;
        at_least = e;
        one_way = less_asym a b n m;
        between = λ c k h. less_cotrans a c b n k m h;
      }
