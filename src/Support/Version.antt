-- ===== src/Support/Version.antt =====
-- src/sw/support/version.h and .cpp: PackageVersion and PackageVersionRange. Versions and ranges of
-- the primitives library are a parameter.
pub mod Order
use software.Base.{
  ℕ, Bool, true, false, not, ◌&&◌, ◌||◌, ◌==◌, ltb, leb, if◌then◌else◌, List, [], ◌∷◌, length,
  Option, none, some, Result, ok, err, ◌>>=◌, ◌>>◌, throw_if,
}
use software.Support.Path.{Str, less_by, same_string, is_alnum}

-- primitives::version::Version and VersionRange; `none` stands for a parser that throws.
pub record VersionLib (V R : Type 0) : Type 0 where
  pub parse_version : Str → Option V
  pub less_version : V → V → Bool
  pub le_version : V → V → Bool
  pub gt_version : V → V → Bool
  pub ge_version : V → V → Bool
  pub same_version : V → V → Bool
  pub is_release_version : V → Bool
  pub version_text : V → Str
  pub parse_range : Str → Option R
  pub exact_range : V → R
  pub contains_version : R → V → Bool
  pub contains_range : R → R → Bool
  pub unite : R → R → R
  pub intersect : R → R → R

pub data PackageVersion (V : Type 0) : Type 0 where
  version : V → PackageVersion V
  branch : Str → PackageVersion V

pub data PackageVersionRange (R : Type 0) : Type 0 where
  version_range : R → PackageVersionRange R
  branch_range : Str → PackageVersionRange R

pub data Error : Type 0 where
  empty_version bad_version branch_too_long empty_range bad_range branch_operands : Error

is_alpha : ℕ → Bool
is_alpha c = leb 65 c && leb c 90 || leb 97 c && leb c 122

all_name_symbols : Str → Bool
unfolding is_alnum
all_name_symbols [] = true
all_name_symbols (c ∷ s) = (is_alnum c || c == 95) && all_name_symbols s

-- is_branch(s); the source's s[0] of an empty string is the terminating zero.
unfoldable pub is_branch_name : Str → Bool
unfolding is_alpha all_name_symbols
is_branch_name [] = false
is_branch_name (c ∷ s) = (is_alpha c || c == 95) && all_name_symbols (c ∷ s)

abbrev pub less_string : Str → Str → Bool
less_string = less_by ltb

module _ {V R : Type 0} (lib : VersionLib V R) where
  -- PackageVersion(const std::string &), with check()
  unfoldable pub from_string : Str → Result Error (PackageVersion V)
  unfolding is_branch_name
  from_string [] = err empty_version
  from_string (c ∷ s) =
      if is_branch_name (c ∷ s)
      then (do throw_if (ltb 200 (length (c ∷ s))) branch_too_long; ok (branch (c ∷ s)))
      else elim (lib.parse_version (c ∷ s)) [ none ↦ err bad_version | some v ↦ ok (version v) ]

  unfoldable pub is_release : PackageVersion V → Bool
  is_release (branch b) = false
  is_release (version v) = lib.is_release_version v

  unfoldable pub is_pre_release : PackageVersion V → Bool
  unfolding is_release
  is_pre_release v = not (is_release v)

  unfoldable pub to_text : PackageVersion V → Str
  to_text (branch b) = b
  to_text (version v) = lib.version_text v

  -- BRANCH_COMPARE(<), and so on: with one branch, it is compared with the empty string.
  unfoldable pub less : PackageVersion V → PackageVersion V → Bool
  less (branch a) (branch b) = less_string a b
  less (branch a) (version w) = not (less_string a [])
  less (version v) (branch b) = not (less_string [] b)
  less (version v) (version w) = lib.less_version v w

  unfoldable pub le : PackageVersion V → PackageVersion V → Bool
  le (branch a) (branch b) = not (less_string b a)
  le (branch a) (version w) = not (not (less_string [] a))
  le (version v) (branch b) = not (not (less_string b []))
  le (version v) (version w) = lib.le_version v w

  unfoldable pub gt : PackageVersion V → PackageVersion V → Bool
  gt (branch a) (branch b) = less_string b a
  gt (branch a) (version w) = not (less_string [] a)
  gt (version v) (branch b) = not (less_string b [])
  gt (version v) (version w) = lib.gt_version v w

  unfoldable pub ge : PackageVersion V → PackageVersion V → Bool
  ge (branch a) (branch b) = not (less_string a b)
  ge (branch a) (version w) = not (not (less_string a []))
  ge (version v) (branch b) = not (not (less_string [] b))
  ge (version v) (version w) = lib.ge_version v w

  unfoldable pub same : PackageVersion V → PackageVersion V → Bool
  same (branch a) (branch b) = same_string a b
  same (version v) (version w) = lib.same_version v w
  same _ _ = false

  -- PackageVersionRange(const std::string &)
  unfoldable pub range_from_string : Str → Result Error (PackageVersionRange R)
  unfolding is_branch_name
  range_from_string [] = err empty_range
  range_from_string (c ∷ s) =
      if is_branch_name (c ∷ s)
      then ok (branch_range (c ∷ s))
      else elim (lib.parse_range (c ∷ s)) [ none ↦ err bad_range | some r ↦ ok (version_range r) ]

  -- PackageVersionRange(const PackageVersion &)
  unfoldable pub range_of : PackageVersion V → PackageVersionRange R
  range_of (branch b) = branch_range b
  range_of (version v) = version_range (lib.exact_range v)

  unfoldable pub contains : PackageVersionRange R → PackageVersion V → Bool
  contains (branch_range a) (branch b) = same_string a b
  contains (version_range r) (version v) = lib.contains_version r v
  contains _ _ = false

  unfoldable pub contains_all : PackageVersionRange R → PackageVersionRange R → Bool
  contains_all (branch_range a) (branch_range b) = same_string a b
  contains_all (version_range r) (version_range q) = lib.contains_range r q
  contains_all _ _ = false

  -- operator|= and operator&=
  unfoldable pub unite_ranges :
      PackageVersionRange R → PackageVersionRange R → Result Error (PackageVersionRange R)
  unite_ranges (version_range r) (version_range q) = ok (version_range (lib.unite r q))
  unite_ranges _ _ = err branch_operands

  unfoldable pub intersect_ranges :
      PackageVersionRange R → PackageVersionRange R → Result Error (PackageVersionRange R)
  intersect_ranges (version_range r) (version_range q) = ok (version_range (lib.intersect r q))
  intersect_ranges _ _ = err branch_operands
