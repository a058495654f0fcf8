-- ===== src/Support/Name.antt =====
-- src/sw/support/package_name.cpp and unresolved_package_name.cpp: a path and a version in one text.
pub mod Text
use software.Base.{
  ℕ, Bool, true, false, ◌&&◌, ◌==◌, if◌then◌else◌, List, [], ◌∷◌, ◌++◌, Result, ok, err, ◌>>=◌,
  ◌>>◌,
}
use software.Support.Path.{Str, PackagePath, dot, parse, to_string, same_path}
use software.Support.Version.{
  VersionLib, PackageVersion, PackageVersionRange, version_range, from_string, to_text,
  range_from_string, contains,
}
use software.Support.Path.{Error as PathError}
use software.Support.Version.{Error as VersionError}

abbrev pub dash : ℕ
dash = 45

-- split_package_string: before and behind the first dash
unfoldable pub split_package_string : Str → Str × Str
split_package_string [] = ([], [])
split_package_string (c ∷ s) =
    let rest = split_package_string s in if c == dash then ([], s) else (c ∷ rest.0, rest.1)

pub data Error : Type 0 where
  path_error : PathError → Error
  version_error : VersionError → Error
  no_version : Error

pub record PackageName (V : Type 0) : Type 0 where
  pub ppath : PackagePath
  pub name_version : PackageVersion V

pub record UnresolvedPackageName (R : Type 0) : Type 0 where
  pub upath : PackagePath
  pub range : PackageVersionRange R

abbrev pub rethrow {ℓ κ μ} :
    {E : Type ℓ} {F : Type κ} {A : Type μ} → (E → F) → Result E A → Result F A
rethrow f (ok a) = ok a
rethrow f (err e) = err (f e)

module _ {V R : Type 0} (lib : VersionLib V R) where
  -- PackageName(const String &)
  unfoldable pub name_from_string : Str → Result Error (PackageName V)
  unfolding split_package_string
  name_from_string target =
      let (p, v) = split_package_string target in
      do
        path ← rethrow path_error (parse p)
        (elim v [
          | [] ↦ err no_version
          | c ∷ s ↦ (do
            x ← rethrow version_error (from_string lib (c ∷ s))
            ok (record { ppath = path; name_version = x }))
        ])

  unfoldable pub name_text : (delim : Str) → PackageName V → Str
  name_text delim n = to_string (dot ∷ []) n.ppath ++ delim ++ to_text lib n.name_version

  -- extractFromString; `any` is the range of all versions.
  unfoldable pub unresolved_from_string : (any : R) → Str → Result Error (UnresolvedPackageName R)
  unfolding split_package_string
  unresolved_from_string any target =
      let (p, v) = split_package_string target in
      do
        path ← rethrow path_error (parse p)
        (elim v [
          | [] ↦ ok (record { upath = path; range = version_range any })
          | c ∷ s ↦ (do
            r ← rethrow version_error (range_from_string lib (c ∷ s))
            ok (record { upath = path; range = r }))
        ])

  -- UnresolvedPackageName::contains
  unfoldable pub name_contains : UnresolvedPackageName R → PackageName V → Bool
  name_contains u n = same_path u.upath n.ppath && contains lib u.range n.name_version
