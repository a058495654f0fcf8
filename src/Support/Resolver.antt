-- ===== src/Support/Resolver.antt =====
-- src/sw/support/resolver.h and .cpp: how the best of several packages is chosen for a request. A
-- package is what the choice reads of it, its version, and its number; a storage is a function on
-- requests.
pub mod Best
pub mod Request
use software.Base.{
  ℕ, Bool, true, false, not, ◌&&◌, if◌then◌else◌, List, [], ◌∷◌, ◌++◌, Option, none, some, Result,
  ok, err, ◌>>=◌,
}
use software.Support.Version.{
  VersionLib, PackageVersion, version, branch, PackageVersionRange, is_release, is_pre_release,
  less, contains,
}

pub record Package (V : Type 0) : Type 0 where
  pub id : ℕ
  pub package_version : PackageVersion V

abbrev pub is_branch : {V : Type 0} → PackageVersion V → Bool
is_branch (branch b) = true
is_branch (version v) = false

pub data Error : Type 0 where
  not_resolved : Error

-- ResolveRequest, with the `r` of ResolveRequestResult.
pub record ResolveRequest (V R : Type 0) : Type 0 where
  pub r : Option (Package V)
  pub range : PackageVersionRange R

abbrev pub Storage : (V R : Type 0) → Type 0
Storage V R = ResolveRequest V R → Bool × ResolveRequest V R

module _ {V R : Type 0} (lib : VersionLib V R) where
  -- ResolveRequestResult::setPackage. The result is the package that is kept, and whether it is the
  -- new one.
  unfoldable pub set_result : Option (Package V) → Package V → Option (Package V) × Bool
  set_result none new = (some new, true)
  set_result (some old) new =
      let o = old.package_version in
      let n = new.package_version in
      if is_branch n
      then (some old, false)
      else if is_pre_release lib o && is_release lib n
      then (some new, true)
      else if is_release lib o && is_pre_release lib n
      then (some old, false)
      else if less lib o n
      then (some new, true)
      else (some old, false)

  -- ResolveRequestResult::setPackageForce
  unfoldable pub set_package_force : Package V → ResolveRequest V R → ResolveRequest V R
  set_package_force new rr = record rr { r = some new }

  -- ResolveRequest::setPackage
  unfoldable pub set_package : Package V → ResolveRequest V R → Bool × ResolveRequest V R
  unfolding set_result
  set_package new rr =
      if not (contains lib rr.range new.package_version)
      then (false, rr)
      else (let (kept, taken) = set_result rr.r new in (taken, record rr { r = kept }))

  unfoldable pub is_resolved : ResolveRequest V R → Bool
  is_resolved rr = elim rr.r [ none ↦ false | some p ↦ true ]

  -- getPackage
  unfoldable pub get_package : ResolveRequest V R → Result Error (Package V)
  get_package rr = elim rr.r [ none ↦ err not_resolved | some p ↦ ok p ]

  -- The loop of Resolver::resolve.
  unfoldable pub ask : List (Storage V R) → ResolveRequest V R → Result Error (ResolveRequest V R)
  unfolding get_package
  ask [] rr = ok rr
  ask (s ∷ ss) rr =
      let (answered, rr') = s rr in
      if not answered
      then ask ss rr'
      else (do p ← get_package rr'; (if is_branch p.package_version then ok rr' else ask ss rr'))

  unfoldable pub resolve :
      List (Storage V R) → ResolveRequest V R → Result Error (Bool × ResolveRequest V R)
  unfolding ask is_resolved
  resolve storages rr = do rr' ← ask storages rr; ok (is_resolved rr', rr')

  unfoldable pub add_storage : Storage V R → List (Storage V R) → List (Storage V R)
  add_storage s storages = storages ++ s ∷ []
