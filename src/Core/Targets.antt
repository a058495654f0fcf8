-- ===== src/Core/Targets.antt =====
-- src/sw/core/target.h and .cpp: TargetContainer and TargetMap, with the map of
-- src/sw/support/package_version_map.h and getMaxSatisfyingVersion of src/sw/support/version.cpp. A target is
-- its address; `settings_of` is ITarget::getSettings. A path is a number; a version is a number, in the order
-- of the versions, which is that of a VersionMap.
pub mod Latest
pub mod Found
use software.Base.{
  ℕ, zero, suc, Bool, true, false, not, ◌&&◌, ◌||◌, ◌==◌, ltb, if◌then◌else◌, List, [], ◌∷◌, Option,
  none, some, Result, ok, err,
}
use software.Support.Settings.{Setting, setting, object, Settings, equal, is_subset_of}

pub data Error : Type 0 where
  different_input no_input unimplemented : Error

pub record TargetContainer : Type 0 where
  pub input : Option ℕ
  pub targets : List ℕ

abbrev pub empty_container : TargetContainer
empty_container = record { input = none; targets = [] }

-- std::set<ITarget *>::insert
unfoldable pub insert_target : ℕ → List ℕ → List ℕ
insert_target t [] = t ∷ []
insert_target t (u ∷ us) =
    let rest = insert_target t us in
    if ltb t u then t ∷ u ∷ us else if t == u then u ∷ us else u ∷ rest

-- TargetContainer::push_back(ITarget &)
unfoldable pub push_back : ℕ → TargetContainer → TargetContainer
unfolding insert_target
push_back t c = record c { targets = insert_target t c.targets }

unfoldable pub set_input : ℕ → TargetContainer → Result Error TargetContainer
set_input i c = elim c.input [
  | none ↦ ok (record c { input = some i })
  | some j ↦ if i == j then ok (record c { input = some i }) else err different_input
]

unfoldable pub get_input : TargetContainer → Result Error ℕ
get_input c = elim c.input [ none ↦ err no_input | some i ↦ ok i ]

-- TargetContainer::push_back(ITarget &, Input &)
unfoldable pub push_back_from : (t i : ℕ) → TargetContainer → Result Error TargetContainer
unfolding set_input push_back
push_back_from t i c = elim (set_input i c) [ err e ↦ err e | ok c' ↦ ok (push_back t c') ]

unfoldable pub clear : TargetContainer → TargetContainer
clear c = record c { targets = [] }

-- std::find_if
unfoldable pub find_if : (ℕ → Bool) → List ℕ → Option ℕ
find_if p [] = none
find_if p (t ∷ ts) = let rest = find_if p ts in if p t then some t else rest

abbrev pub VersionMap : Type 0
VersionMap = List (ℕ × TargetContainer)

abbrev pub TargetMap : Type 0
TargetMap = List (ℕ × VersionMap)

-- The maps' find.
unfoldable pub find_key {ℓ} : {A : Type ℓ} → ℕ → List (ℕ × A) → Option A
find_key k [] = none
find_key k ((j, a) ∷ m) = let rest = find_key k m in if k == j then some a else rest

abbrev pub versions_of : VersionMap → List ℕ
versions_of [] = []
versions_of ((v, c) ∷ m) = v ∷ versions_of m

-- getMaxSatisfyingVersion: the first of the releases from the last one on; the versions are in ascending
-- order here.
unfoldable pub get_max_satisfying_version :
    (is_release contains : ℕ → Bool) → List ℕ → Result Error ℕ
get_max_satisfying_version is_release contains [] = err unimplemented
get_max_satisfying_version is_release contains (v ∷ vs) =
    elim (get_max_satisfying_version is_release contains vs) [
      | ok w ↦ ok w
      | err e ↦ if is_release v && contains v then ok v else err unimplemented
    ]

module _ (settings_of : ℕ → Settings) where
  unfoldable pub find_equal : Settings → TargetContainer → Option ℕ
  unfolding find_if equal
  find_equal s c =
      find_if (λ t. equal (setting false (object s)) (setting false (object (settings_of t))))
        c.targets

  unfoldable pub find_suitable : Settings → TargetContainer → Option ℕ
  unfolding find_if is_subset_of
  find_suitable s c = find_if (λ t. is_subset_of (settings_of t) s) c.targets

  abbrev pub suitable_in : Settings → Option TargetContainer → Option ℕ
  suitable_in s o = elim o [ none ↦ none | some c ↦ find_suitable s c ]

  -- TargetMap::find(const PackageId &)
  unfoldable pub find_id : (path version : ℕ) → Settings → TargetMap → Option ℕ
  unfolding find_key find_suitable
  find_id path v s m = elim (find_key path m) [
    | none ↦ none
    | some versions ↦ suitable_in s (find_key v versions)
  ]

  -- TargetMap::find(const ResolveRequest &), for the range of the request
  unfoldable pub find_request :
      (is_release contains : ℕ → Bool) (path : ℕ) → Settings → TargetMap → Result Error (Option ℕ)
  unfolding find_key find_suitable get_max_satisfying_version
  find_request is_release contains path s m = elim (find_key path m) [
    | none ↦ ok none
    | some versions ↦ elim (get_max_satisfying_version is_release contains (versions_of versions)) [
      | err e ↦ err e
      | ok v ↦ ok (suitable_in s (find_key v versions))
    ]
  ]

-- SwBuild::registerTarget: operator[] makes the path and the version.
unfoldable pub at_version :
    (TargetContainer → TargetContainer) → (version : ℕ) → VersionMap → VersionMap
at_version f v [] = (v, f empty_container) ∷ []
at_version f v ((w, c) ∷ m) =
    let rest = at_version f v m in
    if v == w
    then (w, f c) ∷ m
    else if ltb v w
    then (v, f empty_container) ∷ (w, c) ∷ m
    else (w, c) ∷ rest

unfoldable pub register_target : (path version target : ℕ) → TargetMap → TargetMap
unfolding at_version push_back
register_target p v t [] = (p, at_version (push_back t) v []) ∷ []
register_target p v t ((q, vs) ∷ m) =
    let rest = register_target p v t m in
    if p == q then (q, at_version (push_back t) v vs) ∷ m else (q, vs) ∷ rest
