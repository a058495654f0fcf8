-- ===== src/Tests/Storing.antt =====
-- A database that starts empty, with the ids that SQLite gives to new rows: one more than the greatest.
use software.Base.{
  ℕ, suc, ◌<◌, ◌≤◌, ◌≡◌, refl, true, false, ltb, if◌then◌else◌, arith, List, [], ◌∷◌, mem, none,
  some, ok, err,
}
use software.Support.Version.{
  PackageVersion, version, version_range, contains, from_string, to_text,
}
use software.Support.Path.{Str}
use software.Support.Resolver.{Package, ResolveRequest}
use software.Support.Resolver.Best.{beats}
use software.Manager.Database.{
  Database, constraint_failed, LocalPackage, is_package_installed, install_package, resolve,
  delete_overridden_package_dir, get_versions_for_package,
}
use software.Manager.Database.Valid.{IsValid}
use software.Manager.Database.Install.{IsNewId}
use software.Manager.Database.Added.{Installed}
use software.Manager.Database.Installed.{
  install_package-Installed, install_package-is_package_installed,
}
use software.Manager.Database.Again.{install_package-twice}
use software.Manager.Database.Answers.{resolve-finds-Installed}
use software.Tests.Resolving.{numbers, numbers-IsOrderedLib}

abbrev next_id : List ℕ → ℕ
next_id [] = 1
next_id (i ∷ is) = let n = next_id is in if ltb i n then n else suc i

next_id-above : (i : ℕ) (ids : List ℕ) → next_id ids ≤ i → mem i ids ≡ false
next_id-above i [] h = refl
next_id-above i (j ∷ ids) h = ground (arith, next_id-above i ids)

next_id-positive : (ids : List ℕ) → 0 < next_id ids
next_id-positive [] = omega arith
next_id-positive (i ∷ ids) = ground (arith, next_id-positive ids)

next_id-IsNewId : IsNewId next_id
next_id-IsNewId = record {
  fresh = λ ids. next_id-above (next_id ids) ids (omega arith);
  positive = next_id-positive;
}

abbrev empty_database : Database
empty_database = record {
  packages = [];
  versions = [];
  files = [];
  configs = [];
  version_files = [];
}

empty_database-IsValid : IsValid empty_database
empty_database-IsValid = (
  record {
    package_known = tt;
    version_known = tt;
    file_known = tt;
    distinct_files = refl;
    distinct_versions = refl;
    positive_packages = tt;
    positive_versions = tt;
  },
  tt,
)

-- Version 3 of the package 70.
abbrev some_package : LocalPackage
some_package = record {
  path = 70;
  version = 3;
  settings_hash = 11;
  hash = 900;
  prefix = 2;
  sdir = 5;
}

abbrev one_package : Database
one_package = record {
  packages = (record { id = 1; path = 70 }) ∷ [];
  versions = (record { id = 1; package_id = 1; version = 3; prefix = 2; sdir = 5 }) ∷ [];
  files = (record { id = 1; hash = 900 }) ∷ [];
  configs = (record { id = 1; hash = 11 }) ∷ (record { id = 2; hash = 12 }) ∷ [];
  version_files =
      (record { version_id = 1; file_id = 1; config_id = 1; final_config_id = 2; source = none })
      ∷ [];
}

install_package-some_package :
    install_package next_id some_package 11 12 empty_database ≡ ok one_package
unfolding install_package
install_package-some_package = refl

install_package-Installed_example : Installed some_package 11 one_package
install_package-Installed_example =
    install_package-Installed next_id next_id-IsNewId some_package 11 12 empty_database one_package
      empty_database-IsValid install_package-some_package

-- The version is there with another hash and other settings.
abbrev other_hash : LocalPackage
other_hash = record some_package { hash = 901 }

install_package-is_package_installed_example :
    (db' : Database) × (install_package next_id other_hash 11 0 one_package ≡ ok db')
    × (is_package_installed other_hash db' ≡ ok true)
install_package-is_package_installed_example =
    install_package-is_package_installed next_id next_id-IsNewId other_hash 11 one_package
      install_package-Installed_example.valid

install_package-twice_example :
    install_package next_id some_package 11 12 one_package ≡ err constraint_failed
install_package-twice_example =
    install_package-twice next_id some_package 11 12 one_package install_package-Installed_example
      (λ e. omega arith)

abbrev request : ResolveRequest ℕ (ℕ × ℕ)
request = record { r = none; range = version_range (2, 4) }

-- The text of a version is one character, its number.
abbrev letter : ℕ → Str
letter n = n ∷ []

abbrev first_letter : Str → ℕ
first_letter [] = 0
first_letter (c ∷ s) = c

abbrev written : ℕ → PackageVersion ℕ
written n = version n

resolve-finds-Installed_example :
    (b : Package ℕ) × (resolve numbers letter first_letter 70 11 one_package request
      ≡ ok (true, record request { r = some b }))
    × (contains numbers (version_range (2, 4)) b.package_version ≡ true)
    × (beats numbers (version 3) b.package_version ≡ false)
unfolding contains from_string to_text
resolve-finds-Installed_example =
    resolve-finds-Installed numbers written letter first_letter numbers-IsOrderedLib some_package 11
      one_package request install_package-Installed_example ((refl, refl), tt) refl refl

-- The directory of the version is overridden no more.
delete-one_package : get_versions_for_package 70 (delete_overridden_package_dir 5 one_package) ≡ []
unfolding get_versions_for_package delete_overridden_package_dir
delete-one_package = refl
