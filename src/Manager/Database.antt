-- ===== src/Manager/Database.antt =====
-- src/sw/manager/database.cpp: PackagesDatabase, with the tables of
-- src/sw/manager/inserts/packages_db_schema.sql as lists of rows, in the order of their ids. A path (up to case,
-- as the column's collation compares), the text of a version, a hash and a directory are numbers. SQLite is a
-- library: `new_id` is the id that it gives a new row. What an exception leaves of a transaction is not
-- modelled.
pub mod Rows
pub mod Valid
pub mod Install
pub mod Hashes
pub mod Added
pub mod Installed
pub mod Again
pub mod Resolve
pub mod Answers
use software.Base.{
  ℕ, Bool, true, false, not, ◌&&◌, ◌||◌, ◌==◌, if◌then◌else◌, List, [], ◌∷◌, ◌++◌, map, Option,
  none, some, Result, ok, err, ◌>>=◌, ◌>>◌, throw_if, find_by, filter_by, any,
}
use software.Support.Path.{Str}
use software.Support.Version.{
  VersionLib, PackageVersion, from_string, to_text, Error as VersionError,
}
use software.Support.Resolver.{Package, ResolveRequest, set_package}

pub record PackageRow : Type 0 where
  pub id : ℕ
  pub path : ℕ

pub record VersionRow : Type 0 where
  pub id : ℕ
  pub package_id : ℕ
  pub version : ℕ
  pub prefix : ℕ
  pub sdir : ℕ

-- The tables `file` and `config`.
pub record HashRow : Type 0 where
  pub id : ℕ
  pub hash : ℕ

pub record VersionFile : Type 0 where
  pub version_id : ℕ
  pub file_id : ℕ
  pub config_id : ℕ
  pub final_config_id : ℕ
  pub source : Option ℕ

pub record Database : Type 0 where
  pub packages : List PackageRow
  pub versions : List VersionRow
  pub files : List HashRow
  pub configs : List HashRow
  pub version_files : List VersionFile

pub data Error : Type 0 where
  no_version_file no_file no_such_package constraint_failed : Error
  version_error : VersionError → Error

-- A Package with its PackageData.
pub record LocalPackage : Type 0 where
  pub path : ℕ
  pub version : ℕ
  pub settings_hash : ℕ
  pub hash : ℕ
  pub prefix : ℕ
  pub sdir : ℕ

pub record PackageData : Type 0 where
  pub hash : ℕ
  pub prefix : ℕ
  pub sdir : ℕ
  pub source : Option ℕ

abbrev pub row_id : VersionRow → ℕ
row_id r = r.id

abbrev pub hash_id : HashRow → ℕ
hash_id r = r.id

abbrev pub package_row_id : PackageRow → ℕ
package_row_id r = r.id

abbrev pub id_of : Option ℕ → ℕ
id_of o = elim o [ none ↦ 0 | some i ↦ i ]

unfoldable pub get_package_id : ℕ → Database → ℕ
get_package_id path db = elim (find_by (λ (r : PackageRow). r.path == path) db.packages) [
  | none ↦ 0
  | some r ↦ r.id
]

abbrev pub is_version : (package_id version : ℕ) → VersionRow → Bool
is_version pid version r = (r.package_id == pid) && (r.version == version)

unfoldable pub get_package_version_id : (path version : ℕ) → Database → ℕ
unfolding get_package_id
get_package_version_id path version db =
    elim (find_by (is_version (get_package_id path db) version) db.versions) [
      | none ↦ 0
      | some r ↦ r.id
    ]

unfoldable pub get_installed_package_hash : (version_id : ℕ) → Database → Result Error ℕ
get_installed_package_hash vid db =
    elim (find_by (λ (f : VersionFile). f.version_id == vid) db.version_files) [
      | none ↦ err no_version_file
      | some f ↦ elim (find_by (λ (r : HashRow). r.id == f.file_id) db.files) [
        | none ↦ err no_file
        | some r ↦ ok r.hash
      ]
    ]

unfoldable pub is_package_installed : LocalPackage → Database → Result Error Bool
unfolding get_package_version_id get_installed_package_hash
is_package_installed p db =
    let vid = get_package_version_id p.path p.version db in
    if vid == 0 then ok false else (do h ← get_installed_package_hash vid db; ok (h == p.hash))

unfoldable pub get_package_data : (path version : ℕ) → Database → Result Error PackageData
unfolding get_package_id get_installed_package_hash
get_package_data path version db =
    elim (find_by (is_version (get_package_id path db) version) db.versions) [
      | none ↦ err no_such_package
      | some r ↦ (do
        h ← get_installed_package_hash r.id db
        elim (find_by (λ (f : VersionFile). f.version_id == r.id) db.version_files) [
          | none ↦ err no_version_file
          | some f ↦ ok (record { hash = h; prefix = r.prefix; sdir = r.sdir; source = f.source })
        ])
    ]

-- remove_from(pkg_ver): the files of the versions go with them (ON DELETE CASCADE).
unfoldable pub remove_versions : (VersionRow → Bool) → Database → Database
remove_versions p db = record db {
  versions = filter_by (λ r. not (p r)) db.versions;
  version_files =
      filter_by
        (λ (f : VersionFile).
          not (any (λ (r : VersionRow). p r && (r.id == f.version_id)) db.versions))
        db.version_files;
}

unfoldable pub delete_overridden_package_dir : (sdir : ℕ) → Database → Database
unfolding remove_versions
delete_overridden_package_dir sdir db = remove_versions (λ r. r.sdir == sdir) db

abbrev pub versions_of : ℕ → List VersionRow → List ℕ
versions_of pid [] = []
versions_of pid (r ∷ rs) =
    if r.package_id == pid then r.version ∷ versions_of pid rs else versions_of pid rs

unfoldable pub get_versions_for_package : (path : ℕ) → Database → List ℕ
unfolding get_package_id
get_versions_for_package path db = versions_of (get_package_id path db) db.versions

module _ (new_id : List ℕ → ℕ) where
  -- The parts of installPackage, each with the id that it finds or makes.
  unfoldable pub add_package : LocalPackage → (final_settings_hash : ℕ) → Database → ℕ × Database
  unfolding remove_versions
  add_package p final db = elim (find_by (λ (r : PackageRow). r.path == p.path) db.packages) [
    | none ↦
        let i = new_id (map package_row_id db.packages) in
        (i, record db { packages = db.packages ++ (record { id = i; path = p.path }) ∷ [] })
    | some r ↦ (r.id, if final == 0 then remove_versions (is_version r.id p.version) db else db)
  ]

  unfoldable pub add_version : LocalPackage → (package_id : ℕ) → Database → ℕ × Database
  add_version p pid db = elim (find_by (is_version pid p.version) db.versions) [
    | none ↦
        let i = new_id (map row_id db.versions) in
        let row : VersionRow = record {
          id = i;
          package_id = pid;
          version = p.version;
          prefix = p.prefix;
          sdir = p.sdir;
        } in
        (i, record db { versions = db.versions ++ row ∷ [] })
    | some r ↦ (r.id, db)
  ]

  unfoldable pub add_hash : ℕ → List HashRow → ℕ × List HashRow
  add_hash h rows = elim (find_by (λ (r : HashRow). r.hash == h) rows) [
    | none ↦ let i = new_id (map hash_id rows) in (i, rows ++ (record { id = i; hash = h }) ∷ [])
    | some r ↦ (r.id, rows)
  ]

  unfoldable pub add_file : LocalPackage → Database → ℕ × Database
  unfolding add_hash
  add_file p db = let (i, rows) = add_hash p.hash db.files in (i, record db { files = rows })

  unfoldable pub get_config_id : (hash : ℕ) → Database → ℕ × Database
  unfolding add_hash
  get_config_id h db = let (i, rows) = add_hash h db.configs in (i, record db { configs = rows })

  -- insert_into(t_pkg_ver_files), with the unique index on the version and the config
  unfoldable pub add_version_file : VersionFile → Database → Result Error Database
  add_version_file f db =
      if any (λ (g : VersionFile). (g.version_id == f.version_id) && (g.config_id == f.config_id))
        db.version_files
      then err constraint_failed
      else ok (record db { version_files = db.version_files ++ f ∷ [] })

  unfoldable pub install_package :
      LocalPackage
      → (input_settings_hash final_settings_hash : ℕ) → Database
      → Result Error Database
  unfolding add_package add_version add_file get_config_id add_version_file
  install_package p input final db =
      let (pid, db₁) = add_package p final db in
      let (vid, db₂) = add_version p pid db₁ in
      let (fid, db₃) = add_file p db₂ in
      let (icid, db₄) = get_config_id input db₃ in
      let (fcid, db₅) = get_config_id final db₄ in
      add_version_file
        (record {
          version_id = vid;
          file_id = fid;
          config_id = icid;
          final_config_id = fcid;
          source = none;
        })
        db₅

-- `text` is the text of a version that a number of the tables stands for, and `number` is back.
module _ {V R : Type 0} (lib : VersionLib V R) (text : ℕ → Str) (number : Str → ℕ) where
  -- The version of the name that makePackage is given.
  unfoldable pub read_version : ℕ → Result Error (PackageVersion V)
  unfolding from_string
  read_version n = elim (from_string lib (text n)) [ err e ↦ err (version_error e) | ok v ↦ ok v ]

  -- The body of the loop of PackagesDatabase::resolve, whose storage does not override; the package has the
  -- number of its row. getPackageData, which looks the text of the version up again, is called for what it throws.
  unfoldable pub offer_row :
      (path package_id config_id : ℕ)
      → Database
      → VersionRow
      → Bool × ResolveRequest V R
      → Result Error (Bool × ResolveRequest V R)
  unfolding get_package_data read_version
  offer_row path pid cid db row (resolved, rr) =
      if (row.package_id == pid)
        && any (λ (f : VersionFile). (f.version_id == row.id) && (f.config_id == cid))
            db.version_files
      then (do
        v ← read_version row.version
        d ← get_package_data path (number (to_text lib v)) db
        ok (
            let (taken, rr') = set_package lib (record { id = row.id; package_version = v }) rr in
            (resolved || taken, rr')))
      else ok (resolved, rr)

  unfoldable pub resolve_rows :
      (path package_id config_id : ℕ)
      → Database
      → List VersionRow
      → Bool × ResolveRequest V R
      → Result Error (Bool × ResolveRequest V R)
  unfolding offer_row
  resolve_rows path pid cid db [] st = ok st
  resolve_rows path pid cid db (row ∷ rows) st = do
    st' ← offer_row path pid cid db row st
    resolve_rows path pid cid db rows st'

  unfoldable pub resolve :
      (path settings_hash : ℕ)
      → Database
      → ResolveRequest V R
      → Result Error (Bool × ResolveRequest V R)
  unfolding get_package_id resolve_rows
  resolve path settings_hash db rr =
      let pid = get_package_id path db in
      if pid == 0
      then ok (false, rr)
      else elim (find_by (λ (r : HashRow). r.hash == settings_hash) db.configs) [
        | none ↦ ok (false, rr)
        | some c ↦ resolve_rows path pid c.id db db.versions (false, rr)
      ]
