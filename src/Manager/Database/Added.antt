-- ===== src/Manager/Database/Added.antt =====
-- The tables after the last row of PackagesDatabase::installPackage.
use software.Base.{
  ℕ, ◌<◌, ◌≡◌, refl, sym, ap, subst, ◌∙◌, true, false, ◌&&◌, ◌==◌, List, [], ◌∷◌, ◌++◌, map, mem,
  All-map, All-append, any, any-append, All-any-false, find_by, find_by-none, find_by-found,
  find_by-append_none, Option, none, some, ok, arith,
}
use software.Manager.Database.{
  Database, VersionRow, HashRow, VersionFile, LocalPackage, row_id, hash_id, is_version,
  get_package_id, get_package_version_id, get_installed_package_hash, is_package_installed,
}
use software.Manager.Database.Rows.{mem-map_kept, All-known}
use software.Manager.Database.Valid.{IsValid, has_file}
use software.Manager.Database.Install.{VersionAdded}
use software.Manager.Database.Hashes.{HashAdded, added-row_by_id, added-kept}

-- The tables after the new row of installPackage.
abbrev pub with_file : VersionFile → (files configs : List HashRow) → Database → Database
with_file f files configs db = record db {
  files = files;
  configs = configs;
  version_files = db.version_files ++ f ∷ [];
}

-- The package is in the tables, with a file and this configuration.
pub record Installed (p : LocalPackage) (config : ℕ) (db : Database) : Type 0 where
  pub valid : IsValid db
  pub package_id : ℕ
  pub positive : 0 < package_id
  pub found : get_package_id p.path db ≡ package_id
  pub row : VersionRow
  pub row_found : find_by (is_version package_id p.version) db.versions ≡ some row
  pub config_row : HashRow
  pub config_found : find_by (λ (r : HashRow). r.hash == config) db.configs ≡ some config_row
  pub has_config :
      any
        (λ (f : VersionFile). (f.version_id == row.id) && (f.config_id == config_row.id))
        db.version_files
      ≡ true

abbrev row_id_of : Option VersionRow → ℕ
row_id_of o = elim o [ none ↦ 0 | some r ↦ r.id ]

is_package_installed-found :
    (p : LocalPackage) (db : Database) (pid : ℕ) (row : VersionRow) (h : ℕ)
    → get_package_id p.path db ≡ pid
    → find_by (is_version pid p.version) db.versions ≡ some row
    → 0 < row.id
    → get_installed_package_hash row.id db ≡ ok h
    → is_package_installed p db ≡ ok (h == p.hash)
unfolding is_package_installed get_package_version_id
is_package_installed-found p db pid row h found row_found pos hash =
    let vid : get_package_version_id p.path p.version db ≡ row.id =
      ap (λ i. row_id_of (find_by (is_version i p.version) db.versions)) found
      ∙ ap row_id_of row_found in
    let none_zero : (row.id == 0) ≡ false = ground arith in
    rw (is_package_installed, vid, none_zero, hash) refl

module _ (p : LocalPackage) (input final pid vid fid icid fcid : ℕ) (db : Database)
    (files configs configs' : List HashRow) (pos : 0 < pid) (v : VersionAdded p final pid vid db)
    (a : HashAdded p.hash fid db.files files) (c : HashAdded input icid db.configs configs)
    (c' : HashAdded final fcid configs configs') where
  unfoldable pub added_file : VersionFile
  added_file = record {
    version_id = vid;
    file_id = fid;
    config_id = icid;
    final_config_id = fcid;
    source = none;
  }

  vid-known : mem vid (map row_id db.versions) ≡ true
  vid-known =
      subst (λ i. mem i (map row_id db.versions) ≡ true) v.row_vid
        (find_by-found _ _ db.versions v.row (All-known row_id db.versions) v.row_found).0

  with_file-IsValid : IsValid (with_file added_file files configs' db)
  unfolding added_file
  with_file-IsValid =
      let l = v.linked in
      (
        record {
          package_known = l.package_known;
          version_known =
              All-append _ db.version_files (added_file ∷ []) l.version_known (vid-known, tt);
          file_known =
              All-append _ db.version_files (added_file ∷ [])
                (All-map _ _
                  (λ f k.
                    subst (λ fs. mem f.file_id (map hash_id fs) ≡ true) (sym a.extends)
                      (mem-map_kept hash_id f.file_id db.files a.more k))
                  db.version_files l.file_known)
                (a.known, tt);
          distinct_files = a.kept_distinct l.distinct_files;
          distinct_versions = l.distinct_versions;
          positive_packages = l.positive_packages;
          positive_versions = l.positive_versions;
        },
        All-map _ _
            (λ r h.
              any-append (λ (f : VersionFile). f.version_id == r.id) db.version_files
                (added_file ∷ [])
              ∙ ground arith)
            db.versions v.have_files,
      )

  with_file-get_package_id : get_package_id p.path (with_file added_file files configs' db) ≡ pid
  unfolding get_package_id
  with_file-get_package_id = v.found

  pub with_file-Installed : Installed p input (with_file added_file files configs' db)
  unfolding added_file
  with_file-Installed = record {
    valid = with_file-IsValid;
    package_id = pid;
    positive = pos;
    found = with_file-get_package_id;
    row = v.row;
    row_found = v.row_found;
    config_row = c.row;
    config_found = added-kept c' input c.row c.row_found;
    has_config =
        any-append (λ (f : VersionFile). (f.version_id == v.row.id) && (f.config_id == c.row.id))
          db.version_files (added_file ∷ [])
        ∙ (let e = v.row_vid in let e' = c.row_id in ground arith);
  }

  -- The first file of a version that had none is the new one.
  with_file-hash :
      has_file db.version_files vid ≡ false
      → get_installed_package_hash vid (with_file added_file files configs' db) ≡ ok p.hash
  unfolding added_file get_installed_package_hash
  with_file-hash h =
      let here : find_by (λ (f : VersionFile). f.version_id == vid) (added_file ∷ [])
          ≡ some added_file =
        ground arith in
      let first =
        find_by-append_none (λ (f : VersionFile). f.version_id == vid) db.version_files
          (added_file ∷ []) (find_by-none _ db.version_files (All-any-false _ db.version_files h))
        ∙ here in
      let (by_id, same) = added-row_by_id a v.linked.distinct_files in
      rw (get_installed_package_hash, first, by_id, same) refl

  pub with_file-is_package_installed :
      has_file db.version_files vid ≡ false
      → is_package_installed p (with_file added_file files configs' db) ≡ ok true
  with_file-is_package_installed h =
      let (pos_vid, _) =
        find_by-found _ _ db.versions v.row v.linked.positive_versions v.row_found in
      let hash =
        subst
          (λ i. get_installed_package_hash i (with_file added_file files configs' db) ≡ ok p.hash)
          (sym v.row_vid) (with_file-hash h) in
      let same : (p.hash == p.hash) ≡ true = ground arith in
      is_package_installed-found p (with_file added_file files configs' db) pid v.row p.hash
        with_file-get_package_id v.row_found pos_vid hash
      ∙ ap ok same
