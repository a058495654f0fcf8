-- ===== src/Manager/Database/Install.antt =====
-- PackagesDatabase::installPackage, part by part: what each part leaves of the tables.
use software.Base.{
  ℕ, ◌<◌, ◌≡◌, refl, sym, ap, ◌∙◌, true, false, not, not-true, ◌&&◌, ◌==◌, ==_iff, Bool-cases, List,
  [], ◌∷◌, ◌++◌, map, mem, All, All-map, All-append, filter_by-holds, any-none, find_by,
  find_by-none, find_by-found, find_by-append_none, Option, none, some, Option-cases, inl, inr,
  arith,
}
use software.Manager.Database.{
  Database, PackageRow, VersionRow, VersionFile, LocalPackage, row_id, package_row_id, is_version,
  remove_versions, get_package_id, add_package, add_version,
}
use software.Manager.Database.Rows.{mem-map_kept, mem-map_last, distinct-map_snoc, All-known}
use software.Manager.Database.Valid.{
  IsLinked, HaveFiles, IsValid, has_file, remove_versions-IsValid,
}

-- What SQLite promises of the id of a new row.
pub record IsNewId (new_id : List ℕ → ℕ) : Type 0 where
  pub fresh : (ids : List ℕ) → mem (new_id ids) ids ≡ false
  pub positive : (ids : List ℕ) → 0 < new_id ids

-- The package has its row.
pub record PackageAdded (p : LocalPackage) (final pid : ℕ) (db : Database) : Type 0 where
  pub valid : IsValid db
  pub positive : 0 < pid
  pub known : mem pid (map package_row_id db.packages) ≡ true
  pub found : get_package_id p.path db ≡ pid
  pub no_version : final ≡ 0 → find_by (is_version pid p.version) db.versions ≡ none

-- No row of a list with known references has one that is absent.
absent_reference :
    {A : Type 0} (f : A → ℕ) (ids : List ℕ) (i : ℕ) (xs : List A)
    → mem i ids ≡ false
    → All (λ x. mem (f x) ids ≡ true) xs
    → All (λ x. (f x == i) ≡ false) xs
absent_reference f ids i xs m =
    All-map (λ x. mem (f x) ids ≡ true) (λ x. (f x == i) ≡ false)
      (λ x a. elim (Bool-cases (f x == i)) [
        | inl e ↦
            (let same = (==_iff (f x) i).0 e in
              let c : true ≡ false = sym a ∙ ap (λ j. mem j ids) same ∙ m in cc)
        | inr e ↦ e
      ])
      xs

-- The version has its row, and every version but this one has a file.
pub record VersionAdded (p : LocalPackage) (final pid vid : ℕ) (db : Database) : Type 0 where
  pub linked : IsLinked db
  pub have_files : HaveFiles (λ i. i == vid) db
  pub found : get_package_id p.path db ≡ pid
  pub row : VersionRow
  pub row_found : find_by (is_version pid p.version) db.versions ≡ some row
  pub row_vid : row.id ≡ vid
  pub no_file : final ≡ 0 → has_file db.version_files vid ≡ false

module _ (new_id : List ℕ → ℕ) (new : IsNewId new_id) where
  add_package_new :
      (p : LocalPackage) (final : ℕ) (db : Database)
      → IsValid db
      → find_by (λ (r : PackageRow). r.path == p.path) db.packages ≡ none
      → (let (pid, db') = add_package new_id p final db in PackageAdded p final pid db')
  unfolding add_package get_package_id
  add_package_new p final db (l, h) e =
      rw (e, add_package)
        (let i = new_id (map package_row_id db.packages) in
          let m = new.fresh (map package_row_id db.packages) in
          let row : PackageRow = record { id = i; path = p.path } in
          let known : All
              (λ (r : VersionRow).
                mem r.package_id (map package_row_id (db.packages ++ row ∷ [])) ≡ true)
              db.versions =
            All-map _ _ (λ r a. mem-map_kept package_row_id r.package_id db.packages (row ∷ []) a)
              db.versions l.package_known in
          let here : find_by (λ (r : PackageRow). r.path == p.path) (row ∷ []) ≡ some row =
            ground arith in
          record {
            valid = (
              record {
                package_known = known;
                version_known = l.version_known;
                file_known = l.file_known;
                distinct_files = l.distinct_files;
                distinct_versions = l.distinct_versions;
                positive_versions = l.positive_versions;
                positive_packages =
                    All-append _ db.packages (row ∷ []) l.positive_packages (new.positive _, tt);
              },
              h,
            );
            positive = new.positive _;
            known = mem-map_last package_row_id db.packages row;
            found =
                ap (λ (o : Option PackageRow). elim o [ none ↦ 0 | some r ↦ r.id ])
                  (find_by-append_none (λ (r : PackageRow). r.path == p.path) db.packages (row ∷ [])
                      e
                    ∙ here);
            no_version = λ z. find_by-none (is_version i p.version) db.versions (
                All-map _ _ (λ r a. ap (λ b. b && (r.version == p.version)) a) db.versions
                  (absent_reference (λ (r : VersionRow). r.package_id)
                    (map package_row_id db.packages) i db.versions m l.package_known));
          })

  add_package_old :
      (p : LocalPackage) (final : ℕ) (db : Database) (r : PackageRow)
      → IsValid db
      → find_by (λ (r : PackageRow). r.path == p.path) db.packages ≡ some r
      → (let (pid, db') = add_package new_id p final db in PackageAdded p final pid db')
  unfolding add_package get_package_id remove_versions
  add_package_old p final db r v e =
      let (pos, _) = find_by-found _ _ db.packages r v.0.positive_packages e in
      let (known, _) = find_by-found _ _ db.packages r (All-known package_row_id db.packages) e in
      let found : get_package_id p.path db ≡ r.id =
        ap (λ (o : Option PackageRow). elim o [ none ↦ 0 | some r ↦ r.id ]) e in
      let removed = remove_versions (is_version r.id p.version) db in
      elim (Bool-cases (final == 0)) [
        | inl z ↦
            rw (e, add_package, z)
              (record {
                valid = remove_versions-IsValid (is_version r.id p.version) db v;
                positive = pos;
                known = known;
                found = found;
                no_version = λ _. find_by-none (is_version r.id p.version) removed.versions (
                    All-map _ _ (λ x a. not-true a) removed.versions
                      (filter_by-holds (λ x. not (is_version r.id p.version x)) db.versions));
              })
        | inr z ↦
            rw (e, add_package, z)
              (record {
                valid = v;
                positive = pos;
                known = known;
                found = found;
                no_version = λ h. ground arith;
              })
      ]

  add_version_new :
      (p : LocalPackage) (final pid : ℕ) (db : Database)
      → PackageAdded p final pid db
      → find_by (is_version pid p.version) db.versions ≡ none
      → (let (vid, db') = add_version new_id p pid db in VersionAdded p final pid vid db')
  unfolding add_version get_package_id
  add_version_new p final pid db v e =
      rw (e, add_version)
        (let i = new_id (map row_id db.versions) in
          let m = new.fresh (map row_id db.versions) in
          let row : VersionRow = record {
            id = i;
            package_id = pid;
            version = p.version;
            prefix = p.prefix;
            sdir = p.sdir;
          } in
          let l = v.valid.0 in
          let none_of =
            absent_reference (λ (f : VersionFile). f.version_id) (map row_id db.versions) i
              db.version_files m l.version_known in
          record {
            linked = record {
              package_known = All-append _ db.versions (row ∷ []) l.package_known (v.known, tt);
              version_known =
                  All-map _ _ (λ f a. mem-map_kept row_id f.version_id db.versions (row ∷ []) a)
                    db.version_files l.version_known;
              file_known = l.file_known;
              distinct_files = l.distinct_files;
              distinct_versions = distinct-map_snoc row_id db.versions row m l.distinct_versions;
              positive_packages = l.positive_packages;
              positive_versions =
                  All-append _ db.versions (row ∷ []) l.positive_versions (new.positive _, tt);
            };
            have_files =
                All-append _ db.versions (row ∷ [])
                  (All-map _ _ (λ r a. ground arith) db.versions v.valid.1) (ground arith, tt);
            found = v.found;
            row = row;
            row_found =
                find_by-append_none (is_version pid p.version) db.versions (row ∷ []) e
                ∙ ground arith;
            row_vid = refl;
            no_file = λ _. any-none _ db.version_files none_of;
          })

  add_version_old :
      (p : LocalPackage) (final pid : ℕ) (db : Database) (r : VersionRow)
      → PackageAdded p final pid db
      → find_by (is_version pid p.version) db.versions ≡ some r
      → (let (vid, db') = add_version new_id p pid db in VersionAdded p final pid vid db')
  unfolding add_version get_package_id
  add_version_old p final pid db r v e =
      rw (e, add_version)
        (record {
          linked = v.valid.0;
          have_files = All-map _ _ (λ x a. ground arith) db.versions v.valid.1;
          found = v.found;
          row = r;
          row_found = e;
          row_vid = refl;
          no_file = λ z. let n = v.no_version z in cc;
        })

  pub add_package-added :
      (p : LocalPackage) (final : ℕ) (db : Database)
      → IsValid db
      → PackageAdded p final (add_package new_id p final db).0 (add_package new_id p final db).1
  add_package-added p final db v =
      elim (Option-cases (find_by (λ (r : PackageRow). r.path == p.path) db.packages)) [
        | inl e ↦ add_package_new p final db v e
        | inr (r, e) ↦ add_package_old p final db r v e
      ]

  pub add_version-added :
      (p : LocalPackage) (final pid : ℕ) (db : Database)
      → PackageAdded p final pid db
      → VersionAdded p final pid (add_version new_id p pid db).0 (add_version new_id p pid db).1
  add_version-added p final pid db v =
      elim (Option-cases (find_by (is_version pid p.version) db.versions)) [
        | inl e ↦ add_version_new p final pid db v e
        | inr (r, e) ↦ add_version_old p final pid db r v e
      ]
