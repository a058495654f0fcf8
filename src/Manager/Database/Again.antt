-- ===== src/Manager/Database/Again.antt =====
-- PackagesDatabase::installPackage for a package that the tables have.
use software.Base.{
  ℕ, ◌<◌, ◌≡◌, ◌≢◌, refl, ap, ◌==◌, ==_of_ne, List, find_by, some, Option-cases, err, inl, inr,
  arith,
}
use software.Manager.Database.{
  Database, constraint_failed, PackageRow, VersionRow, HashRow, LocalPackage, is_version,
  get_package_id, add_package, add_version, add_hash, add_file, get_config_id, add_version_file,
  install_package,
}
use software.Manager.Database.Added.{Installed}

module _ (new_id : List ℕ → ℕ) where
  add_package_found :
      (p : LocalPackage) (final : ℕ) (db : Database) (pid : ℕ)
      → get_package_id p.path db ≡ pid
      → 0 < pid
      → final ≢ 0
      → add_package new_id p final db ≡ (pid, db)
  unfolding add_package get_package_id
  add_package_found p final db pid found pos n =
      let other = ==_of_ne final 0 n in
      elim (Option-cases (find_by (λ (r : PackageRow). r.path == p.path) db.packages)) [
        | inl e ↦ let zero_id = rw (e, get_package_id) at found in absurd (omega arith)
        | inr (r, e) ↦
            rw (e, add_package, other)
              (let same : r.id ≡ pid = rw (e, get_package_id) at found in ap (λ j. (j, db)) same)
      ]

  add_version_found :
      (p : LocalPackage) (pid : ℕ) (db : Database) (r : VersionRow)
      → find_by (is_version pid p.version) db.versions ≡ some r
      → add_version new_id p pid db ≡ (r.id, db)
  unfolding add_version
  add_version_found p pid db r e = rw (e, add_version) refl

  add_hash_found :
      (h : ℕ) (rows : List HashRow) (r : HashRow)
      → find_by (λ (r : HashRow). r.hash == h) rows ≡ some r
      → add_hash new_id h rows ≡ (r.id, rows)
  unfolding add_hash
  add_hash_found h rows r e = rw (e, add_hash) refl

  -- A package that is in the tables with a file of the settings is not installed again with them: the unique
  -- index refuses the row, unless the final settings are empty.
  pub install_package-twice :
      (p : LocalPackage) (input final : ℕ) (db : Database)
      → Installed p input db
      → final ≢ 0
      → install_package new_id p input final db ≡ err constraint_failed
  unfolding install_package add_version_file add_file get_config_id
  install_package-twice p input final db i n =
      let again = i.has_config in
      rw
        (
          install_package,
          add_package_found p final db i.package_id i.found i.positive n,
          add_version_found p i.package_id db i.row i.row_found,
          add_hash_found input db.configs i.config_row i.config_found,
          again,
        )
        refl
