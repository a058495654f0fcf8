-- ===== src/Manager/Database/Installed.antt =====
-- PackagesDatabase::installPackage as a whole, and what isPackageInstalled says after it.
use software.Base.{
  ℕ, ◌<◌, ◌≡◌, refl, sym, ap, subst, ◌∙◌, true, ◌&&◌, ◌==◌, if◌then◌else◌, Bool-cases, List,
  All-map, any, any-none, All-any-false, ok, err, inl, inr,
}
use software.Manager.Database.{
  Database, constraint_failed, HashRow, VersionFile, LocalPackage, is_package_installed,
  add_package, add_version, add_hash, add_file, get_config_id, add_version_file, install_package,
}
use software.Manager.Database.Valid.{IsValid}
use software.Manager.Database.Install.{IsNewId, VersionAdded, add_package-added, add_version-added}
use software.Manager.Database.Hashes.{HashAdded, add_hash-added}
use software.Manager.Database.Added.{
  Installed, with_file, added_file, with_file-Installed, with_file-is_package_installed,
}

-- The tables before the new row, and the row, as installPackage prepares them.
record Prepared (p : LocalPackage) (input final : ℕ) : Type 0 where
  db : Database
  files : List HashRow
  configs : List HashRow
  configs' : List HashRow
  pid : ℕ
  vid : ℕ
  fid : ℕ
  icid : ℕ
  fcid : ℕ
  positive : 0 < pid
  version_added : VersionAdded p final pid vid db
  file_added : HashAdded p.hash fid db.files files
  config_added : HashAdded input icid db.configs configs
  final_added : HashAdded final fcid configs configs'

prepared_tables : {p : LocalPackage} {input final : ℕ} → Prepared p input final → Database
prepared_tables {p = p} {input = input} {final = final} s =
    with_file
      (added_file p input final s.pid s.vid s.fid s.icid s.fcid s.db s.files s.configs s.configs'
        s.positive s.version_added s.file_added s.config_added s.final_added)
      s.files s.configs' s.db

module _ (new_id : List ℕ → ℕ) (new : IsNewId new_id) where
  install_package-Prepared :
      (p : LocalPackage) (input final : ℕ) (db : Database)
      → IsValid db
      → (s : Prepared p input final) × (install_package new_id p input final db ≡ (
          if any
            (λ (g : VersionFile). (g.version_id == s.vid) && (g.config_id == s.icid))
            s.db.version_files
          then err constraint_failed
          else ok (prepared_tables s)))
  unfolding install_package add_version_file add_file get_config_id added_file prepared_tables
  install_package-Prepared p input final db v =
      let a = add_package-added new_id new p final db v in
      let b =
        add_version-added new_id new p final (add_package new_id p final db).0
          (add_package new_id p final db).1 a in
      let db₂ =
        (add_version new_id p (add_package new_id p final db).0
          (add_package new_id p final db).1).1 in
      (
        record {
          db = db₂;
          files = (add_hash new_id p.hash db₂.files).1;
          configs = (add_hash new_id input db₂.configs).1;
          configs' = (add_hash new_id final (add_hash new_id input db₂.configs).1).1;
          pid = (add_package new_id p final db).0;
          vid =
              (add_version new_id p (add_package new_id p final db).0
                (add_package new_id p final db).1).0;
          fid = (add_hash new_id p.hash db₂.files).0;
          icid = (add_hash new_id input db₂.configs).0;
          fcid = (add_hash new_id final (add_hash new_id input db₂.configs).1).0;
          positive = a.positive;
          version_added = b;
          file_added = add_hash-added new_id new p.hash db₂.files;
          config_added = add_hash-added new_id new input db₂.configs;
          final_added = add_hash-added new_id new final (add_hash new_id input db₂.configs).1;
        },
        refl,
      )

  -- When installPackage returns on valid tables, the tables are valid, and the package is in them, with a file
  -- of the settings.
  pub install_package-Installed :
      (p : LocalPackage) (input final : ℕ) (db db' : Database)
      → IsValid db
      → install_package new_id p input final db ≡ ok db'
      → Installed p input db'
  unfolding prepared_tables
  install_package-Installed p input final db db' v e =
      let (s, made) = install_package-Prepared p input final db v in
      elim (Bool-cases (
        any (λ (g : VersionFile). (g.version_id == s.vid) && (g.config_id == s.icid))
          s.db.version_files)) [
            | inl q ↦ absurd (cc (sym (rw q at made) ∙ e))
            | inr q ↦
                let same : prepared_tables s ≡ db' = (let e' = rw q at made in cc (sym e' ∙ e)) in
                subst (Installed p input) same (
                  with_file-Installed p input final s.pid s.vid s.fid s.icid s.fcid s.db s.files
                    s.configs s.configs' s.positive s.version_added s.file_added s.config_added
                    s.final_added)
          ]

  -- On valid tables, a package without settings is always installed, and isPackageInstalled then says so,
  -- whatever was in the tables of this version.
  pub install_package-is_package_installed :
      (p : LocalPackage) (input : ℕ) (db : Database)
      → IsValid db
      → (db' : Database) × (install_package new_id p input 0 db ≡ ok db')
        × (is_package_installed p db' ≡ ok true)
  unfolding prepared_tables
  install_package-is_package_installed p input db v =
      let (s, made) = install_package-Prepared p input 0 db v in
      let clear = s.version_added.no_file refl in
      let free =
        any-none (λ (g : VersionFile). (g.version_id == s.vid) && (g.config_id == s.icid))
          s.db.version_files
          (All-map _ _ (λ g h. ap (λ b. b && (g.config_id == s.icid)) h) s.db.version_files
            (All-any-false _ s.db.version_files clear)) in
      (
        prepared_tables s,
        rw free at made,
        with_file-is_package_installed p input 0 s.pid s.vid s.fid s.icid s.fcid s.db s.files
            s.configs s.configs' s.positive s.version_added s.file_added s.config_added
            s.final_added clear,
      )
