-- ===== src/Manager/Database/Valid.antt =====
-- What the schema and the code keep of the tables.
use software.Base.{
  ℕ, ◌<◌, ◌≡◌, sym, ap, subst, ◌∙◌, Bool, true, false, not, ◌&&◌, ◌||◌, ◌==◌, ==_iff, if◌then◌else◌,
  Bool-cases, List, [], ◌∷◌, map, mem, distinct, All, filter_by, any, All-zip, distinct-split,
  not-true, All-filter_by, filter_by-holds, any-filter_by, inl, inr, arith,
}
use software.Manager.Database.{
  Database, PackageRow, VersionRow, VersionFile, row_id, hash_id, package_row_id, remove_versions,
}
use software.Manager.Database.Rows.{distinct-filter_by, mem-filter_by, any-id_absent, All-absent}

-- The references of the schema hold, and ids are distinct and positive.
pub record IsLinked (db : Database) : Type 0 where
  pub package_known :
      All (λ (r : VersionRow). mem r.package_id (map package_row_id db.packages) ≡ true) db.versions
  pub version_known :
      All (λ (f : VersionFile). mem f.version_id (map row_id db.versions) ≡ true) db.version_files
  pub file_known :
      All (λ (f : VersionFile). mem f.file_id (map hash_id db.files) ≡ true) db.version_files
  pub distinct_files : distinct (map hash_id db.files) ≡ true
  pub distinct_versions : distinct (map row_id db.versions) ≡ true
  pub positive_packages : All (λ (r : PackageRow). 0 < r.id) db.packages
  pub positive_versions : All (λ (r : VersionRow). 0 < r.id) db.versions

abbrev pub has_file : List VersionFile → ℕ → Bool
has_file fs i = any (λ (f : VersionFile). f.version_id == i) fs

-- Every version but those of the test has a file.
abbrev pub HaveFiles : (ℕ → Bool) → Database → Type 0
HaveFiles but db =
    All (λ (r : VersionRow). (but r.id || has_file db.version_files r.id) ≡ true) db.versions

abbrev pub IsValid : Database → Type 0
IsValid db = IsLinked db × HaveFiles (λ i. false) db

-- Removing versions with their files leaves valid tables.
removed_row : (VersionRow → Bool) → List VersionRow → ℕ → Bool
removed_row p rows i = any (λ (r : VersionRow). p r && (r.id == i)) rows

-- A kept row has no row with its id among those that are removed.
All-kept :
    (p : VersionRow → Bool) (rows : List VersionRow)
    → distinct (map row_id rows) ≡ true
    → All (λ r. removed_row p rows r.id ≡ false) (filter_by (λ r. not (p r)) rows)
unfolding removed_row
All-kept p [] d = tt
All-kept p (x ∷ xs) d =
    let (m, e) = distinct-split x.id (map row_id xs) d in
    let rest = All-kept p xs e in
    let others = All-filter_by _ (λ r. not (p r)) xs (All-absent row_id xs x.id m) in
    elim (Bool-cases (p x)) [
      | inl q ↦
          subst
            (λ b.
              All (λ (r : VersionRow). (b && (x.id == r.id) || removed_row p xs r.id) ≡ false)
                (if not b
                  then x ∷ filter_by (λ r. not (p r)) xs
                  else filter_by (λ r. not (p r)) xs))
            (sym q) (All-zip _ _ _ (λ r a b. ground arith) _ others rest)
      | inr q ↦
          subst
            (λ b.
              All (λ (r : VersionRow). (b && (x.id == r.id) || removed_row p xs r.id) ≡ false)
                (if not b
                  then x ∷ filter_by (λ r. not (p r)) xs
                  else filter_by (λ r. not (p r)) xs))
            (sym q) (any-id_absent row_id p x.id xs m, rest)
    ]

pub remove_versions-IsValid :
    (p : VersionRow → Bool) (db : Database) → IsValid db → IsValid (remove_versions p db)
unfolding remove_versions removed_row
remove_versions-IsValid p db (l, h) =
    let kept_file : VersionFile → Bool = λ f. not (removed_row p db.versions f.version_id) in
    (
      record {
        package_known = All-filter_by _ (λ r. not (p r)) db.versions l.package_known;
        version_known =
            All-zip _ _ _ (λ f a b. mem-filter_by row_id p f.version_id db.versions a (not-true b))
              _ (All-filter_by _ kept_file db.version_files l.version_known)
              (filter_by-holds kept_file db.version_files);
        file_known = All-filter_by _ kept_file db.version_files l.file_known;
        distinct_files = l.distinct_files;
        distinct_versions =
            distinct-filter_by row_id (λ r. not (p r)) db.versions l.distinct_versions;
        positive_packages = l.positive_packages;
        positive_versions = All-filter_by _ (λ r. not (p r)) db.versions l.positive_versions;
      },
      All-zip _ _ _
          (λ r a b.
            any-filter_by kept_file (λ (f : VersionFile). f.version_id == r.id) db.version_files
              (λ f e.
                ap (λ i. not (removed_row p db.versions i)) ((==_iff f.version_id r.id).0 e)
                ∙ ap not a)
              b)
          _ (All-kept p db.versions l.distinct_versions)
          (All-filter_by _ (λ r. not (p r)) db.versions h),
    )
