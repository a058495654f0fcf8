-- ===== src/Manager/Database/Resolve.antt =====
-- PackagesDatabase::resolve: on valid tables it answers every request, with the best of the versions that the
-- tables have for it.
use software.Base.{
  ℕ, ◌<◌, ◌≡◌, refl, sym, ap, subst, ◌∙◌, Bool, true, false, ◌&&◌, ◌||◌, ◌==◌, if◌then◌else◌,
  Bool-cases, List, [], ◌∷◌, and-split, All, All-map, any, any-found, find_by, find_by-found,
  Option, none, some, ok, inl, inr, arith,
}
use software.Support.Path.{Str}
use software.Support.Version.{
  VersionLib, PackageVersion, PackageVersionRange, contains, from_string, to_text,
}
use software.Support.Resolver.{Package, ResolveRequest, set_result, set_package, is_resolved}
use software.Support.Resolver.Best.{beats, set_result-beats, offer_all}
use software.Manager.Database.{
  Database, VersionRow, VersionFile, HashRow, PackageData, hash_id, is_version, get_package_id,
  get_installed_package_hash, get_package_data, read_version, offer_row, resolve_rows, resolve,
}
use software.Manager.Database.Rows.{find_by-known, All-any}
use software.Manager.Database.Valid.{IsValid, has_file}

pub get_installed_package_hash-ok :
    (db : Database) (i : ℕ)
    → IsValid db
    → has_file db.version_files i ≡ true
    → (h : ℕ) × (get_installed_package_hash i db ≡ ok h)
unfolding get_installed_package_hash
get_installed_package_hash-ok db i (l, _) e =
    let (f, first) = any-found _ db.version_files e in
    let (known, _) = find_by-found _ _ db.version_files f l.file_known first in
    let (r, by_id) = find_by-known hash_id f.file_id db.files known in
    (r.hash, rw (get_installed_package_hash, first, by_id) refl)

-- A version of the tables has its data.
pub get_package_data-ok :
    (path version pid : ℕ) (db : Database)
    → IsValid db
    → get_package_id path db ≡ pid
    → any (is_version pid version) db.versions ≡ true
    → (d : PackageData) × (get_package_data path version db ≡ ok d)
unfolding get_package_data
get_package_data-ok path version pid db v found e =
    let (r, e') = any-found _ db.versions e in
    let here = subst (λ i. find_by (is_version i version) db.versions ≡ some r) (sym found) e' in
    let (file, _) = find_by-found _ _ db.versions r v.1 e' in
    let (h, hash) = get_installed_package_hash-ok db r.id v file in
    let (f, first) = any-found _ db.version_files file in
    (
      record { hash = h; prefix = r.prefix; sdir = r.sdir; source = f.source },
      rw (get_package_data, here, hash, first) refl,
    )

module _ {V R : Type 0} (lib : VersionLib V R) (version_of : ℕ → PackageVersion V) where
  abbrev pub package_of : VersionRow → Package V
  package_of row = record { id = row.id; package_version = version_of row.version }

  abbrev pub has_config : (config_id : ℕ) → List VersionFile → VersionRow → Bool
  has_config cid files row =
      any (λ (f : VersionFile). (f.version_id == row.id) && (f.config_id == cid)) files

  -- The versions of the package that have a file of the settings and are in the range, in the order of their ids.
  abbrev pub offers :
      (package_id config_id : ℕ)
      → List VersionFile
      → PackageVersionRange R
      → List VersionRow
      → List (Package V)
  offers pid cid files range [] = []
  offers pid cid files range (row ∷ rows) =
      let rest = offers pid cid files range rows in
      if (row.package_id == pid && has_config cid files row)
        && contains lib range (version_of row.version)
      then package_of row ∷ rest
      else rest

  -- A request after offers.
  abbrev pub offered : ResolveRequest V R → List (Package V) → Bool × ResolveRequest V R
  offered rr ps =
      let rr' : ResolveRequest V R = record rr { r = offer_all lib rr.r ps } in
      (is_resolved lib rr', rr')

  offered_cons :
      (rr : ResolveRequest V R) (b : Bool) (p : Package V) (ps : List (Package V))
      → offered (offered rr (if b then p ∷ [] else [])).1 ps ≡ offered rr (if b then p ∷ ps else ps)
  offered_cons rr true p ps = refl
  offered_cons rr false p ps = refl

  or-false : (b : Bool) → (b || false) ≡ b
  or-false b = ground arith

  set_result-is_resolved :
      (r : Option (Package V)) (range : PackageVersionRange R) (p : Package V)
      → (is_resolved lib (record { r = r; range = range }) || (set_result lib r p).1)
        ≡ is_resolved lib (record { r = (set_result lib r p).0; range = range })
  unfolding set_result is_resolved
  set_result-is_resolved none range p = refl
  set_result-is_resolved (some old) range p =
      elim (Bool-cases (beats lib p.package_version old.package_version)) [
        | inl e ↦ rw (set_result-beats lib old p, e) refl
        | inr e ↦ rw (set_result-beats lib old p, e) refl
      ]

  -- The text of the row's version is read, and what is read has this text.
  abbrev pub IsReadable : (text : ℕ → Str) (number : Str → ℕ) → VersionRow → Type 0
  IsReadable text number row =
      (from_string lib (text row.version) ≡ ok (version_of row.version))
      × (number (to_text lib (version_of row.version)) ≡ row.version)

  module _ (text : ℕ → Str) (number : Str → ℕ) (path pid cid : ℕ) (db : Database) (v : IsValid db)
      (found : get_package_id path db ≡ pid) where
    abbrev Known : VersionRow → Type 0
    Known r = (r.package_id == pid) ≡ true → any (is_version pid r.version) db.versions ≡ true

    offer_row-offered :
        (row : VersionRow) (rr : ResolveRequest V R)
        → Known row
        → IsReadable text number row
        → offer_row lib text number path pid cid db row (is_resolved lib rr, rr)
          ≡ ok (offered rr (offers pid cid db.version_files rr.range (row ∷ [])))
    unfolding offer_row set_package read_version
    offer_row-offered row rr known (read, printed) =
        elim (Bool-cases (row.package_id == pid && has_config cid db.version_files row)) [
          | inr e ↦ rw (offer_row, e) refl
          | inl e ↦
              let (mine, _) = and-split (row.package_id == pid) _ e in
              let (d, has_data) =
                get_package_data-ok path row.version pid db v found (known mine) in
              let reads : read_version lib text number row.version ≡ ok (version_of row.version) =
                rw (read_version, read) refl in
              elim (Bool-cases (contains lib rr.range (version_of row.version))) [
                | inl c ↦
                    rw (offer_row, e, reads, printed, has_data, set_package, c)
                      (ap (λ b. ok (b, record rr { r = (set_result lib rr.r (package_of row)).0 }))
                        (set_result-is_resolved rr.r rr.range (package_of row)))
                | inr c ↦
                    rw (offer_row, e, reads, printed, has_data, set_package, c)
                      (ap (λ b. ok (b, rr)) (or-false (is_resolved lib rr)))
              ]
        ]

    resolve_rows-offered :
        (rows : List VersionRow) (rr : ResolveRequest V R)
        → All Known rows
        → All (IsReadable text number) rows
        → resolve_rows lib text number path pid cid db rows (is_resolved lib rr, rr)
          ≡ ok (offered rr (offers pid cid db.version_files rr.range rows))
    unfolding resolve_rows
    resolve_rows-offered [] rr h k = refl
    resolve_rows-offered (row ∷ rows) rr h k =
        let rr' = (offered rr (offers pid cid db.version_files rr.range (row ∷ []))).1 in
        let rest = resolve_rows-offered rows rr' h.1 k.1 in
        rw (offer_row-offered row rr h.0 k.0) (
          rest
          ∙ ap ok (
              offered_cons rr
                ((row.package_id == pid && has_config cid db.version_files row)
                  && contains lib rr.range (version_of row.version))
                (package_of row) (offers pid cid db.version_files rr.range rows)))

    -- On valid tables whose versions are read back, resolve of a request without a package throws nothing: it returns the request with the
    -- best of the versions of the package that have a file of the settings and are in the range, by the order of
    -- setPackage, and says whether there is one.
    pub resolve-offered :
        (settings_hash : ℕ) (config_row : HashRow) (rr : ResolveRequest V R)
        → 0 < pid
        → find_by (λ (r : HashRow). r.hash == settings_hash) db.configs ≡ some config_row
        → config_row.id ≡ cid
        → rr.r ≡ none
        → All (IsReadable text number) db.versions
        → resolve lib text number path settings_hash db rr
          ≡ ok (offered rr (offers pid cid db.version_files rr.range db.versions))
    unfolding resolve is_resolved
    resolve-offered settings_hash config_row rr pos e same empty readable =
        let none_zero : (pid == 0) ≡ false = ground arith in
        let start : is_resolved lib rr ≡ false = rw (is_resolved, empty) refl in
        let known : All Known db.versions =
          All-map _ _ (λ r h mine. h (is_version pid r.version) (ground arith)) db.versions
            (All-any db.versions) in
        rw (resolve, found, none_zero, e, same, found)
          (subst
            (λ b.
              resolve_rows lib text number path pid cid db db.versions (b, rr)
              ≡ ok (offered rr (offers pid cid db.version_files rr.range db.versions)))
            start (resolve_rows-offered db.versions rr known readable))
