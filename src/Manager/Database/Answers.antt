-- ===== src/Manager/Database/Answers.antt =====
-- PackagesDatabase::resolve after PackagesDatabase::installPackage.
use software.Base.{
  ℕ, ◌≡◌, refl, sym, ap, subst, ◌∙◌, Bool, true, false, ◌&&◌, ◌==◌, ==_iff, if◌then◌else◌,
  Bool-cases, and-split, some-eq, List, [], ◌∷◌, All, find_by, find_by-found, Option, none, some,
  ok, inl, inr,
}
use software.Support.Path.{Str}
use software.Support.Version.{VersionLib, PackageVersion, PackageVersionRange, contains}
use software.Support.Version.Order.{IsOrderedLib}
use software.Support.Resolver.{Package, ResolveRequest, is_resolved}
use software.Support.Resolver.Best.{beats, offer_all, offer_all-best, Among, NotBetter}
use software.Manager.Database.{
  Database, VersionRow, VersionFile, LocalPackage, is_version, row_id, resolve,
}
use software.Manager.Database.Rows.{All-known}
use software.Manager.Database.Added.{Installed}
use software.Manager.Database.Resolve.{package_of, has_config, offers, IsReadable, resolve-offered}

module _ {V R : Type 0} (lib : VersionLib V R) (version_of : ℕ → PackageVersion V) where
  Among-if :
      (b : Bool) (x p : Package V) (ps : List (Package V))
      → Among lib x ps
      → Among lib x (if b then p ∷ ps else ps)
  Among-if true x p ps h = inr h
  Among-if false x p ps h = h

  All-Among :
      (P : Package V → Type 0) (x : Package V) (ps : List (Package V))
      → All P ps
      → Among lib x ps
      → P x
  All-Among P x [] h a = absurd a
  All-Among P x (p ∷ ps) h (inl e) = subst P e h.0
  All-Among P x (p ∷ ps) h (inr a) = All-Among P x ps h.1 a

  All_if :
      (P : Package V → Type 0) (b c : Bool) (p : Package V) (ps : List (Package V))
      → (c ≡ true → P p)
      → All P ps
      → All P (if b && c then p ∷ ps else ps)
  All_if P true true p ps h k = (h refl, k)
  All_if P true false p ps h k = k
  All_if P false c p ps h k = k

  offers-in_range :
      (pid cid : ℕ) (files : List VersionFile) (range : PackageVersionRange R)
      (rows : List VersionRow)
      → All
          (λ (p : Package V). contains lib range p.package_version ≡ true)
          (offers lib version_of pid cid files range rows)
  offers-in_range pid cid files range [] = tt
  offers-in_range pid cid files range (x ∷ rows) =
      let rest = offers-in_range pid cid files range rows in
      let b = x.package_id == pid && has_config lib version_of cid files x in
      All_if (λ p. contains lib range p.package_version ≡ true) b
        (contains lib range (version_of x.version)) (package_of lib version_of x)
        (offers lib version_of pid cid files range rows) (λ e. e) rest

  -- A version that the tables have for the request is among the offers.
  Among-offers :
      (pid cid version : ℕ) (files : List VersionFile) (range : PackageVersionRange R)
      (rows : List VersionRow) (row : VersionRow)
      → find_by (is_version pid version) rows ≡ some row
      → has_config lib version_of cid files row ≡ true
      → contains lib range (version_of version) ≡ true
      → Among lib (package_of lib version_of row) (offers lib version_of pid cid files range rows)
  Among-offers pid cid version files range [] row e c r = cc
  Among-offers pid cid version files range (x ∷ rows) row e c r =
      elim (Bool-cases (is_version pid version x)) [
        | inl q ↦
            let same : x ≡ row =
              some-eq (
                sym (ap (λ b. if b then some x else find_by (is_version pid version) rows) q)
                ∙ e) in
            let (mine, this) = and-split (x.package_id == pid) (x.version == version) q in
            let configured : has_config lib version_of cid files x ≡ true =
              ap (has_config lib version_of cid files) same ∙ c in
            let inside : contains lib range (version_of x.version) ≡ true =
              ap (λ n. contains lib range (version_of n)) ((==_iff x.version version).0 this) ∙ r in
            rw (mine, configured, inside) (inl (ap (package_of lib version_of) same))
        | inr q ↦
            let rest =
              Among-offers pid cid version files range rows row
                (sym (ap (λ b. if b then some x else find_by (is_version pid version) rows) q) ∙ e)
                c r in
            Among-if _ (package_of lib version_of row) (package_of lib version_of x)
              (offers lib version_of pid cid files range rows) rest
      ]

  -- After any offers of which one is x, an empty request holds one of them, which x does not beat.
  best-of :
      (laws : IsOrderedLib lib) (x : Package V) (ps : List (Package V))
      → Among lib x ps
      → (b : Package V) × (offer_all lib none ps ≡ some b) × Among lib b ps × NotBetter lib b x
  best-of laws x [] a = absurd a
  best-of laws x (p ∷ ps) a =
      let (b, found, from, rest) = offer_all-best lib laws p ps in
      (b, found, from, All-Among (NotBetter lib b) x (p ∷ ps) rest a)

  abbrev answered : ResolveRequest V R → Option (Package V) → Bool × ResolveRequest V R
  answered rr o = let rr' : ResolveRequest V R = record rr { r = o } in (is_resolved lib rr', rr')

  -- While a package is in the tables with a file of the settings, and the versions of the tables are read from
  -- their texts and printed as them, resolve of a request without a package for its path and these settings, whose
  -- range has its version, throws nothing and finds a version that is in the range and not worse: neither a
  -- release against another version, nor a version against a branch, nor a higher version of the same kind is
  -- passed over for it.
  pub resolve-finds-Installed :
      (text : ℕ → Str) (number : Str → ℕ) (laws : IsOrderedLib lib) (p : LocalPackage) (config : ℕ)
      (db : Database) (rr : ResolveRequest V R)
      → Installed p config db
      → All (IsReadable lib version_of text number) db.versions
      → rr.r ≡ none
      → contains lib rr.range (version_of p.version) ≡ true
      → (b : Package V) × (resolve lib text number p.path config db rr
          ≡ ok (true, record rr { r = some b }))
        × (contains lib rr.range b.package_version ≡ true)
        × (beats lib (version_of p.version) b.package_version ≡ false)
  unfolding is_resolved
  resolve-finds-Installed text number laws p config db rr i readable empty inside =
      let pid = i.package_id in
      let cid = i.config_row.id in
      let ps = offers lib version_of pid cid db.version_files rr.range db.versions in
      let among =
        Among-offers pid cid p.version db.version_files rr.range db.versions i.row i.row_found
          i.has_config inside in
      let (_, is) =
        find_by-found _ _ db.versions i.row (All-known row_id db.versions) i.row_found in
      let (_, this) = and-split (i.row.package_id == pid) (i.row.version == p.version) is in
      let (b, held, from, top) = best-of laws (package_of lib version_of i.row) ps among in
      let answer =
        resolve-offered lib version_of text number p.path pid cid db i.valid i.found config
          i.config_row rr i.positive i.config_found refl empty readable in
      (
        b,
        answer ∙ ap (λ o. ok (answered rr o)) (ap (λ z. offer_all lib z ps) empty ∙ held),
        All-Among (λ (q : Package V). contains lib rr.range q.package_version ≡ true) b ps
            (offers-in_range pid cid db.version_files rr.range db.versions) from,
        ap (λ n. beats lib (version_of n) b.package_version)
              (sym ((==_iff i.row.version p.version).0 this))
            ∙ top,
      )
