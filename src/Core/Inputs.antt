-- ===== src/Core/Inputs.antt =====
-- src/sw/core/input_database.cpp: InputDatabase::getFileHash. Paths, times, contents and hashes are numbers;
-- the table has one row for a path, and its column of paths is COLLATE NOCASE
-- (src/sw/core/inserts/input_db_schema.sql): `no_case` is what the comparison sees of a text. It, normalize_path
-- and std::hash<String> are parameters.
use software.Base.{
  ℕ, ◌≡◌, refl, sym, ap, ◌∙◌, ◌==◌, ==_iff, Bool-cases, Option-cases, if◌then◌else◌, Option, none,
  some, Result, ok, err, inl, inr, subst, some-eq,
}

pub record Row : Type 0 where
  pub hash : ℕ
  pub last_write_time : ℕ

pub record File : Type 0 where
  pub time : ℕ
  pub content : ℕ

abbrev pub Database : Type 0
Database = ℕ → Option Row

abbrev pub Disk : Type 0
Disk = ℕ → Option File

pub data Error : Type 0 where
  no_such_file : Error

abbrev pub write_row : Database → ℕ → Row → Database
write_row db np r = λ q. if q == np then some r else db q

module _ (no_case normalize hash_of : ℕ → ℕ) where
  -- The key of a path's row.
  abbrev row_key : ℕ → ℕ
  row_key p = no_case (normalize p)

  -- The row that is updated or inserted when the hash is taken anew.
  abbrev new_row : File → Row
  new_row f = record { hash = hash_of f.content; last_write_time = f.time }

  unfoldable pub get_file_hash : Disk → ℕ → Database → Result Error ℕ × Database
  get_file_hash disk p db = elim (disk p) [
    | none ↦ (err no_such_file, db)
    | some f ↦ elim (db (row_key p)) [
      | none ↦ (ok (hash_of f.content), write_row db (row_key p) (new_row f))
      | some r ↦
          if r.last_write_time == f.time
          then (ok r.hash, db)
          else (ok (hash_of f.content), write_row db (row_key p) (new_row f))
    ]
  ]

  -- A row with the time of its file has the file's hash.
  unfoldable pub IsCurrent : Disk → Database → Type 0
  IsCurrent disk db =
      (p : ℕ) (f : File) (r : Row)
      → disk p ≡ some f
      → db (row_key p) ≡ some r
      → r.last_write_time ≡ f.time
      → r.hash ≡ hash_of f.content

  IsCurrent-write_row :
      (disk : Disk) (p : ℕ) (f : File) (db : Database)
      → ((q : ℕ) → row_key q ≡ row_key p → disk q ≡ disk p)
      → disk p ≡ some f
      → IsCurrent disk db
      → IsCurrent disk (write_row db (row_key p) (new_row f))
  unfolding IsCurrent
  IsCurrent-write_row disk p f db same e c q g r h d t =
      elim (Bool-cases (row_key q == row_key p)) [
        | inl b ↦
            let n = (==_iff (row_key q) (row_key p)).0 b in
            let fg : f ≡ g = some-eq (sym e ∙ sym (same q n) ∙ h) in
            let row : new_row f ≡ r =
              some-eq (sym (ap (λ x. if x then some (new_row f) else db (row_key q)) b) ∙ d) in
            ap (λ (x : Row). x.hash) (sym row) ∙ ap (λ (x : File). hash_of x.content) fg
        | inr b ↦ c q g r h (sym (ap (λ x. if x then some (new_row f) else db (row_key q)) b) ∙ d) t
      ]

  -- The hash that getFileHash returns for a file is that of its contents, and the database stays current, when
  -- it was current and paths whose normal forms are equal but for case are one file.
  pub get_file_hash-IsCurrent :
      (disk : Disk) (p : ℕ) (f : File) (db : Database)
      → ((q : ℕ) → row_key q ≡ row_key p → disk q ≡ disk p)
      → disk p ≡ some f
      → IsCurrent disk db
      → ((get_file_hash disk p db).0 ≡ ok (hash_of f.content))
        × IsCurrent disk (get_file_hash disk p db).1
  unfolding get_file_hash IsCurrent
  get_file_hash-IsCurrent disk p f db same e c =
      let Good : Result Error ℕ × Database → Type 0 =
        λ x. (x.0 ≡ ok (hash_of f.content)) × IsCurrent disk x.1 in
      let fresh : Result Error ℕ × Database =
        (ok (hash_of f.content), write_row db (row_key p) (new_row f)) in
      let written : Good fresh = (refl, IsCurrent-write_row disk p f db same e c) in
      elim (Option-cases (db (row_key p))) [
        | inl d ↦
            let q : get_file_hash disk p db ≡ fresh = rw (e, d, get_file_hash) refl in
            subst Good (sym q) written
        | inr (r, d) ↦ elim (Bool-cases (r.last_write_time == f.time)) [
          | inl b ↦
              let q : get_file_hash disk p db ≡ (ok r.hash, db) =
                rw (e, d, b, get_file_hash) refl in
              subst Good (sym q)
                (ap (λ h. ok h) (c p f r e d ((==_iff r.last_write_time f.time).0 b)), c)
          | inr b ↦
              let q : get_file_hash disk p db ≡ fresh = rw (e, d, b, get_file_hash) refl in
              subst Good (sym q) written
        ]
      ]
