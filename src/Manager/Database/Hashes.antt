-- ===== src/Manager/Database/Hashes.antt =====
-- The rows of the tables of hashes, which PackagesDatabase::installPackage finds or inserts.
use software.Base.{
  ℕ, ◌≡◌, refl, sym, subst, ◌∙◌, true, ◌==◌, ==_iff, List, [], ◌∷◌, ◌++◌, map, mem, append-nil,
  distinct, find_by, find_by-found, find_by-append_none, find_by-append_some, none, some,
  Option-cases, inl, inr, arith,
}
use software.Manager.Database.{HashRow, hash_id, add_hash}
use software.Manager.Database.Rows.{mem-map_last, distinct-map_snoc, find_by-id, All-known}
use software.Manager.Database.Install.{IsNewId}

-- The hash has its row, and the rows that were there are still there, before it.
pub record HashAdded (h id : ℕ) (old rows : List HashRow) : Type 0 where
  pub more : List HashRow
  pub extends : rows ≡ old ++ more
  pub row : HashRow
  pub row_found : find_by (λ (r : HashRow). r.hash == h) rows ≡ some row
  pub row_id : row.id ≡ id
  pub known : mem id (map hash_id rows) ≡ true
  pub kept_distinct : distinct (map hash_id old) ≡ true → distinct (map hash_id rows) ≡ true

module _ (new_id : List ℕ → ℕ) (new : IsNewId new_id) where
  add_hash_new :
      (h : ℕ) (rows : List HashRow)
      → find_by (λ (r : HashRow). r.hash == h) rows ≡ none
      → HashAdded h (add_hash new_id h rows).0 rows (add_hash new_id h rows).1
  unfolding add_hash
  add_hash_new h rows e =
      rw (e, add_hash)
        (let i = new_id (map hash_id rows) in
          let row : HashRow = record { id = i; hash = h } in
          let here : find_by (λ (r : HashRow). r.hash == h) (row ∷ []) ≡ some row = ground arith in
          record {
            more = row ∷ [];
            extends = refl;
            row = row;
            row_found = find_by-append_none _ rows (row ∷ []) e ∙ here;
            row_id = refl;
            known = mem-map_last hash_id rows row;
            kept_distinct = distinct-map_snoc hash_id rows row (new.fresh (map hash_id rows));
          })

  add_hash_old :
      (h : ℕ) (rows : List HashRow) (r : HashRow)
      → find_by (λ (r : HashRow). r.hash == h) rows ≡ some r
      → HashAdded h (add_hash new_id h rows).0 rows (add_hash new_id h rows).1
  unfolding add_hash
  add_hash_old h rows r e =
      rw (e, add_hash)
        (record {
          more = [];
          extends = sym (append-nil rows);
          row = r;
          row_found = e;
          row_id = refl;
          known = (find_by-found _ _ rows r (All-known hash_id rows) e).0;
          kept_distinct = λ d. d;
        })

  pub add_hash-added :
      (h : ℕ) (rows : List HashRow)
      → HashAdded h (add_hash new_id h rows).0 rows (add_hash new_id h rows).1
  add_hash-added h rows = elim (Option-cases (find_by (λ (r : HashRow). r.hash == h) rows)) [
    | inl e ↦ add_hash_new h rows e
    | inr (r, e) ↦ add_hash_old h rows r e
  ]

-- A row is also found by its id, with its hash.
pub added-row_by_id :
    {h id : ℕ} {old rows : List HashRow} (a : HashAdded h id old rows)
    → distinct (map hash_id old) ≡ true
    → (find_by (λ (r : HashRow). r.id == id) rows ≡ some a.row) × (a.row.hash ≡ h)
added-row_by_id {h = h} {rows = rows} a d =
    let found = find_by-id hash_id _ rows a.row (a.kept_distinct d) a.row_found in
    let (_, same) = find_by-found _ _ rows a.row (All-known hash_id rows) a.row_found in
    (
      subst (λ i. find_by (λ (r : HashRow). r.id == i) rows ≡ some a.row) a.row_id found,
      (==_iff a.row.hash h).0 same,
    )

-- What was found is still found.
pub added-kept :
    {h id : ℕ} {old rows : List HashRow} (a : HashAdded h id old rows) (h' : ℕ) (r : HashRow)
    → find_by (λ (r : HashRow). r.hash == h') old ≡ some r
    → find_by (λ (r : HashRow). r.hash == h') rows ≡ some r
added-kept {old = old} a h' r e =
    subst (λ rows. find_by (λ (r : HashRow). r.hash == h') rows ≡ some r) (sym a.extends)
      (find_by-append_some _ old a.more r e)
