-- ===== src/Builder/Storage.antt =====
-- src/sw/builder/command_storage.h and .cpp: what is remembered of a command, the table of file names
-- by hash, and the bytes of the command log. A path is a number, 0 is the empty path; bytes are
-- numbers, and integers stand with the low byte first.
pub mod Bytes
pub mod Log
pub mod Recovery
pub mod Inputs
use software.Base.{
  ℕ, zero, suc, ◌+◌, ◌*◌, ◌/◌, ◌%◌, Bool, true, false, ◌==◌, ltb, if◌then◌else◌, List, [], ◌∷◌,
  ◌++◌, length, insert, Option, none, some, Result, ok, err, ◌>>=◌,
}

pub record Record : Type 0 where
  pub hash : ℕ
  pub mtime : ℕ
  -- hashes of files
  pub implicit_inputs : List ℕ

-- detail::Storage::file_storage_by_hash
abbrev pub Names : Type 0
Names = ℕ → Option ℕ

abbrev pub write_name : Names → ℕ → ℕ → Names
write_name names h p = λ i. if i == h then some p else names i

pub data Error : Type 0 where
  no_such_file : ℕ → Error

-- std::hash<path> and normalize_path
pub record Paths : Type 0 where
  pub path_hash : ℕ → ℕ
  pub normalize : ℕ → ℕ

-- CommandRecord::getImplicitInputs
unfoldable pub get_inputs : Names → List ℕ → (files : List ℕ) → Result Error (List ℕ)
get_inputs names [] files = ok files
get_inputs names (h ∷ hs) files = elim (names h) [
  | none ↦ err (no_such_file h)
  | some p ↦ get_inputs names hs (if p == 0 then files else insert p files)
]

unfoldable pub get_implicit_inputs : Names → Record → Result Error (List ℕ)
unfolding get_inputs
get_implicit_inputs names r = get_inputs names r.implicit_inputs []

-- The loop of CommandRecord::setImplicitInputs.
unfoldable pub set_inputs : Paths → List ℕ → (hashes : List ℕ) → Names → List ℕ × Names
set_inputs ps [] hashes names = (hashes, names)
set_inputs ps (f ∷ fs) hashes names =
    let str = ps.normalize f in
    let h = ps.path_hash str in
    set_inputs ps fs (insert h hashes)
      (elim (names h) [ none ↦ write_name names h str | some p ↦ names ])

unfoldable pub set_implicit_inputs : Paths → List ℕ → Record → Names → Record × Names
unfolding set_inputs
set_implicit_inputs ps files r names =
    let (hashes, names') = set_inputs ps files [] names in
    (record r { implicit_inputs = hashes }, names')

-- write_int: the bytes of a number
unfoldable pub to_bytes : (count : ℕ) → ℕ → List ℕ
to_bytes zero v = []
to_bytes (suc n) v = v % 256 ∷ to_bytes n (v / 256)

-- size_t and the time stamps
unfoldable pub write_int : ℕ → List ℕ
unfolding to_bytes
write_int v = to_bytes 8 v

unfoldable pub write_inputs : Paths → Names → List ℕ → Result Error (List ℕ)
unfolding write_int
write_inputs ps names [] = ok []
write_inputs ps names (h ∷ hs) = elim (names h) [
  | none ↦ err (no_such_file h)
  | some p ↦ (do
    rest ← write_inputs ps names hs
    ok (write_int (ps.path_hash (ps.normalize p)) ++ rest))
]

-- FileDb::write
unfoldable pub write_record : Paths → Names → Record → Result Error (List ℕ)
unfolding write_inputs write_int
write_record ps names f = if f.hash == 0 then ok [] else (do
  rest ← write_inputs ps names f.implicit_inputs
  ok (write_int f.hash ++ write_int f.mtime ++ write_int (length f.implicit_inputs) ++ rest))

-- The size and the bytes, as `save` and `async_command_log` put them into a file.
unfoldable pub frame : List ℕ → List ℕ
unfolding write_int
frame v = write_int (length v) ++ v

unfoldable pub write_log : Paths → Names → List Record → Result Error (List ℕ)
unfolding frame write_record
write_log ps names [] = ok []
write_log ps names (r ∷ rs) = do
  v ← write_record ps names r
  rest ← write_log ps names rs
  ok (frame v ++ rest)

-- BinaryStream::read of a number; `none` when the bytes end before it.
unfoldable pub of_bytes : (count : ℕ) → List ℕ → Option (ℕ × List ℕ)
of_bytes zero s = some (0, s)
of_bytes (suc n) [] = none
of_bytes (suc n) (b ∷ s) = elim (of_bytes n s) [ none ↦ none | some r ↦ some (b + 256 * r.0, r.1) ]

unfoldable pub read_int : List ℕ → Option (ℕ × List ℕ)
unfolding of_bytes
read_int s = of_bytes 8 s

-- `files2` and `commands` of `load`
pub record Tables : Type 0 where
  pub names : Names
  pub commands : ℕ → Option Record

abbrev pub write_command : Tables → ℕ → Record → Tables
write_command t h r = record t { commands = λ i. if i == h then some r else t.commands i }

-- The loop over the inputs of a record; `files2[h]` makes an empty path for an unknown hash.
unfoldable pub read_inputs :
    (n : ℕ) → List ℕ → Names → (hashes : List ℕ) → Option (List ℕ × Names × List ℕ)
unfolding read_int
read_inputs zero s names hashes = some (hashes, names, s)
read_inputs (suc n) s names hashes = elim (read_int s) [
  | none ↦ none
  | some (h, s') ↦ elim (names h) [
    | none ↦ read_inputs n s' (write_name names h 0) hashes
    | some p ↦ read_inputs n s' names (if p == 0 then hashes else insert h hashes)
  ]
]

-- `commands.insert(h)`
unfoldable pub insert_command : ℕ → Tables → Record
insert_command h t = elim (t.commands h) [
  | none ↦ record { hash = 0; mtime = 0; implicit_inputs = [] }
  | some r ↦ r
]

-- One record of the file.
unfoldable pub read_record : List ℕ → Tables → Option (Tables × List ℕ)
unfolding read_int read_inputs insert_command
read_record s t = elim (read_int s) [
  | none ↦ none
  | some (h, s₁) ↦ elim (read_int s₁) [
    | none ↦ none
    | some (time, s₂) ↦ elim (read_int s₂) [
      | none ↦ none
      | some (n, s₃) ↦ elim (read_inputs n s₃ t.names (insert_command h t).implicit_inputs) [
        | none ↦ none
        | some (hashes, names, rest) ↦ some (
          write_command (record t { names = names }) h
              (record { hash = h; mtime = time; implicit_inputs = hashes }),
          rest,
        )
      ]
    ]
  ]
]

-- The commands' part of `load`, on fuel: the tables, and how many bytes `resize_file` takes off.
-- `none` when the fuel or the bytes of a record run out; the stream is a library's, and what it does
-- at its end is not modelled.
unfoldable pub load : ℕ → List ℕ → Tables → Option (Tables × ℕ)
unfolding read_int read_record
load zero s t = none
load (suc f) [] t = some (t, 0)
load (suc f) (b ∷ bs) t = elim (read_int (b ∷ bs)) [
  | none ↦ none
  | some (size, s) ↦
      if ltb (length s) size
      then some (t, length (b ∷ bs))
      else if size == 0
      then load f s t
      else elim (read_record s t) [ none ↦ none | some (t', rest) ↦ load f rest t' ]
]
