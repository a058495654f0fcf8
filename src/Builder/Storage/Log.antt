-- ===== src/Builder/Storage/Log.antt =====
-- What is written to the command log is loaded again, and a torn record at its end is taken off.
use software.Base.{
  ℕ, suc, ◌+◌, ◌*◌, ◌<◌, ◌≡◌, ◌≢◌, refl, sym, ap, ◌∙◌, false, ◌==◌, ltb, if◌then◌else◌, List, [],
  ◌∷◌, ◌++◌, append_assoc, length, length-append, insert, All, Option, none, some, ok, block-ok,
  arith,
}
use software.Builder.Storage.{
  Record, Names, Paths, Tables, insert_command, write_int, write_inputs, write_record, frame,
  read_int, read_inputs, read_record, load,
}
use software.Builder.Storage.Bytes.{limit, read_int-write_int, length-write_int}

-- The inputs of a record are added to those that are there.
abbrev pub insert_all : List ℕ → List ℕ → List ℕ
insert_all [] hashes = hashes
insert_all (h ∷ hs) hashes = insert_all hs (insert h hashes)

length-three :
    (a b c : ℕ) (w : List ℕ)
    → length (write_int a ++ write_int b ++ write_int c ++ w) ≡ 24 + length w
length-three a b c w = omega (
  arith,
  length-append (write_int a ++ write_int b ++ write_int c) w,
  length-append (write_int a ++ write_int b) (write_int c),
  length-append (write_int a) (write_int b),
  length-write_int a,
  length-write_int b,
  length-write_int c,
)

abbrev pub Commands : Type 0
Commands = ℕ → Option Record

abbrev pub tables : Names → Commands → Tables
tables known cmds = record { names = known; commands = cmds }

abbrev pub old_inputs : Names → Record → Commands → List ℕ
old_inputs known r cmds = (insert_command r.hash (tables known cmds)).implicit_inputs

-- Reading a record puts it into the table, with the inputs added to those of the same command.
abbrev pub read_back : Names → Record → Commands → Commands
read_back known r cmds = λ i.
    if i == r.hash
    then some
        (record r { implicit_inputs = insert_all r.implicit_inputs (old_inputs known r cmds) })
    else cmds i

read_int_nil : {r : ℕ × List ℕ} → read_int [] ≢ some r
unfolding read_int
read_int_nil h = absurd (cc)

pub load-step :
    (f size : ℕ) (s s' : List ℕ) (t : Tables)
    → read_int s ≡ some (size, s')
    → load (suc f) s t ≡ (
        if ltb (length s') size
        then some (t, length s)
        else if size == 0
        then load f s' t
        else elim (read_record s' t) [ none ↦ none | some r ↦ load f r.1 r.0 ])
unfolding load
load-step f size [] s' t e = absurd (read_int_nil e)
load-step f size (b ∷ bs) s' t e = rw (e, load) refl

module _ (ps : Paths) (written known : Names) where
  -- A hash that is written as itself and known to the reader.
  pub record IsKnown (h : ℕ) : Type 0 where
    pub path : ℕ
    pub reader_path : ℕ
    pub fits : h < limit 8
    pub named : written h ≡ some path
    pub hashed : ps.path_hash (ps.normalize path) ≡ h
    pub read_as : known h ≡ some reader_path
    pub not_empty : (reader_path == 0) ≡ false

  write_inputs-cons :
      (h : ℕ) (hs v : List ℕ)
      → IsKnown h
      → write_inputs ps written (h ∷ hs) ≡ ok v
      → (w : List ℕ) × (write_inputs ps written hs ≡ ok w) × (write_int h ++ w ≡ v)
  unfolding write_inputs
  write_inputs-cons h hs v k e =
      let (w, tail, whole) =
        block-ok (write_inputs ps written hs)
          (λ rest. ok (write_int (ps.path_hash (ps.normalize k.path)) ++ rest))
          (rw (k.named, write_inputs) at e) in
      let same : write_int (ps.path_hash (ps.normalize k.path)) ++ w ≡ v = cc in
      (w, tail, ap (λ n. write_int n ++ w) (sym k.hashed) ∙ same)

  read_inputs-step :
      (h n : ℕ) (s s' hashes : List ℕ)
      → IsKnown h
      → read_int s ≡ some (h, s')
      → read_inputs (suc n) s known hashes ≡ read_inputs n s' known (insert h hashes)
  unfolding read_inputs
  read_inputs-step h n s s' hashes k e = rw (e, k.read_as, k.not_empty, read_inputs) refl

  read_inputs-cons :
      (h n : ℕ) (s hashes : List ℕ)
      → IsKnown h
      → read_inputs (suc n) (write_int h ++ s) known hashes
        ≡ read_inputs n s known (insert h hashes)
  read_inputs-cons h n s hashes k =
      read_inputs-step h n (write_int h ++ s) s hashes k (read_int-write_int h s k.fits)

  read_inputs-nil : (s hashes : List ℕ) → read_inputs 0 s known hashes ≡ some (hashes, known, s)
  unfolding read_inputs
  read_inputs-nil s hashes = refl

  read_inputs-write_inputs :
      (hs v rest hashes : List ℕ)
      → All IsKnown hs
      → write_inputs ps written hs ≡ ok v
      → (read_inputs (length hs) (v ++ rest) known hashes
          ≡ some (insert_all hs hashes, known, rest))
        × (length v ≡ 8 * length hs)
  unfolding write_inputs
  read_inputs-write_inputs [] v rest hashes k e =
      let same : [] ≡ v = cc in rw (sym same) (read_inputs-nil rest hashes, refl)
  read_inputs-write_inputs (h ∷ hs) v rest hashes k e =
      let (w, tail, whole) = write_inputs-cons h hs v k.0 e in
      let (read, size) = read_inputs-write_inputs hs w rest (insert h hashes) k.1 tail in
      rw
        (
          sym whole,
          append_assoc (write_int h) w rest,
          length-append (write_int h) w,
          length-write_int h,
        )
        (read_inputs-cons h (length hs) (w ++ rest) hashes k.0 ∙ read, omega arith)

  -- A record that can be written and read.
  pub record IsWritable (r : Record) : Type 0 where
    pub has_hash : (r.hash == 0) ≡ false
    pub hash_fits : r.hash < limit 8
    pub mtime_fits : r.mtime < limit 8
    pub size_fits : 24 + 8 * length r.implicit_inputs < limit 8
    pub inputs_known : All IsKnown r.implicit_inputs

  -- The four reads of a record.
  read_record-step :
      (s s₁ s₂ s₃ rest : List ℕ) (cmds : Commands) (r : Record)
      → read_int s ≡ some (r.hash, s₁)
      → read_int s₁ ≡ some (r.mtime, s₂)
      → read_int s₂ ≡ some (length r.implicit_inputs, s₃)
      → read_inputs (length r.implicit_inputs) s₃ known (old_inputs known r cmds)
        ≡ some (insert_all r.implicit_inputs (old_inputs known r cmds), known, rest)
      → read_record s (tables known cmds) ≡ some (tables known (read_back known r cmds), rest)
  unfolding read_record
  read_record-step s s₁ s₂ s₃ rest cmds r a b c d = rw (a, b, c, d, read_record) refl

  write_record-parts :
      (r : Record) (v : List ℕ)
      → IsWritable r
      → write_record ps written r ≡ ok v
      → (w : List ℕ) × (write_inputs ps written r.implicit_inputs ≡ ok w)
        × (write_int r.hash ++ write_int r.mtime ++ write_int (length r.implicit_inputs) ++ w ≡ v)
  unfolding write_record
  write_record-parts r v k e =
      let (w, tail, whole) =
        block-ok (write_inputs ps written r.implicit_inputs)
          (λ rest.
            ok (
              write_int r.hash
              ++ write_int r.mtime
              ++ write_int (length r.implicit_inputs)
              ++ rest))
          (rw (k.has_hash, write_record) at e) in
      (w, tail, cc)

  read_record-write_record :
      (r : Record) (v rest : List ℕ) (cmds : Commands)
      → IsWritable r
      → write_record ps written r ≡ ok v
      → (read_record (v ++ rest) (tables known cmds)
          ≡ some (tables known (read_back known r cmds), rest))
        × (length v ≡ 24 + 8 * length r.implicit_inputs)
  read_record-write_record r v rest cmds k e =
      let (w, tail, whole) = write_record-parts r v k e in
      let n = length r.implicit_inputs in
      let (read, size) =
        read_inputs-write_inputs r.implicit_inputs w rest (old_inputs known r cmds) k.inputs_known
          tail in
      let split : v ++ rest
          ≡ write_int r.hash ++ (write_int r.mtime ++ (write_int n ++ (w ++ rest))) =
        rw (sym whole) (simp append_assoc) in
      let n_fits : n < limit 8 = omega (arith, k.size_fits) in
      (
        rw split (
            read_record-step _ _ _ _ rest cmds r (read_int-write_int r.hash _ k.hash_fits)
              (read_int-write_int r.mtime _ k.mtime_fits) (read_int-write_int n _ n_fits) read),
        ap length (sym whole) ∙ omega (arith, length-three (r.hash) (r.mtime) n w),
      )

  -- A whole record at the head of the file.
  pub load-frame :
      (f : ℕ) (r : Record) (v rest : List ℕ) (cmds : Commands)
      → IsWritable r
      → write_record ps written r ≡ ok v
      → load (suc f) (frame v ++ rest) (tables known cmds)
        ≡ load f rest (tables known (read_back known r cmds))
  unfolding frame
  load-frame f r v rest cmds k e =
      let (read, size) = read_record-write_record r v rest cmds k e in
      let fits : length v < limit 8 = rw size k.size_fits in
      let split : write_int (length v) ++ v ++ rest ≡ write_int (length v) ++ (v ++ rest) =
        append_assoc (write_int (length v)) v rest in
      let whole : ltb (length (v ++ rest)) (length v) ≡ false =
        ground (arith, length-append v rest) in
      let some_size : (length v == 0) ≡ false = ground (arith, size) in
      rw split (
        load-step f (length v) _ (v ++ rest) (tables known cmds)
          (read_int-write_int (length v) _ fits)
        ∙ rw (whole, some_size, read) refl)
