-- ===== src/Builder/Storage/Recovery.antt =====
-- Loading a command log, whole or torn.
use software.Base.{
  ℕ, zero, suc, ◌+◌, ◌-◌, ◌<◌, ◌≡◌, refl, sym, ◌∙◌, true, ltb, List, [], ◌∷◌, ◌++◌, append_assoc,
  append-nil, length, All, some, ok, ◌>>=◌, block-ok, arith,
}
use software.Builder.Storage.{
  Record, Names, Paths, Tables, write_int, write_record, frame, write_log, load,
}
use software.Builder.Storage.Bytes.{limit, read_int-write_int}
use software.Builder.Storage.Log.{IsWritable, Commands, tables, read_back, load-frame, load-step}

abbrev pub read_all : Names → List Record → Commands → Commands
read_all known [] cmds = cmds
read_all known (r ∷ rs) cmds = read_all known rs (read_back known r cmds)

load-nil : (m : ℕ) (t : Tables) → 0 < m → load m [] t ≡ some (t, 0)
unfolding load
load-nil zero t h = absurd (omega arith)
load-nil (suc m) t h = refl

load-short :
    (m size : ℕ) (part : List ℕ) (t : Tables)
    → 0 < m
    → size < limit 8
    → ltb (length part) size ≡ true
    → load m (write_int size ++ part) t ≡ some (t, length (write_int size ++ part))
load-short zero size part t h fits short = absurd (omega arith)
load-short (suc m) size part t h fits short =
    load-step m size _ part t (read_int-write_int size part fits) ∙ rw short refl

module _ (ps : Paths) (written known : Names) where
  load-log :
      (rs : List Record) (bytes tail : List ℕ) (cmds : Commands) (f m : ℕ)
      → All (IsWritable ps written known) rs
      → write_log ps written rs ≡ ok bytes
      → length rs + f ≡ m
      → load m (bytes ++ tail) (tables known cmds)
        ≡ load f tail (tables known (read_all known rs cmds))
  unfolding write_log
  load-log [] bytes tail cmds f m k e l =
      let same : [] ≡ bytes = cc in let fuel : f ≡ m = omega arith in rw (sym same, sym fuel) refl
  load-log (r ∷ rs) bytes tail cmds f zero k e l = absurd (omega arith)
  load-log (r ∷ rs) bytes tail cmds f (suc m) k e l =
      let (v, first, e₁) =
        block-ok (write_record ps written r)
          (λ v. write_log ps written rs >>= λ rest. ok (frame v ++ rest)) e in
      let (rest, others, e₂) =
        block-ok (write_log ps written rs) (λ rest. ok (frame v ++ rest)) e₁ in
      let same : frame v ++ rest ≡ bytes = cc in
      rw (sym same, append_assoc (frame v) rest tail)
        (load-frame ps written known m r v (rest ++ tail) cmds k.0 first
          ∙ load-log rs rest tail (read_back known r cmds) f m k.1 others (omega arith))

  -- Loading what was written gives the records, each in the place of its command, with its inputs added
  -- to those that the command had, when their numbers fit and the files are known. The fuel is more
  -- than the number of records.
  pub load-write_log :
      (rs : List Record) (bytes : List ℕ) (cmds : Commands) (f : ℕ)
      → All (IsWritable ps written known) rs
      → write_log ps written rs ≡ ok bytes
      → length rs < f
      → load f bytes (tables known cmds) ≡ some (tables known (read_all known rs cmds), 0)
  load-write_log rs bytes cmds f k e l =
      let m = f - length rs in
      let fuel : length rs + m ≡ f = omega arith in
      let done : load m [] (tables known (read_all known rs cmds))
          ≡ some (tables known (read_all known rs cmds), 0) =
        load-nil m _ (omega arith) in
      rw (sym (append-nil bytes)) (load-log rs bytes [] cmds m f k e fuel ∙ done)

  -- A last record that is shorter than its size is not read, and taken off with its size; the records
  -- before it are.
  pub load-torn :
      (rs : List Record) (bytes part : List ℕ) (size : ℕ) (cmds : Commands) (f : ℕ)
      → All (IsWritable ps written known) rs
      → write_log ps written rs ≡ ok bytes
      → length rs < f
      → size < limit 8
      → length part < size
      → load f (bytes ++ (write_int size ++ part)) (tables known cmds)
        ≡ some (tables known (read_all known rs cmds), length (write_int size ++ part))
  load-torn rs bytes part size cmds f k e l fits torn =
      let m = f - length rs in
      let fuel : length rs + m ≡ f = omega arith in
      let short : ltb (length part) size ≡ true = ground arith in
      load-log rs bytes (write_int size ++ part) cmds m f k e fuel
      ∙ load-short m size part (tables known (read_all known rs cmds)) (omega arith) fits short
