-- ===== src/Tests/Logging.antt =====
-- Two records of one command in a log, and one that is torn.
use software.Base.{
  ℕ, ◌≡◌, refl, sym, some-eq, List, [], ◌∷◌, ◌++◌, length, ok, some, none, arith, All,
}
use software.Builder.Storage.{
  Record, Names, Paths, write_log, write_record, write_inputs, write_int, to_bytes, frame, load,
  insert_command, get_implicit_inputs, set_implicit_inputs,
}
use software.Builder.Storage.Inputs.{IsNamed, normalized, get_implicit_inputs-set_implicit_inputs}
use software.Builder.Storage.Log.{IsWritable, IsKnown, tables, Commands}
use software.Builder.Storage.Recovery.{load-write_log, load-torn, read_all}

-- A path is its own hash.
abbrev plain : Paths
plain = record { path_hash = λ p. p; normalize = λ p. p }

abbrev names : Names
names h = some h

abbrev first : Record
first = record { hash = 7; mtime = 300; implicit_inputs = 4 ∷ [] }

abbrev second : Record
second = record { hash = 7; mtime = 301; implicit_inputs = 5 ∷ [] }

logging : Unit {0}
unfolding write_log write_record write_inputs write_int to_bytes frame
logging = tt

abbrev bytes : List ℕ
bytes =
    32 ∷ 0 ∷ 0 ∷ 0 ∷ 0 ∷ 0 ∷ 0 ∷ 0 ∷ 7 ∷ 0 ∷ 0 ∷ 0 ∷ 0 ∷ 0 ∷ 0 ∷ 0 ∷ 44 ∷ 1 ∷ 0 ∷ 0 ∷ 0 ∷ 0 ∷ 0 ∷ 0
    ∷ 1 ∷ 0 ∷ 0 ∷ 0 ∷ 0 ∷ 0 ∷ 0 ∷ 0 ∷ 4 ∷ 0 ∷ 0 ∷ 0 ∷ 0 ∷ 0 ∷ 0 ∷ 0 ∷ 32 ∷ 0 ∷ 0 ∷ 0 ∷ 0 ∷ 0 ∷ 0 ∷ 0
    ∷ 7 ∷ 0 ∷ 0 ∷ 0 ∷ 0 ∷ 0 ∷ 0 ∷ 0 ∷ 45 ∷ 1 ∷ 0 ∷ 0 ∷ 0 ∷ 0 ∷ 0 ∷ 0 ∷ 1 ∷ 0 ∷ 0 ∷ 0 ∷ 0 ∷ 0 ∷ 0 ∷ 0
    ∷ 5 ∷ 0 ∷ 0 ∷ 0 ∷ 0 ∷ 0 ∷ 0 ∷ 0 ∷ []

bytes-written : write_log plain names (first ∷ second ∷ []) ≡ ok bytes
unfolding logging
bytes-written = refl

four-IsKnown : IsKnown plain names names 4
four-IsKnown = record {
  path = 4;
  reader_path = 4;
  fits = omega arith;
  named = refl;
  hashed = refl;
  read_as = refl;
  not_empty = refl;
}

five-IsKnown : IsKnown plain names names 5
five-IsKnown = record {
  path = 5;
  reader_path = 5;
  fits = omega arith;
  named = refl;
  hashed = refl;
  read_as = refl;
  not_empty = refl;
}

both-IsWritable : All (IsWritable plain names names) (first ∷ second ∷ [])
both-IsWritable = (
  record {
    has_hash = refl;
    hash_fits = omega arith;
    mtime_fits = omega arith;
    size_fits = omega arith;
    inputs_known = (four-IsKnown, tt);
  },
  (
    record {
      has_hash = refl;
      hash_fits = omega arith;
      mtime_fits = omega arith;
      size_fits = omega arith;
      inputs_known = (five-IsKnown, tt);
    },
    tt,
  ),
)

abbrev nothing : Commands
nothing i = none

load-write_log_example :
    load 3 bytes (tables names nothing)
    ≡ some (tables names (read_all names (first ∷ second ∷ []) nothing), 0)
load-write_log_example =
    load-write_log plain names names (first ∷ second ∷ []) bytes nothing 3 both-IsWritable
      bytes-written (omega arith)

load-torn_example :
    load 3 (bytes ++ (write_int 32 ++ 7 ∷ 0 ∷ [])) (tables names nothing)
    ≡ some (
      tables names (read_all names (first ∷ second ∷ []) nothing),
      length (write_int 32 ++ 7 ∷ 0 ∷ []),
    )
load-torn_example =
    load-torn plain names names (first ∷ second ∷ []) bytes (7 ∷ 0 ∷ []) 32 nothing 3
      both-IsWritable bytes-written (omega arith) (omega arith) (omega arith)

-- The inputs of both records stay with the command.
inputs-kept :
    read_all names (first ∷ second ∷ []) nothing 7
    ≡ some (record { hash = 7; mtime = 301; implicit_inputs = 4 ∷ 5 ∷ [] })
unfolding insert_command
inputs-kept = refl

names-IsNamed : IsNamed plain names
unfolding IsNamed
names-IsNamed = λ h p e. sym (some-eq e)

get_implicit_inputs-set_implicit_inputs_example :
    get_implicit_inputs
      (set_implicit_inputs plain (4 ∷ 0 ∷ 5 ∷ 4 ∷ []) first names).1
      (set_implicit_inputs plain (4 ∷ 0 ∷ 5 ∷ 4 ∷ []) first names).0
    ≡ ok (normalized plain (4 ∷ 0 ∷ 5 ∷ 4 ∷ []) [])
get_implicit_inputs-set_implicit_inputs_example =
    get_implicit_inputs-set_implicit_inputs plain (4 ∷ 0 ∷ 5 ∷ 4 ∷ []) first names (λ f g m k e. e)
      (λ f q m e. sym (some-eq e)) names-IsNamed
