-- ===== src/Builder/Command.antt =====
-- src/sw/builder/command.h and command.cpp: when a builder command is out of date, and how it is
-- executed. Chains of commands (prev, next) are not modelled. Texts and paths are numbers, 0 is the
-- empty one; running the program and reading dependencies from its output are parameters.
pub mod Hash
pub mod Response
pub mod Pool
pub mod Release
pub mod Outdated
pub mod UpToDate
pub mod Execute
use software.Base.{
  ℕ, zero, suc, ◌+◌, ◌-◌, Bool, true, false, not, ◌&&◌, ◌||◌, ◌==◌, ltb, if◌then◌else◌, List, [],
  ◌∷◌, ◌++◌, length, insert, map, sort, Option, none, some, Result, ok, err,
}
use software.Builder.File.{RefreshType, unrefreshed}
use software.Builder.Files.{
  Disk, Entry, Files, refresh, register, open_file, reset, is_changed, write_entry,
  Error as FileError,
}
use software.Builder.Storage.{
  Record, Names, Paths, get_implicit_inputs, set_implicit_inputs, Error as StorageError,
}

pub data DepsProcessor : Type 0 where
  undefined gnu msvc custom : DepsProcessor

pub record Argument : Type 0 where
  pub text : ℕ
  pub position : ℕ

pub record Command : Type 0 where
  pub arguments : List Argument
  pub working_directory : ℕ
  pub environment : List (ℕ × ℕ)
  pub in_file : ℕ
  pub out_file : ℕ
  pub err_file : ℕ
  pub inputs : List ℕ
  pub outputs : List ℕ
  pub implicit_inputs : List ℕ
  pub mtime : ℕ
  pub hash : ℕ
  pub remove_outputs_before_execution : Bool
  pub always : Bool
  pub deps_processor : DepsProcessor
  -- whether `fs` and `command_storage` are set
  pub has_files : Bool
  pub has_storage : Bool
  pub prepared : Bool
  -- executed_, and whether the program has a process (pid != -1)
  pub executed : Bool
  pub has_process : Bool

-- The command and what it shares with others: the disk, FileStorage, CommandStorage with the records
-- given to its log, and the free places of a limited pool (`none` is no pool, or an unlimited one).
pub record State : Type 0 where
  pub cmd : Command
  pub disk : Disk
  -- paths that exist and are not regular files
  pub special : ℕ → Bool
  pub files : Files
  pub records : ℕ → Option Record
  pub names : Names
  pub log : List Record
  pub pool : Option ℕ
  pub current_command : ℕ
  -- how often the program was run
  pub launches : ℕ

-- The code outside of src/: hash_combine and std::hash, the program, and the dependencies in its output.
pub record Outside : Type 0 where
  pub combine : ℕ → ℕ → ℕ
  pub paths : Paths
  pub text_hash : ℕ → ℕ
  pub is_absolute : ℕ → Bool
  pub resolve_executable : ℕ → ℕ
  -- whether the program failed
  pub run : Command → Disk → Bool × Disk
  pub read_deps : Command → Disk → List ℕ

-- `waits_for_pool` is not thrown: the thread stands in `pool->lock()`.
pub data Error : Type 0 where
  no_files storage_not_selected executed_twice not_resolved command_failed waits_for_pool : Error
  empty_path : Error
  output_not_created : ℕ → Error
  file_error : FileError → Error
  storage_error : StorageError → Error

abbrev pub M {ℓ} : Type ℓ → Type ℓ
M A = State → Result Error A × State

abbrev pub bind {ℓ κ} :
    {A : Type ℓ} {B : Type κ} → Result Error A × State → (A → M B) → Result Error B × State
bind (ok a, s) f = f a s
bind (err e, s) f = (err e, s)

infixl 5 ◌>>=◌ ◌>>◌
abbrev pub ◌>>=◌ {ℓ κ} : {A : Type ℓ} {B : Type κ} → M A → (A → M B) → M B
◌>>=◌ m f s = bind (m s) f

abbrev pub ◌>>◌ {ℓ} : {B : Type ℓ} → M (Unit {0}) → M B → M B
m >> k = m >>= λ u. k

abbrev pub pure {ℓ} : {A : Type ℓ} → A → M A
pure a s = (ok a, s)

abbrev pub throw {ℓ} : {A : Type ℓ} → Error → M A
throw e s = (err e, s)

abbrev pub get : M State
get s = (ok s, s)

abbrev pub modify : (State → State) → M (Unit {0})
modify f s = (ok tt, f s)

abbrev pub modify_command : (Command → Command) → M (Unit {0})
modify_command f s = (ok tt, record s { cmd = f s.cmd })
