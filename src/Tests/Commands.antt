-- ===== src/Tests/Commands.antt =====
-- One command that makes file 20 from file 10, up to date or not.
use software.Base.{
  ◌+◌, ◌*◌, ◌≡◌, refl, ap, true, false, [], ◌∷◌, ◌==◌, if◌then◌else◌, none, some, ok,
}
use software.Builder.Files.{Disk, Files, is_changed, open_file, register, refresh, reason}
use software.Builder.File.{look}
use software.Builder.Storage.{Record, get_implicit_inputs, get_inputs}
use software.Builder.Command.{Command, State, Outside, undefined}
use software.Builder.Command.Hash.{get_hash}
use software.Builder.Command.Outdated.{
  is_outdated, is_time_changed, any_newer, check_if_file_newer, with_record,
}
use software.Builder.Command.UpToDate.{is_outdated-some_newer, with_files, IsCurrent}
use software.Builder.Command.Execute.{
  execute_0, guarded, before_command, check_storage, prepare, mark_executed, lock, unlock,
}
use software.Builder.Command.Release.{Release, execute_0-Release}

abbrev out : Outside
out = record {
  combine = λ a b. 31 * a + b;
  paths = record { path_hash = λ p. p; normalize = λ p. p };
  text_hash = λ t. t;
  is_absolute = λ p. true;
  resolve_executable = λ p. p;
  run = λ c d. (false, d);
  read_deps = λ c d. [];
}

abbrev command : Command
command = record {
  arguments = [];
  working_directory = 0;
  environment = [];
  in_file = 0;
  out_file = 0;
  err_file = 0;
  inputs = 10 ∷ [];
  outputs = 20 ∷ [];
  implicit_inputs = [];
  mtime = 0;
  hash = 7;
  remove_outputs_before_execution = false;
  always = false;
  deps_processor = undefined;
  has_files = true;
  has_storage = true;
  prepared = true;
  executed = false;
  has_process = false;
}

-- File 20 was made at time 6 from file 10 of time 5, and header 30 of time 4.
abbrev disk : Disk
disk p = if p == 10 then some 5 else if p == 20 then some 6 else if p == 30 then some 4 else none

abbrev made : Record
made = record { hash = 7; mtime = 6; implicit_inputs = 30 ∷ [] }

abbrev state : State
state = record {
  cmd = command;
  disk = disk;
  special = λ p. false;
  files = λ p. none;
  records = λ k. if k == 7 then some made else none;
  names = λ h. some h;
  log = [];
  pool = some 1;
  current_command = 1;
  launches = 0;
}

commands : Unit {0}
unfolding get_hash is_outdated is_time_changed any_newer check_if_file_newer is_changed open_file
    register refresh reason look get_implicit_inputs get_inputs
commands = tt

is_outdated-some_newer_example :
    (fs : Files) × (is_outdated out state
      ≡ (ok false, with_files fs (with_record made (30 ∷ []) state)))
    × IsCurrent out.paths.normalize disk fs
unfolding commands
is_outdated-some_newer_example =
    is_outdated-some_newer out state made (30 ∷ []) refl refl refl refl refl (refl, tt) (refl, tt)
      (refl, tt) (λ p q e. ap disk e) (λ p e h. absurd (cc))

execute_0-Release_example : Release state (execute_0 out false state)
execute_0-Release_example = execute_0-Release out false state refl

-- The pool had one place, and has two when the command that was up to date is done.
pool-grows : (execute_0 out false state).1.pool ≡ some 2
unfolding commands execute_0 guarded before_command check_storage prepare mark_executed lock unlock
pool-grows = refl
