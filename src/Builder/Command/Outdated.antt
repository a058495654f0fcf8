-- ===== src/Builder/Command/Outdated.antt =====
-- src/sw/builder/command.cpp: Command::isOutdated.
use software.Base.{
  ℕ, Bool, true, false, not, ◌==◌, if◌then◌else◌, List, [], ◌∷◌, Option, none, some, ok, err,
}
use software.Builder.Files.{is_changed}
use software.Builder.Storage.{Record, get_implicit_inputs}
use software.Builder.Command.{
  State, Outside, no_files, file_error, storage_error, M, ◌>>=◌, pure, get,
}
use software.Builder.Command.Hash.{get_hash}

abbrev pub write_record : (ℕ → Option Record) → ℕ → Record → (ℕ → Option Record)
write_record rs k r = λ i. if i == k then some r else rs i

abbrev pub new_record : Record
new_record = record { hash = 0; mtime = 0; implicit_inputs = [] }

-- The time and the files that are known of the command.
abbrev pub with_record : Record → List ℕ → State → State
with_record r known s = record s { cmd = record s.cmd { mtime = r.mtime; implicit_inputs = known } }

module _ (out : Outside) where
  -- check_if_file_newer
  unfoldable pub check_if_file_newer : ℕ → M Bool
  check_if_file_newer p s =
      if not s.cmd.has_files
      then (err no_files, s)
      else elim (is_changed out.paths.normalize s.disk s.cmd.mtime p s.files) [
        | err e ↦ (err (file_error e), s)
        | ok (why, fs) ↦ (ok (elim why [ none ↦ false | some r ↦ true ]), record s { files = fs })
      ]

  -- std::any_of
  unfoldable pub any_newer : List ℕ → M Bool
  unfolding check_if_file_newer
  any_newer [] = pure false
  any_newer (p ∷ ps) = do b ← check_if_file_newer p; (if b then pure true else any_newer ps)

  unfoldable pub is_time_changed : M Bool
  unfolding any_newer
  is_time_changed = do
    s ← get
    a ← any_newer s.cmd.inputs
    (if a then pure true else (do
      b ← any_newer s.cmd.outputs
      (if b then pure true else any_newer s.cmd.implicit_inputs)))

  -- Command::isOutdated
  unfoldable pub is_outdated : M Bool
  unfolding get_hash is_time_changed
  is_outdated s =
      if s.cmd.always
      then (ok true, s)
      else if not s.cmd.has_storage
      then (ok true, s)
      else elim (s.records (get_hash out s.cmd)) [
        | none ↦
            (ok true, record s { records = write_record s.records (get_hash out s.cmd) new_record })
        | some r ↦ elim (get_implicit_inputs s.names r) [
          | err e ↦ (err (storage_error e), record s { cmd = record s.cmd { mtime = r.mtime } })
          | ok files ↦ is_time_changed (with_record r files s)
        ]
      ]
