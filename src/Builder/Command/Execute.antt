-- ===== src/Builder/Command/Execute.antt =====
-- src/sw/builder/command.cpp: Command::execute and what it calls.
use software.Base.{
  ℕ, suc, ◌-◌, Bool, true, false, not, ◌&&◌, ◌||◌, ◌==◌, ltb, if◌then◌else◌, List, [], ◌∷◌, ◌++◌,
  insert, mem, sort, none, some, ok, err,
}
use software.Builder.Files.{Disk, refresh, open_file, reset, write_entry}
use software.Builder.Storage.{set_implicit_inputs}
use software.Builder.Command.{
  Argument, Command, State, Outside, storage_not_selected, executed_twice, not_resolved,
  command_failed, waits_for_pool, output_not_created, file_error, M, bind, ◌>>=◌, ◌>>◌, pure, throw,
  modify, undefined, gnu, msvc, custom,
}
use software.Builder.Command.Hash.{get_hash, program}
use software.Builder.Command.Outdated.{is_outdated, write_record}

-- fs::exists
abbrev pub exists : ℕ → State → Bool
exists p s = elim (s.disk p) [ none ↦ s.special p | some t ↦ true ]

unfoldable pub lock : M (Unit {0})
lock s = elim s.pool [
  | none ↦ (ok tt, s)
  | some n ↦ if n == 0 then (err waits_for_pool, s) else (ok tt, record s { pool = some (n - 1) })
]

unfoldable pub unlock : State → State
unlock s = elim s.pool [ none ↦ s | some n ↦ record s { pool = some (suc n) } ]

-- addImplicitInput
abbrev add_implicit_inputs : List ℕ → List ℕ → List ℕ
add_implicit_inputs [] files = files
add_implicit_inputs (p ∷ ps) files =
    add_implicit_inputs ps (if p == 0 then files else insert p files)

abbrev pub remove_files : List ℕ → Disk → Disk
remove_files ps disk = λ q. if mem q ps then none else disk q

-- A loop over files.
unfoldable pub each : (ℕ → M (Unit {0})) → List ℕ → M (Unit {0})
each body [] = pure tt
each body (p ∷ ps) = do body p; each body ps

abbrev pub later : ℕ → ℕ → ℕ
later a b = if ltb a b then b else a

unfoldable pub check_storage : M (Unit {0})
check_storage s =
    if not s.cmd.always && not s.cmd.has_storage then (err storage_not_selected, s) else (ok tt, s)

-- The end of beforeCommand, from `if (!isOutdated())` on.
unfoldable pub mark_executed : Bool → M Bool
unfolding lock
mark_executed outdated s =
    if not outdated
    then (
      ok false,
      record s { cmd = record s.cmd { executed = true }; current_command = suc s.current_command },
    )
    else if s.cmd.has_process || s.cmd.executed
    then (err executed_twice, s)
    else bind (lock (record s { cmd = record s.cmd { executed = true } })) (λ u t. (ok true, t))

module _ (out : Outside) where
  -- The bodies of the loops of afterCommand. File(p, ...) registers the file.
  unfoldable pub take_input : ℕ → M (Unit {0})
  take_input p s = elim (open_file out.paths.normalize s.disk p s.files) [
    | err e ↦ (err (file_error e), s)
    | ok (e, fs) ↦ (
      ok tt,
      record s { files = fs; cmd = record s.cmd { mtime = later s.cmd.mtime e.last_write_time } },
    )
  ]

  unfoldable pub take_output : ℕ → M (Unit {0})
  take_output p s = elim (open_file out.paths.normalize s.disk p s.files) [
    | err e ↦ (err (file_error e), s)
    | ok (e, fs) ↦
        let e' = refresh (s.disk p) (reset e) in
        if exists p s
        then (
          ok tt,
          record s {
            files = write_entry fs (out.paths.normalize p) e';
            cmd = record s.cmd { mtime = later s.cmd.mtime e'.last_write_time };
          },
        )
        else (
          err (output_not_created p),
          record s { files = write_entry fs (out.paths.normalize p) e' },
        )
  ]

  unfoldable pub take_implicit_input : ℕ → M (Unit {0})
  take_implicit_input p s = elim (open_file out.paths.normalize s.disk p s.files) [
    | err e ↦ (err (file_error e), s)
    | ok (e, fs) ↦ (
      ok tt,
      record s {
        files =
            if e.last_write_time == 0
            then write_entry fs (out.paths.normalize p) (refresh (s.disk p) (reset e))
            else fs;
      },
    )
  ]

  abbrev pub sorted_arguments : State → List Argument
  sorted_arguments s = sort (λ a b. ltb a.position b.position) s.cmd.arguments

  -- Whether the program is to be looked for: it is named, and is no file.
  abbrev pub is_searched : State → Bool
  is_searched s =
      let p = program (sorted_arguments s) in
      not (p == 0) && (not s.cmd.has_files && (not (out.is_absolute p) && not (exists p s)))

  abbrev pub found_program : State → ℕ
  found_program s = out.resolve_executable (program (sorted_arguments s))

  abbrev replace_program : ℕ → List Argument → List Argument
  replace_program p [] = []
  replace_program p (a ∷ rest) = record { text = p; position = 0 } ∷ rest

  abbrev prepared_command : List Argument → Command → Command
  prepared_command args c =
      let c' = record c { arguments = args; inputs = insert (program args) c.inputs } in
      record c' { hash = get_hash out c'; prepared = true }

  -- Command::prepare
  unfoldable pub prepare : M (Unit {0})
  unfolding get_hash
  prepare s =
      if s.cmd.prepared
      then (ok tt, s)
      else if is_searched s && found_program s == 0
      then (err not_resolved, record s { cmd = record s.cmd { arguments = sorted_arguments s } })
      else (
        ok tt,
        record s {
          cmd =
              prepared_command
                (if is_searched s
                  then replace_program (found_program s) (sorted_arguments s)
                  else sorted_arguments s)
                s.cmd;
        },
      )

  -- Command::beforeCommand: whether the command is to be run.
  unfoldable pub before_command : M Bool
  unfolding check_storage prepare is_outdated mark_executed
  before_command = do check_storage; prepare; outdated ← is_outdated out; mark_executed outdated

  -- Command::postProcess
  unfoldable pub post_process : Bool → M (Unit {0})
  post_process good s =
      let deps = add_implicit_inputs (out.read_deps s.cmd s.disk) [] in
      let found : List ℕ = elim s.cmd.deps_processor [
        | msvc ↦ deps
        | gnu ↦ if good then deps else []
        | custom ↦ deps
        | undefined ↦ []
      ] in
      (ok tt, record s { cmd = record s.cmd { implicit_inputs = found } })

  -- Base::execute
  unfoldable pub launch : M Bool
  launch s =
      let (failed, disk) = out.run s.cmd s.disk in
      (ok failed, record s { disk = disk; launches = suc s.launches })

  -- Command::execute1, without the file of arguments. The result is the value of the error code. With an
  -- error code the source tests the pointer to it, which is set.
  unfoldable pub execute_1 : (with_code : Bool) → M Bool
  unfolding post_process launch
  execute_1 with_code = do
    modify λ s.
        if s.cmd.remove_outputs_before_execution
        then record s { disk = remove_files s.cmd.outputs s.disk }
        else s
    failed ← launch
    (if with_code
        then (do post_process false; pure failed)
        else if failed
        then (do post_process false; throw command_failed)
        else (do post_process true; pure false))

  -- The end of afterCommand: the record is set and given to the log.
  unfoldable pub save_record : M (Unit {0})
  unfolding get_hash
  save_record s =
      let k = get_hash out s.cmd in
      let (r, names) =
        set_implicit_inputs out.paths s.cmd.implicit_inputs
          (record { hash = k; mtime = s.cmd.mtime; implicit_inputs = [] }) s.names in
      (
        ok tt,
        record s { names = names; records = write_record s.records k r; log = s.log ++ r ∷ [] },
      )

  -- From `if (!command_storage)` on.
  unfoldable pub keep_record : M (Unit {0})
  unfolding each take_implicit_input save_record
  keep_record s =
      if not s.cmd.has_storage
      then (ok tt, s)
      else bind (each take_implicit_input s.cmd.implicit_inputs s) λ u t. save_record t

  -- Command::afterCommand
  unfoldable pub after_command : M (Unit {0})
  unfolding each take_input take_output keep_record
  after_command s =
      if not s.cmd.has_files
      then (ok tt, s)
      else bind (each take_input s.cmd.inputs s)
          λ u t. bind (each take_output s.cmd.outputs t) λ u t'. keep_record t'

  -- What execute0 does before the SCOPE_EXIT.
  unfoldable pub guarded : (with_code : Bool) → M (Unit {0})
  unfolding before_command execute_1 after_command
  guarded with_code = do
    go ← before_command
    (if not go then pure tt else (do
      failed ← execute_1 with_code
      (if with_code && failed then pure tt else after_command)))

  -- Command::execute0; `unlock` stands in the SCOPE_EXIT.
  unfoldable pub execute_0 : (with_code : Bool) → M (Unit {0})
  unfolding guarded unlock
  execute_0 with_code s =
      let (r, s') = guarded with_code s in (r, if s'.cmd.executed then unlock s' else s')
