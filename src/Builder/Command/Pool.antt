-- ===== src/Builder/Command/Pool.antt =====
-- The pool of a command: which parts of execute0 leave it alone, and what execute0 does to it.
use software.Base.{
  ℕ, suc, ◌≡◌, refl, ap, ◌∙◌, Bool, true, false, not, ◌&&◌, ◌==◌, if◌then◌else◌, List, [], ◌∷◌,
  Option, none, some, Result, ok, err, Bool-cases, Option-cases, Result-cases, inl, inr,
}
use software.Builder.Files.{is_changed, open_file}
use software.Builder.Storage.{get_implicit_inputs}
use software.Builder.Command.{
  State, Outside, Error, M, bind, ◌>>=◌, ◌>>◌, pure, throw, command_failed,
}
use software.Builder.Command.Hash.{get_hash}
use software.Builder.Command.Outdated.{
  check_if_file_newer, any_newer, is_time_changed, is_outdated, with_record,
}
use software.Builder.Command.Execute.{
  prepare, is_searched, found_program, post_process, launch, execute_1, remove_files, each,
  take_input, take_output, take_implicit_input, keep_record, save_record, after_command, exists,
}

-- The pool, the number of runs, and whether the command is marked as executed.
abbrev pub Marks : Type 0
Marks = Option ℕ × ℕ × Bool

abbrev pub marks : State → Marks
marks s = (s.pool, s.launches, s.cmd.executed)

abbrev pub IsQuiet {ℓ} : {A : Type ℓ} → M A → Type 0
IsQuiet m = (s : State) → marks (m s).1 ≡ marks s

pub bind-marks {ℓ κ} :
    {A : Type ℓ} {B : Type κ} (r : Result Error A × State) (f : A → M B)
    → ((a : A) → IsQuiet (f a))
    → marks (bind r f).1 ≡ marks r.1
bind-marks (ok a, s) f q = q a s
bind-marks (err e, s) f q = refl

>>=-IsQuiet {ℓ κ} :
    {A : Type ℓ} {B : Type κ} (m : M A) (f : A → M B)
    → IsQuiet m
    → ((a : A) → IsQuiet (f a))
    → IsQuiet (m >>= f)
>>=-IsQuiet m f q p s = bind-marks (m s) f p ∙ q s

if-IsQuiet {ℓ} :
    {A : Type ℓ} (b : Bool) (m n : M A) → IsQuiet m → IsQuiet n → IsQuiet (if b then m else n)
if-IsQuiet true m n p q = p
if-IsQuiet false m n p q = q

check_if_file_newer-IsQuiet : (out : Outside) (p : ℕ) → IsQuiet (check_if_file_newer out p)
unfolding check_if_file_newer
check_if_file_newer-IsQuiet out p s = elim (Bool-cases (not s.cmd.has_files)) [
  | inl e ↦ rw e refl
  | inr e ↦ elim (Result-cases (is_changed out.paths.normalize s.disk s.cmd.mtime p s.files)) [
    | inl (b, f) ↦ rw (e, f) refl
    | inr (b, f) ↦ rw (e, f) refl
  ]
]

any_newer-IsQuiet : (out : Outside) (ps : List ℕ) → IsQuiet (any_newer out ps)
unfolding any_newer
any_newer-IsQuiet out [] s = refl
any_newer-IsQuiet out (p ∷ ps) s =
    >>=-IsQuiet (check_if_file_newer out p) _ (check_if_file_newer-IsQuiet out p)
      (λ b. if-IsQuiet b _ _ (λ t. refl) (any_newer-IsQuiet out ps)) s

is_time_changed-IsQuiet : (out : Outside) → IsQuiet (is_time_changed out)
unfolding is_time_changed
is_time_changed-IsQuiet out s =
    >>=-IsQuiet (any_newer out s.cmd.inputs) _ (any_newer-IsQuiet out s.cmd.inputs)
      (λ a.
        if-IsQuiet a _ _ (λ t. refl)
          (>>=-IsQuiet (any_newer out s.cmd.outputs) _ (any_newer-IsQuiet out s.cmd.outputs)
            (λ b. if-IsQuiet b _ _ (λ t. refl) (any_newer-IsQuiet out s.cmd.implicit_inputs))))
      s

each-IsQuiet :
    (body : ℕ → M (Unit {0})) (ps : List ℕ) → ((p : ℕ) → IsQuiet (body p)) → IsQuiet (each body ps)
unfolding each
each-IsQuiet body [] q s = refl
each-IsQuiet body (p ∷ ps) q s =
    >>=-IsQuiet (body p) (λ u. each body ps) (q p) (λ u. each-IsQuiet body ps q) s

take_input-IsQuiet : (out : Outside) (p : ℕ) → IsQuiet (take_input out p)
unfolding take_input
take_input-IsQuiet out p s = elim (Result-cases (open_file out.paths.normalize s.disk p s.files)) [
  | inl (b, f) ↦ rw (f, take_input) refl
  | inr (b, f) ↦ rw (f, take_input) refl
]

take_output-IsQuiet : (out : Outside) (p : ℕ) → IsQuiet (take_output out p)
unfolding take_output
take_output-IsQuiet out p s = elim (Result-cases (open_file out.paths.normalize s.disk p s.files)) [
  | inr (b, f) ↦ rw (f, take_output) refl
  | inl (b, f) ↦ elim (Bool-cases (exists p s)) [
    | inl x ↦ rw (f, take_output, x) refl
    | inr x ↦ rw (f, take_output, x) refl
  ]
]

take_implicit_input-IsQuiet : (out : Outside) (p : ℕ) → IsQuiet (take_implicit_input out p)
unfolding take_implicit_input
take_implicit_input-IsQuiet out p s =
    elim (Result-cases (open_file out.paths.normalize s.disk p s.files)) [
      | inl (b, f) ↦ rw (f, take_implicit_input) refl
      | inr (b, f) ↦ rw (f, take_implicit_input) refl
    ]

-- One place more.
abbrev pub freed : Option ℕ → Option ℕ
freed none = none
freed (some n) = some (suc n)

module _ (out : Outside) where
  pub is_outdated-IsQuiet : IsQuiet (is_outdated out)
  unfolding is_outdated
  is_outdated-IsQuiet s = elim (Bool-cases s.cmd.always) [
    | inl a ↦ rw (a, is_outdated) refl
    | inr a ↦ elim (Bool-cases (not s.cmd.has_storage)) [
      | inl b ↦ rw (a, b, is_outdated) refl
      | inr b ↦ elim (Option-cases (s.records (get_hash out s.cmd))) [
        | inl c ↦ rw (a, b, c, is_outdated) refl
        | inr (r, c) ↦ elim (Result-cases (get_implicit_inputs s.names r)) [
          | inl (fs, d) ↦
              rw (a, b, c, d, is_outdated) (is_time_changed-IsQuiet out (with_record r fs s))
          | inr (x, d) ↦ rw (a, b, c, d, is_outdated) refl
        ]
      ]
    ]
  ]

  pub prepare-IsQuiet : IsQuiet (prepare out)
  unfolding prepare
  prepare-IsQuiet s = elim (Bool-cases s.cmd.prepared) [
    | inl a ↦ rw (a, prepare) refl
    | inr a ↦ elim (Bool-cases (is_searched out s && found_program out s == 0)) [
      | inl b ↦ rw (a, b, prepare) refl
      | inr b ↦ rw (a, b, prepare) refl
    ]
  ]

  keep_record-IsQuiet : IsQuiet (keep_record out)
  unfolding keep_record save_record
  keep_record-IsQuiet s = elim (Bool-cases (not s.cmd.has_storage)) [
    | inl e ↦ rw (e, keep_record) refl
    | inr e ↦
        rw (e, keep_record)
          (bind-marks (each (take_implicit_input out) s.cmd.implicit_inputs s)
              (λ u t. save_record out t) (λ u t. refl)
            ∙ each-IsQuiet (take_implicit_input out) s.cmd.implicit_inputs
                (take_implicit_input-IsQuiet out) s)
  ]

  pub after_command-IsQuiet : IsQuiet (after_command out)
  unfolding after_command
  after_command-IsQuiet s = elim (Bool-cases (not s.cmd.has_files)) [
    | inl e ↦ rw (e, after_command) refl
    | inr e ↦
        rw (e, after_command)
          (bind-marks (each (take_input out) s.cmd.inputs s)
              (λ u t. bind (each (take_output out) s.cmd.outputs t) λ u t'. keep_record out t')
              (λ u t.
                bind-marks (each (take_output out) s.cmd.outputs t) (λ u t'. keep_record out t')
                  (λ u t'. keep_record-IsQuiet t')
                ∙ each-IsQuiet (take_output out) s.cmd.outputs (take_output-IsQuiet out) t)
            ∙ each-IsQuiet (take_input out) s.cmd.inputs (take_input-IsQuiet out) s)
  ]

  pub clean-marks :
      (t : State)
      → marks (
          if t.cmd.remove_outputs_before_execution
          then record t { disk = remove_files t.cmd.outputs t.disk }
          else t)
        ≡ marks t
  clean-marks t = elim (Bool-cases t.cmd.remove_outputs_before_execution) [
    | inl e ↦ rw e refl
    | inr e ↦ rw e refl
  ]

  after_launch : Bool → Bool → M Bool
  after_launch wc failed =
      if wc
      then (do post_process out false; pure failed)
      else if failed
      then (do post_process out false; throw command_failed)
      else (do post_process out true; pure false)

  after_launch-IsQuiet : (wc failed : Bool) → IsQuiet (after_launch wc failed)
  unfolding after_launch post_process
  after_launch-IsQuiet true failed s = refl
  after_launch-IsQuiet false true s = refl
  after_launch-IsQuiet false false s = refl

  pub execute_1-marks :
      (wc : Bool) (t : State)
      → marks (execute_1 out wc t).1 ≡ (t.pool, suc t.launches, t.cmd.executed)
  unfolding execute_1 launch after_launch
  execute_1-marks wc t =
      let t' =
        if t.cmd.remove_outputs_before_execution
        then record t { disk = remove_files t.cmd.outputs t.disk }
        else t in
      bind-marks (launch out t') (after_launch wc) (after_launch-IsQuiet wc)
      ∙ ap (λ (m : Marks). (m.0, suc m.1, m.2)) (clean-marks t)
