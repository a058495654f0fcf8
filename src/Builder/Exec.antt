-- ===== src/Builder/Exec.antt =====
-- src/sw/builder/execution_plan.cpp: ExecutionPlan::execute. The calling thread and the jobs that it
-- gives to the executor are interleaved: a function for each atomic piece of code, and a relation that
-- lets any thread go next. The executor (a library) runs any job that was pushed, at any time.
pub mod Inv
pub mod Safe
mod Jobs
mod Steps
mod Kept
pub mod Waits
pub mod Ends
pub mod Rest
pub mod Order
pub mod Prepared
use software.Base.{
  ℕ, suc, ◌-◌, ◌≡◌, Bool, true, false, List, [], ◌∷◌, ◌++◌, ◌==◌, if◌then◌else◌, length, count_if,
  ◌&&◌, ◌||◌, not, Option, none, some, ℤ, pos, ltb_ℤ, pred_ℤ, ◌^◌,
}
use software.Builder.Node.{Node, Heap}
use software.Builder.Plan.{Plan, is_valid}

-- Where the job of a command stands in the function `run`: not pushed, pushed, past the first test,
-- inside `c->execute()`, in the loop over the dependent commands with those still ahead, returned,
-- left by an exception, or returned at the first test.
pub data Status : Type 0 where
  waiting queued entered running : Status
  notifying : List ℕ → Status
  ended failed dropped : Status

pub data Outcome : Type 0 where
  success no_start failures time_limit interruption not_all_steps : Outcome

-- The calling thread: pushing the commands without dependencies, at the head of the `while` loop,
-- waiting for the futures of `fs2` (and whether `fs2` was empty), waiting for running jobs, returned.
pub data Phase : Type 0 where
  starting : List ℕ → Phase
  head : Phase
  awaiting : List ℕ → Bool → Phase
  draining : Phase
  returned : Outcome → Phase

-- What `execute` reads and does not change.
pub record Config : Type 0 where
  pub commands : List ℕ
  pub dependencies : ℕ → List ℕ
  pub dependents : ℕ → List ℕ
  -- the counters as `init` left them
  pub counters : ℕ → ℕ
  pub skip_errors : ℤ
  pub throw_on_errors : Bool
  -- whether `stop_time` is set
  pub limited : Bool

pub record Exec : Type 0 where
  pub status : ℕ → Status
  pub dependencies_left : ℕ → ℕ
  pub stopped : Bool
  pub interrupted : Bool
  pub askip_errors : ℤ
  -- the counter of jobs inside `c->execute()`
  pub running_jobs : ℕ
  pub fs : List ℕ
  pub all : List ℕ
  pub i : ℕ
  pub phase : Phase

abbrev pub write_status : (ℕ → Status) → ℕ → Status → (ℕ → Status)
write_status f c v = λ x. if x == c then v else f x

-- `--n` on a size_t
abbrev pub pred_size : ℕ → ℕ
pred_size n = if n == 0 then 2 ^ 64 - 1 else n - 1

-- `fs.push_back(e.push(...)); all.push_back(fs.back());`
unfoldable pub push : ℕ → Exec → Exec
push c s = record s {
  status = write_status s.status c queued;
  fs = s.fs ++ c ∷ [];
  all = s.all ++ c ∷ [];
}

-- `if (stopped || interrupted) return;`
unfoldable pub enter : ℕ → Exec → Exec
enter c s = record s {
  status = write_status s.status c (if s.stopped || s.interrupted then dropped else entered);
}

-- `running++;` and the call of `c->execute()`
unfoldable pub start : ℕ → Exec → Exec
start c s = record s { status = write_status s.status c running; running_jobs = suc s.running_jobs }

-- `c->execute()` returned: `running--;`, then the loop over the dependent commands.
unfoldable pub succeed : Config → ℕ → Exec → Exec
succeed cfg c s = record s {
  status = write_status s.status c (notifying (cfg.dependents c));
  running_jobs = s.running_jobs - 1;
}

-- `c->execute()` threw: the `catch` block.
unfoldable pub fail : Config → ℕ → Exec → Exec
fail cfg c s =
    let left = pred_ℤ s.askip_errors in
    record s {
      status =
          write_status s.status c
            (if cfg.throw_on_errors then failed else notifying (cfg.dependents c));
      running_jobs = s.running_jobs - 1;
      askip_errors = left;
      stopped = if ltb_ℤ left (pos 1) then true else s.stopped;
    }

-- One round of the loop: `if (--d->dependencies_left == 0)` push the job of `d`.
unfoldable pub notify : ℕ → ℕ → List ℕ → Exec → Exec
unfolding push
notify c d ds s =
    let n = pred_size (s.dependencies_left d) in
    let s' = record s {
      status = write_status s.status c (notifying ds);
      dependencies_left = λ x. if x == d then n else s.dependencies_left x;
    } in
    if n == 0 then push d s' else s'

-- The end of `run`: `if (stop_time && Clock::now() > *stop_time) stopped = true;`
unfoldable pub finish : Config → Bool → ℕ → Exec → Exec
finish cfg expired c s = record s {
  status = write_status s.status c ended;
  stopped = if cfg.limited && expired then true else s.stopped;
}

-- `f.wait()` returns.
abbrev pub is_finished : Status → Bool
is_finished ended = true
is_finished failed = true
is_finished dropped = true
is_finished _ = false

abbrev pub is_failed : Status → Bool
is_failed failed = true
is_failed _ = false

abbrev pub is_nil : List ℕ → Bool
is_nil [] = true
is_nil (x ∷ xs) = false

-- From the collection of the exceptions to the end of `execute`.
unfoldable pub result : Config → Bool → Exec → Outcome
result cfg expired s =
    if not (count_if (λ c. is_failed (s.status c)) s.all == 0) && cfg.throw_on_errors
    then failures
    else if s.i == length cfg.commands
    then success
    else if cfg.limited && expired && s.stopped
    then time_limit
    else if s.interrupted
    then interruption
    else not_all_steps

-- The next piece of code of the calling thread; `none` means that it blocks or has returned.
unfoldable pub main : Config → Bool → Phase → Exec → Option Exec
unfolding push result
main cfg expired (starting []) s =
    some (record s { phase = if is_nil s.fs then returned no_start else head })
main cfg expired (starting (c ∷ cs)) s = some (
    if is_nil (cfg.dependencies c)
    then record (push c s) { phase = starting cs }
    else record s { phase = starting [] })
main cfg expired head s = some (
    if s.i == length cfg.commands
    then record s { phase = draining }
    else record s { fs = []; phase = awaiting s.fs (is_nil s.fs) })
main cfg expired (awaiting (c ∷ rest) was_empty) s =
    if is_finished (s.status c)
    then some (record s { i = suc s.i; phase = awaiting rest was_empty })
    else none
main cfg expired (awaiting [] was_empty) s =
    some (record s { phase = if s.stopped || was_empty || s.interrupted then draining else head })
main cfg expired draining s =
    if s.running_jobs == 0
    then some (record s { phase = returned (result cfg expired s) })
    else none
main cfg expired (returned o) s = none

-- One step of some thread. `interrupt` is ExecutionPlan::stop.
pub data Step (cfg : Config) (s : Exec) : Exec → Type 0 where
  enters : (c : ℕ) → s.status c ≡ queued → Step cfg s (enter c s)
  starts : (c : ℕ) → s.status c ≡ entered → Step cfg s (start c s)
  succeeds : (c : ℕ) → s.status c ≡ running → Step cfg s (succeed cfg c s)
  fails : (c : ℕ) → s.status c ≡ running → Step cfg s (fail cfg c s)
  notifies :
      (c d : ℕ) (ds : List ℕ) → s.status c ≡ notifying (d ∷ ds) → Step cfg s (notify c d ds s)
  finishes :
      (c : ℕ) (expired : Bool) → s.status c ≡ notifying [] → Step cfg s (finish cfg expired c s)
  interrupts : Step cfg s (record s { interrupted = true })
  mains : (expired : Bool) (t : Exec) → main cfg expired s.phase s ≡ some t → Step cfg s t

pub data Reach (cfg : Config) (s : Exec) : Exec → Type 0 where
  here : Reach cfg s s
  next : {t u : Exec} → Reach cfg s t → Step cfg t u → Reach cfg s u

-- The plan and its options, as `execute` sees them.
unfoldable pub config : Plan → ℤ → (throw_on_errors limited : Bool) → Config
config p skip throws limited = record {
  commands = p.commands;
  dependencies = λ c. (p.heap c).dependencies;
  dependents = λ c. (p.heap c).dependent_commands;
  counters = λ c. (p.heap c).dependencies_left;
  skip_errors = skip;
  throw_on_errors = throws;
  limited = limited;
}

-- The state in which the loop over `commands` begins.
unfoldable pub initial : Config → Exec
initial cfg = record {
  status = λ c. waiting;
  dependencies_left = cfg.counters;
  stopped = false;
  interrupted = false;
  askip_errors = cfg.skip_errors;
  running_jobs = 0;
  fs = [];
  all = [];
  i = 0;
  phase = starting cfg.commands;
}

-- The first tests of `execute`: an invalid plan throws, an empty one returns at once.
pub data Begin : Type 0 where
  invalid_plan nothing_to_do : Begin
  begun : Exec → Begin

unfoldable pub execute : Plan → ℤ → (throw_on_errors limited : Bool) → Begin
unfolding config initial
execute p skip throws limited =
    if not (is_valid p)
    then invalid_plan
    else if is_nil p.commands
    then nothing_to_do
    else begun (initial (config p skip throws limited))
