-- ===== src/Builder/Exec/Order.antt =====
-- In which order, and how often, ExecutionPlan::execute runs the commands.
use software.Base.{
  ℕ, ◌≡◌, refl, sym, ap, ◌∙◌, ◌⊎◌, inl, inr, Bool, true, false, List, [], ◌∷◌, ◌++◌, ==_iff, arith,
  count_if-zero, mem, mem-append, distinct, distinct_snoc, ◌||◌, Bool-cases, append-nil, some,
}
use software.Builder.Exec.{
  Status, waiting, queued, entered, running, notifying, ended, failed, dropped, Phase, starting,
  head, awaiting, draining, returned, Config, Exec, is_nil, push, enter, start, succeed, fail,
  notify, finish, main, Step, enters, starts, succeeds, fails, notifies, finishes, interrupts,
  mains, Reach, here, next, initial,
}
use software.Builder.Exec.Inv.{IsPlan, is_waiting, owes}
use software.Builder.Exec.Safe.{RootsFirst, IsSafe}
use software.Builder.Exec.Steps.{initial-IsSafe, Reach-IsSafe, notify-waiting, main-waiting}

-- The job went past its first test.
abbrev pub has_entered : Status → Bool
has_entered waiting = false
has_entered queued = false
has_entered dropped = false
has_entered _ = true

-- `c->execute()` was called.
abbrev pub was_called : Status → Bool
was_called running = true
was_called (notifying ds) = true
was_called ended = true
was_called failed = true
was_called _ = false

-- `c->execute()` came back, and the job goes on to its dependent commands.
abbrev pub has_executed : Status → Bool
has_executed (notifying ds) = true
has_executed ended = true
has_executed _ = false

not_owes-has_executed : (x : Status) (d : ℕ) → owes x d ≡ false → has_executed x ≡ true
not_owes-has_executed (notifying ds) d h = refl
not_owes-has_executed ended d h = refl
not_owes-has_executed waiting d h = cc
not_owes-has_executed queued d h = cc
not_owes-has_executed entered d h = cc
not_owes-has_executed running d h = cc
not_owes-has_executed failed d h = cc
not_owes-has_executed dropped d h = cc

has_entered-not_waiting : (x : Status) → has_entered x ≡ true → is_waiting x ≡ false
has_entered-not_waiting waiting h = cc
has_entered-not_waiting _ h = refl

-- Whatever the threads do, a command's job goes past its first test only after the execution of
-- each of its dependencies has come back and its job has gone on to its dependent commands.
pub enters_after_dependencies :
    (cfg : Config) (s : Exec) (d c : ℕ)
    → IsPlan cfg
    → RootsFirst cfg cfg.commands
    → Reach cfg (initial cfg) s
    → has_entered (s.status d) ≡ true
    → mem c (cfg.dependencies d) ≡ true
    → has_executed (s.status c) ≡ true
enters_after_dependencies cfg s d c plan roots r h m =
    let v : IsSafe cfg s = Reach-IsSafe cfg plan (initial-IsSafe cfg plan roots) r in
    let w = has_entered-not_waiting (s.status d) h in
    not_owes-has_executed (s.status c) d (
      count_if-zero (λ x. owes (s.status x) d) (cfg.dependencies d) c m
        (sym (v.inv.counts d (v.inv.known d w)) ∙ v.inv.ready d w))

-- The commands whose `execute` a step, or a run, calls, in the order of the calls.
unfoldable pub step_calls : {cfg : Config} {s t : Exec} → Step cfg s t → List ℕ
step_calls (starts c at) = c ∷ []
step_calls (enters c at) = []
step_calls (succeeds c at) = []
step_calls (fails c at) = []
step_calls (notifies c d ds at) = []
step_calls (finishes c expired at) = []
step_calls interrupts = []
step_calls (mains expired t e) = []

unfoldable pub calls : {cfg : Config} {s t : Exec} → Reach cfg s t → List ℕ
unfolding step_calls
calls here = []
calls (next r st) = calls r ++ step_calls st

module _ (cfg : Config) (plan : IsPlan cfg) (s : Exec) (v : IsSafe cfg s) where
  main-was_called :
      (expired : Bool) (t : Exec) (p : Phase) (x : ℕ)
      → s.phase ≡ p
      → main cfg expired p s ≡ some t
      → was_called (t.status x) ≡ was_called (s.status x)
  unfolding main push
  main-was_called expired t (starting (c ∷ cs)) x at e =
      elim (Bool-cases (is_nil (cfg.dependencies c))) [
        | inl r ↦
            let w = main-waiting cfg plan s v c cs at r in
            ground (arith, ==_iff x c, λ (f : x ≡ c). ap s.status f)
        | inr r ↦ ground arith
      ]
  main-was_called expired t (starting []) x at e = ground arith
  main-was_called expired t head x at e = ground arith
  main-was_called expired t (awaiting (c ∷ rest) was_empty) x at e = ground arith
  main-was_called expired t (awaiting [] was_empty) x at e = ground arith
  main-was_called expired t draining x at e = ground arith
  main-was_called expired t (returned o) x at e = absurd (cc)

  notify-was_called :
      (c d : ℕ) (ds : List ℕ) (x : ℕ)
      → s.status c ≡ notifying (d ∷ ds)
      → was_called ((notify c d ds s).status x) ≡ was_called (s.status x)
  unfolding notify
  notify-was_called c d ds x at =
      let w = notify-waiting cfg plan s v c d ds at in
      ground
        (arith, ==_iff x c, ==_iff x d, λ (f : x ≡ c). ap s.status f, λ (f : x ≡ d). ap s.status f)

  Step-was_called :
      {t : Exec} (st : Step cfg s t) (x : ℕ)
      → (was_called (t.status x) ≡ (mem x (step_calls st) || was_called (s.status x)))
        × (mem x (step_calls st) ≡ true → was_called (s.status x) ≡ false)
  unfolding step_calls enter start succeed fail finish
  Step-was_called (enters c at) x =
      (ground (arith, ==_iff x c, λ (f : x ≡ c). ap s.status f), (λ h. absurd (cc)))
  Step-was_called (starts c at) x = (
    ground (arith, ==_iff x c, λ (f : x ≡ c). ap s.status f),
    (λ h. ground (arith, ==_iff x c, λ (f : x ≡ c). ap s.status f)),
  )
  Step-was_called (succeeds c at) x =
      (ground (arith, ==_iff x c, λ (f : x ≡ c). ap s.status f), (λ h. absurd (cc)))
  Step-was_called (fails c at) x =
      (ground (arith, ==_iff x c, λ (f : x ≡ c). ap s.status f), (λ h. absurd (cc)))
  Step-was_called (notifies c d ds at) x = (notify-was_called c d ds x at, (λ h. absurd (cc)))
  Step-was_called (finishes c expired at) x =
      (ground (arith, ==_iff x c, λ (f : x ≡ c). ap s.status f), (λ h. absurd (cc)))
  Step-was_called interrupts x = (refl, (λ h. absurd (cc)))
  Step-was_called (mains expired t e) x =
      (main-was_called expired t s.phase x refl e, (λ h. absurd (cc)))

distinct-append_calls :
    (xs ys : List ℕ)
    → distinct xs ≡ true
    → (ys ≡ []) ⊎ ((y : ℕ) × (ys ≡ y ∷ []) × (mem y xs ≡ false))
    → distinct (xs ++ ys) ≡ true
distinct-append_calls xs ys h (inl e) = rw (e, append-nil xs) h
distinct-append_calls xs ys h (inr (y, e, n)) = rw e (ground (arith, distinct_snoc y xs))

step_calls-cases :
    {cfg : Config} {s t : Exec} (st : Step cfg s t)
    → (step_calls st ≡ []) ⊎ ((y : ℕ) × (step_calls st ≡ y ∷ []))
unfolding step_calls
step_calls-cases (starts c at) = inr (c, refl)
step_calls-cases (enters c at) = inl refl
step_calls-cases (succeeds c at) = inl refl
step_calls-cases (fails c at) = inl refl
step_calls-cases (notifies c d ds at) = inl refl
step_calls-cases (finishes c expired at) = inl refl
step_calls-cases interrupts = inl refl
step_calls-cases (mains expired t e) = inl refl

-- In any run no command's `execute` is called twice, and those called are the commands whose jobs
-- have come so far.
pub calls_once :
    (cfg : Config) (s : Exec)
    → IsPlan cfg
    → RootsFirst cfg cfg.commands
    → (r : Reach cfg (initial cfg) s)
    → (distinct (calls r) ≡ true) × ((c : ℕ) → mem c (calls r) ≡ was_called (s.status c))
unfolding calls initial
calls_once cfg s plan roots here = (refl, λ c. refl)
calls_once cfg s plan roots (next {t = t} r st) =
    let v : IsSafe cfg t = Reach-IsSafe cfg plan (initial-IsSafe cfg plan roots) r in
    let (d, f) = calls_once cfg t plan roots r in
    (
      distinct-append_calls (calls r) (step_calls st) d (elim (step_calls-cases st) [
        | inl e ↦ inl e
        | inr (y, e) ↦ inr (y, e, f y ∙ (Step-was_called cfg plan t v st y).1 (rw e (ground arith)))
      ]),
      λ c. ground (
        arith,
        mem-append c (calls r) (step_calls st),
        f c,
        (Step-was_called cfg plan t v st c).0,
      ),
    )
