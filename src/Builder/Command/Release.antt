-- ===== src/Builder/Command/Release.antt =====
-- What Command::execute leaves of the places of its pool.
use software.Base.{
  ℕ, suc, ◌-◌, ◌≡◌, refl, sym, ap, ◌∙◌, Bool, true, false, not, ◌&&◌, ◌||◌, ◌==◌, if◌then◌else◌,
  Option, none, some, Result, ok, err, Bool-cases, Option-cases, inl, inr, arith,
}
use software.Builder.Command.{State, Outside, Error, M, bind, pure, waits_for_pool}
use software.Builder.Command.Outdated.{is_outdated}
use software.Builder.Command.Execute.{
  check_storage, prepare, mark_executed, before_command, lock, unlock, execute_1, after_command,
  guarded, execute_0,
}
use software.Builder.Command.Pool.{
  Marks, marks, freed, IsQuiet, bind-marks, is_outdated-IsQuiet, prepare-IsQuiet,
  after_command-IsQuiet, execute_1-marks,
}

-- A rule for what holds of a block: of the exceptions of its first part, and of the rest.
bind-rule {ℓ κ μ} :
    {A : Type ℓ} {B : Type κ} (P : Result Error B × State → Type μ) (x : Result Error A × State)
    (f : A → M B)
    → ((e : Error) (t : State) → x ≡ (err e, t) → P (err e, t))
    → ((a : A) (t : State) → x ≡ (ok a, t) → P (f a t))
    → P (bind x f)
bind-rule P (ok a, t) f p q = q a t refl
bind-rule P (err e, t) f p q = p e t refl

-- Where a call of execute0 that begins in `s` ends, before the SCOPE_EXIT.
data Stage (s : State) (x : Result Error (Unit {0}) × State) : Type 0 where
  waits : x.0 ≡ err waits_for_pool → Stage s x
  untouched : marks x.1 ≡ (s.pool, s.launches, false) → Stage s x
  current : x.0 ≡ ok tt → marks x.1 ≡ (s.pool, s.launches, true) → Stage s x
  ran : (p : Option ℕ) → marks x.1 ≡ (p, suc s.launches, true) → freed p ≡ s.pool → Stage s x

module _ (out : Outside) (wc : Bool) (s : State) (fresh : s.cmd.executed ≡ false) where
  quiet_until :
      {A : Type 0} (m : M A)
      → IsQuiet m
      → (t : State) {x : Result Error A × State} → m t ≡ x
      → marks t ≡ marks s
      → marks x.1 ≡ marks s
  quiet_until m q t e h = ap (λ (y : Result Error _ × State). marks y.1) (sym e) ∙ q t ∙ h

  marks-fresh : (t : State) → marks t ≡ marks s → marks t ≡ (s.pool, s.launches, false)
  marks-fresh t h = h ∙ ap (λ b. (s.pool, s.launches, b)) fresh

  after_run : Bool → M (Unit {0})
  after_run failed = if wc && failed then pure tt else after_command out

  after_run-IsQuiet : (failed : Bool) → IsQuiet (after_run failed)
  unfolding after_run
  after_run-IsQuiet failed t = elim (Bool-cases (wc && failed)) [
    | inl e ↦ rw e refl
    | inr e ↦ rw e (after_command-IsQuiet out t)
  ]

  run-Stage :
      (p : Option ℕ) (t : State)
      → marks t ≡ (p, s.launches, true)
      → freed p ≡ s.pool
      → Stage s (bind (execute_1 out wc t) after_run)
  run-Stage p t h f =
      ran p
        (bind-marks (execute_1 out wc t) after_run after_run-IsQuiet
          ∙ execute_1-marks out wc t
          ∙ ap (λ (m : Marks). (m.0, suc m.1, m.2)) h)
        f

  -- What follows beforeCommand.
  proceed : Bool → M (Unit {0})
  unfolding after_run
  proceed go = if not go then pure tt else λ t. bind (execute_1 out wc t) after_run

  mark-Stage :
      (b : Bool) (t : State) → marks t ≡ marks s → Stage s (bind (mark_executed b t) proceed)
  unfolding mark_executed proceed lock
  mark-Stage false t h = current refl (ap (λ (m : Marks). (m.0, m.1, true)) h)
  mark-Stage true t h = elim (Bool-cases (t.cmd.has_process || t.cmd.executed)) [
    | inl e ↦ rw e (untouched (marks-fresh t h))
    | inr e ↦ elim (Option-cases t.pool) [
      | inl n ↦
          let same : s.pool ≡ none = sym (ap (λ (m : Marks). m.0) h) ∙ n in
          rw (e, n)
            (run-Stage none _
              (ap (λ q. (q, t.launches, true)) n ∙ ap (λ (m : Marks). (none, m.1, true)) h)
              (sym same))
      | inr (n, q) ↦ elim (Bool-cases (n == 0)) [
        | inl z ↦ rw (e, q, z) (waits refl)
        | inr z ↦
            let same : s.pool ≡ some n = sym (ap (λ (m : Marks). m.0) h) ∙ q in
            let back : suc (n - 1) ≡ n = ground arith in
            rw (e, q, z)
              (run-Stage (some (n - 1)) _ (ap (λ (m : Marks). (some (n - 1), m.1, true)) h)
                (ap some back ∙ sym same))
      ]
    ]
  ]

  guarded-Stage : Stage s (guarded out wc s)
  unfolding guarded before_command check_storage after_run proceed
  guarded-Stage = elim (Bool-cases (not s.cmd.always && not s.cmd.has_storage)) [
    | inl e ↦ rw e (untouched (marks-fresh s refl))
    | inr e ↦ rw e (
        bind-rule (λ y. Stage s (bind y proceed)) (prepare out s) _
          (λ x t at.
            untouched (marks-fresh t (quiet_until (prepare out) (prepare-IsQuiet out) s at refl)))
          (λ u t at.
            let h = quiet_until (prepare out) (prepare-IsQuiet out) s at refl in
            bind-rule (λ y. Stage s (bind y proceed)) (is_outdated out t) mark_executed
              (λ x t' at'.
                untouched (
                  marks-fresh t' (quiet_until (is_outdated out) (is_outdated-IsQuiet out) t at' h)))
              (λ b t' at'.
                mark-Stage b t' (quiet_until (is_outdated out) (is_outdated-IsQuiet out) t at' h))))
  ]

unlock-marks : (t : State) → marks (unlock t) ≡ (freed t.pool, t.launches, t.cmd.executed)
unfolding unlock
unlock-marks t = elim (Option-cases t.pool) [ inl n ↦ rw n refl | inr (n, q) ↦ rw q refl ]

-- How a call of execute0 that begins in `s` comes out.
pub data Release (s : State) (x : Result Error (Unit {0}) × State) : Type 0 where
  -- it stands in `pool->lock()`
  waiting : x.0 ≡ err waits_for_pool → Release s x
  -- an exception before the command was marked
  not_begun : marks x.1 ≡ (s.pool, s.launches, false) → Release s x
  -- nothing was to be done, and a place was given back that had not been taken
  up_to_date : x.0 ≡ ok tt → marks x.1 ≡ (freed s.pool, s.launches, true) → Release s x
  -- the program was run, and the place that had been taken was given back
  was_run : marks x.1 ≡ (s.pool, suc s.launches, true) → Release s x

-- The places of the pool after a call of execute0 on a command that was not executed: as before when the
-- program was run, whatever came of it, and when an exception came first; one more than before when the
-- command was up to date.
pub execute_0-Release :
    (out : Outside) (wc : Bool) (s : State)
    → s.cmd.executed ≡ false
    → Release s (execute_0 out wc s)
unfolding execute_0
execute_0-Release out wc s fresh =
    let t = (guarded out wc s).1 in
    let unlocked : (m : Marks)
        → marks t ≡ m
        → m.2 ≡ true
        → marks (if t.cmd.executed then unlock t else t) ≡ (freed m.0, m.1, m.2) =
      λ m h b.
        let e : t.cmd.executed ≡ true = ap (λ (n : Marks). n.2) h ∙ b in
        rw e (unlock-marks t ∙ ap (λ (n : Marks). (freed n.0, n.1, n.2)) h) in
    elim (guarded-Stage out wc s fresh) [
      | waits e ↦ waiting e
      | untouched h ↦
          let e : t.cmd.executed ≡ false = ap (λ (n : Marks). n.2) h in not_begun (rw e h)
      | current e h ↦ up_to_date e (unlocked (s.pool, s.launches, true) h refl)
      | ran p h f ↦
          was_run
            (unlocked (p, suc s.launches, true) h refl ∙ ap (λ q. (q, suc s.launches, true)) f)
    ]
