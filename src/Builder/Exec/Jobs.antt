-- ===== src/Builder/Exec/Jobs.antt =====
-- Every step of a job of ExecutionPlan::execute keeps what holds of the states.
use software.Base.{
  ℕ, ◌≡◌, refl, inl, inr, Bool, true, false, List, [], ◌∷◌, ◌==◌, ==_iff, mem, arith, ◌||◌,
  Bool-cases,
}
use software.Builder.Exec.{
  Status, queued, entered, running, notifying, ended, failed, dropped, Config, Exec, write_status,
  pred_size, enter, start, succeed, fail, notify, finish,
}
use software.Builder.Exec.Inv.{
  IsPlan, is_waiting, is_ahead, owes, WellNotifying, move-Inv, push-Inv, count_down-Inv,
  notifying-known, left-count_down, settle-Inv,
}
use software.Builder.Exec.Safe.{IsSafe, mem-is_nil, status_of-waiting, AheadIn-mono}

module _ (cfg : Config) (plan : IsPlan cfg) (s : Exec) (v : IsSafe cfg s) where
  -- Any step of a pushed job that changes only its status.
  job-IsSafe :
      (c : ℕ) (new : Status) (t : Exec)
      → is_waiting (s.status c) ≡ false
      → is_waiting new ≡ false
      → WellNotifying cfg c new
      → ((d : ℕ)
          → mem d cfg.commands ≡ true
          → mem c (cfg.dependencies d) ≡ true
          → owes (s.status c) d ≡ owes new d)
      → t.status ≡ write_status s.status c new
      → t.dependencies_left ≡ s.dependencies_left
      → t.all ≡ s.all
      → t.phase ≡ s.phase
      → IsSafe cfg t
  job-IsSafe c new t old w well same a b d e = record {
    inv =
        rw (a, b, d, e)
          (move-Inv cfg plan s.status s.dependencies_left s.all (is_ahead cfg s.phase) v.inv c new
            old w well same);
    before =
        rw (a, e)
          (AheadIn-mono cfg s.status _ s.phase (λ x r h. ground (arith, ==_iff x c)) v.before);
  }

  pub enter-IsSafe : (c : ℕ) → s.status c ≡ queued → IsSafe cfg (enter c s)
  unfolding enter
  enter-IsSafe c at = elim (Bool-cases (s.stopped || s.interrupted)) [
    | inl e ↦
        job-IsSafe c dropped (enter c s) (rw at) refl tt (λ d m k. rw at) (rw e) refl refl refl
    | inr e ↦
        job-IsSafe c entered (enter c s) (rw at) refl tt (λ d m k. rw at) (rw e) refl refl refl
  ]

  pub start-IsSafe : (c : ℕ) → s.status c ≡ entered → IsSafe cfg (start c s)
  unfolding start
  start-IsSafe c at =
      job-IsSafe c running (start c s) (rw at) refl tt (λ d m k. rw at) refl refl refl refl

  -- The loop over the dependent commands begins.
  notifying-IsSafe :
      (c : ℕ) (t : Exec)
      → s.status c ≡ running
      → t.status ≡ write_status s.status c (notifying (cfg.dependents c))
      → t.dependencies_left ≡ s.dependencies_left
      → t.all ≡ s.all
      → t.phase ≡ s.phase
      → IsSafe cfg t
  notifying-IsSafe c t at a b d e =
      job-IsSafe c (notifying (cfg.dependents c)) t (rw at) refl
        (plan.distinct_dependents c, λ x m. m)
        (λ x m k. rw at (ground (arith, plan.dependents_iff c x, v.inv.known c (rw at)))) a b d e

  pub succeed-IsSafe : (c : ℕ) → s.status c ≡ running → IsSafe cfg (succeed cfg c s)
  unfolding succeed
  succeed-IsSafe c at = notifying-IsSafe c (succeed cfg c s) at refl refl refl refl

  pub fail-IsSafe : (c : ℕ) → s.status c ≡ running → IsSafe cfg (fail cfg c s)
  unfolding fail
  fail-IsSafe c at = elim (Bool-cases cfg.throw_on_errors) [
    | inl e ↦
        job-IsSafe c failed (fail cfg c s) (rw at) refl tt (λ d m k. rw at) (rw e) refl refl refl
    | inr e ↦ notifying-IsSafe c (fail cfg c s) at (rw e) refl refl refl
  ]

  pub finish-IsSafe :
      (c : ℕ) (expired : Bool) → s.status c ≡ notifying [] → IsSafe cfg (finish cfg expired c s)
  unfolding finish
  finish-IsSafe c expired at =
      job-IsSafe c ended (finish cfg expired c s) (rw at) refl tt (λ d m k. rw at) refl refl refl
        refl

  pub notify-IsSafe :
      (c d : ℕ) (ds : List ℕ) → s.status c ≡ notifying (d ∷ ds) → IsSafe cfg (notify c d ds s)
  unfolding notify
  notify-IsSafe c d ds at =
      let counted =
        count_down-Inv cfg plan s.status s.dependencies_left s.all (is_ahead cfg s.phase) v.inv c d
          ds at in
      let one =
        left-count_down cfg plan s.status s.dependencies_left s.all (is_ahead cfg s.phase) v.inv c d
          ds at in
      let (m, n, k) =
        notifying-known cfg plan s.status s.dependencies_left s.all (is_ahead cfg s.phase) v.inv c d
          ds at in
      elim (Bool-cases (pred_size (s.dependencies_left d) == 0)) [
        | inl e ↦
            rw (e, notify)
              (record {
                inv =
                    push-Inv cfg plan _ _ s.all (λ x. x == d || is_ahead cfg s.phase x) counted d
                      (is_ahead cfg s.phase) n
                      (status_of-waiting _ (ground (arith, v.inv.ready d, ==_iff d c)))
                      (ground arith) (λ x f g. ground arith);
                before =
                    AheadIn-mono cfg s.status _ s.phase
                      (λ x r h.
                        ground (arith, ==_iff x c, ==_iff x d, mem-is_nil c (cfg.dependencies d)))
                      v.before;
              })
        | inr e ↦
            rw (e, notify)
              (record {
                inv =
                    settle-Inv cfg plan _ _ s.all _ _ counted (λ x f g. ground (arith, ==_iff x d));
                before =
                    AheadIn-mono cfg s.status _ s.phase (λ x r h. ground (arith, ==_iff x c))
                      v.before;
              })
      ]
