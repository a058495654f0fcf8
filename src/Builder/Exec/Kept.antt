-- ===== src/Builder/Exec/Kept.antt =====
-- What a step of a job of ExecutionPlan::execute does to what the calling thread sees.
use software.Base.{
  ℕ, ◌≡◌, refl, ap, ◌∙◌, ◌⊎◌, inl, inr, Bool, true, false, List, [], ◌∷◌, ◌++◌, ◌==◌, ==_iff, arith,
  if◌then◌else◌, ◌||◌, Bool-cases,
}
use software.Builder.Exec.{
  Status, waiting, queued, entered, running, notifying, ended, failed, dropped, Config, Exec,
  is_finished, is_failed, write_status, push, enter, start, succeed, fail, notify, finish,
  pred_size,
}
use software.Builder.Exec.Inv.{is_waiting}

abbrev pub is_dropped : Status → Bool
is_dropped dropped = true
is_dropped _ = false

-- The flags that end the loop early.
abbrev pub is_stopping : Exec → Bool
is_stopping s = s.stopped || s.interrupted

-- What one step of a job, or of ExecutionPlan::stop, does to what the calling thread sees.
pub record Kept (s t : Exec) : Type 0 where
  pub finished : (x : ℕ) → is_finished (s.status x) ≡ true → t.status x ≡ s.status x
  pub i_same : t.i ≡ s.i
  pub phase_same : t.phase ≡ s.phase
  pub grew :
      ((t.all ≡ s.all) × (t.fs ≡ s.fs))
      ⊎ ((c d : ℕ) × (t.all ≡ s.all ++ d ∷ [])
          × (t.fs ≡ s.fs ++ d ∷ [])
          × (is_finished (s.status c) ≡ false)
          × (is_waiting (s.status c) ≡ false))
  pub flags : is_stopping s ≡ true → is_stopping t ≡ true
  pub drops :
      (x : ℕ) → is_dropped (t.status x) ≡ true → (is_dropped (s.status x) || is_stopping t) ≡ true
  pub failures :
      (x : ℕ)
      → is_failed (t.status x) ≡ true
      → (is_failed (s.status x) ≡ true) ⊎ (s.status x ≡ running)

module _ (cfg : Config) (s : Exec) where
  -- A step that changes the status of one pushed command that has not finished.
  job-Kept :
      (c : ℕ) (t : Exec) (new : Status)
      → is_finished (s.status c) ≡ false
      → t.status ≡ write_status s.status c new
      → t.all ≡ s.all
      → t.fs ≡ s.fs
      → t.i ≡ s.i
      → t.phase ≡ s.phase
      → (is_stopping s ≡ true → is_stopping t ≡ true)
      → (is_dropped new ≡ true → is_stopping t ≡ true)
      → (is_failed new ≡ true → s.status c ≡ running)
      → Kept s t
  job-Kept c t new unfinished a b d e f flags drop lost = record {
    finished = λ x h. ap (λ g. g x) a ∙ ground (arith, ==_iff x c, λ (q : x ≡ c). ap s.status q);
    i_same = e;
    phase_same = f;
    grew = inl (b, d);
    flags = flags;
    drops = λ x h. ground (arith, drop, ap (λ g. g x) a);
    failures =
        λ x h. ground (arith, lost, ap (λ g. g x) a, ==_iff x c, λ (q : x ≡ c). ap s.status q);
  }

  pub enter-Kept : (c : ℕ) → s.status c ≡ queued → Kept s (enter c s)
  unfolding enter
  enter-Kept c at =
      job-Kept c (enter c s) (if s.stopped || s.interrupted then dropped else entered) (rw at) refl
        refl refl refl refl (λ h. h) (λ h. ground arith) (λ h. ground arith)

  pub start-Kept : (c : ℕ) → s.status c ≡ entered → Kept s (start c s)
  unfolding start
  start-Kept c at =
      job-Kept c (start c s) running (rw at) refl refl refl refl refl (λ h. h) (λ h. absurd (cc))
        (λ h. absurd (cc))

  pub succeed-Kept : (c : ℕ) → s.status c ≡ running → Kept s (succeed cfg c s)
  unfolding succeed
  succeed-Kept c at =
      job-Kept c (succeed cfg c s) (notifying (cfg.dependents c)) (rw at) refl refl refl refl refl
        (λ h. h) (λ h. absurd (cc)) (λ h. absurd (cc))

  pub fail-Kept : (c : ℕ) → s.status c ≡ running → Kept s (fail cfg c s)
  unfolding fail
  fail-Kept c at =
      job-Kept c (fail cfg c s)
        (if cfg.throw_on_errors then failed else notifying (cfg.dependents c)) (rw at) refl refl
        refl refl refl (λ h. ground arith) (λ h. ground arith) (λ h. at)

  pub finish-Kept :
      (c : ℕ) (expired : Bool) → s.status c ≡ notifying [] → Kept s (finish cfg expired c s)
  unfolding finish
  finish-Kept c expired at =
      job-Kept c (finish cfg expired c s) ended (rw at) refl refl refl refl refl (λ h. ground arith)
        (λ h. absurd (cc)) (λ h. absurd (cc))

  pub notify-Kept :
      (c d : ℕ) (ds : List ℕ)
      → s.status c ≡ notifying (d ∷ ds)
      → s.status d ≡ waiting
      → Kept s (notify c d ds s)
  unfolding notify push
  notify-Kept c d ds at w = record {
    finished = λ x h.
        ground (
          arith,
          ==_iff x c,
          ==_iff x d,
          λ (q : x ≡ c). ap s.status q,
          λ (q : x ≡ d). ap s.status q,
        );
    i_same = ground arith;
    phase_same = ground arith;
    grew = elim (Bool-cases (pred_size (s.dependencies_left d) == 0)) [
      | inl e ↦ inr (c, d, ground arith, ground arith, rw at, rw at)
      | inr e ↦ inl (ground arith, ground arith)
    ];
    flags = λ h. ground arith;
    drops = λ x h. ground arith;
    failures = λ x h. ground arith;
  }

  pub interrupt-Kept : Kept s (record s { interrupted = true })
  interrupt-Kept = record {
    finished = λ x h. refl;
    i_same = refl;
    phase_same = refl;
    grew = inl (refl, refl);
    flags = λ h. ground arith;
    drops = λ x h. ground arith;
    failures = λ x h. inl h;
  }
