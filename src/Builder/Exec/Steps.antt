-- ===== src/Builder/Exec/Steps.antt =====
-- Every step of ExecutionPlan::execute keeps what holds of the states.
use software.Base.{
  ℕ, ◌≡◌, refl, sym, ap, subst, ◌∙◌, inl, inr, Bool, true, List, [], ◌∷◌, ◌==◌, ==_iff, length, mem,
  arith, some, some-eq, ◌||◌, Bool-cases,
}
use software.Builder.Exec.{
  waiting, notifying, Phase, starting, head, awaiting, draining, returned, Config, Exec, is_nil,
  push, main, Step, enters, starts, succeeds, fails, notifies, finishes, interrupts, mains, Reach,
  here, next, initial, is_finished,
}
use software.Builder.Exec.Inv.{IsPlan, is_ahead, push-Inv, left-count_down, settle-Inv}
use software.Builder.Exec.Safe.{
  RootsFirst, Ahead, AheadIn, IsSafe, count_if-is_nil, count_if-all, length-pos, status_of-waiting,
  AheadIn-of_if,
}
use software.Builder.Exec.Jobs.{
  enter-IsSafe, start-IsSafe, succeed-IsSafe, fail-IsSafe, finish-IsSafe, notify-IsSafe,
}

module _ (cfg : Config) where
  module _ (plan : IsPlan cfg) (s : Exec) (v : IsSafe cfg s) where
    -- A step of the calling thread that pushes nothing.
    calm-IsSafe :
        (t : Exec) (p : Phase)
        → s.phase ≡ p
        → t.status ≡ s.status
        → t.dependencies_left ≡ s.dependencies_left
        → t.all ≡ s.all
        → ((d : ℕ) → is_ahead cfg p d ≡ true → is_ahead cfg t.phase d ≡ true)
        → AheadIn cfg s.status t.phase
        → IsSafe cfg t
    calm-IsSafe t p at a b d still before = record {
      inv =
          rw (a, b, d)
            (settle-Inv cfg plan s.status s.dependencies_left s.all (is_ahead cfg s.phase) _ v.inv
              (λ x m h. inr (still x (rw at at h))));
      before = rw a before;
    }

    push_first-IsSafe :
        (c : ℕ) (cs : List ℕ)
        → s.phase ≡ starting (c ∷ cs)
        → is_nil (cfg.dependencies c) ≡ true
        → IsSafe cfg (record (push c s) { phase = starting cs })
    unfolding push
    push_first-IsSafe c cs at root =
        let a : Ahead cfg s.status (c ∷ cs) = subst (AheadIn cfg s.status) at v.before in
        let m = a.among c (ground arith) in
        record {
          inv =
              push-Inv cfg plan s.status s.dependencies_left s.all (is_ahead cfg s.phase) v.inv c
                (is_ahead cfg (starting cs)) m (status_of-waiting _ (a.idle c (ground arith) root))
                (v.inv.counts c m ∙ count_if-is_nil _ (cfg.dependencies c) root)
                (λ x e h. ground (arith, ap (λ q. is_ahead cfg q x) at, ==_iff x c));
          before = record {
            distinct_ahead = ground arith;
            among = λ x k. a.among x (ground arith);
            idle = λ x k r. ground (
              arith,
              a.idle x (ground arith) r,
              a.distinct_ahead,
              ==_iff x c,
              λ (e : x ≡ c). ap (λ y. mem y cs) e,
            );
            roots_first = a.roots_first.1;
          };
        }

    main-IsSafe :
        (expired : Bool) (t : Exec) (p : Phase)
        → s.phase ≡ p
        → main cfg expired p s ≡ some t
        → IsSafe cfg t
    unfolding main
    main-IsSafe expired t (starting []) at e = subst (IsSafe cfg) (some-eq e) (
        calm-IsSafe _ (starting []) at refl refl refl (λ d h. absurd (cc))
          (AheadIn-of_if cfg s.status (is_nil s.fs) _ _ tt tt))
    main-IsSafe expired t (starting (c ∷ cs)) at e =
        elim (Bool-cases (is_nil (cfg.dependencies c))) [
          | inl r ↦ subst (IsSafe cfg) (some-eq (rw r at e)) (push_first-IsSafe c cs at r)
          | inr r ↦
              let a : Ahead cfg s.status (c ∷ cs) = subst (AheadIn cfg s.status) at v.before in
              subst (IsSafe cfg) (some-eq (rw r at e)) (
                calm-IsSafe _ (starting (c ∷ cs)) at refl refl refl
                  (λ d h. ground (
                    arith,
                    a.roots_first.0 r d,
                    ==_iff d c,
                    λ (f : d ≡ c). ap (λ y. is_nil (cfg.dependencies y)) f,
                  ))
                  (record {
                    distinct_ahead = refl;
                    among = λ x m. absurd (cc);
                    idle = λ x m. absurd (cc);
                    roots_first = tt;
                  }))
        ]
    main-IsSafe expired t head at e = elim (Bool-cases (s.i == length cfg.commands)) [
      | inl r ↦
          subst (IsSafe cfg) (some-eq (rw r at e))
            (calm-IsSafe _ head at refl refl refl (λ d h. absurd (cc)) tt)
      | inr r ↦
          subst (IsSafe cfg) (some-eq (rw r at e))
            (calm-IsSafe _ head at refl refl refl (λ d h. absurd (cc)) tt)
    ]
    main-IsSafe expired t (awaiting (c ∷ rest) was_empty) at e =
        elim (Bool-cases (is_finished (s.status c))) [
          | inl r ↦ subst (IsSafe cfg) (some-eq (rw r at e)) (
              calm-IsSafe _ (awaiting (c ∷ rest) was_empty) at refl refl refl (λ d h. absurd (cc))
                tt)
          | inr r ↦ absurd (cc (rw r at e))
        ]
    main-IsSafe expired t (awaiting [] was_empty) at e = subst (IsSafe cfg) (some-eq e) (
        calm-IsSafe _ (awaiting [] was_empty) at refl refl refl (λ d h. absurd (cc))
          (AheadIn-of_if cfg s.status (s.stopped || was_empty || s.interrupted) _ _ tt tt))
    main-IsSafe expired t draining at e = elim (Bool-cases (s.running_jobs == 0)) [
      | inl r ↦
          subst (IsSafe cfg) (some-eq (rw r at e))
            (calm-IsSafe _ draining at refl refl refl (λ d h. absurd (cc)) tt)
      | inr r ↦ absurd (cc (rw r at e))
    ]
    main-IsSafe expired t (returned o) at e = absurd (cc)

    -- A command that `notify` pushes was waiting.
    pub notify-waiting :
        (c d : ℕ) (ds : List ℕ) → s.status c ≡ notifying (d ∷ ds) → s.status d ≡ waiting
    notify-waiting c d ds at =
        let one =
          left-count_down cfg plan s.status s.dependencies_left s.all (is_ahead cfg s.phase) v.inv c
            d ds at in
        status_of-waiting _ (ground (arith, v.inv.ready d))

    -- So was a command that the calling thread pushes.
    pub main-waiting :
        (c : ℕ) (cs : List ℕ)
        → s.phase ≡ starting (c ∷ cs)
        → is_nil (cfg.dependencies c) ≡ true
        → s.status c ≡ waiting
    main-waiting c cs at root =
        let a : Ahead cfg s.status (c ∷ cs) = subst (AheadIn cfg s.status) at v.before in
        status_of-waiting _ (a.idle c (ground arith) root)

    pub Step-IsSafe : {t : Exec} → Step cfg s t → IsSafe cfg t
    Step-IsSafe (enters c at) = enter-IsSafe cfg plan s v c at
    Step-IsSafe (starts c at) = start-IsSafe cfg plan s v c at
    Step-IsSafe (succeeds c at) = succeed-IsSafe cfg plan s v c at
    Step-IsSafe (fails c at) = fail-IsSafe cfg plan s v c at
    Step-IsSafe (notifies c d ds at) = notify-IsSafe cfg plan s v c d ds at
    Step-IsSafe (finishes c expired at) = finish-IsSafe cfg plan s v c expired at
    Step-IsSafe interrupts = record { inv = v.inv; before = v.before }
    Step-IsSafe (mains expired t e) = main-IsSafe expired t s.phase refl e

  pub Reach-IsSafe : IsPlan cfg → {s t : Exec} → IsSafe cfg s → Reach cfg s t → IsSafe cfg t
  Reach-IsSafe plan v here = v
  Reach-IsSafe plan v (next r st) = Step-IsSafe plan _ (Reach-IsSafe plan v r) st

  pub initial-IsSafe : IsPlan cfg → RootsFirst cfg cfg.commands → IsSafe cfg (initial cfg)
  unfolding initial
  initial-IsSafe plan roots = record {
    inv = record {
      counts = λ d m. plan.counted d m ∙ sym (count_if-all (cfg.dependencies d));
      known = λ c h. absurd (cc);
      well = λ c. tt;
      ready = λ d h. absurd (cc);
      blocked = λ d m h. elim (Bool-cases (is_nil (cfg.dependencies d))) [
        | inl r ↦ inr (ground arith)
        | inr r ↦ inl (rw (plan.counted d m) (length-pos (cfg.dependencies d) r))
      ];
      pushed = λ c. refl;
      once = refl;
    };
    before = record {
      distinct_ahead = plan.distinct_commands;
      among = λ c m. m;
      idle = λ c m r. refl;
      roots_first = roots;
    };
  }
