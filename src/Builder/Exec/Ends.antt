-- ===== src/Builder/Exec/Ends.antt =====
-- How ExecutionPlan::execute ends.
use software.Base.{
  ℕ, suc, ◌≡◌, refl, sym, ap, subst, ◌∙◌, inl, inr, Bool, true, false, List, [], ◌∷◌, ◌++◌, ◌==◌,
  ==_iff, arith, mem, mem-append, some-eq, ◌||◌, not, Bool-cases, append-nil, append_assoc, length,
  some, length-append, count_if-zero,
}
use software.Builder.Exec.{
  Status, waiting, ended, failed, dropped, Phase, starting, head, awaiting, draining, returned,
  Outcome, success, Config, Exec, is_nil, is_finished, is_failed, push, main, result, Step, enters,
  starts, succeeds, fails, notifies, finishes, interrupts, mains, Reach, here, next, initial,
}
use software.Builder.Exec.Inv.{IsPlan, is_waiting}
use software.Builder.Exec.Safe.{RootsFirst, IsSafe}
use software.Builder.Exec.Steps.{initial-IsSafe, Reach-IsSafe, notify-waiting, main-waiting}
use software.Builder.Exec.Kept.{
  is_dropped, is_stopping, enter-Kept, start-Kept, succeed-Kept, fail-Kept, finish-Kept,
  notify-Kept, interrupt-Kept,
}
use software.Builder.Exec.Waits.{Waited, Rest, all_finished, Kept-Waited}

is_finished-not_waiting : (x : Status) → is_finished x ≡ true → is_waiting x ≡ false
is_finished-not_waiting waiting h = cc
is_finished-not_waiting _ h = refl

is_finished-ended :
    (x : Status) → is_finished x ≡ true → is_failed x ≡ false → is_dropped x ≡ false → x ≡ ended
is_finished-ended ended h f d = refl
is_finished-ended failed h f d = absurd (cc)
is_finished-ended dropped h f d = absurd (cc)
is_finished-ended _ h f d = absurd (cc)

is_nil-eq : (xs : List ℕ) → is_nil xs ≡ true → xs ≡ []
is_nil-eq [] h = refl
is_nil-eq (x ∷ xs) h = absurd (cc)

Rest-returned :
    (cfg : Config) (t : Exec) (o : Outcome) (others : List ℕ)
    → (o ≡ success → Rest cfg t (returned success) others)
    → Rest cfg t (returned o) others
Rest-returned cfg t success others h = h refl
Rest-returned cfg t _ others h = tt

module _ (cfg : Config) (plan : IsPlan cfg) (s : Exec) (v : IsSafe cfg s) (w : Waited cfg s) where
  -- A step that leaves the jobs alone and changes the phase.
  phase-Waited :
      (t : Exec)
      → t.status ≡ s.status
      → t.all ≡ s.all
      → t.i ≡ s.i
      → is_stopping t ≡ is_stopping s
      → Rest cfg t t.phase w.others
      → Waited cfg t
  phase-Waited t a b d e r = record {
    waited = w.waited;
    others = w.others;
    split = b ∙ w.split;
    counted = d ∙ w.counted;
    done = λ c m. rw a (w.done c m);
    drops = λ x h. e ∙ w.drops x (rw a at h);
    rest = r;
  }

  push-Waited :
      (c : ℕ) (cs : List ℕ)
      → s.status c ≡ waiting
      → w.others ≡ s.fs
      → Waited cfg (record (push c s) { phase = starting cs })
  unfolding push
  push-Waited c cs idle r = record {
    waited = w.waited;
    others = w.others ++ c ∷ [];
    split = ap (λ l. l ++ c ∷ []) w.split ∙ append_assoc w.waited w.others (c ∷ []);
    counted = w.counted;
    done = λ x m. let f = w.done x m in ground (arith, ==_iff x c, λ (q : x ≡ c). ap s.status q);
    drops = λ x h. ground (arith, w.drops x);
    rest = ap (λ l. l ++ c ∷ []) r;
  }

  take-Waited :
      (c : ℕ) (batch : List ℕ) (was_empty : Bool)
      → is_finished (s.status c) ≡ true
      → Rest cfg s (awaiting (c ∷ batch) was_empty) w.others
      → Waited cfg (record s { i = suc s.i; phase = awaiting batch was_empty })
  take-Waited c batch was_empty f r = record {
    waited = w.waited ++ c ∷ [];
    others = batch ++ s.fs;
    split =
        w.split
        ∙ (ap (λ l. w.waited ++ l) r.0 ∙ sym (append_assoc w.waited (c ∷ []) (batch ++ s.fs)));
    counted = omega (arith, w.counted, length-append w.waited (c ∷ []));
    done = λ x m.
        ground (
          arith,
          w.done x,
          mem-append x w.waited (c ∷ []),
          ==_iff x c,
          λ (q : x ≡ c). ap s.status q,
        );
    drops = w.drops;
    rest = (refl, λ e. absurd (cc (r.1 e)));
  }

  result-success :
      (expired : Bool) → result cfg expired s ≡ success → Rest cfg s (returned success) w.others
  unfolding result
  result-success expired e =
      let n : s.i ≡ length cfg.commands = ground arith in
      (
        n,
        λ h c m.
            count_if-zero (λ x. is_failed (s.status x)) s.all c
              (v.inv.pushed c
                ∙ ap not (is_finished-not_waiting (s.status c) (all_finished cfg s v w n c m)))
              (ground arith),
      )

  main-Waited :
      (expired : Bool) (t : Exec) (p : Phase)
      → s.phase ≡ p
      → main cfg expired p s ≡ some t
      → Waited cfg t
  unfolding main
  main-Waited expired t (starting []) at e =
      let r : w.others ≡ s.fs = subst (λ p. Rest cfg s p w.others) at w.rest in
      subst (Waited cfg) (some-eq e) (
        phase-Waited _ refl refl refl refl
          (elim (Bool-cases (is_nil s.fs)) [ inl n ↦ rw n tt | inr n ↦ rw n r ]))
  main-Waited expired t (starting (c ∷ cs)) at e =
      let r : w.others ≡ s.fs = subst (λ p. Rest cfg s p w.others) at w.rest in
      elim (Bool-cases (is_nil (cfg.dependencies c))) [
        | inl n ↦
            subst (Waited cfg) (some-eq (rw n at e))
              (push-Waited c cs (main-waiting cfg plan s v c cs at n) r)
        | inr n ↦ subst (Waited cfg) (some-eq (rw n at e)) (phase-Waited _ refl refl refl refl r)
      ]
  main-Waited expired t head at e =
      let r : w.others ≡ s.fs = subst (λ p. Rest cfg s p w.others) at w.rest in
      elim (Bool-cases (s.i == length cfg.commands)) [
        | inl n ↦
            subst (Waited cfg) (some-eq (rw n at e))
              (phase-Waited _ refl refl refl refl (inl (inl ((==_iff _ _).0 n))))
        | inr n ↦ subst (Waited cfg) (some-eq (rw n at e)) (
            phase-Waited _ refl refl refl refl
              (r ∙ sym (append-nil s.fs), λ b. r ∙ is_nil-eq s.fs b))
      ]
  main-Waited expired t (awaiting (c ∷ batch) was_empty) at e =
      elim (Bool-cases (is_finished (s.status c))) [
        | inl n ↦
            subst (Waited cfg) (some-eq (rw n at e))
              (take-Waited c batch was_empty n (subst (λ p. Rest cfg s p w.others) at w.rest))
        | inr n ↦ absurd (cc (rw n at e))
      ]
  main-Waited expired t (awaiting [] was_empty) at e =
      let r : Rest cfg s (awaiting [] was_empty) w.others =
        subst (λ p. Rest cfg s p w.others) at w.rest in
      subst (Waited cfg) (some-eq e) (
        phase-Waited _ refl refl refl refl
          (elim (Bool-cases (s.stopped || was_empty || s.interrupted)) [
            | inl n ↦ rw n (elim (Bool-cases was_empty) [
              | inl b ↦ inl (inr (r.1 b))
              | inr b ↦ inr (ground arith)
            ])
            | inr n ↦ rw n r.0
          ]))
  main-Waited expired t draining at e = elim (Bool-cases (s.running_jobs == 0)) [
    | inl n ↦ subst (Waited cfg) (some-eq (rw n at e)) (
        phase-Waited _ refl refl refl refl (
          Rest-returned cfg (record s { phase = returned (result cfg expired s) })
            (result cfg expired s) w.others (result-success expired)))
    | inr n ↦ absurd (cc (rw n at e))
  ]
  main-Waited expired t (returned o) at e = absurd (cc)

  Step-Waited : {t : Exec} → Step cfg s t → Waited cfg t
  Step-Waited (enters c at) = Kept-Waited cfg s v w _ (enter-Kept cfg s c at)
  Step-Waited (starts c at) = Kept-Waited cfg s v w _ (start-Kept cfg s c at)
  Step-Waited (succeeds c at) = Kept-Waited cfg s v w _ (succeed-Kept cfg s c at)
  Step-Waited (fails c at) = Kept-Waited cfg s v w _ (fail-Kept cfg s c at)
  Step-Waited (notifies c d ds at) =
      Kept-Waited cfg s v w _ (notify-Kept cfg s c d ds at (notify-waiting cfg plan s v c d ds at))
  Step-Waited (finishes c expired at) = Kept-Waited cfg s v w _ (finish-Kept cfg s c expired at)
  Step-Waited interrupts = Kept-Waited cfg s v w _ (interrupt-Kept cfg s)
  Step-Waited (mains expired t e) = main-Waited expired t s.phase refl e

module _ (cfg : Config) (plan : IsPlan cfg) (roots : RootsFirst cfg cfg.commands) where
  initial-Waited : Waited cfg (initial cfg)
  unfolding initial
  initial-Waited = record {
    waited = [];
    others = [];
    split = refl;
    counted = refl;
    done = λ c m. absurd (cc);
    drops = λ x h. absurd (cc);
    rest = refl;
  }

  Reach-Waited : {s : Exec} → Reach cfg (initial cfg) s → Waited cfg s
  Reach-Waited here = initial-Waited
  Reach-Waited (next {t = t} r st) =
      Step-Waited cfg plan t (Reach-IsSafe cfg plan (initial-IsSafe cfg plan roots) r)
        (Reach-Waited r) st

-- When `execute` returns normally, throws on errors, and was neither interrupted nor stopped by the
-- time limit, then every command of the plan was executed to the end.
pub success-ended :
    (cfg : Config) (s : Exec) (c : ℕ)
    → IsPlan cfg
    → RootsFirst cfg cfg.commands
    → Reach cfg (initial cfg) s
    → s.phase ≡ returned success
    → cfg.throw_on_errors ≡ true
    → is_stopping s ≡ false
    → mem c cfg.commands ≡ true
    → s.status c ≡ ended
success-ended cfg s c plan roots r p throws calm m =
    let w : Waited cfg s = Reach-Waited cfg plan roots r in
    let v : IsSafe cfg s = Reach-IsSafe cfg plan (initial-IsSafe cfg plan roots) r in
    let q : Rest cfg s (returned success) w.others = subst (λ p. Rest cfg s p w.others) p w.rest in
    is_finished-ended (s.status c) (all_finished cfg s v w q.0 c m) (q.1 throws c m)
      (ground (arith, w.drops c))
