-- ===== src/Builder/Exec/Waits.antt =====
-- What the calling thread of ExecutionPlan::execute has waited for.
use software.Base.{
  ℕ, ◌≡◌, sym, ap, subst, ◌∙◌, ◌⊎◌, inl, inr, true, false, List, [], ◌∷◌, ◌++◌, arith, mem,
  mem-append, distinct, Bool-cases, append_assoc, length, ◌≢◌, mem_of_length, distinct_prefix,
}
use software.Builder.Exec.{
  running, Phase, starting, head, awaiting, draining, returned, success, Config, Exec, is_finished,
  is_failed,
}
use software.Builder.Exec.Inv.{is_waiting}
use software.Builder.Exec.Safe.{IsSafe}
use software.Builder.Exec.Kept.{Kept, is_stopping, is_dropped}

-- What of `all` is still to be waited for, by phase, or why the loop ended.
abbrev pub Rest : Config → Exec → Phase → List ℕ → Type 0
Rest cfg s (starting cs) others = others ≡ s.fs
Rest cfg s head others = others ≡ s.fs
Rest cfg s (awaiting batch was_empty) others =
    (others ≡ batch ++ s.fs) × (was_empty ≡ true → others ≡ [])
Rest cfg s draining others = ((s.i ≡ length cfg.commands) ⊎ (others ≡ [])) ⊎ (is_stopping s ≡ true)
Rest cfg s (returned success) others =
    (s.i ≡ length cfg.commands)
    × (cfg.throw_on_errors ≡ true
        → (c : ℕ) → mem c cfg.commands ≡ true
        → is_failed (s.status c) ≡ false)
Rest cfg s (returned o) others = Unit

pub record Waited (cfg : Config) (s : Exec) : Type 0 where
  pub waited : List ℕ
  pub others : List ℕ
  pub split : s.all ≡ waited ++ others
  pub counted : s.i ≡ length waited
  pub done : (c : ℕ) → mem c waited ≡ true → is_finished (s.status c) ≡ true
  pub drops : (x : ℕ) → is_dropped (s.status x) ≡ true → is_stopping s ≡ true
  pub rest : Rest cfg s s.phase others

module _ (cfg : Config) (s : Exec) (v : IsSafe cfg s) (w : Waited cfg s) where
  -- Once as many jobs have been waited for as there are commands, every command has finished.
  pub all_finished :
      s.i ≡ length cfg.commands
      → (c : ℕ) → mem c cfg.commands ≡ true
      → is_finished (s.status c) ≡ true
  all_finished e c m = w.done c (
      mem_of_length w.waited cfg.commands
        (distinct_prefix w.waited w.others (ap distinct (sym w.split) ∙ v.inv.once))
        (λ x k.
          v.inv.known x
            (ground (arith, v.inv.pushed x, ap (mem x) w.split, mem-append x w.waited w.others)))
        (omega (arith, w.counted)) c m)

  -- A pushed job that has not finished is among the others.
  unfinished-others :
      (c : ℕ) → is_finished (s.status c) ≡ false → is_waiting (s.status c) ≡ false → w.others ≢ []
  unfinished-others c u n e =
      let m = w.done c (
        ground (
          arith,
          v.inv.pushed c,
          ap (mem c) w.split,
          mem-append c w.waited w.others,
          ap (mem c) e,
        )) in
      cc

  module _ (t : Exec) (k : Kept s t) where
    not_failed :
        Rest cfg s (returned success) w.others
        → cfg.throw_on_errors ≡ true
        → (c : ℕ) → mem c cfg.commands ≡ true
        → is_failed (t.status c) ≡ false
    not_failed r e c m = elim (Bool-cases (is_failed (t.status c))) [
      | inr f ↦ f
      | inl f ↦ elim (k.failures c f) [
        | inl g ↦ absurd (cc (r.1 e c m))
        | inr g ↦
            let h : is_finished running ≡ true =
              subst (λ x. is_finished x ≡ true) g (all_finished r.0 c m) in
            absurd (cc)
      ]
    ]

    Rest-same : (p : Phase) → t.fs ≡ s.fs → Rest cfg s p w.others → Rest cfg t p w.others
    Rest-same (starting cs) f r = rw f r
    Rest-same head f r = rw f r
    Rest-same (awaiting batch was_empty) f r = rw f r
    Rest-same draining f r = elim r [
      | inl (inl e) ↦ inl (inl (k.i_same ∙ e))
      | inl (inr e) ↦ inl (inr e)
      | inr e ↦ inr (k.flags e)
    ]
    Rest-same (returned success) f r = (k.i_same ∙ r.0, not_failed r)
    Rest-same (returned _) f r = tt

    Rest-grown :
        (p : Phase) (c d : ℕ)
        → t.fs ≡ s.fs ++ d ∷ []
        → is_finished (s.status c) ≡ false
        → is_waiting (s.status c) ≡ false
        → Rest cfg s p w.others
        → Rest cfg t p (w.others ++ d ∷ [])
    Rest-grown (starting cs) c d f u n r = rw f (ap (λ l. l ++ d ∷ []) r)
    Rest-grown head c d f u n r = rw f (ap (λ l. l ++ d ∷ []) r)
    Rest-grown (awaiting batch was_empty) c d f u n r = (
      rw f (ap (λ l. l ++ d ∷ []) r.0 ∙ append_assoc batch s.fs (d ∷ [])),
      λ e. absurd (unfinished-others c u n (r.1 e)),
    )
    Rest-grown draining c d f u n r = elim r [
      | inl (inl e) ↦ inl (inl (k.i_same ∙ e))
      | inl (inr e) ↦ absurd (unfinished-others c u n e)
      | inr e ↦ inr (k.flags e)
    ]
    Rest-grown (returned success) c d f u n r = (k.i_same ∙ r.0, not_failed r)
    Rest-grown (returned _) c d f u n r = tt

    pub Kept-Waited : Waited cfg t
    Kept-Waited = elim k.grew [
      | inl (a, f) ↦ record {
        waited = w.waited;
        others = w.others;
        split = a ∙ w.split;
        counted = k.i_same ∙ w.counted;
        done = λ c m. ap is_finished (k.finished c (w.done c m)) ∙ w.done c m;
        drops = λ x h. ground (arith, k.drops x h, w.drops x, k.flags);
        rest = rw k.phase_same (Rest-same s.phase f w.rest);
      }
      | inr (c, d, a, f, u, n) ↦ record {
        waited = w.waited;
        others = w.others ++ d ∷ [];
        split = a ∙ (ap (λ l. l ++ d ∷ []) w.split ∙ append_assoc w.waited w.others (d ∷ []));
        counted = k.i_same ∙ w.counted;
        done = λ x m. ap is_finished (k.finished x (w.done x m)) ∙ w.done x m;
        drops = λ x h. ground (arith, k.drops x h, w.drops x, k.flags);
        rest = rw k.phase_same (Rest-grown s.phase c d f u n w.rest);
      }
    ]
