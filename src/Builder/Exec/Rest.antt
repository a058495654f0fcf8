-- ===== src/Builder/Exec/Rest.antt =====
-- A run of ExecutionPlan::execute cannot come to rest before every command was executed.
use software.Base.{
  ℕ, ◌≡◌, refl, sym, ◌∙◌, ◌⊎◌, inl, inr, Bool, true, false, List, [], ◌∷◌, ◌++◌, ◌==◌, ==_iff,
  arith, mem, mem-append, or-cases, count_if_eq_zero,
}
use software.Builder.Exec.{Status, waiting, ended, Phase, starting, Config, Exec, initial, Reach}
use software.Builder.Exec.Inv.{IsPlan, is_waiting, is_ahead}
use software.Builder.Exec.Safe.{RootsFirst, IsSafe}
use software.Builder.Exec.Steps.{initial-IsSafe, Reach-IsSafe}

-- Every command of the list has its dependencies in `seen` or before it.
abbrev pub Follows : Config → (seen : List ℕ) → List ℕ → Type 0
Follows cfg seen [] = Unit
Follows cfg seen (c ∷ cs) =
    ((d : ℕ) → mem d (cfg.dependencies c) ≡ true → mem d seen ≡ true)
    × Follows cfg (seen ++ c ∷ []) cs

-- No job is in the executor: each was not pushed, or has ended well.
abbrev pub is_quiet : Status → Bool
is_quiet waiting = true
is_quiet ended = true
is_quiet _ = false

abbrev pub is_starting : Phase → Bool
is_starting (starting cs) = true
is_starting _ = false

is_ahead-is_starting :
    (cfg : Config) (p : Phase) (d : ℕ) → is_starting p ≡ false → is_ahead cfg p d ≡ false
is_ahead-is_starting cfg (starting cs) d h = cc
is_ahead-is_starting cfg _ d h = refl

is_quiet-cases : (x : Status) → is_quiet x ≡ true → (x ≡ ended) ⊎ (is_waiting x ≡ true)
is_quiet-cases waiting h = inr refl
is_quiet-cases ended h = inl refl
is_quiet-cases _ h = absurd (cc)

module _ (cfg : Config) (s : Exec) (v : IsSafe cfg s)
    (quiet : (c : ℕ) → mem c cfg.commands ≡ true → is_quiet (s.status c) ≡ true)
    (pushed : is_starting s.phase ≡ false) where
  quiet-ended :
      (c : ℕ)
      → mem c cfg.commands ≡ true
      → ((d : ℕ) → mem d (cfg.dependencies c) ≡ true → s.status d ≡ ended)
      → s.status c ≡ ended
  quiet-ended c m done = elim (is_quiet-cases (s.status c) (quiet c m)) [
    | inl e ↦ e
    | inr e ↦
        let none_left =
          v.inv.counts c m ∙ count_if_eq_zero _ (cfg.dependencies c) (λ d k. rw (done d k)) in
        absurd (ground (arith, v.inv.blocked c m e, is_ahead-is_starting cfg s.phase c pushed))
  ]

  quiet-all_ended :
      (seen order : List ℕ)
      → Follows cfg seen order
      → ((c : ℕ) → mem c seen ≡ true → s.status c ≡ ended)
      → ((c : ℕ) → mem c order ≡ true → mem c cfg.commands ≡ true)
      → (c : ℕ) → mem c order ≡ true
      → s.status c ≡ ended
  quiet-all_ended seen [] f done sub c m = absurd (cc)
  quiet-all_ended seen (x ∷ xs) f done sub c m =
      let first = quiet-ended x (sub x (ground arith)) (λ d k. done d (f.0 d k)) in
      elim (or-cases (c == x) (mem c xs) m) [
        | inl e ↦ rw ((==_iff c x).0 e) first
        | inr e ↦
            quiet-all_ended (seen ++ x ∷ []) xs f.1
              (λ d k.
                elim (or-cases (mem d seen) (d == x) (ground (arith, mem-append d seen (x ∷ [])))) [
                  | inl a ↦ done d a
                  | inr a ↦ rw ((==_iff d x).0 a) first
                ])
              (λ d k. sub d (ground arith)) c e
      ]

-- No deadlock, in a plan whose commands can be put in an order in which each follows its
-- dependencies: once the first loop is over, a state in which no job is left in the executor, and none
-- failed or was dropped, is one in which every command was executed.
pub rest-ended :
    (cfg : Config) (s : Exec) (order : List ℕ)
    → IsPlan cfg
    → RootsFirst cfg cfg.commands
    → Follows cfg [] order
    → ((c : ℕ) → mem c order ≡ mem c cfg.commands)
    → Reach cfg (initial cfg) s
    → is_starting s.phase ≡ false
    → ((c : ℕ) → mem c cfg.commands ≡ true → is_quiet (s.status c) ≡ true)
    → (c : ℕ) → mem c cfg.commands ≡ true
    → s.status c ≡ ended
rest-ended cfg s order plan roots f same r pushed quiet c m =
    let v : IsSafe cfg s = Reach-IsSafe cfg plan (initial-IsSafe cfg plan roots) r in
    quiet-all_ended cfg s v quiet pushed [] order f (λ d k. absurd (cc)) (λ d k. sym (same d) ∙ k) c
      (same c ∙ m)
