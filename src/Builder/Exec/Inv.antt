-- ===== src/Builder/Exec/Inv.antt =====
-- The invariant of ExecutionPlan::execute: the counters, and which jobs were pushed.
use software.Base.{
  ℕ, suc, ◌≡◌, ◌<◌, sym, ap, subst, ◌∙◌, ◌⊎◌, inl, inr, Bool, true, false, List, [], ◌∷◌, ◌++◌,
  ◌==◌, ==_iff, if◌then◌else◌, length, count_if, count_if-cong, count_if-drop, mem, mem-append,
  distinct, distinct_snoc, arith, ◌&&◌, ◌||◌, not, Bool-cases,
}
use software.Builder.Exec.{
  Status, waiting, queued, notifying, ended, Phase, starting, Config, write_status, is_nil,
  pred_size,
}

-- What `init` and `prepare` make sure of.
pub record IsPlan (cfg : Config) : Type 0 where
  pub distinct_commands : distinct cfg.commands ≡ true
  pub distinct_dependencies : (d : ℕ) → distinct (cfg.dependencies d) ≡ true
  pub distinct_dependents : (c : ℕ) → distinct (cfg.dependents c) ≡ true
  pub closed :
      (d c : ℕ)
      → mem d cfg.commands ≡ true
      → mem c (cfg.dependencies d) ≡ true
      → mem c cfg.commands ≡ true
  pub dependents_iff :
      (c d : ℕ)
      → mem c cfg.commands ≡ true
      → mem d (cfg.dependents c) ≡ (mem d cfg.commands && mem c (cfg.dependencies d))
  pub counted : (c : ℕ) → mem c cfg.commands ≡ true → cfg.counters c ≡ length (cfg.dependencies c)

abbrev pub is_waiting : Status → Bool
is_waiting waiting = true
is_waiting _ = false

-- Whether a command in this status has still to count down its dependent command `d`.
abbrev pub owes : Status → ℕ → Bool
owes (notifying ds) d = mem d ds
owes ended d = false
owes _ d = true

-- Whether the calling thread has still to push command `d` in its first loop.
abbrev pub is_ahead : Config → Phase → ℕ → Bool
is_ahead cfg (starting cs) d = mem d cs && is_nil (cfg.dependencies d)
is_ahead cfg _ d = false

abbrev pub WellNotifying : Config → ℕ → Status → Type 0
WellNotifying cfg c (notifying ds) =
    (distinct ds ≡ true) × ((d : ℕ) → mem d ds ≡ true → mem d (cfg.dependents c) ≡ true)
WellNotifying cfg c _ = Unit

pub record Inv (cfg : Config) (status : ℕ → Status) (left : ℕ → ℕ) (all : List ℕ) (ahead : ℕ → Bool)
    : Type 0 where
  pub counts :
      (d : ℕ)
      → mem d cfg.commands ≡ true
      → left d ≡ count_if (λ c. owes (status c) d) (cfg.dependencies d)
  pub known : (c : ℕ) → is_waiting (status c) ≡ false → mem c cfg.commands ≡ true
  pub well : (c : ℕ) → WellNotifying cfg c (status c)
  pub ready : (d : ℕ) → is_waiting (status d) ≡ false → left d ≡ 0
  pub blocked :
      (d : ℕ)
      → mem d cfg.commands ≡ true
      → is_waiting (status d) ≡ true
      → (0 < left d) ⊎ (ahead d ≡ true)
  pub pushed : (c : ℕ) → mem c all ≡ not (is_waiting (status c))
  pub once : distinct all ≡ true

module _ (cfg : Config) (plan : IsPlan cfg) where
  module _ (status : ℕ → Status) (left : ℕ → ℕ) (all : List ℕ) (ahead : ℕ → Bool)
      (v : Inv cfg status left all ahead) (c : ℕ) (new : Status) where
    owes-write :
        (d : ℕ)
        → mem d cfg.commands ≡ true
        → (mem c (cfg.dependencies d) ≡ true → owes (status c) d ≡ owes new d)
        → left d ≡ count_if (λ x. owes (write_status status c new x) d) (cfg.dependencies d)
    owes-write d m same =
        v.counts d m
        ∙ count_if-cong _ _ (cfg.dependencies d) λ x k. elim (Bool-cases (x == c)) [
          | inl e ↦
              let f = (==_iff x c).0 e in
              rw e (
                ap (λ y. owes (status y) d) f
                ∙ same (ap (λ y. mem y (cfg.dependencies d)) (sym f) ∙ k))
          | inr e ↦ rw e
        ]

    -- A job that was pushed goes on, and owes its dependent commands what it owed before.
    pub move-Inv :
        is_waiting (status c) ≡ false
        → is_waiting new ≡ false
        → WellNotifying cfg c new
        → ((d : ℕ)
            → mem d cfg.commands ≡ true
            → mem c (cfg.dependencies d) ≡ true
            → owes (status c) d ≡ owes new d)
        → Inv cfg (write_status status c new) left all ahead
    move-Inv old w well same = record {
      counts = λ d m. owes-write d m (same d m);
      known = λ x h. ground (arith, v.known x, ==_iff x c);
      well = λ x. elim (Bool-cases (x == c)) [
        | inl e ↦ rw e (rw ((==_iff x c).0 e) well)
        | inr e ↦ rw e (v.well x)
      ];
      ready = λ x h. ground (arith, v.ready x, ==_iff x c);
      blocked = λ x m h. ground (arith, v.blocked x);
      pushed = λ x. ground (arith, v.pushed x, ==_iff x c);
      once = v.once;
    }

  module _ (status : ℕ → Status) (left : ℕ → ℕ) (all : List ℕ) (ahead : ℕ → Bool)
      (v : Inv cfg status left all ahead) (c : ℕ) where
    -- A waiting command whose counter is zero is pushed.
    pub push-Inv :
        (ahead' : ℕ → Bool)
        → mem c cfg.commands ≡ true
        → status c ≡ waiting
        → left c ≡ 0
        → ((x : ℕ) → (x == c) ≡ false → ahead x ≡ true → ahead' x ≡ true)
        → Inv cfg (write_status status c queued) left (all ++ c ∷ []) ahead'
    push-Inv ahead' m old none_left still = record {
      counts = λ d k. owes-write status left all ahead v c queued d k (λ n. rw old);
      known = λ x h. ground (arith, v.known x, ==_iff x c);
      well = λ x. elim (Bool-cases (x == c)) [ inl e ↦ rw e tt | inr e ↦ rw e (v.well x) ];
      ready = λ x h. ground (arith, v.ready x, ==_iff x c, λ (e : x ≡ c). ap left e);
      blocked = λ x k h. ground (arith, v.blocked x, still x);
      pushed = λ x. ground (arith, v.pushed x, mem-append x all (c ∷ []), ==_iff x c);
      once = ground (arith, distinct_snoc c all, v.pushed c);
    }

  module _ (status : ℕ → Status) (left : ℕ → ℕ) (all : List ℕ) (ahead : ℕ → Bool)
      (v : Inv cfg status left all ahead) (c d : ℕ) (ds : List ℕ)
      (at : status c ≡ notifying (d ∷ ds)) where
    abbrev after : ℕ → Status
    after = write_status status c (notifying ds)

    abbrev left_after : ℕ → ℕ
    left_after x = if x == d then pred_size (left d) else left x

    pub notifying-known :
        (mem c cfg.commands ≡ true)
        × (mem d cfg.commands ≡ true)
        × (mem c (cfg.dependencies d) ≡ true)
    notifying-known =
        let w : WellNotifying cfg c (notifying (d ∷ ds)) =
          subst (WellNotifying cfg c) at (v.well c) in
        let m = v.known c (rw at) in
        let n = w.1 d (ground arith) in ground (arith, plan.dependents_iff c d m)

    -- The counter of `d` goes down by one, and so does the number of those that owe it.
    pub left-count_down : left d ≡ suc (count_if (λ x. owes (after x) d) (cfg.dependencies d))
    left-count_down =
        let w : WellNotifying cfg c (notifying (d ∷ ds)) =
          subst (WellNotifying cfg c) at (v.well c) in
        let (m, n, k) = notifying-known in
        v.counts d n
        ∙ count_if-drop _ _ (cfg.dependencies d) c (plan.distinct_dependencies d) k
            (rw at (ground arith)) (ground arith) (λ y e. ground (arith, ==_iff c y, ==_iff y c))

    pub count_down-Inv : Inv cfg after left_after all (λ x. x == d || ahead x)
    count_down-Inv =
        let w : WellNotifying cfg c (notifying (d ∷ ds)) =
          subst (WellNotifying cfg c) at (v.well c) in
        let one = left-count_down in
        let old : is_waiting (status c) ≡ false = rw at in
        record {
          counts = λ x m. elim (Bool-cases (x == d)) [
            | inl e ↦
                subst (λ y. left_after y ≡ count_if (λ z. owes (after z) y) (cfg.dependencies y))
                  (sym ((==_iff x d).0 e)) (ground arith)
            | inr e ↦ rw e (
                owes-write status left all ahead v c (notifying ds) x m (λ k. rw at (ground arith)))
          ];
          known = λ x h. ground (arith, v.known x, ==_iff x c);
          well = λ x. elim (Bool-cases (x == c)) [
            | inl e ↦ rw e (rw ((==_iff x c).0 e) (ground arith, λ y k. w.1 y (ground arith)))
            | inr e ↦ rw e (v.well x)
          ];
          ready = λ x h. ground (arith, v.ready x, ==_iff x c, ==_iff x d);
          blocked = λ x m h. ground (arith, v.blocked x);
          pushed = λ x. ground (arith, v.pushed x, ==_iff x c);
          once = v.once;
        }

  -- A command that the calling thread need not push is one that still has a counter above zero.
  pub settle-Inv :
      (status : ℕ → Status) (left : ℕ → ℕ) (all : List ℕ) (ahead ahead' : ℕ → Bool)
      → Inv cfg status left all ahead
      → ((d : ℕ) → mem d cfg.commands ≡ true → ahead d ≡ true → (0 < left d) ⊎ (ahead' d ≡ true))
      → Inv cfg status left all ahead'
  settle-Inv status left all ahead ahead' v h = record {
    counts = v.counts;
    known = v.known;
    well = v.well;
    ready = v.ready;
    blocked = λ d m w. elim (v.blocked d m w) [ inl l ↦ inl l | inr a ↦ h d m a ];
    pushed = v.pushed;
    once = v.once;
  }
