-- ===== src/Builder/Exec/Prepared.antt =====
-- From a valid plan to the start of ExecutionPlan::execute: what `init` leaves is what `execute` needs.
use software.Base.{
  ℕ, ◌≡◌, ◌≤◌, refl, sym, ap, ◌∙◌, inl, inr, Bool, true, false, List, [], ◌∷◌, ◌==◌, ==_iff, arith,
  mem, distinct, mem-perm, distinct-perm, some, length, IsSorted, ℤ, or-cases,
}
use software.Builder.Node.{Heap, less_during_execution, less_during_execution-length}
use software.Builder.Plan.{Plan, init, is_valid}
use software.Builder.Plan.Setup.{
  init-IsSetUp, init-dependencies, init-distinct, init-IsSorted, valid-perm,
}
use software.Builder.Exec.{config, is_nil}
use software.Builder.Exec.Inv.{IsPlan}
use software.Builder.Exec.Safe.{RootsFirst}

-- What ExecutionPlan::prepare makes sure of before `init`, for commands that no plan held before.
pub record IsPrepared (cmds : List ℕ) (h : Heap) : Type 0 where
  pub distinct_cmds : distinct cmds ≡ true
  pub distinct_dependencies : (c : ℕ) → distinct (h c).dependencies ≡ true
  pub fresh : (c : ℕ) → (h c).dependent_commands ≡ []
  pub closed : (c d : ℕ) → mem c cmds ≡ true → mem d (h c).dependencies ≡ true → mem d cmds ≡ true

module _ (h : Heap) where
  abbrev Sorted : List ℕ → Type 0
  Sorted = IsSorted (λ a b. less_during_execution (h a) (h b))

  Sorted-tail : (x : ℕ) (xs : List ℕ) → Sorted (x ∷ xs) → Sorted xs
  Sorted-tail x [] s = tt
  Sorted-tail x (y ∷ ys) s = s.1

  Sorted-length :
      (x : ℕ) (xs : List ℕ)
      → Sorted (x ∷ xs)
      → (d : ℕ) → mem d xs ≡ true
      → length (h x).dependencies ≤ length (h d).dependencies
  Sorted-length x [] s d m = absurd (cc)
  Sorted-length x (y ∷ ys) s d m =
      let first = less_during_execution-length (h y) (h x) s.0 in
      elim (or-cases (d == y) (mem d ys) m) [
        | inl e ↦ rw ((==_iff d y).0 e) first
        | inr e ↦ omega (arith, Sorted-length y ys s.1 d e)
      ]

is_nil-length : (xs ys : List ℕ) → length xs ≤ length ys → is_nil xs ≡ false → is_nil ys ≡ false
is_nil-length [] ys l h = cc
is_nil-length (x ∷ xs) [] l h = absurd (omega arith)
is_nil-length (x ∷ xs) (y ∷ ys) l h = refl

module _ (p : Plan) (skip : ℤ) (throws limited : Bool) where
  Sorted-RootsFirst :
      (cs : List ℕ) → Sorted p.heap cs → RootsFirst (config p skip throws limited) cs
  unfolding config
  Sorted-RootsFirst [] s = tt
  Sorted-RootsFirst (c ∷ cs) s = (
    λ r d m.
        is_nil-length (p.heap c).dependencies (p.heap d).dependencies
          (Sorted-length p.heap c cs s d m) r,
    Sorted-RootsFirst cs (Sorted-tail p.heap c cs s),
  )

  -- For prepared commands a valid plan meets what `execute` relies on: distinct commands, closed
  -- dependencies, dependent commands that are exactly the inverse of the dependencies, and counters
  -- equal to the number of dependencies.
  pub config-IsPlan :
      (cmds : List ℕ) (h : Heap)
      → IsPrepared cmds h
      → init cmds h ≡ some p
      → is_valid p ≡ true
      → IsPlan (config p skip throws limited)
  unfolding config
  config-IsPlan cmds h ready e v =
      let same = valid-perm cmds h p e v in
      let deps = init-dependencies cmds h p e v in
      record {
        distinct_commands = distinct-perm same ∙ ready.distinct_cmds;
        distinct_dependencies = λ d. rw (deps d) (ready.distinct_dependencies d);
        distinct_dependents = init-distinct cmds h p e v (λ x. rw (ready.fresh x));
        closed = λ d c m k.
            mem-perm c same ∙ ready.closed d c (sym (mem-perm d same) ∙ m) (rw (deps d) at k);
        dependents_iff = λ c d m.
            (init-IsSetUp cmds h p c e v (sym (mem-perm c same) ∙ m)).dependents d
            ∙ ground (arith, ready.fresh c, mem-perm d same, deps d);
        counted = λ c m.
            (init-IsSetUp cmds h p c e v (sym (mem-perm c same) ∙ m)).dependencies_left
            ∙ ap length (sym (deps c));
      }

  -- The loop that pushes the commands without dependencies and stops at the first other command
  -- misses none.
  pub config-RootsFirst :
      (cmds : List ℕ) (h : Heap)
      → init cmds h ≡ some p
      → is_valid p ≡ true
      → RootsFirst (config p skip throws limited) p.commands
  config-RootsFirst cmds h e v = Sorted-RootsFirst p.commands (init-IsSorted cmds h p e v)
