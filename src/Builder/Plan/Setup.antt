-- ===== src/Builder/Plan/Setup.antt =====
-- What the end of ExecutionPlan::init leaves in the commands: the counters, the dependent commands
-- and the order of execution.
use mathlib.Core.List.{Perm}
use mathlib.Core.List.Perm
use software.Base.{
  ℕ, ◌≡◌, refl, subst, ◌∙◌, true, List, [], ◌∷◌, arith, ◌==◌, if◌then◌else◌, length, mem, distinct,
  distinct-insert, mem-insert, insert, mem-perm, some, ==_iff, ◌||◌, ◌&&◌, sort-perm, sort-IsSorted,
  IsSorted,
}
use software.Builder.Node.{Node, Heap, write, less_during_execution, less_during_execution_asym}
use software.Builder.Plan.{Plan, finish, init, is_valid, setup, add_dependent}
use software.Builder.Plan.Valid.{valid-Rounds}

add_dependent-dependencies :
    (c : ℕ) (ds : List ℕ) (h : Heap) (x : ℕ)
    → ((add_dependent c ds h x).dependencies ≡ (h x).dependencies)
      × ((add_dependent c ds h x).dependencies_left ≡ (h x).dependencies_left)
      × ((add_dependent c ds h x).strict_order ≡ (h x).strict_order)
unfolding add_dependent
add_dependent-dependencies c [] h x = (refl, refl, refl)
add_dependent-dependencies c (d ∷ ds) h x =
    let h' : Heap =
      write h d (record (h d) { dependent_commands = insert c (h d).dependent_commands }) in
    ground (arith, add_dependent-dependencies c ds h' x, ==_iff x d)

add_dependent-dependents :
    (c : ℕ) (ds : List ℕ) (h : Heap) (x y : ℕ)
    → mem y (add_dependent c ds h x).dependent_commands
      ≡ (mem y (h x).dependent_commands || y == c && mem x ds)
unfolding add_dependent
add_dependent-dependents c [] h x y = ground arith
add_dependent-dependents c (d ∷ ds) h x y =
    let h' : Heap =
      write h d (record (h d) { dependent_commands = insert c (h d).dependent_commands }) in
    ground (
      arith,
      add_dependent-dependents c ds h' x y,
      ==_iff x d,
      mem-insert y c (h d).dependent_commands,
    )

abbrev SameInputs : Node → Node → Type 0
SameInputs a b = (a.dependencies ≡ b.dependencies) × (a.strict_order ≡ b.strict_order)

module _ (c : ℕ) (h : Heap) where
  -- One round of the loop in `setup`.
  abbrev count_dependencies : Heap
  count_dependencies = write h c (record (h c) { dependencies_left = length (h c).dependencies })

  abbrev next_heap : Heap
  next_heap = add_dependent c (h c).dependencies count_dependencies

  next_heap_lem :
      (x : ℕ)
      → SameInputs (next_heap x) (h x)
        × ((next_heap x).dependencies_left
            ≡ (if x == c then length (h c).dependencies else (h x).dependencies_left))
  next_heap_lem x =
      ground
        (arith, add_dependent-dependencies c (h c).dependencies count_dependencies x, ==_iff x c)

  next_heap-dependents :
      (x y : ℕ)
      → mem y (next_heap x).dependent_commands
        ≡ (mem y (h x).dependent_commands || y == c && mem x (h y).dependencies)
  next_heap-dependents x y = ground (
    arith,
    add_dependent-dependents c (h c).dependencies count_dependencies x y,
    ==_iff x c,
    ==_iff y c,
  )

setup-SameInputs : (cs : List ℕ) (h : Heap) (x : ℕ) → SameInputs (setup cs h x) (h x)
unfolding setup
setup-SameInputs [] h x = (refl, refl)
setup-SameInputs (c ∷ cs) h x =
    let (a, b) = setup-SameInputs cs (next_heap c h) x in
    let ((a', b'), _) = next_heap_lem c h x in (a ∙ a', b ∙ b')

setup-dependencies_left :
    (cs : List ℕ) (h : Heap) (x : ℕ)
    → (setup cs h x).dependencies_left
      ≡ (if mem x cs then length (h x).dependencies else (h x).dependencies_left)
unfolding setup
setup-dependencies_left [] h x = refl
setup-dependencies_left (c ∷ cs) h x =
    let k = next_heap_lem c h x in
    ground (arith, setup-dependencies_left cs (next_heap c h) x, k.0, k.1, ==_iff x c)

setup-dependents :
    (cs : List ℕ) (h : Heap) (x y : ℕ)
    → mem y (setup cs h x).dependent_commands
      ≡ (mem y (h x).dependent_commands || mem y cs && mem x (h y).dependencies)
unfolding setup
setup-dependents [] h x y = ground arith
setup-dependents (c ∷ cs) h x y =
    let k = next_heap_lem c h y in
    ground (
      arith,
      setup-dependents cs (next_heap c h) x y,
      next_heap-dependents c h x y,
      k.0,
      ==_iff y c,
    )

add_dependent-distinct :
    (c : ℕ) (ds : List ℕ) (h : Heap)
    → ((x : ℕ) → distinct (h x).dependent_commands ≡ true)
    → (x : ℕ) → distinct (add_dependent c ds h x).dependent_commands ≡ true
unfolding add_dependent
add_dependent-distinct c [] h f x = f x
add_dependent-distinct c (d ∷ ds) h f x =
    add_dependent-distinct c ds _
      (λ y. ground (arith, f y, f d, distinct-insert c (h d).dependent_commands)) x

setup-distinct :
    (cs : List ℕ) (h : Heap)
    → ((x : ℕ) → distinct (h x).dependent_commands ≡ true)
    → (x : ℕ) → distinct (setup cs h x).dependent_commands ≡ true
unfolding setup
setup-distinct [] h f x = f x
setup-distinct (c ∷ cs) h f x =
    setup-distinct cs (next_heap c h)
      (add_dependent-distinct c (h c).dependencies (count_dependencies c h)
        (λ y. ground (arith, f y, f c)))
      x

-- What `init` writes into one command `c` of a plan made from `cmds` and `h`.
pub record IsSetUp (cmds : List ℕ) (h : Heap) (p : Plan) (c : ℕ) : Type 0 where
  pub dependencies : (p.heap c).dependencies ≡ (h c).dependencies
  pub dependencies_left : (p.heap c).dependencies_left ≡ length (h c).dependencies
  pub dependents :
      (d : ℕ)
      → mem d (p.heap c).dependent_commands
        ≡ (mem d (h c).dependent_commands || mem d cmds && mem c (h d).dependencies)

-- In a valid plan each command keeps its dependencies, counts all of them as left, and is followed by
-- exactly the commands that depend on it, besides those that were there before.
pub init-IsSetUp :
    (cmds : List ℕ) (h : Heap) (p : Plan) (c : ℕ)
    → init cmds h ≡ some p
    → is_valid p ≡ true
    → mem c cmds ≡ true
    → IsSetUp cmds h p c
unfolding finish
init-IsSetUp cmds h p c e v m =
    let (order, same, _, made) = valid-Rounds cmds h p e v in
    subst (λ q. IsSetUp cmds h q c) made
      (record {
        dependencies = (setup-SameInputs order h c).0;
        dependencies_left = ground (arith, setup-dependencies_left order h c, mem-perm c same);
        dependents = λ d. ground (arith, setup-dependents order h c d, mem-perm d same);
      })

-- Nothing in the heap changes its dependencies.
pub init-dependencies :
    (cmds : List ℕ) (h : Heap) (p : Plan)
    → init cmds h ≡ some p
    → is_valid p ≡ true
    → (x : ℕ) → (p.heap x).dependencies ≡ (h x).dependencies
unfolding finish
init-dependencies cmds h p e v x =
    let (order, _, _, made) = valid-Rounds cmds h p e v in
    subst (λ q. (q.heap x).dependencies ≡ (h x).dependencies) made (setup-SameInputs order h x).0

-- The commands of a valid plan are those that it was made of.
pub valid-perm :
    (cmds : List ℕ) (h : Heap) (p : Plan)
    → init cmds h ≡ some p
    → is_valid p ≡ true
    → Perm p.commands cmds
unfolding finish
valid-perm cmds h p e v =
    let (order, same, _, made) = valid-Rounds cmds h p e v in
    subst (λ q. Perm q.commands cmds) made (Perm.trans (sort-perm _ order) same)

-- No command stands twice among the dependent commands.
pub init-distinct :
    (cmds : List ℕ) (h : Heap) (p : Plan)
    → init cmds h ≡ some p
    → is_valid p ≡ true
    → ((x : ℕ) → distinct (h x).dependent_commands ≡ true)
    → (x : ℕ) → distinct (p.heap x).dependent_commands ≡ true
unfolding finish
init-distinct cmds h p e v f x =
    let (order, _, _, made) = valid-Rounds cmds h p e v in
    subst (λ q. distinct (q.heap x).dependent_commands ≡ true) made (setup-distinct order h f x)

-- The commands of a valid plan stand in the order of execution, sorted by `lessDuringExecution`.
pub init-IsSorted :
    (cmds : List ℕ) (h : Heap) (p : Plan)
    → init cmds h ≡ some p
    → is_valid p ≡ true
    → IsSorted (λ a b. less_during_execution (p.heap a) (p.heap b)) p.commands
unfolding finish
init-IsSorted cmds h p e v =
    let (order, _, _, made) = valid-Rounds cmds h p e v in
    subst (λ q. IsSorted (λ a b. less_during_execution (q.heap a) (q.heap b)) q.commands) made
      (sort-IsSorted _ (λ a b. less_during_execution_asym _ _) order)
