-- ===== src/Builder/Plan.antt =====
-- src/sw/builder/execution_plan.h and .cpp: the plan, and ExecutionPlan::init, which orders the
-- commands in rounds, counts what each one waits for and sorts them for execution.
pub mod Order
pub mod Valid
pub mod Setup
use software.Base.{
  ℕ, zero, suc, Bool, true, false, List, [], ◌∷◌, ◌++◌, ◌==◌, if◌then◌else◌, length, count_if,
  insert, mem, Option, none, some, sort,
}
use software.Builder.Node.{Heap, write, less_during_execution}

-- The heap is part of the plan, since `init` also writes to the commands.
pub record Plan : Type 0 where
  pub commands : List ℕ
  pub unprocessed_commands : List ℕ
  pub heap : Heap

-- The number of dependencies of `c` that are still in the set.
unfoldable pub unresolved : Heap → List ℕ → ℕ → ℕ
unresolved h cmds c = count_if (λ d. mem d cmds) (h c).dependencies

-- The `for` loop of one round, with the set split at the iterator: `kept` was passed and stays, `rest`
-- is still ahead. The result is the set, the commands and `added`.
unfoldable pub sweep : Heap → (kept rest commands : List ℕ) → Bool → List ℕ × List ℕ × Bool
sweep h kept [] commands added = (kept, commands, added)
sweep h kept (c ∷ rest) commands added =
    let keep = sweep h (kept ++ c ∷ []) rest commands added in
    let take = sweep h kept rest (commands ++ c ∷ []) true in
    if unresolved h (kept ++ c ∷ rest) c == 0 then take else keep

-- The `while` loop on fuel; `none` means that it ran out. The result is the commands in order and
-- those that no round could take.
unfoldable pub rounds : Heap → ℕ → (cmds commands : List ℕ) → Option (List ℕ × List ℕ)
rounds h zero cmds commands = none
rounds h (suc f) [] commands = some (commands, [])
rounds h (suc f) (c ∷ cs) commands =
    let (cmds', commands', added) = sweep h [] (c ∷ cs) commands false in
    let again = rounds h f cmds' commands' in if added then again else some (commands', cmds')

-- `d->dependent_commands.insert(c)` for each dependency `d` of `c`.
unfoldable pub add_dependent : ℕ → List ℕ → Heap → Heap
add_dependent c [] h = h
add_dependent c (d ∷ ds) h =
    add_dependent c ds
      (write h d (record (h d) { dependent_commands = insert c (h d).dependent_commands }))

unfoldable pub setup : List ℕ → Heap → Heap
unfolding add_dependent
setup [] h = h
setup (c ∷ cs) h =
    let ds = (h c).dependencies in
    setup cs (add_dependent c ds (write h c (record (h c) { dependencies_left = length ds })))

-- The end of `init`: with commands left over the plan is not valid, and nothing is set up.
unfoldable pub finish : Heap → List ℕ × List ℕ → Plan
finish h (commands, []) =
    let h' = setup commands h in
    record {
      commands = sort (λ a b. less_during_execution (h' a) (h' b)) commands;
      unprocessed_commands = [];
      heap = h';
    }
finish h (commands, c ∷ cs) = record {
  commands = commands;
  unprocessed_commands = c ∷ cs;
  heap = h;
}

-- One round more than there are commands is enough fuel.
unfoldable pub init : List ℕ → Heap → Option Plan
init cmds h = elim (rounds h (suc (length cmds)) cmds []) [
  | none ↦ none
  | some r ↦ some (finish h r)
]

-- ExecutionPlan::isValid
unfoldable pub is_valid : Plan → Bool
is_valid p = elim p.unprocessed_commands [ [] ↦ true | c ∷ cs ↦ false ]
