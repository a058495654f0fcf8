-- ===== src/Builder/Node.antt =====
-- src/sw/builder/command_node.h and .cpp, and the part of builder::Command (command.h) that the
-- execution plan reads. A command is its address, a number; the heap maps addresses to objects.
-- Paths are numbers too, since the plan only compares them.
use software.Base.{
  ℕ, ◌≡◌, Bool, true, false, List, [], arith, ◌==◌, if◌then◌else◌, ltb, length, insert, ℤ, ltb_ℤ,
  ltb_ℤ_asym, ◌≤◌, ◌&&◌, non_zero, Result, ok, err, not,
}

pub record Node : Type 0 where
  pub hash : ℕ
  pub dependencies : List ℕ
  pub dependencies_left : ℕ
  pub dependent_commands : List ℕ
  pub strict_order : ℤ
  -- whether dynamic_cast<builder::Command *> succeeds
  pub is_builder_command : Bool
  pub inputs : List ℕ
  pub inputs_without_timestamps : List ℕ
  pub outputs : List ℕ
  pub simultaneous_outputs : List ℕ

abbrev pub Heap : Type 0
Heap = ℕ → Node

-- What the plan and its commands throw.
pub data Error : Type 0 where
  self_dependency : ℕ → Error
  empty_command : Error
  duplicate_command : ℕ → Error
  dependency_not_passed : ℕ → Error
  output_generated_twice : ℕ → Error
  not_prepared : ℕ → Error

abbrev pub write : Heap → ℕ → Node → Heap
write h c n = λ i. if i == c then n else h i

-- CommandNode::addDependency
unfoldable pub add_dependency : ℕ → ℕ → Heap → Result Error Heap
add_dependency c d h =
    if d == c
    then err (self_dependency c)
    else ok (write h c (record (h c) { dependencies = insert d (h c).dependencies }))

-- CommandNode::clearDependencies
unfoldable pub clear_dependencies : ℕ → Heap → Heap
clear_dependencies c h = write h c (record (h c) { dependencies = [] })

-- builder::Command::lessDuringExecution. The last line of the source compares the number of
-- dependent commands of `this` with itself.
unfoldable pub less_during_execution : Node → Node → Bool
less_during_execution a b =
    if not (length a.dependencies == length b.dependencies)
    then ltb (length a.dependencies) (length b.dependencies)
    else if non_zero a.strict_order && non_zero b.strict_order
    then ltb_ℤ a.strict_order b.strict_order
    else if non_zero a.strict_order
    then true
    else if non_zero b.strict_order
    then false
    else ltb (length a.dependent_commands) (length a.dependent_commands)

-- The number of dependencies comes first.
pub less_during_execution-length :
    (a b : Node) → less_during_execution a b ≡ false → length b.dependencies ≤ length a.dependencies
unfolding less_during_execution
less_during_execution-length a b h = ground arith

pub less_during_execution_asym :
    (a b : Node) → less_during_execution a b ≡ true → less_during_execution b a ≡ false
unfolding less_during_execution
less_during_execution_asym a b h = ground (arith, ltb_ℤ_asym a.strict_order b.strict_order)
