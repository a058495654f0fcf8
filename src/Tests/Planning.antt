-- ===== src/Tests/Planning.antt =====
-- A diamond of commands, a cycle of two, and a run of the diamond.
use mathlib.Core.List.{Perm}
use software.Base.{ℕ, ◌≡◌, refl, true, List, [], ◌∷◌, ◌==◌, if◌then◌else◌, some, ◌↔◌, pos, sort}
use software.Builder.Node.{Node, Heap, less_during_execution}
use software.Builder.Plan.{Plan, init, rounds, sweep, unresolved, finish, setup, is_valid}
use software.Builder.Plan.Order.{IsOrdered}
use software.Builder.Plan.Valid.{init_valid_iff}

abbrev pub node : List ℕ → Node
node deps = record {
  hash = 0;
  dependencies = deps;
  dependencies_left = 0;
  dependent_commands = [];
  strict_order = pos 0;
  is_builder_command = true;
  inputs = [];
  inputs_without_timestamps = [];
  outputs = [];
  simultaneous_outputs = [];
}

-- Command 4 needs 2 and 3, which need 1.
abbrev pub diamond : Heap
diamond c =
    if c == 4
    then node (2 ∷ 3 ∷ [])
    else if c == 3
    then node (1 ∷ [])
    else if c == 2
    then node (1 ∷ [])
    else node []

abbrev pub commands : List ℕ
commands = 4 ∷ 3 ∷ 2 ∷ 1 ∷ []

unfoldable pub diamond_plan : Plan
unfolding setup
diamond_plan = record {
  commands = 1 ∷ 3 ∷ 2 ∷ 4 ∷ [];
  unprocessed_commands = [];
  heap = setup (1 ∷ 3 ∷ 2 ∷ 4 ∷ []) diamond;
}

unfoldable pub planning : Unit {0}
unfolding init rounds sweep unresolved finish setup sort less_during_execution is_valid diamond_plan
planning = tt

pub init-diamond : init commands diamond ≡ some diamond_plan
unfolding planning
init-diamond = refl

-- Commands 1 and 2 need each other, and 3 needs nothing.
abbrev cycle : Heap
cycle c = if c == 1 then node (2 ∷ []) else if c == 2 then node (1 ∷ []) else node []

abbrev cycle_plan : Plan
cycle_plan = record { commands = 3 ∷ []; unprocessed_commands = 1 ∷ 2 ∷ []; heap = cycle }

init-cycle : init (1 ∷ 2 ∷ 3 ∷ []) cycle ≡ some cycle_plan
unfolding planning
init-cycle = refl

pub diamond-is_valid : is_valid diamond_plan ≡ true
unfolding planning
diamond-is_valid = refl

init_valid_iff_example :
    (is_valid diamond_plan ≡ true)
    ↔ ((order : List ℕ) × Perm order commands × IsOrdered diamond commands [] order)
init_valid_iff_example = init_valid_iff commands diamond diamond_plan init-diamond
