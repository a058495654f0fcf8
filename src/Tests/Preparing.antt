-- ===== src/Tests/Preparing.antt =====
-- A command that reads what another one makes, and a third that writes its file simultaneously.
use software.Base.{ℕ, ◌≡◌, refl, true, List, [], ◌∷◌, if◌then◌else◌, ◌==◌, ok, err, pos}
use software.Builder.Node.{Node, Heap, add_dependency, duplicate_command}
use software.Builder.Prepare.{
  prepare, prepare_all, check_all, check_command, check_dependencies, collect_generators,
  emplace_outputs, find_generator, simultaneous, add_dependencies, link_input, link_command,
}
use software.Builder.Prepare.Ready.{IsReady, prepare-IsReady}

abbrev file_node : (hash : ℕ) → (deps inputs outputs simultaneous_outputs : List ℕ) → Node
file_node hash deps inputs outputs simultaneous_outputs = record {
  hash = hash;
  dependencies = deps;
  dependencies_left = 0;
  dependent_commands = [];
  strict_order = pos 0;
  is_builder_command = true;
  inputs = inputs;
  inputs_without_timestamps = [];
  outputs = outputs;
  simultaneous_outputs = simultaneous_outputs;
}

abbrev heap_of : (deps : List ℕ) → Heap
heap_of deps c =
    if c == 1
    then file_node 11 [] [] (50 ∷ []) []
    else if c == 2
    then file_node 12 deps (50 ∷ []) [] []
    else file_node 13 [] [] [] (50 ∷ [])

abbrev given : Heap
given = heap_of []

-- The objects after the two writes to command 2.
abbrev linked : Heap
linked i =
    if i == 2
    then file_node 12 (1 ∷ 3 ∷ []) (50 ∷ []) [] []
    else if i == 2
    then file_node 12 (1 ∷ []) (50 ∷ []) [] []
    else given i

preparing : Unit {0}
unfolding prepare prepare_all check_all check_command check_dependencies collect_generators
    emplace_outputs find_generator simultaneous add_dependencies link_input link_command
    add_dependency
preparing = tt

prepare-given : prepare (λ c h. ok h) (1 ∷ 2 ∷ 3 ∷ []) given ≡ ok linked
unfolding preparing
prepare-given = refl

prepare-twice : prepare (λ c h. ok h) (1 ∷ 1 ∷ []) given ≡ err (duplicate_command 1)
unfolding preparing
prepare-twice = refl

prepare-IsReady_example :
    (before : Heap) × (prepare_all (λ c h. ok h) (1 ∷ 2 ∷ 3 ∷ []) given ≡ ok before)
    × IsReady (1 ∷ 2 ∷ 3 ∷ []) before linked
prepare-IsReady_example = prepare-IsReady (λ c h. ok h) (1 ∷ 2 ∷ 3 ∷ []) given linked prepare-given
