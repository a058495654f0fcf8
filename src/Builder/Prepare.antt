-- ===== src/Builder/Prepare.antt =====
-- src/sw/builder/execution_plan.cpp: ExecutionPlan::prepare, which checks the commands and adds the
-- dependencies between a file's generator and its readers.
mod Checked
mod Linked
pub mod Ready
use software.Base.{
  ℕ, List, [], ◌∷◌, ◌==◌, ◌&&◌, if◌then◌else◌, insert, mem, Result, ok, err, ◌>>=◌, ◌>>◌, throw_if,
  for, not, Option, none, some,
}
use software.Builder.Node.{
  Heap, Error, duplicate_command, dependency_not_passed, output_generated_twice, add_dependency,
}

-- The first loop of `prepare`: every command's own prepare(), a virtual function.
unfoldable pub prepare_all : (ℕ → Heap → Result Error Heap) → List ℕ → Heap → Result Error Heap
prepare_all prepare_node = for prepare_node

-- The second loop: no hash occurs twice, and every dependency was passed too. The set of hashes is
-- the state of the loop.
unfoldable pub check_dependencies : List ℕ → List ℕ → Result Error (Unit {0})
check_dependencies cmds [] = ok tt
check_dependencies cmds (d ∷ ds) = do
  throw_if (not (mem d cmds)) (dependency_not_passed d)
  check_dependencies cmds ds

unfoldable pub check_command : Heap → List ℕ → ℕ → List ℕ → Result Error (List ℕ)
unfolding check_dependencies
check_command h cmds c hashes = do
  throw_if (mem (h c).hash hashes) (duplicate_command c)
  check_dependencies cmds (h c).dependencies
  ok (insert (h c).hash hashes)

unfoldable pub check_all : Heap → List ℕ → Result Error (List ℕ)
unfolding check_command
check_all h cmds = for (check_command h cmds) cmds []

-- `generators`: which command makes an output. `simultaneous_generators`: all that write a file.
abbrev pub Generators : Type 0
Generators = List (ℕ × ℕ)

unfoldable pub find_generator : ℕ → Generators → Option ℕ
find_generator o [] = none
find_generator o ((p, c) ∷ g) = if o == p then some c else find_generator o g

-- `generators.emplace(o, c1)` fails on an output that is there already.
unfoldable pub emplace_outputs : ℕ → List ℕ → Generators → Result Error Generators
emplace_outputs c [] g = ok g
emplace_outputs c (o ∷ os) g = elim (find_generator o g) [
  | none ↦ emplace_outputs c os ((o, c) ∷ g)
  | some d ↦ err (output_generated_twice o)
]

unfoldable pub collect_generators : Heap → List ℕ → Generators → Result Error Generators
unfolding emplace_outputs find_generator
collect_generators h [] g = ok g
collect_generators h (c ∷ cs) g = do
  g' ← if (h c).is_builder_command then emplace_outputs c (h c).outputs g else ok g
  collect_generators h cs g'

-- The commands that write file `i` at the same time as others.
unfoldable pub simultaneous : Heap → List ℕ → ℕ → List ℕ
simultaneous h [] i = []
simultaneous h (c ∷ cs) i =
    if (h c).is_builder_command && mem i (h c).simultaneous_outputs
    then c ∷ simultaneous h cs i
    else simultaneous h cs i

unfoldable pub add_dependencies : ℕ → List ℕ → Heap → Result Error Heap
unfolding add_dependency
add_dependencies c = for (add_dependency c)

-- The body of `f` for one input file.
unfoldable pub link_input : Heap → List ℕ → Generators → ℕ → ℕ → Heap → Result Error Heap
unfolding add_dependencies simultaneous find_generator
link_input h₀ cmds g c i h = do
  h' ← elim (find_generator i g) [ none ↦ ok h | some d ↦ add_dependency c d h ]
  add_dependencies c (simultaneous h₀ cmds i) h'

unfoldable pub link_command : Heap → List ℕ → Generators → ℕ → Heap → Result Error Heap
unfolding link_input
link_command h₀ cmds g c h =
    if (h₀ c).is_builder_command
    then (do
      h' ← for (link_input h₀ cmds g c) (h₀ c).inputs h
      for (link_input h₀ cmds g c) (h₀ c).inputs_without_timestamps h')
    else ok h

-- ExecutionPlan::prepare. The files of the commands do not change after `prepare_all`, so the maps of
-- generators are read from the heap `h` that it leaves.
unfoldable pub prepare : (ℕ → Heap → Result Error Heap) → List ℕ → Heap → Result Error Heap
unfolding prepare_all check_all collect_generators link_command
prepare prepare_node cmds h₀ = do
  h ← prepare_all prepare_node cmds h₀
  hashes ← check_all h cmds
  g ← collect_generators h cmds []
  for (link_command h cmds g) cmds h
