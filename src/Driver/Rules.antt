-- ===== src/Driver/Rules.antt =====
-- src/sw/driver/rule_file.h and .cpp, rule_storage.h and .cpp: RuleFile, RuleFiles and RuleSystem. Paths, names
-- and commands are numbers; hash maps are the lists of their elements in the order of iteration. The additional
-- arguments of a file are not read here.
pub mod Adds
pub mod Needs
pub mod Commands
use software.Base.{
  ℕ, zero, suc, Bool, true, false, ◌==◌, if◌then◌else◌, List, [], ◌∷◌, ◌++◌, map, mem, insert,
  length, Option, none, some, Result, ok, err, ◌>>=◌, ◌>>◌, throw_if, find_by, filter_by, any, for,
  not,
}
use software.Builder.Node.{Heap, add_dependency}

pub record RuleFile : Type 0 where
  pub file : ℕ
  pub command : Option ℕ
  pub dependencies : List ℕ

pub record OutputCommand : Type 0 where
  pub output : ℕ
  pub command : ℕ

pub record RuleFiles : Type 0 where
  pub rfs : List RuleFile
  pub commands : List OutputCommand

pub data Error : Type 0 where
  command_set_twice : ℕ → Error
  self_dependency : ℕ → Error
  not_added : ℕ → Error
  stack_overflow : Error
  node : software.Builder.Node.Error → Error

-- RuleFile(const path &)
unfoldable pub new_file : ℕ → RuleFile
new_file p = record { file = p; command = none; dependencies = [] }

unfoldable pub reset_command : ℕ → RuleFile → RuleFile
reset_command c f = record f { command = some c }

unfoldable pub set_command : ℕ → RuleFile → Result Error RuleFile
unfolding reset_command
set_command c f = elim f.command [
  | some old ↦ err (command_set_twice f.file)
  | none ↦ ok (reset_command c f)
]

unfoldable pub add_file_dependency : ℕ → RuleFile → Result Error RuleFile
add_file_dependency p f =
    if p == f.file
    then err (self_dependency p)
    else ok (record f { dependencies = insert p f.dependencies })

abbrev pub find_file : ℕ → RuleFiles → Option RuleFile
find_file p rfs = find_by (λ (f : RuleFile). f.file == p) rfs.rfs

abbrev pub find_command : ℕ → RuleFiles → Option OutputCommand
find_command p rfs = find_by (λ (o : OutputCommand). o.output == p) rfs.commands

-- RuleFiles::addFile; the reference that is returned is the element with this path.
unfoldable pub add_file : ℕ → RuleFiles → RuleFiles
unfolding new_file
add_file p rfs = elim (find_file p rfs) [
  | some f ↦ rfs
  | none ↦ record rfs { rfs = rfs.rfs ++ new_file p ∷ [] }
]

unfoldable pub add_command : (output command : ℕ) → RuleFiles → Result Error RuleFiles
add_command p c rfs = elim (find_command p rfs) [
  | some o ↦ err (command_set_twice p)
  | none ↦ ok (record rfs { commands = rfs.commands ++ (record { output = p; command = c }) ∷ [] })
]

unfoldable pub erase : ℕ → RuleFiles → RuleFiles
erase p rfs = record rfs { rfs = filter_by (λ (f : RuleFile). not (f.file == p)) rfs.rfs }

-- RuleFiles::merge moves the files whose paths are new; the result has both sides.
unfoldable pub merge_files : List RuleFile → RuleFiles → RuleFiles × List RuleFile
merge_files [] to = (to, [])
merge_files (f ∷ fs) to =
    let here = any (λ (g : RuleFile). g.file == f.file) to.rfs in
    let (to', rest) = merge_files fs (if here then to else record to { rfs = to.rfs ++ f ∷ [] }) in
    (to', if here then f ∷ rest else rest)

unfoldable pub merge : RuleFiles → RuleFiles → RuleFiles × RuleFiles
unfolding merge_files
merge to from = let (to', rest) = merge_files from.rfs to in (to', record from { rfs = rest })

-- Commands::merge, a union of sets
abbrev pub unite : List ℕ → List ℕ → List ℕ
unite [] cmds = cmds
unite (c ∷ cs) cmds = unite cs (insert c cmds)

-- The body of the loop of RuleFile::getDependencies1, with the call for another file: first the files, then the
-- free commands.
unfoldable pub commands_of_file :
    (RuleFile → Result Error (List ℕ))
    → RuleFiles
    → (d : ℕ) → (cmds : List ℕ) → Result Error (List ℕ)
commands_of_file again rfs d cmds = elim (find_file d rfs) [
  | none ↦ ok cmds
  | some f ↦ elim f.command [
    | some c ↦ ok (insert c cmds)
    | none ↦ (do more ← again f; ok (unite more cmds))
  ]
]

unfoldable pub free_command : RuleFiles → (d : ℕ) → (cmds : List ℕ) → Result Error (List ℕ)
free_command rfs d cmds = elim (find_command d rfs) [
  | some o ↦ ok (insert o.command cmds)
  | none ↦ elim (find_file d rfs) [ some f ↦ ok cmds | none ↦ err (not_added d) ]
]

unfoldable pub commands_of :
    (RuleFile → Result Error (List ℕ))
    → RuleFiles
    → (d : ℕ) → (cmds : List ℕ) → Result Error (List ℕ)
unfolding commands_of_file free_command
commands_of again rfs d cmds = do
  cmds' ← commands_of_file again rfs d cmds
  free_command rfs d cmds'

-- RuleFile::getDependencies1, which recurs as deep as files without commands depend on each other.
unfoldable pub get_dependencies_1 : (fuel : ℕ) → RuleFiles → RuleFile → Result Error (List ℕ)
unfolding commands_of
get_dependencies_1 zero rfs f = err stack_overflow
get_dependencies_1 (suc n) rfs f =
    for (commands_of (get_dependencies_1 n rfs) rfs) f.dependencies []

-- command->addDependency(*d), in the heap of the commands
unfoldable pub depend : (c d : ℕ) → Heap → Result Error Heap
depend c d h = elim (add_dependency c d h) [ err e ↦ err (node e) | ok h' ↦ ok h' ]

-- RuleFile::getCommand
unfoldable pub get_command :
    (fuel : ℕ) → RuleFiles → RuleFile → Heap → Result Error (Option ℕ × Heap)
unfolding get_dependencies_1 depend
get_command n rfs f h = elim f.command [
  | none ↦ ok (none, h)
  | some c ↦ (do deps ← get_dependencies_1 n rfs f; h' ← for (depend c) deps h; ok (some c, h'))
]

abbrev pub free_commands : List OutputCommand → List ℕ → List ℕ
free_commands [] cmds = cmds
free_commands (o ∷ os) cmds = free_commands os (insert o.command cmds)

unfoldable pub commands_of_files :
    (fuel : ℕ) → RuleFiles → List RuleFile → List ℕ × Heap → Result Error (List ℕ × Heap)
unfolding get_command
commands_of_files n rfs [] st = ok st
commands_of_files n rfs (f ∷ fs) (cmds, h) = do
  made ← get_command n rfs f h
  commands_of_files n rfs fs (elim made.0 [ none ↦ cmds | some c ↦ insert c cmds ], made.1)

-- RuleFiles::getCommands
unfoldable pub get_commands : (fuel : ℕ) → RuleFiles → Heap → Result Error (List ℕ × Heap)
unfolding commands_of_files
get_commands n rfs h = commands_of_files n rfs rfs.rfs (free_commands rfs.commands [], h)
