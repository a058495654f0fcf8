-- ===== src/Tests/Ruling.antt =====
-- Rule files: 1 depends on 2 and this on 3, which command 30 makes from 4, the output of the free command 40;
-- command 50 makes 5 from 1.
use software.Base.{
  ℕ, ◌+◌, ap, ltb, ◌∙◌, some-eq, ◌-◌, ◌<◌, ◌≡◌, ◌↔◌, ◌⊎◌, refl, sym, subst, Bool, true, false, ◌==◌,
  ==_iff, arith, List, [], ◌∷◌, mem, any, All, All-mem, find_by-found, none, some, ok, err, inl,
  inr,
}
use software.Builder.Node.{Heap}
use software.Driver.Rules.{
  RuleFile, RuleFiles, OutputCommand, get_dependencies_1, get_commands, command_set_twice,
  set_command, new_file,
}
use software.Tests.Planning.{diamond}
use software.Driver.Rules.Needs.{IsKnown, IsClosed, IsRanked, MakesOne, get_dependencies_1-MakesOne}
use software.Driver.Rules.Commands.{IsSound, DependsOn, IsCommandOf, get_commands-Adds}
use software.Driver.System.{add_rule_dependency, dependency_data, get_rule_dependency, rounds}
use software.Driver.System.Inputs.{paths}
use software.Driver.System.Rounds.{IsWithin, IsDone, rounds-IsDone}
use software.Driver.System.Resources.{
  add_resources, HasOutputs, native_add_inputs-rc-IsRule, rounds-add_resources,
}

-- The conditions on all paths, from those on the files.
closed-files :
    (rfs : RuleFiles)
    → All (λ (f : RuleFile). f.command ≡ none → All (IsKnown rfs) f.dependencies) rfs.rfs
    → IsClosed rfs
closed-files rfs h d e f found n m =
    let (known, _) = find_by-found _ _ rfs.rfs f h found in
    All-mem (IsKnown rfs) f.dependencies (known n) e m

ranked-files :
    (rfs : RuleFiles) (rank : ℕ → ℕ)
    → All
        (λ (f : RuleFile). f.command ≡ none → All (λ e. rank e < rank f.file) f.dependencies)
        rfs.rfs
    → IsRanked rfs rank
ranked-files rfs rank h d e f found n m =
    let (lower, same) = find_by-found _ _ rfs.rfs f h found in
    subst (λ p. rank e < rank p) ((==_iff f.file d).0 same)
      (All-mem (λ i. rank i < rank f.file) f.dependencies (lower n) e m)

abbrev file_1 : RuleFile
file_1 = record { file = 1; command = none; dependencies = 2 ∷ [] }

abbrev file_2 : RuleFile
file_2 = record { file = 2; command = none; dependencies = 3 ∷ [] }

abbrev file_3 : RuleFile
file_3 = record { file = 3; command = some 30; dependencies = 4 ∷ [] }

abbrev file_5 : RuleFile
file_5 = record { file = 5; command = some 50; dependencies = 1 ∷ [] }

abbrev output_4 : OutputCommand
output_4 = record { output = 4; command = 40 }

abbrev some_files : RuleFiles
some_files = record { rfs = file_1 ∷ file_2 ∷ file_3 ∷ file_5 ∷ []; commands = output_4 ∷ [] }

abbrev down : ℕ → ℕ
down p = 10 - p

some_files-IsClosed : IsClosed some_files
some_files-IsClosed =
    closed-files some_files
      (λ n. (inl (file_2, refl), tt), (λ n. (inl (file_3, refl), tt), (λ n. cc n, (λ n. cc n, tt))))

some_files-IsRanked : IsRanked some_files down
some_files-IsRanked =
    ranked-files some_files down
      (λ n. (omega arith, tt), (λ n. (omega arith, tt), (λ n. cc n, (λ n. cc n, tt))))

dependencies_of_5 : (d : ℕ) → mem d (1 ∷ []) ≡ true → IsKnown some_files d × (down d < 10)
dependencies_of_5 =
    All-mem (λ d. IsKnown some_files d × (down d < 10)) (1 ∷ [])
      ((inl (file_1, refl), omega arith), tt)

dependencies_of_3 : (d : ℕ) → mem d (4 ∷ []) ≡ true → IsKnown some_files d × (down d < 10)
dependencies_of_3 =
    All-mem (λ d. IsKnown some_files d × (down d < 10)) (4 ∷ [])
      ((inr (output_4, refl), omega arith), tt)

get_dependencies_1-MakesOne_example :
    (cmds : List ℕ) × (get_dependencies_1 11 some_files file_5 ≡ ok cmds)
    × ((c : ℕ) → (mem c cmds ≡ true) ↔ MakesOne some_files (1 ∷ []) c)
get_dependencies_1-MakesOne_example =
    get_dependencies_1-MakesOne some_files down 10 file_5 some_files-IsClosed some_files-IsRanked
      dependencies_of_5

get_dependencies_1-file_5 : get_dependencies_1 11 some_files file_5 ≡ ok (30 ∷ [])
unfolding get_dependencies_1
get_dependencies_1-file_5 = refl

-- A file that was added gets a command once, and no dependency on itself.
set_command-twice :
    (elim (set_command 7 (new_file 6)) [ err e ↦ err e | ok f ↦ set_command 8 f ])
    ≡ err (command_set_twice 6)
unfolding set_command new_file
set_command-twice = refl

-- What getDependencies1 does not give makes no dependency.
not_given :
    (f : RuleFile) (ds : List ℕ) (c : ℕ)
    → get_dependencies_1 11 some_files f ≡ ok ds
    → mem c ds ≡ false
    → ((d : ℕ) → mem d f.dependencies ≡ true → IsKnown some_files d × (down d < 10))
    → MakesOne some_files f.dependencies c
    → ⊥
not_given f ds c e n known m =
    let (cmds, given, makes) =
      get_dependencies_1-MakesOne some_files down 10 f some_files-IsClosed some_files-IsRanked
        known in
    let has = (makes c).1 m in
    let same : cmds ≡ ds = cc (sym given ∙ e) in
    let has' : mem c ds ≡ true = subst (λ cs. mem c cs ≡ true) same has in cc (sym has' ∙ n)

get_dependencies_1-file_3 : get_dependencies_1 11 some_files file_3 ≡ ok (40 ∷ [])
unfolding get_dependencies_1
get_dependencies_1-file_3 = refl

some_files-IsSound :
    All (IsSound some_files down 10 some_files-IsClosed some_files-IsRanked) some_files.rfs
some_files-IsSound = (
  (All-mem _ (2 ∷ []) ((inl (file_2, refl), omega arith), tt), λ c e. cc e),
  (
    (All-mem _ (3 ∷ []) ((inl (file_3, refl), omega arith), tt), λ c e. cc e),
    (
      (
        dependencies_of_3,
        λ c e.
            not_given file_3 (40 ∷ []) c get_dependencies_1-file_3
              (ap (λ i. mem i (40 ∷ [])) (sym (some-eq e))) dependencies_of_3,
      ),
      (
        (
          dependencies_of_5,
          λ c e.
              not_given file_5 (30 ∷ []) c get_dependencies_1-file_5
                (ap (λ i. mem i (30 ∷ [])) (sym (some-eq e))) dependencies_of_5,
        ),
        tt,
      ),
    ),
  ),
)

get_commands-Adds_example :
    (cmds : List ℕ) × (h' : Heap) × (get_commands 11 some_files diamond ≡ ok (cmds, h'))
    × ((c : ℕ)
        → (mem c cmds ≡ true) ↔ (
            (any (λ (o : OutputCommand). o.command == c) some_files.commands ≡ true)
            ⊎ IsCommandOf some_files some_files.rfs c))
    × ((c d : ℕ)
        → (mem d (h' c).dependencies ≡ true)
          ↔ ((mem d (diamond c).dependencies ≡ true) ⊎ DependsOn some_files some_files.rfs c d))
get_commands-Adds_example =
    get_commands-Adds some_files down 10 some_files-IsClosed some_files-IsRanked diamond
      some_files-IsSound

-- Paths below 100 are resources, and their outputs are 100 further.
abbrev is_rc : ℕ → Bool
is_rc p = ltb p 100

abbrev rc_output : ℕ → ℕ
rc_output p = p + 100

abbrev resource_paths : List ℕ
resource_paths = 7 ∷ 107 ∷ []

abbrev one_resource : RuleFiles
one_resource = record {
  rfs = (record { file = 7; command = none; dependencies = [] }) ∷ [];
  commands = [];
}

resource_paths-HasOutputs : HasOutputs is_rc rc_output rc_output resource_paths
resource_paths-HasOutputs p m i = ground arith

one_resource-IsWithin : IsWithin resource_paths one_resource
one_resource-IsWithin = (refl, λ x m. ground arith)

rounds-IsDone_example :
    (rfs' : RuleFiles) × (rounds
        (add_resources is_rc rc_output rc_output)
        3
        ((1, []) ∷ [])
        one_resource
      ≡ ok rfs')
    × IsDone resource_paths
        (add_resources is_rc rc_output rc_output)
        ((1, []) ∷ [])
        one_resource
        rfs'
rounds-IsDone_example =
    rounds-IsDone resource_paths (add_resources is_rc rc_output rc_output) 3 ((1, []) ∷ [])
      one_resource
      (
        native_add_inputs-rc-IsRule is_rc rc_output rc_output resource_paths
            resource_paths-HasOutputs,
        tt,
      )
      one_resource-IsWithin (omega arith)

rounds-add_resources_example :
    (rfs' : RuleFiles) × (rounds
        (add_resources is_rc rc_output rc_output)
        3
        ((1, []) ∷ [])
        one_resource
      ≡ ok rfs')
    × ((p : ℕ) → mem p (paths one_resource) ≡ true → mem p (paths rfs') ≡ true)
    × ((p : ℕ) → mem p (paths rfs') ≡ true → is_rc p ≡ true → mem (rc_output p) (paths rfs') ≡ true)
rounds-add_resources_example =
    rounds-add_resources is_rc rc_output rc_output resource_paths 3 1 [] one_resource
      resource_paths-HasOutputs one_resource-IsWithin (omega arith)

-- A rule is overridden by a later one of its name.
override-rule :
    get_rule_dependency 1
      (add_rule_dependency (dependency_data 1 6 1) (add_rule_dependency (dependency_data 1 5 1) []))
    ≡ ok (some 6)
unfolding get_rule_dependency add_rule_dependency
override-rule = refl
