-- ===== src/Driver/System.antt =====
-- src/sw/driver/rule_storage.h and .cpp: RuleSystem and RuleData, and of rule.cpp the rules over files:
-- NativeRule::addInputs and RcRule::addInput. A rule object is its number; what its virtual addInputs does to the
-- files is a parameter.
pub mod Inputs
pub mod Rounds
pub mod Resources
use software.Base.{
  ℕ, zero, suc, Bool, true, false, ◌==◌, ltb, if◌then◌else◌, List, [], ◌∷◌, ◌++◌, map, any, length,
  Option, none, some, Result, ok, err, ◌>>=◌, find_by,
}
use software.Driver.Rules.{RuleFile, RuleFiles, new_file, merge, add_file}

pub record RuleData : Type 0 where
  pub rule_name : ℕ
  pub dep : Option ℕ
  pub target_rule_name : ℕ
  pub ptr : Option ℕ
  pub arguments : List ℕ

pub data Error : Type 0 where
  no_rule_dependency : ℕ → Error
  unimplemented : Error
  rounds_exhausted : Error

-- RuleData(name), RuleData(name, rule) and RuleData(name, dep, from_name)
abbrev pub named_data : ℕ → RuleData
named_data n = record {
  rule_name = n;
  dep = none;
  target_rule_name = 0;
  ptr = none;
  arguments = [];
}

abbrev pub rule_data : ℕ → (rule : ℕ) → RuleData
rule_data n r = record {
  rule_name = n;
  dep = none;
  target_rule_name = 0;
  ptr = some r;
  arguments = [];
}

abbrev pub dependency_data : ℕ → (dep from_name : ℕ) → RuleData
dependency_data n d from = record {
  rule_name = n;
  dep = some d;
  target_rule_name = from;
  ptr = none;
  arguments = [];
}

-- RuleData::operator=, which leaves the arguments; the copying constructor assigns to a new object.
abbrev pub assign : RuleData → RuleData → RuleData
assign to from = record from { arguments = to.arguments }

abbrev pub copy : RuleData → RuleData
copy d = record d { arguments = [] }

-- std::map by the name of the rule: the rules in the order of their names
abbrev pub find_rule : ℕ → List RuleData → Option RuleData
find_rule n ds = find_by (λ (d : RuleData). d.rule_name == n) ds

-- Puts data under its name: `old ↦ new` for the data that is there.
abbrev pub put_rule : (RuleData → RuleData) → RuleData → List RuleData → List RuleData
put_rule change d [] = d ∷ []
put_rule change d (x ∷ xs) =
    let rest = put_rule change d xs in
    if x.rule_name == d.rule_name
    then change x ∷ xs
    else if ltb d.rule_name x.rule_name
    then d ∷ x ∷ xs
    else x ∷ rest

unfoldable pub add_rule_dependency : RuleData → List RuleData → List RuleData
add_rule_dependency d ds = put_rule (λ old. assign old d) (copy d) ds

-- addRuleDependency(name, from_dep, from_name), whose last argument is not used
unfoldable pub add_rule_dependency_from : (name dep from_name : ℕ) → List RuleData → List RuleData
unfolding add_rule_dependency
add_rule_dependency_from n d from ds = add_rule_dependency (dependency_data n d n) ds

unfoldable pub add_rule : (name rule : ℕ) → List RuleData → List RuleData
add_rule n r ds = put_rule (λ old. assign old (rule_data n r)) (copy (rule_data n r)) ds

unfoldable pub get_rule_dependency : ℕ → List RuleData → Result Error (Option ℕ)
get_rule_dependency n ds = elim (find_rule n ds) [
  | none ↦ err (no_rule_dependency n)
  | some d ↦ ok d.dep
]

unfoldable pub get_rule_dependencies : List RuleData → List ℕ
get_rule_dependencies [] = []
get_rule_dependencies (d ∷ ds) =
    let rest = get_rule_dependencies ds in elim d.dep [ none ↦ rest | some p ↦ p ∷ rest ]

-- RuleSystem::getRule
unfoldable pub get_rule : ℕ → List RuleData → List RuleData
get_rule n ds = put_rule (λ old. old) (named_data n) ds

-- NativeRule::addInputs: addInput may change the file that it gets, and returns new files.
module _ (add_input : RuleFiles → RuleFile → RuleFile × RuleFiles) where
  unfoldable pub add_inputs_of : RuleFiles → List RuleFile → RuleFiles → List RuleFile × RuleFiles
  unfolding merge
  add_inputs_of rfs [] rfs_new = ([], rfs_new)
  add_inputs_of rfs (f ∷ fs) rfs_new =
      let (f', rfs_2) = add_input rfs f in
      let (fs', all_new) = add_inputs_of rfs fs (merge rfs_new rfs_2).0 in (f' ∷ fs', all_new)

  unfoldable pub native_add_inputs : RuleFiles → RuleFiles
  unfolding add_inputs_of merge
  native_add_inputs rfs =
      let (fs, rfs_new) = add_inputs_of rfs rfs.rfs (record { rfs = []; commands = [] }) in
      (merge (record rfs { rfs = fs }) rfs_new).0

-- RcRule::addInput. The output and the command that the resource compiler has for a file are parameters.
unfoldable pub rc_add_input :
    (is_rc : ℕ → Bool) → (output command : ℕ → ℕ) → RuleFiles → RuleFile → RuleFile × RuleFiles
rc_add_input is_rc output command rfs f =
    let no_files : RuleFiles = record { rfs = []; commands = [] } in
    if is_rc f.file
    then (if any (λ (g : RuleFile). g.file == output f.file) rfs.rfs then (f, no_files) else (
      f,
      record no_files {
        rfs =
            (record { file = output f.file; command = some (command f.file); dependencies = [] })
            ∷ [];
      },
    ))
    else (f, no_files)

-- `rule_of` is PredefinedProgram::getRule1 of a dependency's target, where it has one; `is_native` is the cast to
-- NativeRule.
module _ (rule_of : (dep target_rule_name : ℕ) → Option ℕ) (is_native : ℕ → Bool) where
  -- RuleData::getRule, with the data that keeps the pointer
  unfoldable pub get_rule_pointer : RuleData → Result Error (Option ℕ × RuleData)
  get_rule_pointer d = elim d.ptr [
    | some r ↦ ok (some r, d)
    | none ↦ elim d.dep [
      | none ↦ ok (none, d)
      | some p ↦ elim (rule_of p d.target_rule_name) [
        | none ↦ err unimplemented
        | some r ↦ ok (some r, record d { ptr = some r })
      ]
    ]
  ]

  -- The first loop of runRules: the rules of the data, in order, each with its arguments, and the data.
  unfoldable pub set_up : List RuleData → Result Error (List (ℕ × List ℕ) × List RuleData)
  unfolding get_rule_pointer
  set_up [] = ok ([], [])
  set_up (d ∷ ds) = do
    (r, d') ← get_rule_pointer d
    (rs, ds') ← set_up ds
    ok (elim r [ none ↦ rs | some i ↦ if is_native i then (i, d.arguments) ∷ rs else rs ], d' ∷ ds')

-- `add_inputs` is the virtual function of a rule, after setup and with the arguments.
module _ (add_inputs : ℕ → (arguments : List ℕ) → RuleFiles → RuleFiles) where
  -- One round of the second loop.
  unfoldable pub round : List (ℕ × List ℕ) → RuleFiles → RuleFiles
  round [] rfs = rfs
  round ((r, args) ∷ rs) rfs = round rs (add_inputs r args rfs)

  unfoldable pub rounds : (fuel : ℕ) → List (ℕ × List ℕ) → RuleFiles → Result Error RuleFiles
  unfolding round
  rounds zero rs rfs = err rounds_exhausted
  rounds (suc n) rs rfs =
      let rfs' = round rs rfs in
      let rest = rounds n rs rfs' in if length rfs.rfs == length rfs'.rfs then ok rfs' else rest

unfoldable pub run_rules :
    (rule_of : (dep target_rule_name : ℕ) → Option ℕ)
    → (is_native : ℕ → Bool) → (add_inputs : ℕ → (arguments : List ℕ) → RuleFiles → RuleFiles)
    → (fuel : ℕ) → RuleFiles
    → List RuleData
    → Result Error (RuleFiles × List RuleData)
unfolding set_up rounds
run_rules rule_of is_native add_inputs n rfs ds = do
  (rs, ds') ← set_up rule_of is_native ds
  rfs' ← rounds add_inputs n rs rfs
  ok (rfs', ds')
