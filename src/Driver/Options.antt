-- ===== src/Driver/Options.antt =====
-- src/sw/driver/options.h and .cpp: the options of native compilers. Paths and the names of options are numbers; a definition is text. The map of
-- definitions is a function, since its order is not read here.
pub mod Gather
use software.Base.{ℕ, Bool, ◌==◌, if◌then◌else◌, List, [], ◌∷◌, ◌++◌, Option, none, some}
use software.Driver.UniqueVector.{UniqueVector, empty_vector, insert_all}
use software.Support.Path.{Str, same_string}

abbrev pub Definitions : Type 0
Definitions = Str → Option Str

abbrev pub cut_at : ℕ → Str → Option (Str × Str)
cut_at c [] = none
cut_at c (x ∷ xs) =
    let rest = cut_at c xs in
    if x == c then some ([], xs) else elim rest [ none ↦ none | some p ↦ some (x ∷ p.0, p.1) ]

-- 61 is the character of an equals sign.
unfoldable pub string_2_definition : Str → Str × Str
string_2_definition d = elim (cut_at 61 d) [
  | none ↦ (d, [])
  | some p ↦ elim p.1 [ [] ↦ (p.0 ++ 61 ∷ [], []) | c ∷ cs ↦ (p.0, c ∷ cs) ]
]

abbrev pub set_definition : Str → Option Str → Definitions → Definitions
set_definition k v defs = λ i. if same_string i k then v else defs i

-- An empty value makes the entry if it is not there; it keeps the value of one that is.
unfoldable pub add_definition : Str → Definitions → Definitions
unfolding string_2_definition
add_definition d defs =
    let (k, v) = string_2_definition d in
    elim v [
      | [] ↦ elim (defs k) [ none ↦ set_definition k (some []) defs | some old ↦ defs ]
      | c ∷ cs ↦ set_definition k (some (c ∷ cs)) defs
    ]

unfoldable pub remove_definition : Str → Definitions → Definitions
unfolding string_2_definition
remove_definition d defs = set_definition (string_2_definition d).0 none defs

unfoldable pub add_definitions : Definitions → Definitions → Definitions
add_definitions more defs = λ k. elim (defs k) [ some v ↦ some v | none ↦ more k ]

unfoldable pub remove_definitions : Definitions → Definitions → Definitions
remove_definitions gone defs = λ k. elim (gone k) [ some v ↦ none | none ↦ defs k ]

pub record GroupSettings : Type 0 where
  pub merge_to_self : Bool
  pub include_directories_only : Bool

pub record CompilerData : Type 0 where
  pub definitions : Definitions
  pub compile_options : UniqueVector
  pub force_includes : List ℕ
  pub pre_include_directories : UniqueVector
  pub include_directories : UniqueVector
  pub post_include_directories : UniqueVector
  pub precompiled_headers : UniqueVector
  pub custom_target_options : ℕ → UniqueVector

-- NativeCompilerOptionsData::gatherIncludeDirectories
unfoldable pub gather_include_directories : CompilerData → UniqueVector
unfolding insert_all
gather_include_directories o =
    insert_all o.post_include_directories.v
      (insert_all o.include_directories.v (insert_all o.pre_include_directories.v empty_vector))

-- NativeCompilerOptionsData::merge
unfoldable pub merge_compiler_data : CompilerData → GroupSettings → CompilerData → CompilerData
unfolding insert_all add_definitions
merge_compiler_data o s to =
    let with = λ (f : CompilerData → UniqueVector). insert_all (f o).v (f to) in
    record {
      definitions = add_definitions o.definitions to.definitions;
      compile_options =
          if s.include_directories_only then to.compile_options else with (λ d. d.compile_options);
      force_includes = to.force_includes ++ o.force_includes;
      pre_include_directories =
          if s.merge_to_self
          then with (λ d. d.pre_include_directories)
          else to.pre_include_directories;
      include_directories =
          if s.merge_to_self
          then with (λ d. d.include_directories)
          else insert_all o.post_include_directories.v (
              insert_all o.include_directories.v
                (insert_all o.pre_include_directories.v to.include_directories));
      post_include_directories =
          if s.merge_to_self
          then with (λ d. d.post_include_directories)
          else to.post_include_directories;
      precompiled_headers = with (λ d. d.precompiled_headers);
      custom_target_options = if s.include_directories_only then to.custom_target_options else λ k.
          insert_all (o.custom_target_options k).v (to.custom_target_options k);
    }

-- NativeCompilerOptions: the target's own options and those of the system
pub record CompilerOptions : Type 0 where
  pub own : CompilerData
  pub system : CompilerData

unfoldable pub merge_compiler_options :
    CompilerOptions → GroupSettings → CompilerOptions → CompilerOptions
unfolding merge_compiler_data
merge_compiler_options o s to = record {
  own = merge_compiler_data o.own s to.own;
  system = merge_compiler_data o.system s to.system;
}

unfoldable pub gather_all_include_directories : CompilerOptions → UniqueVector
unfolding gather_include_directories insert_all
gather_all_include_directories o =
    insert_all (gather_include_directories o.system).v
      (insert_all (gather_include_directories o.own).v empty_vector)
