-- ===== src/Tests/Options.antt =====
-- Options of compilers and linkers, and dependencies that are added and removed.
use software.Base.{
  ℕ, ◌≡◌, refl, true, false, ◌||◌, ◌==◌, if◌then◌else◌, List, [], ◌∷◌, mem, distinct, none,
}
use software.Driver.UniqueVector.{UniqueVector, empty_vector}
use software.Driver.UniqueVector.First.{first_places}
use software.Driver.Options.{
  CompilerData, GroupSettings, string_2_definition, add_definition, remove_definition,
  gather_include_directories, merge_compiler_data,
}
use software.Driver.Options.Gather.{
  HasSets, all_directories, gather_include_directories-first_places, mem-gather-merge,
}
use software.Driver.Linking.{LinkerData, add_link_library, remove_link_library}
use software.Driver.Dependencies.{
  Dependency, LinkerOptions, Call, add, remove, run_calls, is_active,
}
use software.Driver.Dependencies.Active.{last_call, is_active-run_calls}

abbrev of_elements : List ℕ → UniqueVector
of_elements xs = record { v = xs; u = xs }

abbrev some_options : CompilerData
some_options = record {
  definitions = λ k. none;
  compile_options = empty_vector;
  force_includes = [];
  pre_include_directories = of_elements (1 ∷ []);
  include_directories = of_elements (2 ∷ 1 ∷ []);
  post_include_directories = of_elements (3 ∷ 2 ∷ []);
  precompiled_headers = empty_vector;
  custom_target_options = λ k. empty_vector;
}

some_options-HasSets : HasSets some_options
some_options-HasSets = record { pre = (refl, refl); own = (refl, refl); post = (refl, refl) }

abbrev others : CompilerData
others = record some_options { include_directories = of_elements (4 ∷ []) }

abbrev into_own : GroupSettings
into_own = record { merge_to_self = false; include_directories_only = false }

gather_include_directories-first_places_example :
    ((gather_include_directories some_options).v ≡ first_places [] (all_directories some_options))
    × (distinct (gather_include_directories some_options).v ≡ true)
gather_include_directories-first_places_example =
    gather_include_directories-first_places some_options

gather-some_options : (gather_include_directories some_options).v ≡ 1 ∷ 2 ∷ 3 ∷ []
unfolding gather_include_directories
gather-some_options = refl

mem-gather-merge_example :
    mem 4 (gather_include_directories (merge_compiler_data others into_own some_options)).v ≡ (
      mem 4 (gather_include_directories some_options).v
      || mem 4 (gather_include_directories others).v)
mem-gather-merge_example = mem-gather-merge others some_options into_own 4 some_options-HasSets

-- A=1, and A without a value
definition-text : string_2_definition (65 ∷ 61 ∷ 49 ∷ []) ≡ (65 ∷ [], 49 ∷ [])
unfolding string_2_definition
definition-text = refl

definition-removed :
    remove_definition (65 ∷ []) (add_definition (65 ∷ 61 ∷ 49 ∷ []) (λ k. none)) (65 ∷ []) ≡ none
unfolding add_definition remove_definition
definition-removed = refl

-- A library that add put in is not taken out by remove.
abbrev no_libraries : LinkerData
no_libraries = record {
  frameworks = empty_vector;
  link_libraries = empty_vector;
  link_options = [];
  pre_link_directories = empty_vector;
  link_directories = empty_vector;
  post_link_directories = empty_vector;
}

library-stays : (remove_link_library 5 (add_link_library 5 no_libraries)).link_libraries.v ≡ 5 ∷ []
unfolding remove_link_library add_link_library
library-stays = refl

-- The objects 1, 2 and 3 have the names 7, 7 and 8.
abbrev objects : ℕ → Dependency
objects p = record { upkg = if p == 3 then 8 else 7; disabled = false }

abbrev no_dependencies : LinkerOptions
no_dependencies = record { deps = []; heap = objects }

abbrev some_calls : List Call
some_calls = add 1 ∷ add 3 ∷ remove 2 ∷ []

is_active-run_calls_example :
    is_active 7 (run_calls (λ i. i) some_calls no_dependencies)
    ≡ last_call (λ t. (no_dependencies.heap t).upkg) some_calls 7 (is_active 7 no_dependencies)
is_active-run_calls_example = is_active-run_calls (λ i. i) (λ i. refl) some_calls 7 no_dependencies

-- When the options are a target's, whose export options turn the id 7 into 70, the dependency that was added stays
-- active after remove of its name.
remove-exported :
    is_active 70 (run_calls (λ i. if i == 7 then 70 else i) (add 1 ∷ remove 2 ∷ []) no_dependencies)
    ≡ true
unfolding run_calls
remove-exported = refl
