-- ===== src/Driver/Dependencies.antt =====
-- src/sw/driver/options.cpp: NativeLinkerOptions::add and remove of dependencies. A dependency is shared: its
-- address is a number, and the heap maps addresses to objects. An UnresolvedPackageId, a name with settings, is a
-- number.
pub mod Disabling
pub mod Active
use software.Base.{
  ℕ, Bool, true, false, ◌==◌, if◌then◌else◌, List, [], ◌∷◌, ◌++◌, Option, none, some, find_by, any,
  not, ◌&&◌,
}

-- DependencyData
pub record Dependency : Type 0 where
  pub upkg : ℕ
  pub disabled : Bool

pub record LinkerOptions : Type 0 where
  pub deps : List ℕ
  pub heap : ℕ → Dependency

abbrev pub set_disabled : Bool → ℕ → (ℕ → Dependency) → ℕ → Dependency
set_disabled b p h q = if q == p then record (h q) { disabled = b } else h q

-- The loop of remove over the dependencies.
abbrev pub disable_all : (upkg : ℕ) → List ℕ → (ℕ → Dependency) → ℕ → Dependency
disable_all i [] h = h
disable_all i (p ∷ ps) h = disable_all i ps (if (h p).upkg == i then set_disabled true p h else h)

-- The first dependency with the id of `t`, and `t` itself when there is none.
unfoldable pub same_name : ℕ → LinkerOptions → ℕ
same_name t o = elim (find_by (λ p. (o.heap p).upkg == (o.heap t).upkg) o.deps) [
  | none ↦ t
  | some p ↦ p
]

pub data Call : Type 0 where
  add remove : ℕ → Call

-- `with_exports` is mergeMissing of the export options of the target, for the options of a target, and else it
-- changes nothing.
module _ (with_exports : ℕ → ℕ) where
  abbrev pub merge_exports : ℕ → (ℕ → Dependency) → ℕ → Dependency
  merge_exports p h q = if q == p then record (h q) { upkg = with_exports (h q).upkg } else h q

  unfoldable pub add_dependency : ℕ → LinkerOptions → LinkerOptions
  unfolding same_name
  add_dependency t o = record {
    deps = o.deps ++ t ∷ [];
    heap = merge_exports t (set_disabled false (same_name t o) o.heap);
  }

  unfoldable pub remove_dependency : ℕ → LinkerOptions → LinkerOptions
  remove_dependency t o = record {
    deps = o.deps ++ t ∷ [];
    heap = merge_exports t (disable_all (o.heap t).upkg o.deps (set_disabled true t o.heap));
  }

  unfoldable pub run_calls : List Call → LinkerOptions → LinkerOptions
  unfolding add_dependency remove_dependency
  run_calls [] o = o
  run_calls (Call.add t ∷ cs) o = run_calls cs (add_dependency t o)
  run_calls (Call.remove t ∷ cs) o = run_calls cs (remove_dependency t o)

-- Whether getActiveDependencies gives a dependency with this id.
abbrev pub is_active : ℕ → LinkerOptions → Bool
is_active i o = any (λ p. ((o.heap p).upkg == i) && not (o.heap p).disabled) o.deps
