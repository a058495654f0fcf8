-- ===== src/Support/PackageMap.antt =====
-- src/sw/support/package_version_map.h: PackageVersionMapBase and its iterator. A map is the list of its paths with
-- the lists of their versions; paths and versions are numbers. The fuel of the iterator's loop is more than the
-- number of paths.
pub mod Visits
use software.Base.{
  ℕ, zero, suc, Bool, true, false, ◌==◌, ◌<◌, if◌then◌else◌, List, [], ◌∷◌, ◌++◌, length, Option,
  none, some, filter_by, not, any,
}

pub record Version (T : Type 0) : Type 0 where
  pub version : ℕ
  pub value : T

pub record PathVersions (T : Type 0) : Type 0 where
  pub path : ℕ
  pub versions : List (Version T)

-- What the iterator points to: a name and the value.
pub record NamedEntry (T : Type 0) : Type 0 where
  pub path : ℕ
  pub version : ℕ
  pub value : T

-- The paths from the iterator's `p` on, the versions of the first of them from its `v` on, and its `ptr`.
pub record Iterator (T : Type 0) : Type 0 where
  pub paths : List (PathVersions T)
  pub versions : List (Version T)
  pub ptr : Option (NamedEntry T)

module _ {T : Type 0} where
  abbrev pub entry_of : ℕ → Version T → NamedEntry T
  entry_of p v = record { path = p; version = v.version; value = v.value }

  -- The loop of move_to_next. It does not return without fuel.
  unfoldable pub move_to_next :
      (fuel : ℕ) → (init : Bool) → List (PathVersions T) → List (Version T) → Option (Iterator T)
  move_to_next zero init ps vs = none
  move_to_next (suc n) init [] vs = some (record { paths = []; versions = vs; ptr = none })
  move_to_next (suc n) init (p ∷ ps) [] = elim ps [
    | [] ↦ move_to_next n init [] []
    | q ∷ qs ↦ elim q.versions [
      | [] ↦ move_to_next n init (q ∷ qs) []
      | w ∷ ws ↦ some (record { paths = q ∷ qs; versions = w ∷ ws; ptr = some (entry_of q.path w) })
    ]
  ]
  move_to_next (suc n) init (p ∷ ps) (v ∷ vs) =
      let here : Iterator T = record {
        paths = p ∷ ps;
        versions = v ∷ vs;
        ptr = some (entry_of p.path v);
      } in
      let rest = move_to_next n init (p ∷ ps) [] in
      if init then some here else elim vs [
        | [] ↦ rest
        | w ∷ ws ↦
            some (record { paths = p ∷ ps; versions = w ∷ ws; ptr = some (entry_of p.path w) })
      ]

  -- Iterator(U &), and begin()
  unfoldable pub begin : (fuel : ℕ) → List (PathVersions T) → Option (Iterator T)
  unfolding move_to_next
  begin n [] = some (record { paths = []; versions = []; ptr = none })
  begin n (p ∷ ps) = move_to_next n true (p ∷ ps) p.versions

  -- operator++
  unfoldable pub increment : (fuel : ℕ) → Iterator T → Option (Iterator T)
  unfolding move_to_next
  increment n i = move_to_next n false i.paths i.versions

  -- What a range-based for over the map visits from an iterator on, and whether it came to the end.
  unfoldable pub visit_from : (fuel rounds : ℕ) → Option (Iterator T) → List (NamedEntry T) × Bool
  unfolding increment
  visit_from n m none = ([], false)
  visit_from n zero (some i) = ([], false)
  visit_from n (suc m) (some i) =
      let (es, done) = visit_from n m (increment n i) in
      elim i.paths [
        | [] ↦ ([], true)
        | p ∷ ps ↦ elim i.ptr [ none ↦ (es, false) | some e ↦ (e ∷ es, done) ]
      ]

  unfoldable pub visit : (fuel rounds : ℕ) → List (PathVersions T) → List (NamedEntry T) × Bool
  unfolding begin visit_from
  visit n m ps = visit_from n m (begin n ps)

  -- operator[](const PackagePath &): the path is made when it is not there.
  unfoldable pub at_path :
      ℕ → (List (Version T) → List (Version T)) → List (PathVersions T) → List (PathVersions T)
  at_path p f [] = (record { path = p; versions = f [] }) ∷ []
  at_path p f (q ∷ qs) =
      let rest = at_path p f qs in
      if q.path == p then record q { versions = f q.versions } ∷ qs else q ∷ rest

  -- emplace leaves a version that is there.
  unfoldable pub emplace : (path version : ℕ) → T → List (PathVersions T) → List (PathVersions T)
  unfolding at_path
  emplace p v t m =
      at_path p
        (λ vs.
          if any (λ (w : Version T). w.version == v) vs
          then vs
          else vs ++ (record { version = v; value = t }) ∷ [])
        m

  -- erase(const PackageName &), which makes the path
  unfoldable pub erase_name : (path version : ℕ) → List (PathVersions T) → List (PathVersions T)
  unfolding at_path
  erase_name p v m = at_path p (filter_by (λ w. not (w.version == v))) m
