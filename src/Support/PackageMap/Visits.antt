-- ===== src/Support/PackageMap/Visits.antt =====
-- The iterator of PackageVersionMapBase visits every version of every path.
use software.Base.{
  ℕ, zero, suc, ◌<◌, ◌+◌, ◌≡◌, refl, ap, Bool, true, false, List, [], ◌∷◌, ◌++◌, length, Option,
  none, some, arith,
}
use software.Support.PackageMap.{
  Version, PathVersions, NamedEntry, Iterator, entry_of, move_to_next, begin, increment, visit_from,
  visit,
}

module _ {T : Type 0} where
  abbrev entries_of : ℕ → List (Version T) → List (NamedEntry T)
  entries_of p [] = []
  entries_of p (v ∷ vs) = entry_of p v ∷ entries_of p vs

  -- The reference: the versions of all paths, path by path.
  abbrev pub entries : List (PathVersions T) → List (NamedEntry T)
  entries [] = []
  entries (p ∷ ps) = entries_of p.path p.versions ++ entries ps

  -- The iterator stands before these entries, and points to the first of them; behind them it is end(). At most
  -- `k` paths are left.
  data IsAt (k : ℕ) : List (NamedEntry T) → Option (Iterator T) → Type 0 where
    at_the_end :
        {vs : List (Version T)}
        → IsAt k [] (some (record { paths = []; versions = vs; ptr = none }))
    at_some :
        (p : PathVersions T) (ps : List (PathVersions T)) (w : Version T) (ws : List (Version T))
        → length ps < k
        → IsAt k
            (entries_of p.path (w ∷ ws) ++ entries ps)
            (some (record { paths = p ∷ ps; versions = w ∷ ws; ptr = some (entry_of p.path w) }))

  -- The branch of the loop after v was set to the begin of a path, or moved on.
  settle_versions :
      (k : ℕ) (o : Option (Iterator T)) (p : PathVersions T) (ps : List (PathVersions T))
      (ws : List (Version T))
      → length ps < k
      → IsAt k (entries ps) o
      → IsAt k (entries_of p.path ws ++ entries ps) (elim ws [
        | [] ↦ o
        | w ∷ ws ↦
            some (record { paths = p ∷ ps; versions = w ∷ ws; ptr = some (entry_of p.path w) })
      ])
  settle_versions k o p ps [] l h = h
  settle_versions k o p ps (w ∷ ws) l h = at_some p ps w ws l

  -- At the end of a path the loop goes on to the next version, if any.
  settle :
      (k n : ℕ) (init : Bool) (p : PathVersions T) (ps : List (PathVersions T))
      → length ps < k
      → length ps + 1 < n
      → IsAt k (entries ps) (move_to_next n init (p ∷ ps) [])
  unfolding move_to_next
  settle k zero init p ps b l = absurd (omega arith)
  settle k (suc zero) init p ps b l = absurd (omega arith)
  settle k (suc (suc n)) init p [] b l = at_the_end
  settle k (suc (suc n)) init p (q ∷ qs) b l =
      settle_versions k (move_to_next (suc n) init (q ∷ qs) []) q qs q.versions (omega arith)
        (settle k (suc n) init q qs (omega arith) (omega arith))

  begin-IsAt :
      (n : ℕ) (ps : List (PathVersions T))
      → length ps < n
      → IsAt (length ps) (entries ps) (begin n ps)
  unfolding begin move_to_next
  begin-IsAt zero ps l = absurd (omega arith)
  begin-IsAt (suc n) [] l = at_the_end
  begin-IsAt (suc n) (p ∷ ps) l = first_versions p.versions
    where
      first_versions :
          (ws : List (Version T))
          → IsAt
              (suc (length ps))
              (entries_of p.path ws ++ entries ps)
              (move_to_next (suc n) true (p ∷ ps) ws)
      first_versions [] = settle (suc (length ps)) (suc n) true p ps (omega arith) (omega arith)
      first_versions (w ∷ ws) = at_some p ps w ws (omega arith)

  increment-IsAt :
      (k n : ℕ) (p : PathVersions T) (ps : List (PathVersions T)) (v : Version T)
      (vs : List (Version T))
      → length ps < k
      → k + 1 < n
      → IsAt k (entries_of p.path vs ++ entries ps) (move_to_next n false (p ∷ ps) (v ∷ vs))
  unfolding move_to_next
  increment-IsAt k zero p ps v vs b l = absurd (omega arith)
  increment-IsAt k (suc n) p ps v vs b l =
      settle_versions k (move_to_next n false (p ∷ ps) []) p ps vs b
        (settle k n false p ps b (omega arith))

  visit_from-IsAt :
      (k n m : ℕ) (es : List (NamedEntry T)) (o : Option (Iterator T))
      → IsAt k es o
      → k + 1 < n
      → length es < m
      → visit_from n m o ≡ (es, true)
  unfolding visit_from increment
  visit_from-IsAt k n zero es o a f l = absurd (omega arith)
  visit_from-IsAt k n (suc m) _ _ at_the_end f l = refl
  visit_from-IsAt k n (suc m) _ _ (at_some p ps w ws b) f l =
      let next = increment-IsAt k n p ps w ws b f in
      ap (λ r. (entry_of p.path w ∷ r.0, r.1)) (visit_from-IsAt k n m _ _ next f (omega arith))

  -- A loop over the map visits each version of each path once, path by path, also when paths have no versions, and
  -- comes to its end. The fuel of the iterator is more than the number of paths by two, and the rounds are more
  -- than the versions.
  pub visit-entries :
      (n m : ℕ) (ps : List (PathVersions T))
      → length ps + 1 < n
      → length (entries ps) < m
      → visit n m ps ≡ (entries ps, true)
  unfolding visit
  visit-entries n m ps f l =
      visit_from-IsAt (length ps) n m (entries ps) (begin n ps) (begin-IsAt n ps (omega arith)) f l
