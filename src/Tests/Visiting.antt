-- ===== src/Tests/Visiting.antt =====
-- A map of packages with a path whose only version was erased.
use software.Base.{ℕ, ◌≡◌, refl, true, arith, List, [], ◌∷◌}
use software.Support.PackageMap.{PathVersions, emplace, erase_name, visit}
use software.Support.PackageMap.Visits.{entries, visit-entries}

abbrev some_versions : List (PathVersions ℕ)
some_versions =
    (record { path = 1; versions = (record { version = 5; value = 50 }) ∷ [] })
    ∷ (record { path = 2; versions = [] })
    ∷ (record {
      path = 3;
      versions = (record { version = 6; value = 60 }) ∷ (record { version = 7; value = 70 }) ∷ [];
    })
    ∷ []

emplace-erase_name :
    emplace 3 7 70 (emplace 3 6 60 (erase_name 2 9 (emplace 2 9 90 (emplace 1 5 50 []))))
    ≡ some_versions
unfolding emplace erase_name
emplace-erase_name = refl

visit-entries_example : visit 5 4 some_versions ≡ (entries some_versions, true)
visit-entries_example = visit-entries 5 4 some_versions (omega arith) (omega arith)
