-- ===== src/Tests/Targeting.antt =====
-- A map with two versions of one package, 2 a release and 3 none, and a database with one row.
use software.Base.{
  ℕ, ◌≡◌, refl, ap, sym, ◌∙◌, some-eq, inl, inr, Bool-cases, arith, Bool, true, false, ◌==◌, not,
  if◌then◌else◌, List, [], ◌∷◌, mem, none, some, ok,
}
use software.Support.Settings.{setting, plain, Settings, end, entry, is_subset_of}
use software.Core.Targets.{
  TargetContainer, TargetMap, VersionMap, find_key, versions_of, find_request,
}
use software.Core.Targets.Latest.{IsGreatest}
use software.Core.Targets.Found.{find_request-IsGreatest}
use software.Core.Inputs.{
  Database, Disk, Row, File, get_file_hash, IsCurrent, get_file_hash-IsCurrent,
}

-- 1 is "configuration"; the target 10 is a debug target, and the others are release targets.
abbrev configured : ℕ → Settings
configured n = entry 1 (setting false (plain 5 n)) end

abbrev settings_of : ℕ → Settings
settings_of t = if t == 10 then configured 0 else configured 1

abbrev container : List ℕ → TargetContainer
container ts = record { input = none; targets = ts }

abbrev versions : VersionMap
versions = (1, container (12 ∷ [])) ∷ (2, container (10 ∷ 11 ∷ [])) ∷ (3, container (13 ∷ [])) ∷ []

abbrev targets : TargetMap
targets = (7, versions) ∷ []

abbrev released : ℕ → Bool
released v = not (v == 3)

abbrev any_version : ℕ → Bool
any_version v = true

find_request-IsGreatest_example :
    (v : ℕ) × IsGreatest released any_version (versions_of versions) v
    × ((c : TargetContainer) × (find_key v versions ≡ some c)
        × (mem 11 c.targets ≡ true)
        × (is_subset_of (settings_of 11) (configured 1) ≡ true))
unfolding find_request
find_request-IsGreatest_example =
    find_request-IsGreatest settings_of released any_version 7 11 (configured 1) targets versions
      refl (ground arith) refl

-- The file 5 has the time 8 and the content 3; the row is of the time 6. Every path is its own normal form, and no two are
-- equal but for case.
abbrev written : File
written = record { time = 8; content = 3 }

abbrev disk : Disk
disk = λ p. if p == 5 then some written else none

abbrev old_row : Row
old_row = record { hash = 20; last_write_time = 6 }

abbrev rows : Database
rows = λ p. if p == 5 then some old_row else none

abbrev identity : ℕ → ℕ
identity n = n

abbrev hashed : ℕ → ℕ
hashed n = 30

rows-IsCurrent : IsCurrent identity identity hashed disk rows
unfolding IsCurrent
rows-IsCurrent = λ p f r h d t. elim (Bool-cases (p == 5)) [
  | inl b ↦
      let hf : written ≡ f = some-eq (sym (ap (λ x. if x then some written else none) b) ∙ h) in
      let dr : old_row ≡ r = some-eq (sym (ap (λ x. if x then some old_row else none) b) ∙ d) in
      let times : (let x : ℕ = 6 in x) ≡ 8 =
        ap (λ (x : Row). x.last_write_time) dr ∙ t ∙ ap (λ (x : File). x.time) (sym hf) in
      ground arith
  | inr b ↦ let hn : none ≡ some f = sym (ap (λ x. if x then some written else none) b) ∙ h in cc
]

get_file_hash-IsCurrent_example :
    ((get_file_hash identity identity hashed disk 5 rows).0 ≡ ok 30)
    × IsCurrent identity identity hashed disk (get_file_hash identity identity hashed disk 5 rows).1
get_file_hash-IsCurrent_example =
    get_file_hash-IsCurrent identity identity hashed disk 5 written rows (λ q e. ap disk e) refl
      rows-IsCurrent

-- The path 6 is the path 5 with another case, and another file of the same time.
abbrev folded : ℕ → ℕ
folded p = if p == 6 then 5 else p

abbrev both : Disk
both = λ p. if p == 5 then some written else some (record { time = 8; content = 4 })

abbrev row : Database
row = λ p. if p == 5 then some (record { hash = 3; last_write_time = 8 }) else none

-- The hash of the other file is taken.
hash-taken : (get_file_hash folded identity identity both 6 row).0 ≡ ok 3
unfolding get_file_hash
hash-taken = refl
