-- ===== src/Builder/Deps.antt =====
-- src/sw/builder/command.cpp: process_deps_gnu, the files in a makefile of dependencies. A character is its
-- code. boost::replace_all for "\ " by " " and pystring::endswith for "\" with a line break are parameters.
pub mod Written
use software.Base.{
  ℕ, zero, suc, ◌-◌, Bool, true, false, not, ◌&&◌, ◌||◌, ◌==◌, leb, if◌then◌else◌, List, [], ◌∷◌,
  ◌++◌, length, take, Option, none, some,
}

abbrev pub Str : Type 0
Str = List ℕ

-- isspace in the C locale
abbrev pub isspace : ℕ → Bool
isspace c = (c == 32) || (leb 9 c && leb c 13)

-- `f.substr(f.find(": ") + 1)`; npos + 1 is 0.
unfoldable pub from_target : Str → Option Str
from_target [] = none
from_target (c ∷ []) = none
from_target (c ∷ d ∷ s) =
    let rest = from_target (d ∷ s) in if (c == 58) && (d == 32) then some (d ∷ s) else rest

abbrev pub skip_target : Str → Str
skip_target f = elim (from_target f) [ none ↦ f | some s ↦ s ]

pub data Scan : Type 0 where
  empty : Scan
  -- the characters from `begin` on
  file : Str → Scan

module _ (replace_escaped : Str → Str) (ends_with_continuation : Str → Bool) where
  abbrev pub file_name : Str → Str
  file_name s =
      let s' = replace_escaped s in
      if ends_with_continuation s' then take (length s' - 2) s' else s'

  -- The loop, with the character before `p`.
  unfoldable pub scan : (before : ℕ) → Scan → Str → List Str
  scan before state [] = []
  scan before empty (c ∷ t) =
      let skipped = scan c empty t in
      let begun = scan c (file (c ∷ [])) t in
      if c == 0 then [] else if isspace c || c == 92 then skipped else begun
  scan before (file s) (c ∷ t) =
      let longer = scan c (file (s ++ c ∷ [])) t in
      let ended = scan c empty t in
      if c == 0
      then []
      else if not (isspace c)
      then longer
      else if before == 92
      then longer
      else file_name s ∷ ended

  -- The files in the order of the text; 0 stands before the text, which is not read.
  unfoldable pub process_deps_gnu : Str → List Str
  unfolding scan from_target
  process_deps_gnu f = scan 0 empty (skip_target f)
