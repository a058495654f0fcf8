-- ===== src/Builder/Deps/Written.antt =====
-- Reading a makefile of dependencies.
use software.Base.{
  ℕ, ◌≡◌, refl, sym, ap, ◌∙◌, Bool, true, false, not, ◌&&◌, ◌||◌, ◌==◌, if◌then◌else◌, Bool-cases,
  List, [], ◌∷◌, ◌++◌, none, some, inl, inr, arith, append_assoc, append-nil, mem, take, length,
  ◌-◌, subst, ==_iff,
}
use software.Builder.Deps.{
  Str, isspace, from_target, empty, file, file_name, scan, process_deps_gnu,
}

-- A name as it is written: with a backslash before each space.
unfoldable pub escape : Str → Str
escape [] = []
escape (c ∷ s) = if c == 32 then 92 ∷ 32 ∷ escape s else c ∷ escape s

-- The files of a line, with a space between them.
unfoldable pub write_line : List Str → Str
unfolding escape
write_line [] = []
write_line (f ∷ []) = escape f
write_line (f ∷ g ∷ fs) = escape f ++ 32 ∷ write_line (g ∷ fs)

-- The lines, each but the last with a backslash at its end, and each but the first with a space at its begin.
unfoldable pub write_lines : List (List Str) → Str
unfolding write_line
write_lines [] = 10 ∷ []
write_lines (l ∷ []) = write_line l ++ 10 ∷ []
write_lines (l ∷ m ∷ ls) = write_line l ++ 32 ∷ 92 ∷ 10 ∷ 32 ∷ write_lines (m ∷ ls)

unfoldable pub write : (target : Str) → List (List Str) → Str
unfolding write_lines
write target ls = target ++ 58 ∷ 32 ∷ write_lines ls

abbrev pub files_of : List (List Str) → List Str
files_of [] = []
files_of (l ∷ ls) = l ++ files_of ls

-- What compilers write in other ways: # and $, white space but spaces, and a space behind a backslash.
abbrev pub is_special : (before c : ℕ) → Bool
is_special b c =
    (not (c == 32) && isspace c) || ((c == 35) || ((c == 36) || ((b == 92) && (c == 32))))

-- The characters of a name after `c`: none is zero or special, and no backslash is at the end.
abbrev pub IsRest : ℕ → Str → Type 0
IsRest b [] = (b == 92) ≡ false
IsRest b (c ∷ s) = ((c == 0) ≡ false) × (is_special b c ≡ false) × IsRest c s

abbrev pub is_first : ℕ → Bool
is_first c = not ((c == 0) || ((c == 32) || ((c == 92) || is_special 0 c)))

-- A name that begins with neither a space nor a backslash.
abbrev pub IsName : Str → Type 0
IsName [] = ⊥
IsName (c ∷ s) = (is_first c ≡ true) × IsRest c s

abbrev pub AreNames : List Str → Type 0
AreNames [] = Unit
AreNames (f ∷ fs) = IsName f × AreNames fs

abbrev pub AreLines : List (List Str) → Type 0
AreLines [] = Unit
AreLines (l ∷ ls) = AreNames l × AreLines ls

from_target-append :
    (s t : Str) → from_target s ≡ none → from_target (s ++ 58 ∷ 32 ∷ t) ≡ some (32 ∷ t)
unfolding from_target
from_target-append [] t h = refl
from_target-append (c ∷ []) t h = ground arith
from_target-append (c ∷ d ∷ s) t h = ground (arith, from_target-append (d ∷ s) t)

plain :
    (c b before : ℕ)
    → (c == 32) ≡ false
    → is_special before c ≡ false
    → (not (isspace c) || b == 92) ≡ true
plain c b before e w = ground arith

module _ (replace_escaped : Str → Str) (ends_with_continuation : Str → Bool) where
  -- The loop passes over a character of a file's name,
  scan-longer :
      (b c : ℕ) (s t : Str)
      → (c == 0) ≡ false
      → (not (isspace c) || b == 92) ≡ true
      → scan replace_escaped ends_with_continuation b (file s) (c ∷ t)
        ≡ scan replace_escaped ends_with_continuation c (file (s ++ c ∷ [])) t
  unfolding scan
  scan-longer b c s t z l = ground arith

  -- and ends a name at white space that no backslash stands before.
  scan-ended :
      (b e : ℕ) (s t : Str)
      → isspace e ≡ true
      → (b == 92) ≡ false
      → scan replace_escaped ends_with_continuation b (file s) (e ∷ t)
        ≡ file_name replace_escaped ends_with_continuation s
          ∷ scan replace_escaped ends_with_continuation e empty t
  unfolding scan
  scan-ended b e s t w h = ground arith

  scan-begun :
      (b c : ℕ) (t : Str)
      → is_first c ≡ true
      → scan replace_escaped ends_with_continuation b empty (c ∷ t)
        ≡ scan replace_escaped ends_with_continuation c (file (c ∷ [])) t
  unfolding scan
  scan-begun b c t h = ground arith

  scan-skipped :
      (b e : ℕ) (t : Str)
      → isspace e ≡ true
      → scan replace_escaped ends_with_continuation b empty (e ∷ t)
        ≡ scan replace_escaped ends_with_continuation e empty t
  unfolding scan
  scan-skipped b e t w = ground arith

  scan-escape :
      (b d : ℕ) (s f t : Str)
      → isspace d ≡ true
      → IsRest b f
      → scan replace_escaped ends_with_continuation b (file s) (escape f ++ d ∷ t)
        ≡ file_name replace_escaped ends_with_continuation (s ++ escape f)
          ∷ scan replace_escaped ends_with_continuation d empty t
  unfolding escape
  scan-escape b d s [] t space h =
      scan-ended b d s t space h
      ∙ ap
          (λ x.
            file_name replace_escaped ends_with_continuation x
            ∷ scan replace_escaped ends_with_continuation d empty t)
          (sym (append-nil s))
  scan-escape b d s (c ∷ f) t space (z, w, h) =
      let sc : ℕ → Str → Str → List Str =
        λ p x y. scan replace_escaped ends_with_continuation p (file x) y in
      let Goal : Str → Type 0 = λ e.
        sc b s (e ++ d ∷ t)
        ≡ file_name replace_escaped ends_with_continuation (s ++ e)
          ∷ scan replace_escaped ends_with_continuation d empty t in
      let rest : (s' : Str)
          → sc c s' (escape f ++ d ∷ t)
            ≡ file_name replace_escaped ends_with_continuation (s' ++ escape f)
              ∷ scan replace_escaped ends_with_continuation d empty t =
        λ s'. scan-escape c d s' f t space h in
      elim (Bool-cases (c == 32)) [
        | inl e ↦
            let s' : Str = (s ++ 92 ∷ []) ++ 32 ∷ [] in
            subst Goal (sym (ap (λ b'. if b' then 92 ∷ 32 ∷ escape f else c ∷ escape f) e)) (
              scan-longer b 92 s (32 ∷ escape f ++ d ∷ t) refl refl
              ∙ scan-longer 92 32 (s ++ 92 ∷ []) (escape f ++ d ∷ t) refl refl
              ∙ scan-escape 32 d s' f t space (subst (λ x. IsRest x f) ((==_iff c 32).0 e) h)
              ∙ ap
                  (λ x.
                    file_name replace_escaped ends_with_continuation x
                    ∷ scan replace_escaped ends_with_continuation d empty t)
                  (append_assoc (s ++ 92 ∷ []) (32 ∷ []) (escape f)
                    ∙ append_assoc s (92 ∷ []) (32 ∷ escape f)))
        | inr e ↦ subst Goal (sym (ap (λ b'. if b' then 92 ∷ 32 ∷ escape f else c ∷ escape f) e)) (
            scan-longer b c s (escape f ++ d ∷ t) z (plain c b b e w)
            ∙ rest (s ++ c ∷ [])
            ∙ ap
                (λ x.
                  file_name replace_escaped ends_with_continuation x
                  ∷ scan replace_escaped ends_with_continuation d empty t)
                (append_assoc s (c ∷ []) (escape f)))
      ]

  escape-first : (c : ℕ) (s : Str) → is_first c ≡ true → escape (c ∷ s) ≡ c ∷ escape s
  unfolding escape
  escape-first c s h = ground arith

  mem-IsRest : (b : ℕ) (f : Str) → IsRest b f → mem 10 f ≡ false
  mem-IsRest b [] h = refl
  mem-IsRest b (c ∷ f) (z, w, h) = ground (arith, mem-IsRest c f)

  file_name-escape :
      ((s : Str) → replace_escaped (escape s) ≡ s)
      → ((s : Str) → mem 10 s ≡ false → ends_with_continuation s ≡ false)
      → (f : Str) → mem 10 f ≡ false
      → file_name replace_escaped ends_with_continuation (escape f) ≡ f
  file_name-escape replaces ends f h =
      let cut : Str → Str = λ s. if ends_with_continuation s then take (length s - 2) s else s in
      ap cut (replaces f) ∙ ap (λ b. if b then take (length f - 2) f else f) (ends f h)

  module _ (replaces : (s : Str) → replace_escaped (escape s) ≡ s)
      (ends : (s : Str) → mem 10 s ≡ false → ends_with_continuation s ≡ false) where
    scan-name :
        (b e : ℕ) (f t : Str)
        → isspace e ≡ true
        → IsName f
        → scan replace_escaped ends_with_continuation b empty (escape f ++ e ∷ t)
          ≡ f ∷ scan replace_escaped ends_with_continuation e empty t
    scan-name b e [] t w n = elim n [ ]
    scan-name b e (c ∷ f) t w (n, r) =
        let later : List Str = scan replace_escaped ends_with_continuation e empty t in
        let one_line : mem 10 (c ∷ f) ≡ false = ground (arith, mem-IsRest c f r) in
        ap (λ x. scan replace_escaped ends_with_continuation b empty (x ++ e ∷ t))
          (escape-first c f n)
        ∙ scan-begun b c (escape f ++ e ∷ t) n
        ∙ scan-escape c e (c ∷ []) f t w r
        ∙ ap (λ x. file_name replace_escaped ends_with_continuation x ∷ later)
            (sym (escape-first c f n))
        ∙ ap (λ x. x ∷ later) (file_name-escape replaces ends (c ∷ f) one_line)

    scan-write_line :
        (b e : ℕ) (l : List Str) (t : Str)
        → isspace e ≡ true
        → AreNames l
        → scan replace_escaped ends_with_continuation b empty (write_line l ++ e ∷ t)
          ≡ l ++ scan replace_escaped ends_with_continuation e empty t
    unfolding write_line
    scan-write_line b e [] t w h = scan-skipped b e t w
    scan-write_line b e (f ∷ []) t w (n, h) = scan-name b e f t w n
    scan-write_line b e (f ∷ g ∷ fs) t w (n, h) =
        ap (scan replace_escaped ends_with_continuation b empty)
          (append_assoc (escape f) (32 ∷ write_line (g ∷ fs)) (e ∷ t))
        ∙ scan-name b 32 f (write_line (g ∷ fs) ++ e ∷ t) refl n
        ∙ ap (λ x. f ∷ x) (scan-write_line 32 e (g ∷ fs) t w h)

    scan-write_lines :
        (b : ℕ) (ls : List (List Str))
        → AreLines ls
        → scan replace_escaped ends_with_continuation b empty (write_lines ls) ≡ files_of ls
    unfolding scan write_lines
    scan-write_lines b [] h = refl
    scan-write_lines b (l ∷ []) (n, h) = scan-write_line b 10 l [] refl n
    scan-write_lines b (l ∷ m ∷ ls) (n, h) =
        scan-write_line b 32 l (92 ∷ 10 ∷ 32 ∷ write_lines (m ∷ ls)) refl n
        ∙ ap (λ x. l ++ x) (scan-write_lines 32 (m ∷ ls) h)

    -- The files that are read from a makefile of dependencies are those that stand in it, line by line: a target,
    -- then several files on a line, with a backslash at the end of each line but the last and one before each
    -- space of a name. The names have no # and no $, no white space but spaces, none behind a backslash, and begin
    -- with neither a space nor a backslash nor end with a backslash; the target has no colon with a space.
    -- replace_all takes away the backslashes that were written before spaces, and a text without a line
    -- break does not end with one.
    pub process_deps_gnu-write :
        (target : Str) (ls : List (List Str))
        → from_target target ≡ none
        → AreLines ls
        → process_deps_gnu replace_escaped ends_with_continuation (write target ls) ≡ files_of ls
    unfolding process_deps_gnu write scan
    process_deps_gnu-write target ls t h =
        ap
          (λ o.
            scan replace_escaped ends_with_continuation 0 empty
              (elim o [ none ↦ write target ls | some s ↦ s ]))
          (from_target-append target (write_lines ls) t)
        ∙ scan-write_lines 32 ls h
