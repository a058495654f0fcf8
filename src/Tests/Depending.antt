-- ===== src/Tests/Depending.antt =====
-- Two lines of files.
use software.Base.{
  ℕ, ◌≡◌, refl, sym, ap, ◌∙◌, Bool, false, ◌&&◌, ◌==◌, ==_iff, if◌then◌else◌, Bool-cases, [], ◌∷◌,
  mem, inl, inr, arith, subst,
}
use software.Builder.Deps.{Str, from_target, process_deps_gnu}
use software.Builder.Deps.Written.{escape, write, process_deps_gnu-write}

-- boost::replace_all and pystring::endswith for the texts of process_deps_gnu
unfoldable replace_escaped : Str → Str
replace_escaped [] = []
replace_escaped (c ∷ []) = c ∷ []
replace_escaped (c ∷ d ∷ s) =
    let rest = replace_escaped (d ∷ s) in
    let after = replace_escaped s in if (c == 92) && (d == 32) then 32 ∷ after else c ∷ rest

unfoldable ends_with_continuation : Str → Bool
ends_with_continuation [] = false
ends_with_continuation (c ∷ []) = false
ends_with_continuation (c ∷ d ∷ []) = (c == 92) && (d == 10)
ends_with_continuation (c ∷ d ∷ e ∷ s) = ends_with_continuation (d ∷ e ∷ s)

ends : (s : Str) → mem 10 s ≡ false → ends_with_continuation s ≡ false
unfolding ends_with_continuation
ends [] h = refl
ends (c ∷ []) h = refl
ends (c ∷ d ∷ []) h = ground arith
ends (c ∷ d ∷ e ∷ s) h = ground (arith, ends (d ∷ e ∷ s))

passes :
    (c d : ℕ) (s : Str)
    → ((c == 92) && (d == 32)) ≡ false
    → replace_escaped (c ∷ d ∷ s) ≡ c ∷ replace_escaped (d ∷ s)
unfolding replace_escaped
passes c d s h = ap (λ b. if b then 32 ∷ replace_escaped s else c ∷ replace_escaped (d ∷ s)) h

passes-escape : (c : ℕ) (s : Str) → replace_escaped (c ∷ escape s) ≡ c ∷ replace_escaped (escape s)
unfolding replace_escaped escape
passes-escape c [] = refl
passes-escape c (d ∷ s) =
    let Goal : Str → Type 0 = λ e. replace_escaped (c ∷ e) ≡ c ∷ replace_escaped e in
    let choice : Bool → Str = λ b. if b then 92 ∷ 32 ∷ escape s else d ∷ escape s in
    elim (Bool-cases (d == 32)) [
      | inl e ↦ subst Goal (sym (ap choice e)) (
          passes c 92 (32 ∷ escape s) (elim (Bool-cases (c == 92)) [
            | inl q ↦ ap (λ b. b && false) q
            | inr q ↦ ap (λ b. b && false) q
          ]))
      | inr e ↦ subst Goal (sym (ap choice e)) (passes c d (escape s) (ground arith))
    ]

replaces : (s : Str) → replace_escaped (escape s) ≡ s
unfolding replace_escaped escape
replaces [] = refl
replaces (c ∷ s) =
    let choice : Bool → Str = λ b. if b then 92 ∷ 32 ∷ escape s else c ∷ escape s in
    elim (Bool-cases (c == 32)) [
      | inl e ↦
          ap (λ b. replace_escaped (choice b)) e
          ∙ ap (λ x. 32 ∷ x) (replaces s)
          ∙ ap (λ x. x ∷ s) (sym ((==_iff c 32).0 e))
      | inr e ↦
          ap (λ b. replace_escaped (choice b)) e ∙ passes-escape c s ∙ ap (λ x. c ∷ x) (replaces s)
    ]

-- "a: b\\ c d \\", a line break and " e"
process_deps_gnu-write_example :
    process_deps_gnu replace_escaped ends_with_continuation
      (write (97 ∷ []) (((98 ∷ 32 ∷ 99 ∷ []) ∷ (100 ∷ []) ∷ []) ∷ ((101 ∷ []) ∷ []) ∷ []))
    ≡ (98 ∷ 32 ∷ 99 ∷ []) ∷ (100 ∷ []) ∷ (101 ∷ []) ∷ []
unfolding from_target
process_deps_gnu-write_example =
    process_deps_gnu-write replace_escaped ends_with_continuation replaces ends (97 ∷ [])
      (((98 ∷ 32 ∷ 99 ∷ []) ∷ (100 ∷ []) ∷ []) ∷ ((101 ∷ []) ∷ []) ∷ []) refl (ground arith)
