-- ===== src/Builder/Command/Response/Line.antt =====
-- The length of the command line, and the lines of the file of arguments.
use software.Base.{
  ℕ, zero, suc, ◌+◌, ◌≤◌, ◌<◌, ◌≡◌, refl, ap, ◌∙◌, ltb, Bool-cases, List, [], ◌∷◌, ◌++◌, length,
  none, some, ◌⊎◌, inl, inr, arith, take, drop,
}
use software.Builder.Command.Response.{
  Str, Options, line_size, needs_response_file, get_first_response_file_argument, get_arguments,
}

line_size-append : (xs ys : List Str) → line_size (xs ++ ys) ≡ line_size xs + line_size ys
line_size-append [] ys = omega arith
line_size-append (x ∷ xs) ys = omega (arith, line_size-append xs ys)

line_size-take :
    (n : ℕ) (args : List Str) → line_size (take n args) + line_size (drop n args) ≡ line_size args
line_size-take zero args = omega arith
line_size-take (suc n) [] = omega arith
line_size-take (suc n) (a ∷ args) = omega (arith, line_size-take n args)

-- The command line of a command that does not say whether it uses a file of arguments, by the length of its
-- arguments. When they are within the limit, but for those that never go into the file, the command line is
-- the arguments themselves; when they are longer, its length is that of the program, of the arguments that never
-- go into the file and of the file's name.
pub line_size-get_arguments :
    (o : Options) (limit : ℕ) (program rsp_file : Str) (args : List Str)
    → o.use_response_files ≡ none
    → ((line_size (program ∷ args) ≤ limit + line_size (take o.first_response_file_argument args))
        × (get_arguments o limit program rsp_file (program ∷ args) ≡ program ∷ args))
      ⊎ ((limit + line_size (take o.first_response_file_argument args) < line_size (program ∷ args))
          × (line_size (get_arguments o limit program rsp_file (program ∷ args))
              ≡ ((length program + 3) + line_size (take o.first_response_file_argument args))
                + (length rsp_file + 4)))
unfolding get_arguments needs_response_file get_first_response_file_argument
line_size-get_arguments o limit program rsp_file args h =
    let n : ℕ = o.first_response_file_argument in
    let needed : needs_response_file o limit program (program ∷ args)
        ≡ ltb limit ((length program + 3) + line_size (drop n args)) =
      ap
        (λ u. elim u [
          | none ↦ ltb limit ((length program + 3) + line_size (drop n args))
          | some b ↦ b
        ])
        h in
    elim (Bool-cases (ltb limit ((length program + 3) + line_size (drop n args)))) [
      | inl e ↦ inr (
        ground (arith, line_size-take n args),
        rw (needed, e)
            (line_size-append (program ∷ take n args) ((64 ∷ rsp_file) ∷ []) ∙ omega arith),
      )
      | inr e ↦ inl (ground (arith, line_size-take n args), rw (needed, e) refl)
    ]
