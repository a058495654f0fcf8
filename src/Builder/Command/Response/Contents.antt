-- ===== src/Builder/Command/Response/Contents.antt =====
-- The lines of the file of arguments.
use software.Base.{
  ℕ, ◌≡◌, refl, sym, ap, ◌∙◌, Bool, true, false, ◌==◌, if◌then◌else◌, List, [], ◌∷◌, ◌++◌, map, mem,
  drop, arith, append-nil, append_assoc,
}
use software.Builder.Command.Response.{
  Str, Options, drop_last, get_first_response_file_argument, add_lines, get_response_file_contents,
}

abbrev head_line : ℕ → List Str → List Str
head_line c [] = (c ∷ []) ∷ []
head_line c (l ∷ ls) = (c ∷ l) ∷ ls

-- The lines of a text.
unfoldable pub lines : Str → List Str
lines [] = [] ∷ []
lines (c ∷ s) = let rest = lines s in if c == 10 then [] ∷ rest else head_line c rest

terminated : List Str → Str
terminated [] = []
terminated (x ∷ xs) = x ++ 10 ∷ terminated xs

joined : Str → List Str → Str
joined x [] = x
joined x (y ∷ ys) = x ++ 10 ∷ joined y ys

abbrev pub AreLines : List Str → Type 0
AreLines [] = Unit
AreLines (x ∷ xs) = (mem 10 x ≡ false) × AreLines xs

terminated-joined : (x : Str) (xs : List Str) → terminated (x ∷ xs) ≡ joined x xs ++ 10 ∷ []
unfolding terminated joined
terminated-joined x [] = refl
terminated-joined x (y ∷ ys) =
    ap (λ s. x ++ 10 ∷ s) (terminated-joined y ys)
    ∙ sym (append_assoc x (10 ∷ joined y ys) (10 ∷ []))

drop_last-append : (s : Str) (c : ℕ) → drop_last (s ++ c ∷ []) ≡ s
drop_last-append [] c = refl
drop_last-append (a ∷ []) c = refl
drop_last-append (a ∷ b ∷ s) c = ap (λ t. a ∷ t) (drop_last-append (b ∷ s) c)

lines-line : (x : Str) → mem 10 x ≡ false → lines x ≡ x ∷ []
unfolding lines
lines-line [] h = refl
lines-line (c ∷ x) h = ground (arith, lines-line x)

lines-append : (x s : Str) → mem 10 x ≡ false → lines (x ++ 10 ∷ s) ≡ x ∷ lines s
unfolding lines
lines-append [] s h = refl
lines-append (c ∷ x) s h = ground (arith, lines-append x s)

lines-joined : (x : Str) (xs : List Str) → AreLines (x ∷ xs) → lines (joined x xs) ≡ x ∷ xs
unfolding joined
lines-joined x [] h = lines-line x h.0
lines-joined x (y ∷ ys) (h, hs) =
    lines-append x (joined y ys) h ∙ ap (λ ls. x ∷ ls) (lines-joined y ys hs)

module _ (quote : Bool → Str → Str) (is_show_includes : Str → Bool) where
  add_lines-terminated :
      (o : Options) (args : List Str) (rsp : Str)
      → add_lines quote is_show_includes o true args rsp
        ≡ rsp ++ terminated (map (quote o.protect_args_with_quotes) args)
  unfolding add_lines terminated
  add_lines-terminated o [] rsp = sym (append-nil rsp)
  add_lines-terminated o (a ∷ args) rsp =
      let q = quote o.protect_args_with_quotes in
      add_lines-terminated o args ((rsp ++ q a) ++ 10 ∷ [])
      ∙ append_assoc (rsp ++ q a) (10 ∷ []) (terminated (map q args))
      ∙ append_assoc rsp (q a) (10 ∷ terminated (map q args))

  -- The lines of the file of arguments are the quoted arguments, from the first that goes into the file on,
  -- when there is one and no quoted argument has a line break.
  pub lines-get_response_file_contents :
      (o : Options) (args : List Str) (a : Str) (rest : List Str)
      → drop (get_first_response_file_argument o) args ≡ a ∷ rest
      → AreLines (map (quote o.protect_args_with_quotes) (a ∷ rest))
      → lines (get_response_file_contents quote is_show_includes o true args)
        ≡ map (quote o.protect_args_with_quotes) (a ∷ rest)
  unfolding get_response_file_contents
  lines-get_response_file_contents o args a rest e h =
      let q = quote o.protect_args_with_quotes in
      ap (λ as'. lines (drop_last (add_lines quote is_show_includes o true as' []))) e
      ∙ ap (λ s. lines (drop_last s)) (add_lines-terminated o (a ∷ rest) [])
      ∙ ap (λ s. lines (drop_last s)) (terminated-joined (q a) (map q rest))
      ∙ ap lines (drop_last-append (joined (q a) (map q rest)) 10)
      ∙ lines-joined (q a) (map q rest) h
