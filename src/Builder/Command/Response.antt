-- ===== src/Builder/Command/Response.antt =====
-- src/sw/builder/command.cpp: the file of arguments for a long command line (needsResponseFile,
-- getResponseFileContents and what execute1 makes of the arguments). An argument is its text, a list of
-- character codes; `quote` is primitives' Argument::quote, with whether the arguments are protected with quotes.
-- Sizes are below 2^64.
pub mod Line
pub mod Contents
use software.Base.{
  ℕ, zero, suc, ◌+◌, Bool, true, false, not, ◌&&◌, ltb, if◌then◌else◌, List, [], ◌∷◌, ◌++◌, length,
  Option, none, some, take, drop,
}

abbrev pub Str : Type 0
Str = List ℕ

pub record Options : Type 0 where
  pub use_response_files : Option Bool
  pub first_response_file_argument : ℕ
  pub protect_args_with_quotes : Bool

-- Command::getFirstResponseFileArgument
unfoldable pub get_first_response_file_argument : Options → ℕ
get_first_response_file_argument o = suc o.first_response_file_argument

-- A space and two quotes for each argument.
abbrev pub line_size : List Str → ℕ
line_size [] = 0
line_size (a ∷ args) = (length a + 3) + line_size args

-- Command::needsResponseFile
unfoldable pub needs_response_file :
    Options → (selected_size : ℕ) → (program : Str) → List Str → Bool
unfolding get_first_response_file_argument
needs_response_file o selected_size program args =
    let sz = (length program + 3) + line_size (drop (get_first_response_file_argument o) args) in
    elim o.use_response_files [ none ↦ ltb selected_size sz | some b ↦ b ]

abbrev pub drop_last : Str → Str
drop_last [] = []
drop_last (c ∷ []) = []
drop_last (c ∷ d ∷ s) = c ∷ drop_last (d ∷ s)

module _ (quote : Bool → Str → Str) (is_show_includes : Str → Bool) where
  -- The loop of getResponseFileContents.
  unfoldable pub add_lines : Options → (show_includes : Bool) → List Str → (rsp : Str) → Str
  add_lines o show_includes [] rsp = rsp
  add_lines o show_includes (a ∷ args) rsp = add_lines o show_includes args (
      if not show_includes && is_show_includes a
      then rsp
      else (rsp ++ quote o.protect_args_with_quotes a) ++ 10 ∷ [])

  -- Command::getResponseFileContents
  unfoldable pub get_response_file_contents : Options → (show_includes : Bool) → List Str → Str
  unfolding add_lines get_first_response_file_argument
  get_response_file_contents o show_includes args =
      drop_last (add_lines o show_includes (drop (get_first_response_file_argument o) args) [])

-- The arguments that getArguments gives after the first part of execute1, for the name of the file.
unfoldable pub get_arguments :
    Options → (selected_size : ℕ) → (program rsp_file : Str) → List Str → List Str
unfolding needs_response_file get_first_response_file_argument
get_arguments o selected_size program rsp_file args =
    if needs_response_file o selected_size program args
    then take (get_first_response_file_argument o) args ++ (64 ∷ rsp_file) ∷ []
    else args
