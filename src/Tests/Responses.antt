-- ===== src/Tests/Responses.antt =====
-- A command line of 22 characters with its spaces and quotes, and limits of 30 and 10.
use software.Base.{
  ◌+◌, ◌≤◌, ◌<◌, ◌≡◌, refl, Bool, true, false, List, [], ◌∷◌, ◌++◌, map, length, none, ◌⊎◌, take,
}
use software.Builder.Command.Response.{
  Str, Options, line_size, get_first_response_file_argument, get_arguments,
  get_response_file_contents,
}
use software.Builder.Command.Response.Line.{line_size-get_arguments}
use software.Builder.Command.Response.Contents.{lines, lines-get_response_file_contents}

abbrev options : Options
options = record {
  use_response_files = none;
  first_response_file_argument = 1;
  protect_args_with_quotes = false;
}

-- "cl", "-c", "a.cpp", "-O"
abbrev cl : Str
cl = 99 ∷ 108 ∷ []

abbrev rsp : Str
rsp = 114 ∷ []

abbrev arguments : List Str
arguments = (45 ∷ 99 ∷ []) ∷ (97 ∷ 46 ∷ 99 ∷ 112 ∷ 112 ∷ []) ∷ (45 ∷ 79 ∷ []) ∷ []

abbrev quoted : Bool → Str → Str
quoted q s = 34 ∷ s ++ 34 ∷ []

abbrev never : Str → Bool
never s = false

line_size-get_arguments_example :
    ((line_size (cl ∷ arguments) ≤ 10 + line_size (take 1 arguments))
      × (get_arguments options 10 cl rsp (cl ∷ arguments) ≡ cl ∷ arguments))
    ⊎ ((10 + line_size (take 1 arguments) < line_size (cl ∷ arguments))
        × (line_size (get_arguments options 10 cl rsp (cl ∷ arguments))
            ≡ ((length cl + 3) + line_size (take 1 arguments)) + (length rsp + 4)))
line_size-get_arguments_example = line_size-get_arguments options 10 cl rsp arguments refl

lines-get_response_file_contents_example :
    lines (get_response_file_contents quoted never options true (cl ∷ arguments))
    ≡ map (quoted false) ((97 ∷ 46 ∷ 99 ∷ 112 ∷ 112 ∷ []) ∷ (45 ∷ 79 ∷ []) ∷ [])
unfolding get_first_response_file_argument
lines-get_response_file_contents_example =
    lines-get_response_file_contents quoted never options (cl ∷ arguments)
      (97 ∷ 46 ∷ 99 ∷ 112 ∷ 112 ∷ []) ((45 ∷ 79 ∷ []) ∷ []) refl (refl, (refl, tt))
