-- ===== src/Builder/Command/Hash.antt =====
-- src/sw/builder/command.cpp: Command::getHash.
use software.Base.{ℕ, not, ◌==◌, ltb, if◌then◌else◌, List, [], ◌∷◌, map}
use software.Builder.Command.{Argument, Command, Outside}

-- std::set of texts
abbrev pub insert_sorted : ℕ → List ℕ → List ℕ
insert_sorted x [] = x ∷ []
insert_sorted x (y ∷ ys) =
    let rest = insert_sorted x ys in
    if ltb x y then x ∷ y ∷ ys else if x == y then y ∷ ys else y ∷ rest

abbrev pub sorted_set : List ℕ → List ℕ
sorted_set [] = []
sorted_set (x ∷ xs) = insert_sorted x (sorted_set xs)

-- getProgram: the first argument
abbrev pub program : List Argument → ℕ
program [] = 0
program (a ∷ rest) = a.text

module _ (out : Outside) where
  combine_all : (ℕ → ℕ) → List ℕ → ℕ → ℕ
  combine_all hash_of [] h = h
  combine_all hash_of (x ∷ xs) h = combine_all hash_of xs (out.combine h (hash_of x))

  combine_file : ℕ → ℕ → ℕ
  combine_file p h = if p == 0 then h else out.combine h (out.paths.path_hash p)

  combine_environment : List (ℕ × ℕ) → ℕ → ℕ
  combine_environment [] h = h
  combine_environment ((k, v) ∷ env) h =
      combine_environment env (out.combine (out.combine h (out.text_hash k)) (out.text_hash v))

  -- Command::getHash1
  unfoldable pub hash_1 : Command → ℕ
  unfolding combine_all combine_file combine_environment
  hash_1 c =
      let h₁ = out.combine 0 (out.paths.path_hash (program c.arguments)) in
      let h₂ = combine_all out.text_hash (sorted_set (map (λ a. a.text) c.arguments)) h₁ in
      let h₃ = combine_file c.err_file (combine_file c.out_file (combine_file c.in_file h₂)) in
      combine_environment c.environment (out.combine h₃ (out.paths.path_hash c.working_directory))

  unfoldable pub get_hash : Command → ℕ
  unfolding hash_1
  get_hash c = if not (c.hash == 0) then c.hash else hash_1 c
