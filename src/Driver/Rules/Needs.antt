-- ===== src/Driver/Rules/Needs.antt =====
-- RuleFile::getDependencies1 finds the commands that make a file's dependencies.
use software.Base.{
  ℕ, zero, suc, ◌<◌, ◌≡◌, ◌↔◌, ◌⊎◌, refl, sym, ap, subst, ◌∙◌, true, ◌==◌, ==_iff, or-cases, List,
  [], ◌∷◌, mem, insert, none, some, Option-cases, some-eq, Result, ok, for, inl, inr, arith,
}
use software.Driver.Rules.Adds.{Adds, Adds-none, Adds-insert, Adds-unite, Adds-then}
use software.Driver.Rules.{
  RuleFile, RuleFiles, OutputCommand, Error, find_file, find_command, unite, commands_of_file,
  free_command, commands_of, get_dependencies_1,
}

module _ (rfs : RuleFiles) where
  -- The command `c` makes the file `d`: it is the file's own, a free one with this output, or, when the file has
  -- no command, makes one of the file's dependencies.
  pub data Makes : (d c : ℕ) → Type 0 where
    own : {d c : ℕ} (f : RuleFile) → find_file d rfs ≡ some f → f.command ≡ some c → Makes d c
    free : {d c : ℕ} (o : OutputCommand) → find_command d rfs ≡ some o → o.command ≡ c → Makes d c
    through :
        {d c : ℕ} (f : RuleFile) (e : ℕ)
        → find_file d rfs ≡ some f
        → f.command ≡ none
        → mem e f.dependencies ≡ true
        → Makes e c
        → Makes d c

  -- Every dependency of a file without a command is a rule file or the output of a free command.
  abbrev pub IsKnown : ℕ → Type 0
  IsKnown d =
      ((f : RuleFile) × (find_file d rfs ≡ some f))
      ⊎ ((o : OutputCommand) × (find_command d rfs ≡ some o))

  abbrev pub IsClosed : Type 0
  IsClosed =
      (d e : ℕ) (f : RuleFile)
      → find_file d rfs ≡ some f
      → f.command ≡ none
      → mem e f.dependencies ≡ true
      → IsKnown e

  -- No chain of files without commands comes back: what such a file depends on has a smaller rank.
  abbrev pub IsRanked : (ℕ → ℕ) → Type 0
  IsRanked rank =
      (d e : ℕ) (f : RuleFile)
      → find_file d rfs ≡ some f
      → f.command ≡ none
      → mem e f.dependencies ≡ true
      → rank e < rank d

  -- The commands that make one of the files.
  abbrev pub MakesOne : List ℕ → ℕ → Type 0
  MakesOne ds c = (d : ℕ) × (mem d ds ≡ true) × Makes d c

  abbrev FromFile : (d c : ℕ) → Type 0
  FromFile d c =
      (f : RuleFile) × (find_file d rfs ≡ some f)
      × ((f.command ≡ some c) ⊎ ((f.command ≡ none) × MakesOne f.dependencies c))

  abbrev FromFree : (d c : ℕ) → Type 0
  FromFree d c = (o : OutputCommand) × (find_command d rfs ≡ some o) × (o.command ≡ c)

  Makes-cases : {d c : ℕ} → Makes d c → FromFile d c ⊎ FromFree d c
  Makes-cases (own f e k) = inl (f, e, inl k)
  Makes-cases (free o e k) = inr (o, e, k)
  Makes-cases (through f e found n m k) = inl (f, found, inr (n, (e, m, k)))

  FromFile-Makes : {d c : ℕ} → FromFile d c → Makes d c
  FromFile-Makes (f, e, inl k) = own f e k
  FromFile-Makes (f, e, inr (n, (d, m, k))) = through f d e n m k

  -- What the call for a file without a command gives.
  abbrev Answers : (RuleFile → Result Error (List ℕ)) → ℕ → Type 0
  Answers again d =
      (f : RuleFile)
      → find_file d rfs ≡ some f
      → f.command ≡ none
      → (more : List ℕ) × (again f ≡ ok more)
        × ((c : ℕ) → (mem c more ≡ true) ↔ MakesOne f.dependencies c)

  only_own :
      (d : ℕ) (f : RuleFile) (x : ℕ)
      → find_file d rfs ≡ some f
      → f.command ≡ some x
      → (c : ℕ) → FromFile d c
      → x ≡ c
  only_own d f x e k c (g, eg, inl k') =
      let same : f ≡ g = some-eq (sym e ∙ eg) in
      some-eq (sym k ∙ ap (λ (z : RuleFile). z.command) same ∙ k')
  only_own d f x e k c (g, eg, inr (n, _)) =
      let same : f ≡ g = some-eq (sym e ∙ eg) in
      absurd (cc (sym k ∙ ap (λ (z : RuleFile). z.command) same ∙ n))

  only_through :
      (d : ℕ) (f : RuleFile)
      → find_file d rfs ≡ some f
      → f.command ≡ none
      → (c : ℕ) → FromFile d c
      → MakesOne f.dependencies c
  only_through d f e k c (g, eg, inl k') =
      let same : f ≡ g = some-eq (sym e ∙ eg) in
      absurd (cc (sym k ∙ ap (λ (z : RuleFile). z.command) same ∙ k'))
  only_through d f e k c (g, eg, inr (_, m)) =
      subst (λ (z : RuleFile). MakesOne z.dependencies c) (some-eq (sym eg ∙ e)) m

  only_free :
      (d : ℕ) (o : OutputCommand)
      → find_command d rfs ≡ some o
      → (c : ℕ) → FromFree d c
      → o.command ≡ c
  only_free d o e c (o', e', k) = ap (λ (z : OutputCommand). z.command) (some-eq (sym e ∙ e')) ∙ k

  commands_of_file-FromFile :
      (again : RuleFile → Result Error (List ℕ)) (d : ℕ) (cmds : List ℕ)
      → Answers again d
      → (cmds' : List ℕ) × (commands_of_file again rfs d cmds ≡ ok cmds')
        × Adds (FromFile d) cmds cmds'
  unfolding commands_of_file
  commands_of_file-FromFile again d cmds answers = elim (Option-cases (find_file d rfs)) [
    | inl e ↦
        (cmds, rw (commands_of_file, e) refl, Adds-none (FromFile d) cmds (λ c p. cc (sym e ∙ p.1)))
    | inr (f, e) ↦ elim (Option-cases f.command) [
      | inr (x, k) ↦ (
        insert x cmds,
        rw (commands_of_file, e, k) refl,
        Adds-insert (FromFile d) cmds x (f, e, inl k) (λ c p. only_own d f x e k c p),
      )
      | inl k ↦
          let (more, done, h) = answers f e k in
          (
            unite more cmds,
            rw (commands_of_file, e, k, done) refl,
            Adds-unite (FromFile d) cmds more
                (λ c. (λ m. (f, e, inr (k, (h c).0 m)), λ p. (h c).1 (only_through d f e k c p))),
          )
    ]
  ]

  free_command-FromFree :
      (d : ℕ) (cmds : List ℕ)
      → IsKnown d
      → (cmds' : List ℕ) × (free_command rfs d cmds ≡ ok cmds') × Adds (FromFree d) cmds cmds'
  unfolding free_command
  free_command-FromFree d cmds known = elim (Option-cases (find_command d rfs)) [
    | inr (o, e) ↦ (
      insert o.command cmds,
      rw (free_command, e) refl,
      Adds-insert (FromFree d) cmds o.command (o, e, refl) (λ c p. only_free d o e c p),
    )
    | inl e ↦ (
      cmds,
      (elim known [
        | inl (f, k) ↦ rw (free_command, e, k) refl
        | inr (o, k) ↦ absurd (cc (sym e ∙ k))
      ]),
      Adds-none (FromFree d) cmds (λ c p. cc (sym e ∙ p.1)),
    )
  ]

  commands_of-Makes :
      (again : RuleFile → Result Error (List ℕ)) (d : ℕ) (cmds : List ℕ)
      → Answers again d
      → IsKnown d
      → (cmds' : List ℕ) × (commands_of again rfs d cmds ≡ ok cmds') × Adds (Makes d) cmds cmds'
  unfolding commands_of
  commands_of-Makes again d cmds answers known =
      let (cmds₁, e₁, h₁) = commands_of_file-FromFile again d cmds answers in
      let (cmds₂, e₂, h₂) = free_command-FromFree d cmds₁ known in
      (
        cmds₂,
        rw (commands_of, e₁) e₂,
        Adds-then (FromFile d) (FromFree d) (Makes d) cmds cmds₁ cmds₂ (λ c m. Makes-cases m)
            (λ c p. FromFile-Makes p) (λ c p. free p.0 p.1 p.2) h₁ h₂,
      )

  loop-MakesOne :
      (again : RuleFile → Result Error (List ℕ)) (ds cmds : List ℕ)
      → ((d : ℕ) → mem d ds ≡ true → Answers again d × IsKnown d)
      → (cmds' : List ℕ) × (for (commands_of again rfs) ds cmds ≡ ok cmds')
        × Adds (MakesOne ds) cmds cmds'
  loop-MakesOne again [] cmds h = (cmds, refl, Adds-none (MakesOne []) cmds (λ c p. cc p.1))
  loop-MakesOne again (d ∷ ds) cmds h =
      let (a, known) = h d (ground arith) in
      let (cmds₁, e₁, h₁) = commands_of-Makes again d cmds a known in
      let (cmds₂, e₂, h₂) = loop-MakesOne again ds cmds₁ (λ e m. h e (ground arith)) in
      (
        cmds₂,
        rw e₁ e₂,
        Adds-then (Makes d) (MakesOne ds) (MakesOne (d ∷ ds)) cmds cmds₁ cmds₂
            (λ c p. elim (or-cases (p.0 == d) (mem p.0 ds) p.1) [
              | inl q ↦ inl (subst (λ i. Makes i c) ((==_iff p.0 d).0 q) p.2)
              | inr m ↦ inr (p.0, m, p.2)
            ])
            (λ c p. (d, ground arith, p)) (λ c p. (p.0, ground arith, p.2)) h₁ h₂,
      )

  get_dependencies_1_round :
      (n : ℕ) (f : RuleFile)
      → ((d : ℕ) → mem d f.dependencies ≡ true → Answers (get_dependencies_1 n rfs) d × IsKnown d)
      → (cmds : List ℕ) × (get_dependencies_1 (suc n) rfs f ≡ ok cmds)
        × ((c : ℕ) → (mem c cmds ≡ true) ↔ MakesOne f.dependencies c)
  unfolding get_dependencies_1
  get_dependencies_1_round n f h =
      let (cmds, e, a) = loop-MakesOne (get_dependencies_1 n rfs) f.dependencies [] h in
      (
        cmds,
        e,
        λ c. (λ m. elim ((a c).0 m) [ inl z ↦ absurd (cc z) | inr p ↦ p ], λ p. (a c).1 (inr p)),
      )

  -- getDependencies1 returns, whatever the file is: the commands that it gives are exactly those that make one of
  -- the file's dependencies. The files without commands do not depend on each other in a circle, and every
  -- dependency is a rule file or the output of a free command. The depth of the recursion is at most the rank of
  -- the dependencies.
  pub get_dependencies_1-MakesOne :
      (rank : ℕ → ℕ) (n : ℕ) (f : RuleFile)
      → IsClosed
      → IsRanked rank
      → ((d : ℕ) → mem d f.dependencies ≡ true → IsKnown d × (rank d < n))
      → (cmds : List ℕ) × (get_dependencies_1 (suc n) rfs f ≡ ok cmds)
        × ((c : ℕ) → (mem c cmds ≡ true) ↔ MakesOne f.dependencies c)
  get_dependencies_1-MakesOne rank zero f closed ranked h =
      get_dependencies_1_round zero f
        (λ d m. (let (_, small) = h d m in absurd (omega arith), (h d m).0))
  get_dependencies_1-MakesOne rank (suc n) f closed ranked h =
      get_dependencies_1_round (suc n) f (λ d m. (
        λ g eg k. get_dependencies_1-MakesOne rank n g closed ranked (λ e i. (
          closed d e g eg k i,
          (let lower = ranked d e g eg k i in let (_, small) = h d m in omega arith),
        )),
        (h d m).0,
      ))
