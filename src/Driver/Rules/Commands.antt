-- ===== src/Driver/Rules/Commands.antt =====
-- RuleFiles::getCommands: which commands it gives, and on which it makes them depend.
use software.Base.{
  ℕ, suc, ◌<◌, ◌≡◌, ◌≢◌, ◌↔◌, ◌⊎◌, refl, sym, ap, subst, ◌∙◌, true, false, ◌==◌, ==_iff, ==_of_ne,
  Bool-cases, or-cases, List, [], ◌∷◌, mem, insert, any, All, Option, none, some, Option-cases,
  some-eq, ok, for, inl, inr, arith,
}
use software.Builder.Node.{Heap, add_dependency, write}
use software.Driver.Rules.{
  RuleFile, RuleFiles, OutputCommand, depend, get_command, free_commands, commands_of_files,
  get_commands,
}
use software.Driver.Rules.Adds.{Adds, Adds-none, Adds-insert, Adds-then, Adds-same}
use software.Driver.Rules.Needs.{IsKnown, IsClosed, IsRanked, MakesOne, get_dependencies_1-MakesOne}

-- One dependency more, of one command.
depend-Adds :
    (c d : ℕ) (h : Heap)
    → d ≢ c
    → (h' : Heap) × (depend c d h ≡ ok h')
      × ((i : ℕ) → Adds (λ e. (i ≡ c) × (e ≡ d)) (h i).dependencies (h' i).dependencies)
unfolding depend add_dependency
depend-Adds c d h n =
    let h' = write h c (record (h c) { dependencies = insert d (h c).dependencies }) in
    (
      h',
      rw (depend, add_dependency, ==_of_ne d c n) refl,
      λ i. elim (Bool-cases (i == c)) [
        | inl q ↦
            let same = (==_iff i c).0 q in
            rw q (
              subst
                (λ j.
                  Adds (λ e. (i ≡ c) × (e ≡ d)) (h j).dependencies (insert d (h c).dependencies))
                (sym same)
                (Adds-insert (λ e. (i ≡ c) × (e ≡ d)) (h c).dependencies d (same, refl)
                  (λ e p. sym p.1)))
        | inr q ↦ rw q (
            Adds-none (λ e. (i ≡ c) × (e ≡ d)) (h i).dependencies
              (λ e p. let r = p.0 in ground (arith, ==_iff i c)))
      ],
    )

depend_all-Adds :
    (c : ℕ) (ds : List ℕ) (h : Heap)
    → mem c ds ≡ false
    → (h' : Heap) × (for (depend c) ds h ≡ ok h')
      × ((i : ℕ) → Adds (λ e. (i ≡ c) × (mem e ds ≡ true)) (h i).dependencies (h' i).dependencies)
depend_all-Adds c [] h m = (h, refl, λ i. Adds-none _ (h i).dependencies (λ e p. cc p.1))
depend_all-Adds c (d ∷ ds) h m =
    let (h₁, e₁, a₁) = depend-Adds c d h (λ e. ground arith) in
    let (h₂, e₂, a₂) = depend_all-Adds c ds h₁ (ground arith) in
    (
      h₂,
      rw e₁ e₂,
      λ i.
          Adds-then (λ e. (i ≡ c) × (e ≡ d)) (λ e. (i ≡ c) × (mem e ds ≡ true))
            (λ e. (i ≡ c) × (mem e (d ∷ ds) ≡ true)) (h i).dependencies (h₁ i).dependencies
            (h₂ i).dependencies
            (λ e p. elim (or-cases (e == d) (mem e ds) p.1) [
              | inl q ↦ inl (p.0, (==_iff e d).0 q)
              | inr m ↦ inr (p.0, m)
            ])
            (λ e p. (p.0, let r = p.1 in ground arith)) (λ e p. (p.0, ground arith)) (a₁ i) (a₂ i),
    )

free_commands-Adds :
    (os : List OutputCommand) (cmds : List ℕ)
    → Adds (λ c. any (λ (o : OutputCommand). o.command == c) os ≡ true) cmds (free_commands os cmds)
free_commands-Adds [] cmds = Adds-none _ cmds (λ c p. cc p)
free_commands-Adds (o ∷ os) cmds =
    Adds-then (λ c. o.command ≡ c) (λ c. any (λ (z : OutputCommand). z.command == c) os ≡ true)
      (λ c. any (λ (z : OutputCommand). z.command == c) (o ∷ os) ≡ true) cmds
      (insert o.command cmds) (free_commands os (insert o.command cmds))
      (λ c p. elim (or-cases (o.command == c) _ p) [
        | inl q ↦ inl ((==_iff o.command c).0 q)
        | inr q ↦ inr q
      ])
      (λ c p. ground (arith, ==_iff o.command c)) (λ c p. ground arith)
      (Adds-insert (λ c. o.command ≡ c) cmds o.command refl (λ c p. p))
      (free_commands-Adds os (insert o.command cmds))

module _ (rfs : RuleFiles) where
  -- The command of one of the files, and which command makes one of the file's dependencies.
  abbrev pub DependsOn : List RuleFile → (c d : ℕ) → Type 0
  DependsOn [] c d = ⊥
  DependsOn (f ∷ fs) c d = ((f.command ≡ some c) × MakesOne rfs f.dependencies d) ⊎ DependsOn fs c d

  abbrev pub IsCommandOf : List RuleFile → ℕ → Type 0
  IsCommandOf [] c = ⊥
  IsCommandOf (f ∷ fs) c = (f.command ≡ some c) ⊎ IsCommandOf fs c

  module _ (rank : ℕ → ℕ) (n : ℕ) (closed : IsClosed rfs) (ranked : IsRanked rfs rank) where
    -- A file whose dependencies are known, and which has no command that makes one of them.
    abbrev pub IsSound : RuleFile → Type 0
    IsSound f =
        ((d : ℕ) → mem d f.dependencies ≡ true → IsKnown rfs d × (rank d < n))
        × ((c : ℕ) → f.command ≡ some c → MakesOne rfs f.dependencies c → ⊥)

    get_command-Adds :
        (f : RuleFile) (h : Heap)
        → IsSound f
        → (h' : Heap) × (get_command (suc n) rfs f h ≡ ok (f.command, h'))
          × ((i : ℕ)
              → Adds
                  (λ d. (f.command ≡ some i) × MakesOne rfs f.dependencies d)
                  (h i).dependencies
                  (h' i).dependencies)
    unfolding get_command
    get_command-Adds f h (known, own) = elim (Option-cases f.command) [
      | inl e ↦ (
        h,
        rw (get_command, e) refl,
        λ i.
            Adds-none (λ d. (f.command ≡ some i) × MakesOne rfs f.dependencies d) (h i).dependencies
              (λ d p. cc (sym e ∙ p.0)),
      )
      | inr (c, e) ↦
          let (deps, done, makes) = get_dependencies_1-MakesOne rfs rank n f closed ranked known in
          let (h', all, adds) = depend_all-Adds c deps h (elim (Bool-cases (mem c deps)) [
            | inl m ↦ absurd (own c e ((makes c).0 m))
            | inr m ↦ m
          ]) in
          (
            h',
            rw (get_command, e, done, all) refl,
            λ i.
                Adds-same (λ d. (i ≡ c) × (mem d deps ≡ true))
                  (λ d. (f.command ≡ some i) × MakesOne rfs f.dependencies d) (h i).dependencies
                  (h' i).dependencies (λ d p. (e ∙ ap some (sym p.0), (makes d).0 p.1))
                  (λ d p. (some-eq (sym p.0 ∙ e), (makes d).1 p.1)) (adds i),
          )
    ]

    -- The set that grows by the command of a file, when it has one.
    command-Adds :
        (o : Option ℕ) (cmds : List ℕ)
        → Adds (λ c. o ≡ some c) cmds (elim o [ none ↦ cmds | some c ↦ insert c cmds ])
    command-Adds none cmds = Adds-none (λ c. none ≡ some c) cmds (λ c p. cc p)
    command-Adds (some x) cmds = Adds-insert (λ c. some x ≡ some c) cmds x refl (λ c p. some-eq p)

    commands_of_files-Adds :
        (fs : List RuleFile) (cmds : List ℕ) (h : Heap)
        → All IsSound fs
        → (cmds' : List ℕ) × (h' : Heap) × (commands_of_files (suc n) rfs fs (cmds, h)
            ≡ ok (cmds', h'))
          × Adds (IsCommandOf fs) cmds cmds'
          × ((i : ℕ) → Adds (DependsOn fs i) (h i).dependencies (h' i).dependencies)
    unfolding commands_of_files
    commands_of_files-Adds [] cmds h s = (
      cmds,
      h,
      refl,
      Adds-none (IsCommandOf []) cmds (λ c p. p),
      λ i. Adds-none (DependsOn [] i) (h i).dependencies (λ d p. p),
    )
    commands_of_files-Adds (f ∷ fs) cmds h (s, ss) =
        let (h₁, e₁, a₁) = get_command-Adds f h s in
        let cmds₁ : List ℕ = elim f.command [ none ↦ cmds | some c ↦ insert c cmds ] in
        let (cmds₂, h₂, e₂, c₂, a₂) = commands_of_files-Adds fs cmds₁ h₁ ss in
        (
          cmds₂,
          h₂,
          rw e₁ e₂,
          Adds-then (λ c. f.command ≡ some c) (IsCommandOf fs) (IsCommandOf (f ∷ fs)) cmds cmds₁
              cmds₂ (λ c p. p) (λ c p. inl p) (λ c p. inr p) (command-Adds f.command cmds) c₂,
          λ i.
              Adds-then (λ d. (f.command ≡ some i) × MakesOne rfs f.dependencies d) (DependsOn fs i)
                (DependsOn (f ∷ fs) i) (h i).dependencies (h₁ i).dependencies (h₂ i).dependencies
                (λ d p. p) (λ d p. inl p) (λ d p. inr p) (a₁ i) (a₂ i),
        )

    -- getCommands returns, and the commands that it gives are exactly the free ones and those of the files. A
    -- command then depends, besides what it depended on before, on exactly the commands that make a dependency of
    -- a file whose command it is. The dependencies of all files are rule files or outputs of free commands, files
    -- without commands do not depend on each other in a circle, and no command makes a dependency of its own file.
    pub get_commands-Adds :
        (h : Heap)
        → All IsSound rfs.rfs
        → (cmds : List ℕ) × (h' : Heap) × (get_commands (suc n) rfs h ≡ ok (cmds, h'))
          × ((c : ℕ)
              → (mem c cmds ≡ true) ↔ (
                  (any (λ (o : OutputCommand). o.command == c) rfs.commands ≡ true)
                  ⊎ IsCommandOf rfs.rfs c))
          × ((c d : ℕ)
              → (mem d (h' c).dependencies ≡ true)
                ↔ ((mem d (h c).dependencies ≡ true) ⊎ DependsOn rfs.rfs c d))
    unfolding get_commands
    get_commands-Adds h s =
        let start = free_commands rfs.commands [] in
        let (cmds, h', e, a, deps) = commands_of_files-Adds rfs.rfs start h s in
        let all =
          Adds-then (λ c. any (λ (o : OutputCommand). o.command == c) rfs.commands ≡ true)
            (IsCommandOf rfs.rfs)
            (λ c.
              (any (λ (o : OutputCommand). o.command == c) rfs.commands ≡ true)
              ⊎ IsCommandOf rfs.rfs c)
            [] start cmds (λ c p. p) (λ c p. inl p) (λ c p. inr p)
            (free_commands-Adds rfs.commands []) a in
        (
          cmds,
          h',
          e,
          λ c. (
            λ m. elim ((all c).0 m) [ inl z ↦ absurd (cc z) | inr p ↦ p ],
            λ p. (all c).1 (inr p),
          ),
          deps,
        )
