-- ===== src/Builder/Prepare/Linked.antt =====
-- The last loop of ExecutionPlan::prepare: what it adds to the dependencies.
use software.Base.{
  ℕ, ◌≡◌, refl, sym, ap, subst, ◌∙◌, Bool, true, List, [], ◌∷◌, ◌==◌, ==_iff, arith, mem, insert,
  mem-insert, distinct, distinct-insert, ok, block-ok, for, for-keeps, for-brings, none, some,
  if◌then◌else◌, Option-cases, Bool-cases, or-cases, ◌||◌, ◌&&◌, inl, inr, ◌⊎◌, Result,
}
use software.Builder.Node.{Heap, Error, add_dependency, write}
use software.Builder.Prepare.{
  Generators, find_generator, simultaneous, add_dependencies, link_input, link_command,
}

-- How the loop may change the commands: dependencies on commands that were passed are added.
pub record Grows (cmds : List ℕ) (h k : Heap) : Type 0 where
  pub kept : (c d : ℕ) → mem d (h c).dependencies ≡ true → mem d (k c).dependencies ≡ true
  pub added :
      (c d : ℕ)
      → mem d (k c).dependencies ≡ true
      → (mem d (h c).dependencies ≡ true) ⊎ (mem d cmds ≡ true)
  pub once : (c : ℕ) → distinct (h c).dependencies ≡ true → distinct (k c).dependencies ≡ true
  pub same_dependents : (c : ℕ) → (k c).dependent_commands ≡ (h c).dependent_commands

Grows-refl : (cmds : List ℕ) (h : Heap) → Grows cmds h h
Grows-refl cmds h = record {
  kept = λ c d m. m;
  added = λ c d m. inl m;
  once = λ c m. m;
  same_dependents = λ c. refl;
}

Grows-trans : (cmds : List ℕ) (h k l : Heap) → Grows cmds h k → Grows cmds k l → Grows cmds h l
Grows-trans cmds h k l a b = record {
  kept = λ c d m. b.kept c d (a.kept c d m);
  added = λ c d m. elim (b.added c d m) [ inl q ↦ a.added c d q | inr q ↦ inr q ];
  once = λ c m. b.once c (a.once c m);
  same_dependents = λ c. b.same_dependents c ∙ a.same_dependents c;
}

module _ (cmds : List ℕ) (c d : ℕ) (h k : Heap) (e : add_dependency c d h ≡ ok k) where
  add_dependency-ok : k ≡ write h c (record (h c) { dependencies = insert d (h c).dependencies })
  unfolding add_dependency
  add_dependency-ok = elim (Bool-cases (d == c)) [
    | inl q ↦ absurd (cc (rw q at e))
    | inr q ↦ sym (cc (rw q at e))
  ]

  add_dependency-dependencies :
      (x : ℕ)
      → (k x).dependencies ≡ (if x == c then insert d (h x).dependencies else (h x).dependencies)
  add_dependency-dependencies x = elim (Bool-cases (x == c)) [
    | inl q ↦ rw (add_dependency-ok, q, (==_iff x c).0 q) (refl)
    | inr q ↦ rw (add_dependency-ok, q) refl
  ]

  add_dependency-dependents : (x : ℕ) → (k x).dependent_commands ≡ (h x).dependent_commands
  add_dependency-dependents x = elim (Bool-cases (x == c)) [
    | inl q ↦ rw (add_dependency-ok, q, (==_iff x c).0 q) refl
    | inr q ↦ rw (add_dependency-ok, q) refl
  ]

  add_dependency-Grows : mem d cmds ≡ true → Grows cmds h k
  add_dependency-Grows m = record {
    kept =
        λ x y n. ground (arith, add_dependency-dependencies x, mem-insert y d (h x).dependencies);
    added = λ x y n. elim (Bool-cases (mem y (h x).dependencies)) [
      | inl q ↦ inl q
      | inr q ↦ inr (
          ground (
            arith,
            add_dependency-dependencies x,
            mem-insert y d (h x).dependencies,
            ==_iff y d,
            λ (z : y ≡ d). ap (λ w. mem w cmds) z,
          ))
    ];
    once = λ x n.
        ground (arith, add_dependency-dependencies x, distinct-insert d (h x).dependencies n);
    same_dependents = add_dependency-dependents;
  }

  add_dependency-mem : mem d (k c).dependencies ≡ true
  add_dependency-mem =
      ground (arith, add_dependency-dependencies c, mem-insert d d (h c).dependencies)

simultaneous-mem :
    (h : Heap) (cmds : List ℕ) (i d : ℕ) → mem d (simultaneous h cmds i) ≡ true → mem d cmds ≡ true
unfolding simultaneous
simultaneous-mem h [] i d m = cc
simultaneous-mem h (c ∷ cs) i d m = ground (arith, simultaneous-mem h cs i d)

pub simultaneous-all :
    (h : Heap) (cmds : List ℕ) (i d : ℕ)
    → mem d cmds ≡ true
    → (h d).is_builder_command ≡ true
    → mem i (h d).simultaneous_outputs ≡ true
    → mem d (simultaneous h cmds i) ≡ true
unfolding simultaneous
simultaneous-all h [] i d m b s = cc
simultaneous-all h (c ∷ cs) i d m b s = elim (or-cases (d == c) (mem d cs) m) [
  | inl q ↦ let same = (==_iff d c).0 q in rw (sym same, b, s) (ground arith)
  | inr q ↦ ground (arith, simultaneous-all h cs i d q b s)
]

-- Whether command `c` reads file `i`.
abbrev pub reads : Heap → ℕ → ℕ → Bool
reads h c i =
    (h c).is_builder_command && (mem i (h c).inputs || mem i (h c).inputs_without_timestamps)

module _ (h₀ : Heap) (cmds : List ℕ) (g : Generators)
    (among : (o d : ℕ) → find_generator o g ≡ some d → mem d cmds ≡ true) where
  add_dependencies-Grows :
      (c : ℕ) (ds : List ℕ) (h k : Heap)
      → add_dependencies c ds h ≡ ok k
      → ((d : ℕ) → mem d ds ≡ true → mem d cmds ≡ true)
      → Grows cmds h k
  unfolding add_dependencies
  add_dependencies-Grows c ds h k e sub =
      for-keeps (add_dependency c) (Grows cmds h) ds h k
        (λ x u v m f p. Grows-trans cmds h u v p (add_dependency-Grows cmds c x u v f (sub x m))) e
        (Grows-refl cmds h)

  add_dependencies-mem :
      (c : ℕ) (ds : List ℕ) (h k : Heap) (d : ℕ)
      → add_dependencies c ds h ≡ ok k
      → ((x : ℕ) → mem x ds ≡ true → mem x cmds ≡ true)
      → mem d ds ≡ true
      → mem d (k c).dependencies ≡ true
  unfolding add_dependencies
  add_dependencies-mem c ds h k d e sub m =
      for-brings (add_dependency c) (λ s. mem d (s c).dependencies ≡ true) ds d h k
        (λ y u v f p.
          ground (
            arith,
            add_dependency-dependencies cmds c y u v f c,
            mem-insert d y (u c).dependencies,
          ))
        (λ u v f. add_dependency-mem cmds c d u v f) e m

  abbrev add_generator : ℕ → ℕ → Heap → Result Error Heap
  add_generator c i h = elim (find_generator i g) [ none ↦ ok h | some d ↦ add_dependency c d h ]

  add_generator-Grows : (c i : ℕ) (h k : Heap) → add_generator c i h ≡ ok k → Grows cmds h k
  add_generator-Grows c i h k e = elim (Option-cases (find_generator i g)) [
    | inl n ↦
        let same : h ≡ k = cc (rw (n, add_generator) at e) in
        subst (Grows cmds h) same (Grows-refl cmds h)
    | inr (d, n) ↦ add_dependency-Grows cmds c d h k (rw (n, add_generator) at e) (among i d n)
  ]

  link_input-Grows : (c i : ℕ) (h k : Heap) → link_input h₀ cmds g c i h ≡ ok k → Grows cmds h k
  unfolding link_input
  link_input-Grows c i h k e =
      let (h', first, rest) =
        block-ok (add_generator c i h) (add_dependencies c (simultaneous h₀ cmds i)) e in
      Grows-trans cmds h h' k (add_generator-Grows c i h h' first)
        (add_dependencies-Grows c _ h' k rest (simultaneous-mem h₀ cmds i))

  -- What the command waits for because of its input `i`.
  abbrev WaitsFor : ℕ → ℕ → Heap → Type 0
  WaitsFor c i k =
      ((d : ℕ) → find_generator i g ≡ some d → mem d (k c).dependencies ≡ true)
      × ((d : ℕ) → mem d (simultaneous h₀ cmds i) ≡ true → mem d (k c).dependencies ≡ true)

  WaitsFor-Grows : (c i : ℕ) (h k : Heap) → Grows cmds h k → WaitsFor c i h → WaitsFor c i k
  WaitsFor-Grows c i h k gr (a, b) = ((λ d m. gr.kept c d (a d m)), (λ d m. gr.kept c d (b d m)))

  link_input-WaitsFor : (c i : ℕ) (h k : Heap) → link_input h₀ cmds g c i h ≡ ok k → WaitsFor c i k
  unfolding link_input
  link_input-WaitsFor c i h k e =
      let (h', first, rest) =
        block-ok (add_generator c i h) (add_dependencies c (simultaneous h₀ cmds i)) e in
      let later = add_dependencies-Grows c _ h' k rest (simultaneous-mem h₀ cmds i) in
      (
        (λ d n. later.kept c d (add_dependency-mem cmds c d h h' (rw (n, add_generator) at first))),
        (λ d m. add_dependencies-mem c _ h' k d rest (simultaneous-mem h₀ cmds i) m),
      )

  abbrev links : ℕ → List ℕ → Heap → Result Error Heap
  links c is = for (link_input h₀ cmds g c) is

  links-Grows : (c : ℕ) (is : List ℕ) (h k : Heap) → links c is h ≡ ok k → Grows cmds h k
  links-Grows c is h k e =
      for-keeps (link_input h₀ cmds g c) (Grows cmds h) is h k
        (λ x u v m f p. Grows-trans cmds h u v p (link_input-Grows c x u v f)) e (Grows-refl cmds h)

  links-WaitsFor :
      (c : ℕ) (is : List ℕ) (h k : Heap) (i : ℕ)
      → links c is h ≡ ok k
      → mem i is ≡ true
      → WaitsFor c i k
  links-WaitsFor c is h k i e m =
      for-brings (link_input h₀ cmds g c) (WaitsFor c i) is i h k
        (λ y u v f p. WaitsFor-Grows c i u v (link_input-Grows c y u v f) p)
        (λ u v f. link_input-WaitsFor c i u v f) e m

  link_command-Grows : (c : ℕ) (h k : Heap) → link_command h₀ cmds g c h ≡ ok k → Grows cmds h k
  unfolding link_command
  link_command-Grows c h k e = elim (Bool-cases (h₀ c).is_builder_command) [
    | inl b ↦
        let (h', first, rest) =
          block-ok (links c (h₀ c).inputs h) (links c (h₀ c).inputs_without_timestamps)
            (rw b at e) in
        Grows-trans cmds h h' k (links-Grows c _ h h' first) (links-Grows c _ h' k rest)
    | inr b ↦ let same : h ≡ k = cc (rw b at e) in subst (Grows cmds h) same (Grows-refl cmds h)
  ]

  link_command-WaitsFor :
      (c i : ℕ) (h k : Heap)
      → link_command h₀ cmds g c h ≡ ok k
      → reads h₀ c i ≡ true
      → WaitsFor c i k
  unfolding link_command
  link_command-WaitsFor c i h k e r = elim (Bool-cases (h₀ c).is_builder_command) [
    | inl b ↦
        let (h', first, rest) =
          block-ok (links c (h₀ c).inputs h) (links c (h₀ c).inputs_without_timestamps)
            (rw b at e) in
        elim (or-cases (mem i (h₀ c).inputs) (mem i (h₀ c).inputs_without_timestamps)
          (ground (arith, r))) [
            | inl m ↦
                WaitsFor-Grows c i h' k (links-Grows c _ h' k rest)
                  (links-WaitsFor c _ h h' i first m)
            | inr m ↦ links-WaitsFor c _ h' k i rest m
          ]
    | inr b ↦ absurd (ground (arith, r))
  ]

  pub link_all-Grows :
      (cs : List ℕ) (h k : Heap) → for (link_command h₀ cmds g) cs h ≡ ok k → Grows cmds h k
  link_all-Grows cs h k e =
      for-keeps (link_command h₀ cmds g) (Grows cmds h) cs h k
        (λ x u v m f p. Grows-trans cmds h u v p (link_command-Grows x u v f)) e (Grows-refl cmds h)

  pub link_all-mem :
      (cs : List ℕ) (h k : Heap) (c d i : ℕ)
      → for (link_command h₀ cmds g) cs h ≡ ok k
      → mem c cs ≡ true
      → reads h₀ c i ≡ true
      → (find_generator i g ≡ some d) ⊎ (mem d (simultaneous h₀ cmds i) ≡ true)
      → mem d (k c).dependencies ≡ true
  link_all-mem cs h k c d i e m r w =
      let waits : WaitsFor c i k =
        for-brings (link_command h₀ cmds g) (WaitsFor c i) cs c h k
          (λ y u v f p. WaitsFor-Grows c i u v (link_command-Grows y u v f) p)
          (λ u v f. link_command-WaitsFor c i u v f r) e m in
      elim w [ inl f ↦ waits.0 d f | inr f ↦ waits.1 d f ]
