-- ===== src/Builder/Prepare/Checked.antt =====
-- The checks of ExecutionPlan::prepare: hashes, passed dependencies, and one generator for each file.
use software.Base.{
  ℕ, subst, ◌≡◌, refl, sym, ap, for-brings, Bool, true, false, List, [], ◌∷◌, ◌==◌, ==_iff, arith,
  mem, insert, mem-insert, distinct, map, ok, ◌>>◌, throw_if, block-ok, for, none, some, some-eq,
  if◌then◌else◌, Option-cases, Bool-cases, or-cases, ◌&&◌, inl, inr, ◌⊎◌, Result,
}
use software.Builder.Node.{Heap, Error, duplicate_command}
use software.Builder.Prepare.{
  check_dependencies, check_command, Generators, find_generator, emplace_outputs,
  collect_generators,
}

throw_if-ok : {E : Type 0} (b : Bool) (x : E) {u : Unit {0}} → throw_if b x ≡ ok u → b ≡ false
throw_if-ok true x e = cc
throw_if-ok false x e = refl

check_dependencies-mem :
    (cmds ds : List ℕ) {u : Unit {0}}
    → check_dependencies cmds ds ≡ ok u
    → (d : ℕ) → mem d ds ≡ true
    → mem d cmds ≡ true
unfolding check_dependencies
check_dependencies-mem cmds [] e d m = absurd (cc)
check_dependencies-mem cmds (x ∷ xs) e d m = elim (Bool-cases (mem x cmds)) [
  | inl k ↦ elim (or-cases (d == x) (mem d xs) m) [
    | inl q ↦ rw ((==_iff d x).0 q) k
    | inr q ↦ check_dependencies-mem cmds xs (rw k at e) d q
  ]
  | inr k ↦ absurd (cc (rw k at e))
]

module _ (h : Heap) (cmds : List ℕ) where
  abbrev pub hash_of : ℕ → ℕ
  hash_of c = (h c).hash

  check_command-ok :
      (c : ℕ) (hashes hashes' : List ℕ)
      → check_command h cmds c hashes ≡ ok hashes'
      → (mem (hash_of c) hashes ≡ false)
        × (insert (hash_of c) hashes ≡ hashes')
        × ((d : ℕ) → mem d (h c).dependencies ≡ true → mem d cmds ≡ true)
  unfolding check_command
  check_command-ok c hashes hashes' e =
      let (u, unseen, passed) =
        block-ok (throw_if (mem (hash_of c) hashes) (duplicate_command c))
          (λ u. check_dependencies cmds (h c).dependencies >> ok (insert (hash_of c) hashes)) e in
      let (v, checked, inserted) =
        block-ok (check_dependencies cmds (h c).dependencies) (λ u. ok (insert (hash_of c) hashes))
          passed in
      (throw_if-ok _ _ unseen, cc, check_dependencies-mem cmds _ checked)

  -- The hashes that the loop starts with do not occur again.
  check_all-unseen :
      (xs hashes hashes' : List ℕ) (k : ℕ)
      → for (check_command h cmds) xs hashes ≡ ok hashes'
      → mem k hashes ≡ true
      → mem k (map hash_of xs) ≡ false
  check_all-unseen [] hashes hashes' k e m = refl
  check_all-unseen (x ∷ xs) hashes hashes' k e m =
      let (seen, first, rest) = block-ok (check_command h cmds x hashes) _ e in
      let (fresh, inserted, _) = check_command-ok x hashes seen first in
      let later =
        check_all-unseen xs seen hashes' k rest
          (rw (sym inserted, mem-insert k (hash_of x) hashes) (ground arith)) in
      ground (arith, ==_iff k (hash_of x), λ (q : k ≡ hash_of x). ap (λ z. mem z hashes) q)

  pub check_all-distinct :
      (xs hashes hashes' : List ℕ)
      → for (check_command h cmds) xs hashes ≡ ok hashes'
      → distinct (map hash_of xs) ≡ true
  check_all-distinct [] hashes hashes' e = refl
  check_all-distinct (x ∷ xs) hashes hashes' e =
      let (seen, first, rest) = block-ok (check_command h cmds x hashes) _ e in
      let (_, inserted, _) = check_command-ok x hashes seen first in
      let later =
        check_all-unseen xs seen hashes' (hash_of x) rest
          (rw (sym inserted, mem-insert (hash_of x) (hash_of x) hashes) (ground arith)) in
      ground (arith, check_all-distinct xs seen hashes' rest)

  pub check_all-closed :
      (xs hashes hashes' : List ℕ) (c d : ℕ)
      → for (check_command h cmds) xs hashes ≡ ok hashes'
      → mem c xs ≡ true
      → mem d (h c).dependencies ≡ true
      → mem d cmds ≡ true
  check_all-closed xs hashes hashes' c d e m =
      for-brings (check_command h cmds) (λ s. mem d (h c).dependencies ≡ true → mem d cmds ≡ true)
        xs c hashes hashes' (λ y u v k p. p) (λ u v k. (check_command-ok c u v k).2 d) e m

module _ (f : ℕ → ℕ) where
  mem-map : (x : ℕ) (xs : List ℕ) → mem x xs ≡ true → mem (f x) (map f xs) ≡ true
  mem-map x [] m = cc
  mem-map x (y ∷ ys) m = ground (arith, mem-map x ys, ==_iff x y, λ (q : x ≡ y). ap f q)

  pub distinct_of_map : (xs : List ℕ) → distinct (map f xs) ≡ true → distinct xs ≡ true
  distinct_of_map [] d = refl
  distinct_of_map (x ∷ xs) d = ground (arith, distinct_of_map xs, mem-map x xs)

-- The first generator of a file stays, and another one for the same file is refused.
emplace_outputs-find :
    (c : ℕ) (os : List ℕ) (g g' : Generators) (o : ℕ)
    → emplace_outputs c os g ≡ ok g'
    → find_generator o g' ≡ (if mem o os then some c else find_generator o g)
unfolding emplace_outputs find_generator
emplace_outputs-find c [] g g' o e = ap (find_generator o) (cc)
emplace_outputs-find c (x ∷ xs) g g' o e = elim (Option-cases (find_generator x g)) [
  | inl n ↦
      let rest = emplace_outputs-find c xs ((x, c) ∷ g) g' o (rw (n, emplace_outputs) at e) in
      ground (arith, rest)
  | inr (d, n) ↦ absurd (cc (rw (n, emplace_outputs) at e))
]

emplace_outputs-fresh :
    (c : ℕ) (os : List ℕ) (g g' : Generators) (o : ℕ)
    → emplace_outputs c os g ≡ ok g'
    → mem o os ≡ true
    → find_generator o g ≡ none
unfolding emplace_outputs find_generator
emplace_outputs-fresh c [] g g' o e m = absurd (cc)
emplace_outputs-fresh c (x ∷ xs) g g' o e m = elim (Option-cases (find_generator x g)) [
  | inl n ↦ elim (or-cases (o == x) (mem o xs) m) [
    | inl q ↦ rw ((==_iff o x).0 q) n
    | inr q ↦
        let rest = emplace_outputs-fresh c xs ((x, c) ∷ g) g' o (rw (n, emplace_outputs) at e) q in
        ground (arith, rest)
  ]
  | inr (d, n) ↦ absurd (cc (rw (n, emplace_outputs) at e))
]

module _ (h : Heap) where
  abbrev emplace : ℕ → Generators → Result Error Generators
  emplace c g = if (h c).is_builder_command then emplace_outputs c (h c).outputs g else ok g

  -- `c` is a builder command that makes `o`.
  abbrev pub makes : ℕ → ℕ → Bool
  makes c o = (h c).is_builder_command && mem o (h c).outputs

  emplace-find :
      (c : ℕ) (g g' : Generators) (o : ℕ)
      → emplace c g ≡ ok g'
      → find_generator o g' ≡ (if makes c o then some c else find_generator o g)
  emplace-find c g g' o e = elim (Bool-cases (h c).is_builder_command) [
    | inl b ↦ ground (arith, b, emplace_outputs-find c (h c).outputs g g' o (rw b at e))
    | inr b ↦ rw b (ap (find_generator o) (cc (rw b at e)))
  ]

  emplace-fresh :
      (c : ℕ) (g g' : Generators) (o : ℕ)
      → emplace c g ≡ ok g'
      → makes c o ≡ true
      → find_generator o g ≡ none
  emplace-fresh c g g' o e m = elim (Bool-cases (h c).is_builder_command) [
    | inl b ↦ emplace_outputs-fresh c (h c).outputs g g' o (rw b at e) (ground arith)
    | inr b ↦ absurd (ground arith)
  ]

  collect_generators-keeps :
      (cs : List ℕ) (g g' : Generators) (o c : ℕ)
      → collect_generators h cs g ≡ ok g'
      → find_generator o g ≡ some c
      → find_generator o g' ≡ some c
  unfolding collect_generators
  collect_generators-keeps [] g g' o c e f =
      let same : g ≡ g' = cc in subst (λ z. find_generator o z ≡ some c) same f
  collect_generators-keeps (x ∷ xs) g g' o c e f =
      let (g₁, first, rest) = block-ok (emplace x g) (collect_generators h xs) e in
      collect_generators-keeps xs g₁ g' o c rest
        (ground (arith, emplace-find x g g₁ o first, emplace-fresh x g g₁ o first))

  pub collect_generators-finds :
      (cs : List ℕ) (g g' : Generators) (o c : ℕ)
      → collect_generators h cs g ≡ ok g'
      → mem c cs ≡ true
      → makes c o ≡ true
      → find_generator o g' ≡ some c
  unfolding collect_generators
  collect_generators-finds [] g g' o c e m k = absurd (cc)
  collect_generators-finds (x ∷ xs) g g' o c e m k =
      let (g₁, first, rest) = block-ok (emplace x g) (collect_generators h xs) e in
      elim (or-cases (c == x) (mem c xs) m) [
        | inl q ↦
            let same = (==_iff c x).0 q in
            collect_generators-keeps xs g₁ g' o c rest
              (ground (arith, emplace-find x g g₁ o first, same, ap (λ z. makes z o) same))
        | inr q ↦ collect_generators-finds xs g₁ g' o c rest q k
      ]

  -- A generator is one of the commands.
  pub collect_generators-mem :
      (cs : List ℕ) (g g' : Generators) (o c : ℕ)
      → collect_generators h cs g ≡ ok g'
      → find_generator o g' ≡ some c
      → (find_generator o g ≡ some c) ⊎ (mem c cs ≡ true)
  unfolding collect_generators
  collect_generators-mem [] g g' o c e f =
      let same : g' ≡ g = cc in inl (subst (λ z. find_generator o z ≡ some c) same f)
  collect_generators-mem (x ∷ xs) g g' o c e f =
      let (g₁, first, rest) = block-ok (emplace x g) (collect_generators h xs) e in
      elim (collect_generators-mem xs g₁ g' o c rest f) [
        | inl q ↦ elim (Bool-cases (makes x o)) [
          | inl b ↦
              let same : x ≡ c = some-eq (ground (arith, b, q, emplace-find x g g₁ o first)) in
              inr (ground (arith, same))
          | inr b ↦ inl (ground (arith, emplace-find x g g₁ o first, b, q))
        ]
        | inr q ↦ inr (ground arith)
      ]
