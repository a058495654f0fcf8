-- ===== src/Builder/Prepare/Ready.antt =====
-- What ExecutionPlan::prepare promises when it does not throw.
use software.Base.{
  ℕ, ◌≡◌, sym, ◌∙◌, true, List, [], ◌&&◌, arith, mem, distinct, map, ok, block-ok, for, Result, inl,
  inr, some, some-eq,
}
use software.Builder.Node.{Heap, Error}
use software.Builder.Prepare.{
  prepare, prepare_all, check_all, collect_generators, link_command, find_generator, Generators,
}
use software.Builder.Prepare.Checked.{
  check_all-distinct, check_all-closed, collect_generators-finds, collect_generators-mem, makes,
  distinct_of_map,
}
use software.Builder.Prepare.Linked.{Grows, link_all-Grows, link_all-mem, reads, simultaneous-all}
use software.Builder.Exec.Prepared.{IsPrepared}

-- `before` is the heap that the commands' own prepare() left.
pub record IsReady (cmds : List ℕ) (before h : Heap) : Type 0 where
  pub distinct_hashes : distinct (map (λ c. (before c).hash) cmds) ≡ true
  pub closed : (c d : ℕ) → mem c cmds ≡ true → mem d (h c).dependencies ≡ true → mem d cmds ≡ true
  pub one_generator :
      (c d o : ℕ)
      → mem c cmds ≡ true
      → mem d cmds ≡ true
      → makes before c o ≡ true
      → makes before d o ≡ true
      → c ≡ d
  pub after_generators :
      (c d i : ℕ)
      → mem c cmds ≡ true
      → mem d cmds ≡ true
      → reads before c i ≡ true
      → makes before d i ≡ true
      → mem d (h c).dependencies ≡ true
  pub after_simultaneous :
      (c d i : ℕ)
      → mem c cmds ≡ true
      → mem d cmds ≡ true
      → reads before c i ≡ true
      → ((before d).is_builder_command && mem i (before d).simultaneous_outputs) ≡ true
      → mem d (h c).dependencies ≡ true
  pub grows : Grows cmds before h

module _ (cmds : List ℕ) (before h : Heap) (hashes : List ℕ) (g : Generators)
    (checked : check_all before cmds ≡ ok hashes)
    (collected : collect_generators before cmds [] ≡ ok g)
    (linked : for (link_command before cmds g) cmds before ≡ ok h) where
  among : (o d : ℕ) → find_generator o g ≡ some d → mem d cmds ≡ true
  unfolding find_generator
  among o d f = elim (collect_generators-mem before cmds [] g o d collected f) [
    | inl q ↦ absurd (cc)
    | inr q ↦ q
  ]

  finds : (o c : ℕ) → mem c cmds ≡ true → makes before c o ≡ true → find_generator o g ≡ some c
  finds o c m k = collect_generators-finds before cmds [] g o c collected m k

  loops-IsReady : IsReady cmds before h
  unfolding check_all
  loops-IsReady =
      let grows = link_all-Grows before cmds g among cmds before h linked in
      record {
        distinct_hashes = check_all-distinct before cmds cmds [] hashes checked;
        closed = λ c d m k. elim (grows.added c d k) [
          | inl q ↦ check_all-closed before cmds cmds [] hashes c d checked m q
          | inr q ↦ q
        ];
        one_generator = λ c d o m n a b. some-eq (sym (finds o c m a) ∙ finds o d n b);
        after_generators = λ c d i m n r k.
            link_all-mem before cmds g among cmds before h c d i linked m r (inl (finds i d n k));
        after_simultaneous = λ c d i m n r k.
            link_all-mem before cmds g among cmds before h c d i linked m r
              (inr (simultaneous-all before cmds i d n (ground arith) (ground arith)));
        grows = grows;
      }

-- When `prepare` returns: hashes are distinct, every dependency is one of the commands, no file has two
-- generators, each command depends on the generators of the files that it reads and on all commands
-- that write them simultaneously, and no dependency is lost.
pub prepare-IsReady :
    (prepare_node : ℕ → Heap → Result Error Heap) (cmds : List ℕ) (h₀ h : Heap)
    → prepare prepare_node cmds h₀ ≡ ok h
    → (before : Heap) × (prepare_all prepare_node cmds h₀ ≡ ok before) × IsReady cmds before h
unfolding prepare
prepare-IsReady prepare_node cmds h₀ h e =
    let (before, prepared, e₁) = block-ok (prepare_all prepare_node cmds h₀) _ e in
    let (hashes, checked, e₂) = block-ok (check_all before cmds) _ e₁ in
    let (g, collected, linked) =
      block-ok (collect_generators before cmds [])
        (λ g. for (link_command before cmds g) cmds before) e₂ in
    (before, prepared, loops-IsReady cmds before h hashes g checked collected linked)

-- What the plan needs of its commands, when their own prepare() leaves sets of dependencies and no
-- dependent commands.
pub IsReady-IsPrepared :
    (cmds : List ℕ) (before h : Heap)
    → IsReady cmds before h
    → ((c : ℕ) → distinct (before c).dependencies ≡ true)
    → ((c : ℕ) → (before c).dependent_commands ≡ [])
    → IsPrepared cmds h
IsReady-IsPrepared cmds before h r once fresh = record {
  distinct_cmds = distinct_of_map _ cmds r.distinct_hashes;
  distinct_dependencies = λ c. r.grows.once c (once c);
  fresh = λ c. r.grows.same_dependents c ∙ fresh c;
  closed = r.closed;
}
