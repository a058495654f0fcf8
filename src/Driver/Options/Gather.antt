-- ===== src/Driver/Options/Gather.antt =====
-- The include directories that the options of compilers give, and what merge makes of them.
use software.Base.{
  ℕ, ◌≡◌, refl, sym, ap, ap₂, ◌∙◌, Bool, true, ◌||◌, if◌then◌else◌, Bool-cases, List, [], ◌++◌, mem,
  mem-append, distinct, arith, inl, inr,
}
use software.Driver.UniqueVector.{UniqueVector, empty_vector, insert_all}
use software.Driver.UniqueVector.First.{
  first_places, IsUnique, insert_all-first_places, insert_all-append, mem-insert_all,
  insert_all-IsUnique,
}
use software.Driver.Options.{
  CompilerData, GroupSettings, gather_include_directories, merge_compiler_data,
}

abbrev pub all_directories : CompilerData → List ℕ
all_directories o =
    o.pre_include_directories.v ++ (o.include_directories.v ++ o.post_include_directories.v)

gather-insert_all :
    (o : CompilerData) → gather_include_directories o ≡ insert_all (all_directories o) empty_vector
unfolding gather_include_directories
gather-insert_all o = sym (
    insert_all-append o.pre_include_directories.v _ empty_vector
    ∙ insert_all-append o.include_directories.v o.post_include_directories.v
        (insert_all o.pre_include_directories.v empty_vector))

-- gatherIncludeDirectories gives the directories that come first, the others and those that come last, in this
-- order, each at its first place only.
pub gather_include_directories-first_places :
    (o : CompilerData)
    → ((gather_include_directories o).v ≡ first_places [] (all_directories o))
      × (distinct (gather_include_directories o).v ≡ true)
gather_include_directories-first_places o = (
  ap (λ c. c.v) (gather-insert_all o) ∙ insert_all-first_places (all_directories o) empty_vector,
  ap (λ (c : UniqueVector). distinct c.v) (gather-insert_all o)
      ∙ (insert_all-IsUnique (all_directories o) empty_vector (refl, refl)).1,
)

-- The vectors of include directories have their elements in their sets.
pub record HasSets (o : CompilerData) : Type 0 where
  pub pre : IsUnique o.pre_include_directories
  pub own : IsUnique o.include_directories
  pub post : IsUnique o.post_include_directories

mem-insert_all_v :
    (xs : List ℕ) (c : UniqueVector) (x : ℕ)
    → IsUnique c
    → mem x (insert_all xs c).v ≡ (mem x c.v || mem x xs)
mem-insert_all_v xs c x i =
    ap (mem x) (insert_all-IsUnique xs c i).0
    ∙ mem-insert_all xs c x
    ∙ ap (λ l. mem x l || mem x xs) (sym i.0)

mem-gather :
    (o : CompilerData) (x : ℕ) → mem x (gather_include_directories o).v ≡ mem x (all_directories o)
mem-gather o x =
    ap (λ (c : UniqueVector). mem x c.v) (gather-insert_all o)
    ∙ mem-insert_all_v (all_directories o) empty_vector x (refl, refl)

mem-all_directories :
    (o : CompilerData) (x : ℕ)
    → mem x (all_directories o) ≡ (
        mem x o.pre_include_directories.v
        || (mem x o.include_directories.v || mem x o.post_include_directories.v))
mem-all_directories o x =
    mem-append x o.pre_include_directories.v _
    ∙ ap (λ b. mem x o.pre_include_directories.v || b)
        (mem-append x o.include_directories.v o.post_include_directories.v)

into_groups :
    (o to : CompilerData) (x : ℕ)
    → HasSets to
    → mem x (
        (insert_all o.pre_include_directories.v to.pre_include_directories).v
        ++ ((insert_all o.include_directories.v to.include_directories).v
            ++ (insert_all o.post_include_directories.v to.post_include_directories).v))
      ≡ (mem x (all_directories to) || mem x (all_directories o))
into_groups o to x h =
    let a = mem-append x (insert_all o.pre_include_directories.v to.pre_include_directories).v _ in
    let b =
      mem-append x (insert_all o.include_directories.v to.include_directories).v
        (insert_all o.post_include_directories.v to.post_include_directories).v in
    let c = mem-insert_all_v o.pre_include_directories.v to.pre_include_directories x h.pre in
    let d = mem-insert_all_v o.include_directories.v to.include_directories x h.own in
    let e = mem-insert_all_v o.post_include_directories.v to.post_include_directories x h.post in
    let f = mem-all_directories to x in
    let g = mem-all_directories o x in
    a ∙ ap₂ (λ p q. p || q) c (b ∙ ap₂ (λ p q. p || q) d e) ∙ ground arith

into_one :
    (o to : CompilerData) (x : ℕ)
    → HasSets to
    → mem x (
        to.pre_include_directories.v
        ++ ((insert_all o.post_include_directories.v (
              insert_all o.include_directories.v
                (insert_all o.pre_include_directories.v to.include_directories))).v
            ++ to.post_include_directories.v))
      ≡ (mem x (all_directories to) || mem x (all_directories o))
into_one o to x h =
    let one =
      insert_all-append o.pre_include_directories.v
        (o.include_directories.v ++ o.post_include_directories.v) to.include_directories
      ∙ insert_all-append o.include_directories.v o.post_include_directories.v
          (insert_all o.pre_include_directories.v to.include_directories) in
    let d =
      ap (λ (c : UniqueVector). mem x c.v) (sym one)
      ∙ mem-insert_all_v (all_directories o) to.include_directories x h.own in
    let f = mem-all_directories to x in
    mem-append x to.pre_include_directories.v _
    ∙ ap (λ q. mem x to.pre_include_directories.v || q)
        (mem-append x _ to.post_include_directories.v
          ∙ ap (λ q. q || mem x to.post_include_directories.v) d)
    ∙ ground arith

-- After merge, the include directories are those of both sides, whichever group they are merged into. The vectors
-- of include directories have their elements in their sets.
pub mem-gather-merge :
    (o to : CompilerData) (s : GroupSettings) (x : ℕ)
    → HasSets to
    → mem x (gather_include_directories (merge_compiler_data o s to)).v
      ≡ (mem x (gather_include_directories to).v || mem x (gather_include_directories o).v)
unfolding merge_compiler_data
mem-gather-merge o to s x h =
    let groups : Bool → List ℕ = λ b.
      (if b
        then insert_all o.pre_include_directories.v to.pre_include_directories
        else to.pre_include_directories).v
      ++ ((if b
            then insert_all o.include_directories.v to.include_directories
            else insert_all o.post_include_directories.v (
                insert_all o.include_directories.v
                  (insert_all o.pre_include_directories.v to.include_directories))).v
          ++ (if b
              then insert_all o.post_include_directories.v to.post_include_directories
              else to.post_include_directories).v) in
    let both = ap₂ (λ p q. p || q) (sym (mem-gather to x)) (sym (mem-gather o x)) in
    elim (Bool-cases s.merge_to_self) [
      | inl e ↦
          mem-gather (merge_compiler_data o s to) x
          ∙ ap (λ b. mem x (groups b)) e
          ∙ into_groups o to x h
          ∙ both
      | inr e ↦
          mem-gather (merge_compiler_data o s to) x
          ∙ ap (λ b. mem x (groups b)) e
          ∙ into_one o to x h
          ∙ both
    ]
