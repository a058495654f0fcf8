-- ===== src/Driver/System/Resources.antt =====
-- RcRule in the loop of RuleSystem::runRules.
use software.Base.{
  ℕ, ◌+◌, ◌<◌, ◌≡◌, refl, sym, ap, ◌∙◌, Bool, true, false, ◌||◌, ◌==◌, ==_iff, if◌then◌else◌,
  Bool-cases, or-cases, List, [], ◌∷◌, map, mem, length, any, ok, inl, inr, arith,
}
use software.Driver.Rules.{RuleFile, RuleFiles}
use software.Driver.System.{native_add_inputs, rc_add_input, round, rounds}
use software.Driver.System.Inputs.{
  file_of, paths, any-mem, adds, KeepsFile, native_add_inputs-Added,
}
use software.Driver.System.Rounds.{IsWithin, IsRule, native_add_inputs-IsRule, rounds-IsDone}

module _ (is_rc : ℕ → Bool) (output command : ℕ → ℕ) where
  abbrev rc : RuleFiles → RuleFile → RuleFile × RuleFiles
  rc = rc_add_input is_rc output command

  rc-KeepsFile : KeepsFile rc
  unfolding rc_add_input
  rc-KeepsFile rfs f = elim (Bool-cases (is_rc f.file)) [
    | inr e ↦ rw e refl
    | inl e ↦ elim (Bool-cases (any (λ (g : RuleFile). g.file == output f.file) rfs.rfs)) [
      | inl h ↦ rw (e, h) refl
      | inr h ↦ rw (e, h) refl
    ]
  ]

  -- What the rule adds for a file is its output, if the file is a resource and the output is not there.
  rc-paths :
      (rfs : RuleFiles) (f : RuleFile) (x : ℕ)
      → mem x (paths (rc rfs f).1) ≡ (
          if is_rc f.file
          then (if mem (output f.file) (paths rfs) then false else x == output f.file)
          else false)
  unfolding rc_add_input
  rc-paths rfs f x = elim (Bool-cases (is_rc f.file)) [
    | inr e ↦ rw e refl
    | inl e ↦ elim (Bool-cases (any (λ (g : RuleFile). g.file == output f.file) rfs.rfs)) [
      | inl h ↦ let m = sym (any-mem (output f.file) rfs.rfs) ∙ h in rw (e, h, m) refl
      | inr h ↦ let m = sym (any-mem (output f.file) rfs.rfs) ∙ h in rw (e, h, m) (ground arith)
    ]
  ]

  -- The universe has the outputs of its resources.
  abbrev pub HasOutputs : List ℕ → Type 0
  HasOutputs universe =
      (p : ℕ) → mem p universe ≡ true → is_rc p ≡ true → mem (output p) universe ≡ true

  adds-within :
      (universe : List ℕ) (rfs : RuleFiles) (fs : List RuleFile) (x : ℕ)
      → HasOutputs universe
      → ((p : ℕ) → mem p (map file_of fs) ≡ true → mem p universe ≡ true)
      → adds rc rfs fs x ≡ true
      → mem x universe ≡ true
  adds-within universe rfs [] x o w h = cc
  adds-within universe rfs (f ∷ fs) x o w h =
      elim (or-cases (mem x (paths (rc rfs f).1)) (adds rc rfs fs x) h) [
        | inr r ↦ adds-within universe rfs fs x o (λ p m. w p (ground arith)) r
        | inl m ↦
            let e = sym (rc-paths rfs f x) ∙ m in
            let is : is_rc f.file ≡ true = ground arith in
            let same : x ≡ output f.file = ground (arith, ==_iff x (output f.file)) in
            ap (λ y. mem y universe) same ∙ o f.file (w f.file (ground arith)) is
      ]

  rc-adds :
      (rfs : RuleFiles) (fs : List RuleFile) (p : ℕ)
      → mem p (map file_of fs) ≡ true
      → is_rc p ≡ true
      → (mem (output p) (paths rfs) || adds rc rfs fs (output p)) ≡ true
  rc-adds rfs [] p m i = cc
  rc-adds rfs (f ∷ fs) p m i = elim (or-cases (p == f.file) (mem p (map file_of fs)) m) [
    | inr k ↦ let rest = rc-adds rfs fs p k i in ground arith
    | inl e ↦
        let same = (==_iff p f.file).0 e in
        let here = rc-paths rfs f (output p) in
        let is : is_rc f.file ≡ true = ap is_rc (sym same) ∙ i in
        let out : output p ≡ output f.file = ap output same in
        let there = ap (λ y. mem y (paths rfs)) out in
        ground (arith, ==_iff (output p) (output f.file))
  ]

  abbrev pub add_resources : ℕ → List ℕ → RuleFiles → RuleFiles
  add_resources r args = native_add_inputs rc

  pub native_add_inputs-rc-IsRule :
      (universe : List ℕ) → HasOutputs universe → IsRule universe (native_add_inputs rc)
  native_add_inputs-rc-IsRule universe o =
      native_add_inputs-IsRule universe rc rc-KeepsFile
        (λ rfs x w a. adds-within universe rfs rfs.rfs x o w.1 a)

  -- The loop with the rule of the resource compiler ends, in at most as many rounds as there are files and
  -- outputs, and every resource among the files has its output there.
  pub rounds-add_resources :
      (universe : List ℕ) (n r : ℕ) (args : List ℕ) (rfs : RuleFiles)
      → HasOutputs universe
      → IsWithin universe rfs
      → length universe < length rfs.rfs + n
      → (rfs' : RuleFiles) × (rounds add_resources n ((r, args) ∷ []) rfs ≡ ok rfs')
        × ((p : ℕ) → mem p (paths rfs) ≡ true → mem p (paths rfs') ≡ true)
        × ((p : ℕ)
            → mem p (paths rfs') ≡ true
            → is_rc p ≡ true
            → mem (output p) (paths rfs') ≡ true)
  unfolding round
  rounds-add_resources universe n r args rfs o w l =
      let (rfs', done, d) =
        rounds-IsDone universe add_resources n ((r, args) ∷ []) rfs
          (native_add_inputs-rc-IsRule universe o, tt) w l in
      (
        rfs',
        done,
        d.keeps,
        λ p m i.
            ap (λ t. mem (output p) (paths t)) d.last
            ∙ (native_add_inputs-Added rc rc-KeepsFile d.before).same (output p)
            ∙ rc-adds d.before d.before.rfs p (d.nothing_new p m) i,
      )
