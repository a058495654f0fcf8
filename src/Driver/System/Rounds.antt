-- ===== src/Driver/System/Rounds.antt =====
-- The second loop of RuleSystem::runRules ends.
use software.Base.{
  ℕ, zero, suc, ◌+◌, ◌<◌, ◌≤◌, ◌≡◌, refl, sym, ap, ◌∙◌, true, ◌||◌, ◌==◌, ==_iff, Bool-cases,
  or-cases, List, [], ◌∷◌, mem, mem_of_length, length-le_of_sub, distinct, length, All, ok, inl,
  inr, arith,
}
use software.Driver.Rules.{RuleFile, RuleFiles}
use software.Driver.System.{native_add_inputs, round, rounds}
use software.Driver.System.Inputs.{paths, length-paths, adds, KeepsFile, native_add_inputs-Added}

-- Each file stands once, and the files are among those that the rules can make.
abbrev pub IsWithin : (universe : List ℕ) → RuleFiles → Type 0
IsWithin universe rfs =
    (distinct (paths rfs) ≡ true) × ((x : ℕ) → mem x (paths rfs) ≡ true → mem x universe ≡ true)

-- What a rule's addInputs does: it takes no file away, and adds only files that rules can make.
pub record IsRule (universe : List ℕ) (step : RuleFiles → RuleFiles) : Type 0 where
  pub grows : (rfs : RuleFiles) → length rfs.rfs ≤ length (step rfs).rfs
  pub keeps : (rfs : RuleFiles) (x : ℕ) → mem x (paths rfs) ≡ true → mem x (paths (step rfs)) ≡ true
  pub within : (rfs : RuleFiles) → IsWithin universe rfs → IsWithin universe (step rfs)

module _ (universe : List ℕ) where
  -- NativeRule::addInputs is such a rule when its addInput leaves the paths and adds files that rules can make.
  pub native_add_inputs-IsRule :
      (add_input : RuleFiles → RuleFile → RuleFile × RuleFiles)
      → KeepsFile add_input
      → ((rfs : RuleFiles) (x : ℕ)
          → IsWithin universe rfs
          → adds add_input rfs rfs.rfs x ≡ true
          → mem x universe ≡ true)
      → IsRule universe (native_add_inputs add_input)
  native_add_inputs-IsRule add_input k known = record {
    grows = λ rfs. (native_add_inputs-Added add_input k rfs).grows;
    keeps = λ rfs x m.
        (native_add_inputs-Added add_input k rfs).same x
        ∙ ap (λ b. b || adds add_input rfs rfs.rfs x) m;
    within = λ rfs w.
        let a = native_add_inputs-Added add_input k rfs in
        (
          a.kept_distinct w.0,
          λ x m. elim (or-cases (mem x (paths rfs)) _ (sym (a.same x) ∙ m)) [
            | inl h ↦ w.1 x h
            | inr h ↦ known rfs x w h
          ],
        );
  }

  module _ (add_inputs : ℕ → List ℕ → RuleFiles → RuleFiles) where
    round-IsRule :
        (rs : List (ℕ × List ℕ))
        → All (λ r. IsRule universe (add_inputs r.0 r.1)) rs
        → IsRule universe (round add_inputs rs)
    unfolding round
    round-IsRule [] h = record {
      grows = λ rfs. omega arith;
      keeps = λ rfs x m. m;
      within = λ rfs w. w;
    }
    round-IsRule ((r, args) ∷ rs) h =
        let rest = round-IsRule rs h.1 in
        record {
          grows = λ rfs.
              let a = h.0.grows rfs in let b = rest.grows (add_inputs r args rfs) in omega arith;
          keeps = λ rfs x m. rest.keeps (add_inputs r args rfs) x (h.0.keeps rfs x m);
          within = λ rfs w. rest.within (add_inputs r args rfs) (h.0.within rfs w);
        }

    -- The last round added no file.
    pub record IsDone (rs : List (ℕ × List ℕ)) (start rfs' : RuleFiles) : Type 0 where
      pub within : IsWithin universe rfs'
      pub keeps : (x : ℕ) → mem x (paths start) ≡ true → mem x (paths rfs') ≡ true
      pub before : RuleFiles
      pub before_within : IsWithin universe before
      pub last : rfs' ≡ round add_inputs rs before
      pub nothing_new : (x : ℕ) → mem x (paths rfs') ≡ true → mem x (paths before) ≡ true

    -- The loop ends, in at most as many rounds as there are files that the rules can make, with all files that it
    -- started from, and after a round that added none, when no rule takes files away or adds others.
    pub rounds-IsDone :
        (n : ℕ) (rs : List (ℕ × List ℕ)) (rfs : RuleFiles)
        → All (λ r. IsRule universe (add_inputs r.0 r.1)) rs
        → IsWithin universe rfs
        → length universe < length rfs.rfs + n
        → (rfs' : RuleFiles) × (rounds add_inputs n rs rfs ≡ ok rfs') × IsDone rs rfs rfs'
    unfolding rounds
    rounds-IsDone zero rs rfs h w l =
        let small = length-le_of_sub (paths rfs) universe w.0 w.1 in
        let same = length-paths rfs.rfs in absurd (omega arith)
    rounds-IsDone (suc n) rs rfs h w l =
        let rule = round-IsRule rs h in
        let rfs' = round add_inputs rs rfs in
        let w' = rule.within rfs w in
        elim (Bool-cases (length rfs.rfs == length rfs'.rfs)) [
          | inl e ↦ (
            rfs',
            rw e refl,
            record {
              within = w';
              keeps = rule.keeps rfs;
              before = rfs;
              before_within = w;
              last = refl;
              nothing_new = mem_of_length (paths rfs) (paths rfs') w.0 (rule.keeps rfs) (
                  let a = length-paths rfs.rfs in
                  let b = length-paths rfs'.rfs in
                  let c = (==_iff (length rfs.rfs) (length rfs'.rfs)).0 e in omega arith);
            },
          )
          | inr e ↦
              let more = rule.grows rfs in
              let (end, done, d) = rounds-IsDone n rs rfs' h w' (ground arith) in
              (
                end,
                rw e done,
                record {
                  within = d.within;
                  keeps = λ x m. d.keeps x (rule.keeps rfs x m);
                  before = d.before;
                  before_within = d.before_within;
                  last = d.last;
                  nothing_new = d.nothing_new;
                },
              )
        ]
