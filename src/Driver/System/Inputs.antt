-- ===== src/Driver/System/Inputs.antt =====
-- NativeRule::addInputs: which files there are after it.
use software.Base.{
  ℕ, suc, ◌≤◌, ◌≡◌, refl, sym, ap, ◌∙◌, Bool, true, ◌||◌, ◌==◌, ==_iff, Bool-cases, List, [], ◌∷◌,
  ◌++◌, map, mem, mem-append, distinct, distinct_snoc, length, length-append, any, inl, inr, arith,
}
use software.Driver.Rules.{RuleFile, RuleFiles, merge_files, merge}
use software.Driver.System.{add_inputs_of, native_add_inputs}

abbrev pub file_of : RuleFile → ℕ
file_of f = f.file

abbrev pub paths : RuleFiles → List ℕ
paths rfs = map file_of rfs.rfs

map-snoc :
    (xs : List RuleFile) (f : RuleFile) → map file_of (xs ++ f ∷ []) ≡ map file_of xs ++ f.file ∷ []
map-snoc [] f = refl
map-snoc (x ∷ xs) f = ap (λ ys. x.file ∷ ys) (map-snoc xs f)

pub length-paths : (fs : List RuleFile) → length (map file_of fs) ≡ length fs
length-paths [] = refl
length-paths (f ∷ fs) = ap suc (length-paths fs)

length-map : (xs ys : List RuleFile) → map file_of xs ≡ map file_of ys → length xs ≡ length ys
length-map xs ys e = sym (length-paths xs) ∙ ap length e ∙ length-paths ys

pub any-mem :
    (p : ℕ) (fs : List RuleFile) → any (λ (g : RuleFile). g.file == p) fs ≡ mem p (map file_of fs)
any-mem p [] = refl
any-mem p (f ∷ fs) = ground (arith, any-mem p fs)

-- Merging is the union, and no path stands twice.
record Merged (to result : RuleFiles) (from : List RuleFile) : Type 0 where
  same : (x : ℕ) → mem x (paths result) ≡ (mem x (paths to) || mem x (map file_of from))
  kept_distinct : distinct (paths to) ≡ true → distinct (paths result) ≡ true
  grows : length to.rfs ≤ length result.rfs

merge_files-Merged : (fs : List RuleFile) (to : RuleFiles) → Merged to (merge_files fs to).0 fs
unfolding merge_files
merge_files-Merged [] to = record {
  same = λ x. ground arith;
  kept_distinct = λ d. d;
  grows = omega arith;
}
merge_files-Merged (f ∷ fs) to =
    elim (Bool-cases (any (λ (g : RuleFile). g.file == f.file) to.rfs)) [
      | inl e ↦
          let rest = merge_files-Merged fs to in
          let here = sym (any-mem f.file to.rfs) ∙ e in
          rw e (record {
            same = λ x.
                rest.same x
                ∙ ground (arith, ==_iff x f.file, λ (q : x ≡ f.file). ap (λ w. mem w (paths to)) q);
            kept_distinct = rest.kept_distinct;
            grows = rest.grows;
          })
      | inr e ↦
          let more : RuleFiles = record to { rfs = to.rfs ++ f ∷ [] } in
          let rest = merge_files-Merged fs more in
          let absent = sym (any-mem f.file to.rfs) ∙ e in
          rw e (record {
            same = λ x.
                rest.same x
                ∙ ap (λ b. b || mem x (map file_of fs))
                    (ap (mem x) (map-snoc to.rfs f) ∙ mem-append x (paths to) (f.file ∷ []))
                ∙ ground arith;
            kept_distinct = λ d.
                rest.kept_distinct (
                  ap distinct (map-snoc to.rfs f) ∙ distinct_snoc f.file (paths to) ∙ ground arith);
            grows = let a = rest.grows in let b = length-append to.rfs (f ∷ []) in omega arith;
          })
    ]

merge-Merged : (to from : RuleFiles) → Merged to (merge to from).0 from.rfs
unfolding merge
merge-Merged to from = merge_files-Merged from.rfs to

module _ (add_input : RuleFiles → RuleFile → RuleFile × RuleFiles) where
  -- A file that a rule adds for one of the files.
  abbrev pub adds : RuleFiles → List RuleFile → ℕ → Bool
  adds rfs fs x = any (λ (f : RuleFile). mem x (paths (add_input rfs f).1)) fs

  -- addInput does not change the path of the file that it gets.
  abbrev pub KeepsFile : Type 0
  KeepsFile = (rfs : RuleFiles) (f : RuleFile) → (add_input rfs f).0.file ≡ f.file

  add_inputs_of-files :
      KeepsFile
      → (rfs : RuleFiles) (fs : List RuleFile) (rfs_new : RuleFiles)
      → map file_of (add_inputs_of add_input rfs fs rfs_new).0 ≡ map file_of fs
  unfolding add_inputs_of
  add_inputs_of-files k rfs [] rfs_new = refl
  add_inputs_of-files k rfs (f ∷ fs) rfs_new =
      let rest = add_inputs_of-files k rfs fs (merge rfs_new (add_input rfs f).1).0 in
      ap
        (λ i.
          i ∷ map file_of (add_inputs_of add_input rfs fs (merge rfs_new (add_input rfs f).1).0).0)
        (k rfs f)
      ∙ ap (λ is. f.file ∷ is) rest

  add_inputs_of-new :
      (rfs : RuleFiles) (fs : List RuleFile) (rfs_new : RuleFiles) (x : ℕ)
      → mem x (paths (add_inputs_of add_input rfs fs rfs_new).1)
        ≡ (mem x (paths rfs_new) || adds rfs fs x)
  unfolding add_inputs_of
  add_inputs_of-new rfs [] rfs_new x = ground arith
  add_inputs_of-new rfs (f ∷ fs) rfs_new x =
      let rest = add_inputs_of-new rfs fs (merge rfs_new (add_input rfs f).1).0 x in
      let merged = merge-Merged rfs_new (add_input rfs f).1 in
      rest ∙ ap (λ b. b || adds rfs fs x) (merged.same x) ∙ ground arith

  -- After addInputs the files are those from before and what addInput adds for one of them, each once, when
  -- addInput leaves the paths.
  pub record Added (rfs rfs' : RuleFiles) : Type 0 where
    pub same : (x : ℕ) → mem x (paths rfs') ≡ (mem x (paths rfs) || adds rfs rfs.rfs x)
    pub kept_distinct : distinct (paths rfs) ≡ true → distinct (paths rfs') ≡ true
    pub grows : length rfs.rfs ≤ length rfs'.rfs

  pub native_add_inputs-Added :
      KeepsFile → (rfs : RuleFiles) → Added rfs (native_add_inputs add_input rfs)
  unfolding native_add_inputs
  native_add_inputs-Added k rfs =
      let no_files : RuleFiles = record { rfs = []; commands = [] } in
      let fs = (add_inputs_of add_input rfs rfs.rfs no_files).0 in
      let added = (add_inputs_of add_input rfs rfs.rfs no_files).1 in
      let before : RuleFiles = record rfs { rfs = fs } in
      let same = add_inputs_of-files k rfs rfs.rfs no_files in
      let merged = merge-Merged before added in
      record {
        same = λ x.
            merged.same x
            ∙ ap (λ is. mem x is || mem x (paths added)) same
            ∙ ap (λ b. mem x (paths rfs) || b) (add_inputs_of-new rfs rfs.rfs no_files x);
        kept_distinct = λ d. merged.kept_distinct (ap distinct same ∙ d);
        grows = let a = merged.grows in let b = length-map fs rfs.rfs same in omega arith;
      }
