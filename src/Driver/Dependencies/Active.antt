-- ===== src/Driver/Dependencies/Active.antt =====
-- Which dependencies are active after calls of add and remove.
use software.Base.{
  ℕ, ◌≡◌, refl, sym, ap, ap₂, fun_ext, subst, ◌∙◌, Bool, true, false, not, ◌&&◌, ◌||◌, ◌==◌, ==_iff,
  if◌then◌else◌, Bool-cases, List, [], ◌∷◌, ◌++◌, any, any-append, any-none, All-of_mem, arith, inl,
  inr,
}
use software.Driver.Dependencies.{
  Dependency, LinkerOptions, same_name, Call, set_disabled, merge_exports, disable_all,
  add_dependency, remove_dependency, run_calls, is_active,
}
use software.Driver.Dependencies.Disabling.{
  active_at, any-same, any-at, set_disabled-upkg, set_disabled-other, set_disabled-on,
  same_name-cases, disable_all-upkg, disable_all-other, disable_all-kept, disabled-inactive,
  disable_all-name,
}

-- The reference: a name is active when the last call for it was add; `b` is what it was before.
abbrev pub last_call : (upkg : ℕ → ℕ) → List Call → ℕ → Bool → Bool
last_call upkg [] i b = b
last_call upkg (Call.add t ∷ cs) i b = last_call upkg cs i (if upkg t == i then true else b)
last_call upkg (Call.remove t ∷ cs) i b = last_call upkg cs i (if upkg t == i then false else b)

module _ (with_exports : ℕ → ℕ) (neutral : (i : ℕ) → with_exports i ≡ i) where
  merge_exports-same : (t : ℕ) (h : ℕ → Dependency) (q : ℕ) → merge_exports with_exports t h q ≡ h q
  merge_exports-same t h q = elim (Bool-cases (q == t)) [
    | inl e ↦ rw e (ap (λ u. record (h q) { upkg = u }) (neutral (h q).upkg))
    | inr e ↦ rw e refl
  ]

  with_last :
      (i t : ℕ) (ps : List ℕ) (h : ℕ → Dependency)
      → any (active_at i (merge_exports with_exports t h)) (ps ++ t ∷ [])
        ≡ (any (active_at i h) ps || (active_at i h t || false))
  with_last i t ps h =
      any-append (active_at i (merge_exports with_exports t h)) ps (t ∷ [])
      ∙ ap₂ (λ a b. a || (b || false))
          (any-same (active_at i (merge_exports with_exports t h)) (active_at i h) ps (λ q.
            ap (λ (d : Dependency). (d.upkg == i) && not d.disabled) (merge_exports-same t h q)))
          (ap (λ (d : Dependency). (d.upkg == i) && not d.disabled) (merge_exports-same t h t))

  is_active-add :
      (t i : ℕ) (o : LinkerOptions)
      → is_active i (add_dependency with_exports t o)
        ≡ (if (o.heap t).upkg == i then true else is_active i o)
  unfolding add_dependency
  is_active-add t i o =
      let id = (o.heap t).upkg in
      let p = same_name t o in
      let h = set_disabled false p o.heap in
      let (named, where_p) = same_name-cases t o in
      let start = with_last i t o.deps h in
      elim (Bool-cases (id == i)) [
        | inl e ↦
            let on : active_at i h p ≡ true =
              (let a = set_disabled-on false p o.heap in
                let b = set_disabled-upkg false p o.heap p ∙ named in
                let c = (==_iff id i).0 e in ground (arith, ==_iff (h p).upkg i)) in
            elim where_p [
              | inl same ↦
                  rw e (start ∙ (let on' = ap (active_at i h) (sym same) ∙ on in ground arith))
              | inr m ↦
                  rw e (start ∙ (let on' = any-at (active_at i h) o.deps p m on in ground arith))
            ]
        | inr e ↦
            let other : (q : ℕ) → active_at i h q ≡ active_at i o.heap q =
              λ q. set_disabled-other false p i o.heap q (ap (λ j. j == i) named ∙ e) in
            let last = other t ∙ ap (λ b. b && not (o.heap t).disabled) e in
            rw e (
              start
              ∙ ap₂ (λ a b. a || (b || false))
                  (any-same (active_at i h) (active_at i o.heap) o.deps other) last
              ∙ ground arith)
      ]

  is_active-remove :
      (t i : ℕ) (o : LinkerOptions)
      → is_active i (remove_dependency with_exports t o)
        ≡ (if (o.heap t).upkg == i then false else is_active i o)
  unfolding remove_dependency
  is_active-remove t i o =
      let id = (o.heap t).upkg in
      let h = disable_all id o.deps (set_disabled true t o.heap) in
      let start = with_last i t o.deps h in
      elim (Bool-cases (id == i)) [
        | inl e ↦
            let same = (==_iff id i).0 e in
            let off : (set_disabled true t o.heap t).disabled ≡ true =
              set_disabled-on true t o.heap in
            rw e (
              start
              ∙ ap₂ (λ a b. a || (b || false))
                  (any-none (active_at i h) o.deps (
                    All-of_mem _ o.deps (λ q m.
                      subst (λ j. active_at j h q ≡ false) same
                        (disable_all-name id o.deps (set_disabled true t o.heap) q m))))
                  (disabled-inactive i h t
                    (disable_all-kept id o.deps (set_disabled true t o.heap) t off)))
        | inr e ↦
            let other : (q : ℕ) → active_at i h q ≡ active_at i o.heap q = λ q.
              disable_all-other id o.deps i (set_disabled true t o.heap) q e
              ∙ set_disabled-other true t i o.heap q e in
            let last = other t ∙ ap (λ b. b && not (o.heap t).disabled) e in
            rw e (
              start
              ∙ ap₂ (λ a b. a || (b || false))
                  (any-same (active_at i h) (active_at i o.heap) o.deps other) last
              ∙ ground arith)
      ]

  add-upkg :
      (t : ℕ) (o : LinkerOptions) (q : ℕ)
      → ((add_dependency with_exports t o).heap q).upkg ≡ (o.heap q).upkg
  unfolding add_dependency
  add-upkg t o q =
      let h = set_disabled false (same_name t o) o.heap in
      ap (λ (d : Dependency). d.upkg) (merge_exports-same t h q)
      ∙ set_disabled-upkg false (same_name t o) o.heap q

  remove-upkg :
      (t : ℕ) (o : LinkerOptions) (q : ℕ)
      → ((remove_dependency with_exports t o).heap q).upkg ≡ (o.heap q).upkg
  unfolding remove_dependency
  remove-upkg t o q =
      let h = disable_all (o.heap t).upkg o.deps (set_disabled true t o.heap) in
      ap (λ (d : Dependency). d.upkg) (merge_exports-same t h q)
      ∙ disable_all-upkg (o.heap t).upkg o.deps (set_disabled true t o.heap) q
      ∙ set_disabled-upkg true t o.heap q

  -- After any calls of add and remove, a name is active exactly when the last call for it was add, whichever
  -- objects the calls were for: the reference keeps only the names. The calls merge no settings into the ids.
  pub is_active-run_calls :
      (cs : List Call) (i : ℕ) (o : LinkerOptions)
      → is_active i (run_calls with_exports cs o)
        ≡ last_call (λ t. (o.heap t).upkg) cs i (is_active i o)
  unfolding run_calls
  is_active-run_calls [] i o = refl
  is_active-run_calls (Call.add t ∷ cs) i o =
      is_active-run_calls cs i (add_dependency with_exports t o)
      ∙ ap₂ (λ f b. last_call f cs i b) (fun_ext (add-upkg t o)) (is_active-add t i o)
  is_active-run_calls (Call.remove t ∷ cs) i o =
      is_active-run_calls cs i (remove_dependency with_exports t o)
      ∙ ap₂ (λ f b. last_call f cs i b) (fun_ext (remove-upkg t o)) (is_active-remove t i o)
