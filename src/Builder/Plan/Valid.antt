-- ===== src/Builder/Plan/Valid.antt =====
-- When ExecutionPlan::init succeeds: the commands of a plan, and what its validity means.
use mathlib.Core.List.{Perm}
use mathlib.Core.List.Perm
use software.Base.{
  ℕ, suc, ◌<◌, ◌≡◌, refl, sym, ap, subst, ◌∙◌, ◌↔◌, true, false, List, [], ◌∷◌, ◌++◌, arith, ◌==◌,
  length, count_if-pos, mem, mem-append, mem-perm, nil_of_not_mem, some, some-eq, All, All-mem,
  Bool-cases, or-cases, ==_iff, inl, inr, append-nil, sort-perm,
}
use software.Builder.Node.{Heap}
use software.Builder.Plan.{Plan, unresolved, finish, init, is_valid}
use software.Builder.Plan.Order.{Inv, IsOrdered, Ready, rounds_total, rounds-Inv}

-- `init` ends: the fuel of its model suffices.
pub init_total : (cmds : List ℕ) (h : Heap) → (p : Plan) × (init cmds h ≡ some p)
unfolding init
init_total cmds h =
    let (r, e) = rounds_total h cmds (suc (length cmds)) cmds [] (omega arith) in
    (finish h r, rw (e, init))

-- What the rounds of a plan were.
pub record Rounds (cmds : List ℕ) (h : Heap) (p : Plan) : Type 0 where
  pub result : List ℕ × List ℕ
  pub inv : Inv h cmds result.1 result.0
  pub waits : All (λ c. 0 < unresolved h result.1 c) result.1
  pub made : finish h result ≡ p

pub init-Rounds : (cmds : List ℕ) (h : Heap) (p : Plan) → init cmds h ≡ some p → Rounds cmds h p
unfolding init
init-Rounds cmds h p e =
    let (r, found) = rounds_total h cmds (suc (length cmds)) cmds [] (omega arith) in
    let (v, w) =
      rounds-Inv h cmds (suc (length cmds)) cmds [] r found
        (record { same = Perm.rfl; ordered = tt }) in
    record { result = r; inv = v; waits = w; made = some-eq (rw (found, init) at e) }

finish-unprocessed : (h : Heap) (cs un : List ℕ) → (finish h (cs, un)).unprocessed_commands ≡ un
unfolding finish
finish-unprocessed h cs [] = refl
finish-unprocessed h cs (c ∷ un) = refl

finish-perm : (h : Heap) (cs un : List ℕ) → Perm (finish h (cs, un)).commands cs
unfolding finish
finish-perm h cs [] = sort-perm _ cs
finish-perm h cs (c ∷ un) = Perm.rfl

-- A plan holds exactly the commands that it was made of, in order of execution or as unprocessed ones.
pub init-perm :
    (cmds : List ℕ) (h : Heap) (p : Plan)
    → init cmds h ≡ some p
    → Perm (p.commands ++ p.unprocessed_commands) cmds
init-perm cmds h p e =
    let r = init-Rounds cmds h p e in
    subst (λ q. Perm (q.commands ++ q.unprocessed_commands) cmds) r.made
      (Perm.trans
        (rw (finish-unprocessed h r.result.0 r.result.1)
          (Perm.append_right r.result.1 (finish-perm h r.result.0 r.result.1)))
        r.inv.same)

-- Every unprocessed command depends on an unprocessed command.
pub init_waits :
    (cmds : List ℕ) (h : Heap) (p : Plan) (c : ℕ)
    → init cmds h ≡ some p
    → mem c p.unprocessed_commands ≡ true
    → (d : ℕ) × (mem d (h c).dependencies ≡ true) × (mem d p.unprocessed_commands ≡ true)
unfolding unresolved
init_waits cmds h p c e m =
    let r = init-Rounds cmds h p e in
    let same =
      sym (finish-unprocessed h r.result.0 r.result.1) ∙ ap (λ q. q.unprocessed_commands) r.made in
    count_if-pos _ _ (All-mem _ _ (subst (λ l. All (λ x. 0 < unresolved h l x) l) same r.waits) c m)

module _ (h : Heap) (all un : List ℕ) (sub : (c : ℕ) → mem c un ≡ true → mem c all ≡ true)
    (waits : (c : ℕ)
      → mem c un ≡ true
      → (d : ℕ) × (mem d (h c).dependencies ≡ true) × (mem d un ≡ true)) where
  Ready-not_waiting :
      (seen : List ℕ) (c : ℕ)
      → Ready h all seen c
      → ((d : ℕ) → mem d seen ≡ true → mem d un ≡ false)
      → mem c un ≡ false
  Ready-not_waiting seen c ready clear = elim (Bool-cases (mem c un)) [
    | inr e ↦ e
    | inl e ↦ let (d, m, u) = waits c e in absurd (cc (clear d (ready d m (sub d u))))
  ]

  -- Nothing of an ordered list waits for ever.
  IsOrdered-not_waiting :
      (seen cs : List ℕ)
      → IsOrdered h all seen cs
      → ((d : ℕ) → mem d seen ≡ true → mem d un ≡ false)
      → (c : ℕ) → mem c cs ≡ true
      → mem c un ≡ false
  IsOrdered-not_waiting seen [] o s c m = absurd (cc)
  IsOrdered-not_waiting seen (x ∷ xs) o s c m =
      let head = Ready-not_waiting seen x o.0 s in
      elim (or-cases (c == x) (mem c xs) m) [
        | inl e ↦ rw ((==_iff c x).0 e) head
        | inr e ↦
            IsOrdered-not_waiting (seen ++ x ∷ []) xs o.1
              (λ d k.
                elim (or-cases (mem d seen) (mem d (x ∷ []))
                  (rw (mem-append d seen (x ∷ [])) at k)) [
                    | inl a ↦ s d a
                    | inr a ↦ rw ((==_iff d x).0 (ground arith)) head
                  ])
              c e
      ]

-- The rounds of a valid plan took every command.
pub valid-Rounds :
    (cmds : List ℕ) (h : Heap) (p : Plan)
    → init cmds h ≡ some p
    → is_valid p ≡ true
    → (order : List ℕ) × Perm order cmds × IsOrdered h cmds [] order × (finish h (order, []) ≡ p)
unfolding is_valid
valid-Rounds cmds h p e v =
    let r : Rounds cmds h p = init-Rounds cmds h p e in
    let empty : r.result.1 ≡ [] =
      sym (finish-unprocessed h r.result.0 r.result.1)
      ∙ (ap (λ q. q.unprocessed_commands) r.made ∙ ground arith) in
    (
      r.result.0,
      subst (λ l. Perm l cmds) (append-nil r.result.0)
          (subst (λ l. Perm (r.result.0 ++ l) cmds) empty r.inv.same),
      r.inv.ordered,
      subst (λ l. finish h (r.result.0, l) ≡ p) empty r.made,
    )

-- The plan is valid exactly when the commands can be put in an order in which each stands behind
-- those of its dependencies that were passed.
pub init_valid_iff :
    (cmds : List ℕ) (h : Heap) (p : Plan)
    → init cmds h ≡ some p
    → (is_valid p ≡ true) ↔ ((order : List ℕ) × Perm order cmds × IsOrdered h cmds [] order)
unfolding is_valid
init_valid_iff cmds h p e = (to, from)
  where
    to : is_valid p ≡ true → (order : List ℕ) × Perm order cmds × IsOrdered h cmds [] order
    to v = let (order, same, ordered, _) = valid-Rounds cmds h p e v in (order, same, ordered)

    from : ((order : List ℕ) × Perm order cmds × IsOrdered h cmds [] order) → is_valid p ≡ true
    from (order, same, ordered) =
        let sub : (c : ℕ) → mem c p.unprocessed_commands ≡ true → mem c cmds ≡ true = λ c m.
          sym (mem-perm c (init-perm cmds h p e))
          ∙ (mem-append c p.commands p.unprocessed_commands ∙ ground arith) in
        let empty : p.unprocessed_commands ≡ [] = nil_of_not_mem p.unprocessed_commands (λ c m. cc (
          IsOrdered-not_waiting h cmds p.unprocessed_commands sub (λ x k. init_waits cmds h p x e k)
            [] order ordered (λ d k. absurd (cc)) c (mem-perm c same ∙ sub c m))) in
        ground arith
