-- ===== src/Builder/Plan/Order.antt =====
-- The rounds of ExecutionPlan::init: nothing is lost, and every command stands behind the
-- dependencies that were passed with it.
use mathlib.Core.List.{Perm, perm_middle}
use mathlib.Core.List.Perm
use software.Base.{
  subst, some-eq, ℕ, zero, suc, ◌+◌, ◌≤◌, ◌<◌, ◌≡◌, refl, sym, ◌∙◌, Bool, true, false, List, [],
  ◌∷◌, ◌++◌, arith, ◌==◌, length, length-append, count_if-zero, mem, mem-append, mem-perm, some,
  All, Bool-cases, ==_iff, inl, inr, append_assoc, append-nil,
}
use software.Builder.Node.{Heap}
use software.Builder.Plan.{unresolved, sweep, rounds}

-- Dependencies of `c` that belong to the set `all` are in `seen`.
abbrev pub Ready : Heap → (all seen : List ℕ) → ℕ → Type 0
Ready h all seen c =
    (d : ℕ) → mem d (h c).dependencies ≡ true → mem d all ≡ true → mem d seen ≡ true

-- Along the list, each command's dependencies are in `seen` or before it.
abbrev pub IsOrdered : Heap → (all seen : List ℕ) → List ℕ → Type 0
IsOrdered h all seen [] = Unit
IsOrdered h all seen (c ∷ cs) = Ready h all seen c × IsOrdered h all (seen ++ c ∷ []) cs

pub IsOrdered-snoc :
    (h : Heap) (all seen cs : List ℕ) (c : ℕ)
    → IsOrdered h all seen cs
    → Ready h all (seen ++ cs) c
    → IsOrdered h all seen (cs ++ c ∷ [])
IsOrdered-snoc h all seen [] c o r = (rw append-nil at r, tt)
IsOrdered-snoc h all seen (x ∷ xs) c o r =
    (o.0, IsOrdered-snoc h all (seen ++ x ∷ []) xs c o.1 (rw append_assoc r))

module _ (h : Heap) (all : List ℕ) where
  -- What a round keeps true of the set and of the commands taken.
  pub record Inv (cmds commands : List ℕ) : Type 0 where
    pub same : Perm (commands ++ cmds) all
    pub ordered : IsOrdered h all [] commands

  take-Inv :
      (kept rest commands : List ℕ) (c : ℕ)
      → unresolved h (kept ++ c ∷ rest) c ≡ 0
      → Inv (kept ++ c ∷ rest) commands
      → Inv (kept ++ rest) (commands ++ c ∷ [])
  unfolding unresolved
  take-Inv kept rest commands c e v = record {
    same =
        rw append_assoc
          (Perm.trans (Perm.append_left commands (Perm.symm (perm_middle kept rest))) v.same);
    ordered = IsOrdered-snoc h all [] commands c v.ordered ready;
  }
    where
      ready : Ready h all commands c
      ready d m a =
          let here = mem-perm d v.same ∙ a in
          let gone = count_if-zero (λ x. mem x (kept ++ c ∷ rest)) (h c).dependencies d m e in
          ground (arith, mem-append d commands (kept ++ c ∷ rest))

  sweep-Inv :
      (kept rest commands : List ℕ) (added : Bool)
      → Inv (kept ++ rest) commands
      → Inv (sweep h kept rest commands added).0 (sweep h kept rest commands added).1
  unfolding sweep
  sweep-Inv kept [] commands added v = rw append-nil at v
  sweep-Inv kept (c ∷ rest) commands added v =
      elim (Bool-cases (unresolved h (kept ++ c ∷ rest) c == 0)) [
        | inl e ↦ rw e (
            sweep-Inv kept rest (commands ++ c ∷ []) true
              (take-Inv kept rest commands c (omega (arith, (==_iff _ _).0 e)) v))
        | inr e ↦ rw e (sweep-Inv (kept ++ c ∷ []) rest commands added (rw append_assoc v))
      ]

  -- A round that takes nothing leaves the set alone, and everything in it waits for something in it.
  sweep_stuck :
      (kept rest commands : List ℕ) (added : Bool)
      → (sweep h kept rest commands added).2 ≡ false
      → (added ≡ false)
        × ((sweep h kept rest commands added).0 ≡ kept ++ rest)
        × All (λ c. 0 < unresolved h (kept ++ rest) c) rest
  unfolding sweep
  sweep_stuck kept [] commands added e = (e, sym (append-nil kept), tt)
  sweep_stuck kept (c ∷ rest) commands added e =
      elim (Bool-cases (unresolved h (kept ++ c ∷ rest) c == 0)) [
        | inl z ↦ absurd (cc ((sweep_stuck kept rest (commands ++ c ∷ []) true (rw z at e)).0))
        | inr z ↦
            let (a, b, w) = sweep_stuck (kept ++ c ∷ []) rest commands added (rw z at e) in
            rw z (a, b ∙ append_assoc kept (c ∷ []) rest, (ground arith, rw append_assoc at w))
      ]

  sweep_shrinks :
      (kept rest commands : List ℕ) (added : Bool)
      → (length (sweep h kept rest commands added).0 ≤ length kept + length rest)
        × (added ≡ false
            → (sweep h kept rest commands added).2 ≡ true
            → length (sweep h kept rest commands added).0 < length kept + length rest)
  unfolding sweep
  sweep_shrinks kept [] commands added = (omega arith, λ e f. absurd (cc))
  sweep_shrinks kept (c ∷ rest) commands added =
      elim (Bool-cases (unresolved h (kept ++ c ∷ rest) c == 0)) [
        | inl z ↦
            let (a, b) = sweep_shrinks kept rest (commands ++ c ∷ []) true in
            rw z (omega arith, λ e f. omega arith)
        | inr z ↦
            let (a, b) = sweep_shrinks (kept ++ c ∷ []) rest commands added in
            let l = length-append kept (c ∷ []) in rw z (omega arith, λ e f. omega (arith, b e f))
      ]

  -- Fuel above the number of commands suffices.
  pub rounds_total :
      (f : ℕ) (cmds commands : List ℕ)
      → length cmds < f
      → (r : List ℕ × List ℕ) × (rounds h f cmds commands ≡ some r)
  unfolding rounds
  rounds_total zero cmds commands l = absurd (omega arith)
  rounds_total (suc f) [] commands l = ((commands, []), refl)
  rounds_total (suc f) (c ∷ cs) commands l =
      elim (Bool-cases (sweep h [] (c ∷ cs) commands false).2) [
        | inl e ↦
            let shorter = (sweep_shrinks [] (c ∷ cs) commands false).1 refl e in
            rw e (rounds_total f _ _ (omega arith))
        | inr e ↦ rw e (_, refl)
      ]

  -- What the rounds leave: the commands in order, and a set in which everything waits.
  pub rounds-Inv :
      (f : ℕ) (cmds commands : List ℕ) (r : List ℕ × List ℕ)
      → rounds h f cmds commands ≡ some r
      → Inv cmds commands
      → Inv r.1 r.0 × All (λ c. 0 < unresolved h r.1 c) r.1
  unfolding rounds
  rounds-Inv zero cmds commands r e v = absurd (cc)
  rounds-Inv (suc f) [] commands r e v =
      let e' : (commands, []) ≡ r = cc in
      subst (λ p. Inv p.1 p.0 × All (λ c. 0 < unresolved h p.1 c) p.1) e' (v, tt)
  rounds-Inv (suc f) (c ∷ cs) commands r e v =
      let w = sweep-Inv [] (c ∷ cs) commands false v in
      elim (Bool-cases (sweep h [] (c ∷ cs) commands false).2) [
        | inl a ↦ rounds-Inv f _ _ r (rw a at e) w
        | inr a ↦
            let (_, same, waits) = sweep_stuck [] (c ∷ cs) commands false a in
            let e' : (
              (sweep h [] (c ∷ cs) commands false).1,
              (sweep h [] (c ∷ cs) commands false).0,
            )
                ≡ r =
              some-eq (rw a at e) in
            subst (λ p. Inv p.1 p.0 × All (λ c. 0 < unresolved h p.1 c) p.1) e'
              (w, subst (λ l. All (λ c. 0 < unresolved h l c) l) (sym same) waits)
      ]
