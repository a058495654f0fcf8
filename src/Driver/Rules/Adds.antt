-- ===== src/Driver/Rules/Adds.antt =====
-- Sets of commands and what they grow by.
use software.Base.{
  ℕ, ◌≡◌, ◌↔◌, ◌⊎◌, refl, sym, subst, ◌∙◌, true, ◌||◌, ◌==◌, ==_iff, or-cases, List, [], ◌∷◌, mem,
  mem-insert, insert, inl, inr, arith,
}
use software.Driver.Rules.{unite}

mem-unite : (c : ℕ) (xs ys : List ℕ) → mem c (unite xs ys) ≡ (mem c xs || mem c ys)
mem-unite c [] ys = refl
mem-unite c (x ∷ xs) ys = mem-unite c xs (insert x ys) ∙ ground (arith, mem-insert c x ys)

-- The set grows by the commands of which P holds.
abbrev pub Adds : (P : ℕ → Type 0) → (cmds cmds' : List ℕ) → Type 0
Adds P cmds cmds' = (c : ℕ) → (mem c cmds' ≡ true) ↔ ((mem c cmds ≡ true) ⊎ P c)

pub Adds-none : (P : ℕ → Type 0) (cmds : List ℕ) → ((c : ℕ) → P c → ⊥) → Adds P cmds cmds
Adds-none P cmds never c = (λ m. inl m, λ h. elim h [ inl m ↦ m | inr p ↦ absurd (never c p) ])

pub Adds-insert :
    (P : ℕ → Type 0) (cmds : List ℕ) (x : ℕ)
    → P x
    → ((c : ℕ) → P c → x ≡ c)
    → Adds P cmds (insert x cmds)
Adds-insert P cmds x p only c = (
  λ m. elim (or-cases (c == x) (mem c cmds) (sym (mem-insert c x cmds) ∙ m)) [
    | inl e ↦ inr (subst P (sym ((==_iff c x).0 e)) p)
    | inr k ↦ inl k
  ],
  λ h. elim h [
    | inl k ↦ ground (arith, mem-insert c x cmds)
    | inr q ↦ let same = only c q in ground (arith, mem-insert c x cmds)
  ],
)

pub Adds-unite :
    (P : ℕ → Type 0) (cmds more : List ℕ)
    → ((c : ℕ) → (mem c more ≡ true) ↔ P c)
    → Adds P cmds (unite more cmds)
Adds-unite P cmds more h c = (
  λ m. elim (or-cases (mem c more) (mem c cmds) (sym (mem-unite c more cmds) ∙ m)) [
    | inl e ↦ inr ((h c).0 e)
    | inr k ↦ inl k
  ],
  λ k. elim k [
    | inl m ↦ ground (arith, mem-unite c more cmds)
    | inr p ↦ let m = (h c).1 p in ground (arith, mem-unite c more cmds)
  ],
)

pub Adds-then :
    (P Q R : ℕ → Type 0) (a b d : List ℕ)
    → ((c : ℕ) → R c → P c ⊎ Q c)
    → ((c : ℕ) → P c → R c)
    → ((c : ℕ) → Q c → R c)
    → Adds P a b
    → Adds Q b d
    → Adds R a d
Adds-then P Q R a b d split left right h k c = (
  λ m. elim ((k c).0 m) [
    | inl m' ↦ elim ((h c).0 m') [ inl m'' ↦ inl m'' | inr p ↦ inr (left c p) ]
    | inr q ↦ inr (right c q)
  ],
  λ s. elim s [
    | inl m ↦ (k c).1 (inl ((h c).1 (inl m)))
    | inr r ↦ elim (split c r) [ inl p ↦ (k c).1 (inl ((h c).1 (inr p))) | inr q ↦ (k c).1 (inr q) ]
  ],
)

pub Adds-same :
    (P Q : ℕ → Type 0) (a b : List ℕ)
    → ((c : ℕ) → P c → Q c)
    → ((c : ℕ) → Q c → P c)
    → Adds P a b
    → Adds Q a b
Adds-same P Q a b to from h c = (
  λ m. elim ((h c).0 m) [ inl k ↦ inl k | inr p ↦ inr (to c p) ],
  λ s. elim s [ inl m ↦ (h c).1 (inl m) | inr q ↦ (h c).1 (inr (from c q)) ],
)
