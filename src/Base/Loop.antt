-- ===== src/Base/Loop.antt =====
-- A loop over a container whose body may throw, and how to reason about it.
use Prim.Native.Nat.{ℕ}
use mathlib.Core.Path.{◌≡◌, sym, subst}
use mathlib.Core.Logic.{inl, inr}
use mathlib.Core.Bool.{true}
use mathlib.Core.List.{List, [], ◌∷◌}
use native.Mathlib.Omega.{arith}
use software.Base.Tests.{◌==◌, or-cases, ==_iff}
use software.Base.Sets.{mem}
use software.Base.Throw.{Result, ok, ◌>>=◌, block-ok}

abbrev pub for {ℓ κ} : {E : Type ℓ} {S : Type κ} → (ℕ → S → Result E S) → List ℕ → S → Result E S
for body [] s = ok s
for body (x ∷ xs) s = do s' ← body x s; for body xs s'

module _ {ℓ κ μ} {E : Type ℓ} {S : Type κ} (body : ℕ → S → Result E S) where
  -- What every round keeps, the loop keeps.
  pub for-keeps :
      (P : S → Type μ) (xs : List ℕ) (s t : S)
      → ((x : ℕ) (u v : S) → mem x xs ≡ true → body x u ≡ ok v → P u → P v)
      → for body xs s ≡ ok t
      → P s
      → P t
  for-keeps P [] s t keep e p = subst P (cc) p
  for-keeps P (x ∷ xs) s t keep e p =
      let (s', first, rest) = block-ok (body x s) (for body xs) e in
      for-keeps P xs s' t (λ y u v m. keep y u v (ground arith)) rest
        (keep x s s' (ground arith) first p)

  -- What the round of `x` brings about and the others keep, holds at the end.
  pub for-brings :
      (P : S → Type μ) (xs : List ℕ) (x : ℕ) (s t : S)
      → ((y : ℕ) (u v : S) → body y u ≡ ok v → P u → P v)
      → ((u v : S) → body x u ≡ ok v → P v)
      → for body xs s ≡ ok t
      → mem x xs ≡ true
      → P t
  for-brings P [] x s t keep bring e m = absurd (cc)
  for-brings P (y ∷ ys) x s t keep bring e m =
      let (s', first, rest) = block-ok (body y s) (for body ys) e in
      elim (or-cases (x == y) (mem x ys) m) [
        | inl q ↦
            for-keeps P ys s' t (λ z u v k. keep z u v) rest
              (bring s s' (subst (λ z. body z s ≡ ok s') (sym ((==_iff x y).0 q)) first))
        | inr q ↦ for-brings P ys x s' t keep bring rest q
      ]
