-- ===== src/Base/Throw.antt =====
-- Exceptions as values: `err e` stands for a thrown `e`, and the rest of a block is skipped.
use mathlib.Core.Path.{◌≡◌, refl}
use mathlib.Core.Logic.{◌⊎◌, inl, inr}
use mathlib.Core.Bool.{Bool, true, false}

pub data Result {ℓ κ} (E : Type ℓ) (A : Type κ) : Type (ℓ ⊔ κ) where
  ok : A → Result E A
  err : E → Result E A

-- `if (test) throw e;`
abbrev pub throw_if {ℓ} : {E : Type ℓ} → Bool → E → Result E (Unit {0})
throw_if true e = err e
throw_if false e = ok tt

module _ {ℓ κ μ} {E : Type ℓ} {A : Type κ} {B : Type μ} where
  infixl 5 ◌>>=◌
  abbrev pub ◌>>=◌ : Result E A → (A → Result E B) → Result E B
  ◌>>=◌ first rest = elim first [ err e ↦ err e | ok a ↦ rest a ]

  -- A block that ends without an exception went through its first statement.
  pub block-ok :
      (first : Result E A) (rest : A → Result E B) {b : B}
      → (first >>= rest) ≡ ok b
      → (a : A) × (first ≡ ok a) × (rest a ≡ ok b)
  block-ok (err e) rest done = cc
  block-ok (ok a) rest done = (a, refl, done)

module _ {ℓ κ} {E : Type ℓ} {B : Type κ} where
  infixl 5 ◌>>◌
  abbrev pub ◌>>◌ : Result E (Unit {0}) → Result E B → Result E B
  ◌>>◌ first rest = elim first [ err e ↦ err e | ok u ↦ rest ]

  pub Result-cases : (r : Result E B) → ((b : B) × (r ≡ ok b)) ⊎ ((e : E) × (r ≡ err e))
  Result-cases (err e) = inr (e, refl)
  Result-cases (ok b) = inl (b, refl)
