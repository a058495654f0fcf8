-- ===== src/Core/Targets/Latest.antt =====
-- getMaxSatisfyingVersion gives the greatest release in a range.
use software.Base.{
  ℕ, ◌≤◌, ◌<◌, ◌≡◌, refl, sym, ap, ◌∙◌, Bool, true, false, ◌&&◌, ◌||◌, ◌==◌, ==_iff, if◌then◌else◌,
  Bool-cases, or-cases, List, [], ◌∷◌, mem, Result, ok, err, inl, inr, arith, subst,
}
use software.Core.Targets.{Error, unimplemented, get_max_satisfying_version}

pub or-true : (b : Bool) → (b || true) ≡ true
or-true true = refl
or-true false = refl

pub true-false : true ≡ false → ⊥
true-false h = cc

-- The keys ascend.
abbrev pub AreAbove : ℕ → List ℕ → Type 0
AreAbove b [] = Unit
AreAbove b (v ∷ vs) = (b < v) × AreAbove v vs

abbrev pub AreAscending : List ℕ → Type 0
AreAscending [] = Unit
AreAscending (v ∷ vs) = AreAbove v vs

abbrev pub IsGreatest : (ℕ → Bool) → (ℕ → Bool) → List ℕ → ℕ → Type 0
IsGreatest r c vs v =
    (mem v vs ≡ true)
    × ((r v && c v) ≡ true)
    × ((w : ℕ) → mem w vs ≡ true → (r w && c w) ≡ true → w ≤ v)

AreAbove-mem : (b w : ℕ) (vs : List ℕ) → AreAbove b vs → mem w vs ≡ true → b < w
AreAbove-mem b w [] a h = cc
AreAbove-mem b w (v ∷ vs) (l, a) h = ground (arith, AreAbove-mem v w vs)

unfoldable pub Greatest : (ℕ → Bool) → (ℕ → Bool) → List ℕ → Result Error ℕ → Type 0
Greatest r c vs (ok v) = IsGreatest r c vs v
Greatest r c vs (err e) = (w : ℕ) → mem w vs ≡ true → (r w && c w) ≡ false

AreAbove-AreAscending : (b : ℕ) (vs : List ℕ) → AreAbove b vs → AreAscending vs
AreAbove-AreAscending b [] a = tt
AreAbove-AreAscending b (v ∷ vs) a = a.1

mem-tail : (u v : ℕ) (vs : List ℕ) → mem u vs ≡ true → mem u (v ∷ vs) ≡ true
mem-tail u v vs m = ap (λ b. u == v || b) m ∙ or-true (u == v)

mem-head : (v : ℕ) (vs : List ℕ) → mem v (v ∷ vs) ≡ true
mem-head v vs = ground arith

-- None of the later versions satisfies the range.
last-Greatest :
    (r c : ℕ → Bool) (v : ℕ) (vs : List ℕ) (b : Bool)
    → (r v && c v) ≡ b
    → Greatest r c vs (err unimplemented)
    → Greatest r c (v ∷ vs) (if b then ok v else err unimplemented)
unfolding Greatest
last-Greatest r c v vs true e g = (
  mem-head v vs,
  e,
  λ w m k. elim (or-cases (w == v) (mem w vs) m) [
    | inl q ↦ ground arith
    | inr q ↦ elim (true-false (sym k ∙ g w q)) [ ]
  ],
)
last-Greatest r c v vs false e g = λ w m. elim (or-cases (w == v) (mem w vs) m) [
  | inl q ↦ ap (λ x. r x && c x) ((==_iff w v).0 q) ∙ e
  | inr q ↦ g w q
]

step-Greatest :
    (r c : ℕ → Bool) (v : ℕ) (vs : List ℕ) (x : Result Error ℕ)
    → AreAbove v vs
    → Greatest r c vs x
    → Greatest r c
        (v ∷ vs)
        (elim x [ ok w ↦ ok w | err e ↦ if r v && c v then ok v else err unimplemented ])
unfolding Greatest
step-Greatest r c v vs (ok u) a (m, q, g) = (
  mem-tail u v vs m,
  q,
  λ w mw k. elim (or-cases (w == v) (mem w vs) mw) [
    | inl e ↦ ground (arith, AreAbove-mem v u vs a m)
    | inr e ↦ g w e k
  ],
)
step-Greatest r c v vs (err e) a g = elim (Bool-cases (r v && c v)) [
  | inl q ↦
      subst (λ b. Greatest r c (v ∷ vs) (if b then ok v else err unimplemented)) (sym q)
        (last-Greatest r c v vs true q g)
  | inr q ↦
      subst (λ b. Greatest r c (v ∷ vs) (if b then ok v else err unimplemented)) (sym q)
        (last-Greatest r c v vs false q g)
]

pub get_max-Greatest :
    (r c : ℕ → Bool) (vs : List ℕ)
    → AreAscending vs
    → Greatest r c vs (get_max_satisfying_version r c vs)
unfolding get_max_satisfying_version Greatest
get_max-Greatest r c [] a = λ w m. cc
get_max-Greatest r c (v ∷ vs) a =
    step-Greatest r c v vs (get_max_satisfying_version r c vs) a
      (get_max-Greatest r c vs (AreAbove-AreAscending v vs a))
