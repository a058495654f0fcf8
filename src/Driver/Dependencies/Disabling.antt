-- ===== src/Driver/Dependencies/Disabling.antt =====
-- What the two writes of NativeLinkerOptions::add and remove do to the dependencies of a name and to others.
use software.Base.{
  ℕ, ◌≡◌, refl, ap, ◌∙◌, Bool, true, false, not, ◌&&◌, ◌||◌, ◌==◌, ==_iff, if◌then◌else◌,
  Bool-cases, or-cases, List, [], ◌∷◌, mem, Option-cases, find_by, find_by-found, any, All-of_mem,
  arith, inl, inr, ◌⊎◌,
}
use software.Driver.Dependencies.{Dependency, LinkerOptions, same_name, set_disabled, disable_all}

-- The test of an active dependency.
abbrev pub active_at : ℕ → (ℕ → Dependency) → ℕ → Bool
active_at i h p = ((h p).upkg == i) && not (h p).disabled

pub any-same : (f g : ℕ → Bool) (xs : List ℕ) → ((x : ℕ) → f x ≡ g x) → any f xs ≡ any g xs
any-same f g [] h = refl
any-same f g (x ∷ xs) h = ap (λ b. b || any f xs) (h x) ∙ ap (λ b. g x || b) (any-same f g xs h)

pub any-at : (f : ℕ → Bool) (xs : List ℕ) (x : ℕ) → mem x xs ≡ true → f x ≡ true → any f xs ≡ true
any-at f [] x m e = cc
any-at f (y ∷ ys) x m e = ground (arith, any-at f ys x, ==_iff x y, λ (q : x ≡ y). ap f q)

pub set_disabled-upkg :
    (b : Bool) (p : ℕ) (h : ℕ → Dependency) (q : ℕ) → (set_disabled b p h q).upkg ≡ (h q).upkg
set_disabled-upkg b p h q = elim (Bool-cases (q == p)) [ inl e ↦ rw e refl | inr e ↦ rw e refl ]

-- A dependency of another name is as active as before.
pub set_disabled-other :
    (b : Bool) (p i : ℕ) (h : ℕ → Dependency) (q : ℕ)
    → ((h p).upkg == i) ≡ false
    → active_at i (set_disabled b p h) q ≡ active_at i h q
set_disabled-other b p i h q n = elim (Bool-cases (q == p)) [
  | inl e ↦
      let same = (==_iff q p).0 e in let n' = ap (λ z. (h z).upkg == i) same ∙ n in rw (e, n') refl
  | inr e ↦ rw e refl
]

pub set_disabled-on : (b : Bool) (p : ℕ) (h : ℕ → Dependency) → (set_disabled b p h p).disabled ≡ b
set_disabled-on b p h = let e : (p == p) ≡ true = ground arith in rw e refl

pub same_name-cases :
    (t : ℕ) (o : LinkerOptions)
    → ((o.heap (same_name t o)).upkg ≡ (o.heap t).upkg)
      × ((same_name t o ≡ t) ⊎ (mem (same_name t o) o.deps ≡ true))
unfolding same_name
same_name-cases t o =
    elim (Option-cases (find_by (λ p. (o.heap p).upkg == (o.heap t).upkg) o.deps)) [
      | inl e ↦ rw (same_name, e) (refl, inl refl)
      | inr (p, e) ↦
          let (m, named) =
            find_by-found (λ y. mem y o.deps ≡ true) _ o.deps p (All-of_mem _ o.deps (λ y k. k))
              e in
          rw (same_name, e) ((==_iff (o.heap p).upkg (o.heap t).upkg).0 named, inr m)
    ]

pub disable_all-upkg :
    (i : ℕ) (ps : List ℕ) (h : ℕ → Dependency) (q : ℕ) → (disable_all i ps h q).upkg ≡ (h q).upkg
disable_all-upkg i [] h q = refl
disable_all-upkg i (p ∷ ps) h q = elim (Bool-cases ((h p).upkg == i)) [
  | inl e ↦
      ap (λ b. (disable_all i ps (if b then set_disabled true p h else h) q).upkg) e
      ∙ disable_all-upkg i ps (set_disabled true p h) q
      ∙ set_disabled-upkg true p h q
  | inr e ↦
      ap (λ b. (disable_all i ps (if b then set_disabled true p h else h) q).upkg) e
      ∙ disable_all-upkg i ps h q
]

pub disable_all-other :
    (j : ℕ) (ps : List ℕ) (i : ℕ) (h : ℕ → Dependency) (q : ℕ)
    → (j == i) ≡ false
    → active_at i (disable_all j ps h) q ≡ active_at i h q
disable_all-other j [] i h q n = refl
disable_all-other j (p ∷ ps) i h q n = elim (Bool-cases ((h p).upkg == j)) [
  | inl e ↦
      ap (λ b. active_at i (disable_all j ps (if b then set_disabled true p h else h)) q) e
      ∙ disable_all-other j ps i (set_disabled true p h) q n
      ∙ set_disabled-other true p i h q (ground arith)
  | inr e ↦
      ap (λ b. active_at i (disable_all j ps (if b then set_disabled true p h else h)) q) e
      ∙ disable_all-other j ps i h q n
]

-- What was disabled stays disabled, and every dependency of the name is.
pub disable_all-kept :
    (i : ℕ) (ps : List ℕ) (h : ℕ → Dependency) (q : ℕ)
    → (h q).disabled ≡ true
    → (disable_all i ps h q).disabled ≡ true
disable_all-kept i [] h q d = d
disable_all-kept i (p ∷ ps) h q d = elim (Bool-cases ((h p).upkg == i)) [
  | inl e ↦
      ap (λ b. (disable_all i ps (if b then set_disabled true p h else h) q).disabled) e
      ∙ (disable_all-kept i ps (set_disabled true p h) q
          (elim (Bool-cases (q == p)) [ inl f ↦ rw f refl | inr f ↦ rw f d ]))
  | inr e ↦
      ap (λ b. (disable_all i ps (if b then set_disabled true p h else h) q).disabled) e
      ∙ disable_all-kept i ps h q d
]

pub disabled-inactive :
    (i : ℕ) (h : ℕ → Dependency) (q : ℕ) → (h q).disabled ≡ true → active_at i h q ≡ false
disabled-inactive i h q d = ground arith

pub disable_all-name :
    (i : ℕ) (ps : List ℕ) (h : ℕ → Dependency) (q : ℕ)
    → mem q ps ≡ true
    → active_at i (disable_all i ps h) q ≡ false
disable_all-name i [] h q m = cc
disable_all-name i (p ∷ ps) h q m = elim (or-cases (q == p) (mem q ps) m) [
  | inr k ↦ disable_all-name i ps (if (h p).upkg == i then set_disabled true p h else h) q k
  | inl f ↦
      let same = (==_iff q p).0 f in
      elim (Bool-cases ((h p).upkg == i)) [
        | inl e ↦
            ap (λ b. active_at i (disable_all i ps (if b then set_disabled true p h else h)) q) e
            ∙ (disabled-inactive i (disable_all i ps (set_disabled true p h)) q
                (disable_all-kept i ps (set_disabled true p h) q (rw f refl)))
        | inr e ↦
            ap (λ b. active_at i (disable_all i ps (if b then set_disabled true p h else h)) q) e
            ∙ (ap (λ u. (u == i) && not (disable_all i ps h q).disabled) (disable_all-upkg i ps h q)
                ∙ (let e' = ap (λ z. (h z).upkg == i) same ∙ e in ground arith))
      ]
]
