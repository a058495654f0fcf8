-- ===== src/Builder/Exec/Safe.antt =====
-- What holds of every state that ExecutionPlan::execute reaches.
use software.Base.{
  ℕ, suc, ◌≡◌, ◌<◌, refl, ap, Bool, true, false, List, [], ◌∷◌, if◌then◌else◌, length, count_if,
  mem, distinct, arith,
}
use software.Builder.Exec.{Status, waiting, Phase, starting, Config, Exec, is_nil}
use software.Builder.Exec.Inv.{Inv, is_waiting, is_ahead}

-- Commands without dependencies stand before the others.
abbrev pub RootsFirst : Config → List ℕ → Type 0
RootsFirst cfg [] = Unit
RootsFirst cfg (c ∷ cs) =
    (is_nil (cfg.dependencies c) ≡ false
      → (d : ℕ) → mem d cs ≡ true
      → is_nil (cfg.dependencies d) ≡ false)
    × RootsFirst cfg cs

-- What holds of the commands that the first loop has still to look at.
pub record Ahead (cfg : Config) (status : ℕ → Status) (cs : List ℕ) : Type 0 where
  pub distinct_ahead : distinct cs ≡ true
  pub among : (c : ℕ) → mem c cs ≡ true → mem c cfg.commands ≡ true
  pub idle :
      (c : ℕ) → mem c cs ≡ true → is_nil (cfg.dependencies c) ≡ true → is_waiting (status c) ≡ true
  pub roots_first : RootsFirst cfg cs

abbrev pub AheadIn : Config → (ℕ → Status) → Phase → Type 0
AheadIn cfg status (starting cs) = Ahead cfg status cs
AheadIn cfg status _ = Unit

pub record IsSafe (cfg : Config) (s : Exec) : Type 0 where
  pub inv : Inv cfg s.status s.dependencies_left s.all (is_ahead cfg s.phase)
  pub before : AheadIn cfg s.status s.phase

pub mem-is_nil : (x : ℕ) (xs : List ℕ) → mem x xs ≡ true → is_nil xs ≡ false
mem-is_nil x [] h = cc
mem-is_nil x (y ∷ ys) h = refl

pub count_if-is_nil : (f : ℕ → Bool) (xs : List ℕ) → is_nil xs ≡ true → count_if f xs ≡ 0
count_if-is_nil f [] h = refl
count_if-is_nil f (x ∷ xs) h = absurd (cc)

pub count_if-all : (xs : List ℕ) → count_if (λ x. true) xs ≡ length xs
count_if-all [] = refl
count_if-all (x ∷ xs) = ap suc (count_if-all xs)

pub length-pos : (xs : List ℕ) → is_nil xs ≡ false → 0 < length xs
length-pos [] h = absurd (cc)
length-pos (x ∷ xs) h = omega arith

pub status_of-waiting : (x : Status) → is_waiting x ≡ true → x ≡ waiting
status_of-waiting waiting h = refl
status_of-waiting _ h = absurd (cc)

module _ (cfg : Config) where
  pub AheadIn-of_if :
      (status : ℕ → Status) (b : Bool) (p q : Phase)
      → AheadIn cfg status p
      → AheadIn cfg status q
      → AheadIn cfg status (if b then p else q)
  AheadIn-of_if status true p q h k = h
  AheadIn-of_if status false p q h k = k

  -- A step of a job leaves the commands without dependencies alone.
  pub AheadIn-mono :
      (status status' : ℕ → Status) (p : Phase)
      → ((c : ℕ)
          → is_nil (cfg.dependencies c) ≡ true
          → is_waiting (status c) ≡ true
          → is_waiting (status' c) ≡ true)
      → AheadIn cfg status p
      → AheadIn cfg status' p
  AheadIn-mono status status' (starting cs) f a = record {
    distinct_ahead = a.distinct_ahead;
    among = a.among;
    idle = λ c m r. f c r (a.idle c m r);
    roots_first = a.roots_first;
  }
  AheadIn-mono status status' _ f a = tt
