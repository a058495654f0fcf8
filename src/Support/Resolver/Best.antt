-- ===== src/Support/Resolver/Best.antt =====
-- ResolveRequestResult::setPackage keeps the best of the packages that it was offered.
use software.Base.{
  ℕ, ◌≡◌, refl, Bool, true, false, ◌&&◌, ◌||◌, ◌==◌, ltb, if◌then◌else◌, arith, List, [], ◌∷◌, All,
  Option, none, some, Bool-cases, inl, inr, ◌⊎◌,
}
use software.Support.Version.{
  VersionLib, PackageVersion, version, branch, is_release, is_pre_release, less,
}
use software.Support.Path.Order.{IsWeakOrder}
use software.Support.Version.Order.{IsOrderedLib, less_string_nil}
use software.Support.Resolver.{Package, is_branch, set_result}

module _ {V R : Type 0} (lib : VersionLib V R) where
  -- Releases are better than other versions, and these are better than branches.
  abbrev pub class : PackageVersion V → ℕ
  class (branch b) = 0
  class (version v) = if lib.is_release_version v then 2 else 1

  -- Which of two packages is preferred: by class, and versions of the same class by number.
  abbrev pub beats : PackageVersion V → PackageVersion V → Bool
  beats (version v) (version w) =
      ltb (class (version w)) (class (version v))
      || (class (version v) == class (version w) && lib.less_version w v)
  beats (version v) (branch b) = true
  beats (branch a) w = false

  choice :
      {A : Type 0} (o n : PackageVersion V) (x y : A)
      → (if is_branch n
          then x
          else if is_pre_release lib o && is_release lib n
          then y
          else if is_release lib o && is_pre_release lib n
          then x
          else if less lib o n
          then y
          else x)
        ≡ (if beats n o then y else x)
  unfolding is_release is_pre_release less
  choice o (branch b) x y = refl
  choice (branch b) (version v) x y = ground (arith, less_string_nil b)
  choice (version w) (version v) x y = ground arith

  pub set_result-beats :
      (old new : Package V)
      → set_result lib (some old) new ≡ (
          if beats new.package_version old.package_version
          then (some new, true)
          else (some old, false))
  unfolding set_result
  set_result-beats old new = choice old.package_version new.package_version _ _

  -- A sequence of calls of setPackage.
  abbrev pub offer_all : Option (Package V) → List (Package V) → Option (Package V)
  offer_all r [] = r
  offer_all r (p ∷ ps) = offer_all (set_result lib r p).0 ps

  abbrev pub Among : Package V → List (Package V) → Type 0
  Among b [] = ⊥
  Among b (p ∷ ps) = (p ≡ b) ⊎ Among b ps

  abbrev pub NotBetter : Package V → Package V → Type 0
  NotBetter b p = beats p.package_version b.package_version ≡ false

  module _ (laws : IsOrderedLib lib) where
    beats_asym : (x y : PackageVersion V) → beats x y ≡ true → beats y x ≡ false
    beats_asym (version v) (version w) h = ground (arith, laws.weak.asym v w, laws.weak.asym w v)
    beats_asym (version v) (branch b) h = refl
    beats_asym (branch a) w h = absurd (cc)

    beats_cotrans : (x y z : PackageVersion V) → beats x z ≡ true → (beats x y || beats y z) ≡ true
    beats_cotrans (version v) (version w) (version x) h = ground (arith, laws.weak.cotrans x w v)
    beats_cotrans (version v) (branch b) z h = refl
    beats_cotrans (version v) (version w) (branch b) h = ground arith
    beats_cotrans (branch a) w z h = absurd (cc)

    beats-IsWeakOrder : IsWeakOrder beats
    beats-IsWeakOrder = record { asym = beats_asym; cotrans = beats_cotrans }

    offer_all-kept :
        (old : Package V) (ps : List (Package V))
        → (b : Package V) × (offer_all (some old) ps ≡ some b)
          × ((old ≡ b) ⊎ Among b ps)
          × NotBetter b old
          × All (NotBetter b) ps
    offer_all-kept old [] = (
      old,
      refl,
      inl refl,
      ground (arith, beats-IsWeakOrder.asym old.package_version old.package_version),
      tt,
    )
    offer_all-kept old (p ∷ ps) =
        let w = beats-IsWeakOrder in
        elim (Bool-cases (beats p.package_version old.package_version)) [
          | inl e ↦
              let (b, found, from, top, rest) = offer_all-kept p ps in
              (
                b,
                rw (set_result-beats old p, e) found,
                inr from,
                ground (
                  arith,
                  w.cotrans p.package_version b.package_version old.package_version e,
                  w.asym b.package_version old.package_version,
                ),
                (top, rest),
              )
          | inr e ↦
              let (b, found, from, top, rest) = offer_all-kept old ps in
              (
                b,
                rw (set_result-beats old p, e) found,
                elim from [ inl q ↦ inl q | inr q ↦ inr (inr q) ],
                top,
                (
                  ground (arith, w.cotrans p.package_version old.package_version b.package_version),
                  rest,
                ),
              )
        ]

    -- After any offers to an empty request, the package that it holds is one of them, and none of
    -- them beats it: a release is preferred to another version, this to a branch, and versions go by
    -- number. The library's comparisons of versions agree and make a strict weak order.
    pub offer_all-best :
        (p : Package V) (ps : List (Package V))
        → (b : Package V) × (offer_all none (p ∷ ps) ≡ some b)
          × Among b (p ∷ ps)
          × All (NotBetter b) (p ∷ ps)
    unfolding set_result
    offer_all-best p ps =
        let (b, found, from, top, rest) = offer_all-kept p ps in (b, found, from, (top, rest))
