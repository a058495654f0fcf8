-- ===== src/Tests/Resolving.antt =====
-- Versions as numbers (those up to 5 are releases) and ranges as intervals, in place of the library.
use software.Base.{
  ℕ, ◌≡◌, refl, true, ◌&&◌, ◌==◌, ltb, leb, arith, List, [], ◌∷◌, All, none, some, ok,
}
use software.Support.Version.{
  VersionLib, PackageVersion, version, branch, version_range, is_release, is_pre_release, less,
  contains,
}
use software.Support.Version.Order.{IsOrderedLib, comparisons-IsConsistent, IsConsistent}
use software.Support.Resolver.{
  Package, ResolveRequest, Storage, set_result, set_package, get_package, is_resolved, ask, resolve,
}
use software.Support.Resolver.Best.{offer_all, offer_all-best, Among, NotBetter}
use software.Support.Resolver.Request.{resolve-IsInRange, IsInRange}

abbrev pub numbers : VersionLib ℕ (ℕ × ℕ)
numbers = record {
  parse_version = λ s. elim s [ [] ↦ none | c ∷ t ↦ some c ];
  less_version = ltb;
  le_version = leb;
  gt_version = λ a b. ltb b a;
  ge_version = λ a b. leb b a;
  same_version = λ a b. a == b;
  is_release_version = λ v. leb v 5;
  version_text = λ v. v ∷ [];
  parse_range = λ s. none;
  exact_range = λ v. (v, v);
  contains_version = λ r v. leb r.0 v && leb v r.1;
  contains_range = λ r q. leb r.0 q.0 && leb q.1 r.1;
  unite = λ r q. r;
  intersect = λ r q. q;
}

pub numbers-IsOrderedLib : IsOrderedLib numbers
numbers-IsOrderedLib = record {
  weak = record { asym = λ x y h. ground arith; cotrans = λ x y z h. ground arith };
  gt_lem = λ v w. refl;
  le_lem = λ v w. ground arith;
  ge_lem = λ v w. ground arith;
}

abbrev numbered : ℕ → PackageVersion ℕ → Package ℕ
numbered id v = record { id = id; package_version = v }

abbrev master : PackageVersion ℕ
master = branch (109 ∷ [])

comparisons-IsConsistent_example : IsConsistent numbers numbers-IsOrderedLib master (version 3)
unfolding less
comparisons-IsConsistent_example =
    comparisons-IsConsistent numbers numbers-IsOrderedLib master (version 3) refl tt

-- A branch, a version that is no release, and two releases.
abbrev offers : List (Package ℕ)
offers = numbered 2 (version 9) ∷ numbered 3 (version 4) ∷ numbered 4 (version 2) ∷ []

offer_all-best_example :
    (b : Package ℕ) × (offer_all numbers none (numbered 1 master ∷ offers) ≡ some b)
    × Among numbers b (numbered 1 master ∷ offers)
    × All (NotBetter numbers b) (numbered 1 master ∷ offers)
offer_all-best_example = offer_all-best numbers numbers-IsOrderedLib (numbered 1 master) offers

resolving : Unit {0}
unfolding set_result set_package get_package is_resolved ask resolve is_release is_pre_release less
    contains
resolving = tt

abbrev request : ResolveRequest ℕ (ℕ × ℕ)
request = record { r = none; range = version_range (1, 3) }

abbrev one_package : Storage ℕ (ℕ × ℕ)
one_package rr = set_package numbers (numbered 5 (version 2)) rr

abbrev answered : ResolveRequest ℕ (ℕ × ℕ)
answered = record { r = some (numbered 5 (version 2)); range = version_range (1, 3) }

resolve-request : resolve numbers (one_package ∷ []) request ≡ ok (true, answered)
unfolding resolving
resolve-request = refl

resolve-IsInRange_example :
    (true ≡ is_resolved numbers answered) × IsInRange numbers request answered
resolve-IsInRange_example =
    resolve-IsInRange numbers (one_package ∷ []) request answered true
      ((λ rr. (numbered 5 (version 2) ∷ [], refl)), tt) refl resolve-request
