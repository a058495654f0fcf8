-- ===== src/Support/Resolver/Request.antt =====
-- Resolver::resolve over storages that change a request by setPackage only.
use software.Base.{
  ◌≡◌, refl, sym, ap, subst, ◌∙◌, Bool, true, if◌then◌else◌, List, [], ◌∷◌, All, Option, none, some,
  some-eq, ◌⊎◌, Bool-cases, inl, inr, ok, block-ok,
}
use software.Support.Version.{VersionLib, contains}
use software.Support.Resolver.Best.{beats, set_result-beats}
use software.Support.Resolver.{
  Package, ResolveRequest, Storage, is_branch, set_result, set_package, is_resolved, get_package,
  ask, resolve,
}

module _ {V R : Type 0} (lib : VersionLib V R) where
  abbrev set_packages : List (Package V) → ResolveRequest V R → ResolveRequest V R
  set_packages [] rr = rr
  set_packages (p ∷ ps) rr = set_packages ps (set_package lib p rr).1

  -- Whatever the request is, the storage leaves it as after some calls of setPackage.
  abbrev pub OnlyOffers : Storage V R → Type 0
  OnlyOffers s =
      (rr : ResolveRequest V R) → (ps : List (Package V)) × ((s rr).1 ≡ set_packages ps rr)

  -- From `old` on, the range is the same and the package is in it.
  pub record IsInRange (old rr : ResolveRequest V R) : Type 0 where
    pub same_range : rr.range ≡ old.range
    pub in_range : (p : Package V) → rr.r ≡ some p → contains lib old.range p.package_version ≡ true

  set_result-cases :
      (r : Option (Package V)) (new p : Package V)
      → (set_result lib r new).0 ≡ some p
      → (new ≡ p) ⊎ (r ≡ some p)
  unfolding set_result
  set_result-cases none new p h = inl (some-eq h)
  set_result-cases (some old) new p h =
      elim (Bool-cases (beats lib new.package_version old.package_version)) [
        | inl b ↦ inl (some-eq (rw (set_result-beats lib old new, b) at h))
        | inr b ↦ inr (rw (set_result-beats lib old new, b) at h)
      ]

  set_package-IsInRange :
      (old rr : ResolveRequest V R) (new : Package V)
      → IsInRange old rr
      → IsInRange old (set_package lib new rr).1
  unfolding set_package
  set_package-IsInRange old rr new v =
      elim (Bool-cases (contains lib rr.range new.package_version)) [
        | inl e ↦ rw e (record {
          same_range = v.same_range;
          in_range = λ p h. elim (set_result-cases rr.r new p h) [
            | inl q ↦
                subst (λ z. contains lib old.range z.package_version ≡ true) q
                  (rw (sym v.same_range) e)
            | inr q ↦ v.in_range p q
          ];
        })
        | inr e ↦ rw e v
      ]

  set_packages-IsInRange :
      (old rr : ResolveRequest V R) (ps : List (Package V))
      → IsInRange old rr
      → IsInRange old (set_packages ps rr)
  set_packages-IsInRange old rr [] v = v
  set_packages-IsInRange old rr (p ∷ ps) v =
      set_packages-IsInRange old (set_package lib p rr).1 ps (set_package-IsInRange old rr p v)

  ask-IsInRange :
      (storages : List (Storage V R)) (old rr rr' : ResolveRequest V R)
      → All OnlyOffers storages
      → IsInRange old rr
      → ask lib storages rr ≡ ok rr'
      → IsInRange old rr'
  unfolding ask
  ask-IsInRange [] old rr rr' o v e = let same : rr ≡ rr' = cc in subst (IsInRange old) same v
  ask-IsInRange (s ∷ ss) old rr rr' o v e =
      let (ps, made) = o.0 rr in
      let after : IsInRange old (s rr).1 =
        subst (IsInRange old) (sym made) (set_packages-IsInRange old rr ps v) in
      elim (Bool-cases (s rr).0) [
        | inr n ↦ ask-IsInRange ss old (s rr).1 rr' o.1 after (rw n at e)
        | inl n ↦
            let (p, found, rest) =
              block-ok (get_package lib (s rr).1)
                (λ p. if is_branch p.package_version then ok (s rr).1 else ask lib ss (s rr).1)
                (rw n at e) in
            elim (Bool-cases (is_branch p.package_version)) [
              | inl b ↦
                  let same : (s rr).1 ≡ rr' = cc (rw b at rest) in subst (IsInRange old) same after
              | inr b ↦ ask-IsInRange ss old (s rr).1 rr' o.1 after (rw b at rest)
            ]
      ]

  -- When `resolve` returns, it says whether there is a package, the range of the request is the same,
  -- and the package is in it, if the request had no package and storages only call setPackage.
  pub resolve-IsInRange :
      (storages : List (Storage V R)) (rr rr' : ResolveRequest V R) (found : Bool)
      → All OnlyOffers storages
      → rr.r ≡ none
      → resolve lib storages rr ≡ ok (found, rr')
      → (found ≡ is_resolved lib rr') × IsInRange rr rr'
  unfolding resolve
  resolve-IsInRange storages rr rr' found o n e =
      let (t, asked, returned) = block-ok (ask lib storages rr) _ e in
      let start : IsInRange rr rr = record {
        same_range = refl;
        in_range = λ p h. absurd (cc (sym n ∙ h));
      } in
      let same_found : is_resolved lib t ≡ found = cc in
      let same_request : t ≡ rr' = cc in
      (
        sym same_found ∙ ap (is_resolved lib) same_request,
        subst (IsInRange rr) same_request (ask-IsInRange storages rr rr t o start asked),
      )
