-- ===== src/Core/Targets/Found.antt =====
-- What the finds of TargetMap return.
use software.Base.{
  ℕ, ◌≡◌, refl, sym, ap, ◌∙◌, Bool, true, false, ◌||◌, ◌==◌, ==_iff, ltb, if◌then◌else◌, Bool-cases,
  or-cases, List, [], ◌∷◌, mem, Option, none, some, some-eq, Result, ok, err, inl, inr, arith,
  subst,
}
use software.Support.Settings.{Settings, is_subset_of}
use software.Core.Targets.Latest.{
  or-true, true-false, AreAscending, IsGreatest, Greatest, get_max-Greatest,
}
use software.Core.Targets.{
  TargetContainer, TargetMap, VersionMap, Error, insert_target, push_back, find_if, find_key,
  versions_of, empty_container, get_max_satisfying_version, find_suitable, suitable_in, find_id,
  find_request, at_version, register_target,
}

find_if-mem :
    (p : ℕ → Bool) (ts : List ℕ) (t : ℕ) → find_if p ts ≡ some t → (mem t ts ≡ true) × (p t ≡ true)
unfolding find_if
find_if-mem p [] t h = cc
find_if-mem p (u ∷ ts) t h =
    let step : (b : Bool) → p u ≡ b → (if b then some u else find_if p ts) ≡ some t =
      λ b e. ap (λ x. if x then some u else find_if p ts) (sym e) ∙ h in
    elim (Bool-cases (p u)) [
      | inl e ↦
          let first : mem u (u ∷ ts) ≡ true = ground arith in
          subst (λ x. (mem x (u ∷ ts) ≡ true) × (p x ≡ true)) (some-eq (step true e)) (first, e)
      | inr e ↦
          let (m, q) = find_if-mem p ts t (step false e) in
          (ap (λ b. t == u || b) m ∙ or-true (t == u), q)
    ]

mem-find_if :
    (p : ℕ → Bool) (ts : List ℕ) (t : ℕ)
    → mem t ts ≡ true
    → p t ≡ true
    → (u : ℕ) × (find_if p ts ≡ some u)
unfolding find_if
mem-find_if p [] t h e = cc
mem-find_if p (u ∷ ts) t h e =
    let chosen : (b : Bool) → p u ≡ b → find_if p (u ∷ ts) ≡ (if b then some u else find_if p ts) =
      λ b q. ap (λ x. if x then some u else find_if p ts) q in
    elim (Bool-cases (p u)) [
      | inl q ↦ (u, chosen true q)
      | inr q ↦ elim (or-cases (t == u) (mem t ts) h) [
        | inl m ↦ elim (true-false (sym e ∙ ap p ((==_iff t u).0 m) ∙ q)) [ ]
        | inr m ↦ let (v, r) = mem-find_if p ts t m e in (v, chosen false q ∙ r)
      ]
    ]

mem-insert_target : (t : ℕ) (ts : List ℕ) → mem t (insert_target t ts) ≡ true
unfolding insert_target
mem-insert_target t [] = ground arith
mem-insert_target t (u ∷ ts) = ground (arith, mem-insert_target t ts)

find_key-at_version :
    (f : TargetContainer → TargetContainer) (v : ℕ) (m : VersionMap)
    → (c : TargetContainer) × (find_key v (at_version f v m) ≡ some (f c))
unfolding find_key at_version
find_key-at_version f v [] = (empty_container, ground arith)
find_key-at_version f v ((w, c) ∷ m) =
    let (d, e) = find_key-at_version f v m in
    elim (Bool-cases (v == w)) [
      | inl q ↦ (c, ground arith)
      | inr q ↦ elim (Bool-cases (ltb v w)) [
        | inl l ↦ (empty_container, ground arith)
        | inr l ↦ (d, ground (arith, e))
      ]
    ]

find_key-register_target :
    (p v t : ℕ) (m : TargetMap)
    → (vs : VersionMap) × (find_key p (register_target p v t m)
        ≡ some (at_version (push_back t) v vs))
unfolding find_key register_target
find_key-register_target p v t [] = ([], ground arith)
find_key-register_target p v t ((q, vs) ∷ m) =
    let (ws, e) = find_key-register_target p v t m in
    elim (Bool-cases (p == q)) [ inl b ↦ (vs, ground arith) | inr b ↦ (ws, ground (arith, e)) ]

ok-eq : {a b : Option ℕ} → (let x : Result Error (Option ℕ) = ok a in x) ≡ ok b → a ≡ b
ok-eq h = cc

module _ (settings_of : ℕ → Settings) where
  -- A target that was registered under a name is found there for settings that its settings are a part of, or
  -- another target of which the same holds.
  pub find_id-register_target :
      (path version t : ℕ) (s : Settings) (m : TargetMap)
      → is_subset_of (settings_of t) s ≡ true
      → (u : ℕ) × (find_id settings_of path version s (register_target path version t m) ≡ some u)
        × (is_subset_of (settings_of u) s ≡ true)
  unfolding find_id find_suitable push_back
  find_id-register_target path version t s m h =
      let suits : ℕ → Bool = λ u. is_subset_of (settings_of u) s in
      let (vs, e) = find_key-register_target path version t m in
      let (c, e') = find_key-at_version (push_back t) version vs in
      let (u, f) =
        mem-find_if suits (insert_target t c.targets) t (mem-insert_target t c.targets) h in
      let found : find_id settings_of path version s (register_target path version t m) ≡ some u =
        ap
          (λ o. elim o [
            | none ↦ none
            | some versions ↦ suitable_in settings_of s (find_key version versions)
          ])
          e
        ∙ ap (suitable_in settings_of s) e'
        ∙ f in
      (u, found, (find_if-mem suits (insert_target t c.targets) u f).1)

  abbrev picked : Settings → VersionMap → Result Error ℕ → Result Error (Option ℕ)
  picked s versions g = elim g [
    | err e ↦ err e
    | ok v ↦ ok (suitable_in settings_of s (find_key v versions))
  ]

  suitable_in-mem :
      (s : Settings) (t : ℕ) (o : Option TargetContainer)
      → suitable_in settings_of s o ≡ some t
      → (c : TargetContainer) × (o ≡ some c)
        × (mem t c.targets ≡ true)
        × (is_subset_of (settings_of t) s ≡ true)
  unfolding find_suitable
  suitable_in-mem s t none h = cc
  suitable_in-mem s t (some c) h =
      let (m, q) = find_if-mem (λ u. is_subset_of (settings_of u) s) c.targets t h in
      (c, refl, m, q)

  picked-IsGreatest :
      (r c : ℕ → Bool) (t : ℕ) (s : Settings) (versions : VersionMap) (g : Result Error ℕ)
      → Greatest r c (versions_of versions) g
      → picked s versions g ≡ ok (some t)
      → (v : ℕ) × IsGreatest r c (versions_of versions) v
        × ((k : TargetContainer) × (find_key v versions ≡ some k)
            × (mem t k.targets ≡ true)
            × (is_subset_of (settings_of t) s ≡ true))
  unfolding Greatest
  picked-IsGreatest r c t s versions (err e) g h = cc
  picked-IsGreatest r c t s versions (ok v) g h =
      (v, g, suitable_in-mem s t (find_key v versions) (ok-eq h))

  -- What find gives for a request: a target of the greatest release in the range that the path has, with settings
  -- that are a part of those of the request. The versions of the path are in order.
  pub find_request-IsGreatest :
      (is_release contains : ℕ → Bool) (path t : ℕ) (s : Settings) (m : TargetMap)
      (versions : VersionMap)
      → find_key path m ≡ some versions
      → AreAscending (versions_of versions)
      → find_request settings_of is_release contains path s m ≡ ok (some t)
      → (v : ℕ) × IsGreatest is_release contains (versions_of versions) v
        × ((c : TargetContainer) × (find_key v versions ≡ some c)
            × (mem t c.targets ≡ true)
            × (is_subset_of (settings_of t) s ≡ true))
  unfolding find_request find_suitable
  find_request-IsGreatest is_release contains path t s m versions k a h =
      picked-IsGreatest is_release contains t s versions
        (get_max_satisfying_version is_release contains (versions_of versions))
        (get_max-Greatest is_release contains (versions_of versions) a)
        (sym (
            ap
              (λ o. elim o [
                | none ↦ ok none
                | some vs ↦
                    picked s vs (get_max_satisfying_version is_release contains (versions_of vs))
              ])
              k)
          ∙ h)
