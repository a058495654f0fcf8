-- ===== src/Support/Settings/Hash/Fold.antt =====
-- The hash of settings is made from the hashes at the keys.
use software.Base.{
  ℕ, ◌<◌, ◌≤◌, ◌≡◌, refl, sym, ap, ◌∙◌, Bool, false, ◌==◌, ==_iff, if◌then◌else◌, Bool-cases, none,
  some, ◌⊎◌, inl, inr, arith,
}
use software.Support.Settings.{Setting, Settings, end, entry, is_ignored, find, at, unset}
use software.Support.Settings.Keys.{
  IsOrdered, IsMap, IsAbove, IsAbove-IsMap, at-entry, at-entry_other, find-IsAbove,
}
use software.Support.Settings.Hash.{hash_of, hash_settings}

-- No setting at the top is ignored.
abbrev pub NoneIsIgnored : Settings → Type 0
NoneIsIgnored end = Unit
NoneIsIgnored (entry k v m) = (is_ignored v ≡ false) × NoneIsIgnored m

at-IsAbove_below : (k b : ℕ) (m : Settings) → k ≤ b → IsAbove b m → at k m ≡ unset
unfolding at
at-IsAbove_below k b m l a = ap (λ o. elim o [ none ↦ unset | some x ↦ x ]) (find-IsAbove k b m l a)

le-cases : (i k : ℕ) → (i ≤ k) ⊎ (k < i)
le-cases i k = ground arith

lt-cases : (i k : ℕ) → (i < k) ⊎ ((i ≡ k) ⊎ (k < i))
lt-cases i k = ground arith

module _ (combine : ℕ → ℕ → ℕ) (hash_key : ℕ → ℕ) (hash_plain : (index content : ℕ) → ℕ) where
  abbrev pub hash_at : ℕ → Settings → ℕ
  hash_at k m = hash_of combine hash_key hash_plain (at k m)

  abbrev pub Agree : Settings → Settings → Type 0
  Agree m r = (k : ℕ) → hash_at k m ≡ hash_at k r

  abbrev pub folded : Settings → ℕ → ℕ
  folded = hash_settings combine hash_key hash_plain

  abbrev pub hashed : Setting → ℕ
  hashed = hash_of combine hash_key hash_plain

  folded-entry :
      (k h : ℕ) (v : Setting) (m : Settings)
      → is_ignored v ≡ false
      → folded (entry k v m) h ≡ (
          if hashed v == 0
          then folded m h
          else folded m (combine (combine h (hash_key k)) (hashed v)))
  unfolding hash_of
  folded-entry k h v m i =
      ap
        (λ b.
          if b
          then folded m h
          else if hashed v == 0
          then folded m h
          else folded m (combine (combine h (hash_key k)) (hashed v)))
        i

  folded-zero :
      (k h : ℕ) (v : Setting) (m : Settings) → hashed v ≡ 0 → folded (entry k v m) h ≡ folded m h
  unfolding hash_of
  folded-zero k h v m e =
      let taken = folded m (combine (combine h (hash_key k)) (hashed v)) in
      let choice : Bool → ℕ = λ b. if b then folded m h else taken in
      elim (Bool-cases (is_ignored v)) [
        | inl i ↦ ap (λ b. if b then folded m h else choice (hashed v == 0)) i
        | inr i ↦ folded-entry k h v m i ∙ ap choice ((==_iff (hashed v) 0).1 e)
      ]

  hash_at-below : (k b : ℕ) (m : Settings) → k ≤ b → IsAbove b m → hash_at k m ≡ 0
  unfolding hash_of
  hash_at-below k b m l a = ap hashed (at-IsAbove_below k b m l a)

  hash_at-tail :
      (i k : ℕ) (v : Setting) (m : Settings) → k < i → hash_at i (entry k v m) ≡ hash_at i m
  hash_at-tail i k v m l = ap hashed (at-entry_other i k v m (λ e. omega (arith, e, l)))

  hash_at-head : (k : ℕ) (v : Setting) (m : Settings) → hash_at k (entry k v m) ≡ hashed v
  hash_at-head k v m = ap hashed (at-entry k k v m refl)

  hash_at-before :
      (i k : ℕ) (v : Setting) (m : Settings)
      → i < k
      → IsMap (entry k v m)
      → hash_at i (entry k v m) ≡ 0
  unfolding IsOrdered
  hash_at-before i k v m l (o, a) = hash_at-below i i (entry k v m) (omega arith) (l, o, a)
      -- The rest of settings agrees with others that have nothing up to its keys.

  Agree-tail :
      (k : ℕ) (v : Setting) (m r : Settings)
      → IsAbove k m
      → ((i : ℕ) → i ≤ k → hash_at i r ≡ 0)
      → ((i : ℕ) → k < i → hash_at i (entry k v m) ≡ hash_at i r)
      → Agree m r
  Agree-tail k v m r a low high i = elim (le-cases i k) [
    | inl l ↦ hash_at-below i k m l a ∙ sym (low i l)
    | inr l ↦ sym (hash_at-tail i k v m l) ∙ high i l
  ]

  folded-nothing : (m : Settings) (h : ℕ) → IsMap m → ((k : ℕ) → hash_at k m ≡ 0) → folded m h ≡ h
  unfolding IsOrdered hash_of at find
  folded-nothing end h o z = refl
  folded-nothing (entry k v m) h (o, a) z =
      folded-zero k h v m (sym (hash_at-head k v m) ∙ z k)
      ∙ folded-nothing m h (IsAbove-IsMap k m a) (Agree-tail k v m end a (λ i l. refl) (λ i l. z i))

  abbrev pub FoldsAs : Settings → Type 0
  FoldsAs r =
      (m : Settings) (h : ℕ) → IsMap m → NoneIsIgnored m → Agree m r → folded m h ≡ folded r h

  abbrev step : Settings → (k h x : ℕ) → ℕ
  step m k h x = if x == 0 then folded m h else folded m (combine (combine h (hash_key k)) x)

  step-FoldsAs :
      (k h x : ℕ) (m r : Settings)
      → FoldsAs r
      → IsMap m
      → NoneIsIgnored m
      → Agree m r
      → step m k h x ≡ step r k h x
  step-FoldsAs k h x m r f o n g = elim (Bool-cases (x == 0)) [
    | inl e ↦
        let c : Settings → Bool → ℕ =
          λ n' b. if b then folded n' h else folded n' (combine (combine h (hash_key k)) x) in
        ap (c m) e ∙ f m h o n g ∙ sym (ap (c r) e)
    | inr e ↦
        let c : Settings → Bool → ℕ =
          λ n' b. if b then folded n' h else folded n' (combine (combine h (hash_key k)) x) in
        ap (c m) e ∙ f m (combine (combine h (hash_key k)) x) o n g ∙ sym (ap (c r) e)
  ]

  FoldsAs-entry :
      (k : ℕ) (v : Setting) (r : Settings)
      → IsMap (entry k v r)
      → is_ignored v ≡ false
      → FoldsAs r
      → FoldsAs (entry k v r)
  unfolding IsOrdered hash_of at find
  FoldsAs-entry k v r (p, a) i f end h o n g =
      sym (folded-nothing (entry k v r) h (p, a) (λ j. sym (g j) ∙ at_end j))
    where
      at_end : (j : ℕ) → hash_at j end ≡ 0
      at_end j = refl
  FoldsAs-entry k v r (p, a) i f (entry j w m) h (q, b) (iw, n) g = elim (lt-cases j k) [
    | inl l ↦
        let none_here : hashed w ≡ 0 =
          sym (hash_at-head j w m) ∙ g j ∙ hash_at-before j k v r l (p, a) in
        let rest : Agree m (entry k v r) =
          Agree-tail j w m (entry k v r) b
            (λ x y. hash_at-before x k v r (omega (arith, y, l)) (p, a)) (λ x y. g x) in
        folded-zero j h w m none_here
        ∙ FoldsAs-entry k v r (p, a) i f m h (IsAbove-IsMap j m b) n rest
    | inr (inl e) ↦
        let same : hashed w ≡ hashed v =
          sym (hash_at-head j w m)
          ∙ g j
          ∙ ap (λ x. hash_at x (entry k v r)) e
          ∙ hash_at-head k v r in
        let rest : Agree m r =
          Agree-tail j w m r b (λ x y. hash_at-below x k r (omega (arith, y, e)) a)
            (λ x y. g x ∙ hash_at-tail x k v r (omega (arith, y, e))) in
        folded-entry j h w m iw
        ∙ step-FoldsAs j h (hashed w) m r f (IsAbove-IsMap j m b) n rest
        ∙ ap (step r j h) same
        ∙ ap (λ x. step r x h (hashed v)) e
        ∙ sym (folded-entry k h v r i)
    | inr (inr l) ↦
        let none_there : hashed v ≡ 0 =
          sym (hash_at-head k v r) ∙ sym (g k) ∙ hash_at-before k j w m l (q, b) in
        let rest : Agree (entry j w m) r = λ x. elim (le-cases x k) [
          | inl y ↦
              hash_at-before x j w m (omega (arith, y, l)) (q, b) ∙ sym (hash_at-below x k r y a)
          | inr y ↦ g x ∙ hash_at-tail x k v r y
        ] in
        f (entry j w m) h (q, b) (iw, n) rest ∙ sym (folded-zero k h v r none_there)
  ]

  -- Settings with the same hashes at all keys have one hash.
  pub folded-Agree : (r : Settings) → IsMap r → NoneIsIgnored r → FoldsAs r
  unfolding IsOrdered hash_of at find
  folded-Agree end o n m h om nm g = folded-nothing m h om (λ k. g k)
  folded-Agree (entry k v r) o n m h om nm g =
      FoldsAs-entry k v r o n.0 (folded-Agree r (IsAbove-IsMap k r o.1) n.1) m h om nm g
