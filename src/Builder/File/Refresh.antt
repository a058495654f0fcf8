-- ===== src/Builder/File/Refresh.antt =====
-- FileData::refresh by any number of threads: the file is looked at once, by one of them.
use software.Base.{
  ℕ, ◌≡◌, refl, sym, ap, subst, ◌∙◌, Bool, true, false, ◌==◌, ==_iff, if◌then◌else◌, arith, Option,
  Bool-cases, inl, inr,
}
use software.Builder.File.{
  RefreshType, unrefreshed, in_process, not_changed, changed, Progress, outside, claimed, looked,
  FileData, claim, claim_from, look, observe, publish, claims, observes, publishes, Reach, here,
  next, fresh,
}

abbrev pub is_inside : Progress → Bool
is_inside outside = false
is_inside _ = true

-- What the data say at each stage, `old` being the time before.
data Stage (old : ℕ) (d : FileData) : Type 0 where
  before :
      d.refreshed ≡ unrefreshed
      → d.last_write_time ≡ old
      → ((t : ℕ) → d.progress t ≡ outside)
      → Stage old d
  claiming :
      (t : ℕ)
      → d.refreshed ≡ in_process
      → d.last_write_time ≡ old
      → d.progress t ≡ claimed
      → ((u : ℕ) → (u == t) ≡ false → d.progress u ≡ outside)
      → Stage old d
  looking :
      (t : ℕ) (file : Option ℕ)
      → d.refreshed ≡ in_process
      → d.last_write_time ≡ (look file old).0
      → d.progress t ≡ looked (look file old).1
      → ((u : ℕ) → (u == t) ≡ false → d.progress u ≡ outside)
      → Stage old d
  after :
      (file : Option ℕ)
      → d.refreshed ≡ (if (look file old).1 then changed else not_changed)
      → d.last_write_time ≡ (look file old).0
      → ((t : ℕ) → d.progress t ≡ outside)
      → Stage old d

only_inside :
    (d : FileData) (t u : ℕ)
    → ((x : ℕ) → (x == t) ≡ false → d.progress x ≡ outside)
    → is_inside (d.progress u) ≡ true
    → u ≡ t
only_inside d t u others h = elim (Bool-cases (u == t)) [
  | inl e ↦ (==_iff u t).0 e
  | inr e ↦ absurd (cc (rw (others u e) at h))
]

module _ (old : ℕ) (d : FileData) where
  -- The exchange does what the value of the flag says.
  claim_at :
      (t : ℕ) (r : RefreshType)
      → d.refreshed ≡ r
      → Stage old (claim_from r t d)
      → Stage old (claim t d)
  unfolding claim
  claim_at t r e s = subst (λ q. Stage old (claim_from q t d)) (sym e) s

  claim-Stage : (t : ℕ) → Stage old d → Stage old (claim t d)
  unfolding claim_from
  claim-Stage t (before r l p) =
      claim_at t unrefreshed r (claiming t refl l (ground arith) (λ u n. rw n (p u)))
  claim-Stage t (claiming u r l p o) = claim_at t in_process r (claiming u r l p o)
  claim-Stage t (looking u file r l p o) = claim_at t in_process r (looking u file r l p o)
  claim-Stage t (after file r l p) = elim (Bool-cases (look file old).1) [
    | inl e ↦ claim_at t changed (rw e at r) (after file r l p)
    | inr e ↦ claim_at t not_changed (rw e at r) (after file r l p)
  ]

  observe-Stage :
      (t : ℕ) (file : Option ℕ)
      → d.progress t ≡ claimed
      → Stage old d
      → Stage old (observe file t d)
  unfolding observe
  observe-Stage t file at (before r l p) = absurd (cc (sym at ∙ p t))
  observe-Stage t file at (claiming u r l p o) =
      let same = only_inside d u t o (rw at refl) in
      looking t file r (rw l refl) (rw l (ground arith)) (λ x n. rw n (o x (rw (sym same) n)))
  observe-Stage t file at (looking u g r l p o) =
      absurd (cc (sym at ∙ ap d.progress (only_inside d u t o (rw at refl)) ∙ p))
  observe-Stage t file at (after g r l p) = absurd (cc (sym at ∙ p t))

  looked-eq : (a b : Bool) → looked a ≡ looked b → a ≡ b
  looked-eq a b h = cc

  publish-Stage :
      (t : ℕ) (b : Bool) → d.progress t ≡ looked b → Stage old d → Stage old (publish b t d)
  unfolding publish
  publish-Stage t b at (before r l p) = absurd (cc (sym at ∙ p t))
  publish-Stage t b at (claiming u r l p o) =
      absurd (cc (sym at ∙ ap d.progress (only_inside d u t o (rw at refl)) ∙ p))
  publish-Stage t b at (looking u g r l p o) =
      let same = only_inside d u t o (rw at refl) in
      let flag = looked-eq b _ (sym at ∙ ap d.progress same ∙ p) in
      after g (rw flag refl) l (λ x. elim (Bool-cases (x == t)) [
        | inl e ↦ rw e refl
        | inr e ↦ rw e (o x (rw (sym same) e))
      ])
  publish-Stage t b at (after g r l p) = absurd (cc (sym at ∙ p t))

Reach-Stage : (old : ℕ) {d : FileData} → Reach (fresh old) d → Stage old d
Reach-Stage old here = before refl refl (λ t. refl)
Reach-Stage old (next {e = e} r (claims t at)) = claim-Stage old e t (Reach-Stage old r)
Reach-Stage old (next {e = e} r (observes t file at)) =
    observe-Stage old e t file at (Reach-Stage old r)
Reach-Stage old (next {e = e} r (publishes t b at)) = publish-Stage old e t b at (Reach-Stage old r)

-- Whether the data were published.
abbrev pub is_refreshed : RefreshType → Bool
is_refreshed unrefreshed = false
is_refreshed in_process = false
is_refreshed _ = true

-- Whatever threads call `refresh`: no two are inside at once, and published data are those of one look
-- at the file, compared with the time from before.
pub refresh_once :
    (old : ℕ) (d : FileData)
    → Reach (fresh old) d
    → ((t u : ℕ) → is_inside (d.progress t) ≡ true → is_inside (d.progress u) ≡ true → t ≡ u)
      × (is_refreshed d.refreshed ≡ true
          → (file : Option ℕ) × (d.last_write_time ≡ (look file old).0)
            × (d.refreshed ≡ (if (look file old).1 then changed else not_changed)))
refresh_once old d r = elim (Reach-Stage old r) [
  | before s l p ↦ ((λ t u h k. absurd (cc (rw (p t) at h))), λ h. absurd (cc (rw s at h)))
  | claiming x s l p o ↦ (
    (λ t u h k. only_inside d x t o h ∙ sym (only_inside d x u o k)),
    λ h. absurd (cc (rw s at h)),
  )
  | looking x file s l p o ↦ (
    (λ t u h k. only_inside d x t o h ∙ sym (only_inside d x u o k)),
    λ h. absurd (cc (rw s at h)),
  )
  | after file s l p ↦ ((λ t u h k. absurd (cc (rw (p t) at h))), λ h. (file, l, s))
]
