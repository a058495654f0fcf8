-- ===== src/Builder/Files/Wait.antt =====
-- The loop of File::isChanged, and FileData::refresh is what the steps of one thread do.
use software.Base.{
  ℕ, zero, suc, ◌+◌, ◌-◌, ◌<◌, ◌≡◌, refl, subst, Bool, true, false, if◌then◌else◌, Bool-cases,
  Option, some, inl, inr, arith,
}
use software.Builder.File.{
  RefreshType, unrefreshed, in_process, not_changed, changed, FileData, claim, claim_from, look,
  observe, publish, Reach, here, next, claims, observes, publishes, fresh,
}
use software.Builder.File.Refresh.{is_refreshed}
use software.Builder.Files.{Entry, refresh, wait}

abbrev pub entry : ℕ → RefreshType → Entry
entry time r = record { last_write_time = time; refreshed = r }

flag-is_refreshed : (b : Bool) → is_refreshed (if b then changed else not_changed) ≡ true
flag-is_refreshed true = refl
flag-is_refreshed false = refl

-- A thread that finds the entry without a refresh leaves it refreshed.
refresh-unrefreshed :
    (file : Option ℕ) (time : ℕ)
    → is_refreshed (refresh file (entry time unrefreshed)).refreshed ≡ true
unfolding refresh look
refresh-unrefreshed file time = flag-is_refreshed (look file time).1

refresh-idle :
    (file : Option ℕ) (time : ℕ) (r : RefreshType)
    → (r ≡ in_process → ⊥)
    → is_refreshed (refresh file (entry time r)).refreshed ≡ true
unfolding refresh
refresh-idle file time unrefreshed h = refresh-unrefreshed file time
refresh-idle file time in_process h = elim (h refl) [ ]
refresh-idle file time not_changed h = refl
refresh-idle file time changed h = refl

abbrev above : (d n : ℕ) → ℕ
above zero n = n
above (suc d) n = suc (above d n)

above_lem : (d n : ℕ) → above d n ≡ d + n
above_lem zero n = omega arith
above_lem (suc d) n = omega (arith, above_lem d n)

module _ (others : ℕ → Entry → Entry) (file : Option ℕ)
    (kept : (i : ℕ) (e : Entry)
      → is_refreshed e.refreshed ≡ true
      → is_refreshed (others i e).refreshed ≡ true) where
  abbrev Ends : ℕ → Entry → Type 0
  Ends n e = (e' : Entry) × (wait others n file e ≡ some e') × (is_refreshed e'.refreshed ≡ true)

  wait-refreshed : (n : ℕ) (e : Entry) → is_refreshed (others n e).refreshed ≡ true → Ends (suc n) e
  unfolding wait
  wait-refreshed n e h = (others n e, rw h refl, h)

  wait-again :
      (n : ℕ) (e : Entry)
      → is_refreshed (others n e).refreshed ≡ false
      → Ends n (refresh file (others n e))
      → Ends (suc n) e
  unfolding wait
  wait-again n e h (e', at, r) = (e', rw h at, r)

  wait-from :
      (d i : ℕ) (e : Entry)
      → ((x : Entry) → (others (suc i) x).refreshed ≡ in_process → ⊥)
      → Ends (above d (suc (suc i))) e
  wait-from zero i e idle = elim (Bool-cases (is_refreshed (others (suc i) e).refreshed)) [
    | inl b ↦ wait-refreshed (suc i) e b
    | inr b ↦
        let x = refresh file (others (suc i) e) in
        let r = refresh-idle file (others (suc i) e).last_write_time _ (idle e) in
        wait-again (suc i) e b (wait-refreshed i x (kept i x r))
  ]
  wait-from (suc d) i e idle =
      let n : ℕ = above d (suc (suc i)) in
      elim (Bool-cases (is_refreshed (others n e).refreshed)) [
        | inl b ↦ wait-refreshed n e b
        | inr b ↦ wait-again n e b (wait-from d i (refresh file (others n e)) idle)
      ]

  -- The loop of isChanged ends with the entry refreshed, whatever other threads do to the entry between its
  -- rounds, when none of them resets it once it is refreshed and one round but the last finds no other thread in
  -- its refresh. The fuel is more than the rounds that are left after this one, by one.
  pub wait-ends :
      (n i : ℕ) (e : Entry)
      → suc i < n
      → ((x : Entry) → (others (suc i) x).refreshed ≡ in_process → ⊥)
      → (e' : Entry) × (wait others n file e ≡ some e') × (is_refreshed e'.refreshed ≡ true)
  wait-ends n i e l idle =
      let d : ℕ = n - suc (suc i) in
      let same : above d (suc (suc i)) ≡ n = omega (arith, above_lem d (suc (suc i))) in
      subst (λ k. Ends k e) same (wait-from d i e idle)

-- What one thread's steps through `refresh` leave, when no other thread is in it.
pub refresh-Reach :
    (file : Option ℕ) (time : ℕ)
    → (d : FileData) × Reach (fresh time) d
      × (d.last_write_time ≡ (refresh file (entry time unrefreshed)).last_write_time)
      × (d.refreshed ≡ (refresh file (entry time unrefreshed)).refreshed)
unfolding refresh claim claim_from observe publish
refresh-Reach file time = (
  publish (look file time).1 0 (observe file 0 (claim 0 (fresh time))),
  next (next (next here (claims 0 refl)) (observes 0 file refl))
      (publishes 0 (look file time).1 refl),
  refl,
  refl,
)
