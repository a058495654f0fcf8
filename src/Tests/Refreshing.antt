-- ===== src/Tests/Refreshing.antt =====
-- Two threads refresh a file whose time is 8, where the time from before is 5.
use software.Base.{ℕ, ◌≡◌, refl, true, ◌==◌, if◌then◌else◌, Option, some, arith}
use software.Builder.File.{
  FileData, RefreshType, unrefreshed, in_process, not_changed, changed, claim, claim_from, look,
  observe, publish, claims, observes, publishes, Reach, here, next, fresh,
}
use software.Builder.Files.{Entry, wait}
use software.Builder.Files.Wait.{entry, wait-ends}
use software.Builder.File.Refresh.{refresh_once, is_inside, is_refreshed}

abbrev refreshed : FileData
refreshed = publish true 1 (observe (some 8) 1 (claim 2 (claim 1 (fresh 5))))

refreshing : Unit {0}
unfolding claim claim_from look observe publish
refreshing = tt

refreshed-Reach : Reach (fresh 5) refreshed
unfolding refreshing
refreshed-Reach =
    next (next (next (next here (claims 1 refl)) (claims 2 refl)) (observes 1 (some 8) refl))
      (publishes 1 true refl)

refresh_once_example :
    ((t u : ℕ)
      → is_inside (refreshed.progress t) ≡ true
      → is_inside (refreshed.progress u) ≡ true
      → t ≡ u)
    × (is_refreshed refreshed.refreshed ≡ true
        → (file : Option ℕ) × (refreshed.last_write_time ≡ (look file 5).0)
          × (refreshed.refreshed ≡ (if (look file 5).1 then changed else not_changed)))
refresh_once_example = refresh_once 5 refreshed refreshed-Reach

-- Another thread is in its refresh in the first round, and publishes before the second.
abbrev other_thread : ℕ → Entry → Entry
other_thread i e = elim e.refreshed [ in_process ↦ if i == 2 then e else entry 8 changed | _ ↦ e ]

other_thread-kept :
    (i : ℕ) (time : ℕ) (r : RefreshType)
    → is_refreshed r ≡ true
    → is_refreshed (other_thread i (entry time r)).refreshed ≡ true
other_thread-kept i time unrefreshed h = absurd (cc)
other_thread-kept i time in_process h = absurd (cc)
other_thread-kept i time not_changed h = refl
other_thread-kept i time changed h = refl

other_thread-idle :
    (time : ℕ) (r : RefreshType) → (other_thread 1 (entry time r)).refreshed ≡ in_process → ⊥
other_thread-idle time unrefreshed h = cc
other_thread-idle time in_process h = cc
other_thread-idle time not_changed h = cc
other_thread-idle time changed h = cc

wait-ends_example :
    (e' : Entry) × (wait other_thread 3 (some 8) (entry 5 in_process) ≡ some e')
    × (is_refreshed e'.refreshed ≡ true)
wait-ends_example =
    wait-ends other_thread (some 8) (λ i e. other_thread-kept i e.last_write_time e.refreshed) 3 0
      (entry 5 in_process) (omega arith) (λ x. other_thread-idle x.last_write_time x.refreshed)
