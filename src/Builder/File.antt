-- ===== src/Builder/File.antt =====
-- src/sw/builder/file.h and file.cpp: FileData::refresh, which several threads may call at once. A time
-- is a number, and the least time is 0.
pub mod Refresh
use software.Base.{ℕ, ◌≡◌, Bool, true, false, ◌==◌, ltb, if◌then◌else◌, Option, none, some}

pub data RefreshType : Type 0 where
  unrefreshed in_process not_changed changed : RefreshType

-- FileData, and how far each thread is in `refresh`.
pub data Progress : Type 0 where
  outside claimed : Progress
  -- with the value of the variable `changed`
  looked : Bool → Progress

pub record FileData : Type 0 where
  pub last_write_time : ℕ
  pub refreshed : RefreshType
  pub progress : ℕ → Progress

abbrev pub write_progress : (ℕ → Progress) → ℕ → Progress → (ℕ → Progress)
write_progress f t v = λ x. if x == t then v else f x

-- `refreshed.compare_exchange_strong(r, InProcess)`; on failure `refresh` returns.
unfoldable pub claim_from : RefreshType → ℕ → FileData → FileData
claim_from unrefreshed t d = record d {
  refreshed = in_process;
  progress = write_progress d.progress t claimed;
}
claim_from _ t d = d

unfoldable pub claim : ℕ → FileData → FileData
unfolding claim_from
claim t d = claim_from d.refreshed t d

-- The file is looked at: `none` is a file that is not regular, or not there. The result is the time to
-- keep, and `changed`.
unfoldable pub look : Option ℕ → ℕ → ℕ × Bool
look none old = (0, true)
look (some t) old = if ltb old t then (t, true) else (old, false)

unfoldable pub observe : Option ℕ → ℕ → FileData → FileData
unfolding look
observe file t d =
    let (time, b) = look file d.last_write_time in
    record d { last_write_time = time; progress = write_progress d.progress t (looked b) }

-- The last statement of `refresh`.
unfoldable pub publish : Bool → ℕ → FileData → FileData
publish b t d = record d {
  refreshed = if b then changed else not_changed;
  progress = write_progress d.progress t outside;
}

pub data Step (d : FileData) : FileData → Type 0 where
  claims : (t : ℕ) → d.progress t ≡ outside → Step d (claim t d)
  observes : (t : ℕ) (file : Option ℕ) → d.progress t ≡ claimed → Step d (observe file t d)
  publishes : (t : ℕ) (b : Bool) → d.progress t ≡ looked b → Step d (publish b t d)

pub data Reach (d : FileData) : FileData → Type 0 where
  here : Reach d d
  next : {e f : FileData} → Reach d e → Step e f → Reach d f

-- A file's data before the first look at the file, with the time of an earlier run.
abbrev pub fresh : (old : ℕ) → FileData
fresh old = record { last_write_time = old; refreshed = unrefreshed; progress = λ t. outside }
