-- ===== src/Builder/Files.antt =====
-- src/sw/builder/file.cpp and file_storage.cpp: the data of files in one thread's view; of other threads only `wait`
-- knows. A path is a number as it is written, 0 is the empty path; normalize_path is a parameter. The disk gives
-- the time of a regular file.
pub mod Wait
use software.Base.{
  ℕ, zero, suc, Bool, true, false, ◌==◌, ltb, if◌then◌else◌, Option, none, some, Result, ok, err,
  ◌>>=◌,
}
use software.Builder.File.{RefreshType, unrefreshed, in_process, not_changed, changed, look}
use software.Builder.File.Refresh.{is_refreshed}

abbrev pub Disk : Type 0
Disk = ℕ → Option ℕ

pub record Entry : Type 0 where
  pub last_write_time : ℕ
  pub refreshed : RefreshType

-- FileStorage: the entries by the normal forms of paths. A path that was never registered has none.
abbrev pub Files : Type 0
Files = ℕ → Option Entry

pub data Error : Type 0 where
  empty_file : Error

abbrev pub new_entry : Entry
new_entry = record { last_write_time = 0; refreshed = unrefreshed }

-- FileData::operator=
unfoldable pub copy_entry : Entry → Entry
copy_entry e = record e {
  refreshed = elim e.refreshed [ in_process ↦ unrefreshed | other ↦ other ];
}

-- FileData::reset
unfoldable pub reset : Entry → Entry
reset e = record e { refreshed = unrefreshed }

-- FileData::refresh, when no other thread is in it
unfoldable pub refresh : Option ℕ → Entry → Entry
unfolding look
refresh file e = elim e.refreshed [
  | unrefreshed ↦
      let (time, b) = look file e.last_write_time in
      record { last_write_time = time; refreshed = if b then changed else not_changed }
  | _ ↦ e
]

-- The while loop of File::isChanged on fuel; `none` means that it ran out. `others` is what other threads do to
-- the entry before each test; a refresh does nothing while another thread is in its own.
unfoldable pub wait : (others : ℕ → Entry → Entry) → ℕ → Option ℕ → Entry → Option Entry
unfolding refresh
wait others zero file e = none
wait others (suc n) file e =
    let e' = others n e in
    let again = wait others n file (refresh file e') in
    if is_refreshed e'.refreshed then some e' else again

abbrev pub write_entry : Files → ℕ → Entry → Files
write_entry fs p e = λ q. if q == p then some e else fs q

-- FileStorage::registerFile: the entry of the normal form of a path. A new one is refreshed at once, by the path as
-- it is given.
unfoldable pub register : (normalize : ℕ → ℕ) → Disk → ℕ → Files → Entry × Files
unfolding refresh
register normalize disk p fs = elim (fs (normalize p)) [
  | some e ↦ (e, fs)
  | none ↦ let e = refresh (disk p) new_entry in (e, write_entry fs (normalize p) e)
]

-- File(path, FileStorage &)
unfoldable pub open_file : (normalize : ℕ → ℕ) → Disk → ℕ → Files → Result Error (Entry × Files)
unfolding register
open_file normalize disk p fs = if p == 0 then err empty_file else ok (register normalize disk p fs)

pub data Reason : Type 0 where
  missing newer : Reason

-- The tests of File::isChanged(time), once the file is refreshed.
unfoldable pub reason : (time : ℕ) → Entry → Option Reason
reason time e =
    if e.last_write_time == 0
    then some missing
    else if ltb time e.last_write_time
    then some newer
    else none

-- File::isChanged(time): the entry, and why the file is changed.
unfoldable pub is_changed :
    (normalize : ℕ → ℕ) → Disk → (time p : ℕ) → Files → Result Error (Option Reason × Files)
unfolding open_file refresh reason
is_changed normalize disk time p fs = do
  (e, fs') ← open_file normalize disk p fs
  ok (reason time (refresh (disk p) e), write_entry fs' (normalize p) (refresh (disk p) e))
