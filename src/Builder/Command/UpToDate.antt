-- ===== src/Builder/Command/UpToDate.antt =====
-- Command::isOutdated compared with the times on the disk.
use software.Base.{
  ℕ, zero, suc, ◌≡◌, refl, sym, ap, subst, ◌∙◌, Bool, true, false, not, ◌||◌, ◌==◌, ==_iff, ltb,
  if◌then◌else◌, List, [], ◌∷◌, All, Option, none, some, some-eq, ok, Bool-cases, Option-cases, inl,
  inr, arith,
}
use software.Builder.File.{RefreshType, unrefreshed, in_process, not_changed, changed, look}
use software.Builder.File.Refresh.{is_refreshed}
use software.Builder.Files.{
  Disk, Entry, Files, new_entry, refresh, register, open_file, reason, is_changed, write_entry,
}
use software.Builder.Files.Wait.{entry}
use software.Builder.Storage.{Record, get_implicit_inputs}
use software.Builder.Command.{State, Command, Outside}
use software.Builder.Command.Hash.{get_hash}
use software.Builder.Command.Outdated.{
  check_if_file_newer, any_newer, is_time_changed, is_outdated, with_record,
}

-- The time of a file; 0 is the least time, which stands for a missing one.
abbrev pub time_of : Option ℕ → ℕ
time_of none = 0
time_of (some t) = t

-- The file is missing, or newer than the command.
abbrev pub is_newer : Disk → (time p : ℕ) → Bool
is_newer disk time p = time_of (disk p) == 0 || ltb time (time_of (disk p))

abbrev pub any : (ℕ → Bool) → List ℕ → Bool
any test [] = false
any test (p ∷ ps) = test p || any test ps

-- The entries are those of the disk, for every way a path of theirs is written: nothing changed since they
-- were refreshed.
abbrev IsCurrentEntry : Option ℕ → Entry → Type 0
IsCurrentEntry file e = (is_refreshed e.refreshed ≡ true) × (e.last_write_time ≡ time_of file)

abbrev pub IsCurrent : (normalize : ℕ → ℕ) → Disk → Files → Type 0
IsCurrent normalize disk fs =
    (p : ℕ) (e : Entry) → fs (normalize p) ≡ some e → IsCurrentEntry (disk p) e

-- Paths with one normal form are one file.
abbrev pub IsOneFile : (normalize : ℕ → ℕ) → Disk → Type 0
IsOneFile normalize disk = (p q : ℕ) → normalize p ≡ normalize q → disk p ≡ disk q

refresh-entry :
    (file : Option ℕ) (time : ℕ) (r : RefreshType)
    → is_refreshed r ≡ true
    → refresh file (entry time r) ≡ entry time r
unfolding refresh
refresh-entry file time unrefreshed h = absurd (cc)
refresh-entry file time in_process h = absurd (cc)
refresh-entry file time not_changed h = refl
refresh-entry file time changed h = refl

refresh-current : (file : Option ℕ) (e : Entry) → IsCurrentEntry file e → refresh file e ≡ e
refresh-current file e h = refresh-entry file e.last_write_time e.refreshed h.0

refresh-new : (file : Option ℕ) → IsCurrentEntry file (refresh file new_entry)
unfolding refresh look
refresh-new none = (refl, refl)
refresh-new (some zero) = (refl, refl)
refresh-new (some (suc t)) = (ground arith, ground arith)

write_entry-IsCurrent :
    (normalize : ℕ → ℕ) (disk : Disk) (fs : Files) (p : ℕ) (e : Entry)
    → IsOneFile normalize disk
    → IsCurrent normalize disk fs
    → IsCurrentEntry (disk p) e
    → IsCurrent normalize disk (write_entry fs (normalize p) e)
write_entry-IsCurrent normalize disk fs p e one h k q x at =
    elim (Bool-cases (normalize q == normalize p)) [
      | inl b ↦
          let same = one p q (sym ((==_iff (normalize q) (normalize p)).0 b)) in
          let entry_same : e ≡ x = some-eq (rw b at at) in
          subst (λ y. IsCurrentEntry (disk q) y) entry_same (subst (λ y. IsCurrentEntry y e) same k)
      | inr b ↦ h q x (rw b at at)
    ]

is_changed-IsCurrent :
    (normalize : ℕ → ℕ) (disk : Disk) (time p : ℕ) (fs : Files)
    → (p == 0) ≡ false
    → IsOneFile normalize disk
    → IsCurrent normalize disk fs
    → (e : Entry) × (fs' : Files) × (is_changed normalize disk time p fs ≡ ok (reason time e, fs'))
      × IsCurrentEntry (disk p) e
      × IsCurrent normalize disk fs'
unfolding is_changed open_file register
is_changed-IsCurrent normalize disk time p fs n one h = elim (Option-cases (fs (normalize p))) [
  | inl x ↦
      let e = refresh (disk p) new_entry in
      let c : IsCurrentEntry (disk p) e = refresh-new (disk p) in
      let fs' = write_entry fs (normalize p) e in
      (
        e,
        write_entry fs' (normalize p) e,
        rw (n, x, is_changed, open_file, register, refresh-current (disk p) e c) refl,
        c,
        write_entry-IsCurrent normalize disk fs' p e one
            (write_entry-IsCurrent normalize disk fs p e one h c) c,
      )
  | inr (e, x) ↦ (
    e,
    write_entry fs (normalize p) e,
    rw (n, x, is_changed, open_file, register, refresh-current (disk p) e (h p e x)) refl,
    h p e x,
    write_entry-IsCurrent normalize disk fs p e one h (h p e x),
  )
]

reason-is_newer :
    (disk : Disk) (time p : ℕ) (e : Entry)
    → IsCurrentEntry (disk p) e
    → (elim (reason time e) [ none ↦ false | some r ↦ true ]) ≡ is_newer disk time p
unfolding reason
reason-is_newer disk time p e (_, same) = rw same (ground arith)

-- The files of the state are replaced.
abbrev pub with_files : Files → State → State
with_files fs s = record s { files = fs }

abbrev HasPaths : List ℕ → Type 0
HasPaths = All λ p. (p == 0) ≡ false

if-false {ℓ} : {A : Type ℓ} {b : Bool} (x y : A) → b ≡ false → (if b then x else y) ≡ y
if-false x y h = rw h refl

check-newer :
    (out : Outside) (s : State) (p : ℕ)
    → s.cmd.has_files ≡ true
    → (p == 0) ≡ false
    → IsOneFile out.paths.normalize s.disk
    → IsCurrent out.paths.normalize s.disk s.files
    → (fs : Files) × (check_if_file_newer out p s
        ≡ (ok (is_newer s.disk s.cmd.mtime p), with_files fs s))
      × IsCurrent out.paths.normalize s.disk fs
unfolding check_if_file_newer
check-newer out s p f n one h =
    let (e, fs, at, c, h') =
      is_changed-IsCurrent out.paths.normalize s.disk s.cmd.mtime p s.files n one h in
    (fs, if-false _ _ (ap not f) ∙ rw (at, reason-is_newer s.disk s.cmd.mtime p e c) refl, h')

any_newer-any :
    (out : Outside) (ps : List ℕ) (s : State)
    → s.cmd.has_files ≡ true
    → HasPaths ps
    → IsOneFile out.paths.normalize s.disk
    → IsCurrent out.paths.normalize s.disk s.files
    → (fs : Files) × (any_newer out ps s
        ≡ (ok (any (is_newer s.disk s.cmd.mtime) ps), with_files fs s))
      × IsCurrent out.paths.normalize s.disk fs
unfolding any_newer
any_newer-any out [] s f n one h = (s.files, refl, h)
any_newer-any out (p ∷ ps) s f n one h =
    let (fs, at, h') = check-newer out s p f n.0 one h in
    elim (Bool-cases (is_newer s.disk s.cmd.mtime p)) [
      | inl b ↦ (fs, rw (at, b) refl, h')
      | inr b ↦
          let (fs', at', h'') = any_newer-any out ps (with_files fs s) f n.1 one h' in
          (fs', rw (at, b) at', h'')
    ]

-- Whether some file of the command is newer than a time, by the disk.
abbrev pub some_newer : Disk → (time : ℕ) → Command → (implicit_inputs : List ℕ) → Bool
some_newer disk time c files =
    any (is_newer disk time) c.inputs
    || (any (is_newer disk time) c.outputs || any (is_newer disk time) files)

is_time_changed-some_newer :
    (out : Outside) (s : State)
    → s.cmd.has_files ≡ true
    → HasPaths s.cmd.inputs
    → HasPaths s.cmd.outputs
    → HasPaths s.cmd.implicit_inputs
    → IsOneFile out.paths.normalize s.disk
    → IsCurrent out.paths.normalize s.disk s.files
    → (fs : Files) × (is_time_changed out s
        ≡ (ok (some_newer s.disk s.cmd.mtime s.cmd s.cmd.implicit_inputs), with_files fs s))
      × IsCurrent out.paths.normalize s.disk fs
unfolding is_time_changed
is_time_changed-some_newer out s f a b c one h =
    let (fs₁, at₁, h₁) = any_newer-any out s.cmd.inputs s f a one h in
    let (fs₂, at₂, h₂) = any_newer-any out s.cmd.outputs (with_files fs₁ s) f b one h₁ in
    let (fs₃, at₃, h₃) = any_newer-any out s.cmd.implicit_inputs (with_files fs₂ s) f c one h₂ in
    let test = is_newer s.disk s.cmd.mtime in
    elim (Bool-cases (any test s.cmd.inputs)) [
      | inl x ↦ (fs₁, rw (at₁, x) refl, h₁)
      | inr x ↦ elim (Bool-cases (any test s.cmd.outputs)) [
        | inl y ↦ (fs₂, rw (at₁, x, at₂, y) refl, h₂)
        | inr y ↦ (fs₃, rw (at₁, x, at₂, y, at₃) refl, h₃)
      ]
    ]

-- With a record of the command, isOutdated says whether an input, an output or an implicit input of the
-- record is missing on the disk or newer than the record, when the files that are registered did not
-- change since and paths with one normal form are one file; it leaves such files, and takes over the time and
-- the implicit inputs of the record.
pub is_outdated-some_newer :
    (out : Outside) (s : State) (r : Record) (known : List ℕ)
    → s.cmd.always ≡ false
    → s.cmd.has_storage ≡ true
    → s.cmd.has_files ≡ true
    → s.records (get_hash out s.cmd) ≡ some r
    → get_implicit_inputs s.names r ≡ ok known
    → HasPaths s.cmd.inputs
    → HasPaths s.cmd.outputs
    → HasPaths known
    → IsOneFile out.paths.normalize s.disk
    → IsCurrent out.paths.normalize s.disk s.files
    → (fs : Files) × (is_outdated out s
        ≡ (ok (some_newer s.disk r.mtime s.cmd known), with_files fs (with_record r known s)))
      × IsCurrent out.paths.normalize s.disk fs
unfolding is_outdated
is_outdated-some_newer out s r known a b f at inputs i o k one h =
    let (fs, e, h') = is_time_changed-some_newer out (with_record r known s) f i o k one h in
    (fs, if-false _ _ a ∙ if-false _ _ (ap not b) ∙ rw (at, inputs) e, h')
