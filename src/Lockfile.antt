-- ===== src/Lockfile.antt =====
-- lockfile.c: processes that lock one path. `flock` locks the file that a process has opened, not
-- its name, so the files are numbered in the order of their creation, and the path names one of
-- them or none. A step is one system call of one process, with what the code does behind it.
pub mod Inv
pub mod Calls
pub mod Exclusion
pub mod Holder
pub mod Broken
use repro_vm_virtual_machine.Prelude.{
  is_space, skip_spaces, leb, ℕ, zero, suc, ◌+◌, ◌-◌, ◌*◌, ◌≤◌, ◌<◌, if◌then◌else◌, ◌==◌, ◌++◌, ◌∷◌,
  [], List, true, false, Bool, ◌&&◌, ◌||◌, none, some, Option, refl, ◌≡◌, ◌≢◌, ◌∙◌, sym, arith, inl,
  inr, ◌⊎◌, ◌↔◌, Bool-cases, Option-cases, List-cases, length, Text, mem, count, All,
}
use repro_vm_virtual_machine.Prelude.Int.{ℤ, pos, negsuc, gtb_ℤ}
use repro_vm_virtual_machine.Config.{digits_value, negate}

-- Where a process stands: behind `open`, behind `flock`, holding a `LockFile`, or in
-- `lockfile_release` in front of `unlink`.
pub data Stand : Type 0 where
  outside : Stand
  opened : ℕ → Stand
  locked : ℕ → Stand
  holding : ℕ → Stand
  unlinking : Stand

-- `owner` is the process that has the `flock` of a file, `text` is what stands in it.
pub record Locks : Type 0 where
  pub path : Option ℕ
  pub files : ℕ
  pub owner : ℕ → Option ℕ
  pub text : ℕ → Text
  pub stand : ℕ → Stand

abbrev pub set_at {ℓ} : {A : Type ℓ} → (ℕ → A) → ℕ → A → ℕ → A
set_at f k v i = if i == k then v else f i

abbrev pub no_locks : Locks
no_locks = record {
  path = none;
  files = 0;
  owner = λ _. none;
  text = λ _. [];
  stand = λ _. outside;
}

-- `open(path, O_CREAT | O_RDWR, 0644)` that succeeds: on the file that the path names, or on a new
-- one.
unfoldable pub open_named : ℕ → ℕ → Locks → Locks
open_named p i s = record s { stand = set_at s.stand p (opened i) }

unfoldable pub open_new : ℕ → Locks → Locks
open_new p s = record s {
  path = some s.files;
  files = s.files + 1;
  owner = set_at s.owner s.files none;
  text = set_at s.text s.files [];
  stand = set_at s.stand p (opened s.files);
}

unfoldable pub open_lock : ℕ → Locks → Locks
open_lock p s = elim s.path [ some i ↦ open_named p i s | none ↦ open_new p s ]

-- `flock(fd, LOCK_EX)` on a file that nobody has locked.
unfoldable pub take_lock : ℕ → ℕ → Locks → Locks
take_lock p i s = record s {
  owner = set_at s.owner i (some p);
  stand = set_at s.stand p (locked i);
}

-- The process id is written, cut or not, and the lock is returned.
unfoldable pub write_pid : ℕ → ℕ → Text → Locks → Locks
write_pid p i pid s = record s { text = set_at s.text i pid; stand = set_at s.stand p (holding i) }

-- `close(fd)` of a file that p has not locked.
unfoldable pub give_up : ℕ → Locks → Locks
give_up p s = record s { stand = set_at s.stand p outside }

-- `flock(fd, LOCK_UN); close(fd)`, on the error path of `lockfile_acquire` (then the process is
-- outside) and in `lockfile_release` (then it goes on to `unlink`).
unfoldable pub unlock : ℕ → ℕ → Stand → Locks → Locks
unlock p i next s = record s { owner = set_at s.owner i none; stand = set_at s.stand p next }

-- `unlink(lock->path)`
unfoldable pub unlink_lock : ℕ → Locks → Locks
unlink_lock p s = record s { path = none; stand = set_at s.stand p outside }

-- `fscanf(fp, "%d", &pid)`: -1 stays if there is no number. `none` is a file that does not open.
abbrev pub starts_digit : Text → Bool
starts_digit [] = false
starts_digit (c ∷ s) = leb 48 c && leb c 57

abbrev pub scan_signed : Text → ℤ
scan_signed [] = negsuc 0
scan_signed (c ∷ s) =
    if c == b'-'
    then (if starts_digit s then negate (digits_value 0 s) else negsuc 0)
    else if c == b'+'
    then (if starts_digit s then pos (digits_value 0 s) else negsuc 0)
    else if starts_digit (c ∷ s)
    then pos (digits_value 0 (c ∷ s))
    else negsuc 0

unfoldable pub lockfile_get_holder : Locks → ℤ
lockfile_get_holder s = elim s.path [
  | none ↦ negsuc 0
  | some i ↦ scan_signed (skip_spaces (s.text i))
]

-- The test locks the file and unlocks it at once. The result, and the holder if it is locked.
unfoldable pub lockfile_is_locked : Locks → Bool × Option ℤ
lockfile_is_locked s = elim s.path [
  | none ↦ (false, none)
  | some i ↦ elim (s.owner i) [
    | none ↦ (false, none)
    | some _ ↦ (true, some (lockfile_get_holder s))
  ]
]

-- `alive` is `kill(pid, 0) == 0`. `true` is the return value 0.
unfoldable pub lockfile_force_remove : (ℤ → Bool) → Locks → Locks × Bool
lockfile_force_remove alive s =
    let holder = lockfile_get_holder s in
    if gtb_ℤ holder 0 && alive holder
    then (s, false)
    else elim s.path [ none ↦ (s, false) | some _ ↦ (record s { path = none }, true) ]

-- `lockfile_acquire` waits in `flock`, and `lockfile_try_acquire` gives up there (`closes`); a
-- failing call closes the file too. `lockfile_acquire` gives the lock back when it cannot write.
-- `removes` is `lockfile_force_remove` of any process. The index says whether the step takes the
-- name of the file away.
pub data Step (s t : Locks) : Bool → Type 0 where
  opens : (p : ℕ) → s.stand p ≡ outside → t ≡ open_lock p s → Step s t false
  locks : (p i : ℕ) → s.stand p ≡ opened i → s.owner i ≡ none → t ≡ take_lock p i s → Step s t false
  closes : (p i : ℕ) → s.stand p ≡ opened i → t ≡ give_up p s → Step s t false
  writes : (p i : ℕ) (pid : Text) → s.stand p ≡ locked i → t ≡ write_pid p i pid s → Step s t false
  fails : (p i : ℕ) → s.stand p ≡ locked i → t ≡ unlock p i outside s → Step s t false
  releases : (p i : ℕ) → s.stand p ≡ holding i → t ≡ unlock p i unlinking s → Step s t false
  unlinks : (p : ℕ) → s.stand p ≡ unlinking → t ≡ unlink_lock p s → Step s t true
  removes : (alive : ℤ → Bool) → t ≡ (lockfile_force_remove alive s).0 → Step s t true

-- The states that can follow. The index says whether a step has taken the name away.
pub data Reach : Bool → Locks → Type 0 where
  here : Reach false no_locks
  next : {b c : Bool} {s t : Locks} → Reach b s → Step s t c → Reach (c || b) t
