-- ===== src/Tests/Locks.antt =====
-- lockfile.c: process 0 locks the path, and processes 1 and 2 meet its release.
use repro_vm_virtual_machine.Lockfile.Holder.{pid_text, lockfile_is_locked-write_pid}
use repro_vm_virtual_machine.Lockfile.Inv.{lock_of}
use repro_vm_virtual_machine.Lockfile.Exclusion.{Reach-IsExclusive}
use repro_vm_virtual_machine.Lockfile.Broken.{Reach-two_holders}
use repro_vm_virtual_machine.Lockfile.{
  here, next, opens, locks, writes, holding, Reach, open_lock, Locks, open_named, write_pid,
  open_new, take_lock, no_locks, lockfile_is_locked, lockfile_force_remove, lockfile_get_holder,
  locked,
}
use repro_vm_virtual_machine.Prelude.{ℕ, codes, true, false, some, refl, ◌≡◌, arith}
use repro_vm_virtual_machine.Prelude.Int.{pos}

abbrev held : Locks
held = write_pid 0 0 (codes "17\n") (take_lock 0 0 (open_lock 0 no_locks))

Reach-held : Reach false held
unfolding open_lock open_named open_new take_lock write_pid
Reach-held =
    next (next (next here (opens 0 refl refl)) (locks 0 0 refl refl refl))
      (writes 0 0 (codes "17\n") refl refl)

held_zero : lock_of (held.stand 0) ≡ some 0
unfolding open_lock open_named open_new take_lock write_pid
held_zero = refl

abbrev first : ℕ
first = 0

Reach-IsExclusive_example : (first ≡ first → first ≡ first) × (false ≡ false → first ≡ first)
Reach-IsExclusive_example =
    Reach-IsExclusive false held first first first first Reach-held held_zero held_zero

Reach-two_holders_example :
    (s : Locks) × (Reach true s × ((s.stand 1 ≡ holding 0) × (s.stand 2 ≡ holding 1)))
Reach-two_holders_example =
    Reach-two_holders 0 1 2 (codes "17\n") (codes "18\n") (codes "19\n") (omega arith) (omega arith)
      (omega arith)

-- The holder is read back, and a lock that is held without a process id yet can be removed.
is_locked_held : lockfile_is_locked held ≡ (true, some (pos 17))
unfolding open_lock open_named open_new take_lock write_pid lockfile_is_locked lockfile_get_holder
is_locked_held = refl

force_remove_unwritten :
    (lockfile_force_remove (λ _. true) (take_lock 0 0 (open_lock 0 no_locks))).1 ≡ true
unfolding open_lock open_named open_new take_lock lockfile_force_remove lockfile_get_holder
force_remove_unwritten = refl

-- Process 0 has locked the file, and has not written its id.
abbrev taken : Locks
taken = take_lock 0 0 (open_lock 0 no_locks)

Reach-taken : Reach false taken
unfolding open_lock open_named open_new take_lock
Reach-taken = next (next here (opens 0 refl refl)) (locks 0 0 refl refl refl)

taken_zero : taken.stand 0 ≡ locked 0
unfolding open_lock open_named open_new take_lock
taken_zero = refl

lockfile_is_locked-write_pid_example :
    (lockfile_is_locked (write_pid 0 0 (pid_text 17) taken) ≡ (true, some (pos 17)))
    × (lockfile_force_remove (λ _. true) (write_pid 0 0 (pid_text 17) taken)
        ≡ (write_pid 0 0 (pid_text 17) taken, false))
lockfile_is_locked-write_pid_example =
    lockfile_is_locked-write_pid taken 0 0 17 (λ _. true) Reach-taken taken_zero (omega arith)
      (omega arith) refl
