-- ===== src/Lockfile/Exclusion.antt =====
-- Who can have the lock at the same time.
use repro_vm_virtual_machine.Lockfile.Calls.{
  open_lock-LocksInv, take_lock-LocksInv, give_up-LocksInv, write_pid-LocksInv, unlock-LocksInv,
  unlink_lock-LocksInv, force_remove-LocksInv,
}
use repro_vm_virtual_machine.Lockfile.Inv.{LocksInv, lock_of, file_of-lock_of}
use repro_vm_virtual_machine.Lockfile.{
  here, next, opens, locks, closes, writes, fails, releases, unlinks, removes, outside, unlinking,
  Locks, Step, opens, locks, closes, writes, fails, releases, unlinks, removes, Reach, next,
}
use repro_vm_virtual_machine.Prelude.{ℕ, false, Bool, ◌||◌, some, refl, ◌≡◌, ap}

-- Every step keeps the invariant. Behind a step that takes the name away, only a part of it is
-- claimed.
Step-LocksInv : {b c : Bool} {s t : Locks} → Step s t c → LocksInv b s → LocksInv (c || b) t
Step-LocksInv {b} {c} {s} (opens p e same) inv = rw same (open_lock-LocksInv b p s inv)
Step-LocksInv {b} {c} {s} (locks p i e free same) inv =
    rw same (take_lock-LocksInv b p i s e free inv)
Step-LocksInv {b} {c} {s} (closes p i e same) inv = rw same (give_up-LocksInv b p s inv)
Step-LocksInv {b} {c} {s} (writes p i pid e same) inv =
    rw same (write_pid-LocksInv b p i pid s e inv)
Step-LocksInv {b} {c} {s} (fails p i e same) inv =
    rw same (unlock-LocksInv b p i outside s (ap lock_of e) refl refl inv)
Step-LocksInv {b} {c} {s} (releases p i e same) inv =
    rw same (unlock-LocksInv b p i unlinking s (ap lock_of e) refl refl inv)
Step-LocksInv {b} {c} {s} (unlinks p e same) inv = rw same (unlink_lock-LocksInv b p s inv)
Step-LocksInv {b} {c} {s} (removes alive same) inv = rw same (force_remove-LocksInv b alive s inv)

pub Reach-LocksInv : {b : Bool} {s : Locks} → Reach b s → LocksInv b s
Reach-LocksInv here = record {
  made = λ p j h. absurd cc;
  named = λ j h. absurd cc;
  owned = λ p j h. absurd cc;
  current = λ _ p j h. absurd cc;
}
Reach-LocksInv (next r step) = Step-LocksInv step (Reach-LocksInv r)

-- Whatever the interleaving of the system calls: no two processes have the lock of the same file.
-- As long as no name of a lock file has been taken away, by a release or by
-- `lockfile_force_remove`, no two processes have a lock at all.
pub Reach-IsExclusive :
    (b : Bool) (s : Locks) (p q i j : ℕ)
    → Reach b s
    → lock_of (s.stand p) ≡ some i
    → lock_of (s.stand q) ≡ some j
    → (i ≡ j → p ≡ q) × (b ≡ false → p ≡ q)
Reach-IsExclusive b s p q i j r e f =
    let inv = Reach-LocksInv r in
    let p_owns = inv.owned p i e in
    let q_owns = inv.owned q j f in
    let one : i ≡ j → p ≡ q = λ h. cc in
    (
      one,
      λ h.
          let p_at = inv.current h p i (file_of-lock_of (s.stand p) i e) in
          let q_at = inv.current h q j (file_of-lock_of (s.stand q) j f) in one cc,
    )
