-- ===== src/Lockfile/Calls.antt =====
-- What each system call does to the invariant.
use repro_vm_virtual_machine.Lockfile.Inv.{
  LocksInv, lock_of, with_file-LocksInv, changed-LocksInv, file_of, with_file, may_keep,
}
use repro_vm_virtual_machine.Lockfile.{
  Stand, outside, opened, locked, holding, Locks, set_at, open_lock, take_lock, unlock, give_up,
  write_pid, unlink_lock, lockfile_force_remove, lockfile_get_holder, open_new, open_named,
}
use repro_vm_virtual_machine.Prelude.{
  ℕ, ◌==◌, true, Bool, ◌&&◌, none, some, ◌≡◌, ◌∙◌, arith, inl, inr, Bool-cases, Option-cases, Text,
  ap,
}
use repro_vm_virtual_machine.Prelude.Int.{ℤ, gtb_ℤ}

pub open_new-LocksInv :
    (b : Bool) (p : ℕ) (s : Locks) → s.path ≡ none → LocksInv b s → LocksInv b (open_new p s)
unfolding open_new
open_new-LocksInv b p s none_there inv =
    let fresh = with_file-LocksInv b s none_there inv in
    changed-LocksInv b p (opened s.files) (with_file s).owner (with_file s).text (with_file s)
      (λ j h. (fresh.named j h, λ _. h)) (λ j h. absurd cc) (λ q j other h. h) fresh

pub open_named-LocksInv :
    (b : Bool) (p i : ℕ) (s : Locks)
    → s.path ≡ some i
    → LocksInv b s
    → LocksInv b (open_named p i s)
unfolding open_named
open_named-LocksInv b p i s there inv =
    changed-LocksInv b p (opened i) s.owner s.text s
      (λ j h. (inv.named j (there ∙ h), λ _. there ∙ h)) (λ j h. absurd cc) (λ q j other h. h) inv

pub open_lock-LocksInv : (b : Bool) (p : ℕ) (s : Locks) → LocksInv b s → LocksInv b (open_lock p s)
unfolding open_lock
open_lock-LocksInv b p s inv = elim (Option-cases s.path) [
  | inl none_there ↦ simp (none_there, open_lock) (open_new-LocksInv b p s none_there inv)
  | inr (i, there) ↦ simp (there, open_lock) (open_named-LocksInv b p i s there inv)
]

pub take_lock-LocksInv :
    (b : Bool) (p i : ℕ) (s : Locks)
    → s.stand p ≡ opened i
    → s.owner i ≡ none
    → LocksInv b s
    → LocksInv b (take_lock p i s)
unfolding take_lock
take_lock-LocksInv b p i s e free inv =
    changed-LocksInv b p (locked i) (set_at s.owner i (some p)) s.text s
      (may_keep b p i s inv (ap file_of e)) (λ j h. let eq : i ≡ j = cc in ground arith)
      (λ q j other h. elim (Bool-cases (j == i)) [
        | inl same ↦ let eq : j ≡ i = ground arith in absurd cc
        | inr apart ↦ simp apart h
      ])
      inv

pub unlock-LocksInv :
    (b : Bool) (p i : ℕ) (v : Stand) (s : Locks)
    → lock_of (s.stand p) ≡ some i
    → file_of v ≡ none
    → lock_of v ≡ none
    → LocksInv b s
    → LocksInv b (unlock p i v s)
unfolding unlock
unlock-LocksInv b p i v s e closed free inv =
    changed-LocksInv b p v (set_at s.owner i none) s.text s (λ j h. absurd cc) (λ j h. absurd cc)
      (λ q j other h. elim (Bool-cases (j == i)) [
        | inl same ↦
            let owns = inv.owned p i e in
            let eq : j ≡ i = ground arith in let both : q ≡ p = cc in absurd (other both)
        | inr apart ↦ simp apart h
      ])
      inv

pub give_up-LocksInv : (b : Bool) (p : ℕ) (s : Locks) → LocksInv b s → LocksInv b (give_up p s)
unfolding give_up
give_up-LocksInv b p s inv =
    changed-LocksInv b p outside s.owner s.text s (λ j h. absurd cc) (λ j h. absurd cc)
      (λ q j other h. h) inv

pub write_pid-LocksInv :
    (b : Bool) (p i : ℕ) (pid : Text) (s : Locks)
    → s.stand p ≡ locked i
    → LocksInv b s
    → LocksInv b (write_pid p i pid s)
unfolding write_pid
write_pid-LocksInv b p i pid s e inv =
    changed-LocksInv b p (holding i) s.owner (set_at s.text i pid) s
      (may_keep b p i s inv (ap file_of e)) (λ j h. inv.owned p j (ap lock_of e ∙ h))
      (λ q j other h. h) inv

pub forget-LocksInv : (b : Bool) (s : Locks) → LocksInv b s → LocksInv true s
forget-LocksInv b s inv = record {
  made = inv.made;
  named = inv.named;
  owned = inv.owned;
  current = λ h. absurd cc;
}

pub clear-LocksInv :
    (b : Bool) (s : Locks) → LocksInv b s → LocksInv true (record s { path = none })
clear-LocksInv b s inv = record {
  made = inv.made;
  named = λ j h. absurd cc;
  owned = inv.owned;
  current = λ h. absurd cc;
}

pub unlink_lock-LocksInv :
    (b : Bool) (p : ℕ) (s : Locks) → LocksInv b s → LocksInv true (unlink_lock p s)
unfolding unlink_lock
unlink_lock-LocksInv b p s inv =
    changed-LocksInv true p outside s.owner s.text (record s { path = none }) (λ j h. absurd cc)
      (λ j h. absurd cc) (λ q j other h. h) (clear-LocksInv b s inv)

pub force_remove-LocksInv :
    (b : Bool) (alive : ℤ → Bool) (s : Locks)
    → LocksInv b s
    → LocksInv true (lockfile_force_remove alive s).0
unfolding lockfile_force_remove
force_remove-LocksInv b alive s inv =
    elim (Bool-cases (gtb_ℤ (lockfile_get_holder s) 0 && alive (lockfile_get_holder s))) [
      | inl lives ↦ rw lives (forget-LocksInv b s inv)
      | inr dead ↦ rw dead (elim (Option-cases s.path) [
        | inl gone ↦ simp gone (forget-LocksInv b s inv)
        | inr (i, there) ↦ simp there (clear-LocksInv b s inv)
      ])
    ]
