-- ===== src/Lockfile/Holder.antt =====
-- What other processes see of a process that has the lock.
use repro_vm_virtual_machine.Lockfile.Inv.{file_of, lock_of}
use repro_vm_virtual_machine.Lockfile.Exclusion.{Reach-LocksInv}
use repro_vm_virtual_machine.Config.Decimal.{
  put_digits_first, put_digits-append, digits_value-put_digits,
}
use repro_vm_virtual_machine.Prelude.{
  ℕ, skip_spaces, leb, ◌≤◌, ◌<◌, ◌==◌, ◌++◌, ◌∷◌, [], true, false, Bool, ◌&&◌, some, refl, ◌≡◌, ◌∙◌,
  arith, Text, ap,
}
use repro_vm_virtual_machine.Prelude.Int.{ℤ, pos, gtb_ℤ}
use repro_vm_virtual_machine.Config.Save.{decimal, put_digits}
use repro_vm_virtual_machine.Config.{digits_value}
use repro_vm_virtual_machine.Lockfile.{
  Locks, Reach, scan_signed, lockfile_get_holder, lockfile_is_locked, is_space, write_pid,
  lockfile_force_remove, locked,
}

scan_signed-digits :
    (s : Text) (c : ℕ) (rest : Text)
    → s ≡ c ∷ rest
    → 48 ≤ c
    → c ≤ 57
    → scan_signed (skip_spaces s) ≡ pos (digits_value 0 s)
scan_signed-digits s c rest e low high =
    let plus : (c == b'+') ≡ false = ground arith in
    let minus : (c == b'-') ≡ false = ground arith in
    let blank : is_space c ≡ false = ground arith in
    let digit : (leb 48 c && leb c 57) ≡ true = ground arith in
    rw (e, blank, minus, plus, digit) refl

-- The text of `"%d\n"`.
pub pid_text : ℕ → Text
pid_text pid = decimal (pos pid) ++ 10 ∷ []

scan_signed-pid_text :
    (pid : ℕ) → pid < 2147483648 → scan_signed (skip_spaces (pid_text pid)) ≡ pos pid
unfolding decimal pid_text
scan_signed-pid_text pid h =
    let (c, rest, e, low, high) = put_digits_first 19 pid (10 ∷ []) in
    ap (λ s. scan_signed (skip_spaces s)) (put_digits-append 19 pid [] (10 ∷ []))
    ∙ (scan_signed-digits (put_digits 19 pid (10 ∷ [])) c rest e low high
        ∙ ap pos (digits_value-put_digits 19 pid (10 ∷ []) (omega arith)))

lockfile_get_holder-write_pid :
    (p i pid : ℕ) (s : Locks)
    → s.path ≡ some i
    → pid < 2147483648
    → lockfile_get_holder (write_pid p i (pid_text pid) s) ≡ pos pid
unfolding lockfile_get_holder write_pid
lockfile_get_holder-write_pid p i pid s there h =
    let same : (i == i) ≡ true = ground arith in rw (there, same) (scan_signed-pid_text pid h)

write_pid_keeps :
    (p i : ℕ) (pid : Text) (s : Locks)
    → ((write_pid p i pid s).path ≡ s.path) × ((write_pid p i pid s).owner ≡ s.owner)
unfolding write_pid
write_pid_keeps p i pid s = (refl, refl)

-- When a process that has locked the file writes its id, which is positive and an `int`, and no
-- name of a lock file has been taken away before: then `lockfile_is_locked` answers that the path
-- is locked by this id, and while the process lives, `lockfile_force_remove` fails and changes
-- nothing.
pub lockfile_is_locked-write_pid :
    (s : Locks) (p i pid : ℕ) (alive : ℤ → Bool)
    → Reach false s
    → s.stand p ≡ locked i
    → 0 < pid
    → pid < 2147483648
    → alive (pos pid) ≡ true
    → (lockfile_is_locked (write_pid p i (pid_text pid) s) ≡ (true, some (pos pid)))
      × (lockfile_force_remove alive (write_pid p i (pid_text pid) s)
          ≡ (write_pid p i (pid_text pid) s, false))
unfolding lockfile_is_locked lockfile_force_remove
lockfile_is_locked-write_pid s p i pid alive r e positive small lives =
    let inv = Reach-LocksInv r in
    let there : s.path ≡ some i = inv.current refl p i (ap file_of e) in
    let owned : s.owner i ≡ some p = inv.owned p i (ap lock_of e) in
    let holder = lockfile_get_holder-write_pid p i pid s there small in
    let big : gtb_ℤ (pos pid) 0 ≡ true = ground arith in
    let (path, owner) = write_pid_keeps p i (pid_text pid) s in
    let named : (write_pid p i (pid_text pid) s).path ≡ some i = path ∙ there in
    let taken : (write_pid p i (pid_text pid) s).owner i ≡ some p = ap (λ f. f i) owner ∙ owned in
    (rw (lockfile_is_locked, named, taken, holder) refl, rw (holder, big, lives) refl)
