-- ===== src/Lockfile/Broken.antt =====
-- What a release does to the processes that wait for the lock.
use repro_vm_virtual_machine.Prelude.{ℕ, true, refl, ◌≡◌, ◌≢◌, arith, Text}
use repro_vm_virtual_machine.Lockfile.{
  here, next, opens, locks, writes, releases, unlinks, Locks, open_lock, open_named, open_new,
  take_lock, write_pid, unlock, unlink_lock, Reach, holding, no_locks, unlinking,
}

-- The lock does not exclude: for any three processes, two of them can have it at the same time,
-- when the third releases it.
pub Reach-two_holders :
    (p q r : ℕ) (a b c : Text)
    → p ≢ q
    → p ≢ r
    → q ≢ r
    → (s : Locks) × (Reach true s × ((s.stand q ≡ holding 0) × (s.stand r ≡ holding 1)))
unfolding open_lock open_named open_new take_lock write_pid unlock unlink_lock
Reach-two_holders p q r a b c pq pr qr =
    let s1 = open_new p no_locks in
    let s2 = take_lock p 0 s1 in
    let s3 = write_pid p 0 a s2 in
    let s4 = open_named q 0 s3 in
    let s5 = unlock p 0 unlinking s4 in
    let s6 = take_lock q 0 s5 in
    let s7 = write_pid q 0 b s6 in
    let s8 = unlink_lock p s7 in
    let s9 = open_new r s8 in
    let s10 = take_lock r 1 s9 in
    let s11 = write_pid r 1 c s10 in
    (
      s11,
      (
        next
            (next
              (next
                (next
                  (next
                    (next
                      (next
                        (next
                          (next
                            (next (next here (opens p refl refl))
                              (locks p 0 (ground arith) (ground arith) refl))
                            (writes p 0 a (ground arith) refl))
                          (opens q (ground arith) refl))
                        (releases p 0 (ground arith) refl))
                      (locks q 0 (ground arith) (ground arith) refl))
                    (writes q 0 b (ground arith) refl))
                  (unlinks p (ground arith) refl))
                (opens r (ground arith) refl))
              (locks r 1 (ground arith) (ground arith) refl))
            (writes r 1 c (ground arith) refl),
        (ground arith, ground arith),
      ),
    )
