-- ===== src/Lockfile/Inv.antt =====
-- What holds of processes that lock one path, and a step of one of them that keeps it.
use repro_vm_virtual_machine.Lockfile.{
  Stand, outside, opened, locked, holding, unlinking, Locks, set_at,
}
use repro_vm_virtual_machine.Prelude.{
  ℕ, ◌+◌, ◌<◌, if◌then◌else◌, ◌==◌, [], false, Bool, none, some, Option, ◌≡◌, ◌≢◌, ◌∙◌, sym, arith,
  inl, inr, ◌⊎◌, Bool-cases, Text, ap,
}

-- The file that a process has open, and the one that it has locked.
abbrev pub file_of : Stand → Option ℕ
file_of outside = none
file_of (opened i) = some i
file_of (locked i) = some i
file_of (holding i) = some i
file_of unlinking = none

abbrev pub lock_of : Stand → Option ℕ
lock_of outside = none
lock_of (opened i) = none
lock_of (locked i) = some i
lock_of (holding i) = some i
lock_of unlinking = none

pub record LocksInv (b : Bool) (s : Locks) : Type 0 where
  pub made : (p i : ℕ) → file_of (s.stand p) ≡ some i → i < s.files
  pub named : (i : ℕ) → s.path ≡ some i → i < s.files
  pub owned : (p i : ℕ) → lock_of (s.stand p) ≡ some i → s.owner i ≡ some p
  pub current : b ≡ false → (p i : ℕ) → file_of (s.stand p) ≡ some i → s.path ≡ some i

-- What a process had in front of a step, if it has j behind it.
moved :
    (g : Stand → Option ℕ) (f : ℕ → Stand) (p : ℕ) (v : Stand) (q j : ℕ)
    → g (set_at f p v q) ≡ some j
    → ((q ≡ p) × (g v ≡ some j)) ⊎ ((q ≢ p) × (g (f q) ≡ some j))
moved g f p v q j e = elim (Bool-cases (q == p)) [
  | inl same ↦ inl (ground arith, sym (ap (λ x. g (if x then v else f q)) same) ∙ e)
  | inr other ↦ inr (ground arith, sym (ap (λ x. g (if x then v else f q)) other) ∙ e)
]

pub file_of-lock_of : (v : Stand) (j : ℕ) → lock_of v ≡ some j → file_of v ≡ some j
file_of-lock_of outside j e = e
file_of-lock_of (opened i) j e = absurd cc
file_of-lock_of (locked i) j e = e
file_of-lock_of (holding i) j e = e
file_of-lock_of unlinking j e = e

-- A file that p may have open.
abbrev pub MayOpen : Bool → Locks → ℕ → Type 0
MayOpen b s j = (j < s.files) × (b ≡ false → s.path ≡ some j)

-- A step of p behind which the others own what they owned.
pub changed-LocksInv :
    (b : Bool) (p : ℕ) (v : Stand) (owner : ℕ → Option ℕ) (text : ℕ → Text) (s : Locks)
    → ((j : ℕ) → file_of v ≡ some j → MayOpen b s j)
    → ((j : ℕ) → lock_of v ≡ some j → owner j ≡ some p)
    → ((q j : ℕ) → q ≢ p → s.owner j ≡ some q → owner j ≡ some q)
    → LocksInv b s
    → LocksInv b (record s { owner = owner; text = text; stand = set_at s.stand p v })
changed-LocksInv b p v owner text s keeps mine others inv =
    let may : (q j : ℕ) → file_of (set_at s.stand p v q) ≡ some j → MayOpen b s j = λ q j e.
      elim (moved file_of s.stand p v q j e) [
        | inl (_, f) ↦ keeps j f
        | inr (_, f) ↦ (inv.made q j f, λ h. inv.current h q j f)
      ] in
    record {
      made = λ q j e. (may q j e).0;
      named = inv.named;
      owned = λ q j e. elim (moved lock_of s.stand p v q j e) [
        | inl (same, f) ↦ rw same (mine j f)
        | inr (other, f) ↦ others q j other (inv.owned q j f)
      ];
      current = λ h q j e. (may q j e).1 h;
    }

-- The file that p has open stays so.
pub may_keep :
    (b : Bool) (p i : ℕ) (s : Locks)
    → LocksInv b s
    → file_of (s.stand p) ≡ some i
    → (j : ℕ) → some i ≡ some j
    → MayOpen b s j
may_keep b p i s inv e j h = (inv.made p j (e ∙ h), λ g. inv.current g p j (e ∙ h))

-- The state with a file that has just been made, which nobody has open.
abbrev pub with_file : Locks → Locks
with_file s = record s {
  path = some s.files;
  files = s.files + 1;
  owner = set_at s.owner s.files none;
  text = set_at s.text s.files [];
}

pub with_file-LocksInv :
    (b : Bool) (s : Locks) → s.path ≡ none → LocksInv b s → LocksInv b (with_file s)
with_file-LocksInv b s none_there inv = record {
  made = λ q j e. omega (arith, inv.made q j e);
  named = λ j e. ground arith;
  owned = λ q j e.
      let below = inv.made q j (file_of-lock_of (s.stand q) j e) in ground (arith, inv.owned q j e);
  current = λ h q j e. absurd (cc (inv.current h q j e));
}
