-- ===== src/Util/Trim.antt =====
-- `trim` of util.c: nothing blank is left at either end, and a second call changes nothing.
use repro_vm_virtual_machine.Prelude.{
  ℕ, ◌≡◌, refl, inl, inr, false, [], ◌∷◌, Text, Bool-cases, List-cases,
}
use repro_vm_virtual_machine.Util.{is_blank, trim_start, trim_end, trim, cons_kept}

abbrev pub StartsClean : Text → Type 0
StartsClean [] = Unit
StartsClean (c ∷ s) = is_blank c ≡ false

abbrev pub EndsClean : Text → Type 0
EndsClean [] = Unit
EndsClean (c ∷ []) = is_blank c ≡ false
EndsClean (c ∷ d ∷ s) = EndsClean (d ∷ s)

trim_start-StartsClean : (s : Text) → StartsClean (trim_start s)
unfolding trim_start
trim_start-StartsClean [] = tt
trim_start-StartsClean (c ∷ s) = elim (Bool-cases (is_blank c)) [
  | inl e ↦ rw e (trim_start-StartsClean s)
  | inr e ↦ rw e e
]

cons_kept-EndsClean : (c : ℕ) (s : Text) → EndsClean s → EndsClean (cons_kept c s)
cons_kept-EndsClean c [] h = elim (Bool-cases (is_blank c)) [ inl e ↦ rw e tt | inr e ↦ rw e e ]
cons_kept-EndsClean c (d ∷ s) h = h

trim_end-EndsClean : (s : Text) → EndsClean (trim_end s)
unfolding trim_end
trim_end-EndsClean [] = tt
trim_end-EndsClean (c ∷ s) = cons_kept-EndsClean c (trim_end s) (trim_end-EndsClean s)

trim_end-StartsClean : (s : Text) → StartsClean s → StartsClean (trim_end s)
unfolding trim_end
trim_end-StartsClean [] h = tt
trim_end-StartsClean (c ∷ s) h = elim (List-cases (trim_end s)) [
  | inl e ↦ rw e (rw h h)
  | inr (d, r, e) ↦ rw e h
]

pub trim_start-eq : (s : Text) → StartsClean s → trim_start s ≡ s
unfolding trim_start
trim_start-eq [] h = refl
trim_start-eq (c ∷ s) h = rw h

pub trim_end-eq : (s : Text) → EndsClean s → trim_end s ≡ s
unfolding trim_end
trim_end-eq [] h = refl
trim_end-eq (c ∷ []) h = rw h
trim_end-eq (c ∷ d ∷ s) h = rw (trim_end-eq (d ∷ s) h)

pub trim-eq : (s : Text) → StartsClean s → EndsClean s → trim s ≡ s
unfolding trim
trim-eq s h k = rw (trim_start-eq s h) (trim_end-eq s k)

-- The string that `trim` leaves begins and ends with a byte that is not blank, unless it is empty,
-- and trimming it once more changes nothing.
pub trim_clean : (s : Text) → StartsClean (trim s) × EndsClean (trim s) × (trim (trim s) ≡ trim s)
trim_clean s = (starts s, ends s, trim-eq (trim s) (starts s) (ends s))
  where
    starts : (s : Text) → StartsClean (trim s)
    starts s = unfold trim in trim_end-StartsClean (trim_start s) (trim_start-StartsClean s)

    ends : (s : Text) → EndsClean (trim s)
    ends s = unfold trim in trim_end-EndsClean (trim_start s)
