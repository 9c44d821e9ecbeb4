-- ===== src/Util/Csv.antt =====
-- `split_csv_array` and `join_strings` of util.c: what the tokens look like, and the round trip.
use repro_vm_virtual_machine.Prelude.{
  ℕ, ◌≡◌, refl, inl, inr, false, List, [], ◌∷◌, ◌++◌, Text, arith, Bool-cases, All, mem, map, ap,
  ◌==◌, ◌∙◌,
}
use repro_vm_virtual_machine.Util.{
  trim_start, trim_end, trim, cons_kept, cons_head, comma, pieces, is_empty, keep_nonempty,
  split_csv_array, join_strings,
}
use repro_vm_virtual_machine.Util.Trim.{StartsClean, EndsClean, trim-eq, trim_clean}

-- What `split_csv_array` gives: not empty, no blank at either end, no comma inside.
abbrev pub IsToken : Text → Type 0
IsToken p = (is_empty p ≡ false) × StartsClean p × EndsClean p × (mem comma p ≡ false)

pub mem-trim_start : (sep : ℕ) (s : Text) → mem sep s ≡ false → mem sep (trim_start s) ≡ false
unfolding trim_start
mem-trim_start sep [] h = refl
mem-trim_start sep (c ∷ s) h = ground (arith, mem-trim_start sep s)

mem-cons_kept :
    (sep c : ℕ) (s : Text)
    → (c == sep) ≡ false
    → mem sep s ≡ false
    → mem sep (cons_kept c s) ≡ false
mem-cons_kept sep c [] h k = ground arith
mem-cons_kept sep c (d ∷ s) h k = ground arith

pub mem-trim_end : (sep : ℕ) (s : Text) → mem sep s ≡ false → mem sep (trim_end s) ≡ false
unfolding trim_end
mem-trim_end sep [] h = refl
mem-trim_end sep (c ∷ s) h =
    mem-cons_kept sep c (trim_end s) (ground arith) (mem-trim_end sep s (ground arith))

pub mem-trim : (sep : ℕ) (s : Text) → mem sep s ≡ false → mem sep (trim s) ≡ false
unfolding trim
mem-trim sep s h = mem-trim_end sep (trim_start s) (mem-trim_start sep s h)

abbrev pub Lacks : ℕ → Text → Type 0
Lacks sep p = mem sep p ≡ false

cons_head-Lacks :
    (sep c : ℕ) (ps : List Text)
    → (c == sep) ≡ false
    → All (Lacks sep) ps
    → All (Lacks sep) (cons_head c ps)
cons_head-Lacks sep c [] h k = (ground arith, tt)
cons_head-Lacks sep c (p ∷ ps) h k = (ground arith, k.1)

pub pieces-Lacks : (sep : ℕ) (s : Text) → All (Lacks sep) (pieces sep s)
unfolding pieces
pieces-Lacks sep [] = (refl, tt)
pieces-Lacks sep (c ∷ s) = elim (Bool-cases (c == sep)) [
  | inl e ↦ rw e (refl, pieces-Lacks sep s)
  | inr e ↦ rw e (cons_head-Lacks sep c (pieces sep s) e (pieces-Lacks sep s))
]

keep_nonempty-IsToken :
    (ps : List Text) → All (Lacks comma) ps → All IsToken (keep_nonempty (map trim ps))
unfolding keep_nonempty
keep_nonempty-IsToken [] h = tt
keep_nonempty-IsToken (p ∷ ps) h = elim (Bool-cases (is_empty (trim p))) [
  | inl e ↦ rw e (keep_nonempty-IsToken ps h.1)
  | inr e ↦
      let (starts, ends, _) = trim_clean p in
      rw e ((e, starts, ends, mem-trim comma p h.0), keep_nonempty-IsToken ps h.1)
]

-- Every token that `split_csv_array` returns is non-empty, has no blank at its ends and holds no
-- comma, whatever the line is.
pub split_csv_array-IsToken : (line : Text) → All IsToken (split_csv_array line)
unfolding split_csv_array
split_csv_array-IsToken line = keep_nonempty-IsToken (pieces comma line) (pieces-Lacks comma line)

pub pieces_whole : (sep : ℕ) (p : Text) → mem sep p ≡ false → pieces sep p ≡ p ∷ []
unfolding pieces
pieces_whole sep [] h = refl
pieces_whole sep (c ∷ p) h =
    let e : (c == sep) ≡ false = ground arith in rw (e, pieces_whole sep p (ground arith)) refl

pub pieces_cut :
    (sep : ℕ) (p rest : Text)
    → mem sep p ≡ false
    → pieces sep (p ++ sep ∷ rest) ≡ p ∷ pieces sep rest
unfolding pieces
pieces_cut sep [] rest h = ground arith
pieces_cut sep (c ∷ p) rest h =
    let e : (c == sep) ≡ false = ground arith in rw (e, pieces_cut sep p rest (ground arith)) refl

keep_cons :
    (p : Text) (ps : List Text)
    → IsToken p
    → keep_nonempty (map trim (p ∷ ps)) ≡ p ∷ keep_nonempty (map trim ps)
unfolding keep_nonempty
keep_cons p ps h = rw (trim-eq p h.1 h.2) (rw h.0 refl)

-- Joining tokens by commas and splitting the line gives the tokens back, in order.
pub split_csv_array-join_strings :
    (ps : List Text) → All IsToken ps → split_csv_array (join_strings ps (comma ∷ [])) ≡ ps
unfolding split_csv_array join_strings
split_csv_array-join_strings [] h = refl
split_csv_array-join_strings (p ∷ []) h = rw (pieces_whole comma p (h.0.3)) (keep_cons p [] h.0)
split_csv_array-join_strings (p ∷ q ∷ ps) h =
    rw (pieces_cut comma p (join_strings (q ∷ ps) (comma ∷ [])) (h.0.3)) (
      keep_cons p (pieces comma (join_strings (q ∷ ps) (comma ∷ []))) h.0
      ∙ ap (λ t. p ∷ t) (split_csv_array-join_strings (q ∷ ps) h.1))
