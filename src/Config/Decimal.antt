-- ===== src/Config/Decimal.antt =====
-- `printf` with `%d`, and `atoi` on what it prints.
use repro_vm_virtual_machine.Config.Lines.{IsPlain, IsShown-IsPlain}
use repro_vm_virtual_machine.Prelude.{
  IsShown, ℕ, is_space, ltb, ◌/◌, ◌%◌, ◌^◌, zero, suc, ◌+◌, ◌*◌, ◌≤◌, ◌<◌, ◌==◌, ◌++◌, ◌∷◌, [],
  true, false, refl, ◌≡◌, ◌∙◌, arith, inl, inr, Bool-cases, length, Text, All, ap,
}
use repro_vm_virtual_machine.Prelude.Int.{ℤ, pos, negsuc}
use repro_vm_virtual_machine.Config.Save.{put_digits, decimal}
use repro_vm_virtual_machine.Config.{
  digits_value, negate, atoi, signed_value, leb, skip_spaces, is_empty,
}

-- The values of an `int`.
abbrev pub IsInt : ℤ → Type 0
IsInt (pos n) = n < 2147483648
IsInt (negsuc n) = n < 2147483648

digits_value-digit :
    (v d : ℕ) (acc : Text)
    → d < 10
    → digits_value v ((48 + d) ∷ acc) ≡ digits_value (10 * v + d) acc
digits_value-digit v d acc h =
    let low : leb 48 (48 + d) ≡ true = ground arith in
    let high : leb (48 + d) 57 ≡ true = ground arith in
    rw (low, high) (ap (λ w. digits_value w acc) (omega arith))

-- The room for the digits is enough.
pub digits_value-put_digits :
    (k n : ℕ) (acc : Text)
    → n < 10 ^ suc k
    → digits_value 0 (put_digits k n acc) ≡ digits_value n acc
unfolding put_digits
digits_value-put_digits zero n acc h =
    digits_value-digit 0 (n % 10) acc (omega arith) ∙ ap (λ w. digits_value w acc) (omega arith)
digits_value-put_digits (suc k) n acc h = elim (Bool-cases (ltb n 10)) [
  | inl small ↦
      rw small
        (digits_value-digit 0 n acc (ground arith) ∙ ap (λ w. digits_value w acc) (omega arith))
  | inr large ↦
      let below : n / 10 < 10 ^ suc k = omega arith in
      rw large (
        digits_value-put_digits k (n / 10) ((48 + n % 10) ∷ acc) below
        ∙ (digits_value-digit (n / 10) (n % 10) acc (omega arith)
            ∙ ap (λ w. digits_value w acc) (omega arith)))
]

-- Every byte is a digit, and there are at most k + 1 of them in front.
abbrev pub IsDigits : Text → Type 0
IsDigits s = All (λ c. (48 ≤ c) × (c ≤ 57)) s

put_digits-IsDigits : (k n : ℕ) (acc : Text) → IsDigits acc → IsDigits (put_digits k n acc)
unfolding put_digits
put_digits-IsDigits zero n acc h = ((omega arith, omega arith), h)
put_digits-IsDigits (suc k) n acc h = elim (Bool-cases (ltb n 10)) [
  | inl small ↦ rw small ((omega arith, ground arith), h)
  | inr large ↦
      rw large
        (put_digits-IsDigits k (n / 10) ((48 + n % 10) ∷ acc) ((omega arith, omega arith), h))
]

length-put_digits : (k n : ℕ) (acc : Text) → length (put_digits k n acc) ≤ suc k + length acc
unfolding put_digits
length-put_digits zero n acc = omega arith
length-put_digits (suc k) n acc = elim (Bool-cases (ltb n 10)) [
  | inl small ↦ rw small (omega arith)
  | inr large ↦ rw large (omega (arith, length-put_digits k (n / 10) ((48 + n % 10) ∷ acc)))
]

-- What `%d` prints starts with a digit, or with the sign.
pub put_digits_first :
    (k n : ℕ) (acc : Text)
    → (c : ℕ) × (rest : Text) × (put_digits k n acc ≡ c ∷ rest) × (48 ≤ c) × (c ≤ 57)
unfolding put_digits
put_digits_first zero n acc = (48 + n % 10, acc, refl, omega arith, omega arith)
put_digits_first (suc k) n acc = elim (Bool-cases (ltb n 10)) [
  | inl small ↦ (48 + n, acc, rw small refl, omega arith, ground arith)
  | inr large ↦
      let (c, rest, e, low, high) = put_digits_first k (n / 10) ((48 + n % 10) ∷ acc) in
      (c, rest, rw large e, low, high)
]

signed_value-digits :
    (s : Text) (c : ℕ) (rest : Text)
    → s ≡ c ∷ rest
    → 48 ≤ c
    → c ≤ 57
    → signed_value (skip_spaces s) ≡ pos (digits_value 0 s)
signed_value-digits s c rest e low high =
    let plus : (c == b'+') ≡ false = ground arith in
    let minus : (c == b'-') ≡ false = ground arith in
    let blank : is_space c ≡ false = ground arith in rw (e, blank, minus, plus) refl

pub atoi-decimal : (z : ℤ) → IsInt z → atoi (decimal z) ≡ z
unfolding atoi decimal
atoi-decimal (pos n) h =
    let (c, rest, e, low, high) = put_digits_first 19 n [] in
    signed_value-digits (put_digits 19 n []) c rest e low high
    ∙ ap pos (digits_value-put_digits 19 n [] (omega arith))
atoi-decimal (negsuc n) h = ap negate (digits_value-put_digits 19 (suc n) [] (omega arith))

digits-IsShown : (s : Text) → IsDigits s → IsShown s
digits-IsShown [] h = tt
digits-IsShown (c ∷ s) h = let (low, high) = h.0 in (omega arith, digits-IsShown s h.1)

put_digits_filled : (k n : ℕ) (acc : Text) → is_empty (put_digits k n acc) ≡ false
unfolding put_digits
put_digits_filled zero n acc = refl
put_digits_filled (suc k) n acc = elim (Bool-cases (ltb n 10)) [
  | inl small ↦ rw small refl
  | inr large ↦ rw large (put_digits_filled k (n / 10) ((48 + n % 10) ∷ acc))
]

pub decimal-IsPlain : (z : ℤ) → IsPlain (decimal z)
unfolding decimal
decimal-IsPlain (pos n) =
    IsShown-IsPlain (put_digits 19 n []) (put_digits_filled 19 n [])
      (omega (arith, length-put_digits 19 n []))
      (digits-IsShown (put_digits 19 n []) (put_digits-IsDigits 19 n [] tt))
decimal-IsPlain (negsuc n) =
    IsShown-IsPlain (b'-' ∷ put_digits 19 (suc n) []) refl
      (omega (arith, length-put_digits 19 (suc n) []))
      (
        omega arith,
        digits-IsShown (put_digits 19 (suc n) []) (put_digits-IsDigits 19 (suc n) [] tt),
      )

pub put_digits-append :
    (k n : ℕ) (acc t : Text) → put_digits k n acc ++ t ≡ put_digits k n (acc ++ t)
unfolding put_digits
put_digits-append zero n acc t = refl
put_digits-append (suc k) n acc t = elim (Bool-cases (ltb n 10)) [
  | inl small ↦ rw small refl
  | inr large ↦ rw large (put_digits-append k (n / 10) ((48 + n % 10) ∷ acc) t)
]
