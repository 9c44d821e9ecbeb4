-- ===== src/Util/Hex.antt =====
-- `hex_encode` of util.c: two lowercase hexadecimal digits for each byte, and nothing is lost.
use repro_vm_virtual_machine.Prelude.{
  ℕ, ◌≡◌, refl, List, [], ◌∷◌, Text, arith, ◌+◌, ◌*◌, ◌-◌, ◌/◌, ◌%◌, ◌<◌, ◌≤◌, ltb, if◌then◌else◌,
  All, length, ◌⊎◌,
}
use repro_vm_virtual_machine.Util.{hex_digit, hex_encode}

abbrev pub IsHexDigit : ℕ → Type 0
IsHexDigit c = ((b'0' ≤ c) × (c ≤ b'9')) ⊎ ((b'a' ≤ c) × (c ≤ b'f'))

hex_digit-IsHexDigit : (n : ℕ) → n < 16 → IsHexDigit (hex_digit n)
unfolding hex_digit
hex_digit-IsHexDigit n h = ground arith

-- The value of a lowercase hexadecimal digit.
pub hex_value : ℕ → ℕ
hex_value c = if ltb c b'a' then c - b'0' else c - b'a' + 10

hex_value-hex_digit : (n : ℕ) → n < 16 → hex_value (hex_digit n) ≡ n
unfolding hex_digit hex_value
hex_value-hex_digit n h = ground arith

-- An independent decoder: pairs of digits to bytes.
abbrev pub hex_decode : Text → List ℕ
hex_decode [] = []
hex_decode (_ ∷ []) = []
hex_decode (a ∷ b ∷ s) = (hex_value a * 16 + hex_value b) ∷ hex_decode s

abbrev pub IsByte : ℕ → Type 0
IsByte b = b < 256

-- The encoding of any byte string decodes to it, so no two byte strings share an encoding.
pub hex_decode-hex_encode : (bs : List ℕ) → All IsByte bs → hex_decode (hex_encode bs) ≡ bs
unfolding hex_encode
hex_decode-hex_encode [] h = refl
hex_decode-hex_encode (b ∷ bs) h = ground (
  arith,
  hex_value-hex_digit (b / 16 % 16),
  hex_value-hex_digit (b % 16),
  hex_decode-hex_encode bs h.1,
)

-- The encoding has two characters for each byte, each of them one of 0-9 and a-f.
pub hex_encode_digits :
    (bs : List ℕ) → (length (hex_encode bs) ≡ 2 * length bs) × All IsHexDigit (hex_encode bs)
unfolding hex_encode
hex_encode_digits [] = (omega arith, tt)
hex_encode_digits (b ∷ bs) =
    let (long, digits) = hex_encode_digits bs in
    (
      omega arith,
      (
        hex_digit-IsHexDigit (b / 16 % 16) (omega arith),
        (hex_digit-IsHexDigit (b % 16) (omega arith), digits),
      ),
    )
