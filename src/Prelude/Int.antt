-- ===== src/Prelude/Int.antt =====
-- The `int` of C as an integer, under the library's names (its ℤ stands on the unary ℕ).
use Prim.Native.Nat.{ℕ, zero, suc, ◌+◌, ◌-◌}
use mathlib.Core.Bool.{Bool, true, false}
use repro_vm_virtual_machine.Prelude.Tests.{ltb, if◌then◌else◌}

-- `negsuc n` is -(n + 1).
pub data ℤ : Type 0 where
  pos : ℕ → ℤ
  negsuc : ℕ → ℤ

-- `x--`
abbrev pub pred_ℤ : ℤ → ℤ
pred_ℤ (pos zero) = negsuc 0
pred_ℤ (pos (suc n)) = pos n
pred_ℤ (negsuc n) = negsuc (suc n)

-- `x == 0`
abbrev pub is_zero : ℤ → Bool
is_zero (pos zero) = true
is_zero (pos (suc n)) = false
is_zero (negsuc n) = false

-- `x < n` and `x > n` for a constant n that is not negative
abbrev pub ltb_ℤ : ℤ → ℕ → Bool
ltb_ℤ (pos m) n = ltb m n
ltb_ℤ (negsuc m) n = true

abbrev pub gtb_ℤ : ℤ → ℕ → Bool
gtb_ℤ (pos m) n = ltb n m
gtb_ℤ (negsuc m) n = false

-- `x += n`
abbrev pub plus_ℤ : ℤ → ℕ → ℤ
plus_ℤ (pos m) n = pos (m + n)
plus_ℤ (negsuc m) n = if ltb m n then pos (n - m - 1) else negsuc (m - n)
