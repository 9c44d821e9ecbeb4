-- ===== src/Errors/Retry.antt =====
-- `retry_operation` calls the function again after each failure, and no more often than it may.
use repro_vm_virtual_machine.Errors.{retry_operation}
use repro_vm_virtual_machine.Prelude.{
  ℕ, zero, suc, ◌<◌, true, false, Bool, refl, ◌≡◌, arith, inl, inr, ◌⊎◌, Bool-cases,
}

-- The state after n calls that nothing stops.
abbrev pub calls {ℓ} : {S : Type ℓ} → (S → S × Bool) → ℕ → S → S
calls func zero s = s
calls func (suc n) s = calls func n (func s).0

-- The first n calls fail.
abbrev pub AllFail {ℓ} : {S : Type ℓ} → (S → S × Bool) → ℕ → S → Type 0
AllFail func zero s = Unit
AllFail func (suc n) s = ((func s).1 ≡ false) × AllFail func n (func s).0

-- Either the function succeeded at its n-th call after failures only, within the attempts allowed,
-- and `retry_operation` stopped there and returned 0; or all attempts failed, and it returned -1.
pub retry_operation_lem {ℓ} :
    {S : Type ℓ} (func : S → S × Bool) (attempts : ℕ) (s : S)
    → ((n : ℕ) × (n < attempts)
        × AllFail func n s
        × ((func (calls func n s)).1 ≡ true)
        × (retry_operation func attempts s ≡ (calls func (suc n) s, true)))
      ⊎ (AllFail func attempts s
          × (retry_operation func attempts s ≡ (calls func attempts s, false)))
unfolding retry_operation
retry_operation_lem func zero s = inr (tt, refl)
retry_operation_lem func (suc attempts) s = elim (Bool-cases (func s).1) [
  | inl e ↦ inl (0, omega arith, tt, e, rw e refl)
  | inr e ↦ elim (retry_operation_lem func attempts (func s).0) [
    | inl (n, le, fails, good, eq) ↦ inl (suc n, omega arith, (e, fails), good, rw e eq)
    | inr (fails, eq) ↦ inr ((e, fails), rw e eq)
  ]
]
