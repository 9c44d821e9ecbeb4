-- ===== src/RateLimiter/Waiting.antt =====
-- The two waiting loops of rate_limiter.c come to an end.
use repro_vm_virtual_machine.RateLimiter.Bucket.{IsBucket, rate_limiter_acquire-IsBucket}
use repro_vm_virtual_machine.RateLimiter.{
  wait_loop, rate_limiter_wait, resources_loop, resource_limits_wait_for_resources, Limiter, Limits,
  resource_limits_check, rate_limiter_acquire, resource_limits_update,
}
use repro_vm_virtual_machine.Prelude.{
  leb, ◌%◌, ℕ, zero, suc, ◌+◌, ◌≤◌, true, false, Bool, some, Option, refl, ◌≡◌, sym, arith, inl,
  inr, Bool-cases,
}

-- A result that satisfies P.
abbrev pub Returns {ℓ} : {A : Type ℓ} → Option (A × Bool) → (A → Bool → Type 0) → Type ℓ
Returns {A = A} r P = (a : A) × (ok : Bool) × (r ≡ some (a, ok)) × P a ok

wait_loop-IsBucket :
    (n : ℕ) (clock : ℕ → ℕ) (tokens timeout calls waited : ℕ) (l : Limiter)
    → timeout ≤ waited + n
    → timeout ≤ 2147483600
    → waited % 100 ≡ 0
    → IsBucket l
    → Returns (wait_loop (suc n) clock tokens timeout calls waited l) (λ l' _. IsBucket l')
unfolding wait_loop
wait_loop-IsBucket zero clock tokens timeout calls waited l h max even b =
    let tried = rate_limiter_acquire (clock calls) tokens l in
    let kept = rate_limiter_acquire-IsBucket (clock calls) tokens l b in
    let late : leb timeout waited ≡ true = ground arith in
    elim (Bool-cases tried.1) [
      | inl e ↦ (tried.0, true, rw e refl, kept)
      | inr e ↦ (tried.0, false, rw (e, late) refl, kept)
    ]
wait_loop-IsBucket (suc n) clock tokens timeout calls waited l h max even b =
    let tried = rate_limiter_acquire (clock calls) tokens l in
    let kept = rate_limiter_acquire-IsBucket (clock calls) tokens l b in
    let (r, ok, eq, good) =
      wait_loop-IsBucket n clock tokens timeout (suc calls) (waited + 100) tried.0 (omega arith) max
        (omega arith) kept in
    elim (Bool-cases tried.1) [
      | inl e ↦ (tried.0, true, rw e refl, kept)
      | inr e ↦ elim (Bool-cases (leb timeout waited)) [
        | inl late ↦ (tried.0, false, rw (e, late) refl, kept)
        | inr early ↦
            let fits : leb (waited + 100) 2147483647 ≡ true = ground arith in
            (r, ok, rw (e, early, fits) eq, good)
      ]
    ]

-- With a timeout of at most 2147483600 ms, `rate_limiter_wait` returns before its counter overflows,
-- whatever the clock says and how many tokens are asked for, and leaves a limiter that holds no more
-- than its capacity, if it did not before.
pub rate_limiter_wait-Returns :
    (clock : ℕ → ℕ) (tokens timeout : ℕ) (l : Limiter)
    → timeout ≤ 2147483600
    → IsBucket l
    → Returns (rate_limiter_wait clock tokens timeout l) (λ l' _. IsBucket l')
unfolding rate_limiter_wait
rate_limiter_wait-Returns clock tokens timeout l max b =
    let rounds : 2 + timeout ≡ suc (suc timeout) = omega arith in
    rw rounds (elim (Bool-cases l.enabled) [
      | inl e ↦
          let (r, ok, eq, good) =
            wait_loop-IsBucket (suc timeout) clock tokens timeout 0 0 l (omega arith) max refl b in
          (r, ok, simp e eq, good)
      | inr e ↦ (l, true, simp e refl, b)
    ])

resources_loop-Returns :
    (n : ℕ) (cpu memory : ℕ → ℕ) (timeout calls waited : ℕ) (l : Limits)
    → timeout ≤ waited + n
    → timeout ≤ 2147483500
    → waited % 500 ≡ 0
    → Returns
        (resources_loop (suc n) cpu memory timeout calls waited l)
        (λ l' ok. ok ≡ resource_limits_check l')
unfolding resources_loop
resources_loop-Returns zero cpu memory timeout calls waited l h max even =
    let late : leb timeout waited ≡ true = ground arith in
    elim (Bool-cases (resource_limits_check l)) [
      | inl e ↦ (l, true, rw e refl, sym e)
      | inr e ↦ (l, false, rw (e, late) refl, sym e)
    ]
resources_loop-Returns (suc n) cpu memory timeout calls waited l h max even =
    let updated = resource_limits_update (cpu calls) (memory calls) l in
    let (r, ok, eq, good) =
      resources_loop-Returns n cpu memory timeout (suc calls) (waited + 500) updated (omega arith)
        max (omega arith) in
    elim (Bool-cases (resource_limits_check l)) [
      | inl e ↦ (l, true, rw e refl, sym e)
      | inr e ↦ elim (Bool-cases (leb timeout waited)) [
        | inl late ↦ (l, false, rw (e, late) refl, sym e)
        | inr early ↦
            let fits : leb (waited + 500) 2147483647 ≡ true = ground arith in
            (r, ok, rw (e, early, fits) eq, good)
      ]
    ]

-- With a timeout of at most 2147483500 ms, and whatever the system measures, `resource_limits_wait_for_resources` returns, and its result says
-- whether the limits that it leaves pass `resource_limits_check`.
pub resource_limits_wait_for_resources-Returns :
    (cpu memory : ℕ → ℕ) (timeout : ℕ) (l : Limits)
    → timeout ≤ 2147483500
    → Returns
        (resource_limits_wait_for_resources cpu memory timeout l)
        (λ l' ok. ok ≡ resource_limits_check l')
unfolding resource_limits_wait_for_resources
resource_limits_wait_for_resources-Returns cpu memory timeout l max =
    let rounds : 2 + timeout ≡ suc (suc timeout) = omega arith in
    rw rounds (elim (Bool-cases l.enabled) [
      | inl e ↦
          let (r, ok, eq, good) =
            resources_loop-Returns (suc timeout) cpu memory timeout 0 0 l (omega arith) max refl in
          (r, ok, simp e eq, good)
      | inr e ↦ (l, true, simp e refl, unfold resource_limits_check in simp e refl)
    ])
