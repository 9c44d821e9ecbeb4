-- ===== src/RateLimiter/Bucket.antt =====
-- The token bucket as long as no 64-bit number wraps, and what happens when one does.
use repro_vm_virtual_machine.Sha.{mask64}
use repro_vm_virtual_machine.RateLimiter.{Limiter, rate_limiter_refill, rate_limiter_acquire}
use repro_vm_virtual_machine.Prelude.{
  ltb, ℕ, ◌+◌, ◌-◌, ◌*◌, ◌≤◌, ◌<◌, if◌then◌else◌, true, false, Bool, refl, ◌≡◌, arith, inl, inr,
  ◌⊎◌, Bool-cases, leb, ap, not,
}

-- No more tokens than the bucket holds, and numbers that fit.
pub record IsBucket (l : Limiter) : Type 0 where
  pub held : l.tokens ≤ l.capacity
  pub small : l.capacity < 18446744073709551616

-- The tokens after a refill: the old and the new, but no more than the bucket holds.
abbrev pub available : ℕ → Limiter → ℕ
available now l =
    let all = l.tokens + (now - l.last_refill) * l.refill_rate in
    if ltb l.capacity all then l.capacity else all

mask64_small : (n : ℕ) → n < 18446744073709551616 → mask64 n ≡ n
mask64_small n h = omega arith

no_time : (a b r : ℕ) → b ≤ a → (b - a) * r ≡ 0
no_time a b r h = let e : b - a ≡ 0 = omega arith in rw e (omega arith)

refill_cases :
    (now : ℕ) (l : Limiter)
    → (rate_limiter_refill now l ≡ l)
      ⊎ ((rate_limiter_refill now l).tokens ≤ l.capacity)
        × ((rate_limiter_refill now l).capacity ≡ l.capacity)
unfolding rate_limiter_refill
refill_cases now l = elim (Bool-cases (ltb l.last_refill now)) [
  | inl e ↦ rw e (inr (ground arith, refl))
  | inr e ↦ rw e (inl refl)
]

refill_tokens :
    (now : ℕ) (l : Limiter)
    → IsBucket l
    → l.tokens + (now - l.last_refill) * l.refill_rate < 18446744073709551616
    → (rate_limiter_refill now l).tokens ≡ available now l
unfolding rate_limiter_refill
refill_tokens now l b fits =
    let new = (now - l.last_refill) * l.refill_rate in
    let keep_new : mask64 new ≡ new = mask64_small new (omega arith) in
    let keep_all : mask64 (l.tokens + new) ≡ l.tokens + new = mask64_small (l.tokens + new) fits in
    elim (Bool-cases (ltb l.last_refill now)) [
      | inl e ↦ rw e (rw keep_new (rw keep_all refl))
      | inr e ↦
          let none_new = no_time l.last_refill now l.refill_rate (ground arith) in
          rw e (ground (arith, none_new))
    ]

abbrev granted : ℕ → Limiter → Limiter × Bool
granted tokens filled =
    if leb tokens filled.tokens
    then (record filled { tokens = filled.tokens - tokens }, true)
    else (filled, false)

acquire_on :
    (now tokens : ℕ) (l : Limiter)
    → l.enabled ≡ true
    → rate_limiter_acquire now tokens l ≡ granted tokens (rate_limiter_refill now l)
unfolding rate_limiter_acquire
acquire_on now tokens l e =
    ap (λ on. if not on then (l, true) else granted tokens (rate_limiter_refill now l)) e

acquire_off :
    (now tokens : ℕ) (l : Limiter)
    → l.enabled ≡ false
    → rate_limiter_acquire now tokens l ≡ (l, true)
unfolding rate_limiter_acquire
acquire_off now tokens l e =
    ap (λ on. if not on then (l, true) else granted tokens (rate_limiter_refill now l)) e

granted-IsBucket : (tokens : ℕ) (l : Limiter) → IsBucket l → IsBucket (granted tokens l).0
granted-IsBucket tokens l b = elim (Bool-cases (leb tokens l.tokens)) [
  | inl e ↦ rw e (record { held = omega (arith, b.held); small = b.small })
  | inr e ↦ rw e b
]

refill-IsBucket : (now : ℕ) (l : Limiter) → IsBucket l → IsBucket (rate_limiter_refill now l)
refill-IsBucket now l b = elim (refill_cases now l) [
  | inl same ↦ rw same b
  | inr (le, same) ↦ record { held = omega (arith, le, same); small = omega (arith, same, b.small) }
]

-- Whatever the clock says, and with wrapping, the bucket never holds more than its capacity.
pub rate_limiter_acquire-IsBucket :
    (now tokens : ℕ) (l : Limiter) → IsBucket l → IsBucket (rate_limiter_acquire now tokens l).0
rate_limiter_acquire-IsBucket now tokens l b = elim (Bool-cases l.enabled) [
  | inr e ↦ rw (acquire_off now tokens l e) b
  | inl e ↦
      rw (acquire_on now tokens l e)
        (granted-IsBucket tokens (rate_limiter_refill now l) (refill-IsBucket now l b))
]

-- As long as the tokens and the new ones fit 64 bits together, an enabled limiter grants a request
-- if and only if the old tokens and the new, cut to the capacity, are enough; it takes exactly the
-- tokens asked for, or none.
pub rate_limiter_acquire_lem :
    (now tokens : ℕ) (l : Limiter)
    → IsBucket l
    → l.enabled ≡ true
    → l.tokens + (now - l.last_refill) * l.refill_rate < 18446744073709551616
    → ((rate_limiter_acquire now tokens l).1 ≡ leb tokens (available now l))
      × ((rate_limiter_acquire now tokens l).0.tokens
          ≡ (if leb tokens (available now l) then available now l - tokens else available now l))
rate_limiter_acquire_lem now tokens l b on fits =
    rw (acquire_on now tokens l on)
      (granted_lem (rate_limiter_refill now l) (refill_tokens now l b fits))
  where
    granted_lem :
        (f : Limiter)
        → f.tokens ≡ available now l
        → ((granted tokens f).1 ≡ leb tokens (available now l))
          × ((granted tokens f).0.tokens ≡ (
              if leb tokens (available now l) then available now l - tokens else available now l))
    granted_lem f e = elim (Bool-cases (leb tokens f.tokens)) [
      | inl h ↦ rw (← e, h) (refl, refl)
      | inr h ↦ rw (← e, h) (refl, refl)
    ]

-- If the new tokens are a multiple of 2^64, a refill adds none of them, but counts the time as
-- used: the bucket keeps its tokens, and the clock of the limiter moves on.
pub rate_limiter_refill_wraps :
    (now m : ℕ) (l : Limiter)
    → IsBucket l
    → l.last_refill < now
    → (now - l.last_refill) * l.refill_rate ≡ m * 18446744073709551616
    → ((rate_limiter_refill now l).tokens ≡ l.tokens)
      × ((rate_limiter_refill now l).last_refill ≡ now)
unfolding rate_limiter_refill
rate_limiter_refill_wraps now m l b later wraps =
    let go : ltb l.last_refill now ≡ true = ground arith in rw go (rw wraps (ground arith, refl))
