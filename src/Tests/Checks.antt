-- ===== src/Tests/Checks.antt =====
-- The limiter, the retry loop, the checks of security.c and the configuration.
use repro_vm_virtual_machine.Prelude.Int.{pos}
use repro_vm_virtual_machine.Errors.{retry_operation}
use repro_vm_virtual_machine.Security.Safe.{is_within_directory_sibling, is_path_safe_no_dots}
use repro_vm_virtual_machine.Util.{pieces, slash}
use repro_vm_virtual_machine.Config.{
  config_load_from_env, config_load_from_file, config_init_defaults,
}
use repro_vm_virtual_machine.Config.Bounds.{Fits, config-Fits}
use repro_vm_virtual_machine.Security.{
  is_path_safe, validate_task_name, is_within_directory, validate_file_path,
}
use repro_vm_virtual_machine.Errors.Retry.{AllFail, calls, retry_operation_lem}
use repro_vm_virtual_machine.RateLimiter.Waiting.{Returns, rate_limiter_wait-Returns}
use repro_vm_virtual_machine.RateLimiter.Bucket.{
  IsBucket, rate_limiter_acquire_lem, rate_limiter_refill_wraps,
}
use repro_vm_virtual_machine.RateLimiter.{
  Limiter, rate_limiter_acquire, rate_limiter_refill, rate_limiter_wait,
}
use repro_vm_virtual_machine.Prelude.{
  codes, ℕ, suc, ◌+◌, ◌<◌, ◌==◌, true, false, Bool, none, some, refl, ◌≡◌, arith, ◌⊎◌, All,
  contains,
}

abbrev bucket : Limiter
bucket = record { capacity = 10; tokens = 4; refill_rate = 2; last_refill = 100; enabled = true }

bucket_fits : IsBucket bucket
bucket_fits = record { held = omega arith; small = omega arith }

rate_limiter_acquire_lem_example :
    ((rate_limiter_acquire 102 7 bucket).1 ≡ true)
    × ((rate_limiter_acquire 102 7 bucket).0.tokens ≡ 1)
rate_limiter_acquire_lem_example =
    rate_limiter_acquire_lem 102 7 bucket bucket_fits refl (omega arith)

abbrev fast : Limiter
fast = record bucket { refill_rate = 9223372036854775808 }

rate_limiter_refill_wraps_example :
    ((rate_limiter_refill 102 fast).tokens ≡ 4) × ((rate_limiter_refill 102 fast).last_refill ≡ 102)
rate_limiter_refill_wraps_example =
    rate_limiter_refill_wraps 102 1 fast (record { held = omega arith; small = omega arith })
      (omega arith) refl

rate_limiter_wait-Returns_example :
    Returns (rate_limiter_wait (λ n. 100 + n) 11 250 bucket) (λ l _. IsBucket l)
rate_limiter_wait-Returns_example =
    rate_limiter_wait-Returns (λ n. 100 + n) 11 250 bucket (omega arith) bucket_fits

-- It succeeds at its third call.
abbrev third : ℕ → ℕ × Bool
third n = (n + 1, n == 2)

retry_operation_lem_example :
    ((n : ℕ) × (n < 5)
      × AllFail third n 0
      × ((third (calls third n 0)).1 ≡ true)
      × (retry_operation third 5 0 ≡ (calls third (suc n) 0, true)))
    ⊎ (AllFail third 5 0 × (retry_operation third 5 0 ≡ (calls third 5 0, false)))
retry_operation_lem_example = retry_operation_lem third 5 0

safe_path : is_path_safe (codes "a/b.c") ≡ true
unfolding is_path_safe validate_file_path
safe_path = refl

is_path_safe_no_dots_example :
    All (λ p. contains (codes "..") p ≡ false) (pieces slash (codes "a/b.c"))
is_path_safe_no_dots_example = is_path_safe_no_dots (codes "a/b.c") safe_path

good_name : validate_task_name (codes "build-1") ≡ none
unfolding validate_task_name
good_name = refl

is_within_directory_sibling_example :
    is_within_directory (λ p. some p) (codes "/srv-evil") (codes "/srv") ≡ true
is_within_directory_sibling_example =
    is_within_directory_sibling (λ p. some p) (codes "/srv-evil") (codes "/srv") (codes "/srv")
      (codes "-evil") refl refl

config-Fits_example : Fits (
    config_load_from_env
      (λ _. some (codes "8"))
      (config_load_from_file (config_init_defaults (pos 8)) (some (codes "log_file=x"))).0)
config-Fits_example = config-Fits (pos 8) (some (codes "log_file=x")) (λ _. some (codes "8"))
