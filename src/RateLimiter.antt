-- ===== src/RateLimiter.antt =====
-- rate_limiter.c and rate_limiter.h: the token bucket and the resource limits. `uint64_t` wraps.
-- The clock is a parameter: `clock n` is what the n-th call of `time` returns, in seconds. The
-- counters of type `int`, which only defaults, options and measurements set, are never negative, and a
-- negative timeout acts like 0.
pub mod Bucket
pub mod Waiting
use repro_vm_virtual_machine.Prelude.{
  ltb, leb, ◌%◌, ◌^◌, ℕ, zero, suc, ◌+◌, ◌-◌, ◌*◌, ◌≤◌, ◌<◌, if◌then◌else◌, ◌==◌, ◌++◌, ◌∷◌, [],
  List, true, false, Bool, ◌&&◌, ◌||◌, none, some, Option, refl, ◌≡◌, ◌≢◌, ◌∙◌, sym, arith, inl,
  inr, ◌⊎◌, ◌↔◌, Bool-cases, Option-cases, List-cases, length, Text, mem, count, All, not,
}

abbrev pub mask64 : ℕ → ℕ
mask64 n = n % 18446744073709551616

pub record Limiter : Type 0 where
  pub capacity : ℕ
  pub tokens : ℕ
  pub refill_rate : ℕ
  pub last_refill : ℕ
  pub enabled : Bool

unfoldable pub rate_limiter_create : ℕ → ℕ → ℕ → Limiter
rate_limiter_create capacity refill_rate now = record {
  capacity = capacity;
  tokens = capacity;
  refill_rate = refill_rate;
  last_refill = now;
  enabled = true;
}

-- `elapsed` is not positive unless the clock went forward.
unfoldable pub rate_limiter_refill : ℕ → Limiter → Limiter
rate_limiter_refill now l =
    let new_tokens = mask64 ((now - l.last_refill) * l.refill_rate) in
    let tokens = mask64 (l.tokens + new_tokens) in
    if ltb l.last_refill now
    then record l {
      tokens = if ltb l.capacity tokens then l.capacity else tokens;
      last_refill = now;
    }
    else l

-- `true` is the return value 0.
unfoldable pub rate_limiter_acquire : ℕ → ℕ → Limiter → Limiter × Bool
rate_limiter_acquire now tokens l =
    let filled = rate_limiter_refill now l in
    if not l.enabled
    then (l, true)
    else if leb tokens filled.tokens
    then (record filled { tokens = filled.tokens - tokens }, true)
    else (filled, false)

-- The loop of `rate_limiter_wait`: `calls` counts the calls of `time`. `none` is no defined result: out
-- of fuel, or `waited`, an `int`, overflows.
unfoldable pub wait_loop : ℕ → (ℕ → ℕ) → ℕ → ℕ → ℕ → ℕ → Limiter → Option (Limiter × Bool)
wait_loop zero clock tokens timeout calls waited l = none
wait_loop (suc fuel) clock tokens timeout calls waited l =
    let tried = rate_limiter_acquire (clock calls) tokens l in
    let next = wait_loop fuel clock tokens timeout (suc calls) (waited + 100) tried.0 in
    let later = if leb (waited + 100) 2147483647 then next else none in
    if tried.1
    then some (tried.0, true)
    else if leb timeout waited
    then some (tried.0, false)
    else later

-- A round that does not end the loop waits 100 ms, so there are fewer rounds than that.
unfoldable pub rate_limiter_wait : (ℕ → ℕ) → ℕ → ℕ → Limiter → Option (Limiter × Bool)
rate_limiter_wait clock tokens timeout l =
    if not l.enabled then some (l, true) else wait_loop (2 + timeout) clock tokens timeout 0 0 l

pub record Limits : Type 0 where
  pub max_cpu_percent : ℕ
  pub current_cpu_percent : ℕ
  pub max_memory_bytes : ℕ
  pub current_memory_bytes : ℕ
  pub max_disk_bytes : ℕ
  pub current_disk_bytes : ℕ
  pub max_concurrent_tasks : ℕ
  pub current_concurrent_tasks : ℕ
  pub max_tasks_per_second : ℕ
  pub max_cache_ops_per_second : ℕ
  pub task_timeout_seconds : ℕ
  pub cache_timeout_seconds : ℕ
  pub enabled : Bool

unfoldable pub resource_limits_create : Limits
resource_limits_create = record {
  max_cpu_percent = 80;
  current_cpu_percent = 0;
  max_memory_bytes = 4294967296;
  current_memory_bytes = 0;
  max_disk_bytes = 107374182400;
  current_disk_bytes = 0;
  max_concurrent_tasks = 16;
  current_concurrent_tasks = 0;
  max_tasks_per_second = 100;
  max_cache_ops_per_second = 1000;
  task_timeout_seconds = 3600;
  cache_timeout_seconds = 60;
  enabled = true;
}

unfoldable pub resource_limits_check : Limits → Bool
resource_limits_check l =
    if not l.enabled
    then true
    else if ltb l.max_cpu_percent l.current_cpu_percent
    then false
    else if ltb l.max_memory_bytes l.current_memory_bytes
    then false
    else if ltb l.max_disk_bytes l.current_disk_bytes
    then false
    else if leb l.max_concurrent_tasks l.current_concurrent_tasks
    then false
    else true

-- `get_cpu_usage` and `get_memory_usage` are what the system measures.
unfoldable pub resource_limits_update : ℕ → ℕ → Limits → Limits
resource_limits_update cpu memory l =
    if l.enabled then record l { current_cpu_percent = cpu; current_memory_bytes = memory } else l

-- The n-th update reads `cpu n` and `memory n`. `none` is as in `wait_loop`.
unfoldable pub resources_loop : ℕ → (ℕ → ℕ) → (ℕ → ℕ) → ℕ → ℕ → ℕ → Limits → Option (Limits × Bool)
resources_loop zero cpu memory timeout calls waited l = none
resources_loop (suc fuel) cpu memory timeout calls waited l =
    let updated = resource_limits_update (cpu calls) (memory calls) l in
    let next = resources_loop fuel cpu memory timeout (suc calls) (waited + 500) updated in
    let later = if leb (waited + 500) 2147483647 then next else none in
    if resource_limits_check l
    then some (l, true)
    else if leb timeout waited
    then some (l, false)
    else later

unfoldable pub resource_limits_wait_for_resources :
    (ℕ → ℕ) → (ℕ → ℕ) → ℕ → Limits → Option (Limits × Bool)
resource_limits_wait_for_resources cpu memory timeout l =
    if not l.enabled then some (l, true) else resources_loop (2 + timeout) cpu memory timeout 0 0 l
