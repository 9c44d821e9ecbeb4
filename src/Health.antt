-- ===== src/Health.antt =====
-- health_check.c and health_check.h: the four checks and the overall status. The system is a
-- parameter; of times and of what a check takes nothing is kept. A message is a constructor with
-- the numbers that it prints. Reports are not modelled, they print the state.
pub mod Overall
pub mod Objects
use repro_vm_virtual_machine.RateLimiter.{mask64}
use repro_vm_virtual_machine.Util.{slash}
use repro_vm_virtual_machine.Prelude.{
  codes, ℕ, ltb, take, zero, suc, ◌+◌, ◌-◌, ◌*◌, ◌≤◌, ◌<◌, if◌then◌else◌, ◌==◌, ◌++◌, ◌∷◌, [], List,
  true, false, Bool, ◌&&◌, ◌||◌, none, some, Option, refl, ◌≡◌, ◌≢◌, ◌∙◌, sym, arith, inl, inr, ◌⊎◌,
  ◌↔◌, Bool-cases, Option-cases, List-cases, length, Text, mem, count, All, not,
}

pub data HealthStatus : Type 0 where
  health_ok health_warning health_critical health_unknown : HealthStatus

-- The value of the enum.
abbrev pub rank : HealthStatus → ℕ
rank health_ok = 0
rank health_warning = 1
rank health_critical = 2
rank health_unknown = 3

abbrev pub health_status_name : HealthStatus → Text
health_status_name health_ok = codes "OK"
health_status_name health_warning = codes "WARNING"
health_status_name health_critical = codes "CRITICAL"
health_status_name health_unknown = codes "UNKNOWN"

pub data Message : Type 0 where
  no_message : Message
  entries : ℕ → Message
  objects : ℕ → ℕ → Message
  cannot_open not_there : Message
  disk_critical disk_high disk_normal cannot_stat : Message
  memory_high memory_normal : Message

pub record HealthCheckResult : Type 0 where
  pub status : HealthStatus
  pub message : Message

-- The first constructor of both is what `memset` leaves.
abbrev pub blank_result : HealthCheckResult
blank_result = record { status = health_ok; message = no_message }

pub record SystemHealth : Type 0 where
  pub overall_status : HealthStatus
  pub cache_health : HealthCheckResult
  pub cas_health : HealthCheckResult
  pub disk_health : HealthCheckResult
  pub memory_health : HealthCheckResult
  pub memory_usage_bytes : ℕ
  pub disk_usage_bytes : ℕ
  pub disk_available_bytes : ℕ

pub record Volume : Type 0 where
  pub bavail : ℕ
  pub blocks : ℕ
  pub frsize : ℕ

-- What the system answers: whether a path is a directory, what `readdir` lists, or `none` if it
-- cannot be opened, the size of a file, the volume and the memory. `above used total n` says
-- whether `(double)used / total * 100.0 > n`.
pub record Sys : Type 0 where
  pub is_dir : Text → Bool
  pub list : Text → Option (List Text)
  pub size : Text → Option ℕ
  pub volume : Text → Option Volume
  pub memory : ℕ
  pub above : ℕ → ℕ → ℕ → Bool

unfoldable pub health_init : SystemHealth
health_init = record {
  overall_status = health_unknown;
  cache_health = blank_result;
  cas_health = blank_result;
  disk_health = blank_result;
  memory_health = blank_result;
  memory_usage_bytes = 0;
  disk_usage_bytes = 0;
  disk_available_bytes = 0;
}

-- `entry->d_name[0] != '.'`
abbrev pub is_visible : Text → Bool
is_visible [] = true
is_visible (c ∷ s) = not (c == b'.')

module _ (sys : Sys) (cache_dir : Text) where
  -- The loop of `health_check_cache` over the entries.
  unfoldable pub count_entries : ℕ → List Text → ℕ
  count_entries n [] = n
  count_entries n (e ∷ es) = count_entries (if is_visible e then n + 1 else n) es

  unfoldable pub health_check_cache : HealthCheckResult
  health_check_cache =
      let path = take 511 (cache_dir ++ codes "/cache") in
      if sys.is_dir path
      then elim (sys.list path) [
        | some names ↦ record { status = health_ok; message = entries (count_entries 0 names) }
        | none ↦ record { status = health_warning; message = cannot_open }
      ]
      else record { status = health_warning; message = not_there }

  -- The inner loop of `health_check_cas`: the number of objects and their size.
  unfoldable pub count_objects : Text → ℕ × ℕ → List Text → ℕ × ℕ
  count_objects subdir sums [] = sums
  count_objects subdir sums (e ∷ es) =
      let path = take 2047 (subdir ++ slash ∷ e) in
      let added : ℕ = elim (sys.size path) [ none ↦ sums.1 | some k ↦ mask64 (sums.1 + k) ] in
      count_objects subdir (if is_visible e then (sums.0 + 1, added) else sums) es

  -- The outer loop, over the directories with the first two digits.
  unfoldable pub count_subdirs : Text → ℕ × ℕ → List Text → ℕ × ℕ
  count_subdirs cas_path sums [] = sums
  count_subdirs cas_path sums (e ∷ es) =
      let subdir = take 1023 (cas_path ++ slash ∷ e) in
      let inside : ℕ × ℕ = elim (sys.list subdir) [
        | none ↦ sums
        | some names ↦ count_objects subdir sums names
      ] in
      count_subdirs cas_path (if is_visible e then inside else sums) es

  unfoldable pub health_check_cas : HealthCheckResult
  health_check_cas =
      let path = take 511 (cache_dir ++ codes "/cas/objects") in
      if sys.is_dir path
      then elim (sys.list path) [
        | some names ↦
            let sums = count_subdirs path (0, 0) names in
            record { status = health_ok; message = objects sums.0 sums.1 }
        | none ↦ record { status = health_warning; message = cannot_open }
      ]
      else record { status = health_warning; message = not_there }

  -- `used` wraps if more is available than there is.
  unfoldable pub health_check_disk : SystemHealth → SystemHealth × HealthCheckResult
  health_check_disk h = elim (sys.volume cache_dir) [
    | none ↦ (h, record { status = health_critical; message = cannot_stat })
    | some v ↦
        let available = mask64 (v.bavail * v.frsize) in
        let total = mask64 (v.blocks * v.frsize) in
        let used = mask64 (total + 18446744073709551616 - available) in
        let h' = record h { disk_usage_bytes = used; disk_available_bytes = available } in
        if sys.above used total 90
        then (h', record { status = health_critical; message = disk_critical })
        else if sys.above used total 75
        then (h', record { status = health_warning; message = disk_high })
        else (h', record { status = health_ok; message = disk_normal })
  ]

  -- More than 1024 MB.
  unfoldable pub health_check_memory : SystemHealth → SystemHealth × HealthCheckResult
  health_check_memory h =
      let h' = record h { memory_usage_bytes = sys.memory } in
      if ltb 1073741824 sys.memory
      then (h', record { status = health_warning; message = memory_high })
      else (h', record { status = health_ok; message = memory_normal })

  -- `if (r.status > max_status) max_status = r.status;`
  abbrev pub raise : HealthStatus → HealthStatus → HealthStatus
  raise max s = if ltb (rank max) (rank s) then s else max

  unfoldable pub health_check_all : SystemHealth → SystemHealth
  health_check_all h =
      let cache = health_check_cache in
      let cas = health_check_cas in
      let disk = health_check_disk (record h { cache_health = cache; cas_health = cas }) in
      let memory = health_check_memory (record (disk.0) { disk_health = disk.1 }) in
      record (memory.0) {
        memory_health = memory.1;
        overall_status =
            raise (raise (raise (raise health_ok cache.status) cas.status) disk.1.status)
              memory.1.status;
      }

  abbrev pub health_get_overall_status : SystemHealth → HealthStatus
  health_get_overall_status h = h.overall_status
