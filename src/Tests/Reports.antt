-- ===== src/Tests/Reports.antt =====
-- metrics.c with whole numbers for times, and health_check.c on a small system.
use repro_vm_virtual_machine.Sha.{mask64}
use repro_vm_virtual_machine.Prelude.{
  codes, ltb, ◌/◌, ℕ, str_eq, ◌+◌, ◌*◌, ◌≤◌, ◌<◌, if◌then◌else◌, ◌∷◌, [], List, true, some, refl,
  ◌≡◌, arith, ◌↔◌, length,
}
use repro_vm_virtual_machine.Prelude.Int.{pos}
use Prim.Native.Nat.{min, max}
use repro_vm_virtual_machine.Metrics.{
  Doubles, State, Call, calls, metrics_init, task_start, task_end, cache_hit, update_resources,
}
use repro_vm_virtual_machine.Metrics.Outcomes.{entry_at, outcomes, stored}
use repro_vm_virtual_machine.Metrics.Counts.{ends, metrics_init-Counted-calls}
use repro_vm_virtual_machine.Health.{
  Sys, SystemHealth, rank, health_check_all, health_init, health_check_cas, health_critical,
  health_ok, objects,
}
use repro_vm_virtual_machine.Health.Overall.{health_check_all-rank}
use repro_vm_virtual_machine.Health.Objects.{
  cas_objects, all_objects, sizes, health_check_cas-all_objects,
}

abbrev whole : Doubles
whole = record {
  Double = ℕ;
  of_nat = λ n. n;
  add = λ a b. a + b;
  less = λ a b. ltb a b;
  ratio = λ a b. a / b;
}

abbrev some_calls : List (Call whole)
some_calls =
    task_start (codes "a") 3 ∷ task_end (pos 0) (pos 1) 5 ∷ cache_hit ∷ update_resources 4096 7 ∷ []

abbrev after_calls : State whole
after_calls = calls whole some_calls (metrics_init whole 0)

metrics_init-Counted-calls_example :
    (after_calls.metrics.total_tasks ≡ ends whole some_calls)
    × (after_calls.metrics.tasks_executed + after_calls.metrics.tasks_cached
        ≡ after_calls.metrics.total_tasks)
    × (after_calls.metrics.tasks_failed ≤ after_calls.metrics.total_tasks)
    × (after_calls.timing_count ≡ min (ends whole some_calls) 1000)
    × ((i : ℕ)
        → i < min (ends whole some_calls) 1000
        → entry_at i (outcomes whole some_calls) ≡ some (stored whole after_calls i))
    × (after_calls.metrics.memory_usage_bytes ≤ after_calls.metrics.peak_memory_bytes)
metrics_init-Counted-calls_example = metrics_init-Counted-calls whole 0 some_calls (omega arith)

-- One object of three bytes, and a disk that is nearly full.
abbrev small_sys : Sys
small_sys = record {
  is_dir = λ _. true;
  list = λ p. some (if str_eq p (codes "/r/cas/objects") then codes "ab" ∷ [] else codes "cd" ∷ []);
  size = λ _. some 3;
  volume = λ _. some (record { bavail = 5; blocks = 100; frsize = 1 });
  memory = 1000;
  above = λ used total n. ltb (n * total) (used * 100);
}

abbrev checked : SystemHealth
checked = health_check_all small_sys (codes "/r") health_init

health_check_all-rank_example :
    (rank checked.overall_status
      ≡ max
          (max (rank checked.cache_health.status) (rank checked.cas_health.status))
          (max (rank checked.disk_health.status) (rank checked.memory_health.status)))
    × (rank checked.overall_status ≤ 2)
    × ((checked.overall_status ≡ health_critical) ↔ (checked.disk_health.status ≡ health_critical))
health_check_all-rank_example = health_check_all-rank small_sys (codes "/r") health_init

health_check_cas-all_objects_example : health_check_cas small_sys (codes "/r") ≡ record {
  status = health_ok;
  message =
      objects
        (length (all_objects small_sys (cas_objects small_sys (codes "/r")) (codes "ab" ∷ [])))
        (mask64 (
          sizes small_sys
            (all_objects small_sys (cas_objects small_sys (codes "/r")) (codes "ab" ∷ []))));
}
health_check_cas-all_objects_example =
    health_check_cas-all_objects small_sys (codes "/r") (codes "ab" ∷ []) refl refl
