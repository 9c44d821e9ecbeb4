-- ===== src/Metrics/Counts.antt =====
-- The counters agree with each other and with the calls, whatever their order.
use repro_vm_virtual_machine.Metrics.Counted.{
  Counted, metrics_init-Counted, task_start-Counted, task_end-Counted, same_tasks,
  update_resources-peak,
}
use Prim.Native.Nat.{min}
use repro_vm_virtual_machine.Metrics.Outcomes.{entry_at, outcomes, stored, calls-Extends}
use repro_vm_virtual_machine.Metrics.{
  Doubles, State, Call, call, calls, task_start, task_end, cache_hit, cache_miss, an_error, a_retry,
  a_timeout, update_resources, calculate_stats, metrics_init, metrics_update_resources,
  metrics_record_cache_hit, metrics_record_cache_miss, metrics_record_error, metrics_record_retry,
  metrics_record_timeout, metrics_calculate_stats,
}
use repro_vm_virtual_machine.Prelude.{
  ℕ, some, ◌-◌, ◌^◌, ◌+◌, ◌≤◌, ◌<◌, ◌∷◌, [], List, refl, ◌≡◌, arith, inl, inr, length, mem,
  compare_cases,
}

module _ (f : Doubles) where
  abbrev pub ended : Call f → ℕ
  ended (task_end cached failed duration) = 1
  ended (task_start name now) = 0
  ended cache_hit = 0
  ended cache_miss = 0
  ended an_error = 0
  ended a_retry = 0
  ended a_timeout = 0
  ended (update_resources mem cpu) = 0
  ended (calculate_stats now elapsed mem cpu) = 0

  -- How many tasks have ended.
  abbrev pub ends : List (Call f) → ℕ
  ends [] = 0
  ends (c ∷ cs) = ended c + ends cs

  -- Every call keeps the invariant.
  call-Counted :
      (c : Call f) (s : State f)
      → s.metrics.total_tasks + 1 < 2 ^ 64
      → Counted f s
      → Counted f (call f c s)
        × ((call f c s).metrics.total_tasks ≡ s.metrics.total_tasks + ended c)
  unfolding metrics_record_cache_hit metrics_record_cache_miss metrics_record_error
      metrics_record_retry metrics_record_timeout metrics_update_resources metrics_calculate_stats
  call-Counted (task_start name now) s h k =
      let (kept, total) = task_start-Counted f name now s k in (kept, omega (arith, total))
  call-Counted (task_end cached failed duration) s h k =
      task_end-Counted f cached failed duration s h k
  call-Counted cache_hit s h k = (same_tasks f s _ k refl refl refl refl refl k.peak, omega arith)
  call-Counted cache_miss s h k = (same_tasks f s _ k refl refl refl refl refl k.peak, omega arith)
  call-Counted an_error s h k = (same_tasks f s _ k refl refl refl refl refl k.peak, omega arith)
  call-Counted a_retry s h k = (same_tasks f s _ k refl refl refl refl refl k.peak, omega arith)
  call-Counted a_timeout s h k = (same_tasks f s _ k refl refl refl refl refl k.peak, omega arith)
  call-Counted (update_resources mem cpu) s h k = (
    same_tasks f s _ k refl refl refl refl refl (update_resources-peak f mem cpu s.metrics),
    omega arith,
  )
  call-Counted (calculate_stats now elapsed mem cpu) s h k =
      (same_tasks f s _ k refl refl refl refl refl (ground arith), omega arith)

  ended-le : (c : Call f) → ended c ≤ 1
  ended-le (task_end cached failed duration) = omega arith
  ended-le (task_start name now) = omega arith
  ended-le cache_hit = omega arith
  ended-le cache_miss = omega arith
  ended-le an_error = omega arith
  ended-le a_retry = omega arith
  ended-le a_timeout = omega arith
  ended-le (update_resources mem cpu) = omega arith
  ended-le (calculate_stats now elapsed mem cpu) = omega arith

  calls-Counted :
      (cs : List (Call f)) (s : State f)
      → s.metrics.total_tasks + length cs < 2 ^ 64
      → Counted f s
      → Counted f (calls f cs s)
        × ((calls f cs s).metrics.total_tasks ≡ s.metrics.total_tasks + ends cs)
  unfolding calls
  calls-Counted [] s h k = (k, omega arith)
  calls-Counted (c ∷ cs) s h k =
      let (kept, total) = call-Counted c s (omega arith) k in
      let one = ended-le c in
      let (rest, sum) = calls-Counted cs (call f c s) (omega arith) kept in (rest, omega arith)

  -- After `metrics_init` and any fewer than 2^64 calls in any order: `total_tasks` is the number of
  -- calls of `metrics_task_end`, each counted either as executed or as cached; no more tasks failed
  -- than ended; there is a timing for each of the first 1000 tasks that ended and no other, with the
  -- duration and the flags that its call of `metrics_task_end` reported; and the peak of the memory
  -- is no less than the last measurement.
  pub metrics_init-Counted-calls :
      (now : ℕ) (cs : List (Call f))
      → length cs < 2 ^ 64
      → let s = calls f cs (metrics_init f now) in
        (s.metrics.total_tasks ≡ ends cs)
        × (s.metrics.tasks_executed + s.metrics.tasks_cached ≡ s.metrics.total_tasks)
        × (s.metrics.tasks_failed ≤ s.metrics.total_tasks)
        × (s.timing_count ≡ min (ends cs) 1000)
        × ((i : ℕ) → i < min (ends cs) 1000 → entry_at i (outcomes f cs) ≡ some (stored f s i))
        × (s.metrics.memory_usage_bytes ≤ s.metrics.peak_memory_bytes)
  metrics_init-Counted-calls now cs h =
      let start : (metrics_init f now).metrics.total_tasks ≡ 0 = unfold metrics_init in refl in
      let (kept, total) =
        calls-Counted cs (metrics_init f now) (omega arith) (metrics_init-Counted f now) in
      let (full, few, all) = kept.timed in
      let count : (calls f cs (metrics_init f now)).timing_count ≡ min (ends cs) 1000 =
        elim (compare_cases (calls f cs (metrics_init f now)).timing_count 1000) [
          | inl less ↦ omega (arith, all less, total)
          | inr more ↦ omega (arith, total)
        ] in
      let none_yet : (metrics_init f now).timing_count ≡ 0 = unfold metrics_init in refl in
      let entries = λ (i : ℕ) (k : i < min (ends cs) 1000).
        let entry =
          (calls-Extends f cs (metrics_init f now) i (omega arith)).1 (omega arith)
            (omega (arith, count)) in
        let e : i - (metrics_init f now).timing_count ≡ i = omega arith in rw e at entry in
      (omega arith, kept.split, kept.failures, count, entries, kept.peak)
