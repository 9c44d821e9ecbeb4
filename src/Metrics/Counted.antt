-- ===== src/Metrics/Counted.antt =====
-- What the counters have to do with each other, and that a task and a measurement keep it.
use repro_vm_virtual_machine.Metrics.{
  Doubles, Metrics, State, metrics_init, metrics_task_end, metrics_task_start, count_task, mask64,
  metrics_update_resources,
}
use repro_vm_virtual_machine.Prelude.{
  ℕ, ltb, ◌^◌, ◌+◌, ◌≤◌, ◌<◌, refl, ◌≡◌, arith, inl, inr, Bool-cases, Text, mem, count,
}
use repro_vm_virtual_machine.Prelude.Int.{ℤ, is_zero}

module _ (f : Doubles) where
  -- Each task was executed or cached, no more failed than ended, the first thousand have a timing,
  -- and the peak is no less than the last measurement.
  pub record Counted (s : State f) : Type 0 where
    pub split : s.metrics.tasks_executed + s.metrics.tasks_cached ≡ s.metrics.total_tasks
    pub failures : s.metrics.tasks_failed ≤ s.metrics.total_tasks
    pub timed :
        (s.timing_count ≤ 1000)
        × (s.timing_count ≤ s.metrics.total_tasks)
        × (s.timing_count < 1000 → s.timing_count ≡ s.metrics.total_tasks)
    pub peak : s.metrics.memory_usage_bytes ≤ s.metrics.peak_memory_bytes

  pub metrics_init-Counted : (now : ℕ) → Counted (metrics_init f now)
  unfolding metrics_init
  metrics_init-Counted now = record {
    split = refl;
    failures = omega arith;
    timed = (omega arith, omega arith, λ _. refl);
    peak = omega arith;
  }

  mask64-small : (n : ℕ) → n < 2 ^ 64 → mask64 n ≡ n
  mask64-small n h = omega arith

  -- What a call does to the part of the invariant that is about tasks.
  abbrev TasksAgree : Metrics f → Type 0
  TasksAgree m =
      (m.tasks_executed + m.tasks_cached ≡ m.total_tasks) × (m.tasks_failed ≤ m.total_tasks)

  count_task-TasksAgree :
      (cached failed : ℤ) (duration : f.Double) (m : Metrics f)
      → m.total_tasks + 1 < 2 ^ 64
      → TasksAgree m
      → TasksAgree (count_task f cached failed duration m)
        × ((count_task f cached failed duration m).total_tasks ≡ m.total_tasks + 1)
  unfolding count_task
  count_task-TasksAgree cached failed duration m h (split, failures) =
      elim (Bool-cases (is_zero cached)) [
        | inl ran ↦ rw ran (elim (Bool-cases (is_zero failed)) [
          | inl good ↦ rw good ((omega arith, omega arith), omega arith)
          | inr bad ↦ rw bad ((omega arith, omega arith), omega arith)
        ])
        | inr hit ↦ rw hit (elim (Bool-cases (is_zero failed)) [
          | inl good ↦ rw good ((omega arith, omega arith), omega arith)
          | inr bad ↦ rw bad ((omega arith, omega arith), omega arith)
        ])
      ]

  abbrev Timed : ℕ → ℕ → Type 0
  Timed count total = (count ≤ 1000) × (count ≤ total) × (count < 1000 → count ≡ total)

  -- A call that leaves the tasks and the timings alone.
  pub same_tasks :
      (s t : State f)
      → Counted s
      → t.metrics.total_tasks ≡ s.metrics.total_tasks
      → t.metrics.tasks_executed ≡ s.metrics.tasks_executed
      → t.metrics.tasks_cached ≡ s.metrics.tasks_cached
      → t.metrics.tasks_failed ≡ s.metrics.tasks_failed
      → t.timing_count ≡ s.timing_count
      → t.metrics.memory_usage_bytes ≤ t.metrics.peak_memory_bytes
      → Counted t
  same_tasks s t c total executed cached failed count peak =
      let (full, few, all) = c.timed in
      let split = c.split in
      let failures = c.failures in
      record {
        split = omega arith;
        failures = omega arith;
        timed = (omega arith, omega arith, λ h. omega (arith, all (omega arith)));
        peak = peak;
      }

  pub task_end-Counted :
      (cached failed : ℤ) (duration : f.Double) (s : State f)
      → s.metrics.total_tasks + 1 < 2 ^ 64
      → Counted s
      → Counted (metrics_task_end f cached failed duration s)
        × ((metrics_task_end f cached failed duration s).metrics.total_tasks
            ≡ s.metrics.total_tasks + 1)
  unfolding metrics_task_end
  task_end-Counted cached failed duration s h c =
      let ((split, failures), total) =
        count_task-TasksAgree cached failed duration s.metrics h (c.split, c.failures) in
      let peak : (count_task f cached failed duration s.metrics).memory_usage_bytes
          ≤ (count_task f cached failed duration s.metrics).peak_memory_bytes =
        unfold count_task in c.peak in
      let (full, few, all) = c.timed in
      elim (Bool-cases (ltb s.timing_count 1000)) [
        | inl room ↦
            let below : s.timing_count < 1000 = ground arith in
            rw room (
              record {
                split = split;
                failures = failures;
                timed = (omega arith, omega arith, λ _. omega (arith, all below));
                peak = peak;
              },
              total,
            )
        | inr over ↦
            let above : 1000 ≤ s.timing_count = ground arith in
            rw over (
              record {
                split = split;
                failures = failures;
                timed = (omega arith, omega arith, λ less. absurd (omega arith));
                peak = peak;
              },
              total,
            )
      ]

  pub task_start-Counted :
      (name : Text) (now : f.Double) (s : State f)
      → Counted s
      → Counted (metrics_task_start f name now s)
        × ((metrics_task_start f name now s).metrics.total_tasks ≡ s.metrics.total_tasks)
  unfolding metrics_task_start
  task_start-Counted name now s c = elim (Bool-cases (ltb s.timing_count 1000)) [
    | inl room ↦ rw room (same_tasks s _ c refl refl refl refl refl c.peak, refl)
    | inr over ↦ rw over (c, refl)
  ]

  pub update_resources-peak :
      (mem : ℕ) (cpu : f.Double) (m : Metrics f)
      → (metrics_update_resources f mem cpu m).memory_usage_bytes
        ≤ (metrics_update_resources f mem cpu m).peak_memory_bytes
  unfolding metrics_update_resources
  update_resources-peak mem cpu m = ground arith
