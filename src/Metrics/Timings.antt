-- ===== src/Metrics/Timings.antt =====
-- The timings of tasks that run at the same time.
use repro_vm_virtual_machine.Metrics.{Doubles, State, metrics_task_end, metrics_task_start}
use repro_vm_virtual_machine.Prelude.{take, ltb, ◌==◌, ◌+◌, ◌<◌, true, refl, ◌≡◌, arith, Text}
use repro_vm_virtual_machine.Prelude.Int.{ℤ}

module _ (f : Doubles) where
  -- Two tasks that start before one of them ends share a timing: as long as there is room, the
  -- timing of the first task that ends carries the name of the task that started last, cut to 255
  -- bytes, whichever task it is that ends.
  pub metrics_task_end_mixed :
      (first second : Text) (t u duration : f.Double) (cached failed : ℤ) (s : State f)
      → s.timing_count < 1000
      → let s' =
          metrics_task_end f cached failed duration
            (metrics_task_start f second u (metrics_task_start f first t s)) in
        ((s'.timings s.timing_count).task_name ≡ take 255 second)
        × ((s'.timings s.timing_count).duration_ms ≡ duration)
        × (s'.timing_count ≡ s.timing_count + 1)
  unfolding metrics_task_end metrics_task_start
  metrics_task_end_mixed first second t u duration cached failed s h =
      let room : ltb s.timing_count 1000 ≡ true = ground arith in
      let same : (s.timing_count == s.timing_count) ≡ true = ground arith in
      (
        rw room (rw room (rw room (rw same refl))),
        rw room (rw room (rw room (rw same refl))),
        rw room (rw room (rw room refl)),
      )
