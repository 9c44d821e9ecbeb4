-- ===== src/Metrics.antt =====
-- metrics.c and metrics.h: the counters, the timings of tasks and the peak of the memory. A
-- `double` and its operations are a parameter. `get_time_ms`, `time`, `get_memory_usage` and
-- `get_cpu_usage` are what an operation is given. Printing is left out.
pub mod Counted
pub mod Counts
pub mod Outcomes
pub mod Timings
use repro_vm_virtual_machine.RateLimiter.{mask64}
use repro_vm_virtual_machine.Prelude.{
  ℕ, take, ltb, zero, suc, ◌+◌, ◌-◌, ◌*◌, ◌≤◌, ◌<◌, if◌then◌else◌, ◌==◌, ◌++◌, ◌∷◌, [], List, true,
  false, Bool, ◌&&◌, ◌||◌, none, some, Option, refl, ◌≡◌, ◌≢◌, ◌∙◌, sym, arith, inl, inr, ◌⊎◌, ◌↔◌,
  Bool-cases, Option-cases, List-cases, length, Text, mem, count, All,
}
use repro_vm_virtual_machine.Prelude.Int.{ℤ, pos, is_zero}

-- What the file does with numbers of type `double`.
pub record Doubles : Type 1 where
  pub Double : Type 0
  pub of_nat : ℕ → Double
  pub add : Double → Double → Double
  pub less : Double → Double → Bool
  pub ratio : Double → ℕ → Double

module _ (f : Doubles) where
  -- The fields that the file sets.
  pub record Metrics : Type 0 where
    pub total_tasks : ℕ
    pub tasks_executed : ℕ
    pub tasks_cached : ℕ
    pub tasks_failed : ℕ
    pub cache_hits : ℕ
    pub cache_misses : ℕ
    pub cache_hit_rate : f.Double
    pub total_execution_time_ms : f.Double
    pub avg_task_time_ms : f.Double
    pub min_task_time_ms : f.Double
    pub max_task_time_ms : f.Double
    pub cpu_usage_percent : f.Double
    pub memory_usage_bytes : ℕ
    pub peak_memory_bytes : ℕ
    pub retry_count : ℕ
    pub timeout_count : ℕ
    pub error_count : ℕ
    pub start_time : ℕ
    pub end_time : ℕ
    pub elapsed_seconds : f.Double

  pub record TaskTiming : Type 0 where
    pub task_name : Text
    pub start_ms : f.Double
    pub duration_ms : f.Double
    pub cached : ℤ
    pub failed : ℤ

  -- `g_metrics`, `task_timings` and `task_timing_count`.
  pub record State : Type 0 where
    pub metrics : Metrics
    pub timings : ℕ → TaskTiming
    pub timing_count : ℕ

  abbrev pub max_task_timings : ℕ
  max_task_timings = 1000

  unfoldable pub metrics_init : ℕ → State
  metrics_init now = record {
    metrics = record {
      total_tasks = 0;
      tasks_executed = 0;
      tasks_cached = 0;
      tasks_failed = 0;
      cache_hits = 0;
      cache_misses = 0;
      cache_hit_rate = f.of_nat 0;
      total_execution_time_ms = f.of_nat 0;
      avg_task_time_ms = f.of_nat 0;
      min_task_time_ms = f.of_nat 999999999;
      max_task_time_ms = f.of_nat 0;
      cpu_usage_percent = f.of_nat 0;
      memory_usage_bytes = 0;
      peak_memory_bytes = 0;
      retry_count = 0;
      timeout_count = 0;
      error_count = 0;
      start_time = now;
      end_time = 0;
      elapsed_seconds = f.of_nat 0;
    };
    timings = λ _. record {
      task_name = [];
      start_ms = f.of_nat 0;
      duration_ms = f.of_nat 0;
      cached = pos 0;
      failed = pos 0;
    };
    timing_count = 0;
  }

  abbrev pub set_timing : ℕ → TaskTiming → (ℕ → TaskTiming) → ℕ → TaskTiming
  set_timing i t timings j = if j == i then t else timings j

  unfoldable pub metrics_task_start : Text → f.Double → State → State
  metrics_task_start name now s =
      let begun : TaskTiming = record {
        task_name = take 255 name;
        start_ms = now;
        duration_ms = f.of_nat 0;
        cached = pos 0;
        failed = pos 0;
      } in
      if ltb s.timing_count max_task_timings
      then record s { timings = set_timing s.timing_count begun s.timings }
      else s

  -- The counters and times of `metrics_task_end`.
  unfoldable pub count_task : ℤ → ℤ → f.Double → Metrics → Metrics
  count_task cached failed duration m = record m {
    total_tasks = mask64 (m.total_tasks + 1);
    tasks_cached = if is_zero cached then m.tasks_cached else mask64 (m.tasks_cached + 1);
    tasks_executed = if is_zero cached then mask64 (m.tasks_executed + 1) else m.tasks_executed;
    tasks_failed = if is_zero failed then m.tasks_failed else mask64 (m.tasks_failed + 1);
    total_execution_time_ms = f.add m.total_execution_time_ms duration;
    min_task_time_ms = if f.less duration m.min_task_time_ms then duration else m.min_task_time_ms;
    max_task_time_ms = if f.less m.max_task_time_ms duration then duration else m.max_task_time_ms;
  }

  -- The name of the task goes to the log only.
  unfoldable pub metrics_task_end : ℤ → ℤ → f.Double → State → State
  metrics_task_end cached failed duration s =
      let ended : TaskTiming = record (s.timings s.timing_count) {
        duration_ms = duration;
        cached = cached;
        failed = failed;
      } in
      let counted : Metrics = count_task cached failed duration s.metrics in
      if ltb s.timing_count max_task_timings
      then record s {
        metrics = counted;
        timings = set_timing s.timing_count ended s.timings;
        timing_count = s.timing_count + 1;
      }
      else record s { metrics = counted }

  unfoldable pub metrics_record_cache_hit : Metrics → Metrics
  metrics_record_cache_hit m = record m { cache_hits = mask64 (m.cache_hits + 1) }

  unfoldable pub metrics_record_cache_miss : Metrics → Metrics
  metrics_record_cache_miss m = record m { cache_misses = mask64 (m.cache_misses + 1) }

  unfoldable pub metrics_record_error : Metrics → Metrics
  metrics_record_error m = record m { error_count = mask64 (m.error_count + 1) }

  unfoldable pub metrics_record_retry : Metrics → Metrics
  metrics_record_retry m = record m { retry_count = mask64 (m.retry_count + 1) }

  unfoldable pub metrics_record_timeout : Metrics → Metrics
  metrics_record_timeout m = record m { timeout_count = mask64 (m.timeout_count + 1) }

  unfoldable pub metrics_update_resources : ℕ → f.Double → Metrics → Metrics
  metrics_update_resources mem cpu m = record m {
    memory_usage_bytes = mem;
    peak_memory_bytes = if ltb m.peak_memory_bytes mem then mem else m.peak_memory_bytes;
    cpu_usage_percent = cpu;
  }

  -- `elapsed` is `difftime` of the two times.
  unfoldable pub metrics_calculate_stats : ℕ → f.Double → ℕ → f.Double → Metrics → Metrics
  metrics_calculate_stats now elapsed mem cpu m =
      let ops = mask64 (m.cache_hits + m.cache_misses) in
      metrics_update_resources mem cpu (record m {
        end_time = now;
        elapsed_seconds = elapsed;
        avg_task_time_ms =
            if ltb 0 m.total_tasks
            then f.ratio m.total_execution_time_ms m.total_tasks
            else m.avg_task_time_ms;
        cache_hit_rate =
            if ltb 0 ops then f.ratio (f.of_nat m.cache_hits) ops else m.cache_hit_rate;
      })

  -- A call of one of the functions above.
  pub data Call : Type 0 where
    task_start : Text → f.Double → Call
    task_end : ℤ → ℤ → f.Double → Call
    cache_hit cache_miss an_error a_retry a_timeout : Call
    update_resources : ℕ → f.Double → Call
    calculate_stats : ℕ → f.Double → ℕ → f.Double → Call

  abbrev pub call : Call → State → State
  call (task_start name now) s = metrics_task_start name now s
  call (task_end cached failed duration) s = metrics_task_end cached failed duration s
  call cache_hit s = record s { metrics = metrics_record_cache_hit s.metrics }
  call cache_miss s = record s { metrics = metrics_record_cache_miss s.metrics }
  call an_error s = record s { metrics = metrics_record_error s.metrics }
  call a_retry s = record s { metrics = metrics_record_retry s.metrics }
  call a_timeout s = record s { metrics = metrics_record_timeout s.metrics }
  call (update_resources mem cpu) s = record s {
    metrics = metrics_update_resources mem cpu s.metrics;
  }
  call (calculate_stats now elapsed mem cpu) s = record s {
    metrics = metrics_calculate_stats now elapsed mem cpu s.metrics;
  }

  unfoldable pub calls : List Call → State → State
  calls [] s = s
  calls (c ∷ cs) s = calls cs (call c s)
