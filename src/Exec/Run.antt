-- ===== src/Exec/Run.antt =====
-- The outcome of `execute_task` on all its paths, and of the loop of `main` over the sorted tasks.
use repro_vm_virtual_machine.Exec.{
  try_load_task_record, run_task, failed, hit, compute_result_hash, write_task_record, run_or_load,
  execute_task, main_round, main_loop, Load, running, compute_task_hash, miss, unreadable,
}
use repro_vm_virtual_machine.Cas.{Os, Disk}
use repro_vm_virtual_machine.Task.{Task, success, skipped}
use repro_vm_virtual_machine.Prelude.{
  ◌∷◌, [], List, true, false, Bool, Option, refl, ◌≡◌, arith, inl, inr, ◌⊎◌, Bool-cases,
  Option-cases, Text,
}

-- What the return value says of the status: 0 is success or a cache hit, anything else a failure.
abbrev pub Reports : Task → Bool → Type 0
Reports t true = (t.status ≡ success) ⊎ (t.status ≡ skipped)
Reports t false = t.status ≡ failed

-- After the loop: all tasks are done, or some first ones are, the next has failed, and the others
-- are as they were.
abbrev pub Progress : List Task → List Task → Bool → Type 0
Progress ts [] ok = (ts ≡ []) × (ok ≡ true)
Progress [] (t' ∷ ts') ok = ⊥
Progress (t ∷ ts) (t' ∷ ts') ok =
    (Reports t' true × Progress ts ts' ok) ⊎ (Reports t' false × (ts' ≡ ts) × (ok ≡ false))

module _ (os : Os) (objects_root cache_root : Text) where
  pub Load-cases :
      (l : Load os objects_root cache_root)
      → ((t' : Task) × (l ≡ hit t')) ⊎ ((l ≡ miss) ⊎ (l ≡ unreadable))
  Load-cases (hit t') = inl (t', refl)
  Load-cases miss = inr (inl refl)
  Load-cases unreadable = inr (inr refl)

  pub load_hit :
      (t t' : Task) (d : Disk)
      → (try_load_task_record os objects_root cache_root t d).1 ≡ hit t'
      → t'.status ≡ skipped
  unfolding try_load_task_record
  load_hit t t' d h = ground arith

module _ (os : Os) (objects_root cache_root : Text)
    (system : Option Text → Disk → Disk × Bool) where
  run_task-Reports :
      (t : Task) (d : Disk)
      → Reports
          (run_task os objects_root cache_root system t d).1
          (run_task os objects_root cache_root system t d).2
  unfolding run_task
  run_task-Reports t d =
      let ran = system t.cmd d in
      let hashed = compute_result_hash os objects_root cache_root t ran.0 in
      elim (Bool-cases ran.1) [
        | inr bad ↦ rw bad refl
        | inl good ↦
            elim (Bool-cases (write_task_record os objects_root cache_root hashed.1 hashed.0).1) [
              | inr bad ↦ rw good (rw bad refl)
              | inl fine ↦ rw good (rw fine (inl refl))
            ]
      ]

  run_or_load-Reports :
      (t : Task) (d : Disk)
      → Reports
          (run_or_load os objects_root cache_root system t d).1
          (run_or_load os objects_root cache_root system t d).2
  unfolding run_or_load
  run_or_load-Reports t d =
      elim (Load-cases os objects_root cache_root
        (try_load_task_record os objects_root cache_root t d).1) [
          | inl (t', e) ↦ rw (e, run_or_load) (inr (load_hit os objects_root cache_root t t' d e))
          | inr (inl e) ↦ rw (e, run_or_load) (run_task-Reports t _)
          | inr (inr e) ↦ rw (e, run_or_load) (run_task-Reports t _)
        ]

  -- On every path, for every command and system: `execute_task` returns 0 with the status success
  -- or skipped, and a nonzero value with the status failed.
  pub execute_task-Reports :
      (t : Task) (d : Disk)
      → Reports
          (execute_task os objects_root cache_root system t d).1
          (execute_task os objects_root cache_root system t d).2
  unfolding execute_task
  execute_task-Reports t d = elim (Option-cases t.task_hash) [
    | inr (h, e) ↦ rw (e, execute_task) (run_or_load-Reports (record t { status = running }) d)
    | inl e ↦
        let keyed =
          compute_task_hash os objects_root cache_root (record t { status = running }) d in
        elim (Option-cases keyed.1) [
          | inl bad ↦ rw (e, execute_task) (rw (bad, execute_task) refl)
          | inr (t', good) ↦
              rw (e, execute_task) (rw (good, execute_task) (run_or_load-Reports t' keyed.0))
        ]
  ]

  main_round-Reports :
      (t : Task) (d : Disk)
      → Reports
          (main_round os objects_root cache_root system t d).1
          (main_round os objects_root cache_root system t d).2
  unfolding main_round
  main_round-Reports t d = elim (Option-cases t.task_hash) [
    | inr (h, e) ↦ rw (e, main_round) (execute_task-Reports t d)
    | inl e ↦
        let keyed = compute_task_hash os objects_root cache_root t d in
        elim (Option-cases keyed.1) [
          | inl bad ↦ rw (e, main_round) (rw (bad, main_round) refl)
          | inr (t', good) ↦
              rw (e, main_round) (rw (good, main_round) (execute_task-Reports t' keyed.0))
        ]
  ]

  -- The loop of `main` works through the sorted tasks from the front: it reports success only if
  -- every task ended as success or skipped; otherwise some first tasks did, the next one ended as
  -- failed, and the tasks behind it were not touched.
  pub main_loop-Progress :
      (ts : List Task) (d : Disk)
      → Progress ts
          (main_loop os objects_root cache_root system ts d).1
          (main_loop os objects_root cache_root system ts d).2
  unfolding main_loop
  main_loop-Progress [] d = (refl, refl)
  main_loop-Progress (t ∷ ts) d =
      let (d', t', ok) = main_round os objects_root cache_root system t d in
      let told : Reports t' ok = main_round-Reports t d in
      elim (Bool-cases ok) [
        | inl e ↦ rw e (inl (rw e at told, main_loop-Progress ts d'))
        | inr e ↦ rw e (inr (rw e at told, refl, refl))
      ]
