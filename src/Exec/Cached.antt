-- ===== src/Exec/Cached.antt =====
-- The second run of a task: `write_task_record` and then `try_load_task_record`.
use repro_vm_virtual_machine.Exec.Recorded.{
  IsRecorded, recorded, write_task_record-IsRecorded, load_recorded,
}
use repro_vm_virtual_machine.Exec.Run.{Load-cases, load_hit}
use repro_vm_virtual_machine.Util.{is_empty}
use repro_vm_virtual_machine.Prelude.{
  Text, ℕ, ◌∷◌, [], List, true, false, Bool, some, Option, refl, ◌≡◌, ◌∙◌, sym, arith, inl, inr,
  ◌⊎◌, Bool-cases, List-cases, length, ap, subst,
}
use repro_vm_virtual_machine.Exec.Record.{hash_of-IsShown}
use repro_vm_virtual_machine.Cas.{Os, Disk}
use repro_vm_virtual_machine.Cas.Sound.{hash_of, length-hash_of}
use repro_vm_virtual_machine.Task.{Task, success, skipped, TaskStatus}
use repro_vm_virtual_machine.Exec.{
  try_load_task_record, hit, miss, unreadable, run_task, execute_task, run_or_load,
  compute_result_hash, running, output_hashes, join_strings, sort_hashes, comma, failed,
}

hash_of_filled : (blob : List ℕ) → is_empty (hash_of blob) ≡ false
hash_of_filled blob = elim (List-cases (hash_of blob)) [
  | inl empty ↦
      let none_there : length (hash_of blob) ≡ 0 = ap length empty in
      absurd (omega (arith, length-hash_of blob))
  | inr (c, r, e) ↦ ap is_empty e
]

module _ (os : Os) (objects_root cache_root : Text) where
  -- The record is that of the task, whatever its result and status are.
  with_result-IsRecorded :
      (t : Task) (hash : Text) (result : Option Text) (s : TaskStatus)
      → IsRecorded os objects_root cache_root t hash
      → IsRecorded os objects_root cache_root (record t { result_hash = result; status = s }) hash
  with_result-IsRecorded t hash result s h = record {
    keyed = h.keyed;
    key_line = h.key_line;
    can_create = h.can_create;
    can_open = h.can_open;
    uncut = h.uncut;
    names = h.names;
  }

  -- What a command leaves that ran with success.
  abbrev ran_with : Task → Text → List ℕ → Disk → Disk × Task × Bool
  ran_with t hash blob d = (
    recorded os objects_root cache_root (record t { result_hash = some (hash_of blob) }) hash d,
    record t { result_hash = some (hash_of blob); status = success },
    true,
  )

  run_task-success :
      (system : Option Text → Disk → Disk × Bool) (t : Task) (hash : Text) (d : Disk)
      → IsRecorded os objects_root cache_root t hash
      → (run_task os objects_root cache_root system t d).1.status ≡ success
      → (blob : List ℕ) × (d1 : Disk) × (run_task os objects_root cache_root system t d
          ≡ ran_with t hash blob d1)
  unfolding run_task compute_result_hash
  run_task-success system t hash d h e =
      let ran = system t.cmd d in
      let hashes = output_hashes os objects_root cache_root t.outputs ran.0 in
      let blob = join_strings (sort_hashes hashes.1) (comma ∷ []) in
      let hashed = record t { result_hash = some (hash_of blob) } in
      let wrote =
        write_task_record-IsRecorded os objects_root cache_root hashed hash hashes.0
          (with_result-IsRecorded t hash (some (hash_of blob)) t.status h) in
      elim (Bool-cases ran.1) [
        | inl good ↦ (blob, hashes.0, rw (good, wrote) refl)
        | inr bad ↦
            let status : (run_task os objects_root cache_root system t d).1.status ≡ failed =
              rw bad refl in
            absurd cc
      ]

  run_or_load-hit :
      (system : Option Text → Disk → Disk × Bool) (t t' : Task) (d : Disk)
      → (try_load_task_record os objects_root cache_root t d).1 ≡ hit t'
      → ((run_or_load os objects_root cache_root system t d).1 ≡ t')
        × ((run_or_load os objects_root cache_root system t d).2 ≡ true)
  unfolding run_or_load
  run_or_load-hit system t t' d e = (rw (e, run_or_load) refl, rw (e, run_or_load) refl)

  run_or_load-run :
      (system : Option Text → Disk → Disk × Bool) (t : Task) (d : Disk)
      → let loaded = try_load_task_record os objects_root cache_root t d in
        (loaded.1 ≡ miss) ⊎ (loaded.1 ≡ unreadable)
        → run_or_load os objects_root cache_root system t d
          ≡ run_task os objects_root cache_root system t loaded.0
  unfolding run_or_load
  run_or_load-run system t d (inl l) = rw (l, run_or_load) refl
  run_or_load-run system t d (inr l) = rw (l, run_or_load) refl

  execute_task-keyed :
      (system : Option Text → Disk → Disk × Bool) (t : Task) (hash : Text) (d : Disk)
      → t.task_hash ≡ some hash
      → execute_task os objects_root cache_root system t d
        ≡ run_or_load os objects_root cache_root system (record t { status = running }) d
  unfolding execute_task
  execute_task-keyed system t hash d e =
      rw (e, execute_task)
        (ap
          (λ x.
            run_or_load os objects_root cache_root system
              (record t { task_hash = x; status = running }) d)
          e)

  again :
      (system : Option Text → Disk → Disk × Bool) (t : Task) (hash : Text) (blob : List ℕ)
      (d : Disk)
      → IsRecorded os objects_root cache_root t hash
      → let left = ran_with t hash blob d in
        ((execute_task os objects_root cache_root system left.1 left.0).1
          ≡ record left.1 { status = skipped })
        × ((execute_task os objects_root cache_root system left.1 left.0).2 ≡ true)
  again system t hash blob d h =
      let left = ran_with t hash blob d in
      let started = record left.1 { status = running } in
      let loaded =
        load_recorded os objects_root cache_root started hash (hash_of blob) d
          (with_result-IsRecorded t hash (some (hash_of blob)) running h) refl (hash_of_filled blob)
          (hash_of-IsShown blob) (omega (arith, length-hash_of blob)) in
      let (task, good) = run_or_load-hit system started _ left.0 loaded in
      let same = execute_task-keyed system left.1 hash left.0 h.keyed in
      (ap (λ x. x.1) same ∙ task, ap (λ x. x.2) same ∙ good)

  -- What `execute_task` did if the status is success: it ran the command.
  ran :
      (system : Option Text → Disk → Disk × Bool) (t : Task) (hash : Text) (d : Disk)
      → IsRecorded os objects_root cache_root t hash
      → (execute_task os objects_root cache_root system t d).1.status ≡ success
      → (blob : List ℕ) × (d1 : Disk) × (execute_task os objects_root cache_root system t d
          ≡ ran_with t hash blob d1)
  ran system t hash d h e =
      let started = record t { status = running } in
      let same = execute_task-keyed system t hash d h.keyed in
      let loaded = try_load_task_record os objects_root cache_root started d in
      elim (Load-cases os objects_root cache_root loaded.1) [
        | inl (t', l) ↦
            let skips = load_hit os objects_root cache_root started t' d l in
            let (task, _) = run_or_load-hit system started t' d l in
            let status : (execute_task os objects_root cache_root system t d).1.status ≡ skipped =
              ap (λ x. x.1.status) same ∙ (ap (λ x. x.status) task ∙ skips) in
            absurd cc
        | inr l ↦
            let runs = same ∙ run_or_load-run system started d l in
            let (blob, d1, left) =
              run_task-success system started hash loaded.0
                (with_result-IsRecorded t hash t.result_hash running h)
                (sym (ap (λ x. x.1.status) runs) ∙ e) in
            (blob, d1, runs ∙ left)
      ]

  -- If `execute_task` ran the command of a keyed task with success, then the next `execute_task` of
  -- the task on the disk that the first one left does not run a command: whatever a command would
  -- do, it returns 0 and the same task with the same result hash, now with the status skipped. It is
  -- assumed that the record of the task can be created, opened and written in full, and that no
  -- output's name and no key holds a newline.
  pub execute_task-execute_task :
      (system system' : Option Text → Disk → Disk × Bool) (t : Task) (hash : Text) (d : Disk)
      → IsRecorded os objects_root cache_root t hash
      → (execute_task os objects_root cache_root system t d).1.status ≡ success
      → let first = execute_task os objects_root cache_root system t d in
        ((execute_task os objects_root cache_root system' first.1 first.0).1
          ≡ record first.1 { status = skipped })
        × ((execute_task os objects_root cache_root system' first.1 first.0).2 ≡ true)
  execute_task-execute_task system system' t hash d h e =
      let (blob, d1, same) = ran system t hash d h e in
      subst
        (λ first.
          ((execute_task os objects_root cache_root system' first.1 first.0).1
            ≡ record first.1 { status = skipped })
          × ((execute_task os objects_root cache_root system' first.1 first.0).2 ≡ true))
        (sym same) (again system' t hash blob d1 h)
