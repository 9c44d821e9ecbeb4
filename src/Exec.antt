-- ===== src/Exec.antt =====
-- The cache of task results in task.c, `execute_task`, and the sequential loop of main.c. `system`
-- is a parameter: what the command line does to the disk, and whether it returned 0. The texts that
-- the C code builds in a buffer of 4096 bytes are not cut here: it does not check their length.
pub mod Key
pub mod Run
pub mod Record
pub mod Recorded
pub mod Cached
use repro_vm_virtual_machine.CacheKey.{key_text, or_empty, sort_hashes}
use repro_vm_virtual_machine.Sha.{sha256}
use repro_vm_virtual_machine.Task.{Task, running, failed, skipped, success}
use repro_vm_virtual_machine.Cas.{
  Os, Disk, cas_store_blob_from_file, cas_restore_blob_to_file, file_exists, put_file, written,
}
use repro_vm_virtual_machine.Prelude.{
  take, str_eq, codes, starts_with, skip_spaces, after, c_str, drop, ℕ, zero, suc, ◌+◌, ◌-◌, ◌*◌,
  ◌≤◌, ◌<◌, if◌then◌else◌, ◌==◌, ◌++◌, ◌∷◌, [], List, true, false, Bool, ◌&&◌, ◌||◌, none, some,
  Option, refl, ◌≡◌, ◌≢◌, ◌∙◌, sym, arith, inl, inr, ◌⊎◌, ◌↔◌, Bool-cases, Option-cases, List-cases,
  length, Text, mem, count, All, ltb, not,
}
use repro_vm_virtual_machine.Util.{
  hex_encode, slash, trim, pieces, keep_nonempty, join_strings, comma,
}

module _ (os : Os) (objects_root cache_root : Text) where
  -- The loop over the inputs: it stops at the first that cannot be stored.
  unfoldable pub store_inputs : List Text → Disk → Disk × Option (List Text)
  store_inputs [] d = (d, some [])
  store_inputs (i ∷ is) d =
      let stored = cas_store_blob_from_file os objects_root i d in
      let rest = store_inputs is stored.0 in
      elim stored.1 [
        | none ↦ (stored.0, none)
        | some h ↦ elim rest.1 [ none ↦ (rest.0, none) | some hs ↦ (rest.0, some (h ∷ hs)) ]
      ]

  -- `some` is the return value 0.
  unfoldable pub compute_task_hash : Task → Disk → Disk × Option Task
  compute_task_hash t d =
      let stored = store_inputs t.inputs d in
      elim stored.1 [
        | none ↦ (stored.0, none)
        | some hashes ↦ (
          stored.0,
          some (record t { task_hash = some (hex_encode (sha256 (key_text t.cmd hashes t.deps))) }),
        )
      ]

  abbrev pub meta_path : Text → Text
  meta_path hash = take 2047 (cache_root ++ slash ∷ hash ++ codes ".meta")

  -- What the lines of a record say: the result hash, and the outputs with their hashes.
  pub record Meta : Type 0 where
    pub result : Text
    pub outputs : List (Text × Text)

  abbrev pub output_of : List Text → List (Text × Text)
  output_of [] = []
  output_of (name ∷ []) = []
  output_of (name ∷ hash ∷ rest) = (name, hash) ∷ []

  unfoldable pub meta_line : Meta → Text → Meta
  meta_line m line =
      let s = trim (c_str line) in
      if starts_with (codes "result_hash:") s
      then record m { result = take 255 (skip_spaces (drop 12 s)) }
      else if starts_with (codes "output ") s
      then record m { outputs = m.outputs ++ output_of (keep_nonempty (pieces 32 (drop 7 s))) }
      else m

  unfoldable pub meta_lines : Meta → List Text → Meta
  meta_lines m [] = m
  meta_lines m (l ∷ ls) = meta_lines (meta_line m l) ls

  -- The inner loop of the restore: the declared outputs of that name. Failures are ignored.
  unfoldable pub restore_matching : Text → Text → List Text → Disk → Disk
  restore_matching name hash [] d = d
  restore_matching name hash (o ∷ os') d =
      let restored = cas_restore_blob_to_file os objects_root hash o d in
      restore_matching name hash os' (if str_eq o name then restored.0 else d)

  unfoldable pub restore_outputs : List (Text × Text) → List Text → Disk → Disk
  restore_outputs [] declared d = d
  restore_outputs ((name, hash) ∷ rest) declared d =
      restore_outputs rest declared (restore_matching name hash declared d)

  -- `try_load_task_record`: 1, 0 and -1. A task without a hash is a miss.
  pub data Load : Type 0 where
    hit : Task → Load
    miss : Load
    unreadable : Load

  unfoldable pub try_load_task_record : Task → Disk → Disk × Load
  try_load_task_record t d = elim t.task_hash [
    | none ↦ (d, miss)
    | some hash ↦
        if file_exists d (meta_path hash)
        then elim (d.files (meta_path hash)) [
          | none ↦ (d, unreadable)
          | some content ↦
              let m = meta_lines (record { result = []; outputs = [] }) (pieces 10 content) in
              if os.can_open (meta_path hash)
              then (
                restore_outputs m.outputs t.outputs d,
                hit (record t { result_hash = some m.result; status = skipped }),
              )
              else (d, unreadable)
        ]
        else (d, miss)
  ]

  -- The loop over the outputs in `write_task_record`: one that cannot be stored has no line.
  unfoldable pub output_lines : List Text → Disk → Disk × Text
  output_lines [] d = (d, [])
  output_lines (o ∷ os') d =
      let stored = cas_store_blob_from_file os objects_root o d in
      let rest = output_lines os' stored.0 in
      elim stored.1 [
        | none ↦ rest
        | some h ↦ (rest.0, codes "output " ++ (o ++ (32 ∷ h ++ 10 ∷ rest.1)))
      ]

  abbrev pub meta_head : Text → Option Text → Text
  meta_head hash result =
      codes "task_hash: " ++ (hash ++ (codes "\nresult_hash: " ++ (or_empty result ++ codes "\n")))

  -- The text reaches the file at `fclose`, whose result is not looked at.
  unfoldable pub write_task_record : Task → Disk → Disk × Bool
  write_task_record t d = elim t.task_hash [
    | none ↦ (d, false)
    | some hash ↦
        let path = meta_path hash in
        let opened = record d { files = put_file path (some []) d.files } in
        let outs = output_lines t.outputs opened in
        let text = meta_head hash t.result_hash ++ outs.1 in
        if os.can_create path
        then (
          record outs.0 { files = put_file path (some (written os path text)) outs.0.files },
          true,
        )
        else (d, false)
  ]

  unfoldable pub output_hashes : List Text → Disk → Disk × List Text
  output_hashes [] d = (d, [])
  output_hashes (o ∷ os') d =
      let stored = cas_store_blob_from_file os objects_root o d in
      let absent = output_hashes os' d in
      let rest = output_hashes os' stored.0 in
      if file_exists d o then (rest.0, or_empty stored.1 ∷ rest.1) else (absent.0, [] ∷ absent.1)

  unfoldable pub compute_result_hash : Task → Disk → Disk × Task
  compute_result_hash t d =
      let hashes = output_hashes t.outputs d in
      let text = join_strings (sort_hashes hashes.1) (comma ∷ []) in
      (hashes.0, record t { result_hash = some (hex_encode (sha256 text)) })

  module _ (system : Option Text → Disk → Disk × Bool) where
    -- From "Run the command" on.
    unfoldable pub run_task : Task → Disk → Disk × Task × Bool
    run_task t d =
        let ran = system t.cmd d in
        let hashed = compute_result_hash t ran.0 in
        let recorded = write_task_record hashed.1 hashed.0 in
        if not ran.1
        then (ran.0, record t { status = failed }, false)
        else if recorded.1
        then (recorded.0, record hashed.1 { status = success }, true)
        else (recorded.0, record hashed.1 { status = failed }, false)

    -- What follows the cache key.
    unfoldable pub run_or_load : Task → Disk → Disk × Task × Bool
    run_or_load t d =
        let loaded = try_load_task_record t d in
        elim loaded.1 [
          | hit t' ↦ (loaded.0, t', true)
          | miss ↦ run_task t loaded.0
          | unreadable ↦ run_task t loaded.0
        ]

    -- `true` is the return value 0.
    unfoldable pub execute_task : Task → Disk → Disk × Task × Bool
    execute_task t d =
        let started = record t { status = running } in
        let keyed = compute_task_hash started d in
        elim t.task_hash [
          | some _ ↦ run_or_load started d
          | none ↦ elim keyed.1 [
            | none ↦ (keyed.0, record t { status = failed }, false)
            | some t' ↦ run_or_load t' keyed.0
          ]
        ]

    -- One round of the loop of `main`.
    unfoldable pub main_round : Task → Disk → Disk × Task × Bool
    main_round t d =
        let keyed = compute_task_hash t d in
        elim t.task_hash [
          | some _ ↦ execute_task t d
          | none ↦ elim keyed.1 [
            | none ↦ (keyed.0, record t { status = failed }, false)
            | some t' ↦ execute_task t' keyed.0
          ]
        ]

    -- The loop over the sorted tasks: it stops at the first failure. `false` is `overall_failed`.
    unfoldable pub main_loop : List Task → Disk → Disk × List Task × Bool
    main_loop [] d = (d, [], true)
    main_loop (t ∷ ts) d =
        let (d', t', ok) = main_round t d in
        let (d'', ts', ok') = main_loop ts d' in
        if ok then (d'', t' ∷ ts', ok') else (d', t' ∷ ts, false)
