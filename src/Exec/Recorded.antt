-- ===== src/Exec/Recorded.antt =====
-- A record that the system lets through: it is written as it stands, and read back as it was written.
use repro_vm_virtual_machine.Util.{is_empty}
use repro_vm_virtual_machine.Prelude.{
  IsShown, str_eq_refl, Text, ℕ, ◌≤◌, ◌++◌, ◌∷◌, [], List, true, false, none, some, refl, ◌≡◌, ◌∙◌,
  length, mem, All, ap,
}
use repro_vm_virtual_machine.Exec.Record.{record_result}
use repro_vm_virtual_machine.Cas.{Os, Disk, put_file, written}
use repro_vm_virtual_machine.Task.{Task, skipped}
use repro_vm_virtual_machine.Exec.{
  meta_head, output_lines, meta_path, write_task_record, try_load_task_record, hit, meta_lines,
  pieces,
}

module _ (os : Os) (objects_root cache_root : Text) where
  -- A record that the system lets through: its path can be created and opened, and no write to it
  -- is cut. The names of the outputs hold no newline.
  pub record IsRecorded (t : Task) (hash : Text) : Type 0 where
    pub keyed : t.task_hash ≡ some hash
    pub key_line : mem 10 hash ≡ false
    pub can_create : os.can_create (meta_path os objects_root cache_root hash) ≡ true
    pub can_open : os.can_open (meta_path os objects_root cache_root hash) ≡ true
    pub uncut : os.room (meta_path os objects_root cache_root hash) ≡ none
    pub names : All (λ o. mem 10 o ≡ false) t.outputs

  abbrev pub recorded : Task → Text → Disk → Disk
  recorded t hash d =
      let path = meta_path os objects_root cache_root hash in
      let outs =
        output_lines os objects_root cache_root t.outputs
          (record d { files = put_file path (some []) d.files }) in
      record outs.0 {
        files =
            put_file path (some (meta_head os objects_root cache_root hash t.result_hash ++ outs.1))
              outs.0.files;
      }

  written-whole : (p : Text) (blob : List ℕ) → os.room p ≡ none → written os p blob ≡ blob
  written-whole p blob e = rw (e, written) refl

  pub write_task_record-IsRecorded :
      (t : Task) (hash : Text) (d : Disk)
      → IsRecorded t hash
      → write_task_record os objects_root cache_root t d ≡ (recorded t hash d, true)
  unfolding write_task_record
  write_task_record-IsRecorded t hash d h =
      let path = meta_path os objects_root cache_root hash in
      let outs =
        output_lines os objects_root cache_root t.outputs
          (record d { files = put_file path (some []) d.files }) in
      let text = meta_head os objects_root cache_root hash t.result_hash ++ outs.1 in
      rw (h.keyed, write_task_record) (rw (h.can_create, written-whole path text h.uncut) refl)

  load_at :
      (t : Task) (hash content : Text) (d : Disk)
      → t.task_hash ≡ some hash
      → os.can_open (meta_path os objects_root cache_root hash) ≡ true
      → d.files (meta_path os objects_root cache_root hash) ≡ some content
      → (try_load_task_record os objects_root cache_root t d).1
        ≡ hit (record t {
          result_hash =
              some
                (meta_lines os objects_root cache_root
                  (record { result = []; outputs = [] })
                  (pieces 10 content)).result;
          status = skipped;
        })
  unfolding try_load_task_record
  load_at t hash content d e can there =
      let result =
        (meta_lines os objects_root cache_root (record { result = []; outputs = [] })
          (pieces 10 content)).result in
      rw (e, try_load_task_record)
        (rw there (
          rw can (
            ap (λ x. hit (record t { task_hash = x; result_hash = some result; status = skipped }))
              e)))

  pub load_recorded :
      (t : Task) (hash r : Text) (d : Disk)
      → IsRecorded t hash
      → t.result_hash ≡ some r
      → is_empty r ≡ false
      → IsShown r
      → length r ≤ 255
      → (try_load_task_record os objects_root cache_root t (recorded t hash d)).1
        ≡ hit (record t { result_hash = some r; status = skipped })
  load_recorded t hash [] d h e filled shown fits = absurd cc
  load_recorded t hash (c ∷ r) d h e filled shown fits =
      let path = meta_path os objects_root cache_root hash in
      let opened = record d { files = put_file path (some []) d.files } in
      let text = (output_lines os objects_root cache_root t.outputs opened).1 in
      let there : (recorded t hash d).files path
          ≡ some (meta_head os objects_root cache_root hash (some (c ∷ r)) ++ text) =
        rw (str_eq_refl path, e) refl in
      load_at t hash _ (recorded t hash d) h.keyed h.can_open there
      ∙ ap (λ x. hit (record t { result_hash = some x; status = skipped }))
          (record_result os objects_root cache_root hash c r t.outputs opened h.key_line shown fits
            h.names)
