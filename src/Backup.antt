-- ===== src/Backup.antt =====
-- backup.c and backup.h: the calls of `cp` and `rm`, the list of backups and the cleanup. The
-- system is a parameter, with a state that the operations take and return.
pub mod Cleanup
use repro_vm_virtual_machine.Util.{slash}
use repro_vm_virtual_machine.Prelude.{
  codes, take, drop, Text, ℕ, leb, zero, suc, ◌+◌, ◌-◌, ◌*◌, ◌≤◌, ◌<◌, if◌then◌else◌, ◌==◌, ◌++◌,
  ◌∷◌, [], List, true, false, Bool, ◌&&◌, ◌||◌, none, some, Option, refl, ◌≡◌, ◌≢◌, ◌∙◌, sym, arith,
  inl, inr, ◌⊎◌, ◌↔◌, Bool-cases, Option-cases, List-cases, length, mem, count, All, not,
}
use repro_vm_virtual_machine.Prelude.Int.{ℤ, pos}
use repro_vm_virtual_machine.Config.Save.{decimal}

-- `backup_dir` and `last_backup` change; `max_backups` and `compression_enabled` are only set.
pub record BackupConfig : Type 0 where
  pub backup_dir : Text
  pub max_backups : ℕ
  pub compression_enabled : Bool
  pub last_backup : ℕ

-- `list` is what `readdir` gives of a directory, with `true` for `DT_DIR`, or `none` if it cannot be
-- opened. `system` returns whether the command gave 0.
pub record World {ℓ} (W : Type ℓ) : Type ℓ where
  pub mkdir : Text → W → W
  pub system : Text → W → W × Bool
  pub list : Text → W → Option (List (Text × Bool))
  pub exists : Text → W → Bool
  pub save : Text → Text → W → W

-- `entry->d_name[0] != '.' && entry->d_type == DT_DIR`
abbrev pub is_backup : Text × Bool → Bool
is_backup ([], dir) = dir
is_backup (c ∷ s, dir) = not (c == b'.') && dir

-- The two loops of `backup_list` count the names and then copy them.
abbrev pub backup_names : List (Text × Bool) → List Text
backup_names [] = []
backup_names (e ∷ es) = let rest = backup_names es in if is_backup e then e.0 ∷ rest else rest

module _ {ℓ} {W : Type ℓ} (world : World W) where
  unfoldable pub backup_init : Option Text → BackupConfig → W → BackupConfig × W
  backup_init dir c w =
      let path : Text = elim dir [ some d ↦ take 511 d | none ↦ codes ".reprovm/backups" ] in
      (
        record c { backup_dir = path; max_backups = 10; compression_enabled = true },
        world.mkdir path w,
      )

  abbrev pub backup_path : BackupConfig → Text → Text
  backup_path c name = take 1023 (c.backup_dir ++ slash ∷ name)

  -- `cmd` holds 2047 bytes.
  abbrev pub command : Text → W → W × Bool
  command text w = world.system (take 2047 text) w

  abbrev pub metadata : Text → ℕ → Text
  metadata name now =
      codes "type=full\ncreated="
      ++ (decimal (pos now) ++ (codes "\nname=" ++ (name ++ codes "\n")))

  -- `true` is the return value 0. `save` writes the metadata if the file can be opened.
  unfoldable pub backup_create_full : Text → ℕ → BackupConfig → W → BackupConfig × W × Bool
  backup_create_full name now c w =
      let path = backup_path c name in
      let made = world.mkdir path w in
      let cas = command (codes "cp -r .reprovm/cas " ++ (path ++ codes "/")) made in
      let cache = command (codes "cp -r .reprovm/cache " ++ (path ++ codes "/")) cas.0 in
      let saved =
        world.save (take 1023 (path ++ codes "/metadata.txt")) (metadata name now) cache.0 in
      if not cas.1
      then (c, cas.0, false)
      else if not cache.1
      then (c, cache.0, false)
      else (record c { last_backup = now }, saved, true)

  -- "In production, this would" compare with the base backup.
  unfoldable pub backup_create_incremental :
      Text → Text → ℕ → BackupConfig → W → BackupConfig × W × Bool
  backup_create_incremental base name now c w = backup_create_full name now c w

  unfoldable pub backup_list : BackupConfig → W → Option (List Text)
  backup_list c w = elim (world.list c.backup_dir w) [
    | none ↦ none
    | some es ↦ some (backup_names es)
  ]

  unfoldable pub backup_restore : Text → Text → BackupConfig → W → W × Bool
  backup_restore name to c w =
      let path = backup_path c name in
      let cas =
        command (codes "cp -r " ++ (path ++ (codes "/cas " ++ (to ++ codes "/.reprovm/")))) w in
      let cache =
        command (codes "cp -r " ++ (path ++ (codes "/cache " ++ (to ++ codes "/.reprovm/"))))
          cas.0 in
      if not cas.1 then (cas.0, false) else (cache.0, cache.1)

  unfoldable pub backup_delete : Text → BackupConfig → W → W × Bool
  backup_delete name c w = command (codes "rm -rf " ++ backup_path c name) w

  unfoldable pub backup_verify : Text → BackupConfig → W → Bool
  backup_verify name c w =
      let path = backup_path c name in
      world.exists path w && world.exists (take 1023 (path ++ codes "/cas")) w

  -- The loop of the cleanup. What `backup_delete` returns is not looked at.
  unfoldable pub delete_each : List Text → BackupConfig → W → W
  delete_each [] c w = w
  delete_each (n ∷ ns) c w = delete_each ns c (backup_delete n c w).0

  -- A `keep_count` below zero is not modelled: the loop then runs past the end of the list.
  unfoldable pub backup_cleanup_old : ℕ → BackupConfig → W → W × Bool
  backup_cleanup_old keep c w = elim (backup_list c w) [
    | none ↦ (w, false)
    | some names ↦
        if leb (length names) keep
        then (w, true)
        else (delete_each (take (length names - keep) names) c w, true)
  ]
