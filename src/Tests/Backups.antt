-- ===== src/Tests/Backups.antt =====
-- backup.c on three backups and a file.
use repro_vm_virtual_machine.Prelude.{
  codes, Text, drop, ◌∷◌, [], List, true, false, Bool, some, refl, ◌≡◌, ◌∙◌, ap,
}
use repro_vm_virtual_machine.Backup.{
  World, BackupConfig, backup_list, backup_cleanup_old, backup_delete,
}
use repro_vm_virtual_machine.Backup.Cleanup.{without, Removes, backup_list-backup_cleanup_old}

abbrev Entries : Type 0
Entries = List (Text × Bool)

-- `rm -rf b/` and a name.
abbrev one_dir : World Entries
one_dir = record {
  mkdir = λ p w. w;
  system = λ cmd w. (without (drop 9 cmd) w, true);
  list = λ p w. some w;
  exists = λ p w. true;
  save = λ p s w. w;
}

abbrev conf : BackupConfig
conf = record {
  backup_dir = codes "b";
  max_backups = 10;
  compression_enabled = true;
  last_backup = 0;
}

abbrev stored : Entries
stored =
    (codes "new", true)
    ∷ (codes "notes", false)
    ∷ (codes "old", true)
    ∷ (codes ".", true)
    ∷ (codes "older", true)
    ∷ []

Removes-one_dir :
    (n : Text)
    → ((w : Entries) → (backup_delete one_dir n conf w).0 ≡ without n w)
    → Removes one_dir conf n
Removes-one_dir n h w es e =
    let same : w ≡ es = cc in ap (λ x. some x) (h w) ∙ ap (λ x. some (without n x)) same

backup_list-backup_cleanup_old_example :
    backup_list one_dir conf (backup_cleanup_old one_dir 2 conf stored).0
    ≡ some (codes "old" ∷ codes "older" ∷ [])
unfolding backup_delete
backup_list-backup_cleanup_old_example =
    backup_list-backup_cleanup_old one_dir conf 2 stored stored
      (
        Removes-one_dir (codes "new") (λ w. refl),
        (
          Removes-one_dir (codes "old") (λ w. refl),
          (Removes-one_dir (codes "older") (λ w. refl), tt),
        ),
      )
      ((refl, (refl, tt)), ((refl, tt), (tt, tt))) refl
