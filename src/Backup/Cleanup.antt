-- ===== src/Backup/Cleanup.antt =====
-- Which backups `backup_cleanup_old` leaves.
use repro_vm_virtual_machine.Backup.{
  World, BackupConfig, backup_names, backup_list, backup_delete, delete_each, backup_cleanup_old,
  is_backup,
}
use repro_vm_virtual_machine.Prelude.{
  take, drop, Text, ℕ, leb, str_eq, zero, suc, ◌-◌, if◌then◌else◌, ◌∷◌, [], List, false, Bool, some,
  refl, ◌≡◌, ◌∙◌, sym, arith, inl, inr, Bool-cases, length, All, ap, str_eq_refl,
}

-- A directory without one of its entries.
abbrev pub without : Text → List (Text × Bool) → List (Text × Bool)
without n [] = []
without n (e ∷ es) = let rest = without n es in if str_eq e.0 n then rest else e ∷ rest

-- No two names are the same.
abbrev pub Distinct : List Text → Type 0
Distinct [] = Unit
Distinct (n ∷ ns) = All (λ m. str_eq m n ≡ false) ns × Distinct ns

remove : Text → List Text → List Text
remove n [] = []
remove n (m ∷ ms) = let rest = remove n ms in if str_eq m n then rest else m ∷ rest

backup_names-without :
    (n : Text) (es : List (Text × Bool)) → backup_names (without n es) ≡ remove n (backup_names es)
unfolding remove
backup_names-without n [] = refl
backup_names-without n (e ∷ es) = elim (Bool-cases (str_eq e.0 n)) [
  | inl same ↦ elim (Bool-cases (is_backup e)) [
    | inl shown ↦ rw (same, shown) (rw same (backup_names-without n es))
    | inr hidden ↦ rw (same, hidden) (backup_names-without n es)
  ]
  | inr other ↦ elim (Bool-cases (is_backup e)) [
    | inl shown ↦ rw other (rw shown (rw other (ap (λ t. e.0 ∷ t) (backup_names-without n es))))
    | inr hidden ↦ rw other (rw hidden (backup_names-without n es))
  ]
]

remove-absent : (n : Text) (ms : List Text) → All (λ m. str_eq m n ≡ false) ms → remove n ms ≡ ms
unfolding remove
remove-absent n [] h = refl
remove-absent n (m ∷ ms) h = rw h.0 (ap (λ t. m ∷ t) (remove-absent n ms h.1))

remove-first :
    (n : Text) (ms : List Text) → All (λ m. str_eq m n ≡ false) ms → remove n (n ∷ ms) ≡ ms
unfolding remove
remove-first n ms h = rw (str_eq_refl n) (remove-absent n ms h)

module _ {ℓ} {W : Type ℓ} (world : World W) (c : BackupConfig) where
  -- `rm -rf` takes exactly the entry n out of the directory of the backups.
  abbrev pub Removes : Text → Type ℓ
  Removes n =
      (w : W) (es : List (Text × Bool))
      → world.list c.backup_dir w ≡ some es
      → world.list c.backup_dir (backup_delete world n c w).0 ≡ some (without n es)

  backup_list-some :
      (w : W) (es : List (Text × Bool))
      → world.list c.backup_dir w ≡ some es
      → backup_list world c w ≡ some (backup_names es)
  unfolding backup_list
  backup_list-some w es e = rw (e, backup_list) refl

  delete_each-take :
      (k : ℕ) (ns : List Text) (w : W) (es : List (Text × Bool))
      → All Removes ns
      → Distinct ns
      → world.list c.backup_dir w ≡ some es
      → backup_names es ≡ ns
      → backup_list world c (delete_each world (take k ns) c w) ≡ some (drop k ns)
  unfolding delete_each
  delete_each-take zero ns w es rm d e same = backup_list-some w es e ∙ ap (λ t. some t) same
  delete_each-take (suc k) [] w es rm d e same = backup_list-some w es e ∙ ap (λ t. some t) same
  delete_each-take (suc k) (n ∷ ns) w es rm d e same =
      delete_each-take k ns (backup_delete world n c w).0 (without n es) rm.1 d.1 (rm.0 w es e)
        (backup_names-without n es ∙ (ap (remove n) same ∙ remove-first n ns d.0))

  cleanup_cases :
      (keep : ℕ) (w : W) (names : List Text)
      → backup_list world c w ≡ some names
      → ((backup_cleanup_old world keep c w).0 ≡ (
          if leb (length names) keep
          then w
          else delete_each world (take (length names - keep) names) c w))
  unfolding backup_cleanup_old
  cleanup_cases keep w names e = elim (Bool-cases (leb (length names) keep)) [
    | inl few ↦ rw (e, backup_cleanup_old) (rw few refl)
    | inr many ↦ rw (e, backup_cleanup_old) (rw many refl)
  ]

  -- If `rm -rf` removes exactly the entry that it is given, for each listed backup, and the names
  -- of the backups are all different: after `backup_cleanup_old` the list of backups is the old one without its first
  -- names, as many as there were more than `keep`; none if there were not more. The order is that
  -- of the directory: no date is looked at.
  pub backup_list-backup_cleanup_old :
      (keep : ℕ) (w : W) (es : List (Text × Bool))
      → All Removes (backup_names es)
      → Distinct (backup_names es)
      → world.list c.backup_dir w ≡ some es
      → backup_list world c (backup_cleanup_old world keep c w).0
        ≡ some (drop (length (backup_names es) - keep) (backup_names es))
  backup_list-backup_cleanup_old keep w es rm d e =
      let names = backup_names es in
      let listed = backup_list-some w es e in
      let left = cleanup_cases keep w names listed in
      elim (Bool-cases (leb (length names) keep)) [
        | inl few ↦
            let none_over : length names - keep ≡ 0 = ground arith in
            rw (left, few) (listed ∙ ap (λ k. some (drop k names)) (sym none_over))
        | inr many ↦ rw (left, many) (delete_each-take (length names - keep) names w es rm d e refl)
      ]
