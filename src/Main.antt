-- ===== src/Main.antt =====
-- `main` of main.c: the command line without options, the store in the current directory, and the
-- parts of task.c one after the other. What it prints is left out; `system` is a parameter.
pub mod Whole
use repro_vm_virtual_machine.Prelude.{
  codes, Text, ℕ, zero, suc, ◌+◌, ◌-◌, ◌*◌, ◌≤◌, ◌<◌, if◌then◌else◌, ◌==◌, ◌++◌, ◌∷◌, [], List,
  true, false, Bool, ◌&&◌, ◌||◌, none, some, Option, refl, ◌≡◌, ◌≢◌, ◌∙◌, sym, arith, inl, inr, ◌⊎◌,
  ◌↔◌, Bool-cases, Option-cases, List-cases, length, mem, count, All,
}
use repro_vm_virtual_machine.Prelude.Int.{ℤ, pos}
use repro_vm_virtual_machine.Cas.{Os, Disk, cas_init}
use repro_vm_virtual_machine.Manifest.{parse_manifest}
use repro_vm_virtual_machine.Task.{Task, collect_needed_tasks, topo_sort, build_dependents}
use repro_vm_virtual_machine.Exec.{main_loop}

-- Where `main` returns. After the loop: the order, the tasks as they are then, and whether
-- `overall_failed` is still 0.
pub data Outcome : Type 0 where
  shows_usage no_cas no_manifest no_tasks no_order : Outcome
  executed : List ℕ → List Task → Bool → Outcome

abbrev pub exit_code : Outcome → ℕ
exit_code shows_usage = 1
exit_code no_cas = 1
exit_code no_manifest = 1
exit_code no_tasks = 0
exit_code no_order = 1
exit_code (executed order tasks ok) = if ok then 0 else 1

-- `list->tasks[i]`, as a list of one.
abbrev pub task_at : List Task → ℕ → List Task
task_at [] i = []
task_at (t ∷ ts) zero = t ∷ []
task_at (t ∷ ts) (suc i) = task_at ts i

-- The tasks behind the pointers of an array.
abbrev pub tasks_at : List Task → List ℕ → List Task
tasks_at tasks [] = []
tasks_at tasks (i ∷ is) = task_at tasks i ++ tasks_at tasks is

abbrev pub no_degrees : ℕ → ℤ
no_degrees i = pos 0

module _ (os : Os) (system : Option Text → Disk → Disk × Bool) where
  -- From "topo sort" on.
  unfoldable pub run_sorted : Text → Text → List Task → Option (List ℕ) → Disk → Disk × Outcome
  run_sorted objects_root cache_root tasks none d = (d, no_order)
  run_sorted objects_root cache_root tasks (some order) d =
      let ran = main_loop os objects_root cache_root system (tasks_at tasks order) d in
      (ran.0, executed order ran.1 ran.2)

  unfoldable pub run_needed : Text → Text → List Task → List ℕ → Disk → Disk × Outcome
  run_needed objects_root cache_root tasks [] d = (d, no_tasks)
  run_needed objects_root cache_root tasks (n ∷ ns) d =
      run_sorted objects_root cache_root tasks
        (topo_sort tasks (build_dependents tasks) (n ∷ ns) no_degrees) d

  -- From "collect needed tasks" on. `none` is a recursion deeper than the fuel.
  unfoldable pub run_tasks :
      ℕ → Text → Text → List Task → List Text → Disk → Option (Disk × Outcome)
  run_tasks fuel objects_root cache_root tasks targets d =
      elim (collect_needed_tasks fuel tasks targets) [
        | none ↦ none
        | some needed ↦ some (run_needed objects_root cache_root tasks needed d)
      ]

  -- The arguments behind the name of the program.
  unfoldable pub run_main : ℕ → List Text → Disk → Option (Disk × Outcome)
  run_main fuel [] d = some (d, shows_usage)
  run_main fuel (manifest ∷ targets) d =
      let made = cas_init os (codes ".") d in
      elim made.1 [
        | none ↦ some (made.0, no_cas)
        | some (objects_root, cache_root) ↦
            if os.can_open manifest
            then elim (made.0.files manifest) [
              | none ↦ some (made.0, no_manifest)
              | some content ↦
                  run_tasks fuel objects_root cache_root (parse_manifest content) targets made.0
            ]
            else some (made.0, no_manifest)
      ]
