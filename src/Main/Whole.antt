-- ===== src/Main/Whole.antt =====
-- The parts of the program together: from the tasks of the manifest to the end of the loop.
use repro_vm_virtual_machine.Prelude.{codes, ap}
use repro_vm_virtual_machine.Cas.{cas_init}
use repro_vm_virtual_machine.Manifest.{parse_manifest}
use repro_vm_virtual_machine.Main.{
  run_main, exit_code, executed, tasks_at, run_tasks, run_needed, run_sorted, no_degrees, topo_sort,
  build_dependents, collect_needed_tasks,
}
use repro_vm_virtual_machine.Task.{Task, find_task, deps_at, name_at}
use repro_vm_virtual_machine.Task.Link.{resolved, hits}
use repro_vm_virtual_machine.Task.Collect.{Falls}
use repro_vm_virtual_machine.Task.Collect.Plan.{
  IsRequested, NeedsAtMost, IsNamed, Needed, IsPlan, collect_needed_tasks-IsPlan, asked, through,
}
use repro_vm_virtual_machine.Task.Sort.Degrees.{UniqueNames, AreValid, name_at-find_task}
use repro_vm_virtual_machine.Task.Sort.Order.{DepsFirst, topo_sort-DepsFirst, topo_sort-IsRanked}
use repro_vm_virtual_machine.Exec.Run.{Progress, main_loop-Progress}
use repro_vm_virtual_machine.Exec.{main_loop}
use repro_vm_virtual_machine.Cas.{Os, Disk}
use repro_vm_virtual_machine.Prelude.{
  Text, ℕ, SameItems, ◌<◌, ◌==◌, ◌++◌, ◌∷◌, [], List, true, false, Bool, some, Option, refl, ◌≡◌,
  ◌∙◌, sym, arith, inl, inr, ◌↔◌, Bool-cases, Option-cases, length, mem, count, All,
  count_pos_of_mem, count_zero_of_not_mem,
}

resolved-below :
    (tasks : List Task) (j : ℕ) (ds : List Text) → 0 < resolved tasks j ds → j < length tasks
resolved-below tasks j [] h = absurd (omega arith)
resolved-below tasks j (d ∷ ds) h = elim (Option-cases (find_task tasks d)) [
  | inl e ↦
      let none_here : hits (find_task tasks d) j ≡ 0 = rw e refl in
      resolved-below tasks j ds (omega arith)
  | inr (i, e) ↦
      let below = (name_at-find_task tasks d i e).1 in
      elim (Bool-cases (i == j)) [
        | inl same ↦ ground arith
        | inr other ↦
            let none_here : hits (find_task tasks d) j ≡ 0 = rw e (rw other refl) in
            resolved-below tasks j ds (omega arith)
      ]
]

IsNamed-below : (tasks : List Task) (ns : List Text) (t : ℕ) → IsNamed tasks ns t → t < length tasks
IsNamed-below tasks [] t h = absurd h
IsNamed-below tasks (n ∷ ns) t (inl e) = (name_at-find_task tasks n t e).1
IsNamed-below tasks (n ∷ ns) t (inr h) = IsNamed-below tasks ns t h

IsRequested-below :
    (tasks : List Task) (targets : List Text) (t : ℕ)
    → IsRequested tasks targets t
    → t < length tasks
IsRequested-below tasks [] t h = h
IsRequested-below tasks (n ∷ ns) t h = IsNamed-below tasks (n ∷ ns) t h

Needed-below :
    (tasks : List Task) (targets : List Text) (t : ℕ) → Needed tasks targets t → t < length tasks
Needed-below tasks targets t (asked h) = IsRequested-below tasks targets t h
Needed-below tasks targets t (through {i} n e) = resolved-below tasks t (deps_at tasks i) e

AreValid-of_mem :
    (tasks : List Task) (js : List ℕ)
    → ((j : ℕ) → mem j js ≡ true → j < length tasks)
    → AreValid tasks js
AreValid-of_mem tasks [] h = tt
AreValid-of_mem tasks (j ∷ js) h =
    (h j (ground arith), AreValid-of_mem tasks js (λ i m. h i (ground arith)))

SameItems-mem : (xs ys : List ℕ) → SameItems xs ys → (j : ℕ) → (mem j xs ≡ true) ↔ (mem j ys ≡ true)
SameItems-mem xs ys same j = (half xs ys (same j), half ys xs (sym (same j)))
  where
    half : (xs ys : List ℕ) → count j xs ≡ count j ys → mem j xs ≡ true → mem j ys ≡ true
    half xs ys e m = elim (Bool-cases (mem j ys)) [
      | inl there ↦ there
      | inr out ↦ absurd (omega (arith, count_pos_of_mem j xs m, count_zero_of_not_mem j ys out))
    ]

-- A smaller subset asks for less.
DepsFirst-subset :
    (tasks : List Task) (subset subset' seen xs : List ℕ)
    → ((j : ℕ) → mem j subset' ≡ true → mem j subset ≡ true)
    → DepsFirst tasks subset seen xs
    → DepsFirst tasks subset' seen xs
DepsFirst-subset tasks subset subset' seen [] h k = tt
DepsFirst-subset tasks subset subset' seen (t ∷ ts) h k =
    (less (deps_at tasks t) k.0, DepsFirst-subset tasks subset subset' (seen ++ t ∷ []) ts h k.1)
  where
    less :
        (ds : List Text)
        → All (λ d. (j : ℕ) → mem j subset ≡ true → name_at tasks j ≡ d → mem j seen ≡ true) ds
        → All (λ d. (j : ℕ) → mem j subset' ≡ true → name_at tasks j ≡ d → mem j seen ≡ true) ds
    less [] a = tt
    less (d ∷ ds) a = (λ j m e. a.0 j (h j m) e, less ds a.1)

-- A plan is sorted into an order of the same tasks.
sorted :
    (tasks : List Task) (targets : List Text) (rank : ℕ → ℕ) (needed : List ℕ)
    → UniqueNames tasks
    → Falls tasks rank
    → IsPlan tasks targets needed
    → (order : List ℕ) × (topo_sort tasks (build_dependents tasks) needed no_degrees ≡ some order)
      × ((j : ℕ) → (mem j order ≡ true) ↔ Needed tasks targets j)
      × DepsFirst tasks order [] order
sorted tasks targets rank needed unique falls plan =
    let valid =
      AreValid-of_mem tasks needed (λ j m. Needed-below tasks targets j ((plan.exact j).0 m)) in
    let (order, e) =
      topo_sort-IsRanked tasks needed no_degrees unique valid plan.nodup rank
        (λ i j _ _ h. falls i j h) in
    let (same, first) =
      topo_sort-DepsFirst tasks needed no_degrees unique valid plan.nodup order e in
    let members = SameItems-mem order needed same in
    (
      order,
      e,
      λ j. (λ m. (plan.exact j).0 ((members j).0 m), λ n. (members j).1 ((plan.exact j).1 n)),
      DepsFirst-subset tasks needed order [] order (λ j m. (members j).0 m) first,
    )

exit_code-ok :
    (order : List ℕ) (ts : List Task) (ok : Bool)
    → (exit_code (executed order ts ok) ≡ 0) ↔ (ok ≡ true)
exit_code-ok order ts true = (λ _. refl, λ _. refl)
exit_code-ok order ts false = (λ h. absurd (omega arith), λ h. absurd cc)

module _ (os : Os) (system : Option Text → Disk → Disk × Bool) where
  run_main-tasks :
      (fuel : ℕ) (manifest content objects_root cache_root : Text) (targets : List Text) (d : Disk)
      → (cas_init os (codes ".") d).1 ≡ some (objects_root, cache_root)
      → os.can_open manifest ≡ true
      → (cas_init os (codes ".") d).0.files manifest ≡ some content
      → run_main os system fuel (manifest ∷ targets) d
        ≡ run_tasks os system fuel objects_root cache_root
            (parse_manifest content)
            targets
            (cas_init os (codes ".") d).0
  unfolding run_main
  run_main-tasks fuel manifest content objects_root cache_root targets d made can there =
      rw (made, run_main) (rw can (rw there refl))

  run_tasks-needed :
      (fuel : ℕ) (objects_root cache_root : Text) (tasks : List Task) (targets : List Text)
      (needed : List ℕ) (d : Disk)
      → collect_needed_tasks fuel tasks targets ≡ some needed
      → run_tasks os system fuel objects_root cache_root tasks targets d
        ≡ some (run_needed os system objects_root cache_root tasks needed d)
  unfolding run_tasks
  run_tasks-needed fuel objects_root cache_root tasks targets needed d e = rw (e, run_tasks) refl

  run_needed-order :
      (objects_root cache_root : Text) (tasks : List Task) (needed order : List ℕ) (t : ℕ)
      (d : Disk)
      → mem t needed ≡ true
      → topo_sort tasks (build_dependents tasks) needed no_degrees ≡ some order
      → run_needed os system objects_root cache_root tasks needed d
        ≡ run_sorted os system objects_root cache_root tasks (some order) d
  unfolding run_needed
  run_needed-order objects_root cache_root tasks [] order t d m e = absurd cc
  run_needed-order objects_root cache_root tasks (n ∷ ns) order t d m e =
      ap (λ o. run_sorted os system objects_root cache_root tasks o d) e

  -- The program as a whole: if the store can be made, the manifest is read, no two of its tasks
  -- share a name, some rank below the fuel falls along every dependency, at least one task is
  -- requested and no more than 16 are needed, then `main` reaches its loop and returns. The order
  -- holds exactly the requested tasks and those that they need, each behind its dependencies; the
  -- loop has worked through it from the front up to the first failure; and the exit code is 0 if and
  -- only if there was none.
  pub run_main-Progress :
      (fuel : ℕ) (manifest content objects_root cache_root : Text) (targets : List Text) (d : Disk)
      (rank : ℕ → ℕ) (t : ℕ)
      → (cas_init os (codes ".") d).1 ≡ some (objects_root, cache_root)
      → os.can_open manifest ≡ true
      → (cas_init os (codes ".") d).0.files manifest ≡ some content
      → UniqueNames (parse_manifest content)
      → Falls (parse_manifest content) rank
      → ((i : ℕ) → IsRequested (parse_manifest content) targets i → rank i < fuel)
      → IsRequested (parse_manifest content) targets t
      → NeedsAtMost 16 (parse_manifest content) targets
      → (d' : Disk) × (order : List ℕ) × (ts : List Task) × (ok : Bool) × (run_main os system fuel
            (manifest ∷ targets)
            d
          ≡ some (d', executed order ts ok))
        × ((j : ℕ) → (mem j order ≡ true) ↔ Needed (parse_manifest content) targets j)
        × DepsFirst (parse_manifest content) order [] order
        × Progress (tasks_at (parse_manifest content) order) ts ok
        × (exit_code (executed order ts ok) ≡ 0 ↔ ok ≡ true)
  run_main-Progress fuel manifest content objects_root cache_root targets d rank t made can there
        unique falls bounded wanted few =
      let tasks = parse_manifest content in
      let d0 = (cas_init os (codes ".") d).0 in
      let (needed, e, plan) =
        collect_needed_tasks-IsPlan tasks targets rank fuel falls bounded few in
      let (order, f, members, first) = sorted tasks targets rank needed unique falls plan in
      let ran = main_loop os objects_root cache_root system (tasks_at tasks order) d0 in
      let reads =
        run_main-tasks fuel manifest content objects_root cache_root targets d made can there in
      let runs : run_sorted os system objects_root cache_root tasks (some order) d0
          ≡ (ran.0, executed order ran.1 ran.2) =
        unfold run_sorted in refl in
      let some_needed : mem t needed ≡ true = (plan.exact t).1 (asked wanted) in
      (
        ran.0,
        order,
        ran.1,
        ran.2,
        reads
            ∙ (run_tasks-needed fuel objects_root cache_root tasks targets needed d0 e
                ∙ ap (λ x. some x)
                    (run_needed-order objects_root cache_root tasks needed order t d0 some_needed f
                      ∙ runs)),
        members,
        first,
        main_loop-Progress os objects_root cache_root system (tasks_at tasks order) d0,
        exit_code-ok order ran.1 ran.2,
      )
