-- ===== src/Task/Collect/Cycles.antt =====
-- `collect_dfs` on a manifest with a cycle: the recursion never comes back, so the cycle check of
-- `topo_sort` is not reached.
use repro_vm_virtual_machine.Prelude.{
  ℕ, zero, suc, ◌<◌, if◌then◌else◌, ◌==◌, ◌++◌, ◌∷◌, [], List, true, false, Bool, none, some,
  Option, refl, ◌≡◌, ◌∙◌, arith, inl, inr, ◌⊎◌, Bool-cases, Option-cases, Text, mem, subst, ap,
  mem-append, length, ltb,
}
use repro_vm_virtual_machine.Task.{
  Task, find_task, deps_at, collect_deps, collect_dfs, collect_list, collect_needed_tasks, put_task,
}
use repro_vm_virtual_machine.Task.Collect.Plan.{
  roots, roots-IsRequested, IsRequested, collect_needed_tasks-roots,
}
use repro_vm_virtual_machine.Task.Link.{hits, resolved}

-- Every task of the set depends on one of the set.
abbrev pub IsTrap : List Task → (ℕ → Bool) → Type 0
IsTrap tasks trap =
    (i : ℕ) → trap i ≡ true → (j : ℕ) × (trap j ≡ true) × (0 < resolved tasks j (deps_at tasks i))

-- No task of the set has been collected.
abbrev pub Avoids : (ℕ → Bool) → List ℕ → Type 0
Avoids trap out = (j : ℕ) → trap j ≡ true → mem j out ≡ false

module _ (tasks : List Task) (trap : ℕ → Bool) where
  -- A call either never returns or met no task of the set.
  abbrev Escapes : Option (List ℕ) → Type 0 → Type 0
  Escapes r Q = (r ≡ none) ⊎ ((out : List ℕ) × (r ≡ some out) × Avoids trap out × Q)

  collect_deps-Escapes :
      (visit : ℕ → List ℕ → Option (List ℕ)) (ds : List Text) (out : List ℕ)
      → ((j : ℕ) (o : List ℕ) → Avoids trap o → Escapes (visit j o) (trap j ≡ false))
      → Avoids trap out
      → Escapes
          (collect_deps visit tasks ds out)
          ((j : ℕ) → 0 < resolved tasks j ds → trap j ≡ false)
  unfolding collect_deps
  collect_deps-Escapes visit [] out h clean = inr (out, refl, clean, λ j e. absurd (omega arith))
  collect_deps-Escapes visit (d ∷ ds) out h clean = elim (Option-cases (find_task tasks d)) [
    | inl e ↦
        let miss : (j : ℕ) → hits (find_task tasks d) j ≡ 0 = λ j. rw e refl in
        elim (collect_deps-Escapes visit ds out h clean) [
          | inl stuck ↦ inl (rw (e, collect_deps) stuck)
          | inr (o, eq, clean', free) ↦
              inr (o, rw (e, collect_deps) eq, clean', λ j r. free j (omega (arith, miss j)))
        ]
    | inr (k, e) ↦
        let hit : (j : ℕ) → hits (find_task tasks d) j ≡ (if k == j then 1 else 0) =
          λ j. rw e refl in
        elim (h k out clean) [
          | inl stuck ↦ inl (rw (e, collect_deps) (rw (stuck, collect_deps) refl))
          | inr (mid, eq, clean', k_free) ↦ elim (collect_deps-Escapes visit ds mid h clean') [
            | inl stuck ↦ inl (rw (e, collect_deps) (rw (eq, collect_deps) stuck))
            | inr (o, eq', clean'', free) ↦ inr (
              o,
              rw (e, collect_deps) (rw (eq, collect_deps) eq'),
              clean'',
              λ j r. elim (Bool-cases (k == j)) [
                | inl same ↦ let kj : k ≡ j = ground arith in subst (λ x. trap x ≡ false) kj k_free
                | inr other ↦ free j (ground (arith, hit j))
              ],
            )
          ]
        ]
  ]

  module _ (is_trap : IsTrap tasks trap) (cap : ℕ) where
    collect_dfs-Escapes :
        (fuel t : ℕ) (out : List ℕ)
        → Avoids trap out
        → Escapes (collect_dfs cap fuel tasks t out) (trap t ≡ false)
    unfolding collect_dfs put_task
    collect_dfs-Escapes zero t out clean = inl refl
    collect_dfs-Escapes (suc fuel) t out clean = elim (Bool-cases (mem t out)) [
      | inl old ↦ inr (
        out,
        rw old refl,
        clean,
        elim (Bool-cases (trap t)) [ inl bad ↦ cc (clean t bad) | inr good ↦ good ],
      )
      | inr new ↦
          elim (collect_deps-Escapes (collect_dfs cap fuel tasks) (deps_at tasks t) out
            (collect_dfs-Escapes fuel) clean) [
              | inl stuck ↦ inl (rw (new, stuck) refl)
              | inr (o, eq, clean', free) ↦ elim (Bool-cases (trap t)) [
                | inl bad ↦ let (j, bad_j, edge) = is_trap t bad in cc (free j edge, bad_j)
                | inr good ↦ elim (Bool-cases (ltb (length o) cap)) [
                  | inr moved ↦ inl (rw (new, eq, moved) refl)
                  | inl short ↦ inr (
                    o ++ t ∷ [],
                    rw (new, eq, short) refl,
                    λ j bj. ground (arith, mem-append j o (t ∷ []), clean' j bj, ap trap),
                    good,
                  )
                ]
              ]
            ]
    ]

    -- A call for a task of the set returns at no depth of the recursion.
    pub collect_dfs-IsTrap :
        (fuel t : ℕ) (out : List ℕ)
        → trap t ≡ true
        → Avoids trap out
        → collect_dfs cap fuel tasks t out ≡ none
    collect_dfs-IsTrap fuel t out bad clean = elim (collect_dfs-Escapes fuel t out clean) [
      | inl stuck ↦ stuck
      | inr (o, eq, clean', good) ↦ cc
    ]

    collect_list-IsTrap :
        (fuel : ℕ) (ts out : List ℕ) (t : ℕ)
        → trap t ≡ true
        → mem t ts ≡ true
        → Avoids trap out
        → collect_list cap fuel tasks ts out ≡ none
    unfolding collect_list
    collect_list-IsTrap fuel [] out t bad m clean = cc
    collect_list-IsTrap fuel (x ∷ ts) out t bad m clean =
        elim (collect_dfs-Escapes fuel x out clean) [
          | inl stuck ↦ rw (stuck, collect_list) refl
          | inr (o, eq, clean', good) ↦
              let tail : mem t ts ≡ true = ground (arith, ap trap) in
              rw (eq, collect_list) (collect_list-IsTrap fuel ts o t bad tail clean')
        ]

-- If the manifest has a set of tasks in which each depends on one of the set, and one of them is
-- requested, then `collect_needed_tasks` returns at no recursion depth, nor does its loop with an
-- array of any other capacity: the C program recurses until its stack is used up, and never reaches
-- the cycle check of `topo_sort`.
pub collect_needed_tasks-IsTrap :
    (tasks : List Task) (targets : List Text) (trap : ℕ → Bool) (t : ℕ)
    → IsTrap tasks trap
    → trap t ≡ true
    → IsRequested tasks targets t
    → (fuel : ℕ)
    → (collect_needed_tasks fuel tasks targets ≡ none)
      × ((cap : ℕ) → collect_list cap fuel tasks (roots tasks targets) [] ≡ none)
collect_needed_tasks-IsTrap tasks targets trap t is_trap bad asked fuel =
    let stuck = λ (cap : ℕ).
      collect_list-IsTrap tasks trap is_trap cap fuel (roots tasks targets) [] t bad
        ((roots-IsRequested tasks targets t).1 asked) (λ j b. refl) in
    (collect_needed_tasks-roots fuel tasks targets ∙ stuck 16, stuck)
