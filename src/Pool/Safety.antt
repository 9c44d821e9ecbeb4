-- ===== src/Pool/Safety.antt =====
-- What holds in every state that the workers can reach, whatever their interleaving.
use repro_vm_virtual_machine.Pool.Start.{open_pool-PoolInv}
use repro_vm_virtual_machine.Task.Link.{resolved, count-build_dependents}
use repro_vm_virtual_machine.Task.Sort.Order.{names_of_edges, DepsFirst, DepsFirst-of_IsOrdered}
use repro_vm_virtual_machine.Task.Sort.{open_edges, closed_of_open_edges}
use repro_vm_virtual_machine.Pool.View.{view, count-view}
use repro_vm_virtual_machine.Pool.Inv.{PoolInv, Reach-PoolInv}
use repro_vm_virtual_machine.Pool.{Pool, Reach, open_pool}
use repro_vm_virtual_machine.Task.Sort.Degrees.{UniqueNames, AreValid}
use repro_vm_virtual_machine.Task.{Task, name_at, deps_at, Links, build_dependents}
use repro_vm_virtual_machine.Prelude.{
  ℕ, suc, ◌+◌, ◌-◌, ◌≤◌, ◌<◌, ◌==◌, ◌++◌, ◌∷◌, [], List, true, false, ◌≡◌, ◌∙◌, arith, inl, inr,
  Bool-cases, length, mem, count, All, IsNodup, count_pos_of_mem, ap, count-append, compare_cases,
  length-le_of_count_le, length-append,
}
use repro_vm_virtual_machine.Prelude.Int.{pos}

-- All tasks of the subset that t names in its `deps` are among those seen.
abbrev pub DepsSeen : List Task → List ℕ → List ℕ → ℕ → Type 0
DepsSeen tasks subset seen t =
    All (λ d. (j : ℕ) → mem j subset ≡ true → name_at tasks j ≡ d → mem j seen ≡ true)
      (deps_at tasks t)

module _ (tasks : List Task) (subset : List ℕ) (unique : UniqueNames tasks)
    (valid : AreValid tasks subset) (nodup : IsNodup subset) (max_workers : ℕ) where
  abbrev links : Links
  links = build_dependents tasks

  reached :
      {q : Pool}
      → Reach tasks links subset (open_pool tasks subset max_workers) q
      → PoolInv subset links q
  reached r =
      Reach-PoolInv tasks subset unique valid nodup r
        (open_pool-PoolInv tasks subset unique valid nodup max_workers)

  count-view-le :
      {q : Pool} (i : ℕ)
      → PoolInv subset links q
      → count i q.finished + count i (view q).waiting ≤ count i subset
  count-view-le i v = ground (arith, v.sorted.placed i, count_pos_of_mem i subset)

  free-DepsSeen :
      {q : Pool} (t : ℕ)
      → PoolInv subset links q
      → 0 < count t (view q).waiting
      → DepsSeen tasks subset q.finished t
  free-DepsSeen {q} t v there =
      let inside : mem t subset ≡ true = ground (arith, v.sorted.placed t) in
      let closed : open_edges links q.finished t subset ≡ 0 =
        ground (arith, v.sorted.placed t, v.sorted.degree t inside) in
      names_of_edges tasks subset (λ _. pos 0) unique valid nodup q.finished (deps_at tasks t)
        (λ j m edge.
          closed_of_open_edges links q.finished t subset closed j m
            (omega (arith, count-build_dependents tasks t j)))

  -- In every state that the workers can reach, if no two tasks share a name and the subset lists
  -- valid tasks without duplicates: no task is in two of the lists or twice in one, a task that is
  -- ready or running has all its dependencies inside the subset among the finished ones, and each
  -- finished one stood behind its dependencies.
  pub Reach-DepsSeen :
      (q : Pool)
      → Reach tasks (build_dependents tasks) subset (open_pool tasks subset max_workers) q
      → ((i : ℕ)
          → count i q.finished
              + count i q.running
              + count i q.stuck
              + count i q.given_up
              + count i q.ready
            ≤ 1)
        × ((t : ℕ) → 0 < count t q.running + count t q.ready → DepsSeen tasks subset q.finished t)
        × DepsFirst tasks subset [] q.finished
  Reach-DepsSeen q r =
      let v = reached r in
      (
        λ i. omega (arith, count-view-le i v, count-view i q, nodup i),
        λ t there. free-DepsSeen t v (omega (arith, there, count-view t q)),
        DepsFirst-of_IsOrdered tasks subset (λ _. pos 0) unique valid nodup [] q.finished
            v.sorted.ordered,
      )

  -- A task with an open edge is neither finished nor given up.
  outside :
      {q : Pool} (j : ℕ)
      → PoolInv subset links q
      → mem j subset ≡ true
      → 0 < open_edges links q.finished j subset
      → length q.finished + length q.given_up < length subset
  outside {q} j v inside opened =
      let nowhere : count j q.finished + count j (view q).waiting ≡ 0 =
        ground (arith, v.sorted.placed j, v.sorted.degree j inside) in
      let le : (a : ℕ) → count a (j ∷ q.finished ++ q.given_up) ≤ count a subset = λ a.
        elim (Bool-cases (j == a)) [
          | inl same ↦
              let equal : j ≡ a = ground arith in
              let one = count_pos_of_mem j subset inside in
              rw (← equal)
                (ground (arith, one, nowhere, count-view j q, count-append j q.finished q.given_up))
          | inr other ↦
              ground
                (arith, count-view-le a v, count-view a q, count-append a q.finished q.given_up)
        ] in
      omega (
        arith,
        length-le_of_count_le (j ∷ q.finished ++ q.given_up) subset le,
        length-append q.finished q.given_up,
      )

  -- If no two tasks share a name and the subset lists valid tasks without duplicates: in every
  -- state that the workers can reach after the hash of a task could not be computed, if some task
  -- of the subset depends on that task, no worker has left and `remaining` is above 0.
  pub Reach-stranded :
      (q : Pool) (t j : ℕ)
      → Reach tasks (build_dependents tasks) subset (open_pool tasks subset max_workers) q
      → mem t q.given_up ≡ true
      → mem j subset ≡ true
      → 0 < resolved tasks t (deps_at tasks j)
      → (q.exited ≡ 0) × ((n : ℕ) × (q.remaining ≡ pos (suc n)))
  Reach-stranded q t j r lost inside edge =
      let v = reached r in
      let there = count_pos_of_mem t q.given_up lost in
      let chosen : mem t subset ≡ true = ground (arith, v.sorted.placed t, count-view t q) in
      let missing : mem t q.finished ≡ false =
        ground (arith, v.sorted.placed t, count-view t q, count_pos_of_mem t q.finished) in
      let opened : 0 < open_edges links q.finished j subset =
        elim (compare_cases 0 (open_edges links q.finished j subset)) [
          | inl more ↦ more
          | inr none_open ↦
              let closed =
                closed_of_open_edges links q.finished j subset (ground arith) t chosen
                  (omega (arith, count-build_dependents tasks j t)) in
              absurd (cc (closed, missing))
        ] in
      let less = outside j v inside opened in
      let some_left : 0 < v.left = omega (arith, v.tally, less) in
      let stays : q.exited ≡ 0 = elim (compare_cases 0 q.exited) [
        | inl gone ↦ absurd (omega (arith, v.over gone, some_left))
        | inr rest ↦ ground arith
      ] in
      let more : v.left ≡ suc (v.left - 1) = omega arith in
      (stays, (v.left - 1, v.counted ∙ ap (λ n. pos n) more))
