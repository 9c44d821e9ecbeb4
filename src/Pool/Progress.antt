-- ===== src/Pool/Progress.antt =====
-- Without failures and cycles the workers never come to a standstill.
use repro_vm_virtual_machine.Task.Link.{count-build_dependents}
use repro_vm_virtual_machine.Pool.Start.{open_pool-PoolInv, open_pool-fresh}
use repro_vm_virtual_machine.Task.Sort.{open_edges}
use repro_vm_virtual_machine.Pool.View.{view, Keeps, release_deps-Keeps}
use repro_vm_virtual_machine.Task.Sort.Order.{IsRanked, open_edges_pos}
use repro_vm_virtual_machine.Pool.Inv.{PoolInv, Reach-PoolInv}
use repro_vm_virtual_machine.Pool.{
  here, next, Pool, Reach, open_pool, Step, completes, takes, take_task, Links, worker_count,
  hash_failed, next, execute_failed, leave, complete_task, leaves, waits, wakes, fall_asleep,
  wake_up, broadcast, is_work, fails_hash, fails_execute, pred_ℤ, release_deps,
}
use repro_vm_virtual_machine.Task.Sort.Degrees.{UniqueNames, AreValid}
use repro_vm_virtual_machine.Task.{Task, build_dependents}
use repro_vm_virtual_machine.Prelude.{
  ℕ, zero, suc, ◌+◌, ◌-◌, ◌≤◌, ◌<◌, ◌++◌, ◌∷◌, [], List, true, false, refl, ◌≡◌, ◌∙◌, arith, inl,
  inr, ◌⊎◌, Bool-cases, List-cases, length, mem, count, IsNodup, count_zero_of_not_mem,
  length-append, ap, count_pos_of_mem, length-le_of_count_le,
}
use repro_vm_virtual_machine.Prelude.Int.{pos}

module _ (tasks : List Task) (subset : List ℕ) where
  -- With an empty queue and a rank that falls along the dependencies, all tasks are finished.
  all_finished :
      {q : Pool} (rank : ℕ → ℕ)
      → PoolInv subset (build_dependents tasks) q
      → IsRanked tasks subset rank
      → ((i : ℕ) → count i (view q).waiting ≡ 0)
      → (bound i : ℕ) → rank i < bound
      → mem i subset ≡ true
      → mem i q.finished ≡ true
  all_finished rank v falls quiet zero i h m = absurd (omega arith)
  all_finished {q} rank v falls quiet (suc bound) i h m = elim (Bool-cases (mem i q.finished)) [
    | inl e ↦ e
    | inr out ↦
        let opened : 0 < open_edges (build_dependents tasks) q.finished i subset = ground (
          arith,
          v.sorted.placed i,
          v.sorted.degree i m,
          quiet i,
          count_zero_of_not_mem i q.finished out,
        ) in
        let (j, mj, oj, edge) =
          open_edges_pos (build_dependents tasks) q.finished i subset opened in
        let smaller = falls i j m mj (omega (arith, count-build_dependents tasks i j)) in
        cc (all_finished rank v falls quiet bound j (omega arith) mj, oj)
  ]

-- The threads, wherever they stand.
abbrev pub crew : Pool → ℕ
crew p = p.idle + p.asleep + length p.running + length p.stuck + p.exited

crew-Keeps : (p q : Pool) → Keeps p q → crew (broadcast q) ≡ crew p
unfolding broadcast
crew-Keeps p q kept = ap (λ x. crew (broadcast x)) kept.same ∙ omega (arith, kept.workers)

pub length-cut :
    (t : ℕ) (before after : List ℕ) → length (before ++ t ∷ after) ≡ suc (length (before ++ after))
length-cut t before after =
    omega (arith, length-append before (t ∷ after), length-append before after)

-- No step makes or loses a thread.
crew-Step :
    {tasks : List Task} {links : Links} {subset : List ℕ} {p q : Pool}
    → Step tasks links subset p q
    → crew q ≡ crew p
unfolding take_task hash_failed execute_failed leave complete_task fall_asleep wake_up broadcast
crew-Step (takes t rest others free e some_idle same) = rw same (omega (arith, some_idle))
crew-Step (fails_hash t before after free e same) =
    rw same (omega (arith, ap length e, length-cut t before after))
crew-Step (fails_execute t before after free e same) =
    rw same (omega (arith, ap length e, length-cut t before after))
crew-Step {tasks} {links} {subset} {p} (completes t before after free e same) =
    let popped : Pool = record p {
      remaining = pred_ℤ p.remaining;
      running = before ++ after;
      idle = p.idle + 1;
      finished = p.finished ++ t ∷ [];
    } in
    let kept =
      crew-Keeps popped (release_deps tasks subset (links t) popped)
        (release_deps-Keeps tasks subset (links t) popped) in
    rw same (omega (arith, kept, ap length e, length-cut t before after))
crew-Step (leaves others free _ _ some_idle same) = rw same (omega (arith, some_idle))
crew-Step (waits n others free _ _ some_idle same) = rw same (omega (arith, some_idle))
crew-Step (wakes free _ same) = rw same (omega arith)

pub crew-Reach :
    {tasks : List Task} {links : Links} {subset : List ℕ} {p q : Pool}
    → Reach tasks links subset p q
    → crew q ≡ crew p
crew-Reach here = refl
crew-Reach (next r s) = crew-Step s ∙ crew-Reach r

pub crew-open_pool :
    (tasks : List Task) (subset : List ℕ) (max_workers : ℕ)
    → crew (open_pool tasks subset max_workers) ≡ worker_count max_workers
crew-open_pool tasks subset max_workers =
    let (m, r, e) = open_pool-fresh tasks subset max_workers in ap crew e ∙ omega arith

-- Workers sleep only while there is nothing to take and something remains.
abbrev pub IsAwake : Pool → Type 0
IsAwake p = (p.asleep ≡ 0) ⊎ ((p.ready ≡ []) × ((n : ℕ) × (p.remaining ≡ pos (suc n))))

-- Whatever brings a task into the queue, or a worker to the end, comes with a broadcast.
Step-IsAwake :
    {tasks : List Task} {links : Links} {subset : List ℕ} {p q : Pool}
    → Step tasks links subset p q
    → IsAwake p
    → IsAwake q
unfolding take_task hash_failed execute_failed leave complete_task fall_asleep wake_up broadcast
Step-IsAwake (takes t rest others free e some_idle same) (inl h) = rw same (inl h)
Step-IsAwake (takes t rest others free e some_idle same) (inr (none_ready, _)) = cc
Step-IsAwake (fails_hash t before after free e same) h = rw same (inl refl)
Step-IsAwake (fails_execute t before after free e same) h = rw same h
Step-IsAwake (completes t before after free e same) h = rw same (inl refl)
Step-IsAwake (leaves others free _ _ some_idle same) h = rw same h
Step-IsAwake (waits n others free none_ready more some_idle same) h =
    rw same (inr (none_ready, (n, more)))
Step-IsAwake (wakes free _ same) h = rw same (inl refl)

Reach-IsAwake :
    {tasks : List Task} {links : Links} {subset : List ℕ} {p q : Pool}
    → Reach tasks links subset p q
    → IsAwake p
    → IsAwake q
Reach-IsAwake here h = h
Reach-IsAwake (next r s) h = Step-IsAwake s (Reach-IsAwake r h)

open_pool-IsAwake :
    (tasks : List Task) (subset : List ℕ) (max_workers : ℕ)
    → IsAwake (open_pool tasks subset max_workers)
open_pool-IsAwake tasks subset max_workers =
    let (m, r, e) = open_pool-fresh tasks subset max_workers in inl (ap (λ (p : Pool). p.asleep) e)

module _ (tasks : List Task) (subset : List ℕ) (unique : UniqueNames tasks)
    (valid : AreValid tasks subset) (nodup : IsNodup subset) (max_workers : ℕ) where
  -- If no two tasks share a name, the subset lists valid tasks without duplicates and some rank
  -- falls along every dependency inside it: in every state that the workers can reach without a
  -- failure and before all of them have left, some worker that need not be woken up first can take a
  -- task, complete one or leave.
  pub Reach-Step :
      (rank : ℕ → ℕ) (q : Pool)
      → IsRanked tasks subset rank
      → Reach tasks (build_dependents tasks) subset (open_pool tasks subset max_workers) q
      → q.failed ≡ false
      → q.exited < worker_count max_workers
      → (q' : Pool) × (s : Step tasks (build_dependents tasks) subset q q') × (is_work s ≡ true)
  unfolding is_work
  Reach-Step rank q falls r good some_stay =
      let v =
        Reach-PoolInv tasks subset unique valid nodup r
          (open_pool-PoolInv tasks subset unique valid nodup max_workers) in
      let (no_given, no_stuck, free) = v.clean good in
      let woken = Reach-IsAwake r (open_pool-IsAwake tasks subset max_workers) in
      let threads = crew-Reach r ∙ crew-open_pool tasks subset max_workers in
      elim (List-cases q.running) [
        | inr (t, others, e) ↦ (_, completes t [] others free e refl, refl)
        | inl none_run ↦
            let idle : q.asleep ≡ 0 → q.idle ≡ suc (q.idle - 1) =
              λ awake. omega (arith, threads, awake, ap length none_run, ap length no_stuck) in
            elim (List-cases q.ready) [
              | inr (t, rest, e) ↦
                  let awake : q.asleep ≡ 0 = elim woken [ inl h ↦ h | inr (none_ready, _) ↦ cc ] in
                  (_, takes t rest (q.idle - 1) free e (idle awake) refl, refl)
              | inl none_ready ↦
                  let quiet : (i : ℕ) → count i (view q).waiting ≡ 0 =
                    λ i. rw (none_run, no_stuck, no_given, none_ready) refl in
                  let all = λ (i : ℕ) (m : mem i subset ≡ true).
                    all_finished tasks subset rank v falls quiet (suc (rank i)) i (omega arith) m in
                  let le : (a : ℕ) → count a subset ≤ count a q.finished = λ a.
                    elim (Bool-cases (mem a subset)) [
                      | inl m ↦ omega (arith, nodup a, count_pos_of_mem a q.finished (all a m))
                      | inr out ↦ omega (arith, count_zero_of_not_mem a subset out)
                    ] in
                  let over : v.left ≡ 0 =
                    omega (arith, v.tally, length-le_of_count_le subset q.finished le) in
                  let none_left : q.remaining ≡ pos 0 = v.counted ∙ ap (λ n. pos n) over in
                  let awake : q.asleep ≡ 0 = elim woken [ inl h ↦ h | inr (_, (n, more)) ↦ cc ] in
                  (_, leaves (q.idle - 1) free none_ready none_left (idle awake) refl, refl)
            ]
      ]
