-- ===== src/Pool/Inv.antt =====
-- What every step of the pool keeps.
use repro_vm_virtual_machine.Task.Link.{resolved, count-build_dependents}
use repro_vm_virtual_machine.Task.Sort.Degrees.{UniqueNames, AreValid}
use repro_vm_virtual_machine.Pool.View.{
  view, Inv-recount, count-view, Inv-release_deps, release_deps-Keeps,
}
use repro_vm_virtual_machine.Task.Sort.{Inv, within, Inv-pop}
use repro_vm_virtual_machine.Pool.{
  takes, fails_hash, fails_execute, completes, leaves, here, next, Pool, take_task, hash_failed,
  execute_failed, leave, waits, wakes, fall_asleep, wake_up, broadcast, Task, deps_at,
  complete_task, Step, Reach,
}
use repro_vm_virtual_machine.Task.{Links, build_dependents}
use repro_vm_virtual_machine.Prelude.{
  ℕ, zero, suc, ◌+◌, ◌-◌, ◌≤◌, ◌<◌, if◌then◌else◌, ◌==◌, ◌++◌, ◌∷◌, [], List, true, false, refl,
  ◌≡◌, ◌∙◌, sym, arith, inl, inr, length, mem, count, count-append, length-append, ap,
  compare_cases, IsNodup, count_pos_of_mem, subst,
}
use repro_vm_virtual_machine.Prelude.Int.{pos, pred_ℤ}

-- `left` is the value of `remaining`: the tasks that are neither finished nor given up.
pub record PoolInv (subset : List ℕ) (links : Links) (p : Pool) : Type 0 where
  pub sorted : Inv subset links (view p) []
  pub left : ℕ
  pub counted : p.remaining ≡ pos left
  pub tally : left + length p.finished + length p.given_up ≡ length subset
  pub clean : p.failed ≡ false → (p.given_up ≡ []) × (p.stuck ≡ []) × (p.mu_held ≡ false)
  pub over : 0 < p.exited → left ≡ 0

count-cut :
    (i t : ℕ) (before after : List ℕ)
    → count i (before ++ t ∷ after) ≡ (if t == i then 1 else 0) + count i (before ++ after)
count-cut i t before after =
    omega (arith, count-append i before (t ∷ after), count-append i before after)

-- A task that runs is counted in `remaining`.
left_pos :
    {subset : List ℕ} {links : Links} {p : Pool} (t : ℕ) (before after : List ℕ)
    → p.running ≡ before ++ t ∷ after
    → (v : PoolInv subset links p) → 0 < v.left
left_pos {subset} {links} {p} t before after runs v = omega (
  arith,
  v.tally,
  within subset links (view p) v.sorted,
  length-append p.running (p.stuck ++ (p.given_up ++ p.ready)),
  length-append p.stuck (p.given_up ++ p.ready),
  length-append p.given_up p.ready,
  ap length runs,
  length-append before (t ∷ after),
)

less : (p : Pool) (n : ℕ) → p.remaining ≡ pos n → 0 < n → pred_ℤ p.remaining ≡ pos (n - 1)
less p zero e h = absurd (omega arith)
less p (suc n) e h = rw e (ground arith)

module _ (subset : List ℕ) (links : Links) where
  take_task-PoolInv :
      (t : ℕ) (rest : List ℕ) (others : ℕ) (p : Pool)
      → p.ready ≡ t ∷ rest
      → PoolInv subset links p
      → PoolInv subset links (take_task t rest others p)
  unfolding take_task
  take_task-PoolInv t rest others p e v = record {
    sorted =
        Inv-recount subset links (view p) (view (take_task t rest others p)) [] refl refl
          (λ i.
            omega (arith, count-view i p, count-view i (take_task t rest others p), ap (count i) e))
          v.sorted;
    left = v.left;
    counted = v.counted;
    tally = v.tally;
    clean = v.clean;
    over = v.over;
  }

  hash_failed-PoolInv :
      (t : ℕ) (before after : List ℕ) (p : Pool)
      → p.running ≡ before ++ t ∷ after
      → PoolInv subset links p
      → PoolInv subset links (hash_failed t (before ++ after) p)
  unfolding hash_failed broadcast
  hash_failed-PoolInv t before after p e v =
      let some_left = left_pos t before after e v in
      record {
        sorted =
            Inv-recount subset links (view p) (view (hash_failed t (before ++ after) p)) [] refl
              refl
              (λ i. omega (
                arith,
                count-view i p,
                count-view i (hash_failed t (before ++ after) p),
                ap (count i) e,
                count-cut i t before after,
              ))
              v.sorted;
        left = v.left - 1;
        counted = less p v.left v.counted some_left;
        tally = omega (arith, v.tally);
        clean = λ h. cc;
        over = λ h. omega (arith, v.over h);
      }

  execute_failed-PoolInv :
      (t : ℕ) (before after : List ℕ) (p : Pool)
      → p.running ≡ before ++ t ∷ after
      → PoolInv subset links p
      → PoolInv subset links (execute_failed t (before ++ after) p)
  unfolding execute_failed
  execute_failed-PoolInv t before after p e v = record {
    sorted =
        Inv-recount subset links (view p) (view (execute_failed t (before ++ after) p)) [] refl refl
          (λ i. omega (
            arith,
            count-view i p,
            count-view i (execute_failed t (before ++ after) p),
            ap (count i) e,
            count-cut i t before after,
          ))
          v.sorted;
    left = v.left;
    counted = v.counted;
    tally = v.tally;
    clean = λ h. cc;
    over = v.over;
  }

  leave-PoolInv :
      (others : ℕ) (p : Pool)
      → p.remaining ≡ pos 0
      → PoolInv subset links p
      → PoolInv subset links (leave others p)
  unfolding leave
  leave-PoolInv others p e v = record {
    sorted = v.sorted;
    left = v.left;
    counted = v.counted;
    tally = v.tally;
    clean = v.clean;
    over = λ _. none_left v.left (sym v.counted ∙ e);
  }
    where
      none_left : (n : ℕ) → pos n ≡ pos 0 → n ≡ 0
      none_left n h = cc

  fall_asleep-PoolInv :
      (others : ℕ) (p : Pool) → PoolInv subset links p → PoolInv subset links (fall_asleep others p)
  unfolding fall_asleep
  fall_asleep-PoolInv others p v = record {
    sorted = v.sorted;
    left = v.left;
    counted = v.counted;
    tally = v.tally;
    clean = v.clean;
    over = v.over;
  }

  wake_up-PoolInv : (p : Pool) → PoolInv subset links p → PoolInv subset links (wake_up p)
  unfolding wake_up broadcast
  wake_up-PoolInv p v = record {
    sorted = v.sorted;
    left = v.left;
    counted = v.counted;
    tally = v.tally;
    clean = v.clean;
    over = v.over;
  }

deps_at_outside : (tasks : List Task) (i : ℕ) → length tasks ≤ i → deps_at tasks i ≡ []
deps_at_outside [] i h = refl
deps_at_outside (t ∷ ts) zero h = absurd (omega arith)
deps_at_outside (t ∷ ts) (suc i) h = deps_at_outside ts i (omega arith)

-- Only tasks of the list are linked to.
build_dependents_inside :
    (tasks : List Task) (t k : ℕ) → mem k (build_dependents tasks t) ≡ true → k < length tasks
build_dependents_inside tasks t k m = elim (compare_cases k (length tasks)) [
  | inl below ↦ below
  | inr above ↦
      let outside = deps_at_outside tasks k (ground arith) in
      let none_there : resolved tasks t (deps_at tasks k) ≡ 0 = rw outside refl in
      absurd (
        omega (
          arith,
          none_there,
          count-build_dependents tasks k t,
          count_pos_of_mem k (build_dependents tasks t) m,
        ))
]

module _ (tasks : List Task) (subset : List ℕ) (unique : UniqueNames tasks)
    (valid : AreValid tasks subset) (nodup : IsNodup subset) where
  complete_task-PoolInv :
      (t : ℕ) (before after : List ℕ) (p : Pool)
      → p.running ≡ before ++ t ∷ after
      → PoolInv subset (build_dependents tasks) p
      → PoolInv subset
          (build_dependents tasks)
          (complete_task tasks (build_dependents tasks) subset t (before ++ after) p)
  unfolding complete_task broadcast
  complete_task-PoolInv t before after p e v =
      let links = build_dependents tasks in
      let some_left = left_pos t before after e v in
      let popped : Pool = record p {
        remaining = pred_ℤ p.remaining;
        running = before ++ after;
        idle = p.idle + 1;
        finished = p.finished ++ t ∷ [];
      } in
      let pop : Inv subset links (view popped) (links t) =
        Inv-pop subset links t (view popped).waiting (view p) nodup
          (λ i. omega (
            arith,
            count-view i p,
            count-view i popped,
            ap (count i) e,
            count-cut i t before after,
          ))
          v.sorted in
      let done =
        Inv-release_deps tasks unique subset valid links (links t) popped
          (build_dependents_inside tasks t) pop in
      let kept = release_deps-Keeps tasks subset (links t) popped in
      let after : Pool = record popped {
        pending_deps = kept.counts;
        ready = kept.queue;
        idle = kept.awake;
        asleep = kept.sleeping;
      } in
      let moved : Inv subset links (view after) [] =
        subst (λ x. Inv subset links (view x) []) kept.same done in
      subst (λ x. PoolInv subset links (broadcast x)) (sym kept.same)
        (record {
          sorted = moved;
          left = v.left - 1;
          counted = less p v.left v.counted some_left;
          tally = omega (arith, v.tally, length-append p.finished (t ∷ []));
          clean = v.clean;
          over = λ h. omega (arith, v.over h);
        })

  -- Every step of every interleaving keeps the invariant.
  pub Step-PoolInv :
      {p q : Pool}
      → Step tasks (build_dependents tasks) subset p q
      → PoolInv subset (build_dependents tasks) p
      → PoolInv subset (build_dependents tasks) q
  Step-PoolInv {p} (takes t rest others free e _ same) v =
      rw same (take_task-PoolInv subset (build_dependents tasks) t rest others p e v)
  Step-PoolInv {p} (fails_hash t before after free e same) v =
      rw same (hash_failed-PoolInv subset (build_dependents tasks) t before after p e v)
  Step-PoolInv {p} (fails_execute t before after free e same) v =
      rw same (execute_failed-PoolInv subset (build_dependents tasks) t before after p e v)
  Step-PoolInv {p} (completes t before after free e same) v =
      rw same (complete_task-PoolInv t before after p e v)
  Step-PoolInv {p} (leaves others free _ e _ same) v =
      rw same (leave-PoolInv subset (build_dependents tasks) others p e v)
  Step-PoolInv {p} (waits n others free _ _ _ same) v =
      rw same (fall_asleep-PoolInv subset (build_dependents tasks) others p v)
  Step-PoolInv {p} (wakes free _ same) v =
      rw same (wake_up-PoolInv subset (build_dependents tasks) p v)

  pub Reach-PoolInv :
      {p q : Pool}
      → Reach tasks (build_dependents tasks) subset p q
      → PoolInv subset (build_dependents tasks) p
      → PoolInv subset (build_dependents tasks) q
  Reach-PoolInv here v = v
  Reach-PoolInv (next r s) v = Step-PoolInv s (Reach-PoolInv r v)
