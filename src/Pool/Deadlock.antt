-- ===== src/Pool/Deadlock.antt =====
-- parallel_executor.c when `execute_task` fails: the worker locks `mu`, and goes on to lock it again.
use repro_vm_virtual_machine.Pool.{
  takes, fails_hash, fails_execute, completes, leaves, waits, wakes, here, next, Pool, Step, Reach,
  execute_failed,
}
use repro_vm_virtual_machine.Task.{Task, Links}
use repro_vm_virtual_machine.Prelude.{ℕ, ◌++◌, ◌∷◌, List, true, false, refl, ◌≡◌, ◌∙◌, ap}

held_no-Step :
    {tasks : List Task} {links : Links} {subset : List ℕ} {p q : Pool}
    → p.mu_held ≡ true
    → Step tasks links subset p q
    → ⊥
held_no-Step h (takes t rest others free _ _ _) = cc
held_no-Step h (fails_hash t before after free _ _) = cc
held_no-Step h (fails_execute t before after free _ _) = cc
held_no-Step h (completes t before after free _ _) = cc
held_no-Step h (leaves others free _ _ _ _) = cc
held_no-Step h (waits n others free _ _ _ _) = cc
held_no-Step h (wakes free _ _) = cc

held_stays :
    {tasks : List Task} {links : Links} {subset : List ℕ} {p q : Pool}
    → p.mu_held ≡ true
    → Reach tasks links subset p q
    → q ≡ p
held_stays h here = refl
held_stays {p = p} h (next r s) =
    absurd (held_no-Step (ap (λ (x : Pool). x.mu_held) (held_stays h r) ∙ h) s)

-- In any state of the pool in which `mu` is free and some worker runs a task t: the failure of t in `execute_task`
-- is a possible next step, and after it the state never changes again: no worker takes a task,
-- finishes one or leaves.
pub execute_failed-Reach :
    (tasks : List Task) (links : Links) (subset : List ℕ) (p : Pool) (t : ℕ) (before after : List ℕ)
    → p.mu_held ≡ false
    → p.running ≡ before ++ t ∷ after
    → Step tasks links subset p (execute_failed t (before ++ after) p)
      × ((q : Pool)
          → Reach tasks links subset (execute_failed t (before ++ after) p) q
          → q ≡ execute_failed t (before ++ after) p)
execute_failed-Reach tasks links subset p t before after free runs =
    (fails_execute t before after free runs refl, λ q r. held_stays (held t before after p) r)
  where
    held :
        (t : ℕ) (before after : List ℕ) (p : Pool)
        → (execute_failed t (before ++ after) p).mu_held ≡ true
    held t before after p = unfold execute_failed in refl
