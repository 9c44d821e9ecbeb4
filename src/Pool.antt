-- ===== src/Pool.antt =====
-- parallel_executor.c: the state that the workers share, and their critical sections under `mu`.
-- The workers are alike, so they are counted by where they stand: `idle` ones are about to lock `mu`
-- for the test of the loop, `asleep` ones are in `pthread_cond_wait` and need a broadcast, one worker
-- runs each task of `running`, one each of `stuck` has locked `mu` after a failed task and is at its
-- second `pthread_mutex_lock`, and `exited` ones have returned. `waking` says that the broadcast of
-- the main thread is still to come. No worker wakes up without a broadcast.
-- `pending_deps` is indexed by the task at a position of the subset. `finished` and `given_up` are
-- history: the tasks that released their dependents, and those whose hash could not be computed.
pub mod View
pub mod Start
pub mod Inv
pub mod Safety
pub mod Progress
pub mod Bound
pub mod Deadlock
use repro_vm_virtual_machine.Prelude.{
  str_eq, ℕ, zero, suc, ◌+◌, ◌-◌, ◌*◌, ◌≤◌, ◌<◌, if◌then◌else◌, ◌==◌, ◌++◌, ◌∷◌, [], List, true,
  false, Bool, ◌&&◌, ◌||◌, none, some, Option, refl, ◌≡◌, ◌≢◌, ◌∙◌, sym, arith, inl, inr, ◌⊎◌, ◌↔◌,
  Bool-cases, Option-cases, List-cases, length, Text, mem, count, All,
}
use repro_vm_virtual_machine.Prelude.Int.{ℤ, pos, pred_ℤ, is_zero}
use repro_vm_virtual_machine.Task.{Task, Links, name_at, deps_at, update}

pub record Pool : Type 0 where
  pub pending_deps : ℕ → ℤ
  pub remaining : ℤ
  pub failed : Bool
  pub mu_held : Bool
  pub ready : List ℕ
  pub idle : ℕ
  pub asleep : ℕ
  pub waking : Bool
  pub running : List ℕ
  pub stuck : List ℕ
  pub exited : ℕ
  pub finished : List ℕ
  pub given_up : List ℕ

-- `pthread_cond_broadcast(&ctx->cv)`
unfoldable pub broadcast : Pool → Pool
broadcast p = record p { idle = p.idle + p.asleep; asleep = 0 }

-- `find_task_index`: the task of the subset at the first position that has the name.
unfoldable pub find_task_index : List Task → List ℕ → Text → Option ℕ
find_task_index tasks [] name = none
find_task_index tasks (i ∷ is) name =
    if str_eq (name_at tasks i) name then some i else find_task_index tasks is name

-- `cnt`: the dependencies inside the subset.
unfoldable pub count_deps : List Task → List ℕ → List Text → ℕ
count_deps tasks subset [] = 0
count_deps tasks subset (d ∷ ds) =
    elim (find_task_index tasks subset d) [ none ↦ 0 | some _ ↦ 1 ] + count_deps tasks subset ds

-- "Compute initial pending dependency counts", from a position of the subset on.
unfoldable pub initial_deps : List Task → List ℕ → List ℕ → Pool → Pool
initial_deps tasks subset [] p = p
initial_deps tasks subset (i ∷ is) p =
    let cnt = count_deps tasks subset (deps_at tasks i) in
    initial_deps tasks subset is (record p {
      pending_deps = update p.pending_deps i (pos cnt);
      ready = if cnt == 0 then p.ready ++ i ∷ [] else p.ready;
    })

-- `max_workers <= 0` means four.
abbrev pub worker_count : ℕ → ℕ
worker_count n = if n == 0 then 4 else n

-- The context when the workers start.
unfoldable pub open_pool : List Task → List ℕ → ℕ → Pool
open_pool tasks subset max_workers = initial_deps tasks subset subset (record {
  pending_deps = λ _. pos 0;
  remaining = pos (length subset);
  failed = false;
  mu_held = false;
  ready = [];
  idle = worker_count max_workers;
  asleep = 0;
  waking = true;
  running = [];
  stuck = [];
  exited = 0;
  finished = [];
  given_up = [];
})

-- The body of the loop over `t->dependents`.
unfoldable pub release_dep : List Task → List ℕ → ℕ → Pool → Pool
unfolding broadcast
release_dep tasks subset k p = elim (find_task_index tasks subset (name_at tasks k)) [
  | none ↦ p
  | some i ↦
      let d = pred_ℤ (p.pending_deps i) in
      let counted : Pool = record p { pending_deps = update p.pending_deps i d } in
      if is_zero d then broadcast (record counted { ready = p.ready ++ k ∷ [] }) else counted
]

unfoldable pub release_deps : List Task → List ℕ → List ℕ → Pool → Pool
release_deps tasks subset [] p = p
release_deps tasks subset (k ∷ ks) p = release_deps tasks subset ks (release_dep tasks subset k p)

-- A worker takes the task t at the head of the queue; `rest` is behind it.
unfoldable pub take_task : ℕ → List ℕ → ℕ → Pool → Pool
take_task t rest others p = record p { ready = rest; running = t ∷ p.running; idle = others }

-- `compute_task_hash` failed: `others` is what the other workers run.
unfoldable pub hash_failed : ℕ → List ℕ → Pool → Pool
unfolding broadcast
hash_failed t others p = broadcast (record p {
  failed = true;
  remaining = pred_ℤ p.remaining;
  running = others;
  idle = p.idle + 1;
  given_up = t ∷ p.given_up;
})

-- `execute_task` failed: the worker locks `mu`, sets `failed`, and goes on to lock `mu` again.
unfoldable pub execute_failed : ℕ → List ℕ → Pool → Pool
execute_failed t others p = record p {
  failed = true;
  mu_held = true;
  running = others;
  stuck = t ∷ p.stuck;
}

-- "After completion, update dependents"
unfoldable pub complete_task : List Task → Links → List ℕ → ℕ → List ℕ → Pool → Pool
unfolding broadcast
complete_task tasks links subset t others p = broadcast (
    release_deps tasks subset (links t) (record p {
      remaining = pred_ℤ p.remaining;
      running = others;
      idle = p.idle + 1;
      finished = p.finished ++ t ∷ [];
    }))

-- `pthread_cond_wait`: the worker sleeps, and `mu` is free again.
unfoldable pub fall_asleep : ℕ → Pool → Pool
fall_asleep others p = record p { idle = others; asleep = p.asleep + 1 }

-- "Wake up workers", in the main thread.
unfoldable pub wake_up : Pool → Pool
unfolding broadcast
wake_up p = broadcast (record p { waking = false })

unfoldable pub leave : ℕ → Pool → Pool
leave others p = record p { idle = others; exited = p.exited + 1 }

-- The interleavings: which worker goes next, and whether a task succeeds, is open. Every step is
-- a critical section, so `mu` must be free.
pub data Step (tasks : List Task) (links : Links) (subset : List ℕ) (p q : Pool) : Type 0 where
  takes :
      (t : ℕ) (rest : List ℕ) (others : ℕ)
      → p.mu_held ≡ false
      → p.ready ≡ t ∷ rest
      → p.idle ≡ suc others
      → q ≡ take_task t rest others p
      → Step tasks links subset p q
  fails_hash :
      (t : ℕ) (before after : List ℕ)
      → p.mu_held ≡ false
      → p.running ≡ before ++ t ∷ after
      → q ≡ hash_failed t (before ++ after) p
      → Step tasks links subset p q
  fails_execute :
      (t : ℕ) (before after : List ℕ)
      → p.mu_held ≡ false
      → p.running ≡ before ++ t ∷ after
      → q ≡ execute_failed t (before ++ after) p
      → Step tasks links subset p q
  completes :
      (t : ℕ) (before after : List ℕ)
      → p.mu_held ≡ false
      → p.running ≡ before ++ t ∷ after
      → q ≡ complete_task tasks links subset t (before ++ after) p
      → Step tasks links subset p q
  leaves :
      (others : ℕ)
      → p.mu_held ≡ false
      → p.ready ≡ []
      → p.remaining ≡ pos 0
      → p.idle ≡ suc others
      → q ≡ leave others p
      → Step tasks links subset p q
  waits :
      (n others : ℕ)
      → p.mu_held ≡ false
      → p.ready ≡ []
      → p.remaining ≡ pos (suc n)
      → p.idle ≡ suc others
      → q ≡ fall_asleep others p
      → Step tasks links subset p q
  wakes : p.mu_held ≡ false → p.waking ≡ true → q ≡ wake_up p → Step tasks links subset p q

pub data Reach (tasks : List Task) (links : Links) (subset : List ℕ) (p : Pool)
    : Pool → Type 0 where
  here : Reach tasks links subset p p
  next :
      {q r : Pool}
      → Reach tasks links subset p q
      → Step tasks links subset q r
      → Reach tasks links subset p r

-- Whether a worker takes a task, is done with one, or leaves.
unfoldable pub is_work :
    {tasks : List Task} {links : Links} {subset : List ℕ} {p q : Pool}
    → Step tasks links subset p q
    → Bool
is_work (takes _ _ _ _ _ _ _) = true
is_work (fails_hash _ _ _ _ _ _) = true
is_work (fails_execute _ _ _ _ _ _) = true
is_work (completes _ _ _ _ _ _) = true
is_work (leaves _ _ _ _ _ _) = true
is_work (waits _ _ _ _ _ _ _) = false
is_work (wakes _ _ _) = false

-- How many such steps there were.
unfoldable pub steps :
    {tasks : List Task} {links : Links} {subset : List ℕ} {p q : Pool}
    → Reach tasks links subset p q
    → ℕ
unfolding is_work
steps here = 0
steps (next r s) = (if is_work s then 1 else 0) + steps r
