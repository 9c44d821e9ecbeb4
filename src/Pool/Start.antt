-- ===== src/Pool/Start.antt =====
-- The pool that `execute_tasks_parallel` opens: its counts are the open edges, and the tasks without
-- any are ready.
use repro_vm_virtual_machine.Pool.Inv.{PoolInv}
use repro_vm_virtual_machine.Pool.{
  find_task_index, name_at, count_deps, Pool, initial_deps, deps_at, update, open_pool,
  worker_count,
}
use repro_vm_virtual_machine.Task.Sort.Degrees.{UniqueNames, AreValid, in_degree-open_edges}
use repro_vm_virtual_machine.Task.{Task, matches, in_degree, build_dependents}
use repro_vm_virtual_machine.Prelude.{
  ℕ, ◌+◌, ◌<◌, if◌then◌else◌, ◌==◌, ◌++◌, ◌∷◌, [], List, false, none, some, Option, refl, ◌≡◌, ◌∙◌,
  sym, arith, inl, inr, Bool-cases, length, Text, mem, count, str_eq, IsNodup, eq_of_str_eq,
  count-append, ap, subst, count_pos_of_mem, count_zero_of_not_mem, true,
}
use repro_vm_virtual_machine.Prelude.Int.{ℤ, pos}

str_eq_sym : (a b : Text) → str_eq a b ≡ str_eq b a
str_eq_sym [] [] = refl
str_eq_sym [] (y ∷ b) = refl
str_eq_sym (x ∷ a) [] = refl
str_eq_sym (x ∷ a) (y ∷ b) = ground (arith, str_eq_sym a b)

found : Option ℕ → ℕ
found none = 0
found (some _) = 1

module _ (tasks : List Task) (unique : UniqueNames tasks) where
  matches_absent :
      (i : ℕ) (js : List ℕ)
      → i < length tasks
      → AreValid tasks js
      → count i js ≡ 0
      → matches tasks (name_at tasks i) js ≡ 0
  unfolding matches
  matches_absent i [] h valid out = refl
  matches_absent i (j ∷ js) h valid out =
      let rest = matches_absent i js h valid.1 (omega arith) in
      elim (Bool-cases (str_eq (name_at tasks i) (name_at tasks j))) [
        | inl e ↦
            let same = unique i j h valid.0 (eq_of_str_eq (name_at tasks i) (name_at tasks j) e) in
            absurd (ground arith)
        | inr e ↦ rw e (omega (arith, rest))
      ]

  -- At most one task of the subset has a name, and it is found.
  found-matches :
      (d : Text) (js : List ℕ)
      → AreValid tasks js
      → IsNodup js
      → found (find_task_index tasks js d) ≡ matches tasks d js
  unfolding find_task_index matches found
  found-matches d [] valid nodup = refl
  found-matches d (j ∷ js) valid nodup = elim (Bool-cases (str_eq (name_at tasks j) d)) [
    | inl e ↦
        let named = eq_of_str_eq (name_at tasks j) d e in
        let rest : matches tasks d js ≡ 0 =
          rw named at (matches_absent j js valid.0 valid.1 (ground (arith, nodup j))) in
        rw (e, found) (rw (str_eq_sym d (name_at tasks j), e) (omega (arith, rest)))
    | inr e ↦
        let rest = found-matches d js valid.1 (λ a. omega (arith, nodup a)) in
        rw (e, found) (rw (str_eq_sym d (name_at tasks j), e) (omega (arith, rest)))
  ]

  count_deps-in_degree :
      (subset : List ℕ) (ds : List Text)
      → AreValid tasks subset
      → IsNodup subset
      → count_deps tasks subset ds ≡ in_degree tasks subset ds
  unfolding count_deps in_degree found
  count_deps-in_degree subset [] valid nodup = refl
  count_deps-in_degree subset (d ∷ ds) valid nodup =
      let here : found (find_task_index tasks subset d) ≡ matches tasks d subset =
        found-matches d subset valid nodup in
      let rest = count_deps-in_degree subset ds valid nodup in omega (arith, here, rest)

-- What the loop over the positions has done: `cnt` is the count of each task.
record Filled (cnt : ℕ → ℕ) (is : List ℕ) (p q : Pool) : Type 0 where
  counts : (i : ℕ) → q.pending_deps i ≡ (if mem i is then pos (cnt i) else p.pending_deps i)
  queue : (i : ℕ) → count i q.ready ≡ count i p.ready + (if cnt i == 0 then count i is else 0)
  rest : (m : ℕ → ℤ) × (r : List ℕ) × (q ≡ record p { pending_deps = m; ready = r })

fill_counts :
    (c : ℕ → ℕ) (x : ℕ) (is : List ℕ) (m : ℕ → ℤ) (i : ℕ)
    → (if mem i is then pos (c i) else update m x (pos (c x)) i)
      ≡ (if mem i (x ∷ is) then pos (c i) else m i)
fill_counts c x is m i = elim (Bool-cases (x == i)) [
  | inl e ↦ let same : x ≡ i = ground arith in rw same (ground arith)
  | inr e ↦ ground arith
]

fill_queue :
    (c : ℕ → ℕ) (x : ℕ) (is ready : List ℕ) (i : ℕ)
    → count i (if c x == 0 then ready ++ x ∷ [] else ready) + (if c i == 0 then count i is else 0)
      ≡ count i ready + (if c i == 0 then count i (x ∷ is) else 0)
fill_queue c x is ready i = elim (Bool-cases (x == i)) [
  | inl e ↦
      let same : x ≡ i = ground arith in rw same (ground (arith, count-append i ready (i ∷ [])))
  | inr e ↦ ground (arith, count-append i ready (x ∷ []))
]

initial_deps-Filled :
    (tasks : List Task) (subset is : List ℕ) (p : Pool)
    → Filled (λ i. count_deps tasks subset (deps_at tasks i)) is p (initial_deps tasks subset is p)
unfolding initial_deps
initial_deps-Filled tasks subset [] p = record {
  counts = λ i. refl;
  queue = λ i. ground arith;
  rest = (p.pending_deps, p.ready, refl);
}
initial_deps-Filled tasks subset (x ∷ is) p =
    let c = λ (i : ℕ). count_deps tasks subset (deps_at tasks i) in
    let p' : Pool = record p {
      pending_deps = update p.pending_deps x (pos (c x));
      ready = if c x == 0 then p.ready ++ x ∷ [] else p.ready;
    } in
    let f = initial_deps-Filled tasks subset is p' in
    let (m, r, e) = f.rest in
    record {
      counts = λ i. f.counts i ∙ fill_counts c x is p.pending_deps i;
      queue = λ i. f.queue i ∙ fill_queue c x is p.ready i;
      rest = (m, r, e);
    }

-- The context with these counts and this queue, when the workers start.
abbrev pub fresh : List ℕ → ℕ → (ℕ → ℤ) → List ℕ → Pool
fresh subset max_workers m r = record {
  pending_deps = m;
  remaining = pos (length subset);
  failed = false;
  mu_held = false;
  ready = r;
  idle = worker_count max_workers;
  asleep = 0;
  waking = true;
  running = [];
  stuck = [];
  exited = 0;
  finished = [];
  given_up = [];
}

pub open_pool-fresh :
    (tasks : List Task) (subset : List ℕ) (max_workers : ℕ)
    → (m : ℕ → ℤ) × (r : List ℕ) × (open_pool tasks subset max_workers
        ≡ fresh subset max_workers m r)
unfolding open_pool
open_pool-fresh tasks subset max_workers =
    (initial_deps-Filled tasks subset subset (fresh subset max_workers (λ _. pos 0) [])).rest

module _ (tasks : List Task) (subset : List ℕ) (unique : UniqueNames tasks)
    (valid : AreValid tasks subset) (nodup : IsNodup subset) (max_workers : ℕ) where
  abbrev cnt : ℕ → ℕ
  cnt i = count_deps tasks subset (deps_at tasks i)

  fresh-PoolInv :
      (m : ℕ → ℤ) (r : List ℕ)
      → ((i : ℕ) → m i ≡ (if mem i subset then pos (cnt i) else pos 0))
      → ((i : ℕ) → count i r ≡ (if cnt i == 0 then count i subset else 0))
      → PoolInv subset (build_dependents tasks) (fresh subset max_workers m r)
  fresh-PoolInv m r hm hr =
      let edges = λ (i : ℕ).
        count_deps-in_degree tasks unique subset (deps_at tasks i) valid nodup
        ∙ in_degree-open_edges tasks unique subset i valid in
      record {
        sorted = record {
          degree = λ i inside. ground (arith, hm i, edges i);
          placed = λ i. ground (
            arith,
            hm i,
            hr i,
            nodup i,
            count_pos_of_mem i subset,
            count_zero_of_not_mem i subset,
          );
          ordered = tt;
        };
        left = length subset;
        counted = refl;
        tally = omega arith;
        clean = λ _. (refl, refl, refl);
        over = λ h. absurd (omega (arith, h));
      }

  -- The invariant holds when the workers start.
  pub open_pool-PoolInv :
      PoolInv subset (build_dependents tasks) (open_pool tasks subset max_workers)
  unfolding open_pool
  open_pool-PoolInv =
      let f = initial_deps-Filled tasks subset subset (fresh subset max_workers (λ _. pos 0) []) in
      let (m, r, e) = f.rest in
      subst (PoolInv subset (build_dependents tasks)) (sym e) (
        fresh-PoolInv m r (λ i. sym (ap (λ (p : Pool). p.pending_deps i) e) ∙ f.counts i)
          (λ i. omega (arith, ap (λ (p : Pool). count i p.ready) e, f.queue i)))
