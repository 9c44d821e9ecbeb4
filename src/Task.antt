-- ===== src/Task.antt =====
-- task.h and the graph half of task.c. A `Task *` is the position of the task in the list that the
-- manifest gave. The fields `dependents` and `indegree`, which only the linking loop and
-- `topo_sort` write, are maps from such positions.
pub mod Link
pub mod Sort
pub mod Collect
use mathlib.Core.Option
use repro_vm_virtual_machine.Prelude.{
  Text, Option, none, some, List, ℕ, [], ◌∷◌, length, suc, zero, ◌+◌, ◌-◌, ◌*◌, ◌≤◌, ◌<◌,
  if◌then◌else◌, ◌==◌, ◌++◌, true, false, Bool, ◌&&◌, ◌||◌, refl, ◌≡◌, ◌≢◌, ◌∙◌, sym, arith, inl,
  inr, ◌⊎◌, ◌↔◌, Bool-cases, Option-cases, List-cases, mem, count, All, str_eq, ltb,
}
use repro_vm_virtual_machine.Prelude.Int.{ℤ, pos, pred_ℤ, plus_ℤ, is_zero}

-- `task_status_t`
pub data TaskStatus : Type 0 where
  pending running skipped success failed : TaskStatus

pub record Task : Type 0 where
  pub name : Text
  pub cmd : Option Text
  pub inputs : List Text
  pub outputs : List Text
  pub deps : List Text
  pub task_hash : Option Text
  pub result_hash : Option Text
  pub status : TaskStatus

-- The first task of that name.
unfoldable pub find_task : List Task → Text → Option ℕ
find_task [] name = none
find_task (t ∷ ts) name = if str_eq t.name name then some 0 else Option.map suc (find_task ts name)

abbrev pub name_at : List Task → ℕ → Text
name_at [] i = []
name_at (t ∷ ts) zero = t.name
name_at (t ∷ ts) (suc i) = name_at ts i

abbrev pub deps_at : List Task → ℕ → List Text
deps_at [] i = []
deps_at (t ∷ ts) zero = t.deps
deps_at (t ∷ ts) (suc i) = deps_at ts i

-- The field `dependents` of each task.
abbrev pub Links : Type 0
Links = ℕ → List ℕ

-- `dep->dependents[dep->n_dependents++] = t`
abbrev pub append_at : Links → ℕ → ℕ → Links
append_at links j i k = if k == j then links k ++ i ∷ [] else links k

-- The inner loop of "Build reverse dependencies": an unknown name only prints a warning.
unfoldable pub link_deps : List Task → ℕ → List Text → Links → Links
link_deps tasks i [] links = links
link_deps tasks i (d ∷ ds) links = elim (find_task tasks d) [
  | none ↦ link_deps tasks i ds links
  | some j ↦ link_deps tasks i ds (append_at links j i)
]

-- The outer loop, over the tasks from position i on.
unfoldable pub link_from : List Task → ℕ → List Task → Links → Links
unfolding link_deps
link_from tasks i [] links = links
link_from tasks i (t ∷ ts) links = link_from tasks (suc i) ts (link_deps tasks i t.deps links)

unfoldable pub build_dependents : List Task → Links
unfolding link_from
build_dependents tasks = link_from tasks 0 tasks (λ _. [])

-- The loop over the dependencies in `collect_dfs`: `visit` is the call that it makes.
unfoldable pub collect_deps :
    (ℕ → List ℕ → Option (List ℕ)) → List Task → List Text → List ℕ → Option (List ℕ)
collect_deps visit tasks [] out = some out
collect_deps visit tasks (d ∷ ds) out = elim (find_task tasks d) [
  | none ↦ collect_deps visit tasks ds out
  | some j ↦ elim (visit j out) [ none ↦ none | some out' ↦ collect_deps visit tasks ds out' ]
]

-- The end of `collect_dfs`: `found` is out[0 .. *n). At *n = *cap the array is moved by `realloc`,
-- which only the local `out` learns of: the callers go on with memory that was freed, so `none`.
unfoldable pub put_task : ℕ → ℕ → List ℕ → Option (List ℕ)
put_task cap t found = if ltb (length found) cap then some (found ++ t ∷ []) else none

-- `collect_dfs` with `*cap = cap`: `none` is no defined result. Either the fuel ran out, since the C
-- recursion has no bound, or the array was moved.
unfoldable pub collect_dfs : ℕ → ℕ → List Task → ℕ → List ℕ → Option (List ℕ)
unfolding collect_deps put_task
collect_dfs cap zero tasks t out = none
collect_dfs cap (suc fuel) tasks t out =
    let deeper = collect_deps (collect_dfs cap fuel tasks) tasks (deps_at tasks t) out in
    if mem t out then some out else elim deeper [ none ↦ none | some found ↦ put_task cap t found ]

-- One loop of `collect_needed_tasks`, over tasks in turn.
unfoldable pub collect_list : ℕ → ℕ → List Task → List ℕ → List ℕ → Option (List ℕ)
unfolding collect_dfs
collect_list cap fuel tasks [] out = some out
collect_list cap fuel tasks (t ∷ ts) out = elim (collect_dfs cap fuel tasks t out) [
  | none ↦ none
  | some out' ↦ collect_list cap fuel tasks ts out'
]

-- The targets by name: an unknown one prints a message and is passed over.
unfoldable pub targets_of : List Task → List Text → List ℕ
targets_of tasks [] = []
targets_of tasks (n ∷ ns) = elim (find_task tasks n) [
  | none ↦ targets_of tasks ns
  | some t ↦ t ∷ targets_of tasks ns
]

abbrev pub count_up : ℕ → ℕ → List ℕ
count_up zero i = []
count_up (suc n) i = i ∷ count_up n (suc i)

-- `cap` is 16, and what the caller gets is the array as it was allocated.
unfoldable pub collect_needed_tasks : ℕ → List Task → List Text → Option (List ℕ)
unfolding collect_list targets_of
collect_needed_tasks fuel tasks [] = collect_list 16 fuel tasks (count_up (length tasks) 0) []
collect_needed_tasks fuel tasks (n ∷ ns) = collect_list 16 fuel tasks (targets_of tasks (n ∷ ns)) []

-- `topo_sort`: `waiting` is queue[qh .. qt), and `result` is what left the queue.
pub record Kahn : Type 0 where
  pub indegree : ℕ → ℤ
  pub waiting : List ℕ
  pub result : List ℕ

abbrev pub update : (ℕ → ℤ) → ℕ → ℤ → ℕ → ℤ
update m k v i = if i == k then v else m i

-- How many tasks of the subset have the name d.
unfoldable pub matches : List Task → Text → List ℕ → ℕ
matches tasks d [] = 0
matches tasks d (j ∷ js) = (if str_eq d (name_at tasks j) then 1 else 0) + matches tasks d js

unfoldable pub in_degree : List Task → List ℕ → List Text → ℕ
unfolding matches
in_degree tasks subset [] = 0
in_degree tasks subset (d ∷ ds) = matches tasks d subset + in_degree tasks subset ds

-- `subset[i]->indegree = 0`
unfoldable pub zero_all : List ℕ → (ℕ → ℤ) → ℕ → ℤ
zero_all [] m = m
zero_all (i ∷ is) m = zero_all is (update m i (pos 0))

-- `subset[i]->indegree++` for each pair of a dependency and a task of its name
unfoldable pub count_all : List Task → List ℕ → List ℕ → (ℕ → ℤ) → ℕ → ℤ
unfolding in_degree
count_all tasks subset [] m = m
count_all tasks subset (i ∷ is) m =
    count_all tasks subset is (update m i (plus_ℤ (m i) (in_degree tasks subset (deps_at tasks i))))

-- The tasks of indegree zero, in the order of the subset.
unfoldable pub sources : (ℕ → ℤ) → List ℕ → List ℕ
sources m [] = []
sources m (i ∷ is) = if is_zero (m i) then i ∷ sources m is else sources m is

-- The fields hold anything before the call.
unfoldable pub start : List Task → List ℕ → (ℕ → ℤ) → Kahn
unfolding zero_all count_all sources
start tasks subset before =
    let degrees = count_all tasks subset subset (zero_all subset before) in
    record { indegree = degrees; waiting = sources degrees subset; result = [] }

-- The body of the loop over the dependents.
unfoldable pub release_one : List ℕ → ℕ → Kahn → Kahn
release_one subset k s =
    let d = pred_ℤ (s.indegree k) in
    if mem k subset
    then record {
      indegree = update s.indegree k d;
      waiting = if is_zero d then s.waiting ++ k ∷ [] else s.waiting;
      result = s.result;
    }
    else s

unfoldable pub release : List ℕ → List ℕ → Kahn → Kahn
release subset [] s = s
release subset (k ∷ ks) s = release subset ks (release_one subset k s)

-- One round of the `while` loop, for the task t at the head of the queue.
unfoldable pub expand : List ℕ → Links → ℕ → List ℕ → Kahn → Kahn
expand subset links t rest s =
    release subset (links t) (record s { waiting = rest; result = s.result ++ t ∷ [] })

-- The `while` loop, on a bound for its rounds.
unfoldable pub drain : ℕ → List ℕ → Links → Kahn → Kahn
drain zero subset links s = s
drain (suc fuel) subset links s = elim s.waiting [
  | [] ↦ s
  | t ∷ rest ↦ drain fuel subset links (expand subset links t rest s)
]

unfoldable pub topo_state : List Task → Links → List ℕ → (ℕ → ℤ) → Kahn
topo_state tasks links subset before =
    drain (length subset) subset links (start tasks subset before)

-- `none` is the return value NULL.
unfoldable pub topo_sort : List Task → Links → List ℕ → (ℕ → ℤ) → Option (List ℕ)
topo_sort tasks links subset before =
    let s = topo_state tasks links subset before in
    if length s.result == length subset then some s.result else none
