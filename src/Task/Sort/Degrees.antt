-- ===== src/Task/Sort/Degrees.antt =====
-- The first loops of `topo_sort`: the indegrees that it counts by name are the edges that
-- `parse_manifest` linked, so the invariant of the main loop holds at its start.
use repro_vm_virtual_machine.Prelude.{
  ℕ, zero, suc, ◌+◌, ◌≤◌, ◌<◌, if◌then◌else◌, ◌==◌, ◌∷◌, [], List, false, some, refl, ◌≡◌, ◌∙◌,
  arith, inl, inr, Bool-cases, Option-cases, length, Text, mem, count, All, str_eq, str_eq_refl,
  count_pos_of_mem, ap, IsNodup, eq_of_str_eq, count_zero_of_not_mem,
}
use repro_vm_virtual_machine.Task.{
  Task, find_task, name_at, deps_at, build_dependents, in_degree, update, zero_all, count_all,
  sources, start,
}
use repro_vm_virtual_machine.Task.Link.{hits, resolved, count-build_dependents}
use repro_vm_virtual_machine.Prelude.Int.{ℤ, pos, plus_ℤ, is_zero}
use repro_vm_virtual_machine.Task.Sort.{open_edges, Inv}

-- No two tasks share a name.
abbrev pub UniqueNames : List Task → Type 0
UniqueNames tasks =
    (i j : ℕ) → i < length tasks → j < length tasks → name_at tasks i ≡ name_at tasks j → i ≡ j

-- Every pointer of the list points to a task.
abbrev pub AreValid : List Task → List ℕ → Type 0
AreValid tasks js = All (λ j. j < length tasks) js

pub name_at-find_task :
    (tasks : List Task) (d : Text) (j : ℕ)
    → find_task tasks d ≡ some j
    → (name_at tasks j ≡ d) × (j < length tasks)
unfolding find_task
name_at-find_task [] d j h = cc
name_at-find_task (t ∷ ts) d j h = elim (Bool-cases (str_eq t.name d)) [
  | inl e ↦
      let zero_j : 0 ≡ j = cc (rw e at h) in rw (← zero_j) (eq_of_str_eq t.name d e, omega arith)
  | inr e ↦ elim (Option-cases (find_task ts d)) [
    | inl gone ↦ cc (rw (e, gone) at h)
    | inr (k, found) ↦
        let (named, inside) = name_at-find_task ts d k found in
        let next : suc k ≡ j = cc (rw (e, found) at h) in rw (← next) (named, omega arith)
  ]
]

pub find_task-name_at :
    (tasks : List Task) (j : ℕ)
    → UniqueNames tasks
    → j < length tasks
    → find_task tasks (name_at tasks j) ≡ some j
unfolding find_task
find_task-name_at [] j unique h = absurd (omega arith)
find_task-name_at (t ∷ ts) zero unique h = rw (str_eq_refl t.name) refl
find_task-name_at (t ∷ ts) (suc j) unique h = elim (Bool-cases (str_eq t.name (name_at ts j))) [
  | inl e ↦
      absurd
        (omega (arith, unique 0 (suc j) (omega arith) h (eq_of_str_eq t.name (name_at ts j) e)))
  | inr e ↦
      let tail_unique : UniqueNames ts =
        λ a b ha hb same. omega (arith, unique (suc a) (suc b) (omega arith) (omega arith) same) in
      rw (e, find_task-name_at ts j tail_unique (omega arith)) refl
]

-- To have the name of j is to resolve to j.
name-hits :
    (tasks : List Task) (d : Text) (j : ℕ)
    → UniqueNames tasks
    → j < length tasks
    → (if str_eq d (name_at tasks j) then 1 else 0) ≡ hits (find_task tasks d) j
name-hits tasks d j unique h = elim (Bool-cases (str_eq d (name_at tasks j))) [
  | inl e ↦
      let same = eq_of_str_eq d (name_at tasks j) e in
      let found = find_task-name_at tasks j unique h in rw (e, same, found) (ground arith)
  | inr e ↦ elim (Option-cases (find_task tasks d)) [
    | inl gone ↦ rw (e, gone) refl
    | inr (k, found) ↦ elim (Bool-cases (k == j)) [
      | inl same ↦
          let (named, _) = name_at-find_task tasks d k found in
          let kj : k ≡ j = ground arith in cc (str_eq_refl d, e, named, kj)
      | inr other ↦ rw (e, found) (rw other refl)
    ]
  ]
]

module _ (tasks : List Task) (unique : UniqueNames tasks) where
  in_degree-cons :
      (j : ℕ) (js : List ℕ) (ds : List Text)
      → j < length tasks
      → in_degree tasks (j ∷ js) ds ≡ resolved tasks j ds + in_degree tasks js ds
  unfolding in_degree
  in_degree-cons j js [] h = omega arith
  in_degree-cons j js (d ∷ ds) h =
      omega (arith, name-hits tasks d j unique h, in_degree-cons j js ds h)

  in_degree-nil : (ds : List Text) → in_degree tasks [] ds ≡ 0
  unfolding in_degree
  in_degree-nil [] = refl
  in_degree-nil (d ∷ ds) = omega (arith, in_degree-nil ds)

  -- The count by names is the count of the linked edges.
  pub in_degree-open_edges :
      (js : List ℕ) (i : ℕ)
      → AreValid tasks js
      → in_degree tasks js (deps_at tasks i) ≡ open_edges (build_dependents tasks) [] i js
  in_degree-open_edges [] i h = in_degree-nil (deps_at tasks i)
  in_degree-open_edges (j ∷ js) i h = omega (
    arith,
    in_degree-cons j js (deps_at tasks i) h.0,
    count-build_dependents tasks i j,
    in_degree-open_edges js i h.1,
  )

zero_all_lem :
    (is : List ℕ) (m : ℕ → ℤ) (i : ℕ) → zero_all is m i ≡ (if mem i is then pos 0 else m i)
unfolding zero_all
zero_all_lem [] m i = refl
zero_all_lem (x ∷ is) m i = ground (arith, zero_all_lem is (update m x (pos 0)) i)

count_all_lem :
    (tasks : List Task) (subset is : List ℕ) (m : ℕ → ℤ) (i : ℕ)
    → count i is ≤ 1
    → count_all tasks subset is m i
      ≡ (if mem i is then plus_ℤ (m i) (in_degree tasks subset (deps_at tasks i)) else m i)
unfolding count_all
count_all_lem tasks subset [] m i once = refl
count_all_lem tasks subset (x ∷ is) m i once =
    let more = update m x (plus_ℤ (m x) (in_degree tasks subset (deps_at tasks x))) in
    elim (Bool-cases (x == i)) [
      | inl same ↦
          let here : x ≡ i = ground arith in
          let gone : mem i is ≡ false = ground (arith, count_pos_of_mem i is) in
          let later = count_all_lem tasks subset is more i (omega arith) in
          later ∙ rw (gone, here) (ground arith)
      | inr other ↦
          let later = count_all_lem tasks subset is more i (ground arith) in later ∙ ground arith
    ]

count-sources :
    (m : ℕ → ℤ) (is : List ℕ) (i : ℕ)
    → count i (sources m is) ≡ (if is_zero (m i) then count i is else 0)
unfolding sources
count-sources m [] i = ground arith
count-sources m (x ∷ is) i = elim (Bool-cases (x == i)) [
  | inl same ↦ let here : x ≡ i = ground arith in ground (arith, count-sources m is i, ap m here)
  | inr other ↦ ground (arith, count-sources m is i)
]

-- The state at the head of the `while` loop satisfies its invariant.
pub Inv-start :
    (tasks : List Task) (subset : List ℕ) (before : ℕ → ℤ)
    → UniqueNames tasks
    → AreValid tasks subset
    → IsNodup subset
    → Inv subset (build_dependents tasks) (start tasks subset before) []
unfolding start
Inv-start tasks subset before unique valid nodup =
    let degrees = count_all tasks subset subset (zero_all subset before) in
    let value = λ (i : ℕ). count_all_lem tasks subset subset (zero_all subset before) i (nodup i) in
    let zero_at = λ (i : ℕ). zero_all_lem subset before i in
    record {
      degree = λ i m.
          ground (arith, value i, zero_at i, in_degree-open_edges tasks unique subset i valid);
      placed = λ i. ground (
        arith,
        count-sources degrees subset i,
        nodup i,
        count_pos_of_mem i subset,
        count_zero_of_not_mem i subset,
      );
      ordered = tt;
    }
