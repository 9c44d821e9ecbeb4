-- ===== src/Task/Sort/Order.antt =====
-- What `topo_sort` promises: a dependency-respecting permutation, or NULL exactly on a real cycle.
use repro_vm_virtual_machine.Prelude.{
  ℕ, zero, suc, ◌≤◌, ◌<◌, ◌==◌, ◌++◌, ◌∷◌, [], List, true, false, Bool, ◌&&◌, none, some, refl, ◌≡◌,
  ◌≢◌, arith, inl, inr, ◌⊎◌, ◌↔◌, Bool-cases, Option-cases, length, Text, mem, count, All,
  compare_cases, IsNodup, ap, count_pos_of_mem, count_zero_of_not_mem, SameItems,
  length-le_of_count_le, SameItems-of_count_le, mem-append, not,
}
use repro_vm_virtual_machine.Task.{
  Task, Links, Kahn, name_at, deps_at, build_dependents, start, topo_state, topo_sort, find_task,
}
use repro_vm_virtual_machine.Task.Link.{resolved, count-build_dependents, hits}
use repro_vm_virtual_machine.Prelude.Int.{ℤ}
use repro_vm_virtual_machine.Task.Sort.{open_edges, IsOrdered, Inv, drain_ends, within}
use repro_vm_virtual_machine.Task.Sort.Degrees.{UniqueNames, AreValid, find_task-name_at, Inv-start}

-- Every task of the list stands behind the tasks of the subset whose names are among its `deps`;
-- `seen` is what stands in front of the list.
abbrev pub DepsFirst : List Task → List ℕ → List ℕ → List ℕ → Type 0
DepsFirst tasks subset seen [] = Unit
DepsFirst tasks subset seen (t ∷ ts) =
    All (λ d. (j : ℕ) → mem j subset ≡ true → name_at tasks j ≡ d → mem j seen ≡ true)
      (deps_at tasks t)
    × DepsFirst tasks subset (seen ++ t ∷ []) ts

-- A rank that falls along every dependency inside the subset: there is no cycle.
abbrev pub IsRanked : List Task → List ℕ → (ℕ → ℕ) → Type 0
IsRanked tasks subset rank =
    (i j : ℕ)
    → mem i subset ≡ true
    → mem j subset ≡ true
    → 0 < resolved tasks j (deps_at tasks i)
    → rank j < rank i

-- A non-empty set of tasks of the subset, each of which depends on one of the set.
abbrev pub IsCyclic : List Task → List ℕ → (ℕ → Bool) → Type 0
IsCyclic tasks subset cyclic =
    ((i : ℕ) × (cyclic i ≡ true))
    × ((i : ℕ)
        → cyclic i ≡ true
        → (mem i subset ≡ true)
          × ((j : ℕ) × (cyclic j ≡ true) × (0 < resolved tasks j (deps_at tasks i))))

pub mem_of_AreValid :
    (tasks : List Task) (js : List ℕ) (j : ℕ)
    → AreValid tasks js
    → mem j js ≡ true
    → j < length tasks
mem_of_AreValid tasks [] j h m = cc
mem_of_AreValid tasks (x ∷ js) j h m = elim (Bool-cases (x == j)) [
  | inl e ↦ ground (arith, h.0)
  | inr e ↦ mem_of_AreValid tasks js j h.1 (ground arith)
]

-- An open edge comes from a task of the list that is not in the result.
pub open_edges_pos :
    (links : Links) (result : List ℕ) (i : ℕ) (js : List ℕ)
    → 0 < open_edges links result i js
    → (j : ℕ) × (mem j js ≡ true) × (mem j result ≡ false) × (0 < count i (links j))
open_edges_pos links result i [] h = absurd (omega arith)
open_edges_pos links result i (x ∷ js) h = elim (Bool-cases (mem x result)) [
  | inl old ↦
      let (j, m, new, e) = open_edges_pos links result i js (ground arith) in
      (j, ground arith, new, e)
  | inr new ↦ elim (compare_cases 0 (count i (links x))) [
    | inl some_edge ↦ (x, ground arith, new, some_edge)
    | inr rest ↦
        let (j, m, new', e) = open_edges_pos links result i js (ground arith) in
        (j, ground arith, new', e)
  ]
]

module _ (tasks : List Task) (subset : List ℕ) (before : ℕ → ℤ) (unique : UniqueNames tasks)
    (valid : AreValid tasks subset) (nodup : IsNodup subset) where
  abbrev links : Links
  links = build_dependents tasks

  abbrev final : Kahn
  final = topo_state tasks links subset before

  final_lem : Inv subset links final [] × (final.waiting ≡ [])
  unfolding topo_state
  final_lem =
      drain_ends subset links (length subset) (start tasks subset before) nodup
        (Inv-start tasks subset before unique valid nodup) (omega arith)

  count-final : (a : ℕ) → count a final.result ≤ count a subset
  count-final a =
      let (v, e) = final_lem in
      ground (arith, v.placed a, ap (count a) e, count_pos_of_mem a subset)

  -- A task that did not get into the result waits for another such task.
  stuck :
      (i : ℕ)
      → mem i subset ≡ true
      → mem i final.result ≡ false
      → (j : ℕ) × (mem j subset ≡ true)
        × (mem j final.result ≡ false)
        × (0 < resolved tasks j (deps_at tasks i))
  stuck i m out =
      let (v, e) = final_lem in
      let opened : 0 < open_edges links final.result i subset = ground (
        arith,
        v.placed i,
        v.degree i m,
        ap (count i) e,
        count_zero_of_not_mem i final.result out,
      ) in
      let (j, mj, oj, edge) = open_edges_pos links final.result i subset opened in
      (j, mj, oj, omega (arith, count-build_dependents tasks i j))

  -- With a rank every task gets in.
  ranked_in :
      (rank : ℕ → ℕ)
      → IsRanked tasks subset rank
      → (bound i : ℕ) → rank i < bound
      → mem i subset ≡ true
      → mem i final.result ≡ true
  ranked_in rank falls zero i h m = absurd (omega arith)
  ranked_in rank falls (suc bound) i h m = elim (Bool-cases (mem i final.result)) [
    | inl e ↦ e
    | inr out ↦
        let (j, mj, oj, edge) = stuck i m out in
        let smaller = falls i j m mj edge in cc (ranked_in rank falls bound j (omega arith) mj, oj)
  ]

  topo_sort-some :
      {order : List ℕ}
      → topo_sort tasks links subset before ≡ some order
      → (order ≡ final.result) × (length final.result ≡ length subset)
  unfolding topo_sort
  topo_sort-some h = ground arith

  topo_sort-none : topo_sort tasks links subset before ≡ none → length final.result ≢ length subset
  unfolding topo_sort
  topo_sort-none h = ground arith

  topo_sort_full :
      length final.result ≡ length subset → topo_sort tasks links subset before ≡ some final.result
  unfolding topo_sort
  topo_sort_full h = ground arith

  pub names_of_edges :
      (seen : List ℕ) (ds : List Text)
      → ((j : ℕ) → mem j subset ≡ true → 0 < resolved tasks j ds → mem j seen ≡ true)
      → All (λ d. (j : ℕ) → mem j subset ≡ true → name_at tasks j ≡ d → mem j seen ≡ true) ds
  names_of_edges seen [] h = tt
  names_of_edges seen (d ∷ ds) h = (
    λ j m named.
        let found : find_task tasks (name_at tasks j) ≡ some j =
          find_task-name_at tasks j unique (mem_of_AreValid tasks subset j valid m) in
        let resolves : hits (find_task tasks d) j ≡ 1 = rw (← named, found) (ground arith) in
        h j m (omega (arith, resolves)),
    names_of_edges seen ds (λ j m some_edge. h j m (omega arith)),
  )

  pub DepsFirst-of_IsOrdered :
      (seen ts : List ℕ) → IsOrdered subset links seen ts → DepsFirst tasks subset seen ts
  DepsFirst-of_IsOrdered seen [] h = tt
  DepsFirst-of_IsOrdered seen (t ∷ ts) h = (
    names_of_edges seen (deps_at tasks t)
        (λ j m edge. h.0 j m (omega (arith, count-build_dependents tasks t j))),
    DepsFirst-of_IsOrdered (seen ++ t ∷ []) ts h.1,
  )

  -- Whatever the `indegree` fields hold before the call: if no two tasks share a name and the
  -- subset lists valid tasks without duplicates, an order that `topo_sort` returns holds exactly
  -- the tasks of the subset, and each stands behind all tasks of the subset named in its `deps`.
  pub topo_sort-DepsFirst :
      (order : List ℕ)
      → topo_sort tasks (build_dependents tasks) subset before ≡ some order
      → SameItems order subset × DepsFirst tasks subset [] order
  topo_sort-DepsFirst order h =
      let (same, full) = topo_sort-some h in
      let (v, _) = final_lem in
      rw same (
        SameItems-of_count_le final.result subset count-final (omega (arith, full)),
        DepsFirst-of_IsOrdered [] final.result v.ordered,
      )

  full_of_all_in :
      ((a : ℕ) → mem a subset ≡ true → mem a final.result ≡ true)
      → topo_sort tasks links subset before ≡ some final.result
  full_of_all_in all =
      let le : (a : ℕ) → count a subset ≤ count a final.result = λ a.
        elim (Bool-cases (mem a subset)) [
          | inl m ↦ omega (arith, nodup a, count_pos_of_mem a final.result (all a m))
          | inr out ↦ omega (arith, count_zero_of_not_mem a subset out)
        ] in
      topo_sort_full (
        omega (
          arith,
          length-le_of_count_le subset final.result le,
          length-le_of_count_le final.result subset count-final,
        ))

  all_or_one :
      (js : List ℕ)
      → ((j : ℕ) → mem j js ≡ true → mem j final.result ≡ true)
        ⊎ ((j : ℕ) × (mem j js ≡ true) × (mem j final.result ≡ false))
  all_or_one [] = inl (λ j m. cc)
  all_or_one (x ∷ js) = elim (Bool-cases (mem x final.result)) [
    | inr out ↦ inr (x, ground arith, out)
    | inl inside ↦ elim (all_or_one js) [
      | inl all ↦ inl (λ j m. ground (arith, all j))
      | inr (j, m, out) ↦ inr (j, ground arith, out)
    ]
  ]

  cyclic_outside :
      (cyclic : ℕ → Bool) (seen ts : List ℕ)
      → ((i : ℕ)
          → cyclic i ≡ true
          → (mem i subset ≡ true)
            × ((j : ℕ) × (cyclic j ≡ true) × (0 < resolved tasks j (deps_at tasks i))))
      → ((i : ℕ) → cyclic i ≡ true → mem i seen ≡ false)
      → IsOrdered subset links seen ts
      → (i : ℕ) → cyclic i ≡ true
      → mem i ts ≡ false
  cyclic_outside cyclic seen [] needs clean h i c = refl
  cyclic_outside cyclic seen (t ∷ ts) needs clean h i c = elim (Bool-cases (cyclic t)) [
    | inl ct ↦
        let (_, (j, cj, edge)) = needs t ct in
        let (mj, _) = needs j cj in
        cc (h.0 j mj (omega (arith, count-build_dependents tasks t j)), clean j cj)
    | inr free ↦
        let clean' : (k : ℕ) → cyclic k ≡ true → mem k (seen ++ t ∷ []) ≡ false =
          λ k ck. ground (arith, clean k ck, mem-append k seen (t ∷ []), ap cyclic) in
        let rest = cyclic_outside cyclic (seen ++ t ∷ []) ts needs clean' h.1 i c in
        ground (arith, rest, ap cyclic)
  ]

  -- If no two tasks share a name and the subset lists valid tasks without duplicates, `topo_sort`
  -- returns NULL if and only if some tasks of the subset form a cycle: a non-empty set of them in
  -- which each depends on one of the set.
  pub topo_sort-IsCyclic :
      (topo_sort tasks (build_dependents tasks) subset before ≡ none)
      ↔ ((cyclic : ℕ → Bool) × IsCyclic tasks subset cyclic)
  topo_sort-IsCyclic = (
    λ failed. elim (all_or_one subset) [
      | inl all ↦ cc (full_of_all_in all)
      | inr (i, m, out) ↦ (
        λ k. mem k subset && not (mem k final.result),
        ((i, ground arith), λ k c. waits k (ground arith) (ground arith)),
      )
    ],
    λ (cyclic, ((i, c), needs)). elim (Option-cases (topo_sort tasks links subset before)) [
      | inl none_found ↦ none_found
      | inr (order, found) ↦
          let (v, _) = final_lem in
          let (same, full) = topo_sort-some found in
          let out = cyclic_outside cyclic [] final.result needs (λ _ _. refl) v.ordered i c in
          let same_items =
            SameItems-of_count_le final.result subset count-final (omega (arith, full)) in
          absurd (
            omega (
              arith,
              same_items i,
              count_zero_of_not_mem i final.result out,
              count_pos_of_mem i subset (needs i c).0,
            ))
    ],
  )
    where
      waits :
          (k : ℕ)
          → mem k subset ≡ true
          → mem k final.result ≡ false
          → (mem k subset ≡ true)
            × ((j : ℕ) × ((mem j subset && not (mem j final.result)) ≡ true)
                × (0 < resolved tasks j (deps_at tasks k)))
      waits k m out = let (j, mj, oj, edge) = stuck k m out in (m, (j, ground arith, edge))

  -- If no two tasks share a name, the subset lists valid tasks without duplicates, and some rank
  -- falls along every dependency inside the subset, then `topo_sort` returns an order.
  pub topo_sort-IsRanked :
      (rank : ℕ → ℕ)
      → IsRanked tasks subset rank
      → (order : List ℕ) × (topo_sort tasks (build_dependents tasks) subset before ≡ some order)
  topo_sort-IsRanked rank falls =
      (final.result, full_of_all_in (λ a m. ranked_in rank falls (suc (rank a)) a (omega arith) m))

  -- If no two tasks share a name and the subset lists valid tasks without duplicates, the loop of
  -- `topo_sort` ends with an empty queue within as many rounds as the subset has tasks, and its
  -- result is no longer than the subset.
  pub topo_state_ends :
      ((topo_state tasks (build_dependents tasks) subset before).waiting ≡ [])
      × (length (topo_state tasks (build_dependents tasks) subset before).result ≤ length subset)
  topo_state_ends = let (v, e) = final_lem in (e, omega (arith, within subset links final v))
