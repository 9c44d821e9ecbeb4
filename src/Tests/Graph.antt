-- ===== src/Tests/Graph.antt =====
-- task.c on a manifest of two tasks, b after a, and on one of two tasks that wait for each other.
use repro_vm_virtual_machine.Task.Collect.Cycles.{IsTrap, collect_needed_tasks-IsTrap}
use repro_vm_virtual_machine.Task.Collect.Plan.{
  roots, NeedsAtMost, IsRequested, Needed, asked, through, IsPlan, collect_needed_tasks-IsPlan,
}
use repro_vm_virtual_machine.Task.Collect.{Falls, DependsOn}
use repro_vm_virtual_machine.Task.Sort.Order.{
  DepsFirst, topo_sort-DepsFirst, IsCyclic, topo_sort-IsRanked, topo_sort-IsCyclic,
}
use repro_vm_virtual_machine.Task.Sort.Degrees.{UniqueNames, AreValid}
use repro_vm_virtual_machine.Task.{
  Task, topo_sort, find_task, topo_state, collect_list, collect_needed_tasks, build_dependents,
  pending, drain, start, expand, release, release_one,
}
use repro_vm_virtual_machine.Prelude.Int.{ℤ, pos}
use repro_vm_virtual_machine.Prelude.{
  codes, ℕ, zero, suc, ◌<◌, if◌then◌else◌, ◌==◌, ◌∷◌, [], List, Bool, none, some, refl, ◌≡◌, arith,
  inl, ◌↔◌, Text, IsNodup, SameItems, ltb, true, inr, mem,
}

abbrev named : Text → List Text → Task
named name deps = record {
  name = name;
  cmd = none;
  inputs = [];
  outputs = [];
  deps = deps;
  task_hash = none;
  result_hash = none;
  status = pending;
}

abbrev pub chain : List Task
chain = named (codes "b") (codes "a" ∷ []) ∷ named (codes "a") [] ∷ []

abbrev ring : List Task
ring = named (codes "b") (codes "a" ∷ []) ∷ named (codes "a") (codes "b" ∷ []) ∷ []

abbrev pub both : List ℕ
both = 0 ∷ 1 ∷ []

abbrev before : ℕ → ℤ
before i = pos 7

sorted : topo_sort chain (build_dependents chain) both before ≡ some (1 ∷ 0 ∷ [])
unfolding topo_sort topo_state drain start expand release build_dependents find_task release_one
sorted = refl

pub unique_chain : UniqueNames chain
unique_chain zero zero hi hj e = refl
unique_chain zero (suc zero) hi hj e = ground arith
unique_chain (suc zero) zero hi hj e = ground arith
unique_chain (suc zero) (suc zero) hi hj e = refl
unique_chain (suc (suc i)) j hi hj e = absurd (omega arith)
unique_chain i (suc (suc j)) hi hj e = absurd (omega arith)

pub valid_chain : AreValid chain both
valid_chain = (omega arith, (omega arith, tt))

pub IsNodup-both : IsNodup both
IsNodup-both a = ground arith

topo_sort-DepsFirst_example : SameItems (1 ∷ 0 ∷ []) both × DepsFirst chain both [] (1 ∷ 0 ∷ [])
topo_sort-DepsFirst_example =
    topo_sort-DepsFirst chain both before unique_chain valid_chain IsNodup-both (1 ∷ 0 ∷ []) sorted

topo_sort-IsCyclic_example :
    (topo_sort chain (build_dependents chain) both before ≡ none)
    ↔ ((cyclic : ℕ → Bool) × IsCyclic chain both cyclic)
topo_sort-IsCyclic_example =
    topo_sort-IsCyclic chain both before unique_chain valid_chain IsNodup-both

abbrev pub rank : ℕ → ℕ
rank i = if i == 0 then 1 else 0

-- The only edge of the chain is from 0 to 1.
edge_chain : (i j : ℕ) → DependsOn chain i j → (i ≡ 0) × (j ≡ 1)
unfolding find_task
edge_chain zero zero h = absurd (omega (arith, h))
edge_chain zero (suc zero) h = (refl, refl)
edge_chain zero (suc (suc j)) h = absurd (grind arith)
edge_chain (suc zero) j h = absurd (omega (arith, h))
edge_chain (suc (suc i)) j h = absurd (omega (arith, h))

pub Falls-chain : Falls chain rank
Falls-chain i j h = let (a, b) = edge_chain i j h in ground arith

rank_le : (i : ℕ) → rank i < 2
rank_le i = ground arith

topo_sort-IsRanked_example :
    (order : List ℕ) × (topo_sort chain (build_dependents chain) both before ≡ some order)
topo_sort-IsRanked_example =
    topo_sort-IsRanked chain both before unique_chain valid_chain IsNodup-both rank
      (λ i j _ _ h. Falls-chain i j h)

below_two : (i : ℕ) → i < 2 → mem i (0 ∷ 1 ∷ []) ≡ true
below_two zero h = refl
below_two (suc zero) h = refl
below_two (suc (suc i)) h = absurd (omega arith)

-- The chain has two tasks, so no more are needed.
pub NeedsAtMost-chain :
    (targets : List Text)
    → ((i : ℕ) → IsRequested chain targets i → i < 2)
    → NeedsAtMost 16 chain targets
NeedsAtMost-chain targets small = (0 ∷ 1 ∷ [], omega arith, λ j n. below_two j (inside j n))
  where
    inside : (j : ℕ) → Needed chain targets j → j < 2
    inside j (asked h) = small j h
    inside k (through {i} {j} n e) = let (a, b) = edge_chain i j e in omega arith

asked_inside : (i : ℕ) → IsRequested chain (codes "b" ∷ []) i → i < 2
unfolding find_task
asked_inside i (inl e) = grind arith
asked_inside i (inr e) = absurd e

collect_needed_tasks-IsPlan_example :
    (out : List ℕ) × (collect_needed_tasks 2 chain (codes "b" ∷ []) ≡ some out)
    × IsPlan chain (codes "b" ∷ []) out
collect_needed_tasks-IsPlan_example =
    collect_needed_tasks-IsPlan chain (codes "b" ∷ []) rank 2 Falls-chain (λ t _. rank_le t)
      (NeedsAtMost-chain (codes "b" ∷ []) asked_inside)

IsTrap-ring : IsTrap ring (λ i. ltb i 2)
unfolding find_task
IsTrap-ring zero h = (1, refl, omega arith)
IsTrap-ring (suc zero) h = (0, refl, omega arith)
IsTrap-ring (suc (suc i)) h = ground arith

found_a : find_task ring (codes "a") ≡ some 1
unfolding find_task
found_a = refl

collect_needed_tasks-IsTrap_example :
    (collect_needed_tasks 1000 ring (codes "a" ∷ []) ≡ none)
    × ((cap : ℕ) → collect_list cap 1000 ring (roots ring (codes "a" ∷ [])) [] ≡ none)
collect_needed_tasks-IsTrap_example =
    collect_needed_tasks-IsTrap ring (codes "a" ∷ []) (λ i. ltb i 2) 1 IsTrap-ring refl
      (inl found_a) 1000
