-- ===== src/Tests/Workers.antt =====
-- parallel_executor.c on the chain of Tests.Graph: the pool after its first step.
use repro_vm_virtual_machine.Task.Sort.Order.{DepsFirst}
use repro_vm_virtual_machine.Pool.Progress.{Reach-Step}
use repro_vm_virtual_machine.Task.Link.{resolved}
use repro_vm_virtual_machine.Pool.Safety.{DepsSeen, Reach-stranded, Reach-DepsSeen}
use repro_vm_virtual_machine.Prelude.Int.{pos}
use repro_vm_virtual_machine.Task.{
  build_dependents, Links, find_task, link_from, link_deps, deps_at,
}
use repro_vm_virtual_machine.Tests.Graph.{
  chain, both, unique_chain, valid_chain, IsNodup-both, rank, Falls-chain,
}
use repro_vm_virtual_machine.Pool.{
  Pool, open_pool, Step, take_task, initial_deps, count_deps, Reach, complete_task, leave,
  find_task_index, next, release_deps, here, release_dep, takes, completes, hash_failed, fails_hash,
  is_work,
}
use repro_vm_virtual_machine.Prelude.{
  ◌++◌, ◌∷◌, [], false, refl, ◌≡◌, ℕ, suc, ◌+◌, ◌≤◌, ◌<◌, true, arith, mem, count,
}

abbrev pool : Pool
pool = take_task 1 [] 1 (open_pool chain both 2)

runs_one : pool.running ≡ [] ++ 1 ∷ []
unfolding open_pool take_task initial_deps count_deps
runs_one = refl

free : pool.mu_held ≡ false
unfolding open_pool take_task initial_deps
free = refl

abbrev edges : Links
edges = build_dependents chain

-- Two workers and the two tasks: one after the other is taken and completed, and a worker leaves.
abbrev pool0 : Pool
pool0 = open_pool chain both 2

abbrev pool2 : Pool
pool2 = complete_task chain edges both 1 [] pool

abbrev pool3 : Pool
pool3 = take_task 0 [] 1 pool2

abbrev pool4 : Pool
pool4 = complete_task chain edges both 0 [] pool3

abbrev pool5 : Pool
pool5 = leave 1 pool4

took_one : Reach chain edges both pool0 pool
unfolding open_pool take_task initial_deps count_deps find_task_index build_dependents find_task
    link_from link_deps
took_one = next here (takes 1 [] 1 refl refl refl refl)

Reach-DepsSeen_example :
    ((i : ℕ)
      → count i pool3.finished
          + count i pool3.running
          + count i pool3.stuck
          + count i pool3.given_up
          + count i pool3.ready
        ≤ 1)
    × ((t : ℕ)
        → 0 < count t pool3.running + count t pool3.ready
        → DepsSeen chain both pool3.finished t)
    × DepsFirst chain both [] pool3.finished
unfolding open_pool take_task initial_deps count_deps find_task_index build_dependents find_task
    link_from link_deps complete_task release_deps release_dep
Reach-DepsSeen_example =
    Reach-DepsSeen chain both unique_chain valid_chain IsNodup-both 2 pool3
      (next (next took_one (completes 1 [] [] refl refl refl)) (takes 0 [] 1 refl refl refl refl))

-- The hash of a could not be computed, and b waits for it.
abbrev broken : Pool
broken = hash_failed 1 [] pool

broke : Reach chain edges both pool0 broken
unfolding open_pool take_task initial_deps count_deps hash_failed
broke = next took_one (fails_hash 1 [] [] free runs_one refl)

given_up_one : mem 1 broken.given_up ≡ true
unfolding open_pool take_task initial_deps count_deps hash_failed
given_up_one = refl

needs_a : 0 < resolved chain 1 (deps_at chain 0)
unfolding find_task
needs_a = omega arith

Reach-stranded_example : (broken.exited ≡ 0) × ((n : ℕ) × (broken.remaining ≡ pos (suc n)))
Reach-stranded_example =
    Reach-stranded chain both unique_chain valid_chain IsNodup-both 2 broken 1 0 broke given_up_one
      refl needs_a

Reach-Step_example : (q' : Pool) × (s : Step chain edges both pool q') × (is_work s ≡ true)
unfolding take_task open_pool initial_deps
Reach-Step_example =
    Reach-Step chain both unique_chain valid_chain IsNodup-both 2 rank pool
      (λ i j _ _ h. Falls-chain i j h) took_one refl (omega arith)
