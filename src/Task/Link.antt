-- ===== src/Task/Link.antt =====
-- "Build reverse dependencies" of `parse_manifest`: what the `dependents` fields hold.
use repro_vm_virtual_machine.Prelude.{
  ℕ, suc, ◌+◌, ◌-◌, if◌then◌else◌, ◌==◌, ◌∷◌, [], List, none, some, Option, ◌≡◌, arith, inl, inr,
  Option-cases, Text, count, count-append, ltb, compare_cases, ap,
}
use repro_vm_virtual_machine.Task.{
  Task, Links, find_task, deps_at, append_at, link_deps, link_from, build_dependents,
}

abbrev pub hits : Option ℕ → ℕ → ℕ
hits none j = 0
hits (some k) j = if k == j then 1 else 0

-- How many of the names resolve to the task at j.
abbrev pub resolved : List Task → ℕ → List Text → ℕ
resolved tasks j [] = 0
resolved tasks j (d ∷ ds) = hits (find_task tasks d) j + resolved tasks j ds

count-link_deps :
    (tasks : List Task) (k : ℕ) (ds : List Text) (links : Links) (i j : ℕ)
    → count i (link_deps tasks k ds links j)
      ≡ count i (links j) + (if k == i then resolved tasks j ds else 0)
unfolding link_deps
count-link_deps tasks k [] links i j = ground arith
count-link_deps tasks k (d ∷ ds) links i j = elim (Option-cases (find_task tasks d)) [
  | inl e ↦ rw (e, link_deps) (ground (arith, count-link_deps tasks k ds links i j))
  | inr (x, e) ↦
      rw (e, link_deps)
        (ground (
          arith,
          count-link_deps tasks k ds (append_at links x k) i j,
          count-append i (links j) (k ∷ []),
        ))
]

count-link_from :
    (tasks : List Task) (k : ℕ) (ts : List Task) (links : Links) (i j : ℕ)
    → count i (link_from tasks k ts links j)
      ≡ count i (links j) + (if ltb i k then 0 else resolved tasks j (deps_at ts (i - k)))
unfolding link_from
count-link_from tasks k [] links i j = ground arith
count-link_from tasks k (t ∷ ts) links i j =
    let rest = count-link_from tasks (suc k) ts (link_deps tasks k t.deps links) i j in
    let here = count-link_deps tasks k t.deps links i j in
    elim (compare_cases i k) [
      | inl less ↦ ground (arith, rest, here)
      | inr (inl same) ↦
          let zero_off : i - k ≡ 0 = omega arith in rw zero_off (ground (arith, rest, here))
      | inr (inr more) ↦
          let off : i - k ≡ suc (i - suc k) = omega arith in rw off (ground (arith, rest, here))
    ]

-- The field `dependents` of the task at j holds the task at i once for each of the dependencies of
-- i that `find_task` resolves to j, for all positions i and j.
pub count-build_dependents :
    (tasks : List Task) (i j : ℕ)
    → count i (build_dependents tasks j) ≡ resolved tasks j (deps_at tasks i)
unfolding build_dependents
count-build_dependents tasks i j =
    let off : i - 0 ≡ i = omega arith in
    let all = count-link_from tasks 0 tasks (λ _. []) i j in
    ground (arith, all, ap (λ n. resolved tasks j (deps_at tasks n)) off)
