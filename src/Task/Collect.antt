-- ===== src/Task/Collect.antt =====
-- `collect_dfs` and `collect_needed_tasks` on a manifest without cycles: they return, and the list
-- is closed under dependencies, without duplicates and already in a possible order.
pub mod Cycles
pub mod Plan
use repro_vm_virtual_machine.Prelude.{
  ℕ, zero, suc, ◌+◌, ◌-◌, ◌*◌, ◌≤◌, ◌<◌, if◌then◌else◌, ◌==◌, ◌++◌, ◌∷◌, [], List, true, false,
  Bool, ◌&&◌, ◌||◌, none, some, Option, refl, ◌≡◌, ◌≢◌, ◌∙◌, sym, arith, inl, inr, ◌⊎◌, ◌↔◌,
  Bool-cases, Option-cases, List-cases, length, Text, mem, count, All, append-nil, IsNodup, subst,
  mem-append, ltb, length-append, append_assoc, count-append, count_zero_of_not_mem,
}
use mathlib.Core.Option
use repro_vm_virtual_machine.Task.{
  Task, find_task, deps_at, collect_deps, put_task, collect_dfs, collect_list, targets_of, count_up,
  collect_needed_tasks,
}
use repro_vm_virtual_machine.Task.Link.{hits, resolved}
use repro_vm_virtual_machine.Task.Sort.Degrees.{name_at-find_task}

-- The task at i names the task at j in its `deps`.
abbrev pub DependsOn : List Task → ℕ → ℕ → Type 0
DependsOn tasks i j = 0 < resolved tasks j (deps_at tasks i)

-- A rank that falls along every dependency: the manifest has no cycle.
abbrev pub Falls : List Task → (ℕ → ℕ) → Type 0
Falls tasks rank = (i j : ℕ) → DependsOn tasks i j → rank j < rank i

-- Every task of the list stands behind all tasks that it depends on.
abbrev pub InOrder : List Task → List ℕ → List ℕ → Type 0
InOrder tasks seen [] = Unit
InOrder tasks seen (t ∷ ts) =
    ((j : ℕ) → DependsOn tasks t j → mem j seen ≡ true) × InOrder tasks (seen ++ t ∷ []) ts

InOrder-snoc :
    (tasks : List Task) (seen ts : List ℕ) (t : ℕ)
    → InOrder tasks seen ts
    → ((j : ℕ) → DependsOn tasks t j → mem j (seen ++ ts) ≡ true)
    → InOrder tasks seen (ts ++ t ∷ [])
InOrder-snoc tasks seen [] t h new = (λ j e. rw (append-nil seen) at (new j e), tt)
InOrder-snoc tasks seen (u ∷ ts) t h new = (
  h.0,
  InOrder-snoc tasks (seen ++ u ∷ []) ts t h.1
      (λ j e. rw (append_assoc seen (u ∷ []) ts) (new j e)),
)

-- How a list of collected tasks may grow: what is new has a rank below the bound and satisfies P.
pub record Grown (tasks : List Task) (rank : ℕ → ℕ) (P : ℕ → Type 0) (bound : ℕ) (out out' : List ℕ)
    : Type 0 where
  pub kept : (j : ℕ) → mem j out ≡ true → mem j out' ≡ true
  pub nodup : IsNodup out → IsNodup out'
  pub ordered : InOrder tasks [] out → InOrder tasks [] out'
  pub low : (j : ℕ) → mem j out' ≡ true → mem j out ≡ false → rank j < bound
  pub only : (j : ℕ) → mem j out' ≡ true → mem j out ≡ false → P j

module _ (tasks : List Task) (rank : ℕ → ℕ) (P : ℕ → Type 0) where
  Grown-refl : (bound : ℕ) (out : List ℕ) → Grown tasks rank P bound out out
  Grown-refl bound out = record {
    kept = λ j m. m;
    nodup = λ h. h;
    ordered = λ h. h;
    low = λ j m e. cc;
    only = λ j m e. cc;
  }

  Grown-trans :
      (low high : ℕ) (a b c : List ℕ)
      → low ≤ high
      → Grown tasks rank P low a b
      → Grown tasks rank P high b c
      → Grown tasks rank P high a c
  Grown-trans low high a b c le g h = record {
    kept = λ j m. h.kept j (g.kept j m);
    nodup = λ n. h.nodup (g.nodup n);
    ordered = λ n. h.ordered (g.ordered n);
    low = λ j m e. elim (Bool-cases (mem j b)) [
      | inl mb ↦ omega (arith, g.low j mb e)
      | inr nb ↦ h.low j m nb
    ];
    only = λ j m e. elim (Bool-cases (mem j b)) [ inl mb ↦ g.only j mb e | inr nb ↦ h.only j m nb ];
  }

  -- No duplicates, and all items satisfy P.
  abbrev pub Fine : List ℕ → Type 0
  Fine out = IsNodup out × ((j : ℕ) → mem j out ≡ true → P j)

  pub Fine-Grown :
      (bound : ℕ) (out out' : List ℕ) → Grown tasks rank P bound out out' → Fine out → Fine out'
  Fine-Grown bound out out' g (nodup, all) = (
    g.nodup nodup,
    λ j m. elim (Bool-cases (mem j out)) [ inl old ↦ all j old | inr new ↦ g.only j m new ],
  )

  -- What a visit of j promises.
  abbrev Visits : (ℕ → List ℕ → Option (List ℕ)) → ℕ → Type 0
  Visits visit j =
      (out : List ℕ)
      → Fine out
      → (out' : List ℕ) × (visit j out ≡ some out')
        × Grown tasks rank P (suc (rank j)) out out'
        × (mem j out' ≡ true)

  collect_deps_lem :
      (visit : ℕ → List ℕ → Option (List ℕ)) (bound : ℕ) (ds : List Text) (out : List ℕ)
      → Fine out
      → ((j : ℕ) → 0 < resolved tasks j ds → (rank j < bound) × Visits visit j)
      → (out' : List ℕ) × (collect_deps visit tasks ds out ≡ some out')
        × Grown tasks rank P bound out out'
        × ((j : ℕ) → 0 < resolved tasks j ds → mem j out' ≡ true)
  unfolding collect_deps
  collect_deps_lem visit bound [] out fine h =
      (out, refl, Grown-refl bound out, λ j e. absurd (omega arith))
  collect_deps_lem visit bound (d ∷ ds) out fine h = elim (Option-cases (find_task tasks d)) [
    | inl e ↦
        let miss : (j : ℕ) → hits (find_task tasks d) j ≡ 0 = λ j. rw e refl in
        let (out', eq, grown, all) =
          collect_deps_lem visit bound ds out fine (λ j r. h j (omega (arith, miss j))) in
        (out', rw (e, collect_deps) eq, grown, λ j r. all j (omega (arith, miss j)))
    | inr (k, e) ↦
        let hit : (j : ℕ) → hits (find_task tasks d) j ≡ (if k == j then 1 else 0) =
          λ j. rw e refl in
        let (smaller, visits) = h k (ground (arith, hit k)) in
        let (mid, eq, grown, inside) = visits out fine in
        let (out', eq', grown', all) =
          collect_deps_lem visit bound ds mid (Fine-Grown (suc (rank k)) out mid grown fine)
            (λ j r. h j (omega (arith, hit j))) in
        (
          out',
          rw (e, collect_deps) (rw (eq, collect_deps) eq'),
          Grown-trans (suc (rank k)) bound out mid out' smaller grown grown',
          λ j r. elim (Bool-cases (k == j)) [
            | inl same ↦
                let kj : k ≡ j = ground arith in
                subst (λ x. mem x out' ≡ true) kj (grown'.kept k inside)
            | inr other ↦ all j (ground (arith, hit j))
          ],
        )
  ]

  visit_new :
      (t : ℕ) (out out' : List ℕ)
      → mem t out ≡ false
      → P t
      → Grown tasks rank P (rank t) out out'
      → ((j : ℕ) → DependsOn tasks t j → mem j out' ≡ true)
      → Grown tasks rank P (suc (rank t)) out (out' ++ t ∷ []) × (mem t (out' ++ t ∷ []) ≡ true)
  visit_new t out out' new pt g all =
      let fresh : mem t out' ≡ false = elim (Bool-cases (mem t out')) [
        | inl m ↦ absurd (omega (arith, g.low t m new))
        | inr e ↦ e
      ] in
      (
        record {
          kept = λ j m. ground (arith, mem-append j out' (t ∷ []), g.kept j m);
          nodup = λ n a. ground (
            arith,
            count-append a out' (t ∷ []),
            g.nodup n a,
            count_zero_of_not_mem t out' fresh,
          );
          ordered = λ n. InOrder-snoc tasks [] out' t (g.ordered n) all;
          low = λ j m e. elim (Bool-cases (mem j out')) [
            | inl mj ↦ omega (arith, g.low j mj e)
            | inr nj ↦ rw (last j nj m) (omega arith)
          ];
          only = λ j m e. elim (Bool-cases (mem j out')) [
            | inl mj ↦ g.only j mj e
            | inr nj ↦ rw (last j nj m) pt
          ];
        },
        ground (arith, mem-append t out' (t ∷ [])),
      )
    where
      last : (j : ℕ) → mem j out' ≡ false → mem j (out' ++ t ∷ []) ≡ true → j ≡ t
      last j nj m = ground (arith, mem-append j out' (t ∷ []))

module _ (tasks : List Task) (rank : ℕ → ℕ) (P : ℕ → Type 0) (falls : Falls tasks rank)
    (closed : (i j : ℕ) → P i → DependsOn tasks i j → P j) (cap : ℕ)
    (room : (out : List ℕ) → Fine tasks rank P out → length out ≤ cap) where
  -- With more fuel than the rank of the task, the visit returns.
  pub collect_dfs_lem :
      (fuel t : ℕ) → rank t < fuel → P t → Visits tasks rank P (collect_dfs cap fuel tasks) t
  unfolding collect_dfs put_task
  collect_dfs_lem zero t h pt out fine = absurd (omega arith)
  collect_dfs_lem (suc fuel) t h pt out fine = elim (Bool-cases (mem t out)) [
    | inl old ↦ (out, rw old refl, Grown-refl tasks rank P (suc (rank t)) out, old)
    | inr new ↦
        let (found, eq, grown, all) =
          collect_deps_lem tasks rank P (collect_dfs cap fuel tasks) (rank t) (deps_at tasks t) out
            fine
            (λ j e. (
              falls t j e,
              collect_dfs_lem fuel j (omega (arith, falls t j e)) (closed t j pt e),
            )) in
        let (grown', inside) = visit_new tasks rank P t out found new pt grown all in
        let fits =
          room (found ++ t ∷ [])
            (Fine-Grown tasks rank P (suc (rank t)) out (found ++ t ∷ []) grown' fine) in
        let short : ltb (length found) cap ≡ true = ground (arith, length-append found (t ∷ [])) in
        (found ++ t ∷ [], rw (new, eq, short) refl, grown', inside)
  ]
