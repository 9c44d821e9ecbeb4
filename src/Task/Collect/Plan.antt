-- ===== src/Task/Collect/Plan.antt =====
-- `collect_needed_tasks` returns exactly the tasks that the targets need.
use repro_vm_virtual_machine.Prelude.{
  ℕ, zero, suc, ◌+◌, ◌≤◌, ◌<◌, ◌==◌, ◌++◌, ◌∷◌, [], List, true, some, refl, ◌≡◌, ◌∙◌, arith, inl,
  inr, ◌⊎◌, ◌↔◌, Bool-cases, Option-cases, length, Text, mem, count, count_pos_of_mem,
  count_zero_of_not_mem, length-le_of_count_le, mem-append, subst, append_assoc, IsNodup,
}
use repro_vm_virtual_machine.Task.{
  Task, find_task, collect_list, targets_of, count_up, collect_needed_tasks,
}
use repro_vm_virtual_machine.Task.Collect.{
  DependsOn, Falls, InOrder, Grown, Fine, Fine-Grown, Grown-refl, Grown-trans, collect_dfs_lem,
}

-- What the command line asks for: all tasks, or those that the names resolve to.
abbrev pub IsNamed : List Task → List Text → ℕ → Type 0
IsNamed tasks [] t = ⊥
IsNamed tasks (n ∷ ns) t = (find_task tasks n ≡ some t) ⊎ IsNamed tasks ns t

abbrev pub IsRequested : List Task → List Text → ℕ → Type 0
IsRequested tasks [] t = t < length tasks
IsRequested tasks (n ∷ ns) t = IsNamed tasks (n ∷ ns) t

-- The requested tasks and all that they depend on, directly or not.
pub data Needed (tasks : List Task) (targets : List Text) : ℕ → Type 0 where
  asked : {t : ℕ} → IsRequested tasks targets t → Needed tasks targets t
  through : {i j : ℕ} → Needed tasks targets i → DependsOn tasks i j → Needed tasks targets j

mem-count_up : (n i t : ℕ) → i ≤ t → t < i + n → mem t (count_up n i) ≡ true
mem-count_up zero i t h k = absurd (omega arith)
mem-count_up (suc n) i t h k = elim (Bool-cases (i == t)) [
  | inl e ↦ ground arith
  | inr e ↦ ground (arith, mem-count_up n (suc i) t)
]

count_up_below : (n i t : ℕ) → mem t (count_up n i) ≡ true → t < i + n
count_up_below zero i t m = cc
count_up_below (suc n) i t m = ground (arith, count_up_below n (suc i) t)

module _ (tasks : List Task) where
  mem-targets_of :
      (ns : List Text) (t : ℕ) → IsNamed tasks ns t → mem t (targets_of tasks ns) ≡ true
  unfolding targets_of
  mem-targets_of [] t h = absurd h
  mem-targets_of (n ∷ ns) t (inl e) = rw (e, targets_of) (ground arith)
  mem-targets_of (n ∷ ns) t (inr h) = elim (Option-cases (find_task tasks n)) [
    | inl e ↦ rw (e, targets_of) (mem-targets_of ns t h)
    | inr (k, e) ↦ rw (e, targets_of) (ground (arith, mem-targets_of ns t h))
  ]

  targets_of-IsNamed :
      (ns : List Text) (t : ℕ) → mem t (targets_of tasks ns) ≡ true → IsNamed tasks ns t
  unfolding targets_of
  targets_of-IsNamed [] t m = cc
  targets_of-IsNamed (n ∷ ns) t m = elim (Option-cases (find_task tasks n)) [
    | inl e ↦ inr (targets_of-IsNamed ns t (rw (e, targets_of) at m))
    | inr (k, e) ↦ elim (Bool-cases (k == t)) [
      | inl same ↦ inl (ground arith)
      | inr other ↦
          let m' : mem t (k ∷ targets_of tasks ns) ≡ true = rw (e, targets_of) at m in
          inr (targets_of-IsNamed ns t (ground arith))
    ]
  ]

  InOrder-closed :
      (seen ts : List ℕ) (i j : ℕ)
      → InOrder tasks seen ts
      → mem i ts ≡ true
      → DependsOn tasks i j
      → mem j (seen ++ ts) ≡ true
  InOrder-closed seen [] i j h m e = cc
  InOrder-closed seen (t ∷ ts) i j h m e = elim (Bool-cases (t == i)) [
    | inl same ↦
        let ti : t ≡ i = ground arith in
        let there = h.0 j (rw ti e) in ground (arith, mem-append j seen (t ∷ ts), there)
    | inr other ↦
        rw (← append_assoc seen (t ∷ []) ts)
          (InOrder-closed (seen ++ t ∷ []) ts i j h.1 (ground arith) e)
  ]

module _ (tasks : List Task) (rank : ℕ → ℕ) (P : ℕ → Type 0) (falls : Falls tasks rank)
    (closed : (i j : ℕ) → P i → DependsOn tasks i j → P j) (cap : ℕ)
    (room : (out : List ℕ) → Fine tasks rank P out → length out ≤ cap) where
  collect_list_lem :
      (fuel : ℕ) (ts out : List ℕ)
      → Fine tasks rank P out
      → ((j : ℕ) → mem j ts ≡ true → (rank j < fuel) × P j)
      → (out' : List ℕ) × (collect_list cap fuel tasks ts out ≡ some out')
        × Grown tasks rank P fuel out out'
        × ((j : ℕ) → mem j ts ≡ true → mem j out' ≡ true)
  unfolding collect_list
  collect_list_lem fuel [] out fine h = (out, refl, Grown-refl tasks rank P fuel out, λ j m. cc)
  collect_list_lem fuel (t ∷ ts) out fine h =
      let (low, pt) = h t (ground arith) in
      let (mid, eq, grown, inside) =
        collect_dfs_lem tasks rank P falls closed cap room fuel t low pt out fine in
      let fine' = Fine-Grown tasks rank P (suc (rank t)) out mid grown fine in
      let (out', eq', grown', all) =
        collect_list_lem fuel ts mid fine' (λ j m. h j (ground arith)) in
      (
        out',
        rw (eq, collect_list) eq',
        Grown-trans tasks rank P (suc (rank t)) fuel out mid out' low grown grown',
        λ j m. elim (Bool-cases (t == j)) [
          | inl same ↦
              let tj : t ≡ j = ground arith in
              subst (λ x. mem x out' ≡ true) tj (grown'.kept t inside)
          | inr other ↦ all j (ground arith)
        ],
      )

-- The list that `collect_needed_tasks` starts from.
abbrev pub roots : List Task → List Text → List ℕ
roots tasks [] = count_up (length tasks) 0
roots tasks (n ∷ ns) = targets_of tasks (n ∷ ns)

pub roots-IsRequested :
    (tasks : List Task) (targets : List Text) (t : ℕ)
    → (mem t (roots tasks targets) ≡ true) ↔ IsRequested tasks targets t
roots-IsRequested tasks [] t = (
  λ m. omega (arith, count_up_below (length tasks) 0 t m),
  λ h. mem-count_up (length tasks) 0 t (omega arith) (omega arith),
)
roots-IsRequested tasks (n ∷ ns) t =
    (targets_of-IsNamed tasks (n ∷ ns) t, mem-targets_of tasks (n ∷ ns) t)

pub collect_needed_tasks-roots :
    (fuel : ℕ) (tasks : List Task) (targets : List Text)
    → collect_needed_tasks fuel tasks targets ≡ collect_list 16 fuel tasks (roots tasks targets) []
unfolding collect_needed_tasks
collect_needed_tasks-roots fuel tasks [] = refl
collect_needed_tasks-roots fuel tasks (n ∷ ns) = refl

-- What the callers of `collect_needed_tasks` rely on: no duplicates, every task behind all that it
-- depends on, and membership is exactly to be needed.
pub record IsPlan (tasks : List Task) (targets : List Text) (out : List ℕ) : Type 0 where
  pub nodup : IsNodup out
  pub ordered : InOrder tasks [] out
  pub exact : (j : ℕ) → (mem j out ≡ true) ↔ Needed tasks targets j

-- No more than n tasks are needed: they are all in a list of that length.
abbrev pub NeedsAtMost : ℕ → List Task → List Text → Type 0
NeedsAtMost n tasks targets =
    (few : List ℕ) × (length few ≤ n) × ((j : ℕ) → Needed tasks targets j → mem j few ≡ true)

NeedsAtMost-room :
    (n : ℕ) (tasks : List Task) (targets : List Text) (rank : ℕ → ℕ) (out : List ℕ)
    → NeedsAtMost n tasks targets
    → Fine tasks rank (Needed tasks targets) out
    → length out ≤ n
NeedsAtMost-room n tasks targets rank out (few, short, all) (nodup, needed) =
    let le : (a : ℕ) → count a out ≤ count a few = λ a. elim (Bool-cases (mem a out)) [
      | inl m ↦ omega (arith, nodup a, count_pos_of_mem a few (all a (needed a m)))
      | inr out_m ↦ omega (arith, count_zero_of_not_mem a out out_m)
    ] in
    omega (arith, length-le_of_count_le out few le)

module _ (tasks : List Task) (targets : List Text) (rank : ℕ → ℕ) (fuel : ℕ) where
  -- If a rank below the fuel falls along every dependency of the manifest, and no more than 16
  -- tasks are needed, as many as the array has room for, then `collect_needed_tasks` returns: without duplicates, each task behind everything that it depends on, and exactly the
  -- requested tasks and those that they need, directly or not.
  pub collect_needed_tasks-IsPlan :
      Falls tasks rank
      → ((t : ℕ) → IsRequested tasks targets t → rank t < fuel)
      → NeedsAtMost 16 tasks targets
      → (out : List ℕ) × (collect_needed_tasks fuel tasks targets ≡ some out)
        × IsPlan tasks targets out
  collect_needed_tasks-IsPlan falls bounded few =
      let wanted = λ (j : ℕ) (m : mem j (roots tasks targets) ≡ true).
        (roots-IsRequested tasks targets j).0 m in
      let closed : (i j : ℕ)
          → Needed tasks targets i
          → DependsOn tasks i j
          → Needed tasks targets j =
        λ i j n e. through n e in
      let (out, eq, grown, all) =
        collect_list_lem tasks rank (Needed tasks targets) falls closed 16
          (λ out fine. NeedsAtMost-room 16 tasks targets rank out few fine) fuel
          (roots tasks targets) [] ((λ a. omega arith), λ j m. cc)
          (λ j m. (bounded j (wanted j m), asked (wanted j m))) in
      let ordered = grown.ordered tt in
      (
        out,
        collect_needed_tasks-roots fuel tasks targets ∙ eq,
        record {
          nodup = grown.nodup (λ a. omega arith);
          ordered = ordered;
          exact = λ j. (λ m. grown.only j m refl, complete out ordered all j);
        },
      )
    where
      complete :
          (out : List ℕ)
          → InOrder tasks [] out
          → ((j : ℕ) → mem j (roots tasks targets) ≡ true → mem j out ≡ true)
          → (j : ℕ) → Needed tasks targets j
          → mem j out ≡ true
      complete out ordered all j (asked {t} h) = all t ((roots-IsRequested tasks targets t).1 h)
      complete out ordered all k (through {i} {j} n e) =
          InOrder-closed tasks [] out i j ordered (complete out ordered all i n) e
