-- ===== src/Metrics/Outcomes.antt =====
-- The timings that `metrics_task_end` stores are the outcomes of the first tasks that ended.
use repro_vm_virtual_machine.Metrics.{
  Doubles, State, Call, call, calls, task_start, task_end, cache_hit, cache_miss, an_error, a_retry,
  a_timeout, update_resources, calculate_stats, metrics_task_start, metrics_task_end,
}
use repro_vm_virtual_machine.Prelude.{
  ℕ, zero, suc, ◌+◌, ◌-◌, ◌≤◌, ◌<◌, ◌==◌, ◌∷◌, [], List, true, false, none, some, Option, refl, ◌≡◌,
  ◌∙◌, arith, inl, inr, Bool-cases, ltb, compare_cases, ap, sym,
}
use repro_vm_virtual_machine.Prelude.Int.{ℤ}

abbrev pub entry_at {ℓ} : {A : Type ℓ} → ℕ → List A → Option A
entry_at n [] = none
entry_at zero (x ∷ xs) = some x
entry_at (suc n) (x ∷ xs) = entry_at n xs

module _ (f : Doubles) where
  -- What a task ended with: its duration, and the flags `cached` and `failed`.
  abbrev pub Outcome : Type 0
  Outcome = f.Double × ℤ × ℤ

  -- The outcomes that the calls of `metrics_task_end` report, in order.
  abbrev pub outcomes : List (Call f) → List Outcome
  outcomes [] = []
  outcomes (task_end cached failed duration ∷ cs) = (duration, cached, failed) ∷ outcomes cs
  outcomes (task_start name now ∷ cs) = outcomes cs
  outcomes (cache_hit ∷ cs) = outcomes cs
  outcomes (cache_miss ∷ cs) = outcomes cs
  outcomes (an_error ∷ cs) = outcomes cs
  outcomes (a_retry ∷ cs) = outcomes cs
  outcomes (a_timeout ∷ cs) = outcomes cs
  outcomes (update_resources mem cpu ∷ cs) = outcomes cs
  outcomes (calculate_stats now elapsed mem cpu ∷ cs) = outcomes cs

  -- The outcome in the timing at i.
  abbrev pub stored : State f → ℕ → Outcome
  stored s i = ((s.timings i).duration_ms, (s.timings i).cached, (s.timings i).failed)

  -- Between s and s' no timing was stored.
  abbrev Quiet : State f → State f → Type 0
  Quiet s s' =
      (s'.timing_count ≡ s.timing_count) × ((i : ℕ) → i < s.timing_count → stored s' i ≡ stored s i)

  task_start-Quiet :
      (name : List ℕ) (now : f.Double) (s : State f) → Quiet s (metrics_task_start f name now s)
  unfolding metrics_task_start
  task_start-Quiet name now s = elim (Bool-cases (ltb s.timing_count 1000)) [
    | inr full ↦ rw full (refl, λ i h. refl)
    | inl room ↦
        rw room
          (refl, λ i h. let apart : (i == s.timing_count) ≡ false = ground arith in rw apart refl)
  ]

  task_end-stored :
      (cached failed : ℤ) (duration : f.Double) (s : State f)
      → s.timing_count < 1000
      → let s' = metrics_task_end f cached failed duration s in
        (s'.timing_count ≡ s.timing_count + 1)
        × (stored s' s.timing_count ≡ (duration, cached, failed))
        × ((i : ℕ) → i < s.timing_count → stored s' i ≡ stored s i)
  unfolding metrics_task_end
  task_end-stored cached failed duration s h =
      let room : ltb s.timing_count 1000 ≡ true = ground arith in
      let same : (s.timing_count == s.timing_count) ≡ true = ground arith in
      rw room (
        refl,
        rw same refl,
        λ i k. let apart : (i == s.timing_count) ≡ false = ground arith in rw apart refl,
      )

  task_end-full :
      (cached failed : ℤ) (duration : f.Double) (s : State f)
      → ltb s.timing_count 1000 ≡ false
      → let s' = metrics_task_end f cached failed duration s in
        (s'.timing_count ≡ s.timing_count) × ((i : ℕ) → stored s' i ≡ stored s i)
  unfolding metrics_task_end
  task_end-full cached failed duration s full = rw full (refl, λ i. refl)

  -- The timings of s stay, and what comes behind them are the outcomes of the calls.
  abbrev Extends : State f → List Outcome → State f → Type 0
  Extends s os s' =
      (i : ℕ)
      → i < 1000
      → (i < s.timing_count → stored s' i ≡ stored s i)
        × (s.timing_count ≤ i
            → i < s'.timing_count
            → entry_at (i - s.timing_count) os ≡ some (stored s' i))

  Extends-Quiet :
      (s mid s' : State f) (os : List Outcome) → Quiet s mid → Extends mid os s' → Extends s os s'
  Extends-Quiet s mid s' os (e, same) h i low =
      (λ k. (h i low).0 (omega arith) ∙ same i k, λ k m. rw (← e) ((h i low).1 (omega arith) m))

  Extends-task_end :
      (cached failed : ℤ) (duration : f.Double) (s s' : State f) (os : List Outcome)
      → Extends (metrics_task_end f cached failed duration s) os s'
      → Extends s ((duration, cached, failed) ∷ os) s'
  Extends-task_end cached failed duration s s' os h i low =
      elim (compare_cases s.timing_count 1000) [
        | inr more ↦
            let full : ltb s.timing_count 1000 ≡ false = ground arith in
            let (same, kept) = task_end-full cached failed duration s full in
            (λ k. (h i low).0 (omega (arith, same)) ∙ kept i, λ k m. absurd (omega arith))
        | inl less ↦
            let (more, new, kept) = task_end-stored cached failed duration s less in
            (
              λ k. (h i low).0 (omega (arith, more)) ∙ kept i k,
              λ k m. elim (compare_cases s.timing_count i) [
                | inl behind ↦
                    let entry = (h i low).1 (omega (arith, more)) m in
                    let e : i - s.timing_count
                        ≡ suc (i - (metrics_task_end f cached failed duration s).timing_count) =
                      omega (arith, more) in
                    rw e entry
                | inr here ↦
                    let e : i ≡ s.timing_count = omega arith in
                    let z : i - s.timing_count ≡ 0 = omega arith in
                    let old = (h i low).0 (omega (arith, more)) in
                    rw z (
                      ap (λ o. some o)
                        (sym (
                          old ∙ ap (stored (metrics_task_end f cached failed duration s)) e ∙ new)))
              ],
            )
      ]

  pub calls-Extends : (cs : List (Call f)) (s : State f) → Extends s (outcomes cs) (calls f cs s)
  unfolding calls
  calls-Extends [] s = λ i low. (λ k. refl, λ k m. absurd (omega arith))
  calls-Extends (task_end cached failed duration ∷ cs) s = λ i low.
      Extends-task_end cached failed duration s
        (calls f cs (metrics_task_end f cached failed duration s)) (outcomes cs)
        (calls-Extends cs (call f (task_end cached failed duration) s)) i low
  calls-Extends (task_start name now ∷ cs) s =
      Extends-Quiet s (metrics_task_start f name now s)
        (calls f cs (metrics_task_start f name now s)) (outcomes cs) (task_start-Quiet name now s)
        (calls-Extends cs (call f (task_start name now) s))
  calls-Extends (cache_hit ∷ cs) s = calls-Extends cs (call f cache_hit s)
  calls-Extends (cache_miss ∷ cs) s = calls-Extends cs (call f cache_miss s)
  calls-Extends (an_error ∷ cs) s = calls-Extends cs (call f an_error s)
  calls-Extends (a_retry ∷ cs) s = calls-Extends cs (call f a_retry s)
  calls-Extends (a_timeout ∷ cs) s = calls-Extends cs (call f a_timeout s)
  calls-Extends (update_resources mem cpu ∷ cs) s =
      calls-Extends cs (call f (update_resources mem cpu) s)
  calls-Extends (calculate_stats now elapsed mem cpu ∷ cs) s =
      calls-Extends cs (call f (calculate_stats now elapsed mem cpu) s)
