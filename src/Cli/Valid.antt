-- ===== src/Cli/Valid.antt =====
-- What holds of options that `cli_validate_options` accepts.
use repro_vm_virtual_machine.Cli.{
  CliOptions, cli_validate_options, not, is_some, below_auto, gtb_ℤ, is_negative,
}
use repro_vm_virtual_machine.Prelude.{
  if◌then◌else◌, true, false, Bool, ◌&&◌, ◌||◌, refl, ◌≡◌, ◌∙◌, sym, arith, inl, inr, Bool-cases,
  ap, subst,
}

abbrev Verdict : Type 0
Verdict = CliOptions × Bool

-- The last two tests, which cannot fail.
abbrev settle : CliOptions → Verdict
settle o = if o.verbose && o.quiet then (record o { quiet = false }, true) else (o, true)

-- The first three tests.
abbrev refused : CliOptions → Bool
refused o =
    (not (is_some o.manifest_file) && not o.health_check)
    || ((below_auto o.parallel_jobs || gtb_ℤ o.parallel_jobs 256) || is_negative o.timeout)

validate_eq :
    (o : CliOptions) → cli_validate_options o ≡ (if refused o then (o, false) else settle o)
unfolding cli_validate_options
validate_eq o = elim (Bool-cases (not (is_some o.manifest_file) && not o.health_check)) [
  | inl a ↦ simp a refl
  | inr a ↦ elim (Bool-cases (below_auto o.parallel_jobs || gtb_ℤ o.parallel_jobs 256)) [
    | inl b ↦ simp (a, b) refl
    | inr b ↦ elim (Bool-cases (is_negative o.timeout)) [
      | inl c ↦ simp (a, b, c) refl
      | inr c ↦ simp (a, b, c) refl
    ]
  ]
]

abbrev IsStable : CliOptions → Type 0
IsStable o' =
    ((is_some o'.manifest_file || o'.health_check) ≡ true)
    × ((o'.verbose && o'.quiet) ≡ false)
    × (cli_validate_options o' ≡ (o', true))

IsStable-of : (o : CliOptions) → refused o ≡ false → (o.verbose && o.quiet) ≡ false → IsStable o
IsStable-of o fine single = (
  ground arith,
  single,
  validate_eq o
      ∙ ap (λ b. if b then (o, false) else settle o) fine
      ∙ ap (λ b. if b then (record o { quiet = false }, true) else (o, true)) single,
)

settle_cases :
    (o : CliOptions) → refused o ≡ false → (p : CliOptions) × (settle o ≡ (p, true)) × IsStable p
settle_cases o fine = elim (Bool-cases (o.verbose && o.quiet)) [
  | inl e ↦
      let p : CliOptions = record o { quiet = false } in
      (
        p,
        ap (λ b. if b then (record o { quiet = false }, true) else (o, true)) e,
        IsStable-of p fine (ground arith),
      )
  | inr e ↦ (
    o,
    ap (λ b. if b then (record o { quiet = false }, true) else (o, true)) e,
    IsStable-of o fine e,
  )
]

-- Options that `cli_validate_options` accepts have a manifest or ask for a health check, and are
-- not both verbose and quiet afterwards; validating them again accepts them and changes nothing.
pub cli_validate_options-stable :
    (o o' : CliOptions)
    → cli_validate_options o ≡ (o', true)
    → ((is_some o'.manifest_file || o'.health_check) ≡ true)
      × ((o'.verbose && o'.quiet) ≡ false)
      × (cli_validate_options o' ≡ (o', true))
cli_validate_options-stable o o' h = elim (Bool-cases (refused o)) [
  | inl bad ↦
      let told = sym (validate_eq o ∙ ap (λ b. if b then (o, false) else settle o) bad) ∙ h in
      absurd (cc (ap (λ (v : Verdict). v.1) told))
  | inr fine ↦
      let (p, eq, good) = settle_cases o fine in
      let told =
        sym (validate_eq o ∙ (ap (λ b. if b then (o, false) else settle o) fine ∙ eq)) ∙ h in
      subst IsStable (ap (λ (v : Verdict). v.0) told) good
]
