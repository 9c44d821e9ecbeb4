-- ===== src/Tests/Options.antt =====
-- cli.c on `-V -q -j 8 manifest.txt build`.
use repro_vm_virtual_machine.Config.{atoi}
use repro_vm_virtual_machine.Cli.Valid.{cli_validate_options-stable}
use repro_vm_virtual_machine.Cas.{is_some}
use repro_vm_virtual_machine.Cli.{
  CliOptions, cli_parse_args, cli_validate_options, default_options, verbose, quiet, jobs,
  parse_opts, apply_opt, take_operands,
}
use repro_vm_virtual_machine.Prelude.{codes, ◌∷◌, [], true, false, ◌&&◌, ◌||◌, some, refl, ◌≡◌}
use repro_vm_virtual_machine.Prelude.Int.{pos}

abbrev both_options : CliOptions
both_options = record default_options {
  manifest_file = some (codes "manifest.txt");
  targets = codes "build" ∷ [];
  parallel_jobs = pos 8;
  verbose = true;
  quiet = true;
}

parsed :
    cli_parse_args
      (verbose ∷ quiet ∷ jobs (codes "8") ∷ [])
      (codes "manifest.txt" ∷ codes "build" ∷ [])
    ≡ (both_options, true)
unfolding cli_parse_args parse_opts apply_opt take_operands atoi
parsed = refl

abbrev settled : CliOptions
settled = record both_options { quiet = false }

accepted : cli_validate_options both_options ≡ (settled, true)
unfolding cli_validate_options
accepted = refl

cli_validate_options-stable_example :
    ((is_some settled.manifest_file || settled.health_check) ≡ true)
    × ((settled.verbose && settled.quiet) ≡ false)
    × (cli_validate_options settled ≡ (settled, true))
cli_validate_options-stable_example = cli_validate_options-stable both_options settled accepted
