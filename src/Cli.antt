-- ===== src/Cli.antt =====
-- cli.c and cli.h: what `cli_parse_args` makes of the options, and `cli_validate_options`. The calls
-- of `getopt_long` are a parameter: the options that it returns in turn, each with its `optarg`,
-- and the operands that are left behind `optind`.
pub mod Valid
use repro_vm_virtual_machine.Cas.{is_some}
use repro_vm_virtual_machine.Prelude.{
  codes, length, ℕ, zero, suc, ◌+◌, ◌-◌, ◌*◌, ◌≤◌, ◌<◌, if◌then◌else◌, ◌==◌, ◌++◌, ◌∷◌, [], List,
  true, false, Bool, ◌&&◌, ◌||◌, none, some, Option, refl, ◌≡◌, ◌≢◌, ◌∙◌, sym, arith, inl, inr, ◌⊎◌,
  ◌↔◌, Bool-cases, Option-cases, List-cases, Text, mem, count, All, not,
}
use repro_vm_virtual_machine.Prelude.Int.{ℤ, pos, negsuc, gtb_ℤ}
use repro_vm_virtual_machine.Config.{atoi}

pub record CliOptions : Type 0 where
  pub manifest_file : Option Text
  pub targets : List Text
  pub config_file : Option Text
  pub log_file : Option Text
  pub metrics_file : Option Text
  pub output_format : Text
  pub cache_dir : Option Text
  pub parallel_jobs : ℤ
  pub timeout : ℤ
  pub verbose : Bool
  pub quiet : Bool
  pub force_rebuild : Bool
  pub dry_run : Bool
  pub show_help : Bool
  pub show_version : Bool
  pub enable_colors : Bool
  pub enable_progress : Bool
  pub clean_cache : Bool
  pub verify_cache : Bool
  pub enable_compression : Bool
  pub show_stats : Bool
  pub health_check : Bool
  pub list_tasks : Bool
  pub enable_profiling : Bool

abbrev pub default_options : CliOptions
default_options = record {
  manifest_file = none;
  targets = [];
  config_file = none;
  log_file = none;
  metrics_file = none;
  output_format = codes "text";
  cache_dir = none;
  parallel_jobs = negsuc 0;
  timeout = pos 3600;
  verbose = false;
  quiet = false;
  force_rebuild = false;
  dry_run = false;
  show_help = false;
  show_version = false;
  enable_colors = true;
  enable_progress = true;
  clean_cache = false;
  verify_cache = false;
  enable_compression = false;
  show_stats = false;
  health_check = false;
  list_tasks = false;
  enable_profiling = false;
}

-- The options by their long names; `unknown` is what the `default` case gets.
pub data CliOpt : Type 0 where
  help version verbose quiet force dry_run no_color no_progress clean_cache verify_cache compress
        stats health_check list_tasks profile unknown :
      CliOpt
  config jobs timeout log_file metrics output cache_dir : Text → CliOpt

-- What one turn of the loop does: go on, or return 0 or -1.
pub data Turn : Type 0 where
  goes_on : CliOptions → Turn
  returns : CliOptions → Bool → Turn

unfoldable pub apply_opt : CliOpt → CliOptions → Turn
apply_opt help o = returns (record o { show_help = true }) true
apply_opt version o = returns (record o { show_version = true }) true
apply_opt verbose o = goes_on (record o { verbose = true })
apply_opt quiet o = goes_on (record o { quiet = true })
apply_opt force o = goes_on (record o { force_rebuild = true })
apply_opt dry_run o = goes_on (record o { dry_run = true })
apply_opt no_color o = goes_on (record o { enable_colors = false })
apply_opt no_progress o = goes_on (record o { enable_progress = false })
apply_opt clean_cache o = goes_on (record o { clean_cache = true })
apply_opt verify_cache o = goes_on (record o { verify_cache = true })
apply_opt compress o = goes_on (record o { enable_compression = true })
apply_opt stats o = goes_on (record o { show_stats = true })
apply_opt health_check o = returns (record o { health_check = true }) true
apply_opt list_tasks o = goes_on (record o { list_tasks = true })
apply_opt profile o = goes_on (record o { enable_profiling = true })
apply_opt unknown o = returns o false
apply_opt (config arg) o = goes_on (record o { config_file = some arg })
apply_opt (jobs arg) o = goes_on (record o { parallel_jobs = atoi arg })
apply_opt (timeout arg) o = goes_on (record o { timeout = atoi arg })
apply_opt (log_file arg) o = goes_on (record o { log_file = some arg })
apply_opt (metrics arg) o = goes_on (record o { metrics_file = some arg })
apply_opt (output arg) o = goes_on (record o { output_format = arg })
apply_opt (cache_dir arg) o = goes_on (record o { cache_dir = some arg })

-- "Get manifest file and targets"
unfoldable pub take_operands : List Text → CliOptions → CliOptions
take_operands [] o = o
take_operands (m ∷ targets) o =
    if o.health_check then o else record o { manifest_file = some m; targets = targets }

unfoldable pub parse_opts : List CliOpt → List Text → CliOptions → CliOptions × Bool
parse_opts [] operands o = (take_operands operands o, true)
parse_opts (c ∷ cs) operands o =
    let rest = λ (o' : CliOptions). parse_opts cs operands o' in
    elim (apply_opt c o) [ goes_on o' ↦ rest o' | returns o' ok ↦ (o', ok) ]

-- `true` is the return value 0.
unfoldable pub cli_parse_args : List CliOpt → List Text → CliOptions × Bool
cli_parse_args opts operands = parse_opts opts operands default_options

-- `x < -1`
abbrev pub below_auto : ℤ → Bool
below_auto (pos n) = false
below_auto (negsuc zero) = false
below_auto (negsuc (suc n)) = true

abbrev pub is_negative : ℤ → Bool
is_negative (pos n) = false
is_negative (negsuc n) = true

unfoldable pub cli_validate_options : CliOptions → CliOptions × Bool
cli_validate_options o =
    if not (is_some o.manifest_file) && not o.health_check
    then (o, false)
    else if below_auto o.parallel_jobs || gtb_ℤ o.parallel_jobs 256
    then (o, false)
    else if is_negative o.timeout
    then (o, false)
    else if o.verbose && o.quiet
    then (record o { quiet = false }, true)
    else (o, true)
