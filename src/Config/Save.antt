-- ===== src/Config/Save.antt =====
-- config.c: `config_save_to_file`, as the lines that it prints.
use repro_vm_virtual_machine.Config.{
  ReproVmConfig, LogLevel, log_debug, log_info, log_warn, log_error, log_fatal,
}
use repro_vm_virtual_machine.Prelude.{
  codes, ltb, zero, suc, ◌/◌, ◌%◌, ℕ, ℕ, zero, suc, ◌+◌, if◌then◌else◌, ◌++◌, ◌∷◌, [], List, Bool,
  none, some, Option, Text,
}
use repro_vm_virtual_machine.Prelude.Int.{ℤ, negsuc, pos, is_zero}

-- The digits of n in front of `acc`. The number says how many more than one there may be.
unfoldable pub put_digits : ℕ → ℕ → Text → Text
put_digits zero n acc = (48 + n % 10) ∷ acc
put_digits (suc k) n acc =
    let more = put_digits k (n / 10) ((48 + n % 10) ∷ acc) in
    if ltb n 10 then (48 + n) ∷ acc else more

-- `%d`: an `int` has no more than 20 digits.
unfoldable pub decimal : ℤ → Text
decimal (pos n) = put_digits 19 n []
decimal (negsuc n) = b'-' ∷ put_digits 19 (suc n) []

abbrev pub log_level_name : LogLevel → Text
log_level_name log_debug = codes "DEBUG"
log_level_name log_info = codes "INFO "
log_level_name log_warn = codes "WARN "
log_level_name log_error = codes "ERROR"
log_level_name log_fatal = codes "FATAL"

abbrev pub entry : Text → Text → Text
entry key value = key ++ b'=' ∷ value

abbrev pub remote_lines : ReproVmConfig → List Text
remote_lines c =
    if is_zero c.enable_remote_cas
    then []
    else [] ∷ codes "# Remote CAS" ∷ entry (codes "remote_cas_url") c.remote_cas_url ∷ []

-- The lines, without their newlines.
unfoldable pub saved_lines : ReproVmConfig → List Text
saved_lines c =
    codes "# ReproVM Configuration File"
    ∷ codes "# Generated automatically"
    ∷ []
    ∷ codes "# Logging"
    ∷ entry (codes "log_file") c.log_file
    ∷ entry (codes "log_level") (log_level_name c.log_level)
    ∷ []
    ∷ codes "# Cache"
    ∷ entry (codes "cache_dir") c.cache_dir
    ∷ entry (codes "max_cache_size_mb") (decimal c.max_cache_size_mb)
    ∷ []
    ∷ codes "# Execution"
    ∷ entry (codes "parallel_jobs") (decimal c.parallel_jobs)
    ∷ entry (codes "retry_attempts") (decimal c.retry_attempts)
    ∷ entry (codes "timeout_seconds") (decimal c.timeout_seconds)
    ∷ []
    ∷ codes "# Performance"
    ∷ entry (codes "enable_metrics") (decimal c.enable_metrics)
    ∷ remote_lines c

abbrev pub printed : List Text → Text
printed [] = []
printed (l ∷ ls) = l ++ 10 ∷ printed ls

-- The content of the new file, or `none` and the return value -1 if it cannot be opened.
unfoldable pub config_save_to_file : Bool → ReproVmConfig → Option Text
config_save_to_file opens c = if opens then some (printed (saved_lines c)) else none
