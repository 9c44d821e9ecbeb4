-- ===== src/Config.antt =====
-- config.c and config.h: the defaults, the environment, the configuration file and the checks.
-- A text field is what `strlen` sees of its buffer. `atoi` is not cut to 32 bits, since C does not
-- define its result there.
pub mod Bounds
pub mod Decimal
pub mod Save
pub mod Lines
pub mod Restored
pub mod RoundTrip
pub mod Defaults
use repro_vm_virtual_machine.Util.{is_empty}
use repro_vm_virtual_machine.Prelude.{
  ltb, leb, codes, take, skip_spaces, after, c_str, str_eq, drop, ℕ, zero, suc, ◌+◌, ◌-◌, ◌*◌, ◌≤◌,
  ◌<◌, if◌then◌else◌, ◌==◌, ◌++◌, ◌∷◌, [], List, true, false, Bool, ◌&&◌, ◌||◌, none, some, Option,
  refl, ◌≡◌, ◌≢◌, ◌∙◌, sym, arith, inl, inr, ◌⊎◌, ◌↔◌, Bool-cases, Option-cases, List-cases, length,
  Text, mem, count, All,
}
use repro_vm_virtual_machine.Prelude.Int.{ℤ, pos, negsuc, ltb_ℤ, gtb_ℤ}

pub data LogLevel : Type 0 where
  log_debug log_info log_warn log_error log_fatal : LogLevel

pub record ReproVmConfig : Type 0 where
  pub log_file : Text
  pub log_level : LogLevel
  pub log_colors : ℤ
  pub cache_dir : Text
  pub max_cache_size_mb : ℤ
  pub cache_ttl_hours : ℤ
  pub parallel_jobs : ℤ
  pub retry_attempts : ℤ
  pub retry_delay_ms : ℤ
  pub timeout_seconds : ℤ
  pub enable_metrics : ℤ
  pub metrics_interval_seconds : ℤ
  pub metrics_file : Text
  pub enable_sandboxing : ℤ
  pub max_input_size_mb : ℤ
  pub validate_checksums : ℤ
  pub enable_remote_cas : ℤ
  pub remote_cas_url : Text
  pub remote_cas_access_key : Text
  pub remote_cas_secret_key : Text
  pub enable_colors : ℤ
  pub enable_progress_bar : ℤ
  pub verbose : ℤ
  pub force_rebuild : ℤ

-- `cores` is what `sysconf` says.
unfoldable pub config_init_defaults : ℤ → ReproVmConfig
config_init_defaults cores = record {
  log_file = codes ".reprovm/reprovm.log";
  log_level = log_info;
  log_colors = pos 1;
  cache_dir = codes ".reprovm";
  max_cache_size_mb = pos 10240;
  cache_ttl_hours = pos 168;
  parallel_jobs = if gtb_ℤ cores 0 then cores else pos 4;
  retry_attempts = pos 3;
  retry_delay_ms = pos 1000;
  timeout_seconds = pos 3600;
  enable_metrics = pos 1;
  metrics_interval_seconds = pos 60;
  metrics_file = codes ".reprovm/metrics.log";
  enable_sandboxing = pos 0;
  max_input_size_mb = pos 1024;
  validate_checksums = pos 1;
  enable_remote_cas = pos 0;
  remote_cas_url = [];
  remote_cas_access_key = [];
  remote_cas_secret_key = [];
  enable_colors = pos 1;
  enable_progress_bar = pos 1;
  verbose = pos 0;
  force_rebuild = pos 0;
}

-- The digits at the front of a text, read from the left.
abbrev pub digits_value : ℕ → Text → ℕ
digits_value n [] = n
digits_value n (c ∷ s) =
    let rest = digits_value (10 * n + (c - 48)) s in if leb 48 c && leb c 57 then rest else n

abbrev pub negate : ℕ → ℤ
negate zero = pos 0
negate (suc n) = negsuc n

abbrev pub signed_value : Text → ℤ
signed_value [] = pos 0
signed_value (c ∷ s) =
    if c == b'-'
    then negate (digits_value 0 s)
    else if c == b'+'
    then pos (digits_value 0 s)
    else pos (digits_value 0 (c ∷ s))

unfoldable pub atoi : Text → ℤ
atoi s = signed_value (skip_spaces s)

-- The chain of `strcmp` on the names of levels: an unknown one changes nothing.
unfoldable pub level_of : Text → LogLevel → LogLevel
level_of v old =
    if str_eq v (codes "DEBUG")
    then log_debug
    else if str_eq v (codes "INFO")
    then log_info
    else if str_eq v (codes "WARN")
    then log_warn
    else if str_eq v (codes "ERROR")
    then log_error
    else old

-- `if ((env = getenv(name))) ...`
abbrev pub on_env {ℓ} : {A : Type ℓ} → Option Text → (Text → A) → A → A
on_env none f old = old
on_env (some v) f old = f v

-- Every variable sets fields of its own but for the two of NO_COLOR and of REMOTE_CAS_URL.
unfoldable pub config_load_from_env : (Text → Option Text) → ReproVmConfig → ReproVmConfig
config_load_from_env env c =
    let number = λ (name : Text) (old : ℤ). on_env (env name) atoi old in
    record c {
      log_level =
          on_env (env (codes "REPROVM_LOG_LEVEL")) (λ v. level_of v c.log_level) c.log_level;
      log_file = on_env (env (codes "REPROVM_LOG_FILE")) (take 255) c.log_file;
      log_colors = on_env (env (codes "REPROVM_NO_COLOR")) (λ _. pos 0) c.log_colors;
      enable_colors = on_env (env (codes "REPROVM_NO_COLOR")) (λ _. pos 0) c.enable_colors;
      cache_dir = on_env (env (codes "REPROVM_CACHE_DIR")) (take 255) c.cache_dir;
      max_cache_size_mb = number (codes "REPROVM_MAX_CACHE_SIZE") c.max_cache_size_mb;
      parallel_jobs = number (codes "REPROVM_JOBS") c.parallel_jobs;
      retry_attempts = number (codes "REPROVM_RETRY_ATTEMPTS") c.retry_attempts;
      timeout_seconds = number (codes "REPROVM_TIMEOUT") c.timeout_seconds;
      remote_cas_url = on_env (env (codes "REPROVM_REMOTE_CAS_URL")) (take 511) c.remote_cas_url;
      enable_remote_cas =
          on_env (env (codes "REPROVM_REMOTE_CAS_URL")) (λ _. pos 1) c.enable_remote_cas;
      remote_cas_access_key =
          on_env (env (codes "REPROVM_REMOTE_CAS_ACCESS_KEY")) (take 255) c.remote_cas_access_key;
      remote_cas_secret_key =
          on_env (env (codes "REPROVM_REMOTE_CAS_SECRET_KEY")) (take 255) c.remote_cas_secret_key;
      verbose = number (codes "REPROVM_VERBOSE") c.verbose;
      force_rebuild = number (codes "REPROVM_FORCE") c.force_rebuild;
      enable_progress_bar =
          on_env (env (codes "REPROVM_NO_PROGRESS")) (λ _. pos 0) c.enable_progress_bar;
    }

-- `fgets(line, 1024, fp)` in a loop: `room` is what the line may still take behind the next byte.
unfoldable pub fgets_lines : ℕ → Text → Text → List Text
fgets_lines room cur [] = if is_empty cur then [] else cur ∷ []
fgets_lines room cur (b ∷ bs) =
    let full = (cur ++ b ∷ []) ∷ fgets_lines 1022 [] bs in
    let more = fgets_lines (room - 1) (cur ++ b ∷ []) bs in
    if b == 10 || room == 0 then full else more

abbrev pub is_tab_or_space : ℕ → Bool
is_tab_or_space c = c == 32 || c == 9

abbrev pub skip_blanks : Text → Text
skip_blanks [] = []
skip_blanks (c ∷ s) = let rest = skip_blanks s in if is_tab_or_space c then rest else c ∷ s

-- The trimming from the end, of keys and values alike: a key holds no newline.
abbrev pub kept_end : ℕ → Text → Text
kept_end c [] = if is_tab_or_space c || c == 10 then [] else c ∷ []
kept_end c (d ∷ s) = c ∷ d ∷ s

abbrev pub cut_blanks : Text → Text
cut_blanks [] = []
cut_blanks (c ∷ s) = kept_end c (cut_blanks s)

-- What stands in front of the first byte b.
abbrev pub until : ℕ → Text → Text
until b [] = []
until b (c ∷ s) = let rest = until b s in if c == b then [] else c ∷ rest

-- `sscanf(line, "%255[^=]=%511[^\n]", key, value)`
unfoldable pub scan_line : Text → Option (Text × Text)
scan_line line =
    let key = until b'=' line in
    elim (after b'=' line) [
      | none ↦ none
      | some rest ↦
          let value = take 511 (until 10 rest) in
          if is_empty key || (ltb 255 (length key) || is_empty value)
          then none
          else some (key, value)
    ]

-- "Apply configuration"
unfoldable pub apply_key : Text → Text → ReproVmConfig → ReproVmConfig
apply_key k v c =
    if str_eq k (codes "log_file")
    then record c { log_file = take 255 v }
    else if str_eq k (codes "log_level")
    then record c { log_level = level_of v c.log_level }
    else if str_eq k (codes "cache_dir")
    then record c { cache_dir = take 255 v }
    else if str_eq k (codes "parallel_jobs")
    then record c { parallel_jobs = atoi v }
    else if str_eq k (codes "retry_attempts")
    then record c { retry_attempts = atoi v }
    else if str_eq k (codes "timeout_seconds")
    then record c { timeout_seconds = atoi v }
    else if str_eq k (codes "enable_metrics")
    then record c { enable_metrics = atoi v }
    else if str_eq k (codes "remote_cas_url")
    then record c { remote_cas_url = take 511 v; enable_remote_cas = pos 1 }
    else c

abbrev pub is_skipped : Text → Bool
is_skipped [] = true
is_skipped (c ∷ s) = c == b'#' || c == 10

-- A comment and an empty line are skipped, and one without key and value prints a warning.
unfoldable pub config_line : ReproVmConfig → Text → ReproVmConfig
config_line c line =
    let s = c_str line in
    let set : ReproVmConfig = elim (scan_line s) [
      | none ↦ c
      | some (key, value) ↦
          apply_key (cut_blanks (skip_blanks key)) (cut_blanks (skip_blanks value)) c
    ] in
    if is_skipped (skip_blanks s) then c else set

unfoldable pub config_lines : ReproVmConfig → List Text → ReproVmConfig
config_lines c [] = c
config_lines c (l ∷ ls) = config_lines (config_line c l) ls

-- The content of the file, or `none` if it cannot be opened: then the return value is -1.
unfoldable pub config_load_from_file : ReproVmConfig → Option Text → ReproVmConfig × Bool
config_load_from_file c none = (c, false)
config_load_from_file c (some content) = (config_lines c (fgets_lines 1022 [] content), true)

-- `true` is the return value 0.
unfoldable pub config_validate : ReproVmConfig → Bool
config_validate c =
    if ltb_ℤ c.parallel_jobs 1 || gtb_ℤ c.parallel_jobs 256
    then false
    else if ltb_ℤ c.retry_attempts 0 || gtb_ℤ c.retry_attempts 100
    then false
    else if ltb_ℤ c.timeout_seconds 0
    then false
    else if ltb_ℤ c.max_cache_size_mb 0
    then false
    else true
