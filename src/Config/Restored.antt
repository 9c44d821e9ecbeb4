-- ===== src/Config/Restored.antt =====
-- What a file that `config_save_to_file` wrote does, line by line.
use repro_vm_virtual_machine.Config.Save.{entry, decimal, log_level_name, saved_lines, remote_lines}
use repro_vm_virtual_machine.Config.Lines.{IsPlain, is_key, config_line-entry, is_key-IsKey}
use repro_vm_virtual_machine.Prelude.{
  codes, ◌≤◌, if◌then◌else◌, ◌++◌, ◌∷◌, [], List, true, false, refl, ◌≡◌, ◌∙◌, inl, inr, Bool-cases,
  length, Text, ap, take-eq, map,
}
use repro_vm_virtual_machine.Prelude.Int.{ℤ, pos, is_zero}
use repro_vm_virtual_machine.Config.{
  ReproVmConfig, LogLevel, log_debug, log_info, log_warn, log_error, log_fatal, config_lines,
  config_line, is_skipped, scan_line, skip_blanks, apply_key, c_str, level_of,
}
use repro_vm_virtual_machine.Config.Decimal.{IsInt, decimal-IsPlain, atoi-decimal}

-- The texts stand on one line without blanks at their ends and fit their fields, and the numbers
-- are values of an `int`.
pub record IsSavable (c : ReproVmConfig) : Type 0 where
  pub log_file : IsPlain c.log_file × (length c.log_file ≤ 255)
  pub cache_dir : IsPlain c.cache_dir × (length c.cache_dir ≤ 255)
  pub remote_cas_url : is_zero c.enable_remote_cas ≡ false → IsPlain c.remote_cas_url
  pub numbers :
      IsInt c.parallel_jobs
      × IsInt c.retry_attempts
      × IsInt c.timeout_seconds
      × IsInt c.enable_metrics

-- The reader does not know the name of the last level.
abbrev pub level_back : LogLevel → LogLevel → LogLevel
level_back log_debug old = log_debug
level_back log_info old = log_info
level_back log_warn old = log_warn
level_back log_error old = log_error
level_back log_fatal old = old

-- The fields of c that are read back into b, and those of the remote store.
abbrev pub restored : ReproVmConfig → ReproVmConfig → ReproVmConfig
restored c b = record b {
  log_file = c.log_file;
  log_level = level_back c.log_level b.log_level;
  cache_dir = c.cache_dir;
  parallel_jobs = c.parallel_jobs;
  retry_attempts = c.retry_attempts;
  timeout_seconds = c.timeout_seconds;
  enable_metrics = c.enable_metrics;
}

abbrev pub with_remote : ReproVmConfig → ReproVmConfig → ReproVmConfig
with_remote c b =
    if is_zero c.enable_remote_cas
    then b
    else record b { remote_cas_url = c.remote_cas_url; enable_remote_cas = pos 1 }

-- A comment or an empty line.
comment :
    (b : ReproVmConfig) (l : Text) (ls : List Text)
    → is_skipped (skip_blanks (c_str (l ++ 10 ∷ []))) ≡ true
    → config_lines b ((l ++ 10 ∷ []) ∷ ls) ≡ config_lines b ls
unfolding config_lines config_line
comment b l ls h = rw h refl

setting :
    (b : ReproVmConfig) (key v : Text) (ls : List Text)
    → is_key key ≡ true
    → IsPlain v
    → config_lines b ((entry key v ++ 10 ∷ []) ∷ ls) ≡ config_lines (apply_key key v b) ls
unfolding config_lines
setting b key v ls h p =
    ap (λ x. config_lines x ls)
      (config_line-entry key v (is_key-IsKey key h) p.value b
        ∙ ap (λ t. apply_key key t b) p.trimmed)

number :
    (b : ReproVmConfig) (key : Text) (z : ℤ) (ls : List Text)
    → is_key key ≡ true
    → config_lines b ((entry key (decimal z) ++ 10 ∷ []) ∷ ls)
      ≡ config_lines (apply_key key (decimal z) b) ls
number b key z ls h = setting b key (decimal z) ls h (decimal-IsPlain z)

level_line :
    (b : ReproVmConfig) (l : LogLevel) (ls : List Text)
    → config_lines b ((entry (codes "log_level") (log_level_name l) ++ 10 ∷ []) ∷ ls)
      ≡ config_lines (record b { log_level = level_back l b.log_level }) ls
unfolding config_lines config_line scan_line apply_key level_of
level_line b log_debug ls = refl
level_line b log_info ls = refl
level_line b log_warn ls = refl
level_line b log_error ls = refl
level_line b log_fatal ls = refl

log_file_line :
    (b : ReproVmConfig) (v : Text) (ls : List Text)
    → IsPlain v
    → length v ≤ 255
    → config_lines b ((entry (codes "log_file") v ++ 10 ∷ []) ∷ ls)
      ≡ config_lines (record b { log_file = v }) ls
unfolding apply_key
log_file_line b v ls p fits =
    setting b (codes "log_file") v ls refl p
    ∙ ap (λ t. config_lines (record b { log_file = t }) ls) (take-eq 255 v fits)

cache_dir_line :
    (b : ReproVmConfig) (v : Text) (ls : List Text)
    → IsPlain v
    → length v ≤ 255
    → config_lines b ((entry (codes "cache_dir") v ++ 10 ∷ []) ∷ ls)
      ≡ config_lines (record b { cache_dir = v }) ls
unfolding apply_key
cache_dir_line b v ls p fits =
    setting b (codes "cache_dir") v ls refl p
    ∙ ap (λ t. config_lines (record b { cache_dir = t }) ls) (take-eq 255 v fits)

-- The four numbers that are read back.
jobs_line :
    (b : ReproVmConfig) (z : ℤ) (ls : List Text)
    → IsInt z
    → config_lines b ((entry (codes "parallel_jobs") (decimal z) ++ 10 ∷ []) ∷ ls)
      ≡ config_lines (record b { parallel_jobs = z }) ls
unfolding apply_key
jobs_line b z ls h =
    number b (codes "parallel_jobs") z ls refl
    ∙ ap (λ t. config_lines (record b { parallel_jobs = t }) ls) (atoi-decimal z h)

retry_line :
    (b : ReproVmConfig) (z : ℤ) (ls : List Text)
    → IsInt z
    → config_lines b ((entry (codes "retry_attempts") (decimal z) ++ 10 ∷ []) ∷ ls)
      ≡ config_lines (record b { retry_attempts = z }) ls
unfolding apply_key
retry_line b z ls h =
    number b (codes "retry_attempts") z ls refl
    ∙ ap (λ t. config_lines (record b { retry_attempts = t }) ls) (atoi-decimal z h)

timeout_line :
    (b : ReproVmConfig) (z : ℤ) (ls : List Text)
    → IsInt z
    → config_lines b ((entry (codes "timeout_seconds") (decimal z) ++ 10 ∷ []) ∷ ls)
      ≡ config_lines (record b { timeout_seconds = z }) ls
unfolding apply_key
timeout_line b z ls h =
    number b (codes "timeout_seconds") z ls refl
    ∙ ap (λ t. config_lines (record b { timeout_seconds = t }) ls) (atoi-decimal z h)

metrics_line :
    (b : ReproVmConfig) (z : ℤ) (ls : List Text)
    → IsInt z
    → config_lines b ((entry (codes "enable_metrics") (decimal z) ++ 10 ∷ []) ∷ ls)
      ≡ config_lines (record b { enable_metrics = z }) ls
unfolding apply_key
metrics_line b z ls h =
    number b (codes "enable_metrics") z ls refl
    ∙ ap (λ t. config_lines (record b { enable_metrics = t }) ls) (atoi-decimal z h)

-- The line of the cache size is read, and nothing is done with it.
size_line :
    (b : ReproVmConfig) (z : ℤ) (ls : List Text)
    → config_lines b ((entry (codes "max_cache_size_mb") (decimal z) ++ 10 ∷ []) ∷ ls)
      ≡ config_lines b ls
unfolding apply_key
size_line b z ls = number b (codes "max_cache_size_mb") z ls refl

url_line :
    (b : ReproVmConfig) (v : Text) (ls : List Text)
    → IsPlain v
    → config_lines b ((entry (codes "remote_cas_url") v ++ 10 ∷ []) ∷ ls)
      ≡ config_lines (record b { remote_cas_url = v; enable_remote_cas = pos 1 }) ls
unfolding apply_key
url_line b v ls p =
    setting b (codes "remote_cas_url") v ls refl p
    ∙ ap (λ t. config_lines (record b { remote_cas_url = t; enable_remote_cas = pos 1 }) ls)
        (take-eq 511 v p.value.fits)

config_lines-nil : (b : ReproVmConfig) → config_lines b [] ≡ b
unfolding config_lines
config_lines-nil b = refl

remote_part :
    (c b : ReproVmConfig)
    → IsSavable c
    → config_lines b (map (λ l. l ++ 10 ∷ []) (remote_lines c)) ≡ with_remote c b
remote_part c b h = elim (Bool-cases (is_zero c.enable_remote_cas)) [
  | inl off ↦ rw off (config_lines-nil b)
  | inr on ↦ rw on (
      comment b [] _ refl
      ∙ (comment b (codes "# Remote CAS") _ refl
          ∙ (url_line b c.remote_cas_url [] (h.remote_cas_url on) ∙ config_lines-nil _)))
]

pub config_lines-saved :
    (c b : ReproVmConfig)
    → IsSavable c
    → config_lines b (map (λ l. l ++ 10 ∷ []) (saved_lines c)) ≡ with_remote c (restored c b)
unfolding saved_lines
config_lines-saved c b h =
    let (jobs, retries, timeout, metrics) = h.numbers in
    comment b (codes "# ReproVM Configuration File") _ refl
    ∙ (comment b (codes "# Generated automatically") _ refl
        ∙ (comment b [] _ refl
            ∙ (comment b (codes "# Logging") _ refl
                ∙ (log_file_line b c.log_file _ h.log_file.0 h.log_file.1
                    ∙ (level_line _ c.log_level _
                        ∙ (comment _ [] _ refl
                            ∙ (comment _ (codes "# Cache") _ refl
                                ∙ (cache_dir_line _ c.cache_dir _ h.cache_dir.0 h.cache_dir.1
                                    ∙ (size_line _ c.max_cache_size_mb _
                                        ∙ (comment _ [] _ refl
                                            ∙ (comment _ (codes "# Execution") _ refl
                                                ∙ (jobs_line _ c.parallel_jobs _ jobs
                                                    ∙ (retry_line _ c.retry_attempts _ retries
                                                        ∙ (timeout_line _ c.timeout_seconds _
                                                            timeout
                                                            ∙ (comment _ [] _ refl
                                                            ∙ (comment _ (codes "# Performance") _
                                                            refl
                                                            ∙ (metrics_line _ c.enable_metrics _
                                                            metrics
                                                            ∙ remote_part c (restored c b)
                                                            h)))))))))))))))))
