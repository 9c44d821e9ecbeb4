-- ===== src/Config/Bounds.antt =====
-- No text of the configuration is longer than its buffer, whatever the file and the environment hold.
use repro_vm_virtual_machine.Config.{
  ReproVmConfig, on_env, config_init_defaults, apply_key, config_line, config_lines,
  config_load_from_file, config_load_from_env, ℤ, scan_line, fgets_lines, c_str, cut_blanks,
  skip_blanks, str_eq, is_skipped,
}
use repro_vm_virtual_machine.Prelude.{
  codes, ℕ, ◌≤◌, if◌then◌else◌, ◌∷◌, [], List, true, false, Bool, none, some, Option, arith, inl,
  inr, Option-cases, length, Text, take, length-take,
}

-- Each text leaves room for its zero byte.
pub record Fits (c : ReproVmConfig) : Type 0 where
  pub texts :
      (length c.log_file ≤ 255)
      × (length c.cache_dir ≤ 255)
      × (length c.metrics_file ≤ 255)
      × (length c.remote_cas_url ≤ 511)
      × (length c.remote_cas_access_key ≤ 255)
      × (length c.remote_cas_secret_key ≤ 255)

take_fits : (n : ℕ) (v : Text) → length (take n v) ≤ n
take_fits n v = omega (arith, length-take n v)

on_env_fits :
    (e : Option Text) (n : ℕ) (old : Text) → length old ≤ n → length (on_env e (take n) old) ≤ n
on_env_fits none n old h = h
on_env_fits (some v) n old h = take_fits n v

defaults-Fits : (cores : ℤ) → Fits (config_init_defaults cores)
unfolding config_init_defaults
defaults-Fits cores = record {
  texts = (omega arith, omega arith, omega arith, omega arith, omega arith, omega arith);
}

Fits-if : (b : Bool) {c d : ReproVmConfig} → Fits c → Fits d → Fits (if b then c else d)
Fits-if true f g = f
Fits-if false f g = g

apply_key-Fits : (k v : Text) (c : ReproVmConfig) → Fits c → Fits (apply_key k v c)
unfolding apply_key
apply_key-Fits k v c f =
    let (file, dir, metrics, url, access, secret) = f.texts in
    let is = λ (name : Text). str_eq k name in
    Fits-if (is (codes "log_file"))
      (record { texts = (take_fits 255 v, dir, metrics, url, access, secret) })
      (Fits-if (is (codes "log_level")) (record { texts = f.texts })
        (Fits-if (is (codes "cache_dir"))
          (record { texts = (file, take_fits 255 v, metrics, url, access, secret) })
          (Fits-if (is (codes "parallel_jobs")) (record { texts = f.texts })
            (Fits-if (is (codes "retry_attempts")) (record { texts = f.texts })
              (Fits-if (is (codes "timeout_seconds")) (record { texts = f.texts })
                (Fits-if (is (codes "enable_metrics")) (record { texts = f.texts })
                  (Fits-if (is (codes "remote_cas_url"))
                    (record { texts = (file, dir, metrics, take_fits 511 v, access, secret) })
                    f)))))))

config_line-Fits : (c : ReproVmConfig) (line : Text) → Fits c → Fits (config_line c line)
unfolding config_line
config_line-Fits c line f = elim (Option-cases (scan_line (c_str line))) [
  | inl e ↦ rw (e, config_line) (Fits-if (is_skipped (skip_blanks (c_str line))) f f)
  | inr ((key, value), e) ↦
      rw (e, config_line)
        (Fits-if (is_skipped (skip_blanks (c_str line))) f
          (apply_key-Fits (cut_blanks (skip_blanks key)) (cut_blanks (skip_blanks value)) c f))
]

config_lines-Fits : (c : ReproVmConfig) (ls : List Text) → Fits c → Fits (config_lines c ls)
unfolding config_lines
config_lines-Fits c [] f = f
config_lines-Fits c (l ∷ ls) f = config_lines-Fits (config_line c l) ls (config_line-Fits c l f)

config_load_from_file-Fits :
    (c : ReproVmConfig) (content : Option Text) → Fits c → Fits (config_load_from_file c content).0
unfolding config_load_from_file
config_load_from_file-Fits c none f = f
config_load_from_file-Fits c (some content) f = config_lines-Fits c (fgets_lines 1022 [] content) f

config_load_from_env-Fits :
    (env : Text → Option Text) (c : ReproVmConfig) → Fits c → Fits (config_load_from_env env c)
unfolding config_load_from_env
config_load_from_env-Fits env c f =
    let (file, dir, metrics, url, access, secret) = f.texts in
    record {
      texts = (
        on_env_fits (env (codes "REPROVM_LOG_FILE")) 255 c.log_file file,
        on_env_fits (env (codes "REPROVM_CACHE_DIR")) 255 c.cache_dir dir,
        metrics,
        on_env_fits (env (codes "REPROVM_REMOTE_CAS_URL")) 511 c.remote_cas_url url,
        on_env_fits (env (codes "REPROVM_REMOTE_CAS_ACCESS_KEY")) 255 c.remote_cas_access_key
            access,
        on_env_fits (env (codes "REPROVM_REMOTE_CAS_SECRET_KEY")) 255 c.remote_cas_secret_key
            secret,
      );
    }

-- From the defaults on, no file and no environment make a text of the configuration longer than its
-- buffer: at most 255 bytes, and 511 for the URL of the remote store, each with a zero byte behind.
pub config-Fits :
    (cores : ℤ) (content : Option Text) (env : Text → Option Text)
    → Fits (config_load_from_env env (config_load_from_file (config_init_defaults cores) content).0)
config-Fits cores content env =
    config_load_from_env-Fits env (config_load_from_file (config_init_defaults cores) content).0
      (config_load_from_file-Fits (config_init_defaults cores) content (defaults-Fits cores))
