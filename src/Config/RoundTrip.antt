-- ===== src/Config/RoundTrip.antt =====
-- What `config_load_from_file` reads of a file that `config_save_to_file` wrote.
use repro_vm_virtual_machine.Config.Restored.{IsSavable, with_remote, restored, config_lines-saved}
use repro_vm_virtual_machine.Config.Save.{
  entry, decimal, log_level_name, saved_lines, remote_lines, config_save_to_file,
}
use repro_vm_virtual_machine.Config.Lines.{
  IsPlain, is_key, is_key-IsKey, IsShort, fgets_lines-printed,
}
use repro_vm_virtual_machine.Prelude.{
  codes, ◌∷◌, true, refl, ◌≡◌, ◌∙◌, arith, inl, inr, Bool-cases, Text, All, ap, mem-append,
  length-append,
}
use repro_vm_virtual_machine.Prelude.Int.{ℤ, is_zero}
use repro_vm_virtual_machine.Config.{
  ReproVmConfig, LogLevel, log_debug, log_info, log_warn, log_error, log_fatal,
  config_load_from_file, config_lines,
}
use repro_vm_virtual_machine.Config.Decimal.{decimal-IsPlain}

-- Every line fits the buffer of the reader.
entry-IsShort : (key v : Text) → is_key key ≡ true → IsPlain v → IsShort (entry key v)
entry-IsShort key v h p =
    let k = is_key-IsKey key h in
    (
      rw (mem-append 10 key (b'=' ∷ v), k.one_line) p.value.one_line,
      omega (arith, k.fits, p.value.fits, length-append key (b'=' ∷ v)),
    )

number-IsShort : (key : Text) (z : ℤ) → is_key key ≡ true → IsShort (entry key (decimal z))
number-IsShort key z h = entry-IsShort key (decimal z) h (decimal-IsPlain z)

level-IsShort : (l : LogLevel) → IsShort (entry (codes "log_level") (log_level_name l))
level-IsShort log_debug = (refl, omega arith)
level-IsShort log_info = (refl, omega arith)
level-IsShort log_warn = (refl, omega arith)
level-IsShort log_error = (refl, omega arith)
level-IsShort log_fatal = (refl, omega arith)

remote_lines-IsShort : (c : ReproVmConfig) → IsSavable c → All IsShort (remote_lines c)
remote_lines-IsShort c h = elim (Bool-cases (is_zero c.enable_remote_cas)) [
  | inl off ↦ rw off tt
  | inr on ↦ rw on (
    (refl, omega arith),
    (
      (refl, omega arith),
      (entry-IsShort (codes "remote_cas_url") c.remote_cas_url refl (h.remote_cas_url on), tt),
    ),
  )
]

saved_lines-IsShort : (c : ReproVmConfig) → IsSavable c → All IsShort (saved_lines c)
unfolding saved_lines
saved_lines-IsShort c h = (
  (refl, omega arith),
  (
    (refl, omega arith),
    (
      (refl, omega arith),
      (
        (refl, omega arith),
        (
          entry-IsShort (codes "log_file") c.log_file refl h.log_file.0,
          (
            level-IsShort c.log_level,
            (
              (refl, omega arith),
              (
                (refl, omega arith),
                (
                  entry-IsShort (codes "cache_dir") c.cache_dir refl h.cache_dir.0,
                  (
                    number-IsShort (codes "max_cache_size_mb") c.max_cache_size_mb refl,
                    (
                      (refl, omega arith),
                      (
                        (refl, omega arith),
                        (
                          number-IsShort (codes "parallel_jobs") c.parallel_jobs refl,
                          (
                            number-IsShort (codes "retry_attempts") c.retry_attempts refl,
                            (
                              number-IsShort (codes "timeout_seconds") c.timeout_seconds refl,
                              (
                                (refl, omega arith),
                                (
                                  (refl, omega arith),
                                  (
                                    number-IsShort (codes "enable_metrics") c.enable_metrics refl,
                                    remote_lines-IsShort c h,
                                  ),
                                ),
                              ),
                            ),
                          ),
                        ),
                      ),
                    ),
                  ),
                ),
              ),
            ),
          ),
        ),
      ),
    ),
  ),
)

-- Saving a configuration in a file that is written completely, and loading the file into another
-- one: if the texts of the saved one are not empty, stand on one line, have no blanks at their ends
-- and fit their fields, and its numbers are values of an `int`, then the fields that the file names
-- come back, and nothing else changes. Two of them stay as they were: the cache size always, and the
-- level if the saved one is FATAL. The URL comes back, and the remote store is on, if it was on in
-- the saved one.
pub config_load_from_file-config_save_to_file :
    (c b : ReproVmConfig)
    → IsSavable c
    → config_load_from_file b (config_save_to_file true c) ≡ (with_remote c (restored c b), true)
unfolding config_load_from_file config_save_to_file
config_load_from_file-config_save_to_file c b h =
    ap (λ x. (x, true))
      (ap (config_lines b) (fgets_lines-printed (saved_lines c) (saved_lines-IsShort c h))
        ∙ config_lines-saved c b h)
