-- ===== src/Tests/Settings.antt =====
-- config.c: the defaults, saved on one machine and loaded on another.
use repro_vm_virtual_machine.Config.Lines.{IsPlain}
use repro_vm_virtual_machine.Config.Restored.{IsSavable, with_remote, restored}
use repro_vm_virtual_machine.Prelude.{codes, true, refl, ◌≡◌, arith, ap}
use repro_vm_virtual_machine.Prelude.Int.{pos}
use repro_vm_virtual_machine.Config.{ReproVmConfig, config_init_defaults, config_load_from_file}
use repro_vm_virtual_machine.Config.Save.{config_save_to_file}
use repro_vm_virtual_machine.Config.RoundTrip.{config_load_from_file-config_save_to_file}

abbrev saved : ReproVmConfig
saved = record (config_init_defaults (pos 8)) {
  retry_attempts = pos 12;
  max_cache_size_mb = pos 99;
}

abbrev other : ReproVmConfig
other = config_init_defaults (pos 4)

log_file-IsPlain : IsPlain (codes ".reprovm/reprovm.log")
log_file-IsPlain = record {
  value = record { filled = refl; one_line = refl; no_zero = refl; fits = omega arith };
  trimmed = refl;
}

cache_dir-IsPlain : IsPlain (codes ".reprovm")
cache_dir-IsPlain = record {
  value = record { filled = refl; one_line = refl; no_zero = refl; fits = omega arith };
  trimmed = refl;
}

saved-IsSavable : IsSavable saved
unfolding config_init_defaults
saved-IsSavable = record {
  log_file = (log_file-IsPlain, omega arith);
  cache_dir = (cache_dir-IsPlain, omega arith);
  remote_cas_url = λ h. absurd cc;
  numbers = (omega arith, omega arith, omega arith, omega arith);
}

config_load_from_file-config_save_to_file_example :
    config_load_from_file other (config_save_to_file true saved)
    ≡ (with_remote saved (restored saved other), true)
config_load_from_file-config_save_to_file_example =
    config_load_from_file-config_save_to_file saved other saved-IsSavable

-- The cache size of the saved configuration is lost.
size_stays :
    (config_load_from_file other (config_save_to_file true saved)).0.max_cache_size_mb ≡ pos 10240
unfolding config_init_defaults
size_stays = ap (λ r. r.0.max_cache_size_mb) config_load_from_file-config_save_to_file_example
