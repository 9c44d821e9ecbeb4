-- ===== src/Config/Defaults.antt =====
-- When `config_validate` accepts what the defaults and an empty environment give.
use repro_vm_virtual_machine.Config.{
  config_validate, config_load_from_env, config_load_from_file, config_init_defaults,
}
use repro_vm_virtual_machine.Prelude.Int.{ℤ, pos, negsuc, gtb_ℤ}
use repro_vm_virtual_machine.Prelude.{zero, suc, none, refl, ◌≡◌, arith, not}

-- Without a configuration file and without variables, `config_validate` rejects the configuration
-- if and only if the system reports more than 256 cores.
pub config_validate-defaults :
    (cores : ℤ)
    → config_validate (
        config_load_from_env
          (λ _. none)
          (config_load_from_file (config_init_defaults cores) none).0)
      ≡ not (gtb_ℤ cores 256)
unfolding config_validate config_load_from_env config_load_from_file config_init_defaults
config_validate-defaults (pos zero) = refl
config_validate-defaults (pos (suc n)) = ground arith
config_validate-defaults (negsuc n) = refl
