-- ===== src/Errors.antt =====
-- error_handling.c and error_handling.h: the error codes, the last error and the retry loop.
pub mod Retry
use repro_vm_virtual_machine.Prelude.{
  ltb, codes, take, ℕ, zero, suc, ◌+◌, ◌-◌, ◌*◌, ◌≤◌, ◌<◌, if◌then◌else◌, ◌==◌, ◌++◌, ◌∷◌, [], List,
  true, false, Bool, ◌&&◌, ◌||◌, none, some, Option, refl, ◌≡◌, ◌≢◌, ◌∙◌, sym, arith, inl, inr, ◌⊎◌,
  ◌↔◌, Bool-cases, Option-cases, List-cases, length, Text, mem, count, All,
}

pub data ErrorCode : Type 0 where
  err_success err_invalid_arg err_file_not_found err_file_io err_memory_alloc err_parse_error
        err_task_failed err_cycle_detected err_cache_error err_cas_error err_network_error
        err_timeout err_permission_denied err_invalid_hash err_config_error err_system_error
        err_unknown :
      ErrorCode

pub record ErrorContext : Type 0 where
  pub code : ErrorCode
  pub message : Text
  pub file : Text
  pub line : ℕ
  pub function : Text

unfoldable pub clear_error : ErrorContext
clear_error = record { code = err_success; message = []; file = []; line = 0; function = [] }

-- `strncpy` and `vsnprintf` cut each text to its field. `message` is the formatted text.
unfoldable pub set_error : ErrorCode → Text → ℕ → Text → Text → ErrorContext
set_error code file line func message = record {
  code = code;
  message = take 511 message;
  file = take 255 file;
  line = line;
  function = take 127 func;
}

unfoldable pub error_code_name : ErrorCode → Text
error_code_name err_success = codes "SUCCESS"
error_code_name err_invalid_arg = codes "INVALID_ARGUMENT"
error_code_name err_file_not_found = codes "FILE_NOT_FOUND"
error_code_name err_file_io = codes "FILE_IO_ERROR"
error_code_name err_memory_alloc = codes "MEMORY_ALLOCATION_ERROR"
error_code_name err_parse_error = codes "PARSE_ERROR"
error_code_name err_task_failed = codes "TASK_FAILED"
error_code_name err_cycle_detected = codes "CYCLE_DETECTED"
error_code_name err_cache_error = codes "CACHE_ERROR"
error_code_name err_cas_error = codes "CAS_ERROR"
error_code_name err_network_error = codes "NETWORK_ERROR"
error_code_name err_timeout = codes "TIMEOUT"
error_code_name err_permission_denied = codes "PERMISSION_DENIED"
error_code_name err_invalid_hash = codes "INVALID_HASH"
error_code_name err_config_error = codes "CONFIG_ERROR"
error_code_name err_system_error = codes "SYSTEM_ERROR"
error_code_name err_unknown = codes "UNKNOWN_ERROR"

-- `func` on the state behind its context: `true` is the return value 0. `left` is
-- `max_attempts - attempt`, so the loop ends.
unfoldable pub retry_operation {ℓ} : {S : Type ℓ} → (S → S × Bool) → ℕ → S → S × Bool
retry_operation func zero s = (s, false)
retry_operation func (suc left) s =
    let tried = func s in
    let later = retry_operation func left tried.0 in if tried.1 then (tried.0, true) else later
