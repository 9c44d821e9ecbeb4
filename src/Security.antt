-- ===== src/Security.antt =====
-- security.c: the checks of paths, names, commands and hashes. A check returns the error that it
-- sets, or `none` for the return value 0. What `stat`, `access` and `realpath` say are parameters.
pub mod Safe
use repro_vm_virtual_machine.Util.{is_empty}
use repro_vm_virtual_machine.Errors.{
  ErrorCode, err_invalid_hash, err_file_not_found, err_file_io, err_invalid_arg,
  err_permission_denied,
}
use repro_vm_virtual_machine.Prelude.{
  ltb, leb, codes, contains, starts_with, is_space, take, not, ℕ, zero, suc, ◌+◌, ◌-◌, ◌*◌, ◌≤◌,
  ◌<◌, if◌then◌else◌, ◌==◌, ◌++◌, ◌∷◌, [], List, true, false, Bool, ◌&&◌, ◌||◌, none, some, Option,
  refl, ◌≡◌, ◌≢◌, ◌∙◌, sym, arith, inl, inr, ◌⊎◌, ◌↔◌, Bool-cases, Option-cases, List-cases, length,
  Text, mem, count, All,
}

-- `char` is signed: bytes above 127 are no letters.
abbrev pub is_alnum : ℕ → Bool
is_alnum c = (leb 48 c && leb c 57) || ((leb 65 c && leb c 90) || (leb 97 c && leb c 122))

abbrev pub is_xdigit : ℕ → Bool
is_xdigit c = (leb 48 c && leb c 57) || ((leb 65 c && leb c 70) || (leb 97 c && leb c 102))

abbrev pub is_print : ℕ → Bool
is_print c = leb 32 c && leb c 126

abbrev pub all_chars : (ℕ → Bool) → Text → Bool
all_chars ok [] = true
all_chars ok (c ∷ s) = ok c && all_chars ok s

-- `PATH_MAX` is 4096. A path with `..` is only logged.
unfoldable pub validate_file_path : Text → Option ErrorCode
validate_file_path path =
    if is_empty path
    then some err_invalid_arg
    else if ltb 4096 (length path)
    then some err_invalid_arg
    else none

abbrev pub is_name_char : ℕ → Bool
is_name_char c = is_alnum c || (c == b'_' || (c == b'-' || c == b'.'))

unfoldable pub validate_task_name : Text → Option ErrorCode
validate_task_name name =
    if is_empty name
    then some err_invalid_arg
    else if ltb 256 (length name)
    then some err_invalid_arg
    else if all_chars is_name_char name
    then none
    else some err_invalid_arg

abbrev pub dangerous_commands : List Text
dangerous_commands =
    codes "rm -rf /"
    ∷ codes "dd if=/dev/zero"
    ∷ codes ":(){ :|:& };:"
    ∷ codes "mkfs"
    ∷ codes "format"
    ∷ codes "> /dev/sda"
    ∷ codes "wget | sh"
    ∷ codes "curl | sh"
    ∷ codes "chmod 777 /"
    ∷ []

-- The patterns that `validate_command` logs a warning about.
abbrev pub dangers_in : Text → List Text → List Text
dangers_in cmd [] = []
dangers_in cmd (p ∷ ps) = if contains p cmd then p ∷ dangers_in cmd ps else dangers_in cmd ps

-- The error, and the warnings.
unfoldable pub validate_command : Text → Option ErrorCode × List Text
validate_command cmd =
    if is_empty cmd
    then (some err_invalid_arg, [])
    else if ltb 4096 (length cmd)
    then (some err_invalid_arg, [])
    else (none, dangers_in cmd dangerous_commands)

unfoldable pub validate_hash : Text → Option ErrorCode
validate_hash hash =
    if not (length hash == 64)
    then some err_invalid_hash
    else if all_chars is_xdigit hash
    then none
    else some err_invalid_hash

abbrev pub keep_printable : Text → Text
keep_printable [] = []
keep_printable (c ∷ s) = if is_print c || is_space c then c ∷ keep_printable s else keep_printable s

unfoldable pub sanitize_string : Text → ℕ → Text
sanitize_string input max_len = keep_printable (take max_len input)

-- `realpath(path)` failing is `none`.
unfoldable pub sanitize_path : Option Text → Text → Text
sanitize_path resolved path = elim resolved [ none ↦ sanitize_string path 4096 | some r ↦ r ]

-- `there` and `permitted` are what `access` says, for F_OK and for the mode that is asked for.
unfoldable pub check_file_permissions : Bool → (Bool → Bool) → Text → Bool → Option ErrorCode
check_file_permissions there permitted path write_required = elim (validate_file_path path) [
  | some e ↦ some e
  | none ↦
      if not there
      then some err_file_not_found
      else if permitted write_required
      then none
      else some err_permission_denied
]

unfoldable pub check_directory_permissions : Bool → Bool → Bool → Text → Option ErrorCode
check_directory_permissions there is_dir permitted path = elim (validate_file_path path) [
  | some e ↦ some e
  | none ↦
      if not there
      then some err_file_not_found
      else if not is_dir
      then some err_invalid_arg
      else if permitted
      then none
      else some err_permission_denied
]

-- `size` is what `stat` says.
unfoldable pub check_file_size_limit : Option ℕ → ℕ → Option ErrorCode
check_file_size_limit size max_size_bytes = elim size [
  | none ↦ some err_file_io
  | some n ↦ if ltb max_size_bytes n then some err_invalid_arg else none
]

unfoldable pub is_path_safe : Text → Bool
is_path_safe path = elim (validate_file_path path) [
  | some _ ↦ false
  | none ↦ not (contains (codes "..") path || contains (codes "//") path)
]

unfoldable pub is_within_directory : (Text → Option Text) → Text → Text → Bool
is_within_directory realpath path base_dir = elim (realpath path) [
  | none ↦ false
  | some p ↦ elim (realpath base_dir) [ none ↦ false | some base ↦ starts_with base p ]
]

unfoldable pub is_command_safe : Text → Bool
is_command_safe cmd = elim (validate_command cmd).0 [ none ↦ true | some _ ↦ false ]

-- Only the form of the hash is looked at.
unfoldable pub verify_file_checksum : Text → Option ErrorCode
verify_file_checksum expected_hash = validate_hash expected_hash
