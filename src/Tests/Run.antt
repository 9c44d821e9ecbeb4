-- ===== src/Tests/Run.antt =====
-- Runs of tasks on the disks of Tests.Store, with a command that succeeds and one that fails.
use repro_vm_virtual_machine.CacheKey.Sort.{key_text-Perm}
use repro_vm_virtual_machine.Exec.{compute_task_hash, main_loop, store_inputs}
use repro_vm_virtual_machine.CacheKey.{key_text, sort_hashes, sort_rounds}
use repro_vm_virtual_machine.Sha.{sha256}
use repro_vm_virtual_machine.Tests.Store.{open_os, empty_disk, one_file}
use repro_vm_virtual_machine.Util.{hex_encode, join_strings}
use repro_vm_virtual_machine.Exec.Run.{Progress, main_loop-Progress}
use repro_vm_virtual_machine.Exec.Key.{compute_task_hash-deps}
use repro_vm_virtual_machine.Task.{Task, pending}
use repro_vm_virtual_machine.Cas.{Disk}
use repro_vm_virtual_machine.Prelude.{
  codes, ◌∷◌, [], false, Bool, none, some, Option, refl, ◌≡◌, Text, not, str_eq,
}
use mathlib.Core.List.Perm

-- `fail` fails, and every other command leaves the disk as it is.
abbrev shell : Option Text → Disk → Disk × Bool
shell none d = (d, false)
shell (some c) d = (d, not (str_eq c (codes "fail")))

abbrev task : Text → Task
task cmd = record {
  name = codes "t";
  cmd = some cmd;
  inputs = codes "in" ∷ [];
  outputs = [];
  deps = codes "a" ∷ [];
  task_hash = none;
  result_hash = none;
  status = pending;
}

abbrev objects : Text
objects = codes "/o"

abbrev cache : Text
cache = codes "/c"

key_text-Perm_example :
    key_text none (codes "1" ∷ codes "2" ∷ []) [] ≡ key_text none (codes "2" ∷ codes "1" ∷ []) []
key_text-Perm_example =
    key_text-Perm none (codes "1" ∷ codes "2" ∷ []) (codes "2" ∷ codes "1" ∷ []) []
      (Perm.swap (codes "2") (codes "1") [])

abbrev no_inputs : Task
no_inputs = record (task (codes "make")) { inputs = [] }

abbrev keyed : Text → Task
keyed dep = record no_inputs {
  deps = dep ∷ [];
  task_hash = some (hex_encode (sha256 (codes "cmd=make\ninputs=\ndeps=\n")));
}

keyed_a :
    (compute_task_hash open_os objects cache no_inputs empty_disk).1 ≡ some (keyed (codes "a"))
unfolding compute_task_hash store_inputs key_text join_strings sort_hashes sort_rounds
keyed_a = refl

keyed_b :
    (compute_task_hash open_os objects cache
      (record no_inputs { deps = codes "b" ∷ [] })
      empty_disk).1
    ≡ some (keyed (codes "b"))
unfolding compute_task_hash store_inputs key_text join_strings sort_hashes sort_rounds
keyed_b = refl

compute_task_hash-deps_example : (keyed (codes "b")).task_hash ≡ (keyed (codes "a")).task_hash
compute_task_hash-deps_example =
    compute_task_hash-deps open_os objects cache no_inputs (keyed (codes "a")) (keyed (codes "b"))
      (codes "b" ∷ []) empty_disk refl keyed_a keyed_b

main_loop-Progress_example :
    Progress
      (task (codes "make") ∷ task (codes "fail") ∷ [])
      (main_loop open_os objects cache shell
        (task (codes "make") ∷ task (codes "fail") ∷ [])
        one_file).1
      (main_loop open_os objects cache shell
        (task (codes "make") ∷ task (codes "fail") ∷ [])
        one_file).2
main_loop-Progress_example =
    main_loop-Progress open_os objects cache shell (task (codes "make") ∷ task (codes "fail") ∷ [])
      one_file
