-- ===== src/Tests/Again.antt =====
-- task.c: a task that is run on the disk of Tests.Store, and run again where every command fails.
use repro_vm_virtual_machine.Prelude.{
  codes, Text, ◌∷◌, [], true, false, Bool, none, some, Option, refl, ◌≡◌,
}
use repro_vm_virtual_machine.Cas.{Disk}
use repro_vm_virtual_machine.Task.{Task, pending, success, skipped}
use repro_vm_virtual_machine.Tests.Store.{open_os, one_file}
use repro_vm_virtual_machine.Exec.{
  execute_task, run_or_load, try_load_task_record, run_task, compute_result_hash, output_hashes,
  write_task_record,
}
use repro_vm_virtual_machine.Exec.Recorded.{IsRecorded}
use repro_vm_virtual_machine.Exec.Cached.{execute_task-execute_task}

abbrev works : Option Text → Disk → Disk × Bool
works c d = (d, true)

abbrev breaks : Option Text → Disk → Disk × Bool
breaks c d = (d, false)

abbrev objects_at : Text
objects_at = codes "/o"

abbrev records_at : Text
records_at = codes "/c"

abbrev one_output : Task
one_output = record {
  name = codes "t";
  cmd = some (codes "make");
  inputs = [];
  outputs = codes "in" ∷ [];
  deps = [];
  task_hash = some (codes "cafe");
  result_hash = none;
  status = pending;
}

one_output-IsRecorded : IsRecorded open_os objects_at records_at one_output (codes "cafe")
one_output-IsRecorded = record {
  keyed = refl;
  key_line = refl;
  can_create = refl;
  can_open = refl;
  uncut = refl;
  names = (refl, tt);
}

abbrev first_run : Disk × Task × Bool
first_run = execute_task open_os objects_at records_at works one_output one_file

succeeds : first_run.1.status ≡ success
unfolding execute_task run_or_load try_load_task_record run_task compute_result_hash output_hashes
    write_task_record
succeeds = refl

execute_task-execute_task_example :
    ((execute_task open_os objects_at records_at breaks first_run.1 first_run.0).1
      ≡ record first_run.1 { status = skipped })
    × ((execute_task open_os objects_at records_at breaks first_run.1 first_run.0).2 ≡ true)
execute_task-execute_task_example =
    execute_task-execute_task open_os objects_at records_at works breaks one_output (codes "cafe")
      one_file one_output-IsRecorded succeeds
