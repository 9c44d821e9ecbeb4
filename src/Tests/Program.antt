-- ===== src/Tests/Program.antt =====
-- main.c on the manifest of the chain of Tests.Graph, with no targets and a command that is missing.
use repro_vm_virtual_machine.Util.{
  ensure_dir_recursive, drop_last_slash, split_csv_array, trim, trim_start, trim_end, is_blank,
  pieces, keep_nonempty,
}
use repro_vm_virtual_machine.Prelude.{
  codes, Text, ℕ, str_eq, subst, ◌<◌, if◌then◌else◌, ◌∷◌, [], List, true, false, Bool, none, some,
  Option, refl, ◌≡◌, sym, arith, ◌↔◌, mem,
}
use repro_vm_virtual_machine.Cas.{Disk, cas_init, mkdir}
use repro_vm_virtual_machine.Task.{Task}
use repro_vm_virtual_machine.Task.Collect.{Falls}
use repro_vm_virtual_machine.Task.Collect.Plan.{NeedsAtMost, IsRequested, Needed}
use repro_vm_virtual_machine.Task.Sort.Degrees.{UniqueNames}
use repro_vm_virtual_machine.Task.Sort.Order.{DepsFirst}
use repro_vm_virtual_machine.Exec.Run.{Progress}
use repro_vm_virtual_machine.Manifest.{parse_manifest, parse_line, trimmed_line, csv_value}
use repro_vm_virtual_machine.Tests.Graph.{chain, unique_chain, rank, Falls-chain, NeedsAtMost-chain}
use repro_vm_virtual_machine.Tests.Store.{open_os}
use repro_vm_virtual_machine.Main.{run_main, executed, exit_code, tasks_at}
use repro_vm_virtual_machine.Main.Whole.{run_main-Progress}

abbrev content : Text
content = codes "task b {\ndeps = a\n}\ntask a {\n}\n"

abbrev file : Text
file = codes "m"

abbrev with_manifest : Disk
with_manifest = record {
  files = λ p. if str_eq p file then some content else none;
  dirs = λ _. false;
}

abbrev no_shell : Option Text → Disk → Disk × Bool
no_shell c d = (d, false)

parsed : parse_manifest content ≡ chain
unfolding parse_manifest parse_line trimmed_line csv_value split_csv_array trim trim_start trim_end
    is_blank pieces keep_nonempty
parsed = refl

made :
    (cas_init open_os (codes ".") with_manifest).1
    ≡ some (codes "./.reprovm/cas/objects", codes "./.reprovm/cache")
unfolding cas_init ensure_dir_recursive mkdir drop_last_slash
made = refl

there : (cas_init open_os (codes ".") with_manifest).0.files file ≡ some content
unfolding cas_init ensure_dir_recursive mkdir drop_last_slash
there = refl

unique : UniqueNames (parse_manifest content)
unique = subst UniqueNames (sym parsed) unique_chain

falls : Falls (parse_manifest content) rank
falls = subst (λ tasks. Falls tasks rank) (sym parsed) Falls-chain

low : (i : ℕ) → rank i < 2
low i = ground arith

first_task : IsRequested (parse_manifest content) [] 0
first_task = rw parsed (omega arith)

few : NeedsAtMost 16 (parse_manifest content) []
few = subst (λ tasks. NeedsAtMost 16 tasks []) (sym parsed) (NeedsAtMost-chain [] (λ i h. h))

run_main-Progress_example :
    (d' : Disk) × (order : List ℕ) × (ts : List Task) × (ok : Bool) × (run_main open_os no_shell 2
        (file ∷ [])
        with_manifest
      ≡ some (d', executed order ts ok))
    × ((j : ℕ) → (mem j order ≡ true) ↔ Needed (parse_manifest content) [] j)
    × DepsFirst (parse_manifest content) order [] order
    × Progress (tasks_at (parse_manifest content) order) ts ok
    × (exit_code (executed order ts ok) ≡ 0 ↔ ok ≡ true)
run_main-Progress_example =
    run_main-Progress open_os no_shell 2 file content (codes "./.reprovm/cas/objects")
      (codes "./.reprovm/cache") [] with_manifest rank 0 made refl there unique falls (λ i _. low i)
      first_task few
