-- ===== src/Manifest.antt =====
-- `parse_manifest` of task.c, up to the linking of the tasks (which Task.antt models).
pub mod Line
pub mod RoundTrip
use repro_vm_virtual_machine.Prelude.{
  ℕ, zero, suc, ◌+◌, ◌-◌, ◌*◌, ◌≤◌, ◌<◌, if◌then◌else◌, ◌==◌, ◌++◌, ◌∷◌, [], List, true, false,
  Bool, ◌&&◌, ◌||◌, none, some, Option, refl, ◌≡◌, ◌≢◌, ◌∙◌, sym, arith, inl, inr, ◌⊎◌, ◌↔◌,
  Bool-cases, Option-cases, List-cases, length, Text, mem, count, All, is_space, after, starts_with,
  take, c_str, skip_spaces, codes, drop,
}
use repro_vm_virtual_machine.Util.{trim, split_csv_array, pieces, keep_nonempty}
use repro_vm_virtual_machine.Task.{Task, TaskStatus, pending}

-- `task_new` with the name filled in
abbrev pub new_task : Text → Task
new_task n = record {
  name = n;
  cmd = none;
  inputs = [];
  outputs = [];
  deps = [];
  task_hash = none;
  result_hash = none;
  status = TaskStatus.pending;
}

-- `*name_end && !isspace(*name_end) && *name_end != '{'`
abbrev pub name_part : Text → Text
name_part [] = []
name_part (c ∷ s) = let rest = name_part s in if is_space c || c == b'{' then [] else c ∷ rest

-- The variables `cur` and `list` of the loop.
pub record Parse : Type 0 where
  pub cur : Option Task
  pub list : List Task

-- The value of `inputs`, `outputs` and `deps`: what follows the `=`.
unfoldable pub csv_value : Text → Option (List Text)
unfolding trim split_csv_array
csv_value tmp = elim (after b'=' tmp) [
  | none ↦ none
  | some rest ↦ some (split_csv_array (trim rest))
]

unfoldable pub set_cmd : Task → Text → Task
set_cmd t tmp = elim (after b'=' tmp) [
  | none ↦ t
  | some rest ↦ record t { cmd = some (skip_spaces rest) }
]

unfoldable pub set_inputs : Task → Text → Task
unfolding csv_value
set_inputs t tmp = elim (csv_value tmp) [ none ↦ t | some v ↦ record t { inputs = v } ]

unfoldable pub set_outputs : Task → Text → Task
unfolding csv_value
set_outputs t tmp = elim (csv_value tmp) [ none ↦ t | some v ↦ record t { outputs = v } ]

unfoldable pub set_deps : Task → Text → Task
unfolding csv_value
set_deps t tmp = elim (csv_value tmp) [ none ↦ t | some v ↦ record t { deps = v } ]

-- The branches that want an open task.
unfoldable pub field_line : Task → List Task → Text → Parse
unfolding set_cmd set_inputs set_outputs set_deps
field_line t list tmp =
    if starts_with (codes "cmd") tmp
    then record { cur = some (set_cmd t tmp); list = list }
    else if starts_with (codes "inputs") tmp
    then record { cur = some (set_inputs t tmp); list = list }
    else if starts_with (codes "outputs") tmp
    then record { cur = some (set_outputs t tmp); list = list }
    else if starts_with (codes "deps") tmp
    then record { cur = some (set_deps t tmp); list = list }
    else if mem b'}' tmp
    then record { cur = none; list = list ++ t ∷ [] }
    else record { cur = some t; list = list }

-- `tmp[0] == '#' || tmp[0] == '\0'`
abbrev pub is_comment : Text → Bool
is_comment [] = true
is_comment (c ∷ s) = c == b'#'

-- The chain of tests on the trimmed line. A line `task ...` drops an open task.
unfoldable pub trimmed_line : Parse → Text → Parse
unfolding field_line
trimmed_line p tmp =
    if is_comment tmp
    then p
    else if starts_with (codes "task ") tmp
    then record { cur = some (new_task (name_part (skip_spaces (drop 5 tmp)))); list = p.list }
    else elim p.cur [ none ↦ p | some t ↦ field_line t p.list tmp ]

-- The body of the loop; `tmp` holds 4095 bytes of the line.
unfoldable pub parse_line : Parse → Text → Parse
unfolding trimmed_line trim
parse_line p line = trimmed_line p (trim (take 4095 line))

unfoldable pub parse_lines : Parse → List Text → Parse
unfolding parse_line
parse_lines p [] = p
parse_lines p (l ∷ ls) = parse_lines (parse_line p l) ls

-- A task that is still open at the end of the file is kept.
unfoldable pub finish : Parse → List Task
finish p = elim p.cur [ none ↦ p.list | some t ↦ p.list ++ t ∷ [] ]

-- `strtok_r` on "\n" gives the lines that are not empty.
unfoldable pub parse_manifest : List ℕ → List Task
unfolding parse_lines finish pieces keep_nonempty
parse_manifest content =
    finish
      (parse_lines (record { cur = none; list = [] }) (keep_nonempty (pieces 10 (c_str content))))
