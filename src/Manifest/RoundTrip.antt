-- ===== src/Manifest/RoundTrip.antt =====
-- A manifest that is written out in the documented form is read back task by task.
use repro_vm_virtual_machine.Prelude.{
  ◌≤◌, ◌++◌, ◌∷◌, [], List, false, none, some, refl, ◌≡◌, ◌∙◌, sym, arith, length, Text, mem, All,
  ap, mem-append, length-append, All-append, map, append-nil, c_str-eq, append_assoc,
}
use repro_vm_virtual_machine.Util.{pieces, keep_nonempty, is_blank}
use repro_vm_virtual_machine.Util.Csv.{pieces_cut}
use repro_vm_virtual_machine.Util.Trim.{EndsClean}
use repro_vm_virtual_machine.Task.{Task}
use repro_vm_virtual_machine.Manifest.{
  Parse, parse_lines, finish, parse_manifest, new_task, skip_spaces, codes, trimmed_line,
}
use repro_vm_virtual_machine.Manifest.Line.{
  IsLine, IsTail, IsLine-append, parse_line-IsLine, csv, IsField, csv-IsTail, cmd_line, inputs_line,
  outputs_line, deps_line, close_line, IsName, task_line,
}

-- What the author of a manifest writes for a task.
pub record Entry : Type 0 where
  pub name : Text
  pub cmd : Text
  pub inputs : List Text
  pub outputs : List Text
  pub deps : List Text

-- The task that the entry describes.
abbrev pub task_of : Entry → Task
task_of e =
    let t = new_task e.name in
    record t { cmd = some e.cmd; inputs = e.inputs; outputs = e.outputs; deps = e.deps }

-- No separator inside the parts, no blank at the ends of the command, and lines that fit.
pub record IsPlain (e : Entry) : Type 0 where
  pub name : IsName e.name
  pub name_zero : mem 0 e.name ≡ false
  pub name_fits : length e.name ≤ 4000
  pub cmd_start : skip_spaces e.cmd ≡ e.cmd
  pub cmd_tail : IsTail e.cmd
  pub cmd_fits : length e.cmd ≤ 4000
  pub inputs : IsField e.inputs
  pub outputs : IsField e.outputs
  pub deps : IsField e.deps

abbrev pub lines_of : Entry → List Text
lines_of e =
    (codes "task " ++ (e.name ++ codes " {"))
    ∷ (codes "cmd=" ++ e.cmd)
    ∷ (codes "inputs=" ++ csv e.inputs)
    ∷ (codes "outputs=" ++ csv e.outputs)
    ∷ (codes "deps=" ++ csv e.deps)
    ∷ codes "}"
    ∷ []

abbrev pub unlines : List Text → Text
unlines [] = []
unlines (l ∷ ls) = l ++ 10 ∷ unlines ls

abbrev pub all_lines : List Entry → List Text
all_lines [] = []
all_lines (e ∷ es) = lines_of e ++ all_lines es

-- The text of a manifest.
abbrev pub render : List Entry → Text
render es = unlines (all_lines es)

keep_pieces-unlines : (ls : List Text) → All IsLine ls → keep_nonempty (pieces 10 (unlines ls)) ≡ ls
unfolding pieces keep_nonempty
keep_pieces-unlines [] h = refl
keep_pieces-unlines (l ∷ ls) h =
    ap keep_nonempty (pieces_cut 10 l (unlines ls) h.0.one_line)
    ∙ rw (h.0.filled) (ap (λ t. l ∷ t) (keep_pieces-unlines ls h.1))

no_zero-unlines : (ls : List Text) → All IsLine ls → mem 0 (unlines ls) ≡ false
no_zero-unlines [] h = refl
no_zero-unlines (l ∷ ls) h =
    rw (mem-append 0 l (10 ∷ unlines ls), h.0.no_zero) (no_zero-unlines ls h.1)

mem-IsName : (n : Text) → IsName n → mem 10 n ≡ false
mem-IsName [] h = refl
mem-IsName (c ∷ n) h = ground (arith, mem-IsName n h.1)

name-IsTail : (e : Entry) → IsPlain e → IsTail (e.name ++ codes " {")
unfolding is_blank
name-IsTail e h = record {
  one_line = rw (mem-append 10 e.name (codes " {"), mem-IsName e.name h.name) refl;
  no_zero = rw (mem-append 0 e.name (codes " {"), h.name_zero) refl;
  ends = ends e.name;
}
  where
    ends : (n : Text) → EndsClean (n ++ codes " {")
    ends [] = refl
    ends (c ∷ []) = refl
    ends (c ∷ d ∷ n) = ends (d ∷ n)

prefix-IsLine :
    IsLine (codes "task")
    × IsLine (codes "cmd=")
    × IsLine (codes "inputs=")
    × IsLine (codes "outputs=")
    × IsLine (codes "deps=")
    × IsLine (codes "}")
unfolding is_blank
prefix-IsLine = (
  record {
    filled = refl;
    one_line = refl;
    no_zero = refl;
    fits = omega arith;
    starts = refl;
    ends = refl;
  },
  record {
    filled = refl;
    one_line = refl;
    no_zero = refl;
    fits = omega arith;
    starts = refl;
    ends = refl;
  },
  record {
    filled = refl;
    one_line = refl;
    no_zero = refl;
    fits = omega arith;
    starts = refl;
    ends = refl;
  },
  record {
    filled = refl;
    one_line = refl;
    no_zero = refl;
    fits = omega arith;
    starts = refl;
    ends = refl;
  },
  record {
    filled = refl;
    one_line = refl;
    no_zero = refl;
    fits = omega arith;
    starts = refl;
    ends = refl;
  },
  record {
    filled = refl;
    one_line = refl;
    no_zero = refl;
    fits = omega arith;
    starts = refl;
    ends = refl;
  },
)

task-IsLine : (e : Entry) → IsPlain e → IsLine (codes "task " ++ (e.name ++ codes " {"))
unfolding is_blank
task-IsLine e h =
    let tail = name-IsTail e h in
    record {
      filled = refl;
      one_line = tail.one_line;
      no_zero = tail.no_zero;
      fits = omega (arith, length-append e.name (codes " {"), h.name_fits);
      starts = refl;
      ends = ends e.name tail.ends;
    }
  where
    ends : (n : Text) → EndsClean (n ++ codes " {") → EndsClean (codes "task " ++ (n ++ codes " {"))
    ends [] k = k
    ends (c ∷ n) k = k

lines_of-IsLine : (e : Entry) → IsPlain e → All IsLine (lines_of e)
lines_of-IsLine e h =
    let (_, cmd, inputs, outputs, deps, close) = prefix-IsLine in
    (
      task-IsLine e h,
      (
        IsLine-append _ e.cmd cmd h.cmd_tail (omega (arith, h.cmd_fits)),
        (
          IsLine-append _ _ inputs (csv-IsTail e.inputs h.inputs) (omega (arith, h.inputs.fits)),
          (
            IsLine-append _ _ outputs (csv-IsTail e.outputs h.outputs)
                (omega (arith, h.outputs.fits)),
            (
              IsLine-append _ _ deps (csv-IsTail e.deps h.deps) (omega (arith, h.deps.fits)),
              (close, tt),
            ),
          ),
        ),
      ),
    )

all_lines-IsLine : (es : List Entry) → All IsPlain es → All IsLine (all_lines es)
all_lines-IsLine [] h = tt
all_lines-IsLine (e ∷ es) h =
    All-append IsLine (lines_of e) (all_lines es) (lines_of-IsLine e h.0) (all_lines-IsLine es h.1)

parse_lines_step :
    (p q : Parse) (l : Text) (ls : List Text)
    → IsLine l
    → trimmed_line p l ≡ q
    → parse_lines p (l ∷ ls) ≡ parse_lines q ls
unfolding parse_lines
parse_lines_step p q l ls h e = ap (λ r. parse_lines r ls) (parse_line-IsLine p l h ∙ e)

-- The lines of an entry add its task to the list.
parse_lines-lines_of :
    (e : Entry) (list : List Task) (rest : List Text)
    → IsPlain e
    → parse_lines (record { cur = none; list = list }) (lines_of e ++ rest)
      ≡ parse_lines (record { cur = none; list = list ++ task_of e ∷ [] }) rest
parse_lines-lines_of e list rest h =
    let (l1, (l2, (l3, (l4, (l5, (l6, _)))))) = lines_of-IsLine e h in
    parse_lines_step _ _ _ _ l1 (task_line list e.name h.name)
    ∙ parse_lines_step _ _ _ _ l2 (cmd_line _ list e.cmd h.cmd_start)
    ∙ parse_lines_step _ _ _ _ l3 (inputs_line _ list e.inputs h.inputs)
    ∙ parse_lines_step _ _ _ _ l4 (outputs_line _ list e.outputs h.outputs)
    ∙ parse_lines_step _ _ _ _ l5 (deps_line _ list e.deps h.deps)
    ∙ parse_lines_step _ _ _ _ l6 (close_line _ list)

parse_lines-all_lines :
    (es : List Entry) (list : List Task)
    → All IsPlain es
    → finish (parse_lines (record { cur = none; list = list }) (all_lines es))
      ≡ list ++ map task_of es
parse_lines-all_lines [] list h = unfold parse_lines finish in sym (append-nil list)
parse_lines-all_lines (e ∷ es) list h =
    ap finish (parse_lines-lines_of e list (all_lines es) h.0)
    ∙ parse_lines-all_lines es (list ++ task_of e ∷ []) h.1
    ∙ append_assoc list (task_of e ∷ []) (map task_of es)

-- For entries whose names, commands and lists hold no separators and fit their lines: parsing the
-- text of the manifest gives exactly the tasks of the entries, in order.
pub parse_manifest-render :
    (es : List Entry) → All IsPlain es → parse_manifest (render es) ≡ map task_of es
unfolding parse_manifest
parse_manifest-render es h =
    let good = all_lines-IsLine es h in
    rw (c_str-eq (render es) (no_zero-unlines (all_lines es) good))
      (rw (keep_pieces-unlines (all_lines es) good) (parse_lines-all_lines es [] h))
