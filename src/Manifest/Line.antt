-- ===== src/Manifest/Line.antt =====
-- Single lines of a manifest: what survives `strncpy` and `trim`, and what each kind of line does.
use repro_vm_virtual_machine.Prelude.{
  ◌+◌, ◌≤◌, ◌==◌, ◌++◌, ◌∷◌, [], List, false, ◌||◌, none, some, refl, ◌≡◌, ◌∙◌, arith, length, Text,
  mem, All, append-nil, mem-append, ap, length-append, take-eq,
}
use repro_vm_virtual_machine.Util.{is_empty, trim, comma, join_strings, split_csv_array}
use repro_vm_virtual_machine.Util.Trim.{StartsClean, EndsClean, trim-eq}
use repro_vm_virtual_machine.Util.Csv.{IsToken, split_csv_array-join_strings}
use repro_vm_virtual_machine.Manifest.{
  Parse, parse_line, trimmed_line, new_task, name_part, skip_spaces, codes, is_space,
}
use repro_vm_virtual_machine.Task.{Task}

-- A line that the parser sees as it stands.
pub record IsLine (l : Text) : Type 0 where
  pub filled : is_empty l ≡ false
  pub one_line : mem 10 l ≡ false
  pub no_zero : mem 0 l ≡ false
  pub fits : length l ≤ 4095
  pub starts : StartsClean l
  pub ends : EndsClean l

-- What may stand at the end of such a line.
pub record IsTail (x : Text) : Type 0 where
  pub one_line : mem 10 x ≡ false
  pub no_zero : mem 0 x ≡ false
  pub ends : EndsClean x

EndsClean-append : (s t : Text) → is_empty t ≡ false → EndsClean t → EndsClean (s ++ t)
EndsClean-append [] t h k = k
EndsClean-append (c ∷ []) [] h k = cc
EndsClean-append (c ∷ []) (d ∷ t) h k = k
EndsClean-append (c ∷ d ∷ s) t h k = EndsClean-append (d ∷ s) t h k

StartsClean-append : (s t : Text) → is_empty s ≡ false → StartsClean s → StartsClean (s ++ t)
StartsClean-append [] t h k = cc
StartsClean-append (c ∷ s) t h k = k

is_empty-append : (s t : Text) → is_empty s ≡ false → is_empty (s ++ t) ≡ false
is_empty-append [] t h = cc
is_empty-append (c ∷ s) t h = refl

ends_with : (pre x : Text) → EndsClean pre → EndsClean x → EndsClean (pre ++ x)
ends_with pre [] h k = rw (append-nil pre) h
ends_with pre (c ∷ x) h k = EndsClean-append pre (c ∷ x) refl k

pub IsLine-append :
    (pre x : Text) → IsLine pre → IsTail x → length pre + length x ≤ 4095 → IsLine (pre ++ x)
IsLine-append pre x p t h = record {
  filled = is_empty-append pre x p.filled;
  one_line = rw (mem-append 10 pre x, p.one_line) t.one_line;
  no_zero = rw (mem-append 0 pre x, p.no_zero) t.no_zero;
  fits = omega (arith, length-append pre x);
  starts = StartsClean-append pre x p.filled p.starts;
  ends = ends_with pre x p.ends t.ends;
}

pub parse_line-IsLine : (p : Parse) (l : Text) → IsLine l → parse_line p l ≡ trimmed_line p l
unfolding parse_line
parse_line-IsLine p l h =
    ap (trimmed_line p) (ap trim (take-eq 4095 l h.fits) ∙ trim-eq l h.starts h.ends)

-- The value of a list field, as text.
abbrev pub csv : List Text → Text
csv v = join_strings v (comma ∷ [])

pub record IsField (v : List Text) : Type 0 where
  pub tokens : All IsToken v
  pub one_line : mem 10 (csv v) ≡ false
  pub no_zero : mem 0 (csv v) ≡ false
  pub fits : length (csv v) ≤ 4000

csv_clean :
    (p : Text) (ps : List Text)
    → All IsToken (p ∷ ps)
    → (is_empty (csv (p ∷ ps)) ≡ false) × StartsClean (csv (p ∷ ps)) × EndsClean (csv (p ∷ ps))
unfolding join_strings
csv_clean p [] h = (h.0.0, h.0.1, h.0.2)
csv_clean p (q ∷ ps) h =
    let (filled, _, ends) = csv_clean q ps h.1 in
    (
      is_empty-append p _ h.0.0,
      StartsClean-append p _ h.0.0 h.0.1,
      EndsClean-append p _ refl (EndsClean-append (comma ∷ []) _ filled ends),
    )

csv-clean : (v : List Text) → All IsToken v → StartsClean (csv v) × EndsClean (csv v)
csv-clean [] h = unfold join_strings in (tt, tt)
csv-clean (p ∷ ps) h = let (_, a, b) = csv_clean p ps h in (a, b)

pub csv-IsTail : (v : List Text) → IsField v → IsTail (csv v)
csv-IsTail v h = record {
  one_line = h.one_line;
  no_zero = h.no_zero;
  ends = (csv-clean v h.tokens).1;
}

-- The field lines read back what was written.
pub csv_read : (v : List Text) → IsField v → split_csv_array (trim (csv v)) ≡ v
csv_read v h =
    let (starts, ends) = csv-clean v h.tokens in
    ap split_csv_array (trim-eq (csv v) starts ends) ∙ split_csv_array-join_strings v h.tokens

module _ (t : Task) (list : List Task) where
  pub cmd_line :
      (c : Text)
      → skip_spaces c ≡ c
      → trimmed_line (record { cur = some t; list = list }) (codes "cmd=" ++ c)
        ≡ record { cur = some (record t { cmd = some c }); list = list }
  unfolding trimmed_line
  cmd_line c h = rw h refl

  pub inputs_line :
      (v : List Text)
      → IsField v
      → trimmed_line (record { cur = some t; list = list }) (codes "inputs=" ++ csv v)
        ≡ record { cur = some (record t { inputs = v }); list = list }
  unfolding trimmed_line
  inputs_line v h = rw (csv_read v h) refl

  pub outputs_line :
      (v : List Text)
      → IsField v
      → trimmed_line (record { cur = some t; list = list }) (codes "outputs=" ++ csv v)
        ≡ record { cur = some (record t { outputs = v }); list = list }
  unfolding trimmed_line
  outputs_line v h = rw (csv_read v h) refl

  pub deps_line :
      (v : List Text)
      → IsField v
      → trimmed_line (record { cur = some t; list = list }) (codes "deps=" ++ csv v)
        ≡ record { cur = some (record t { deps = v }); list = list }
  unfolding trimmed_line
  deps_line v h = rw (csv_read v h) refl

  pub close_line :
      trimmed_line (record { cur = some t; list = list }) (codes "}")
      ≡ record { cur = none; list = list ++ t ∷ [] }
  unfolding trimmed_line
  close_line = refl

-- No byte that ends a task name.
abbrev pub IsName : Text → Type 0
IsName n = All (λ c. (is_space c || c == b'{') ≡ false) n

name_part-append : (n : Text) → IsName n → name_part (n ++ codes " {") ≡ n
name_part-append [] h = refl
name_part-append (c ∷ n) h = rw (h.0, name_part-append n h.1) refl

skip_name : (n : Text) → IsName n → name_part (skip_spaces (n ++ codes " {")) ≡ n
skip_name [] h = refl
skip_name (c ∷ n) h =
    let kept : is_space c ≡ false = ground arith in rw kept (name_part-append (c ∷ n) h)

pub task_line :
    (list : List Task) (n : Text)
    → IsName n
    → trimmed_line (record { cur = none; list = list }) (codes "task " ++ (n ++ codes " {"))
      ≡ record { cur = some (new_task n); list = list }
unfolding trimmed_line
task_line list n h = rw (skip_name n h) refl
