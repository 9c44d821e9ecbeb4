-- ===== src/Config/Lines.antt =====
-- Single lines of a configuration file: how `config_load_from_file` reads an entry that it is given.
use repro_vm_virtual_machine.Prelude.{
  IsShown, mem-IsShown, eq_of_str_eq, not, leb, str_eq, append_assoc, mem-append, c_str-eq, take-eq,
  ltb, ℕ, ◌-◌, ◌≤◌, ◌==◌, ◌++◌, ◌∷◌, [], List, true, false, Bool, ◌&&◌, some, refl, ◌≡◌, ◌∙◌, arith,
  length, Text, mem, All, append-nil, map, ap,
}
use repro_vm_virtual_machine.Config.{
  until, fgets_lines, config_line, scan_line, is_empty, until, after, ReproVmConfig, is_skipped,
  apply_key, skip_blanks, cut_blanks, c_str, is_tab_or_space, kept_end,
}
use repro_vm_virtual_machine.Config.Save.{printed, entry}

-- A line that `fgets` takes in one piece.
abbrev pub IsShort : Text → Type 0
IsShort l = (mem 10 l ≡ false) × (length l ≤ 1022)

fgets_lines-line :
    (room : ℕ) (cur l rest : Text)
    → mem 10 l ≡ false
    → length l ≤ room
    → fgets_lines room cur (l ++ 10 ∷ rest) ≡ ((cur ++ l) ++ 10 ∷ []) ∷ fgets_lines 1022 [] rest
unfolding fgets_lines
fgets_lines-line room cur [] rest h k = rw (append-nil cur) refl
fgets_lines-line room cur (b ∷ l) rest h k =
    let other : (b == 10) ≡ false = ground arith in
    let room_left : (room == 0) ≡ false = ground arith in
    rw (other, room_left)
      (fgets_lines-line (room - 1) (cur ++ b ∷ []) l rest (ground arith) (omega arith)
        ∙ ap (λ t. (t ++ 10 ∷ []) ∷ fgets_lines 1022 [] rest) (append_assoc cur (b ∷ []) l))

pub fgets_lines-printed :
    (ls : List Text)
    → All IsShort ls
    → fgets_lines 1022 [] (printed ls) ≡ map (λ l. l ++ 10 ∷ []) ls
unfolding fgets_lines
fgets_lines-printed [] h = refl
fgets_lines-printed (l ∷ ls) h =
    fgets_lines-line 1022 [] l (printed ls) h.0.0 h.0.1
    ∙ ap (λ t. (l ++ 10 ∷ []) ∷ t) (fgets_lines-printed ls h.1)

-- A key that is read back.
pub record IsKey (key : Text) : Type 0 where
  pub filled : is_empty key ≡ false
  pub no_sign : mem b'=' key ≡ false
  pub one_line : mem 10 key ≡ false
  pub no_zero : mem 0 key ≡ false
  pub not_skipped : (x : Text) → is_skipped (skip_blanks (key ++ x)) ≡ false
  pub trimmed : cut_blanks (skip_blanks key) ≡ key
  pub fits : length key ≤ 255

pub record IsValue (v : Text) : Type 0 where
  pub filled : is_empty v ≡ false
  pub one_line : mem 10 v ≡ false
  pub no_zero : mem 0 v ≡ false
  pub fits : length v ≤ 511

-- A check of keys that are written out.
abbrev pub is_key : Text → Bool
is_key [] = false
is_key (c ∷ s) =
    not (is_tab_or_space c)
    && (not (is_skipped (c ∷ s))
        && (not (mem b'=' (c ∷ s))
            && (not (mem 10 (c ∷ s))
                && (not (mem 0 (c ∷ s))
                    && (str_eq (cut_blanks (skip_blanks (c ∷ s))) (c ∷ s)
                        && leb (length (c ∷ s)) 255)))))

pub is_key-IsKey : (key : Text) → is_key key ≡ true → IsKey key
is_key-IsKey [] h = absurd cc
is_key-IsKey (c ∷ s) h =
    let blank : is_tab_or_space c ≡ false = ground arith in
    let shown : is_skipped (c ∷ s) ≡ false = ground arith in
    record {
      filled = refl;
      no_sign = ground arith;
      one_line = ground arith;
      no_zero = ground arith;
      not_skipped = λ x. rw blank shown;
      trimmed = eq_of_str_eq (cut_blanks (skip_blanks (c ∷ s))) (c ∷ s) (ground arith);
      fits = ground arith;
    }

cut_blanks-IsShown : (s : Text) → IsShown s → cut_blanks s ≡ s
cut_blanks-IsShown [] h = refl
cut_blanks-IsShown (c ∷ []) h = let shown = h.0 in ground arith
cut_blanks-IsShown (c ∷ d ∷ s) h = ap (kept_end c) (cut_blanks-IsShown (d ∷ s) h.1)

skip_blanks-IsShown : (s : Text) → IsShown s → skip_blanks s ≡ s
skip_blanks-IsShown [] h = refl
skip_blanks-IsShown (c ∷ s) h = let shown = h.0 in ground arith

-- What stands in a value, and is trimmed to nothing less.
pub record IsPlain (v : Text) : Type 0 where
  pub value : IsValue v
  pub trimmed : cut_blanks (skip_blanks v) ≡ v

pub IsShown-IsPlain : (v : Text) → is_empty v ≡ false → length v ≤ 511 → IsShown v → IsPlain v
IsShown-IsPlain v filled fits h = record {
  value = record {
    filled = filled;
    one_line = mem-IsShown 10 v (omega arith) h;
    no_zero = mem-IsShown 0 v (omega arith) h;
    fits = fits;
  };
  trimmed = ap cut_blanks (skip_blanks-IsShown v h) ∙ cut_blanks-IsShown v h;
}

until-append : (b : ℕ) (s rest : Text) → mem b s ≡ false → until b (s ++ b ∷ rest) ≡ s
until-append b [] rest h = ground arith
until-append b (c ∷ s) rest h =
    let other : (c == b) ≡ false = ground arith in
    rw other (ap (λ t. c ∷ t) (until-append b s rest (ground arith)))

after-append : (b : ℕ) (s rest : Text) → mem b s ≡ false → after b (s ++ b ∷ rest) ≡ some rest
after-append b [] rest h = ground arith
after-append b (c ∷ s) rest h =
    let other : (c == b) ≡ false = ground arith in rw other (after-append b s rest (ground arith))

module _ (key v : Text) (k : IsKey key) (w : IsValue v) where
  abbrev line : Text
  line = key ++ b'=' ∷ (v ++ 10 ∷ [])

  scan_line-entry : scan_line line ≡ some (key, v)
  unfolding scan_line
  scan_line-entry =
      let fits = k.fits in
      let long : ltb 255 (length key) ≡ false = ground arith in
      rw
        (
          scan_line,
          after-append b'=' key (v ++ 10 ∷ []) k.no_sign,
          until-append b'=' key (v ++ 10 ∷ []) k.no_sign,
          until-append 10 v [] w.one_line,
          take-eq 511 v w.fits,
          k.filled,
          long,
          w.filled,
        )
        refl

  line-c_str : c_str line ≡ line
  line-c_str = c_str-eq line (
      rw (mem-append 0 key (b'=' ∷ (v ++ 10 ∷ [])), k.no_zero, mem-append 0 v (10 ∷ []), w.no_zero)
        refl)

  pub config_line-entry :
      (c : ReproVmConfig)
      → config_line c (entry key v ++ 10 ∷ []) ≡ apply_key key (cut_blanks (skip_blanks v)) c
  unfolding config_line
  config_line-entry c =
      ap (config_line c) (append_assoc key (b'=' ∷ v) (10 ∷ []))
      ∙ rw (line-c_str, k.not_skipped (b'=' ∷ (v ++ 10 ∷ [])), scan_line-entry)
          (ap (λ t. apply_key t (cut_blanks (skip_blanks v)) c) k.trimmed)
