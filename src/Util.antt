-- ===== src/Util.antt =====
-- util.c: the string helpers and `ensure_dir_recursive`.
-- A `char *` is the list of its bytes; an array of strings is a list. `malloc` does not fail.
pub mod Trim
pub mod Csv
pub mod Hex
pub mod Dirs
use repro_vm_virtual_machine.Prelude.{
  ℕ, zero, suc, ◌+◌, ◌-◌, ◌/◌, ◌%◌, ◌==◌, ltb, if◌then◌else◌, Bool, true, false, ◌||◌, Option, none,
  some, List, [], ◌∷◌, ◌++◌, map, Text, take,
}

abbrev pub comma : ℕ
comma = b','

abbrev pub slash : ℕ
slash = b'/'

-- The four bytes that `trim` removes.
unfoldable pub is_blank : ℕ → Bool
is_blank c = c == 32 || c == 9 || c == 13 || c == 10

-- The first loop of `trim`: skip blanks from the front.
unfoldable pub trim_start : Text → Text
trim_start [] = []
trim_start (c ∷ s) = let rest = trim_start s in if is_blank c then rest else c ∷ s

-- A blank with nothing kept behind it goes.
abbrev pub cons_kept : ℕ → Text → Text
cons_kept c [] = if is_blank c then [] else c ∷ []
cons_kept c (d ∷ s) = c ∷ d ∷ s

-- The second loop of `trim`: drop blanks from the end.
unfoldable pub trim_end : Text → Text
trim_end [] = []
trim_end (c ∷ s) = cons_kept c (trim_end s)

unfoldable pub trim : Text → Text
trim s = trim_end (trim_start s)

abbrev pub cons_head : ℕ → List Text → List Text
cons_head c [] = (c ∷ []) ∷ []
cons_head c (p ∷ ps) = (c ∷ p) ∷ ps

-- The stretches of a string between the separators: what `strchr` and `strtok_r` cut out in turn.
unfoldable pub pieces : ℕ → Text → List Text
pieces sep [] = [] ∷ []
pieces sep (c ∷ s) = if c == sep then [] ∷ pieces sep s else cons_head c (pieces sep s)

abbrev pub is_empty : Text → Bool
is_empty [] = true
is_empty (_ ∷ _) = false

unfoldable pub keep_nonempty : List Text → List Text
keep_nonempty [] = []
keep_nonempty (p ∷ ps) = if is_empty p then keep_nonempty ps else p ∷ keep_nonempty ps

-- The tokens between the commas, trimmed, without the empty ones.
unfoldable pub split_csv_array : Text → List Text
unfolding pieces keep_nonempty trim trim_start trim_end is_blank
split_csv_array line = keep_nonempty (map trim (pieces comma line))

-- The loop of `join_strings`: a separator behind every part but the last.
unfoldable pub join_strings : List Text → Text → Text
join_strings [] sep = []
join_strings (p ∷ []) sep = p
join_strings (p ∷ q ∷ ps) sep = p ++ (sep ++ join_strings (q ∷ ps) sep)

-- `hex[n]` for `static const char hex[] = "0123456789abcdef"`
unfoldable pub hex_digit : ℕ → ℕ
hex_digit n = if ltb n 10 then b'0' + n else b'a' + (n - 10)

unfoldable pub hex_encode : List ℕ → Text
hex_encode [] = []
hex_encode (b ∷ bs) = hex_digit (b / 16 % 16) ∷ hex_digit (b % 16) ∷ hex_encode bs

-- `if (tmp[len - 1] == '/') tmp[len - 1] = '\0';`
unfoldable pub drop_last_slash : Text → Text
drop_last_slash [] = []
drop_last_slash (c ∷ []) = if c == slash then [] else c ∷ []
drop_last_slash (c ∷ d ∷ s) = c ∷ drop_last_slash (d ∷ s)

-- The paths at which the loop of `ensure_dir_recursive` calls `mkdir`: `before` is what stands in
-- front of the cursor.
unfoldable pub parents : Text → Text → List Text
parents before [] = []
parents before (c ∷ s) =
    let rest = parents (before ++ c ∷ []) s in if c == slash then before ∷ rest else rest

-- All calls in order: the cursor starts at tmp + 1, and the path itself comes last.
unfoldable pub dirs_of : Text → List Text
unfolding parents
dirs_of [] = [] ∷ []
dirs_of (c ∷ s) = parents (c ∷ []) s ++ (c ∷ s) ∷ []

-- What `mkdir(path, 0755)` answers: 0, or -1 with EEXIST, or -1 with another errno.
pub data Mkdir : Type 0 where
  created exists failed : Mkdir

abbrev pub mkdir_ok : Mkdir → Bool
mkdir_ok failed = false
mkdir_ok _ = true

-- The world of directories, which the operating system keeps.
module _ {D : Type 0} (mkdir : Text → D → D × Mkdir) where
  unfoldable pub make_all : List Text → D → D × Bool
  make_all [] d = (d, true)
  make_all (p ∷ ps) d =
      let (d', r) = mkdir p d in
      let rest = make_all ps d' in if mkdir_ok r then rest else (d', false)

  -- `true` is the return value 0. The buffer holds 4095 bytes.
  unfoldable pub ensure_dir_recursive : Text → D → D × Bool
  unfolding make_all dirs_of drop_last_slash
  ensure_dir_recursive path d =
      let tmp = take 4095 path in
      if is_empty tmp then (d, false) else make_all (dirs_of (drop_last_slash tmp)) d
