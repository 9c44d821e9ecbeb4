-- ===== src/Prelude/Strings.antt =====
-- Byte strings of C: literals, prefixes, `strchr` and character classes.
use Prim.Native.Nat.{ℕ, ◌≤◌, ◌<◌}
use Prim.Native.Char.{code}
use Prim.Native.String.{String}
use mathlib.Core.Path.{◌≡◌, refl}
use mathlib.Core.Bool.{Bool, true, false, ◌&&◌, ◌||◌}
use mathlib.Core.Option.{Option, none, some}
use mathlib.Core.List.{List, [], ◌∷◌}
use native.Mathlib.Omega.{arith}
use repro_vm_virtual_machine.Prelude.Tests.{leb, ◌==◌, if◌then◌else◌, Text}
use repro_vm_virtual_machine.Prelude.Counting.{mem}
use repro_vm_virtual_machine.Prelude.Lists.{All}

-- The bytes of a literal.
abbrev pub codes : String → List ℕ
codes String.[] = []
codes (String.◌∷◌ c s) = code c ∷ codes s

-- `strncmp(s, p, strlen(p)) == 0`, and `strstr(s, p) == s`
abbrev pub starts_with : Text → Text → Bool
starts_with [] s = true
starts_with (a ∷ p) [] = false
starts_with (a ∷ p) (b ∷ s) = a == b && starts_with p s

-- `strchr(s, b) + 1`
abbrev pub after : ℕ → Text → Option Text
after b [] = none
after b (c ∷ s) = let rest = after b s in if c == b then some s else rest

-- `isspace` in the C locale
abbrev pub is_space : ℕ → Bool
is_space c = c == 32 || (leb 9 c && leb c 13)

-- `while (*p && isspace(*p)) p++;`
abbrev pub skip_spaces : Text → Text
skip_spaces [] = []
skip_spaces (c ∷ s) = let rest = skip_spaces s in if is_space c then rest else c ∷ s

-- `strstr(s, p) != NULL`
abbrev pub contains : Text → Text → Bool
contains p [] = starts_with p []
contains p (c ∷ s) = starts_with p (c ∷ s) || contains p s

-- What C functions see of a buffer: the bytes up to the first zero.
abbrev pub c_str : List ℕ → Text
c_str [] = []
c_str (b ∷ bs) = let rest = c_str bs in if b == 0 then [] else b ∷ rest

pub c_str-eq : (s : Text) → mem 0 s ≡ false → c_str s ≡ s
c_str-eq [] h = refl
c_str-eq (b ∷ s) h = ground (arith, c_str-eq s)

-- Bytes that are neither blanks nor control characters.
abbrev pub IsShown : Text → Type 0
IsShown s = All (λ c. 33 ≤ c) s

pub mem-IsShown : (b : ℕ) (s : Text) → b < 33 → IsShown s → mem b s ≡ false
mem-IsShown b [] h k = refl
mem-IsShown b (c ∷ s) h k =
    let shown = k.0 in
    let other : (c == b) ≡ false = ground arith in rw other (mem-IsShown b s h k.1)
