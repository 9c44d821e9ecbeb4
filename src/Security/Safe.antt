-- ===== src/Security/Safe.antt =====
-- What the checks of security.c let through.
use repro_vm_virtual_machine.Sha.{sha256}
use repro_vm_virtual_machine.Manifest.{trimmed_line, new_task}
use repro_vm_virtual_machine.Manifest.Line.{IsName, task_line}
use repro_vm_virtual_machine.Cas.Sound.{hash_of, length-hash_of}
use repro_vm_virtual_machine.Task.{Task}
use repro_vm_virtual_machine.Util.Hex.{IsHexDigit, hex_encode_digits}
use repro_vm_virtual_machine.Security.{
  is_path_safe, validate_hash, all_chars, validate_task_name, is_within_directory,
  validate_file_path, is_xdigit, verify_file_checksum, is_name_char,
}
use repro_vm_virtual_machine.Util.{pieces, slash, cons_head}
use repro_vm_virtual_machine.Prelude.{
  contains, starts_with, codes, ℕ, ◌==◌, ◌++◌, ◌∷◌, [], List, true, false, none, some, Option, refl,
  ◌≡◌, arith, inl, inr, Bool-cases, Option-cases, Text, All,
}

abbrev dots : Text
dots = codes ".."

-- The first piece of a text stands at its front.
abbrev First : Text → List Text → Type 0
First s [] = ⊥
First s (p ∷ ps) =
    (starts_with dots p ≡ true → starts_with dots s ≡ true)
    × ((c : ℕ) → starts_with dots (c ∷ p) ≡ true → starts_with dots (c ∷ s) ≡ true)

pieces-First : (s : Text) → First s (pieces slash s)
unfolding pieces
pieces-First [] = (λ h. h, λ c h. h)
pieces-First (c ∷ s) = elim (Bool-cases (c == slash)) [
  | inl e ↦ rw e (λ h. cc, λ d h. ground arith)
  | inr e ↦ rw e (cons_first c s (pieces slash s) (pieces-First s))
]
  where
    cons_first : (c : ℕ) (s : Text) (ps : List Text) → First s ps → First (c ∷ s) (cons_head c ps)
    cons_first c s [] h = absurd h
    cons_first c s (p ∷ ps) h = (h.1 c, λ d k. ground arith)

cons_no_dots :
    (c : ℕ) (s : Text) (ps : List Text)
    → First s ps
    → starts_with dots (c ∷ s) ≡ false
    → All (λ p. contains dots p ≡ false) ps
    → All (λ p. contains dots p ≡ false) (cons_head c ps)
cons_no_dots c s [] f h all = absurd f
cons_no_dots c s (p ∷ ps) f h all = elim (Bool-cases (starts_with dots (c ∷ p))) [
  | inl e ↦ cc (f.1 c e, h)
  | inr e ↦ (rw e all.0, all.1)
]

pieces_no_dots :
    (s : Text) → contains dots s ≡ false → All (λ p. contains dots p ≡ false) (pieces slash s)
unfolding pieces
pieces_no_dots [] h = (h, tt)
pieces_no_dots (c ∷ s) h =
    let front : starts_with dots (c ∷ s) ≡ false = ground arith in
    let rest : contains dots s ≡ false = ground arith in
    elim (Bool-cases (c == slash)) [
      | inl e ↦ rw e (refl, pieces_no_dots s rest)
      | inr e ↦
          rw e (cons_no_dots c s (pieces slash s) (pieces-First s) front (pieces_no_dots s rest))
    ]

-- No component of a path that `is_path_safe` accepts contains two dots in a row.
pub is_path_safe_no_dots :
    (path : Text)
    → is_path_safe path ≡ true
    → All (λ p. contains (codes "..") p ≡ false) (pieces slash path)
unfolding is_path_safe
is_path_safe_no_dots path h = elim (Option-cases (validate_file_path path)) [
  | inl e ↦ pieces_no_dots path (let k = rw (e, is_path_safe) at h in ground arith)
  | inr (err, e) ↦ cc (rw (e, is_path_safe) at h)
]

xdigits : (h : Text) → All IsHexDigit h → all_chars is_xdigit h ≡ true
xdigits [] all = refl
xdigits (c ∷ h) all = let d : is_xdigit c ≡ true = ground (arith, all.0) in rw d (xdigits h all.1)

-- Every hash that the store names an object by passes `validate_hash`, and so does its checksum
-- verification, for any data.
pub validate_hash-hash_of :
    (blob : List ℕ)
    → (validate_hash (hash_of blob) ≡ none) × (verify_file_checksum (hash_of blob) ≡ none)
unfolding validate_hash verify_file_checksum
validate_hash-hash_of blob =
    let (_, digits) = hex_encode_digits (sha256 blob) in
    let long = length-hash_of blob in rw (xdigits (hash_of blob) digits) (rw long (refl, refl))

IsName-of_chars : (n : Text) → all_chars is_name_char n ≡ true → IsName n
IsName-of_chars [] h = tt
IsName-of_chars (c ∷ n) h = (ground arith, IsName-of_chars n (ground arith))

-- A task name that `validate_task_name` accepts is read back from the line that opens the task.
pub validate_task_name-trimmed_line :
    (list : List Task) (n : Text)
    → validate_task_name n ≡ none
    → trimmed_line (record { cur = none; list = list }) (codes "task " ++ (n ++ codes " {"))
      ≡ record { cur = some (new_task n); list = list }
unfolding validate_task_name
validate_task_name-trimmed_line list n h = task_line list n (IsName-of_chars n (ground arith))

-- `is_within_directory` compares characters, not components: a path whose resolved form only begins
-- with the resolved base, such as a sibling with a longer name, counts as inside.
pub is_within_directory_sibling :
    (realpath : Text → Option Text) (path base_dir base suffix : Text)
    → realpath base_dir ≡ some base
    → realpath path ≡ some (base ++ suffix)
    → is_within_directory realpath path base_dir ≡ true
unfolding is_within_directory
is_within_directory_sibling realpath path base_dir base suffix hb hp =
    rw (hp, is_within_directory) (rw (hb, is_within_directory) (starts base))
  where
    starts : (b : Text) → starts_with b (b ++ suffix) ≡ true
    starts [] = refl
    starts (c ∷ b) = ground (arith, starts b)
