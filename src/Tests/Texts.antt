-- ===== src/Tests/Texts.antt =====
-- util.c, the manifest parser and SHA-256.
use repro_vm_virtual_machine.Manifest.Line.{IsField}
use repro_vm_virtual_machine.Sha.Fips.{fips_sha256}
use repro_vm_virtual_machine.Sha.Standard.{sha256-fips_sha256}
use repro_vm_virtual_machine.Manifest.{parse_manifest}
use repro_vm_virtual_machine.Manifest.RoundTrip.{
  Entry, IsPlain, render, task_of, parse_manifest-render,
}
use repro_vm_virtual_machine.Util.Hex.{IsHexDigit, hex_encode_digits}
use repro_vm_virtual_machine.Util.Csv.{IsToken, split_csv_array-join_strings}
use repro_vm_virtual_machine.Sha.{sha256, sha256_transform}
use repro_vm_virtual_machine.Util.{split_csv_array, hex_encode, hex_digit, join_strings, is_blank}
use repro_vm_virtual_machine.Prelude.{codes, ◌∷◌, [], refl, ◌≡◌, arith, length, All}

csv_line : split_csv_array (codes " a ,, b") ≡ codes "a" ∷ codes "b" ∷ []
unfolding split_csv_array
csv_line = refl

abc :
    hex_encode (sha256 (codes "abc"))
    ≡ codes "ba7816bf8f01cfea414140de5dae2223b00361a396177a9cb410ff61f20015ad"
unfolding sha256 hex_encode hex_digit sha256_transform
abc = refl

two_tokens : All IsToken (codes "a" ∷ codes "b" ∷ [])
unfolding is_blank
two_tokens = ((refl, refl, refl, refl), ((refl, refl, refl, refl), tt))

split_csv_array-join_strings_example :
    split_csv_array (join_strings (codes "a" ∷ codes "b" ∷ []) (codes ","))
    ≡ codes "a" ∷ codes "b" ∷ []
split_csv_array-join_strings_example =
    split_csv_array-join_strings (codes "a" ∷ codes "b" ∷ []) two_tokens

hex_encode_digits_example :
    (length (hex_encode (10 ∷ 255 ∷ [])) ≡ 4) × All IsHexDigit (hex_encode (10 ∷ 255 ∷ []))
hex_encode_digits_example = hex_encode_digits (10 ∷ 255 ∷ [])

sha256-fips_sha256_example : sha256 (codes "abc") ≡ fips_sha256 (codes "abc")
sha256-fips_sha256_example = sha256-fips_sha256 (codes "abc")

abbrev entry : Entry
entry = record {
  name = codes "b";
  cmd = codes "cc -c";
  inputs = codes "x" ∷ codes "y" ∷ [];
  outputs = [];
  deps = codes "a" ∷ [];
}

IsField-xy : IsField (codes "x" ∷ codes "y" ∷ [])
unfolding is_blank join_strings
IsField-xy = record {
  tokens = ((refl, refl, refl, refl), ((refl, refl, refl, refl), tt));
  one_line = refl;
  no_zero = refl;
  fits = omega arith;
}

IsField-a : IsField (codes "a" ∷ [])
unfolding is_blank join_strings
IsField-a = record {
  tokens = ((refl, refl, refl, refl), tt);
  one_line = refl;
  no_zero = refl;
  fits = omega arith;
}

IsField-nil : IsField []
unfolding join_strings
IsField-nil = record { tokens = tt; one_line = refl; no_zero = refl; fits = omega arith }

IsPlain-entry : IsPlain entry
unfolding is_blank
IsPlain-entry = record {
  name = (refl, tt);
  name_zero = refl;
  name_fits = omega arith;
  cmd_start = refl;
  cmd_tail = record { one_line = refl; no_zero = refl; ends = refl };
  cmd_fits = omega arith;
  inputs = IsField-xy;
  outputs = IsField-nil;
  deps = IsField-a;
}

parse_manifest-render_example : parse_manifest (render (entry ∷ [])) ≡ task_of entry ∷ []
parse_manifest-render_example = parse_manifest-render (entry ∷ []) (IsPlain-entry, tt)
