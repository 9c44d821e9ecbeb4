-- ===== src/Exec/Record.antt =====
-- The record of a task: what `try_load_task_record` reads of the lines that `write_task_record` wrote.
use repro_vm_virtual_machine.Prelude.{
  IsShown, mem-IsShown, codes, c_str, c_str-eq, take-eq, mem-append, append_assoc, starts_with, ℕ,
  ◌≤◌, ◌==◌, ◌++◌, ◌∷◌, [], List, false, none, some, refl, ◌≡◌, ◌∙◌, sym, arith, inl, inr, ◌⊎◌,
  Bool-cases, Option-cases, List-cases, length, Text, mem, All, is_space, ap,
}
use repro_vm_virtual_machine.Util.{trim, trim_start, trim_end, is_blank, pieces}
use repro_vm_virtual_machine.Util.Csv.{pieces_cut}
use repro_vm_virtual_machine.Util.Trim.{EndsClean, trim-eq}
use repro_vm_virtual_machine.Util.Hex.{IsHexDigit, hex_encode_digits}
use repro_vm_virtual_machine.Sha.{sha256}
use repro_vm_virtual_machine.Cas.{
  Os, Disk, cas_store_blob_from_file, make_object_path, file_exists, copy_file,
}
use repro_vm_virtual_machine.Cas.Sound.{hash_of}
use repro_vm_virtual_machine.Exec.{Meta, meta_line, meta_lines, output_lines, meta_head}

hex-IsShown : (s : Text) → All IsHexDigit s → IsShown s
hex-IsShown [] h = tt
hex-IsShown (c ∷ s) h = (omega (arith, h.0), hex-IsShown s h.1)

pub hash_of-IsShown : (blob : List ℕ) → IsShown (hash_of blob)
hash_of-IsShown blob = hex-IsShown (hash_of blob) (hex_encode_digits (sha256 blob)).1

EndsClean-IsShown : (s : Text) → IsShown s → EndsClean s
unfolding is_blank
EndsClean-IsShown [] h = tt
EndsClean-IsShown (c ∷ []) h = let shown = h.0 in ground arith
EndsClean-IsShown (c ∷ d ∷ s) h = EndsClean-IsShown (d ∷ s) h.1

-- `trim` keeps a first byte that is not blank.
trim_first : (c : ℕ) (s : Text) → is_blank c ≡ false → (rest : Text) × (trim (c ∷ s) ≡ c ∷ rest)
unfolding trim trim_start trim_end
trim_first c s h = elim (List-cases (trim_end s)) [
  | inl e ↦ ([], rw (h, e) (rw h refl))
  | inr (d, rest, e) ↦ (d ∷ rest, rw (h, e) refl)
]

module _ (os : Os) (objects_root cache_root : Text) where
  stored_cases :
      (o : Text) (content : List ℕ) (d : Disk)
      → d.files o ≡ some content
      → ((cas_store_blob_from_file os objects_root o d).1 ≡ none)
        ⊎ ((cas_store_blob_from_file os objects_root o d).1 ≡ some (hash_of content))
  unfolding cas_store_blob_from_file
  stored_cases o content d there =
      let made = make_object_path os objects_root (hash_of content) d in
      elim (Bool-cases (os.can_open o)) [
        | inr shut ↦ inl (rw (there, cas_store_blob_from_file) (rw shut refl))
        | inl can ↦ elim (Option-cases made.1) [
          | inl lost ↦ inl (rw (there, cas_store_blob_from_file) (rw (can, lost) refl))
          | inr (path, named) ↦ elim (Bool-cases (file_exists made.0 path)) [
            | inl old ↦ inr (rw (there, cas_store_blob_from_file) (rw (can, named) (rw old refl)))
            | inr new ↦ elim (Bool-cases (copy_file os o path made.0).1) [
              | inl good ↦
                  inr (rw (there, cas_store_blob_from_file) (rw (can, named) (rw (new, good) refl)))
              | inr bad ↦
                  inl (rw (there, cas_store_blob_from_file) (rw (can, named) (rw (new, bad) refl)))
            ]
          ]
        ]
      ]

  stored_hash :
      (o h : Text) (d : Disk)
      → (cas_store_blob_from_file os objects_root o d).1 ≡ some h
      → (content : List ℕ) × (h ≡ hash_of content)
  unfolding cas_store_blob_from_file
  stored_hash o h d e = elim (Option-cases (d.files o)) [
    | inl gone ↦
        let empty : (cas_store_blob_from_file os objects_root o d).1 ≡ none =
          rw (gone, cas_store_blob_from_file) refl in
        absurd cc
    | inr (content, there) ↦ elim (stored_cases o content d there) [
      | inl empty ↦ absurd cc
      | inr stored ↦ (content, cc)
    ]
  ]

  -- A line with another first letter leaves the result hash.
  meta_line_other :
      (m : Meta os objects_root cache_root) (c : ℕ) (s : Text)
      → is_blank c ≡ false
      → (c == 0) ≡ false
      → (b'r' == c) ≡ false
      → (meta_line os objects_root cache_root m (c ∷ s)).result ≡ m.result
  unfolding meta_line
  meta_line_other m c s clean whole other =
      let (rest, e) = trim_first c (c_str s) clean in
      elim (Bool-cases (starts_with (codes "output ") (c ∷ rest))) [
        | inl out ↦ rw (whole, e, other) (rw out refl)
        | inr no_out ↦ rw (whole, e, other) (rw no_out refl)
      ]

  meta_line_result :
      (m : Meta os objects_root cache_root) (c : ℕ) (r : Text)
      → IsShown (c ∷ r)
      → length (c ∷ r) ≤ 255
      → (meta_line os objects_root cache_root m (codes "result_hash: " ++ c ∷ r)).result ≡ c ∷ r
  unfolding meta_line is_blank
  meta_line_result m c r h k =
      let line = codes "result_hash: " ++ c ∷ r in
      let whole : c_str line ≡ line = c_str-eq line (mem-IsShown 0 (c ∷ r) (omega arith) h) in
      let kept : trim line ≡ line = trim-eq line refl (EndsClean-IsShown (c ∷ r) h) in
      let first = h.0 in
      let solid : is_space c ≡ false = ground arith in
      rw (whole, kept, solid) (take-eq 255 (c ∷ r) k)

  -- What stands in an output line, with its newline behind it.
  output_text :
      (o h rest : Text)
      → codes "output " ++ (o ++ (32 ∷ h ++ 10 ∷ rest))
        ≡ (codes "output " ++ (o ++ 32 ∷ h)) ++ 10 ∷ rest
  output_text o h rest = ap (λ t. codes "output " ++ t) (sym (append_assoc o (32 ∷ h) (10 ∷ rest)))

  output_lines-none :
      (o : Text) (outs : List Text) (d : Disk)
      → (cas_store_blob_from_file os objects_root o d).1 ≡ none
      → output_lines os objects_root cache_root (o ∷ outs) d
        ≡ output_lines os objects_root cache_root outs
            (cas_store_blob_from_file os objects_root o d).0
  unfolding output_lines
  output_lines-none o outs d e = rw (e, output_lines) refl

  output_lines-some :
      (o h : Text) (outs : List Text) (d : Disk)
      → (cas_store_blob_from_file os objects_root o d).1 ≡ some h
      → (output_lines os objects_root cache_root (o ∷ outs) d).1
        ≡ codes "output "
          ++ (o
              ++ (32 ∷ h
                  ++ 10
                    ∷ (output_lines os objects_root cache_root outs
                        (cas_store_blob_from_file os objects_root o d).0).1))
  unfolding output_lines
  output_lines-some o h outs d e = rw (e, output_lines) refl

  -- What `pieces` leaves behind the last newline.
  meta_lines-end :
      (m : Meta os objects_root cache_root)
      → (meta_lines os objects_root cache_root m (pieces 10 [])).result ≡ m.result
  unfolding meta_lines meta_line pieces trim trim_start trim_end
  meta_lines-end m = refl

  meta_lines-line :
      (m : Meta os objects_root cache_root) (line rest : Text)
      → mem 10 line ≡ false
      → meta_lines os objects_root cache_root m (pieces 10 (line ++ 10 ∷ rest))
        ≡ meta_lines os objects_root cache_root
            (meta_line os objects_root cache_root m line)
            (pieces 10 rest)
  unfolding meta_lines
  meta_lines-line m line rest lacks =
      ap (meta_lines os objects_root cache_root m) (pieces_cut 10 line rest lacks)

  -- The output lines leave the result hash.
  output_lines_keep :
      (outs : List Text) (d : Disk) (m : Meta os objects_root cache_root)
      → All (λ o. mem 10 o ≡ false) outs
      → (meta_lines os objects_root cache_root m
          (pieces 10 (output_lines os objects_root cache_root outs d).1)).result
        ≡ m.result
  unfolding is_blank
  output_lines_keep [] d m h = unfold output_lines in meta_lines-end m
  output_lines_keep (o ∷ outs) d m h =
      let stored = cas_store_blob_from_file os objects_root o d in
      elim (Option-cases stored.1) [
        | inl none_stored ↦
            rw (output_lines-none o outs d none_stored) (output_lines_keep outs stored.0 m h.1)
        | inr (hash, e) ↦
            let (content, same) = stored_hash o hash d e in
            let shown : IsShown hash = rw same (hash_of-IsShown content) in
            let rest = (output_lines os objects_root cache_root outs stored.0).1 in
            let line = codes "output " ++ (o ++ 32 ∷ hash) in
            let lacks : mem 10 line ≡ false =
              rw (mem-append 10 o (32 ∷ hash), h.0) (mem-IsShown 10 hash (omega arith) shown) in
            let one = output_lines-some o hash outs d e ∙ output_text o hash rest in
            rw (one, meta_lines-line m line rest lacks)
              (output_lines_keep outs stored.0 _ h.1
                ∙ meta_line_other m b'o' (codes "utput " ++ (o ++ 32 ∷ hash)) refl refl refl)
      ]

  record_text :
      (hash : Text) (c : ℕ) (r outs : Text)
      → meta_head os objects_root cache_root hash (some (c ∷ r)) ++ outs
        ≡ (codes "task_hash: " ++ hash) ++ 10 ∷ ((codes "result_hash: " ++ c ∷ r) ++ 10 ∷ outs)
  record_text hash c r outs =
      ap (λ t. codes "task_hash: " ++ t)
        (append_assoc hash (codes "\nresult_hash: " ++ (c ∷ r ++ 10 ∷ [])) outs
          ∙ ap (λ t. hash ++ (codes "\nresult_hash: " ++ c ∷ t)) (append_assoc r (10 ∷ []) outs))

  -- The record of a task with a result gives the result back.
  pub record_result :
      (hash : Text) (c : ℕ) (r : Text) (outs : List Text) (d : Disk)
      → mem 10 hash ≡ false
      → IsShown (c ∷ r)
      → length (c ∷ r) ≤ 255
      → All (λ o. mem 10 o ≡ false) outs
      → (meta_lines os objects_root cache_root
          (record { result = []; outputs = [] })
          (pieces 10 (
            meta_head os objects_root cache_root hash (some (c ∷ r))
            ++ (output_lines os objects_root cache_root outs d).1))).result
        ≡ c ∷ r
  unfolding is_blank
  record_result hash c r outs d h shown fits lack =
      let empty : Meta os objects_root cache_root = record { result = []; outputs = [] } in
      let text = (output_lines os objects_root cache_root outs d).1 in
      let second = codes "result_hash: " ++ c ∷ r in
      let one_line : mem 10 second ≡ false = mem-IsShown 10 (c ∷ r) (omega arith) shown in
      rw
        (
          record_text hash c r text,
          meta_lines-line empty (codes "task_hash: " ++ hash) (second ++ 10 ∷ text) h,
          meta_lines-line (meta_line os objects_root cache_root empty (codes "task_hash: " ++ hash))
              second text one_line,
        )
        (output_lines_keep outs d _ lack
          ∙ meta_line_result
              (meta_line os objects_root cache_root empty (codes "task_hash: " ++ hash)) c r shown
              fits)
