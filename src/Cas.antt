-- ===== src/Cas.antt =====
-- The content-addressed store of cas.c, with `file_exists` and `copy_file` of util.c, on a disk of
-- files and directories. The operating system decides which calls fail (`Os`).
pub mod Paths
pub mod Sound
pub mod Torn
use repro_vm_virtual_machine.Prelude.{
  take, str_eq, leb, ℕ, zero, suc, ◌+◌, ◌-◌, ◌*◌, ◌≤◌, ◌<◌, if◌then◌else◌, ◌==◌, ◌++◌, ◌∷◌, [],
  List, true, false, Bool, ◌&&◌, ◌||◌, none, some, Option, refl, ◌≡◌, ◌≢◌, ◌∙◌, sym, arith, inl,
  inr, ◌⊎◌, ◌↔◌, Bool-cases, Option-cases, List-cases, length, Text, mem, count, All, drop, ltb,
  codes, not,
}
use repro_vm_virtual_machine.Util.{
  Mkdir, created, exists, failed, ensure_dir_recursive, hex_encode, slash,
}
use repro_vm_virtual_machine.Sha.{sha256}

pub record Disk : Type 0 where
  pub files : Text → Option (List ℕ)
  pub dirs : Text → Bool

-- Which calls the system lets through. `room p` is the number of bytes of a write that reach the file
-- p; `none` is no limit. What is cut off is missed by `fwrite` if `fwrite_fails p`; otherwise it was
-- left to `fclose`, and no caller looks at the result of that.
pub record Os : Type 0 where
  pub can_mkdir : Text → Bool
  pub can_open : Text → Bool
  pub can_create : Text → Bool
  pub can_rename : Text → Bool
  pub room : Text → Option ℕ
  pub fwrite_fails : Text → Bool

abbrev pub is_some {ℓ} : {A : Type ℓ} → Option A → Bool
is_some none = false
is_some (some _) = true

-- `file_exists`: `stat` finds files and directories.
abbrev pub file_exists : Disk → Text → Bool
file_exists d p = is_some (d.files p) || d.dirs p

abbrev pub put_file : Text → Option (List ℕ) → (Text → Option (List ℕ)) → Text → Option (List ℕ)
put_file p v files q = if str_eq q p then v else files q

-- `mkdir(path, 0755)`
unfoldable pub mkdir : Os → Text → Disk → Disk × Mkdir
mkdir os p d =
    if file_exists d p
    then (d, exists)
    else if os.can_mkdir p
    then (record d { dirs = λ q. if str_eq q p then true else d.dirs q }, created)
    else (d, failed)

-- What a write puts into a file, and whether all of it went in.
abbrev pub written : Os → Text → List ℕ → List ℕ
written os p blob = elim (os.room p) [ none ↦ blob | some r ↦ take r blob ]

abbrev pub complete : Os → Text → List ℕ → Bool
complete os p blob = elim (os.room p) [ none ↦ true | some r ↦ leb (length blob) r ]

-- Whether `fwrite` returns the whole length.
abbrev pub accepted : Os → Text → List ℕ → Bool
accepted os p blob = complete os p blob || not (os.fwrite_fails p)

-- The directory and the file of an object: `dir` holds 1023 bytes and the path 2047.
abbrev pub object_dir : Text → Text → Text
object_dir root hash = take 1023 (root ++ slash ∷ take 2 hash)

abbrev pub object_path : Text → Text → Text
object_path root hash = take 2047 (object_dir root hash ++ slash ∷ drop 2 hash)

module _ (os : Os) where
  -- `copy_file`: the destination keeps what was written before a failure. Opening it empties it, so
  -- a file that is copied to its own path is read as empty.
  unfoldable pub copy_file : Text → Text → Disk → Disk × Bool
  copy_file src dst d = elim (d.files src) [
    | none ↦ (d, false)
    | some content ↦
        let bytes = if str_eq src dst then [] else content in
        if os.can_open src && os.can_create dst
        then (
          record d { files = put_file dst (some (written os dst bytes)) d.files },
          accepted os dst bytes,
        )
        else (d, false)
  ]

  module _ (root : Text) where
    unfoldable pub make_object_path : Text → Disk → Disk × Option Text
    make_object_path hash d =
        if ltb (length hash) 3
        then (d, none)
        else let made = ensure_dir_recursive (mkdir os) (object_dir root hash) d in
          if made.1 then (made.0, some (object_path root hash)) else (made.0, none)

    unfoldable pub cas_blob_exists : Text → Disk → Disk × Bool
    cas_blob_exists hash d =
        let made = make_object_path hash d in
        (made.0, elim made.1 [ none ↦ false | some path ↦ file_exists made.0 path ])

    -- The atomic write: a temporary file, then `rename`. A failure that is seen unlinks the temporary
    -- file.
    unfoldable pub write_object : Text → List ℕ → Disk → Disk × Bool
    write_object path blob d =
        let tmp = take 4095 (path ++ codes ".tmp") in
        let gone = record d { files = put_file tmp none d.files } in
        let moved = put_file tmp none (put_file path (some (written os tmp blob)) d.files) in
        if not (os.can_create tmp)
        then (d, false)
        else if not (accepted os tmp blob)
        then (gone, false)
        else if os.can_rename tmp
        then (record d { files = moved }, true)
        else (gone, false)

    unfoldable pub cas_store_blob_from_memory : List ℕ → Disk → Disk × Option Text
    cas_store_blob_from_memory blob d =
        let hex = hex_encode (sha256 blob) in
        let made = make_object_path hex d in
        elim made.1 [
          | none ↦ (made.0, none)
          | some path ↦
              let stored = write_object path blob made.0 in
              if file_exists made.0 path
              then (made.0, some hex)
              else if stored.1
              then (stored.0, some hex)
              else (stored.0, none)
        ]

    unfoldable pub cas_store_blob_from_file : Text → Disk → Disk × Option Text
    cas_store_blob_from_file file d = elim (d.files file) [
      | none ↦ (d, none)
      | some content ↦
          let hex = hex_encode (sha256 content) in
          let made = make_object_path hex d in
          if not (os.can_open file) then (d, none) else elim made.1 [
            | none ↦ (made.0, none)
            | some path ↦
                let copied = copy_file file path made.0 in
                if file_exists made.0 path
                then (made.0, some hex)
                else if copied.1
                then (copied.0, some hex)
                else (copied.0, none)
          ]
    ]

    -- `true` is the return value 0.
    unfoldable pub cas_restore_blob_to_file : Text → Text → Disk → Disk × Bool
    cas_restore_blob_to_file hash dest d =
        let made = make_object_path hash d in
        elim made.1 [
          | none ↦ (made.0, false)
          | some path ↦
              if file_exists made.0 path then copy_file path dest made.0 else (made.0, false)
        ]

-- `cas_init`: the two roots, and whether both could be made.
unfoldable pub cas_init : Os → Text → Disk → Disk × Option (Text × Text)
cas_init os base d =
    let objects_root = take 1023 (base ++ codes "/.reprovm/cas/objects") in
    let cache_root = take 1023 (base ++ codes "/.reprovm/cache") in
    let made = ensure_dir_recursive (mkdir os) objects_root d in
    let made' = ensure_dir_recursive (mkdir os) cache_root made.0 in
    if not made.1
    then (made.0, none)
    else if made'.1
    then (made'.0, some (objects_root, cache_root))
    else (made'.0, none)
