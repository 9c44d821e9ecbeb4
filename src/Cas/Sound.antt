-- ===== src/Cas/Sound.antt =====
-- Every object file holds content of the hash that names it: kept by the store from memory as long as
-- `fwrite` tells of a cut write, and what a restore relies on.
use repro_vm_virtual_machine.Prelude.{
  take, take-eq, leb, not, ◌||◌, str_eq, eq_of_str_eq, str_eq_refl, length-append, ap, subst, codes,
  ℕ, ◌≤◌, ◌++◌, List, true, false, none, some, Option, refl, ◌≡◌, sym, arith, inl, inr, ◌⊎◌,
  Bool-cases, Option-cases, length, Text, length-take,
}
use repro_vm_virtual_machine.Util.{hex_encode}
use repro_vm_virtual_machine.Util.Hex.{hex_encode_digits}
use repro_vm_virtual_machine.Sha.{sha256, sha256_final}
use repro_vm_virtual_machine.Cas.{
  Disk, Os, file_exists, put_file, complete, accepted, written, object_path, make_object_path,
  write_object, cas_store_blob_from_memory,
}
use repro_vm_virtual_machine.Cas.Paths.{
  make_object_path-files, make_object_path-some, length-object_path, object_path-injective,
}

abbrev pub hash_of : List ℕ → Text
hash_of blob = hex_encode (sha256 blob)

-- Whatever stands at the path of a hash has that hash.
abbrev pub IsSound : Text → (Text → Option (List ℕ)) → Type 0
IsSound root files =
    (h : Text) (c : List ℕ) → length h ≡ 64 → files (object_path root h) ≡ some c → hash_of c ≡ h

length-sha256 : (m : List ℕ) → length (sha256 m) ≡ 32
unfolding sha256 sha256_final
length-sha256 m = refl

pub length-hash_of : (m : List ℕ) → length (hash_of m) ≡ 64
length-hash_of m = omega (arith, (hex_encode_digits (sha256 m)).0, length-sha256 m)

-- The temporary file of an object.
abbrev pub tmp_of : Text → Text
tmp_of path = take 4095 (path ++ codes ".tmp")

-- Where a cut write is missed by `fwrite`, data that it accepts is written in full.
pub accepted-written :
    (os : Os) (p : Text) (blob : List ℕ)
    → os.fwrite_fails p ≡ true
    → accepted os p blob ≡ true
    → written os p blob ≡ blob
accepted-written os p blob seen h = elim (Option-cases (os.room p)) [
  | inl e ↦ rw (e, written) refl
  | inr (r, e) ↦
      let h' : (leb (length blob) r || not (os.fwrite_fails p)) ≡ true = rw (e, complete) at h in
      rw (e, written) (take-eq r blob (ground arith))
]

IsSound-remove :
    (root p : Text) (files : Text → Option (List ℕ))
    → IsSound root files
    → IsSound root (put_file p none files)
IsSound-remove root p files s h c long e = elim (Bool-cases (str_eq (object_path root h) p)) [
  | inl same ↦ cc (rw same at e)
  | inr other ↦ s h c long (rw other at e)
]

pub IsSound-put :
    (root : Text) (blob : List ℕ) (files : Text → Option (List ℕ))
    → length root ≤ 1000
    → IsSound root files
    → IsSound root (put_file (object_path root (hash_of blob)) (some blob) files)
IsSound-put root blob files fits s h c long e =
    elim (Bool-cases (str_eq (object_path root h) (object_path root (hash_of blob)))) [
      | inl same ↦
          let paths = eq_of_str_eq (object_path root h) (object_path root (hash_of blob)) same in
          let hashes =
            object_path-injective root h (hash_of blob) fits long (length-hash_of blob) paths in
          let content : some blob ≡ some c = rw same at e in cc (hashes, content)
      | inr other ↦ s h c long (rw other at e)
    ]

-- The temporary file has another path than the object.
pub tmp_of-apart :
    (root : Text) (blob : List ℕ)
    → length root ≤ 1000
    → str_eq (object_path root (hash_of blob)) (tmp_of (object_path root (hash_of blob))) ≡ false
tmp_of-apart root blob fits =
    let path = object_path root (hash_of blob) in
    elim (Bool-cases (str_eq path (tmp_of path))) [
      | inl same ↦
          let e = ap length (eq_of_str_eq path (tmp_of path) same) in
          let long = length-object_path root (hash_of blob) fits (length-hash_of blob) in
          absurd (
            omega (
              arith,
              e,
              long,
              length-take 4095 (path ++ codes ".tmp"),
              length-append path (codes ".tmp"),
            ))
      | inr other ↦ other
    ]

module _ (os : Os) (root : Text) (fits : length root ≤ 1000) (blob : List ℕ)
    (seen : os.fwrite_fails (tmp_of (object_path root (hash_of blob))) ≡ true) where
  abbrev path : Text
  path = object_path root (hash_of blob)

  write_object-IsSound :
      (d : Disk) → IsSound root d.files → IsSound root (write_object os root path blob d).0.files
  unfolding write_object
  write_object-IsSound d s = elim (Bool-cases (os.can_create (tmp_of path))) [
    | inr shut ↦ rw shut s
    | inl created ↦ elim (Bool-cases (accepted os (tmp_of path) blob)) [
      | inr short ↦ rw created (rw short (IsSound-remove root (tmp_of path) d.files s))
      | inl full ↦ elim (Bool-cases (os.can_rename (tmp_of path))) [
        | inr stays ↦ rw created (rw full (rw stays (IsSound-remove root (tmp_of path) d.files s)))
        | inl moved ↦ rw created (
            rw full (
              rw moved (
                rw (accepted-written os (tmp_of path) blob seen full) (
                  IsSound-remove root (tmp_of path) (put_file path (some blob) d.files)
                    (IsSound-put root blob d.files fits s)))))
      ]
    ]
  ]

  write_object-file :
      (d : Disk)
      → (write_object os root path blob d).1 ≡ true
      → (write_object os root path blob d).0.files path ≡ some blob
  unfolding write_object
  write_object-file d h = elim (Bool-cases (accepted os (tmp_of path) blob)) [
    | inr short ↦ ground (arith, short)
    | inl full ↦
        rw (accepted-written os (tmp_of path) blob seen full)
          (ground (arith, tmp_of-apart root blob fits, str_eq_refl path))
  ]

  -- The four ways through `cas_store_blob_from_memory`.
  abbrev Cases : Disk → Disk → Disk × Option Text → Type 0
  Cases made stored result =
      (result ≡ (made, none))
      ⊎ ((file_exists made path ≡ true) × (result ≡ (made, some (hash_of blob))))
      ⊎ ((file_exists made path ≡ false)
          × ((write_object os root path blob made).1 ≡ true)
          × (result ≡ (stored, some (hash_of blob))))
      ⊎ (result ≡ (stored, none))

  store-Cases :
      (d : Disk)
      → let made = (make_object_path os root (hash_of blob) d).0 in
        Cases made
          (write_object os root path blob made).0
          (cas_store_blob_from_memory os root blob d)
  unfolding cas_store_blob_from_memory
  store-Cases d =
      let made = make_object_path os root (hash_of blob) d in
      elim (Option-cases made.1) [
        | inl e ↦ inl (rw (e, cas_store_blob_from_memory) refl)
        | inr (p, e) ↦
            let here = make_object_path-some os root (hash_of blob) p d e in
            let stored = write_object os root path blob made.0 in
            rw (e, cas_store_blob_from_memory, here)
              (elim (Bool-cases (file_exists made.0 path)) [
                | inl there ↦ inr (inl (there, rw there refl))
                | inr new ↦ elim (Bool-cases stored.1) [
                  | inl good ↦ inr (inr (inl (new, good, rw new (rw good refl))))
                  | inr bad ↦ inr (inr (inr (rw new (rw bad refl))))
                ]
              ])
      ]

  -- Whichever calls the system refuses, `cas_store_blob_from_memory` leaves every object file with
  -- content of the hash that names it, if they had it before, the root path has at most 1000 bytes,
  -- and a write to the temporary file that is cut is already missed by `fwrite`, not only by
  -- `fclose`.
  pub cas_store_blob_from_memory-IsSound :
      (d : Disk)
      → IsSound root d.files
      → IsSound root (cas_store_blob_from_memory os root blob d).0.files
  cas_store_blob_from_memory-IsSound d s =
      let made = (make_object_path os root (hash_of blob) d).0 in
      let same = make_object_path-files os root (hash_of blob) d in
      let s' : IsSound root made.files = subst (IsSound root) (sym same) s in
      let kept = write_object-IsSound made s' in
      elim (store-Cases d) [
        | inl e ↦ rw e s'
        | inr (inl (_, e)) ↦ rw e s'
        | inr (inr (inl (_, _, e))) ↦ rw e kept
        | inr (inr (inr e)) ↦ rw e kept
      ]

  found :
      (made : Disk)
      → IsSound root made.files
      → file_exists made path ≡ true
      → made.dirs path ≡ false
      → (c : List ℕ) × (made.files path ≡ some c)
        × (hash_of c ≡ hash_of blob)
        × (made.files path ≡ none → c ≡ blob)
  found made s there no_dir = elim (Option-cases (made.files path)) [
    | inl e ↦ absurd (cc (rw (e, no_dir) at there))
    | inr (c, e) ↦ (c, e, s (hash_of blob) c (length-hash_of blob) e, λ gone. cc)
  ]

  -- If the root path has at most 1000 bytes, every object file had content of the hash that names
  -- it, no directory stands at the object's path after the call, and a write to the temporary file
  -- that is cut is already missed by `fwrite`, not only by `fclose`: when
  -- `cas_store_blob_from_memory` returns a hash, that is the hash of the data, and the object file
  -- holds content of that hash, which is the data itself if no object was there before.
  pub cas_store_blob_from_memory-some :
      (d : Disk) {h : Text}
      → IsSound root d.files
      → (cas_store_blob_from_memory os root blob d).1 ≡ some h
      → (cas_store_blob_from_memory os root blob d).0.dirs (object_path root h) ≡ false
      → (h ≡ hash_of blob)
        × ((c : List ℕ) × ((cas_store_blob_from_memory os root blob d).0.files (object_path root h)
              ≡ some c)
            × (hash_of c ≡ h)
            × (d.files (object_path root h) ≡ none → c ≡ blob))
  cas_store_blob_from_memory-some d {h} s done no_dir =
      let made = (make_object_path os root (hash_of blob) d).0 in
      let same = make_object_path-files os root (hash_of blob) d in
      let s' : IsSound root made.files = subst (IsSound root) (sym same) s in
      elim (store-Cases d) [
        | inl e ↦ cc (rw e at done)
        | inr (inl (there, e)) ↦
            let named : hash_of blob ≡ h = cc (rw e at done) in
            let no_dir' : made.dirs path ≡ false = rw (e, ← named) at no_dir in
            let (c, held, good, exact) = found made s' there no_dir' in
            rw (← named) (refl, (c, rw e held, good, λ gone. exact (rw same gone)))
        | inr (inr (inl (new, good, e))) ↦
            let named : hash_of blob ≡ h = cc (rw e at done) in
            rw (← named) (refl, (blob, rw e (write_object-file made good), refl, λ gone. refl))
        | inr (inr (inr e)) ↦ cc (rw e at done)
      ]
