-- ===== src/Cas/Torn.antt =====
-- Copies and cut writes: what a restore gives back, and how both stores can leave a cut object that
-- later calls take for stored.
use repro_vm_virtual_machine.Prelude.{
  take, leb, not, if◌then◌else◌, str_eq, str_eq_refl, ap, ℕ, ◌≤◌, ◌<◌, List, true, false, Bool,
  ◌&&◌, none, some, Option, refl, ◌≡◌, ◌∙◌, arith, inl, inr, Bool-cases, Option-cases, length, Text,
}
use repro_vm_virtual_machine.Cas.{
  Disk, Os, file_exists, put_file, written, complete, accepted, write_object, object_path,
  copy_file, make_object_path, cas_store_blob_from_memory, cas_store_blob_from_file,
  cas_restore_blob_to_file,
}
use repro_vm_virtual_machine.Cas.Paths.{make_object_path-files, make_object_path-some}
use repro_vm_virtual_machine.Cas.Sound.{
  tmp_of, tmp_of-apart, accepted-written, hash_of, IsSound, cas_store_blob_from_memory-some,
}

-- To another path, where a cut write is missed by `fwrite`, `copy_file` returns 0 only if the source
-- was there and the destination now holds its content.
pub copy_file_lem :
    (os : Os) (src dst : Text) (d : Disk)
    → str_eq src dst ≡ false
    → os.fwrite_fails dst ≡ true
    → (copy_file os src dst d).1 ≡ true
    → (c : List ℕ) × (d.files src ≡ some c) × ((copy_file os src dst d).0.files dst ≡ some c)
copy_file_lem os src dst d apart seen h = elim (Option-cases (d.files src)) [
  | inl e ↦ absurd (cc (copy_none e, h))
  | inr (c, e) ↦ elim (Bool-cases (os.can_open src && os.can_create dst)) [
    | inr shut ↦ absurd (cc (copy_shut c e shut, h))
    | inl good ↦
        let eq = copy_good c e good in
        let whole : accepted os dst c ≡ true = rw eq at h in
        (
          c,
          e,
          rw eq (rw (str_eq_refl dst) (ap (λ l. some l) (accepted-written os dst c seen whole))),
        )
  ]
]
  where
    copy_none : d.files src ≡ none → (copy_file os src dst d).1 ≡ false
    copy_none e = unfold copy_file in rw (e, copy_file) refl

    copy_shut :
        (c : List ℕ)
        → d.files src ≡ some c
        → (os.can_open src && os.can_create dst) ≡ false
        → (copy_file os src dst d).1 ≡ false
    copy_shut c e shut = unfold copy_file in rw (e, copy_file) (rw shut refl)

    copy_good :
        (c : List ℕ)
        → d.files src ≡ some c
        → (os.can_open src && os.can_create dst) ≡ true
        → copy_file os src dst d
          ≡ (record d { files = put_file dst (some (written os dst c)) d.files }, accepted os dst c)
    copy_good c e good = unfold copy_file in rw (e, copy_file) (rw (apart, good) refl)

restore_some :
    (os : Os) (root hash dest p : Text) (d : Disk)
    → (make_object_path os root hash d).1 ≡ some p
    → file_exists (make_object_path os root hash d).0 p ≡ true
    → cas_restore_blob_to_file os root hash dest d
      ≡ copy_file os p dest (make_object_path os root hash d).0
unfolding cas_restore_blob_to_file
restore_some os root hash dest p d e there = rw (e, cas_restore_blob_to_file) (rw there refl)

restore_none :
    (os : Os) (root hash dest : Text) (d : Disk)
    → (make_object_path os root hash d).1 ≡ none
    → (cas_restore_blob_to_file os root hash dest d).1 ≡ false
unfolding cas_restore_blob_to_file
restore_none os root hash dest d e = rw (e, cas_restore_blob_to_file) refl

restore_absent :
    (os : Os) (root hash dest p : Text) (d : Disk)
    → (make_object_path os root hash d).1 ≡ some p
    → file_exists (make_object_path os root hash d).0 p ≡ false
    → (cas_restore_blob_to_file os root hash dest d).1 ≡ false
unfolding cas_restore_blob_to_file
restore_absent os root hash dest p d e gone = rw (e, cas_restore_blob_to_file) (rw gone refl)

-- To a path that is not the object's own, and where a cut write is missed by `fwrite`: when
-- `cas_restore_blob_to_file` returns 0, the destination holds exactly what stood at the
-- object's path before the call.
pub cas_restore_blob_to_file_lem :
    (os : Os) (root hash dest : Text) (d : Disk)
    → str_eq (object_path root hash) dest ≡ false
    → os.fwrite_fails dest ≡ true
    → (cas_restore_blob_to_file os root hash dest d).1 ≡ true
    → (c : List ℕ) × (d.files (object_path root hash) ≡ some c)
      × ((cas_restore_blob_to_file os root hash dest d).0.files dest ≡ some c)
cas_restore_blob_to_file_lem os root hash dest d apart seen h =
    let made = make_object_path os root hash d in
    elim (Option-cases made.1) [
      | inl e ↦ absurd (cc (restore_none os root hash dest d e, h))
      | inr (p, e) ↦ elim (Bool-cases (file_exists made.0 p)) [
        | inr gone ↦ absurd (cc (restore_absent os root hash dest p d e gone, h))
        | inl there ↦
            let eq = restore_some os root hash dest p d e there in
            let here = make_object_path-some os root hash p d e in
            let (c, held, copied) =
              copy_file_lem os p dest made.0 (rw here apart) seen (rw eq at h) in
            let same = make_object_path-files os root hash d in
            (c, rw (← here, ← same) held, rw eq copied)
      ]
    ]

-- Storing data from memory where no object of its hash is, and restoring the hash that the store
-- returned to a path that is not the object's own, gives back exactly the data: if both calls
-- succeed, writes that are cut are already missed by `fwrite`, not only by `fclose`, every object
-- file matched its hash before, no directory stands at the object's path, and the root path has at
-- most 1000 bytes.
pub restore-store :
    (os os' : Os) (root : Text) (blob : List ℕ) (dest : Text) (d : Disk) (h : Text)
    → length root ≤ 1000
    → os.fwrite_fails (tmp_of (object_path root (hash_of blob))) ≡ true
    → os'.fwrite_fails dest ≡ true
    → str_eq (object_path root h) dest ≡ false
    → IsSound root d.files
    → d.files (object_path root h) ≡ none
    → (cas_store_blob_from_memory os root blob d).1 ≡ some h
    → (cas_store_blob_from_memory os root blob d).0.dirs (object_path root h) ≡ false
    → (cas_restore_blob_to_file os' root h dest (cas_store_blob_from_memory os root blob d).0).1
      ≡ true
    → (cas_restore_blob_to_file os' root h dest
          (cas_store_blob_from_memory os root blob d).0).0.files
        dest
      ≡ some blob
restore-store os os' root blob dest d h fits seen seen' apart s new stored no_dir restored =
    let after = (cas_store_blob_from_memory os root blob d).0 in
    let (named, (c, held, good, exact)) =
      cas_store_blob_from_memory-some os root fits blob seen d s stored no_dir in
    let (c', held', copied) =
      cas_restore_blob_to_file_lem os' root h dest after apart seen' restored in
    copied ∙ cc (exact new)

module _ (os : Os) (root file : Text) (content : List ℕ) (d : Disk)
    (is_there : d.files file ≡ some content) (readable : os.can_open file ≡ true)
    (made_ok : (make_object_path os root (hash_of content) d).1
      ≡ some (object_path root (hash_of content))) where
  abbrev object : Text
  object = object_path root (hash_of content)

  abbrev after_mkdir : Disk
  after_mkdir = (make_object_path os root (hash_of content) d).0

  from_file_new :
      file_exists after_mkdir object ≡ false
      → let copied = copy_file os file object after_mkdir in
        cas_store_blob_from_file os root file d
        ≡ (copied.0, if copied.1 then some (hash_of content) else none)
  unfolding cas_store_blob_from_file
  from_file_new new =
      rw (is_there, cas_store_blob_from_file)
        (rw readable (
          rw (made_ok, cas_store_blob_from_file)
            (rw new (elim (Bool-cases (copy_file os file object after_mkdir).1) [
              | inl good ↦ rw good refl
              | inr bad ↦ rw bad refl
            ]))))

  from_file_old :
      file_exists after_mkdir object ≡ true
      → cas_store_blob_from_file os root file d ≡ (after_mkdir, some (hash_of content))
  unfolding cas_store_blob_from_file
  from_file_old old =
      rw (is_there, cas_store_blob_from_file)
        (rw readable (rw (made_ok, cas_store_blob_from_file) (rw old refl)))

  copy_cut :
      (r : ℕ)
      → os.can_create object ≡ true
      → os.room object ≡ some r
      → r < length content
      → str_eq file object ≡ false
      → copy_file os file object after_mkdir ≡ (
        record after_mkdir { files = put_file object (some (take r content)) after_mkdir.files },
        not (os.fwrite_fails object),
      )
  unfolding copy_file
  copy_cut r creatable room short apart =
      let same = make_object_path-files os root (hash_of content) d in
      let source : after_mkdir.files file ≡ some content = rw same is_there in
      let cut : leb (length content) r ≡ false = ground arith in
      rw (source, copy_file)
        (rw (apart, readable, creatable) (rw (room, written) (rw (room, complete) (rw cut refl))))

if_not {ℓ} : {A : Type ℓ} (b : Bool) (x y : A) → (if not b then x else y) ≡ (if b then y else x)
if_not true x y = refl
if_not false x y = refl

-- If the object of a readable file is not in the store and the copy into it is cut after r bytes,
-- fewer than the file has, then `cas_store_blob_from_file` returns NULL if `fwrite` misses the rest,
-- and the hash of the whole content if only `fclose` does. In both cases the next call for the same
-- file, if it can read the file and reach the object's directory, returns the hash of the whole
-- content while the object holds only the first r bytes.
pub cas_store_blob_from_file_torn :
    (os os' : Os) (root file : Text) (content : List ℕ) (d : Disk) (r : ℕ)
    → d.files file ≡ some content
    → os.can_open file ≡ true
    → os'.can_open file ≡ true
    → (make_object_path os root (hash_of content) d).1 ≡ some (object_path root (hash_of content))
    → file_exists
        (make_object_path os root (hash_of content) d).0
        (object_path root (hash_of content))
      ≡ false
    → os.can_create (object_path root (hash_of content)) ≡ true
    → os.room (object_path root (hash_of content)) ≡ some r
    → r < length content
    → str_eq file (object_path root (hash_of content)) ≡ false
    → (make_object_path os' root (hash_of content) (cas_store_blob_from_file os root file d).0).1
      ≡ some (object_path root (hash_of content))
    → ((cas_store_blob_from_file os root file d).1 ≡ (
        if os.fwrite_fails (object_path root (hash_of content))
        then none
        else some (hash_of content)))
      × ((cas_store_blob_from_file os' root file (cas_store_blob_from_file os root file d).0).1
          ≡ some (hash_of content))
      × ((cas_store_blob_from_file os' root file
              (cas_store_blob_from_file os root file d).0).0.files
            (object_path root (hash_of content))
          ≡ some (take r content))
cas_store_blob_from_file_torn os os' root file content d r is_there readable readable' made_ok new
      creatable room short apart made_ok' =
    let path = object_path root (hash_of content) in
    let cut =
      copy_cut os root file content d is_there readable made_ok r creatable room short apart in
    let flag = ap (λ (x : Disk × Bool). x.1) cut in
    let first = from_file_new os root file content d is_there readable made_ok new in
    let torn = (cas_store_blob_from_file os root file d).0 in
    let torn_files =
      ap (λ (x : Disk × Option Text). x.0.files) first ∙ ap (λ (x : Disk × Bool). x.0.files) cut in
    let base = make_object_path-files os root (hash_of content) d in
    let source : torn.files file ≡ some content = rw torn_files (rw apart (rw base is_there)) in
    let held : torn.files path ≡ some (take r content) =
      rw torn_files (rw (str_eq_refl path) refl) in
    let same' = make_object_path-files os' root (hash_of content) torn in
    let held' : (make_object_path os' root (hash_of content) torn).0.files path
        ≡ some (take r content) =
      rw same' held in
    let old : file_exists (make_object_path os' root (hash_of content) torn).0 path ≡ true =
      rw held' refl in
    let second = from_file_old os' root file content torn source readable' made_ok' old in
    (
      ap (λ (x : Disk × Option Text). x.1) first
          ∙ ap (λ ok. if ok then some (hash_of content) else none) flag
          ∙ if_not (os.fwrite_fails path) (some (hash_of content)) none,
      ap (λ (x : Disk × Option Text). x.1) second,
      rw second held',
    )

module _ (os : Os) (root : Text) (blob : List ℕ) (d : Disk) (r : ℕ)
    (made_ok : (make_object_path os root (hash_of blob) d).1
      ≡ some (object_path root (hash_of blob)))
    (new : file_exists
        (make_object_path os root (hash_of blob) d).0
        (object_path root (hash_of blob))
      ≡ false)
    (fits : length root ≤ 1000)
    (creatable : os.can_create (tmp_of (object_path root (hash_of blob))) ≡ true)
    (movable : os.can_rename (tmp_of (object_path root (hash_of blob))) ≡ true)
    (room : os.room (tmp_of (object_path root (hash_of blob))) ≡ some r)
    (quiet : os.fwrite_fails (tmp_of (object_path root (hash_of blob))) ≡ false) where
  abbrev goal : Text
  goal = object_path root (hash_of blob)

  abbrev made : Disk
  made = (make_object_path os root (hash_of blob) d).0

  write_object_cut : write_object os root goal blob made ≡ (
    record made {
      files = put_file (tmp_of goal) none (put_file goal (some (take r blob)) made.files);
    },
    true,
  )
  unfolding write_object
  write_object_cut =
      let taken : accepted os (tmp_of goal) blob ≡ true = rw quiet (ground arith) in
      let cut : written os (tmp_of goal) blob ≡ take r blob = rw (room, written) refl in
      rw creatable (rw taken (rw movable (rw cut refl)))

  from_memory_new : cas_store_blob_from_memory os root blob d ≡ (
      let stored = write_object os root goal blob made in
      (stored.0, if stored.1 then some (hash_of blob) else none))
  unfolding cas_store_blob_from_memory
  from_memory_new =
      rw (made_ok, cas_store_blob_from_memory)
        (rw new (elim (Bool-cases (write_object os root goal blob made).1) [
          | inl good ↦ rw good refl
          | inr bad ↦ rw bad refl
        ]))

  -- If the object of some data is not in the store and the write to its temporary file is cut after
  -- r bytes, but only `fclose` misses the rest, then `cas_store_blob_from_memory` still moves the
  -- file to the object's path, if the root path has at most 1000 bytes and the system lets the calls
  -- through: it returns the hash of the whole data while the object holds its first r bytes.
  pub cas_store_blob_from_memory_torn :
      ((cas_store_blob_from_memory os root blob d).1 ≡ some (hash_of blob))
      × ((cas_store_blob_from_memory os root blob d).0.files goal ≡ some (take r blob))
  cas_store_blob_from_memory_torn =
      let stored = from_memory_new in
      let held : (write_object os root goal blob made).0.files goal ≡ some (take r blob) =
        rw write_object_cut (rw (tmp_of-apart root blob fits) (rw (str_eq_refl goal) refl)) in
      (
        ap (λ (x : Disk × Option Text). x.1) stored
            ∙ ap (λ (x : Disk × Bool). if x.1 then some (hash_of blob) else none) write_object_cut,
        ap (λ (x : Disk × Option Text). x.0.files goal) stored ∙ held,
      )
