-- ===== src/Cas/Paths.antt =====
-- Object paths: different hashes have different paths, and making directories touches no file.
use repro_vm_virtual_machine.Prelude.{
  take, drop, take-eq, length-append, ap, ◌+◌, ◌≤◌, ◌++◌, ◌∷◌, [], List, some, refl, ◌≡◌, ◌∙◌, sym,
  arith, inl, inr, Bool-cases, length, Text, length-take, take-append-drop, append_assoc,
}
use repro_vm_virtual_machine.Util.{mkdir_ok, make_all, ensure_dir_recursive, slash, is_empty}
use repro_vm_virtual_machine.Util.Dirs.{
  make_all_go, make_all_stop, empty_fails, ensure_dir_recursive_go,
}
use repro_vm_virtual_machine.Cas.{Disk, Os, mkdir, object_dir, object_path, make_object_path, ltb}

module _ (os : Os) where
  mkdir-files : (p : Text) (d : Disk) → (mkdir os p d).0.files ≡ d.files
  unfolding mkdir
  mkdir-files p d = ground arith

  make_all-files : (ps : List Text) (d : Disk) → (make_all (mkdir os) ps d).0.files ≡ d.files
  make_all-files [] d = unfold make_all in refl
  make_all-files (p ∷ ps) d =
      let rest = make_all-files ps (mkdir os p d).0 in
      elim (Bool-cases (mkdir_ok (mkdir os p d).1)) [
        | inl e ↦ rw (make_all_go (mkdir os) p ps d e) (rest ∙ mkdir-files p d)
        | inr e ↦ rw (make_all_stop (mkdir os) p ps d e) (mkdir-files p d)
      ]

  ensure_dir_recursive-files :
      (path : Text) (d : Disk) → (ensure_dir_recursive (mkdir os) path d).0.files ≡ d.files
  ensure_dir_recursive-files path d = elim (Bool-cases (is_empty (take 4095 path))) [
    | inl e ↦ rw (empty_fails (mkdir os) path d e) refl
    | inr e ↦ rw (ensure_dir_recursive_go (mkdir os) path d e) (make_all-files _ d)
  ]

  pub make_object_path-files :
      (root hash : Text) (d : Disk) → (make_object_path os root hash d).0.files ≡ d.files
  unfolding make_object_path
  make_object_path-files root hash d =
      let made = ensure_dir_recursive (mkdir os) (object_dir root hash) d in
      let same = ensure_dir_recursive-files (object_dir root hash) d in
      elim (Bool-cases (ltb (length hash) 3)) [
        | inl short ↦ rw short refl
        | inr long ↦ elim (Bool-cases made.1) [
          | inl good ↦ rw long (rw good same)
          | inr bad ↦ rw long (rw bad same)
        ]
      ]

  pub make_object_path-some :
      (root hash path : Text) (d : Disk)
      → (make_object_path os root hash d).1 ≡ some path
      → path ≡ object_path root hash
  unfolding make_object_path
  make_object_path-some root hash path d h = ground arith

append_cancel : (xs ys zs : Text) → xs ++ ys ≡ xs ++ zs → ys ≡ zs
append_cancel [] ys zs h = h
append_cancel (x ∷ xs) ys zs h = append_cancel xs ys zs (cc h)

-- The path of an object where no buffer cuts it.
pub object_path_lem :
    (root hash : Text)
    → length root ≤ 1000
    → length hash ≤ 1000
    → object_path root hash ≡ (root ++ slash ∷ take 2 hash) ++ slash ∷ drop 2 hash
object_path_lem root hash h k =
    let dir = root ++ slash ∷ take 2 hash in
    let dir_fits : length dir ≤ 1023 =
      omega (arith, length-append root (slash ∷ take 2 hash), length-take 2 hash) in
    let cut = take-append-drop 2 hash in
    ap (λ e. take 2047 (e ++ slash ∷ drop 2 hash)) (take-eq 1023 dir dir_fits)
    ∙ take-eq 2047 (dir ++ slash ∷ drop 2 hash) (
        omega (
          arith,
          length-append dir (slash ∷ drop 2 hash),
          ap length cut,
          length-append (take 2 hash) (drop 2 hash),
        ))

-- The length of an object path, and that it determines a hash of 64 digits.
pub length-object_path :
    (root hash : Text)
    → length root ≤ 1000
    → length hash ≡ 64
    → length (object_path root hash) ≡ length root + 66
length-object_path root hash h k = omega (
  arith,
  ap length (object_path_lem root hash h (omega arith)),
  length-append (root ++ slash ∷ take 2 hash) (slash ∷ drop 2 hash),
  length-append root (slash ∷ take 2 hash),
  ap length (take-append-drop 2 hash),
  length-append (take 2 hash) (drop 2 hash),
)

glue :
    (s t : Text)
    → 2 ≤ length s
    → 2 ≤ length t
    → slash ∷ take 2 s ++ slash ∷ drop 2 s ≡ slash ∷ take 2 t ++ slash ∷ drop 2 t
    → s ≡ t
glue [] t h k e = absurd (omega arith)
glue (a ∷ []) t h k e = absurd (omega arith)
glue (a ∷ b ∷ s) [] h k e = absurd (omega arith)
glue (a ∷ b ∷ s) (c ∷ []) h k e = absurd (omega arith)
glue (a ∷ b ∷ s) (c ∷ x ∷ t) h k e = cc

pub object_path-injective :
    (root s t : Text)
    → length root ≤ 1000
    → length s ≡ 64
    → length t ≡ 64
    → object_path root s ≡ object_path root t
    → s ≡ t
object_path-injective root s t h ks kt e = glue s t (omega arith) (omega arith) (
    append_cancel root _ _ (
      sym (append_assoc root (slash ∷ take 2 s) (slash ∷ drop 2 s))
      ∙ sym (object_path_lem root s h (omega arith))
      ∙ e
      ∙ object_path_lem root t h (omega arith)
      ∙ append_assoc root (slash ∷ take 2 t) (slash ∷ drop 2 t)))
