-- ===== src/Tests/Store.antt =====
-- cas.c on a disk that is empty at first, under a system that refuses nothing or cuts one write.
use repro_vm_virtual_machine.Sha.{sha256, sha256_transform}
use repro_vm_virtual_machine.Cas.Torn.{
  cas_store_blob_from_memory_torn, restore-store, cas_store_blob_from_file_torn,
}
use repro_vm_virtual_machine.Util.Dirs.{MkdirLaws, ensure_dir_recursive_makes}
use repro_vm_virtual_machine.Cas.Sound.{
  IsSound, cas_store_blob_from_memory-IsSound, hash_of, cas_store_blob_from_memory-some,
}
use repro_vm_virtual_machine.Util.{ensure_dir_recursive, hex_encode, hex_digit, drop_last_slash}
use repro_vm_virtual_machine.Cas.{
  Os, Disk, mkdir, file_exists, cas_store_blob_from_memory, make_object_path, object_path,
  cas_restore_blob_to_file, put_file, copy_file, cas_store_blob_from_file, write_object,
}
use repro_vm_virtual_machine.Prelude.{
  codes, ℕ, List, true, false, none, some, refl, ◌≡◌, arith, Text, str_eq_refl, str_eq,
}

abbrev pub open_os : Os
open_os = record {
  can_mkdir = λ _. true;
  can_open = λ _. true;
  can_create = λ _. true;
  can_rename = λ _. true;
  room = λ _. none;
  fwrite_fails = λ _. true;
}

-- Writes stop after one byte, and `fwrite` tells.
abbrev full_os : Os
full_os = record open_os { room = λ _. some 1 }

-- Writes stop after one byte, but what was cut was still in the buffer of the file.
abbrev quiet_os : Os
quiet_os = record full_os { fwrite_fails = λ _. false }

abbrev root : Text
root = codes "/o"

abbrev abc : List ℕ
abc = codes "abc"

abbrev pub empty_disk : Disk
empty_disk = record { files = λ _. none; dirs = λ _. false }

mkdir_laws : (os : Os) → MkdirLaws (mkdir os) (λ d q. file_exists d q ≡ true)
unfolding mkdir
mkdir_laws os = record {
  made = λ p d h. ground (arith, str_eq_refl p);
  kept = λ p q d h. ground arith;
}

done : (ensure_dir_recursive (mkdir open_os) (codes "/a/b/") empty_disk).1 ≡ true
unfolding ensure_dir_recursive mkdir
done = refl

ensure_dir_recursive_makes_example :
    file_exists (ensure_dir_recursive (mkdir open_os) (codes "/a/b/") empty_disk).0 (codes "/a/b")
    ≡ true
unfolding drop_last_slash
ensure_dir_recursive_makes_example =
    (ensure_dir_recursive_makes (mkdir_laws open_os) (codes "/a/b/") empty_disk done).0

IsSound-empty : IsSound root empty_disk.files
IsSound-empty h c long e = cc

cas_store_blob_from_memory-IsSound_example :
    IsSound root (cas_store_blob_from_memory full_os root abc empty_disk).0.files
cas_store_blob_from_memory-IsSound_example =
    cas_store_blob_from_memory-IsSound full_os root (omega arith) abc refl empty_disk IsSound-empty

stored_abc : (cas_store_blob_from_memory open_os root abc empty_disk).1 ≡ some (hash_of abc)
unfolding cas_store_blob_from_memory make_object_path hex_encode sha256 ensure_dir_recursive mkdir
    hex_digit sha256_transform write_object
stored_abc = refl

abbrev after : Disk
after = (cas_store_blob_from_memory open_os root abc empty_disk).0

no_dir_abc : after.dirs (object_path root (hash_of abc)) ≡ false
unfolding cas_store_blob_from_memory make_object_path hex_encode sha256 ensure_dir_recursive mkdir
    hex_digit sha256_transform write_object
no_dir_abc = refl

cas_store_blob_from_memory-some_example :
    (hash_of abc ≡ hash_of abc)
    × ((c : List ℕ) × (after.files (object_path root (hash_of abc)) ≡ some c)
        × (hash_of c ≡ hash_of abc)
        × (empty_disk.files (object_path root (hash_of abc)) ≡ none → c ≡ abc))
cas_store_blob_from_memory-some_example =
    cas_store_blob_from_memory-some open_os root (omega arith) abc refl empty_disk IsSound-empty
      stored_abc no_dir_abc

restored_abc : (cas_restore_blob_to_file open_os root (hash_of abc) (codes "out") after).1 ≡ true
unfolding cas_store_blob_from_memory make_object_path hex_encode sha256 ensure_dir_recursive mkdir
    hex_digit sha256_transform write_object cas_restore_blob_to_file copy_file
restored_abc = refl

not_out : str_eq (object_path root (hash_of abc)) (codes "out") ≡ false
unfolding hex_encode sha256 hex_digit sha256_transform
not_out = refl

restore-store_example :
    (cas_restore_blob_to_file open_os root (hash_of abc) (codes "out") after).0.files (codes "out")
    ≡ some abc
restore-store_example =
    restore-store open_os open_os root abc (codes "out") empty_disk (hash_of abc) (omega arith) refl
      refl not_out IsSound-empty refl stored_abc no_dir_abc restored_abc

-- A disk with one file in it.
abbrev pub one_file : Disk
one_file = record empty_disk { files = put_file (codes "in") (some abc) (λ _. none) }

copied : (copy_file open_os (codes "in") (codes "out") one_file).1 ≡ true
unfolding copy_file
copied = refl

made_path :
    (make_object_path quiet_os root (hash_of abc) one_file).1
    ≡ some (object_path root (hash_of abc))
unfolding cas_store_blob_from_file make_object_path hex_encode sha256 ensure_dir_recursive mkdir
    hex_digit sha256_transform copy_file
made_path = refl

new_object :
    file_exists
      (make_object_path quiet_os root (hash_of abc) one_file).0
      (object_path root (hash_of abc))
    ≡ false
unfolding make_object_path hex_encode sha256 ensure_dir_recursive mkdir hex_digit sha256_transform
new_object = refl

abbrev torn : Disk
torn = (cas_store_blob_from_file quiet_os root (codes "in") one_file).0

made_again :
    (make_object_path open_os root (hash_of abc) torn).1 ≡ some (object_path root (hash_of abc))
unfolding cas_store_blob_from_file make_object_path hex_encode sha256 ensure_dir_recursive mkdir
    hex_digit sha256_transform copy_file
made_again = refl

other_path : str_eq (codes "in") (object_path root (hash_of abc)) ≡ false
unfolding hex_encode sha256 hex_digit sha256_transform
other_path = refl

cas_store_blob_from_file_torn_example :
    ((cas_store_blob_from_file quiet_os root (codes "in") one_file).1 ≡ some (hash_of abc))
    × ((cas_store_blob_from_file open_os root (codes "in") torn).1 ≡ some (hash_of abc))
    × ((cas_store_blob_from_file open_os root (codes "in") torn).0.files
          (object_path root (hash_of abc))
        ≡ some (codes "a"))
cas_store_blob_from_file_torn_example =
    cas_store_blob_from_file_torn quiet_os open_os root (codes "in") abc one_file 1 refl refl refl
      made_path new_object refl refl (omega arith) other_path made_again

new_place :
    (make_object_path quiet_os root (hash_of abc) empty_disk).1
    ≡ some (object_path root (hash_of abc))
unfolding make_object_path hex_encode sha256 ensure_dir_recursive mkdir hex_digit sha256_transform
new_place = refl

no_object :
    file_exists
      (make_object_path quiet_os root (hash_of abc) empty_disk).0
      (object_path root (hash_of abc))
    ≡ false
unfolding make_object_path hex_encode sha256 ensure_dir_recursive mkdir hex_digit sha256_transform
no_object = refl

cas_store_blob_from_memory_torn_example :
    ((cas_store_blob_from_memory quiet_os root abc empty_disk).1 ≡ some (hash_of abc))
    × ((cas_store_blob_from_memory quiet_os root abc empty_disk).0.files
          (object_path root (hash_of abc))
        ≡ some (codes "a"))
cas_store_blob_from_memory_torn_example =
    cas_store_blob_from_memory_torn quiet_os root abc empty_disk 1 new_place no_object (omega arith)
      refl refl refl refl
