-- ===== src/Exec/Key.antt =====
-- `compute_task_hash` looks at the number of dependencies, not at what they are.
use repro_vm_virtual_machine.Exec.{
  compute_task_hash, Os, comma, Task, Disk, store_inputs, hex_encode, sha256,
}
use repro_vm_virtual_machine.CacheKey.{placeholders, key_text}
use repro_vm_virtual_machine.Prelude.{
  ◌∷◌, [], List, none, some, Option, refl, ◌≡◌, ◌∙◌, sym, arith, inl, inr, Option-cases, length,
  Text, ap,
}

placeholders_eq : (ds es : List Text) → length ds ≡ length es → placeholders ds ≡ placeholders es
placeholders_eq [] [] h = refl
placeholders_eq [] (e ∷ es) h = absurd (omega arith)
placeholders_eq (d ∷ ds) [] h = absurd (omega arith)
placeholders_eq (d ∷ []) (e ∷ []) h = refl
placeholders_eq (d ∷ []) (e ∷ e' ∷ es) h = absurd (omega arith)
placeholders_eq (d ∷ d' ∷ ds) (e ∷ []) h = absurd (omega arith)
placeholders_eq (d ∷ d' ∷ ds) (e ∷ e' ∷ es) h =
    ap (λ l. comma ∷ l) (placeholders_eq (d' ∷ ds) (e' ∷ es) (omega arith))

key_text-deps :
    (cmd : Option Text) (xs ds es : List Text)
    → length ds ≡ length es
    → key_text cmd xs ds ≡ key_text cmd xs es
unfolding key_text
key_text-deps cmd xs ds es h = rw (placeholders_eq ds es h) refl

-- The hash of a task does not depend on which dependencies it has nor on their results, only on
-- how many there are: with other `deps` of the same number, `compute_task_hash` computes the same
-- hash on the same disk.
pub compute_task_hash-deps :
    (os : Os) (objects_root cache_root : Text) (t t' u' : Task) (ds : List Text) (d : Disk)
    → length ds ≡ length t.deps
    → (compute_task_hash os objects_root cache_root t d).1 ≡ some t'
    → (compute_task_hash os objects_root cache_root (record t { deps = ds }) d).1 ≡ some u'
    → u'.task_hash ≡ t'.task_hash
unfolding compute_task_hash
compute_task_hash-deps os objects_root cache_root t t' u' ds d same h k =
    elim (Option-cases (store_inputs os objects_root cache_root t.inputs d).1) [
      | inl e ↦ cc (rw (e, compute_task_hash) at h)
      | inr (hashes, e) ↦
          let h' = ap (λ (r : Option Task). hash_in r) (rw (e, compute_task_hash) at h) in
          let k' = ap (λ (r : Option Task). hash_in r) (rw (e, compute_task_hash) at k) in
          sym k'
          ∙ (ap (λ x. some (hex_encode (sha256 x))) (key_text-deps t.cmd hashes ds t.deps same)
              ∙ h')
    ]
  where
    hash_in : Option Task → Option Text
    hash_in none = none
    hash_in (some t) = t.task_hash
