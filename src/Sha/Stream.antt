-- ===== src/Sha/Stream.antt =====
-- How `sha256_update` cuts its input: in any portions, with any block already begun.
use repro_vm_virtual_machine.Prelude.{
  ◌%◌, ℕ, suc, ◌+◌, ◌*◌, ◌<◌, ◌==◌, ◌++◌, ◌∷◌, [], List, true, false, refl, ◌≡◌, ◌≢◌, ◌∙◌, sym,
  arith, inl, inr, Bool-cases, length, length-append, ap, subst, append-nil, append_assoc,
}
use repro_vm_virtual_machine.Sha.{Ctx, mask64, update_byte, sha256_update, sha256_transform}

pub update-append :
    (ctx : Ctx) (xs ys : List ℕ)
    → sha256_update ctx (xs ++ ys) ≡ sha256_update (sha256_update ctx xs) ys
unfolding sha256_update
update-append ctx [] ys = refl
update-append ctx (x ∷ xs) ys = update-append (update_byte ctx x) xs ys

byte_open :
    (ctx : Ctx) (x : ℕ)
    → length ctx.block + 1 < 64
    → update_byte ctx x ≡ record ctx { block = ctx.block ++ x ∷ [] }
unfolding update_byte
byte_open ctx x h =
    let off : (length (ctx.block ++ x ∷ []) == 64) ≡ false =
      ground (arith, length-append ctx.block (x ∷ [])) in
    rw off refl

byte_full :
    (ctx : Ctx) (x : ℕ)
    → length ctx.block + 1 ≡ 64
    → update_byte ctx x ≡ record {
      block = [];
      bitlen = mask64 (ctx.bitlen + 512);
      state = sha256_transform ctx.state (ctx.block ++ x ∷ []);
    }
unfolding update_byte
byte_full ctx x h =
    let on : (length (ctx.block ++ x ∷ []) == 64) ≡ true =
      ground (arith, length-append ctx.block (x ∷ [])) in
    rw on refl

update_cons :
    (ctx : Ctx) (x : ℕ) (xs : List ℕ)
    → sha256_update ctx (x ∷ xs) ≡ sha256_update (update_byte ctx x) xs
unfolding sha256_update
update_cons ctx x xs = refl

-- Bytes that do not fill the block are kept in it.
pub update_fill :
    (ctx : Ctx) (xs : List ℕ)
    → length ctx.block + length xs < 64
    → sha256_update ctx xs ≡ record ctx { block = ctx.block ++ xs }
update_fill ctx [] h =
    unfold sha256_update in ap (λ b. record ctx { block = b }) (sym (append-nil ctx.block))
update_fill ctx (x ∷ xs) h =
    update_cons ctx x xs
    ∙ ap (λ c. sha256_update c xs) (byte_open ctx x (omega arith))
    ∙ update_fill (record ctx { block = ctx.block ++ x ∷ [] }) xs
        (omega (arith, length-append ctx.block (x ∷ [])))
    ∙ ap (λ b. record ctx { block = b }) (append_assoc ctx.block (x ∷ []) xs)

-- Bytes that complete the block are transformed with it.
pub update_block :
    (ctx : Ctx) (xs : List ℕ)
    → length ctx.block < 64
    → length ctx.block + length xs ≡ 64
    → sha256_update ctx xs ≡ record {
      block = [];
      bitlen = mask64 (ctx.bitlen + 512);
      state = sha256_transform ctx.state (ctx.block ++ xs);
    }
update_block ctx [] h e = absurd (omega arith)
update_block ctx (x ∷ []) h e =
    update_cons ctx x []
    ∙ ap (λ c. sha256_update c []) (byte_full ctx x (omega arith))
    ∙ unfold sha256_update in refl
update_block ctx (x ∷ y ∷ xs) h e =
    update_cons ctx x (y ∷ xs)
    ∙ ap (λ c. sha256_update c (y ∷ xs)) (byte_open ctx x (omega arith))
    ∙ update_block (record ctx { block = ctx.block ++ x ∷ [] }) (y ∷ xs)
        (omega (arith, length-append ctx.block (x ∷ [])))
        (omega (arith, length-append ctx.block (x ∷ [])))
    ∙ ap
        (λ b. record {
          block = [];
          bitlen = mask64 (ctx.bitlen + 512);
          state = sha256_transform ctx.state b;
        })
        (append_assoc ctx.block (x ∷ []) (y ∷ xs))

-- What the context says of a message of n bytes.
pub record Tracks (ctx : Ctx) (n : ℕ) : Type 0 where
  pub begun : length ctx.block ≡ n % 64
  pub bits : mask64 (ctx.bitlen + length ctx.block * 8) ≡ mask64 (n * 8)

Tracks-update_byte : (ctx : Ctx) (x n : ℕ) → Tracks ctx n → Tracks (update_byte ctx x) (suc n)
Tracks-update_byte ctx x n t = elim (Bool-cases (length ctx.block + 1 == 64)) [
  | inl full ↦ rw (byte_full ctx x (ground arith)) (
      let e : length ctx.block + 1 ≡ 64 = ground arith in
      record { begun = omega (arith, t.begun); bits = omega (arith, t.begun, t.bits) })
  | inr room ↦
      let e : length ctx.block + 1 ≢ 64 = ground arith in
      rw (byte_open ctx x (omega (arith, t.begun, e))) (record {
        begun = omega (arith, t.begun, length-append ctx.block (x ∷ []), e);
        bits = omega (arith, t.bits, length-append ctx.block (x ∷ []));
      })
]

-- After `sha256_update` from a fresh context the block holds the bytes past the last multiple of
-- 64, and `bitlen` counts the others, both for a message of any length.
pub Tracks-sha256_update :
    (ctx : Ctx) (xs : List ℕ) (n : ℕ) → Tracks ctx n → Tracks (sha256_update ctx xs) (length xs + n)
Tracks-sha256_update ctx [] n t =
    unfold sha256_update in subst (Tracks ctx) (let e : n ≡ 0 + n = omega arith in e) t
Tracks-sha256_update ctx (x ∷ xs) n t = rw (update_cons ctx x xs) (
    subst (Tracks (sha256_update (update_byte ctx x) xs))
      (let e : length xs + suc n ≡ suc (length xs) + n = omega arith in e)
      (Tracks-sha256_update (update_byte ctx x) xs (suc n) (Tracks-update_byte ctx x n t)))
