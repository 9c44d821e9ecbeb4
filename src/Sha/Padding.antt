-- ===== src/Sha/Padding.antt =====
-- The three calls as one pass over the padded message: padding, and the iteration over blocks of 64 bytes.
use repro_vm_virtual_machine.Prelude.{
  ◌%◌, ◌/◌, replicate, take, drop, ℕ, zero, suc, ◌+◌, ◌-◌, ◌*◌, ◌≤◌, ◌<◌, ◌++◌, ◌∷◌, [], List, true,
  false, refl, ◌≡◌, ◌∙◌, sym, arith, inl, inr, length, ap, ltb, length-append, length-replicate,
  compare_cases, take-append-drop, append_assoc, length-take, subst,
}
use repro_vm_virtual_machine.Sha.{
  Regs, Ctx, mask64, sha256_update, sha256_transform, initial, sha256_init, length_bytes,
  final_state, sha256, digest,
}
use repro_vm_virtual_machine.Sha.Stream.{update-append, update_block, Tracks, Tracks-sha256_update}

abbrev zeros : ℕ → List ℕ
zeros n = replicate n 0

-- For a message of n bytes: a one bit, zeros, and the length in bits.
abbrev pub padding : ℕ → List ℕ
padding n = 0x80 ∷ (replicate ((119 - n % 64) % 64) 0 ++ length_bytes (mask64 (n * 8)))

-- One application of `sha256_transform` to each block in turn.
abbrev pub absorb : ℕ → Regs → List ℕ → Regs
absorb zero s m = s
absorb (suc n) s m = absorb n (sha256_transform s (take 64 m)) (drop 64 m)

abbrev pub blockwise : List ℕ → List ℕ
blockwise message =
    let padded = message ++ padding (length message) in
    digest (absorb (length padded / 64) initial padded)

length-length_bytes : (n : ℕ) → length (length_bytes n) ≡ 8
unfolding length_bytes
length-length_bytes n = refl

zeros_add : (m n : ℕ) → zeros (m + n) ≡ zeros m ++ zeros n
zeros_add zero n = ap zeros (let e : 0 + n ≡ n = omega arith in e)
zeros_add (suc m) n =
    ap zeros (let e : suc m + n ≡ suc (m + n) = omega arith in e) ∙ ap (λ t. 0 ∷ t) (zeros_add m n)

-- Feeding the padding to `sha256_update` is what `sha256_final` does by hand.
final_short :
    (ctx : Ctx)
    → length ctx.block < 56
    → final_state ctx
      ≡ (sha256_update ctx (
          0x80
          ∷ (replicate (55 - length ctx.block) 0
              ++ length_bytes (mask64 (ctx.bitlen + length ctx.block * 8))))).state
unfolding final_state
final_short ctx h =
    let bits = length_bytes (mask64 (ctx.bitlen + length ctx.block * 8)) in
    let short : ltb (length ctx.block) 56 ≡ true = ground arith in
    rw short (
      sym (
        ap (λ (c : Ctx). c.state)
          (update_block ctx (0x80 ∷ (replicate (55 - length ctx.block) 0 ++ bits)) (omega arith) (
            omega (
              arith,
              length-append (replicate (55 - length ctx.block) 0) bits,
              length-replicate {A = ℕ} (55 - length ctx.block) 0,
              length-length_bytes (mask64 (ctx.bitlen + length ctx.block * 8)),
            )))))

final_long :
    (ctx : Ctx)
    → 56 ≤ length ctx.block
    → length ctx.block < 64
    → final_state ctx
      ≡ (sha256_update ctx (
          (0x80 ∷ zeros (63 - length ctx.block))
          ++ (zeros 56 ++ length_bytes (mask64 (ctx.bitlen + length ctx.block * 8))))).state
unfolding final_state
final_long ctx h k =
    let n = length ctx.block in
    let bits = length_bytes (mask64 (ctx.bitlen + n * 8)) in
    let long : ltb n 56 ≡ false = ground arith in
    let head = 0x80 ∷ zeros (63 - n) in
    let first =
      update_block ctx head (omega arith) (omega (arith, length-replicate {A = ℕ} (63 - n) 0)) in
    let mid = sha256_update ctx head in
    let empty : length mid.block ≡ 0 = ap (λ (c : Ctx). length c.block) first in
    let second = update_block mid (zeros 56 ++ bits) (omega arith) (
      omega (
        arith,
        empty,
        length-append (zeros 56) bits,
        length-replicate {A = ℕ} 56 0,
        length-length_bytes (mask64 (ctx.bitlen + n * 8)),
      )) in
    rw long (
      sym (
        ap (λ (c : Ctx). c.state) (update-append ctx head (zeros 56 ++ bits))
        ∙ ap (λ (c : Ctx). c.state) second
        ∙ ap (λ (c : Ctx). sha256_transform c.state (c.block ++ (zeros 56 ++ bits))) first))

-- For a context that has taken n bytes.
final_lem :
    (ctx : Ctx) (n : ℕ) → Tracks ctx n → final_state ctx ≡ (sha256_update ctx (padding n)).state
final_lem ctx n t =
    let m = length ctx.block in
    let bits : length_bytes (mask64 (ctx.bitlen + m * 8)) ≡ length_bytes (mask64 (n * 8)) =
      ap length_bytes t.bits in
    elim (compare_cases m 56) [
      | inl short ↦
          let pad : 55 - m ≡ (119 - n % 64) % 64 = omega (arith, t.begun) in
          final_short ctx short
          ∙ ap
              (λ z.
                (sha256_update ctx
                  (0x80 ∷ (zeros z ++ length_bytes (mask64 (ctx.bitlen + m * 8))))).state)
              pad
          ∙ ap (λ b. (sha256_update ctx (0x80 ∷ (zeros ((119 - n % 64) % 64) ++ b))).state) bits
      | inr rest ↦
          let long : 56 ≤ m = omega arith in
          let below : m < 64 = omega (arith, t.begun) in
          let pad : (119 - n % 64) % 64 ≡ (63 - m) + 56 = omega (arith, t.begun) in
          final_long ctx long below
          ∙ ap (λ b. (sha256_update ctx ((0x80 ∷ zeros (63 - m)) ++ (zeros 56 ++ b))).state) bits
          ∙ ap (λ z. (sha256_update ctx (0x80 ∷ z)).state)
              (sym (append_assoc (zeros (63 - m)) (zeros 56) (length_bytes (mask64 (n * 8)))))
          ∙ ap (λ z. (sha256_update ctx (0x80 ∷ (z ++ length_bytes (mask64 (n * 8))))).state)
              (sym (ap zeros pad ∙ zeros_add (63 - m) 56))
    ]

-- A whole number of blocks, from an empty block.
absorb-update :
    (n : ℕ) (ctx : Ctx) (m : List ℕ)
    → length ctx.block ≡ 0
    → length m ≡ 64 * n
    → (sha256_update ctx m).state ≡ absorb n ctx.state m
absorb-update zero ctx [] e h = unfold sha256_update in refl
absorb-update zero ctx (x ∷ m) e h = absurd (omega arith)
absorb-update (suc n) ctx m e h =
    let head = take 64 m in
    let tail = drop 64 m in
    let cut = take-append-drop 64 m in
    let long : length head ≡ 64 = omega (arith, length-take 64 m) in
    let first = update_block ctx head (omega arith) (omega arith) in
    let mid = sha256_update ctx head in
    ap (λ l. (sha256_update ctx l).state) (sym cut)
    ∙ ap (λ (c : Ctx). c.state) (update-append ctx head tail)
    ∙ absorb-update n mid tail (ap (λ (c : Ctx). length c.block) first)
        (omega (arith, ap length cut, length-append head tail))
    ∙ ap (λ (c : Ctx). absorb n c.state tail) first
    ∙ ap (λ b. absorb n (sha256_transform ctx.state (b ++ head)) tail) (nil_of_length ctx.block e)
  where
    nil_of_length : (l : List ℕ) → length l ≡ 0 → l ≡ []
    nil_of_length [] q = refl
    nil_of_length (x ∷ l) q = absurd (omega arith)

length-padding : (n : ℕ) → (n + length (padding n)) % 64 ≡ 0
length-padding n = omega (
  arith,
  length-append (zeros ((119 - n % 64) % 64)) (length_bytes (mask64 (n * 8))),
  length-replicate {A = ℕ} ((119 - n % 64) % 64) 0,
  length-length_bytes (mask64 (n * 8)),
)

init-Tracks : Tracks sha256_init 0
unfolding sha256_init
init-Tracks = record { begun = refl; bits = refl }

-- Init, update and final on a message: pad it to a whole number of blocks and apply the transform to
-- each block in turn.
pub sha256-padded : (message : List ℕ) → sha256 message ≡ blockwise message
unfolding sha256
sha256-padded message =
    let n = length message in
    let ctx = sha256_update sha256_init message in
    let tracks : Tracks ctx n =
      subst (Tracks ctx) (let e : n + 0 ≡ n = omega arith in e)
        (Tracks-sha256_update sha256_init message 0 init-Tracks) in
    let padded = message ++ padding n in
    ap digest (
      final_lem ctx n tracks
      ∙ ap (λ (c : Ctx). c.state) (sym (update-append sha256_init message (padding n)))
      ∙ absorb-update (length padded / 64) sha256_init padded refl
          (omega (arith, length-append message (padding n), length-padding n)))
