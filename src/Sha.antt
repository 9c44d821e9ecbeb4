-- ===== src/Sha.antt =====
-- The SHA-256 routines of cas.c. The struct SHA256_CTX is declared in no file of the repository:
-- its fields are taken as the routines use them, `bitlen` with 64 bits. `data[0 .. datalen)` is the
-- list `block`: the rest of the buffer is overwritten before it is read.
pub mod Stream
pub mod Padding
pub mod Fips
pub mod Standard
use Prim.Native.Nat.{bit_and, bit_or, bit_xor}
use repro_vm_virtual_machine.Prelude.{
  ◌/◌, ◌%◌, ◌^◌, get_or, replicate, map, ℕ, zero, suc, ◌+◌, ◌-◌, ◌*◌, ◌≤◌, ◌<◌, if◌then◌else◌, ◌==◌,
  ◌++◌, ◌∷◌, [], List, true, false, Bool, ◌&&◌, ◌||◌, none, some, Option, refl, ◌≡◌, ◌≢◌, ◌∙◌, sym,
  arith, inl, inr, ◌⊎◌, ◌↔◌, Bool-cases, Option-cases, List-cases, length, Text, mem, count, All,
  ltb,
}

abbrev pub Word : Type 0
Word = ℕ

abbrev pub mask32 : ℕ → Word
mask32 x = x % 4294967296

-- The table `k`.
abbrev pub k : List Word
k =
    0x428a2f98 ∷ 0x71374491 ∷ 0xb5c0fbcf ∷ 0xe9b5dba5 ∷ 0x3956c25b ∷ 0x59f111f1 ∷ 0x923f82a4
    ∷ 0xab1c5ed5 ∷ 0xd807aa98 ∷ 0x12835b01 ∷ 0x243185be ∷ 0x550c7dc3 ∷ 0x72be5d74 ∷ 0x80deb1fe
    ∷ 0x9bdc06a7 ∷ 0xc19bf174 ∷ 0xe49b69c1 ∷ 0xefbe4786 ∷ 0x0fc19dc6 ∷ 0x240ca1cc ∷ 0x2de92c6f
    ∷ 0x4a7484aa ∷ 0x5cb0a9dc ∷ 0x76f988da ∷ 0x983e5152 ∷ 0xa831c66d ∷ 0xb00327c8 ∷ 0xbf597fc7
    ∷ 0xc6e00bf3 ∷ 0xd5a79147 ∷ 0x06ca6351 ∷ 0x14292967 ∷ 0x27b70a85 ∷ 0x2e1b2138 ∷ 0x4d2c6dfc
    ∷ 0x53380d13 ∷ 0x650a7354 ∷ 0x766a0abb ∷ 0x81c2c92e ∷ 0x92722c85 ∷ 0xa2bfe8a1 ∷ 0xa81a664b
    ∷ 0xc24b8b70 ∷ 0xc76c51a3 ∷ 0xd192e819 ∷ 0xd6990624 ∷ 0xf40e3585 ∷ 0x106aa070 ∷ 0x19a4c116
    ∷ 0x1e376c08 ∷ 0x2748774c ∷ 0x34b0bcb5 ∷ 0x391c0cb3 ∷ 0x4ed8aa4a ∷ 0x5b9cca4f ∷ 0x682e6ff3
    ∷ 0x748f82ee ∷ 0x78a5636f ∷ 0x84c87814 ∷ 0x8cc70208 ∷ 0x90befffa ∷ 0xa4506ceb ∷ 0xbef9a3f7
    ∷ 0xc67178f2 ∷ []

unfoldable pub rotr : Word → ℕ → Word
rotr x n = bit_or (x / 2 ^ n) (mask32 (x * 2 ^ (32 - n)))

-- `ctx->state`, and the variables a to h of the rounds.
pub record Regs : Type 0 where
  pub a : Word
  pub b : Word
  pub c : Word
  pub d : Word
  pub e : Word
  pub f : Word
  pub g : Word
  pub h : Word

-- m[0 .. 16): big-endian words of the block.
unfoldable pub words : List ℕ → List Word
words (b0 ∷ b1 ∷ b2 ∷ b3 ∷ rest) =
    bit_or (bit_or (bit_or (b0 * 16777216) (b1 * 65536)) (b2 * 256)) b3 ∷ words rest
words _ = []

unfoldable pub small0 : Word → Word
unfolding rotr
small0 x = bit_xor (bit_xor (rotr x 7) (rotr x 18)) (x / 8)

unfoldable pub small1 : Word → Word
unfolding rotr
small1 x = bit_xor (bit_xor (rotr x 17) (rotr x 19)) (x / 1024)

-- m[i] for i from 16 on, until `n` more words stand in the list.
unfoldable pub schedule : ℕ → ℕ → List Word → List Word
unfolding small0 small1
schedule zero i m = m
schedule (suc n) i m = schedule n (i + 1) (
    m
    ++ mask32 (
        get_or m (i - 16) 0
        + small0 (get_or m (i - 15) 0)
        + get_or m (i - 7) 0
        + small1 (get_or m (i - 2) 0))
      ∷ [])

-- One round with the words k[i] and m[i].
unfoldable pub round : Regs → Word → Word → Regs
unfolding rotr
round r ki mi =
    let s1 = bit_xor (bit_xor (rotr r.e 6) (rotr r.e 11)) (rotr r.e 25) in
    let ch = bit_xor (bit_and r.e r.f) (bit_and (4294967295 - r.e) r.g) in
    let temp1 = mask32 (r.h + s1 + ch + ki + mi) in
    let s0 = bit_xor (bit_xor (rotr r.a 2) (rotr r.a 13)) (rotr r.a 22) in
    let maj = bit_xor (bit_xor (bit_and r.a r.b) (bit_and r.a r.c)) (bit_and r.b r.c) in
    let temp2 = mask32 (s0 + maj) in
    record {
      a = mask32 (temp1 + temp2);
      b = r.a;
      c = r.b;
      d = r.c;
      e = mask32 (r.d + temp1);
      f = r.e;
      g = r.f;
      h = r.g;
    }

unfoldable pub rounds : List Word → List Word → Regs → Regs
unfolding round
rounds (ki ∷ ks) (mi ∷ ms) r = rounds ks ms (round r ki mi)
rounds _ _ r = r

unfoldable pub sha256_transform : Regs → List ℕ → Regs
unfolding rounds schedule words
sha256_transform s block =
    let t = rounds k (schedule 48 16 (words block)) s in
    record {
      a = mask32 (s.a + t.a);
      b = mask32 (s.b + t.b);
      c = mask32 (s.c + t.c);
      d = mask32 (s.d + t.d);
      e = mask32 (s.e + t.e);
      f = mask32 (s.f + t.f);
      g = mask32 (s.g + t.g);
      h = mask32 (s.h + t.h);
    }

pub record Ctx : Type 0 where
  pub block : List ℕ
  pub bitlen : ℕ
  pub state : Regs

abbrev pub initial : Regs
initial = record {
  a = 0x6a09e667;
  b = 0xbb67ae85;
  c = 0x3c6ef372;
  d = 0xa54ff53a;
  e = 0x510e527f;
  f = 0x9b05688c;
  g = 0x1f83d9ab;
  h = 0x5be0cd19;
}

unfoldable pub sha256_init : Ctx
sha256_init = record { block = []; bitlen = 0; state = initial }

abbrev pub mask64 : ℕ → ℕ
mask64 x = x % 18446744073709551616

-- The body of the loop in `sha256_update`.
unfoldable pub update_byte : Ctx → ℕ → Ctx
update_byte ctx b =
    let block = ctx.block ++ b ∷ [] in
    if length block == 64
    then record {
      block = [];
      bitlen = mask64 (ctx.bitlen + 512);
      state = sha256_transform ctx.state block;
    }
    else record ctx { block = block }

unfoldable pub sha256_update : Ctx → List ℕ → Ctx
unfolding update_byte
sha256_update ctx [] = ctx
sha256_update ctx (b ∷ bs) = sha256_update (update_byte ctx b) bs

-- data[56 .. 64): `bitlen`, the most significant byte first.
unfoldable pub length_bytes : ℕ → List ℕ
length_bytes n =
    n / 2 ^ 56 % 256
    ∷ n / 2 ^ 48 % 256
    ∷ n / 2 ^ 40 % 256
    ∷ n / 2 ^ 32 % 256
    ∷ n / 2 ^ 24 % 256
    ∷ n / 2 ^ 16 % 256
    ∷ n / 2 ^ 8 % 256
    ∷ n % 256
    ∷ []

-- The padding and the last transforms of `sha256_final`.
unfoldable pub final_state : Ctx → Regs
unfolding length_bytes
final_state ctx =
    let bits = length_bytes (mask64 (ctx.bitlen + length ctx.block * 8)) in
    if ltb (length ctx.block) 56
    then sha256_transform ctx.state
        (ctx.block ++ (0x80 ∷ (replicate (55 - length ctx.block) 0 ++ bits)))
    else sha256_transform
        (sha256_transform ctx.state (ctx.block ++ (0x80 ∷ replicate (63 - length ctx.block) 0)))
        (replicate 56 0 ++ bits)

abbrev pub word_bytes : Word → List ℕ
word_bytes w = w / 2 ^ 24 % 256 ∷ w / 2 ^ 16 % 256 ∷ w / 2 ^ 8 % 256 ∷ w % 256 ∷ []

abbrev pub digest : Regs → List ℕ
digest r =
    word_bytes r.a
    ++ (word_bytes r.b
        ++ (word_bytes r.c
            ++ (word_bytes r.d
                ++ (word_bytes r.e ++ (word_bytes r.f ++ (word_bytes r.g ++ word_bytes r.h))))))

unfoldable pub sha256_final : Ctx → List ℕ
unfolding final_state
sha256_final ctx = digest (final_state ctx)

-- The three calls, as every caller makes them.
unfoldable pub sha256 : List ℕ → List ℕ
unfolding sha256_init sha256_update sha256_final
sha256 message = sha256_final (sha256_update sha256_init message)
