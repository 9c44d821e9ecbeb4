-- ===== src/Sha/Fips.antt =====
-- SHA-256 as FIPS 180-4 describes it, written out without the routines of cas.c: the constants, the
-- functions of section 4.1.2, the padding of 5.1.1 and the computation of 6.2.2. It models no code.
use Prim.Native.Nat.{bit_and, bit_or, bit_xor}
use repro_vm_virtual_machine.Prelude.{
  ◌/◌, ◌%◌, ◌^◌, replicate, take, drop, get_or, ℕ, zero, suc, ◌+◌, ◌-◌, ◌*◌, ◌++◌, ◌∷◌, [], List,
  length,
}
use repro_vm_virtual_machine.Sha.{Word, Regs}

abbrev pub modulus : ℕ
modulus = 4294967296

-- The first 32 bits of the fractional parts of the cube roots of the first 64 primes: each is the
-- number below with p * 2^96 between its cube and the next one, modulo 2^32.
abbrev pub fips_k : List Word
fips_k =
    1116352408 ∷ 1899447441 ∷ 3049323471 ∷ 3921009573 ∷ 961987163 ∷ 1508970993 ∷ 2453635748
    ∷ 2870763221 ∷ 3624381080 ∷ 310598401 ∷ 607225278 ∷ 1426881987 ∷ 1925078388 ∷ 2162078206
    ∷ 2614888103 ∷ 3248222580 ∷ 3835390401 ∷ 4022224774 ∷ 264347078 ∷ 604807628 ∷ 770255983
    ∷ 1249150122 ∷ 1555081692 ∷ 1996064986 ∷ 2554220882 ∷ 2821834349 ∷ 2952996808 ∷ 3210313671
    ∷ 3336571891 ∷ 3584528711 ∷ 113926993 ∷ 338241895 ∷ 666307205 ∷ 773529912 ∷ 1294757372
    ∷ 1396182291 ∷ 1695183700 ∷ 1986661051 ∷ 2177026350 ∷ 2456956037 ∷ 2730485921 ∷ 2820302411
    ∷ 3259730800 ∷ 3345764771 ∷ 3516065817 ∷ 3600352804 ∷ 4094571909 ∷ 275423344 ∷ 430227734
    ∷ 506948616 ∷ 659060556 ∷ 883997877 ∷ 958139571 ∷ 1322822218 ∷ 1537002063 ∷ 1747873779
    ∷ 1955562222 ∷ 2024104815 ∷ 2227730452 ∷ 2361852424 ∷ 2428436474 ∷ 2756734187 ∷ 3204031479
    ∷ 3329325298 ∷ []

abbrev pub fips_rotr : ℕ → Word → Word
fips_rotr n x = bit_or (x / 2 ^ n) (x * 2 ^ (32 - n) % modulus)

abbrev pub fips_shr : ℕ → Word → Word
fips_shr n x = x / 2 ^ n

abbrev pub fips_ch : Word → Word → Word → Word
fips_ch x y z = bit_xor (bit_and x y) (bit_and (modulus - 1 - x) z)

abbrev pub fips_maj : Word → Word → Word → Word
fips_maj x y z = bit_xor (bit_xor (bit_and x y) (bit_and x z)) (bit_and y z)

abbrev pub big_sigma0 : Word → Word
big_sigma0 x = bit_xor (bit_xor (fips_rotr 2 x) (fips_rotr 13 x)) (fips_rotr 22 x)

abbrev pub big_sigma1 : Word → Word
big_sigma1 x = bit_xor (bit_xor (fips_rotr 6 x) (fips_rotr 11 x)) (fips_rotr 25 x)

abbrev pub sigma0 : Word → Word
sigma0 x = bit_xor (bit_xor (fips_rotr 7 x) (fips_rotr 18 x)) (fips_shr 3 x)

abbrev pub sigma1 : Word → Word
sigma1 x = bit_xor (bit_xor (fips_rotr 17 x) (fips_rotr 19 x)) (fips_shr 10 x)

-- A block as words of four bytes, the most significant first.
unfoldable pub fips_words : List ℕ → List Word
fips_words (b0 ∷ b1 ∷ b2 ∷ b3 ∷ rest) =
    bit_or (bit_or (bit_or (b0 * 2 ^ 24) (b1 * 2 ^ 16)) (b2 * 2 ^ 8)) b3 ∷ fips_words rest
fips_words _ = []

-- The message schedule from W_t on.
unfoldable pub fips_schedule : ℕ → ℕ → List Word → List Word
fips_schedule zero t w = w
fips_schedule (suc n) t w = fips_schedule n (t + 1) (
    w
    ++ (sigma1 (get_or w (t - 2) 0)
          + get_or w (t - 7) 0
          + sigma0 (get_or w (t - 15) 0)
          + get_or w (t - 16) 0)
        % modulus
      ∷ [])

abbrev pub fips_round : Regs → Word → Word → Regs
fips_round r kt wt =
    let t1 = (r.h + big_sigma1 r.e + fips_ch r.e r.f r.g + kt + wt) % modulus in
    let t2 = (big_sigma0 r.a + fips_maj r.a r.b r.c) % modulus in
    record {
      a = (t1 + t2) % modulus;
      b = r.a;
      c = r.b;
      d = r.c;
      e = (r.d + t1) % modulus;
      f = r.e;
      g = r.f;
      h = r.g;
    }

unfoldable pub fips_rounds : List Word → List Word → Regs → Regs
fips_rounds (kt ∷ ks) (wt ∷ ws) r = fips_rounds ks ws (fips_round r kt wt)
fips_rounds _ _ r = r

abbrev pub fips_add : Regs → Regs → Regs
fips_add s r = record {
  a = (s.a + r.a) % modulus;
  b = (s.b + r.b) % modulus;
  c = (s.c + r.c) % modulus;
  d = (s.d + r.d) % modulus;
  e = (s.e + r.e) % modulus;
  f = (s.f + r.f) % modulus;
  g = (s.g + r.g) % modulus;
  h = (s.h + r.h) % modulus;
}

unfoldable pub fips_compress : Regs → List ℕ → Regs
fips_compress s block = fips_add s (fips_rounds fips_k (fips_schedule 48 16 (fips_words block)) s)

-- The fractional parts of the square roots of the first eight primes.
abbrev pub fips_initial : Regs
fips_initial = record {
  a = 1779033703;
  b = 3144134277;
  c = 1013904242;
  d = 2773480762;
  e = 1359893119;
  f = 2600822924;
  g = 528734635;
  h = 1541459225;
}

-- The last n bytes of a number, the most significant first.
abbrev pub big_endian : ℕ → ℕ → List ℕ
big_endian zero x = []
big_endian (suc n) x = big_endian n (x / 256) ++ x % 256 ∷ []

-- For a message of n bytes: a one bit, zeros up to eight bytes before the end of a block, and the
-- length in bits.
abbrev pub fips_padding : ℕ → List ℕ
fips_padding n = 0x80 ∷ (replicate ((119 - n % 64) % 64) 0 ++ big_endian 8 (n * 8))

abbrev pub fips_absorb : ℕ → Regs → List ℕ → Regs
fips_absorb zero s m = s
fips_absorb (suc n) s m = fips_absorb n (fips_compress s (take 64 m)) (drop 64 m)

abbrev pub fips_digest : Regs → List ℕ
fips_digest r =
    big_endian 4 r.a
    ++ (big_endian 4 r.b
        ++ (big_endian 4 r.c
            ++ (big_endian 4 r.d
                ++ (big_endian 4 r.e
                    ++ (big_endian 4 r.f ++ (big_endian 4 r.g ++ big_endian 4 r.h))))))

unfoldable pub fips_sha256 : List ℕ → List ℕ
fips_sha256 message =
    let padded = message ++ fips_padding (length message) in
    fips_digest (fips_absorb (length padded / 64) fips_initial padded)
