-- ===== src/Sha/Standard.antt =====
-- The routines of cas.c against SHA-256 as Sha.Fips describes it.
use Prim.Native.Nat.{bit_or}
use repro_vm_virtual_machine.Prelude.{
  ◌/◌, ◌%◌, ◌^◌, replicate, take, drop, get_or, ℕ, zero, suc, ◌+◌, ◌-◌, ◌*◌, ◌++◌, ◌∷◌, [], List,
  refl, ◌≡◌, ◌∙◌, arith, length, ap,
}
use repro_vm_virtual_machine.Sha.{
  Word, Regs, sha256, mask32, word_bytes, sha256_transform, rounds, schedule, words, round, k, rotr,
  small0, small1, initial, length_bytes, mask64, digest,
}
use repro_vm_virtual_machine.Sha.Fips.{
  modulus, fips_k, sigma0, sigma1, fips_words, fips_schedule, fips_round, fips_rounds, fips_add,
  fips_compress, big_endian, fips_padding, fips_absorb, fips_digest, fips_sha256,
}
use repro_vm_virtual_machine.Sha.Padding.{padding, absorb, sha256-padded}

words-fips : (block : List ℕ) → words block ≡ fips_words block
unfolding words fips_words
words-fips (b0 ∷ b1 ∷ b2 ∷ b3 ∷ rest) =
    ap (λ ws. bit_or (bit_or (bit_or (b0 * 16777216) (b1 * 65536)) (b2 * 256)) b3 ∷ ws)
      (words-fips rest)
words-fips (b0 ∷ b1 ∷ b2 ∷ []) = refl
words-fips (b0 ∷ b1 ∷ []) = refl
words-fips (b0 ∷ []) = refl
words-fips [] = refl

sum_mod : (a b c d : ℕ) → (a + b + c + d) % modulus ≡ (d + c + b + a) % modulus
sum_mod a b c d = ap (λ x. x % modulus) (omega arith)

schedule-fips : (n t : ℕ) (w : List Word) → schedule n t w ≡ fips_schedule n t w
unfolding schedule fips_schedule small0 small1 rotr
schedule-fips zero t w = refl
schedule-fips (suc n) t w =
    schedule-fips n (t + 1) (
      w
      ++ mask32 (
          get_or w (t - 16) 0
          + small0 (get_or w (t - 15) 0)
          + get_or w (t - 7) 0
          + small1 (get_or w (t - 2) 0))
        ∷ [])
    ∙ ap (λ x. fips_schedule n (t + 1) (w ++ x ∷ []))
        (sum_mod (get_or w (t - 16) 0) (sigma0 (get_or w (t - 15) 0)) (get_or w (t - 7) 0)
          (sigma1 (get_or w (t - 2) 0)))

rounds-fips : (ks ws : List Word) (r : Regs) → rounds ks ws r ≡ fips_rounds ks ws r
unfolding rounds fips_rounds round rotr
rounds-fips [] ws r = refl
rounds-fips (kt ∷ ks) [] r = refl
rounds-fips (kt ∷ ks) (wt ∷ ws) r = rounds-fips ks ws (fips_round r kt wt)

-- The compression function of cas.c.
sha256_transform-fips :
    (s : Regs) (block : List ℕ) → sha256_transform s block ≡ fips_compress s block
unfolding sha256_transform fips_compress
sha256_transform-fips s block =
    let e : rounds k (schedule 48 16 (words block)) s
        ≡ fips_rounds fips_k (fips_schedule 48 16 (fips_words block)) s =
      rounds-fips fips_k (schedule 48 16 (words block)) s
      ∙ ap (λ ws. fips_rounds fips_k ws s)
          (schedule-fips 48 16 (words block)
            ∙ ap (λ ws. fips_schedule 48 16 ws) (words-fips block)) in
    ap (λ (r : Regs). fips_add s r) e

absorb-fips : (n : ℕ) (s : Regs) (m : List ℕ) → absorb n s m ≡ fips_absorb n s m
absorb-fips zero s m = refl
absorb-fips (suc n) s m =
    absorb-fips n (sha256_transform s (take 64 m)) (drop 64 m)
    ∙ ap (λ x. fips_absorb n x (drop 64 m)) (sha256_transform-fips s (take 64 m))

eq8 :
    {a b c d e f g h a' b' c' d' e' f' g' h' : ℕ}
    → a ≡ a'
    → b ≡ b'
    → c ≡ c'
    → d ≡ d'
    → e ≡ e'
    → f ≡ f'
    → g ≡ g'
    → h ≡ h'
    → ◌≡◌ {A = List ℕ}
        (a ∷ b ∷ c ∷ d ∷ e ∷ f ∷ g ∷ h ∷ [])
        (a' ∷ b' ∷ c' ∷ d' ∷ e' ∷ f' ∷ g' ∷ h' ∷ [])
eq8 p q r s t u v w = rw (p, q, r, s, t, u, v, w) refl

length_bytes-fips : (n : ℕ) → length_bytes (mask64 n) ≡ big_endian 8 n
unfolding length_bytes
length_bytes-fips n =
    eq8 (omega arith) (omega arith) (omega arith) (omega arith) (omega arith) (omega arith)
      (omega arith) (omega arith)

word_bytes-fips : (w : Word) → word_bytes w ≡ big_endian 4 w
word_bytes-fips w =
    let high : w / 2 ^ 24 % 256 ≡ w / 256 / 256 / 256 % 256 = omega arith in
    let mid : w / 2 ^ 16 % 256 ≡ w / 256 / 256 % 256 = omega arith in rw (high, mid) refl

digest-fips : (r : Regs) → digest r ≡ fips_digest r
digest-fips r = cc (
  word_bytes-fips r.a,
  word_bytes-fips r.b,
  word_bytes-fips r.c,
  word_bytes-fips r.d,
  word_bytes-fips r.e,
  word_bytes-fips r.f,
  word_bytes-fips r.g,
  word_bytes-fips r.h,
)

-- For every message, of any length, the digest that init, update and final compute is the one that
-- FIPS 180-4 defines, with the length of the message counted modulo 2^64 bits.
pub sha256-fips_sha256 : (message : List ℕ) → sha256 message ≡ fips_sha256 message
unfolding fips_sha256
sha256-fips_sha256 message =
    let n = length message in
    let pad : padding n ≡ fips_padding n =
      ap (λ bits. 0x80 ∷ (replicate ((119 - n % 64) % 64) 0 ++ bits)) (length_bytes-fips (n * 8)) in
    let padded = message ++ fips_padding n in
    sha256-padded message
    ∙ ap (λ p. digest (absorb (length (message ++ p) / 64) initial (message ++ p))) pad
    ∙ digest-fips (absorb (length padded / 64) initial padded)
    ∙ ap fips_digest (absorb-fips (length padded / 64) initial padded)
