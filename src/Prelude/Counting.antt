-- ===== src/Prelude/Counting.antt =====
-- Membership tests and occurrence counts on lists of numbers, with the pigeonhole lemma.
use Prim.Native.Nat.{ℕ, suc, ◌+◌, ◌≤◌, ◌<◌}
use mathlib.Core.Path.{◌≡◌, refl}
use mathlib.Core.Bool.{Bool, true, false, ◌||◌}
use mathlib.Core.List.{List, [], ◌∷◌, ◌++◌}
use native.Mathlib.Omega.{arith}
use repro_vm_virtual_machine.Prelude.Tests.{◌==◌, if◌then◌else◌}
use repro_vm_virtual_machine.Prelude.Lists.{length}

abbrev pub mem : ℕ → List ℕ → Bool
mem a [] = false
mem a (x ∷ xs) = x == a || mem a xs

abbrev pub count : ℕ → List ℕ → ℕ
count a [] = 0
count a (x ∷ xs) = (if x == a then 1 else 0) + count a xs

-- No item twice.
abbrev pub IsNodup : List ℕ → Type 0
IsNodup xs = (a : ℕ) → count a xs ≤ 1

pub count_pos_of_mem : (a : ℕ) (xs : List ℕ) → mem a xs ≡ true → 0 < count a xs
count_pos_of_mem a [] h = ground arith
count_pos_of_mem a (x ∷ xs) h = ground (arith, count_pos_of_mem a xs)

pub count_zero_of_not_mem : (a : ℕ) (xs : List ℕ) → mem a xs ≡ false → count a xs ≡ 0
count_zero_of_not_mem a [] h = refl
count_zero_of_not_mem a (x ∷ xs) h = ground (arith, count_zero_of_not_mem a xs)

pub mem-append : (a : ℕ) (xs ys : List ℕ) → mem a (xs ++ ys) ≡ (mem a xs || mem a ys)
mem-append a [] ys = refl
mem-append a (x ∷ xs) ys = ground (arith, mem-append a xs ys)

-- Take the first occurrence out.
erase : ℕ → List ℕ → List ℕ
erase a [] = []
erase a (x ∷ xs) = if x == a then xs else x ∷ erase a xs

length-erase : (a : ℕ) (xs : List ℕ) → 0 < count a xs → suc (length (erase a xs)) ≡ length xs
unfolding erase
length-erase a [] h = absurd (omega arith)
length-erase a (x ∷ xs) h = ground (arith, length-erase a xs)

count-erase :
    (a b : ℕ) (xs : List ℕ)
    → 0 < count a xs
    → (if a == b then 1 else 0) + count b (erase a xs) ≡ count b xs
unfolding erase
count-erase a b [] h = absurd (omega arith)
count-erase a b (x ∷ xs) h = ground (arith, count-erase a b xs)

pub count-append :
    (item : ℕ) (front back : List ℕ)
    → count item (front ++ back) ≡ count item front + count item back
count-append item [] back = omega arith
count-append item (f ∷ front) back = omega (arith, count-append item front back)

-- The two lists hold the same items, as often.
abbrev pub SameItems : List ℕ → List ℕ → Type 0
SameItems xs ys = (a : ℕ) → count a xs ≡ count a ys

-- Pigeonhole: what occurs at most as often is at most as long.
pub length-le_of_count_le :
    (xs ys : List ℕ) → ((a : ℕ) → count a xs ≤ count a ys) → length xs ≤ length ys
length-le_of_count_le [] ys h = omega arith
length-le_of_count_le (x ∷ xs) ys h =
    let there : 0 < count x ys = ground (arith, h x) in
    let rest : length xs ≤ length (erase x ys) =
      length-le_of_count_le xs (erase x ys) (λ a. ground (arith, h a, count-erase x a ys there)) in
    omega (arith, length-erase x ys there)

-- At the same length, the counts agree.
pub SameItems-of_count_le :
    (xs ys : List ℕ) → ((a : ℕ) → count a xs ≤ count a ys) → length ys ≤ length xs → SameItems xs ys
SameItems-of_count_le [] [] h le a = refl
SameItems-of_count_le [] (y ∷ ys) h le a = absurd (omega arith)
SameItems-of_count_le (x ∷ xs) ys h le a =
    let there : 0 < count x ys = ground (arith, h x) in
    let rest : SameItems xs (erase x ys) =
      SameItems-of_count_le xs (erase x ys) (λ b. ground (arith, h b, count-erase x b ys there))
        (omega (arith, length-erase x ys there)) in
    ground (arith, rest a, count-erase x a ys there)
