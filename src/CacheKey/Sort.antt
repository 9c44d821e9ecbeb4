-- ===== src/CacheKey/Sort.antt =====
-- The exchange sort of the hashes is the sort by insertion, so the text does not depend on the order
-- of the inputs.
use repro_vm_virtual_machine.CacheKey.{text_gt, exchange, sort_rounds, sort_hashes, key_text}
use mathlib.Core.List.{Perm, Permᴰ}
use mathlib.Core.Logic.{∥∥₁_elim}
use repro_vm_virtual_machine.Prelude.{
  ℕ, zero, suc, ◌≤◌, if◌then◌else◌, ◌∷◌, [], List, true, false, Option, refl, ◌≡◌, ◌∙◌, sym, arith,
  inl, inr, Bool-cases, length, Text, ap,
}

-- The reference: insertion into a sorted list.
abbrev pub insert : Text → List Text → List Text
insert x [] = x ∷ []
insert x (y ∷ ys) = if text_gt y x then x ∷ y ∷ ys else y ∷ insert x ys

abbrev pub insert_all : List Text → List Text
insert_all [] = []
insert_all (x ∷ xs) = insert x (insert_all xs)

text_gt_asym : (a b : Text) → text_gt a b ≡ true → text_gt b a ≡ false
text_gt_asym [] b h = cc
text_gt_asym (x ∷ a) [] h = refl
text_gt_asym (x ∷ a) (y ∷ b) h = ground (arith, text_gt_asym a b)

text_gt_antisym : (a b : Text) → text_gt a b ≡ false → text_gt b a ≡ false → a ≡ b
text_gt_antisym [] [] h k = refl
text_gt_antisym [] (y ∷ b) h k = cc
text_gt_antisym (x ∷ a) [] h k = cc
text_gt_antisym (x ∷ a) (y ∷ b) h k =
    let same : x ≡ y = ground arith in
    let rest : a ≡ b = text_gt_antisym a b (ground arith) (ground arith) in cc

text_gt_refl : (a : Text) → text_gt a a ≡ false
text_gt_refl [] = refl
text_gt_refl (x ∷ a) = ground (arith, text_gt_refl a)

text_gt_trans : (a b c : Text) → text_gt b a ≡ true → text_gt b c ≡ false → text_gt c a ≡ true
text_gt_trans a [] c h k = cc
text_gt_trans [] (y ∷ b) [] h k = cc
text_gt_trans [] (y ∷ b) (z ∷ c) h k = refl
text_gt_trans (x ∷ a) (y ∷ b) [] h k = cc
text_gt_trans (x ∷ a) (y ∷ b) (z ∷ c) h k = ground (arith, text_gt_trans a b c)

text_le_trans : (a b c : Text) → text_gt a b ≡ false → text_gt b c ≡ false → text_gt a c ≡ false
text_le_trans a b c h k = elim (Bool-cases (text_gt a c)) [
  | inl e ↦ cc (text_gt_trans c a b e h, k)
  | inr e ↦ e
]

insert_two :
    (x y : Text) (zs : List Text)
    → (if text_gt y x then x ∷ y ∷ zs else y ∷ x ∷ zs)
      ≡ (if text_gt x y then y ∷ x ∷ zs else x ∷ y ∷ zs)
insert_two x y zs = elim (Bool-cases (text_gt x y)) [
  | inl e ↦ rw (e, text_gt_asym x y e) refl
  | inr e ↦ elim (Bool-cases (text_gt y x)) [
    | inl f ↦ rw (e, f) refl
    | inr f ↦ let same = text_gt_antisym x y e f in rw same refl
  ]
]

-- The order of two insertions does not matter.
insert_comm : (x y : Text) (zs : List Text) → insert x (insert y zs) ≡ insert y (insert x zs)
insert_comm x y [] = insert_two x y []
insert_comm x y (z ∷ zs) = elim (Bool-cases (text_gt z x)) [
  | inr e ↦ elim (Bool-cases (text_gt z y)) [
    | inr f ↦ rw (e, f) (rw e (ap (λ l. z ∷ l) (insert_comm x y zs)))
    | inl f ↦ let g = text_gt_asym x y (text_gt_trans y z x f e) in rw (e, f) (rw g (rw e refl))
  ]
  | inl e ↦ elim (Bool-cases (text_gt z y)) [
    | inr f ↦ let g = text_gt_asym y x (text_gt_trans x z y e f) in rw (e, f) (rw (g, e) refl)
    | inl f ↦ rw (e, f) (rw e (insert_two x y (z ∷ zs)))
  ]
]

exchange_least : (x : Text) (ys : List Text) → text_gt (exchange x ys).0 x ≡ false
unfolding exchange
exchange_least x [] = text_gt_refl x
exchange_least x (y ∷ ys) = elim (Bool-cases (text_gt x y)) [
  | inl e ↦ rw e (text_le_trans (exchange y ys).0 y x (exchange_least y ys) (text_gt_asym x y e))
  | inr e ↦ rw e (exchange_least x ys)
]

-- A round of the exchange sort moves a least hash to the front and keeps the others.
exchange_lem :
    (x : Text) (ys : List Text)
    → insert_all (x ∷ ys) ≡ (exchange x ys).0 ∷ insert_all (exchange x ys).1
unfolding exchange
exchange_lem x [] = refl
exchange_lem x (y ∷ ys) = elim (Bool-cases (text_gt x y)) [
  | inl e ↦
      let small = text_le_trans (exchange y ys).0 y x (exchange_least y ys) (text_gt_asym x y e) in
      rw e (ap (insert x) (exchange_lem y ys) ∙ rw small refl)
  | inr e ↦
      let small = text_le_trans (exchange x ys).0 x y (exchange_least x ys) e in
      rw e (insert_comm x y (insert_all ys) ∙ (ap (insert y) (exchange_lem x ys) ∙ rw small refl))
]

length-exchange : (x : Text) (ys : List Text) → length (exchange x ys).1 ≡ length ys
unfolding exchange
length-exchange x [] = refl
length-exchange x (y ∷ ys) = elim (Bool-cases (text_gt x y)) [
  | inl e ↦ rw e (ap suc (length-exchange y ys))
  | inr e ↦ rw e (ap suc (length-exchange x ys))
]

sort_rounds_lem : (n : ℕ) (xs : List Text) → length xs ≤ n → sort_rounds n xs ≡ insert_all xs
unfolding sort_rounds
sort_rounds_lem zero [] h = refl
sort_rounds_lem zero (x ∷ xs) h = absurd (omega arith)
sort_rounds_lem (suc n) [] h = refl
sort_rounds_lem (suc n) (x ∷ xs) h =
    let (m, rest) = exchange x xs in
    let inner : sort_rounds n rest ≡ insert_all rest =
      sort_rounds_lem n rest (omega (arith, length-exchange x xs)) in
    ap (λ l. m ∷ l) inner ∙ sym (exchange_lem x xs)

-- The rounds are enough: the exchange sort of the hashes is the sort by insertion.
sort_hashes_lem : (xs : List Text) → sort_hashes xs ≡ insert_all xs
unfolding sort_hashes
sort_hashes_lem xs = sort_rounds_lem (length xs) xs (omega arith)

insert_all-Perm : {xs ys : List Text} → Permᴰ xs ys → insert_all xs ≡ insert_all ys
insert_all-Perm Permᴰ.nil = refl
insert_all-Perm (Permᴰ.cons {a = a} {b = b} e p) = rw e (ap (insert b) (insert_all-Perm p))
insert_all-Perm (Permᴰ.swap {a = a} {b = b} {l = l} e f) =
    rw (e, f) (insert_comm _ _ (insert_all l))
insert_all-Perm (Permᴰ.trans p q) = insert_all-Perm p ∙ insert_all-Perm q

-- The text that is hashed for a task does not depend on the order of the input hashes: two lists
-- of them that are permutations of each other give the same text.
pub key_text-Perm :
    (cmd : Option Text) (xs ys deps : List Text)
    → Perm xs ys
    → key_text cmd xs deps ≡ key_text cmd ys deps
unfolding key_text
key_text-Perm cmd xs ys deps p =
    let one_path : IsProp (insert_all xs ≡ insert_all ys) = hlevel in
    let same : insert_all xs ≡ insert_all ys = ∥∥₁_elim p one_path insert_all-Perm in
    rw (sort_hashes_lem xs, sort_hashes_lem ys, same) refl
