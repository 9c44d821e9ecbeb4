-- ===== src/Util/Dirs.antt =====
-- `ensure_dir_recursive` of util.c, over the `mkdir` of the operating system.
use repro_vm_virtual_machine.Prelude.{
  append_assoc, ◌==◌, ◌++◌, take, append-nil, subst, ◌≡◌, List, [], ◌∷◌, Text, Bool-cases, true,
  All, inl, inr, false, sym, ℕ,
}
use repro_vm_virtual_machine.Util.{
  Mkdir, mkdir_ok, make_all, parents, dirs_of, ensure_dir_recursive, slash, is_empty,
  drop_last_slash,
}

-- What POSIX says of `mkdir`: after success, or EEXIST, something stands at the path, and no
-- directory goes away.
pub record MkdirLaws {D : Type 0} (mkdir : Text → D → D × Mkdir) (Exists : D → Text → Type 0)
    : Type 0 where
  pub made : (p : Text) (d : D) → mkdir_ok (mkdir p d).1 ≡ true → Exists (mkdir p d).0 p
  pub kept : (p q : Text) (d : D) → Exists d q → Exists (mkdir p d).0 q

module _ {D : Type 0} (mkdir : Text → D → D × Mkdir) where
  pub make_all_go :
      (p : Text) (ps : List Text) (d : D)
      → mkdir_ok (mkdir p d).1 ≡ true
      → make_all mkdir (p ∷ ps) d ≡ make_all mkdir ps (mkdir p d).0
  unfolding make_all
  make_all_go p ps d e = rw e

  pub make_all_stop :
      (p : Text) (ps : List Text) (d : D)
      → mkdir_ok (mkdir p d).1 ≡ false
      → make_all mkdir (p ∷ ps) d ≡ ((mkdir p d).0, false)
  unfolding make_all
  make_all_stop p ps d e = rw e

module _ {D : Type 0} {mkdir : Text → D → D × Mkdir} {Exists : D → Text → Type 0}
    (laws : MkdirLaws mkdir Exists) where
  open laws use {made, kept}

  make_all_kept :
      (ps : List Text) (d : D) (q : Text) → Exists d q → Exists (make_all mkdir ps d).0 q
  make_all_kept [] d q h = unfold make_all in h
  make_all_kept (p ∷ ps) d q h = elim (Bool-cases (mkdir_ok (mkdir p d).1)) [
    | inl e ↦ rw (make_all_go mkdir p ps d e) (make_all_kept ps (mkdir p d).0 q (kept p q d h))
    | inr e ↦ rw (make_all_stop mkdir p ps d e) (kept p q d h)
  ]

  make_all_made :
      (ps : List Text) (d : D)
      → (make_all mkdir ps d).1 ≡ true
      → All (Exists (make_all mkdir ps d).0) ps
  make_all_made [] d h = tt
  make_all_made (p ∷ ps) d h = elim (Bool-cases (mkdir_ok (mkdir p d).1)) [
    | inl e ↦
        subst (λ r. All (Exists r.0) (p ∷ ps)) (sym (make_all_go mkdir p ps d e))
          (
            make_all_kept ps (mkdir p d).0 p (made p d e),
            make_all_made ps (mkdir p d).0 (rw (make_all_go mkdir p ps d e) at h),
          )
    | inr e ↦ cc (rw (make_all_stop mkdir p ps d e) at h)
  ]

module _ (P : Text → Type 0) where
  All-parents : (x y before : Text) → All P (parents before (x ++ slash ∷ y)) → P (before ++ x)
  unfolding parents
  All-parents [] y before h = rw (append-nil before) h.0
  All-parents (c ∷ x) y before h = elim (Bool-cases (c == slash)) [
    | inl e ↦
        rw (← append_assoc before (c ∷ []) x) (All-parents x y (before ++ c ∷ []) ((rw e at h).1))
    | inr e ↦ rw (← append_assoc before (c ∷ []) x) (All-parents x y (before ++ c ∷ []) (rw e at h))
  ]

  All-split : (xs ys : List Text) → All P (xs ++ ys) → All P xs × All P ys
  All-split [] ys h = (tt, h)
  All-split (x ∷ xs) ys h = let (a, b) = All-split xs ys h.1 in ((h.0, a), b)

  All-dirs_of : (c : ℕ) (x y : Text) → All P (dirs_of (c ∷ x ++ slash ∷ y)) → P (c ∷ x)
  unfolding dirs_of
  All-dirs_of c x y h =
      All-parents x y (c ∷ []) (All-split (parents (c ∷ []) (x ++ slash ∷ y)) _ h).0

  All-dirs_of_whole : (path : Text) → All P (dirs_of path) → P path
  unfolding dirs_of
  All-dirs_of_whole [] h = h.0
  All-dirs_of_whole (c ∷ x) h = (All-split (parents (c ∷ []) x) ((c ∷ x) ∷ []) h).1.0

module _ {D : Type 0} (mkdir : Text → D → D × Mkdir) (path : Text) (d : D) where
  pub empty_fails :
      is_empty (take 4095 path) ≡ true → ensure_dir_recursive mkdir path d ≡ (d, false)
  unfolding ensure_dir_recursive
  empty_fails e = rw e

  pub ensure_dir_recursive_go :
      is_empty (take 4095 path) ≡ false
      → ensure_dir_recursive mkdir path d
        ≡ make_all mkdir (dirs_of (drop_last_slash (take 4095 path))) d
  unfolding ensure_dir_recursive
  ensure_dir_recursive_go e = rw e

-- Under the laws of `mkdir`: if `ensure_dir_recursive` returns 0 then, with `dir` the path cut to
-- 4095 bytes and without one final slash, `dir` itself exists and so does every part of it that
-- stands in front of a slash and is not empty.
pub ensure_dir_recursive_makes :
    {D : Type 0} {mkdir : Text → D → D × Mkdir} {Exists : D → Text → Type 0}
    (laws : MkdirLaws mkdir Exists) (path : Text) (d : D)
    → (ensure_dir_recursive mkdir path d).1 ≡ true
    → Exists (ensure_dir_recursive mkdir path d).0 (drop_last_slash (take 4095 path))
      × ((c : ℕ) (x y : Text)
          → drop_last_slash (take 4095 path) ≡ c ∷ x ++ slash ∷ y
          → Exists (ensure_dir_recursive mkdir path d).0 (c ∷ x))
ensure_dir_recursive_makes {mkdir = mkdir} {Exists = Exists} laws path d h =
    elim (Bool-cases (is_empty (take 4095 path))) [
      | inl e ↦ cc (rw (empty_fails mkdir path d e) at h)
      | inr e ↦
          let go = ensure_dir_recursive_go mkdir path d e in
          let dir = drop_last_slash (take 4095 path) in
          let all = make_all_made laws (dirs_of dir) d (rw go at h) in
          rw go (
            All-dirs_of_whole (Exists (make_all mkdir (dirs_of dir) d).0) dir all,
            λ c x y same.
                All-dirs_of (Exists (make_all mkdir (dirs_of dir) d).0) c x y (
                  subst (λ p. All (Exists (make_all mkdir (dirs_of dir) d).0) (dirs_of p)) same
                    all),
          )
    ]
