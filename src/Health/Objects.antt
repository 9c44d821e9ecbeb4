-- ===== src/Health/Objects.antt =====
-- `health_check_cas` against the list of all objects.
use repro_vm_virtual_machine.Health.{
  Sys, is_visible, count_objects, count_subdirs, health_check_cas, health_ok, objects, mask64,
}
use repro_vm_virtual_machine.Util.{slash}
use repro_vm_virtual_machine.Prelude.{
  codes, take, str_eq, Bool, false, length-append, ℕ, ◌+◌, if◌then◌else◌, ◌++◌, ◌∷◌, [], List, true,
  none, some, refl, ◌≡◌, ◌∙◌, arith, inl, inr, Bool-cases, Option-cases, length, Text, map, ap,
}

-- The first byte is a dot.
abbrev pub is_dotted : Text → Bool
is_dotted e = str_eq (take 1 e) (codes ".")

-- What the code shows, the description shows, and the other way round.
shown_lem : (e : Text) → is_visible e ≡ true → is_dotted e ≡ false
shown_lem [] h = refl
shown_lem (c ∷ s) h = ground arith

hidden_lem : (e : Text) → is_visible e ≡ false → is_dotted e ≡ true
hidden_lem [] h = cc
hidden_lem (c ∷ s) h = ground arith

abbrev pub visible : List Text → List Text
visible [] = []
visible (e ∷ es) = let rest = visible es in if is_dotted e then rest else e ∷ rest

module _ (sys : Sys) where
  -- The paths of the files in a directory, but for those that begin with a dot.
  abbrev pub objects_in : Text → List Text → List Text
  objects_in subdir names = map (λ e. take 2047 (subdir ++ slash ∷ e)) (visible names)

  abbrev pub inside : Text → List Text
  inside subdir = elim (sys.list subdir) [ none ↦ [] | some names ↦ objects_in subdir names ]

  -- The paths of all objects, directory by directory.
  abbrev pub all_objects : Text → List Text → List Text
  all_objects cas_path [] = []
  all_objects cas_path (e ∷ es) =
      let rest = all_objects cas_path es in
      if is_dotted e then rest else inside (take 1023 (cas_path ++ slash ∷ e)) ++ rest

  abbrev pub size_of : Text → ℕ
  size_of path = elim (sys.size path) [ none ↦ 0 | some n ↦ n ]

  -- The bytes in the files that `stat` finds.
  abbrev pub sizes : List Text → ℕ
  sizes [] = 0
  sizes (p ∷ ps) = size_of p + sizes ps

  sizes-append : (ps qs : List Text) → sizes (ps ++ qs) ≡ sizes ps + sizes qs
  sizes-append [] qs = omega arith
  sizes-append (p ∷ ps) qs = omega (arith, sizes-append ps qs)

  mask64-mask64 : (a b : ℕ) → mask64 (mask64 a + b) ≡ mask64 (a + b)
  mask64-mask64 a b = omega arith

  -- The size of one more file is added, modulo 2^64.
  abbrev added : (path : Text) (t : ℕ) → ℕ
  added path t = elim (sys.size path) [ none ↦ mask64 t | some n ↦ mask64 (mask64 t + n) ]

  added_lem : (path : Text) (t : ℕ) → added path t ≡ mask64 (t + size_of path)
  added_lem path t = elim (Option-cases (sys.size path)) [
    | inl e ↦
        let size : size_of path ≡ 0 = rw (e, size_of) refl in
        rw (e, added) (ap mask64 (omega arith))
    | inr (n, e) ↦
        let size : size_of path ≡ n = rw (e, size_of) refl in
        rw (e, added) (mask64-mask64 t n ∙ ap mask64 (omega arith))
  ]

  sums : {a b c d : ℕ} → a ≡ c → b ≡ d → ◌≡◌ {A = ℕ × ℕ} (a, mask64 b) (c, mask64 d)
  sums e f = rw (e, f) refl

  count_objects_lem :
      (cache_dir subdir : Text) (n t : ℕ) (es : List Text)
      → count_objects sys cache_dir subdir (n, mask64 t) es
        ≡ (n + length (objects_in subdir es), mask64 (t + sizes (objects_in subdir es)))
  unfolding count_objects
  count_objects_lem cache_dir subdir n t [] = sums (omega arith) (omega arith)
  count_objects_lem cache_dir subdir n t (e ∷ es) = elim (Bool-cases (is_visible e)) [
    | inr hidden ↦ rw (hidden, hidden_lem e hidden) (count_objects_lem cache_dir subdir n t es)
    | inl shown ↦
        let path = take 2047 (subdir ++ slash ∷ e) in
        rw (shown, shown_lem e shown)
          (ap (λ x. count_objects sys cache_dir subdir (n + 1, x) es) (added_lem path t)
            ∙ (count_objects_lem cache_dir subdir (n + 1) (t + size_of path) es
                ∙ sums (omega arith) (omega arith)))
  ]

  count_subdirs_lem :
      (cache_dir cas_path : Text) (n t : ℕ) (es : List Text)
      → count_subdirs sys cache_dir cas_path (n, mask64 t) es
        ≡ (n + length (all_objects cas_path es), mask64 (t + sizes (all_objects cas_path es)))
  unfolding count_subdirs
  count_subdirs_lem cache_dir cas_path n t [] = sums (omega arith) (omega arith)
  count_subdirs_lem cache_dir cas_path n t (e ∷ es) = elim (Bool-cases (is_visible e)) [
    | inr hidden ↦ rw (hidden, hidden_lem e hidden) (count_subdirs_lem cache_dir cas_path n t es)
    | inl shown ↦
        let subdir = take 1023 (cas_path ++ slash ∷ e) in
        elim (Option-cases (sys.list subdir)) [
          | inl shut ↦
              let none_inside : inside subdir ≡ [] = rw (shut, inside) refl in
              rw (shown, shown_lem e shown, shut, none_inside)
                (count_subdirs_lem cache_dir cas_path n t es)
          | inr (names, listed) ↦
              let some_inside : inside subdir ≡ objects_in subdir names =
                rw (listed, inside) refl in
              let here = objects_in subdir names in
              let rest = all_objects cas_path es in
              rw (shown, shown_lem e shown, listed, some_inside)
                (ap (λ x. count_subdirs sys cache_dir cas_path x es)
                    (count_objects_lem cache_dir subdir n t names)
                  ∙ (count_subdirs_lem cache_dir cas_path (n + length here) (t + sizes here) es
                      ∙ sums (omega (arith, length-append here rest))
                          (omega (arith, sizes-append here rest))))
        ]
  ]

  abbrev pub cas_objects : Text → Text
  cas_objects cache_dir = take 511 (cache_dir ++ codes "/cas/objects")

  -- If the directory of the objects can be listed, `health_check_cas` reports the number of all
  -- objects, and the sum of their sizes modulo 2^64: the files in the subdirectories that can be
  -- listed, without the names that begin with a dot.
  pub health_check_cas-all_objects :
      (cache_dir : Text) (names : List Text)
      → sys.is_dir (cas_objects cache_dir) ≡ true
      → sys.list (cas_objects cache_dir) ≡ some names
      → health_check_cas sys cache_dir ≡ record {
        status = health_ok;
        message =
            objects
              (length (all_objects (cas_objects cache_dir) names))
              (mask64 (sizes (all_objects (cas_objects cache_dir) names)));
      }
  unfolding health_check_cas
  health_check_cas-all_objects cache_dir names there listed =
      rw (there, listed)
        (ap (λ x. record { status = health_ok; message = objects x.0 x.1 })
          (count_subdirs_lem cache_dir (cas_objects cache_dir) 0 0 names
            ∙ sums (omega arith) (omega arith)))
