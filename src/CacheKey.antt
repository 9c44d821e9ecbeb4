-- ===== src/CacheKey.antt =====
-- The text that `compute_task_hash` of task.c hashes, and the sort that it shares with
-- `compute_result_hash`. The buffer of 4096 bytes does not cut it: the C code does not check it.
pub mod Sort
use repro_vm_virtual_machine.Prelude.{
  codes, ltb, ℕ, zero, suc, ◌+◌, ◌-◌, ◌*◌, ◌≤◌, ◌<◌, if◌then◌else◌, ◌==◌, ◌++◌, ◌∷◌, [], List, true,
  false, Bool, ◌&&◌, ◌||◌, none, some, Option, refl, ◌≡◌, ◌≢◌, ◌∙◌, sym, arith, inl, inr, ◌⊎◌, ◌↔◌,
  Bool-cases, Option-cases, List-cases, length, Text, mem, count, All,
}
use repro_vm_virtual_machine.Util.{comma, join_strings}

-- `strcmp(a, b) > 0`
abbrev pub text_gt : Text → Text → Bool
text_gt [] b = false
text_gt (x ∷ a) [] = true
text_gt (x ∷ a) (y ∷ b) = if x == y then text_gt a b else ltb y x

-- One round of the outer loop of the sort: what ends at its position, and the rest.
unfoldable pub exchange : Text → List Text → Text × List Text
exchange x [] = (x, [])
exchange x (y ∷ ys) =
    let kept = exchange x ys in
    let swapped = exchange y ys in
    if text_gt x y then (swapped.0, x ∷ swapped.1) else (kept.0, y ∷ kept.1)

-- The two loops, on a bound for the rounds.
unfoldable pub sort_rounds : ℕ → List Text → List Text
sort_rounds zero xs = xs
sort_rounds (suc n) [] = []
sort_rounds (suc n) (x ∷ xs) = let first = exchange x xs in first.0 ∷ sort_rounds n first.1

unfoldable pub sort_hashes : List Text → List Text
sort_hashes xs = sort_rounds (length xs) xs

-- The placeholders of the dependencies, with a comma between any two.
abbrev pub placeholders : List Text → Text
placeholders [] = []
placeholders (d ∷ []) = []
placeholders (d ∷ e ∷ ds) = comma ∷ placeholders (e ∷ ds)

abbrev pub or_empty : Option Text → Text
or_empty none = []
or_empty (some s) = s

-- The text that `compute_task_hash` hashes.
unfoldable pub key_text : Option Text → List Text → List Text → Text
key_text cmd hashes deps =
    codes "cmd="
    ++ (or_empty cmd
        ++ (codes "\ninputs="
            ++ (join_strings (sort_hashes hashes) (comma ∷ [])
                ++ (codes "\ndeps=" ++ (placeholders deps ++ codes "\n")))))
