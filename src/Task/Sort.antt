-- ===== src/Task/Sort.antt =====
-- `topo_sort`, Kahn's algorithm. Here the invariant of its loop, over any links and any subset.
pub mod Degrees
pub mod Order
use repro_vm_virtual_machine.Prelude.{
  ℕ, zero, suc, ◌+◌, ◌-◌, ◌*◌, ◌≤◌, ◌<◌, if◌then◌else◌, ◌==◌, ◌++◌, ◌∷◌, [], List, true, false,
  Bool, ◌&&◌, ◌||◌, none, some, Option, refl, ◌≡◌, ◌≢◌, ◌∙◌, sym, arith, inl, inr, ◌⊎◌, ◌↔◌,
  Bool-cases, Option-cases, List-cases, length, Text, mem, count, All, append-nil, mem-append,
  append_assoc, count-append, IsNodup, length-append, count_pos_of_mem, length-le_of_count_le, ap,
}
use repro_vm_virtual_machine.Task.{Links, Kahn, update, release_one, release, expand, drain}
use repro_vm_virtual_machine.Prelude.Int.{ℤ, pos, pred_ℤ, is_zero}

-- The edges into i from the tasks of a list that are not yet in the result.
abbrev pub open_edges : Links → List ℕ → ℕ → List ℕ → ℕ
open_edges links result i [] = 0
open_edges links result i (j ∷ js) =
    (if mem j result then 0 else count i (links j)) + open_edges links result i js

-- Every task of the list stands behind the tasks of the subset that it depends on.
abbrev pub IsOrdered : List ℕ → Links → List ℕ → List ℕ → Type 0
IsOrdered subset links seen [] = Unit
IsOrdered subset links seen (t ∷ ts) =
    ((j : ℕ) → mem j subset ≡ true → 0 < count t (links j) → mem j seen ≡ true)
    × IsOrdered subset links (seen ++ t ∷ []) ts

IsOrdered-append :
    (subset : List ℕ) (links : Links) (seen ts : List ℕ) (t : ℕ)
    → IsOrdered subset links seen ts
    → ((j : ℕ) → mem j subset ≡ true → 0 < count t (links j) → mem j (seen ++ ts) ≡ true)
    → IsOrdered subset links seen (ts ++ t ∷ [])
IsOrdered-append subset links seen [] t h new = (λ j m e. rw (append-nil seen) at (new j m e), tt)
IsOrdered-append subset links seen (u ∷ ts) t h new = (
  h.0,
  IsOrdered-append subset links (seen ++ u ∷ []) ts t h.1
      (λ j m e. rw (append_assoc seen (u ∷ []) ts) (new j m e)),
)

module _ (links : Links) where
  -- Without open edges, all that a task depends on is in the result.
  pub closed_of_open_edges :
      (result : List ℕ) (i : ℕ) (js : List ℕ)
      → open_edges links result i js ≡ 0
      → (j : ℕ) → mem j js ≡ true
      → 0 < count i (links j)
      → mem j result ≡ true
  closed_of_open_edges result i [] h j m e = ground arith
  closed_of_open_edges result i (x ∷ js) h j m e = elim (Bool-cases (x == j)) [
    | inl same ↦ ground arith
    | inr other ↦ closed_of_open_edges result i js (omega arith) j (ground arith) e
  ]

  pub open_edges_closed :
      (result : List ℕ) (i : ℕ) (js : List ℕ)
      → ((j : ℕ) → mem j js ≡ true → 0 < count i (links j) → mem j result ≡ true)
      → open_edges links result i js ≡ 0
  open_edges_closed result i [] h = refl
  open_edges_closed result i (x ∷ js) h =
      let rest = open_edges_closed result i js (λ j m e. h j (ground arith) e) in
      ground (arith, h x)

  -- A task that enters the result closes its edges.
  open_edges_absent :
      (result : List ℕ) (t i : ℕ) (js : List ℕ)
      → count t js ≡ 0
      → open_edges links (result ++ t ∷ []) i js ≡ open_edges links result i js
  open_edges_absent result t i [] h = refl
  open_edges_absent result t i (x ∷ js) h =
      ground (arith, open_edges_absent result t i js, mem-append x result (t ∷ []))

  open_edges_step :
      (result : List ℕ) (t i : ℕ) (js : List ℕ)
      → count t js ≡ 1
      → mem t result ≡ false
      → open_edges links (result ++ t ∷ []) i js + count i (links t) ≡ open_edges links result i js
  open_edges_step result t i [] h new = ground arith
  open_edges_step result t i (x ∷ js) h new = elim (Bool-cases (x == t)) [
    | inl same ↦ ground (arith, open_edges_absent result t i js, mem-append x result (t ∷ []))
    | inr other ↦ ground (arith, open_edges_step result t i js, mem-append x result (t ∷ []))
  ]

-- What the loop keeps: `rest` holds the dependents that the inner loop has yet to release.
pub record Inv (subset : List ℕ) (links : Links) (s : Kahn) (rest : List ℕ) : Type 0 where
  pub degree :
      (i : ℕ)
      → mem i subset ≡ true
      → s.indegree i ≡ pos (open_edges links s.result i subset + count i rest)
  pub placed :
      (i : ℕ)
      → count i s.result + count i s.waiting
        ≡ (if mem i subset && is_zero (s.indegree i) then 1 else 0)
  pub ordered : IsOrdered subset links [] s.result

module _ (subset : List ℕ) (links : Links) where
  pub Inv-release_one :
      (k : ℕ) (ks : List ℕ) (s : Kahn)
      → Inv subset links s (k ∷ ks)
      → Inv subset links (release_one subset k s) ks
  Inv-release_one k ks s v = record {
    degree = λ i m. unfold release_one in ground (arith, v.degree i m, v.degree k);
    placed = λ i.
        unfold release_one in
        ground (arith, v.placed i, v.degree k, v.degree i, count-append i s.waiting (k ∷ []));
    ordered = rw (result-release_one k s) v.ordered;
  }
    where
      result-release_one : (k : ℕ) (s : Kahn) → (release_one subset k s).result ≡ s.result
      result-release_one k s = unfold release_one in ground arith

  pub Inv-release :
      (ks : List ℕ) (s : Kahn) → Inv subset links s ks → Inv subset links (release subset ks s) []
  unfolding release
  Inv-release [] s v = v
  Inv-release (k ∷ ks) s v = Inv-release ks (release_one subset k s) (Inv-release_one k ks s v)

  pub Inv-pop :
      (t : ℕ) (rest : List ℕ) (s : Kahn)
      → IsNodup subset
      → ((i : ℕ) → count i s.waiting ≡ (if t == i then 1 else 0) + count i rest)
      → Inv subset links s []
      → Inv subset links (record s { waiting = rest; result = s.result ++ t ∷ [] }) (links t)
  Inv-pop t rest s nodup cut v =
      let queued : 0 < count t s.waiting = ground (arith, cut t) in
      let chosen : mem t subset ≡ true = ground (arith, v.placed t) in
      let free : is_zero (s.indegree t) ≡ true = ground (arith, v.placed t) in
      let once : count t subset ≡ 1 = omega (arith, nodup t, count_pos_of_mem t subset chosen) in
      let new : mem t s.result ≡ false = ground (arith, v.placed t, count_pos_of_mem t s.result) in
      record {
        degree =
            λ i m. ground (arith, v.degree i m, open_edges_step links s.result t i subset once new);
        placed = λ i. ground (arith, v.placed i, cut i, count-append i s.result (t ∷ []));
        ordered =
            IsOrdered-append subset links [] s.result t v.ordered
              (closed_of_open_edges links s.result t subset (ground (arith, v.degree t chosen)));
      }

  pub Inv-expand :
      (t : ℕ) (rest : List ℕ) (s : Kahn)
      → IsNodup subset
      → s.waiting ≡ t ∷ rest
      → Inv subset links s []
      → Inv subset links (expand subset links t rest s) []
  unfolding expand
  Inv-expand t rest s nodup e v =
      Inv-release (links t) _ (Inv-pop t rest s nodup (λ i. ap (count i) e) v)

  result-release : (ks : List ℕ) (s : Kahn) → (release subset ks s).result ≡ s.result
  unfolding release
  result-release [] s = refl
  result-release (k ∷ ks) s =
      result-release ks (release_one subset k s) ∙ unfold release_one in ground arith

  result-expand :
      (t : ℕ) (rest : List ℕ) (s : Kahn)
      → (expand subset links t rest s).result ≡ s.result ++ t ∷ []
  unfolding expand
  result-expand t rest s = result-release (links t) _

  -- No slot of the queue is written twice, and none past the end of its array.
  pub within :
      (s : Kahn) → Inv subset links s [] → length s.result + length s.waiting ≤ length subset
  within s v = omega (
    arith,
    length-append s.result s.waiting,
    length-le_of_count_le (s.result ++ s.waiting) subset (λ a.
        ground (arith, count-append a s.result s.waiting, v.placed a, count_pos_of_mem a subset)),
  )

  drain_empty : (fuel : ℕ) (s : Kahn) → s.waiting ≡ [] → drain (suc fuel) subset links s ≡ s
  unfolding drain
  drain_empty fuel s e = simp (e, drain)

  drain_more :
      (fuel : ℕ) (s : Kahn) (t : ℕ) (rest : List ℕ)
      → s.waiting ≡ t ∷ rest
      → drain (suc fuel) subset links s ≡ drain fuel subset links (expand subset links t rest s)
  unfolding drain
  drain_more fuel s t rest e = simp (e, drain)

  -- With as many rounds as tasks the queue is empty at the end.
  pub drain_ends :
      (fuel : ℕ) (s : Kahn)
      → IsNodup subset
      → Inv subset links s []
      → length subset ≤ length s.result + fuel
      → Inv subset links (drain fuel subset links s) [] × ((drain fuel subset links s).waiting ≡ [])
  drain_ends zero s nodup v h =
      let w = within s v in
      unfold drain in
      (
        v,
        elim (List-cases s.waiting) [
          | inl e ↦ e
          | inr (t, rest, e) ↦ absurd (omega (arith, w, ap length e))
        ],
      )
  drain_ends (suc fuel) s nodup v h = elim (List-cases s.waiting) [
    | inl e ↦ rw (drain_empty fuel s e) (v, e)
    | inr (t, rest, e) ↦ rw (drain_more fuel s t rest e) (
        drain_ends fuel (expand subset links t rest s) nodup (Inv-expand t rest s nodup e v)
          (omega (arith, ap length (result-expand t rest s), length-append s.result (t ∷ []))))
  ]
