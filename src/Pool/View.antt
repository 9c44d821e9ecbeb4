-- ===== src/Pool/View.antt =====
-- The loop over the dependents in `worker_main` does to the pool what the inner loop of `topo_sort`
-- does to its state. The view of a pool puts all tasks that have left the counts, and are not
-- finished, into the queue.
use repro_vm_virtual_machine.Task.Sort.{Inv, Inv-release_one}
use repro_vm_virtual_machine.Task.Sort.Degrees.{UniqueNames, AreValid}
use repro_vm_virtual_machine.Task.{Links, Task, Kahn, release_one}
use repro_vm_virtual_machine.Pool.{
  Pool, find_task_index, name_at, release_dep, str_eq, update, release_deps,
}
use repro_vm_virtual_machine.Prelude.{
  ℕ, ◌+◌, ◌<◌, if◌then◌else◌, ◌==◌, ◌++◌, ◌∷◌, [], List, true, false, none, some, refl, ◌≡◌, ◌∙◌,
  sym, arith, inl, inr, Bool-cases, Option-cases, length, mem, count, count-append, eq_of_str_eq,
  str_eq_refl, ap, append_assoc, subst,
}
use repro_vm_virtual_machine.Prelude.Int.{ℤ, pred_ℤ, is_zero}

abbrev pub view : Pool → Kahn
view p = record {
  indegree = p.pending_deps;
  waiting = p.running ++ (p.stuck ++ (p.given_up ++ p.ready));
  result = p.finished;
}

pub count-view :
    (i : ℕ) (p : Pool)
    → count i (view p).waiting
      ≡ count i p.running + (count i p.stuck + (count i p.given_up + count i p.ready))
count-view i p = omega (
  arith,
  count-append i p.running (p.stuck ++ (p.given_up ++ p.ready)),
  count-append i p.stuck (p.given_up ++ p.ready),
  count-append i p.given_up p.ready,
)

-- The invariant sees the queue only through its counts.
pub Inv-recount :
    (subset : List ℕ) (links : Links) (s s' : Kahn) (rest : List ℕ)
    → s'.indegree ≡ s.indegree
    → s'.result ≡ s.result
    → ((i : ℕ) → count i s'.waiting ≡ count i s.waiting)
    → Inv subset links s rest
    → Inv subset links s' rest
Inv-recount subset links s s' rest same same' counts v = record {
  degree = λ i m. rw (same, same') (v.degree i m);
  placed = λ i. rw (same, same') (rw (counts i) (v.placed i));
  ordered = rw same' v.ordered;
}

module _ (tasks : List Task) (unique : UniqueNames tasks) where
  apart : (j k : ℕ) → str_eq (name_at tasks j) (name_at tasks k) ≡ false → (j == k) ≡ false
  apart j k e = elim (Bool-cases (j == k)) [
    | inl same ↦
        let equal : j ≡ k = ground arith in cc (str_eq_refl (name_at tasks k), rw equal at e)
    | inr other ↦ other
  ]

  -- The task found by the name of k is k itself, if it is in the list.
  find_task_index-name_at :
      (js : List ℕ) (k : ℕ)
      → AreValid tasks js
      → k < length tasks
      → find_task_index tasks js (name_at tasks k) ≡ (if mem k js then some k else none)
  unfolding find_task_index
  find_task_index-name_at [] k valid h = refl
  find_task_index-name_at (j ∷ js) k valid h =
      elim (Bool-cases (str_eq (name_at tasks j) (name_at tasks k))) [
        | inl e ↦
            let same : j ≡ k =
              unique j k valid.0 h (eq_of_str_eq (name_at tasks j) (name_at tasks k) e) in
            rw e (rw same (ground arith))
        | inr e ↦ let rest = find_task_index-name_at js k valid.1 h in rw e (rw (apart j k e) rest)
      ]

  module _ (subset : List ℕ) (valid : AreValid tasks subset) where
    release_dep_out :
        (k : ℕ) (p : Pool)
        → find_task_index tasks subset (name_at tasks k) ≡ none
        → release_dep tasks subset k p ≡ p
    unfolding release_dep
    release_dep_out k p e = rw (e, release_dep) refl

    release_dep_in :
        (k : ℕ) (p : Pool)
        → find_task_index tasks subset (name_at tasks k) ≡ some k
        → view (release_dep tasks subset k p) ≡ record {
          indegree = update p.pending_deps k (pred_ℤ (p.pending_deps k));
          waiting =
              if is_zero (pred_ℤ (p.pending_deps k))
              then (view p).waiting ++ k ∷ []
              else (view p).waiting;
          result = p.finished;
        }
    unfolding release_dep
    release_dep_in k p e = elim (Bool-cases (is_zero (pred_ℤ (p.pending_deps k)))) [
      | inl z ↦
          rw (e, release_dep)
            (rw z (
              ap
                (λ (w : List ℕ). record {
                  indegree = update p.pending_deps k (pred_ℤ (p.pending_deps k));
                  waiting = w;
                  result = p.finished;
                })
                (behind p.running p.stuck p.given_up p.ready (k ∷ []))))
      | inr z ↦ rw (e, release_dep) (rw z refl)
    ]
      where
        behind : (a b c d e : List ℕ) → a ++ (b ++ (c ++ (d ++ e))) ≡ (a ++ (b ++ (c ++ d))) ++ e
        behind a b c d e =
            rw (append_assoc a (b ++ (c ++ d)) e, append_assoc b (c ++ d) e, append_assoc c d e)
              refl

    view-release_dep :
        (k : ℕ) (p : Pool)
        → k < length tasks
        → view (release_dep tasks subset k p) ≡ release_one subset k (view p)
    view-release_dep k p h =
        let found = find_task_index-name_at subset k valid h in
        elim (Bool-cases (mem k subset)) [
          | inr out ↦
              ap view (release_dep_out k p (rw out at found)) ∙ unfold release_one in rw out refl
          | inl inside ↦
              release_dep_in k p (rw inside at found) ∙ unfold release_one in rw inside refl
        ]

    pub Inv-release_deps :
        (links : Links) (ks : List ℕ) (p : Pool)
        → ((k : ℕ) → mem k ks ≡ true → k < length tasks)
        → Inv subset links (view p) ks
        → Inv subset links (view (release_deps tasks subset ks p)) []
    unfolding release_deps
    Inv-release_deps links [] p small v = v
    Inv-release_deps links (k ∷ ks) p small v =
        let step = Inv-release_one subset links k ks (view p) v in
        let same = view-release_dep k p (small k (ground arith)) in
        Inv-release_deps links ks (release_dep tasks subset k p) (λ j m. small j (ground arith))
          (subst (λ s. Inv subset links s ks) (sym same) step)

-- The loop writes nothing but the counts and the queue, and lets sleeping workers wake up.
pub record Keeps (p q : Pool) : Type 0 where
  pub counts : ℕ → ℤ
  pub queue : List ℕ
  pub awake : ℕ
  pub sleeping : ℕ
  pub workers : awake + sleeping ≡ p.idle + p.asleep
  pub same : q ≡ record p { pending_deps = counts; ready = queue; idle = awake; asleep = sleeping }

module _ (tasks : List Task) (subset : List ℕ) where
  release_dep-Keeps : (k : ℕ) (p : Pool) → Keeps p (release_dep tasks subset k p)
  unfolding release_dep
  release_dep-Keeps k p = elim (Option-cases (find_task_index tasks subset (name_at tasks k))) [
    | inl e ↦ record {
      counts = p.pending_deps;
      queue = p.ready;
      awake = p.idle;
      sleeping = p.asleep;
      workers = refl;
      same = rw (e, release_dep) refl;
    }
    | inr (i, e) ↦ elim (Bool-cases (is_zero (pred_ℤ (p.pending_deps i)))) [
      | inl z ↦ record {
        counts = update p.pending_deps i (pred_ℤ (p.pending_deps i));
        queue = p.ready ++ k ∷ [];
        awake = p.idle + p.asleep;
        sleeping = 0;
        workers = omega arith;
        same = rw (e, release_dep) (rw z refl);
      }
      | inr z ↦ record {
        counts = update p.pending_deps i (pred_ℤ (p.pending_deps i));
        queue = p.ready;
        awake = p.idle;
        sleeping = p.asleep;
        workers = refl;
        same = rw (e, release_dep) (rw z refl);
      }
    ]
  ]

  pub release_deps-Keeps : (ks : List ℕ) (p : Pool) → Keeps p (release_deps tasks subset ks p)
  unfolding release_deps
  release_deps-Keeps [] p = record {
    counts = p.pending_deps;
    queue = p.ready;
    awake = p.idle;
    sleeping = p.asleep;
    workers = refl;
    same = refl;
  }
  release_deps-Keeps (k ∷ ks) p =
      let first = release_dep-Keeps k p in
      let mid : Pool = record p {
        pending_deps = first.counts;
        ready = first.queue;
        idle = first.awake;
        asleep = first.sleeping;
      } in
      let rest = release_deps-Keeps ks mid in
      record {
        counts = rest.counts;
        queue = rest.queue;
        awake = rest.awake;
        sleeping = rest.sleeping;
        workers = rest.workers ∙ first.workers;
        same = ap (release_deps tasks subset ks) first.same ∙ rest.same;
      }
