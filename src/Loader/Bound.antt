-- ===== src/Loader/Bound.antt =====
-- The loop of `_cycle_nodes` ends: the rounds of the model are enough for every flow.
use contractplane.Prelude.Dict
use contractplane.Prelude.Int.{ℤ, pos, negsuc, pred, is_zero}
use contractplane.Prelude.{
  ℕ, zero, suc, ◌+◌, ◌≤◌, String, ◌≡◌, refl, sym, ap, ◌∙◌, ◌≢◌, inl, inr, true, false, some, List,
  [], ◌∷◌, ◌++◌, arith, ◌==◌, if◌then◌else◌, Bool-cases, length, length-append,
}
use contractplane.Errors.{no_rounds_left, ok, raise, ◌>>=◌, >>=-eq-ok, Result-cases, ok-injective}
use contractplane.Models.{Stage, Flow, found_at}
use contractplane.Compiler.{ids_of, free_among}
use contractplane.Compiler.Rounds.{out_of_rounds, is_bounded, free_among-is_bounded}
use contractplane.Loader.Queue.{
  Links, count_needs, count_all, Queue, lower_and_queue, visit, cycle_nodes,
}

weight : ℤ → ℕ
weight (pos (suc n)) = 1
weight (pos zero) = 0
weight (negsuc n) = 0

-- How many degrees are above 0.
positives : Dict.Dict ℤ → ℕ
positives [] = 0
positives ((k, v) ∷ d) = weight v + positives d

weight-pred : (v : ℤ) → weight (pred v) + (if is_zero (pred v) then 1 else 0) ≡ weight v
unfolding weight
weight-pred (pos zero) = refl
weight-pred (pos (suc zero)) = refl
weight-pred (pos (suc (suc n))) = ground arith
weight-pred (negsuc n) = refl

positives-put :
    (d : Dict.Dict ℤ) (k : String) (v w : ℤ)
    → Dict.get d k ≡ some v
    → positives (Dict.put d k w) + weight v ≡ positives d + weight w
unfolding positives Dict.get Dict.put
positives-put [] k v w h = cc
positives-put ((j, x) ∷ d) k v w h = elim (Bool-cases (j == k)) [
  | inl here ↦
      let same : x ≡ v = ground arith in
      let e : weight x ≡ weight v = ap weight same in rw here (omega arith)
  | inr elsewhere ↦ let e = positives-put d k v w (ground arith) in rw elsewhere (omega arith)
]

positives-length : (d : Dict.Dict ℤ) → positives d ≤ length (Dict.keys d)
unfolding positives weight
positives-length [] = omega arith
positives-length ((k, pos zero) ∷ d) = omega (arith, positives-length d)
positives-length ((k, pos (suc n)) ∷ d) = omega (arith, positives-length d)
positives-length ((k, negsuc n) ∷ d) = omega (arith, positives-length d)

-- The ready ids and the degrees above 0, which a round of the loop makes one fewer.
measure : Queue → ℕ
measure q = length q.ready + positives q.indegree

-- A decrement takes as much from the degrees as it adds to the queue.
measure-queued :
    (id : String) (q : Queue) (degree : ℤ)
    → Dict.get q.indegree id ≡ some degree
    → measure (record {
      indegree = Dict.put q.indegree id (pred degree);
      ready = if is_zero (pred degree) then q.ready ++ id ∷ [] else q.ready;
    })
      ≡ measure q
unfolding measure
measure-queued id q degree at =
    let put = positives-put q.indegree id degree (pred degree) at in
    let step = weight-pred degree in ground (arith, put, step, length-append q.ready (id ∷ []))

lower_and_queue-measure :
    (ids : List String) (q q' : Queue) → lower_and_queue ids q ≡ ok q' → measure q' ≡ measure q
unfolding lower_and_queue
lower_and_queue-measure [] q q' h = ap measure (sym (ok-injective h))
lower_and_queue-measure (id ∷ ids) q q' h =
    let (degree, found, h₁) = >>=-eq-ok (found_at id (Dict.get q.indegree id)) _ h in
    lower_and_queue-measure ids _ q' h₁ ∙ measure-queued id q degree (ground arith)

lower_and_queue-is_bounded :
    (ids : List String) (q : Queue) → is_bounded (lower_and_queue ids q) ≡ true
unfolding lower_and_queue is_bounded out_of_rounds
lower_and_queue-is_bounded [] q = refl
lower_and_queue-is_bounded (id ∷ ids) q = grind (arith, lower_and_queue-is_bounded ids)

visit-is_bounded :
    (rounds : ℕ) (dependents : Dict.Dict (List String)) (visited ready : List String)
    (d : Dict.Dict ℤ)
    → length ready + positives d ≤ rounds
    → is_bounded (visit rounds dependents visited d ready) ≡ true
unfolding visit is_bounded out_of_rounds measure
visit-is_bounded rounds dependents visited [] d h = refl
visit-is_bounded zero dependents visited (id ∷ ids) d h = let e : ⊥ = omega arith in absurd e
visit-is_bounded (suc rounds) dependents visited (id ∷ ids) d h =
    let next : (behind : List String)
        → is_bounded (
            lower_and_queue behind (record { indegree = d; ready = ids }) >>= λ q.
            visit rounds dependents (visited ++ id ∷ []) q.indegree q.ready)
          ≡ true =
      λ behind.
        elim (Result-cases (lower_and_queue behind (record { indegree = d; ready = ids }))) [
          | inl (q, e) ↦
              let same = lower_and_queue-measure behind _ q e in
              rw e (
                visit-is_bounded rounds dependents (visited ++ id ∷ []) q.ready q.indegree
                  (omega arith))
          | inr (x, e) ↦
              ground
                (arith, lower_and_queue-is_bounded behind (record { indegree = d; ready = ids }))
        ] in
    grind (arith, next)

count_needs-is_bounded :
    (ids : List String) (id : String) (needs : List String) (l : Links)
    → is_bounded (count_needs ids id needs l) ≡ true
unfolding count_needs is_bounded out_of_rounds
count_needs-is_bounded ids id [] l = refl
count_needs-is_bounded ids id (need ∷ needs) l = grind (arith, count_needs-is_bounded ids id needs)

count_all-is_bounded :
    (ids : List String) (stages : List Stage) (l : Links)
    → is_bounded (count_all ids stages l) ≡ true
unfolding count_all is_bounded out_of_rounds
count_all-is_bounded ids [] l = refl
count_all-is_bounded ids (s ∷ ss) l =
    grind (arith, count_needs-is_bounded ids s.id s.needs l, count_all-is_bounded ids ss)

-- `_cycle_nodes` ends for every flow, also one with an id twice or a stage that needs itself: the
-- loop is over before as many rounds as there are ready ids and ids at first.
pub cycle_nodes-ends : (flow : Flow) → cycle_nodes flow ≢ raise no_rounds_left
unfolding cycle_nodes is_bounded out_of_rounds
cycle_nodes-ends flow h =
    let next : (l : Links) (ready : List String)
        → is_bounded
            (visit (length ready + length (Dict.keys l.indegree)) l.dependents [] l.indegree ready)
          ≡ true =
      λ l ready.
        let few = positives-length l.indegree in
        visit-is_bounded _ l.dependents [] ready l.indegree (omega arith) in
    let free : (l : Links) → is_bounded (free_among l.indegree (ids_of flow.stages)) ≡ true =
      λ l. free_among-is_bounded l.indegree _ in
    let bounded : is_bounded (cycle_nodes flow) ≡ true =
      grind (arith, count_all-is_bounded (ids_of flow.stages) flow.stages _, free, next) in
    let out : is_bounded (cycle_nodes flow) ≡ false = ap is_bounded h in cc
