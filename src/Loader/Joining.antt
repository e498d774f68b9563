-- ===== src/Loader/Joining.antt =====
-- What joins the queue of `_cycle_nodes` in a round.
use mathlib.Core.List.{append-nil, append_assoc}
use contractplane.Prelude.Dict
use contractplane.Prelude.Dict.{get-put}
use contractplane.Prelude.Int.{ℤ, pos, negsuc, pred, is_zero}
use contractplane.Prelude.{
  ℕ, zero, suc, ◌≤◌, String, ◌≡◌, refl, sym, ap, ◌∙◌, subst, inl, inr, true, false, some, List, [],
  ◌∷◌, ◌++◌, arith, ◌==◌, eq_iff, Bool-cases, contains, are_distinct, count,
}
use contractplane.Errors.{ok}
use contractplane.Compiler.{lower_all}
use contractplane.Compiler.Lookup.{present, has-put}
use contractplane.Loader.Queue.{increase, lower_and_queue}

pred-pos : (i : ℤ) (n : ℕ) → pred i ≡ pos n → i ≡ pos (suc n)
pred-pos (pos zero) n h = cc
pred-pos (pos (suc m)) n h = ap increase h
pred-pos (negsuc m) n h = cc

-- What joins the queue: the ids whose degrees come down to 0, each once.
pub record Fresh (js fresh : List String) (d : Dict.Dict ℤ) : Type 0 where
  pub distinct : are_distinct fresh ≡ true
  pub low :
      (k : String)
      → contains fresh k ≡ true
      → (n : ℕ) × (Dict.get d k ≡ some (pos n)) × (1 ≤ n) × (n ≤ count k js)

Fresh-cons :
    (j : String) (js fresh : List String) (d : Dict.Dict ℤ) (i : ℤ)
    → Dict.get d j ≡ some i
    → Fresh js fresh (Dict.put d j (pred i))
    → (k : String) → contains fresh k ≡ true
    → (n : ℕ) × (Dict.get d k ≡ some (pos n)) × (1 ≤ n) × (n ≤ count k (j ∷ js))
Fresh-cons j js fresh d i at f k h =
    let (n, e, one, few) = f.low k h in
    elim (Bool-cases (j == k)) [
      | inl here ↦
          let same : j ≡ k = ground (arith, eq_iff j k) in
          let down : pred i ≡ pos n = ground (arith, get-put d j k (pred i)) in
          let up = pred-pos i n down in
          (
            suc n,
            subst (λ x. Dict.get d x ≡ some (pos (suc n))) same (at ∙ ap some up),
            omega arith,
            rw here (omega arith),
          )
      | inr elsewhere ↦ (n, ground (arith, get-put d j k (pred i)), one, rw elsewhere (omega arith))
    ]

is_zero-eq-zero : (i : ℤ) → is_zero i ≡ true → i ≡ pos 0
is_zero-eq-zero (pos n) h = ap pos (ground arith)
is_zero-eq-zero (negsuc n) h = cc

Fresh-joined :
    (j : String) (js fresh : List String) (d : Dict.Dict ℤ) (i : ℤ)
    → Dict.get d j ≡ some i
    → is_zero (pred i) ≡ true
    → Fresh js fresh (Dict.put d j (pred i))
    → Fresh (j ∷ js) (j ∷ fresh) d
Fresh-joined j js fresh d i at zero_now f =
    let none = is_zero-eq-zero (pred i) zero_now in
    let new : contains fresh j ≡ false = elim (Bool-cases (contains fresh j)) [
      | inl twice ↦
          let (n, e, one, few) = f.low j twice in
          let z : n ≡ 0 = ground (arith, get-put d j j (pred i), eq_iff j j) in
          let no : ⊥ = omega arith in absurd no
      | inr e ↦ e
    ] in
    record {
      distinct = ground (arith, f.distinct);
      low = λ k h. elim (Bool-cases (j == k)) [
        | inl here ↦
            let same : j ≡ k = ground (arith, eq_iff j k) in
            (
              1,
              subst (λ x. Dict.get d x ≡ some (pos 1)) same (at ∙ ap some (pred-pos i 0 none)),
              omega arith,
              rw here (omega arith),
            )
        | inr elsewhere ↦ Fresh-cons j js fresh d i at f k (ground arith)
      ];
    }

pub queue_lem :
    (js : List String) (d : Dict.Dict ℤ)
    → ((k : String) → contains js k ≡ true → Dict.has d k ≡ true)
    → (d' : Dict.Dict ℤ) × (fresh : List String) × (lower_all js d ≡ ok d')
      × ((ready : List String)
          → lower_and_queue js (record { indegree = d; ready = ready })
            ≡ ok (record { indegree = d'; ready = ready ++ fresh }))
      × Fresh js fresh d
unfolding lower_all lower_and_queue
queue_lem [] d there = (
  d,
  [],
  refl,
  λ ready. ap (λ r. ok (record { indegree = d; ready = r })) (sym (append-nil ready)),
  record { distinct = refl; low = λ k h. cc },
)
queue_lem (j ∷ js) d there =
    let (i, at) = present d j (there j (ground (arith, eq_iff j j))) in
    let (d', fresh, lowered, queued, f) =
      queue_lem js (Dict.put d j (pred i))
        (λ k h. has-put d j k (pred i) (there k (ground arith))) in
    elim (Bool-cases (is_zero (pred i))) [
      | inl zero_now ↦ (
        d',
        j ∷ fresh,
        rw at lowered,
        λ ready.
            rw (at, zero_now) (queued (ready ++ j ∷ []))
            ∙ ap (λ r. ok (record { indegree = d'; ready = r }))
                (append_assoc ready (j ∷ []) fresh),
        Fresh-joined j js fresh d i at zero_now f,
      )
      | inr other ↦ (
        d',
        fresh,
        rw at lowered,
        λ ready. rw (at, other) (queued ready),
        record { distinct = f.distinct; low = Fresh-cons j js fresh d i at f },
      )
    ]
