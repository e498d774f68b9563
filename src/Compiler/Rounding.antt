-- ===== src/Compiler/Rounding.antt =====
-- A round of `topological_waves` is a round of the reference.
use contractplane.Prelude.Dict
use contractplane.Prelude.Dict.{get-put}
use contractplane.Prelude.Int.{ℤ, pos}
use contractplane.Prelude.{
  ℕ, zero, suc, String, ◌≡◌, refl, ap, ◌∙◌, subst, inl, inr, Bool, true, false, not, ◌&&◌, some,
  List, [], ◌∷◌, arith, ◌==◌, eq_iff, Bool-cases, all, keep, contains, without, are_distinct,
  Member, Member-keep, keep_cong,
}
use contractplane.Errors.{Result, ok, ◌>>=◌, ◌>>◌}
use contractplane.Models.{Stage}
use contractplane.Compiler.{
  ids_of, free_among, sorted_by, items_at, release, Waiting, Tables, check_ready, waves_from,
}
use contractplane.Compiler.Lookup.{Member-ids_of, dependents_of}
use contractplane.Compiler.Sorting.{Rises, Rises-keep, sorted_by_rising}
use contractplane.Compiler.Release.{
  remaining_needs, remaining_needs-eq-zero, without_all, Degrees, release_lem,
}
use contractplane.Compiler.Reference.{is_free, ready_of, rest_of, with_ready, rounds}

pub free_among_lem :
    (remaining : List String) (d : Dict.Dict ℤ) (ss : List Stage)
    → ((s : Stage) → Member s ss → Dict.get d s.id ≡ some (pos (remaining_needs remaining s.needs)))
    → free_among d (ids_of ss)
      ≡ ok (ids_of (keep (λ s. all (λ need. not (contains remaining need)) s.needs) ss))
unfolding free_among
free_among_lem remaining d [] values = refl
free_among_lem remaining d (s ∷ ss) values =
    let free : Stage → Bool = λ s. all (λ need. not (contains remaining need)) s.needs in
    rw
      (
        values s (inl refl),
        free_among_lem remaining d ss (λ x m. values x (inr m)),
        remaining_needs-eq-zero remaining s.needs,
      )
      (elim (Bool-cases (free s)) [ inl e ↦ rw e refl | inr e ↦ rw e refl ])

items_at_lem :
    (m : Dict.Dict Stage) (ss : List Stage)
    → ((s : Stage) → Member s ss → Dict.get m s.id ≡ some s)
    → items_at m (ids_of ss) ≡ ok ss
unfolding items_at
items_at_lem m [] at = refl
items_at_lem m (s ∷ ss) at = rw (at s (inl refl), items_at_lem m ss (λ x i. at x (inr i)))

module _ (p : Stage → Bool) where
  pub contains-keep :
      (ss : List Stage) (k : String)
      → contains (ids_of (keep p ss)) k ≡ true
      → contains (ids_of ss) k ≡ true
  contains-keep [] k h = cc
  contains-keep (s ∷ ss) k h = ground (arith, contains-keep ss k)

  pub are_distinct-keep :
      (ss : List Stage) → are_distinct (ids_of ss) ≡ true → are_distinct (ids_of (keep p ss)) ≡ true
  are_distinct-keep [] h = refl
  are_distinct-keep (s ∷ ss) h = ground (arith, are_distinct-keep ss, contains-keep ss s.id)

  pub contains-keep_self :
      (ss : List Stage) (s : Stage)
      → are_distinct (ids_of ss) ≡ true
      → Member s ss
      → contains (ids_of (keep p ss)) s.id ≡ p s
  contains-keep_self [] s h m = absurd m
  contains-keep_self (x ∷ xs) s h (inl same) =
      subst (λ y. contains (ids_of (keep p (x ∷ xs))) y.id ≡ p y) same
        (ground (arith, eq_iff x.id x.id, contains-keep xs x.id))
  contains-keep_self (x ∷ xs) s h (inr m) =
      ground
        (arith, eq_iff x.id s.id, Member-ids_of s xs m, contains-keep_self xs s (ground arith) m)

keep-ids_of :
    (q : String → Bool) (ss : List Stage) → keep q (ids_of ss) ≡ ids_of (keep (λ s. q s.id) ss)
keep-ids_of q [] = refl
keep-ids_of q (s ∷ ss) = ground (arith, keep-ids_of q ss)

keep-keep :
    (p q : String → Bool) (xs : List String) → keep p (keep q xs) ≡ keep (λ x. q x && p x) xs
keep-keep p q [] = refl
keep-keep p q (x ∷ xs) = ground (arith, keep-keep p q xs)

keep_true : (xs : List String) → xs ≡ keep (λ x. not false) xs
keep_true [] = refl
keep_true (x ∷ xs) = ap (λ ys. x ∷ ys) (keep_true xs)

without_all_lem :
    (ks names : List String) → without_all ks names ≡ keep (λ x. not (contains ks x)) names
without_all_lem [] names = keep_true names
without_all_lem (k ∷ ks) names =
    without_all_lem ks (without k names)
    ∙ keep-keep (λ x. not (contains ks x)) (λ x. not (x == k)) names
    ∙ keep_cong _ _ names (λ x m. ground (arith, eq_iff x k, eq_iff k x))

-- Without the ids of the kept stages, the ids of the others remain.
without_all-keep :
    (p : Stage → Bool) (ss : List Stage)
    → are_distinct (ids_of ss) ≡ true
    → without_all (ids_of (keep p ss)) (ids_of ss) ≡ ids_of (keep (λ s. not (p s)) ss)
without_all-keep p ss h =
    without_all_lem (ids_of (keep p ss)) (ids_of ss)
    ∙ keep-ids_of (λ x. not (contains (ids_of (keep p ss)) x)) ss
    ∙ ap ids_of (keep_cong _ _ ss (λ s m. ap not (contains-keep_self p ss s h m)))

-- The round behind the choice of the ready stages.
round_lem :
    (t : Tables) (pending ready : List Stage) (d : Dict.Dict ℤ) (w : Waiting) (bound : ℕ)
    (rest : Result (List (List Stage)))
    → sorted_by t.order (ids_of pending) ≡ ok (ids_of pending)
    → items_at t.stage_map (ids_of ready) ≡ ok ready
    → release t.dependents (ids_of ready) (record { remaining = ids_of pending; indegree = d })
      ≡ ok w
    → waves_from bound t w.remaining w.indegree ≡ rest
    → (check_ready t (ids_of pending) (ids_of ready)
        >> (items_at t.stage_map (ids_of ready) >>= λ wave.
            release t.dependents
              (ids_of ready)
              (record { remaining = ids_of pending; indegree = d })
            >>= λ w. waves_from bound t w.remaining w.indegree >>= λ waves. ok (wave ∷ waves)))
      ≡ with_ready t.flow pending ready rest
unfolding check_ready
round_lem t pending [] d w bound rest sorted items released next = rw sorted
round_lem t pending (s ∷ ss) d w bound rest sorted items released next = rw (items, released, next)

-- What the loop keeps of its variables.
pub record Fits (stages : List Stage) (t : Tables) (pending : List Stage) (d : Dict.Dict ℤ)
    : Type 0 where
  pub inside : (s : Stage) → Member s pending → Member s stages
  pub distinct : are_distinct (ids_of pending) ≡ true
  pub rises : Rises t.order 0 pending
  pub degrees : Degrees stages pending (ids_of pending) d

module _ (stages : List Stage) (t : Tables) (distinct : are_distinct (ids_of stages) ≡ true)
    (found : (s : Stage) → Member s stages → Dict.get t.stage_map s.id ≡ some s)
    (linked : (k : String)
      → contains (ids_of stages) k ≡ true
      → Dict.get t.dependents k ≡ some (dependents_of stages k)) where
  ids-inside :
      (pending : List Stage)
      → ((s : Stage) → Member s pending → Member s stages)
      → (k : String) → contains (ids_of pending) k ≡ true
      → contains (ids_of stages) k ≡ true
  ids-inside [] inside k h = cc
  ids-inside (s ∷ ss) inside k h = elim (Bool-cases (s.id == k)) [
    | inl e ↦
        subst (λ x. contains (ids_of stages) x ≡ true)
          (let same : s.id ≡ k = ground (arith, eq_iff s.id k) in same)
          (Member-ids_of s stages (inside s (inl refl)))
    | inr e ↦ ids-inside ss (λ x m. inside x (inr m)) k (ground arith)
  ]

  next-Fits :
      (pending : List Stage) (d : Dict.Dict ℤ)
      → Fits stages t pending d
      → (d' : Dict.Dict ℤ) × (release t.dependents
            (ids_of (ready_of pending))
            (record { remaining = ids_of pending; indegree = d })
          ≡ ok (record { remaining = ids_of (rest_of pending); indegree = d' }))
        × Fits stages t (rest_of pending) d'
  next-Fits pending d f =
      let p = is_free pending in
      let (d', e, g) =
        release_lem stages pending distinct f.inside t.dependents linked (ids_of (ready_of pending))
          (ids_of pending) d (are_distinct-keep p pending f.distinct) (contains-keep p pending)
          (ids-inside pending f.inside) f.degrees in
      let same = without_all-keep p pending f.distinct in
      let q = λ (s : Stage). not (is_free pending s) in
      (
        d',
        e ∙ ap (λ r. ok (record { remaining = r; indegree = d' })) same,
        record {
          inside = λ s m. f.inside s (Member-keep q s pending m).0;
          distinct = are_distinct-keep q pending f.distinct;
          rises = Rises-keep t.order q 0 pending f.rises;
          degrees = record {
            has_keys = g.has_keys;
            values = λ s m.
                g.values s (Member-keep q s pending m).0
                ∙ ap (λ r. some (pos (remaining_needs r s.needs))) same;
          };
        },
      )

  pub waves_from-eq-rounds :
      (bound : ℕ) (pending : List Stage) (d : Dict.Dict ℤ)
      → Fits stages t pending d
      → waves_from bound t (ids_of pending) d ≡ rounds bound t.flow pending
  unfolding waves_from rounds
  waves_from-eq-rounds bound [] d f = refl
  waves_from-eq-rounds zero (s ∷ ss) d f = refl
  waves_from-eq-rounds (suc bound) (s ∷ ss) d f =
      let pending = s ∷ ss in
      let (d', released, next) = next-Fits pending d f in
      rw
        (
          free_among_lem (ids_of pending) d pending f.degrees.values,
          sorted_by_rising t.order 0 (ready_of pending)
              (Rises-keep t.order (is_free pending) 0 pending f.rises),
        )
        (round_lem t pending (ready_of pending) d _ bound _
          (sorted_by_rising t.order 0 pending f.rises)
          (items_at_lem t.stage_map (ready_of pending)
            (λ x m. found x (f.inside x (Member-keep (is_free pending) x pending m).0)))
          released (waves_from-eq-rounds bound (rest_of pending) d' next))
