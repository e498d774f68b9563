-- ===== src/Compiler/Rounds.antt =====
-- The loop of `topological_waves` ends: the rounds of the model are enough for every flow.
use contractplane.Prelude.Dict
use contractplane.Prelude.Int.{ℤ}
use contractplane.Prelude.{
  ℕ, zero, suc, ◌+◌, ◌≤◌, String, ◌≡◌, refl, ap, subst, ◌≢◌, inl, inr, Bool, true, false, not, List,
  [], ◌∷◌, arith, length, without, length-without_contained,
}
use contractplane.Errors.{
  no_rounds_left, Exception, Result, ok, raise, ◌>>=◌, ◌>>◌, >>=-eq-ok, Result-cases, ok-injective,
}
use contractplane.Models.{Stage, Flow, found_at}
use contractplane.Compiler.{
  free_among, keyed, sorted_by, items_at, lower_all, remove, release, Waiting, Tables, check_ready,
  waves_from, topological_waves, stages_by_id, link_needs, link_stages,
}

unfoldable pub out_of_rounds : Exception → Bool
out_of_rounds no_rounds_left = true
out_of_rounds e = false

-- The rounds were enough.
unfoldable pub is_bounded {ℓ} : {A : Type ℓ} → Result A → Bool
unfolding out_of_rounds
is_bounded (ok a) = true
is_bounded (raise e) = not (out_of_rounds e)

link_needs-is_bounded :
    (flow : String) (stages : Dict.Dict Stage) (id : String) (needs : List String)
    (d : Dict.Dict (List String))
    → is_bounded (link_needs flow stages id needs d) ≡ true
unfolding link_needs is_bounded out_of_rounds
link_needs-is_bounded flow stages id [] d = refl
link_needs-is_bounded flow stages id (need ∷ needs) d =
    grind (arith, link_needs-is_bounded flow stages id needs)

link_stages-is_bounded :
    (flow : String) (stages : Dict.Dict Stage) (ss : List Stage) (d : Dict.Dict (List String))
    → is_bounded (link_stages flow stages ss d) ≡ true
unfolding link_stages is_bounded
link_stages-is_bounded flow stages [] d = refl
link_stages-is_bounded flow stages (s ∷ ss) d =
    grind (
      arith,
      link_needs-is_bounded flow stages s.id s.needs d,
      link_stages-is_bounded flow stages ss,
    )

pub free_among-is_bounded :
    (d : Dict.Dict ℤ) (ids : List String) → is_bounded (free_among d ids) ≡ true
unfolding free_among is_bounded out_of_rounds
free_among-is_bounded d [] = refl
free_among-is_bounded d (id ∷ ids) = ground (arith, free_among-is_bounded d ids)

keyed-is_bounded : (d : Dict.Dict ℕ) (ids : List String) → is_bounded (keyed d ids) ≡ true
unfolding keyed is_bounded out_of_rounds
keyed-is_bounded d [] = refl
keyed-is_bounded d (id ∷ ids) = ground (arith, keyed-is_bounded d ids)

sorted_by-is_bounded : (d : Dict.Dict ℕ) (ids : List String) → is_bounded (sorted_by d ids) ≡ true
unfolding sorted_by is_bounded
sorted_by-is_bounded d ids = ground (arith, keyed-is_bounded d ids)

items_at-is_bounded : (d : Dict.Dict Stage) (ids : List String) → is_bounded (items_at d ids) ≡ true
unfolding items_at is_bounded out_of_rounds
items_at-is_bounded d [] = refl
items_at-is_bounded d (id ∷ ids) = ground (arith, items_at-is_bounded d ids)

lower_all-is_bounded : (ids : List String) (d : Dict.Dict ℤ) → is_bounded (lower_all ids d) ≡ true
unfolding lower_all is_bounded out_of_rounds
lower_all-is_bounded [] d = refl
lower_all-is_bounded (id ∷ ids) d = grind (arith, lower_all-is_bounded ids)

release-is_bounded :
    (dependents : Dict.Dict (List String)) (ids : List String) (w : Waiting)
    → is_bounded (release dependents ids w) ≡ true
unfolding release remove is_bounded out_of_rounds
release-is_bounded dependents [] w = refl
release-is_bounded dependents (id ∷ ids) w =
    grind (arith, lower_all-is_bounded, release-is_bounded dependents ids)

-- A removal shortens the list.
remove-shortens :
    (id : String) (ids left : List String)
    → remove id ids ≡ ok left
    → suc (length left) ≤ length ids
unfolding remove
remove-shortens id ids left h =
    ground (arith, length-without_contained id ids, ok-injective {a = without id ids} {b = left})

release-shortens :
    (dependents : Dict.Dict (List String)) (ids : List String) (w w' : Waiting)
    → release dependents ids w ≡ ok w'
    → length w'.remaining + length ids ≤ length w.remaining
unfolding release
release-shortens dependents [] w w' h =
    subst (λ x. length x.remaining + 0 ≤ length w.remaining) (ok-injective h) (omega arith)
release-shortens dependents (id ∷ ids) w w' h =
    let (left, removed, h₁) = >>=-eq-ok (remove id w.remaining) _ h in
    let (behind, found, h₂) = >>=-eq-ok (found_at id (Dict.get dependents id)) _ h₁ in
    let (d, lowered, h₃) = >>=-eq-ok (lower_all behind w.indegree) _ h₂ in
    let rest = release-shortens dependents ids _ w' h₃ in
    let one = remove-shortens id w.remaining left removed in omega arith

check_ready-some :
    (t : Tables) (remaining ready : List String) {u : Unit {0}}
    → check_ready t remaining ready ≡ ok u
    → 1 ≤ length ready
unfolding check_ready
check_ready-some t remaining [] h =
    let (blocked, sorted, same) = >>=-eq-ok (sorted_by t.order remaining) _ h in cc
check_ready-some t remaining (id ∷ ids) h = omega arith

check_ready-is_bounded :
    (t : Tables) (remaining ready : List String) → is_bounded (check_ready t remaining ready) ≡ true
unfolding check_ready is_bounded out_of_rounds
check_ready-is_bounded t remaining [] = ground (arith, sorted_by-is_bounded t.order remaining)
check_ready-is_bounded t remaining (id ∷ ids) = refl

-- A round behind the choice of the ready stages.
round-is_bounded :
    (bound : ℕ) (t : Tables) (remaining ready : List String) (d : Dict.Dict ℤ)
    → length remaining ≤ suc bound
    → ((w : Waiting)
        → length w.remaining ≤ bound
        → is_bounded (waves_from bound t w.remaining w.indegree) ≡ true)
    → is_bounded (
        check_ready t remaining ready
        >> (items_at t.stage_map ready >>= λ wave.
            release t.dependents ready (record { remaining = remaining; indegree = d }) >>= λ w.
            waves_from bound t w.remaining w.indegree >>= λ waves. ok (wave ∷ waves)))
      ≡ true
unfolding is_bounded
round-is_bounded bound t remaining ready d short next =
    elim (Result-cases (check_ready t remaining ready)) [
      | inl (u, some_ready) ↦
          elim (Result-cases
            (release t.dependents ready (record { remaining = remaining; indegree = d }))) [
              | inl (w, released) ↦
                  let one = check_ready-some t remaining ready some_ready in
                  let fewer = release-shortens t.dependents ready _ w released in
                  let bounded = next w (omega arith) in
                  ground (arith, items_at-is_bounded t.stage_map ready)
              | inr (e, failed) ↦ ground (
                arith,
                items_at-is_bounded t.stage_map ready,
                release-is_bounded t.dependents ready
                    (record { remaining = remaining; indegree = d }),
              )
            ]
      | inr (e, failed) ↦ ground (arith, check_ready-is_bounded t remaining ready)
    ]

waves_from-is_bounded :
    (bound : ℕ) (t : Tables) (remaining : List String) (d : Dict.Dict ℤ)
    → length remaining ≤ bound
    → is_bounded (waves_from bound t remaining d) ≡ true
unfolding waves_from is_bounded out_of_rounds
waves_from-is_bounded bound t [] d h = refl
waves_from-is_bounded zero t (id ∷ ids) d h = let e : ⊥ = omega arith in absurd e
waves_from-is_bounded (suc bound) t (id ∷ ids) d h =
    let next : (ready : List String) → _ = λ ready.
      round-is_bounded bound t (id ∷ ids) ready d h
        (λ w m. waves_from-is_bounded bound t w.remaining w.indegree m) in
    grind (arith, free_among-is_bounded d (id ∷ ids), sorted_by-is_bounded t.order, next)

-- `topological_waves` ends for every flow, also one that has a cycle, an unknown need or an id
-- twice: the loop is over before as many rounds as there are ids.
pub topological_waves-ends : (flow : Flow) → topological_waves flow ≢ raise no_rounds_left
unfolding topological_waves is_bounded out_of_rounds
topological_waves-ends flow h =
    let bounded : is_bounded (topological_waves flow) ≡ true = grind (
      arith,
      link_stages-is_bounded flow.id _ flow.stages _,
      waves_from-is_bounded (length (Dict.keys (stages_by_id flow.stages))),
    ) in
    let out : is_bounded (topological_waves flow) ≡ false = ap is_bounded h in cc
