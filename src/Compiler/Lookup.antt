-- ===== src/Compiler/Lookup.antt =====
-- What the tables of `topological_waves` hold, for stages with distinct ids.
use mathlib.Core.List.{append-nil, append_assoc}
use contractplane.Prelude.Dict
use contractplane.Prelude.Dict.{get-put}
use contractplane.Prelude.{
  String, ◌≡◌, refl, ap, ◌∙◌, subst, inl, inr, true, false, ◌||◌, some, List, [], ◌∷◌, ◌++◌, arith,
  ◌==◌, eq_iff, if◌then◌else◌, Bool-cases, Option-cases, and-eq-true, all, any-append, contains,
  are_distinct, count, count-append, Member,
}
use contractplane.Errors.{ok}
use contractplane.Models.{Stage}
use contractplane.Compiler.{table_onto, ids_of, link_needs, link_stages}

pub Member-ids_of :
    (s : Stage) (stages : List Stage) → Member s stages → contains (ids_of stages) s.id ≡ true
Member-ids_of s (x ∷ xs) (inl same) = ground (arith, eq_iff x.id s.id, ap (λ y. y.id) same)
Member-ids_of s (x ∷ xs) (inr m) = ground (arith, Member-ids_of s xs m)
Member-ids_of s [] m = absurd m

module _ {V : Type 0} (value : Stage → V) where
  -- A key that no stage has is left as it was.
  pub get-table_onto_absent :
      (d : Dict.Dict V) (stages : List Stage) (k : String)
      → contains (ids_of stages) k ≡ false
      → Dict.get (table_onto value d stages) k ≡ Dict.get d k
  unfolding table_onto
  get-table_onto_absent d [] k h = refl
  get-table_onto_absent d (s ∷ ss) k h =
      get-table_onto_absent (Dict.put d s.id (value s)) ss k (ground arith)
      ∙ ground (arith, get-put d s.id k (value s))

  pub get-table_onto :
      (d : Dict.Dict V) (stages : List Stage) (s : Stage)
      → are_distinct (ids_of stages) ≡ true
      → Member s stages
      → Dict.get (table_onto value d stages) s.id ≡ some (value s)
  unfolding table_onto
  get-table_onto d [] s h m = absurd m
  get-table_onto d (x ∷ xs) s h (inl same) =
      subst (λ y. Dict.get (table_onto value d (x ∷ xs)) y.id ≡ some (value y)) same
        (get-table_onto_absent (Dict.put d x.id (value x)) xs x.id (ground arith)
          ∙ ground (arith, get-put d x.id x.id (value x), eq_iff x.id x.id))
  get-table_onto d (x ∷ xs) s h (inr m) =
      get-table_onto (Dict.put d x.id (value x)) xs s (ground arith) m

  -- The keys are the ids of the stages.
  pub has-table_onto :
      (d : Dict.Dict V) (stages : List Stage) (k : String)
      → Dict.has (table_onto value d stages) k ≡ (contains (ids_of stages) k || Dict.has d k)
  unfolding table_onto
  has-table_onto d [] k = refl
  has-table_onto d (s ∷ ss) k =
      ground (arith, has-table_onto (Dict.put d s.id (value s)) ss k, get-put d s.id k (value s))

-- The stages that need `k`, as often as they do.
pub repeated : String → String → List String → List String
repeated k id [] = []
repeated k id (need ∷ needs) =
    let rest = repeated k id needs in if need == k then id ∷ rest else rest

pub dependents_of : List Stage → String → List String
unfolding repeated
dependents_of [] k = []
dependents_of (s ∷ ss) k = repeated k s.id s.needs ++ dependents_of ss k

pub present :
    {V : Type 0} (d : Dict.Dict V) (k : String)
    → Dict.has d k ≡ true
    → (v : V) × (Dict.get d k ≡ some v)
present d k h = elim (Option-cases (Dict.get d k)) [
  | inl e ↦ absurd (ground arith)
  | inr (v, e) ↦ (v, e)
]

pub has-put :
    {V : Type 0} (d : Dict.Dict V) (k j : String) (v : V)
    → Dict.has d j ≡ true
    → Dict.has (Dict.put d k v) j ≡ true
has-put d k j v h = ground (arith, get-put d k j v)

-- What a linking loop makes of the table: behind each list stands what `added` gives for its key.
pub record Linked (d d' : Dict.Dict (List String)) (added : String → List String) : Type 0 where
  pub entry :
      (k : String) (l : List String) → Dict.get d k ≡ some l → Dict.get d' k ≡ some (l ++ added k)
  pub kept : (k : String) → Dict.has d k ≡ true → Dict.has d' k ≡ true

module _ (flow : String) (stages : Dict.Dict Stage) where
  link_needs_lem :
      (id : String) (needs : List String) (d : Dict.Dict (List String))
      → all (λ need. Dict.has stages need) needs ≡ true
      → ((k : String) → Dict.has stages k ≡ true → Dict.has d k ≡ true)
      → (d' : Dict.Dict (List String)) × (link_needs flow stages id needs d ≡ ok d')
        × Linked d d' (λ k. repeated k id needs)
  unfolding link_needs repeated
  link_needs_lem id [] d known there =
      (d, refl, record { entry = λ k l e. rw append-nil e; kept = λ k h. h })
  link_needs_lem id (need ∷ needs) d known there =
      let (known_need, known_needs) = and-eq-true (Dict.has stages need) _ known in
      let (behind, at) = present d need (there need known_need) in
      let d₁ = Dict.put d need (behind ++ id ∷ []) in
      let (d', e, rest) =
        link_needs_lem id needs d₁ known_needs (λ k h. has-put d need k _ (there k h)) in
      (
        d',
        rw (known_need, at) e,
        record {
          entry = λ k l found. elim (Bool-cases (need == k)) [
            | inl here ↦
                let same : behind ≡ l = ground (arith, eq_iff need k) in
                rw here (
                  rest.entry k (behind ++ id ∷ [])
                    (ground (arith, get-put d need k (behind ++ id ∷ [])))
                  ∙ ap some (append_assoc behind (id ∷ []) (repeated k id needs))
                  ∙ ap (λ x. some (x ++ id ∷ repeated k id needs)) same)
            | inr elsewhere ↦
                rw elsewhere (rest.entry k l (ground (arith, get-put d need k (behind ++ id ∷ []))))
          ];
          kept = λ k h. rest.kept k (has-put d need k _ h);
        },
      )

  pub link_stages_lem :
      (rest : List Stage) (d : Dict.Dict (List String))
      → all (λ stage. all (Dict.has stages) stage.needs) rest ≡ true
      → ((k : String) → Dict.has stages k ≡ true → Dict.has d k ≡ true)
      → (d' : Dict.Dict (List String)) × (link_stages flow stages rest d ≡ ok d')
        × Linked d d' (dependents_of rest)
  unfolding link_stages dependents_of
  link_stages_lem [] d known there =
      (d, refl, record { entry = λ k l e. rw append-nil e; kept = λ k h. h })
  link_stages_lem (s ∷ ss) d known there =
      let (known_needs, known_rest) = and-eq-true (all (Dict.has stages) s.needs) _ known in
      let (d₁, e₁, first) = link_needs_lem s.id s.needs d known_needs there in
      let (d', e, rest) = link_stages_lem ss d₁ known_rest (λ k h. first.kept k (there k h)) in
      (
        d',
        rw e₁ e,
        record {
          entry = λ k l found.
              rest.entry k (l ++ repeated k s.id s.needs) (first.entry k l found)
              ∙ ap some (append_assoc l (repeated k s.id s.needs) (dependents_of ss k));
          kept = λ k h. rest.kept k (first.kept k h);
        },
      )

-- Each stage is behind its needs, as often as it names them.
count-repeated :
    (k id j : String) (needs : List String)
    → count j (repeated k id needs) ≡ (if id == j then count k needs else 0)
unfolding repeated
count-repeated k id j [] = ground arith
count-repeated k id j (need ∷ needs) = ground (arith, count-repeated k id j needs)

count-dependents_of_absent :
    (k j : String) (stages : List Stage)
    → contains (ids_of stages) j ≡ false
    → count j (dependents_of stages k) ≡ 0
unfolding dependents_of
count-dependents_of_absent k j [] h = refl
count-dependents_of_absent k j (s ∷ ss) h = ground (
  arith,
  count-append j (repeated k s.id s.needs) (dependents_of ss k),
  count-repeated k s.id j s.needs,
  count-dependents_of_absent k j ss,
)

pub count-dependents_of :
    (k : String) (stages : List Stage) (s : Stage)
    → are_distinct (ids_of stages) ≡ true
    → Member s stages
    → count s.id (dependents_of stages k) ≡ count k s.needs
unfolding dependents_of
count-dependents_of k [] s h m = absurd m
count-dependents_of k (x ∷ xs) s h (inl same) =
    subst (λ y. count y.id (dependents_of (x ∷ xs) k) ≡ count k y.needs) same
      (ground (
        arith,
        eq_iff x.id x.id,
        count-append x.id (repeated k x.id x.needs) (dependents_of xs k),
        count-repeated k x.id x.id x.needs,
        count-dependents_of_absent k x.id xs,
      ))
count-dependents_of k (x ∷ xs) s h (inr m) = ground (
  arith,
  eq_iff x.id s.id,
  Member-ids_of s xs m,
  count-append s.id (repeated k x.id x.needs) (dependents_of xs k),
  count-repeated k x.id s.id x.needs,
  count-dependents_of k xs s (ground arith) m,
)

-- All names in the lists are ids.
contains-repeated :
    (k id j : String) (needs : List String)
    → contains (repeated k id needs) j ≡ true
    → (id == j) ≡ true
unfolding repeated
contains-repeated k id j [] h = cc
contains-repeated k id j (need ∷ needs) h = ground (arith, contains-repeated k id j needs)

pub contains-dependents_of :
    (k j : String) (stages : List Stage)
    → contains (dependents_of stages k) j ≡ true
    → contains (ids_of stages) j ≡ true
unfolding dependents_of
contains-dependents_of k j [] h = cc
contains-dependents_of k j (s ∷ ss) h = ground (
  arith,
  any-append (λ x. x == j) (repeated k s.id s.needs) (dependents_of ss k),
  contains-repeated k s.id j s.needs,
  contains-dependents_of k j ss,
)
