-- ===== src/Compiler/Waves.antt =====
-- What the waves of a flow are good for: no stage comes before one that it needs, none is lost, and
-- only a cycle stops them.
use contractplane.Prelude.{
  all-Member, ℕ, zero, suc, ◌+◌, String, ◌≡◌, refl, sym, ap, ◌∙◌, inl, inr, Bool, true, not, ◌&&◌,
  ◌||◌, List, [], ◌∷◌, ◌++◌, arith, ◌==◌, eq_iff, length, all, keep, any-append, contains,
  are_distinct, count, Member, Member-keep,
}
use contractplane.Errors.{Result, ok, require, >>=-eq-ok, require-eq-ok, ok-injective}
use contractplane.Models.{Stage, Flow}
use contractplane.Prelude.Dict
use contractplane.Models.{found_at}
use contractplane.Compiler.{ids_of, topological_waves, link_needs, link_stages, stages_by_id}
use contractplane.Compiler.Reference.{
  is_free, ready_of, rest_of, with_ready, rounds, reference_waves,
}
use contractplane.Compiler.Agrees.{
  needs_known, topological_waves-eq-reference_waves, all_cong, has-stages_by_id,
}

-- The stages of all waves.
abbrev pub all_of : List (List Stage) → List Stage
all_of [] = []
all_of (wave ∷ waves) = wave ++ all_of waves

-- Every need of a stage is among the names, or in an earlier wave.
abbrev pub come_after : List String → List (List Stage) → Bool
come_after before [] = true
come_after before (wave ∷ waves) =
    all (λ stage. all (contains before) stage.needs) wave
    && come_after (before ++ ids_of wave) waves

-- Each stage is in the waves as often as in the list.
SameStages : List Stage → List (List Stage) → Type 0
SameStages ss waves = (k : String) → count k (ids_of (all_of waves)) ≡ count k (ids_of ss)

count-ids_of_append :
    (k : String) (xs ys : List Stage)
    → count k (ids_of (xs ++ ys)) ≡ count k (ids_of xs) + count k (ids_of ys)
count-ids_of_append k [] ys = omega arith
count-ids_of_append k (x ∷ xs) ys = omega (arith, count-ids_of_append k xs ys)

-- A list is parted by a test.
count_parted :
    (p : Stage → Bool) (k : String) (ss : List Stage)
    → count k (ids_of (keep p ss)) + count k (ids_of (keep (λ s. not (p s)) ss))
      ≡ count k (ids_of ss)
count_parted p k [] = refl
count_parted p k (s ∷ ss) = ground (arith, count_parted p k ss)

pub with_ready-eq-ok :
    (flow : String) (pending ready : List Stage) (rest : Result (List (List Stage)))
    (waves : List (List Stage))
    → with_ready flow pending ready rest ≡ ok waves
    → (others : List (List Stage)) × (rest ≡ ok others) × (waves ≡ ready ∷ others)
with_ready-eq-ok flow pending [] rest waves h = cc
with_ready-eq-ok flow pending (s ∷ ss) rest waves h =
    let (others, e, same) = >>=-eq-ok rest _ h in (others, e, cc)

rounds-SameStages :
    (bound : ℕ) (flow : String) (pending : List Stage) (waves : List (List Stage))
    → rounds bound flow pending ≡ ok waves
    → SameStages pending waves
unfolding rounds SameStages
rounds-SameStages bound flow [] waves h k =
    ap (λ ws. count k (ids_of (all_of ws))) (sym (ok-injective h))
rounds-SameStages zero flow (s ∷ ss) waves h k = cc
rounds-SameStages (suc bound) flow (s ∷ ss) waves h k =
    let pending = s ∷ ss in
    let (others, e, same) =
      with_ready-eq-ok flow pending (ready_of pending) (rounds bound flow (rest_of pending)) waves
        h in
    ap (λ ws. count k (ids_of (all_of ws))) same
    ∙ count-ids_of_append k (ready_of pending) (all_of others)
    ∙ ap (λ n. count k (ids_of (ready_of pending)) + n)
        (rounds-SameStages bound flow (rest_of pending) others e k)
    ∙ count_parted (is_free pending) k pending

all-intro :
    (p : String → Bool) (ks : List String)
    → ((k : String) → contains ks k ≡ true → p k ≡ true)
    → all p ks ≡ true
all-intro p [] h = refl
all-intro p (k ∷ ks) h =
    rw (h k (ground (arith, eq_iff k k))) (all-intro p ks (λ j m. h j (ground arith)))

pub all_at :
    (p : String → Bool) (ks : List String) (k : String)
    → all p ks ≡ true
    → contains ks k ≡ true
    → p k ≡ true
all_at p [] k h m = cc
all_at p (j ∷ ks) k h m = ground (arith, eq_iff j k, all_at p ks k)

all_shown :
    (p : Stage → Bool) (ss : List Stage)
    → ((s : Stage) → Member s ss → p s ≡ true)
    → all p ss ≡ true
all_shown p [] h = refl
all_shown p (s ∷ ss) h = rw (h s (inl refl)) (all_shown p ss (λ x m. h x (inr m)))

contains_parted :
    (p : Stage → Bool) (k : String) (ss : List Stage)
    → contains (ids_of ss) k
      ≡ (contains (ids_of (keep p ss)) k || contains (ids_of (keep (λ s. not (p s)) ss)) k)
contains_parted p k [] = refl
contains_parted p k (s ∷ ss) = ground (arith, contains_parted p k ss)

-- Every need of the pending stages is behind or pending.
Placed : List String → List Stage → Type 0
Placed before pending =
    (s : Stage)
    → Member s pending
    → (need : String) → contains s.needs need ≡ true
    → (contains before need || contains (ids_of pending) need) ≡ true

next-Placed :
    (before : List String) (pending : List Stage)
    → Placed before pending
    → Placed (before ++ ids_of (ready_of pending)) (rest_of pending)
unfolding Placed
next-Placed before pending placed s m need wanted =
    let known = placed s (Member-keep (λ x. not (is_free pending x)) s pending m).0 need wanted in
    ground (
      arith,
      any-append (λ x. x == need) before (ids_of (ready_of pending)),
      contains_parted (is_free pending) need pending,
    )

ready-come_after :
    (before : List String) (pending : List Stage)
    → Placed before pending
    → all (λ s. all (contains before) s.needs) (ready_of pending) ≡ true
unfolding Placed
ready-come_after before pending placed = all_shown _ (ready_of pending) (λ s m.
    let (there, free) = Member-keep (is_free pending) s pending m in
    all-intro (contains before) s.needs (λ need wanted.
      let known = placed s there need wanted in
      let absent = all_at (λ k. not (contains (ids_of pending) k)) s.needs need free wanted in
      ground arith))

rounds-come_after :
    (bound : ℕ) (flow : String) (before : List String) (pending : List Stage)
    (waves : List (List Stage))
    → Placed before pending
    → rounds bound flow pending ≡ ok waves
    → come_after before waves ≡ true
unfolding rounds
rounds-come_after bound flow before [] waves placed h =
    ap (come_after before) (sym (ok-injective h))
rounds-come_after zero flow before (s ∷ ss) waves placed h = cc
rounds-come_after (suc bound) flow before (s ∷ ss) waves placed h =
    let pending = s ∷ ss in
    let (others, e, same) =
      with_ready-eq-ok flow pending (ready_of pending) (rounds bound flow (rest_of pending)) waves
        h in
    ap (come_after before) same
    ∙ rw (ready-come_after before pending placed) (
        rounds-come_after bound flow (before ++ ids_of (ready_of pending)) (rest_of pending) others
          (next-Placed before pending placed) e)

-- The needs are known where the linking of the stages does not raise.
link_needs-known :
    (flow : String) (m : Dict.Dict Stage) (id : String) (needs : List String)
    (d d' : Dict.Dict (List String))
    → link_needs flow m id needs d ≡ ok d'
    → all (Dict.has m) needs ≡ true
unfolding link_needs
link_needs-known flow m id [] d d' h = refl
link_needs-known flow m id (need ∷ needs) d d' h =
    let (u, known, h₁) = >>=-eq-ok (require (Dict.has m need) _) _ h in
    let (behind, found, h₂) = >>=-eq-ok (found_at need (Dict.get d need)) _ h₁ in
    rw (require-eq-ok _ _ known) (link_needs-known flow m id needs _ d' h₂)

link_stages-known :
    (flow : String) (m : Dict.Dict Stage) (ss : List Stage) (d d' : Dict.Dict (List String))
    → link_stages flow m ss d ≡ ok d'
    → all (λ s. all (Dict.has m) s.needs) ss ≡ true
unfolding link_stages
link_stages-known flow m [] d d' h = refl
link_stages-known flow m (s ∷ ss) d d' h =
    let (d₁, linked, h₁) = >>=-eq-ok (link_needs flow m s.id s.needs d) _ h in
    rw (link_needs-known flow m s.id s.needs d d₁ linked) (link_stages-known flow m ss d₁ d' h₁)

pub topological_waves-known :
    (flow : Flow) (waves : List (List Stage))
    → topological_waves flow ≡ ok waves
    → needs_known flow.stages ≡ true
unfolding topological_waves
topological_waves-known flow waves h =
    let m = stages_by_id flow.stages in
    let (d, linked, h₁) = >>=-eq-ok (link_stages flow.id m flow.stages _) _ h in
    all_cong _ _ flow.stages (λ s. all_cong _ _ s.needs (λ k. sym (has-stages_by_id flow.stages k)))
    ∙ link_stages-known flow.id m flow.stages _ d linked

pub record IsSchedule (ss : List Stage) (waves : List (List Stage)) : Type 0 where
  pub ordered : come_after [] waves ≡ true
  pub same_stages : (k : String) → count k (ids_of (all_of waves)) ≡ count k (ids_of ss)

-- If no two stages of a flow have the same id and `topological_waves` returns, then each stage of
-- the flow is in the waves once, nothing else is, and every need of a stage is the id of a stage of
-- an earlier wave.
pub topological_waves-IsSchedule :
    (flow : Flow) (waves : List (List Stage))
    → are_distinct (ids_of flow.stages) ≡ true
    → topological_waves flow ≡ ok waves
    → IsSchedule flow.stages waves
unfolding reference_waves SameStages Placed
topological_waves-IsSchedule flow waves distinct h =
    let ss = flow.stages in
    let known = topological_waves-known flow waves h in
    let e = sym (topological_waves-eq-reference_waves flow distinct known) ∙ h in
    record {
      ordered =
          rounds-come_after (length ss) flow.id [] ss waves
            (λ s m need wanted. all_at _ s.needs need (all-Member _ ss s known m) wanted) e;
      same_stages = rounds-SameStages (length ss) flow.id ss waves e;
    }
