-- ===== src/Loader/Visits.antt =====
-- The loop of `_cycle_nodes` visits a stage only behind all that it needs.
use mathlib.Core.List.{append-nil, append_assoc}
use contractplane.Prelude.Dict
use contractplane.Prelude.Dict.{get-put}
use contractplane.Prelude.Int.{ℤ}
use contractplane.Prelude.{
  ℕ, zero, suc, ◌≤◌, String, ◌≡◌, refl, sym, ap, ◌∙◌, subst, inl, inr, true, false, not, ◌||◌, some,
  List, [], ◌∷◌, ◌++◌, arith, ◌==◌, eq_iff, Bool-cases, all, any-append, contains, without,
  are_distinct, count, count_absent, contains-without, Member,
}
use contractplane.Errors.{ok, >>=-eq-ok, ok-injective}
use contractplane.Models.{Stage, found_at}
use contractplane.Compiler.{ids_of}
use contractplane.Compiler.Lookup.{dependents_of, count-dependents_of, contains-dependents_of}
use contractplane.Compiler.Release.{remaining_needs, remaining_needs-without, Degrees, lower_one}
use contractplane.Compiler.Cycles.{stage_at}
use contractplane.Loader.Queue.{lower_and_queue, visit}
use contractplane.Loader.Joining.{Fresh, queue_lem}

-- The stages of a queue of ids need nothing but what stands before them.
unfoldable pub IsOrdered : List Stage → List String → List String → Type 0
IsOrdered stages before [] = Unit
IsOrdered stages before (k ∷ ks) =
    ((s : Stage) → Member s stages → s.id ≡ k → all (contains before) s.needs ≡ true)
    × IsOrdered stages (before ++ k ∷ []) ks

-- What the loop keeps of its variables.
pub record IsQueued (stages : List Stage) (remaining visited ready : List String) (d : Dict.Dict ℤ)
    : Type 0 where
  pub degrees : Degrees stages stages remaining d
  pub distinct : are_distinct ready ≡ true
  pub unvisited : (k : String) → contains ready k ≡ true → contains remaining k ≡ true
  pub known : (k : String) → contains remaining k ≡ true → contains (ids_of stages) k ≡ true
  pub free :
      (s : Stage)
      → Member s stages
      → (contains ready s.id || not (contains remaining s.id)) ≡ true
      → remaining_needs remaining s.needs ≡ 0
  pub parted :
      (k : String)
      → contains (ids_of stages) k ≡ true
      → (contains remaining k || contains visited k) ≡ true

remaining_needs-none :
    (remaining visited needs : List String)
    → ((k : String) → contains needs k ≡ true → (contains remaining k || contains visited k) ≡ true)
    → remaining_needs remaining needs ≡ 0
    → all (contains visited) needs ≡ true
unfolding remaining_needs
remaining_needs-none remaining visited [] parted h = refl
remaining_needs-none remaining visited (need ∷ needs) parted h =
    let here = parted need (ground (arith, eq_iff need need)) in
    let rest =
      remaining_needs-none remaining visited needs (λ k m. parted k (ground arith))
        (ground arith) in
    ground arith

are_distinct-append :
    (xs ys : List String)
    → are_distinct xs ≡ true
    → are_distinct ys ≡ true
    → ((k : String) → contains xs k ≡ true → contains ys k ≡ false)
    → are_distinct (xs ++ ys) ≡ true
are_distinct-append [] ys dx dy apart = dy
are_distinct-append (x ∷ xs) ys dx dy apart =
    let rest = are_distinct-append xs ys (ground arith) dy (λ k h. apart k (ground arith)) in
    let new = apart x (ground (arith, eq_iff x x)) in ground (arith, any-append (λ y. y == x) xs ys)

contains_counted : (k : String) (ks : List String) → 1 ≤ count k ks → contains ks k ≡ true
contains_counted k ks h = elim (Bool-cases (contains ks k)) [
  | inl e ↦ e
  | inr e ↦ let none = count_absent k ks e in let no : ⊥ = omega arith in absurd no
]

module _ (stages : List Stage) (distinct : are_distinct (ids_of stages) ≡ true) where
  -- The stage of an id that joins the queue.
  joining_low :
      (k : String) (remaining : List String) (d : Dict.Dict ℤ) (fresh : List String)
      → contains remaining k ≡ true
      → Degrees stages stages remaining d
      → Fresh (dependents_of stages k) fresh d
      → (s : Stage) → Member s stages
      → contains fresh s.id ≡ true
      → (1 ≤ remaining_needs remaining s.needs)
        × (remaining_needs (without k remaining) s.needs ≡ 0)
  joining_low k remaining d fresh there g f s m h =
      let (n, e, one, few) = f.low s.id h in
      let same : n ≡ remaining_needs remaining s.needs = ground (arith, g.values s m) in
      let split = remaining_needs-without k remaining s.needs there in
      let times = count-dependents_of k stages s distinct m in (omega arith, omega arith)

  joining_stage :
      (k : String) (fresh : List String) (d : Dict.Dict ℤ)
      → Fresh (dependents_of stages k) fresh d
      → (j : String) → contains fresh j ≡ true
      → (s : Stage) × Member s stages × (s.id ≡ j)
  joining_stage k fresh d f j h =
      let (n, e, one, few) = f.low j h in
      stage_at stages j (
        contains-dependents_of k j stages
          (contains_counted j (dependents_of stages k) (omega arith)))

  -- What joins the queue was not in it, and is not visited.
  joining_new :
      (k : String) (ks remaining visited : List String) (d : Dict.Dict ℤ) (fresh : List String)
      → IsQueued stages remaining visited (k ∷ ks) d
      → Fresh (dependents_of stages k) fresh d
      → (j : String) → contains fresh j ≡ true
      → (contains remaining j ≡ true) × (contains (k ∷ ks) j ≡ false)
  joining_new k ks remaining visited d fresh q f j h =
      let (s, m, same) = joining_stage k fresh d f j h in
      let there = q.unvisited k (ground (arith, eq_iff k k)) in
      let (some_left, none_left) =
        joining_low k remaining d fresh there q.degrees f s m
          (subst (λ x. contains fresh x ≡ true) (sym same) h) in
      let was = q.free s m in
      let not_free : (contains (k ∷ ks) s.id || not (contains remaining s.id)) ≡ false =
        elim (Bool-cases (contains (k ∷ ks) s.id || not (contains remaining s.id))) [
          | inl e ↦ let zero_left = was e in let no : ⊥ = omega arith in absurd no
          | inr e ↦ e
        ] in
      subst (λ x. (contains remaining x ≡ true) × (contains (k ∷ ks) x ≡ false)) same
        (ground arith, ground arith)

  joined-IsQueued :
      (k : String) (ks remaining visited : List String) (d d' : Dict.Dict ℤ) (fresh : List String)
      → IsQueued stages remaining visited (k ∷ ks) d
      → Fresh (dependents_of stages k) fresh d
      → Degrees stages stages (without k remaining) d'
      → IsQueued stages (without k remaining) (visited ++ k ∷ []) (ks ++ fresh) d'
  joined-IsQueued k ks remaining visited d d' fresh q f g =
      let there = q.unvisited k (ground (arith, eq_iff k k)) in
      let new = joining_new k ks remaining visited d fresh q f in
      let once : (contains ks k ≡ false) × (are_distinct ks ≡ true) =
        (ground (arith, q.distinct), ground (arith, q.distinct)) in
      record {
        degrees = g;
        distinct = are_distinct-append ks fresh once.1 f.distinct (λ j h.
            elim (Bool-cases (contains fresh j)) [
              | inl twice ↦ let apart = (new j twice).1 in ground arith
              | inr e ↦ e
            ]);
        unvisited = λ j h. contains-without k j remaining ∙ elim (Bool-cases (contains fresh j)) [
          | inl joined ↦ let (left, apart) = new j joined in ground (arith, left, apart)
          | inr e ↦
              let in_queue : contains ks j ≡ true =
                ground (arith, any-append (λ x. x == j) ks fresh) in
              let left = q.unvisited j (ground arith) in ground (arith, once.0, eq_iff k j)
        ];
        known = λ j h. q.known j (ground (arith, contains-without k j remaining));
        free = λ s m h.
            let split = remaining_needs-without k remaining s.needs there in
            elim (Bool-cases (contains fresh s.id)) [
              | inl joined ↦ (joining_low k remaining d fresh there q.degrees f s m joined).1
              | inr e ↦
                  let was = q.free s m (
                    ground (
                      arith,
                      h,
                      contains-without k s.id remaining,
                      any-append (λ x. x == s.id) ks fresh,
                    )) in
                  omega arith
            ];
        parted = λ j h.
            let was = q.parted j h in
            ground
              (arith, contains-without k j remaining, any-append (λ x. x == j) visited (k ∷ []));
      }

  module _ (dependents : Dict.Dict (List String))
      (linked : (k : String)
        → contains (ids_of stages) k ≡ true
        → Dict.get dependents k ≡ some (dependents_of stages k)) where
    next-IsQueued :
        (k : String) (ks remaining visited : List String) (d : Dict.Dict ℤ)
        → IsQueued stages remaining visited (k ∷ ks) d
        → (d' : Dict.Dict ℤ) × (fresh : List String) × (lower_and_queue
              (dependents_of stages k)
              (record { indegree = d; ready = ks })
            ≡ ok (record { indegree = d'; ready = ks ++ fresh }))
          × IsQueued stages (without k remaining) (visited ++ k ∷ []) (ks ++ fresh) d'
    next-IsQueued k ks remaining visited d q =
        let there = q.unvisited k (ground (arith, eq_iff k k)) in
        let (d', fresh, lowered, queued, f) =
          queue_lem (dependents_of stages k) d
            (λ j h. q.degrees.has_keys j (contains-dependents_of k j stages h)) in
        let (d₂, lowered₂, g) =
          lower_one stages stages distinct (λ s m. m) dependents linked k remaining d there
            q.degrees in
        let g' =
          subst (Degrees stages stages (without k remaining))
            (ok-injective (sym lowered₂ ∙ lowered)) g in
        (d', fresh, queued ks, joined-IsQueued k ks remaining visited d d' fresh q f g')

    -- A ready stage needs nothing but visited ones.
    first-covered :
        (k : String) (ks remaining visited : List String) (d : Dict.Dict ℤ)
        → ((s : Stage)
            → Member s stages
            → (need : String) → contains s.needs need ≡ true
            → contains (ids_of stages) need ≡ true)
        → IsQueued stages remaining visited (k ∷ ks) d
        → (s : Stage) → Member s stages
        → s.id ≡ k
        → all (contains visited) s.needs ≡ true
    first-covered k ks remaining visited d known q s m same =
        remaining_needs-none remaining visited s.needs (λ j h. q.parted j (known s m j h))
          (q.free s m (ground (arith, eq_iff k s.id, sym same)))

    -- What the loop adds to the visited ids.
    pub visit_lem :
        (rounds : ℕ) (remaining visited ready : List String) (d : Dict.Dict ℤ)
        (all_visited : List String)
        → ((s : Stage)
            → Member s stages
            → (need : String) → contains s.needs need ≡ true
            → contains (ids_of stages) need ≡ true)
        → IsQueued stages remaining visited ready d
        → visit rounds dependents visited d ready ≡ ok all_visited
        → (more : List String) × (all_visited ≡ visited ++ more) × IsOrdered stages visited more
    unfolding visit IsOrdered
    visit_lem rounds remaining visited [] d all_visited known q h =
        ([], sym (ok-injective h) ∙ sym (append-nil visited), tt)
    visit_lem zero remaining visited (k ∷ ks) d all_visited known q h = cc
    visit_lem (suc rounds) remaining visited (k ∷ ks) d all_visited known q h =
        let there = q.known k (q.unvisited k (ground (arith, eq_iff k k))) in
        let (d', fresh, queued, next) = next-IsQueued k ks remaining visited d q in
        let (behind, found, h₁) = >>=-eq-ok (found_at k (Dict.get dependents k)) _ h in
        let (q', lowered, h₂) = >>=-eq-ok (lower_and_queue behind _) _ h₁ in
        let same_behind : behind ≡ dependents_of stages k = ground (arith, linked k there) in
        let same_queue = ok-injective (
          sym lowered
          ∙ ap (λ b. lower_and_queue b (record { indegree = d; ready = ks })) same_behind
          ∙ queued) in
        let (more, e, ordered) =
          visit_lem rounds (without k remaining) (visited ++ k ∷ []) (ks ++ fresh) d' all_visited
            known next
            (ap (λ x. visit rounds dependents (visited ++ k ∷ []) x.indegree x.ready)
                (sym same_queue)
              ∙ h₂) in
        (
          k ∷ more,
          e ∙ append_assoc visited (k ∷ []) more,
          (first-covered k ks remaining visited d known q, ordered),
        )
