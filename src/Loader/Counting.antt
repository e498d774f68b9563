-- ===== src/Loader/Counting.antt =====
-- The tables of `_cycle_nodes`: the degrees count the needs, and the dependents are those of the
-- compiler.
use contractplane.Prelude.Dict
use contractplane.Prelude.Dict.{get-put}
use contractplane.Prelude.Int.{pos}
use contractplane.Prelude.{
  ℕ, suc, ◌+◌, String, ◌≡◌, refl, ap, ◌∙◌, subst, inl, inr, true, false, some, List, [], ◌∷◌, ◌++◌,
  arith, ◌==◌, eq_iff, and-eq-true, length, all, contains, are_distinct, Member,
}
use contractplane.Errors.{ok}
use contractplane.Models.{Stage}
use contractplane.Compiler.{ids_of, link_needs, link_stages}
use contractplane.Compiler.Lookup.{Member-ids_of, present, has-put}
use contractplane.Loader.Queue.{Links, count_needs, count_all}

-- What the loop over the needs of one stage does.
record Counted (ids : List String) (id : String) (n : ℕ) (l l' : Links) : Type 0 where
  degree : Dict.get l'.indegree id ≡ some (pos n)
  others : (k : String) → (id == k) ≡ false → Dict.get l'.indegree k ≡ Dict.get l.indegree k
  kept : (k : String) → contains ids k ≡ true → Dict.has l'.dependents k ≡ true

module _ (flow : String) (ids : List String) (m : Dict.Dict Stage)
    (stages_known : (k : String) → contains ids k ≡ true → Dict.has m k ≡ true) where
  count_step :
      (id need : String) (needs : List String) (l : Links) (n : ℕ) (behind : List String)
      → contains ids need ≡ true
      → Dict.get l.indegree id ≡ some (pos n)
      → Dict.get l.dependents need ≡ some behind
      → count_needs ids id (need ∷ needs) l
        ≡ count_needs ids id needs (record {
          indegree = Dict.put l.indegree id (pos (suc n));
          dependents = Dict.put l.dependents need (behind ++ id ∷ []);
        })
  unfolding count_needs
  count_step id need needs l n behind here at found = ground arith

  link_step :
      (id need : String) (needs : List String) (d : Dict.Dict (List String)) (behind : List String)
      → Dict.has m need ≡ true
      → Dict.get d need ≡ some behind
      → link_needs flow m id (need ∷ needs) d
        ≡ link_needs flow m id needs (Dict.put d need (behind ++ id ∷ []))
  unfolding link_needs
  link_step id need needs d behind here found = rw (here, found) refl

  count_needs_lem :
      (id : String) (needs : List String) (l : Links) (n : ℕ)
      → all (contains ids) needs ≡ true
      → Dict.get l.indegree id ≡ some (pos n)
      → ((k : String) → contains ids k ≡ true → Dict.has l.dependents k ≡ true)
      → (l' : Links) × (count_needs ids id needs l ≡ ok l')
        × (link_needs flow m id needs l.dependents ≡ ok l'.dependents)
        × Counted ids id (n + length needs) l l'
  unfolding count_needs link_needs
  count_needs_lem id [] l n known at there = (
    l,
    refl,
    refl,
    record {
      degree = at ∙ ap (λ i. some (pos i)) (let e : n ≡ n + 0 = omega arith in e);
      others = λ k e. refl;
      kept = there;
    },
  )
  count_needs_lem id (need ∷ needs) l n known at there =
      let (here, rest) = and-eq-true (contains ids need) _ known in
      let (behind, found) = present l.dependents need (there need here) in
      let l₁ : Links = record {
        indegree = Dict.put l.indegree id (pos (suc n));
        dependents = Dict.put l.dependents need (behind ++ id ∷ []);
      } in
      let (l', e, linked, c) =
        count_needs_lem id needs l₁ (suc n) rest
          (ground (arith, get-put l.indegree id id (pos (suc n)), eq_iff id id))
          (λ k h. has-put l.dependents need k _ (there k h)) in
      (
        l',
        count_step id need needs l n behind here at found ∙ e,
        link_step id need needs l.dependents behind (stages_known need here) found ∙ linked,
        record {
          degree =
              c.degree
              ∙ ap (λ i. some (pos i))
                  (let e : suc n + length needs ≡ n + suc (length needs) = omega arith in e);
          others = λ k e. c.others k e ∙ ground (arith, get-put l.indegree id k (pos (suc n)));
          kept = c.kept;
        },
      )

  pub count_all_lem :
      (ss : List Stage) (l : Links)
      → are_distinct (ids_of ss) ≡ true
      → all (λ s. all (contains ids) s.needs) ss ≡ true
      → ((s : Stage) → Member s ss → Dict.get l.indegree s.id ≡ some (pos 0))
      → ((k : String) → contains ids k ≡ true → Dict.has l.dependents k ≡ true)
      → (l' : Links) × (count_all ids ss l ≡ ok l')
        × (link_stages flow m ss l.dependents ≡ ok l'.dependents)
        × ((s : Stage) → Member s ss → Dict.get l'.indegree s.id ≡ some (pos (length s.needs)))
        × ((k : String)
            → contains (ids_of ss) k ≡ false
            → Dict.get l'.indegree k ≡ Dict.get l.indegree k)
  unfolding count_all link_stages
  count_all_lem [] l distinct known at there = (l, refl, refl, λ s n. absurd n, λ k h. refl)
  count_all_lem (s ∷ ss) l distinct known at there =
      let (here, rest) = and-eq-true (all (contains ids) s.needs) _ known in
      let (l₁, e₁, linked₁, c) = count_needs_lem s.id s.needs l 0 here (at s (inl refl)) there in
      let (l', e, linked, degrees, others) =
        count_all_lem ss l₁ (ground arith) rest
          (λ x n.
            c.others x.id (ground (arith, eq_iff s.id x.id, Member-ids_of x ss n)) ∙ at x (inr n))
          c.kept in
      (
        l',
        rw e₁ e,
        rw linked₁ linked,
        λ x n. elim n [
          | inl same ↦
              subst (λ y. Dict.get l'.indegree y.id ≡ some (pos (length y.needs))) same
                (others s.id (ground arith)
                  ∙ c.degree
                  ∙ ap (λ i. some (pos i))
                      (let e : 0 + length s.needs ≡ length s.needs = omega arith in e))
          | inr later ↦ degrees x later
        ],
        λ k h. others k (ground arith) ∙ c.others k (ground arith),
      )
