-- ===== src/Loader/Accepted.antt =====
-- A flow in which `_cycle_nodes` finds nothing has its waves: the loader and the compiler agree.
use mathlib.Core.List.{append_assoc}
use contractplane.Prelude.Dict
use contractplane.Prelude.Int.{ℤ, pos}
use contractplane.Prelude.{
  all-Member, ℕ, suc, ◌≤◌, ◌<◌, String, ◌≡◌, refl, sym, ap, ◌∙◌, subst, inl, inr, Bool, true, false,
  not, some, List, [], ◌∷◌, ◌++◌, arith, ◌==◌, eq_iff, if◌then◌else◌, Bool-cases, is_some, length,
  all, keep, any-append, contains, are_distinct, Member,
}
use contractplane.Errors.{ok, >>=-eq-ok, ok-injective}
use contractplane.Models.{Stage, Flow}
use contractplane.Compiler.{ids_of, free_among, no_dependents, stages_by_id, topological_waves}
use contractplane.Compiler.Lookup.{
  Member-ids_of, get-table_onto, has-table_onto, dependents_of, link_stages_lem,
}
use contractplane.Compiler.Release.{remaining_needs, remaining_needs-eq-zero}
use contractplane.Compiler.Agrees.{
  remaining_needs-all, needs_known, all_cong, has-stages_by_id, get-no_dependents,
}
use contractplane.Compiler.Rounding.{
  free_among_lem, are_distinct-keep, contains-keep, contains-keep_self,
}
use contractplane.Compiler.Waves.{all_at}
use contractplane.Compiler.Cycles.{stage_at, Descends, topological_waves-total}
use contractplane.Loader.Queue.{Links, count_all, visit, no_needs, cycle_nodes}
use contractplane.Loader.Counting.{count_all_lem}
use contractplane.Loader.Visits.{IsOrdered, IsQueued, visit_lem}

-- The place of a name in a list, or its length.
position : String → List String → ℕ
position k [] = 0
position k (x ∷ xs) = let rest = position k xs in if x == k then 0 else suc rest

position_contained :
    (k : String) (xs ys : List String)
    → contains xs k ≡ true
    → suc (position k (xs ++ ys)) ≤ length xs
unfolding position
position_contained k [] ys h = cc
position_contained k (x ∷ xs) ys h = ground (arith, position_contained k xs ys)

position_absent :
    (k : String) (xs ys : List String) → contains xs k ≡ false → length xs ≤ position k (xs ++ ys)
unfolding position
position_absent k [] ys h = omega arith
position_absent k (x ∷ xs) ys h = ground (arith, position_absent k xs ys)

-- In an ordered list, a need stands before its stage.
IsOrdered-lower :
    (stages : List Stage) (before ks : List String) (s : Stage) (need : String)
    → IsOrdered stages before ks
    → Member s stages
    → contains s.needs need ≡ true
    → contains before s.id ≡ false
    → contains ks s.id ≡ true
    → position need (before ++ ks) < position s.id (before ++ ks)
unfolding IsOrdered
IsOrdered-lower stages before [] s need o m wanted new there = cc
IsOrdered-lower stages before (k ∷ ks) s need (here, later) m wanted new there =
    elim (Bool-cases (k == s.id)) [
      | inl e ↦
          let known =
            all_at (contains before) s.needs need (here s m (ground (arith, eq_iff k s.id)))
              wanted in
          let low = position_contained need before (k ∷ ks) known in
          let high = position_absent s.id before (k ∷ ks) new in omega arith
      | inr e ↦
          let rest =
            IsOrdered-lower stages (before ++ k ∷ []) ks s need later m wanted
              (ground (arith, any-append (λ x. x == s.id) before (k ∷ []))) (ground arith) in
          subst (λ xs. position need xs < position s.id xs) (append_assoc before (k ∷ []) ks) rest
    ]

none_left :
    (visited ids : List String) (k : String)
    → keep (λ id. not (contains visited id)) ids ≡ []
    → contains ids k ≡ true
    → contains visited k ≡ true
none_left visited [] k h m = cc
none_left visited (x ∷ xs) k h m = elim (Bool-cases (contains visited x)) [
  | inl seen ↦ elim (Bool-cases (x == k)) [
    | inl same ↦ ground (arith, eq_iff x k)
    | inr other ↦ none_left visited xs k (ground arith) (ground arith)
  ]
  | inr e ↦ ground arith
]

-- The loop starts with all ids unvisited.
start-IsQueued :
    (stages : List Stage) (d : Dict.Dict ℤ)
    → are_distinct (ids_of stages) ≡ true
    → needs_known stages ≡ true
    → ((s : Stage) → Member s stages → Dict.get d s.id ≡ some (pos (length s.needs)))
    → (ready : List String) × (free_among d (ids_of stages) ≡ ok ready)
      × IsQueued stages (ids_of stages) [] ready d
start-IsQueued stages d distinct known degrees =
    let ids = ids_of stages in
    let free : Stage → Bool = λ s. all (λ need. not (contains ids need)) s.needs in
    let values : (s : Stage)
        → Member s stages
        → Dict.get d s.id ≡ some (pos (remaining_needs ids s.needs)) =
      λ s m.
        degrees s m
        ∙ ap (λ n. some (pos n))
            (sym (remaining_needs-all ids s.needs (all-Member _ stages s known m))) in
    (
      ids_of (keep free stages),
      free_among_lem ids d stages values,
      record {
        degrees = record {
          has_keys = λ k h.
              let (s, m, same) = stage_at stages k h in
              subst (λ j. Dict.has d j ≡ true) same (ap is_some (degrees s m));
          values = values;
        };
        distinct = are_distinct-keep free stages distinct;
        unvisited = contains-keep free stages;
        known = λ k h. h;
        free = λ s m h.
            let there : contains (ids_of (keep free stages)) s.id ≡ true =
              ground (arith, h, Member-ids_of s stages m) in
            let all_free = sym (contains-keep_self free stages s distinct m) ∙ there in
            let none = remaining_needs-eq-zero ids s.needs ∙ all_free in ground (arith, none);
        parted = λ k h. ground arith;
      },
    )

-- What the tables of a flow hold.
tables_lem :
    (flow : Flow) (l : Links)
    → are_distinct (ids_of flow.stages) ≡ true
    → needs_known flow.stages ≡ true
    → count_all
        (ids_of flow.stages)
        flow.stages
        (record { indegree = no_needs flow.stages; dependents = no_dependents flow.stages })
      ≡ ok l
    → ((k : String)
        → contains (ids_of flow.stages) k ≡ true
        → Dict.get l.dependents k ≡ some (dependents_of flow.stages k))
      × ((s : Stage)
          → Member s flow.stages
          → Dict.get l.indegree s.id ≡ some (pos (length s.needs)))
tables_lem flow l distinct known h =
    let stages = flow.stages in
    let m = stages_by_id stages in
    let has_all = has-stages_by_id stages in
    let start = no_dependents stages in
    let there : (k : String) → contains (ids_of stages) k ≡ true → Dict.has start k ≡ true =
      λ k e. has-table_onto (λ s. []) [] stages k ∙ ground (arith, e) in
    let (l', counted, linked, degrees, others) =
      count_all_lem flow.id (ids_of stages) m (λ k e. has_all k ∙ e) stages
        (record { indegree = no_needs stages; dependents = start }) distinct known
        (λ s i. get-table_onto (λ x. pos 0) [] stages s distinct i) there in
    let (dependents, linked', law) =
      link_stages_lem flow.id m stages start
        (all_cong _ _ stages (λ s. all_cong _ _ s.needs has_all) ∙ known)
        (λ k e. there k (sym (has_all k) ∙ e)) in
    let same = ok-injective (sym linked' ∙ linked) in
    let same_links = ok-injective (sym counted ∙ h) in
    (
      λ k e.
          ap (λ x. Dict.get x.dependents k) (sym same_links)
          ∙ ap (λ d. Dict.get d k) (sym same)
          ∙ law.entry k [] (get-no_dependents [] stages k ∙ ground (arith, e)),
      λ s i. ap (λ x. Dict.get x.indegree s.id) (sym same_links) ∙ degrees s i,
    )

-- Where `_cycle_nodes` finds no stage, its order of visits puts every need below its stage.
cycle_nodes-Descends :
    (flow : Flow)
    → are_distinct (ids_of flow.stages) ≡ true
    → needs_known flow.stages ≡ true
    → cycle_nodes flow ≡ ok []
    → (rank : String → ℕ) × Descends flow.stages rank
unfolding cycle_nodes
cycle_nodes-Descends flow distinct known h =
    let stages = flow.stages in
    let ids = ids_of stages in
    let (l, counted, h₁) = >>=-eq-ok (count_all ids stages _) _ h in
    let (lookup, degrees) = tables_lem flow l distinct known counted in
    let (ready, freed, queued) = start-IsQueued stages l.indegree distinct known degrees in
    let (ready', freed', h₂) = >>=-eq-ok (free_among l.indegree ids) _ h₁ in
    let (visited, visits, h₃) = >>=-eq-ok (visit _ l.dependents [] l.indegree ready') _ h₂ in
    let start =
      subst (λ r. IsQueued stages ids [] r l.indegree) (ok-injective (sym freed ∙ freed')) queued in
    let known_at_stage : (s : Stage)
        → Member s stages
        → (need : String) → contains s.needs need ≡ true
        → contains ids need ≡ true =
      λ s m need wanted.
        all_at (contains ids) s.needs need (all-Member _ stages s known m) wanted in
    let (more, same, ordered) =
      visit_lem stages distinct l.dependents lookup _ ids [] ready' l.indegree visited
        known_at_stage start visits in
    let seen : (k : String) → contains ids k ≡ true → contains more k ≡ true =
      λ k e. ap (λ x. contains x k) (sym same) ∙ none_left visited ids k (ok-injective h₃) e in
    (
      λ k. position k more,
      record {
        lower = λ s m need wanted.
            IsOrdered-lower stages [] more s need ordered m wanted refl
              (seen s.id (Member-ids_of s stages m));
      },
    )

-- If the ids of a flow's stages are distinct, their needs are known, and `_cycle_nodes` of the
-- loader finds no stage, then `topological_waves` of the compiler returns waves.
pub cycle_nodes-topological_waves :
    (flow : Flow)
    → are_distinct (ids_of flow.stages) ≡ true
    → needs_known flow.stages ≡ true
    → cycle_nodes flow ≡ ok []
    → (waves : List (List Stage)) × (topological_waves flow ≡ ok waves)
cycle_nodes-topological_waves flow distinct known h =
    let (rank, descends) = cycle_nodes-Descends flow distinct known h in
    topological_waves-total flow rank distinct known descends
