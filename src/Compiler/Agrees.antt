-- ===== src/Compiler/Agrees.antt =====
-- `topological_waves` computes the reference waves, for stages with distinct ids.
use mathlib.Core.List.{append-nil, append_assoc}
use contractplane.Prelude.Dict
use contractplane.Prelude.Dict.{get-put}
use contractplane.Prelude.Int.{pos}
use contractplane.Prelude.{
  all-Member, suc, String, ◌≡◌, refl, sym, ap, ◌∙◌, inl, inr, Bool, true, false, some, List, [],
  ◌∷◌, ◌++◌, arith, eq_iff, if◌then◌else◌, length, all, contains, are_distinct, Member,
}
use contractplane.Models.{Stage, Flow}
use contractplane.Compiler.{
  ids_of, Tables, topological_waves, table_onto, order_of, stages_by_id, indegrees, no_dependents,
}
use contractplane.Compiler.Lookup.{Member-ids_of, get-table_onto, has-table_onto, link_stages_lem}
use contractplane.Compiler.Sorting.{order_onto-Rises}
use contractplane.Compiler.Release.{remaining_needs}
use contractplane.Compiler.Reference.{reference_waves}
use contractplane.Compiler.Rounding.{Fits, waves_from-eq-rounds}

keys-put_new :
    {V : Type 0} (d : Dict.Dict V) (k : String) (v : V)
    → Dict.has d k ≡ false
    → Dict.keys (Dict.put d k v) ≡ Dict.keys d ++ k ∷ []
unfolding Dict.put Dict.get
keys-put_new [] k v h = refl
keys-put_new ((j, w) ∷ d) k v h = ground (arith, keys-put_new d k v)

keys-table_onto :
    {V : Type 0} (value : Stage → V) (d : Dict.Dict V) (ss : List Stage)
    → are_distinct (ids_of ss) ≡ true
    → ((s : Stage) → Member s ss → Dict.has d s.id ≡ false)
    → Dict.keys (table_onto value d ss) ≡ Dict.keys d ++ ids_of ss
unfolding table_onto
keys-table_onto value d [] h new = sym (append-nil (Dict.keys d))
keys-table_onto value d (s ∷ ss) h new =
    keys-table_onto value (Dict.put d s.id (value s)) ss (ground arith) (λ x m.
      ground (
        arith,
        get-put d s.id x.id (value s),
        new x (inr m),
        eq_iff s.id x.id,
        Member-ids_of x ss m,
      ))
    ∙ ap (λ ks. ks ++ ids_of ss) (keys-put_new d s.id (value s) (new s (inl refl)))
    ∙ append_assoc (Dict.keys d) (s.id ∷ []) (ids_of ss)

pub remaining_needs-all :
    (remaining needs : List String)
    → all (contains remaining) needs ≡ true
    → remaining_needs remaining needs ≡ length needs
unfolding remaining_needs
remaining_needs-all remaining [] h = refl
remaining_needs-all remaining (need ∷ needs) h = ground (arith, remaining_needs-all remaining needs)

-- Every need is the id of a stage.
abbrev pub needs_known : List Stage → Bool
needs_known stages = all (λ stage. all (contains (ids_of stages)) stage.needs) stages

pub all_cong :
    {A : Type 0} (p q : A → Bool) (xs : List A) → ((x : A) → p x ≡ q x) → all p xs ≡ all q xs
all_cong p q [] h = refl
all_cong p q (x ∷ xs) h = rw (h x, all_cong p q xs h)

length-ids_of : (ss : List Stage) → length (ids_of ss) ≡ length ss
length-ids_of [] = refl
length-ids_of (s ∷ ss) = ap suc (length-ids_of ss)

pub has-stages_by_id :
    (ss : List Stage) (k : String) → Dict.has (stages_by_id ss) k ≡ contains (ids_of ss) k
unfolding Dict.get
has-stages_by_id ss k = has-table_onto (λ s. s) [] ss k ∙ ground arith

pub get-no_dependents :
    (d : Dict.Dict (List String)) (ss : List Stage) (k : String)
    → Dict.get (table_onto (λ s. []) d ss) k
      ≡ (if contains (ids_of ss) k then some [] else Dict.get d k)
unfolding table_onto
get-no_dependents d [] k = refl
get-no_dependents d (s ∷ ss) k =
    get-no_dependents (Dict.put d s.id []) ss k ∙ ground (arith, get-put d s.id k [])

-- If no two stages of a flow have the same id, and each stage needs stages of the flow only, then
-- `topological_waves` gives what the reference gives, the exception included: round by round all
-- stages that need no pending one, in the order of the flow, or the cycle.
pub topological_waves-eq-reference_waves :
    (flow : Flow)
    → are_distinct (ids_of flow.stages) ≡ true
    → needs_known flow.stages ≡ true
    → topological_waves flow ≡ reference_waves flow
unfolding topological_waves reference_waves Dict.get
topological_waves-eq-reference_waves flow distinct known =
    let stages = flow.stages in
    let has_all = has-stages_by_id stages in
    let (dependents, linked, law) =
      link_stages_lem flow.id (stages_by_id stages) stages (no_dependents stages)
        (all_cong _ _ stages (λ s. all_cong _ _ s.needs has_all) ∙ known)
        (λ k h. has-table_onto (λ s. []) [] stages k ∙ ground (arith, has_all k)) in
    let ids = keys-table_onto (λ s. s) [] stages distinct (λ s m. refl) in
    let t : Tables = record {
      flow = flow.id;
      order = order_of stages;
      stage_map = stages_by_id stages;
      dependents = dependents;
    } in
    let fits : Fits stages t stages (indegrees stages) = record {
      inside = λ s m. m;
      distinct = distinct;
      rises = order_onto-Rises 0 [] stages distinct;
      degrees = record {
        has_keys =
            λ k h. has-table_onto (λ s. pos (length s.needs)) [] stages k ∙ ground (arith, h);
        values = λ s m.
            get-table_onto (λ x. pos (length x.needs)) [] stages s distinct m
            ∙ ap (λ n. some (pos n))
                (sym (remaining_needs-all (ids_of stages) s.needs (all-Member _ stages s known m)));
      };
    } in
    rw (linked, ids, length-ids_of stages)
      (waves_from-eq-rounds stages t distinct
        (λ s m. get-table_onto (λ x. x) [] stages s distinct m)
        (λ k h. law.entry k [] (get-no_dependents [] stages k ∙ ground (arith, h))) (length stages)
        stages (indegrees stages) fits)
