-- ===== src/Compiler/Unknown.antt =====
-- How `topological_waves` refuses a need that no stage of the flow answers.
use contractplane.Prelude.Dict
use contractplane.Prelude.Dict.{get-put}
use contractplane.Prelude.{
  String, ◌≡◌, refl, sym, ◌∙◌, ◌⊎◌, inl, inr, true, false, List, [], ◌∷◌, ◌++◌, arith, eq_iff,
  Bool-cases, all, contains, Member,
}
use contractplane.Errors.{unknown_need, compile_error, Result, ok, raise}
use contractplane.Models.{Stage, Flow}
use contractplane.Compiler.{
  ids_of, topological_waves, link_needs, link_stages, stages_by_id, no_dependents,
}
use contractplane.Compiler.Lookup.{present, has-put, has-table_onto}
use contractplane.Compiler.Agrees.{needs_known, all_cong, has-stages_by_id}

-- The exception names a stage of the list and a need of it that the table does not have.
record Refused (m : Dict.Dict Stage) (flow : String) (ss : List Stage)
    (r : Result (Dict.Dict (List String))) : Type 0 where
  stage : Stage
  member : Member stage ss
  need : String
  wanted : contains stage.needs need ≡ true
  unknown : Dict.has m need ≡ false
  raised : r ≡ raise (compile_error (unknown_need flow stage.id need))

module _ (flow : String) (m : Dict.Dict Stage) where
  link_needs-cases :
      (id : String) (needs : List String) (d : Dict.Dict (List String))
      → ((k : String) → Dict.has m k ≡ true → Dict.has d k ≡ true)
      → ((d' : Dict.Dict (List String)) × (link_needs flow m id needs d ≡ ok d')
          × ((k : String) → Dict.has m k ≡ true → Dict.has d' k ≡ true)
          × (all (Dict.has m) needs ≡ true))
        ⊎ ((need : String) × (contains needs need ≡ true)
            × (Dict.has m need ≡ false)
            × (link_needs flow m id needs d ≡ raise (compile_error (unknown_need flow id need))))
  unfolding link_needs
  link_needs-cases id [] d there = inl (d, refl, there, refl)
  link_needs-cases id (need ∷ needs) d there = elim (Bool-cases (Dict.has m need)) [
    | inr e ↦ inr (need, ground (arith, eq_iff need need), e, rw e refl)
    | inl e ↦
        let (behind, found) = present d need (there need e) in
        elim (link_needs-cases id needs (Dict.put d need (behind ++ id ∷ []))
          (λ k h. has-put d need k _ (there k h))) [
            | inl (d', returned, kept, known) ↦ inl (d', rw (e, found) returned, kept, rw e known)
            | inr (k, wanted, unknown, raised) ↦
                inr (k, ground arith, unknown, rw (e, found) raised)
          ]
  ]

  link_stages-Refused :
      (ss : List Stage) (d : Dict.Dict (List String))
      → ((k : String) → Dict.has m k ≡ true → Dict.has d k ≡ true)
      → all (λ s. all (Dict.has m) s.needs) ss ≡ false
      → Refused m flow ss (link_stages flow m ss d)
  unfolding link_stages
  link_stages-Refused [] d there h = cc
  link_stages-Refused (s ∷ ss) d there h = elim (link_needs-cases s.id s.needs d there) [
    | inl (d', returned, kept, known) ↦
        let r = link_stages-Refused ss d' kept (ground arith) in
        record {
          stage = r.stage;
          member = inr r.member;
          need = r.need;
          wanted = r.wanted;
          unknown = r.unknown;
          raised = rw returned r.raised;
        }
    | inr (k, wanted, unknown, raised) ↦ record {
      stage = s;
      member = inl refl;
      need = k;
      wanted = wanted;
      unknown = unknown;
      raised = rw raised refl;
    }
  ]

-- If a stage of a flow needs something that is no id of a stage of the flow, then
-- `topological_waves` raises that a need is unknown, and it names such a need and the stage.
pub topological_waves-unknown :
    (flow : Flow)
    → needs_known flow.stages ≡ false
    → (stage : Stage) × (need : String) × Member stage flow.stages
      × (contains stage.needs need ≡ true)
      × (contains (ids_of flow.stages) need ≡ false)
      × (topological_waves flow ≡ raise (compile_error (unknown_need flow.id stage.id need)))
unfolding topological_waves Dict.get
topological_waves-unknown flow h =
    let stages = flow.stages in
    let has_all = has-stages_by_id stages in
    let r =
      link_stages-Refused flow.id (stages_by_id stages) stages (no_dependents stages)
        (λ k e. has-table_onto (λ s. []) [] stages k ∙ ground (arith, e, has_all k))
        (all_cong _ _ stages (λ s. all_cong _ _ s.needs has_all) ∙ h) in
    (r.stage, r.need, r.member, r.wanted, sym (has_all r.need) ∙ r.unknown, rw r.raised refl)
