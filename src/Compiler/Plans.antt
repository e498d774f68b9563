-- ===== src/Compiler/Plans.antt =====
-- What `compile_plan` makes of the waves: the plan keeps their order, ids and needs.
use contractplane.Prelude.Dict
use contractplane.Prelude.Index.{get-index_onto}
use contractplane.Prelude.{
  all-Member, ℕ, suc, String, ◌≡◌, refl, sym, ap, ◌∙◌, subst, inl, inr, Bool, true, ◌&&◌, Option,
  none, some, List, [], ◌∷◌, ◌++◌, map, arith, same_number, all, contains, are_distinct, Member,
}
use contractplane.Errors.{unknown_entrypoint, unknown_flow, ok, >>=-eq-ok, ok-injective}
use contractplane.Models.{
  Stage, Flow, EntryPoint, DomainPack, flow_map, entrypoint_map, capability_map, evidence_map,
  found_at, policy_for,
}
use contractplane.Plan.{CompiledStage, Wave, ExecutionPlan}
use contractplane.Plan.Compile.{evidence_of, compile_stage}
use contractplane.Compiler.{
  ids_of, topological_waves, given, Selected, flow_of_entrypoint, only_flow, known_or,
  resolve_given, resolve_flow, compile_stages, compile_waves, compile_plan,
}
use contractplane.Compiler.Waves.{come_after, topological_waves-IsSchedule}

-- Every need of a stage of a plan is among the names, or the id of a stage of an earlier wave, and
-- the waves are numbered from an index on.
abbrev pub are_behind : List String → List Wave → Bool
are_behind before [] = true
are_behind before (wave ∷ waves) =
    all (λ stage. all (contains before) stage.needs) wave.stages
    && are_behind (before ++ map (λ stage. stage.id) wave.stages) waves

abbrev pub are_numbered : ℕ → List Wave → Bool
are_numbered index [] = true
are_numbered index (wave ∷ waves) = same_number wave.index index && are_numbered (suc index) waves

module _ (pack : DomainPack) where
  compile_stage-kept :
      (stage : Stage) (compiled : CompiledStage)
      → compile_stage pack stage ≡ ok compiled
      → (compiled.id ≡ stage.id) × (compiled.needs ≡ stage.needs)
  unfolding compile_stage
  compile_stage-kept stage compiled h =
      let (capability, e₁, h₁) =
        >>=-eq-ok (found_at stage.capability (Dict.get (capability_map pack) stage.capability)) _
          h in
      let (policy, e₂, h₂) = >>=-eq-ok (policy_for pack stage) _ h₁ in
      let (contracts, e₃, h₃) =
        >>=-eq-ok (evidence_of (evidence_map pack) stage.requires_evidence) _ h₂ in
      let same = sym (ok-injective h₃) in (ap (λ c. c.id) same, ap (λ c. c.needs) same)

  compile_stages-kept :
      (p : List String → Bool) (stages : List Stage) (compiled : List CompiledStage)
      → compile_stages pack stages ≡ ok compiled
      → (map (λ stage. stage.id) compiled ≡ ids_of stages)
        × (all (λ stage. p stage.needs) compiled ≡ all (λ stage. p stage.needs) stages)
  unfolding compile_stages
  compile_stages-kept p [] compiled h =
      let same = sym (ok-injective h) in
      (ap (λ c. map (λ s. s.id) c) same, ap (all (λ s. p s.needs)) same)
  compile_stages-kept p (s ∷ ss) compiled h =
      let (c, e, h₁) = >>=-eq-ok (compile_stage pack s) _ h in
      let (cs, f, h₂) = >>=-eq-ok (compile_stages pack ss) _ h₁ in
      let same = sym (ok-injective h₂) in
      let (id_kept, needs_kept) = compile_stage-kept s c e in
      let (ids_kept, all_kept) = compile_stages-kept p ss cs f in
      (
        ap (λ x. map (λ y. y.id) x) same ∙ rw (id_kept, ids_kept) refl,
        ap (all (λ y. p y.needs)) same ∙ rw (needs_kept, all_kept) refl,
      )

  compile_waves-kept :
      (index : ℕ) (before : List String) (waves : List (List Stage)) (compiled : List Wave)
      → compile_waves pack index waves ≡ ok compiled
      → (are_behind before compiled ≡ come_after before waves)
        × (are_numbered index compiled ≡ true)
  unfolding compile_waves
  compile_waves-kept index before [] compiled h =
      let same = sym (ok-injective h) in (ap (are_behind before) same, ap (are_numbered index) same)
  compile_waves-kept index before (wave ∷ waves) compiled h =
      let (cs, e, h₁) = >>=-eq-ok (compile_stages pack wave) _ h in
      let (others, f, h₂) = >>=-eq-ok (compile_waves pack (suc index) waves) _ h₁ in
      let same = sym (ok-injective h₂) in
      let (ids_kept, all_kept) = compile_stages-kept (all (contains before)) wave cs e in
      let (rest_behind, rest_numbered) =
        compile_waves-kept (suc index) (before ++ ids_of wave) waves others f in
      (
        ap (are_behind before) same ∙ rw (ids_kept, all_kept, rest_behind) refl,
        ap (are_numbered index) same ∙ rw rest_numbered (ground arith),
      )

  flow-Member :
      (id : String) (flow : Flow)
      → found_at id (Dict.get (flow_map pack) id) ≡ ok flow
      → Member flow pack.flows
  unfolding Dict.get
  flow-Member id flow h =
      let at : Dict.get (flow_map pack) id ≡ some flow = ground arith in
      elim (get-index_onto (λ item. item.id) [] pack.flows id flow at) [
        | inl (m, same) ↦ m
        | inr none_found ↦ cc
      ]

  flow_of_entrypoint-Member :
      (entrypoint : EntryPoint) (selected : Selected)
      → flow_of_entrypoint pack entrypoint ≡ ok selected
      → Member selected.flow pack.flows
  unfolding flow_of_entrypoint
  flow_of_entrypoint-Member entrypoint selected h =
      let (flow, found, h₁) =
        >>=-eq-ok (found_at entrypoint.flow (Dict.get (flow_map pack) entrypoint.flow)) _ h in
      subst (λ x. Member x.flow pack.flows) (ok-injective h₁)
        (flow-Member entrypoint.flow flow found)

  only_flow-Member :
      (entrypoints : List EntryPoint) (flows : List Flow) (selected : Selected)
      → only_flow pack entrypoints flows ≡ ok selected
      → ((flow : Flow) → Member flow flows → Member flow pack.flows)
      → Member selected.flow pack.flows
  unfolding only_flow
  only_flow-Member (entrypoint ∷ []) flows selected h inside =
      flow_of_entrypoint-Member entrypoint selected h
  only_flow-Member [] (flow ∷ []) selected h inside =
      subst (λ x. Member x.flow pack.flows) (ok-injective h) (inside flow (inl refl))
  only_flow-Member (e ∷ e' ∷ es) (flow ∷ []) selected h inside =
      subst (λ x. Member x.flow pack.flows) (ok-injective h) (inside flow (inl refl))
  only_flow-Member [] [] selected h inside = cc
  only_flow-Member [] (f ∷ f' ∷ fs) selected h inside = cc
  only_flow-Member (e ∷ e' ∷ es) [] selected h inside = cc
  only_flow-Member (e ∷ e' ∷ es) (f ∷ f' ∷ fs) selected h inside = cc

  resolve_given-Member :
      (flow_id entrypoint_id : Option String) (selected : Selected)
      → resolve_given pack flow_id entrypoint_id ≡ ok selected
      → Member selected.flow pack.flows
  unfolding resolve_given
  resolve_given-Member (some f) (some e) selected h = cc
  resolve_given-Member none (some e) selected h =
      let (entrypoint, known, h₁) =
        >>=-eq-ok (known_or (unknown_entrypoint e) (Dict.get (entrypoint_map pack) e)) _ h in
      flow_of_entrypoint-Member entrypoint selected h₁
  resolve_given-Member (some f) none selected h =
      let (flow, known, h₁) =
        >>=-eq-ok (known_or (unknown_flow f) (Dict.get (flow_map pack) f)) _ h in
      subst (λ x. Member x.flow pack.flows) (ok-injective h₁) (flow-Member f flow (ground arith))
  resolve_given-Member none none selected h =
      only_flow-Member pack.entrypoints pack.flows selected h (λ flow m. m)

-- If no flow of a pack has two stages of the same id and `compile_plan` returns a plan, for
-- whatever flow or entry point, then the waves of the plan are numbered from 0 on, and every need
-- of a stage is the id of a stage of an earlier wave.
pub compile_plan-ordered :
    (pack : DomainPack) (flow_id entrypoint_id : Option String) (plan : ExecutionPlan)
    → all (λ flow. are_distinct (ids_of flow.stages)) pack.flows ≡ true
    → compile_plan pack flow_id entrypoint_id ≡ ok plan
    → (are_numbered 0 plan.waves ≡ true) × (are_behind [] plan.waves ≡ true)
unfolding compile_plan resolve_flow
compile_plan-ordered pack flow_id entrypoint_id plan distinct h =
    let (selected, resolved, h₁) = >>=-eq-ok (resolve_flow pack flow_id entrypoint_id) _ h in
    let (waves, scheduled, h₂) = >>=-eq-ok (topological_waves selected.flow) _ h₁ in
    let (compiled, done, h₃) = >>=-eq-ok (compile_waves pack 0 waves) _ h₂ in
    let m = resolve_given-Member pack (given flow_id) (given entrypoint_id) selected resolved in
    let one =
      all-Member (λ flow. are_distinct (ids_of flow.stages)) pack.flows selected.flow distinct m in
    let schedule = topological_waves-IsSchedule selected.flow waves one scheduled in
    let (behind, numbered) = compile_waves-kept pack 0 [] waves compiled done in
    let same = sym (ok-injective h₃) in
    (
      ap (λ p. are_numbered 0 p.waves) same ∙ numbered,
      ap (λ p. are_behind [] p.waves) same ∙ behind ∙ schedule.ordered,
    )
