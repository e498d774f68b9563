-- ===== src/Loader/Compiles.antt =====
-- A pack without semantic issues compiles: no reference that the compiler follows is missing, and
-- no flow has a cycle.
use contractplane.Prelude.Dict
use contractplane.Prelude.Dict.{get-put}
use contractplane.Prelude.{
  is_empty, ℕ, zero, suc, String, ◌≡◌, refl, sym, ap, ◌∙◌, subst, inl, inr, true, false, not, ◌&&◌,
  Option, none, some, List, [], ◌∷◌, map, arith, ◌==◌, and-eq-true, length, all, contains,
  are_distinct, Member, Member-keep, Member-append_left, Member-append_right, append-Member,
}
use contractplane.Errors.{>>=-eq-ok, require, require-eq-ok, ok, Result-cases, ok-injective}
use contractplane.Json.{Json, Fields}
use contractplane.Prelude.Index.{has-index_onto, get-index_onto}
use contractplane.Platform.{Platform}
use contractplane.Loader.{structural_issues, parse_domain_pack}
use contractplane.Loader.Parse.{as_object, parse}
use contractplane.Models.{
  Stage, Flow, Evidence, Policy, DomainPack, capability_map, evidence_map, policy_map, flow_map,
  text_or, policy_for,
}
use contractplane.Plan.{CompiledStage, Wave, ExecutionPlan}
use contractplane.Plan.Compile.{evidence_of, compile_stage}
use contractplane.Compiler.{
  ids_of, topological_waves, resolve_given, resolve_flow, compile_stages, compile_waves,
  compile_plan,
}
use contractplane.Compiler.Lookup.{present}
use contractplane.Compiler.Reference.{is_free, ready_of, rest_of, rounds, reference_waves}
use contractplane.Compiler.Agrees.{topological_waves-eq-reference_waves}
use contractplane.Compiler.Waves.{all_of, with_ready-eq-ok, topological_waves-known}
use contractplane.Compiler.Inspect.{flow_line, flow_lines, inspect_pack}
use contractplane.Loader.Issues.{is_given, or_empty, semantic_issues}
use contractplane.Loader.Accepted.{cycle_nodes-topological_waves}
use contractplane.Loader.Checked.{FlowChecked, StageChecked, semantic_issues-eq-nil}

eq-nil {ℓ} : {A : Type ℓ} (xs : List A) → is_empty xs ≡ true → xs ≡ []
eq-nil [] h = refl
eq-nil (x ∷ xs) h = cc

module _ (pack : DomainPack) where
  evidence_of-total :
      (ids : List String)
      → all (contains (map (λ evidence. evidence.id) pack.evidence)) ids ≡ true
      → (contracts : List Evidence) × (evidence_of (evidence_map pack) ids ≡ ok contracts)
  unfolding evidence_of
  evidence_of-total [] h = ([], refl)
  evidence_of-total (id ∷ ids) h =
      let (here, later) =
        and-eq-true (contains (map (λ evidence. evidence.id) pack.evidence) id) _ h in
      let (contract, at) =
        present (evidence_map pack) id
          (has-index_onto (λ item. item.id) [] pack.evidence id ∙ ground (arith, here)) in
      let (contracts, e) = evidence_of-total ids later in (contract ∷ contracts, rw (at, e) refl)

  text_or_known :
      (ids : List String) (chosen : Option String) (default : String)
      → contains ids default ≡ true
      → (is_given chosen && not (contains ids (or_empty chosen))) ≡ false
      → contains ids (text_or chosen default) ≡ true
  text_or_known ids none default h k = h
  text_or_known ids (some t) default h k = ground arith

  policy_for-total :
      (stage : Stage)
      → contains (map (λ policy. policy.id) pack.policies) pack.default_policy ≡ true
      → StageChecked pack stage
      → (policy : Policy) × (policy_for pack stage ≡ ok policy)
  unfolding policy_for
  policy_for-total stage known c =
      let id = text_or stage.policy pack.default_policy in
      let there =
        text_or_known (map (λ policy. policy.id) pack.policies) stage.policy pack.default_policy
          known c.policy_known in
      let (policy, at) =
        present (policy_map pack) id
          (has-index_onto (λ item. item.id) [] pack.policies id ∙ ground (arith, there)) in
      (policy, rw at refl)

  compile_stage-total :
      (stage : Stage)
      → contains (map (λ policy. policy.id) pack.policies) pack.default_policy ≡ true
      → StageChecked pack stage
      → (compiled : CompiledStage) × (compile_stage pack stage ≡ ok compiled)
  unfolding compile_stage
  compile_stage-total stage known c =
      let (capability, at) = present (capability_map pack) stage.capability c.capability_known in
      let (policy, found) = policy_for-total stage known c in
      let (contracts, listed) = evidence_of-total stage.requires_evidence c.evidence_known in
      elim (Result-cases (compile_stage pack stage)) [
        | inl returned ↦ returned
        | inr (x, raised) ↦ ground (arith, at, found, listed, raised)
      ]

  compile_stages-total :
      (stages : List Stage)
      → ((s : Stage)
          → Member s stages
          → (compiled : CompiledStage) × (compile_stage pack s ≡ ok compiled))
      → (compiled : List CompiledStage) × (compile_stages pack stages ≡ ok compiled)
  unfolding compile_stages
  compile_stages-total [] good = ([], refl)
  compile_stages-total (s ∷ ss) good =
      let (compiled, e) = good s (inl refl) in
      let (others, f) = compile_stages-total ss (λ x m. good x (inr m)) in
      (compiled ∷ others, rw (e, f) refl)

  compile_waves-total :
      (index : ℕ) (waves : List (List Stage))
      → ((s : Stage)
          → Member s (all_of waves)
          → (compiled : CompiledStage) × (compile_stage pack s ≡ ok compiled))
      → (compiled : List Wave) × (compile_waves pack index waves ≡ ok compiled)
  unfolding compile_waves
  compile_waves-total index [] good = ([], refl)
  compile_waves-total index (wave ∷ waves) good =
      let (compiled, e) =
        compile_stages-total wave (λ s m. good s (Member-append_left s wave (all_of waves) m)) in
      let (others, f) =
        compile_waves-total (suc index) waves
          (λ s m. good s (Member-append_right s wave (all_of waves) m)) in
      (record { index = index; stages = compiled } ∷ others, rw (e, f) refl)

-- The stages of the waves are those of the flow.
rounds-Member :
    (bound : ℕ) (flow : String) (pending : List Stage) (waves : List (List Stage))
    → rounds bound flow pending ≡ ok waves
    → (s : Stage) → Member s (all_of waves)
    → Member s pending
unfolding rounds
rounds-Member bound flow [] waves h s m =
    subst (λ ws. Member s (all_of ws)) (sym (ok-injective h)) m
rounds-Member zero flow (x ∷ xs) waves h s m = cc
rounds-Member (suc bound) flow (x ∷ xs) waves h s m =
    let pending = x ∷ xs in
    let (others, e, same) =
      with_ready-eq-ok flow pending (ready_of pending) (rounds bound flow (rest_of pending)) waves
        h in
    elim (append-Member s (ready_of pending) (all_of others)
      (subst (λ ws. Member s (all_of ws)) same m)) [
        | inl now ↦ (Member-keep (is_free pending) s pending now).0
        | inr later ↦
            (Member-keep (λ y. not (is_free pending y)) s pending
              (rounds-Member bound flow (rest_of pending) others e s later)).0
      ]

topological_waves-Member :
    (flow : Flow) (waves : List (List Stage))
    → are_distinct (ids_of flow.stages) ≡ true
    → topological_waves flow ≡ ok waves
    → (s : Stage) → Member s (all_of waves)
    → Member s flow.stages
unfolding reference_waves
topological_waves-Member flow waves distinct h s m =
    let e =
      sym
        (topological_waves-eq-reference_waves flow distinct (topological_waves-known flow waves h))
      ∙ h in
    rounds-Member (length flow.stages) flow.id flow.stages waves e s m

-- If a pack has no semantic issues, then `compile_plan` with the id of one of its flows, which is
-- not empty, returns a plan, and the plan is of that flow.
pub semantic_issues-compile_plan :
    (platform : Platform) (pack : DomainPack) (id : String)
    → semantic_issues platform pack ≡ ok []
    → (id == "") ≡ false
    → contains (map (λ flow. flow.id) pack.flows) id ≡ true
    → (plan : ExecutionPlan) × (compile_plan pack (some id) none ≡ ok plan) × (plan.flow ≡ id)
unfolding compile_plan resolve_flow resolve_given Dict.get
semantic_issues-compile_plan platform pack id accepted filled there =
    let (default_known, flows_fine) = semantic_issues-eq-nil platform pack accepted in
    let (flow, at) =
      present (flow_map pack) id
        (has-index_onto (λ item. item.id) [] pack.flows id ∙ ground (arith, there)) in
    elim (get-index_onto (λ item. item.id) [] pack.flows id flow at) [
      | inl (m, same) ↦
          let c = flows_fine flow m in
          let (waves, e) = cycle_nodes-topological_waves flow c.distinct c.needs_fine c.acyclic in
          let (compiled, f) = compile_waves-total pack 0 waves (λ s n.
            compile_stage-total pack s default_known
              (c.stages_fine s (topological_waves-Member flow waves c.distinct e s n))) in
          (
            record {
              domain_name = pack.metadata.name;
              domain_version = pack.metadata.version;
              flow = flow.id;
              entrypoint = none;
              input_schema = flow.input_schema;
              waves = compiled;
            },
            rw (filled, at, e, f) refl,
            same,
          )
      | inr none_found ↦ cc
    ]

-- What the loader accepts has no issues.
pub parse_domain_pack-eq-ok :
    (platform : Platform) (raw : Json) (pack : DomainPack)
    → parse_domain_pack platform raw ≡ ok pack
    → (structural_issues platform raw ≡ []) × (semantic_issues platform pack ≡ ok [])
unfolding parse_domain_pack
parse_domain_pack-eq-ok platform raw pack accepted =
    let (u, sound, h₁) =
      >>=-eq-ok (require (is_empty (structural_issues platform raw)) _) _ accepted in
    let (item, object, h₂) = >>=-eq-ok (as_object raw) _ h₁ in
    let (parsed, e, h₃) = >>=-eq-ok (parse item) _ h₂ in
    let (issues, found, h₄) = >>=-eq-ok (semantic_issues platform parsed) _ h₃ in
    let (v, none_found, h₅) = >>=-eq-ok (require (is_empty issues) _) _ h₄ in
    let no_issues = eq-nil issues (require-eq-ok _ _ none_found) in
    (
      eq-nil (structural_issues platform raw) (require-eq-ok _ _ sound),
      subst (λ p. semantic_issues platform p ≡ ok []) (ok-injective h₅) (found ∙ ap ok no_issues),
    )

-- If `parse_domain_pack` returns a pack, then `compile_plan` with the id of one of its flows, which
-- is not empty, returns a plan, and the plan is of that flow.
pub parse_domain_pack-compile_plan :
    (platform : Platform) (raw : Json) (pack : DomainPack) (id : String)
    → parse_domain_pack platform raw ≡ ok pack
    → (id == "") ≡ false
    → contains (map (λ flow. flow.id) pack.flows) id ≡ true
    → (plan : ExecutionPlan) × (compile_plan pack (some id) none ≡ ok plan) × (plan.flow ≡ id)
parse_domain_pack-compile_plan platform raw pack id accepted filled there =
    semantic_issues-compile_plan platform pack id
      (parse_domain_pack-eq-ok platform raw pack accepted).1 filled there

flow_lines-total :
    (pack : DomainPack) (flows : List Flow)
    → ((flow : Flow) → Member flow flows → FlowChecked pack flow)
    → (lines : List Fields) × (flow_lines flows ≡ ok lines)
unfolding flow_lines flow_line
flow_lines-total pack [] fine = ([], refl)
flow_lines-total pack (flow ∷ flows) fine =
    let c = fine flow (inl refl) in
    let (waves, e) = cycle_nodes-topological_waves flow c.distinct c.needs_fine c.acyclic in
    let (lines, f) = flow_lines-total pack flows (λ x m. fine x (inr m)) in
    elim (Result-cases (flow_lines (flow ∷ flows))) [
      | inl returned ↦ returned
      | inr (x, raised) ↦ ground (arith, e, f, raised)
    ]

-- If a pack has no semantic issues, then `inspect_pack` returns a description of it.
pub semantic_issues-inspect_pack :
    (platform : Platform) (pack : DomainPack)
    → semantic_issues platform pack ≡ ok []
    → (description : Fields) × (inspect_pack pack ≡ ok description)
unfolding inspect_pack
semantic_issues-inspect_pack platform pack accepted =
    let (default_known, flows_fine) = semantic_issues-eq-nil platform pack accepted in
    let (lines, e) = flow_lines-total pack pack.flows flows_fine in
    elim (Result-cases (inspect_pack pack)) [
      | inl returned ↦ returned
      | inr (x, raised) ↦ ground (arith, e, raised)
    ]
