-- ===== src/State/Validate.antt =====
-- `_validate_event` of contractplane/state.py: whether an event may follow, before it is appended
-- or replayed. The tests stand in the code's order, one function for each part of the ladder.
use contractplane.Prelude.{
  String, Bool, true, false, not, ◌&&◌, ◌||◌, Option, none, some, List, [], ◌∷◌, ◌==◌, leb,
  is_empty, all, if◌then◌else◌, all, is_empty,
}
use contractplane.Prelude.Dict.{keys, has}
use contractplane.Json.{
  Json, obj, Fields, get_field?, get_field, is_text, is_true, is_bool, is_blank_field, is_text_list,
}
use contractplane.Errors.{
  TransitionReason, created_again, digest_differs, domain_or_flow_differs, created_not_first,
  start_not_created, not_all_satisfied, fail_not_running, fail_without_failed_unit,
  fail_without_reason, cannot_cancel, not_running, already_sealed, dependencies_open,
  seal_without_units, seal_not_default, already_registered, one_default_unit,
  authorization_not_required, authorization_not_requestable, retries_exhausted, no_open_request,
  approved_not_bool, actor_empty, ready_from_wrong_state, authorization_required, start_not_ready,
  claim_not_running, outputs_not_object, outputs_invalid, gate_not_claimed, no_obligations,
  obligations_differ, not_awaiting_evidence, evidence_not_required, evidence_again,
  accepted_not_bool, receipt_not_object, receipt_invalid, gates_open, skip_not_ready, no_condition,
  skip_not_preserving, unit_cannot_fail, failure_reason_empty, unknown_event_type, Result, ok,
  refuse, ◌>>=◌, ◌>>◌, refuse_if,
}
use contractplane.Models.{Evidence, HumanApproval, always, never, FanoutMode, singleton, each}
use contractplane.Plan.{CompiledStage, ExecutionPlan}
use contractplane.Plan.Render.{digest}
use contractplane.Platform.{Platform}
use contractplane.State.{
  singleton_unit_key, UnitRef, WorkUnitState, StageGroupState, Machine, is_pending, is_ready,
  is_failed, is_running, is_claimed, is_awaiting_authorization, is_awaiting_evidence, in_created,
  in_running, ref_from_payload, stage_id_of, or_refuse, group_of, all_work_satisfied, is_accepted,
  gates_accepted, stage_contract, unit_at, dependencies_satisfied,
}
use contractplane.State.Kind.{
  EventKind, execution_created, execution_started, execution_succeeded, execution_failed,
  execution_cancelled, stage_sealed, unit_registered, authorization_requested,
  authorization_decided, unit_ready, unit_started, unit_claimed, unit_awaiting_evidence,
  evidence_recorded, unit_completed, unit_skipped, unit_failed,
}

-- A search for the first contract with the id of the payload.
unfoldable pub find_evidence : List Evidence → Json → Option Evidence
find_evidence [] id = none
find_evidence (contract ∷ contracts) id =
    if is_text id contract.id then some contract else find_evidence contracts id

unfoldable pub evidence_contract : CompiledStage → Json → Result Evidence
unfolding find_evidence
evidence_contract stage id =
    or_refuse evidence_not_required (find_evidence stage.evidence_contracts id)

abbrev pub is_always : HumanApproval → Bool
is_always always = true
is_always never = false

abbrev pub is_singleton : FanoutMode → Bool
is_singleton singleton = true
is_singleton each = false

-- set(units) == {SINGLETON_UNIT_KEY}
abbrev pub is_only_default : List String → Bool
is_only_default ks = not (is_empty ks) && all (λ k. k == singleton_unit_key) ks

-- unit.attempts >= int(contract.policy["maxAttempts"])
abbrev pub is_exhausted : CompiledStage → WorkUnitState → Bool
is_exhausted contract unit = leb contract.policy.max_attempts unit.attempts

-- payload.get(key) is an object
abbrev pub object_field : TransitionReason → Json → Result Fields
object_field r (obj fs) = ok fs
object_field r _ = refuse r

-- contract.when is None, and payload.get("when") != contract.when
abbrev pub keeps_condition : Option String → Json → Result Bool
keeps_condition none v = refuse no_condition
keeps_condition (some t) v = ok (is_text v t)

module _ (platform : Platform) where
  -- if errors: raise TransitionError, for the validator's errors on a value
  abbrev pub satisfies : Fields → Json → Bool
  satisfies schema value = is_empty (platform.schema_errors schema value)

  -- The test of a receipt that is accepted: only if its contract has a schema.
  abbrev pub receipt_valid : Option Fields → Json → Bool
  receipt_valid none receipt = true
  receipt_valid (some schema) receipt = satisfies schema receipt

  -- Lines 302 to 413: the events of one work unit.
  unfoldable pub validate_unit :
      EventKind → Fields → CompiledStage → WorkUnitState → Result (Unit {0})
  unfolding evidence_contract gates_accepted is_accepted
  validate_unit authorization_requested p contract unit =
      let retry = is_failed unit.status && is_true (get_field p "retry") in
      do
        refuse_if (not (is_always contract.policy.human_approval)) authorization_not_required
        refuse_if (not (is_pending unit.status || retry)) authorization_not_requestable
        refuse_if (retry && is_exhausted contract unit) retries_exhausted
  validate_unit authorization_decided p contract unit = do
    refuse_if (not (is_awaiting_authorization unit.status)) no_open_request
    refuse_if (not (is_bool (get_field p "approved"))) approved_not_bool
    refuse_if (is_blank_field (get_field? p "actor")) actor_empty
  validate_unit unit_ready p contract unit =
      let first = is_pending unit.status in
      let retry = is_failed unit.status && is_true (get_field p "retry") in
      do
        refuse_if (not (first || retry)) ready_from_wrong_state
        refuse_if (first && is_always contract.policy.human_approval) authorization_required
        refuse_if (retry && is_exhausted contract unit) retries_exhausted
  validate_unit unit_started p contract unit = do
    refuse_if (not (is_ready unit.status)) start_not_ready
    refuse_if (is_exhausted contract unit) retries_exhausted
  validate_unit unit_claimed p contract unit = do
    refuse_if (not (is_running unit.status)) claim_not_running
    outputs ← object_field outputs_not_object (get_field p "outputs")
    refuse_if (not (satisfies contract.output_schema (obj outputs))) outputs_invalid
  validate_unit unit_awaiting_evidence p contract unit = do
    refuse_if (not (is_claimed unit.status)) gate_not_claimed
    refuse_if (is_empty contract.requires_evidence) no_obligations
    refuse_if (not (is_text_list (get_field p "required") contract.requires_evidence))
        obligations_differ
  validate_unit evidence_recorded p contract unit = do
    refuse_if (not (is_awaiting_evidence unit.status)) not_awaiting_evidence
    evidence ← evidence_contract contract (get_field p "evidence")
    refuse_if (has unit.evidence evidence.id) evidence_again
    refuse_if (not (is_bool (get_field p "accepted"))) accepted_not_bool
    receipt ← object_field receipt_not_object (get_field p "receipt")
    refuse_if
        (is_true (get_field p "accepted") && not (receipt_valid evidence.schema (obj receipt)))
        receipt_invalid
  validate_unit unit_completed p contract unit =
      if is_claimed unit.status && is_empty contract.requires_evidence
      then ok tt
      else if is_awaiting_evidence unit.status && gates_accepted contract unit
      then ok tt
      else refuse gates_open
  validate_unit unit_skipped p contract unit = do
    refuse_if (not (is_ready unit.status)) skip_not_ready
    kept ← keeps_condition contract.when (get_field p "when")
    refuse_if (not kept || is_blank_field (get_field? p "reason")) skip_not_preserving
  validate_unit unit_failed p contract unit = do
    refuse_if
        (not (is_running unit.status || is_claimed unit.status || is_awaiting_evidence unit.status))
        unit_cannot_fail
    refuse_if (is_blank_field (get_field? p "reason")) failure_reason_empty
  validate_unit _ p contract unit = refuse unknown_event_type

  module _ (plan : ExecutionPlan) where
    -- Lines 290 to 302: a unit is registered, or there must be one.
    unfoldable pub validate_in_stage :
        EventKind → Fields → UnitRef → CompiledStage → StageGroupState → Machine → Result (Unit {0})
    validate_in_stage unit_registered p ref contract group m = do
      refuse_if group.sealed already_sealed
      refuse_if (has group.units ref.unit_key) already_registered
      satisfied ← dependencies_satisfied plan m ref.stage_id
      refuse_if (not satisfied) dependencies_open
      refuse_if
          (is_singleton contract.fanout.mode
            && (not (ref.unit_key == singleton_unit_key) || not (is_empty group.units)))
          one_default_unit
    validate_in_stage kind p ref contract group m = do
      unit ← unit_at plan m ref
      validate_unit kind p contract unit

    -- Lines 270 to 289, of a running execution.
    unfoldable pub validate_running : EventKind → Fields → Machine → Result (Unit {0})
    validate_running stage_sealed p m = do
      stage_id ← stage_id_of p
      contract ← stage_contract plan stage_id
      group ← group_of m stage_id
      refuse_if group.sealed already_sealed
      satisfied ← dependencies_satisfied plan m stage_id
      refuse_if (not satisfied) dependencies_open
      refuse_if (is_empty group.units) seal_without_units
      refuse_if (is_singleton contract.fanout.mode && not (is_only_default (keys group.units)))
          seal_not_default
    validate_running kind p m = do
      ref ← ref_from_payload p
      contract ← stage_contract plan ref.stage_id
      group ← group_of m ref.stage_id
      validate_in_stage kind p ref contract group m

    -- Lines 245 to 268, behind the creation of the execution.
    unfoldable pub validate_created : EventKind → Fields → Machine → Result (Unit {0})
    validate_created execution_started p m = refuse_if (not (in_created m.status)) start_not_created
    validate_created execution_succeeded p m =
        refuse_if (not (in_running m.status) || not (all_work_satisfied m)) not_all_satisfied
    validate_created execution_failed p m = do
      refuse_if (not (in_running m.status)) fail_not_running
      ref ← ref_from_payload p
      unit ← unit_at plan m ref
      refuse_if (not (is_failed unit.status)) fail_without_failed_unit
      refuse_if (is_blank_field (get_field? p "reason")) fail_without_reason
    validate_created execution_cancelled p m =
        refuse_if (not (in_created m.status || in_running m.status)) cannot_cancel
    validate_created kind p m = do
      refuse_if (not (in_running m.status)) not_running
      validate_running kind p m

    abbrev pub plan_digest : String
    plan_digest = digest platform.canonical_bytes platform.sha256_hex plan

    unfoldable pub validate : EventKind → Fields → Machine → Result (Unit {0})
    validate execution_created p m = do
      refuse_if m.created_applied created_again
      refuse_if (not (is_text (get_field p "planDigest") plan_digest)) digest_differs
      refuse_if
          (not (is_text (get_field p "domain") plan.domain_name)
            || not (is_text (get_field p "flow") plan.flow))
          domain_or_flow_differs
    validate kind p m = do
      refuse_if (not m.created_applied) created_not_first
      validate_created kind p m
