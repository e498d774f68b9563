-- ===== src/State/Methods.antt =====
-- The public methods of ExecutionMachine (contractplane/state.py). A method's guards stand before
-- its first event; a guard that raises later leaves the events before it in the ledger.
use contractplane.Prelude.{
  String, Bool, true, false, not, ◌&&◌, ◌||◌, ◌==◌, if◌then◌else◌, is_empty, is_blank,
}
use contractplane.Prelude.Dict.{has}
use contractplane.Json.{bool, num, str, obj, Fields, end, field}
use contractplane.Errors.{
  cannot_cancel, already_sealed, dependencies_open, seal_without_units, already_registered,
  retries_exhausted, actor_empty, outputs_invalid, evidence_again, receipt_invalid, no_condition,
  skip_not_preserving, unit_cannot_fail, failure_reason_empty, kernel_managed,
  approval_not_implemented, refuse,
}
use contractplane.Plan.{CompiledStage}
use contractplane.State.{
  UnitRef, is_ready, is_running, is_claimed, is_awaiting_authorization, is_awaiting_evidence,
  in_created, in_running, make_ref, ref_to_dict, or_refuse, gates_accepted,
}
use contractplane.State.Kind.{
  execution_started, execution_failed, execution_cancelled, stage_sealed, unit_registered,
  authorization_requested, authorization_decided, unit_ready, unit_started, unit_claimed,
  unit_awaiting_evidence, evidence_recorded, unit_skipped, unit_failed,
}
use contractplane.State.Validate.{
  evidence_contract, is_always, is_singleton, is_exhausted, receipt_valid, satisfies,
}
use contractplane.Models.Render.{text_array}
use contractplane.State.Step.{Context, emit}
use contractplane.Action.{pure, lift, gets, ◌>>=◌, ◌>>◌}
use contractplane.State.Operations.{
  Method, unit_payload, check, require_execution, contract_of, group_at, satisfied_at, unit_of,
  require_unit, request_authorization_or_ready, materialize_singletons, unlock_or_finish,
  complete_unit,
}

-- `reason or default`
abbrev pub text_or_default : String → String → String
text_or_default t default = if t == "" then default else t

module _ (c : Context) where
  open c use {platform, plan}

  unfoldable pub start : Method (Unit {0})
  start = do require_execution in_created; emit c execution_started end; materialize_singletons c

  unfoldable pub register_unit : String → String → Method UnitRef
  register_unit stage_id unit_key = do
    require_execution in_running
    contract ← contract_of c stage_id
    group ← group_at c stage_id
    check (not (is_singleton contract.fanout.mode)) kernel_managed
    check (not group.sealed) already_sealed
    satisfied ← satisfied_at c stage_id
    check satisfied dependencies_open
    ref ← lift (make_ref (str stage_id) (str unit_key))
    check (not (has group.units ref.unit_key)) already_registered
    emit c unit_registered (unit_payload ref)
    request_authorization_or_ready c ref
    pure ref

  unfoldable pub seal_stage : String → Method (Unit {0})
  seal_stage stage_id = do
    require_execution in_running
    contract ← contract_of c stage_id
    group ← group_at c stage_id
    check (not (is_singleton contract.fanout.mode)) kernel_managed
    check (not group.sealed) already_sealed
    satisfied ← satisfied_at c stage_id
    check satisfied dependencies_open
    check (not (is_empty group.units)) seal_without_units
    emit c stage_sealed (field "stageId" (str stage_id) end)
    unlock_or_finish c

  -- The payload of execution.failed, with the unit's attempts at that time.
  unfoldable pub fail_execution : UnitRef → String → Method (Unit {0})
  fail_execution ref reason = do
    unit ← unit_of c ref
    emit c execution_failed
        (field "attempts" (num unit.attempts) (field "reason" (str reason) (unit_payload ref)))

  unfoldable pub authorize_unit :
      UnitRef → (approved : Bool) (actor reason : String) → Method (Unit {0})
  authorize_unit ref approved actor reason = do
    require_execution in_running
    unit ← require_unit c ref is_awaiting_authorization
    check (not (is_blank actor)) actor_empty
    emit c authorization_decided (
        field "actor" (str actor)
          (field "approved" (bool approved) (field "reason" (str reason) (unit_payload ref))))
    if approved then pure tt else fail_execution ref (text_or_default reason "authorization denied")

  unfoldable pub start_unit : UnitRef → Method (Unit {0})
  start_unit ref = do
    require_execution in_running
    unit ← require_unit c ref is_ready
    contract ← contract_of c ref.stage_id
    check (not (is_exhausted contract unit)) retries_exhausted
    emit c unit_started (unit_payload ref)

  -- `outputs or {}` is `outputs`, as an empty object and `None` are alike.
  unfoldable pub claim_unit : UnitRef → Fields → Method (Unit {0})
  claim_unit ref outputs = do
    require_execution in_running
    unit ← require_unit c ref is_running
    contract ← contract_of c ref.stage_id
    check (satisfies platform contract.output_schema (obj outputs)) outputs_invalid
    emit c unit_claimed (field "outputs" (obj outputs) (unit_payload ref))
    if is_empty contract.requires_evidence
        then complete_unit c ref
        else emit c unit_awaiting_evidence
            (field "required" (text_array contract.requires_evidence) (unit_payload ref))

  unfoldable pub fail_unit : UnitRef → String → (retry : Bool) → Method (Unit {0})
  fail_unit ref reason retry = do
    require_execution in_running
    unit ← unit_of c ref
    check (is_running unit.status || is_claimed unit.status || is_awaiting_evidence unit.status)
        unit_cannot_fail
    check (not (is_blank reason)) failure_reason_empty
    emit c unit_failed (field "reason" (str reason) (unit_payload ref))
    contract ← contract_of c ref.stage_id
    after ← unit_of c ref
    if retry && not (is_exhausted contract after)
        then emit c
            (if is_always contract.policy.human_approval
              then authorization_requested
              else unit_ready)
            (field "retry" (bool true) (unit_payload ref))
        else fail_execution ref reason

  -- The end of `record_evidence`, behind its event. It reads the unit that the event changed.
  unfoldable pub settle_evidence :
      UnitRef → CompiledStage → (accepted : Bool) → (rejection : String) → Method (Unit {0})
  settle_evidence ref stage false rejection = fail_unit ref rejection false
  settle_evidence ref stage true rejection = do
    unit ← unit_of c ref
    if gates_accepted stage unit then complete_unit c ref else pure tt

  -- `rejection` is the text f"evidence {evidence_id!r} was rejected".
  unfoldable pub record_evidence :
      UnitRef
      → (evidence_id : String) → (receipt : Fields) → (accepted : Bool) → (rejection : String)
      → Method (Unit {0})
  record_evidence ref evidence_id receipt accepted rejection = do
    require_execution in_running
    unit ← require_unit c ref is_awaiting_evidence
    stage ← contract_of c ref.stage_id
    evidence ← lift (evidence_contract stage (str evidence_id))
    check (not (has unit.evidence evidence_id)) evidence_again
    check (not accepted || receipt_valid platform evidence.schema (obj receipt)) receipt_invalid
    emit c evidence_recorded (
        field "accepted" (bool accepted)
          (field "evidence" (str evidence_id) (field "receipt" (obj receipt) (unit_payload ref))))
    settle_evidence ref stage accepted rejection

  unfoldable pub approve_unit :
      UnitRef → (approved : Bool) (actor reason : String) → Method (Unit {0})
  approve_unit ref approved actor reason = lift (refuse approval_not_implemented)

  unfoldable pub skip_unit : UnitRef → String → Method (Unit {0})
  skip_unit ref reason = do
    require_execution in_running
    unit ← require_unit c ref is_ready
    contract ← contract_of c ref.stage_id
    condition ← lift (or_refuse no_condition contract.when)
    check (not (is_blank reason)) skip_not_preserving
    emit c unit_skipped (
        field "reason" (str reason)
          (field "unit" (obj (ref_to_dict ref)) (field "when" (str condition) end)))
    unlock_or_finish c

  unfoldable pub cancel : String → Method (Unit {0})
  cancel reason = do
    status ← gets (λ s. s.machine.status)
    check (in_created status || in_running status) cannot_cancel
    emit c execution_cancelled (field "reason" (str reason) end)

-- A call of a public method.
pub data Request : Type 0 where
  start_request : Request
  register_request : (stage_id unit_key : String) → Request
  seal_request : (stage_id : String) → Request
  authorize_request : UnitRef → (approved : Bool) → (actor reason : String) → Request
  start_unit_request : UnitRef → Request
  claim_request : UnitRef → (outputs : Fields) → Request
  record_request :
      UnitRef
      → (evidence_id : String) → (receipt : Fields) → (accepted : Bool) → (rejection : String)
      → Request
  approve_request : UnitRef → (approved : Bool) → (actor reason : String) → Request
  skip_request : UnitRef → (reason : String) → Request
  fail_request : UnitRef → (reason : String) → (retry : Bool) → Request
  cancel_request : (reason : String) → Request

module _ (c : Context) where
  unfoldable pub perform : Request → Method (Unit {0})
  perform start_request = start c
  perform (register_request stage_id unit_key) = do ref ← register_unit c stage_id unit_key; pure tt
  perform (seal_request stage_id) = seal_stage c stage_id
  perform (authorize_request ref approved actor reason) = authorize_unit c ref approved actor reason
  perform (start_unit_request ref) = start_unit c ref
  perform (claim_request ref outputs) = claim_unit c ref outputs
  perform (record_request ref id receipt accepted rejection) =
      record_evidence c ref id receipt accepted rejection
  perform (approve_request ref approved actor reason) = approve_unit c ref approved actor reason
  perform (skip_request ref reason) = skip_unit c ref reason
  perform (fail_request ref reason retry) = fail_unit c ref reason retry
  perform (cancel_request reason) = cancel c reason
