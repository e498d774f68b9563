-- ===== src/State/Operations.antt =====
-- The private methods of ExecutionMachine that the public ones share (contractplane/state.py).
use contractplane.Prelude.{
  String, Bool, false, not, ◌&&◌, ◌||◌, List, [], ◌∷◌, if◌then◌else◌, is_empty,
}
use contractplane.Json.{str, obj, Fields, end, field}
use contractplane.Errors.{
  TransitionReason, wrong_execution_status, wrong_unit_status, cannot_complete, refuse_if,
}
use contractplane.Plan.{CompiledStage, stages}
use contractplane.State.{
  ExecutionStatus, UnitStatus, singleton_unit_key, UnitRef, WorkUnitState, StageGroupState,
  is_claimed, is_awaiting_evidence, make_ref, ref_to_dict, group_of, all_work_satisfied,
  stage_contract, unit_at, dependencies_satisfied,
}
use contractplane.State.Kind.{
  execution_succeeded, stage_sealed, unit_registered, authorization_requested, unit_ready,
  unit_completed,
}
use contractplane.State.Validate.{is_always, is_singleton}
use contractplane.State.Apply.{group_item}
use contractplane.State.Step.{Context, Kernel, emit}
use contractplane.Action.{Action, pure, lift, gets, ask, ◌>>=◌, ◌>>◌}

abbrev pub Method : Type 0 → Type 0
Method A = Action Kernel A

-- {"unit": ref.to_dict()}
abbrev pub unit_payload : UnitRef → Fields
unit_payload ref = field "unit" (obj (ref_to_dict ref)) end

abbrev pub check : Bool → TransitionReason → Method (Unit {0})
check test reason = lift (refuse_if (not test) reason)

unfoldable pub require_execution : (ExecutionStatus → Bool) → Method (Unit {0})
require_execution expected =
    ask (λ s. refuse_if (not (expected s.machine.status)) wrong_execution_status)

module _ (c : Context) where
  open c use {plan}

  unfoldable pub contract_of : String → Method CompiledStage
  contract_of stage_id = lift (stage_contract plan stage_id)

  unfoldable pub group_at : String → Method StageGroupState
  group_at stage_id = ask (λ s. group_of s.machine stage_id)

  unfoldable pub satisfied_at : String → Method Bool
  satisfied_at stage_id = ask (λ s. dependencies_satisfied plan s.machine stage_id)

  -- self._unit(ref)
  unfoldable pub unit_of : UnitRef → Method WorkUnitState
  unit_of ref = ask (λ s. unit_at plan s.machine ref)

  unfoldable pub require_unit : UnitRef → (UnitStatus → Bool) → Method WorkUnitState
  require_unit ref expected = do
    unit ← unit_of ref
    check (expected unit.status) wrong_unit_status
    pure unit

  unfoldable pub request_authorization_or_ready : UnitRef → Method (Unit {0})
  request_authorization_or_ready ref = do
    contract ← contract_of ref.stage_id
    emit c
        (if is_always contract.policy.human_approval then authorization_requested else unit_ready)
        (unit_payload ref)

  -- The body of the `if` of `_materialize_singletons`.
  unfoldable pub open_singleton : CompiledStage → Method (Unit {0})
  open_singleton contract = do
    ref ← lift (make_ref (str contract.id) (str singleton_unit_key))
    emit c unit_registered (unit_payload ref)
    request_authorization_or_ready ref
    emit c stage_sealed (field "stageId" (str contract.id) end)

  -- One round of `_materialize_singletons`. The dependencies are asked for last.
  unfoldable pub materialize : CompiledStage → Method (Unit {0})
  materialize contract = do
    group ← ask (λ s. group_item s.machine contract.id)
    satisfied ←
        (if is_singleton contract.fanout.mode && is_empty group.units
          then satisfied_at contract.id
          else pure false)
    if satisfied then open_singleton contract else pure tt

  unfoldable pub materialize_all : List CompiledStage → Method (Unit {0})
  materialize_all [] = pure tt
  materialize_all (contract ∷ contracts) = do materialize contract; materialize_all contracts

  -- `_materialize_singletons`
  unfoldable pub materialize_singletons : Method (Unit {0})
  materialize_singletons = materialize_all (stages plan)

  unfoldable pub unlock_or_finish : Method (Unit {0})
  unlock_or_finish = do
    materialize_singletons
    satisfied ← gets (λ s. all_work_satisfied s.machine)
    if satisfied then emit c execution_succeeded end else pure tt

  unfoldable pub complete_unit : UnitRef → Method (Unit {0})
  complete_unit ref = do
    unit ← unit_of ref
    check (is_claimed unit.status || is_awaiting_evidence unit.status) cannot_complete
    emit c unit_completed (unit_payload ref)
    unlock_or_finish
