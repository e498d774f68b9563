-- ===== src/State/Apply.antt =====
-- `_apply_event` of contractplane/state.py. An event that raises leaves no machine here; none does
-- behind `_validate_event` (see State/Progress).
use contractplane.Prelude.Dict
use contractplane.Prelude.{◌+◌, String, Bool, true, false, [], ◌∷◌, if◌then◌else◌}
use contractplane.Prelude.Dict.{
  Dict, keys, values, has, index_onto, index_by, dict_laws, get-put, get-put_self, get_of_all,
  all-put,
}
use contractplane.Json.{Json, null, str, obj, Fields, end, get_field, is_truthy, is_true}
use contractplane.Errors.{unknown_event, ledger_error, type_error, Result, ok, raise, ◌>>=◌}
use contractplane.Models.{found_at}
use contractplane.Plan.{ExecutionPlan}
use contractplane.State.{
  ExecutionStatus, created, succeeded, UnitStatus, awaiting_authorization, ready, claimed,
  awaiting_evidence, completed, skipped, UnitRef, WorkUnitState, StageGroupState, Machine, item,
  ref_from_payload, stage_id_of, new_unit, unit_at,
}
use contractplane.State.Kind.{
  EventKind, execution_created, execution_started, execution_succeeded, execution_failed,
  execution_cancelled, stage_sealed, unit_registered, authorization_requested,
  authorization_decided, unit_ready, unit_started, unit_claimed, unit_awaiting_evidence,
  evidence_recorded, unit_completed, unit_skipped, unit_failed, unknown_kind,
}

abbrev pub outputs_cleared : WorkUnitState → WorkUnitState
outputs_cleared unit = record unit {
  outputs = obj end;
  evidence = [];
  failure = null;
  skip_reason = null;
}

-- payload["evidence"], as a key. No other value than a text passes `_validate_event`.
abbrev pub key_of : Json → Result String
key_of (str t) = ok t
key_of _ = raise type_error

-- payload.get("reason") or "authorization denied"
abbrev pub or_denied : Json → Json
or_denied v = if is_truthy v then v else str "authorization denied"

-- The change of the one unit that the event names.
unfoldable pub apply_unit : EventKind → Fields → WorkUnitState → Result WorkUnitState
apply_unit authorization_requested p unit =
    let asked = record unit { status = awaiting_authorization } in
    ok (if is_true (get_field p "retry") then outputs_cleared asked else asked)
apply_unit authorization_decided p unit = do
  approved ← item p "approved"
  ok (
      if is_truthy approved
      then record unit { status = ready }
      else record unit { status = UnitStatus.failed; failure = or_denied (get_field p "reason") })
apply_unit unit_ready p unit = ok (outputs_cleared (record unit { status = ready }))
apply_unit unit_started p unit =
    ok (record unit { status = UnitStatus.running; attempts = unit.attempts + 1 })
apply_unit unit_claimed p unit = do
  outputs ← item p "outputs"
  ok (record unit { status = claimed; outputs = outputs })
apply_unit unit_awaiting_evidence p unit = ok (record unit { status = awaiting_evidence })
apply_unit evidence_recorded p unit = do
  id ← item p "evidence"
  key ← key_of id
  accepted ← item p "accepted"
  receipt ← item p "receipt"
  ok (record unit {
    evidence =
        Dict.put unit.evidence key (record { accepted = is_truthy accepted; payload = receipt });
  })
apply_unit unit_completed p unit = ok (record unit { status = completed })
apply_unit unit_skipped p unit = do
  reason ← item p "reason"
  ok (record unit { status = skipped; skip_reason = reason })
apply_unit unit_failed p unit = do
  reason ← item p "reason"
  ok (record unit { status = UnitStatus.failed; failure = reason })
apply_unit _ p unit = raise (ledger_error unknown_event)

-- Writes a group, or a unit of a group, back.
unfoldable pub put_group : String → StageGroupState → Machine → Machine
put_group stage_id group m = record m { stage_groups = Dict.put m.stage_groups stage_id group }

unfoldable pub put_unit : UnitRef → WorkUnitState → StageGroupState → StageGroupState
put_unit ref unit group = record group { units = Dict.put group.units ref.unit_key unit }

-- self.stage_groups[stage_id]
unfoldable pub group_item : Machine → String → Result StageGroupState
group_item m stage_id = found_at stage_id (Dict.get m.stage_groups stage_id)

abbrev pub is_final_unit : UnitStatus → Bool
is_final_unit completed = true
is_final_unit skipped = true
is_final_unit UnitStatus.failed = true
is_final_unit _ = false

abbrev pub cancel_unit : WorkUnitState → WorkUnitState
cancel_unit unit =
    if is_final_unit unit.status then unit else record unit { status = UnitStatus.cancelled }

-- A change of all values of a dict.
unfoldable pub map_values {ℓ} : {V : Type ℓ} → (V → V) → Dict V → Dict V
map_values f [] = []
map_values f ((k, v) ∷ d) = (k, f v) ∷ map_values f d

abbrev pub cancel_group : StageGroupState → StageGroupState
cancel_group group = record group { units = map_values cancel_unit group.units }

module _ (plan : ExecutionPlan) where
  unfoldable pub apply : EventKind → Fields → Machine → Result Machine
  apply execution_created p m = ok (record m { created_applied = true; status = created })
  apply execution_started p m = ok (record m { status = ExecutionStatus.running })
  apply execution_succeeded p m = ok (record m { status = succeeded })
  apply execution_failed p m =
      ok (record m { status = ExecutionStatus.failed; failure = get_field p "reason" })
  apply execution_cancelled p m = ok (record m {
    status = ExecutionStatus.cancelled;
    failure = get_field p "reason";
    stage_groups = map_values cancel_group m.stage_groups;
  })
  apply stage_sealed p m = do
    stage_id ← stage_id_of p
    group ← group_item m stage_id
    ok (put_group stage_id (record group { sealed = true }) m)
  apply unit_registered p m = do
    ref ← ref_from_payload p
    group ← group_item m ref.stage_id
    ok (put_group ref.stage_id (put_unit ref (new_unit ref) group) m)
  apply unknown_kind p m = raise (ledger_error unknown_event)
  apply kind p m = do
    ref ← ref_from_payload p
    unit ← unit_at plan m ref
    group ← group_item m ref.stage_id
    changed ← apply_unit kind p unit
    ok (put_group ref.stage_id (put_unit ref changed group) m)
