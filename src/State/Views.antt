-- ===== src/State/Views.antt =====
-- contractplane/state.py: what can be read of a machine: `units`, `to_dict` and `snapshot`.
use Prim.Native.String.{compare}
use text.Mathlib.Text.{is_le}
use contractplane.Prelude.{String, List, [], ◌∷◌, ◌++◌, if◌then◌else◌}
use contractplane.Prelude.Dict
use contractplane.Prelude.Dict.{Dict}
use contractplane.Json.{bool, num, str, obj, Fields, end, field}
use contractplane.Errors.{Result, ok, ◌>>=◌}
use contractplane.Models.{found_at}
use contractplane.Models.Render.{objects}
use contractplane.Plan.{CompiledStage, stages}
use contractplane.State.{
  ExecutionStatus, UnitStatus, Receipt, WorkUnitState, StageGroupState, Machine,
}
use contractplane.State.Validate.{plan_digest}
use contractplane.State.Step.{Context}

abbrev pub status_value : ExecutionStatus → String
status_value ExecutionStatus.created = "created"
status_value ExecutionStatus.running = "running"
status_value ExecutionStatus.succeeded = "succeeded"
status_value ExecutionStatus.failed = "failed"
status_value ExecutionStatus.cancelled = "cancelled"

abbrev pub unit_status_value : UnitStatus → String
unit_status_value UnitStatus.pending = "pending"
unit_status_value UnitStatus.awaiting_authorization = "awaiting-authorization"
unit_status_value UnitStatus.ready = "ready"
unit_status_value UnitStatus.running = "running"
unit_status_value UnitStatus.claimed = "claimed"
unit_status_value UnitStatus.awaiting_evidence = "awaiting-evidence"
unit_status_value UnitStatus.completed = "completed"
unit_status_value UnitStatus.skipped = "skipped"
unit_status_value UnitStatus.failed = "failed"
unit_status_value UnitStatus.cancelled = "cancelled"

-- sorted(...) of the keys of a dict
unfoldable pub insert_entry {ℓ} : {V : Type ℓ} → String × V → Dict V → Dict V
insert_entry x [] = x ∷ []
insert_entry x (y ∷ ys) =
    let rest = insert_entry x ys in if is_le (compare x.0 y.0) then x ∷ y ∷ ys else y ∷ rest

unfoldable pub sorted_entries {ℓ} : {V : Type ℓ} → Dict V → Dict V
unfolding insert_entry
sorted_entries [] = []
sorted_entries (x ∷ xs) = insert_entry x (sorted_entries xs)

-- The entries of `unit.evidence`, by their keys.
unfoldable pub receipt_fields : Dict Receipt → Fields
receipt_fields [] = end
receipt_fields ((id, receipt) ∷ rest) =
    field id (obj (field "accepted" (bool receipt.accepted) (field "payload" receipt.payload end)))
      (receipt_fields rest)

unfoldable pub unit_to_dict : WorkUnitState → Fields
unfolding receipt_fields sorted_entries
unit_to_dict unit = field "attempts" (num unit.attempts) (
    field "evidence" (obj (receipt_fields (sorted_entries unit.evidence))) (
      field "failure" unit.failure (
        field "outputs" unit.outputs (
          field "skipReason" unit.skip_reason (
            field "stageId" (str unit.ref.stage_id) (
              field "status" (str (unit_status_value unit.status))
                (field "unitKey" (str unit.ref.unit_key) end)))))))

unfoldable pub group_to_dict : StageGroupState → Fields
unfolding sorted_entries unit_to_dict
group_to_dict group = field "sealed" (bool group.sealed) (
    field "stageId" (str group.stage_id)
      (field "units" (objects (λ entry. unit_to_dict entry.1) (sorted_entries group.units)) end))

-- `units`: all units, group by group. The dict that the code makes of them is keyed by their
-- references.
unfoldable pub all_units : Dict StageGroupState → List WorkUnitState
all_units [] = []
all_units ((id, group) ∷ groups) = Dict.values group.units ++ all_units groups

abbrev pub units : Machine → List WorkUnitState
units m = all_units m.stage_groups

-- [self.stage_groups[stage.id].to_dict() for stage in stages]
unfoldable pub stage_lines : Machine → List CompiledStage → Result (List Fields)
unfolding group_to_dict
stage_lines m [] = ok []
stage_lines m (stage ∷ rest) = do
  group ← found_at stage.id (Dict.get m.stage_groups stage.id)
  lines ← stage_lines m rest
  ok (group_to_dict group ∷ lines)

abbrev state_api_version : String
state_api_version = "contractplane.dev/kernel-state/v0alpha1"

unfoldable pub snapshot : Context → Machine → Result Fields
snapshot c m = do
  lines ← stage_lines m (stages c.plan)
  ok (
      field "apiVersion" (str state_api_version) (
        field "executionId" (str c.execution_id) (
          field "failure" m.failure (
            field "kind" (str "ExecutionState") (
              field "planDigest" (str (plan_digest c.platform c.plan)) (
                field "stages" (objects (λ line. line) lines)
                  (field "status" (str (status_value m.status)) end)))))))
