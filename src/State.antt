-- ===== src/State.antt =====
-- contractplane/state.py: the state of an execution, and the questions that its methods ask of it.
pub mod Kind
pub mod Validate
pub mod Apply
pub mod Step
pub mod Operations
pub mod Methods
pub mod UnitStep
pub mod Recorded
pub mod Lifecycle
pub mod GroupStep
pub mod Units
pub mod Progress
pub mod Preserved
pub mod Emission
pub mod Recovery
pub mod Creation
pub mod Sessions
pub mod Finished
pub mod Unblocked
pub mod Views
pub mod Order
pub mod Status
pub mod Obligations
pub mod Reachable
pub mod Starts
pub mod Transitions
pub mod Guarantees
use contractplane.Prelude.{
  ℕ, String, Bool, true, false, not, ◌&&◌, Option, none, some, List, [], ◌∷◌, map, ◌==◌, all,
  is_empty, has_control, if◌then◌else◌,
}
use contractplane.Prelude.Dict
use contractplane.Prelude.Dict.{Dict, values, index_onto}
use contractplane.Json.{Json, null, str, obj, Fields, end, field, get_field, get_field?, is_truthy}
use contractplane.Errors.{
  TransitionReason, unknown_stage, unknown_unit, evidence_not_required, unit_ref_missing,
  ledger_error, key_error, type_error, value_error, Result, ok, raise, refuse, ◌>>=◌, ◌>>◌,
}
use contractplane.Models.{Evidence}
use contractplane.Models.{found_at}
use contractplane.Plan.{CompiledStage, ExecutionPlan, stages, stage_map}

pub data ExecutionStatus : Type 0 where
  created running succeeded failed cancelled : ExecutionStatus

pub data UnitStatus : Type 0 where
  pending awaiting_authorization ready running claimed awaiting_evidence completed : UnitStatus
  skipped failed cancelled : UnitStatus

abbrev pub singleton_unit_key : String
singleton_unit_key = "default"

pub record UnitRef : Type 0 where
  pub stage_id : String
  pub unit_key : String

-- {"accepted": ..., "payload": ...}
pub record Receipt : Type 0 where
  pub accepted : Bool
  pub payload : Json

pub record WorkUnitState : Type 0 where
  pub ref : UnitRef
  pub status : UnitStatus
  pub attempts : ℕ
  pub outputs : Json
  pub evidence : Dict Receipt
  pub failure : Json
  pub skip_reason : Json

pub record StageGroupState : Type 0 where
  pub stage_id : String
  pub sealed : Bool
  pub units : Dict WorkUnitState

-- The fields of an ExecutionMachine that change. A `None` is `null`.
pub record Machine : Type 0 where
  pub status : ExecutionStatus
  pub created_applied : Bool
  pub failure : Json
  pub stage_groups : Dict StageGroupState

-- `unit.status is expected`, for the statuses that the code asks for.
abbrev pub is_pending : UnitStatus → Bool
is_pending pending = true
is_pending _ = false

abbrev pub is_ready : UnitStatus → Bool
is_ready ready = true
is_ready _ = false

abbrev pub is_failed : UnitStatus → Bool
is_failed UnitStatus.failed = true
is_failed _ = false

abbrev pub is_completed : UnitStatus → Bool
is_completed completed = true
is_completed _ = false

abbrev pub is_running : UnitStatus → Bool
is_running UnitStatus.running = true
is_running _ = false

abbrev pub is_claimed : UnitStatus → Bool
is_claimed claimed = true
is_claimed _ = false

abbrev pub is_awaiting_authorization : UnitStatus → Bool
is_awaiting_authorization awaiting_authorization = true
is_awaiting_authorization _ = false

abbrev pub is_awaiting_evidence : UnitStatus → Bool
is_awaiting_evidence awaiting_evidence = true
is_awaiting_evidence _ = false

-- unit.status in {COMPLETED, SKIPPED}
abbrev pub is_done : UnitStatus → Bool
is_done completed = true
is_done skipped = true
is_done _ = false

-- self.status is ExecutionStatus.CREATED, and RUNNING
abbrev pub in_created : ExecutionStatus → Bool
in_created created = true
in_created _ = false

abbrev pub in_running : ExecutionStatus → Bool
in_running ExecutionStatus.running = true
in_running _ = false

-- UnitRef(stage_id, unit_key), of any two JSON values. Where a value is no text the code raises a
-- little later, when it searches the key or hashes the pair; here that is a TypeError at once.
unfoldable pub make_ref : Json → Json → Result UnitRef
make_ref stage_id unit_key =
    if not (is_truthy stage_id)
    then raise value_error
    else if not (is_truthy unit_key)
    then raise value_error
    else of_texts stage_id unit_key
  where
    of_texts : Json → Json → Result UnitRef
    of_texts (str s) (str k) =
        if has_control k then raise value_error else ok (record { stage_id = s; unit_key = k })
    of_texts _ _ = raise type_error

-- value["key"]
abbrev pub item : Fields → String → Result Json
item fs k = found_at k (get_field? fs k)

abbrev pub ref_to_dict : UnitRef → Fields
ref_to_dict ref = field "stageId" (str ref.stage_id) (field "unitKey" (str ref.unit_key) end)

unfoldable pub ref_from_dict : Fields → Result UnitRef
unfolding make_ref
ref_from_dict value = do
  stage_id ← item value "stageId"
  unit_key ← item value "unitKey"
  make_ref stage_id unit_key

unfoldable pub ref_from_payload : Fields → Result UnitRef
unfolding ref_from_dict
ref_from_payload payload = elim (get_field payload "unit") [
  | obj unit ↦ ref_from_dict unit
  | _ ↦ raise (ledger_error unit_ref_missing)
]

-- payload["stageId"], as the key of a dict of stages: a list or an object cannot be hashed.
unfoldable pub stage_id_of : Fields → Result String
stage_id_of payload = do
  value ← item payload "stageId"
  elim value [
    | str id ↦ ok id
    | Json.arr _ ↦ raise type_error
    | obj _ ↦ raise type_error
    | _ ↦ refuse unknown_stage
  ]

abbrev pub or_refuse {ℓ} : {A : Type ℓ} → TransitionReason → Option A → Result A
or_refuse r none = refuse r
or_refuse r (some a) = ok a

-- self.stage_groups.get(stage_id).units.get(unit_key)
abbrev pub unit_in : Option StageGroupState → String → Option WorkUnitState
unit_in none unit_key = none
unit_in (some group) unit_key = Dict.get group.units unit_key

unfoldable pub find_unit : Machine → UnitRef → Option WorkUnitState
find_unit m ref = unit_in (Dict.get m.stage_groups ref.stage_id) ref.unit_key

unfoldable pub group_of : Machine → String → Result StageGroupState
group_of m stage_id = or_refuse unknown_stage (Dict.get m.stage_groups stage_id)

unfoldable pub units_done : StageGroupState → Bool
units_done group = all (λ unit. is_done unit.status) (values group.units)

-- The loop of `dependencies_satisfied`.
unfoldable pub needs_satisfied : Machine → List String → Result Bool
unfolding group_of
needs_satisfied m [] = ok true
needs_satisfied m (need ∷ needs) = do
  group ← group_of m need
  if group.sealed && units_done group then needs_satisfied m needs else ok false

unfoldable pub group_satisfied : StageGroupState → Bool
group_satisfied group = group.sealed && not (is_empty group.units) && units_done group

unfoldable pub all_work_satisfied : Machine → Bool
all_work_satisfied m = all group_satisfied (values m.stage_groups)

-- unit.evidence.get(required, {}).get("accepted")
unfoldable pub is_accepted : Dict Receipt → String → Bool
is_accepted evidence required = elim (Dict.get evidence required) [
  | none ↦ false
  | some receipt ↦ receipt.accepted
]

unfoldable pub gates_accepted : CompiledStage → WorkUnitState → Bool
gates_accepted contract unit = all (is_accepted unit.evidence) contract.requires_evidence

-- WorkUnitState(ref)
abbrev pub new_unit : UnitRef → WorkUnitState
new_unit ref = record {
  ref = ref;
  status = pending;
  attempts = 0;
  outputs = obj end;
  evidence = [];
  failure = null;
  skip_reason = null;
}

-- {stage.id: StageGroupState(stage.id) for stage in self.plan.stages}
unfoldable pub new_groups : List CompiledStage → Dict StageGroupState
new_groups plan_stages =
    index_onto (λ group. group.stage_id) []
      (map (λ stage. record { stage_id = stage.id; sealed = false; units = [] }) plan_stages)

module _ (plan : ExecutionPlan) where
  unfoldable pub new_machine : Machine
  new_machine = record {
    status = created;
    created_applied = false;
    failure = null;
    stage_groups = new_groups (stages plan);
  }

  unfoldable pub stage_contract : String → Result CompiledStage
  stage_contract stage_id = or_refuse unknown_stage (Dict.get (stage_map plan) stage_id)

  unfoldable pub unit_at : Machine → UnitRef → Result WorkUnitState
  unit_at m ref = do known ← stage_contract ref.stage_id; or_refuse unknown_unit (find_unit m ref)

  unfoldable pub dependencies_satisfied : Machine → String → Result Bool
  dependencies_satisfied m stage_id = do
    contract ← stage_contract stage_id
    needs_satisfied m contract.needs
