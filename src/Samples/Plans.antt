-- ===== src/Samples/Plans.antt =====
-- A plan of two stages, sessions that run it to an end, and the states that they come to.
use contractplane.Prelude.{true, false, none, some, List, [], ◌∷◌}
use contractplane.Json.{null, str, obj, Fields, end, field}
use contractplane.Models.{Evidence, always, never, singleton, each, Policy}
use contractplane.Plan.{CompiledStage, ExecutionPlan}
use contractplane.Ledger.{Event, read}
use contractplane.Errors.{Result, ok, raise}
use contractplane.State.{
  ExecutionStatus, created, UnitStatus, ready, completed, UnitRef, Receipt, WorkUnitState,
  StageGroupState, Machine, ref_to_dict,
}
use contractplane.State.Step.{Context, Kernel, create}
use contractplane.State.Methods.{
  start_request, register_request, seal_request, authorize_request, start_unit_request,
  claim_request, record_request, fail_request, cancel_request,
}
use contractplane.State.Sessions.{Turn, own, other_create, other_append, session}
use contractplane.Models.{Stage, DomainPack, deterministic, agent, no_effect, json_schema}
use contractplane.Samples.Codec.{library}

abbrev any_object : Fields
any_object = field "type" (str "object") end

abbrev easy : Policy
easy = record {
  id = "easy";
  description = "one attempt";
  evidence_required = false;
  human_approval = never;
  max_attempts = 1;
}

abbrev strict : Policy
strict = record {
  id = "strict";
  description = "asks first";
  evidence_required = true;
  human_approval = always;
  max_attempts = 2;
}

abbrev pub report : Evidence
report = record {
  id = "report";
  kind = json_schema;
  description = "the findings";
  schema = some (field "required" (str "summary") end);
}

abbrev pub collect : CompiledStage
collect = record {
  id = "collect";
  description = "collect files";
  capability = "scan";
  capability_description = "scan";
  capability_kind = deterministic;
  side_effects = no_effect;
  input_schema = any_object;
  output_schema = any_object;
  permissions = [];
  binding = none;
  role = none;
  role_contract = none;
  needs = [];
  fanout = record { mode = singleton; over = none };
  requires_evidence = [];
  evidence_contracts = [];
  policy = easy;
  produces = [];
  when = none;
}

abbrev pub review : CompiledStage
review = record {
  id = "review";
  description = "review a file";
  capability = "read";
  capability_description = "read";
  capability_kind = agent;
  side_effects = no_effect;
  input_schema = any_object;
  output_schema = any_object;
  permissions = [];
  binding = none;
  role = none;
  role_contract = none;
  needs = "collect" ∷ [];
  fanout = record { mode = each; over = some "files" };
  requires_evidence = "report" ∷ [];
  evidence_contracts = report ∷ [];
  policy = strict;
  produces = [];
  when = none;
}

abbrev pub two_stages : ExecutionPlan
two_stages = record {
  domain_name = "code";
  domain_version = "1";
  flow = "check";
  entrypoint = none;
  input_schema = any_object;
  waves =
      record { index = 1; stages = collect ∷ [] } ∷ record { index = 2; stages = review ∷ [] } ∷ [];
}

abbrev pub sample : Context
sample = record { platform = library; plan = two_stages; execution_id = "run-1" }

abbrev pub collect_ref : UnitRef
collect_ref = record { stage_id = "collect"; unit_key = "default" }

abbrev pub review_ref : UnitRef
review_ref = record { stage_id = "review"; unit_key = "a" }

abbrev pub created_machine : Machine
created_machine = record {
  status = created;
  created_applied = true;
  failure = null;
  stage_groups =
      ("collect", record { stage_id = "collect"; sealed = false; units = [] })
      ∷ ("review", record { stage_id = "review"; sealed = false; units = [] })
      ∷ [];
}

abbrev pub whole_run : List Turn
whole_run =
    own start_request
    ∷ own (start_unit_request collect_ref)
    ∷ other_create "run-2" end
    ∷ own (claim_request collect_ref end)
    ∷ own (register_request "review" "a")
    ∷ own (authorize_request review_ref true "ann" "")
    ∷ own (start_unit_request review_ref)
    ∷ own (claim_request review_ref end)
    ∷ own (record_request review_ref "report" (field "summary" (str "fine") end) true "")
    ∷ other_append "run-2" "execution.started" end
    ∷ own (seal_request "review")
    ∷ []

abbrev pub opening : Kernel
opening = record { machine = created_machine; ledger = (create sample none).1 }

abbrev pub ending : Kernel
ending = session sample whole_run opening

-- The second stage's unit fails at its first attempt, is authorized again and started again.
abbrev pub retrying_run : List Turn
retrying_run =
    own start_request
    ∷ own (start_unit_request collect_ref)
    ∷ own (claim_request collect_ref end)
    ∷ own (register_request "review" "a")
    ∷ own (authorize_request review_ref true "ann" "")
    ∷ own (start_unit_request review_ref)
    ∷ own (fail_request review_ref "no answer" true)
    ∷ own (authorize_request review_ref true "ann" "")
    ∷ own (start_unit_request review_ref)
    ∷ []

abbrev pub retrying : Kernel
retrying = session sample retrying_run opening

abbrev or_none : Result (List Event) → List Event
or_none (ok events) = events
or_none (raise e) = []

-- The events that it leaves.
abbrev pub retrying_events : List Event
retrying_events = or_none (read sample.platform sample.execution_id retrying.ledger)

-- The default unit fails, and the execution with it.
abbrev pub failing_run : List Turn
failing_run =
    own start_request
    ∷ own (start_unit_request collect_ref)
    ∷ own (fail_request collect_ref "no disk" true)
    ∷ []

abbrev pub failing : Kernel
failing = session sample failing_run opening

abbrev pub cancelling_run : List Turn
cancelling_run = own start_request ∷ own (cancel_request "late") ∷ []

abbrev pub cancelling : Kernel
cancelling = session sample cancelling_run opening

-- The units at the end of these runs.
abbrev pub collected : WorkUnitState
collected = record {
  ref = collect_ref;
  status = completed;
  attempts = 1;
  outputs = obj end;
  evidence = [];
  failure = null;
  skip_reason = null;
}

abbrev pub fine : Receipt
fine = record { accepted = true; payload = obj (field "summary" (str "fine") end) }

abbrev pub reviewed : WorkUnitState
reviewed = record {
  ref = review_ref;
  status = completed;
  attempts = 1;
  outputs = obj end;
  evidence = ("report", fine) ∷ [];
  failure = null;
  skip_reason = null;
}

abbrev pub cancelled_unit : WorkUnitState
cancelled_unit = record {
  ref = collect_ref;
  status = UnitStatus.cancelled;
  attempts = 0;
  outputs = obj end;
  evidence = [];
  failure = null;
  skip_reason = null;
}

abbrev pub collect_group : StageGroupState
collect_group = record { stage_id = "collect"; sealed = true; units = ("default", collected) ∷ [] }

abbrev pub review_group : StageGroupState
review_group = record { stage_id = "review"; sealed = true; units = ("a", reviewed) ∷ [] }

-- States in the middle, and events.
abbrev pub ready_unit : WorkUnitState
ready_unit = record {
  ref = collect_ref;
  status = ready;
  attempts = 0;
  outputs = obj end;
  evidence = [];
  failure = null;
  skip_reason = null;
}

abbrev pub with_collect : WorkUnitState → Machine
with_collect unit = record {
  status = ExecutionStatus.running;
  created_applied = true;
  failure = null;
  stage_groups =
      ("collect", record { stage_id = "collect"; sealed = true; units = ("default", unit) ∷ [] })
      ∷ ("review", record { stage_id = "review"; sealed = false; units = [] })
      ∷ [];
}

abbrev pub ready_machine : Machine
ready_machine = with_collect ready_unit

abbrev pub running_machine : Machine
running_machine = with_collect (record ready_unit { status = UnitStatus.running; attempts = 1 })

abbrev pub started_payload : Fields
started_payload = field "unit" (obj (ref_to_dict collect_ref)) end

abbrev pub done_machine : Machine
done_machine = record ending.machine { status = ExecutionStatus.running }

abbrev pub second_event : Event
second_event = record {
  sequence = 2;
  execution_id = "run-1";
  type = "execution.started";
  payload = end;
}

abbrev pub other_first_event : Event
other_first_event = record {
  sequence = 2;
  execution_id = "run-2";
  type = "execution.created";
  payload = end;
}

-- The pack that declares the second stage.
abbrev pub review_stage : Stage
review_stage = record {
  id = "review";
  description = "review a file";
  capability = "read";
  role = none;
  needs = "collect" ∷ [];
  fanout = record { mode = each; over = some "files" };
  requires_evidence = "report" ∷ [];
  policy = some "strict";
  produces = [];
  when = none;
}

abbrev pub code_pack : DomainPack
code_pack = record {
  api_version = "contractplane.dev/v1alpha1";
  kind = "DomainPack";
  metadata = record { name = "code"; version = "1"; description = "reviews" };
  default_policy = "easy";
  capabilities =
      record {
        id = "read";
        kind = agent;
        description = "read";
        side_effects = no_effect;
        input_schema = any_object;
        output_schema = any_object;
        permissions = [];
        binding = none;
      }
      ∷ [];
  roles = [];
  evidence = report ∷ [];
  policies = easy ∷ strict ∷ [];
  flows = [];
  entrypoints = [];
}
