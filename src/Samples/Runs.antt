-- ===== src/Samples/Runs.antt =====
-- What the sample sessions come to.
use contractplane.Models.{policy_for}
use contractplane.Plan.Compile.{compile_stage, evidence_of, role_of}
use contractplane.Prelude.{is_space, is_blank, has_control}
use contractplane.Prelude.Dict
use contractplane.Ledger.{
  check_event, loaded_or, event_json, settle, opened, before_opening, write_event, decode_line,
  decode, read_all, read, validate_append_args, append_locked, append_under_lock, create_execution,
  append, has_execution,
}
use contractplane.Plan.Render.{
  compiled_stage_to_dict, wave_to_dict, plan_document, without_digest, digest,
}
use contractplane.Models.Render.{
  metadata_to_dict, binding_to_dict, capability_to_dict, role_to_dict, evidence_to_dict,
  policy_to_dict, fanout_to_dict, stage_to_dict, flow_to_dict, entrypoint_to_dict, pack_to_dict,
}
use contractplane.State.{
  make_ref, ref_from_dict, ref_from_payload, stage_id_of, find_unit, group_of, units_done,
  needs_satisfied, group_satisfied, all_work_satisfied, is_accepted, gates_accepted, new_groups,
  new_machine, stage_contract, unit_at, dependencies_satisfied,
}
use contractplane.State.Kind.{event_type, event_kind}
use contractplane.State.Validate.{
  find_evidence, evidence_contract, validate_unit, validate_in_stage, validate_running,
  validate_created, validate,
}
use contractplane.State.Apply.{apply_unit, put_group, put_unit, group_item, map_values, apply}
use contractplane.State.Step.{
  step, applied, recorded, validated, emit, replay_events, construct, check_first, replay,
  opened_execution, prepared, created_from, create,
}
use contractplane.State.Operations.{
  require_execution, contract_of, group_at, satisfied_at, unit_of, require_unit,
  request_authorization_or_ready, open_singleton, materialize, materialize_all,
  materialize_singletons, unlock_or_finish, complete_unit,
}
use contractplane.State.Methods.{
  start, register_unit, seal_stage, fail_execution, authorize_unit, start_unit, claim_unit,
  fail_unit, settle_evidence, record_evidence, approve_unit, skip_unit, cancel, perform,
}
use contractplane.State.Sessions.{turn, session}
use contractplane.Action.{pure, lift, gets, ask, ◌>>=◌}
use contractplane.Samples.Codec.{
  write_text, write_num, mark_of, act, push_char, top, read_on, write,
}
use contractplane.Prelude.{◌≡◌, refl, ◌&&◌, true, none, some}
use contractplane.Json.{end}
use contractplane.Errors.{ok, raise, ledger_error, does_not_exist}
use contractplane.Ledger.Appending.{IsClosed}
use contractplane.State.{succeeded, ExecutionStatus}
use contractplane.State.Kind.{unit_started, execution_succeeded}
use contractplane.State.Starts.{starts_of}
use contractplane.Samples.Codec.{library}
use contractplane.Samples.Plans.{
  code_pack, review_stage, sample, opening, created_machine, ending, failing, cancelling,
  two_stages, retrying, retrying_events, collect, review, review_ref, collect_ref, reviewed,
  collected, cancelled_unit, review_group, collect_group, fine, ready_unit, ready_machine,
  running_machine, done_machine, started_payload, second_event, other_first_event,
}

pub record Outcomes : Type 0 where
  pub created_sample : (create sample none).0 ≡ ok created_machine
  pub ending_sample : ending.machine.status ≡ succeeded
  pub failing_sample : failing.machine.status ≡ ExecutionStatus.failed
  pub cancelling_sample : cancelling.machine.status ≡ ExecutionStatus.cancelled
  pub collect_known : stage_contract two_stages "collect" ≡ ok collect
  pub review_known : stage_contract two_stages "review" ≡ ok review
  pub events_read : read sample.platform sample.execution_id retrying.ledger ≡ ok retrying_events
  pub two_starts : starts_of review_ref retrying_events ≡ 2
  pub reviewed_found : find_unit ending.machine review_ref ≡ some reviewed
  pub collected_found : find_unit ending.machine collect_ref ≡ some collected
  pub cancelled_found : find_unit cancelling.machine collect_ref ≡ some cancelled_unit
  pub review_group_found : Dict.get ending.machine.stage_groups "review" ≡ some review_group
  pub collect_group_found : Dict.get ending.machine.stage_groups "collect" ≡ some collect_group
  pub receipt_found : Dict.get reviewed.evidence "report" ≡ some fine
  pub unit_started_step :
      step sample unit_started started_payload ready_machine ≡ ok running_machine
  pub unit_started_valid :
      validate library two_stages unit_started started_payload ready_machine ≡ ok tt
  pub ready_found : find_unit ready_machine collect_ref ≡ some ready_unit
  pub success_step : step sample execution_succeeded end done_machine ≡ ok ending.machine
  pub done_found : Dict.get done_machine.stage_groups "collect" ≡ some collect_group
  pub append_sample :
      (append library "run-1" "execution.started" end opening.ledger).0 ≡ ok second_event
  pub create_sample : (create_execution library "run-2" end opening.ledger).0 ≡ ok other_first_event
  pub append_refused :
      (append library "ghost" "execution.started" end opening.ledger).0
      ≡ raise (ledger_error does_not_exist)
  pub closed_opening : IsClosed opening.ledger
  pub collect_finished : (collect_group.sealed && units_done collect_group) ≡ true
  pub compiled_review : compile_stage code_pack review_stage ≡ ok review

pub outcomes : Outcomes
unfolding compile_stage evidence_of policy_for role_of is_space is_blank has_control Dict.get
    Dict.put Dict.index_onto check_event loaded_or event_json settle opened before_opening
    write_event decode_line decode read_all read validate_append_args append_locked
    append_under_lock create_execution append has_execution compiled_stage_to_dict wave_to_dict
    plan_document without_digest digest metadata_to_dict binding_to_dict capability_to_dict
    role_to_dict evidence_to_dict policy_to_dict fanout_to_dict stage_to_dict flow_to_dict
    entrypoint_to_dict pack_to_dict make_ref ref_from_dict ref_from_payload stage_id_of find_unit
    group_of units_done needs_satisfied group_satisfied all_work_satisfied is_accepted
    gates_accepted new_groups new_machine stage_contract unit_at dependencies_satisfied event_type
    event_kind find_evidence evidence_contract validate_unit validate_in_stage validate_running
    validate_created validate apply_unit put_group put_unit group_item map_values apply step applied
    recorded validated emit replay_events construct check_first replay opened_execution prepared
    created_from create require_execution contract_of group_at satisfied_at unit_of require_unit
    request_authorization_or_ready open_singleton materialize materialize_all materialize_singletons
    unlock_or_finish complete_unit start register_unit seal_stage fail_execution authorize_unit
    start_unit claim_unit fail_unit settle_evidence record_evidence approve_unit skip_unit cancel
    perform turn session pure lift gets ask ◌>>=◌ write_text write_num mark_of act push_char top
    read_on write starts_of
outcomes = record {
  created_sample = refl;
  ending_sample = refl;
  events_read = refl;
  two_starts = refl;
  failing_sample = refl;
  cancelling_sample = refl;
  collect_known = refl;
  review_known = refl;
  reviewed_found = refl;
  collected_found = refl;
  cancelled_found = refl;
  review_group_found = refl;
  collect_group_found = refl;
  receipt_found = refl;
  unit_started_step = refl;
  unit_started_valid = refl;
  ready_found = refl;
  success_step = refl;
  done_found = refl;
  append_sample = refl;
  create_sample = refl;
  append_refused = refl;
  closed_opening = refl;
  collect_finished = refl;
  compiled_review = refl;
}
