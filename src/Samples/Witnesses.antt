-- ===== src/Samples/Witnesses.antt =====
-- The guarantees at the sample sessions.
use contractplane.Compiler.Unknown.{topological_waves-unknown}
use contractplane.Cli.Exits.{main-compile, main-validate, IsAccepted}
use contractplane.Cli.{inspect, compile, Exit, exit_code, main, load_domain_pack}
use contractplane.Compiler.Inspect.{inspect_pack}
use contractplane.Prelude.Dict
use contractplane.Prelude.{
  ◌⊎◌, String, map, if◌then◌else◌, Member, ◌≢◌, contains, ◌≤◌, ◌<◌, ◌≡◌, refl, ap, true, false,
  ◌&&◌, none, some, List, [], ◌∷◌, all, any, is_empty,
}
use contractplane.Json.{Fields, str, end}
use contractplane.Errors.{
  compile_error, unknown_need, does_not_exist, ledger_error, ok, raise, no_rounds_left, Exception,
}
use contractplane.Models.{Evidence, Stage, DomainPack}
use contractplane.Plan.{ExecutionPlan, CompiledStage, stages}
use contractplane.Compiler.Plans.{are_numbered, are_behind, compile_plan-ordered}
use contractplane.State.Unblocked.{is_done_at, dependencies_satisfied-some}
use contractplane.Ledger.{Event, is_of, next_event, read_all, create_execution, append}
use contractplane.Ledger.Appending.{Appended, append-Appended, create_execution-Appended}
use contractplane.Ledger.Raising.{read_all-append_raised}
use contractplane.State.{
  dependencies_satisfied, UnitStatus, UnitRef, WorkUnitState, StageGroupState, Machine, is_failed,
  find_unit, units_done, needs_satisfied, all_work_satisfied, gates_accepted,
}
use contractplane.State.Kind.{execution_started, execution_succeeded, unit_started}
use contractplane.State.Validate.{evidence_contract, receipt_valid}
use contractplane.State.Apply.{apply}
use contractplane.State.Step.{emit, replay}
use contractplane.State.Methods.{cancel_request, perform}
use contractplane.State.Emission.{Outcome, emit-Outcome}
use contractplane.State.Progress.{apply-total}
use contractplane.State.Sessions.{AllForeign}
use contractplane.State.Status.{is_live, is_closed_unit}
use contractplane.State.Order.{is_default_key}
use contractplane.State.Transitions.{UnitMoved, step_moves}
use contractplane.State.Guarantees.{
  session_replays, replay_gates, replay_receipts, replay_attempts, replay_started, replay_needs,
  replay_sealed, replay_single, replay_success, replay_failure, replay_cancellation, perform-ended,
  step_keeps_finished,
}
use contractplane.Samples.Codec.{library, library-IsCodec}
use contractplane.Models.{evidence_map}
use contractplane.State.Obligations.{compile_stage-evidence_contract}
use contractplane.Compiler.{ids_of, topological_waves, compile_plan}
use contractplane.Compiler.Reference.{reference_waves}
use contractplane.Compiler.Agrees.{topological_waves-eq-reference_waves}
use contractplane.Compiler.Waves.{IsSchedule, topological_waves-IsSchedule}
use contractplane.Compiler.Cycles.{IsBlocked, topological_waves-IsBlocked, topological_waves-total}
use contractplane.Compiler.Rounds.{topological_waves-ends}
use contractplane.Models.Render.{pack_to_dict}
use contractplane.Loader.Parse.{
  kind_of, side_effect_of, evidence_kind_of, approval_of, mode_of, parse,
}
use contractplane.Loader.Queue.{cycle_nodes}
use contractplane.Loader.RoundTrip.{parse-pack_to_dict}
use contractplane.Loader.Bound.{cycle_nodes-ends}
use contractplane.Loader.Accepted.{cycle_nodes-topological_waves}
use contractplane.Loader.Compiles.{semantic_issues-inspect_pack, parse_domain_pack-compile_plan}
use contractplane.Schema.Enumerations.{is_ok, enum_at, enumerations-agree}
use contractplane.Samples.Packs.{
  lonely_flow, check_surroundings, check_exit, check_plan, check_flow, check_waves, looping_flow,
  check_pack, check_document, rank, check_flow-Descends,
}
use contractplane.State.Starts.{starts_of, attempts_at}
use contractplane.Samples.Loading.{loadings}
use contractplane.Samples.Plans.{
  code_pack, review_stage, sample, opening, created_machine, whole_run, failing_run, cancelling_run,
  retrying_run, retrying, retrying_events, ending, failing, cancelling, two_stages, collect, review,
  review_ref, collect_ref, reviewed, collected, cancelled_unit, review_group, collect_group, fine,
  ready_unit, ready_machine, running_machine, done_machine, started_payload, second_event,
  other_first_event,
}
use contractplane.Samples.Runs.{outcomes}

whole_run-AllForeign : AllForeign "run-1" whole_run
whole_run-AllForeign = (tt, (tt, (refl, (tt, (tt, (tt, (tt, (tt, (tt, (refl, (tt, tt)))))))))))

whole_run_replays : replay sample ending.ledger ≡ ok ending.machine
whole_run_replays =
    session_replays sample library-IsCodec none created_machine whole_run tt outcomes.created_sample
      whole_run-AllForeign

retrying_replays : replay sample retrying.ledger ≡ ok retrying.machine
retrying_replays =
    session_replays sample library-IsCodec none created_machine retrying_run tt
      outcomes.created_sample (tt, (tt, (tt, (tt, (tt, (tt, (tt, (tt, (tt, tt)))))))))

failing_replays : replay sample failing.ledger ≡ ok failing.machine
failing_replays =
    session_replays sample library-IsCodec none created_machine failing_run tt
      outcomes.created_sample (tt, (tt, (tt, tt)))

cancelling_replays : replay sample cancelling.ledger ≡ ok cancelling.machine
cancelling_replays =
    session_replays sample library-IsCodec none created_machine cancelling_run tt
      outcomes.created_sample (tt, (tt, tt))

session_replays_example : replay sample ending.ledger ≡ ok ending.machine
session_replays_example =
    session_replays sample library-IsCodec none created_machine whole_run tt outcomes.created_sample
      whole_run-AllForeign

replay_gates_example : gates_accepted review reviewed ≡ true
replay_gates_example =
    replay_gates sample ending.ledger ending.machine whole_run_replays review_ref review reviewed
      outcomes.review_known outcomes.reviewed_found refl

replay_receipts_example :
    (e : Evidence) × (evidence_contract review (str "report") ≡ ok e)
    × (receipt_valid library e.schema fine.payload ≡ true)
replay_receipts_example =
    replay_receipts sample ending.ledger ending.machine whole_run_replays review_ref review reviewed
      outcomes.review_known outcomes.reviewed_found "report" fine outcomes.receipt_found refl

replay_attempts_example :
    (starts_of review_ref retrying_events ≤ 2)
    × (attempts_at retrying.machine review_ref ≡ starts_of review_ref retrying_events)
replay_attempts_example =
    replay_attempts sample retrying.ledger retrying.machine retrying_replays retrying_events
      review_ref review outcomes.events_read outcomes.review_known

replay_started_example : 0 < collected.attempts
replay_started_example =
    replay_started sample ending.ledger ending.machine whole_run_replays collect_ref collect
      collected outcomes.collect_known outcomes.collected_found refl

replay_needs_example : needs_satisfied ending.machine ("collect" ∷ []) ≡ ok true
replay_needs_example =
    replay_needs sample ending.ledger ending.machine whole_run_replays "review" review review_group
      outcomes.review_known outcomes.review_group_found refl

replay_sealed_example : is_empty review_group.units ≡ false
replay_sealed_example =
    replay_sealed sample ending.ledger ending.machine whole_run_replays "review" review review_group
      outcomes.review_known outcomes.review_group_found refl

replay_single_example : all is_default_key (Dict.keys collect_group.units) ≡ true
replay_single_example =
    replay_single sample ending.ledger ending.machine whole_run_replays "collect" collect
      collect_group outcomes.collect_known outcomes.collect_group_found refl

replay_success_example : all_work_satisfied ending.machine ≡ true
replay_success_example =
    replay_success sample ending.ledger ending.machine whole_run_replays outcomes.ending_sample

replay_failure_example :
    (ref : UnitRef) × (unit : WorkUnitState) × (find_unit failing.machine ref ≡ some unit)
    × (is_failed unit.status ≡ true)
replay_failure_example =
    replay_failure sample failing.ledger failing.machine failing_replays outcomes.failing_sample

replay_cancellation_example : is_closed_unit UnitStatus.cancelled ≡ true
replay_cancellation_example =
    replay_cancellation sample cancelling.ledger cancelling.machine cancelling_replays
      outcomes.cancelling_sample collect_ref cancelled_unit outcomes.cancelled_found

perform-ended_example : (perform sample (cancel_request "too late") ending).1 ≡ ending
perform-ended_example =
    perform-ended sample ending.ledger ending (cancel_request "too late") whole_run_replays
      (ap is_live outcomes.ending_sample)

step_moves_example : UnitMoved running_machine collect_ref ready_unit
step_moves_example =
    step_moves sample unit_started started_payload ready_machine running_machine collect_ref
      ready_unit outcomes.unit_started_step outcomes.ready_found

step_keeps_finished_example :
    (g : StageGroupState) × (Dict.get ending.machine.stage_groups "collect" ≡ some g)
    × ((g.sealed && units_done g) ≡ true)
step_keeps_finished_example =
    step_keeps_finished sample execution_succeeded end done_machine ending.machine "collect"
      collect_group outcomes.success_step outcomes.done_found outcomes.collect_finished

apply-total_example :
    (after : Machine) × (apply two_stages unit_started started_payload ready_machine ≡ ok after)
apply-total_example =
    apply-total sample unit_started started_payload ready_machine outcomes.unit_started_valid

emit-Outcome_example :
    let r = emit sample execution_started end opening in
    Outcome sample execution_started end opening r.0 r.1
emit-Outcome_example =
    emit-Outcome sample library-IsCodec execution_started end opening outcomes.closed_opening

append-Appended_example :
    let after = (append library "run-1" "execution.started" end opening.ledger).1 in
    (old : List Event) × Appended library opening.ledger old second_event after
    × (any (is_of "run-1") old ≡ true)
    × (second_event ≡ next_event old "run-1" "execution.started" end)
append-Appended_example =
    append-Appended library library-IsCodec "run-1" "execution.started" end opening.ledger
      second_event outcomes.closed_opening outcomes.append_sample

create_execution-Appended_example :
    let after = (create_execution library "run-2" end opening.ledger).1 in
    (old : List Event) × Appended library opening.ledger old other_first_event after
    × (any (is_of "run-2") old ≡ false)
    × (other_first_event ≡ next_event old "run-2" "execution.created" end)
create_execution-Appended_example =
    create_execution-Appended library library-IsCodec "run-2" "execution.created" end opening.ledger
      other_first_event outcomes.closed_opening outcomes.create_sample

read_all-append_raised_example :
    read_all library (append library "ghost" "execution.started" end opening.ledger).1
    ≡ read_all library opening.ledger
read_all-append_raised_example =
    read_all-append_raised library "ghost" "execution.started" end opening.ledger
      (ledger_error does_not_exist) outcomes.append_refused

compile_stage-evidence_contract_example :
    (e : Evidence) × (evidence_contract review (str "report") ≡ ok e)
    × (Dict.get (evidence_map code_pack) "report" ≡ some e)
compile_stage-evidence_contract_example =
    compile_stage-evidence_contract code_pack review_stage review "report" outcomes.compiled_review
      refl

parse_domain_pack-compile_plan_example :
    (plan : ExecutionPlan) × (compile_plan check_pack (some "check") none ≡ ok plan)
    × (plan.flow ≡ "check")
parse_domain_pack-compile_plan_example =
    parse_domain_pack-compile_plan library check_document check_pack "check" loadings.accepted refl
      refl

topological_waves-eq-reference_waves_example :
    topological_waves check_flow ≡ reference_waves check_flow
topological_waves-eq-reference_waves_example =
    topological_waves-eq-reference_waves check_flow refl refl

topological_waves-IsSchedule_example : IsSchedule check_flow.stages check_waves
topological_waves-IsSchedule_example =
    topological_waves-IsSchedule check_flow check_waves refl loadings.waves_of_check

topological_waves-total_example :
    (waves : List (List Stage)) × (topological_waves check_flow ≡ ok waves)
topological_waves-total_example =
    topological_waves-total check_flow rank refl refl check_flow-Descends

topological_waves-IsBlocked_example : IsBlocked looping_flow.stages ("review" ∷ "collect" ∷ [])
topological_waves-IsBlocked_example =
    topological_waves-IsBlocked looping_flow "check" ("review" ∷ "collect" ∷ []) refl refl
      loadings.looping

topological_waves-ends_example : topological_waves looping_flow ≢ raise no_rounds_left
topological_waves-ends_example = topological_waves-ends looping_flow

cycle_nodes-topological_waves_example :
    (waves : List (List Stage)) × (topological_waves check_flow ≡ ok waves)
cycle_nodes-topological_waves_example =
    cycle_nodes-topological_waves check_flow refl refl loadings.no_cycle

cycle_nodes-ends_example : cycle_nodes looping_flow ≢ raise no_rounds_left
cycle_nodes-ends_example = cycle_nodes-ends looping_flow

parse-pack_to_dict_example : parse (pack_to_dict check_pack) ≡ ok check_pack
parse-pack_to_dict_example = parse-pack_to_dict check_pack

enumerations-agree_example :
    (is_ok (kind_of "agent") ≡ contains (enum_at "capability" "kind") "agent")
    × (is_ok (side_effect_of "agent") ≡ contains (enum_at "capability" "sideEffects") "agent")
    × (is_ok (evidence_kind_of "agent") ≡ contains (enum_at "evidence" "kind") "agent")
    × (is_ok (approval_of "agent") ≡ contains (enum_at "policy" "humanApproval") "agent")
    × (is_ok (mode_of "agent") ≡ contains (enum_at "fanout" "mode") "agent")
enumerations-agree_example = enumerations-agree "agent"

compile_plan-ordered_example :
    (are_numbered 0 check_plan.waves ≡ true) × (are_behind [] check_plan.waves ≡ true)
compile_plan-ordered_example =
    compile_plan-ordered check_pack (some "check") none check_plan refl loadings.planned

dependencies_satisfied-some_example :
    (stage : CompiledStage) × Member stage (stages two_stages)
    × (is_done_at created_machine stage.id ≡ false)
    × (dependencies_satisfied two_stages created_machine stage.id ≡ ok true)
dependencies_satisfied-some_example =
    dependencies_satisfied-some two_stages created_machine refl refl loadings.open_at_first

semantic_issues-inspect_pack_example :
    (description : Fields) × (inspect_pack check_pack ≡ ok description)
semantic_issues-inspect_pack_example =
    semantic_issues-inspect_pack library check_pack loadings.no_issues

main-compile_example :
    (exit : Exit) × (main library check_surroundings (compile "pack.yaml" (some "check") none none)
      ≡ ok exit)
    × (exit_code exit
        ≡ (if contains (map (λ flow. flow.id) check_pack.flows) "check" then 0 else 2))
main-compile_example =
    main-compile library check_surroundings "pack.yaml" "check" "pack" check_document check_pack
      refl refl loadings.accepted refl

main-validate_example :
    ((exit_code check_exit ≡ 0)
      × ((pack : DomainPack) × IsAccepted library check_surroundings "pack.yaml" pack)
      × (described : Exit) × (main library check_surroundings (inspect "pack.yaml") ≡ ok described)
      × (exit_code described ≡ 0))
    ⊎ ((exit_code check_exit ≡ 2)
        × ((x : Exception) × (load_domain_pack library check_surroundings "pack.yaml" ≡ raise x))
        × (main library check_surroundings (inspect "pack.yaml") ≡ ok check_exit))
main-validate_example =
    main-validate library check_surroundings "pack.yaml" check_exit loadings.validated

topological_waves-unknown_example :
    (stage : Stage) × (need : String) × Member stage lonely_flow.stages
    × (contains stage.needs need ≡ true)
    × (contains (ids_of lonely_flow.stages) need ≡ false)
    × (topological_waves lonely_flow
        ≡ raise (compile_error (unknown_need lonely_flow.id stage.id need)))
topological_waves-unknown_example = topological_waves-unknown lonely_flow refl
