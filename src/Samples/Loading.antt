-- ===== src/Samples/Loading.antt =====
-- What loading and compiling make of the sample pack.
use contractplane.Cli.{validate, main, dispatch, load_domain_pack, raw_document, source_text}
use contractplane.Prelude.{some, none, any, not, true, is_space, is_blank, has_control}
use contractplane.Prelude.Dict
use contractplane.Plan.Compile.{role_of, evidence_of, compile_stage}
use contractplane.Models.{policy_for}
use contractplane.Models.Render.{
  metadata_to_dict, binding_to_dict, capability_to_dict, role_to_dict, evidence_to_dict,
  policy_to_dict, fanout_to_dict, stage_to_dict, flow_to_dict, entrypoint_to_dict, pack_to_dict,
}
use contractplane.Compiler.{
  table_onto, order_onto, link_needs, link_stages, free_among, keyed, insert_keyed, sort_keyed,
  sorted_by, items_at, lower_all, remove, release, check_ready, waves_from, topological_waves,
  flow_of_entrypoint, only_flow, resolve_given, resolve_flow, compile_stages, compile_waves,
  compile_plan,
}
use contractplane.Loader.{structural_issues, parse_domain_pack}
use contractplane.Loader.Parse.{
  read_each, kind_of, side_effect_of, evidence_kind_of, approval_of, mode_of, parse_metadata,
  parse_binding, parse_capability, parse_role, parse_evidence, parse_policy, parse_fanout,
  parse_stage, parse_flow, parse_entrypoint, parse,
}
use contractplane.Loader.Queue.{count_needs, count_all, lower_and_queue, visit, cycle_nodes}
use contractplane.Loader.Issues.{
  each_item, joined, duplicates_from, schema_issue, is_forbidden, text_length, unknown_ids,
  capability_issues, role_issues, evidence_issues, need_issues, stage_issues, flow_issues,
  all_flow_issues, entrypoint_issues, semantic_issues,
}
use contractplane.Schema.{domain_pack_schema}
use contractplane.Prelude.{◌≡◌, refl, [], ◌∷◌}
use contractplane.Errors.{ok, raise, compile_error, cycle_involving}
use contractplane.Plan.{stages}
use contractplane.State.Unblocked.{is_done_at}
use contractplane.Samples.Plans.{two_stages, created_machine}
use contractplane.Samples.Codec.{library}
use contractplane.Samples.Packs.{
  check_plan, check_flow, check_waves, looping_flow, check_pack, check_document, check_surroundings,
  check_exit,
}

pub record Loadings : Type 0 where
  pub waves_of_check : topological_waves check_flow ≡ ok check_waves
  pub looping :
      topological_waves looping_flow
      ≡ raise (compile_error (cycle_involving "check" ("review" ∷ "collect" ∷ [])))
  pub no_cycle : cycle_nodes check_flow ≡ ok []
  pub accepted : parse_domain_pack library check_document ≡ ok check_pack
  pub planned : compile_plan check_pack (some "check") none ≡ ok check_plan
  pub open_at_first :
      any (λ stage. not (is_done_at created_machine stage.id)) (stages two_stages) ≡ true
  pub no_issues : semantic_issues library check_pack ≡ ok []
  pub validated : main library check_surroundings (validate "pack.yaml") ≡ ok check_exit

pub loadings : Loadings
unfolding is_space is_blank has_control Dict.get Dict.put Dict.index_onto role_of evidence_of
    compile_stage policy_for metadata_to_dict binding_to_dict capability_to_dict role_to_dict
    evidence_to_dict policy_to_dict fanout_to_dict stage_to_dict flow_to_dict entrypoint_to_dict
    pack_to_dict table_onto order_onto link_needs link_stages free_among keyed insert_keyed
    sort_keyed sorted_by items_at lower_all remove release check_ready waves_from topological_waves
    flow_of_entrypoint only_flow resolve_given resolve_flow compile_stages compile_waves
    compile_plan structural_issues parse_domain_pack read_each kind_of side_effect_of
    evidence_kind_of approval_of mode_of parse_metadata parse_binding parse_capability parse_role
    parse_evidence parse_policy parse_fanout parse_stage parse_flow parse_entrypoint parse
    count_needs count_all lower_and_queue visit cycle_nodes each_item joined duplicates_from
    schema_issue is_forbidden text_length unknown_ids capability_issues role_issues evidence_issues
    need_issues stage_issues flow_issues all_flow_issues entrypoint_issues semantic_issues
    domain_pack_schema raw_document source_text load_domain_pack dispatch main
loadings = record {
  waves_of_check = refl;
  looping = refl;
  no_cycle = refl;
  accepted = refl;
  planned = refl;
  open_at_first = refl;
  no_issues = refl;
  validated = refl;
}
