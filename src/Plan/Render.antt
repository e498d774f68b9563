-- ===== src/Plan/Render.antt =====
-- `to_dict` of the compiled plan, and its digest (contractplane/compiler.py). The fields stand in
-- key order (see Json).
use contractplane.Prelude.{String, map}
use contractplane.Json.{Json, num, str, obj, Fields, end, field, optional_field}
use contractplane.Models.Render.{
  kind_value, side_effect_value, text_array, objects, binding_to_dict, role_to_dict,
  evidence_to_dict, policy_to_dict, fanout_to_dict,
}
use contractplane.Plan.{CompiledStage, Wave, ExecutionPlan, stages}

abbrev pub plan_api_version : String
plan_api_version = "contractplane.dev/plan/v1alpha1"

abbrev pub plan_kind : String
plan_kind = "ExecutionPlan"

unfoldable pub compiled_stage_to_dict : CompiledStage → Fields
unfolding fanout_to_dict evidence_to_dict policy_to_dict role_to_dict binding_to_dict
compiled_stage_to_dict s =
    optional_field "binding" (λ b. obj (binding_to_dict b)) s.binding
      (field "capability" (str s.capability) (
        field "capabilityDescription" (str s.capability_description) (
          field "capabilityKind" (str (kind_value s.capability_kind)) (
            field "description" (str s.description) (
              field "evidenceContracts" (objects evidence_to_dict s.evidence_contracts) (
                field "fanout" (obj (fanout_to_dict s.fanout)) (
                  field "id" (str s.id)
                    (field "inputSchema" (obj s.input_schema) (after_input_schema s)))))))))
  where
    after_policy : CompiledStage → Fields
    after_policy s = field "produces" (text_array s.produces) (
        field "requiresEvidence" (text_array s.requires_evidence) (
          optional_field "role" str s.role (
            optional_field "roleContract" (λ r. obj (role_to_dict r)) s.role_contract
              (field "sideEffects" (str (side_effect_value s.side_effects))
                (optional_field "when" str s.when end)))))

    after_input_schema : CompiledStage → Fields
    after_input_schema s = field "needs" (text_array s.needs) (
        field "outputSchema" (obj s.output_schema) (
          field "permissions" (text_array s.permissions)
            (field "policy" (obj (policy_to_dict s.policy)) (after_policy s))))

unfoldable pub wave_to_dict : Wave → Fields
unfolding compiled_stage_to_dict
wave_to_dict w =
    field "index" (num w.index) (field "stages" (objects compiled_stage_to_dict w.stages) end)

-- The document of a plan, with what `digested` puts behind its kind.
unfoldable pub plan_document : (digested : Fields → Fields) → ExecutionPlan → Fields
unfolding wave_to_dict
plan_document digested p = field "apiVersion" (str plan_api_version) (
    field "domain"
      (obj (field "name" (str p.domain_name) (field "version" (str p.domain_version) end)))
      (optional_field "entrypoint" str p.entrypoint (
        field "flow" (str p.flow) (
          field "inputSchema" (obj p.input_schema) (
            field "kind" (str plan_kind) (
              digested (
                field "stageOrder" (text_array (map (λ stage. stage.id) (stages p)))
                  (field "waves" (objects wave_to_dict p.waves) end))))))))

unfoldable pub without_digest : ExecutionPlan → Fields
unfolding plan_document
without_digest p = plan_document (λ fields. fields) p

-- `json.dumps` of a document into canonical bytes, and `hashlib.sha256(...).hexdigest()` of these.
module _ (canonical_bytes : Json → String) (sha256_hex : String → String) where
  unfoldable pub digest : ExecutionPlan → String
  digest p = sha256_hex (canonical_bytes (obj (without_digest p)))

  unfoldable pub plan_to_dict : ExecutionPlan → Fields
  unfolding digest plan_document
  plan_to_dict p = plan_document (field "planDigest" (str (digest p))) p
