-- ===== src/Models/Render.antt =====
-- The `to_dict` methods of contractplane/models.py, and the values of its enumerations. The fields
-- stand in key order (see Json).
use contractplane.Prelude.{String, List, map}
use contractplane.Json.{
  Json, bool, num, str, arr, obj, Fields, end, field, array, texts, optional_field,
}
use contractplane.Models.{
  CapabilityKind, deterministic, agent, integration, SideEffect, no_effect, local, external,
  EvidenceKind, json_schema, artifact, semantic_review, external_receipt, HumanApproval, never,
  always, FanoutMode, singleton, each, Metadata, CapabilityBinding, Capability, Role, Evidence,
  Policy, Fanout, Stage, Flow, EntryPoint, DomainPack,
}

abbrev pub kind_value : CapabilityKind → String
kind_value deterministic = "deterministic"
kind_value agent = "agent"
kind_value integration = "integration"

abbrev pub side_effect_value : SideEffect → String
side_effect_value no_effect = "none"
side_effect_value local = "local"
side_effect_value external = "external"

abbrev pub evidence_kind_value : EvidenceKind → String
evidence_kind_value json_schema = "json-schema"
evidence_kind_value artifact = "artifact"
evidence_kind_value semantic_review = "semantic-review"
evidence_kind_value external_receipt = "external-receipt"

abbrev pub approval_value : HumanApproval → String
approval_value never = "never"
approval_value always = "always"

abbrev pub mode_value : FanoutMode → String
mode_value singleton = "singleton"
mode_value each = "each"

abbrev pub text_array : List String → Json
text_array ts = arr (texts ts)

unfoldable pub metadata_to_dict : Metadata → Fields
metadata_to_dict m =
    field "description" (str m.description)
      (field "name" (str m.name) (field "version" (str m.version) end))

unfoldable pub binding_to_dict : CapabilityBinding → Fields
binding_to_dict b =
    field "adapter" (str b.adapter)
      (optional_field "config" obj b.config (field "target" (str b.target) end))

unfoldable pub capability_to_dict : Capability → Fields
unfolding binding_to_dict
capability_to_dict c =
    optional_field "binding" (λ b. obj (binding_to_dict b)) c.binding
      (field "description" (str c.description) (
        field "id" (str c.id) (
          field "inputSchema" (obj c.input_schema) (
            field "kind" (str (kind_value c.kind)) (
              field "outputSchema" (obj c.output_schema) (
                field "permissions" (text_array c.permissions)
                  (field "sideEffects" (str (side_effect_value c.side_effects)) end)))))))

unfoldable pub role_to_dict : Role → Fields
role_to_dict r = field "capabilities" (text_array r.capabilities) (
    field "description" (str r.description)
      (field "id" (str r.id) (field "instructions" (str r.instructions) end)))

unfoldable pub evidence_to_dict : Evidence → Fields
evidence_to_dict e = field "description" (str e.description) (
    field "id" (str e.id)
      (field "kind" (str (evidence_kind_value e.kind)) (optional_field "schema" obj e.schema end)))

unfoldable pub policy_to_dict : Policy → Fields
policy_to_dict p = field "description" (str p.description) (
    field "evidenceRequired" (bool p.evidence_required) (
      field "humanApproval" (str (approval_value p.human_approval))
        (field "id" (str p.id) (field "maxAttempts" (num p.max_attempts) end))))

unfoldable pub fanout_to_dict : Fanout → Fields
fanout_to_dict f = field "mode" (str (mode_value f.mode)) (optional_field "over" str f.over end)

unfoldable pub stage_to_dict : Stage → Fields
unfolding fanout_to_dict
stage_to_dict s = field "capability" (str s.capability) (
    field "description" (str s.description) (
      field "fanout" (obj (fanout_to_dict s.fanout)) (
        field "id" (str s.id) (
          field "needs" (text_array s.needs) (
            optional_field "policy" str s.policy (
              field "produces" (text_array s.produces) (
                field "requiresEvidence" (text_array s.requires_evidence)
                  (optional_field "role" str s.role (optional_field "when" str s.when end)))))))))

unfoldable pub flow_to_dict : Flow → Fields
unfolding stage_to_dict
flow_to_dict f = field "description" (str f.description) (
    field "id" (str f.id) (
      field "inputSchema" (obj f.input_schema)
        (field "stages" (arr (array (map (λ s. obj (stage_to_dict s)) f.stages))) end)))

unfoldable pub entrypoint_to_dict : EntryPoint → Fields
entrypoint_to_dict e = field "description" (str e.description) (
    field "examples" (text_array e.examples) (
      field "flow" (str e.flow)
        (field "id" (str e.id) (field "keywords" (text_array e.keywords) end))))

abbrev pub objects {ℓ} : {A : Type ℓ} → (A → Fields) → List A → Json
objects render items = arr (array (map (λ item. obj (render item)) items))

unfoldable pub pack_to_dict : DomainPack → Fields
unfolding metadata_to_dict capability_to_dict role_to_dict evidence_to_dict policy_to_dict
    flow_to_dict entrypoint_to_dict
pack_to_dict p = field "apiVersion" (str p.api_version) (
    field "capabilities" (objects capability_to_dict p.capabilities) (
      field "defaultPolicy" (str p.default_policy) (
        field "entrypoints" (objects entrypoint_to_dict p.entrypoints) (
          field "evidence" (objects evidence_to_dict p.evidence) (
            field "flows" (objects flow_to_dict p.flows) (
              field "kind" (str p.kind) (
                field "metadata" (obj (metadata_to_dict p.metadata)) (
                  field "policies" (objects policy_to_dict p.policies)
                    (field "roles" (objects role_to_dict p.roles) end)))))))))
