-- ===== src/Schema.antt =====
-- contractplane/schema.py: the JSON Schema of a pack. The fields stand in the order of the source:
-- the program looks them up by key, or writes them sorted by key.
pub mod Enumerations
use contractplane.Prelude.{ℕ, String, Bool, true, false, List, [], ◌∷◌}
use contractplane.Json.{bool, num, str, obj, Fields, end, field}
use contractplane.Models.Render.{text_array}

-- API_VERSION and KIND of contractplane/models.py
abbrev api_version : String
api_version = "contractplane.dev/v1alpha1"

abbrev kind : String
kind = "DomainPack"

abbrev schema_id : String
schema_id = "https://contractplane.dev/spec/v1alpha1/domainpack.schema.json"

abbrev id_pattern : String
id_pattern = "^[a-z][a-z0-9-]{1,62}$"

-- {**first, ...}
abbrev followed_by : Fields → Fields → Fields
followed_by end rest = rest
followed_by (field k v fs) rest = field k v (followed_by fs rest)

abbrev string_list : (min_items : ℕ) → (unique : Bool) → Fields
string_list min_items unique = field "type" (str "array") (
    field "items" (obj (field "type" (str "string") (field "minLength" (num 1) end))) (
      field "minItems" (num min_items)
        (elim unique [ true ↦ field "uniqueItems" (bool true) end | false ↦ end ])))

abbrev id_schema : Fields
id_schema = field "type" (str "string") (field "pattern" (str id_pattern) end)

abbrev object_schema : (properties : Fields) → (required : List String) → Fields
object_schema properties required = field "type" (str "object") (
    field "additionalProperties" (bool false)
      (field "properties" (obj properties) (field "required" (text_array required) end)))

abbrev metadata_schema : Fields
metadata_schema =
    object_schema
      (field "name" (obj id_schema) (
        field "version" (obj (field "type" (str "string") (field "minLength" (num 1) end))) (
          field "description" (obj (field "type" (str "string") (field "minLength" (num 1) end)))
            end)))
      ("name" ∷ "version" ∷ "description" ∷ [])

abbrev binding_schema : Fields
binding_schema =
    object_schema
      (field "adapter"
        (obj (
          followed_by id_schema (
            field "description" (str "Adapter family name; v0.1 preserves but never invokes it.")
              end)))
        (field "target"
          (obj (
            field "type" (str "string") (
              field "minLength" (num 1) (
                field "description"
                  (str "Opaque adapter target, never interpreted as a shell command.") end))))
          (field "config"
            (obj (
              field "type" (str "object") (
                field "description"
                  (str "Opaque adapter configuration preserved in compiled plans.") end)))
            end)))
      ("adapter" ∷ "target" ∷ [])

abbrev capability_schema : Fields
capability_schema =
    object_schema
      (field "id" (obj id_schema) (
        field "kind"
          (obj (field "enum" (text_array ("deterministic" ∷ "agent" ∷ "integration" ∷ [])) end))
          (field "description" (obj (field "type" (str "string") (field "minLength" (num 1) end))) (
            field "sideEffects"
              (obj (field "enum" (text_array ("none" ∷ "local" ∷ "external" ∷ [])) end))
              (field "inputSchema" (obj (field "type" (str "object") end)) (
                field "outputSchema" (obj (field "type" (str "object") end)) (
                  field "permissions"
                    (obj (
                      followed_by (string_list 0 true) (
                        field "description"
                          (str "Declared capabilities an adapter must authorize before invocation.")
                          end)))
                    (field "binding" (obj (field "$ref" (str "#/$defs/capabilityBinding") end))
                      end))))))))
      ("id" ∷ "kind" ∷ "description" ∷ "sideEffects" ∷ "inputSchema" ∷ "outputSchema"
        ∷ "permissions" ∷ [])

abbrev role_schema : Fields
role_schema =
    object_schema
      (field "id" (obj id_schema) (
        field "description" (obj (field "type" (str "string") (field "minLength" (num 1) end))) (
          field "capabilities" (obj (string_list 1 true)) (
            field "instructions" (obj (field "type" (str "string") (field "minLength" (num 1) end)))
              end))))
      ("id" ∷ "description" ∷ "capabilities" ∷ "instructions" ∷ [])

abbrev evidence_schema : Fields
evidence_schema =
    object_schema
      (field "id" (obj id_schema) (
        field "kind"
          (obj (
            field "enum"
              (text_array
                ("json-schema" ∷ "artifact" ∷ "semantic-review" ∷ "external-receipt" ∷ []))
              end))
          (field "description" (obj (field "type" (str "string") (field "minLength" (num 1) end)))
            (field "schema" (obj (field "type" (str "object") end)) end))))
      ("id" ∷ "kind" ∷ "description" ∷ [])

abbrev policy_schema : Fields
policy_schema =
    object_schema
      (field "id" (obj id_schema) (
        field "description" (obj (field "type" (str "string") (field "minLength" (num 1) end))) (
          field "evidenceRequired" (obj (field "type" (str "boolean") end)) (
            field "humanApproval" (obj (field "enum" (text_array ("never" ∷ "always" ∷ [])) end)) (
              field "maxAttempts"
                (obj (
                  field "type" (str "integer")
                    (field "minimum" (num 1) (field "maximum" (num 100) end))))
                end)))))
      ("id" ∷ "description" ∷ "evidenceRequired" ∷ "humanApproval" ∷ "maxAttempts" ∷ [])

abbrev fanout_schema : Fields
fanout_schema =
    object_schema
      (field "mode" (obj (field "enum" (text_array ("singleton" ∷ "each" ∷ [])) end)) (
        field "over"
          (obj (
            field "type" (str "string") (
              field "minLength" (num 1) (
                field "description"
                  (str
                    "Opaque fanout selector preserved by v0.1. Adapters or a future PlanBuilder expand it into UnitRef values.")
                  end))))
          end))
      ("mode" ∷ [])

abbrev stage_schema : Fields
stage_schema =
    object_schema
      (field "id" (obj id_schema) (
        field "description" (obj (field "type" (str "string") (field "minLength" (num 1) end))) (
          field "capability" (obj id_schema) (
            field "role" (obj id_schema) (
              field "needs" (obj (string_list 0 true)) (
                field "fanout" (obj (field "$ref" (str "#/$defs/fanout") end)) (
                  field "requiresEvidence" (obj (string_list 0 true)) (
                    field "policy" (obj id_schema) (
                      field "produces" (obj (string_list 0 true)) (
                        field "when"
                          (obj (
                            field "type" (str "string") (
                              field "minLength" (num 1) (
                                field "description"
                                  (str
                                    "Declarative condition expression preserved but never evaluated by the v0.1 kernel.")
                                  end))))
                          end))))))))))
      ("id" ∷ "description" ∷ "capability" ∷ "needs" ∷ "fanout" ∷ "requiresEvidence" ∷ "produces"
        ∷ [])

abbrev flow_schema : Fields
flow_schema =
    object_schema
      (field "id" (obj id_schema) (
        field "description" (obj (field "type" (str "string") (field "minLength" (num 1) end))) (
          field "inputSchema" (obj (field "type" (str "object") end)) (
            field "stages"
              (obj (
                field "type" (str "array") (
                  field "items" (obj (field "$ref" (str "#/$defs/stage") end))
                    (field "minItems" (num 1) end))))
              end))))
      ("id" ∷ "description" ∷ "inputSchema" ∷ "stages" ∷ [])

abbrev entrypoint_schema : Fields
entrypoint_schema =
    object_schema
      (field "id" (obj id_schema) (
        field "description" (obj (field "type" (str "string") (field "minLength" (num 1) end))) (
          field "flow" (obj id_schema) (
            field "keywords" (obj (string_list 1 true))
              (field "examples" (obj (string_list 1 true)) end)))))
      ("id" ∷ "description" ∷ "flow" ∷ "keywords" ∷ "examples" ∷ [])

abbrev definitions : Fields
definitions = field "metadata" (obj metadata_schema) (
    field "capabilityBinding" (obj binding_schema) (
      field "capability" (obj capability_schema) (
        field "role" (obj role_schema) (
          field "evidence" (obj evidence_schema) (
            field "policy" (obj policy_schema) (
              field "fanout" (obj fanout_schema) (
                field "stage" (obj stage_schema) (
                  field "flow" (obj flow_schema)
                    (field "entryPoint" (obj entrypoint_schema) end)))))))))

-- domain_pack_schema()
unfoldable pub domain_pack_schema : Fields
domain_pack_schema = field "$schema" (str "https://json-schema.org/draft/2020-12/schema") (
    field "$id" (str schema_id) (
      field "title" (str "ContractPlane DomainPack v1alpha1") (
        field "description" (str "Portable contracts for evidence-gated agent workflows.") (
          field "type" (str "object") (
            field "additionalProperties" (bool false) (
              field "properties"
                (obj (
                  field "apiVersion" (obj (field "const" (str api_version) end)) (
                    field "kind" (obj (field "const" (str kind) end)) (
                      field "metadata" (obj (field "$ref" (str "#/$defs/metadata") end)) (
                        field "defaultPolicy" (obj id_schema) (
                          field "capabilities"
                            (obj (
                              field "type" (str "array") (
                                field "items" (obj (field "$ref" (str "#/$defs/capability") end))
                                  (field "minItems" (num 1) end))))
                            (field "roles"
                              (obj (
                                field "type" (str "array") (
                                  field "items" (obj (field "$ref" (str "#/$defs/role") end)) end)))
                              (field "evidence"
                                (obj (
                                  field "type" (str "array") (
                                    field "items" (obj (field "$ref" (str "#/$defs/evidence") end))
                                      (field "minItems" (num 1) end))))
                                (field "policies"
                                  (obj (
                                    field "type" (str "array") (
                                      field "items" (obj (field "$ref" (str "#/$defs/policy") end))
                                        (field "minItems" (num 1) end))))
                                  (field "flows"
                                    (obj (
                                      field "type" (str "array") (
                                        field "items" (obj (field "$ref" (str "#/$defs/flow") end))
                                          (field "minItems" (num 1) end))))
                                    (field "entrypoints"
                                      (obj (
                                        field "type" (str "array") (
                                          field "items"
                                            (obj (field "$ref" (str "#/$defs/entryPoint") end))
                                            (field "minItems" (num 1) end))))
                                      end)))))))))))
                (field "required"
                  (text_array (
                    "apiVersion" ∷ "kind" ∷ "metadata" ∷ "defaultPolicy" ∷ "capabilities" ∷ "roles"
                    ∷ "evidence" ∷ "policies" ∷ "flows" ∷ "entrypoints" ∷ []))
                  (field "$defs" (obj definitions) end))))))))
