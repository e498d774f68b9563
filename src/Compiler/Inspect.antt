-- ===== src/Compiler/Inspect.antt =====
-- contractplane/compiler.py: `inspect_pack`.
use contractplane.Prelude.{String, List, [], ◌∷◌, ◌++◌, map, length, contains}
use contractplane.Json.{bool, num, str, arr, obj, Fields, end, field, array}
use contractplane.Errors.{Result, ok, ◌>>=◌}
use contractplane.Models.{Capability, Flow, DomainPack}
use contractplane.Models.Render.{
  kind_value, side_effect_value, text_array, metadata_to_dict, entrypoint_to_dict, objects,
}
use contractplane.Compiler.{ids_of, topological_waves}

-- {stage.capability for flow in flows for stage in flow.stages}
unfoldable pub used_capabilities : List Flow → List String
used_capabilities [] = []
used_capabilities (flow ∷ flows) =
    map (λ stage. stage.capability) flow.stages ++ used_capabilities flows

unfoldable pub capability_line : List String → Capability → Fields
capability_line used capability = field "id" (str capability.id) (
    field "kind" (str (kind_value capability.kind)) (
      field "sideEffects" (str (side_effect_value capability.side_effects))
        (field "used" (bool (contains used capability.id)) end)))

unfoldable pub flow_line : Flow → Result Fields
flow_line flow = do
  waves ← topological_waves flow
  ok (
      field "id" (str flow.id) (
        field "stageCount" (num (length flow.stages))
          (field "waves" (arr (array (map (λ wave. text_array (ids_of wave)) waves))) end)))

unfoldable pub flow_lines : List Flow → Result (List Fields)
flow_lines [] = ok []
flow_lines (flow ∷ flows) = do line ← flow_line flow; lines ← flow_lines flows; ok (line ∷ lines)

unfoldable pub counts : DomainPack → Fields
counts pack = field "capabilities" (num (length pack.capabilities)) (
    field "entrypoints" (num (length pack.entrypoints)) (
      field "evidence" (num (length pack.evidence)) (
        field "flows" (num (length pack.flows)) (
          field "policies" (num (length pack.policies))
            (field "roles" (num (length pack.roles)) end)))))

unfoldable pub inspect_pack : DomainPack → Result Fields
inspect_pack pack = do
  flows ← flow_lines pack.flows
  let used = used_capabilities pack.flows
  ok (
      field "apiVersion" (str pack.api_version) (
        field "capabilities" (objects (capability_line used) pack.capabilities) (
          field "counts" (obj (counts pack)) (
            field "defaultPolicy" (str pack.default_policy) (
              field "entrypoints" (objects entrypoint_to_dict pack.entrypoints) (
                field "flows" (objects (λ line. line) flows) (
                  field "kind" (str pack.kind)
                    (field "metadata" (obj (metadata_to_dict pack.metadata)) end))))))))
