-- ===== src/Plan/Compile.antt =====
-- `_compile_stage` of contractplane/compiler.py.
use contractplane.Prelude.{String, Option, none, some, List, [], ◌∷◌, ◌==◌, if◌then◌else◌}
use contractplane.Prelude.Dict
use contractplane.Prelude.Dict.{Dict}
use contractplane.Errors.{Result, ok, ◌>>=◌}
use contractplane.Models.{
  Role, Evidence, Stage, DomainPack, capability_map, role_map, evidence_map, found_at, policy_for,
}
use contractplane.Plan.{CompiledStage}

-- pack.role_map.get(stage.role) if stage.role else None
unfoldable pub role_of : DomainPack → Option String → Option Role
role_of pack none = none
role_of pack (some id) = if id == "" then none else Dict.get (role_map pack) id

-- tuple(pack.evidence_map[evidence_id] for evidence_id in ids)
unfoldable pub evidence_of : Dict Evidence → List String → Result (List Evidence)
evidence_of evidence [] = ok []
evidence_of evidence (id ∷ ids) = do
  contract ← found_at id (Dict.get evidence id)
  contracts ← evidence_of evidence ids
  ok (contract ∷ contracts)

unfoldable pub compile_stage : DomainPack → Stage → Result CompiledStage
unfolding role_of
compile_stage pack stage = do
  capability ← found_at stage.capability (Dict.get (capability_map pack) stage.capability)
  policy ← policy_for pack stage
  contracts ← evidence_of (evidence_map pack) stage.requires_evidence
  ok (record {
    id = stage.id;
    description = stage.description;
    capability = capability.id;
    capability_description = capability.description;
    capability_kind = capability.kind;
    side_effects = capability.side_effects;
    input_schema = capability.input_schema;
    output_schema = capability.output_schema;
    permissions = capability.permissions;
    binding = capability.binding;
    role = stage.role;
    role_contract = role_of pack stage.role;
    needs = stage.needs;
    fanout = stage.fanout;
    requires_evidence = stage.requires_evidence;
    evidence_contracts = contracts;
    policy = policy;
    produces = stage.produces;
    when = stage.when;
  })
