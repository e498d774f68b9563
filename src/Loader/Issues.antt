-- ===== src/Loader/Issues.antt =====
-- `semantic_issues` of contractplane/loader.py: what a pack that fits the schema may still have
-- wrong.
use Prim.Native.Char.{code}
use contractplane.Prelude.{
  ℕ, suc, String, Bool, true, false, not, ◌&&◌, ◌||◌, Option, none, some, List, [], ◌∷◌, ◌++◌, map,
  ◌==◌, ltb, same_number, if◌then◌else◌, is_some, is_empty, contains,
}
use contractplane.Prelude.Dict
use contractplane.Prelude.Dict.{Dict}
use contractplane.Json.{Fields}
use contractplane.Platform.{Platform}
use contractplane.Errors.{
  PathPart, key, index, IssueMessage, invalid_embedded_schema, duplicate_id, no_such_policy,
  no_such_capability, no_such_role, no_such_evidence, no_such_stage, no_such_flow, schema_required,
  role_required, role_lacks, needs_itself, evidence_needed, over_required, over_forbidden,
  when_too_long, when_not_declarative, cycle_among, ValidationIssue, Result, ok, ◌>>=◌,
}
use contractplane.Models.{
  CapabilityKind, agent, EvidenceKind, json_schema, FanoutMode, singleton, each, Capability, Role,
  Evidence, Policy, Stage, Flow, EntryPoint, DomainPack, capability_map, policy_map, text_or,
}
use contractplane.Plan.Compile.{role_of}
use contractplane.Loader.Queue.{cycle_nodes}

abbrev pub issue : List PathPart → IssueMessage → ValidationIssue
issue path message = record { path = path; message = message }

-- `if test: issues.append(issue)`
abbrev pub issue_if : Bool → List PathPart → IssueMessage → List ValidationIssue
issue_if test path message = if test then issue path message ∷ [] else []

-- `for index, item in enumerate(items)`, from an index on, with what a round appends.
unfoldable pub each_item {ℓ} :
    {A : Type ℓ} → (ℕ → A → List ValidationIssue) → ℕ → List A → List ValidationIssue
each_item round n [] = []
each_item round n (x ∷ xs) = round n x ++ each_item round (suc n) xs

-- The issues of one part of the code after the other's.
unfoldable pub joined : List (List ValidationIssue) → List ValidationIssue
joined [] = []
joined (part ∷ parts) = part ++ joined parts

-- _duplicate_issues
unfoldable pub duplicates_from : List PathPart → ℕ → Dict ℕ → List String → List ValidationIssue
duplicates_from path n seen [] = []
duplicates_from path n seen (id ∷ ids) = elim (Dict.get seen id) [
  | some first ↦
      issue (path ++ index n ∷ key "id" ∷ []) (duplicate_id id first)
      ∷ duplicates_from path (suc n) seen ids
  | none ↦ duplicates_from path (suc n) (Dict.put seen id n) ids
]

abbrev pub duplicate_issues : List PathPart → List String → List ValidationIssue
duplicate_issues path ids = duplicates_from path 0 [] ids

-- _schema_issue
unfoldable pub schema_issue : Platform → Fields → List PathPart → List ValidationIssue
schema_issue platform schema path = elim (platform.schema_problem schema) [
  | none ↦ []
  | some message ↦ issue path (invalid_embedded_schema message) ∷ []
]

-- `if text`, of an optional text
abbrev pub is_given : Option String → Bool
is_given none = false
is_given (some t) = not (t == "")

abbrev pub is_agent : CapabilityKind → Bool
is_agent agent = true
is_agent k = false

abbrev pub is_json_schema : EvidenceKind → Bool
is_json_schema json_schema = true
is_json_schema k = false

abbrev pub is_each : FanoutMode → Bool
is_each each = true
is_each singleton = false

-- _WHEN_FORBIDDEN.search(text): one of ; ` NUL CR LF, or $(
abbrev pub opens_call : String → Bool
opens_call String.[] = false
opens_call (String.◌∷◌ c s) = same_number (code c) 40

unfoldable pub is_forbidden : String → Bool
is_forbidden String.[] = false
is_forbidden (String.◌∷◌ c s) =
    same_number (code c) 59
    || same_number (code c) 96
    || same_number (code c) 0
    || same_number (code c) 13
    || same_number (code c) 10
    || (same_number (code c) 36 && opens_call s)
    || is_forbidden s

-- len(text)
unfoldable pub text_length : String → ℕ
text_length String.[] = 0
text_length (String.◌∷◌ c s) = suc (text_length s)

-- The loops over ids that are to be known.
unfoldable pub unknown_ids :
    List PathPart → List String → (String → IssueMessage) → List String → List ValidationIssue
unfolding each_item
unknown_ids path known message ids =
    each_item (λ n id. issue_if (not (contains known id)) (path ++ index n ∷ []) (message id)) 0 ids

unfoldable pub capability_issues : Platform → ℕ → Capability → List ValidationIssue
capability_issues platform n capability =
    let path = key "capabilities" ∷ index n ∷ [] in
    schema_issue platform capability.input_schema (path ++ key "inputSchema" ∷ [])
    ++ schema_issue platform capability.output_schema (path ++ key "outputSchema" ∷ [])

unfoldable pub role_issues : List String → ℕ → Role → List ValidationIssue
role_issues capability_ids n role =
    unknown_ids (key "roles" ∷ index n ∷ key "capabilities" ∷ []) capability_ids no_such_capability
      role.capabilities

abbrev pub optional_schema_issue : Platform → Option Fields → List PathPart → List ValidationIssue
optional_schema_issue platform none path = []
optional_schema_issue platform (some schema) path = schema_issue platform schema path

unfoldable pub evidence_issues : Platform → ℕ → Evidence → List ValidationIssue
evidence_issues platform n evidence =
    let path = key "evidence" ∷ index n ∷ key "schema" ∷ [] in
    issue_if (is_json_schema evidence.kind && not (is_some evidence.schema)) path schema_required
    ++ optional_schema_issue platform evidence.schema path

-- What a stage's role and capability say of each other.
abbrev pub role_needed : List PathPart → Stage → Option Capability → List ValidationIssue
role_needed base stage none = []
role_needed base stage (some capability) =
    issue_if (is_agent capability.kind && not (is_given stage.role)) (base ++ key "role" ∷ [])
      role_required

abbrev pub role_capability :
    List PathPart → Stage → Option Capability → Option Role → List ValidationIssue
role_capability base stage none role = []
role_capability base stage (some capability) none = []
role_capability base stage (some capability) (some role) =
    issue_if (not (contains role.capabilities stage.capability)) (base ++ key "role" ∷ [])
      (role_lacks role.id stage.capability)

unfoldable pub need_issues :
    List PathPart → List String → Flow → Stage → ℕ → String → List ValidationIssue
need_issues base stage_ids flow stage n need =
    let path = base ++ key "needs" ∷ index n ∷ [] in
    if not (contains stage_ids need)
    then issue path (no_such_stage need flow.id) ∷ []
    else issue_if (need == stage.id) path needs_itself

abbrev pub policy_issues : List PathPart → Stage → Option Policy → List ValidationIssue
policy_issues base stage none = []
policy_issues base stage (some policy) =
    issue_if (policy.evidence_required && is_empty stage.requires_evidence)
      (base ++ key "requiresEvidence" ∷ []) (evidence_needed policy.id)

abbrev pub when_issues : List PathPart → Option String → List ValidationIssue
when_issues path none = []
when_issues path (some text) =
    issue_if (ltb 512 (text_length text)) path when_too_long
    ++ issue_if (is_forbidden text) path when_not_declarative

abbrev pub or_empty : Option String → String
or_empty none = ""
or_empty (some t) = t

unfoldable pub stage_issues : DomainPack → ℕ → Flow → ℕ → Stage → List ValidationIssue
unfolding unknown_ids need_issues each_item
stage_issues pack f flow n stage =
    let base = key "flows" ∷ index f ∷ key "stages" ∷ index n ∷ [] in
    let capability = Dict.get (capability_map pack) stage.capability in
    let over_path = base ++ key "fanout" ∷ key "over" ∷ [] in
    joined (
      issue_if (not (is_some capability)) (base ++ key "capability" ∷ [])
        (no_such_capability stage.capability)
      ∷ issue_if
          (is_given stage.role
            && not (contains (map (λ role. role.id) pack.roles) (or_empty stage.role)))
          (base ++ key "role" ∷ []) (no_such_role (or_empty stage.role))
      ∷ role_needed base stage capability
      ∷ role_capability base stage capability (role_of pack stage.role)
      ∷ each_item (need_issues base (map (λ s. s.id) flow.stages) flow stage) 0 stage.needs
      ∷ unknown_ids (base ++ key "requiresEvidence" ∷ [])
          (map (λ evidence. evidence.id) pack.evidence) no_such_evidence stage.requires_evidence
      ∷ issue_if
          (is_given stage.policy
            && not (contains (map (λ policy. policy.id) pack.policies) (or_empty stage.policy)))
          (base ++ key "policy" ∷ []) (no_such_policy (or_empty stage.policy))
      ∷ policy_issues base stage
          (Dict.get (policy_map pack) (text_or stage.policy pack.default_policy))
      ∷ issue_if (is_each stage.fanout.mode && not (is_given stage.fanout.over)) over_path
          over_required
      ∷ issue_if (not (is_each stage.fanout.mode) && is_given stage.fanout.over) over_path
          over_forbidden
      ∷ when_issues (base ++ key "when" ∷ []) stage.when
      ∷ [])

unfoldable pub flow_issues : Platform → DomainPack → ℕ → Flow → Result (List ValidationIssue)
unfolding each_item stage_issues
flow_issues platform pack f flow = do
  let path = key "flows" ∷ index f ∷ []
  let stages_path = path ++ key "stages" ∷ []
  cycle ← cycle_nodes flow
  ok (
      joined (
        schema_issue platform flow.input_schema (path ++ key "inputSchema" ∷ [])
        ∷ duplicate_issues stages_path (map (λ stage. stage.id) flow.stages)
        ∷ each_item (stage_issues pack f flow) 0 flow.stages
        ∷ issue_if (not (is_empty cycle)) stages_path (cycle_among cycle)
        ∷ []))

unfoldable pub all_flow_issues :
    Platform → DomainPack → ℕ → List Flow → Result (List ValidationIssue)
all_flow_issues platform pack n [] = ok []
all_flow_issues platform pack n (flow ∷ flows) = do
  issues ← flow_issues platform pack n flow
  rest ← all_flow_issues platform pack (suc n) flows
  ok (issues ++ rest)

unfoldable pub entrypoint_issues : List String → ℕ → EntryPoint → List ValidationIssue
entrypoint_issues flow_ids n entrypoint =
    issue_if (not (contains flow_ids entrypoint.flow))
      (key "entrypoints" ∷ index n ∷ key "flow" ∷ []) (no_such_flow entrypoint.flow)

unfoldable pub semantic_issues : Platform → DomainPack → Result (List ValidationIssue)
unfolding each_item capability_issues role_issues evidence_issues entrypoint_issues
semantic_issues platform pack = do
  in_flows ← all_flow_issues platform pack 0 pack.flows
  ok (
      joined (
        duplicate_issues (key "capabilities" ∷ []) (map (λ item. item.id) pack.capabilities)
        ∷ duplicate_issues (key "roles" ∷ []) (map (λ item. item.id) pack.roles)
        ∷ duplicate_issues (key "evidence" ∷ []) (map (λ item. item.id) pack.evidence)
        ∷ duplicate_issues (key "policies" ∷ []) (map (λ item. item.id) pack.policies)
        ∷ duplicate_issues (key "flows" ∷ []) (map (λ item. item.id) pack.flows)
        ∷ duplicate_issues (key "entrypoints" ∷ []) (map (λ item. item.id) pack.entrypoints)
        ∷ issue_if (not (contains (map (λ policy. policy.id) pack.policies) pack.default_policy))
            (key "defaultPolicy" ∷ []) (no_such_policy pack.default_policy)
        ∷ each_item (capability_issues platform) 0 pack.capabilities
        ∷ each_item (role_issues (map (λ item. item.id) pack.capabilities)) 0 pack.roles
        ∷ each_item (evidence_issues platform) 0 pack.evidence
        ∷ in_flows
        ∷ each_item (entrypoint_issues (map (λ flow. flow.id) pack.flows)) 0 pack.entrypoints
        ∷ []))
