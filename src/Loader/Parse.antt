-- ===== src/Loader/Parse.antt =====
-- `_parse` of contractplane/loader.py, which reads a pack from a document that fits the schema.
-- Where a value has another type than the schema says, Python would carry it along, and the model
-- raises `type_error`: `parse_domain_pack` refuses such a document before.
use contractplane.Prelude.{ℕ, String, Bool, Option, none, some, List, [], ◌∷◌, ◌==◌, if◌then◌else◌}
use contractplane.Json.{
  Json, null, bool, num, str, arr, obj, Items, nil, cons, Fields, get_field?, get_field,
}
use contractplane.Errors.{type_error, value_error, Result, ok, raise, ◌>>=◌}
use contractplane.Models.{
  CapabilityKind, deterministic, agent, integration, SideEffect, no_effect, local, external,
  EvidenceKind, json_schema, artifact, semantic_review, external_receipt, HumanApproval, never,
  always, FanoutMode, singleton, each, Metadata, CapabilityBinding, Capability, Role, Evidence,
  Policy, Fanout, Stage, Flow, EntryPoint, DomainPack, found_at,
}

-- Values of the types that the schema asks for.
abbrev pub as_text : Json → Result String
as_text (str t) = ok t
as_text v = raise type_error

abbrev pub as_bool : Json → Result Bool
as_bool (bool b) = ok b
as_bool v = raise type_error

abbrev pub as_number : Json → Result ℕ
as_number (num n) = ok n
as_number v = raise type_error

abbrev pub as_object : Json → Result Fields
as_object (obj fs) = ok fs
as_object v = raise type_error

abbrev pub as_items : Json → Result Items
as_items (arr vs) = ok vs
as_items v = raise type_error

-- `tuple(read(item) for item in items)`
unfoldable pub read_each {ℓ} : {A : Type ℓ} → (Json → Result A) → Items → Result (List A)
read_each read nil = ok []
read_each read (cons v vs) = do item ← read v; items ← read_each read vs; ok (item ∷ items)

-- `item.get(key)`, where a null counts as absent
abbrev pub optional {ℓ} : {A : Type ℓ} → (Json → Result A) → Json → Result (Option A)
optional read null = ok none
optional read v = do a ← read v; ok (some a)

module _ (item : Fields) where
  -- item[key]
  abbrev pub value_at : String → Result Json
  value_at key = found_at key (get_field? item key)

  abbrev pub text_at : String → Result String
  text_at key = do v ← value_at key; as_text v

  abbrev pub object_at : String → Result Fields
  object_at key = do v ← value_at key; as_object v

  -- tuple(item[key])
  abbrev pub texts_at : String → Result (List String)
  texts_at key = do v ← value_at key; vs ← as_items v; read_each as_text vs

  abbrev pub objects_at {ℓ} : {A : Type ℓ} → (Fields → Result A) → String → Result (List A)
  objects_at read key = do
    v ← value_at key
    vs ← as_items v
    read_each (λ w. do fs ← as_object w; read fs) vs

-- CapabilityKind(text), and so on
unfoldable pub kind_of : String → Result CapabilityKind
kind_of t =
    if t == "deterministic"
    then ok deterministic
    else if t == "agent"
    then ok agent
    else if t == "integration"
    then ok integration
    else raise value_error

unfoldable pub side_effect_of : String → Result SideEffect
side_effect_of t =
    if t == "none"
    then ok no_effect
    else if t == "local"
    then ok local
    else if t == "external"
    then ok external
    else raise value_error

unfoldable pub evidence_kind_of : String → Result EvidenceKind
evidence_kind_of t =
    if t == "json-schema"
    then ok json_schema
    else if t == "artifact"
    then ok artifact
    else if t == "semantic-review"
    then ok semantic_review
    else if t == "external-receipt"
    then ok external_receipt
    else raise value_error

unfoldable pub approval_of : String → Result HumanApproval
approval_of t =
    if t == "never" then ok never else if t == "always" then ok always else raise value_error

unfoldable pub mode_of : String → Result FanoutMode
mode_of t =
    if t == "singleton" then ok singleton else if t == "each" then ok each else raise value_error

unfoldable pub parse_metadata : Fields → Result Metadata
parse_metadata item = do
  name ← text_at item "name"
  version ← text_at item "version"
  description ← text_at item "description"
  ok (record { name = name; version = version; description = description })

unfoldable pub parse_binding : Fields → Result CapabilityBinding
parse_binding item = do
  adapter ← text_at item "adapter"
  target ← text_at item "target"
  config ← optional as_object (get_field item "config")
  ok (record { adapter = adapter; target = target; config = config })

unfoldable pub parse_capability : Fields → Result Capability
unfolding kind_of side_effect_of parse_binding
parse_capability item = do
  id ← text_at item "id"
  kind_text ← text_at item "kind"
  kind ← kind_of kind_text
  description ← text_at item "description"
  effects_text ← text_at item "sideEffects"
  side_effects ← side_effect_of effects_text
  input_schema ← object_at item "inputSchema"
  output_schema ← object_at item "outputSchema"
  permissions ← texts_at item "permissions"
  binding ← optional (λ v. do fs ← as_object v; parse_binding fs) (get_field item "binding")
  ok (record {
    id = id;
    kind = kind;
    description = description;
    side_effects = side_effects;
    input_schema = input_schema;
    output_schema = output_schema;
    permissions = permissions;
    binding = binding;
  })

unfoldable pub parse_role : Fields → Result Role
parse_role item = do
  id ← text_at item "id"
  description ← text_at item "description"
  capabilities ← texts_at item "capabilities"
  instructions ← text_at item "instructions"
  ok (record {
    id = id;
    description = description;
    capabilities = capabilities;
    instructions = instructions;
  })

unfoldable pub parse_evidence : Fields → Result Evidence
unfolding evidence_kind_of
parse_evidence item = do
  id ← text_at item "id"
  kind_text ← text_at item "kind"
  kind ← evidence_kind_of kind_text
  description ← text_at item "description"
  schema ← optional as_object (get_field item "schema")
  ok (record { id = id; kind = kind; description = description; schema = schema })

unfoldable pub parse_policy : Fields → Result Policy
unfolding approval_of
parse_policy item = do
  id ← text_at item "id"
  description ← text_at item "description"
  required ← value_at item "evidenceRequired"
  evidence_required ← as_bool required
  approval_text ← text_at item "humanApproval"
  human_approval ← approval_of approval_text
  attempts ← value_at item "maxAttempts"
  max_attempts ← as_number attempts
  ok (record {
    id = id;
    description = description;
    evidence_required = evidence_required;
    human_approval = human_approval;
    max_attempts = max_attempts;
  })

unfoldable pub parse_fanout : Fields → Result Fanout
unfolding mode_of
parse_fanout item = do
  mode_text ← text_at item "mode"
  mode ← mode_of mode_text
  over ← optional as_text (get_field item "over")
  ok (record { mode = mode; over = over })

unfoldable pub parse_stage : Fields → Result Stage
unfolding parse_fanout
parse_stage item = do
  id ← text_at item "id"
  description ← text_at item "description"
  capability ← text_at item "capability"
  role ← optional as_text (get_field item "role")
  needs ← texts_at item "needs"
  fanout_item ← object_at item "fanout"
  fanout ← parse_fanout fanout_item
  requires_evidence ← texts_at item "requiresEvidence"
  policy ← optional as_text (get_field item "policy")
  produces ← texts_at item "produces"
  when ← optional as_text (get_field item "when")
  ok (record {
    id = id;
    description = description;
    capability = capability;
    role = role;
    needs = needs;
    fanout = fanout;
    requires_evidence = requires_evidence;
    policy = policy;
    produces = produces;
    when = when;
  })

unfoldable pub parse_flow : Fields → Result Flow
unfolding parse_stage
parse_flow item = do
  id ← text_at item "id"
  description ← text_at item "description"
  input_schema ← object_at item "inputSchema"
  stages ← objects_at item parse_stage "stages"
  ok (record { id = id; description = description; input_schema = input_schema; stages = stages })

unfoldable pub parse_entrypoint : Fields → Result EntryPoint
parse_entrypoint item = do
  id ← text_at item "id"
  description ← text_at item "description"
  flow ← text_at item "flow"
  keywords ← texts_at item "keywords"
  examples ← texts_at item "examples"
  ok (record {
    id = id;
    description = description;
    flow = flow;
    keywords = keywords;
    examples = examples;
  })

unfoldable pub parse : Fields → Result DomainPack
unfolding parse_metadata parse_capability parse_role parse_evidence parse_policy parse_flow
    parse_entrypoint
parse raw = do
  metadata_item ← object_at raw "metadata"
  api_version ← text_at raw "apiVersion"
  kind ← text_at raw "kind"
  metadata ← parse_metadata metadata_item
  default_policy ← text_at raw "defaultPolicy"
  capabilities ← objects_at raw parse_capability "capabilities"
  roles ← objects_at raw parse_role "roles"
  evidence ← objects_at raw parse_evidence "evidence"
  policies ← objects_at raw parse_policy "policies"
  flows ← objects_at raw parse_flow "flows"
  entrypoints ← objects_at raw parse_entrypoint "entrypoints"
  ok (record {
    api_version = api_version;
    kind = kind;
    metadata = metadata;
    default_policy = default_policy;
    capabilities = capabilities;
    roles = roles;
    evidence = evidence;
    policies = policies;
    flows = flows;
    entrypoints = entrypoints;
  })
