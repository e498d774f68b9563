-- ===== src/Models.antt =====
-- contractplane/models.py: the data of a domain pack. Its `to_dict` methods are in `Render`.
pub mod Render
use contractplane.Prelude.{ℕ, String, Bool, Option, none, some, List, ◌==◌, if◌then◌else◌}
use contractplane.Prelude.Dict.{Dict, get, index_by}
use contractplane.Json.{Json, Fields}
use contractplane.Errors.{Result, ok, raise, key_error}

pub data CapabilityKind : Type 0 where
  deterministic agent integration : CapabilityKind

pub data SideEffect : Type 0 where
  no_effect local external : SideEffect

pub data EvidenceKind : Type 0 where
  json_schema artifact semantic_review external_receipt : EvidenceKind

pub data HumanApproval : Type 0 where
  never always : HumanApproval

pub data FanoutMode : Type 0 where
  singleton each : FanoutMode

pub record Metadata : Type 0 where
  pub name : String
  pub version : String
  pub description : String

pub record CapabilityBinding : Type 0 where
  pub adapter : String
  pub target : String
  pub config : Option Fields

pub record Capability : Type 0 where
  pub id : String
  pub kind : CapabilityKind
  pub description : String
  pub side_effects : SideEffect
  pub input_schema : Fields
  pub output_schema : Fields
  pub permissions : List String
  pub binding : Option CapabilityBinding

pub record Role : Type 0 where
  pub id : String
  pub description : String
  pub capabilities : List String
  pub instructions : String

pub record Evidence : Type 0 where
  pub id : String
  pub kind : EvidenceKind
  pub description : String
  pub schema : Option Fields

pub record Policy : Type 0 where
  pub id : String
  pub description : String
  pub evidence_required : Bool
  pub human_approval : HumanApproval
  pub max_attempts : ℕ

pub record Fanout : Type 0 where
  pub mode : FanoutMode
  pub over : Option String

pub record Stage : Type 0 where
  pub id : String
  pub description : String
  pub capability : String
  pub role : Option String
  pub needs : List String
  pub fanout : Fanout
  pub requires_evidence : List String
  pub policy : Option String
  pub produces : List String
  pub when : Option String

pub record Flow : Type 0 where
  pub id : String
  pub description : String
  pub input_schema : Fields
  pub stages : List Stage

pub record EntryPoint : Type 0 where
  pub id : String
  pub description : String
  pub flow : String
  pub keywords : List String
  pub examples : List String

pub record DomainPack : Type 0 where
  pub api_version : String
  pub kind : String
  pub metadata : Metadata
  pub default_policy : String
  pub capabilities : List Capability
  pub roles : List Role
  pub evidence : List Evidence
  pub policies : List Policy
  pub flows : List Flow
  pub entrypoints : List EntryPoint

-- The maps that a pack builds anew at each use.
module _ (pack : DomainPack) where
  abbrev pub capability_map : Dict Capability
  capability_map = index_by (λ item. item.id) pack.capabilities

  abbrev pub role_map : Dict Role
  role_map = index_by (λ item. item.id) pack.roles

  abbrev pub evidence_map : Dict Evidence
  evidence_map = index_by (λ item. item.id) pack.evidence

  abbrev pub policy_map : Dict Policy
  policy_map = index_by (λ item. item.id) pack.policies

  abbrev pub flow_map : Dict Flow
  flow_map = index_by (λ item. item.id) pack.flows

  abbrev pub entrypoint_map : Dict EntryPoint
  entrypoint_map = index_by (λ item. item.id) pack.entrypoints

-- `text or default`: an absent or an empty text gives the default.
abbrev pub text_or : Option String → String → String
text_or none default = default
text_or (some t) default = if t == "" then default else t

-- d[key]
abbrev pub found_at {ℓ} : {A : Type ℓ} → String → Option A → Result A
found_at key none = raise (key_error key)
found_at key (some a) = ok a

unfoldable pub policy_for : DomainPack → Stage → Result Policy
policy_for pack stage =
    let id = text_or stage.policy pack.default_policy in found_at id (get (policy_map pack) id)
