-- ===== src/Loader/RoundTrip.antt =====
-- Parsing gives back the pack that was rendered.
use contractplane.Prelude.{arith, inl, inr, Option-cases, String, ◌≡◌, refl, List, [], ◌∷◌, map}
use contractplane.Json.{obj, Fields, array, texts}
use contractplane.Errors.{Result, ok, ◌>>=◌}
use contractplane.Models.{
  CapabilityKind, deterministic, agent, integration, SideEffect, no_effect, local, external,
  EvidenceKind, json_schema, artifact, semantic_review, external_receipt, HumanApproval, never,
  always, FanoutMode, singleton, each, CapabilityBinding, Capability, Role, Evidence, Policy,
  Fanout, Stage, Flow, EntryPoint, DomainPack,
}
use contractplane.Models.Render.{
  kind_value, side_effect_value, evidence_kind_value, approval_value, mode_value, binding_to_dict,
  capability_to_dict, role_to_dict, evidence_to_dict, policy_to_dict, fanout_to_dict, stage_to_dict,
  flow_to_dict, entrypoint_to_dict, pack_to_dict,
}
use contractplane.Loader.Parse.{
  as_text, as_object, read_each, kind_of, side_effect_of, evidence_kind_of, approval_of, mode_of,
  parse_binding, parse_capability, parse_role, parse_evidence, parse_policy, parse_fanout,
  parse_stage, parse_flow, parse_entrypoint, parse,
}

-- The names of the enumerations.
kind_of-kind_value : (k : CapabilityKind) → kind_of (kind_value k) ≡ ok k
unfolding kind_of
kind_of-kind_value deterministic = refl
kind_of-kind_value agent = refl
kind_of-kind_value integration = refl

side_effect_of-side_effect_value : (s : SideEffect) → side_effect_of (side_effect_value s) ≡ ok s
unfolding side_effect_of
side_effect_of-side_effect_value no_effect = refl
side_effect_of-side_effect_value local = refl
side_effect_of-side_effect_value external = refl

evidence_kind_of-evidence_kind_value :
    (k : EvidenceKind) → evidence_kind_of (evidence_kind_value k) ≡ ok k
unfolding evidence_kind_of
evidence_kind_of-evidence_kind_value json_schema = refl
evidence_kind_of-evidence_kind_value artifact = refl
evidence_kind_of-evidence_kind_value semantic_review = refl
evidence_kind_of-evidence_kind_value external_receipt = refl

approval_of-approval_value : (a : HumanApproval) → approval_of (approval_value a) ≡ ok a
unfolding approval_of
approval_of-approval_value never = refl
approval_of-approval_value always = refl

mode_of-mode_value : (m : FanoutMode) → mode_of (mode_value m) ≡ ok m
unfolding mode_of
mode_of-mode_value singleton = refl
mode_of-mode_value each = refl

-- Lists.
read_each-texts : (ts : List String) → read_each as_text (texts ts) ≡ ok ts
unfolding read_each
read_each-texts [] = refl
read_each-texts (t ∷ ts) = rw (read_each-texts ts) refl

read_each-array :
    {A : Type 0} (render : A → Fields) (read : Fields → Result A)
    → ((a : A) → read (render a) ≡ ok a)
    → (items : List A)
    → read_each (λ v. as_object v >>= read) (array (map (λ a. obj (render a)) items)) ≡ ok items
unfolding read_each
read_each-array render read back [] = refl
read_each-array render read back (a ∷ items) =
    rw (back a, read_each-array render read back items) refl

parse_binding-binding_to_dict : (b : CapabilityBinding) → parse_binding (binding_to_dict b) ≡ ok b
unfolding parse_binding binding_to_dict
parse_binding-binding_to_dict b = elim (Option-cases b.config) [
  | inl e ↦ rw e refl
  | inr (c, e) ↦ rw e refl
]

parse_role-role_to_dict : (r : Role) → parse_role (role_to_dict r) ≡ ok r
unfolding parse_role role_to_dict
parse_role-role_to_dict r = rw (read_each-texts r.capabilities) refl

parse_policy-policy_to_dict : (p : Policy) → parse_policy (policy_to_dict p) ≡ ok p
unfolding parse_policy policy_to_dict
parse_policy-policy_to_dict p = rw (approval_of-approval_value p.human_approval) refl

parse_entrypoint-entrypoint_to_dict :
    (e : EntryPoint) → parse_entrypoint (entrypoint_to_dict e) ≡ ok e
unfolding parse_entrypoint entrypoint_to_dict
parse_entrypoint-entrypoint_to_dict e =
    rw (read_each-texts e.keywords, read_each-texts e.examples) refl

parse_fanout-fanout_to_dict : (f : Fanout) → parse_fanout (fanout_to_dict f) ≡ ok f
unfolding parse_fanout fanout_to_dict
parse_fanout-fanout_to_dict f = elim (Option-cases f.over) [
  | inl e ↦ rw (mode_of-mode_value f.mode, e) refl
  | inr (t, e) ↦ rw (mode_of-mode_value f.mode, e) refl
]

parse_evidence-evidence_to_dict : (x : Evidence) → parse_evidence (evidence_to_dict x) ≡ ok x
unfolding parse_evidence evidence_to_dict
parse_evidence-evidence_to_dict x = elim (Option-cases x.schema) [
  | inl e ↦ rw (evidence_kind_of-evidence_kind_value x.kind, e) refl
  | inr (t, e) ↦ rw (evidence_kind_of-evidence_kind_value x.kind, e) refl
]

parse_capability-capability_to_dict :
    (c : Capability) → parse_capability (capability_to_dict c) ≡ ok c
unfolding parse_capability capability_to_dict
parse_capability-capability_to_dict c = elim (Option-cases c.binding) [
  | inl e ↦
      rw
        (
          e,
          kind_of-kind_value c.kind,
          side_effect_of-side_effect_value c.side_effects,
          read_each-texts c.permissions,
        )
        refl
  | inr (b, e) ↦
      rw
        (
          e,
          kind_of-kind_value c.kind,
          side_effect_of-side_effect_value c.side_effects,
          read_each-texts c.permissions,
          parse_binding-binding_to_dict b,
        )
        refl
]

parse_stage-stage_to_dict : (s : Stage) → parse_stage (stage_to_dict s) ≡ ok s
unfolding parse_stage stage_to_dict
parse_stage-stage_to_dict s = ground (
  arith,
  parse_fanout-fanout_to_dict s.fanout,
  read_each-texts s.needs,
  read_each-texts s.requires_evidence,
  read_each-texts s.produces,
)

parse_flow-flow_to_dict : (f : Flow) → parse_flow (flow_to_dict f) ≡ ok f
unfolding parse_flow flow_to_dict
parse_flow-flow_to_dict f =
    rw (read_each-array stage_to_dict parse_stage parse_stage-stage_to_dict f.stages) refl

-- What `to_dict` renders of a pack, `_parse` reads as the same pack.
pub parse-pack_to_dict : (pack : DomainPack) → parse (pack_to_dict pack) ≡ ok pack
unfolding parse pack_to_dict
parse-pack_to_dict pack =
    rw
      (
        read_each-array capability_to_dict parse_capability parse_capability-capability_to_dict
            pack.capabilities,
        read_each-array role_to_dict parse_role parse_role-role_to_dict pack.roles,
        read_each-array evidence_to_dict parse_evidence parse_evidence-evidence_to_dict
            pack.evidence,
        read_each-array policy_to_dict parse_policy parse_policy-policy_to_dict pack.policies,
        read_each-array flow_to_dict parse_flow parse_flow-flow_to_dict pack.flows,
        read_each-array entrypoint_to_dict parse_entrypoint parse_entrypoint-entrypoint_to_dict
            pack.entrypoints,
      )
      refl
