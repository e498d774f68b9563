-- ===== src/Plan.antt =====
-- contractplane/compiler.py: the compiled plan, which the kernel runs. A dict that `to_dict` makes
-- of a model (fanout, policy, role, binding, evidence contracts) is kept as that model, and is
-- rendered where the plan is.
pub mod Render
pub mod Compile
use contractplane.Prelude.{ℕ, String, Option, List, [], ◌∷◌, ◌++◌}
use contractplane.Prelude.Dict.{Dict, index_by}
use contractplane.Json.{Fields}
use contractplane.Models.{
  CapabilityBinding, CapabilityKind, SideEffect, Role, Evidence, Policy, Fanout,
}

pub record CompiledStage : Type 0 where
  pub id : String
  pub description : String
  pub capability : String
  pub capability_description : String
  pub capability_kind : CapabilityKind
  pub side_effects : SideEffect
  pub input_schema : Fields
  pub output_schema : Fields
  pub permissions : List String
  pub binding : Option CapabilityBinding
  pub role : Option String
  pub role_contract : Option Role
  pub needs : List String
  pub fanout : Fanout
  pub requires_evidence : List String
  pub evidence_contracts : List Evidence
  pub policy : Policy
  pub produces : List String
  pub when : Option String

pub record Wave : Type 0 where
  pub index : ℕ
  pub stages : List CompiledStage

pub record ExecutionPlan : Type 0 where
  pub domain_name : String
  pub domain_version : String
  pub flow : String
  pub entrypoint : Option String
  pub input_schema : Fields
  pub waves : List Wave

-- tuple(stage for wave in waves for stage in wave.stages)
abbrev pub stages_of : List Wave → List CompiledStage
stages_of [] = []
stages_of (wave ∷ waves) = wave.stages ++ stages_of waves

abbrev pub stages : ExecutionPlan → List CompiledStage
stages plan = stages_of plan.waves

abbrev pub stage_map : ExecutionPlan → Dict CompiledStage
stage_map plan = index_by (λ stage. stage.id) (stages plan)
