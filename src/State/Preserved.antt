-- ===== src/State/Preserved.antt =====
-- What every event keeps, every public method keeps, whether it returns or raises: the methods
-- change the machine and the ledger by their events alone.
use contractplane.Json.{Fields}
use contractplane.Prelude.{String, Bool, true, false, List, [], ◌∷◌}
use contractplane.Plan.{CompiledStage, stages}
use contractplane.State.{ExecutionStatus, UnitStatus, UnitRef}
use contractplane.State.Kind.{EventKind}
use contractplane.State.Step.{Context, Kernel, emit}
use contractplane.State.Operations.{
  require_execution, contract_of, group_at, satisfied_at, unit_of, require_unit,
  request_authorization_or_ready, open_singleton, materialize, materialize_all,
  materialize_singletons, unlock_or_finish, complete_unit,
}
use contractplane.State.Methods.{
  start, register_unit, seal_stage, fail_execution, authorize_unit, start_unit, claim_unit,
  fail_unit, settle_evidence, record_evidence, approve_unit, skip_unit, cancel, Request,
  start_request, register_request, seal_request, authorize_request, start_unit_request,
  claim_request, record_request, approve_request, skip_request, fail_request, cancel_request,
  perform,
}
use contractplane.Action.Preserves.{Preserves, Preserves-bind, preserves_rules}

module _ {P : Kernel → Type 0} where
  require_execution-Preserves :
      (expected : ExecutionStatus → Bool) → Preserves P (require_execution expected)
  unfolding require_execution
  require_execution-Preserves expected = search preserves_rules

module _ (c : Context) {P : Kernel → Type 0} where
  contract_of-Preserves : (id : String) → Preserves P (contract_of c id)
  unfolding contract_of
  contract_of-Preserves id = search preserves_rules

  group_at-Preserves : (id : String) → Preserves P (group_at c id)
  unfolding group_at
  group_at-Preserves id = search preserves_rules

  satisfied_at-Preserves : (id : String) → Preserves P (satisfied_at c id)
  unfolding satisfied_at
  satisfied_at-Preserves id = search preserves_rules

  unit_of-Preserves : (ref : UnitRef) → Preserves P (unit_of c ref)
  unfolding unit_of
  unit_of-Preserves ref = search preserves_rules

  require_unit-Preserves :
      (ref : UnitRef) (expected : UnitStatus → Bool) → Preserves P (require_unit c ref expected)
  unfolding require_unit
  require_unit-Preserves ref expected = search (preserves_rules, unit_of-Preserves)

ruleset method_rules = (
  preserves_rules, require_execution-Preserves, contract_of-Preserves, group_at-Preserves,
  satisfied_at-Preserves, unit_of-Preserves, require_unit-Preserves,
)

module _ (c : Context) (P : Kernel → Type 0)
    (emit-Preserves : (kind : EventKind) (p : Fields) → Preserves P (emit c kind p)) where
  open c use {platform, plan}

  request-Preserves : (ref : UnitRef) → Preserves P (request_authorization_or_ready c ref)
  unfolding request_authorization_or_ready
  request-Preserves ref = search (method_rules, emit-Preserves)

  open_singleton-Preserves : (contract : CompiledStage) → Preserves P (open_singleton c contract)
  unfolding open_singleton
  open_singleton-Preserves contract = search (method_rules, emit-Preserves, request-Preserves)

  materialize-Preserves : (contract : CompiledStage) → Preserves P (materialize c contract)
  unfolding materialize
  materialize-Preserves contract = search (method_rules, open_singleton-Preserves)

  materialize_all-Preserves :
      (contracts : List CompiledStage) → Preserves P (materialize_all c contracts)
  unfolding materialize_all
  materialize_all-Preserves [] = search preserves_rules
  materialize_all-Preserves (x ∷ xs) =
      Preserves-bind _ _ (materialize-Preserves x) (λ _. materialize_all-Preserves xs)

  materialize_singletons-Preserves : Preserves P (materialize_singletons c)
  unfolding materialize_singletons
  materialize_singletons-Preserves = materialize_all-Preserves (stages plan)

  unlock_or_finish-Preserves : Preserves P (unlock_or_finish c)
  unfolding unlock_or_finish
  unlock_or_finish-Preserves =
      search (method_rules, emit-Preserves, materialize_singletons-Preserves)

  complete_unit-Preserves : (ref : UnitRef) → Preserves P (complete_unit c ref)
  unfolding complete_unit
  complete_unit-Preserves ref = search (method_rules, emit-Preserves, unlock_or_finish-Preserves)

  start-Preserves : Preserves P (start c)
  unfolding start
  start-Preserves = search (method_rules, emit-Preserves, materialize_singletons-Preserves)

  register_unit-Preserves : (s k : String) → Preserves P (register_unit c s k)
  unfolding register_unit
  register_unit-Preserves s k = search (method_rules, emit-Preserves, request-Preserves) depth 24

  seal_stage-Preserves : (s : String) → Preserves P (seal_stage c s)
  unfolding seal_stage
  seal_stage-Preserves s =
      search (method_rules, emit-Preserves, unlock_or_finish-Preserves) depth 24

  fail_execution-Preserves :
      (ref : UnitRef) (reason : String) → Preserves P (fail_execution c ref reason)
  unfolding fail_execution
  fail_execution-Preserves ref reason = search (method_rules, emit-Preserves)

  authorize_unit-Preserves :
      (ref : UnitRef) (approved : Bool) (actor reason : String)
      → Preserves P (authorize_unit c ref approved actor reason)
  unfolding authorize_unit
  authorize_unit-Preserves ref approved actor reason =
      search (method_rules, emit-Preserves, fail_execution-Preserves) depth 24

  start_unit-Preserves : (ref : UnitRef) → Preserves P (start_unit c ref)
  unfolding start_unit
  start_unit-Preserves ref = search (method_rules, emit-Preserves) depth 24

  claim_unit-Preserves : (ref : UnitRef) (outputs : Fields) → Preserves P (claim_unit c ref outputs)
  unfolding claim_unit
  claim_unit-Preserves ref outputs =
      search (method_rules, emit-Preserves, complete_unit-Preserves) depth 24

  fail_unit-Preserves :
      (ref : UnitRef) (reason : String) (retry : Bool) → Preserves P (fail_unit c ref reason retry)
  unfolding fail_unit
  fail_unit-Preserves ref reason retry =
      search (method_rules, emit-Preserves, fail_execution-Preserves) depth 24

  settle_evidence-Preserves :
      (ref : UnitRef) (stage : CompiledStage) (accepted : Bool) (rejection : String)
      → Preserves P (settle_evidence c ref stage accepted rejection)
  unfolding settle_evidence
  settle_evidence-Preserves ref stage false rejection = fail_unit-Preserves ref rejection false
  settle_evidence-Preserves ref stage true rejection =
      search (method_rules, complete_unit-Preserves)

  record_evidence-Preserves :
      (ref : UnitRef) (id : String) (receipt : Fields) (accepted : Bool) (rejection : String)
      → Preserves P (record_evidence c ref id receipt accepted rejection)
  unfolding record_evidence
  record_evidence-Preserves ref id receipt accepted rejection =
      search (method_rules, emit-Preserves, settle_evidence-Preserves) depth 24

  skip_unit-Preserves : (ref : UnitRef) (reason : String) → Preserves P (skip_unit c ref reason)
  unfolding skip_unit
  skip_unit-Preserves ref reason =
      search (method_rules, emit-Preserves, unlock_or_finish-Preserves) depth 24

  -- Any call of a public method keeps what every event keeps.
  pub perform-Preserves : (r : Request) → Preserves P (perform c r)
  unfolding perform approve_unit cancel
  perform-Preserves start_request = start-Preserves
  perform-Preserves (register_request s k) = search (preserves_rules, register_unit-Preserves)
  perform-Preserves (seal_request s) = seal_stage-Preserves s
  perform-Preserves (authorize_request ref approved actor reason) =
      authorize_unit-Preserves ref approved actor reason
  perform-Preserves (start_unit_request ref) = start_unit-Preserves ref
  perform-Preserves (claim_request ref outputs) = claim_unit-Preserves ref outputs
  perform-Preserves (record_request ref id receipt accepted rejection) =
      record_evidence-Preserves ref id receipt accepted rejection
  perform-Preserves (approve_request ref approved actor reason) = search preserves_rules
  perform-Preserves (skip_request ref reason) = skip_unit-Preserves ref reason
  perform-Preserves (fail_request ref reason retry) = fail_unit-Preserves ref reason retry
  perform-Preserves (cancel_request reason) = search (preserves_rules, emit-Preserves)
