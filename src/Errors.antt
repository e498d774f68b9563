-- ===== src/Errors.antt =====
-- contractplane/errors.py, and the built-in exceptions that the code raises. A raise site's
-- message is a constructor; the values that its text interpolates are left out.
use contractplane.Prelude.{ℕ, String, List, Bool, true, false, ◌≡◌, refl, ◌⊎◌, inl, inr}

-- The messages of TransitionError, in the order of state.py.
pub data TransitionReason : Type 0 where
  execution_id_empty wrong_execution_status wrong_unit_status unknown_stage unknown_unit :
      TransitionReason
  created_again digest_differs domain_or_flow_differs created_not_first : TransitionReason
  start_not_created not_all_satisfied fail_not_running fail_without_failed_unit
        fail_without_reason :
      TransitionReason
  cannot_cancel not_running already_sealed dependencies_open seal_without_units seal_not_default :
      TransitionReason
  already_registered one_default_unit authorization_not_required authorization_not_requestable :
      TransitionReason
  retries_exhausted no_open_request approved_not_bool actor_empty ready_from_wrong_state :
      TransitionReason
  authorization_required start_not_ready claim_not_running outputs_not_object outputs_invalid :
      TransitionReason
  gate_not_claimed no_obligations obligations_differ not_awaiting_evidence evidence_not_required :
      TransitionReason
  evidence_again accepted_not_bool receipt_not_object receipt_invalid gates_open : TransitionReason
  skip_not_ready no_condition skip_not_preserving unit_cannot_fail failure_reason_empty :
      TransitionReason
  unknown_event_type kernel_managed approval_not_implemented cannot_complete : TransitionReason

-- The messages of LedgerError.
pub data LedgerReason : Type 0 where
  blank_line invalid_json line_not_object unsupported_schema sequence_gap : LedgerReason
  missing_execution_id missing_event_type event_payload_not_object : LedgerReason
  append_id_empty append_type_empty payload_not_serializable already_exists use_create :
      LedgerReason
  does_not_exist no_such_execution first_not_created plan_digest_mismatch : LedgerReason
  unit_ref_missing unknown_event : LedgerReason

-- The messages of CompileError, with the ids that say where.
pub data CompileReason : Type 0 where
  unknown_need : (flow stage need : String) → CompileReason
  cycle_involving : (flow : String) → (blocked : List String) → CompileReason
  flow_and_entrypoint several_flows : CompileReason
  unknown_entrypoint unknown_flow : (id : String) → CompileReason

-- A place in a document, from `$` on.
pub data PathPart : Type 0 where
  key : String → PathPart
  index : ℕ → PathPart

-- The messages of ValidationIssue.
pub data IssueMessage : Type 0 where
  structural invalid_embedded_schema : (message : String) → IssueMessage
  no_such_file : (path : String) → IssueMessage
  invalid_yaml : (message : String) → IssueMessage
  duplicate_id : (id : String) (first : ℕ) → IssueMessage
  no_such_policy no_such_capability no_such_role no_such_evidence : (id : String) → IssueMessage
  no_such_stage : (need flow : String) → IssueMessage
  no_such_flow : (id : String) → IssueMessage
  schema_required role_required : IssueMessage
  role_lacks : (role capability : String) → IssueMessage
  needs_itself : IssueMessage
  evidence_needed : (policy : String) → IssueMessage
  over_required over_forbidden when_too_long when_not_declarative : IssueMessage
  cycle_among : List String → IssueMessage

pub record ValidationIssue : Type 0 where
  pub path : List PathPart
  pub message : IssueMessage

-- `no_rounds_left` is no exception of the code: by it a loop of the model says that its bound on
-- the rounds was too small, which never happens (see Compiler/Rounds and Loader/Bound).
pub data Exception : Type 0 where
  transition_error : TransitionReason → Exception
  compile_error : CompileReason → Exception
  -- DomainPackValidationError, with its issues in the order in which they are found. The code sorts
  -- them by their texts.
  pack_invalid : List ValidationIssue → Exception
  no_rounds_left : Exception
  ledger_error : LedgerReason → Exception
  -- The LedgerError by which `replay` passes on the exception that an event raised.
  invalid_event_sequence : (sequence : ℕ) (event_type : String) → Exception → Exception
  key_error : String → Exception
  type_error value_error : Exception

-- A call that returns or raises.
pub data Result {ℓ} (A : Type ℓ) : Type ℓ where
  ok : A → Result A
  raise : Exception → Result A

abbrev pub refuse {ℓ} : {A : Type ℓ} → TransitionReason → Result A
refuse r = raise (transition_error r)

-- What stands behind a call that raised is not run.
infixl 5 ◌>>=◌
abbrev pub ◌>>=◌ {ℓ κ} :
    {A : Type ℓ} {B : Type κ} → (call : Result A) → (behind : A → Result B) → Result B
raise e >>= behind = raise e
ok a >>= behind = behind a

infixl 5 ◌>>◌
abbrev pub ◌>>◌ {ℓ} : {B : Type ℓ} → (call : Result (Unit {0})) → (behind : Result B) → Result B
call >> behind = call >>= λ _. behind

-- `if not test: raise e`
abbrev pub require : Bool → Exception → Result (Unit {0})
require true e = ok tt
require false e = raise e

-- `if test: raise TransitionError(reason)`
abbrev pub refuse_if : Bool → TransitionReason → Result (Unit {0})
refuse_if true r = refuse r
refuse_if false r = ok tt

-- Inversion of a chain that returns.
pub >>=-eq-ok {ℓ κ} :
    {A : Type ℓ} {B : Type κ} (call : Result A) (behind : A → Result B) {b : B}
    → (call >>= behind) ≡ ok b
    → (a : A) × (call ≡ ok a) × (behind a ≡ ok b)
>>=-eq-ok (raise e) behind returned = cc
>>=-eq-ok (ok a) behind returned = (a, refl, returned)

pub require-eq-ok : (b : Bool) (e : Exception) {u : Unit {0}} → require b e ≡ ok u → b ≡ true
require-eq-ok true e h = refl
require-eq-ok false e h = cc

pub refuse_if-eq-ok :
    (b : Bool) (r : TransitionReason) {u : Unit {0}} → refuse_if b r ≡ ok u → b ≡ false
refuse_if-eq-ok true r h = cc
refuse_if-eq-ok false r h = refl

pub Result-cases {ℓ} :
    {A : Type ℓ} (r : Result A) → ((a : A) × (r ≡ ok a)) ⊎ ((e : Exception) × (r ≡ raise e))
Result-cases (ok a) = inl (a, refl)
Result-cases (raise e) = inr (e, refl)

pub ok-injective {ℓ} : {A : Type ℓ} {a b : A} → ok a ≡ ok b → a ≡ b
ok-injective h = cc
