-- ===== src/State/Lifecycle.antt =====
-- The life of one work unit: what a validated event does to its status, its attempts and its
-- evidence.
use contractplane.Prelude.Dict
use contractplane.Prelude.{
  ◌≤◌, ◌<◌, String, ◌≡◌, refl, sym, ap, ◌∙◌, ◌≢◌, inl, inr, Bool, true, false, none, some, List, [],
  ◌∷◌, arith, ◌==◌, eq_iff, Bool-cases, all, is_empty,
}
use contractplane.Prelude.Dict.{
  Dict, keys, values, has, index_onto, index_by, dict_laws, get-put, get-put_self, get_of_all,
  all-put,
}
use contractplane.Json.{str, obj, Fields}
use contractplane.Errors.{Exception, ok, raise}
use contractplane.Models.{Evidence}
use contractplane.Plan.{CompiledStage}
use contractplane.Platform.{Platform}
use contractplane.State.Recorded.{validate-Recorded}
use contractplane.State.{
  UnitStatus, pending, awaiting_authorization, ready, claimed, awaiting_evidence, completed,
  skipped, UnitRef, Receipt, WorkUnitState, is_completed, is_accepted, gates_accepted, new_unit,
}
use contractplane.State.Kind.{EventKind, unit_ready, evidence_recorded, unit_completed}
use contractplane.State.Validate.{evidence_contract, receipt_valid, validate_unit}
use contractplane.State.Apply.{apply_unit, cancel_unit}

-- The transitions that the statuses of a work unit are meant to make.
abbrev pub may_follow : UnitStatus → UnitStatus → Bool
may_follow pending awaiting_authorization = true
may_follow pending ready = true
may_follow awaiting_authorization ready = true
may_follow awaiting_authorization UnitStatus.failed = true
may_follow ready UnitStatus.running = true
may_follow ready skipped = true
may_follow UnitStatus.running claimed = true
may_follow UnitStatus.running UnitStatus.failed = true
may_follow claimed awaiting_evidence = true
may_follow claimed completed = true
may_follow claimed UnitStatus.failed = true
may_follow awaiting_evidence awaiting_evidence = true
may_follow awaiting_evidence completed = true
may_follow awaiting_evidence UnitStatus.failed = true
may_follow UnitStatus.failed awaiting_authorization = true
may_follow UnitStatus.failed ready = true
may_follow _ _ = false

-- The unit was started at least once.
abbrev pub has_run : UnitStatus → Bool
has_run UnitStatus.running = true
has_run claimed = true
has_run awaiting_evidence = true
has_run completed = true
has_run _ = false

abbrev is_recorded : EventKind → Bool
is_recorded evidence_recorded = true
is_recorded _ = false

get-nil {ℓ} : {V : Type ℓ} (k : String) → Dict.get {V = V} [] k ≡ none
unfolding Dict.get
get-nil k = refl

module _ (platform : Platform) where
  -- A receipt that is accepted satisfies the schema of the contract with its id.
  abbrev pub IsVerified : CompiledStage → String → Receipt → Type 0
  IsVerified contract id receipt =
      receipt.accepted ≡ true
      → (e : Evidence) × (evidence_contract contract (str id) ≡ ok e)
        × (receipt_valid platform e.schema receipt.payload ≡ true)

  abbrev pub AllVerified : CompiledStage → Dict Receipt → Type 0
  AllVerified contract evidence =
      (id : String) (receipt : Receipt)
      → Dict.get evidence id ≡ some receipt
      → IsVerified contract id receipt

  pub record IsSound (contract : CompiledStage) (unit : WorkUnitState) : Type 0 where
    pub bounded : unit.attempts ≤ contract.policy.max_attempts
    pub started : has_run unit.status ≡ true → 0 < unit.attempts
    pub gated : is_completed unit.status ≡ true → gates_accepted contract unit ≡ true
    pub verified :
        (id : String) (receipt : Receipt)
        → Dict.get unit.evidence id ≡ some receipt
        → IsVerified contract id receipt

module _ (platform : Platform) (contract : CompiledStage) where
  evidence_recorded_ne_raise :
      (p : Fields) (unit : WorkUnitState) (e : Exception)
      → validate_unit platform evidence_recorded p contract unit ≡ ok tt
      → apply_unit evidence_recorded p unit ≢ raise e
  unfolding apply_unit
  evidence_recorded_ne_raise p unit e v h =
      let r = validate-Recorded platform contract p unit v in
      ground (arith, r.id_field, r.accepted_field, r.receipt_field)

  -- A validated event is applied: `_apply_event` does not raise.
  pub apply_unit-ne-raise :
      (kind : EventKind) (p : Fields) (unit : WorkUnitState) (e : Exception)
      → validate_unit platform kind p contract unit ≡ ok tt
      → apply_unit kind p unit ≡ raise e
      → ⊥
  unfolding validate_unit apply_unit
  apply_unit-ne-raise evidence_recorded p unit e v h = evidence_recorded_ne_raise p unit e v h
  apply_unit-ne-raise unit_ready p unit e v h = cc
  apply_unit-ne-raise _ p unit e v h = ground arith

  -- The status of the unit goes along one of the transitions.
  pub apply_unit-may_follow :
      (kind : EventKind) (p : Fields) (unit after : WorkUnitState)
      → validate_unit platform kind p contract unit ≡ ok tt
      → apply_unit kind p unit ≡ ok after
      → may_follow unit.status after.status ≡ true
  unfolding validate_unit apply_unit
  apply_unit-may_follow unit_ready p unit after v h = ground arith
  apply_unit-may_follow _ p unit after v h = ground arith

all_of_empty {ℓ} : {A : Type ℓ} (f : A → Bool) (xs : List A) → is_empty xs ≡ true → all f xs ≡ true
all_of_empty f [] h = refl
all_of_empty f (x ∷ xs) h = cc

module _ (platform : Platform) (contract : CompiledStage) where
  apply_unit_bounded :
      (kind : EventKind) (p : Fields) (unit after : WorkUnitState)
      → validate_unit platform kind p contract unit ≡ ok tt
      → apply_unit kind p unit ≡ ok after
      → unit.attempts ≤ contract.policy.max_attempts
      → (has_run unit.status ≡ true → 0 < unit.attempts)
      → (after.attempts ≤ contract.policy.max_attempts)
        × (has_run after.status ≡ true → 0 < after.attempts)
  unfolding validate_unit apply_unit
  apply_unit_bounded unit_ready p unit after v h b s = ground arith
  apply_unit_bounded _ p unit after v h b s = ground arith

  apply_unit_gated :
      (kind : EventKind) (p : Fields) (unit after : WorkUnitState)
      → validate_unit platform kind p contract unit ≡ ok tt
      → apply_unit kind p unit ≡ ok after
      → is_completed after.status ≡ true
      → gates_accepted contract after ≡ true
  unfolding validate_unit apply_unit
  apply_unit_gated unit_completed p unit after v h done =
      ground (arith, all_of_empty (is_accepted unit.evidence) contract.requires_evidence)
  apply_unit_gated unit_ready p unit after v h done = ground arith
  apply_unit_gated _ p unit after v h done = ground arith

  -- Every other event keeps the evidence or drops all of it.
  get-evidence_kept :
      (kind : EventKind) (p : Fields) (unit after : WorkUnitState) (id : String) (receipt : Receipt)
      → is_recorded kind ≡ false
      → apply_unit kind p unit ≡ ok after
      → Dict.get after.evidence id ≡ some receipt
      → Dict.get unit.evidence id ≡ some receipt
  unfolding apply_unit
  get-evidence_kept unit_ready p unit after id receipt k h got =
      ground (arith, get-nil {V = Receipt} id)
  get-evidence_kept evidence_recorded p unit after id receipt k h got = cc
  get-evidence_kept _ p unit after id receipt k h got = ground (arith, get-nil {V = Receipt} id)

  verified_after_recording :
      (p : Fields) (unit after : WorkUnitState)
      → validate_unit platform evidence_recorded p contract unit ≡ ok tt
      → apply_unit evidence_recorded p unit ≡ ok after
      → AllVerified platform contract unit.evidence
      → AllVerified platform contract after.evidence
  unfolding apply_unit
  verified_after_recording p unit after v h w id receipt got accepted =
      let r = validate-Recorded platform contract p unit v in
      let put : after.evidence
          ≡ Dict.put unit.evidence r.evidence.id
              (record { accepted = r.accepted; payload = obj r.receipt }) =
        ground (arith, r.id_field, r.accepted_field, r.receipt_field) in
      let found =
        sym (get-put unit.evidence r.evidence.id id _) ∙ ap (λ d. Dict.get d id) (sym put) ∙ got in
      elim (Bool-cases (r.evidence.id == id)) [
        | inl same ↦
            (r.evidence, rw (← (eq_iff r.evidence.id id).0 same) r.planned, ground (arith, r.valid))
        | inr other ↦ w id receipt (ground arith) accepted
      ]

  apply_unit_verified :
      (kind : EventKind) (p : Fields) (unit after : WorkUnitState)
      → validate_unit platform kind p contract unit ≡ ok tt
      → apply_unit kind p unit ≡ ok after
      → AllVerified platform contract unit.evidence
      → AllVerified platform contract after.evidence
  apply_unit_verified evidence_recorded p unit after v h w =
      verified_after_recording p unit after v h w
  apply_unit_verified unit_ready p unit after v h w = λ id receipt got.
      w id receipt (get-evidence_kept unit_ready p unit after id receipt refl h got)
  apply_unit_verified kind p unit after v h w =
      λ id receipt got. w id receipt (get-evidence_kept kind p unit after id receipt refl h got)

  -- A validated event keeps a unit sound.
  pub apply_unit-IsSound :
      (kind : EventKind) (p : Fields) (unit after : WorkUnitState)
      → validate_unit platform kind p contract unit ≡ ok tt
      → apply_unit kind p unit ≡ ok after
      → IsSound platform contract unit
      → IsSound platform contract after
  apply_unit-IsSound kind p unit after v h s =
      let (bounded, started) = apply_unit_bounded kind p unit after v h s.bounded s.started in
      record {
        bounded = bounded;
        started = started;
        gated = apply_unit_gated kind p unit after v h;
        verified = apply_unit_verified kind p unit after v h s.verified;
      }

  pub new_unit-IsSound : (ref : UnitRef) → IsSound platform contract (new_unit ref)
  new_unit-IsSound ref = record {
    bounded = omega arith;
    started = λ h. cc;
    gated = λ h. cc;
    verified = λ id receipt got. cc (get-nil {V = Receipt} id);
  }

  -- Cancelling a unit keeps it sound.
  pub cancel_unit-IsSound :
      (unit : WorkUnitState)
      → IsSound platform contract unit
      → IsSound platform contract (cancel_unit unit)
  unfolding gates_accepted
  cancel_unit-IsSound unit s = record {
    bounded = ground (arith, s.bounded);
    started = ground (arith, s.started);
    gated = ground (arith, s.gated);
    verified =
        let same : (cancel_unit unit).evidence ≡ unit.evidence = ground arith in
        λ id receipt got. s.verified id receipt (sym (ap (λ d. Dict.get d id) same) ∙ got);
  }
