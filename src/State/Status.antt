-- ===== src/State/Status.antt =====
-- The status of the execution: when it may change, and what it says of the work units.
use contractplane.Prelude.{◌≡◌, refl, sym, ap, ◌∙◌, subst, Bool, true, false, not, some, arith}
use contractplane.Json.{Json, Fields}
use contractplane.Errors.{
  unknown_unit, created_not_first, fail_not_running, fail_without_failed_unit, ok, refuse_if,
  >>=-eq-ok, refuse_if-eq-ok, ok-injective,
}
use contractplane.State.{
  new_machine, ExecutionStatus, created, succeeded, UnitStatus, UnitRef, WorkUnitState, Machine,
  is_failed, in_created, in_running, ref_from_payload, find_unit, all_work_satisfied,
  stage_contract, unit_at,
}
use contractplane.State.Kind.{
  EventKind, execution_created, execution_started, execution_succeeded, execution_failed,
  execution_cancelled, stage_sealed, unit_registered, unknown_kind,
}
use contractplane.State.Validate.{validate_created, validate}
use contractplane.State.Apply.{
  put_group, is_final_unit, cancel_unit, map_values, cancel_group, apply,
}
use contractplane.State.Step.{Context, applied}
use contractplane.State.UnitStep.{is_unit_event, or_refuse-eq-ok, validate-Admitted, apply-changed}
use contractplane.State.Units.{find_unit-cancelled, map-eq-some}
use contractplane.State.GroupStep.{
  validate-Registering, validate-Sealing, apply-Registering, apply-Sealing,
}

-- The execution has not ended.
abbrev pub is_live : ExecutionStatus → Bool
is_live created = true
is_live ExecutionStatus.running = true
is_live _ = false

-- The unit is in a final status, or was cancelled.
abbrev pub is_closed_unit : UnitStatus → Bool
is_closed_unit UnitStatus.cancelled = true
is_closed_unit s = is_final_unit s

-- What the status of an execution says of its units.
pub record IsSettled (m : Machine) : Type 0 where
  pub started : in_created m.status ≡ false → m.created_applied ≡ true
  pub success : m.status ≡ succeeded → all_work_satisfied m ≡ true
  pub failure :
      m.status ≡ ExecutionStatus.failed
      → (ref : UnitRef) × (unit : WorkUnitState) × (find_unit m ref ≡ some unit)
        × (is_failed unit.status ≡ true)
  pub cancellation :
      m.status ≡ ExecutionStatus.cancelled
      → (ref : UnitRef) (unit : WorkUnitState) → find_unit m ref ≡ some unit
      → is_closed_unit unit.status ≡ true

live-IsSettled : (m : Machine) → is_live m.status ≡ true → m.created_applied ≡ true → IsSettled m
live-IsSettled m live done = record {
  started = λ _. done;
  success = λ h. cc;
  failure = λ h. cc;
  cancellation = λ h. cc;
}

pub new_machine-IsSettled : (c : Context) → IsSettled (new_machine c.plan)
unfolding new_machine
new_machine-IsSettled c = record {
  started = λ h. cc;
  success = λ h. cc;
  failure = λ h. cc;
  cancellation = λ h. cc;
}

module _ (c : Context) where
  open c use {platform, plan}

  -- No event is accepted once the execution has ended.
  pub validate-live :
      (kind : EventKind) (p : Fields) (m : Machine)
      → IsSettled m
      → validate platform plan kind p m ≡ ok tt
      → is_live m.status ≡ true
  unfolding validate validate_created
  validate-live execution_created p m s v = ground (arith, s.started)
  validate-live execution_started p m s v = ground arith
  validate-live execution_succeeded p m s v = ground arith
  validate-live execution_failed p m s v = ground arith
  validate-live execution_cancelled p m s v = ground arith
  validate-live _ p m s v = ground arith

  -- Neither a stage's event nor a unit's changes the status.
  abbrev is_inner : EventKind → Bool
  is_inner stage_sealed = true
  is_inner unit_registered = true
  is_inner kind = is_unit_event kind

  apply-inner :
      (kind : EventKind) (p : Fields) (m after : Machine)
      → is_inner kind ≡ true
      → validate platform plan kind p m ≡ ok tt
      → apply plan kind p m ≡ ok after
      → (after.status ≡ m.status) × (after.created_applied ≡ m.created_applied)
  unfolding put_group
  apply-inner stage_sealed p m after k v h =
      let s = validate-Sealing c p m v in
      let result = ok-injective (sym (apply-Sealing c p m s) ∙ h) in
      (sym (ap (λ x. x.status) result), sym (ap (λ x. x.created_applied) result))
  apply-inner unit_registered p m after k v h =
      let r = validate-Registering c p m v in
      let result = ok-injective (sym (apply-Registering c p m r) ∙ h) in
      (sym (ap (λ x. x.status) result), sym (ap (λ x. x.created_applied) result))
  apply-inner kind p m after k v h =
      let a = validate-Admitted c kind p m k v in
      let (_, _, result) = apply-changed c kind p m after a k h in
      (ap (λ x. x.status) result, ap (λ x. x.created_applied) result)

  abbrev is_creation : EventKind → Bool
  is_creation execution_created = true
  is_creation _ = false

  inner-is_creation : (kind : EventKind) → is_inner kind ≡ true → is_creation kind ≡ false
  inner-is_creation execution_created k = cc
  inner-is_creation _ k = refl

  validate-created_applied :
      (kind : EventKind) (p : Fields) (m : Machine)
      → is_creation kind ≡ false
      → validate platform plan kind p m ≡ ok tt
      → m.created_applied ≡ true
  unfolding validate
  validate-created_applied execution_created p m k v = cc
  validate-created_applied _ p m k v = ground arith

  IsSettled-inner :
      (kind : EventKind) (p : Fields) (m after : Machine)
      → is_inner kind ≡ true
      → validate platform plan kind p m ≡ ok tt
      → apply plan kind p m ≡ ok after
      → IsSettled m
      → IsSettled after
  IsSettled-inner kind p m after k v h s =
      let (status, applied) = apply-inner kind p m after k v h in
      live-IsSettled after (ap is_live status ∙ validate-live kind p m s v)
        (applied ∙ validate-created_applied kind p m (inner-is_creation kind k) v)

  success-IsSettled :
      (p : Fields) (m : Machine)
      → validate platform plan execution_succeeded p m ≡ ok tt
      → IsSettled (record m { status = succeeded })
  unfolding validate validate_created all_work_satisfied
  success-IsSettled p m v = record {
    started = λ h. ground arith;
    success = λ h. ground arith;
    failure = λ h. cc;
    cancellation = λ h. cc;
  }

  failure-IsSettled :
      (p : Fields) (m : Machine) (reason : Json)
      → validate platform plan execution_failed p m ≡ ok tt
      → IsSettled (record m { status = ExecutionStatus.failed; failure = reason })
  unfolding validate validate_created unit_at find_unit
  failure-IsSettled p m reason v =
      let (_, applied, v₁) = >>=-eq-ok (refuse_if (not m.created_applied) created_not_first) _ v in
      let (_, runs, v₂) = >>=-eq-ok (refuse_if (not (in_running m.status)) fail_not_running) _ v₁ in
      let (ref, named, v₃) = >>=-eq-ok (ref_from_payload p) _ v₂ in
      let (unit, at, v₄) = >>=-eq-ok (unit_at plan m ref) _ v₃ in
      let (_, is_bad, v₅) =
        >>=-eq-ok (refuse_if (not (is_failed unit.status)) fail_without_failed_unit) _ v₄ in
      let (_, _, at') = >>=-eq-ok (stage_contract plan ref.stage_id) _ at in
      record {
        started = λ h. ground (arith, refuse_if-eq-ok _ _ applied);
        success = λ h. cc;
        failure = λ _. (
          ref,
          unit,
          or_refuse-eq-ok unknown_unit _ at',
          ground (arith, refuse_if-eq-ok _ _ is_bad),
        );
        cancellation = λ h. cc;
      }

  cancellation-IsSettled :
      (m : Machine) (reason : Json)
      → m.created_applied ≡ true
      → IsSettled (record m {
        status = ExecutionStatus.cancelled;
        failure = reason;
        stage_groups = map_values cancel_group m.stage_groups;
      })
  cancellation-IsSettled m reason applied = record {
    started = λ h. applied;
    success = λ h. cc;
    failure = λ h. cc;
    cancellation = λ _ ref unit at.
        let (before, _, same) =
          map-eq-some cancel_unit (find_unit m ref) (sym (find_unit-cancelled m _ ref refl) ∙ at) in
        ground (arith, same);
  }

  pub IsSettled-step :
      (kind : EventKind) (p : Fields) (m after : Machine)
      → validate platform plan kind p m ≡ ok tt
      → apply plan kind p m ≡ ok after
      → IsSettled m
      → IsSettled after
  unfolding apply
  IsSettled-step execution_created p m after v h s =
      live-IsSettled after (ground arith) (ground arith)
  IsSettled-step execution_started p m after v h s = live-IsSettled after (ground arith) (
      ap (λ x. x.created_applied) (sym (ok-injective h))
      ∙ validate-created_applied execution_started p m refl v)
  IsSettled-step execution_succeeded p m after v h s =
      subst IsSettled (ok-injective h) (success-IsSettled p m v)
  IsSettled-step execution_failed p m after v h s =
      subst IsSettled (ok-injective h) (failure-IsSettled p m _ v)
  IsSettled-step execution_cancelled p m after v h s =
      subst IsSettled (ok-injective h)
        (cancellation-IsSettled m _ (validate-created_applied _ p m refl v))
  IsSettled-step unknown_kind p m after v h s = cc
  IsSettled-step kind p m after v h s = IsSettled-inner kind p m after refl v h s
