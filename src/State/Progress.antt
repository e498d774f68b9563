-- ===== src/State/Progress.antt =====
-- `_apply_event` behind `_validate_event`: an event that passes the tests is applied.
use contractplane.Prelude.{◌≡◌, refl, ◌≢◌, inl, inr, true, arith}
use contractplane.Json.{Fields}
use contractplane.Errors.{ok, Result-cases}
use contractplane.State.{Machine}
use contractplane.State.Kind.{
  EventKind, execution_created, execution_started, execution_succeeded, execution_failed,
  execution_cancelled, stage_sealed, unit_registered, unknown_kind,
}
use contractplane.State.Validate.{
  validate_unit, validate_in_stage, validate_running, validate_created, validate,
}
use contractplane.State.Apply.{apply_unit, apply}
use contractplane.State.Step.{Context}
use contractplane.State.UnitStep.{is_unit_event, validate-Admitted, apply-Admitted}
use contractplane.State.Lifecycle.{apply_unit-ne-raise}
use contractplane.State.GroupStep.{
  validate-Registering, validate-Sealing, apply-Registering, apply-Sealing,
}

module _ (c : Context) where
  open c use {platform, plan}

  validate-unknown_kind :
      (p : Fields) (m : Machine) → validate platform plan unknown_kind p m ≢ ok tt
  unfolding validate validate_created validate_running validate_in_stage validate_unit
  validate-unknown_kind p m h = ground arith

  apply-total_of_unit :
      (kind : EventKind) (p : Fields) (m : Machine)
      → is_unit_event kind ≡ true
      → validate platform plan kind p m ≡ ok tt
      → (after : Machine) × (apply plan kind p m ≡ ok after)
  apply-total_of_unit kind p m k v =
      let a = validate-Admitted c kind p m k v in
      elim (Result-cases (apply_unit kind p a.unit)) [
        | inl (u, e) ↦ (_, apply-Admitted c kind p m a u k e)
        | inr (x, e) ↦ absurd (apply_unit-ne-raise platform a.contract kind p a.unit x a.valid e)
      ]

  -- If `_validate_event` accepts an event, then `_apply_event` applies it and does not raise.
  pub apply-total :
      (kind : EventKind) (p : Fields) (m : Machine)
      → validate platform plan kind p m ≡ ok tt
      → (after : Machine) × (apply plan kind p m ≡ ok after)
  unfolding apply
  apply-total execution_created p m v = (_, refl)
  apply-total execution_started p m v = (_, refl)
  apply-total execution_succeeded p m v = (_, refl)
  apply-total execution_failed p m v = (_, refl)
  apply-total execution_cancelled p m v = (_, refl)
  apply-total stage_sealed p m v = (_, apply-Sealing c p m (validate-Sealing c p m v))
  apply-total unit_registered p m v = (_, apply-Registering c p m (validate-Registering c p m v))
  apply-total unknown_kind p m v = absurd (validate-unknown_kind p m v)
  apply-total kind p m v = apply-total_of_unit kind p m refl v
