-- ===== src/State/Transitions.antt =====
-- The steps of the work units: what one event does to each of them.
use contractplane.Prelude.Dict
use contractplane.Prelude.{
  String, ◌≡◌, refl, sym, ap, ◌∙◌, subst, inl, inr, true, false, ◌&&◌, some, arith, ◌==◌, eq_iff,
  Bool-cases,
}
use contractplane.Json.{Fields}
use contractplane.Errors.{ok, ok-injective}
use contractplane.State.{UnitRef, WorkUnitState, StageGroupState, Machine, find_unit, new_unit}
use contractplane.State.Kind.{
  EventKind, execution_created, execution_started, execution_succeeded, execution_failed,
  execution_cancelled, stage_sealed, unit_registered, unknown_kind,
}
use contractplane.State.Validate.{validate}
use contractplane.State.Apply.{put_group, put_unit, cancel_unit, map_values, cancel_group, apply}
use contractplane.State.Step.{Context, step}
use contractplane.State.UnitStep.{is_unit_event, find_unit-eq-get, validate-Admitted, apply-changed}
use contractplane.State.GroupStep.{
  validate-Registering, validate-Sealing, apply-Registering, apply-Sealing,
}
use contractplane.State.Units.{find_unit-cancelled, find_unit-put_unit, find_unit-put_same}
use contractplane.State.Lifecycle.{may_follow, apply_unit-may_follow}
use contractplane.State.Reachable.{step-eq-ok}

-- What an event may do to a unit.
pub data Moved (before after : WorkUnitState) : Type 0 where
  stayed : after ≡ before → Moved before after
  stepped : may_follow before.status after.status ≡ true → Moved before after
  closed : after ≡ cancel_unit before → Moved before after

-- The unit is still there, and has moved.
pub UnitMoved : Machine → UnitRef → WorkUnitState → Type 0
UnitMoved after ref unit = (u : WorkUnitState) × (find_unit after ref ≡ some u) × Moved unit u

module _ (m : Machine) (ref : UnitRef) (unit : WorkUnitState)
    (at : find_unit m ref ≡ some unit) where
  UnitMoved-same :
      (after : Machine) → find_unit after ref ≡ find_unit m ref → UnitMoved after ref unit
  unfolding UnitMoved
  UnitMoved-same after same = (unit, same ∙ at, stayed refl)

  UnitMoved-cancelled :
      (after : Machine)
      → after.stage_groups ≡ map_values cancel_group m.stage_groups
      → UnitMoved after ref unit
  unfolding UnitMoved
  UnitMoved-cancelled after h =
      (cancel_unit unit, find_unit-cancelled m after ref h ∙ rw at refl, closed refl)

  -- A unit is written under a reference at which nothing was, or which held a unit that moves to
  -- it.
  UnitMoved-put_unit :
      (r : UnitRef) (group : StageGroupState) (u : WorkUnitState)
      → Dict.get m.stage_groups r.stage_id ≡ some group
      → ((old : WorkUnitState) → Dict.get group.units r.unit_key ≡ some old → Moved old u)
      → UnitMoved (put_group r.stage_id (put_unit r u group) m) ref unit
  unfolding UnitMoved
  UnitMoved-put_unit r group u found moves =
      let e = find_unit-put_unit m r group u ref found in
      elim (Bool-cases (r.stage_id == ref.stage_id && r.unit_key == ref.unit_key)) [
        | inl here ↦
            let stage : r.stage_id ≡ ref.stage_id =
              ground (arith, eq_iff r.stage_id ref.stage_id) in
            let key : r.unit_key ≡ ref.unit_key = ground (arith, eq_iff r.unit_key ref.unit_key) in
            (
              u,
              e ∙ rw here refl,
              moves unit (
                  rw key (
                    sym (
                      find_unit-eq-get m ref group
                        (ap (Dict.get m.stage_groups) (sym stage) ∙ found))
                    ∙ at)),
            )
        | inr elsewhere ↦ (unit, e ∙ rw elsewhere at, stayed refl)
      ]

absent-there :
    (d : Dict.Dict WorkUnitState) (k : String) (u : WorkUnitState)
    → Dict.has d k ≡ false
    → Dict.get d k ≡ some u
    → ⊥
absent-there d k u h at = ground arith

module _ (c : Context) where
  open c use {platform, plan}

  UnitMoved-unit_event :
      (kind : EventKind) (p : Fields) (m after : Machine) (ref : UnitRef) (unit : WorkUnitState)
      → is_unit_event kind ≡ true
      → find_unit m ref ≡ some unit
      → validate platform plan kind p m ≡ ok tt
      → apply plan kind p m ≡ ok after
      → UnitMoved after ref unit
  UnitMoved-unit_event kind p m after ref unit k at v h =
      let a = validate-Admitted c kind p m k v in
      let (u, changed, result) = apply-changed c kind p m after a k h in
      subst (λ x. UnitMoved x ref unit) (sym result)
        (UnitMoved-put_unit m ref unit at a.ref a.group u a.group_found λ old there.
          let same : a.unit ≡ old = ground (arith, a.unit_found) in
          subst (λ x. Moved x u) same
            (stepped (apply_unit-may_follow platform a.contract kind p a.unit u a.valid changed)))

  -- What a validated event leaves of a unit.
  step-UnitMoved :
      (kind : EventKind) (p : Fields) (m after : Machine) (ref : UnitRef) (unit : WorkUnitState)
      → find_unit m ref ≡ some unit
      → validate platform plan kind p m ≡ ok tt
      → apply plan kind p m ≡ ok after
      → UnitMoved after ref unit
  unfolding apply find_unit
  step-UnitMoved execution_created p m after ref unit at v h =
      UnitMoved-same m ref unit at after (ap (λ x. find_unit x ref) (sym (ok-injective h)))
  step-UnitMoved execution_started p m after ref unit at v h =
      UnitMoved-same m ref unit at after (ap (λ x. find_unit x ref) (sym (ok-injective h)))
  step-UnitMoved execution_succeeded p m after ref unit at v h =
      UnitMoved-same m ref unit at after (ap (λ x. find_unit x ref) (sym (ok-injective h)))
  step-UnitMoved execution_failed p m after ref unit at v h =
      UnitMoved-same m ref unit at after (ap (λ x. find_unit x ref) (sym (ok-injective h)))
  step-UnitMoved execution_cancelled p m after ref unit at v h =
      UnitMoved-cancelled m ref unit at after (ap (λ x. x.stage_groups) (sym (ok-injective h)))
  step-UnitMoved stage_sealed p m after ref unit at v h =
      let s = validate-Sealing c p m v in
      subst (λ x. UnitMoved x ref unit) (ok-injective (sym (apply-Sealing c p m s) ∙ h))
        (UnitMoved-same m ref unit at _
          (find_unit-put_same m s.stage_id s.group _ ref s.group_found refl))
  step-UnitMoved unit_registered p m after ref unit at v h =
      let r = validate-Registering c p m v in
      subst (λ x. UnitMoved x ref unit) (ok-injective (sym (apply-Registering c p m r) ∙ h))
        (UnitMoved-put_unit m ref unit at r.ref r.group (new_unit r.ref) r.group_found
          λ old there. absurd (absent-there r.group.units r.ref.unit_key old r.absent there))
  step-UnitMoved unknown_kind p m after ref unit at v h = cc
  step-UnitMoved kind p m after ref unit at v h =
      UnitMoved-unit_event kind p m after ref unit refl at v h

  -- An event that is validated and applied never removes a unit; the unit stays as it is, goes
  -- along one of the transitions of `may_follow`, or is cancelled as `execution.cancelled` does.
  pub step_moves :
      (kind : EventKind) (p : Fields) (m after : Machine) (ref : UnitRef) (unit : WorkUnitState)
      → step c kind p m ≡ ok after
      → find_unit m ref ≡ some unit
      → UnitMoved after ref unit
  step_moves kind p m after ref unit h at =
      let (v, a) = step-eq-ok c kind p m after h in step-UnitMoved kind p m after ref unit at v a
