-- ===== src/State/Units.antt =====
-- Invariants of single work units, carried to all units of a machine.
use contractplane.Prelude.Dict
use mathlib.Core.Option
use contractplane.Prelude.{
  String, ◌≡◌, refl, sym, ap, ◌∙◌, subst, inl, inr, true, ◌&&◌, Option, none, some, [], ◌∷◌, arith,
  ◌==◌, eq_iff, if◌then◌else◌, Bool-cases,
}
use contractplane.Prelude.Dict.{
  Dict, keys, values, has, index_onto, index_by, dict_laws, get-put, get-put_self, get_of_all,
  all-put,
}
use contractplane.Json.{Fields}
use contractplane.Errors.{ok-injective, ok}
use contractplane.Plan.{CompiledStage}
use contractplane.State.{
  UnitRef, WorkUnitState, StageGroupState, Machine, unit_in, find_unit, new_unit, stage_contract,
}
use contractplane.State.Kind.{
  EventKind, execution_created, execution_started, execution_succeeded, execution_failed,
  execution_cancelled, stage_sealed, unit_registered, unknown_kind,
}
use contractplane.State.Validate.{validate_unit, validate}
use contractplane.State.Apply.{
  apply_unit, put_group, put_unit, cancel_unit, map_values, cancel_group, apply,
}
use contractplane.State.Step.{Context}
use contractplane.State.UnitStep.{apply-changed, is_unit_event, find_unit-eq-get, validate-Admitted}
use contractplane.State.GroupStep.{
  validate-Registering, validate-Sealing, apply-Registering, apply-Sealing,
}

pub get-map_values {ℓ} :
    {V : Type ℓ} (f : V → V) (d : Dict V) (k : String)
    → Dict.get (map_values f d) k ≡ Option.map f (Dict.get d k)
unfolding map_values Dict.get
get-map_values f [] k = refl
get-map_values f ((j, v) ∷ d) k = ground (arith, get-map_values f d k)

-- The units after a group is written back.
pub find_unit-put_group :
    (m : Machine) (id : String) (group : StageGroupState) (ref : UnitRef)
    → find_unit (put_group id group m) ref
      ≡ (if id == ref.stage_id then Dict.get group.units ref.unit_key else find_unit m ref)
unfolding find_unit put_group
find_unit-put_group m id group ref = ground (arith, get-put m.stage_groups id ref.stage_id group)

-- The units after a unit of a group is written back.
pub find_unit-put_unit :
    (m : Machine) (ref : UnitRef) (group : StageGroupState) (u : WorkUnitState) (r : UnitRef)
    → Dict.get m.stage_groups ref.stage_id ≡ some group
    → find_unit (put_group ref.stage_id (put_unit ref u group) m) r
      ≡ (if ref.stage_id == r.stage_id && ref.unit_key == r.unit_key then some u else find_unit m r)
unfolding put_unit find_unit
find_unit-put_unit m ref group u r h = ground (
  arith,
  find_unit-put_group m ref.stage_id (put_unit ref u group) r,
  get-put group.units ref.unit_key r.unit_key u,
  eq_iff ref.stage_id r.stage_id,
)

-- The units after a group is written back with the units that it had.
pub find_unit-put_same :
    (m : Machine) (id : String) (group after : StageGroupState) (r : UnitRef)
    → Dict.get m.stage_groups id ≡ some group
    → after.units ≡ group.units
    → find_unit (put_group id after m) r ≡ find_unit m r
unfolding find_unit
find_unit-put_same m id group after r h same =
    ground (arith, find_unit-put_group m id after r, eq_iff id r.stage_id)

unit_in-cancelled :
    (o : Option StageGroupState) (k : String)
    → unit_in (Option.map cancel_group o) k ≡ Option.map cancel_unit (unit_in o k)
unit_in-cancelled none k = refl
unit_in-cancelled (some group) k = get-map_values cancel_unit group.units k

-- The units after all groups are cancelled.
pub find_unit-cancelled :
    (before after : Machine) (ref : UnitRef)
    → after.stage_groups ≡ map_values cancel_group before.stage_groups
    → find_unit after ref ≡ Option.map cancel_unit (find_unit before ref)
unfolding find_unit
find_unit-cancelled before after ref h =
    rw (h, get-map_values cancel_group before.stage_groups ref.stage_id)
      (unit_in-cancelled (Dict.get before.stage_groups ref.stage_id) ref.unit_key)

pub map-eq-some {ℓ} :
    {A : Type ℓ} (f : A → A) (o : Option A) {b : A}
    → Option.map f o ≡ some b
    → (a : A) × (o ≡ some a) × (f a ≡ b)
map-eq-some f none h = cc
map-eq-some f (some a) h = (a, refl, ground arith)

-- An invariant of units: new units have it, and each change that a step can make keeps it.
pub record IsKept (c : Context) (P : CompiledStage → WorkUnitState → Type 0) : Type 0 where
  pub new : (contract : CompiledStage) (ref : UnitRef) → P contract (new_unit ref)
  pub cancels :
      (contract : CompiledStage) (u : WorkUnitState) → P contract u → P contract (cancel_unit u)
  pub changes :
      (kind : EventKind) (p : Fields) (contract : CompiledStage) (u v : WorkUnitState)
      → validate_unit c.platform kind p contract u ≡ ok tt
      → apply_unit kind p u ≡ ok v
      → P contract u
      → P contract v

module _ (c : Context) (P : CompiledStage → WorkUnitState → Type 0) (kept : IsKept c P) where
  open c use {platform, plan}

  abbrev pub AllUnits : Machine → Type 0
  AllUnits m =
      (ref : UnitRef) (contract : CompiledStage) (unit : WorkUnitState)
      → stage_contract plan ref.stage_id ≡ ok contract
      → find_unit m ref ≡ some unit
      → P contract unit

  -- A unit written into a group that was there.
  AllUnits-put_unit :
      (m : Machine) (ref : UnitRef) (group : StageGroupState) (u : WorkUnitState)
      → AllUnits m
      → Dict.get m.stage_groups ref.stage_id ≡ some group
      → ((contract : CompiledStage) → stage_contract plan ref.stage_id ≡ ok contract → P contract u)
      → AllUnits (put_group ref.stage_id (put_unit ref u group) m)
  AllUnits-put_unit m ref group u all_m found new r contract unit known at =
      let e = sym (find_unit-put_unit m ref group u r found) ∙ at in
      elim (Bool-cases (ref.stage_id == r.stage_id && ref.unit_key == r.unit_key)) [
        | inl here ↦
            let stage : ref.stage_id ≡ r.stage_id =
              ground (arith, eq_iff ref.stage_id r.stage_id) in
            let same : u ≡ unit = ground arith in
            subst (P contract) same (new contract (rw stage known))
        | inr elsewhere ↦ all_m r contract unit known (ground arith)
      ]

  AllUnits-same :
      (m after : Machine) → after.stage_groups ≡ m.stage_groups → AllUnits m → AllUnits after
  unfolding find_unit
  AllUnits-same m after h all_m r contract unit known at =
      all_m r contract unit known
        (ap (λ g. unit_in (Dict.get g r.stage_id) r.unit_key) (sym h) ∙ at)

  AllUnits-unit_event :
      (kind : EventKind) (p : Fields) (m after : Machine)
      → is_unit_event kind ≡ true
      → validate platform plan kind p m ≡ ok tt
      → apply plan kind p m ≡ ok after
      → AllUnits m
      → AllUnits after
  AllUnits-unit_event kind p m after k v h all_m =
      let a = validate-Admitted c kind p m k v in
      let (u, changed, result) = apply-changed c kind p m after a k h in
      let before =
        all_m a.ref a.contract a.unit a.contract_found
          (find_unit-eq-get m a.ref a.group a.group_found ∙ a.unit_found) in
      subst AllUnits (sym result) (
        AllUnits-put_unit m a.ref a.group u all_m a.group_found λ contract known.
          let same = ok-injective (sym a.contract_found ∙ known) in
          subst (λ x. P x u) same (kept.changes kind p a.contract a.unit u a.valid changed before))

  AllUnits-put_group :
      (m : Machine) (id : String) (group after : StageGroupState)
      → Dict.get m.stage_groups id ≡ some group
      → after.units ≡ group.units
      → AllUnits m
      → AllUnits (put_group id after m)
  AllUnits-put_group m id group after found same all_m r contract unit known at =
      all_m r contract unit known (sym (find_unit-put_same m id group after r found same) ∙ at)

  AllUnits-cancelled :
      (m after : Machine)
      → after.stage_groups ≡ map_values cancel_group m.stage_groups
      → AllUnits m
      → AllUnits after
  AllUnits-cancelled m after h all_m r contract unit known at =
      let (u, before, e) =
        map-eq-some cancel_unit (find_unit m r) (sym (find_unit-cancelled m after r h) ∙ at) in
      subst (P contract) e (kept.cancels contract u (all_m r contract u known before))

  -- Every validated event keeps the invariant.
  pub AllUnits-step :
      (kind : EventKind) (p : Fields) (m after : Machine)
      → validate platform plan kind p m ≡ ok tt
      → apply plan kind p m ≡ ok after
      → AllUnits m
      → AllUnits after
  unfolding apply
  AllUnits-step execution_created p m after v h all_m = AllUnits-same m after (ground arith) all_m
  AllUnits-step execution_started p m after v h all_m = AllUnits-same m after (ground arith) all_m
  AllUnits-step execution_succeeded p m after v h all_m = AllUnits-same m after (ground arith) all_m
  AllUnits-step execution_failed p m after v h all_m = AllUnits-same m after (ground arith) all_m
  AllUnits-step execution_cancelled p m after v h all_m =
      AllUnits-cancelled m after (ground arith) all_m
  AllUnits-step stage_sealed p m after v h all_m =
      let s = validate-Sealing c p m v in
      let result = ok-injective (sym (apply-Sealing c p m s) ∙ h) in
      subst AllUnits result (AllUnits-put_group m s.stage_id s.group _ s.group_found refl all_m)
  AllUnits-step unit_registered p m after v h all_m =
      let r = validate-Registering c p m v in
      subst AllUnits (ok-injective (sym (apply-Registering c p m r) ∙ h)) (
        AllUnits-put_unit m r.ref r.group (new_unit r.ref) all_m r.group_found
          (λ contract _. kept.new contract r.ref))
  AllUnits-step unknown_kind p m after v h all_m = cc
  AllUnits-step kind p m after v h all_m = AllUnits-unit_event kind p m after refl v h all_m
