-- ===== src/State/UnitStep.antt =====
-- What one event of a work unit does to the machine.
use contractplane.Prelude.Dict
use contractplane.Prelude.{
  String, ◌≡◌, refl, sym, ◌∙◌, Bool, true, false, not, Option, none, some, arith,
}
use contractplane.Prelude.Dict.{
  Dict, keys, values, has, index_onto, index_by, dict_laws, get-put, get-put_self, get_of_all,
  all-put,
}
use contractplane.Json.{Fields}
use contractplane.Errors.{
  ok-injective, TransitionReason, unknown_stage, unknown_unit, created_not_first, not_running,
  Result, ok, ◌>>=◌, ◌>>◌, refuse_if, >>=-eq-ok, refuse_if-eq-ok,
}
use contractplane.Plan.{CompiledStage}
use contractplane.State.{
  UnitRef, WorkUnitState, StageGroupState, Machine, in_running, ref_from_payload, or_refuse,
  find_unit, group_of, stage_contract, unit_at,
}
use contractplane.State.Kind.{
  EventKind, authorization_requested, authorization_decided, unit_ready, unit_started, unit_claimed,
  unit_awaiting_evidence, evidence_recorded, unit_completed, unit_skipped, unit_failed,
}
use contractplane.State.Validate.{
  validate_unit, validate_in_stage, validate_running, validate_created, validate,
}
use contractplane.State.Apply.{apply_unit, put_group, put_unit, group_item, apply}
use contractplane.State.Step.{Context}

-- The kinds whose payload names a unit that is registered already.
abbrev pub is_unit_event : EventKind → Bool
is_unit_event authorization_requested = true
is_unit_event authorization_decided = true
is_unit_event unit_ready = true
is_unit_event unit_started = true
is_unit_event unit_claimed = true
is_unit_event unit_awaiting_evidence = true
is_unit_event evidence_recorded = true
is_unit_event unit_completed = true
is_unit_event unit_skipped = true
is_unit_event unit_failed = true
is_unit_event _ = false

module _ (c : Context) where
  open c use {platform, plan}

  -- The tests of such an event, on the one unit.
  unit_validation : EventKind → Fields → Machine → Result (Unit {0})
  unit_validation kind p m = do
    refuse_if (not m.created_applied) created_not_first
    refuse_if (not (in_running m.status)) not_running
    ref ← ref_from_payload p
    contract ← stage_contract plan ref.stage_id
    group ← group_of m ref.stage_id
    unit ← unit_at plan m ref
    validate_unit platform kind p contract unit

  unit_application : EventKind → Fields → Machine → Result Machine
  unit_application kind p m = do
    ref ← ref_from_payload p
    unit ← unit_at plan m ref
    group ← group_item m ref.stage_id
    changed ← apply_unit kind p unit
    ok (put_group ref.stage_id (put_unit ref changed group) m)

  validate-eq-unit_validation :
      (kind : EventKind) (p : Fields) (m : Machine)
      → is_unit_event kind ≡ true
      → validate platform plan kind p m ≡ unit_validation kind p m
  unfolding validate validate_created validate_running validate_in_stage unit_validation
  validate-eq-unit_validation authorization_requested p m h = refl
  validate-eq-unit_validation authorization_decided p m h = refl
  validate-eq-unit_validation unit_ready p m h = refl
  validate-eq-unit_validation unit_started p m h = refl
  validate-eq-unit_validation unit_claimed p m h = refl
  validate-eq-unit_validation unit_awaiting_evidence p m h = refl
  validate-eq-unit_validation evidence_recorded p m h = refl
  validate-eq-unit_validation unit_completed p m h = refl
  validate-eq-unit_validation unit_skipped p m h = refl
  validate-eq-unit_validation unit_failed p m h = refl
  validate-eq-unit_validation _ p m h = cc

  apply-eq-unit_application :
      (kind : EventKind) (p : Fields) (m : Machine)
      → is_unit_event kind ≡ true
      → apply plan kind p m ≡ unit_application kind p m
  unfolding apply unit_application
  apply-eq-unit_application authorization_requested p m h = refl
  apply-eq-unit_application authorization_decided p m h = refl
  apply-eq-unit_application unit_ready p m h = refl
  apply-eq-unit_application unit_started p m h = refl
  apply-eq-unit_application unit_claimed p m h = refl
  apply-eq-unit_application unit_awaiting_evidence p m h = refl
  apply-eq-unit_application evidence_recorded p m h = refl
  apply-eq-unit_application unit_completed p m h = refl
  apply-eq-unit_application unit_skipped p m h = refl
  apply-eq-unit_application unit_failed p m h = refl
  apply-eq-unit_application _ p m h = cc

-- Where a unit event finds its unit, and that its tests pass.
pub record Admitted (c : Context) (kind : EventKind) (p : Fields) (m : Machine) : Type 0 where
  pub ref : UnitRef
  pub contract : CompiledStage
  pub group : StageGroupState
  pub unit : WorkUnitState
  pub named : ref_from_payload p ≡ ok ref
  pub contract_found : stage_contract c.plan ref.stage_id ≡ ok contract
  pub group_found : Dict.get m.stage_groups ref.stage_id ≡ some group
  pub unit_found : Dict.get group.units ref.unit_key ≡ some unit
  pub valid : validate_unit c.platform kind p contract unit ≡ ok tt
  pub runs : in_running m.status ≡ true

pub or_refuse-eq-ok {ℓ} :
    {A : Type ℓ} (r : TransitionReason) (o : Option A) {a : A} → or_refuse r o ≡ ok a → o ≡ some a
or_refuse-eq-ok r none h = cc
or_refuse-eq-ok r (some a) h = cc

pub find_unit-eq-get :
    (m : Machine) (ref : UnitRef) (group : StageGroupState)
    → Dict.get m.stage_groups ref.stage_id ≡ some group
    → find_unit m ref ≡ Dict.get group.units ref.unit_key
unfolding find_unit
find_unit-eq-get m ref group h = ground arith

pub group_item-eq-ok :
    (m : Machine) (id : String) (group : StageGroupState)
    → Dict.get m.stage_groups id ≡ some group
    → group_item m id ≡ ok group
unfolding group_item
group_item-eq-ok m id group h = ground arith

module _ (c : Context) where
  open c use {platform, plan}

  pub validate-Admitted :
      (kind : EventKind) (p : Fields) (m : Machine)
      → is_unit_event kind ≡ true
      → validate platform plan kind p m ≡ ok tt
      → Admitted c kind p m
  unfolding unit_validation group_of unit_at find_unit
  validate-Admitted kind p m h v =
      let w = sym (validate-eq-unit_validation c kind p m h) ∙ v in
      let (_, _, w₁) = >>=-eq-ok (refuse_if (not m.created_applied) created_not_first) _ w in
      let (_, runs, w₂) = >>=-eq-ok (refuse_if (not (in_running m.status)) not_running) _ w₁ in
      let (ref, named, w₃) = >>=-eq-ok (ref_from_payload p) _ w₂ in
      let (contract, known, w₄) = >>=-eq-ok (stage_contract plan ref.stage_id) _ w₃ in
      let (group, grouped, w₅) = >>=-eq-ok (group_of m ref.stage_id) _ w₄ in
      let (unit, at, valid) = >>=-eq-ok (unit_at plan m ref) _ w₅ in
      let (_, _, at') = >>=-eq-ok (stage_contract plan ref.stage_id) _ at in
      let group_found =
        or_refuse-eq-ok unknown_stage (Dict.get m.stage_groups ref.stage_id) grouped in
      record {
        ref = ref;
        contract = contract;
        group = group;
        unit = unit;
        named = named;
        contract_found = known;
        group_found = group_found;
        unit_found =
            sym (find_unit-eq-get m ref group group_found)
            ∙ or_refuse-eq-ok unknown_unit (find_unit m ref) at';
        valid = valid;
        runs = ground (arith, refuse_if-eq-ok _ _ runs);
      }

  -- The change of the machine by an event that is admitted.
  apply-eq-bind :
      (kind : EventKind) (p : Fields) (m : Machine) (a : Admitted c kind p m)
      → is_unit_event kind ≡ true
      → apply plan kind p m ≡ (
          apply_unit kind p a.unit >>= λ u.
          ok (put_group a.ref.stage_id (put_unit a.ref u a.group) m))
  unfolding unit_application unit_at
  apply-eq-bind kind p m a h = rw (
    apply-eq-unit_application c kind p m h,
    a.named,
    a.contract_found,
    find_unit-eq-get m a.ref a.group a.group_found,
    a.unit_found,
    group_item-eq-ok m a.ref.stage_id a.group a.group_found,
  )

  pub apply-Admitted :
      (kind : EventKind) (p : Fields) (m : Machine) (a : Admitted c kind p m) (u : WorkUnitState)
      → is_unit_event kind ≡ true
      → apply_unit kind p a.unit ≡ ok u
      → apply plan kind p m ≡ ok (put_group a.ref.stage_id (put_unit a.ref u a.group) m)
  apply-Admitted kind p m a u h e = rw (apply-eq-bind kind p m a h, e)

  -- The change, read off an event that was applied.
  pub apply-changed :
      (kind : EventKind) (p : Fields) (m after : Machine) (a : Admitted c kind p m)
      → is_unit_event kind ≡ true
      → apply plan kind p m ≡ ok after
      → (u : WorkUnitState) × (apply_unit kind p a.unit ≡ ok u)
        × (after ≡ put_group a.ref.stage_id (put_unit a.ref u a.group) m)
  apply-changed kind p m after a k h =
      let (u, e, result) =
        >>=-eq-ok (apply_unit kind p a.unit) _ (sym (apply-eq-bind kind p m a k) ∙ h) in
      (u, e, sym (ok-injective result))
