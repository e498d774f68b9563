-- ===== src/State/Order.antt =====
-- The order of the stages: units only where the needs of their stage are satisfied, no stage
-- sealed empty, one default unit in a stage without fanout.
use contractplane.Prelude.Dict
use contractplane.State.{
  singleton_unit_key, UnitRef, WorkUnitState, StageGroupState, Machine, unit_in, find_unit,
  needs_satisfied, new_unit, new_groups, new_machine, stage_contract, dependencies_satisfied,
}
use contractplane.Prelude.{
  String, ◌≡◌, refl, sym, ap, ◌∙◌, subst, inl, inr, Bool, true, false, not, ◌&&◌, Option, none,
  some, List, [], ◌∷◌, map, arith, ◌==◌, eq_iff, Bool-cases, all, is_empty,
}
use contractplane.Prelude.Dict.{
  get_of_all, get-put, key_of_all, all-keys-put, put_filled, all-put, index_onto,
}
use contractplane.Json.{Fields}
use contractplane.Errors.{ok, ok-injective}
use contractplane.Plan.{CompiledStage, stages}
use contractplane.State.Kind.{
  EventKind, execution_created, execution_started, execution_succeeded, execution_failed,
  execution_cancelled, stage_sealed, unit_registered, unknown_kind,
}
use contractplane.State.Validate.{is_singleton, validate}
use contractplane.State.Apply.{put_group, put_unit, cancel_unit, map_values, cancel_group, apply}
use contractplane.State.Step.{Context}
use contractplane.State.UnitStep.{Admitted, validate-Admitted, apply-changed}
use contractplane.State.GroupStep.{
  Registering, Sealing, validate-Registering, validate-Sealing, apply-Registering, apply-Sealing,
}
use contractplane.State.Units.{get-map_values, map-eq-some}
use contractplane.State.Finished.{StaysFinished, needs_satisfied-StaysFinished, step-StaysFinished}

abbrev pub is_default_key : String → Bool
is_default_key k = k == singleton_unit_key

-- What holds of a stage's group, by the plan and the other groups.
pub record InOrder (c : Context) (m : Machine) (id : String) (group : StageGroupState)
    : Type 0 where
  pub filled : group.sealed ≡ true → is_empty group.units ≡ false
  pub satisfied :
      (contract : CompiledStage)
      → stage_contract c.plan id ≡ ok contract
      → is_empty group.units ≡ false
      → needs_satisfied m contract.needs ≡ ok true
  pub single :
      (contract : CompiledStage)
      → stage_contract c.plan id ≡ ok contract
      → is_singleton contract.fanout.mode ≡ true
      → all is_default_key (Dict.keys group.units) ≡ true

unfoldable pub AllInOrder : Context → Machine → Type 0
AllInOrder c m =
    (id : String) (group : StageGroupState)
    → Dict.get m.stage_groups id ≡ some group
    → InOrder c m id group

InOrder-StaysFinished :
    (c : Context) (m after : Machine) (id : String) (group : StageGroupState)
    → StaysFinished m after
    → InOrder c m id group
    → InOrder c after id group
InOrder-StaysFinished c m after id group stays o = record {
  filled = o.filled;
  satisfied = λ contract known some_unit.
      needs_satisfied-StaysFinished m after contract.needs stays
        (o.satisfied contract known some_unit);
  single = o.single;
}

AllInOrder-put_group :
    (c : Context) (m : Machine) (id : String) (after : StageGroupState)
    → AllInOrder c m
    → StaysFinished m (put_group id after m)
    → InOrder c m id after
    → AllInOrder c (put_group id after m)
unfolding AllInOrder put_group
AllInOrder-put_group c m id after all_m stays o j group found =
    let e = sym (get-put m.stage_groups id j after) ∙ found in
    InOrder-StaysFinished c m _ j group stays (elim (Bool-cases (id == j)) [
      | inl here ↦
          let stage : id ≡ j = ground (arith, eq_iff id j) in
          let same : after ≡ group = ground arith in
          subst (λ x. InOrder c m x group) stage (subst (InOrder c m id) same o)
      | inr elsewhere ↦ all_m j group (ground arith)
    ])

AllInOrder-same :
    (c : Context) (m after : Machine)
    → after.stage_groups ≡ m.stage_groups
    → StaysFinished m after
    → AllInOrder c m
    → AllInOrder c after
unfolding AllInOrder
AllInOrder-same c m after h stays all_m id group found =
    InOrder-StaysFinished c m after id group stays
      (all_m id group (ap (λ d. Dict.get d id) (sym h) ∙ found))

keys_cancelled :
    (units : Dict.Dict WorkUnitState)
    → (Dict.keys (map_values cancel_unit units) ≡ Dict.keys units)
      × (is_empty (map_values cancel_unit units) ≡ is_empty units)
unfolding map_values
keys_cancelled [] = (refl, refl)
keys_cancelled ((k, u) ∷ d) = (ap (λ ks. k ∷ ks) (keys_cancelled d).0, refl)

InOrder-cancel_group :
    (c : Context) (m : Machine) (id : String) (group : StageGroupState)
    → InOrder c m id group
    → InOrder c m id (cancel_group group)
InOrder-cancel_group c m id group o =
    let (keys, empty) = keys_cancelled group.units in
    record {
      filled = λ h. empty ∙ o.filled h;
      satisfied = λ contract known h. o.satisfied contract known (sym empty ∙ h);
      single = λ contract known h. ap (all is_default_key) keys ∙ o.single contract known h;
    }

AllInOrder-cancelled :
    (c : Context) (m after : Machine)
    → after.stage_groups ≡ map_values cancel_group m.stage_groups
    → StaysFinished m after
    → AllInOrder c m
    → AllInOrder c after
unfolding AllInOrder
AllInOrder-cancelled c m after h stays all_m id group found =
    let (before, there, same) = map-eq-some cancel_group (Dict.get m.stage_groups id) (
      sym (get-map_values cancel_group m.stage_groups id)
      ∙ ap (λ d. Dict.get d id) (sym h)
      ∙ found) in
    InOrder-StaysFinished c m after id group stays
      (subst (InOrder c m id) same (InOrder-cancel_group c m id before (all_m id before there)))

filled_of_get :
    (d : Dict.Dict WorkUnitState) (k : String) {u : WorkUnitState}
    → Dict.get d k ≡ some u
    → is_empty d ≡ false
unfolding Dict.get
filled_of_get [] k h = cc
filled_of_get (x ∷ d) k h = refl

keys_of_empty :
    (p : String → Bool) (d : Dict.Dict WorkUnitState)
    → is_empty d ≡ true
    → all p (Dict.keys d) ≡ true
keys_of_empty p [] h = refl
keys_of_empty p (x ∷ d) h = cc

get_of_empty : (d : Dict.Dict WorkUnitState) (k : String) → is_empty d ≡ true → Dict.get d k ≡ none
unfolding Dict.get
get_of_empty [] k h = refl
get_of_empty (x ∷ d) k h = cc

is_fresh : StageGroupState → Bool
is_fresh group = not group.sealed && is_empty group.units

all_fresh :
    (d : Dict.Dict StageGroupState) (xs : List StageGroupState)
    → all is_fresh (Dict.values d) ≡ true
    → all is_fresh xs ≡ true
    → all is_fresh (Dict.values (index_onto (λ group. group.stage_id) d xs)) ≡ true
unfolding index_onto
all_fresh d [] h hs = h
all_fresh d (x ∷ xs) h hs =
    all_fresh (Dict.put d x.stage_id x) xs (all-put is_fresh d x.stage_id x h (ground arith))
      (ground arith)

all_fresh_stages :
    (ss : List CompiledStage)
    → all is_fresh (map (λ stage. record { stage_id = stage.id; sealed = false; units = [] }) ss)
      ≡ true
unfolding is_fresh
all_fresh_stages [] = refl
all_fresh_stages (s ∷ ss) = all_fresh_stages ss

new_machine_fresh :
    (c : Context) (id : String) (group : StageGroupState)
    → Dict.get (new_machine c.plan).stage_groups id ≡ some group
    → is_fresh group ≡ true
unfolding new_machine new_groups
new_machine_fresh c id group found =
    get_of_all is_fresh _ id group (all_fresh [] _ refl (all_fresh_stages (stages c.plan))) found

unit_in_fresh :
    (o : Option StageGroupState) (k : String)
    → ((group : StageGroupState) → o ≡ some group → is_fresh group ≡ true)
    → unit_in o k ≡ none
unfolding is_fresh
unit_in_fresh none k h = refl
unit_in_fresh (some group) k h = get_of_empty group.units k (ground (arith, h group refl))

-- A new machine has no units.
pub find_unit-new_machine :
    (c : Context) (ref : UnitRef) → find_unit (new_machine c.plan) ref ≡ none
unfolding find_unit
find_unit-new_machine c ref = unit_in_fresh _ ref.unit_key (new_machine_fresh c ref.stage_id)

pub new_machine-AllInOrder : (c : Context) → AllInOrder c (new_machine c.plan)
unfolding AllInOrder is_fresh
new_machine-AllInOrder c id group found =
    let fresh = new_machine_fresh c id group found in
    record {
      filled = λ h. ground arith;
      satisfied = λ contract known h. ground arith;
      single = λ contract known h. keys_of_empty is_default_key group.units (ground arith);
    }

module _ (c : Context) where
  open c use {platform, plan}

  InOrder-Sealing :
      (p : Fields) (m : Machine) (s : Sealing c p m)
      → InOrder c m s.stage_id s.group
      → InOrder c m s.stage_id (record s.group { sealed = true })
  InOrder-Sealing p m s o = record {
    filled = λ _. s.filled;
    satisfied = o.satisfied;
    single = o.single;
  }

  dependencies_satisfied-needs :
      (m : Machine) (id : String) (contract : CompiledStage)
      → stage_contract plan id ≡ ok contract
      → dependencies_satisfied plan m id ≡ ok true
      → needs_satisfied m contract.needs ≡ ok true
  unfolding dependencies_satisfied
  dependencies_satisfied-needs m id contract known h = ground arith

  InOrder-Registering :
      (p : Fields) (m : Machine) (r : Registering c p m)
      → InOrder c m r.ref.stage_id r.group
      → InOrder c m r.ref.stage_id (put_unit r.ref (new_unit r.ref) r.group)
  unfolding put_unit
  InOrder-Registering p m r o = record {
    filled = λ _. put_filled r.group.units r.ref.unit_key _;
    satisfied = λ contract known _.
        dependencies_satisfied-needs m r.ref.stage_id contract known r.satisfied;
    single = λ contract known one.
        let same = ok-injective (sym r.contract_found ∙ known) in
        all-keys-put is_default_key r.group.units r.ref.unit_key _ (o.single contract known one)
          (ground (arith, r.single, ap (λ x. x.fanout.mode) same));
  }

  InOrder-Admitted :
      (kind : EventKind) (p : Fields) (m : Machine) (a : Admitted c kind p m) (u : WorkUnitState)
      → InOrder c m a.ref.stage_id a.group
      → InOrder c m a.ref.stage_id (put_unit a.ref u a.group)
  unfolding put_unit
  InOrder-Admitted kind p m a u o = record {
    filled = λ _. put_filled a.group.units a.ref.unit_key _;
    satisfied = λ contract known _.
        o.satisfied contract known (filled_of_get a.group.units a.ref.unit_key a.unit_found);
    single = λ contract known one.
        let ones = o.single contract known one in
        all-keys-put is_default_key a.group.units a.ref.unit_key u ones
          (key_of_all is_default_key a.group.units a.ref.unit_key a.unit ones a.unit_found);
  }

  pub AllInOrder-step :
      (kind : EventKind) (p : Fields) (m after : Machine)
      → validate platform plan kind p m ≡ ok tt
      → apply plan kind p m ≡ ok after
      → AllInOrder c m
      → AllInOrder c after
  unfolding apply AllInOrder
  AllInOrder-step execution_cancelled p m after v h all_m =
      AllInOrder-cancelled c m after (ground arith) (step-StaysFinished c _ p m after v h) all_m
  AllInOrder-step stage_sealed p m after v h all_m =
      let s = validate-Sealing c p m v in
      let result = ok-injective (sym (apply-Sealing c p m s) ∙ h) in
      let stays = step-StaysFinished c stage_sealed p m after v h in
      subst (AllInOrder c) result (
        AllInOrder-put_group c m s.stage_id _ all_m (subst (StaysFinished m) (sym result) stays)
          (InOrder-Sealing p m s (all_m s.stage_id s.group s.group_found)))
  AllInOrder-step unit_registered p m after v h all_m =
      let r = validate-Registering c p m v in
      let result = ok-injective (sym (apply-Registering c p m r) ∙ h) in
      let stays = step-StaysFinished c unit_registered p m after v h in
      subst (AllInOrder c) result (
        AllInOrder-put_group c m r.ref.stage_id _ all_m (subst (StaysFinished m) (sym result) stays)
          (InOrder-Registering p m r (all_m r.ref.stage_id r.group r.group_found)))
  AllInOrder-step execution_created p m after v h all_m =
      AllInOrder-same c m after (ground arith) (step-StaysFinished c _ p m after v h) all_m
  AllInOrder-step execution_started p m after v h all_m =
      AllInOrder-same c m after (ground arith) (step-StaysFinished c _ p m after v h) all_m
  AllInOrder-step execution_succeeded p m after v h all_m =
      AllInOrder-same c m after (ground arith) (step-StaysFinished c _ p m after v h) all_m
  AllInOrder-step execution_failed p m after v h all_m =
      AllInOrder-same c m after (ground arith) (step-StaysFinished c _ p m after v h) all_m
  AllInOrder-step unknown_kind p m after v h all_m = cc
  AllInOrder-step kind p m after v h all_m =
      let a = validate-Admitted c kind p m refl v in
      let (u, _, result) = apply-changed c kind p m after a refl h in
      let stays = step-StaysFinished c kind p m after v h in
      subst (AllInOrder c) (sym result) (
        AllInOrder-put_group c m a.ref.stage_id _ all_m (subst (StaysFinished m) result stays)
          (InOrder-Admitted kind p m a u (all_m a.ref.stage_id a.group a.group_found)))
