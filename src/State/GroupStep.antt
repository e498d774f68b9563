-- ===== src/State/GroupStep.antt =====
-- What the registration of a unit and the sealing of a stage find and do.
use contractplane.Prelude.Dict
use contractplane.State.UnitStep.{or_refuse-eq-ok, group_item-eq-ok}
use contractplane.Prelude.{
  String, ◌≡◌, refl, ap, ◌∙◌, Bool, true, false, not, ◌&&◌, ◌||◌, some, ◌==◌, is_empty,
}
use contractplane.Prelude.Dict.{
  Dict, keys, values, has, index_onto, index_by, dict_laws, get-put, get-put_self, get_of_all,
  all-put,
}
use contractplane.Json.{Fields}
use contractplane.Errors.{
  created_not_first, not_running, already_sealed, dependencies_open, seal_without_units,
  already_registered, ok, refuse_if, >>=-eq-ok, refuse_if-eq-ok,
}
use contractplane.Plan.{CompiledStage}
use contractplane.State.{
  singleton_unit_key, UnitRef, StageGroupState, Machine, in_running, ref_from_payload, stage_id_of,
  group_of, new_unit, stage_contract, dependencies_satisfied,
}
use contractplane.State.Kind.{stage_sealed, unit_registered}
use contractplane.State.Validate.{
  is_singleton, is_only_default, validate_in_stage, validate_running, validate_created, validate,
}
use contractplane.State.Apply.{put_group, put_unit, apply}
use contractplane.State.Step.{Context}

pub record Registering (c : Context) (p : Fields) (m : Machine) : Type 0 where
  pub ref : UnitRef
  pub contract : CompiledStage
  pub group : StageGroupState
  pub named : ref_from_payload p ≡ ok ref
  pub contract_found : stage_contract c.plan ref.stage_id ≡ ok contract
  pub group_found : Dict.get m.stage_groups ref.stage_id ≡ some group
  pub unsealed : group.sealed ≡ false
  pub absent : has group.units ref.unit_key ≡ false
  pub satisfied : dependencies_satisfied c.plan m ref.stage_id ≡ ok true
  pub single :
      (is_singleton contract.fanout.mode
        && (not (ref.unit_key == singleton_unit_key) || not (is_empty group.units)))
      ≡ false
  pub runs : in_running m.status ≡ true

pub record Sealing (c : Context) (p : Fields) (m : Machine) : Type 0 where
  pub stage_id : String
  pub contract : CompiledStage
  pub group : StageGroupState
  pub named : stage_id_of p ≡ ok stage_id
  pub contract_found : stage_contract c.plan stage_id ≡ ok contract
  pub group_found : Dict.get m.stage_groups stage_id ≡ some group
  pub unsealed : group.sealed ≡ false
  pub satisfied : dependencies_satisfied c.plan m stage_id ≡ ok true
  pub filled : is_empty group.units ≡ false
  pub single :
      (is_singleton contract.fanout.mode && not (is_only_default (keys group.units))) ≡ false
  pub runs : in_running m.status ≡ true

not-eq-false : (b : Bool) → not b ≡ false → b ≡ true
not-eq-false true h = refl
not-eq-false false h = cc

module _ (c : Context) (p : Fields) (m : Machine) where
  open c use {platform, plan}

  pub validate-Registering : validate platform plan unit_registered p m ≡ ok tt → Registering c p m
  unfolding validate validate_created validate_running validate_in_stage group_of
  validate-Registering v =
      let (_, _, v₁) = >>=-eq-ok (refuse_if (not m.created_applied) created_not_first) _ v in
      let (_, runs, v₂) = >>=-eq-ok (refuse_if (not (in_running m.status)) not_running) _ v₁ in
      let (ref, named, v₃) = >>=-eq-ok (ref_from_payload p) _ v₂ in
      let (contract, known, v₄) = >>=-eq-ok (stage_contract plan ref.stage_id) _ v₃ in
      let (group, grouped, v₅) = >>=-eq-ok (group_of m ref.stage_id) _ v₄ in
      let (_, unsealed, v₆) = >>=-eq-ok (refuse_if group.sealed already_sealed) _ v₅ in
      let (_, absent, v₇) =
        >>=-eq-ok (refuse_if (has group.units ref.unit_key) already_registered) _ v₆ in
      let (b, satisfied, v₈) = >>=-eq-ok (dependencies_satisfied plan m ref.stage_id) _ v₇ in
      let (_, done, v₉) = >>=-eq-ok (refuse_if (not b) dependencies_open) _ v₈ in
      let b_true = not-eq-false b (refuse_if-eq-ok _ _ done) in
      record {
        ref = ref;
        contract = contract;
        group = group;
        named = named;
        contract_found = known;
        group_found = or_refuse-eq-ok _ _ grouped;
        unsealed = refuse_if-eq-ok _ _ unsealed;
        absent = refuse_if-eq-ok _ _ absent;
        satisfied = satisfied ∙ ap ok b_true;
        single = refuse_if-eq-ok _ _ v₉;
        runs = not-eq-false _ (refuse_if-eq-ok _ _ runs);
      }

  pub validate-Sealing : validate platform plan stage_sealed p m ≡ ok tt → Sealing c p m
  unfolding validate validate_created validate_running group_of
  validate-Sealing v =
      let (_, _, v₁) = >>=-eq-ok (refuse_if (not m.created_applied) created_not_first) _ v in
      let (_, runs, v₂) = >>=-eq-ok (refuse_if (not (in_running m.status)) not_running) _ v₁ in
      let (stage_id, named, v₃) = >>=-eq-ok (stage_id_of p) _ v₂ in
      let (contract, known, v₄) = >>=-eq-ok (stage_contract plan stage_id) _ v₃ in
      let (group, grouped, v₅) = >>=-eq-ok (group_of m stage_id) _ v₄ in
      let (_, unsealed, v₆) = >>=-eq-ok (refuse_if group.sealed already_sealed) _ v₅ in
      let (b, satisfied, v₇) = >>=-eq-ok (dependencies_satisfied plan m stage_id) _ v₆ in
      let (_, done, v₈) = >>=-eq-ok (refuse_if (not b) dependencies_open) _ v₇ in
      let (_, filled, v₉) = >>=-eq-ok (refuse_if (is_empty group.units) seal_without_units) _ v₈ in
      let b_true = not-eq-false b (refuse_if-eq-ok _ _ done) in
      record {
        stage_id = stage_id;
        contract = contract;
        group = group;
        named = named;
        contract_found = known;
        group_found = or_refuse-eq-ok _ _ grouped;
        unsealed = refuse_if-eq-ok _ _ unsealed;
        satisfied = satisfied ∙ ap ok b_true;
        filled = refuse_if-eq-ok _ _ filled;
        single = refuse_if-eq-ok _ _ v₉;
        runs = not-eq-false _ (refuse_if-eq-ok _ _ runs);
      }

  pub apply-Registering :
      (r : Registering c p m)
      → apply plan unit_registered p m
        ≡ ok (put_group r.ref.stage_id (put_unit r.ref (new_unit r.ref) r.group) m)
  unfolding apply
  apply-Registering r = rw (r.named, group_item-eq-ok m r.ref.stage_id r.group r.group_found)

  pub apply-Sealing :
      (s : Sealing c p m)
      → apply plan stage_sealed p m ≡ ok (put_group s.stage_id (record s.group { sealed = true }) m)
  unfolding apply
  apply-Sealing s = rw (s.named, group_item-eq-ok m s.stage_id s.group s.group_found)
