-- ===== src/State/Finished.antt =====
-- What is finished stays finished: a stage that satisfies a need is not opened again.
use contractplane.Prelude.Dict
use contractplane.Prelude.Dict.{get_of_all, get-put, key_of_all, all-keys-put, put_filled}
use contractplane.Prelude.{
  String, ◌≡◌, refl, sym, ap, ◌∙◌, subst, Bool, true, false, ◌&&◌, some, List, [], ◌∷◌, arith,
  eq_iff, if◌then◌else◌, all,
}
use contractplane.Json.{Fields}
use contractplane.Errors.{Result, ok, >>=-eq-ok, ok-injective}
use contractplane.State.{
  UnitStatus, completed, skipped, WorkUnitState, StageGroupState, Machine, is_done, group_of,
  units_done, needs_satisfied,
}
use contractplane.State.Kind.{
  EventKind, execution_created, execution_started, execution_succeeded, execution_failed,
  execution_cancelled, stage_sealed, unit_registered, unknown_kind,
}
use contractplane.State.Validate.{validate}
use contractplane.State.Apply.{apply_unit, put_group, cancel_unit, map_values, cancel_group, apply}
use contractplane.State.Step.{Context}
use contractplane.State.UnitStep.{Admitted, or_refuse-eq-ok, validate-Admitted, apply-changed}
use contractplane.State.GroupStep.{
  validate-Registering, validate-Sealing, apply-Registering, apply-Sealing,
}
use contractplane.State.Units.{get-map_values}
use contractplane.State.Lifecycle.{may_follow, apply_unit-may_follow}

-- The test of one need in `dependencies_satisfied`.
abbrev pub is_finished : StageGroupState → Bool
is_finished group = group.sealed && units_done group

-- What is finished stays so.
unfoldable pub StaysFinished : Machine → Machine → Type 0
StaysFinished m after =
    (id : String) (group : StageGroupState)
    → Dict.get m.stage_groups id ≡ some group
    → is_finished group ≡ true
    → (g : StageGroupState) × (Dict.get after.stage_groups id ≡ some g) × (is_finished g ≡ true)

StaysFinished-same :
    (m after : Machine) → after.stage_groups ≡ m.stage_groups → StaysFinished m after
unfolding StaysFinished
StaysFinished-same m after h id group found done = (group, ap (λ d. Dict.get d id) h ∙ found, done)

StaysFinished-put_group :
    (m : Machine) (id : String) (group after : StageGroupState)
    → Dict.get m.stage_groups id ≡ some group
    → is_finished group ≡ false
    → StaysFinished m (put_group id after m)
unfolding StaysFinished put_group
StaysFinished-put_group m id group after found open_still j g found' done =
    (g, ground (arith, get-put m.stage_groups id j after, eq_iff id j), done)

all_done-cancelled :
    (units : Dict.Dict WorkUnitState)
    → all (λ unit. is_done unit.status) (Dict.values units) ≡ true
    → all (λ unit. is_done unit.status) (Dict.values (map_values cancel_unit units)) ≡ true
unfolding map_values
all_done-cancelled [] h = refl
all_done-cancelled ((k, u) ∷ d) h = ground (arith, all_done-cancelled d)

StaysFinished-cancelled :
    (m after : Machine)
    → after.stage_groups ≡ map_values cancel_group m.stage_groups
    → StaysFinished m after
unfolding StaysFinished units_done
StaysFinished-cancelled m after h id group found done = (
  cancel_group group,
  rw (h, get-map_values cancel_group m.stage_groups id, found) refl,
  ground (arith, all_done-cancelled group.units),
)

group_of-eq-ok :
    (m : Machine) (id : String) (group : StageGroupState)
    → group_of m id ≡ ok group
    → Dict.get m.stage_groups id ≡ some group
unfolding group_of
group_of-eq-ok m id group h = or_refuse-eq-ok _ _ h

if-eq-ok_true :
    (b : Bool) (r : Result Bool)
    → (if b then r else ok false) ≡ ok true
    → (b ≡ true) × (r ≡ ok true)
if-eq-ok_true true r h = (refl, h)
if-eq-ok_true false r h = cc

-- Needs that are satisfied stay so.
pub needs_satisfied-StaysFinished :
    (m after : Machine) (needs : List String)
    → StaysFinished m after
    → needs_satisfied m needs ≡ ok true
    → needs_satisfied after needs ≡ ok true
unfolding needs_satisfied StaysFinished group_of
needs_satisfied-StaysFinished m after [] stays h = refl
needs_satisfied-StaysFinished m after (need ∷ needs) stays h =
    let (group, found, h₁) = >>=-eq-ok (group_of m need) _ h in
    let (done, rest) = if-eq-ok_true (is_finished group) _ h₁ in
    let (g, found', done') = stays need group (group_of-eq-ok m need group found) done in
    rw (found', done') (needs_satisfied-StaysFinished m after needs stays rest)

done-may_follow : (s t : UnitStatus) → is_done s ≡ true → may_follow s t ≡ false
done-may_follow completed t h = refl
done-may_follow skipped t h = refl
done-may_follow _ t h = cc

module _ (c : Context) where
  open c use {platform, plan}

  -- An event that is admitted finds its unit open.
  is_finished-Admitted :
      (kind : EventKind) (p : Fields) (m : Machine) (a : Admitted c kind p m) (u : WorkUnitState)
      → apply_unit kind p a.unit ≡ ok u
      → is_finished a.group ≡ false
  unfolding units_done
  is_finished-Admitted kind p m a u h =
      let follows = apply_unit-may_follow platform a.contract kind p a.unit u a.valid h in
      ground (
        arith,
        get_of_all (λ unit. is_done unit.status) a.group.units a.ref.unit_key a.unit,
        done-may_follow a.unit.status u.status,
        a.unit_found,
      )

  pub step-StaysFinished :
      (kind : EventKind) (p : Fields) (m after : Machine)
      → validate platform plan kind p m ≡ ok tt
      → apply plan kind p m ≡ ok after
      → StaysFinished m after
  unfolding apply
  step-StaysFinished execution_created p m after v h = StaysFinished-same m after (ground arith)
  step-StaysFinished execution_started p m after v h = StaysFinished-same m after (ground arith)
  step-StaysFinished execution_succeeded p m after v h = StaysFinished-same m after (ground arith)
  step-StaysFinished execution_failed p m after v h = StaysFinished-same m after (ground arith)
  step-StaysFinished execution_cancelled p m after v h =
      StaysFinished-cancelled m after (ground arith)
  step-StaysFinished stage_sealed p m after v h =
      let s = validate-Sealing c p m v in
      subst (StaysFinished m) (ok-injective (sym (apply-Sealing c p m s) ∙ h))
        (StaysFinished-put_group m s.stage_id s.group _ s.group_found (ground (arith, s.unsealed)))
  step-StaysFinished unit_registered p m after v h =
      let r = validate-Registering c p m v in
      subst (StaysFinished m) (ok-injective (sym (apply-Registering c p m r) ∙ h)) (
        StaysFinished-put_group m r.ref.stage_id r.group _ r.group_found
          (ground (arith, r.unsealed)))
  step-StaysFinished unknown_kind p m after v h = cc
  step-StaysFinished kind p m after v h =
      let a = validate-Admitted c kind p m refl v in
      let (u, changed, result) = apply-changed c kind p m after a refl h in
      subst (StaysFinished m) (sym result) (
        StaysFinished-put_group m a.ref.stage_id a.group _ a.group_found
          (is_finished-Admitted kind p m a u changed))
