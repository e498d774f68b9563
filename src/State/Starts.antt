-- ===== src/State/Starts.antt =====
-- How often a work unit was started: the `unit.started` events of an execution, and the attempts
-- that the machine counts.
use contractplane.Prelude.Dict
use mathlib.Core.Option
use contractplane.Prelude.{
  sym, ℕ, inr, Bool, ◌∷◌, Bool-cases, List, ◌∙◌, String, ap, ◌+◌, ◌&&◌, inl, if◌then◌else◌, none,
  some, arith, ◌≡◌, true, [], false, ◌==◌, refl, Option, eq_iff,
}
use contractplane.Errors.{Result, ok, raise, >>=-eq-ok, ok-injective}
use contractplane.Prelude.Dict.{
  Dict, keys, values, has, index_onto, index_by, dict_laws, get-put, get-put_self, get_of_all,
  all-put,
}
use contractplane.Json.{Fields}
use contractplane.Ledger.{Ledger, Event, read}
use contractplane.State.{
  UnitRef, WorkUnitState, StageGroupState, Machine, ref_from_payload, unit_in, find_unit, new_unit,
}
use contractplane.State.Kind.{
  EventKind, execution_created, execution_started, execution_succeeded, execution_failed,
  execution_cancelled, stage_sealed, unit_registered, unit_ready, unit_started, unknown_kind,
  event_kind,
}
use contractplane.State.Validate.{validate}
use contractplane.State.Apply.{apply_unit, put_group, put_unit, cancel_unit, apply}
use contractplane.State.Step.{
  Context, at_event, step, replay_events, construct, check_first, replay,
}
use contractplane.State.Units.{find_unit-cancelled, find_unit-put_unit, find_unit-put_same}
use contractplane.State.UnitStep.{is_unit_event, validate-Admitted, apply-changed}
use contractplane.State.GroupStep.{
  validate-Registering, validate-Sealing, apply-Registering, apply-Sealing,
}
use contractplane.State.Reachable.{step-eq-ok, at_event-eq-ok}
use contractplane.State.Creation.{construct-eq-ok}
use contractplane.State.Order.{find_unit-new_machine}

abbrev pub same_ref : UnitRef → UnitRef → Bool
same_ref a b = a.stage_id == b.stage_id && a.unit_key == b.unit_key

abbrev pub names_unit : Result UnitRef → UnitRef → Bool
names_unit (ok named) ref = same_ref named ref
names_unit (raise e) ref = false

-- 1 for a `unit.started` event of the unit, 0 for every other event.
abbrev pub start_count : EventKind → Fields → UnitRef → ℕ
start_count unit_started p ref = if names_unit (ref_from_payload p) ref then 1 else 0
start_count _ p ref = 0

-- How many of the events start the unit.
unfoldable pub starts_of : UnitRef → List Event → ℕ
starts_of ref [] = 0
starts_of ref (e ∷ es) = start_count (event_kind e.type) e.payload ref + starts_of ref es

abbrev pub attempts_or_zero : Option WorkUnitState → ℕ
attempts_or_zero none = 0
attempts_or_zero (some unit) = unit.attempts

-- The attempts that the machine counts for a unit: none for a unit that is not registered.
abbrev pub attempts_at : Machine → UnitRef → ℕ
attempts_at m ref = attempts_or_zero (find_unit m ref)

-- The attempts that an event adds to the unit that it names.
abbrev added : EventKind → ℕ
added unit_started = 1
added _ = 0

apply_unit-added :
    (kind : EventKind) (p : Fields) (unit after : WorkUnitState)
    → apply_unit kind p unit ≡ ok after
    → after.attempts ≡ unit.attempts + added kind
unfolding apply_unit
apply_unit-added unit_ready p unit after h = ground arith
apply_unit-added _ p unit after h = ground arith

start_count-named :
    (kind : EventKind) (p : Fields) (named ref : UnitRef)
    → ref_from_payload p ≡ ok named
    → start_count kind p ref ≡ (if same_ref named ref then added kind else 0)
start_count-named unit_started p named ref h = rw h refl
start_count-named _ p named ref h = ground arith

attempts-cancelled :
    (o : Option WorkUnitState) → attempts_or_zero (Option.map cancel_unit o) ≡ attempts_or_zero o
attempts-cancelled none = refl
attempts-cancelled (some unit) = ground arith

attempts-absent :
    (units : Dict WorkUnitState) (key : String)
    → has units key ≡ false
    → 0 ≡ attempts_or_zero (Dict.get units key) + 0
attempts-absent units key absent = ground arith

module _ (c : Context) (ref : UnitRef) where
  open c use {platform, plan, execution_id}

  attempts_at-same :
      (m after : Machine)
      → after.stage_groups ≡ m.stage_groups
      → attempts_at after ref ≡ attempts_at m ref
  unfolding find_unit
  attempts_at-same m after h =
      ap (λ g. attempts_or_zero (unit_in (Dict.get g ref.stage_id) ref.unit_key)) h

  find_unit-named :
      (m : Machine) (named : UnitRef) (group : StageGroupState)
      → Dict.get m.stage_groups named.stage_id ≡ some group
      → same_ref named ref ≡ true
      → find_unit m ref ≡ Dict.get group.units named.unit_key
  unfolding find_unit
  find_unit-named m named group found same =
      ground (arith, eq_iff named.stage_id ref.stage_id, eq_iff named.unit_key ref.unit_key)

  -- A unit written into a group that was there.
  attempts_at-put_unit :
      (m : Machine) (named : UnitRef) (group : StageGroupState) (u : WorkUnitState) (n : ℕ)
      → Dict.get m.stage_groups named.stage_id ≡ some group
      → u.attempts ≡ attempts_or_zero (Dict.get group.units named.unit_key) + n
      → attempts_at (put_group named.stage_id (put_unit named u group) m) ref
        ≡ attempts_at m ref + (if same_ref named ref then n else 0)
  attempts_at-put_unit m named group u n found counted =
      ap attempts_or_zero (find_unit-put_unit m named group u ref found)
      ∙ elim (Bool-cases (same_ref named ref)) [
        | inl here ↦
            let before = find_unit-named m named group found here in rw (here, before, counted) refl
        | inr elsewhere ↦ rw elsewhere (omega arith)
      ]

  attempts_at-unit_event :
      (kind : EventKind) (p : Fields) (m after : Machine)
      → is_unit_event kind ≡ true
      → validate platform plan kind p m ≡ ok tt
      → apply plan kind p m ≡ ok after
      → attempts_at after ref ≡ attempts_at m ref + start_count kind p ref
  attempts_at-unit_event kind p m after k v h =
      let a = validate-Admitted c kind p m k v in
      let (u, changed, result) = apply-changed c kind p m after a k h in
      ap (λ x. attempts_at x ref) result
      ∙ attempts_at-put_unit m a.ref a.group u (added kind) a.group_found
          (rw a.unit_found (apply_unit-added kind p a.unit u changed))
      ∙ ap (λ n. attempts_at m ref + n) (sym (start_count-named kind p a.ref ref a.named))

  attempts_at-registered :
      (p : Fields) (m after : Machine)
      → validate platform plan unit_registered p m ≡ ok tt
      → apply plan unit_registered p m ≡ ok after
      → attempts_at after ref ≡ attempts_at m ref + 0
  attempts_at-registered p m after v h =
      let r = validate-Registering c p m v in
      let result = ok-injective (sym (apply-Registering c p m r) ∙ h) in
      ap (λ x. attempts_at x ref) (sym result)
      ∙ attempts_at-put_unit m r.ref r.group (new_unit r.ref) 0 r.group_found
          (attempts-absent r.group.units r.ref.unit_key r.absent)
      ∙ ground arith

  -- A validated event adds to the attempts of a unit what it starts of it.
  pub attempts_at-step :
      (kind : EventKind) (p : Fields) (m after : Machine)
      → validate platform plan kind p m ≡ ok tt
      → apply plan kind p m ≡ ok after
      → attempts_at after ref ≡ attempts_at m ref + start_count kind p ref
  unfolding apply
  attempts_at-step execution_created p m after v h =
      omega (arith, attempts_at-same m after (ground arith))
  attempts_at-step execution_started p m after v h =
      omega (arith, attempts_at-same m after (ground arith))
  attempts_at-step execution_succeeded p m after v h =
      omega (arith, attempts_at-same m after (ground arith))
  attempts_at-step execution_failed p m after v h =
      omega (arith, attempts_at-same m after (ground arith))
  attempts_at-step execution_cancelled p m after v h =
      ap attempts_or_zero (find_unit-cancelled m after ref (ground arith))
      ∙ omega (arith, attempts-cancelled (find_unit m ref))
  attempts_at-step stage_sealed p m after v h =
      let s = validate-Sealing c p m v in
      let result = ok-injective (sym (apply-Sealing c p m s) ∙ h) in
      ap (λ x. attempts_at x ref) (sym result)
      ∙ ap attempts_or_zero (find_unit-put_same m s.stage_id s.group _ ref s.group_found refl)
      ∙ omega arith
  attempts_at-step unit_registered p m after v h = attempts_at-registered p m after v h
  attempts_at-step unknown_kind p m after v h = cc
  attempts_at-step kind p m after v h = attempts_at-unit_event kind p m after refl v h

  replay_events-starts_of :
      (events : List Event) (m after : Machine)
      → replay_events c m events ≡ ok after
      → attempts_at after ref ≡ attempts_at m ref + starts_of ref events
  unfolding replay_events starts_of
  replay_events-starts_of [] m after h =
      ap (λ x. attempts_at x ref) (sym (ok-injective h)) ∙ omega arith
  replay_events-starts_of (e ∷ es) m after h =
      let (m', stepped, rest) =
        >>=-eq-ok (at_event e (step c (event_kind e.type) e.payload m)) _ h in
      let (v, a) =
        step-eq-ok c (event_kind e.type) e.payload m m' (at_event-eq-ok c e _ m' stepped) in
      omega (
        arith,
        attempts_at-step (event_kind e.type) e.payload m m' v a,
        replay_events-starts_of es m' after rest,
      )

  -- In a replayed machine the attempts of a unit are its starts in the ledger.
  pub replay-starts_of :
      (ledger : Ledger) (events : List Event) (m : Machine)
      → read platform execution_id ledger ≡ ok events
      → replay c ledger ≡ ok m
      → attempts_at m ref ≡ starts_of ref events
  unfolding replay
  replay-starts_of ledger events m was h =
      let (old, was', h₁) = >>=-eq-ok (read platform execution_id ledger) _ h in
      let (_, _, h₂) = >>=-eq-ok (check_first c old) _ h₁ in
      let (m₀, made, h₃) = >>=-eq-ok (construct c) _ h₂ in
      replay_events-starts_of old m₀ m h₃
      ∙ ap (λ x. attempts_at x ref + starts_of ref old) (construct-eq-ok c m₀ made)
      ∙ ap (λ o. attempts_or_zero o + starts_of ref old) (find_unit-new_machine c ref)
      ∙ omega (arith, ap (starts_of ref) (ok-injective (sym was' ∙ was)))
