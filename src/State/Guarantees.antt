-- ===== src/State/Guarantees.antt =====
-- What the events of an execution can lead to, for every ledger that `replay` takes, and what a
-- session of calls leaves in the ledger.
use contractplane.Prelude.Dict
use contractplane.Prelude.{
  ◌≤◌, ◌<◌, String, ◌≡◌, refl, ap, inl, inr, arith, Option-cases, ◌∙◌, true, false, ◌&&◌, some,
  List, all, is_empty,
}
use contractplane.Json.{str, Fields}
use contractplane.Errors.{Result, ok, raise}
use contractplane.Models.{Evidence}
use contractplane.Plan.{CompiledStage}
use contractplane.Platform.{IsCodec}
use contractplane.Ledger.{Ledger, Event, read}
use contractplane.State.Starts.{starts_of, attempts_or_zero, attempts_at, replay-starts_of}
use contractplane.Ledger.Appending.{IsClosed}
use contractplane.State.{
  ExecutionStatus, succeeded, UnitRef, Receipt, WorkUnitState, StageGroupState, Machine, is_failed,
  is_completed, find_unit, units_done, needs_satisfied, all_work_satisfied, gates_accepted,
  new_machine, stage_contract,
}
use contractplane.State.Kind.{EventKind}
use contractplane.State.Validate.{evidence_contract, is_singleton, receipt_valid, validate}
use contractplane.State.Apply.{apply}
use contractplane.State.Step.{Context, Kernel, step, validated, emit, replay, create}
use contractplane.State.Units.{AllUnits, IsKept, AllUnits-step}
use contractplane.State.Finished.{StaysFinished, step-StaysFinished}
use contractplane.State.Reachable.{Reachable, initial, after_event, step-eq-ok, replay-Reachable}
use contractplane.State.Lifecycle.{
  has_run, IsSound, apply_unit-IsSound, new_unit-IsSound, cancel_unit-IsSound,
}
use contractplane.State.Recovery.{IsDurable-replay}
use contractplane.State.Methods.{Request, perform}
use contractplane.State.Preserved.{perform-Preserves}
use contractplane.Action.Preserves.{Preserves}
use contractplane.State.Order.{
  is_default_key, InOrder, AllInOrder, AllInOrder-step, new_machine-AllInOrder,
  find_unit-new_machine,
}
use contractplane.State.Status.{
  is_live, is_closed_unit, IsSettled, validate-live, IsSettled-step, new_machine-IsSettled,
}
use contractplane.State.Creation.{create-IsDurable}
use contractplane.State.Sessions.{Turn, session, AllForeign, session-IsDurable}

-- An invariant of events is one of all states that they lead to.
Reachable-keeps {ℓ} :
    (c : Context) (P : Machine → Type ℓ)
    → P (new_machine c.plan)
    → ((kind : EventKind) (p : Fields) (m after : Machine)
        → validate c.platform c.plan kind p m ≡ ok tt
        → apply c.plan kind p m ≡ ok after
        → P m
        → P after)
    → {m : Machine} → Reachable c m
    → P m
Reachable-keeps c P new keeps initial = new
Reachable-keeps c P new keeps (after_event kind p r stepped) =
    let (v, h) = step-eq-ok c kind p _ _ stepped in
    keeps kind p _ _ v h (Reachable-keeps c P new keeps r)

IsSound-IsKept : (c : Context) → IsKept c (IsSound c.platform)
IsSound-IsKept c = record {
  new = new_unit-IsSound c.platform;
  cancels = cancel_unit-IsSound c.platform;
  changes = λ kind p contract u v. apply_unit-IsSound c.platform contract kind p u v;
}

module _ (c : Context) where
  open c use {platform, plan, execution_id}

  Reachable-IsSettled : (m : Machine) → Reachable c m → IsSettled m
  Reachable-IsSettled m r =
      Reachable-keeps c IsSettled (new_machine-IsSettled c) (IsSettled-step c) r

  Reachable-IsSound :
      (m : Machine) → Reachable c m → AllUnits c (IsSound platform) (IsSound-IsKept c) m
  Reachable-IsSound m r =
      Reachable-keeps c (AllUnits c (IsSound platform) (IsSound-IsKept c))
        (λ ref contract unit known at. cc (find_unit-new_machine c ref))
        (AllUnits-step c (IsSound platform) (IsSound-IsKept c)) r

  replay-IsSettled : (ledger : Ledger) (m : Machine) → replay c ledger ≡ ok m → IsSettled m
  replay-IsSettled ledger m h = Reachable-IsSettled m (replay-Reachable c ledger m h)

  replay-AllInOrder : (ledger : Ledger) (m : Machine) → replay c ledger ≡ ok m → AllInOrder c m
  replay-AllInOrder ledger m h =
      Reachable-keeps c (AllInOrder c) (new_machine-AllInOrder c) (AllInOrder-step c)
        (replay-Reachable c ledger m h)

  module _ (ledger : Ledger) (m : Machine) (replayed : replay c ledger ≡ ok m) where
    module _ (ref : UnitRef) (contract : CompiledStage) (unit : WorkUnitState)
        (known : stage_contract plan ref.stage_id ≡ ok contract)
        (at : find_unit m ref ≡ some unit) where
      sound : IsSound platform contract unit
      sound = Reachable-IsSound m (replay-Reachable c ledger m replayed) ref contract unit known at

      -- Whatever stands in the ledger: if `replay` returns a machine, then each completed unit in
      -- it has an accepted receipt for every gate of its stage.
      pub replay_gates : is_completed unit.status ≡ true → gates_accepted contract unit ≡ true
      replay_gates = sound.gated

      -- If `replay` returns a machine, then a receipt that a unit holds as accepted is for an
      -- evidence contract of the unit's stage and is valid by that contract's schema.
      pub replay_receipts :
          (id : String) (receipt : Receipt)
          → Dict.get unit.evidence id ≡ some receipt
          → receipt.accepted ≡ true
          → (e : Evidence) × (evidence_contract contract (str id) ≡ ok e)
            × (receipt_valid platform e.schema receipt.payload ≡ true)
      replay_receipts = sound.verified

      -- If `replay` returns a machine, then a unit that is running, claimed, awaiting evidence or
      -- completed was started at least once.
      pub replay_started : has_run unit.status ≡ true → 0 < unit.attempts
      replay_started = sound.started

    -- If `replay` returns a machine, then in the events of the execution that the ledger holds each
    -- unit of a stage of the plan is started at most `maxAttempts` times, and the machine counts
    -- these starts as the unit's attempts.
    pub replay_attempts :
        (events : List Event) (ref : UnitRef) (contract : CompiledStage)
        → read platform execution_id ledger ≡ ok events
        → stage_contract plan ref.stage_id ≡ ok contract
        → (starts_of ref events ≤ contract.policy.max_attempts)
          × (attempts_at m ref ≡ starts_of ref events)
    replay_attempts events ref contract was known =
        let counted = replay-starts_of c ref ledger events m was replayed in
        elim (Option-cases (find_unit m ref)) [
          | inl absent ↦ (omega (arith, counted, ap attempts_or_zero absent), counted)
          | inr (unit, at) ↦ (
            omega (
              arith,
              counted,
              ap attempts_or_zero at,
              (Reachable-IsSound m (replay-Reachable c ledger m replayed) ref contract unit known
                  at).bounded,
            ),
            counted,
          )
        ]

    module _ (id : String) (contract : CompiledStage) (group : StageGroupState)
        (known : stage_contract plan id ≡ ok contract)
        (there : Dict.get m.stage_groups id ≡ some group) where
      in_order : InOrder c m id group
      unfolding AllInOrder
      in_order = replay-AllInOrder ledger m replayed id group there

      -- If `replay` returns a machine, then a stage that has a unit has its needs satisfied: each
      -- stage that it needs is sealed, with all units completed or skipped.
      pub replay_needs : is_empty group.units ≡ false → needs_satisfied m contract.needs ≡ ok true
      replay_needs = in_order.satisfied contract known

      -- If `replay` returns a machine, then a stage that is sealed has a unit.
      pub replay_sealed : group.sealed ≡ true → is_empty group.units ≡ false
      replay_sealed = in_order.filled

      -- If `replay` returns a machine, then the units of a stage without fanout have the key
      -- "default".
      pub replay_single :
          is_singleton contract.fanout.mode ≡ true
          → all is_default_key (Dict.keys group.units) ≡ true
      replay_single = in_order.single contract known

    -- If `replay` returns a machine that has succeeded, then each stage is sealed and has units,
    -- all of them completed or skipped.
    pub replay_success : m.status ≡ succeeded → all_work_satisfied m ≡ true
    replay_success = (replay-IsSettled ledger m replayed).success

    -- If `replay` returns a machine that has failed, then one of its units has failed.
    pub replay_failure :
        m.status ≡ ExecutionStatus.failed
        → (ref : UnitRef) × (unit : WorkUnitState) × (find_unit m ref ≡ some unit)
          × (is_failed unit.status ≡ true)
    replay_failure = (replay-IsSettled ledger m replayed).failure

    -- If `replay` returns a machine that was cancelled, then each of its units is completed,
    -- skipped, failed or cancelled.
    pub replay_cancellation :
        m.status ≡ ExecutionStatus.cancelled
        → (ref : UnitRef) (unit : WorkUnitState) → find_unit m ref ≡ some unit
        → is_closed_unit unit.status ≡ true
    replay_cancellation = (replay-IsSettled ledger m replayed).cancellation

  validated_ended :
      (s : Kernel) (kind : EventKind) (p : Fields) (r : Result (Unit {0}))
      → IsSettled s.machine
      → is_live s.machine.status ≡ false
      → validate platform plan kind p s.machine ≡ r
      → (validated c kind p s r).1 ≡ s
  unfolding validated
  validated_ended s kind p (ok u) settled ended v = cc (validate-live c kind p s.machine settled v)
  validated_ended s kind p (raise e) settled ended v = refl

  -- In an ended execution an event is refused, and nothing changes.
  emit-ended :
      (s : Kernel) (kind : EventKind) (p : Fields)
      → IsSettled s.machine
      → is_live s.machine.status ≡ false
      → (emit c kind p s).1 ≡ s
  unfolding emit
  emit-ended s kind p settled ended = validated_ended s kind p _ settled ended refl

  -- Once an execution has ended, that is `replay` returned its machine, which has succeeded,
  -- failed or been cancelled, no call of a method changes the machine or the ledger.
  pub perform-ended :
      (ledger : Ledger) (s : Kernel) (r : Request)
      → replay c ledger ≡ ok s.machine
      → is_live s.machine.status ≡ false
      → (perform c r s).1 ≡ s
  perform-ended ledger s r h ended = (perform-Preserves c (λ t. t ≡ s) still r).run s refl
    where
      still : (kind : EventKind) (p : Fields) → Preserves (λ t. t ≡ s) (emit c kind p)
      still kind p = record {
        run = λ t same.
            ap (λ x. (emit c kind p x).1) same
            ∙ emit-ended s kind p (replay-IsSettled ledger s.machine h) ended;
      }

  -- A stage that is sealed with all units completed or skipped stays there, sealed and with all
  -- units completed or skipped, behind every event that is validated and applied.
  pub step_keeps_finished :
      (kind : EventKind) (p : Fields) (m after : Machine) (id : String) (group : StageGroupState)
      → step c kind p m ≡ ok after
      → Dict.get m.stage_groups id ≡ some group
      → (group.sealed && units_done group) ≡ true
      → (g : StageGroupState) × (Dict.get after.stage_groups id ≡ some g)
        × ((g.sealed && units_done g) ≡ true)
  unfolding StaysFinished
  step_keeps_finished kind p m after id group h there done =
      let (v, a) = step-eq-ok c kind p m after h in
      step-StaysFinished c kind p m after v a id group there done

  -- An execution is created at a ledger without an unfinished line. Then any calls of its methods
  -- are made, also such that raise, and between them other executions, under other ids, write to
  -- the ledger. `replay` returns from that ledger the machine that the calls have left.
  pub session_replays :
      IsCodec platform
      → (ledger : Ledger) (m : Machine) (ts : List Turn) → IsClosed ledger
      → (create c ledger).0 ≡ ok m
      → AllForeign execution_id ts
      → let t = session c ts (record { machine = m; ledger = (create c ledger).1 }) in
        replay c t.ledger ≡ ok t.machine
  session_replays codec ledger m ts closed h foreign =
      IsDurable-replay c _
        (session-IsDurable c codec ts _ foreign (create-IsDurable c codec ledger m closed h))
