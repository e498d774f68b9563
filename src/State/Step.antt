-- ===== src/State/Step.antt =====
-- One event: `_emit`, and the loop of `replay` (contractplane/state.py).
use contractplane.Prelude.{String, List, [], ◌∷◌, ◌==◌, if◌then◌else◌}
use contractplane.Json.{str, Fields, end, field, get_field, is_text}
use contractplane.Errors.{
  execution_id_empty, no_such_execution, first_not_created, plan_digest_mismatch, ledger_error,
  invalid_event_sequence, Result, ok, raise, refuse, ◌>>=◌, ◌>>◌, require,
}
use contractplane.Plan.{ExecutionPlan}
use contractplane.Platform.{Platform}
use contractplane.Ledger.{Ledger, Event, read, create_execution, append}
use contractplane.State.{Machine, new_machine}
use contractplane.State.Kind.{EventKind, execution_created, event_type, event_kind}
use contractplane.State.Validate.{plan_digest, validate}
use contractplane.State.Apply.{apply}
use contractplane.Action.{Action}

-- What an ExecutionMachine keeps from its creation on, beside the library.
pub record Context : Type 0 where
  pub platform : Platform
  pub plan : ExecutionPlan
  pub execution_id : String

-- What its methods change: its other fields, and the ledger's file.
pub record Kernel : Type 0 where
  pub machine : Machine
  pub ledger : Ledger

-- raise LedgerError(...) from exc
abbrev pub at_event {ℓ} : {A : Type ℓ} → Event → Result A → Result A
at_event event (ok a) = ok a
at_event event (raise e) = raise (invalid_event_sequence event.sequence event.type e)

module _ (c : Context) where
  open c use {platform, plan, execution_id}

  -- Validate an event and apply it.
  unfoldable pub step : EventKind → Fields → Machine → Result Machine
  step kind payload m = do validate platform plan kind payload m; apply plan kind payload m

  -- `_apply_event` at the end of `_emit`, from its result.
  unfoldable pub applied : Kernel → Result Machine → Result (Unit {0}) × Kernel
  applied s (ok m) = (ok tt, record s { machine = m })
  applied s (raise e) = (raise e, s)

  -- What follows `self.ledger.append(...)`, from its result.
  unfoldable pub recorded :
      EventKind → Fields → Machine → Result Event × Ledger → Result (Unit {0}) × Kernel
  unfolding applied
  recorded kind payload m (ok event, ledger) =
      applied (record { machine = m; ledger = ledger }) (apply plan kind payload m)
  recorded kind payload m (raise e, ledger) = (raise e, record { machine = m; ledger = ledger })

  -- What follows `_validate_event`, from its result.
  unfoldable pub validated :
      EventKind → Fields → Kernel → Result (Unit {0}) → Result (Unit {0}) × Kernel
  unfolding recorded
  validated kind payload s (ok _) =
      recorded kind payload s.machine
        (append platform execution_id (event_type kind) payload s.ledger)
  validated kind payload s (raise e) = (raise e, s)

  unfoldable pub emit : EventKind → Fields → Action Kernel (Unit {0})
  unfolding validated
  emit kind payload s = validated kind payload s (validate platform plan kind payload s.machine)

  -- The loop of `replay`.
  unfoldable pub replay_events : Machine → List Event → Result Machine
  replay_events m [] = ok m
  replay_events m (event ∷ events) = do
    m' ← at_event event (step (event_kind event.type) event.payload m)
    replay_events m' events

  -- ExecutionMachine(plan, ledger, execution_id)
  unfoldable pub construct : Result Machine
  construct = if execution_id == "" then refuse execution_id_empty else ok (new_machine plan)

  unfoldable pub check_first : List Event → Result (Unit {0})
  check_first [] = raise (ledger_error no_such_execution)
  check_first (first ∷ _) = do
    require (first.type == "execution.created") (ledger_error first_not_created)
    require (is_text (get_field first.payload "planDigest") (plan_digest platform plan))
        (ledger_error plan_digest_mismatch)

  unfoldable pub replay : Ledger → Result Machine
  unfolding check_first construct
  replay ledger = do
    events ← read platform execution_id ledger
    check_first events
    machine ← construct
    replay_events machine events

  abbrev pub created_payload : Fields
  created_payload =
      field "domain" (str plan.domain_name)
        (field "flow" (str plan.flow) (field "planDigest" (str (plan_digest platform plan)) end))

  -- The end of `create`, behind `ledger.create_execution`.
  unfoldable pub opened_execution : Machine → Result Event × Ledger → Result Machine × Ledger
  opened_execution m (ok event, ledger) = (apply plan execution_created created_payload m, ledger)
  opened_execution m (raise e, ledger) = (raise e, ledger)

  -- The start of `create`: the machine that the creation event may follow.
  unfoldable pub prepared : Result Machine
  unfolding construct
  prepared = do
    machine ← construct
    validate platform plan execution_created created_payload machine
    ok machine

  -- What follows in `create`, from the machine.
  unfoldable pub created_from : Ledger → Result Machine → Result Machine × Ledger
  unfolding opened_execution
  created_from ledger (ok machine) =
      opened_execution machine (create_execution platform execution_id created_payload ledger)
  created_from ledger (raise e) = (raise e, ledger)

  unfoldable pub create : Ledger → Result Machine × Ledger
  unfolding created_from prepared
  create ledger = created_from ledger prepared
