-- ===== src/State/Kind.antt =====
-- The event types of contractplane/state.py, which the code compares as texts.
use contractplane.Prelude.{String, ◌==◌, ◌≡◌, refl, if◌then◌else◌}

-- `unknown_kind` stands for every other text.
pub data EventKind : Type 0 where
  execution_created execution_started execution_succeeded execution_failed : EventKind
  execution_cancelled stage_sealed unit_registered authorization_requested : EventKind
  authorization_decided unit_ready unit_started unit_claimed unit_awaiting_evidence : EventKind
  evidence_recorded unit_completed unit_skipped unit_failed unknown_kind : EventKind

-- The text that `_emit` is called with. The code emits no unknown event.
unfoldable pub event_type : EventKind → String
event_type execution_created = "execution.created"
event_type execution_started = "execution.started"
event_type execution_succeeded = "execution.succeeded"
event_type execution_failed = "execution.failed"
event_type execution_cancelled = "execution.cancelled"
event_type stage_sealed = "stage.sealed"
event_type unit_registered = "unit.registered"
event_type authorization_requested = "authorization.requested"
event_type authorization_decided = "authorization.decided"
event_type unit_ready = "unit.ready"
event_type unit_started = "unit.started"
event_type unit_claimed = "unit.claimed"
event_type unit_awaiting_evidence = "unit.awaiting-evidence"
event_type evidence_recorded = "evidence.recorded"
event_type unit_completed = "unit.completed"
event_type unit_skipped = "unit.skipped"
event_type unit_failed = "unit.failed"
event_type unknown_kind = "unknown"

-- The comparisons `event_type == "..."`.
unfoldable pub event_kind : String → EventKind
event_kind t =
    if t == "execution.created"
    then execution_created
    else if t == "execution.started"
    then execution_started
    else if t == "execution.succeeded"
    then execution_succeeded
    else if t == "execution.failed"
    then execution_failed
    else if t == "execution.cancelled"
    then execution_cancelled
    else if t == "stage.sealed"
    then stage_sealed
    else if t == "unit.registered"
    then unit_registered
    else if t == "authorization.requested"
    then authorization_requested
    else if t == "authorization.decided"
    then authorization_decided
    else if t == "unit.ready"
    then unit_ready
    else if t == "unit.started"
    then unit_started
    else if t == "unit.claimed"
    then unit_claimed
    else if t == "unit.awaiting-evidence"
    then unit_awaiting_evidence
    else if t == "evidence.recorded"
    then evidence_recorded
    else if t == "unit.completed"
    then unit_completed
    else if t == "unit.skipped"
    then unit_skipped
    else if t == "unit.failed"
    then unit_failed
    else unknown_kind

pub event_kind-event_type : (k : EventKind) → event_kind (event_type k) ≡ k
unfolding event_kind event_type
event_kind-event_type execution_created = refl
event_kind-event_type _ = refl
