-- ===== src/State/Recovery.antt =====
-- The ledger holds the machine: replaying it rebuilds the state that the methods left.
use contractplane.Prelude.{
  ◌≡◌, refl, sym, ap, ◌∙◌, subst, inl, inr, List, [], ◌∷◌, ◌++◌, arith, eq_iff, keep, keep-append,
}
use contractplane.Json.{Fields}
use contractplane.Errors.{Result, ok, ◌>>=◌, Result-cases, ok-injective}
use contractplane.Platform.{IsCodec}
use contractplane.Ledger.{Ledger, Event, is_of, next_event, read_all, read}
use contractplane.Ledger.Appending.{IsClosed, Appended}
use contractplane.State.{Machine, new_machine}
use contractplane.State.Kind.{EventKind, event_type, event_kind, event_kind-event_type}
use contractplane.State.Step.{
  Context, Kernel, at_event, step, emit, replay_events, construct, check_first, replay,
}
use contractplane.State.Emission.{Outcome, refused, emitted, emit-Outcome}
use contractplane.State.Methods.{Request, perform}
use contractplane.Action.Preserves.{Preserves}
use contractplane.State.Preserved.{perform-Preserves}

-- Replaying `events` and then one more.
replay_events-append :
    (c : Context) (m : Machine) (events : List Event) (event : Event)
    → replay_events c m (events ++ event ∷ []) ≡ (
        replay_events c m events >>= λ m'.
        at_event event (step c (event_kind event.type) event.payload m'))
unfolding replay_events
replay_events-append c m [] event = ground arith
replay_events-append c m (x ∷ xs) event =
    elim (Result-cases (at_event x (step c (event_kind x.type) x.payload m))) [
      | inl (m', e) ↦ rw e (replay_events-append c m' xs event)
      | inr (y, e) ↦ rw e
    ]

-- The events of the execution, as far as they are in the ledger, lead to the machine.
pub record IsDurable (c : Context) (s : Kernel) : Type 0 where
  pub closed : IsClosed s.ledger
  pub events : List Event
  pub read_back : read c.platform c.execution_id s.ledger ≡ ok events
  pub checked : check_first c events ≡ ok tt
  pub named : construct c ≡ ok (new_machine c.plan)
  pub replayed : replay_events c (new_machine c.plan) events ≡ ok s.machine

module _ (c : Context) where
  open c use {platform, plan, execution_id}

  pub IsDurable-replay : (s : Kernel) → IsDurable c s → replay c s.ledger ≡ ok s.machine
  unfolding replay
  IsDurable-replay s d = rw (d.read_back, d.checked, d.named) d.replayed

  check_first-append :
      (events : List Event) (event : Event)
      → check_first c events ≡ ok tt
      → check_first c (events ++ event ∷ []) ≡ ok tt
  unfolding check_first
  check_first-append [] event h = cc
  check_first-append (x ∷ xs) event h = h

  pub read-same :
      (a b : Ledger)
      → read_all platform a ≡ read_all platform b
      → read platform execution_id a ≡ read platform execution_id b
  unfolding read
  read-same a b h = rw h

  -- What the execution reads, behind an event of its own.
  read-Appended :
      (before after : Ledger) (old : List Event) (kind : EventKind) (p : Fields)
      → Appended platform before old (next_event old execution_id (event_type kind) p) after
      → (read platform execution_id before ≡ ok (keep (is_of execution_id) old))
        × (read platform execution_id after
            ≡ ok (
                keep (is_of execution_id) old
                ++ next_event old execution_id (event_type kind) p ∷ []))
  unfolding read
  read-Appended before after old kind p a = (
    rw a.read_before,
    rw (a.read_after, keep-append (is_of execution_id) old)
        (ground (arith, eq_iff execution_id execution_id)),
  )

  module _ (codec : IsCodec platform) where
    IsDurable-Outcome :
        (kind : EventKind) (p : Fields) (s : Kernel) (r : Result (Unit {0})) (t : Kernel)
        → IsDurable c s
        → Outcome c kind p s r t
        → IsDurable c t
    IsDurable-Outcome kind p s r t d (refused e _ machine ledger closed) = record {
      closed = closed;
      events = d.events;
      read_back = read-same t.ledger s.ledger ledger ∙ d.read_back;
      checked = d.checked;
      named = d.named;
      replayed = d.replayed ∙ ap ok (sym machine);
    }
    IsDurable-Outcome kind p s r t d (emitted old event _ a there same stepped) =
        let own = next_event old execution_id (event_type kind) p in
        let a' = subst (λ x. Appended platform s.ledger old x t.ledger) same a in
        let (before, after) = read-Appended s.ledger t.ledger old kind p a' in
        let kept = ok-injective (sym before ∙ d.read_back) in
        record {
          closed = a.closed;
          events = d.events ++ own ∷ [];
          read_back = after ∙ ap (λ es. ok (es ++ own ∷ [])) kept;
          checked = check_first-append d.events own d.checked;
          named = d.named;
          replayed =
              replay_events-append c (new_machine plan) d.events own
              ∙ rw (d.replayed, event_kind-event_type, stepped) refl;
        }

    pub emit-IsDurable : (kind : EventKind) (p : Fields) → Preserves (IsDurable c) (emit c kind p)
    emit-IsDurable kind p = record {
      run = λ s d. IsDurable-Outcome kind p s _ _ d (emit-Outcome c codec kind p s d.closed);
    }

    -- Every call of a public method leaves a ledger that replays to the machine.
    pub perform-IsDurable :
        (r : Request) (s : Kernel) → IsDurable c s → IsDurable c (perform c r s).1
    perform-IsDurable r s d = (perform-Preserves c (IsDurable c) emit-IsDurable r).run s d
