-- ===== src/State/Reachable.antt =====
-- The states that the events of an execution lead to, and what holds in all of them.
use contractplane.Prelude.{◌≡◌, sym, subst, List, [], ◌∷◌}
use contractplane.Json.{Fields}
use contractplane.Errors.{Result, ok, raise, >>=-eq-ok, ok-injective}
use contractplane.Ledger.{Ledger, Event, read}
use contractplane.State.{Machine, new_machine}
use contractplane.State.Kind.{EventKind, event_kind}
use contractplane.State.Validate.{validate}
use contractplane.State.Apply.{apply}
use contractplane.State.Step.{
  Context, Kernel, at_event, step, replay_events, construct, check_first, replay,
}
use contractplane.State.Creation.{construct-eq-ok}
use contractplane.State.Recovery.{IsDurable}

-- The machine after events that are each validated and then applied.
pub data Reachable (c : Context) : Machine → Type 0 where
  initial : Reachable c (new_machine c.plan)
  after_event :
      {m after : Machine} (kind : EventKind) (p : Fields)
      → Reachable c m
      → step c kind p m ≡ ok after
      → Reachable c after

module _ (c : Context) where
  open c use {platform, plan, execution_id}

  -- An event that `step` takes is validated and applied.
  pub step-eq-ok :
      (kind : EventKind) (p : Fields) (m after : Machine)
      → step c kind p m ≡ ok after
      → (validate platform plan kind p m ≡ ok tt) × (apply plan kind p m ≡ ok after)
  unfolding step
  step-eq-ok kind p m after h =
      let (_, v, a) = >>=-eq-ok (validate platform plan kind p m) _ h in (v, a)

  pub at_event-eq-ok :
      (event : Event) (r : Result Machine) (m : Machine) → at_event event r ≡ ok m → r ≡ ok m
  at_event-eq-ok event (ok a) m h = h
  at_event-eq-ok event (raise e) m h = cc

  replay_events-Reachable :
      (events : List Event) (m after : Machine)
      → Reachable c m
      → replay_events c m events ≡ ok after
      → Reachable c after
  unfolding replay_events
  replay_events-Reachable [] m after r h = subst (Reachable c) (ok-injective h) r
  replay_events-Reachable (e ∷ es) m after r h =
      let (m', stepped, rest) =
        >>=-eq-ok (at_event e (step c (event_kind e.type) e.payload m)) _ h in
      replay_events-Reachable es m' after
        (after_event (event_kind e.type) e.payload r (at_event-eq-ok e _ m' stepped)) rest

  pub replay-Reachable : (ledger : Ledger) (m : Machine) → replay c ledger ≡ ok m → Reachable c m
  unfolding replay
  replay-Reachable ledger m h =
      let (events, _, h₁) = >>=-eq-ok (read platform execution_id ledger) _ h in
      let (_, _, h₂) = >>=-eq-ok (check_first c events) _ h₁ in
      let (m₀, made, h₃) = >>=-eq-ok (construct c) _ h₂ in
      replay_events-Reachable events m₀ m
        (subst (Reachable c) (sym (construct-eq-ok c m₀ made)) initial) h₃

  pub IsDurable-Reachable : (s : Kernel) → IsDurable c s → Reachable c s.machine
  IsDurable-Reachable s d = replay_events-Reachable d.events _ _ initial d.replayed
