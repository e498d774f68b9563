-- ===== src/State/Sessions.antt =====
-- Sessions: the calls of one execution's methods, between the writes of other executions to the
-- same ledger.
use mathlib.Core.List.{append-nil}
use contractplane.Prelude.{
  String, ◌≡◌, ◌∙◌, subst, inl, inr, false, List, [], ◌∷◌, ◌==◌, keep-append,
}
use contractplane.Json.{Fields}
use contractplane.Errors.{Result-cases}
use contractplane.Platform.{IsCodec}
use contractplane.Ledger.{Ledger, Event, is_of, next_event, read, create_execution, append}
use contractplane.Ledger.Appending.{IsClosed, Appended, append-Appended, create_execution-Appended}
use contractplane.Ledger.Raising.{
  read_all-append_raised, read_all-create_execution_raised, IsClosed-append_raised,
  IsClosed-create_execution_raised,
}
use contractplane.State.Step.{Context, Kernel}
use contractplane.State.Recovery.{read-same, IsDurable, perform-IsDurable}
use contractplane.State.Methods.{Request, perform}

pub data Turn : Type 0 where
  own : Request → Turn
  other_create : (id : String) (payload : Fields) → Turn
  other_append : (id type : String) (payload : Fields) → Turn

-- An exception ends its own call; the state it left goes on.
unfoldable pub turn : Context → Turn → Kernel → Kernel
turn c (own r) s = (perform c r s).1
turn c (other_create id payload) s = record s {
  ledger = (create_execution c.platform id payload s.ledger).1;
}
turn c (other_append id type payload) s = record s {
  ledger = (append c.platform id type payload s.ledger).1;
}

unfoldable pub session : Context → List Turn → Kernel → Kernel
unfolding turn
session c [] s = s
session c (t ∷ ts) s = session c ts (turn c t s)

-- The others write under other ids.
abbrev pub IsForeign : String → Turn → Type 0
IsForeign id (own r) = Unit
IsForeign id (other_create other payload) = (other == id) ≡ false
IsForeign id (other_append other type payload) = (other == id) ≡ false

abbrev pub AllForeign : String → List Turn → Type 0
AllForeign id [] = Unit
AllForeign id (t ∷ ts) = IsForeign id t × AllForeign id ts

module _ (c : Context) (codec : IsCodec c.platform) where
  open c use {platform, plan, execution_id}

  -- One more event of another execution is not read.
  read-foreign :
      (before after : Ledger) (old : List Event) (other type : String) (payload : Fields)
      → (other == execution_id) ≡ false
      → Appended platform before old (next_event old other type payload) after
      → read platform execution_id after ≡ read platform execution_id before
  unfolding read
  read-foreign before after old other type payload h a =
      rw (a.read_before, a.read_after, keep-append (is_of execution_id) old) (rw (h, append-nil))

  IsDurable-ledger :
      (s : Kernel) (ledger : Ledger)
      → IsDurable c s
      → IsClosed ledger
      → read platform execution_id ledger ≡ read platform execution_id s.ledger
      → IsDurable c (record s { ledger = ledger })
  IsDurable-ledger s ledger d closed same = record {
    closed = closed;
    events = d.events;
    read_back = same ∙ d.read_back;
    checked = d.checked;
    named = d.named;
    replayed = d.replayed;
  }

  IsDurable-other_append :
      (s : Kernel) (other type : String) (payload : Fields)
      → (other == execution_id) ≡ false
      → IsDurable c s
      → IsDurable c (turn c (other_append other type payload) s)
  unfolding turn
  IsDurable-other_append s other type payload h d =
      elim (Result-cases (append platform other type payload s.ledger).0) [
        | inl (event, e) ↦
            let (old, a, _, same) =
              append-Appended platform codec other type payload s.ledger event d.closed e in
            IsDurable-ledger s _ d a.closed (
              read-foreign s.ledger _ old other type payload h (
                subst
                  (λ x.
                    Appended platform s.ledger old x
                      (append platform other type payload s.ledger).1)
                  same a))
        | inr (x, e) ↦
            IsDurable-ledger s _ d
              (IsClosed-append_raised platform other type payload s.ledger x d.closed e)
              (read-same c _ s.ledger
                (read_all-append_raised platform other type payload s.ledger x e))
      ]

  IsDurable-other_create :
      (s : Kernel) (other : String) (payload : Fields)
      → (other == execution_id) ≡ false
      → IsDurable c s
      → IsDurable c (turn c (other_create other payload) s)
  unfolding turn
  IsDurable-other_create s other payload h d =
      elim (Result-cases (create_execution platform other payload s.ledger).0) [
        | inl (event, e) ↦
            let (old, a, _, same) =
              create_execution-Appended platform codec other "execution.created" payload s.ledger
                event d.closed e in
            IsDurable-ledger s _ d a.closed (
              read-foreign s.ledger _ old other "execution.created" payload h (
                subst
                  (λ x.
                    Appended platform s.ledger old x
                      (create_execution platform other payload s.ledger).1)
                  same a))
        | inr (x, e) ↦
            IsDurable-ledger s _ d
              (IsClosed-create_execution_raised platform other payload s.ledger x d.closed e)
              (read-same c _ s.ledger
                (read_all-create_execution_raised platform other payload s.ledger x e))
      ]

  turn-IsDurable :
      (t : Turn) (s : Kernel) → IsForeign execution_id t → IsDurable c s → IsDurable c (turn c t s)
  unfolding turn
  turn-IsDurable (own r) s f d = perform-IsDurable c codec r s d
  turn-IsDurable (other_create id payload) s f d = IsDurable-other_create s id payload f d
  turn-IsDurable (other_append id type payload) s f d = IsDurable-other_append s id type payload f d

  pub session-IsDurable :
      (ts : List Turn) (s : Kernel)
      → AllForeign execution_id ts
      → IsDurable c s
      → IsDurable c (session c ts s)
  unfolding session
  session-IsDurable [] s f d = d
  session-IsDurable (t ∷ ts) s f d =
      session-IsDurable ts (turn c t s) f.1 (turn-IsDurable t s f.0 d)
