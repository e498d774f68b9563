-- ===== src/State/Emission.antt =====
-- The two outcomes of `_emit`.
use contractplane.Prelude.{◌≡◌, refl, sym, ap, ◌∙◌, subst, true, List, any}
use contractplane.Json.{Fields}
use contractplane.Errors.{Exception, Result, ok, raise}
use contractplane.Platform.{IsCodec}
use contractplane.Ledger.{Ledger, Event, is_of, next_event, read_all, append}
use contractplane.Ledger.Appending.{IsClosed, Appended, append-Appended}
use contractplane.Ledger.Raising.{read_all-append_raised, IsClosed-append_raised}
use contractplane.State.Kind.{EventKind, event_type}
use contractplane.State.Validate.{validate}
use contractplane.State.Apply.{apply}
use contractplane.State.Step.{Context, Kernel, step, applied, recorded, validated, emit}
use contractplane.State.Progress.{apply-total}

-- Either the machine and what the ledger reads as stay, or one event is written and applied.
pub data Outcome (c : Context) (kind : EventKind) (p : Fields) (s : Kernel) (r : Result (Unit {0}))
    (t : Kernel) : Type 0 where
  refused :
      (e : Exception)
      → r ≡ raise e
      → t.machine ≡ s.machine
      → read_all c.platform t.ledger ≡ read_all c.platform s.ledger
      → IsClosed t.ledger
      → Outcome c kind p s r t
  emitted :
      (old : List Event) (event : Event)
      → r ≡ ok tt
      → Appended c.platform s.ledger old event t.ledger
      → any (is_of c.execution_id) old ≡ true
      → event ≡ next_event old c.execution_id (event_type kind) p
      → step c kind p s.machine ≡ ok t.machine
      → Outcome c kind p s r t

module _ (c : Context) (codec : IsCodec c.platform) (kind : EventKind) (p : Fields) where
  open c use {platform, plan, execution_id}

  applied-Outcome :
      (s : Kernel) (ledger : Ledger) (old : List Event) (event : Event)
      → validate platform plan kind p s.machine ≡ ok tt
      → Appended platform s.ledger old event ledger
      → any (is_of execution_id) old ≡ true
      → event ≡ next_event old execution_id (event_type kind) p
      → let r =
          applied c
            (record { machine = s.machine; ledger = ledger })
            (apply plan kind p s.machine) in
        Outcome c kind p s r.0 r.1
  unfolding applied step
  applied-Outcome s ledger old event v a there same =
      let (after, e) = apply-total c kind p s.machine v in
      rw e (emitted old event refl a there same (rw (v, e)))

  recorded-Outcome :
      (s : Kernel)
      → IsClosed s.ledger
      → validate platform plan kind p s.machine ≡ ok tt
      → (r : Result Event) (ledger : Ledger)
      → append platform execution_id (event_type kind) p s.ledger ≡ (r, ledger)
      → let t = recorded c kind p s.machine (r, ledger) in Outcome c kind p s t.0 t.1
  unfolding recorded
  recorded-Outcome s closed v (ok event) ledger h =
      let (old, a, there, same) =
        append-Appended platform codec execution_id (event_type kind) p s.ledger event closed
          (ap (λ x. x.0) h) in
      applied-Outcome s ledger old event v
        (subst (Appended platform s.ledger old event) (ap (λ x. x.1) h) a) there same
  recorded-Outcome s closed v (raise e) ledger h =
      refused e refl refl
        (sym (ap (λ x. read_all platform x.1) h)
          ∙ read_all-append_raised platform execution_id (event_type kind) p s.ledger e
              (ap (λ x. x.0) h))
        (subst IsClosed (ap (λ x. x.1) h) (
          IsClosed-append_raised platform execution_id (event_type kind) p s.ledger e closed
            (ap (λ x. x.0) h)))

  validated-Outcome :
      (s : Kernel)
      → IsClosed s.ledger
      → (r : Result (Unit {0})) → validate platform plan kind p s.machine ≡ r
      → let t = validated c kind p s r in Outcome c kind p s t.0 t.1
  unfolding validated
  validated-Outcome s closed (ok u) v = recorded-Outcome s closed v _ _ refl
  validated-Outcome s closed (raise e) v = refused e refl refl refl closed

  -- At a ledger without an unfinished line, with a codec that reads what it writes, `_emit` has one
  -- of two outcomes. Either it raises, and the machine and what the ledger reads as are the same.
  -- Or it returns, the ledger reads as before with the event behind, which has the next number, and
  -- the machine is the one that the event leads to.
  pub emit-Outcome :
      (s : Kernel) → IsClosed s.ledger → Outcome c kind p s (emit c kind p s).0 (emit c kind p s).1
  unfolding emit
  emit-Outcome s closed = validated-Outcome s closed _ refl
