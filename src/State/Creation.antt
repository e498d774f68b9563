-- ===== src/State/Creation.antt =====
-- `create`: the ledger of a new execution replays to its machine.
use contractplane.Prelude.{
  String, ◌≡◌, refl, sym, ap, ◌∙◌, subst, false, List, [], ◌∷◌, arith, eq_iff, any, keep,
  keep-append,
}
use contractplane.Errors.{Result, ok, raise, >>=-eq-ok, ok-injective}
use contractplane.Platform.{IsCodec}
use contractplane.Ledger.{Ledger, Event, is_of, next_event, read, create_execution}
use contractplane.Ledger.Appending.{IsClosed, Appended, create_execution-Appended}
use contractplane.State.{Machine, new_machine}
use contractplane.State.Kind.{execution_created, event_kind}
use contractplane.State.Validate.{plan_digest, validate}
use contractplane.State.Apply.{apply}
use contractplane.State.Step.{
  Context, step, applied, replay_events, construct, check_first, created_payload, opened_execution,
  prepared, created_from, create,
}
use contractplane.State.Recovery.{IsDurable}

keep_none :
    (id : String) (events : List Event)
    → any (is_of id) events ≡ false
    → keep (is_of id) events ≡ []
keep_none id [] h = refl
keep_none id (e ∷ es) h = ground (arith, keep_none id es)

module _ (c : Context) where
  open c use {platform, plan, execution_id}

  abbrev first_event : List Event → Event
  first_event old = next_event old execution_id "execution.created" (created_payload c)

  opened_execution-eq-ok :
      (machine m : Machine) (r : Result Event × Ledger)
      → (opened_execution c machine r).0 ≡ ok m
      → (event : Event) × (r.0 ≡ ok event)
        × (apply plan execution_created (created_payload c) machine ≡ ok m)
        × ((opened_execution c machine r).1 ≡ r.1)
  unfolding opened_execution
  opened_execution-eq-ok machine m (ok event, ledger) h = (event, refl, h, refl)
  opened_execution-eq-ok machine m (raise e, ledger) h = cc

  pub construct-eq-ok : (m : Machine) → construct c ≡ ok m → m ≡ new_machine plan
  unfolding construct
  construct-eq-ok m h = ground arith

  prepared-eq-ok :
      (m : Machine)
      → prepared c ≡ ok m
      → (construct c ≡ ok (new_machine plan))
        × (m ≡ new_machine plan)
        × (validate platform plan execution_created (created_payload c) (new_machine plan) ≡ ok tt)
  unfolding prepared
  prepared-eq-ok m h =
      let (m₀, made, h₁) = >>=-eq-ok (construct c) _ h in
      let (_, valid, h₂) =
        >>=-eq-ok (validate platform plan execution_created (created_payload c) m₀) _ h₁ in
      let same = construct-eq-ok m₀ made in
      (
        made ∙ ap ok same,
        sym (ok-injective h₂) ∙ same,
        subst (λ x. validate platform plan execution_created (created_payload c) x ≡ ok tt) same
            valid,
      )

  check_first-first_event : (old : List Event) → check_first c (first_event old ∷ []) ≡ ok tt
  unfolding check_first
  check_first-first_event old = let d = plan_digest platform plan in ground (arith, eq_iff d d)

  replay_events-first_event :
      (old : List Event) (m : Machine)
      → validate platform plan execution_created (created_payload c) (new_machine plan) ≡ ok tt
      → apply plan execution_created (created_payload c) (new_machine plan) ≡ ok m
      → replay_events c (new_machine plan) (first_event old ∷ []) ≡ ok m
  unfolding replay_events step event_kind
  replay_events-first_event old m v a = rw (v, a)

  read-first :
      (before after : Ledger) (old : List Event)
      → Appended platform before old (first_event old) after
      → any (is_of execution_id) old ≡ false
      → read platform execution_id after ≡ ok (first_event old ∷ [])
  unfolding read
  read-first before after old a h =
      rw (a.read_after, keep-append (is_of execution_id) old, keep_none execution_id old h)
        (ground (arith, eq_iff execution_id execution_id))

  created_from-IsDurable :
      IsCodec platform
      → (ledger : Ledger) (m : Machine) (r : Result Machine) → IsClosed ledger
      → prepared c ≡ r
      → (created_from c ledger r).0 ≡ ok m
      → IsDurable c (record { machine = m; ledger = (created_from c ledger r).1 })
  unfolding created_from
  created_from-IsDurable codec ledger m (ok m₀) closed p h =
      let (named, start, valid) = prepared-eq-ok m₀ p in
      let write = create_execution platform execution_id (created_payload c) ledger in
      let (event, e, applied, moved) = opened_execution-eq-ok m₀ m write h in
      let (old, a, fresh, same) =
        create_execution-Appended platform codec execution_id "execution.created"
          (created_payload c) ledger event closed e in
      record {
        closed = rw moved a.closed;
        events = first_event old ∷ [];
        read_back = rw moved (
            read-first ledger write.1 old
              (subst (λ x. Appended platform ledger old x write.1) same a) fresh);
        checked = check_first-first_event old;
        named = named;
        replayed =
            replay_events-first_event old m valid (
              subst (λ x. apply plan execution_created (created_payload c) x ≡ ok m) start applied);
      }
  created_from-IsDurable codec ledger m (raise e) closed p h = cc

  -- A new execution starts with its creation event in the ledger.
  pub create-IsDurable :
      IsCodec platform
      → (ledger : Ledger) (m : Machine) → IsClosed ledger
      → (create c ledger).0 ≡ ok m
      → IsDurable c (record { machine = m; ledger = (create c ledger).1 })
  unfolding create
  create-IsDurable codec ledger m closed h =
      created_from-IsDurable codec ledger m (prepared c) closed refl h
