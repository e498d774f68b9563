-- ===== src/Ledger/Raising.antt =====
-- What `append` and `create_execution` leave where they raise: nothing is written before.
use contractplane.Prelude.{String, ◌≡◌, refl, sym, subst, ap, ◌∙◌, Option, none, some, List}
use contractplane.Json.{Fields}
use contractplane.Errors.{Exception, Result, ok, raise}
use contractplane.Platform.{Platform}
use contractplane.Action.{Action, continue}
use contractplane.Ledger.{
  LedgerFile, Ledger, Event, lines_of, settle, opened, before_opening, decode, read_all, next_event,
  write_event, append_locked, append_under_lock, create_execution, append,
}
use contractplane.Ledger.Appending.{IsClosed, opened-closed, read_all-opened}

write_event-raised :
    (e : Event) (o : Option String) (file : LedgerFile) (x : Exception)
    → (write_event e o file).0 ≡ raise x
    → (write_event e o file).1 ≡ file
unfolding write_event
write_event-raised e none file x h = refl
write_event-raised e (some t) file x h = cc

-- A block leaves the file alone where it raises, if what follows its first call does.
continue-raised :
    {A : Type 0} (r : Result A) (f : A → Action LedgerFile Event) (file : LedgerFile)
    (e : Exception)
    → ((a : A) → (f a file).0 ≡ raise e → (f a file).1 ≡ file)
    → (continue r f file).0 ≡ raise e
    → (continue r f file).1 ≡ file
continue-raised (ok a) f file e k h = k a h
continue-raised (raise x) f file e k h = refl

module _ (platform : Platform) where
  -- Nothing is written before a raise: the checks stand before the write.
  append_under_lock-raised :
      (ledger : Ledger) (check : List Event → Result (Unit {0})) (id type : String)
      (payload : Fields) (e : Exception)
      → (append_under_lock platform ledger check id type payload).0 ≡ raise e
      → (append_under_lock platform ledger check id type payload).1 ≡ some (opened ledger)
  unfolding append_under_lock append_locked settle
  append_under_lock-raised ledger check id type payload e h =
      let file = opened ledger in
      ap some (
        continue-raised (decode platform 1 (lines_of file)) _ file e
          (λ events.
            continue-raised (check events) _ file e
              λ _ raised. write_event-raised (next_event events id type payload) _ file e raised)
          h)

  read_all-under_lock_raised :
      (ledger : Ledger) (check : List Event → Result (Unit {0})) (id type : String)
      (payload : Fields) (e : Exception)
      → (append_under_lock platform ledger check id type payload).0 ≡ raise e
      → read_all platform (append_under_lock platform ledger check id type payload).1
        ≡ read_all platform ledger
  unfolding read_all
  read_all-under_lock_raised ledger check id type payload e h =
      ap (read_all platform) (append_under_lock-raised ledger check id type payload e h)
      ∙ sym (read_all-opened platform ledger)

  -- The same behind the checks of the arguments, for both operations.
  read_all-before_opening :
      (ledger : Ledger) (r : Result (Unit {0})) (rest : Result Event × Ledger) (e : Exception)
      → (rest.0 ≡ raise e → read_all platform rest.1 ≡ read_all platform ledger)
      → (before_opening ledger r rest).0 ≡ raise e
      → read_all platform (before_opening ledger r rest).1 ≡ read_all platform ledger
  unfolding before_opening
  read_all-before_opening ledger (raise x) rest e k h = refl
  read_all-before_opening ledger (ok u) rest e k h = k h

  -- If `append` raises, then the ledger reads as it did before.
  pub read_all-append_raised :
      (id type : String) (payload : Fields) (ledger : Ledger) (e : Exception)
      → (append platform id type payload ledger).0 ≡ raise e
      → read_all platform (append platform id type payload ledger).1 ≡ read_all platform ledger
  unfolding append
  read_all-append_raised id type payload ledger e h =
      read_all-before_opening ledger _ _ e (read_all-under_lock_raised ledger _ id type payload e) h

  pub read_all-create_execution_raised :
      (id : String) (payload : Fields) (ledger : Ledger) (e : Exception)
      → (create_execution platform id payload ledger).0 ≡ raise e
      → read_all platform (create_execution platform id payload ledger).1 ≡ read_all platform ledger
  unfolding create_execution
  read_all-create_execution_raised id payload ledger e h =
      read_all-before_opening ledger _ _ e
        (read_all-under_lock_raised ledger _ id "execution.created" payload e) h

-- A method that raises leaves a closed file closed.
IsClosed-before_opening :
    (ledger : Ledger) (r : Result (Unit {0})) (rest : Result Event × Ledger) (e : Exception)
    → IsClosed ledger
    → (rest.0 ≡ raise e → rest.1 ≡ some (opened ledger))
    → (before_opening ledger r rest).0 ≡ raise e
    → IsClosed (before_opening ledger r rest).1
unfolding before_opening
IsClosed-before_opening ledger (raise x) rest e c k h = c
IsClosed-before_opening ledger (ok u) rest e c k h =
    subst IsClosed (sym (k h)) (opened-closed ledger c)

pub IsClosed-append_raised :
    (platform : Platform) (id type : String) (payload : Fields) (ledger : Ledger) (e : Exception)
    → IsClosed ledger
    → (append platform id type payload ledger).0 ≡ raise e
    → IsClosed (append platform id type payload ledger).1
unfolding append
IsClosed-append_raised platform id type payload ledger e c h =
    IsClosed-before_opening ledger _ _ e c
      (append_under_lock-raised platform ledger _ id type payload e) h

pub IsClosed-create_execution_raised :
    (platform : Platform) (id : String) (payload : Fields) (ledger : Ledger) (e : Exception)
    → IsClosed ledger
    → (create_execution platform id payload ledger).0 ≡ raise e
    → IsClosed (create_execution platform id payload ledger).1
unfolding create_execution
IsClosed-create_execution_raised platform id payload ledger e c h =
    IsClosed-before_opening ledger _ _ e c
      (append_under_lock-raised platform ledger _ id "execution.created" payload e) h
