-- ===== src/Ledger/Appending.antt =====
-- What `append` and `create_execution` do to what the ledger reads as.
use Prim.Native.String
use text.Mathlib.TextLemmas.{nil-append}
use contractplane.Prelude.{
  ◌+◌, String, ◌≡◌, refl, sym, subst, ap, ◌∙◌, true, false, Option, none, some, List, [], ◌∷◌, ◌++◌,
  ◌==◌, eq_iff, length, any, arith,
}
use contractplane.Json.{Fields}
use contractplane.Errors.{Result, ok, raise, >>=-eq-ok, require-eq-ok}
use contractplane.Platform.{Platform, IsCodec}
use contractplane.Action.{Action, continue}
use contractplane.Ledger.{
  LedgerFile, Ledger, Event, lines_of, is_of, settle, opened, before_opening, decode, read_all,
  validate_append_args, next_event, write_event, append_locked, append_under_lock, create_execution,
  append,
}
use contractplane.Ledger.Decode.{decode-append, length-decode, decode_line-event}

-- The file ends behind a newline, as every write leaves it.
abbrev pub IsClosed : Ledger → Type 0
IsClosed none = Unit
IsClosed (some file) = file.unterminated ≡ ""

-- `before` reads as `old`, and `after` as `old` with `event` behind it, under the next number.
pub record Appended (platform : Platform) (before : Ledger) (old : List Event) (event : Event)
    (after : Ledger) : Type 0 where
  pub read_before : read_all platform before ≡ ok old
  pub read_after : read_all platform after ≡ ok (old ++ event ∷ [])
  pub number : event.sequence ≡ length old + 1
  pub closed : IsClosed after

before_opening-eq-ok :
    (ledger : Ledger) (r : Result (Unit {0})) (rest : Result Event × Ledger) (event : Event)
    → (before_opening ledger r rest).0 ≡ ok event
    → (r ≡ ok tt) × (before_opening ledger r rest ≡ rest)
unfolding before_opening
before_opening-eq-ok ledger (ok u) rest event h = (refl, refl)
before_opening-eq-ok ledger (raise e) rest event h = cc

write_event-eq-ok :
    (e : Event) (o : Option String) (file : LedgerFile) (event : Event)
    → (write_event e o file).0 ≡ ok event
    → (t : String) × (o ≡ some t)
      × (event ≡ e)
      × ((write_event e o file).1 ≡ record {
        lines = file.lines ++ String.◌++◌ file.unterminated t ∷ [];
        unterminated = "";
      })
unfolding write_event
write_event-eq-ok e none file event h = cc
write_event-eq-ok e (some t) file event h = (t, refl, ground arith, refl)

-- A block that returns has passed its first call.
continue-eq-ok :
    {A : Type 0} (r : Result A) (f : A → Action LedgerFile Event) (file : LedgerFile)
    (event : Event)
    → (continue r f file).0 ≡ ok event
    → (a : A) × (r ≡ ok a) × (continue r f file ≡ f a file)
continue-eq-ok (ok a) f file event h = (a, refl, refl)
continue-eq-ok (raise e) f file event h = cc

pub opened-closed : (ledger : Ledger) → IsClosed ledger → (opened ledger).unterminated ≡ ""
unfolding opened
opened-closed none h = refl
opened-closed (some file) h = h

lines_of-closed : (file : LedgerFile) → file.unterminated ≡ "" → lines_of file ≡ file.lines
lines_of-closed file h = ground (arith, eq_iff file.unterminated "")

module _ (platform : Platform) where
  validate_append_args-eq-ok :
      (id type : String) (payload : Fields) (u : Unit {0})
      → validate_append_args platform id type payload ≡ ok u
      → ((id == "") ≡ false) × ((type == "") ≡ false)
  unfolding validate_append_args
  validate_append_args-eq-ok id type payload u h = ground arith

  pub read_all-opened :
      (ledger : Ledger) → read_all platform ledger ≡ decode platform 1 (lines_of (opened ledger))
  unfolding read_all opened decode
  read_all-opened none = refl
  read_all-opened (some file) = refl

  -- A write under the lock, at a closed file.
  append_locked-Appended :
      IsCodec platform
      → (ledger : Ledger) (events : List Event) (id type : String) (payload : Fields)
        (event : Event)
      → IsClosed ledger
      → (id == "") ≡ false
      → (type == "") ≡ false
      → decode platform 1 (lines_of (opened ledger)) ≡ ok events
      → (append_locked platform events id type payload (opened ledger)).0 ≡ ok event
      → Appended platform ledger events event
          (some (append_locked platform events id type payload (opened ledger)).1)
        × (event ≡ next_event events id type payload)
  unfolding append_locked read_all
  append_locked-Appended codec ledger events id type payload event closed i y was h =
      let e = next_event events id type payload in
      let (t, dumped, same, new) = write_event-eq-ok e _ (opened ledger) event h in
      let file = opened ledger in
      let start = opened-closed ledger closed in
      let was' = subst (λ ls. decode platform 1 ls ≡ ok events) (lines_of-closed file start) was in
      let at : 1 + length file.lines ≡ e.sequence =
        omega (arith, length-decode platform 1 file.lines events was') in
      (
        record {
          read_before = read_all-opened ledger ∙ was;
          read_after = rw (
            new,
            start,
            nil-append,
            decode-append platform 1 file.lines t,
            was',
            at,
            decode_line-event platform codec e t dumped i y,
            same,
          );
          number = ap (λ (x : Event). x.sequence) same;
          closed = ap (λ (f : LedgerFile). f.unterminated) new;
        },
        same,
      )

  append_under_lock-Appended :
      IsCodec platform
      → (ledger : Ledger) (check : List Event → Result (Unit {0})) (id type : String)
        (payload : Fields) (event : Event)
      → IsClosed ledger
      → (id == "") ≡ false
      → (type == "") ≡ false
      → (append_under_lock platform ledger check id type payload).0 ≡ ok event
      → (old : List Event) × Appended platform ledger old event
          (append_under_lock platform ledger check id type payload).1
        × (check old ≡ ok tt)
        × (event ≡ next_event old id type payload)
  unfolding append_under_lock settle
  append_under_lock-Appended codec ledger check id type payload event closed i y h =
      let file = opened ledger in
      let (events, was, decoded) =
        continue-eq-ok (decode platform 1 (lines_of file))
          (λ old. continue (check old) λ _. append_locked platform old id type payload) file event
          h in
      let (u, checked, passed) =
        continue-eq-ok (check events) (λ _. append_locked platform events id type payload) file
          event (subst (λ r. r.0 ≡ ok event) decoded h) in
      let same = decoded ∙ passed in
      let (a, new) =
        append_locked-Appended codec ledger events id type payload event closed i y was
          (subst (λ r. r.0 ≡ ok event) same h) in
      (
        events,
        subst (λ r. Appended platform ledger events event (some r.1)) (sym same) a,
        checked,
        new,
      )

  module _ (codec : IsCodec platform) (id type : String) (payload : Fields) (ledger : Ledger)
      (event : Event) (closed : IsClosed ledger) where
    -- If `append` returns an event, at a file without an unfinished line and with a codec that
    -- reads what it writes, then the file reads as before with this event behind, which has the
    -- next number and the values of the call; an event of the execution was there before.
    pub append-Appended :
        (append platform id type payload ledger).0 ≡ ok event
        → (old : List Event) × Appended platform ledger old event
            (append platform id type payload ledger).1
          × (any (is_of id) old ≡ true)
          × (event ≡ next_event old id type payload)
    unfolding append
    append-Appended h =
        let (valid, runs) = before_opening-eq-ok ledger _ _ event h in
        let (u, args, _) = >>=-eq-ok (validate_append_args platform id type payload) _ valid in
        let (i, y) = validate_append_args-eq-ok id type payload u args in
        let (old, a, checked, same) =
          append_under_lock-Appended codec ledger _ id type payload event closed i y
            (subst (λ r. r.0 ≡ ok event) runs h) in
        (
          old,
          subst (λ r. Appended platform ledger old event r.1) (sym runs) a,
          require-eq-ok _ _ checked,
          same,
        )

    -- If `create_execution` returns an event, at a file without an unfinished line and with a codec
    -- that reads what it writes, then the file reads as before with this event behind, which has
    -- the next number and the values of the call; no event of the execution was there before.
    pub create_execution-Appended :
        (create_execution platform id payload ledger).0 ≡ ok event
        → (old : List Event) × Appended platform ledger old event
            (create_execution platform id payload ledger).1
          × (any (is_of id) old ≡ false)
          × (event ≡ next_event old id "execution.created" payload)
    unfolding create_execution
    create_execution-Appended h =
        let (args, runs) = before_opening-eq-ok ledger _ _ event h in
        let (i, y) = validate_append_args-eq-ok id "execution.created" payload tt args in
        let (old, a, checked, same) =
          append_under_lock-Appended codec ledger _ id "execution.created" payload event closed i y
            (subst (λ r. r.0 ≡ ok event) runs h) in
        (
          old,
          subst (λ r. Appended platform ledger old event r.1) (sym runs) a,
          ground (arith, require-eq-ok _ _ checked),
          same,
        )
