-- ===== src/Ledger.antt =====
-- contractplane/ledger.py: the append-only JSON-lines ledger. The file is the state; the lock, the
-- flush and the file system are not modelled, and each method runs as one step, as it does under
-- the lock.
pub mod Decode
pub mod Appending
pub mod Raising
use Prim.Native.String
use contractplane.Prelude.{
  ℕ, suc, ◌+◌, String, Bool, true, false, not, Option, none, some, List, [], ◌∷◌, ◌++◌, ◌==◌,
  length, keep, any, is_empty, is_blank, same_number, if◌then◌else◌,
}
use contractplane.Json.{Json, bool, num, str, obj, Fields, end, field, get_field, is_text}
use contractplane.Errors.{
  LedgerReason, blank_line, invalid_json, line_not_object, unsupported_schema, sequence_gap,
  missing_execution_id, missing_event_type, event_payload_not_object, append_id_empty,
  append_type_empty, payload_not_serializable, already_exists, use_create, does_not_exist,
  ledger_error, value_error, Result, ok, raise, require, ◌>>=◌, ◌>>◌,
}
use contractplane.Platform.{Platform}
use contractplane.Action.{Action, continue}

abbrev pub ledger_schema_version : String
ledger_schema_version = "contractplane.dev/kernel-state/v0alpha1"

-- The lines that a newline ends, and what stands behind the last newline.
pub record LedgerFile : Type 0 where
  pub lines : List String
  pub unterminated : String

-- `none`: there is no file at the path.
abbrev pub Ledger : Type 0
Ledger = Option LedgerFile

-- An event that `_decode` has accepted.
pub record Event : Type 0 where
  pub sequence : ℕ
  pub execution_id : String
  pub type : String
  pub payload : Fields

-- The lines that iterating over the file gives.
abbrev pub lines_of : LedgerFile → List String
lines_of f = if f.unterminated == "" then f.lines else f.lines ++ f.unterminated ∷ []

-- value == number: `True == 1` and `False == 0` hold.
abbrev pub is_number : Json → ℕ → Bool
is_number (num n) k = same_number n k
is_number (bool true) k = same_number k 1
is_number (bool false) k = same_number k 0
is_number v k = false

-- if not isinstance(value, str) or not value: raise LedgerError
abbrev pub nonempty_text : LedgerReason → Json → Result String
nonempty_text r (str t) = if t == "" then raise (ledger_error r) else ok t
nonempty_text r v = raise (ledger_error r)

abbrev pub object_or : LedgerReason → Json → Result Fields
object_or r (obj fs) = ok fs
object_or r v = raise (ledger_error r)

unfoldable pub check_event : ℕ → Fields → Result Event
check_event expected fs = do
  require (is_text (get_field fs "schemaVersion") ledger_schema_version)
      (ledger_error unsupported_schema)
  require (is_number (get_field fs "sequence") expected) (ledger_error sequence_gap)
  execution_id ← nonempty_text missing_execution_id (get_field fs "executionId")
  type ← nonempty_text missing_event_type (get_field fs "type")
  payload ← object_or event_payload_not_object (get_field fs "payload")
  ok (record { sequence = expected; execution_id = execution_id; type = type; payload = payload })

unfoldable pub loaded_or : Option Json → Result Json
loaded_or none = raise (ledger_error invalid_json)
loaded_or (some v) = ok v

unfoldable pub event_json : Event → Json
event_json e = obj (
    field "executionId" (str e.execution_id) (
      field "payload" (obj e.payload) (
        field "schemaVersion" (str ledger_schema_version)
          (field "sequence" (num e.sequence) (field "type" (str e.type) end)))))

abbrev pub is_of : String → Event → Bool
is_of id e = e.execution_id == id

-- What the block under the lock leaves: a file is there, also if the block raises.
unfoldable pub settle : Result Event × LedgerFile → Result Event × Ledger
settle (result, file) = (result, some file)

unfoldable pub opened : Ledger → LedgerFile
opened none = record { lines = []; unterminated = "" }
opened (some file) = file

-- Checks that stand before the file is opened.
unfoldable pub before_opening :
    Ledger → Result (Unit {0}) → Result Event × Ledger → Result Event × Ledger
before_opening ledger (ok _) rest = rest
before_opening ledger (raise e) rest = (raise e, ledger)

-- The event that `_append_locked` writes behind `events`.
abbrev pub next_event : List Event → String → String → Fields → Event
next_event events id type payload = record {
  sequence = length events + 1;
  execution_id = id;
  type = type;
  payload = payload;
}

-- handle.write(json.dumps(event, ...) + "\n"), behind the end of the file
unfoldable pub write_event : Event → Option String → Action LedgerFile Event
write_event event none file = (raise value_error, file)
write_event event (some text) file = (
  ok event,
  record { lines = file.lines ++ String.◌++◌ file.unterminated text ∷ []; unterminated = "" },
)

module _ (platform : Platform) where
  unfoldable pub decode_line : ℕ → String → Result Event
  unfolding check_event loaded_or
  decode_line expected line = do
    require (not (is_blank line)) (ledger_error blank_line)
    event ← loaded_or (platform.loads line)
    fields ← object_or line_not_object event
    check_event expected fields

  -- The loop of `_decode`, from the sequence number that the next line must have.
  unfoldable pub decode : ℕ → List String → Result (List Event)
  decode expected [] = ok []
  decode expected (line ∷ lines) = do
    event ← decode_line expected line
    events ← decode (suc expected) lines
    ok (event ∷ events)

  -- read(): every event of the file
  unfoldable pub read_all : Ledger → Result (List Event)
  read_all none = ok []
  read_all (some file) = decode 1 (lines_of file)

  -- read(execution_id)
  unfoldable pub read : String → Ledger → Result (List Event)
  read id ledger = do events ← read_all ledger; ok (keep (is_of id) events)

  unfoldable pub validate_append_args : String → String → Fields → Result (Unit {0})
  validate_append_args id type payload = do
    require (not (id == "")) (ledger_error append_id_empty)
    require (not (type == "")) (ledger_error append_type_empty)
    elim (platform.dumps (obj payload)) [
      | none ↦ raise (ledger_error payload_not_serializable)
      | some text ↦ ok tt
    ]

  unfoldable pub append_locked : List Event → String → String → Fields → Action LedgerFile Event
  unfolding event_json write_event
  append_locked events id type payload =
      let event = next_event events id type payload in
      write_event event (platform.dumps (event_json event))

  -- `with self._locked_file()`: decode, check the events that are there, append. What was written
  -- before a raise stays in the file.
  unfoldable pub append_under_lock :
      Ledger → (List Event → Result (Unit {0})) → String → String → Fields → Result Event × Ledger
  unfolding append_locked settle opened
  append_under_lock ledger check id type payload =
      let file = opened ledger in
      settle (
        continue (decode 1 (lines_of file))
          (λ events. continue (check events) λ _. append_locked events id type payload) file)

  unfoldable pub create_execution : String → Fields → Ledger → Result Event × Ledger
  unfolding validate_append_args append_under_lock before_opening
  create_execution id payload ledger =
      before_opening ledger (validate_append_args id "execution.created" payload) (
        append_under_lock ledger
          (λ events. require (not (any (is_of id) events)) (ledger_error already_exists)) id
          "execution.created" payload)

  unfoldable pub append : String → String → Fields → Ledger → Result Event × Ledger
  unfolding validate_append_args append_under_lock before_opening
  append id type payload ledger =
      before_opening ledger
        (do
          validate_append_args id type payload
          require (not (type == "execution.created")) (ledger_error use_create))
        (append_under_lock ledger
          (λ events. require (any (is_of id) events) (ledger_error does_not_exist)) id type payload)

  unfoldable pub has_execution : String → Ledger → Result Bool
  unfolding read
  has_execution id ledger = do events ← read id ledger; ok (not (is_empty events))
