-- ===== src/Platform.antt =====
-- What src/contractplane takes from Python's library and from `jsonschema`: the arguments of the
-- model. `IsCodec` is what the ledger relies on.
use contractplane.Prelude.{String, ◌≡◌, false, Option, some, List, is_blank}
use contractplane.Json.{Json, Fields}
use contractplane.Errors.{PathPart}

-- A ValidationError of `jsonschema`: its `absolute_path` and its message.
pub record SchemaError : Type 0 where
  pub path : List PathPart
  pub message : String

pub record Platform : Type 0 where
  -- json.dumps(value, allow_nan=False): `none` where it raises
  pub dumps : Json → Option String
  -- json.loads(line): `none` where it raises JSONDecodeError
  pub loads : String → Option Json
  -- the messages of Draft202012Validator(schema).iter_errors(value), sorted
  pub schema_errors : Fields → Json → List String
  -- sorted(Draft202012Validator(schema).iter_errors(value), key=lambda error:
  -- list(error.absolute_path))
  pub errors_by_path : Fields → Json → List SchemaError
  -- Draft202012Validator.check_schema(schema): the message of the SchemaError that it raises
  pub schema_problem : Fields → Option String
  -- json.dumps(value, sort_keys=True, separators=(",", ":")).encode("utf-8")
  pub canonical_bytes : Json → String
  -- hashlib.sha256(bytes).hexdigest()
  pub sha256_hex : String → String

-- What is dumped loads as the same value, and is no blank line.
pub record IsCodec (platform : Platform) : Type 0 where
  pub loads-dumps : (v : Json) (t : String) → platform.dumps v ≡ some t → platform.loads t ≡ some v
  pub dumps_visible : (v : Json) (t : String) → platform.dumps v ≡ some t → is_blank t ≡ false
