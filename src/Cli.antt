-- ===== src/Cli.antt =====
-- contractplane/cli.py: `_dispatch` and `main`, behind the parsing of the arguments.
pub mod Exits
use contractplane.Prelude.{ℕ, String, Bool, true, false, Option, none, some, List, [], ◌∷◌}
use contractplane.Json.{Json, bool, str, obj, Fields, end, field}
use contractplane.Platform.{Platform}
use contractplane.Errors.{
  Exception, transition_error, ledger_error, invalid_event_sequence, compile_error, pack_invalid,
  IssueMessage, no_such_file, invalid_yaml, ValidationIssue, Result, ok, raise, ◌>>=◌,
}
use contractplane.Models.{DomainPack}
use contractplane.Plan.{ExecutionPlan}
use contractplane.Plan.Render.{digest, plan_to_dict}
use contractplane.Schema.{domain_pack_schema}
use contractplane.Loader.{parse_domain_pack}
use contractplane.Compiler.{given, compile_plan}
use contractplane.Compiler.Inspect.{inspect_pack}

-- The parsed arguments.
pub data Command : Type 0 where
  schema : (out : Option String) → Command
  validate inspect : (pack : String) → Command
  compile : (pack : String) → (flow entrypoint out : Option String) → Command

-- What `_dispatch` returns: a text or an object.
pub data Answer : Type 0 where
  text : String → Answer
  object : Fields → Answer

-- The answer, and the files written on the way: their paths with their contents.
pub record Done : Type 0 where
  pub answer : Answer
  pub written : List (String × String)

abbrev pub done : Answer → Done
done answer = record { answer = answer; written = [] }

-- How `main` ends: with a text on the standard output, or with a report of an exception on the
-- error output.
pub data Exit : Type 0 where
  printed : String → List (String × String) → Exit
  reported : Exception → Exit

abbrev pub exit_code : Exit → ℕ
exit_code (printed t written) = 0
exit_code (reported e) = 2

-- isinstance(exc, ContractPlaneError)
abbrev pub is_contract_plane_error : Exception → Bool
is_contract_plane_error (transition_error r) = true
is_contract_plane_error (ledger_error r) = true
is_contract_plane_error (invalid_event_sequence n t e) = true
is_contract_plane_error (compile_error r) = true
is_contract_plane_error (pack_invalid issues) = true
is_contract_plane_error e = false

-- What yaml.safe_load returns or raises.
pub data Yaml : Type 0 where
  loaded : Json → Yaml
  yaml_error : (message : String) → Yaml

-- What the commands call of other libraries: `pretty` is
-- json.dumps(value, ensure_ascii=False, indent=2, sort_keys=True) + "\n", `resolve` is
-- str(Path(path).expanduser().resolve()), `read_text` reads the text of a file, or gives none
-- where `is_file` is false, and `safe_load` is yaml.safe_load.
pub record Surroundings : Type 0 where
  pub pretty : Json → String
  pub resolve : String → String
  pub read_text : String → Option String
  pub safe_load : String → Yaml

abbrev pub issue_at_root : IssueMessage → ValidationIssue
issue_at_root message = record { path = []; message = message }

-- raw = yaml.safe_load(...), at a file with this text
unfoldable pub raw_document : Yaml → Result Json
raw_document (loaded raw) = ok raw
raw_document (yaml_error message) = raise (pack_invalid (issue_at_root (invalid_yaml message) ∷ []))

-- The text of the file at `source`.
unfoldable pub source_text : String → Option String → Result String
source_text source none = raise (pack_invalid (issue_at_root (no_such_file source) ∷ []))
source_text source (some content) = ok content

module _ (platform : Platform) (surroundings : Surroundings) where
  open surroundings use {pretty, resolve, read_text, safe_load}

  unfoldable pub load_domain_pack : String → Result DomainPack
  unfolding raw_document source_text
  load_domain_pack path = do
    let source = resolve path
    content ← source_text source (read_text source)
    raw ← raw_document (safe_load content)
    parse_domain_pack platform raw

  -- `plan.digest`
  abbrev plan_digest : ExecutionPlan → String
  plan_digest plan = digest platform.canonical_bytes platform.sha256_hex plan

  -- plan.to_dict()
  abbrev pub plan_fields : ExecutionPlan → Fields
  plan_fields plan = plan_to_dict platform.canonical_bytes platform.sha256_hex plan

  unfoldable pub plan_done : Option String → ExecutionPlan → Done
  plan_done none plan = done (object (plan_fields plan))
  plan_done (some path) plan = record {
    answer = object (
        field "compiled" (bool true) (
          field "flow" (str plan.flow) (
            field "planDigest" (str (plan_digest plan))
              (field "written" (str (resolve path)) end))));
    written = (resolve path, pretty (obj (plan_fields plan))) ∷ [];
  }

  unfoldable pub schema_done : Option String → Done
  schema_done none = done (text (pretty (obj domain_pack_schema)))
  schema_done (some path) = record {
    answer = object (
        field "schema" (str "contractplane.dev/v1alpha1")
          (field "written" (str (resolve path)) end));
    written = (resolve path, pretty (obj domain_pack_schema)) ∷ [];
  }

  unfoldable pub dispatch : Command → Result Done
  unfolding load_domain_pack
  dispatch (schema out) = ok (schema_done (given out))
  dispatch (validate path) = do
    pack ← load_domain_pack path
    ok (
        done (
          object (
            field "apiVersion" (str pack.api_version) (
              field "kind" (str pack.kind) (
                field "name" (str pack.metadata.name)
                  (field "valid" (bool true) (field "version" (str pack.metadata.version) end)))))))
  dispatch (inspect path) = do
    pack ← load_domain_pack path
    description ← inspect_pack pack
    ok (done (object description))
  dispatch (compile path flow entrypoint out) = do
    pack ← load_domain_pack path
    plan ← compile_plan pack flow entrypoint
    ok (plan_done (given out) plan)

  abbrev pub printed_answer : Done → Exit
  printed_answer d = elim d.answer [
    | text t ↦ printed t d.written
    | object fs ↦ printed (pretty (obj fs)) d.written
  ]

  -- An exception that is no ContractPlaneError passes on.
  abbrev pub caught : Exception → Result Exit
  caught e = elim (is_contract_plane_error e) [ true ↦ ok (reported e) | false ↦ raise e ]

  abbrev pub finished : Result Done → Result Exit
  finished (ok d) = ok (printed_answer d)
  finished (raise e) = caught e

  unfoldable pub main : Command → Result Exit
  unfolding dispatch
  main command = finished (dispatch command)
