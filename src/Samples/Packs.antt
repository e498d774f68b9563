-- ===== src/Samples/Packs.antt =====
-- A pack of one flow of two stages, and a flow whose stages need one another.
use contractplane.Samples.Codec.{write, library}
use contractplane.Prelude.{
  Option, ◌||◌, false, Member, contains, subst, eq_iff, ◌<◌, inl, inr, arith, String, ℕ, ◌≡◌, ◌==◌,
  if◌then◌else◌, true, false, none, some, List, [], ◌∷◌,
}
use contractplane.Json.{Json, obj, str, Fields, end, field}
use contractplane.Models.{Stage, Flow, DomainPack, deterministic, no_effect, singleton}
use contractplane.Errors.{Result, ok, raise}
use contractplane.Cli.{validate, Exit, reported, main, Surroundings, Yaml, loaded, yaml_error}
use contractplane.Plan.{ExecutionPlan}
use contractplane.Compiler.{compile_plan}
use contractplane.Models.Render.{pack_to_dict}
use contractplane.Compiler.Cycles.{Descends}
use contractplane.Samples.Plans.{review_stage, code_pack, two_stages}

abbrev pub any_object : Fields
any_object = field "type" (str "object") end

abbrev pub collect_stage : Stage
collect_stage = record {
  id = "collect";
  description = "collect files";
  capability = "scan";
  role = none;
  needs = [];
  fanout = record { mode = singleton; over = none };
  requires_evidence = [];
  policy = none;
  produces = "files" ∷ [];
  when = none;
}

abbrev pub by_reviewer : Stage
by_reviewer = record review_stage { role = some "reviewer" }

-- The second stage stands first.
abbrev pub check_flow : Flow
check_flow = record {
  id = "check";
  description = "review all files";
  input_schema = any_object;
  stages = by_reviewer ∷ collect_stage ∷ [];
}

abbrev pub check_waves : List (List Stage)
check_waves = (collect_stage ∷ []) ∷ (by_reviewer ∷ []) ∷ []

abbrev pub looping_flow : Flow
looping_flow = record check_flow {
  stages = by_reviewer ∷ record collect_stage { needs = "review" ∷ [] } ∷ [];
}

abbrev pub lonely_flow : Flow
lonely_flow = record check_flow { stages = by_reviewer ∷ [] }

abbrev pub check_pack : DomainPack
check_pack = record code_pack {
  capabilities =
      record {
        id = "scan";
        kind = deterministic;
        description = "scan";
        side_effects = no_effect;
        input_schema = any_object;
        output_schema = any_object;
        permissions = [];
        binding = some (record { adapter = "shell"; target = "ls"; config = none });
      }
      ∷ code_pack.capabilities;
  roles =
      record {
        id = "reviewer";
        description = "reads";
        capabilities = "read" ∷ [];
        instructions = "read it";
      }
      ∷ [];
  flows = check_flow ∷ [];
  entrypoints =
      record {
        id = "start";
        description = "start";
        flow = "check";
        keywords = "review" ∷ [];
        examples = "review this" ∷ [];
      }
      ∷ [];
}

abbrev pub check_document : Json
check_document = obj (pack_to_dict check_pack)

abbrev or_sample : Result ExecutionPlan → ExecutionPlan
or_sample (ok plan) = plan
or_sample (raise e) = two_stages

-- The plan of the pack's flow.
abbrev pub check_plan : ExecutionPlan
check_plan = or_sample (compile_plan check_pack (some "check") none)

-- A file system with a pack, and a YAML reader that knows its text.
abbrev file_text : String → Option String
file_text path = if path == "pack.yaml" then some "pack" else none

abbrev pub read_yaml : String → Yaml
read_yaml content =
    if content == "pack" then loaded check_document else yaml_error "mapping values are not allowed"

abbrev pub print : Json → String
print v = write v ""

abbrev pub check_surroundings : Surroundings
check_surroundings = record {
  pretty = print;
  resolve = λ path. path;
  read_text = file_text;
  safe_load = read_yaml;
}

abbrev or_failure : Result Exit → Exit
or_failure (ok exit) = exit
or_failure (raise e) = reported e

-- How `validate` ends on the pack.
abbrev pub check_exit : Exit
check_exit = or_failure (main library check_surroundings (validate "pack.yaml"))

-- The second stage stands above the first.
abbrev pub rank : String → ℕ
rank id = if id == "review" then 1 else 0

lowers :
    (s : Stage)
    → Member s check_flow.stages
    → (need : String) → contains s.needs need ≡ true
    → rank need < rank s.id
lowers s (inl same) need =
    subst (λ x. contains x.needs need ≡ true → rank need < rank x.id) same
      (λ wanted.
        let first : ("collect" == need || false) ≡ true = wanted in
        let it : "collect" ≡ need = ground (arith, eq_iff "collect" need) in
        subst (λ k. rank k < 1) it (omega arith))
lowers s (inr (inl same)) need =
    subst (λ x. contains x.needs need ≡ true → rank need < rank x.id) same (λ wanted. cc)
lowers s (inr (inr none_left)) need = absurd none_left

pub check_flow-Descends : Descends check_flow.stages rank
check_flow-Descends = record { lower = lowers }
