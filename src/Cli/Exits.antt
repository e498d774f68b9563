-- ===== src/Cli/Exits.antt =====
-- The exit codes of the command line.
use contractplane.Prelude.Dict
use contractplane.Prelude.Index.{has-index_onto}
use contractplane.Prelude.{
  String, ◌≡◌, refl, sym, ◌∙◌, ◌⊎◌, inl, inr, false, Option, none, some, [], map, arith, ◌==◌,
  if◌then◌else◌, Bool-cases, Option-cases, contains,
}
use contractplane.Errors.{
  >>=-eq-ok, Result-cases, Exception, unknown_flow, compile_error, ok, raise,
}
use contractplane.Json.{Json, obj}
use contractplane.Platform.{Platform}
use contractplane.Models.{DomainPack, flow_map}
use contractplane.Compiler.{resolve_given, resolve_flow, compile_plan}
use contractplane.Loader.{parse_domain_pack, structural_issues}
use contractplane.Loader.Issues.{semantic_issues}
use contractplane.Loader.Compiles.{
  parse_domain_pack-compile_plan, parse_domain_pack-eq-ok, semantic_issues-inspect_pack,
}
use contractplane.Cli.{
  validate, inspect, compile, Exit, printed, reported, exit_code, plan_done, load_domain_pack,
  dispatch, main, plan_fields, caught, Surroundings, Yaml, loaded, yaml_error, raw_document,
  source_text,
}

-- An id that no flow has.
compile_plan-unknown :
    (pack : DomainPack) (id : String)
    → (id == "") ≡ false
    → contains (map (λ flow. flow.id) pack.flows) id ≡ false
    → compile_plan pack (some id) none ≡ raise (compile_error (unknown_flow id))
unfolding compile_plan resolve_flow resolve_given Dict.get
compile_plan-unknown pack id filled absent = elim (Option-cases (Dict.get (flow_map pack) id)) [
  | inl e ↦ rw (filled, e) refl
  | inr (flow, e) ↦
      let has = has-index_onto (λ item. item.id) [] pack.flows id in ground (arith, e, has)
]

-- The document at a path, and that the loader accepts it.
pub record IsAccepted (platform : Platform) (surroundings : Surroundings) (path : String)
    (pack : DomainPack) : Type 0 where
  pub content : String
  pub raw : Json
  pub there : surroundings.read_text (surroundings.resolve path) ≡ some content
  pub is_yaml : surroundings.safe_load content ≡ loaded raw
  pub parsed : parse_domain_pack platform raw ≡ ok pack
  pub in_structure : structural_issues platform raw ≡ []
  pub without_issues : semantic_issues platform pack ≡ ok []

raw_document-eq-ok : (y : Yaml) (raw : Json) → raw_document y ≡ ok raw → y ≡ loaded raw
unfolding raw_document
raw_document-eq-ok (loaded r) raw h = ground arith
raw_document-eq-ok (yaml_error message) raw h = cc

source_text-eq-ok :
    (source : String) (o : Option String) (content : String)
    → source_text source o ≡ ok content
    → o ≡ some content
unfolding source_text
source_text-eq-ok source none content h = cc
source_text-eq-ok source (some t) content h = ground arith

module _ (platform : Platform) (surroundings : Surroundings) where
  open surroundings use {pretty, resolve, read_text, safe_load}

  -- If the loader accepts the document at a path, then `main` with the command `compile`, the path,
  -- a flow id that is not empty, and no entry point or output path ends with exit code 0 if the
  -- pack has a flow of that id, and with exit code 2 if it has none.
  pub main-compile :
      (path id content : String) (raw : Json) (pack : DomainPack)
      → read_text (resolve path) ≡ some content
      → safe_load content ≡ loaded raw
      → parse_domain_pack platform raw ≡ ok pack
      → (id == "") ≡ false
      → (exit : Exit) × (main platform surroundings (compile path (some id) none none) ≡ ok exit)
        × (exit_code exit ≡ (if contains (map (λ flow. flow.id) pack.flows) id then 0 else 2))
  unfolding main dispatch load_domain_pack plan_done source_text raw_document
  main-compile path id content raw pack there is_yaml accepted filled =
      elim (Bool-cases (contains (map (λ flow. flow.id) pack.flows) id)) [
        | inl present ↦
            let (plan, e, same) =
              parse_domain_pack-compile_plan platform raw pack id accepted filled present in
            (
              printed (pretty (obj (plan_fields platform surroundings plan))) [],
              rw (there, is_yaml, accepted, e) refl,
              rw present refl,
            )
        | inr absent ↦ (
          reported (compile_error (unknown_flow id)),
          rw (there, is_yaml, accepted, compile_plan-unknown pack id filled absent) refl,
          rw absent refl,
        )
      ]

  load_domain_pack-IsAccepted :
      (path : String) (pack : DomainPack)
      → load_domain_pack platform surroundings path ≡ ok pack
      → IsAccepted platform surroundings path pack
  unfolding load_domain_pack
  load_domain_pack-IsAccepted path pack h =
      let (content, found, h₁) =
        >>=-eq-ok (source_text (resolve path) (read_text (resolve path))) _ h in
      let (raw, yaml, h₂) = >>=-eq-ok (raw_document (safe_load content)) _ h₁ in
      let (in_structure, without_issues) = parse_domain_pack-eq-ok platform raw pack h₂ in
      record {
        content = content;
        raw = raw;
        there = source_text-eq-ok (resolve path) (read_text (resolve path)) content found;
        is_yaml = raw_document-eq-ok (safe_load content) raw yaml;
        parsed = h₂;
        in_structure = in_structure;
        without_issues = without_issues;
      }

  caught-eq-ok :
      (x : Exception) (exit : Exit) → caught platform surroundings x ≡ ok exit → exit_code exit ≡ 2
  caught-eq-ok x exit h = ground arith

  -- A command that starts with the loader ends as the loader's exception says.
  main-raised :
      (path : String) (x : Exception)
      → load_domain_pack platform surroundings path ≡ raise x
      → (main platform surroundings (validate path) ≡ caught platform surroundings x)
        × (main platform surroundings (inspect path) ≡ caught platform surroundings x)
  unfolding main dispatch
  main-raised path x h = (rw h refl, rw h refl)

  validate_accepted :
      (path : String) (pack : DomainPack) (exit : Exit)
      → load_domain_pack platform surroundings path ≡ ok pack
      → main platform surroundings (validate path) ≡ ok exit
      → exit_code exit ≡ 0
  unfolding main dispatch
  validate_accepted path pack exit h e = ground (arith, h, e)

  inspect_accepted :
      (path : String) (pack : DomainPack)
      → load_domain_pack platform surroundings path ≡ ok pack
      → semantic_issues platform pack ≡ ok []
      → (described : Exit) × (main platform surroundings (inspect path) ≡ ok described)
        × (exit_code described ≡ 0)
  unfolding main dispatch
  inspect_accepted path pack h sound =
      let (description, e) = semantic_issues-inspect_pack platform pack sound in
      (printed (pretty (obj description)) [], rw (h, e) refl, refl)

  -- If `main` with the command `validate` and a path ends with an exit code, then either the code
  -- is 0, the file at the path is there, is YAML and has neither structural nor semantic issues,
  -- and `inspect` with the path ends with exit code 0 too; or the code is 2, the loader raises, and
  -- `inspect` with the path ends as `validate` does.
  pub main-validate :
      (path : String) (exit : Exit)
      → main platform surroundings (validate path) ≡ ok exit
      → ((exit_code exit ≡ 0)
          × ((pack : DomainPack) × IsAccepted platform surroundings path pack)
          × (described : Exit) × (main platform surroundings (inspect path) ≡ ok described)
          × (exit_code described ≡ 0))
        ⊎ ((exit_code exit ≡ 2)
            × ((x : Exception) × (load_domain_pack platform surroundings path ≡ raise x))
            × (main platform surroundings (inspect path) ≡ ok exit))
  main-validate path exit h = elim (Result-cases (load_domain_pack platform surroundings path)) [
    | inl (pack, e) ↦
        let accepted = load_domain_pack-IsAccepted path pack e in
        let (described, inspected, code) = inspect_accepted path pack e accepted.without_issues in
        inl (validate_accepted path pack exit e h, (pack, accepted), described, inspected, code)
    | inr (x, raised) ↦
        let (validated, inspected) = main-raised path x raised in
        let same = sym validated ∙ h in
        inr (caught-eq-ok x exit same, (x, raised), inspected ∙ same)
  ]
