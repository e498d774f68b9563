-- ===== src/Schema/Enumerations.antt =====
-- The texts that the schema lists for a field against those that the loader reads.
use contractplane.Prelude.{
  arith, String, ◌≡◌, Bool, true, false, List, [], ◌∷◌, ◌==◌, eq_iff, contains,
}
use contractplane.Json.{Json, arr, obj, str, Items, nil, cons, Fields, end, get_field}
use contractplane.Errors.{Result, ok, raise}
use contractplane.Schema.{domain_pack_schema}
use contractplane.Loader.Parse.{kind_of, side_effect_of, evidence_kind_of, approval_of, mode_of}

abbrev pub is_ok {ℓ} : {A : Type ℓ} → Result A → Bool
is_ok (ok a) = true
is_ok (raise e) = false

abbrev fields_of : Json → Fields
fields_of (obj fs) = fs
fields_of v = end

abbrev texts_of : Items → List String
texts_of nil = []
texts_of (cons (str t) vs) = t ∷ texts_of vs
texts_of (cons v vs) = texts_of vs

abbrev listed : Json → List String
listed (arr vs) = texts_of vs
listed v = []

-- domain_pack_schema()["$defs"][definition]["properties"][property]["enum"]
abbrev pub enum_at : (definition property : String) → List String
unfolding domain_pack_schema
enum_at definition property =
    let definitions = fields_of (get_field domain_pack_schema "$defs") in
    let properties =
      fields_of (get_field (fields_of (get_field definitions definition)) "properties") in
    listed (get_field (fields_of (get_field properties property)) "enum")

flip_eq : (s t : String) → (s == t) ≡ (t == s)
flip_eq s t = ground (arith, eq_iff s t, eq_iff t s)

-- The loader reads a text as a kind of capability, a side effect, a kind of evidence, an approval
-- or a fanout mode if and only if the schema lists it there.
pub enumerations-agree :
    (t : String)
    → (is_ok (kind_of t) ≡ contains (enum_at "capability" "kind") t)
      × (is_ok (side_effect_of t) ≡ contains (enum_at "capability" "sideEffects") t)
      × (is_ok (evidence_kind_of t) ≡ contains (enum_at "evidence" "kind") t)
      × (is_ok (approval_of t) ≡ contains (enum_at "policy" "humanApproval") t)
      × (is_ok (mode_of t) ≡ contains (enum_at "fanout" "mode") t)
unfolding domain_pack_schema kind_of side_effect_of evidence_kind_of approval_of mode_of
enumerations-agree t = (
  ground (arith, flip_eq t "deterministic", flip_eq t "agent", flip_eq t "integration"),
  ground (arith, flip_eq t "none", flip_eq t "local", flip_eq t "external"),
  ground (
    arith,
    flip_eq t "json-schema",
    flip_eq t "artifact",
    flip_eq t "semantic-review",
    flip_eq t "external-receipt",
  ),
  ground (arith, flip_eq t "never", flip_eq t "always"),
  ground (arith, flip_eq t "singleton", flip_eq t "each"),
)
