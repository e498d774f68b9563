-- ===== src/Json.antt =====
-- JSON documents as the `json` module hands them to src/contractplane (Python's `dict[str, Any]`).
-- An object lists its fields by key: the program only looks keys up, compares objects, and writes
-- them with `sort_keys=True`, so the order of a dict's keys is never seen.
use contractplane.Prelude.{
  ℕ, String, Bool, true, false, not, Option, none, some, List, [], ◌∷◌, ◌==◌, same_number, is_blank,
  if◌then◌else◌,
}

-- `num` is a natural number, and any float that equals one, which Python's `==` does not tell
-- apart; `other_num` is every other number, by its text.
mutual
  pub data Json : Type 0 where
    null : Json
    bool : Bool → Json
    num : ℕ → Json
    other_num : String → Json
    str : String → Json
    arr : Items → Json
    obj : Fields → Json

  pub data Items : Type 0 where
    nil : Items
    cons : Json → Items → Items

  pub data Fields : Type 0 where
    end : Fields
    field : String → Json → Fields → Fields

-- payload.get(key), with a missing key told from a null
abbrev pub get_field? : Fields → String → Option Json
get_field? end k = none
get_field? (field j v fs) k = if j == k then some v else get_field? fs k

abbrev pub or_null : Option Json → Json
or_null none = null
or_null (some v) = v

-- payload.get(key)
abbrev pub get_field : Fields → String → Json
get_field fs k = or_null (get_field? fs k)

-- bool(value)
abbrev pub is_truthy : Json → Bool
is_truthy null = false
is_truthy (bool b) = b
is_truthy (num n) = not (same_number n 0)
is_truthy (other_num t) = true
is_truthy (str t) = not (t == "")
is_truthy (arr nil) = false
is_truthy (arr (cons v vs)) = true
is_truthy (obj end) = false
is_truthy (obj (field k v fs)) = true

-- value == text
abbrev pub is_text : Json → String → Bool
is_text (str t) s = t == s
is_text v s = false

-- value is True
abbrev pub is_true : Json → Bool
is_true (bool b) = b
is_true v = false

-- isinstance(value, bool)
abbrev pub is_bool : Json → Bool
is_bool (bool b) = true
is_bool v = false

-- not str(payload.get(key, "")).strip(): only a text can be blank, as `str` of any other value
-- has a visible character.
abbrev pub is_blank_field : Option Json → Bool
is_blank_field none = true
is_blank_field (some (str t)) = is_blank t
is_blank_field (some v) = false

-- value == [texts]
abbrev pub is_texts : Items → List String → Bool
is_texts nil [] = true
is_texts nil (t ∷ ts) = false
is_texts (cons v vs) [] = false
is_texts (cons v vs) (t ∷ ts) = if is_text v t then is_texts vs ts else false

abbrev pub is_text_list : Json → List String → Bool
is_text_list (arr vs) ts = is_texts vs ts
is_text_list v ts = false

-- How the program builds documents.
abbrev pub array : List Json → Items
array [] = nil
array (v ∷ vs) = cons v (array vs)

abbrev pub texts : List String → Items
texts [] = nil
texts (t ∷ ts) = cons (str t) (texts ts)

-- `if value is not None: result[key] = value`
abbrev pub optional_field {ℓ} : {A : Type ℓ} → String → (A → Json) → Option A → Fields → Fields
optional_field k render none fs = fs
optional_field k render (some a) fs = field k (render a) fs

abbrev pub text_or_null : Option String → Json
text_or_null none = null
text_or_null (some t) = str t
