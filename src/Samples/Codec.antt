-- ===== src/Samples/Codec.antt =====
-- A text form of JSON documents that stands for the `json` module: each value is written behind its
-- parts, so that it is read back with a stack.
use Prim.Native.Nat.{ℕ, zero, suc}
use Prim.Native.Char.{Char, code}
use Prim.Native.String.{String}
use contractplane.Prelude.{
  sym, is_blank, ◌≡◌, refl, ◌∙◌, ap, Bool, true, false, Option, none, some, List, [], ◌∷◌, arith,
  same_number, if◌then◌else◌, is_some,
}
use contractplane.Json.{
  is_truthy, Json, null, bool, num, other_num, str, arr, obj, Items, nil, cons, Fields, end, field,
  get_field, get_field?,
}
use contractplane.Platform.{Platform, IsCodec}

abbrev chr : Char → String → String
chr c s = String.◌∷◌ c s

-- A text: a quote, and the characters in reverse order, each behind a full stop.
unfoldable pub write_text : String → String → String
write_text String.[] rest = chr "\"" rest
write_text (String.◌∷◌ c s) rest = write_text s (chr "." (chr c rest))

unfoldable pub write_num : ℕ → String → String
write_num zero rest = chr "0" rest
write_num (suc n) rest = write_num n (chr "+" rest)

unfoldable mutual
  pub write : Json → String → String
  write null rest = chr "n" rest
  write (bool true) rest = chr "t" rest
  write (bool false) rest = chr "f" rest
  write (num n) rest = write_num n rest
  write (other_num t) rest = write_text t (chr "o" rest)
  write (str t) rest = write_text t rest
  write (arr vs) rest = write_items vs rest
  write (obj fs) rest = write_fields fs rest

  pub write_items : Items → String → String
  write_items nil rest = chr "[" rest
  write_items (cons v vs) rest = write_items vs (write v (chr "," rest))

  pub write_fields : Fields → String → String
  write_fields end rest = chr "{" rest
  write_fields (field k v fs) rest = write_fields fs (write v (write_text k (chr ":" rest)))

-- What one character does to the stack.
pub data Mark : Type 0 where
  quote none_mark yes no digit plus other open_list item open_object entry dot : Mark

unfoldable pub mark_of : ℕ → Mark
mark_of c =
    if same_number c b'"'
    then quote
    else if same_number c b'n'
    then none_mark
    else if same_number c b't'
    then yes
    else if same_number c b'f'
    then no
    else if same_number c b'0'
    then digit
    else if same_number c b'+'
    then plus
    else if same_number c b'o'
    then other
    else if same_number c b'['
    then open_list
    else if same_number c b','
    then item
    else if same_number c b'{'
    then open_object
    else if same_number c b':'
    then entry
    else dot

unfoldable pub act : Mark → List Json → List Json
act quote st = str "" ∷ st
act none_mark st = null ∷ st
act yes st = bool true ∷ st
act no st = bool false ∷ st
act digit st = num 0 ∷ st
act plus (num n ∷ st) = num (suc n) ∷ st
act other (str t ∷ st) = other_num t ∷ st
act open_list st = arr nil ∷ st
act item (v ∷ arr vs ∷ st) = arr (cons v vs) ∷ st
act open_object st = obj end ∷ st
act entry (str k ∷ v ∷ obj fs ∷ st) = obj (field k v fs) ∷ st
act _ st = st

unfoldable pub push_char : Char → List Json → List Json
push_char c (str t ∷ st) = str (chr c t) ∷ st
push_char c st = st

unfoldable pub top : List Json → Option Json
top (v ∷ []) = some v
top _ = none

-- Reads on, behind a full stop or not.
unfoldable pub read_on : String → Bool → List Json → Option Json
read_on String.[] quoted st = top st
read_on (String.◌∷◌ c s) true st = read_on s false (push_char c st)
read_on (String.◌∷◌ c s) false st =
    read_on s (same_number (code c) b'.') (act (mark_of (code c)) st)

read_on-write_text :
    (t rest : String) (st : List Json)
    → read_on (write_text t rest) false st ≡ read_on rest false (str t ∷ st)
unfolding read_on write_text mark_of act push_char
read_on-write_text String.[] rest st = refl
read_on-write_text (String.◌∷◌ c t) rest st = read_on-write_text t (chr "." (chr c rest)) st

read_on-write_num :
    (n : ℕ) (rest : String) (st : List Json)
    → read_on (write_num n rest) false st ≡ read_on rest false (num n ∷ st)
unfolding read_on write_num mark_of act
read_on-write_num zero rest st = refl
read_on-write_num (suc n) rest st = read_on-write_num n (chr "+" rest) st

mutual
  unfolding read_on write mark_of act

  read_on-write :
      (v : Json) (rest : String) (st : List Json)
      → read_on (write v rest) false st ≡ read_on rest false (v ∷ st)
  read_on-write null rest st = refl
  read_on-write (bool true) rest st = refl
  read_on-write (bool false) rest st = refl
  read_on-write (num n) rest st = read_on-write_num n rest st
  read_on-write (other_num t) rest st = read_on-write_text t (chr "o" rest) st
  read_on-write (str t) rest st = read_on-write_text t rest st
  read_on-write (arr vs) rest st = read_on-write_items vs rest st
  read_on-write (obj fs) rest st = read_on-write_fields fs rest st

  read_on-write_items :
      (vs : Items) (rest : String) (st : List Json)
      → read_on (write_items vs rest) false st ≡ read_on rest false (arr vs ∷ st)
  read_on-write_items nil rest st = refl
  read_on-write_items (cons v vs) rest st =
      read_on-write_items vs (write v (chr "," rest)) st
      ∙ read_on-write v (chr "," rest) (arr vs ∷ st)

  read_on-write_fields :
      (fs : Fields) (rest : String) (st : List Json)
      → read_on (write_fields fs rest) false st ≡ read_on rest false (obj fs ∷ st)
  read_on-write_fields end rest st = refl
  read_on-write_fields (field k v fs) rest st =
      read_on-write_fields fs (write v (write_text k (chr ":" rest))) st
      ∙ read_on-write v (write_text k (chr ":" rest)) (obj fs ∷ st)
      ∙ read_on-write_text k (chr ":" rest) (v ∷ obj fs ∷ st)

write_text_visible : (t rest : String) → is_blank (write_text t rest) ≡ false
unfolding write_text is_blank
write_text_visible String.[] rest = refl
write_text_visible (String.◌∷◌ c t) rest = write_text_visible t (chr "." (chr c rest))

write_num_visible : (n : ℕ) (rest : String) → is_blank (write_num n rest) ≡ false
unfolding write_num is_blank
write_num_visible zero rest = refl
write_num_visible (suc n) rest = write_num_visible n (chr "+" rest)

mutual
  unfolding write is_blank

  write_visible : (v : Json) (rest : String) → is_blank (write v rest) ≡ false
  write_visible null rest = refl
  write_visible (bool true) rest = refl
  write_visible (bool false) rest = refl
  write_visible (num n) rest = write_num_visible n rest
  write_visible (other_num t) rest = write_text_visible t (chr "o" rest)
  write_visible (str t) rest = write_text_visible t rest
  write_visible (arr vs) rest = write_items_visible vs rest
  write_visible (obj fs) rest = write_fields_visible fs rest

  write_items_visible : (vs : Items) (rest : String) → is_blank (write_items vs rest) ≡ false
  write_items_visible nil rest = refl
  write_items_visible (cons v vs) rest = write_items_visible vs (write v (chr "," rest))

  write_fields_visible : (fs : Fields) (rest : String) → is_blank (write_fields fs rest) ≡ false
  write_fields_visible end rest = refl
  write_fields_visible (field k v fs) rest =
      write_fields_visible fs (write v (write_text k (chr ":" rest)))

-- A validator with one rule: the field that the schema names under "required" must be there.
abbrev missing : Json → Json → List String
missing (str k) (obj fs) = if is_some (get_field? fs k) then [] else "missing" ∷ []
missing _ v = []

abbrev pub library : Platform
library = record {
  dumps = λ v. some (write v "");
  loads = λ t. read_on t false [];
  schema_errors = λ schema v. missing (get_field schema "required") v;
  errors_by_path = λ schema v.
      if is_truthy v then [] else record { path = []; message = "should be non-empty" } ∷ [];
  schema_problem = λ schema. none;
  canonical_bytes = λ v. write v "";
  sha256_hex = λ bytes. "90d1";
}

pub library-IsCodec : IsCodec library
unfolding read_on top
library-IsCodec = record {
  loads-dumps = λ v t h.
      let same : write v "" ≡ t = ground arith in
      ap (λ x. read_on x false []) (sym same) ∙ read_on-write v "" [];
  dumps_visible = λ v t h.
      let same : write v "" ≡ t = ground arith in ap is_blank (sym same) ∙ write_visible v "";
}
