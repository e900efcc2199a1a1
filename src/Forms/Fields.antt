-- ===== src/Forms/Fields.antt =====
-- backend/app/integrations/forms.py, `validate_form_payload`: the fields that the administrator
-- declared. A declaration is an entry of the schema that is an object with a text key. Of the error
-- only the names are left out, and `decimal` is the library's reading of a decimal number.
use pulse_crm.Prelude.{
  ℕ, min, String, str_eq, strip, is_blank, text_length, Bool, true, false, not, ◌&&◌, ◌||◌, Option,
  none, some, List, [], ◌∷◌, ltb, if◌then◌else◌, any, Result, ok, value_error, raise_if, ◌>>◌,
}

pub data ℤ : Type 0 where
  pos negsuc : ℕ → ℤ

pub record FieldDefinition : Type 0 where
  pub key : String
  pub required : Bool
  pub field_type : Option String
  pub max_length : Option ℤ
  pub options : Option (List String)

-- A submitted value; a number, a list or an object is the text that `str` makes of it.
pub data Raw : Type 0 where
  missing : Raw
  text number composite : String → Raw
  boolean : Bool → Raw

pub data Clean : Type 0 where
  clean_text : String → Clean
  clean_flag : Bool → Clean

abbrev pub Payload : Type 0
Payload = List (String × Raw)

abbrev pub Normalized : Type 0
Normalized = List (String × Clean)

unfoldable pub get : String → Payload → Raw
get key [] = missing
get key ((name, raw) ∷ rest) = let later = get key rest in if str_eq name key then raw else later

-- `str(raw)`.
unfoldable pub str : Raw → String
str missing = "None"
str (text s) = s
str (number s) = s
str (composite s) = s
str (boolean b) = if b then "True" else "False"

-- `raw in {True, "true", "1", "on"}`, where the numbers 1 and 1.0 equal True, and the same of False.
unfoldable pub is_yes : Raw → Bool
is_yes (boolean b) = b
is_yes (text s) = str_eq s "true" || str_eq s "1" || str_eq s "on"
is_yes (number s) = str_eq s "1" || str_eq s "1.0"
is_yes _ = false

unfoldable pub is_no : Raw → Bool
is_no (boolean b) = not b
is_no (text s) = str_eq s "false" || str_eq s "0" || str_eq s "off"
is_no (number s) = str_eq s "0" || str_eq s "0.0" || str_eq s "-0.0"
is_no _ = false

unfoldable pub is_text_type : String → Bool
is_text_type t = str_eq t "text" || str_eq t "email" || str_eq t "phone" || str_eq t "textarea"

-- An address has an `@`, and not at its start.
unfoldable pub has_at : String → Bool
has_at String.[] = false
has_at (String.◌∷◌ c s) = str_eq (String.◌∷◌ c "") "@" || has_at s

unfoldable pub starts_at : String → Bool
starts_at String.[] = false
starts_at (String.◌∷◌ c s) = str_eq (String.◌∷◌ c "") "@"

-- `int(max_length or 2_000)`: zero counts as missing.
unfoldable pub length_limit : Option ℤ → ℤ
length_limit none = pos 2000
length_limit (some (pos n)) = pos (if ltb 0 n then min n 10000 else 2000)
length_limit (some (negsuc n)) = negsuc n

-- `length > limit`.
abbrev pub exceeds : ℕ → ℤ → Bool
exceeds n (pos limit) = ltb limit n
exceeds n (negsuc limit) = true

unfoldable pub normalize_text : String → Option ℤ → String → Option Clean
normalize_text t max_length value =
    if is_blank value
      || exceeds (text_length value) (length_limit max_length)
      || (str_eq t "email" && (not (has_at value) || starts_at value))
    then none
    else some (clean_text value)

unfoldable pub normalize_boolean : Raw → Option Clean
normalize_boolean raw =
    if is_yes raw
    then some (clean_flag true)
    else if is_no raw
    then some (clean_flag false)
    else none

unfoldable pub normalize_option : Option (List String) → String → Option Clean
normalize_option none value = none
normalize_option (some options) value =
    if any (str_eq value) options then some (clean_text value) else none

unfoldable pub is_empty : Raw → Bool
is_empty missing = true
is_empty (text s) = is_blank s
is_empty _ = false

unfoldable pub field_type : Option String → String
field_type none = "text"
field_type (some t) = if is_blank t then "text" else t

-- What a field adds: an error, nothing, or its value.
pub data Checked : Type 0 where
  invalid skipped : Checked
  kept : Clean → Checked

unfoldable pub checked_value : Option Clean → Checked
checked_value none = invalid
checked_value (some value) = kept value

-- `definitions[key] = definition`: the last declaration of a key counts, in the first one's place.
unfoldable pub declare_field : FieldDefinition → List FieldDefinition → List FieldDefinition
declare_field d [] = d ∷ []
declare_field d (x ∷ xs) =
    let rest = declare_field d xs in if str_eq x.key d.key then d ∷ xs else x ∷ rest

unfoldable pub declared : List FieldDefinition → List FieldDefinition → List FieldDefinition
declared [] ds = ds
declared (x ∷ xs) ds = declared xs (declare_field x ds)

unfoldable pub add_field : String → Checked → Bool × Normalized → Bool × Normalized
add_field key invalid (failed, values) = (true, values)
add_field key skipped (failed, values) = (failed, values)
add_field key (kept value) (failed, values) = (failed, (key, value) ∷ values)

module _ (decimal : String → Option String) where
  unfoldable pub normalize_number : Option String → Option Clean
  normalize_number none = none
  normalize_number (some value) = some (clean_text value)

  -- A value, or none where the source raises.
  unfoldable pub normalize_field : Raw → String → FieldDefinition → Option Clean
  normalize_field raw t d =
      if is_text_type t
      then normalize_text t d.max_length (strip (str raw))
      else if str_eq t "number"
      then normalize_number (decimal (str raw))
      else if str_eq t "boolean"
      then normalize_boolean raw
      else if str_eq t "select"
      then normalize_option d.options (str raw)
      else none

  unfoldable pub check_field : FieldDefinition → Raw → Checked
  check_field d raw =
      if is_empty raw
      then (if d.required then invalid else skipped)
      else checked_value (normalize_field raw (field_type d.field_type) d)

  unfoldable pub check_fields : List FieldDefinition → Payload → Bool × Normalized
  check_fields [] payload = (false, [])
  check_fields (d ∷ ds) payload =
      add_field d.key (check_field d (get d.key payload)) (check_fields ds payload)

  unfoldable pub validate_form_payload : List FieldDefinition → Payload → Result Normalized
  validate_form_payload fields_schema payload =
      let (failed, values) = check_fields (declared fields_schema []) payload in
      (do raise_if failed (value_error "invalid_fields"); ok values)
