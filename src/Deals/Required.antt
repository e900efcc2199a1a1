-- ===== src/Deals/Required.antt =====
-- backend/app/api/crm.py, `replace_required_fields`: what a stage requires of the deals that enter.
use pulse_crm.Prelude.{
  ℕ, String, str_eq, Bool, false, not, ◌&&◌, ◌||◌, Option, none, some, List, [], ◌∷◌, ◌++◌, map,
  length, ◌==◌, is_blank, if◌then◌else◌, find?, any, delete, Result, ok, http, raise_if, require,
  ◌>>=◌, ◌>>◌,
}
use pulse_crm.Access.{Context}
use pulse_crm.Events.{number, record_domain_event}
use pulse_crm.Pipelines.{Stage, stage_not_found, board_event}
use pulse_crm.Deals.{StageRequiredField, DealStore, active_definition, required_at}

pub record RequiredFieldInput : Type 0 where
  pub field_definition_id : Option ℕ
  pub built_in_key : Option String

abbrev pub built_in_required_fields : List String
built_in_required_fields =
    "title" ∷ "company_id" ∷ "contact_ids" ∷ "assignee_id" ∷ "amount" ∷ "source_id"
    ∷ "next_purchase_at" ∷ []

-- The keys and the identifiers that the inputs name; an empty key is none.
unfoldable pub key_of : Option String → List String
key_of none = []
key_of (some key) = if is_blank key then [] else key ∷ []

unfoldable pub builtin_keys : List RequiredFieldInput → List String
builtin_keys [] = []
builtin_keys (x ∷ xs) = key_of x.built_in_key ++ builtin_keys xs

unfoldable pub id_of : Option ℕ → List ℕ
id_of none = []
id_of (some id) = id ∷ []

unfoldable pub definition_ids : List RequiredFieldInput → List ℕ
definition_ids [] = []
definition_ids (x ∷ xs) = id_of x.field_definition_id ++ definition_ids xs

-- `len(set(xs)) != len(xs)`.
unfoldable pub repeats {ℓ} : {A : Type ℓ} → (A → A → Bool) → List A → Bool
repeats same [] = false
repeats same (x ∷ xs) = any (same x) xs || repeats same xs

unfoldable pub is_supported : String → Bool
is_supported key = any (str_eq key) built_in_required_fields

unfoldable pub has_definition : DealStore → Context → ℕ → Bool
has_definition s c id = any (λ d. active_definition c.workspace_id id d && d.of_deals) s.definitions

unfoldable pub own_stage : Context → ℕ → Stage → Bool
own_stage c stage_id x = x.id == stage_id && x.workspace_id == c.workspace_id

abbrev pub new_required : ℕ → ℕ → RequiredFieldInput → StageRequiredField
new_required workspace_id stage_id item = record {
  workspace_id = workspace_id;
  stage_id = stage_id;
  field_definition_id = item.field_definition_id;
  built_in_key = item.built_in_key;
}

unfoldable pub replace_required_fields :
    Context → ℕ → List RequiredFieldInput → DealStore → Result (List StageRequiredField × DealStore)
replace_required_fields c stage_id items s = do
  stage ← require (find? (own_stage c stage_id) s.stages) stage_not_found
  raise_if (any (λ key. not (is_supported key)) (builtin_keys items))
      (http 422 "unsupported built-in required field")
  raise_if (repeats str_eq (builtin_keys items) || repeats (λ a b. a == b) (definition_ids items))
      (http 422 "required fields must be unique")
  raise_if (any (λ id. not (has_definition s c id)) (definition_ids items))
      (http 422 "unknown or non-deal custom field")
  ok (
    map (new_required c.workspace_id stage.id) items,
    record s {
      required_fields =
          map (new_required c.workspace_id stage.id) items
          ++ delete (required_at c stage.id) s.required_fields;
      journal =
          record_domain_event
            (board_event "stage.required_fields_changed" "stage" c stage.id
              (("count", number (length items)) ∷ []))
            s.journal;
    },
  )
