-- ===== src/Deals.antt =====
-- backend/app/api/crm.py, the fields that a stage requires and the move of a deal to a stage. The
-- error on missing fields leaves out which ones.
pub mod Required
pub mod Moved
pub mod Transition
pub mod Again
pub mod Enforced
pub mod Schedule
pub mod Settled
pub mod Aligned
mod Tests
use pulse_crm.Prelude.{
  ℕ, ◌+◌, String, str_eq, Bool, true, false, not, ◌&&◌, ◌||◌, Option, none, some, List, [], ◌∷◌,
  ◌++◌, ◌==◌, is_blank, is_eq, if◌then◌else◌, select, find?, any, update, Result, ok, err, http,
  runtime_error, raise_if, require, ◌>>=◌, ◌>>◌,
}
use pulse_crm.Models.{Value, null, scalar, text, entries, Deal}
use pulse_crm.Access.{Context, Directory, deal_access_condition, ensure_deal_access}
use pulse_crm.Events.{number, ActivityEvent, Journal, record_domain_event}
use pulse_crm.Pipelines.{Stage, version_conflict, board_event}

-- The entity of a definition is a deal or not.
pub record CustomFieldDefinition : Type 0 where
  pub id : ℕ
  pub workspace_id : ℕ
  pub of_deals : Bool
  pub key : String
  pub name : String
  pub is_active : Bool

pub record StageRequiredField : Type 0 where
  pub workspace_id : ℕ
  pub stage_id : ℕ
  pub field_definition_id : Option ℕ
  pub built_in_key : Option String

pub record DealContact : Type 0 where
  pub workspace_id : ℕ
  pub deal_id : ℕ
  pub contact_id : ℕ
  pub is_primary : Bool
  pub created_at : ℕ

pub record DealStageHistory : Type 0 where
  pub workspace_id : ℕ
  pub deal_id : ℕ
  pub from_stage_id : Option ℕ
  pub to_stage_id : ℕ
  pub actor_id : Option ℕ
  pub changed_at : ℕ

pub record DealStore : Type 0 where
  pub directory : Directory
  pub deal_contacts : List DealContact
  pub stages : List Stage
  pub required_fields : List StageRequiredField
  pub definitions : List CustomFieldDefinition
  pub history : List DealStageHistory
  pub journal : Journal

pub record StageTransition : Type 0 where
  pub target_stage_id : ℕ
  pub expected_version : ℕ

unfoldable pub blank_value : Value → Bool
blank_value null = true
blank_value scalar = false
blank_value (text s) = is_blank s
blank_value (entries n) = n == 0

-- `deal.custom_fields.get(key)`.
unfoldable pub custom_value : String → List (String × Value) → Value
custom_value key [] = null
custom_value key ((name, value) ∷ rest) =
    let later = custom_value key rest in if str_eq name key then value else later

-- A column that may be NULL and is never blank otherwise.
abbrev pub column : Option ℕ → Value
column none = null
column (some n) = scalar

-- `getattr(deal, key)`, for the keys that a stage can require; any other is an error here.
unfoldable pub attribute : String → Deal → Result Value
attribute key deal =
    if str_eq key "title"
    then ok (text deal.title)
    else if str_eq key "company_id"
    then ok (column deal.company_id)
    else if str_eq key "assignee_id"
    then ok (column deal.assignee_id)
    else if str_eq key "amount"
    then ok (column deal.amount)
    else if str_eq key "source_id"
    then ok (column deal.source_id)
    else if str_eq key "next_purchase_at"
    then ok (column deal.next_purchase_at)
    else err (runtime_error "AttributeError")

unfoldable pub has_contact : DealStore → Context → Deal → Bool
has_contact s c deal =
    any (λ x. x.workspace_id == c.workspace_id && x.deal_id == deal.id) s.deal_contacts

unfoldable pub built_in_value : DealStore → Context → Deal → String → Result Value
built_in_value s c deal key =
    if str_eq key "contact_ids"
    then ok (if has_contact s c deal then scalar else null)
    else attribute key deal

unfoldable pub active_definition : ℕ → ℕ → CustomFieldDefinition → Bool
active_definition workspace_id id d = d.id == id && d.workspace_id == workspace_id && d.is_active

-- The outer join.
unfoldable pub definition_of : DealStore → ℕ → Option ℕ → Option CustomFieldDefinition
definition_of s workspace_id none = none
definition_of s workspace_id (some id) = find? (active_definition workspace_id id) s.definitions

unfoldable pub if_blank : Value → String → String → List (String × String)
if_blank value key name = if blank_value value then (key, name) ∷ [] else []

unfoldable pub custom_missing : Option CustomFieldDefinition → Deal → List (String × String)
custom_missing none deal = []
custom_missing (some d) deal = if_blank (custom_value d.key deal.custom_fields) d.key d.name

unfoldable pub built_in_missing :
    DealStore → Context → Deal → String → Result (List (String × String))
built_in_missing s c deal key = do value ← built_in_value s c deal key; ok (if_blank value key key)

-- `if requirement.built_in_key`: an empty key is none.
unfoldable pub requirement_missing :
    DealStore
    → Context
    → Deal
    → StageRequiredField
    → Option String
    → Result (List (String × String))
requirement_missing s c deal q none =
    ok (custom_missing (definition_of s c.workspace_id q.field_definition_id) deal)
requirement_missing s c deal q (some key) =
    if is_blank key
    then ok (custom_missing (definition_of s c.workspace_id q.field_definition_id) deal)
    else built_in_missing s c deal key

unfoldable pub missing_fields :
    DealStore → Context → Deal → List StageRequiredField → Result (List (String × String))
missing_fields s c deal [] = ok []
missing_fields s c deal (q ∷ qs) = do
  here ← requirement_missing s c deal q q.built_in_key
  rest ← missing_fields s c deal qs
  ok (here ++ rest)

unfoldable pub required_at : Context → ℕ → StageRequiredField → Bool
required_at c stage_id q = q.stage_id == stage_id && q.workspace_id == c.workspace_id

unfoldable pub in_pipeline : Context → ℕ → ℕ → Stage → Bool
in_pipeline c stage_id pipeline_id x =
    x.id == stage_id && x.workspace_id == c.workspace_id && x.pipeline_id == pipeline_id

-- The condition of the UPDATE, on the deals as other requests have committed them meanwhile.
unfoldable pub unchanged : Context → ℕ → ℕ → Deal → Bool
unchanged c deal_id version x =
    x.id == deal_id
    && x.workspace_id == c.workspace_id
    && deal_access_condition c x
    && x.version == version

abbrev pub moved : ℕ → ℕ → ℕ → Deal → Deal
moved now stage_id version x = record x {
  stage_id = stage_id;
  version = version + 1;
  updated_at = now;
  last_activity_at = now;
}

abbrev pub stage_change : ℕ → Context → Deal → ℕ → DealStageHistory
stage_change now c deal target_id = record {
  workspace_id = c.workspace_id;
  deal_id = deal.id;
  from_stage_id = some deal.stage_id;
  to_stage_id = target_id;
  actor_id = some c.user_id;
  changed_at = now;
}

abbrev pub stage_changed : Context → Deal → ℕ → ActivityEvent
stage_changed c deal target_id =
    board_event "deal.stage_changed" "deal" c deal.id
      (("from_stage_id", number deal.stage_id) ∷ ("to_stage_id", number target_id) ∷ [])

unfoldable pub write_transition :
    ℕ → Context → Deal → Stage → ℕ → List Deal → DealStore → Result (Deal × DealStore)
write_transition now c deal target version meanwhile s = do
  changed ← require (find? (unchanged c deal.id version) meanwhile) version_conflict
  ok (
    moved now target.id version changed,
    record s {
      directory = record s.directory {
        deals = update (unchanged c deal.id version) (moved now target.id version) meanwhile;
      };
      history = stage_change now c deal target.id ∷ s.history;
      journal = record_domain_event (stage_changed c deal target.id) s.journal;
    },
  )

unfoldable pub move_deal :
    ℕ → Context → Deal → Stage → ℕ → List Deal → DealStore → Result (Deal × DealStore)
move_deal now c deal target version meanwhile s =
    if deal.stage_id == target.id
    then ok (deal, s)
    else write_transition now c deal target version meanwhile s

unfoldable pub is_nil {ℓ} : {A : Type ℓ} → List A → Bool
is_nil [] = true
is_nil (x ∷ xs) = false

unfoldable pub transition_deal_stage :
    ℕ → Context → ℕ → StageTransition → List Deal → DealStore → Result (Deal × DealStore)
transition_deal_stage now c deal_id payload meanwhile s = do
  deal ← ensure_deal_access s.directory c deal_id
  raise_if (not (deal.version == payload.expected_version)) version_conflict
  target ←
      require (find? (in_pipeline c payload.target_stage_id deal.pipeline_id) s.stages)
        (http 422 "target stage does not belong to deal pipeline")
  missing ← missing_fields s c deal (select (required_at c target.id) s.required_fields)
  raise_if (not (is_nil missing)) (http 422 "missing_required_fields")
  move_deal now c deal target payload.expected_version meanwhile s
