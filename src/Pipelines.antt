-- ===== src/Pipelines.antt =====
-- backend/app/api/crm.py, the pipelines and their stages: the tables, and the handlers that create
-- and rename a pipeline. The stages' handlers and the deletions are the children's.
pub mod References
pub mod Stages
pub mod Deletion
pub mod Positions
pub mod Placed
pub mod Kept
mod Tests
use Prim.Native.Char.{code}
use pulse_crm.Prelude.{
  ℕ, ◌+◌, String, Bool, true, false, not, ◌&&◌, ◌||◌, Option, none, some, List, [], ◌∷◌, ◌++◌, ◌==◌,
  str_eq, is_none, is_eq, if◌then◌else◌, strip, is_blank, find?, any, update, Result, Error, ok,
  err, http, raise_if, require, ◌>>=◌, ◌>>◌,
}
use pulse_crm.Access.{Context}
use pulse_crm.Events.{Payload, text, number, ActivityEvent, Journal, record_domain_event}

pub data StageType : Type 0 where
  open_stage won lost : StageType

abbrev pub is_open : StageType → Bool
is_open open_stage = true
is_open _ = false

pub record Pipeline : Type 0 where
  pub id : ℕ
  pub workspace_id : ℕ
  pub name : String
  pub position : ℕ
  pub is_active : Bool
  pub version : ℕ

pub record Stage : Type 0 where
  pub id : ℕ
  pub workspace_id : ℕ
  pub pipeline_id : ℕ
  pub name : String
  pub color : String
  pub position : ℕ
  pub stage_type : StageType
  pub version : ℕ

-- A row of a table that refers to pipelines and stages: a deal, a channel connection (by its
-- defaults), a notification rule, a form or a webhook endpoint.
pub record Placement : Type 0 where
  pub workspace_id : ℕ
  pub pipeline_id : Option ℕ
  pub stage_id : Option ℕ

pub record DealStageHistory : Type 0 where
  pub workspace_id : ℕ
  pub from_stage_id : Option ℕ
  pub to_stage_id : ℕ

pub record ExternalEntityMap : Type 0 where
  pub workspace_id : ℕ
  pub entity_type : String
  pub internal_id : ℕ

pub record Board : Type 0 where
  pub pipelines : List Pipeline
  pub stages : List Stage
  pub deals : List Placement
  pub deal_stage_history : List DealStageHistory
  pub channel_connections : List Placement
  pub notification_rules : List Placement
  pub forms : List Placement
  pub webhook_endpoints : List Placement
  pub external_maps : List ExternalEntityMap
  pub journal : Journal

-- `color.upper()` of the colours that the schemas let through, `#` and six hexadecimal digits.
unfoldable pub upper : String → String
upper String.[] = ""
upper (String.◌∷◌ c s) =
    let rest = upper s in
    let n = code c in
    String.◌∷◌
      (if n == 97
        then "A"
        else if n == 98
        then "B"
        else if n == 99
        then "C"
        else if n == 100
        then "D"
        else if n == 101
        then "E"
        else if n == 102
        then "F"
        else c)
      rest

unfoldable pub clean_resource_name : String → String → Result String
clean_resource_name value blank_detail = do
  raise_if (is_blank (strip value)) (http 422 blank_detail)
  ok (strip value)

abbrev pub version_conflict : Error
version_conflict = http 409 "version_conflict"

abbrev pub pipeline_not_found : Error
pipeline_not_found = http 404 "pipeline not found"

abbrev pub stage_not_found : Error
stage_not_found = http 404 "stage not found"

abbrev pub own_pipeline : ℕ → ℕ → Pipeline → Bool
own_pipeline workspace_id entity_id p = p.id == entity_id && p.workspace_id == workspace_id

unfoldable pub ensure_pipeline : Board → ℕ → ℕ → Result Pipeline
ensure_pipeline b workspace_id entity_id =
    require (find? (own_pipeline workspace_id entity_id) b.pipelines) pipeline_not_found

-- With the pipeline's condition, where the caller passes one.
unfoldable pub ensure_stage : Board → ℕ → ℕ → Option ℕ → Result Stage
ensure_stage b workspace_id entity_id pipeline_id =
    require
      (find?
        (λ x.
          x.id == entity_id
          && x.workspace_id == workspace_id
          && (is_none pipeline_id || is_eq pipeline_id x.pipeline_id))
        b.stages)
      stage_not_found

abbrev pub of_pipeline : ℕ → ℕ → Stage → Bool
of_pipeline workspace_id pipeline_id x =
    x.workspace_id == workspace_id && x.pipeline_id == pipeline_id

abbrev pub board_event : String → String → Context → ℕ → Payload → ActivityEvent
board_event event_type entity_type c entity_id payload = record {
  workspace_id = c.workspace_id;
  event_type = event_type;
  entity_type = entity_type;
  entity_id = entity_id;
  actor_id = some c.user_id;
  payload = payload;
}

pub record StageCreate : Type 0 where
  pub name : String
  pub color : String
  pub position : ℕ
  pub stage_type : StageType

pub record PipelineCreate : Type 0 where
  pub name : String
  pub position : ℕ
  pub stages : List StageCreate

unfoldable pub unique_positions : List StageCreate → Bool
unique_positions [] = true
unique_positions (x ∷ xs) =
    let rest = unique_positions xs in
    not (any (λ (y : StageCreate). y.position == x.position) xs) && rest

-- The rows of the payload's stages; `next_id` is the fresh key of the first of them.
unfoldable pub build_stages : ℕ → ℕ → ℕ → List StageCreate → Result (List Stage)
build_stages workspace_id pipeline_id next_id [] = ok []
build_stages workspace_id pipeline_id next_id (x ∷ xs) = do
  name ← clean_resource_name x.name "stage name cannot be blank"
  rest ← build_stages workspace_id pipeline_id (next_id + 1) xs
  ok (
      record {
        id = next_id;
        workspace_id = workspace_id;
        pipeline_id = pipeline_id;
        name = name;
        color = upper x.color;
        position = x.position;
        stage_type = x.stage_type;
        version = 1;
      }
      ∷ rest)

-- The unique constraint on a workspace's pipeline names.
unfoldable pub name_taken : Board → ℕ → ℕ → String → Bool
name_taken b workspace_id pipeline_id name =
    any
      (λ (p : Pipeline).
        p.workspace_id == workspace_id && not (p.id == pipeline_id) && str_eq p.name name)
      b.pipelines

unfoldable pub create_pipeline :
    ℕ → ℕ → Context → PipelineCreate → Board → Result (Pipeline × Board)
create_pipeline id next_id c payload b = do
  raise_if (not (unique_positions payload.stages)) (http 422 "stage positions must be unique")
  name ← clean_resource_name payload.name "pipeline name cannot be blank"
  raise_if (name_taken b c.workspace_id id name)
      (http 409 "pipeline name or stage position already exists")
  stages ← build_stages c.workspace_id id next_id payload.stages
  let pipeline : Pipeline = record {
    id = id;
    workspace_id = c.workspace_id;
    name = name;
    position = payload.position;
    is_active = true;
    version = 1;
  }
  ok (
    pipeline,
    record b {
      pipelines = pipeline ∷ b.pipelines;
      stages = stages ++ b.stages;
      journal = record_domain_event (board_event "pipeline.created" "pipeline" c id []) b.journal;
    },
  )

pub record PipelineUpdate : Type 0 where
  pub name : String
  pub expected_version : ℕ

abbrev pub renamed : String → Pipeline → Pipeline
renamed name p = record p { name = name; version = p.version + 1 }

-- The optimistic UPDATE: it writes the row that still has the expected version, or tells a
-- changed row from a missing one.
unfoldable pub update_pipeline : Context → ℕ → PipelineUpdate → Board → Result (Pipeline × Board)
update_pipeline c pipeline_id payload b = do
  name ← clean_resource_name payload.name "pipeline name cannot be blank"
  p ← ensure_pipeline b c.workspace_id pipeline_id
  raise_if (not (p.version == payload.expected_version)) version_conflict
  raise_if (name_taken b c.workspace_id pipeline_id name) (http 409 "pipeline_name_conflict")
  ok (
    renamed name p,
    record b {
      pipelines = update (own_pipeline c.workspace_id pipeline_id) (renamed name) b.pipelines;
      journal =
          record_domain_event
            (board_event "pipeline.updated" "pipeline" c pipeline_id
              (("name", text name) ∷ ("version", number (p.version + 1)) ∷ []))
            b.journal;
    },
  )
