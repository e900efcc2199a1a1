-- ===== src/Imports.antt =====
-- backend/app/integrations/amo.py: the import from amoCRM, one page of entities at a time. What the
-- entities become in the CRM is the writer's, an interface here as it is there.
pub mod Apply
pub mod Pages
pub mod Applied
pub mod Again
pub mod Lifecycle
mod Tests
use pulse_crm.Prelude.{
  ℕ, ◌+◌, String, text_append, str_eq, text_length, text_take, Bool, true, false, not, ◌&&◌, ◌||◌,
  Option, none, some, List, [], ◌∷◌, ◌==◌, ltb, leb, if◌then◌else◌, or_else, length, is_text,
  is_none, find?, any, update, Error, Result, ok, err, value_error, runtime_error, raise_if,
  require, ◌>>=◌, ◌>>◌,
}

pub data ImportStatus : Type 0 where
  pending running paused succeeded failed : ImportStatus

abbrev pub Mapping : Type 0
Mapping = List (String × String)

pub record ImportJob : Type 0 where
  pub id : ℕ
  pub workspace_id : ℕ
  pub provider : String
  pub status : ImportStatus
  pub dry_run : Bool
  pub entity_type : Option String
  pub cursor : Mapping
  pub user_mapping : Mapping
  pub counts : List (String × ℕ)
  pub started_at : Option ℕ
  pub completed_at : Option ℕ
  pub last_error : Option String
  pub version : ℕ

pub record ExternalEntityMap : Type 0 where
  pub workspace_id : ℕ
  pub import_job_id : Option ℕ
  pub provider : String
  pub entity_type : String
  pub external_id : String
  pub internal_id : ℕ
  pub source_updated_at : Option ℕ
  pub fingerprint : String

abbrev pub import_sequence : List String
import_sequence =
    "pipelines" ∷ "stages" ∷ "users" ∷ "custom_fields" ∷ "companies" ∷ "contacts" ∷ "deals"
    ∷ "tasks" ∷ "notes" ∷ []

unfoldable pub is_resource_type : String → Bool
is_resource_type t = any (str_eq t) import_sequence

abbrev pub max_import_page_size : ℕ
max_import_page_size = 250

-- `data` is the canonical JSON text of the entity's data.
pub record AmoEntity : Type 0 where
  pub entity_type : String
  pub external_id : String
  pub content : String
  pub source_updated_at : Option ℕ

pub record AmoPage : Type 0 where
  pub entity_type : String
  pub entities : List AmoEntity
  pub next_cursor : Option Mapping

-- `__post_init__`.
unfoldable pub new_page : String → List AmoEntity → Option Mapping → Result AmoPage
new_page entity_type entities next_cursor = do
  raise_if (not (is_resource_type entity_type)) (value_error "unsupported amoCRM entity type")
  raise_if (ltb max_import_page_size (length entities))
      (value_error "amoCRM page exceeds 250 entities")
  raise_if (any (λ (e : AmoEntity). not (str_eq e.entity_type entity_type)) entities)
      (value_error "page contains a different entity type")
  ok (record { entity_type = entity_type; entities = entities; next_cursor = next_cursor })

pub record ImportJobSnapshot : Type 0 where
  pub id : ℕ
  pub workspace_id : ℕ
  pub entity_type : String
  pub cursor : Mapping
  pub user_mapping : Mapping
  pub dry_run : Bool

unfoldable pub snapshot_job : ImportJob → Result ImportJobSnapshot
snapshot_job job = do
  entity_type ← require job.entity_type (runtime_error "import job has no supported entity type")
  raise_if (not (is_resource_type entity_type || str_eq entity_type "all"))
      (runtime_error "import job has no supported entity type")
  ok (record {
    id = job.id;
    workspace_id = job.workspace_id;
    entity_type = entity_type;
    cursor = job.cursor;
    user_mapping = job.user_mapping;
    dry_run = job.dry_run;
  })

pub record Counters : Type 0 where
  pub created : ℕ
  pub updated : ℕ
  pub unchanged : ℕ
  pub would_create : ℕ
  pub would_update : ℕ

abbrev pub no_counts : Counters
no_counts = record { created = 0; updated = 0; unchanged = 0; would_create = 0; would_update = 0 }

pub record ImportPageResult : Type 0 where
  pub counters : Counters
  pub done : Bool

-- `ImportEntityWriter`: it writes an entity, over the internal one of that number or as a new one,
-- and returns its number.
pub record ImportEntityWriter (S : Type 0) : Type 0 where
  pub upsert : ℕ → AmoEntity → Option ℕ → Mapping → S → Result (ℕ × S)

unfoldable pub accepts_page : ImportStatus → Bool
accepts_page pending = true
accepts_page running = true
accepts_page _ = false

unfoldable pub pause_import : ImportJob → ImportJob
pause_import job =
    if accepts_page job.status
    then record job { status = paused; version = job.version + 1 }
    else job

unfoldable pub can_resume : ImportStatus → Bool
can_resume paused = true
can_resume failed = true
can_resume _ = false

unfoldable pub resume_import : ImportJob → Result ImportJob
resume_import job = do
  raise_if (not (can_resume job.status))
      (runtime_error "only paused or failed imports can be resumed")
  ok (record job { status = running; last_error = none; version = job.version + 1 })

unfoldable pub fail_import : ImportJob → String → ImportJob
fail_import job error = record job {
  status = failed;
  last_error = some (text_take 4000 error);
  version = job.version + 1;
}
