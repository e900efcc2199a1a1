-- ===== src/Jobs.antt =====
-- backend/app/services/jobs.py: the background job queue in PostgreSQL. The table is a list of
-- rows; a function that runs in a transaction returns the new table. Times and delays are whole
-- seconds, and the ids and the clock readings that the code draws are arguments.
pub mod Acknowledge
pub mod Recovery
pub mod Order
pub mod Invariant
pub mod Picked
pub mod Claim
pub mod Enqueue
pub mod Fencing
pub mod Expired
pub mod Supervisor
pub mod Tests
use pulse_crm.Prelude.{
  ℕ, zero, ◌+◌, ◌-◌, ◌*◌, ◌^◌, min, String, Bool, true, false, not, ◌&&◌, ◌||◌, Option, none, some,
  List, [], ◌∷◌, map, ltb, leb, ◌==◌, if◌then◌else◌, or_else, is_none, is_text, text_take, strip,
  is_blank, select, find?, any, count, update, take, Result, ok, err, value_error, runtime_error,
  raise_if, require, ◌>>=◌, ◌>>◌,
}

pub data Status : Type 0 where
  queued running succeeded failed : Status

abbrev pub is_queued : Status → Bool
is_queued queued = true
is_queued _ = false

abbrev pub is_running : Status → Bool
is_running running = true
is_running _ = false

abbrev pub default_lease_seconds : ℕ
default_lease_seconds = 45

abbrev pub default_job_timeout_seconds : ℕ
default_job_timeout_seconds = 30

abbrev pub default_max_attempts : ℕ
default_max_attempts = 5

abbrev pub max_error_length : ℕ
max_error_length = 4000

-- A payload's entries, all of them texts where the program enqueues a job.
abbrev pub Payload : Type 0
Payload = List (String × String)

pub record BackgroundJob : Type 0 where
  pub id : ℕ
  pub workspace_id : Option ℕ
  pub job_type : String
  pub payload : Payload
  pub status : Status
  pub run_at : ℕ
  pub attempts : ℕ
  pub max_attempts : ℕ
  pub dedupe_key : Option String
  pub lease_owner : Option String
  pub lease_until : Option ℕ
  pub last_error : Option String
  pub created_at : ℕ

unfoldable pub retry_delay : ℕ → ℕ → ℕ → ℕ
retry_delay attempts base_seconds cap_seconds = min cap_seconds (base_seconds * 2 ^ (attempts - 1))

-- What the handler of a job gets.
pub record ClaimedJob : Type 0 where
  pub id : ℕ
  pub job_type : String
  pub payload : Payload
  pub attempts : ℕ
  pub max_attempts : ℕ
  pub lease_owner : String
  pub workspace_id : Option ℕ

unfoldable pub from_model : BackgroundJob → Result ClaimedJob
from_model job = do
  owner ← require job.lease_owner (value_error "claimed job is missing lease_owner")
  ok (record {
    id = job.id;
    job_type = job.job_type;
    payload = job.payload;
    attempts = job.attempts;
    max_attempts = job.max_attempts;
    lease_owner = owner;
    workspace_id = job.workspace_id;
  })

-- The arguments of `enqueue_job`.
pub record JobRequest : Type 0 where
  pub job_type : String
  pub payload : Payload
  pub workspace_id : Option ℕ
  pub run_at : Option ℕ
  pub max_attempts : ℕ
  pub dedupe_key : Option String

abbrev pub new_job : ℕ → ℕ → JobRequest → BackgroundJob
new_job id now r = record {
  id = id;
  workspace_id = r.workspace_id;
  job_type = r.job_type;
  payload = r.payload;
  status = queued;
  run_at = or_else r.run_at now;
  attempts = 0;
  max_attempts = r.max_attempts;
  dedupe_key = r.dedupe_key;
  lease_owner = none;
  lease_until = none;
  last_error = none;
  created_at = now;
}

-- `BackgroundJob.dedupe_key == key`.
abbrev pub has_key : String → BackgroundJob → Bool
has_key key j = is_text j.dedupe_key key

-- `ON CONFLICT (dedupe_key) DO NOTHING`: the row that holds the key is returned instead.
unfoldable pub insert_or_existing :
    BackgroundJob → List BackgroundJob → Option BackgroundJob → BackgroundJob × List BackgroundJob
insert_or_existing job jobs none = (job, job ∷ jobs)
insert_or_existing job jobs (some existing) = (existing, jobs)

unfoldable pub holder : Option String → List BackgroundJob → Option BackgroundJob
holder none jobs = none
holder (some key) jobs = find? (has_key key) jobs

unfoldable pub enqueue_job :
    ℕ → ℕ → JobRequest → List BackgroundJob → Result (BackgroundJob × List BackgroundJob)
unfolding insert_or_existing holder
enqueue_job id now r jobs = do
  raise_if (is_blank (strip r.job_type)) (value_error "job_type must not be empty")
  raise_if (ltb r.max_attempts 1) (value_error "max_attempts must be at least 1")
  ok (insert_or_existing (new_job id now r) jobs (holder r.dedupe_key jobs))

-- `ORDER BY run_at, created_at, id`.
unfoldable pub before : BackgroundJob → BackgroundJob → Bool
before a b =
    ltb a.run_at b.run_at
    || (a.run_at == b.run_at
        && (ltb a.created_at b.created_at || (a.created_at == b.created_at && leb a.id b.id)))

unfoldable pub insert_ordered : BackgroundJob → List BackgroundJob → List BackgroundJob
insert_ordered j [] = j ∷ []
insert_ordered j (k ∷ ks) =
    let later = k ∷ insert_ordered j ks in if before j k then j ∷ k ∷ ks else later

unfoldable pub order : List BackgroundJob → List BackgroundJob
order [] = []
order (j ∷ js) = insert_ordered j (order js)

unfoldable pub is_runnable : ℕ → BackgroundJob → Bool
is_runnable now j = is_queued j.status && leb j.run_at now && ltb j.attempts j.max_attempts

-- `FOR UPDATE SKIP LOCKED`: `locked` tells which rows other transactions hold.
unfoldable pub pick : (ℕ → Bool) → ℕ → ℕ → List BackgroundJob → List BackgroundJob
unfolding is_runnable
pick locked limit now jobs =
    take limit (order (select (λ j. is_runnable now j && not (locked j.id)) jobs))

unfoldable pub lease : String → ℕ → BackgroundJob → BackgroundJob
lease owner until j = record j {
  status = running;
  attempts = j.attempts + 1;
  lease_owner = some owner;
  lease_until = some until;
}

-- The row is one of those.
unfoldable pub is_among : List BackgroundJob → BackgroundJob → Bool
is_among picked j = any (λ k. k.id == j.id) picked

unfoldable pub claim_jobs :
    (ℕ → Bool)
    → String
    → ℕ
    → ℕ
    → ℕ
    → List BackgroundJob
    → Result (List BackgroundJob × List BackgroundJob)
claim_jobs locked owner limit lease_seconds now jobs = do
  raise_if (is_blank owner) (value_error "lease_owner must not be empty")
  raise_if (ltb limit 1) (value_error "limit must be at least 1")
  raise_if (ltb lease_seconds 1) (value_error "lease_seconds must be positive")
  let picked = pick locked limit now jobs
  let until = now + lease_seconds
  ok (map (lease owner until) picked, update (is_among picked) (lease owner until) jobs)
