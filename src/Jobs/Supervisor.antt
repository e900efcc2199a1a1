-- ===== src/Jobs/Supervisor.antt =====
-- backend/app/services/jobs.py: the supervisor that runs jobs inside the application. Its loops
-- share one record; each function is one round of a loop, up to its next wait. Whether the
-- database answers, and how a handler ends, are arguments; times are readings of one clock.
pub mod Rounds
pub mod Capacity
pub mod Health
use pulse_crm.Prelude.{
  ℕ, ◌+◌, ◌-◌, ◌*◌, min, max, ◌++◌, String, is_blank, Bool, true, false, not, ◌&&◌, ◌||◌, Option,
  none, some, List, [], ◌∷◌, map, ltb, leb, ◌==◌, if◌then◌else◌, or_else, is_none, str_eq, any,
  length, Result, ok, err, value_error, runtime_error, raise_if, ◌>>=◌, ◌>>◌,
}
use pulse_crm.Jobs.{BackgroundJob, ClaimedJob, from_model, claim_jobs}
use pulse_crm.Jobs.Acknowledge.{back_off, complete_job, fail_job}
use pulse_crm.Jobs.Recovery.{recover_expired_leases}

-- `_database_failures`, a set of the names of these four operations.
pub data Operation : Type 0 where
  heartbeat recovery dispatch acknowledgement : Operation

pub record Failures : Type 0 where
  pub heartbeat : Bool
  pub recovery : Bool
  pub dispatch : Bool
  pub acknowledgement : Bool

abbrev pub no_failures : Failures
no_failures = record {
  heartbeat = false;
  recovery = false;
  dispatch = false;
  acknowledgement = false;
}

abbrev pub put : Operation → Bool → Failures → Failures
put heartbeat b f = record f { heartbeat = b }
put recovery b f = record f { recovery = b }
put dispatch b f = record f { dispatch = b }
put acknowledgement b f = record f { acknowledgement = b }

abbrev pub any_failure : Failures → Bool
any_failure f = f.heartbeat || f.recovery || f.dispatch || f.acknowledgement

pub record Supervisor : Type 0 where
  pub handlers : List String
  pub concurrency : ℕ
  pub batch_size : ℕ
  pub poll_interval_seconds : ℕ
  pub heartbeat_interval_seconds : ℕ
  pub recovery_interval_seconds : ℕ
  pub lease_seconds : ℕ
  pub job_timeout_seconds : ℕ
  pub worker_id : String
  pub stopping : Bool
  pub running : Bool
  pub active_tasks : List ℕ
  pub last_heartbeat : Option ℕ
  pub database_failures : Failures

-- `worker_id or f"pulse-{uuid.uuid4()}"`, where the generated name is an argument.
abbrev pub worker_name : Option String → String → String
worker_name none generated = generated
worker_name (some name) generated = if is_blank name then generated else name

-- `__init__`: its arguments with their checks. `batch_size or concurrency` reads an absent size.
unfoldable pub new_supervisor :
    List String → ℕ → Option ℕ → ℕ → ℕ → ℕ → ℕ → ℕ → Option String → String → Result Supervisor
new_supervisor handlers concurrency batch poll beat recover lease timeout worker generated = do
  raise_if (ltb concurrency 1) (value_error "concurrency must be at least 1")
  raise_if (elim batch [ none ↦ false | some b ↦ ltb b 1 ])
      (value_error "batch_size must be at least 1")
  raise_if (leb (min poll (min beat (min recover (min lease timeout)))) 0)
      (value_error "supervisor intervals and timeouts must be positive")
  raise_if (leb lease timeout)
      (value_error "lease_seconds must be greater than job_timeout_seconds")
  ok (record {
    handlers = handlers;
    concurrency = concurrency;
    batch_size = min (or_else batch concurrency) concurrency;
    poll_interval_seconds = poll;
    heartbeat_interval_seconds = beat;
    recovery_interval_seconds = recover;
    lease_seconds = lease;
    job_timeout_seconds = timeout;
    worker_id = worker_name worker generated;
    stopping = false;
    running = false;
    active_tasks = [];
    last_heartbeat = none;
    database_failures = no_failures;
  })

unfoldable pub active_job_count : Supervisor → ℕ
active_job_count s = length s.active_tasks

-- `given or default`: zero counts as absent.
abbrev pub given_or : Option ℕ → ℕ → ℕ
given_or none d = d
given_or (some n) d = if n == 0 then d else n

unfoldable pub is_healthy : Supervisor → ℕ → Option ℕ → Bool
is_healthy s now max_age_seconds =
    if not s.running || any_failure s.database_failures then false else elim s.last_heartbeat [
      | none ↦ false
      | some t ↦ leb (now - t) (given_or max_age_seconds (max 5 (s.heartbeat_interval_seconds * 3)))
    ]

-- The two ends of `run`, round its loops.
unfoldable pub run_begins : Supervisor → Result Supervisor
run_begins s = do
  raise_if s.running (runtime_error "job supervisor is already running")
  ok (record s { running = true; database_failures = no_failures; last_heartbeat = none })

unfoldable pub run_ends : Supervisor → Supervisor
run_ends s = record s { running = false; active_tasks = [] }

-- The database errors that the loops catch.
pub data DatabaseError : Type 0 where
  operational interface timed_out : DatabaseError
  other : Bool → DatabaseError

abbrev pub is_transient : DatabaseError → Bool
is_transient (other connection_invalidated) = connection_invalidated
is_transient _ = true

unfoldable pub database_unavailable : Operation → DatabaseError → Supervisor → Result Supervisor
database_unavailable operation error s =
    if is_transient error
    then ok (record s { database_failures = put operation true s.database_failures })
    else err (runtime_error "database error")

clear : Operation → Failures → Failures
clear recovery f = put acknowledgement false (put recovery false f)
clear operation f = put operation false f

touch : ℕ → Supervisor → Supervisor
touch now s = if any_failure s.database_failures then s else record s { last_heartbeat = some now }

unfoldable pub database_available : Operation → ℕ → Supervisor → Supervisor
unfolding clear touch
database_available operation now s =
    touch now (record s { database_failures = clear operation s.database_failures })
