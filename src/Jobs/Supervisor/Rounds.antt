-- ===== src/Jobs/Supervisor/Rounds.antt =====
-- backend/app/services/jobs.py: one round of each loop of the supervisor, and one job's task.
use Prim.Native.String.{◌++◌ as append}
use pulse_crm.Prelude.{
  ℕ, ◌-◌, min, ◌++◌, String, Bool, true, false, Option, none, some, List, [], ◌∷◌, map, leb, ◌==◌,
  if◌then◌else◌, str_eq, any, Result, ok, ◌>>=◌,
}
use pulse_crm.Jobs.{BackgroundJob, ClaimedJob, from_model, claim_jobs}
use pulse_crm.Jobs.Acknowledge.{back_off, complete_job, fail_job}
use pulse_crm.Jobs.Recovery.{recover_expired_leases}
use pulse_crm.Jobs.Supervisor.{
  Supervisor, Operation, heartbeat, recovery, dispatch, acknowledgement, DatabaseError,
  database_unavailable, database_available, active_job_count,
}

pub record World : Type 0 where
  pub supervisor : Supervisor
  pub jobs : List BackgroundJob

-- What an `except` clause of a loop does: the transaction is gone, and the error is noted.
unfoldable pub noted : Operation → DatabaseError → World → Result World
noted operation error w = do
  s ← database_unavailable operation error w.supervisor
  ok (record w { supervisor = s })

-- A round of a loop under `while not self._stop_event.is_set()`.
unless_stopped : World → Result World → Result World
unless_stopped w round = if w.supervisor.stopping then ok w else round

unfoldable pub heartbeat_round : Option DatabaseError → ℕ → World → Result World
unfolding unless_stopped
heartbeat_round none now w =
    unless_stopped w (ok (record w { supervisor = database_available heartbeat now w.supervisor }))
heartbeat_round (some error) now w = unless_stopped w (noted heartbeat error w)

unfoldable pub recovery_round : Option DatabaseError → ℕ → World → Result World
unfolding unless_stopped
recovery_round none now w = unless_stopped w (
    ok (record {
      supervisor = database_available recovery now w.supervisor;
      jobs = (recover_expired_leases now w.jobs).1;
    }))
recovery_round (some error) now w = unless_stopped w (noted recovery error w)

-- `[ClaimedJob.from_model(job) for job in models]`.
unfoldable pub from_models : List BackgroundJob → Result (List ClaimedJob)
from_models [] = ok []
from_models (j ∷ js) = do c ← from_model j; cs ← from_models js; ok (c ∷ cs)

unfoldable pub started : List ClaimedJob → ℕ → Supervisor → Supervisor
started claimed now s =
    let s' = database_available dispatch now s in
    record s' { active_tasks = s'.active_tasks ++ map (λ (c : ClaimedJob). c.id) claimed }

-- A claim that the database carries out, and a task for each of its jobs.
unfoldable pub claim_round : (ℕ → Bool) → ℕ → World → Result World
claim_round locked now w = do
  let s = w.supervisor
  let capacity = s.concurrency - active_job_count s
  (models, jobs') ←
      claim_jobs locked s.worker_id (min capacity s.batch_size) s.lease_seconds now w.jobs
  claimed ← from_models models
  ok (record { supervisor = started claimed now s; jobs = jobs' })

unfoldable pub dispatch_round : (ℕ → Bool) → Option DatabaseError → ℕ → World → Result World
unfolding unless_stopped
dispatch_round locked answer now w = unless_stopped w (
    if leb w.supervisor.concurrency (active_job_count w.supervisor)
    then ok w
    else elim answer [ none ↦ claim_round locked now w | some error ↦ noted dispatch error w ])

-- How a handler's coroutine ends.
pub data Outcome : Type 0 where
  returned cancelled : Outcome
  raised : String → Outcome

-- `_acknowledge_failure`, with the default back-off of `fail_job`.
acknowledge_failure :
    ClaimedJob → String → Bool → ℕ → List BackgroundJob → Result (List BackgroundJob)
acknowledge_failure job error retryable now jobs = do
  (status, jobs') ← fail_job job.id error (some job.lease_owner) retryable (back_off 2 300) now jobs
  ok jobs'

-- `{job.job_type!r}` of a type without quotes and backslashes.
abbrev pub no_handler : String → String
no_handler job_type =
    append "no handler registered for job type " (append "'" (append job_type "'"))

handled : ClaimedJob → Outcome → ℕ → List BackgroundJob → Result (List BackgroundJob)
unfolding acknowledge_failure
handled job returned now jobs = ok (complete_job job.id (some job.lease_owner) jobs).1
handled job (raised error) now jobs = acknowledge_failure job error true now jobs
handled job cancelled now jobs = ok jobs

-- The table after `_execute_and_acknowledge`, where the database answers.
unfoldable pub execute_and_acknowledge :
    List String → ClaimedJob → Outcome → ℕ → List BackgroundJob → Result (List BackgroundJob)
unfolding handled acknowledge_failure
execute_and_acknowledge handlers job outcome now jobs =
    if any (λ t. str_eq t job.job_type) handlers
    then handled job outcome now jobs
    else acknowledge_failure job (no_handler job.job_type) false now jobs

-- `_active_tasks.discard`, the task's done callback.
discard : ℕ → List ℕ → List ℕ
discard id [] = []
discard id (x ∷ xs) = let rest = x ∷ discard id xs in if x == id then xs else rest

finished : ℕ → World → World
finished id w = record w {
  supervisor = record w.supervisor { active_tasks = discard id w.supervisor.active_tasks };
}

-- `_execute`: the acknowledgement, or the note that the database did not take it (`answer`), and the
-- end of the task.
unfoldable pub execute : ClaimedJob → Outcome → Option DatabaseError → ℕ → World → Result World
unfolding finished discard
execute job outcome none now w = do
  jobs' ← execute_and_acknowledge w.supervisor.handlers job outcome now w.jobs
  ok (finished job.id (record w { jobs = jobs' }))
execute job outcome (some error) now w = do
  w' ← noted acknowledgement error w
  ok (finished job.id w')
