-- ===== src/Operations/Queue.antt =====
-- What the other files write to the queue: backend/app/integrations/api.py (the retry of a message),
-- backend/app/api/crm.py (the jobs of cancelled tasks and reminders), the cleanup of
-- backend/app/integrations/runtime.py, and the jobs of an import, which admin_api.py and
-- amocrm_live.py insert. The keys of those jobs are texts that the callers make.
use pulse_crm.Prelude.{
  ℕ, String, Bool, true, false, not, ◌&&◌, none, some, List, [], ◌∷◌, is_eq, is_none, update,
  delete, Result, ok, runtime_error, raise_if, ◌>>◌,
}
use pulse_crm.Jobs.{
  Status, succeeded, failed, is_queued, default_max_attempts, BackgroundJob, JobRequest, new_job,
  holder,
}
use pulse_crm.Operations.{restart_keyed}

-- The job that sends a message, by the key of the message.
unfoldable pub retry_message_job : String → ℕ → ℕ → List BackgroundJob → List BackgroundJob
retry_message_job key workspace_id now jobs = restart_keyed key workspace_id now jobs

unfoldable pub cancelled : BackgroundJob → BackgroundJob
cancelled j = record j {
  status = succeeded;
  lease_owner = none;
  lease_until = none;
  last_error = none;
}

-- `has_queued_key` says whether the key of a row is one of `queued_job_keys`.
unfoldable pub cancel_jobs : ℕ → (BackgroundJob → Bool) → List BackgroundJob → List BackgroundJob
cancel_jobs workspace_id has_queued_key jobs =
    update (λ j. is_eq j.workspace_id workspace_id && is_queued j.status && has_queued_key j)
      cancelled jobs

abbrev pub is_finished : Status → Bool
is_finished succeeded = true
is_finished failed = true
is_finished _ = false

-- `chosen` says which of the rows that have not changed for 14 days the limit of the batch takes.
unfoldable pub clean_jobs : (BackgroundJob → Bool) → List BackgroundJob → List BackgroundJob
clean_jobs chosen jobs = delete (λ j. is_finished j.status && chosen j) jobs

abbrev pub import_request : ℕ → String → String → String → JobRequest
import_request workspace_id job_type import_job_id key = record {
  job_type = job_type;
  payload = ("import_job_id", import_job_id) ∷ [];
  workspace_id = some workspace_id;
  run_at = none;
  max_attempts = default_max_attempts;
  dedupe_key = some key;
}

-- The insertion of a job of an import, which fails if its key is taken.
unfoldable pub add_import_job :
    ℕ → ℕ → ℕ → String → String → String → List BackgroundJob → Result (List BackgroundJob)
add_import_job id now workspace_id job_type import_job_id key jobs = do
  raise_if (not (is_none (holder (some key) jobs))) (runtime_error "IntegrityError")
  ok (new_job id now (import_request workspace_id job_type import_job_id key) ∷ jobs)
