-- ===== src/Jobs/Acknowledge.antt =====
-- backend/app/services/jobs.py: the acknowledgement of a claimed job, its success or its failure.
use pulse_crm.Prelude.{
  ℕ, ◌+◌, String, Bool, ◌&&◌, Option, none, some, List, ltb, ◌==◌, if◌then◌else◌, is_text,
  text_take, find?, count, update, Result, ok, err, value_error, ◌>>=◌,
}
use pulse_crm.Jobs.{
  Status, queued, succeeded, failed, is_running, max_error_length, BackgroundJob, retry_delay,
}

-- The condition under which a worker may acknowledge: `none` waives the test of the owner.
unfoldable pub holds_lease : ℕ → Option String → BackgroundJob → Bool
holds_lease id none j = j.id == id && is_running j.status
holds_lease id (some owner) j = j.id == id && is_running j.status && is_text j.lease_owner owner

unfoldable pub succeed : BackgroundJob → BackgroundJob
succeed j = record j {
  status = succeeded;
  lease_owner = none;
  lease_until = none;
  last_error = none;
}

unfoldable pub complete_job : ℕ → Option String → List BackgroundJob → Bool × List BackgroundJob
complete_job id owner jobs =
    (ltb 0 (count (holds_lease id owner) jobs), update (holds_lease id owner) succeed jobs)

-- `delay < 0` is the sign of the caller's delay: the back-off is never negative.
pub data Delay : Type 0 where
  back_off : ℕ → ℕ → Delay
  seconds : ℕ → Delay
  negative : Delay

delay_of : Delay → ℕ → Result ℕ
delay_of (back_off base cap) attempts = ok (retry_delay attempts base cap)
delay_of (seconds n) attempts = ok n
delay_of negative attempts = err (value_error "retry_delay_seconds must not be negative")

-- The row after a failure, and the status that the caller is told.
unfoldable pub fail_row : String → Bool → Delay → ℕ → BackgroundJob → Result BackgroundJob
unfolding delay_of
fail_row error retryable delay now j =
    let cleared = record j {
      last_error = some (text_take max_error_length error);
      lease_owner = none;
      lease_until = none;
    } in
    if retryable && ltb j.attempts j.max_attempts
    then (do
      wait ← delay_of delay j.attempts
      ok (record cleared { status = queued; run_at = now + wait }))
    else ok (record cleared { status = failed })

abbrev pub same_id : ℕ → BackgroundJob → Bool
same_id id j = j.id == id

unfoldable pub fail_job :
    ℕ
    → String
    → Option String
    → Bool
    → Delay
    → ℕ
    → List BackgroundJob
    → Result (Option Status × List BackgroundJob)
fail_job id error owner retryable delay now jobs = elim (find? (holds_lease id owner) jobs) [
  | none ↦ ok (none, jobs)
  | some j ↦ (do
    j' ← fail_row error retryable delay now j
    ok (some j'.status, update (same_id id) (λ _. j') jobs))
]
