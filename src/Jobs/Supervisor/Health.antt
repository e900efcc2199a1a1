-- ===== src/Jobs/Supervisor/Health.antt =====
-- When readiness may trust the supervisor, and the jobs that no handler is registered for.
use pulse_crm.Prelude.Table.Laws.{update-All_of_cases}
use pulse_crm.Prelude.{
  ℕ, ◌-◌, ◌≤◌, ◌≡◌, refl, ◌≢◌, true, false, Option, some, String, List, All, arith, any, find?,
  str_eq, ==_refl, ok, >>=-eq-ok,
}
use pulse_crm.Jobs.{Status, BackgroundJob, ClaimedJob, failed}
use pulse_crm.Jobs.Acknowledge.{back_off, holds_lease, same_id, fail_row, fail_job}
use pulse_crm.Jobs.Invariant.{Failed, lost, recorded, fail_job-Failed}
use pulse_crm.Jobs.Supervisor.{
  Supervisor, Operation, heartbeat, recovery, dispatch, acknowledgement, database_available,
  is_healthy,
}
use pulse_crm.Jobs.Supervisor.Rounds.{Outcome, no_handler, execute_and_acknowledge}

-- While an acknowledgement is known to have failed, neither a heartbeat nor a claim that succeeds makes
-- the supervisor healthy; a recovery round that succeeds does, if it runs, no other operation has
-- failed, and its heartbeat is young enough.
pub acknowledgement_needs_recovery :
    (s : Supervisor) (o : Operation) (now later age : ℕ)
    → (s.database_failures.acknowledgement ≡ true
        → o ≢ recovery
        → o ≢ acknowledgement
        → is_healthy (database_available o now s) later (some age) ≡ false)
      × (s.running ≡ true
          → s.database_failures.heartbeat ≡ false
          → s.database_failures.dispatch ≡ false
          → later - now ≤ age
          → is_healthy (database_available recovery now s) later (some age) ≡ true)
unfolding is_healthy database_available
acknowledgement_needs_recovery s heartbeat now later age =
    (λ a _ _. ground arith, λ a b c d. ground arith)
acknowledgement_needs_recovery s recovery now later age =
    (λ a h _. absurd (h refl), λ a b c d. ground arith)
acknowledgement_needs_recovery s dispatch now later age =
    (λ a _ _. ground arith, λ a b c d. ground arith)
acknowledgement_needs_recovery s acknowledgement now later age =
    (λ a _ h. absurd (h refl), λ a b c d. ground arith)

fail_row_terminal :
    (error : String) (now : ℕ) (j j' : BackgroundJob)
    → fail_row error false (back_off 2 300) now j ≡ ok j'
    → j'.status ≡ failed
unfolding fail_row
fail_row_terminal error now j j' e = ground arith

All-failed :
    (error owner : String) (now : ℕ) (jobs : List BackgroundJob) (status : Option Status)
    (table : List BackgroundJob) (id : ℕ) (j : BackgroundJob)
    → find? (holds_lease id (some owner)) jobs ≡ some j
    → Failed id error (some owner) false (back_off 2 300) now jobs status table
    → All (λ i. i.id ≡ id → i.status ≡ failed) table
All-failed error owner now jobs status table id j held (lost missing _ _) = cc
All-failed error owner now jobs status table id j held (recorded k k' found row _ same) = rw same (
    update-All_of_cases (λ i. i.id ≡ id → i.status ≡ failed) (same_id id) (λ _. k')
      (λ i hit _. fail_row_terminal error now k k' row) (λ i miss e. cc (rw (e, ==_refl) at miss))
      jobs)

-- A job whose type has no handler fails for good, however many attempts it has left and without the
-- handler's outcome being asked for, if its lease is still the caller's.
pub execute_unregistered :
    (handlers : List String) (job : ClaimedJob) (outcome : Outcome) (now : ℕ)
    (jobs jobs' : List BackgroundJob) (j : BackgroundJob)
    → any (λ t. str_eq t job.job_type) handlers ≡ false
    → find? (holds_lease job.id (some job.lease_owner)) jobs ≡ some j
    → execute_and_acknowledge handlers job outcome now jobs ≡ ok jobs'
    → All (λ i. i.id ≡ job.id → i.status ≡ failed) jobs'
unfolding execute_and_acknowledge
execute_unregistered handlers job outcome now jobs jobs' j missing held e =
    let failing = rw (missing, execute_and_acknowledge) at e in
    let ((status, table), e1, e2) =
      >>=-eq-ok
        (fail_job job.id (no_handler job.job_type) (some job.lease_owner) false (back_off 2 300) now
          jobs)
        _ failing in
    let same : jobs' ≡ table = ground arith in
    rw same (
      All-failed (no_handler job.job_type) job.lease_owner now jobs status table job.id j held (
        fail_job-Failed job.id (no_handler job.job_type) (some job.lease_owner) false
          (back_off 2 300) now jobs table status e1))
