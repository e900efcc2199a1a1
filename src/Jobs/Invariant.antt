-- ===== src/Jobs/Invariant.antt =====
-- What holds of every row of the queue between two transactions.
use pulse_crm.Prelude.Table.Laws.{update-All, find?-All}
use pulse_crm.Prelude.{
  ℕ, ◌≤◌, ◌<◌, ◌≡◌, ◌≢◌, Bool, Option, none, some, String, List, All, inl, inr, Option-cases, arith,
  find?, update, >>=-eq-ok, ok,
}
use pulse_crm.Jobs.{Status, queued, running, BackgroundJob, JobRequest, new_job, lease}
use pulse_crm.Jobs.Acknowledge.{
  Delay, holds_lease, succeed, complete_job, fail_row, same_id, fail_job,
}
use pulse_crm.Jobs.Recovery.{expire, requeue, recover_expired_leases}

pub record IsValid (j : BackgroundJob) : Type 0 where
  pub positive : 0 < j.max_attempts
  pub within : j.attempts ≤ j.max_attempts
  -- A queued job can still be claimed.
  pub claimable : j.status ≡ queued → j.attempts < j.max_attempts
  pub counted : j.status ≡ running → 0 < j.attempts
  -- A job has a lease exactly while it runs.
  pub owned : j.status ≡ running → j.lease_owner ≢ none
  pub timed : j.status ≡ running → j.lease_until ≢ none
  pub unowned : j.status ≢ running → j.lease_owner ≡ none
  pub untimed : j.status ≢ running → j.lease_until ≡ none

pub succeed-IsValid : (j : BackgroundJob) → IsValid j → IsValid (succeed j)
unfolding succeed
succeed-IsValid j v = ground arith

pub fail_row-IsValid :
    (error : String) (retryable : Bool) (delay : Delay) (now : ℕ) (j j' : BackgroundJob)
    → IsValid j
    → fail_row error retryable delay now j ≡ ok j'
    → IsValid j'
unfolding fail_row
fail_row-IsValid error retryable delay now j j' v e = ground arith

pub complete_job-IsValid :
    (id : ℕ) (owner : Option String) (jobs : List BackgroundJob)
    → All IsValid jobs
    → All IsValid (complete_job id owner jobs).1
unfolding complete_job
complete_job-IsValid id owner jobs h =
    update-All IsValid (holds_lease id owner) succeed (λ j _ v. succeed-IsValid j v) jobs h

-- What `fail_job` did, when it raised nothing.
pub data Failed (id : ℕ) (error : String) (owner : Option String) (retryable : Bool) (delay : Delay)
    (now : ℕ) (jobs : List BackgroundJob) (status : Option Status) (jobs' : List BackgroundJob)
    : Type 0 where
  lost :
      find? (holds_lease id owner) jobs ≡ none
      → status ≡ none
      → jobs' ≡ jobs
      → Failed id error owner retryable delay now jobs status jobs'
  recorded :
      (j j' : BackgroundJob)
      → find? (holds_lease id owner) jobs ≡ some j
      → fail_row error retryable delay now j ≡ ok j'
      → status ≡ some j'.status
      → jobs' ≡ update (same_id id) (λ _. j') jobs
      → Failed id error owner retryable delay now jobs status jobs'

module _ (id : ℕ) (error : String) (owner : Option String) (retryable : Bool) (delay : Delay)
    (now : ℕ) (jobs jobs' : List BackgroundJob) (status : Option Status)
    (e : fail_job id error owner retryable delay now jobs ≡ ok (status, jobs')) where
  pub fail_job-Failed : Failed id error owner retryable delay now jobs status jobs'
  unfolding fail_job
  fail_job-Failed = elim (Option-cases (find? (holds_lease id owner) jobs)) [
    | inl missing ↦
        let e' = rw (missing, fail_job) at e in lost missing (ground arith) (ground arith)
    | inr (j, found) ↦
        let (j', row, rest) =
          >>=-eq-ok (fail_row error retryable delay now j) _ (rw (found, fail_job) at e) in
        recorded j j' found row (ground arith) (ground arith)
  ]

  pub fail_job-IsValid : All IsValid jobs → All IsValid jobs'
  fail_job-IsValid h = go fail_job-Failed
    where
      go : Failed id error owner retryable delay now jobs status jobs' → All IsValid jobs'
      go (lost _ _ same) = rw same h
      go (recorded j j' found row _ same) =
          let v =
            fail_row-IsValid error retryable delay now j j'
              (find?-All IsValid (holds_lease id owner) jobs h found) row in
          rw same (update-All IsValid (same_id id) (λ _. j') (λ _ _ _. v) jobs h)

pub recover-IsValid :
    (now : ℕ) (jobs : List BackgroundJob)
    → All IsValid jobs
    → All IsValid (recover_expired_leases now jobs).1
unfolding recover_expired_leases expire requeue
recover-IsValid now jobs h =
    update-All IsValid _ (requeue now) (λ j t v. ground arith) _
      (update-All IsValid _ expire (λ j t v. ground arith) jobs h)

pub new_job-IsValid :
    (id now : ℕ) (r : JobRequest) → 0 < r.max_attempts → IsValid (new_job id now r)
new_job-IsValid id now r h = ground arith

pub lease-IsValid :
    (owner : String) (until : ℕ) (j : BackgroundJob)
    → j.attempts < j.max_attempts
    → IsValid (lease owner until j)
unfolding lease
lease-IsValid owner until j h = ground arith
