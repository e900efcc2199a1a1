-- ===== src/Operations/Steps.antt =====
-- One transaction by the functions of jobs.py, and that it keeps the queue sound.
use pulse_crm.Prelude.Table.Laws.{find?-test}
use pulse_crm.Prelude.Table.Members.{Distinct, update-Distinct}
use pulse_crm.Prelude.{
  ℕ, ◌+◌, ◌≡◌, refl, sym, ◌≢◌, ◌∙◌, Bool, true, Option, none, some, String, List, ◌∷◌, All, inl,
  inr, Option-cases, arith, ==_iff, ok,
}
use pulse_crm.Jobs.{
  Status, BackgroundJob, JobRequest, new_job, insert_or_existing, holder, enqueue_job, lease,
  claim_jobs,
}
use pulse_crm.Jobs.Acknowledge.{
  Delay, holds_lease, succeed, complete_job, fail_row, same_id, fail_job,
}
use pulse_crm.Jobs.Recovery.{expire, requeue, recover_expired_leases}
use pulse_crm.Jobs.Invariant.{
  IsValid, complete_job-IsValid, Failed, lost, recorded, fail_job-Failed, fail_job-IsValid,
  recover-IsValid,
}
use pulse_crm.Jobs.Claim.{claim_jobs-IsValid}
use pulse_crm.Jobs.Picked.{claim_jobs-Claimed}
use pulse_crm.Jobs.Enqueue.{enqueue_job-Enqueued, enqueue_job-IsValid}

-- One committed transaction of the program's own queue code. A new id is one that no row has.
pub data Step (jobs jobs' : List BackgroundJob) : Type 0 where
  enqueues :
      (id now : ℕ) (r : JobRequest) (job : BackgroundJob)
      → All (λ j. id ≢ j.id) jobs
      → enqueue_job id now r jobs ≡ ok (job, jobs')
      → Step jobs jobs'
  claims :
      (locked : ℕ → Bool) (owner : String) (limit seconds now : ℕ) (rows : List BackgroundJob)
      → claim_jobs locked owner limit seconds now jobs ≡ ok (rows, jobs')
      → Step jobs jobs'
  completes :
      (id : ℕ) (owner : Option String) → jobs' ≡ (complete_job id owner jobs).1 → Step jobs jobs'
  fails :
      (id : ℕ) (error : String) (owner : Option String) (retryable : Bool) (delay : Delay) (now : ℕ)
      (status : Option Status)
      → fail_job id error owner retryable delay now jobs ≡ ok (status, jobs')
      → Step jobs jobs'
  recovers : (now : ℕ) → jobs' ≡ (recover_expired_leases now jobs).1 → Step jobs jobs'

pub record IsSound (jobs : List BackgroundJob) : Type 0 where
  pub valid : All IsValid jobs
  pub distinct : Distinct (λ j. j.id) jobs

abbrev pub id_of : BackgroundJob → ℕ
id_of j = j.id

enqueue-Distinct :
    (id now : ℕ) (r : JobRequest) (job : BackgroundJob) (jobs jobs' : List BackgroundJob)
    → All (λ j. id ≢ j.id) jobs
    → enqueue_job id now r jobs ≡ ok (job, jobs')
    → Distinct id_of jobs
    → Distinct id_of jobs'
unfolding insert_or_existing
enqueue-Distinct id now r job jobs jobs' new e d =
    let q = enqueue_job-Enqueued id now r jobs jobs' job e in
    elim (Option-cases (holder r.dedupe_key jobs)) [
      | inl free ↦
          let same : jobs' ≡ new_job id now r ∷ jobs = ground (arith, q.done) in rw same (new, d)
      | inr (old, found) ↦ let same : jobs' ≡ jobs = ground (arith, q.done) in rw same d
    ]

pub fail_row-id :
    (error : String) (retryable : Bool) (delay : Delay) (now : ℕ) (j j' : BackgroundJob)
    → fail_row error retryable delay now j ≡ ok j'
    → j'.id ≡ j.id
unfolding fail_row
fail_row-id error retryable delay now j j' e = ground arith

pub holds_lease-id :
    (id : ℕ) (owner : Option String) (j : BackgroundJob) → holds_lease id owner j ≡ true → j.id ≡ id
unfolding holds_lease
holds_lease-id id none j h = ground arith
holds_lease-id id (some o) j h = ground arith

fail-Distinct :
    (id : ℕ) (error : String) (owner : Option String) (retryable : Bool) (delay : Delay) (now : ℕ)
    (jobs : List BackgroundJob) (status : Option Status) (jobs' : List BackgroundJob)
    → Failed id error owner retryable delay now jobs status jobs'
    → Distinct id_of jobs
    → Distinct id_of jobs'
fail-Distinct id error owner retryable delay now jobs status jobs' (lost _ _ same) d = rw same d
fail-Distinct id error owner retryable delay now jobs status jobs' (recorded j j' found row _ same)
      d =
    let here = holds_lease-id id owner j (find?-test (holds_lease id owner) jobs found) in
    let kept = fail_row-id error retryable delay now j j' row in
    rw same (
      update-Distinct id_of (same_id id) (λ _. j') (λ x t. kept ∙ here ∙ sym ((==_iff x.id id).0 t))
        jobs d)

-- Every transaction of the queue keeps the rows valid and their ids distinct.
pub Step-IsSound :
    {jobs jobs' : List BackgroundJob} → Step jobs jobs' → IsSound jobs → IsSound jobs'
unfolding complete_job recover_expired_leases
Step-IsSound {jobs} {jobs'} (enqueues id now r job new e) s = record {
  valid = enqueue_job-IsValid id now r jobs jobs' job e s.valid;
  distinct = enqueue-Distinct id now r job jobs jobs' new e s.distinct;
}
Step-IsSound {jobs} {jobs'} (claims locked owner limit seconds now rows e) s = record {
  valid = claim_jobs-IsValid locked owner limit seconds now jobs rows jobs' e s.distinct s.valid;
  distinct = rw (claim_jobs-Claimed locked owner limit seconds now jobs rows jobs' e).table_is (
      update-Distinct id_of _ (lease owner (now + seconds)) (λ x t. unfold lease in refl) jobs
        s.distinct);
}
Step-IsSound {jobs} (completes id owner e) s = record {
  valid = rw e (complete_job-IsValid id owner jobs s.valid);
  distinct = rw e (update-Distinct id_of _ succeed (λ x t. unfold succeed in refl) jobs s.distinct);
}
Step-IsSound {jobs} {jobs'} (fails id error owner retryable delay now status e) s = record {
  valid = fail_job-IsValid id error owner retryable delay now jobs jobs' status e s.valid;
  distinct =
      fail-Distinct id error owner retryable delay now jobs status jobs'
        (fail_job-Failed id error owner retryable delay now jobs jobs' status e) s.distinct;
}
Step-IsSound {jobs} (recovers now e) s = record {
  valid = rw e (recover-IsValid now jobs s.valid);
  distinct = rw e (
      update-Distinct id_of _ (requeue now) (λ x t. unfold requeue in refl) _
        (update-Distinct id_of _ expire (λ x t. unfold expire in refl) jobs s.distinct));
}
