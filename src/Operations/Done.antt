-- ===== src/Operations/Done.antt =====
-- What no function of jobs.py does: to touch a finished job.
use pulse_crm.Prelude.Table.Laws.{find?-test}
use pulse_crm.Prelude.Table.Members.{Distinct, Distinct-eq, mem-update, find?-mem}
use mathlib.Core.List.{Memᴰ}
use pulse_crm.Prelude.{
  ℕ, ◌+◌, ◌≡◌, sym, ◌⊎◌, ◌∙◌, Bool, false, ◌&&◌, Option, none, some, String, List, ◌∷◌, inl, inr,
  Bool-cases, Option-cases, arith, ==_iff, ltb, ok,
}
use pulse_crm.Jobs.{
  Status, succeeded, failed, BackgroundJob, JobRequest, new_job, insert_or_existing, holder,
  enqueue_job, lease, is_among, pick,
}
use pulse_crm.Jobs.Acknowledge.{Delay, holds_lease, succeed, complete_job, same_id}
use pulse_crm.Jobs.Recovery.{is_expired, is_exhausted, expire, requeue, recover_expired_leases}
use pulse_crm.Jobs.Invariant.{Failed, lost, recorded, fail_job-Failed}
use pulse_crm.Jobs.Picked.{among_IsFree, claim_jobs-Claimed}
use pulse_crm.Jobs.Enqueue.{enqueue_job-Enqueued}
use pulse_crm.Operations.Steps.{
  id_of, holds_lease-id, Step, enqueues, claims, completes, fails, recovers, IsSound,
}

abbrev pub IsDone : BackgroundJob → Type 0
IsDone j = (j.status ≡ succeeded) ⊎ (j.status ≡ failed)

not_held :
    (id : ℕ) (owner : Option String) (j : BackgroundJob) → IsDone j → holds_lease id owner j ≡ false
unfolding holds_lease
not_held id none j d = ground arith
not_held id (some o) j d = ground arith

not_expired : (now : ℕ) (j : BackgroundJob) (b : Bool) → IsDone j → (is_expired now j && b) ≡ false
unfolding is_expired
not_expired now j b d = ground arith

-- A row whose id a claim takes is the row that the claim took, so it was free.
not_picked :
    (locked : ℕ → Bool) (limit now : ℕ) (jobs : List BackgroundJob) (j : BackgroundJob)
    → Distinct id_of jobs
    → Memᴰ j jobs
    → IsDone j
    → is_among (pick locked limit now jobs) j ≡ false
not_picked locked limit now jobs j d m done =
    elim (Bool-cases (is_among (pick locked limit now jobs) j)) [
      | inl hit ↦
          let waiting = among_IsFree locked limit now jobs j d m hit in
          ground (arith, waiting.waiting)
      | inr miss ↦ miss
    ]

insert-mem :
    (id now : ℕ) (r : JobRequest) (jobs jobs' : List BackgroundJob) (job j : BackgroundJob)
    → enqueue_job id now r jobs ≡ ok (job, jobs')
    → Memᴰ j jobs
    → Memᴰ j jobs'
unfolding insert_or_existing
insert-mem id now r jobs jobs' job j e m =
    let q = enqueue_job-Enqueued id now r jobs jobs' job e in
    elim (Option-cases (holder r.dedupe_key jobs)) [
      | inl free ↦
          let same : jobs' ≡ new_job id now r ∷ jobs = ground (arith, q.done) in
          rw same (Memᴰ.tail m)
      | inr (old, found) ↦ let same : jobs' ≡ jobs = ground (arith, q.done) in rw same m
    ]

fail-mem :
    (id : ℕ) (error : String) (owner : Option String) (retryable : Bool) (delay : Delay) (now : ℕ)
    (jobs : List BackgroundJob) (status : Option Status) (jobs' : List BackgroundJob)
    (j : BackgroundJob)
    → Failed id error owner retryable delay now jobs status jobs'
    → Distinct id_of jobs
    → Memᴰ j jobs
    → IsDone j
    → Memᴰ j jobs'
fail-mem id error owner retryable delay now jobs status jobs' j (lost _ _ same) d m done = rw same m
fail-mem id error owner retryable delay now jobs status jobs' j (recorded i i' found row _ same) d m
      done =
    let held = find?-test (holds_lease id owner) jobs found in
    let other : same_id id j ≡ false = elim (Bool-cases (same_id id j)) [
      | inl hit ↦
          let one =
            Distinct-eq id_of jobs d (find?-mem (holds_lease id owner) jobs found) m
              (holds_lease-id id owner i held ∙ sym ((==_iff j.id id).0 hit)) in
          cc (rw one at held, not_held id owner j done)
      | inr miss ↦ miss
    ] in
    rw same (mem-update (same_id id) (λ _. i') jobs m other)

-- In a table of valid rows with distinct ids, no transaction by the functions of jobs.py (a job is
-- enqueued, claimed, completed, failed, or recovered) touches a finished job: its row stays in the
-- table as it is.
pub Step-keeps_done :
    {jobs jobs' : List BackgroundJob} {j : BackgroundJob}
    → IsSound jobs
    → Memᴰ j jobs
    → IsDone j
    → Step jobs jobs'
    → Memᴰ j jobs'
unfolding complete_job recover_expired_leases
Step-keeps_done {jobs} {jobs'} {j} s m d (enqueues id now r job new e) =
    insert-mem id now r jobs jobs' job j e m
Step-keeps_done {jobs} {jobs'} {j} s m d (claims locked owner limit seconds now rows e) =
    rw (claim_jobs-Claimed locked owner limit seconds now jobs rows jobs' e).table_is (
      mem-update _ (lease owner (now + seconds)) jobs m
        (not_picked locked limit now jobs j s.distinct m d))
Step-keeps_done {jobs} {j} s m d (completes id owner e) =
    rw e (mem-update _ succeed jobs m (not_held id owner j d))
Step-keeps_done {jobs} {jobs'} {j} s m d (fails id error owner retryable delay now status e) =
    fail-mem id error owner retryable delay now jobs status jobs' j
      (fail_job-Failed id error owner retryable delay now jobs jobs' status e) s.distinct m d
Step-keeps_done {jobs} {j} s m d (recovers now e) = rw e (
    mem-update _ (requeue now) _ (mem-update _ expire jobs m (not_expired now j (is_exhausted j) d))
      (not_expired now j (ltb j.attempts j.max_attempts) d))
