-- ===== src/Jobs/Fencing.antt =====
-- Who may acknowledge a job, and what recovery does to the leases that ran out.
use pulse_crm.Prelude.Table.Laws.{
  update-All_of_cases, find?-eq-none_of_All, count-eq-zero_of_All, update_id,
}
use pulse_crm.Prelude.{
  ℕ, ◌≡◌, ◌≢◌, Bool, false, none, some, String, List, All, All-map, arith, is_text→eq, is_text_refl,
  ok,
}
use pulse_crm.Jobs.{running, BackgroundJob}
use pulse_crm.Jobs.Acknowledge.{Delay, holds_lease, succeed, complete_job, fail_job}

-- The caller's lease on `id` is gone: no running row of that id names it as the owner.
abbrev pub HasLost : ℕ → String → List BackgroundJob → Type 0
HasLost id owner jobs = All (λ j. j.id ≡ id → j.status ≡ running → j.lease_owner ≢ some owner) jobs

lost_test :
    (id : ℕ) (owner : String) (j : BackgroundJob)
    → (j.id ≡ id → j.status ≡ running → j.lease_owner ≢ some owner)
    → holds_lease id (some owner) j ≡ false
unfolding holds_lease
lost_test id owner j h = ground (arith, is_text→eq j.lease_owner owner)

-- A worker whose lease is gone, since no running row of that id names it as the owner, changes nothing, whether it reports success or failure, and is told so.
pub acknowledge_lost :
    (id : ℕ) (owner error : String) (retryable : Bool) (delay : Delay) (now : ℕ)
    (jobs : List BackgroundJob)
    → HasLost id owner jobs
    → (complete_job id (some owner) jobs ≡ (false, jobs))
      × (fail_job id error (some owner) retryable delay now jobs ≡ ok (none, jobs))
unfolding complete_job fail_job
acknowledge_lost id owner error retryable delay now jobs lost =
    let tests = All-map (lost_test id owner) jobs lost in
    (
      rw (
        count-eq-zero_of_All (holds_lease id (some owner)) jobs tests,
        update_id (holds_lease id (some owner)) succeed jobs tests,
      ),
      rw (find?-eq-none_of_All (holds_lease id (some owner)) jobs tests, fail_job),
    )

succeed-not-running :
    (id : ℕ) (j : BackgroundJob) → (succeed j).id ≡ id → (succeed j).status ≢ running
unfolding succeed
succeed-not-running id j e = λ h. cc

-- After a success is recorded, every later acknowledgement of that lease is lost.
pub complete_job-HasLost :
    (id : ℕ) (owner : String) (jobs : List BackgroundJob)
    → HasLost id owner (complete_job id (some owner) jobs).1
unfolding complete_job
complete_job-HasLost id owner jobs =
    update-All_of_cases (λ j. j.id ≡ id → j.status ≡ running → j.lease_owner ≢ some owner)
      (holds_lease id (some owner)) succeed
      (λ j hit same runs. absurd (succeed-not-running id j same runs))
      (λ j miss same runs owned. unfold holds_lease in ground (arith, is_text_refl owner)) jobs
