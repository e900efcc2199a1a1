-- ===== src/Jobs/Tests.antt =====
-- The queue's theorems at small tables.
use mathlib.Core.List.{Memᴰ}
use pulse_crm.Prelude.{
  ℕ, ◌≤◌, ◌≡◌, refl, ◌⊎◌, Bool, true, false, none, some, [], ◌∷◌, map, All, arith, length, count,
  ok, find?, eq_iff, update, is_blank, select, any, strip,
}
use pulse_crm.Jobs.{
  queued, running, failed, BackgroundJob, ClaimedJob, JobRequest, new_job, enqueue_job, before,
  lease, is_among, claim_jobs, insert_ordered, order, pick, from_model,
}
use pulse_crm.Jobs.Acknowledge.{back_off, complete_job, fail_job}
use pulse_crm.Jobs.Recovery.{total, is_expired, recover_expired_leases, requeue}
use pulse_crm.Jobs.Claim.{claim_jobs-IsClaimed, claim_jobs-disjoint, claim_jobs-fair}
use pulse_crm.Jobs.Picked.{IsClaimed}
use pulse_crm.Jobs.Enqueue.{UniqueKeys, enqueue_job-UniqueKeys}
use pulse_crm.Jobs.Fencing.{acknowledge_lost}
use pulse_crm.Jobs.Expired.{recovered, recover-eq-map}
use pulse_crm.Jobs.Supervisor.{
  Supervisor, no_failures, new_supervisor, active_job_count, database_available,
}
use pulse_crm.Jobs.Supervisor.Rounds.{World, dispatch_round, started, claim_round, from_models}
use pulse_crm.Jobs.Supervisor.Capacity.{
  IsReady, new_supervisor-IsReady, dispatch_round-bounded, dispatch_round-total,
}

abbrev pub send : JobRequest
send = record {
  job_type = "message.send";
  payload = [];
  workspace_id = some 1;
  run_at = none;
  max_attempts = 2;
  dedupe_key = some "message:5:send";
}

abbrev pub first : BackgroundJob
first = new_job 7 100 send

abbrev pub second : BackgroundJob
second = record first { id = 8; run_at = 120; dedupe_key = none }

abbrev pub leased : BackgroundJob
leased = record first {
  status = running;
  attempts = 1;
  lease_owner = some "w1";
  lease_until = some 245;
}

abbrev pub unlocked : ℕ → Bool
unlocked id = false

pub enqueue_first : enqueue_job 7 100 send [] ≡ ok (first, first ∷ [])
unfolding enqueue_job find? is_blank strip
enqueue_first = refl

pub claim_first :
    claim_jobs unlocked "w1" 1 45 200 (first ∷ second ∷ []) ≡ ok (leased ∷ [], leased ∷ second ∷ [])
unfolding claim_jobs is_blank pick update order is_among select any insert_ordered before lease
claim_first = refl

claim_second :
    claim_jobs unlocked "w2" 5 45 201 (leased ∷ second ∷ [])
    ≡ ok (lease "w2" 246 second ∷ [], leased ∷ lease "w2" 246 second ∷ [])
unfolding claim_jobs is_blank pick update order is_among lease select any insert_ordered
claim_second = refl

claim_jobs-IsClaimed_example :
    All (IsClaimed unlocked "w1" 245 200 (first ∷ second ∷ [])) (leased ∷ [])
    × (length {A = BackgroundJob} (leased ∷ []) ≤ 1)
claim_jobs-IsClaimed_example =
    claim_jobs-IsClaimed unlocked "w1" 1 45 200 (first ∷ second ∷ []) (leased ∷ [])
      (leased ∷ second ∷ []) claim_first

claim_jobs-disjoint_example :
    All (λ j. is_among (leased ∷ []) j ≡ false) (lease "w2" 246 second ∷ [])
claim_jobs-disjoint_example =
    claim_jobs-disjoint unlocked "w1" 1 45 200 (first ∷ second ∷ []) (leased ∷ [])
      (leased ∷ second ∷ []) claim_first unlocked "w2" 5 45 201 _ _ claim_second

claim_jobs-fair_example :
    Memᴰ (lease "w1" 245 second) (leased ∷ [])
    ⊎ ((length {A = BackgroundJob} (leased ∷ []) ≡ 1)
        × All (λ j. before j second ≡ true) (leased ∷ []))
claim_jobs-fair_example =
    claim_jobs-fair unlocked "w1" 1 45 200 (first ∷ second ∷ []) (leased ∷ [])
      (leased ∷ second ∷ []) claim_first second (Memᴰ.tail (Memᴰ.head refl)) (ground arith)

enqueue_job-UniqueKeys_example : UniqueKeys (first ∷ [])
enqueue_job-UniqueKeys_example =
    enqueue_job-UniqueKeys 7 100 send [] (first ∷ []) first enqueue_first
      (λ key. unfold count in omega arith)

acknowledge_lost_example :
    (complete_job 7 (some "w2") (leased ∷ []) ≡ (false, leased ∷ []))
    × (fail_job 7 "late" (some "w2") true (back_off 2 300) 210 (leased ∷ [])
        ≡ ok (none, leased ∷ []))
acknowledge_lost_example =
    acknowledge_lost 7 "w2" "late" true (back_off 2 300) 210 (leased ∷ [])
      ((λ a b c. ground (arith, eq_iff "w1" "w2")), tt)

recover-eq-map_example :
    ((recover_expired_leases 300 (leased ∷ second ∷ [])).1
      ≡ map (recovered 300) (leased ∷ second ∷ []))
    × (total (recover_expired_leases 300 (leased ∷ second ∷ [])).0
        ≡ count (is_expired 300) (leased ∷ second ∷ []))
recover-eq-map_example = recover-eq-map 300 (leased ∷ second ∷ [])

recovered_first :
    (recover_expired_leases 300 (leased ∷ [])).1
    ≡ record leased {
      status = queued;
      run_at = 300;
      lease_owner = none;
      lease_until = none;
      last_error = some "job lease expired before acknowledgement";
    }
      ∷ []
unfolding recover_expired_leases update requeue
recovered_first = refl

abbrev supervisor : Supervisor
supervisor = record {
  handlers = "message.send" ∷ [];
  concurrency = 4;
  batch_size = 2;
  poll_interval_seconds = 1;
  heartbeat_interval_seconds = 2;
  recovery_interval_seconds = 15;
  lease_seconds = 45;
  job_timeout_seconds = 30;
  worker_id = "w1";
  stopping = false;
  running = false;
  active_tasks = [];
  last_heartbeat = none;
  database_failures = no_failures;
}

supervisor-IsReady : IsReady supervisor
unfolding new_supervisor is_blank
supervisor-IsReady =
    new_supervisor-IsReady ("message.send" ∷ []) 4 (some 2) 1 2 15 45 30 (some "w1") "pulse-1"
      supervisor refl

abbrev world : World
world = record { supervisor = supervisor; jobs = first ∷ second ∷ [] }

dispatch_round-total_example : (w' : World) × (dispatch_round unlocked none 200 world ≡ ok w')
unfolding active_job_count is_blank
dispatch_round-total_example =
    dispatch_round-total unlocked 200 world
      (record { ready = supervisor-IsReady; named = refl; bounded = omega arith })

abbrev world_after : World
world_after = record {
  supervisor = record supervisor { active_tasks = 7 ∷ 8 ∷ []; last_heartbeat = some 200 };
  jobs =
      leased
      ∷ record second {
        status = running;
        attempts = 1;
        lease_owner = some "w1";
        lease_until = some 245;
      }
      ∷ [];
}

dispatch_round-bounded_example : active_job_count world_after.supervisor ≤ 4
unfolding dispatch_round claim_jobs active_job_count claim_round is_blank from_models pick order
    select insert_ordered before from_model lease started update database_available is_among any
dispatch_round-bounded_example =
    dispatch_round-bounded unlocked none 200 world world_after
      (unfold active_job_count in omega arith) refl

abbrev strange : ClaimedJob
strange = record {
  id = 7;
  job_type = "message.send";
  payload = [];
  attempts = 1;
  max_attempts = 2;
  lease_owner = "w1";
  workspace_id = some 1;
}

abbrev given_up : BackgroundJob
given_up = record first {
  status = failed;
  attempts = 1;
  last_error = some "no handler registered for job type message.send";
}
