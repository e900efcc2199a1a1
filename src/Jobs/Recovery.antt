-- ===== src/Jobs/Recovery.antt =====
-- backend/app/services/jobs.py: leases that ran out.
use pulse_crm.Prelude.{
  ℕ, ◌+◌, Bool, false, ◌&&◌, none, some, List, ltb, leb, or_else, count, update,
}
use pulse_crm.Jobs.{queued, failed, is_running, BackgroundJob}

-- `lease_until IS NOT NULL AND lease_until <= now` on a running row.
unfoldable pub is_expired : ℕ → BackgroundJob → Bool
is_expired now j = is_running j.status && elim j.lease_until [ none ↦ false | some t ↦ leb t now ]

unfoldable pub is_exhausted : BackgroundJob → Bool
is_exhausted j = leb j.max_attempts j.attempts

unfoldable pub expire : BackgroundJob → BackgroundJob
expire j = record j {
  status = failed;
  lease_owner = none;
  lease_until = none;
  last_error = some (or_else j.last_error "job lease expired after maximum attempts");
}

unfoldable pub requeue : ℕ → BackgroundJob → BackgroundJob
requeue now j = record j {
  status = queued;
  run_at = now;
  lease_owner = none;
  lease_until = none;
  last_error = some (or_else j.last_error "job lease expired before acknowledgement");
}

pub record RecoveryResult : Type 0 where
  pub requeued : ℕ
  pub failed : ℕ

unfoldable pub total : RecoveryResult → ℕ
total r = r.requeued + r.failed

unfoldable pub recover_expired_leases : ℕ → List BackgroundJob → RecoveryResult × List BackgroundJob
unfolding is_expired is_exhausted
recover_expired_leases now jobs =
    let failing = λ (j : BackgroundJob). is_expired now j && is_exhausted j in
    let after_failing = update failing expire jobs in
    let waiting = λ (j : BackgroundJob). is_expired now j && ltb j.attempts j.max_attempts in
    (
      record { requeued = count waiting after_failing; failed = count failing jobs },
      update waiting (requeue now) after_failing,
    )
