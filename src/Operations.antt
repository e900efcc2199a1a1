-- ===== src/Operations.antt =====
-- backend/app/integrations/operations_api.py: an administrator puts a failed job, or a failed
-- delivery with its job, back to work.
pub mod Done
pub mod Queue
pub mod Steps
pub mod Reach
mod Tests
use pulse_crm.Prelude.{
  ℕ, String, Bool, true, false, not, ◌&&◌, Option, none, some, List, map, ◌==◌, is_eq, is_text,
  find?, update, Result, ok, err, http, raise_if, require, ◌>>=◌, ◌>>◌, if◌then◌else◌,
}
use pulse_crm.Jobs.{Status, queued, BackgroundJob, has_key}

abbrev is_failed : Status → Bool
is_failed Status.failed = true
is_failed _ = false

unfoldable pub reset : ℕ → BackgroundJob → BackgroundJob
reset now j = record j {
  status = queued;
  attempts = 0;
  run_at = now;
  lease_owner = none;
  lease_until = none;
  last_error = none;
}

unfoldable pub own_job : ℕ → ℕ → BackgroundJob → Bool
own_job workspace_id job_id j = j.id == job_id && is_eq j.workspace_id workspace_id

unfoldable pub retry_background_job :
    ℕ → ℕ → ℕ → List BackgroundJob → Result (BackgroundJob × List BackgroundJob)
retry_background_job workspace_id job_id now jobs = do
  job ← require (find? (own_job workspace_id job_id) jobs) (http 404 "job not found")
  raise_if (not (is_failed job.status)) (http 409 "job is not failed")
  ok (reset now job, update (λ j. j.id == job.id) (reset now) jobs)

pub data DeliveryStatus : Type 0 where
  pending processing delivered failed : DeliveryStatus

abbrev pub delivery_failed : DeliveryStatus → Bool
delivery_failed DeliveryStatus.failed = true
delivery_failed _ = false

-- The columns of a delivery that the retry reads or writes.
pub record Delivery : Type 0 where
  pub id : ℕ
  pub workspace_id : ℕ
  pub status : DeliveryStatus
  pub attempts : ℕ
  pub scheduled_at : ℕ
  pub delivered_at : Option ℕ
  pub provider_message_id : Option String
  pub last_error : Option String

pub record Outgoing : Type 0 where
  pub deliveries : List Delivery
  pub jobs : List BackgroundJob

reset_delivery : ℕ → Delivery → Delivery
reset_delivery now d = record d {
  status = pending;
  attempts = 0;
  scheduled_at = now;
  delivered_at = none;
  provider_message_id = none;
  last_error = none;
}

-- The job of that key and workspace, if there is one, starts again.
unfoldable pub restart_keyed : String → ℕ → ℕ → List BackgroundJob → List BackgroundJob
restart_keyed key workspace_id now jobs =
    elim (find? (λ j. is_eq j.workspace_id workspace_id && has_key key j) jobs) [
      | none ↦ jobs
      | some job ↦ update (λ j. j.id == job.id) (reset now) jobs
    ]

-- `send_key` is the text `notification-delivery:<id>:send` of a delivery.
module _ (send_key : ℕ → String) where
  restart_job : ℕ → ℕ → Delivery → List BackgroundJob → List BackgroundJob
  restart_job workspace_id now d = restart_keyed (send_key d.id) workspace_id now

  unfoldable pub retry_notification_delivery : ℕ → ℕ → ℕ → Outgoing → Result (Delivery × Outgoing)
  unfolding reset_delivery restart_job
  retry_notification_delivery workspace_id delivery_id now out = do
    delivery ←
        require (find? (λ d. d.id == delivery_id && d.workspace_id == workspace_id) out.deliveries)
          (http 404 "delivery not found")
    raise_if (not (delivery_failed delivery.status)) (http 409 "delivery is not failed")
    ok (
      reset_delivery now delivery,
      record {
        deliveries = update (λ d. d.id == delivery.id) (reset_delivery now) out.deliveries;
        jobs = restart_job workspace_id now delivery out.jobs;
      },
    )
