-- ===== src/Operations/Reach.antt =====
-- The queue over any sequence of transactions, by workers, the recovery loop and the other code.
use pulse_crm.Prelude.Table.Laws.{update-All, delete-All}
use pulse_crm.Prelude.Table.Members.{Distinct, update-Distinct}
use pulse_crm.Prelude.{
  ℕ, ◌<◌, ◌≡◌, refl, sym, ap, ◌≢◌, ◌⊎◌, Bool-cases, not, ◌&&◌, is_eq, is_none, delete, http,
  runtime_error, require, >>=-eq-ok, raise_if-eq-ok, ◌∙◌, Bool, some, String, List, [], ◌∷◌, All,
  inl, inr, Option-cases, arith, find?, update, ◌==◌, ok,
}
use pulse_crm.Jobs.{BackgroundJob, new_job, holder, has_key}
use pulse_crm.Jobs.Invariant.{IsValid}
use pulse_crm.Operations.{
  reset, own_job, retry_background_job, Delivery, Outgoing, delivery_failed, restart_keyed,
  retry_notification_delivery,
}
use pulse_crm.Operations.Steps.{Step, IsSound, id_of, Step-IsSound}
use pulse_crm.Operations.Queue.{
  retry_message_job, cancelled, cancel_jobs, clean_jobs, import_request, add_import_job,
}

-- What other code commits besides: the retries of a job, of a delivery and of a message, the
-- cancellation of queued jobs, the cleanup of finished ones, and the jobs of an import.
pub data Change (jobs jobs' : List BackgroundJob) : Type 0 where
  works : Step jobs jobs' → Change jobs jobs'
  retries :
      (workspace_id job_id now : ℕ) (job : BackgroundJob)
      → retry_background_job workspace_id job_id now jobs ≡ ok (job, jobs')
      → Change jobs jobs'
  redelivers :
      (send_key : ℕ → String) (workspace_id delivery_id now : ℕ) (out out' : Outgoing)
      (d : Delivery)
      → out.jobs ≡ jobs
      → retry_notification_delivery send_key workspace_id delivery_id now out ≡ ok (d, out')
      → out'.jobs ≡ jobs'
      → Change jobs jobs'
  resends :
      (key : String) (workspace_id now : ℕ)
      → jobs' ≡ retry_message_job key workspace_id now jobs
      → Change jobs jobs'
  cancels :
      (workspace_id : ℕ) (has_queued_key : BackgroundJob → Bool)
      → jobs' ≡ cancel_jobs workspace_id has_queued_key jobs
      → Change jobs jobs'
  cleans : (chosen : BackgroundJob → Bool) → jobs' ≡ clean_jobs chosen jobs → Change jobs jobs'
  imports :
      (id now workspace_id : ℕ) (job_type import_job_id key : String)
      → All (λ j. id ≢ j.id) jobs
      → add_import_job id now workspace_id job_type import_job_id key jobs ≡ ok jobs'
      → Change jobs jobs'

pub data Reach (jobs : List BackgroundJob) : List BackgroundJob → Type 0 where
  here : Reach jobs jobs
  next : {js ks : List BackgroundJob} → Reach jobs js → Change js ks → Reach jobs ks

retry-table :
    (workspace_id job_id now : ℕ) (job : BackgroundJob) (jobs jobs' : List BackgroundJob)
    → retry_background_job workspace_id job_id now jobs ≡ ok (job, jobs')
    → (j : BackgroundJob) × (jobs' ≡ update (λ i. i.id == j.id) (reset now) jobs)
unfolding retry_background_job
retry-table workspace_id job_id now job jobs jobs' e =
    elim (Option-cases (find? (own_job workspace_id job_id) jobs)) [
      | inl missing ↦ cc (rw (missing, retry_background_job) at e)
      | inr (j, found) ↦ (j, let e' = rw (found, retry_background_job) at e in ground arith)
    ]

reset-IsValid : (now : ℕ) (j : BackgroundJob) → 0 < j.max_attempts → IsValid (reset now j)
unfolding reset
reset-IsValid now j h = ground arith

-- A row that starts again is valid, whichever it was.
reset-IsSound :
    (now id : ℕ) (jobs : List BackgroundJob)
    → IsSound jobs
    → IsSound (update (λ i. i.id == id) (reset now) jobs)
reset-IsSound now id jobs s = record {
  valid =
      update-All IsValid (λ i. i.id == id) (reset now) (λ i t v. reset-IsValid now i v.positive)
        jobs s.valid;
  distinct =
      update-Distinct id_of (λ i. i.id == id) (reset now) (λ x t. unfold reset in refl) jobs
        s.distinct;
}

retry-IsSound :
    (workspace_id job_id now : ℕ) (job : BackgroundJob) (jobs jobs' : List BackgroundJob)
    → retry_background_job workspace_id job_id now jobs ≡ ok (job, jobs')
    → IsSound jobs
    → IsSound jobs'
retry-IsSound workspace_id job_id now job jobs jobs' e s =
    let (j, same) = retry-table workspace_id job_id now job jobs jobs' e in
    rw same (reset-IsSound now j.id jobs s)

restart_keyed-cases :
    (key : String) (workspace_id now : ℕ) (jobs : List BackgroundJob)
    → (restart_keyed key workspace_id now jobs ≡ jobs)
      ⊎ ((j : BackgroundJob) × (restart_keyed key workspace_id now jobs
            ≡ update (λ i. i.id == j.id) (reset now) jobs))
unfolding restart_keyed
restart_keyed-cases key workspace_id now jobs =
    elim (Option-cases (find? (λ j. is_eq j.workspace_id workspace_id && has_key key j) jobs)) [
      | inl missing ↦ inl (rw (restart_keyed, missing) refl)
      | inr (j, found) ↦ inr (j, rw (restart_keyed, found) refl)
    ]

restart-IsSound :
    (key : String) (workspace_id now : ℕ) (jobs : List BackgroundJob)
    → IsSound jobs
    → IsSound (restart_keyed key workspace_id now jobs)
restart-IsSound key workspace_id now jobs s = elim (restart_keyed-cases key workspace_id now jobs) [
  | inl same ↦ rw same s
  | inr (j, same) ↦ rw same (reset-IsSound now j.id jobs s)
]

redelivered :
    (send_key : ℕ → String) (workspace_id delivery_id now : ℕ) (out out' : Outgoing) (d : Delivery)
    → retry_notification_delivery send_key workspace_id delivery_id now out ≡ ok (d, out')
    → (key : String) × (out'.jobs ≡ restart_keyed key workspace_id now out.jobs)
unfolding retry_notification_delivery
redelivered send_key workspace_id delivery_id now out out' d e =
    let mine : (Delivery → Bool) = λ x. x.id == delivery_id && x.workspace_id == workspace_id in
    let (delivery, found, e1) =
      >>=-eq-ok (require (find? mine out.deliveries) (http 404 "delivery not found")) _ e in
    let (was, e2) =
      raise_if-eq-ok (not (delivery_failed delivery.status)) (http 409 "delivery is not failed") _
        e1 in
    (send_key delivery.id, ground (arith, e2))

cancel-IsSound :
    (workspace_id : ℕ) (has_queued_key : BackgroundJob → Bool) (jobs : List BackgroundJob)
    → IsSound jobs
    → IsSound (cancel_jobs workspace_id has_queued_key jobs)
unfolding cancel_jobs cancelled
cancel-IsSound workspace_id has_queued_key jobs s = record {
  valid = update-All IsValid _ cancelled (λ j t v. ground (arith, v)) jobs s.valid;
  distinct = update-Distinct id_of _ cancelled (λ x t. refl) jobs s.distinct;
}

delete-Distinct :
    (p : BackgroundJob → Bool) (jobs : List BackgroundJob)
    → Distinct id_of jobs
    → Distinct id_of (delete p jobs)
unfolding delete
delete-Distinct p [] d = tt
delete-Distinct p (j ∷ js) (new, d) = elim (Bool-cases (p j)) [
  | inl e ↦ rw e (delete-Distinct p js d)
  | inr e ↦ rw e (delete-All (λ i. id_of j ≢ id_of i) p js new, delete-Distinct p js d)
]

clean-IsSound :
    (chosen : BackgroundJob → Bool) (jobs : List BackgroundJob)
    → IsSound jobs
    → IsSound (clean_jobs chosen jobs)
unfolding clean_jobs
clean-IsSound chosen jobs s = record {
  valid = delete-All IsValid _ jobs s.valid;
  distinct = delete-Distinct _ jobs s.distinct;
}

import-IsSound :
    (id now workspace_id : ℕ) (job_type import_job_id key : String)
    (jobs jobs' : List BackgroundJob)
    → All (λ j. id ≢ j.id) jobs
    → add_import_job id now workspace_id job_type import_job_id key jobs ≡ ok jobs'
    → IsSound jobs
    → IsSound jobs'
unfolding add_import_job
import-IsSound id now workspace_id job_type import_job_id key jobs jobs' new e s =
    let (free, added) =
      raise_if-eq-ok (not (is_none (holder (some key) jobs))) (runtime_error "IntegrityError") _
        e in
    let job = new_job id now (import_request workspace_id job_type import_job_id key) in
    let same : jobs' ≡ job ∷ jobs = ground (arith, added) in
    let sound : IsSound (job ∷ jobs) = record {
      valid = ((ground arith), s.valid);
      distinct = (new, s.distinct);
    } in
    rw same sound

Change-IsSound :
    {jobs jobs' : List BackgroundJob} → Change jobs jobs' → IsSound jobs → IsSound jobs'
unfolding retry_message_job
Change-IsSound (works st) s = Step-IsSound st s
Change-IsSound {jobs} {jobs'} (retries workspace_id job_id now job e) s =
    retry-IsSound workspace_id job_id now job jobs jobs' e s
Change-IsSound {jobs} {jobs'}
      (redelivers send_key workspace_id delivery_id now out out' d old e new) s =
    let (key, made) = redelivered send_key workspace_id delivery_id now out out' d e in
    let restarted : jobs' ≡ restart_keyed key workspace_id now jobs =
      sym new ∙ made ∙ ap (restart_keyed key workspace_id now) old in
    rw restarted (restart-IsSound key workspace_id now jobs s)
Change-IsSound {jobs} (resends key workspace_id now e) s =
    rw e (restart-IsSound key workspace_id now jobs s)
Change-IsSound {jobs} (cancels workspace_id has_queued_key e) s =
    rw e (cancel-IsSound workspace_id has_queued_key jobs s)
Change-IsSound {jobs} (cleans chosen e) s = rw e (clean-IsSound chosen jobs s)
Change-IsSound {jobs} {jobs'} (imports id now workspace_id job_type import_job_id key new e) s =
    import-IsSound id now workspace_id job_type import_job_id key jobs jobs' new e s

-- From a table of valid rows with distinct ids, any sequence of these transactions leads to such a
-- table: the functions of jobs.py, the retries of jobs, deliveries and messages, the cancellation of
-- queued jobs, the cleanup of finished ones, and the insertion of an import's jobs. So attempts stay
-- within max_attempts, a job has a lease exactly while it runs, and an attempt left while it is queued.
pub Reach-IsSound :
    {jobs jobs' : List BackgroundJob} → IsSound jobs → Reach jobs jobs' → IsSound jobs'
Reach-IsSound s here = s
Reach-IsSound s (next r c) = Change-IsSound c (Reach-IsSound s r)
