-- ===== src/Jobs/Enqueue.antt =====
-- The idempotency key of a job.
use pulse_crm.Prelude.Table.Laws.{find?-none-All, count-eq-zero_of_All}
use pulse_crm.Prelude.{
  ℕ, ◌≡◌, false, none, some, String, List, ◌∷◌, All, inl, inr, Option-cases, arith, find?, is_text,
  is_text→eq, Bool-cases, eq_iff, ok, is_blank, strip, count, ◌≤◌, ◌<◌,
}
use pulse_crm.Jobs.{
  BackgroundJob, JobRequest, new_job, has_key, insert_or_existing, holder, enqueue_job,
}
use pulse_crm.Jobs.Invariant.{IsValid, new_job-IsValid}

-- What a successful enqueue checked and did.
pub record Enqueued (id now : ℕ) (r : JobRequest) (jobs : List BackgroundJob) (job : BackgroundJob)
    (jobs' : List BackgroundJob) : Type 0 where
  pub typed : is_blank (strip r.job_type) ≡ false
  pub positive : 0 < r.max_attempts
  pub done : insert_or_existing (new_job id now r) jobs (holder r.dedupe_key jobs) ≡ (job, jobs')

-- The unique constraint on `dedupe_key`: at most one row holds a key.
abbrev pub UniqueKeys : List BackgroundJob → Type 0
UniqueKeys jobs = (key : String) → count (has_key key) jobs ≤ 1

new_key-le-one :
    (id now : ℕ) (r : JobRequest) (jobs : List BackgroundJob) (key : String)
    → holder r.dedupe_key jobs ≡ none
    → count (has_key key) jobs ≤ 1
    → count (has_key key) (new_job id now r ∷ jobs) ≤ 1
unfolding holder count
new_key-le-one id now r jobs key free u = elim (Bool-cases (is_text r.dedupe_key key)) [
  | inl hit ↦
      let same = is_text→eq r.dedupe_key key hit in
      let missing : find? (has_key key) jobs ≡ none = ground arith in
      rw hit (
        omega (
          arith,
          count-eq-zero_of_All (has_key key) jobs (find?-none-All (has_key key) jobs missing),
        ))
  | inr miss ↦ rw miss (omega arith)
]

module _ (id now : ℕ) (r : JobRequest) (jobs jobs' : List BackgroundJob) (job : BackgroundJob)
    (e : enqueue_job id now r jobs ≡ ok (job, jobs')) where
  pub enqueue_job-Enqueued : Enqueued id now r jobs job jobs'
  unfolding enqueue_job
  enqueue_job-Enqueued = ground arith

  pub enqueue_job-IsValid : All IsValid jobs → All IsValid jobs'
  unfolding insert_or_existing
  enqueue_job-IsValid h =
      let q = enqueue_job-Enqueued in
      elim (Option-cases (holder r.dedupe_key jobs)) [
        | inl new ↦
            let same : jobs' ≡ new_job id now r ∷ jobs = ground (arith, q.done) in
            rw same (new_job-IsValid id now r q.positive, h)
        | inr (old, found) ↦ let same : jobs' ≡ jobs = ground (arith, q.done) in rw same h
      ]

  held_after : (key : String) → r.dedupe_key ≡ some key → holder (some key) jobs' ≡ some job
  unfolding holder find? insert_or_existing
  held_after key k =
      let q = enqueue_job-Enqueued in
      elim (Option-cases (holder r.dedupe_key jobs)) [
        | inl new ↦ ground (arith, q.done, eq_iff key key)
        | inr (old, found) ↦ ground (arith, q.done)
      ]

  -- A second request with the same key, if its arguments are valid, returns the row of the first one,
  -- whatever else it asks for, and leaves the table as it is.
  pub enqueue_job_again :
      (key : String) (id₂ now₂ : ℕ) (r₂ : JobRequest)
      → r.dedupe_key ≡ some key
      → r₂.dedupe_key ≡ some key
      → is_blank (strip r₂.job_type) ≡ false
      → 0 < r₂.max_attempts
      → enqueue_job id₂ now₂ r₂ jobs' ≡ ok (job, jobs')
  unfolding enqueue_job
  enqueue_job_again key id₂ now₂ r₂ k k₂ typed positive =
      let held = held_after key k in ground (arith, held)

  -- After a job is enqueued, no two rows of the table have the same dedupe key, if that was so before.
  pub enqueue_job-UniqueKeys : UniqueKeys jobs → UniqueKeys jobs'
  enqueue_job-UniqueKeys u key =
      let q = enqueue_job-Enqueued in
      elim (Option-cases (holder r.dedupe_key jobs)) [
        | inl new ↦
            let same : jobs' ≡ new_job id now r ∷ jobs =
              unfold insert_or_existing in ground (arith, q.done) in
            rw same (new_key-le-one id now r jobs key new (u key))
        | inr (old, found) ↦
            let same : jobs' ≡ jobs = unfold insert_or_existing in ground (arith, q.done) in
            rw same (u key)
      ]
