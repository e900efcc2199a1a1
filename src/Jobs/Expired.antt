-- ===== src/Jobs/Expired.antt =====
-- Recovery against a description of it row by row.
use pulse_crm.Prelude.Table.Laws.{count-eq-zero_of_All}
use pulse_crm.Prelude.{
  ℕ, ◌+◌, ◌≡◌, refl, ap, ◌∙◌, Bool, false, not, ◌&&◌, none, some, or_else, leb, List, [], ◌∷◌, map,
  All, arith, if◌then◌else◌, count, update, ltb,
}
use pulse_crm.Jobs.{queued, failed, BackgroundJob}
use pulse_crm.Jobs.Recovery.{
  total, is_expired, is_exhausted, expire, requeue, recover_expired_leases,
}

-- What recovery means for one row, column by column.
pub recovered : ℕ → BackgroundJob → BackgroundJob
recovered now j =
    if not (is_expired now j)
    then j
    else if leb j.max_attempts j.attempts
    then record j {
      status = failed;
      lease_owner = none;
      lease_until = none;
      last_error = some (or_else j.last_error "job lease expired after maximum attempts");
    }
    else record j {
      status = queued;
      run_at = now;
      lease_owner = none;
      lease_until = none;
      last_error = some (or_else j.last_error "job lease expired before acknowledgement");
    }

failing : ℕ → BackgroundJob → Bool
failing now j = is_expired now j && is_exhausted j

waiting : ℕ → BackgroundJob → Bool
waiting now j = is_expired now j && ltb j.attempts j.max_attempts

-- The two statements, one after the other, on one row.
two_steps :
    (now : ℕ) (j : BackgroundJob)
    → (if waiting now (if failing now j then expire j else j)
        then requeue now (if failing now j then expire j else j)
        else (if failing now j then expire j else j))
      ≡ recovered now j
unfolding recovered failing waiting is_expired is_exhausted expire requeue
two_steps now j = ground arith

two_updates :
    (now : ℕ) (jobs : List BackgroundJob)
    → update (waiting now) (requeue now) (update (failing now) expire jobs)
      ≡ map (recovered now) jobs
unfolding update
two_updates now [] = refl
two_updates now (j ∷ js) = cc (two_steps now j, two_updates now js)

one_of_two :
    (now : ℕ) (j : BackgroundJob)
    → (if waiting now (if failing now j then expire j else j) then 1 else 0)
        + (if failing now j then 1 else 0)
      ≡ (if is_expired now j then 1 else 0)
unfolding failing waiting is_expired is_exhausted expire
one_of_two now j = ground arith

two_counts :
    (now : ℕ) (jobs : List BackgroundJob)
    → count (waiting now) (update (failing now) expire jobs) + count (failing now) jobs
      ≡ count (is_expired now) jobs
unfolding count update
two_counts now [] = refl
two_counts now (j ∷ js) = omega (arith, one_of_two now j, two_counts now js)

-- Recovery fails each expired row that has used up its attempts, queues each other expired row again
-- for now, takes the lease from both and gives them an error where they had none, leaves the rows that
-- have not expired as they are, and reports as many rows as had expired.
pub recover-eq-map :
    (now : ℕ) (jobs : List BackgroundJob)
    → ((recover_expired_leases now jobs).1 ≡ map (recovered now) jobs)
      × (total (recover_expired_leases now jobs).0 ≡ count (is_expired now) jobs)
unfolding recover_expired_leases total failing waiting
recover-eq-map now jobs = (two_updates now jobs, two_counts now jobs)

recovered-live : (now : ℕ) (j : BackgroundJob) → is_expired now (recovered now j) ≡ false
unfolding recovered is_expired is_exhausted expire requeue
recovered-live now j = ground arith

All-live :
    (now : ℕ) (jobs : List BackgroundJob)
    → All (λ j. is_expired now j ≡ false) (map (recovered now) jobs)
All-live now [] = tt
All-live now (j ∷ js) = (recovered-live now j, All-live now js)

map_live :
    (now : ℕ) (jobs : List BackgroundJob)
    → All (λ j. is_expired now j ≡ false) jobs
    → map (recovered now) jobs ≡ jobs
unfolding recovered
map_live now [] h = refl
map_live now (j ∷ js) (e, h) = rw e (ap (λ r. j ∷ r) (map_live now js h))

-- A second recovery at the same time finds nothing and changes nothing.
pub recover_twice :
    (now : ℕ) (jobs : List BackgroundJob)
    → let once = (recover_expired_leases now jobs).1 in
      (total (recover_expired_leases now once).0 ≡ 0) × ((recover_expired_leases now once).1 ≡ once)
recover_twice now jobs =
    let (same, _) = recover-eq-map now jobs in
    let live = All-live now jobs in
    let (again, counted) = recover-eq-map now (map (recovered now) jobs) in
    rw same (counted ∙ count-eq-zero_of_All (is_expired now) _ live, again ∙ map_live now _ live)
