-- ===== src/Jobs/Supervisor/Capacity.antt =====
-- The dispatcher never runs more jobs than it may, and never fails by itself.
use pulse_crm.Prelude.{
  ℕ, ◌+◌, ◌-◌, ◌≤◌, ◌<◌, ◌≡◌, refl, ◌≢◌, Bool, false, Option, none, some, String, List, [], ◌∷◌,
  map, All, All-map, arith, min, leb, length, length-append, length-map, inl, inr, Bool-cases,
  Option-cases, ok, is_blank, >>=-eq-ok,
}
use pulse_crm.Jobs.{BackgroundJob, ClaimedJob, from_model, claim_jobs}
use pulse_crm.Jobs.Claim.{claim_jobs-IsLeased}
use pulse_crm.Jobs.Picked.{IsLeased, claim_jobs-total}
use pulse_crm.Jobs.Supervisor.{
  Supervisor, Operation, dispatch, DatabaseError, new_supervisor, database_unavailable,
  database_available, active_job_count,
}
use pulse_crm.Jobs.Supervisor.Rounds.{
  World, from_models, started, noted, claim_round, dispatch_round,
}

-- What the constructor guarantees.
pub record IsReady (s : Supervisor) : Type 0 where
  pub concurrent : 0 < s.concurrency
  pub batched : 0 < s.batch_size
  pub batch_fits : s.batch_size ≤ s.concurrency
  pub polls : 0 < s.poll_interval_seconds
  pub leases : 0 < s.lease_seconds
  -- A lease outlives the handler that it is for.
  pub outlives : s.job_timeout_seconds < s.lease_seconds

-- A supervisor that `__init__` accepts has the sizes and durations that its loops rely on; among
-- them a lease that outlives the handler's time limit.
pub new_supervisor-IsReady :
    (handlers : List String) (concurrency : ℕ) (batch : Option ℕ)
    (poll beat recover lease timeout : ℕ) (worker : Option String) (generated : String)
    (s : Supervisor)
    → new_supervisor handlers concurrency batch poll beat recover lease timeout worker generated
      ≡ ok s
    → IsReady s
unfolding new_supervisor
new_supervisor-IsReady handlers concurrency none poll beat recover lease timeout worker generated s
      e =
    ground arith
new_supervisor-IsReady handlers concurrency (some b) poll beat recover lease timeout worker
      generated s e =
    ground arith

from_models-length :
    (js : List BackgroundJob) (cs : List ClaimedJob)
    → from_models js ≡ ok cs
    → length cs ≡ length js
unfolding from_models
from_models-length [] cs e = ground arith
from_models-length (j ∷ js) cs e =
    let (c, _, e1) = >>=-eq-ok (from_model j) _ e in
    let (cs', e2, e3) = >>=-eq-ok (from_models js) _ e1 in
    let rest = from_models-length js cs' e2 in ground (arith, rest)

from_model-total :
    (j : BackgroundJob) → j.lease_owner ≢ none → (c : ClaimedJob) × (from_model j ≡ ok c)
unfolding from_model
from_model-total j h = elim (Option-cases j.lease_owner) [
  | inl missing ↦ absurd (h missing)
  | inr (o, found) ↦ (
    record {
      id = j.id;
      job_type = j.job_type;
      payload = j.payload;
      attempts = j.attempts;
      max_attempts = j.max_attempts;
      lease_owner = o;
      workspace_id = j.workspace_id;
    },
    rw (found, from_model),
  )
]

from_models-total :
    (js : List BackgroundJob)
    → All (λ j. j.lease_owner ≢ none) js
    → (cs : List ClaimedJob) × (from_models js ≡ ok cs)
unfolding from_models
from_models-total [] h = ([], refl)
from_models-total (j ∷ js) (hj, h) =
    let (c, e) = from_model-total j hj in
    let (cs, es) = from_models-total js h in (c ∷ cs, rw (e, es))

has_owner : {o : String} (j : BackgroundJob) → j.lease_owner ≡ some o → j.lease_owner ≢ none
has_owner j e h = cc

-- What a supervisor needs to go on claiming.
pub record IsAble (s : Supervisor) : Type 0 where
  pub ready : IsReady s
  pub named : is_blank s.worker_id ≡ false
  pub bounded : active_job_count s ≤ s.concurrency

started-counts :
    (claimed : List ClaimedJob) (now : ℕ) (s : Supervisor)
    → (active_job_count (started claimed now s) ≡ active_job_count s + length claimed)
      × ((started claimed now s).concurrency ≡ s.concurrency)
unfolding started database_available active_job_count
started-counts claimed now s = ground (
  arith,
  length-append s.active_tasks (map (λ (c : ClaimedJob). c.id) claimed),
  length-map claimed (λ (c : ClaimedJob). c.id),
)

claim_round-bounded :
    (locked : ℕ → Bool) (now : ℕ) (w w' : World)
    → active_job_count w.supervisor < w.supervisor.concurrency
    → claim_round locked now w ≡ ok w'
    → active_job_count w'.supervisor ≤ w'.supervisor.concurrency
unfolding claim_round
claim_round-bounded locked now w w' h e =
    let s = w.supervisor in
    let limit : ℕ = min (s.concurrency - active_job_count s) s.batch_size in
    let ((models, jobs'), e1, e2) =
      >>=-eq-ok (claim_jobs locked s.worker_id limit s.lease_seconds now w.jobs) _ e in
    let (claimed, e3, e4) = >>=-eq-ok (from_models models) _ e2 in
    let few =
      (claim_jobs-IsLeased locked s.worker_id limit s.lease_seconds now w.jobs models jobs' e1).1 in
    let same : w'.supervisor ≡ started claimed now s = ground arith in
    rw same (omega (arith, started-counts claimed now s, from_models-length models claimed e3))

unavailable-counts :
    (o : Operation) (error : DatabaseError) (s s' : Supervisor)
    → database_unavailable o error s ≡ ok s'
    → (active_job_count s' ≡ active_job_count s) × (s'.concurrency ≡ s.concurrency)
unfolding database_unavailable active_job_count
unavailable-counts o error s s' e = ground arith

-- A round of the dispatcher leaves no more tasks than `concurrency`, if it begins so.
pub dispatch_round-bounded :
    (locked : ℕ → Bool) (answer : Option DatabaseError) (now : ℕ) (w w' : World)
    → active_job_count w.supervisor ≤ w.supervisor.concurrency
    → dispatch_round locked answer now w ≡ ok w'
    → active_job_count w'.supervisor ≤ w'.supervisor.concurrency
unfolding dispatch_round noted active_job_count
dispatch_round-bounded locked answer now w w' h e = elim (Bool-cases w.supervisor.stopping) [
  | inl stopped ↦ let same : w ≡ w' = ground arith in rw (← same) h
  | inr going ↦ elim (Bool-cases (leb w.supervisor.concurrency (active_job_count w.supervisor))) [
    | inl full ↦ let same : w ≡ w' = ground arith in rw (← same) h
    | inr room ↦ claims answer (rw (going, room, dispatch_round) at e) (ground arith)
  ]
]
  where
    claims :
        (answer : Option DatabaseError)
        → (elim answer [ none ↦ claim_round locked now w | some error ↦ noted dispatch error w ])
          ≡ ok w'
        → active_job_count w.supervisor < w.supervisor.concurrency
        → active_job_count w'.supervisor ≤ w'.supervisor.concurrency
    claims none e' room = claim_round-bounded locked now w w' room e'
    claims (some error) e' room =
        let (s', e1, e2) = >>=-eq-ok (database_unavailable dispatch error w.supervisor) _ e' in
        let kept = unavailable-counts dispatch error w.supervisor s' e1 in
        let same : w'.supervisor ≡ s' = ground arith in rw same (omega arith)

claim_round-total :
    (locked : ℕ → Bool) (now : ℕ) (w : World)
    → IsAble w.supervisor
    → active_job_count w.supervisor < w.supervisor.concurrency
    → (w' : World) × (claim_round locked now w ≡ ok w')
unfolding claim_round
claim_round-total locked now w a room =
    let s = w.supervisor in
    let limit : ℕ = min (s.concurrency - active_job_count s) s.batch_size in
    let (models, jobs', e) =
      claim_jobs-total locked s.worker_id limit s.lease_seconds now w.jobs a.named
        (omega (arith, a.ready.batched)) a.ready.leases in
    let leased =
      (claim_jobs-IsLeased locked s.worker_id limit s.lease_seconds now w.jobs models jobs' e).0 in
    let (claimed, e2) = from_models-total models (
      All-map
        (λ j (h : IsLeased locked s.worker_id (now + s.lease_seconds) now j). has_owner j h.owned)
        models leased) in
    (record { supervisor = started claimed now s; jobs = jobs' }, rw (e, e2))

-- Where the database answers, a round of an able supervisor raises nothing: the claim is accepted, and
-- every row that it leases makes a job.
pub dispatch_round-total :
    (locked : ℕ → Bool) (now : ℕ) (w : World)
    → IsAble w.supervisor
    → (w' : World) × (dispatch_round locked none now w ≡ ok w')
unfolding dispatch_round
dispatch_round-total locked now w a = elim (Bool-cases w.supervisor.stopping) [
  | inl stopped ↦ (w, ground arith)
  | inr going ↦ elim (Bool-cases (leb w.supervisor.concurrency (active_job_count w.supervisor))) [
    | inl full ↦ (w, ground arith)
    | inr room ↦
        let (w', e) = claim_round-total locked now w a (ground arith) in (w', ground (arith, e))
  ]
]
