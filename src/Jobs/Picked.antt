-- ===== src/Jobs/Picked.antt =====
-- Which rows a claim takes, and how it leaves them.
use mathlib.Core.List.{Memᴰ}
use pulse_crm.Prelude.Table.Members.{
  All-mem, mem_of_take, mem_of_select, any-mem, Distinct, Distinct-eq,
}
use pulse_crm.Prelude.Table.Laws.{update-All_of_cases, select-All_test}
use pulse_crm.Prelude.{
  ℕ, ◌+◌, ◌≤◌, ◌<◌, ◌≡◌, refl, ◌==◌, ap, Bool, true, false, not, ◌&&◌, ◌||◌, some, String, List, [],
  ◌∷◌, map, All, All-map, All-take, inl, inr, Bool-cases, arith, any, select, update, length,
  length-take, ok, ==_iff, is_blank,
}
use pulse_crm.Jobs.{
  queued, running, BackgroundJob, order, is_runnable, pick, lease, is_among, claim_jobs,
}
use pulse_crm.Jobs.Order.{order-All, order-Sub}

-- A successful claim: its rows and the new table, from the arguments that it accepts.
pub record Claimed (locked : ℕ → Bool) (owner : String) (limit seconds now : ℕ)
    (jobs rows jobs' : List BackgroundJob) : Type 0 where
  pub named : is_blank owner ≡ false
  pub positive : 0 < limit
  pub rows_are : rows ≡ map (lease owner (now + seconds)) (pick locked limit now jobs)
  pub table_is :
      jobs' ≡ update (is_among (pick locked limit now jobs)) (lease owner (now + seconds)) jobs

module _ (locked : ℕ → Bool) (owner : String) (limit seconds now : ℕ)
    (jobs rows jobs' : List BackgroundJob)
    (e : claim_jobs locked owner limit seconds now jobs ≡ ok (rows, jobs')) where
  pub claim_jobs-Claimed : Claimed locked owner limit seconds now jobs rows jobs'
  unfolding claim_jobs
  claim_jobs-Claimed = ground arith

-- Arguments that the checks pass make a claim.
pub claim_jobs-total :
    (locked : ℕ → Bool) (owner : String) (limit seconds now : ℕ) (jobs : List BackgroundJob)
    → is_blank owner ≡ false
    → 0 < limit
    → 0 < seconds
    → (rows jobs' : List BackgroundJob) × (claim_jobs locked owner limit seconds now jobs
        ≡ ok (rows, jobs'))
unfolding claim_jobs
claim_jobs-total locked owner limit seconds now jobs named l s = (
  map (lease owner (now + seconds)) (pick locked limit now jobs),
  update (is_among (pick locked limit now jobs)) (lease owner (now + seconds)) jobs,
  ground arith,
)

-- A row that may be claimed: queued, due, below its attempts, and held by no other transaction.
pub record IsFree (locked : ℕ → Bool) (now : ℕ) (j : BackgroundJob) : Type 0 where
  pub waiting : j.status ≡ queued
  pub due : j.run_at ≤ now
  pub left : j.attempts < j.max_attempts
  pub unlocked : locked j.id ≡ false

pub is_runnable-IsFree :
    (locked : ℕ → Bool) (now : ℕ) (j : BackgroundJob)
    → (is_runnable now j && not (locked j.id)) ≡ true
    → IsFree locked now j
unfolding is_runnable
is_runnable-IsFree locked now j h = ground arith

pub pick-IsFree :
    (locked : ℕ → Bool) (limit now : ℕ) (jobs : List BackgroundJob)
    → All (IsFree locked now) (pick locked limit now jobs)
unfolding pick
pick-IsFree locked limit now jobs = All-take (IsFree locked now) limit _ (
    order-All (IsFree locked now) _
      (All-map (is_runnable-IsFree locked now) _ (select-All_test _ jobs)))

pub pick-length :
    (locked : ℕ → Bool) (limit now : ℕ) (jobs : List BackgroundJob)
    → length (pick locked limit now jobs) ≤ limit
unfolding pick
pick-length locked limit now jobs =
    omega
      (arith, length-take limit (order (select (λ j. is_runnable now j && not (locked j.id)) jobs)))

pub All-of-map {κ} :
    (P : BackgroundJob → Type κ) (f : BackgroundJob → BackgroundJob) (js : List BackgroundJob)
    → All (λ j. P (f j)) js
    → All P (map f js)
All-of-map P f [] h = tt
All-of-map P f (j ∷ js) (hj, h) = (hj, All-of-map P f js h)

pub IsFree-is_runnable :
    (locked : ℕ → Bool) (now : ℕ) (j : BackgroundJob)
    → IsFree locked now j
    → (is_runnable now j && not (locked j.id)) ≡ true
unfolding is_runnable
IsFree-is_runnable locked now j f = ground arith

pub not_among :
    (picked : List BackgroundJob) (j : BackgroundJob)
    → j.status ≡ queued
    → (is_among picked j ≡ true → j.status ≡ running)
    → is_among picked j ≡ false
not_among picked j waiting runs = elim (Bool-cases (is_among picked j)) [
  | inl hit ↦ cc (runs hit)
  | inr miss ↦ miss
]

pub is_among-lease :
    (picked : List BackgroundJob) (owner : String) (until : ℕ) (j : BackgroundJob)
    → is_among picked (lease owner until j) ≡ is_among picked j
unfolding is_among lease
is_among-lease picked owner until j = refl

pub All-zip {κ μ} :
    (P : BackgroundJob → Type κ) (Q : BackgroundJob → Type μ) (js : List BackgroundJob)
    → All P js
    → All Q js
    → All (λ j. P j × Q j) js
All-zip P Q [] h k = tt
All-zip P Q (j ∷ js) (h, hs) (k, ks) = ((h, k), All-zip P Q js hs ks)

-- A row as the claim of `owner` left it.
pub record IsLeased (locked : ℕ → Bool) (owner : String) (until now : ℕ) (j : BackgroundJob)
    : Type 0 where
  pub runs : j.status ≡ running
  pub owned : j.lease_owner ≡ some owner
  pub ends : j.lease_until ≡ some until
  pub due : j.run_at ≤ now
  pub counted : 0 < j.attempts
  pub within : j.attempts ≤ j.max_attempts
  pub unlocked : locked j.id ≡ false

pub lease-IsLeased :
    (locked : ℕ → Bool) (owner : String) (until now : ℕ) (j : BackgroundJob)
    → IsFree locked now j
    → IsLeased locked owner until now (lease owner until j)
unfolding lease
lease-IsLeased locked owner until now j f = ground arith

-- A row as the claim returns it, with the row of the table that it was.
pub record IsClaimed (locked : ℕ → Bool) (owner : String) (until now : ℕ)
    (jobs : List BackgroundJob) (j : BackgroundJob) : Type 0 where
  pub before_claim : BackgroundJob
  pub listed : Memᴰ before_claim jobs
  pub free : IsFree locked now before_claim
  pub is : j ≡ record before_claim {
    status = running;
    attempts = before_claim.attempts + 1;
    lease_owner = some owner;
    lease_until = some until;
  }

-- A row that the claim took was free, and it is among the rows of the table.
pub pick-mem :
    (locked : ℕ → Bool) (limit now : ℕ) (jobs : List BackgroundJob) (j : BackgroundJob)
    → Memᴰ j (pick locked limit now jobs)
    → Memᴰ j jobs
unfolding pick
pick-mem locked limit now jobs j m =
    mem_of_select _ jobs ((order-Sub _).0 j (mem_of_take limit _ m))

pub lease-IsClaimed :
    (locked : ℕ → Bool) (owner : String) (until limit now : ℕ) (jobs : List BackgroundJob)
    (j : BackgroundJob)
    → Memᴰ j (pick locked limit now jobs)
    → IsClaimed locked owner until now jobs (lease owner until j)
unfolding lease
lease-IsClaimed locked owner until limit now jobs j m = record {
  before_claim = j;
  listed = pick-mem locked limit now jobs j m;
  free = All-mem (IsFree locked now) (pick-IsFree locked limit now jobs) m;
  is = refl;
}

-- Where ids are unique, a row with the id of a picked one is that one.
pub among_IsFree :
    (locked : ℕ → Bool) (limit now : ℕ) (jobs : List BackgroundJob) (j : BackgroundJob)
    → Distinct (λ x. x.id) jobs
    → Memᴰ j jobs
    → is_among (pick locked limit now jobs) j ≡ true
    → IsFree locked now j
unfolding is_among
among_IsFree locked limit now jobs j d m hit =
    let (i, among, same) = any-mem (λ k. k.id == j.id) (pick locked limit now jobs) hit in
    let one =
      Distinct-eq (λ x. x.id) jobs d (pick-mem locked limit now jobs i among) m
        ((==_iff i.id j.id).0 same) in
    rw (← one) (All-mem (IsFree locked now) (pick-IsFree locked limit now jobs) among)

pub is_among-running :
    (owner : String) (until : ℕ) (picked jobs : List BackgroundJob)
    → All
        (λ j. is_among picked j ≡ true → j.status ≡ running)
        (update (is_among picked) (lease owner until) jobs)
unfolding lease is_among
is_among-running owner until picked jobs =
    update-All_of_cases (λ j. is_among picked j ≡ true → j.status ≡ running) (is_among picked)
      (lease owner until) (λ j _ _. refl) (λ j miss hit. cc) jobs

pub is_among-map :
    (owner : String) (until : ℕ) (js : List BackgroundJob) (j : BackgroundJob)
    → is_among (map (lease owner until) js) j ≡ is_among js j
unfolding is_among lease any
is_among-map owner until [] j = refl
is_among-map owner until (k ∷ ks) j = ap (λ b. (k.id == j.id) || b) (is_among-map owner until ks j)
