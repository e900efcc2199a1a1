-- ===== src/Jobs/Claim.antt =====
-- What a claim takes, and that no two workers hold one job.
use mathlib.Core.List.{Memᴰ}
use pulse_crm.Prelude.Table.Members.{
  All-mem, All-of_mem, mem-take-or-drop, mem-select, mem-map, length-take_of_drop, Distinct,
}
use pulse_crm.Prelude.Table.Laws.{update-All_from}
use pulse_crm.Prelude.{
  ℕ, ◌+◌, ◌≤◌, ◌<◌, ◌≡◌, ◌⊎◌, ◌∙◌, Bool, true, false, not, ◌&&◌, String, List, map, All, All-map,
  inl, inr, arith, select, take, length, length-map, ok,
}
use pulse_crm.Jobs.{
  running, BackgroundJob, before, order, is_runnable, pick, lease, is_among, claim_jobs,
}
use pulse_crm.Jobs.Order.{order-IsOrdered, order-Sub, take-before-drop}
use pulse_crm.Jobs.Invariant.{IsValid, lease-IsValid}
use pulse_crm.Jobs.Picked.{
  claim_jobs-Claimed, IsFree, pick-IsFree, pick-length, All-of-map, IsFree-is_runnable, not_among,
  is_among-lease, All-zip, IsLeased, lease-IsLeased, IsClaimed, lease-IsClaimed, pick-mem,
  among_IsFree, is_among-running, is_among-map,
}

module _ (locked : ℕ → Bool) (owner : String) (limit seconds now : ℕ)
    (jobs rows jobs' : List BackgroundJob)
    (e : claim_jobs locked owner limit seconds now jobs ≡ ok (rows, jobs')) where
  pub claim_jobs-IsLeased :
      All (IsLeased locked owner (now + seconds) now) rows × (length rows ≤ limit)
  claim_jobs-IsLeased =
      let c = claim_jobs-Claimed locked owner limit seconds now jobs rows jobs' e in
      let leased =
        All-of-map (IsLeased locked owner (now + seconds) now) (lease owner (now + seconds)) _ (
          All-map (lease-IsLeased locked owner (now + seconds) now) _
            (pick-IsFree locked limit now jobs)) in
      (
        rw c.rows_are leased,
        rw c.rows_are (
            omega (
              arith,
              pick-length locked limit now jobs,
              length-map (pick locked limit now jobs) (lease owner (now + seconds)),
            )),
      )

  -- A claim returns at most `limit` rows, each of which is a row of the table that was queued, due,
  -- below its attempts and not locked, and differs from it only in that it runs under the caller's
  -- lease for `lease_seconds`, with one attempt more.
  pub claim_jobs-IsClaimed :
      All (IsClaimed locked owner (now + seconds) now jobs) rows × (length rows ≤ limit)
  claim_jobs-IsClaimed =
      let c = claim_jobs-Claimed locked owner limit seconds now jobs rows jobs' e in
      let claimed =
        All-of-map (IsClaimed locked owner (now + seconds) now jobs) (lease owner (now + seconds)) _
          (All-of_mem _ (pick locked limit now jobs)
            (lease-IsClaimed locked owner (now + seconds) limit now jobs)) in
      (rw c.rows_are claimed, claim_jobs-IsLeased.1)

  -- No later claim on the table that a claim left, by any worker and at any time, takes a job that the
  -- first one took.
  pub claim_jobs-disjoint :
      (locked₂ : ℕ → Bool) (owner₂ : String) (limit₂ seconds₂ now₂ : ℕ)
      (rows₂ jobs₂ : List BackgroundJob)
      → claim_jobs locked₂ owner₂ limit₂ seconds₂ now₂ jobs' ≡ ok (rows₂, jobs₂)
      → All (λ j. is_among rows j ≡ false) rows₂
  claim_jobs-disjoint locked₂ owner₂ limit₂ seconds₂ now₂ rows₂ jobs₂ e₂ =
      let c = claim_jobs-Claimed locked owner limit seconds now jobs rows jobs' e in
      let c₂ = claim_jobs-Claimed locked₂ owner₂ limit₂ seconds₂ now₂ jobs' rows₂ jobs₂ e₂ in
      let picked = pick locked limit now jobs in
      let picked₂ = pick locked₂ limit₂ now₂ jobs' in
      let runs : All (λ j. is_among picked j ≡ true → j.status ≡ running) jobs' =
        rw c.table_is (is_among-running owner (now + seconds) picked jobs) in
      let apart : All (λ j. is_among picked j ≡ false) picked₂ =
        All-of_mem (λ j. is_among picked j ≡ false) picked₂
          λ j m.
            not_among picked j
              (All-mem (IsFree locked₂ now₂) (pick-IsFree locked₂ limit₂ now₂ jobs') m).waiting
              (All-mem (λ i. is_among picked i ≡ true → i.status ≡ running) runs
                (pick-mem locked₂ limit₂ now₂ jobs' j m)) in
      rw (c.rows_are, c₂.rows_are)
        (All-of-map (λ j. is_among (map (lease owner (now + seconds)) picked) j ≡ false)
          (lease owner₂ (now₂ + seconds₂)) picked₂
          (All-map
            (λ j h.
              is_among-map owner (now + seconds) picked (lease owner₂ (now₂ + seconds₂) j)
              ∙ is_among-lease picked owner₂ (now₂ + seconds₂) j
              ∙ h)
            picked₂ apart))

  -- A free job that a claim leaves behind has to wait for others: the claim is full, and every row of
  -- it comes before that job by run_at, then created_at, then id.
  pub claim_jobs-fair :
      (k : BackgroundJob)
      → Memᴰ k jobs
      → IsFree locked now k
      → Memᴰ (lease owner (now + seconds) k) rows
        ⊎ ((length rows ≡ limit) × All (λ j. before j k ≡ true) rows)
  unfolding pick lease before
  claim_jobs-fair k m f =
      let c = claim_jobs-Claimed locked owner limit seconds now jobs rows jobs' e in
      let free = λ (j : BackgroundJob). is_runnable now j && not (locked j.id) in
      let ordered = order (select free jobs) in
      let place =
        (order-Sub (select free jobs)).1 k
          (mem-select free jobs m (IsFree-is_runnable locked now k f)) in
      elim (mem-take-or-drop limit ordered place) [
        | inl t ↦
            inl
              (rw (c.rows_are, pick) (mem-map (lease owner (now + seconds)) (take limit ordered) t))
        | inr d ↦ inr (
          rw (c.rows_are, pick)
              (length-map (take limit ordered) (lease owner (now + seconds))
                ∙ length-take_of_drop limit ordered d),
          rw (c.rows_are, pick)
              (All-of-map (λ j. before j k ≡ true) (lease owner (now + seconds))
                (take limit ordered)
                (All-map (λ j h. h) (take limit ordered)
                  (All-mem (λ i. All (λ j. before j i ≡ true) (take limit ordered))
                    (take-before-drop limit ordered (order-IsOrdered (select free jobs))) d))),
        )
      ]

  -- A claim keeps the table valid, where ids are unique.
  pub claim_jobs-IsValid : Distinct (λ j. j.id) jobs → All IsValid jobs → All IsValid jobs'
  claim_jobs-IsValid d h =
      let c = claim_jobs-Claimed locked owner limit seconds now jobs rows jobs' e in
      let picked = pick locked limit now jobs in
      let room : All (λ j. is_among picked j ≡ true → j.attempts < j.max_attempts) jobs =
        All-of_mem (λ j. is_among picked j ≡ true → j.attempts < j.max_attempts) jobs
          λ j m hit. (among_IsFree locked limit now jobs j d m hit).left in
      rw c.table_is (
        update-All_from IsValid
          (λ j. IsValid j × (is_among picked j ≡ true → j.attempts < j.max_attempts))
          (is_among picked) (lease owner (now + seconds))
          (λ j hit both. lease-IsValid owner (now + seconds) j (both.1 hit)) (λ j miss both. both.0)
          jobs (All-zip IsValid _ jobs h room))
