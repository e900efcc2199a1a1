-- ===== src/Operations/Tests.antt =====
-- The theorems of the operations at the queue of the tests.
use mathlib.Core.List.{Memᴰ}
use pulse_crm.Prelude.{
  ◌≡◌, refl, inl, none, List, [], ◌∷◌, arith, ok, any, select, is_blank, update,
}
use pulse_crm.Jobs.{
  succeeded, BackgroundJob, claim_jobs, insert_ordered, order, pick, is_among, lease,
}
use pulse_crm.Jobs.Tests.{send, first, leased, unlocked, enqueue_first}
use pulse_crm.Operations.Steps.{enqueues, claims, recovers, IsSound}
use pulse_crm.Operations.Reach.{works, Reach, here, next, Reach-IsSound}
use pulse_crm.Operations.Done.{Step-keeps_done}
use pulse_crm.Jobs.Recovery.{recover_expired_leases}

abbrev none_yet : List BackgroundJob
none_yet = []

empty_IsSound : IsSound []
empty_IsSound = record { valid = tt; distinct = tt }

-- A job is enqueued and then claimed.
history : Reach [] (leased ∷ [])
unfolding claim_jobs is_blank pick update order is_among select any insert_ordered lease
history =
    next (next here (works (enqueues 7 100 send first tt enqueue_first)))
      (works (claims unlocked "w1" 1 45 200 (leased ∷ []) claim_alone))
  where
    claim_alone : claim_jobs unlocked "w1" 1 45 200 (first ∷ []) ≡ ok (leased ∷ [], leased ∷ [])
    claim_alone = refl

Reach-IsSound_example : IsSound (leased ∷ [])
Reach-IsSound_example = Reach-IsSound empty_IsSound history

abbrev done : BackgroundJob
done = record leased { status = succeeded; lease_owner = none; lease_until = none }

done_IsSound : IsSound (done ∷ [])
done_IsSound = record { valid = ((ground arith), tt); distinct = (tt, tt) }

Step-keeps_done_example : Memᴰ done (recover_expired_leases 900 (done ∷ [])).1
Step-keeps_done_example =
    Step-keeps_done done_IsSound (Memᴰ.head refl) (inl refl) (recovers 900 refl)
