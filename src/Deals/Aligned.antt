-- ===== src/Deals/Aligned.antt =====
-- When the schedule follows the date of the deal, and when it does not.
use mathlib.Core.List.{Memᴰ}
use pulse_crm.Prelude.Table.Laws.{count-update, select-All_test}
use pulse_crm.Prelude.Table.Members.{Distinct, mem_of_select, any-mem, All-mem}
use pulse_crm.Prelude.Table.Counts.{any-update, count-pos, count-one-eq, length-select}
use pulse_crm.Prelude.{
  ℕ, ◌≤◌, ◌≡◌, refl, sym, ap, ◌∙◌, inl, inr, true, false, Option, none, some, List, [], ◌∷◌, length,
  ◌==◌, Bool-cases, select, any, count, arith, ok, or_else,
}
use pulse_crm.Models.{Deal}
use pulse_crm.Purchases.{is_active, PurchaseSchedule, same_occurrence}
use pulse_crm.Deals.Schedule.{
  ScheduleStore, active_of, cancel, cancel_in, realigned, align_schedule, cancel_all,
  create_schedule, sync_active, sync_to, sync_purchase_schedule, first_link, contact_of,
}
use pulse_crm.Deals.Settled.{
  rows, active_at, closed_at, IsKept, IsAligned, at_le, cancel_in-none, create_schedule-Created,
  Created-any, any-closed_at, on-active, align_schedule-rows, on,
}

module _ (deal : Deal) where
  module _ (d : ℕ) (s : ScheduleStore) (distinct : Distinct PurchaseSchedule.id (rows s))
      (one : count (active_of deal) (rows s) ≤ 1) (unique : count (on deal d) (rows s) ≤ 1) where
    none-active :
        (id assignee_id : ℕ) (contact_id : Option ℕ) (s' : ScheduleStore)
        → count (active_of deal) (rows s) ≡ 0
        → create_schedule id deal assignee_id contact_id d s ≡ ok s'
        → IsAligned deal (some d) s s'
    none-active id assignee_id contact_id s' zero_before h =
        Created-any deal d (rows s) (rows s') (any (closed_at deal d) (rows s))
          (create_schedule-Created deal id assignee_id contact_id d s s' h zero_before)
          (any-closed_at deal d (rows s) (λ y m t. elim (on-active deal d y t) [
            | inl off ↦ off
            | inr (live, same) ↦ absurd (
                let more = count-pos (active_of deal) (rows s) {x = y} m live in
                omega (arith, more, zero_before))
          ]))

    module _ (x : PurchaseSchedule) (m : Memᴰ x (rows s)) (t : active_of deal x ≡ true) where
      other-cancelled :
          (id assignee_id : ℕ) (contact_id : Option ℕ) (s' : ScheduleStore)
          → (x.scheduled_for == d) ≡ false
          → create_schedule id deal assignee_id contact_id d (cancel_in x s) ≡ ok s'
          → IsAligned deal (some d) s s'
      unfolding same_occurrence
      other-cancelled id assignee_id contact_id s' other h =
          Created-any deal d (rows (cancel_in x s)) (rows s') (any (closed_at deal d) (rows s))
            (create_schedule-Created deal id assignee_id contact_id d (cancel_in x s) s' h
              (cancel_in-none deal x s (distinct, one) m t))
            (any-update (on deal d) (λ y. y.id == x.id) cancel (λ y. refl) (rows s)
              ∙ any-closed_at deal d (rows s) (λ y my ty. elim (on-active deal d y ty) [
                | inl off ↦ off
                | inr (live, same) ↦ absurd (
                    let twin : x ≡ y = count-one-eq (active_of deal) (rows s) one m my t live in
                    let date : x.scheduled_for ≡ d =
                      ap PurchaseSchedule.scheduled_for twin ∙ same in
                    ground (arith, date, other))
              ]))

      same-kept :
          (actor_id assignee_id : ℕ) (contact_id required : Option ℕ) (s' : ScheduleStore)
          → (x.scheduled_for == d) ≡ true
          → align_schedule deal actor_id assignee_id contact_id required x s ≡ ok s'
          → IsAligned deal (some d) s s'
      unfolding same_occurrence active_of
      same-kept actor_id assignee_id contact_id required s' same h =
          let after = align_schedule-rows deal actor_id assignee_id contact_id required x s s' h in
          let kept : count (active_of deal) (rows s') ≡ count (active_of deal) (rows s) =
            ap (count (active_of deal)) after
            ∙ count-update (active_of deal) (λ y. y.id == x.id) (realigned contact_id assignee_id)
                (λ y e. refl) (rows s) in
          let kept' : count (active_at deal d) (rows s') ≡ count (active_at deal d) (rows s) =
            ap (count (active_at deal d)) after
            ∙ count-update (active_at deal d) (λ y. y.id == x.id) (realigned contact_id assignee_id)
                (λ y e. refl) (rows s) in
          let here = count-pos (active_of deal) (rows s) {x = x} m t in
          let here' = count-pos (active_at deal d) (rows s) {x = x} m (ground (arith, t, same)) in
          let bound = at_le deal d (rows s) in
          let open_one : any (closed_at deal d) (rows s) ≡ false =
            elim (Bool-cases (any (closed_at deal d) (rows s))) [
              | inr f ↦ f
              | inl f ↦
                  let (y, my, ty) = any-mem (closed_at deal d) (rows s) f in
                  let on_x : on deal d x ≡ true = ground (arith, t, same) in
                  let on_y : on deal d y ≡ true = ground (arith, ty) in
                  let twin : x ≡ y = count-one-eq (on deal d) (rows s) unique m my on_x on_y in
                  let live : is_active x.status ≡ true = ground (arith, t) in
                  let live' : is_active y.status ≡ true = rw twin at live in
                  absurd (ground (arith, ty, live'))
            ] in
          rw open_one (omega (arith, kept, here, one), omega (arith, kept', here', bound, one))

  -- A list of two is not of at most one.
  too_many :
      {A : Type 0} (x y : PurchaseSchedule) (xs zs : List PurchaseSchedule)
      → length (x ∷ y ∷ xs) ≡ count (active_of deal) zs
      → count (active_of deal) zs ≤ 1
      → A
  too_many x y xs zs e h = absurd (omega (arith, e, h))

  sync_active-IsAligned :
      (id actor_id assignee_id : ℕ) (contact_id required : Option ℕ) (d : ℕ) (s s' : ScheduleStore)
      (active : List PurchaseSchedule)
      → Distinct PurchaseSchedule.id (rows s)
      → count (active_of deal) (rows s) ≤ 1
      → count (on deal d) (rows s) ≤ 1
      → select (active_of deal) (rows s) ≡ active
      → sync_active id deal actor_id assignee_id contact_id required d active s ≡ ok s'
      → IsAligned deal (some d) s s'
  unfolding sync_active
  sync_active-IsAligned id actor_id assignee_id contact_id required d s s' [] distinct one unique e
        h =
      let zero_before : count (active_of deal) (rows s) ≡ 0 =
        sym (length-select (active_of deal) (rows s)) ∙ ap length e in
      none-active d s distinct one unique id assignee_id contact_id s' zero_before h
  sync_active-IsAligned id actor_id assignee_id contact_id required d s s' (x ∷ []) distinct one
        unique e h =
      let inside : Memᴰ x (select (active_of deal) (rows s)) = rw e (Memᴰ.head refl) in
      let m = mem_of_select (active_of deal) (rows s) inside in
      let t = All-mem _ (select-All_test (active_of deal) (rows s)) inside in
      elim (Bool-cases (x.scheduled_for == d)) [
        | inl same ↦
            same-kept d s distinct one unique x m t actor_id assignee_id contact_id required s' same
              (rw (same, sync_active) at h)
        | inr other ↦
            other-cancelled d s distinct one unique x m t id assignee_id contact_id s' other
              (rw (other, sync_active) at h)
      ]
  sync_active-IsAligned id actor_id assignee_id contact_id required d s s' (x ∷ y ∷ ys) distinct one
        unique e h =
      too_many x y ys (rows s) (sym (ap length e) ∙ length-select (active_of deal) (rows s)) one

  cancel_all-none :
      (s : ScheduleStore) (active : List PurchaseSchedule)
      → Distinct PurchaseSchedule.id (rows s)
      → count (active_of deal) (rows s) ≤ 1
      → select (active_of deal) (rows s) ≡ active
      → count (active_of deal) (rows (cancel_all active s)) ≡ 0
  unfolding cancel_all
  cancel_all-none s [] distinct one e = sym (length-select (active_of deal) (rows s)) ∙ ap length e
  cancel_all-none s (x ∷ []) distinct one e =
      let inside : Memᴰ x (select (active_of deal) (rows s)) = rw e (Memᴰ.head refl) in
      cancel_in-none deal x s (distinct, one) (mem_of_select (active_of deal) (rows s) inside)
        (All-mem _ (select-All_test (active_of deal) (rows s)) inside)
  cancel_all-none s (x ∷ y ∷ ys) distinct one e =
      too_many x y ys (rows s) (sym (ap length e) ∙ length-select (active_of deal) (rows s)) one

  sync_to-IsAligned :
      (id actor_id fallback_assignee_id : ℕ) (required : Option ℕ) (s s' : ScheduleStore)
      (date : Option ℕ)
      → IsKept deal s
      → ((d : ℕ) → count (on deal d) (rows s) ≤ 1)
      → sync_to id deal actor_id fallback_assignee_id required date s ≡ ok s'
      → IsAligned deal date s s'
  unfolding sync_to
  sync_to-IsAligned id actor_id fallback_assignee_id required s s' none (distinct, one) unique h =
      let result : cancel_all (select (active_of deal) (rows s)) s ≡ s' = ground (arith, h) in
      let none_left = cancel_all-none s (select (active_of deal) (rows s)) distinct one refl in
      ap (λ q. count (active_of deal) (rows q)) (sym result) ∙ none_left
  sync_to-IsAligned id actor_id fallback_assignee_id required s s' (some d) (distinct, one) unique
        h =
      sync_active-IsAligned id actor_id (or_else deal.assignee_id fallback_assignee_id)
        (contact_of (first_link deal s.deal_contacts)) required d s s'
        (select (active_of deal) (rows s)) distinct one (unique d) refl h

-- If at most one schedule of the deal was active, a synchronization that succeeds leaves none active
-- where the deal has no date. Where it has one, exactly one schedule is active, and for that date,
-- unless the deal has a schedule for that date that is not active: then none is. The identifiers and
-- the occurrences of a deal are unique in the table.
pub sync_purchase_schedule-IsAligned :
    (id : ℕ) (deal : Deal) (fallback_assignee_id actor_id : ℕ) (required : Option ℕ)
    (s s' : ScheduleStore)
    → IsKept deal s
    → ((d : ℕ) → count (same_occurrence deal.workspace_id deal.id d) (rows s) ≤ 1)
    → sync_purchase_schedule id deal fallback_assignee_id actor_id required s ≡ ok s'
    → IsAligned deal deal.next_purchase_at s s'
unfolding sync_purchase_schedule
sync_purchase_schedule-IsAligned id deal fallback_assignee_id actor_id required s s' kept unique h =
    sync_to-IsAligned deal id actor_id fallback_assignee_id required s s' deal.next_purchase_at kept
      unique h
