-- ===== src/Deals/Settled.antt =====
-- The parts of a synchronization: what an insertion, a cancellation and a change of the contact and
-- the assignee leave of the deal's active schedules.
use mathlib.Core.List.{Memᴰ}
use pulse_crm.Prelude.Table.Laws.{find?-test, find?-none-All}
use pulse_crm.Prelude.Table.Members.{Distinct, find?-mem, mem-any, any-mem, All-mem}
use pulse_crm.Prelude.Table.Counts.{count-update_off, count_mono}
use pulse_crm.Prelude.{
  ℕ, ◌-◌, ◌≤◌, ◌≡◌, refl, sym, ap, ◌∙◌, ◌⊎◌, inl, inr, Bool, true, false, not, ◌&&◌, Option, none,
  some, List, ◌==◌, ==_refl, Bool-cases, if◌then◌else◌, find?, any, count, update, arith, ok, ltb,
  value_error, >>=-eq-ok, raise_if-eq-ok,
}
use pulse_crm.Models.{Deal}
use pulse_crm.Purchases.{
  is_active, PurchaseSchedule, Task, PurchaseStore, same_occurrence, new_schedule, insert_schedule,
  create_purchase_schedule,
}
use pulse_crm.Deals.Schedule.{
  ScheduleStore, active_of, cancel, cancel_in, refuse_task, find_task, assign_task, realigned,
  align_schedule, purchase_of, create_schedule,
}

abbrev pub rows : ScheduleStore → List PurchaseSchedule
rows s = s.purchases.schedules

-- The deal's active schedules for one date, and its schedules for that date that are not active.
abbrev pub active_at : Deal → ℕ → PurchaseSchedule → Bool
active_at deal d x = active_of deal x && x.scheduled_for == d

abbrev pub closed_at : Deal → ℕ → PurchaseSchedule → Bool
closed_at deal d x = same_occurrence deal.workspace_id deal.id d x && not (is_active x.status)

-- The keys of the table, and at most one active schedule for the deal.
abbrev pub IsKept : Deal → ScheduleStore → Type 0
IsKept deal s = Distinct PurchaseSchedule.id (rows s) × (count (active_of deal) (rows s) ≤ 1)

-- The active schedules of the deal after its date was set.
abbrev pub IsAligned : Deal → Option ℕ → ScheduleStore → ScheduleStore → Type 0
IsAligned deal none s s' = count (active_of deal) (rows s') ≡ 0
IsAligned deal (some d) s s' =
    (count (active_of deal) (rows s') ≡ (if any (closed_at deal d) (rows s) then 0 else 1))
    × (count (active_at deal d) (rows s') ≡ (if any (closed_at deal d) (rows s) then 0 else 1))

find?-none-any :
    (p : PurchaseSchedule → Bool) (xs : List PurchaseSchedule)
    → find? p xs ≡ none
    → any p xs ≡ false
find?-none-any p xs e = elim (Bool-cases (any p xs)) [
  | inr f ↦ f
  | inl f ↦
      let (y, m, t) = any-mem p xs f in let off = All-mem _ (find?-none-All p xs e) m in cc (t, off)
]

module _ (deal : Deal) where
  assign_task-rows :
      (actor_id assignee_id : ℕ) (o : Option Task) (s : ScheduleStore)
      → rows (assign_task deal actor_id assignee_id o s) ≡ rows s
  unfolding assign_task
  assign_task-rows actor_id assignee_id none s = refl
  assign_task-rows actor_id assignee_id (some t) s =
      elim (Bool-cases (t.assignee_id == assignee_id)) [ inl e ↦ rw e refl | inr e ↦ rw e refl ]

  pub at_le :
      (d : ℕ) (xs : List PurchaseSchedule) → count (active_at deal d) xs ≤ count (active_of deal) xs
  at_le d xs = count_mono (active_at deal d) (active_of deal) (λ x t. ground (arith, t)) xs

  pub cancel_in-none :
      (x : PurchaseSchedule) (s : ScheduleStore)
      → IsKept deal s
      → Memᴰ x (rows s)
      → active_of deal x ≡ true
      → count (active_of deal) (rows (cancel_in x s)) ≡ 0
  unfolding active_of
  cancel_in-none x s (distinct, one) m t =
      let less =
        count-update_off PurchaseSchedule.id (active_of deal) cancel (rows s) {x = x} distinct m t
          (ground arith) in
      omega (arith, less, one)

  abbrev pub on : ℕ → PurchaseSchedule → Bool
  on d = same_occurrence deal.workspace_id deal.id d

  -- What an insertion leaves where no schedule of the deal was active.
  abbrev pub Created : ℕ → List PurchaseSchedule → List PurchaseSchedule → Type 0
  Created d xs ys =
      ((find? (on d) xs ≡ none)
        × (count (active_of deal) ys ≡ 1)
        × (count (active_at deal d) ys ≡ 1))
      ⊎ ((x : PurchaseSchedule) × (find? (on d) xs ≡ some x)
          × (count (active_of deal) ys ≡ 0)
          × (count (active_at deal d) ys ≡ 0))

  module _ (id assignee_id : ℕ) (contact_id : Option ℕ) (d remind_at : ℕ) where
    abbrev row : PurchaseSchedule
    row = new_schedule id (purchase_of deal assignee_id contact_id d) d remind_at

    row-active : active_of deal row ≡ true
    unfolding active_of
    row-active =
        let w = ==_refl deal.workspace_id in let i = ==_refl deal.id in ground (arith, w, i)

    insert_schedule-Created :
        (o : Option PurchaseSchedule) (p : PurchaseStore)
        → find? (on d) p.schedules ≡ o
        → count (active_of deal) p.schedules ≡ 0
        → Created d p.schedules (insert_schedule o row p).2.schedules
    unfolding insert_schedule count
    insert_schedule-Created none p e zero_before =
        let at_zero = at_le d p.schedules in
        let same : (d == d) ≡ true = ==_refl d in
        inl (
          e,
          rw row-active (omega (arith, zero_before)),
          rw (row-active, same) (omega (arith, zero_before, at_zero)),
        )
    insert_schedule-Created (some x) p e zero_before =
        let at_zero = at_le d p.schedules in
        inr (x, e, zero_before, omega (arith, zero_before, at_zero))

  pub create_schedule-Created :
      (id assignee_id : ℕ) (contact_id : Option ℕ) (d : ℕ) (s s' : ScheduleStore)
      → create_schedule id deal assignee_id contact_id d s ≡ ok s'
      → count (active_of deal) (rows s) ≡ 0
      → Created d (rows s) (rows s')
  unfolding create_schedule create_purchase_schedule
  create_schedule-Created id assignee_id contact_id d s s' h zero_before =
      let p = purchase_of deal assignee_id contact_id d in
      let (r, made, done) = >>=-eq-ok (create_purchase_schedule id p s.purchases) _ h in
      let (c, inserted) =
        raise_if-eq-ok (ltb d (d - 604800000000))
          (value_error "purchase reminder cannot be after the expected purchase") _ made in
      let held =
        insert_schedule-Created id assignee_id contact_id d (d - 604800000000)
          (find? (on d) (rows s)) s.purchases refl zero_before in
      let result : insert_schedule (find? (on d) (rows s)) (new_schedule id p d (d - 604800000000))
            s.purchases
          ≡ r =
        ground (arith, inserted) in
      let store : record s { purchases = r.2 } ≡ s' = ground (arith, done) in
      let held' : Created d (rows s) r.2.schedules = rw result at held in rw (← store) held'

  pub Created-any :
      (d : ℕ) (xs ys : List PurchaseSchedule) (c : Bool)
      → Created d xs ys
      → any (on d) xs ≡ c
      → (count (active_of deal) ys ≡ (if c then 0 else 1))
        × (count (active_at deal d) ys ≡ (if c then 0 else 1))
  Created-any d xs ys c (inl (e, one, one')) h =
      let c_is : c ≡ false = sym h ∙ find?-none-any (on d) xs e in rw c_is (one, one')
  Created-any d xs ys c (inr (x, e, zero_left, zero_left')) h =
      let c_is : c ≡ true =
        sym h ∙ mem-any (on d) xs (find?-mem (on d) xs e) (find?-test (on d) xs e) in
      rw c_is (zero_left, zero_left')

  -- Where no schedule for the date is active, those that are closed are all.
  pub any-closed_at :
      (d : ℕ) (xs : List PurchaseSchedule)
      → ((y : PurchaseSchedule) → Memᴰ y xs → on d y ≡ true → is_active y.status ≡ false)
      → any (on d) xs ≡ any (closed_at deal d) xs
  any-closed_at d xs closed = elim (Bool-cases (any (on d) xs)) [
    | inl e ↦
        let (y, m, t) = any-mem (on d) xs e in
        let off = closed y m t in e ∙ sym (mem-any (closed_at deal d) xs m (ground (arith, t, off)))
    | inr e ↦ elim (Bool-cases (any (closed_at deal d) xs)) [
      | inr f ↦ e ∙ sym f
      | inl f ↦
          let (y, m, t) = any-mem (closed_at deal d) xs f in
          let on_d : on d y ≡ true = ground (arith, t) in mem-any (on d) xs m on_d ∙ sym f
    ]
  ]

  pub on-active :
      (d : ℕ) (y : PurchaseSchedule)
      → on d y ≡ true
      → (is_active y.status ≡ false) ⊎ ((active_of deal y ≡ true) × (y.scheduled_for ≡ d))
  unfolding same_occurrence active_of
  on-active d y t = elim (Bool-cases (is_active y.status)) [
    | inr off ↦ inl off
    | inl live ↦ inr (ground (arith, t, live), ground (arith, t))
  ]

  -- A date for which a schedule is active.
  pub align_schedule-rows :
      (actor_id assignee_id : ℕ) (contact_id required : Option ℕ) (x : PurchaseSchedule)
      (s s' : ScheduleStore)
      → align_schedule deal actor_id assignee_id contact_id required x s ≡ ok s'
      → rows s' ≡ update (λ y. y.id == x.id) (realigned contact_id assignee_id) (rows s)
  unfolding align_schedule
  align_schedule-rows actor_id assignee_id contact_id required x s s' h =
      let task = find_task deal.workspace_id x.task_id s.purchases.tasks in
      let (u, allowed, done) = >>=-eq-ok (refuse_task task required) _ h in
      let s1 : ScheduleStore = record s {
        purchases = record s.purchases {
          schedules =
              update (λ y. y.id == x.id) (realigned contact_id assignee_id) s.purchases.schedules;
        };
      } in
      let result : assign_task deal actor_id assignee_id task s1 ≡ s' = ground (arith, done) in
      ap rows (sym result) ∙ assign_task-rows actor_id assignee_id task s1
