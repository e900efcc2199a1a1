-- ===== src/Purchases/Ensured.antt =====
-- One run of the scheduler gives a schedule its task, and every further run finds it.
use pulse_crm.Prelude.Table.Laws.{find?-test, find?-update_keep, find?_of_any}
use pulse_crm.Prelude.Table.Members.{find?-mem, All-mem}
use pulse_crm.Prelude.{
  ℕ, ◌≡◌, refl, ◌⊎◌, inl, inr, ◌∙◌, true, false, Option, none, some, ◌∷◌, find?, String, ok, arith,
  ◌==◌, ==_refl,
}
use pulse_crm.Purchases.{
  active, is_active, PurchaseSchedule, PurchaseTaskResult, PurchaseStore, own_schedule, own_task,
  new_task, linked, reminder, create_task, settle_task, ensure_purchase_task,
}
use pulse_crm.Purchases.Linked.{IsLinked, has_task}

module _ (str : ℕ → String) (workspace_id : ℕ) (x : PurchaseSchedule) (s : PurchaseStore) where
  -- The schedule of the result names the task of the result, which is in the table; the task, its
  -- deadline and its reminder are written unless the schedule had its task.
  abbrev pub IsEnsured : PurchaseTaskResult → PurchaseStore → Type 0
  IsEnsured r s' =
      (r.schedule.task_id ≡ some r.task.id)
      × (find? (own_task workspace_id r.task.id) s'.tasks ≡ some r.task)
      × (((r.created ≡ false) × (r.schedule ≡ x) × (s' ≡ s))
          ⊎ ((r.created ≡ true)
              × (x.task_id ≡ none)
              × (r.task.due_at ≡ x.scheduled_for)
              × (s'.tasks ≡ r.task ∷ s.tasks)
              × (s'.events ≡ reminder str workspace_id r.schedule r.task ∷ s.events)))

  module _ (task_id now task_id' now' schedule_id : ℕ) (title title' : String)
      (found : find? (own_schedule workspace_id schedule_id) s.schedules ≡ some x)
      (open_one : x.status ≡ active) where
    settle_task-IsEnsured :
        (o : Option ℕ)
        → x.task_id ≡ o
        → has_task s.tasks workspace_id o ≡ true
        → (r : PurchaseTaskResult) × (s' : PurchaseStore) × (settle_task str task_id now
              workspace_id title x o s
            ≡ ok (r, s'))
          × IsEnsured r s'
          × (ensure_purchase_task str task_id' now' workspace_id schedule_id title' s'
              ≡ ok (record r { created = false }, s'))
    unfolding settle_task ensure_purchase_task create_task has_task own_task find? own_schedule
    settle_task-IsEnsured none e h =
        let i = ==_refl task_id in
        let w = ==_refl workspace_id in
        let task = new_task task_id workspace_id title x in
        let (r, s') = create_task str task_id now workspace_id title x s in
        let there : find? (own_task workspace_id task_id) (task ∷ s.tasks) ≡ some task =
          ground (arith, i, w) in
        let again : find? (own_schedule workspace_id schedule_id) s'.schedules
            ≡ some (linked task_id now x) =
          find?-update_keep (own_schedule workspace_id schedule_id) (λ y. y.id == x.id)
            (linked task_id now) (λ y. refl) s.schedules found (==_refl x.id) in
        (
          r,
          s',
          refl,
          (refl, there, inr (refl, e, refl, refl, refl)),
          rw (again, open_one, there) refl,
        )
    settle_task-IsEnsured (some old) e h =
        let (task, there) = find?_of_any (own_task workspace_id old) s.tasks h in
        let named : task.id ≡ old =
          let own = find?-test (own_task workspace_id old) s.tasks there in ground (arith, own) in
        (
          record { schedule = x; task = task; created = false },
          s,
          rw there refl,
          (rw named e, rw named there, inl (refl, refl, refl)),
          rw (found, open_one, e, there) refl,
        )

-- A run of the scheduler for an active schedule succeeds where every schedule's task exists. It
-- returns the task that the schedule names from then on: the one it had, with nothing written, or a
-- new one that is due at the expected purchase, with exactly one reminder. A further run returns the
-- same schedule and task as not created and writes nothing.
pub ensure_purchase_task_again :
    (str : ℕ → String) (task_id now task_id' now' workspace_id schedule_id : ℕ)
    (title title' : String) (x : PurchaseSchedule) (s : PurchaseStore)
    → IsLinked s
    → find? (own_schedule workspace_id schedule_id) s.schedules ≡ some x
    → x.status ≡ active
    → (r : PurchaseTaskResult) × (s' : PurchaseStore) × (ensure_purchase_task str task_id now
          workspace_id schedule_id title s
        ≡ ok (r, s'))
      × IsEnsured str workspace_id x s r s'
      × (ensure_purchase_task str task_id' now' workspace_id schedule_id title' s'
          ≡ ok (record r { created = false }, s'))
unfolding ensure_purchase_task own_schedule
ensure_purchase_task_again str task_id now task_id' now' workspace_id schedule_id title title' x s
      inv found is_open =
    let mine = own_schedule workspace_id schedule_id in
    let own : x.workspace_id ≡ workspace_id =
      let t = find?-test mine s.schedules found in ground (arith, t) in
    let held = All-mem _ inv.1 (find?-mem mine s.schedules found) in
    let (r, s', done, ensured, again) =
      settle_task-IsEnsured str workspace_id x s task_id now task_id' now' schedule_id title title'
        found is_open x.task_id refl (rw own at held) in
    let live : is_active x.status ≡ true = rw is_open refl in
    let step : ensure_purchase_task str task_id now workspace_id schedule_id title s
        ≡ settle_task str task_id now workspace_id title x x.task_id s =
      rw (found, live) refl in
    (r, s', step ∙ done, ensured, again)
