-- ===== src/Purchases/Linked.antt =====
-- What every creation and every run of the scheduler keeps true of the schedules.
use mathlib.Core.List.{Memᴰ}
use pulse_crm.Prelude.Table.Laws.{find?-test, update-All_from}
use pulse_crm.Prelude.Table.Counts.{count-update_one}
use pulse_crm.Prelude.Table.Members.{
  Distinct, Distinct-eq, update-Distinct, find?-mem, All-mem, All-of_mem,
}
use pulse_crm.Prelude.{
  aware_at, ℕ, ◌≡◌, ◌≢◌, refl, ap, ◌∙◌, Bool, true, not, Option, none, some, List, ◌∷◌, All, any,
  count, find?, length, is_none, String, ok, arith, ◌==◌, ==_refl, ltb, require, value_error,
  lookup_error, runtime_error, >>=-eq-ok, raise_if-eq-ok, require-eq-ok,
}
use pulse_crm.Purchases.{
  is_active, PurchaseSchedule, Task, PurchaseTaskResult, PurchaseStore, Purchase, no_zone,
  same_occurrence, new_schedule, insert_schedule, create_purchase_schedule, own_schedule, own_task,
  new_task, linked, create_task, settle_task, ensure_purchase_task,
}

-- The task that a schedule names exists in its workspace.
unfoldable pub has_task : List Task → ℕ → Option ℕ → Bool
has_task tasks workspace_id none = true
has_task tasks workspace_id (some id) = any (own_task workspace_id id) tasks

abbrev pub is_linked : PurchaseSchedule → Bool
is_linked x = not (is_none x.task_id)

-- The schedules' tasks exist, and each schedule with a task has had one reminder.
abbrev pub IsLinked : PurchaseStore → Type 0
IsLinked s =
    Distinct PurchaseSchedule.id s.schedules
    × All (λ x. has_task s.tasks x.workspace_id x.task_id ≡ true) s.schedules
    × (count is_linked s.schedules ≡ length s.events)

has_task-cons :
    (t : Task) (tasks : List Task) (workspace_id : ℕ) (o : Option ℕ)
    → has_task tasks workspace_id o ≡ true
    → has_task (t ∷ tasks) workspace_id o ≡ true
unfolding has_task any
has_task-cons t tasks workspace_id none h = refl
has_task-cons t tasks workspace_id (some id) h = ground (arith, h)

has_task-new :
    (id workspace_id : ℕ) (title : String) (x : PurchaseSchedule) (tasks : List Task)
    → has_task (new_task id workspace_id title x ∷ tasks) workspace_id (some id) ≡ true
unfolding has_task any own_task
has_task-new id workspace_id title x tasks =
    let i = ==_refl id in let w = ==_refl workspace_id in ground (arith, i, w)

insert_schedule-IsLinked :
    (o : Option PurchaseSchedule) (id : ℕ) (p : Purchase) (scheduled_for remind_at : ℕ)
    (s : PurchaseStore)
    → All (λ y. id ≢ y.id) s.schedules
    → IsLinked s
    → IsLinked (insert_schedule o (new_schedule id p scheduled_for remind_at) s).2
unfolding insert_schedule has_task count
insert_schedule-IsLinked none id p scheduled_for remind_at s fresh (d, tasks, n) =
    ((fresh, d), (refl, tasks), omega (arith, n))
insert_schedule-IsLinked (some old) id p scheduled_for remind_at s fresh h = h

create_purchase_schedule-IsLinked :
    (id : ℕ) (p : Purchase) (x : PurchaseSchedule) (created : Bool) (s s' : PurchaseStore)
    → All (λ y. id ≢ y.id) s.schedules
    → create_purchase_schedule id p s ≡ ok (x, created, s')
    → IsLinked s
    → IsLinked s'
unfolding create_purchase_schedule
create_purchase_schedule-IsLinked id p x created s s' fresh h inv =
    let (at_time, a, h1) =
      >>=-eq-ok (require (aware_at p.scheduled_for) (value_error no_zone)) _ h in
    let (due, b, h2) = >>=-eq-ok (require (aware_at p.remind_at) (value_error no_zone)) _ h1 in
    let late = value_error "purchase reminder cannot be after the expected purchase" in
    let (c, h3) = raise_if-eq-ok (ltb at_time due) late _ h2 in
    let o = find? (same_occurrence p.workspace_id p.deal_id at_time) s.schedules in
    let result : insert_schedule o (new_schedule id p at_time due) s ≡ (x, created, s') =
      ground (arith, h3) in
    let kept = insert_schedule-IsLinked o id p at_time due s fresh inv in rw result at kept

module _ (str : ℕ → String) (task_id now workspace_id : ℕ) (title : String) where
  create_task-IsLinked :
      (x : PurchaseSchedule) (s : PurchaseStore)
      → Memᴰ x s.schedules
      → x.workspace_id ≡ workspace_id
      → x.task_id ≡ none
      → IsLinked s
      → IsLinked (create_task str task_id now workspace_id title x s).1
  unfolding create_task
  create_task-IsLinked x s m own free (d, tasks, n) =
      let taken : PurchaseSchedule → Bool = λ y. y.id == x.id in
      let task = new_task task_id workspace_id title x in
      (
        update-Distinct PurchaseSchedule.id taken (linked task_id now) (λ y t. refl) s.schedules d,
        update-All_from (λ y. has_task (task ∷ s.tasks) y.workspace_id y.task_id ≡ true)
            (λ y. (Memᴰ y s.schedules) × (has_task s.tasks y.workspace_id y.task_id ≡ true)) taken
            (linked task_id now)
            (λ y t (my, h).
              let same : y ≡ x =
                Distinct-eq PurchaseSchedule.id s.schedules d my m (ground (arith, t)) in
              let w : y.workspace_id ≡ workspace_id = ap PurchaseSchedule.workspace_id same ∙ own in
              rw w (has_task-new task_id workspace_id title x s.tasks))
            (λ y t (my, h). has_task-cons task s.tasks y.workspace_id y.task_id h) s.schedules
            (All-of_mem _ s.schedules (λ y my. (my, All-mem _ tasks my))),
        count-update_one PurchaseSchedule.id is_linked (linked task_id now) s.schedules {x = x} d m
              (rw free refl) refl
            ∙ omega (arith, n),
      )

  settle_task-IsLinked :
      (x : PurchaseSchedule) (o : Option ℕ) (s : PurchaseStore) (r : PurchaseTaskResult)
      (s' : PurchaseStore)
      → Memᴰ x s.schedules
      → x.workspace_id ≡ workspace_id
      → x.task_id ≡ o
      → settle_task str task_id now workspace_id title x o s ≡ ok (r, s')
      → IsLinked s
      → IsLinked s'
  unfolding settle_task
  settle_task-IsLinked x none s r s' m own e h inv =
      let kept = create_task-IsLinked x s m own e inv in
      let result : create_task str task_id now workspace_id title x s ≡ (r, s') =
        ground (arith, h) in
      rw result at kept
  settle_task-IsLinked x (some old) s r s' m own e h inv =
      let gone = runtime_error "purchase schedule references a missing task" in
      let (task, found, done) =
        >>=-eq-ok (require (find? (own_task workspace_id old) s.tasks) gone) _ h in
      let same : s ≡ s' = ground (arith, done) in rw same at inv

  ensure_purchase_task-IsLinked :
      (schedule_id : ℕ) (r : PurchaseTaskResult) (s s' : PurchaseStore)
      → ensure_purchase_task str task_id now workspace_id schedule_id title s ≡ ok (r, s')
      → IsLinked s
      → IsLinked s'
  unfolding ensure_purchase_task own_schedule
  ensure_purchase_task-IsLinked schedule_id r s s' h inv =
      let mine = own_schedule workspace_id schedule_id in
      let unknown = lookup_error "purchase schedule not found" in
      let (x, found, h1) = >>=-eq-ok (require (find? mine s.schedules) unknown) _ h in
      let closed = value_error "purchase schedule is not active" in
      let (c, h2) = raise_if-eq-ok (not (is_active x.status)) closed _ h1 in
      let found' = require-eq-ok (find? mine s.schedules) unknown found in
      let own = find?-test mine s.schedules found' in
      settle_task-IsLinked x x.task_id s r s' (find?-mem mine s.schedules found')
        (ground (arith, own)) refl h2 inv

module _ (str : ℕ → String) where
  pub data PurchaseStep (s : PurchaseStore) : PurchaseStore → Type 0 where
    scheduled :
        (id : ℕ) (p : Purchase) (x : PurchaseSchedule) (created : Bool) (s' : PurchaseStore)
        → All (λ y. id ≢ y.id) s.schedules
        → create_purchase_schedule id p s ≡ ok (x, created, s')
        → PurchaseStep s s'
    ensured :
        (task_id now workspace_id schedule_id : ℕ) (title : String) (r : PurchaseTaskResult)
        (s' : PurchaseStore)
        → ensure_purchase_task str task_id now workspace_id schedule_id title s ≡ ok (r, s')
        → PurchaseStep s s'

  -- Every creation of a schedule with a fresh identifier and every run of the scheduler keeps the
  -- identifiers distinct, the task of every schedule that names one in its workspace, and as many
  -- reminders as there are schedules with a task.
  pub PurchaseStep-IsLinked : (s s' : PurchaseStore) → PurchaseStep s s' → IsLinked s → IsLinked s'
  PurchaseStep-IsLinked s _ (scheduled id p x created s' fresh h) inv =
      create_purchase_schedule-IsLinked id p x created s s' fresh h inv
  PurchaseStep-IsLinked s _ (ensured task_id now workspace_id schedule_id title r s' h) inv =
      ensure_purchase_task-IsLinked str task_id now workspace_id title schedule_id r s s' h inv
