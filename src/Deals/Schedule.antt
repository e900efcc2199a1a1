-- ===== src/Deals/Schedule.antt =====
-- backend/app/api/crm.py, `_sync_purchase_schedule`: the schedule of the next purchase follows the
-- date of the deal. Dates are in UTC, in microseconds; the time of a task's change is left out.
use pulse_crm.Prelude.{
  ℕ, suc, ◌-◌, Bool, true, false, not, ◌&&◌, ◌||◌, Option, none, some, List, [], ◌∷◌, ◌==◌, ltb,
  or_else, if◌then◌else◌, select, find?, update, aware, Result, ok, http, raise_if, ◌>>=◌, ◌>>◌,
}
use pulse_crm.Models.{Deal}
use pulse_crm.Events.{
  text, number, ActivityEvent, Journal, record_domain_event, record_access_change,
}
use pulse_crm.Purchases.{
  cancelled, is_active, TaskStatus, open_task, completed_task, cancelled_task, PurchaseSchedule,
  Task, Purchase, PurchaseStore, own_task, create_purchase_schedule,
}
use pulse_crm.Deals.{DealContact}

pub record ScheduleStore : Type 0 where
  pub purchases : PurchaseStore
  pub deal_contacts : List DealContact
  pub journal : Journal

unfoldable pub active_of : Deal → PurchaseSchedule → Bool
active_of deal x = x.workspace_id == deal.workspace_id && x.deal_id == deal.id && is_active x.status

-- `ORDER BY is_primary DESC, created_at ASC LIMIT 1`.
unfoldable pub comes_first : DealContact → DealContact → Bool
comes_first x y =
    (x.is_primary && not y.is_primary)
    || (not (not x.is_primary && y.is_primary) && ltb x.created_at y.created_at)

unfoldable pub first_link : Deal → List DealContact → Option DealContact
first_link deal [] = none
first_link deal (x ∷ xs) =
    let rest = first_link deal xs in
    if x.workspace_id == deal.workspace_id && x.deal_id == deal.id
    then elim rest [ none ↦ some x | some y ↦ if comes_first y x then some y else some x ]
    else rest

unfoldable pub contact_of : Option DealContact → Option ℕ
contact_of none = none
contact_of (some x) = some x.contact_id

abbrev pub is_open : TaskStatus → Bool
is_open open_task = true
is_open completed_task = false
is_open cancelled_task = false

unfoldable pub find_task : ℕ → Option ℕ → List Task → Option Task
find_task workspace_id none tasks = none
find_task workspace_id (some id) tasks =
    find? (λ t. own_task workspace_id id t && is_open t.status) tasks

abbrev pub cancel : PurchaseSchedule → PurchaseSchedule
cancel x = record x { status = cancelled; version = suc x.version }

abbrev pub cancel_in : PurchaseSchedule → ScheduleStore → ScheduleStore
cancel_in x s = record s {
  purchases = record s.purchases {
    schedules = update (λ y. y.id == x.id) cancel s.purchases.schedules;
  };
}

abbrev pub is_foreign : Option ℕ → Task → Bool
is_foreign none t = false
is_foreign (some required) t = not (t.assignee_id == required)

unfoldable pub refuse_task : Option Task → Option ℕ → Result (Unit {0})
refuse_task none required = ok tt
refuse_task (some t) required = raise_if (is_foreign required t) (http 404 "task not found")

abbrev pub task_updated : Deal → ℕ → Task → ActivityEvent
task_updated deal actor_id t = record {
  workspace_id = deal.workspace_id;
  event_type = "task.updated";
  entity_type = "task";
  entity_id = t.id;
  actor_id = some actor_id;
  payload = ("fields", text "assignee_id") ∷ ("deal_id", number deal.id) ∷ [];
}

unfoldable pub assign_task : Deal → ℕ → ℕ → Option Task → ScheduleStore → ScheduleStore
assign_task deal actor_id assignee_id none s = s
assign_task deal actor_id assignee_id (some t) s =
    if t.assignee_id == assignee_id then s else record s {
      purchases = record s.purchases {
        tasks =
            update (λ u. u.id == t.id)
              (λ u. record u { assignee_id = assignee_id; version = suc u.version })
              s.purchases.tasks;
      };
      journal =
          record_access_change deal.workspace_id (some t.assignee_id ∷ some assignee_id ∷ []) "task"
            (record_domain_event (task_updated deal actor_id t) s.journal);
    }

abbrev pub realigned : Option ℕ → ℕ → PurchaseSchedule → PurchaseSchedule
realigned contact_id assignee_id x = record x { contact_id = contact_id; assignee_id = assignee_id }

unfoldable pub align_schedule :
    Deal → ℕ → ℕ → Option ℕ → Option ℕ → PurchaseSchedule → ScheduleStore → Result ScheduleStore
align_schedule deal actor_id assignee_id contact_id required x s = do
  let task = find_task deal.workspace_id x.task_id s.purchases.tasks
  refuse_task task required
  ok (
      assign_task deal actor_id assignee_id task (record s {
        purchases = record s.purchases {
          schedules =
              update (λ y. y.id == x.id) (realigned contact_id assignee_id) s.purchases.schedules;
        };
      }))

unfoldable pub cancel_all : List PurchaseSchedule → ScheduleStore → ScheduleStore
cancel_all [] s = s
cancel_all (x ∷ xs) s = cancel_all xs (cancel_in x s)

-- The date of the reminder is a week before.
abbrev pub purchase_of : Deal → ℕ → Option ℕ → ℕ → Purchase
purchase_of deal assignee_id contact_id scheduled_for = record {
  workspace_id = deal.workspace_id;
  deal_id = deal.id;
  contact_id = contact_id;
  assignee_id = assignee_id;
  scheduled_for = aware scheduled_for;
  remind_at = aware (scheduled_for - 604800000000);
}

unfoldable pub create_schedule : ℕ → Deal → ℕ → Option ℕ → ℕ → ScheduleStore → Result ScheduleStore
create_schedule id deal assignee_id contact_id scheduled_for s = do
  (schedule, created, purchases) ←
      create_purchase_schedule id (purchase_of deal assignee_id contact_id scheduled_for)
        s.purchases
  ok (record s { purchases = purchases })

-- The loop over the active schedules, and what follows it.
unfoldable pub sync_active :
    ℕ
    → Deal
    → ℕ
    → ℕ
    → Option ℕ
    → Option ℕ
    → ℕ
    → List PurchaseSchedule
    → ScheduleStore
    → Result ScheduleStore
sync_active id deal actor_id assignee_id contact_id required scheduled_for [] s =
    create_schedule id deal assignee_id contact_id scheduled_for s
sync_active id deal actor_id assignee_id contact_id required scheduled_for (x ∷ xs) s =
    elim (x.scheduled_for == scheduled_for) [
      | true ↦ align_schedule deal actor_id assignee_id contact_id required x s
      | false ↦
          sync_active id deal actor_id assignee_id contact_id required scheduled_for xs
            (cancel_in x s)
    ]

unfoldable pub sync_to :
    ℕ → Deal → ℕ → ℕ → Option ℕ → Option ℕ → ScheduleStore → Result ScheduleStore
sync_to id deal actor_id fallback_assignee_id required none s =
    ok (cancel_all (select (active_of deal) s.purchases.schedules) s)
sync_to id deal actor_id fallback_assignee_id required (some scheduled_for) s =
    sync_active id deal actor_id (or_else deal.assignee_id fallback_assignee_id)
      (contact_of (first_link deal s.deal_contacts)) required scheduled_for
      (select (active_of deal) s.purchases.schedules) s

unfoldable pub sync_purchase_schedule :
    ℕ → Deal → ℕ → ℕ → Option ℕ → ScheduleStore → Result ScheduleStore
sync_purchase_schedule id deal fallback_assignee_id actor_id required s =
    sync_to id deal actor_id fallback_assignee_id required deal.next_purchase_at s
