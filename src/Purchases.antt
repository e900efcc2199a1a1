-- ===== src/Purchases.antt =====
-- backend/app/integrations/purchases.py: the expected next purchase of a deal, scheduled once, with
-- one task and one reminder. The text of an identifier is the runtime's, so a parameter. The
-- database is PostgreSQL or SQLite: the error of another dialect is left out.
pub mod Linked
pub mod Ensured
mod Tests
use pulse_crm.Prelude.{
  ℕ, suc, String, str_eq, text_append, Bool, true, false, not, ◌&&◌, Option, none, some, List, [],
  ◌∷◌, ◌==◌, ltb, find?, update, Result, Datetime, aware_at, ok, value_error, runtime_error,
  lookup_error, raise_if, require, ◌>>=◌, ◌>>◌,
}
use pulse_crm.Events.{text, ScheduledEvent}

pub data PurchaseScheduleStatus : Type 0 where
  active completed cancelled : PurchaseScheduleStatus

abbrev pub is_active : PurchaseScheduleStatus → Bool
is_active active = true
is_active completed = false
is_active cancelled = false

pub data TaskStatus : Type 0 where
  open_task completed_task cancelled_task : TaskStatus

pub record PurchaseSchedule : Type 0 where
  pub id : ℕ
  pub workspace_id : ℕ
  pub deal_id : ℕ
  pub contact_id : Option ℕ
  pub assignee_id : ℕ
  pub task_id : Option ℕ
  pub scheduled_for : ℕ
  pub remind_at : ℕ
  pub status : PurchaseScheduleStatus
  pub reminder_enqueued_at : Option ℕ
  pub completed_at : Option ℕ
  pub version : ℕ

pub record Task : Type 0 where
  pub id : ℕ
  pub workspace_id : ℕ
  pub title : String
  pub description : Option String
  pub task_type : String
  pub status : TaskStatus
  pub due_at : ℕ
  pub remind_at : Option ℕ
  pub assignee_id : ℕ
  pub deal_id : Option ℕ
  pub contact_id : Option ℕ
  pub version : ℕ

pub record PurchaseTaskResult : Type 0 where
  pub schedule : PurchaseSchedule
  pub task : Task
  pub created : Bool

pub record PurchaseStore : Type 0 where
  pub schedules : List PurchaseSchedule
  pub tasks : List Task
  pub events : List ScheduledEvent

-- The keyword arguments of `create_purchase_schedule`.
pub record Purchase : Type 0 where
  pub workspace_id : ℕ
  pub deal_id : ℕ
  pub contact_id : Option ℕ
  pub assignee_id : ℕ
  pub scheduled_for : Datetime
  pub remind_at : Datetime

abbrev pub no_zone : String
no_zone = "purchase schedule timestamps must be timezone-aware"

-- The unique key of the table.
unfoldable pub same_occurrence : ℕ → ℕ → ℕ → PurchaseSchedule → Bool
same_occurrence workspace_id deal_id scheduled_for x =
    x.workspace_id == workspace_id && x.deal_id == deal_id && x.scheduled_for == scheduled_for

abbrev pub new_schedule : ℕ → Purchase → ℕ → ℕ → PurchaseSchedule
new_schedule id p scheduled_for remind_at = record {
  id = id;
  workspace_id = p.workspace_id;
  deal_id = p.deal_id;
  contact_id = p.contact_id;
  assignee_id = p.assignee_id;
  task_id = none;
  scheduled_for = scheduled_for;
  remind_at = remind_at;
  status = active;
  reminder_enqueued_at = none;
  completed_at = none;
  version = 1;
}

-- `ON CONFLICT DO NOTHING`: the schedule of that key, or the new one.
unfoldable pub insert_schedule :
    Option PurchaseSchedule
    → PurchaseSchedule
    → PurchaseStore
    → PurchaseSchedule × Bool × PurchaseStore
insert_schedule (some old) new s = (old, false, s)
insert_schedule none new s = (new, true, record s { schedules = new ∷ s.schedules })

unfoldable pub create_purchase_schedule :
    ℕ → Purchase → PurchaseStore → Result (PurchaseSchedule × Bool × PurchaseStore)
create_purchase_schedule id p s = do
  scheduled_for ← require (aware_at p.scheduled_for) (value_error no_zone)
  remind_at ← require (aware_at p.remind_at) (value_error no_zone)
  raise_if (ltb scheduled_for remind_at)
      (value_error "purchase reminder cannot be after the expected purchase")
  ok (
      insert_schedule (find? (same_occurrence p.workspace_id p.deal_id scheduled_for) s.schedules)
        (new_schedule id p scheduled_for remind_at) s)

unfoldable pub own_schedule : ℕ → ℕ → PurchaseSchedule → Bool
own_schedule workspace_id schedule_id x = x.id == schedule_id && x.workspace_id == workspace_id

unfoldable pub own_task : ℕ → ℕ → Task → Bool
own_task workspace_id task_id x = x.id == task_id && x.workspace_id == workspace_id

abbrev pub new_task : ℕ → ℕ → String → PurchaseSchedule → Task
new_task id workspace_id title schedule = record {
  id = id;
  workspace_id = workspace_id;
  title = title;
  description = some "Задача создана из даты следующей сделки.";
  task_type = "next_purchase";
  status = open_task;
  due_at = schedule.scheduled_for;
  remind_at = some schedule.remind_at;
  assignee_id = schedule.assignee_id;
  deal_id = some schedule.deal_id;
  contact_id = schedule.contact_id;
  version = 1;
}

abbrev pub linked : ℕ → ℕ → PurchaseSchedule → PurchaseSchedule
linked task_id now x = record x {
  task_id = some task_id;
  reminder_enqueued_at = some now;
  version = suc x.version;
}

module _ (str : ℕ → String) where
  unfoldable pub reminder : ℕ → PurchaseSchedule → Task → ScheduledEvent
  reminder workspace_id schedule task = record {
    event = record {
      workspace_id = workspace_id;
      event_type = "purchase.due_soon";
      aggregate_type = "purchase_schedule";
      aggregate_id = schedule.id;
      payload =
          ("schedule_id", text (str schedule.id))
          ∷ ("task_id", text (str task.id))
          ∷ (
            "dedupe_key",
            text (text_append "purchase-schedule:" (text_append (str schedule.id) ":reminder")),
          )
          ∷ [];
    };
    available_at = schedule.remind_at;
  }

  unfoldable pub create_task :
      ℕ → ℕ → ℕ → String → PurchaseSchedule → PurchaseStore → PurchaseTaskResult × PurchaseStore
  create_task task_id now workspace_id title x s =
      let schedule = linked task_id now x in
      let task = new_task task_id workspace_id title x in
      (
        record { schedule = schedule; task = task; created = true },
        record {
          schedules = update (λ y. y.id == x.id) (linked task_id now) s.schedules;
          tasks = task ∷ s.tasks;
          events = reminder workspace_id schedule task ∷ s.events;
        },
      )

  -- The branches on the task that the locked schedule names.
  unfoldable pub settle_task :
      ℕ
      → ℕ
      → ℕ
      → String
      → PurchaseSchedule
      → Option ℕ
      → PurchaseStore
      → Result (PurchaseTaskResult × PurchaseStore)
  settle_task task_id now workspace_id title x none s =
      ok (create_task task_id now workspace_id title x s)
  settle_task task_id now workspace_id title x (some old) s = do
    task ←
        require (find? (own_task workspace_id old) s.tasks)
          (runtime_error "purchase schedule references a missing task")
    ok (record { schedule = x; task = task; created = false }, s)

  unfoldable pub ensure_purchase_task :
      ℕ → ℕ → ℕ → ℕ → String → PurchaseStore → Result (PurchaseTaskResult × PurchaseStore)
  ensure_purchase_task task_id now workspace_id schedule_id title s = do
    x ←
        require (find? (own_schedule workspace_id schedule_id) s.schedules)
          (lookup_error "purchase schedule not found")
    raise_if (not (is_active x.status)) (value_error "purchase schedule is not active")
    settle_task task_id now workspace_id title x x.task_id s
