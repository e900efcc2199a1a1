-- ===== src/Purchases/Tests.antt =====
-- A purchase that is scheduled and then handled by two runs of the scheduler.
use pulse_crm.Prelude.{ℕ, ◌≡◌, refl, String, true, false, none, [], ◌∷◌, ok, aware, find?, count}
use pulse_crm.Purchases.{
  PurchaseSchedule, PurchaseTaskResult, PurchaseStore, Purchase, own_schedule, new_schedule,
  create_purchase_schedule, ensure_purchase_task, insert_schedule,
}
use pulse_crm.Purchases.Linked.{scheduled, IsLinked, PurchaseStep-IsLinked, has_task}
use pulse_crm.Purchases.Ensured.{IsEnsured, ensure_purchase_task_again}

abbrev named : ℕ → String
named id = "id"

abbrev purchase : Purchase
purchase = record {
  workspace_id = 1;
  deal_id = 4;
  contact_id = none;
  assignee_id = 2;
  scheduled_for = aware 900;
  remind_at = aware 800;
}

abbrev schedule : PurchaseSchedule
schedule = new_schedule 7 purchase 900 800

abbrev empty : PurchaseStore
empty = record { schedules = []; tasks = []; events = [] }

abbrev planned : PurchaseStore
planned = record { schedules = schedule ∷ []; tasks = []; events = [] }

PurchaseStep-IsLinked_example : IsLinked planned
unfolding create_purchase_schedule insert_schedule find? count
PurchaseStep-IsLinked_example =
    PurchaseStep-IsLinked named empty planned (scheduled 7 purchase schedule true planned tt refl)
      (tt, tt, refl)

ensure_purchase_task_again_example :
    (r : PurchaseTaskResult) × (s' : PurchaseStore) × (ensure_purchase_task named 30 850 1 7 "Call"
        planned
      ≡ ok (r, s'))
    × IsEnsured named 1 schedule planned r s'
    × (ensure_purchase_task named 31 860 1 7 "Again" s' ≡ ok (record r { created = false }, s'))
unfolding has_task count find? own_schedule
ensure_purchase_task_again_example =
    ensure_purchase_task_again named 30 850 31 860 1 7 "Call" "Again" schedule planned
      ((tt, tt), (refl, tt), refl) refl refl
