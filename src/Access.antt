-- ===== src/Access.antt =====
-- backend/app/services/access.py: who may see and change which record. A condition of the source
-- is a Boolean function of the row, and a query that may lock its row reads the same.
pub mod Visible
pub mod Tests
use pulse_crm.Prelude.{
  ℕ, String, Bool, true, false, not, ◌&&◌, ◌||◌, Option, none, some, List, ◌==◌, is_eq, is_none,
  str_eq, if◌then◌else◌, find?, any, Result, ok, err, http, raise_if, require, ◌>>=◌,
}
use pulse_crm.Models.{Role, is_employee_role, User, Membership, Deal, Contact, Company, Task}

-- The parts of an `AuthContext` that decide access.
pub record Context : Type 0 where
  pub workspace_id : ℕ
  pub user_id : ℕ
  pub role : Role

pub record Directory : Type 0 where
  pub users : List User
  pub memberships : List Membership
  pub deals : List Deal
  pub contacts : List Contact
  pub companies : List Company
  pub tasks : List Task

abbrev pub is_employee : Context → Bool
is_employee c = is_employee_role c.role

unfoldable pub deal_access_condition : Context → Deal → Bool
deal_access_condition c deal =
    if not (is_employee c) then true else is_eq deal.assignee_id c.user_id

unfoldable pub task_access_condition : Context → Task → Bool
task_access_condition c task = if not (is_employee c) then true else task.assignee_id == c.user_id

unfoldable pub contact_access_condition : Context → Contact → Bool
contact_access_condition c contact =
    if not (is_employee c) then true else is_eq contact.assignee_id c.user_id

-- The two correlated subqueries of a company's condition.
own_deal_of : Context → Company → Deal → Bool
own_deal_of c company deal =
    deal.workspace_id == c.workspace_id
    && is_eq deal.company_id company.id
    && is_none deal.deleted_at
    && is_eq deal.assignee_id c.user_id

visible_contact_of : Context → Company → Contact → Bool
unfolding contact_access_condition
visible_contact_of c company contact =
    contact.workspace_id == c.workspace_id
    && is_eq contact.company_id company.id
    && is_none contact.deleted_at
    && contact_access_condition c contact

unfoldable pub company_access_condition : Directory → Context → Company → Bool
unfolding own_deal_of visible_contact_of
company_access_condition d c company =
    if not (is_employee c)
    then true
    else any (own_deal_of c company) d.deals || any (visible_contact_of c company) d.contacts

unfoldable pub forbid_employee : Context → Result (Unit {0})
forbid_employee c = raise_if (is_employee c) (http 403 "insufficient role")

unfoldable pub ensure_deal_access : Directory → Context → ℕ → Result Deal
unfolding deal_access_condition
ensure_deal_access d c entity_id =
    require
      (find?
        (λ x.
          x.id == entity_id
          && x.workspace_id == c.workspace_id
          && is_none x.deleted_at
          && deal_access_condition c x)
        d.deals)
      (http 404 "deal not found")

unfoldable pub ensure_contact_access : Directory → Context → ℕ → Result Contact
unfolding contact_access_condition
ensure_contact_access d c entity_id =
    require
      (find?
        (λ x.
          x.id == entity_id
          && x.workspace_id == c.workspace_id
          && is_none x.deleted_at
          && contact_access_condition c x)
        d.contacts)
      (http 404 "contact not found")

unfoldable pub ensure_task_access : Directory → Context → ℕ → Result Task
unfolding task_access_condition
ensure_task_access d c entity_id =
    require
      (find?
        (λ x. x.id == entity_id && x.workspace_id == c.workspace_id && task_access_condition c x)
        d.tasks)
      (http 404 "task not found")

unfoldable pub ensure_company_access : Directory → Context → ℕ → Result Company
unfolding company_access_condition
ensure_company_access d c entity_id =
    require
      (find?
        (λ x.
          x.id == entity_id
          && x.workspace_id == c.workspace_id
          && is_none x.deleted_at
          && company_access_condition d c x)
        d.companies)
      (http 404 "company not found")

-- `JOIN users ON users.id = memberships.user_id WHERE … users.is_active`.
unfoldable pub active_member : Directory → ℕ → ℕ → Membership → Bool
active_member d workspace_id user_id m =
    m.workspace_id == workspace_id
    && m.user_id == user_id
    && any (λ u. u.id == m.user_id && u.is_active) d.users

-- The kinds of entity that a notification may point at.
pub data Target : Type 0 where
  deal task : Target
  other : Target

unfoldable pub target_visible : Directory → ℕ → ℕ → Target → ℕ → Bool
target_visible d workspace_id recipient_id deal entity_id =
    any
      (λ x.
        x.id == entity_id
        && x.workspace_id == workspace_id
        && is_none x.deleted_at
        && is_eq x.assignee_id recipient_id)
      d.deals
target_visible d workspace_id recipient_id task entity_id =
    any (λ x. x.id == entity_id && x.workspace_id == workspace_id && x.assignee_id == recipient_id)
      d.tasks
target_visible d workspace_id recipient_id other entity_id = false

employee_target : Directory → ℕ → ℕ → Target → Option ℕ → Bool
employee_target d workspace_id recipient_id kind none = false
employee_target d workspace_id recipient_id kind (some entity_id) =
    target_visible d workspace_id recipient_id kind entity_id

unfoldable pub by_role : Directory → ℕ → ℕ → Target → Option ℕ → Option Membership → Bool
unfolding employee_target
by_role d workspace_id recipient_id kind entity none = false
by_role d workspace_id recipient_id kind entity (some m) =
    if not (is_employee_role m.role)
    then true
    else employee_target d workspace_id recipient_id kind entity

unfoldable pub notification_target_access_allowed :
    Directory → ℕ → Option ℕ → Target → Option ℕ → Bool
notification_target_access_allowed d workspace_id none kind entity = false
notification_target_access_allowed d workspace_id (some recipient) kind entity =
    by_role d workspace_id recipient kind entity
      (find? (active_member d workspace_id recipient) d.memberships)
