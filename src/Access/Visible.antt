-- ===== src/Access/Visible.antt =====
-- What the access conditions mean, without reference to the queries.
use mathlib.Core.List.{Memᴰ}
use pulse_crm.Prelude.Table.Laws.{find?-test}
use pulse_crm.Prelude.Table.Members.{Distinct, find?-eq-some, find?-mem, any-mem, mem-any}
use pulse_crm.Prelude.{
  ℕ, ◌≡◌, refl, sym, ◌∙◌, ◌↔◌, ◌⊎◌, inl, inr, Bool, true, false, ◌&&◌, ◌||◌, Option, none, some,
  arith, ◌==◌, is_none, Bool-cases, Option-cases, find?, any, require-eq-ok, ok, http,
}
use pulse_crm.Models.{employee, User, Membership, Deal, Contact, Company, Task}
use pulse_crm.Access.{
  Context, Directory, is_employee, deal_access_condition, company_access_condition, own_deal_of,
  visible_contact_of, ensure_deal_access, active_member, Target, deal, task, other, target_visible,
  by_role, notification_target_access_allowed,
}

-- A live deal of the caller's workspace, which an employee has to be assigned to.
pub record SeesDeal (c : Context) (x : Deal) : Type 0 where
  pub inside : x.workspace_id ≡ c.workspace_id
  pub live : x.deleted_at ≡ none
  pub own : c.role ≡ employee → x.assignee_id ≡ some c.user_id

deal_test : Context → ℕ → Deal → Bool
deal_test c entity_id x =
    x.id == entity_id
    && x.workspace_id == c.workspace_id
    && is_none x.deleted_at
    && deal_access_condition c x

deal_test_iff :
    (c : Context) (entity_id : ℕ) (x : Deal)
    → (deal_test c entity_id x ≡ true) ↔ ((x.id ≡ entity_id) × SeesDeal c x)
unfolding deal_test deal_access_condition
deal_test_iff c entity_id x = ground arith

-- Access to a deal is given exactly for the live deal of that id in the caller's workspace, and to an
-- employee only if the deal is assigned to them. Ids are unique.
pub ensure_deal_access_iff :
    (d : Directory) (c : Context) (entity_id : ℕ) (x : Deal)
    → Distinct (λ (y : Deal). y.id) d.deals
    → (ensure_deal_access d c entity_id ≡ ok x)
      ↔ (Memᴰ x d.deals × (x.id ≡ entity_id) × SeesDeal c x)
unfolding ensure_deal_access deal_test
ensure_deal_access_iff d c entity_id x unique =
    let test = deal_test c entity_id in
    (
      λ e.
          let found : find? test d.deals ≡ some x = require-eq-ok _ (http 404 "deal not found") e in
          let (same, sees) = (deal_test_iff c entity_id x).0 (find?-test test d.deals found) in
          (find?-mem test d.deals found, same, sees),
      λ h.
          let found : find? test d.deals ≡ some x =
            find?-eq-some (λ (y : Deal). y.id) test d.deals unique h.0
              ((deal_test_iff c entity_id x).1 (h.1, h.2))
              (λ y t. ((deal_test_iff c entity_id y).0 t).0 ∙ sym h.1) in
          rw found,
    )

-- A live deal of the workspace that links the caller to the company, and such a contact.
pub record LinksDeal (c : Context) (company : Company) (x : Deal) : Type 0 where
  pub sees : SeesDeal c x
  pub of : x.company_id ≡ some company.id
  pub mine : x.assignee_id ≡ some c.user_id

pub record LinksContact (c : Context) (company : Company) (x : Contact) : Type 0 where
  pub inside : x.workspace_id ≡ c.workspace_id
  pub live : x.deleted_at ≡ none
  pub of : x.company_id ≡ some company.id
  pub mine : x.assignee_id ≡ some c.user_id

abbrev pub Linked : Directory → Context → Company → Type 0
Linked d c company =
    ((x : Deal) × Memᴰ x d.deals × LinksDeal c company x)
    ⊎ ((x : Contact) × Memᴰ x d.contacts × LinksContact c company x)

own_deal_of_iff :
    (c : Context) (company : Company) (x : Deal)
    → (own_deal_of c company x ≡ true) ↔ LinksDeal c company x
unfolding own_deal_of
own_deal_of_iff c company x = ground arith

visible_contact_of_iff :
    (c : Context) (company : Company) (x : Contact)
    → c.role ≡ employee
    → (visible_contact_of c company x ≡ true) ↔ LinksContact c company x
unfolding visible_contact_of
visible_contact_of_iff c company x e = ground arith

Linked-test :
    (d : Directory) (c : Context) (company : Company)
    → c.role ≡ employee
    → (any (own_deal_of c company) d.deals || any (visible_contact_of c company) d.contacts) ≡ true
    → Linked d c company
Linked-test d c company e h = elim (Bool-cases (any (own_deal_of c company) d.deals)) [
  | inl hit ↦
      let (x, m, t) = any-mem (own_deal_of c company) d.deals hit in
      inl (x, m, (own_deal_of_iff c company x).0 t)
  | inr miss ↦
      let (x, m, t) = any-mem (visible_contact_of c company) d.contacts (ground arith) in
      inr (x, m, (visible_contact_of_iff c company x e).0 t)
]

-- An employee sees exactly the companies to which a live deal or contact of the workspace that is
-- assigned to them belongs; the other roles see every company.
pub company_access_condition_iff :
    (d : Directory) (c : Context) (company : Company)
    → (company_access_condition d c company ≡ true) ↔ (c.role ≡ employee → Linked d c company)
unfolding company_access_condition
company_access_condition_iff d c company = elim (Bool-cases (is_employee c)) [
  | inl e ↦ (
    λ h r. Linked-test d c company r (ground arith),
    λ f. ground (arith, complete (f (ground arith)) (ground arith)),
  )
  | inr o ↦ (λ h r. absurd (ground arith), λ f. ground arith)
]
  where
    complete :
        Linked d c company
        → c.role ≡ employee
        → (any (own_deal_of c company) d.deals || any (visible_contact_of c company) d.contacts)
          ≡ true
    complete (inl (x, m, l)) r =
        rw (mem-any (own_deal_of c company) d.deals m ((own_deal_of_iff c company x).1 l))
    complete (inr (x, m, l)) r =
        let hit =
          mem-any (visible_contact_of c company) d.contacts m
            ((visible_contact_of_iff c company x r).1 l) in
        ground arith

-- The entity of a target is a live deal, or a task, of the workspace that is assigned to the recipient.
abbrev pub Owns : Directory → ℕ → ℕ → Target → ℕ → Type 0
Owns d workspace_id recipient deal entity_id =
    (x : Deal) × Memᴰ x d.deals
    × (x.id ≡ entity_id)
    × (x.workspace_id ≡ workspace_id)
    × (x.deleted_at ≡ none)
    × (x.assignee_id ≡ some recipient)
Owns d workspace_id recipient task entity_id =
    (x : Task) × Memᴰ x d.tasks
    × (x.id ≡ entity_id)
    × (x.workspace_id ≡ workspace_id)
    × (x.assignee_id ≡ recipient)
Owns d workspace_id recipient other entity_id = ⊥

target_visible-Owns :
    (d : Directory) (workspace_id recipient : ℕ) (kind : Target) (entity_id : ℕ)
    → target_visible d workspace_id recipient kind entity_id ≡ true
    → Owns d workspace_id recipient kind entity_id
unfolding target_visible
target_visible-Owns d workspace_id recipient deal entity_id h =
    let (x, m, t) = any-mem _ d.deals h in
    (x, m, ground arith, ground arith, ground arith, ground arith)
target_visible-Owns d workspace_id recipient task entity_id h =
    let (x, m, t) = any-mem _ d.tasks h in (x, m, ground arith, ground arith, ground arith)
target_visible-Owns d workspace_id recipient other entity_id h = cc

active_member_parts :
    (d : Directory) (workspace_id recipient : ℕ) (m : Membership)
    → active_member d workspace_id recipient m ≡ true
    → (m.workspace_id ≡ workspace_id)
      × (m.user_id ≡ recipient)
      × (any (λ x. x.id == m.user_id && x.is_active) d.users ≡ true)
unfolding active_member
active_member_parts d workspace_id recipient m h = ground arith

no_member :
    (d : Directory) (workspace_id recipient : ℕ) (kind : Target) (entity : Option ℕ)
    → by_role d workspace_id recipient kind entity none ≡ false
unfolding by_role
no_member d workspace_id recipient kind entity = refl

-- Why a notification may be delivered.
pub record MayReceive (d : Directory) (workspace_id recipient : ℕ) (kind : Target)
    (entity : Option ℕ) : Type 0 where
  pub member : Membership
  pub listed : Memᴰ member d.memberships
  pub inside : member.workspace_id ≡ workspace_id
  pub is_recipient : member.user_id ≡ recipient
  pub user : User
  pub registered : Memᴰ user d.users
  pub same_user : user.id ≡ recipient
  pub active : user.is_active ≡ true
  pub own :
      member.role ≡ employee → (e : ℕ) × (entity ≡ some e) × Owns d workspace_id recipient kind e

employee_owns :
    (d : Directory) (workspace_id recipient : ℕ) (kind : Target) (entity : Option ℕ)
    (m : Membership)
    → by_role d workspace_id recipient kind entity (some m) ≡ true
    → m.role ≡ employee
    → (e : ℕ) × (entity ≡ some e) × Owns d workspace_id recipient kind e
unfolding by_role
employee_owns d workspace_id recipient kind none m h r = absurd (ground arith)
employee_owns d workspace_id recipient kind (some e) m h r =
    (e, refl, target_visible-Owns d workspace_id recipient kind e (ground arith))

-- A notification is allowed only to a recipient who is an active member of the workspace, and to an
-- employee only about a live deal or a task of the workspace that is assigned to them.
pub notification_target_access_allowed_sound :
    (d : Directory) (workspace_id : ℕ) (recipient_id : Option ℕ) (kind : Target) (entity : Option ℕ)
    → notification_target_access_allowed d workspace_id recipient_id kind entity ≡ true
    → (r : ℕ) × (recipient_id ≡ some r) × MayReceive d workspace_id r kind entity
unfolding notification_target_access_allowed
notification_target_access_allowed_sound d workspace_id none kind entity h = cc
notification_target_access_allowed_sound d workspace_id (some r) kind entity h =
    elim (Option-cases (find? (active_member d workspace_id r) d.memberships)) [
      | inl missing ↦ cc (
        no_member d workspace_id r kind entity,
        rw (missing, notification_target_access_allowed) at h,
      )
      | inr (m, found) ↦
          let test = find?-test (active_member d workspace_id r) d.memberships found in
          let (inside, is_recipient, joined) = active_member_parts d workspace_id r m test in
          let (u, registered, t) = any-mem (λ x. x.id == m.user_id && x.is_active) d.users joined in
          let allowed : by_role d workspace_id r kind entity (some m) ≡ true =
            rw (found, notification_target_access_allowed) at h in
          (
            r,
            refl,
            record {
              member = m;
              listed = find?-mem (active_member d workspace_id r) d.memberships found;
              inside = inside;
              is_recipient = is_recipient;
              user = u;
              registered = registered;
              same_user = ground arith;
              active = ground arith;
              own = employee_owns d workspace_id r kind entity m allowed;
            },
          )
    ]
