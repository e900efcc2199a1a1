-- ===== src/Users.antt =====
-- backend/app/api/auth.py: an owner or an administrator changes another member's name or role.
pub mod Owners
pub mod Updated
mod Tests
use pulse_crm.Prelude.{
  ℕ, ◌+◌, String, Bool, true, false, not, ◌&&◌, ◌||◌, Option, none, some, List, [], ◌∷◌, leb, ◌==◌,
  if◌then◌else◌, or_else, is_none, find?, any, count, update, Result, ok, err, http, raise_if,
  require, ◌>>=◌, ◌>>◌,
}
use pulse_crm.Models.{Role, owner, admin, is_owner, is_admin, role_eq, User, Membership}
use pulse_crm.Access.{Context}
use pulse_crm.Events.{Journal, record_audit_event, record_access_change, flag, text}

pub record Store : Type 0 where
  pub users : List User
  pub memberships : List Membership
  pub journal : Journal

-- `role_given` is `"role" in payload.model_fields_set`.
pub record UserUpdate : Type 0 where
  pub role_given : Bool
  pub role : Option Role
  pub full_name : Option String
  pub expected_version : ℕ

abbrev pub role_text : Role → String
role_text owner = "owner"
role_text admin = "admin"
role_text Role.manager = "manager"
role_text Role.employee = "employee"

unfoldable pub is_active_owner : List User → ℕ → Membership → Bool
is_active_owner users workspace_id m =
    m.workspace_id == workspace_id
    && is_owner m.role
    && any (λ (u : User). u.id == m.user_id && u.is_active) users

unfoldable pub active_owner_count : Store → ℕ → ℕ
active_owner_count s workspace_id = count (is_active_owner s.users workspace_id) s.memberships

abbrev pub is_elevated : Role → Bool
is_elevated r = is_owner r || is_admin r

unfoldable pub requested_role : UserUpdate → Membership → Result Role
requested_role p m =
    if p.role_given then require p.role (http 422 "role cannot be null") else ok m.role

-- What the caller may not do to the member, in the order of the checks.
unfoldable pub check_roles : Store → Context → ℕ → Membership → Role → Result (Unit {0})
check_roles s c user_id m requested = do
  raise_if (is_admin c.role && is_elevated m.role)
      (http 403 "administrators cannot edit owners or other administrators")
  raise_if (is_admin c.role && is_elevated requested)
      (http 403 "only the workspace owner can assign elevated roles")
  raise_if (user_id == c.user_id && not (role_eq requested m.role))
      (http 409 "self_role_change_forbidden")
  raise_if
      (is_owner m.role && not (is_owner requested) && leb (active_owner_count s c.workspace_id) 1)
      (http 409 "last_owner_required")

-- The row that the update takes, and its new values.
unfoldable pub is_current : Context → Membership → ℕ → Membership → Bool
is_current c m expected x =
    x.id == m.id && x.workspace_id == c.workspace_id && x.version == expected

unfoldable pub with_role : UserUpdate → Role → Membership → Membership
with_role p requested x = record x {
  role = if p.role_given then requested else x.role;
  version = p.expected_version + 1;
}

unfoldable pub rename : Option String → ℕ → List User → List User
rename none user_id users = users
rename (some name) user_id users =
    update (λ u. u.id == user_id) (λ u. record u { full_name = name }) users

unfoldable pub noted : Context → ℕ → UserUpdate → Membership → Role → Journal → Journal
noted c user_id p m requested journal =
    record_access_change c.workspace_id (some user_id ∷ []) "all" (
      record_audit_event
        (record {
          workspace_id = c.workspace_id;
          event_type = "user.updated";
          entity_type = "user";
          entity_id = user_id;
          actor_id = some c.user_id;
          payload =
              ("full_name_changed", flag (not (is_none p.full_name)))
              ∷ ("role_changed", flag (not (role_eq requested m.role)))
              ∷ ("role", text (role_text requested))
              ∷ [];
        })
        journal)

-- The statement of the update, and what follows it in the transaction.
-- `meanwhile` are the memberships as other requests have committed them since the checks.
unfoldable pub write_user :
    Store
    → Context
    → User
    → UserUpdate
    → Membership
    → Role
    → List Membership
    → Result (Membership × Store)
write_user s c user p m requested meanwhile = do
  let hit = is_current c m p.expected_version
  updated ← require (find? hit meanwhile) (http 409 "version_conflict")
  ok (
    with_role p requested updated,
    record {
      users = rename p.full_name user.id s.users;
      memberships = update hit (with_role p requested) meanwhile;
      journal = noted c user.id p m requested s.journal;
    },
  )

unfoldable pub update_user :
    Store → Context → ℕ → UserUpdate → List Membership → Result (Membership × Store)
update_user s c user_id p meanwhile = do
  user ← require (find? (λ u. u.id == user_id && u.is_active) s.users) (http 404 "user not found")
  m ←
      require (find? (λ m. m.workspace_id == c.workspace_id && m.user_id == user_id) s.memberships)
        (http 404 "user not found")
  requested ← requested_role p m
  check_roles s c user_id m requested
  write_user s c user p m requested meanwhile
