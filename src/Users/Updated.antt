-- ===== src/Users/Updated.antt =====
-- What an accepted update of a member changes, and what it may not change.
use mathlib.Core.List.{Memᴰ}
use pulse_crm.Prelude.{ℕ, ◌+◌, ◌≡◌, ◌≢◌, true, false, some, List}
use pulse_crm.Models.{Role, owner, admin, Membership}
use pulse_crm.Access.{Context}
use pulse_crm.Users.{Store, UserUpdate}

abbrev pub IsOrdinary : Role → Type 0
IsOrdinary r = (r ≢ owner) × (r ≢ admin)

pub record IsUpdated (s : Store) (c : Context) (user_id : ℕ) (p : UserUpdate)
    (meanwhile : List Membership) (s' : Store) (m' : Membership) : Type 0 where
  pub member : Membership
  pub row : Membership
  pub listed : Memᴰ member s.memberships
  pub inside : member.workspace_id ≡ c.workspace_id
  pub of_user : member.user_id ≡ user_id
  pub current : Memᴰ row meanwhile
  pub same_key : row.id ≡ member.id
  pub expected : row.version ≡ p.expected_version
  pub asked : p.role_given ≡ true → p.role ≡ some m'.role
  pub kept : p.role_given ≡ false → m'.role ≡ row.role
  pub written :
      (m'.id ≡ row.id)
      × (m'.user_id ≡ row.user_id)
      × (m'.workspace_id ≡ row.workspace_id)
      × (m'.version ≡ row.version + 1)
  pub stored : Memᴰ m' s'.memberships
  pub others : (x : Membership) → Memᴰ x meanwhile → x.id ≢ row.id → Memᴰ x s'.memberships
  pub peers : c.role ≡ admin → IsOrdinary member.role
  pub grants : c.role ≡ admin → p.role_given ≡ true → IsOrdinary m'.role
  pub self : user_id ≡ c.user_id → p.role_given ≡ true → m'.role ≡ member.role
