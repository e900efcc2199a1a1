-- ===== src/Users/Tests.antt =====
-- An owner makes another owner an employee.
use pulse_crm.Prelude.{
  ◌<◌, ◌≡◌, refl, true, none, some, [], ◌∷◌, arith, ok, count, any, update, find?,
}
use mathlib.Core.List.{Memᴰ}
use pulse_crm.Prelude.Table.Members.{Distinct-eq}
use pulse_crm.Models.{owner, employee, Membership}
use pulse_crm.Access.{Context}
use pulse_crm.Events.{no_events}
use pulse_crm.Users.{
  Store, UserUpdate, active_owner_count, noted, update_user, is_active_owner, check_roles, rename,
  is_current, with_role, write_user, requested_role,
}
use pulse_crm.Users.Owners.{update_user-keeps_owner}

abbrev chief : Membership
chief = record { id = 1; workspace_id = 1; user_id = 4; role = owner; version = 1 }

abbrev partner : Membership
partner = record { id = 2; workspace_id = 1; user_id = 5; role = owner; version = 3 }

abbrev store : Store
store = record {
  users =
      record { id = 4; email = "ann@example.test"; full_name = "Ann"; is_active = true }
      ∷ record { id = 5; email = "bob@example.test"; full_name = "Bob"; is_active = true }
      ∷ [];
  memberships = chief ∷ partner ∷ [];
  journal = no_events;
}

abbrev context : Context
context = record { workspace_id = 1; user_id = 4; role = owner }

abbrev demotion : UserUpdate
demotion = record {
  role_given = true;
  role = some employee;
  full_name = none;
  expected_version = 3;
}

abbrev demoted : Membership
demoted = record partner { role = employee; version = 4 }

abbrev after : Store
after = record store {
  memberships = chief ∷ demoted ∷ [];
  journal = noted context 5 demotion partner employee no_events;
}

demotes : update_user store context 5 demotion store.memberships ≡ ok (demoted, after)
unfolding update_user find? requested_role check_roles active_owner_count count is_active_owner any
    write_user is_current with_role rename update
demotes = refl

no_other_change :
    (x y : Membership)
    → Memᴰ x store.memberships
    → Memᴰ y store.memberships
    → y.user_id ≡ 5
    → x.id ≡ y.id
    → x.version ≡ 3
    → x ≡ y
no_other_change x y m k u same v =
    Distinct-eq (λ (z : Membership). z.id) store.memberships
      (((λ e. omega (arith, e)), tt), (tt, tt)) m k same

update_user-keeps_owner_example : 0 < active_owner_count after 1
unfolding active_owner_count count is_active_owner any
update_user-keeps_owner_example =
    update_user-keeps_owner store context 5 demotion store.memberships after demoted demotes
      (((λ e. omega (arith, e)), tt), (tt, tt)) no_other_change (omega arith) (omega arith)
