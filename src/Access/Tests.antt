-- ===== src/Access/Tests.antt =====
-- The access rules in a workspace of two members.
use mathlib.Core.List.{Memᴰ}
use pulse_crm.Prelude.{ℕ, ◌≡◌, refl, ◌↔◌, true, none, some, [], ◌∷◌, ok, any, find?}
use pulse_crm.Models.{employee, Deal, Company}
use pulse_crm.Access.{
  Context, Directory, ensure_deal_access, company_access_condition, deal,
  notification_target_access_allowed, active_member, target_visible, by_role,
}
use pulse_crm.Access.Visible.{
  SeesDeal, ensure_deal_access_iff, Linked, company_access_condition_iff, MayReceive,
  notification_target_access_allowed_sound,
}

abbrev pub seller : Context
seller = record { workspace_id = 1; user_id = 5; role = employee }

abbrev pub offer : Deal
offer = record {
  id = 7;
  workspace_id = 1;
  pipeline_id = 2;
  stage_id = 21;
  company_id = some 3;
  assignee_id = some 5;
  source_id = none;
  title = "Offer";
  amount = none;
  custom_fields = [];
  next_purchase_at = none;
  last_activity_at = 10;
  updated_at = 10;
  version = 1;
  deleted_at = none;
}

abbrev buyer : Company
buyer = record { id = 3; workspace_id = 1; deleted_at = none }

abbrev pub directory : Directory
directory = record {
  users = record { id = 5; email = "eva@example.test"; full_name = "Eva"; is_active = true } ∷ [];
  memberships = record { id = 2; workspace_id = 1; user_id = 5; role = employee; version = 1 } ∷ [];
  deals = offer ∷ [];
  contacts =
      record {
        id = 9;
        workspace_id = 1;
        company_id = some 3;
        assignee_id = some 5;
        deleted_at = none;
      }
      ∷ [];
  companies = buyer ∷ [];
  tasks = [];
}

ensure_deal_access_iff_example :
    (ensure_deal_access directory seller 7 ≡ ok offer)
    ↔ (Memᴰ offer (offer ∷ []) × (offer.id ≡ 7) × SeesDeal seller offer)
ensure_deal_access_iff_example = ensure_deal_access_iff directory seller 7 offer (tt, tt)

company_access_condition_iff_example :
    (company_access_condition directory seller buyer ≡ true)
    ↔ (employee ≡ employee → Linked directory seller buyer)
company_access_condition_iff_example = company_access_condition_iff directory seller buyer

notification_target_access_allowed_sound_example :
    (r : ℕ) × (some 5 ≡ some r) × MayReceive directory 1 r deal (some 7)
unfolding notification_target_access_allowed by_role find? active_member any target_visible
notification_target_access_allowed_sound_example =
    notification_target_access_allowed_sound directory 1 (some 5) deal (some 7) refl
