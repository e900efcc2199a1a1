-- ===== src/Deals/Tests.antt =====
-- A stage that requires a source, and a deal that moves to it.
use pulse_crm.Purchases.{
  cancelled, active, PurchaseSchedule, same_occurrence, insert_schedule, create_purchase_schedule,
}
use pulse_crm.Deals.Schedule.{
  ScheduleStore, cancel, active_of, sync_purchase_schedule, sync_to, sync_active, create_schedule,
  first_link, contact_of,
}
use pulse_crm.Deals.Settled.{IsAligned}
use pulse_crm.Deals.Aligned.{sync_purchase_schedule-IsAligned}
use pulse_crm.Prelude.{
  ℕ, ◌≤◌, count, ◌≡◌, refl, ◌⊎◌, none, some, List, [], ◌∷◌, All, arith, Error, err, ok, find?,
  select, is_blank, update, any, delete,
}
use pulse_crm.Models.{Deal}
use pulse_crm.Access.{ensure_deal_access, deal_access_condition}
use pulse_crm.Access.Tests.{seller, offer, directory}
use pulse_crm.Events.{no_events, number, record_domain_event}
use pulse_crm.Pipelines.{open_stage, Stage, board_event}
use pulse_crm.Deals.{
  StageRequiredField, StageTransition, DealStore, moved, stage_change, stage_changed,
  transition_deal_stage, in_pipeline, missing_fields, required_at, requirement_missing,
  built_in_missing, built_in_value, attribute, is_nil, if_blank, blank_value, move_deal,
  write_transition, unchanged, has_contact, custom_missing, custom_value, definition_of,
  active_definition,
}
use pulse_crm.Deals.Required.{
  RequiredFieldInput, new_required, replace_required_fields, own_stage, builtin_keys, key_of,
  is_supported, repeats, definition_ids, id_of,
}
use pulse_crm.Deals.Transition.{IsCarriedOut, transition_deal_stage-IsCarriedOut}
use pulse_crm.Deals.Again.{transition_deal_stage-conflict}
use pulse_crm.Deals.Enforced.{IsEnforced, replace_required_fields-IsEnforced}

abbrev sourced : Deal
sourced = record offer { source_id = some 4 }

abbrev negotiation : Stage
negotiation = record {
  id = 22;
  workspace_id = 1;
  pipeline_id = 2;
  name = "Negotiation";
  color = "#112233";
  position = 1;
  stage_type = open_stage;
  version = 1;
}

abbrev store : DealStore
store = record {
  directory = record directory { deals = sourced ∷ [] };
  deal_contacts = [];
  stages = negotiation ∷ [];
  required_fields = [];
  definitions = [];
  history = [];
  journal = no_events;
}

abbrev needs_source : List RequiredFieldInput
needs_source = record { field_definition_id = none; built_in_key = some "source_id" } ∷ []

abbrev demanding : DealStore
demanding = record store {
  required_fields =
      new_required 1 22 (record { field_definition_id = none; built_in_key = some "source_id" })
      ∷ [];
}

abbrev request : StageTransition
request = record { target_stage_id = 22; expected_version = 1 }

abbrev arrived : Deal
arrived = moved 50 22 1 sourced

abbrev moved_store : DealStore → DealStore
moved_store s = record s {
  directory = record directory { deals = arrived ∷ [] };
  history = stage_change 50 seller sourced 22 ∷ [];
  journal = record_domain_event (stage_changed seller sourced 22) s.journal;
}

arrives :
    transition_deal_stage 50 seller 7 request (sourced ∷ []) demanding
    ≡ ok (arrived, moved_store demanding)
unfolding transition_deal_stage ensure_deal_access deal_access_condition find? in_pipeline
    missing_fields select required_at requirement_missing is_blank built_in_missing built_in_value
    attribute is_nil if_blank blank_value move_deal write_transition unchanged update any
    has_contact custom_missing custom_value definition_of active_definition
arrives = refl

transition_deal_stage-IsCarriedOut_example :
    IsCarriedOut 50 seller 7 request (sourced ∷ []) demanding (moved_store demanding) arrived
transition_deal_stage-IsCarriedOut_example =
    transition_deal_stage-IsCarriedOut 50 seller 7 request (sourced ∷ []) demanding
      (moved_store demanding) arrived tt arrives

reads : ensure_deal_access demanding.directory seller 7 ≡ ok sourced
unfolding ensure_deal_access deal_access_condition find?
reads = refl

-- The second request read the deal before the first one moved it.
transition_deal_stage-conflict_example :
    ((e : Error) × (transition_deal_stage 60 seller 7 request (arrived ∷ []) demanding ≡ err e))
    ⊎ ((x : Deal) × (transition_deal_stage 60 seller 7 request (arrived ∷ []) demanding
          ≡ ok (x, demanding))
        × (x.stage_id ≡ 22))
transition_deal_stage-conflict_example =
    transition_deal_stage-conflict 50 60 seller seller 7 request request (sourced ∷ []) demanding
      (moved_store demanding) demanding arrived sourced (tt, tt) arrives reads (ground arith) refl

abbrev rows : List StageRequiredField
rows =
    new_required 1 22 (record { field_definition_id = none; built_in_key = some "source_id" }) ∷ []

abbrev after : DealStore
after = record store {
  required_fields = rows;
  journal =
      record_domain_event
        (board_event "stage.required_fields_changed" "stage" seller 22 (("count", number 1) ∷ []))
        no_events;
}

replaced : replace_required_fields seller 22 needs_source store ≡ ok (rows, after)
unfolding replace_required_fields find? own_stage any builtin_keys key_of is_blank is_supported
    repeats definition_ids id_of delete
replaced = refl

arrives_after :
    transition_deal_stage 50 seller 7 request (sourced ∷ []) after ≡ ok (arrived, moved_store after)
unfolding transition_deal_stage ensure_deal_access deal_access_condition find? in_pipeline
    missing_fields select required_at requirement_missing is_blank built_in_missing built_in_value
    attribute is_nil if_blank blank_value move_deal write_transition unchanged update any
    has_contact custom_missing custom_value definition_of active_definition
arrives_after = refl

replace_required_fields-IsEnforced_example :
    (deal : Deal) × (ensure_deal_access after.directory seller 7 ≡ ok deal)
    × All (IsEnforced after seller deal) needs_source
replace_required_fields-IsEnforced_example =
    replace_required_fields-IsEnforced seller seller 22 needs_source store after (moved_store after)
      rows 50 7 request (sourced ∷ []) arrived tt replaced refl refl arrives_after

-- The date of the deal goes back to one that was given up before.
abbrev given_up : PurchaseSchedule
given_up = record {
  id = 61;
  workspace_id = 1;
  deal_id = 7;
  contact_id = none;
  assignee_id = 5;
  task_id = none;
  scheduled_for = 1000000000000;
  remind_at = 395200000000;
  status = cancelled;
  reminder_enqueued_at = none;
  completed_at = none;
  version = 2;
}

abbrev planned : PurchaseSchedule
planned = record given_up {
  id = 62;
  scheduled_for = 2000000000000;
  remind_at = 1395200000000;
  status = active;
  version = 1;
}

abbrev dated : Deal
dated = record offer { next_purchase_at = some 1000000000000 }

abbrev schedules_before : ScheduleStore
schedules_before = record {
  purchases = record { schedules = planned ∷ given_up ∷ []; tasks = []; events = [] };
  deal_contacts = [];
  journal = no_events;
}

abbrev schedules_after : ScheduleStore
schedules_after = record schedules_before {
  purchases = record { schedules = cancel planned ∷ given_up ∷ []; tasks = []; events = [] };
}

dates_differ : (d : ℕ) → count (same_occurrence 1 7 d) (planned ∷ given_up ∷ []) ≤ 1
unfolding count same_occurrence
dates_differ d = ground arith

synchronized : sync_purchase_schedule 63 dated 5 5 none schedules_before ≡ ok schedules_after
unfolding sync_purchase_schedule sync_to sync_active select active_of update create_schedule
    create_purchase_schedule find? same_occurrence insert_schedule first_link contact_of
synchronized = refl

sync_purchase_schedule-IsAligned_example :
    IsAligned dated (some 1000000000000) schedules_before schedules_after
unfolding active_of count
sync_purchase_schedule-IsAligned_example =
    sync_purchase_schedule-IsAligned 63 dated 5 5 none schedules_before schedules_after
      ((((λ e. ground (arith, e)), tt), (tt, tt)), omega arith) dates_differ synchronized
