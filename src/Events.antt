-- ===== src/Events.antt =====
-- backend/app/services/events.py: the audit trail, the outbox and the realtime stream, three
-- tables to which the domain code appends in its own transaction. The newest row stands first.
pub mod Recorded
mod Tests
use pulse_crm.Prelude.{
  ℕ, String, Bool, true, false, Option, none, some, List, [], ◌∷◌, ◌++◌, map, leb, ltb, ◌==◌,
  if◌then◌else◌, any,
}

-- A payload, as the text values of its keys and numbers.
pub data Datum : Type 0 where
  text : String → Datum
  number : ℕ → Datum
  flag : Bool → Datum

abbrev pub Payload : Type 0
Payload = List (String × Datum)

pub record ActivityEvent : Type 0 where
  pub workspace_id : ℕ
  pub event_type : String
  pub entity_type : String
  pub entity_id : ℕ
  pub actor_id : Option ℕ
  pub payload : Payload

pub record OutboxEvent : Type 0 where
  pub workspace_id : ℕ
  pub event_type : String
  pub aggregate_type : String
  pub aggregate_id : ℕ
  pub payload : Payload

pub record RealtimeEvent : Type 0 where
  pub workspace_id : ℕ
  pub event_type : String
  pub payload : Payload

pub record Journal : Type 0 where
  pub activity : List ActivityEvent
  pub outbox : List OutboxEvent
  pub realtime : List RealtimeEvent

abbrev pub no_events : Journal
no_events = record { activity = []; outbox = []; realtime = [] }

abbrev pub outbox_of : ActivityEvent → OutboxEvent
outbox_of e = record {
  workspace_id = e.workspace_id;
  event_type = e.event_type;
  aggregate_type = e.entity_type;
  aggregate_id = e.entity_id;
  payload = e.payload;
}

-- A row that other services put into the outbox themselves, with the time from which it is due.
pub record ScheduledEvent : Type 0 where
  pub event : OutboxEvent
  pub available_at : ℕ

-- Only what a client needs to discard its copy: no business data.
abbrev pub realtime_of : ActivityEvent → RealtimeEvent
realtime_of e = record {
  workspace_id = e.workspace_id;
  event_type = e.event_type;
  payload = ("entity_type", text e.entity_type) ∷ ("entity_id", number e.entity_id) ∷ [];
}

unfoldable pub record_domain_event : ActivityEvent → Journal → Journal
record_domain_event e j = record {
  activity = e ∷ j.activity;
  outbox = outbox_of e ∷ j.outbox;
  realtime = realtime_of e ∷ j.realtime;
}

unfoldable pub record_audit_event : ActivityEvent → Journal → Journal
record_audit_event e j = record j { activity = e ∷ j.activity }

-- The set of the recipients that are not None, in order (`sorted(…, key=str)`).
unfoldable pub add_recipient : ℕ → List ℕ → List ℕ
add_recipient r [] = r ∷ []
add_recipient r (x ∷ xs) =
    let later = x ∷ add_recipient r xs in
    if ltb r x then r ∷ x ∷ xs else (if r == x then x ∷ xs else later)

unfoldable pub recipients : List (Option ℕ) → List ℕ
recipients [] = []
recipients (none ∷ rs) = recipients rs
recipients (some r ∷ rs) = add_recipient r (recipients rs)

abbrev pub access_changed : ℕ → String → ℕ → RealtimeEvent
access_changed workspace_id resource recipient_id = record {
  workspace_id = workspace_id;
  event_type = "access.changed";
  payload = ("recipient_id", number recipient_id) ∷ ("resource", text resource) ∷ [];
}

append_each : ℕ → String → List ℕ → List RealtimeEvent → List RealtimeEvent
append_each workspace_id resource [] stream = stream
append_each workspace_id resource (r ∷ rs) stream =
    append_each workspace_id resource rs (access_changed workspace_id resource r ∷ stream)

unfoldable pub record_access_change : ℕ → List (Option ℕ) → String → Journal → Journal
unfolding append_each
record_access_change workspace_id recipient_ids resource j = record j {
  realtime = append_each workspace_id resource (recipients recipient_ids) j.realtime;
}
