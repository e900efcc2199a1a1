-- ===== src/Webhooks/Inbound.antt =====
-- backend/app/integrations/webhooks.py, `accept_inbound_event`: the insertion of an event that was
-- authenticated. The payload, a JSON object, is its text. The database is PostgreSQL or SQLite.
use pulse_crm.Prelude.{
  ℕ, String, str_eq, strip, is_blank, is_text, Bool, true, false, not, ◌&&◌, ◌||◌, Option, none,
  some, List, ◌∷◌, ◌==◌, find?, any, Result, ok, value_error, runtime_error, raise_if, require,
  ◌>>=◌, ◌>>◌,
}
use pulse_crm.Webhooks.{VerifiedWebhook}

pub data InboundStatus : Type 0 where
  accepted processing processed failed : InboundStatus

pub record InboundEvent : Type 0 where
  pub id : ℕ
  pub workspace_id : ℕ
  pub channel_connection_id : Option ℕ
  pub source_key : String
  pub external_event_id : Option String
  pub idempotency_key : Option String
  pub request_digest : String
  pub payload : String
  pub status : InboundStatus
  pub received_at : ℕ

pub record InboundAcceptance : Type 0 where
  pub event : InboundEvent
  pub created : Bool

-- The keyword arguments of `accept_inbound_event`.
pub record InboundRequest : Type 0 where
  pub workspace_id : ℕ
  pub source_key : String
  pub verified : VerifiedWebhook
  pub payload : String
  pub channel_connection_id : Option ℕ
  pub external_event_id : Option String

unfoldable pub of_source : InboundRequest → InboundEvent → Bool
of_source r x = x.workspace_id == r.workspace_id && str_eq x.source_key r.source_key

-- The two unique keys.
unfoldable pub same_key : InboundRequest → InboundEvent → Bool
same_key r x = of_source r x && is_text x.idempotency_key r.verified.idempotency_key

unfoldable pub same_external : InboundRequest → String → InboundEvent → Bool
same_external r external x = of_source r x && is_text x.external_event_id external

unfoldable pub has_external : InboundRequest → Option String → InboundEvent → Bool
has_external r none x = false
has_external r (some external) x = same_external r external x

unfoldable pub conflicts : InboundRequest → InboundEvent → Bool
conflicts r x = same_key r x || has_external r r.external_event_id x

abbrev pub new_event : ℕ → ℕ → InboundRequest → InboundEvent
new_event id now r = record {
  id = id;
  workspace_id = r.workspace_id;
  channel_connection_id = r.channel_connection_id;
  source_key = r.source_key;
  external_event_id = r.external_event_id;
  idempotency_key = some r.verified.idempotency_key;
  request_digest = r.verified.request_digest;
  payload = r.payload;
  status = accepted;
  received_at = now;
}

-- The second query, for a provider's event identifier.
unfoldable pub find_external :
    InboundRequest → Option String → List InboundEvent → Option InboundEvent
find_external r none events = none
find_external r (some external) events = find? (same_external r external) events

unfoldable pub find_accepted :
    InboundRequest → Option InboundEvent → List InboundEvent → Option InboundEvent
find_accepted r (some x) events = some x
find_accepted r none events = find_external r r.external_event_id events

abbrev pub reused : String
reused = "Idempotency-Key was already used for another payload"

unfoldable pub settle_event :
    Option InboundEvent
    → InboundRequest
    → List InboundEvent
    → Result (InboundAcceptance × List InboundEvent)
settle_event found r events = do
  x ← require found (runtime_error "deduplicated inbound event could not be loaded")
  raise_if (not (str_eq x.request_digest r.verified.request_digest)) (value_error reused)
  ok (record { event = x; created = false }, events)

-- `INSERT .. ON CONFLICT DO NOTHING`, on either key.
unfoldable pub insert_event :
    Bool
    → ℕ
    → ℕ
    → InboundRequest
    → List InboundEvent
    → Result (InboundAcceptance × List InboundEvent)
insert_event true id now r events =
    settle_event (find_accepted r (find? (same_key r) events) events) r events
insert_event false id now r events =
    ok (record { event = new_event id now r; created = true }, new_event id now r ∷ events)

unfoldable pub accept_inbound_event :
    ℕ → ℕ → InboundRequest → List InboundEvent → Result (InboundAcceptance × List InboundEvent)
accept_inbound_event id now r events = do
  raise_if (is_blank (strip r.source_key)) (value_error "source_key must not be empty")
  insert_event (any (conflicts r) events) id now r events
