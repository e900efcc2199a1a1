-- ===== src/Messaging.antt =====
-- backend/app/integrations/messaging.py: a reply to the customer of a deal, through the channel by
-- which the deal came. Of rows that the order does not tell apart the first is taken. The settings of
-- a connection and the participant of a conversation play no part.
pub mod Order
pub mod Routes
pub mod Routed
mod Tests
use pulse_crm.Prelude.{
  ℕ, ◌+◌, String, str_eq, strip, is_blank, text_length, Bool, true, false, not, ◌&&◌, ◌||◌, Option,
  none, some, List, [], ◌∷◌, ◌==◌, ltb, is_none, is_eq, opt_eq, if◌then◌else◌, select, find?,
  update, Result, ok, value_error, lookup_error, raise_if, require, ◌>>=◌, ◌>>◌,
}
use pulse_crm.Models.{Deal}
use pulse_crm.Events.{text, number, ActivityEvent, Journal, record_domain_event}

pub data ChannelKind : Type 0 where
  email telegram max_messenger internal : ChannelKind

abbrev pub kind_text : ChannelKind → String
kind_text email = "email"
kind_text telegram = "telegram"
kind_text max_messenger = "max"
kind_text internal = "internal"

pub data ConnectionStatus : Type 0 where
  disabled active degraded : ConnectionStatus

pub data ConversationStatus : Type 0 where
  active_conversation closed review_needed : ConversationStatus

pub data MessageDirection : Type 0 where
  inbound outbound : MessageDirection

pub data MessageStatus : Type 0 where
  received queued sent failed : MessageStatus

pub record ChannelConnection : Type 0 where
  pub id : ℕ
  pub workspace_id : ℕ
  pub kind : ChannelKind
  pub status : ConnectionStatus

pub record Conversation : Type 0 where
  pub id : ℕ
  pub workspace_id : ℕ
  pub channel_connection_id : ℕ
  pub deal_id : Option ℕ
  pub status : ConversationStatus
  pub last_message_at : Option ℕ
  pub updated_at : ℕ
  pub version : ℕ

-- The metadata of a message is its channel.
pub record Message : Type 0 where
  pub id : ℕ
  pub workspace_id : ℕ
  pub conversation_id : ℕ
  pub direction : MessageDirection
  pub status : MessageStatus
  pub body : String
  pub channel : String
  pub created_at : ℕ
  pub updated_at : ℕ

pub record ConversationRoute : Type 0 where
  pub conversation : Conversation
  pub connection : ChannelConnection

pub record MessageStore : Type 0 where
  pub deals : List Deal
  pub connections : List ChannelConnection
  pub conversations : List Conversation
  pub messages : List Message
  pub journal : Journal

-- The arguments of `queue_outbound_message`.
pub record Reply : Type 0 where
  pub workspace_id : ℕ
  pub deal_id : ℕ
  pub actor_id : ℕ
  pub body : String
  pub conversation_id : Option ℕ
  pub required_deal_assignee_id : Option ℕ

abbrev pub is_active_connection : ConnectionStatus → Bool
is_active_connection active = true
is_active_connection _ = false

abbrev pub is_active_conversation : ConversationStatus → Bool
is_active_conversation active_conversation = true
is_active_conversation _ = false

-- A condition that stands only where a value is given.
abbrev pub is_required : Option ℕ → ℕ → Bool
is_required none x = true
is_required (some wanted) x = x == wanted

abbrev pub assigned_to : Option ℕ → Option ℕ → Bool
assigned_to none x = true
assigned_to (some wanted) x = is_eq x wanted

unfoldable pub live_deal : ℕ → ℕ → Option ℕ → Deal → Bool
live_deal workspace_id deal_id required_assignee_id x =
    x.id == deal_id
    && x.workspace_id == workspace_id
    && is_none x.deleted_at
    && assigned_to required_assignee_id x.assignee_id

unfoldable pub ensure_deal : List Deal → ℕ → ℕ → Option ℕ → Result Deal
ensure_deal deals workspace_id deal_id required_assignee_id =
    require (find? (live_deal workspace_id deal_id required_assignee_id) deals)
      (lookup_error "deal not found")

-- The join with the connection, which is found by its key.
unfoldable pub usable : ℕ → ChannelConnection → Bool
usable workspace_id x = x.workspace_id == workspace_id && is_active_connection x.status

unfoldable pub connection_of : ℕ → List ChannelConnection → Conversation → Option ChannelConnection
connection_of workspace_id connections x =
    find? (λ y. y.id == x.channel_connection_id && usable workspace_id y) connections

unfoldable pub of_deal : ℕ → ℕ → Option ℕ → Conversation → Bool
of_deal workspace_id deal_id conversation_id x =
    x.workspace_id == workspace_id
    && is_eq x.deal_id deal_id
    && is_active_conversation x.status
    && is_required conversation_id x.id

-- The rows of the query, with their connections.
unfoldable pub add_route :
    Option ChannelConnection → Conversation → List ConversationRoute → List ConversationRoute
add_route none x rest = rest
add_route (some y) x rest = record { conversation = x; connection = y } ∷ rest

unfoldable pub routes : ℕ → List ChannelConnection → List Conversation → List ConversationRoute
routes workspace_id connections [] = []
routes workspace_id connections (x ∷ xs) =
    add_route (connection_of workspace_id connections x) x (routes workspace_id connections xs)

-- `ORDER BY last_message_at DESC NULLS LAST, updated_at DESC`: whether the first comes strictly first.
unfoldable pub before_time : Option ℕ → Option ℕ → Bool
before_time none b = false
before_time (some a) none = true
before_time (some a) (some b) = ltb b a

unfoldable pub precedes : Conversation → Conversation → Bool
precedes x y =
    before_time x.last_message_at y.last_message_at
    || (opt_eq x.last_message_at y.last_message_at && ltb y.updated_at x.updated_at)

-- `LIMIT 1`.
unfoldable pub better : ConversationRoute → Option ConversationRoute → ConversationRoute
better x none = x
better x (some y) = if precedes y.conversation x.conversation then y else x

unfoldable pub first_route : List ConversationRoute → Option ConversationRoute
first_route [] = none
first_route (x ∷ xs) = some (better x (first_route xs))

unfoldable pub candidates : MessageStore → ℕ → ℕ → Option ℕ → List ConversationRoute
candidates s workspace_id deal_id conversation_id =
    routes workspace_id s.connections
      (select (of_deal workspace_id deal_id conversation_id) s.conversations)

unfoldable pub resolve_origin_conversation :
    MessageStore → ℕ → ℕ → Option ℕ → Result ConversationRoute
resolve_origin_conversation s workspace_id deal_id conversation_id =
    require (first_route (candidates s workspace_id deal_id conversation_id))
      (value_error "deal has no active origin-channel conversation")

abbrev pub new_message : ℕ → ℕ → Reply → ConversationRoute → Message
new_message id now r route = record {
  id = id;
  workspace_id = r.workspace_id;
  conversation_id = route.conversation.id;
  direction = outbound;
  status = queued;
  body = strip r.body;
  channel = kind_text route.connection.kind;
  created_at = now;
  updated_at = now;
}

abbrev pub answered : ℕ → Conversation → Conversation
answered now x = record x { last_message_at = some now; version = x.version + 1 }

abbrev pub message_queued : ℕ → Reply → ConversationRoute → ActivityEvent
message_queued id r route = record {
  workspace_id = r.workspace_id;
  event_type = "message.outbound.queued";
  entity_type = "message";
  entity_id = id;
  actor_id = some r.actor_id;
  payload =
      ("conversation_id", number route.conversation.id)
      ∷ ("deal_id", number r.deal_id)
      ∷ ("channel_connection_id", number route.connection.id)
      ∷ ("channel", text (kind_text route.connection.kind))
      ∷ [];
}

unfoldable pub write_message : ℕ → ℕ → Reply → ConversationRoute → MessageStore → MessageStore
write_message id now r route s = record s {
  conversations = update (λ x. x.id == route.conversation.id) (answered now) s.conversations;
  messages = new_message id now r route ∷ s.messages;
  journal = record_domain_event (message_queued id r route) s.journal;
}

unfoldable pub queue_outbound_message :
    ℕ → ℕ → Reply → MessageStore → Result (Message × ChannelConnection × MessageStore)
queue_outbound_message id now r s = do
  raise_if (is_blank (strip r.body) || ltb 10000 (text_length (strip r.body)))
      (value_error "message body must contain between 1 and 10000 characters")
  route ← resolve_origin_conversation s r.workspace_id r.deal_id r.conversation_id
  raise_if (not (is_eq route.conversation.deal_id r.deal_id))
      (value_error "origin-channel conversation moved to another deal")
  deal ← ensure_deal s.deals r.workspace_id r.deal_id r.required_deal_assignee_id
  ok (new_message id now r route, route.connection, write_message id now r route s)
