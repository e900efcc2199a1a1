-- ===== src/Messaging/Tests.antt =====
-- A deal with two conversations, of which the later is answered.
use pulse_crm.Prelude.{none, some, [], ◌∷◌}
use pulse_crm.Access.Tests.{offer}
use pulse_crm.Events.{no_events}
use pulse_crm.Messaging.{
  telegram, active, active_conversation, ChannelConnection, Conversation, ConversationRoute,
  MessageStore, Reply,
}

abbrev bot : ChannelConnection
bot = record { id = 8; workspace_id = 1; kind = telegram; status = active }

abbrev old_thread : Conversation
old_thread = record {
  id = 31;
  workspace_id = 1;
  channel_connection_id = 8;
  deal_id = some 7;
  status = active_conversation;
  last_message_at = none;
  updated_at = 90;
  version = 1;
}

abbrev thread : Conversation
thread = record old_thread { id = 32; last_message_at = some 50 }

abbrev store : MessageStore
store = record {
  deals = offer ∷ [];
  connections = bot ∷ [];
  conversations = old_thread ∷ thread ∷ [];
  messages = [];
  journal = no_events;
}

abbrev reply : Reply
reply = record {
  workspace_id = 1;
  deal_id = 7;
  actor_id = 5;
  body = " Hello ";
  conversation_id = none;
  required_deal_assignee_id = some 5;
}

abbrev route : ConversationRoute
route = record { conversation = thread; connection = bot }
