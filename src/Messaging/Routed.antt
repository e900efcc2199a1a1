-- ===== src/Messaging/Routed.antt =====
-- A reply goes out by the newest open conversation of its deal.
use mathlib.Core.List.{Memᴰ}
use pulse_crm.Prelude.{
  ℕ, ◌≤◌, ◌+◌, ◌≡◌, ◌≢◌, strip, is_blank, text_length, false, none, some, [], ◌∷◌,
}
use pulse_crm.Models.{Deal}
use pulse_crm.Events.{text, number, record_domain_event}
use pulse_crm.Messaging.{
  active, active_conversation, outbound, queued, kind_text, ChannelConnection, Conversation,
  Message, MessageStore, Reply, precedes,
}

-- Whether a conversation, with its connection, is one that the reply may take.
pub record IsOpenRoute (s : MessageStore) (r : Reply) (x : Conversation) (y : ChannelConnection)
    : Type 0 where
  pub listed : Memᴰ x s.conversations
  pub own : x.workspace_id ≡ r.workspace_id
  pub of_the_deal : x.deal_id ≡ some r.deal_id
  pub live : x.status ≡ active_conversation
  pub asked : (id : ℕ) → r.conversation_id ≡ some id → x.id ≡ id
  pub connection_listed : Memᴰ y s.connections
  pub connected : y.id ≡ x.channel_connection_id
  pub connection_own : y.workspace_id ≡ r.workspace_id
  pub connection_open : y.status ≡ active

-- What a reply that was queued found and wrote.
pub record IsRouted (id now : ℕ) (r : Reply) (s : MessageStore) (m : Message)
    (y : ChannelConnection) (s' : MessageStore) : Type 0 where
  pub conversation : Conversation
  pub route : IsOpenRoute s r conversation y
  pub first :
      (x : Conversation) (z : ChannelConnection)
      → IsOpenRoute s r x z
      → precedes x conversation ≡ false
  pub deal : Deal
  pub deal_listed : Memᴰ deal s.deals
  pub deal_is :
      (deal.id ≡ r.deal_id) × (deal.workspace_id ≡ r.workspace_id) × (deal.deleted_at ≡ none)
  pub deal_assignee : (u : ℕ) → r.required_deal_assignee_id ≡ some u → deal.assignee_id ≡ some u
  pub sized : (is_blank m.body ≡ false) × (text_length m.body ≤ 10000)
  pub message_is : m ≡ record {
    id = id;
    workspace_id = r.workspace_id;
    conversation_id = conversation.id;
    direction = outbound;
    status = queued;
    body = strip r.body;
    channel = kind_text y.kind;
    created_at = now;
    updated_at = now;
  }
  pub messages : s'.messages ≡ m ∷ s.messages
  pub touched :
      Memᴰ
        (record conversation { last_message_at = some now; version = conversation.version + 1 })
        s'.conversations
  pub others :
      (x : Conversation) → Memᴰ x s.conversations → x.id ≢ conversation.id → Memᴰ x s'.conversations
  pub event :
      s'.journal
      ≡ record_domain_event
          (record {
            workspace_id = r.workspace_id;
            event_type = "message.outbound.queued";
            entity_type = "message";
            entity_id = id;
            actor_id = some r.actor_id;
            payload =
                ("conversation_id", number conversation.id)
                ∷ ("deal_id", number r.deal_id)
                ∷ ("channel_connection_id", number y.id)
                ∷ ("channel", text (kind_text y.kind))
                ∷ [];
          })
          s.journal
