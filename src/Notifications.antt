-- ===== src/Notifications.antt =====
-- backend/app/integrations/notifications.py: a notification is queued once for its key, and to a
-- client only with their consent. The database is PostgreSQL or SQLite: the error of another dialect
-- is left out.
pub mod Template
pub mod RoundTrip
pub mod Consented
pub mod Once
mod Tests
use pulse_crm.Prelude.{
  ℕ, String, str_eq, Bool, true, false, not, ◌&&◌, ◌||◌, Option, none, some, List, [], ◌∷◌, ◌==◌,
  ltb, if◌then◌else◌, is_none, is_blank, strip, text_length, find?, any, or_else, Result, Error, ok,
  err, value_error, permission_error, raise_if, require, ◌>>=◌, ◌>>◌,
}
use pulse_crm.Consents.{ConsentStatus, granted, revoked, Consent}
use pulse_crm.Events.{text, number, OutboxEvent, ScheduledEvent}
use pulse_crm.Operations.{DeliveryStatus, pending}
use pulse_crm.Notifications.Template.{Variables, render_notification_template}

pub data NotificationAudience : Type 0 where
  to_employee to_client : NotificationAudience

abbrev pub is_client : NotificationAudience → Bool
is_client to_client = true
is_client to_employee = false

pub record NotificationTemplate : Type 0 where
  pub id : ℕ
  pub workspace_id : ℕ
  pub channel : String
  pub subject_template : Option String
  pub body_template : String

pub record NotificationRule : Type 0 where
  pub id : ℕ
  pub workspace_id : ℕ
  pub channel : String
  pub require_client_consent : Bool

pub record NotificationDelivery : Type 0 where
  pub id : ℕ
  pub workspace_id : ℕ
  pub rule_id : Option ℕ
  pub template_id : ℕ
  pub audience : NotificationAudience
  pub channel : String
  pub recipient_id : Option ℕ
  pub recipient_address : String
  pub subject : Option String
  pub body : String
  pub target_entity_type : Option String
  pub target_entity_id : Option ℕ
  pub status : DeliveryStatus
  pub dedupe_key : String
  pub scheduled_at : ℕ
  pub attempts : ℕ

-- The keyword arguments of `queue_notification`.
pub record Notice : Type 0 where
  pub workspace_id : ℕ
  pub template : NotificationTemplate
  pub rule : Option NotificationRule
  pub audience : NotificationAudience
  pub channel : String
  pub recipient_address : String
  pub dedupe_key : String
  pub variables : Variables
  pub scheduled_at : Option ℕ
  pub recipient_id : Option ℕ
  pub target_entity_type : Option String
  pub target_entity_id : Option ℕ
  pub contact_id : Option ℕ
  pub normalized_address : Option String
  pub consent_purpose : String

pub record Outbox : Type 0 where
  pub deliveries : List NotificationDelivery
  pub events : List ScheduledEvent

abbrev pub is_granted : ConsentStatus → Bool
is_granted granted = true
is_granted revoked = false

unfoldable pub active_consent : ℕ → ℕ → String → String → String → Consent → Bool
active_consent workspace_id contact_id channel normalized_address purpose x =
    x.workspace_id == workspace_id
    && x.contact_id == contact_id
    && str_eq x.channel channel
    && str_eq x.normalized_address normalized_address
    && str_eq x.purpose purpose
    && is_granted x.status
    && is_none x.revoked_at

unfoldable pub ensure_client_consent :
    List Consent → ℕ → ℕ → String → String → String → Result Consent
ensure_client_consent consents workspace_id contact_id channel normalized_address purpose =
    require
      (find? (active_consent workspace_id contact_id channel normalized_address purpose) consents)
      (value_error "client notification has no active consent")

-- The tests on the rule, where there is one.
abbrev pub rule_fails : (NotificationRule → Bool) → Option NotificationRule → Bool
rule_fails p none = false
rule_fails p (some rule) = p rule

unfoldable pub requires_consent : Notice → Bool
requires_consent n =
    is_client n.audience && not (rule_fails (λ r. not r.require_client_consent) n.rule)

unfoldable pub is_target : Option String → Option ℕ → Bool
is_target none none = true
is_target none (some id) = false
is_target (some kind) none = false
is_target (some kind) (some id) = str_eq kind "deal" || str_eq kind "task"

unfoldable pub check_notice : Notice → Result (Unit {0})
check_notice n = do
  raise_if
      (not (n.template.workspace_id == n.workspace_id)
        || rule_fails (λ r. not (r.workspace_id == n.workspace_id)) n.rule)
      (permission_error "notification configuration belongs to another workspace")
  raise_if
      (not (str_eq n.template.channel n.channel)
        || rule_fails (λ r. not (str_eq r.channel n.channel)) n.rule)
      (value_error "notification channel does not match its template or rule")
  raise_if
      (is_blank (strip n.recipient_address) || ltb 512 (text_length (strip n.recipient_address)))
      (value_error "invalid notification recipient address")
  raise_if (is_blank n.dedupe_key || ltb 255 (text_length n.dedupe_key))
      (value_error "invalid notification dedupe key")
  raise_if (not (is_target n.target_entity_type n.target_entity_id))
      (value_error "invalid notification target")

abbrev pub no_identity : Error
no_identity = value_error "client notification is missing consent identity"

unfoldable pub check_client_consent : List Consent → Notice → Result (Unit {0})
check_client_consent consents n = do
  contact_id ← require n.contact_id no_identity
  normalized_address ← require n.normalized_address no_identity
  raise_if (is_blank normalized_address) no_identity
  consent ←
      ensure_client_consent consents n.workspace_id contact_id n.channel normalized_address
        n.consent_purpose
  ok tt

unfoldable pub check_consent : List Consent → Notice → Result (Unit {0})
check_consent consents n = if requires_consent n then check_client_consent consents n else ok tt

-- `if template.subject_template`: an empty subject is none.
unfoldable pub render_subject : Option String → Variables → Result (Option String)
render_subject none variables = ok none
render_subject (some subject) variables =
    if is_blank subject
    then ok none
    else (do rendered ← render_notification_template subject variables; ok (some rendered))

unfoldable pub same_delivery : ℕ → String → NotificationDelivery → Bool
same_delivery workspace_id dedupe_key d =
    d.workspace_id == workspace_id && str_eq d.dedupe_key dedupe_key

unfoldable pub new_delivery : ℕ → ℕ → Notice → Option String → String → NotificationDelivery
new_delivery id due_at n subject body = record {
  id = id;
  workspace_id = n.workspace_id;
  rule_id = elim n.rule [ none ↦ none | some rule ↦ some rule.id ];
  template_id = n.template.id;
  audience = n.audience;
  channel = n.channel;
  recipient_id = n.recipient_id;
  recipient_address = strip n.recipient_address;
  subject = subject;
  body = body;
  target_entity_type = n.target_entity_type;
  target_entity_id = n.target_entity_id;
  status = pending;
  dedupe_key = n.dedupe_key;
  scheduled_at = due_at;
  attempts = 0;
}

abbrev pub queued_event : NotificationDelivery → ScheduledEvent
queued_event d = record {
  event = record {
    workspace_id = d.workspace_id;
    event_type = "notification.delivery.queued";
    aggregate_type = "notification_delivery";
    aggregate_id = d.id;
    payload =
        ("delivery_id", number d.id)
        ∷ ("channel", text d.channel)
        ∷ ("scheduled_at", number d.scheduled_at)
        ∷ [];
  };
  available_at = d.scheduled_at;
}

-- `ON CONFLICT DO NOTHING`: the delivery of that key, or the new one with its event.
unfoldable pub insert_delivery :
    Option NotificationDelivery
    → NotificationDelivery
    → Outbox
    → NotificationDelivery × Bool × Outbox
insert_delivery (some old) new out = (old, false, out)
insert_delivery none new out = (
  new,
  true,
  record { deliveries = new ∷ out.deliveries; events = queued_event new ∷ out.events },
)

unfoldable pub queue_notification :
    ℕ → ℕ → List Consent → Notice → Outbox → Result (NotificationDelivery × Bool × Outbox)
queue_notification id now consents n out = do
  check_notice n
  check_consent consents n
  subject ← render_subject n.template.subject_template n.variables
  body ← render_notification_template n.template.body_template n.variables
  ok (
      insert_delivery (find? (same_delivery n.workspace_id n.dedupe_key) out.deliveries)
        (new_delivery id (or_else n.scheduled_at now) n subject body) out)
