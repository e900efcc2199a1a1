-- ===== src/Notifications/Tests.antt =====
-- A client's message, queued twice, and refused after the consent is revoked.
use pulse_crm.Access.{ensure_contact_access}
use pulse_crm.Prelude.{
  ◌≡◌, refl, true, false, none, some, [], ◌∷◌, arith, Error, ok, err, count, find?, is_blank, strip,
  text_length,
}
use pulse_crm.Access.Tests.{seller, directory}
use pulse_crm.Events.{no_events}
use pulse_crm.Prelude.{List}
use pulse_crm.Operations.{pending}
use pulse_crm.Consents.{
  granted, telegram, Consent, ConsentGrant, ConsentRevoke, ConsentStore, new_consent, withdrawn,
  withdraw, revoke_contact_consent, own_consent,
}
use pulse_crm.Notifications.Template.{
  Piece, literal, placeholder, Variables, print, render_notification_template, pieces, scan,
  literals, is_name_char, render_pieces, variable,
}
use pulse_crm.Notifications.RoundTrip.{substituted, render_notification_template-print}
use pulse_crm.Notifications.{
  to_client, NotificationTemplate, NotificationDelivery, Notice, Outbox, queued_event,
  same_delivery, queue_notification, requires_consent, check_notice, is_target, check_consent,
  check_client_consent, ensure_client_consent, active_consent, render_subject, insert_delivery,
  new_delivery,
}
use pulse_crm.Notifications.Consented.{queue_notification-revoked}
use pulse_crm.Notifications.Once.{IsOnly, queue_notification_again}

abbrev greeting : List Piece
greeting = placeholder "user_1" ∷ literal "!" ∷ []

abbrev ann : Variables
ann = ("user_1", some "Ann") ∷ []

render_notification_template-print_example :
    (pieces (print greeting) ≡ greeting)
    × (render_notification_template (print greeting) ann
        ≡ ok (substituted (λ name. "Ann") greeting))
    × (print (pieces "{a, {b}") ≡ "{a, {b}")
unfolding variable
render_notification_template-print_example =
    render_notification_template-print ann (λ name. "Ann") greeting "{a, {b}"
      ((refl, (refl, (refl, (refl, (refl, (refl, tt)))))), (refl, tt)) (refl, (tt, tt))

abbrev ask : ConsentGrant
ask = record {
  channel = telegram;
  address = "@ivan";
  purpose = "notifications";
  source = "form";
  evidence = "{}";
}

abbrev consent : Consent
consent = new_consent 11 seller 100 9 ask "@ivan"

abbrev store : ConsentStore
store = record { consents = consent ∷ []; journal = no_events }

abbrev template : NotificationTemplate
template = record {
  id = 2;
  workspace_id = seller.workspace_id;
  channel = "telegram";
  subject_template = none;
  body_template = "Hi {name}";
}

abbrev notice : Notice
notice = record {
  workspace_id = seller.workspace_id;
  template = template;
  rule = none;
  audience = to_client;
  channel = "telegram";
  recipient_address = "@ivan";
  dedupe_key = "visit-1";
  variables = ("name", some "Ivan") ∷ [];
  scheduled_at = none;
  recipient_id = none;
  target_entity_type = none;
  target_entity_id = none;
  contact_id = some 9;
  normalized_address = some "@ivan";
  consent_purpose = "notifications";
}

abbrev empty : Outbox
empty = record { deliveries = []; events = [] }

abbrev delivery : NotificationDelivery
delivery = record {
  id = 5;
  workspace_id = seller.workspace_id;
  rule_id = none;
  template_id = 2;
  audience = to_client;
  channel = "telegram";
  recipient_id = none;
  recipient_address = "@ivan";
  subject = none;
  body = "Hi Ivan";
  target_entity_type = none;
  target_entity_id = none;
  status = pending;
  dedupe_key = "visit-1";
  scheduled_at = 70;
  attempts = 0;
}

abbrev sent : Outbox
sent = record { deliveries = delivery ∷ []; events = queued_event delivery ∷ [] }

queue_notification_again_example :
    IsOnly seller.workspace_id "visit-1" delivery true empty sent
    × (queue_notification 6 80 (consent ∷ []) notice sent ≡ ok (delivery, false, sent))
unfolding count queue_notification check_notice is_blank strip text_length is_target check_consent
    requires_consent check_client_consent ensure_client_consent find? active_consent render_subject
    render_notification_template render_pieces pieces is_name_char literals scan variable
    insert_delivery new_delivery same_delivery
queue_notification_again_example =
    queue_notification_again 5 70 (consent ∷ []) notice empty sent delivery true 6 80 (omega arith)
      refl

abbrev withdrawal : ConsentRevoke
withdrawal = record { source = "form"; evidence = "{}" }

abbrev after : ConsentStore
after = (withdraw seller 120 9 withdrawal consent granted store).1

queue_notification-revoked_example :
    (e : Error) × (queue_notification 6 130 after.consents notice empty ≡ err e)
unfolding revoke_contact_consent ensure_contact_access find? own_consent withdraw count
    requires_consent
queue_notification-revoked_example =
    queue_notification-revoked 120 directory seller 9 11 withdrawal store after
      (withdrawn 120 consent) 6 130 notice empty refl (omega arith) refl
      (refl, refl, refl, refl, refl)
