-- ===== src/Webhooks/Tests.antt =====
-- A signed request, accepted and delivered twice, for a runtime with one digest.
use pulse_crm.Prelude.{
  ℕ, ◌≡◌, refl, ◌≤◌, String, true, false, none, some, [], ◌∷◌, arith, ok, aware, or_else, aware_at,
  text_length, is_blank, any, strip,
}
use pulse_crm.Webhooks.{
  ℤ, pos, written, moment, apart, VerifiedWebhook, WebhookRequest, Runtime, removeprefix,
  unix_timestamp, webhook_signature, verify_generic_webhook, default_replay_window, check_signature,
  check_request, printable, is_idempotency_key, without,
}
use pulse_crm.Webhooks.Inbound.{
  InboundEvent, InboundRequest, new_event, accept_inbound_event, insert_event,
}
use pulse_crm.Webhooks.Signed.{message, verify_generic_webhook-signed, verify_generic_webhook_sound}
use pulse_crm.Webhooks.Once.{Settled, accept_inbound_event-Settled, accept_inbound_event_again}

abbrev digest : String
digest = "0123456789abcdef0123456789abcdef0123456789abcdef0123456789abcdef"

abbrev env : Runtime
env = record {
  hmac = λ key text. digest;
  sha256 = λ body. digest;
  str = λ z. "1700000000";
  int = λ text. some (pos 1700000000);
  is_datetime = λ z. true;
  lower = λ text. text;
  is_hex = λ text. true;
}

abbrev request : WebhookRequest
request = record {
  secret = "s3cret";
  body = "{}";
  signature = webhook_signature env "s3cret" (pos 1700000000) "{}";
  timestamp = written "1700000000";
  idempotency_key = "order-1";
}

abbrev verified : VerifiedWebhook
verified = record {
  timestamp = moment (pos 1700000000);
  idempotency_key = "order-1";
  request_digest = digest;
}

abbrev soon : ℕ
soon = 1700000100000000

verify_generic_webhook-signed_example :
    verify_generic_webhook env request (some (aware soon)) 0 default_replay_window ≡ ok verified
unfolding text_length is_blank is_idempotency_key printable
verify_generic_webhook-signed_example =
    verify_generic_webhook-signed env request (pos 1700000000) soon 0 default_replay_window refl
      refl refl (refl, refl, refl) refl refl refl (omega arith) (omega arith)

verify_generic_webhook_sound_example :
    (timestamp : ℤ) × (current : ℕ) × (unix_timestamp env request.timestamp ≡ some timestamp)
    × (aware_at (or_else (some (aware soon)) (aware 0)) ≡ some current)
    × (apart current (moment timestamp) ≤ default_replay_window)
    × (env.lower (removeprefix "sha256=" request.signature)
        ≡ env.hmac request.secret (message env timestamp request.body))
    × (record {
      timestamp = moment timestamp;
      idempotency_key = request.idempotency_key;
      request_digest = env.sha256 request.body;
    }
        ≡ verified)
unfolding verify_generic_webhook check_request is_blank is_idempotency_key printable text_length
    unix_timestamp check_signature removeprefix without webhook_signature
verify_generic_webhook_sound_example =
    verify_generic_webhook_sound env request (some (aware soon)) 0 default_replay_window verified
      refl

abbrev inbound : InboundRequest
inbound = record {
  workspace_id = 1;
  source_key = "shop";
  verified = verified;
  payload = "{}";
  channel_connection_id = none;
  external_event_id = some "ev-7";
}

abbrev kept : InboundEvent
kept = new_event 3 50 inbound

accept_inbound_event_again_example :
    (kept.request_digest ≡ digest)
    × (accept_inbound_event 4 60 inbound (kept ∷ [])
        ≡ ok (record { event = kept; created = false }, kept ∷ []))
unfolding accept_inbound_event is_blank strip insert_event any
accept_inbound_event_again_example =
    accept_inbound_event_again 3 50 4 60 inbound [] (record { event = kept; created = true })
      (kept ∷ []) refl

abbrev other : InboundRequest
other = record inbound { verified = record verified { request_digest = "0" } }

accept_inbound_event-Settled_example :
    Settled other 4 60 (kept ∷ []) (accept_inbound_event 4 60 other (kept ∷ []))
unfolding is_blank strip
accept_inbound_event-Settled_example = accept_inbound_event-Settled 4 60 other (kept ∷ []) refl
