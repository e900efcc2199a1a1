-- ===== src/Webhooks/Signed.antt =====
-- A signature is accepted within the replay window, and nothing else is.
use Prim.Native.Char.{code}
use text.Mathlib.TextLemmas.{cons-append, nil-append}
use pulse_crm.Prelude.{
  ℕ, ◌≤◌, ◌≡◌, ◌≢◌, refl, ◌∙◌, String, str_eq, eq_iff, text_append, text_length, is_blank, true,
  false, not, Option, some, ◌==◌, ==_refl, ltb, arith, or_else, Datetime, aware, aware_at, ok,
  value_error, require, >>=-eq-ok, raise_if-eq-ok, require-eq-ok,
}
use pulse_crm.Webhooks.{
  ℤ, written, moment, apart, VerifiedWebhook, WebhookRequest, is_idempotency_key, without,
  removeprefix, Runtime, webhook_signature, unix_timestamp, check_request, check_signature,
  verify_generic_webhook,
}

without-append : (p t : String) → without p (text_append p t) ≡ some t
unfolding without
without-append String.[] t = rw (nil-append t) refl
without-append (String.◌∷◌ c p) t =
    rw (cons-append c p t, ==_refl (code c), without-append p t) refl

removeprefix-append : (p t : String) → removeprefix p (text_append p t) ≡ t
unfolding removeprefix
removeprefix-append p t = rw (without-append p t) refl

-- A message authentication code is 64 lower case hexadecimal digits.
abbrev pub IsDigest : Runtime → String → Type 0
IsDigest env s = (text_length s ≡ 64) × (env.is_hex s ≡ true) × (env.lower s ≡ s)

-- What the sender signs.
abbrev pub message : Runtime → ℤ → String → String
message env timestamp body = text_append (env.str timestamp) (text_append "." body)

module _ (env : Runtime) (r : WebhookRequest) (timestamp : ℤ) where
  code_of : String
  code_of = env.hmac r.secret (message env timestamp r.body)

  signature-hmac :
      removeprefix "sha256=" (webhook_signature env r.secret timestamp r.body) ≡ code_of
  unfolding webhook_signature code_of
  signature-hmac = removeprefix-append "sha256=" (env.hmac r.secret (message env timestamp r.body))

  check_signature-own :
      r.signature ≡ webhook_signature env r.secret timestamp r.body
      → IsDigest env code_of
      → check_signature env r timestamp ≡ ok tt
  unfolding check_signature
  check_signature-own own (long, hex, low) =
      let same : str_eq code_of code_of ≡ true = (eq_iff code_of code_of).1 refl in
      rw (own, signature-hmac, low, long, hex, same) refl

  check_signature_sound :
      check_signature env r timestamp ≡ ok tt
      → env.lower (removeprefix "sha256=" r.signature) ≡ code_of
  unfolding check_signature
  check_signature_sound h =
      let normalized = env.lower (removeprefix "sha256=" r.signature) in
      let expected = removeprefix "sha256=" (webhook_signature env r.secret timestamp r.body) in
      let invalid = value_error "invalid webhook signature" in
      let (a, h1) = raise_if-eq-ok (not (text_length normalized == 64)) invalid _ h in
      let (b, h2) = raise_if-eq-ok (not (env.is_hex normalized)) invalid _ h1 in
      let same : str_eq normalized expected ≡ true = ground (arith, h2) in
      (eq_iff normalized expected).0 same ∙ signature-hmac

-- A request that is signed with the secret over its timestamp and body, and arrives within the
-- replay window with a key of printable characters, is verified: with its own timestamp and key and
-- the digest of its body. The digits of the signature are those of a digest, and the number of a
-- timestamp is read back from its text.
pub verify_generic_webhook-signed :
    (env : Runtime) (r : WebhookRequest) (timestamp : ℤ) (now clock replay_window : ℕ)
    → r.signature ≡ webhook_signature env r.secret timestamp r.body
    → r.timestamp ≡ written (env.str timestamp)
    → env.int (env.str timestamp) ≡ some timestamp
    → IsDigest env (env.hmac r.secret (message env timestamp r.body))
    → is_blank r.secret ≡ false
    → is_idempotency_key r.idempotency_key ≡ true
    → env.is_datetime timestamp ≡ true
    → replay_window ≢ 0
    → apart now (moment timestamp) ≤ replay_window
    → verify_generic_webhook env r (some (aware now)) clock replay_window
      ≡ ok (record {
        timestamp = moment timestamp;
        idempotency_key = r.idempotency_key;
        request_digest = env.sha256 r.body;
      })
unfolding verify_generic_webhook check_request unix_timestamp code_of check_signature
verify_generic_webhook-signed env r timestamp now clock replay_window own time read digest secret
      key dated window near =
    let signed = check_signature-own env r timestamp own digest in
    let open_window : (replay_window == 0) ≡ false = ground (arith, window) in
    let fresh : ltb replay_window (apart now (moment timestamp)) ≡ false = ground (arith, near) in
    rw (secret, open_window, key, time, read, dated, fresh, signed) refl

-- A request that is verified carries the message authentication code of its secret over its
-- timestamp and its body, was sent at most the replay window from now, and is recorded with that
-- timestamp, its key and the digest of its body.
pub verify_generic_webhook_sound :
    (env : Runtime) (r : WebhookRequest) (now : Option Datetime) (clock replay_window : ℕ)
    (v : VerifiedWebhook)
    → verify_generic_webhook env r now clock replay_window ≡ ok v
    → (timestamp : ℤ) × (current : ℕ) × (unix_timestamp env r.timestamp ≡ some timestamp)
      × (aware_at (or_else now (aware clock)) ≡ some current)
      × (apart current (moment timestamp) ≤ replay_window)
      × (env.lower (removeprefix "sha256=" r.signature)
          ≡ env.hmac r.secret (message env timestamp r.body))
      × (record {
        timestamp = moment timestamp;
        idempotency_key = r.idempotency_key;
        request_digest = env.sha256 r.body;
      }
          ≡ v)
unfolding verify_generic_webhook code_of
verify_generic_webhook_sound env r now clock replay_window v h =
    let (a, checked, h1) = >>=-eq-ok (check_request env r replay_window) _ h in
    let no_time = value_error "invalid webhook timestamp" in
    let (timestamp, read, h2) = >>=-eq-ok (require (unix_timestamp env r.timestamp) no_time) _ h1 in
    let (b, h3) = raise_if-eq-ok (not (env.is_datetime timestamp)) no_time _ h2 in
    let no_zone = value_error "now must be timezone-aware" in
    let (current, zoned, h4) =
      >>=-eq-ok (require (aware_at (or_else now (aware clock))) no_zone) _ h3 in
    let old = value_error "webhook timestamp is outside the replay window" in
    let (near, h5) =
      raise_if-eq-ok (ltb replay_window (apart current (moment timestamp))) old _ h4 in
    let (c, signed, done) = >>=-eq-ok (check_signature env r timestamp) _ h5 in
    (
      timestamp,
      current,
      require-eq-ok (unix_timestamp env r.timestamp) no_time read,
      require-eq-ok (aware_at (or_else now (aware clock))) no_zone zoned,
      ground (arith, near),
      check_signature_sound env r timestamp signed,
      ground (arith, done),
    )
