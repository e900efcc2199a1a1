-- ===== src/Webhooks.antt =====
-- backend/app/integrations/webhooks.py: who may send a generic webhook. A byte string is the text
-- of its bytes. The digests, the text of a number and its reading, the range of the datetimes, the
-- lower case and the reading of hexadecimal bytes are the runtime's, so parameters.
pub mod Inbound
pub mod Signed
pub mod Once
mod Tests
use Prim.Native.Char.{code}
use pulse_crm.Prelude.{
  ℕ, suc, ◌+◌, ◌*◌, String, str_eq, text_append, text_length, is_blank, Bool, true, false, not,
  ◌&&◌, Option, none, some, ◌==◌, ltb, leb, if◌then◌else◌, or_else, Datetime, aware, aware_at,
  distance, Result, ok, value_error, raise_if, require, ◌>>=◌, ◌>>◌,
}

-- A whole number: `pos n` is n, `negsuc n` is -n - 1.
pub data ℤ : Type 0 where
  pos negsuc : ℕ → ℤ

-- The argument `timestamp`, a text or a number.
pub data Timestamp : Type 0 where
  written : String → Timestamp
  number : ℤ → Timestamp

-- A datetime before the epoch is the microseconds until then.
pub data Moment : Type 0 where
  since until : ℕ → Moment

abbrev pub moment : ℤ → Moment
moment (pos n) = since (1000000 * n)
moment (negsuc n) = until (1000000 * suc n)

abbrev pub apart : ℕ → Moment → ℕ
apart now (since t) = distance now t
apart now (until t) = now + t

pub record VerifiedWebhook : Type 0 where
  pub timestamp : Moment
  pub idempotency_key : String
  pub request_digest : String

-- The keyword arguments of `verify_generic_webhook`.
pub record WebhookRequest : Type 0 where
  pub secret : String
  pub body : String
  pub signature : String
  pub timestamp : Timestamp
  pub idempotency_key : String

abbrev pub default_replay_window : ℕ
default_replay_window = 300000000

unfoldable pub printable : String → Bool
printable String.[] = true
printable (String.◌∷◌ c s) = leb 33 (code c) && leb (code c) 126 && printable s

-- `IDEMPOTENCY_KEY_RE.fullmatch`.
unfoldable pub is_idempotency_key : String → Bool
is_idempotency_key s = printable s && leb 1 (text_length s) && leb (text_length s) 255

-- `text.removeprefix(prefix)`.
unfoldable pub without : String → String → Option String
without String.[] s = some s
without (String.◌∷◌ c p) String.[] = none
without (String.◌∷◌ c p) (String.◌∷◌ d s) =
    let rest = without p s in if code c == code d then rest else none

unfoldable pub removeprefix : String → String → String
removeprefix p s = or_else (without p s) s

-- What the runtime provides: `hmac.new(key, message, sha256).hexdigest()`, `sha256(body).hexdigest()`,
-- `str` and `int` of numbers, the numbers that are datetimes, `lower`, and `bytes.fromhex`.
pub record Runtime : Type 0 where
  pub hmac : String → String → String
  pub sha256 : String → String
  pub str : ℤ → String
  pub int : String → Option ℤ
  pub is_datetime : ℤ → Bool
  pub lower : String → String
  pub is_hex : String → Bool

module _ (env : Runtime) where
  unfoldable pub webhook_signature : String → ℤ → String → String
  webhook_signature secret timestamp body =
      text_append "sha256="
        (env.hmac secret (text_append (env.str timestamp) (text_append "." body)))

  unfoldable pub unix_timestamp : Timestamp → Option ℤ
  unix_timestamp (written text) = env.int text
  unix_timestamp (number z) = some z

  unfoldable pub check_request : WebhookRequest → ℕ → Result (Unit {0})
  check_request r replay_window = do
    raise_if (is_blank r.secret) (value_error "webhook secret must not be empty")
    raise_if (replay_window == 0) (value_error "replay_window must be positive")
    raise_if (not (is_idempotency_key r.idempotency_key)) (value_error "invalid Idempotency-Key")

  unfoldable pub check_signature : WebhookRequest → ℤ → Result (Unit {0})
  check_signature r timestamp =
      let normalized = env.lower (removeprefix "sha256=" r.signature) in
      let invalid = value_error "invalid webhook signature" in
      (do
        raise_if (not (text_length normalized == 64)) invalid
        raise_if (not (env.is_hex normalized)) invalid
        raise_if
            (not (
              str_eq normalized
                (removeprefix "sha256=" (webhook_signature r.secret timestamp r.body))))
            invalid)

  unfoldable pub verify_generic_webhook :
      WebhookRequest → Option Datetime → ℕ → ℕ → Result VerifiedWebhook
  verify_generic_webhook r now clock replay_window = do
    check_request r replay_window
    timestamp ← require (unix_timestamp r.timestamp) (value_error "invalid webhook timestamp")
    raise_if (not (env.is_datetime timestamp)) (value_error "invalid webhook timestamp")
    current ←
        require (aware_at (or_else now (aware clock))) (value_error "now must be timezone-aware")
    raise_if (ltb replay_window (apart current (moment timestamp)))
        (value_error "webhook timestamp is outside the replay window")
    check_signature r timestamp
    ok (record {
      timestamp = moment timestamp;
      idempotency_key = r.idempotency_key;
      request_digest = env.sha256 r.body;
    })
