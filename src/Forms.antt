-- ===== src/Forms.antt =====
-- backend/app/integrations/forms.py: a public form's submissions. The parts of an origin and the
-- digests are the runtime's, so parameters. The database is PostgreSQL or SQLite. Times are whole
-- seconds.
pub mod Fields
pub mod Limited
pub mod Accepted
mod Tests
use pulse_crm.Prelude.{
  ℕ, ◌+◌, ◌-◌, ◌*◌, ◌/◌, ◌%◌, String, str_eq, strip, is_blank, text_length, text_append, Bool, true,
  false, not, ◌&&◌, ◌||◌, Option, none, some, List, [], ◌∷◌, ◌==◌, ltb, leb, is_none, if◌then◌else◌,
  find?, any, update, or_else, Result, err, ok, value_error, raise_if, require, ◌>>=◌, ◌>>◌,
}
use pulse_crm.Forms.Fields.{
  FieldDefinition, Raw, missing, text, Payload, Normalized, get, is_empty, validate_form_payload,
}

pub record Form : Type 0 where
  pub id : ℕ
  pub workspace_id : ℕ
  pub fields_schema : List FieldDefinition
  pub allowed_origins : List String
  pub honeypot_field : String
  pub is_active : Bool

pub data FormSubmissionStatus : Type 0 where
  accepted processing processed failed : FormSubmissionStatus

pub record FormSubmission : Type 0 where
  pub id : ℕ
  pub workspace_id : ℕ
  pub form_id : ℕ
  pub idempotency_key : String
  pub request_digest : String
  pub payload : Normalized
  pub status : FormSubmissionStatus

pub record FormRateLimitBucket : Type 0 where
  pub workspace_id : ℕ
  pub form_id : ℕ
  pub subject_hash : String
  pub window_started_at : ℕ
  pub expires_at : ℕ
  pub request_count : ℕ

pub record FormSubmissionOutcome : Type 0 where
  pub submission : Option FormSubmission
  pub created : Bool
  pub discarded_as_spam : Bool

pub record FormStore : Type 0 where
  pub buckets : List FormRateLimitBucket
  pub submissions : List FormSubmission

-- The arguments of a submission.
pub record Submission : Type 0 where
  pub payload : Payload
  pub origin : Option String
  pub hosted_origin : String
  pub client_fingerprint : String
  pub idempotency_key : String
  pub rate_limit : ℕ

-- What `urlsplit` returns.
pub record SplitUrl : Type 0 where
  pub scheme : String
  pub hostname : Option String
  pub username : Option String
  pub password : Option String
  pub path : String
  pub query : String
  pub fragment : String
  pub port : Option ℕ

-- `urlsplit`, which may raise, `casefold`, `str` of a number, the digest of a subject and of a
-- payload in its canonical JSON text, and the reading of a decimal number.
pub record Runtime : Type 0 where
  pub urlsplit : String → Option SplitUrl
  pub casefold : String → String
  pub str : ℕ → String
  pub sha256 : String → String
  pub digest : Normalized → String
  pub decimal : String → Option String

-- `not value`, for a text that may be None.
unfoldable pub is_falsy : Option String → Bool
is_falsy none = true
is_falsy (some s) = is_blank s

abbrev pub invalid_origin : Result String
invalid_origin = err (value_error "invalid form origin")

unfoldable pub is_plain : SplitUrl → Bool
is_plain u =
    (str_eq u.scheme "http" || str_eq u.scheme "https")
    && not (is_falsy u.hostname)
    && is_falsy u.username
    && is_falsy u.password
    && (is_blank u.path || str_eq u.path "/")
    && is_blank u.query
    && is_blank u.fragment

unfoldable pub default_port : String → ℕ
default_port scheme = if str_eq scheme "https" then 443 else 80

-- The submission of a key: the one that is there, if its content is the same, or the new one.
unfoldable pub same_submission : ℕ → String → FormSubmission → Bool
same_submission form_id idempotency_key x =
    x.form_id == form_id && str_eq x.idempotency_key idempotency_key

abbrev pub reused : String
reused = "Idempotency-Key was reused for another submission"

unfoldable pub insert_submission :
    Option FormSubmission → FormSubmission → FormStore → Result (FormSubmissionOutcome × FormStore)
insert_submission none new s = ok (
  record { submission = some new; created = true; discarded_as_spam = false },
  record s { submissions = new ∷ s.submissions },
)
insert_submission (some old) new s = do
  raise_if (not (str_eq old.request_digest new.request_digest)) (value_error reused)
  ok (record { submission = some old; created = false; discarded_as_spam = false }, s)

unfoldable pub window_start : ℕ → ℕ → ℕ
window_start epoch window_seconds = epoch - epoch % window_seconds

unfoldable pub same_bucket : ℕ → String → ℕ → FormRateLimitBucket → Bool
same_bucket form_id subject_hash window_started_at b =
    b.form_id == form_id
    && str_eq b.subject_hash subject_hash
    && b.window_started_at == window_started_at

abbrev pub new_bucket : ℕ → ℕ → String → ℕ → ℕ → FormRateLimitBucket
new_bucket workspace_id form_id subject_hash window_started_at window_seconds = record {
  workspace_id = workspace_id;
  form_id = form_id;
  subject_hash = subject_hash;
  window_started_at = window_started_at;
  expires_at = window_started_at + window_seconds * 2;
  request_count = 1;
}

abbrev pub counted : FormRateLimitBucket → FormRateLimitBucket
counted b = record b { request_count = b.request_count + 1 }

-- `ON CONFLICT DO UPDATE`: the new count, and the table after it.
unfoldable pub upsert :
    Option FormRateLimitBucket
    → (FormRateLimitBucket → Bool)
    → FormRateLimitBucket
    → List FormRateLimitBucket
    → ℕ × List FormRateLimitBucket
upsert none same new buckets = (1, new ∷ buckets)
upsert (some b) same new buckets = (b.request_count + 1, update same counted buckets)

-- A count above the limit is an error, by which the request's transaction is rolled back.
unfoldable pub within : ℕ → ℕ × List FormRateLimitBucket → Result (ℕ × List FormRateLimitBucket)
within limit (n, buckets) = do
  raise_if (ltb limit n) (value_error "form rate limit exceeded")
  ok (n, buckets)

module _ (env : Runtime) where
  unfoldable pub origin_of : SplitUrl → Option String → String
  origin_of u hostname =
      let host = env.casefold (or_else hostname "") in
      text_append u.scheme (
        text_append "://" (elim u.port [
          | none ↦ host
          | some port ↦
              if port == default_port u.scheme
              then host
              else text_append host (text_append ":" (env.str port))
        ]))

  unfoldable pub normalize_parts : Option SplitUrl → Result String
  normalize_parts none = invalid_origin
  normalize_parts (some u) = if is_plain u then ok (origin_of u u.hostname) else invalid_origin

  unfoldable pub normalize_origin : String → Result String
  normalize_origin origin = normalize_parts (env.urlsplit (strip origin))

  unfoldable pub normalize_all : List String → Result (List String)
  normalize_all [] = ok []
  normalize_all (x ∷ xs) = do
    origin ← normalize_origin x
    rest ← normalize_all xs
    ok (origin ∷ rest)

  unfoldable pub ensure_allowed_origin : Option String → List String → String → Result (Unit {0})
  ensure_allowed_origin origin allowed_origins hosted_origin = do
    value ← require origin (value_error "Origin header is required")
    normalized ← normalize_origin value
    allowed ← normalize_all allowed_origins
    hosted ← normalize_origin hosted_origin
    raise_if (not (any (str_eq normalized) (hosted ∷ allowed)))
        (value_error "form origin is not allowed")

  unfoldable pub consume_form_rate_limit :
      ℕ → ℕ → String → ℕ → ℕ → ℕ → List FormRateLimitBucket → Result (ℕ × List FormRateLimitBucket)
  consume_form_rate_limit workspace_id form_id subject now limit window_seconds buckets = do
    raise_if (ltb limit 1 || not (leb 1 window_seconds && leb window_seconds 86400))
        (value_error "invalid rate-limit configuration")
    let start = window_start now window_seconds
    let same = same_bucket form_id (env.sha256 subject) start
    within limit (
        upsert (find? same buckets) same
          (new_bucket workspace_id form_id (env.sha256 subject) start window_seconds) buckets)

  abbrev pub new_submission : ℕ → Form → Submission → Normalized → FormSubmission
  new_submission id form r clean = record {
    id = id;
    workspace_id = form.workspace_id;
    form_id = form.id;
    idempotency_key = r.idempotency_key;
    request_digest = env.digest clean;
    payload = clean;
    status = accepted;
  }

  unfoldable pub store_submission :
      ℕ → ℕ → Form → Submission → FormStore → Result (FormSubmissionOutcome × FormStore)
  store_submission id now form r s = do
    (n, buckets) ←
        consume_form_rate_limit form.workspace_id form.id r.client_fingerprint now r.rate_limit 60
          s.buckets
    clean ← validate_form_payload env.decimal form.fields_schema r.payload
    insert_submission (find? (same_submission form.id r.idempotency_key) s.submissions)
        (new_submission id form r clean) (record s { buckets = buckets })

  unfoldable pub accept_form_submission :
      ℕ → ℕ → Form → Submission → FormStore → Result (FormSubmissionOutcome × FormStore)
  accept_form_submission id now form r s = do
    raise_if (not form.is_active) (value_error "form is disabled")
    raise_if (is_blank r.idempotency_key || ltb 255 (text_length r.idempotency_key))
        (value_error "invalid Idempotency-Key")
    ensure_allowed_origin r.origin form.allowed_origins r.hosted_origin
    if is_empty (get form.honeypot_field r.payload)
        then store_submission id now form r s
        else ok (record { submission = none; created = false; discarded_as_spam = true }, s)
