-- ===== src/Forms/Tests.antt =====
-- A form with one field, submitted twice within a minute, and a limit of two requests.
use pulse_crm.Prelude.{
  ◌+◌, ◌≤◌, ◌≡◌, refl, true, false, none, some, [], ◌∷◌, arith, ok, find?, update, is_blank,
  text_length, any, strip,
}
use pulse_crm.Forms.Fields.{
  pos, text, clean_text, add_field, check_field, check_fields, checked_value, declare_field,
  declared, field_type, has_at, is_no, is_text_type, is_yes, length_limit, normalize_boolean,
  normalize_field, normalize_number, normalize_option, normalize_text, starts_at, str,
  validate_form_payload, is_empty, get,
}
use pulse_crm.Forms.{
  Form, FormSubmission, FormRateLimitBucket, FormSubmissionOutcome, FormStore, SplitUrl, Runtime,
  Submission, new_bucket, new_submission, counted, consume_form_rate_limit, accept_form_submission,
  within, window_start, upsert, same_bucket, ensure_allowed_origin, normalize_origin,
  normalize_parts, is_plain, is_falsy, normalize_all, origin_of, store_submission, default_port,
  insert_submission, same_submission,
}
use pulse_crm.Forms.Limited.{used, no_request, one_more, consume_form_rate_limit-le}
use pulse_crm.Forms.Accepted.{IsStored, accept_form_submission_again}

abbrev site : SplitUrl
site = record {
  scheme = "https";
  hostname = some "shop.test";
  username = none;
  password = none;
  path = "";
  query = "";
  fragment = "";
  port = none;
}

abbrev env : Runtime
env = record {
  urlsplit = λ url. some site;
  casefold = λ s. s;
  str = λ n. "0";
  sha256 = λ s. s;
  digest = λ values. "d";
  decimal = λ s. none;
}

abbrev form : Form
form = record {
  id = 4;
  workspace_id = 1;
  fields_schema =
      record {
        key = "name";
        required = true;
        field_type = none;
        max_length = some (pos 40);
        options = none;
      }
      ∷ [];
  allowed_origins = [];
  honeypot_field = "company_website";
  is_active = true;
}

abbrev sent : Submission
sent = record {
  payload = ("name", text "Ivan") ∷ [];
  origin = some "https://shop.test";
  hosted_origin = "https://shop.test";
  client_fingerprint = "ip";
  idempotency_key = "k1";
  rate_limit = 2;
}

abbrev empty : FormStore
empty = record { buckets = []; submissions = [] }

abbrev bucket : FormRateLimitBucket
bucket = new_bucket 1 4 "ip" 120 60

abbrev stored : FormSubmission
stored = new_submission env 9 form sent (("name", clean_text "Ivan") ∷ [])

abbrev after : FormStore
after = record { buckets = bucket ∷ []; submissions = stored ∷ [] }

abbrev outcome : FormSubmissionOutcome
outcome = record { submission = some stored; created = true; discarded_as_spam = false }

first_request : consume_form_rate_limit env 1 4 "ip" 130 2 60 [] ≡ ok (1, bucket ∷ [])
unfolding consume_form_rate_limit within upsert find? window_start
first_request = refl

second_request :
    consume_form_rate_limit env 1 4 "ip" 150 2 60 (bucket ∷ []) ≡ ok (2, counted bucket ∷ [])
unfolding consume_form_rate_limit within upsert find? same_bucket window_start update
second_request = refl

submitted : accept_form_submission env 9 130 form sent empty ≡ ok (outcome, after)
unfolding accept_form_submission ensure_allowed_origin normalize_origin normalize_parts is_plain
    is_falsy normalize_all origin_of store_submission consume_form_rate_limit within upsert
    default_port insert_submission same_bucket same_submission window_start add_field check_field
    check_fields checked_value declare_field declared field_type has_at is_no is_text_type is_yes
    length_limit normalize_boolean normalize_field normalize_number normalize_option normalize_text
    starts_at str validate_form_payload is_empty get is_blank text_length any find? update strip
submitted = refl

accept_form_submission_again_example :
    IsStored env form sent empty outcome after
    × (accept_form_submission env 10 150 form sent after
        ≡ ok (
          record { submission = some stored; created = false; discarded_as_spam = false },
          record after { buckets = counted bucket ∷ [] },
        ))
accept_form_submission_again_example =
    accept_form_submission_again env 9 130 10 150 2 form sent empty after outcome
      (counted bucket ∷ []) submitted refl second_request

consume_form_rate_limit-le_example : used env 4 "ip" 120 [] + 2 ≤ 2
unfolding window_start find?
consume_form_rate_limit-le_example =
    consume_form_rate_limit-le env 1 4 "ip" 2 60 120 [] (counted bucket ∷ []) 2
      (one_more 1 150 2 (bucket ∷ []) (counted bucket ∷ [])
        (one_more 0 130 1 [] (bucket ∷ []) no_request refl first_request) refl second_request)
      (omega arith)
