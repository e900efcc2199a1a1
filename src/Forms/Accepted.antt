-- ===== src/Forms/Accepted.antt =====
-- A submission is stored once for its key.
use pulse_crm.Prelude.{
  ℕ, ◌≡◌, refl, sym, ap, ◌∙◌, ◌⊎◌, inl, inr, str_eq, eq_iff, is_blank, text_length, true, false,
  not, ◌||◌, Option, none, some, List, ◌∷◌, ==_refl, ltb, arith, find?, ok, value_error, >>=-eq-ok,
  raise_if-eq-ok,
}
use pulse_crm.Forms.Fields.{Normalized, get, is_empty, validate_form_payload}
use pulse_crm.Forms.{
  Form, FormSubmission, FormRateLimitBucket, FormSubmissionOutcome, FormStore, Runtime, Submission,
  same_submission, new_submission, reused, insert_submission, ensure_allowed_origin,
  consume_form_rate_limit, store_submission, accept_form_submission,
}

-- The submission is the first of its form and key, it has the digest of the payload's valid fields,
-- and it is the only row that is written, if one is.
abbrev pub IsStored :
    Runtime → Form → Submission → FormStore → FormSubmissionOutcome → FormStore → Type 0
IsStored env form r s o s' =
    (x : FormSubmission) × (values : Normalized) × (o.submission ≡ some x)
    × (validate_form_payload env.decimal form.fields_schema r.payload ≡ ok values)
    × (x.request_digest ≡ env.digest values)
    × (find? (same_submission form.id r.idempotency_key) s'.submissions ≡ some x)
    × (((o.created ≡ true) × (s'.submissions ≡ x ∷ s.submissions))
        ⊎ ((o.created ≡ false) × (s'.submissions ≡ s.submissions)))

module _ (env : Runtime) (id : ℕ) (form : Form) (r : Submission) where
  new_submission-same :
      (values : Normalized)
      → same_submission form.id r.idempotency_key (new_submission env id form r values) ≡ true
  unfolding same_submission
  new_submission-same values =
      let i = ==_refl form.id in ground (arith, i, eq_iff r.idempotency_key r.idempotency_key)

  insert_submission-IsStored :
      (values : Normalized) (s s' : FormStore) (o : FormSubmissionOutcome)
      (found : Option FormSubmission)
      → validate_form_payload env.decimal form.fields_schema r.payload ≡ ok values
      → find? (same_submission form.id r.idempotency_key) s.submissions ≡ found
      → insert_submission found (new_submission env id form r values) s ≡ ok (o, s')
      → IsStored env form r s o s'
  unfolding insert_submission find?
  insert_submission-IsStored values s s' o none valid e h =
      let new = new_submission env id form r values in
      let outcome : record { submission = some new; created = true; discarded_as_spam = false }
          ≡ o =
        ground (arith, h) in
      let rows : record s { submissions = new ∷ s.submissions } ≡ s' = ground (arith, h) in
      rw (← outcome, ← rows)
        (new, values, refl, valid, refl, rw (new_submission-same values) refl, inl (refl, refl))
  insert_submission-IsStored values s s' o (some old) valid e h =
      let (same, done) =
        raise_if-eq-ok (not (str_eq old.request_digest (env.digest values))) (value_error reused) _
          h in
      let outcome : record { submission = some old; created = false; discarded_as_spam = false }
          ≡ o =
        ground (arith, done) in
      let rows : s ≡ s' = ground (arith, done) in
      let alike : str_eq old.request_digest (env.digest values) ≡ true = ground (arith, same) in
      rw (← outcome, ← rows)
        (
          old,
          values,
          refl,
          valid,
          (eq_iff old.request_digest (env.digest values)).0 alike,
          e,
          inr (refl, refl),
        )

-- A request whose submission is in the table.
accept-stored :
    (env : Runtime) (id now n : ℕ) (form : Form) (r : Submission) (s : FormStore)
    (x : FormSubmission) (values : Normalized) (buckets : List FormRateLimitBucket)
    → not form.is_active ≡ false
    → (is_blank r.idempotency_key || ltb 255 (text_length r.idempotency_key)) ≡ false
    → ensure_allowed_origin env r.origin form.allowed_origins r.hosted_origin ≡ ok tt
    → is_empty (get form.honeypot_field r.payload) ≡ true
    → consume_form_rate_limit env form.workspace_id form.id r.client_fingerprint now r.rate_limit 60
        s.buckets
      ≡ ok (n, buckets)
    → validate_form_payload env.decimal form.fields_schema r.payload ≡ ok values
    → find? (same_submission form.id r.idempotency_key) s.submissions ≡ some x
    → str_eq x.request_digest (env.digest values) ≡ true
    → accept_form_submission env id now form r s
      ≡ ok (
        record { submission = some x; created = false; discarded_as_spam = false },
        record s { buckets = buckets },
      )
unfolding accept_form_submission store_submission insert_submission
accept-stored env id now n form r s x values buckets enabled key allowed honest counted valid first
      again =
    rw (enabled, key, allowed, honest, counted, valid, first, again) refl

-- A submission that is not discarded as spam is stored: the outcome is the first submission of its
-- form and key, with the digest of the payload's valid fields, and it is the only row that was
-- written, or nothing was. As long as the rate limit allows, to submit the same again returns the
-- same submission as not created, and only counts the request.
pub accept_form_submission_again :
    (env : Runtime) (id now id' now' n : ℕ) (form : Form) (r : Submission) (s s' : FormStore)
    (o : FormSubmissionOutcome) (buckets : List FormRateLimitBucket)
    → accept_form_submission env id now form r s ≡ ok (o, s')
    → o.discarded_as_spam ≡ false
    → consume_form_rate_limit env form.workspace_id form.id r.client_fingerprint now' r.rate_limit
        60 s'.buckets
      ≡ ok (n, buckets)
    → IsStored env form r s o s'
      × (accept_form_submission env id' now' form r s'
          ≡ ok (
            record { submission = o.submission; created = false; discarded_as_spam = false },
            record s' { buckets = buckets },
          ))
unfolding accept_form_submission store_submission insert_submission
accept_form_submission_again env id now id' now' n form r s s' o buckets h kept counted =
    let (enabled, h1) = raise_if-eq-ok (not form.is_active) (value_error "form is disabled") _ h in
    let bad_key = value_error "invalid Idempotency-Key" in
    let (key, h2) =
      raise_if-eq-ok (is_blank r.idempotency_key || ltb 255 (text_length r.idempotency_key)) bad_key
        _ h1 in
    let (u, allowed, h3) =
      >>=-eq-ok (ensure_allowed_origin env r.origin form.allowed_origins r.hosted_origin) _ h2 in
    let honest : is_empty (get form.honeypot_field r.payload) ≡ true = ground (arith, h3, kept) in
    let h4 : store_submission env id now form r s ≡ ok (o, s') = rw honest at h3 in
    let (b, passed, h5) =
      >>=-eq-ok
        (consume_form_rate_limit env form.workspace_id form.id r.client_fingerprint now r.rate_limit
          60 s.buckets)
        _ h4 in
    let (values, valid, h6) =
      >>=-eq-ok (validate_form_payload env.decimal form.fields_schema r.payload) _ h5 in
    let same = same_submission form.id r.idempotency_key in
    let stored =
      insert_submission-IsStored env id form r values (record s { buckets = b.1 }) s' o
        (find? same s.submissions) valid refl h6 in
    let (x, values', is, valid', digest, first, rows) = stored in
    let alike : values' ≡ values = ground (arith, valid, valid') in
    let again : str_eq x.request_digest (env.digest values) ≡ true =
      (eq_iff x.request_digest (env.digest values)).1 (rw alike at digest) in
    let repeated =
      accept-stored env id' now' n form r s' x values buckets enabled key allowed honest counted
        valid first again in
    (
      stored,
      repeated
          ∙ ap
              (λ y. ok (
                record { submission = y; created = false; discarded_as_spam = false },
                record s' { buckets = buckets },
              ))
              (sym is),
    )
