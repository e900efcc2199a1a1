-- ===== src/Forms/Limited.antt =====
-- No more submissions of a subject pass in a window than the limit allows.
use pulse_crm.Prelude.Table.Laws.{find?-update}
use pulse_crm.Prelude.{
  ℕ, suc, ◌+◌, ◌≤◌, ◌≡◌, refl, ◌∙◌, String, eq_iff, Bool, true, not, ◌&&◌, ◌||◌, Option, none, some,
  List, ==_refl, ltb, leb, arith, find?, ok, value_error, raise_if-eq-ok,
}
use pulse_crm.Forms.{
  FormRateLimitBucket, Runtime, window_start, same_bucket, new_bucket, counted, upsert, within,
  consume_form_rate_limit,
}

-- The count of the first bucket that a condition selects.
abbrev count_of : Option FormRateLimitBucket → ℕ
count_of none = 0
count_of (some b) = b.request_count

-- How many requests of a subject were counted in the window from `start`.
abbrev pub used : Runtime → ℕ → String → ℕ → List FormRateLimitBucket → ℕ
used env form_id subject start buckets =
    count_of (find? (same_bucket form_id (env.sha256 subject) start) buckets)

upsert-count :
    (same : FormRateLimitBucket → Bool) (new : FormRateLimitBucket)
    (buckets : List FormRateLimitBucket) (o : Option FormRateLimitBucket)
    → find? same buckets ≡ o
    → same new ≡ true
    → new.request_count ≡ 1
    → ((b : FormRateLimitBucket) → same b ≡ true → same (counted b) ≡ true)
    → let r = upsert o same new buckets in
      (r.0 ≡ count_of o + 1) × (count_of (find? same r.1) ≡ r.0)
unfolding upsert find?
upsert-count same new buckets none e t one keep = (omega arith, rw t one)
upsert-count same new buckets (some b) e t one keep =
    (refl, rw (find?-update same counted keep buckets e) refl)

new_bucket-same :
    (workspace_id form_id : ℕ) (h : String) (start window_seconds : ℕ)
    → same_bucket form_id h start (new_bucket workspace_id form_id h start window_seconds) ≡ true
unfolding same_bucket
new_bucket-same workspace_id form_id h start window_seconds =
    let i = ==_refl form_id in let w = ==_refl start in ground (arith, i, w, eq_iff h h)

consume_form_rate_limit-counts :
    (env : Runtime) (workspace_id form_id : ℕ) (subject : String) (now limit window_seconds : ℕ)
    (buckets buckets' : List FormRateLimitBucket) (n : ℕ)
    → consume_form_rate_limit env workspace_id form_id subject now limit window_seconds buckets
      ≡ ok (n, buckets')
    → (used env form_id subject (window_start now window_seconds) buckets'
        ≡ used env form_id subject (window_start now window_seconds) buckets + 1)
      × (used env form_id subject (window_start now window_seconds) buckets' ≤ limit)
unfolding consume_form_rate_limit within same_bucket
consume_form_rate_limit-counts env workspace_id form_id subject now limit window_seconds buckets
      buckets' n h =
    let start = window_start now window_seconds in
    let hash = env.sha256 subject in
    let same = same_bucket form_id hash start in
    let new = new_bucket workspace_id form_id hash start window_seconds in
    let bad = value_error "invalid rate-limit configuration" in
    let (a, h1) =
      raise_if-eq-ok (ltb limit 1 || not (leb 1 window_seconds && leb window_seconds 86400)) bad _
        h in
    let r = upsert (find? same buckets) same new buckets in
    let (b, h2) = raise_if-eq-ok (ltb limit r.0) (value_error "form rate limit exceeded") _ h1 in
    let (one_more, kept) =
      upsert-count same new buckets (find? same buckets) refl
        (new_bucket-same workspace_id form_id hash start window_seconds) refl (λ b t. t) in
    let rows : r.1 ≡ buckets' = ground (arith, h2) in
    let now_used : used env form_id subject start buckets' ≡ r.0 = rw rows at kept in
    let below : r.0 ≤ limit = ground (arith, b) in
    (now_used ∙ one_more, omega (arith, now_used, below))

-- The requests of a subject to a form that pass in the window from `start`, in any order of times
-- and with those that fail between them rolled back.
pub data Passed (env : Runtime) (workspace_id form_id : ℕ) (subject : String)
    (limit window_seconds start : ℕ) (buckets : List FormRateLimitBucket)
    : ℕ → List FormRateLimitBucket → Type 0 where
  no_request : Passed env workspace_id form_id subject limit window_seconds start buckets 0 buckets
  one_more :
      (k now n : ℕ) (buckets' buckets'' : List FormRateLimitBucket)
      → Passed env workspace_id form_id subject limit window_seconds start buckets k buckets'
      → window_start now window_seconds ≡ start
      → consume_form_rate_limit env workspace_id form_id subject now limit window_seconds buckets'
        ≡ ok (n, buckets'')
      → Passed env workspace_id form_id subject limit window_seconds start buckets (suc k) buckets''

Passed-used :
    (env : Runtime) (workspace_id form_id : ℕ) (subject : String) (limit window_seconds start : ℕ)
    (buckets buckets' : List FormRateLimitBucket) (k : ℕ)
    → Passed env workspace_id form_id subject limit window_seconds start buckets k buckets'
    → used env form_id subject start buckets ≤ limit
    → (used env form_id subject start buckets' ≡ used env form_id subject start buckets + k)
      × (used env form_id subject start buckets' ≤ limit)
Passed-used env workspace_id form_id subject limit window_seconds start buckets _ _ no_request h =
    (omega arith, h)
Passed-used env workspace_id form_id subject limit window_seconds start buckets _ _
      (one_more k now n buckets' buckets'' run at_start e) h =
    let (so_far, below) =
      Passed-used env workspace_id form_id subject limit window_seconds start buckets buckets' k run
        h in
    let (counts, bound) =
      consume_form_rate_limit-counts env workspace_id form_id subject now limit window_seconds
        buckets' buckets'' n e in
    let counts' = rw at_start at counts in
    let bound' = rw at_start at bound in (omega (arith, so_far, counts'), bound')

-- The requests of one subject that pass in one window are at most the limit, together with those
-- that were counted before, if these are.
pub consume_form_rate_limit-le :
    (env : Runtime) (workspace_id form_id : ℕ) (subject : String) (limit window_seconds start : ℕ)
    (buckets buckets' : List FormRateLimitBucket) (k : ℕ)
    → Passed env workspace_id form_id subject limit window_seconds start buckets k buckets'
    → used env form_id subject start buckets ≤ limit
    → used env form_id subject start buckets + k ≤ limit
consume_form_rate_limit-le env workspace_id form_id subject limit window_seconds start buckets
      buckets' k run h =
    let (so_far, below) =
      Passed-used env workspace_id form_id subject limit window_seconds start buckets buckets' k run
        h in
    omega (arith, so_far, below)
