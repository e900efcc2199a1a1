-- ===== src/DataAccess.antt =====
-- backend/app/services/data_access.py: the budget of continued list pages, one bucket with a fixed
-- window for each user and resource. Times are whole seconds.
pub mod Budget
mod Tests
use pulse_crm.Prelude.{
  ℕ, ◌+◌, ◌-◌, ◌*◌, ◌/◌, max, String, Bool, true, false, not, ◌&&◌, ◌||◌, Option, none, some, List,
  [], ◌∷◌, ltb, leb, ◌==◌, if◌then◌else◌, is_blank, str_eq, text_length, find?, update, or_else,
  Result, ok, err, value_error, runtime_error, raise_if, ◌>>=◌, ◌>>◌,
}
use pulse_crm.Events.{Journal, record_audit_event, text, number}

pub record CursorAccessBucket : Type 0 where
  pub workspace_id : ℕ
  pub user_id : ℕ
  pub resource : String
  pub window_started_at : ℕ
  pub request_count : ℕ

pub data Dialect : Type 0 where
  postgresql sqlite unsupported : Dialect

abbrev is_supported : Dialect → Bool
is_supported unsupported = false
is_supported _ = true

-- The columns of the unique constraint.
pub record Scope : Type 0 where
  pub workspace_id : ℕ
  pub user_id : ℕ
  pub resource : String

unfoldable pub fixed_window_start : ℕ → ℕ → ℕ
fixed_window_start now window_seconds = now / window_seconds * window_seconds

unfoldable pub in_scope : Scope → CursorAccessBucket → Bool
in_scope s b =
    b.workspace_id == s.workspace_id && b.user_id == s.user_id && str_eq b.resource s.resource

-- `ON CONFLICT DO UPDATE`: a bucket of an earlier window starts again.
unfoldable pub bump : ℕ → CursorAccessBucket → CursorAccessBucket
bump start b =
    if ltb b.window_started_at start
    then record b { window_started_at = start; request_count = 1 }
    else record b { request_count = b.request_count + 1 }

abbrev pub new_bucket : Scope → ℕ → CursorAccessBucket
new_bucket s start = record {
  workspace_id = s.workspace_id;
  user_id = s.user_id;
  resource = s.resource;
  window_started_at = start;
  request_count = 1;
}

-- The row that the statement returns, and the table after it.
unfoldable pub upsert :
    Scope → ℕ → List CursorAccessBucket → CursorAccessBucket × List CursorAccessBucket
upsert s start buckets = elim (find? (in_scope s) buckets) [
  | none ↦ (new_bucket s start, new_bucket s start ∷ buckets)
  | some b ↦ (bump start b, update (in_scope s) (bump start) buckets)
]

unfoldable pub consume_cursor_page_budget :
    Dialect
    → Scope
    → ℕ
    → ℕ
    → List CursorAccessBucket
    → Result (CursorAccessBucket × List CursorAccessBucket)
consume_cursor_page_budget dialect s window_seconds now buckets = do
  raise_if (is_blank s.resource || ltb 64 (text_length s.resource))
      (value_error "resource must contain 1..64 characters")
  raise_if (ltb window_seconds 1) (value_error "window_seconds must be positive")
  raise_if (not (is_supported dialect)) (runtime_error "unsupported pagination budget dialect")
  ok (upsert s (fixed_window_start now window_seconds) buckets)

pub record Store : Type 0 where
  pub buckets : List CursorAccessBucket
  pub journal : Journal

-- The audit record of the first rejected request.
abbrev pub exceeded : Scope → ℕ → ℕ → Journal → Journal
exceeded s count window_seconds = record_audit_event (record {
  workspace_id = s.workspace_id;
  event_type = "data_access.cursor_budget_exceeded";
  entity_type = "user";
  entity_id = s.user_id;
  actor_id = some s.user_id;
  payload =
      ("resource", text s.resource)
      ∷ ("request_count", number count)
      ∷ ("window_seconds", number window_seconds)
      ∷ [];
})

-- The end of a request after its bucket was counted: `none` lets it pass, `some n` is the response
-- 429 with `Retry-After: n`. Both commit the store.
unfoldable pub decide : Scope → ℕ → ℕ → ℕ → CursorAccessBucket → Store → Store × Option ℕ
decide s budget_limit window_seconds now b store =
    if leb b.request_count budget_limit then (store, none) else (
      record store {
        journal =
            if b.request_count == budget_limit + 1
            then exceeded s b.request_count window_seconds store.journal
            else store.journal;
      },
      some (max 1 (b.window_started_at + window_seconds - now)),
    )

-- A request without a cursor is a first page, and is free.
unfoldable pub enforce_cursor_page_budget :
    Dialect → Scope → Bool → ℕ → ℕ → ℕ → Store → Result (Store × Option ℕ)
enforce_cursor_page_budget dialect s false budget_limit window_seconds now store = ok (store, none)
enforce_cursor_page_budget dialect s true budget_limit window_seconds now store = do
  (b, buckets) ← consume_cursor_page_budget dialect s window_seconds now store.buckets
  ok (decide s budget_limit window_seconds now b (record store { buckets = buckets }))
