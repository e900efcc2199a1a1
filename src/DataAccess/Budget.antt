-- ===== src/DataAccess/Budget.antt =====
-- How many continued pages a window lets pass, and how often the excess is recorded.
use pulse_crm.Prelude.Table.Laws.{find?-update}
use pulse_crm.Prelude.{
  ℕ, zero, suc, ◌+◌, ◌-◌, ◌≤◌, ◌<◌, min, ◌≡◌, refl, ◌⊎◌, inl, inr, Bool, true, false, Option, none,
  some, List, [], ◌∷◌, All, arith, length, ltb, leb, ◌==◌, if◌then◌else◌, bit, is_none, is_blank,
  text_length, eq_iff, find?, count, Result, ok, ◌>>=◌,
}
use pulse_crm.Events.{record_audit_event}
use pulse_crm.DataAccess.{
  CursorAccessBucket, postgresql, Scope, fixed_window_start, in_scope, bump, new_bucket, upsert,
  consume_cursor_page_budget, Store, decide, enforce_cursor_page_budget,
}

-- The requests of one user for one resource, one after the other, and their answers.
unfoldable pub requests : Scope → ℕ → ℕ → List ℕ → Store → Result (Store × List (Option ℕ))
requests s budget_limit window_seconds [] store = ok (store, [])
requests s budget_limit window_seconds (now ∷ times) store = do
  (store', answer) ←
      enforce_cursor_page_budget postgresql s true budget_limit window_seconds now store
  (last, answers) ← requests s budget_limit window_seconds times store'
  ok (last, answer ∷ answers)

-- A resource and a window that the checks accept.
pub record IsSensible (s : Scope) (window_seconds : ℕ) : Type 0 where
  pub named : is_blank s.resource ≡ false
  pub short : text_length s.resource ≤ 64
  pub positive : 0 < window_seconds

-- How often the window that starts at `start` has been used: a missing bucket and one of an earlier
-- window count for nothing.
abbrev pub Used : Scope → ℕ → ℕ → List CursorAccessBucket → Type 0
Used s start zero buckets =
    (find? (in_scope s) buckets ≡ none)
    ⊎ ((b : CursorAccessBucket) × (find? (in_scope s) buckets ≡ some b)
        × (b.window_started_at < start))
Used s start (suc n) buckets =
    (b : CursorAccessBucket) × (find? (in_scope s) buckets ≡ some b)
    × (b.window_started_at ≡ start)
    × (b.request_count ≡ suc n)

new_bucket-in_scope : (s : Scope) (start : ℕ) → in_scope s (new_bucket s start) ≡ true
unfolding in_scope
new_bucket-in_scope s start = ground (arith, eq_iff s.resource s.resource)

bump-in_scope :
    (s : Scope) (start : ℕ) (b : CursorAccessBucket)
    → in_scope s b ≡ true
    → in_scope s (bump start b) ≡ true
unfolding in_scope bump
bump-in_scope s start b h = ground arith

new_found :
    (s : Scope) (start : ℕ) (buckets : List CursorAccessBucket)
    → find? (in_scope s) (new_bucket s start ∷ buckets) ≡ some (new_bucket s start)
unfolding find?
new_found s start buckets = rw (new_bucket-in_scope s start)

bump_older :
    (start : ℕ) (b : CursorAccessBucket)
    → b.window_started_at < start
    → ((bump start b).request_count ≡ 1) × ((bump start b).window_started_at ≡ start)
unfolding bump
bump_older start b h = ground arith

bump_same :
    (start n : ℕ) (b : CursorAccessBucket)
    → b.window_started_at ≡ start
    → b.request_count ≡ suc n
    → ((bump start b).request_count ≡ suc (suc n)) × ((bump start b).window_started_at ≡ start)
unfolding bump
bump_same start n b h k = ground arith

-- One more use of the window.
upsert-Used :
    (s : Scope) (start n : ℕ) (buckets : List CursorAccessBucket)
    → Used s start n buckets
    → ((upsert s start buckets).0.request_count ≡ suc n)
      × ((upsert s start buckets).0.window_started_at ≡ start)
      × Used s start (suc n) (upsert s start buckets).1
unfolding upsert
upsert-Used s start zero buckets (inl missing) =
    rw (missing, upsert) (refl, refl, (new_bucket s start, new_found s start buckets, refl, refl))
upsert-Used s start zero buckets (inr (b, found, older)) =
    let (one, two) = bump_older start b older in
    rw (found, upsert)
      (
        one,
        two,
        (
          bump start b,
          find?-update (in_scope s) (bump start) (bump-in_scope s start) buckets found,
          two,
          one,
        ),
      )
upsert-Used s start (suc n) buckets (b, found, same, counted) =
    let (one, two) = bump_same start n b same counted in
    rw (found, upsert)
      (
        one,
        two,
        (
          bump start b,
          find?-update (in_scope s) (bump start) (bump-in_scope s start) buckets found,
          two,
          one,
        ),
      )

-- The number of answers that let the request pass, and of audit records.
abbrev pub passed : List (Option ℕ) → ℕ
passed = count is_none

abbrev pub audits : Store → ℕ
audits store = length store.journal.activity

-- The audit records that `n` more requests leave in a window that was used `used` times.
abbrev pub crossing : ℕ → ℕ → ℕ → ℕ
crossing budget_limit used n =
    if leb used budget_limit then (if ltb budget_limit (used + n) then 1 else 0) else 0

-- One request in the window.
pub record Answered (s : Scope) (budget_limit start used : ℕ) (store store' : Store)
    (answer : Option ℕ) : Type 0 where
  pub uses : Used s start (suc used) store'.buckets
  pub lets : bit (is_none answer) ≡ bit (leb (suc used) budget_limit)
  pub records : audits store' ≡ audits store + bit (suc used == budget_limit + 1)

decide_counts :
    (s : Scope) (budget_limit window_seconds now used : ℕ) (b : CursorAccessBucket) (store : Store)
    → b.request_count ≡ suc used
    → let (store', answer) = decide s budget_limit window_seconds now b store in
      (store'.buckets ≡ store.buckets)
      × (bit (is_none answer) ≡ bit (leb (suc used) budget_limit))
      × (audits store' ≡ audits store + bit (suc used == budget_limit + 1))
unfolding decide record_audit_event
decide_counts s budget_limit window_seconds now used b store h = ground arith

one_request :
    (s : Scope) (budget_limit window_seconds start now used : ℕ) (store : Store)
    → IsSensible s window_seconds
    → fixed_window_start now window_seconds ≡ start
    → Used s start used store.buckets
    → (store' : Store) × (answer : Option ℕ) × (enforce_cursor_page_budget postgresql s true
          budget_limit window_seconds now store
        ≡ ok (store', answer))
      × Answered s budget_limit start used store store' answer
unfolding enforce_cursor_page_budget consume_cursor_page_budget
one_request s budget_limit window_seconds start now used store sensible window u =
    let (b, buckets) = upsert s start store.buckets in
    let (counted, _, uses) = upsert-Used s start used store.buckets u in
    let (same, lets, records) =
      decide_counts s budget_limit window_seconds now used b (record store { buckets = buckets })
        counted in
    let (store', answer) =
      decide s budget_limit window_seconds now b (record store { buckets = buckets }) in
    (store', answer, ground arith, record { uses = rw same uses; lets = lets; records = records })

pass_step :
    (budget_limit used n : ℕ) (b : Bool) (rest : ℕ)
    → bit b ≡ bit (leb (suc used) budget_limit)
    → rest ≡ min (budget_limit - suc used) n
    → bit b + rest ≡ min (budget_limit - used) (suc n)
pass_step budget_limit used n b rest h k = ground arith

cross_step :
    (budget_limit used n : ℕ)
    → bit (suc used == budget_limit + 1) + crossing budget_limit (suc used) n
      ≡ crossing budget_limit used (suc n)
cross_step budget_limit used n = ground arith

-- In one window the first `budget_limit` continued requests pass and all the others are rejected;
-- the excess is recorded once, at the request that crosses the limit. `used` requests came before.
pub requests_in_window :
    (s : Scope) (budget_limit window_seconds start used : ℕ) (times : List ℕ) (store : Store)
    → IsSensible s window_seconds
    → All (λ now. fixed_window_start now window_seconds ≡ start) times
    → Used s start used store.buckets
    → (store' : Store) × (answers : List (Option ℕ)) × (requests s budget_limit window_seconds times
          store
        ≡ ok (store', answers))
      × (passed answers ≡ min (budget_limit - used) (length times))
      × (audits store' ≡ audits store + crossing budget_limit used (length times))
unfolding requests count
requests_in_window s budget_limit window_seconds start used [] store sensible h u =
    (store, [], refl, omega arith, ground arith)
requests_in_window s budget_limit window_seconds start used (now ∷ times) store sensible (h, hs) u =
    let (store₁, answer, e, a) =
      one_request s budget_limit window_seconds start now used store sensible h u in
    let (store', answers, e', p, r) =
      requests_in_window s budget_limit window_seconds start (suc used) times store₁ sensible hs
        a.uses in
    (
      store',
      answer ∷ answers,
      rw (e, e'),
      pass_step budget_limit used (length times) (is_none answer) (passed answers) a.lets p,
      omega (arith, a.records, r, cross_step budget_limit used (length times)),
    )

decide_retry :
    (s : Scope) (budget_limit window_seconds now retry : ℕ) (b : CursorAccessBucket)
    (store store' : Store)
    → b.window_started_at ≤ now
    → 0 < window_seconds
    → decide s budget_limit window_seconds now b store ≡ (store', some retry)
    → (1 ≤ retry) × (retry ≤ window_seconds)
unfolding decide
decide_retry s budget_limit window_seconds now retry b store store' h w e = ground arith

-- A rejected request is told to wait for at least a second and at most a window, if its window has been
-- used and no bucket of a later window stands in its way.
pub retry_after_bounds :
    (s : Scope) (budget_limit window_seconds start used now retry : ℕ) (store store' : Store)
    → IsSensible s window_seconds
    → fixed_window_start now window_seconds ≡ start
    → Used s start used store.buckets
    → enforce_cursor_page_budget postgresql s true budget_limit window_seconds now store
      ≡ ok (store', some retry)
    → (1 ≤ retry) × (retry ≤ window_seconds)
unfolding enforce_cursor_page_budget consume_cursor_page_budget
retry_after_bounds s budget_limit window_seconds start used now retry store store' sensible window u
      e =
    let (b, buckets) = upsert s start store.buckets in
    let (_, begun, _) = upsert-Used s start used store.buckets u in
    let early = start-le now window_seconds start window sensible.positive in
    decide_retry s budget_limit window_seconds now retry b (record store { buckets = buckets })
      store' (omega arith) sensible.positive (ground arith)
  where
    start-le :
        (now window_seconds start : ℕ)
        → fixed_window_start now window_seconds ≡ start
        → 0 < window_seconds
        → start ≤ now
    start-le now w start h p = unfold fixed_window_start in grind arith
