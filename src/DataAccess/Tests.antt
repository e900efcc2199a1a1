-- ===== src/DataAccess/Tests.antt =====
-- The budget of two continued pages in a window of a minute.
use pulse_crm.Prelude.{
  ℕ, ◌+◌, ◌≡◌, refl, min, inl, Option, List, [], ◌∷◌, arith, ok, is_blank, find?, text_length,
}
use pulse_crm.Events.{no_events}
use pulse_crm.DataAccess.{CursorAccessBucket, Scope, Store, fixed_window_start, exceeded}
use pulse_crm.DataAccess.Budget.{IsSensible, requests, passed, audits, crossing, requests_in_window}

abbrev scope : Scope
scope = record { workspace_id = 1; user_id = 5; resource = "contacts" }

abbrev empty : Store
empty = record { buckets = []; journal = no_events }

scope-IsSensible : IsSensible scope 60
unfolding is_blank text_length
scope-IsSensible = record { named = refl; short = omega arith; positive = omega arith }

requests_in_window_example :
    (store' : Store) × (answers : List (Option ℕ)) × (requests scope 2 60
        (600 ∷ 601 ∷ 602 ∷ [])
        empty
      ≡ ok (store', answers))
    × (passed answers ≡ min 2 3)
    × (audits store' ≡ audits empty + crossing 2 0 3)
unfolding fixed_window_start find?
requests_in_window_example =
    requests_in_window scope 2 60 600 0 (600 ∷ 601 ∷ 602 ∷ []) empty scope-IsSensible
      (refl, (refl, (refl, tt))) (inl refl)

abbrev used_up : CursorAccessBucket
used_up = record {
  workspace_id = 1;
  user_id = 5;
  resource = "contacts";
  window_started_at = 600;
  request_count = 2;
}

abbrev rejected : CursorAccessBucket
rejected = record used_up { request_count = 3 }

abbrev after : Store
after = record { buckets = rejected ∷ []; journal = exceeded scope 3 60 no_events }
