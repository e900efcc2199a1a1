-- ===== src/Deals/Transition.antt =====
-- What a transition means, in the columns of the rows.
use mathlib.Core.List.{Memᴰ}
use pulse_crm.Prelude.Table.Laws.{find?-test}
use pulse_crm.Prelude.Table.Members.{
  Distinct, All-mem, find?-mem, find?-eq-some, mem-select, mem-update, mem-update_hit,
}
use pulse_crm.Prelude.{
  ℕ, ◌+◌, ◌≡◌, ◌≢◌, refl, ◌⊎◌, inl, inr, String, true, false, Option, none, some, List, [], ◌∷◌,
  is_blank, find?, arith, ok, Bool-cases,
}
use pulse_crm.Models.{Deal}
use pulse_crm.Access.{Context, ensure_deal_access}
use pulse_crm.Events.{number, record_domain_event}
use pulse_crm.Pipelines.{Stage, board_event}
use pulse_crm.Deals.{
  CustomFieldDefinition, StageRequiredField, StageTransition, DealStore, active_definition,
  definition_of, blank_value, custom_value, required_at, unchanged, moved, transition_deal_stage,
}
use pulse_crm.Deals.Moved.{
  BuiltInFilled, CustomFilled, Filled, IsFilled, transition_deal_stage-IsTransition,
}

module _ (s : DealStore) (c : Context) (deal : Deal) where
  -- Every active definition of that identifier in the workspace has a value.
  abbrev pub HasCustom : Option ℕ → Type 0
  HasCustom field_definition_id =
      (d : CustomFieldDefinition)
      → Memᴰ d s.definitions
      → field_definition_id ≡ some d.id
      → d.workspace_id ≡ c.workspace_id
      → d.is_active ≡ true
      → blank_value (custom_value d.key deal.custom_fields) ≡ false

  -- The requirement names a built-in column that has a value, or else a custom field.
  abbrev pub HasValue : StageRequiredField → Type 0
  HasValue q =
      ((key : String) × (q.built_in_key ≡ some key)
        × (is_blank key ≡ false)
        × BuiltInFilled s c deal key)
      ⊎ (((q.built_in_key ≡ none)
            ⊎ ((key : String) × (q.built_in_key ≡ some key) × (is_blank key ≡ true)))
          × HasCustom q.field_definition_id)

  CustomFilled-HasCustom :
      (id : Option ℕ)
      → Distinct CustomFieldDefinition.id s.definitions
      → CustomFilled s c deal (definition_of s c.workspace_id id)
      → HasCustom id
  unfolding definition_of active_definition
  CustomFilled-HasCustom none unique h d m same w active = cc same
  CustomFilled-HasCustom (some id) unique h d m same w active =
      let one : id ≡ d.id = ground (arith, same) in
      let found : find? (active_definition c.workspace_id id) s.definitions ≡ some d =
        find?-eq-some CustomFieldDefinition.id (active_definition c.workspace_id id) s.definitions
          unique m (ground (arith, one, w, active)) (λ y t. ground (arith, t, one)) in
      rw found at h

  pub Filled-HasValue :
      (q : StageRequiredField) (o : Option String)
      → q.built_in_key ≡ o
      → Distinct CustomFieldDefinition.id s.definitions
      → Filled s c deal q o
      → HasValue q
  Filled-HasValue q none e unique h =
      inr (inl e, CustomFilled-HasCustom q.field_definition_id unique h)
  Filled-HasValue q (some key) e unique h = elim (Bool-cases (is_blank key)) [
    | inl b ↦ inr (inr (key, e, b), CustomFilled-HasCustom q.field_definition_id unique (rw b at h))
    | inr b ↦ inl (key, e, b, rw b at h)
  ]

-- The row that moved, and what was written of it.
pub record IsWritten (now : ℕ) (c : Context) (deal : Deal) (target_id version : ℕ)
    (meanwhile : List Deal) (s s' : DealStore) (r : Deal) : Type 0 where
  pub row : Deal
  pub current : Memᴰ row meanwhile
  pub same_key : row.id ≡ deal.id
  pub expected : row.version ≡ version
  pub result : r ≡ record row {
    stage_id = target_id;
    version = version + 1;
    updated_at = now;
    last_activity_at = now;
  }
  pub stored : Memᴰ r s'.directory.deals
  pub others : (x : Deal) → Memᴰ x meanwhile → x.id ≢ deal.id → Memᴰ x s'.directory.deals
  pub history :
      s'.history
      ≡ record {
        workspace_id = c.workspace_id;
        deal_id = deal.id;
        from_stage_id = some deal.stage_id;
        to_stage_id = target_id;
        actor_id = some c.user_id;
        changed_at = now;
      }
        ∷ s.history
  pub journal :
      s'.journal
      ≡ record_domain_event
          (board_event "deal.stage_changed" "deal" c deal.id
            (("from_stage_id", number deal.stage_id) ∷ ("to_stage_id", number target_id) ∷ []))
          s.journal

pub record IsCarriedOut (now : ℕ) (c : Context) (deal_id : ℕ) (payload : StageTransition)
    (meanwhile : List Deal) (s s' : DealStore) (r : Deal) : Type 0 where
  pub deal : Deal
  pub target : Stage
  pub seen : ensure_deal_access s.directory c deal_id ≡ ok deal
  pub fresh : deal.version ≡ payload.expected_version
  pub target_is : target.id ≡ payload.target_stage_id
  pub inside : target.workspace_id ≡ c.workspace_id
  pub of_pipeline : target.pipeline_id ≡ deal.pipeline_id
  pub complete :
      (q : StageRequiredField)
      → Memᴰ q s.required_fields
      → q.stage_id ≡ target.id
      → q.workspace_id ≡ c.workspace_id
      → HasValue s c deal q
  pub outcome :
      ((deal.stage_id ≡ target.id) × (r ≡ deal) × (s' ≡ s))
      ⊎ ((deal.stage_id ≢ target.id)
          × IsWritten now c deal target.id payload.expected_version meanwhile s s' r)

-- A transition that succeeds read a deal that the user may see in the version that the request
-- expects, and a stage of the deal's pipeline in the user's workspace, and the deal has a value for
-- every built-in column and every active custom field that this stage requires. If the deal stands
-- there already nothing is written. Otherwise the row of the deal that still has the expected
-- version, whatever other requests committed meanwhile, stands at the stage with the next version,
-- every other deal stays, and one row of history and one event name the stage that it left and the
-- stage that it entered. The identifiers of the definitions are distinct.
pub transition_deal_stage-IsCarriedOut :
    (now : ℕ) (c : Context) (deal_id : ℕ) (payload : StageTransition) (meanwhile : List Deal)
    (s s' : DealStore) (r : Deal)
    → Distinct CustomFieldDefinition.id s.definitions
    → transition_deal_stage now c deal_id payload meanwhile s ≡ ok (r, s')
    → IsCarriedOut now c deal_id payload meanwhile s s' r
unfolding required_at unchanged
transition_deal_stage-IsCarriedOut now c deal_id payload meanwhile s s' r unique h =
    let (deal, target, seen, fresh, a, b, p, filled, result) =
      transition_deal_stage-IsTransition now c deal_id payload meanwhile s s' r h in
    let v = payload.expected_version in
    let hit = unchanged c deal.id v in
    let f = moved now target.id v in
    record {
      deal = deal;
      target = target;
      seen = seen;
      fresh = fresh;
      target_is = a;
      inside = b;
      of_pipeline = p;
      complete = λ q m at_stage own. Filled-HasValue s c deal q q.built_in_key refl unique (
          All-mem (IsFilled s c deal) filled (
            mem-select (required_at c target.id) s.required_fields m
              (ground (arith, at_stage, own))));
      outcome = elim result [
        | inl stays ↦ inl stays
        | inr (apart, y, found, e, rows, hist, j) ↦
            let t = find?-test hit meanwhile found in
            let m = find?-mem hit meanwhile found in
            inr (
              apart,
              record {
                row = y;
                current = m;
                same_key = ground (arith, t);
                expected = ground (arith, t);
                result = e;
                stored = rw (rows, e) (mem-update_hit hit f meanwhile m t);
                others =
                    λ x k other. rw rows (mem-update hit f meanwhile k (ground (arith, other)));
                history = hist;
                journal = j;
              },
            )
      ];
    }
