-- ===== src/Deals/Moved.antt =====
-- A deal moves to a stage of its own pipeline, with the fields that the stage requires.
use pulse_crm.Prelude.Table.Laws.{find?-test}
use pulse_crm.Prelude.{
  ℕ, ◌≡◌, ◌≢◌, refl, ◌⊎◌, inl, inr, String, false, not, Option, none, some, List, [], ◌∷◌, ◌++◌,
  All, ◌==◌, is_blank, if◌then◌else◌, select, find?, update, Bool-cases, arith, ok, http, require,
  >>=-eq-ok, raise_if-eq-ok, require-eq-ok,
}
use pulse_crm.Models.{Value, Deal}
use pulse_crm.Access.{Context, ensure_deal_access}
use pulse_crm.Events.{record_domain_event}
use pulse_crm.Pipelines.{Stage, version_conflict}
use pulse_crm.Deals.{
  CustomFieldDefinition, StageRequiredField, StageTransition, DealStore, blank_value, custom_value,
  built_in_value, definition_of, if_blank, custom_missing, built_in_missing, requirement_missing,
  missing_fields, required_at, in_pipeline, unchanged, moved, stage_change, stage_changed,
  write_transition, move_deal, is_nil, transition_deal_stage,
}

module _ (s : DealStore) (c : Context) (deal : Deal) where
  abbrev pub CustomFilled : Option CustomFieldDefinition → Type 0
  CustomFilled none = Unit
  CustomFilled (some d) = blank_value (custom_value d.key deal.custom_fields) ≡ false

  abbrev pub BuiltInFilled : String → Type 0
  BuiltInFilled key = (v : Value) × (built_in_value s c deal key ≡ ok v) × (blank_value v ≡ false)

  -- The deal has a value for a required field: for its built-in key, or else its active definition.
  abbrev pub Filled : StageRequiredField → Option String → Type 0
  Filled q none = CustomFilled (definition_of s c.workspace_id q.field_definition_id)
  Filled q (some key) =
      if is_blank key
      then CustomFilled (definition_of s c.workspace_id q.field_definition_id)
      else BuiltInFilled key

  abbrev pub IsFilled : StageRequiredField → Type 0
  IsFilled q = Filled q q.built_in_key

  if_blank-nil : (v : Value) (key name : String) → if_blank v key name ≡ [] → blank_value v ≡ false
  unfolding if_blank
  if_blank-nil v key name h = ground (arith, h)

  custom_missing-nil :
      (o : Option CustomFieldDefinition) → custom_missing o deal ≡ [] → CustomFilled o
  unfolding custom_missing
  custom_missing-nil none h = tt
  custom_missing-nil (some d) h =
      if_blank-nil (custom_value d.key deal.custom_fields) d.key d.name h

  built_in_missing-nil : (key : String) → built_in_missing s c deal key ≡ ok [] → BuiltInFilled key
  unfolding built_in_missing
  built_in_missing-nil key h =
      let (v, e, done) = >>=-eq-ok (built_in_value s c deal key) _ h in
      (v, e, if_blank-nil v key key (ground (arith, done)))

  requirement_missing-nil :
      (q : StageRequiredField) (o : Option String)
      → requirement_missing s c deal q o ≡ ok []
      → Filled q o
  unfolding requirement_missing
  requirement_missing-nil q none h =
      custom_missing-nil (definition_of s c.workspace_id q.field_definition_id) (ground (arith, h))
  requirement_missing-nil q (some key) h = elim (Bool-cases (is_blank key)) [
    | inl e ↦ rw e (
        custom_missing-nil (definition_of s c.workspace_id q.field_definition_id)
          (ground (arith, rw e at h)))
    | inr e ↦ rw e (built_in_missing-nil key (rw e at h))
  ]

  append-nil_left : (xs ys : List (String × String)) → xs ++ ys ≡ [] → (xs ≡ []) × (ys ≡ [])
  append-nil_left [] ys h = (refl, h)
  append-nil_left (x ∷ xs) ys h = cc h

  missing_fields-nil :
      (qs : List StageRequiredField) → missing_fields s c deal qs ≡ ok [] → All IsFilled qs
  unfolding missing_fields
  missing_fields-nil [] h = tt
  missing_fields-nil (q ∷ qs) h =
      let (here, e, h1) = >>=-eq-ok (requirement_missing s c deal q q.built_in_key) _ h in
      let (rest, f, done) = >>=-eq-ok (missing_fields s c deal qs) _ h1 in
      let (none_here, none_left) = append-nil_left here rest (ground (arith, done)) in
      (
        requirement_missing-nil q q.built_in_key (rw none_here at e),
        missing_fields-nil qs (rw none_left at f),
      )

-- What a request leaves of the deal that it read: the deal as it is, or the row that still had its
-- version, moved, with one row of history and one event.
abbrev pub IsMoved : ℕ → Context → Deal → ℕ → ℕ → List Deal → DealStore → Deal → DealStore → Type 0
IsMoved now c deal target_id version meanwhile s r s' =
    ((deal.stage_id ≡ target_id) × (r ≡ deal) × (s' ≡ s))
    ⊎ ((deal.stage_id ≢ target_id)
        × (y : Deal) × (find? (unchanged c deal.id version) meanwhile ≡ some y)
        × (r ≡ moved now target_id version y)
        × (s'.directory.deals
            ≡ update (unchanged c deal.id version) (moved now target_id version) meanwhile)
        × (s'.history ≡ stage_change now c deal target_id ∷ s.history)
        × (s'.journal ≡ record_domain_event (stage_changed c deal target_id) s.journal))

move_deal-IsMoved :
    (now : ℕ) (c : Context) (deal : Deal) (target : Stage) (version : ℕ) (meanwhile : List Deal)
    (s s' : DealStore) (r : Deal)
    → move_deal now c deal target version meanwhile s ≡ ok (r, s')
    → IsMoved now c deal target.id version meanwhile s r s'
unfolding move_deal write_transition
move_deal-IsMoved now c deal target version meanwhile s s' r h =
    elim (Bool-cases (deal.stage_id == target.id)) [
      | inl e ↦ inl (ground (arith, e), ground (arith, e, h), ground (arith, e, h))
      | inr e ↦
          let o = find? (unchanged c deal.id version) meanwhile in
          let h' : write_transition now c deal target version meanwhile s ≡ ok (r, s') =
            rw e at h in
          let (y, found, done) = >>=-eq-ok (require o version_conflict) _ h' in
          inr (
            (ground (arith, e)),
            y,
            require-eq-ok o version_conflict found,
            ground (arith, done),
            ground (arith, done),
            ground (arith, done),
            ground (arith, done),
          )
    ]

abbrev pub IsTransition :
    ℕ → Context → ℕ → StageTransition → List Deal → DealStore → Deal → DealStore → Type 0
IsTransition now c deal_id payload meanwhile s r s' =
    (deal : Deal) × (target : Stage) × (ensure_deal_access s.directory c deal_id ≡ ok deal)
    × (deal.version ≡ payload.expected_version)
    × (target.id ≡ payload.target_stage_id)
    × (target.workspace_id ≡ c.workspace_id)
    × (target.pipeline_id ≡ deal.pipeline_id)
    × All (IsFilled s c deal) (select (required_at c target.id) s.required_fields)
    × IsMoved now c deal target.id payload.expected_version meanwhile s r s'

pub transition_deal_stage-IsTransition :
    (now : ℕ) (c : Context) (deal_id : ℕ) (payload : StageTransition) (meanwhile : List Deal)
    (s s' : DealStore) (r : Deal)
    → transition_deal_stage now c deal_id payload meanwhile s ≡ ok (r, s')
    → IsTransition now c deal_id payload meanwhile s r s'
unfolding transition_deal_stage in_pipeline is_nil
transition_deal_stage-IsTransition now c deal_id payload meanwhile s s' r h =
    let (deal, seen, h1) = >>=-eq-ok (ensure_deal_access s.directory c deal_id) _ h in
    let (fresh, h2) =
      raise_if-eq-ok (not (deal.version == payload.expected_version)) version_conflict _ h1 in
    let o = find? (in_pipeline c payload.target_stage_id deal.pipeline_id) s.stages in
    let foreign = http 422 "target stage does not belong to deal pipeline" in
    let (target, found, h3) = >>=-eq-ok (require o foreign) _ h2 in
    let own =
      find?-test (in_pipeline c payload.target_stage_id deal.pipeline_id) s.stages
        (require-eq-ok o foreign found) in
    let needed = select (required_at c target.id) s.required_fields in
    let (missing, checked, h4) = >>=-eq-ok (missing_fields s c deal needed) _ h3 in
    let (complete, h5) =
      raise_if-eq-ok (not (is_nil missing)) (http 422 "missing_required_fields") _ h4 in
    let nil_of_test : missing ≡ [] = ground (arith, complete) in
    (
      deal,
      target,
      seen,
      ground (arith, fresh),
      ground (arith, own),
      ground (arith, own),
      ground (arith, own),
      missing_fields-nil s c deal needed (rw nil_of_test at checked),
      move_deal-IsMoved now c deal target payload.expected_version meanwhile s s' r h5,
    )
