-- ===== src/Deals/Enforced.antt =====
-- What a stage is made to require is what the deals need that enter it.
use mathlib.Core.List.{Memᴰ}
use pulse_crm.Prelude.Table.Members.{Distinct, any-mem}
use pulse_crm.Prelude.Table.Laws.{find?-test}
use pulse_crm.Prelude.{
  ℕ, ◌≡◌, refl, sym, ap, ◌∙◌, inl, inr, String, true, false, not, ◌&&◌, ◌||◌, some, is_blank,
  Option-cases, List, [], ◌∷◌, ◌++◌, All, map, delete, ◌==◌, ==_refl, str_eq, select, find?, any,
  arith, ok, http, require, >>=-eq-ok, raise_if-eq-ok, require-eq-ok,
}
use pulse_crm.Models.{Deal}
use pulse_crm.Access.{Context, ensure_deal_access}
use pulse_crm.Pipelines.{stage_not_found}
use pulse_crm.Deals.{
  CustomFieldDefinition, StageRequiredField, StageTransition, DealStore, active_definition,
  blank_value, custom_value, required_at, transition_deal_stage,
}
use pulse_crm.Deals.Required.{
  RequiredFieldInput, builtin_keys, definition_ids, id_of, repeats, is_supported, has_definition,
  own_stage, new_required, replace_required_fields,
}
use pulse_crm.Deals.Moved.{BuiltInFilled, IsFilled, transition_deal_stage-IsTransition}
use pulse_crm.Deals.Transition.{Filled-HasValue}

select-new_required :
    (P : StageRequiredField → Type 0) (c : Context) (stage_id : ℕ) (items : List RequiredFieldInput)
    (rest : List StageRequiredField)
    → All P
        (select (required_at c stage_id) (map (new_required c.workspace_id stage_id) items ++ rest))
    → All (λ x. P (new_required c.workspace_id stage_id x)) items
unfolding select required_at
select-new_required P c stage_id [] rest h = tt
select-new_required P c stage_id (x ∷ xs) rest h =
    let i = ==_refl stage_id in
    let w = ==_refl c.workspace_id in
    let (hx, hs) = rw (i, w) at h in (hx, select-new_required P c stage_id xs rest hs)

-- The same for equal rows, stage and workspace.
select-required :
    (P : StageRequiredField → Type 0) (c : Context) (target_id stage_id workspace_id : ℕ)
    (items : List RequiredFieldInput) (xs rest : List StageRequiredField)
    → target_id ≡ stage_id
    → xs ≡ map (new_required workspace_id stage_id) items ++ rest
    → workspace_id ≡ c.workspace_id
    → All P (select (required_at c target_id) xs)
    → All (λ x. P (new_required c.workspace_id stage_id x)) items
select-required P c target_id stage_id workspace_id items xs rest e kept same h =
    let kept' : xs ≡ map (new_required c.workspace_id stage_id) items ++ rest =
      kept ∙ ap (λ w. map (new_required w stage_id) items ++ rest) same in
    select-new_required P c stage_id items rest (rw (e, kept') at h)

replace_required_fields-rows :
    (c : Context) (stage_id : ℕ) (items : List RequiredFieldInput) (s s' : DealStore)
    (rows : List StageRequiredField)
    → replace_required_fields c stage_id items s ≡ ok (rows, s')
    → (rest : List StageRequiredField) × (s'.required_fields
        ≡ map (new_required c.workspace_id stage_id) items ++ rest)
      × (s'.definitions ≡ s.definitions)
      × (any (λ id. not (has_definition s c id)) (definition_ids items) ≡ false)
unfolding replace_required_fields own_stage
replace_required_fields-rows c stage_id items s s' rows h =
    let o = find? (own_stage c stage_id) s.stages in
    let (stage, found, h1) = >>=-eq-ok (require o stage_not_found) _ h in
    let t = find?-test (own_stage c stage_id) s.stages (require-eq-ok o stage_not_found found) in
    let own : stage.id ≡ stage_id = ground (arith, t) in
    let keys = builtin_keys items in
    let ids = definition_ids items in
    let (a, h2) =
      raise_if-eq-ok (any (λ key. not (is_supported key)) keys)
        (http 422 "unsupported built-in required field") _ h1 in
    let (b, h3) =
      raise_if-eq-ok (repeats str_eq keys || repeats (λ a b. a == b) ids)
        (http 422 "required fields must be unique") _ h2 in
    let (d, done) =
      raise_if-eq-ok (any (λ id. not (has_definition s c id)) ids)
        (http 422 "unknown or non-deal custom field") _ h3 in
    let result : map (new_required c.workspace_id stage.id) items
          ++ delete (required_at c stage.id) s.required_fields
        ≡ s'.required_fields =
      ground (arith, done) in
    (
      delete (required_at c stage_id) s.required_fields,
      rw (← result, own) refl,
      ground (arith, done),
      d,
    )

-- The definitions of the workspace are the same for both requests.
moved_known :
    (s s' : DealStore) (c c' : Context) (id : ℕ)
    → s'.definitions ≡ s.definitions
    → c'.workspace_id ≡ c.workspace_id
    → has_definition s c id ≡ true
    → has_definition s' c' id ≡ true
unfolding has_definition
moved_known s s' c c' id definitions same h = rw (definitions, same) h

All-both :
    {P Q R : RequiredFieldInput → Type 0}
    → ((x : RequiredFieldInput) → P x → Q x → R x)
    → (xs : List RequiredFieldInput) → All P xs
    → All Q xs
    → All R xs
All-both f [] hp hq = tt
All-both f (x ∷ xs) (p, hp) (q, hq) = (f x p q, All-both f xs hp hq)

-- The custom fields that the checks let pass are there.
definitions_known :
    (s : DealStore) (c : Context) (items : List RequiredFieldInput)
    → any (λ id. not (has_definition s c id)) (definition_ids items) ≡ false
    → All (λ x. (id : ℕ) → x.field_definition_id ≡ some id → has_definition s c id ≡ true) items
unfolding definition_ids id_of any
definitions_known s c [] h = tt
definitions_known s c (x ∷ xs) h = elim (Option-cases x.field_definition_id) [
  | inl e ↦ (λ id same. cc (e, same), definitions_known s c xs (rw e at h))
  | inr (i, e) ↦
      let h' = rw e at h in
      (
        λ id same.
            let one : i ≡ id = ground (arith, e, same) in
            let here : has_definition s c i ≡ true = ground (arith, h') in rw one at here,
        definitions_known s c xs (ground (arith, h')),
      )
]

-- A field that the input names has a value: the built-in column, or, where it names none, the custom
-- field, whose definition is there.
abbrev pub IsEnforced : DealStore → Context → Deal → RequiredFieldInput → Type 0
IsEnforced s c deal item =
    ((key : String)
      → item.built_in_key ≡ some key
      → is_blank key ≡ false
      → BuiltInFilled s c deal key)
    × ((id : ℕ)
        → item.field_definition_id ≡ some id
        → ((key : String) → item.built_in_key ≡ some key → is_blank key ≡ true)
        → (d : CustomFieldDefinition) × Memᴰ d s.definitions
          × (d.id ≡ id)
          × (d.workspace_id ≡ c.workspace_id)
          × (d.is_active ≡ true)
          × (d.of_deals ≡ true)
          × (blank_value (custom_value d.key deal.custom_fields) ≡ false))

item-IsEnforced :
    (s : DealStore) (c : Context) (deal : Deal) (stage_id : ℕ) (item : RequiredFieldInput)
    → Distinct CustomFieldDefinition.id s.definitions
    → ((id : ℕ) → item.field_definition_id ≡ some id → has_definition s c id ≡ true)
    → IsFilled s c deal (new_required c.workspace_id stage_id item)
    → IsEnforced s c deal item
unfolding has_definition active_definition
item-IsEnforced s c deal stage_id item unique known h =
    let q = new_required c.workspace_id stage_id item in
    let value = Filled-HasValue s c deal q item.built_in_key refl unique h in
    (
      λ key named full. elim value [
        | inl (k, e, b, filled) ↦ let one : k ≡ key = ground (arith, e, named) in rw one at filled
        | inr (inl e, custom) ↦ cc (e, named)
        | inr (inr (k, e, b), custom) ↦
            let one : k ≡ key = ground (arith, e, named) in cc (rw one at b, full)
      ],
      λ id asked unnamed.
          let (d, m, t) =
            any-mem (λ d. active_definition c.workspace_id id d && d.of_deals) s.definitions
              (known id asked) in
          let one : d.id ≡ id = ground (arith, t) in
          elim value [
            | inl (k, e, b, filled) ↦ let blank = unnamed k e in absurd (ground (arith, blank, b))
            | inr (why, custom) ↦ (
              d,
              m,
              one,
              ground (arith, t),
              ground (arith, t),
              ground (arith, t),
              custom d m (ground (arith, asked, one)) (ground (arith, t)) (ground (arith, t)),
            )
          ],
    )

-- After the required fields of a stage are replaced, every transition to that stage that succeeds in
-- the workspace is of a deal that has a value for each of the new fields: for the built-in column that
-- it names, or else for the custom field, which is an active one of deals in the workspace. The
-- identifiers of the definitions are distinct.
pub replace_required_fields-IsEnforced :
    (c c' : Context) (stage_id : ℕ) (items : List RequiredFieldInput) (s s' s'' : DealStore)
    (rows : List StageRequiredField) (now deal_id : ℕ) (payload : StageTransition)
    (meanwhile : List Deal) (r : Deal)
    → Distinct CustomFieldDefinition.id s.definitions
    → replace_required_fields c stage_id items s ≡ ok (rows, s')
    → c'.workspace_id ≡ c.workspace_id
    → payload.target_stage_id ≡ stage_id
    → transition_deal_stage now c' deal_id payload meanwhile s' ≡ ok (r, s'')
    → (deal : Deal) × (ensure_deal_access s'.directory c' deal_id ≡ ok deal)
      × All (IsEnforced s' c' deal) items
replace_required_fields-IsEnforced c c' stage_id items s s' s'' rows now deal_id payload meanwhile r
      unique replaced same to h =
    let (deal, target, seen, fresh, a, b, p, filled, result) =
      transition_deal_stage-IsTransition now c' deal_id payload meanwhile s' s'' r h in
    let (rest, kept, definitions, known) =
      replace_required_fields-rows c stage_id items s s' rows replaced in
    let here =
      select-required (IsFilled s' c' deal) c' target.id stage_id c.workspace_id items
        s'.required_fields rest (a ∙ to) kept (sym same) filled in
    (
      deal,
      seen,
      All-both
          (λ item k f.
            item-IsEnforced s' c' deal stage_id item (rw definitions unique)
              (λ id e. moved_known s s' c c' id definitions same (k id e)) f)
          items (definitions_known s c items known) here,
    )
