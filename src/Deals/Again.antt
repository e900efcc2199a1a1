-- ===== src/Deals/Again.antt =====
-- A version is used up by the move that it was for.
use mathlib.Core.List.{Memᴰ}
use pulse_crm.Prelude.Table.Laws.{find?-test}
use pulse_crm.Prelude.Table.Members.{
  Distinct, update-Distinct, Distinct-eq, find?-mem, mem-update_hit,
}
use pulse_crm.Prelude.{
  ℕ, ◌+◌, ◌≡◌, ◌≢◌, refl, sym, ap, ◌∙◌, ◌⊎◌, inl, inr, Bool, ◌&&◌, some, List, Error, Result-cases,
  ◌==◌, is_none, find?, update, arith, err, ok, http, require-eq-ok,
}
use pulse_crm.Models.{Deal}
use pulse_crm.Access.{Context, Directory, deal_access_condition, ensure_deal_access}
use pulse_crm.Deals.{StageTransition, DealStore, unchanged, moved, transition_deal_stage}
use pulse_crm.Deals.Moved.{transition_deal_stage-IsTransition}

ensure_deal_access-id :
    (d : Directory) (c : Context) (deal_id : ℕ) (x : Deal)
    → ensure_deal_access d c deal_id ≡ ok x
    → x.id ≡ deal_id
unfolding ensure_deal_access deal_access_condition
ensure_deal_access-id d c deal_id x h =
    let seen : (Deal → Bool) = λ x.
      x.id == deal_id
      && x.workspace_id == c.workspace_id
      && is_none x.deleted_at
      && deal_access_condition c x in
    let t =
      find?-test seen d.deals (require-eq-ok (find? seen d.deals) (http 404 "deal not found") h) in
    ground (arith, t)

-- After the UPDATE no row of the deal has the version that it was for.
used_up :
    (c c' : Context) (id id' target_id version version' now : ℕ) (meanwhile deals : List Deal)
    (y x : Deal)
    → Distinct Deal.id meanwhile
    → find? (unchanged c id version) meanwhile ≡ some y
    → deals ≡ update (unchanged c id version) (moved now target_id version) meanwhile
    → find? (unchanged c' id' version') deals ≡ some x
    → id ≡ id'
    → version' ≡ version
    → version + 1 ≡ version
unfolding unchanged
used_up c c' id id' target_id version version' now meanwhile deals y x distinct found rows found'
      key same =
    let p = unchanged c id version in
    let f = moved now target_id version in
    let t = find?-test p meanwhile found in
    let t' = find?-test (unchanged c' id' version') deals found' in
    let there : Memᴰ (f y) (update p f meanwhile) =
      mem-update_hit p f meanwhile (find?-mem p meanwhile found) t in
    let kept : Distinct Deal.id (update p f meanwhile) =
      update-Distinct Deal.id p f (λ x e. refl) meanwhile distinct in
    let m : Memᴰ x (update p f meanwhile) =
      rw rows at (find?-mem (unchanged c' id' version') deals found') in
    let one : x ≡ f y =
      Distinct-eq Deal.id (update p f meanwhile) kept m there (ground (arith, t, t', key)) in
    let at_version : x.version ≡ version' = ground (arith, t') in
    let stale : version + 1 ≡ version' = rw one at at_version in omega (arith, stale, same)

-- Once a transition has moved a deal to another stage, every other request for that deal with the
-- version that it expected, of whichever user, to whichever stage and whatever it read before, ends
-- with an error or writes nothing, where its UPDATE runs on the deals that the first one left: no
-- move is lost, and none is made twice. The identifiers of the deals are distinct.
pub transition_deal_stage-conflict :
    (now now' : ℕ) (c c' : Context) (deal_id : ℕ) (payload payload' : StageTransition)
    (meanwhile : List Deal) (s s' t : DealStore) (r before_move : Deal)
    → Distinct Deal.id meanwhile
    → transition_deal_stage now c deal_id payload meanwhile s ≡ ok (r, s')
    → ensure_deal_access s.directory c deal_id ≡ ok before_move
    → before_move.stage_id ≢ payload.target_stage_id
    → payload'.expected_version ≡ payload.expected_version
    → ((e : Error) × (transition_deal_stage now' c' deal_id payload' s'.directory.deals t ≡ err e))
      ⊎ ((x : Deal) × (transition_deal_stage now' c' deal_id payload' s'.directory.deals t
            ≡ ok (x, t))
          × (x.stage_id ≡ payload'.target_stage_id))
unfolding unchanged
transition_deal_stage-conflict now now' c c' deal_id payload payload' meanwhile s s' t r before_move
      distinct h read apart same =
    let (deal, target, seen, fresh, a, _, _, _, result) =
      transition_deal_stage-IsTransition now c deal_id payload meanwhile s s' r h in
    let v = payload.expected_version in
    let one : before_move ≡ deal = ground (arith, read, seen) in
    let left = rw one at apart in
    let again = transition_deal_stage now' c' deal_id payload' s'.directory.deals t in
    elim (Result-cases again) [
      | inl (e, failed) ↦ inl (e, failed)
      | inr ((r', t'), done) ↦
          let (deal', target', seen', fresh', a', _, _, _, result') =
            transition_deal_stage-IsTransition now' c' deal_id payload' s'.directory.deals t t' r'
              done in
          elim result [
            | inl (stays, _, _) ↦ absurd (left (stays ∙ a))
            | inr (_, y, found, _, rows, _, _) ↦ elim result' [
              | inl (stays, e, kept) ↦ inr (r', rw kept at done, ap Deal.stage_id e ∙ stays ∙ a')
              | inr (_, x, found', _, _, _, _) ↦
                  let gone =
                    used_up c c' deal.id deal'.id target.id v payload'.expected_version now
                      meanwhile s'.directory.deals y x distinct found rows found'
                      (ensure_deal_access-id s.directory c deal_id deal seen
                        ∙ sym (ensure_deal_access-id t.directory c' deal_id deal' seen'))
                      same in
                  absurd (omega (arith, gone))
            ]
          ]
    ]
