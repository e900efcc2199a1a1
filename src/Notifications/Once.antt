-- ===== src/Notifications/Once.antt =====
-- One delivery and one event for each key.
use pulse_crm.Prelude.Table.Members.{find?-mem}
use pulse_crm.Prelude.Table.Counts.{count-pos}
use pulse_crm.Prelude.Table.Laws.{find?-test, find?-none-All, count-eq-zero_of_All}
use pulse_crm.Prelude.{
  ℕ, ◌≤◌, ◌≡◌, refl, ◌⊎◌, inl, inr, String, Bool, true, false, Option, none, some, List, ◌∷◌,
  ==_refl, eq_iff, arith, find?, count, ok, or_else, >>=-eq-ok,
}
use pulse_crm.Consents.{Consent}
use pulse_crm.Notifications.Template.{render_notification_template}
use pulse_crm.Notifications.{
  NotificationDelivery, Notice, Outbox, same_delivery, new_delivery, insert_delivery, queued_event,
  check_notice, check_consent, render_subject, queue_notification,
}

module _ (workspace_id : ℕ) (dedupe_key : String) where
  abbrev key : NotificationDelivery → Bool
  key = same_delivery workspace_id dedupe_key

  -- `d` is the one delivery of its key, written with its event unless it was there.
  abbrev pub IsOnly : NotificationDelivery → Bool → Outbox → Outbox → Type 0
  IsOnly d created out out' =
      (find? key out'.deliveries ≡ some d)
      × (count key out'.deliveries ≡ 1)
      × (((created ≡ false) × (out' ≡ out))
          ⊎ ((created ≡ true)
              × (out'.deliveries ≡ d ∷ out.deliveries)
              × (out'.events ≡ queued_event d ∷ out.events)))

  insert_delivery-IsOnly :
      (o : Option NotificationDelivery) (new : NotificationDelivery) (out : Outbox)
      → find? key out.deliveries ≡ o
      → key new ≡ true
      → count key out.deliveries ≤ 1
      → let r = insert_delivery o new out in IsOnly r.0 r.1 out r.2
  unfolding insert_delivery find? count
  insert_delivery-IsOnly none new out e t one =
      let none_yet =
        count-eq-zero_of_All key out.deliveries (find?-none-All key out.deliveries e) in
      (rw t refl, rw t (omega (arith, none_yet)), inr (refl, refl, refl))
  insert_delivery-IsOnly (some old) new out e t one =
      let there =
        count-pos key out.deliveries {x = old} (find?-mem key out.deliveries e)
          (find?-test key out.deliveries e) in
      (e, omega (arith, there, one), inl (refl, refl))

new_delivery-key :
    (id due_at : ℕ) (n : Notice) (subject : Option String) (body : String)
    → same_delivery n.workspace_id n.dedupe_key (new_delivery id due_at n subject body) ≡ true
unfolding same_delivery new_delivery
new_delivery-key id due_at n subject body =
    let a = ==_refl n.workspace_id in ground (arith, a, eq_iff n.dedupe_key n.dedupe_key)

-- A notification that is queued is the only delivery of its workspace and key, if there was at most
-- one: the delivery that was there, with nothing written, or the new one with exactly one event. To
-- queue the same notification again returns that delivery as not created and writes nothing.
pub queue_notification_again :
    (id now : ℕ) (consents : List Consent) (n : Notice) (out out' : Outbox)
    (d : NotificationDelivery) (created : Bool) (id' now' : ℕ)
    → count (same_delivery n.workspace_id n.dedupe_key) out.deliveries ≤ 1
    → queue_notification id now consents n out ≡ ok (d, created, out')
    → IsOnly n.workspace_id n.dedupe_key d created out out'
      × (queue_notification id' now' consents n out' ≡ ok (d, false, out'))
unfolding queue_notification insert_delivery
queue_notification_again id now consents n out out' d created id' now' one h =
    let key = same_delivery n.workspace_id n.dedupe_key in
    let (a, noted, h1) = >>=-eq-ok (check_notice n) _ h in
    let (b, checked, h2) = >>=-eq-ok (check_consent consents n) _ h1 in
    let (subject, titled, h3) =
      >>=-eq-ok (render_subject n.template.subject_template n.variables) _ h2 in
    let (body, written, h4) =
      >>=-eq-ok (render_notification_template n.template.body_template n.variables) _ h3 in
    let new = new_delivery id (or_else n.scheduled_at now) n subject body in
    let result : insert_delivery (find? key out.deliveries) new out ≡ (d, created, out') =
      ground (arith, h4) in
    let only =
      insert_delivery-IsOnly n.workspace_id n.dedupe_key (find? key out.deliveries) new out refl
        (new_delivery-key id (or_else n.scheduled_at now) n subject body) one in
    let only' : IsOnly n.workspace_id n.dedupe_key d created out out' = rw result at only in
    (only', rw (noted, checked, titled, written, only'.0) refl)
