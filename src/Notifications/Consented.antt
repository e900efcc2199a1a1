-- ===== src/Notifications/Consented.antt =====
-- A client is written to only while their consent stands.
use mathlib.Core.List.{Memᴰ}
use pulse_crm.Prelude.Table.Members.{find?-mem, mem-update_hit, All-of_mem, All-mem}
use pulse_crm.Prelude.Table.Counts.{count-one-eq}
use pulse_crm.Prelude.Table.Laws.{count-update, find?-test}
use pulse_crm.Prelude.{
  ℕ, ◌≤◌, ◌≡◌, refl, sym, ap, ◌∙◌, inl, inr, String, str_eq, Bool, true, ◌&&◌, some, List, ◌==◌,
  ==_refl, eq_iff, arith, All, find?, count, update, is_blank, Error, ok, err, value_error, http,
  require, >>=-eq-ok, require-eq-ok, raise_if-eq-ok, Result-cases,
}
use pulse_crm.Access.{Context, Directory, ensure_contact_access}
use pulse_crm.Consents.{
  ConsentStatus, granted, revoked, Consent, ConsentRevoke, ConsentStore, withdrawn, withdraw,
  own_consent, revoke_contact_consent,
}
use pulse_crm.Notifications.{
  NotificationDelivery, Notice, Outbox, active_consent, ensure_client_consent, requires_consent,
  check_notice, check_client_consent, check_consent, no_identity, queue_notification, is_granted,
}

-- The rows of a consent's unique key.
abbrev of_key : ℕ → ℕ → String → String → String → Consent → Bool
of_key workspace_id contact_id channel normalized_address purpose x =
    x.workspace_id == workspace_id
    && x.contact_id == contact_id
    && str_eq x.channel channel
    && str_eq x.normalized_address normalized_address
    && str_eq x.purpose purpose

abbrev pub key_of : Consent → Consent → Bool
key_of row = of_key row.workspace_id row.contact_id row.channel row.normalized_address row.purpose

-- The consent that lets `n` be sent.
abbrev pub permits : Notice → String → ℕ → Consent → Bool
permits n address contact_id =
    active_consent n.workspace_id contact_id n.channel address n.consent_purpose

check_consent-found :
    (consents : List Consent) (n : Notice)
    → requires_consent n ≡ true
    → check_consent consents n ≡ ok tt
    → (contact_id : ℕ) × (address : String) × (x : Consent) × (n.contact_id ≡ some contact_id)
      × (n.normalized_address ≡ some address)
      × (find? (permits n address contact_id) consents ≡ some x)
unfolding check_consent check_client_consent ensure_client_consent
check_consent-found consents n r h =
    let h' : check_client_consent consents n ≡ ok tt = ground (arith, r) in
    let (contact_id, c_is, h1) = >>=-eq-ok (require n.contact_id no_identity) _ h' in
    let (address, a_is, h2) = >>=-eq-ok (require n.normalized_address no_identity) _ h1 in
    let (blank, h3) = raise_if-eq-ok (is_blank address) no_identity _ h2 in
    let o = find? (permits n address contact_id) consents in
    let none_active = value_error "client notification has no active consent" in
    let (x, found, done) = >>=-eq-ok (require o none_active) _ h3 in
    (
      contact_id,
      address,
      x,
      require-eq-ok n.contact_id no_identity c_is,
      require-eq-ok n.normalized_address no_identity a_is,
      require-eq-ok o none_active found,
    )

queue_notification-check :
    (id now : ℕ) (consents : List Consent) (n : Notice) (out : Outbox)
    {r : NotificationDelivery × Bool × Outbox}
    → queue_notification id now consents n out ≡ ok r
    → check_consent consents n ≡ ok tt
unfolding queue_notification
queue_notification-check id now consents n out h =
    let (one, noted, h1) = >>=-eq-ok (check_notice n) _ h in
    let (two, checked, h2) = >>=-eq-ok (check_consent consents n) _ h1 in checked

withdraw-key :
    (now : ℕ) (c : Context) (contact_id : ℕ) (p : ConsentRevoke) (x : Consent) (s : ConsentStore)
    (status : ConsentStatus)
    → key_of (withdraw c now contact_id p x status s).0 ≡ key_of x
unfolding withdraw
withdraw-key now c contact_id p x s revoked = refl
withdraw-key now c contact_id p x s granted = refl

-- The rows of a key that was unique are revoked with the row.
withdraw-inactive :
    (now : ℕ) (c : Context) (contact_id : ℕ) (p : ConsentRevoke) (x : Consent) (s : ConsentStore)
    → Memᴰ x s.consents
    → count (key_of x) s.consents ≤ 1
    → All
        (λ y. key_of x y ≡ true → y.status ≡ revoked)
        (withdraw c now contact_id p x x.status s).1.consents
unfolding withdraw
withdraw-inactive now c contact_id p x s m one = go x.status refl
  where
    own : key_of x x ≡ true
    own = ground (
      arith,
      eq_iff x.channel x.channel,
      eq_iff x.normalized_address x.normalized_address,
      eq_iff x.purpose x.purpose,
    )

    go :
        (st : ConsentStatus)
        → x.status ≡ st
        → All
            (λ y. key_of x y ≡ true → y.status ≡ revoked)
            (withdraw c now contact_id p x st s).1.consents
    go revoked e = All-of_mem _ s.consents (λ y my ky.
        let same : x ≡ y = count-one-eq (key_of x) s.consents one m my own ky in rw (← same) e)
    go granted e =
        let taken : Consent → Bool = λ y. y.id == x.id in
        let rows = update taken (withdrawn now) s.consents in
        let kept : count (key_of x) rows ≤ 1 =
          rw (count-update (key_of x) taken (withdrawn now) (λ y t. refl) s.consents) one in
        let there : Memᴰ (withdrawn now x) rows =
          mem-update_hit taken (withdrawn now) s.consents m (==_refl x.id) in
        All-of_mem _ rows (λ y my ky.
          let same : withdrawn now x ≡ y = count-one-eq (key_of x) rows kept there my own ky in
          rw (← same) refl)

-- Which notices a consent's identity answers.
abbrev pub IsTo : Consent → Notice → Type 0
IsTo row n =
    (n.workspace_id ≡ row.workspace_id)
    × (n.contact_id ≡ some row.contact_id)
    × (n.channel ≡ row.channel)
    × (n.normalized_address ≡ some row.normalized_address)
    × (n.consent_purpose ≡ row.purpose)

granted_of_test : (s : ConsentStatus) → is_granted s ≡ true → s ≡ granted
granted_of_test granted t = refl
granted_of_test revoked t = cc t

permits-key :
    (row x : Consent) (n : Notice) (contact_id : ℕ) (address : String)
    → IsTo row n
    → n.contact_id ≡ some contact_id
    → n.normalized_address ≡ some address
    → permits n address contact_id x ≡ true
    → (key_of row x ≡ true) × (x.status ≡ granted)
unfolding active_consent
permits-key row x n contact_id address (w, k, ch, a, pu) k' a' t =
    let same : contact_id ≡ row.contact_id = cc (k, k') in
    let same' : address ≡ row.normalized_address = cc (a, a') in
    (ground (arith, rw (w, same, ch, same', pu) at t), granted_of_test x.status (ground (arith, t)))

-- After a revocation that succeeded, for a key of consents that was unique, a notification that
-- needs the consent of that contact, channel, address and purpose is refused, whatever else it holds.
pub queue_notification-revoked :
    (later : ℕ) (d : Directory) (c : Context) (contact_id consent_id : ℕ) (p : ConsentRevoke)
    (s s' : ConsentStore) (row : Consent) (id now : ℕ) (n : Notice) (out : Outbox)
    → revoke_contact_consent later d c contact_id consent_id p s ≡ ok (row, s')
    → count (key_of row) s.consents ≤ 1
    → requires_consent n ≡ true
    → IsTo row n
    → (e : Error) × (queue_notification id now s'.consents n out ≡ err e)
unfolding revoke_contact_consent
queue_notification-revoked later d c contact_id consent_id p s s' row id now n out h one r to =
    elim (Result-cases (queue_notification id now s'.consents n out)) [
      | inl failed ↦ failed
      | inr (result, queued) ↦
          let (contact, allowed, rest) = >>=-eq-ok (ensure_contact_access d c contact_id) _ h in
          let missing = http 404 "consent not found" in
          let mine = find? (own_consent c contact_id consent_id) s.consents in
          let (x, found, done) = >>=-eq-ok (require mine missing) _ rest in
          let result_is : withdraw c later contact_id p x x.status s ≡ (row, s') =
            ground (arith, done) in
          let m =
            find?-mem (own_consent c contact_id consent_id) s.consents
              (require-eq-ok mine missing found) in
          let key_is : key_of row ≡ key_of x =
            let kept = withdraw-key later c contact_id p x s x.status in rw result_is at kept in
          let one' : count (key_of x) s.consents ≤ 1 = rw key_is at one in
          let gone : All (λ y. key_of x y ≡ true → y.status ≡ revoked) s'.consents =
            let off = withdraw-inactive later c contact_id p x s m one' in rw result_is at off in
          let (k, a, y, k_is, a_is, active) =
            check_consent-found s'.consents n r
              (queue_notification-check id now s'.consents n out queued) in
          let (ky, g) =
            permits-key row y n k a to k_is a_is (find?-test (permits n a k) s'.consents active) in
          let ky' : key_of x y ≡ true = sym (ap (λ q. q y) key_is) ∙ ky in
          let off = All-mem _ gone (find?-mem (permits n a k) s'.consents active) ky' in cc (off, g)
    ]
