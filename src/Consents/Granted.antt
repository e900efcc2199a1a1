-- ===== src/Consents/Granted.antt =====
-- What a grant and a revocation leave behind, and that repeating either changes nothing.
use mathlib.Core.List.{Memᴰ}
use pulse_crm.Prelude.Table.Members.{find?-mem}
use pulse_crm.Prelude.Table.Laws.{
  find?-update_keep, count-update, find?-none-All, count-append, count-eq-zero_of_All,
}
use pulse_crm.Prelude.{
  ℕ, ◌≤◌, ◌≡◌, refl, ◌⊎◌, inl, inr, Bool, true, Option, none, some, String, List, [], ◌∷◌, ◌++◌,
  arith, ◌==◌, ==_refl, eq_iff, Bool-cases, find?, count, ok, >>=-eq-ok, require, require-eq-ok,
  http,
}
use pulse_crm.Models.{Contact}
use pulse_crm.Access.{Context, Directory, ensure_contact_access}
use pulse_crm.Events.{Journal, record_domain_event}
use pulse_crm.Consents.{
  ConsentStatus, granted, revoked, Consent, ConsentGrant, ConsentRevoke, ConsentStore,
  event_payload, consent_event, same_key, new_consent, renewed, withdrawn, normalized_address,
  insert_consent, flush_consent, renew_consent, settle_grant, grant_contact_consent, withdraw,
  own_consent, revoke_contact_consent,
}

count-first :
    (q : Consent → Bool) (xs : List Consent) {x : Consent} → find? q xs ≡ some x → 1 ≤ count q xs
unfolding find? count
count-first q [] h = cc
count-first q (y ∷ ys) {x} h = elim (Bool-cases (q y)) [
  | inl e ↦ rw e (omega arith)
  | inr e ↦ ground (arith, count-first q ys {x = x} (ground arith))
]

abbrev pub IsActive : Consent → Type 0
IsActive x = (x.status ≡ granted) × (x.revoked_at ≡ none)

mem-append_right :
    (xs : List Consent) {ys : List Consent} {x : Consent} → Memᴰ x ys → Memᴰ x (xs ++ ys)
mem-append_right [] m = m
mem-append_right (y ∷ xs) m = Memᴰ.tail (mem-append_right xs m)

-- `row` is the only row of its key, and it is active. The journal has its event, unless the row was
-- granted already, among the rows `there`.
abbrev pub IsGranted :
    Context → ℕ → ConsentGrant → String → List Consent → Consent → Journal → ConsentStore → Type 0
IsGranted c contact_id p normalized there row before s =
    (find? (same_key c contact_id p normalized) s.consents ≡ some row)
    × IsActive row
    × (count (same_key c contact_id p normalized) s.consents ≡ 1)
    × (((s.journal ≡ before) × Memᴰ row there)
        ⊎ (s.journal
            ≡ record_domain_event
                (consent_event "contact.consent.granted" c contact_id (event_payload row)) before))

module _ (late : List Consent) (id now : ℕ) (c : Context) (contact_id : ℕ) (p : ConsentGrant)
    (normalized : String) (s : ConsentStore) where
  abbrev key : Consent → Bool
  key = same_key c contact_id p normalized

  new_consent-key : key (new_consent id c now contact_id p normalized) ≡ true
  new_consent-key =
      let n = new_consent id c now contact_id p normalized in
      ground (
        arith,
        eq_iff n.channel n.channel,
        eq_iff normalized normalized,
        eq_iff p.purpose p.purpose,
      )

  insert_consent-IsGranted :
      ((x : Consent) → find? key (late ++ s.consents) ≡ some x → IsActive x)
      → count key (late ++ s.consents) ≤ 1
      → let r = insert_consent late id c now contact_id p normalized s in
        IsGranted c contact_id p normalized (late ++ s.consents) r.0 s.journal r.1
  unfolding insert_consent flush_consent find? count
  insert_consent-IsGranted won one = go (find? key (late ++ s.consents)) refl
    where
      go :
          (o : Option Consent)
          → find? key (late ++ s.consents) ≡ o
          → let r =
              flush_consent o
                (new_consent id c now contact_id p normalized)
                (late ++ s.consents)
                c
                contact_id
                s in
            IsGranted c contact_id p normalized (late ++ s.consents) r.0 s.journal r.1
      go none e =
          let none_yet =
            count-eq-zero_of_All key (late ++ s.consents)
              (find?-none-All key (late ++ s.consents) e) in
          (
            rw new_consent-key refl,
            (refl, refl),
            rw new_consent-key (omega (arith, none_yet)),
            inr refl,
          )
      go (some x) e = (
        e,
        won x e,
        omega (arith, count-first key (late ++ s.consents) {x = x} e, one),
        inl (refl, find?-mem key (late ++ s.consents) e),
      )

  renew_consent-IsGranted :
      (x : Consent)
      → count key s.consents ≤ 1
      → find? key s.consents ≡ some x
      → (x.status ≡ granted → x.revoked_at ≡ none)
      → let r = renew_consent c now contact_id p x x.status s in
        IsGranted c contact_id p normalized (late ++ s.consents) r.0 s.journal r.1
  unfolding renew_consent
  renew_consent-IsGranted x one found consistent = go x.status refl
    where
      go :
          (st : ConsentStatus)
          → x.status ≡ st
          → let r = renew_consent c now contact_id p x st s in
            IsGranted c contact_id p normalized (late ++ s.consents) r.0 s.journal r.1
      go granted e = (
        found,
        (e, consistent e),
        omega (arith, count-first key s.consents {x = x} found, one),
        inl (refl, mem-append_right late (find?-mem key s.consents found)),
      )
      go revoked e = (
        find?-update_keep key (λ y. y.id == x.id) (renewed now p) (λ y. refl) s.consents found
            (==_refl x.id),
        (refl, refl),
        rw (count-update key (λ y. y.id == x.id) (renewed now p) (λ y h. refl) s.consents)
            (omega (arith, count-first key s.consents {x = x} found, one)),
        inr refl,
      )

  settle_grant-IsGranted :
      ((x : Consent)
        → find? key (late ++ s.consents) ≡ some x
        → find? key s.consents ≡ none
        → IsActive x)
      → ((x : Consent) → find? key s.consents ≡ some x → x.status ≡ granted → x.revoked_at ≡ none)
      → count key (late ++ s.consents) ≤ 1
      → let r = settle_grant (find? key s.consents) late id now c contact_id p normalized s in
        IsGranted c contact_id p normalized (late ++ s.consents) r.0 s.journal r.1
  unfolding settle_grant
  settle_grant-IsGranted won consistent one = go (find? key s.consents) refl
    where
      go :
          (o : Option Consent)
          → find? key s.consents ≡ o
          → let r = settle_grant o late id now c contact_id p normalized s in
            IsGranted c contact_id p normalized (late ++ s.consents) r.0 s.journal r.1
      go none e = insert_consent-IsGranted (λ x f. won x f e) one
      go (some x) e =
          renew_consent-IsGranted x (omega (arith, one, count-append key late s.consents)) e
            (consistent x e)

module _ (validate_email : String → Option String) (casefold : String → String) where
  -- A grant that succeeds returns a consent that is granted, without a time of revocation, and the only
  -- row of its contact, channel, normalized address and purpose; the journal gains the event of that
  -- row, unless it was among the stored rows as it is, if the key was unique, a row of that key that
  -- concurrent requests committed is granted, and no granted row of that key has a time of
  -- revocation.
  pub grant_contact_consent-IsGranted :
      (late : List Consent) (id now : ℕ) (d : Directory) (c : Context) (contact_id : ℕ)
      (p : ConsentGrant) (normalized : String) (s : ConsentStore) (row : Consent)
      (s' : ConsentStore)
      → normalized_address validate_email casefold p.channel p.address ≡ ok normalized
      → count (same_key c contact_id p normalized) (late ++ s.consents) ≤ 1
      → ((x : Consent)
          → find? (same_key c contact_id p normalized) (late ++ s.consents) ≡ some x
          → find? (same_key c contact_id p normalized) s.consents ≡ none
          → IsActive x)
      → ((x : Consent)
          → find? (same_key c contact_id p normalized) s.consents ≡ some x
          → x.status ≡ granted
          → x.revoked_at ≡ none)
      → grant_contact_consent validate_email casefold late id now d c contact_id p s ≡ ok (row, s')
      → IsGranted c contact_id p normalized (late ++ s.consents) row s.journal s'
  unfolding grant_contact_consent
  grant_contact_consent-IsGranted late id now d c contact_id p normalized s row s' n one won
        consistent h =
      let (contact, allowed, rest) = >>=-eq-ok (ensure_contact_access d c contact_id) _ h in
      let (normalized', n', done) =
        >>=-eq-ok (normalized_address validate_email casefold p.channel p.address) _ rest in
      let same : normalized' ≡ normalized = ground (arith, n, n') in
      let held =
        settle_grant-IsGranted late id now c contact_id p normalized s won consistent one in
      let result : settle_grant (find? (same_key c contact_id p normalized) s.consents) late id now
            c contact_id p normalized s
          ≡ (row, s') =
        ground (arith, rw same at done) in
      rw result at held

module _ (later : ℕ) (d : Directory) (c : Context) (contact_id consent_id : ℕ)
    (again : ConsentRevoke) where
  abbrev own : Consent → Bool
  own = own_consent c contact_id consent_id

  revoke_revoked :
      (x : Consent) (contact : Contact) (s : ConsentStore)
      → ensure_contact_access d c contact_id ≡ ok contact
      → find? own s.consents ≡ some x
      → x.status ≡ revoked
      → revoke_contact_consent later d c contact_id consent_id again s ≡ ok (x, s)
  unfolding revoke_contact_consent withdraw
  revoke_revoked x contact s allowed found e = rw (allowed, found, e) refl

  withdraw-revoked :
      (now : ℕ) (p : ConsentRevoke) (x : Consent) (contact : Contact) (s : ConsentStore)
      → ensure_contact_access d c contact_id ≡ ok contact
      → find? own s.consents ≡ some x
      → let r = withdraw c now contact_id p x x.status s in
        (r.0.status ≡ revoked)
        × (revoke_contact_consent later d c contact_id consent_id again r.1 ≡ ok r)
  unfolding withdraw own_consent
  withdraw-revoked now p x contact s allowed found = go x.status refl
    where
      go :
          (st : ConsentStatus)
          → x.status ≡ st
          → let r = withdraw c now contact_id p x st s in
            (r.0.status ≡ revoked)
            × (revoke_contact_consent later d c contact_id consent_id again r.1 ≡ ok r)
      go revoked e = (e, revoke_revoked x contact s allowed found e)
      go granted e = (
        refl,
        revoke_revoked (withdrawn now x) contact _ allowed
            (find?-update_keep own (λ y. y.id == x.id) (withdrawn now) (λ y. refl) s.consents found
              (==_refl x.id))
            refl,
      )

-- A revocation that succeeds returns the consent revoked, and is a repetition from then on: to
-- revoke it again returns the same row and changes neither the table nor the journal.
pub revoke_contact_consent_again :
    (now later : ℕ) (d : Directory) (c : Context) (contact_id consent_id : ℕ)
    (p again : ConsentRevoke) (s : ConsentStore) (row : Consent) (s' : ConsentStore)
    → revoke_contact_consent now d c contact_id consent_id p s ≡ ok (row, s')
    → (row.status ≡ revoked)
      × (revoke_contact_consent later d c contact_id consent_id again s' ≡ ok (row, s'))
unfolding revoke_contact_consent
revoke_contact_consent_again now later d c contact_id consent_id p again s row s' h =
    let (contact, allowed, rest) = >>=-eq-ok (ensure_contact_access d c contact_id) _ h in
    let missing = http 404 "consent not found" in
    let mine = find? (own_consent c contact_id consent_id) s.consents in
    let (x, found, done) = >>=-eq-ok (require mine missing) _ rest in
    let stable =
      withdraw-revoked later d c contact_id consent_id again now p x contact s allowed
        (require-eq-ok mine missing found) in
    let result : withdraw c now contact_id p x x.status s ≡ (row, s') = ground (arith, done) in
    rw result at stable
