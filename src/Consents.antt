-- ===== src/Consents.antt =====
-- backend/app/integrations/consents_api.py: a contact's consents to be written to on a channel.
-- The validation of an e-mail address and the case folding are the libraries', so parameters.
pub mod Granted
mod Tests
use pulse_crm.Prelude.{
  ℕ, String, Bool, true, false, ◌&&◌, Option, none, some, List, [], ◌∷◌, ◌++◌, ◌==◌, str_eq, strip,
  find?, update, Result, ok, err, http, require, ◌>>=◌,
}
use pulse_crm.Access.{Context, Directory, ensure_contact_access}
use pulse_crm.Events.{Payload, text, number, ActivityEvent, Journal, record_domain_event}

pub data ConsentChannel : Type 0 where
  email telegram max_messenger : ConsentChannel

abbrev pub channel_text : ConsentChannel → String
channel_text email = "email"
channel_text telegram = "telegram"
channel_text max_messenger = "max"

pub data ConsentStatus : Type 0 where
  granted revoked : ConsentStatus

-- The evidence, a JSON object, is its text.
pub record Consent : Type 0 where
  pub id : ℕ
  pub workspace_id : ℕ
  pub contact_id : ℕ
  pub channel : String
  pub address : String
  pub normalized_address : String
  pub purpose : String
  pub status : ConsentStatus
  pub evidence : String
  pub source : String
  pub granted_at : Option ℕ
  pub revoked_at : Option ℕ

pub record ConsentGrant : Type 0 where
  pub channel : ConsentChannel
  pub address : String
  pub purpose : String
  pub source : String
  pub evidence : String

pub record ConsentRevoke : Type 0 where
  pub source : String
  pub evidence : String

pub record ConsentStore : Type 0 where
  pub consents : List Consent
  pub journal : Journal

unfoldable pub event_payload : Consent → Payload
event_payload consent =
    ("consent_id", number consent.id)
    ∷ ("contact_id", number consent.contact_id)
    ∷ ("channel", text consent.channel)
    ∷ ("address", text consent.address)
    ∷ ("normalized_address", text consent.normalized_address)
    ∷ ("purpose", text consent.purpose)
    ∷ ("source", text consent.source)
    ∷ ("evidence", text consent.evidence)
    ∷ []

abbrev pub consent_event : String → Context → ℕ → Payload → ActivityEvent
consent_event event_type c contact_id payload = record {
  workspace_id = c.workspace_id;
  event_type = event_type;
  entity_type = "contact";
  entity_id = contact_id;
  actor_id = some c.user_id;
  payload = payload;
}

-- The columns of the unique key, with the workspace.
abbrev pub same_key : Context → ℕ → ConsentGrant → String → Consent → Bool
same_key c contact_id p normalized x =
    x.workspace_id == c.workspace_id
    && x.contact_id == contact_id
    && str_eq x.channel (channel_text p.channel)
    && str_eq x.normalized_address normalized
    && str_eq x.purpose p.purpose

abbrev pub new_consent : ℕ → Context → ℕ → ℕ → ConsentGrant → String → Consent
new_consent id c now contact_id p normalized = record {
  id = id;
  workspace_id = c.workspace_id;
  contact_id = contact_id;
  channel = channel_text p.channel;
  address = p.address;
  normalized_address = normalized;
  purpose = p.purpose;
  status = granted;
  evidence = p.evidence;
  source = p.source;
  granted_at = some now;
  revoked_at = none;
}

abbrev pub renewed : ℕ → ConsentGrant → Consent → Consent
renewed now p x = record x {
  address = p.address;
  status = granted;
  evidence = p.evidence;
  source = p.source;
  granted_at = some now;
  revoked_at = none;
}

abbrev pub withdrawn : ℕ → Consent → Consent
withdrawn now x = record x { status = revoked; revoked_at = some now }

-- The flush of a new row: a row of the same key that is there already wins, and nothing is written.
unfoldable pub flush_consent :
    Option Consent → Consent → List Consent → Context → ℕ → ConsentStore → Consent × ConsentStore
flush_consent (some winner) row rows c contact_id s = (winner, record s { consents = rows })
flush_consent none row rows c contact_id s = (
  row,
  record {
    consents = row ∷ rows;
    journal =
        record_domain_event
          (consent_event "contact.consent.granted" c contact_id (event_payload row)) s.journal;
  },
)

-- The insertion, where `late` are the rows that other requests committed since the query.
unfoldable pub insert_consent :
    List Consent
    → ℕ
    → Context
    → ℕ
    → ℕ
    → ConsentGrant
    → String
    → ConsentStore
    → Consent × ConsentStore
insert_consent late id c now contact_id p normalized s =
    flush_consent (find? (same_key c contact_id p normalized) (late ++ s.consents))
      (new_consent id c now contact_id p normalized) (late ++ s.consents) c contact_id s

unfoldable pub renew_consent :
    Context → ℕ → ℕ → ConsentGrant → Consent → ConsentStatus → ConsentStore → Consent × ConsentStore
renew_consent c now contact_id p x granted s = (x, s)
renew_consent c now contact_id p x revoked s =
    let row = renewed now p x in
    (
      row,
      record {
        consents = update (λ y. y.id == x.id) (renewed now p) s.consents;
        journal =
            record_domain_event
              (consent_event "contact.consent.granted" c contact_id (event_payload row)) s.journal;
      },
    )

-- The two branches on the consent that the locked query found.
unfoldable pub settle_grant :
    Option Consent
    → List Consent
    → ℕ
    → ℕ
    → Context
    → ℕ
    → ConsentGrant
    → String
    → ConsentStore
    → Consent × ConsentStore
settle_grant none late id now c contact_id p normalized s =
    insert_consent late id c now contact_id p normalized s
settle_grant (some x) late id now c contact_id p normalized s =
    renew_consent c now contact_id p x x.status s

module _ (validate_email : String → Option String) (casefold : String → String) where
  unfoldable pub normalize_email_address : String → Result String
  normalize_email_address value = elim (validate_email (strip value)) [
    | none ↦ err (http 422 "invalid email address")
    | some normalized ↦ ok (casefold normalized)
  ]

  unfoldable pub normalized_address : ConsentChannel → String → Result String
  normalized_address email address = normalize_email_address address
  normalized_address telegram address = ok (strip address)
  normalized_address max_messenger address = ok (strip address)

  unfoldable pub grant_contact_consent :
      List Consent
      → ℕ
      → ℕ
      → Directory
      → Context
      → ℕ
      → ConsentGrant
      → ConsentStore
      → Result (Consent × ConsentStore)
  grant_contact_consent late id now d c contact_id p s = do
    contact ← ensure_contact_access d c contact_id
    normalized ← normalized_address p.channel p.address
    ok (
        settle_grant (find? (same_key c contact_id p normalized) s.consents) late id now c
          contact_id p normalized s)

unfoldable pub withdraw :
    Context
    → ℕ
    → ℕ
    → ConsentRevoke
    → Consent
    → ConsentStatus
    → ConsentStore
    → Consent × ConsentStore
withdraw c now contact_id p x revoked s = (x, s)
withdraw c now contact_id p x granted s =
    let row = withdrawn now x in
    (
      row,
      record {
        consents = update (λ y. y.id == x.id) (withdrawn now) s.consents;
        journal =
            record_domain_event
              (consent_event "contact.consent.revoked" c contact_id (
                event_payload row
                ++ (("revocation_source", text p.source)
                    ∷ ("revocation_evidence", text p.evidence)
                    ∷ [])))
              s.journal;
      },
    )

unfoldable pub own_consent : Context → ℕ → ℕ → Consent → Bool
own_consent c contact_id consent_id x =
    x.id == consent_id && x.workspace_id == c.workspace_id && x.contact_id == contact_id

unfoldable pub revoke_contact_consent :
    ℕ → Directory → Context → ℕ → ℕ → ConsentRevoke → ConsentStore → Result (Consent × ConsentStore)
revoke_contact_consent now d c contact_id consent_id p s = do
  contact ← ensure_contact_access d c contact_id
  x ←
      require (find? (own_consent c contact_id consent_id) s.consents)
        (http 404 "consent not found")
  ok (withdraw c now contact_id p x x.status s)
