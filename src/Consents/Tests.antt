-- ===== src/Consents/Tests.antt =====
-- A consent that is granted, withdrawn and granted again.
use pulse_crm.Access.{ensure_contact_access}
use pulse_crm.Prelude.{
  ◌≡◌, refl, String, Option, some, [], ◌∷◌, ◌++◌, arith, ok, find?, count, strip, update,
}
use pulse_crm.Events.{no_events, record_domain_event, text}
use pulse_crm.Access.Tests.{seller, directory}
use pulse_crm.Consents.{
  telegram, revoked, Consent, ConsentGrant, ConsentRevoke, ConsentStore, consent_event,
  event_payload, new_consent, withdrawn, grant_contact_consent, revoke_contact_consent,
  insert_consent, settle_grant, own_consent, withdraw, flush_consent, normalized_address,
}
use pulse_crm.Consents.Granted.{
  IsGranted, grant_contact_consent-IsGranted, revoke_contact_consent_again,
}

-- A validation that accepts every address, and a case folding that changes none.
abbrev accept : String → Option String
accept value = some value

abbrev same_text : String → String
same_text value = value

abbrev ask : ConsentGrant
ask = record {
  channel = telegram;
  address = "@ivan";
  purpose = "notifications";
  source = "form";
  evidence = "{}";
}

abbrev row : Consent
row = new_consent 11 seller 100 9 ask "@ivan"

abbrev before : ConsentStore
before = record { consents = []; journal = no_events }

abbrev after : ConsentStore
after = record {
  consents = row ∷ [];
  journal =
      record_domain_event (consent_event "contact.consent.granted" seller 9 (event_payload row))
        no_events;
}

grant_contact_consent-IsGranted_example : IsGranted seller 9 ask "@ivan" [] row no_events after
unfolding grant_contact_consent normalized_address strip count ensure_contact_access find?
    settle_grant insert_consent flush_consent
grant_contact_consent-IsGranted_example =
    grant_contact_consent-IsGranted accept same_text [] 11 100 directory seller 9 ask "@ivan" before
      row after refl (omega arith) (λ x e f. ground arith) (λ x e g. ground arith) refl

abbrev withdrawal : ConsentRevoke
withdrawal = record { source = "form"; evidence = "{}" }

abbrev given : ConsentStore
given = record { consents = row ∷ []; journal = no_events }

abbrev taken : ConsentStore
taken = record {
  consents = withdrawn 120 row ∷ [];
  journal =
      record_domain_event
        (consent_event "contact.consent.revoked" seller 9 (
          event_payload (withdrawn 120 row)
          ++ (("revocation_source", text "form") ∷ ("revocation_evidence", text "{}") ∷ [])))
        no_events;
}

revoke_contact_consent_again_example :
    (revoked ≡ revoked)
    × (revoke_contact_consent 130 directory seller 9 11 withdrawal taken
        ≡ ok (withdrawn 120 row, taken))
unfolding revoke_contact_consent ensure_contact_access find? own_consent withdraw update
revoke_contact_consent_again_example =
    revoke_contact_consent_again 120 130 directory seller 9 11 withdrawal withdrawal given
      (withdrawn 120 row) taken refl
