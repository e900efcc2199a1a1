-- ===== src/Webhooks/Once.antt =====
-- An event is accepted once for its keys, and a key is not reused for another body.
use mathlib.Core.List.{Memᴰ}
use pulse_crm.Prelude.Table.Laws.{find?-test, find?-none-All, find?_of_any}
use pulse_crm.Prelude.Table.Members.{find?-mem, any-mem, mem-any, All-mem}
use pulse_crm.Prelude.{
  ℕ, ◌≡◌, ◌≢◌, refl, ◌∙◌, ◌⊎◌, inl, inr, String, str_eq, eq_iff, strip, is_blank, is_text_refl,
  true, false, Option, none, some, List, ◌∷◌, ==_refl, arith, Bool-cases, Option-cases, find?, any,
  Result, err, ok, value_error, raise_if-eq-ok,
}
use pulse_crm.Webhooks.Inbound.{
  InboundEvent, InboundAcceptance, InboundRequest, of_source, same_key, same_external, has_external,
  conflicts, new_event, find_external, find_accepted, reused, settle_event, insert_event,
  accept_inbound_event,
}

module _ (r : InboundRequest) where
  new_event-key : (id now : ℕ) → same_key r (new_event id now r) ≡ true
  unfolding same_key of_source
  new_event-key id now =
      let w = ==_refl r.workspace_id in
      let k = is_text_refl r.verified.idempotency_key in
      ground (arith, w, eq_iff r.source_key r.source_key, k)

  -- What a second query finds of a row that conflicts.
  find_accepted-mem :
      (events : List InboundEvent) {x : InboundEvent}
      → find_accepted r (find? (same_key r) events) events ≡ some x
      → Memᴰ x events × (conflicts r x ≡ true)
  unfolding find_accepted conflicts find_external has_external
  find_accepted-mem events {x} h = elim (Option-cases (find? (same_key r) events)) [
    | inr (y, e) ↦
        let same : y ≡ x = ground (arith, rw e at h) in
        let found : find? (same_key r) events ≡ some x = rw same at e in
        (
          find?-mem (same_key r) events found,
          let t = find?-test (same_key r) events found in ground (arith, t),
        )
    | inl e ↦ go r.external_event_id refl (rw e at h)
  ]
    where
      go :
          (o : Option String)
          → r.external_event_id ≡ o
          → find_external r o events ≡ some x
          → Memᴰ x events × (conflicts r x ≡ true)
      go none e h = cc h
      go (some external) e h =
          let t = find?-test (same_external r external) events h in
          (find?-mem (same_external r external) events h, rw e (ground (arith, t)))

  -- A row that conflicts is found.
  find_accepted-some :
      (events : List InboundEvent)
      → any (conflicts r) events ≡ true
      → (x : InboundEvent) × (find_accepted r (find? (same_key r) events) events ≡ some x)
  unfolding find_accepted conflicts find_external has_external
  find_accepted-some events h = elim (Option-cases (find? (same_key r) events)) [
    | inr (y, e) ↦ (y, rw e refl)
    | inl e ↦
        let (y, m, t) = any-mem (conflicts r) events h in
        let other : same_key r y ≡ false = All-mem _ (find?-none-All (same_key r) events e) m in
        let second : has_external r r.external_event_id y ≡ true = ground (arith, t, other) in
        rw e (go r.external_event_id y m second)
  ]
    where
      go :
          (o : Option String) (y : InboundEvent)
          → Memᴰ y events
          → has_external r o y ≡ true
          → (x : InboundEvent) × (find_external r o events ≡ some x)
      go none y m t = cc t
      go (some external) y m t =
          find?_of_any (same_external r external) events
            (mem-any (same_external r external) events m t)

  -- The three ways in which an event of a named source is taken.
  abbrev pub Settled :
      ℕ → ℕ → List InboundEvent → Result (InboundAcceptance × List InboundEvent) → Type 0
  Settled id now events result =
      ((any (conflicts r) events ≡ false)
        × (result
            ≡ ok (
              record { event = new_event id now r; created = true },
              new_event id now r ∷ events,
            )))
      ⊎ ((x : InboundEvent) × Memᴰ x events
          × (conflicts r x ≡ true)
          × (((x.request_digest ≡ r.verified.request_digest)
                × (result ≡ ok (record { event = x; created = false }, events)))
              ⊎ ((x.request_digest ≢ r.verified.request_digest)
                  × (result ≡ err (value_error reused)))))

  settle_event-cases :
      (x : InboundEvent) (events : List InboundEvent) (o : Option InboundEvent)
      → o ≡ some x
      → ((x.request_digest ≡ r.verified.request_digest)
          × (settle_event o r events ≡ ok (record { event = x; created = false }, events)))
        ⊎ ((x.request_digest ≢ r.verified.request_digest)
            × (settle_event o r events ≡ err (value_error reused)))
  unfolding settle_event
  settle_event-cases x events o found =
      elim (Bool-cases (str_eq x.request_digest r.verified.request_digest)) [
        | inl e ↦ inl ((eq_iff x.request_digest r.verified.request_digest).0 e, rw (found, e) refl)
        | inr e ↦ inr (
          (λ same. let t = (eq_iff x.request_digest r.verified.request_digest).1 same in cc (t, e)),
          rw (found, e) refl,
        )
      ]

-- An event of a named source is inserted if no event has its key or its provider's identifier.
-- Otherwise it is settled with one of those that have: returned as not created, with nothing
-- written, if the body's digest is the same, and refused as a conflict if it differs.
pub accept_inbound_event-Settled :
    (id now : ℕ) (r : InboundRequest) (events : List InboundEvent)
    → is_blank (strip r.source_key) ≡ false
    → Settled r id now events (accept_inbound_event id now r events)
unfolding accept_inbound_event insert_event
accept_inbound_event-Settled id now r events named = elim (Bool-cases (any (conflicts r) events)) [
  | inr e ↦ inl (e, rw (named, e) refl)
  | inl e ↦
      let (x, found) = find_accepted-some r events e in
      let (m, t) = find_accepted-mem r events found in
      let cases =
        settle_event-cases r x events (find_accepted r (find? (same_key r) events) events) found in
      inr (x, m, t, rw (named, e) cases)
]

-- An event that was accepted carries the digest of its body, and every retry of the request returns
-- that event as not created and writes nothing.
pub accept_inbound_event_again :
    (id now id' now' : ℕ) (r : InboundRequest) (events : List InboundEvent) (a : InboundAcceptance)
    (events' : List InboundEvent)
    → accept_inbound_event id now r events ≡ ok (a, events')
    → (a.event.request_digest ≡ r.verified.request_digest)
      × (accept_inbound_event id' now' r events'
          ≡ ok (record { event = a.event; created = false }, events'))
unfolding accept_inbound_event insert_event settle_event find_accepted conflicts any find?
accept_inbound_event_again id now id' now' r events a events' h =
    let unnamed = value_error "source_key must not be empty" in
    let (named, h1) = raise_if-eq-ok (is_blank (strip r.source_key)) unnamed _ h in
    let new = new_event id now r in
    let same_digest : str_eq r.verified.request_digest r.verified.request_digest ≡ true =
      (eq_iff r.verified.request_digest r.verified.request_digest).1 refl in
    elim (accept_inbound_event-Settled id now r events named) [
      | inl (free, result) ↦
          let acceptance : record { event = new; created = true } ≡ a = ground (arith, result, h) in
          let rows : new ∷ events ≡ events' = ground (arith, result, h) in
          rw (← acceptance, ← rows)
            (refl, let k = new_event-key r id now in rw (named, k) (rw (k, same_digest) refl))
      | inr (x, m, t, inl (d, result)) ↦
          let acceptance : record { event = x; created = false } ≡ a = ground (arith, result, h) in
          let rows : events ≡ events' = ground (arith, result, h) in
          let taken = mem-any (conflicts r) events m t in
          let again : accept_inbound_event id' now' r events
              ≡ accept_inbound_event id now r events =
            rw taken refl in
          rw (← acceptance, ← rows) (d, again ∙ result)
      | inr (x, m, t, inr (d, result)) ↦ cc (result, h)
    ]
