-- ===== src/Imports/Applied.antt =====
-- The loop of `apply_import_page`.
use pulse_crm.Prelude.{
  ◌+◌, ◌≡◌, refl, ap, ◌∙◌, ◌≢◌, inl, inr, String, str_eq, eq_iff, true, false, Option, none, some,
  List, [], ◌∷◌, arith, length, Bool-cases, find?, any, update, ok, >>=-eq-ok,
}
use pulse_crm.Imports.{ImportJob, ExternalEntityMap, AmoEntity, ImportEntityWriter}
use pulse_crm.Imports.Apply.{
  Progress, has_duplicates, is_mapped, new_map, refreshed, fingerprint, write_new, create_entity,
  write_changed, update_entity, settle_entity, apply_entity, apply_entities,
}
use pulse_crm.Imports.Pages.{
  total, ledger, ledger-new, ledger-new_other, ledger-refreshed, ledger-refreshed_other, enter_all,
  enter_all-ext, enter_all_absent,
}

module _ (sha256 : String → String) {S : Type 0} (writer : ImportEntityWriter S) (job : ImportJob)
    (entity_type : String) where
  -- One entity is counted once; a dry run changes no table, another run enters the fingerprint.
  record Applied (e : AmoEntity) (s s' : Progress S) : Type 0 where
    counted : total s'.counters ≡ total s.counters + 1
    dry : job.dry_run ≡ true → (s'.maps ≡ s.maps) × (s'.crm ≡ s.crm)
    entered :
        job.dry_run ≡ false
        → ledger job entity_type s'.maps e.external_id ≡ some (fingerprint sha256 e)
    others :
        (key : String)
        → e.external_id ≢ key
        → ledger job entity_type s'.maps key ≡ ledger job entity_type s.maps key

  write_new-Applied :
      (e : AmoEntity) (s s' : Progress S)
      → job.dry_run ≡ false
      → write_new sha256 writer job entity_type e s ≡ ok s'
      → Applied e s s'
  unfolding write_new
  write_new-Applied e s s' wet h =
      let ((n, crm), e1, e2) =
        >>=-eq-ok (writer.upsert job.workspace_id e none job.user_mapping s.crm) _ h in
      let print = fingerprint sha256 e in
      let maps_are : s'.maps ≡ new_map job entity_type e print n ∷ s.maps = ground (arith, e2) in
      record {
        counted = ground (arith, e2);
        dry = λ d. absurd (ground (arith, wet, d));
        entered = λ w. rw maps_are (ledger-new job entity_type e print n s.maps);
        others = λ key ne. rw maps_are (ledger-new_other job entity_type e print n s.maps key ne);
      }

  write_changed-Applied :
      (e : AmoEntity) (m : ExternalEntityMap) (s s' : Progress S)
      → job.dry_run ≡ false
      → find? (is_mapped job entity_type e.external_id) s.maps ≡ some m
      → write_changed sha256 writer job entity_type e m s ≡ ok s'
      → Applied e s s'
  unfolding write_changed
  write_changed-Applied e m s s' wet found h =
      let ((n, crm), e1, e2) =
        >>=-eq-ok (writer.upsert job.workspace_id e (some m.internal_id) job.user_mapping s.crm) _
          h in
      let print = fingerprint sha256 e in
      let hit = is_mapped job entity_type e.external_id in
      let maps_are : s'.maps ≡ update hit (refreshed job e print n) s.maps = ground (arith, e2) in
      record {
        counted = ground (arith, e2);
        dry = λ d. absurd (ground (arith, wet, d));
        entered = λ w. rw maps_are (ledger-refreshed job entity_type e print n s.maps m found);
        others =
            λ key ne. rw maps_are (ledger-refreshed_other job entity_type e print n s.maps key ne);
      }

  counted_only :
      (e : AmoEntity) (s s' : Progress S)
      → s'.maps ≡ s.maps
      → s'.crm ≡ s.crm
      → total s'.counters ≡ total s.counters + 1
      → (job.dry_run ≡ false
          → ledger job entity_type s.maps e.external_id ≡ some (fingerprint sha256 e))
      → Applied e s s'
  counted_only e s s' maps_are crm_is counted known = record {
    counted = counted;
    dry = λ d. (maps_are, crm_is);
    entered = λ w. rw maps_are (known w);
    others = λ key ne. rw maps_are refl;
  }

  create_entity-Applied :
      (e : AmoEntity) (s s' : Progress S)
      → create_entity sha256 writer job entity_type e s ≡ ok s'
      → Applied e s s'
  unfolding create_entity
  create_entity-Applied e s s' h = elim (Bool-cases job.dry_run) [
    | inl dry ↦
        counted_only e s s' (ground (arith, dry)) (ground (arith, dry)) (ground (arith, dry))
          (λ w. absurd (ground (arith, dry, w)))
    | inr wet ↦ write_new-Applied e s s' wet (ground (arith, wet))
  ]

  update_entity-Applied :
      (e : AmoEntity) (m : ExternalEntityMap) (s s' : Progress S)
      → find? (is_mapped job entity_type e.external_id) s.maps ≡ some m
      → update_entity sha256 writer job entity_type e m s ≡ ok s'
      → Applied e s s'
  unfolding update_entity
  update_entity-Applied e m s s' found h = elim (Bool-cases job.dry_run) [
    | inl dry ↦
        counted_only e s s' (ground (arith, dry)) (ground (arith, dry)) (ground (arith, dry))
          (λ w. absurd (ground (arith, dry, w)))
    | inr wet ↦ write_changed-Applied e m s s' wet found (ground (arith, wet))
  ]

  settle_entity-Applied :
      (e : AmoEntity) (o : Option ExternalEntityMap) (s s' : Progress S)
      → find? (is_mapped job entity_type e.external_id) s.maps ≡ o
      → settle_entity sha256 writer job entity_type e o s ≡ ok s'
      → Applied e s s'
  unfolding settle_entity
  settle_entity-Applied e none s s' found h = create_entity-Applied e s s' h
  settle_entity-Applied e (some m) s s' found h =
      elim (Bool-cases (str_eq m.fingerprint (fingerprint sha256 e))) [
        | inl same ↦
            counted_only e s s' (ground (arith, same)) (ground (arith, same)) (ground (arith, same))
              (λ w.
                unfold ledger in
                rw found (ap some ((eq_iff m.fingerprint (fingerprint sha256 e)).0 same)))
        | inr new ↦ update_entity-Applied e m s s' found (ground (arith, new))
      ]

  pub record AppliedAll (es : List AmoEntity) (s s' : Progress S) : Type 0 where
    pub counted : total s'.counters ≡ total s.counters + length es
    pub dry : job.dry_run ≡ true → (s'.maps ≡ s.maps) × (s'.crm ≡ s.crm)
    pub entered :
        job.dry_run ≡ false
        → (key : String)
        → ledger job entity_type s'.maps key
          ≡ enter_all sha256 es (ledger job entity_type s.maps) key

  apply_entity-Applied :
      (e : AmoEntity) (s s' : Progress S)
      → apply_entity sha256 writer job entity_type e s ≡ ok s'
      → Applied e s s'
  unfolding apply_entity
  apply_entity-Applied e s s' h = settle_entity-Applied e _ s s' refl h

  pub apply_entities-AppliedAll :
      (es : List AmoEntity) (s s' : Progress S)
      → has_duplicates es ≡ false
      → apply_entities sha256 writer job entity_type es s ≡ ok s'
      → AppliedAll es s s'
  unfolding apply_entities has_duplicates apply_entity fingerprint
  apply_entities-AppliedAll [] s s' fresh h =
      let same : s ≡ s' = ground (arith, h) in
      rw (← same)
        (record { counted = omega arith; dry = λ d. (refl, refl); entered = λ w key. refl })
  apply_entities-AppliedAll (e ∷ es) s s' fresh h =
      let (s₁, h₁, h₂) = >>=-eq-ok (apply_entity sha256 writer job entity_type e s) _ h in
      let one = apply_entity-Applied e s s₁ h₁ in
      let rest = apply_entities-AppliedAll es s₁ s' (ground (arith, fresh)) h₂ in
      let absent : any (λ (o : AmoEntity). str_eq o.external_id e.external_id) es ≡ false =
        ground (arith, fresh) in
      record {
        counted = omega (arith, one.counted, rest.counted);
        dry = λ d. ((rest.dry d).0 ∙ (one.dry d).0, (rest.dry d).1 ∙ (one.dry d).1);
        entered = λ w key. elim (Bool-cases (str_eq e.external_id key)) [
          | inl hit ↦
              let key_is : e.external_id ≡ key = (eq_iff e.external_id key).0 hit in
              rw hit (
                rest.entered w key
                ∙ rw key_is at (
                    enter_all_absent sha256 e es (ledger job entity_type s₁.maps) absent
                    ∙ one.entered w))
          | inr miss ↦ rw miss (
              rest.entered w key
              ∙ enter_all-ext sha256 es (ledger job entity_type s₁.maps)
                  (ledger job entity_type s.maps) key
                  (one.others key (λ k. ground (arith, miss, eq_iff e.external_id key, k))))
        ];
      }
