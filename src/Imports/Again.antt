-- ===== src/Imports/Again.antt =====
-- A page that was applied leaves nothing to do when it comes again.
use pulse_crm.Prelude.{
  ℕ, suc, ◌+◌, ◌≡◌, refl, sym, ap, ◌∙◌, String, str_eq, eq_iff, true, false, not, ◌||◌, Option,
  none, some, List, [], ◌∷◌, All, All-map, arith, length, find?, ok, runtime_error, >>=-eq-ok,
  raise_if-eq-ok, is_text, is_none,
}
use pulse_crm.Imports.{
  ImportJob, ExternalEntityMap, AmoEntity, AmoPage, no_counts, ImportPageResult, ImportEntityWriter,
  accepts_page,
}
use pulse_crm.Imports.Apply.{
  Progress, has_duplicates, is_mapped, fingerprint, settle_entity, apply_entity, apply_entities,
  finished_job, apply_import_page,
}
use pulse_crm.Imports.Pages.{total, print_of, ledger, enter_all, enter_all-All}
use pulse_crm.Imports.Applied.{apply_entities-AppliedAll}

module _ (sha256 : String → String) where
  -- What a page that was accepted checked, and what its loop did.
  pub record PageApplied {S : Type 0} (writer : ImportEntityWriter S) (job : ImportJob)
      (page : AmoPage) (now : ℕ) (maps : List ExternalEntityMap) (crm : S)
      (result : ImportPageResult) (job' : ImportJob) (maps' : List ExternalEntityMap) (crm' : S)
      : Type 0 where
    pub fresh : has_duplicates page.entities ≡ false
    pub progress : Progress S
    pub ran :
        apply_entities sha256 writer job page.entity_type page.entities
          (record { maps = maps; counters = no_counts; crm = crm })
        ≡ ok progress
    pub counters_are : result.counters ≡ progress.counters
    pub maps_are : maps' ≡ progress.maps
    pub crm_is : crm' ≡ progress.crm

  pub apply_import_page-PageApplied :
      {S : Type 0} (writer : ImportEntityWriter S) (job : ImportJob) (page : AmoPage) (now : ℕ)
      (maps : List ExternalEntityMap) (crm : S) (result : ImportPageResult) (job' : ImportJob)
      (maps' : List ExternalEntityMap) (crm' : S)
      → apply_import_page sha256 writer job page now maps crm ≡ ok (result, job', maps', crm')
      → PageApplied writer job page now maps crm result job' maps' crm'
  unfolding apply_import_page
  apply_import_page-PageApplied writer job page now maps crm result job' maps' crm' h =
      let (t1, h1) =
        raise_if-eq-ok (not (accepts_page job.status))
          (runtime_error "only pending or running imports can apply a page") _ h in
      let (t2, h2) =
        raise_if-eq-ok
          (not (is_text job.entity_type page.entity_type || is_text job.entity_type "all"))
          (runtime_error "import page does not match the job entity type") _ h1 in
      let (t3, h3) =
        raise_if-eq-ok (has_duplicates page.entities)
          (runtime_error "amoCRM page contains duplicate external identifiers") _ h2 in
      let (s, ran, h4) =
        >>=-eq-ok
          (apply_entities sha256 writer job page.entity_type page.entities
            (record { maps = maps; counters = no_counts; crm = crm }))
          _ h3 in
      record {
        fresh = t3;
        progress = s;
        ran = ran;
        counters_are = ground (arith, h4);
        maps_are = ground (arith, h4);
        crm_is = ground (arith, h4);
      }

  -- A page that is applied counts each of its entities once. A dry run leaves the map of imported
  -- entities and the CRM as they were; any other run refines the specification, by which the
  -- fingerprints of the page's entities are entered over those that the map had.
  pub apply_import_page-refines :
      {S : Type 0} (writer : ImportEntityWriter S) (job : ImportJob) (page : AmoPage) (now : ℕ)
      (maps : List ExternalEntityMap) (crm : S) (result : ImportPageResult) (job' : ImportJob)
      (maps' : List ExternalEntityMap) (crm' : S)
      → apply_import_page sha256 writer job page now maps crm ≡ ok (result, job', maps', crm')
      → (total result.counters ≡ length page.entities)
        × (job.dry_run ≡ true → (maps' ≡ maps) × (crm' ≡ crm))
        × (job.dry_run ≡ false
            → (key : String)
            → ledger job page.entity_type maps' key
              ≡ enter_all sha256 page.entities (ledger job page.entity_type maps) key)
  apply_import_page-refines writer job page now maps crm result job' maps' crm' h =
      let p = apply_import_page-PageApplied writer job page now maps crm result job' maps' crm' h in
      let all =
        apply_entities-AppliedAll sha256 writer job page.entity_type page.entities
          (record { maps = maps; counters = no_counts; crm = crm }) p.progress p.fresh p.ran in
      (
        rw p.counters_are (omega (arith, all.counted)),
        λ d. rw (p.maps_are, p.crm_is) (all.dry d),
        λ w key. rw p.maps_are (all.entered w key),
      )

  abbrev pub with_unchanged : {S : Type 0} → ℕ → Progress S → Progress S
  with_unchanged n s = record s { counters = record s.counters { unchanged = n } }

  abbrev pub one_more : {S : Type 0} → ℕ → Progress S → Progress S
  one_more n s = with_unchanged (s.counters.unchanged + n) s

  settled_entity :
      {S : Type 0} (writer : ImportEntityWriter S) (job : ImportJob) (entity_type : String)
      (e : AmoEntity) (s : Progress S)
      → ledger job entity_type s.maps e.external_id ≡ some (fingerprint sha256 e)
      → apply_entity sha256 writer job entity_type e s ≡ ok (one_more 1 s)
  unfolding apply_entity ledger settle_entity
  settled_entity writer job entity_type e s h =
      go (find? (is_mapped job entity_type e.external_id) s.maps) h
    where
      go :
          (o : Option ExternalEntityMap)
          → print_of o ≡ some (fingerprint sha256 e)
          → settle_entity sha256 writer job entity_type e o s ≡ ok (one_more 1 s)
      go none k = cc
      go (some m) k =
          let same : str_eq m.fingerprint (fingerprint sha256 e) ≡ true =
            (eq_iff m.fingerprint (fingerprint sha256 e)).1 (ground (arith, k)) in
          rw same refl

  settled_entities :
      {S : Type 0} (writer : ImportEntityWriter S) (job : ImportJob) (entity_type : String)
      (es : List AmoEntity) (s : Progress S)
      → All
          (λ (e : AmoEntity).
            ledger job entity_type s.maps e.external_id ≡ some (fingerprint sha256 e))
          es
      → apply_entities sha256 writer job entity_type es s ≡ ok (one_more (length es) s)
  unfolding apply_entities
  settled_entities writer job entity_type [] s h =
      let n : s.counters.unchanged + 0 ≡ s.counters.unchanged = omega arith in
      ap (λ k. ok (with_unchanged k s)) (sym n)
  settled_entities writer job entity_type (e ∷ es) s (h, hs) =
      let n : s.counters.unchanged + 1 + length es ≡ s.counters.unchanged + suc (length es) =
        omega arith in
      rw (settled_entity writer job entity_type e s h) (
        settled_entities writer job entity_type es (one_more 1 s) hs
        ∙ ap (λ k. ok (with_unchanged k s)) n)

  -- The look-up does not read what differs between two jobs of a workspace and provider.
  ledger-same :
      (job job₂ : ImportJob) (entity_type : String) (maps : List ExternalEntityMap) (key : String)
      → job₂.workspace_id ≡ job.workspace_id
      → job₂.provider ≡ job.provider
      → ledger job₂ entity_type maps key ≡ ledger job entity_type maps key
  unfolding ledger is_mapped
  ledger-same job job₂ entity_type maps key w p = rw (w, p) refl

  -- Once a page was applied outside a dry run, any job of the workspace and provider that accepts the
  -- page and gets it again finds all its entities unchanged, and writes nothing to the map or the CRM.
  pub apply_import_page_again :
      {S : Type 0} (writer writer₂ : ImportEntityWriter S) (job job₂ : ImportJob) (page : AmoPage)
      (now now₂ : ℕ) (maps : List ExternalEntityMap) (crm : S) (result : ImportPageResult)
      (job' : ImportJob) (maps' : List ExternalEntityMap) (crm' : S)
      → apply_import_page sha256 writer job page now maps crm ≡ ok (result, job', maps', crm')
      → job.dry_run ≡ false
      → job₂.workspace_id ≡ job.workspace_id
      → job₂.provider ≡ job.provider
      → accepts_page job₂.status ≡ true
      → (is_text job₂.entity_type page.entity_type || is_text job₂.entity_type "all") ≡ true
      → let counters = record no_counts { unchanged = length page.entities } in
        apply_import_page sha256 writer₂ job₂ page now₂ maps' crm'
        ≡ ok (
          record { counters = counters; done = is_none page.next_cursor },
          finished_job job₂ page counters now₂,
          maps',
          crm',
        )
  unfolding apply_import_page
  apply_import_page_again writer writer₂ job job₂ page now now₂ maps crm result job' maps' crm' h
        wet w p a t =
      let done =
        apply_import_page-PageApplied writer job page now maps crm result job' maps' crm' h in
      let refined =
        (apply_import_page-refines writer job page now maps crm result job' maps' crm' h).2 wet in
      let known =
        All-map
          (λ (e : AmoEntity) k.
            ledger-same job job₂ page.entity_type maps' e.external_id w p
            ∙ refined e.external_id
            ∙ k)
          page.entities
          (enter_all-All sha256 page.entities (ledger job page.entity_type maps) done.fresh) in
      let loop =
        settled_entities writer₂ job₂ page.entity_type page.entities
          (record { maps = maps'; counters = no_counts; crm = crm' }) known in
      let count : 0 + length page.entities ≡ length page.entities = omega arith in
      rw (a, t, done.fresh, loop, count) refl
