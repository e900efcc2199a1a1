-- ===== src/Imports/Apply.antt =====
-- backend/app/integrations/amo.py, `apply_import_page`: the loop over the entities of a page, and what
-- it leaves of the import. The digest of a text is a parameter.
use pulse_crm.Prelude.{
  ℕ, ◌+◌, String, text_append, str_eq, Bool, false, not, ◌&&◌, ◌||◌, Option, none, some, List, [],
  ◌∷◌, ◌==◌, if◌then◌else◌, or_else, is_text, is_none, find?, any, update, Result, ok,
  runtime_error, raise_if, ◌>>=◌, ◌>>◌,
}
use pulse_crm.Imports.{
  ImportJob, Counters, running, succeeded, ExternalEntityMap, AmoEntity, AmoPage, no_counts,
  ImportPageResult, ImportEntityWriter, accepts_page,
}

-- The tables inside the loop: the map of the imported entities, and the writer's.
pub record Progress (S : Type 0) : Type 0 where
  pub maps : List ExternalEntityMap
  pub counters : Counters
  pub crm : S

unfoldable pub has_duplicates : List AmoEntity → Bool
has_duplicates [] = false
has_duplicates (e ∷ es) =
    let rest = has_duplicates es in
    any (λ (o : AmoEntity). str_eq o.external_id e.external_id) es || rest

-- `counts[name] = int(counts.get(name, 0)) + count`.
unfoldable pub add_count : String → ℕ → List (String × ℕ) → List (String × ℕ)
add_count name n [] = (name, n) ∷ []
add_count name n ((key, value) ∷ rest) =
    let later = (key, value) ∷ add_count name n rest in
    if str_eq key name then (key, value + n) ∷ rest else later

unfoldable pub add_counters : Counters → List (String × ℕ) → List (String × ℕ)
add_counters c counts = add_count "would_update" c.would_update (
    add_count "would_create" c.would_create (
      add_count "unchanged" c.unchanged
        (add_count "updated" c.updated (add_count "created" c.created counts))))

-- The entities whose fingerprints have a version, and its text.
unfoldable pub schema_version : String → Option String
schema_version t =
    if str_eq t "companies" || str_eq t "deals" || str_eq t "notes" then some "2" else none

-- The row of an entity of the page: `existing_maps` has the rows of all of them, and the loop keeps
-- it up to date, so that a look-up there is one in the table.
unfoldable pub is_mapped : ImportJob → String → String → ExternalEntityMap → Bool
is_mapped job entity_type external_id m =
    m.workspace_id == job.workspace_id
    && str_eq m.provider job.provider
    && str_eq m.entity_type entity_type
    && str_eq m.external_id external_id

abbrev pub new_map : ImportJob → String → AmoEntity → String → ℕ → ExternalEntityMap
new_map job entity_type e print internal_id = record {
  workspace_id = job.workspace_id;
  import_job_id = some job.id;
  provider = job.provider;
  entity_type = entity_type;
  external_id = e.external_id;
  internal_id = internal_id;
  source_updated_at = e.source_updated_at;
  fingerprint = print;
}

abbrev pub refreshed : ImportJob → AmoEntity → String → ℕ → ExternalEntityMap → ExternalEntityMap
refreshed job e print internal_id m = record m {
  internal_id = internal_id;
  import_job_id = some job.id;
  source_updated_at = e.source_updated_at;
  fingerprint = print;
}

abbrev pub finished_job : ImportJob → AmoPage → Counters → ℕ → ImportJob
finished_job job page counters now = record job {
  status = elim page.next_cursor [ none ↦ succeeded | some cursor ↦ running ];
  cursor = or_else page.next_cursor [];
  counts = add_counters counters job.counts;
  started_at = some (or_else job.started_at now);
  completed_at = elim page.next_cursor [ none ↦ some now | some cursor ↦ none ];
  last_error = none;
  version = job.version + 1;
}

module _ (sha256 : String → String) where
  unfoldable pub fingerprint : AmoEntity → String
  fingerprint e = elim (schema_version e.entity_type) [
    | none ↦ sha256 e.content
    | some v ↦
        sha256
          (text_append e.entity_type (text_append ":v" (text_append v (text_append ":" e.content))))
  ]

  module _ {S : Type 0} (writer : ImportEntityWriter S) (job : ImportJob)
      (entity_type : String) where
    -- An entity without a row, and one whose row has another fingerprint: what is written outside a
    -- dry run, and the two branches.
    unfoldable pub write_new : AmoEntity → Progress S → Result (Progress S)
    write_new e s = do
      (internal_id, crm) ← writer.upsert job.workspace_id e none job.user_mapping s.crm
      ok (record {
        maps = new_map job entity_type e (fingerprint e) internal_id ∷ s.maps;
        counters = record s.counters { created = s.counters.created + 1 };
        crm = crm;
      })

    unfoldable pub create_entity : AmoEntity → Progress S → Result (Progress S)
    create_entity e s =
        if job.dry_run
        then ok (record s {
          counters = record s.counters { would_create = s.counters.would_create + 1 };
        })
        else write_new e s

    unfoldable pub write_changed : AmoEntity → ExternalEntityMap → Progress S → Result (Progress S)
    write_changed e m s = do
      (internal_id, crm) ←
          writer.upsert job.workspace_id e (some m.internal_id) job.user_mapping s.crm
      ok (record {
        maps =
            update (is_mapped job entity_type e.external_id)
              (refreshed job e (fingerprint e) internal_id) s.maps;
        counters = record s.counters { updated = s.counters.updated + 1 };
        crm = crm;
      })

    unfoldable pub update_entity : AmoEntity → ExternalEntityMap → Progress S → Result (Progress S)
    update_entity e m s =
        if job.dry_run
        then ok (record s {
          counters = record s.counters { would_update = s.counters.would_update + 1 };
        })
        else write_changed e m s

    unfoldable pub settle_entity :
        AmoEntity → Option ExternalEntityMap → Progress S → Result (Progress S)
    settle_entity e none s = create_entity e s
    settle_entity e (some m) s =
        if str_eq m.fingerprint (fingerprint e)
        then ok (record s { counters = record s.counters { unchanged = s.counters.unchanged + 1 } })
        else update_entity e m s

    unfoldable pub apply_entity : AmoEntity → Progress S → Result (Progress S)
    apply_entity e s = settle_entity e (find? (is_mapped job entity_type e.external_id) s.maps) s

    unfoldable pub apply_entities : List AmoEntity → Progress S → Result (Progress S)
    apply_entities [] s = ok s
    apply_entities (e ∷ es) s = do s' ← apply_entity e s; apply_entities es s'

  unfoldable pub apply_import_page :
      {S : Type 0}
      → ImportEntityWriter S
      → ImportJob
      → AmoPage
      → ℕ
      → List ExternalEntityMap
      → S
      → Result (ImportPageResult × ImportJob × List ExternalEntityMap × S)
  apply_import_page writer job page now maps crm = do
    raise_if (not (accepts_page job.status))
        (runtime_error "only pending or running imports can apply a page")
    raise_if (not (is_text job.entity_type page.entity_type || is_text job.entity_type "all"))
        (runtime_error "import page does not match the job entity type")
    raise_if (has_duplicates page.entities)
        (runtime_error "amoCRM page contains duplicate external identifiers")
    s ←
        apply_entities writer job page.entity_type page.entities
          (record { maps = maps; counters = no_counts; crm = crm })
    ok (
      record { counters = s.counters; done = is_none page.next_cursor },
      finished_job job page s.counters now,
      s.maps,
      s.crm,
    )
