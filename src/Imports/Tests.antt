-- ===== src/Imports/Tests.antt =====
-- A page of two contacts, one of them known, for a writer that keeps the entities it is given.
use pulse_crm.Prelude.{
  ℕ, suc, ◌≡◌, refl, String, true, false, none, some, List, [], ◌∷◌, length, ok, any, find?, update,
}
use pulse_crm.Imports.{
  pending, ImportJob, ExternalEntityMap, AmoEntity, AmoPage, no_counts, ImportPageResult,
  ImportEntityWriter, accepts_page,
}
use pulse_crm.Imports.Apply.{
  finished_job, apply_import_page, update_entity, settle_entity, fingerprint, create_entity,
  is_mapped, apply_entity, schema_version, write_changed, write_new, apply_entities, has_duplicates,
}
use pulse_crm.Imports.Pages.{total, ledger, enter_all}
use pulse_crm.Imports.Again.{apply_import_page-refines, apply_import_page_again}
use pulse_crm.Imports.Lifecycle.{page_applied, Moves, ImportStep-Moves}

abbrev plain : String → String
plain text = text

abbrev writer : ImportEntityWriter (List AmoEntity)
writer = record { upsert = λ workspace_id e known mapping crm. ok (suc (length crm), e ∷ crm) }

abbrev job : ImportJob
job = record {
  id = 3;
  workspace_id = 1;
  provider = "amocrm";
  status = pending;
  dry_run = false;
  entity_type = some "all";
  cursor = [];
  user_mapping = [];
  counts = [];
  started_at = none;
  completed_at = none;
  last_error = none;
  version = 1;
}

abbrev ann : AmoEntity
ann = record {
  entity_type = "contacts";
  external_id = "71";
  content = "{name:Ann}";
  source_updated_at = none;
}

abbrev bob : AmoEntity
bob = record {
  entity_type = "contacts";
  external_id = "72";
  content = "{name:Bob}";
  source_updated_at = none;
}

abbrev page : AmoPage
page = record {
  entity_type = "contacts";
  entities = ann ∷ bob ∷ [];
  next_cursor = some (("page", "2") ∷ []);
}

abbrev map_of : AmoEntity → ℕ → String → ExternalEntityMap
map_of e internal_id print = record {
  workspace_id = 1;
  import_job_id = some 3;
  provider = "amocrm";
  entity_type = "contacts";
  external_id = e.external_id;
  internal_id = internal_id;
  source_updated_at = none;
  fingerprint = print;
}

abbrev before : List ExternalEntityMap
before = map_of bob 9 "{name:Robert}" ∷ []

abbrev after : List ExternalEntityMap
after = map_of ann 1 "{name:Ann}" ∷ map_of bob 2 "{name:Bob}" ∷ []

abbrev result : ImportPageResult
result = record { counters = record no_counts { created = 1; updated = 1 }; done = false }

abbrev pub job_after : ImportJob
job_after = finished_job job page result.counters 500

applied :
    apply_import_page plain writer job page 500 before []
    ≡ ok (result, job_after, after, bob ∷ ann ∷ [])
unfolding apply_import_page accepts_page has_duplicates any apply_entities apply_entity
    settle_entity find? is_mapped create_entity write_new fingerprint schema_version update_entity
    write_changed update
applied = refl

apply_import_page-refines_example :
    (total result.counters ≡ 2)
    × (false ≡ true → (after ≡ before) × (◌≡◌ {A = List AmoEntity} (bob ∷ ann ∷ []) []))
    × (false ≡ false
        → (key : String)
        → ledger job "contacts" after key
          ≡ enter_all plain (ann ∷ bob ∷ []) (ledger job "contacts" before) key)
apply_import_page-refines_example =
    apply_import_page-refines plain writer job page 500 before [] result job_after after
      (bob ∷ ann ∷ []) applied

apply_import_page_again_example :
    let counters = record no_counts { unchanged = 2 } in
    apply_import_page plain writer job_after page 600 after (bob ∷ ann ∷ [])
    ≡ ok (
      record { counters = counters; done = false },
      finished_job job_after page counters 600,
      after,
      bob ∷ ann ∷ [],
    )
unfolding accepts_page
apply_import_page_again_example =
    apply_import_page_again plain writer writer job job_after page 500 600 before [] result
      job_after after (bob ∷ ann ∷ []) applied refl refl refl refl refl

ImportStep-Moves_example : Moves job job_after
ImportStep-Moves_example =
    ImportStep-Moves plain writer job job_after
      (page_applied page 500 before after [] (bob ∷ ann ∷ []) result applied)
