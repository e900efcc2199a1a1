-- ===== src/Pipelines/Deletion.antt =====
-- backend/app/api/crm.py, `delete_stage` and `delete_pipeline`. `refused` says that the commit met a
-- database constraint, a reference that another request wrote in the meantime.
use pulse_crm.Prelude.{
  ℕ, String, Bool, true, false, not, ◌&&◌, ◌||◌, none, some, List, [], ◌∷◌, ◌==◌, leb, str_eq,
  length, select, count, update, delete, Result, ok, http, raise_if, ◌>>=◌, ◌>>◌,
}
use pulse_crm.Access.{Context}
use pulse_crm.Events.{text, number, record_domain_event}
use pulse_crm.Pipelines.{
  is_open, Pipeline, Stage, ExternalEntityMap, Board, version_conflict, own_pipeline,
  ensure_pipeline, ensure_stage, of_pipeline, board_event,
}
use pulse_crm.Pipelines.References.{stage_references, is_stage_of, pipeline_references}
use pulse_crm.Pipelines.Stages.{touch}

abbrev pub is_used : List String → Bool
is_used [] = false
is_used (name ∷ names) = true

unfoldable pub is_open_of : ℕ → ℕ → Stage → Bool
is_open_of workspace_id pipeline_id x =
    of_pipeline workspace_id pipeline_id x && is_open x.stage_type

unfoldable pub delete_stage : Bool → Context → ℕ → ℕ → Board → Result Board
delete_stage refused c stage_id expected_version b = do
  seen ← ensure_stage b c.workspace_id stage_id none
  pipeline ← ensure_pipeline b c.workspace_id seen.pipeline_id
  stage ← ensure_stage b c.workspace_id stage_id (some pipeline.id)
  raise_if (not (stage.version == expected_version)) version_conflict
  raise_if (not (is_open stage.stage_type)) (http 409 "stage_not_open")
  raise_if (is_used (stage_references b c.workspace_id stage.id)) (http 409 "stage_in_use")
  raise_if (leb (count (is_open_of c.workspace_id stage.pipeline_id) b.stages) 1)
      (http 409 "last_open_stage")
  raise_if refused (http 409 "stage_in_use")
  ok (record b {
    external_maps =
        delete
          (λ m.
            m.workspace_id == c.workspace_id
            && str_eq m.entity_type "stages"
            && m.internal_id == stage.id)
          b.external_maps;
    stages = delete (λ x. x.id == stage.id) b.stages;
    pipelines = update (own_pipeline c.workspace_id pipeline.id) touch b.pipelines;
    journal =
        record_domain_event
          (board_event "stage.deleted" "stage" c stage.id
            (("name", text stage.name) ∷ ("pipeline_id", number stage.pipeline_id) ∷ []))
          b.journal;
  })

unfoldable pub is_active_in : ℕ → Pipeline → Bool
is_active_in workspace_id p = p.workspace_id == workspace_id && p.is_active

-- The rows of the import map that name the pipeline or one of its stages.
unfoldable pub maps_pipeline : Board → ℕ → ℕ → ExternalEntityMap → Bool
maps_pipeline b workspace_id pipeline_id m =
    m.workspace_id == workspace_id
    && ((str_eq m.entity_type "pipelines" && m.internal_id == pipeline_id)
        || (str_eq m.entity_type "stages" && is_stage_of b workspace_id pipeline_id m.internal_id))

-- `meanwhile` are the pipelines as other requests have committed them since the count, which locks
-- none of them.
unfoldable pub delete_pipeline : Bool → Context → ℕ → ℕ → List Pipeline → Board → Result Board
delete_pipeline refused c pipeline_id expected_version meanwhile b = do
  pipeline ← ensure_pipeline b c.workspace_id pipeline_id
  raise_if (not (pipeline.version == expected_version)) version_conflict
  raise_if (is_used (pipeline_references b c.workspace_id pipeline.id)) (http 409 "pipeline_in_use")
  raise_if (pipeline.is_active && leb (count (is_active_in c.workspace_id) b.pipelines) 1)
      (http 409 "last_active_pipeline")
  raise_if refused (http 409 "pipeline_in_use")
  ok (record b {
    external_maps = delete (maps_pipeline b c.workspace_id pipeline.id) b.external_maps;
    stages = delete (of_pipeline c.workspace_id pipeline.id) b.stages;
    pipelines = delete (λ p. p.id == pipeline.id) meanwhile;
    journal =
        record_domain_event
          (board_event "pipeline.deleted" "pipeline" c pipeline.id (
            ("name", text pipeline.name)
            ∷ (
              "stage_count",
              number (length (select (of_pipeline c.workspace_id pipeline.id) b.stages)),
            )
            ∷ []))
          b.journal;
  })
