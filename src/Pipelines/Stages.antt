-- ===== src/Pipelines/Stages.antt =====
-- backend/app/api/crm.py, `create_stage` and `update_stage`.
use pulse_crm.Prelude.{
  ℕ, zero, suc, ◌+◌, String, not, ◌&&◌, Option, none, some, List, [], ◌∷◌, ◌++◌, ◌==◌, leb,
  if◌then◌else◌, length, take, drop, select, update, delete, Result, ok, http, raise_if, ◌>>=◌,
  ◌>>◌,
}
use pulse_crm.Access.{Context}
use pulse_crm.Events.{text, number, record_domain_event}
use pulse_crm.Pipelines.{
  open_stage, is_open, Pipeline, Stage, Board, upper, clean_resource_name, version_conflict,
  own_pipeline, ensure_pipeline, ensure_stage, of_pipeline, board_event,
}

pub record StageAppendCreate : Type 0 where
  pub name : String
  pub color : String

-- `ORDER BY position`.
unfoldable pub insert_ordered : Stage → List Stage → List Stage
insert_ordered x [] = x ∷ []
insert_ordered x (y ∷ ys) =
    let later = y ∷ insert_ordered x ys in if leb x.position y.position then x ∷ y ∷ ys else later

unfoldable pub by_position : List Stage → List Stage
unfolding insert_ordered
by_position [] = []
by_position (x ∷ xs) = insert_ordered x (by_position xs)

-- `(stages[-1].position + 2) if stages else 1`.
unfoldable pub offset : List Stage → ℕ
offset [] = 1
offset (x ∷ []) = x.position + 2
offset (x ∷ y ∷ ys) = offset (y ∷ ys)

-- The first flush moves every stage out of the way of the positions to come.
abbrev pub shift : ℕ → Stage → Stage
shift n x = record x { position = x.position + n }

-- The index of the first stage that is not open, or the end.
unfoldable pub insert_at : List Stage → ℕ
insert_at [] = zero
insert_at (x ∷ xs) = let later = suc (insert_at xs) in if is_open x.stage_type then later else zero

-- A stage gets its index as its position, and a new version if that is not the original one.
abbrev pub place : ℕ → Stage → Stage
place position x = record x {
  position = position;
  version = if x.position == position then x.version else x.version + 1;
}

unfoldable pub renumber : ℕ → List Stage → List Stage
renumber position [] = []
renumber position (x ∷ xs) = place position x ∷ renumber (position + 1) xs

abbrev pub new_stage : ℕ → Context → Pipeline → StageAppendCreate → String → ℕ → Stage
new_stage id c pipeline payload name position = record {
  id = id;
  workspace_id = c.workspace_id;
  pipeline_id = pipeline.id;
  name = name;
  color = upper payload.color;
  position = position;
  stage_type = open_stage;
  version = 1;
}

-- `[*stages[:insert_at], stage, *stages[insert_at:]]`.
abbrev pub insert_stage : Stage → List Stage → List Stage
insert_stage stage stages =
    take (insert_at stages) stages ++ (stage ∷ drop (insert_at stages) stages)

abbrev pub touch : Pipeline → Pipeline
touch p = record p { version = p.version + 1 }

abbrev pub stages_of : Context → ℕ → Board → List Stage
stages_of c pipeline_id b = by_position (select (of_pipeline c.workspace_id pipeline_id) b.stages)

-- What the handler writes once its checks have passed. A table has no order: the rows of the
-- pipeline stand before the others when it is written.
unfoldable pub write_stage :
    ℕ → Context → Pipeline → StageAppendCreate → String → Board → Stage × Board
write_stage id c pipeline payload name b =
    let stages = stages_of c pipeline.id b in
    let stage = new_stage id c pipeline payload name (insert_at stages) in
    (
      stage,
      record b {
        pipelines = update (own_pipeline c.workspace_id pipeline.id) touch b.pipelines;
        stages =
            renumber 0 (insert_stage stage stages)
            ++ delete (of_pipeline c.workspace_id pipeline.id) b.stages;
        journal =
            record_domain_event
              (board_event "stage.created" "stage" c id
                (("pipeline_id", number pipeline.id) ∷ ("position", number stage.position) ∷ []))
              b.journal;
      },
    )

unfoldable pub create_stage : ℕ → Context → ℕ → StageAppendCreate → Board → Result (Stage × Board)
create_stage id c pipeline_id payload b = do
  name ← clean_resource_name payload.name "stage name cannot be blank"
  pipeline ← ensure_pipeline b c.workspace_id pipeline_id
  raise_if (leb 50 (length (stages_of c pipeline.id b))) (http 409 "pipeline_stage_limit")
  ok (write_stage id c pipeline payload name b)

pub record StageUpdate : Type 0 where
  pub name : String
  pub color : Option String
  pub expected_version : ℕ

abbrev pub restyled : String → Option String → Stage → Stage
restyled name none x = record x { name = name; version = x.version + 1 }
restyled name (some color) x = record x {
  name = name;
  version = x.version + 1;
  color = upper color;
}

-- `", ".join(changed_fields)`.
changed_fields : Option String → String
changed_fields none = "name"
changed_fields (some color) = "name, color"

unfoldable pub update_stage : Context → ℕ → StageUpdate → Board → Result (Stage × Board)
unfolding changed_fields
update_stage c stage_id payload b = do
  name ← clean_resource_name payload.name "stage name cannot be blank"
  x ← ensure_stage b c.workspace_id stage_id none
  raise_if (not (x.version == payload.expected_version)) version_conflict
  ok (
    restyled name payload.color x,
    record b {
      stages =
          update (λ y. y.id == stage_id && y.workspace_id == c.workspace_id)
            (restyled name payload.color) b.stages;
      journal =
          record_domain_event
            (board_event "stage.updated" "stage" c stage_id (
              ("fields", text (changed_fields payload.color))
              ∷ ("pipeline_id", number x.pipeline_id)
              ∷ ("version", number (x.version + 1))
              ∷ []))
            b.journal;
    },
  )
