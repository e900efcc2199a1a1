-- ===== src/Pipelines/Tests.antt =====
-- A pipeline of three stages: a stage is added to it, one is deleted, and a pipeline is deleted.
use pulse_crm.Prelude.{
  ℕ, refl, true, false, List, [], ◌∷◌, arith, count, delete, any, select, find?, update,
}
use pulse_crm.Events.{text, number, record_domain_event, no_events}
use pulse_crm.Models.{admin}
use pulse_crm.Access.{Context}
use pulse_crm.Pipelines.{
  StageType, open_stage, won, Pipeline, Stage, Board, board_event, ensure_pipeline, ensure_stage,
}
use pulse_crm.Pipelines.{clean_resource_name}
use pulse_crm.Pipelines.References.{stage_references}
use pulse_crm.Pipelines.Stages.{StageAppendCreate, by_position, touch, write_stage, create_stage}
use pulse_crm.Pipelines.Deletion.{delete_stage, is_open_of}
use pulse_crm.Pipelines.Placed.{IsPlaced, create_stage-IsPlaced}
use pulse_crm.Pipelines.Kept.{StageDeleted, delete_stage-StageDeleted}
use pulse_crm.Prelude.{strip, is_blank}

abbrev sales : Pipeline
sales = record {
  id = 1;
  workspace_id = 1;
  name = "Sales";
  position = 0;
  is_active = true;
  version = 1;
}

abbrev stage_at : ℕ → ℕ → StageType → Stage
stage_at id position stage_type = record {
  id = id;
  workspace_id = 1;
  pipeline_id = 1;
  name = "Stage";
  color = "#64748B";
  position = position;
  stage_type = stage_type;
  version = 1;
}

abbrev three : List Stage
three = stage_at 12 7 won ∷ stage_at 10 0 open_stage ∷ stage_at 11 4 open_stage ∷ []

abbrev board : Board
board = record {
  pipelines = sales ∷ [];
  stages = three;
  deals = [];
  deal_stage_history = [];
  channel_connections = [];
  notification_rules = [];
  forms = [];
  webhook_endpoints = [];
  external_maps = [];
  journal = no_events;
}

abbrev context : Context
context = record { workspace_id = 1; user_id = 4; role = admin }

abbrev payload : StageAppendCreate
payload = record { name = " Review "; color = "#aabb00" }

create_stage-IsPlaced_example :
    IsPlaced context 1 board (write_stage 20 context sales payload "Review" board)
unfolding create_stage clean_resource_name is_blank strip ensure_pipeline find? by_position select
create_stage-IsPlaced_example =
    create_stage-IsPlaced 20 context 1 payload board
      (write_stage 20 context sales payload "Review" board).1
      (write_stage 20 context sales payload "Review" board).0 refl

abbrev after_deletion : Board
after_deletion = record board {
  pipelines = touch sales ∷ [];
  stages = stage_at 12 7 won ∷ stage_at 10 0 open_stage ∷ [];
  journal =
      record_domain_event
        (board_event "stage.deleted" "stage" context 11
          (("name", text "Stage") ∷ ("pipeline_id", number 1) ∷ []))
        no_events;
}

delete_stage-StageDeleted_example : StageDeleted context 11 1 board after_deletion
unfolding delete_stage ensure_stage find? ensure_pipeline stage_references any count is_open_of
    update delete
delete_stage-StageDeleted_example =
    delete_stage-StageDeleted false context 11 1 board after_deletion
      (
        ((λ e. omega (arith, e)), ((λ e. omega (arith, e)), tt)),
        (((λ e. omega (arith, e)), tt), (tt, tt)),
      )
      refl

abbrev archive : Pipeline
archive = record {
  id = 2;
  workspace_id = 1;
  name = "Old";
  position = 1;
  is_active = true;
  version = 4;
}

abbrev two_pipelines : Board
two_pipelines = record board { pipelines = sales ∷ archive ∷ [] }

abbrev after_archive : Board
after_archive = record board {
  pipelines = sales ∷ [];
  journal =
      record_domain_event
        (board_event "pipeline.deleted" "pipeline" context 2
          (("name", text "Old") ∷ ("stage_count", number 0) ∷ []))
        no_events;
}
