-- ===== src/Pipelines/References.antt =====
-- backend/app/api/crm.py, `_stage_references` and `_pipeline_references`: the tables that still
-- refer to a stage, or to a pipeline or one of its stages.
use pulse_crm.Prelude.{
  ℕ, ◌≡◌, refl, String, Bool, true, false, ◌&&◌, ◌||◌, Option, none, some, List, [], ◌∷◌, ◌==◌,
  is_eq, any,
}
use pulse_crm.Pipelines.{Placement, DealStageHistory, Stage, Board, of_pipeline}

named_if : Bool → String → List String → List String
named_if true name names = name ∷ names
named_if false name names = names

-- `stage_id IN (SELECT id FROM stages WHERE …)`, never true of NULL.
unfoldable pub stage_in : (ℕ → Bool) → Option ℕ → Bool
stage_in p none = false
stage_in p (some stage_id) = p stage_id

unfoldable pub at_stage : ℕ → (ℕ → Bool) → Placement → Bool
unfolding stage_in
at_stage workspace_id stages r = r.workspace_id == workspace_id && stage_in stages r.stage_id

unfoldable pub moved_through : ℕ → (ℕ → Bool) → DealStageHistory → Bool
unfolding stage_in
moved_through workspace_id stages r =
    r.workspace_id == workspace_id && (stage_in stages r.from_stage_id || stages r.to_stage_id)

unfoldable pub stage_references : Board → ℕ → ℕ → List String
unfolding named_if
stage_references b workspace_id stage_id =
    let here = at_stage workspace_id (λ x. x == stage_id) in
    named_if (any here b.deals) "deals" (
      named_if (any (moved_through workspace_id (λ x. x == stage_id)) b.deal_stage_history)
        "deal_stage_history"
        (named_if (any here b.channel_connections) "channel_connections" (
          named_if (any here b.notification_rules) "notification_rules" (
            named_if (any here b.forms) "forms"
              (named_if (any here b.webhook_endpoints) "webhook_endpoints" [])))))

-- Whether a number is the key of a stage of the pipeline.
unfoldable pub is_stage_of : Board → ℕ → ℕ → ℕ → Bool
is_stage_of b workspace_id pipeline_id stage_id =
    any (λ (x : Stage). of_pipeline workspace_id pipeline_id x && x.id == stage_id) b.stages

unfoldable pub in_pipeline : ℕ → ℕ → (ℕ → Bool) → Placement → Bool
unfolding stage_in
in_pipeline workspace_id pipeline_id stages r =
    r.workspace_id == workspace_id
    && (is_eq r.pipeline_id pipeline_id || stage_in stages r.stage_id)

unfoldable pub pipeline_references : Board → ℕ → ℕ → List String
unfolding named_if
pipeline_references b workspace_id pipeline_id =
    let stages = is_stage_of b workspace_id pipeline_id in
    let here = in_pipeline workspace_id pipeline_id stages in
    named_if (any here b.deals) "deals" (
      named_if (any (moved_through workspace_id stages) b.deal_stage_history) "deal_stage_history" (
        named_if (any here b.channel_connections) "channel_connections" (
          named_if (any here b.notification_rules) "notification_rules" (
            named_if (any here b.forms) "forms"
              (named_if (any here b.webhook_endpoints) "webhook_endpoints" [])))))

named_if-eq-nil :
    (t : Bool) (name : String) (names : List String)
    → named_if t name names ≡ []
    → (t ≡ false) × (names ≡ [])
unfolding named_if
named_if-eq-nil true name names h = cc
named_if-eq-nil false name names h = (refl, h)
