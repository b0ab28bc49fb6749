-- ===== src/Planner/Plan.antt =====
-- planner/planner.go: plans and their steps.
use agent_orchestrator_go.Base.{List, Option, Text}
use agent_orchestrator_go.Value.{Fields}
use agent_orchestrator_go.Retry.Policy.{Policy}

pub record PlanStep : Type 0 where
  pub agent_id : Text
  pub input : Fields
  pub metadata : Fields
  pub retry_policy : Option Policy
  pub step_id : Text
  pub depends_on : List Text

pub record Plan : Type 0 where
  pub task_id : Text
  pub steps : List PlanStep
