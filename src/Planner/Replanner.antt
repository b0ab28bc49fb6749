-- ===== src/Planner/Replanner.antt =====
-- planner/replanner.go: what a replanner is told.
use agent_orchestrator_go.Base.{ℕ, List, Option, Text}
use agent_orchestrator_go.Value.{Fields}
use agent_orchestrator_go.Failure.{FailureType}
use agent_orchestrator_go.Planner.Plan.{Plan}

pub record CompletedStep : Type 0 where
  pub step_index : ℕ
  pub agent_id : Text
  pub output : Fields

pub record ReplanContext : Type 0 where
  pub task_id : Text
  pub original_plan : Option Plan
  pub failed_step_index : ℕ
  pub failed_agent_id : Text
  pub failure_error : Text
  pub failure_type : FailureType
  pub completed_steps : List CompletedStep
  pub vars : Fields
  pub attempt : ℕ
  pub max_replans : ℕ
