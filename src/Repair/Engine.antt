-- ===== src/Repair/Engine.antt =====
-- repair/engine.go: the repair engine.
use agent_orchestrator_go.Base.{ℕ, ◌++◌, Text, txt, decimal, ltb, if◌then◌else◌, Result, ok}
use agent_orchestrator_go.Failure.{FailureEvent, is_retryable}
use agent_orchestrator_go.Repair.{
  RepairPlan, plain_action, abort, new_repair_plan, add_action, with_reasoning,
}
use agent_orchestrator_go.Repair.Config.{RetryConfig, default_retry_config, should_retry}
use agent_orchestrator_go.Repair.Strategies.{Strategy}

pub record RepairEngine : Type 0 where
  pub strategy : Strategy
  pub config : RetryConfig

unfoldable pub new_engine : Strategy → ℕ → RepairEngine
new_engine strategy max_attempts = record {
  strategy = strategy;
  config =
      if ltb 0 max_attempts
      then record default_retry_config { max_attempts = max_attempts }
      else default_retry_config;
}

unfoldable pub new_engine_with_config : Strategy → RetryConfig → RepairEngine
new_engine_with_config strategy config = record { strategy = strategy; config = config }

-- The plan that gives the step up.
abbrev pub abort_plan : Text → FailureEvent → RepairPlan
abort_plan reasoning f =
    with_reasoning reasoning (add_action (plain_action abort f.step_index) (new_repair_plan f))

abbrev pub exceeded_attempts : ℕ → Text
exceeded_attempts max = txt "exceeded max attempts (" ++ (decimal max ++ txt ")")

unfoldable pub repair : RepairEngine → FailureEvent → Result RepairPlan
unfolding should_retry is_retryable new_repair_plan add_action with_reasoning
repair e f =
    if should_retry e.config f.attempt
    then if is_retryable f
      then e.strategy f
      else ok (abort_plan (txt "failure type is not retryable") f)
    else ok (abort_plan (exceeded_attempts e.config.max_attempts) f)
