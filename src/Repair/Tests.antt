-- ===== src/Repair/Tests.antt =====
-- Package repair at concrete failures.
use agent_orchestrator_go.Base.{◌<◌, ◌≤◌, ◌≡◌, ◌⊎◌, refl, txt, ok, arith}
use agent_orchestrator_go.Value.{end}
use agent_orchestrator_go.Failure.{FailureEvent, tool_failure, is_retryable}
use agent_orchestrator_go.Repair.{RepairPlan, new_repair_plan}
use agent_orchestrator_go.Repair.Config.{should_retry, default_retry_config}
use agent_orchestrator_go.Repair.Strategies.{
  advanced_strategy, new_advanced_strategy, handle_tool_failure,
}
use agent_orchestrator_go.Repair.Engine.{RepairEngine, repair}
use agent_orchestrator_go.Repair.Sound.{
  IsSingle, IsRetried, IsAbort, RetriesOrAborts, repair_aborts, advanced_strategy-IsSingle,
  tool_failure-retry_or_abort,
}

abbrev tool_event : FailureEvent
tool_event = record {
  run_id = txt "run";
  step_index = 1;
  agent_id = txt "echo";
  failure_type = tool_failure;
  error = txt "tool failed";
  output = end;
  timestamp = 0;
  attempt = 2;
}

abbrev third_event : FailureEvent
third_event = record tool_event { attempt = 3 }

abbrev advanced_engine : RepairEngine
advanced_engine = record {
  strategy = advanced_strategy new_advanced_strategy;
  config = default_retry_config;
}

repair_aborts_example :
    ((3 < 3)
      × IsRetried tool_failure
      × (repair advanced_engine third_event ≡ advanced_strategy new_advanced_strategy third_event))
    ⊎ (((3 ≤ 3) ⊎ (IsRetried tool_failure → ⊥)) × IsAbort advanced_engine third_event)
repair_aborts_example = repair_aborts advanced_engine third_event

advanced_strategy-IsSingle_example :
    (plan : RepairPlan) × (advanced_strategy new_advanced_strategy tool_event ≡ ok plan)
    × IsSingle tool_event plan
advanced_strategy-IsSingle_example = advanced_strategy-IsSingle new_advanced_strategy tool_event

abbrev tool_plan_2 : RepairPlan
tool_plan_2 = handle_tool_failure new_advanced_strategy tool_event (new_repair_plan tool_event)

repaired_2 : repair advanced_engine tool_event ≡ ok tool_plan_2
unfolding repair should_retry is_retryable advanced_strategy
repaired_2 = refl

tool_failure-retry_or_abort_example : RetriesOrAborts tool_plan_2.actions
tool_failure-retry_or_abort_example =
    tool_failure-retry_or_abort new_advanced_strategy advanced_engine tool_event tool_plan_2 refl
      (omega arith) refl repaired_2
