-- ===== src/Planner/Fixed.antt =====
-- planner/dummy.go and planner/log_analysis.go: planners with one plan.
use agent_orchestrator_go.Base.{[], ◌∷◌, none, Text, txt, Result, ok}
use agent_orchestrator_go.Value.{nil_map}
use agent_orchestrator_go.Planner.Plan.{PlanStep, Plan}

-- A step of which only the agent is given.
abbrev pub bare_step : Text → PlanStep
bare_step agent = record {
  agent_id = agent;
  input = nil_map;
  metadata = nil_map;
  retry_policy = none;
  step_id = [];
  depends_on = [];
}

-- `DummyPlanner.CreatePlan`
unfoldable pub dummy_plan : Text → Result Plan
dummy_plan task = ok (record { task_id = task; steps = bare_step (txt "agent.echo") ∷ [] })

-- `LogAnalysisPlanner.CreatePlan`
unfoldable pub log_analysis_plan : Text → Result Plan
log_analysis_plan task = ok (record {
  task_id = task;
  steps =
      record (bare_step (txt "agent.log_reader")) { step_id = txt "scan" }
      ∷ record (bare_step (txt "agent.log_analyzer")) {
        step_id = txt "analyze";
        depends_on = txt "scan" ∷ [];
      }
      ∷ [];
})
