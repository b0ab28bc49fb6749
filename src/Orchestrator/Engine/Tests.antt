-- ===== src/Orchestrator/Engine/Tests.antt =====
-- A run of two steps, the second of which fails once and is replaced by a new plan.
use agent_orchestrator_go.Base.{
  ℕ, suc, ◌≡◌, [], ◌∷◌, some, none, txt, Result, ok, err, ltb, if◌then◌else◌,
}
use agent_orchestrator_go.Value.{Fields, nil_map, end}
use agent_orchestrator_go.Planner.Plan.{PlanStep, Plan}
use agent_orchestrator_go.Orchestrator.Engine.{
  Engine, Execution, ExecutionRequest, ExecutionResult, execute,
}
use agent_orchestrator_go.Orchestrator.Engine.Progress.{Finished}
use agent_orchestrator_go.Orchestrator.Engine.Returns.{execute_total}

abbrev plain_step : PlanStep
plain_step = record {
  agent_id = txt "echo";
  input = end;
  metadata = nil_map;
  retry_policy = none;
  step_id = [];
  depends_on = [];
}

abbrev two_steps : Plan
two_steps = record { task_id = txt "task"; steps = plain_step ∷ plain_step ∷ [] }

-- The world counts the batches, and the second one fails.
abbrev fails_once : ℕ → ℕ → Result Fields
fails_once batch i =
    if ltb batch 1 then ok end else if ltb batch 2 then err (txt "timeout") else ok end

abbrev small_engine : Engine ℕ ℕ
small_engine = record {
  create_plan = λ w task. (ok two_steps, w);
  replanner = some (λ w context. (ok (some two_steps), w));
  run_batch = λ w req plan ready vars. (fails_once w, suc w);
  runs = none;
  max_replans = 3;
}

abbrev small_request : ExecutionRequest
small_request = record { run_id = txt "run"; task_id = txt "task"; input = end }

execute_total_example :
    (q : Result ExecutionResult × Execution ℕ ℕ) × (execute small_engine small_request 0 0 ≡ some q)
    × Finished small_engine small_request q
execute_total_example = execute_total small_engine small_request 0 0
