-- ===== src/Orchestrator/StepExecutor/Tests.antt =====
-- A step whose agent answers what it is given, with the records kept.
use agent_orchestrator_go.Base.{
  ℕ, suc, ◌≤◌, ◌<◌, ◌≡◌, refl, List, [], ◌∷◌, text_eq_iff, arith, Option, some, none, Text, txt,
  text_eq, Result, ok, err, if◌then◌else◌,
}
use agent_orchestrator_go.Value.{Fields, str, nil_map, end, field, overlay, insert}
use agent_orchestrator_go.Retry.Policy.{default_policy, effective_max, should_retry}
use agent_orchestrator_go.Planner.Plan.{PlanStep}
use agent_orchestrator_go.Tools.{answer, run_program}
use agent_orchestrator_go.Repair.Strategies.{simple_retry_strategy}
use agent_orchestrator_go.Repair.Config.{default_retry_config}
use agent_orchestrator_go.Orchestrator.StepExecutor.{
  AgentStep, validation_error, run_agent, record_step, Agent, StepEngine, StepContext, StepState,
  effective_policy, step_loop, step_round, run_attempt, handle_answer, record_successful_step,
  execute_step, effective_input,
}
use agent_orchestrator_go.Orchestrator.StepExecutor.Bounded.{execute_step_total}
use agent_orchestrator_go.Orchestrator.StepExecutor.Recorded.{
  TakesNewIds, SuccessRecords, execute_step-records,
}
use agent_orchestrator_go.Orchestrator.StepExecutor.Input.{step_loop-input}

abbrev echo : Agent
echo = record { with_tools = λ m. answer (ok m); without_tools = λ m. ok m }

abbrev one_agent : Text → Option Agent
one_agent id = if text_eq id (txt "echo") then some echo else none

-- A validator that accepts every output.
abbrev accepting : Text → Fields → ℕ → Option Text
accepting id output s = none

-- A step repository where the id is the primary key.
abbrev unique_ids : List AgentStep → AgentStep → Option Text
unique_ids [] s = none
unique_ids (r ∷ rows) s =
    if text_eq r.step_id s.step_id
    then some (txt "UNIQUE constraint failed: agent_steps.step_id")
    else unique_ids rows s

unique_ids-TakesNewIds : TakesNewIds unique_ids
unique_ids-TakesNewIds [] s free = refl
unique_ids-TakesNewIds (r ∷ rows) s free =
    ground (arith, text_eq_iff r.step_id s.step_id, free.0, unique_ids-TakesNewIds rows s free.1)

abbrev echo_engine : StepEngine ℕ ℕ
echo_engine = record {
  agents = one_agent;
  tools = some (λ n call. (err (txt "no such tool"), suc n));
  recorder = none;
  validator = some accepting;
  steps = some unique_ids;
  repair_engine = some (record { strategy = simple_retry_strategy; config = default_retry_config });
  retry_policy = default_policy;
  json = record { marshal = λ m. txt "map"; unmarshal = λ t. ok end };
  now = 0;
}

abbrev echo_context : StepContext
echo_context = record { run_id = txt "run"; request_input = end; vars = end }

abbrev echo_step : PlanStep
echo_step = record {
  agent_id = txt "echo";
  input = field (txt "k") (str (txt "v")) end;
  metadata = nil_map;
  retry_policy = none;
  step_id = [];
  depends_on = [];
}

abbrev echo_output : Fields
echo_output = field (txt "k") (str (txt "v")) end

abbrev echo_start : StepState ℕ ℕ
echo_start = record {
  world = record { inner = 0; recorded = 0; seq = 0 };
  attempts = λ _. 0;
  steps = [];
  delayed = [];
}

abbrev result_or : {A : Type 0} → A → Option (Result Fields × A) → A
result_or a none = a
result_or a (some (r, b)) = b

abbrev echo_end : StepState ℕ ℕ
echo_end = result_or echo_start (execute_step echo_engine echo_context echo_step 0 echo_start)

echo_runs :
    execute_step echo_engine echo_context echo_step 0 echo_start ≡ some (ok echo_output, echo_end)
unfolding execute_step step_loop step_round run_attempt handle_answer record_successful_step
    effective_policy effective_input overlay run_agent record_step insert text_eq should_retry
    run_program
echo_runs = refl

execute_step_total_example :
    (r : Result Fields) × (st' : StepState ℕ ℕ) × (execute_step echo_engine echo_context echo_step 0
        echo_start
      ≡ some (r, st'))
    × (0 < st'.attempts 0)
    × (st'.attempts 0 ≤ suc (effective_max (effective_policy echo_engine echo_context echo_step 0)))
execute_step_total_example = execute_step_total echo_engine echo_context echo_step 0 echo_start refl

execute_step-records_example :
    SuccessRecords echo_engine echo_context echo_step 0 unique_ids refl unique_ids-TakesNewIds []
      echo_output echo_end
    × (validation_error echo_engine echo_context echo_step 0 echo_output echo_end.world.inner
        ≡ none)
execute_step-records_example =
    execute_step-records echo_engine echo_context echo_step 0 unique_ids refl unique_ids-TakesNewIds
      echo_start echo_output echo_end (λ m later. tt) echo_runs

step_loop-input_example :
    step_loop echo_engine echo_context echo_step 0 4 end (txt "echo") echo_start
    ≡ step_loop echo_engine echo_context echo_step 0 4 echo_output (txt "echo") echo_start
step_loop-input_example =
    step_loop-input echo_engine echo_context echo_step 0 4 end echo_output (txt "echo") echo_start
