-- ===== src/Orchestrator/Engine/Replay/Tests.antt =====
-- A run of one step with one stored call, replayed.
use agent_orchestrator_go.Base.{
  pos, ℕ, true, ◌≡◌, refl, [], ◌∷◌, Option, some, none, txt, text_eq, Result, ok, err,
}
use agent_orchestrator_go.Value.{Fields, nil_map, end, field, str, int, insert}
use agent_orchestrator_go.Planner.Plan.{Plan}
use agent_orchestrator_go.Tools.{Executor, Json, ToolResult}
use agent_orchestrator_go.Tools.Stored.{StoredCall, call_succeeded}
use agent_orchestrator_go.Tools.Persisting.{Recorder}
use agent_orchestrator_go.Tools.Replay.{replay_execute, new_replay_executor, unconsumed}
use agent_orchestrator_go.Orchestrator.Dag.{new_dag_scheduler, len, ready_steps, mark_done}
use agent_orchestrator_go.Orchestrator.Engine.{
  first_failure, AgentRun, run_completed, Engine, RunRepository, ExecutionResult, execute,
}
use agent_orchestrator_go.Orchestrator.Engine.Replay.{replay}

abbrev one_step : Plan
one_step = record {
  task_id = txt "task";
  steps =
      record {
        agent_id = txt "echo";
        input = end;
        metadata = nil_map;
        retry_policy = none;
        step_id = [];
        depends_on = [];
      }
      ∷ [];
}

abbrev answer_only : Fields
answer_only = field (txt "text") (str (txt "A")) end

-- Every map is encoded alike, and every text decodes to the answer.
abbrev plain_json : Json
plain_json = record { marshal = λ m. txt "{}"; unmarshal = λ t. ok answer_only }

abbrev content_of : Result ToolResult → Result Fields
content_of (ok r) = ok r.content
content_of (err e) = err e

abbrev stored_run : AgentRun
stored_run = record {
  run_id = txt "r1";
  goal = txt "task";
  status = run_completed;
  current_step_index = 0;
  max_steps = 1;
  completed = true;
}

abbrev one_run : RunRepository ℕ
one_run = record {
  create = λ n run. (none, n);
  get_by_id = λ n id. ok stored_run;
  update = λ n run. (none, n);
}

-- The only step calls a tool. The engine has no use for a recorder here.
abbrev calling_engine : (S : Type 0) → Executor S → Recorder ℕ → Engine (ℕ × S) ℕ
calling_engine S execute recorder = record {
  create_plan = λ w task. (ok one_step, w);
  replanner = none;
  run_batch = λ w req plan ready vars.
      let (r, s) = execute w.1 (record { tool_name = txt "up"; args = end }) in
      ((λ i. content_of r), (w.0, s));
  runs = some one_run;
  max_replans = 0;
}

abbrev one_call : StoredCall
one_call = record {
  tool_call_id = txt "c1";
  run_id = txt "r1";
  step_id = txt "s1";
  tool_name = txt "up";
  input = txt "{}";
  output = txt "{}";
  status = call_succeeded;
}

-- The stored call is used, and its output is the output of the run.
abbrev replayed_output : Fields
replayed_output = field (txt "text") (str (txt "A")) (
    field (txt "_replay_source") (str (txt "r1"))
      (field (txt "_replay_unconsumed_calls") (int (pos 0)) end))

abbrev output_of_replay : Option (Result ExecutionResult × ℕ) → Fields
output_of_replay (some (ok r, db)) = r.output
output_of_replay _ = end

call_replayed :
    output_of_replay
      (replay plain_json calling_engine (some (λ n id. ok (one_call ∷ []))) 0 0 (txt "r1"))
    ≡ replayed_output
unfolding replay new_replay_executor text_eq new_dag_scheduler len ready_steps first_failure
    replay_execute mark_done insert unconsumed
call_replayed = refl
