-- ===== src/Orchestrator/Grounding/Tests.antt =====
-- A step whose agent quotes what a tool has returned, under a grounding validator.
use agent_orchestrator_go.Base.{
  ℕ, suc, ◌≡◌, refl, ◌↔◌, true, false, [], ◌∷◌, Option, some, none, Text, txt, text_eq, Result, ok,
  err, All, decimal, member, last_index, contains, normalize_space, join, quote,
}
use agent_orchestrator_go.Value.{
  Fields, str, maps, one_map, no_map, nil_map, end, field, lookup, overlay, insert,
}
use agent_orchestrator_go.Value.Read.{string_at, maps_at}
use agent_orchestrator_go.Retry.Policy.{default_policy, should_retry}
use agent_orchestrator_go.Planner.Plan.{PlanStep}
use agent_orchestrator_go.Tools.{Call, Executor, answer, use_tool, run_program}
use agent_orchestrator_go.Tools.Collector.{Collecting, CollectedOutput, collector_execute}
use agent_orchestrator_go.Orchestrator.StepExecutor.{
  Agent, StepEngine, StepContext, StepState, effective_policy, step_loop, step_round, run_attempt,
  handle_answer, record_successful_step, execute_step, effective_input, step_tools, run_agent,
  record_step,
}
use agent_orchestrator_go.Orchestrator.Grounding.{
  extract_evidence_items, validate_grounding, corpus_text, is_grounded, fields_text,
}
use agent_orchestrator_go.Orchestrator.Grounding.Sound.{IsGrounded, validate_grounding_iff}
use agent_orchestrator_go.Orchestrator.Grounding.Wiring.{
  Checker, grounding, composite, checker, no_checker, grounding_validator, set_collector, check,
  collecting_engine, execute_step-IsGrounded,
}

abbrev no_float : ℕ → Text
no_float bits = []

abbrev one_output : CollectedOutput
one_output = record {
  output_tool = txt "fs.read_file";
  input = field (txt "path") (str (txt "logs/a.log")) end;
  output = field (txt "content") (str (txt "error:  disk full")) end;
}

abbrev evidence_of_a : Fields
evidence_of_a =
    field (txt "supporting_evidence")
      (maps (
        one_map
          (field (txt "file") (str (txt "a.log")) (field (txt "text") (str (txt "disk full")) end))
          no_map))
      end

-- An invented file is noticed, and a real one accepted.
accepts_real : validate_grounding no_float (some (one_output ∷ [])) [] evidence_of_a ≡ none
unfolding validate_grounding text_eq string_at maps_at lookup corpus_text fields_text is_grounded
    member last_index contains normalize_space
accepts_real = refl

abbrev invented : Fields
invented =
    field (txt "supporting_evidence")
      (maps (one_map (field (txt "file") (str (txt "b.log")) end) no_map)) end

refuses_invented :
    validate_grounding no_float (some (one_output ∷ [])) [] invented
    ≡ some (
        txt
          "grounding check failed: 1 violation(s):\n  - evidence[0]: file \"b.log\" not found in any tool call output")
unfolding validate_grounding text_eq string_at maps_at lookup corpus_text fields_text is_grounded
    decimal member last_index join quote
refuses_invented = refl

validate_grounding_iff_example :
    (validate_grounding no_float (some (one_output ∷ [])) [] evidence_of_a ≡ none)
    ↔ All (IsGrounded no_float (one_output ∷ [])) (extract_evidence_items evidence_of_a)
validate_grounding_iff_example = validate_grounding_iff no_float (one_output ∷ []) [] evidence_of_a

abbrev read_call : Call
read_call = record {
  tool_name = txt "fs.read_file";
  args = field (txt "path") (str (txt "logs/a.log")) end;
}

abbrev quoting_agent : Agent
quoting_agent = record {
  with_tools = λ input. use_tool read_call (λ r. answer (ok evidence_of_a));
  without_tools = λ input. err (txt "no tools");
}

abbrev quoting_tools : Executor ℕ
quoting_tools n call =
    (ok (record { result_tool = call.tool_name; content = one_output.output }), suc n)

abbrev quoting_engine : StepEngine ℕ ℕ
quoting_engine = record {
  agents = λ id. some quoting_agent;
  tools = some quoting_tools;
  recorder = none;
  validator = none;
  steps = none;
  repair_engine = none;
  retry_policy = default_policy;
  json = record { marshal = λ m. txt "map"; unmarshal = λ t. ok end };
  now = 0;
}

abbrev quoting_context : StepContext
quoting_context = record { run_id = txt "run"; request_input = end; vars = end }

abbrev quoting_step : PlanStep
quoting_step = record {
  agent_id = txt "quote";
  input = end;
  metadata = nil_map;
  retry_policy = none;
  step_id = [];
  depends_on = [];
}

abbrev quoting_start : StepState (Collecting ℕ) ℕ
quoting_start = record {
  world = record { inner = record { inner = 0; outputs = [] }; recorded = 0; seq = 0 };
  attempts = λ _. 0;
  steps = [];
  delayed = [];
}

abbrev strict : Checker ℕ
strict = composite (checker (grounding false) no_checker)

abbrev result_or : {A : Type 0} → A → Option (Result Fields × A) → A
result_or a none = a
result_or a (some (r, b)) = b

abbrev quoting_end : StepState (Collecting ℕ) ℕ
quoting_end = result_or quoting_start (
    execute_step (collecting_engine no_float strict quoting_engine) quoting_context quoting_step 0
      quoting_start)

quoting_runs :
    execute_step
      (collecting_engine no_float strict quoting_engine)
      quoting_context
      quoting_step
      0
      quoting_start
    ≡ some (ok evidence_of_a, quoting_end)
unfolding execute_step step_loop step_round run_attempt handle_answer record_successful_step
    effective_policy effective_input overlay insert text_eq should_retry run_program run_agent
    step_tools record_step collecting_engine check set_collector validate_grounding string_at
    maps_at lookup corpus_text fields_text is_grounded collector_execute member last_index contains
    normalize_space
quoting_runs = refl

strict-found : grounding_validator strict ≡ true
unfolding grounding_validator
strict-found = refl

execute_step-IsGrounded_example :
    All (IsGrounded no_float quoting_end.world.inner.outputs) (extract_evidence_items evidence_of_a)
execute_step-IsGrounded_example =
    execute_step-IsGrounded no_float strict quoting_engine quoting_context quoting_step 0
      quoting_tools refl strict-found quoting_start evidence_of_a quoting_end quoting_runs
