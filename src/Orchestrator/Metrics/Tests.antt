-- ===== src/Orchestrator/Metrics/Tests.antt =====
-- A run whose first step failed once and then succeeded with a report.
use agent_orchestrator_go.Base.{
  ℕ, ◌+◌, ◌≤◌, ◌≡◌, refl, true, [], ◌∷◌, none, some, txt, text_eq, ok, err, if◌then◌else◌,
}
use agent_orchestrator_go.Value.{
  Fields, str, strings, array, text, no_text, no_value, field, end, lookup,
}
use agent_orchestrator_go.Tools.{Json}
use agent_orchestrator_go.Orchestrator.StepExecutor.{
  AgentStep, step_failed, step_succeeded, attempt_id, tool_step_id,
}
use agent_orchestrator_go.Orchestrator.Engine.{AgentRun, run_completed}
use agent_orchestrator_go.Orchestrator.Validators.{
  validate_report, check_texts, check_confidence, check_evidence, check_next_steps, text_of,
  is_level,
}
use agent_orchestrator_go.Orchestrator.Metrics.{output_of, has_valid_structured_output}
use agent_orchestrator_go.Orchestrator.Metrics.Evaluate.{
  MetricsEvaluator, Floats, Metrics, evaluate_all, compute_repair_rate, logical_step_prefix,
}
use agent_orchestrator_go.Orchestrator.Metrics.Repaired.{
  logical_step_prefix-attempt_id, compute_repair_rate-attempts,
}
use agent_orchestrator_go.Orchestrator.Metrics.Bounds.{
  evaluate_all_bounds, validated-has_valid_structured_output,
}

abbrev stored_report : Fields
stored_report = field (txt "error_summary") (str (txt "timeouts")) (
    field (txt "suspected_root_cause") (str (txt "network")) (
      field (txt "confidence_level") (str (txt "Low")) (
        field (txt "supporting_evidence") (array no_value)
          (field (txt "suggested_next_steps") (strings (text (txt "retry") no_text)) end))))

-- A text of one character stands for the report; no other text is JSON.
abbrev small_json : Json
small_json = record {
  marshal = λ m. txt "R";
  unmarshal = λ t. if text_eq t (txt "R") then ok stored_report else err (txt "no JSON");
}

abbrev attempt : ℕ → AgentStep
attempt n = record {
  step_id = attempt_id (txt "run") 0 n;
  run_id = txt "run";
  status = step_failed;
  input = [];
  output = txt "timeout";
}

abbrev success : AgentStep
success = record (attempt 2) { status = step_succeeded; output = txt "R" }

logical_step_prefix-attempt_id_example :
    logical_step_prefix (attempt_id (txt "a-attempt-1") 3 12) ≡ tool_step_id (txt "a-attempt-1") 3
logical_step_prefix-attempt_id_example = logical_step_prefix-attempt_id (txt "a-attempt-1") 3 12

compute_repair_rate-attempts_example :
    compute_repair_rate (attempt 1 ∷ success ∷ []) ≡ record { repairable = 1; repaired = 1 }
compute_repair_rate-attempts_example =
    compute_repair_rate-attempts (txt "run") 0 (attempt 1 ∷ success ∷ [])
      ((1, refl), ((2, refl), tt))

success_output : output_of small_json success ≡ some stored_report
unfolding output_of text_eq
success_output = refl

stored_report-accepted : validate_report (txt "agent.log_analyzer") stored_report ≡ none
unfolding validate_report check_texts check_confidence check_evidence check_next_steps text_of
    is_level lookup text_eq
stored_report-accepted = refl

validated-has_valid_structured_output_example :
    has_valid_structured_output small_json (attempt 1 ∷ success ∷ []) ≡ true
validated-has_valid_structured_output_example =
    validated-has_valid_structured_output small_json (attempt 1 ∷ []) [] success stored_report
      success_output stored_report-accepted

abbrev small_evaluator : MetricsEvaluator
small_evaluator = record {
  get_run = λ id. err (txt "no run");
  get_steps = λ id. ok (attempt 1 ∷ success ∷ []);
  get_tool_calls = λ id. ok [];
  json = small_json;
  lower = λ c. c;
}

abbrev one_run : AgentRun
one_run = record {
  run_id = txt "run";
  goal = txt "logs";
  status = run_completed;
  current_step_index = 0;
  max_steps = 1;
  completed = true;
}

-- Fractions as pairs, with no rounding.
abbrev pairs : Floats (ℕ × ℕ)
pairs = record { of_int = λ n. (n, 1); divide = λ a b. (a.0, b.0); one_minus = λ a. a }

one_run_counts :
    (found : Metrics (ℕ × ℕ)) × (evaluate_all pairs small_evaluator (one_run ∷ []) ≡ ok found)
unfolding evaluate_all
one_run_counts = (_, refl)

evaluate_all_bounds_example :
    (one_run_counts.0.counts.total_runs ≡ 1)
    × (one_run_counts.0.counts.succeeded_runs + one_run_counts.0.counts.failed_runs ≤ 1)
    × (one_run_counts.0.counts.valid_structure_count ≤ 1)
    × (one_run_counts.0.counts.grounded_evidence_items
        ≤ one_run_counts.0.counts.total_evidence_items)
    × (one_run_counts.0.counts.successfully_repaired
        ≤ one_run_counts.0.counts.total_repairable_steps)
evaluate_all_bounds_example =
    evaluate_all_bounds pairs small_evaluator (one_run ∷ []) one_run_counts.0 one_run_counts.1
