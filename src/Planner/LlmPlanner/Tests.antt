-- ===== src/Planner/LlmPlanner/Tests.antt =====
-- Examples for the planner over a language model.
use agent_orchestrator_go.Base.{
  suc, ap, text_eq, trim_space, index, last_index, member, ℕ, true, ◌≡◌, refl, [], ◌∷◌, ◌++◌, none,
  Text, txt, text_eq, if◌then◌else◌, ok, err, ◌≤◌,
}
use agent_orchestrator_go.Value.{end}
use agent_orchestrator_go.Llm.Prompt.{render}
use agent_orchestrator_go.Llm.Guardrails.{check_chain}
use agent_orchestrator_go.Planner.Plan.{Plan}
use agent_orchestrator_go.Planner.Replanner.{ReplanContext}
use agent_orchestrator_go.Failure.{unknown_failure}
use agent_orchestrator_go.Llm.{Client}
use agent_orchestrator_go.Llm.Schema.{
  validate_json, JsonValue, json_string, json_array, json_object, no_element, element, no_member,
  json_member,
}
use agent_orchestrator_go.Planner.LlmPlanner.{
  RawStep, PlannerLibraries, LlmPlanner, plan_step, create_plan, replan_with_model, new_llm_planner,
  with_model,
}
use agent_orchestrator_go.Planner.LlmPlanner.Known.{
  IsAnswered, create_plan-IsAnswered, replan_with_model-IsAnswered,
}

abbrev answer : Text
answer = txt "[{\"agent_id\": \"echo\"}]"

abbrev answer_value : JsonValue
answer_value = json_array (
    element (json_object (json_member (txt "agent_id") (json_string (txt "echo")) no_member))
      no_element)

abbrev echo_step : RawStep
echo_step = record {
  agent_id = txt "echo";
  input = end;
  metadata = end;
  step_id = [];
  depends_on = [];
}

-- Libraries that read the one answer, and render every template as it stands.
abbrev one_answer : PlannerLibraries
one_answer = record {
  templates = λ text d. ok text;
  decoder = record {
    decode =
        λ t. if text_eq t answer then ok answer_value else err (txt "unexpected end of JSON input");
    fits_float = λ _. true;
    mismatch = λ _ t. txt "cannot unmarshal into " ++ t;
  };
  decode_steps = λ t.
      if text_eq t answer then ok (echo_step ∷ []) else err (txt "unexpected end of JSON input");
  lower = λ c. c;
}

-- The model counts its calls, and wraps the answer in a fence.
abbrev model : Client ℕ
model calls request = (
  ok (record {
    content = txt "```json\n[{\"agent_id\": \"echo\"}]\n```";
    model = request.model;
    prompt_tokens = 0;
    output_tokens = 0;
  }),
  suc calls,
)

abbrev echo_planner : LlmPlanner ℕ
echo_planner =
    with_model (txt "mistral")
      (new_llm_planner model (record { id = txt "echo"; description = [] } ∷ []))

abbrev echo_plan : Plan
echo_plan = record { task_id = txt "t"; steps = plan_step echo_step ∷ [] }

echo_created : create_plan one_answer echo_planner 0 (txt "t") ≡ (ok echo_plan, 1)
unfolding create_plan new_llm_planner with_model render check_chain text_eq trim_space validate_json
    index last_index member
echo_created = refl

create_plan-IsAnswered_example : IsAnswered one_answer echo_planner 0 (txt "t") echo_plan
unfolding new_llm_planner with_model
create_plan-IsAnswered_example =
    create_plan-IsAnswered one_answer echo_planner refl 0 (txt "t") echo_plan
      (ap (λ q. q.0) echo_created)

abbrev failed_once : ReplanContext
failed_once = record {
  task_id = txt "t";
  original_plan = none;
  failed_step_index = 0;
  failed_agent_id = txt "echo";
  failure_error = txt "boom";
  failure_type = unknown_failure;
  completed_steps = [];
  vars = end;
  attempt = 1;
  max_replans = 1;
}

echo_replanned : (replan_with_model one_answer echo_planner 0 failed_once).0 ≡ ok echo_plan
unfolding replan_with_model new_llm_planner with_model render check_chain text_eq trim_space
    validate_json index last_index member
echo_replanned = refl

replan_with_model-IsAnswered_example :
    (1 ≤ 1) × IsAnswered one_answer echo_planner 0 (txt "t") echo_plan
unfolding new_llm_planner with_model
replan_with_model-IsAnswered_example =
    replan_with_model-IsAnswered one_answer echo_planner refl 0 failed_once echo_plan echo_replanned
