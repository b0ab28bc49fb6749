-- ===== src/Planner/LlmPlanner.antt =====
-- planner/llm_planner.go: plans that a language model proposes.
pub mod Known
mod Tests
use agent_orchestrator_go.Base.{
  ℕ, suc, Bool, true, false, not, List, [], ◌∷◌, ◌++◌, map, Option, some, none, Text, txt, text_eq,
  decimal, ltb, if◌then◌else◌, Result, ok, err, ◌>>=◌, member, quote,
}
use agent_orchestrator_go.Value.{Fields}
use agent_orchestrator_go.Failure.{type_name}
use agent_orchestrator_go.Planner.Plan.{Plan, PlanStep}
use agent_orchestrator_go.Planner.Replanner.{CompletedStep, ReplanContext}
use agent_orchestrator_go.Llm.{Client, Message, Request, Response}
use agent_orchestrator_go.Llm.Prompt.{
  AgentDescriptor, CompletedInfo, PromptTemplate, PromptData, agents_data, plan_data, replan_data,
  TemplateEngine, render, plan_system_prompt, plan_user_prompt, replan_system_prompt,
  replan_user_prompt,
}
use agent_orchestrator_go.Llm.Schema.{JsonDecoder, plan_step_schema}
use agent_orchestrator_go.Llm.Guardrails.{
  Guardrail, empty_response_guardrail, json_guardrail, check_chain, extract_json,
}

-- `rawStep`
pub record RawStep : Type 0 where
  pub agent_id : Text
  pub input : Fields
  pub metadata : Fields
  pub step_id : Text
  pub depends_on : List Text

-- The packages behind the planner: text/template, encoding/json, for the schema and for a
-- `[]rawStep`, and Unicode's table of lower-case letters.
pub record PlannerLibraries : Type 0 where
  pub templates : TemplateEngine
  pub decoder : JsonDecoder
  pub decode_steps : Text → Result (List RawStep)
  pub lower : ℕ → ℕ

pub record LlmPlanner (W : Type 0) : Type 0 where
  pub client : Client W
  pub model : Text
  pub agents : List AgentDescriptor
  pub guardrails : Option (List Guardrail)

-- The identifiers in `knownAgents`.
abbrev pub known_agents : List AgentDescriptor → List Text
known_agents agents = map (λ (a : AgentDescriptor). a.id) agents

abbrev pub plan_step : RawStep → PlanStep
plan_step r = record {
  agent_id = r.agent_id;
  input = r.input;
  metadata = r.metadata;
  retry_policy = none;
  step_id = r.step_id;
  depends_on = r.depends_on;
}

-- The loop over the raw steps, from the `i`-th on.
unfoldable pub check_steps : List AgentDescriptor → ℕ → List RawStep → Result (List PlanStep)
check_steps agents i [] = ok []
check_steps agents i (r ∷ raw) =
    let rest = check_steps agents (suc i) raw in
    if text_eq r.agent_id []
    then err (txt "step " ++ (decimal i ++ txt ": missing agent_id"))
    else if not (member r.agent_id (known_agents agents))
    then err (txt "step " ++ (decimal i ++ (txt ": unknown agent_id " ++ quote r.agent_id)))
    else rest >>= λ steps. ok (plan_step r ∷ steps)

abbrev pub with_prefix : {A : Type 0} → Text → Result A → Result A
with_prefix prefix (ok a) = ok a
with_prefix prefix (err e) = err (prefix ++ e)

abbrev pub or_empty_plan : List AgentDescriptor → List RawStep → Result (List PlanStep)
or_empty_plan agents [] = err (txt "LLM returned empty plan")
or_empty_plan agents (r ∷ raw) = check_steps agents 0 (r ∷ raw)

-- `parsePlanSteps`
unfoldable pub parse_plan_steps :
    PlannerLibraries → Text → List AgentDescriptor → Result (List PlanStep)
unfolding check_steps
parse_plan_steps libs content agents =
    with_prefix (txt "parse plan JSON: ") (libs.decode_steps (extract_json content)) >>= λ raw.
    or_empty_plan agents raw

abbrev pub guard_response :
    PlannerLibraries → Option (List Guardrail) → Response → Result (Unit {0})
guard_response libs none resp = ok tt
guard_response libs (some guards) resp = elim (check_chain libs.decoder libs.lower guards resp) [
  | none ↦ ok tt
  | some e ↦ err e
]

module _ {W : Type 0} (libs : PlannerLibraries) (p : LlmPlanner W) where
  -- What is done with the model's answer.
  unfoldable pub plan_of : Text → Response → Result Plan
  unfolding parse_plan_steps
  plan_of task resp = guard_response libs p.guardrails resp >>= λ _.
      parse_plan_steps libs resp.content p.agents >>= λ steps.
      ok (record { task_id = task; steps = steps })

  -- Both prompts, or the error of the first that cannot be rendered.
  abbrev pub both_prompts : Result Message → Result Message → Result (Message × Message)
  both_prompts system user = system >>= λ s. user >>= λ u. ok (s, u)

  abbrev pub chat_request : Message × Message → Request
  chat_request prompts = record {
    model = p.model;
    messages = prompts.0 ∷ prompts.1 ∷ [];
    temperature = 0;
    max_tokens = 0;
    format = txt "json";
  }

  -- The model is asked, where the prompts could be rendered.
  unfoldable pub ask : Text → Text → Result (Message × Message) → W → Result Plan × W
  unfolding plan_of
  ask chat_error task (err e) w = (err e, w)
  ask chat_error task (ok prompts) w =
      let (answered, w') = p.client w (chat_request prompts) in
      (with_prefix chat_error answered >>= plan_of task, w')

  -- `CreatePlan`
  unfoldable pub create_plan : W → Text → Result Plan × W
  unfolding ask
  create_plan w task =
      ask (txt "llm chat: ") task
        (both_prompts
          (with_prefix (txt "render system prompt: ")
            (render libs.templates plan_system_prompt (agents_data p.agents)))
          (with_prefix (txt "render user prompt: ") (
            render libs.templates plan_user_prompt
              (plan_data (record { task_id = task; description = []; context = [] })))))
        w

  abbrev pub completed_info : CompletedStep → CompletedInfo
  completed_info c = record { step_index = c.step_index; agent_id = c.agent_id }

  abbrev pub replan_prompt_data : ReplanContext → PromptData
  replan_prompt_data r = replan_data (record {
    task_id = r.task_id;
    failed_step_index = r.failed_step_index;
    failed_agent_id = r.failed_agent_id;
    failure_error = r.failure_error;
    failure_type = type_name r.failure_type;
    attempt = r.attempt;
    max_replans = r.max_replans;
    completed_steps = map completed_info r.completed_steps;
  })

  -- `Replan`
  unfoldable pub replan_with_model : W → ReplanContext → Result Plan × W
  unfolding ask
  replan_with_model w r =
      if ltb r.max_replans r.attempt
      then (err (txt "exceeded max replans (" ++ (decimal r.max_replans ++ txt ")")), w)
      else ask (txt "llm replan chat: ") r.task_id
          (both_prompts
            (with_prefix (txt "render replan system prompt: ")
              (render libs.templates replan_system_prompt (agents_data p.agents)))
            (with_prefix (txt "render replan user prompt: ")
              (render libs.templates replan_user_prompt (replan_prompt_data r))))
          w

-- `NewLLMPlanner`, before its options.
unfoldable pub new_llm_planner : {W : Type 0} → Client W → List AgentDescriptor → LlmPlanner W
new_llm_planner client agents = record {
  client = client;
  model = txt "llama3";
  agents = agents;
  guardrails = some (empty_response_guardrail ∷ json_guardrail plan_step_schema ∷ []);
}

-- `WithModel` and `WithGuardrails`
unfoldable pub with_model : {W : Type 0} → Text → LlmPlanner W → LlmPlanner W
with_model model p = record p { model = model }

unfoldable pub with_guardrails :
    {W : Type 0} → Option (List Guardrail) → LlmPlanner W → LlmPlanner W
with_guardrails guards p = record p { guardrails = guards }
