-- ===== src/Llm/Prompt.antt =====
-- llm/prompt.go: prompts, rendered by package text/template.
use agent_orchestrator_go.Base.{ℕ, List, [], ◌∷◌, ◌++◌, Text, txt, Result, ok, err}
use agent_orchestrator_go.Llm.{Message}

pub record PromptTemplate : Type 0 where
  pub name : Text
  pub role : Text
  pub template_text : Text

-- What the program renders: the available agents, a task, or a failure.
pub record AgentDescriptor : Type 0 where
  pub id : Text
  pub description : Text

pub record CompletedInfo : Type 0 where
  pub step_index : ℕ
  pub agent_id : Text

pub record PlanRequest : Type 0 where
  pub task_id : Text
  pub description : Text
  pub context : Text

pub record ReplanRequest : Type 0 where
  pub task_id : Text
  pub failed_step_index : ℕ
  pub failed_agent_id : Text
  pub failure_error : Text
  pub failure_type : Text
  pub attempt : ℕ
  pub max_replans : ℕ
  pub completed_steps : List CompletedInfo

pub data PromptData : Type 0 where
  agents_data : List AgentDescriptor → PromptData
  plan_data : PlanRequest → PromptData
  replan_data : ReplanRequest → PromptData

-- `Template.Execute` of package text/template.
abbrev pub TemplateEngine : Type 0
TemplateEngine = Text → PromptData → Result Text

-- `PromptTemplate.Render`
unfoldable pub render : TemplateEngine → PromptTemplate → PromptData → Result Message
render execute p d = elim (execute p.template_text d) [
  | err e ↦ err (txt "render template " ++ (p.name ++ (txt ": " ++ e)))
  | ok rendered ↦ ok (record { role = p.role; content = rendered })
]

abbrev pub concat : List Text → Text
concat [] = []
concat (t ∷ ts) = t ++ concat ts

unfoldable pub plan_system_prompt_text : Text
plan_system_prompt_text = concat (
    txt "You are a task planner for an agent orchestration system.\n"
    ∷ txt "Given a task description and a list of available agents, produce an execution pl"
    ∷ txt "an as a JSON array.\n"
    ∷ txt "\n"
    ∷ txt "Available agents:\n"
    ∷ txt "{{- range .Agents }}\n"
    ∷ txt "- {{ .ID }}: {{ .Description }}\n"
    ∷ txt "{{- end }}\n"
    ∷ txt "\n"
    ∷ txt "Rules:\n"
    ∷ txt "1. Return ONLY a JSON array of step objects.\n"
    ∷ txt "2. Each step object MUST have an \"agent_id\" field (string) matching one of the"
    ∷ txt " available agents above.\n"
    ∷ txt "3. Each step MAY have an \"input\" field (object) with key-value pairs the agent"
    ∷ txt " needs.\n"
    ∷ txt "4. Each step MAY have a \"metadata\" field (object) for extra context.\n"
    ∷ txt "5. Each step MAY have a \"step_id\" field (string) — a unique short identifier f"
    ∷ txt "or the step.\n"
    ∷ txt "6. Each step MAY have a \"depends_on\" field (array of step_id strings) listing "
    ∷ txt "steps that must complete first.\n"
    ∷ txt "7. Steps without \"depends_on\" (or with an empty array) can run in parallel.\n"
    ∷ txt "8. If you use \"depends_on\" on any step, ALL steps must have a \"step_id\".\n"
    ∷ txt "9. Do NOT include explanation text — return raw JSON only.\n"
    ∷ txt "\n"
    ∷ txt "Example output (sequential):\n"
    ∷ txt "[\n"
    ∷ txt "  {\"agent_id\": \"agent.read_file\", \"input\": {\"path\": \"/var/log/app.log\""
    ∷ txt "}},\n"
    ∷ txt "  {\"agent_id\": \"agent.summarize\", \"input\": {\"focus\": \"errors\"}}\n"
    ∷ txt "]\n"
    ∷ txt "\n"
    ∷ txt "Example output (parallel DAG):\n"
    ∷ txt "[\n"
    ∷ txt "  {\"step_id\": \"s1\", \"agent_id\": \"agent.fetch_logs\", \"input\": {\"source"
    ∷ txt "\": \"app\"}},\n"
    ∷ txt "  {\"step_id\": \"s2\", \"agent_id\": \"agent.fetch_metrics\", \"input\": {\"sou"
    ∷ txt "rce\": \"app\"}},\n"
    ∷ txt "  {\"step_id\": \"s3\", \"agent_id\": \"agent.analyze\", \"depends_on\": [\"s1\""
    ∷ txt ", \"s2\"]}\n"
    ∷ txt "]"
    ∷ [])

unfoldable pub plan_system_prompt : PromptTemplate
plan_system_prompt = record {
  name = txt "plan_system";
  role = txt "system";
  template_text = plan_system_prompt_text;
}

unfoldable pub plan_user_prompt_text : Text
plan_user_prompt_text = concat (
    txt "Task: {{ .TaskID }}\n"
    ∷ txt "{{ if .Description }}Description: {{ .Description }}{{ end }}\n"
    ∷ txt "{{ if .Context }}Additional context: {{ .Context }}{{ end }}"
    ∷ [])

unfoldable pub plan_user_prompt : PromptTemplate
plan_user_prompt = record {
  name = txt "plan_user";
  role = txt "user";
  template_text = plan_user_prompt_text;
}

unfoldable pub replan_system_prompt_text : Text
replan_system_prompt_text = concat (
    txt "You are a task replanner for an agent orchestration system.\n"
    ∷ txt "A previous execution plan failed. Analyze the failure and produce a NEW plan (JS"
    ∷ txt "ON array) for the remaining work.\n"
    ∷ txt "\n"
    ∷ txt "Available agents:\n"
    ∷ txt "{{- range .Agents }}\n"
    ∷ txt "- {{ .ID }}: {{ .Description }}\n"
    ∷ txt "{{- end }}\n"
    ∷ txt "\n"
    ∷ txt "Rules:\n"
    ∷ txt "1. Return ONLY a JSON array of step objects.\n"
    ∷ txt "2. Each step MUST have \"agent_id\" matching an available agent.\n"
    ∷ txt "3. Steps MAY have \"input\" and \"metadata\" fields.\n"
    ∷ txt "4. Do NOT repeat steps that already completed successfully.\n"
    ∷ txt "5. Address the failure if possible (e.g. use a different agent or approach).\n"
    ∷ txt "6. Return raw JSON only — no explanation text."
    ∷ [])

unfoldable pub replan_system_prompt : PromptTemplate
replan_system_prompt = record {
  name = txt "replan_system";
  role = txt "system";
  template_text = replan_system_prompt_text;
}

unfoldable pub replan_user_prompt_text : Text
replan_user_prompt_text = concat (
    txt "Task: {{ .TaskID }}\n"
    ∷ txt "Failure at step {{ .FailedStepIndex }} (agent: {{ .FailedAgentID }}): {{ .Failur"
    ∷ txt "eError }}\n"
    ∷ txt "Failure type: {{ .FailureType }}\n"
    ∷ txt "Replan attempt: {{ .Attempt }}/{{ .MaxReplans }}\n"
    ∷ txt "\n"
    ∷ txt "Completed steps so far:\n"
    ∷ txt "{{- range .CompletedSteps }}\n"
    ∷ txt "- Step {{ .StepIndex }} ({{ .AgentID }}): succeeded\n"
    ∷ txt "{{- end }}\n"
    ∷ txt "{{ if not .CompletedSteps }}- (none){{ end }}"
    ∷ [])

unfoldable pub replan_user_prompt : PromptTemplate
replan_user_prompt = record {
  name = txt "replan_user";
  role = txt "user";
  template_text = replan_user_prompt_text;
}
