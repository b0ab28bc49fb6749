-- ===== src/Orchestrator/StepExecutor.antt =====
-- orchestrator/step_executor.go and orchestrator/agent_runner.go: one step with its retries.
pub mod Accepted
pub mod Bounded
pub mod Ids
pub mod Input
pub mod Recorded
mod Tests
use agent_orchestrator_go.Base.{
  ℕ, zero, suc, ◌+◌, ◌-◌, Bool, true, false, not, ◌&&◌, List, [], ◌∷◌, ◌++◌, Option, some, none,
  Text, txt, text_eq, decimal, ltb, ◌==◌, if◌then◌else◌, Result, ok, err,
}
use agent_orchestrator_go.Value.{Fields, end, overlay, is_nil_map}
use agent_orchestrator_go.Retry.Policy.{Policy, merge, should_retry, effective_max}
use agent_orchestrator_go.Tools.{Call, ToolResult, Executor, Program, run_program, Json}
use agent_orchestrator_go.Tools.Persisting.{Recorder, Persisting, persisting_execute}
use agent_orchestrator_go.Failure.{
  FailureEvent, FailureType, agent_failure, validation_failure, new_failure_event, with_attempt,
  with_output,
}
use agent_orchestrator_go.Failure.Classifier.{classify}
use agent_orchestrator_go.Repair.{
  RepairPlan, RepairAction, ActionType, retry_step, modify_input, insert_step, replace_step,
  skip_step, replan, abort, has_abort,
}
use agent_orchestrator_go.Repair.Engine.{RepairEngine, repair}
use agent_orchestrator_go.Planner.Plan.{PlanStep}

pub data AgentStepStatus : Type 0 where
  step_pending step_succeeded step_failed : AgentStepStatus

-- `agent.AgentStep` of type PLAN, less its two times.
pub record AgentStep : Type 0 where
  pub step_id : Text
  pub run_id : Text
  pub status : AgentStepStatus
  pub input : Text
  pub output : Text

-- An agent: what it does on its input. Agents reach the tools through the executor they are given, and
-- answer by themselves where they are given none.
pub record Agent : Type 0 where
  pub with_tools : Fields → Program
  pub without_tools : Fields → Result Fields

-- What the engine has at hand for a step. `validate` may read the state of the run's executor,
-- where the collector keeps its log; `steps` is what `Create` of the step repository answers, given the
-- rows that are there.
pub record StepEngine (S R : Type 0) : Type 0 where
  pub agents : Text → Option Agent
  pub tools : Option (Executor S)
  pub recorder : Recorder R
  pub validator : Option (Text → Fields → S → Option Text)
  pub steps : Option (List AgentStep → AgentStep → Option Text)
  pub repair_engine : Option RepairEngine
  pub retry_policy : Policy
  pub json : Json
  pub now : ℕ

-- What the step is run with: the run, the request's input and the variables of the run.
pub record StepContext : Type 0 where
  pub run_id : Text
  pub request_input : Fields
  pub vars : Fields

-- What an attempt changes: the executors and their worlds, the tracker of attempts, the rows of
-- the step repository, and the attempts that a delay of the policy stood before.
pub record StepState (S R : Type 0) : Type 0 where
  pub world : Persisting S R
  pub attempts : ℕ → ℕ
  pub steps : List AgentStep
  pub delayed : List ℕ

-- `tracker.incrementAttempt(i)`, less the number it returns.
abbrev pub increment_attempt : ℕ → (ℕ → ℕ) → ℕ → ℕ
increment_attempt i attempts j = if j == i then suc (attempts j) else attempts j

-- `e.agents.Get(id)`
abbrev pub agent_not_found : Text → Text
agent_not_found id = txt "agent not found: " ++ id

-- `fmt.Sprintf("%s-step-%d-attempt-%d", runID, stepIndex, attempt)`
unfoldable pub attempt_id : Text → ℕ → ℕ → Text
attempt_id run_id i attempt =
    run_id ++ (txt "-step-" ++ (decimal i ++ (txt "-attempt-" ++ decimal attempt)))

-- `fmt.Sprintf("%s-step-%d", run.RunID, stepIndex)`
unfoldable pub tool_step_id : Text → ℕ → Text
tool_step_id run_id i = run_id ++ (txt "-step-" ++ decimal i)

-- The input of `runAgent`: the variables, over them the request's input, over that the step's.
unfoldable pub effective_input : StepContext → PlanStep → Fields
effective_input c step = overlay (overlay (overlay end c.vars) c.request_input) step.input

-- `applyRepairActions`: whether to retry, and the current input and agent.
pub record Applied : Type 0 where
  pub retry : Bool
  pub input : Fields
  pub agent_id : Text

abbrev pub is_some {ℓ} : {A : Type ℓ} → Option A → Bool
is_some (some _) = true
is_some none = false

module _ (agents : Text → Option Agent) where
  abbrev pub replaces : Text → Text → Bool
  replaces new current = not (text_eq new []) && (not (text_eq new current) && is_some (agents new))

  unfoldable pub apply_actions : List RepairAction → Fields → Text → Applied
  apply_actions [] input id = record { retry = false; input = input; agent_id = id }
  apply_actions (a ∷ later) input id =
      let rest = apply_actions later input id in
      elim a.action [
        | retry_step ↦ record { retry = true; input = input; agent_id = id }
        | modify_input ↦ record {
          retry = true;
          input = if is_nil_map a.modified_input then input else a.modified_input;
          agent_id = id;
        }
        | replace_step ↦
            if replaces a.agent_id id
            then record { retry = true; input = input; agent_id = a.agent_id }
            else rest
        | replan ↦ record { retry = false; input = input; agent_id = id }
        | abort ↦ record { retry = false; input = input; agent_id = id }
        | insert_step ↦ rest
        | skip_step ↦ rest
      ]

-- After an attempt: the step is over, or the loop goes on with this input and agent.
pub data Next : Type 0 where
  finish : Result Fields → Next
  again : Fields → Text → Next

-- The end of a round: the result, or `rest` with the input and the agent to go on with.
abbrev pub continue_with :
    {A : Type 0}
    → (Fields → Text → A → Option (Result Fields × A))
    → Next × A
    → Option (Result Fields × A)
continue_with rest (finish r, a) = some (r, a)
continue_with rest (again input id, a) = rest input id a

module _ {S R : Type 0} (e : StepEngine S R) (c : StepContext) (step : PlanStep) (i : ℕ) where
  -- `resolveRetryPolicy`
  unfoldable pub effective_policy : Policy
  effective_policy = elim step.retry_policy [
    | none ↦ e.retry_policy
    | some p ↦ merge p e.retry_policy
  ]

  -- The tools of the step: the run's, with each call recorded where a recorder is set.
  unfoldable pub step_tools : Executor S → Executor (Persisting S R)
  step_tools tools w call = elim e.recorder [
    | none ↦ (let (result, s) = tools w.inner call in (result, record w { inner = s }))
    | some _ ↦ persisting_execute e.json c.run_id (tool_step_id c.run_id i) e.recorder tools w call
  ]

  -- `runAgent`
  unfoldable pub run_agent : Agent → Persisting S R → Result Fields × Persisting S R
  run_agent agent w = elim e.tools [
    | none ↦ (agent.without_tools (effective_input c step), w)
    | some tools ↦ run_program (step_tools tools) (agent.with_tools (effective_input c step)) w
  ]

  -- `_ = e.steps.Create(...)`, where there is a step repository. Where `Create` fails there is no row,
  -- and nobody learns of it.
  unfoldable pub record_step : AgentStep → StepState S R → StepState S R
  record_step s st = elim e.steps [
    | none ↦ st
    | some create ↦ elim (create st.steps s) [
      | none ↦ record st { steps = st.steps ++ s ∷ [] }
      | some _ ↦ st
    ]
  ]

  unfoldable pub record_failed_step : Text → ℕ → StepState S R → StepState S R
  record_failed_step error attempt st =
      record_step
        (record {
          step_id = attempt_id c.run_id i attempt;
          run_id = c.run_id;
          status = step_failed;
          input = txt "step-" ++ decimal i;
          output = error;
        })
        st

  unfoldable pub record_successful_step : Fields → ℕ → StepState S R → StepState S R
  record_successful_step output attempt st =
      record_step
        (record {
          step_id = attempt_id c.run_id i attempt;
          run_id = c.run_id;
          status = step_succeeded;
          input = e.json.marshal c.request_input;
          output = e.json.marshal output;
        })
        st

  abbrev pub repair_failed : Text → Text
  repair_failed error = txt "repair failed: " ++ error

  -- A repair plan put to use: the failed attempt is recorded, and the step is given up or retried.
  unfoldable pub apply_plan :
      RepairPlan → Text → ℕ → Fields → Text → StepState S R → Next × StepState S R
  unfolding record_failed_step
  apply_plan plan error attempt input id st =
      let recorded = record_failed_step error attempt st in
      let applied = apply_actions e.agents plan.actions input id in
      if has_abort plan
      then (finish (err error), recorded)
      else if applied.retry
      then (again applied.input applied.agent_id, recorded)
      else (finish (err error), recorded)

  -- What follows a failure with its event: the repair plan, and what becomes of the step.
  unfoldable pub handle_failure :
      FailureEvent → Text → ℕ → Fields → Text → StepState S R → Next × StepState S R
  handle_failure event error attempt input id st = elim e.repair_engine [
    | none ↦ (finish (err error), st)
    | some eng ↦ elim (repair eng event) [
      | err re ↦ (finish (err (repair_failed re)), st)
      | ok plan ↦ apply_plan plan error attempt input id st
    ]
  ]

  -- The event of a failure at this attempt.
  abbrev pub failure_event : Text → FailureType → Text → ℕ → FailureEvent
  failure_event id t error attempt =
      with_attempt attempt (new_failure_event e.now c.run_id i id t (some error))

  -- No agent of that name: nothing is retried.
  unfoldable pub handle_missing_agent : ℕ → Text → StepState S R → Next × StepState S R
  unfolding record_failed_step
  handle_missing_agent attempt id st =
      let error = agent_not_found id in
      elim e.repair_engine [
        | none ↦ (finish (err error), st)
        | some eng ↦ elim (repair eng (failure_event id agent_failure error attempt)) [
          | err re ↦ (finish (err (repair_failed re)), st)
          | ok plan ↦
              if has_abort plan
              then (finish (err error), st)
              else (finish (err error), record_failed_step error attempt st)
        ]
      ]

  -- `e.validator.Validate(step.AgentID, output)`
  abbrev pub validation_error : Fields → S → Option Text
  validation_error output s = elim e.validator [
    | none ↦ none
    | some validate ↦ validate step.agent_id output s
  ]

  -- The agent has answered.
  unfoldable pub handle_answer :
      Result Fields → ℕ → Fields → Text → StepState S R → Next × StepState S R
  unfolding record_successful_step
  handle_answer (err error) attempt input id st =
      handle_failure (failure_event id (classify (some error)) error attempt) error attempt input id
        st
  handle_answer (ok output) attempt input id st = elim (validation_error output st.world.inner) [
    | none ↦ (finish (ok output), record_successful_step output attempt st)
    | some error ↦
        handle_failure
          (with_attempt attempt (
            with_output output
              (new_failure_event e.now c.run_id i id validation_failure (some error))))
          error attempt input id st
  ]

  -- The agent is looked up and run.
  unfoldable pub run_attempt : ℕ → Fields → Text → StepState S R → Next × StepState S R
  run_attempt attempt input id st = elim (e.agents id) [
    | none ↦ handle_missing_agent attempt id st
    | some agent ↦
        let (answered, w) = run_agent agent st.world in
        handle_answer answered attempt input id (record st { world = w })
  ]

  -- `fmt.Errorf("step %d: max retry attempts (%d) exceeded", stepIndex, policy.MaxAttempts)`
  unfoldable pub exceeded : Text
  exceeded =
      txt "step "
      ++ (decimal i
          ++ (txt ": max retry attempts ("
              ++ (decimal effective_policy.max_attempts ++ txt ") exceeded")))

  -- `if attemptNum > 1 { delay := policy.Delay(attemptNum) ... }`: the wait is not modelled.
  abbrev pub note_delay : ℕ → StepState S R → StepState S R
  note_delay attempt st =
      if ltb 1 attempt then record st { delayed = st.delayed ++ attempt ∷ [] } else st

  -- The tracker counts the attempt.
  abbrev pub count_attempt : StepState S R → StepState S R
  count_attempt st = record st { attempts = increment_attempt i st.attempts }

  -- `attemptNum > 1 && !policy.ShouldRetry(attemptNum-1)`
  abbrev pub refused : ℕ → Bool
  refused attempt = ltb 1 attempt && not (should_retry effective_policy (attempt - 1))

  -- One round of the loop of `executeStepWithRetry`.
  unfoldable pub step_round : Fields → Text → StepState S R → Next × StepState S R
  step_round input id st =
      if refused (suc (st.attempts i))
      then (finish (err exceeded), count_attempt st)
      else run_attempt (suc (st.attempts i)) input id
          (note_delay (suc (st.attempts i)) (count_attempt st))

  -- The loop; `none` means that the fuel ran out.
  unfoldable pub step_loop :
      ℕ → Fields → Text → StepState S R → Option (Result Fields × StepState S R)
  step_loop zero input id st = none
  step_loop (suc fuel) input id st = continue_with (step_loop fuel) (step_round input id st)

  -- `executeStepWithRetry`. The policy allows that many rounds, and one more that refuses.
  unfoldable pub execute_step : StepState S R → Option (Result Fields × StepState S R)
  execute_step st =
      step_loop (suc (effective_max effective_policy)) c.request_input step.agent_id st
