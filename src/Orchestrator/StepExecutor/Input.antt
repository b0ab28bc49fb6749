-- ===== src/Orchestrator/StepExecutor/Input.antt =====
-- What the input that a repair modifies does to a step (orchestrator/step_executor.go): nothing,
-- since the agent is run on the step's own input.
use agent_orchestrator_go.Base.{
  ℕ, zero, suc, ◌≡◌, refl, ap, ◌∙◌, Bool, true, false, List, [], ◌∷◌, Option, Text, if◌then◌else◌,
  Result, ok, err, arith, Option-cases, Result-cases, Bool-cases, inl, inr,
}
use agent_orchestrator_go.Value.{Fields}
use agent_orchestrator_go.Failure.{FailureEvent}
use agent_orchestrator_go.Repair.{RepairAction, has_abort, RepairPlan}
use agent_orchestrator_go.Repair.Engine.{repair}
use agent_orchestrator_go.Planner.Plan.{PlanStep}
use agent_orchestrator_go.Orchestrator.StepExecutor.{
  Agent, StepEngine, StepContext, StepState, Next, finish, again, apply_actions, handle_failure,
  handle_answer, run_attempt, step_round, step_loop, validation_error, refused, count_attempt,
  note_delay, run_agent, continue_with, apply_plan, record_failed_step,
}

-- Two outcomes of a round that differ at most in the input that is passed on.
abbrev SameButInput : Next → Next → Type 0
SameButInput (finish r) (finish r') = r ≡ r'
SameButInput (finish r) (again _ _) = ⊥
SameButInput (again _ _) (finish r') = ⊥
SameButInput (again _ id) (again _ id') = id ≡ id'

SameButInput-refl : (n : Next) → SameButInput n n
SameButInput-refl (finish r) = refl
SameButInput-refl (again input id) = refl

apply_actions-input :
    (agents : Text → Option Agent) (actions : List RepairAction) (input input' : Fields) (id : Text)
    → ((apply_actions agents actions input id).retry
        ≡ (apply_actions agents actions input' id).retry)
      × ((apply_actions agents actions input id).agent_id
          ≡ (apply_actions agents actions input' id).agent_id)
unfolding apply_actions
apply_actions-input agents [] input input' id = (refl, refl)
apply_actions-input agents (a ∷ later) input input' id =
    ground (arith, apply_actions-input agents later input input' id)

abbrev SameRound : {A : Type 0} → Next × A → Next × A → Type 0
SameRound x y = SameButInput x.0 y.0 × (x.1 ≡ y.1)

choose_input :
    {S R : Type 0} (b b' : Bool) (error : Text) (x x' : Fields) (y y' : Text) (st : StepState S R)
    → b ≡ b'
    → y ≡ y'
    → SameRound
        (if b then (again x y, st) else (finish (err error), st))
        (if b' then (again x' y', st) else (finish (err error), st))
choose_input true true error x x' y y' st same agents = (agents, refl)
choose_input true false error x x' y y' st same agents = cc
choose_input false true error x x' y y' st same agents = cc
choose_input false false error x x' y y' st same agents = (refl, refl)

continue_with-same :
    {A : Type 0} (rest : Fields → Text → A → Option (Result Fields × A)) (x y : Next × A)
    → ((input input' : Fields) (id : Text) (a : A) → rest input id a ≡ rest input' id a)
    → SameRound x y
    → continue_with rest x ≡ continue_with rest y
continue_with-same rest (finish r, s) (finish r', s') ih (same, states) = cc
continue_with-same rest (finish r, s) (again _ _, s') ih (h, states) = absurd h
continue_with-same rest (again _ _, s) (finish r', s') ih (h, states) = absurd h
continue_with-same rest (again a id, s) (again b id', s') ih (same, states) =
    ih a b id s ∙ ap (λ id. rest b id s) same ∙ ap (rest b id') states

module _ {S R : Type 0} (e : StepEngine S R) (c : StepContext) (step : PlanStep) (i : ℕ) where
  apply_plan-input :
      (plan : RepairPlan) (error : Text) (n : ℕ) (input input' : Fields) (id : Text)
      (st : StepState S R)
      → SameRound
          (apply_plan e c step i plan error n input id st)
          (apply_plan e c step i plan error n input' id st)
  unfolding apply_plan
  apply_plan-input plan error n input input' id st = elim (Bool-cases (has_abort plan)) [
    | inl aborts ↦ rw (aborts, apply_plan) (refl, refl)
    | inr goes_on ↦
        let same = apply_actions-input e.agents plan.actions input input' id in
        rw (goes_on, apply_plan)
          (choose_input _ _ error _ _ _ _ (record_failed_step e c step i error n st) same.0 same.1)
  ]

  handle_failure-input :
      (event : FailureEvent) (error : Text) (n : ℕ) (input input' : Fields) (id : Text)
      (st : StepState S R)
      → SameRound
          (handle_failure e c step i event error n input id st)
          (handle_failure e c step i event error n input' id st)
  unfolding handle_failure
  handle_failure-input event error n input input' id st = elim (Option-cases e.repair_engine) [
    | inl absent ↦ rw (absent, handle_failure) (refl, refl)
    | inr (eng, present) ↦ elim (Result-cases (repair eng event)) [
      | inl (plan, planned) ↦
          rw (present, handle_failure, planned) (apply_plan-input plan error n input input' id st)
      | inr (re, failed) ↦ rw (present, handle_failure, failed) (refl, refl)
    ]
  ]

  handle_answer-input :
      (r : Result Fields) (n : ℕ) (input input' : Fields) (id : Text) (st : StepState S R)
      → SameRound
          (handle_answer e c step i r n input id st)
          (handle_answer e c step i r n input' id st)
  unfolding handle_answer
  handle_answer-input (err error) n input input' id st =
      handle_failure-input _ error n input input' id st
  handle_answer-input (ok output) n input input' id st =
      elim (Option-cases (validation_error e c step i output st.world.inner)) [
        | inl valid ↦ rw (valid, handle_answer) (refl, refl)
        | inr (error, invalid) ↦
            rw (invalid, handle_answer) (handle_failure-input _ error n input input' id st)
      ]

  run_attempt-input :
      (n : ℕ) (input input' : Fields) (id : Text) (st : StepState S R)
      → SameRound (run_attempt e c step i n input id st) (run_attempt e c step i n input' id st)
  unfolding run_attempt
  run_attempt-input n input input' id st = elim (Option-cases (e.agents id)) [
    | inl missing ↦ rw (missing, run_attempt) (SameButInput-refl _, refl)
    | inr (agent, found) ↦
        let ran = run_agent e c step i agent st.world in
        rw (found, run_attempt)
          (handle_answer-input ran.0 n input input' id (record st { world = ran.1 }))
  ]

  step_round-input :
      (input input' : Fields) (id : Text) (st : StepState S R)
      → SameRound (step_round e c step i input id st) (step_round e c step i input' id st)
  unfolding step_round
  step_round-input input input' id st =
      elim (Bool-cases (refused e c step i (suc (st.attempts i)))) [
        | inl late ↦ rw (late, step_round) (refl, refl)
        | inr early ↦
            rw (early, step_round)
              (run_attempt-input (suc (st.attempts i)) input input' id
                (note_delay e c step i (suc (st.attempts i)) (count_attempt e c step i st)))
      ]

  -- The current input, which is all that a `ModifyInput` action changes, has no effect on a step:
  -- from any two inputs the loop returns the same result and leaves the same state.
  pub step_loop-input :
      (fuel : ℕ) (input input' : Fields) (id : Text) (st : StepState S R)
      → step_loop e c step i fuel input id st ≡ step_loop e c step i fuel input' id st
  unfolding step_loop
  step_loop-input zero input input' id st = refl
  step_loop-input (suc fuel) input input' id st =
      continue_with-same (step_loop e c step i fuel) (step_round e c step i input id st)
        (step_round e c step i input' id st) (step_loop-input fuel)
        (step_round-input input input' id st)
