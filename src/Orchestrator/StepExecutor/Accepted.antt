-- ===== src/Orchestrator/StepExecutor/Accepted.antt =====
-- What a step returns has passed the validator (orchestrator/step_executor.go).
use agent_orchestrator_go.Base.{
  ℕ, zero, suc, ◌≡◌, sym, subst, some, none, Text, Result, ok, err, arith, Option-cases, Bool-cases,
  inl, inr, some-eq,
}
use agent_orchestrator_go.Value.{Fields}
use agent_orchestrator_go.Failure.{FailureEvent}
use agent_orchestrator_go.Planner.Plan.{PlanStep}
use agent_orchestrator_go.Orchestrator.StepExecutor.{
  StepEngine, StepContext, StepState, Next, finish, again, handle_failure, apply_plan,
  handle_missing_agent, handle_answer, run_attempt, step_round, step_loop, execute_step, note_delay,
  run_agent, validation_error, refused, count_attempt, continue_with, record_step,
  record_successful_step,
}

module _ {S R : Type 0} (e : StepEngine S R) (c : StepContext) (step : PlanStep) (i : ℕ) where
  -- Where a round ends with an output, the validator has accepted it.
  abbrev Accepted : Next × StepState S R → Type 0
  Accepted (finish (ok output), st) = validation_error e c step i output st.world.inner ≡ none
  Accepted (finish (err _), st) = Unit
  Accepted (again _ _, st) = Unit

  record_successful-world :
      (output : Fields) (n : ℕ) (st : StepState S R)
      → (record_successful_step e c step i output n st).world ≡ st.world
  unfolding record_successful_step record_step
  record_successful-world output n st = ground arith

  handle_failure-Accepted :
      (event : FailureEvent) (error : Text) (n : ℕ) (input : Fields) (id : Text)
      (st : StepState S R)
      → Accepted (handle_failure e c step i event error n input id st)
  unfolding handle_failure apply_plan
  handle_failure-Accepted event error n input id st = ground arith

  handle_missing-Accepted :
      (n : ℕ) (id : Text) (st : StepState S R) → Accepted (handle_missing_agent e c step i n id st)
  unfolding handle_missing_agent
  handle_missing-Accepted n id st = ground arith

  handle_answer-Accepted :
      (r : Result Fields) (n : ℕ) (input : Fields) (id : Text) (st : StepState S R)
      → Accepted (handle_answer e c step i r n input id st)
  unfolding handle_answer
  handle_answer-Accepted (err error) n input id st = handle_failure-Accepted _ error n input id st
  handle_answer-Accepted (ok output) n input id st =
      elim (Option-cases (validation_error e c step i output st.world.inner)) [
        | inl valid ↦
            rw (valid, handle_answer)
              (subst (λ w. validation_error e c step i output w.inner ≡ none)
                (sym (record_successful-world output n st)) valid)
        | inr (error, invalid) ↦
            rw (invalid, handle_answer) (handle_failure-Accepted _ error n input id st)
      ]

  step_round-Accepted :
      (input : Fields) (id : Text) (st : StepState S R)
      → Accepted (step_round e c step i input id st)
  unfolding step_round run_attempt
  step_round-Accepted input id st = elim (Bool-cases (refused e c step i (suc (st.attempts i)))) [
    | inl late ↦ rw (late, step_round) tt
    | inr early ↦
        let n = suc (st.attempts i) in
        let noted = note_delay e c step i n (count_attempt e c step i st) in
        elim (Option-cases (e.agents id)) [
          | inl missing ↦
              rw (early, step_round, run_attempt, missing) (handle_missing-Accepted n id noted)
          | inr (agent, found) ↦
              let ran = run_agent e c step i agent noted.world in
              rw (early, step_round, run_attempt, found)
                (handle_answer-Accepted ran.0 n input id (record noted { world = ran.1 }))
        ]
  ]

  step_loop-accepted :
      (fuel : ℕ) (input : Fields) (id : Text) (st : StepState S R) (output : Fields)
      (st' : StepState S R)
      → step_loop e c step i fuel input id st ≡ some (ok output, st')
      → validation_error e c step i output st'.world.inner ≡ none
  unfolding step_loop
  step_loop-accepted zero input id st output st' h = cc
  step_loop-accepted (suc fuel) input id st output st' h =
      after_round (step_round e c step i input id st) (step_round-Accepted input id st)
        (step_loop-accepted fuel) h
    where
      after_round :
          (round : Next × StepState S R)
          → Accepted round
          → ((input : Fields) (id : Text) (st : StepState S R) (output : Fields)
                (st' : StepState S R)
              → step_loop e c step i fuel input id st ≡ some (ok output, st')
              → validation_error e c step i output st'.world.inner ≡ none)
          → continue_with (step_loop e c step i fuel) round ≡ some (ok output, st')
          → validation_error e c step i output st'.world.inner ≡ none
      after_round (finish (err x), t) r ih h = cc
      after_round (finish (ok found), t) r ih h =
          subst (λ (q : Result Fields × StepState S R). Accepted (finish q.0, q.1)) (some-eq h) r
      after_round (again a b, t) r ih h = ih a b t output st' h

  -- The output of a step that succeeds has been accepted by the validator.
  pub execute_step-accepted :
      (st : StepState S R) (output : Fields) (st' : StepState S R)
      → execute_step e c step i st ≡ some (ok output, st')
      → validation_error e c step i output st'.world.inner ≡ none
  unfolding execute_step
  execute_step-accepted st output st' h =
      step_loop-accepted _ c.request_input step.agent_id st output st' h
