-- ===== src/Orchestrator/StepExecutor/Bounded.antt =====
-- The loop of `executeStepWithRetry` (orchestrator/step_executor.go) ends: the policy bounds it.
use agent_orchestrator_go.Base.{
  ℕ, zero, suc, ◌+◌, ◌≤◌, ◌<◌, ◌≡◌, refl, ap, ◌∙◌, ◌⊎◌, inl, inr, some, Text, Result, ok, err,
  arith, Option-cases, Bool-cases,
}
use agent_orchestrator_go.Value.{Fields}
use agent_orchestrator_go.Retry.Policy.{should_retry, effective_max}
use agent_orchestrator_go.Failure.{FailureEvent}
use agent_orchestrator_go.Planner.Plan.{PlanStep}
use agent_orchestrator_go.Orchestrator.StepExecutor.{
  StepEngine, StepContext, StepState, Next, finish, again, handle_failure, apply_plan,
  handle_missing_agent, handle_answer, run_attempt, step_round, step_loop, execute_step,
  effective_policy, note_delay, run_agent, validation_error, refused, count_attempt, record_step,
  record_failed_step, record_successful_step, agent_not_found,
}

finish_ne_again : {r : Result Fields} {input : Fields} {id : Text} → finish r ≡ again input id → ⊥
finish_ne_again h = cc

pub Next-cases :
    (n : Next)
    → ((r : Result Fields) × (n ≡ finish r))
      ⊎ ((input : Fields) × (id : Text) × (n ≡ again input id))
Next-cases (finish r) = inl (r, refl)
Next-cases (again input id) = inr (input, id, refl)

module _ {S R : Type 0} (e : StepEngine S R) (c : StepContext) (step : PlanStep) (i : ℕ) where
  record_failed-attempts :
      (error : Text) (n : ℕ) (st : StepState S R)
      → (record_failed_step e c step i error n st).attempts ≡ st.attempts
  unfolding record_failed_step record_step
  record_failed-attempts error n st = ground arith

  record_successful-attempts :
      (output : Fields) (n : ℕ) (st : StepState S R)
      → (record_successful_step e c step i output n st).attempts ≡ st.attempts
  unfolding record_successful_step record_step
  record_successful-attempts output n st = ground arith

  handle_failure-attempts :
      (event : FailureEvent) (error : Text) (n : ℕ) (input : Fields) (id : Text)
      (st : StepState S R)
      → (handle_failure e c step i event error n input id st).1.attempts ≡ st.attempts
  unfolding handle_failure apply_plan
  handle_failure-attempts event error n input id st =
      ground (arith, record_failed-attempts error n st)

  handle_missing-attempts :
      (n : ℕ) (id : Text) (st : StepState S R)
      → (handle_missing_agent e c step i n id st).1.attempts ≡ st.attempts
  unfolding handle_missing_agent
  handle_missing-attempts n id st = ground (arith, record_failed-attempts (agent_not_found id) n st)

  handle_answer-attempts :
      (r : Result Fields) (n : ℕ) (input : Fields) (id : Text) (st : StepState S R)
      → (handle_answer e c step i r n input id st).1.attempts ≡ st.attempts
  unfolding handle_answer
  handle_answer-attempts (err error) n input id st = handle_failure-attempts _ error n input id st
  handle_answer-attempts (ok output) n input id st =
      elim (Option-cases (validation_error e c step i output st.world.inner)) [
        | inl valid ↦ rw (valid, handle_answer) (record_successful-attempts output n st)
        | inr (error, invalid) ↦
            rw (invalid, handle_answer) (handle_failure-attempts _ error n input id st)
      ]

  run_attempt-attempts :
      (n : ℕ) (input : Fields) (id : Text) (st : StepState S R)
      → (run_attempt e c step i n input id st).1.attempts ≡ st.attempts
  unfolding run_attempt
  run_attempt-attempts n input id st = elim (Option-cases (e.agents id)) [
    | inl missing ↦ rw (missing, run_attempt) (handle_missing-attempts n id st)
    | inr (agent, found) ↦
        let ran = run_agent e c step i agent st.world in
        rw (found, run_attempt)
          (handle_answer-attempts ran.0 n input id (record st { world = ran.1 }))
  ]

  note_delay-attempts :
      (n : ℕ) (st : StepState S R) → (note_delay e c step i n st).attempts ≡ st.attempts
  note_delay-attempts n st = ground arith

  abbrev limit : ℕ
  limit = effective_max (effective_policy e c step i)

  pub step_round-attempts :
      (input : Fields) (id : Text) (st : StepState S R)
      → (step_round e c step i input id st).1.attempts i ≡ suc (st.attempts i)
  unfolding step_round
  step_round-attempts input id st =
      let n = suc (st.attempts i) in
      let counted = count_attempt e c step i st in
      elim (Bool-cases (refused e c step i n)) [
        | inl late ↦ rw (late, step_round) (ground arith)
        | inr early ↦
            rw (early, step_round)
              (ap (λ (f : ℕ → ℕ). f i)
                  (run_attempt-attempts n input id (note_delay e c step i n counted)
                    ∙ note_delay-attempts n counted)
                ∙ ground arith)
      ]

  -- A round that is to be followed by another was allowed by the policy.
  step_round-again :
      (input : Fields) (id : Text) (st : StepState S R) {input' : Fields} {id' : Text}
      → (step_round e c step i input id st).0 ≡ again input' id'
      → (st.attempts i ≡ 0) ⊎ (st.attempts i < limit)
  unfolding step_round should_retry
  step_round-again input id st h = elim (Bool-cases (refused e c step i (suc (st.attempts i)))) [
    | inl late ↦ absurd (finish_ne_again (rw (late, step_round) at h))
    | inr early ↦ ground (arith, early)
  ]

  limit_positive : 0 < limit
  limit_positive = ground arith

  -- With as much fuel as the policy has attempts left, and one more, the loop returns.
  pub step_loop_total :
      (fuel : ℕ) (input : Fields) (id : Text) (st : StepState S R)
      → limit < fuel + st.attempts i
      → 0 < fuel
      → (r : Result Fields) × (st' : StepState S R) × (step_loop e c step i fuel input id st
          ≡ some (r, st'))
        × (st.attempts i < st'.attempts i)
        × ((st'.attempts i ≤ suc (st.attempts i)) ⊎ (st'.attempts i ≤ suc limit))
  unfolding step_loop
  step_loop_total zero input id st enough positive = absurd (omega arith)
  step_loop_total (suc fuel) input id st enough positive =
      let counted = step_round-attempts input id st in
      elim (Next-cases (step_round e c step i input id st).0) [
        | inl (r, over) ↦ (
          r,
          (step_round e c step i input id st).1,
          rw (over, step_loop) refl,
          omega (arith, counted),
          inl (omega (arith, counted)),
        )
        | inr (input', id', on) ↦
            let allowed = step_round-again input id st on in
            let (r, st', ends, more, few) =
              step_loop_total fuel input' id' (step_round e c step i input id st).1
                (omega (arith, counted)) (omega (arith, allowed, limit_positive)) in
            (
              r,
              st',
              rw (on, step_loop) ends,
              omega (arith, counted, more),
              ground (arith, counted, allowed, few, limit_positive),
            )
      ]

  -- A step whose attempts are not counted yet always returns, after at least one and at most as
  -- many attempts as its policy allows, and one more that the policy refuses.
  pub execute_step_total :
      (st : StepState S R)
      → st.attempts i ≡ 0
      → (r : Result Fields) × (st' : StepState S R) × (execute_step e c step i st ≡ some (r, st'))
        × (0 < st'.attempts i)
        × (st'.attempts i ≤ suc (effective_max (effective_policy e c step i)))
  unfolding execute_step
  execute_step_total st fresh =
      let (r, st', ends, more, few) =
        step_loop_total (suc limit) c.request_input step.agent_id st (omega arith) (omega arith) in
      (r, st', ends, omega arith, omega (arith, few, limit_positive))
