-- ===== src/Orchestrator/StepExecutor/Recorded.antt =====
-- What a step leaves in the step repository (orchestrator/step_executor.go).
use mathlib.Core.List.{append_assoc}
use agent_orchestrator_go.Base.{
  ℕ, zero, suc, ◌<◌, ◌≡◌, ◌≢◌, Option, none, All-append, refl, ap, ◌∙◌, sym, List, [], ◌∷◌, ◌++◌,
  some, none, Text, Result, ok, err, arith, Option-cases, Result-cases, Bool-cases, inl, inr, All,
  subst, some-eq, txt, decimal,
}
use agent_orchestrator_go.Value.{Fields}
use agent_orchestrator_go.Failure.{FailureEvent, agent_failure}
use agent_orchestrator_go.Repair.{RepairPlan, has_abort}
use agent_orchestrator_go.Repair.Engine.{repair}
use agent_orchestrator_go.Planner.Plan.{PlanStep}
use agent_orchestrator_go.Orchestrator.StepExecutor.Accepted.{execute_step-accepted}
use agent_orchestrator_go.Orchestrator.StepExecutor.Ids.{attempt_id-injective}
use agent_orchestrator_go.Orchestrator.StepExecutor.{
  AgentStep, step_failed, step_succeeded, StepEngine, StepContext, StepState, Next, finish, again,
  handle_failure, handle_missing_agent, handle_answer, run_attempt, step_round, step_loop,
  execute_step, validation_error, refused, count_attempt, note_delay, run_agent, record_step,
  record_failed_step, record_successful_step, apply_plan, attempt_id, continue_with, apply_actions,
  failure_event, agent_not_found,
}
use agent_orchestrator_go.Orchestrator.StepExecutor.Bounded.{step_round-attempts}

-- A step repository whose `Create` refuses a row only where there is one of that id already.
abbrev pub TakesNewIds : (List AgentStep → AgentStep → Option Text) → Type 0
TakesNewIds create =
    (rows : List AgentStep) (s : AgentStep)
    → All (λ (r : AgentStep). r.step_id ≢ s.step_id) rows
    → create rows s ≡ none

module _ {S R : Type 0} (e : StepEngine S R) (c : StepContext) (step : PlanStep) (i : ℕ)
    (create : List AgentStep → AgentStep → Option Text) (kept : e.steps ≡ some create)
    (takes : TakesNewIds create) where
  -- No row has the id of attempt n at the step.
  abbrev pub IsFree : ℕ → List AgentStep → Type 0
  IsFree n rows = All (λ (r : AgentStep). r.step_id ≢ attempt_id c.run_id i n) rows

  -- No row has the id of an attempt at the step after attempt n.
  abbrev pub IsFreeAfter : ℕ → List AgentStep → Type 0
  IsFreeAfter n rows = (m : ℕ) → n < m → IsFree m rows

  record_step-new :
      (s : AgentStep) (st : StepState S R)
      → All (λ (r : AgentStep). r.step_id ≢ s.step_id) st.steps
      → (record_step e c step i s st).steps ≡ st.steps ++ s ∷ []
  unfolding record_step
  record_step-new s st free = rw (kept, record_step, takes st.steps s free) refl

  abbrev pub success_record : Fields → ℕ → AgentStep
  success_record output attempt = record {
    step_id = attempt_id c.run_id i attempt;
    run_id = c.run_id;
    status = step_succeeded;
    input = e.json.marshal c.request_input;
    output = e.json.marshal output;
  }

  abbrev failure_record : Text → ℕ → AgentStep
  failure_record error attempt = record {
    step_id = attempt_id c.run_id i attempt;
    run_id = c.run_id;
    status = step_failed;
    input = txt "step-" ++ decimal i;
    output = error;
  }

  -- What a round has added to the repository, by its outcome.
  abbrev RoundRecords : ℕ → List AgentStep → Next × StepState S R → Type 0
  RoundRecords n before (finish (ok output), st) = st.steps ≡ before ++ success_record output n ∷ []
  RoundRecords n before (finish (err _), st) = Unit
  RoundRecords n before (again _ _, st) =
      (s : AgentStep) × (s.status ≡ step_failed)
      × (s.step_id ≡ attempt_id c.run_id i n)
      × (st.steps ≡ before ++ s ∷ [])

  apply_plan-records :
      (plan : RepairPlan) (error : Text) (n : ℕ) (input : Fields) (id : Text) (st : StepState S R)
      → IsFree n st.steps
      → RoundRecords n st.steps (apply_plan e c step i plan error n input id st)
  unfolding apply_plan record_failed_step
  apply_plan-records plan error n input id st free = elim (Bool-cases (has_abort plan)) [
    | inl aborts ↦ rw (aborts, apply_plan) tt
    | inr goes_on ↦ elim (Bool-cases (apply_actions e.agents plan.actions input id).retry) [
      | inl retries ↦
          rw (goes_on, apply_plan, retries)
            (failure_record error n, refl, refl, record_step-new (failure_record error n) st free)
      | inr gives_up ↦ rw (goes_on, apply_plan, gives_up) tt
    ]
  ]

  handle_failure-records :
      (event : FailureEvent) (error : Text) (n : ℕ) (input : Fields) (id : Text)
      (st : StepState S R)
      → IsFree n st.steps
      → RoundRecords n st.steps (handle_failure e c step i event error n input id st)
  unfolding handle_failure
  handle_failure-records event error n input id st free = elim (Option-cases e.repair_engine) [
    | inl absent ↦ rw (absent, handle_failure) tt
    | inr (eng, present) ↦ elim (Result-cases (repair eng event)) [
      | inl (plan, planned) ↦
          rw (present, handle_failure, planned) (apply_plan-records plan error n input id st free)
      | inr (re, failed) ↦ rw (present, handle_failure, failed) tt
    ]
  ]

  handle_answer-records :
      (r : Result Fields) (n : ℕ) (input : Fields) (id : Text) (st : StepState S R)
      → IsFree n st.steps
      → RoundRecords n st.steps (handle_answer e c step i r n input id st)
  unfolding handle_answer record_successful_step
  handle_answer-records (err error) n input id st free =
      handle_failure-records _ error n input id st free
  handle_answer-records (ok output) n input id st free =
      elim (Option-cases (validation_error e c step i output st.world.inner)) [
        | inl valid ↦ rw (valid, handle_answer) (record_step-new (success_record output n) st free)
        | inr (error, invalid) ↦
            rw (invalid, handle_answer) (handle_failure-records _ error n input id st free)
      ]

  abbrev missing_event : ℕ → Text → FailureEvent
  missing_event n id = failure_event e c step i id agent_failure (agent_not_found id) n

  handle_missing-records :
      (n : ℕ) (id : Text) (st : StepState S R)
      → RoundRecords n st.steps (handle_missing_agent e c step i n id st)
  unfolding handle_missing_agent
  handle_missing-records n id st = elim (Option-cases e.repair_engine) [
    | inl absent ↦ rw (absent, handle_missing_agent) tt
    | inr (eng, present) ↦ elim (Result-cases (repair eng (missing_event n id))) [
      | inl (plan, planned) ↦ elim (Bool-cases (has_abort plan)) [
        | inl aborts ↦ rw (present, handle_missing_agent, planned, aborts) tt
        | inr goes_on ↦ rw (present, handle_missing_agent, planned, goes_on) tt
      ]
      | inr (re, failed) ↦ rw (present, handle_missing_agent, failed) tt
    ]
  ]

  run_attempt-records :
      (n : ℕ) (input : Fields) (id : Text) (st : StepState S R)
      → IsFree n st.steps
      → RoundRecords n st.steps (run_attempt e c step i n input id st)
  unfolding run_attempt
  run_attempt-records n input id st free = elim (Option-cases (e.agents id)) [
    | inl missing ↦ rw (missing, run_attempt) (handle_missing-records n id st)
    | inr (agent, found) ↦
        let ran = run_agent e c step i agent st.world in
        rw (found, run_attempt)
          (handle_answer-records ran.0 n input id (record st { world = ran.1 }) free)
  ]

  note_delay-steps : (n : ℕ) (st : StepState S R) → (note_delay e c step i n st).steps ≡ st.steps
  note_delay-steps n st = ground arith

  step_round-records :
      (input : Fields) (id : Text) (st : StepState S R)
      → IsFree (suc (st.attempts i)) st.steps
      → RoundRecords (suc (st.attempts i)) st.steps (step_round e c step i input id st)
  unfolding step_round
  step_round-records input id st free =
      elim (Bool-cases (refused e c step i (suc (st.attempts i)))) [
        | inl late ↦ rw (late, step_round) tt
        | inr early ↦
            let n = suc (st.attempts i) in
            let noted = note_delay e c step i n (count_attempt e c step i st) in
            rw (early, step_round)
              (subst (λ before. RoundRecords n before (run_attempt e c step i n input id noted))
                (note_delay-steps n (count_attempt e c step i st))
                (run_attempt-records n input id noted
                  (subst (IsFree n) (sym (note_delay-steps n (count_attempt e c step i st))) free)))
      ]

  -- The records of a step that has succeeded with `output` in the state `st'`.
  pub record SuccessRecords (before : List AgentStep) (output : Fields) (st' : StepState S R)
      : Type 0 where
    pub failures : List AgentStep
    pub all_failed : All (λ s. s.status ≡ step_failed) failures
    pub in_order : st'.steps ≡ before ++ (failures ++ success_record output (st'.attempts i) ∷ [])

  SuccessRecords-cons :
      (before : List AgentStep) (output : Fields) (st' : StepState S R) (s : AgentStep)
      (after : List AgentStep)
      → s.status ≡ step_failed
      → after ≡ before ++ s ∷ []
      → SuccessRecords after output st'
      → SuccessRecords before output st'
  SuccessRecords-cons before output st' s after failed grown r = record {
    failures = s ∷ r.failures;
    all_failed = (failed, r.all_failed);
    in_order =
        r.in_order
        ∙ ap (λ l. l ++ (r.failures ++ success_record output (st'.attempts i) ∷ [])) grown
        ∙ append_assoc before (s ∷ []) _;
  }

  IsFreeAfter-grown :
      (n : ℕ) (before : List AgentStep) (s : AgentStep) (after : List AgentStep) (n' : ℕ)
      → s.step_id ≡ attempt_id c.run_id i (suc n)
      → after ≡ before ++ s ∷ []
      → n' ≡ suc n
      → IsFreeAfter n before
      → IsFreeAfter n' after
  IsFreeAfter-grown n before s after n' named grown counted free m later =
      subst (IsFree m) (sym grown) (
        All-append (λ (r : AgentStep). r.step_id ≢ attempt_id c.run_id i m) before (s ∷ [])
          (free m (omega (arith, later, counted)))
          (
            (λ same. absurd (
                omega (
                  arith,
                  later,
                  counted,
                  attempt_id-injective c.run_id i (suc n) m (sym named ∙ same),
                ))),
            tt,
          ))

  step_loop-records :
      (fuel : ℕ) (input : Fields) (id : Text) (st : StepState S R) (output : Fields)
      (st' : StepState S R)
      → step_loop e c step i fuel input id st ≡ some (ok output, st')
      → IsFreeAfter (st.attempts i) st.steps
      → SuccessRecords st.steps output st'
  unfolding step_loop
  step_loop-records zero input id st output st' h free = cc
  step_loop-records (suc fuel) input id st output st' h free =
      after_round (step_round e c step i input id st)
        (step_round-records input id st (free (suc (st.attempts i)) (omega arith)))
        (step_round-attempts e c step i input id st) (step_loop-records fuel) h
    where
      after_round :
          (round : Next × StepState S R)
          → RoundRecords (suc (st.attempts i)) st.steps round
          → round.1.attempts i ≡ suc (st.attempts i)
          → ((input : Fields) (id : Text) (st : StepState S R) (output : Fields)
                (st' : StepState S R)
              → step_loop e c step i fuel input id st ≡ some (ok output, st')
              → IsFreeAfter (st.attempts i) st.steps
              → SuccessRecords st.steps output st')
          → continue_with (step_loop e c step i fuel) round ≡ some (ok output, st')
          → SuccessRecords st.steps output st'
      after_round (finish (err x), t) r counted ih h = cc
      after_round (finish (ok found), t) r counted ih h =
          let (kept_records, numbered) =
            subst
              (λ (q : Result Fields × StepState S R).
                RoundRecords (suc (st.attempts i)) st.steps (finish q.0, q.1)
                × (q.1.attempts i ≡ suc (st.attempts i)))
              (some-eq h) (r, counted) in
          record {
            failures = [];
            all_failed = tt;
            in_order =
                kept_records ∙ ap (λ n. st.steps ++ success_record output n ∷ []) (sym numbered);
          }
      after_round (again a b, t) (s, failed, named, grown) counted ih h =
          SuccessRecords-cons st.steps output st' s t.steps failed grown (
            ih a b t output st' h (
              IsFreeAfter-grown (st.attempts i) st.steps s t.steps (t.attempts i) named grown
                counted free))

  -- With a step repository that refuses a row only where its id is taken, a step at which no further attempt
  -- has its id taken, and that succeeds, leaves in it, after what was there, only failed attempts and then one
  -- success, which bears the number of the last attempt and the output that the step returns; and the
  -- validator has accepted that output.
  pub execute_step-records :
      (st : StepState S R) (output : Fields) (st' : StepState S R)
      → IsFreeAfter (st.attempts i) st.steps
      → execute_step e c step i st ≡ some (ok output, st')
      → SuccessRecords st.steps output st'
        × (validation_error e c step i output st'.world.inner ≡ none)
  unfolding execute_step
  execute_step-records st output st' free h = (
    step_loop-records _ c.request_input step.agent_id st output st' h free,
    execute_step-accepted e c step i st output st' h,
  )
