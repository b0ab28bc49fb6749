-- ===== src/Orchestrator/Grounding/Wiring.antt =====
-- How `Execute` (orchestrator/engine.go) gives the collector of the run to the grounding validator.
use agent_orchestrator_go.Base.{
  ℕ, Bool, true, false, ◌||◌, ◌≡◌, Option, none, some, Text, ok, if◌then◌else◌, All,
}
use agent_orchestrator_go.Value.{Fields}
use agent_orchestrator_go.Planner.Plan.{PlanStep}
use agent_orchestrator_go.Tools.{Executor}
use agent_orchestrator_go.Tools.Collector.{Collecting, collector_execute}
use agent_orchestrator_go.Orchestrator.Validators.{or_next}
use agent_orchestrator_go.Orchestrator.Validators.Complete.{or_next_none}
use agent_orchestrator_go.Orchestrator.StepExecutor.{
  StepEngine, StepContext, StepState, execute_step, validation_error,
}
use agent_orchestrator_go.Orchestrator.StepExecutor.Accepted.{execute_step-accepted}
use agent_orchestrator_go.Orchestrator.Grounding.{extract_evidence_items, validate_grounding}
use agent_orchestrator_go.Orchestrator.Grounding.Sound.{IsGrounded, validate_grounding_iff}

-- A validator as `groundingValidator` sees it: a grounding validator, with or without a collector, a
-- composite one, or another.
mutual
  pub data Checker (W : Type 0) : Type 0 where
    grounding : (wired : Bool) → Checker W
    composite : Checkers W → Checker W
    plain : (Text → Fields → Collecting W → Option Text) → Checker W

  pub data Checkers (W : Type 0) : Type 0 where
    no_checker : Checkers W
    checker : Checker W → Checkers W → Checkers W

module _ {W : Type 0} where
  -- `_, ok := v.(*GroundingValidator)`
  abbrev pub is_grounding : Checker W → Bool
  is_grounding (grounding _) = true
  is_grounding (composite _) = false
  is_grounding (plain _) = false

  abbrev pub any_grounding : Checkers W → Bool
  any_grounding no_checker = false
  any_grounding (checker c cs) = is_grounding c || any_grounding cs

  -- Whether `groundingValidator` finds one. Composites inside a composite are not searched.
  unfoldable pub grounding_validator : Checker W → Bool
  grounding_validator (grounding _) = true
  grounding_validator (composite cs) = any_grounding cs
  grounding_validator (plain _) = false

  -- `SetCollector` on the first of them.
  abbrev pub wire_first : Checkers W → Checkers W
  wire_first no_checker = no_checker
  wire_first (checker (grounding _) cs) = checker (grounding true) cs
  wire_first (checker (composite ds) cs) = checker (composite ds) (wire_first cs)
  wire_first (checker (plain v) cs) = checker (plain v) (wire_first cs)

  unfoldable pub set_collector : Checker W → Checker W
  set_collector (grounding _) = grounding true
  set_collector (composite cs) = composite (wire_first cs)
  set_collector (plain v) = plain v

-- `Validate`, by dynamic dispatch, at the state of the run's collector.
unfoldable mutual
  pub check : {W : Type 0} → (ℕ → Text) → Checker W → Text → Fields → Collecting W → Option Text
  check show_float (grounding wired) id output c =
      validate_grounding show_float (if wired then some c.outputs else none) id output
  check show_float (composite cs) id output c = check_each show_float cs id output c
  check show_float (plain v) id output c = v id output c

  pub check_each :
      {W : Type 0} → (ℕ → Text) → Checkers W → Text → Fields → Collecting W → Option Text
  check_each show_float no_checker id output c = none
  check_each show_float (checker v cs) id output c =
      or_next (check show_float v id output c) (check_each show_float cs id output c)

-- The engine as `Execute` runs its steps: the tools behind a collector, which the validator knows. An
-- engine without tools stays without, and its validator is not told of a collector.
unfoldable pub collecting_engine :
    {W R : Type 0} → (ℕ → Text) → Checker W → StepEngine W R → StepEngine (Collecting W) R
collecting_engine show_float v e = record {
  agents = e.agents;
  tools = elim e.tools [ none ↦ none | some tools ↦ some (collector_execute tools) ];
  recorder = e.recorder;
  validator = elim e.tools [
    | none ↦ some (check show_float v)
    | some _ ↦ some (check show_float (set_collector v))
  ];
  steps = e.steps;
  repair_engine = e.repair_engine;
  retry_policy = e.retry_policy;
  json = e.json;
  now = e.now;
}

module _ {W : Type 0} (show_float : ℕ → Text) (id : Text) (output : Fields) (c : Collecting W) where
  wire_first-accepts :
      (cs : Checkers W)
      → any_grounding cs ≡ true
      → check_each show_float (wire_first cs) id output c ≡ none
      → validate_grounding show_float (some c.outputs) id output ≡ none
  unfolding check_each
  wire_first-accepts no_checker found h = cc
  wire_first-accepts (checker (grounding wired) cs) found h = (or_next_none _ _ h).0
  wire_first-accepts (checker (composite ds) cs) found h =
      wire_first-accepts cs found (or_next_none _ _ h).1
  wire_first-accepts (checker (plain v) cs) found h =
      wire_first-accepts cs found (or_next_none _ _ h).1

  set_collector-accepts :
      (v : Checker W)
      → grounding_validator v ≡ true
      → check show_float (set_collector v) id output c ≡ none
      → validate_grounding show_float (some c.outputs) id output ≡ none
  unfolding check set_collector grounding_validator
  set_collector-accepts (grounding wired) found h = h
  set_collector-accepts (composite cs) found h = wire_first-accepts cs found h
  set_collector-accepts (plain v) found h = cc

module _ {W R : Type 0} (show_float : ℕ → Text) (v : Checker W) (e : StepEngine W R)
    (c : StepContext) (step : PlanStep) (i : ℕ) where
  wired_validator :
      (tools : Executor W)
      → e.tools ≡ some tools
      → (output : Fields) (log : Collecting W)
      → validation_error (collecting_engine show_float v e) c step i output log ≡ none
      → check show_float (set_collector v) step.agent_id output log ≡ none
  unfolding collecting_engine
  wired_validator tools has_tools output log h = rw (has_tools, collecting_engine) at h

  -- Where the engine has tools and its validator is a grounding validator or a composite one that
  -- holds one, each item of evidence in the output of a step that succeeds is grounded in what the tools
  -- of the run have returned by then, whether or not the steps are stored.
  pub execute_step-IsGrounded :
      (tools : Executor W)
      → e.tools ≡ some tools
      → grounding_validator v ≡ true
      → (st : StepState (Collecting W) R) (output : Fields) (st' : StepState (Collecting W) R)
      → execute_step (collecting_engine show_float v e) c step i st ≡ some (ok output, st')
      → All (IsGrounded show_float st'.world.inner.outputs) (extract_evidence_items output)
  execute_step-IsGrounded tools has_tools found st output st' h =
      (validate_grounding_iff show_float st'.world.inner.outputs step.agent_id output).0 (
        set_collector-accepts show_float step.agent_id output st'.world.inner v found (
          wired_validator tools has_tools output st'.world.inner
            (execute_step-accepted (collecting_engine show_float v e) c step i st output st' h)))
