-- ===== src/Planner/ContextAware.antt =====
-- planner/context_aware.go: a planner with templates, which also replans.
pub mod Remaining
pub mod Dangling
use agent_orchestrator_go.Base.{
  ℕ, zero, suc, ◌+◌, ◌≤◌, ◌<◌, ◌≡◌, refl, Bool, true, false, not, ◌&&◌, List, [], ◌∷◌, ◌++◌, map,
  Option, some, none, Text, txt, text_eq, has_prefix, decimal, ltb, ◌==◌, if◌then◌else◌, Result, ok,
  err, length, drop, arith,
}
use agent_orchestrator_go.Value.{Value, bool, str, Fields, nil_map, end, field, overlay}
use agent_orchestrator_go.Failure.{
  FailureType, validation_failure, tool_failure, agent_failure, unknown_failure, other_failure,
}
use agent_orchestrator_go.Retry.Policy.{Policy}
use agent_orchestrator_go.Planner.Plan.{PlanStep, Plan}
use agent_orchestrator_go.Planner.Replanner.{ReplanContext}
use agent_orchestrator_go.Planner.Fixed.{bare_step}

-- `map[string][]PlanStep`, in an order in which Go may go over it.
abbrev pub Templates : Type 0
Templates = List (Text × List PlanStep)

pub record ContextAwarePlanner : Type 0 where
  pub registry : Templates
  pub fallback_agent_id : Text

unfoldable pub new_context_aware_planner : ContextAwarePlanner
new_context_aware_planner = record { registry = []; fallback_agent_id = [] }

-- `p.registry[taskID] = steps`
unfoldable pub set_template : Text → List PlanStep → Templates → Templates
set_template task steps [] = (task, steps) ∷ []
set_template task steps ((other, old) ∷ templates) =
    let rest = set_template task steps templates in
    if text_eq other task then (task, steps) ∷ templates else (other, old) ∷ rest

unfoldable pub register_task : Text → List PlanStep → ContextAwarePlanner → ContextAwarePlanner
unfolding set_template
register_task task steps p = record p { registry = set_template task steps p.registry }

unfoldable pub set_fallback_agent : Text → ContextAwarePlanner → ContextAwarePlanner
set_fallback_agent agent p = record p { fallback_agent_id = agent }

-- `copyMap`
unfoldable pub copy_map : Fields → Fields
copy_map nil_map = nil_map
copy_map end = end
copy_map (field k v m) = overlay end (field k v m)

-- `copySteps`: the agent, the input and the metadata of each step.
unfoldable pub copy_steps : List PlanStep → List PlanStep
unfolding copy_map
copy_steps [] = []
copy_steps (s ∷ steps) =
    record (bare_step s.agent_id) { input = copy_map s.input; metadata = copy_map s.metadata }
    ∷ copy_steps steps

-- `p.registry[taskID]`
unfoldable pub exact_template : Text → Templates → Option (List PlanStep)
exact_template task [] = none
exact_template task ((pattern, steps) ∷ templates) =
    if text_eq pattern task then some steps else exact_template task templates

-- The loop over the patterns.
unfoldable pub prefix_template : Text → Templates → Option (List PlanStep)
prefix_template task [] = none
prefix_template task ((pattern, steps) ∷ templates) =
    if has_prefix pattern task then some steps else prefix_template task templates

-- `CreatePlan`
unfoldable pub create_plan_for : ContextAwarePlanner → Text → Result Plan
unfolding copy_steps exact_template prefix_template
create_plan_for p task = elim (exact_template task p.registry) [
  | some steps ↦ ok (record { task_id = task; steps = copy_steps steps })
  | none ↦ elim (prefix_template task p.registry) [
    | some steps ↦ ok (record { task_id = task; steps = copy_steps steps })
    | none ↦ ok (record { task_id = task; steps = bare_step (txt "agent.echo") ∷ [] })
  ]
]

-- `mergeMetadata`
unfoldable pub merge_metadata : Fields → Fields → Fields
merge_metadata existing additional = overlay (overlay end existing) additional

-- The loop `for i := rctx.FailedStepIndex; i < len(original.Steps); i++`, on the steps from i on.
unfoldable pub change_steps : (ℕ → PlanStep → PlanStep) → ℕ → List PlanStep → List PlanStep
change_steps change i [] = []
change_steps change i (s ∷ steps) = change i s ∷ change_steps change (suc i) steps

unfoldable pub remaining_steps : (ℕ → PlanStep → PlanStep) → ℕ → List PlanStep → List PlanStep
unfolding change_steps
remaining_steps change i steps = change_steps change i (drop i steps)

-- `if len(remaining) == 0`
abbrev pub or_step : Text → List PlanStep → List PlanStep
or_step agent [] = bare_step agent ∷ []
or_step agent (s ∷ steps) = s ∷ steps

abbrev pub replan_marks : Text → Fields → Fields
replan_marks kind more =
    field (txt "__replan__") (bool true) (field (txt "__replan_type__") (str kind) more)

-- The step with what the replan adds to its metadata.
unfoldable pub mark_step : Text → Fields → PlanStep → PlanStep
unfolding merge_metadata
mark_step kind more s = record s { metadata = merge_metadata s.metadata (replan_marks kind more) }

-- The failed step gets the fallback agent, where one is set.
abbrev pub with_fallback : Text → ℕ → ℕ → PlanStep → PlanStep
with_fallback fallback failed i s =
    if (i == failed) && not (text_eq fallback []) then record s { agent_id = fallback } else s

-- `handleValidationReplan`
unfoldable pub handle_validation_replan : ReplanContext → List PlanStep
unfolding remaining_steps mark_step
handle_validation_replan c = elim c.original_plan [
  | none ↦ bare_step (txt "agent.echo") ∷ []
  | some original ↦ or_step c.failed_agent_id (
      remaining_steps
        (λ i s.
          mark_step (txt "validation_failure")
            (field (txt "__prev_error__") (str c.failure_error) end) s)
        c.failed_step_index original.steps)
]

-- `fmt.Errorf("exceeded max replans (%d)", rctx.MaxReplans)`
abbrev pub too_many : ReplanContext → Text
too_many c = txt "exceeded max replans (" ++ (decimal c.max_replans ++ txt ")")

module _ (p : ContextAwarePlanner) where
  -- `handleToolReplan`
  unfoldable pub handle_tool_replan : ReplanContext → List PlanStep
  unfolding remaining_steps mark_step
  handle_tool_replan c = elim c.original_plan [
    | none ↦ bare_step (txt "agent.echo") ∷ []
    | some original ↦ or_step c.failed_agent_id (
        remaining_steps
          (λ i s.
            mark_step (txt "tool_failure") end
              (with_fallback p.fallback_agent_id c.failed_step_index i s))
          c.failed_step_index original.steps)
  ]

  -- `handleAgentReplan`
  unfoldable pub handle_agent_replan : ReplanContext → List PlanStep
  unfolding remaining_steps mark_step
  handle_agent_replan c = elim c.original_plan [
    | none ↦
        bare_step (if text_eq p.fallback_agent_id [] then txt "agent.echo" else p.fallback_agent_id)
        ∷ []
    | some original ↦
        or_step (if text_eq p.fallback_agent_id [] then c.failed_agent_id else p.fallback_agent_id)
          (remaining_steps
            (λ i s.
              mark_step (txt "agent_failure") end
                (with_fallback p.fallback_agent_id c.failed_step_index i s))
            c.failed_step_index original.steps)
  ]

  -- `handleDefaultReplan`
  unfoldable pub handle_default_replan : ReplanContext → List PlanStep
  unfolding remaining_steps
  handle_default_replan c = elim c.original_plan [
    | none ↦ bare_step (txt "agent.echo") ∷ []
    | some original ↦
        or_step c.failed_agent_id (remaining_steps (λ i s. s) c.failed_step_index original.steps)
  ]

  -- `buildRemainingSteps`, at the type of the failure.
  abbrev pub remaining_for : FailureType → ReplanContext → List PlanStep
  remaining_for validation_failure c = handle_validation_replan c
  remaining_for tool_failure c = handle_tool_replan c
  remaining_for agent_failure c = handle_agent_replan c
  remaining_for unknown_failure c = handle_default_replan c
  remaining_for (other_failure _) c = handle_default_replan c

  -- `Replan`
  unfoldable pub replan_remaining : ReplanContext → Result Plan
  unfolding handle_validation_replan handle_tool_replan handle_agent_replan handle_default_replan
  replan_remaining c =
      if ltb c.max_replans c.attempt
      then err (too_many c)
      else ok (record { task_id = c.task_id; steps = remaining_for c.failure_type c })
