-- ===== src/Planner/ContextAware/Remaining.antt =====
-- planner/context_aware.go: what `Replan` keeps of the steps of the plan that failed.
use agent_orchestrator_go.Base.{
  ℕ, zero, suc, ◌≤◌, ◌<◌, ◌≡◌, refl, sym, subst, ◌⊎◌, inl, inr, not, ◌&&◌, List, [], ◌∷◌, map,
  Option, some, Text, text_eq, ltb, ◌==◌, ok, err, length, drop, arith, Bool-cases, Option-cases,
  ok-injective, ok_ne_err,
}
use agent_orchestrator_go.Value.{Fields}
use agent_orchestrator_go.Failure.{
  FailureType, validation_failure, tool_failure, agent_failure, unknown_failure, other_failure,
}
use agent_orchestrator_go.Retry.Policy.{Policy}
use agent_orchestrator_go.Planner.Plan.{PlanStep, Plan}
use agent_orchestrator_go.Planner.Replanner.{ReplanContext}
use agent_orchestrator_go.Planner.ContextAware.{
  ContextAwarePlanner, change_steps, remaining_steps, or_step, mark_step, with_fallback,
  handle_validation_replan, handle_tool_replan, handle_agent_replan, handle_default_replan,
  remaining_for, replan_remaining, too_many,
}

-- What the scheduler reads of a step, with its input and its retry policy.
abbrev pub outline : PlanStep → Text × List Text × Fields × Option Policy
outline s = (s.step_id, s.depends_on, s.input, s.retry_policy)

change_steps-outline :
    (change : ℕ → PlanStep → PlanStep)
    → ((i : ℕ) (s : PlanStep) → outline (change i s) ≡ outline s)
    → (i : ℕ) (steps : List PlanStep)
    → map outline (change_steps change i steps) ≡ map outline steps
unfolding change_steps
change_steps-outline change kept i [] = refl
change_steps-outline change kept i (s ∷ steps) =
    let ih = change_steps-outline change kept (suc i) steps in let here = kept i s in cc

drop-cons :
    {A : Type 0} (i : ℕ) (xs : List A)
    → i < length xs
    → (x : A) × (rest : List A) × (drop i xs ≡ x ∷ rest)
drop-cons i [] lt = absurd (omega arith)
drop-cons zero (x ∷ xs) lt = (x, xs, refl)
drop-cons (suc i) (x ∷ xs) lt = drop-cons i xs (omega arith)

remaining-outline :
    (change : ℕ → PlanStep → PlanStep)
    → ((i : ℕ) (s : PlanStep) → outline (change i s) ≡ outline s)
    → (agent : Text) (i : ℕ) (steps : List PlanStep) → i < length steps
    → map outline (or_step agent (remaining_steps change i steps)) ≡ map outline (drop i steps)
unfolding remaining_steps change_steps
remaining-outline change kept agent i steps lt =
    let (x, rest, e) = drop-cons i steps lt in
    subst (λ xs. map outline (or_step agent (change_steps change i xs)) ≡ map outline xs) (sym e)
      (change_steps-outline change kept i (x ∷ rest))

with_fallback-outline :
    (fallback : Text) (failed i : ℕ) (s : PlanStep)
    → outline (with_fallback fallback failed i s) ≡ outline s
with_fallback-outline fallback failed i s =
    elim (Bool-cases ((i == failed) && not (text_eq fallback []))) [
      | inl first ↦ rw first refl
      | inr later ↦ rw later refl
    ]

module _ (p : ContextAwarePlanner) (c : ReplanContext) where
  remaining_for-outline :
      (t : FailureType) (original : Plan)
      → c.original_plan ≡ some original
      → c.failed_step_index < length original.steps
      → map outline (remaining_for p t c) ≡ map outline (drop c.failed_step_index original.steps)
  unfolding handle_validation_replan handle_tool_replan handle_agent_replan handle_default_replan
      mark_step
  remaining_for-outline validation_failure original e lt =
      rw (e, handle_validation_replan) (remaining-outline _ (λ i s. refl) _ _ _ lt)
  remaining_for-outline tool_failure original e lt =
      rw (e, handle_tool_replan)
        (remaining-outline _
          (λ i s. with_fallback-outline p.fallback_agent_id c.failed_step_index i s) _ _ _ lt)
  remaining_for-outline agent_failure original e lt =
      rw (e, handle_agent_replan)
        (remaining-outline _
          (λ i s. with_fallback-outline p.fallback_agent_id c.failed_step_index i s) _ _ _ lt)
  remaining_for-outline unknown_failure original e lt =
      rw (e, handle_default_replan) (remaining-outline _ (λ i s. refl) _ _ _ lt)
  remaining_for-outline (other_failure _) original e lt =
      rw (e, handle_default_replan) (remaining-outline _ (λ i s. refl) _ _ _ lt)

  -- Where the failed step is a step of the original plan, the plan that `Replan` returns consists
  -- of the steps from the failed one on, those that are completed included: their ids,
  -- dependencies, inputs and retry policies are kept, in their order, whatever the type of the
  -- failure.
  pub replan-outline :
      (original plan : Plan)
      → c.original_plan ≡ some original
      → c.failed_step_index < length original.steps
      → replan_remaining p c ≡ ok plan
      → map outline plan.steps ≡ map outline (drop c.failed_step_index original.steps)
  unfolding replan_remaining
  replan-outline original plan e lt h = elim (Bool-cases (ltb c.max_replans c.attempt)) [
    | inl over ↦ absurd (ok_ne_err (rw (over, replan_remaining) at h))
    | inr within ↦
        subst (λ q. map outline q.steps ≡ map outline (drop c.failed_step_index original.steps))
          (ok-injective (rw (within, replan_remaining) at h))
          (remaining_for-outline c.failure_type original e lt)
  ]

or_step-positive : (agent : Text) (steps : List PlanStep) → 0 < length (or_step agent steps)
or_step-positive agent [] = omega arith
or_step-positive agent (s ∷ steps) = omega arith

module _ (p : ContextAwarePlanner) (c : ReplanContext) where
  remaining_for-positive : (t : FailureType) → 0 < length (remaining_for p t c)
  unfolding handle_validation_replan handle_tool_replan handle_agent_replan handle_default_replan
  remaining_for-positive validation_failure = elim (Option-cases c.original_plan) [
    | inl lost ↦ rw (lost, handle_validation_replan) (omega arith)
    | inr (original, there) ↦ rw (there, handle_validation_replan) (or_step-positive _ _)
  ]
  remaining_for-positive tool_failure = elim (Option-cases c.original_plan) [
    | inl lost ↦ rw (lost, handle_tool_replan) (omega arith)
    | inr (original, there) ↦ rw (there, handle_tool_replan) (or_step-positive _ _)
  ]
  remaining_for-positive agent_failure = elim (Option-cases c.original_plan) [
    | inl lost ↦ rw (lost, handle_agent_replan) (omega arith)
    | inr (original, there) ↦ rw (there, handle_agent_replan) (or_step-positive _ _)
  ]
  remaining_for-positive unknown_failure = elim (Option-cases c.original_plan) [
    | inl lost ↦ rw (lost, handle_default_replan) (omega arith)
    | inr (original, there) ↦ rw (there, handle_default_replan) (or_step-positive _ _)
  ]
  remaining_for-positive (other_failure _) = elim (Option-cases c.original_plan) [
    | inl lost ↦ rw (lost, handle_default_replan) (omega arith)
    | inr (original, there) ↦ rw (there, handle_default_replan) (or_step-positive _ _)
  ]

  -- Up to the last replan that is allowed, `Replan` returns a plan for the task with at least one
  -- step, even without an original plan or with a failed step beyond it; after that, an error.
  pub replan_usable :
      ((c.attempt ≤ c.max_replans)
        × ((plan : Plan) × (replan_remaining p c ≡ ok plan)
            × (plan.task_id ≡ c.task_id)
            × (0 < length plan.steps)))
      ⊎ ((c.max_replans < c.attempt) × ((message : Text) × (replan_remaining p c ≡ err message)))
  unfolding replan_remaining
  replan_usable = elim (Bool-cases (ltb c.max_replans c.attempt)) [
    | inl over ↦ inr (ground (arith, over), (too_many c, rw (over, replan_remaining) refl))
    | inr within ↦ inl (
      ground (arith, within),
      (
        record { task_id = c.task_id; steps = remaining_for p c.failure_type c },
        rw (within, replan_remaining) refl,
        refl,
        remaining_for-positive c.failure_type,
      ),
    )
  ]
