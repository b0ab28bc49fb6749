-- ===== src/Repair/Sound.antt =====
-- What the repair plans of package repair are (repair/engine.go, repair/advanced_strategy.go).
use agent_orchestrator_go.Base.{
  ℕ, ◌≤◌, ◌<◌, ◌≡◌, refl, Bool, true, false, List, [], ◌∷◌, arith, ok, Bool-cases, inl, inr, ◌⊎◌,
  txt, leb, ok-injective, subst, ap, sym, ◌∙◌,
}
use agent_orchestrator_go.Failure.{
  FailureEvent, FailureType, validation_failure, tool_failure, agent_failure, unknown_failure,
  other_failure, is_retryable, type_is_retryable,
}
use agent_orchestrator_go.Repair.{
  RepairPlan, RepairAction, has_abort, is_replan, new_repair_plan, retry_step, abort,
}
use agent_orchestrator_go.Repair.Config.{should_retry}
use agent_orchestrator_go.Repair.Strategies.{
  Strategy, AdvancedStrategy, advanced_strategy, handle_validation_failure, handle_tool_failure,
  handle_agent_failure, advanced_plan,
}
use agent_orchestrator_go.Repair.Engine.{RepairEngine, repair, abort_plan, exceeded_attempts}

-- One action, for step `i`, which asks for a replan exactly where the flag does.
abbrev pub SingleAction : List RepairAction → ℕ → Bool → Type 0
SingleAction [] i replans = ⊥
SingleAction (a ∷ []) i replans = (a.step_index ≡ i) × (replans ≡ is_replan a.action)
SingleAction (a ∷ b ∷ _) i replans = ⊥

abbrev pub IsSingle : FailureEvent → RepairPlan → Type 0
IsSingle f plan = (plan.failure ≡ f) × SingleAction plan.actions f.step_index plan.should_replan

-- Before the bound the strategy answers for a failure that can be retried.
allowed :
    (e : RepairEngine) (f : FailureEvent)
    → should_retry e.config f.attempt ≡ true
    → is_retryable f ≡ true
    → repair e f ≡ e.strategy f
unfolding repair
allowed e f early retryable = ground (arith, early, retryable)

-- The types of failure that are retried at all.
abbrev pub IsRetried : FailureType → Type 0
IsRetried t = (t ≡ validation_failure) ⊎ ((t ≡ tool_failure) ⊎ (t ≡ agent_failure))

retried : (t : FailureType) → type_is_retryable t ≡ true → IsRetried t
retried validation_failure h = inl refl
retried tool_failure h = inr (inl refl)
retried agent_failure h = inr (inr refl)
retried unknown_failure h = cc
retried (other_failure _) h = cc

not_retried : (t : FailureType) → type_is_retryable t ≡ false → IsRetried t → ⊥
not_retried t h (inl e) = cc (ap type_is_retryable e)
not_retried t h (inr (inl e)) = cc (ap type_is_retryable e)
not_retried t h (inr (inr e)) = cc (ap type_is_retryable e)

-- A plan that gives the failing step up, by one action.
abbrev pub IsAbort : RepairEngine → FailureEvent → Type 0
IsAbort e f =
    (plan : RepairPlan) × (repair e f ≡ ok plan) × (has_abort plan ≡ true) × IsSingle f plan

-- Whatever its strategy, an engine asks it exactly about validation, tool and agent failures before
-- the bound on attempts; past the bound, and for every other failure, it aborts the failing step.
pub repair_aborts :
    (e : RepairEngine) (f : FailureEvent)
    → ((f.attempt < e.config.max_attempts) × IsRetried f.failure_type × (repair e f ≡ e.strategy f))
      ⊎ (((e.config.max_attempts ≤ f.attempt) ⊎ (IsRetried f.failure_type → ⊥)) × IsAbort e f)
unfolding repair has_abort is_retryable
repair_aborts e f = elim (Bool-cases (should_retry e.config f.attempt)) [
  | inl early ↦ elim (Bool-cases (is_retryable f)) [
    | inl retryable ↦
        inl (ground (arith, early), retried f.failure_type retryable, allowed e f early retryable)
    | inr final ↦ inr (
      inr (not_retried f.failure_type final),
      (
        abort_plan (txt "failure type is not retryable") f,
        ground (arith, early, final),
        refl,
        (refl, (refl, refl)),
      ),
    )
  ]
  | inr late ↦ inr (
    inl (ground (arith, late)),
    (
      abort_plan (exceeded_attempts e.config.max_attempts) f,
      ground (arith, late),
      refl,
      (refl, (refl, refl)),
    ),
  )
]

advanced_plan-IsSingle :
    (s : AdvancedStrategy) (t : FailureType) (f : FailureEvent)
    → IsSingle f (advanced_plan s t f (new_repair_plan f))
unfolding handle_validation_failure handle_tool_failure handle_agent_failure new_repair_plan
advanced_plan-IsSingle s validation_failure f = ground arith
advanced_plan-IsSingle s tool_failure f = ground arith
advanced_plan-IsSingle s agent_failure f = ground arith
advanced_plan-IsSingle s unknown_failure f = ground arith
advanced_plan-IsSingle s (other_failure _) f = ground arith

-- The advanced strategy answers every failure with a plan of one action, for the failing step and
-- with the failure kept, whose flag asks for a replan exactly where the action is a replan.
pub advanced_strategy-IsSingle :
    (s : AdvancedStrategy) (f : FailureEvent)
    → (plan : RepairPlan) × (advanced_strategy s f ≡ ok plan) × IsSingle f plan
unfolding advanced_strategy
advanced_strategy-IsSingle s f = (
  advanced_plan s f.failure_type f (new_repair_plan f),
  refl,
  advanced_plan-IsSingle s f.failure_type f,
)

-- The only action of the plan is a retry or an abort.
abbrev pub RetriesOrAborts : List RepairAction → Type 0
RetriesOrAborts actions =
    (a : RepairAction) × (actions ≡ a ∷ []) × ((a.action ≡ retry_step) ⊎ (a.action ≡ abort))

early_tool_plan :
    (s : AdvancedStrategy) (f : FailureEvent)
    → f.attempt < 3
    → RetriesOrAborts (handle_tool_failure s f (new_repair_plan f)).actions
unfolding handle_tool_failure new_repair_plan
early_tool_plan s f early =
    let soon : leb f.attempt 2 ≡ true = ground (arith, early) in
    rw (soon, handle_tool_failure) (_, refl, inl refl)

tool_plan :
    (s : AdvancedStrategy) (t : FailureType) (f : FailureEvent)
    → t ≡ tool_failure
    → f.attempt < 3
    → RetriesOrAborts (advanced_plan s t f (new_repair_plan f)).actions
tool_plan s validation_failure f e early = cc
tool_plan s tool_failure f e early = early_tool_plan s f early
tool_plan s agent_failure f e early = cc
tool_plan s unknown_failure f e early = cc
tool_plan s (other_failure _) f e early = cc

-- An engine that allows at most three attempts, as the default does, never replaces a step after
-- tool failures: with the advanced strategy its plan for a tool failure has one action, which is a
-- retry or an abort.
pub tool_failure-retry_or_abort :
    (s : AdvancedStrategy) (e : RepairEngine) (f : FailureEvent) (plan : RepairPlan)
    → e.strategy ≡ advanced_strategy s
    → e.config.max_attempts ≤ 3
    → f.failure_type ≡ tool_failure
    → repair e f ≡ ok plan
    → RetriesOrAborts plan.actions
unfolding repair advanced_strategy
tool_failure-retry_or_abort s e f plan used bound t h =
    elim (Bool-cases (should_retry e.config f.attempt)) [
      | inl early ↦
          let same = ap (λ (g : Strategy). g f) used in
          subst (λ (p : RepairPlan). RetriesOrAborts p.actions)
            (ok-injective {a = advanced_plan s f.failure_type f (new_repair_plan f)} {b = plan}
              (sym same ∙ sym (allowed e f early (rw t)) ∙ h))
            (tool_plan s f.failure_type f t (ground (arith, early)))
      | inr late ↦
          subst (λ (p : RepairPlan). RetriesOrAborts p.actions)
            (ok-injective {a = abort_plan (exceeded_attempts e.config.max_attempts) f} {b = plan}
              (ground (arith, h, late)))
            (_, refl, inr refl)
    ]
