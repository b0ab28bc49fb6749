-- ===== src/Repair/Strategies.antt =====
-- The strategies of package repair: repair/engine.go (simple, intelligent) and
-- repair/advanced_strategy.go, with `CanCorrect` of repair/input_corrector.go.
use agent_orchestrator_go.Base.{
  ℕ, Bool, true, false, ◌&&◌, List, [], ◌∷◌, ◌++◌, Text, txt, decimal, to_lower, leb, ◌==◌,
  if◌then◌else◌, Result, ok,
}
use agent_orchestrator_go.Value.{Fields, Value, str, bool, field, end}
use agent_orchestrator_go.Failure.{
  FailureEvent, FailureType, validation_failure, tool_failure, agent_failure, unknown_failure,
  other_failure, type_name,
}
use agent_orchestrator_go.Failure.Classifier.{contains_any}
use agent_orchestrator_go.Repair.{
  RepairPlan, plain_action, retry_step, modify_input, replace_step, replan, abort, new_repair_plan,
  add_action, with_reasoning,
}

-- `Strategy.CreateRepairPlan`
abbrev pub Strategy : Type 0
Strategy = FailureEvent → Result RepairPlan

-- `plan.ShouldReplan = true`
abbrev pub requesting_replan : RepairPlan → RepairPlan
requesting_replan plan = record plan { should_replan = true }

abbrev pub simple_plan : FailureType → RepairPlan → ℕ → RepairPlan
simple_plan validation_failure plan i =
    with_reasoning (txt "validation failed - requesting replan")
      (add_action (plain_action replan i) (requesting_replan plan))
simple_plan tool_failure plan i =
    with_reasoning (type_name tool_failure ++ txt " - retrying step")
      (add_action (plain_action retry_step i) plan)
simple_plan agent_failure plan i =
    with_reasoning (type_name agent_failure ++ txt " - retrying step")
      (add_action (plain_action retry_step i) plan)
simple_plan unknown_failure plan i =
    with_reasoning (txt "unknown failure type") (add_action (plain_action abort i) plan)
simple_plan (other_failure _) plan i =
    with_reasoning (txt "unknown failure type") (add_action (plain_action abort i) plan)

-- `SimpleRetryStrategy`
unfoldable pub simple_retry_strategy : Strategy
unfolding new_repair_plan add_action with_reasoning
simple_retry_strategy f = ok (simple_plan f.failure_type (new_repair_plan f) f.step_index)

-- `IntelligentStrategy`, which falls back to the simple one.
unfoldable pub intelligent_strategy : Strategy
unfolding simple_retry_strategy
intelligent_strategy f = simple_retry_strategy f

abbrev pub correctable_patterns : List Text
correctable_patterns =
    txt "missing"
    ∷ txt "required"
    ∷ txt "invalid format"
    ∷ txt "empty"
    ∷ txt "null"
    ∷ txt "too large"
    ∷ txt "too long"
    ∷ txt "invalid type"
    ∷ []

abbrev pub is_validation : FailureType → Bool
is_validation validation_failure = true
is_validation _ = false

-- `InputCorrector.CanCorrect`
unfoldable pub can_correct : FailureEvent → Bool
can_correct f =
    if is_validation f.failure_type
    then contains_any correctable_patterns (to_lower f.error)
    else false

pub record AdvancedStrategy : Type 0 where
  pub enable_input_correction : Bool
  pub enable_step_replacement : Bool

abbrev pub new_advanced_strategy : AdvancedStrategy
new_advanced_strategy = record { enable_input_correction = true; enable_step_replacement = true }

-- `map[string]any{k: v}`
abbrev pub entry : Text → Value → Fields
entry k v = field k v end

unfoldable pub handle_validation_failure : AdvancedStrategy → FailureEvent → RepairPlan → RepairPlan
unfolding can_correct add_action with_reasoning
handle_validation_failure s f plan =
    if (f.attempt == 1) && (s.enable_input_correction && can_correct f)
    then with_reasoning (txt "attempting input correction based on validation error") (
        add_action
          (record (plain_action modify_input f.step_index) {
            agent_id = f.agent_id;
            metadata = entry (txt "correction_strategy") (str (txt "validation_based"));
          })
          plan)
    else if leb 2 f.attempt
    then with_reasoning (txt "validation failed repeatedly, requesting replan") (
        add_action
          (record (plain_action replan f.step_index) {
            metadata = entry (txt "reason") (str (txt "validation_failed_after_correction"));
          })
          (requesting_replan plan))
    else with_reasoning (txt "retrying after validation failure")
        (add_action (plain_action retry_step f.step_index) plan)

unfoldable pub handle_tool_failure : AdvancedStrategy → FailureEvent → RepairPlan → RepairPlan
unfolding add_action with_reasoning
handle_tool_failure s f plan =
    if leb f.attempt 2
    then with_reasoning
        (txt "tool failure (attempt " ++ (decimal f.attempt ++ txt "), retrying with backoff"))
        (add_action
          (record (plain_action retry_step f.step_index) {
            metadata = entry (txt "tool_failure") (bool true);
          })
          plan)
    else if s.enable_step_replacement
    then with_reasoning (txt "tool failure persists, attempting step replacement") (
        add_action
          (record (plain_action replace_step f.step_index) {
            agent_id = f.agent_id ++ txt ".alternative";
            metadata = entry (txt "replacement_reason") (str (txt "tool_failure_persistent"));
          })
          plan)
    else with_reasoning (txt "tool failure persists, no alternatives available")
        (add_action (plain_action abort f.step_index) plan)

unfoldable pub handle_agent_failure : AdvancedStrategy → FailureEvent → RepairPlan → RepairPlan
unfolding add_action with_reasoning
handle_agent_failure s f plan =
    if f.attempt == 1
    then with_reasoning (txt "agent failure, attempting retry")
        (add_action (plain_action retry_step f.step_index) plan)
    else if (f.attempt == 2) && s.enable_step_replacement
    then with_reasoning (txt "agent failure persists, attempting agent replacement") (
        add_action
          (record (plain_action replace_step f.step_index) {
            metadata =
                field (txt "replacement_reason") (str (txt "agent_failure_persistent"))
                  (entry (txt "original_agent") (str f.agent_id));
          })
          plan)
    else if leb 3 f.attempt
    then with_reasoning (txt "agent failure persists, requesting replan")
        (add_action (plain_action replan f.step_index) (requesting_replan plan))
    else with_reasoning (txt "agent failure cannot be repaired")
        (add_action (plain_action abort f.step_index) plan)

abbrev pub advanced_plan : AdvancedStrategy → FailureType → FailureEvent → RepairPlan → RepairPlan
advanced_plan s validation_failure f plan = handle_validation_failure s f plan
advanced_plan s tool_failure f plan = handle_tool_failure s f plan
advanced_plan s agent_failure f plan = handle_agent_failure s f plan
advanced_plan s unknown_failure f plan =
    with_reasoning (txt "unknown failure type") (add_action (plain_action abort f.step_index) plan)
advanced_plan s (other_failure _) f plan =
    with_reasoning (txt "unknown failure type") (add_action (plain_action abort f.step_index) plan)

-- `AdvancedStrategy.CreateRepairPlan`
unfoldable pub advanced_strategy : AdvancedStrategy → Strategy
unfolding handle_validation_failure handle_tool_failure handle_agent_failure new_repair_plan
    add_action with_reasoning
advanced_strategy s f = ok (advanced_plan s f.failure_type f (new_repair_plan f))
