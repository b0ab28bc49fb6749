-- ===== src/Repair.antt =====
-- repair/repair.go: repair plans.
pub mod Config
pub mod Strategies
pub mod Corrector
pub mod Engine
pub mod Sound
mod Tests
use agent_orchestrator_go.Base.{
  ℕ, Bool, true, false, ◌||◌, List, [], ◌∷◌, ◌++◌, Text, if◌then◌else◌, any, length, ◌==◌,
}
use agent_orchestrator_go.Value.{Fields, nil_map}
use agent_orchestrator_go.Failure.{FailureEvent}

pub data ActionType : Type 0 where
  retry_step modify_input insert_step replace_step skip_step replan abort : ActionType

pub record RepairAction : Type 0 where
  pub action : ActionType
  pub step_index : ℕ
  pub agent_id : Text
  pub modified_input : Fields
  pub metadata : Fields

-- An action with only its type and its step.
abbrev pub plain_action : ActionType → ℕ → RepairAction
plain_action t i = record {
  action = t;
  step_index = i;
  agent_id = [];
  modified_input = nil_map;
  metadata = nil_map;
}

pub record RepairPlan : Type 0 where
  pub failure : FailureEvent
  pub actions : List RepairAction
  pub should_replan : Bool
  pub reasoning : Text

unfoldable pub new_repair_plan : FailureEvent → RepairPlan
new_repair_plan f = record { failure = f; actions = []; should_replan = false; reasoning = [] }

unfoldable pub add_action : RepairAction → RepairPlan → RepairPlan
add_action a rp = record rp { actions = rp.actions ++ a ∷ [] }

unfoldable pub with_reasoning : Text → RepairPlan → RepairPlan
with_reasoning reasoning rp = record rp { reasoning = reasoning }

abbrev pub is_replan : ActionType → Bool
is_replan replan = true
is_replan _ = false

abbrev pub is_abort : ActionType → Bool
is_abort abort = true
is_abort _ = false

unfoldable pub is_empty : RepairPlan → Bool
is_empty rp = length rp.actions == 0

unfoldable pub has_replan : RepairPlan → Bool
has_replan rp = if any (λ a. is_replan a.action) rp.actions then true else rp.should_replan

unfoldable pub has_abort : RepairPlan → Bool
has_abort rp = any (λ a. is_abort a.action) rp.actions
