-- ===== src/Failure.antt =====
-- failure/failure.go: failure events and which of them can be retried.
pub mod Classifier
use agent_orchestrator_go.Base.{ℕ, Bool, true, false, Option, none, some, Text, txt, [], ◌≡◌}
use agent_orchestrator_go.Value.{Fields, end}

-- `FailureType` is a string; any other than the four of the package is `other_failure`.
pub data FailureType : Type 0 where
  validation_failure tool_failure agent_failure unknown_failure : FailureType
  other_failure : Text → FailureType

-- `string(f)`
abbrev pub type_name : FailureType → Text
type_name validation_failure = txt "validation_failure"
type_name tool_failure = txt "tool_failure"
type_name agent_failure = txt "agent_failure"
type_name unknown_failure = txt "unknown_failure"
type_name (other_failure t) = t

pub record FailureEvent : Type 0 where
  pub run_id : Text
  pub step_index : ℕ
  pub agent_id : Text
  pub failure_type : FailureType
  pub error : Text
  pub output : Fields
  pub timestamp : ℕ
  pub attempt : ℕ

-- An `error` that may be nil is `Option Text`; `now` is the clock's answer.
abbrev pub error_message : Option Text → Text
error_message none = []
error_message (some e) = e

unfoldable pub new_failure_event : ℕ → Text → ℕ → Text → FailureType → Option Text → FailureEvent
new_failure_event now run_id step_index agent_id t e = record {
  run_id = run_id;
  step_index = step_index;
  agent_id = agent_id;
  failure_type = t;
  error = error_message e;
  output = end;
  timestamp = now;
  attempt = 1;
}

unfoldable pub with_output : Fields → FailureEvent → FailureEvent
with_output output f = record f { output = output }

unfoldable pub with_attempt : ℕ → FailureEvent → FailureEvent
with_attempt attempt f = record f { attempt = attempt }

abbrev pub type_is_retryable : FailureType → Bool
type_is_retryable tool_failure = true
type_is_retryable agent_failure = true
type_is_retryable validation_failure = true
type_is_retryable unknown_failure = false
type_is_retryable (other_failure _) = false

unfoldable pub is_retryable : FailureEvent → Bool
is_retryable f = type_is_retryable f.failure_type
