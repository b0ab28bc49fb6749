-- ===== src/Tools/Stored.antt =====
-- agent/tool_call.go: tool calls as the storage keeps them.
use agent_orchestrator_go.Base.{Text}

pub data ToolCallStatus : Type 0 where
  call_succeeded call_failed : ToolCallStatus

-- `agent.ToolCall`, less its two times.
pub record StoredCall : Type 0 where
  pub tool_call_id : Text
  pub run_id : Text
  pub step_id : Text
  pub tool_name : Text
  pub input : Text
  pub output : Text
  pub status : ToolCallStatus
