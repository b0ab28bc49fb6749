-- ===== src/Tools.antt =====
-- tools/contracts.go and tools/executor.go: calls, results and executors.
pub mod Registry
pub mod Collector
pub mod Persisting
pub mod Replay
pub mod Stored
pub mod Files
mod Tests
use agent_orchestrator_go.Base.{ℕ, Text, txt, ◌++◌, Result, ok, err, ◌≡◌, refl, ap}
use agent_orchestrator_go.Value.{Fields}

pub record Call : Type 0 where
  pub tool_name : Text
  pub args : Fields

pub record ToolResult : Type 0 where
  pub result_tool : Text
  pub content : Fields

-- `Executor.Execute` over the state `S` that the executor and the world behind it keep.
abbrev pub Executor : Type 0 → Type 0
Executor S = S → Call → Result ToolResult × S

-- `InvalidArgsf` and `ToolFailedf`, of a message that is already formatted.
unfoldable pub invalid_args : Text → Text
invalid_args detail = txt "invalid tool args: " ++ detail

unfoldable pub tool_failed : Text → Text
tool_failed detail = txt "tool execution failed: " ++ detail

-- An agent at work: it answers, or it calls a tool and goes on with what the tool returned. The
-- agents reach the world through their executor only.
pub data Program : Type 0 where
  answer : Result Fields → Program
  use_tool : Call → (Result ToolResult → Program) → Program

-- The program with the given executor.
unfoldable pub run_program {ℓ} :
    {S : Type ℓ} → (S → Call → Result ToolResult × S) → Program → S → Result Fields × S
run_program execute (answer r) s = (r, s)
run_program execute (use_tool c k) s = run_program execute (k (execute s c).0) (execute s c).1

-- Encoding and decoding of maps as JSON (package encoding/json).
pub record Json : Type 0 where
  pub marshal : Fields → Text
  pub unmarshal : Text → Result Fields
