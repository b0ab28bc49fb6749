-- ===== src/Llm.antt =====
-- Package llm: the client interface of llm/client.go.
pub mod Prompt
pub mod Schema
pub mod Guardrails
mod Tests
use agent_orchestrator_go.Base.{ℕ, List, Text, Result}

pub record Message : Type 0 where
  pub role : Text
  pub content : Text

-- `temperature` is the bits of a `float64`.
pub record Request : Type 0 where
  pub model : Text
  pub messages : List Message
  pub temperature : ℕ
  pub max_tokens : ℕ
  pub format : Text

pub record Response : Type 0 where
  pub content : Text
  pub model : Text
  pub prompt_tokens : ℕ
  pub output_tokens : ℕ

-- `Client.Chat`, over the state of the world.
abbrev pub Client : Type 0 → Type 0
Client W = W → Request → Result Response × W
