-- ===== src/Repair/Config.antt =====
-- repair/config.go: the retry bounds of the repair engine.
use agent_orchestrator_go.Base.{ℕ, ℤ, pos, Bool, true, ltb}
use agent_orchestrator_go.Retry.Policy.{Float64, float_two}

pub record RetryConfig : Type 0 where
  pub max_attempts : ℕ
  pub initial_delay : ℤ
  pub max_delay : ℤ
  pub backoff_multiplier : Float64
  pub enable_jitter : Bool

abbrev pub default_retry_config : RetryConfig
default_retry_config = record {
  max_attempts = 3;
  initial_delay = pos 100_000_000;
  max_delay = pos 10_000_000_000;
  backoff_multiplier = float_two;
  enable_jitter = true;
}

unfoldable pub should_retry : RetryConfig → ℕ → Bool
should_retry c attempt = ltb attempt c.max_attempts
