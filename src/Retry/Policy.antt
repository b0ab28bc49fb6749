-- ===== src/Retry/Policy.antt =====
-- retry/policy.go: the policy record, its defaults, `Merge` and `ShouldRetry`.
use agent_orchestrator_go.Base.{
  ℕ, ℤ, pos, is_zeroℤ, Bool, true, false, ◌||◌, List, [], Text, ltb, ◌==◌, if◌then◌else◌,
}

-- `BackoffType` is a string; `unset` is the empty one, and any other is `custom`.
pub data BackoffType : Type 0 where
  unset none constant linear exponential : BackoffType
  custom : Text → BackoffType

-- A `float64` is its 64 bits.
abbrev pub Float64 : Type 0
Float64 = ℕ

-- `f == 0`: plus or minus zero.
abbrev pub is_float_zero : Float64 → Bool
is_float_zero f = (f == 0) || (f == 0x8000000000000000)

-- 2.0
abbrev pub float_two : Float64
float_two = 0x4000000000000000

-- Delays are durations in nanoseconds.
pub record Policy : Type 0 where
  pub max_attempts : ℕ
  pub backoff : BackoffType
  pub initial_delay : ℤ
  pub max_delay : ℤ
  pub multiplier : Float64
  pub jitter : Bool
  pub retryable_errors : List Text

abbrev pub default_policy : Policy
default_policy = record {
  max_attempts = 3;
  backoff = exponential;
  initial_delay = pos 100_000_000;
  max_delay = pos 10_000_000_000;
  multiplier = float_two;
  jitter = true;
  retryable_errors = [];
}

abbrev pub no_retry_policy : Policy
no_retry_policy = record {
  max_attempts = 1;
  backoff = none;
  initial_delay = pos 0;
  max_delay = pos 0;
  multiplier = 0;
  jitter = false;
  retryable_errors = [];
}

abbrev pub is_unset : BackoffType → Bool
is_unset unset = true
is_unset _ = false

unfoldable pub merge : Policy → Policy → Policy
merge p fallback = record p {
  max_attempts = if p.max_attempts == 0 then fallback.max_attempts else p.max_attempts;
  backoff = if is_unset p.backoff then fallback.backoff else p.backoff;
  initial_delay = if is_zeroℤ p.initial_delay then fallback.initial_delay else p.initial_delay;
  max_delay = if is_zeroℤ p.max_delay then fallback.max_delay else p.max_delay;
  multiplier = if is_float_zero p.multiplier then fallback.multiplier else p.multiplier;
}

-- The bound that `ShouldRetry` compares with: zero falls back to the default.
abbrev pub effective_max : Policy → ℕ
effective_max p = if p.max_attempts == 0 then default_policy.max_attempts else p.max_attempts

unfoldable pub should_retry : Policy → ℕ → Bool
should_retry p attempt = ltb attempt (effective_max p)
