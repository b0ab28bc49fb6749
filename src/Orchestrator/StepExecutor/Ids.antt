-- ===== src/Orchestrator/StepExecutor/Ids.antt =====
-- The ids of the attempts at a step (orchestrator/step_executor.go) differ.
use mathlib.Core.List.{append_cancel_left}
use agent_orchestrator_go.Base.{
  ℕ, zero, suc, ◌+◌, ◌-◌, ◌*◌, ◌/◌, ◌%◌, ◌<◌, ◌≡◌, sym, ap, ◌∙◌, [], ◌∷◌, Text, txt, digits,
  decimal, arith, Bool-cases, inl, inr, ltb,
}
use agent_orchestrator_go.Orchestrator.StepExecutor.{attempt_id}

-- The number that digits stand for, after those that stand for `n`.
abbrev number : ℕ → Text → ℕ
number n [] = n
number n (c ∷ t) = number (n * 10 + (c - b'0')) t

number-digits : (fuel n : ℕ) (acc : Text) → n < fuel → number 0 (digits fuel n acc) ≡ number n acc
unfolding digits
number-digits zero n acc h = absurd (omega (arith, h))
number-digits (suc fuel) n acc h = elim (Bool-cases (ltb n 10)) [
  | inl small ↦ rw (small, digits) (ap (λ m. number m acc) (omega arith))
  | inr large ↦
      rw (large, digits)
        (number-digits fuel (n / 10) ((b'0' + n % 10) ∷ acc) (ground (arith, large, h))
          ∙ ap (λ m. number m acc) (omega arith))
]

number-decimal : (n : ℕ) → number 0 (decimal n) ≡ n
unfolding decimal
number-decimal n = number-digits (suc n) n [] (omega arith)

pub attempt_id-injective :
    (run_id : Text) (i m n : ℕ) → attempt_id run_id i m ≡ attempt_id run_id i n → m ≡ n
unfolding attempt_id
attempt_id-injective run_id i m n same =
    let without_run = append_cancel_left run_id _ _ same in
    let without_word = append_cancel_left (txt "-step-") _ _ without_run in
    let without_index = append_cancel_left (decimal i) _ _ without_word in
    let numbers = append_cancel_left (txt "-attempt-") (decimal m) (decimal n) without_index in
    sym (number-decimal m) ∙ ap (number 0) numbers ∙ number-decimal n
