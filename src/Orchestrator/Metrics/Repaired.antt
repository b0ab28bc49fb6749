-- ===== src/Orchestrator/Metrics/Repaired.antt =====
-- What the metrics of orchestrator/metrics.go say of the records that steps leave.
use mathlib.Core.List.{append_assoc}
use agent_orchestrator_go.Base.{
  ℕ, zero, suc, ◌+◌, ◌/◌, ◌%◌, ◌≤◌, Bool, true, false, ◌&&◌, ◌||◌, ◌≡◌, refl, ap, ◌∙◌, inl, inr,
  List, [], ◌∷◌, ◌++◌, some, none, Text, txt, text_eq, text_eq_refl, has_prefix, decimal, digits,
  ltb, if◌then◌else◌, arith, All, any, length, take, last_index, last_index-append, take-append,
  Bool-cases,
}
use agent_orchestrator_go.Orchestrator.StepExecutor.{AgentStep, attempt_id, tool_step_id}
use agent_orchestrator_go.Orchestrator.Metrics.{is_succeeded, is_failed}
use agent_orchestrator_go.Orchestrator.Metrics.Evaluate.{
  logical_step_prefix, StepGroup, add_status, new_group, add_to_group, group_steps, count_repairs,
  compute_repair_rate,
}

abbrev NoDash : ℕ → Type 0
NoDash c = (48 ≤ c) × (c ≤ 57)

digits-NoDash : (fuel n : ℕ) (acc : Text) → All NoDash acc → All NoDash (digits fuel n acc)
unfolding digits
digits-NoDash zero n acc h = h
digits-NoDash (suc fuel) n acc h =
    let rest = digits-NoDash fuel (n / 10) ((b'0' + n % 10) ∷ acc) (omega arith, h) in
    elim (Bool-cases (ltb n 10)) [
      | inl small ↦ rw (small, digits) (ground arith, h)
      | inr large ↦ rw (large, digits) rest
    ]

decimal-NoDash : (n : ℕ) → All NoDash (decimal n)
unfolding decimal
decimal-NoDash n = digits-NoDash (suc n) n [] tt

abbrev mark : Text
mark = txt "-attempt-"

no_mark : (d : Text) → All NoDash d → last_index mark d ≡ none
unfolding last_index has_prefix
no_mark [] h = refl
no_mark (c ∷ d) h = ground (arith, no_mark d h.1)

-- A dash before digits begins no mark.
no_mark_dash : (d : Text) → All NoDash d → last_index mark (b'-' ∷ d) ≡ none
unfolding last_index has_prefix
no_mark_dash [] h = refl
no_mark_dash (c ∷ d) h = ground (arith, no_mark (c ∷ d) h)

mark_first : (d : Text) → All NoDash d → last_index mark (mark ++ d) ≡ some 0
unfolding last_index has_prefix
mark_first d h = rw (no_mark_dash d h) refl

prefix_of : (id : Text) (k : ℕ) → last_index mark id ≡ some k → logical_step_prefix id ≡ take k id
unfolding logical_step_prefix
prefix_of id k h = rw (h, logical_step_prefix)

-- The prefix of an attempt's id is the id of its step, whatever the run is called.
pub logical_step_prefix-attempt_id :
    (run_id : Text) (i n : ℕ) → logical_step_prefix (attempt_id run_id i n) ≡ tool_step_id run_id i
unfolding attempt_id tool_step_id
logical_step_prefix-attempt_id run_id i n =
    let step = run_id ++ (txt "-step-" ++ decimal i) in
    let split : run_id ++ (txt "-step-" ++ (decimal i ++ (mark ++ decimal n)))
        ≡ step ++ (mark ++ decimal n) =
      simp append_assoc in
    let found : last_index mark (step ++ (mark ++ decimal n)) ≡ some (length step) =
      last_index-append mark step (mark ++ decimal n) 0 (mark_first (decimal n) (decimal-NoDash n))
      ∙ ap some (omega arith) in
    ap logical_step_prefix split
    ∙ prefix_of (step ++ (mark ++ decimal n)) (length step) found
    ∙ take-append step (mark ++ decimal n)

-- The step is an attempt at the `i`-th step of the run.
abbrev pub IsAttempt : Text → ℕ → AgentStep → Type 0
IsAttempt run_id i s = (n : ℕ) × (s.step_id ≡ attempt_id run_id i n)

abbrev pub has_failure : List AgentStep → Bool
has_failure steps = any (λ s. is_failed s.status) steps

abbrev pub has_success : List AgentStep → Bool
has_success steps = any (λ s. is_succeeded s.status) steps

tool_step_id-filled : (run_id : Text) (i : ℕ) → text_eq (tool_step_id run_id i) [] ≡ false
unfolding tool_step_id text_eq
tool_step_id-filled [] i = refl
tool_step_id-filled (c ∷ run_id) i = refl

prefix_of_attempt :
    (run_id : Text) (i : ℕ) (s : AgentStep)
    → IsAttempt run_id i s
    → logical_step_prefix s.step_id ≡ tool_step_id run_id i
prefix_of_attempt run_id i s (n, e) =
    ap logical_step_prefix e ∙ logical_step_prefix-attempt_id run_id i n

add_to_same :
    (p : Text) (s : AgentStep) (g : StepGroup)
    → add_to_group p s ((p, g) ∷ []) ≡ (p, add_status s g) ∷ []
unfolding add_to_group
add_to_same p s g = rw (text_eq_refl p)

add_to_none : (p : Text) (s : AgentStep) → add_to_group p s [] ≡ (p, add_status s new_group) ∷ []
unfolding add_to_group
add_to_none p s = refl

StepGroup-or_false :
    (g : StepGroup)
    → g ≡ record { has_failed = g.has_failed || false; has_succeeded = g.has_succeeded || false }
StepGroup-or_false g = ground arith

or_either : (a b c : Bool) → (a || b) || c ≡ a || (if b then true else c)
or_either a b c = ground arith

-- The group that the steps have joined.
abbrev joined : StepGroup → List AgentStep → StepGroup
joined g steps = record {
  has_failed = g.has_failed || has_failure steps;
  has_succeeded = g.has_succeeded || has_success steps;
}

StepGroup-or_either :
    (g : StepGroup) (s : AgentStep) (steps : List AgentStep)
    → joined (add_status s g) steps ≡ joined g (s ∷ steps)
StepGroup-or_either g s steps = λ i. record {
  has_failed = or_either g.has_failed (is_failed s.status) (has_failure steps) i;
  has_succeeded = or_either g.has_succeeded (is_succeeded s.status) (has_success steps) i;
}

-- With one group, further attempts at its step go into it.
group_steps_one :
    (run_id : Text) (i : ℕ) (steps : List AgentStep) (g : StepGroup)
    → All (IsAttempt run_id i) steps
    → group_steps steps ((tool_step_id run_id i, g) ∷ [])
      ≡ (tool_step_id run_id i, joined g steps) ∷ []
unfolding group_steps
group_steps_one run_id i [] g h = ap (λ r. (tool_step_id run_id i, r) ∷ []) (StepGroup-or_false g)
group_steps_one run_id i (s ∷ steps) g (attempt, h) =
    rw
      (
        prefix_of_attempt run_id i s attempt,
        tool_step_id-filled run_id i,
        add_to_same (tool_step_id run_id i) s g,
      )
      (group_steps_one run_id i steps (add_status s g) h
        ∙ ap (λ r. (tool_step_id run_id i, r) ∷ []) (StepGroup-or_either g s steps))

counted_one :
    (run_id : Text) (i : ℕ) (f s fs ss : Bool)
    → count_repairs
        ((
          tool_step_id run_id i,
          record { has_failed = (false || f) || fs; has_succeeded = (false || s) || ss },
        )
          ∷ [])
        (record { repairable = 0; repaired = 0 })
      ≡ record {
        repairable = if (if f then true else fs) then 1 else 0;
        repaired = if (if f then true else fs) && (if s then true else ss) then 1 else 0;
      }
unfolding count_repairs
counted_one run_id i f s fs ss = ground arith

-- Among the attempts at one step, one step is counted as repairable where an attempt failed, and as
-- repaired where moreover an attempt succeeded.
pub compute_repair_rate-attempts :
    (run_id : Text) (i : ℕ) (steps : List AgentStep)
    → All (IsAttempt run_id i) steps
    → compute_repair_rate steps ≡ record {
      repairable = if has_failure steps then 1 else 0;
      repaired = if has_failure steps && has_success steps then 1 else 0;
    }
unfolding compute_repair_rate group_steps
compute_repair_rate-attempts run_id i [] h = refl
compute_repair_rate-attempts run_id i (s ∷ steps) (attempt, h) =
    rw
      (
        prefix_of_attempt run_id i s attempt,
        tool_step_id-filled run_id i,
        add_to_none (tool_step_id run_id i) s,
        group_steps_one run_id i steps (add_status s new_group) h,
      )
      (counted_one run_id i (is_failed s.status) (is_succeeded s.status) (has_failure steps)
        (has_success steps))
