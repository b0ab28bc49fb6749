-- ===== src/Orchestrator/Metrics/Bounds.antt =====
-- The counts of orchestrator/metrics.go agree with one another, and with the report validator.
use agent_orchestrator_go.Base.{
  ℕ, suc, ◌+◌, ◌≤◌, Bool, true, ◌≡◌, refl, ap, ◌∙◌, ◌⊎◌, subst, ok-injective, ok_ne_err, inl, inr,
  List, [], ◌∷◌, ◌++◌, some, none, Text, txt, text_eq, text_eq_iff, Option, ok, arith, length,
  Option-cases, Result-cases,
}
use agent_orchestrator_go.Value.{Value, str, Fields, lookup}
use agent_orchestrator_go.Tools.{Json}
use agent_orchestrator_go.Tools.Stored.{StoredCall}
use agent_orchestrator_go.Orchestrator.StepExecutor.{AgentStep}
use agent_orchestrator_go.Orchestrator.Engine.{AgentRun, AgentRunStatus, run_completed}
use agent_orchestrator_go.Orchestrator.Validators.{validate_report}
use agent_orchestrator_go.Orchestrator.Validators.Complete.{
  HasText, HasSteps, IsReport, validate_report-IsReport,
}
use agent_orchestrator_go.Orchestrator.Metrics.{
  calls_text, calls_files, output_of, has_valid_structured_output, is_structured, has_string,
  MetricsEvidence, extract_evidence, Grounding, is_present,
}
use agent_orchestrator_go.Orchestrator.Metrics.Evaluate.{
  count_items, count_steps, compute_grounding, is_evidence_grounded, StepGroup, Repairs,
  count_repairs, compute_repair_rate, group_steps, Tally, new_tally, count_status, MetricsEvaluator,
  add_run, tally_runs, Floats, Metrics, evaluate_all,
}

count_items-le :
    (test : MetricsEvidence → Bool) (evidence : List MetricsEvidence) (n : Grounding)
    → n.grounded ≤ n.total
    → (count_items test evidence n).grounded ≤ (count_items test evidence n).total
unfolding count_items
count_items-le test [] n h = h
count_items-le test (ev ∷ evidence) n h = count_items-le test evidence _ (ground arith)

count_steps-le :
    (json : Json) (test : MetricsEvidence → Bool) (steps : List AgentStep) (n : Grounding)
    → n.grounded ≤ n.total
    → (count_steps json test steps n).grounded ≤ (count_steps json test steps n).total
unfolding count_steps
count_steps-le json test [] n h = h
count_steps-le json test (s ∷ steps) n h = elim (Option-cases (output_of json s)) [
  | inl skipped ↦ rw (skipped, count_steps) (count_steps-le json test steps n h)
  | inr (output, counted) ↦
      rw (counted, count_steps)
        (count_steps-le json test steps _ (count_items-le test (extract_evidence output) n h))
]

count_repairs-le :
    (groups : List (Text × StepGroup)) (n : Repairs)
    → n.repaired ≤ n.repairable
    → (count_repairs groups n).repaired ≤ (count_repairs groups n).repairable
unfolding count_repairs
count_repairs-le [] n h = h
count_repairs-le ((p, g) ∷ groups) n h = count_repairs-le groups _ (ground arith)

-- The counts while that many runs are left.
record IsTally (t : Tally) (left : ℕ) : Type 0 where
  pub ended : t.succeeded_runs + t.failed_runs + left ≤ t.total_runs
  pub structured : t.valid_structure_count + left ≤ t.total_runs
  pub grounded : t.grounded_evidence_items ≤ t.total_evidence_items
  pub repaired : t.successfully_repaired ≤ t.total_repairable_steps

add_run-IsTally :
    (m : MetricsEvaluator) (status : AgentRunStatus) (steps : List AgentStep)
    (calls : List StoredCall) (t : Tally) (left : ℕ)
    → IsTally t (suc left)
    → IsTally (add_run m steps calls (count_status status t)) left
unfolding add_run count_status compute_grounding compute_repair_rate
add_run-IsTally m run_completed steps calls t left h = ground (
  arith,
  count_steps-le m.json
      (is_evidence_grounded m.lower (calls_text m.json calls) (calls_files m.json calls)) steps
      (record { total = 0; grounded = 0 }),
  count_repairs-le (group_steps steps []) (record { repairable = 0; repaired = 0 }),
)
add_run-IsTally m _ steps calls t left h = ground (
  arith,
  count_steps-le m.json
      (is_evidence_grounded m.lower (calls_text m.json calls) (calls_files m.json calls)) steps
      (record { total = 0; grounded = 0 }),
  count_repairs-le (group_steps steps []) (record { repairable = 0; repaired = 0 }),
)

add_run-total :
    (m : MetricsEvaluator) (status : AgentRunStatus) (steps : List AgentStep)
    (calls : List StoredCall) (t : Tally)
    → (add_run m steps calls (count_status status t)).total_runs ≡ t.total_runs
unfolding add_run count_status
add_run-total m run_completed steps calls t = refl
add_run-total m _ steps calls t = refl

tally_runs-IsTally :
    (m : MetricsEvaluator) (runs : List AgentRun) (t u : Tally)
    → IsTally t (length runs)
    → tally_runs m runs t ≡ ok u
    → IsTally u 0 × (u.total_runs ≡ t.total_runs)
unfolding tally_runs
tally_runs-IsTally m [] t u h e =
    subst (λ v. IsTally v 0 × (v.total_runs ≡ t.total_runs)) (ok-injective e) (h, refl)
tally_runs-IsTally m (run ∷ runs) t u h e = elim (Result-cases (m.get_steps run.run_id)) [
  | inr (why, lost) ↦ ok_ne_err (rw (lost, tally_runs) at e)
  | inl (steps, loaded) ↦ elim (Result-cases (m.get_tool_calls run.run_id)) [
    | inr (why, lost) ↦ ok_ne_err (rw (loaded, lost, tally_runs) at e)
    | inl (calls, found) ↦
        let next = add_run-IsTally m run.status steps calls t (length runs) h in
        let (valid, same) =
          tally_runs-IsTally m runs _ u next (rw (loaded, found, tally_runs) at e) in
        (valid, same ∙ add_run-total m run.status steps calls t)
  ]
]

module _ {F : Type 0} (fl : Floats F) where
  -- The evaluation of some runs counts each of them, at most one end and one structured output of
  -- each, at most as many grounded items of evidence as items, and at most as many repaired steps
  -- as steps to repair.
  pub evaluate_all_bounds :
      (m : MetricsEvaluator) (runs : List AgentRun) (found : Metrics F)
      → evaluate_all fl m runs ≡ ok found
      → (found.counts.total_runs ≡ length runs)
        × (found.counts.succeeded_runs + found.counts.failed_runs ≤ length runs)
        × (found.counts.valid_structure_count ≤ length runs)
        × (found.counts.grounded_evidence_items ≤ found.counts.total_evidence_items)
        × (found.counts.successfully_repaired ≤ found.counts.total_repairable_steps)
  unfolding evaluate_all
  evaluate_all_bounds m runs found e =
      elim (Result-cases (tally_runs m runs (new_tally (length runs)))) [
        | inr (why, lost) ↦ ok_ne_err (rw (lost, evaluate_all) at e)
        | inl (t, tallied) ↦
            let (valid, same) =
              tally_runs-IsTally m runs (new_tally (length runs)) t (omega arith) tallied in
            let counts : t ≡ found.counts =
              ap (λ (x : Metrics F). x.counts) (ok-injective (rw (tallied, evaluate_all) at e)) in
            subst
              (λ u.
                (u.total_runs ≡ length runs)
                × (u.succeeded_runs + u.failed_runs ≤ length runs)
                × (u.valid_structure_count ≤ length runs)
                × (u.grounded_evidence_items ≤ u.total_evidence_items)
                × (u.successfully_repaired ≤ u.total_repairable_steps))
              counts (omega arith)
      ]

HasText-has_string : (k : Text) (output : Fields) → HasText k output → has_string k output ≡ true
unfolding has_string
HasText-has_string k output (t, found, filled) = rw found (ground (arith, text_eq_iff t [], filled))

level-has_string :
    (output : Fields)
    → ((t : Text) × (lookup (txt "confidence_level") output ≡ some (str t))
        × ((t ≡ txt "Low") ⊎ ((t ≡ txt "Medium") ⊎ (t ≡ txt "High"))))
    → has_string (txt "confidence_level") output ≡ true
unfolding has_string text_eq
level-has_string output (t, found, inl e) = rw (found, e)
level-has_string output (t, found, inr (inl e)) = rw (found, e)
level-has_string output (t, found, inr (inr e)) = rw (found, e)

steps-present : (o : Option Value) → HasSteps o → is_present o ≡ true
steps-present o (inl (t, ts, e)) = rw e
steps-present o (inr (v, vs, e)) = rw e

IsReport-is_structured : (output : Fields) → IsReport output → is_structured output ≡ true
unfolding is_structured
IsReport-is_structured output r =
    rw
      (
        HasText-has_string (txt "error_summary") output r.summary,
        HasText-has_string (txt "suspected_root_cause") output r.cause,
        level-has_string output r.level,
        r.evidence.1,
      )
      (steps-present _ r.next_steps)

-- A run with a step that succeeded, and whose stored output is a report that the report validator
-- accepts, counts as one with a structured output.
pub validated-has_valid_structured_output :
    (json : Json) (before after : List AgentStep) (s : AgentStep) (output : Fields)
    → output_of json s ≡ some output
    → validate_report (txt "agent.log_analyzer") output ≡ none
    → has_valid_structured_output json (before ++ s ∷ after) ≡ true
unfolding has_valid_structured_output
validated-has_valid_structured_output json [] after s output e h = rw (
  e,
  has_valid_structured_output,
  IsReport-is_structured output (validate_report-IsReport output h),
)
validated-has_valid_structured_output json (b ∷ before) after s output e h =
    let rest = validated-has_valid_structured_output json before after s output e h in
    elim (Option-cases (output_of json b)) [
      | inl skipped ↦ rw (skipped, has_valid_structured_output) rest
      | inr (other, counted) ↦ rw (counted, has_valid_structured_output) (ground (arith, rest))
    ]
