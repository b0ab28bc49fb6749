-- ===== src/Agents/LogAnalyzer/Accepted.antt =====
-- The reports of agent/log_analyzer.go pass the report validator, and what they list.
use agent_orchestrator_go.Base.{
  ℕ, zero, suc, ℤ, is_zeroℤ, ◌||◌, ◌≡◌, refl, ◌⊎◌, inl, inr, List, [], ◌∷◌, none, Text, txt,
  text_eq, ltb, leb, length, Bool-cases, List-cases,
}
use agent_orchestrator_go.Value.{Texts, text, Fields, lookup}
use agent_orchestrator_go.Value.Read.{int_at, maps_at}
use agent_orchestrator_go.Orchestrator.Validators.{
  validate_report, check_texts, check_confidence, check_evidence, check_next_steps, text_of,
  is_level,
}
use agent_orchestrator_go.Agents.LogAnalyzer.{
  Evidence, Counts, error_summary, root_cause, confidence, at_most_two, step_if, next_steps, report,
  all_clear, report_on, analyze, top_of, all_evidence, count_evidence, no_counts,
}

-- A text that is not empty, a level, and steps.
abbrev IsText : Text → Type 0
IsText t = (c : ℕ) × (rest : Text) × (t ≡ c ∷ rest)

abbrev IsConfidence : Text → Type 0
IsConfidence t = (t ≡ txt "Low") ⊎ ((t ≡ txt "Medium") ⊎ (t ≡ txt "High"))

abbrev HasStep : Texts → Type 0
HasStep ts = (t : Text) × (rest : Texts) × (ts ≡ text t rest)

report-accepted :
    (summary cause level : Text) (evidence : List Fields) (steps : Texts)
    → IsText summary
    → IsText cause
    → IsConfidence level
    → HasStep steps
    → validate_report (txt "agent.log_analyzer") (report summary cause evidence level steps) ≡ none
unfolding validate_report check_texts check_confidence check_evidence check_next_steps text_of
    lookup text_eq is_level
report-accepted summary cause level evidence steps (c, s, es) (d, r, er) known (t, rest, e) =
    elim known [
      | inl low ↦ rw (es, er, low, e)
      | inr (inl medium) ↦ rw (es, er, medium, e)
      | inr (inr high) ↦ rw (es, er, high, e)
    ]

root_cause-IsText : (best : Text × ℕ) → IsText (root_cause best)
unfolding root_cause
root_cause-IsText best = elim (Bool-cases (text_eq best.0 [])) [
  | inl nothing ↦ rw (nothing, root_cause) (_, _, refl)
  | inr known ↦ rw (known, root_cause) (_, _, refl)
]

confidence-known : (n : Counts) (top : ℕ) (total : ℤ) → IsConfidence (confidence n top total)
unfolding confidence
confidence-known n top total = elim (Bool-cases (ltb 0 n.panics || leb 3 top)) [
  | inl high ↦ rw high (inr (inr refl))
  | inr other ↦ elim (Bool-cases (at_most_two total)) [
    | inl low ↦ rw (other, low) (inl refl)
    | inr medium ↦ rw (other, medium) (inr (inl refl))
  ]
]

step_if-HasStep :
    (n : ℕ) (step : Text) (rest : Texts) → HasStep rest → HasStep (step_if n step rest)
step_if-HasStep zero step rest h = h
step_if-HasStep (suc n) step rest h = (step, rest, refl)

next_steps-HasStep : (n : Counts) → HasStep (next_steps n)
unfolding next_steps
next_steps-HasStep n =
    step_if-HasStep n.panics _ _
      (step_if-HasStep n.errors _ _ (step_if-HasStep n.warnings _ _ (_, _, refl)))

error_summary-IsText : (n : Counts) (files : ℕ) → IsText (error_summary n files)
unfolding error_summary
error_summary-IsText n files = (_, _, refl)

module _ (range : List (Text × ℕ) → List (Text × ℕ)) (sort : List Evidence → List Evidence) where
  report_on-accepted :
      (evidence : List Evidence) (files : ℕ) (total : ℤ)
      → validate_report (txt "agent.log_analyzer") (report_on range sort evidence files total)
        ≡ none
  unfolding report_on
  report_on-accepted evidence files total =
      let n = count_evidence evidence no_counts in
      let best = top_of range sort evidence in
      let level = confidence-known n best.1 total in
      report-accepted _ _ _ _ _ (error_summary-IsText n files) (root_cause-IsText best) level
        (next_steps-HasStep n)

  all_clear-accepted : validate_report (txt "agent.log_analyzer") all_clear ≡ none
  unfolding validate_report check_texts check_confidence check_evidence check_next_steps text_of
      lookup text_eq is_level
  all_clear-accepted = refl

  -- Whatever its input, the order of its map and the sorting of its evidence, the report of the log
  -- analyzer passes the report validator.
  pub analyze-accepted :
      (input : Fields)
      → validate_report (txt "agent.log_analyzer") (analyze range sort input) ≡ none
  unfolding analyze
  analyze-accepted input = elim (List-cases (maps_at (txt "findings") input)) [
    | inl nothing ↦ rw (nothing, analyze) all_clear-accepted
    | inr (f, findings, found) ↦ elim (Bool-cases (is_zeroℤ (int_at (txt "total_matches") input))) [
      | inl none_matched ↦ rw (found, analyze, none_matched) all_clear-accepted
      | inr matched ↦
          rw (found, analyze, matched)
            (report_on-accepted (all_evidence (f ∷ findings)) (length (f ∷ findings))
              (int_at (txt "total_matches") input))
    ]
  ]
