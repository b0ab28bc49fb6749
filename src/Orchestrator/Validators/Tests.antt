-- ===== src/Orchestrator/Validators/Tests.antt =====
-- A report that the validators accept.
use agent_orchestrator_go.Base.{ℕ, ◌≡◌, refl, ◌↔◌, [], ◌∷◌, some, none, txt, text_eq, All}
use agent_orchestrator_go.Value.{
  Fields, str, strings, array, text, no_text, no_value, field, end, lookup,
}
use agent_orchestrator_go.Orchestrator.Validators.{
  Validator, validate_all, validate_report, check_texts, check_confidence, check_evidence,
  check_next_steps, text_of, is_level,
}
use agent_orchestrator_go.Orchestrator.Validators.Complete.{
  IsReport, validate_all_iff, validate_report-IsReport,
}

abbrev small_report : Fields
small_report = field (txt "error_summary") (str (txt "timeouts")) (
    field (txt "suspected_root_cause") (str (txt "network")) (
      field (txt "confidence_level") (str (txt "Low")) (
        field (txt "supporting_evidence") (array no_value)
          (field (txt "suggested_next_steps") (strings (text (txt "retry") no_text)) end))))

small_report-accepted : validate_report (txt "agent.log_analyzer") small_report ≡ none
unfolding validate_report check_texts check_confidence check_evidence check_next_steps text_of
    is_level lookup text_eq
small_report-accepted = refl

validate_report-IsReport_example : IsReport small_report
validate_report-IsReport_example = validate_report-IsReport small_report small_report-accepted

abbrev report_validator : Validator ℕ
report_validator id output s = validate_report id output

abbrev refusing_validator : Validator ℕ
refusing_validator id output s = some (txt "refused")

validate_all_iff_example :
    (validate_all
        (report_validator ∷ refusing_validator ∷ [])
        (txt "agent.log_analyzer")
        small_report
        0
      ≡ none)
    ↔ All
        (λ (v : Validator ℕ). v (txt "agent.log_analyzer") small_report 0 ≡ none)
        (report_validator ∷ refusing_validator ∷ [])
validate_all_iff_example =
    validate_all_iff (report_validator ∷ refusing_validator ∷ []) (txt "agent.log_analyzer")
      small_report 0
