-- ===== src/Orchestrator/Validators.antt =====
-- orchestrator/validator.go and orchestrator/report_validator.go.
pub mod Complete
mod Tests
use agent_orchestrator_go.Base.{
  quote, Bool, true, false, not, ◌||◌, List, [], ◌∷◌, ◌++◌, Option, some, none, Text, txt, text_eq,
  if◌then◌else◌,
}
use agent_orchestrator_go.Value.{
  Value, null, bool, int, float, str, strings, array, maps, object, Texts, no_text, text, Values,
  no_value, value, Fields, lookup,
}

-- `Validate`: the error, or `none`. A validator may read the state of the run's executor.
abbrev pub Validator : Type 0 → Type 0
Validator S = Text → Fields → S → Option Text

-- `CompositeValidator.Validate`
unfoldable pub validate_all : {S : Type 0} → List (Validator S) → Validator S
validate_all [] id output s = none
validate_all (v ∷ validators) id output s =
    let rest = validate_all validators id output s in
    elim (v id output s) [ some e ↦ some e | none ↦ rest ]

-- `val, ok := v.(string)`, with `!ok || val == ""` as `none`.
unfoldable pub text_of : Option Value → Option Text
text_of none = none
text_of (some (str t)) = if text_eq t [] then none else some t
text_of (some null) = none
text_of (some (bool _)) = none
text_of (some (int _)) = none
text_of (some (float _)) = none
text_of (some (strings _)) = none
text_of (some (array _)) = none
text_of (some (maps _)) = none
text_of (some (object _)) = none

-- `"report validation: %q is required and must be a non-empty string"`
abbrev pub missing_text : Text → Text
missing_text k =
    txt "report validation: " ++ (quote k ++ txt " is required and must be a non-empty string")

-- The loop over the required fields of type string.
unfoldable pub check_texts : List Text → Fields → Option Text
unfolding text_of
check_texts [] output = none
check_texts (k ∷ ks) output =
    let rest = check_texts ks output in
    elim (text_of (lookup k output)) [ none ↦ some (missing_text k) | some _ ↦ rest ]

unfoldable pub is_level : Text → Bool
is_level t = text_eq t (txt "Low") || (text_eq t (txt "Medium") || text_eq t (txt "High"))

unfoldable pub check_confidence : Fields → Option Text
unfolding text_of is_level
check_confidence output = elim (text_of (lookup (txt "confidence_level") output)) [
  | none ↦ some (txt "report validation: \"confidence_level\" is required")
  | some level ↦
      if is_level level
      then none
      else some (
          txt "report validation: \"confidence_level\" must be Low, Medium, or High, got "
          ++ quote level)
]

unfoldable pub check_evidence : Fields → Option Text
check_evidence output = elim (lookup (txt "supporting_evidence") output) [
  | none ↦ some (txt "report validation: \"supporting_evidence\" is required")
  | some _ ↦ none
]

abbrev pub empty_steps : Text
empty_steps = txt "report validation: \"suggested_next_steps\" must not be empty"

abbrev pub no_steps : Text
no_steps = txt "report validation: \"suggested_next_steps\" is required and must be an array"

-- `switch ns := output["suggested_next_steps"].(type)`
unfoldable pub check_next_steps : Option Value → Option Text
check_next_steps none = some no_steps
check_next_steps (some (strings no_text)) = some empty_steps
check_next_steps (some (strings (text _ _))) = none
check_next_steps (some (array no_value)) = some empty_steps
check_next_steps (some (array (value _ _))) = none
check_next_steps (some (str _)) = some no_steps
check_next_steps (some null) = some no_steps
check_next_steps (some (bool _)) = some no_steps
check_next_steps (some (int _)) = some no_steps
check_next_steps (some (float _)) = some no_steps
check_next_steps (some (maps _)) = some no_steps
check_next_steps (some (object _)) = some no_steps

-- `if err := ...; err != nil { return err }`, then the next check.
abbrev pub or_next : Option Text → Option Text → Option Text
or_next (some e) next = some e
or_next none next = next

-- `ReportValidator.Validate`
unfoldable pub validate_report : Text → Fields → Option Text
unfolding check_texts check_confidence check_evidence check_next_steps
validate_report id output =
    if text_eq id (txt "agent.log_analyzer")
    then or_next (check_texts (txt "error_summary" ∷ txt "suspected_root_cause" ∷ []) output) (
        or_next (check_confidence output) (
          or_next (check_evidence output)
            (check_next_steps (lookup (txt "suggested_next_steps") output))))
    else none
