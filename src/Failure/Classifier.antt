-- ===== src/Failure/Classifier.antt =====
-- failure/classifier.go: the type of a failure from its message.
use agent_orchestrator_go.Base.{
  Bool, true, false, ◌||◌, Option, none, some, Text, txt, to_lower, contains, if◌then◌else◌, List,
  [], ◌∷◌,
}
use agent_orchestrator_go.Failure.{
  FailureType, validation_failure, tool_failure, agent_failure, unknown_failure,
}

-- Whether the text contains one of the patterns.
abbrev pub contains_any : List Text → Text → Bool
contains_any [] s = false
contains_any (p ∷ ps) s = contains p s || contains_any ps s

abbrev pub validation_words : List Text
validation_words = txt "validation" ∷ txt "invalid" ∷ txt "constraint" ∷ []

abbrev pub tool_words : List Text
tool_words = txt "tool" ∷ txt "execute" ∷ txt "timeout" ∷ []

abbrev pub agent_words : List Text
agent_words = txt "agent" ∷ txt "runtime" ∷ []

unfoldable pub classify : Option Text → FailureType
classify none = unknown_failure
classify (some e) =
    let lower = to_lower e in
    if contains_any validation_words lower
    then validation_failure
    else if contains_any tool_words lower
    then tool_failure
    else if contains_any agent_words lower
    then agent_failure
    else unknown_failure

abbrev pub is_unknown : FailureType → Bool
is_unknown unknown_failure = true
is_unknown _ = false

-- The part of `ClassifyWithContext` that reads the context.
unfoldable pub classify_context : Text → FailureType
classify_context context =
    let lower = to_lower context in
    if contains (txt "validation") lower
    then validation_failure
    else if contains (txt "tool") lower
    then tool_failure
    else if contains (txt "agent") lower
    then agent_failure
    else unknown_failure

unfoldable pub classify_with_context : Option Text → Text → FailureType
unfolding classify classify_context
classify_with_context none context = unknown_failure
classify_with_context (some e) context =
    let t = classify (some e) in if is_unknown t then classify_context context else t
