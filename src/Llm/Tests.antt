-- ===== src/Llm/Tests.antt =====
-- Examples for package llm.
use agent_orchestrator_go.Base.{
  true, ◌≡◌, refl, ◌↔◌, [], ◌++◌, Text, txt, text_eq, if◌then◌else◌, ok, err, trim_space,
}
use agent_orchestrator_go.Llm.Schema.{
  JsonValue, json_string, json_array, json_object, no_element, element, no_member, json_member,
  JsonDecoder, plan_step_schema, validate_json,
}
use agent_orchestrator_go.Llm.Schema.Instance.{IsInstance}
use agent_orchestrator_go.Llm.Schema.Conforms.{validate_json_iff}

abbrev answer : Text
answer = txt "[{\"agent_id\": \"echo\"}]"

abbrev answer_value : JsonValue
answer_value = json_array (
    element (json_object (json_member (txt "agent_id") (json_string (txt "echo")) no_member))
      no_element)

-- A decoder that reads the one answer.
abbrev answer_decoder : JsonDecoder
answer_decoder = record {
  decode =
      λ t. if text_eq t answer then ok answer_value else err (txt "unexpected end of JSON input");
  fits_float = λ _. true;
  mismatch = λ _ t. txt "cannot unmarshal into " ++ t;
}

validate_json_iff_example : (validate_json answer_decoder plan_step_schema answer ≡ []) ↔ (
    (v : JsonValue) × (answer_decoder.decode (trim_space answer) ≡ ok v)
    × IsInstance answer_decoder plan_step_schema v)
validate_json_iff_example = validate_json_iff answer_decoder plan_step_schema answer

answer_valid : validate_json answer_decoder plan_step_schema answer ≡ []
unfolding validate_json text_eq trim_space
answer_valid = refl
