-- ===== src/Llm/Guardrails.antt =====
-- llm/guardrails.go: what a response of a language model must pass.
pub mod Extract
use agent_orchestrator_go.Base.{
  ℕ, suc, ◌+◌, Bool, true, false, not, ◌&&◌, List, [], ◌∷◌, ◌++◌, map, Option, some, none, Text,
  txt, text_eq, has_prefix, contains, decimal, ltb, if◌then◌else◌, take, drop, index, last_index,
  join, trim_space,
}
use agent_orchestrator_go.Llm.{Response}
use agent_orchestrator_go.Llm.Schema.{JsonDecoder, Schema, error_text, validate_json}

-- The concrete guardrails, and any other implementation of the interface.
pub data Guardrail : Type 0 where
  max_token_guardrail : (limit : ℕ) → Guardrail
  empty_response_guardrail : Guardrail
  json_guardrail : Schema → Guardrail
  blocked_content_guardrail : (phrases : List Text) → Guardrail
  other_guardrail : (Response → Option Text) → Guardrail

abbrev pub fence : Text
fence = txt "```"

-- `if idx := strings.Index(s[3:], "\n"); idx >= 0 { s = s[3+idx+1:] }`
unfoldable pub drop_fence_line : Text → Text
drop_fence_line s = elim (index (10 ∷ []) (drop 3 s)) [ none ↦ s | some i ↦ drop (3 + i + 1) s ]

-- `if idx := strings.LastIndex(s, fence); idx >= 0 { s = s[:idx] }`
unfoldable pub cut_last_fence : Text → Text
cut_last_fence s = elim (last_index fence s) [ none ↦ s | some i ↦ take i s ]

unfoldable pub strip_fences : Text → Text
unfolding drop_fence_line cut_last_fence
strip_fences s = if has_prefix fence s then trim_space (cut_last_fence (drop_fence_line s)) else s

-- Where the JSON begins, and the character that ends it.
unfoldable pub json_start : Text → Option (ℕ × ℕ)
json_start s = elim (index (b'[' ∷ []) s) [
  | none ↦ elim (index (b'{' ∷ []) s) [ none ↦ none | some j ↦ some (j, b'}') ]
  | some i ↦ elim (index (b'{' ∷ []) s) [
    | none ↦ some (i, b']')
    | some j ↦ if ltb i j then some (i, b']') else some (j, b'}')
  ]
]

-- `s[start : end+1]`, unless the end is missing or stands before the start.
unfoldable pub cut_between : Text → ℕ → Option ℕ → Text
cut_between s start none = s
cut_between s start (some last) = if ltb last start then s else drop start (take (last + 1) s)

unfoldable pub cut_json : Text → Text
unfolding json_start cut_between
cut_json s = elim (json_start s) [
  | none ↦ s
  | some (start, end_char) ↦ cut_between s start (last_index (end_char ∷ []) s)
]

-- `extractJSON`
unfoldable pub extract_json : Text → Text
unfolding strip_fences cut_json
extract_json s = cut_json (strip_fences (trim_space s))

unfoldable pub contains_phrase : (ℕ → ℕ) → Text → List Text → Bool
contains_phrase lower content [] = false
contains_phrase lower content (p ∷ phrases) =
    let rest = contains_phrase lower content phrases in
    if contains (map lower p) content then true else rest

abbrev pub schema_error : List Text → Option Text
schema_error [] = none
schema_error (m ∷ messages) =
    some (txt "guardrail: schema validation failed: " ++ join (txt "; ") (m ∷ messages))

-- `Check`, with Unicode's table of lower-case letters.
unfoldable pub check_guardrail : JsonDecoder → (ℕ → ℕ) → Guardrail → Response → Option Text
unfolding extract_json contains_phrase
check_guardrail d lower (max_token_guardrail limit) resp =
    if ltb limit resp.output_tokens
    then some (
        txt "guardrail: response used "
        ++ (decimal resp.output_tokens ++ (txt " tokens, limit is " ++ decimal limit)))
    else none
check_guardrail d lower empty_response_guardrail resp =
    if text_eq (trim_space resp.content) []
    then some (txt "guardrail: LLM returned empty response")
    else none
check_guardrail d lower (json_guardrail schema) resp =
    schema_error (map error_text (validate_json d schema (extract_json resp.content)))
check_guardrail d lower (blocked_content_guardrail phrases) resp =
    if contains_phrase lower (map lower resp.content) phrases
    then some (txt "guardrail: response contains blocked content")
    else none
check_guardrail d lower (other_guardrail test) resp = test resp

-- `GuardrailChain.Check`: the first violation.
unfoldable pub check_chain : JsonDecoder → (ℕ → ℕ) → List Guardrail → Response → Option Text
unfolding check_guardrail
check_chain d lower [] resp = none
check_chain d lower (g ∷ guards) resp =
    let rest = check_chain d lower guards resp in
    elim (check_guardrail d lower g resp) [ some e ↦ some e | none ↦ rest ]
