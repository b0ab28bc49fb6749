-- ===== src/Orchestrator/Metrics.antt =====
-- orchestrator/metrics.go: what is measured over stored runs.
pub mod Evaluate
pub mod Repaired
pub mod Bounds
mod Tests
use agent_orchestrator_go.Base.{
  ℕ, suc, ◌-◌, Bool, true, false, not, ◌&&◌, ◌||◌, List, [], ◌∷◌, ◌++◌, map, Option, some, none,
  Text, txt, text_eq, has_prefix, has_suffix, if◌then◌else◌, ok, err, length, take, drop, index,
  fields_of, trim_space,
}
use agent_orchestrator_go.Value.{
  Value, str, array, object, Values, no_value, value, Fields, nil_map, end, field, lookup, insert,
  is_nil_map,
}
use agent_orchestrator_go.Value.Read.{string_at, maps_at}
use agent_orchestrator_go.Tools.{Json}
use agent_orchestrator_go.Tools.Stored.{StoredCall, call_succeeded, call_failed}
use agent_orchestrator_go.Orchestrator.StepExecutor.{
  AgentStep, AgentStepStatus, step_pending, step_succeeded, step_failed,
}
use agent_orchestrator_go.Orchestrator.Grounding.{path_names}

-- `hasString` and `hasField`
unfoldable pub is_string : Option Value → Bool
is_string (some (str t)) = not (text_eq t [])
is_string _ = false

unfoldable pub has_string : Text → Fields → Bool
unfolding is_string
has_string k m = is_string (lookup k m)

abbrev pub is_present : Option Value → Bool
is_present (some _) = true
is_present none = false

unfoldable pub has_field : Text → Fields → Bool
has_field k m = is_present (lookup k m)

-- One token of a map literal; one without a colon is skipped.
unfoldable pub add_token : Text → Fields → Fields
add_token token m = elim (index (txt ":") token) [
  | none ↦ m
  | some i ↦ insert (take i token) (str (drop (suc i) token)) m
]

unfoldable pub add_tokens : List Text → Fields → Fields
unfolding add_token
add_tokens [] m = m
add_tokens (token ∷ tokens) m = add_tokens tokens (add_token token m)

-- `s[4 : len(s)-1]`
abbrev pub inner_text : Text → Text
inner_text s = take (length s - 5) (drop 4 s)

-- `parseGoMapLiteral`
unfoldable pub parse_go_map_literal : Text → Fields
unfolding add_tokens
parse_go_map_literal raw =
    let s = trim_space raw in
    if not (has_prefix (txt "map[") s) || not (has_suffix (txt "]") s)
    then nil_map
    else if text_eq (inner_text s) []
    then end
    else add_tokens (fields_of (inner_text s)) end

-- `parseOutputMap`; nil where there is no map.
unfoldable pub parse_output_map : Json → Text → Fields
unfolding parse_go_map_literal
parse_output_map json raw = elim (json.unmarshal raw) [
  | ok m ↦ m
  | err _ ↦ parse_go_map_literal raw
]

unfoldable pub is_structured : Fields → Bool
unfolding has_string has_field
is_structured output =
    has_string (txt "error_summary") output
    && (has_string (txt "suspected_root_cause") output
        && (has_field (txt "supporting_evidence") output
            && (has_string (txt "confidence_level") output
                && has_field (txt "suggested_next_steps") output)))

abbrev pub is_succeeded : AgentStepStatus → Bool
is_succeeded step_succeeded = true
is_succeeded step_pending = false
is_succeeded step_failed = false

abbrev pub is_failed : AgentStepStatus → Bool
is_failed step_failed = true
is_failed step_pending = false
is_failed step_succeeded = false

-- The output of a step that counts: of one that succeeded, and not nil.
unfoldable pub output_of : Json → AgentStep → Option Fields
unfolding parse_output_map
output_of json s =
    if is_succeeded s.status
    then (if is_nil_map (parse_output_map json s.output)
        then none
        else some (parse_output_map json s.output))
    else none

-- `hasValidStructuredOutput`
unfoldable pub has_valid_structured_output : Json → List AgentStep → Bool
unfolding output_of is_structured
has_valid_structured_output json [] = false
has_valid_structured_output json (s ∷ steps) =
    let rest = has_valid_structured_output json steps in
    elim (output_of json s) [
      | none ↦ rest
      | some output ↦ if is_structured output then true else rest
    ]

-- `appendValues`: the text that it writes, in the order of the entries.
unfoldable mutual
  pub map_text : Fields → Text
  map_text nil_map = []
  map_text end = []
  map_text (field k v m) = entry_text v ++ map_text m

  pub entry_text : Value → Text
  entry_text (str t) = t ++ 10 ∷ []
  entry_text (object m) = map_text m
  entry_text (array vs) = items_text vs
  entry_text _ = []

  pub items_text : Values → Text
  items_text no_value = []
  items_text (value v vs) = item_text v ++ items_text vs

  -- An element of an array; arrays in arrays are left out.
  pub item_text : Value → Text
  item_text (str t) = t ++ 10 ∷ []
  item_text (object m) = map_text m
  item_text _ = []

unfoldable pub is_path_key : Text → Bool
is_path_key k = text_eq k (txt "path") || (text_eq k (txt "file") || has_suffix (txt "_path") k)

-- `appendValues`: the names that it enters in the file set.
unfoldable mutual
  pub map_files : Fields → List Text
  map_files nil_map = []
  map_files end = []
  map_files (field k v m) = entry_files k v ++ map_files m

  pub entry_files : Text → Value → List Text
  entry_files k (str t) = if is_path_key k then path_names t else []
  entry_files k (object m) = map_files m
  entry_files k (array vs) = items_files vs
  entry_files k _ = []

  pub items_files : Values → List Text
  items_files no_value = []
  items_files (value v vs) = item_files v ++ items_files vs

  pub item_files : Value → List Text
  item_files (object m) = map_files m
  item_files _ = []

-- The output of a tool call that counts: of one that succeeded, and that is JSON.
unfoldable pub call_output : Json → StoredCall → Option Fields
call_output json c = elim c.status [
  | call_failed ↦ none
  | call_succeeded ↦ elim (json.unmarshal c.output) [ ok m ↦ some m | err _ ↦ none ]
]

-- `buildToolCallCorpus`
unfoldable pub calls_text : Json → List StoredCall → Text
unfolding call_output
calls_text json [] = []
calls_text json (c ∷ calls) =
    let rest = calls_text json calls in
    elim (call_output json c) [ none ↦ rest | some m ↦ map_text m ++ rest ]

unfoldable pub calls_files : Json → List StoredCall → List Text
unfolding call_output
calls_files json [] = []
calls_files json (c ∷ calls) =
    let rest = calls_files json calls in
    elim (call_output json c) [ none ↦ rest | some m ↦ map_files m ++ rest ]

-- `metricsEvidence`
pub record MetricsEvidence : Type 0 where
  pub file : Text
  pub line : Text

abbrev pub metrics_evidence : Fields → MetricsEvidence
metrics_evidence m = record { file = string_at (txt "file") m; line = string_at (txt "text") m }

-- `extractEvidenceFromOutput`
unfoldable pub extract_evidence : Fields → List MetricsEvidence
extract_evidence output = map metrics_evidence (maps_at (txt "supporting_evidence") output)

-- How many items there are, and how many of them are grounded.
pub record Grounding : Type 0 where
  pub total : ℕ
  pub grounded : ℕ
