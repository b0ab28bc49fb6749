-- ===== src/Repair/Corrector.antt =====
-- repair/input_corrector.go: the correction of an input, and the strategy that uses it.
mod Tests
use mathlib.Core.List.{reverse}
use agent_orchestrator_go.Base.{
  ℕ, zero, suc, ◌+◌, pos, Bool, true, false, not, ◌&&◌, ◌||◌, List, [], ◌∷◌, ◌++◌, map, Option,
  none, some, Text, txt, text_eq, contains, index, take, drop, ltb, ◌==◌, trim_space, byte_length,
  take_bytes, if◌then◌else◌, ◌≡◌, refl, sym, ap, ◌∙◌,
}
use agent_orchestrator_go.Value.{
  Value, null, int, str, array, bool, Values, no_value, value, Fields, nil_map, end, field, lookup,
  insert, overlay,
}
use agent_orchestrator_go.Failure.{FailureEvent}
use agent_orchestrator_go.Repair.{
  RepairPlan, plain_action, modify_input, abort, new_repair_plan, add_action, with_reasoning,
}
use agent_orchestrator_go.Repair.Strategies.{can_correct}

-- What stands before the separator, or all.
unfoldable pub before : Text → Text → Text
before sep s = elim (index sep s) [ none ↦ s | some i ↦ take i s ]

-- `strings.Split(s, "field:")[1]`, where there is one.
unfoldable pub second_part : Text → Option Text
unfolding before
second_part s = elim (index (txt "field:") s) [
  | none ↦ none
  | some i ↦ some (before (txt "field:") (drop (i + 6) s))
]

-- `strings.Trim(s, "\"'")`
unfoldable pub trim_quotes_left : Text → Text
trim_quotes_left [] = []
trim_quotes_left (c ∷ s) =
    let rest = trim_quotes_left s in if (c == b'"') || (c == b'\'') then rest else c ∷ s

unfoldable pub trim_quotes : Text → Text
unfolding trim_quotes_left
trim_quotes s = reverse (trim_quotes_left (reverse (trim_quotes_left s)))

-- `input[k] == nil`
abbrev pub is_nil : Option Value → Bool
is_nil none = true
is_nil (some null) = true
is_nil (some _) = false

abbrev pub is_nil_or_blank : Option Value → Bool
is_nil_or_blank (some (str t)) = text_eq t []
is_nil_or_blank o = is_nil o

-- The name of a field in what follows `field:`.
unfoldable pub field_name : Text → Text
unfolding before trim_quotes
field_name part = trim_quotes (trim_space (before (txt " ") part))

abbrev pub add_field : Option Text → Fields → Fields
add_field none input = input
add_field (some part) input =
    if not (text_eq (field_name part) []) && is_nil (lookup (field_name part) input)
    then insert (field_name part) (str []) input
    else input

-- `addMissingFields`
unfoldable pub add_missing_fields : Fields → Text → Fields
unfolding second_part field_name
add_missing_fields input message = add_field (second_part message) input

abbrev pub fixed_value : Text → Text → Value → Value
fixed_value message k (str t) =
    if contains k message && contains (txt "number") message then int (pos 0) else str t
fixed_value message k v = v

-- `fixFormatIssues`
unfoldable pub fix_format_issues : Fields → Text → Fields
fix_format_issues nil_map message = nil_map
fix_format_issues end message = end
fix_format_issues (field k v input) message =
    field k (fixed_value message k v) (fix_format_issues input message)

-- `arr[:10]`, which is the whole of a shorter one.
unfoldable pub first_values : ℕ → Values → Values
first_values zero vs = no_value
first_values (suc n) no_value = no_value
first_values (suc n) (value v vs) = value v (first_values n vs)

abbrev pub reduced_value : Value → Value
reduced_value (str t) = if ltb 100 (byte_length t) then str (take_bytes 100 t) else str t
reduced_value (array vs) = array (first_values 10 vs)
reduced_value v = v

-- `reduceSizes`
unfoldable pub reduce_sizes : Fields → Fields
unfolding first_values
reduce_sizes nil_map = nil_map
reduce_sizes end = end
reduce_sizes (field k v input) = field k (reduced_value v) (reduce_sizes input)

abbrev pub add_default : Text → Value → Fields → Fields
add_default k v input = if is_nil_or_blank (lookup k input) then insert k v input else input

-- `addDefaults`; the keys differ, so that any order gives the same values.
unfoldable pub add_defaults : Fields → Fields
add_defaults input = add_default (txt "id") (str (txt "default")) (
    add_default (txt "page") (int (pos 1))
      (add_default (txt "offset") (int (pos 0)) (add_default (txt "limit") (int (pos 10)) input)))

-- The `switch` of `CorrectInput`, on the error in lower case.
unfoldable pub correct_by : Text → Fields → Fields
unfolding add_missing_fields fix_format_issues reduce_sizes add_defaults
correct_by message input =
    if contains (txt "missing") message && contains (txt "required") message
    then add_missing_fields input message
    else if contains (txt "invalid format") message
    then fix_format_issues input message
    else if contains (txt "too large") message || contains (txt "too long") message
    then reduce_sizes input
    else if contains (txt "empty") message || contains (txt "null") message
    then add_defaults input
    else input

-- `CorrectInput`, with Unicode's table of lower-case letters.
unfoldable pub correct_input : (ℕ → ℕ) → FailureEvent → Fields → Fields
unfolding correct_by
correct_input lower f input =
    insert (txt "__correction_reason__") (str f.error) (
      insert (txt "__corrected__") (bool true) (correct_by (map lower f.error) (overlay end input)))

-- `InputModificationStrategy.CreateRepairPlan`
unfoldable pub input_modification_plan : (ℕ → ℕ) → Fields → FailureEvent → RepairPlan
unfolding correct_input can_correct new_repair_plan add_action with_reasoning
input_modification_plan lower base_input f =
    if can_correct f
    then with_reasoning (txt "correcting input based on error: " ++ f.error) (
        add_action
          (record (plain_action modify_input f.step_index) {
            agent_id = f.agent_id;
            modified_input = correct_input lower f base_input;
          })
          (new_repair_plan f))
    else with_reasoning (txt "input correction not applicable")
        (add_action (plain_action abort f.step_index) (new_repair_plan f))
