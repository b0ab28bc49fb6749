-- ===== src/Value/Read.antt =====
-- How the agents, the validators and the metrics read maps: type assertions that fall back to the
-- zero value.
use agent_orchestrator_go.Base.{
  ℕ, ℤ, pos, Bool, true, false, List, [], ◌∷◌, ◌++◌, Option, some, Text, txt, join, decimalℤ,
}
use agent_orchestrator_go.Value.{
  Value, bool, int, float, str, strings, array, maps, object, Texts, no_text, text, Values,
  no_value, value, Maps, no_map, one_map, Fields, lookup,
}

-- `v, _ := x.(string)`
unfoldable pub string_or_empty : Option Value → Text
string_or_empty (some (str t)) = t
string_or_empty _ = []

-- `v, _ := m[key].(string)`
unfoldable pub string_at : Text → Fields → Text
unfolding string_or_empty
string_at k m = string_or_empty (lookup k m)

unfoldable pub int_or_zero : Option Value → ℤ
int_or_zero (some (int n)) = n
int_or_zero _ = pos 0

-- `v, _ := m[key].(int)`
unfoldable pub int_at : Text → Fields → ℤ
unfolding int_or_zero
int_at k m = int_or_zero (lookup k m)

unfoldable pub bool_or_false : Option Value → Bool
bool_or_false (some (bool b)) = b
bool_or_false _ = false

-- `v, _ := m[key].(bool)`
unfoldable pub bool_at : Text → Fields → Bool
unfolding bool_or_false
bool_at k m = bool_or_false (lookup k m)

abbrev pub map_list : Maps → List Fields
map_list no_map = []
map_list (one_map m ms) = m ∷ map_list ms

-- The maps among the elements of a `[]any`.
abbrev pub objects_in : Values → List Fields
objects_in no_value = []
objects_in (value (object m) vs) = m ∷ objects_in vs
objects_in (value _ vs) = objects_in vs

-- The maps of a `[]map[string]any`, or of a `[]any`; of anything else none.
unfoldable pub maps_of : Option Value → List Fields
maps_of (some (maps ms)) = map_list ms
maps_of (some (array vs)) = objects_in vs
maps_of _ = []

unfoldable pub maps_at : Text → Fields → List Fields
unfolding maps_of
maps_at k m = maps_of (lookup k m)

abbrev pub text_list : Texts → List Text
text_list no_text = []
text_list (text t ts) = t ∷ text_list ts

-- `fmt.Sprintf("%v", v)` of a value that holds no map and no `[]any`, with the print of a `float64`
-- as a parameter.
unfoldable pub plain_text : (ℕ → Text) → Value → Text
plain_text show_float (bool true) = txt "true"
plain_text show_float (bool false) = txt "false"
plain_text show_float (int n) = decimalℤ n
plain_text show_float (float bits) = show_float bits
plain_text show_float (str t) = t
plain_text show_float (strings ts) = txt "[" ++ (join (txt " ") (text_list ts) ++ txt "]")
plain_text show_float _ = txt "<nil>"
