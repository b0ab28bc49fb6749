-- ===== src/Llm/Schema/Instance.antt =====
-- The instances of a schema (llm/schema.go), without reference to how they are checked.
use agent_orchestrator_go.Base.{
  Bool, true, false, ◌≡◌, ◌≢◌, ◌⊎◌, List, [], Text, some, none, All, member,
}
use agent_orchestrator_go.Llm.Schema.{
  JsonValue, json_null, json_bool, json_number, json_string, json_array, json_object, JsonValues,
  no_element, element, JsonMembers, no_member, JsonDecoder, SchemaFieldType, field_string,
  field_number, field_bool, field_object, field_array, SchemaField, Schema, member_of,
}

-- The value is an object with these members, or null, which has none. So for arrays and texts.
abbrev pub HasMembers : JsonValue → JsonMembers → Type 0
HasMembers v m = (v ≡ json_object m) ⊎ ((v ≡ json_null) × (m ≡ no_member))

abbrev pub HasElements : JsonValue → JsonValues → Type 0
HasElements v vs = (v ≡ json_array vs) ⊎ ((v ≡ json_null) × (vs ≡ no_element))

abbrev pub HasString : JsonValue → Text → Type 0
HasString v s = (v ≡ json_string s) ⊎ ((v ≡ json_null) × (s ≡ []))

-- A text that is not empty where it is required, and allowed.
abbrev pub IsAllowed : SchemaField → Text → Type 0
IsAllowed f s =
    ((s ≢ []) ⊎ (f.required ≡ false))
    × ((f.allowed_values ≡ []) ⊎ (member s f.allowed_values ≡ true))

-- The value has the type that the field asks for; null has every type.
abbrev pub HasType : JsonDecoder → SchemaField → SchemaFieldType → JsonValue → Type 0
HasType d f field_string v = (s : Text) × HasString v s × IsAllowed f s
HasType d f field_number v =
    ((n : Text) × (v ≡ json_number n) × (d.fits_float n ≡ true)) ⊎ (v ≡ json_null)
HasType d f field_bool v = ((b : Bool) × (v ≡ json_bool b)) ⊎ (v ≡ json_null)
HasType d f field_object v = (m : JsonMembers) × HasMembers v m
HasType d f field_array v = (vs : JsonValues) × HasElements v vs

-- The field is there with its type, or it is neither there nor required.
abbrev pub HasField : JsonDecoder → JsonMembers → SchemaField → Type 0
HasField d obj f =
    ((v : JsonValue) × (member_of f.name obj ≡ some v) × HasType d f f.field_type v)
    ⊎ ((member_of f.name obj ≡ none) × (f.required ≡ false))

abbrev pub Conforms : JsonDecoder → List SchemaField → JsonValue → Type 0
Conforms d fields v = (m : JsonMembers) × HasMembers v m × All (HasField d m) fields

abbrev pub AllConform : JsonDecoder → List SchemaField → JsonValues → Type 0
AllConform d fields no_element = Unit
AllConform d fields (element v vs) = Conforms d fields v × AllConform d fields vs

-- An array of at least one element, each of which conforms.
abbrev pub IsFilledArray : JsonDecoder → List SchemaField → JsonValue → Type 0
IsFilledArray d fields v =
    (w : JsonValue) × (ws : JsonValues) × (v ≡ json_array (element w ws))
    × AllConform d fields (element w ws)

-- Such an array, or one object that conforms.
abbrev pub IsInstance : JsonDecoder → Schema → JsonValue → Type 0
IsInstance d s v =
    ((s.is_array ≡ true) × IsFilledArray d s.fields v)
    ⊎ ((s.is_array ≡ false) × Conforms d s.fields v)
