-- ===== src/Llm/Schema.antt =====
-- llm/schema.go: the check of a JSON text against a schema.
pub mod Instance
pub mod Conforms
use agent_orchestrator_go.Base.{
  ℕ, suc, Bool, true, false, not, ◌&&◌, ◌||◌, List, [], ◌∷◌, ◌++◌, Option, some, none, Text, txt,
  text_eq, decimal, if◌then◌else◌, Result, ok, err, quote, join, trim_space, member,
}

-- `ElementsOf` and `MembersOf` hold the raw values of an array and of an object, with one member for
-- each name.
mutual
  pub data JsonValue : Type 0 where
    json_null : JsonValue
    json_bool : Bool → JsonValue
    json_number : Text → JsonValue
    json_string : Text → JsonValue
    json_array : JsonValues → JsonValue
    json_object : JsonMembers → JsonValue

  pub data JsonValues : Type 0 where
    no_element : JsonValues
    element : JsonValue → JsonValues → JsonValues

  pub data JsonMembers : Type 0 where
    no_member : JsonMembers
    json_member : Text → JsonValue → JsonMembers → JsonMembers

-- What the schema uses of package encoding/json: the value of a text, whether a `float64` can hold a
-- number, and the message of `Unmarshal` where a value does not fit the Go type.
pub record JsonDecoder : Type 0 where
  pub decode : Text → Result JsonValue
  pub fits_float : Text → Bool
  pub mismatch : JsonValue → Text → Text

pub data SchemaFieldType : Type 0 where
  field_string field_number field_bool field_object field_array : SchemaFieldType

pub record SchemaField : Type 0 where
  pub name : Text
  pub field_type : SchemaFieldType
  pub required : Bool
  pub allowed_values : List Text

pub record Schema : Type 0 where
  pub name : Text
  pub is_array : Bool
  pub fields : List SchemaField

pub record ValidationError : Type 0 where
  pub path : Text
  pub message : Text

-- `ValidationError.Error`
unfoldable pub error_text : ValidationError → Text
error_text e = if text_eq e.path [] then e.message else e.path ++ (txt ": " ++ e.message)

abbrev pub violation : Text → Text → List ValidationError
violation path message = record { path = path; message = message } ∷ []

abbrev pub violation_if : Bool → Text → Text → List ValidationError
violation_if true path message = violation path message
violation_if false path message = []

-- `Unmarshal` of a value into a Go type; `null` leaves the zero value and is no error.
unfoldable pub as_string : JsonValue → Option Text
as_string (json_string s) = some s
as_string json_null = some []
as_string _ = none

unfoldable pub is_number : JsonDecoder → JsonValue → Bool
is_number d (json_number n) = d.fits_float n
is_number d json_null = true
is_number d _ = false

unfoldable pub is_bool : JsonValue → Bool
is_bool (json_bool _) = true
is_bool json_null = true
is_bool _ = false

unfoldable pub as_object : JsonValue → Option JsonMembers
as_object (json_object m) = some m
as_object json_null = some no_member
as_object _ = none

unfoldable pub as_array : JsonValue → Option JsonValues
as_array (json_array vs) = some vs
as_array json_null = some no_element
as_array _ = none

abbrev pub is_none {ℓ} : {A : Type ℓ} → Option A → Bool
is_none none = true
is_none (some _) = false

abbrev pub is_empty : List Text → Bool
is_empty [] = true
is_empty (t ∷ ts) = false

-- `checkType` on a text.
unfoldable pub check_string : Text → SchemaField → Text → List ValidationError
check_string s f path =
    violation_if (text_eq s [] && f.required) path (txt "required field is empty")
    ++ violation_if (not (is_empty f.allowed_values) && not (member s f.allowed_values)) path (
        txt "value "
        ++ (quote s
            ++ (txt " not in allowed set [" ++ (join (txt " ") f.allowed_values ++ txt "]"))))

-- `checkType`, by the type that is asked for.
unfoldable pub check_type :
    JsonDecoder → JsonValue → SchemaField → SchemaFieldType → Text → List ValidationError
unfolding as_string is_number is_bool as_object as_array check_string
check_type d v f field_string path = elim (as_string v) [
  | none ↦ violation path (txt "expected string")
  | some s ↦ check_string s f path
]
check_type d v f field_number path = violation_if (not (is_number d v)) path (txt "expected number")
check_type d v f field_bool path = violation_if (not (is_bool v)) path (txt "expected bool")
check_type d v f field_object path =
    violation_if (is_none (as_object v)) path (txt "expected object")
check_type d v f field_array path = violation_if (is_none (as_array v)) path (txt "expected array")

-- `obj[name]`
unfoldable pub member_of : Text → JsonMembers → Option JsonValue
member_of k no_member = none
member_of k (json_member j v m) = if text_eq j k then some v else member_of k m

unfoldable pub field_path : Text → SchemaField → Text
field_path prefix f = if text_eq prefix [] then f.name else prefix ++ (txt "." ++ f.name)

unfoldable pub check_field : JsonDecoder → JsonMembers → Text → SchemaField → List ValidationError
unfolding check_type member_of field_path
check_field d obj prefix f = elim (member_of f.name obj) [
  | none ↦ violation_if f.required (field_path prefix f) (txt "required field missing")
  | some v ↦ check_type d v f f.field_type (field_path prefix f)
]

unfoldable pub check_fields :
    JsonDecoder → JsonMembers → Text → List SchemaField → List ValidationError
unfolding check_field
check_fields d obj prefix [] = []
check_fields d obj prefix (f ∷ fields) =
    check_field d obj prefix f ++ check_fields d obj prefix fields

-- `validateObject`, of a value that is decoded.
unfoldable pub validate_object :
    JsonDecoder → List SchemaField → JsonValue → Text → List ValidationError
unfolding check_fields as_object
validate_object d fields v prefix = elim (as_object v) [
  | none ↦ violation prefix (txt "expected JSON object: " ++ d.mismatch v (txt "object"))
  | some obj ↦ check_fields d obj prefix fields
]

-- The loop of `validateArray`, from the `i`-th element on.
unfoldable pub validate_elements :
    JsonDecoder → List SchemaField → ℕ → JsonValues → List ValidationError
unfolding validate_object
validate_elements d fields i no_element = []
validate_elements d fields i (element v vs) =
    validate_object d fields v (txt "[" ++ (decimal i ++ txt "]"))
    ++ validate_elements d fields (suc i) vs

-- `validateArray`, of a value that is decoded.
unfoldable pub validate_array : JsonDecoder → List SchemaField → JsonValue → List ValidationError
unfolding validate_elements as_array
validate_array d fields v = elim (as_array v) [
  | none ↦ violation [] (txt "expected JSON array: " ++ d.mismatch v (txt "array"))
  | some no_element ↦ violation [] (txt "array must contain at least one element")
  | some (element w ws) ↦ validate_elements d fields 0 (element w ws)
]

-- `ValidateJSON`
unfoldable pub validate_json : JsonDecoder → Schema → Text → List ValidationError
unfolding validate_array
validate_json d s data_text = elim (d.decode (trim_space data_text)) [
  | err e ↦
      violation []
        ((if s.is_array then txt "expected JSON array: " else txt "expected JSON object: ") ++ e)
  | ok v ↦ if s.is_array then validate_array d s.fields v else validate_object d s.fields v []
]

abbrev pub optional_field : Text → SchemaFieldType → SchemaField
optional_field name t = record {
  name = name;
  field_type = t;
  required = false;
  allowed_values = [];
}

-- `PlanStepSchema`
abbrev pub plan_step_schema : Schema
plan_step_schema = record {
  name = txt "PlanStep";
  is_array = true;
  fields =
      record {
        name = txt "agent_id";
        field_type = field_string;
        required = true;
        allowed_values = [];
      }
      ∷ optional_field (txt "input") field_object
      ∷ optional_field (txt "metadata") field_object
      ∷ optional_field (txt "step_id") field_string
      ∷ optional_field (txt "depends_on") field_array
      ∷ [];
}
