-- ===== src/Llm/Schema/Conforms.antt =====
-- What llm/schema.go accepts.
use agent_orchestrator_go.Base.{
  ℕ, suc, Bool, true, false, not, ◌≡◌, refl, sym, ◌∙◌, subst, ◌⊎◌, ◌↔◌, inl, inr, List, [], ◌∷◌,
  ◌++◌, Option, some, none, Text, txt, text_eq_iff, decimal, ok, arith, All, trim_space, Bool-cases,
  Option-cases, Result-cases, some-eq, ok-injective,
}
use agent_orchestrator_go.Llm.Schema.{
  JsonValue, json_null, json_bool, json_number, json_array, JsonValues, no_element, element,
  JsonMembers, JsonDecoder, SchemaFieldType, field_string, field_number, field_bool, field_object,
  field_array, SchemaField, Schema, ValidationError, violation_if, as_string, is_number, is_bool,
  as_object, as_array, is_none, check_string, check_type, member_of, check_field, check_fields,
  validate_object, validate_elements, validate_array, validate_json, field_path,
}
use agent_orchestrator_go.Llm.Schema.Instance.{
  HasMembers, HasElements, HasString, IsAllowed, HasType, HasField, Conforms, AllConform,
  IsFilledArray, IsInstance,
}

as_object_iff : (v : JsonValue) (m : JsonMembers) → (as_object v ≡ some m) ↔ HasMembers v m
unfolding as_object
as_object_iff v m = ground arith

as_array_iff : (v : JsonValue) (vs : JsonValues) → (as_array v ≡ some vs) ↔ HasElements v vs
unfolding as_array
as_array_iff v vs = ground arith

as_string_iff : (v : JsonValue) (s : Text) → (as_string v ≡ some s) ↔ HasString v s
unfolding as_string
as_string_iff v s = ground arith

violation_if_iff :
    (b : Bool) (path message : Text) → (violation_if b path message ≡ []) ↔ (b ≡ false)
violation_if_iff true path message = (λ h. cc, λ h. cc)
violation_if_iff false path message = (λ h. refl, λ h. refl)

append-eq-nil : (xs ys : List ValidationError) → (xs ++ ys ≡ []) ↔ ((xs ≡ []) × (ys ≡ []))
append-eq-nil [] ys = (λ h. (refl, h), λ h. h.1)
append-eq-nil (x ∷ xs) ys = (λ h. cc, λ h. cc (h.0))

check_string_iff :
    (s : Text) (f : SchemaField) (path : Text) → (check_string s f path ≡ []) ↔ IsAllowed f s
unfolding check_string
check_string_iff s f path = ground (arith, text_eq_iff s [])

is_none_iff {ℓ} : {A : Type ℓ} (o : Option A) → (is_none o ≡ false) ↔ ((a : A) × (o ≡ some a))
is_none_iff none = (λ h. cc, λ h. cc (h.1))
is_none_iff (some a) = (λ h. (a, refl), λ h. refl)

true≢false : true ≡ false → ⊥
true≢false h = cc

module _ (d : JsonDecoder) where
  is_number_iff :
      (v : JsonValue)
      → (is_number d v ≡ true)
        ↔ (((n : Text) × (v ≡ json_number n) × (d.fits_float n ≡ true)) ⊎ (v ≡ json_null))
  unfolding is_number
  is_number_iff (json_number n) =
      (λ h. inl (n, refl, h), elim [ inl (m, e, fits) ↦ ground (arith, e, fits) | inr e ↦ cc ])
  is_number_iff json_null = (λ h. inr refl, λ h. refl)
  is_number_iff _ = (λ h. cc, elim [ inl (m, e, fits) ↦ cc | inr e ↦ cc ])

  is_bool_iff :
      (v : JsonValue) → (is_bool v ≡ true) ↔ (((b : Bool) × (v ≡ json_bool b)) ⊎ (v ≡ json_null))
  unfolding is_bool
  is_bool_iff (json_bool b) = (λ h. inl (b, refl), λ h. refl)
  is_bool_iff json_null = (λ h. inr refl, λ h. refl)
  is_bool_iff _ = (λ h. cc, elim [ inl (m, e) ↦ cc | inr e ↦ cc ])

  not_iff : (b : Bool) → (not b ≡ false) ↔ (b ≡ true)
  not_iff b = ground arith

  check_type_iff :
      (v : JsonValue) (f : SchemaField) (t : SchemaFieldType) (path : Text)
      → (check_type d v f t path ≡ []) ↔ HasType d f t v
  unfolding check_type
  check_type_iff v f field_string path = elim (Option-cases (as_string v)) [
    | inl lost ↦
        rw (lost, check_type) (λ h. cc, λ (s, has, rest). cc (lost, (as_string_iff v s).1 has))
    | inr (s, found) ↦
        let allowed = check_string_iff s f path in
        rw (found, check_type)
          (
            λ h. (s, (as_string_iff v s).0 found, allowed.0 h),
            λ (u, has, rest).
                allowed.1
                  (subst (IsAllowed f) (some-eq (sym ((as_string_iff v u).1 has) ∙ found)) rest),
          )
  ]
  check_type_iff v f field_number path =
      let shown = violation_if_iff (not (is_number d v)) path (txt "expected number") in
      (
        λ h. (is_number_iff v).0 ((not_iff _).0 (shown.0 h)),
        λ h. shown.1 ((not_iff _).1 ((is_number_iff v).1 h)),
      )
  check_type_iff v f field_bool path =
      let shown = violation_if_iff (not (is_bool v)) path (txt "expected bool") in
      (
        λ h. (is_bool_iff v).0 ((not_iff _).0 (shown.0 h)),
        λ h. shown.1 ((not_iff _).1 ((is_bool_iff v).1 h)),
      )
  check_type_iff v f field_object path =
      let shown = violation_if_iff (is_none (as_object v)) path (txt "expected object") in
      let there = is_none_iff (as_object v) in
      (
        λ h. (let (m, e) = there.0 (shown.0 h) in (m, (as_object_iff v m).0 e)),
        λ (m, e). shown.1 (there.1 (m, (as_object_iff v m).1 e)),
      )
  check_type_iff v f field_array path =
      let shown = violation_if_iff (is_none (as_array v)) path (txt "expected array") in
      let there = is_none_iff (as_array v) in
      (
        λ h. (let (m, e) = there.0 (shown.0 h) in (m, (as_array_iff v m).0 e)),
        λ (m, e). shown.1 (there.1 (m, (as_array_iff v m).1 e)),
      )

  check_field_iff :
      (obj : JsonMembers) (prefix : Text) (f : SchemaField)
      → (check_field d obj prefix f ≡ []) ↔ HasField d obj f
  unfolding check_field
  check_field_iff obj prefix f = elim (Option-cases (member_of f.name obj)) [
    | inl absent ↦
        let shown =
          violation_if_iff f.required (field_path prefix f) (txt "required field missing") in
        rw (absent, check_field)
          (
            λ h. inr (refl, shown.0 h),
            elim [ inl (v, found, typed) ↦ cc | inr (e, optional) ↦ shown.1 optional ],
          )
    | inr (v, found) ↦
        let typed = check_type_iff v f f.field_type (field_path prefix f) in
        rw (found, check_field)
          (
            λ h. inl (v, refl, typed.0 h),
            elim [
              | inl (w, other, h) ↦
                  typed.1 (subst (HasType d f f.field_type) (some-eq (sym other)) h)
              | inr (lost, optional) ↦ cc
            ],
          )
  ]

  check_fields_iff :
      (obj : JsonMembers) (prefix : Text) (fields : List SchemaField)
      → (check_fields d obj prefix fields ≡ []) ↔ All (HasField d obj) fields
  unfolding check_fields
  check_fields_iff obj prefix [] = (λ _. tt, λ _. refl)
  check_fields_iff obj prefix (f ∷ fields) =
      let parts = append-eq-nil (check_field d obj prefix f) (check_fields d obj prefix fields) in
      let here = check_field_iff obj prefix f in
      let later = check_fields_iff obj prefix fields in
      (λ h. (here.0 (parts.0 h).0, later.0 (parts.0 h).1), λ h. parts.1 (here.1 h.0, later.1 h.1))

  validate_object_iff :
      (fields : List SchemaField) (v : JsonValue) (prefix : Text)
      → (validate_object d fields v prefix ≡ []) ↔ Conforms d fields v
  unfolding validate_object
  validate_object_iff fields v prefix = elim (Option-cases (as_object v)) [
    | inl lost ↦
        rw (lost, validate_object) (λ h. cc, λ (m, has, rest). cc (lost, (as_object_iff v m).1 has))
    | inr (obj, found) ↦
        let each = check_fields_iff obj prefix fields in
        rw (found, validate_object)
          (
            λ h. (obj, (as_object_iff v obj).0 found, each.0 h),
            λ (m, has, rest). each.1 (
                subst (λ o. All (HasField d o) fields)
                  (some-eq (sym ((as_object_iff v m).1 has) ∙ found)) rest),
          )
  ]

  validate_elements_iff :
      (fields : List SchemaField) (i : ℕ) (vs : JsonValues)
      → (validate_elements d fields i vs ≡ []) ↔ AllConform d fields vs
  unfolding validate_elements
  validate_elements_iff fields i no_element = (λ _. tt, λ _. refl)
  validate_elements_iff fields i (element v vs) =
      let parts = append-eq-nil _ _ in
      let here = validate_object_iff fields v (txt "[" ++ (decimal i ++ txt "]")) in
      let later = validate_elements_iff fields (suc i) vs in
      (λ h. (here.0 (parts.0 h).0, later.0 (parts.0 h).1), λ h. parts.1 (here.1 h.0, later.1 h.1))

  validate_array_iff :
      (fields : List SchemaField) (v : JsonValue)
      → (validate_array d fields v ≡ []) ↔ IsFilledArray d fields v
  unfolding validate_array as_array
  validate_array_iff fields (json_array (element w ws)) =
      let each = validate_elements_iff fields 0 (element w ws) in
      (
        λ h. (w, ws, refl, each.0 h),
        λ (x, xs, e, rest). each.1 (subst (AllConform d fields) (elements_eq e) rest),
      )
    where
      elements_eq : {a b : JsonValues} → json_array a ≡ json_array b → b ≡ a
      elements_eq e = cc
  validate_array_iff fields _ = (λ h. cc, λ (w, ws, e, rest). cc (e))

  -- A text has no violation of a schema exactly where it is JSON, and is an instance: for a
  -- schema of arrays, an array of at least one element, each of which is an object with the
  -- fields, their types and their values as the schema has them; otherwise one such object. Null
  -- stands for an object without fields, and has every type, required fields included, but for a
  -- text that is required or has allowed values without the empty one.
  pub validate_json_iff :
      (s : Schema) (data_text : Text)
      → (validate_json d s data_text ≡ [])
        ↔ ((v : JsonValue) × (d.decode (trim_space data_text) ≡ ok v) × IsInstance d s v)
  unfolding validate_json
  validate_json_iff s data_text = elim (Result-cases (d.decode (trim_space data_text))) [
    | inr (e, broken) ↦ rw (broken, validate_json) (λ h. cc, λ (v, decoded, rest). cc)
    | inl (v, decoded) ↦ elim (Bool-cases s.is_array) [
      | inl array ↦
          let elements = validate_array_iff s.fields v in
          rw (decoded, validate_json, array)
            (
              λ h. (v, refl, inl (refl, elements.0 h)),
              λ (w, same, rest). elements.1 (
                  subst (IsFilledArray d s.fields) (ok-injective (sym same)) (elim rest [
                    | inl filled ↦ filled.1
                    | inr other ↦ absurd (true≢false other.0)
                  ])),
            )
      | inr object ↦
          let fields = validate_object_iff s.fields v [] in
          rw (decoded, validate_json, object)
            (
              λ h. (v, refl, inr (refl, fields.0 h)),
              λ (w, same, rest). fields.1 (
                  subst (Conforms d s.fields) (ok-injective (sym same)) (elim rest [
                    | inl filled ↦ absurd (true≢false (sym filled.0))
                    | inr conforms ↦ conforms.1
                  ])),
            )
    ]
  ]
