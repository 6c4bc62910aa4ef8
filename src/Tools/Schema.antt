-- ===== src/Tools/Schema.antt =====
-- rain-engine-core/src/engine.rs: `validate_against_schema` and `json_type_matches`.
pub mod Sound
pub mod Fits
use rain_engine.Prelude.{
  String, Bool, true, false, Option, none, some, List, [], ◌∷◌, ◌++◌, filter_map, str_eq,
  if◌then◌else◌,
}
use rain_engine.Prelude.Text.{concat}
use rain_engine.Host.{Host}

abbrev pub is_some {ℓ} : {A : Type ℓ} → Option A → Bool
is_some none = false
is_some (some a) = true

-- `unwrap_or_default()` on a list
abbrev pub listed {ℓ} : {A : Type ℓ} → Option (List A) → List A
listed none = []
listed (some xs) = xs

module _ (h : Host) where
  unfoldable pub json_type_matches : h.Value → String → Bool
  json_type_matches value expected =
      if str_eq expected "object"
      then is_some (h.as_object value)
      else if str_eq expected "array"
      then is_some (h.as_array value)
      else if str_eq expected "string"
      then h.is_string value
      else if str_eq expected "number"
      then h.is_number value
      else if str_eq expected "integer"
      then h.is_integer value
      else if str_eq expected "boolean"
      then h.is_boolean value
      else if str_eq expected "null"
      then h.is_null value
      else true

  -- `value.get(key).and_then(Value::as_str)`, and the same for an array and for an object
  abbrev pub text_at : String → h.Value → Option String
  text_at key value = elim (h.get_key value key) [ none ↦ none | some v ↦ h.as_str v ]

  abbrev pub array_at : String → h.Value → Option (List h.Value)
  array_at key value = elim (h.get_key value key) [ none ↦ none | some v ↦ h.as_array v ]

  abbrev pub object_at : String → h.Value → Option (List (String × h.Value))
  object_at key value = elim (h.get_key value key) [ none ↦ none | some v ↦ h.as_object v ]

  unfoldable pub missing : h.Value → List String → List String
  missing object [] = []
  missing object (key ∷ keys) =
      let rest = missing object keys in
      if is_some (h.get_key object key)
      then rest
      else concat ("missing required property `" ∷ key ∷ "`" ∷ []) ∷ rest

  -- What is wrong with one property.
  abbrev pub property_error : h.Value → String → h.Value → Option String
  property_error object key property_schema = elim (h.get_key object key) [
    | none ↦ none
    | some v ↦ elim (text_at "type" property_schema) [
      | none ↦ none
      | some type ↦
          if json_type_matches v type
          then none
          else some (concat ("property `" ∷ key ∷ "` expected type `" ∷ type ∷ "`" ∷ []))
    ]
  ]

  abbrev pub object_errors : h.Value → h.Value → List String
  object_errors value schema =
      missing value (filter_map h.as_str (listed (array_at "required" schema)))
      ++ filter_map (λ (p : String × h.Value). property_error value p.0 p.1)
          (listed (object_at "properties" schema))

  -- The errors by the schema's type at the root. The object's own check comes after the one of its
  -- type.
  abbrev pub errors_for : h.Value → h.Value → Option String → List String
  errors_for value schema none = []
  errors_for value schema (some type) =
      if json_type_matches value type
      then if str_eq type "object"
        then if is_some (h.as_object value)
          then object_errors value schema
          else "expected root object" ∷ []
        else []
      else concat ("expected root type `" ∷ type ∷ "`" ∷ []) ∷ []

  unfoldable pub validate_against_schema : h.Value → h.Value → List String
  unfolding json_type_matches missing
  validate_against_schema value schema = errors_for value schema (text_at "type" schema)
