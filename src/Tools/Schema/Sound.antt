-- ===== src/Tools/Schema/Sound.antt =====
-- rain-engine-core/src/engine.rs: `validate_against_schema` as one Boolean test.
use rain_engine.Prelude.{
  ◌≡◌, refl, arith, inl, inr, String, Bool, true, ◌&&◌, ◌||◌, not, Option, none, some, List, [],
  ◌∷◌, ◌++◌, all, filter_map, str_eq, Option-cases,
}
use rain_engine.Host.{Host}
use rain_engine.Tools.Prepare.{is_empty}
use rain_engine.Tools.Schema.{
  is_some, listed, json_type_matches, text_at, array_at, object_at, missing, property_error,
  object_errors, errors_for, validate_against_schema,
}

module _ (h : Host) where
  -- A property that the value has is of the type that its schema names.
  abbrev pub property_fits : h.Value → String → h.Value → Bool
  property_fits value key schema = elim (h.get_key value key) [
    | none ↦ true
    | some v ↦ elim (text_at h "type" schema) [
      | none ↦ true
      | some type ↦ json_type_matches h v type
    ]
  ]

  abbrev pub object_fits : h.Value → h.Value → Bool
  object_fits value schema =
      all (λ key. is_some (h.get_key value key))
        (filter_map h.as_str (listed (array_at h "required" schema)))
      && all (λ (p : String × h.Value). property_fits value p.0 p.1)
          (listed (object_at h "properties" schema))

  -- The value is of the schema's type, and an object has the required properties, each property of
  -- its type.
  abbrev pub fits_as : h.Value → h.Value → Option String → Bool
  fits_as value schema none = true
  fits_as value schema (some type) =
      json_type_matches h value type
      && (not (str_eq type "object") || (is_some (h.as_object value) && object_fits value schema))

  abbrev pub fits : h.Value → h.Value → Bool
  fits value schema = fits_as value schema (text_at h "type" schema)

is_empty-append : (xs ys : List String) → is_empty (xs ++ ys) ≡ (is_empty xs && is_empty ys)
is_empty-append [] ys = refl
is_empty-append (x ∷ xs) ys = refl

is_empty-filter_map {ℓ} :
    {A : Type ℓ} (f : A → Option String) (test : A → Bool)
    → ((a : A) → not (is_some (f a)) ≡ test a)
    → (xs : List A) → is_empty (filter_map f xs) ≡ all test xs
is_empty-filter_map f test same [] = refl
is_empty-filter_map f test same (x ∷ xs) = elim (Option-cases (f x)) [
  | inl e ↦ ground (arith, same x, is_empty-filter_map f test same xs)
  | inr (b, e) ↦ ground (arith, same x)
]

module _ (h : Host) where
  is_empty-missing :
      (value : h.Value) (keys : List String)
      → is_empty (missing h value keys) ≡ all (λ key. is_some (h.get_key value key)) keys
  unfolding missing
  is_empty-missing value [] = refl
  is_empty-missing value (key ∷ keys) = ground (arith, is_empty-missing value keys)

  property_error_fits :
      (value : h.Value) (p : String × h.Value)
      → not (is_some (property_error h value p.0 p.1)) ≡ property_fits h value p.0 p.1
  property_error_fits value p = ground arith

  is_empty-object_errors :
      (value schema : h.Value)
      → is_empty (object_errors h value schema) ≡ object_fits h value schema
  is_empty-object_errors value schema =
      rw
        (
          is_empty-append,
          is_empty-missing value (filter_map h.as_str (listed (array_at h "required" schema))),
          is_empty-filter_map (λ (p : String × h.Value). property_error h value p.0 p.1)
              (λ (p : String × h.Value). property_fits h value p.0 p.1) (property_error_fits value)
              (listed (object_at h "properties" schema)),
        )
        refl

  is_empty-errors_for :
      (value schema : h.Value) (type : Option String)
      → is_empty (errors_for h value schema type) ≡ fits_as h value schema type
  is_empty-errors_for value schema none = refl
  is_empty-errors_for value schema (some type) = ground (arith, is_empty-object_errors value schema)

  -- The validation in terms of Boolean tests.
  pub validate_fits_test :
      (value schema : h.Value)
      → is_empty (validate_against_schema h value schema) ≡ fits h value schema
  unfolding validate_against_schema
  validate_fits_test value schema = is_empty-errors_for value schema (text_at h "type" schema)
