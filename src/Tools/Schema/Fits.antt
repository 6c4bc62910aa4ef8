-- ===== src/Tools/Schema/Fits.antt =====
-- rain-engine-core/src/engine.rs: which values `validate_against_schema` finds nothing wrong with.
use rain_engine.Prelude.{
  ◌≡◌, ◌↔◌, ◌∙◌, ap, sym, eq_iff, refl, arith, inl, inr, String, true, some, List, [], ◌∷◌, all,
  All, filter_map, str_eq, Option-cases, Bool-cases,
}
use rain_engine.Host.{Host}
use rain_engine.Tools.Prepare.{is_empty}
use rain_engine.Tools.Schema.{
  is_some, listed, json_type_matches, text_at, array_at, object_at, validate_against_schema,
}
use rain_engine.Tools.Schema.Sound.{property_fits, object_fits, fits_as, fits, validate_fits_test}

module _ (h : Host) where
  -- The value is of the type that the name says; a name that is none of these says nothing.
  pub record HasType (value : h.Value) (type : String) : Type 0 where
    pub object : type ≡ "object" → is_some (h.as_object value) ≡ true
    pub array : type ≡ "array" → is_some (h.as_array value) ≡ true
    pub text : type ≡ "string" → h.is_string value ≡ true
    pub number : type ≡ "number" → h.is_number value ≡ true
    pub integer : type ≡ "integer" → h.is_integer value ≡ true
    pub boolean : type ≡ "boolean" → h.is_boolean value ≡ true
    pub null : type ≡ "null" → h.is_null value ≡ true

  matches-HasType :
      (value : h.Value) (type : String) → json_type_matches h value type ≡ true → HasType value type
  unfolding json_type_matches
  matches-HasType value type e =
      let at : (name : String) → type ≡ name → json_type_matches h value name ≡ true =
        λ name s. ap (json_type_matches h value) (sym s) ∙ e in
      record {
        object = at "object";
        array = at "array";
        text = at "string";
        number = at "number";
        integer = at "integer";
        boolean = at "boolean";
        null = at "null";
      }

  HasType-matches :
      (value : h.Value) (type : String) → HasType value type → json_type_matches h value type ≡ true
  unfolding json_type_matches
  HasType-matches value type t = ground (
    arith,
    eq_iff type "object",
    eq_iff type "array",
    eq_iff type "string",
    eq_iff type "number",
    eq_iff type "integer",
    eq_iff type "boolean",
    eq_iff type "null",
    t.object,
    t.array,
    t.text,
    t.number,
    t.integer,
    t.boolean,
    t.null,
  )

  -- A required name, where it is a text, is a key of the value.
  abbrev IsPresent : h.Value → h.Value → Type 0
  IsPresent value name =
      (key : String) → h.as_str name ≡ some key → is_some (h.get_key value key) ≡ true

  -- A property that the value has is of the type that the property's schema names, if it names one.
  abbrev PropertyFits : h.Value → String × h.Value → Type 0
  PropertyFits value p =
      (property : h.Value) (type : String)
      → h.get_key value p.0 ≡ some property
      → text_at h "type" p.1 ≡ some type
      → HasType property type

  -- The value is of the schema's type, if the schema names one; where that is an object, the value has
  -- every required key, and each property that it has is of the type that the property's schema names.
  pub record Fits (value schema : h.Value) : Type 0 where
    pub typed : (type : String) → text_at h "type" schema ≡ some type → HasType value type
    pub required :
        (names : List h.Value)
        → text_at h "type" schema ≡ some "object"
        → array_at h "required" schema ≡ some names
        → All (IsPresent value) names
    pub properties :
        (ps : List (String × h.Value))
        → text_at h "type" schema ≡ some "object"
        → object_at h "properties" schema ≡ some ps
        → All (PropertyFits value) ps

  tested-IsPresent :
      (value : h.Value) (names : List h.Value)
      → all (λ key. is_some (h.get_key value key)) (filter_map h.as_str names) ≡ true
      → All (IsPresent value) names
  tested-IsPresent value [] e = tt
  tested-IsPresent value (name ∷ names) e = elim (Option-cases (h.as_str name)) [
    | inl n ↦ ((λ key s. ground arith), tested-IsPresent value names (ground arith))
    | inr (k, s) ↦ ((λ key s'. ground arith), tested-IsPresent value names (ground arith))
  ]

  IsPresent-tested :
      (value : h.Value) (names : List h.Value)
      → All (IsPresent value) names
      → all (λ key. is_some (h.get_key value key)) (filter_map h.as_str names) ≡ true
  IsPresent-tested value [] a = refl
  IsPresent-tested value (name ∷ names) a = elim (Option-cases (h.as_str name)) [
    | inl n ↦ ground (arith, IsPresent-tested value names a.1)
    | inr (k, s) ↦ let found = a.0 k s in ground (arith, IsPresent-tested value names a.1)
  ]

  tested-property :
      (value : h.Value) (p : String × h.Value)
      → property_fits h value p.0 p.1 ≡ true
      → PropertyFits value p
  tested-property value p e property type has names = matches-HasType property type (ground arith)

  property-tested :
      (value : h.Value) (p : String × h.Value)
      → PropertyFits value p
      → property_fits h value p.0 p.1 ≡ true
  property-tested value p fit = elim (Option-cases (h.get_key value p.0)) [
    | inl n ↦ ground arith
    | inr (v, has) ↦ elim (Option-cases (text_at h "type" p.1)) [
      | inl n ↦ ground arith
      | inr (t, names) ↦ let m = HasType-matches v t (fit v t has names) in ground arith
    ]
  ]

  tested-properties :
      (value : h.Value) (ps : List (String × h.Value))
      → all (λ (p : String × h.Value). property_fits h value p.0 p.1) ps ≡ true
      → All (PropertyFits value) ps
  tested-properties value [] e = tt
  tested-properties value (p ∷ ps) e =
      (tested-property value p (ground arith), tested-properties value ps (ground arith))

  properties-tested :
      (value : h.Value) (ps : List (String × h.Value))
      → All (PropertyFits value) ps
      → all (λ (p : String × h.Value). property_fits h value p.0 p.1) ps ≡ true
  properties-tested value [] a = refl
  properties-tested value (p ∷ ps) a =
      rw (property-tested value p a.0) (properties-tested value ps a.1)

  object-tested :
      (value schema : h.Value)
      → text_at h "type" schema ≡ some "object"
      → Fits value schema
      → object_fits h value schema ≡ true
  object-tested value schema o f =
      let keys =
        elim (Option-cases (array_at h "required" schema))
          as (λ x.
            all (λ key. is_some (h.get_key value key))
              (filter_map h.as_str (listed (array_at h "required" schema)))
            ≡ true) [
              | inl n ↦ ground arith
              | inr (names, r) ↦
                  let present = IsPresent-tested value names (f.required names o r) in ground arith
            ] in
      let typed =
        elim (Option-cases (object_at h "properties" schema))
          as (λ x.
            all (λ (p : String × h.Value). property_fits h value p.0 p.1)
              (listed (object_at h "properties" schema))
            ≡ true) [
              | inl n ↦ ground arith
              | inr (ps, r) ↦
                  let fit = properties-tested value ps (f.properties ps o r) in ground arith
            ] in
      rw (keys, typed) refl

  tested-object :
      (value schema : h.Value)
      → text_at h "type" schema ≡ some "object"
      → fits h value schema ≡ true
      → object_fits h value schema ≡ true
  tested-object value schema o e =
      let at : fits_as h value schema (some "object") ≡ true =
        ap (fits_as h value schema) (sym o) ∙ e in
      ground arith

  tested-Fits : (value schema : h.Value) → fits h value schema ≡ true → Fits value schema
  tested-Fits value schema e = record {
    typed = λ type t. matches-HasType value type (ground arith);
    required =
        λ names o r. tested-IsPresent value names (ground (arith, tested-object value schema o e));
    properties =
        λ ps o r. tested-properties value ps (ground (arith, tested-object value schema o e));
  }

  Fits-tested : (value schema : h.Value) → Fits value schema → fits h value schema ≡ true
  Fits-tested value schema f = elim (Option-cases (text_at h "type" schema)) [
    | inl n ↦ ap (fits_as h value schema) n
    | inr (type, t) ↦ ap (fits_as h value schema) t ∙ elim (Bool-cases (str_eq type "object")) [
      | inl same ↦
          let o = t ∙ ap some ((eq_iff type "object").0 same) in
          ground (
            arith,
            HasType-matches value type (f.typed type t),
            (f.typed "object" o).object refl,
            object-tested value schema o f,
          )
      | inr other ↦ ground (arith, HasType-matches value type (f.typed type t))
    ]
  ]

  -- The validation finds no error exactly in the values that fit: of the schema's type, where it names
  -- one, and, where that is an object, with every required key and with each property that they have
  -- of the type that its own schema names. A schema without a type fits every value.
  pub validate-Fits :
      (value schema : h.Value)
      → (is_empty (validate_against_schema h value schema) ≡ true) ↔ Fits value schema
  validate-Fits value schema = (
    λ e. tested-Fits value schema (sym (validate_fits_test h value schema) ∙ e),
    λ f. validate_fits_test h value schema ∙ Fits-tested value schema f,
  )
