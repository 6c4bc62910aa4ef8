-- ===== src/Host.antt =====
-- What the program takes from outside its own sources: `serde_json::Value`, and the arithmetic of
-- `f64`. Both are parameters; a definition names the operations that it uses.
use rain_engine.Prelude.{ℕ, String, Bool, Option, List}

pub record Host : Type 1 where
  -- serde_json::Value
  pub Value : Type 0
  -- `value.get(key)`, also `as_object()?.get(key)`
  pub get_key : Value → String → Option Value
  pub as_str : Value → Option String
  pub as_array : Value → Option (List Value)
  -- the entries of an object in the map's own order
  pub as_object : Value → Option (List (String × Value))
  pub is_string : Value → Bool
  pub is_number : Value → Bool
  -- `as_i64().is_some() || as_u64().is_some()`
  pub is_integer : Value → Bool
  pub is_boolean : Value → Bool
  pub is_null : Value → Bool
  -- f64
  pub F64 : Type 0
  -- the literal m / 10 ^ d
  pub lit : ℕ → ℕ → F64
  -- `n as f64`
  pub of_usize : ℕ → F64
  pub fadd : F64 → F64 → F64
  pub fmul : F64 → F64 → F64
  pub fdiv : F64 → F64 → F64
  pub fmin : F64 → F64 → F64
  pub fmax : F64 → F64 → F64
  -- `a <= b`
  pub fleb : F64 → F64 → Bool
  -- `a < b`
  pub fltb : F64 → F64 → Bool
  -- `x.ceil() as u64`
  pub ceil_u64 : F64 → ℕ
  -- `x as u64`
  pub trunc_u64 : F64 → ℕ
