-- ===== src/Json.antt =====
-- What resonate/src/network.rs uses of the serde_json crate, as an interface: values and objects, the
-- accessors of a value, and the derived decoder of `PromiseState`. The crate is not under the
-- repository, so the code takes it as a parameter.
use resonate_sdk_rs.Prelude.{ℕ, String, List, Option, and_then}
use resonate_sdk_rs.Prelude.I64.{ℤ}
use resonate_sdk_rs.Types.{PromiseState}

pub record Json : Type 1 where
  -- `serde_json::Value` and `serde_json::Map<String, Value>`
  pub Value : Type 0
  pub Object : Type 0
  -- `Value::Null`, `Value::String`, `Value::Object`
  pub null : Value
  pub string : String → Value
  pub object : Object → Value
  -- `value.get(key)`, `value.as_str()` and the like
  pub get : Value → String → Option Value
  pub as_str : Value → Option String
  pub as_i64 : Value → Option ℤ
  pub as_u64 : Value → Option ℕ
  pub as_array : Value → Option (List Value)
  pub as_object : Value → Option Object
  -- `Map::default()`, `map.insert(key, value)`, `map.get(key)`, `map.iter()`
  pub empty : Object
  pub insert : String → Value → Object → Object
  pub lookup : Object → String → Option Value
  pub entries : Object → List (String × Value)
  -- `serde_json::from_value::<PromiseState>(value).ok()`
  pub promise_state : Value → Option PromiseState

module _ (J : Json) where
  open J use {Value, get, as_str, as_i64}

  -- `value.get(key).and_then(|v| v.as_str())`
  abbrev pub get_str : Value → String → Option String
  get_str v k = and_then (get v k) as_str

  -- `value.get(key).and_then(|v| v.as_i64())`
  abbrev pub get_i64 : Value → String → Option ℤ
  get_i64 v k = and_then (get v k) as_i64
