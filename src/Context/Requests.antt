-- ===== src/Context/Requests.antt =====
-- resonate/src/context.rs: the create requests of `run`, `rpc`, `sleep`, `promise` and `detached`, and
-- the builder methods that change them.
use resonate_sdk_rs.Prelude.{
  ℕ, zero, suc, String, ◌/◌, ◌%◌, ◌∷◌, [], Option, none, some, concat, if◌then◌else◌, ltb,
}
use resonate_sdk_rs.Prelude.Decimal.{to_string}
use resonate_sdk_rs.Prelude.Map.{insert}
use resonate_sdk_rs.Prelude.I64.{ℤ, pos}
use resonate_sdk_rs.Error.{Error, Result, ok, err, serialization_error}
pub use resonate_sdk_rs.Error.{Serde, converted, fails, from_serde}
use resonate_sdk_rs.Ids.{join_id}
use resonate_sdk_rs.Server.{Tags}
use resonate_sdk_rs.Effects.{Value, PromiseCreateReq}
use resonate_sdk_rs.Context.{Context, child_timeout}

-- serde_json, as far as contexts use it: `deserialize` is `T::deserialize`, with the value of type `T` as
-- JSON again, `message` is `as_object()`, then the text at `message`, and `print` is the `Display` of a
-- value. `display` is the derived one of `Error`, and `finish` the 64-bit seahash of a text.
pub record Tools (V : Type 0) : Type 0 where
  pub null : V
  pub task_data : String → V → V
  pub deserialize : V → Serde V
  pub message : V → Option String
  pub print : V → String
  pub target_resolver : Option String → String
  pub display : Error → String
  pub finish : String → ℕ

-- The last hexadecimal digits of a number, lowercase.
abbrev hex_digit : ℕ → String
hex_digit d =
    if ltb d 10
    then to_string d
    else if ltb d 11
    then "a"
    else if ltb d 12
    then "b"
    else if ltb d 13
    then "c"
    else if ltb d 14
    then "d"
    else if ltb d 15
    then "e"
    else "f"

unfoldable pub hex : ℕ → ℕ → String
hex zero n = ""
hex (suc digits) n = concat (hex digits (n / 16)) (hex_digit (n % 16))

-- `Value::default()`
abbrev pub no_value : {V : Type 0} → Value V
no_value = record { headers = none; «data» = none }

-- `Value::from_serializable` of what `serde_json::to_value` gave.
unfoldable pub from_serializable : {V : Type 0} → Serde V → Result (Value V)
from_serializable (converted v) = ok (record { headers = none; «data» = some v })
from_serializable (fails text) = err (serialization_error text)

unfoldable pub child_tags_with_parent : String → String → String → Context → Tags
child_tags_with_parent scope branch parent c =
    ("resonate:scope", scope)
    ∷ (("resonate:branch", branch)
        ∷ (("resonate:parent", parent) ∷ (("resonate:origin", c.origin_id) ∷ [])))

unfoldable pub child_tags : String → String → Context → Tags
unfolding child_tags_with_parent
child_tags scope branch c = child_tags_with_parent scope branch c.id c

module _ {V : Type 0} where
  abbrev pub default_with_id : String → PromiseCreateReq V
  default_with_id id = record { id = id; timeout_at = pos 0; param = no_value; tags = [] }

  unfoldable pub local_create_req :
      String → Serde V → Option ℕ → ℤ → Context → Result (PromiseCreateReq V)
  unfolding child_tags
  local_create_req id args timeout now c = elim (from_serializable args) [
    | err e ↦ err e
    | ok param ↦ ok (record {
      id = id;
      timeout_at = child_timeout now timeout c;
      param = param;
      tags = child_tags "local" c.branch_id c;
    })
  ]

  unfoldable pub promise_create_req : String → Option ℕ → ℤ → Context → PromiseCreateReq V
  unfolding child_tags
  promise_create_req id timeout now c = record {
    id = id;
    timeout_at = child_timeout now timeout c;
    param = no_value;
    tags = child_tags "global" id c;
  }

  -- `.timeout(..)` of the builders `RpcTask`, `PromiseTask` and `DetachedTask`.
  unfoldable pub with_timeout : ℕ → ℤ → Context → PromiseCreateReq V → PromiseCreateReq V
  with_timeout millis now c req = record req { timeout_at = child_timeout now (some millis) c }

  -- `PromiseTask::data`
  unfoldable pub with_data : Serde V → PromiseCreateReq V → Result (PromiseCreateReq V)
  with_data v req = elim (from_serializable v) [
    | err e ↦ err e
    | ok param ↦ ok (record req { param = param })
  ]

module _ {V : Type 0} (T : Tools V) where
  unfoldable pub hash_id : String → String
  hash_id s = hex 16 (T.finish s)

  -- `TaskData::into_value`
  unfoldable pub into_value : String → Serde V → Result (Value V)
  into_value func (converted args) = from_serializable (converted (T.task_data func args))
  into_value func (fails text) = err (serialization_error text)

  unfoldable pub remote_create_req :
      String
      → String
      → String
      → Serde V
      → Option ℕ
      → Option String
      → ℤ
      → Context
      → Result (PromiseCreateReq V)
  remote_create_req id func_name parent args timeout target_override now c =
      elim (into_value func_name args) [
        | err e ↦ err e
        | ok param ↦ ok (record {
          id = id;
          timeout_at = child_timeout now timeout c;
          param = param;
          tags =
              insert "resonate:target" (T.target_resolver target_override)
                (child_tags_with_parent "global" id parent c);
        })
      ]

  unfoldable pub sleep_create_req : String → ℕ → ℤ → Context → PromiseCreateReq V
  sleep_create_req id duration now c = record {
    id = id;
    timeout_at = child_timeout now (some duration) c;
    param = no_value;
    tags =
        insert "resonate:target" (T.target_resolver none)
          (insert "resonate:timer" "true" (child_tags "global" id c));
  }

  -- `.target(..)` of the builders `RpcTask` and `DetachedTask`.
  unfoldable pub with_target : String → PromiseCreateReq V → PromiseCreateReq V
  with_target target req = record req {
    tags = insert "resonate:target" (T.target_resolver (some target)) req.tags;
  }

  -- A failed serialization is kept for the terminal operation.
  abbrev pub deferred : String → Result (PromiseCreateReq V) → PromiseCreateReq V × Option String
  deferred child_id (ok req) = (req, none)
  deferred child_id (err e) = (default_with_id child_id, some (T.display e))

  -- `Context::rpc`: the fields `req` and `serialization_error` of the builder.
  unfoldable pub rpc : String → String → Serde V → ℤ → Context → PromiseCreateReq V × Option String
  rpc child_id func args now c =
      deferred child_id (remote_create_req child_id func c.id args none none now c)

  -- The id that `Context::detached` mints from the next child id.
  unfoldable pub detached_id : String → Context → String
  detached_id raw c = join_id c.origin_id (concat "d" (hash_id raw))

  unfoldable pub detached :
      String → String → Serde V → ℤ → Context → PromiseCreateReq V × Option String
  detached child_id func args now c =
      deferred child_id (remote_create_req child_id func c.origin_id args none none now c)
