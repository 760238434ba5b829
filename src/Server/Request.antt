-- ===== src/Server/Request.antt =====
-- resonate/src/network.rs: how the handlers read a request.
use resonate_sdk_rs.Prelude.{
  [], String, ◌==◌, Option, none, some, [], and_then, unwrap_or, concat, if◌then◌else◌,
}
use Prim.Native.Nat.{min}
use mathlib.Core.Option
use resonate_sdk_rs.Prelude.I64.{ℤ, pos, max_ℕ, max_i64}
use resonate_sdk_rs.Prelude.Map.{insert}
use resonate_sdk_rs.Prelude.{for_each}
use resonate_sdk_rs.Error.{Result, ok, err, server_error}
use resonate_sdk_rs.Types.{PromiseState, resolved}
use resonate_sdk_rs.Json.{Json, get_str, get_i64}
use resonate_sdk_rs.Server.{Tags}

-- A text that is there and not empty.
abbrev non_empty : Option String → Option String
non_empty none = none
non_empty (some s) = if s == "" then none else some s

module _ (J : Json) where
  open J use {Value, get, as_str, as_i64, as_u64, as_object, entries, null, promise_state}

  unfoldable pub require_str : Value → String → Result String
  require_str obj field = elim (non_empty (get_str J obj field)) [
    | some s ↦ ok s
    | none ↦ err (server_error 400 (concat "missing or empty required field: " field))
  ]

  -- A number above `i64::MAX` is clamped.
  abbrev as_ttl : Value → Option ℤ
  as_ttl v = elim (as_i64 v) [
    | some i ↦ some i
    | none ↦ Option.map (λ u. pos (min u max_ℕ)) (as_u64 v)
  ]

  unfoldable pub extract_ttl : Value → ℤ
  extract_ttl req = unwrap_or (and_then (get req "ttl") as_ttl) (pos 60000)

  -- The entries of `tags` whose value is a text.
  abbrev add_tag : String × Value → Tags → Tags
  add_tag (k, v) tags = elim (as_str v) [ none ↦ tags | some s ↦ insert k s tags ]

  unfoldable pub extract_tags : Value → Tags
  extract_tags v = elim (and_then (get v "tags") as_object) [
    | none ↦ []
    | some obj ↦ for_each add_tag (entries obj) []
  ]

  -- The `data` of an envelope `{kind, data}`, or the value itself.
  unfoldable pub extract_action_data : Value → Value
  extract_action_data val = elim (get val "kind") [
    | none ↦ val
    | some kind ↦ elim (get val "data") [ none ↦ val | some inner ↦ inner ]
  ]

  -- `req.get(key).cloned().unwrap_or(Value::Null)`
  abbrev pub get_or_null : Value → String → Value
  get_or_null req key = unwrap_or (get req key) null

  -- `req.get("timeoutAt").and_then(|v| v.as_i64()).unwrap_or(i64::MAX)`
  abbrev pub timeout_of : Value → ℤ
  timeout_of req = unwrap_or (get_i64 J req "timeoutAt") max_i64

  -- The state of a settle request; resolved, where none can be read.
  abbrev pub settle_state_of : Value → PromiseState
  settle_state_of req = unwrap_or (and_then (get req "state") promise_state) resolved
