-- ===== src/Network.antt =====
-- resonate/src/network.rs: `LocalNetwork`. Every request, and every round of the loop that `start`
-- spawns, runs under the lock of the server state, so that they follow one another.
pub mod History
pub mod Fencing
pub mod Exclusion
use resonate_sdk_rs.Prelude.{
  String, Bool, ◌&&◌, List, [], ◌∷◌, Option, none, some, and_then, unwrap_or, if◌then◌else◌,
}
use resonate_sdk_rs.Prelude.I64.{ℤ}
use resonate_sdk_rs.Error.{Result, ok, err}
use resonate_sdk_rs.Json.{Json}
use resonate_sdk_rs.Server.{OutgoingMessage, ServerState}
use resonate_sdk_rs.Server.Handler.{Response}
use resonate_sdk_rs.Server.Tick.{tick}
use resonate_sdk_rs.Server.Apply.{apply}

module _ {V : Type 0} where
  -- One round of the loop of `start`: the new state, and the messages to dispatch.
  unfoldable pub on_tick : V → ℤ → ServerState V → List (OutgoingMessage V) × ServerState V
  on_tick null now s =
      let s1 = tick null now (record s { outgoing = [] }) in
      (s1.outgoing, record s1 { outgoing = [] })

  -- An error returns before the messages are taken.
  unfoldable pub take_outgoing :
      Result (Response V) × ServerState V
      → Result (Response V) × List (OutgoingMessage V) × ServerState V
  take_outgoing (ok r, s) = (ok r, s.outgoing, record s { outgoing = [] })
  take_outgoing (err e, s) = (err e, [], s)

module _ (J : Json) where
  open J use {Value, Object, get, object, insert, empty, as_object}

  -- `if let Some(v) = v { flat.insert(key, v.clone()); }`
  abbrev insert_some : String → Option Value → Object → Object
  insert_some key none flat = flat
  insert_some key (some v) flat = insert key v flat

  -- The flat request in an envelope `{kind, head, data}`, or the request itself.
  unfoldable pub unwrap_request_envelope : Value → Value
  unwrap_request_envelope req = elim (get req "head") [
    | none ↦ req
    | some head ↦ elim (get req "data") [
      | none ↦ req
      | some body ↦ object (
          insert_some "corrId" (get head "corrId")
            (insert_some "kind" (get req "kind") (unwrap_or (as_object body) empty)))
    ]
  ]

  -- `LocalNetwork::send` on a request that has been parsed.
  unfoldable pub send :
      ℤ
      → Value
      → ServerState Value
      → Result (Response Value) × List (OutgoingMessage Value) × ServerState Value
  send now req s = take_outgoing (apply J now (unwrap_request_envelope req) s)
