-- ===== src/Client.antt =====
-- resonate/src/resonate.rs and handle.rs: the client's root promises, its subscriptions to promises, and
-- the results that its handles read. What it calls of the other components is an interface.
pub mod Roots
pub mod Results
pub mod Subscriptions
pub mod Refresh
use resonate_sdk_rs.Prelude.{
  ℕ, ◌+◌, ◌-◌, String, ◌==◌, Bool, true, false, not, List, [], ◌∷◌, Option, none, some, unwrap_or,
  and_then, concat, for_each, if◌then◌else◌, ltb,
}
use resonate_sdk_rs.Prelude.Map.{HashMap, get, insert, modify, contains_key}
use resonate_sdk_rs.Prelude.I64.{ℤ, pos, max_ℕ, saturating_add}
use resonate_sdk_rs.Error.{
  Error, Result, ok, err, Serde, converted, fails, from_serde, application, timeout,
  function_not_found,
}
use resonate_sdk_rs.Types.{
  PromiseState, pending, resolved, rejected, rejected_canceled, rejected_timedout, is_pending,
  is_acquired,
}
use resonate_sdk_rs.Ids.{validate_root_id}
use resonate_sdk_rs.Json.{Json, get_str}
use resonate_sdk_rs.Server.{PromiseRecord, Tags}
use resonate_sdk_rs.Effects.{Value, PromiseCreateReq}
use resonate_sdk_rs.Context.{as_i64}
use resonate_sdk_rs.Sender.{TaskAcquireResult, TaskCreateOutcome, created, conflict}

-- `Options`, but for the version, which no request carries.
pub record Options : Type 0 where
  pub tags : Tags
  pub target : String
  pub timeout : ℕ

pub record PromiseResult (V : Type 0) : Type 0 where
  pub state : PromiseState
  pub value : V

-- A watch channel: what its sender holds, and how many receivers are alive. A handle has one.
pub record Watch (V : Type 0) : Type 0 where
  pub held : Option (PromiseResult V)
  pub receivers : ℕ

abbrev pub Subscriptions : Type 0 → Type 0
Subscriptions V = HashMap (Watch V)

-- The components that the client calls; `execute` is the execution of an acquired task.
pub record Parts (J : Json) (W : Type 0) : Type 0 where
  pub encode : J.Value → Result (Value J.Value)
  pub decode_base64_str : String → Result (Option J.Value)
  pub decode_promise : PromiseRecord (Value J.Value) → Result (PromiseRecord (Value J.Value))
  pub deserialize_error : J.Value → Error
  pub deserialize : J.Value → Serde J.Value
  pub value_of : J.Value → Serde (Value J.Value)
  pub headers_json : HashMap String → J.Value
  pub task_json : String → J.Value → J.Value
  pub contains : String → Bool
  pub task_create_or_conflict :
      String → ℤ → PromiseCreateReq J.Value → W → Result (TaskCreateOutcome J.Value) × W
  pub promise_create : PromiseCreateReq J.Value → W → Result (PromiseRecord (Value J.Value)) × W
  pub promise_register_listener : String → String → W → Result (PromiseRecord (Value J.Value)) × W
  pub execute :
      String → ℤ → PromiseRecord (Value J.Value) → List (PromiseRecord (Value J.Value)) → W → W
  pub now_ms : W → ℤ
  pub pid : String
  pub unicast : String
  pub ttl : ℕ

pub record Client (V W : Type 0) : Type 0 where
  pub subscriptions : Subscriptions V
  pub world : W

unfoldable pub build_root_tags : String → String → Tags → Tags
build_root_tags id target tags = insert "resonate:target" target (
    insert "resonate:scope" "global" (
      insert "resonate:parent" id (insert "resonate:branch" id (insert "resonate:origin" id tags))))

unfoldable pub parse_promise_state : String → PromiseState
parse_promise_state state =
    if state == "resolved"
    then resolved
    else if state == "rejected"
    then rejected
    else if state == "rejected_canceled"
    then rejected_canceled
    else if state == "rejected_timedout"
    then rejected_timedout
    else pending

-- `tx.send(Some(result))`: with no receiver alive it fails and stores nothing.
unfoldable pub send_result : {V : Type 0} → PromiseResult V → Watch V → Watch V
send_result result tx = if ltb 0 tx.receivers then record tx { held = some result } else tx

unfoldable pub publish : {V : Type 0} → String → PromiseResult V → Subscriptions V → Subscriptions V
publish id result subs = modify id (send_result result) subs

-- `tx.subscribe()`, and a receiver that is dropped.
abbrev pub subscribe : {V : Type 0} → Watch V → Watch V
subscribe tx = record tx { receivers = tx.receivers + 1 }

abbrev pub unsubscribe : {V : Type 0} → Watch V → Watch V
unsubscribe tx = record tx { receivers = tx.receivers - 1 }

-- The task that an unblock message spawns.
unfoldable pub unblocked :
    {V : Type 0} → String → PromiseResult V → Subscriptions V → Subscriptions V
unblocked id result subs =
    if contains_key id subs
    then publish id result subs
    else insert id (record { held = some result; receivers = 0 }) subs

-- `filter(|(_, tx)| tx.borrow().is_none())`
unfoldable pub pending_ids : {V : Type 0} → Subscriptions V → List String
pending_ids [] = []
pending_ids ((id, tx) ∷ subs) =
    let rest = pending_ids subs in elim tx.held [ none ↦ id ∷ rest | some r ↦ rest ]

module _ {J : Json} {W : Type 0} (K : Parts J W) where
  unfoldable pub value_to_wire_json : Value J.Value → J.Value
  value_to_wire_json v = elim v.headers [
    | none ↦ J.object (J.insert "data" (unwrap_or v.«data» J.null) J.empty)
    | some h ↦ J.object (
        J.insert "data" (unwrap_or v.«data» J.null) (J.insert "headers" (K.headers_json h) J.empty))
  ]

  abbrev pub result_of : PromiseRecord (Value J.Value) → PromiseResult J.Value
  result_of p = record { state = p.state; value = value_to_wire_json p.value }

  unfoldable pub safe_ttl : ℤ
  safe_ttl = if ltb max_ℕ K.ttl then pos max_ℕ else pos K.ttl

  unfoldable pub build_promise_create_req :
      String → String → J.Value → Options → ℤ → Result (PromiseCreateReq J.Value)
  build_promise_create_req id func_name args opts now = elim (validate_root_id id) [
    | err e ↦ err e
    | ok _ ↦ elim (K.encode (K.task_json func_name args)) [
      | err e ↦ err e
      | ok param ↦ ok (record {
        id = id;
        timeout_at = saturating_add now (as_i64 opts.timeout);
        param = param;
        tags = build_root_tags id opts.target opts.tags;
      })
    ]
  ]

  -- The answer of a listener registration.
  unfoldable pub settle_subscription :
      PromiseRecord (Value J.Value) → String → Subscriptions J.Value → Subscriptions J.Value
  settle_subscription p id subs = if is_pending p.state then subs else publish id (result_of p) subs

  -- The handle is its id.
  unfoldable pub create_handle_from_id :
      String → Client J.Value W → Result String × Client J.Value W
  create_handle_from_id id c = elim (get id c.subscriptions) [
    | some _ ↦ (ok id, record c { subscriptions = modify id subscribe c.subscriptions })
    | none ↦
        let subs = insert id (record { held = none; receivers = 1 }) c.subscriptions in
        let answer = K.promise_register_listener id K.unicast c.world in
        elim answer.0 [
          | err e ↦ (err e, record { subscriptions = modify id unsubscribe subs; world = answer.1 })
          | ok p ↦
              (ok id, record { subscriptions = settle_subscription p id subs; world = answer.1 })
        ]
  ]

  -- The task that runs an acquired root promise.
  unfoldable pub start_acquired : TaskAcquireResult J.Value → W → W
  start_acquired result w =
      if is_acquired result.task.state
      then elim (K.decode_promise result.promise) [
        | ok p ↦ K.execute result.task.id result.task.version p result.preload w
        | err e ↦ w
      ]
      else w

  unfoldable pub do_run :
      String → String → J.Value → Options → Client J.Value W → Result String × Client J.Value W
  do_run id func_name args opts c =
      if not (K.contains func_name)
      then (err (function_not_found func_name), c)
      else elim (build_promise_create_req id func_name args opts (K.now_ms c.world)) [
        | err e ↦ (err e, c)
        | ok action ↦
            let answer = K.task_create_or_conflict K.pid safe_ttl action c.world in
            elim answer.0 [
              | err e ↦ (err e, record c { world = answer.1 })
              | ok outcome ↦ elim outcome [
                | conflict ↦ create_handle_from_id id (record c { world = answer.1 })
                | created result ↦
                    create_handle_from_id id (record c { world = start_acquired result answer.1 })
              ]
            ]
      ]

  unfoldable pub do_rpc :
      String → String → J.Value → Options → Client J.Value W → Result String × Client J.Value W
  do_rpc id func_name args opts c =
      elim (build_promise_create_req id func_name args opts (K.now_ms c.world)) [
        | err e ↦ (err e, c)
        | ok req ↦
            let answer = K.promise_create req c.world in
            elim answer.0 [
              | err e ↦ (err e, record c { world = answer.1 })
              | ok p ↦ create_handle_from_id id (record c { world = answer.1 })
            ]
      ]

  -- A handle is dropped, with its receiver.
  unfoldable pub drop_handle : String → Client J.Value W → Client J.Value W
  drop_handle id c = record c { subscriptions = modify id unsubscribe c.subscriptions }

  -- An unblock message, with the promise that it carries.
  unfoldable pub on_unblock : J.Value → Client J.Value W → Client J.Value W
  on_unblock promise c =
      let id = unwrap_or (get_str J promise "id") "" in
      let state_str = unwrap_or (get_str J promise "state") "pending" in
      let raw_value = unwrap_or (J.get promise "value") J.null in
      let value : J.Value = elim (K.value_of raw_value) [
        | converted v ↦ value_to_wire_json v
        | fails e ↦ raw_value
      ] in
      record c {
        subscriptions =
            unblocked id (record { state = parse_promise_state state_str; value = value })
              c.subscriptions;
      }

  unfoldable pub refresh_one : String → Client J.Value W → Client J.Value W
  refresh_one id c =
      let answer = K.promise_register_listener id K.unicast c.world in
      elim answer.0 [
        | err e ↦ record c { world = answer.1 }
        | ok p ↦ record {
          subscriptions = settle_subscription p id c.subscriptions;
          world = answer.1;
        }
      ]

  -- One round of the refresh loop.
  unfoldable pub refresh : Client J.Value W → Client J.Value W
  refresh c = for_each refresh_one (pending_ids c.subscriptions) c

  -- `ResonateHandle::decode_value` and `decode_result`.
  unfoldable pub decode_value : J.Value → Result J.Value
  decode_value value = elim (J.get value "data") [
    | none ↦ ok value
    | some content ↦ elim (J.as_str content) [
      | none ↦ ok content
      | some s ↦
          if s == ""
          then ok J.null
          else elim (K.decode_base64_str s) [ err e ↦ err e | ok v ↦ ok (unwrap_or v J.null) ]
    ]
  ]

  unfoldable pub decode_result : PromiseResult J.Value → Result J.Value
  decode_result r = elim r.state [
    | resolved ↦ elim (decode_value r.value) [ err e ↦ err e | ok v ↦ from_serde (K.deserialize v) ]
    | rejected ↦ elim (decode_value r.value) [ err e ↦ err e | ok v ↦ err (K.deserialize_error v) ]
    | rejected_canceled ↦ err (application "Promise canceled")
    | rejected_timedout ↦ err timeout
    | pending ↦ err (application "promise still pending")
  ]
