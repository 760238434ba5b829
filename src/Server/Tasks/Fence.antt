-- ===== src/Server/Tasks/Fence.antt =====
-- resonate/src/network.rs: `task_fence`, a promise operation under the lease of a task.
use resonate_sdk_rs.Prelude.{
  String, Bool, true, false, ◌==◌, ◌&&◌, Option, none, some, unwrap_or, if◌then◌else◌,
}
use resonate_sdk_rs.Prelude.Map.{get}
use resonate_sdk_rs.Prelude.I64.{ℤ, pos, eqb_ℤ}
use resonate_sdk_rs.Error.{Result, ok, err}
use resonate_sdk_rs.Types.{is_acquired}
use resonate_sdk_rs.Json.{Json, get_str, get_i64}
use resonate_sdk_rs.Server.{PromiseRecord, Task, ServerState}
use resonate_sdk_rs.Server.Settle.{preload}
use resonate_sdk_rs.Server.Handler.{
  Body, no_data, promise, action, Response, Handler, ◌>>=◌, respond,
}
use resonate_sdk_rs.Server.Request.{require_str, extract_action_data, get_or_null}
use resonate_sdk_rs.Server.Promises.{promise_create, promise_settle}

-- The lease that a request names: the task is acquired, in this version.
abbrev pub leased : ℤ → Task → Bool
leased version t = is_acquired t.state && eqb_ℤ t.version version

-- `inner.get("promise").cloned().unwrap_or(Value::Null)`
abbrev pub promise_of : {V : Type 0} → Body V → Option (PromiseRecord V)
promise_of (promise r) = r
promise_of _ = none

module _ (J : Json) where
  open J use {Value, as_object, empty, insert, object, string}

  unfoldable pub is_settle : Value → Bool
  is_settle action_raw =
      let sub_kind = unwrap_or (get_str J action_raw "kind") "" in
      if sub_kind == "promise.settle"
      then true
      else if sub_kind == "promise.create"
      then false
      else (elim (J.get (extract_action_data J action_raw) "state") [
        | none ↦ false
        | some v ↦ true
      ])

  -- The fields of the action, with its kind written over.
  unfoldable pub flat_action : String → Value → Value
  flat_action kind action_raw =
      object (
        insert "kind" (string kind)
          (unwrap_or (as_object (extract_action_data J action_raw)) empty))

  unfoldable pub run_action : ℤ → Value → Value → Handler Value
  run_action now corr_id action_raw =
      if is_settle action_raw
      then promise_settle J now corr_id (flat_action "promise.settle" action_raw)
      else promise_create J now corr_id (flat_action "promise.create" action_raw)

  unfoldable pub fence_reply :
      Value
      → String
      → Result (Response Value) × ServerState Value
      → Result (Response Value) × ServerState Value
  fence_reply corr_id task_id (ok inner, s) =
      (respond "task.fence" corr_id 200 (action (promise_of inner.body) (preload task_id s)), s)
  fence_reply corr_id task_id (err e, s) = (err e, s)

  unfoldable pub fence_at : ℤ → Value → Value → String → Handler Value
  fence_at now corr_id req task_id s =
      let version = unwrap_or (get_i64 J req "version") (pos 0) in
      elim (get task_id s.tasks) [
        | none ↦ (respond "task.fence" corr_id 404 no_data, s)
        | some t ↦
            if leased version t
            then fence_reply corr_id task_id (run_action now corr_id (get_or_null J req "action") s)
            else (respond "task.fence" corr_id 409 no_data, s)
      ]

  unfoldable pub task_fence : ℤ → Value → Value → Handler Value
  task_fence now corr_id req = do task_id ← require_str J req "id"; fence_at now corr_id req task_id
