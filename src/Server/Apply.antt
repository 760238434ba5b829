-- ===== src/Server/Apply.antt =====
-- resonate/src/network.rs: `apply`, one request. The promises that it touches are timed out first.
use resonate_sdk_rs.Prelude.{
  String, Bool, ◌==◌, ◌||◌, [], Option, none, some, and_then, unwrap_or, concat, for_each,
  if◌then◌else◌,
}
use resonate_sdk_rs.Prelude.I64.{ℤ}
use resonate_sdk_rs.Error.{err, server_error}
use resonate_sdk_rs.Json.{Json, get_str}
use resonate_sdk_rs.Server.{ServerState}
use resonate_sdk_rs.Server.Settle.{try_auto_timeout}
use resonate_sdk_rs.Server.Handler.{Handler}
use resonate_sdk_rs.Server.Request.{extract_action_data, get_or_null}
use resonate_sdk_rs.Server.Promises.{
  promise_get, promise_create, promise_settle, promise_register_listener,
}
use resonate_sdk_rs.Server.Tasks.Create.{task_create}
use resonate_sdk_rs.Server.Tasks.Lease.{task_acquire, task_release, task_heartbeat}
use resonate_sdk_rs.Server.Tasks.Fulfill.{task_fulfill}
use resonate_sdk_rs.Server.Tasks.Fence.{task_fence}
use resonate_sdk_rs.Server.Tasks.Suspend.{task_suspend}
use resonate_sdk_rs.Server.Schedules.{
  schedule_create, schedule_get, schedule_delete, schedule_search,
}

-- The kinds whose `id` is a promise, or a task and its promise.
abbrev pub by_id : String → Bool
by_id kind =
    kind == "promise.get"
    || (kind == "promise.create"
        || (kind == "promise.settle"
            || (kind == "task.acquire" || (kind == "task.release" || kind == "task.fulfill"))))

module _ (J : Json) where
  open J use {Value, as_array}

  -- `v.get(key).and_then(|v| v.as_str()).unwrap_or("")`
  abbrev pub str_or_empty : Value → String → String
  str_or_empty v key = unwrap_or (get_str J v key) ""

  abbrev pub action_of : Value → Value
  action_of req = extract_action_data J (get_or_null J req "action")

  abbrev pub time_out_some : ℤ → Option String → ServerState Value → ServerState Value
  time_out_some now none s = s
  time_out_some now (some id) s = try_auto_timeout now id s

  -- One action of a suspend request.
  abbrev pub time_out_awaited : ℤ → Value → ServerState Value → ServerState Value
  time_out_awaited now a s =
      let awaited = str_or_empty (extract_action_data J a) "awaited" in
      if awaited == "" then s else try_auto_timeout now awaited s

  unfoldable pub time_out_actions : ℤ → Value → ServerState Value → ServerState Value
  time_out_actions now req s =
      for_each (time_out_awaited now) (unwrap_or (and_then (J.get req "actions") as_array) []) s

  -- "Auto-timeout relevant promises before processing"
  unfoldable pub auto_timeouts : ℤ → String → Value → ServerState Value → ServerState Value
  auto_timeouts now kind req s =
      if by_id kind
      then try_auto_timeout now (str_or_empty req "id") s
      else if kind == "promise.register_listener"
      then try_auto_timeout now (str_or_empty req "awaited") s
      else if kind == "task.create"
      then try_auto_timeout now (str_or_empty (action_of req) "id") s
      else if kind == "task.fence"
      then time_out_some now (get_str J (action_of req) "id")
          (try_auto_timeout now (str_or_empty req "id") s)
      else if kind == "task.suspend"
      then time_out_actions now req (try_auto_timeout now (str_or_empty req "id") s)
      else s

  -- The second half of the `match` on the kind.
  unfoldable pub dispatch_rest : ℤ → String → Value → Value → Handler Value
  dispatch_rest now kind corr_id req =
      if kind == "task.fence"
      then task_fence J now corr_id req
      else if kind == "task.suspend"
      then task_suspend J corr_id req
      else if kind == "task.heartbeat"
      then task_heartbeat J now corr_id req
      else if kind == "schedule.create"
      then schedule_create J now corr_id req
      else if kind == "schedule.get"
      then schedule_get J corr_id req
      else if kind == "schedule.delete"
      then schedule_delete J corr_id req
      else if kind == "schedule.search"
      then schedule_search J corr_id
      else λ s. (err (server_error 400 (concat "unknown request kind: " kind)), s)

  unfoldable pub dispatch : ℤ → String → Value → Value → Handler Value
  dispatch now kind corr_id req =
      if kind == "promise.get"
      then promise_get J corr_id req
      else if kind == "promise.create"
      then promise_create J now corr_id req
      else if kind == "promise.settle"
      then promise_settle J now corr_id req
      else if kind == "promise.register_listener"
      then promise_register_listener J corr_id req
      else if kind == "task.create"
      then task_create J now corr_id req
      else if kind == "task.acquire"
      then task_acquire J now corr_id req
      else if kind == "task.release"
      then task_release J now corr_id req
      else if kind == "task.fulfill"
      then task_fulfill J now corr_id req
      else dispatch_rest now kind corr_id req

  unfoldable pub apply : ℤ → Value → Handler Value
  apply now req s =
      let kind = str_or_empty req "kind" in
      let s1 = record s { outgoing = [] } in
      dispatch now kind (get_or_null J req "corrId") req (auto_timeouts now kind req s1)
