-- ===== src/Server/Tasks/Fulfill.antt =====
-- resonate/src/network.rs: `task_fulfill`.
use resonate_sdk_rs.Prelude.{String, none, some, is_some_and, unwrap_or, if◌then◌else◌}
use mathlib.Core.Option
use resonate_sdk_rs.Prelude.Map.{get}
use resonate_sdk_rs.Prelude.I64.{ℤ}
use resonate_sdk_rs.Types.{PromiseState, is_pending, is_acquired}
use resonate_sdk_rs.Json.{Json, get_str}
use resonate_sdk_rs.Server.{ServerState, promise_record}
use resonate_sdk_rs.Server.Settle.{enqueue_settle, resume_awaiters, notify_subscribers}
use resonate_sdk_rs.Server.Handler.{no_data, promise, Handler, ◌>>=◌, respond}
use resonate_sdk_rs.Server.Request.{require_str, extract_action_data, get_or_null, settle_state_of}
use resonate_sdk_rs.Server.Promises.{settle_pending}

module _ {V : Type 0} where
  -- "Settle the promise if still pending"
  unfoldable pub settle_if_pending : ℤ → String → PromiseState → V → ServerState V → ServerState V
  settle_if_pending now id state value s =
      if is_some_and (get id s.promises) (λ p. is_pending p.state)
      then settle_pending now id state value s
      else s

  -- The writes of `task_fulfill` under a lease.
  unfoldable pub fulfill_writes :
      ℤ → String → String → PromiseState → V → ServerState V → ServerState V
  fulfill_writes now task_id promise_id state value s =
      let s1 = settle_if_pending now promise_id state value s in
      notify_subscribers promise_id (resume_awaiters promise_id now (enqueue_settle task_id s1))

module _ (J : Json) where
  open J use {Value}

  unfoldable pub fulfill_leased : ℤ → Value → Value → String → Handler Value
  fulfill_leased now corr_id req task_id s =
      let settle = extract_action_data J (get_or_null J req "action") in
      let promise_id = unwrap_or (get_str J settle "id") task_id in
      let state = settle_state_of J settle in
      let value = get_or_null J settle "value" in
      let s1 = settle_if_pending now promise_id state value s in
      (
        respond "task.fulfill" corr_id 200
            (promise (Option.map promise_record (get promise_id s1.promises))),
        fulfill_writes now task_id promise_id state value s,
      )

  unfoldable pub fulfill_at : ℤ → Value → Value → String → Handler Value
  fulfill_at now corr_id req task_id s = elim (get task_id s.tasks) [
    | none ↦ (respond "task.fulfill" corr_id 404 no_data, s)
    | some t ↦
        if is_acquired t.state
        then fulfill_leased now corr_id req task_id s
        else (respond "task.fulfill" corr_id 409 no_data, s)
  ]

  unfoldable pub task_fulfill : ℤ → Value → Value → Handler Value
  task_fulfill now corr_id req = do
    task_id ← require_str J req "id"
    fulfill_at now corr_id req task_id
