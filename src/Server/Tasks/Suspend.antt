-- ===== src/Server/Tasks/Suspend.antt =====
-- resonate/src/network.rs: `task_suspend`.
use resonate_sdk_rs.Prelude.{
  String, Bool, true, false, ◌||◌, List, [], ◌∷◌, none, some, and_then, unwrap_or, filter_map,
  if◌then◌else◌,
}
use resonate_sdk_rs.Prelude.Map.{get, modify}
use resonate_sdk_rs.Prelude.Set
use resonate_sdk_rs.Prelude.Set.{is_empty}
use resonate_sdk_rs.Error.{Result}
use resonate_sdk_rs.Types.{suspended, is_pending, is_acquired}
use resonate_sdk_rs.Json.{Json, get_str}
use resonate_sdk_rs.Server.{DurablePromise, Task, ServerState}
use resonate_sdk_rs.Server.Timers.{del_t_timeout}
use resonate_sdk_rs.Server.Settle.{preload}
use resonate_sdk_rs.Server.Handler.{no_data, redirect, Response, Handler, ◌>>=◌, respond}
use resonate_sdk_rs.Server.Request.{require_str, extract_action_data}

abbrev pub clear_resumes : Task → Task
clear_resumes t = record t { resumes = [] }

abbrev pub suspend : Task → Task
suspend t = record t { state = suspended; pid = none; ttl = none; resumes = [] }

module _ {V : Type 0} where
  abbrev pub add_awaiter : String → DurablePromise V → DurablePromise V
  add_awaiter task_id p = record p { awaiters = Set.insert task_id p.awaiters }

  -- One callback: the task becomes an awaiter of a pending promise; a settled one is noted.
  unfoldable pub register : String → String → ServerState V → Bool × ServerState V
  register task_id awaited s = elim (get awaited s.promises) [
    | none ↦ (false, s)
    | some p ↦
        if is_pending p.state
        then (false, record s { promises = modify awaited (add_awaiter task_id) s.promises })
        else (true, s)
  ]

  -- The loop over the callbacks, with the flag `any_settled`.
  unfoldable pub register_all : String → List String → Bool → ServerState V → Bool × ServerState V
  register_all task_id [] any_settled s = (any_settled, s)
  register_all task_id (awaited ∷ rest) any_settled s =
      let r = register task_id awaited s in register_all task_id rest (any_settled || r.0) r.1

  -- "Actually suspend"
  unfoldable pub suspend_task : String → ServerState V → ServerState V
  suspend_task task_id s =
      del_t_timeout task_id (record s { tasks = modify task_id suspend s.tasks })

module _ (J : Json) where
  open J use {Value, as_array}

  -- The promises that the request awaits.
  unfoldable pub callbacks : Value → List String
  callbacks req =
      filter_map (λ a. get_str J (extract_action_data J a) "awaited")
        (unwrap_or (and_then (J.get req "actions") as_array) [])

  unfoldable pub suspend_reply :
      Value → String → Bool × ServerState Value → Result (Response Value) × ServerState Value
  suspend_reply corr_id task_id (any_settled, s) =
      if any_settled
      then (respond "task.suspend" corr_id 300 (redirect (preload task_id s)), s)
      else (respond "task.suspend" corr_id 200 no_data, suspend_task task_id s)

  unfoldable pub suspend_leased : Value → Value → String → Task → Handler Value
  suspend_leased corr_id req task_id t s =
      if is_empty t.resumes
      then suspend_reply corr_id task_id (register_all task_id (callbacks req) false s)
      else (
        respond "task.suspend" corr_id 300 (redirect (preload task_id s)),
        record s { tasks = modify task_id clear_resumes s.tasks },
      )

  unfoldable pub suspend_at : Value → Value → String → Handler Value
  suspend_at corr_id req task_id s = elim (get task_id s.tasks) [
    | none ↦ (respond "task.suspend" corr_id 404 no_data, s)
    | some t ↦
        if is_acquired t.state
        then suspend_leased corr_id req task_id t s
        else (respond "task.suspend" corr_id 409 no_data, s)
  ]

  unfoldable pub task_suspend : Value → Value → Handler Value
  task_suspend corr_id req = do task_id ← require_str J req "id"; suspend_at corr_id req task_id
