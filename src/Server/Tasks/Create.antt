-- ===== src/Server/Tasks/Create.antt =====
-- resonate/src/network.rs: `task_create`.
use resonate_sdk_rs.Prelude.{String, [], none, some, if◌then◌else◌}
use mathlib.Core.Option
use resonate_sdk_rs.Prelude.Map.{get, insert, modify}
use resonate_sdk_rs.Prelude.I64.{ℤ, pos, leb_ℤ, saturating_add}
use resonate_sdk_rs.Types.{pending, acquired, fulfilled}
use resonate_sdk_rs.Json.{Json}
use resonate_sdk_rs.Server.{DurablePromise, Task, ServerState, promise_record, task_record}
use resonate_sdk_rs.Server.Timers.{set_p_timeout, set_t_timeout}
use resonate_sdk_rs.Server.Settle.{has_target, preload, fulfilled_task}
use resonate_sdk_rs.Server.Handler.{error, task, Handler, ◌>>=◌, respond}
use resonate_sdk_rs.Server.Request.{
  require_str, extract_ttl, extract_action_data, extract_tags, get_or_null, timeout_of,
}
use resonate_sdk_rs.Server.Promises.{expired_promise, pending_promise, insert_promise}

-- The writes that give a pending task to a process.
abbrev pub acquire : String → ℤ → Task → Task
acquire pid ttl t = record t { state = acquired; pid = some pid; ttl = some ttl; resumes = [] }

-- The task of a promise that `task_create` makes.
abbrev pub acquired_task : String → String → ℤ → Task
acquired_task id pid ttl = record {
  id = id;
  state = acquired;
  version = pos 0;
  pid = some pid;
  ttl = some ttl;
  resumes = [];
}

module _ {V : Type 0} where
  -- `tasks.get_mut(id)` and `set_t_timeout(id, 1, now.saturating_add(ttl))`
  unfoldable pub lease : ℤ → String → String → ℤ → ServerState V → ServerState V
  lease now id pid ttl s =
      set_t_timeout id 1 (saturating_add now ttl)
        (record s { tasks = modify id (acquire pid ttl) s.tasks })

  unfoldable pub insert_task : String → Task → ServerState V → ServerState V
  insert_task id t s = record s { tasks = insert id t s.tasks }

  -- A new promise with its task, which the caller holds.
  unfoldable pub create_acquired :
      ℤ → String → String → ℤ → DurablePromise V → ServerState V → ServerState V
  create_acquired now id pid ttl p s =
      let s1 = record s { promises = insert id p s.promises } in
      let s2 = if has_target p.tags then set_p_timeout id p.timeout_at s1 else s1 in
      let s3 = record s2 { tasks = insert id (acquired_task id pid ttl) s2.tasks } in
      set_t_timeout id 1 (saturating_add now ttl) s3

module _ (J : Json) where
  open J use {Value, null}

  -- The task is there.
  unfoldable pub create_existing : ℤ → Value → String → String → ℤ → Task → Handler Value
  create_existing now corr_id id pid ttl t s =
      let r = Option.map promise_record (get id s.promises) in
      elim t.state [
        | pending ↦ (
          respond "task.create" corr_id 200
              (task (task_record (acquire pid ttl t)) r (preload id s)),
          lease now id pid ttl s,
        )
        | fulfilled ↦ (respond "task.create" corr_id 200 (task (task_record t) r (preload id s)), s)
        | _ ↦ (respond "task.create" corr_id 409 (error "Already exists"), s)
      ]

  -- Neither the task nor the promise is there.
  unfoldable pub create_fresh : ℤ → Value → String → String → ℤ → Value → Handler Value
  create_fresh now corr_id id pid ttl promise_req s =
      let timeout_at = timeout_of J promise_req in
      let param = get_or_null J promise_req "param" in
      let tags = extract_tags J promise_req in
      let expired = expired_promise id param null tags timeout_at in
      let p = pending_promise id param null tags timeout_at now in
      let s1 = create_acquired now id pid ttl p s in
      if leb_ℤ timeout_at now
      then (
        respond "task.create" corr_id 200
            (task (task_record (fulfilled_task id)) (some (promise_record expired)) []),
        insert_task id (fulfilled_task id) (insert_promise id expired s),
      )
      else (
        respond "task.create" corr_id 201 (
            task (task_record (acquired_task id pid ttl)) (some (promise_record p))
              (preload id s1)),
        s1,
      )

  unfoldable pub create_task_at : ℤ → Value → String → String → ℤ → Value → Handler Value
  create_task_at now corr_id id pid ttl promise_req s = elim (get id s.tasks) [
    | some t ↦ create_existing now corr_id id pid ttl t s
    | none ↦ elim (get id s.promises) [
      | some p ↦ (respond "task.create" corr_id 409 (error "Already exists"), s)
      | none ↦ create_fresh now corr_id id pid ttl promise_req s
    ]
  ]

  unfoldable pub task_create : ℤ → Value → Value → Handler Value
  task_create now corr_id req = do
    pid ← require_str J req "pid"
    let promise_req = extract_action_data J (get_or_null J req "action")
    id ← require_str J promise_req "id"
    create_task_at now corr_id id pid (extract_ttl J req) promise_req
