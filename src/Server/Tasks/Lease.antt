-- ===== src/Server/Tasks/Lease.antt =====
-- resonate/src/network.rs: `task_acquire`, `task_release` and `task_heartbeat`.
use resonate_sdk_rs.Prelude.{
  String, Bool, true, ◌&&◌, ◌==◌, List, [], ◌∷◌, Option, none, some, and_then, is_some_and,
  unwrap_or, concat, if◌then◌else◌,
}
use mathlib.Core.Option
use resonate_sdk_rs.Prelude.Map.{get, modify}
use resonate_sdk_rs.Prelude.I64.{ℤ, pos, eqb_ℤ, max_ℤ, add_i64, saturating_add}
use resonate_sdk_rs.Error.{ok, err}
use resonate_sdk_rs.Types.{
  TaskState, pending, acquired, suspended, halted, fulfilled, is_pending_task, is_acquired,
}
use resonate_sdk_rs.Json.{Json, get_str, get_i64}
use resonate_sdk_rs.Server.{Task, ServerState, promise_record, task_record, pending_retry_ttl}
use resonate_sdk_rs.Server.Timers.{set_t_timeout}
use resonate_sdk_rs.Server.Settle.{preload, send_to_target}
use resonate_sdk_rs.Server.Handler.{no_data, error, task, Handler, ◌>>=◌, respond}
use resonate_sdk_rs.Server.Request.{require_str, extract_ttl}
use resonate_sdk_rs.Server.Tasks.Create.{acquire, lease}

-- The derived `Debug` of `TaskState`.
abbrev debug : TaskState → String
debug pending = "Pending"
debug acquired = "Acquired"
debug suspended = "Suspended"
debug halted = "Halted"
debug fulfilled = "Fulfilled"

-- The writes that end a lease.
abbrev pub release : ℤ → Task → Task
release version t = record t { state = pending; version = version; pid = none; ttl = none }

-- The process `pid` holds the task, in the version that it names, if it names one.
abbrev pub holds : String → Option ℤ → Task → Bool
holds pid version t =
    is_acquired t.state
    && is_some_and t.pid (λ p. p == pid)
    && unwrap_or (Option.map (λ v. eqb_ℤ v t.version) version) true

module _ {V : Type 0} where
  -- The task is pending again in the next version, with a new deadline and an execute message.
  unfoldable pub release_lease : ℤ → String → ℤ → ServerState V → ServerState V
  release_lease now id version s =
      let new_version = add_i64 version (pos 1) in
      let s1 = record s { tasks = modify id (release new_version) s.tasks } in
      send_to_target id new_version (set_t_timeout id 0 (add_i64 now pending_retry_ttl) s1)

  -- One task of a heartbeat.
  unfoldable pub extend_lease : ℤ → String → String → Option ℤ → ServerState V → ServerState V
  extend_lease now pid id version s = elim (get id s.tasks) [
    | none ↦ s
    | some t ↦
        if holds pid version t
        then set_t_timeout id 1 (saturating_add now (unwrap_or t.ttl (pos 30000))) s
        else s
  ]

module _ (J : Json) where
  open J use {Value}

  unfoldable pub acquire_at : ℤ → Value → String → String → ℤ → Handler Value
  acquire_at now corr_id id pid ttl s = elim (get id s.tasks) [
    | none ↦
        (respond "task.acquire" corr_id 404 (error (concat "task " (concat id " not found"))), s)
    | some t ↦
        if is_pending_task t.state
        then (
          respond "task.acquire" corr_id 200 (
              task (task_record (acquire pid ttl t)) (Option.map promise_record (get id s.promises))
                (preload id s)),
          lease now id pid ttl s,
        )
        else (
          respond "task.acquire" corr_id 409
              (error (concat "task not in pending state (state: " (concat (debug t.state) ")"))),
          s,
        )
  ]

  -- The lease lasts one millisecond at least.
  unfoldable pub task_acquire : ℤ → Value → Value → Handler Value
  task_acquire now corr_id req = do
    id ← require_str J req "id"
    let pid = unwrap_or (get_str J req "pid") ""
    acquire_at now corr_id id pid (max_ℤ (extract_ttl J req) (pos 1))

  unfoldable pub release_at : ℤ → Value → String → Handler Value
  release_at now corr_id id s = elim (get id s.tasks) [
    | none ↦ (respond "task.release" corr_id 404 no_data, s)
    | some t ↦
        if is_acquired t.state
        then (respond "task.release" corr_id 200 no_data, release_lease now id t.version s)
        else (respond "task.release" corr_id 409 no_data, s)
  ]

  unfoldable pub task_release : ℤ → Value → Value → Handler Value
  task_release now corr_id req = do id ← require_str J req "id"; release_at now corr_id id

  -- The loop of `task_heartbeat`; a task with no id ends it with an error.
  unfoldable pub extend_leases : ℤ → Value → String → List Value → Handler Value
  extend_leases now corr_id pid [] s = (respond "task.heartbeat" corr_id 200 no_data, s)
  extend_leases now corr_id pid (task_ref ∷ rest) s = elim (require_str J task_ref "id") [
    | ok id ↦
        extend_leases now corr_id pid rest
          (extend_lease now pid id (get_i64 J task_ref "version") s)
    | err e ↦ (err e, s)
  ]

  unfoldable pub task_heartbeat : ℤ → Value → Value → Handler Value
  task_heartbeat now corr_id req = do
    pid ← require_str J req "pid"
    extend_leases now corr_id pid (unwrap_or (and_then (J.get req "tasks") J.as_array) [])
