-- ===== src/Server/Tick.antt =====
-- resonate/src/network.rs: `tick`, which settles the promises that are due, ends the leases that have
-- expired, and dispatches pending tasks again.
pub mod Settles
use resonate_sdk_rs.Prelude.{
  String, ◌&&◌, List, Option, none, some, is_some_and, for_each, filter_map, eqb, if◌then◌else◌,
}
use resonate_sdk_rs.Prelude.Map.{get, modify}
use resonate_sdk_rs.Prelude.I64.{ℤ, leb_ℤ, eqb_ℤ, add_i64}
use resonate_sdk_rs.Types.{is_pending, is_pending_task, is_acquired}
use resonate_sdk_rs.Server.{DurablePromise, PTimeout, TTimeout, ServerState, pending_retry_ttl}
use resonate_sdk_rs.Server.Timers.{del_p_timeout, set_t_timeout}
use resonate_sdk_rs.Server.Settle.{
  timeout_state, enqueue_settle, resume_awaiters, notify_subscribers, send_to_target,
}
use resonate_sdk_rs.Server.Tasks.Lease.{release_lease}

module _ {V : Type 0} where
  -- The deadline has come and its promise is pending.
  abbrev pub due_promise : ℤ → ServerState V → PTimeout → Option String
  due_promise now s pt =
      if leb_ℤ pt.timeout now && is_some_and (get pt.id s.promises) (λ p. is_pending p.state)
      then some pt.id
      else none

  unfoldable pub promise_settles : ℤ → ServerState V → List String
  promise_settles now s = filter_map (due_promise now s) s.p_timeouts

  abbrev pub expired_lease : ℤ → ServerState V → TTimeout → Option (String × ℤ)
  expired_lease now s t = elim (get t.id s.tasks) [
    | none ↦ none
    | some task ↦
        if leb_ℤ t.timeout now && (eqb t.typ 1 && is_acquired task.state)
        then some (t.id, task.version)
        else none
  ]

  unfoldable pub task_releases : ℤ → ServerState V → List (String × ℤ)
  task_releases now s = filter_map (expired_lease now s) s.t_timeouts

  abbrev pub due_retry : ℤ → ServerState V → TTimeout → Option String
  due_retry now s t =
      if leb_ℤ t.timeout now
        && (eqb t.typ 0 && is_some_and (get t.id s.tasks) (λ task. is_pending_task task.state))
      then some t.id
      else none

  unfoldable pub task_retries : ℤ → ServerState V → List String
  task_retries now s = filter_map (due_retry now s) s.t_timeouts

  -- Phase 1, for one promise.
  abbrev pub timed_out : V → DurablePromise V → DurablePromise V → DurablePromise V
  timed_out null p q = record q {
    state = timeout_state p.tags;
    value = null;
    settled_at = some p.timeout_at;
  }

  unfoldable pub settle_due : V → String → ServerState V → ServerState V
  settle_due null id s = elim (get id s.promises) [
    | none ↦ s
    | some p ↦
        if is_pending p.state
        then del_p_timeout id (record s { promises = modify id (timed_out null p) s.promises })
        else s
  ]

  -- Phase 3, for one promise.
  unfoldable pub announce : ℤ → String → ServerState V → ServerState V
  announce now id s = notify_subscribers id (resume_awaiters id now s)

  -- Phase 4, for one lease.
  unfoldable pub release_expired : ℤ → String × ℤ → ServerState V → ServerState V
  release_expired now (id, version) s = elim (get id s.tasks) [
    | none ↦ s
    | some t ↦
        if is_acquired t.state && eqb_ℤ t.version version
        then release_lease now id t.version s
        else s
  ]

  -- Phase 5, for one task.
  unfoldable pub retry_pending : ℤ → String → ServerState V → ServerState V
  retry_pending now id s = elim (get id s.tasks) [
    | none ↦ s
    | some t ↦
        if is_pending_task t.state
        then send_to_target id t.version (set_t_timeout id 0 (add_i64 now pending_retry_ttl) s)
        else s
  ]

  unfoldable pub tick : V → ℤ → ServerState V → ServerState V
  tick null now s =
      let settles = promise_settles now s in
      let releases = task_releases now s in
      let retries = task_retries now s in
      let s1 = for_each (settle_due null) settles s in
      let s2 = for_each enqueue_settle settles s1 in
      let s3 = for_each (announce now) settles s2 in
      let s4 = for_each (release_expired now) releases s3 in for_each (retry_pending now) retries s4
