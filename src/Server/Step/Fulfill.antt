-- ===== src/Server/Step/Fulfill.antt =====
-- resonate/src/network.rs: `task_fulfill` and `task_fence`, as transitions.
use resonate_sdk_rs.Prelude.{String, inl, inr, Option-cases, Bool-cases, unwrap_or}
use resonate_sdk_rs.Prelude.Map.{get}
use resonate_sdk_rs.Prelude.I64.{ℤ, pos}
use resonate_sdk_rs.Error.{Result, ok, err}
use resonate_sdk_rs.Json.{Json, get_i64}
use resonate_sdk_rs.Types.{PromiseState, is_pending, is_acquired}
use resonate_sdk_rs.Server.{ServerState}
use resonate_sdk_rs.Server.Handler.{Response}
use resonate_sdk_rs.Server.Request.{require_str, extract_action_data, get_or_null, settle_state_of}
use resonate_sdk_rs.Server.Tasks.Fulfill.{
  settle_if_pending, fulfill_writes, fulfill_leased, fulfill_at, task_fulfill,
}
use resonate_sdk_rs.Server.Tasks.Fence.{
  is_settle, flat_action, run_action, fence_reply, fence_at, task_fence, leased,
}
use resonate_sdk_rs.Server.Step.{Rules, Steps}
use resonate_sdk_rs.Server.Step.Settle.{
  enqueue_settle-Steps, resume_awaiters-Steps, notify_subscribers-Steps,
}
use resonate_sdk_rs.Server.Step.Promises.{
  >>=-Steps, settle_pending-Steps, promise_create-Steps, promise_settle-Steps,
}

-- The states in which a fulfill request, and a settlement under a fence, settle.
module _ (J : Json) where
  abbrev pub fulfill_state : J.Value → PromiseState
  fulfill_state req = settle_state_of J (extract_action_data J (get_or_null J req "action"))

  abbrev pub fence_state : J.Value → PromiseState
  fence_state req = settle_state_of J (flat_action J "promise.settle" (get_or_null J req "action"))

module _ {V : Type 0} {Ok : Rules} {s0 : ServerState V} where
  settle_if_pending-Steps :
      (now : ℤ) (id : String) (state : PromiseState) (value : V) (s : ServerState V)
      → Ok.settle state
      → Steps Ok s0 s
      → Steps Ok s0 (settle_if_pending now id state value s)
  unfolding settle_if_pending
  settle_if_pending-Steps now id state value s fine h = elim (Option-cases (get id s.promises)) [
    | inl e ↦ rw (e, settle_if_pending) h
    | inr (p, e) ↦ elim (Bool-cases (is_pending p.state)) [
      | inl o ↦
          rw (e, o, settle_if_pending) (settle_pending-Steps now id state value s p e o fine h)
      | inr o ↦ rw (e, o, settle_if_pending) h
    ]
  ]

  fulfill_writes-Steps :
      (now : ℤ) (task_id promise_id : String) (state : PromiseState) (value : V) (s : ServerState V)
      → Ok.settle state
      → Steps Ok s0 s
      → Steps Ok s0 (fulfill_writes now task_id promise_id state value s)
  unfolding fulfill_writes
  fulfill_writes-Steps now task_id promise_id state value s fine h =
      notify_subscribers-Steps promise_id _ (
        resume_awaiters-Steps promise_id now _ (
          enqueue_settle-Steps task_id _
            (settle_if_pending-Steps now promise_id state value s fine h)))

module _ (J : Json) {Ok : Rules} {s0 : ServerState J.Value} where
  fulfill_at-Steps :
      (now : ℤ) (corr_id req : J.Value) (id : String) (s : ServerState J.Value)
      → Ok.settle (fulfill_state J req)
      → Steps Ok s0 s
      → Steps Ok s0 (fulfill_at J now corr_id req id s).1
  unfolding fulfill_at fulfill_leased
  fulfill_at-Steps now corr_id req id s fine h = elim (Option-cases (get id s.tasks)) [
    | inl e ↦ rw (e, fulfill_at) h
    | inr (t, e) ↦ elim (Bool-cases (is_acquired t.state)) [
      | inl o ↦ rw (e, o, fulfill_at) (fulfill_writes-Steps now id _ _ _ s fine h)
      | inr o ↦ rw (e, o, fulfill_at) h
    ]
  ]

  pub task_fulfill-Steps :
      (now : ℤ) (corr_id req : J.Value) (s : ServerState J.Value)
      → Ok.settle (fulfill_state J req)
      → Steps Ok s0 s
      → Steps Ok s0 (task_fulfill J now corr_id req s).1
  unfolding task_fulfill
  task_fulfill-Steps now corr_id req s fine h =
      >>=-Steps J (require_str J req "id") _ s h
        (λ id. fulfill_at-Steps now corr_id req id s fine h)

  run_action-Steps :
      (now : ℤ) (corr_id raw : J.Value) (s : ServerState J.Value)
      → Ok.settle (settle_state_of J (flat_action J "promise.settle" raw))
      → Steps Ok s0 s
      → Steps Ok s0 (run_action J now corr_id raw s).1
  unfolding run_action
  run_action-Steps now corr_id raw s fine h = elim (Bool-cases (is_settle J raw)) [
    | inl o ↦ rw (o, run_action) (promise_settle-Steps J now corr_id _ s fine h)
    | inr o ↦ rw (o, run_action) (promise_create-Steps J now corr_id _ s h)
  ]

  fence_reply-Steps :
      (corr_id : J.Value) (id : String) (r : Result (Response J.Value) × ServerState J.Value)
      → Steps Ok s0 r.1
      → Steps Ok s0 (fence_reply J corr_id id r).1
  unfolding fence_reply
  fence_reply-Steps corr_id id (ok inner, s) h = h
  fence_reply-Steps corr_id id (err e, s) h = h

  fence_at-Steps :
      (now : ℤ) (corr_id req : J.Value) (id : String) (s : ServerState J.Value)
      → Ok.settle (fence_state J req)
      → Steps Ok s0 s
      → Steps Ok s0 (fence_at J now corr_id req id s).1
  unfolding fence_at
  fence_at-Steps now corr_id req id s fine h = elim (Option-cases (get id s.tasks)) [
    | inl e ↦ rw (e, fence_at) h
    | inr (t, e) ↦ elim (Bool-cases (leased (unwrap_or (get_i64 J req "version") (pos 0)) t)) [
      | inl o ↦
          rw (e, o, fence_at)
            (fence_reply-Steps corr_id id _ (run_action-Steps now corr_id _ s fine h))
      | inr o ↦ rw (e, o, fence_at) h
    ]
  ]

  pub task_fence-Steps :
      (now : ℤ) (corr_id req : J.Value) (s : ServerState J.Value)
      → Ok.settle (fence_state J req)
      → Steps Ok s0 s
      → Steps Ok s0 (task_fence J now corr_id req s).1
  unfolding task_fence
  task_fence-Steps now corr_id req s fine h =
      >>=-Steps J (require_str J req "id") _ s h (λ id. fence_at-Steps now corr_id req id s fine h)
