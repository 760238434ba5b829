-- ===== src/Server/Step/Apply.antt =====
-- resonate/src/network.rs: `apply`, as transitions.
use resonate_sdk_rs.Prelude.{
  String, ◌≡◌, refl, ◌||◌, inl, inr, Bool, true, false, ◌==◌, [], Option, none, some, arith,
  for_each_inv, Option-cases, Bool-cases, if_keep, and_then, unwrap_or, if◌then◌else◌,
}
use resonate_sdk_rs.Prelude.Map.{get}
use resonate_sdk_rs.Prelude.I64.{ℤ}
use resonate_sdk_rs.Json.{Json, get_str}
use resonate_sdk_rs.Server.{ServerState}
use resonate_sdk_rs.Server.Settle.{try_auto_timeout}
use resonate_sdk_rs.Server.Handler.{Handler}
use resonate_sdk_rs.Server.Request.{require_str, settle_state_of, extract_action_data}
use resonate_sdk_rs.Server.Schedules.{
  create_schedule, schedule_at, schedule_create, schedule_get, schedule_delete, has_target_tag,
  schedule_search,
}
use resonate_sdk_rs.Server.Apply.{
  by_id, str_or_empty, action_of, time_out_some, time_out_awaited, time_out_actions, auto_timeouts,
  dispatch_rest, dispatch, apply,
}
use resonate_sdk_rs.Server.Step.{Rules, Steps, here, next, sends, reschedules}
use resonate_sdk_rs.Server.Step.Settle.{try_auto_timeout-Steps}
use resonate_sdk_rs.Server.Step.Promises.{
  >>=-Steps, promise_get-Steps, promise_create-Steps, promise_settle-Steps,
  promise_register_listener-Steps,
}
use resonate_sdk_rs.Server.Step.Lease.{task_acquire-Steps, task_release-Steps, task_heartbeat-Steps}
use resonate_sdk_rs.Server.Step.Create.{task_create-Steps}
use resonate_sdk_rs.Server.Step.Fulfill.{
  fulfill_state, fence_state, task_fulfill-Steps, task_fence-Steps,
}
use resonate_sdk_rs.Server.Step.Suspend.{task_suspend-Steps}
use resonate_sdk_rs.Server.Step.Tick.{TimesOut}

-- The kinds of request that lease a task.
abbrev pub takes_lease : String → Bool
takes_lease kind = kind == "task.create" || kind == "task.acquire"

-- Where there is a lease, it is allowed.
abbrev pub Leasing : Type 0 → Bool → Type 0
Leasing L true = L
Leasing L false = Unit

pub Leasing-any : (b : Bool) → Leasing Unit b
Leasing-any true = tt
Leasing-any false = tt

allowed : {L : Type 0} (b : Bool) → b ≡ true → Leasing L b → L
allowed true e may = may
allowed false e may = absurd (ground arith)

-- Whatever the request settles, it may settle so; and it may lease a task if its kind does.
pub record SettlesIn (J : Json) (Ok : Rules) (req : J.Value) : Type 0 where
  pub settle : Ok.settle (settle_state_of J req)
  pub fulfill : Ok.settle (fulfill_state J req)
  pub fence : Ok.settle (fence_state J req)
  pub lease : Leasing Ok.lease (takes_lease (str_or_empty J req "kind"))

module _ (J : Json) {Ok : Rules} {s0 : ServerState J.Value} where
  schedule_create-Steps :
      (now : ℤ) (corr_id req : J.Value) (s : ServerState J.Value)
      → Steps Ok s0 s
      → Steps Ok s0 (schedule_create J now corr_id req s).1
  unfolding schedule_create schedule_at create_schedule
  schedule_create-Steps now corr_id req s h = >>=-Steps J (require_str J req "id") _ s h λ id.
      elim (Bool-cases (has_target_tag J req)) [
        | inr o ↦ rw (o, schedule_at) h
        | inl o ↦ elim (Option-cases (get id s.schedules)) [
          | inr (stub, e) ↦ rw (o, e, schedule_at) h
          | inl e ↦
              rw (o, e, schedule_at)
                (>>=-Steps J (require_str J req "cron") _ s h λ cron.
                  >>=-Steps J (require_str J req "promiseId") _ s h
                    λ promise_id. next h (reschedules _))
        ]
      ]

  schedule_delete-Steps :
      (corr_id req : J.Value) (s : ServerState J.Value)
      → Steps Ok s0 s
      → Steps Ok s0 (schedule_delete J corr_id req s).1
  unfolding schedule_delete
  schedule_delete-Steps corr_id req s h = >>=-Steps J (require_str J req "id") _ s h λ id.
      elim (Option-cases (get id s.schedules)) [
        | inl e ↦ rw (e) h
        | inr (stub, e) ↦ rw (e) (next h (reschedules _))
      ]

  if_handler-Steps :
      (b : Bool) (f g : Handler J.Value) (s : ServerState J.Value)
      → Steps Ok s0 (f s).1
      → Steps Ok s0 (g s).1
      → Steps Ok s0 ((if b then f else g) s).1
  if_handler-Steps true f g s h k = h
  if_handler-Steps false f g s h k = k

  -- The same, with the outcome of the test.
  if_kind-Steps :
      (b : Bool) (f g : Handler J.Value) (s : ServerState J.Value)
      → (b ≡ true → Steps Ok s0 (f s).1)
      → Steps Ok s0 (g s).1
      → Steps Ok s0 ((if b then f else g) s).1
  if_kind-Steps true f g s h k = h refl
  if_kind-Steps false f g s h k = k

  dispatch_rest-Steps :
      (now : ℤ) (kind : String) (corr_id req : J.Value) (s : ServerState J.Value)
      → SettlesIn J Ok req
      → Steps Ok s0 s
      → Steps Ok s0 (dispatch_rest J now kind corr_id req s).1
  unfolding dispatch_rest schedule_get schedule_search
  dispatch_rest-Steps now kind corr_id req s fine h =
      if_handler-Steps (kind == "task.fence") _ _ s
        (task_fence-Steps J now corr_id req s fine.fence h)
        (if_handler-Steps (kind == "task.suspend") _ _ s (task_suspend-Steps J corr_id req s h) (
          if_handler-Steps (kind == "task.heartbeat") _ _ s
            (task_heartbeat-Steps J now corr_id req s h)
            (if_handler-Steps (kind == "schedule.create") _ _ s
              (schedule_create-Steps now corr_id req s h)
              (if_handler-Steps (kind == "schedule.get") _ _ s
                (>>=-Steps J (require_str J req "id") _ s h (λ id. h))
                (if_handler-Steps (kind == "schedule.delete") _ _ s
                  (schedule_delete-Steps corr_id req s h)
                  (if_handler-Steps (kind == "schedule.search") _ _ s h h))))))

  dispatch-Steps :
      (now : ℤ) (kind : String) (corr_id req : J.Value) (s : ServerState J.Value)
      → SettlesIn J Ok req
      → Leasing Ok.lease (takes_lease kind)
      → Steps Ok s0 s
      → Steps Ok s0 (dispatch J now kind corr_id req s).1
  unfolding dispatch
  dispatch-Steps now kind corr_id req s fine lease h =
      if_handler-Steps (kind == "promise.get") _ _ s (promise_get-Steps J corr_id req s h) (
        if_handler-Steps (kind == "promise.create") _ _ s
          (promise_create-Steps J now corr_id req s h)
          (if_handler-Steps (kind == "promise.settle") _ _ s
            (promise_settle-Steps J now corr_id req s fine.settle h)
            (if_handler-Steps (kind == "promise.register_listener") _ _ s
              (promise_register_listener-Steps J corr_id req s h)
              (if_kind-Steps (kind == "task.create") _ _ s
                (λ o.
                  task_create-Steps J now corr_id req s
                    (allowed (takes_lease kind) (ground arith) lease) h)
                (if_kind-Steps (kind == "task.acquire") _ _ s
                  (λ o.
                    task_acquire-Steps J now corr_id req s
                      (allowed (takes_lease kind) (ground arith) lease) h)
                  (if_handler-Steps (kind == "task.release") _ _ s
                    (task_release-Steps J now corr_id req s h)
                    (if_handler-Steps (kind == "task.fulfill") _ _ s
                      (task_fulfill-Steps J now corr_id req s fine.fulfill h)
                      (dispatch_rest-Steps now kind corr_id req s fine h))))))))

  module _ (timed : TimesOut Ok) where
    time_out_actions-Steps :
        (now : ℤ) (req : J.Value) (s : ServerState J.Value)
        → Steps Ok s0 s
        → Steps Ok s0 (time_out_actions J now req s)
    unfolding time_out_actions
    time_out_actions-Steps now req s h =
        for_each_inv (Steps Ok s0) (time_out_awaited J now)
          (λ a u k. grind (
            arith,
            k,
            try_auto_timeout-Steps timed now (str_or_empty J (extract_action_data J a) "awaited") u
                k,
          ))
          (unwrap_or (and_then (J.get req "actions") J.as_array) []) s h

    time_out_some-Steps :
        (now : ℤ) (o : Option String) (s : ServerState J.Value)
        → Steps Ok s0 s
        → Steps Ok s0 (time_out_some J now o s)
    time_out_some-Steps now none s h = h
    time_out_some-Steps now (some id) s h = try_auto_timeout-Steps timed now id s h

    pub auto_timeouts-Steps :
        (now : ℤ) (kind : String) (req : J.Value) (s : ServerState J.Value)
        → Steps Ok s0 s
        → Steps Ok s0 (auto_timeouts J now kind req s)
    unfolding auto_timeouts
    auto_timeouts-Steps now kind req s h =
        if_keep (Steps Ok s0) (by_id kind) _ _ (λ _. timed_id)
          (λ _.
            if_keep (Steps Ok s0) (kind == "promise.register_listener") _ _
              (λ _. try_auto_timeout-Steps timed now (str_or_empty J req "awaited") s h)
              (λ _.
                if_keep (Steps Ok s0) (kind == "task.create") _ _
                  (λ _.
                    try_auto_timeout-Steps timed now (str_or_empty J (action_of J req) "id") s h)
                  (λ _.
                    if_keep (Steps Ok s0) (kind == "task.fence") _ _
                      (λ _. time_out_some-Steps now (get_str J (action_of J req) "id") _ timed_id)
                      (λ _.
                        if_keep (Steps Ok s0) (kind == "task.suspend") _ _
                          (λ _. time_out_actions-Steps now req _ timed_id) (λ _. h)))))
      where
        timed_id : Steps Ok s0 (try_auto_timeout now (str_or_empty J req "id") s)
        timed_id = try_auto_timeout-Steps timed now (str_or_empty J req "id") s h

module _ (J : Json) (Ok : Rules) where
  -- Where timeouts and the request settle promises in states that `Ok` allows only, and `Ok` allows leases
  -- if the request is of a kind that leases a task, a request is a sequence of
  -- transitions of the abstract system, whatever it returns.
  pub apply-Steps :
      TimesOut Ok
      → (now : ℤ) (req : J.Value) (s : ServerState J.Value) → SettlesIn J Ok req
      → Steps Ok s (apply J now req s).1
  unfolding apply
  apply-Steps timed now req s fine =
      dispatch-Steps J now _ _ req _ fine fine.lease
        (auto_timeouts-Steps J timed now _ req _ (next here (sends [])))
