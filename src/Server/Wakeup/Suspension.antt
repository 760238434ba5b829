-- ===== src/Server/Wakeup/Suspension.antt =====
-- resonate/src/network.rs: `task_suspend` and `promise_settle` together.
use resonate_sdk_rs.Prelude.{
  ℕ, String, ◌≡◌, ◌≢◌, refl, ap, inl, inr, true, false, eq_refl, some, arith, Bool-cases,
  Option-cases, List,
}
use resonate_sdk_rs.Prelude.Map.{get, get-modify}
use resonate_sdk_rs.Prelude.Set.{contains, is_empty}
use resonate_sdk_rs.Prelude.I64.{ℤ}
use resonate_sdk_rs.Error.{Result, ok, err}
use resonate_sdk_rs.Json.{Json}
use resonate_sdk_rs.Types.{suspended, is_acquired}
use resonate_sdk_rs.Server.{DurablePromise, Task, ServerState}
use resonate_sdk_rs.Server.Timers.{del_t_timeout}
use resonate_sdk_rs.Server.Handler.{Response, no_data, respond}
use resonate_sdk_rs.Server.Request.{settle_state_of, get_or_null}
use resonate_sdk_rs.Server.Promises.{settle_at}
use resonate_sdk_rs.Server.Tasks.Suspend.{
  register_all, suspend, suspend_task, suspend_reply, suspend_leased, suspend_at, callbacks,
}
use resonate_sdk_rs.Server.Step.Suspend.{register_all-tasks}
use resonate_sdk_rs.Server.Wakeup.{AwakeAt, settle_pending_wakes}
use resonate_sdk_rs.Server.Wakeup.Registered.{Awaits, register_all_each}

module _ (J : Json) where
  open J use {Value}

  abbrev status_of : Result (Response Value) → ℕ
  status_of (ok r) = r.status
  status_of (err e) = 0

  -- What a reply of 200 says of the state.
  abbrev Suspends :
      Value → String → ServerState Value → Result (Response Value) × ServerState Value → Type 0
  Suspends req k s r =
      status_of r.0 ≡ 200
      → ((register_all k (callbacks J req) false s).0 ≡ false)
        × (r.1 ≡ suspend_task k (register_all k (callbacks J req) false s).1)

  suspend_reply-Suspends :
      (corr_id req : Value) (k : String) (s : ServerState Value)
      → Suspends req k s (suspend_reply J corr_id k (register_all k (callbacks J req) false s))
  unfolding suspend_reply
  suspend_reply-Suspends corr_id req k s =
      elim (Bool-cases (register_all k (callbacks J req) false s).0) [
        | inl settled ↦ rw settled (λ done. absurd (ground arith))
        | inr unsettled ↦ rw unsettled (λ done. (refl, refl))
      ]

  suspend_at-Suspends :
      (corr_id req : Value) (k : String) (s : ServerState Value)
      → Suspends req k s (suspend_at J corr_id req k s)
  unfolding suspend_at suspend_leased
  suspend_at-Suspends corr_id req k s = elim (Option-cases (get k s.tasks)) [
    | inl e ↦ rw (e, suspend_at) (λ done. absurd (ground arith))
    | inr (t, e) ↦ elim (Bool-cases (is_acquired t.state)) [
      | inr o ↦ rw (e, o, suspend_at) (λ done. absurd (ground arith))
      | inl o ↦ elim (Bool-cases (is_empty t.resumes)) [
        | inr some_resumes ↦
            rw (e, o, some_resumes, suspend_at, suspend_leased) (λ done. absurd (ground arith))
        | inl no_resumes ↦
            rw (e, o, no_resumes, suspend_at, suspend_leased)
              (suspend_reply-Suspends corr_id req k s)
      ]
    ]
  ]

  -- The task after a suspension, and what it awaits.
  suspend_task-task :
      (k : String) (ids : List String) (s : ServerState Value) (t : Task)
      → get k s.tasks ≡ some t
      → get k (suspend_task k (register_all k ids false s).1).tasks ≡ some (suspend t)
  unfolding suspend_task del_t_timeout
  suspend_task-task k ids s t e = ground (
    arith,
    get-modify k k suspend (register_all k ids false s).1.tasks,
    register_all-tasks k ids false s,
    eq_refl k,
  )

  suspend_task-Awaits :
      (k id : String) (s : ServerState Value) → Awaits k id s → Awaits k id (suspend_task k s)
  unfolding suspend_task del_t_timeout
  suspend_task-Awaits k id s h = h

  -- A settlement in a state where a suspended task awaits the promise.
  settle_at_wakes :
      (now : ℤ) (corr_id req : Value) (k id : String) (s : ServerState Value) (t : Task)
      → id ≢ k
      → Awaits k id s
      → get k s.tasks ≡ some t
      → t.state ≡ suspended
      → AwakeAt k id t.version (settle_at J now corr_id req id s).1
  unfolding settle_at
  settle_at_wakes now corr_id req k id s t other (p, e, o, c) et sus =
      rw (e, o, settle_at)
        (settle_pending_wakes k id now (settle_state_of J req) (get_or_null J req "value") s p t
          other e c et sus)

  -- No wake-up is lost: when `task_suspend` has suspended a task with the reply 200, the settlement of
  -- any promise among its callbacks that the server knew, other than the task's own, leaves the task
  -- pending in the next version, with that promise among its resumes.
  pub suspend-settle_wakes :
      (now : ℤ) (corr_id req corr_id1 req1 : Value) (k id : String) (s : ServerState Value)
      (t : Task) (p : DurablePromise Value)
      → get k s.tasks ≡ some t
      → get id s.promises ≡ some p
      → id ≢ k
      → contains id (callbacks J req) ≡ true
      → (suspend_at J corr_id req k s).0 ≡ respond "task.suspend" corr_id 200 no_data
      → AwakeAt k id t.version (settle_at J now corr_id1 req1 id (suspend_at J corr_id req k s).1).1
  suspend-settle_wakes now corr_id req corr_id1 req1 k id s t p et ep other c done =
      let (unsettled, e) = suspend_at-Suspends corr_id req k s (ap status_of done) in
      rw e (
        settle_at_wakes now corr_id1 req1 k id _ (suspend t) other
          (suspend_task-Awaits k id _
            (register_all_each k id (callbacks J req) false s c (p, ep) unsettled))
          (suspend_task-task k (callbacks J req) s t et) refl)
