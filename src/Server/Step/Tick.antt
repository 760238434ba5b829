-- ===== src/Server/Step/Tick.antt =====
-- resonate/src/network.rs: `tick`, as transitions.
use resonate_sdk_rs.Prelude.{String, inl, inr, List, arith, for_each_inv, Option-cases, Bool-cases}
use resonate_sdk_rs.Prelude.Map.{get}
use resonate_sdk_rs.Prelude.I64.{ℤ}
use resonate_sdk_rs.Types.{is_pending, is_pending_task}
use resonate_sdk_rs.Server.{Tags, ServerState}
use resonate_sdk_rs.Server.Settle.{timeout_state, enqueue_settle}
use resonate_sdk_rs.Server.Tick.{
  settle_due, timed_out, announce, release_expired, retry_pending, tick, promise_settles,
  task_releases, task_retries,
}
use resonate_sdk_rs.Server.Step.{Rules, Steps, here, next, settles, renews}
use resonate_sdk_rs.Server.Step.Settle.{
  enqueue_settle-Steps, resume_awaiters-Steps, notify_subscribers-Steps, send_to_target-Steps,
}
use resonate_sdk_rs.Server.Step.Lease.{release_lease-Steps}

-- A promise that times out may settle so.
abbrev pub TimesOut : Rules → Type 0
TimesOut Ok = (tags : Tags) → Ok.settle (timeout_state tags)

module _ {V : Type 0} {Ok : Rules} {s0 : ServerState V} where
  settle_due-Steps :
      TimesOut Ok
      → (null : V) (id : String) (s : ServerState V) → Steps Ok s0 s
      → Steps Ok s0 (settle_due null id s)
  unfolding settle_due
  settle_due-Steps timed null id s h = elim (Option-cases (get id s.promises)) [
    | inl e ↦ rw (e, settle_due) h
    | inr (p, e) ↦ elim (Bool-cases (is_pending p.state)) [
      | inl o ↦
          rw (e, o, settle_due)
            (next h (settles id (timed_out null p) e o (ground arith) (timed p.tags)))
      | inr o ↦ rw (e, o, settle_due) h
    ]
  ]

  announce-Steps :
      (now : ℤ) (id : String) (s : ServerState V) → Steps Ok s0 s → Steps Ok s0 (announce now id s)
  unfolding announce
  announce-Steps now id s h = notify_subscribers-Steps id _ (resume_awaiters-Steps id now s h)

  release_expired-Steps :
      (now : ℤ) (r : String × ℤ) (s : ServerState V)
      → Steps Ok s0 s
      → Steps Ok s0 (release_expired now r s)
  unfolding release_expired
  release_expired-Steps now (id, version) s h = elim (Option-cases (get id s.tasks)) [
    | inl e ↦ rw (e, release_expired) h
    | inr (t, e) ↦ rw (e, release_expired) (grind (arith, h, release_lease-Steps now id s t e))
  ]

  retry_pending-Steps :
      (now : ℤ) (id : String) (s : ServerState V)
      → Steps Ok s0 s
      → Steps Ok s0 (retry_pending now id s)
  unfolding retry_pending
  retry_pending-Steps now id s h = elim (Option-cases (get id s.tasks)) [
    | inl e ↦ rw (e, retry_pending) h
    | inr (t, e) ↦ elim (Bool-cases (is_pending_task t.state)) [
      | inl o ↦
          rw (e, o, retry_pending)
            (send_to_target-Steps id _ _ (next h (renews id 0 _ e (ground arith))))
      | inr o ↦ rw (e, o, retry_pending) h
    ]
  ]

module _ {V : Type 0} (Ok : Rules) where
  -- Where timeouts settle promises in states that `Ok` allows only, a tick is a sequence of transitions of the
  -- abstract system.
  pub tick-Steps :
      TimesOut Ok → (null : V) (now : ℤ) (s : ServerState V) → Steps Ok s (tick null now s)
  unfolding tick
  tick-Steps timed null now s =
      for_each_inv (Steps Ok s) (retry_pending now) (retry_pending-Steps now) (task_retries now s) _
        (for_each_inv (Steps Ok s) (release_expired now) (release_expired-Steps now)
          (task_releases now s) _
          (for_each_inv (Steps Ok s) (announce now) (announce-Steps now) settled _ (
            for_each_inv (Steps Ok s) enqueue_settle enqueue_settle-Steps settled _ (
              for_each_inv (Steps Ok s) (settle_due null) (settle_due-Steps timed null) settled s
                here))))
    where
      settled : List String
      settled = promise_settles now s
