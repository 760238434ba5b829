-- ===== src/Server/Step/Settle.antt =====
-- resonate/src/network.rs: what follows a settlement, as transitions.
use resonate_sdk_rs.Prelude.{
  String, ◌≡◌, refl, inl, inr, true, false, some, arith, for_each_inv, Option-cases, if_keep,
}
use resonate_sdk_rs.Prelude.Map.{get}
use resonate_sdk_rs.Prelude.Set
use resonate_sdk_rs.Prelude.I64.{ℤ}
use resonate_sdk_rs.Types.{suspended, is_pending, is_fulfilled}
use resonate_sdk_rs.Server.{Tags, DurablePromise, Task, ServerState}
use resonate_sdk_rs.Server.Timers.{del_t_timeout, send_execute_message}
use resonate_sdk_rs.Server.Settle.{
  fulfill, send_to_target, fulfill_own_task, enqueue_settle, wake, note_resume, resume_awaiter,
  resume_awaiters, notify_subscribers, settle_effects, clear_awaiters, clear_subscribers, is_due,
  awaiters_of, time_out, try_auto_timeout, timeout_state,
}
use resonate_sdk_rs.Server.Step.{
  Rules, Steps, next, settles, links, links_all, absorbs, moves, stops, notes, sends, SamePromise,
  SameSettlement, wakes, fulfills,
}

-- Links of a promise that change leave the rest of it.
module _ {V : Type 0} where
  abbrev pub Relinks : (DurablePromise V → DurablePromise V) → Type 0
  Relinks f = (p : DurablePromise V) → SamePromise p (f p) × SameSettlement p (f p)

module _ {V : Type 0} {Ok : Rules} {s0 : ServerState V} where
  pub send_to_target-Steps :
      (id : String) (version : ℤ) (s : ServerState V)
      → Steps Ok s0 s
      → Steps Ok s0 (send_to_target id version s)
  unfolding send_to_target send_execute_message
  send_to_target-Steps id version s h = grind (arith, next h (sends _))

  fulfill_own_task-Steps :
      (id : String) (s : ServerState V) (t : Task)
      → get id s.tasks ≡ some t
      → is_fulfilled t.state ≡ false
      → Steps Ok s0 s
      → Steps Ok s0 (fulfill_own_task id s)
  unfolding fulfill_own_task del_t_timeout
  fulfill_own_task-Steps id s t e o h =
      next
        (next h (stops id fulfill e (record { same_id = refl; move = fulfills o refl refl }) refl))
        (links_all _ (λ p. ground arith))

  pub enqueue_settle-Steps :
      (id : String) (s : ServerState V) → Steps Ok s0 s → Steps Ok s0 (enqueue_settle id s)
  unfolding enqueue_settle
  enqueue_settle-Steps id s h = elim (Option-cases (get id s.tasks)) [
    | inl e ↦ elim (Option-cases (get id s.promises)) [
      | inl d ↦ rw (e, d, enqueue_settle) h
      | inr (p, d) ↦
          rw (e, d, enqueue_settle)
            (if_keep (Steps Ok s0) _ _ _ (λ _. next h (absorbs id e d)) (λ _. h))
    ]
    | inr (t, e) ↦ rw (e, enqueue_settle) (grind (arith, h, fulfill_own_task-Steps id s t e))
  ]

  wake-Steps :
      (promise_id : String) (now : ℤ) (id : String) (s : ServerState V) (t : Task)
      → get id s.tasks ≡ some t
      → t.state ≡ suspended
      → Steps Ok s0 s
      → Steps Ok s0 (wake promise_id now id t.version s)
  unfolding wake
  wake-Steps promise_id now id s t e o h =
      send_to_target-Steps id _ _
        (next h (moves id _ 0 _ e (record { same_id = refl; move = wakes o refl refl }) refl tt))

  resume_awaiter-Steps :
      (promise_id : String) (now : ℤ) (id : String) (s : ServerState V)
      → Steps Ok s0 s
      → Steps Ok s0 (resume_awaiter promise_id now id s)
  unfolding resume_awaiter note_resume
  resume_awaiter-Steps promise_id now id s h = elim (Option-cases (get id s.tasks)) [
    | inl e ↦ rw (e, resume_awaiter) h
    | inr (t, e) ↦
        rw (e, resume_awaiter)
          (grind (
            arith,
            h,
            wake-Steps promise_id now id s t e,
            next h (
                notes id (λ t. record t { resumes = Set.insert promise_id t.resumes })
                  (λ t. ground arith)),
          ))
  ]

  pub resume_awaiters-Steps :
      (promise_id : String) (now : ℤ) (s : ServerState V)
      → Steps Ok s0 s
      → Steps Ok s0 (resume_awaiters promise_id now s)
  unfolding resume_awaiters
  resume_awaiters-Steps promise_id now s h =
      next
        (for_each_inv (Steps Ok s0) (resume_awaiter promise_id now)
          (λ id u. resume_awaiter-Steps promise_id now id u)
          (awaiters_of (get promise_id s.promises)) s h)
        (links promise_id clear_awaiters (λ p. ground arith))

  pub notify_subscribers-Steps :
      (id : String) (s : ServerState V) → Steps Ok s0 s → Steps Ok s0 (notify_subscribers id s)
  unfolding notify_subscribers
  notify_subscribers-Steps id s h = elim (Option-cases (get id s.promises)) [
    | inl e ↦ rw (e, notify_subscribers) h
    | inr (p, e) ↦
        rw (e, notify_subscribers)
          (grind
            (arith, h, next (next h (links id clear_subscribers (λ q. ground arith))) (sends _)))
  ]

  pub settle_effects-Steps :
      (now : ℤ) (id : String) (s : ServerState V)
      → Steps Ok s0 s
      → Steps Ok s0 (settle_effects now id s)
  unfolding settle_effects
  settle_effects-Steps now id s h =
      notify_subscribers-Steps id _ (resume_awaiters-Steps id now _ (enqueue_settle-Steps id s h))

  module _ (timed : (tags : Tags) → Ok.settle (timeout_state tags)) where
    time_out-Steps :
        (now : ℤ) (id : String) (p : DurablePromise V) (s : ServerState V)
        → get id s.promises ≡ some p
        → is_pending p.state ≡ true
        → Steps Ok s0 s
        → Steps Ok s0 (time_out now id p s)
    unfolding time_out
    time_out-Steps now id p s e o h =
        settle_effects-Steps now id _ (next h (settles id _ e o (ground arith) (timed p.tags)))

    pub try_auto_timeout-Steps :
        (now : ℤ) (id : String) (s : ServerState V)
        → Steps Ok s0 s
        → Steps Ok s0 (try_auto_timeout now id s)
    unfolding try_auto_timeout
    try_auto_timeout-Steps now id s h = elim (Option-cases (get id s.promises)) [
      | inl e ↦ rw (e, try_auto_timeout) h
      | inr (p, e) ↦
          rw (e, try_auto_timeout)
            (if_keep (Steps Ok s0) (is_due now p) (time_out now id p s) s
              (λ due. time_out-Steps now id p s e (ground arith) h) (λ _. h))
    ]
