-- ===== src/Server/Step/Promises.antt =====
-- resonate/src/network.rs: the promise operations, as transitions.
use resonate_sdk_rs.Prelude.{
  ℕ, String, ◌≡◌, refl, inl, inr, true, false, none, some, arith, Option-cases, Bool-cases,
}
use mathlib.Core.Path.{subst}
use resonate_sdk_rs.Prelude.Map.{get, insert, contains_key}
use resonate_sdk_rs.Prelude.I64.{ℤ, leb_ℤ, add_i64}
use resonate_sdk_rs.Error.{Result, ok, err}
use resonate_sdk_rs.Json.{Json}
use resonate_sdk_rs.Types.{PromiseState, is_pending}
use resonate_sdk_rs.Server.{Tags, DurablePromise, Task, ServerState, pending_retry_ttl}
use resonate_sdk_rs.Server.Timers.{set_p_timeout, set_t_timeout, send_execute_message}
use resonate_sdk_rs.Server.Settle.{has_target, timeout_state}
use resonate_sdk_rs.Server.Handler.{Handler, ◌>>=◌}
use resonate_sdk_rs.Server.Request.{require_str, settle_state_of}
use resonate_sdk_rs.Server.Promises.{
  expired_promise, pending_promise, pending_task, delay_after, dispatch_new, insert_promise,
  create_new, settle_pending, settled_promise, create_at, promise_create, settle_at, promise_settle,
  subscribed, listen_at, promise_register_listener, promise_get,
}
use resonate_sdk_rs.Server.Step.{
  Rules, Steps, next, settles, links, creates, spawns, sends, spawn, deadline,
}
use resonate_sdk_rs.Server.Step.Settle.{settle_effects-Steps}

-- A target that is found is a target that is there, and the other way round.
has_target_of_get :
    (tags : Tags) (address : String)
    → get "resonate:target" tags ≡ some address
    → has_target tags ≡ true
unfolding has_target
has_target_of_get tags address e = rw (e, contains_key)

not-has_target_of_get : (tags : Tags) → get "resonate:target" tags ≡ none → has_target tags ≡ false
unfolding has_target
not-has_target_of_get tags e = rw (e, contains_key)

pub timeout_state-settled : (tags : Tags) → is_pending (timeout_state tags) ≡ false
unfolding timeout_state
timeout_state-settled tags = ground arith

module _ {V : Type 0} where
  pub expired_no_deadline :
      (id : String) (param null : V) (tags : Tags) (timeout_at : ℤ)
      → deadline (expired_promise id param null tags timeout_at) ≡ none
  expired_no_deadline id param null tags timeout_at = rw (timeout_state-settled tags)

-- `spawn` where the promise has a target.
module _ {V : Type 0} where
  abbrev spawn_targeted : String → DurablePromise V → Task → ℕ → ℤ → ServerState V → ServerState V
  spawn_targeted id p t typ at s =
      let s1 = set_p_timeout id p.timeout_at (record s { promises = insert id p s.promises }) in
      set_t_timeout id typ at (record s1 { tasks = insert id t s1.tasks })

  spawn-target :
      (id : String) (p : DurablePromise V) (t : Task) (typ : ℕ) (at : ℤ) (s : ServerState V)
      → has_target p.tags ≡ true
      → spawn id p t typ at s ≡ spawn_targeted id p t typ at s
  spawn-target id p t typ at s e = rw e

module _ {V : Type 0} {Ok : Rules} {s0 : ServerState V} where
  dispatch_new-Steps :
      (now : ℤ) (id : String) (p : DurablePromise V) (address : String) (s : ServerState V)
      → get id s.promises ≡ none
      → p.id ≡ id
      → is_pending p.state ≡ true
      → get "resonate:target" p.tags ≡ some address
      → Steps Ok s0 s
      → Steps Ok s0 (dispatch_new now id p.tags p.timeout_at address (insert_promise id p s))
  unfolding dispatch_new insert_promise send_execute_message
  dispatch_new-Steps now id p address s e i o target h =
      elim (Option-cases (delay_after now p.tags)) [
        | inl d ↦ rw (d, dispatch_new) (next (spawned (add_i64 now pending_retry_ttl)) (sends _))
        | inr (at, d) ↦ rw (d, dispatch_new) (spawned at)
      ]
    where
      spawned : (at : ℤ) → Steps Ok s0 (spawn_targeted id p (pending_task id) 0 at s)
      spawned at =
          subst (Steps Ok s0)
            (spawn-target id p (pending_task id) 0 at s (has_target_of_get p.tags address target))
            (next h (spawns id p (pending_task id) 0 at e i o refl refl))

  pub create_new-Steps :
      (now : ℤ) (id : String) (param null : V) (tags : Tags) (timeout_at : ℤ) (s : ServerState V)
      → get id s.promises ≡ none
      → Steps Ok s0 s
      → Steps Ok s0 (create_new now id param null tags timeout_at s)
  unfolding create_new insert_promise
  create_new-Steps now id param null tags timeout_at s e h =
      elim (Bool-cases (leb_ℤ timeout_at now)) [
        | inl late ↦
            rw (late, create_new)
              (settle_effects-Steps now id _ (
                next h (
                  creates id (expired_promise id param null tags timeout_at) e refl
                    (expired_no_deadline id param null tags timeout_at))))
        | inr early ↦ elim (Option-cases (get "resonate:target" tags)) [
          | inl no_target ↦
              rw (early, no_target, create_new)
                (next h (creates id p e refl (rw (not-has_target_of_get tags no_target))))
          | inr (address, target) ↦
              rw (early, target, create_new)
                (dispatch_new-Steps now id p address s e refl refl target h)
        ]
      ]
    where
      p : DurablePromise V
      p = pending_promise id param null tags timeout_at now

  pub settle_pending-Steps :
      (now : ℤ) (id : String) (state : PromiseState) (value : V) (s : ServerState V)
      (p : DurablePromise V)
      → get id s.promises ≡ some p
      → is_pending p.state ≡ true
      → Ok.settle state
      → Steps Ok s0 s
      → Steps Ok s0 (settle_pending now id state value s)
  unfolding settle_pending
  settle_pending-Steps now id state value s p e o fine h =
      next h (settles id (settled_promise now state value) e o (ground arith) fine)

module _ (J : Json) {Ok : Rules} {s0 : ServerState J.Value} where
  -- A request of which only the reading can fail.
  pub >>=-Steps :
      {A : Type 0} (r : Result A) (f : A → Handler J.Value) (s : ServerState J.Value)
      → Steps Ok s0 s
      → ((a : A) → Steps Ok s0 (f a s).1)
      → Steps Ok s0 ((r >>= f) s).1
  >>=-Steps (ok a) f s h k = k a
  >>=-Steps (err e) f s h k = h

  create_at-Steps :
      (now : ℤ) (corr_id req : J.Value) (id : String) (s : ServerState J.Value)
      → Steps Ok s0 s
      → Steps Ok s0 (create_at J now corr_id req id s).1
  unfolding create_at
  create_at-Steps now corr_id req id s h = elim (Option-cases (get id s.promises)) [
    | inl e ↦ rw (e, create_at) (create_new-Steps now id _ _ _ _ s e h)
    | inr (p, e) ↦ rw (e, create_at) h
  ]

  pub promise_create-Steps :
      (now : ℤ) (corr_id req : J.Value) (s : ServerState J.Value)
      → Steps Ok s0 s
      → Steps Ok s0 (promise_create J now corr_id req s).1
  unfolding promise_create
  promise_create-Steps now corr_id req s h =
      >>=-Steps (require_str J req "id") _ s h (λ id. create_at-Steps now corr_id req id s h)

  settle_at-Steps :
      (now : ℤ) (corr_id req : J.Value) (id : String) (s : ServerState J.Value)
      → Ok.settle (settle_state_of J req)
      → Steps Ok s0 s
      → Steps Ok s0 (settle_at J now corr_id req id s).1
  unfolding settle_at
  settle_at-Steps now corr_id req id s fine h = elim (Option-cases (get id s.promises)) [
    | inl e ↦ rw (e, settle_at) h
    | inr (p, e) ↦ elim (Bool-cases (is_pending p.state)) [
      | inl o ↦
          rw (e, o, settle_at)
            (settle_effects-Steps now id _ (settle_pending-Steps now id _ _ s p e o fine h))
      | inr o ↦ rw (e, o, settle_at) h
    ]
  ]

  pub promise_settle-Steps :
      (now : ℤ) (corr_id req : J.Value) (s : ServerState J.Value)
      → Ok.settle (settle_state_of J req)
      → Steps Ok s0 s
      → Steps Ok s0 (promise_settle J now corr_id req s).1
  unfolding promise_settle
  promise_settle-Steps now corr_id req s fine h =
      >>=-Steps (require_str J req "id") _ s h (λ id. settle_at-Steps now corr_id req id s fine h)

  listen_at-Steps :
      (corr_id : J.Value) (awaited address : String) (s : ServerState J.Value)
      → Steps Ok s0 s
      → Steps Ok s0 (listen_at J corr_id awaited address s).1
  unfolding listen_at
  listen_at-Steps corr_id awaited address s h = elim (Option-cases (get awaited s.promises)) [
    | inl e ↦ rw (e, listen_at) h
    | inr (p, e) ↦
        rw (e, listen_at) (next h (links awaited (subscribed J address) (λ q. ground arith)))
  ]

  pub promise_register_listener-Steps :
      (corr_id req : J.Value) (s : ServerState J.Value)
      → Steps Ok s0 s
      → Steps Ok s0 (promise_register_listener J corr_id req s).1
  unfolding promise_register_listener
  promise_register_listener-Steps corr_id req s h =
      >>=-Steps (require_str J req "awaited") _ s h λ awaited.
        >>=-Steps (require_str J req "address") _ s h
          λ address. listen_at-Steps corr_id awaited address s h

  pub promise_get-Steps :
      (corr_id req : J.Value) (s : ServerState J.Value)
      → Steps Ok s0 s
      → Steps Ok s0 (promise_get J corr_id req s).1
  unfolding promise_get
  promise_get-Steps corr_id req s h = >>=-Steps (require_str J req "id") _ s h (λ id. h)
