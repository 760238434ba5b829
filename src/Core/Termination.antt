-- ===== src/Core/Termination.antt =====
-- resonate/src/core.rs: what an execution does that has not returned.
use resonate_sdk_rs.Prelude.{
  ℕ, zero, suc, String, ◌≡◌, refl, ◌⊎◌, inl, inr, true, false, not, ◌&&◌, List, [], ◌∷◌, map,
  Option, none, some, unwrap_or, arith, Option-cases, Bool-cases,
}
use resonate_sdk_rs.Prelude.I64.{ℤ}
use resonate_sdk_rs.Error.{Result, ok, err, Result-cases, Serde-cases}
use resonate_sdk_rs.Types.{is_pending}
use resonate_sdk_rs.Server.{PromiseRecord}
use resonate_sdk_rs.Effects.{Value, data_as_ref, SettleState}
use resonate_sdk_rs.Context.Requests.{converted}
use resonate_sdk_rs.Workflow.Replay.{Shell}
use resonate_sdk_rs.Workflow.Run.{Func}
use resonate_sdk_rs.Sender.{suspends, redirect, PromiseRegisterCallbackData}
use resonate_sdk_rs.Core.{
  Status, done, TaskData, Core, is_timer, fulfill_task, suspend_task, run_once, status, finish,
  execute_loop, execute_until_blocked_inner, execute_until_blocked, conclude,
}
use resonate_sdk_rs.Workflow.{returned}
use resonate_sdk_rs.Core.Protocol.{Finish-cases}

abbrev pub Returns : {W : Type 0} → Option (Result Status) × W → Type 0
Returns out = (r : Result Status) × (out.0 ≡ some r)

module _ {W V : Type 0} (K : Core W V) (id : String) (version : ℤ)
    (p : PromiseRecord (Value V)) where
  -- The calls that a run of the function with todos makes for its suspension.
  abbrev pub actions_of : List String → List PromiseRegisterCallbackData
  actions_of todos = map (λ awaited. record { awaited = awaited; awaiter = id }) todos

  -- So many passes of the loop, one after the other: in each the function ends, it leaves todos, and the
  -- server redirects the suspension; the next pass is preloaded with what the redirect brought.
  pub data Redirects (task : TaskData V) (func : V → Func (Shell W V) V)
      : ℕ → List (PromiseRecord (Value V)) → W → Type 0 where
    stops : (preload : List (PromiseRecord (Value V))) (w : W) → Redirects task func zero preload w
    again :
        (n : ℕ) (preload brought : List (PromiseRecord (Value V))) (w : W) (result : Result V)
        (todo : String) (todos : List String)
        → (run_once K id version p task func preload w).0 ≡ returned result
        → (run_once K id version p task func preload w).1 ≡ ok (todo ∷ todos)
        → (K.task_suspend id version
            (actions_of (todo ∷ todos))
            (run_once K id version p task func preload w).2).0
          ≡ ok (redirect brought)
        → Redirects task func n brought
            (K.task_suspend id version
              (actions_of (todo ∷ todos))
              (run_once K id version p task func preload w).2).1
        → Redirects task func (suc n) preload w

  -- An execution that uses up its passes: of a pending promise that is no timer, of a registered
  -- function, with every pass redirected.
  pub record Exhausts (fuel : ℕ) (preload : Option (List (PromiseRecord (Value V)))) (w : W)
      : Type 0 where
    pub no_timer : is_timer p ≡ false
    pub not_settled : is_pending p.state ≡ true
    pub task : TaskData V
    pub reads : K.deserialize (data_as_ref K.codec.null p.param) ≡ converted task
    pub func : V → Func (Shell W V) V
    pub found : K.lookup task.func ≡ some func
    pub passes : Redirects task func fuel (unwrap_or preload []) (K.heartbeat_start id version w)

  status-Returns :
      (st : Status) (a : Result (PromiseRecord (Value V)) × W) → Returns (status K st a)
  status-Returns st (ok r, w) = (ok st, refl)
  status-Returns st (err e, w) = (err e, refl)

  finish-Returns : (result : Result V) (w : W) → Returns (finish K id version p result w)
  unfolding finish
  finish-Returns (ok v) w =
      status-Returns done (fulfill_task K id version p.id SettleState.resolved v w)
  finish-Returns (err e) w =
      status-Returns done
        (fulfill_task K id version p.id SettleState.rejected (K.codec.encode_error e) w)

  execute_loop-Returns :
      (fuel : ℕ) (task : TaskData V) (func : V → Func (Shell W V) V)
      (preload : List (PromiseRecord (Value V))) (w : W)
      → Returns (execute_loop K fuel id version p task func preload w)
        ⊎ Redirects task func fuel preload w
  unfolding execute_loop suspend_task
  execute_loop-Returns zero task func preload w = inr (stops preload w)
  execute_loop-Returns (suc fuel) task func preload w =
      let once = run_once K id version p task func preload w in
      elim (Finish-cases once.0) [
        | inr (m, o) ↦ inl (rw (o, execute_loop) (_, refl))
        | inl (result, o) ↦ elim (Result-cases once.1) [
          | inr (e, u) ↦ inl (rw (o, u, execute_loop) (_, refl))
          | inl ([], u) ↦ inl (rw (o, u, execute_loop) (finish-Returns result once.2))
          | inl (todo ∷ todos, u) ↦
              let answer = K.task_suspend id version (actions_of (todo ∷ todos)) once.2 in
              elim (Result-cases answer.0) [
                | inr (e, a) ↦ inl (rw (o, u, a, execute_loop, suspend_task) (_, refl))
                | inl (suspends, a) ↦ inl (rw (o, u, a, execute_loop, suspend_task) (_, refl))
                | inl (redirect brought, a) ↦
                    elim (execute_loop-Returns fuel task func brought answer.1) [
                      | inl h ↦ inl (rw (o, u, a, execute_loop, suspend_task) h)
                      | inr h ↦ inr (again fuel preload brought w result todo todos o u a h)
                    ]
              ]
        ]
      ]

  -- The execution of a promise that is no timer that is not due, from the start of the heartbeat.
  inner-Returns :
      (fuel : ℕ) (preload : Option (List (PromiseRecord (Value V)))) (w : W)
      → (is_timer p && is_pending p.state) ≡ false
      → Returns
          (execute_until_blocked_inner K fuel id version p preload (K.heartbeat_start id version w))
        ⊎ Exhausts fuel preload w
  unfolding execute_until_blocked_inner
  inner-Returns fuel preload w due = elim (Bool-cases (is_timer p && not (is_pending p.state))) [
    | inl t ↦ inl (rw (t, execute_until_blocked_inner) (status-Returns done _))
    | inr t ↦ elim (Serde-cases (K.deserialize (data_as_ref K.codec.null p.param))) [
      | inr (x, o) ↦ inl (rw (t, o, execute_until_blocked_inner) (_, refl))
      | inl (task, o) ↦ elim (Option-cases (K.lookup task.func)) [
        | inl u ↦ inl (rw (t, o, u, execute_until_blocked_inner) (_, refl))
        | inr (func, u) ↦ elim (Bool-cases (not (is_pending p.state))) [
          | inl v ↦ inl (rw (t, o, u, v, execute_until_blocked_inner) (status-Returns done _))
          | inr v ↦
              elim (execute_loop-Returns fuel task func (unwrap_or preload [])
                (K.heartbeat_start id version w)) [
                  | inl h ↦ inl (rw (t, o, u, v, execute_until_blocked_inner) h)
                  | inr h ↦ inr (record {
                    no_timer = ground arith;
                    not_settled = ground arith;
                    task = task;
                    reads = o;
                    func = func;
                    found = u;
                    passes = h;
                  })
                ]
        ]
      ]
    ]
  ]

  conclude-Returns :
      (out : Option (Result Status) × W) → Returns out → Returns (conclude K id version out)
  conclude-Returns (none, w) (r, e) = absurd (ground arith)
  conclude-Returns (some (ok st), w) h = (ok st, refl)
  conclude-Returns (some (err x), w) h = (err x, refl)

  -- With fuel for so many passes, an execution returns, unless the promise is pending and no timer, its
  -- function is registered, and in every one of these passes, each preloaded with what the redirect
  -- before it brought, the function ends with todos and the server redirects its suspension.
  pub execute_until_blocked-Returns :
      (fuel : ℕ) (preload : Option (List (PromiseRecord (Value V)))) (w : W)
      → Returns (execute_until_blocked K fuel id version p preload w) ⊎ Exhausts fuel preload w
  unfolding execute_until_blocked
  execute_until_blocked-Returns fuel preload w =
      elim (Bool-cases (is_timer p && is_pending p.state)) [
        | inl t ↦ inl (rw (t, execute_until_blocked) (_, refl))
        | inr t ↦ elim (inner-Returns fuel preload w t) [
          | inl h ↦ inl (
              rw (t, execute_until_blocked)
                (conclude-Returns
                  (execute_until_blocked_inner K fuel id version p preload
                    (K.heartbeat_start id version w))
                  h))
          | inr h ↦ inr h
        ]
      ]
