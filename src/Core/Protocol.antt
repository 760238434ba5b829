-- ===== src/Core/Protocol.antt =====
-- resonate/src/core.rs: the requests that a worker makes for a task, in their order.
use resonate_sdk_rs.Prelude.{
  ℕ, zero, suc, String, ◌≡◌, refl, sym, ap, ◌∙◌, subst, ◌⊎◌, inl, inr, true, false, not, ◌&&◌, List,
  [], ◌∷◌, map, Option, none, some, unwrap_or, arith, Option-cases, Bool-cases,
}
use resonate_sdk_rs.Prelude.I64.{ℤ}
use resonate_sdk_rs.Error.{Error, Result, ok, err, Result-cases, Serde-cases}
use resonate_sdk_rs.Types.{is_pending}
use resonate_sdk_rs.Server.{PromiseRecord}
use resonate_sdk_rs.Effects.{Value, data_as_ref, SettleState, PromiseSettleReq, new}
use resonate_sdk_rs.Info.{Info}
use resonate_sdk_rs.Context.{Context}
use resonate_sdk_rs.Workflow.{Finish, returned, panicked}
use resonate_sdk_rs.Workflow.Replay.{Shell}
use resonate_sdk_rs.Workflow.Run.{Func, execute}
use resonate_sdk_rs.Sender.{
  TaskAcquireResult, SuspendResult, suspends, redirect, PromiseRegisterCallbackData,
}
use resonate_sdk_rs.Core.{
  Status, done, suspended, TaskData, Core, is_timer, fulfill_task, suspend_task, run_once, status,
  finish, execute_loop, execute_until_blocked_inner, execute_until_blocked, conclude, settlement,
}

-- A request of the worker, with its answer where the worker reads it.
pub data Event (V : Type 0) : Type 0 where
  starts_heartbeat : String → ℤ → Event V
  stops_heartbeat : String → Event V
  acquires : String → ℤ → Result (TaskAcquireResult V) → Event V
  fulfills : String → ℤ → PromiseSettleReq V → Result (PromiseRecord (Value V)) → Event V
  suspends_on : String → ℤ → List PromiseRegisterCallbackData → Result (SuspendResult V) → Event V
  releases : String → ℤ → Event V

-- A journal of the worker's own requests, newest first. Functions write none: they have no access to the
-- worker's requests, and their own go through the effects.
pub record Journal {W V : Type 0} (K : Core W V) : Type 0 where
  pub history : W → List (Event V)
  pub acquire_law :
      (id : String) (version : ℤ) (pid : String) (ttl : ℤ) (w : W)
      → history (K.task_acquire id version pid ttl w).1
        ≡ acquires id version (K.task_acquire id version pid ttl w).0 ∷ history w
  pub fulfill_law :
      (id : String) (version : ℤ) (req : PromiseSettleReq V) (w : W)
      → history (K.task_fulfill id version req w).1
        ≡ fulfills id version req (K.task_fulfill id version req w).0 ∷ history w
  pub suspend_law :
      (id : String) (version : ℤ) (actions : List PromiseRegisterCallbackData) (w : W)
      → history (K.task_suspend id version actions w).1
        ≡ suspends_on id version actions (K.task_suspend id version actions w).0 ∷ history w
  pub release_law :
      (id : String) (version : ℤ) (w : W)
      → history (K.task_release id version w).1 ≡ releases id version ∷ history w
  pub start_law :
      (id : String) (version : ℤ) (w : W)
      → history (K.heartbeat_start id version w) ≡ starts_heartbeat id version ∷ history w
  pub stop_law :
      (id : String) (w : W) → history (K.heartbeat_stop id w) ≡ stops_heartbeat id ∷ history w
  pub function_law :
      (name : String) (func : V → Func (Shell W V) V) (args : V) (i : Info) (c : Context)
      (s : Shell W V)
      → K.lookup name ≡ some func
      → history (execute (func args) i c s).2.world ≡ history s.world

-- From a history to a result and a longer history: suspensions that the server redirects, then one that
-- it accepts, or a fulfillment that it accepts, or a failure.
pub data Runs {V : Type 0} (id : String) (version : ℤ) (promise_id : String)
    : List (Event V) → Result Status → List (Event V) → Type 0 where
  gives_up : (h : List (Event V)) (e : Error) → Runs id version promise_id h (err e) h
  completes :
      (h : List (Event V)) (req : PromiseSettleReq V) (p : PromiseRecord (Value V))
      → req.id ≡ promise_id
      → Runs id version promise_id h (ok done) (fulfills id version req (ok p) ∷ h)
  not_completed :
      (h : List (Event V)) (req : PromiseSettleReq V) (e : Error)
      → req.id ≡ promise_id
      → Runs id version promise_id h (err e) (fulfills id version req (err e) ∷ h)
  blocks :
      (h : List (Event V)) (todo : PromiseRegisterCallbackData)
      (todos : List PromiseRegisterCallbackData)
      → Runs id version promise_id h
          (ok suspended)
          (suspends_on id version (todo ∷ todos) (ok suspends) ∷ h)
  not_blocked :
      (h : List (Event V)) (todo : PromiseRegisterCallbackData)
      (todos : List PromiseRegisterCallbackData) (e : Error)
      → Runs id version promise_id h (err e) (suspends_on id version (todo ∷ todos) (err e) ∷ h)
  redirected :
      (h later : List (Event V)) (r : Result Status) (todo : PromiseRegisterCallbackData)
      (todos : List PromiseRegisterCallbackData) (preload : List (PromiseRecord (Value V)))
      → Runs id version promise_id
          (suspends_on id version (todo ∷ todos) (ok (redirect preload)) ∷ h)
          r
          later
      → Runs id version promise_id h r later

-- The whole life: nothing for a timer that is not due; for any other promise, and for no such timer,
-- the heartbeat around a run, and a release after it exactly when it failed.
pub data Lives {V : Type 0} (id : String) (version : ℤ) (p : PromiseRecord (Value V))
    : List (Event V) → Result Status → List (Event V) → Type 0 where
  drops :
      (h : List (Event V))
      → is_timer p ≡ true
      → is_pending p.state ≡ true
      → Lives id version p h (ok suspended) h
  succeeds :
      (h later : List (Event V)) (st : Status)
      → (is_timer p && is_pending p.state) ≡ false
      → Runs id version p.id (starts_heartbeat id version ∷ h) (ok st) later
      → Lives id version p h (ok st) (stops_heartbeat id ∷ later)
  fails_over :
      (h later : List (Event V)) (e : Error)
      → (is_timer p && is_pending p.state) ≡ false
      → Runs id version p.id (starts_heartbeat id version ∷ h) (err e) later
      → Lives id version p h (err e) (releases id version ∷ (stops_heartbeat id ∷ later))

pub some_inj : {A : Type 0} {a b : A} → some a ≡ some b → a ≡ b
some_inj {A} {a} e = ap (λ o. unwrap_or o a) e

pub Finish-cases :
    {V : Type 0} (f : Finish V)
    → ((r : Result V) × (f ≡ returned r)) ⊎ ((m : String) × (f ≡ panicked m))
Finish-cases (returned r) = inl (r, refl)
Finish-cases (panicked m) = inr (m, refl)

module _ {W V : Type 0} (K : Core W V) (J : Journal K) (id : String) (version : ℤ)
    (p : PromiseRecord (Value V)) where
  -- What the code returns, if it returns, is the end of a run.
  abbrev Follows : List (Event V) → Option (Result Status) × W → Type 0
  Follows h out = (r : Result Status) → out.0 ≡ some r → Runs id version p.id h r (J.history out.1)

  ended :
      (h : List (Event V)) (r : Result Status) (w : W)
      → Runs id version p.id h r (J.history w)
      → Follows h (some r, w)
  ended h r w run q e = subst (λ x. Runs id version p.id h x (J.history w)) (some_inj e) run

  fulfill_task-Follows :
      (state : SettleState) (v : V) (w : W)
      → Follows (J.history w) (status K done (fulfill_task K id version p.id state v w))
  unfolding fulfill_task
  fulfill_task-Follows state v w = elim (Result-cases (K.codec.encode v)) [
    | inr (e, q) ↦ rw (q, fulfill_task) (ended _ (err e) w (gives_up _ e))
    | inl (encoded, q) ↦
        let req : PromiseSettleReq V = record { id = p.id; state = state; value = encoded } in
        rw (q, fulfill_task)
          (answered req (K.task_fulfill id version req w) refl (J.fulfill_law id version req w))
  ]
    where
      answered :
          (req : PromiseSettleReq V) (a : Result (PromiseRecord (Value V)) × W)
          → req.id ≡ p.id
          → J.history a.1 ≡ fulfills id version req a.0 ∷ J.history w
          → Follows (J.history w) (status K done a)
      answered req (ok r, x) same law = ended (J.history w) (ok done) x (
          subst (λ h. Runs id version p.id (J.history w) (ok done) h) (sym law)
            (completes _ req r same))
      answered req (err e, x) same law = ended (J.history w) (err e) x (
          subst (λ h. Runs id version p.id (J.history w) (err e) h) (sym law)
            (not_completed _ req e same))

  finish-Follows :
      (result : Result V) (w : W) → Follows (J.history w) (finish K id version p result w)
  unfolding finish
  finish-Follows (ok v) w = fulfill_task-Follows SettleState.resolved v w
  finish-Follows (err e) w = fulfill_task-Follows SettleState.rejected (K.codec.encode_error e) w

  run_once-history :
      (task : TaskData V) (func : V → Func (Shell W V) V) (preload : List (PromiseRecord (Value V)))
      (w : W)
      → K.lookup task.func ≡ some func
      → J.history (run_once K id version p task func preload w).2 ≡ J.history w
  unfolding run_once
  run_once-history task func preload w found =
      J.function_law task.func func task.args _ _
        (record { world = w; effects = new K.codec id version preload }) found

  suspend_history :
      (actions : List PromiseRegisterCallbackData) (w : W) (x : Result (SuspendResult V))
      → (K.task_suspend id version actions w).0 ≡ x
      → suspends_on id version actions x ∷ J.history w
        ≡ J.history (K.task_suspend id version actions w).1
  suspend_history actions w x e = sym (
      J.suspend_law id version actions w
      ∙ ap (λ x. suspends_on id version actions x ∷ J.history w) e)

  execute_loop-Follows :
      (fuel : ℕ) (task : TaskData V) (func : V → Func (Shell W V) V)
      (preload : List (PromiseRecord (Value V))) (w : W)
      → K.lookup task.func ≡ some func
      → Follows (J.history w) (execute_loop K fuel id version p task func preload w)
  unfolding execute_loop suspend_task
  execute_loop-Follows zero task func preload w found = λ r e. absurd (ground arith)
  execute_loop-Follows (suc fuel) task func preload w found =
      let once = run_once K id version p task func preload w in
      subst (λ h. Follows h (execute_loop K (suc fuel) id version p task func preload w))
        (run_once-history task func preload w found)
        (elim (Finish-cases once.0) [
          | inr (m, o) ↦ rw (o, execute_loop) (ended _ _ once.2 (gives_up _ _))
          | inl (result, o) ↦ elim (Result-cases once.1) [
            | inr (e, u) ↦ rw (o, u, execute_loop) (ended _ _ once.2 (gives_up _ e))
            | inl ([], u) ↦ rw (o, u, execute_loop) (finish-Follows result once.2)
            | inl (todo ∷ todos, u) ↦
                let one : PromiseRegisterCallbackData = record { awaited = todo; awaiter = id } in
                let more : List PromiseRegisterCallbackData =
                  map (λ awaited. record { awaited = awaited; awaiter = id }) todos in
                let answer = K.task_suspend id version (one ∷ more) once.2 in
                elim (Result-cases answer.0) [
                  | inr (e, a) ↦
                      rw (o, u, a, execute_loop, suspend_task)
                        (ended _ (err e) answer.1 (
                          subst (λ h. Runs id version p.id (J.history once.2) (err e) h)
                            (suspend_history (one ∷ more) once.2 (err e) a)
                            (not_blocked _ one more e)))
                  | inl (suspends, a) ↦
                      rw (o, u, a, execute_loop, suspend_task)
                        (ended _ (ok suspended) answer.1 (
                          subst (λ h. Runs id version p.id (J.history once.2) (ok suspended) h)
                            (suspend_history (one ∷ more) once.2 (ok suspends) a)
                            (blocks _ one more)))
                  | inl (redirect next, a) ↦
                      rw (o, u, a, execute_loop, suspend_task)
                        (λ r e. redirected _ _ r one more next (
                          subst
                            (λ h. Runs id version p.id h r (
                              J.history
                                (execute_loop K fuel id version p task func next answer.1).1))
                            (sym (suspend_history (one ∷ more) once.2 (ok (redirect next)) a))
                            (execute_loop-Follows fuel task func next answer.1 found r e)))
                ]
          ]
        ])

  inner-Follows :
      (fuel : ℕ) (preload : Option (List (PromiseRecord (Value V)))) (w : W)
      → Follows (J.history w) (execute_until_blocked_inner K fuel id version p preload w)
  unfolding execute_until_blocked_inner
  inner-Follows fuel preload w = elim (Bool-cases (is_timer p && not (is_pending p.state))) [
    | inl t ↦
        rw (t, execute_until_blocked_inner)
          (fulfill_task-Follows (settlement p.state) K.codec.null w)
    | inr t ↦ elim (Serde-cases (K.deserialize (data_as_ref K.codec.null p.param))) [
      | inr (x, o) ↦ rw (t, o, execute_until_blocked_inner) (ended _ _ w (gives_up _ _))
      | inl (task, o) ↦ elim (Option-cases (K.lookup task.func)) [
        | inl u ↦ rw (t, o, u, execute_until_blocked_inner) (ended _ _ w (gives_up _ _))
        | inr (func, u) ↦ elim (Bool-cases (not (is_pending p.state))) [
          | inl v ↦
              rw (t, o, u, v, execute_until_blocked_inner)
                (fulfill_task-Follows (settlement p.state) K.codec.null w)
          | inr v ↦
              rw (t, o, u, v, execute_until_blocked_inner)
                (execute_loop-Follows fuel task func (unwrap_or preload []) w u)
        ]
      ]
    ]
  ]

  conclude-Lives :
      (h : List (Event V)) (out : Option (Result Status) × W) (r : Result Status)
      → (is_timer p && is_pending p.state) ≡ false
      → Follows (starts_heartbeat id version ∷ h) out
      → (conclude K id version out).0 ≡ some r
      → Lives id version p h r (J.history (conclude K id version out).1)
  conclude-Lives h (none, w) r due follows e = absurd (ground arith)
  conclude-Lives h (some (ok st), w) r due follows e =
      subst (λ x. Lives id version p h x (J.history (K.heartbeat_stop id w))) (some_inj e)
        (subst (λ l. Lives id version p h (ok st) l) (sym (J.stop_law id w))
          (succeeds h (J.history w) st due (follows (ok st) refl)))
  conclude-Lives h (some (err x), w) r due follows e =
      let stopped = K.heartbeat_stop id w in
      subst (λ y. Lives id version p h y (J.history (K.task_release id version stopped).1))
        (some_inj e)
        (subst (λ l. Lives id version p h (err x) l)
          (sym (
            J.release_law id version stopped ∙ ap (λ l. releases id version ∷ l) (J.stop_law id w)))
          (fails_over h (J.history w) x due (follows (err x) refl)))

  -- What `execute_until_blocked` returns, and the requests that it makes until then: for a timer that is
  -- not due none, with Suspended; else it starts the heartbeat, makes the requests of a run that ends
  -- with the same result, stops the heartbeat, and after an error, and only then, releases the task.
  pub execute_until_blocked-Lives :
      (fuel : ℕ) (preload : Option (List (PromiseRecord (Value V)))) (w : W) (r : Result Status)
      → (execute_until_blocked K fuel id version p preload w).0 ≡ some r
      → Lives id version p
          (J.history w)
          r
          (J.history (execute_until_blocked K fuel id version p preload w).1)
  unfolding execute_until_blocked
  execute_until_blocked-Lives fuel preload w r =
      elim (Bool-cases (is_timer p && is_pending p.state)) [
        | inl t ↦
            rw (t, execute_until_blocked)
              (λ e.
                subst (λ x. Lives id version p (J.history w) x (J.history w)) (some_inj e)
                  (drops (J.history w) (ground arith) (ground arith)))
        | inr t ↦
            rw (t, execute_until_blocked)
              (conclude-Lives (J.history w)
                (execute_until_blocked_inner K fuel id version p preload
                  (K.heartbeat_start id version w))
                r t
                (subst
                  (λ h. Follows h (
                    execute_until_blocked_inner K fuel id version p preload
                      (K.heartbeat_start id version w)))
                  (J.start_law id version w)
                  (inner-Follows fuel preload (K.heartbeat_start id version w))))
      ]
