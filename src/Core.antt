-- ===== src/Core.antt =====
-- resonate/src/core.rs: the life cycle of a task on a worker. The state `W` is the world behind the
-- sender and the heartbeat; a round of an execution has the effects besides.
pub mod Protocol
pub mod Termination
pub mod Messages
use resonate_sdk_rs.Prelude.{
  ℕ, zero, suc, String, ◌==◌, Bool, true, false, not, ◌&&◌, List, [], ◌∷◌, map, Option, none, some,
  concat, is_some_and, unwrap_or, if◌then◌else◌,
}
use resonate_sdk_rs.Prelude.Map
use resonate_sdk_rs.Prelude.I64.{ℤ}
use resonate_sdk_rs.Error.{Error, Result, ok, err, decoding_error, function_not_found, application}
use resonate_sdk_rs.Types.{PromiseState, resolved, is_pending}
use resonate_sdk_rs.Ids.{origin_of}
use resonate_sdk_rs.Server.{PromiseRecord}
use resonate_sdk_rs.Effects.{Value, data_as_ref, Codec, SettleState, PromiseSettleReq, Effects, new}
use resonate_sdk_rs.Info.{Info}
use resonate_sdk_rs.Context.{Context, root}
use resonate_sdk_rs.Context.Requests.{Serde, converted, fails}
use resonate_sdk_rs.Workflow.{Finish, returned, panicked}
use resonate_sdk_rs.Workflow.Run.{Func, execute}
use resonate_sdk_rs.Workflow.Replay.{Shell}
use resonate_sdk_rs.Sender.{
  TaskAcquireResult, SuspendResult, suspends, redirect, PromiseRegisterCallbackData,
}

pub data Status : Type 0 where
  done suspended : Status

-- `types::TaskData`
pub record TaskData (V : Type 0) : Type 0 where
  pub func : String
  pub args : V

-- What `Core` calls: the sender, the heartbeat, the codec, the registry, whose functions have their
-- kind as constructor, and `TaskData::deserialize`.
pub record Core (W V : Type 0) : Type 0 where
  pub task_acquire : String → ℤ → String → ℤ → W → Result (TaskAcquireResult V) × W
  pub task_fulfill : String → ℤ → PromiseSettleReq V → W → Result (PromiseRecord (Value V)) × W
  pub task_suspend :
      String → ℤ → List PromiseRegisterCallbackData → W → Result (SuspendResult V) × W
  pub task_release : String → ℤ → W → Result (Unit {0}) × W
  pub heartbeat_start : String → ℤ → W → W
  pub heartbeat_stop : String → W → W
  pub codec : Codec V
  pub lookup : String → Option (V → Func (Shell W V) V)
  pub deserialize : V → Serde (TaskData V)
  pub pid : String
  pub ttl : ℤ

-- `resonate:timer`
abbrev pub is_timer : {V : Type 0} → PromiseRecord V → Bool
is_timer p = is_some_and (Map.get "resonate:timer" p.tags) (λ v. v == "true")

-- The settlement that a settled promise is fulfilled with.
abbrev pub settlement : PromiseState → SettleState
settlement resolved = SettleState.resolved
settlement _ = SettleState.rejected

module _ {W V : Type 0} (K : Core W V) where
  unfoldable pub fulfill_task :
      String → ℤ → String → SettleState → V → W → Result (PromiseRecord (Value V)) × W
  fulfill_task task_id version promise_id state value w = elim (K.codec.encode value) [
    | err e ↦ (err e, w)
    | ok encoded ↦
        K.task_fulfill task_id version (record { id = promise_id; state = state; value = encoded })
          w
  ]

  unfoldable pub suspend_task : String → ℤ → List String → W → Result (SuspendResult V) × W
  suspend_task task_id version remote_todos w =
      K.task_suspend task_id version
        (map (λ awaited. record { awaited = awaited; awaiter = task_id }) remote_todos) w

  -- One pass of the loop's body up to its `outcome`: the function runs in a new environment.
  unfoldable pub run_once :
      String
      → ℤ
      → PromiseRecord (Value V)
      → TaskData V
      → (V → Func (Shell W V) V)
      → List (PromiseRecord (Value V))
      → W
      → Finish V × Result (List String) × W
  run_once task_id version p task func preload w =
      let origin_id = unwrap_or (Map.get "resonate:origin" p.tags) (origin_of p.id) in
      let ended =
        execute (func task.args)
          (record {
            id = p.id;
            parent_id = "";
            origin_id = origin_id;
            branch_id = p.id;
            timeout_at = p.timeout_at;
            func_name = task.func;
            tags = p.tags;
          })
          (root p.id origin_id p.timeout_at task.func)
          (record { world = w; effects = new K.codec task_id version preload }) in
      (ended.0, ended.1, ended.2.world)

  abbrev pub status : Status → Result (PromiseRecord (Value V)) × W → Option (Result Status) × W
  status st (ok p, w) = (some (ok st), w)
  status st (err e, w) = (some (err e), w)

  -- FINALIZE: what a settled execution fulfills its task with.
  unfoldable pub finish :
      String → ℤ → PromiseRecord (Value V) → Result V → W → Option (Result Status) × W
  finish task_id version p (ok v) w =
      status done (fulfill_task task_id version p.id SettleState.resolved v w)
  finish task_id version p (err e) w =
      status done
        (fulfill_task task_id version p.id SettleState.rejected (K.codec.encode_error e) w)

  -- The loop, for as many passes as there is fuel; none when it runs out.
  unfoldable pub execute_loop :
      ℕ
      → String
      → ℤ
      → PromiseRecord (Value V)
      → TaskData V
      → (V → Func (Shell W V) V)
      → List (PromiseRecord (Value V))
      → W
      → Option (Result Status) × W
  execute_loop zero task_id version p task func preload w = (none, w)
  execute_loop (suc fuel) task_id version p task func preload w =
      let ended = run_once task_id version p task func preload w in
      elim ended.0 [
        | panicked m ↦ (some (err (application (concat "user function panicked: " m))), ended.2)
        | returned result ↦ elim ended.1 [
          | err e ↦ (some (err e), ended.2)
          | ok todos ↦ elim todos [
            | [] ↦ finish task_id version p result ended.2
            | todo ∷ more ↦
                let answer = suspend_task task_id version (todo ∷ more) ended.2 in
                elim answer.0 [
                  | err e ↦ (some (err e), answer.1)
                  | ok r ↦ elim r [
                    | suspends ↦ (some (ok suspended), answer.1)
                    | redirect next ↦ execute_loop fuel task_id version p task func next answer.1
                  ]
                ]
          ]
        ]
      ]

  abbrev pub fulfill_settled : String → ℤ → PromiseRecord (Value V) → W → Option (Result Status) × W
  fulfill_settled task_id version p w =
      status done (fulfill_task task_id version p.id (settlement p.state) K.codec.null w)

  unfoldable pub execute_until_blocked_inner :
      ℕ
      → String
      → ℤ
      → PromiseRecord (Value V)
      → Option (List (PromiseRecord (Value V)))
      → W
      → Option (Result Status) × W
  execute_until_blocked_inner fuel task_id version p preload w =
      if is_timer p && not (is_pending p.state)
      then fulfill_settled task_id version p w
      else elim (K.deserialize (data_as_ref K.codec.null p.param)) [
        | fails e ↦ (some (err (decoding_error (concat "invalid task data: " e))), w)
        | converted task ↦ elim (K.lookup task.func) [
          | none ↦ (some (err (function_not_found task.func)), w)
          | some func ↦
              if not (is_pending p.state)
              then fulfill_settled task_id version p w
              else execute_loop fuel task_id version p task func (unwrap_or preload []) w
        ]
      ]

  -- The heartbeat stops; an error releases the task.
  abbrev pub conclude : String → ℤ → Option (Result Status) × W → Option (Result Status) × W
  conclude task_id version (none, w) = (none, w)
  conclude task_id version (some (ok st), w) = (some (ok st), K.heartbeat_stop task_id w)
  conclude task_id version (some (err e), w) =
      (some (err e), (K.task_release task_id version (K.heartbeat_stop task_id w)).1)

  unfoldable pub execute_until_blocked :
      ℕ
      → String
      → ℤ
      → PromiseRecord (Value V)
      → Option (List (PromiseRecord (Value V)))
      → W
      → Option (Result Status) × W
  execute_until_blocked fuel task_id version p preload w =
      if is_timer p && is_pending p.state
      then (some (ok suspended), w)
      else conclude task_id version (
          execute_until_blocked_inner fuel task_id version p preload
            (K.heartbeat_start task_id version w))

  unfoldable pub on_message : ℕ → String → ℤ → W → Option (Result Status) × W
  on_message fuel task_id version w =
      let acquired = K.task_acquire task_id version K.pid K.ttl w in
      elim acquired.0 [
        | err e ↦ (some (err e), acquired.1)
        | ok result ↦ elim (K.codec.decode_promise result.promise) [
          | err e ↦ (some (err e), acquired.1)
          | ok p ↦
              execute_until_blocked fuel task_id result.task.version p (some result.preload)
                acquired.1
        ]
      ]
