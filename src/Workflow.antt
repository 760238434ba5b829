-- ===== src/Workflow.antt =====
-- resonate/src/context.rs: the terminal operations of a context's builders, and the flush. A spawned
-- task runs where it is spawned, one of the schedules that tokio allows: its outcome waits in the
-- context for the flush, and what its handle will give is the operation's result. The state `S` is
-- that of the effects and the world behind them.

pub mod Run
pub mod Program
pub mod Replay
pub mod Lineage
pub mod Suspension
use resonate_sdk_rs.Prelude.{
  ℕ, String, Bool, true, false, List, [], ◌∷◌, ◌++◌, Option, none, some, concat, if◌then◌else◌,
}
use resonate_sdk_rs.Prelude.I64.{ℤ}
use resonate_sdk_rs.Error.{
  Error, Result, ok, err, suspended, application, promise_creation, join_error,
}
use resonate_sdk_rs.Types.{pending, resolved, rejected, rejected_canceled, rejected_timedout}
use resonate_sdk_rs.Server.{PromiseRecord}
use resonate_sdk_rs.Effects.{Value, PromiseCreateReq, data_as_ref}
use resonate_sdk_rs.Sequencing.{aborted}
use resonate_sdk_rs.Context.{
  Joined, done, suspends, panics, SpawnedHandle, Context, next_id, take_remote_todos,
  check_serialization_error,
}
use resonate_sdk_rs.Context.Requests.{
  Tools, Serde, from_serde, remote_create_req, rpc, promise_create_req, sleep_create_req,
  with_timeout, with_target, with_data, detached, detached_id,
}

-- What a context calls: the clock, and resonate/src/effects.rs.
pub record Backend (S V : Type 0) : Type 0 where
  pub now_ms : S → ℤ
  pub create_promise : PromiseCreateReq V → S → Result (PromiseRecord (Value V)) × S
  pub settle_promise : String → Result V → S → Result (PromiseRecord (Value V)) × S

-- How a function ends: it returns, or it panics with a message.
pub data Finish (V : Type 0) : Type 0 where
  returned : Result V → Finish V
  panicked : String → Finish V

-- The loop of `flush_local_work` over the handles, with `remote_todos` and `first_err`.
unfoldable pub join_all :
    List SpawnedHandle → List String → Option Error → List String × Option Error
join_all [] todos first_err = (todos, first_err)
join_all (task ∷ tasks) todos first_err = elim task.handle [
  | done r ↦ elim r [
    | ok _ ↦ join_all tasks todos first_err
    | err e ↦ join_all tasks todos (elim first_err [ none ↦ some e | some x ↦ some x ])
  ]
  | suspends child_remote ↦ join_all tasks (todos ++ child_remote) first_err
  | panics ↦ join_all tasks todos first_err
]

unfoldable pub flush_local_work : Context → Result (List String) × Context
flush_local_work c =
    let r = join_all c.spawned_handles [] none in
    (elim r.1 [ some e ↦ err e | none ↦ ok r.0 ], record c { spawned_handles = [] })

unfoldable pub collect_remote_todos : Context → Result (List String) × Context
unfolding take_remote_todos
collect_remote_todos c =
    let flushed = flush_local_work c in
    let taken = take_remote_todos flushed.1 in
    (elim flushed.0 [ err e ↦ err e | ok spawned ↦ ok (taken.0 ++ spawned) ], taken.1)

abbrev pub push_todos : List String → Context → Context
push_todos ids c = record c { remote_todos = c.remote_todos ++ ids }

-- The end of `spawn_sequenced`, with the outcome of the task.
abbrev pub track : String → Joined → Context → Context
track id outcome c = record c {
  spawned_handles = c.spawned_handles ++ (record { id = id; handle = outcome } ∷ []);
}

-- The builders of `rpc`, with `.timeout` and `.target`, of `sleep`, and of `promise`, with `.timeout`
-- and `.data`.
pub data Remote (V : Type 0) : Type 0 where
  rpc_task : String → Serde V → Option ℕ → Option String → Remote V
  sleep_task : ℕ → Remote V
  promise_task : Option ℕ → Option (Serde V) → Remote V

-- The value of a settled promise, and the error of a rejected one (`codec::deserialize_error`).
module _ {S V : Type 0} (T : Tools V) (B : Backend S V) where
  unfoldable pub deserialize_error : V → Error
  deserialize_error v = elim (T.message v) [
    | some m ↦ application m
    | none ↦ application (concat "unknown error: " (T.print v))
  ]

  abbrev pub duplicate_error : Error → Error
  duplicate_error e = application (T.display e)

  -- `PromiseRecord::as_result`
  unfoldable pub as_result : PromiseRecord (Value V) → Option (Result V)
  as_result p = elim p.state [
    | pending ↦ none
    | resolved ↦ some (from_serde (T.deserialize (data_as_ref T.null p.value)))
    | rejected ↦ some (err (deserialize_error (data_as_ref T.null p.value)))
    | rejected_canceled ↦ some (err (deserialize_error (data_as_ref T.null p.value)))
    | rejected_timedout ↦ some (err (deserialize_error (data_as_ref T.null p.value)))
  ]

  -- `claim_slot`, then `CreationSlot::create`, once the predecessor has settled.
  unfoldable pub slot_create :
      PromiseCreateReq V → Context → S → Result (PromiseRecord (Value V)) × Context × S
  slot_create req c s = elim c.sequencer_ok [
    | false ↦ (err aborted, c, s)
    | true ↦
        let r = B.create_promise req s in
        elim r.0 [ ok p ↦ (ok p, c, r.1) | err e ↦ (err e, record c { sequencer_ok = false }, r.1) ]
  ]

  abbrev timed : Option ℕ → ℤ → Context → PromiseCreateReq V → PromiseCreateReq V
  timed none now c req = req
  timed (some millis) now c req = with_timeout millis now c req

  abbrev targeted : Option String → PromiseCreateReq V → PromiseCreateReq V
  targeted none req = req
  targeted (some target) req = with_target T target req

  abbrev pub checked : PromiseCreateReq V → Option String → Result (PromiseCreateReq V)
  checked req serialization_error = elim (check_serialization_error serialization_error) [
    | ok _ ↦ ok req
    | err e ↦ err e
  ]

  -- A builder up to its terminal operation, on the child id.
  unfoldable pub build : Remote V → String → ℤ → Context → Result (PromiseCreateReq V)
  build (rpc_task func args timeout target) child_id now c =
      let b = rpc T child_id func args now c in
      checked (targeted target (timed timeout now c b.0)) b.1
  build (sleep_task duration) child_id now c = ok (sleep_create_req T child_id duration now c)
  build (promise_task timeout param) child_id now c =
      let req = timed timeout now c (promise_create_req child_id none now c) in
      elim param [ none ↦ ok req | some v ↦ with_data v req ]

  -- The body of `block_on_remote`.
  unfoldable pub block_on_remote :
      String → PromiseCreateReq V → Context → S → Result V × Context × S
  block_on_remote child_id req c s =
      let created = slot_create req c s in
      elim created.0 [
        | err e ↦ (err e, created.1, created.2)
        | ok p ↦ elim (as_result p) [
          | some r ↦ (r, created.1, created.2)
          | none ↦ (err suspended, push_todos (child_id ∷ []) created.1, created.2)
        ]
      ]

  -- The task of a spawn-like operation, tracked for the flush; the result is what its handle gives.
  unfoldable pub spawn_sequenced :
      String
      → PromiseCreateReq V
      → (PromiseRecord (Value V) → S → Result V × Joined × S)
      → Context
      → S
      → Result V × Context × S
  spawn_sequenced child_id req on_created c s =
      let created = slot_create req c s in
      elim created.0 [
        | err e ↦ (err (duplicate_error e), track child_id (done (err e)) created.1, created.2)
        | ok p ↦
            let ended = on_created p created.2 in
            (ended.0, track child_id ended.1 created.1, ended.2)
      ]

  -- The closure of `spawn_remote`.
  unfoldable pub on_remote : String → PromiseRecord (Value V) → S → Result V × Joined × S
  on_remote child_id p s = elim (as_result p) [
    | some r ↦ (r, done (ok tt), s)
    | none ↦ (err suspended, suspends (child_id ∷ []), s)
  ]

  unfoldable pub spawn_remote : String → PromiseCreateReq V → Context → S → Result V × Context × S
  spawn_remote child_id req c s = spawn_sequenced child_id req (on_remote child_id) c s

  -- `DetachedTask::spawn`, then `id()` of the handle.
  unfoldable pub detach :
      String → Serde V → Option ℕ → Option String → Context → S → Result String × Context × S
  detach func args timeout target c s =
      let named = next_id c in
      let child_id = detached_id T named.0 named.1 in
      let b = detached T child_id func args (B.now_ms s) named.1 in
      elim (checked (targeted target (timed timeout (B.now_ms s) named.1 b.0)) b.1) [
        | err e ↦ (err e, named.1, s)
        | ok req ↦
            let created = slot_create req named.1 s in
            elim created.0 [
              | err e ↦ (
                err (promise_creation (T.display e)),
                track child_id (done (err e)) created.1,
                created.2,
              )
              | ok p ↦ (ok child_id, track child_id (done (ok tt)) created.1, created.2)
            ]
      ]
