-- ===== src/Workflow/Run.antt =====
-- resonate/src/context.rs (`RunTask`) and resonate/src/durable.rs: local execution of a function, inline
-- or on a spawned task.
use resonate_sdk_rs.Prelude.{
  ℕ, String, Bool, true, false, List, [], ◌∷◌, Option, none, some, concat, if◌then◌else◌,
}
use resonate_sdk_rs.Error.{Result, ok, err, suspended, join_error}
use resonate_sdk_rs.Types.{pending, resolved, rejected, rejected_canceled, rejected_timedout}
use resonate_sdk_rs.Info.{Info}
use resonate_sdk_rs.Server.{PromiseRecord}
use resonate_sdk_rs.Effects.{Value, data_as_ref}
use resonate_sdk_rs.Context.{Joined, done, suspends, panics, Context, next_id, child, child_info}
use resonate_sdk_rs.Context.Requests.{Tools, Serde, from_serde, local_create_req}
use resonate_sdk_rs.Workflow.{
  Backend, Finish, returned, panicked, collect_remote_todos, push_todos, deserialize_error,
  duplicate_error, as_result, slot_create, spawn_sequenced,
}

-- A durable function of either kind. A workflow changes the context that it is given.
pub data Func (S V : Type 0) : Type 0 where
  function : (Info → Finish V) → Func S V
  workflow : (Context → S → Finish V × Context × S) → Func S V

-- `ctx.run(func, args)`: the name of `func`, the arguments as `serde_json::to_value` gives them, and
-- `.timeout(..)`.
pub record LocalCall (V : Type 0) : Type 0 where
  pub name : String
  pub args : Serde V
  pub timeout : Option ℕ

abbrev pub is_suspended : {V : Type 0} → Result V → Bool
is_suspended (err suspended) = true
is_suspended _ = false

-- How an execution ends, and its `ExecutionEnv::collect_remote_todos`, which a panic does not reach.
unfoldable pub execute :
    {S V : Type 0} → Func S V → Info → Context → S → Finish V × Result (List String) × S
execute (function f) info child s = (f info, ok [], s)
execute (workflow f) info child s =
    let ended = f child s in (ended.0, (collect_remote_todos ended.1).0, ended.2)

module _ {S V : Type 0} (T : Tools V) (B : Backend S V) where
  abbrev pub execute_child :
      Func S V
      → String
      → String
      → PromiseRecord (Value V)
      → Context
      → S
      → Finish V × Result (List String) × S
  execute_child f child_id name p c s =
      execute f (child_info child_id name p.timeout_at c) (child child_id name p.timeout_at c) s

  -- FINALIZE, after the execution that `.await` runs inline.
  unfoldable pub finish_await :
      String → Context → Finish V × Result (List String) × S → Finish V × Context × S
  finish_await child_id c (panicked m, todos, s) = (panicked m, c, s)
  finish_await child_id c (returned result, err e, s) = (returned (err e), c, s)
  finish_await child_id c (returned result, ok (todo ∷ todos), s) =
      (returned result, push_todos (todo ∷ todos) c, s)
  finish_await child_id c (returned result, ok [], s) =
      let settled = B.settle_promise child_id result s in
      (returned (elim settled.0 [ ok _ ↦ result | err e ↦ err e ]), c, settled.1)

  -- `.await` of a `RunTask`.
  unfoldable pub run_await : LocalCall V → Func S V → Context → S → Finish V × Context × S
  run_await call f c s =
      let named = next_id c in
      elim (local_create_req named.0 call.args call.timeout (B.now_ms s) named.1) [
        | err e ↦ (returned (err e), named.1, s)
        | ok req ↦
            let created = slot_create T B req named.1 s in
            elim created.0 [
              | err e ↦ (returned (err e), created.1, created.2)
              | ok p ↦ elim (as_result T B p) [
                | some r ↦ (returned r, created.1, created.2)
                | none ↦
                    finish_await named.0 created.1
                      (execute_child f named.0 call.name p created.1 created.2)
              ]
            ]
      ]

  -- The end of the spawned task: what the handle gives, the outcome, and the state.
  unfoldable pub finish_spawn : String → Finish V × Result (List String) × S → Result V × Joined × S
  finish_spawn child_id (panicked m, todos, s) =
      (err (join_error (concat "task " (concat child_id " was dropped"))), panics, s)
  finish_spawn child_id (returned result, err e, s) = (err (duplicate_error T B e), done (err e), s)
  finish_spawn child_id (returned result, ok child_remote, s) =
      if is_suspended result then (err suspended, suspends child_remote, s) else elim child_remote [
        | [] ↦ (result, done (ok tt), (B.settle_promise child_id result s).1)
        | todo ∷ todos ↦ (err suspended, suspends (todo ∷ todos), s)
      ]

  abbrev pub decoded : Result V → Result V × Joined
  decoded (ok v) = (ok v, done (ok tt))
  decoded (err e) = (err (duplicate_error T B e), done (err e))

  -- The closure that `RunTask::spawn` hands to `spawn_sequenced`.
  unfoldable pub on_created :
      String
      → LocalCall V
      → Func S V
      → Context
      → PromiseRecord (Value V)
      → S
      → Result V × Joined × S
  on_created child_id call f c p s =
      let rejection = err (deserialize_error T B (data_as_ref T.null p.value)) in
      elim p.state [
        | pending ↦ finish_spawn child_id (execute_child f child_id call.name p c s)
        | resolved ↦
            let d = decoded (from_serde (T.deserialize (data_as_ref T.null p.value))) in
            (d.0, d.1, s)
        | rejected ↦ (rejection, done (ok tt), s)
        | rejected_canceled ↦ (rejection, done (ok tt), s)
        | rejected_timedout ↦ (rejection, done (ok tt), s)
      ]

  -- `RunTask::spawn`, then the handle.
  unfoldable pub run_spawn : LocalCall V → Func S V → Context → S → Result V × Context × S
  run_spawn call f c s =
      let named = next_id c in
      elim (local_create_req named.0 call.args call.timeout (B.now_ms s) named.1) [
        | err e ↦ (err e, named.1, s)
        | ok req ↦ spawn_sequenced T B named.0 req (on_created named.0 call f named.1) named.1 s
      ]
