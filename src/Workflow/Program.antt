-- ===== src/Workflow/Program.antt =====
-- resonate/src/context.rs: workflow functions, as the programs of terminal operations that they perform
-- on their context. What a program does next depends on the results of its operations.
use resonate_sdk_rs.Prelude.{ℕ, String, Option}
use resonate_sdk_rs.Error.{Result, ok, err}
use resonate_sdk_rs.Info.{Info}
use resonate_sdk_rs.Effects.{PromiseCreateReq}
use resonate_sdk_rs.Context.{Context, next_id, info}
use resonate_sdk_rs.Context.Requests.{Tools, Serde}
use resonate_sdk_rs.Workflow.{
  Backend, Finish, returned, panicked, Remote, build, block_on_remote, spawn_remote, detach,
}
use resonate_sdk_rs.Workflow.Run.{Func, LocalCall, run_await, run_spawn}

-- `.await`, or `.spawn()` and its handle.
pub data Terminal : Type 0 where
  awaits spawns : Terminal

-- `run` takes a leaf function, `run_workflow` a workflow.
pub data Program (V : Type 0) : Type 0 where
  ret : Result V → Program V
  panic : String → Program V
  remote : Terminal → Remote V → (Result V → Program V) → Program V
  detaches : String → Serde V → Option ℕ → Option String → (Result String → Program V) → Program V
  run : Terminal → LocalCall V → (Info → Finish V) → (Result V → Program V) → Program V
  run_workflow : Terminal → LocalCall V → (Info → Program V) → (Result V → Program V) → Program V

module _ {S V : Type 0} where
  -- A panic unwinds through an operation that is awaited.
  unfoldable pub resume :
      (Result V → Context → S → Finish V × Context × S)
      → Finish V × Context × S
      → Finish V × Context × S
  resume next (panicked m, c, s) = (panicked m, c, s)
  resume next (returned r, c, s) = next r c s

module _ {S V : Type 0} (T : Tools V) (B : Backend S V) where
  abbrev pub perform : Terminal → String → PromiseCreateReq V → Context → S → Result V × Context × S
  perform awaits id req c s = block_on_remote T B id req c s
  perform spawns id req c s = spawn_remote T B id req c s

  -- `rpc`, `sleep` and `promise`.
  unfoldable pub remote_op : Terminal → Remote V → Context → S → Result V × Context × S
  remote_op terminal op c s =
      let named = next_id c in
      elim (build T B op named.0 (B.now_ms s) named.1) [
        | err e ↦ (err e, named.1, s)
        | ok req ↦ perform terminal named.0 req named.1 s
      ]

  -- `run`
  unfoldable pub local_op : Terminal → LocalCall V → Func S V → Context → S → Finish V × Context × S
  local_op awaits call f c s = run_await T B call f c s
  local_op spawns call f c s = let r = run_spawn T B call f c s in (returned r.0, r.1, r.2)

  unfoldable pub exec : Program V → Context → S → Finish V × Context × S
  exec (ret r) c s = (returned r, c, s)
  exec (panic m) c s = (panicked m, c, s)
  exec (remote t op next) c s = let r = remote_op t op c s in exec (next r.0) r.1 r.2
  exec (detaches func args timeout target next) c s =
      let r = detach T B func args timeout target c s in exec (next r.0) r.1 r.2
  exec (run t call leaf next) c s =
      resume (λ r. exec (next r)) (local_op t call (Func.function leaf) c s)
  exec (run_workflow t call body next) c s =
      resume (λ r. exec (next r))
        (local_op t call (Func.workflow (λ child. exec (body (info child)) child)) c s)
