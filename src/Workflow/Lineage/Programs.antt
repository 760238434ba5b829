-- ===== src/Workflow/Lineage/Programs.antt =====
-- resonate/src/context.rs: the lineage of all that a workflow program creates.
use resonate_sdk_rs.Prelude.{
  String, ◌≡◌, refl, ap, sym, ◌∙◌, inl, inr, true, List, [], ◌∷◌, Option-cases, Bool-cases,
}
use resonate_sdk_rs.Prelude.Decimal.{to_string}
use resonate_sdk_rs.Prelude.I64.{ℤ}
use resonate_sdk_rs.Error.{Result, ok, err, Result-cases}
use resonate_sdk_rs.Ids.{join_id, origin_of, origin_of-join_id, origin_of-origin_of}
use resonate_sdk_rs.Types.{
  PromiseState, pending, resolved, rejected, rejected_canceled, rejected_timedout,
}
use resonate_sdk_rs.Info.{Info}
use resonate_sdk_rs.Server.{PromiseRecord}
use resonate_sdk_rs.Effects.{Value}
use resonate_sdk_rs.Context.{Context, root, next_id, child, info}
use resonate_sdk_rs.Context.Requests.{Tools, local_create_req}
use resonate_sdk_rs.Workflow.{Backend, Finish, returned, panicked, slot_create, as_result, detach}
use resonate_sdk_rs.Workflow.Run.{
  Func, LocalCall, execute, execute_child, finish_await, run_await, is_suspended, finish_spawn,
  on_created, run_spawn,
}
use resonate_sdk_rs.Workflow.Program.{
  Terminal, awaits, spawns, Program, ret, panic, remote, detaches, run, run_workflow, resume,
  remote_op, local_op, exec,
}
use resonate_sdk_rs.Workflow.Lineage.{IsOf, Logged, recorded, AllIn, Keeps, Kept}
use resonate_sdk_rs.Workflow.Lineage.Requests.{local_create_req-InLineage}
use resonate_sdk_rs.Workflow.Lineage.Operations.{
  slot_create-Kept, spawn_sequenced-Kept, remote_op-Kept, detach-Kept,
}

module _ {S V : Type 0} (T : Tools V) (B : Backend S V) (origin : String)
    (fixed : origin_of origin ≡ origin) where
  -- A function that keeps it in its own context.
  abbrev Safe : Func (Logged S V) V → Type 0
  Safe (Func.function f) = true ≡ true
  Safe (Func.workflow f) = (c : Context) (s : Logged S V) → Keeps origin c s → Kept origin (f c s)

  execute-AllIn :
      (f : Func (Logged S V) V) (i : Info) (c : Context) (s : Logged S V)
      → Safe f
      → Keeps origin c s
      → AllIn origin (execute f i c s).2.log
  unfolding execute
  execute-AllIn (Func.function f) i c s safe (h, a) = a
  execute-AllIn (Func.workflow f) i c s safe h = (safe c s h).1

  finish_await-Kept :
      (id : String) (c : Context) (ended : Finish V × Result (List String) × Logged S V)
      → IsOf origin c
      → AllIn origin ended.2.log
      → Kept origin (finish_await T (recorded B) id c ended)
  unfolding finish_await
  finish_await-Kept id c (panicked m, todos, s) h a = (h, a)
  finish_await-Kept id c (returned r, err e, s) h a = (h, a)
  finish_await-Kept id c (returned r, ok (x ∷ xs), s) h a = (h, a)
  finish_await-Kept id c (returned r, ok [], s) h a = (h, a)

  run_await-Kept :
      (call : LocalCall V) (f : Func (Logged S V) V) (c : Context) (s : Logged S V)
      → Safe f
      → Keeps origin c s
      → Kept origin (run_await T (recorded B) call f c s)
  unfolding run_await next_id
  run_await-Kept call f c s safe (h, a) =
      let now = B.now_ms s.state in
      let named = (next_id c).1 in
      let id = join_id c.id (to_string c.seq) in
      elim (Result-cases (local_create_req id call.args call.timeout now named)) [
        | inr (x, e) ↦ rw (e, run_await) (h, a)
        | inl (req, e) ↦
            let q =
              local_create_req-InLineage origin (to_string c.seq) call.args call.timeout now named
                req h e in
            let created = slot_create T (recorded B) req named s in
            let k = slot_create-Kept T B origin fixed req named s q (h, a) in
            elim (Result-cases created.0) [
              | inr (x, o) ↦ rw (e, o, run_await) k
              | inl (p, o) ↦ elim (Option-cases (as_result T (recorded B) p)) [
                | inr (r, u) ↦ rw (e, o, u, run_await) k
                | inl u ↦
                    rw (e, o, u, run_await)
                      (finish_await-Kept id created.1
                        (execute_child T (recorded B) f id call.name p created.1 created.2) k.0
                        (execute-AllIn f _ (child id call.name p.timeout_at created.1) created.2
                          safe ((origin_of-join_id c.id (to_string c.seq) ∙ h.0, k.0.1), k.1)))
              ]
            ]
      ]

  finish_spawn-AllIn :
      (id : String) (ended : Finish V × Result (List String) × Logged S V)
      → AllIn origin ended.2.log
      → AllIn origin (finish_spawn T (recorded B) id ended).2.log
  unfolding finish_spawn
  finish_spawn-AllIn id (panicked m, todos, s) a = a
  finish_spawn-AllIn id (returned r, err e, s) a = a
  finish_spawn-AllIn id (returned r, ok [], s) a = elim (Bool-cases (is_suspended r)) [
    | inl e ↦ rw (e, finish_spawn) a
    | inr e ↦ rw (e, finish_spawn) a
  ]
  finish_spawn-AllIn id (returned r, ok (x ∷ xs), s) a = elim (Bool-cases (is_suspended r)) [
    | inl e ↦ rw (e, finish_spawn) a
    | inr e ↦ rw (e, finish_spawn) a
  ]

  on_created-AllIn :
      (id : String) (call : LocalCall V) (f : Func (Logged S V) V) (c : Context)
      (p : PromiseRecord (Value V)) (s : Logged S V) (state : PromiseState)
      → p.state ≡ state
      → Safe f
      → IsOf origin (child id call.name p.timeout_at c)
      → AllIn origin s.log
      → AllIn origin (on_created T (recorded B) id call f c p s).2.log
  unfolding on_created
  on_created-AllIn id call f c p s pending e safe h a =
      rw (e, on_created)
        (finish_spawn-AllIn id (execute_child T (recorded B) f id call.name p c s)
          (execute-AllIn f _ (child id call.name p.timeout_at c) s safe (h, a)))
  on_created-AllIn id call f c p s resolved e safe h a = rw (e, on_created) a
  on_created-AllIn id call f c p s rejected e safe h a = rw (e, on_created) a
  on_created-AllIn id call f c p s rejected_canceled e safe h a = rw (e, on_created) a
  on_created-AllIn id call f c p s rejected_timedout e safe h a = rw (e, on_created) a

  run_spawn-Kept :
      (call : LocalCall V) (f : Func (Logged S V) V) (c : Context) (s : Logged S V)
      → Safe f
      → Keeps origin c s
      → Kept origin (run_spawn T (recorded B) call f c s)
  unfolding run_spawn next_id
  run_spawn-Kept call f c s safe (h, a) =
      let now = B.now_ms s.state in
      let named = (next_id c).1 in
      let id = join_id c.id (to_string c.seq) in
      elim (Result-cases (local_create_req id call.args call.timeout now named)) [
        | inr (x, e) ↦ rw (e, run_spawn) (h, a)
        | inl (req, e) ↦
            let q =
              local_create_req-InLineage origin (to_string c.seq) call.args call.timeout now named
                req h e in
            rw (e, run_spawn)
              (spawn_sequenced-Kept T B origin fixed id req
                (on_created T (recorded B) id call f named) named s
                (λ p s k.
                  on_created-AllIn id call f named p s p.state refl safe
                    (origin_of-join_id c.id (to_string c.seq) ∙ h.0, h.1) k)
                q (h, a))
      ]

  local_op-Kept :
      (t : Terminal) (call : LocalCall V) (f : Func (Logged S V) V) (c : Context) (s : Logged S V)
      → Safe f
      → Keeps origin c s
      → Kept origin (local_op T (recorded B) t call f c s)
  unfolding local_op
  local_op-Kept awaits call f c s safe h = run_await-Kept call f c s safe h
  local_op-Kept spawns call f c s safe h = run_spawn-Kept call f c s safe h

  resume-Kept :
      (next : Result V → Context → Logged S V → Finish V × Context × Logged S V)
      (ended : Finish V × Context × Logged S V)
      → ((r : Result V) (c : Context) (s : Logged S V)
          → Keeps origin c s
          → Kept origin (next r c s))
      → Kept origin ended
      → Kept origin (resume next ended)
  unfolding resume
  resume-Kept next (panicked m, c, s) step h = h
  resume-Kept next (returned r, c, s) step h = step r c s h

  exec-Kept :
      (p : Program V) (c : Context) (s : Logged S V)
      → Keeps origin c s
      → Kept origin (exec T (recorded B) p c s)
  unfolding exec
  exec-Kept (ret r) c s h = h
  exec-Kept (panic m) c s h = h
  exec-Kept (remote t op next) c s h =
      let r = remote_op T (recorded B) t op c s in
      exec-Kept (next r.0) r.1 r.2 (remote_op-Kept T B origin fixed t op c s h)
  exec-Kept (detaches func args timeout target next) c s h =
      let r = detach T (recorded B) func args timeout target c s in
      exec-Kept (next r.0) r.1 r.2 (detach-Kept T B origin fixed func args timeout target c s h)
  exec-Kept (run t call leaf next) c s h =
      resume-Kept _ (local_op T (recorded B) t call (Func.function leaf) c s)
        (λ r. exec-Kept (next r)) (local_op-Kept t call (Func.function leaf) c s refl h)
  exec-Kept (run_workflow t call body next) c s h =
      let f = Func.workflow (λ child. exec T (recorded B) (body (info child)) child) in
      resume-Kept _ (local_op T (recorded B) t call f c s) (λ r. exec-Kept (next r))
        (local_op-Kept t call f c s (λ child. exec-Kept (body (info child)) child) h)

-- Whatever a workflow does in a root context whose id has the origin, whatever the backend answers, and
-- however its children nest: every create request that reaches the backend is in the lineage. Its id has
-- the origin, its tag `resonate:origin` is the origin, and its id extends its tag `resonate:parent`.
pub exec-InLineage :
    {S V : Type 0} (T : Tools V) (B : Backend S V) (id origin : String) (timeout_at : ℤ)
    (func_name : String) (p : Program V) (s : S)
    → origin_of id ≡ origin
    → AllIn origin
        (exec T
          (recorded B)
          p
          (root id origin timeout_at func_name)
          (record { state = s; log = [] })).2.log
exec-InLineage T B id origin timeout_at func_name p s h =
    (exec-Kept T B origin (ap origin_of (sym h) ∙ origin_of-origin_of id ∙ h) p
      (root id origin timeout_at func_name) (record { state = s; log = [] }) ((h, refl), refl)).1
