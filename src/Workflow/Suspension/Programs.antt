-- ===== src/Workflow/Suspension/Programs.antt =====
-- resonate/src/context.rs and core.rs: no suspension is lost, which is what the debug assertions where an
-- execution is finalized expect.
use resonate_sdk_rs.Prelude.{
  ℕ, String, ◌≡◌, ◌≢◌, refl, sym, ap, ◌∙◌, inl, inr, Bool, true, false, ◌||◌, List, [], ◌∷◌, Option,
  arith, Bool-cases, Option-cases,
}
use resonate_sdk_rs.Prelude.I64.{ℤ}
use resonate_sdk_rs.Error.{
  Result, ok, err, suspended, Result-cases, Serde, converted, fails, from_serde,
}
use resonate_sdk_rs.Types.{
  PromiseState, pending, resolved, rejected, rejected_canceled, rejected_timedout,
}
use resonate_sdk_rs.Info.{Info}
use resonate_sdk_rs.Server.{PromiseRecord}
use resonate_sdk_rs.Effects.{Value, data_as_ref}
use resonate_sdk_rs.Context.{Context, root, next_id, child, info}
use resonate_sdk_rs.Context.Requests.{Tools, from_serializable, local_create_req}
use resonate_sdk_rs.Workflow.{
  Backend, Finish, returned, panicked, slot_create, as_result, deserialize_error,
  collect_remote_todos,
}
use resonate_sdk_rs.Workflow.Run.{
  Func, LocalCall, is_suspended, execute, execute_child, finish_await, run_await, finish_spawn,
  on_created, run_spawn, decoded,
}
use resonate_sdk_rs.Workflow.Program.{
  Terminal, awaits, spawns, Program, ret, panic, remote, detaches, run, run_workflow, resume,
  remote_op, local_op, exec,
}
use resonate_sdk_rs.Workflow.{detach}
use resonate_sdk_rs.Workflow.Suspension.{
  is_settled, ends_suspended, blocks, is_plain, all_plain, owes, IsPlain, collect-owes,
  collect-plain,
}
use resonate_sdk_rs.Workflow.Suspension.Operations.{
  Honors, Owing, IsTold, spawn_sequenced-Owing, push_todos-Owing, same-Owing, slot_create-same,
  as_result-plain, remote_op-Owing, detach-Owing,
}

-- A program makes no suspension of its own: it returns one only after an operation has given it one
-- (`seen`). Its leaf functions make none, and its workflows none of their own.
abbrev pub IsHonest : {V : Type 0} → Bool → Program V → Type 0
IsHonest seen (ret r) = is_suspended r ≡ true → seen ≡ true
IsHonest seen (panic m) = true ≡ true
IsHonest {V} seen (remote t op next) = (r : Result V) → IsHonest (seen || is_suspended r) (next r)
IsHonest seen (detaches func args timeout target next) =
    (r : Result String) → IsHonest seen (next r)
IsHonest {V} seen (run t call leaf next) =
    ((i : Info) → ends_suspended (leaf i) ≡ false)
    × ((r : Result V) → IsHonest (seen || is_suspended r) (next r))
IsHonest {V} seen (run_workflow t call body next) =
    ((i : Info) → IsHonest false (body i))
    × ((r : Result V) → IsHonest (seen || is_suspended r) (next r))

module _ {S V : Type 0} (T : Tools V) (B : Backend S V) (polite : Honors B) where
  -- What a function promises for its own context.
  abbrev Promises : Func S V → Type 0
  Promises (Func.function f) = (i : Info) → ends_suspended (f i) ≡ false
  Promises (Func.workflow f) =
      (c : Context) (s : S)
      → IsPlain c
      → IsPlain (f c s).1 × (ends_suspended (f c s).0 ≡ true → owes (f c s).1 ≡ true)

  -- A suspended execution has something to wait for, and the flush fails with no suspension.
  abbrev IsSound : Finish V × Result (List String) × S → Type 0
  IsSound e = (ends_suspended e.0 ≡ true → is_settled e.1 ≡ false) × (is_suspended e.1 ≡ false)

  execute-IsSound :
      (f : Func S V) (i : Info) (c : Context) (s : S)
      → Promises f
      → IsPlain c
      → IsSound (execute f i c s)
  unfolding execute
  execute-IsSound (Func.function f) i c s h k = (λ e. absurd (ground (arith, h i)), refl)
  execute-IsSound (Func.workflow f) i c s h k =
      let (plain, owing) = h c s k in
      (λ e. collect-owes (f c s).1 (owing e), collect-plain (f c s).1 plain)

  finish_await-Owing :
      (id : String) (c : Context) (e : Finish V × Result (List String) × S)
      → IsPlain c
      → IsSound e
      → Owing c (ends_suspended (finish_await T B id c e).0) (finish_await T B id c e).1
  unfolding finish_await
  finish_await-Owing id c (panicked m, todos, s) h sound = (h, λ o. o, λ a. absurd (ground arith))
  finish_await-Owing id c (returned r, err x, s) h (waits, plain) =
      (h, λ o. o, λ a. absurd (ground (arith, plain)))
  finish_await-Owing id c (returned r, ok (x ∷ xs), s) h sound =
      push_todos-Owing c x xs (is_suspended r) h
  finish_await-Owing id c (returned r, ok [], s) h (waits, plain) =
      elim (Result-cases (B.settle_promise id r s).0) [
        | inl (p, o) ↦ rw (o, finish_await) (h, λ w. w, λ a. absurd (ground (arith, waits a)))
        | inr (x, o) ↦
            let q : is_suspended {V = V} (err x) ≡ false =
              ap is_suspended (sym o) ∙ polite.settle_law id r s in
            rw (o, finish_await) (h, λ w. w, λ a. absurd (ground (arith, q)))
      ]

  local_create_req-plain :
      (id : String) (args : Serde V) (timeout : Option ℕ) (now : ℤ) (c : Context)
      → is_suspended (local_create_req id args timeout now c) ≡ false
  unfolding local_create_req from_serializable
  local_create_req-plain id (converted v) timeout now c = refl
  local_create_req-plain id (fails m) timeout now c = refl

  run_await-Owing :
      (call : LocalCall V) (f : Func S V) (c : Context) (s : S)
      → Promises f
      → IsPlain c
      → Owing c (ends_suspended (run_await T B call f c s).0) (run_await T B call f c s).1
  unfolding run_await next_id
  run_await-Owing call f c s promises h =
      let named = next_id c in
      let built = local_create_req named.0 call.args call.timeout (B.now_ms s) named.1 in
      elim (Result-cases built) [
        | inr (x, e) ↦
            let q : is_suspended {V = V} (err x) ≡ false =
              ap is_suspended (sym e)
              ∙ local_create_req-plain named.0 call.args call.timeout (B.now_ms s) named.1 in
            rw (e, run_await) (h, λ o. o, λ a. absurd (ground (arith, q)))
        | inl (req, e) ↦
            let created = slot_create T B req named.1 s in
            let (t, k, plain) = slot_create-same T B polite req named.1 s in
            let h2 : IsPlain created.1 = ap all_plain (sym k) ∙ h in
            let out = run_await T B call f c s in
            same-Owing c created.1 out.1 (ends_suspended out.0) t k (elim (Result-cases created.0) [
              | inr (x, o) ↦
                  let q : is_suspended {V = V} (err x) ≡ false = ap is_suspended (sym o) ∙ plain in
                  rw (e, o, run_await) (h2, λ w. w, λ a. absurd (ground (arith, q)))
              | inl (p, o) ↦ elim (Option-cases (as_result T B p)) [
                | inr (r, u) ↦
                    let q = as_result-plain T B polite p p.state r refl u in
                    rw (e, o, u, run_await) (h2, λ w. w, λ a. absurd (ground (arith, q)))
                | inl u ↦
                    rw (e, o, u, run_await)
                      (finish_await-Owing named.0 created.1
                        (execute_child T B f named.0 call.name p created.1 created.2) h2
                        (execute-IsSound f _ (child named.0 call.name p.timeout_at created.1)
                          created.2 promises refl))
              ]
            ])
      ]

  finish_spawn-IsTold :
      (id : String) (e : Finish V × Result (List String) × S)
      → IsSound e
      → IsTold T B polite (finish_spawn T B id e)
  unfolding finish_spawn
  finish_spawn-IsTold id (panicked m, todos, s) sound = (refl, λ a. absurd (ground arith))
  finish_spawn-IsTold id (returned r, err x, s) (waits, plain) = (ground (arith, plain), λ a. refl)
  finish_spawn-IsTold id (returned r, ok [], s) (waits, plain) =
      elim (Bool-cases (is_suspended r)) [
        | inl o ↦ absurd (ground (arith, waits o))
        | inr o ↦ rw (o, finish_spawn) (refl, λ a. absurd (ground (arith, o)))
      ]
  finish_spawn-IsTold id (returned r, ok (x ∷ xs), s) sound = elim (Bool-cases (is_suspended r)) [
    | inl o ↦ rw (o, finish_spawn) (refl, λ a. refl)
    | inr o ↦ rw (o, finish_spawn) (refl, λ a. refl)
  ]

  on_created-IsTold :
      (id : String) (call : LocalCall V) (f : Func S V) (c : Context) (p : PromiseRecord (Value V))
      (s : S) (state : PromiseState)
      → p.state ≡ state
      → Promises f
      → IsTold T B polite (on_created T B id call f c p s)
  unfolding on_created from_serde deserialize_error
  on_created-IsTold id call f c p s pending e promises =
      rw (e, on_created)
        (finish_spawn-IsTold id (execute_child T B f id call.name p c s)
          (execute-IsSound f _ (child id call.name p.timeout_at c) s promises refl))
  on_created-IsTold id call f c p s resolved e promises =
      rw (e, on_created) (told (T.deserialize (data_as_ref T.null p.value)))
    where
      told :
          (d : Serde V)
          → (is_plain (decoded T B (from_serde d)).1 ≡ true)
            × (is_suspended (decoded T B (from_serde d)).0 ≡ true
                → blocks (decoded T B (from_serde d)).1 ≡ true)
      told (converted v) = (refl, λ a. absurd (ground arith))
      told (fails m) = (refl, λ a. refl)
  on_created-IsTold id call f c p s rejected e promises =
      rw (e, on_created) (refl, λ a. absurd (ground arith))
  on_created-IsTold id call f c p s rejected_canceled e promises =
      rw (e, on_created) (refl, λ a. absurd (ground arith))
  on_created-IsTold id call f c p s rejected_timedout e promises =
      rw (e, on_created) (refl, λ a. absurd (ground arith))

  run_spawn-Owing :
      (call : LocalCall V) (f : Func S V) (c : Context) (s : S)
      → Promises f
      → IsPlain c
      → Owing c (is_suspended (run_spawn T B call f c s).0) (run_spawn T B call f c s).1
  unfolding run_spawn next_id
  run_spawn-Owing call f c s promises h =
      let named = next_id c in
      let built = local_create_req named.0 call.args call.timeout (B.now_ms s) named.1 in
      elim (Result-cases built) [
        | inr (x, e) ↦
            let q : is_suspended {V = V} (err x) ≡ false =
              ap is_suspended (sym e)
              ∙ local_create_req-plain named.0 call.args call.timeout (B.now_ms s) named.1 in
            rw (e, run_spawn) (h, λ o. o, λ a. absurd (ground (arith, q)))
        | inl (req, e) ↦
            rw (e, run_spawn)
              (spawn_sequenced-Owing T B polite named.0 req (on_created T B named.0 call f named.1)
                named.1 s
                (λ p s. on_created-IsTold named.0 call f named.1 p s p.state refl promises) h)
      ]

  local_op-Owing :
      (t : Terminal) (call : LocalCall V) (f : Func S V) (c : Context) (s : S)
      → Promises f
      → IsPlain c
      → Owing c (ends_suspended (local_op T B t call f c s).0) (local_op T B t call f c s).1
  unfolding local_op
  local_op-Owing awaits call f c s promises h = run_await-Owing call f c s promises h
  local_op-Owing spawns call f c s promises h = run_spawn-Owing call f c s promises h

  -- The end of a program.
  abbrev Ends : Finish V × Context × S → Type 0
  Ends r = IsPlain r.1 × (ends_suspended r.0 ≡ true → owes r.1 ≡ true)

  seen-owes :
      (seen : Bool) (suspension : Bool) (c d : Context)
      → (seen ≡ true → owes c ≡ true)
      → Owing c suspension d
      → seen || suspension ≡ true
      → owes d ≡ true
  seen-owes true suspension c d h (p, keeps, answers) e = keeps (h refl)
  seen-owes false suspension c d h (p, keeps, answers) e = answers e

  resume-Ends :
      (seen : Bool) (next : Result V → Context → S → Finish V × Context × S) (c : Context)
      (ended : Finish V × Context × S)
      → (seen ≡ true → owes c ≡ true)
      → Owing c (ends_suspended ended.0) ended.1
      → ((r : Result V) (d : Context) (s : S)
          → (seen || is_suspended r ≡ true → owes d ≡ true)
          → IsPlain d
          → Ends (next r d s))
      → Ends (resume next ended)
  unfolding resume
  resume-Ends seen next c (panicked m, d, s) h (p, keeps, answers) step =
      (p, λ a. absurd (ground arith))
  resume-Ends seen next c (returned r, d, s) h owing step =
      step r d s (seen-owes seen (is_suspended r) c d h owing) owing.0

  exec-Ends :
      (seen : Bool) (p : Program V) (c : Context) (s : S)
      → IsHonest seen p
      → (seen ≡ true → owes c ≡ true)
      → IsPlain c
      → Ends (exec T B p c s)
  unfolding exec
  exec-Ends seen (ret r) c s honest h plain = (plain, λ a. h (honest a))
  exec-Ends seen (panic m) c s honest h plain = (plain, λ a. absurd (ground arith))
  exec-Ends seen (remote t op next) c s honest h plain =
      let r = remote_op T B t op c s in
      let owing = remote_op-Owing T B polite t op c s plain in
      exec-Ends (seen || is_suspended r.0) (next r.0) r.1 r.2 (honest r.0)
        (seen-owes seen (is_suspended r.0) c r.1 h owing) owing.0
  exec-Ends seen (detaches func args timeout target next) c s honest h plain =
      let r = detach T B func args timeout target c s in
      let owing = detach-Owing T B polite func args timeout target c s plain in
      exec-Ends seen (next r.0) r.1 r.2 (honest r.0) (λ e. owing.1 (h e)) owing.0
  exec-Ends seen (run t call leaf next) c s (good, honest) h plain =
      resume-Ends seen (λ r. exec T B (next r)) c (local_op T B t call (Func.function leaf) c s) h
        (local_op-Owing t call (Func.function leaf) c s good plain)
        (λ r d s k q. exec-Ends (seen || is_suspended r) (next r) d s (honest r) k q)
  exec-Ends seen (run_workflow t call body next) c s (good, honest) h plain =
      let f : Func S V = Func.workflow (λ child. exec T B (body (info child)) child) in
      resume-Ends seen (λ r. exec T B (next r)) c (local_op T B t call f c s) h
        (local_op-Owing t call f c s
          (λ d s q.
            exec-Ends false (body (info d)) d s (good (info d)) (λ e. absurd (ground arith)) q)
          plain)
        (λ r d s k q. exec-Ends (seen || is_suspended r) (next r) d s (honest r) k q)

-- No suspension is lost: where an honest program ends suspended in a root context, over a backend whose
-- own errors are not the suspension, the flush of the context does not return an empty list of todos,
-- and does not fail with the suspension.
pub exec-waits :
    {S V : Type 0} (T : Tools V) (B : Backend S V) (p : Program V) (id origin : String)
    (timeout_at : ℤ) (func_name : String) (s : S)
    → Honors B
    → IsHonest false p
    → (exec T B p (root id origin timeout_at func_name) s).0 ≡ returned (err suspended)
    → ((collect_remote_todos (exec T B p (root id origin timeout_at func_name) s).1).0 ≢ ok [])
      × ((collect_remote_todos (exec T B p (root id origin timeout_at func_name) s).1).0
          ≢ err suspended)
exec-waits T B p id origin timeout_at func_name s polite honest e =
    let c = root id origin timeout_at func_name in
    let r = exec T B p c s in
    let (plain, owing) =
      exec-Ends T B polite false p c s honest (λ e. absurd (ground arith)) refl in
    let o : owes r.1 ≡ true = owing (ap ends_suspended e) in
    (
      λ q.
          let k : is_settled (collect_remote_todos r.1).0 ≡ false = collect-owes r.1 o in
          let j : is_settled (collect_remote_todos r.1).0 ≡ true = ap is_settled q in
          absurd (ground (arith, k, j)),
      λ q.
          let k : is_suspended (collect_remote_todos r.1).0 ≡ false = collect-plain r.1 plain in
          let j : is_suspended (collect_remote_todos r.1).0 ≡ true = ap is_suspended q in
          absurd (ground (arith, k, j)),
    )
