-- ===== src/Workflow/Suspension/Operations.antt =====
-- resonate/src/context.rs: an operation that reports a suspension leaves a context that owes.
use resonate_sdk_rs.Prelude.{
  ℕ, String, ◌≡◌, refl, sym, ap, ◌∙◌, inl, inr, Bool, true, false, not, ◌&&◌, ◌||◌, List, [], ◌∷◌,
  ◌++◌, Option, none, some, arith, Bool-cases, Option-cases,
}
use resonate_sdk_rs.Prelude.I64.{ℤ}
use resonate_sdk_rs.Error.{Result, ok, err, Result-cases, Serde, converted, fails, from_serde}
use resonate_sdk_rs.Types.{
  PromiseState, pending, resolved, rejected, rejected_canceled, rejected_timedout,
}
use resonate_sdk_rs.Server.{PromiseRecord}
use resonate_sdk_rs.Effects.{Value, PromiseCreateReq}
use resonate_sdk_rs.Context.{
  Joined, done, SpawnedHandle, Context, next_id, check_serialization_error,
}
use resonate_sdk_rs.Context.Requests.{Tools, from_serializable, with_data, detached, detached_id}
use resonate_sdk_rs.Workflow.{
  Backend, Remote, rpc_task, sleep_task, promise_task, build, slot_create, as_result,
  block_on_remote, spawn_remote, spawn_sequenced, on_remote, detach, deserialize_error, checked,
  targeted, timed, push_todos, track,
}
use resonate_sdk_rs.Workflow.Run.{is_suspended}
use resonate_sdk_rs.Workflow.Program.{Terminal, awaits, spawns, perform, remote_op}
use resonate_sdk_rs.Workflow.Suspension.{
  is_nothing, blocks, is_plain, any_blocks, all_plain, owes, IsPlain,
}

-- The backend's own errors are not the suspension, which only contexts make.
pub record Honors {S V : Type 0} (B : Backend S V) : Type 0 where
  pub create_law :
      (req : PromiseCreateReq V) (s : S) → is_suspended (B.create_promise req s).0 ≡ false
  pub settle_law :
      (id : String) (result : Result V) (s : S)
      → is_suspended (B.settle_promise id result s).0 ≡ false

-- From one context to a later one, with a result that may be the suspension.
abbrev pub Owing : Context → Bool → Context → Type 0
Owing c suspension d =
    IsPlain d × (owes c ≡ true → owes d ≡ true) × (suspension ≡ true → owes d ≡ true)

any_blocks-track :
    (tasks : List SpawnedHandle) (task : SpawnedHandle)
    → any_blocks (tasks ++ (task ∷ [])) ≡ any_blocks tasks || blocks task.handle
any_blocks-track [] task = ground arith
any_blocks-track (x ∷ xs) task = ground (arith, any_blocks-track xs task)

all_plain-track :
    (tasks : List SpawnedHandle) (task : SpawnedHandle)
    → all_plain (tasks ++ (task ∷ [])) ≡ all_plain tasks && is_plain task.handle
all_plain-track [] task = ground arith
all_plain-track (x ∷ xs) task = ground (arith, all_plain-track xs task)

-- A tracked task that blocks owes, as does a context that owed.
pub track-Owing :
    (c : Context) (id : String) (outcome : Joined) (suspension : Bool)
    → IsPlain c
    → is_plain outcome ≡ true
    → (suspension ≡ true → blocks outcome ≡ true)
    → Owing c suspension (track id outcome c)
track-Owing c id outcome suspension h k b =
    let task : SpawnedHandle = record { id = id; handle = outcome } in
    (
      all_plain-track c.spawned_handles task ∙ ground arith,
      λ o. ground (arith, any_blocks-track c.spawned_handles task),
      λ s. ground (arith, any_blocks-track c.spawned_handles task, b s),
    )

pub push_todos-Owing :
    (c : Context) (todo : String) (todos : List String) (suspension : Bool)
    → IsPlain c
    → Owing c suspension (push_todos (todo ∷ todos) c)
push_todos-Owing c todo todos suspension h =
    (h, λ o. some_left c.remote_todos, λ s. some_left c.remote_todos)
  where
    some_left :
        (xs : List String)
        → not (is_nothing (xs ++ (todo ∷ todos))) || any_blocks c.spawned_handles ≡ true
    some_left [] = refl
    some_left (x ∷ xs) = refl

-- An operation that changes neither the todos nor the handles before it.
pub same-Owing :
    (c d e : Context) (suspension : Bool)
    → c.remote_todos ≡ d.remote_todos
    → c.spawned_handles ≡ d.spawned_handles
    → Owing d suspension e
    → Owing c suspension e
same-Owing c d e suspension h k (p, keeps, answers) = (
  p,
  λ o. keeps (
      ap (λ t. not (is_nothing t) || any_blocks d.spawned_handles) (sym h)
      ∙ ap (λ t. not (is_nothing c.remote_todos) || any_blocks t) (sym k)
      ∙ o),
  answers,
)

module _ {S V : Type 0} (T : Tools V) (B : Backend S V) (polite : Honors B) where
  pub slot_create-same :
      (req : PromiseCreateReq V) (c : Context) (s : S)
      → (c.remote_todos ≡ (slot_create T B req c s).1.remote_todos)
        × (c.spawned_handles ≡ (slot_create T B req c s).1.spawned_handles)
        × (is_suspended (slot_create T B req c s).0 ≡ false)
  unfolding slot_create
  slot_create-same req c s = elim (Bool-cases c.sequencer_ok) [
    | inr e ↦ rw (e, slot_create) (refl, refl, refl)
    | inl e ↦ elim (Result-cases (B.create_promise req s).0) [
      | inl (p, o) ↦ rw (e, o, slot_create) (refl, refl, refl)
      | inr (x, o) ↦
          rw (e, o, slot_create) (refl, refl, ap is_suspended (sym o) ∙ polite.create_law req s)
    ]
  ]

  pub as_result-plain :
      (p : PromiseRecord (Value V)) (state : PromiseState) (r : Result V)
      → p.state ≡ state
      → as_result T B p ≡ some r
      → is_suspended r ≡ false
  unfolding as_result from_serde deserialize_error
  as_result-plain p pending r e = rw (e, as_result) (λ h. absurd (ground arith))
  as_result-plain p resolved r e = rw (e, as_result) (λ h. ground arith)
  as_result-plain p rejected r e = rw (e, as_result) (λ h. ground arith)
  as_result-plain p rejected_canceled r e = rw (e, as_result) (λ h. ground arith)
  as_result-plain p rejected_timedout r e = rw (e, as_result) (λ h. ground arith)

  block_on_remote-Owing :
      (id : String) (req : PromiseCreateReq V) (c : Context) (s : S)
      → IsPlain c
      → Owing c (is_suspended (block_on_remote T B id req c s).0) (block_on_remote T B id req c s).1
  unfolding block_on_remote
  block_on_remote-Owing id req c s h =
      let created = slot_create T B req c s in
      let (t, k, plain) = slot_create-same req c s in
      let h2 : IsPlain created.1 = ap all_plain (sym k) ∙ h in
      let out = block_on_remote T B id req c s in
      same-Owing c created.1 out.1 (is_suspended out.0) t k (elim (Result-cases created.0) [
        | inr (x, e) ↦
            let q : is_suspended {V = V} (err x) ≡ false = ap is_suspended (sym e) ∙ plain in
            rw (e, block_on_remote) (h2, λ o. o, λ a. absurd (ground (arith, q)))
        | inl (p, e) ↦ elim (Option-cases (as_result T B p)) [
          | inr (r, o) ↦
              let q = as_result-plain p p.state r refl o in
              rw (e, o, block_on_remote) (h2, λ w. w, λ a. absurd (ground (arith, q)))
          | inl o ↦ rw (e, o, block_on_remote) (push_todos-Owing created.1 id [] true h2)
        ]
      ])

  -- A spawned task whose handle gives the suspension blocks.
  abbrev pub IsTold : Result V × Joined × S → Type 0
  IsTold r = (is_plain r.1 ≡ true) × (is_suspended r.0 ≡ true → blocks r.1 ≡ true)

  pub spawn_sequenced-Owing :
      (id : String) (req : PromiseCreateReq V)
      (on_created : PromiseRecord (Value V) → S → Result V × Joined × S) (c : Context) (s : S)
      → ((p : PromiseRecord (Value V)) (s : S) → IsTold (on_created p s))
      → IsPlain c
      → Owing c
          (is_suspended (spawn_sequenced T B id req on_created c s).0)
          (spawn_sequenced T B id req on_created c s).1
  unfolding spawn_sequenced
  spawn_sequenced-Owing id req on_created c s told h =
      let created = slot_create T B req c s in
      let (t, k, plain) = slot_create-same req c s in
      let h2 : IsPlain created.1 = ap all_plain (sym k) ∙ h in
      let out = spawn_sequenced T B id req on_created c s in
      same-Owing c created.1 out.1 (is_suspended out.0) t k (elim (Result-cases created.0) [
        | inr (x, e) ↦
            let q : is_suspended {V = V} (err x) ≡ false = ap is_suspended (sym e) ∙ plain in
            rw (e, spawn_sequenced)
              (track-Owing created.1 id (done (err x)) false h2 (ground (arith, q)) (λ a. refl))
        | inl (p, e) ↦
            let ended = on_created p created.2 in
            let (one, blocked) = told p created.2 in
            rw (e, spawn_sequenced)
              (track-Owing created.1 id ended.1 (is_suspended ended.0) h2 one blocked)
      ])

  on_remote-IsTold :
      (id : String) (p : PromiseRecord (Value V)) (s : S) → IsTold (on_remote T B id p s)
  unfolding on_remote
  on_remote-IsTold id p s = elim (Option-cases (as_result T B p)) [
    | inr (r, o) ↦
        let q = as_result-plain p p.state r refl o in
        rw (o, on_remote) (refl, λ a. absurd (ground (arith, q)))
    | inl o ↦ rw (o, on_remote) (refl, λ a. refl)
  ]

  spawn_remote-Owing :
      (id : String) (req : PromiseCreateReq V) (c : Context) (s : S)
      → IsPlain c
      → Owing c (is_suspended (spawn_remote T B id req c s).0) (spawn_remote T B id req c s).1
  unfolding spawn_remote
  spawn_remote-Owing id req c s h =
      spawn_sequenced-Owing id req (on_remote T B id) c s (on_remote-IsTold id) h

  perform-Owing :
      (t : Terminal) (id : String) (req : PromiseCreateReq V) (c : Context) (s : S)
      → IsPlain c
      → Owing c (is_suspended (perform T B t id req c s).0) (perform T B t id req c s).1
  perform-Owing awaits id req c s h = block_on_remote-Owing id req c s h
  perform-Owing spawns id req c s h = spawn_remote-Owing id req c s h

  checked-plain :
      (req : PromiseCreateReq V) (e : Option String) → is_suspended (checked T B req e) ≡ false
  unfolding check_serialization_error
  checked-plain req none = refl
  checked-plain req (some x) = refl

  build-plain :
      (op : Remote V) (id : String) (now : ℤ) (c : Context)
      → is_suspended (build T B op id now c) ≡ false
  unfolding build with_data from_serializable
  build-plain (rpc_task func args timeout target) id now c = checked-plain _ _
  build-plain (sleep_task duration) id now c = refl
  build-plain (promise_task timeout none) id now c = refl
  build-plain (promise_task timeout (some (converted v))) id now c = refl
  build-plain (promise_task timeout (some (fails m))) id now c = refl

  pub remote_op-Owing :
      (t : Terminal) (op : Remote V) (c : Context) (s : S)
      → IsPlain c
      → Owing c (is_suspended (remote_op T B t op c s).0) (remote_op T B t op c s).1
  unfolding remote_op next_id
  remote_op-Owing t op c s h =
      let named = next_id c in
      let built = build T B op named.0 (B.now_ms s) named.1 in
      elim (Result-cases built) [
        | inr (x, e) ↦
            let q : is_suspended {V = V} (err x) ≡ false =
              ap is_suspended (sym e) ∙ build-plain op named.0 (B.now_ms s) named.1 in
            rw (e, remote_op) (h, λ o. o, λ a. absurd (ground (arith, q)))
        | inl (req, e) ↦ rw (e, remote_op) (perform-Owing t named.0 req named.1 s h)
      ]

  pub detach-Owing :
      (func : String) (args : Serde V) (timeout : Option ℕ) (target : Option String) (c : Context)
      (s : S)
      → IsPlain c
      → Owing c false (detach T B func args timeout target c s).1
  unfolding detach next_id detached detached_id
  detach-Owing func args timeout target c s h =
      let named = next_id c in
      let id = detached_id T named.0 named.1 in
      let b = detached T id func args (B.now_ms s) named.1 in
      let req = targeted T B target (timed T B timeout (B.now_ms s) named.1 b.0) in
      elim (Result-cases (checked T B req b.1)) [
        | inr (x, e) ↦ rw (e, detach) (h, λ o. o, λ a. absurd (ground arith))
        | inl (req, e) ↦
            let created = slot_create T B req named.1 s in
            let (t, k, plain) = slot_create-same req named.1 s in
            let h2 : IsPlain created.1 = ap all_plain (sym k) ∙ h in
            elim (Result-cases created.0) [
              | inr (x, o) ↦
                  let q : is_suspended {V = V} (err x) ≡ false = ap is_suspended (sym o) ∙ plain in
                  rw (e, o, detach)
                    (same-Owing c created.1 (track id (done (err x)) created.1) false t k (
                      track-Owing created.1 id (done (err x)) false h2 (ground (arith, q))
                        (λ a. refl)))
              | inl (p, o) ↦
                  rw (e, o, detach)
                    (same-Owing c created.1 (track id (done (ok tt)) created.1) false t k (
                      track-Owing created.1 id (done (ok tt)) false h2 refl
                        (λ a. absurd (ground arith))))
            ]
      ]
