-- ===== src/Workflow/Lineage/Operations.antt =====
-- resonate/src/context.rs: the operations on promises keep the lineage.
use resonate_sdk_rs.Prelude.{
  ℕ, String, ◌≡◌, ap, ◌∙◌, inl, inr, Option, concat, Option-cases, Bool-cases,
}
use resonate_sdk_rs.Prelude.Decimal.{to_string}
use resonate_sdk_rs.Error.{Result-cases}
use resonate_sdk_rs.Ids.{join_id, origin_of}
use resonate_sdk_rs.Error.{Result}
use resonate_sdk_rs.Server.{PromiseRecord}
use resonate_sdk_rs.Effects.{Value, PromiseCreateReq}
use resonate_sdk_rs.Context.{Joined, Context, next_id}
use resonate_sdk_rs.Context.Requests.{Tools, Serde, detached, detached_id, hash_id}
use resonate_sdk_rs.Workflow.{
  Backend, Remote, build, slot_create, as_result, block_on_remote, spawn_remote, spawn_sequenced,
  on_remote, detach, checked, targeted, timed,
}
use resonate_sdk_rs.Workflow.Program.{Terminal, awaits, spawns, perform, remote_op}
use resonate_sdk_rs.Workflow.Lineage.{InLineage, AllIn, Logged, recorded, Keeps, Kept}
use resonate_sdk_rs.Workflow.Lineage.Requests.{build-InLineage, built-InLineage}

module _ {S V : Type 0} (T : Tools V) (B : Backend S V) (origin : String)
    (fixed : origin_of origin ≡ origin) where
  pub slot_create-Kept :
      (req : PromiseCreateReq V) (c : Context) (s : Logged S V)
      → InLineage origin req
      → Keeps origin c s
      → Kept origin (slot_create T (recorded B) req c s)
  unfolding slot_create
  slot_create-Kept req c s q (h, a) = elim (Bool-cases c.sequencer_ok) [
    | inr e ↦ rw (e, slot_create) (h, a)
    | inl e ↦ elim (Result-cases (B.create_promise req s.state).0) [
      | inl (p, o) ↦ rw (e, o, slot_create) (h, (q, a))
      | inr (x, o) ↦ rw (e, o, slot_create) (h, (q, a))
    ]
  ]

  block_on_remote-Kept :
      (id : String) (req : PromiseCreateReq V) (c : Context) (s : Logged S V)
      → InLineage origin req
      → Keeps origin c s
      → Kept origin (block_on_remote T (recorded B) id req c s)
  unfolding block_on_remote
  block_on_remote-Kept id req c s q h =
      let k = slot_create-Kept req c s q h in
      elim (Result-cases (slot_create T (recorded B) req c s).0) [
        | inr (x, e) ↦ rw (e, block_on_remote) k
        | inl (p, e) ↦ elim (Option-cases (as_result T (recorded B) p)) [
          | inr (r, o) ↦ rw (e, o, block_on_remote) k
          | inl o ↦ rw (e, o, block_on_remote) k
        ]
      ]

  pub spawn_sequenced-Kept :
      (id : String) (req : PromiseCreateReq V)
      (on_created : PromiseRecord (Value V) → Logged S V → Result V × Joined × Logged S V)
      (c : Context) (s : Logged S V)
      → ((p : PromiseRecord (Value V)) (s : Logged S V)
          → AllIn origin s.log
          → AllIn origin (on_created p s).2.log)
      → InLineage origin req
      → Keeps origin c s
      → Kept origin (spawn_sequenced T (recorded B) id req on_created c s)
  unfolding spawn_sequenced
  spawn_sequenced-Kept id req on_created c s step q h =
      let k = slot_create-Kept req c s q h in
      elim (Result-cases (slot_create T (recorded B) req c s).0) [
        | inr (x, e) ↦ rw (e, spawn_sequenced) k
        | inl (p, e) ↦
            rw (e, spawn_sequenced) (k.0, step p (slot_create T (recorded B) req c s).2 k.1)
      ]

  on_remote-AllIn :
      (id : String) (p : PromiseRecord (Value V)) (s : Logged S V)
      → AllIn origin s.log
      → AllIn origin (on_remote T (recorded B) id p s).2.log
  unfolding on_remote
  on_remote-AllIn id p s a = elim (Option-cases (as_result T (recorded B) p)) [
    | inr (r, o) ↦ rw (o, on_remote) a
    | inl o ↦ rw (o, on_remote) a
  ]

  spawn_remote-Kept :
      (id : String) (req : PromiseCreateReq V) (c : Context) (s : Logged S V)
      → InLineage origin req
      → Keeps origin c s
      → Kept origin (spawn_remote T (recorded B) id req c s)
  unfolding spawn_remote
  spawn_remote-Kept id req c s q h =
      spawn_sequenced-Kept id req (on_remote T (recorded B) id) c s (on_remote-AllIn id) q h

  perform-Kept :
      (t : Terminal) (id : String) (req : PromiseCreateReq V) (c : Context) (s : Logged S V)
      → InLineage origin req
      → Keeps origin c s
      → Kept origin (perform T (recorded B) t id req c s)
  perform-Kept awaits id req c s q h = block_on_remote-Kept id req c s q h
  perform-Kept spawns id req c s q h = spawn_remote-Kept id req c s q h

  pub remote_op-Kept :
      (t : Terminal) (op : Remote V) (c : Context) (s : Logged S V)
      → Keeps origin c s
      → Kept origin (remote_op T (recorded B) t op c s)
  unfolding remote_op next_id
  remote_op-Kept t op c s (h, a) =
      let now = B.now_ms s.state in
      let named = (next_id c).1 in
      let id = join_id c.id (to_string c.seq) in
      elim (Result-cases (build T (recorded B) op id now named)) [
        | inr (x, e) ↦ rw (e, remote_op) (h, a)
        | inl (req, e) ↦
            let q = build-InLineage T (recorded B) origin op (to_string c.seq) now named req h e in
            rw (e, remote_op) (perform-Kept t id req named s q (h, a))
      ]

  pub detach-Kept :
      (func : String) (args : Serde V) (timeout : Option ℕ) (target : Option String) (c : Context)
      (s : Logged S V)
      → Keeps origin c s
      → Kept origin (detach T (recorded B) func args timeout target c s)
  unfolding detach next_id detached detached_id
  detach-Kept func args timeout target c s (h, a) =
      let now = B.now_ms s.state in
      let named = (next_id c).1 in
      let segment = concat "d" (hash_id T (join_id c.id (to_string c.seq))) in
      let id = join_id c.origin_id segment in
      let b = detached T id func args now named in
      elim (Result-cases (
        checked T (recorded B)
          (targeted T (recorded B) target (timed T (recorded B) timeout now named b.0)) b.1)) [
            | inr (x, e) ↦ rw (e, detach) (h, a)
            | inl (req, e) ↦
                let q =
                  built-InLineage T (recorded B) origin c.origin_id segment func args timeout target
                    now named req (ap origin_of h.1 ∙ fixed) h.1 e in
                let k = slot_create-Kept req named s q (h, a) in
                elim (Result-cases (slot_create T (recorded B) req named s).0) [
                  | inr (x, o) ↦ rw (e, o, detach) k
                  | inl (p, o) ↦ rw (e, o, detach) k
                ]
          ]
