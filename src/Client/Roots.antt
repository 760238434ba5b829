-- ===== src/Client/Roots.antt =====
-- resonate/src/resonate.rs with context.rs: the root promises that a client creates, and what their
-- workflows create.
use resonate_sdk_rs.Prelude.{String, ◌≡◌, sym, ap, ◌∙◌, subst, inl, inr, [], some, unwrap_or, arith}
use resonate_sdk_rs.Prelude.Map.{get, get-insert}
use resonate_sdk_rs.Prelude.I64.{ℤ}
use resonate_sdk_rs.Error.{ok, ok_inj, Result-cases}
use resonate_sdk_rs.Ids.{origin_of, validate_root_id, origin_of-lineage}
use resonate_sdk_rs.Json.{Json}
use resonate_sdk_rs.Server.{Tags}
use resonate_sdk_rs.Effects.{PromiseCreateReq}
use resonate_sdk_rs.Context.{root}
use resonate_sdk_rs.Context.Requests.{Tools}
use resonate_sdk_rs.Workflow.{Backend}
use resonate_sdk_rs.Workflow.Program.{Program, exec}
use resonate_sdk_rs.Workflow.Lineage.{recorded, AllIn}
use resonate_sdk_rs.Workflow.Lineage.Programs.{exec-InLineage}
use resonate_sdk_rs.Client.{Options, Parts, build_root_tags, build_promise_create_req}

build_root_tags-origin :
    (id target : String) (tags : Tags)
    → get "resonate:origin" (build_root_tags id target tags) ≡ some id
unfolding build_root_tags
build_root_tags-origin id target tags =
    get-insert "resonate:target" "resonate:origin" target _
    ∙ get-insert "resonate:scope" "resonate:origin" "global" _
    ∙ get-insert "resonate:parent" "resonate:origin" id _
    ∙ get-insert "resonate:branch" "resonate:origin" id _
    ∙ get-insert "resonate:origin" "resonate:origin" id tags

module _ {J : Json} {W : Type 0} (K : Parts J W) where
  build_root_inv :
      (id func_name : String) (args : J.Value) (opts : Options) (now : ℤ)
      (req : PromiseCreateReq J.Value)
      → build_promise_create_req K id func_name args opts now ≡ ok req
      → (origin_of id ≡ id) × (id ≡ req.id) × (get "resonate:origin" req.tags ≡ some id)
  unfolding build_promise_create_req
  build_root_inv id func_name args opts now req = elim (Result-cases (validate_root_id id)) [
    | inr (x, e) ↦ rw (e, build_promise_create_req) (λ h. absurd (ground arith))
    | inl (u, e) ↦ elim (Result-cases (K.encode (K.task_json func_name args))) [
      | inr (x, o) ↦ rw (e, o, build_promise_create_req) (λ h. absurd (ground arith))
      | inl (param, o) ↦
          rw (e, o, build_promise_create_req)
            (λ h. (
              origin_of-lineage id [] e,
              ap (λ r. r.id) (ok_inj h),
              ap (λ r. get "resonate:origin" r.tags) (sym (ok_inj h))
                  ∙ build_root_tags-origin id opts.target opts.tags,
            ))
    ]
  ]

  -- A root promise that the client builds under an accepted id starts a lineage of its own: whatever the
  -- workflow does that runs for it, in the context that `Core` makes from the promise's id and tags, all
  -- its create requests are in the lineage of that id.
  pub build_promise_create_req-AllIn :
      {S V : Type 0} (T : Tools V) (B : Backend S V) (id func_name : String) (args : J.Value)
      (opts : Options) (now : ℤ) (req : PromiseCreateReq J.Value) (p : Program V) (timeout_at : ℤ)
      (s : S)
      → build_promise_create_req K id func_name args opts now ≡ ok req
      → AllIn id
          (exec T
            (recorded B)
            p
            (root req.id
              (unwrap_or (get "resonate:origin" req.tags) (origin_of req.id))
              timeout_at
              func_name)
            (record { state = s; log = [] })).2.log
  build_promise_create_req-AllIn T B id func_name args opts now req p timeout_at s e =
      let (fixed, same, tag) = build_root_inv id func_name args opts now req e in
      let k : unwrap_or (get "resonate:origin" req.tags) (origin_of req.id) ≡ id =
        ap (λ o. unwrap_or o (origin_of req.id)) tag in
      subst
        (λ o.
          AllIn id
            (exec T (recorded B) p (root req.id o timeout_at func_name)
              (record { state = s; log = [] })).2.log)
        (sym k)
        (exec-InLineage T B req.id id timeout_at func_name p s (ap origin_of (sym same) ∙ fixed))
