-- ===== src/Workflow/Lineage/Requests.antt =====
-- resonate/src/context.rs: the ids and the lineage tags of the requests that a context builds.
use resonate_sdk_rs.Prelude.{ℕ, String, ◌≡◌, refl, ap, ◌∙◌, subst, Option, none, some, arith}
use resonate_sdk_rs.Prelude.Map.{get, insert, get-insert}
use resonate_sdk_rs.Prelude.I64.{ℤ}
use resonate_sdk_rs.Error.{ok, ok_inj}
use resonate_sdk_rs.Ids.{join_id, origin_of, origin_of-join_id}
use resonate_sdk_rs.Effects.{Value, PromiseCreateReq}
use resonate_sdk_rs.Context.{Context, child_timeout, check_serialization_error}
use resonate_sdk_rs.Context.Requests.{
  Tools, Serde, converted, fails, from_serializable, child_tags, child_tags_with_parent,
  local_create_req, remote_create_req, rpc, promise_create_req, sleep_create_req, with_timeout,
  with_target, with_data, into_value, deferred, no_value,
}
use resonate_sdk_rs.Workflow.Lineage.{InLineage, IsOf}
use resonate_sdk_rs.Workflow.{
  Backend, Remote, rpc_task, sleep_task, promise_task, timed, targeted, checked, build,
}

abbrev tagged :
    {V : Type 0} → String → String → String → String → ℤ → Value V → Context → PromiseCreateReq V
tagged parent segment scope branch timeout_at param c = record {
  id = join_id parent segment;
  timeout_at = timeout_at;
  param = param;
  tags = child_tags_with_parent scope branch parent c;
}

abbrev with : {V : Type 0} → String → String → PromiseCreateReq V → PromiseCreateReq V
with name value req = record req { tags = insert name value req.tags }

abbrev data_of : {V : Type 0} → V → Value V
data_of v = record { headers = none; «data» = some v }

module _ {V : Type 0} (origin : String) where
  tagged-InLineage :
      (parent segment scope branch : String) (timeout_at : ℤ) (param : Value V) (c : Context)
      → origin_of parent ≡ origin
      → c.origin_id ≡ origin
      → InLineage origin (tagged parent segment scope branch timeout_at param c)
  unfolding child_tags_with_parent get
  tagged-InLineage parent segment scope branch timeout_at param c h k =
      (origin_of-join_id parent segment ∙ h, ap some k, parent, segment, refl, refl)

  pub local_create_req-InLineage :
      (segment : String) (args : Serde V) (timeout : Option ℕ) (now : ℤ) (c : Context)
      (req : PromiseCreateReq V)
      → IsOf origin c
      → local_create_req (join_id c.id segment) args timeout now c ≡ ok req
      → InLineage origin req
  unfolding local_create_req child_tags from_serializable
  local_create_req-InLineage segment (converted v) timeout now c req (h, k) e =
      subst (InLineage origin) (ok_inj e) (
        tagged-InLineage c.id segment "local" c.branch_id (child_timeout now timeout c) (data_of v)
          c h k)
  local_create_req-InLineage segment (fails x) timeout now c req h e = absurd (ground arith)

  insert_target-InLineage :
      (target : String) (req : PromiseCreateReq V)
      → InLineage origin req
      → InLineage origin (with "resonate:target" target req)
  insert_target-InLineage target req (h, k, parent, segment, q, e) = (
    h,
    get-insert "resonate:target" "resonate:origin" target req.tags ∙ k,
    parent,
    segment,
    get-insert "resonate:target" "resonate:parent" target req.tags ∙ q,
    e,
  )

  insert_timer-InLineage :
      (req : PromiseCreateReq V)
      → InLineage origin req
      → InLineage origin (with "resonate:timer" "true" req)
  insert_timer-InLineage req (h, k, parent, segment, q, e) = (
    h,
    get-insert "resonate:timer" "resonate:origin" "true" req.tags ∙ k,
    parent,
    segment,
    get-insert "resonate:timer" "resonate:parent" "true" req.tags ∙ q,
    e,
  )

module _ {S V : Type 0} (T : Tools V) (B : Backend S V) (origin : String) where
  timed-InLineage :
      (timeout : Option ℕ) (now : ℤ) (c : Context) (req : PromiseCreateReq V)
      → InLineage origin req
      → InLineage origin (timed T B timeout now c req)
  unfolding with_timeout
  timed-InLineage none now c req h = h
  timed-InLineage (some millis) now c req h = h

  targeted-InLineage :
      (target : Option String) (req : PromiseCreateReq V)
      → InLineage origin req
      → InLineage origin (targeted T B target req)
  unfolding with_target
  targeted-InLineage none req h = h
  targeted-InLineage (some target) req h =
      insert_target-InLineage origin (T.target_resolver (some target)) req h

  promise-InLineage :
      (timeout : Option ℕ) (segment : String) (now : ℤ) (c : Context)
      → IsOf origin c
      → InLineage origin
          (timed T B timeout now c (promise_create_req (join_id c.id segment) none now c))
  unfolding promise_create_req child_tags
  promise-InLineage timeout segment now c (h, k) =
      let id = join_id c.id segment in
      timed-InLineage timeout now c
        (tagged c.id segment "global" id (child_timeout now none c) no_value c)
        (tagged-InLineage {V = V} origin c.id segment "global" id (child_timeout now none c)
          no_value c h k)

  aimed-InLineage :
      (timeout : Option ℕ) (target : Option String) (now : ℤ) (c : Context)
      (req : PromiseCreateReq V)
      → InLineage origin req
      → InLineage origin (targeted T B target (timed T B timeout now c req))
  aimed-InLineage timeout target now c req h =
      targeted-InLineage target (timed T B timeout now c req) (timed-InLineage timeout now c req h)

  -- What `rpc` and `detached` build on an id that extends the parent.
  pub built-InLineage :
      (parent segment func : String) (args : Serde V) (timeout : Option ℕ) (target : Option String)
      (now : ℤ) (c : Context) (req : PromiseCreateReq V)
      → origin_of parent ≡ origin
      → c.origin_id ≡ origin
      → (let b =
            deferred T
              (join_id parent segment)
              (remote_create_req T (join_id parent segment) func parent args none none now c) in
          checked T B (targeted T B target (timed T B timeout now c b.0)) b.1 ≡ ok req)
      → InLineage origin req
  unfolding remote_create_req into_value from_serializable check_serialization_error
  built-InLineage parent segment func (fails x) timeout target now c req h k e =
      absurd (ground arith)
  built-InLineage parent segment func (converted v) timeout target now c req h k e =
      let r =
        tagged parent segment "global" (join_id parent segment) (child_timeout now none c)
          (data_of (T.task_data func v)) c in
      subst (InLineage origin) (ok_inj e) (
        aimed-InLineage timeout target now c (with "resonate:target" (T.target_resolver none) r) (
          insert_target-InLineage origin (T.target_resolver none) r (
            tagged-InLineage origin parent segment "global" (join_id parent segment)
              (child_timeout now none c) (data_of (T.task_data func v)) c h k)))

  pub build-InLineage :
      (op : Remote V) (segment : String) (now : ℤ) (c : Context) (req : PromiseCreateReq V)
      → IsOf origin c
      → build T B op (join_id c.id segment) now c ≡ ok req
      → InLineage origin req
  unfolding build rpc
  build-InLineage (rpc_task func args timeout target) segment now c req (h, k) e =
      built-InLineage c.id segment func args timeout target now c req h k e
  build-InLineage (sleep_task duration) segment now c req (h, k) e =
      unfold sleep_create_req child_tags in
      let id = join_id c.id segment in
      let r =
        tagged {V = V} c.id segment "global" id (child_timeout now (some duration) c) no_value c in
      subst (InLineage origin) (ok_inj e) (
        insert_target-InLineage origin (T.target_resolver none) (with "resonate:timer" "true" r) (
          insert_timer-InLineage origin r (
            tagged-InLineage {V = V} origin c.id segment "global" id
              (child_timeout now (some duration) c) no_value c h k)))
  build-InLineage (promise_task timeout none) segment now c req (h, k) e =
      subst (InLineage origin) (ok_inj e) (promise-InLineage timeout segment now c (h, k))
  build-InLineage (promise_task timeout (some (fails x))) segment now c req (h, k) e =
      unfold with_data from_serializable in absurd (ground arith)
  build-InLineage (promise_task timeout (some (converted v))) segment now c req (h, k) e =
      unfold with_data from_serializable in
      subst (InLineage origin) (ok_inj e) (promise-InLineage timeout segment now c (h, k))
