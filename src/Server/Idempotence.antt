-- ===== src/Server/Idempotence.antt =====
-- resonate/src/network.rs: `promise_create` and `promise_settle`, called again.
use resonate_sdk_rs.Prelude.{
  ℕ, String, ◌≡◌, [], ap, ◌∙◌, inl, inr, false, eq_refl, some, arith, Bool-cases, Option-cases,
  if◌then◌else◌,
}
use mathlib.Core.Option
use resonate_sdk_rs.Prelude.Map.{get, get-insert, get-modify}
use resonate_sdk_rs.Prelude.I64.{ℤ, leb_ℤ}
use resonate_sdk_rs.Error.{ok}
use resonate_sdk_rs.Json.{Json, get_str}
use resonate_sdk_rs.Types.{PromiseState, is_pending}
use resonate_sdk_rs.Server.{Tags, DurablePromise, PromiseRecord, ServerState, promise_record}
use resonate_sdk_rs.Server.Timers.{
  set_p_timeout, del_p_timeout, set_t_timeout, send_execute_message,
}
use resonate_sdk_rs.Server.Handler.{promise, respond}
use resonate_sdk_rs.Server.Request.{
  require_str, extract_tags, get_or_null, timeout_of, settle_state_of,
}
use resonate_sdk_rs.Server.Promises.{
  expired_promise, pending_promise, dispatch_new, insert_promise, create_new, settled_promise,
  settle_pending, create_at, promise_create, settle_at, promise_settle,
}
use resonate_sdk_rs.Server.Settle.{try_auto_timeout}
use resonate_sdk_rs.Server.Apply.{auto_timeouts, dispatch, apply}
use resonate_sdk_rs.Server.Expiry.{aged, try_auto_timeout-aged, require_str-get}
use resonate_sdk_rs.Server.Records.{record_at, settle_effects-record}

module _ {V : Type 0} where
  -- The promise that a creation stores.
  abbrev created : ℤ → String → V → V → Tags → ℤ → DurablePromise V
  created now id param null tags timeout_at =
      if leb_ℤ timeout_at now
      then expired_promise id param null tags timeout_at
      else pending_promise id param null tags timeout_at now

  dispatch_new-promises :
      (now : ℤ) (id : String) (tags : Tags) (timeout_at : ℤ) (address : String) (s : ServerState V)
      → (dispatch_new now id tags timeout_at address s).promises ≡ s.promises
  unfolding dispatch_new set_p_timeout set_t_timeout send_execute_message
  dispatch_new-promises now id tags timeout_at address s = ground arith

  pub create_new-record :
      (now : ℤ) (id : String) (param null : V) (tags : Tags) (timeout_at : ℤ) (s : ServerState V)
      → record_at id (create_new now id param null tags timeout_at s)
        ≡ some (promise_record (created now id param null tags timeout_at))
  unfolding create_new insert_promise
  create_new-record now id param null tags timeout_at s = elim (Bool-cases (leb_ℤ timeout_at now)) [
    | inl late ↦
        rw (late, create_new)
          (settle_effects-record id now id _
            ∙ ground (
              arith,
              get-insert id id (expired_promise id param null tags timeout_at) s.promises,
              eq_refl id,
            ))
    | inr early ↦ elim (Option-cases (get "resonate:target" tags)) [
      | inl no_target ↦
          rw (early, no_target, create_new)
            (ground (arith, get-insert id id p s.promises, eq_refl id))
      | inr (address, target) ↦
          rw (early, target, create_new)
            (ap (λ m. Option.map promise_record (get id m))
                (dispatch_new-promises now id tags timeout_at address _)
              ∙ ground (arith, get-insert id id p s.promises, eq_refl id))
    ]
  ]
    where
      p : DurablePromise V
      p = pending_promise id param null tags timeout_at now

  pub settle_pending-record :
      (now : ℤ) (id : String) (state : PromiseState) (value : V) (s : ServerState V)
      (p : DurablePromise V)
      → get id s.promises ≡ some p
      → record_at id (settle_pending now id state value s)
        ≡ some (promise_record (settled_promise now state value p))
  unfolding settle_pending del_p_timeout
  settle_pending-record now id state value s p e =
      ground (arith, get-modify id id (settled_promise now state value) s.promises, eq_refl id)

module _ (J : Json) where
  -- A promise that is there is returned as it is.
  create_at_existing :
      (now : ℤ) (corr_id req : J.Value) (id : String) (s : ServerState J.Value)
      (r : PromiseRecord J.Value)
      → record_at id s ≡ some r
      → create_at J now corr_id req id s
        ≡ (respond "promise.create" corr_id 200 (promise (some r)), s)
  unfolding create_at
  create_at_existing now corr_id req id s r e = elim (Option-cases (get id s.promises)) [
    | inl d ↦ absurd (ground arith)
    | inr (p, d) ↦ rw (d, create_at) (ground arith)
  ]

  create_at_returns :
      (now : ℤ) (corr_id req : J.Value) (id : String) (s : ServerState J.Value)
      → (r : PromiseRecord J.Value) × (status : ℕ) × ((create_at J now corr_id req id s).0
          ≡ respond "promise.create" corr_id status (promise (some r)))
        × (record_at id (create_at J now corr_id req id s).1 ≡ some r)
  unfolding create_at
  create_at_returns now corr_id req id s = elim (Option-cases (get id s.promises)) [
    | inr (p, d) ↦ (promise_record p, 200, rw (d, create_at), rw (d, create_at) (rw d))
    | inl d ↦ (
      promise_record p,
      if leb_ℤ (timeout_of J req) now then 200 else 201,
      rw (d, create_at) (ground arith),
      rw (d, create_at)
          (create_new-record now id (get_or_null J req "param") J.null (extract_tags J req)
            (timeout_of J req) s),
    )
  ]
    where
      p : DurablePromise J.Value
      p = created now id (get_or_null J req "param") J.null (extract_tags J req) (timeout_of J req)

  -- A promise.create request, from the state that its timeouts leave.
  apply-promise_create :
      (now : ℤ) (req : J.Value) (id : String) (s : ServerState J.Value)
      → get_str J req "kind" ≡ some "promise.create"
      → require_str J req "id" ≡ ok id
      → apply J now req s
        ≡ create_at J now
            (get_or_null J req "corrId")
            req
            id
            (try_auto_timeout now id (record s { outgoing = [] }))
  unfolding apply auto_timeouts dispatch promise_create
  apply-promise_create now req id s k e = rw (k, apply, require_str-get J req "id" id e, e)

  -- A promise.create request that names an id returns a record of the promise, whether it is new or not;
  -- and a promise.create of the same id after it, at whatever time and with whatever other fields, returns
  -- with status 200 that record as it is seen at the later time: settled by the timeout if it was pending
  -- and its deadline has come, else the same. The later request does nothing to the state but empty the
  -- outgoing messages and time the promise out where it is due.
  pub promise_create-again :
      (now later : ℤ) (req req' : J.Value) (id : String) (s : ServerState J.Value)
      → get_str J req "kind" ≡ some "promise.create"
      → get_str J req' "kind" ≡ some "promise.create"
      → require_str J req "id" ≡ ok id
      → require_str J req' "id" ≡ ok id
      → (r : PromiseRecord J.Value) × (status : ℕ) × ((apply J now req s).0
          ≡ respond "promise.create" (get_or_null J req "corrId") status (promise (some r)))
        × (apply J later req' (apply J now req s).1 ≡ (
          respond "promise.create"
              (get_or_null J req' "corrId")
              200
              (promise (some (aged later r))),
          try_auto_timeout later id (record (apply J now req s).1 { outgoing = [] }),
        ))
  promise_create-again now later req req' id s k k' e e' =
      let (r, status, returned, stored) =
        create_at_returns now (get_or_null J req "corrId") req id
          (try_auto_timeout now id (record s { outgoing = [] })) in
      let first = apply-promise_create now req id s k e in
      let kept : record_at id (apply J now req s).1 ≡ some r =
        ap (λ x. record_at id x.1) first ∙ stored in
      (
        r,
        status,
        ap (λ x. x.0) first ∙ returned,
        apply-promise_create later req' id _ k' e'
            ∙ create_at_existing later (get_or_null J req' "corrId") req' id _ (aged later r)
                (try_auto_timeout-aged later id _ r kept),
      )

  settle_at_settled :
      (now : ℤ) (corr_id req : J.Value) (id : String) (s : ServerState J.Value)
      (r : PromiseRecord J.Value)
      → record_at id s ≡ some r
      → is_pending r.state ≡ false
      → settle_at J now corr_id req id s
        ≡ (respond "promise.settle" corr_id 200 (promise (some r)), s)
  unfolding settle_at
  settle_at_settled now corr_id req id s r e o = elim (Option-cases (get id s.promises)) [
    | inl d ↦ absurd (ground arith)
    | inr (p, d) ↦ rw (d, settle_at) (ground arith)
  ]

  settle_at_returns :
      (now : ℤ) (corr_id req : J.Value) (id : String) (s : ServerState J.Value)
      (p : DurablePromise J.Value)
      → get id s.promises ≡ some p
      → is_pending (settle_state_of J req) ≡ false
      → (r : PromiseRecord J.Value) × ((settle_at J now corr_id req id s).0
          ≡ respond "promise.settle" corr_id 200 (promise (some r)))
        × (record_at id (settle_at J now corr_id req id s).1 ≡ some r)
        × (is_pending r.state ≡ false)
  unfolding settle_at
  settle_at_returns now corr_id req id s p e fine = elim (Bool-cases (is_pending p.state)) [
    | inr o ↦ (promise_record p, rw (e, o, settle_at), rw (e, o, settle_at) (rw e), o)
    | inl o ↦ (
      promise_record (settled_promise now (settle_state_of J req) (get_or_null J req "value") p),
      rw (e, o, settle_at),
      rw (e, o, settle_at)
          (settle_effects-record id now id _ ∙ settle_pending-record now id _ _ s p e),
      fine,
    )
  ]

  -- A promise.settle of a promise that is there, in a state other than pending, returns a settled
  -- record; and a promise.settle of the same id after it, at whatever time and with whatever state and
  -- value, returns the same record and changes nothing.
  pub promise_settle-again :
      (now later : ℤ) (corr_id corr_id' req req' : J.Value) (id : String) (s : ServerState J.Value)
      (p : DurablePromise J.Value)
      → require_str J req "id" ≡ ok id
      → require_str J req' "id" ≡ ok id
      → get id s.promises ≡ some p
      → is_pending (settle_state_of J req) ≡ false
      → (r : PromiseRecord J.Value) × ((promise_settle J now corr_id req s).0
          ≡ respond "promise.settle" corr_id 200 (promise (some r)))
        × (is_pending r.state ≡ false)
        × (promise_settle J later corr_id' req' (promise_settle J now corr_id req s).1 ≡ (
          respond "promise.settle" corr_id' 200 (promise (some r)),
          (promise_settle J now corr_id req s).1,
        ))
  unfolding promise_settle
  promise_settle-again now later corr_id corr_id' req req' id s p e e' ep fine =
      let (r, returned, stored, settled) = settle_at_returns now corr_id req id s p ep fine in
      (
        r,
        rw e returned,
        settled,
        rw (e, e') (settle_at_settled later corr_id' req' id _ r stored settled),
      )
