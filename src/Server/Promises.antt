-- ===== src/Server/Promises.antt =====
-- resonate/src/network.rs: the promise operations.
use resonate_sdk_rs.Prelude.{String, [], Option, none, some, and_then, concat, if◌then◌else◌}
use resonate_sdk_rs.Prelude.Map.{get, insert, modify}
use resonate_sdk_rs.Prelude.Set
use resonate_sdk_rs.Prelude.I64.{ℤ, pos, ltb_ℤ, leb_ℤ, add_i64, parse_i64}
use resonate_sdk_rs.Types.{PromiseState, TaskState, pending, is_pending}
use resonate_sdk_rs.Json.{Json}
use resonate_sdk_rs.Server.{
  Tags, DurablePromise, Task, ServerState, promise_record, pending_retry_ttl,
}
use resonate_sdk_rs.Server.Timers.{
  set_p_timeout, del_p_timeout, set_t_timeout, send_execute_message,
}
use resonate_sdk_rs.Server.Settle.{timeout_state, settle_effects}
use resonate_sdk_rs.Server.Handler.{error, promise, Handler, ◌>>=◌, respond}
use resonate_sdk_rs.Server.Request.{
  require_str, extract_tags, get_or_null, timeout_of, settle_state_of,
}

abbrev pub pending_task : String → Task
pending_task id = record {
  id = id;
  state = TaskState.pending;
  version = pos 0;
  pid = none;
  ttl = none;
  resumes = [];
}

-- The tag `resonate:delay`, where it reads as a number after `now`.
abbrev pub delay_after : ℤ → Tags → Option ℤ
delay_after now tags = elim (and_then (get "resonate:delay" tags) parse_i64) [
  | none ↦ none
  | some d ↦ if ltb_ℤ now d then some d else none
]

module _ {V : Type 0} where
  -- A promise that is already past its deadline when it is created.
  abbrev pub expired_promise : String → V → V → Tags → ℤ → DurablePromise V
  expired_promise id param null tags timeout_at = record {
    id = id;
    state = timeout_state tags;
    param = param;
    value = null;
    tags = tags;
    timeout_at = timeout_at;
    created_at = timeout_at;
    settled_at = some timeout_at;
    awaiters = [];
    subscribers = [];
  }

  abbrev pub pending_promise : String → V → V → Tags → ℤ → ℤ → DurablePromise V
  pending_promise id param null tags timeout_at now = record {
    id = id;
    state = pending;
    param = param;
    value = null;
    tags = tags;
    timeout_at = timeout_at;
    created_at = now;
    settled_at = none;
    awaiters = [];
    subscribers = [];
  }

  -- The task of a new promise with a target: dispatched at once, or after its delay.
  unfoldable pub dispatch_new : ℤ → String → Tags → ℤ → String → ServerState V → ServerState V
  dispatch_new now id tags timeout_at address s =
      let s1 = set_p_timeout id timeout_at s in
      let s2 = record s1 { tasks = insert id (pending_task id) s1.tasks } in
      elim (delay_after now tags) [
        | some d ↦ set_t_timeout id 0 d s2
        | none ↦
            send_execute_message address id (pos 0)
              (set_t_timeout id 0 (add_i64 now pending_retry_ttl) s2)
      ]

  unfoldable pub insert_promise : String → DurablePromise V → ServerState V → ServerState V
  insert_promise id p s = record s { promises = insert id p s.promises }

  -- `promise_create` from the point where the promise is known to be new.
  unfoldable pub create_new : ℤ → String → V → V → Tags → ℤ → ServerState V → ServerState V
  create_new now id param null tags timeout_at s =
      if leb_ℤ timeout_at now
      then settle_effects now id
          (insert_promise id (expired_promise id param null tags timeout_at) s)
      else (let s1 = insert_promise id (pending_promise id param null tags timeout_at now) s in
          elim (get "resonate:target" tags) [
            | none ↦ s1
            | some address ↦ dispatch_new now id tags timeout_at address s1
          ])

  -- The writes of a settlement, before its effects.
  abbrev pub settled_promise : ℤ → PromiseState → V → DurablePromise V → DurablePromise V
  settled_promise now state value p = record p {
    state = state;
    value = value;
    settled_at = some now;
  }

  unfoldable pub settle_pending : ℤ → String → PromiseState → V → ServerState V → ServerState V
  settle_pending now id state value s =
      del_p_timeout id
        (record s { promises = modify id (settled_promise now state value) s.promises })

module _ (J : Json) where
  open J use {Value, null}

  unfoldable pub promise_get : Value → Value → Handler Value
  promise_get corr_id req = do
    id ← require_str J req "id"
    λ s. (
      elim (get id s.promises) [
        | some p ↦ respond "promise.get" corr_id 200 (promise (some (promise_record p)))
        | none ↦
            respond "promise.get" corr_id 404 (error (concat "promise " (concat id " not found")))
      ],
      s,
    )

  -- The branches of `promise_create` behind its lookup.
  unfoldable pub create_at : ℤ → Value → Value → String → Handler Value
  create_at now corr_id req id s =
      let timeout_at = timeout_of J req in
      let param = get_or_null J req "param" in
      let tags = extract_tags J req in
      elim (get id s.promises) [
        | some existing ↦
            (respond "promise.create" corr_id 200 (promise (some (promise_record existing))), s)
        | none ↦ (
          if leb_ℤ timeout_at now
              then respond "promise.create" corr_id 200
                  (promise (some (promise_record (expired_promise id param null tags timeout_at))))
              else respond "promise.create" corr_id 201 (
                  promise
                    (some (promise_record (pending_promise id param null tags timeout_at now)))),
          create_new now id param null tags timeout_at s,
        )
      ]

  unfoldable pub promise_create : ℤ → Value → Value → Handler Value
  promise_create now corr_id req = do id ← require_str J req "id"; create_at now corr_id req id

  unfoldable pub settle_at : ℤ → Value → Value → String → Handler Value
  settle_at now corr_id req id s =
      let state = settle_state_of J req in
      let value = get_or_null J req "value" in
      elim (get id s.promises) [
        | none ↦ (
          respond "promise.settle" corr_id 404 (error (concat "promise " (concat id " not found"))),
          s,
        )
        | some p ↦
            if is_pending p.state
            then (
              respond "promise.settle" corr_id 200
                  (promise (some (promise_record (settled_promise now state value p)))),
              settle_effects now id (settle_pending now id state value s),
            )
            else (respond "promise.settle" corr_id 200 (promise (some (promise_record p))), s)
      ]

  unfoldable pub promise_settle : ℤ → Value → Value → Handler Value
  promise_settle now corr_id req = do id ← require_str J req "id"; settle_at now corr_id req id

  abbrev pub subscribed : String → DurablePromise Value → DurablePromise Value
  subscribed address p =
      if is_pending p.state then record p { subscribers = Set.insert address p.subscribers } else p

  unfoldable pub listen_at : Value → String → String → Handler Value
  listen_at corr_id awaited address s = elim (get awaited s.promises) [
    | some p ↦ (
      respond "promise.register_listener" corr_id 200
          (promise (some (promise_record (subscribed address p)))),
      record s { promises = modify awaited (subscribed address) s.promises },
    )
    | none ↦ (
      respond "promise.register_listener" corr_id 404
          (error (concat "promise " (concat awaited " not found"))),
      s,
    )
  ]

  unfoldable pub promise_register_listener : Value → Value → Handler Value
  promise_register_listener corr_id req = do
    awaited ← require_str J req "awaited"
    address ← require_str J req "address"
    listen_at corr_id awaited address
