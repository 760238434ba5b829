-- ===== src/Server/Expiry.antt =====
-- resonate/src/network.rs: a promise as a request sees it at a time.
use resonate_sdk_rs.Prelude.{
  String, ◌≡◌, refl, ◌&&◌, ap, ◌∙◌, inl, inr, eq_refl, Option, none, some, arith, Bool-cases,
  Option-cases, if◌then◌else◌, [], concat,
}
use mathlib.Core.Option
use resonate_sdk_rs.Prelude.Map.{get, get-modify}
use resonate_sdk_rs.Prelude.I64.{ℤ, leb_ℤ}
use resonate_sdk_rs.Error.{Result, ok}
use resonate_sdk_rs.Json.{Json, get_str}
use resonate_sdk_rs.Types.{is_pending}
use resonate_sdk_rs.Server.{DurablePromise, PromiseRecord, ServerState, promise_record}
use resonate_sdk_rs.Server.Timers.{del_p_timeout}
use resonate_sdk_rs.Server.Handler.{error, promise, Response, respond}
use resonate_sdk_rs.Server.Request.{require_str, get_or_null}
use resonate_sdk_rs.Server.Promises.{promise_get}
use resonate_sdk_rs.Server.Settle.{timeout_state, time_out, try_auto_timeout, is_due}
use resonate_sdk_rs.Server.Apply.{auto_timeouts, dispatch, apply}
use resonate_sdk_rs.Server.Records.{record_at, settle_effects-record}

module _ {V : Type 0} where
  -- A promise as a request sees it at a time.
  unfoldable pub seen : ℤ → DurablePromise V → PromiseRecord V
  seen now p =
      if is_due now p
      then promise_record
          (record p { state = timeout_state p.tags; settled_at = some p.timeout_at })
      else promise_record p

  pub try_auto_timeout-record :
      (now : ℤ) (id : String) (s : ServerState V)
      → record_at id (try_auto_timeout now id s) ≡ Option.map (seen now) (get id s.promises)
  unfolding try_auto_timeout seen
  try_auto_timeout-record now id s = elim (Option-cases (get id s.promises)) [
    | inl e ↦ rw (e, try_auto_timeout) (rw e)
    | inr (p, e) ↦ elim (Bool-cases (is_due now p)) [
      | inr o ↦ rw (e, o, try_auto_timeout) (rw e)
      | inl o ↦
          rw (e, o, try_auto_timeout)
            (unfold time_out del_p_timeout in
              settle_effects-record id now id _
              ∙ ground (
                arith,
                get-modify id id
                    (λ q. record q { state = timeout_state p.tags; settled_at = some p.timeout_at })
                    s.promises,
                eq_refl id,
              ))
    ]
  ]

-- A record as it is seen at a time.
unfoldable pub aged : {V : Type 0} → ℤ → PromiseRecord V → PromiseRecord V
aged now r =
    if is_pending r.state && leb_ℤ r.timeout_at now
    then record r { state = timeout_state r.tags; settled_at = some r.timeout_at }
    else r

seen-aged : {V : Type 0} (now : ℤ) (p : DurablePromise V) → seen now p ≡ aged now (promise_record p)
unfolding seen aged
seen-aged now p = elim (Bool-cases (is_due now p)) [ inl o ↦ rw (o) refl | inr o ↦ rw (o) refl ]

pub try_auto_timeout-aged :
    {V : Type 0} (now : ℤ) (id : String) (s : ServerState V) (r : PromiseRecord V)
    → record_at id s ≡ some r
    → record_at id (try_auto_timeout now id s) ≡ some (aged now r)
try_auto_timeout-aged now id s r e = elim (Option-cases (get id s.promises)) [
  | inl d ↦ absurd (ground arith)
  | inr (p, d) ↦ try_auto_timeout-record now id s ∙ ground (arith, seen-aged now p)
]

-- A text that is required is a text that is there.
pub require_str-get :
    (J : Json) (req : J.Value) (field id : String)
    → require_str J req field ≡ ok id
    → get_str J req field ≡ some id
unfolding require_str
require_str-get J req field id e = ground arith

module _ (J : Json) where
  -- What a promise.get answers, by the promise as it is seen.
  abbrev pub answer : J.Value → String → Option (PromiseRecord J.Value) → Result (Response J.Value)
  answer corr_id id none =
      respond "promise.get" corr_id 404 (error (concat "promise " (concat id " not found")))
  answer corr_id id (some r) = respond "promise.get" corr_id 200 (promise (some r))

  promise_get-answer :
      (corr_id req : J.Value) (id : String) (s : ServerState J.Value)
      → require_str J req "id" ≡ ok id
      → (promise_get J corr_id req s).0 ≡ answer corr_id id (record_at id s)
  unfolding promise_get
  promise_get-answer corr_id req id s e = elim (Option-cases (get id s.promises)) [
    | inl d ↦ ground arith
    | inr (p, d) ↦ ground arith
  ]

  -- A promise.get request is answered at its time: a promise that is not there by status 404, a
  -- pending promise whose deadline has come as settled by the timeout, and any other as it is stored.
  pub apply-promise_get :
      (now : ℤ) (req : J.Value) (id : String) (s : ServerState J.Value)
      → get_str J req "kind" ≡ some "promise.get"
      → require_str J req "id" ≡ ok id
      → (apply J now req s).0
        ≡ answer (get_or_null J req "corrId") id (Option.map (seen now) (get id s.promises))
  unfolding apply auto_timeouts dispatch
  apply-promise_get now req id s k e =
      rw (k, apply, require_str-get J req "id" id e)
        (promise_get-answer (get_or_null J req "corrId") req id
            (try_auto_timeout now id (record s { outgoing = [] })) e
          ∙ ap (answer (get_or_null J req "corrId") id)
              (try_auto_timeout-record now id (record s { outgoing = [] })))
