-- ===== src/Sender/Envelope.antt =====
-- resonate/src/send.rs: the envelope of a request, how it is sent, and how an answer is read.
use resonate_sdk_rs.Prelude.{
  ℕ, String, ◌%◌, Bool, not, ◌&&◌, List, [], Option, none, some, concat, unwrap_or, and_then,
  filter_map, if◌then◌else◌, eqb, leb,
}
use resonate_sdk_rs.Prelude.Decimal.{to_string, show_i64}
use resonate_sdk_rs.Prelude.I64.{ℤ}
use resonate_sdk_rs.Error.{
  Result, ok, err, Serde, converted, fails, from_serde, server_error, decoding_error,
}
use resonate_sdk_rs.Json.{Json, get_str}
use resonate_sdk_rs.Server.{PromiseRecord, Tags}
use resonate_sdk_rs.Effects.{Value, PromiseCreateReq, PromiseSettleReq}
use resonate_sdk_rs.Heartbeat.{TaskRef}
use resonate_sdk_rs.Transport.{Network, send}
use resonate_sdk_rs.Sender.{
  TaskRecord, TaskAcquireResult, SuspendResult, suspends, redirect, PromiseRegisterCallbackData,
}

pub record ScheduleRecord (V : Type 0) : Type 0 where
  pub id : String
  pub cron : String
  pub promise_id : String
  pub promise_timeout : ℤ
  pub promise_param : Value V
  pub promise_tags : Tags
  pub created_at : ℤ
  pub next_run_at : ℤ
  pub last_run_at : Option ℤ

pub record ScheduleCreateReq (V : Type 0) : Type 0 where
  pub id : String
  pub cron : String
  pub promise_id : String
  pub promise_timeout : ℤ
  pub promise_param : Value V
  pub promise_tags : Tags

pub record Head : Type 0 where
  pub corr_id : String
  pub version : String
  pub auth : Option String

pub record SubEnvelope (D : Type 0) : Type 0 where
  pub kind : String
  pub head : Head
  pub content : D

-- The bodies of the requests: the `Data` of each method.
pub data Payload (V : Type 0) : Type 0 where
  acquire : String → ℤ → String → ℤ → Payload V
  fulfill : String → ℤ → SubEnvelope (PromiseSettleReq V) → Payload V
  suspend : String → ℤ → List (SubEnvelope PromiseRegisterCallbackData) → Payload V
  release : String → ℤ → Payload V
  by_id : String → Payload V
  create : String → ℤ → SubEnvelope (PromiseCreateReq V) → Payload V
  fence : String → ℤ → SubEnvelope V → Payload V
  heartbeat : String → List TaskRef → Payload V
  search : Option String → Option Tags → Option ℕ → Option String → Payload V
  promise_to_create : PromiseCreateReq V → Payload V
  promise_to_settle : PromiseSettleReq V → Payload V
  callback : String → String → Payload V
  listener : String → String → Payload V
  schedule_to_create : ScheduleCreateReq V → Payload V

pub record Envelope (V : Type 0) : Type 0 where
  pub kind : String
  pub head : Head
  pub content : Payload V

-- A sender: the network, serde_json's derived printers and parsers, the clock, and the token.
pub record Sender (J : Json) (W : Type 0) : Type 0 where
  pub network : Network J W
  pub print : Envelope J.Value → Serde String
  pub create_to_value : PromiseCreateReq J.Value → Serde J.Value
  pub settle_to_value : PromiseSettleReq J.Value → Serde J.Value
  pub promise_of : J.Value → Serde (PromiseRecord (Value J.Value))
  pub task_of : J.Value → Serde (TaskRecord J.Value)
  pub schedule_of : J.Value → Serde (ScheduleRecord J.Value)
  pub now_ms : W → ℤ
  pub auth : Option String

-- `PROTOCOL_VERSION`
abbrev pub protocol_version : String
protocol_version = "2026-04-01"

module _ (J : Json) where
  -- `head.status` of a response, as a u16.
  unfoldable pub status_of : J.Value → ℕ
  status_of response =
      unwrap_or (and_then (J.get response "head") (λ h. and_then (J.get h "status") J.as_u64)) 200
      % 65536

  -- `data` of a response, `{}` where it has none.
  unfoldable pub data_of : J.Value → J.Value
  data_of response = unwrap_or (J.get response "data") (J.object J.empty)

  unfoldable pub error_message : ℕ → J.Value → String
  error_message status v = elim (J.as_str v) [
    | some s ↦ s
    | none ↦
        unwrap_or (get_str J v "error")
          (concat "server error (status " (concat (to_string status) ")"))
  ]

  -- The end of `send_envelope`, on the response.
  unfoldable pub accept : Bool → J.Value → Result (ℕ × J.Value)
  accept allow_409 response =
      let status = status_of response in
      let content = data_of response in
      if leb 400 status && not (allow_409 && eqb status 409)
      then err (server_error status (error_message status content))
      else ok (status, content)

  unfoldable pub parse_record : {A : Type 0} → (J.Value → Serde A) → J.Value → String → Result A
  parse_record of json key = elim (J.get json key) [
    | none ↦ err (decoding_error (concat "missing '" (concat key "' in response")))
    | some v ↦ elim (of v) [
      | converted a ↦ ok a
      | fails e ↦ err (decoding_error (concat "invalid " (concat key (concat " record: " e))))
    ]
  ]

  abbrev parsed : {A : Type 0} → Serde A → Option A
  parsed (converted a) = some a
  parsed (fails e) = none

  unfoldable pub parse_records : {A : Type 0} → (J.Value → Serde A) → J.Value → String → List A
  parse_records of json key = elim (and_then (J.get json key) J.as_array) [
    | none ↦ []
    | some arr ↦ filter_map (λ v. parsed (of v)) arr
  ]

  unfoldable pub parse_cursor : J.Value → Option String
  parse_cursor json = get_str J json "cursor"

module _ {J : Json} {W : Type 0} (S : Sender J W) where
  unfoldable pub make_head : W → Head
  make_head w = record {
    corr_id = concat "sr-" (show_i64 (S.now_ms w));
    version = protocol_version;
    auth = S.auth;
  }

  unfoldable pub send_envelope : String → Payload J.Value → Bool → W → Result (ℕ × J.Value) × W
  unfolding make_head
  send_envelope kind payload allow_409 w =
      let head = make_head w in
      elim (from_serde (S.print (record { kind = kind; head = head; content = payload }))) [
        | err e ↦ (err e, w)
        | ok body ↦
            let r = send S.network kind head.corr_id body w in
            elim r.0 [ err e ↦ (err e, r.1) | ok response ↦ (accept J allow_409 response, r.1) ]
      ]

  unfoldable pub parse_promise : J.Value → Result (PromiseRecord (Value J.Value))
  parse_promise json = parse_record J S.promise_of json "promise"

  unfoldable pub parse_task_acquire : J.Value → Result (TaskAcquireResult J.Value)
  parse_task_acquire json = elim (parse_record J S.task_of json "task") [
    | err e ↦ err e
    | ok task ↦ elim (parse_promise json) [
      | err e ↦ err e
      | ok promise ↦ ok (record {
        task = task;
        promise = promise;
        preload = parse_records J S.promise_of json "preload";
      })
    ]
  ]

  unfoldable pub parse_suspend_result : ℕ → J.Value → Result (SuspendResult J.Value)
  parse_suspend_result status content =
      if eqb status 300
      then ok (redirect (parse_records J S.promise_of content "preload"))
      else ok suspends
