-- ===== src/Sender/Requests.antt =====
-- resonate/src/send.rs: the typed requests of `Sender`.
use resonate_sdk_rs.Prelude.{
  ℕ, String, Bool, true, false, List, map, Option, none, some, concat, unwrap_or, and_then,
  is_some_and, if◌then◌else◌, eqb,
}
use resonate_sdk_rs.Prelude.I64.{ℤ}
use resonate_sdk_rs.Error.{Result, ok, err, Serde, converted, fails, from_serde, decoding_error}
use resonate_sdk_rs.Json.{Json}
use resonate_sdk_rs.Server.{PromiseRecord, Tags}
use resonate_sdk_rs.Effects.{Value, PromiseCreateReq, PromiseSettleReq, FenceResult}
use resonate_sdk_rs.Heartbeat.{TaskRef}
use resonate_sdk_rs.Sender.{
  TaskRecord, TaskAcquireResult, SuspendResult, TaskCreateOutcome, created, conflict,
  PromiseRegisterCallbackData,
}
use resonate_sdk_rs.Sender.Envelope.{
  ScheduleRecord, ScheduleCreateReq, SubEnvelope, Payload, acquire, fulfill, suspend, release,
  by_id, create, fence, heartbeat, search, promise_to_create, promise_to_settle, callback, listener,
  schedule_to_create, Sender, parse_record, parse_records, parse_cursor, make_head, send_envelope,
  parse_promise, parse_task_acquire, parse_suspend_result,
}

-- `TaskSearchResult`, `PromiseSearchResult`, `ScheduleSearchResult`
pub record Page (A : Type 0) : Type 0 where
  pub items : List A
  pub cursor : Option String

-- What is made of an accepted answer: its status and its data.
abbrev pub reading : {V W A : Type 0} → (ℕ → V → Result A) → Result (ℕ × V) × W → Result A × W
reading read (err e, w) = (err e, w)
reading read (ok answer, w) = (read answer.0 answer.1, w)

module _ {J : Json} {W : Type 0} (S : Sender J W) where
  abbrev sub : {D : Type 0} → String → D → W → SubEnvelope D
  sub kind content w = record { kind = kind; head = make_head S w; content = content }

  abbrev ask : {A : Type 0} → String → Payload J.Value → (ℕ → J.Value → Result A) → W → Result A × W
  ask kind payload read w = reading read (send_envelope S kind payload false w)

  abbrev promise : ℕ → J.Value → Result (PromiseRecord (Value J.Value))
  promise status content = parse_promise S content

  abbrev unit : ℕ → J.Value → Result (Unit {0})
  unit status content = ok tt

  abbrev page : {A : Type 0} → (J.Value → Serde A) → String → ℕ → J.Value → Result (Page A)
  page of key status content =
      ok (record { items = parse_records J of content key; cursor = parse_cursor J content })

  unfoldable pub task_acquire : String → ℤ → String → ℤ → W → Result (TaskAcquireResult J.Value) × W
  task_acquire id version pid ttl =
      ask "task.acquire" (acquire id version pid ttl) (λ status. parse_task_acquire S)

  unfoldable pub task_fulfill :
      String → ℤ → PromiseSettleReq J.Value → W → Result (PromiseRecord (Value J.Value)) × W
  task_fulfill id version action w =
      ask "task.fulfill" (fulfill id version (sub "promise.settle" action w)) promise w

  unfoldable pub task_suspend :
      String → ℤ → List PromiseRegisterCallbackData → W → Result (SuspendResult J.Value) × W
  task_suspend id version actions w =
      ask "task.suspend"
        (suspend id version (map (λ a. sub "promise.register_callback" a w) actions))
        (parse_suspend_result S) w

  unfoldable pub task_release : String → ℤ → W → Result (Unit {0}) × W
  task_release id version = ask "task.release" (release id version) unit

  unfoldable pub task_get : String → W → Result (TaskRecord J.Value) × W
  task_get id =
      ask "task.get" (by_id id) (λ status content. parse_record J S.task_of content "task")

  unfoldable pub send_task_create :
      String → ℤ → PromiseCreateReq J.Value → Bool → W → Result (ℕ × J.Value) × W
  send_task_create pid ttl action allow_409 w =
      send_envelope S "task.create" (create pid ttl (sub "promise.create" action w)) allow_409 w

  unfoldable pub task_create :
      String → ℤ → PromiseCreateReq J.Value → W → Result (TaskAcquireResult J.Value) × W
  task_create pid ttl action w =
      reading (λ status. parse_task_acquire S) (send_task_create pid ttl action false w)

  abbrev pub outcome : ℕ → J.Value → Result (TaskCreateOutcome J.Value)
  outcome status content =
      if eqb status 409
      then ok conflict
      else elim (parse_task_acquire S content) [ err e ↦ err e | ok result ↦ ok (created result) ]

  unfoldable pub task_create_or_conflict :
      String → ℤ → PromiseCreateReq J.Value → W → Result (TaskCreateOutcome J.Value) × W
  task_create_or_conflict pid ttl action w =
      reading outcome (send_task_create pid ttl action true w)

  unfoldable pub task_halt : String → W → Result (Unit {0}) × W
  task_halt id = ask "task.halt" (by_id id) unit

  unfoldable pub task_continue : String → W → Result (Unit {0}) × W
  task_continue id = ask "task.continue" (by_id id) unit

  unfoldable pub sub_kind : J.Value → String
  sub_kind action =
      if is_some_and (J.get action "state") (λ v. true) then "promise.settle" else "promise.create"

  unfoldable pub parse_fence : J.Value → Result (FenceResult J.Value)
  parse_fence content =
      let action_resp = unwrap_or (J.get content "action") (J.object J.empty) in
      elim (and_then (J.get action_resp "data") (λ d. J.get d "promise")) [
        | none ↦ err (decoding_error "missing promise in fence action response")
        | some v ↦ elim (S.promise_of v) [
          | fails e ↦ err (decoding_error (concat "invalid promise in fence response: " e))
          | converted p ↦
              ok (record { promise = p; preload = parse_records J S.promise_of content "preload" })
        ]
      ]

  unfoldable pub task_fence : String → ℤ → J.Value → W → Result (FenceResult J.Value) × W
  task_fence id version action w =
      ask "task.fence" (fence id version (sub (sub_kind action) action w)) (λ status. parse_fence) w

  unfoldable pub task_fence_create :
      String → ℤ → PromiseCreateReq J.Value → W → Result (FenceResult J.Value) × W
  task_fence_create id version req w = elim (from_serde (S.create_to_value req)) [
    | err e ↦ (err e, w)
    | ok action ↦ task_fence id version action w
  ]

  unfoldable pub task_fence_settle :
      String → ℤ → PromiseSettleReq J.Value → W → Result (FenceResult J.Value) × W
  task_fence_settle id version req w = elim (from_serde (S.settle_to_value req)) [
    | err e ↦ (err e, w)
    | ok action ↦ task_fence id version action w
  ]

  unfoldable pub task_heartbeat : String → List TaskRef → W → Result (Unit {0}) × W
  task_heartbeat pid tasks = ask "task.heartbeat" (heartbeat pid tasks) unit

  unfoldable pub task_search :
      Option String → Option ℕ → Option String → W → Result (Page (TaskRecord J.Value)) × W
  task_search state limit cursor =
      ask "task.search" (search state none limit cursor) (page S.task_of "tasks")

  unfoldable pub promise_get : String → W → Result (PromiseRecord (Value J.Value)) × W
  promise_get id = ask "promise.get" (by_id id) promise

  unfoldable pub promise_create :
      PromiseCreateReq J.Value → W → Result (PromiseRecord (Value J.Value)) × W
  promise_create req = ask "promise.create" (promise_to_create req) promise

  unfoldable pub promise_settle :
      PromiseSettleReq J.Value → W → Result (PromiseRecord (Value J.Value)) × W
  promise_settle req = ask "promise.settle" (promise_to_settle req) promise

  unfoldable pub promise_register_callback :
      String → String → W → Result (PromiseRecord (Value J.Value)) × W
  promise_register_callback awaited awaiter =
      ask "promise.register_callback" (callback awaited awaiter) promise

  unfoldable pub promise_register_listener :
      String → String → W → Result (PromiseRecord (Value J.Value)) × W
  promise_register_listener awaited address =
      ask "promise.register_listener" (listener awaited address) promise

  unfoldable pub promise_search :
      Option String
      → Option Tags
      → Option ℕ
      → Option String
      → W
      → Result (Page (PromiseRecord (Value J.Value))) × W
  promise_search state tags limit cursor =
      ask "promise.search" (search state tags limit cursor) (page S.promise_of "promises")

  unfoldable pub schedule_get : String → W → Result (ScheduleRecord J.Value) × W
  schedule_get id =
      ask "schedule.get" (by_id id)
        (λ status content. parse_record J S.schedule_of content "schedule")

  unfoldable pub schedule_create :
      ScheduleCreateReq J.Value → W → Result (ScheduleRecord J.Value) × W
  schedule_create req =
      ask "schedule.create" (schedule_to_create req)
        (λ status content. parse_record J S.schedule_of content "schedule")

  unfoldable pub schedule_delete : String → W → Result (Unit {0}) × W
  schedule_delete id = ask "schedule.delete" (by_id id) unit

  unfoldable pub schedule_search :
      Option Tags → Option ℕ → Option String → W → Result (Page (ScheduleRecord J.Value)) × W
  schedule_search tags limit cursor =
      ask "schedule.search" (search none tags limit cursor) (page S.schedule_of "schedules")
