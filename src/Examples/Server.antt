-- ===== src/Examples/Server.antt =====
-- What the theorems of the server say of the snapshot.
use mathlib.Core.Option
use resonate_sdk_rs.Prelude.{
  ℕ, String, ◌≡◌, ◌≢◌, refl, ◌==◌, eq_iff, false, List, [], ◌∷◌, none, some, arith,
}
use resonate_sdk_rs.Prelude.Map.{get}
use resonate_sdk_rs.Prelude.Set.{contains}
use resonate_sdk_rs.Prelude.I64.{pos}
use resonate_sdk_rs.Types.{PromiseState, suspended, is_pending}
use resonate_sdk_rs.Server.{PromiseRecord, ServerState, new}
use resonate_sdk_rs.Server.Settle.{settle_effects, try_auto_timeout}
use resonate_sdk_rs.Server.Handler.{promise, respond}
use resonate_sdk_rs.Server.Request.{require_str, extract_action_data, get_or_null}
use resonate_sdk_rs.Server.Promises.{settle_pending, settle_at, promise_settle}
use resonate_sdk_rs.Server.Tasks.Fence.{flat_action}
use resonate_sdk_rs.Server.Tasks.Suspend.{
  callbacks, suspend_at, suspend_leased, suspend_reply, register_all, register,
}
use resonate_sdk_rs.Server.Tick.{tick}
use resonate_sdk_rs.Server.Apply.{apply}
use resonate_sdk_rs.Server.Step.{Steps}
use resonate_sdk_rs.Server.Step.Promises.{timeout_state-settled}
use resonate_sdk_rs.Server.Step.Apply.{apply-Steps}
use resonate_sdk_rs.Server.Step.Tick.{tick-Steps}
use resonate_sdk_rs.Server.Expiry.{aged, seen, answer, apply-promise_get}
use resonate_sdk_rs.Server.Idempotence.{promise_create-again, promise_settle-again}
use resonate_sdk_rs.Server.Wakeup.{AwakeAt, settle_pending_wakes}
use resonate_sdk_rs.Server.Wakeup.Suspension.{suspend-settle_wakes}
use resonate_sdk_rs.Network.{unwrap_request_envelope}
use resonate_sdk_rs.Server.Durable.{IsKept}
use resonate_sdk_rs.Server.Lifecycle.{IsLaterTask}
use resonate_sdk_rs.Server.Lifecycle.Kept.{HasPromises}
use resonate_sdk_rs.Server.Deadlines.{Settled, IsScheduled}
use resonate_sdk_rs.Network.History.{
  Event, request, ticks, run, run-IsKept, run-HasPromises, run-IsLaterTask, run-IsScheduled,
}
use resonate_sdk_rs.Examples.Values.{
  Value, null, text, num, arr, obj, nil, item, end, field, values,
}
use resonate_sdk_rs.Examples.Histories.{create_task, suspend_task, settle_promise}
use resonate_sdk_rs.Examples.Snapshot.{workflow, child, leased, snapshot, snapshot-HasPromises}

-- Requests without an envelope.
abbrev about : String → String → Value
about kind id =
    obj (field "kind" (text kind) (field "corrId" (text "c1") (field "id" (text id) end)))

abbrev fenced : Value
fenced = obj (field "id" (text "wf") (field "version" (num (pos 0)) end))

abbrev suspension : Value
suspension = obj (
    field "id" (text "wf")
      (field "actions" (arr (item (obj (field "awaited" (text "wf:1") end)) nil)) end))

differ : (a b : String) → (a == b) ≡ false → a ≢ b
differ a b h e = absurd (ground (arith, eq_iff a b))

abbrev later : List (Event Value)
later =
    request (pos 1002) suspend_task ∷ request (pos 1003) settle_promise ∷ ticks (pos 900001) ∷ []

run-IsKept_example : IsKept child (get "wf:1" (run values later snapshot).promises)
unfolding get
run-IsKept_example = run-IsKept values later snapshot "wf:1" child refl

run-IsLaterTask_example : IsLaterTask 3 leased (get "wf" (run values later snapshot).tasks)
unfolding get
run-IsLaterTask_example =
    run-IsLaterTask values later snapshot "wf" leased snapshot-HasPromises refl

run-HasPromises_example : HasPromises (run values (request (pos 1000) create_task ∷ later) new)
run-HasPromises_example = run-HasPromises values (request (pos 1000) create_task ∷ later)

run-IsScheduled_example : IsScheduled (run values (request (pos 1000) create_task ∷ later) new)
unfolding unwrap_request_envelope extract_action_data flat_action
run-IsScheduled_example = run-IsScheduled values (request (pos 1000) create_task ∷ later) (
  record { settle = refl; fulfill = refl; fence = refl; lease = tt },
  (
    record { settle = refl; fulfill = refl; fence = refl; lease = tt },
    (record { settle = refl; fulfill = refl; fence = refl; lease = tt }, tt),
  ),
)

suspend-settle_wakes_example :
    AwakeAt "wf" "wf:1"
      (pos 0)
      (settle_at values
        (pos 1003)
        (text "c2")
        (about "promise.settle" "wf:1")
        "wf:1"
        (suspend_at values (text "c1") suspension "wf" snapshot).1).1
unfolding get contains callbacks suspend_at suspend_leased suspend_reply register_all register
    extract_action_data
suspend-settle_wakes_example =
    suspend-settle_wakes values (pos 1003) (text "c1") suspension (text "c2")
      (about "promise.settle" "wf:1") "wf" "wf:1" snapshot leased child refl refl
      (differ "wf:1" "wf" refl) refl refl

-- The snapshot after the suspension.
abbrev waiting : ServerState Value
waiting = record snapshot {
  promises = ("wf", workflow) ∷ ("wf:1", record child { awaiters = "wf" ∷ [] }) ∷ [];
  tasks = ("wf", record leased { state = suspended; pid = none; ttl = none }) ∷ [];
  t_timeouts = [];
}

settle_pending_wakes_example : AwakeAt "wf" "wf:1" (pos 0) (
    settle_effects
      (pos 1003)
      "wf:1"
      (settle_pending (pos 1003) "wf:1" PromiseState.resolved (text "42") waiting))
unfolding get contains
settle_pending_wakes_example =
    settle_pending_wakes "wf" "wf:1" (pos 1003) PromiseState.resolved (text "42") waiting
      (record child { awaiters = "wf" ∷ [] })
      (record leased { state = suspended; pid = none; ttl = none }) (differ "wf:1" "wf" refl) refl
      refl refl refl

apply-Steps_example :
    Steps Settled snapshot (apply values (pos 1003) (about "promise.settle" "wf:1") snapshot).1
unfolding extract_action_data flat_action
apply-Steps_example =
    apply-Steps values Settled timeout_state-settled (pos 1003) (about "promise.settle" "wf:1")
      snapshot (record { settle = refl; fulfill = refl; fence = refl; lease = tt })

tick-Steps_example : Steps Settled snapshot (tick null (pos 900001) snapshot)
tick-Steps_example = tick-Steps Settled timeout_state-settled null (pos 900001) snapshot

apply-promise_get_example :
    (apply values (pos 500001) (about "promise.get" "wf:1") snapshot).0
    ≡ answer values
        (text "c1")
        "wf:1"
        (Option.map (seen (pos 500001)) (get "wf:1" snapshot.promises))
unfolding require_str
apply-promise_get_example =
    apply-promise_get values (pos 500001) (about "promise.get" "wf:1") "wf:1" snapshot refl refl

abbrev created_new : ServerState Value
created_new = (apply values (pos 1000) (about "promise.create" "new") snapshot).1

promise_create-again_example :
    (r : PromiseRecord Value) × (status : ℕ) × ((apply values
        (pos 1000)
        (about "promise.create" "new")
        snapshot).0
      ≡ respond "promise.create"
          (get_or_null values (about "promise.create" "new") "corrId")
          status
          (promise (some r)))
    × (apply values (pos 2000) (about "promise.create" "new") created_new ≡ (
      respond "promise.create"
          (get_or_null values (about "promise.create" "new") "corrId")
          200
          (promise (some (aged (pos 2000) r))),
      try_auto_timeout (pos 2000) "new" (record created_new { outgoing = [] }),
    ))
unfolding require_str
promise_create-again_example =
    promise_create-again values (pos 1000) (pos 2000) (about "promise.create" "new")
      (about "promise.create" "new") "new" snapshot refl refl refl refl

promise_settle-again_example :
    (r : PromiseRecord Value) × ((promise_settle values
        (pos 1003)
        (text "c1")
        (about "promise.settle" "wf:1")
        snapshot).0
      ≡ respond "promise.settle" (text "c1") 200 (promise (some r)))
    × (is_pending r.state ≡ false)
    × (promise_settle values
          (pos 2000)
          (text "c2")
          (about "promise.settle" "wf:1")
          (promise_settle values (pos 1003) (text "c1") (about "promise.settle" "wf:1") snapshot).1
        ≡ (
          respond "promise.settle" (text "c2") 200 (promise (some r)),
          (promise_settle values (pos 1003) (text "c1") (about "promise.settle" "wf:1") snapshot).1,
        ))
unfolding require_str get
promise_settle-again_example =
    promise_settle-again values (pos 1003) (pos 2000) (text "c1") (text "c2")
      (about "promise.settle" "wf:1") (about "promise.settle" "wf:1") "wf:1" snapshot child refl
      refl refl refl
