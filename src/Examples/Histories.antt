-- ===== src/Examples/Histories.antt =====
-- A workflow in local mode: a task is created and suspended on a promise, the promise settles, and the
-- task is dispatched again.
use resonate_sdk_rs.Prelude.{ℕ, String, List, [], ◌∷◌, Option}
use mathlib.Core.Option
use resonate_sdk_rs.Prelude.I64.{pos}
use resonate_sdk_rs.Prelude.Map.{get}
use resonate_sdk_rs.Types.{TaskState}
use resonate_sdk_rs.Server.{new}
use resonate_sdk_rs.Network.History.{Event, request, run}
use resonate_sdk_rs.Examples.Values.{Value, text, num, arr, obj, nil, item, end, field, values}

abbrev envelope : String → Value → Value
envelope kind body = obj (
    field "kind" (text kind)
      (field "head" (obj (field "corrId" (text "c1") end)) (field "data" body end)))

-- A promise with a target.
abbrev targeted : String → ℕ → Value
targeted id timeout_at = obj (
    field "id" (text id) (
      field "timeoutAt" (num (pos timeout_at))
        (field "tags" (obj (field "resonate:target" (text "local://any@default") end)) end)))

abbrev pub create_task : Value
create_task = envelope "task.create" (
    obj (
      field "pid" (text "p1")
        (field "ttl" (num (pos 60000)) (field "action" (targeted "wf" 900000) end))))

abbrev pub create_promise : Value
create_promise = envelope "promise.create" (targeted "wf:1" 500000)

abbrev pub suspend_task : Value
suspend_task = envelope "task.suspend" (
    obj (
      field "id" (text "wf") (
        field "actions"
          (arr (item (obj (field "awaited" (text "wf:1") (field "awaiter" (text "wf") end))) nil))
          end)))

abbrev pub settle_promise : Value
settle_promise = envelope "promise.settle" (
    obj
      (field "id" (text "wf:1") (field "state" (text "resolved") (field "value" (text "42") end))))

abbrev suspended_at : List (Event Value)
suspended_at =
    request (pos 1000) create_task
    ∷ request (pos 1001) create_promise
    ∷ request (pos 1002) suspend_task
    ∷ []

task_state : Option TaskState
task_state = Option.map (λ t. t.state) (get "wf" (run values suspended_at new).tasks)
