-- ===== src/Examples/Leases.antt =====
-- A lease that is granted, expires and is granted again, and a listener that is told of a settlement.
use resonate_sdk_rs.Prelude.{ℕ, ◌<◌, String, concat, ◌≡◌, refl, eq_iff, [], ◌∷◌, none, some, arith}
use resonate_sdk_rs.Prelude.Map.{get, modify}
use resonate_sdk_rs.Prelude.Set.{contains}
use resonate_sdk_rs.Prelude.I64.{pos, add_i64, saturating_add}
use resonate_sdk_rs.Types.{pending, acquired}
use resonate_sdk_rs.Server.{Task, TaskRecord, PromiseRecord, ScheduleStub, ServerState}
use resonate_sdk_rs.Server.Timers.{
  set_t_timeout, del_t_timeout, send_execute_message, upsert_t, upsert_execute,
}
use resonate_sdk_rs.Server.Settle.{send_to_target, unblock_message}
use resonate_sdk_rs.Server.Handler.{promise, schedule, error, respond}
use resonate_sdk_rs.Server.Schedules.{
  has_target_tag, stub_of, create_schedule, schedule_at, schedule_create, schedule_get,
  schedule_delete,
}
use resonate_sdk_rs.Server.Schedules.RoundTrip.{schedule_create-get}
use resonate_sdk_rs.Server.Request.{require_str, extract_ttl}
use resonate_sdk_rs.Server.Promises.{settle_at}
use resonate_sdk_rs.Server.Tasks.Create.{lease}
use resonate_sdk_rs.Server.Tasks.Lease.{release_lease, acquire_at, task_acquire}
use resonate_sdk_rs.Server.Tick.{
  tick, promise_settles, task_releases, task_retries, release_expired, retry_pending,
}
use resonate_sdk_rs.Server.Lifecycle.Kept.{HasPromises}
use resonate_sdk_rs.Server.Notify.{IsSent, settle_at_notifies}
use resonate_sdk_rs.Network.{on_tick}
use resonate_sdk_rs.Network.History.{ticks, run}
use resonate_sdk_rs.Network.Exclusion.{task_acquire_excludes}
use resonate_sdk_rs.Examples.Values.{Value, text, obj, end, field, values}
use resonate_sdk_rs.Examples.Snapshot.{workflow, child, leased, snapshot}

-- The snapshot before the task was acquired.
abbrev idle : Task
idle = record leased { state = pending; pid = none; ttl = none }

abbrev dispatched : ServerState Value
dispatched = record snapshot {
  tasks = ("wf", idle) ∷ [];
  t_timeouts = record { id = "wf"; typ = 0; timeout = pos 31000 } ∷ [];
}

dispatched-HasPromises : HasPromises dispatched
unfolding get
dispatched-HasPromises = record {
  promise_of_task = λ k t e. (workflow, ground (arith, eq_iff "wf" k));
}

abbrev acquire_request : String → Value
acquire_request pid = obj (field "id" (text "wf") (field "pid" (text pid) end))

abbrev first_grant : TaskRecord
first_grant = record {
  id = "wf";
  state = acquired;
  version = pos 0;
  promise_id = "wf";
  pid = some "p1";
  ttl = some (pos 60000);
}

abbrev second_grant : TaskRecord
second_grant = record first_grant { version = pos 1; pid = some "p2" }

task_acquire_excludes_example : (v : ℕ) × (second_grant.version ≡ pos v) × (0 < v)
unfolding get run on_tick tick promise_settles task_releases task_retries release_expired
    retry_pending release_lease set_t_timeout del_t_timeout send_to_target send_execute_message
    upsert_t upsert_execute modify require_str add_i64 saturating_add extract_ttl acquire_at
    task_acquire lease
task_acquire_excludes_example =
    task_acquire_excludes values (ticks (pos 61001) ∷ []) (pos 1000) (pos 61002) (text "c1")
      (text "c2") (acquire_request "p1") (acquire_request "p2") "wf" dispatched first_grant
      second_grant 0 dispatched-HasPromises refl refl refl refl (omega arith) refl

abbrev watched : ServerState Value
watched = record snapshot {
  promises = ("wf", workflow) ∷ ("wf:1", record child { subscribers = "http://here" ∷ [] }) ∷ [];
}

settle_at_notifies_example :
    (r : PromiseRecord Value) × ((settle_at values
        (pos 1003)
        (text "c1")
        (obj end)
        "wf:1"
        watched).0
      ≡ respond "promise.settle" (text "c1") 200 (promise (some r)))
    × IsSent
        (unblock_message r "http://here")
        (settle_at values (pos 1003) (text "c1") (obj end) "wf:1" watched).1.outgoing
unfolding get contains
settle_at_notifies_example =
    settle_at_notifies values (pos 1003) (text "c1") (obj end) "wf:1" "http://here" watched
      (record child { subscribers = "http://here" ∷ [] }) refl refl refl

abbrev nightly : Value
nightly = obj (
    field "id" (text "nightly") (
      field "cron" (text "0 0 * * *") (
        field "promiseId" (text "nightly.{{.timestamp}}") (
          field "promiseTags" (obj (field "resonate:target" (text "local://any@default") end))
            end))))

abbrev nightly_stub : ScheduleStub Value
nightly_stub = stub_of values (pos 1000) "nightly" "0 0 * * *" "nightly.{{.timestamp}}" nightly

schedule_create-get_example :
    (schedule_get values
        (text "c2")
        nightly
        (schedule_create values (pos 1000) (text "c1") nightly snapshot).1
      ≡ (
        respond "schedule.get" (text "c2") 200 (schedule nightly_stub),
        (schedule_create values (pos 1000) (text "c1") nightly snapshot).1,
      ))
    × ((schedule_get values
          (text "c2")
          nightly
          (schedule_delete values
            (text "c2")
            nightly
            (schedule_create values (pos 1000) (text "c1") nightly snapshot).1).1).0
        ≡ respond "schedule.get"
            (text "c2")
            404
            (error (concat "schedule " (concat "nightly" " not found"))))
unfolding get require_str schedule_create schedule_at create_schedule has_target_tag
schedule_create-get_example =
    schedule_create-get values (pos 1000) (text "c1") (text "c2") nightly nightly "nightly" snapshot
      nightly_stub refl refl refl
