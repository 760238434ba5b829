-- ===== src/Examples/Worker.antt =====
-- What the theorems of the worker's side say of a small world: payloads are texts, and the world counts
-- what it still redirects and keeps a journal.
use resonate_sdk_rs.Prelude.{
  ◌⊎◌, ℕ, zero, suc, String, ◌≡◌, ◌≢◌, refl, ap, subst, List, [], ◌∷◌, none, some, arith, unwrap_or,
}
use resonate_sdk_rs.Prelude.Map.{get}
use resonate_sdk_rs.Prelude.I64.{pos, ◌≤ℤ◌}
use resonate_sdk_rs.Error.{Result, ok, err, suspended, application, converted}
use resonate_sdk_rs.Types.{pending, resolved, acquired}
use resonate_sdk_rs.Ids.{origin_of, before}
use resonate_sdk_rs.Info.{Info}
use resonate_sdk_rs.Server.{PromiseRecord}
use resonate_sdk_rs.Effects.{Value, PromiseCreateReq, Codec, Sender}
use resonate_sdk_rs.Context.{
  Context, root, next_id, child_timeout, min_ℤ, take_remote_todos, check_serialization_error,
}
use resonate_sdk_rs.Context.Requests.{Tools, from_serializable, into_value, rpc, remote_create_req}
use resonate_sdk_rs.Context.Bounds.{child_timeout-bounds}
use resonate_sdk_rs.Context.Naming.{after, next_id-distinct}
use resonate_sdk_rs.Workflow.{
  Backend, Finish, returned, rpc_task, sleep_task, build, slot_create, as_result, block_on_remote,
  collect_remote_todos, push_todos, flush_local_work, join_all,
}
use resonate_sdk_rs.Workflow.Run.{Func, LocalCall, execute}
use resonate_sdk_rs.Workflow.Program.{
  awaits, spawns, Program, ret, remote, run_workflow, remote_op, exec,
}
use resonate_sdk_rs.Workflow.Replay.{Shell}
use resonate_sdk_rs.Workflow.Lineage.{recorded, AllIn}
use resonate_sdk_rs.Workflow.Lineage.Programs.{exec-InLineage}
use resonate_sdk_rs.Workflow.Suspension.Operations.{Honors}
use resonate_sdk_rs.Workflow.Suspension.Programs.{exec-waits}
use resonate_sdk_rs.Sender.{TaskAcquireResult, SuspendResult, suspends, redirect}
use resonate_sdk_rs.Core.{
  done, Core, fulfill_task, suspend_task, run_once, finish, execute_loop,
  execute_until_blocked_inner, execute_until_blocked, on_message,
}
use resonate_sdk_rs.Core.Protocol.{
  Event, starts_heartbeat, stops_heartbeat, acquires, fulfills, suspends_on, releases, Journal,
  Lives, some_inj, execute_until_blocked-Lives,
}
use resonate_sdk_rs.Core.Termination.{Returns, Exhausts, execute_until_blocked-Returns}
use resonate_sdk_rs.Core.Messages.{Receives, on_message-Receives}

abbrev pub tools : Tools String
tools = record {
  null = "";
  task_data = λ func args. args;
  deserialize = λ v. converted v;
  message = λ v. none;
  print = λ v. v;
  target_resolver = λ target. unwrap_or target "default";
  display = λ e. "error";
  finish = λ id. 255;
}

abbrev text : String → Value String
text s = record { headers = none; «data» = some s }

abbrev fresh : PromiseCreateReq String → PromiseRecord (Value String)
fresh req = record {
  id = req.id;
  state = pending;
  param = req.param;
  value = text "";
  tags = req.tags;
  timeout_at = req.timeout_at;
  created_at = pos 1;
  settled_at = none;
}

-- A backend that creates every promise as pending, and counts.
abbrev pub counting : Backend ℕ String
counting = record {
  now_ms = λ n. pos 5;
  create_promise = λ req n. (ok (fresh req), suc n);
  settle_promise = λ id result n. (err (application id), suc n);
}

-- A remote call, then a workflow that sleeps, inline; it hands the last result on.
abbrev nested : Program String
nested = remote awaits (rpc_task "pay" (converted "1") none none) (λ r.
    run_workflow spawns (record { name = "nap"; args = converted ""; timeout = some 7 })
      (λ info. remote awaits (sleep_task 3) (λ q. ret q)) (λ q. ret q))

exec-InLineage_example :
    AllIn "wf"
      (exec tools
        (recorded counting)
        nested
        (root "wf" "wf" (pos 100) "main")
        (record { state = 0; log = [] })).2.log
unfolding origin_of before
exec-InLineage_example = exec-InLineage tools counting "wf" "wf" (pos 100) "main" nested 0 refl

counting-Honors : Honors counting
counting-Honors = record { create_law = λ req n. refl; settle_law = λ id result n. refl }

abbrev awaiting : Program String
awaiting = remote awaits (rpc_task "pay" (converted "1") none none) (λ r. ret r)

exec-waits_example :
    ((collect_remote_todos (exec tools counting awaiting (root "wf" "wf" (pos 100) "main") 0).1).0
      ≢ ok [])
    × ((collect_remote_todos (exec tools counting awaiting (root "wf" "wf" (pos 100) "main") 0).1).0
        ≢ err suspended)
unfolding exec remote_op next_id build rpc remote_create_req into_value from_serializable
    check_serialization_error block_on_remote slot_create as_result
exec-waits_example =
    exec-waits tools counting awaiting "wf" "wf" (pos 100) "main" 0 counting-Honors (λ r e. e) refl

abbrev ctx : Context
ctx = root "wf" "wf" (pos 100) "main"

child_timeout-bounds_example :
    (child_timeout (pos 5) (some 10) ctx ≤ℤ pos 100)
    × (child_timeout (pos 5) (some 10) ctx ≤ℤ pos 15)
    × (min_ℤ (pos 5) (pos 100) ≤ℤ child_timeout (pos 5) (some 10) ctx)
child_timeout-bounds_example = child_timeout-bounds 5 10 ctx (omega arith) (omega arith)

next_id-distinct_example : (next_id (after 1 ctx)).0 ≢ (next_id (after 12 ctx)).0
next_id-distinct_example = next_id-distinct 1 12 ctx (omega arith) (omega arith)

-- The cache knows the promise of the first child.
abbrev known : PromiseRecord (Value String)
known = record {
  id = "wf:0";
  state = resolved;
  param = text "";
  value = text "42";
  tags = [];
  timeout_at = pos 10;
  created_at = pos 1;
  settled_at = some (pos 5);
}

abbrev plain : Codec String
plain = record {
  null = "";
  to_value = λ v. converted v;
  encode = λ v. ok (text v);
  decode_promise = λ p. ok p;
  encode_error = λ e. "error";
}

abbrev unreachable : Sender ℕ String
unreachable = record {
  task_fence_create = λ id version req n. (err suspended, suc n);
  task_fence_settle = λ id version req n. (err suspended, suc n);
}

abbrev shell : Shell ℕ String
shell = record {
  world = 0;
  effects = record { task_id = "wf"; task_version = pos 0; cache = ("wf:0", known) ∷ [] };
}

abbrev job : LocalCall String
job = record { name = "job"; args = converted "1"; timeout = none }

-- A server that redirects as often as is left, and keeps a journal.
record World : Type 0 where
  left : ℕ
  journal : List (Event String)

abbrev noted : Event String → World → World
noted e w = record w { journal = e ∷ w.journal }

abbrev answer_suspend :
    ℕ
    → (Result (SuspendResult String) → Event String)
    → World
    → Result (SuspendResult String) × World
answer_suspend zero event w = (ok suspends, noted (event (ok suspends)) w)
answer_suspend (suc n) event w =
    (ok (redirect []), noted (event (ok (redirect []))) (record w { left = n }))

-- The function waits for a child while redirects are left.
abbrev finish_at : ℕ → Finish String
finish_at zero = returned (ok "42")
finish_at (suc n) = returned (err suspended)

abbrev context_at : ℕ → Context → Context
context_at zero c = c
context_at (suc n) c = push_todos ("wf:0" ∷ []) c

abbrev main : String → Func (Shell World String) String
main args = Func.workflow (λ c s. (finish_at s.world.left, context_at s.world.left c, s))

abbrev wf : PromiseRecord (Value String)
wf = record {
  id = "wf";
  state = pending;
  param = text "1";
  value = text "";
  tags = [];
  timeout_at = pos 100;
  created_at = pos 1;
  settled_at = none;
}

abbrev granted : TaskAcquireResult String
granted = record {
  task = record {
    id = "wf";
    state = acquired;
    version = pos 3;
    resumes = "";
    ttl = none;
    pid = none;
  };
  promise = wf;
  preload = [];
}

abbrev worker : Core World String
worker = record {
  task_acquire = λ id version pid ttl w. (ok granted, noted (acquires id version (ok granted)) w);
  task_fulfill = λ id version req w. (ok wf, noted (fulfills id version req (ok wf)) w);
  task_suspend = λ id version actions w. answer_suspend w.left (suspends_on id version actions) w;
  task_release = λ id version w. (ok tt, noted (releases id version) w);
  heartbeat_start = λ id version w. noted (starts_heartbeat id version) w;
  heartbeat_stop = λ id w. noted (stops_heartbeat id) w;
  codec = plain;
  lookup = λ name. some main;
  deserialize = λ v. converted (record { func = "main"; args = v });
  pid = "p";
  ttl = pos 60;
}

answer_suspend-journal :
    (n : ℕ) (event : Result (SuspendResult String) → Event String) (w : World)
    → (answer_suspend n event w).1.journal ≡ event (answer_suspend n event w).0 ∷ w.journal
answer_suspend-journal zero event w = refl
answer_suspend-journal (suc n) event w = refl

main-world :
    (func : String → Func (Shell World String) String) (args : String) (i : Info) (c : Context)
    (s : Shell World String)
    → some main ≡ some func
    → (execute (func args) i c s).2.world ≡ s.world
unfolding execute
main-world func args i c s e =
    subst (λ f. (execute (f args) i c s).2.world ≡ s.world) (some_inj e) refl

worker_journal : Journal worker
worker_journal = record {
  history = λ w. w.journal;
  acquire_law = λ id version pid ttl w. refl;
  fulfill_law = λ id version req w. refl;
  suspend_law =
      λ id version actions w. answer_suspend-journal w.left (suspends_on id version actions) w;
  release_law = λ id version w. refl;
  start_law = λ id version w. refl;
  stop_law = λ id w. refl;
  function_law = λ name func args i c s e. ap (λ w. w.journal) (main-world func args i c s e);
}

abbrev idle : World
idle = record { left = 1; journal = [] }

execute_until_blocked-Returns_example :
    Returns (execute_until_blocked worker 2 "wf" (pos 3) wf none idle)
    ⊎ Exhausts worker "wf" (pos 3) wf 2 none idle
execute_until_blocked-Returns_example =
    execute_until_blocked-Returns worker "wf" (pos 3) wf 2 none idle

execute_until_blocked-Lives_example :
    Lives "wf"
      (pos 3)
      wf
      []
      (ok done)
      (worker_journal.history (execute_until_blocked worker 2 "wf" (pos 3) wf none idle).1)
unfolding execute_until_blocked execute_until_blocked_inner execute_loop run_once execute
    collect_remote_todos flush_local_work join_all take_remote_todos suspend_task finish
    fulfill_task get worker_journal
execute_until_blocked-Lives_example =
    execute_until_blocked-Lives worker worker_journal "wf" (pos 3) wf 2 none idle (ok done) refl

on_message-Receives_example :
    Receives worker "wf"
      (pos 2)
      []
      (ok done)
      (worker_journal.history (on_message worker 2 "wf" (pos 2) idle).1)
unfolding on_message execute_until_blocked execute_until_blocked_inner execute_loop run_once execute
    collect_remote_todos flush_local_work join_all take_remote_todos suspend_task finish
    fulfill_task get worker_journal
on_message-Receives_example =
    on_message-Receives worker worker_journal "wf" (pos 2) 2 idle (ok done) refl
