-- ===== src/Examples/Snapshot.antt =====
-- A state of the server in the middle of a workflow, the requests of its worker, and what the theorems
-- say of them.
use resonate_sdk_rs.Prelude.{eq_iff, [], ◌∷◌, none, some, arith}
use resonate_sdk_rs.Prelude.Map.{get}
use resonate_sdk_rs.Prelude.I64.{pos}
use resonate_sdk_rs.Types.{pending, acquired}
use resonate_sdk_rs.Server.{DurablePromise, Task, ServerState}
use resonate_sdk_rs.Server.Lifecycle.Kept.{HasPromises}
use resonate_sdk_rs.Examples.Values.{Value, null, text}

abbrev pub workflow : DurablePromise Value
workflow = record {
  id = "wf";
  state = pending;
  param = text "input";
  value = null;
  tags = ("resonate:target", "local://any@default") ∷ [];
  timeout_at = pos 900000;
  created_at = pos 1000;
  settled_at = none;
  awaiters = [];
  subscribers = [];
}

-- Its child awaits an outside event.
abbrev pub child : DurablePromise Value
child = record {
  id = "wf:1";
  state = pending;
  param = null;
  value = null;
  tags = [];
  timeout_at = pos 500000;
  created_at = pos 1001;
  settled_at = none;
  awaiters = [];
  subscribers = [];
}

abbrev pub leased : Task
leased = record {
  id = "wf";
  state = acquired;
  version = pos 0;
  pid = some "p1";
  ttl = some (pos 60000);
  resumes = [];
}

abbrev pub snapshot : ServerState Value
snapshot = record {
  promises = ("wf", workflow) ∷ ("wf:1", child) ∷ [];
  tasks = ("wf", leased) ∷ [];
  schedules = [];
  p_timeouts = record { id = "wf"; timeout = pos 900000 } ∷ [];
  t_timeouts = record { id = "wf"; typ = 1; timeout = pos 61000 } ∷ [];
  outgoing = [];
}

pub snapshot-HasPromises : HasPromises snapshot
unfolding get
snapshot-HasPromises = record {
  promise_of_task = λ k t e. (workflow, ground (arith, eq_iff "wf" k));
}
