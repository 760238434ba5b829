-- ===== src/Server.antt =====
-- resonate/src/network.rs: the state of the in-memory server behind `LocalNetwork`. A payload
-- (`serde_json::Value`) is of a type `V`; a JSON record that the server builds is a record here.
pub mod Timers
pub mod Settle
pub mod Handler
pub mod Request
pub mod Promises
pub mod Tasks
pub mod Schedules
pub mod Tick
pub mod Apply
pub mod Step
pub mod Durable
pub mod Lifecycle
pub mod Deadlines
pub mod Records
pub mod Idempotence
pub mod Expiry
pub mod Wakeup
pub mod Notify
use resonate_sdk_rs.Prelude.{ℕ, String, ◌≡◌, Bool, List, [], ◌∷◌, Option, none, some}
use resonate_sdk_rs.Prelude.Map.{HashMap}
use resonate_sdk_rs.Prelude.Set.{HashSet}
use resonate_sdk_rs.Prelude.I64.{ℤ, pos}
use resonate_sdk_rs.Types.{PromiseState, TaskState}

-- The field `tags` of a promise.
abbrev pub Tags : Type 0
Tags = HashMap String

pub record DurablePromise (V : Type 0) : Type 0 where
  pub id : String
  pub state : PromiseState
  pub param : V
  pub value : V
  pub tags : Tags
  pub timeout_at : ℤ
  pub created_at : ℤ
  pub settled_at : Option ℤ
  pub awaiters : HashSet
  pub subscribers : HashSet

-- What `DurablePromise::to_record` writes.
pub record PromiseRecord (V : Type 0) : Type 0 where
  pub id : String
  pub state : PromiseState
  pub param : V
  pub value : V
  pub tags : Tags
  pub timeout_at : ℤ
  pub created_at : ℤ
  pub settled_at : Option ℤ

pub record Task : Type 0 where
  pub id : String
  pub state : TaskState
  pub version : ℤ
  pub pid : Option String
  pub ttl : Option ℤ
  pub resumes : HashSet

-- What `Task::to_record` writes.
pub record TaskRecord : Type 0 where
  pub id : String
  pub state : TaskState
  pub version : ℤ
  pub promise_id : String
  pub pid : Option String
  pub ttl : Option ℤ

pub record PTimeout : Type 0 where
  pub id : String
  pub timeout : ℤ

pub record TTimeout : Type 0 where
  pub id : String
  pub typ : ℕ
  pub timeout : ℤ

-- The two kinds of message that the server sends.
pub data Message (V : Type 0) : Type 0 where
  execute : String → ℤ → Message V
  unblock : PromiseRecord V → Message V

pub record OutgoingMessage (V : Type 0) : Type 0 where
  pub address : String
  pub message : Message V

pub record ScheduleStub (V : Type 0) : Type 0 where
  pub id : String
  pub cron : String
  pub promise_id : String
  pub promise_timeout : ℤ
  pub promise_param : V
  pub promise_tags : V
  pub created_at : ℤ

pub record ServerState (V : Type 0) : Type 0 where
  pub promises : HashMap (DurablePromise V)
  pub tasks : HashMap Task
  pub schedules : HashMap (ScheduleStub V)
  pub p_timeouts : List PTimeout
  pub t_timeouts : List TTimeout
  pub outgoing : List (OutgoingMessage V)

unfoldable pub new : {V : Type 0} → ServerState V
new = record {
  promises = [];
  tasks = [];
  schedules = [];
  p_timeouts = [];
  t_timeouts = [];
  outgoing = [];
}

-- `DurablePromise::to_record`
abbrev pub promise_record : {V : Type 0} → DurablePromise V → PromiseRecord V
promise_record p = record {
  id = p.id;
  state = p.state;
  param = p.param;
  value = p.value;
  tags = p.tags;
  timeout_at = p.timeout_at;
  created_at = p.created_at;
  settled_at = p.settled_at;
}

-- `Task::to_record`
abbrev pub task_record : Task → TaskRecord
task_record t = record {
  id = t.id;
  state = t.state;
  version = t.version;
  promise_id = t.id;
  pid = t.pid;
  ttl = t.ttl;
}

-- `const PENDING_RETRY_TTL`
abbrev pub pending_retry_ttl : ℤ
pending_retry_ttl = pos 30000
