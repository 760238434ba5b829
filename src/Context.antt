-- ===== src/Context.antt =====
-- resonate/src/context.rs: the context of a workflow and the create requests that it builds. What all
-- contexts of an execution share, the cache of promises, the target resolver and the clock, is passed
-- to the operations. A count of milliseconds stands for a `Duration`.
pub mod Requests
pub mod Bounds
pub mod Naming
use resonate_sdk_rs.Prelude.{
  ℕ, String, ◌+◌, ◌-◌, ◌%◌, Bool, true, List, [], Option, none, some, unwrap_or, concat,
  if◌then◌else◌, ltb,
}
use resonate_sdk_rs.Prelude.Decimal.{to_string}
use resonate_sdk_rs.Prelude.I64.{ℤ, pos, negsuc, max_ℕ, leb_ℤ, saturating_add, sub_ℕ}
use resonate_sdk_rs.Error.{Error, Result, ok, err, encoding_error}
use resonate_sdk_rs.Ids.{join_id}
use resonate_sdk_rs.Info.{Info}

-- What `JoinHandle<Outcome<()>>` gives when it is awaited: `Outcome::Done`, `Outcome::Suspended`, or
-- the `JoinError` of a task that panicked.
pub data Joined : Type 0 where
  done : Result (Unit {0}) → Joined
  suspends : List String → Joined
  panics : Joined

pub record SpawnedHandle : Type 0 where
  pub id : String
  pub handle : Joined

-- `sequencer_ok` is what a new creation slot learns of its predecessor: it has none, or it was created.
pub record Context : Type 0 where
  pub id : String
  pub origin_id : String
  pub branch_id : String
  pub parent_id : String
  pub func_name : String
  pub timeout_at : ℤ
  pub seq : ℕ
  pub remote_todos : List String
  pub spawned_handles : List SpawnedHandle
  pub sequencer_ok : Bool

-- `Context::root`
abbrev pub root : String → String → ℤ → String → Context
root id origin_id timeout_at func_name = record {
  id = id;
  origin_id = origin_id;
  branch_id = id;
  parent_id = "";
  func_name = func_name;
  timeout_at = timeout_at;
  seq = 0;
  remote_todos = [];
  spawned_handles = [];
  sequencer_ok = true;
}

-- `Context::child`, `ChildSeed::context`
abbrev pub child : String → String → ℤ → Context → Context
child id func_name timeout_at c = record {
  id = id;
  origin_id = c.origin_id;
  branch_id = id;
  parent_id = c.id;
  func_name = func_name;
  timeout_at = timeout_at;
  seq = 0;
  remote_todos = [];
  spawned_handles = [];
  sequencer_ok = true;
}

-- `Context::child_info`, `ChildSeed::info`
abbrev pub child_info : String → String → ℤ → Context → Info
child_info id func_name timeout_at c = record {
  id = id;
  parent_id = c.id;
  origin_id = c.origin_id;
  branch_id = id;
  timeout_at = timeout_at;
  func_name = func_name;
  tags = [];
}

-- `Context::info`
abbrev pub info : Context → Info
info c = record {
  id = c.id;
  parent_id = c.parent_id;
  origin_id = c.origin_id;
  branch_id = c.branch_id;
  timeout_at = c.timeout_at;
  func_name = c.func_name;
  tags = [];
}

-- `AtomicU32::fetch_add` wraps.
unfoldable pub next_id : Context → String × Context
next_id c = (join_id c.id (to_string c.seq), record c { seq = (c.seq + 1) % 4294967296 })

-- `Context::DEFAULT_TIMEOUT`
abbrev pub default_timeout : ℕ
default_timeout = 86400000

-- `timeout.as_millis() as i64` of a u128.
unfoldable pub as_i64 : ℕ → ℤ
as_i64 millis =
    let n = millis % 18446744073709551616 in
    if ltb max_ℕ n then sub_ℕ n 18446744073709551616 else pos n

-- `std::cmp::min`
abbrev pub min_ℤ : ℤ → ℤ → ℤ
min_ℤ a b = if leb_ℤ a b then a else b

-- `Context::child_timeout`, at the time `now`.
unfoldable pub child_timeout : ℤ → Option ℕ → Context → ℤ
child_timeout now requested c =
    min_ℤ (saturating_add now (as_i64 (unwrap_or requested default_timeout))) c.timeout_at

unfoldable pub take_remote_todos : Context → List String × Context
take_remote_todos c = (c.remote_todos, record c { remote_todos = [] })

unfoldable pub check_serialization_error : Option String → Result (Unit {0})
check_serialization_error none = ok tt
check_serialization_error (some e) = err (encoding_error (concat "failed to serialize args: " e))
