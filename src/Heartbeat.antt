-- ===== src/Heartbeat.antt =====
-- resonate/src/heartbeat.rs: the tasks that an `AsyncHeartbeat` tracks, and whether its loop runs. Each
-- critical section of a lock is a function; the operations compose them. The loop's timer and its
-- requests are outside, but for the snapshot that it takes.
use resonate_sdk_rs.Prelude.{
  String, ◌≡◌, refl, inl, inr, Bool-cases, Bool, true, false, not, List, [], ◌∷◌, arith,
  if◌then◌else◌,
}
use resonate_sdk_rs.Prelude.Map.{HashMap, insert, remove}
use resonate_sdk_rs.Prelude.I64.{ℤ}

pub record AsyncHeartbeat : Type 0 where
  pub active_tasks : HashMap ℤ
  pub is_running : Bool

abbrev pub new : AsyncHeartbeat
new = record { active_tasks = []; is_running = false }

abbrev pub no_tasks : HashMap ℤ → Bool
no_tasks [] = true
no_tasks (_ ∷ _) = false

-- The critical sections of `start`.
unfoldable pub track : String → ℤ → AsyncHeartbeat → AsyncHeartbeat
track task_id task_version h = record h {
  active_tasks = insert task_id task_version h.active_tasks;
}

unfoldable pub ensure_loop_running : AsyncHeartbeat → AsyncHeartbeat
ensure_loop_running h = if h.is_running then h else record h { is_running = true }

-- Those of `stop`; the first returns `is_empty`.
unfoldable pub untrack : String → AsyncHeartbeat → Bool × AsyncHeartbeat
untrack task_id h =
    let rest = remove task_id h.active_tasks in (no_tasks rest, record h { active_tasks = rest })

unfoldable pub abort : AsyncHeartbeat → AsyncHeartbeat
abort h = record h { is_running = false }

unfoldable pub start : String → ℤ → AsyncHeartbeat → AsyncHeartbeat
start task_id task_version h = ensure_loop_running (track task_id task_version h)

unfoldable pub stop : String → AsyncHeartbeat → AsyncHeartbeat
stop task_id h = let r = untrack task_id h in if r.0 then abort r.1 else r.1

unfoldable pub shutdown : AsyncHeartbeat → AsyncHeartbeat
shutdown h = abort (record h { active_tasks = [] })

-- A tick of the loop: the tasks of its request, none where it skips the round.
pub record TaskRef : Type 0 where
  pub id : String
  pub version : ℤ

unfoldable pub task_refs : HashMap ℤ → List TaskRef
task_refs [] = []
task_refs ((id, version) ∷ rest) = record { id = id; version = version } ∷ task_refs rest

pub data Call : Type 0 where
  starts : String → ℤ → Call
  stops : String → Call
  shuts_down : Call

abbrev pub call : Call → AsyncHeartbeat → AsyncHeartbeat
call (starts id version) h = start id version h
call (stops id) h = stop id h
call shuts_down h = shutdown h

unfoldable pub run : List Call → AsyncHeartbeat → AsyncHeartbeat
run [] h = h
run (c ∷ cs) h = run cs (call c h)

insert_fills : (k : String) (v : ℤ) (m : HashMap ℤ) → no_tasks (insert k v m) ≡ false
unfolding insert
insert_fills k v [] = refl
insert_fills k v ((j, w) ∷ m) = ground arith

remove_empty : (k : String) (m : HashMap ℤ) → no_tasks m ≡ true → no_tasks (remove k m) ≡ true
unfolding remove
remove_empty k [] e = refl
remove_empty k (x ∷ m) e = absurd (ground arith)

-- The loop runs when there are tasks.
abbrev pub IsLive : AsyncHeartbeat → Type 0
IsLive h = h.is_running ≡ not (no_tasks h.active_tasks)

call-IsLive : (c : Call) (h : AsyncHeartbeat) → IsLive h → IsLive (call c h)
unfolding start stop shutdown track ensure_loop_running untrack abort
call-IsLive (starts id version) h live = ground (arith, insert_fills id version h.active_tasks)
call-IsLive (stops id) h live = elim (Bool-cases (no_tasks (remove id h.active_tasks))) [
  | inl empty ↦ rw (empty, stop) (ground arith)
  | inr some_left ↦ rw (some_left, stop) (ground (arith, remove_empty id h.active_tasks))
]
call-IsLive shuts_down h live = refl

-- After any sequence of calls of `start`, `stop` and `shutdown` that do not overlap, from a new
-- heartbeat, the loop runs exactly when some task is tracked.
pub run-IsLive : (cs : List Call) → IsLive (run cs new)
unfolding run
run-IsLive cs = go cs new refl
  where
    go : (cs : List Call) (h : AsyncHeartbeat) → IsLive h → IsLive (run cs h)
    go [] h live = live
    go (c ∷ cs) h live = go cs (call c h) (call-IsLive c h live)
