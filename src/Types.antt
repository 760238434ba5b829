-- ===== src/Types.antt =====
-- resonate/src/types.rs: the states of promises and tasks, and the tags that the server reads.
use resonate_sdk_rs.Prelude.{Bool, true, false}

pub data PromiseState : Type 0 where
  pending resolved rejected rejected_canceled rejected_timedout : PromiseState

pub data TaskState : Type 0 where
  pending acquired suspended halted fulfilled : TaskState

-- `state == PromiseState::Pending`
abbrev pub is_pending : PromiseState → Bool
is_pending PromiseState.pending = true
is_pending _ = false

-- `state == TaskState::Pending`, `TaskState::Acquired`, `TaskState::Fulfilled`
abbrev pub is_pending_task : TaskState → Bool
is_pending_task TaskState.pending = true
is_pending_task _ = false

abbrev pub is_acquired : TaskState → Bool
is_acquired acquired = true
is_acquired _ = false

abbrev pub is_fulfilled : TaskState → Bool
is_fulfilled fulfilled = true
is_fulfilled _ = false
