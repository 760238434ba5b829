-- ===== src/Sender.antt =====
-- resonate/src/send.rs (with the records of resonate/src/types.rs): what the typed requests return.
pub mod Envelope
pub mod Requests
pub mod Answers
use resonate_sdk_rs.Prelude.{String, List, Option}
use resonate_sdk_rs.Prelude.I64.{ℤ}
use resonate_sdk_rs.Types.{TaskState}
use resonate_sdk_rs.Server.{PromiseRecord}
use resonate_sdk_rs.Effects.{Value}

pub record TaskRecord (V : Type 0) : Type 0 where
  pub id : String
  pub state : TaskState
  pub version : ℤ
  pub resumes : V
  pub ttl : Option ℤ
  pub pid : Option String

-- `TaskAcquireResult`, also as `TaskCreateResult`.
pub record TaskAcquireResult (V : Type 0) : Type 0 where
  pub task : TaskRecord V
  pub promise : PromiseRecord (Value V)
  pub preload : List (PromiseRecord (Value V))

pub data SuspendResult (V : Type 0) : Type 0 where
  suspends : SuspendResult V
  redirect : List (PromiseRecord (Value V)) → SuspendResult V

pub data TaskCreateOutcome (V : Type 0) : Type 0 where
  created : TaskAcquireResult V → TaskCreateOutcome V
  conflict : TaskCreateOutcome V

pub record PromiseRegisterCallbackData : Type 0 where
  pub awaited : String
  pub awaiter : String
