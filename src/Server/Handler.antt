-- ===== src/Server/Handler.antt =====
-- resonate/src/network.rs: the responses of the server, and its handlers. A handler changes the state
-- and returns a response or an error; what it wrote before an error stays written.
use resonate_sdk_rs.Prelude.{ℕ, String, List, Option}
use resonate_sdk_rs.Error.{Result, ok, err}
use resonate_sdk_rs.Server.{PromiseRecord, TaskRecord, ScheduleStub, ServerState}

-- The fields of a response beside `kind`, `corrId` and `status`. An absent record is JSON's null.
pub data Body (V : Type 0) : Type 0 where
  no_data : Body V
  error : String → Body V
  promise : Option (PromiseRecord V) → Body V
  task : TaskRecord → Option (PromiseRecord V) → List (PromiseRecord V) → Body V
  action : Option (PromiseRecord V) → List (PromiseRecord V) → Body V
  redirect : List (PromiseRecord V) → Body V
  schedule : ScheduleStub V → Body V
  schedules : List (ScheduleStub V) → Body V

pub record Response (V : Type 0) : Type 0 where
  pub kind : String
  pub corr_id : V
  pub status : ℕ
  pub body : Body V

abbrev pub Handler : Type 0 → Type 0
Handler V = ServerState V → Result (Response V) × ServerState V

-- `let a = r?;`
infixl 5 ◌>>=◌
abbrev pub ◌>>=◌ : {V A : Type 0} → Result A → (A → Handler V) → Handler V
◌>>=◌ (ok a) f s = f a s
◌>>=◌ (err e) f s = (err e, s)

abbrev pub respond : {V : Type 0} → String → V → ℕ → Body V → Result (Response V)
respond kind corr_id status body =
    ok (record { kind = kind; corr_id = corr_id; status = status; body = body })
