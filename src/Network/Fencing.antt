-- ===== src/Network/Fencing.antt =====
-- resonate/src/network.rs: `task_fence` in a history of the server.
use resonate_sdk_rs.Prelude.{◌≡◌}
use resonate_sdk_rs.Prelude.I64.{ℤ}
use resonate_sdk_rs.Json.{Json}
use resonate_sdk_rs.Server.{ServerState}
use resonate_sdk_rs.Server.Handler.{no_data, respond}
use resonate_sdk_rs.Server.Tasks.Fence.{task_fence}

module _ (J : Json) where
  -- The fence of a request at a state turns it away, and changes nothing.
  abbrev pub TurnsAway : ℤ → J.Value → J.Value → ServerState J.Value → Type 0
  TurnsAway now corr_id req s =
      task_fence J now corr_id req s ≡ (respond "task.fence" corr_id 409 no_data, s)
