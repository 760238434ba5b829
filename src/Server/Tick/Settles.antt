-- ===== src/Server/Tick/Settles.antt =====
-- resonate/src/network.rs: what a tick does to the promises that are due.
use resonate_sdk_rs.Prelude.{some, if◌then◌else◌}
use mathlib.Core.Option
use resonate_sdk_rs.Types.{is_pending}
use resonate_sdk_rs.Server.{PromiseRecord}
use resonate_sdk_rs.Server.Settle.{timeout_state}

module _ {V : Type 0} where
  -- The record of a promise that has timed out, if it was pending.
  abbrev settled_record : V → PromiseRecord V → PromiseRecord V
  settled_record null r =
      if is_pending r.state
      then record r { state = timeout_state r.tags; value = null; settled_at = some r.timeout_at }
      else r
