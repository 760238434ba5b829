-- ===== src/Info.antt =====
-- resonate/src/info.rs: what a running function may read of its execution. The dependency map
-- (`deps`) is left out: nothing here reads it.
use resonate_sdk_rs.Prelude.{String}
use resonate_sdk_rs.Prelude.I64.{ℤ}
use resonate_sdk_rs.Server.{Tags}

pub record Info : Type 0 where
  pub id : String
  pub parent_id : String
  pub origin_id : String
  pub branch_id : String
  pub timeout_at : ℤ
  pub func_name : String
  pub tags : Tags
