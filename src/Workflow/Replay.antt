-- ===== src/Workflow/Replay.antt =====
-- resonate/src/context.rs with resonate/src/effects.rs: a context over the cache of an execution, and its
-- operations on promises that the cache knows as settled.
use resonate_sdk_rs.Prelude.I64.{ℤ}
use resonate_sdk_rs.Effects.{Codec, Sender, Effects, create_promise, settle_promise}
use resonate_sdk_rs.Context.{Context}
use resonate_sdk_rs.Workflow.{Backend}

-- The world and the effects of one execution.
pub record Shell (W V : Type 0) : Type 0 where
  pub world : W
  pub effects : Effects V

abbrev pub in_shell : {W V A : Type 0} → A × W × Effects V → A × Shell W V
in_shell (a, w, e) = (a, record { world = w; effects = e })

-- The effects as a context calls them.
abbrev pub durable : {W V : Type 0} → Codec V → Sender W V → (W → ℤ) → Backend (Shell W V) V
durable C S now = record {
  now_ms = λ s. now s.world;
  create_promise = λ req s. in_shell (create_promise C S req s.world s.effects);
  settle_promise = λ id result s. in_shell (settle_promise C S id result s.world s.effects);
}
