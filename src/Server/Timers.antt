-- ===== src/Server/Timers.antt =====
-- resonate/src/network.rs: the two lists of deadlines, and the queue of outgoing messages.
pub mod Lookup
use resonate_sdk_rs.Prelude.{
  ℕ, String, Bool, false, not, ◌==◌, List, [], ◌∷◌, Option, none, some, retain, if◌then◌else◌,
}
use resonate_sdk_rs.Prelude.I64.{ℤ}
use resonate_sdk_rs.Server.{
  PTimeout, TTimeout, Message, execute, unblock, OutgoingMessage, ServerState,
}

-- `v.iter().find(|pt| pt.id == id)`
unfoldable pub find_p : String → List PTimeout → Option PTimeout
find_p id [] = none
find_p id (pt ∷ pts) = if pt.id == id then some pt else find_p id pts

unfoldable pub find_t : String → List TTimeout → Option TTimeout
find_t id [] = none
find_t id (t ∷ ts) = if t.id == id then some t else find_t id ts

-- The write through `iter_mut().find(..)`, and the `push` where nothing is found.
unfoldable pub upsert_p : String → ℤ → List PTimeout → List PTimeout
upsert_p id timeout [] = record { id = id; timeout = timeout } ∷ []
upsert_p id timeout (pt ∷ pts) =
    if pt.id == id then record pt { timeout = timeout } ∷ pts else pt ∷ upsert_p id timeout pts

unfoldable pub upsert_t : String → ℕ → ℤ → List TTimeout → List TTimeout
upsert_t id typ timeout [] = record { id = id; typ = typ; timeout = timeout } ∷ []
upsert_t id typ timeout (t ∷ ts) =
    if t.id == id
    then record t { typ = typ; timeout = timeout } ∷ ts
    else t ∷ upsert_t id typ timeout ts

module _ {V : Type 0} where
  unfoldable pub set_p_timeout : String → ℤ → ServerState V → ServerState V
  set_p_timeout id timeout s = record s { p_timeouts = upsert_p id timeout s.p_timeouts }

  unfoldable pub del_p_timeout : String → ServerState V → ServerState V
  del_p_timeout id s = record s { p_timeouts = retain (λ pt. not (pt.id == id)) s.p_timeouts }

  unfoldable pub set_t_timeout : String → ℕ → ℤ → ServerState V → ServerState V
  set_t_timeout id typ timeout s = record s { t_timeouts = upsert_t id typ timeout s.t_timeouts }

  unfoldable pub del_t_timeout : String → ServerState V → ServerState V
  del_t_timeout id s = record s { t_timeouts = retain (λ t. not (t.id == id)) s.t_timeouts }

  abbrev is_execute : String → Message V → Bool
  is_execute id (execute task_id version) = task_id == id
  is_execute id (unblock promise) = false

  -- An execute message of the same task is replaced where it stands.
  unfoldable pub upsert_execute :
      String → String → ℤ → List (OutgoingMessage V) → List (OutgoingMessage V)
  upsert_execute address task_id version [] =
      record { address = address; message = execute task_id version } ∷ []
  upsert_execute address task_id version (m ∷ ms) =
      if is_execute task_id m.message
      then record { address = address; message = execute task_id version } ∷ ms
      else m ∷ upsert_execute address task_id version ms

  unfoldable pub send_execute_message : String → String → ℤ → ServerState V → ServerState V
  send_execute_message address task_id version s = record s {
    outgoing = upsert_execute address task_id version s.outgoing;
  }
