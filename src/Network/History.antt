-- ===== src/Network/History.antt =====
-- resonate/src/network.rs: sequences of requests and ticks.
use resonate_sdk_rs.Prelude.{refl, sym, subst, length, arith, String, ◌≡◌, List, [], ◌∷◌, some}
use resonate_sdk_rs.Prelude.Map.{get}
use resonate_sdk_rs.Prelude.I64.{ℤ}
use resonate_sdk_rs.Error.{Result, ok, err}
use resonate_sdk_rs.Json.{Json}
use resonate_sdk_rs.Server.{DurablePromise, Task, ServerState, new}
use resonate_sdk_rs.Server.Handler.{Response}
use resonate_sdk_rs.Server.Apply.{apply}
use resonate_sdk_rs.Server.Step.{Rules, anything, Steps, here, next, sends, Steps-trans}
use resonate_sdk_rs.Server.Step.Tick.{TimesOut, tick-Steps}
use resonate_sdk_rs.Server.Step.Apply.{SettlesIn, Leasing-any, apply-Steps}
use resonate_sdk_rs.Server.Durable.{IsKept, Steps-IsKept}
use resonate_sdk_rs.Server.Lifecycle.{
  IsLaterTask, IsLaterTask-trans, FollowsDiagram-IsLaterTask, no_lease, same-IsLater,
}
use resonate_sdk_rs.Server.Lifecycle.Pace.{apply-IsLaterTask}
use resonate_sdk_rs.Server.Lifecycle.Kept.{HasPromises, Steps-HasPromises, Steps-FollowsDiagram}
use resonate_sdk_rs.Server.Timers.{find_p, find_t}
use resonate_sdk_rs.Server.Step.Promises.{timeout_state-settled}
use resonate_sdk_rs.Server.Deadlines.{Settled, IsScheduled, Steps-IsScheduled}
use resonate_sdk_rs.Network.{on_tick, take_outgoing, unwrap_request_envelope, send}

-- What happens to the server, with its time.
pub data Event (V : Type 0) : Type 0 where
  request : ℤ → V → Event V
  ticks : ℤ → Event V

module _ (J : Json) where
  unfoldable pub run : List (Event J.Value) → ServerState J.Value → ServerState J.Value
  run [] s = s
  run (request now req ∷ rest) s = run rest (send J now req s).2
  run (ticks now ∷ rest) s = run rest (on_tick J.null now s).1

  -- Whatever the requests settle, they may settle so.
  abbrev pub AllSettleIn : Rules → List (Event J.Value) → Type 0
  AllSettleIn Ok [] = Unit
  AllSettleIn Ok (request now req ∷ rest) =
      SettlesIn J Ok (unwrap_request_envelope J req) × AllSettleIn Ok rest
  AllSettleIn Ok (ticks now ∷ rest) = AllSettleIn Ok rest

module _ {V : Type 0} (Ok : Rules) where
  take_outgoing-Steps :
      {s : ServerState V} (r : Result (Response V) × ServerState V)
      → Steps Ok s r.1
      → Steps Ok s (take_outgoing r).2
  unfolding take_outgoing
  take_outgoing-Steps (ok r, s1) h = next h (sends [])
  take_outgoing-Steps (err e, s1) h = h

take_outgoing-tasks :
    {V : Type 0} (r : Result (Response V) × ServerState V) → (take_outgoing r).2.tasks ≡ r.1.tasks
unfolding take_outgoing
take_outgoing-tasks (ok r, s) = refl
take_outgoing-tasks (err e, s) = refl

module _ (J : Json) (Ok : Rules) (timed : TimesOut Ok) where
  -- A history is a sequence of transitions.
  pub run-Steps :
      (es : List (Event J.Value)) (s : ServerState J.Value)
      → AllSettleIn J Ok es
      → Steps Ok s (run J es s)
  unfolding run send on_tick
  run-Steps [] s fine = here
  run-Steps (request now req ∷ rest) s fine =
      Steps-trans
        (take_outgoing-Steps Ok (apply J now (unwrap_request_envelope J req) s)
          (apply-Steps J Ok timed now (unwrap_request_envelope J req) s fine.0))
        (run-Steps rest _ fine.1)
  run-Steps (ticks now ∷ rest) s fine =
      Steps-trans
        (next (Steps-trans (next here (sends [])) (tick-Steps Ok timed J.null now _)) (sends []))
        (run-Steps rest _ fine)

module _ (J : Json) where
  any_state : (es : List (Event J.Value)) → AllSettleIn J anything es
  any_state [] = tt
  any_state (request now req ∷ rest) =
      (record { settle = tt; fulfill = tt; fence = tt; lease = Leasing-any _ }, any_state rest)
  any_state (ticks now ∷ rest) = any_state rest

  pub run-any :
      (es : List (Event J.Value)) (s : ServerState J.Value) → Steps anything s (run J es s)
  run-any es s = run-Steps J anything (λ _. tt) es s (any_state es)

  -- Whatever requests and ticks follow, each promise is still there, with the id, the parameter, the
  -- tags and the times that it was created with; and if it has settled, its state, its value and the
  -- time of its settlement are the same.
  pub run-IsKept :
      (es : List (Event J.Value)) (s : ServerState J.Value) (k : String)
      (p : DurablePromise J.Value)
      → get k s.promises ≡ some p
      → IsKept p (get k (run J es s).promises)
  run-IsKept es s k p e = Steps-IsKept k p (run-any es s) e

  -- After any history of a new server every task belongs to a promise with its id.
  pub run-HasPromises : (es : List (Event J.Value)) → HasPromises (run J es new)
  unfolding new get
  run-HasPromises es = Steps-HasPromises (record { promise_of_task = λ k t e. cc }) (run-any es new)

  run-cons :
      (event : Event J.Value) (rest : List (Event J.Value)) (s : ServerState J.Value) (k : String)
      (w : Task)
      → get k (run J rest (run J (event ∷ []) s)).tasks ≡ some w
      → get k (run J (event ∷ rest) s).tasks ≡ some w
  unfolding run
  run-cons (request now req) rest s k w e = e
  run-cons (ticks now) rest s k w e = e

  event-IsLaterTask :
      (event : Event J.Value) (s : ServerState J.Value) (k : String) (t : Task)
      → HasPromises s
      → get k s.tasks ≡ some t
      → IsLaterTask 1 t (get k (run J (event ∷ []) s).tasks)
  unfolding run send
  event-IsLaterTask (request now req) s k t hp e =
      subst (λ m. IsLaterTask 1 t (get k m))
        (sym (take_outgoing-tasks (apply J now (unwrap_request_envelope J req) s)))
        (apply-IsLaterTask J k t now (unwrap_request_envelope J req) s hp e)
  event-IsLaterTask (ticks now) s k t hp e =
      FollowsDiagram-IsLaterTask t _
        (Steps-FollowsDiagram k t hp (run-Steps J no_lease (λ tags. tt) (ticks now ∷ []) s tt) e)

  -- Where every task has a promise, whatever requests and ticks follow, a task is still there with its
  -- id. Its version is the old one bumped some number of times, at most as often as there are requests
  -- and ticks: once at least if it was not pending and is now; and if it was fulfilled, it is fulfilled in
  -- the same version.
  pub run-IsLaterTask :
      (es : List (Event J.Value)) (s : ServerState J.Value) (k : String) (t : Task)
      → HasPromises s
      → get k s.tasks ≡ some t
      → IsLaterTask (length es) t (get k (run J es s).tasks)
  unfolding run
  run-IsLaterTask [] s k t hp e = (t, e, refl, 0, omega arith, same-IsLater t.state t.version)
  run-IsLaterTask (event ∷ rest) s k t hp e =
      let (u, d, i, n, few, h) = event-IsLaterTask event s k t hp e in
      let s1 = run J (event ∷ []) s in
      let (w, f, j, m, most, l) =
        IsLaterTask-trans t u n _ i few h
          (run-IsLaterTask rest s1 k u (Steps-HasPromises hp (run-any (event ∷ []) s)) d) in
      (w, run-cons event rest s k w f, j, m, omega arith, l)

module _ (J : Json) where
  -- After any history of a new server in which no request names pending as the state to settle in, the
  -- deadlines fit: those of `p_timeouts` are those of the pending promises with a target, and
  -- `t_timeouts` has an entry of kind 0 for each pending task, of kind 1 for each acquired task, and no
  -- other.
  pub run-IsScheduled :
      (es : List (Event J.Value)) → AllSettleIn J Settled es → IsScheduled (run J es new)
  unfolding new get find_p find_t
  run-IsScheduled es fine =
      Steps-IsScheduled (run-Steps J Settled timeout_state-settled es new fine)
        (record { tasks_fit = λ k. refl; promises_fit = λ k. refl })
