-- ===== src/Server/Step/Suspend.antt =====
-- resonate/src/network.rs: `task_suspend`, as transitions.
use resonate_sdk_rs.Prelude.{
  String, ◌≡◌, refl, ap, ◌∙◌, inl, inr, Bool, true, false, List, [], ◌∷◌, some, arith, Option-cases,
  Bool-cases,
}
use resonate_sdk_rs.Prelude.Map.{get}
use resonate_sdk_rs.Prelude.Set.{is_empty}
use resonate_sdk_rs.Json.{Json}
use resonate_sdk_rs.Types.{is_pending, is_acquired}
use resonate_sdk_rs.Server.{Task, ServerState}
use resonate_sdk_rs.Server.Request.{require_str}
use resonate_sdk_rs.Server.Tasks.Suspend.{
  register, register_all, add_awaiter, clear_resumes, suspend, suspend_task, suspend_reply,
  suspend_leased, suspend_at, task_suspend, callbacks,
}
use resonate_sdk_rs.Server.Step.{Rules, Steps, next, links, stops, notes, suspends}
use resonate_sdk_rs.Server.Step.Promises.{>>=-Steps}

module _ {V : Type 0} {Ok : Rules} {s0 : ServerState V} where
  register-Steps :
      (task_id awaited : String) (s : ServerState V)
      → Steps Ok s0 s
      → Steps Ok s0 (register task_id awaited s).1
  unfolding register
  register-Steps task_id awaited s h = elim (Option-cases (get awaited s.promises)) [
    | inl e ↦ rw (e, register) h
    | inr (p, e) ↦ elim (Bool-cases (is_pending p.state)) [
      | inl o ↦
          rw (e, o, register) (next h (links awaited (add_awaiter task_id) (λ q. ground arith)))
      | inr o ↦ rw (e, o, register) h
    ]
  ]

  register_all-Steps :
      (task_id : String) (ids : List String) (any_settled : Bool) (s : ServerState V)
      → Steps Ok s0 s
      → Steps Ok s0 (register_all task_id ids any_settled s).1
  unfolding register_all
  register_all-Steps task_id [] any_settled s h = h
  register_all-Steps task_id (awaited ∷ rest) any_settled s h =
      register_all-Steps task_id rest _ _ (register-Steps task_id awaited s h)

  suspend_task-Steps :
      (id : String) (s : ServerState V) {t : Task}
      → get id s.tasks ≡ some t
      → is_acquired t.state ≡ true
      → Steps Ok s0 s
      → Steps Ok s0 (suspend_task id s)
  unfolding suspend_task
  suspend_task-Steps id s e o h = next h (
      stops id suspend e (record { same_id = refl; move = suspends (ground arith) refl refl }) refl)

-- Registering callbacks leaves the tasks.
module _ {V : Type 0} where
  register-tasks :
      (task_id awaited : String) (s : ServerState V)
      → (register task_id awaited s).1.tasks ≡ s.tasks
  unfolding register
  register-tasks task_id awaited s = ground arith

  pub register_all-tasks :
      (task_id : String) (ids : List String) (any_settled : Bool) (s : ServerState V)
      → (register_all task_id ids any_settled s).1.tasks ≡ s.tasks
  unfolding register_all
  register_all-tasks task_id [] any_settled s = refl
  register_all-tasks task_id (awaited ∷ rest) any_settled s =
      register_all-tasks task_id rest _ _ ∙ register-tasks task_id awaited s

module _ (J : Json) {Ok : Rules} {s0 : ServerState J.Value} where
  suspend_reply-Steps :
      (corr_id : J.Value) (id : String) (r : Bool × ServerState J.Value) {t : Task}
      → get id r.1.tasks ≡ some t
      → is_acquired t.state ≡ true
      → Steps Ok s0 r.1
      → Steps Ok s0 (suspend_reply J corr_id id r).1
  unfolding suspend_reply
  suspend_reply-Steps corr_id id (true, s) e o h = h
  suspend_reply-Steps corr_id id (false, s) e o h = suspend_task-Steps id s e o h

  suspend_leased-Steps :
      (corr_id req : J.Value) (id : String) (t : Task) (s : ServerState J.Value)
      → get id s.tasks ≡ some t
      → is_acquired t.state ≡ true
      → Steps Ok s0 s
      → Steps Ok s0 (suspend_leased J corr_id req id t s).1
  unfolding suspend_leased
  suspend_leased-Steps corr_id req id t s e o h = elim (Bool-cases (is_empty t.resumes)) [
    | inl none_yet ↦
        rw (none_yet, suspend_leased)
          (suspend_reply-Steps corr_id id (register_all id (callbacks J req) false s)
            (ap (get id) (register_all-tasks id (callbacks J req) false s) ∙ e) o
            (register_all-Steps id (callbacks J req) false s h))
    | inr some_resumes ↦
        rw (some_resumes, suspend_leased) (next h (notes id clear_resumes (λ u. ground arith)))
  ]

  suspend_at-Steps :
      (corr_id req : J.Value) (id : String) (s : ServerState J.Value)
      → Steps Ok s0 s
      → Steps Ok s0 (suspend_at J corr_id req id s).1
  unfolding suspend_at
  suspend_at-Steps corr_id req id s h = elim (Option-cases (get id s.tasks)) [
    | inl e ↦ rw (e, suspend_at) h
    | inr (t, e) ↦ elim (Bool-cases (is_acquired t.state)) [
      | inl o ↦ rw (e, o, suspend_at) (suspend_leased-Steps corr_id req id t s e o h)
      | inr o ↦ rw (e, o, suspend_at) h
    ]
  ]

  pub task_suspend-Steps :
      (corr_id req : J.Value) (s : ServerState J.Value)
      → Steps Ok s0 s
      → Steps Ok s0 (task_suspend J corr_id req s).1
  unfolding task_suspend
  task_suspend-Steps corr_id req s h =
      >>=-Steps J (require_str J req "id") _ s h (λ id. suspend_at-Steps corr_id req id s h)
