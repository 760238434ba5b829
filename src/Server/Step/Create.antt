-- ===== src/Server/Step/Create.antt =====
-- resonate/src/network.rs: `task_create`, as transitions.
use resonate_sdk_rs.Prelude.{
  String, ◌≡◌, refl, inl, inr, none, some, arith, Option-cases, Bool-cases, eq_refl,
}
use resonate_sdk_rs.Prelude.Map.{get, get-insert}
use resonate_sdk_rs.Prelude.I64.{ℤ, leb_ℤ}
use resonate_sdk_rs.Json.{Json}
use resonate_sdk_rs.Server.{Tags, DurablePromise, Task, ServerState}
use resonate_sdk_rs.Server.Request.{
  require_str, extract_tags, extract_action_data, get_or_null, timeout_of,
}
use resonate_sdk_rs.Server.Promises.{expired_promise, pending_promise, insert_promise}
use resonate_sdk_rs.Server.Tasks.Create.{
  acquired_task, insert_task, create_acquired, create_existing, create_fresh, create_task_at,
  task_create,
}
use resonate_sdk_rs.Server.Step.{Rules, Steps, next, creates, spawns, absorbs}
use resonate_sdk_rs.Server.Step.Promises.{>>=-Steps, expired_no_deadline}
use resonate_sdk_rs.Server.Step.Lease.{lease-Steps}

module _ (J : Json) {Ok : Rules} {s0 : ServerState J.Value} where
  create_existing-Steps :
      (now : ℤ) (corr_id : J.Value) (id pid : String) (ttl : ℤ) (t : Task) (s : ServerState J.Value)
      → get id s.tasks ≡ some t
      → Ok.lease
      → Steps Ok s0 s
      → Steps Ok s0 (create_existing J now corr_id id pid ttl t s).1
  unfolding create_existing
  create_existing-Steps now corr_id id pid ttl t s e may h =
      grind (arith, h, may, lease-Steps now id pid ttl s e)

  create_fresh-Steps :
      (now : ℤ) (corr_id : J.Value) (id pid : String) (ttl : ℤ) (req : J.Value)
      (s : ServerState J.Value)
      → get id s.tasks ≡ none
      → get id s.promises ≡ none
      → Steps Ok s0 s
      → Steps Ok s0 (create_fresh J now corr_id id pid ttl req s).1
  unfolding create_fresh insert_task insert_promise create_acquired
  create_fresh-Steps now corr_id id pid ttl req s et ep h =
      elim (Bool-cases (leb_ℤ (timeout_of J req) now)) [
        | inl late ↦
            rw (late, create_fresh)
              (next
                (next h (
                  creates id expired ep refl (
                    expired_no_deadline id (get_or_null J req "param") J.null tags
                      (timeout_of J req))))
                (absorbs id {p = expired} et
                  (rw (get-insert id id expired s.promises, eq_refl id))))
        | inr early ↦
            rw (early, create_fresh)
              (next h (spawns id p (acquired_task id pid ttl) 1 _ ep refl refl refl refl))
      ]
    where
      tags : Tags
      tags = extract_tags J req

      expired : DurablePromise J.Value
      expired = expired_promise id (get_or_null J req "param") J.null tags (timeout_of J req)

      p : DurablePromise J.Value
      p = pending_promise id (get_or_null J req "param") J.null tags (timeout_of J req) now

  create_task_at-Steps :
      (now : ℤ) (corr_id : J.Value) (id pid : String) (ttl : ℤ) (req : J.Value)
      (s : ServerState J.Value)
      → Ok.lease
      → Steps Ok s0 s
      → Steps Ok s0 (create_task_at J now corr_id id pid ttl req s).1
  unfolding create_task_at
  create_task_at-Steps now corr_id id pid ttl req s may h = elim (Option-cases (get id s.tasks)) [
    | inr (t, e) ↦ rw (e, create_task_at) (create_existing-Steps now corr_id id pid ttl t s e may h)
    | inl e ↦ elim (Option-cases (get id s.promises)) [
      | inr (p, d) ↦ rw (e, d, create_task_at) h
      | inl d ↦ rw (e, d, create_task_at) (create_fresh-Steps now corr_id id pid ttl req s e d h)
    ]
  ]

  pub task_create-Steps :
      (now : ℤ) (corr_id req : J.Value) (s : ServerState J.Value)
      → Ok.lease
      → Steps Ok s0 s
      → Steps Ok s0 (task_create J now corr_id req s).1
  unfolding task_create
  task_create-Steps now corr_id req s may h = >>=-Steps J (require_str J req "pid") _ s h λ pid.
      >>=-Steps J (require_str J (extract_action_data J (get_or_null J req "action")) "id") _ s h
        λ id. create_task_at-Steps now corr_id id pid _ _ s may h
