-- ===== src/Server/Step/Lease.antt =====
-- resonate/src/network.rs: `task_acquire`, `task_release` and `task_heartbeat`, as transitions.
use resonate_sdk_rs.Prelude.{
  String, ◌≡◌, refl, inl, inr, true, List, [], ◌∷◌, Option, some, arith, Option-cases, if_keep,
  unwrap_or,
}
use resonate_sdk_rs.Prelude.Map.{get}
use resonate_sdk_rs.Prelude.I64.{ℤ, pos, saturating_add}
use resonate_sdk_rs.Error.{Result-cases}
use resonate_sdk_rs.Json.{Json, get_i64}
use resonate_sdk_rs.Types.{pending, is_acquired}
use resonate_sdk_rs.Server.{Task, ServerState}
use resonate_sdk_rs.Server.Timers.{set_t_timeout}
use resonate_sdk_rs.Server.Request.{require_str}
use resonate_sdk_rs.Server.Tasks.Create.{acquire, lease}
use resonate_sdk_rs.Server.Tasks.Lease.{
  release_lease, extend_lease, acquire_at, task_acquire, release_at, task_release, extend_leases,
  task_heartbeat, holds,
}
use resonate_sdk_rs.Server.Step.{Rules, Steps, next, moves, renews, acquires, releases}
use resonate_sdk_rs.Server.Step.Settle.{send_to_target-Steps}
use resonate_sdk_rs.Server.Step.Promises.{>>=-Steps}

module _ {V : Type 0} {Ok : Rules} {s0 : ServerState V} where
  pub lease-Steps :
      (now : ℤ) (id pid : String) (ttl : ℤ) (s : ServerState V) {t : Task}
      → get id s.tasks ≡ some t
      → t.state ≡ pending
      → Ok.lease
      → Steps Ok s0 s
      → Steps Ok s0 (lease now id pid ttl s)
  unfolding lease
  lease-Steps now id pid ttl s e o may h = next h (
      moves id (acquire pid ttl) 1 _ e (record { same_id = refl; move = acquires o refl refl }) refl
        may)

  pub release_lease-Steps :
      (now : ℤ) (id : String) (s : ServerState V) (t : Task)
      → get id s.tasks ≡ some t
      → is_acquired t.state ≡ true
      → Steps Ok s0 s
      → Steps Ok s0 (release_lease now id t.version s)
  unfolding release_lease
  release_lease-Steps now id s t e o h = send_to_target-Steps id _ _ (
      next h (
        moves id _ 0 _ e (record { same_id = refl; move = releases (ground arith) refl refl }) refl
          tt))

  extend_lease-Steps :
      (now : ℤ) (pid id : String) (version : Option ℤ) (s : ServerState V)
      → Steps Ok s0 s
      → Steps Ok s0 (extend_lease now pid id version s)
  unfolding extend_lease
  extend_lease-Steps now pid id version s h = elim (Option-cases (get id s.tasks)) [
    | inl e ↦ rw (e, extend_lease) h
    | inr (t, e) ↦
        rw (e, extend_lease)
          (if_keep (Steps Ok s0) (holds pid version t)
            (set_t_timeout id 1 (saturating_add now (unwrap_or t.ttl (pos 30000))) s) s
            (λ held. next h (renews id 1 _ e (ground arith))) (λ _. h))
  ]

module _ (J : Json) {Ok : Rules} {s0 : ServerState J.Value} where
  acquire_at-Steps :
      (now : ℤ) (corr_id : J.Value) (id pid : String) (ttl : ℤ) (s : ServerState J.Value)
      → Ok.lease
      → Steps Ok s0 s
      → Steps Ok s0 (acquire_at J now corr_id id pid ttl s).1
  unfolding acquire_at
  acquire_at-Steps now corr_id id pid ttl s may h = elim (Option-cases (get id s.tasks)) [
    | inl e ↦ rw (e, acquire_at) h
    | inr (t, e) ↦ rw (e, acquire_at) (grind (arith, h, may, lease-Steps now id pid ttl s e))
  ]

  pub task_acquire-Steps :
      (now : ℤ) (corr_id req : J.Value) (s : ServerState J.Value)
      → Ok.lease
      → Steps Ok s0 s
      → Steps Ok s0 (task_acquire J now corr_id req s).1
  unfolding task_acquire
  task_acquire-Steps now corr_id req s may h =
      >>=-Steps J (require_str J req "id") _ s h (λ id. acquire_at-Steps now corr_id id _ _ s may h)

  release_at-Steps :
      (now : ℤ) (corr_id : J.Value) (id : String) (s : ServerState J.Value)
      → Steps Ok s0 s
      → Steps Ok s0 (release_at J now corr_id id s).1
  unfolding release_at
  release_at-Steps now corr_id id s h = elim (Option-cases (get id s.tasks)) [
    | inl e ↦ rw (e, release_at) h
    | inr (t, e) ↦ rw (e, release_at) (grind (arith, h, release_lease-Steps now id s t e))
  ]

  pub task_release-Steps :
      (now : ℤ) (corr_id req : J.Value) (s : ServerState J.Value)
      → Steps Ok s0 s
      → Steps Ok s0 (task_release J now corr_id req s).1
  unfolding task_release
  task_release-Steps now corr_id req s h =
      >>=-Steps J (require_str J req "id") _ s h (λ id. release_at-Steps now corr_id id s h)

  extend_leases-Steps :
      (now : ℤ) (corr_id : J.Value) (pid : String) (tasks : List J.Value) (s : ServerState J.Value)
      → Steps Ok s0 s
      → Steps Ok s0 (extend_leases J now corr_id pid tasks s).1
  unfolding extend_leases
  extend_leases-Steps now corr_id pid [] s h = h
  extend_leases-Steps now corr_id pid (task_ref ∷ rest) s h =
      elim (Result-cases (require_str J task_ref "id")) [
        | inl (id, e) ↦
            rw (e, extend_leases)
              (extend_leases-Steps now corr_id pid rest _
                (extend_lease-Steps now pid id (get_i64 J task_ref "version") s h))
        | inr (e, d) ↦ rw (d, extend_leases) h
      ]

  pub task_heartbeat-Steps :
      (now : ℤ) (corr_id req : J.Value) (s : ServerState J.Value)
      → Steps Ok s0 s
      → Steps Ok s0 (task_heartbeat J now corr_id req s).1
  unfolding task_heartbeat
  task_heartbeat-Steps now corr_id req s h =
      >>=-Steps J (require_str J req "pid") _ s h (λ pid. extend_leases-Steps now corr_id pid _ s h)
