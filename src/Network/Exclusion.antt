-- ===== src/Network/Exclusion.antt =====
-- resonate/src/network.rs: `task_acquire` in a history of the server.
use resonate_sdk_rs.Prelude.{
  ℕ, ◌+◌, ◌≤◌, ◌<◌, length, String, ◌≡◌, refl, ap, sym, ◌∙◌, inl, inr, eq_refl, Option, none, some,
  arith, Bool-cases, Option-cases, unwrap_or, List,
}
use resonate_sdk_rs.Prelude.Map.{get, get-modify}
use resonate_sdk_rs.Prelude.I64.{ℤ, pos, max_ℤ, max_ℕ}
use resonate_sdk_rs.Error.{Result, ok, err}
use resonate_sdk_rs.Json.{Json, get_str}
use resonate_sdk_rs.Types.{pending, acquired, is_pending_task}
use resonate_sdk_rs.Server.{Task, TaskRecord, ServerState}
use resonate_sdk_rs.Server.Timers.{set_t_timeout}
use resonate_sdk_rs.Server.Handler.{Response, task}
use resonate_sdk_rs.Server.Request.{require_str, extract_ttl}
use resonate_sdk_rs.Server.Tasks.Create.{acquire, lease}
use resonate_sdk_rs.Server.Tasks.Lease.{acquire_at, task_acquire}
use resonate_sdk_rs.Server.Step.{here, anything}
use resonate_sdk_rs.Server.Step.Lease.{task_acquire-Steps}
use resonate_sdk_rs.Server.Lifecycle.{bump, bump-pos}
use resonate_sdk_rs.Server.Lifecycle.Kept.{HasPromises, Steps-HasPromises}
use resonate_sdk_rs.Network.History.{Event, run, run-IsLaterTask}

-- The task that a reply grants.
abbrev pub granted : {V : Type 0} → Result (Response V) → Option TaskRecord
granted (err e) = none
granted (ok r) = elim r.body [ task t p preloaded ↦ some t | _ ↦ none ]

module _ (J : Json) where
  -- A grant is of a pending task, which is acquired after it.
  Grants : String → ServerState J.Value → Result (Response J.Value) × ServerState J.Value → Type 0
  Grants id s r =
      (tr : TaskRecord)
      → granted r.0 ≡ some tr
      → (t u : Task) × (get id s.tasks ≡ some t)
        × (t.state ≡ pending)
        × (get id r.1.tasks ≡ some u)
        × (u.state ≡ acquired)
        × (u.version ≡ t.version)
        × (tr.version ≡ t.version)

  acquire_at-Grants :
      (now : ℤ) (corr_id : J.Value) (id pid : String) (ttl : ℤ) (s : ServerState J.Value)
      → Grants id s (acquire_at J now corr_id id pid ttl s)
  unfolding Grants acquire_at lease set_t_timeout
  acquire_at-Grants now corr_id id pid ttl s = elim (Option-cases (get id s.tasks)) [
    | inl e ↦ rw (e, acquire_at) (λ tr g. absurd (ground arith))
    | inr (t, e) ↦ elim (Bool-cases (is_pending_task t.state)) [
      | inr o ↦ rw (e, o, acquire_at) (λ tr g. absurd (ground arith))
      | inl o ↦
          rw (e, o, acquire_at)
            (λ tr g. (
              t,
              acquire pid ttl t,
              refl,
              ground arith,
              ground (arith, get-modify id id (acquire pid ttl) s.tasks, eq_refl id),
              refl,
              refl,
              ground arith,
            ))
    ]
  ]

  task_acquire-Grants :
      (now : ℤ) (corr_id req : J.Value) (id : String) (s : ServerState J.Value)
      → require_str J req "id" ≡ ok id
      → Grants id s (task_acquire J now corr_id req s)
  unfolding task_acquire
  task_acquire-Grants now corr_id req id s e = rw e (
      acquire_at-Grants now corr_id id (unwrap_or (get_str J req "pid") "")
        (max_ℤ (extract_ttl J req) (pos 1)) s)

  -- In a state where every task has a promise, a task.acquire grants a task in version `v`. If after any
  -- requests and ticks another task.acquire grants the task again, it grants it in a higher version,
  -- provided that `v` and the number of those requests and ticks together do not pass the largest `i64`.
  pub task_acquire_excludes :
      (es : List (Event J.Value)) (now later : ℤ) (corr_id corr_id' req req' : J.Value)
      (id : String) (s : ServerState J.Value) (r r' : TaskRecord) (v : ℕ)
      → HasPromises s
      → require_str J req "id" ≡ ok id
      → require_str J req' "id" ≡ ok id
      → granted (task_acquire J now corr_id req s).0 ≡ some r
      → r.version ≡ pos v
      → v + length es ≤ max_ℕ
      → granted
          (task_acquire J later corr_id' req' (run J es (task_acquire J now corr_id req s).1)).0
        ≡ some r'
      → (v' : ℕ) × (r'.version ≡ pos v') × (v < v')
  unfolding Grants
  task_acquire_excludes es now later corr_id corr_id' req req' id s r r' v hp e e' g ev fits g' =
      let s1 = (task_acquire J now corr_id req s).1 in
      let kept : HasPromises s1 =
        Steps-HasPromises {Ok = anything} hp (task_acquire-Steps J now corr_id req s tt here) in
      let (t, u, et, ot, eu, ou, vu, vr) = task_acquire-Grants now corr_id req id s e r g in
      let (t', u', et', ot', eu', ou', vu', vr') =
        task_acquire-Grants later corr_id' req' id (run J es s1) e' r' g' in
      let (w, ew, iw, n, few, h) = run-IsLaterTask J es s1 id u kept eu in
      let same : w ≡ t' = ground arith in
      let bumped : 0 < n = h.lost (ground arith) (ap (λ x. x.state) same ∙ ot') in
      (
        v + n,
        vr'
            ∙ ap (λ x. x.version) (sym same)
            ∙ h.counts
            ∙ ap (bump n) (vu ∙ sym vr ∙ ev)
            ∙ bump-pos n v (omega arith),
        omega arith,
      )
