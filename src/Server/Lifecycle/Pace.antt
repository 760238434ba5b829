-- ===== src/Server/Lifecycle/Pace.antt =====
-- resonate/src/network.rs: how often one request bumps the version of a task.
use resonate_sdk_rs.Prelude.{
  String, ◌≡◌, refl, sym, subst, Bool, true, false, ◌==◌, eq_iff, inl, inr, Option, none, some,
  arith, Option-cases, Bool-cases, Option-cases, [],
}
use resonate_sdk_rs.Prelude.Map.{get, get-insert, get-modify}
use resonate_sdk_rs.Prelude.I64.{ℤ, leb_ℤ}
use resonate_sdk_rs.Error.{Result-cases}
use resonate_sdk_rs.Json.{Json}
use resonate_sdk_rs.Types.{is_pending_task}
use resonate_sdk_rs.Server.{Task, ServerState}
use resonate_sdk_rs.Server.Timers.{set_p_timeout, set_t_timeout}
use resonate_sdk_rs.Server.Settle.{fulfilled_task}
use resonate_sdk_rs.Server.Request.{require_str, extract_action_data, get_or_null, timeout_of}
use resonate_sdk_rs.Server.Promises.{insert_promise}
use resonate_sdk_rs.Server.Tasks.Create.{
  acquire, acquired_task, lease, insert_task, create_acquired, create_existing, create_fresh,
  create_task_at, task_create,
}
use resonate_sdk_rs.Server.Tasks.Lease.{acquire_at, task_acquire}
use resonate_sdk_rs.Server.Apply.{str_or_empty, dispatch, apply}
use resonate_sdk_rs.Server.Handler.{Handler}
use resonate_sdk_rs.Server.Step.{here, next, sends}
use resonate_sdk_rs.Server.Step.Apply.{takes_lease, Leasing, auto_timeouts-Steps, apply-Steps}
use resonate_sdk_rs.Server.Lifecycle.{
  IsLater, same-IsLater, IsLaterTask, IsLaterTask-trans, FollowsDiagram-IsLaterTask, no_lease,
}
use resonate_sdk_rs.Server.Lifecycle.Kept.{HasPromises, Steps-FollowsDiagram}

-- A task that is not written.
unwritten : (t : Task) (o : Option Task) → o ≡ some t → IsLaterTask 0 t o
unwritten t o e = (t, e, refl, 0, omega arith, same-IsLater t.state t.version)

-- A pending task is leased in its version.
leases :
    (pid : String) (ttl : ℤ) (t : Task)
    → is_pending_task t.state ≡ true
    → IsLater t.state t.version (acquire pid ttl t).state (acquire pid ttl t).version 0
leases pid ttl t o = record {
  counts = refl;
  lost = λ q e. absurd (ground arith);
  final = λ f. absurd (ground arith);
}

module _ {V : Type 0} where
  lease-IsLaterTask :
      (now : ℤ) (id pid : String) (ttl : ℤ) (s : ServerState V) (u : Task) (k : String) (t : Task)
      → get id s.tasks ≡ some u
      → is_pending_task u.state ≡ true
      → get k s.tasks ≡ some t
      → IsLaterTask 0 t (get k (lease now id pid ttl s).tasks)
  unfolding lease set_t_timeout
  lease-IsLaterTask now id pid ttl s u k t eu o e = elim (Bool-cases (id == k)) [
    | inr other ↦ unwritten t _ (ground (arith, get-modify id k (acquire pid ttl) s.tasks))
    | inl same ↦ (
      acquire pid ttl t,
      ground (arith, get-modify id k (acquire pid ttl) s.tasks),
      refl,
      0,
      omega arith,
      leases pid ttl t (ground (arith, eq_iff id k)),
    )
  ]

  -- A task at a key that had none.
  inserted :
      (id : String) (u : Task) (s : ServerState V) (k : String) (t : Task)
      → get id s.tasks ≡ none
      → get k s.tasks ≡ some t
      → IsLaterTask 0 t (get k (insert_task id u s).tasks)
  unfolding insert_task
  inserted id u s k t fresh e =
      unwritten t _ (ground (arith, get-insert id k u s.tasks, eq_iff id k))

module _ (J : Json) (k : String) (t : Task) where
  -- A handler bumps no version.
  Keeps : ServerState J.Value → Handler J.Value → Type 0
  Keeps s f = IsLaterTask 0 t (get k (f s).1.tasks)

  acquire_at-Keeps :
      (now : ℤ) (corr_id : J.Value) (id pid : String) (ttl : ℤ) (s : ServerState J.Value)
      → get k s.tasks ≡ some t
      → Keeps s (acquire_at J now corr_id id pid ttl)
  unfolding Keeps acquire_at
  acquire_at-Keeps now corr_id id pid ttl s e = elim (Option-cases (get id s.tasks)) [
    | inl d ↦ rw (d, acquire_at) (unwritten t _ e)
    | inr (u, d) ↦ elim (Bool-cases (is_pending_task u.state)) [
      | inr o ↦ rw (d, o, acquire_at) (unwritten t _ e)
      | inl o ↦ rw (d, o, acquire_at) (lease-IsLaterTask now id pid ttl s u k t d o e)
    ]
  ]

  task_acquire-Keeps :
      (now : ℤ) (corr_id req : J.Value) (s : ServerState J.Value)
      → get k s.tasks ≡ some t
      → Keeps s (task_acquire J now corr_id req)
  unfolding Keeps task_acquire
  task_acquire-Keeps now corr_id req s e = elim (Result-cases (require_str J req "id")) [
    | inr (x, o) ↦ rw o (unwritten t _ e)
    | inl (id, o) ↦ rw o (acquire_at-Keeps now corr_id id _ _ s e)
  ]

  create_existing-Keeps :
      (now : ℤ) (corr_id : J.Value) (id pid : String) (ttl : ℤ) (u : Task) (s : ServerState J.Value)
      → get id s.tasks ≡ some u
      → get k s.tasks ≡ some t
      → Keeps s (create_existing J now corr_id id pid ttl u)
  unfolding Keeps create_existing
  create_existing-Keeps now corr_id id pid ttl u s d e =
      elim (Bool-cases (is_pending_task u.state)) [
        | inl o ↦ grind (arith, lease-IsLaterTask now id pid ttl s u k t d o e)
        | inr o ↦ grind (arith, unwritten t (get k s.tasks) e)
      ]

  create_fresh-Keeps :
      (now : ℤ) (corr_id : J.Value) (id pid : String) (ttl : ℤ) (req : J.Value)
      (s : ServerState J.Value)
      → get id s.tasks ≡ none
      → get k s.tasks ≡ some t
      → Keeps s (create_fresh J now corr_id id pid ttl req)
  unfolding Keeps create_fresh create_acquired insert_promise insert_task set_t_timeout
      set_p_timeout
  create_fresh-Keeps now corr_id id pid ttl req s fresh e =
      elim (Bool-cases (leb_ℤ (timeout_of J req) now)) [
        | inl late ↦
            unwritten t _ (ground (arith, get-insert id k (fulfilled_task id) s.tasks, eq_iff id k))
        | inr early ↦
            unwritten t _
              (ground (arith, get-insert id k (acquired_task id pid ttl) s.tasks, eq_iff id k))
      ]

  create_task_at-Keeps :
      (now : ℤ) (corr_id : J.Value) (id pid : String) (ttl : ℤ) (req : J.Value)
      (s : ServerState J.Value)
      → get k s.tasks ≡ some t
      → Keeps s (create_task_at J now corr_id id pid ttl req)
  unfolding Keeps create_task_at
  create_task_at-Keeps now corr_id id pid ttl req s e = elim (Option-cases (get id s.tasks)) [
    | inr (u, d) ↦ rw (d, create_task_at) (create_existing-Keeps now corr_id id pid ttl u s d e)
    | inl d ↦ elim (Option-cases (get id s.promises)) [
      | inr (p, b) ↦ rw (d, b, create_task_at) (unwritten t _ e)
      | inl b ↦ rw (d, b, create_task_at) (create_fresh-Keeps now corr_id id pid ttl req s d e)
    ]
  ]

  task_create-Keeps :
      (now : ℤ) (corr_id req : J.Value) (s : ServerState J.Value)
      → get k s.tasks ≡ some t
      → Keeps s (task_create J now corr_id req)
  unfolding Keeps task_create
  task_create-Keeps now corr_id req s e = elim (Result-cases (require_str J req "pid")) [
    | inr (x, o) ↦ rw o (unwritten t _ e)
    | inl (pid, o) ↦
        elim (Result-cases
          (require_str J (extract_action_data J (get_or_null J req "action")) "id")) [
            | inr (x, q) ↦ rw (o, q) (unwritten t _ e)
            | inl (id, q) ↦ rw (o, q) (create_task_at-Keeps now corr_id id pid _ _ s e)
          ]
  ]

  dispatch-Keeps :
      (now : ℤ) (kind : String) (corr_id req : J.Value) (s : ServerState J.Value)
      → takes_lease kind ≡ true
      → get k s.tasks ≡ some t
      → Keeps s (dispatch J now kind corr_id req)
  unfolding Keeps dispatch
  dispatch-Keeps now kind corr_id req s o e = elim (Bool-cases (kind == "task.create")) [
    | inl c ↦
        subst (λ x. IsLaterTask 0 t (get k (dispatch J now x corr_id req s).1.tasks))
          (sym ((eq_iff kind "task.create").0 c)) (task_create-Keeps now corr_id req s e)
    | inr c ↦
        subst (λ x. IsLaterTask 0 t (get k (dispatch J now x corr_id req s).1.tasks))
          (sym ((eq_iff kind "task.acquire").0 (ground arith)))
          (task_acquire-Keeps now corr_id req s e)
  ]

module _ (J : Json) (k : String) (t : Task) where
  -- The rules of a request of a kind that leases no task.
  leasing_none : (b : Bool) → b ≡ false → Leasing ⊥ b
  leasing_none true e = absurd (ground arith)
  leasing_none false e = tt

  -- One request bumps the version of a task once at most.
  pub apply-IsLaterTask :
      (now : ℤ) (req : J.Value) (s : ServerState J.Value)
      → HasPromises s
      → get k s.tasks ≡ some t
      → IsLaterTask 1 t (get k (apply J now req s).1.tasks)
  unfolding apply Keeps
  apply-IsLaterTask now req s hp e = elim (Bool-cases (takes_lease kind)) [
    | inr o ↦ FollowsDiagram-IsLaterTask t _ (
        Steps-FollowsDiagram k t hp
          (apply-Steps J no_lease (λ tags. tt) now req s
            (record {
              settle = tt;
              fulfill = tt;
              fence = tt;
              lease = leasing_none (takes_lease kind) o;
            }))
          e)
    | inl o ↦
        let (u, d, i, n, few, h) = FollowsDiagram-IsLaterTask t _ (
          Steps-FollowsDiagram k t hp
            (auto_timeouts-Steps J {Ok = no_lease} (λ tags. tt) now kind req _
              (next here (sends [])))
            e) in
        IsLaterTask-trans {most = 1} {more = 0} t u n _ i few h
          (dispatch-Keeps J k u now kind (get_or_null J req "corrId") req _ o d)
  ]
    where
      kind : String
      kind = str_or_empty J req "kind"
