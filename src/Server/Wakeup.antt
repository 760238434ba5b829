-- ===== src/Server/Wakeup.antt =====
-- resonate/src/network.rs: the tasks that await a promise, when it settles.
pub mod Registered
pub mod Suspension
use resonate_sdk_rs.Prelude.{
  ℕ, String, ◌≡◌, ◌≢◌, refl, ap, sym, ◌∙◌, ◌⊎◌, inl, inr, Bool, true, false, ◌==◌, ◌&&◌, ◌||◌, not,
  eq_iff, eq_refl, Option, none, some, arith, Bool-cases, Option-cases, if◌then◌else◌, List, [],
  ◌∷◌, for_each,
}
use mathlib.Core.Option
use resonate_sdk_rs.Prelude.Map.{
  HashMap, get, insert, modify, modify_all, get-insert, get-modify, get-modify_all,
}
use resonate_sdk_rs.Prelude.Set
use resonate_sdk_rs.Prelude.Set.{contains, contains-insert, contains-remove}
use resonate_sdk_rs.Prelude.I64.{ℤ, pos, add_i64}
use resonate_sdk_rs.Types.{PromiseState, TaskState, pending, suspended, fulfilled, is_pending}
use resonate_sdk_rs.Server.{DurablePromise, Task, ServerState}
use resonate_sdk_rs.Server.Timers.{
  del_p_timeout, set_t_timeout, del_t_timeout, send_execute_message,
}
use resonate_sdk_rs.Server.Settle.{
  send_to_target, fulfill, fulfilled_task, fulfill_own_task, enqueue_settle, wake, note_resume,
  resume_awaiter, resume_awaiters, notify_subscribers, settle_effects, clear_awaiters, awaiters_of,
}
use resonate_sdk_rs.Server.Promises.{settle_pending, settled_promise}

-- What a settled promise does to a task that awaits it.
abbrev pub resumed : String → Task → Task
resumed id t = elim t.state [
  | suspended ↦ record t {
    state = TaskState.pending;
    version = add_i64 t.version (pos 1);
    resumes = id ∷ [];
  }
  | fulfilled ↦ t
  | _ ↦ record t { resumes = Set.insert id t.resumes }
]

-- A task that was suspended in a version is pending in the next one, and knows why.
pub record IsAwake (id : String) (version : ℤ) (t : Task) : Type 0 where
  pub dispatched : t.state ≡ TaskState.pending
  pub next_version : t.version ≡ add_i64 version (pos 1)
  pub resumed_by : contains id t.resumes ≡ true

resumed-IsAwake :
    (id : String) (t : Task) → t.state ≡ suspended → IsAwake id t.version (resumed id t)
unfolding contains
resumed-IsAwake id t e = ground (arith, eq_refl id)

IsAwake-resumed : (id : String) (v : ℤ) (t : Task) → IsAwake id v t → IsAwake id v (resumed id t)
IsAwake-resumed id v t h =
    ground (arith, h.dispatched, h.resumed_by, contains-insert id id t.resumes, eq_refl id)

module _ {V : Type 0} where
  resume_awaiter-task :
      (k id : String) (now : ℤ) (a : String) (s : ServerState V)
      → get k (resume_awaiter id now a s).tasks
        ≡ (if a == k then Option.map (resumed id) (get k s.tasks) else get k s.tasks)
  unfolding resume_awaiter wake note_resume set_t_timeout send_to_target send_execute_message
  resume_awaiter-task k id now a s = elim (Option-cases (get a s.tasks)) [
    | inl e ↦ rw (e, resume_awaiter) (ground (arith, eq_iff a k))
    | inr (t, e) ↦
        rw (e, resume_awaiter)
          (ground (
            arith,
            eq_iff a k,
            get-modify a k
                (λ u. record u {
                  state = TaskState.pending;
                  version = add_i64 t.version (pos 1);
                  resumes = id ∷ [];
                })
                s.tasks,
            get-modify a k (λ u. record u { resumes = Set.insert id u.resumes }) s.tasks,
          ))
  ]

  -- The awake task at a key.
  abbrev pub AwakeAt : String → String → ℤ → ServerState V → Type 0
  AwakeAt k id v s = (u : Task) × (get k s.tasks ≡ some u) × IsAwake id v u

  resume_keeps-AwakeAt :
      (k id : String) (v now : ℤ) (a : String) (s : ServerState V)
      → AwakeAt k id v s
      → AwakeAt k id v (resume_awaiter id now a s)
  resume_keeps-AwakeAt k id v now a s (u, e, h) = elim (Bool-cases (a == k)) [
    | inl i ↦
        (resumed id u, ground (arith, resume_awaiter-task k id now a s), IsAwake-resumed id v u h)
    | inr i ↦ (u, ground (arith, resume_awaiter-task k id now a s), h)
  ]

  resume_all-AwakeAt :
      (k id : String) (v now : ℤ) (ids : List String) (s : ServerState V)
      → AwakeAt k id v s
      → AwakeAt k id v (for_each (resume_awaiter id now) ids s)
  resume_all-AwakeAt k id v now [] s h = h
  resume_all-AwakeAt k id v now (a ∷ ids) s h =
      resume_all-AwakeAt k id v now ids _ (resume_keeps-AwakeAt k id v now a s h)

  -- The loop wakes every suspended task of its list.
  resume_all_wakes :
      (k id : String) (now : ℤ) (ids : List String) (s : ServerState V) (t : Task)
      → contains k ids ≡ true
      → get k s.tasks ≡ some t
      → t.state ≡ suspended
      → AwakeAt k id t.version (for_each (resume_awaiter id now) ids s)
  unfolding contains
  resume_all_wakes k id now [] s t c e o = absurd (ground arith)
  resume_all_wakes k id now (a ∷ ids) s t c e o = elim (Bool-cases (a == k)) [
    | inl i ↦
        resume_all-AwakeAt k id t.version now ids _
          (resumed id t, ground (arith, resume_awaiter-task k id now a s), resumed-IsAwake id t o)
    | inr i ↦
        resume_all_wakes k id now ids _ t (ground arith)
          (ground (arith, resume_awaiter-task k id now a s)) o
  ]

  -- The task of the settled promise is fulfilled, and no other changes.
  enqueue_settle-task :
      (k id : String) (s : ServerState V)
      → (id == k) ≡ false
      → get k (enqueue_settle id s).tasks ≡ get k s.tasks
  unfolding enqueue_settle fulfill_own_task del_t_timeout
  enqueue_settle-task k id s other =
      ground (arith, get-insert id k (fulfilled_task id) s.tasks, get-modify id k fulfill s.tasks)

  -- Only that task is taken off the list of awaiters.
  enqueue_settle-awaiter :
      (k id : String) (s : ServerState V) (p : DurablePromise V)
      → (id == k) ≡ false
      → get id s.promises ≡ some p
      → contains k p.awaiters ≡ true
      → contains k (awaiters_of (get id (enqueue_settle id s).promises)) ≡ true
  unfolding enqueue_settle fulfill_own_task del_t_timeout
  enqueue_settle-awaiter k id s p other e c = ground (
    arith,
    get-modify_all id (λ q. record q { awaiters = Set.remove id q.awaiters }) s.promises,
    contains-remove id k p.awaiters,
  )

  notify_subscribers-tasks :
      (id : String) (s : ServerState V) → (notify_subscribers id s).tasks ≡ s.tasks
  unfolding notify_subscribers
  notify_subscribers-tasks id s = ground arith

  -- The effects of a settlement wake every suspended task that awaits the promise, but its own.
  pub settle_effects_wake :
      (k id : String) (now : ℤ) (s : ServerState V) (p : DurablePromise V) (t : Task)
      → id ≢ k
      → get id s.promises ≡ some p
      → contains k p.awaiters ≡ true
      → get k s.tasks ≡ some t
      → t.state ≡ suspended
      → AwakeAt k id t.version (settle_effects now id s)
  unfolding settle_effects resume_awaiters
  settle_effects_wake k id now s p t other ep c et o =
      let (u, e, h) =
        resume_all_wakes k id now (awaiters_of (get id (enqueue_settle id s).promises))
          (enqueue_settle id s) t (enqueue_settle-awaiter k id s p differ ep c)
          (enqueue_settle-task k id s differ ∙ et) o in
      (u, ap (get k) (notify_subscribers-tasks id _) ∙ e, h)
    where
      differ : (id == k) ≡ false
      differ = ground (arith, eq_iff id k)

  -- The writes and the effects of a settlement make a suspended task that awaits the promise, other
  -- than the promise's own, pending in its next version, with the promise among its resumes.
  pub settle_pending_wakes :
      (k id : String) (now : ℤ) (state : PromiseState) (value : V) (s : ServerState V)
      (p : DurablePromise V) (t : Task)
      → id ≢ k
      → get id s.promises ≡ some p
      → contains k p.awaiters ≡ true
      → get k s.tasks ≡ some t
      → t.state ≡ suspended
      → AwakeAt k id t.version (settle_effects now id (settle_pending now id state value s))
  unfolding settle_pending del_p_timeout
  settle_pending_wakes k id now state value s p t other ep c et o =
      settle_effects_wake k id now _ (settled_promise now state value p) t other
        (ground (arith, get-modify id id (settled_promise now state value) s.promises, eq_refl id))
        c et o
