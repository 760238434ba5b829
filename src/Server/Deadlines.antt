-- ===== src/Server/Deadlines.antt =====
-- resonate/src/network.rs: the deadlines of the server beside its promises and tasks.
use resonate_sdk_rs.Prelude.{
  ℕ, String, ◌≡◌, inl, inr, false, eq_iff, Option, arith, Bool-cases, Option-cases, and_then,
}
use resonate_sdk_rs.Prelude.Map.{get, get-insert, get-modify, get-modify_all}
use resonate_sdk_rs.Types.{is_pending}
use resonate_sdk_rs.Server.{Task, ServerState}
use resonate_sdk_rs.Server.Timers.{set_p_timeout, del_p_timeout, set_t_timeout, del_t_timeout}
use resonate_sdk_rs.Server.Timers.Lookup.{
  p_deadline, t_kind, p_deadline-upsert, p_deadline-retain, t_kind-upsert, t_kind-retain,
}
use resonate_sdk_rs.Server.Settle.{has_target, fulfilled_task}
use resonate_sdk_rs.Server.Step.{
  Rules, Step, Steps, here, next, settles, links, links_all, creates, spawns, absorbs, moves, stops,
  notes, renews, timer_typ, deadline,
}

-- The states in which a promise settles.
abbrev pub Settled : Rules
Settled = record { settle = λ state. is_pending state ≡ false; lease = Unit }

-- The deadline that a task needs.
abbrev pub kind_of : Option Task → Option ℕ
kind_of o = and_then o (λ t. timer_typ t.state)

module _ {V : Type 0} where
  pub record IsScheduled (s : ServerState V) : Type 0 where
    pub tasks_fit : (k : String) → t_kind k s.t_timeouts ≡ kind_of (get k s.tasks)
    pub promises_fit :
        (k : String) → p_deadline k s.p_timeouts ≡ and_then (get k s.promises) deadline

  Step-tasks_fit :
      {s s' : ServerState V}
      → Step Settled s s'
      → (k : String) → t_kind k s.t_timeouts ≡ kind_of (get k s.tasks)
      → t_kind k s'.t_timeouts ≡ kind_of (get k s'.tasks)
  unfolding set_p_timeout del_p_timeout set_t_timeout del_t_timeout
  Step-tasks_fit {s = s} (moves id f typ at {t = t} e m typ_ok may) k h =
      ground (arith, t_kind-upsert id k typ at s.t_timeouts, get-modify id k f s.tasks, eq_iff id k)
  Step-tasks_fit {s = s} (stops id f {t = t} e m typ_ok) k h =
      ground (arith, t_kind-retain id k s.t_timeouts, get-modify id k f s.tasks, eq_iff id k)
  Step-tasks_fit {s = s} (notes id f kept) k h = elim (Option-cases (get k s.tasks)) [
    | inl e ↦ ground (arith, get-modify id k f s.tasks)
    | inr (t, e) ↦ ground (arith, get-modify id k f s.tasks, kept t)
  ]
  Step-tasks_fit {s = s} (absorbs id e ep) k h =
      ground (arith, get-insert id k (fulfilled_task id) s.tasks, eq_iff id k)
  Step-tasks_fit {s = s} (renews id typ at e typ_ok) k h =
      ground (arith, t_kind-upsert id k typ at s.t_timeouts, eq_iff id k)
  Step-tasks_fit {s = s} (spawns id q u typ at fresh i o ti typ_ok) k h =
      elim (Bool-cases (has_target q.tags)) [
        | inl target ↦
            rw target
              (ground (arith, t_kind-upsert id k typ at s.t_timeouts, get-insert id k u s.tasks))
        | inr target ↦
            rw target
              (ground (arith, t_kind-upsert id k typ at s.t_timeouts, get-insert id k u s.tasks))
      ]
  Step-tasks_fit _ k h = h

  Step-promises_fit :
      {s s' : ServerState V}
      → Step Settled s s'
      → (k : String) → p_deadline k s.p_timeouts ≡ and_then (get k s.promises) deadline
      → p_deadline k s'.p_timeouts ≡ and_then (get k s'.promises) deadline
  unfolding set_p_timeout del_p_timeout set_t_timeout del_t_timeout
  Step-promises_fit {s = s} (settles id f {p = p} e o same fine) k h =
      ground (arith, p_deadline-retain id k s.p_timeouts, get-modify id k f s.promises, eq_iff id k)
  Step-promises_fit {s = s} (links id f kept) k h = elim (Option-cases (get k s.promises)) [
    | inl e ↦ ground (arith, get-modify id k f s.promises)
    | inr (p, e) ↦ ground (arith, get-modify id k f s.promises, kept p)
  ]
  Step-promises_fit {s = s} (links_all f kept) k h = elim (Option-cases (get k s.promises)) [
    | inl e ↦ ground (arith, get-modify_all k f s.promises)
    | inr (p, e) ↦ ground (arith, get-modify_all k f s.promises, kept p)
  ]
  Step-promises_fit {s = s} (creates id q fresh i none_yet) k h =
      ground (arith, get-insert id k q s.promises, eq_iff id k)
  Step-promises_fit {s = s} (spawns id q u typ at fresh i o ti typ_ok) k h =
      elim (Bool-cases (has_target q.tags)) [
        | inl target ↦ rw target (
            ground (
              arith,
              eq_iff id k,
              p_deadline-upsert id k q.timeout_at s.p_timeouts,
              get-insert id k q s.promises,
            ))
        | inr target ↦ rw target (ground (arith, eq_iff id k, get-insert id k q s.promises))
      ]
  Step-promises_fit _ k h = h

  Step-IsScheduled : {s s' : ServerState V} → Step Settled s s' → IsScheduled s → IsScheduled s'
  Step-IsScheduled st h = record {
    tasks_fit = λ k. Step-tasks_fit st k (h.tasks_fit k);
    promises_fit = λ k. Step-promises_fit st k (h.promises_fit k);
  }

  pub Steps-IsScheduled :
      {s s' : ServerState V} → Steps Settled s s' → IsScheduled s → IsScheduled s'
  Steps-IsScheduled here h = h
  Steps-IsScheduled (next hs st) h = Step-IsScheduled st (Steps-IsScheduled hs h)
