-- ===== src/Server/Lifecycle/Kept.antt =====
-- resonate/src/network.rs: the tasks, and their promises, from one state to a later one.
use resonate_sdk_rs.Prelude.{
  String, ◌≡◌, refl, Option-cases, inl, inr, eq_iff, none, some, arith, Bool-cases,
}
use resonate_sdk_rs.Prelude.Map.{get, get-insert, get-modify}
use resonate_sdk_rs.Server.{DurablePromise, Task, ServerState}
use resonate_sdk_rs.Server.Timers.{set_p_timeout, del_p_timeout, set_t_timeout, del_t_timeout}
use resonate_sdk_rs.Server.Settle.{has_target, fulfilled_task}
use resonate_sdk_rs.Server.Step.{
  Rules, Permits-stopped, Step, Steps, here, next, spawns, absorbs, moves, stops, notes,
}
use resonate_sdk_rs.Server.Durable.{Step-IsKept}
use resonate_sdk_rs.Server.Lifecycle.{
  FollowsDiagram, FollowsDiagram-next, IsNext, same, modify-IsNext, insert-IsNext, moved, stays,
}

module _ {V : Type 0} where
  -- Every task belongs to a promise.
  pub record HasPromises (s : ServerState V) : Type 0 where
    pub promise_of_task :
        (k : String) (t : Task)
        → get k s.tasks ≡ some t
        → (p : DurablePromise V) × (get k s.promises ≡ some p)

  Step-IsNext :
      {Ok : Rules} {s s' : ServerState V} (k : String) (t : Task)
      → HasPromises s
      → Step Ok s s'
      → get k s.tasks ≡ some t
      → IsNext Ok t (get k s'.tasks)
  unfolding set_p_timeout del_p_timeout set_t_timeout del_t_timeout
  Step-IsNext {Ok = Ok} {s = s} k t hp (moves id f typ at {t = u} e m typ_ok may) d =
      modify-IsNext Ok id k f _ t d (λ i. inr (moved Ok id k f s.tasks t u e d m may i))
  Step-IsNext {Ok = Ok} {s = s} k t hp (stops id f {t = u} e m typ_ok) d =
      modify-IsNext Ok id k f _ t d
        (λ i. inr (moved Ok id k f s.tasks t u e d m (Permits-stopped Ok (f u).state typ_ok) i))
  Step-IsNext {Ok = Ok} k t hp (notes id f kept) d =
      modify-IsNext Ok id k f _ t d (λ i. inl (kept t))
  Step-IsNext {Ok = Ok} {s = s} k t hp (absorbs id e ep) d =
      insert-IsNext Ok id k (fulfilled_task id) s.tasks t d (λ i. ground arith)
  Step-IsNext {Ok = Ok} {s = s} k t hp (spawns id q u typ at fresh i o ti typ_ok) d =
      elim (Bool-cases (has_target q.tags)) [
        | inl target ↦ rw target (insert-IsNext Ok id k u s.tasks t d other)
        | inr target ↦ rw target (insert-IsNext Ok id k u s.tasks t d other)
      ]
    where
      other : id ≡ k → ⊥
      other j = let (p, e) = hp.promise_of_task k t d in ground arith
  Step-IsNext k t hp _ d = (t, d, inl (same t))

  -- Where there was no task, a task comes with its promise.
  new_task :
      {Ok : Rules} {s s' : ServerState V} (k : String) (t : Task)
      → Step Ok s s'
      → get k s.tasks ≡ none
      → get k s'.tasks ≡ some t
      → (p : DurablePromise V) × (get k s'.promises ≡ some p)
  unfolding set_p_timeout del_p_timeout set_t_timeout del_t_timeout
  new_task {s = s} k t (moves id f typ at e m typ_ok may) d e' =
      absurd (ground (arith, get-modify id k f s.tasks))
  new_task {s = s} k t (stops id f e m typ_ok) d e' =
      absurd (ground (arith, get-modify id k f s.tasks))
  new_task {s = s} k t (notes id f kept) d e' = absurd (ground (arith, get-modify id k f s.tasks))
  new_task {s = s} k t (absorbs id {p = p} e ep) d e' =
      (p, ground (arith, get-insert id k (fulfilled_task id) s.tasks, eq_iff id k))
  new_task {s = s} k t (spawns id q u typ at fresh i o ti typ_ok) d e' =
      (q, grind (arith, get-insert id k u s.tasks, get-insert id k q s.promises))
  new_task k t _ d e' = absurd (ground arith)

  Step-HasPromises :
      {Ok : Rules} {s s' : ServerState V} → HasPromises s → Step Ok s s' → HasPromises s'
  Step-HasPromises {s = s} {s' = s'} hp st = record {
    promise_of_task = λ k t e. elim (Option-cases (get k s.tasks)) [
      | inl d ↦ new_task k t st d e
      | inr (u, d) ↦
          let (p, ep) = hp.promise_of_task k u d in
          let (q, eq, x) = Step-IsKept k p st ep in (q, eq)
    ];
  }

  pub Steps-HasPromises :
      {Ok : Rules} {s s' : ServerState V} → HasPromises s → Steps Ok s s' → HasPromises s'
  Steps-HasPromises hp here = hp
  Steps-HasPromises hp (next h st) = Step-HasPromises (Steps-HasPromises hp h) st

  pub Steps-FollowsDiagram :
      {Ok : Rules} {s s' : ServerState V} (k : String) (t : Task)
      → HasPromises s
      → Steps Ok s s'
      → get k s.tasks ≡ some t
      → FollowsDiagram Ok t (get k s'.tasks)
  Steps-FollowsDiagram k t hp here e = (t, e, refl, stays refl refl)
  Steps-FollowsDiagram k t hp (next h st) e =
      let (u, d, i, m) = Steps-FollowsDiagram k t hp h e in
      FollowsDiagram-next t u _ i m (Step-IsNext k u (Steps-HasPromises hp h) st d)
