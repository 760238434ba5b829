-- ===== src/Server/Step.antt =====
-- The transitions of the server, as an abstract system: what one write of resonate/src/network.rs may
-- do to the promises, the tasks and their deadlines, and when. `Ok` restricts the states in which a
-- promise may be settled, and whether a task may be leased.
pub mod Settle
pub mod Promises
pub mod Lease
pub mod Create
pub mod Fulfill
pub mod Suspend
pub mod Tick
pub mod Apply
use resonate_sdk_rs.Prelude.{
  ℕ, String, ◌≡◌, ◌≢◌, refl, Bool, true, false, ◌&&◌, List, Option, none, some, and_then, arith,
  if◌then◌else◌,
}
use mathlib.Core.Option
use resonate_sdk_rs.Prelude.Map.{HashMap, get, insert, modify, modify_all}
use resonate_sdk_rs.Prelude.I64.{ℤ, pos, add_i64}
use resonate_sdk_rs.Types.{
  PromiseState, TaskState, pending, acquired, suspended, halted, fulfilled, is_pending,
  is_fulfilled,
}
use resonate_sdk_rs.Server.{DurablePromise, Task, ScheduleStub, OutgoingMessage, ServerState}
use resonate_sdk_rs.Server.Timers.{set_p_timeout, del_p_timeout, set_t_timeout, del_t_timeout}
use resonate_sdk_rs.Server.Settle.{has_target, fulfilled_task}

-- The kind of deadline that a task has: 0 for its next dispatch, 1 for the end of its lease.
abbrev pub timer_typ : TaskState → Option ℕ
timer_typ pending = some 0
timer_typ acquired = some 1
timer_typ _ = none

module _ {V : Type 0} where
  -- The deadline that the server keeps of a promise.
  abbrev pub deadline : DurablePromise V → Option ℤ
  deadline p = if is_pending p.state && has_target p.tags then some p.timeout_at else none

  -- What a promise never loses.
  pub record SamePromise (p q : DurablePromise V) : Type 0 where
    pub same_id : q.id ≡ p.id
    pub same_param : q.param ≡ p.param
    pub same_tags : q.tags ≡ p.tags
    pub same_timeout_at : q.timeout_at ≡ p.timeout_at
    pub same_created_at : q.created_at ≡ p.created_at

  -- How a promise settled.
  pub record SameSettlement (p q : DurablePromise V) : Type 0 where
    pub same_state : q.state ≡ p.state
    pub same_value : q.value ≡ p.value
    pub same_settled_at : q.settled_at ≡ p.settled_at

-- The life of a task, with its version.
pub data Move (a : TaskState) (v : ℤ) (b : TaskState) (w : ℤ) : Type 0 where
  acquires : a ≡ pending → b ≡ acquired → w ≡ v → Move a v b w
  releases : a ≡ acquired → b ≡ pending → w ≡ add_i64 v (pos 1) → Move a v b w
  wakes : a ≡ suspended → b ≡ pending → w ≡ add_i64 v (pos 1) → Move a v b w
  suspends : a ≡ acquired → b ≡ suspended → w ≡ v → Move a v b w
  fulfills : is_fulfilled a ≡ false → b ≡ fulfilled → w ≡ v → Move a v b w

pub record TaskMove (t u : Task) : Type 0 where
  pub same_id : u.id ≡ t.id
  pub move : Move t.state t.version u.state u.version

-- What the writes may do: the states in which a promise may be settled, and whether a pending task may be
-- leased.
pub record Rules : Type 1 where
  pub settle : PromiseState → Type 0
  pub lease : Type 0

-- The states that a task may move to.
abbrev pub Permits : Rules → TaskState → Type 0
Permits Ok acquired = Ok.lease
Permits Ok _ = Unit

abbrev pub anything : Rules
anything = record { settle = λ _. Unit; lease = Unit }

-- A task that stops may move so.
pub Permits-stopped : (Ok : Rules) (a : TaskState) → timer_typ a ≡ none → Permits Ok a
Permits-stopped Ok pending e = tt
Permits-stopped Ok acquired e = absurd (ground arith)
Permits-stopped Ok suspended e = tt
Permits-stopped Ok halted e = tt
Permits-stopped Ok fulfilled e = tt

-- Nothing but the resumes of a task changes.
pub record SameTask (t u : Task) : Type 0 where
  pub same_id : u.id ≡ t.id
  pub same_state : u.state ≡ t.state
  pub same_version : u.version ≡ t.version

module _ {V : Type 0} where
  -- A new promise with its task, and their deadlines.
  abbrev pub spawn : String → DurablePromise V → Task → ℕ → ℤ → ServerState V → ServerState V
  spawn id p t typ at s =
      let s1 = record s { promises = insert id p s.promises } in
      let s2 = if has_target p.tags then set_p_timeout id p.timeout_at s1 else s1 in
      set_t_timeout id typ at (record s2 { tasks = insert id t s2.tasks })

  pub data Step (Ok : Rules) (s : ServerState V) : ServerState V → Type 0 where
    -- a pending promise settles, and its deadline goes
    settles :
        (id : String) (f : DurablePromise V → DurablePromise V) {p : DurablePromise V}
        → get id s.promises ≡ some p
        → is_pending p.state ≡ true
        → SamePromise p (f p)
        → Ok.settle (f p).state
        → Step Ok s (del_p_timeout id (record s { promises = modify id f s.promises }))
    -- awaiters and subscribers come and go
    links :
        (id : String) (f : DurablePromise V → DurablePromise V)
        → ((p : DurablePromise V) → SamePromise p (f p) × SameSettlement p (f p))
        → Step Ok s (record s { promises = modify id f s.promises })
    links_all :
        (f : DurablePromise V → DurablePromise V)
        → ((p : DurablePromise V) → SamePromise p (f p) × SameSettlement p (f p))
        → Step Ok s (record s { promises = modify_all f s.promises })
    -- a promise with no deadline is created, settled or with no target
    creates :
        (id : String) (p : DurablePromise V)
        → get id s.promises ≡ none
        → p.id ≡ id
        → deadline p ≡ none
        → Step Ok s (record s { promises = insert id p s.promises })
    -- a pending promise is created together with its task
    spawns :
        (id : String) (p : DurablePromise V) (t : Task) (typ : ℕ) (at : ℤ)
        → get id s.promises ≡ none
        → p.id ≡ id
        → is_pending p.state ≡ true
        → t.id ≡ id
        → timer_typ t.state ≡ some typ
        → Step Ok s (spawn id p t typ at s)
    -- a promise that has no task gets a fulfilled one
    absorbs :
        (id : String) {p : DurablePromise V}
        → get id s.tasks ≡ none
        → get id s.promises ≡ some p
        → Step Ok s (record s { tasks = insert id (fulfilled_task id) s.tasks })
    -- a task moves to a state with a deadline, or to one without
    moves :
        (id : String) (f : Task → Task) (typ : ℕ) (at : ℤ) {t : Task}
        → get id s.tasks ≡ some t
        → TaskMove t (f t)
        → timer_typ (f t).state ≡ some typ
        → Permits Ok (f t).state
        → Step Ok s (set_t_timeout id typ at (record s { tasks = modify id f s.tasks }))
    stops :
        (id : String) (f : Task → Task) {t : Task}
        → get id s.tasks ≡ some t
        → TaskMove t (f t)
        → timer_typ (f t).state ≡ none
        → Step Ok s (del_t_timeout id (record s { tasks = modify id f s.tasks }))
    -- the resumes of a task change
    notes :
        (id : String) (f : Task → Task)
        → ((t : Task) → SameTask t (f t))
        → Step Ok s (record s { tasks = modify id f s.tasks })
    -- a deadline is put off
    renews :
        (id : String) (typ : ℕ) (at : ℤ) {t : Task}
        → get id s.tasks ≡ some t
        → timer_typ t.state ≡ some typ
        → Step Ok s (set_t_timeout id typ at s)
    -- what the promises and the tasks do not depend on
    sends : (o : List (OutgoingMessage V)) → Step Ok s (record s { outgoing = o })
    reschedules : (m : HashMap (ScheduleStub V)) → Step Ok s (record s { schedules = m })

  pub data Steps (Ok : Rules) (s : ServerState V) : ServerState V → Type 0 where
    here : Steps Ok s s
    next : {t u : ServerState V} → Steps Ok s t → Step Ok t u → Steps Ok s u

  pub Steps-trans :
      {Ok : Rules} {s t u : ServerState V} → Steps Ok s t → Steps Ok t u → Steps Ok s u
  Steps-trans h here = h
  Steps-trans h (next k st) = next (Steps-trans h k) st
