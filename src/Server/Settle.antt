-- ===== src/Server/Settle.antt =====
-- resonate/src/network.rs: what follows when a promise settles. Its own task is fulfilled, the tasks
-- that await it are resumed, its listeners are told; and the promises that are due are timed out.
use resonate_sdk_rs.Prelude.{
  String, Bool, not, ◌&&◌, ◌==◌, List, [], ◌∷◌, ◌++◌, map, Option, none, some, is_some_and,
  for_each, retain, if◌then◌else◌,
}
use resonate_sdk_rs.Prelude.Map.{get, insert, modify, modify_all, values, contains_key}
use resonate_sdk_rs.Prelude.Set
use resonate_sdk_rs.Prelude.Set.{HashSet, is_empty}
use resonate_sdk_rs.Prelude.I64.{ℤ, pos, leb_ℤ, add_i64}
use resonate_sdk_rs.Types.{
  PromiseState, resolved, rejected_timedout, TaskState, suspended, fulfilled, is_pending,
}
use resonate_sdk_rs.Server.{
  Tags, DurablePromise, PromiseRecord, Task, unblock, OutgoingMessage, ServerState, promise_record,
  pending_retry_ttl,
}
use resonate_sdk_rs.Server.Timers.{
  set_t_timeout, del_t_timeout, del_p_timeout, send_execute_message,
}

-- `tags.contains_key("resonate:target")`
unfoldable pub has_target : Tags → Bool
unfolding contains_key
has_target tags = contains_key "resonate:target" tags

unfoldable pub timeout_state : Tags → PromiseState
timeout_state tags =
    if is_some_and (get "resonate:timer" tags) (λ v. v == "true")
    then resolved
    else rejected_timedout

abbrev pub fulfilled_task : String → Task
fulfilled_task id = record {
  id = id;
  state = fulfilled;
  version = pos 0;
  pid = none;
  ttl = none;
  resumes = [];
}

abbrev pub fulfill : Task → Task
fulfill t = record t { state = fulfilled; pid = none; ttl = none; resumes = [] }

module _ {V : Type 0} where
  -- `if let Some(p) = self.promises.get(id) { if let Some(addr) = p.tags.get(..) { send } }`
  unfoldable pub send_to_target : String → ℤ → ServerState V → ServerState V
  send_to_target id version s = elim (get id s.promises) [
    | none ↦ s
    | some p ↦ elim (get "resonate:target" p.tags) [
      | none ↦ s
      | some address ↦ send_execute_message address id version s
    ]
  ]

  -- The case of `enqueue_settle` for a task that is not yet fulfilled.
  unfoldable pub fulfill_own_task : String → ServerState V → ServerState V
  fulfill_own_task promise_id s =
      let s1 = record s { tasks = modify promise_id fulfill s.tasks } in
      let s2 = del_t_timeout promise_id s1 in
      record s2 {
        promises =
            modify_all (λ p. record p { awaiters = Set.remove promise_id p.awaiters }) s2.promises;
      }

  unfoldable pub enqueue_settle : String → ServerState V → ServerState V
  enqueue_settle promise_id s = elim (get promise_id s.tasks) [
    | none ↦
        if is_some_and (get promise_id s.promises) (λ p. has_target p.tags)
        then record s { tasks = insert promise_id (fulfilled_task promise_id) s.tasks }
        else s
    | some t ↦ elim t.state [ fulfilled ↦ s | _ ↦ fulfill_own_task promise_id s ]
  ]

  -- `TaskState::Suspended`: the task is pending again, in a new version.
  unfoldable pub wake : String → ℤ → String → ℤ → ServerState V → ServerState V
  wake promise_id now awaiter_id version s =
      let new_version = add_i64 version (pos 1) in
      let s1 = record s {
        tasks =
            modify awaiter_id
              (λ t. record t {
                state = TaskState.pending;
                version = new_version;
                resumes = promise_id ∷ [];
              })
              s.tasks;
      } in
      let s2 = set_t_timeout awaiter_id 0 (add_i64 now pending_retry_ttl) s1 in
      send_to_target awaiter_id new_version s2

  unfoldable pub note_resume : String → String → ServerState V → ServerState V
  note_resume promise_id awaiter_id s = record s {
    tasks = modify awaiter_id (λ t. record t { resumes = Set.insert promise_id t.resumes }) s.tasks;
  }

  unfoldable pub resume_awaiter : String → ℤ → String → ServerState V → ServerState V
  resume_awaiter promise_id now awaiter_id s = elim (get awaiter_id s.tasks) [
    | none ↦ s
    | some task ↦ elim task.state [
      | suspended ↦ wake promise_id now awaiter_id task.version s
      | fulfilled ↦ s
      | _ ↦ note_resume promise_id awaiter_id s
    ]
  ]

  abbrev pub awaiters_of : Option (DurablePromise V) → HashSet
  awaiters_of none = []
  awaiters_of (some p) = p.awaiters

  abbrev pub clear_awaiters : DurablePromise V → DurablePromise V
  clear_awaiters p = record p { awaiters = [] }

  unfoldable pub resume_awaiters : String → ℤ → ServerState V → ServerState V
  resume_awaiters promise_id now s =
      let s1 =
        for_each (resume_awaiter promise_id now) (awaiters_of (get promise_id s.promises)) s in
      record s1 { promises = modify promise_id clear_awaiters s1.promises }

  abbrev pub clear_subscribers : DurablePromise V → DurablePromise V
  clear_subscribers p = record p { subscribers = [] }

  abbrev pub unblock_message : PromiseRecord V → String → OutgoingMessage V
  unblock_message r address = record { address = address; message = unblock r }

  unfoldable pub notify_subscribers : String → ServerState V → ServerState V
  notify_subscribers promise_id s = elim (get promise_id s.promises) [
    | none ↦ s
    | some p ↦ if is_empty p.subscribers then s else record s {
      promises = modify promise_id clear_subscribers s.promises;
      outgoing = s.outgoing ++ map (unblock_message (promise_record p)) p.subscribers;
    }
  ]

  -- `enqueue_settle`, `resume_awaiters`, `notify_subscribers`, as they follow one another.
  unfoldable pub settle_effects : ℤ → String → ServerState V → ServerState V
  settle_effects now id s = notify_subscribers id (resume_awaiters id now (enqueue_settle id s))

  -- The promise is pending and its deadline has come.
  abbrev pub is_due : ℤ → DurablePromise V → Bool
  is_due now p = is_pending p.state && leb_ℤ p.timeout_at now

  unfoldable pub time_out : ℤ → String → DurablePromise V → ServerState V → ServerState V
  time_out now id p s =
      let s1 = record s {
        promises =
            modify id
              (λ q. record q { state = timeout_state p.tags; settled_at = some p.timeout_at })
              s.promises;
      } in
      settle_effects now id (del_p_timeout id s1)

  unfoldable pub try_auto_timeout : ℤ → String → ServerState V → ServerState V
  try_auto_timeout now id s = elim (get id s.promises) [
    | none ↦ s
    | some p ↦ if is_due now p then time_out now id p s else s
  ]

  -- `p.tags.get("resonate:branch") == Some(&branch)`
  abbrev pub in_branch : String → DurablePromise V → Bool
  in_branch branch p = is_some_and (get "resonate:branch" p.tags) (λ b. b == branch)

  unfoldable pub preload : String → ServerState V → List (PromiseRecord V)
  preload promise_id s = elim (get promise_id s.promises) [
    | none ↦ []
    | some p ↦ elim (get "resonate:branch" p.tags) [
      | none ↦ []
      | some branch ↦
          map promise_record
            (retain (λ q. not (q.id == promise_id) && in_branch branch q) (values s.promises))
    ]
  ]
