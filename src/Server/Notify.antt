-- ===== src/Server/Notify.antt =====
-- resonate/src/network.rs: the messages to the subscribers of a promise that settles.
use resonate_sdk_rs.Prelude.{
  String, ◌≡◌, refl, ap, ◌∙◌, ◌⊎◌, inl, inr, true, false, ◌==◌, eq_iff, eq_refl, List, [], ◌∷◌,
  ◌++◌, map, some, arith, Bool-cases, Option-cases, subst,
}
use resonate_sdk_rs.Prelude.Map.{get, modify_all, get-modify, get-modify_all}
use resonate_sdk_rs.Prelude.Set
use resonate_sdk_rs.Prelude.Set.{contains, is_empty}
use resonate_sdk_rs.Prelude.I64.{ℤ}
use resonate_sdk_rs.Types.{PromiseState, is_pending, is_fulfilled}
use resonate_sdk_rs.Server.{
  DurablePromise, PromiseRecord, OutgoingMessage, ServerState, promise_record,
}
use resonate_sdk_rs.Json.{Json}
use resonate_sdk_rs.Server.Handler.{promise, respond}
use resonate_sdk_rs.Server.Request.{settle_state_of, get_or_null}
use resonate_sdk_rs.Server.Timers.{del_p_timeout, del_t_timeout}
use resonate_sdk_rs.Server.Settle.{
  fulfill_own_task, enqueue_settle, clear_awaiters, awaiters_of, resume_awaiters, unblock_message,
  notify_subscribers, settle_effects,
}
use resonate_sdk_rs.Server.Promises.{settled_promise, settle_pending, settle_at}
use resonate_sdk_rs.Server.Records.{resume_all-promises}

-- A message stands in a list of outgoing messages.
pub data IsSent {V : Type 0} (m : OutgoingMessage V) : List (OutgoingMessage V) → Type 0 where
  first : (ms : List (OutgoingMessage V)) → IsSent m (m ∷ ms)
  later : (n : OutgoingMessage V) (ms : List (OutgoingMessage V)) → IsSent m ms → IsSent m (n ∷ ms)

contains_filled : (k : String) (ks : List String) → contains k ks ≡ true → is_empty ks ≡ false
unfolding contains
contains_filled k [] e = absurd (ground arith)
contains_filled k (j ∷ ks) e = refl

module _ {V : Type 0} where
  IsSent-append :
      (m : OutgoingMessage V) (xs ys : List (OutgoingMessage V)) → IsSent m ys → IsSent m (xs ++ ys)
  IsSent-append m [] ys h = h
  IsSent-append m (x ∷ xs) ys h = later x (xs ++ ys) (IsSent-append m xs ys h)

  IsSent-map :
      (r : PromiseRecord V) (address : String) (addresses : List String)
      → contains address addresses ≡ true
      → IsSent (unblock_message r address) (map (unblock_message r) addresses)
  unfolding contains
  IsSent-map r address [] e = absurd (ground arith)
  IsSent-map r address (a ∷ addresses) e = elim (Bool-cases (a == address)) [
    | inl i ↦
        subst (λ x. IsSent (unblock_message r x) (map (unblock_message r) (a ∷ addresses)))
          ((eq_iff a address).0 i) (first (map (unblock_message r) addresses))
    | inr i ↦ later _ _ (IsSent-map r address addresses (ground arith))
  ]

  -- The promise at `id` has the record `r`, and the address listens to it.
  abbrev Listens : String → PromiseRecord V → String → ServerState V → Type 0
  Listens address r id s =
      (p : DurablePromise V) × (get id s.promises ≡ some p)
      × (promise_record p ≡ r)
      × (contains address p.subscribers ≡ true)

  enqueue_settle-promises :
      (id : String) (s : ServerState V)
      → ((enqueue_settle id s).promises ≡ s.promises)
        ⊎ ((enqueue_settle id s).promises
            ≡ modify_all (λ p. record p { awaiters = Set.remove id p.awaiters }) s.promises)
  unfolding enqueue_settle fulfill_own_task del_t_timeout
  enqueue_settle-promises id s = elim (Option-cases (get id s.tasks)) [
    | inl e ↦ inl (rw (e, enqueue_settle) (ground arith))
    | inr (t, e) ↦ elim (Bool-cases (is_fulfilled t.state)) [
      | inl o ↦ inl (rw (e, enqueue_settle) (ground arith))
      | inr o ↦ inr (rw (e, enqueue_settle) (ground arith))
    ]
  ]

  enqueue_settle-Listens :
      (address : String) (r : PromiseRecord V) (id : String) (s : ServerState V)
      → Listens address r id s
      → Listens address r id (enqueue_settle id s)
  enqueue_settle-Listens address r id s (p, e, same, c) = elim (enqueue_settle-promises id s) [
    | inl kept ↦ (p, ap (get id) kept ∙ e, same, c)
    | inr freed ↦ (
      record p { awaiters = Set.remove id p.awaiters },
      ap (get id) freed
          ∙ ground (
            arith,
            get-modify_all id (λ q. record q { awaiters = Set.remove id q.awaiters }) s.promises,
          ),
      same,
      c,
    )
  ]

  resume_awaiters-Listens :
      (address : String) (r : PromiseRecord V) (id : String) (now : ℤ) (s : ServerState V)
      → Listens address r id s
      → Listens address r id (resume_awaiters id now s)
  unfolding resume_awaiters
  resume_awaiters-Listens address r id now s (p, e, same, c) = (
    clear_awaiters p,
    ground (
      arith,
      get-modify id id clear_awaiters s.promises,
      eq_refl id,
      resume_all-promises id now (awaiters_of (get id s.promises)) s,
    ),
    same,
    c,
  )

  notify_subscribers_sends :
      (address : String) (r : PromiseRecord V) (id : String) (s : ServerState V)
      → Listens address r id s
      → IsSent (unblock_message r address) (notify_subscribers id s).outgoing
  unfolding notify_subscribers
  notify_subscribers_sends address r id s (p, e, same, c) =
      rw (e, contains_filled address p.subscribers c, notify_subscribers)
        (IsSent-append _ s.outgoing _ (
          subst
            (λ x.
              IsSent (unblock_message x address)
                (map (unblock_message (promise_record p)) p.subscribers))
            same (IsSent-map (promise_record p) address p.subscribers c)))

  settle_pending_notifies :
      (now : ℤ) (id address : String) (state : PromiseState) (value : V) (s : ServerState V)
      (p : DurablePromise V)
      → get id s.promises ≡ some p
      → contains address p.subscribers ≡ true
      → IsSent
          (unblock_message (promise_record (settled_promise now state value p)) address)
          (settle_effects now id (settle_pending now id state value s)).outgoing
  unfolding settle_effects settle_pending del_p_timeout
  settle_pending_notifies now id address state value s p e c =
      notify_subscribers_sends address _ id _ (
        resume_awaiters-Listens address _ id now _ (
          enqueue_settle-Listens address _ id _ (
            settled_promise now state value p,
            ground
                (arith, get-modify id id (settled_promise now state value) s.promises, eq_refl id),
            refl,
            c,
          )))

module _ (J : Json) where
  -- A promise.settle of a pending promise sends an unblock message, with the record that it returns, to
  -- each address that listens to the promise.
  pub settle_at_notifies :
      (now : ℤ) (corr_id req : J.Value) (id address : String) (s : ServerState J.Value)
      (p : DurablePromise J.Value)
      → get id s.promises ≡ some p
      → is_pending p.state ≡ true
      → contains address p.subscribers ≡ true
      → (r : PromiseRecord J.Value) × ((settle_at J now corr_id req id s).0
          ≡ respond "promise.settle" corr_id 200 (promise (some r)))
        × IsSent (unblock_message r address) (settle_at J now corr_id req id s).1.outgoing
  unfolding settle_at
  settle_at_notifies now corr_id req id address s p e o c = (
    promise_record (settled_promise now (settle_state_of J req) (get_or_null J req "value") p),
    rw (e, o, settle_at),
    rw (e, o, settle_at)
        (settle_pending_notifies now id address (settle_state_of J req) (get_or_null J req "value")
          s p e c),
  )
