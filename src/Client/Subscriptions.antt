-- ===== src/Client/Subscriptions.antt =====
-- resonate/src/resonate.rs and handle.rs: a promise that a handle has seen settled stays so.
use resonate_sdk_rs.Prelude.{
  String, ◌≡◌, refl, ltb, inl, inr, Bool, true, false, not, eq_iff, List, [], ◌∷◌, Option, none,
  some, arith, Option-cases, Bool-cases, is_some_and, for_each_inv,
}
use resonate_sdk_rs.Prelude.Map.{get, insert, modify, contains_key, get-insert, get-modify}
use resonate_sdk_rs.Error.{Result-cases}
use resonate_sdk_rs.Json.{Json}
use resonate_sdk_rs.Types.{is_pending}
use resonate_sdk_rs.Server.{PromiseRecord}
use resonate_sdk_rs.Effects.{Value}
use resonate_sdk_rs.Sender.{created, conflict}
use resonate_sdk_rs.Client.{
  Options, PromiseResult, Watch, send_result, subscribe, unsubscribe, drop_handle, Subscriptions,
  Parts, Client, publish, unblocked, pending_ids, settle_subscription, create_handle_from_id,
  start_acquired, build_promise_create_req, do_run, do_rpc, on_unblock, refresh_one, refresh,
  safe_ttl, result_of,
}

abbrev holds_result : {V : Type 0} → Option (PromiseResult V) → Bool
holds_result none = false
holds_result (some r) = true

-- `ResonateHandle::done`
abbrev pub done : {V : Type 0} → String → Subscriptions V → Bool
done id subs = is_some_and (get id subs) (λ tx. holds_result tx.held)

send_result-holds :
    {V : Type 0} (r : PromiseResult V) (tx : Watch V)
    → holds_result tx.held ≡ true
    → holds_result (send_result r tx).held ≡ true
unfolding send_result
send_result-holds r tx h = elim (Bool-cases (ltb 0 tx.receivers)) [
  | inl o ↦ rw (o) refl
  | inr o ↦ rw (o) h
]

module _ {V : Type 0} (id : String) where
  -- A change of a channel that keeps its result.
  modify-done :
      (k : String) (f : Watch V → Watch V) (subs : Subscriptions V)
      → ((tx : Watch V) → holds_result tx.held ≡ true → holds_result (f tx).held ≡ true)
      → done id subs ≡ true
      → done id (modify k f subs) ≡ true
  modify-done k f subs keeps h = elim (Option-cases (get id subs)) [
    | inl e ↦ absurd (ground arith)
    | inr (tx, e) ↦ ground (arith, get-modify k id f subs, keeps tx)
  ]

  publish-done :
      (k : String) (r : PromiseResult V) (subs : Subscriptions V)
      → done id subs ≡ true
      → done id (publish k r subs) ≡ true
  unfolding publish
  publish-done k r subs h = modify-done k (send_result r) subs (λ tx. send_result-holds r tx) h

  unblocked-done :
      (k : String) (r : PromiseResult V) (subs : Subscriptions V)
      → done id subs ≡ true
      → done id (unblocked k r subs) ≡ true
  unfolding unblocked
  unblocked-done k r subs h = elim (Bool-cases (contains_key k subs)) [
    | inl e ↦ rw (e, unblocked) (publish-done k r subs h)
    | inr e ↦
        rw (e, unblocked)
          (ground (arith, get-insert k id (record { held = some r; receivers = 0 }) subs))
  ]

module _ {J : Json} {W : Type 0} (K : Parts J W) where
  settle_subscription-done :
      (id k : String) (p : PromiseRecord (Value J.Value)) (subs : Subscriptions J.Value)
      → done id subs ≡ true
      → done id (settle_subscription K p k subs) ≡ true
  unfolding settle_subscription
  settle_subscription-done id k p subs h = elim (Bool-cases (is_pending p.state)) [
    | inl e ↦ rw (e, settle_subscription) h
    | inr e ↦ rw (e, settle_subscription) (publish-done id k (result_of K p) subs h)
  ]

  -- A settled promise stays settled for the client.
  abbrev Done : String → Client J.Value W → Type 0
  Done id c = done id c.subscriptions ≡ true

  create_handle_from_id-Done :
      (id k : String) (c : Client J.Value W) → Done id c → Done id (create_handle_from_id K k c).1
  unfolding create_handle_from_id
  create_handle_from_id-Done id k c h = elim (Option-cases (get k c.subscriptions)) [
    | inr (o, e) ↦
        rw (e, create_handle_from_id)
          (modify-done id k subscribe c.subscriptions (λ tx held. held) h)
    | inl e ↦
        let tx : Watch J.Value = record { held = none; receivers = 1 } in
        let subs = insert k tx c.subscriptions in
        let d : done id subs ≡ true =
          ground (arith, eq_iff k id, get-insert k id tx c.subscriptions) in
        elim (Result-cases (K.promise_register_listener k K.unicast c.world).0) [
          | inr (x, o) ↦
              rw (e, o, create_handle_from_id)
                (modify-done id k unsubscribe subs (λ tx held. held) d)
          | inl (p, o) ↦ rw (e, o, create_handle_from_id) (settle_subscription-done id k p subs d)
        ]
  ]

  do_run-Done :
      (id k func_name : String) (args : J.Value) (opts : Options) (c : Client J.Value W)
      → Done id c
      → Done id (do_run K k func_name args opts c).1
  unfolding do_run
  do_run-Done id k func_name args opts c h = elim (Bool-cases (not (K.contains func_name))) [
    | inl e ↦ rw (e, do_run) h
    | inr e ↦
        elim (Result-cases (build_promise_create_req K k func_name args opts (K.now_ms c.world))) [
          | inr (x, o) ↦ rw (e, o, do_run) h
          | inl (action, o) ↦
              let answer = K.task_create_or_conflict K.pid (safe_ttl K) action c.world in
              elim (Result-cases answer.0) [
                | inr (x, u) ↦ rw (e, o, u, do_run) h
                | inl (conflict, u) ↦
                    rw (e, o, u, do_run)
                      (create_handle_from_id-Done id k (record c { world = answer.1 }) h)
                | inl (created result, u) ↦
                    rw (e, o, u, do_run)
                      (create_handle_from_id-Done id k
                        (record c { world = start_acquired K result answer.1 }) h)
              ]
        ]
  ]

  do_rpc-Done :
      (id k func_name : String) (args : J.Value) (opts : Options) (c : Client J.Value W)
      → Done id c
      → Done id (do_rpc K k func_name args opts c).1
  unfolding do_rpc
  do_rpc-Done id k func_name args opts c h =
      elim (Result-cases (build_promise_create_req K k func_name args opts (K.now_ms c.world))) [
        | inr (x, o) ↦ rw (o, do_rpc) h
        | inl (req, o) ↦
            let answer = K.promise_create req c.world in
            elim (Result-cases answer.0) [
              | inr (x, u) ↦ rw (o, u, do_rpc) h
              | inl (p, u) ↦
                  rw (o, u, do_rpc)
                    (create_handle_from_id-Done id k (record c { world = answer.1 }) h)
            ]
      ]

  pub refresh_one-Done :
      (id k : String) (c : Client J.Value W) → Done id c → Done id (refresh_one K k c)
  unfolding refresh_one
  refresh_one-Done id k c h =
      elim (Result-cases (K.promise_register_listener k K.unicast c.world).0) [
        | inr (x, o) ↦ rw (o, refresh_one) h
        | inl (p, o) ↦ rw (o, refresh_one) (settle_subscription-done id k p c.subscriptions h)
      ]

  refresh-Done : (id : String) (c : Client J.Value W) → Done id c → Done id (refresh K c)
  unfolding refresh
  refresh-Done id c h =
      for_each_inv (Done id) (refresh_one K) (λ k d. refresh_one-Done id k d)
        (pending_ids c.subscriptions) c h

  -- What happens to a client: its requests, the end of a handle, an unblock message, a round of the
  -- refresh.
  pub data Move : Type 0 where
    gets : String → Move
    drops : String → Move
    runs : String → String → J.Value → Options → Move
    calls : String → String → J.Value → Options → Move
    unblocks : J.Value → Move
    refreshes : Move

  unfoldable pub move : Move → Client J.Value W → Client J.Value W
  move (gets id) c = (create_handle_from_id K id c).1
  move (drops id) c = drop_handle K id c
  move (runs id func_name args opts) c = (do_run K id func_name args opts c).1
  move (calls id func_name args opts) c = (do_rpc K id func_name args opts c).1
  move (unblocks promise) c = on_unblock K promise c
  move refreshes c = refresh K c

  unfoldable pub moves : List Move → Client J.Value W → Client J.Value W
  moves [] c = c
  moves (m ∷ ms) c = moves ms (move m c)

  move-Done : (id : String) (m : Move) (c : Client J.Value W) → Done id c → Done id (move m c)
  unfolding move on_unblock drop_handle
  move-Done id (gets k) c h = create_handle_from_id-Done id k c h
  move-Done id (drops k) c h = modify-done id k unsubscribe c.subscriptions (λ tx held. held) h
  move-Done id (runs k func_name args opts) c h = do_run-Done id k func_name args opts c h
  move-Done id (calls k func_name args opts) c h = do_rpc-Done id k func_name args opts c h
  move-Done id (unblocks promise) c h = unblocked-done id _ _ c.subscriptions h
  move-Done id refreshes c h = refresh-Done id c h

  -- A handle that is done stays done, whatever the client asks, is told or refreshes afterwards, whichever
  -- handles it drops, and whatever its parts answer.
  pub moves-done :
      (id : String) (ms : List Move) (c : Client J.Value W)
      → done id c.subscriptions ≡ true
      → done id (moves ms c).subscriptions ≡ true
  unfolding moves
  moves-done id [] c h = h
  moves-done id (m ∷ ms) c h = moves-done id ms (move m c) (move-Done id m c h)
