-- ===== src/Client/Refresh.antt =====
-- resonate/src/resonate.rs: a lost unblock message is made up for by the refresh.
use resonate_sdk_rs.Prelude.{
  String, ◌≡◌, ◌<◌, ltb, is_some_and, refl, ap, ◌∙◌, inl, inr, Bool, true, false, ◌||◌, ◌==◌,
  eq_iff, eq_refl, List, [], ◌∷◌, none, some, arith, Option-cases, Bool-cases, for_each,
  for_each_inv,
}
use resonate_sdk_rs.Prelude.Map.{get, get-modify}
use resonate_sdk_rs.Error.{ok, Result-cases}
use resonate_sdk_rs.Json.{Json}
use resonate_sdk_rs.Types.{is_pending}
use resonate_sdk_rs.Server.{PromiseRecord}
use resonate_sdk_rs.Effects.{Value}
use resonate_sdk_rs.Client.{
  PromiseResult, Watch, send_result, Subscriptions, Parts, Client, publish, pending_ids,
  settle_subscription, refresh_one, refresh, result_of,
}
use resonate_sdk_rs.Client.Subscriptions.{done, refresh_one-Done}

abbrev lists : String → List String → Bool
lists id [] = false
lists id (x ∷ xs) = x == id || lists id xs

-- A channel that a receiver still listens to.
abbrev is_heard : {V : Type 0} → String → Subscriptions V → Bool
is_heard id subs = is_some_and (get id subs) (λ tx. ltb 0 tx.receivers)

pending_ids-lists :
    {V : Type 0} (id : String) (subs : Subscriptions V) (tx : Watch V)
    → get id subs ≡ some tx
    → tx.held ≡ none
    → lists id (pending_ids subs) ≡ true
unfolding get pending_ids
pending_ids-lists id [] tx h o = absurd (ground arith)
pending_ids-lists id ((k, x) ∷ subs) tx h o = elim (Bool-cases (k == id)) [
  | inl e ↦ ground arith
  | inr e ↦ elim (Option-cases x.held) [
    | inl u ↦ rw (u) (ground (arith, pending_ids-lists id subs tx (ground arith) o))
    | inr (r, u) ↦ rw (u) (pending_ids-lists id subs tx (ground arith) o)
  ]
]

send_result-heard :
    {V : Type 0} (r : PromiseResult V) (tx : Watch V)
    → ltb 0 tx.receivers ≡ true
    → (ltb 0 (send_result r tx).receivers ≡ true) × ((send_result r tx).held ≡ some r)
unfolding send_result
send_result-heard r tx h = rw h (h, refl)

module _ {J : Json} {W : Type 0} (K : Parts J W) (id : String) where
  refresh_one-heard :
      (k : String) (c : Client J.Value W)
      → is_heard id c.subscriptions ≡ true
      → is_heard id (refresh_one K k c).subscriptions ≡ true
  unfolding refresh_one settle_subscription publish
  refresh_one-heard k c h =
      elim (Result-cases (K.promise_register_listener k K.unicast c.world).0) [
        | inr (x, o) ↦ rw (o, refresh_one) h
        | inl (p, o) ↦ elim (Bool-cases (is_pending p.state)) [
          | inl e ↦ rw (o, refresh_one, settle_subscription, e) h
          | inr e ↦ elim (Option-cases (get id c.subscriptions)) [
            | inl u ↦ absurd (ground arith)
            | inr (tx, u) ↦
                rw (o, refresh_one, settle_subscription, e)
                  (ground (
                    arith,
                    get-modify k id (send_result (result_of K p)) c.subscriptions,
                    send_result-heard (result_of K p) tx,
                  ))
          ]
        ]
      ]

  -- Whenever the server is asked for the promise, the request succeeds and tells that it is settled.
  abbrev pub IsSettled : Type 0
  IsSettled =
      (w : W)
      → (p : PromiseRecord (Value J.Value)) × ((K.promise_register_listener id K.unicast w).0
          ≡ ok p)
        × (is_pending p.state ≡ false)

  refresh_one-settles :
      (c : Client J.Value W)
      → IsSettled
      → is_heard id c.subscriptions ≡ true
      → done id (refresh_one K id c).subscriptions ≡ true
  unfolding refresh_one settle_subscription publish
  refresh_one-settles c settled h =
      let (p, o, e) = settled c.world in
      elim (Option-cases (get id c.subscriptions)) [
        | inl u ↦ absurd (ground arith)
        | inr (tx, u) ↦
            rw (o, refresh_one, settle_subscription, e)
              (ground (
                arith,
                eq_refl id,
                get-modify id id (send_result (result_of K p)) c.subscriptions,
                send_result-heard (result_of K p) tx,
              ))
      ]

  rounds-settle :
      (ids : List String) (c : Client J.Value W)
      → IsSettled
      → lists id ids ≡ true
      → is_heard id c.subscriptions ≡ true
      → done id (for_each (refresh_one K) ids c).subscriptions ≡ true
  rounds-settle [] c settled m h = absurd (ground arith)
  rounds-settle (k ∷ ks) c settled m h = elim (Bool-cases (k == id)) [
    | inl e ↦
        let same : k ≡ id = ground (arith, eq_iff k id) in
        for_each_inv (λ d. done id d.subscriptions ≡ true) (refresh_one K)
          (λ x d. refresh_one-Done K id x d) ks (refresh_one K k c)
          (ap (λ x. done id (refresh_one K x c).subscriptions) same
            ∙ refresh_one-settles c settled h)
    | inr e ↦ rounds-settle ks (refresh_one K k c) settled (ground arith) (refresh_one-heard k c h)
  ]

  -- A handle that is alive and whose promise is settled is done after one round of the refresh, whether or
  -- not an unblock message came, provided that the request for the promise succeeds in whatever state of
  -- the world it is made, and its answer is the settled promise; the requests for the other promises may
  -- fail.
  pub refresh-done :
      (c : Client J.Value W) (tx : Watch J.Value)
      → get id c.subscriptions ≡ some tx
      → tx.held ≡ none
      → 0 < tx.receivers
      → IsSettled
      → done id (refresh K c).subscriptions ≡ true
  unfolding refresh
  refresh-done c tx h empty alive settled =
      rounds-settle (pending_ids c.subscriptions) c settled
        (pending_ids-lists id c.subscriptions tx h empty) (ground arith)
