-- ===== src/Effects/Monotonic.antt =====
-- resonate/src/effects.rs: the settled records of the cache.
use resonate_sdk_rs.Prelude.{
  String, ◌≡◌, refl, inl, inr, false, eq_iff, List, [], ◌∷◌, some, arith, Bool-cases, Option-cases,
  for_each_inv,
}
use resonate_sdk_rs.Prelude.Map.{get, get-insert}
use resonate_sdk_rs.Error.{Result, ok, err, Result-cases}
use resonate_sdk_rs.Types.{is_pending}
use resonate_sdk_rs.Server.{PromiseRecord}
use resonate_sdk_rs.Effects.{
  Value, FenceResult, Codec, Sender, Effects, data_as_ref, insert_monotonic, absorb_one, absorb,
  conclude, create_promise, settle_outcome, settle_uncached, settle_promise, Call, create, settle,
  call, run,
}

module _ {V : Type 0} (id : String) (r : PromiseRecord (Value V))
    (settled : is_pending r.state ≡ false) where
  abbrev Has : Effects V → Type 0
  Has e = get id e.cache ≡ some r

  insert_monotonic-Has :
      (d : PromiseRecord (Value V)) (e : Effects V) → Has e → Has (insert_monotonic d e)
  unfolding insert_monotonic
  insert_monotonic-Has d e h = ground (arith, eq_iff d.id id, get-insert d.id id d e.cache)

  absorb-Has :
      (C : Codec V) (records : List (PromiseRecord (Value V))) (e : Effects V)
      → Has e
      → Has (absorb C records e)
  unfolding absorb absorb_one
  absorb-Has C records e h = for_each_inv Has (absorb_one C) one records e h
    where
      one : (d : PromiseRecord (Value V)) (e : Effects V) → Has e → Has (absorb_one C d e)
      one d e k = elim (Result-cases (C.decode_promise d)) [
        | inl (x, q) ↦ rw (q, absorb_one) (insert_monotonic-Has x e k)
        | inr (x, q) ↦ rw (q, absorb_one) k
      ]

  conclude-Has :
      {W : Type 0} (C : Codec V) (e : Effects V) (answer : Result (FenceResult V) × W)
      → Has e
      → Has (conclude C e answer).2
  unfolding conclude
  conclude-Has C e (err x, w) h = h
  conclude-Has C e (ok res, w) h = elim (Result-cases (C.decode_promise res.promise)) [
    | inl (d, q) ↦ rw (q, conclude) (insert_monotonic-Has d _ (absorb-Has C res.preload e h))
    | inr (x, q) ↦ rw (q, conclude) (absorb-Has C res.preload e h)
  ]

  settle_uncached-Has :
      {W : Type 0} (C : Codec V) (S : Sender W V) (k : String) (result : Result V) (w : W)
      (e : Effects V)
      → Has e
      → Has (settle_uncached C S k result w e).2
  unfolding settle_uncached
  settle_uncached-Has C S k result w e h = elim (Result-cases (settle_outcome C S result)) [
    | inr (x, o) ↦ rw (o, settle_uncached) h
    | inl (outcome, o) ↦ elim (Result-cases (C.encode outcome.1)) [
      | inl (value, q) ↦ rw (o, q, settle_uncached) (conclude-Has C e _ h)
      | inr (x, q) ↦ rw (o, q, settle_uncached) h
    ]
  ]

  call-Has :
      {W : Type 0} (C : Codec V) (S : Sender W V) (c : Call C S) (w : W) (e : Effects V)
      → Has e
      → Has (call C S c w e).2
  unfolding create_promise settle_promise
  call-Has C S (create req) w e h = elim (Option-cases (get req.id e.cache)) [
    | inr (cached, q) ↦ rw (q, create_promise) h
    | inl q ↦ elim (Result-cases (C.encode (data_as_ref C.null req.param))) [
      | inl (param, o) ↦ rw (q, o, create_promise) (conclude-Has C e _ h)
      | inr (x, o) ↦ rw (q, o, create_promise) h
    ]
  ]
  call-Has C S (settle k result) w e h = elim (Option-cases (get k e.cache)) [
    | inl q ↦ rw (q, settle_promise) (settle_uncached-Has C S k result w e h)
    | inr (cached, q) ↦ elim (Bool-cases (is_pending cached.state)) [
      | inl o ↦ rw (q, o, settle_promise) (settle_uncached-Has C S k result w e h)
      | inr o ↦ rw (q, o, settle_promise) h
    ]
  ]

  run-Has :
      {W : Type 0} (C : Codec V) (S : Sender W V) (cs : List (Call C S)) (w : W) (e : Effects V)
      → Has e
      → Has (run C S cs w e).1
  unfolding run
  run-Has C S [] w e h = h
  run-Has C S (c ∷ cs) w e h = run-Has C S cs _ _ (call-Has C S c w e h)

-- The answer that a call gets where the record is settled in the cache.
module _ {W V : Type 0} (C : Codec V) (S : Sender W V) where
  abbrev target : Call C S → String
  target (create req) = req.id
  target (settle k result) = k

  cached_answer :
      (c : Call C S) (w : W) (e : Effects V) (r : PromiseRecord (Value V))
      → get (target c) e.cache ≡ some r
      → is_pending r.state ≡ false
      → call C S c w e ≡ (ok r, w, e)
  unfolding create_promise settle_promise
  cached_answer (create req) w e r q o = rw (q, create_promise) refl
  cached_answer (settle k result) w e r q o = rw (q, o, settle_promise) refl

  -- Once the cache holds a settled record of a promise, then after any sequence of calls, whatever the
  -- server and the codec answer, a call for that promise returns that record, and reaches neither the
  -- server nor the cache.
  pub run-settled :
      (cs : List (Call C S)) (c : Call C S) (w : W) (e : Effects V) (r : PromiseRecord (Value V))
      → get (target c) e.cache ≡ some r
      → is_pending r.state ≡ false
      → call C S c (run C S cs w e).0 (run C S cs w e).1
        ≡ (ok r, (run C S cs w e).0, (run C S cs w e).1)
  run-settled cs c w e r q o = cached_answer c _ _ r (run-Has (target c) r o C S cs w e q) o
