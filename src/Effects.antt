-- ===== src/Effects.antt =====
-- resonate/src/effects.rs (with the request types of resonate/src/types.rs): the cache of promise
-- records that an execution tree shares, and its two operations. The codec and the sender are
-- interfaces; the state of the world behind the sender is a type `W` that only the sender changes.
pub mod Monotonic
use resonate_sdk_rs.Prelude.{
  String, Bool, true, false, List, [], ◌∷◌, Option, none, some, for_each, is_some_and, not,
  unwrap_or, if◌then◌else◌,
}
use resonate_sdk_rs.Prelude.Map.{HashMap, get, insert}
use resonate_sdk_rs.Prelude.I64.{ℤ}
use resonate_sdk_rs.Error.{Error, Result, ok, err, Serde, converted, fails, from_serde}
use resonate_sdk_rs.Types.{is_pending}
use resonate_sdk_rs.Server.{Tags, PromiseRecord}

-- `types::Value`
pub record Value (V : Type 0) : Type 0 where
  pub headers : Option (HashMap String)
  pub «data» : Option V

pub data SettleState : Type 0 where
  resolved rejected rejected_canceled : SettleState

pub record PromiseCreateReq (V : Type 0) : Type 0 where
  pub id : String
  pub timeout_at : ℤ
  pub param : Value V
  pub tags : Tags

pub record PromiseSettleReq (V : Type 0) : Type 0 where
  pub id : String
  pub state : SettleState
  pub value : Value V

-- The answer of `task.fence`: the promise, and its siblings.
pub record FenceResult (V : Type 0) : Type 0 where
  pub promise : PromiseRecord (Value V)
  pub preload : List (PromiseRecord (Value V))

-- resonate/src/codec.rs, as far as this component calls it, and `serde_json::to_value` of what a
-- function returns.
pub record Codec (V : Type 0) : Type 0 where
  pub null : V
  pub to_value : V → Serde V
  pub encode : V → Result (Value V)
  pub decode_promise : PromiseRecord (Value V) → Result (PromiseRecord (Value V))
  pub encode_error : Error → V

-- resonate/src/send.rs, as far as this component calls it.
pub record Sender (W V : Type 0) : Type 0 where
  pub task_fence_create : String → ℤ → PromiseCreateReq V → W → Result (FenceResult V) × W
  pub task_fence_settle : String → ℤ → PromiseSettleReq V → W → Result (FenceResult V) × W

pub record Effects (V : Type 0) : Type 0 where
  pub task_id : String
  pub task_version : ℤ
  pub cache : HashMap (PromiseRecord (Value V))

-- `Value::data_as_ref`
abbrev pub data_as_ref : {V : Type 0} → V → Value V → V
data_as_ref null v = unwrap_or v.«data» null

module _ {V : Type 0} where
  unfoldable pub insert_monotonic : PromiseRecord (Value V) → Effects V → Effects V
  insert_monotonic r e =
      if is_some_and (get r.id e.cache) (λ old. not (is_pending old.state))
      then e
      else record e { cache = insert r.id r e.cache }

module _ {V : Type 0} (C : Codec V) where
  unfoldable pub absorb_one : PromiseRecord (Value V) → Effects V → Effects V
  absorb_one r e = elim (C.decode_promise r) [ ok d ↦ insert_monotonic d e | err x ↦ e ]

  unfoldable pub absorb : List (PromiseRecord (Value V)) → Effects V → Effects V
  absorb records e = for_each absorb_one records e

  -- `Effects::new`
  unfoldable pub new : String → ℤ → List (PromiseRecord (Value V)) → Effects V
  new task_id task_version preload =
      absorb preload (record { task_id = task_id; task_version = task_version; cache = [] })

  -- "Decode response, cache, return"
  unfoldable pub conclude :
      {W : Type 0}
      → Effects V
      → Result (FenceResult V) × W
      → Result (PromiseRecord (Value V)) × W × Effects V
  conclude e (err x, w) = (err x, w, e)
  conclude e (ok res, w) = elim (C.decode_promise res.promise) [
    | err x ↦ (err x, w, absorb res.preload e)
    | ok d ↦ (ok d, w, insert_monotonic d (absorb res.preload e))
  ]

module _ {W V : Type 0} (C : Codec V) (S : Sender W V) where
  unfoldable pub create_promise :
      PromiseCreateReq V → W → Effects V → Result (PromiseRecord (Value V)) × W × Effects V
  create_promise req w e = elim (get req.id e.cache) [
    | some cached ↦ (ok cached, w, e)
    | none ↦ elim (C.encode (data_as_ref C.null req.param)) [
      | err x ↦ (err x, w, e)
      | ok param ↦
          conclude C e
            (S.task_fence_create e.task_id e.task_version (record req { param = param }) w)
    ]
  ]

  -- "Build settle request", up to its encoding.
  unfoldable pub settle_outcome : Result V → Result (SettleState × V)
  settle_outcome (ok v) = elim (C.to_value v) [
    | converted data_value ↦ ok (SettleState.resolved, data_value)
    | fails text ↦ from_serde (fails text)
  ]
  settle_outcome (err x) = ok (SettleState.rejected, C.encode_error x)

  -- `settle_promise` from the point where the cache has no settled record.
  unfoldable pub settle_uncached :
      String → Result V → W → Effects V → Result (PromiseRecord (Value V)) × W × Effects V
  settle_uncached id result w e = elim (settle_outcome result) [
    | err x ↦ (err x, w, e)
    | ok outcome ↦ elim (C.encode outcome.1) [
      | err x ↦ (err x, w, e)
      | ok value ↦ conclude C e (
          S.task_fence_settle e.task_id e.task_version
            (record { id = id; state = outcome.0; value = value }) w)
    ]
  ]

  unfoldable pub settle_promise :
      String → Result V → W → Effects V → Result (PromiseRecord (Value V)) × W × Effects V
  settle_promise id result w e = elim (get id e.cache) [
    | some cached ↦
        if is_pending cached.state then settle_uncached id result w e else (ok cached, w, e)
    | none ↦ settle_uncached id result w e
  ]

  -- A call of one of the two operations, and a sequence of them.
  pub data Call : Type 0 where
    create : PromiseCreateReq V → Call
    settle : String → Result V → Call

  abbrev pub call : Call → W → Effects V → Result (PromiseRecord (Value V)) × W × Effects V
  call (create req) = create_promise req
  call (settle id result) = settle_promise id result

  unfoldable pub run : List Call → W → Effects V → W × Effects V
  run [] w e = (w, e)
  run (c ∷ cs) w e = let r = call c w e in run cs r.1 r.2
