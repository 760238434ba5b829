-- ===== src/Server/Durable.antt =====
-- resonate/src/network.rs: what a promise keeps from one state to a later one.
use resonate_sdk_rs.Prelude.{
  String, ◌≡◌, inl, inr, false, ◌==◌, eq_iff, Option, none, some, arith, Bool-cases,
}
use resonate_sdk_rs.Prelude.Map.{
  HashMap, get, insert, modify, get-insert, get-modify, get-modify_all,
}
use resonate_sdk_rs.Prelude.I64.{ℤ}
use resonate_sdk_rs.Json.{Json}
use resonate_sdk_rs.Types.{is_pending}
use resonate_sdk_rs.Server.{DurablePromise, ServerState}
use resonate_sdk_rs.Server.Timers.{set_p_timeout, del_p_timeout, set_t_timeout, del_t_timeout}
use resonate_sdk_rs.Server.Settle.{has_target}
use resonate_sdk_rs.Server.Tick.{tick}
use resonate_sdk_rs.Server.Apply.{apply}
use resonate_sdk_rs.Server.Step.{
  Rules, anything, Step, Steps, here, next, settles, links, links_all, creates, spawns, SamePromise,
  SameSettlement,
}
use resonate_sdk_rs.Server.Step.Tick.{tick-Steps}
use resonate_sdk_rs.Server.Step.Apply.{apply-Steps, Leasing-any}

module _ {V : Type 0} where
  -- `q` is `p` later on: the same promise, and with the same outcome if `p` had one.
  pub record Extends (p q : DurablePromise V) : Type 0 where
    pub same : SamePromise p q
    pub final : is_pending p.state ≡ false → SameSettlement p q

  Extends-refl : (p : DurablePromise V) → Extends p p
  Extends-refl p = record { same = ground arith; final = λ o. ground arith }

  Extends-trans : (p q r : DurablePromise V) → Extends p q → Extends q r → Extends p r
  Extends-trans p q r h k = record {
    same = ground (arith, h.same, k.same);
    final = λ o. ground (arith, h.final o, k.final (ground (arith, h.final o)));
  }

  -- A promise is still there later on.
  abbrev pub IsKept : DurablePromise V → Option (DurablePromise V) → Type 0
  IsKept p o = (q : DurablePromise V) × (o ≡ some q) × Extends p q

  modify-IsKept :
      (id k : String) (f : DurablePromise V → DurablePromise V) (m : HashMap (DurablePromise V))
      (p : DurablePromise V)
      → get k m ≡ some p
      → (id ≡ k → Extends p (f p))
      → IsKept p (get k (modify id f m))
  modify-IsKept id k f m p e h = elim (Bool-cases (id == k)) [
    | inl o ↦ (f p, ground (arith, get-modify id k f m), h ((eq_iff id k).0 o))
    | inr o ↦ (p, ground (arith, get-modify id k f m), Extends-refl p)
  ]

  insert-IsKept :
      (id k : String) (q : DurablePromise V) (m : HashMap (DurablePromise V)) (p : DurablePromise V)
      → get id m ≡ none
      → get k m ≡ some p
      → IsKept p (get k (insert id q m))
  insert-IsKept id k q m p fresh e =
      (p, ground (arith, get-insert id k q m, eq_iff id k), Extends-refl p)

  pub Step-IsKept :
      {Ok : Rules} {s t : ServerState V} (k : String) (p : DurablePromise V)
      → Step Ok s t
      → get k s.promises ≡ some p
      → IsKept p (get k t.promises)
  unfolding set_p_timeout del_p_timeout set_t_timeout del_t_timeout
  Step-IsKept k p (settles id f {p = p0} e0 o same fine) e =
      modify-IsKept id k f _ p e λ i. ground arith
  Step-IsKept k p (links id f kept) e = modify-IsKept id k f _ p e λ i. ground (arith, kept p)
  Step-IsKept {s = s} k p (links_all f kept) e =
      (f p, ground (arith, get-modify_all k f s.promises), ground (arith, kept p))
  Step-IsKept k p (creates id q fresh i none_yet) e = insert-IsKept id k q _ p fresh e
  Step-IsKept k p (spawns id q t typ at fresh i o ti typ_ok) e =
      elim (Bool-cases (has_target q.tags)) [
        | inl target ↦ rw target (insert-IsKept id k q _ p fresh e)
        | inr target ↦ rw target (insert-IsKept id k q _ p fresh e)
      ]
  Step-IsKept k p _ e = (p, e, Extends-refl p)

  pub Steps-IsKept :
      {Ok : Rules} {s t : ServerState V} (k : String) (p : DurablePromise V)
      → Steps Ok s t
      → get k s.promises ≡ some p
      → IsKept p (get k t.promises)
  Steps-IsKept k p here e = (p, e, Extends-refl p)
  Steps-IsKept k p (next h st) e =
      let (q, eq, hq) = Steps-IsKept k p h e in
      let (r, er, hr) = Step-IsKept k q st eq in (r, er, Extends-trans p q r hq hr)

  -- Whatever the time, a tick keeps each promise: what it was created with stays, and if it has
  -- settled its state, its value and the time of its settlement stay too.
  pub tick-IsKept :
      (null : V) (now : ℤ) (s : ServerState V) (k : String) (p : DurablePromise V)
      → get k s.promises ≡ some p
      → IsKept p (get k (tick null now s).promises)
  tick-IsKept null now s k p e = Steps-IsKept k p (tick-Steps anything (λ _. tt) null now s) e

-- Whatever the request, and whether it succeeds or fails, it keeps each promise: what it was created
-- with stays, and if it has settled its state, its value and the time of its settlement stay too.
pub apply-IsKept :
    (J : Json) (now : ℤ) (req : J.Value) (s : ServerState J.Value) (k : String)
    (p : DurablePromise J.Value)
    → get k s.promises ≡ some p
    → IsKept p (get k (apply J now req s).1.promises)
apply-IsKept J now req s k p e =
    Steps-IsKept k p
      (apply-Steps J anything (λ _. tt) now req s
        (record { settle = tt; fulfill = tt; fence = tt; lease = Leasing-any _ }))
      e
