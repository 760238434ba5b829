-- ===== src/Server/Wakeup/Registered.antt =====
-- resonate/src/network.rs: the awaiters that `task_suspend` registers.
use resonate_sdk_rs.Prelude.{
  String, ◌≡◌, ap, sym, ◌∙◌, inl, inr, Bool, true, false, ◌==◌, ◌||◌, eq_iff, eq_refl, some, arith,
  Bool-cases, Option-cases, if◌then◌else◌, List, [], ◌∷◌,
}
use resonate_sdk_rs.Prelude.Map.{get, get-modify}
use resonate_sdk_rs.Prelude.Set.{contains, contains-insert}
use resonate_sdk_rs.Types.{is_pending}
use resonate_sdk_rs.Server.{DurablePromise, ServerState}
use resonate_sdk_rs.Server.Tasks.Suspend.{register, register_all, add_awaiter}

module _ {V : Type 0} where
  -- The promise at `id` is there; and it is pending, and the task `k` awaits it.
  abbrev pub Exists : String → ServerState V → Type 0
  Exists id s = (p : DurablePromise V) × (get id s.promises ≡ some p)

  abbrev pub Awaits : String → String → ServerState V → Type 0
  Awaits k id s =
      (p : DurablePromise V) × (get id s.promises ≡ some p)
      × (is_pending p.state ≡ true)
      × (contains k p.awaiters ≡ true)

  register-Exists :
      (k id a : String) (s : ServerState V) → Exists id s → Exists id (register k a s).1
  unfolding register
  register-Exists k id a s (p, e) = elim (Option-cases (get a s.promises)) [
    | inl d ↦ rw (d, register) (p, e)
    | inr (q, d) ↦ elim (Bool-cases (is_pending q.state)) [
      | inr o ↦ rw (d, o, register) (p, e)
      | inl o ↦
          rw (d, o, register)
            (
              if a == id then add_awaiter k p else p,
              ground (arith, get-modify a id (add_awaiter k) s.promises),
            )
    ]
  ]

  register-Awaits :
      (k id a : String) (s : ServerState V) → Awaits k id s → Awaits k id (register k a s).1
  unfolding register
  register-Awaits k id a s (p, e, o, c) = elim (Option-cases (get a s.promises)) [
    | inl d ↦ rw (d, register) (p, e, o, c)
    | inr (q, d) ↦ elim (Bool-cases (is_pending q.state)) [
      | inr n ↦ rw (d, n, register) (p, e, o, c)
      | inl n ↦
          rw (d, n, register)
            (
              if a == id then add_awaiter k p else p,
              ground (arith, get-modify a id (add_awaiter k) s.promises),
              ground arith,
              ground (arith, contains-insert k k p.awaiters, eq_refl k),
            )
    ]
  ]

  register_self :
      (k id : String) (s : ServerState V)
      → Exists id s
      → (register k id s).0 ≡ false
      → Awaits k id (register k id s).1
  unfolding register
  register_self k id s (p, e) unsettled = elim (Bool-cases (is_pending p.state)) [
    | inr n ↦ absurd (ground arith)
    | inl n ↦
        rw (e, n, register)
          (
            add_awaiter k p,
            ground (arith, get-modify id id (add_awaiter k) s.promises, eq_refl id),
            n,
            ground (arith, contains-insert k k p.awaiters, eq_refl k),
          )
  ]

  -- The flag of the loop stays set.
  register_all_start :
      (k : String) (ids : List String) (any_settled : Bool) (s : ServerState V)
      → (register_all k ids any_settled s).0 ≡ false
      → any_settled ≡ false
  unfolding register_all
  register_all_start k [] any_settled s h = h
  register_all_start k (a ∷ ids) any_settled s h =
      ground
        (arith, register_all_start k ids (any_settled || (register k a s).0) (register k a s).1 h)

  register_all_flag :
      (k : String) (ids : List String) (any_settled : Bool) {flag : Bool} (s : ServerState V)
      → (register_all k ids (any_settled || flag) s).0 ≡ false
      → flag ≡ false
  register_all_flag k ids any_settled {flag = flag} s h =
      ground (arith, register_all_start k ids (any_settled || flag) s h)

  register_this :
      (k id a : String) (s : ServerState V)
      → a ≡ id
      → Exists id s
      → (register k a s).0 ≡ false
      → Awaits k id (register k a s).1
  register_this k id a s same h unsettled =
      rw same (register_self k id s h (ap (λ x. (register k x s).0) (sym same) ∙ unsettled))

  register_all-Awaits :
      (k id : String) (ids : List String) (any_settled : Bool) (s : ServerState V)
      → Awaits k id s
      → Awaits k id (register_all k ids any_settled s).1
  unfolding register_all
  register_all-Awaits k id [] any_settled s h = h
  register_all-Awaits k id (a ∷ ids) any_settled s h =
      register_all-Awaits k id ids _ _ (register-Awaits k id a s h)

  -- Where nothing was settled, the task awaits each promise of the list that is there.
  pub register_all_each :
      (k id : String) (ids : List String) (any_settled : Bool) (s : ServerState V)
      → contains id ids ≡ true
      → Exists id s
      → (register_all k ids any_settled s).0 ≡ false
      → Awaits k id (register_all k ids any_settled s).1
  unfolding register_all contains
  register_all_each k id [] any_settled s c h unsettled = absurd (ground arith)
  register_all_each k id (a ∷ ids) any_settled s c h unsettled = elim (Bool-cases (a == id)) [
    | inr i ↦ register_all_each k id ids _ _ (ground arith) (register-Exists k id a s h) unsettled
    | inl i ↦ register_all-Awaits k id ids _ _ (
        register_this k id a s ((eq_iff a id).0 i) h
          (register_all_flag k ids any_settled (register k a s).1 unsettled))
  ]
