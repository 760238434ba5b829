-- ===== src/Server/Lifecycle.antt =====
-- resonate/src/network.rs: the life of a task: its state in the diagram of `Move`, and its version.
pub mod Kept
pub mod Pace
use resonate_sdk_rs.Prelude.{
  ℕ, zero, suc, ◌+◌, ◌≤◌, ◌<◌, String, ◌≡◌, ◌≢◌, refl, sym, Option-cases, ◌∙◌, subst, ◌⊎◌, inl, inr,
  Bool, true, false, ◌||◌, Bool-cases, ◌==◌, eq_iff, eq_refl, Option, none, some, arith,
  if◌then◌else◌,
}
use mathlib.Core.Path.{subst₂, ap}
use native.Mathlib.Nat.{zero-add, suc-add}
use resonate_sdk_rs.Prelude.Map.{HashMap, get, insert, modify, get-insert, get-modify}
use resonate_sdk_rs.Prelude.I64.{ℤ, pos, add_i64, add_i64-pos, max_ℕ}
use resonate_sdk_rs.Types.{
  PromiseState, TaskState, pending, acquired, fulfilled, is_fulfilled, is_pending_task,
}
use resonate_sdk_rs.Json.{Json}
use resonate_sdk_rs.Server.{DurablePromise, Task, ServerState}
use resonate_sdk_rs.Server.Timers.{set_p_timeout, del_p_timeout, set_t_timeout, del_t_timeout}
use resonate_sdk_rs.Server.Settle.{has_target, fulfilled_task}
use resonate_sdk_rs.Server.Tick.{tick}
use resonate_sdk_rs.Server.Apply.{apply}
use resonate_sdk_rs.Server.Step.{
  Rules, Permits, Step, Steps, here, next, settles, links, links_all, creates, spawns, absorbs,
  moves, stops, notes, renews, sends, reschedules, Move, acquires, releases, wakes, suspends,
  fulfills, TaskMove, SameTask, spawn,
}
use resonate_sdk_rs.Server.Step.Tick.{tick-Steps}
use resonate_sdk_rs.Server.Step.Apply.{apply-Steps}
use resonate_sdk_rs.Server.Durable.{Step-IsKept}

-- The way of a task through the diagram, where leases need the permission of `Ok`.
pub data Moves (Ok : Rules) (a : TaskState) (v : ℤ) : TaskState → ℤ → Type 0 where
  stays : {b : TaskState} {w : ℤ} → b ≡ a → w ≡ v → Moves Ok a v b w
  goes :
      {b c : TaskState} {w x : ℤ}
      → Moves Ok a v b w
      → Move b w c x
      → Permits Ok c
      → Moves Ok a v c x

-- `n` times `version + 1`
abbrev pub bump : ℕ → ℤ → ℤ
bump zero v = v
bump (suc n) v = add_i64 (bump n v) (pos 1)

-- Where no bump overflows, the version is higher by their number.
pub bump-pos : (n v : ℕ) → v + n ≤ max_ℕ → bump n (pos v) ≡ pos (v + n)
bump-pos zero v h = ground arith
bump-pos (suc n) v h =
    rw (bump-pos n v (omega arith), add_i64-pos (v + n) 1 (omega arith)) (ground arith)

pub bump-add : (m n : ℕ) (v : ℤ) → bump m (bump n v) ≡ bump (m + n) v
bump-add zero n v = rw zero-add
bump-add (suc m) n v = rw suc-add (ap (λ z. add_i64 z (pos 1)) (bump-add m n v))

-- Later on the version is bumped some number of times: once at least on the way from another state to
-- pending, and never after the task is fulfilled, which is final.
pub record IsLater (a : TaskState) (v : ℤ) (b : TaskState) (w : ℤ) (n : ℕ) : Type 0 where
  pub counts : w ≡ bump n v
  pub lost : is_pending_task a ≡ false → b ≡ pending → 0 < n
  pub final : is_fulfilled a ≡ true → (is_fulfilled b ≡ true) × (n ≡ 0)

pub same-IsLater : (a : TaskState) (v : ℤ) → IsLater a v a v 0
same-IsLater a v = record {
  counts = refl;
  lost = λ o e. absurd (ground arith);
  final = λ o. (o, refl);
}

pub IsLater-trans :
    {a b c : TaskState} {v w x : ℤ} {m n : ℕ}
    → IsLater a v b w m
    → IsLater b w c x n
    → IsLater a v c x (n + m)
IsLater-trans {a} {b} {c} {v} {w} {x} {m} {n} h k = record {
  counts = k.counts ∙ ap (bump n) h.counts ∙ bump-add n m v;
  lost = λ o e. elim (Bool-cases (is_pending_task b)) [
    | inl q ↦ omega (arith, h.lost o (ground arith))
    | inr q ↦ omega (arith, k.lost q e)
  ];
  final = λ o. let (f, z) = h.final o in let (g, y) = k.final f in (g, omega (arith, z, y));
}

-- The states that a task cannot be released or woken from.
abbrev is_resting : TaskState → Bool
is_resting a = is_pending_task a || is_fulfilled a

-- A way with no lease: it bumps the version once at most, and then the task rests.
abbrev IsCalm : TaskState → ℤ → TaskState → ℤ → Type 0
IsCalm a v b w = (n : ℕ) × IsLater a v b w n × ((n ≡ 0) ⊎ ((n ≡ 1) × (is_resting b ≡ true)))

-- The rules of a way with no lease.
abbrev pub no_lease : Rules
no_lease = record { settle = λ _. Unit; lease = ⊥ }

-- One move, as a way.
Move-IsLater :
    {a b : TaskState} {v w : ℤ}
    → Move a v b w
    → (IsLater a v b w 0
        × ((b ≡ acquired)
            ⊎ ((is_resting a ≡ true) × (is_resting b ≡ true))
            ⊎ (is_resting a ≡ false)))
      ⊎ (IsLater a v b w 1 × (is_resting a ≡ false) × (is_resting b ≡ true))
Move-IsLater (acquires p q r) = inl (
  record { counts = r; lost = λ o e. absurd (ground arith); final = λ o. absurd (ground arith) },
  inl q,
)
Move-IsLater (releases p q r) = inr (
  record { counts = r; lost = λ o e. omega arith; final = λ o. absurd (ground arith) },
  ground arith,
  ground arith,
)
Move-IsLater (wakes p q r) = inr (
  record { counts = r; lost = λ o e. omega arith; final = λ o. absurd (ground arith) },
  ground arith,
  ground arith,
)
Move-IsLater (suspends p q r) = inl (
  record { counts = r; lost = λ o e. absurd (ground arith); final = λ o. absurd (ground arith) },
  inr (inr (ground arith)),
)
Move-IsLater {a = a} (fulfills p q r) = inl (
  record { counts = r; lost = λ o e. absurd (ground arith); final = λ o. absurd (ground arith) },
  elim (Bool-cases (is_resting a)) [ inl o ↦ inr (inl (o, ground arith)) | inr o ↦ inr (inr o) ],
)

no_acquire : {b : TaskState} → b ≡ acquired → Permits no_lease b → ⊥
no_acquire e may = subst (Permits no_lease) e may

Moves-IsCalm :
    {a : TaskState} {v : ℤ} {b : TaskState} {w : ℤ} → Moves no_lease a v b w → IsCalm a v b w
Moves-IsCalm {a = a} {v = v} (stays p q) =
    (0, subst₂ (λ b w. IsLater a v b w 0) (sym p) (sym q) (same-IsLater a v), inl refl)
Moves-IsCalm (goes h m may) =
    let (n, k, calm) = Moves-IsCalm h in
    elim (Move-IsLater m) [
      | inl (l, inl q) ↦ absurd (no_acquire q may)
      | inl (l, inr rests) ↦ (0 + n, IsLater-trans k l, ground arith)
      | inr (l, awake, rests) ↦ (1 + n, IsLater-trans k l, ground arith)
    ]

-- A task is there after a write, the same or after one move.
abbrev pub IsNext : Rules → Task → Option Task → Type 0
IsNext Ok t o = (u : Task) × (o ≡ some u) × (SameTask t u ⊎ (TaskMove t u × Permits Ok u.state))

pub same : (t : Task) → SameTask t t
same t = record { same_id = refl; same_state = refl; same_version = refl }

pub modify-IsNext :
    (Ok : Rules) (id k : String) (f : Task → Task) (m : HashMap Task) (t : Task)
    → get k m ≡ some t
    → (id ≡ k → SameTask t (f t) ⊎ (TaskMove t (f t) × Permits Ok (f t).state))
    → IsNext Ok t (get k (modify id f m))
modify-IsNext Ok id k f m t e h = elim (Bool-cases (id == k)) [
  | inl o ↦ (f t, ground (arith, get-modify id k f m), h ((eq_iff id k).0 o))
  | inr o ↦ (t, ground (arith, get-modify id k f m), inl (same t))
]

pub insert-IsNext :
    (Ok : Rules) (id k : String) (u : Task) (m : HashMap Task) (t : Task)
    → get k m ≡ some t
    → (id ≡ k → ⊥)
    → IsNext Ok t (get k (insert id u m))
insert-IsNext Ok id k u m t e other = elim (Bool-cases (id == k)) [
  | inl o ↦ absurd (other ((eq_iff id k).0 o))
  | inr o ↦ (t, ground (arith, get-insert id k u m), inl (same t))
]

-- The task at a key that is moved.
pub moved :
    (Ok : Rules) (id k : String) (f : Task → Task) (m : HashMap Task) (t u : Task)
    → get id m ≡ some u
    → get k m ≡ some t
    → TaskMove u (f u)
    → Permits Ok (f u).state
    → id ≡ k
    → TaskMove t (f t) × Permits Ok (f t).state
moved Ok id k f m t u e d h may i =
    subst (λ x. TaskMove x (f x) × Permits Ok (f x).state) same_task (h, may)
  where
    same_task : u ≡ t
    same_task = ground arith

-- A task later on: it is there, on its way through the diagram.
abbrev pub FollowsDiagram : Rules → Task → Option Task → Type 0
FollowsDiagram Ok t o =
    (u : Task) × (o ≡ some u) × (u.id ≡ t.id) × Moves Ok t.state t.version u.state u.version

-- A task later on, by the number of bumps of its version, of which there are so many at most.
abbrev pub IsLaterTask : ℕ → Task → Option Task → Type 0
IsLaterTask most t o =
    (u : Task) × (o ≡ some u)
    × (u.id ≡ t.id)
    × (n : ℕ) × (n ≤ most)
    × IsLater t.state t.version u.state u.version n

pub FollowsDiagram-IsLaterTask :
    (t : Task) (o : Option Task) → FollowsDiagram no_lease t o → IsLaterTask 1 t o
FollowsDiagram-IsLaterTask t o (u, e, i, m) =
    let (n, k, calm) = Moves-IsCalm m in (u, e, i, n, ground arith, k)

pub IsLaterTask-trans :
    {most more : ℕ} (t u : Task) (n : ℕ) (o : Option Task)
    → u.id ≡ t.id
    → n ≤ most
    → IsLater t.state t.version u.state u.version n
    → IsLaterTask more u o
    → IsLaterTask (more + most) t o
IsLaterTask-trans t u n o i few h (w, e, j, m, fewer, k) =
    (w, e, j ∙ i, m + n, omega arith, IsLater-trans h k)

-- One more write.
pub FollowsDiagram-next :
    {Ok : Rules} (t u : Task) (o : Option Task)
    → u.id ≡ t.id
    → Moves Ok t.state t.version u.state u.version
    → IsNext Ok u o
    → FollowsDiagram Ok t o
FollowsDiagram-next {Ok} t u o i m (w, e, inl h) = (
  w,
  e,
  h.same_id ∙ i,
  subst₂ (Moves Ok t.state t.version) (sym h.same_state) (sym h.same_version) m,
)
FollowsDiagram-next t u o i m (w, e, inr (h, may)) = (w, e, h.same_id ∙ i, goes m h.move may)
