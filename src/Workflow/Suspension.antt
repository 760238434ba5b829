-- ===== src/Workflow/Suspension.antt =====
-- resonate/src/context.rs: a context that owes an answer to a suspension, which is what its flush makes
-- visible.
pub mod Operations
pub mod Programs
use resonate_sdk_rs.Prelude.{
  String, ◌≡◌, refl, sym, ap, ◌∙◌, inl, inr, Bool, true, false, not, ◌&&◌, ◌||◌, List, [], ◌∷◌,
  ◌++◌, Option, none, some, arith, Bool-cases, Option-cases,
}
use resonate_sdk_rs.Error.{Error, Result, ok, err, suspended}
use resonate_sdk_rs.Context.{
  Joined, done, suspends, panics, SpawnedHandle, Context, take_remote_todos,
}
use resonate_sdk_rs.Workflow.{
  Backend, Finish, returned, panicked, join_all, flush_local_work, collect_remote_todos,
}
use resonate_sdk_rs.Workflow.Run.{is_suspended}

abbrev pub is_nothing : {A : Type 0} → List A → Bool
is_nothing [] = true
is_nothing (x ∷ xs) = false

-- Nothing is left to wait for.
abbrev pub is_settled : Result (List String) → Bool
is_settled (ok []) = true
is_settled _ = false

abbrev pub ends_suspended : {V : Type 0} → Finish V → Bool
ends_suspended (returned r) = is_suspended r
ends_suspended (panicked m) = false

-- A task that keeps its parent from settling: it failed, or it waits for something.
abbrev pub blocks : Joined → Bool
blocks (done (err e)) = true
blocks (suspends (todo ∷ todos)) = true
blocks _ = false

-- Its error is not the suspension.
abbrev pub is_plain : Joined → Bool
is_plain (done r) = not (is_suspended r)
is_plain _ = true

abbrev pub any_blocks : List SpawnedHandle → Bool
any_blocks [] = false
any_blocks (task ∷ tasks) = blocks task.handle || any_blocks tasks

abbrev pub all_plain : List SpawnedHandle → Bool
all_plain [] = true
all_plain (task ∷ tasks) = is_plain task.handle && all_plain tasks

abbrev pub owes : Context → Bool
owes c = not (is_nothing c.remote_todos) || any_blocks c.spawned_handles

abbrev pub IsPlain : Context → Type 0
IsPlain c = all_plain c.spawned_handles ≡ true

abbrev pub is_some : {A : Type 0} → Option A → Bool
is_some none = false
is_some (some a) = true

abbrev pub first_plain : Option Error → Bool
first_plain none = true
first_plain (some e) = not (is_suspended {V = Unit {0}} (err e))

append_nothing :
    (xs ys : List String) → not (is_nothing (xs ++ ys)) ≡ not (is_nothing xs) || not (is_nothing ys)
append_nothing [] ys = refl
append_nothing (x ∷ xs) ys = refl

join_all-blocks :
    (tasks : List SpawnedHandle) (todos : List String) (first : Option Error)
    → not (is_nothing todos) || (is_some first || any_blocks tasks) ≡ true
    → not (is_nothing (join_all tasks todos first).0) || is_some (join_all tasks todos first).1
      ≡ true
unfolding join_all
join_all-blocks [] todos first h = ground arith
join_all-blocks (task ∷ tasks) todos first h = step (join_all-blocks tasks) task.handle refl
  where
    step :
        ((todos : List String) (first : Option Error)
          → not (is_nothing todos) || (is_some first || any_blocks tasks) ≡ true
          → not (is_nothing (join_all tasks todos first).0)
              || is_some (join_all tasks todos first).1
            ≡ true)
        → (j : Joined) → task.handle ≡ j
        → not (is_nothing (join_all (task ∷ tasks) todos first).0)
            || is_some (join_all (task ∷ tasks) todos first).1
          ≡ true
    step rest (done (ok u)) e = rw (e, join_all) (rest todos first (ground arith))
    step rest (done (err x)) e = elim (Option-cases first) [
      | inl o ↦ rw (e, o, join_all) (rest todos (some x) (ground arith))
      | inr (y, o) ↦ rw (e, o, join_all) (rest todos (some y) (ground arith))
    ]
    step rest (suspends []) e =
        rw (e, join_all) (rest (todos ++ []) first (ground (arith, append_nothing todos [])))
    step rest (suspends (y ∷ ys)) e =
        rw (e, join_all)
          (rest (todos ++ (y ∷ ys)) first (ground (arith, append_nothing todos (y ∷ ys))))
    step rest panics e = rw (e, join_all) (rest todos first (ground arith))

join_all-plain :
    (tasks : List SpawnedHandle) (todos : List String) (first : Option Error)
    → first_plain first ≡ true
    → all_plain tasks ≡ true
    → first_plain (join_all tasks todos first).1 ≡ true
unfolding join_all
join_all-plain [] todos first h k = h
join_all-plain (task ∷ tasks) todos first h k = step (join_all-plain tasks) task.handle refl
  where
    step :
        ((todos : List String) (first : Option Error)
          → first_plain first ≡ true
          → all_plain tasks ≡ true
          → first_plain (join_all tasks todos first).1 ≡ true)
        → (j : Joined) → task.handle ≡ j
        → first_plain (join_all (task ∷ tasks) todos first).1 ≡ true
    step rest (done (ok u)) e = rw (e, join_all) (rest todos first h (ground arith))
    step rest (done (err x)) e = elim (Option-cases first) [
      | inl o ↦
          let plain : is_plain (done (err x)) ≡ true = ground arith in
          rw (e, o, join_all) (rest todos (some x) plain (ground arith))
      | inr (y, o) ↦ rw (e, o, join_all) (rest todos (some y) (ground arith) (ground arith))
    ]
    step rest (suspends ys) e = rw (e, join_all) (rest (todos ++ ys) first h (ground arith))
    step rest panics e = rw (e, join_all) (rest todos first h (ground arith))

-- The flush of a context that owes finds something to wait for, or fails.
pub collect-owes : (c : Context) → owes c ≡ true → is_settled (collect_remote_todos c).0 ≡ false
unfolding collect_remote_todos flush_local_work take_remote_todos
collect-owes c h =
    let r = join_all c.spawned_handles [] none in
    elim (Option-cases r.1) [
      | inr (e, o) ↦ rw (o, collect_remote_todos, flush_local_work) refl
      | inl o ↦
          rw (o, collect_remote_todos, flush_local_work)
            (some_left c.remote_todos r.0 (elim (Bool-cases (is_nothing c.remote_todos)) [
              | inr e ↦ ground arith
              | inl e ↦
                  let found = join_all-blocks c.spawned_handles [] none (ground arith) in
                  ground (arith, found)
            ]))
    ]
  where
    some_left :
        (xs ys : List String)
        → not (is_nothing xs) || not (is_nothing ys) ≡ true
        → is_settled (ok (xs ++ ys)) ≡ false
    some_left [] [] k = absurd (ground arith)
    some_left [] (y ∷ ys) k = refl
    some_left (x ∷ xs) ys k = refl

-- It never fails with the suspension.
pub collect-plain : (c : Context) → IsPlain c → is_suspended (collect_remote_todos c).0 ≡ false
unfolding collect_remote_todos flush_local_work take_remote_todos
collect-plain c h =
    let r = join_all c.spawned_handles [] none in
    elim (Option-cases r.1) [
      | inr (e, o) ↦
          rw (o, collect_remote_todos, flush_local_work)
            (plain_error e
              (ap first_plain (sym o) ∙ join_all-plain c.spawned_handles [] none refl h))
      | inl o ↦ rw (o, collect_remote_todos, flush_local_work) refl
    ]
  where
    plain_error :
        (e : Error) → first_plain (some e) ≡ true → is_suspended {V = List String} (err e) ≡ false
    plain_error suspended k = absurd (ground arith)
    plain_error e k = ground arith
