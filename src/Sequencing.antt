-- ===== src/Sequencing.antt =====
-- resonate/src/sequencing.rs: the slots of a context's `CreationSequencer`, as a chain with the newest
-- first, so that the predecessor of a slot heads the rest of its chain. A move of the system claims a
-- slot or runs one task to its next await point.
pub mod Prefix
use resonate_sdk_rs.Prelude.{
  String, ◌≡◌, Bool, true, false, List, [], ◌∷◌, Option, none, some, concat, if◌then◌else◌,
}
use resonate_sdk_rs.Error.{Error, Result, ok, err, promise_creation, join_error}

pub data CreationState : Type 0 where
  in_flight : CreationState
  created : CreationState
  failed : String → CreationState

-- A slot with the task that owns it: it waits for its predecessor, it has called `create_promise`, it
-- has broadcast its outcome, or it was dropped before it did. The flags record whether it had called.
pub data Slot : Type 0 where
  waiting : Slot
  requesting : Slot
  settled : Bool → CreationState → Slot
  dropped : Bool → Slot

abbrev pub requested : Slot → Bool
requested waiting = false
requested requesting = true
requested (settled b s) = b
requested (dropped b) = b

-- What the watch channel of a slot holds, and whether its sender is gone.
abbrev pub creation_state : Slot → CreationState
creation_state (settled b s) = s
creation_state _ = in_flight

abbrev pub is_closed : Slot → Bool
is_closed (dropped b) = true
is_closed _ = false

-- `rx.wait_for(|s| !matches!(s, InFlight)).await`: none while it blocks, an error on a closed channel.
unfoldable pub wait_for : Error → Slot → Option (Result CreationState)
wait_for closed slot = elim (creation_state slot) [
  | in_flight ↦ if is_closed slot then some (err closed) else none
  | created ↦ some (ok created)
  | failed msg ↦ some (ok (failed msg))
]

-- `None` stands for an await that has not returned.
unfoldable pub await_created_id : String → Slot → Option (Result String)
await_created_id id slot =
    elim (wait_for (join_error (concat "task " (concat id " was dropped"))) slot) [
      | none ↦ none
      | some r ↦ elim r [
        | err e ↦ some (err e)
        | ok s ↦ elim s [
          | created ↦ some (ok id)
          | failed msg ↦ some (err (promise_creation msg))
          | in_flight ↦ none
        ]
      ]
    ]

-- The wait at the head of `CreationSlot::create`: `prev` is the slot claimed before.
abbrev pub is_created : Result CreationState → Bool
is_created (ok created) = true
is_created _ = false

unfoldable pub predecessor_ok : List Slot → Option Bool
predecessor_ok [] = some true
predecessor_ok (prev ∷ earlier) = elim (wait_for (join_error "closed") prev) [
  | none ↦ none
  | some r ↦ some (is_created r)
]

abbrev pub aborted : Error
aborted = promise_creation "aborted: a previous promise creation in this workflow failed"

-- `to_string` is the error type's derived `Display`.
module _ (to_string : Error → String) where
  -- `if !predecessor_ok { .. send(Failed) .. }`, else the request.
  unfoldable pub gate : Bool → Slot
  gate predecessor = if predecessor then requesting else settled false (failed (to_string aborted))

  -- The broadcast of the outcome of `effects.create_promise`.
  unfoldable pub broadcast : {A : Type 0} → Result A → Slot
  broadcast (ok record_of) = settled true created
  broadcast (err e) = settled true (failed (to_string e))

  -- One task runs to its next await, or is dropped.
  pub data Act : List Slot → List Slot → Type 0 where
    opens :
        (b : Bool) (earlier : List Slot)
        → predecessor_ok earlier ≡ some b
        → Act (waiting ∷ earlier) (gate b ∷ earlier)
    answers :
        (r : Result String) (earlier : List Slot)
        → Act (requesting ∷ earlier) (broadcast r ∷ earlier)
    drops_waiting : (earlier : List Slot) → Act (waiting ∷ earlier) (dropped false ∷ earlier)
    drops_requesting : (earlier : List Slot) → Act (requesting ∷ earlier) (dropped true ∷ earlier)
    behind : (slot : Slot) (xs ys : List Slot) → Act xs ys → Act (slot ∷ xs) (slot ∷ ys)

  -- `claim_slot` puts a slot in front.
  unfoldable pub claim_slot : List Slot → List Slot
  claim_slot slots = waiting ∷ slots

  -- The chains that the tasks of a context reach.
  pub data Reached : List Slot → Type 0 where
    start : Reached []
    claims : (slots : List Slot) → Reached slots → Reached (claim_slot slots)
    acts : (xs ys : List Slot) → Reached xs → Act xs ys → Reached ys
