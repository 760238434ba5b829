-- ===== src/Workflow/Lineage.antt =====
-- resonate/src/context.rs: the lineage of everything that a workflow creates, as the server asks for it.
pub mod Requests
pub mod Operations
pub mod Programs
use resonate_sdk_rs.Prelude.{String, ◌≡◌, true, List, [], ◌∷◌, some}
use resonate_sdk_rs.Prelude.Map.{get}
use resonate_sdk_rs.Ids.{join_id, origin_of}
use resonate_sdk_rs.Effects.{PromiseCreateReq}
use resonate_sdk_rs.Context.{Context}
use resonate_sdk_rs.Workflow.{Backend}

-- What the server asks of a request in the lineage of `origin`: the id has that origin and the tag says
-- so, and the id extends the parent that the tag declares.
abbrev pub InLineage : {V : Type 0} → String → PromiseCreateReq V → Type 0
InLineage origin req =
    (origin_of req.id ≡ origin)
    × (get "resonate:origin" req.tags ≡ some origin)
    × (parent : String) × (segment : String) × (get "resonate:parent" req.tags ≡ some parent)
    × (req.id ≡ join_id parent segment)

-- A context of the lineage.
abbrev pub IsOf : String → Context → Type 0
IsOf origin c = (origin_of c.id ≡ origin) × (c.origin_id ≡ origin)

-- A backend that records the create requests that it gets.
pub record Logged (S V : Type 0) : Type 0 where
  pub state : S
  pub log : List (PromiseCreateReq V)

abbrev pub recorded : {S V : Type 0} → Backend S V → Backend (Logged S V) V
recorded B = record {
  now_ms = λ s. B.now_ms s.state;
  create_promise = λ req s.
      let r = B.create_promise req s.state in (r.0, record { state = r.1; log = req ∷ s.log });
  settle_promise = λ id result s.
      let r = B.settle_promise id result s.state in (r.0, record { state = r.1; log = s.log });
}

abbrev pub AllIn : {V : Type 0} → String → List (PromiseCreateReq V) → Type 0
AllIn origin [] = true ≡ true
AllIn origin (req ∷ reqs) = InLineage origin req × AllIn origin reqs

-- What every operation keeps.
abbrev pub Keeps : {S V : Type 0} → String → Context → Logged S V → Type 0
Keeps origin c s = IsOf origin c × AllIn origin s.log

abbrev pub Kept : {S V A : Type 0} → String → A × Context × Logged S V → Type 0
Kept origin r = Keeps origin r.1 r.2
