-- ===== src/Server/Schedules/RoundTrip.antt =====
-- resonate/src/network.rs: a schedule from its creation to its deletion.
use resonate_sdk_rs.Prelude.{
  String, ◌≡◌, ap, ◌∙◌, inl, inr, eq_refl, Option, none, some, arith, Bool-cases, Option-cases,
  concat,
}
use resonate_sdk_rs.Prelude.Map.{get, remove, get-insert, get-remove}
use resonate_sdk_rs.Prelude.I64.{ℤ}
use resonate_sdk_rs.Error.{Result, ok, err, Result-cases}
use resonate_sdk_rs.Json.{Json}
use resonate_sdk_rs.Server.{ScheduleStub, ServerState}
use resonate_sdk_rs.Server.Handler.{Response, no_data, error, schedule, respond}
use resonate_sdk_rs.Server.Request.{require_str}
use resonate_sdk_rs.Server.Schedules.{
  has_target_tag, stub_of, create_schedule, schedule_at, schedule_create, schedule_get,
  schedule_delete,
}

-- The schedule of a reply.
abbrev pub replied : {V : Type 0} → Result (Response V) → Option (ScheduleStub V)
replied (err e) = none
replied (ok r) = elim r.body [ schedule stub ↦ some stub | _ ↦ none ]

module _ (J : Json) where
  -- A reply with a schedule shows what is stored.
  Stores : String → Result (Response J.Value) × ServerState J.Value → Type 0
  Stores id r =
      (stub : ScheduleStub J.Value) → replied r.0 ≡ some stub → get id r.1.schedules ≡ some stub

  create_schedule-Stores :
      (now : ℤ) (corr_id req : J.Value) (id : String) (s : ServerState J.Value)
      → Stores id (create_schedule J now corr_id req id s)
  unfolding Stores create_schedule
  create_schedule-Stores now corr_id req id s = elim (Result-cases (require_str J req "cron")) [
    | inr (x, e) ↦ rw (e, create_schedule) (λ stub h. absurd (ground arith))
    | inl (cron, e) ↦ elim (Result-cases (require_str J req "promiseId")) [
      | inr (x, o) ↦ rw (e, o, create_schedule) (λ stub h. absurd (ground arith))
      | inl (promise_id, o) ↦
          rw (e, o, create_schedule)
            (λ stub h. ground (
              arith,
              get-insert id id (stub_of J now id cron promise_id req) s.schedules,
              eq_refl id,
            ))
    ]
  ]

  schedule_at-Stores :
      (now : ℤ) (corr_id req : J.Value) (id : String) (s : ServerState J.Value)
      → Stores id (schedule_at J now corr_id req id s)
  unfolding Stores schedule_at
  schedule_at-Stores now corr_id req id s = elim (Bool-cases (has_target_tag J req)) [
    | inr o ↦ rw (o, schedule_at) (λ stub h. absurd (ground arith))
    | inl o ↦ elim (Option-cases (get id s.schedules)) [
      | inr (existing, e) ↦ rw (o, e, schedule_at) (λ stub h. e ∙ h)
      | inl e ↦ rw (o, e, schedule_at) (create_schedule-Stores now corr_id req id s)
    ]
  ]

  get_stored :
      (corr_id req : J.Value) (id : String) (s : ServerState J.Value) (stub : ScheduleStub J.Value)
      → require_str J req "id" ≡ ok id
      → get id s.schedules ≡ some stub
      → schedule_get J corr_id req s ≡ (respond "schedule.get" corr_id 200 (schedule stub), s)
  unfolding schedule_get
  get_stored corr_id req id s stub e stored = rw e (rw stored)

  get_missing :
      (corr_id req : J.Value) (id : String) (s : ServerState J.Value)
      → require_str J req "id" ≡ ok id
      → get id s.schedules ≡ none
      → schedule_get J corr_id req s ≡ (
        respond "schedule.get" corr_id 404 (error (concat "schedule " (concat id " not found"))),
        s,
      )
  unfolding schedule_get
  get_missing corr_id req id s e missing = rw e (rw missing)

  deleted :
      (corr_id req : J.Value) (id : String) (s : ServerState J.Value) (stub : ScheduleStub J.Value)
      → require_str J req "id" ≡ ok id
      → get id s.schedules ≡ some stub
      → schedule_delete J corr_id req s ≡ (
        respond "schedule.delete" corr_id 200 no_data,
        record s { schedules = remove id s.schedules },
      )
  unfolding schedule_delete
  deleted corr_id req id s stub e stored = ground arith

  stored_by_create :
      (now : ℤ) (corr_id req : J.Value) (id : String) (s : ServerState J.Value)
      → require_str J req "id" ≡ ok id
      → Stores id (schedule_create J now corr_id req s)
  unfolding schedule_create
  stored_by_create now corr_id req id s e = rw e (schedule_at-Stores now corr_id req id s)

  -- When a schedule.create replies with a schedule, new or there before, a schedule.get of its id
  -- returns that schedule and changes nothing, and after a schedule.delete of the id it replies 404.
  pub schedule_create-get :
      (now : ℤ) (corr_id corr_id' req req' : J.Value) (id : String) (s : ServerState J.Value)
      (stub : ScheduleStub J.Value)
      → require_str J req "id" ≡ ok id
      → require_str J req' "id" ≡ ok id
      → replied (schedule_create J now corr_id req s).0 ≡ some stub
      → (schedule_get J corr_id' req' (schedule_create J now corr_id req s).1 ≡ (
        respond "schedule.get" corr_id' 200 (schedule stub),
        (schedule_create J now corr_id req s).1,
      ))
        × ((schedule_get J corr_id' req'
              (schedule_delete J corr_id' req' (schedule_create J now corr_id req s).1).1).0
            ≡ respond "schedule.get" corr_id' 404
                (error (concat "schedule " (concat id " not found"))))
  unfolding Stores
  schedule_create-get now corr_id corr_id' req req' id s stub e e' h =
      let s1 = (schedule_create J now corr_id req s).1 in
      let stored : get id s1.schedules ≡ some stub =
        stored_by_create now corr_id req id s e stub h in
      let gone : get id (schedule_delete J corr_id' req' s1).1.schedules ≡ none =
        ap (λ r. get id r.1.schedules) (deleted corr_id' req' id s1 stub e' stored)
        ∙ ground (arith, get-remove id id s1.schedules, eq_refl id) in
      (
        get_stored corr_id' req' id s1 stub e' stored,
        ap (λ r. r.0) (get_missing corr_id' req' id (schedule_delete J corr_id' req' s1).1 e' gone),
      )
