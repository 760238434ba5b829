-- ===== src/Server/Schedules.antt =====
-- resonate/src/network.rs: the schedule operations of local mode.
pub mod RoundTrip
use resonate_sdk_rs.Prelude.{
  String, Bool, true, false, none, some, and_then, is_some_and, unwrap_or, concat, if◌then◌else◌,
}
use resonate_sdk_rs.Prelude.Map.{get, insert, remove, values}
use resonate_sdk_rs.Prelude.I64.{ℤ, pos}
use resonate_sdk_rs.Json.{Json, get_i64}
use resonate_sdk_rs.Server.{ScheduleStub}
use resonate_sdk_rs.Server.Handler.{no_data, error, schedule, schedules, Handler, ◌>>=◌, respond}
use resonate_sdk_rs.Server.Request.{require_str, get_or_null}

module _ (J : Json) where
  open J use {Value, Object, as_object, lookup, object, empty}

  abbrev has_entry : String → Object → Bool
  has_entry k o = elim (lookup o k) [ none ↦ false | some v ↦ true ]

  -- `promiseTags` is an object with a routing target.
  unfoldable pub has_target_tag : Value → Bool
  has_target_tag req =
      is_some_and (and_then (J.get req "promiseTags") as_object) (has_entry "resonate:target")

  abbrev pub stub_of : ℤ → String → String → String → Value → ScheduleStub Value
  stub_of now id cron promise_id req = record {
    id = id;
    cron = cron;
    promise_id = promise_id;
    promise_timeout = unwrap_or (get_i64 J req "promiseTimeout") (pos 0);
    promise_param = get_or_null J req "promiseParam";
    promise_tags = unwrap_or (J.get req "promiseTags") (object empty);
    created_at = now;
  }

  -- The schedule is new.
  unfoldable pub create_schedule : ℤ → Value → Value → String → Handler Value
  create_schedule now corr_id req id = do
    cron ← require_str J req "cron"
    promise_id ← require_str J req "promiseId"
    λ s. (
      respond "schedule.create" corr_id 201 (schedule (stub_of now id cron promise_id req)),
      record s { schedules = insert id (stub_of now id cron promise_id req) s.schedules },
    )

  unfoldable pub schedule_at : ℤ → Value → Value → String → Handler Value
  schedule_at now corr_id req id s =
      if has_target_tag req
      then (elim (get id s.schedules) [
        | some existing ↦ (respond "schedule.create" corr_id 200 (schedule existing), s)
        | none ↦ create_schedule now corr_id req id s
      ])
      else (
        respond "schedule.create" corr_id 400
            (error "promiseTags must include a resonate:target tag"),
        s,
      )

  unfoldable pub schedule_create : ℤ → Value → Value → Handler Value
  schedule_create now corr_id req = do id ← require_str J req "id"; schedule_at now corr_id req id

  unfoldable pub schedule_get : Value → Value → Handler Value
  schedule_get corr_id req = do
    id ← require_str J req "id"
    λ s. (
      elim (get id s.schedules) [
        | some stub ↦ respond "schedule.get" corr_id 200 (schedule stub)
        | none ↦
            respond "schedule.get" corr_id 404 (error (concat "schedule " (concat id " not found")))
      ],
      s,
    )

  unfoldable pub schedule_delete : Value → Value → Handler Value
  schedule_delete corr_id req = do
    id ← require_str J req "id"
    λ s. elim (get id s.schedules) [
      | some stub ↦ (
        respond "schedule.delete" corr_id 200 no_data,
        record s { schedules = remove id s.schedules },
      )
      | none ↦ (
        respond "schedule.delete" corr_id 404 (error (concat "schedule " (concat id " not found"))),
        s,
      )
    ]

  unfoldable pub schedule_search : Value → Handler Value
  schedule_search corr_id s =
      (respond "schedule.search" corr_id 200 (schedules (values s.schedules)), s)
