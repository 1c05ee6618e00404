-- ===== src/Lifecycle/Workflow/Weather/Refresh.antt =====
-- lifecycle/workflow.py: the nodes of a refresh of the weather, from `resolve_weather_location` to
-- `build_weather_repair`. The session is locked while a request is carried out, so each node reads the
-- same one, and the guard of the revision is written once.
use travel_plan_agent.Common.{
  ◌+◌, String, Option, none, some, List, ◌&&◌, not, map, if◌then◌else◌, lookup, string_eq, nat_eq,
  Result, ok, raise, and_then, require, or_raise,
}
use travel_plan_agent.Common.Text.{Unicode}
use travel_plan_agent.Planning.Models.{DayPlan}
use travel_plan_agent.Lifecycle.Models.{
  PlanSessionStatus, PlanVersion, PlanningSnapshot, PlanSessionRecord, LifecycleResumeRequest,
  LifecycleError, conflict, action_error, unavailable, assertion_error,
}
use travel_plan_agent.Lifecycle.Fingerprints.{Digest}
use travel_plan_agent.Lifecycle.Workflow.{ensure_expected, active_version, settled, is_editable}
use travel_plan_agent.Lifecycle.Workflow.Editing.{all_locks, is_none}
use travel_plan_agent.Lifecycle.Impact.{given}
use travel_plan_agent.Weather.Models.{
  WeatherEventStatus, WeatherRefreshOutcome, WeatherSnapshot, DailyWeatherRisk, ChangeEvent,
}
use travel_plan_agent.Weather.Policy.{classify_forecast}
use travel_plan_agent.Weather.Events.{build_weather_snapshot, derive_change_event}
use travel_plan_agent.Weather.Persistence.{
  Observation, persist_weather_observation, mark_weather_failed, find_event_by_fingerprint, entry,
}
use travel_plan_agent.Weather.Repair.{
  WeatherRepairPlan, WeatherImpactResult, build_weather_repair_plan, repair_plan_to_edit_patch,
}
use travel_plan_agent.Lifecycle.Workflow.Weather.{
  AfterWeather, FetchedForecast, Stop, WeatherPolicy, WeatherTools, busy_code, failed, is_recovery,
  lifted, local_replan, location_error, risks_of_snapshot, terminal,
}

module _ ⦃u : Unicode⦄ (digest : Digest) (policy : WeatherPolicy) (tools : WeatherTools)
    (session : PlanSessionRecord) (request : LifecycleResumeRequest) where
  abbrev pub persist_weather_terminal :
      WeatherSnapshot
      → List DailyWeatherRisk
      → WeatherRefreshOutcome
      → Option ChangeEvent
      → Option WeatherEventStatus
      → Result Stop AfterWeather
  persist_weather_terminal snapshot risks outcome event status =
      let observation : Observation = record {
        snapshot = snapshot;
        risks = risks;
        outcome = outcome;
        event = event;
        event_status = status;
      } in
      ok (
        terminal (
          settled
            (record session {
              weather = persist_weather_observation policy.max_events observation session.weather;
            })
            request PlanSessionStatus.active none none))

  abbrev persist_weather_failure : String → PlanSessionRecord
  persist_weather_failure code = record session {
    session_revision = session.session_revision + 1;
    weather = mark_weather_failed code tools.now session.weather;
  }

  abbrev pub called {ℓ} : {A : Type ℓ} → (String → LifecycleError) → Result String A → Result Stop A
  called error (raise code) = raise (failed (persist_weather_failure code) (error code))
  called error (ok a) = ok a

  abbrev pub weather_location : Option String → Result Stop String
  weather_location none = called location_error tools.resolve_location
  weather_location (some location) = ok location

  -- The guards of `resolve_weather_location`.
  abbrev location_guards : Result LifecycleError (PlanVersion × PlanningSnapshot)
  location_guards = ensure_expected session request (
      require policy.configured (action_error "weather_not_configured") (
        require (is_editable session.status) (conflict (busy_code session.status)) (
          and_then (active_version session) λ version.
            and_then (or_raise session.snapshot assertion_error)
              λ snapshot. ok (version, snapshot))))

  abbrev pub replanned :
      WeatherSnapshot
      → List DailyWeatherRisk
      → ChangeEvent
      → Option WeatherRepairPlan
      → Result Stop AfterWeather
  replanned weather risks event none =
      persist_weather_terminal weather risks WeatherRefreshOutcome.needs_user_attention (some event)
        (some WeatherEventStatus.needs_user_attention)
  replanned weather risks event (some repair) = ok (
      local_replan (repair_plan_to_edit_patch repair) (record {
        event = event;
        snapshot = weather;
        risks = risks;
        max_events = policy.max_events;
      }))

  abbrev pub build_weather_repair :
      PlanVersion × PlanningSnapshot
      → WeatherSnapshot
      → List DailyWeatherRisk
      → ChangeEvent
      → WeatherImpactResult
      → Result Stop AfterWeather
  build_weather_repair (version, snapshot) weather risks event impact =
      and_then (lifted tools.resolve_indoor_alternatives) λ alternatives.
        replanned weather risks event (
          build_weather_repair_plan snapshot.trip digest event.event_id
            (policy.version_name version.number) version.candidate.plan impact risks alternatives
            (all_locks session))

  abbrev pub analyze_weather_change_impact :
      PlanVersion × PlanningSnapshot
      → WeatherSnapshot
      → List DailyWeatherRisk
      → ChangeEvent
      → WeatherImpactResult
      → Result Stop AfterWeather
  analyze_weather_change_impact found weather risks event impact =
      if is_none impact.affected_item_ids && not impact.requires_user_attention
      then persist_weather_terminal weather risks WeatherRefreshOutcome.no_plan_impact (some event)
          (some WeatherEventStatus.no_plan_impact)
      else if impact.requires_user_attention
      then persist_weather_terminal weather risks WeatherRefreshOutcome.needs_user_attention
          (some event) (some WeatherEventStatus.needs_user_attention)
      else build_weather_repair found weather risks event impact

  -- An event, and the one with its fingerprint that is there.
  abbrev pub new_event :
      PlanVersion × PlanningSnapshot
      → WeatherSnapshot
      → List DailyWeatherRisk
      → ChangeEvent
      → Option ChangeEvent
      → Result Stop AfterWeather
  new_event found weather risks event (some existing) =
      persist_weather_terminal weather risks WeatherRefreshOutcome.duplicate (some existing) none
  new_event found weather risks event none =
      if is_recovery event.kind
      then persist_weather_terminal weather risks WeatherRefreshOutcome.recovered (some event)
          (some WeatherEventStatus.no_plan_impact)
      else analyze_weather_change_impact found weather risks event
          (tools.analyze_weather_impact event risks)

  abbrev pub deduplicate_weather_event :
      PlanVersion × PlanningSnapshot
      → WeatherSnapshot
      → List DailyWeatherRisk
      → Option ChangeEvent
      → Result Stop AfterWeather
  deduplicate_weather_event found weather risks none =
      persist_weather_terminal weather risks WeatherRefreshOutcome.no_change none none
  deduplicate_weather_event found weather risks (some event) =
      new_event found weather risks event
        (find_event_by_fingerprint event.event_fingerprint session.weather)

  abbrev derive_weather_change :
      PlanVersion → WeatherSnapshot → List DailyWeatherRisk → Option ChangeEvent
  derive_weather_change version weather risks =
      let previous =
        entry (given session.weather.weather_monitor.latest_snapshot_id)
          session.weather.weather_snapshots in
      derive_change_event policy.hash session.session_id (policy.version_name version.number)
        weather risks previous (risks_of_snapshot previous session.weather)
        (map (λ (d : DayPlan). d.date) version.candidate.plan.days) tools.now

  abbrev after_forecast :
      PlanVersion × PlanningSnapshot → FetchedForecast → Result Stop AfterWeather
  after_forecast found f =
      let weather = build_weather_snapshot policy.hash f.forecast f.fetched_at f.expires_at in
      let risks = classify_forecast policy.risk_fingerprint weather.days in
      deduplicate_weather_event found weather risks (derive_weather_change found.0 weather risks)

  unfoldable pub refresh_weather : Result Stop AfterWeather
  unfolding lookup
  refresh_weather = and_then (lifted location_guards) λ found.
      and_then (weather_location session.weather.weather_monitor.location) λ location.
        and_then (called unavailable (tools.get_forecast location)) (after_forecast found)
