-- ===== src/Lifecycle/Tests/Weather.antt =====
-- A refresh of the weather that finds rain on a day of the plan, and the user keeps the plan; and a
-- session that waits for its requirements.
use travel_plan_agent.Common.{
  ◌≡◌, refl, Option, none, some, [], ◌∷◌, lookup, insert, contains, string_eq, ok, raise,
}
use travel_plan_agent.Common.Text.{occurs, normalize}
use travel_plan_agent.Common.Sort.{sort_by}
use travel_plan_agent.Lifecycle.Models.{
  PlanSessionStatus, PlanSessionRecord, LifecycleAction, action_error,
}
use travel_plan_agent.Weather.Models.{ℤ, WeatherPhenomenon, WeatherEventStatus}
use travel_plan_agent.Weather.Policy.{classify_forecast}
use travel_plan_agent.Weather.Events.{build_weather_snapshot, derive_change_event}
use travel_plan_agent.Weather.Persistence.{find_event_by_fingerprint, persist_weather_observation}
use travel_plan_agent.Lifecycle.Workflow.Session.{resume}
use travel_plan_agent.Lifecycle.Workflow.World.{Outside, World, needs_clarification}
use travel_plan_agent.Lifecycle.Workflow.Weather.{FetchedForecast}
use travel_plan_agent.Lifecycle.Tests.{
  simple, new_session, start, policy, leading_to, asking, selected, revision, weather_tools,
}

-- A snowstorm on the second day.
abbrev snow : FetchedForecast
snow = record {
  forecast = record {
    location = "city";
    provider = "amap";
    days =
        record {
          date = 11;
          day_phenomenon = WeatherPhenomenon.snow;
          night_phenomenon = WeatherPhenomenon.cloudy;
          high_celsius = some (ℤ.pos 3);
          low_celsius = none;
          day_wind_level = some 3;
          night_wind_level = none;
        }
        ∷ [];
  };
  fetched_at = 50;
  expires_at = 90;
}

abbrev with_forecast : Outside
with_forecast = record (leading_to "i2") {
  weather_tools = record weather_tools {
    resolve_location = ok "city";
    get_forecast = λ location. ok snow;
  };
}

abbrev stored : World → Option PlanSessionRecord
stored w = lookup "s" w.sessions

abbrev status_of : World → Option WeatherEventStatus
status_of w = elim (stored w) [
  | none ↦ none
  | some s ↦ elim (lookup "event" s.weather.weather_monitor.event_receipts) [
    | none ↦ none
    | some r ↦ some r.status
  ]
]

abbrev refreshed : World
refreshed =
    (resume policy "s" with_forecast (asking "i1" "r2" LifecycleAction.refresh_weather) selected).1

needs_attention : status_of refreshed ≡ some WeatherEventStatus.needs_user_attention
unfolding resume lookup insert contains normalize occurs sort_by derive_change_event
    classify_forecast build_weather_snapshot find_event_by_fingerprint persist_weather_observation
needs_attention = refl

kept_plan :
    status_of
      (resume policy "s"
        (leading_to "i3")
        (asking "i2" "r3" (LifecycleAction.dismiss_weather_event "event"))
        refreshed).1
    ≡ some WeatherEventStatus.dismissed
unfolding resume lookup insert contains normalize occurs sort_by derive_change_event
    classify_forecast build_weather_snapshot find_event_by_fingerprint persist_weather_observation
kept_plan = refl

-- The failure is stored although the request raises.
fails :
    let r =
      resume policy "s"
        (leading_to "i2")
        (asking "i1" "r2" LifecycleAction.refresh_weather)
        selected in
    (r.0 ≡ raise (action_error "weather_location_unresolved")) × (revision r.1 ≡ 2)
unfolding resume lookup insert normalize
fails = (refl, refl)

abbrev waiting : World
waiting = record start {
  sessions =
      (
        "s",
        record new_session {
          status = PlanSessionStatus.needs_requirement_clarification;
          external_interrupt = some "q1";
        },
      )
      ∷ [];
}

still_unclear :
    let env = record (leading_to "i1") {
      resume_natural_planning = λ answer. ok (needs_clarification (some "q2"));
    } in
    revision
      (resume policy "s" env
        (asking "q1" "r1" (LifecycleAction.clarify_requirement "two days"))
        waiting).1
    ≡ 1
unfolding resume lookup insert
still_unclear = refl
