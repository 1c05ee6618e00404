-- ===== src/Lifecycle/Workflow/Sound/Refresh.antt =====
-- A refresh of the weather saves a session that is active again, or one that has failed.
use travel_plan_agent.Common.{
  ◌≡◌, refl, String, Bool, true, false, Option, none, some, List, string_eq, nat_eq, Result, ok,
  raise, and_then, Bool-cases, inl, inr, ◌&&◌, not, if◌then◌else◌,
}
use travel_plan_agent.Lifecycle.Models.{
  PlanSessionStatus, PlanVersion, PlanningSnapshot, PlanSessionRecord, LifecycleResumeRequest,
  LifecycleError, unavailable,
}
use travel_plan_agent.Lifecycle.Fingerprints.{Digest}
use travel_plan_agent.Lifecycle.Workflow.{settled}
use travel_plan_agent.Common.Text.{Unicode}
use travel_plan_agent.Weather.Models.{
  WeatherEventStatus, WeatherRefreshOutcome, WeatherSnapshot, DailyWeatherRisk, ChangeEvent,
  WeatherRecords,
}
use travel_plan_agent.Weather.Persistence.{mark_weather_failed}
use travel_plan_agent.Weather.Repair.{WeatherRepairPlan, WeatherImpactResult}
use travel_plan_agent.Lifecycle.Workflow.Editing.{is_none}
use travel_plan_agent.Lifecycle.Workflow.Weather.{
  Stop, lifted, AfterWeather, terminal, local_replan, WeatherTools, WeatherPolicy, is_recovery,
  location_error,
}
use travel_plan_agent.Lifecycle.Workflow.Weather.Refresh.{
  persist_weather_terminal, called, weather_location, replanned, build_weather_repair,
  analyze_weather_change_impact, new_event, deduplicate_weather_event, refresh_weather,
}
use travel_plan_agent.Lifecycle.Workflow.Sound.Weather.{Halts, HaltsIn, lifted-HaltsIn}

module _ ⦃u : Unicode⦄ (digest : Digest) (policy : WeatherPolicy) (tools : WeatherTools)
    (session : PlanSessionRecord) (request : LifecycleResumeRequest) where
  -- What the nodes on the weather come to.
  abbrev pub Refreshed : Result Stop AfterWeather → Type 0
  Refreshed (raise s) = Halts session s
  Refreshed (ok (local_replan patch trigger)) = Unit
  Refreshed (ok (terminal new)) =
      (weather : WeatherRecords) × (settled (record session { weather = weather }) request
          PlanSessionStatus.active none none
        ≡ new)

  and_then-Refreshed {ℓ} :
      {A : Type ℓ} (r : Result Stop A) (k : A → Result Stop AfterWeather)
      → HaltsIn session r
      → ((a : A) → Refreshed (k a))
      → Refreshed (and_then r k)
  and_then-Refreshed (raise s) k halts after = halts
  and_then-Refreshed (ok a) k halts after = after a

  called-HaltsIn {ℓ} :
      {A : Type ℓ} (error : String → LifecycleError) (r : Result String A)
      → HaltsIn session (called digest policy tools session request error r)
  called-HaltsIn error (raise code) = record {
    weather = mark_weather_failed code tools.now session.weather;
    same = refl;
  }
  called-HaltsIn error (ok a) = tt

  weather_location-HaltsIn :
      (location : Option String)
      → HaltsIn session (weather_location digest policy tools session request location)
  weather_location-HaltsIn none = called-HaltsIn location_error tools.resolve_location
  weather_location-HaltsIn (some location) = tt

  replanned-Refreshed :
      (weather : WeatherSnapshot) (risks : List DailyWeatherRisk) (event : ChangeEvent)
      (repair : Option WeatherRepairPlan)
      → Refreshed (replanned digest policy tools session request weather risks event repair)
  replanned-Refreshed weather risks event none = (_, refl)
  replanned-Refreshed weather risks event (some repair) = tt

  analyze-Refreshed :
      (found : PlanVersion × PlanningSnapshot) (weather : WeatherSnapshot)
      (risks : List DailyWeatherRisk) (event : ChangeEvent) (impact : WeatherImpactResult)
      → Refreshed (
          analyze_weather_change_impact digest policy tools session request found weather risks
            event impact)
  analyze-Refreshed found weather risks event impact =
      by_tests (is_none impact.affected_item_ids && not impact.requires_user_attention)
        impact.requires_user_attention
    where
      by_tests :
          (a b : Bool)
          → Refreshed (
              if a
              then persist_weather_terminal digest policy tools session request weather risks
                  WeatherRefreshOutcome.no_plan_impact
                  (some event)
                  (some WeatherEventStatus.no_plan_impact)
              else if b
              then persist_weather_terminal digest policy tools session request weather risks
                  WeatherRefreshOutcome.needs_user_attention
                  (some event)
                  (some WeatherEventStatus.needs_user_attention)
              else build_weather_repair digest policy tools session request found weather risks
                  event impact)
      by_tests true b = (_, refl)
      by_tests false true = (_, refl)
      by_tests false false =
          and_then-Refreshed (lifted tools.resolve_indoor_alternatives) _
            (lifted-HaltsIn session tools.resolve_indoor_alternatives)
            λ alternatives. replanned-Refreshed weather risks event _

  new_event-Refreshed :
      (found : PlanVersion × PlanningSnapshot) (weather : WeatherSnapshot)
      (risks : List DailyWeatherRisk) (event : ChangeEvent) (existing : Option ChangeEvent)
      → Refreshed (new_event digest policy tools session request found weather risks event existing)
  new_event-Refreshed found weather risks event (some existing) = (_, refl)
  new_event-Refreshed found weather risks event none = elim (Bool-cases (is_recovery event.kind)) [
    | inl h ↦ rw h (_, refl)
    | inr h ↦
        rw h
          (analyze-Refreshed found weather risks event (tools.analyze_weather_impact event risks))
  ]

  deduplicate-Refreshed :
      (found : PlanVersion × PlanningSnapshot) (weather : WeatherSnapshot)
      (risks : List DailyWeatherRisk) (event : Option ChangeEvent)
      → Refreshed
          (deduplicate_weather_event digest policy tools session request found weather risks event)
  deduplicate-Refreshed found weather risks none = (_, refl)
  deduplicate-Refreshed found weather risks (some event) =
      new_event-Refreshed found weather risks event _

  pub refresh_weather-Refreshed : Refreshed (refresh_weather digest policy tools session request)
  unfolding refresh_weather
  refresh_weather-Refreshed = and_then-Refreshed _ _ (lifted-HaltsIn session _) λ found.
      and_then-Refreshed _ _ (weather_location-HaltsIn session.weather.weather_monitor.location)
        λ location.
          and_then-Refreshed _ _ (called-HaltsIn unavailable (tools.get_forecast location))
            λ f. deduplicate-Refreshed found _ _ _
