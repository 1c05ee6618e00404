-- ===== src/Lifecycle/Workflow/Weather.antt =====
-- lifecycle/workflow.py: what the nodes on the weather read and come to, and `dismiss_weather_event`.
-- What the gateway answers, what `analyze_weather_impact` finds, the alternatives and the readings of
-- the clock are arguments.
pub mod Refresh
use travel_plan_agent.Common.{
  ℕ, ◌+◌, String, Bool, true, false, Option, none, some, List, [], ◌&&◌, not, map, str_eq,
  if◌then◌else◌, lookup, insert, string_eq, nat_eq, Result, ok, raise, and_then, require, or_raise,
}
use travel_plan_agent.Common.Text.{Unicode}
use travel_plan_agent.Planning.Models.{DayPlan, PlanningPoi}
use travel_plan_agent.Lifecycle.Models.{
  PlanSessionStatus, EditOperation, PlanVersion, PlanningSnapshot, PlanSessionRecord,
  LifecycleResumeRequest, LifecycleError, conflict, action_error, unavailable, assertion_error,
}
use travel_plan_agent.Lifecycle.Fingerprints.{Digest}
use travel_plan_agent.Lifecycle.Workflow.{
  ensure_expected, active_version, settled, is_editable, awaits_approval,
}
use travel_plan_agent.Lifecycle.Workflow.Editing.{all_locks, is_none}
use travel_plan_agent.Lifecycle.Impact.{given}
use travel_plan_agent.Lifecycle.Workflow.Preview.{Trigger}
use travel_plan_agent.Weather.Models.{
  ChangeEventKind, WeatherEventStatus, WeatherRefreshOutcome, WeatherForecast, WeatherSnapshot,
  DailyWeatherRisk, ChangeEvent, WeatherEventReceipt, WeatherRecords,
}
use travel_plan_agent.Weather.Policy.{RiskPayload, classify_forecast}
use travel_plan_agent.Weather.Events.{StableHash, build_weather_snapshot, derive_change_event}
use travel_plan_agent.Weather.Persistence.{
  Observation, persist_weather_observation, mark_weather_failed, find_event_by_fingerprint, entry,
}
use travel_plan_agent.Weather.Repair.{
  WeatherRepairPlan, WeatherImpactResult, build_weather_repair_plan, repair_plan_to_edit_patch,
}

-- How a node that raises leaves the session: as it was, or saved before the error is raised.
pub data Stop : Type 0 where
  refused : LifecycleError → Stop
  failed : PlanSessionRecord → LifecycleError → Stop

abbrev pub lifted {ℓ} : {A : Type ℓ} → Result LifecycleError A → Result Stop A
lifted (raise e) = raise (refused e)
lifted (ok a) = ok a

-- What the nodes before `analyze_impact` come to: a session that is saved, or a patch for an event.
pub data AfterWeather : Type 0 where
  terminal : PlanSessionRecord → AfterWeather
  local_replan : List EditOperation → Trigger → AfterWeather

-- A forecast with the times that it was fetched at and expires at.
pub record FetchedForecast : Type 0 where
  pub forecast : WeatherForecast
  pub fetched_at : ℕ
  pub expires_at : ℕ

-- What the nodes get from outside. A call of the gateway that fails has a code.
pub record WeatherTools : Type 0 where
  pub resolve_location : Result String String
  pub get_forecast : String → Result String FetchedForecast
  pub analyze_weather_impact : ChangeEvent → List DailyWeatherRisk → WeatherImpactResult
  pub resolve_indoor_alternatives : Result LifecycleError (List PlanningPoi)
  pub now : ℕ

-- Whether there is a gateway, the digests, the number of events kept, and the text `V{n}`.
pub record WeatherPolicy : Type 0 where
  pub configured : Bool
  pub hash : StableHash
  pub risk_fingerprint : RiskPayload → String
  pub max_events : ℕ
  pub version_name : ℕ → String

abbrev busy_code : PlanSessionStatus → String
busy_code status =
    if awaits_approval status then "pending_preview_exists" else "invalid_lifecycle_state"

abbrev pub is_recovery : ChangeEventKind → Bool
is_recovery ChangeEventKind.weather_recovered = true
is_recovery _ = false

abbrev risks_of_snapshot : Option WeatherSnapshot → WeatherRecords → List DailyWeatherRisk
risks_of_snapshot none r = []
risks_of_snapshot (some s) r = elim (lookup s.snapshot_id r.weather_risks) [
  | none ↦ []
  | some risks ↦ risks
]

-- The status of a receipt that may be dismissed.
abbrev pub is_unresolved : WeatherEventStatus → Bool
is_unresolved WeatherEventStatus.needs_user_attention = true
is_unresolved WeatherEventStatus.observed = true
is_unresolved _ = false

-- The codes of a call of the gateway for the location that fails.
abbrev pub location_error : String → LifecycleError
location_error code =
    if str_eq code "weather_location_unresolved" then action_error code else unavailable code

abbrev pub with_dismissal : String → WeatherEventReceipt → WeatherRecords → WeatherRecords
with_dismissal id receipt r = record r {
  weather_monitor = record r.weather_monitor {
    event_receipts =
        insert id (record receipt { status = WeatherEventStatus.dismissed })
          r.weather_monitor.event_receipts;
    attention_event_id = none;
  };
}

unfoldable pub dismiss_weather_event :
    String → PlanSessionRecord → LifecycleResumeRequest → Result LifecycleError PlanSessionRecord
unfolding lookup insert
dismiss_weather_event id session request = ensure_expected session request (
    and_then
      (or_raise (lookup id session.weather.weather_events) (action_error "weather_event_not_found"))
      λ event.
        and_then
          (or_raise (lookup id session.weather.weather_monitor.event_receipts)
            (action_error "weather_event_not_found"))
          λ receipt.
            require (is_unresolved receipt.status) (conflict "weather_event_already_resolved") (
              ok (
                settled (record session { weather = with_dismissal id receipt session.weather })
                  request PlanSessionStatus.active none none)))
