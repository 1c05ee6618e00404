-- ===== src/Weather/Tests.antt =====
-- A forecast of two days that gets worse.
use travel_plan_agent.Common.{
  ℕ, ◌+◌, ◌≤◌, ◌≡◌, refl, String, none, some, List, [], ◌∷◌, filter, lookup, insert, contains,
  has_key, string_eq, nat_eq, arith,
}
use travel_plan_agent.Common.Text.{Unicode, occurs}
use travel_plan_agent.Common.Sort.{sort_by}
use travel_plan_agent.Planning.Repair.{distinct}
use travel_plan_agent.Weather.Models.{
  ℤ, WeatherAvailability, WeatherPhenomenon, WeatherRiskLevel, ChangeEventKind, WeatherEventStatus,
  WeatherRefreshOutcome, DailyWeather, WeatherSnapshot, DailyWeatherRisk, ChangeEvent,
  WeatherRecords,
}
use travel_plan_agent.Weather.Policy.{RiskPayload, normalize_phenomenon, classify_daily_weather}
use travel_plan_agent.Weather.Policy.Levels.{rank, IsMilder, classify_daily_weather-rank}
use travel_plan_agent.Weather.Events.{StableHash, risks_by_date, derive_change_event}
use travel_plan_agent.Weather.Events.Affected.{Reports, is_worth, derive_change_event-Reports}
use travel_plan_agent.Weather.Persistence.{Observation, persist_weather_observation}
use travel_plan_agent.Weather.Persistence.Bounds.{IsBounded, observe_all, observe_all-IsBounded}

instance abbrev simple : Unicode
simple = record { strip = λ s. s; casefold = λ s. s; lower = λ s. s }

freezing_rain : normalize_phenomenon "冻雨" ≡ WeatherPhenomenon.ice
unfolding normalize_phenomenon occurs
freezing_rain = refl

rainstorm : normalize_phenomenon "雷暴雨" ≡ WeatherPhenomenon.heavy_rain
unfolding normalize_phenomenon occurs
rainstorm = refl

abbrev weather : ℕ → WeatherPhenomenon → ℕ → DailyWeather
weather date phenomenon high = record {
  date = date;
  day_phenomenon = phenomenon;
  night_phenomenon = WeatherPhenomenon.cloudy;
  high_celsius = some (ℤ.pos high);
  low_celsius = some (ℤ.pos 4);
  day_wind_level = some 3;
  night_wind_level = none;
}

abbrev fingerprint_of : RiskPayload → String
fingerprint_of p = elim p.level [
  | WeatherRiskLevel.normal ↦ "normal"
  | WeatherRiskLevel.warning ↦ "warning"
  | WeatherRiskLevel.severe ↦ "severe"
  | WeatherRiskLevel.unknown ↦ "unknown"
]

mild-IsMilder :
    IsMilder (weather 10 WeatherPhenomenon.clear 34) (weather 10 WeatherPhenomenon.clear 39)
mild-IsMilder = record {
  by_day = refl;
  by_night = refl;
  hot = refl;
  cold = refl;
  wind_by_day = refl;
  wind_by_night = refl;
}

classify_daily_weather-rank_example :
    rank (classify_daily_weather fingerprint_of (weather 10 WeatherPhenomenon.clear 34)).level
    ≤ rank (classify_daily_weather fingerprint_of (weather 10 WeatherPhenomenon.clear 39)).level
classify_daily_weather-rank_example =
    classify_daily_weather-rank fingerprint_of (weather 10 WeatherPhenomenon.clear 34)
      (weather 10 WeatherPhenomenon.clear 39) mild-IsMilder

severe_at_39 :
    (classify_daily_weather fingerprint_of (weather 10 WeatherPhenomenon.clear 39)).level
    ≡ WeatherRiskLevel.severe
unfolding classify_daily_weather sort_by distinct
severe_at_39 = refl

abbrev snapshot : String → ℕ → WeatherSnapshot
snapshot id at = record {
  snapshot_id = id;
  location = "330100";
  provider = "mock";
  fetched_at = at;
  expires_at = at + 3_600;
  days = weather 10 WeatherPhenomenon.clear 30 ∷ [];
  snapshot_fingerprint = id;
}

abbrev risk : ℕ → WeatherRiskLevel → String → DailyWeatherRisk
risk date level fingerprint = record {
  date = date;
  level = level;
  kinds = [];
  evidence_codes = [];
  risk_fingerprint = fingerprint;
}

abbrev hash : StableHash
hash = record {
  snapshot_hash = λ p. "snapshot";
  event_hash = λ p. "event";
  snapshot_name = λ f. f;
  event_name = λ f. f;
}

abbrev was : List DailyWeatherRisk
was = risk 10 WeatherRiskLevel.normal "a" ∷ risk 11 WeatherRiskLevel.normal "b" ∷ []

abbrev is_now : List DailyWeatherRisk
is_now = risk 10 WeatherRiskLevel.normal "a" ∷ risk 11 WeatherRiskLevel.severe "c" ∷ []

derive_change_event-Reports_example :
    Reports
      (risks_by_date is_now [])
      (some (snapshot "s1" 100))
      (filter
        (is_worth (risks_by_date is_now []) (some (snapshot "s1" 100)) (risks_by_date was []))
        (10 ∷ 11 ∷ 12 ∷ []))
      (derive_change_event hash "s" "V1"
        (snapshot "s2" 200)
        is_now
        (some (snapshot "s1" 100))
        was
        (10 ∷ 11 ∷ 12 ∷ [])
        200)
derive_change_event-Reports_example =
    derive_change_event-Reports hash "s" "V1" (snapshot "s2" 200) is_now was
      (some (snapshot "s1" 100)) (10 ∷ 11 ∷ 12 ∷ []) 200

abbrev nothing_yet : WeatherRecords
nothing_yet = record {
  trip_days = some (10, 12);
  weather_monitor = record {
    location = none;
    availability = WeatherAvailability.unavailable;
    latest_snapshot_id = none;
    previous_snapshot_id = none;
    latest_event_id = none;
    attention_event_id = none;
    last_outcome = none;
    last_safe_error_code = none;
    last_attempt_at = none;
    last_success_at = none;
    uncovered_dates = [];
    event_receipts = [];
  };
  weather_snapshots = [];
  weather_risks = [];
  weather_events = [];
}

nothing_yet-IsBounded : IsBounded 1 nothing_yet
unfolding has_key
nothing_yet-IsBounded = record {
  snapshot_keys = tt;
  named = tt;
  snapshots = omega arith;
  event_keys = tt;
  events = omega arith;
  risks = λ id h. h;
  receipts = λ id h. h;
  previous = λ id h. absurd (cc h);
}

abbrev event : String → ℕ → ChangeEvent
event id at = record {
  event_id = id;
  event_fingerprint = id;
  kind = ChangeEventKind.weather_alert;
  session_id = "s";
  base_version_id = "V1";
  previous_snapshot_id = none;
  current_snapshot_id = "s1";
  affected_dates = 11 ∷ [];
  before_risk_fingerprints = "missing" ∷ [];
  after_risk_fingerprints = "c" ∷ [];
  created_at = at;
}

abbrev observation : String → ℕ → Observation
observation id at = record {
  snapshot = snapshot id at;
  risks = is_now;
  outcome = WeatherRefreshOutcome.needs_user_attention;
  event = some (event id at);
  event_status = some WeatherEventStatus.needs_user_attention;
}

abbrev observed : WeatherRecords
observed =
    observe_all 1 (observation "s1" 100 ∷ observation "s2" 200 ∷ observation "s3" 300 ∷ [])
      nothing_yet

observe_all-IsBounded_example : IsBounded 1 observed
observe_all-IsBounded_example =
    observe_all-IsBounded 1
      (observation "s1" 100 ∷ observation "s2" 200 ∷ observation "s3" 300 ∷ []) nothing_yet
      nothing_yet-IsBounded

kept_after_three :
    (lookup "s1" observed.weather_snapshots ≡ none)
    × (lookup "s2" observed.weather_snapshots ≡ some (snapshot "s2" 200))
    × (lookup "s2" observed.weather_events ≡ none)
    × (lookup "s3" observed.weather_events ≡ some (event "s3" 300))
unfolding persist_weather_observation lookup insert contains sort_by
kept_after_three = (refl, refl, refl, refl)
