-- ===== src/Weather/Models.antt =====
-- domain/weather_models.py: the parts that the policy, the events and the persistence read. A location
-- and a provider are texts; times are natural numbers.
use travel_plan_agent.Common.{ℕ, String, Bool, true, false, Option, List, leb}

-- Integers, for temperatures.
pub data ℤ : Type 0 where
  pos negsuc : ℕ → ℤ

-- `a <= b`
abbrev pub int_leb : ℤ → ℤ → Bool
int_leb (ℤ.pos a) (ℤ.pos b) = leb a b
int_leb (ℤ.pos a) (ℤ.negsuc b) = false
int_leb (ℤ.negsuc a) (ℤ.pos b) = true
int_leb (ℤ.negsuc a) (ℤ.negsuc b) = leb b a

pub data WeatherAvailability : Type 0 where
  fresh stale unavailable : WeatherAvailability

pub data WeatherPhenomenon : Type 0 where
  clear cloudy rain heavy_rain thunderstorm snow ice fog dust unknown : WeatherPhenomenon

pub data WeatherRiskKind : Type 0 where
  precipitation thunderstorm snow_or_ice extreme_heat extreme_cold strong_wind : WeatherRiskKind
  low_visibility unknown : WeatherRiskKind

pub data WeatherRiskLevel : Type 0 where
  normal warning severe unknown : WeatherRiskLevel

pub data ChangeEventKind : Type 0 where
  weather_alert weather_risk_changed weather_recovered : ChangeEventKind

pub data WeatherEventStatus : Type 0 where
  observed no_plan_impact needs_user_attention preview_created : WeatherEventStatus
  approved rejected dismissed : WeatherEventStatus

pub data WeatherRefreshOutcome : Type 0 where
  no_change duplicate recovered no_plan_impact needs_user_attention : WeatherRefreshOutcome
  preview_created provider_failed : WeatherRefreshOutcome

pub record DailyWeather : Type 0 where
  pub date : ℕ
  pub day_phenomenon : WeatherPhenomenon
  pub night_phenomenon : WeatherPhenomenon
  pub high_celsius : Option ℤ
  pub low_celsius : Option ℤ
  pub day_wind_level : Option ℕ
  pub night_wind_level : Option ℕ

pub record WeatherForecast : Type 0 where
  pub location : String
  pub provider : String
  pub days : List DailyWeather

pub record WeatherSnapshot : Type 0 where
  pub snapshot_id : String
  pub location : String
  pub provider : String
  pub fetched_at : ℕ
  pub expires_at : ℕ
  pub days : List DailyWeather
  pub snapshot_fingerprint : String

-- Without the version of the policy, which is the same for all.
pub record DailyWeatherRisk : Type 0 where
  pub date : ℕ
  pub level : WeatherRiskLevel
  pub kinds : List WeatherRiskKind
  pub evidence_codes : List String
  pub risk_fingerprint : String

pub record ChangeEvent : Type 0 where
  pub event_id : String
  pub event_fingerprint : String
  pub kind : ChangeEventKind
  pub session_id : String
  pub base_version_id : String
  pub previous_snapshot_id : Option String
  pub current_snapshot_id : String
  pub affected_dates : List ℕ
  pub before_risk_fingerprints : List String
  pub after_risk_fingerprints : List String
  pub created_at : ℕ

pub record WeatherEventReceipt : Type 0 where
  pub event_id : String
  pub event_fingerprint : String
  pub status : WeatherEventStatus
  pub resulting_preview_id : Option ℕ
  pub resulting_version_id : Option ℕ

pub record WeatherMonitorState : Type 0 where
  pub location : Option String
  pub availability : WeatherAvailability
  pub latest_snapshot_id : Option String
  pub previous_snapshot_id : Option String
  pub latest_event_id : Option String
  pub attention_event_id : Option String
  pub last_outcome : Option WeatherRefreshOutcome
  pub last_safe_error_code : Option String
  pub last_attempt_at : Option ℕ
  pub last_success_at : Option ℕ
  pub uncovered_dates : List ℕ
  pub event_receipts : List (String × WeatherEventReceipt)

-- The fields of `PlanSessionRecord` on the weather, with the first and the last day of the trip of its
-- snapshot, if it has one.
pub record WeatherRecords : Type 0 where
  pub trip_days : Option (ℕ × ℕ)
  pub weather_monitor : WeatherMonitorState
  pub weather_snapshots : List (String × WeatherSnapshot)
  pub weather_risks : List (String × List DailyWeatherRisk)
  pub weather_events : List (String × ChangeEvent)

abbrev pub is_normal : WeatherRiskLevel → Bool
is_normal WeatherRiskLevel.normal = true
is_normal WeatherRiskLevel.warning = false
is_normal WeatherRiskLevel.severe = false
is_normal WeatherRiskLevel.unknown = false
