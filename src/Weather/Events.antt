-- ===== src/Weather/Events.antt =====
-- weather/events.py: the snapshot of a forecast, and the event that two observations of the risks make.
-- The digests of the payloads are parameters; an event and a snapshot are named by the first characters
-- of theirs.
pub mod Affected
use travel_plan_agent.Common.{
  ℕ, String, Bool, true, false, Option, none, some, List, [], ◌∷◌, map, all, ltb, str_eq, not,
  if◌then◌else◌, lookup, insert, nat_eq,
}
use travel_plan_agent.Common.Sort.{sort_by}
use travel_plan_agent.Weather.Models.{
  WeatherRiskLevel, ChangeEventKind, DailyWeather, WeatherForecast, WeatherSnapshot,
  DailyWeatherRisk, ChangeEvent, is_normal,
}

-- The payloads of the two digests.
pub record SnapshotPayload : Type 0 where
  pub provider : String
  pub location : String
  pub days : List DailyWeather

pub record EventPayload : Type 0 where
  pub session_id : String
  pub base_version_id : String
  pub kind : ChangeEventKind
  pub dates : List ℕ
  pub before : List String
  pub after : List String

-- `_stable_hash` of the payloads, and the identifiers made from a digest.
pub record StableHash : Type 0 where
  pub snapshot_hash : SnapshotPayload → String
  pub event_hash : EventPayload → String
  pub snapshot_name : String → String
  pub event_name : String → String

-- `{item.date: item for item in risks}`
abbrev pub risks_by_date :
    List DailyWeatherRisk → List (ℕ × DailyWeatherRisk) → List (ℕ × DailyWeatherRisk)
risks_by_date [] m = m
risks_by_date (r ∷ risks) m = risks_by_date risks (insert r.date r m)

-- `affected`, `before` and `after` while the dates of the trip are gone through.
pub record Changes : Type 0 where
  pub affected : List ℕ
  pub before : List String
  pub after : List String

abbrev no_changes : Changes
no_changes = record { affected = []; before = []; after = [] }

abbrev with_change : ℕ → String → String → Changes → Changes
with_change date before after c = record {
  affected = date ∷ c.affected;
  before = before ∷ c.before;
  after = after ∷ c.after;
}

-- A date without an earlier snapshot.
abbrev alert_on : ℕ → Option DailyWeatherRisk → Changes → Changes
alert_on date none c = c
alert_on date (some risk) c =
    if is_normal risk.level then c else with_change date "missing" risk.risk_fingerprint c

abbrev change_on : ℕ → Option DailyWeatherRisk → Option DailyWeatherRisk → Changes → Changes
change_on date none previous c = c
change_on date (some current) none c = c
change_on date (some current) (some previous) c =
    if str_eq current.risk_fingerprint previous.risk_fingerprint
    then c
    else with_change date previous.risk_fingerprint current.risk_fingerprint c

abbrev pub RisksByDate : Type 0
RisksByDate = List (ℕ × DailyWeatherRisk)

abbrev alerts : RisksByDate → List ℕ → Changes
alerts current [] = no_changes
alerts current (date ∷ dates) = alert_on date (lookup date current) (alerts current dates)

abbrev changes : RisksByDate → RisksByDate → List ℕ → Changes
changes current previous [] = no_changes
changes current previous (date ∷ dates) =
    change_on date (lookup date current) (lookup date previous) (changes current previous dates)

abbrev pub is_normal_risk : Option DailyWeatherRisk → Bool
is_normal_risk none = false
is_normal_risk (some risk) = is_normal risk.level

abbrev is_some_date : List ℕ → Bool
is_some_date [] = false
is_some_date (date ∷ dates) = true

-- Every affected date has a current risk, so its lookup does not fail.
abbrev kind_of : RisksByDate → List ℕ → ChangeEventKind
kind_of current affected =
    if is_some_date affected
    then (if all (λ (d : ℕ). is_normal_risk (lookup d current)) affected
        then ChangeEventKind.weather_recovered
        else ChangeEventKind.weather_risk_changed)
    else ChangeEventKind.weather_risk_changed

module _ (hash : StableHash) where
  unfoldable pub build_weather_snapshot : WeatherForecast → ℕ → ℕ → WeatherSnapshot
  unfolding sort_by
  build_weather_snapshot forecast fetched_at expires_at =
      let ordered = sort_by (λ (a b : DailyWeather). ltb a.date b.date) forecast.days in
      let fingerprint =
        hash.snapshot_hash
          (record { provider = forecast.provider; location = forecast.location; days = ordered }) in
      record {
        snapshot_id = hash.snapshot_name fingerprint;
        location = forecast.location;
        provider = forecast.provider;
        fetched_at = fetched_at;
        expires_at = expires_at;
        days = ordered;
        snapshot_fingerprint = fingerprint;
      }

  abbrev previous_id : Option WeatherSnapshot → Option String
  previous_id none = none
  previous_id (some s) = some s.snapshot_id

  abbrev event_of :
      String
      → String
      → WeatherSnapshot
      → Option WeatherSnapshot
      → ChangeEventKind
      → ℕ
      → Changes
      → ChangeEvent
  event_of session_id base current previous kind now c =
      let fingerprint = hash.event_hash (record {
        session_id = session_id;
        base_version_id = base;
        kind = kind;
        dates = c.affected;
        before = c.before;
        after = c.after;
      }) in
      record {
        event_id = hash.event_name fingerprint;
        event_fingerprint = fingerprint;
        kind = kind;
        session_id = session_id;
        base_version_id = base;
        previous_snapshot_id = previous_id previous;
        current_snapshot_id = current.snapshot_id;
        affected_dates = c.affected;
        before_risk_fingerprints = c.before;
        after_risk_fingerprints = c.after;
        created_at = now;
      }

  abbrev event_if :
      String
      → String
      → WeatherSnapshot
      → Option WeatherSnapshot
      → ChangeEventKind
      → ℕ
      → Changes
      → Option ChangeEvent
  event_if session_id base current previous kind now c =
      if is_some_date c.affected
      then some (event_of session_id base current previous kind now c)
      else none

  -- Both branches, for the risks by their dates.
  abbrev event_from :
      String
      → String
      → WeatherSnapshot
      → RisksByDate
      → Option WeatherSnapshot
      → RisksByDate
      → List ℕ
      → ℕ
      → Option ChangeEvent
  event_from session_id base current risks none old_risks trip_dates now =
      event_if session_id base current none ChangeEventKind.weather_alert now
        (alerts risks trip_dates)
  event_from session_id base current risks (some previous) old_risks trip_dates now =
      let c = changes risks old_risks trip_dates in
      event_if session_id base current (some previous) (kind_of risks c.affected) now c

  unfoldable pub derive_change_event :
      String
      → String
      → WeatherSnapshot
      → List DailyWeatherRisk
      → Option WeatherSnapshot
      → List DailyWeatherRisk
      → List ℕ
      → ℕ
      → Option ChangeEvent
  unfolding lookup insert
  derive_change_event session_id base current risks previous old_risks trip_dates now =
      event_from session_id base current (risks_by_date risks []) previous
        (risks_by_date old_risks []) trip_dates now
