-- ===== src/Weather/Persistence.antt =====
-- weather/persistence.py: what a session keeps of its observations of the weather, and what it shows of
-- them. Readings of the clock are arguments.
pub mod Cuts
pub mod Bounds
use travel_plan_agent.Common.{
  ℕ, ◌+◌, ◌-◌, zero, suc, String, Bool, true, false, Option, none, some, List, [], ◌∷◌, map, filter,
  find, take, length, ltb, leb, str_eq, not, if◌then◌else◌, contains, lookup, insert, filter_keys,
  string_eq, nat_eq,
}
use travel_plan_agent.Common.Sort.{sort_by}
use travel_plan_agent.Lifecycle.Impact.{given}
use travel_plan_agent.Weather.Models.{
  WeatherAvailability, WeatherEventStatus, WeatherRefreshOutcome, DailyWeather, WeatherSnapshot,
  DailyWeatherRisk, ChangeEvent, WeatherEventReceipt, WeatherMonitorState, WeatherRecords,
}

abbrev pub values {ℓ} : {A : Type ℓ} → List (String × A) → List A
values = map (λ e. e.1)

-- The order of `fetched_at` and of `created_at`, latest first.
abbrev fetched_later : WeatherSnapshot → WeatherSnapshot → Bool
fetched_later a b = ltb b.fetched_at a.fetched_at

abbrev created_later : ChangeEvent → ChangeEvent → Bool
created_later a b = ltb b.created_at a.created_at

-- `retained_ids`
abbrev pub retained_ids : List (String × WeatherSnapshot) → List String
retained_ids snapshots =
    map (λ (s : WeatherSnapshot). s.snapshot_id) (take 2 (sort_by fetched_later (values snapshots)))

-- `keep`, of the latest events.
abbrev pub kept_ids : ℕ → List (String × ChangeEvent) → List String
kept_ids max_events events =
    map (λ (e : ChangeEvent). e.event_id) (take max_events (sort_by created_later (values events)))

abbrev is_latest : Option String → String → Bool
is_latest none id = false
is_latest (some latest) id = str_eq latest id

abbrev retained : List String → Option String → Option String
retained ids none = none
retained ids (some id) = if contains id ids then some id else none

-- The monitor after a success.
abbrev observed_monitor :
    WeatherMonitorState
    → WeatherSnapshot
    → WeatherRefreshOutcome
    → List String
    → WeatherMonitorState
observed_monitor monitor snapshot outcome ids = record monitor {
  previous_snapshot_id = retained ids (
      if is_latest monitor.latest_snapshot_id snapshot.snapshot_id
      then monitor.previous_snapshot_id
      else monitor.latest_snapshot_id);
  latest_snapshot_id = some snapshot.snapshot_id;
  location = some snapshot.location;
  availability = WeatherAvailability.fresh;
  last_attempt_at = some snapshot.fetched_at;
  last_success_at = some snapshot.fetched_at;
  last_safe_error_code = none;
  last_outcome = some outcome;
}

abbrev days_from : ℕ → ℕ → List ℕ
days_from start zero = []
days_from start (suc n) = start ∷ days_from (start + 1) n

-- `_trip_days`
abbrev trip_dates : ℕ × ℕ → List ℕ
trip_dates (start, end) = days_from start (end + 1 - start)

abbrev uncovered : Option (ℕ × ℕ) → WeatherSnapshot → List ℕ → List ℕ
uncovered none snapshot old = old
uncovered (some trip) snapshot old =
    filter (λ (d : ℕ). not (contains d (map (λ (day : DailyWeather). day.date) snapshot.days)))
      (trip_dates trip)

abbrev attention : ChangeEvent → WeatherEventStatus → Option String
attention event WeatherEventStatus.needs_user_attention = some event.event_id
attention event _ = none

-- The receipt of an event, if it has a status.
abbrev with_receipt :
    ChangeEvent → Option WeatherEventStatus → WeatherMonitorState → WeatherMonitorState
with_receipt event none monitor = monitor
with_receipt event (some status) monitor = record monitor {
  event_receipts =
      insert event.event_id
        (record {
          event_id = event.event_id;
          event_fingerprint = event.event_fingerprint;
          status = status;
          resulting_preview_id = none;
          resulting_version_id = none;
        })
        monitor.event_receipts;
  attention_event_id = attention event status;
}

abbrev pub with_event :
    Option ChangeEvent → Option WeatherEventStatus → WeatherRecords → WeatherRecords
with_event none status r = r
with_event (some event) status r = record r {
  weather_events = insert event.event_id event r.weather_events;
  weather_monitor =
      with_receipt event status
        (record r.weather_monitor { latest_event_id = some event.event_id });
}

-- Only the latest events are kept, with their receipts.
abbrev limit_events : ℕ → WeatherRecords → WeatherRecords
limit_events max_events r =
    let keep = λ (id : String). contains id (kept_ids max_events r.weather_events) in
    if ltb max_events (length r.weather_events)
    then record r {
      weather_events = filter_keys keep r.weather_events;
      weather_monitor = record r.weather_monitor {
        event_receipts = filter_keys keep r.weather_monitor.event_receipts;
      };
    }
    else r

-- The snapshots, the risks and the monitor.
abbrev with_snapshot :
    WeatherSnapshot
    → List DailyWeatherRisk
    → WeatherRefreshOutcome
    → WeatherRecords
    → WeatherRecords
with_snapshot snapshot risks outcome r =
    let snapshots = insert snapshot.snapshot_id snapshot r.weather_snapshots in
    let ids = retained_ids snapshots in
    record r {
      weather_snapshots = filter_keys (λ id. contains id ids) snapshots;
      weather_risks =
          filter_keys (λ id. contains id ids) (insert snapshot.snapshot_id risks r.weather_risks);
      weather_monitor = record (observed_monitor r.weather_monitor snapshot outcome ids) {
        uncovered_dates = uncovered r.trip_days snapshot r.weather_monitor.uncovered_dates;
      };
    }

-- The arguments of one call.
pub record Observation : Type 0 where
  pub snapshot : WeatherSnapshot
  pub risks : List DailyWeatherRisk
  pub outcome : WeatherRefreshOutcome
  pub event : Option ChangeEvent
  pub event_status : Option WeatherEventStatus

unfoldable pub persist_weather_observation : ℕ → Observation → WeatherRecords → WeatherRecords
unfolding contains insert sort_by
persist_weather_observation max_events o r =
    limit_events max_events
      (with_event o.event o.event_status (with_snapshot o.snapshot o.risks o.outcome r))

unfoldable pub mark_weather_failed : String → ℕ → WeatherRecords → WeatherRecords
mark_weather_failed code at r = record r {
  weather_monitor = record r.weather_monitor {
    last_attempt_at = some at;
    last_safe_error_code = some code;
    last_outcome = some WeatherRefreshOutcome.provider_failed;
    availability = WeatherAvailability.unavailable;
  };
}

-- `session.weather_snapshots.get(id) if id else None`
abbrev pub entry {ℓ} : {A : Type ℓ} → Option String → List (String × A) → Option A
entry none m = none
entry (some id) m = lookup id m

abbrev has_failed : Option WeatherRefreshOutcome → Bool
has_failed (some WeatherRefreshOutcome.provider_failed) = true
has_failed _ = false

abbrev stale_until : Bool → WeatherAvailability
stale_until within = if within then WeatherAvailability.stale else WeatherAvailability.unavailable

-- What is shown of the availability at a time.
abbrev availability_at : WeatherMonitorState → Option WeatherSnapshot → ℕ → ℕ → WeatherAvailability
availability_at monitor none stale_max now = monitor.availability
availability_at monitor (some latest) stale_max now =
    let usable = stale_until (leb now (latest.fetched_at + stale_max)) in
    if has_failed monitor.last_outcome
    then usable
    else if leb now latest.expires_at
    then WeatherAvailability.fresh
    else usable

abbrev risks_of :
    Option WeatherSnapshot → List (String × List DailyWeatherRisk) → List DailyWeatherRisk
risks_of none m = []
risks_of (some latest) m = elim (lookup latest.snapshot_id m) [ none ↦ [] | some risks ↦ risks ]

pub record WeatherStateView : Type 0 where
  pub monitor : WeatherMonitorState
  pub latest_snapshot : Option WeatherSnapshot
  pub latest_risks : List DailyWeatherRisk
  pub latest_event : Option ChangeEvent

unfoldable pub weather_state_view : ℕ → ℕ → WeatherRecords → WeatherStateView
unfolding lookup
weather_state_view stale_max now r =
    let latest = entry (given r.weather_monitor.latest_snapshot_id) r.weather_snapshots in
    record {
      monitor = record r.weather_monitor {
        availability = availability_at r.weather_monitor latest stale_max now;
      };
      latest_snapshot = latest;
      latest_risks = risks_of latest r.weather_risks;
      latest_event = entry (given r.weather_monitor.latest_event_id) r.weather_events;
    }

unfoldable pub find_event_by_fingerprint : String → WeatherRecords → Option ChangeEvent
find_event_by_fingerprint fingerprint r =
    find (λ (e : ChangeEvent). str_eq e.event_fingerprint fingerprint) (values r.weather_events)
