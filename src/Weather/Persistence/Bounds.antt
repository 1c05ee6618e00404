-- ===== src/Weather/Persistence/Bounds.antt =====
-- What a session keeps of the weather is bounded, whatever is observed.
use travel_plan_agent.Common.{
  ℕ, ◌+◌, ◌≤◌, ◌≡◌, refl, String, true, Option, none, some, List, [], ◌∷◌, take, length, ltb,
  contains, insert, All, has_key, has_key-insert, has_key-filter_keys, length-take-le,
  length-insert, string_eq, arith, Bool-cases, inl, inr,
}
use travel_plan_agent.Common.Dict.Unique.{IsUnique, insert-IsUnique, filter-IsUnique, All-insert}
use travel_plan_agent.Common.Sort.{sort_by}
use travel_plan_agent.Weather.Models.{
  WeatherEventStatus, WeatherRefreshOutcome, WeatherSnapshot, DailyWeatherRisk, ChangeEvent,
  WeatherRecords,
}
use travel_plan_agent.Weather.Persistence.{
  values, fetched_later, created_later, retained_ids, kept_ids, with_event, limit_events,
  with_snapshot, Observation, persist_weather_observation,
}
use travel_plan_agent.Weather.Persistence.Cuts.{
  IsNamed, length-map, length_cut, All-filter, cut_within, insert_within, retained_ok,
  has_key-retained,
}

-- At most two snapshots and so many events, each under one key; risks only of snapshots and receipts
-- only of events that are kept; and a previous snapshot, if there is one, is kept.
pub record IsBounded (max_events : ℕ) (r : WeatherRecords) : Type 0 where
  pub snapshot_keys : IsUnique r.weather_snapshots
  pub named : All IsNamed r.weather_snapshots
  pub snapshots : length r.weather_snapshots ≤ 2
  pub event_keys : IsUnique r.weather_events
  pub events : length r.weather_events ≤ max_events
  pub risks :
      (id : String) → has_key id r.weather_risks ≡ true → has_key id r.weather_snapshots ≡ true
  pub receipts :
      (id : String)
      → has_key id r.weather_monitor.event_receipts ≡ true
      → has_key id r.weather_events ≡ true
  pub previous :
      (id : String)
      → r.weather_monitor.previous_snapshot_id ≡ some id
      → has_key id r.weather_snapshots ≡ true

with_bound :
    (m n : ℕ) (r : WeatherRecords) → IsBounded m r → length r.weather_events ≤ n → IsBounded n r
with_bound m n r b h = record {
  snapshot_keys = b.snapshot_keys;
  named = b.named;
  snapshots = b.snapshots;
  event_keys = b.event_keys;
  events = h;
  risks = b.risks;
  receipts = b.receipts;
  previous = b.previous;
}

module _ (max_events : ℕ) (r : WeatherRecords) (bounded : IsBounded max_events r) where
  with_snapshot-IsBounded :
      (snapshot : WeatherSnapshot) (risks : List DailyWeatherRisk) (outcome : WeatherRefreshOutcome)
      → IsBounded max_events (with_snapshot snapshot risks outcome r)
  with_snapshot-IsBounded snapshot risks outcome =
      let name = snapshot.snapshot_id in
      let stored = insert name snapshot r.weather_snapshots in
      let ids = retained_ids stored in
      let unique = insert-IsUnique name snapshot r.weather_snapshots bounded.snapshot_keys in
      let named = All-insert IsNamed name snapshot r.weather_snapshots bounded.named refl in
      record {
        snapshot_keys = filter-IsUnique (λ e. contains e.0 ids) stored unique;
        named = All-filter IsNamed (λ e. contains e.0 ids) stored named;
        snapshots = omega (
          arith,
          length_cut ids stored unique,
          length-map (λ (s : WeatherSnapshot). s.snapshot_id)
              (take 2 (sort_by fetched_later (values stored))),
          length-take-le 2 (sort_by fetched_later (values stored)),
        );
        event_keys = bounded.event_keys;
        events = bounded.events;
        risks =
            cut_within ids (insert name risks r.weather_risks) stored
              (insert_within name risks snapshot r.weather_risks r.weather_snapshots bounded.risks);
        receipts = bounded.receipts;
        previous = λ id h.
            let kept = retained_ok ids _ id h in
            ground (
              arith,
              has_key-filter_keys (λ i. contains i ids) id stored,
              kept,
              has_key-retained id stored named kept,
            );
      }

  with_event-IsBounded :
      (event : Option ChangeEvent) (status : Option WeatherEventStatus)
      → IsBounded (max_events + 1) (with_event event status r)
  with_event-IsBounded none status =
      with_bound max_events (max_events + 1) r bounded (omega (arith, bounded.events))
  with_event-IsBounded (some event) none = record {
    snapshot_keys = bounded.snapshot_keys;
    named = bounded.named;
    snapshots = bounded.snapshots;
    event_keys = insert-IsUnique event.event_id event r.weather_events bounded.event_keys;
    events = omega (arith, length-insert event.event_id event r.weather_events, bounded.events);
    risks = bounded.risks;
    receipts = λ id h.
        ground
          (arith, has_key-insert event.event_id id event r.weather_events, bounded.receipts id h);
    previous = bounded.previous;
  }
  with_event-IsBounded (some event) (some status) = record {
    snapshot_keys = bounded.snapshot_keys;
    named = bounded.named;
    snapshots = bounded.snapshots;
    event_keys = insert-IsUnique event.event_id event r.weather_events bounded.event_keys;
    events = omega (arith, length-insert event.event_id event r.weather_events, bounded.events);
    risks = bounded.risks;
    receipts =
        insert_within event.event_id _ event r.weather_monitor.event_receipts r.weather_events
          bounded.receipts;
    previous = bounded.previous;
  }

  limit_events-IsBounded : (n : ℕ) → IsBounded n (limit_events n r)
  limit_events-IsBounded n = elim (Bool-cases (ltb n (length r.weather_events))) [
    | inl over ↦
        let ids = kept_ids n r.weather_events in
        rw over (record {
          snapshot_keys = bounded.snapshot_keys;
          named = bounded.named;
          snapshots = bounded.snapshots;
          event_keys = filter-IsUnique (λ e. contains e.0 ids) r.weather_events bounded.event_keys;
          events = omega (
            arith,
            length_cut ids r.weather_events bounded.event_keys,
            length-map (λ (e : ChangeEvent). e.event_id)
                (take n (sort_by created_later (values r.weather_events))),
            length-take-le n (sort_by created_later (values r.weather_events)),
          );
          risks = bounded.risks;
          receipts =
              cut_within ids r.weather_monitor.event_receipts r.weather_events bounded.receipts;
          previous = bounded.previous;
        })
    | inr within ↦ rw within (with_bound max_events n r bounded (ground (arith, within)))
  ]

-- The observations of a session, one after the other.
abbrev pub observe_all : ℕ → List Observation → WeatherRecords → WeatherRecords
observe_all max_events [] r = r
observe_all max_events (o ∷ observations) r =
    observe_all max_events observations (persist_weather_observation max_events o r)

-- Whatever is observed, in whatever order and with or without events, a session keeps at most two
-- snapshots and at most the allowed number of events, none twice, and only risks of snapshots and
-- receipts of events that are kept; the previous snapshot, if there is one, is kept. This holds after
-- the observations if it held before them.
pub observe_all-IsBounded :
    (max_events : ℕ) (observations : List Observation) (r : WeatherRecords)
    → IsBounded max_events r
    → IsBounded max_events (observe_all max_events observations r)
unfolding persist_weather_observation
observe_all-IsBounded max_events [] r bounded = bounded
observe_all-IsBounded max_events (o ∷ observations) r bounded =
    let seen = with_snapshot o.snapshot o.risks o.outcome r in
    let told = with_event o.event o.event_status seen in
    observe_all-IsBounded max_events observations (limit_events max_events told) (
      limit_events-IsBounded (max_events + 1) told
        (with_event-IsBounded max_events seen
          (with_snapshot-IsBounded max_events r bounded o.snapshot o.risks o.outcome) o.event
          o.event_status)
        max_events)
