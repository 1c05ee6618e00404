-- ===== src/Weather/Events/Affected.antt =====
-- Which event two observations of the risks make.
use travel_plan_agent.Common.{
  ℕ, ◌≡◌, ◌↔◌, refl, ap, String, Bool, true, false, Option, none, some, List, [], ◌∷◌, ◌&&◌, not,
  all, filter, length, str_eq, lookup, nat_eq, arith, Bool-cases, inl, inr,
}
use travel_plan_agent.Weather.Models.{
  ChangeEventKind, WeatherSnapshot, DailyWeatherRisk, ChangeEvent, is_normal,
}
use travel_plan_agent.Weather.Events.{
  StableHash, Changes, RisksByDate, risks_by_date, alert_on, change_on, alerts, changes,
  is_normal_risk, is_some_date, kind_of, event_if, event_from, derive_change_event,
}

abbrev is_alert : Option DailyWeatherRisk → Bool
is_alert none = false
is_alert (some risk) = not (is_normal risk.level)

abbrev is_change : Option DailyWeatherRisk → Option DailyWeatherRisk → Bool
is_change none previous = false
is_change (some current) none = false
is_change (some current) (some previous) =
    not (str_eq current.risk_fingerprint previous.risk_fingerprint)

-- The dates that are worth an event: without an earlier snapshot those whose risk is known and not
-- normal, and with one those whose risk is known in both and has changed.
abbrev pub is_worth : RisksByDate → Option WeatherSnapshot → RisksByDate → ℕ → Bool
is_worth risks none old_risks date = is_alert (lookup date risks)
is_worth risks (some snapshot) old_risks date =
    is_change (lookup date risks) (lookup date old_risks)

abbrev is_given {ℓ} : {A : Type ℓ} → Option A → Bool
is_given none = false
is_given (some a) = true

-- An event that reports exactly the dates, if there are any; it is a recovery exactly if there was an
-- earlier snapshot and the risk of every date is normal now.
abbrev pub Reports : RisksByDate → Option WeatherSnapshot → List ℕ → Option ChangeEvent → Type 0
Reports risks previous dates none = dates ≡ []
Reports risks previous dates (some e) =
    (e.affected_dates ≡ dates)
    × (is_some_date dates ≡ true)
    × (length e.before_risk_fingerprints ≡ length dates)
    × (length e.after_risk_fingerprints ≡ length dates)
    × ((e.kind ≡ ChangeEventKind.weather_recovered)
        ↔ ((is_given previous && all (λ (d : ℕ). is_normal_risk (lookup d risks)) dates) ≡ true))

-- The dates that are collected, and as many texts before and after.
record Collects (dates : List ℕ) (c : Changes) : Type 0 where
  affected : c.affected ≡ dates
  before : length c.before ≡ length dates
  after : length c.after ≡ length dates

alert_on-Collects :
    (date : ℕ) (r : Option DailyWeatherRisk) (dates : List ℕ) (c : Changes)
    → Collects dates c
    → Collects (elim (is_alert r) [ true ↦ date ∷ dates | false ↦ dates ]) (alert_on date r c)
alert_on-Collects date none dates c h = h
alert_on-Collects date (some risk) dates c h = elim (Bool-cases (is_normal risk.level)) [
  | inl usual ↦ rw usual h
  | inr alarming ↦ rw alarming (record {
    affected = ap (λ (ds : List ℕ). date ∷ ds) h.affected;
    before = omega (arith, h.before);
    after = omega (arith, h.after);
  })
]

change_on-Collects :
    (date : ℕ) (r o : Option DailyWeatherRisk) (dates : List ℕ) (c : Changes)
    → Collects dates c
    → Collects (elim (is_change r o) [ true ↦ date ∷ dates | false ↦ dates ]) (change_on date r o c)
change_on-Collects date none o dates c h = h
change_on-Collects date (some r) none dates c h = h
change_on-Collects date (some r) (some o) dates c h =
    elim (Bool-cases (str_eq r.risk_fingerprint o.risk_fingerprint)) [
      | inl same ↦ rw same h
      | inr other ↦ rw other (record {
        affected = ap (λ (ds : List ℕ). date ∷ ds) h.affected;
        before = omega (arith, h.before);
        after = omega (arith, h.after);
      })
    ]

alerts-Collects :
    (risks : RisksByDate) (dates : List ℕ)
    → Collects (filter (λ (d : ℕ). is_alert (lookup d risks)) dates) (alerts risks dates)
alerts-Collects risks [] = record { affected = refl; before = refl; after = refl }
alerts-Collects risks (date ∷ dates) =
    alert_on-Collects date (lookup date risks) _ (alerts risks dates) (alerts-Collects risks dates)

changes-Collects :
    (risks old_risks : RisksByDate) (dates : List ℕ)
    → Collects
        (filter (λ (d : ℕ). is_change (lookup d risks) (lookup d old_risks)) dates)
        (changes risks old_risks dates)
changes-Collects risks old_risks [] = record { affected = refl; before = refl; after = refl }
changes-Collects risks old_risks (date ∷ dates) =
    change_on-Collects date (lookup date risks) (lookup date old_risks) _
      (changes risks old_risks dates) (changes-Collects risks old_risks dates)

-- An event is made exactly if there is a date to report.
event_if-Reports :
    (hash : StableHash) (session_id base : String) (current : WeatherSnapshot)
    (previous : Option WeatherSnapshot) (risks : RisksByDate) (now : ℕ) (dates : List ℕ)
    (kind : ChangeEventKind) (c : Changes)
    → Collects dates c
    → ((kind ≡ ChangeEventKind.weather_recovered) ↔ (
        (is_given previous
          && (is_some_date dates && all (λ (d : ℕ). is_normal_risk (lookup d risks)) dates))
        ≡ true))
    → Reports risks previous dates (event_if hash session_id base current previous kind now c)
event_if-Reports hash session_id base current previous risks now [] kind c h k =
    rw (h.affected) refl
event_if-Reports hash session_id base current previous risks now (date ∷ dates) kind c h k =
    rw (h.affected) (refl, refl, h.before, h.after, k)

kind_of-recovered :
    (risks : RisksByDate) (dates : List ℕ)
    → (kind_of risks dates ≡ ChangeEventKind.weather_recovered)
      ↔ ((is_some_date dates && all (λ (d : ℕ). is_normal_risk (lookup d risks)) dates) ≡ true)
kind_of-recovered risks dates = ground arith

module _ (hash : StableHash) (session_id base : String) (current : WeatherSnapshot) where
  event_from-Reports :
      (risks : RisksByDate) (previous : Option WeatherSnapshot) (old_risks : RisksByDate)
      (trip_dates : List ℕ) (now : ℕ)
      → Reports risks previous
          (filter (is_worth risks previous old_risks) trip_dates)
          (event_from hash session_id base current risks previous old_risks trip_dates now)
  event_from-Reports risks none old_risks trip_dates now =
      event_if-Reports hash session_id base current none risks now
        (filter (is_worth risks none old_risks) trip_dates) ChangeEventKind.weather_alert
        (alerts risks trip_dates) (alerts-Collects risks trip_dates) (ground arith)
  event_from-Reports risks (some snapshot) old_risks trip_dates now =
      let collected = changes-Collects risks old_risks trip_dates in
      event_if-Reports hash session_id base current (some snapshot) risks now
        (filter (is_worth risks (some snapshot) old_risks) trip_dates)
        (kind_of risks (changes risks old_risks trip_dates).affected)
        (changes risks old_risks trip_dates) collected
        (rw (collected.affected)
          (kind_of-recovered risks (filter (is_worth risks (some snapshot) old_risks) trip_dates)))

  -- An event is derived exactly if a date of the trip is worth it: without an earlier snapshot if it
  -- has a risk that is not normal, be it warning, severe or unknown, and with one if it has a risk in
  -- both and the risk has changed. The event reports exactly these dates, in the order of the trip,
  -- with a text before and one after for each. It is a recovery exactly if there was an earlier
  -- snapshot and the risk of each of them is normal now.
  pub derive_change_event-Reports :
      (risks old_risks : List DailyWeatherRisk) (previous : Option WeatherSnapshot)
      (trip_dates : List ℕ) (now : ℕ)
      → let known = risks_by_date risks [] in
        Reports known previous
          (filter (is_worth known previous (risks_by_date old_risks [])) trip_dates)
          (derive_change_event hash session_id base current risks previous old_risks trip_dates now)
  unfolding derive_change_event
  derive_change_event-Reports risks old_risks previous trip_dates now =
      event_from-Reports (risks_by_date risks []) previous (risks_by_date old_risks []) trip_dates
        now
