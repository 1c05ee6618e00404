-- ===== src/Weather/Policy.antt =====
-- weather/policy.py: the normal form of a phenomenon, and the risk of a day. The digest of the risk's
-- payload is a parameter. `parse_temperature` and `parse_wind_level`, which read numbers from texts, are
-- left out.
pub mod Levels
use travel_plan_agent.Common.{
  ℕ, String, Bool, true, false, Option, none, some, List, [], ◌∷◌, ◌++◌, ◌||◌, map, any, filter,
  leb, ltb, max, ◌==◌, if◌then◌else◌, contains, string_eq, str_eq,
}
use travel_plan_agent.Common.Text.{Unicode, is_empty, occurs, str_ltb}
use travel_plan_agent.Common.Sort.{sort_by}
use travel_plan_agent.Planning.Repair.{distinct}
use travel_plan_agent.Weather.Models.{
  ℤ, int_leb, WeatherPhenomenon, WeatherRiskKind, WeatherRiskLevel, DailyWeather, DailyWeatherRisk,
}

-- The tests of `normalize_phenomenon`, in order, each with what it stands for.
abbrev phenomenon_terms : List (List String × WeatherPhenomenon)
phenomenon_terms =
    ("暴雨" ∷ "大暴雨" ∷ "特大暴雨" ∷ [], WeatherPhenomenon.heavy_rain)
    ∷ ("雷" ∷ "冰雹" ∷ [], WeatherPhenomenon.thunderstorm)
    ∷ ("冻雨" ∷ "冰" ∷ [], WeatherPhenomenon.ice)
    ∷ ("雪" ∷ [], WeatherPhenomenon.snow)
    ∷ ("雨" ∷ [], WeatherPhenomenon.rain)
    ∷ ("沙" ∷ "尘" ∷ [], WeatherPhenomenon.dust)
    ∷ ("雾" ∷ "霾" ∷ [], WeatherPhenomenon.fog)
    ∷ ("晴" ∷ [], WeatherPhenomenon.clear)
    ∷ ("云" ∷ "阴" ∷ [], WeatherPhenomenon.cloudy)
    ∷ []

abbrev first_term : String → List (List String × WeatherPhenomenon) → WeatherPhenomenon
first_term text [] = WeatherPhenomenon.unknown
first_term text ((terms, phenomenon) ∷ rest) =
    let later = first_term text rest in
    if any (λ (t : String). occurs t text) terms then phenomenon else later

unfoldable pub normalize_phenomenon : ⦃u : Unicode⦄ → String → WeatherPhenomenon
unfolding occurs
normalize_phenomenon ⦃u⦄ value =
    let text = u.strip value in
    if is_empty text then WeatherPhenomenon.unknown else first_term text phenomenon_terms

abbrev is_snow_or_ice : WeatherPhenomenon → Bool
is_snow_or_ice WeatherPhenomenon.snow = true
is_snow_or_ice WeatherPhenomenon.ice = true
is_snow_or_ice _ = false

abbrev is_low_visibility : WeatherPhenomenon → Bool
is_low_visibility WeatherPhenomenon.fog = true
is_low_visibility WeatherPhenomenon.dust = true
is_low_visibility _ = false

abbrev is_heavy_rain : WeatherPhenomenon → Bool
is_heavy_rain WeatherPhenomenon.heavy_rain = true
is_heavy_rain _ = false

abbrev is_thunderstorm : WeatherPhenomenon → Bool
is_thunderstorm WeatherPhenomenon.thunderstorm = true
is_thunderstorm _ = false

abbrev is_rain : WeatherPhenomenon → Bool
is_rain WeatherPhenomenon.rain = true
is_rain _ = false

abbrev is_unknown : WeatherPhenomenon → Bool
is_unknown WeatherPhenomenon.unknown = true
is_unknown _ = false

-- A test of the set of the two phenomena of a day.
abbrev either : (WeatherPhenomenon → Bool) → DailyWeather → Bool
either p day = p day.day_phenomenon || p day.night_phenomenon

-- What one test adds to `kinds`, `evidence` and `levels`; an unknown phenomenon adds no level.
pub record Sign : Type 0 where
  pub kind : WeatherRiskKind
  pub code : String
  pub level : Option WeatherRiskLevel

abbrev severe_sign : Bool → WeatherRiskKind → String → List Sign
severe_sign false kind code = []
severe_sign true kind code =
    record { kind = kind; code = code; level = some WeatherRiskLevel.severe } ∷ []

abbrev warning_sign : Bool → WeatherRiskKind → String → List Sign
warning_sign false kind code = []
warning_sign true kind code =
    record { kind = kind; code = code; level = some WeatherRiskLevel.warning } ∷ []

abbrev unknown_sign : Bool → List Sign
unknown_sign false = []
unknown_sign true =
    record { kind = WeatherRiskKind.unknown; code = "unknown_phenomenon"; level = none } ∷ []

-- `if severe: ... elif warning: ...`
abbrev graded : Bool → Bool → WeatherRiskKind → String → String → List Sign
graded true warns kind severe_code warning_code = severe_sign true kind severe_code
graded false warns kind severe_code warning_code = warning_sign warns kind warning_code

abbrev is_at_least : ℕ → Option ℤ → Bool
is_at_least bound none = false
is_at_least bound (some t) = int_leb (ℤ.pos bound) t

abbrev is_freezing : Option ℤ → Bool
is_freezing none = false
is_freezing (some t) = int_leb t (ℤ.pos 0)

abbrev or_zero : Option ℕ → ℕ
or_zero none = 0
or_zero (some n) = n

-- `max` of the known wind levels and 0.
abbrev wind_of : DailyWeather → ℕ
wind_of day = max (or_zero day.day_wind_level) (or_zero day.night_wind_level)

abbrev signs : DailyWeather → List Sign
signs day =
    severe_sign (either is_heavy_rain day) WeatherRiskKind.precipitation "heavy_rain"
    ++ severe_sign (either is_thunderstorm day) WeatherRiskKind.thunderstorm "thunderstorm"
    ++ severe_sign (either is_snow_or_ice day) WeatherRiskKind.snow_or_ice "snow_or_ice"
    ++ warning_sign (either is_rain day) WeatherRiskKind.precipitation "rain"
    ++ warning_sign (either is_low_visibility day) WeatherRiskKind.low_visibility "low_visibility"
    ++ graded (is_at_least 38 day.high_celsius) (is_at_least 35 day.high_celsius)
        WeatherRiskKind.extreme_heat "high_temp_ge_38" "high_temp_ge_35"
    ++ warning_sign (is_freezing day.low_celsius) WeatherRiskKind.extreme_cold "low_temp_le_0"
    ++ graded (leb 8 (wind_of day)) (leb 6 (wind_of day)) WeatherRiskKind.strong_wind "wind_ge_8"
        "wind_ge_6"
    ++ unknown_sign (either is_unknown day)

abbrev is_severe_level : Option WeatherRiskLevel → Bool
is_severe_level (some WeatherRiskLevel.severe) = true
is_severe_level _ = false

abbrev is_warning_level : Option WeatherRiskLevel → Bool
is_warning_level (some WeatherRiskLevel.warning) = true
is_warning_level _ = false

abbrev has_severe : List Sign → Bool
has_severe = any (λ (s : Sign). is_severe_level s.level)

abbrev has_warning : List Sign → Bool
has_warning = any (λ (s : Sign). is_warning_level s.level)

abbrev level_by : Bool → Bool → Bool → WeatherRiskLevel
level_by true warns unclear = WeatherRiskLevel.severe
level_by false true unclear = WeatherRiskLevel.warning
level_by false false true = WeatherRiskLevel.unknown
level_by false false false = WeatherRiskLevel.normal

abbrev kind_number : WeatherRiskKind → ℕ
kind_number WeatherRiskKind.extreme_cold = 0
kind_number WeatherRiskKind.extreme_heat = 1
kind_number WeatherRiskKind.low_visibility = 2
kind_number WeatherRiskKind.precipitation = 3
kind_number WeatherRiskKind.snow_or_ice = 4
kind_number WeatherRiskKind.strong_wind = 5
kind_number WeatherRiskKind.thunderstorm = 6
kind_number WeatherRiskKind.unknown = 7

-- The kinds in the order of their values.
abbrev all_kinds : List WeatherRiskKind
all_kinds =
    WeatherRiskKind.extreme_cold ∷ WeatherRiskKind.extreme_heat ∷ WeatherRiskKind.low_visibility
    ∷ WeatherRiskKind.precipitation ∷ WeatherRiskKind.snow_or_ice ∷ WeatherRiskKind.strong_wind
    ∷ WeatherRiskKind.thunderstorm ∷ WeatherRiskKind.unknown ∷ []

abbrev sorted_kinds : List Sign → List WeatherRiskKind
sorted_kinds found =
    filter (λ (k : WeatherRiskKind). any (λ (s : Sign). kind_number s.kind == kind_number k) found)
      all_kinds

-- What the fingerprint of a risk is made from.
pub record RiskPayload : Type 0 where
  pub date : ℕ
  pub level : WeatherRiskLevel
  pub kinds : List WeatherRiskKind
  pub evidence : List String

module _ (fingerprint : RiskPayload → String) where
  unfoldable pub classify_daily_weather : DailyWeather → DailyWeatherRisk
  unfolding sort_by distinct
  classify_daily_weather day =
      let found = signs day in
      let level = level_by (has_severe found) (has_warning found) (either is_unknown day) in
      let kinds = sorted_kinds found in
      let codes = sort_by str_ltb (distinct [] (map (λ (s : Sign). s.code) found)) in
      record {
        date = day.date;
        level = level;
        kinds = kinds;
        evidence_codes = codes;
        risk_fingerprint =
            fingerprint
              (record { date = day.date; level = level; kinds = kinds; evidence = codes });
      }

  unfoldable pub classify_forecast : List DailyWeather → List DailyWeatherRisk
  unfolding classify_daily_weather sort_by
  classify_forecast days =
      map classify_daily_weather (sort_by (λ (a b : DailyWeather). ltb a.date b.date) days)
