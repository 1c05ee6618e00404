-- ===== src/Weather/Repair/Tests.antt =====
-- A storm on the day of a required place, and of one that is not.
use travel_plan_agent.Common.{
  false, ◌≡◌, refl, String, ℕ, Option, none, some, List, [], ◌∷◌, lookup, insert, contains,
}
use travel_plan_agent.Common.Text.{Unicode, occurs, normalize}
use travel_plan_agent.Planning.Models.{ItemType, PlanItem, PlanCandidate, PlanningPoi, TripSpec}
use travel_plan_agent.Planning.Repair.{is_required_name}
use travel_plan_agent.Lifecycle.Actions.{candidate_items}
use travel_plan_agent.Lifecycle.Fingerprints.{Digest}
use travel_plan_agent.Weather.Models.{WeatherRiskLevel, DailyWeatherRisk}
use travel_plan_agent.Weather.Repair.{
  WeatherRepairActionKind, WeatherRepairAction, WeatherRepairPlan, WeatherImpactResult,
  build_weather_repair_plan,
}
use travel_plan_agent.Weather.Repair.Safe.{IsSafePlan, build_weather_repair_plan-IsSafePlan}

instance abbrev simple : Unicode
simple = record { strip = λ s. s; casefold = λ s. s; lower = λ s. s }

abbrev item : String → PlanItem
item name = record {
  item_id = some name;
  type = ItemType.activity;
  name = name;
  start_at = 900_000;
  end_at = 907_200;
  poi_id = some name;
  travel_from_previous_minutes = 10;
  distance_from_previous_meters = 900;
  estimated_cost = none;
}

abbrev candidate : PlanCandidate
candidate = record {
  id = "c";
  days =
      record {
        date = 10;
        items = item "zoo" ∷ item "park" ∷ [];
        walking_distance_meters = 1_200;
        total_travel_minutes = 20;
        known_estimated_cost = 0;
      }
      ∷ [];
  known_estimated_cost = 0;
  violations = [];
  assumptions = [];
}

abbrev trip : TripSpec
trip = record {
  arrival = record { local_date = 10; at = 864_000 };
  departure = record { local_date = 10; at = 950_000 };
  total_budget = none;
  interests = [];
  avoid = [];
  must_visit = "zoo" ∷ [];
  mobility = record { max_daily_walking_meters = 8_000; max_daily_activity_minutes = 480 };
  daily_start = 32_400;
  daily_end = 72_000;
}

abbrev digest : Digest
digest = record {
  day_hash = λ p. "day";
  item_hash = λ p. p.name;
  stable_item_id = λ candidate key day occurrence. key;
  new_item_id = λ request index. "new";
  approval_hash = λ token. token;
}

abbrev risk : ℕ → WeatherRiskLevel → DailyWeatherRisk
risk date level = record {
  date = date;
  level = level;
  kinds = [];
  evidence_codes = [];
  risk_fingerprint = "";
}

abbrev risks : List DailyWeatherRisk
risks = risk 10 WeatherRiskLevel.severe ∷ risk 11 WeatherRiskLevel.normal ∷ []

abbrev impact : WeatherImpactResult
impact = record {
  affected_dates = 10 ∷ [];
  affected_item_ids = "zoo" ∷ "park" ∷ [];
  preserved_dates = [];
  requires_user_attention = false;
}

abbrev museum : PlanningPoi
museum = record {
  id = "m";
  name = "museum";
  categories = [];
  opening_windows = [];
  opening_window_sources = [];
  duration_minutes = 90;
  data_confidence = 900_000;
}

abbrev action :
    WeatherRepairActionKind
    → String
    → Option ℕ
    → Option PlanningPoi
    → List String
    → WeatherRepairAction
action kind id date poi codes = record {
  kind = kind;
  item_id = id;
  target_date = date;
  replacement_poi_id = elim poi [ none ↦ none | some p ↦ some p.id ];
  replacement_poi_name = elim poi [ none ↦ none | some p ↦ some p.name ];
  evidence_codes = codes;
}

-- The required place goes to the next day of the forecast.
abbrev plan : WeatherRepairPlan
plan = record {
  event_id = "e";
  base_version_id = "V1";
  affected_dates = 10 ∷ [];
  actions =
      action WeatherRepairActionKind.move_to_safe_date "zoo" (some 11) none
        ("must_visit_preserved" ∷ "target_weather_normal" ∷ [])
      ∷ action WeatherRepairActionKind.replace_with_indoor "park" none (some museum)
          ("indoor_alternative" ∷ [])
      ∷ [];
  preserved_day_fingerprints = [];
}

builds :
    build_weather_repair_plan trip digest "e" "V1" candidate impact risks (museum ∷ []) []
    ≡ some plan
unfolding build_weather_repair_plan candidate_items lookup insert is_required_name occurs normalize
    contains
builds = refl

build_weather_repair_plan-IsSafePlan_example : IsSafePlan trip candidate impact risks [] plan
build_weather_repair_plan-IsSafePlan_example =
    build_weather_repair_plan-IsSafePlan trip digest "e" "V1" candidate impact risks (museum ∷ [])
      [] plan builds
