-- ===== src/Planning/Validator/Tests.antt =====
-- A plan of one day that planning/validator.py accepts, and one whose items overlap.
use travel_plan_agent.Common.{ℕ, String, ◌≡◌, refl, true, some, none, List, [], ◌∷◌, lookup, insert}
use travel_plan_agent.Common.Text.{Unicode, occurs, normalize}
use travel_plan_agent.Common.Sort.{sort_by}
use travel_plan_agent.Planning.Models.{
  ItemType, PlanItem, PlanningPoi, TripSpec, PlanCandidate, ValueSource,
}
use travel_plan_agent.Planning.Repair.{poi_by_id, distinct}
use travel_plan_agent.Planning.Validator.{ValidationStatus, validate_candidate}
use travel_plan_agent.Planning.Validator.Feasible.{
  is_feasible, is_invalid, validate_candidate-feasible,
}

instance abbrev plain_text : Unicode
plain_text = record { strip = λ s. s; casefold = λ s. s; lower = λ s. s }

abbrev visit : String → ℕ → ℕ → PlanItem
visit name start end = record {
  type = ItemType.activity;
  name = name;
  start_at = start;
  end_at = end;
  poi_id = some name;
  item_id = none;
  travel_from_previous_minutes = 10;
  distance_from_previous_meters = 900;
  estimated_cost = some 20;
}

abbrev museum : PlanningPoi
museum = record {
  id = "museum";
  name = "museum";
  categories = [];
  opening_windows = (10, record { start = 32_400; end = 64_800 }) ∷ [];
  opening_window_sources = (10, ValueSource.provider) ∷ [];
  duration_minutes = 90;
  data_confidence = 900_000;
}

abbrev trip : TripSpec
trip = record {
  arrival = record { local_date = 9; at = 800_000 };
  departure = record { local_date = 11; at = 1_020_000 };
  total_budget = some 60;
  interests = [];
  avoid = [];
  must_visit = "museum" ∷ [];
  mobility = record { max_daily_walking_meters = 8_000; max_daily_activity_minutes = 480 };
  daily_start = 32_400;
  daily_end = 72_000;
}

abbrev plan_with : List PlanItem → PlanCandidate
plan_with items = record {
  id = "c";
  days =
      record {
        date = 10;
        items = items;
        walking_distance_meters = 1_200;
        total_travel_minutes = 20;
        known_estimated_cost = 40;
      }
      ∷ [];
  known_estimated_cost = 40;
  violations = [];
  assumptions = [];
}

-- In the order of the plan, not of the times.
abbrev good : PlanCandidate
good = plan_with (visit "park" 910_000 915_000 ∷ visit "museum" 900_000 907_200 ∷ [])

abbrev bad : PlanCandidate
bad = plan_with (visit "park" 905_000 915_000 ∷ visit "museum" 900_000 907_200 ∷ [])

feasible : is_feasible trip good (museum ∷ []) ≡ true
unfolding lookup insert occurs normalize sort_by poi_by_id
feasible = refl

accepted : (validate_candidate trip good (museum ∷ [])).status ≡ ValidationStatus.valid
unfolding validate_candidate lookup insert occurs normalize sort_by distinct
accepted = refl

validate_candidate-feasible_example :
    is_invalid (validate_candidate trip bad (museum ∷ [])).status ≡ true
unfolding lookup insert occurs normalize sort_by poi_by_id
validate_candidate-feasible_example = validate_candidate-feasible trip bad (museum ∷ [])
