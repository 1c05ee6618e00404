-- ===== src/Planning/Critic/Tests.antt =====
-- A plan over its budget, whose park is not required, as planning/critic.py sees it.
use travel_plan_agent.Common.{ℕ, String, ◌≡◌, refl, true, some, none, [], ◌∷◌, lookup, insert}
use travel_plan_agent.Common.Text.{Unicode, occurs, normalize}
use travel_plan_agent.Common.Sort.{sort_by}
use travel_plan_agent.Planning.Models.{
  ItemType, PlanItem, PlanningPoi, TripSpec, PlanCandidate, ValueSource,
}
use travel_plan_agent.Planning.Repair.{poi_by_id, distinct, is_required_name}
use travel_plan_agent.Planning.Validator.{validate_candidate}
use travel_plan_agent.Planning.Critic.{
  analyze_candidate, budget_can_be_repaired, required_pois_available,
}
use travel_plan_agent.Planning.Critic.Verdict.{analyze_candidate-curable}
use travel_plan_agent.Planning.Critic.Costs.{budget_can_be_repaired-required_cost}

instance abbrev plain_names : Unicode
plain_names = record { strip = λ s. s; casefold = λ s. s; lower = λ s. s }

abbrev visit : String → ℕ → ℕ → PlanItem
visit name start end = record {
  type = ItemType.activity;
  name = name;
  start_at = start;
  end_at = end;
  poi_id = some name;
  item_id = none;
  travel_from_previous_minutes = 10;
  distance_from_previous_meters = 900;
  estimated_cost = some 20;
}

abbrev museum : PlanningPoi
museum = record {
  id = "museum";
  name = "museum";
  categories = [];
  opening_windows = (10, record { start = 32_400; end = 64_800 }) ∷ [];
  opening_window_sources = (10, ValueSource.provider) ∷ [];
  duration_minutes = 90;
  data_confidence = 900_000;
}

abbrev trip : TripSpec
trip = record {
  arrival = record { local_date = 9; at = 800_000 };
  departure = record { local_date = 11; at = 1_020_000 };
  total_budget = some 30;
  interests = [];
  avoid = [];
  must_visit = "museum" ∷ [];
  mobility = record { max_daily_walking_meters = 8_000; max_daily_activity_minutes = 480 };
  daily_start = 32_400;
  daily_end = 72_000;
}

abbrev costly : PlanCandidate
costly = record {
  id = "c";
  days =
      record {
        date = 10;
        items = visit "museum" 900_000 907_200 ∷ visit "park" 910_000 915_000 ∷ [];
        walking_distance_meters = 1_200;
        total_travel_minutes = 20;
        known_estimated_cost = 40;
      }
      ∷ [];
  known_estimated_cost = 40;
  violations =
      record { type = "budget_exceeded"; is_error = true; day = none; entity_ids = [] } ∷ [];
  assumptions = [];
}

validated : costly.violations ≡ (validate_candidate trip costly (museum ∷ [])).violations
unfolding validate_candidate lookup insert occurs normalize sort_by distinct poi_by_id
validated = refl

analyze_candidate-curable_example : (analyze_candidate costly trip (museum ∷ [])).repairable ≡ true
unfolding lookup insert occurs normalize sort_by poi_by_id budget_can_be_repaired
    required_pois_available is_required_name
analyze_candidate-curable_example = analyze_candidate-curable trip costly (museum ∷ []) validated

budget_can_be_repaired-required_cost_example : budget_can_be_repaired costly trip ≡ true
unfolding is_required_name occurs normalize
budget_can_be_repaired-required_cost_example =
    budget_can_be_repaired-required_cost trip costly 30 refl refl
