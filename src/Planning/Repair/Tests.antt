-- ===== src/Planning/Repair/Tests.antt =====
-- A plan of two activities that costs too much, and its repair by planning/repair.py.
use travel_plan_agent.Common.{
  ℕ, String, ◌≡◌, refl, true, false, none, some, List, [], ◌∷◌, ok, All, lookup, insert, contains,
  map, nat_eq, string_eq,
}
use travel_plan_agent.Common.Text.{Unicode, occurs, normalize}
use travel_plan_agent.Common.Sort.{sort_by}
use travel_plan_agent.Common.Dict.Unique.{IsUnique}
use travel_plan_agent.Planning.Models.{
  ItemType, PlanItem, PlanningPoi, TripSpec, PlanCandidate, RepairActionKind, RepairAction,
  CandidateDraft, CriticReport, RepairPlan,
}
use travel_plan_agent.Planning.Repair.{is_required_name, preference_score, distinct}
use travel_plan_agent.Planning.Repair.Build.{build_repair_plan}
use travel_plan_agent.Planning.Repair.Safe.{IsSafe}
use travel_plan_agent.Planning.Repair.Plans.{build_repair_plan-IsSafe}
use travel_plan_agent.Planning.Repair.Apply.{DayPois, apply_actions, apply_repair_plan}
use travel_plan_agent.Planning.Repair.Effects.{untouched, dated, apply_repair_plan-others}
use travel_plan_agent.Planning.Repair.Moves.{holds, apply_actions-placed}

instance abbrev plain : Unicode
plain = record { strip = λ s. s; casefold = λ s. s; lower = λ s. s }

abbrev item : String → String → ℕ → ℕ → ℕ → PlanItem
item name id start end cost = record {
  type = ItemType.activity;
  name = name;
  start_at = start;
  end_at = end;
  poi_id = some id;
  item_id = none;
  travel_from_previous_minutes = 10;
  distance_from_previous_meters = 900;
  estimated_cost = some cost;
}

abbrev poi : String → String → PlanningPoi
poi id name = record {
  id = id;
  name = name;
  categories = "sights" ∷ [];
  opening_windows = (10, record { start = 32_400; end = 64_800 }) ∷ [];
  opening_window_sources = [];
  duration_minutes = 90;
  data_confidence = 900_000;
}

abbrev pois : List PlanningPoi
pois = poi "p1" "palace" ∷ poi "p2" "zoo" ∷ []

abbrev trip : TripSpec
trip = record {
  arrival = record { local_date = 10; at = 864_000 };
  departure = record { local_date = 11; at = 1_020_000 };
  total_budget = some 60;
  interests = "sights" ∷ [];
  avoid = [];
  must_visit = "palace" ∷ [];
  mobility = record { max_daily_walking_meters = 8_000; max_daily_activity_minutes = 480 };
  daily_start = 32_400;
  daily_end = 72_000;
}

abbrev candidate : PlanCandidate
candidate = record {
  id = "c";
  days =
      record {
        date = 10;
        items = item "palace" "p1" 900_000 907_200 50 ∷ item "zoo" "p2" 910_000 917_200 30 ∷ [];
        walking_distance_meters = 1_200;
        total_travel_minutes = 20;
        known_estimated_cost = 40;
      }
      ∷ [];
  known_estimated_cost = 80;
  violations =
      record { type = "budget_exceeded"; is_error = true; day = none; entity_ids = [] } ∷ [];
  assumptions = [];
}

abbrev draft : CandidateDraft
draft = record {
  id = "c";
  days = record { date = 10; poi_ids = "p1" ∷ "p2" ∷ [] } ∷ record { date = 11; poi_ids = [] } ∷ [];
}

abbrev report : CriticReport
report = record { repairable = true; terminal_reason = none }

abbrev remove_zoo : RepairAction
remove_zoo = record {
  kind = RepairActionKind.remove_optional_poi;
  source_violation_type = "budget_exceeded";
  poi_id = "p2";
  from_day = some 10;
  to_day = none;
}

abbrev plan : RepairPlan
plan = record {
  round = 1;
  target_candidate_id = "c";
  source_violation_types = "budget_exceeded" ∷ [];
  actions = remove_zoo ∷ [];
  affected_days = 10 ∷ [];
  preserved_days = 11 ∷ [];
}

-- The palace costs more, but is required.
zoo_removed : build_repair_plan trip candidate draft pois report 1 ≡ ok plan
unfolding build_repair_plan lookup insert contains occurs normalize sort_by is_required_name
    preference_score distinct
zoo_removed = refl

build_repair_plan-IsSafe_example : All (IsSafe trip candidate) (remove_zoo ∷ [])
build_repair_plan-IsSafe_example =
    build_repair_plan-IsSafe trip candidate draft pois report 1 plan zoo_removed

abbrev repaired : CandidateDraft
repaired = record {
  id = "c-repair-r1";
  days = record { date = 10; poi_ids = "p1" ∷ [] } ∷ record { date = 11; poi_ids = [] } ∷ [];
}

zoo_off : apply_repair_plan draft plan "c-repair-r1" ≡ ok repaired
unfolding apply_repair_plan lookup insert
zoo_off = refl

dates_differ : IsUnique (dated draft.days)
unfolding lookup
dates_differ = (refl, (refl, tt))

abbrev zoo : String
zoo = "p2"

abbrev named : List String
named = zoo ∷ []

zoo_listed : contains zoo named ≡ true
unfolding contains
zoo_listed = refl

apply_repair_plan-others_example :
    map (untouched named) repaired.days ≡ map (untouched named) draft.days
apply_repair_plan-others_example =
    apply_repair_plan-others named draft plan "c-repair-r1" repaired dates_differ (zoo_listed, tt)
      zoo_off

abbrev move_palace : RepairAction
move_palace = record {
  kind = RepairActionKind.move_poi;
  source_violation_type = "arrival_buffer";
  poi_id = "p1";
  from_day = some 10;
  to_day = some 11;
}

abbrev start : DayPois
start = (10, "p1" ∷ "p2" ∷ []) ∷ (11, []) ∷ []

abbrev moved : DayPois
moved = (10, []) ∷ (11, "p1" ∷ []) ∷ []

both_applied : apply_actions (move_palace ∷ remove_zoo ∷ []) start ≡ ok moved
unfolding apply_actions lookup insert
both_applied = refl

abbrev palace : String
palace = "p1"

palace_free : contains palace named ≡ false
unfolding contains
palace_free = refl

abbrev eleventh : ℕ
eleventh = 11

apply_actions-placed_example : holds palace (lookup eleventh moved) ≡ true
apply_actions-placed_example =
    apply_actions-placed [] move_palace (remove_zoo ∷ []) named start moved 11 11 refl refl
      (zoo_listed, tt) palace_free both_applied
