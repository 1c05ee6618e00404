-- ===== src/Weather/Repair.antt =====
-- weather/repair.py: which actions a change of the weather leads to, and the edit that they make. What
-- `analyze_weather_impact` finds and the alternatives are arguments; the reasons and the tools that an
-- edit needs are left out.
pub mod Dates
pub mod Safe
mod Tests
use travel_plan_agent.Common.{
  ℕ, String, Bool, true, false, Option, none, some, List, [], ◌∷◌, ◌&&◌, not, map, filter, find,
  any, length, leb, ◌==◌, if◌then◌else◌, contains, lookup, nat_eq, string_eq,
}
use travel_plan_agent.Common.Text.{Unicode}
use travel_plan_agent.Planning.Models.{PlanItem, DayPlan, PlanCandidate, PlanningPoi, TripSpec}
use travel_plan_agent.Planning.Repair.{is_required_name}
use travel_plan_agent.Lifecycle.Models.{LockKey, PlanLock, EditOperation, EditOperationKind}
use travel_plan_agent.Lifecycle.Grounding.{DatedItem}
use travel_plan_agent.Lifecycle.Actions.{candidate_items}
use travel_plan_agent.Lifecycle.Fingerprints.{Digest, day_fingerprint}
use travel_plan_agent.Weather.Models.{DailyWeatherRisk, is_normal}

pub data WeatherRepairActionKind : Type 0 where
  replace_with_indoor move_to_safe_date remove_optional_item : WeatherRepairActionKind

pub record WeatherRepairAction : Type 0 where
  pub kind : WeatherRepairActionKind
  pub item_id : String
  pub target_date : Option ℕ
  pub replacement_poi_id : Option String
  pub replacement_poi_name : Option String
  pub evidence_codes : List String

pub record WeatherRepairPlan : Type 0 where
  pub event_id : String
  pub base_version_id : String
  pub affected_dates : List ℕ
  pub actions : List WeatherRepairAction
  pub preserved_day_fingerprints : List (ℕ × String)

-- What the repair and the lifecycle read of the impact.
pub record WeatherImpactResult : Type 0 where
  pub affected_dates : List ℕ
  pub affected_item_ids : List String
  pub preserved_dates : List ℕ
  pub requires_user_attention : Bool

abbrev pub is_day_lock : ℕ → LockKey → Bool
is_day_lock date (LockKey.day_lock d) = d == date
is_day_lock date (LockKey.item_lock id) = false

abbrev pub is_locked : List PlanLock → ℕ → Bool
is_locked locks date = any (λ (l : PlanLock). is_day_lock date l.lock_id) locks

abbrev pub safe_dates : List DailyWeatherRisk → List PlanLock → List ℕ
safe_dates risks locks =
    map (λ (r : DailyWeatherRisk). r.date)
      (filter (λ (r : DailyWeatherRisk). is_normal r.level && not (is_locked locks r.date)) risks)

abbrev move_action : String → ℕ → WeatherRepairAction
move_action id date = record {
  kind = WeatherRepairActionKind.move_to_safe_date;
  item_id = id;
  target_date = some date;
  replacement_poi_id = none;
  replacement_poi_name = none;
  evidence_codes = "must_visit_preserved" ∷ "target_weather_normal" ∷ [];
}

-- An action, and the alternatives that are left.
abbrev pub Choice : Type 0
Choice = WeatherRepairAction × List PlanningPoi

-- An item that is not required takes the next alternative, or goes.
abbrev optional_choice : String → List PlanningPoi → Choice
optional_choice id [] = (
  record {
    kind = WeatherRepairActionKind.remove_optional_item;
    item_id = id;
    target_date = none;
    replacement_poi_id = none;
    replacement_poi_name = none;
    evidence_codes = "no_safe_indoor_alternative" ∷ [];
  },
  [],
)
optional_choice id (p ∷ alternatives) = (
  record {
    kind = WeatherRepairActionKind.replace_with_indoor;
    item_id = id;
    target_date = none;
    replacement_poi_id = some p.id;
    replacement_poi_name = some p.name;
    evidence_codes = "indoor_alternative" ∷ [];
  },
  alternatives,
)

abbrev required_choice : String → List PlanningPoi → Option ℕ → Option Choice
required_choice id alternatives none = none
required_choice id alternatives (some date) = some (move_action id date, alternatives)

abbrev with_action :
    WeatherRepairAction → Option (List WeatherRepairAction) → Option (List WeatherRepairAction)
with_action action none = none
with_action action (some actions) = some (action ∷ actions)

abbrev after_choice :
    Option Choice
    → (List PlanningPoi → Option (List WeatherRepairAction))
    → Option (List WeatherRepairAction)
after_choice none rest = none
after_choice (some (action, alternatives)) rest = with_action action (rest alternatives)

module _ ⦃u : Unicode⦄ (trip : TripSpec) where
  abbrev choice : List ℕ → String → Option DatedItem → List PlanningPoi → Option Choice
  choice safe id none alternatives = none
  choice safe id (some (date, i)) alternatives =
      if is_required_name trip i.name
      then required_choice id alternatives (find (λ (d : ℕ). not (d == date)) safe)
      else some (optional_choice id alternatives)

  -- The loop over the affected items.
  abbrev actions_for :
      List (String × DatedItem)
      → List ℕ
      → List String
      → List PlanningPoi
      → Option (List WeatherRepairAction)
  actions_for items safe [] alternatives = some []
  actions_for items safe (id ∷ ids) alternatives =
      after_choice (choice safe id (lookup id items) alternatives) (actions_for items safe ids)

  abbrev preserved : Digest → List ℕ → List DayPlan → List (ℕ × String)
  preserved digest dates days =
      map (λ (d : DayPlan). (d.date, day_fingerprint digest d))
        (filter (λ (d : DayPlan). contains d.date dates) days)

  abbrev plan_with :
      Digest
      → String
      → String
      → PlanCandidate
      → WeatherImpactResult
      → Option (List WeatherRepairAction)
      → Option WeatherRepairPlan
  plan_with digest event base candidate impact none = none
  plan_with digest event base candidate impact (some []) = none
  plan_with digest event base candidate impact (some (a ∷ actions)) =
      if leb (length (a ∷ actions)) 3
      then some (record {
        event_id = event;
        base_version_id = base;
        affected_dates = impact.affected_dates;
        actions = a ∷ actions;
        preserved_day_fingerprints = preserved digest impact.preserved_dates candidate.days;
      })
      else none

  unfoldable pub build_weather_repair_plan :
      Digest
      → String
      → String
      → PlanCandidate
      → WeatherImpactResult
      → List DailyWeatherRisk
      → List PlanningPoi
      → List PlanLock
      → Option WeatherRepairPlan
  unfolding candidate_items lookup is_required_name
  build_weather_repair_plan digest event base candidate impact risks alternatives locks =
      plan_with digest event base candidate impact (
        actions_for (candidate_items candidate) (safe_dates risks locks) impact.affected_item_ids
          alternatives)

abbrev operation : EditOperationKind → WeatherRepairAction → EditOperation
operation kind a = record {
  kind = kind;
  item_id = some a.item_id;
  item_name = none;
  target_date = none;
  target_index = none;
  poi_name = none;
}

abbrev operation_of : WeatherRepairActionKind → WeatherRepairAction → EditOperation
operation_of WeatherRepairActionKind.replace_with_indoor a =
    record (operation EditOperationKind.replace_item a) { poi_name = a.replacement_poi_name }
operation_of WeatherRepairActionKind.move_to_safe_date a =
    record (operation EditOperationKind.move_item a) { target_date = a.target_date }
operation_of WeatherRepairActionKind.remove_optional_item a =
    operation EditOperationKind.remove_item a

unfoldable pub repair_plan_to_edit_patch : WeatherRepairPlan → List EditOperation
repair_plan_to_edit_patch plan =
    map (λ (a : WeatherRepairAction). operation_of a.kind a) plan.actions
