-- ===== src/Planning/Repair/Removals.antt =====
-- planning/repair.py: the removals that bring a cost, a walking distance or a time below its limit. The
-- product `distance * 0.12` is exact here.
use travel_plan_agent.Common.{
  ℕ, ◌+◌, ◌-◌, ◌*◌, String, Bool, Option, none, some, List, [], ◌∷◌, ◌++◌, ◌&&◌, ◌||◌, not, ltb,
  leb, ◌==◌, min, str_eq, if◌then◌else◌, round_div, filter, find, lookup, string_eq,
}
use travel_plan_agent.Common.Text.{Unicode, str_ltb}
use travel_plan_agent.Common.Sort.{sort_by}
use travel_plan_agent.Planning.Models.{
  PlanItem, DayPlan, PlanningPoi, TripSpec, PlanCandidate, RepairActionKind, RepairAction,
}
use travel_plan_agent.Planning.Repair.{
  is_required_name, preference_score, score_ltb, is_activity, place_of,
}

-- An activity of the plan, with its day and its place.
pub record Row : Type 0 where
  pub day : ℕ
  pub item : PlanItem
  pub poi_id : String
  pub poi : PlanningPoi

abbrev Pois : Type 0
Pois = List (String × PlanningPoi)

-- The activities whose place is known.
abbrev pub row_of : Pois → ℕ → PlanItem → Option String → List Row
row_of pois day item none = []
row_of pois day item (some id) = elim (lookup id pois) [
  | none ↦ []
  | some poi ↦ record { day = day; item = item; poi_id = id; poi = poi } ∷ []
]

unfoldable pub rows_of : Pois → ℕ → List PlanItem → List Row
rows_of pois day [] = []
rows_of pois day (item ∷ items) = row_of pois day item (place_of item) ++ rows_of pois day items

-- `_candidate_items`, with the places that are known.
unfoldable pub all_rows : Pois → List DayPlan → List Row
unfolding rows_of
all_rows pois [] = []
all_rows pois (d ∷ days) = rows_of pois d.date d.items ++ all_rows pois days

abbrev pub removal : String → Row → RepairAction
removal type row = record {
  kind = RepairActionKind.remove_optional_poi;
  source_violation_type = type;
  poi_id = row.poi_id;
  from_day = some row.day;
  to_day = none;
}

-- The loop over the options: it ends where enough is saved, and removes nothing if all of them do not
-- save enough.
unfoldable pub remove_until : (Row → ℕ) → String → ℕ → ℕ → List Row → Option (List RepairAction)
remove_until amount type excess saved [] = none
remove_until amount type excess saved (row ∷ rows) =
    let later = remove_until amount type excess (saved + amount row) rows in
    if leb excess (saved + amount row)
    then some (removal type row ∷ [])
    else (elim later [ none ↦ none | some actions ↦ some (removal type row ∷ actions) ])

abbrev pub or_nothing : Option (List RepairAction) → List RepairAction
or_nothing none = []
or_nothing (some actions) = actions

abbrev pub cost_of : Row → ℕ
cost_of row = elim row.item.estimated_cost [ none ↦ 0 | some cost ↦ cost ]

-- `_minutes` of an item: `round((end_at - start_at).total_seconds() / 60)`
abbrev pub minutes_of : PlanItem → ℕ
minutes_of item = round_div (item.end_at - item.start_at) 60

abbrev pub walking_of : PlanItem → ℕ
walking_of item = min (round_div (item.distance_from_previous_meters * 12) 100) 2_000

abbrev pub activity_minutes : List PlanItem → ℕ
activity_minutes [] = 0
activity_minutes (item ∷ items) =
    (if is_activity item.type then minutes_of item else 0) + activity_minutes items

module _ ⦃u : Unicode⦄ (trip : TripSpec) where
  -- The order of the options: the largest amount first, then the least preferred.
  unfoldable pub removed_first : (Row → ℕ) → Row → Row → Bool
  removed_first amount a b =
      let score = preference_score a.poi trip in
      let score' = preference_score b.poi trip in
      ltb (amount b) (amount a)
      || (amount a == amount b
          && (score_ltb score score'
              || (not (score_ltb score' score) && str_ltb a.poi_id b.poi_id)))

  abbrev pub is_optional : Row → Bool
  is_optional row = not (is_required_name trip row.item.name)

  -- What both generators do with an excess.
  unfoldable pub remove_for : (Row → ℕ) → String → ℕ → List Row → List RepairAction
  unfolding removed_first remove_until
  remove_for amount type excess rows =
      if leb excess 0
      then []
      else or_nothing (
          remove_until amount type excess 0
            (sort_by (removed_first amount) (filter is_optional rows)))

  -- `_remove_actions_for_budget`, of a trip with a budget.
  unfoldable pub remove_for_budget : ℕ → PlanCandidate → Pois → List RepairAction
  unfolding remove_for all_rows
  remove_for_budget budget candidate pois =
      remove_for cost_of "budget_exceeded" (candidate.known_estimated_cost - budget)
        (filter (λ row. ltb 0 (cost_of row)) (all_rows pois candidate.days))

  abbrev pub remove_on : Pois → String → DayPlan → List RepairAction
  remove_on pois type d =
      if str_eq type "walking_limit"
      then remove_for (λ row. walking_of row.item) type
          (d.walking_distance_meters - trip.mobility.max_daily_walking_meters)
          (rows_of pois d.date d.items)
      else remove_for (λ row. minutes_of row.item) type
          (activity_minutes d.items - trip.mobility.max_daily_activity_minutes)
          (rows_of pois d.date d.items)

  -- `_remove_actions_for_day_limit`
  unfoldable pub remove_for_day_limit : PlanCandidate → Pois → ℕ → String → List RepairAction
  unfolding remove_for rows_of
  remove_for_day_limit candidate pois day type = elim (find (λ d. d.date == day) candidate.days) [
    | none ↦ []
    | some d ↦ remove_on pois type d
  ]
