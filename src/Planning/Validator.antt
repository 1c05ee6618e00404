-- ===== src/Planning/Validator.antt =====
-- planning/validator.py: `validate_candidate` of places with planning facts, and the status of its
-- result in domain/models.py. The items of a plan are in the time zone of the trip. Messages and hints
-- are left out.
pub mod Feasible
mod Tests
use Prim.Native.String.{◌++◌ as text_append}
use travel_plan_agent.Common.{
  ℕ, ◌+◌, ◌-◌, ◌*◌, ◌/◌, String, Bool, true, false, Option, none, some, List, [], ◌∷◌, ◌++◌, ◌&&◌,
  ◌||◌, not, ltb, leb, ◌==◌, str_eq, if◌then◌else◌, filter, any, map, lookup, contains, nat_eq,
  string_eq,
}
use travel_plan_agent.Common.Text.{Unicode, is_empty, str_ltb}
use travel_plan_agent.Common.Sort.{sort_by}
use travel_plan_agent.Planning.Models.{
  PlanItem, DayPlan, PlanningPoi, TripSpec, PlanCandidate, Violation, TimeWindow, ValueSource,
  PlanningAssumption,
}
use travel_plan_agent.Planning.Repair.{distinct, poi_by_id, is_activity}
use travel_plan_agent.Planning.Repair.Build.{overlaps}

pub data ValidationStatus : Type 0 where
  valid valid_with_warnings invalid : ValidationStatus

-- `_status_from_violations`
unfoldable pub status_of : List Violation → ValidationStatus
status_of violations =
    if any (λ (v : Violation). v.is_error) violations
    then ValidationStatus.invalid
    else elim violations [
      | [] ↦ ValidationStatus.valid
      | (v ∷ vs) ↦ ValidationStatus.valid_with_warnings
    ]

pub record ValidationResult : Type 0 where
  pub status : ValidationStatus
  pub violations : List Violation

unfoldable pub from_violations : List Violation → ValidationResult
unfolding status_of
from_violations violations = record { status = status_of violations; violations = violations }

abbrev pub error_of : String → Option ℕ → List String → Violation
error_of type day ids = record { type = type; is_error = true; day = day; entity_ids = ids }

abbrev pub warning_of : String → Violation
warning_of type = record { type = type; is_error = false; day = none; entity_ids = [] }

abbrev pub when : Bool → Violation → List Violation
when true v = v ∷ []
when false v = []

-- `[item.poi_id] if item.poi_id else []`
abbrev pub ids_of : Option String → List String
ids_of none = []
ids_of (some id) = if is_empty id then [] else id ∷ []

-- The tests of one item on its day.
abbrev pub outside_daily_window : TripSpec → ℕ → PlanItem → Bool
outside_daily_window trip day item =
    is_activity item.type
    && (ltb item.start_at (day * 86_400 + trip.daily_start)
        || ltb (day * 86_400 + trip.daily_end) item.end_at)

abbrev pub before_arrival : TripSpec → ℕ → PlanItem → Bool
before_arrival trip day item =
    day == trip.arrival.local_date && ltb item.start_at (trip.arrival.at + 3_600)

abbrev pub after_departure : TripSpec → ℕ → PlanItem → Bool
after_departure trip day item =
    day == trip.departure.local_date && ltb trip.departure.at (item.end_at + 5_400)

-- `poi_by_id[item.poi_id]`, where the identifier is not empty.
abbrev pub poi_of : List (String × PlanningPoi) → PlanItem → Option PlanningPoi
poi_of pois item = elim item.poi_id [
  | none ↦ none
  | some id ↦ if is_empty id then none else lookup id pois
]

abbrev is_provider : ValueSource → Bool
is_provider ValueSource.provider = true
is_provider ValueSource.derived = false
is_provider ValueSource.default = false
is_provider ValueSource.user_confirmed = false

-- `poi.opening_window_sources.get(day, ValueSource.DEFAULT) is ValueSource.PROVIDER`
abbrev pub is_verified : ℕ → PlanningPoi → Bool
is_verified day poi = elim (lookup day poi.opening_window_sources) [
  | none ↦ false
  | some source ↦ is_provider source
]

abbrev pub outside_window : ℕ → PlanItem → Option TimeWindow → Bool
outside_window day item none = false
outside_window day item (some w) =
    ltb item.start_at (day * 86_400 + w.start) || ltb (day * 86_400 + w.end) item.end_at

abbrev pub outside_opening_hours : ℕ → PlanItem → Option PlanningPoi → Bool
outside_opening_hours day item none = false
outside_opening_hours day item (some poi) =
    is_verified day poi && outside_window day item (lookup day poi.opening_windows)

abbrev pub is_unverified : ℕ → Option PlanningPoi → Bool
is_unverified day none = false
is_unverified day (some poi) = not (is_verified day poi)

abbrev pub overlaps_previous : Option PlanItem → PlanItem → Bool
overlaps_previous none item = false
overlaps_previous (some previous) item = ltb item.start_at previous.end_at

abbrev pub previous_ids : Option PlanItem → List String
previous_ids none = []
previous_ids (some previous) = ids_of previous.poi_id

module _ (trip : TripSpec) (pois : List (String × PlanningPoi)) where
  abbrev pub check_item : ℕ → Option PlanItem → PlanItem → List Violation
  check_item day previous item =
      when (overlaps_previous previous item)
        (error_of "time_overlap" (some day) (previous_ids previous ++ ids_of item.poi_id))
      ++ when (outside_daily_window trip day item)
          (error_of "outside_daily_window" (some day) (ids_of item.poi_id))
      ++ when (before_arrival trip day item)
          (error_of "arrival_buffer" (some day) (ids_of item.poi_id))
      ++ when (after_departure trip day item)
          (error_of "departure_buffer" (some day) (ids_of item.poi_id))
      ++ when (outside_opening_hours day item (poi_of pois item))
          (error_of "outside_opening_hours" (some day) (ids_of item.poi_id))

  -- The loop over the items of a day, in the order of their starts.
  unfoldable pub check_items : ℕ → Option PlanItem → List PlanItem → List Violation
  check_items day previous [] = []
  check_items day previous (item ∷ items) =
      check_item day previous item ++ check_items day (some item) items

-- `sum(int((end_at - start_at).total_seconds() / 60) ...)`
abbrev pub whole_minutes : List PlanItem → ℕ
whole_minutes [] = 0
whole_minutes (item ∷ items) =
    (if is_activity item.type then (item.end_at - item.start_at) / 60 else 0) + whole_minutes items

abbrev pub starts_before : PlanItem → PlanItem → Bool
starts_before a b = ltb a.start_at b.start_at

abbrev pub all_items : List DayPlan → List PlanItem
all_items [] = []
all_items (d ∷ days) = d.items ++ all_items days

abbrev pub known_cost : List PlanItem → ℕ
known_cost [] = 0
known_cost (item ∷ items) =
    (elim item.estimated_cost [ none ↦ 0 | some cost ↦ cost ]) + known_cost items

abbrev pub has_no_cost : PlanItem → Bool
has_no_cost item = elim item.estimated_cost [ none ↦ true | some cost ↦ false ]

module _ (trip : TripSpec) (pois : List (String × PlanningPoi)) where
  unfoldable pub check_day : DayPlan → List Violation
  unfolding check_items
  check_day d =
      let ordered = sort_by starts_before d.items in
      check_items trip pois d.date none ordered
      ++ when (ltb trip.mobility.max_daily_walking_meters d.walking_distance_meters)
          (error_of "walking_limit" (some d.date) [])
      ++ when (ltb trip.mobility.max_daily_activity_minutes (whole_minutes ordered))
          (error_of "activity_time_limit" (some d.date) [])

  unfoldable pub check_days : List DayPlan → List Violation
  unfolding check_day
  check_days [] = []
  check_days (d ∷ days) = check_day d ++ check_days days

-- The two checks of a trip with a budget.
abbrev pub check_budget : Option ℕ → List PlanItem → List Violation
check_budget none items = []
check_budget (some budget) items =
    when (any has_no_cost items) (warning_of "budget_unverified")
    ++ when (ltb budget (known_cost items)) (error_of "budget_exceeded" none [])

-- `_ASSUMPTION_WARNINGS`
abbrev warning_type : String → String
warning_type field =
    if str_eq field "opening_window"
    then "opening_hours_unverified"
    else if str_eq field "duration_minutes"
    then "duration_unverified"
    else if str_eq field "walking_distance" || str_eq field "walking_distance_meters"
    then "walking_distance_estimated"
    else if str_eq field "party_cost"
    then "cost_unverified"
    else text_append field "_unverified"

abbrev is_default : ValueSource → Bool
is_default ValueSource.provider = false
is_default ValueSource.derived = false
is_default ValueSource.default = true
is_default ValueSource.user_confirmed = false

-- The types of `warnings_by_type`, sorted.
unfoldable pub warning_types : List PlanningAssumption → Bool → List String
unfolding distinct
warning_types assumptions unverified = sort_by str_ltb (
    distinct [] (
      map (λ (a : PlanningAssumption). warning_type a.field)
        (filter (λ (a : PlanningAssumption). is_default a.source) assumptions)
      ++ (if unverified then "opening_hours_unverified" ∷ [] else [])))

-- `_assumption_warnings`
unfoldable pub assumption_warnings : List PlanningAssumption → Bool → List Violation
unfolding warning_types
assumption_warnings assumptions unverified = map warning_of (warning_types assumptions unverified)

module _ ⦃u : Unicode⦄ where
  abbrev pub is_scheduled : List PlanItem → String → Bool
  is_scheduled items required =
      any (λ (i : PlanItem). is_activity i.type && overlaps required i.name) items

  abbrev pub check_required : List PlanItem → List String → List Violation
  check_required items [] = []
  check_required items (required ∷ names) =
      when (not (is_scheduled items required)) (error_of "missing_must_visit" none [])
      ++ check_required items names

  abbrev any_unverified : List (String × PlanningPoi) → List DayPlan → Bool
  any_unverified pois days =
      any (λ (d : DayPlan). any (λ (i : PlanItem). is_unverified d.date (poi_of pois i)) d.items)
        days

  unfoldable pub violations_of : TripSpec → PlanCandidate → List PlanningPoi → List Violation
  unfolding check_days assumption_warnings poi_by_id
  violations_of trip candidate pois =
      let items = all_items candidate.days in
      when (not (any (λ (i : PlanItem). is_activity i.type) items)) (error_of "empty_plan" none [])
      ++ check_required items trip.must_visit
      ++ check_days trip (poi_by_id pois) candidate.days
      ++ check_budget trip.total_budget items
      ++ assumption_warnings candidate.assumptions (any_unverified (poi_by_id pois) candidate.days)

  unfoldable pub validate_candidate : TripSpec → PlanCandidate → List PlanningPoi → ValidationResult
  unfolding violations_of from_violations
  validate_candidate trip candidate pois = from_violations (violations_of trip candidate pois)
