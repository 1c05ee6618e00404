-- ===== src/Planning/Critic.antt =====
-- planning/critic.py: whether a candidate can be repaired. `"type" in violation_types` is a test on the
-- errors themselves, of which `violation_types` is the sorted set of types.
pub mod Verdict
pub mod Costs
mod Tests
use travel_plan_agent.Common.{
  ℕ, ◌+◌, ◌-◌, String, Bool, true, false, Option, none, some, List, [], ◌∷◌, ◌++◌, ◌&&◌, ◌||◌, not,
  ltb, leb, str_eq, if◌then◌else◌, filter, any, all, map, contains, string_eq,
}
use travel_plan_agent.Common.Text.{Unicode, normalize, occurs, str_ltb}
use travel_plan_agent.Common.Sort.{sort_by}
use Prim.Native.String.{◌++◌ as text_append}
use travel_plan_agent.Planning.Models.{
  PlanItem, DayPlan, PlanningPoi, TripSpec, PlanCandidate, Violation, CriticReport,
}
use travel_plan_agent.Planning.Repair.{distinct, is_required_name}
use travel_plan_agent.Planning.Validator.{all_items, known_cost}

-- `SUPPORTED_REPAIR_VIOLATIONS`
abbrev pub supported_repair_violations : List String
supported_repair_violations =
    "activity_time_limit" ∷ "arrival_buffer" ∷ "budget_exceeded" ∷ "departure_buffer" ∷ "empty_plan"
    ∷ "missing_must_visit" ∷ "outside_daily_window" ∷ "outside_opening_hours" ∷ "time_overlap"
    ∷ "walking_limit" ∷ []

-- `error_violations`
abbrev pub error_violations : List Violation → List Violation
error_violations violations = filter (λ (v : Violation). v.is_error) violations

abbrev pub is_raised : String → List Violation → Bool
is_raised type errors = any (λ (v : Violation). str_eq v.type type) errors

-- `set(violation_types) - SUPPORTED_REPAIR_VIOLATIONS`, sorted.
unfoldable pub unsupported_types : List Violation → List String
unfolding sort_by distinct contains
unsupported_types errors = sort_by str_ltb (
    distinct [] (
      filter (λ (t : String). not (contains t supported_repair_violations))
        (map (λ (v : Violation). v.type) errors)))

-- `",".join(types)`
abbrev joined_by_comma : List String → String
joined_by_comma [] = ""
joined_by_comma (t ∷ []) = t
joined_by_comma (t ∷ t' ∷ types) = text_append t (text_append "," (joined_by_comma (t' ∷ types)))

module _ ⦃u : Unicode⦄ where
  -- Either name holds the other, normalised.
  abbrev is_similar : String → String → Bool
  is_similar required name =
      occurs (normalize required) (normalize name) || occurs (normalize name) (normalize required)

  -- `_required_pois_available`
  unfoldable pub required_pois_available : List PlanItem → List PlanningPoi → List String → Bool
  required_pois_available items pois names =
      all
        (λ required.
          any (λ (i : PlanItem). is_similar required i.name) items
          || any (λ (p : PlanningPoi). is_similar required p.name) pois)
        names

  abbrev pub required_cost : TripSpec → List PlanItem → ℕ
  required_cost trip items =
      known_cost (filter (λ (i : PlanItem). is_required_name trip i.name) items)

  abbrev pub optional_cost : TripSpec → List PlanItem → ℕ
  optional_cost trip items =
      known_cost (filter (λ (i : PlanItem). not (is_required_name trip i.name)) items)

  -- `required_cost <= total_budget and optional_cost >= excess > 0`, where `excess` may be negative.
  abbrev pub budget_fits : TripSpec → ℕ → List PlanItem → Option ℕ → Bool
  budget_fits trip known items none = false
  budget_fits trip known items (some budget) =
      leb (required_cost trip items) budget
      && (leb known (budget + optional_cost trip items) && ltb budget known)

  -- `_budget_can_be_repaired`
  unfoldable pub budget_can_be_repaired : PlanCandidate → TripSpec → Bool
  unfolding is_required_name
  budget_can_be_repaired candidate trip =
      budget_fits trip candidate.known_estimated_cost (all_items candidate.days) trip.total_budget

  abbrev pub has_none : List PlanningPoi → Bool
  has_none [] = true
  has_none (p ∷ pois) = false

  -- The last three tests of `analyze_candidate`.
  abbrev pub conflict_of :
      List Violation → PlanCandidate → TripSpec → List PlanningPoi → Option String
  conflict_of errors candidate trip pois =
      if is_raised "budget_exceeded" errors && not (budget_can_be_repaired candidate trip)
      then some "hard_constraint_conflict:budget"
      else if is_raised "missing_must_visit" errors
          && not (required_pois_available (all_items candidate.days) pois trip.must_visit)
      then some "missing_required_poi_facts"
      else if is_raised "empty_plan" errors && has_none pois
      then some "no_available_poi"
      else none

  -- The chain of tests that sets `terminal_reason`.
  abbrev pub terminal_reason :
      List Violation → List String → PlanCandidate → TripSpec → List PlanningPoi → Option String
  terminal_reason [] unsupported candidate trip pois = some "no_error_violation"
  terminal_reason (v ∷ errors) (t ∷ types) candidate trip pois =
      some (text_append "unsupported_violation:" (joined_by_comma (t ∷ types)))
  terminal_reason (v ∷ errors) [] candidate trip pois = conflict_of (v ∷ errors) candidate trip pois

  abbrev pub is_repairable : Option String → Bool
  is_repairable none = true
  is_repairable (some reason) = false

  unfoldable pub analyze_candidate : PlanCandidate → TripSpec → List PlanningPoi → CriticReport
  unfolding unsupported_types budget_can_be_repaired required_pois_available
  analyze_candidate candidate trip pois =
      let errors = error_violations candidate.violations in
      let reason = terminal_reason errors (unsupported_types errors) candidate trip pois in
      record { repairable = is_repairable reason; terminal_reason = reason }
