-- ===== src/Planning/Repair/Build.antt =====
-- planning/repair.py: `build_repair_plan`, and the generators for places that are missing. The texts and
-- the fingerprint of a plan are left out.
use travel_plan_agent.Common.{
  ℕ, String, Bool, false, Option, none, some, List, [], ◌∷◌, ◌++◌, ◌&&◌, ◌||◌, not, ltb, ◌==◌,
  str_eq, if◌then◌else◌, filter, find, any, map, contains, nat_eq, string_eq, Result, ok, raise,
}
use travel_plan_agent.Common.Text.{Unicode, normalize, occurs, str_ltb}
use travel_plan_agent.Common.Sort.{sort_by}
use travel_plan_agent.Planning.Models.{
  PlanItem, DayPlan, PlanningPoi, TripSpec, PlanCandidate, RepairActionKind, RepairAction, DraftDay,
  CandidateDraft, Violation, CriticReport, RepairPlan,
}
use travel_plan_agent.Planning.Repair.{
  distinct, is_required_name, preference_score, score_ltb, poi_by_id, deduplicate,
}
use travel_plan_agent.Planning.Repair.Removals.{or_nothing, remove_for_budget, remove_for_day_limit}
use travel_plan_agent.Planning.Repair.Targets.{best_target_day, change_for_time}

abbrev or_else : Option ℕ → Option ℕ → Option ℕ
or_else none other = other
or_else (some a) other = some a

-- The day of the draft that a place is on.
abbrev current_day : String → List DraftDay → Option ℕ
current_day id days = elim (find (λ (d : DraftDay). contains id d.poi_ids) days) [
  | none ↦ none
  | some d ↦ some d.date
]

abbrev pub is_other : Option ℕ → ℕ → Bool
is_other none target = false
is_other (some current) target = not (current == target)

-- The actions of one error, and those of the others.
abbrev pub joined :
    String
    → List RepairAction
    → Result String (List RepairAction)
    → Result String (List RepairAction)
joined type [] others = raise type
joined type (a ∷ actions) (raise e) = raise e
joined type (a ∷ actions) (ok more) = ok (a ∷ actions ++ more)

-- `(action.from_day, action.to_day)` of all actions, as far as they are there.
abbrev days_of : List RepairAction → List ℕ
days_of [] = []
days_of (a ∷ actions) = option_list a.from_day ++ option_list a.to_day ++ days_of actions
  where
    option_list : Option ℕ → List ℕ
    option_list none = []
    option_list (some day) = day ∷ []

-- Why there is no plan.
pub data Stop : Type 0 where
  not_repairable : Option String → Stop
  no_safe_repair_action : String → Stop
  empty_repair_plan : Stop

abbrev all_items : List DayPlan → List PlanItem
all_items [] = []
all_items (d ∷ days) = d.items ++ all_items days

module _ ⦃u : Unicode⦄ where
  -- One name is a part of the other.
  abbrev pub overlaps : String → String → Bool
  overlaps a b = occurs (normalize a) (normalize b) || occurs (normalize b) (normalize a)

  abbrev pub placement : PlanningPoi → Option ℕ → Option ℕ → Option RepairAction
  placement poi current none = none
  placement poi current (some target) = some (record {
    kind =
        if is_other current target
        then RepairActionKind.move_poi
        else RepairActionKind.insert_must_visit;
    source_violation_type = "missing_must_visit";
    poi_id = poi.id;
    from_day = current;
    to_day = some target;
  })

  abbrev pub place_required : TripSpec → CandidateDraft → Option PlanningPoi → Option RepairAction
  place_required trip draft none = none
  place_required trip draft (some poi) =
      let current = current_day poi.id draft.days in
      placement poi current
        (or_else (best_target_day trip draft poi current) (best_target_day trip draft poi none))

  abbrev pub prepend : Option RepairAction → Option (List RepairAction) → Option (List RepairAction)
  prepend none actions = none
  prepend (some a) none = none
  prepend (some a) (some actions) = some (a ∷ actions)

  unfoldable pub place_missing :
      TripSpec
      → CandidateDraft
      → List PlanningPoi
      → List PlanItem
      → List String
      → Option (List RepairAction)
  unfolding best_target_day
  place_missing trip draft pois items [] = some []
  place_missing trip draft pois items (required ∷ names) =
      let others = place_missing trip draft pois items names in
      if any (λ (i : PlanItem). overlaps required i.name) items
      then others
      else prepend
          (place_required trip draft (find (λ (p : PlanningPoi). overlaps required p.name) pois))
          others

  -- The order of the places for an empty plan.
  unfoldable pub ranked_before : TripSpec → PlanningPoi → PlanningPoi → Bool
  ranked_before trip a b =
      let required = is_required_name trip a.name in
      let required' = is_required_name trip b.name in
      let score = preference_score a trip in
      let score' = preference_score b trip in
      (required && not required')
      || (not (required' && not required)
          && (score_ltb score' score
              || (not (score_ltb score score')
                  && (ltb b.data_confidence a.data_confidence
                      || (a.data_confidence == b.data_confidence && str_ltb a.id b.id)))))

  abbrev pub addition : PlanningPoi → ℕ → RepairAction
  addition poi target = record {
    kind = RepairActionKind.add_available_poi;
    source_violation_type = "empty_plan";
    poi_id = poi.id;
    from_day = none;
    to_day = some target;
  }

  unfoldable pub first_addition : TripSpec → CandidateDraft → List PlanningPoi → List RepairAction
  unfolding best_target_day
  first_addition trip draft [] = []
  first_addition trip draft (poi ∷ pois) =
      let others = first_addition trip draft pois in
      elim (best_target_day trip draft poi none) [
        | none ↦ others
        | some target ↦ addition poi target ∷ []
      ]

  module _ (trip : TripSpec) (candidate : PlanCandidate) (draft : CandidateDraft)
      (pois : List PlanningPoi) where
    abbrev pub for_budget : Option ℕ → List RepairAction
    for_budget none = []
    for_budget (some budget) = remove_for_budget trip budget candidate (poi_by_id pois)

    abbrev pub for_day : String → Option ℕ → List RepairAction
    for_day type none = []
    for_day type (some day) = remove_for_day_limit trip candidate (poi_by_id pois) day type

    -- The branches on the type of the violation. The source asserts that there is a budget where one is
    -- exceeded; without one there is no action here.
    unfoldable pub generate : Violation → List RepairAction
    unfolding remove_for_budget remove_for_day_limit place_missing first_addition ranked_before
        change_for_time poi_by_id
    generate v =
        if str_eq v.type "budget_exceeded"
        then for_budget trip.total_budget
        else if str_eq v.type "walking_limit" || str_eq v.type "activity_time_limit"
        then for_day v.type v.day
        else if str_eq v.type "missing_must_visit"
        then or_nothing (place_missing trip draft pois (all_items candidate.days) trip.must_visit)
        else if str_eq v.type "empty_plan"
        then first_addition trip draft (sort_by (ranked_before trip) pois)
        else change_for_time trip draft candidate pois v.type v.day v.entity_ids

    -- The actions of the errors, or the type of the first error without one.
    unfoldable pub collect : List Violation → Result String (List RepairAction)
    unfolding generate
    collect [] = ok []
    collect (v ∷ vs) = joined v.type (generate v) (collect vs)

    abbrev plan_of : ℕ → List RepairAction → RepairPlan
    plan_of round actions =
        let affected = sort_by ltb (distinct [] (days_of actions)) in
        record {
          round = round;
          target_candidate_id = candidate.id;
          source_violation_types =
              sort_by str_ltb
                (distinct [] (map (λ (a : RepairAction). a.source_violation_type) actions));
          actions = actions;
          affected_days = affected;
          preserved_days =
              filter (λ day. not (contains day affected))
                (map (λ (d : DraftDay). d.date) draft.days);
        }

    abbrev pub plan_or_stop : ℕ → List RepairAction → Result Stop RepairPlan
    plan_or_stop round [] = raise empty_repair_plan
    plan_or_stop round (a ∷ actions) = ok (plan_of round (a ∷ actions))

    abbrev pub planned : ℕ → Result String (List RepairAction) → Result Stop RepairPlan
    planned round (raise type) = raise (no_safe_repair_action type)
    planned round (ok actions) = plan_or_stop round (deduplicate [] actions)

    unfoldable pub build_repair_plan : CriticReport → ℕ → Result Stop RepairPlan
    unfolding collect deduplicate distinct
    build_repair_plan report round =
        if report.repairable
        then planned round (collect (filter (λ (v : Violation). v.is_error) candidate.violations))
        else raise (not_repairable report.terminal_reason)
