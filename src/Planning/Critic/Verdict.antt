-- ===== src/Planning/Critic/Verdict.antt =====
-- planning/critic.py on a candidate that holds the result of its validation by
-- planning/validator.py.
use travel_plan_agent.Common.{
  ℕ, ◌≡◌, ◌∙◌, ap, refl, String, Bool, true, false, Option, none, some, List, [], ◌∷◌, ◌++◌, ◌&&◌,
  ◌||◌, not, str_eq, if◌then◌else◌, filter, any, all, map, contains, string_eq, arith,
}
use travel_plan_agent.Common.Text.{Unicode, str_ltb}
use travel_plan_agent.Common.Sort.{sort_by}
use travel_plan_agent.Planning.Models.{
  PlanItem, DayPlan, PlanningPoi, TripSpec, PlanCandidate, Violation,
}
use travel_plan_agent.Planning.Repair.{poi_by_id, is_activity, distinct}
use travel_plan_agent.Planning.Validator.{
  ids_of, previous_ids, error_of, warning_of, when, check_item, check_items, check_day, check_days,
  check_budget, check_required, assumption_warnings, all_items, known_cost, is_scheduled,
  violations_of, from_violations, validate_candidate,
}
use travel_plan_agent.Planning.Validator.Feasible.{
  is_feasible, within_budget, has_error, has_error-violations_of,
}
use travel_plan_agent.Planning.Critic.{
  supported_repair_violations, error_violations, is_raised, unsupported_types, terminal_reason,
  conflict_of, is_repairable, has_none, budget_can_be_repaired, required_pois_available,
  analyze_candidate,
}

-- The errors that a day can raise do not meet a test.
abbrev NotOnDays : (Violation → Bool) → Type 0
NotOnDays q =
    (day : Option ℕ) (ids : List String)
    → (q (error_of "time_overlap" day ids) ≡ false)
      × (q (error_of "outside_daily_window" day ids) ≡ false)
      × (q (error_of "arrival_buffer" day ids) ≡ false)
      × (q (error_of "departure_buffer" day ids) ≡ false)
      × (q (error_of "outside_opening_hours" day ids) ≡ false)
      × (q (error_of "walking_limit" day ids) ≡ false)
      × (q (error_of "activity_time_limit" day ids) ≡ false)

any-append :
    {A : Type 0} (q : A → Bool) (xs ys : List A) → any q (xs ++ ys) ≡ (any q xs || any q ys)
any-append q [] ys = refl
any-append q (x ∷ xs) ys = ground (arith, any-append q xs ys)

any-when : (q : Violation → Bool) (b : Bool) (v : Violation) → any q (when b v) ≡ (b && q v)
any-when q true v = ground arith
any-when q false v = refl

any-append_none :
    {A : Type 0} (q : A → Bool) (xs ys : List A)
    → any q xs ≡ false
    → any q ys ≡ false
    → any q (xs ++ ys) ≡ false
any-append_none q [] ys h k = k
any-append_none q (x ∷ xs) ys h k = ground (arith, any-append_none q xs ys)

module _ (q : Violation → Bool) (on_days : NotOnDays q) where
  module _ (trip : TripSpec) (pois : List (String × PlanningPoi)) where
    any-check_item :
        (day : ℕ) (previous : Option PlanItem) (item : PlanItem)
        → any q (check_item trip pois day previous item) ≡ false
    any-check_item day previous item =
        let both = on_days (some day) (previous_ids previous ++ ids_of item.poi_id) in
        let own = on_days (some day) (ids_of item.poi_id) in
        simp (any-append, any-when, both.0, own.1, own.2, own.3, own.4) (ground arith)

    any-check_items :
        (day : ℕ) (previous : Option PlanItem) (items : List PlanItem)
        → any q (check_items trip pois day previous items) ≡ false
    unfolding check_items
    any-check_items day previous [] = refl
    any-check_items day previous (item ∷ items) =
        any-append_none q (check_item trip pois day previous item)
          (check_items trip pois day (some item) items) (any-check_item day previous item)
          (any-check_items day (some item) items)

    any-check_day : (d : DayPlan) → any q (check_day trip pois d) ≡ false
    unfolding check_day
    any-check_day d =
        let late = on_days (some d.date) [] in
        simp (any-append, any-when, any-check_items, late.5, late.6) (ground arith)

    any-check_days : (days : List DayPlan) → any q (check_days trip pois days) ≡ false
    unfolding check_days
    any-check_days [] = refl
    any-check_days (d ∷ days) =
        any-append_none q (check_day trip pois d) (check_days trip pois days) (any-check_day d)
          (any-check_days days)

module _ (q : Violation → Bool) (on_warnings : (t : String) → q (warning_of t) ≡ false) where
  any-warnings : (types : List String) → any q (map warning_of types) ≡ false
  any-warnings [] = refl
  any-warnings (t ∷ types) = ground (arith, on_warnings t, any-warnings types)

  any-check_budget :
      (budget : Option ℕ) (items : List PlanItem)
      → any q (check_budget budget items)
        ≡ (not (within_budget budget (known_cost items)) && q (error_of "budget_exceeded" none []))
  any-check_budget none items = refl
  any-check_budget (some budget) items =
      rw (any-append, any-when, any-when, on_warnings "budget_unverified") (ground arith)

any-check_required :
    ⦃u : Unicode⦄ (q : Violation → Bool) (items : List PlanItem) (names : List String)
    → any q (check_required items names)
      ≡ (not (all (is_scheduled items) names) && q (error_of "missing_must_visit" none []))
any-check_required q items [] = refl
any-check_required q items (name ∷ names) =
    rw (any-append, any-when) (ground (arith, any-check_required q items names))

any-violations_of :
    ⦃u : Unicode⦄ (q : Violation → Bool)
    → NotOnDays q
    → ((t : String) → q (warning_of t) ≡ false)
    → (trip : TripSpec) (candidate : PlanCandidate) (pois : List PlanningPoi)
    → any q (violations_of trip candidate pois) ≡ (
        (not (any (λ (i : PlanItem). is_activity i.type) (all_items candidate.days))
          && q (error_of "empty_plan" none []))
        || (not (all (is_scheduled (all_items candidate.days)) trip.must_visit)
            && q (error_of "missing_must_visit" none []))
        || (not (within_budget trip.total_budget (known_cost (all_items candidate.days)))
            && q (error_of "budget_exceeded" none [])))
unfolding violations_of assumption_warnings
any-violations_of q on_days on_warnings trip candidate pois =
    let items = all_items candidate.days in
    rw
      (
        any-append,
        any-append,
        any-append,
        any-append,
        any-when,
        any-check_required q items trip.must_visit,
        any-check_days q on_days trip (poi_by_id pois) candidate.days,
        any-check_budget q on_warnings trip.total_budget items,
        any-warnings q on_warnings,
      )
      (ground arith)

-- The tests of the report, made on all violations.
abbrev is_error_of : String → Violation → Bool
is_error_of type v = v.is_error && str_eq v.type type

abbrev is_unsupported : Violation → Bool
is_unsupported v = v.is_error && not (contains v.type supported_repair_violations)

is_raised-error_violations :
    (type : String) (vs : List Violation)
    → is_raised type (error_violations vs) ≡ any (is_error_of type) vs
is_raised-error_violations type [] = refl
is_raised-error_violations type (v ∷ vs) = ground (arith, is_raised-error_violations type vs)

abbrev unknown_types : List Violation → List String
unknown_types errors =
    filter (λ (t : String). not (contains t supported_repair_violations))
      (map (λ (v : Violation). v.type) errors)

unknown_types_none :
    (vs : List Violation) → any is_unsupported vs ≡ false → unknown_types (error_violations vs) ≡ []
unknown_types_none [] h = refl
unknown_types_none (v ∷ vs) h = ground (arith, unknown_types_none vs)

unsupported_types_none :
    (vs : List Violation)
    → any is_unsupported vs ≡ false
    → unsupported_types (error_violations vs) ≡ []
unfolding unsupported_types sort_by distinct contains
unsupported_types_none vs h = ap (λ ts. sort_by str_ltb (distinct [] ts)) (unknown_types_none vs h)

abbrev has_some : List Violation → Bool
has_some [] = false
has_some (v ∷ vs) = true

has_some-error_violations : (vs : List Violation) → has_some (error_violations vs) ≡ has_error vs
has_some-error_violations [] = refl
has_some-error_violations (v ∷ vs) = ground (arith, has_some-error_violations vs)

is_repairable-conflict_of :
    ⦃u : Unicode⦄ (errors : List Violation) (candidate : PlanCandidate) (trip : TripSpec)
    (pois : List PlanningPoi)
    → is_repairable (conflict_of errors candidate trip pois) ≡ (
        (not (is_raised "budget_exceeded" errors) || budget_can_be_repaired candidate trip)
        && (not (is_raised "missing_must_visit" errors)
            || required_pois_available (all_items candidate.days) pois trip.must_visit)
        && (not (is_raised "empty_plan" errors) || not (has_none pois)))
is_repairable-conflict_of errors candidate trip pois =
    decided (is_raised "budget_exceeded" errors) (budget_can_be_repaired candidate trip)
      (is_raised "missing_must_visit" errors)
      (required_pois_available (all_items candidate.days) pois trip.must_visit)
      (is_raised "empty_plan" errors) (has_none pois)
  where
    decided :
        (b c m r e n : Bool)
        → is_repairable (
            if b && not c
            then some "hard_constraint_conflict:budget"
            else if m && not r
            then some "missing_required_poi_facts"
            else if e && n
            then some "no_available_poi"
            else none)
          ≡ ((not b || c) && (not m || r) && (not e || not n))
    decided b c m r e n = ground arith

is_repairable-terminal_reason :
    ⦃u : Unicode⦄ (errors : List Violation) (candidate : PlanCandidate) (trip : TripSpec)
    (pois : List PlanningPoi)
    → is_repairable (terminal_reason errors [] candidate trip pois)
      ≡ (has_some errors && is_repairable (conflict_of errors candidate trip pois))
is_repairable-terminal_reason [] candidate trip pois = refl
is_repairable-terminal_reason (v ∷ errors) candidate trip pois = refl

abbrev pub is_curable : ⦃u : Unicode⦄ → TripSpec → PlanCandidate → List PlanningPoi → Bool
is_curable trip candidate pois =
    let items = all_items candidate.days in
    (within_budget trip.total_budget (known_cost items) || budget_can_be_repaired candidate trip)
    && (all (is_scheduled items) trip.must_visit
        || required_pois_available items pois trip.must_visit)
    && (any (λ (i : PlanItem). is_activity i.type) items || not (has_none pois))

module _ ⦃u : Unicode⦄ (trip : TripSpec) (candidate : PlanCandidate) (pois : List PlanningPoi) where
  supports_all : unsupported_types (error_violations (violations_of trip candidate pois)) ≡ []
  unfolding contains
  supports_all = unsupported_types_none (violations_of trip candidate pois) (
      any-violations_of is_unsupported (λ day ids. (refl, refl, refl, refl, refl, refl, refl))
        (λ t. refl) trip candidate pois
      ∙ ground arith)

  over_budget :
      is_raised "budget_exceeded" (error_violations (violations_of trip candidate pois))
      ≡ not (within_budget trip.total_budget (known_cost (all_items candidate.days)))
  over_budget =
      is_raised-error_violations "budget_exceeded" (violations_of trip candidate pois)
      ∙ any-violations_of (is_error_of "budget_exceeded")
          (λ day ids. (refl, refl, refl, refl, refl, refl, refl)) (λ t. refl) trip candidate pois
      ∙ ground arith

  lacks_required :
      is_raised "missing_must_visit" (error_violations (violations_of trip candidate pois))
      ≡ not (all (is_scheduled (all_items candidate.days)) trip.must_visit)
  lacks_required =
      is_raised-error_violations "missing_must_visit" (violations_of trip candidate pois)
      ∙ any-violations_of (is_error_of "missing_must_visit")
          (λ day ids. (refl, refl, refl, refl, refl, refl, refl)) (λ t. refl) trip candidate pois
      ∙ ground arith

  lacks_activities :
      is_raised "empty_plan" (error_violations (violations_of trip candidate pois))
      ≡ not (any (λ (i : PlanItem). is_activity i.type) (all_items candidate.days))
  lacks_activities =
      is_raised-error_violations "empty_plan" (violations_of trip candidate pois)
      ∙ any-violations_of (is_error_of "empty_plan")
          (λ day ids. (refl, refl, refl, refl, refl, refl, refl)) (λ t. refl) trip candidate pois
      ∙ ground arith

  is_some_error :
      has_some (error_violations (violations_of trip candidate pois))
      ≡ not (is_feasible trip candidate pois)
  is_some_error =
      has_some-error_violations (violations_of trip candidate pois)
      ∙ has_error-violations_of trip candidate pois

  verdict_on :
      is_repairable (
        terminal_reason
          (error_violations (violations_of trip candidate pois))
          (unsupported_types (error_violations (violations_of trip candidate pois)))
          candidate
          trip
          pois)
      ≡ (not (is_feasible trip candidate pois) && is_curable trip candidate pois)
  verdict_on =
      let errors = error_violations (violations_of trip candidate pois) in
      ap (λ types. is_repairable (terminal_reason errors types candidate trip pois)) supports_all
      ∙ is_repairable-terminal_reason errors candidate trip pois
      ∙ rw
          (
            is_some_error,
            is_repairable-conflict_of errors candidate trip pois,
            over_budget,
            lacks_required,
            lacks_activities,
          )
          (ground arith)

  -- The critic of a candidate that holds the violations of its validation calls it repairable exactly
  -- if it is infeasible, its known costs keep to the budget or the optional items can make up for the
  -- excess, each required place is an activity or all of them are named by items or known places, and
  -- it has an activity or a place is known.
  pub analyze_candidate-curable :
      candidate.violations ≡ (validate_candidate trip candidate pois).violations
      → (analyze_candidate candidate trip pois).repairable
        ≡ (not (is_feasible trip candidate pois) && is_curable trip candidate pois)
  unfolding analyze_candidate validate_candidate from_violations
  analyze_candidate-curable h =
      ap
        (λ violations. is_repairable (
          terminal_reason (error_violations violations)
            (unsupported_types (error_violations violations)) candidate trip pois))
        h
      ∙ verdict_on
