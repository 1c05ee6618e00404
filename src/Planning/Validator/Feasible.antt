-- ===== src/Planning/Validator/Feasible.antt =====
-- A plan is invalid exactly if it breaks one of the rules, which are stated here without the loops.
use travel_plan_agent.Common.{
  ℕ, ◌≡◌, ◌∙◌, ap, refl, String, Bool, true, false, Option, none, some, List, [], ◌∷◌, ◌++◌, ◌&&◌,
  ◌||◌, ◌*◌, ◌==◌, ◌+◌, lookup, nat_eq, not, leb, if◌then◌else◌, any, all, map, arith,
}
use travel_plan_agent.Common.Text.{Unicode}
use travel_plan_agent.Common.Sort.{sort_by, insert_by}
use travel_plan_agent.Planning.Models.{
  PlanItem, DayPlan, PlanningPoi, TripSpec, TimeWindow, PlanCandidate, Violation,
  PlanningAssumption,
}
use travel_plan_agent.Planning.Repair.{poi_by_id, is_activity}
use travel_plan_agent.Planning.Validator.{
  ValidationStatus, status_of, from_violations, error_of, warning_of, when, poi_of,
  outside_opening_hours, outside_window, is_verified, overlaps_previous, check_item, check_items,
  whole_minutes, starts_before, all_items, known_cost, check_day, check_days, check_budget,
  warning_types, assumption_warnings, is_scheduled, check_required, violations_of,
  validate_candidate,
}

-- Within the opening hours, where a provider gave them for the day.
abbrev pub within_window : ℕ → PlanItem → Option TimeWindow → Bool
within_window day item none = true
within_window day item (some w) =
    leb (day * 86_400 + w.start) item.start_at && leb item.end_at (day * 86_400 + w.end)

abbrev pub within_hours : ℕ → PlanItem → Option PlanningPoi → Bool
within_hours day item none = true
within_hours day item (some poi) =
    not (is_verified day poi) || within_window day item (lookup day poi.opening_windows)

-- An item that keeps to its day, with an hour after the arrival and an hour and a half before the
-- departure.
abbrev pub fits_day : TripSpec → List (String × PlanningPoi) → ℕ → PlanItem → Bool
fits_day trip pois day item =
    (not (is_activity item.type)
      || (leb (day * 86_400 + trip.daily_start) item.start_at
          && leb item.end_at (day * 86_400 + trip.daily_end)))
    && (not (day == trip.arrival.local_date) || leb (trip.arrival.at + 3_600) item.start_at)
    && (not (day == trip.departure.local_date) || leb (item.end_at + 5_400) trip.departure.at)
    && within_hours day item (poi_of pois item)

abbrev pub ends_before : Option PlanItem → PlanItem → Bool
ends_before none item = true
ends_before (some previous) item = leb previous.end_at item.start_at

-- No item of a list starts before its predecessor has ended.
abbrev pub is_sequential : Option PlanItem → List PlanItem → Bool
is_sequential previous [] = true
is_sequential previous (item ∷ items) = ends_before previous item && is_sequential (some item) items

abbrev pub day_is_feasible : TripSpec → List (String × PlanningPoi) → DayPlan → Bool
day_is_feasible trip pois d =
    is_sequential none (sort_by starts_before d.items)
    && all (fits_day trip pois d.date) d.items
    && leb d.walking_distance_meters trip.mobility.max_daily_walking_meters
    && leb (whole_minutes d.items) trip.mobility.max_daily_activity_minutes

abbrev pub within_budget : Option ℕ → ℕ → Bool
within_budget none cost = true
within_budget (some budget) cost = leb cost budget

abbrev pub is_feasible : ⦃u : Unicode⦄ → TripSpec → PlanCandidate → List PlanningPoi → Bool
is_feasible trip candidate pois =
    any (λ (i : PlanItem). is_activity i.type) (all_items candidate.days)
    && all (is_scheduled (all_items candidate.days)) trip.must_visit
    && all (day_is_feasible trip (poi_by_id pois)) candidate.days
    && within_budget trip.total_budget (known_cost (all_items candidate.days))

abbrev pub has_error : List Violation → Bool
has_error = any (λ (v : Violation). v.is_error)

abbrev pub is_invalid : ValidationStatus → Bool
is_invalid ValidationStatus.valid = false
is_invalid ValidationStatus.valid_with_warnings = false
is_invalid ValidationStatus.invalid = true

is_invalid-status_of : (vs : List Violation) → is_invalid (status_of vs) ≡ has_error vs
unfolding status_of
is_invalid-status_of [] = refl
is_invalid-status_of (v ∷ vs) = decided (has_error (v ∷ vs))
  where
    decided :
        (b : Bool)
        → is_invalid (if b then ValidationStatus.invalid else ValidationStatus.valid_with_warnings)
          ≡ b
    decided true = refl
    decided false = refl

has_error-append : (xs ys : List Violation) → has_error (xs ++ ys) ≡ (has_error xs || has_error ys)
has_error-append [] ys = refl
has_error-append (x ∷ xs) ys = ground (arith, has_error-append xs ys)

has_error-when_error :
    (b : Bool) (type : String) (day : Option ℕ) (ids : List String)
    → has_error (when b (error_of type day ids)) ≡ b
has_error-when_error true type day ids = refl
has_error-when_error false type day ids = refl

has_error-when_warning : (b : Bool) (type : String) → has_error (when b (warning_of type)) ≡ false
has_error-when_warning true type = refl
has_error-when_warning false type = refl

has_error-warnings : (types : List String) → has_error (map warning_of types) ≡ false
has_error-warnings [] = refl
has_error-warnings (t ∷ types) = has_error-warnings types

outside_within :
    (day : ℕ) (item : PlanItem) (o : Option PlanningPoi)
    → outside_opening_hours day item o ≡ not (within_hours day item o)
outside_within day item none = refl
outside_within day item (some poi) = windowed (lookup day poi.opening_windows)
  where
    windowed :
        (w : Option TimeWindow)
        → (is_verified day poi && outside_window day item w)
          ≡ not (not (is_verified day poi) || within_window day item w)
    windowed none = ground arith
    windowed (some w) = ground arith

overlaps_ends :
    (previous : Option PlanItem) (item : PlanItem)
    → overlaps_previous previous item ≡ not (ends_before previous item)
overlaps_ends none item = refl
overlaps_ends (some previous) item = ground arith

none_breaks :
    (e f s r : Bool) {a b : Bool}
    → a ≡ (not e || not f)
    → b ≡ not (s && r)
    → (a || b) ≡ not ((e && s) && (f && r))
none_breaks e f s r p q = ground arith

module _ (trip : TripSpec) (pois : List (String × PlanningPoi)) where
  has_error-check_item :
      (day : ℕ) (previous : Option PlanItem) (item : PlanItem)
      → has_error (check_item trip pois day previous item)
        ≡ (not (ends_before previous item) || not (fits_day trip pois day item))
  has_error-check_item day previous item =
      simp (has_error-append, has_error-when_error)
        (ground (arith, outside_within day item (poi_of pois item), overlaps_ends previous item))

  has_error-check_items :
      (day : ℕ) (previous : Option PlanItem) (items : List PlanItem)
      → has_error (check_items trip pois day previous items)
        ≡ not (is_sequential previous items && all (fits_day trip pois day) items)
  unfolding check_items
  has_error-check_items day previous [] = refl
  has_error-check_items day previous (item ∷ items) =
      has_error-append (check_item trip pois day previous item)
        (check_items trip pois day (some item) items)
      ∙ none_breaks (ends_before previous item) (fits_day trip pois day item)
          (is_sequential (some item) items) (all (fits_day trip pois day) items)
          (has_error-check_item day previous item) (has_error-check_items day (some item) items)

all-insert_by :
    {A : Type 0} (p : A → Bool) (lt : A → A → Bool) (x : A) (xs : List A)
    → all p (insert_by lt x xs) ≡ (p x && all p xs)
unfolding insert_by
all-insert_by p lt x [] = refl
all-insert_by p lt x (y ∷ ys) = ground (arith, all-insert_by p lt x ys)

all-sort_by :
    {A : Type 0} (p : A → Bool) (lt : A → A → Bool) (xs : List A) → all p (sort_by lt xs) ≡ all p xs
unfolding sort_by
all-sort_by p lt [] = refl
all-sort_by p lt (x ∷ xs) =
    all-insert_by p lt x (sort_by lt xs) ∙ ap (λ b. p x && b) (all-sort_by p lt xs)

minutes-insert_by :
    (lt : PlanItem → PlanItem → Bool) (x : PlanItem) (xs : List PlanItem)
    → whole_minutes (insert_by lt x xs) ≡ whole_minutes (x ∷ xs)
unfolding insert_by
minutes-insert_by lt x [] = refl
minutes-insert_by lt x (y ∷ ys) = ground (arith, minutes-insert_by lt x ys)

minutes-sort_by :
    (lt : PlanItem → PlanItem → Bool) (xs : List PlanItem)
    → whole_minutes (sort_by lt xs) ≡ whole_minutes xs
unfolding sort_by
minutes-sort_by lt [] = refl
minutes-sort_by lt (x ∷ xs) =
    minutes-insert_by lt x (sort_by lt xs) ∙ ground (arith, minutes-sort_by lt xs)

module _ (trip : TripSpec) (pois : List (String × PlanningPoi)) where
  has_error-check_day :
      (d : DayPlan) → has_error (check_day trip pois d) ≡ not (day_is_feasible trip pois d)
  unfolding check_day
  has_error-check_day d =
      let ordered = sort_by starts_before d.items in
      rw (has_error-append, has_error-append, has_error-when_error, has_error-when_error)
        (ground (
          arith,
          has_error-check_items trip pois d.date none ordered,
          all-sort_by (fits_day trip pois d.date) starts_before d.items,
          minutes-sort_by starts_before d.items,
        ))

  has_error-check_days :
      (days : List DayPlan)
      → has_error (check_days trip pois days) ≡ not (all (day_is_feasible trip pois) days)
  unfolding check_days
  has_error-check_days [] = refl
  has_error-check_days (d ∷ days) =
      rw (has_error-append) (ground (arith, has_error-check_day d, has_error-check_days days))

has_error-check_budget :
    (budget : Option ℕ) (items : List PlanItem)
    → has_error (check_budget budget items) ≡ not (within_budget budget (known_cost items))
has_error-check_budget none items = refl
has_error-check_budget (some budget) items =
    rw (has_error-append, has_error-when_warning, has_error-when_error) (ground arith)

has_error-check_required :
    ⦃u : Unicode⦄ (items : List PlanItem) (names : List String)
    → has_error (check_required items names) ≡ not (all (is_scheduled items) names)
has_error-check_required items [] = refl
has_error-check_required items (name ∷ names) =
    rw (has_error-append, has_error-when_error)
      (ground (arith, has_error-check_required items names))

has_error-assumption_warnings :
    (assumptions : List PlanningAssumption) (unverified : Bool)
    → has_error (assumption_warnings assumptions unverified) ≡ false
unfolding assumption_warnings
has_error-assumption_warnings assumptions unverified =
    has_error-warnings (warning_types assumptions unverified)

pub has_error-violations_of :
    ⦃u : Unicode⦄ (trip : TripSpec) (candidate : PlanCandidate) (pois : List PlanningPoi)
    → has_error (violations_of trip candidate pois) ≡ not (is_feasible trip candidate pois)
unfolding violations_of
has_error-violations_of trip candidate pois =
    let items = all_items candidate.days in
    rw
      (
        has_error-append, has_error-append, has_error-append, has_error-append,
        has_error-when_error, has_error-assumption_warnings,
      )
      (ground (
        arith,
        has_error-check_required items trip.must_visit,
        has_error-check_days trip (poi_by_id pois) candidate.days,
        has_error-check_budget trip.total_budget items,
      ))

-- The validation calls a plan invalid exactly if it breaks a rule: there must be an activity; each
-- required place must be the name of one, up to parts of names; on every day, in the order of their
-- starts, no item may start before the one before it has ended, activities keep to the daily window,
-- all items to the buffers at arrival and departure and to the opening hours that a provider gave, and
-- the walking distance and the time of the activities to their limits; and the known costs keep to the
-- budget. Assumptions and unknown costs never make it invalid.
pub validate_candidate-feasible :
    ⦃u : Unicode⦄ (trip : TripSpec) (candidate : PlanCandidate) (pois : List PlanningPoi)
    → (is_invalid (validate_candidate trip candidate pois).status)
      ≡ not (is_feasible trip candidate pois)
unfolding validate_candidate from_violations
validate_candidate-feasible trip candidate pois =
    is_invalid-status_of (violations_of trip candidate pois)
    ∙ has_error-violations_of trip candidate pois
