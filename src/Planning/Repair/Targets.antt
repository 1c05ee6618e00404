-- ===== src/Planning/Repair/Targets.antt =====
-- planning/repair.py: the day that a place is moved to, and the actions that place or move one.
use travel_plan_agent.Common.{
  ℕ, ◌+◌, ◌-◌, ◌*◌, String, Bool, true, false, Option, none, some, List, [], ◌∷◌, ◌++◌, ◌&&◌, ◌||◌,
  not, ltb, ◌==◌, min, max, if◌then◌else◌, round_div, filter, find, lookup, contains, length,
  nat_eq, string_eq,
}
use travel_plan_agent.Common.Text.{Unicode, str_ltb}
use travel_plan_agent.Common.Sort.{sort_by, least_by}
use travel_plan_agent.Planning.Models.{
  PlanItem, DayPlan, PlanningPoi, TripSpec, PlanCandidate, RepairActionKind, RepairAction, DraftDay,
  CandidateDraft, TimeWindow,
}
use travel_plan_agent.Planning.Repair.{is_required_name, poi_by_id, place_of}

-- `_available_minutes`
unfoldable pub available_minutes : TripSpec → ℕ → ℕ
available_minutes trip day =
    let start = day * 86_400 + trip.daily_start in
    let end = day * 86_400 + trip.daily_end in
    let start' =
      if day == trip.arrival.local_date then max start (trip.arrival.at + 3_600) else start in
    let end' =
      if day == trip.departure.local_date then min end (trip.departure.at - 5_400) else end in
    round_div (end' - start') 60

-- A day that has room: the number of its places, its minutes and its date.
pub record Room : Type 0 where
  pub places : ℕ
  pub minutes : ℕ
  pub date : ℕ

abbrev pub roomier : Room → Room → Bool
roomier a b =
    ltb a.places b.places
    || (a.places == b.places
        && (ltb b.minutes a.minutes || (a.minutes == b.minutes && ltb a.date b.date)))

abbrev fits : TripSpec → PlanningPoi → ℕ → Option TimeWindow → Bool
fits trip poi day none = false
fits trip poi day (some w) =
    not
      (ltb (min (available_minutes trip day) (round_div (w.end - w.start) 60)) poi.duration_minutes)

abbrev is_day : Option ℕ → ℕ → Bool
is_day none day = false
is_day (some d) day = d == day

unfoldable pub rooms : TripSpec → PlanningPoi → Option ℕ → List DraftDay → List Room
unfolding available_minutes
rooms trip poi excluded [] = []
rooms trip poi excluded (d ∷ days) =
    let later = rooms trip poi excluded days in
    if not (is_day excluded d.date) && fits trip poi d.date (lookup d.date poi.opening_windows)
    then record {
      places = length d.poi_ids;
      minutes = available_minutes trip d.date;
      date = d.date;
    }
      ∷ later
    else later

abbrev best : List Room → Option ℕ
best [] = none
best (r ∷ rs) = some (least_by roomier r rs).date

-- `_best_target_day`
unfoldable pub best_target_day : TripSpec → CandidateDraft → PlanningPoi → Option ℕ → Option ℕ
unfolding rooms
best_target_day trip draft poi excluded = best (rooms trip poi excluded draft.days)

-- An activity and its place, of a day.
abbrev pub placed_of : PlanItem → Option String → List (PlanItem × String)
placed_of item none = []
placed_of item (some id) = (item, id) ∷ []

unfoldable pub placed : List PlanItem → List (PlanItem × String)
placed [] = []
placed (item ∷ items) = placed_of item (place_of item) ++ placed items

abbrev pub later : PlanItem × String → PlanItem × String → Bool
later a b = ltb b.0.start_at a.0.start_at || (a.0.start_at == b.0.start_at && str_ltb b.1 a.1)

abbrev pub is_named : List String → String → Bool
is_named [] id = true
is_named (e ∷ es) id = contains id (e ∷ es)

module _ ⦃u : Unicode⦄ (trip : TripSpec) (draft : CandidateDraft) where
  abbrev pub local_removal : String → ℕ → String → RepairAction
  local_removal type day id = record {
    kind = RepairActionKind.remove_optional_poi;
    source_violation_type = type;
    poi_id = id;
    from_day = some day;
    to_day = none;
  }

  -- A required place is moved to another day, if one has room.
  abbrev pub move_or :
      String → ℕ → String → Option PlanningPoi → List RepairAction → List RepairAction
  move_or type day id none others = others
  move_or type day id (some poi) others = elim (best_target_day trip draft poi (some day)) [
    | none ↦ others
    | some target ↦
        record {
          kind = RepairActionKind.move_poi;
          source_violation_type = type;
          poi_id = id;
          from_day = some day;
          to_day = some target;
        }
        ∷ []
  ]

  -- The loop of `_actions_for_local_time_violation`.
  unfoldable pub first_change :
      List (String × PlanningPoi) → String → ℕ → List (PlanItem × String) → List RepairAction
  unfolding best_target_day
  first_change pois type day [] = []
  first_change pois type day ((item, id) ∷ items) =
      let others = first_change pois type day items in
      if not (is_required_name trip item.name)
      then local_removal type day id ∷ []
      else move_or type day id (lookup id pois) others

  abbrev pub change_on :
      List PlanningPoi → String → ℕ → List String → Option DayPlan → List RepairAction
  change_on pois type day ids none = []
  change_on pois type day ids (some d) =
      first_change (poi_by_id pois) type day
        (sort_by later (filter (λ (i : PlanItem × String). is_named ids i.1) (placed d.items)))

  -- `_actions_for_local_time_violation`
  unfoldable pub change_for_time :
      PlanCandidate → List PlanningPoi → String → Option ℕ → List String → List RepairAction
  unfolding first_change poi_by_id placed
  change_for_time candidate pois type none ids = []
  change_for_time candidate pois type (some day) ids =
      change_on pois type day ids (find (λ d. d.date == day) candidate.days)
