-- ===== src/Planning/Repair/Apply.antt =====
-- planning/repair.py: `apply_repair_plan`, without the keys of the routes that it invalidates, which
-- planning/impact.py lists.
use travel_plan_agent.Common.{
  ℕ, String, Bool, true, false, Option, none, some, List, [], ◌∷◌, not, if◌then◌else◌, filter,
  lookup, insert, nat_eq, string_eq, str_eq, Result, ok, raise, map, ◌&&◌, ◌==◌,
}
use travel_plan_agent.Planning.Models.{
  RepairActionKind, RepairAction, DraftDay, CandidateDraft, RepairPlan,
}

-- `day_pois[day]` of a day that is not in the draft, and a plan without effect.
pub data ApplyError : Type 0 where
  key_error : ℕ → ApplyError
  unchanged : ApplyError

-- The places of each day.
abbrev pub DayPois : Type 0
DayPois = List (ℕ × List String)

abbrev pub index_days : List DraftDay → DayPois → DayPois
index_days [] m = m
index_days (d ∷ days) m = index_days days (insert d.date d.poi_ids m)

unfoldable pub day_pois : List DraftDay → DayPois
day_pois days = index_days days []

unfoldable pub without : String → List String → List String
without id ids = filter (λ i. not (str_eq i id)) ids

abbrev pub is_removal : RepairActionKind → Bool
is_removal RepairActionKind.remove_optional_poi = true
is_removal RepairActionKind.move_poi = false
is_removal RepairActionKind.reorder_optional_poi = false
is_removal RepairActionKind.insert_must_visit = false
is_removal RepairActionKind.add_available_poi = false

-- `day_pois[day] = change(day_pois[day])`
abbrev pub change_day : (List String → List String) → ℕ → DayPois → Result ApplyError DayPois
change_day change day m = elim (lookup day m) [
  | none ↦ raise (key_error day)
  | some ids ↦ ok (insert day (change ids) m)
]

abbrev pub on_day : (List String → List String) → Option ℕ → DayPois → Result ApplyError DayPois
on_day change none m = ok m
on_day change (some day) m = change_day change day m

-- `for day in day_pois`: the place is taken off every day.
unfoldable pub take_off : String → DayPois → DayPois
unfolding without
take_off id [] = []
take_off id ((day, ids) ∷ m) = (day, without id ids) ∷ take_off id m

unfoldable pub apply_action : RepairAction → DayPois → Result ApplyError DayPois
unfolding take_off
apply_action a m =
    if is_removal a.kind
    then on_day (without a.poi_id) a.from_day m
    else on_day (λ ids. a.poi_id ∷ ids) a.to_day (take_off a.poi_id m)

abbrev pub then_apply :
    Result ApplyError DayPois → (DayPois → Result ApplyError DayPois) → Result ApplyError DayPois
then_apply (raise e) next = raise e
then_apply (ok m) next = next m

unfoldable pub apply_actions : List RepairAction → DayPois → Result ApplyError DayPois
unfolding apply_action
apply_actions [] m = ok m
apply_actions (a ∷ actions) m = then_apply (apply_action a m) (apply_actions actions)

abbrev same_ids : List String → List String → Bool
same_ids [] [] = true
same_ids [] (i ∷ is) = false
same_ids (i ∷ is) [] = false
same_ids (i ∷ is) (j ∷ js) = str_eq i j && same_ids is js

abbrev pub same_days : List DraftDay → List DraftDay → Bool
same_days [] [] = true
same_days [] (d ∷ ds) = false
same_days (d ∷ ds) [] = false
same_days (d ∷ ds) (e ∷ es) = d.date == e.date && same_ids d.poi_ids e.poi_ids && same_days ds es

abbrev pub or_empty : Option (List String) → List String
or_empty none = []
or_empty (some ids) = ids

-- `DraftDay(date=day.date, poi_ids=tuple(day_pois[day.date]))`: every day of the draft has its entry.
abbrev pub rebuilt : DayPois → DraftDay → DraftDay
rebuilt m d = record d { poi_ids = or_empty (lookup d.date m) }

abbrev pub changed : CandidateDraft → String → List DraftDay → Result ApplyError CandidateDraft
changed draft id days =
    if same_days days draft.days then raise unchanged else ok (record { id = id; days = days })

abbrev pub finished :
    CandidateDraft → String → Result ApplyError DayPois → Result ApplyError CandidateDraft
finished draft id (raise e) = raise e
finished draft id (ok m) = changed draft id (map (rebuilt m) draft.days)

-- The text `f"{draft.id}-repair-r{plan.round}"` is an argument.
unfoldable pub apply_repair_plan :
    CandidateDraft → RepairPlan → String → Result ApplyError CandidateDraft
unfolding apply_actions day_pois
apply_repair_plan draft plan id =
    finished draft id (apply_actions plan.actions (day_pois draft.days))
