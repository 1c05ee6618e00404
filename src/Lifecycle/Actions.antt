-- ===== src/Lifecycle/Actions.antt =====
-- lifecycle/actions.py: `apply_edit_patch`, which applies a grounded edit to the draft of the active
-- plan. The text for the language model, `edit_item_context`, is left out, and `new_item_id` is a
-- function of the index of the operation.
pub mod Counts
pub mod Days
pub mod Touches
pub mod Local
pub mod Protected
pub mod Unaffected
use travel_plan_agent.Common.{
  ℕ, zero, suc, ◌+◌, String, Bool, true, false, Option, none, some, List, [], ◌∷◌, ◌++◌, str_eq,
  not, ◌&&◌, map, if◌then◌else◌, filter, contains, lookup, insert, nat_eq, string_eq, Result, ok,
  raise, and_then, require, or_raise, Eq,
}
use travel_plan_agent.Common.Text.{Unicode, is_empty, normalize, occurs}
use travel_plan_agent.Planning.Models.{
  PlanItem, DayPlan, PlanCandidate, PlanningPoi, TripSpec, DraftDay, CandidateDraft,
}
use travel_plan_agent.Planning.Repair.{is_required_name}
use travel_plan_agent.Planning.Repair.Build.{overlaps}
use travel_plan_agent.Planning.Repair.Apply.{DayPois, day_pois, index_days, rebuilt}
use travel_plan_agent.Lifecycle.Models.{
  EditOperation, EditOperationKind, LifecycleError, action_error, key_error, value_error,
  assertion_error,
}
use travel_plan_agent.Lifecycle.Impact.{given, optional, located}
use travel_plan_agent.Lifecycle.Grounding.{DatedItem, items_with_id}

-- `days` and `item_ids_by_poi` while an edit is applied.
pub record Editing : Type 0 where
  pub days : DayPois
  pub item_ids_by_poi : List (String × String)

abbrev index_item :
    Option String → DatedItem → List (String × DatedItem) → List (String × DatedItem)
index_item none e m = m
index_item (some id) e m = insert id e m

abbrev pub index_items : List DatedItem → List (String × DatedItem) → List (String × DatedItem)
index_items [] m = m
index_items ((date, i) ∷ items) m = index_items items (index_item i.item_id (date, i) m)

-- `candidate_items`
unfoldable pub candidate_items : PlanCandidate → List (String × DatedItem)
candidate_items candidate = index_items (items_with_id candidate.days) []

abbrev index_poi : Option String → Option String → List (String × String) → List (String × String)
index_poi (some poi) (some id) m = insert poi id m
index_poi none id m = m
index_poi (some poi) none m = m

abbrev index_pois : List (String × DatedItem) → List (String × String) → List (String × String)
index_pois [] m = m
index_pois ((id, (date, i)) ∷ items) m = index_pois items (index_poi i.poi_id i.item_id m)

abbrev kept_head : String → Option (List String) → Option (List String)
kept_head i none = none
kept_head i (some ids) = some (i ∷ ids)

-- `list.remove`, which raises if there is nothing to remove.
abbrev pub remove_first : String → List String → Option (List String)
remove_first id [] = none
remove_first id (i ∷ ids) =
    let others = kept_head i (remove_first id ids) in if str_eq i id then some ids else others

-- `ids[ids.index(old)] = new`
abbrev pub replace_first : String → String → List String → Option (List String)
replace_first old new [] = none
replace_first old new (i ∷ ids) =
    let others = kept_head i (replace_first old new ids) in
    if str_eq i old then some (new ∷ ids) else others

-- `list.insert` at an index that is at most the length.
abbrev pub insert_at : ℕ → String → List String → List String
insert_at zero id ids = id ∷ ids
insert_at (suc n) id [] = id ∷ []
insert_at (suc n) id (i ∷ ids) = i ∷ insert_at n id ids

-- At the index, or at the end.
abbrev pub place_at : Option ℕ → String → List String → List String
place_at none id ids = ids ++ id ∷ []
place_at (some n) id ids = insert_at n id ids

-- `days[day]` is changed: the day may be missing, and the change may fail.
abbrev pub change_with :
    (List String → Option (List String)) → ℕ → DayPois → Result LifecycleError DayPois
change_with change day days =
    and_then (or_raise (lookup day days) key_error)
      λ ids. and_then (or_raise (change ids) value_error) λ ids'. ok (insert day ids' days)

abbrev pub put_on : Option ℕ → String → ℕ → DayPois → Result LifecycleError DayPois
put_on index id day days =
    and_then (or_raise (lookup day days) (action_error "date_out_of_range"))
      λ ids. ok (insert day (place_at index id ids) days)

-- `source_day` and `source_item.poi_id`, which are asserted.
abbrev pub source_of : Option DatedItem → Result LifecycleError (ℕ × String)
source_of none = raise assertion_error
source_of (some (date, i)) =
    and_then (or_raise (given i.poi_id) assertion_error) λ poi. ok (date, poi)

abbrev or_else {ℓ} : {A : Type ℓ} → Option A → A → A
or_else none a = a
or_else (some b) a = b

abbrev pub or_text : Option String → String
or_text none = ""
or_text (some text) = text

abbrev with_days : Editing → DayPois → Editing
with_days e days = record e { days = days }

abbrev lacks_poi : Option DatedItem → Bool
lacks_poi none = false
lacks_poi (some (date, i)) = elim i.poi_id [ none ↦ true | some poi ↦ false ]

abbrev pub takes_away : EditOperationKind → Bool
takes_away EditOperationKind.remove_item = true
takes_away EditOperationKind.replace_item = true
takes_away EditOperationKind.move_item = false
takes_away EditOperationKind.reorder_item = false
takes_away EditOperationKind.add_item = false

abbrev pub source_in : List (String × DatedItem) → Option String → Option DatedItem
source_in items none = none
source_in items (some id) = lookup id items

-- `days` and `item_ids_by_poi` before the loop.
abbrev pub begun : PlanCandidate → CandidateDraft → Editing
begun candidate draft = record {
  days = day_pois draft.days;
  item_ids_by_poi = index_pois (candidate_items candidate) [];
}

abbrev pub edited : CandidateDraft → Editing → CandidateDraft × List (String × String)
edited draft e = (
  record draft { days = map (rebuilt e.days) draft.days },
  filter (λ (p : String × String). not (is_empty p.0) && not (is_empty p.1)) e.item_ids_by_poi,
)

module _ ⦃u : Unicode⦄ where
  abbrev single_poi : List PlanningPoi → Result LifecycleError String
  single_poi [] = raise (action_error "poi_not_in_planning_context")
  single_poi (p ∷ []) = ok p.id
  single_poi (p ∷ q ∷ others) = raise (action_error "poi_not_in_planning_context")

  abbrev pub resolve_poi : List PlanningPoi → String → Result LifecycleError String
  resolve_poi pois name = single_poi (filter (λ (p : PlanningPoi). overlaps name p.name) pois)

  abbrev pub is_protected : TripSpec → Option DatedItem → Bool
  is_protected trip none = false
  is_protected trip (some (date, i)) = is_required_name trip i.name

module _ ⦃u : Unicode⦄ (trip : TripSpec) (pois : List PlanningPoi) (new_item_id : ℕ → String) where
  -- The branches by kind. The identifier of a resolved place is always in `pois_by_id`.
  abbrev pub edit_by :
      EditOperationKind
      → EditOperation
      → ℕ
      → Option DatedItem
      → Editing
      → Result LifecycleError Editing
  edit_by EditOperationKind.remove_item op index source e =
      and_then (source_of source)
        λ s. and_then (change_with (remove_first s.1) s.0 e.days) λ days. ok (with_days e days)
  edit_by EditOperationKind.move_item op index source e = and_then (source_of source) λ s.
      and_then (change_with (remove_first s.1) s.0 e.days) λ days.
        and_then (put_on op.target_index s.1 (or_else op.target_date s.0) days)
          λ days'. ok (with_days e days')
  edit_by EditOperationKind.reorder_item op index source e = and_then (source_of source) λ s.
      and_then (change_with (remove_first s.1) s.0 e.days) λ days.
        and_then (put_on op.target_index s.1 (or_else op.target_date s.0) days)
          λ days'. ok (with_days e days')
  edit_by EditOperationKind.replace_item op index source e = and_then (source_of source) λ s.
      and_then (resolve_poi pois (or_text op.poi_name)) λ poi.
        and_then (change_with (replace_first s.1 poi) s.0 e.days) λ days. ok (record {
          days = days;
          item_ids_by_poi = insert poi (new_item_id index) e.item_ids_by_poi;
        })
  edit_by EditOperationKind.add_item op index source e =
      and_then (or_raise op.target_date assertion_error) λ date.
        and_then (or_raise (lookup date e.days) (action_error "date_out_of_range")) λ ids.
          and_then (resolve_poi pois (or_text op.poi_name)) λ poi. ok (record {
            days = insert date (place_at op.target_index poi ids) e.days;
            item_ids_by_poi = insert poi (new_item_id index) e.item_ids_by_poi;
          })

  -- One round of the loop: the two tests of the item, then the branch.
  unfoldable pub edit_from :
      EditOperation → ℕ → Option DatedItem → Editing → Result LifecycleError Editing
  unfolding lookup insert occurs normalize is_required_name
  edit_from op index source e = require (not (lacks_poi source)) (action_error "unsupported_item") (
      require (not (is_protected trip source && takes_away op.kind))
        (action_error "must_visit_protected") (edit_by op.kind op index source e))

  unfoldable pub edit_all :
      List (String × DatedItem) → List EditOperation → ℕ → Editing → Result LifecycleError Editing
  unfolding edit_from lookup
  edit_all items [] index e = ok e
  edit_all items (op ∷ ops) index e =
      and_then (edit_from op index (source_in items (given op.item_id)) e)
        (edit_all items ops (index + 1))

  unfoldable pub apply_edit_patch :
      PlanCandidate
      → CandidateDraft
      → List EditOperation
      → Result LifecycleError (CandidateDraft × List (String × String))
  unfolding edit_all candidate_items day_pois lookup insert
  apply_edit_patch candidate draft operations =
      and_then (edit_all (candidate_items candidate) operations 0 (begun candidate draft))
        λ e. ok (edited draft e)
