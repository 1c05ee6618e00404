-- ===== src/Lifecycle/Grounding.antt =====
-- lifecycle/actions.py: the items of a plan that have an identifier, and `ground_edit_patch`, which finds
-- the item that each operation of an edit is about.
use travel_plan_agent.Common.{
  ℕ, String, Option, none, some, List, [], ◌∷◌, ◌++◌, if◌then◌else◌, filter, contains, nat_eq,
  string_eq, Result, ok, raise, and_then, require,
}
use travel_plan_agent.Common.Text.{Unicode, is_empty, normalize, occurs}
use travel_plan_agent.Planning.Models.{PlanItem, DayPlan, PlanCandidate}
use travel_plan_agent.Planning.Repair.Build.{overlaps}
use travel_plan_agent.Lifecycle.Models.{EditOperation, LifecycleError, action_error}
use travel_plan_agent.Lifecycle.Impact.{optional}

-- An item with its day.
abbrev pub DatedItem : Type 0
DatedItem = ℕ × PlanItem

abbrev pub with_id : Option String → DatedItem → List DatedItem → List DatedItem
with_id none e items = items
with_id (some id) e items = e ∷ items

abbrev pub dated_items : ℕ → List PlanItem → List DatedItem
dated_items date [] = []
dated_items date (i ∷ items) = with_id i.item_id (date, i) (dated_items date items)

-- The items that have an identifier.
abbrev pub items_with_id : List DayPlan → List DatedItem
items_with_id [] = []
items_with_id (d ∷ days) = dated_items d.date d.items ++ items_with_id days

abbrev pub item_ids : List DatedItem → List String
item_ids [] = []
item_ids ((date, i) ∷ items) = optional i.item_id ++ item_ids items

module _ ⦃u : Unicode⦄ where
  -- The match of a name, which must be the only one.
  abbrev only_match : List DatedItem → Result LifecycleError (Option String)
  only_match [] = raise (action_error "unknown_item")
  only_match ((date, i) ∷ []) = ok i.item_id
  only_match (i ∷ j ∷ items) = raise (action_error "ambiguous_item")

  abbrev named_item : List DatedItem → Option String → Result LifecycleError (Option String)
  named_item items none = ok none
  named_item items (some name) =
      if is_empty name
      then ok none
      else only_match (filter (λ (e : DatedItem). overlaps name e.1.name) items)

  -- The item that an operation is about, by its identifier or else by its name.
  abbrev ground_item :
      List DatedItem → Option String → Option String → Result LifecycleError (Option String)
  ground_item items (some id) name =
      require (contains id (item_ids items)) (action_error "unknown_item") (ok (some id))
  ground_item items none name = named_item items name

  abbrev grounded :
      EditOperation → Result LifecycleError (Option String) → Result LifecycleError EditOperation
  grounded op (raise e) = raise e
  grounded op (ok id) = ok (record op { item_id = id })

  abbrev ground_operations :
      List DatedItem → List EditOperation → Result LifecycleError (List EditOperation)
  ground_operations items [] = ok []
  ground_operations items (op ∷ ops) =
      and_then (grounded op (ground_item items op.item_id op.item_name))
        λ op'. and_then (ground_operations items ops) λ ops'. ok (op' ∷ ops')

  unfoldable pub ground_edit_patch :
      PlanCandidate → List EditOperation → Result LifecycleError (List EditOperation)
  unfolding contains occurs normalize
  ground_edit_patch candidate operations =
      ground_operations (items_with_id candidate.days) operations
