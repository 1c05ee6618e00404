-- ===== src/Lifecycle/Actions/Local.antt =====
-- Which days of a draft an edit touches.
use travel_plan_agent.Common.{
  ℕ, ◌+◌, All, ◌≡◌, ◌∙◌, refl, String, Bool, true, false, Option, none, some, List, [], ◌∷◌, ◌++◌,
  not, ◌&&◌, contains, lookup, insert, nat_eq, string_eq, ==_iff, arith, ok, and_then, and_then-ok,
  or_raise-ok, require, or_raise,
}
use travel_plan_agent.Common.Text.{Unicode}
use travel_plan_agent.Planning.Models.{PlanningPoi, TripSpec}
use travel_plan_agent.Lifecycle.Models.{
  EditOperation, EditOperationKind, action_error, assertion_error, remove_item, replace_item,
  move_item, reorder_item, add_item,
}
use travel_plan_agent.Lifecycle.Impact.{given, optional}
use travel_plan_agent.Lifecycle.Actions.{
  Editing, remove_first, replace_first, place_at, change_with, put_on, source_of, or_else, or_text,
  with_days, lacks_poi, takes_away, resolve_poi, is_protected, edit_by, edit_from, edit_all,
  source_in,
}
use travel_plan_agent.Lifecycle.Grounding.{DatedItem}
use travel_plan_agent.Lifecycle.Actions.Days.{dates}
use travel_plan_agent.Lifecycle.Actions.Touches.{
  Touches, Touches-refl, Touches-trans, Touches-insert, change_with-Touches, put_on-Touches,
}

abbrev pub day_of : Option DatedItem → Option ℕ
day_of none = none
day_of (some (date, i)) = some date

-- The days of an operation: that of its item, and its target.
abbrev pub own_dates : Option DatedItem → EditOperation → List ℕ
own_dates source op = optional (day_of source) ++ optional op.target_date

abbrev pub Covers : List ℕ → Option DatedItem → EditOperation → Type 0
Covers touched source op =
    (day : ℕ) → contains day (own_dates source op) ≡ true → contains day touched ≡ true

abbrev pub AllCover : List ℕ → List (String × DatedItem) → List EditOperation → Type 0
AllCover touched items =
    All (λ (op : EditOperation). Covers touched (source_in items (given op.item_id)) op)

module _ ⦃u : Unicode⦄ (trip : TripSpec) (pois : List PlanningPoi) (new_item_id : ℕ → String) where
  -- The two tests of an operation have passed.
  pub edit_from-ok :
      (op : EditOperation) (index : ℕ) (source : Option DatedItem) (e e' : Editing)
      → edit_from trip pois new_item_id op index source e ≡ ok e'
      → ((is_protected trip source && takes_away op.kind) ≡ false)
        × (edit_by trip pois new_item_id op.kind op index source e ≡ ok e')
  unfolding edit_from
  edit_from-ok op index source e e' h =
      passed (lacks_poi source) (is_protected trip source && takes_away op.kind) h
    where
      passed :
          (a b : Bool)
          → require (not a) (action_error "unsupported_item") (
              require
                (not b)
                (action_error "must_visit_protected")
                (edit_by trip pois new_item_id op.kind op index source e))
            ≡ ok e'
          → (b ≡ false) × (edit_by trip pois new_item_id op.kind op index source e ≡ ok e')
      passed true b k = absurd (cc k)
      passed false true k = absurd (cc k)
      passed false false k = (refl, k)

source_of-day_of :
    (source : Option DatedItem) (s : ℕ × String)
    → source_of source ≡ ok s
    → day_of source ≡ some s.0
source_of-day_of none s h = absurd (cc h)
source_of-day_of (some (date, i)) s h =
    let (poi, found, h1) = and_then-ok (or_raise (given i.poi_id) assertion_error) _ h in
    ground (arith, h1)

module _ ⦃u : Unicode⦄ (trip : TripSpec) (pois : List PlanningPoi) (new_item_id : ℕ → String)
    (touched : List ℕ) where
  source-contains :
      (source : Option DatedItem) (op : EditOperation) (s : ℕ × String)
      → Covers touched source op
      → source_of source ≡ ok s
      → contains s.0 touched ≡ true
  unfolding contains
  source-contains source op s covers h =
      let at = source_of-day_of source s h in covers s.0 (rw at (ground (arith, ==_iff s.0 s.0)))

  target-contains :
      (source : Option DatedItem) (op : EditOperation) (date : ℕ)
      → Covers touched source op
      → op.target_date ≡ some date
      → contains date touched ≡ true
  unfolding contains
  target-contains source op date covers h = covers date (at_end (day_of source))
    where
      at_end : (o : Option ℕ) → contains date (optional o ++ optional op.target_date) ≡ true
      at_end none = rw h (ground (arith, ==_iff date date))
      at_end (some d) = rw h (ground (arith, ==_iff date date))

  -- The day that an item moves to is its target, or else its own.
  goal-contains :
      (source : Option DatedItem) (op : EditOperation) (s : ℕ × String)
      → Covers touched source op
      → source_of source ≡ ok s
      → contains (or_else op.target_date s.0) touched ≡ true
  goal-contains source op s covers h = goal op.target_date (target-contains source op) covers
    where
      goal :
          (o : Option ℕ)
          → ((date : ℕ) → Covers touched source op → o ≡ some date → contains date touched ≡ true)
          → Covers touched source op
          → contains (or_else o s.0) touched ≡ true
      goal none k c = source-contains source op s c h
      goal (some date) k c = k date c refl

  moved-Touches :
      (e e' : Editing) (source : Option DatedItem) (op : EditOperation)
      → Covers touched source op
      → (and_then (source_of source) λ s.
          and_then (change_with (remove_first s.1) s.0 e.days) λ days.
            and_then
              (put_on op.target_index s.1 (or_else op.target_date s.0) days)
              λ days'. ok (with_days e days'))
        ≡ ok e'
      → Touches touched e.days e'.days
  moved-Touches e e' source op covers h =
      let (s, from, h1) = and_then-ok (source_of source) _ h in
      let (days, taken, h2) = and_then-ok (change_with (remove_first s.1) s.0 e.days) _ h1 in
      let (days', put, h3) =
        and_then-ok (put_on op.target_index s.1 (or_else op.target_date s.0) days) _ h2 in
      let stored : days' ≡ e'.days = ground (arith, h3) in
      rw (← stored) (
        Touches-trans touched e.days days days'
          (change_with-Touches touched s.0 e.days days (source-contains source op s covers from)
            (remove_first s.1) taken)
          (put_on-Touches touched (or_else op.target_date s.0) days days'
            (goal-contains source op s covers from) op.target_index s.1 put))

  edit_by-Touches :
      (kind : EditOperationKind) (op : EditOperation) (index : ℕ) (source : Option DatedItem)
      (e e' : Editing)
      → Covers touched source op
      → edit_by trip pois new_item_id kind op index source e ≡ ok e'
      → Touches touched e.days e'.days
  edit_by-Touches remove_item op index source e e' covers h =
      let (s, from, h1) = and_then-ok (source_of source) _ h in
      let (days, taken, h2) = and_then-ok (change_with (remove_first s.1) s.0 e.days) _ h1 in
      let stored : days ≡ e'.days = ground (arith, h2) in
      rw (← stored) (
        change_with-Touches touched s.0 e.days days (source-contains source op s covers from)
          (remove_first s.1) taken)
  edit_by-Touches move_item op index source e e' covers h = moved-Touches e e' source op covers h
  edit_by-Touches reorder_item op index source e e' covers h = moved-Touches e e' source op covers h
  edit_by-Touches replace_item op index source e e' covers h =
      let (s, from, h1) = and_then-ok (source_of source) _ h in
      let (poi, resolved, h2) = and_then-ok (resolve_poi pois (or_text op.poi_name)) _ h1 in
      let (days, done, h3) = and_then-ok (change_with (replace_first s.1 poi) s.0 e.days) _ h2 in
      let stored : days ≡ e'.days = ground (arith, h3) in
      rw (← stored) (
        change_with-Touches touched s.0 e.days days (source-contains source op s covers from)
          (replace_first s.1 poi) done)
  edit_by-Touches add_item op index source e e' covers h =
      let (date, at, h1) = and_then-ok (or_raise op.target_date assertion_error) _ h in
      let (ids, found, h2) =
        and_then-ok (or_raise (lookup date e.days) (action_error "date_out_of_range")) _ h1 in
      let (poi, resolved, h3) = and_then-ok (resolve_poi pois (or_text op.poi_name)) _ h2 in
      let stored : insert date (place_at op.target_index poi ids) e.days ≡ e'.days =
        ground (arith, h3) in
      let target = or_raise-ok op.target_date assertion_error at in
      rw (← stored) (
        Touches-insert touched date (place_at op.target_index poi ids) ids e.days
          (target-contains source op date covers target)
          (or_raise-ok (lookup date e.days) (action_error "date_out_of_range") found))

  pub edit_all-Touches :
      (items : List (String × DatedItem)) (ops : List EditOperation) (index : ℕ) (e e' : Editing)
      → AllCover touched items ops
      → edit_all trip pois new_item_id items ops index e ≡ ok e'
      → Touches touched e.days e'.days
  unfolding edit_all
  edit_all-Touches items [] index e e' covers h =
      let same : e ≡ e' = ground (arith, h) in rw (← same) (Touches-refl touched e.days)
  edit_all-Touches items (op ∷ ops) index e e' (here, others) h =
      let source = source_in items (given op.item_id) in
      let (next, edited, h1) =
        and_then-ok (edit_from trip pois new_item_id op index source e) _ h in
      let (allowed, by_kind) = edit_from-ok trip pois new_item_id op index source e next edited in
      Touches-trans touched e.days next.days e'.days
        (edit_by-Touches op.kind op index source e next here by_kind)
        (edit_all-Touches items ops (index + 1) next e' others h1)

module _ ⦃u : Unicode⦄ (trip : TripSpec) (pois : List PlanningPoi) (new_item_id : ℕ → String) where
  pub edit_all-dates :
      (items : List (String × DatedItem)) (ops : List EditOperation) (index : ℕ) (e e' : Editing)
      → edit_all trip pois new_item_id items ops index e ≡ ok e'
      → dates e'.days ≡ dates e.days
  unfolding edit_all
  edit_all-dates items [] index e e' h = ground (arith, h)
  edit_all-dates items (op ∷ ops) index e e' h =
      let source = source_in items (given op.item_id) in
      let (next, changed, h1) =
        and_then-ok (edit_from trip pois new_item_id op index source e) _ h in
      let (allowed, by_kind) = edit_from-ok trip pois new_item_id op index source e next changed in
      let step =
        edit_by-Touches trip pois new_item_id (own_dates source op) op.kind op index source e next
          (λ day k. k) by_kind in
      edit_all-dates items ops (index + 1) next e' h1 ∙ step.same_dates
