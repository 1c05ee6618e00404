-- ===== src/Lifecycle/Actions/Protected.antt =====
-- An edit does not take away the place of a required item.
use travel_plan_agent.Common.{
  ℕ, ◌+◌, ◌≤◌, ◌≡◌, ◌∙◌, refl, sym, ap, String, true, false, Option, none, some, List, [], ◌∷◌,
  str_eq, str_eq_iff, ◌&&◌, lookup, insert, nat_eq, string_eq, ok, and_then, and_then-ok,
  or_raise-ok, or_raise, arith, map, All, Bool-cases, inl, inr,
}
use travel_plan_agent.Common.Text.{Unicode}
use travel_plan_agent.Common.Dict.Unique.{IsUnique, All-lookup}
use travel_plan_agent.Planning.Models.{PlanCandidate, PlanningPoi, TripSpec, CandidateDraft}
use travel_plan_agent.Planning.Repair.{is_required_name}
use travel_plan_agent.Planning.Repair.Apply.{day_pois, rebuilt}
use travel_plan_agent.Lifecycle.Models.{
  EditOperation, EditOperationKind, action_error, assertion_error, remove_item, replace_item,
  move_item, reorder_item, add_item,
}
use travel_plan_agent.Lifecycle.Impact.{given}
use travel_plan_agent.Lifecycle.Actions.{
  Editing, remove_first, replace_first, place_at, change_with, put_on, source_of, or_else, or_text,
  with_days, takes_away, resolve_poi, is_protected, edit_by, edit_from, edit_all, source_in,
  candidate_items, apply_edit_patch, begun, edited,
}
use travel_plan_agent.Lifecycle.Grounding.{DatedItem}
use travel_plan_agent.Lifecycle.Actions.Local.{edit_from-ok, edit_all-dates}
use travel_plan_agent.Lifecycle.Actions.Days.{
  dates, times, day_pois-eq-dated, total-dated, times-rebuilt, IsUnique-dates,
}
use travel_plan_agent.Planning.Repair.Effects.{dated}
use travel_plan_agent.Lifecycle.Actions.Counts.{
  one, total, total-insert, count-place_at, remove_first-total, replace_first-total, put_on-total,
}

module _ ⦃u : Unicode⦄ (trip : TripSpec) (p : String) where
  -- An item at the place has the name of a required one.
  abbrev pub IsGuarded : DatedItem → Type 0
  IsGuarded (date, i) = i.poi_id ≡ some p → is_required_name trip i.name ≡ true

  abbrev IsGuardedSource : Option DatedItem → Type 0
  IsGuardedSource none = Unit
  IsGuardedSource (some e) = IsGuarded e

  given-eq : (o : Option String) (id : String) → given o ≡ some id → o ≡ some id
  given-eq none id h = absurd (cc h)
  given-eq (some i) id h = ground (arith, h)

  -- The place that is taken from an item that is not protected is another one.
  source_of-other :
      (source : Option DatedItem) (s : ℕ × String)
      → IsGuardedSource source
      → is_protected trip source ≡ false
      → source_of source ≡ ok s
      → one p s.1 ≡ 0
  source_of-other none s g h e = absurd (cc e)
  source_of-other (some (date, i)) s g h e =
      let (poi, found, e') = and_then-ok (or_raise (given i.poi_id) assertion_error) _ e in
      let same = given-eq i.poi_id poi (or_raise-ok (given i.poi_id) assertion_error found) in
      elim (Bool-cases (str_eq p s.1)) [
        | inl here ↦
            let that : i.poi_id ≡ some p = ground (arith, same, e', here, str_eq_iff p s.1) in
            absurd (cc (h, g that))
        | inr other ↦ rw other
      ]

  module _ (pois : List PlanningPoi) (new_item_id : ℕ → String) where
    -- An operation on an item that it may take away.
    abbrev IsAllowed : EditOperationKind → Option DatedItem → Type 0
    IsAllowed kind source = (is_protected trip source && takes_away kind) ≡ false

    moved-total :
        (e e' : Editing) (source : Option DatedItem) (index : Option ℕ) (date : Option ℕ)
        → (and_then (source_of source) λ s.
            and_then (change_with (remove_first s.1) s.0 e.days) λ days.
              and_then (put_on index s.1 (or_else date s.0) days) λ days'. ok (with_days e days'))
          ≡ ok e'
        → total p e.days ≤ total p e'.days
    moved-total e e' source index date h =
        let (s, from, h1) = and_then-ok (source_of source) _ h in
        let (days, taken, h2) = and_then-ok (change_with (remove_first s.1) s.0 e.days) _ h1 in
        let (days', put, h3) = and_then-ok (put_on index s.1 (or_else date s.0) days) _ h2 in
        let stored : days' ≡ e'.days = ground (arith, h3) in
        rw (← stored) (
          omega (
            arith,
            remove_first-total p s.1 s.0 e.days days taken,
            put_on-total p index s.1 (or_else date s.0) days days' put,
          ))

    edit_by-total :
        (kind : EditOperationKind) (op : EditOperation) (index : ℕ) (source : Option DatedItem)
        (e e' : Editing)
        → IsGuardedSource source
        → IsAllowed kind source
        → edit_by trip pois new_item_id kind op index source e ≡ ok e'
        → total p e.days ≤ total p e'.days
    edit_by-total remove_item op index source e e' g allowed h =
        let (s, from, h1) = and_then-ok (source_of source) _ h in
        let (days, taken, h2) = and_then-ok (change_with (remove_first s.1) s.0 e.days) _ h1 in
        let stored : days ≡ e'.days = ground (arith, h2) in
        let other = source_of-other source s g (ground (arith, allowed)) from in
        rw (← stored) (omega (arith, other, remove_first-total p s.1 s.0 e.days days taken))
    edit_by-total move_item op index source e e' g allowed h =
        moved-total e e' source op.target_index op.target_date h
    edit_by-total reorder_item op index source e e' g allowed h =
        moved-total e e' source op.target_index op.target_date h
    edit_by-total replace_item op index source e e' g allowed h =
        let (s, from, h1) = and_then-ok (source_of source) _ h in
        let (poi, resolved, h2) = and_then-ok (resolve_poi pois (or_text op.poi_name)) _ h1 in
        let (days, done, h3) = and_then-ok (change_with (replace_first s.1 poi) s.0 e.days) _ h2 in
        let stored : days ≡ e'.days = ground (arith, h3) in
        let other = source_of-other source s g (ground (arith, allowed)) from in
        rw (← stored) (omega (arith, other, replace_first-total p s.1 poi s.0 e.days days done))
    edit_by-total add_item op index source e e' g allowed h =
        let (date, at, h1) = and_then-ok (or_raise op.target_date assertion_error) _ h in
        let (ids, found, h2) =
          and_then-ok (or_raise (lookup date e.days) (action_error "date_out_of_range")) _ h1 in
        let (poi, resolved, h3) = and_then-ok (resolve_poi pois (or_text op.poi_name)) _ h2 in
        let stored : insert date (place_at op.target_index poi ids) e.days ≡ e'.days =
          ground (arith, h3) in
        rw (← stored) (
          omega (
            arith,
            total-insert p date (place_at op.target_index poi ids) ids e.days
                (or_raise-ok (lookup date e.days) (action_error "date_out_of_range") found),
            count-place_at p op.target_index poi ids,
          ))

    -- No item of the plan at the place is left unguarded.
    abbrev AreGuarded : List (String × DatedItem) → Type 0
    AreGuarded = All (λ (e : String × DatedItem). IsGuarded e.1)

    source_in-IsGuarded :
        (items : List (String × DatedItem)) (id : Option String)
        → AreGuarded items
        → IsGuardedSource (source_in items id)
    source_in-IsGuarded items none g = tt
    source_in-IsGuarded items (some id) g = looked (lookup id items) refl
      where
        looked : (o : Option DatedItem) → lookup id items ≡ o → IsGuardedSource o
        looked none q = tt
        looked (some e) q = All-lookup (λ (e : String × DatedItem). IsGuarded e.1) id e items g q

    edit_all-total :
        (items : List (String × DatedItem)) (ops : List EditOperation) (index : ℕ) (e e' : Editing)
        → AreGuarded items
        → edit_all trip pois new_item_id items ops index e ≡ ok e'
        → total p e.days ≤ total p e'.days
    unfolding edit_all
    edit_all-total items [] index e e' g h =
        let same : e ≡ e' = ground (arith, h) in rw (← same) (omega arith)
    edit_all-total items (op ∷ ops) index e e' g h =
        let source = source_in items (given op.item_id) in
        let (next, changed, h1) =
          and_then-ok (edit_from trip pois new_item_id op index source e) _ h in
        let (allowed, by_kind) =
          edit_from-ok trip pois new_item_id op index source e next changed in
        omega (
          arith,
          edit_by-total op.kind op index source e next
              (source_in-IsGuarded items (given op.item_id) g) allowed by_kind,
          edit_all-total items ops (index + 1) next e' g h1,
        )

    -- A place whose items in the active plan all have the name of a required place stands in the draft
    -- at least as often after an edit that succeeds as before it, whatever its operations are. The days
    -- of the draft have distinct dates.
    pub apply_edit_patch-times :
        (candidate : PlanCandidate) (draft : CandidateDraft) (operations : List EditOperation)
        (result : CandidateDraft × List (String × String))
        → IsUnique (dated draft.days)
        → AreGuarded (candidate_items candidate)
        → apply_edit_patch trip pois new_item_id candidate draft operations ≡ ok result
        → times p draft.days ≤ times p result.0.days
    unfolding apply_edit_patch
    apply_edit_patch-times candidate draft operations result unique g h =
        let start = begun candidate draft in
        let items = candidate_items candidate in
        let (e, done, h1) =
          and_then-ok (edit_all trip pois new_item_id items operations 0 start) _ h in
        let kept = edit_all-total items operations 0 start e g done in
        let base = day_pois-eq-dated draft.days unique in
        let same_dates : dates (dated draft.days) ≡ dates e.days =
          sym (
            edit_all-dates trip pois new_item_id items operations 0 start e done ∙ ap dates base) in
        let after : times p (map (rebuilt e.days) draft.days) ≡ total p e.days =
          times-rebuilt p e.days draft.days
            (IsUnique-dates (dated draft.days) e.days same_dates unique) (sym same_dates) in
        let before : total p (day_pois draft.days) ≡ times p draft.days =
          ap (total p) base ∙ total-dated p draft.days in
        let stored : edited draft e ≡ result = ground (arith, h1) in
        rw (← stored) (omega (arith, kept, after, before))
