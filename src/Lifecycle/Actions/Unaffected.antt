-- ===== src/Lifecycle/Actions/Unaffected.antt =====
-- The days that lifecycle/impact.py does not report as affected are those that an edit leaves.
use travel_plan_agent.Common.{
  ℕ, ◌≡◌, ◌∙◌, refl, ap, String, true, false, Option, none, some, List, [], ◌∷◌, ◌++◌, ◌||◌,
  contains, lookup, lookup-insert, nat_eq, string_eq, arith, ok, and_then-ok, if◌then◌else◌, All,
  map, ltb, Bool-cases, inl, inr, str_eq_iff,
}
use travel_plan_agent.Common.Text.{Unicode, is_empty}
use travel_plan_agent.Common.Dict.Unique.{IsUnique}
use travel_plan_agent.Common.Sort.{sort_by, contains-sort_by}
use travel_plan_agent.Planning.Models.{
  PlanItem, DayPlan, PlanCandidate, PlanningPoi, TripSpec, DraftDay, CandidateDraft,
}
use travel_plan_agent.Planning.Repair.{distinct, contains-distinct}
use travel_plan_agent.Planning.Repair.Apply.{DayPois, day_pois, rebuilt}
use travel_plan_agent.Planning.Repair.Effects.{dated}
use travel_plan_agent.Lifecycle.Models.{EditOperation, PlanLock}
use travel_plan_agent.Lifecycle.Impact.{
  given, place_item, place_items, place_days, item_locations, located, optional, dates_of,
  collected, analyze_change_impact,
}
use travel_plan_agent.Lifecycle.Actions.{
  index_item, index_items, candidate_items, source_in, edit_all, begun, edited, apply_edit_patch,
}
use travel_plan_agent.Lifecycle.Grounding.{DatedItem, dated_items, items_with_id, with_id}
use travel_plan_agent.Lifecycle.Actions.Days.{day_pois-eq-dated, own_entries}
use travel_plan_agent.Lifecycle.Actions.Local.{day_of, own_dates, AllCover, edit_all-Touches}

-- `candidate_items` and `_item_locations` agree on the day of an item.
abbrev Agree : List (String × DatedItem) → List (String × ℕ) → Type 0
Agree m l = (id : String) → is_empty id ≡ false → day_of (lookup id m) ≡ lookup id l

index_items-append :
    (xs ys : List DatedItem) (m : List (String × DatedItem))
    → index_items (xs ++ ys) m ≡ index_items ys (index_items xs m)
index_items-append [] ys m = refl
index_items-append ((date, i) ∷ xs) ys m =
    index_items-append xs ys (index_item i.item_id (date, i) m)

Agree-item :
    (date : ℕ) (i : PlanItem) (o : Option String) (m : List (String × DatedItem))
    (l : List (String × ℕ))
    → Agree m l
    → Agree (index_item o (date, i) m) (place_item date (given o) l)
Agree-item date i none m l a id h = a id h
Agree-item date i (some j) m l a id h =
    let nonempty = λ (e : j ≡ id). ap is_empty e in
    elim (Bool-cases (is_empty j)) [
      | inl empty ↦
          rw empty
            (ground (arith, a id h, lookup-insert j id (date, i) m, str_eq_iff j id, nonempty))
      | inr full ↦ rw full (
          ground (
            arith,
            a id h,
            lookup-insert j id (date, i) m,
            lookup-insert j id date l,
            str_eq_iff j id,
          ))
    ]

index_items-with_id :
    (date : ℕ) (i : PlanItem) (o : Option String) (items : List DatedItem)
    (m : List (String × DatedItem))
    → i.item_id ≡ o
    → index_items (with_id o (date, i) items) m ≡ index_items items (index_item o (date, i) m)
index_items-with_id date i none items m q = refl
index_items-with_id date i (some id) items m q = rw q

Agree-items :
    (date : ℕ) (items : List PlanItem) (m : List (String × DatedItem)) (l : List (String × ℕ))
    → Agree m l
    → Agree (index_items (dated_items date items) m) (place_items date items l)
Agree-items date [] m l a id h = a id h
Agree-items date (i ∷ items) m l a id h =
    ap (λ n. day_of (lookup id n))
      (index_items-with_id date i i.item_id (dated_items date items) m refl)
    ∙ Agree-items date items (index_item i.item_id (date, i) m)
        (place_item date (given i.item_id) l) (Agree-item date i i.item_id m l a) id h

Agree-days :
    (days : List DayPlan) (m : List (String × DatedItem)) (l : List (String × ℕ))
    → Agree m l
    → Agree (index_items (items_with_id days) m) (place_days days l)
Agree-days [] m l a id h = a id h
Agree-days (d ∷ days) m l a id h =
    ap (λ n. day_of (lookup id n))
      (index_items-append (dated_items d.date d.items) (items_with_id days) m)
    ∙ Agree-days days (index_items (dated_items d.date d.items) m) (place_items d.date d.items l)
        (Agree-items d.date d.items m l a) id h

-- The day of the item of an operation is its location.
day_of-located :
    (candidate : PlanCandidate) (o : Option String)
    → day_of (source_in (candidate_items candidate) (given o))
      ≡ located (given o) (item_locations candidate)
unfolding candidate_items item_locations lookup
day_of-located candidate none = refl
day_of-located candidate (some id) = elim (Bool-cases (is_empty id)) [
  | inl empty ↦ rw empty
  | inr full ↦ rw full (Agree-days candidate.days [] [] (λ j k. refl) id full)
]

own_dates-eq-dates_of :
    (candidate : PlanCandidate) (op : EditOperation)
    → own_dates (source_in (candidate_items candidate) (given op.item_id)) op
      ≡ dates_of (item_locations candidate) op
own_dates-eq-dates_of candidate op =
    ap (λ o. optional o ++ optional op.target_date) (day_of-located candidate op.item_id)

contains-append :
    (a : ℕ) (xs ys : List ℕ) → contains a (xs ++ ys) ≡ (contains a xs || contains a ys)
unfolding contains
contains-append a [] ys = refl
contains-append a (x ∷ xs) ys = ground (arith, contains-append a xs ys)

module _ (candidate : PlanCandidate) where
  AllCover-collected :
      (touched : List ℕ) (ops : List EditOperation)
      → ((day : ℕ)
          → contains day (collected (dates_of (item_locations candidate)) ops) ≡ true
          → contains day touched ≡ true)
      → AllCover touched (candidate_items candidate) ops
  AllCover-collected touched [] h = tt
  AllCover-collected touched (op ∷ ops) h = (
    λ day k.
        h day (rw contains-append (ground (arith, rw (own_dates-eq-dates_of candidate op) at k))),
    AllCover-collected touched ops (λ day k. h day (rw contains-append (ground (arith, k)))),
  )

-- The places of the days that are not in a list.
abbrev pub outside : List ℕ → DraftDay → DraftDay
outside days d = if contains d.date days then record d { poi_ids = [] } else d

outside-kept :
    (days : List ℕ) (m base : DayPois) (ds : List DraftDay)
    → All (λ (e : ℕ × List String). lookup e.0 base ≡ some e.1) (dated ds)
    → ((day : ℕ) → contains day days ≡ false → lookup day m ≡ lookup day base)
    → map (outside days) (map (rebuilt m) ds) ≡ map (outside days) ds
outside-kept days m base [] held same = refl
outside-kept days m base (d ∷ ds) (here, others) same =
    let later = outside-kept days m base ds others same in
    elim (Bool-cases (contains d.date days)) [
      | inl touched ↦ rw touched (rw later)
      | inr left ↦
          let at : lookup d.date m ≡ some d.poi_ids = same d.date left ∙ here in
          rw (left, at) (rw later)
    ]

module _ ⦃u : Unicode⦄ (trip : TripSpec) (pois : List PlanningPoi) (new_item_id : ℕ → String) where
  -- An edit that succeeds leaves the days that the analysis of its impact does not report as affected:
  -- the draft has the same days, and on those the same places in the same order. The days of the draft
  -- have distinct dates.
  pub apply_edit_patch-unaffected :
      (candidate : PlanCandidate) (draft : CandidateDraft) (operations : List EditOperation)
      (locks : List PlanLock) (max_affected_days : ℕ)
      (result : CandidateDraft × List (String × String))
      → IsUnique (dated draft.days)
      → apply_edit_patch trip pois new_item_id candidate draft operations ≡ ok result
      → let affected =
          (analyze_change_impact candidate operations locks max_affected_days).affected_dates in
        map (outside affected) result.0.days ≡ map (outside affected) draft.days
  unfolding apply_edit_patch analyze_change_impact
  apply_edit_patch-unaffected candidate draft operations locks max_affected_days result unique h =
      let dates = collected (dates_of (item_locations candidate)) operations in
      let affected = sort_by ltb (distinct [] dates) in
      let start = begun candidate draft in
      let items = candidate_items candidate in
      let (e, done, h1) =
        and_then-ok (edit_all trip pois new_item_id items operations 0 start) _ h in
      let reported = λ (day : ℕ).
        contains-sort_by ltb day (distinct [] dates) ∙ contains-distinct day [] dates in
      let touches =
        edit_all-Touches trip pois new_item_id affected items operations 0 start e
          (AllCover-collected candidate affected operations
            (λ day k. ground (arith, reported day, k)))
          done in
      let base = day_pois-eq-dated draft.days unique in
      let stored : edited draft e ≡ result = ground (arith, h1) in
      rw (← stored) (
        outside-kept affected e.days (day_pois draft.days) draft.days
          (rw base (own_entries (dated draft.days) unique)) touches.elsewhere)
