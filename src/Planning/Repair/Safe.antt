-- ===== src/Planning/Repair/Safe.antt =====
-- What the removals for a budget or a limit take: optional activities of the plan.
use mathlib.Core.List.{Mem, mem-cons_self, mem-cons_of_mem}
use travel_plan_agent.Common.{
  ℕ, ◌+◌, ◌-◌, ◌≡◌, refl, String, Bool, true, false, Option, none, some, List, [], ◌∷◌, leb, ltb,
  ◌==◌, str_eq, if◌then◌else◌, filter, find, lookup, string_eq, nat_eq, All, All-append, arith,
  Bool-cases, inl, inr,
}
use travel_plan_agent.Common.Text.{Unicode}
use travel_plan_agent.Common.Sort.{sort_by, insert_by}
use travel_plan_agent.Planning.Models.{
  PlanItem, DayPlan, PlanningPoi, TripSpec, PlanCandidate, RepairActionKind, RepairAction,
}
use travel_plan_agent.Planning.Repair.{is_required_name, place_of, kind_eq, option_nat_eq}
use travel_plan_agent.Planning.Repair.Removals.{
  Row, row_of, rows_of, all_rows, removal, remove_until, or_nothing, cost_of, walking_of,
  minutes_of, activity_minutes, removed_first, is_optional, remove_for, remove_for_budget,
  remove_on, remove_for_day_limit,
}

module _ {ℓ κ} {A : Type ℓ} (P : A → Type κ) where
  pub All-filter :
      (p : A → Bool) (xs : List A) → All P xs → All (λ x. P x × (p x ≡ true)) (filter p xs)
  All-filter p [] h = tt
  All-filter p (x ∷ xs) (here, others) = kept (p x) refl (All-filter p xs others)
    where
      kept :
          (b : Bool)
          → p x ≡ b
          → All (λ x. P x × (p x ≡ true)) (filter p xs)
          → All (λ x. P x × (p x ≡ true)) (elim b [ true ↦ x ∷ filter p xs | false ↦ filter p xs ])
      kept true e h = ((here, e), h)
      kept false e h = h

  pub All-first : (Q : A → Type 0) (xs : List A) → All (λ x. P x × Q x) xs → All P xs
  All-first Q [] h = tt
  All-first Q (x ∷ xs) (here, others) = (here.0, All-first Q xs others)

  All-insert_by :
      (lt : A → A → Bool) (x : A) (xs : List A) → P x → All P xs → All P (insert_by lt x xs)
  unfolding insert_by
  All-insert_by lt x [] h hs = (h, tt)
  All-insert_by lt x (y ∷ ys) h (here, others) = elim (Bool-cases (lt y x)) [
    | inl less ↦ rw less (here, All-insert_by lt x ys h others)
    | inr other ↦ rw other (h, (here, others))
  ]

  pub All-sort_by : (lt : A → A → Bool) (xs : List A) → All P xs → All P (sort_by lt xs)
  unfolding sort_by
  All-sort_by lt [] h = tt
  All-sort_by lt (x ∷ xs) (here, others) =
      All-insert_by lt x (sort_by lt xs) here (All-sort_by lt xs others)

-- An activity of a day of the plan.
pub record IsPlanned (candidate : PlanCandidate) (day : ℕ) (item : PlanItem) (id : String)
    : Type 0 where
  pub on : DayPlan
  pub day_planned : Mem on candidate.days
  pub item_planned : Mem item on.items
  pub dated : on.date ≡ day
  pub place : place_of item ≡ some id

module _ ⦃u : Unicode⦄ (trip : TripSpec) (candidate : PlanCandidate) where
  -- A removal takes an activity that is planned on its day and is not required; another action may
  -- be any.
  abbrev pub Spares : RepairActionKind → RepairAction → Type 0
  Spares RepairActionKind.remove_optional_poi a =
      (day : ℕ) × (item : PlanItem) × (a.from_day ≡ some day)
      × IsPlanned candidate day item a.poi_id
      × (is_required_name trip item.name ≡ false)
  Spares RepairActionKind.move_poi a = Unit
  Spares RepairActionKind.reorder_optional_poi a = Unit
  Spares RepairActionKind.insert_must_visit a = Unit
  Spares RepairActionKind.add_available_poi a = Unit

  abbrev pub IsSafe : RepairAction → Type 0
  IsSafe a = Spares a.kind a

  abbrev IsRow : Row → Type 0
  IsRow row = IsPlanned candidate row.day row.item row.poi_id

  row_of-All :
      (pois : List (String × PlanningPoi)) (day : ℕ) (item : PlanItem) (o : Option String)
      → ((id : String) → o ≡ some id → IsPlanned candidate day item id)
      → All IsRow (row_of pois day item o)
  row_of-All pois day item none h = tt
  row_of-All pois day item (some id) h = found (lookup id pois)
    where
      found :
          (q : Option PlanningPoi)
          → All IsRow (elim q [
            | none ↦ []
            | some poi ↦ record { day = day; item = item; poi_id = id; poi = poi } ∷ []
          ])
      found none = tt
      found (some poi) = (h id refl, tt)

  rows_of-All :
      (pois : List (String × PlanningPoi)) (d : DayPlan)
      → Mem d candidate.days
      → (items : List PlanItem) → ((item : PlanItem) → Mem item items → Mem item d.items)
      → All IsRow (rows_of pois d.date items)
  unfolding rows_of
  rows_of-All pois d here [] within = tt
  rows_of-All pois d here (item ∷ items) within =
      All-append IsRow (row_of pois d.date item (place_of item)) (rows_of pois d.date items)
        (row_of-All pois d.date item (place_of item) (λ id at. record {
          on = d;
          day_planned = here;
          item_planned = within item mem-cons_self;
          dated = refl;
          place = at;
        }))
        (rows_of-All pois d here items (λ i m. within i (mem-cons_of_mem item m)))

  all_rows-All :
      (pois : List (String × PlanningPoi)) (days : List DayPlan)
      → ((d : DayPlan) → Mem d days → Mem d candidate.days)
      → All IsRow (all_rows pois days)
  unfolding all_rows
  all_rows-All pois [] within = tt
  all_rows-All pois (d ∷ days) within =
      All-append IsRow (rows_of pois d.date d.items) (all_rows pois days)
        (rows_of-All pois d (within d mem-cons_self) d.items (λ i m. m))
        (all_rows-All pois days (λ e m. within e (mem-cons_of_mem d m)))

  abbrev IsOption : Row → Type 0
  IsOption row = IsRow row × (is_optional trip row ≡ true)

  removal-IsSafe : (type : String) (row : Row) → IsOption row → IsSafe (removal type row)
  removal-IsSafe type row (here, optional) = (row.day, row.item, refl, here, ground arith)

  remove_until-All :
      (amount : Row → ℕ) (type : String) (excess saved : ℕ) (rows : List Row)
      → All IsOption rows
      → All IsSafe (or_nothing (remove_until amount type excess saved rows))
  unfolding remove_until
  remove_until-All amount type excess saved [] h = tt
  remove_until-All amount type excess saved (row ∷ rows) (here, others) =
      elim (Bool-cases (leb excess (saved + amount row))) [
        | inl enough ↦ rw enough (removal-IsSafe type row here, tt)
        | inr more ↦ rw more (
            continued (remove_until amount type excess (saved + amount row) rows)
              (remove_until-All amount type excess (saved + amount row) rows others))
      ]
    where
      continued :
          (o : Option (List RepairAction))
          → All IsSafe (or_nothing o)
          → All IsSafe (
              or_nothing
                (elim o [ none ↦ none | some actions ↦ some (removal type row ∷ actions) ]))
      continued none h = tt
      continued (some actions) h = (removal-IsSafe type row here, h)

  remove_for-All :
      (amount : Row → ℕ) (type : String) (excess : ℕ) (rows : List Row)
      → All IsRow rows
      → All IsSafe (remove_for trip amount type excess rows)
  unfolding remove_for
  remove_for-All amount type excess rows h = elim (Bool-cases (leb excess 0)) [
    | inl done ↦ rw done tt
    | inr more ↦ rw more (
        remove_until-All amount type excess 0 _ (
          All-sort_by IsOption (removed_first trip amount) (filter (is_optional trip) rows)
            (All-filter IsRow (is_optional trip) rows h)))
  ]

  pub budget-All :
      (pois : List (String × PlanningPoi)) (budget : ℕ)
      → All IsSafe (remove_for_budget trip budget candidate pois)
  unfolding remove_for_budget
  budget-All pois budget =
      remove_for-All cost_of "budget_exceeded" (candidate.known_estimated_cost - budget)
        (filter (λ row. ltb 0 (cost_of row)) (all_rows pois candidate.days))
        (All-first IsRow (λ row. ltb 0 (cost_of row) ≡ true)
          (filter (λ row. ltb 0 (cost_of row)) (all_rows pois candidate.days))
          (All-filter IsRow (λ row. ltb 0 (cost_of row)) (all_rows pois candidate.days)
            (all_rows-All pois candidate.days (λ d m. m))))

  pub find-Mem :
      (p : DayPlan → Bool) (days : List DayPlan) (d : DayPlan)
      → find p days ≡ some d
      → Mem d days × (p d ≡ true)
  find-Mem p [] d h = absurd (cc h)
  find-Mem p (e ∷ days) d h = elim (Bool-cases (p e)) [
    | inl hit ↦ let same : e ≡ d = ground (arith, hit) in rw (← same) (mem-cons_self, hit)
    | inr miss ↦
        let (there, true_there) = find-Mem p days d (ground (arith, miss)) in
        (mem-cons_of_mem e there, true_there)
  ]

  All-if :
      (b : Bool) (xs ys : List RepairAction)
      → All IsSafe xs
      → All IsSafe ys
      → All IsSafe (if b then xs else ys)
  All-if true xs ys hx hy = hx
  All-if false xs ys hx hy = hy

  remove_on-All :
      (pois : List (String × PlanningPoi)) (type : String) (d : DayPlan)
      → Mem d candidate.days
      → All IsSafe (remove_on trip pois type d)
  remove_on-All pois type d here =
      let rows = rows_of pois d.date d.items in
      let h = rows_of-All pois d here d.items (λ i m. m) in
      let walking = d.walking_distance_meters - trip.mobility.max_daily_walking_meters in
      let minutes = activity_minutes d.items - trip.mobility.max_daily_activity_minutes in
      All-if (str_eq type "walking_limit")
        (remove_for trip (λ row. walking_of row.item) type walking rows)
        (remove_for trip (λ row. minutes_of row.item) type minutes rows)
        (remove_for-All (λ row. walking_of row.item) type walking rows h)
        (remove_for-All (λ row. minutes_of row.item) type minutes rows h)

  pub day_limit-All :
      (pois : List (String × PlanningPoi)) (day : ℕ) (type : String)
      → All IsSafe (remove_for_day_limit trip candidate pois day type)
  unfolding remove_for_day_limit
  day_limit-All pois day type = found (find (λ d. d.date == day) candidate.days) refl
    where
      found :
          (o : Option DayPlan)
          → find (λ (d : DayPlan). d.date == day) candidate.days ≡ o
          → All IsSafe (elim o [ none ↦ [] | some d ↦ remove_on trip pois type d ])
      found none e = tt
      found (some d) e =
          remove_on-All pois type d (find-Mem (λ d. d.date == day) candidate.days d e).0
