-- ===== src/Weather/Repair/Safe.antt =====
-- What a repair for the weather does to the places of a plan.
use travel_plan_agent.Common.{
  ℕ, ◌≤◌, ◌≡◌, refl, String, Bool, true, false, Option, none, some, List, [], ◌∷◌, ◌&&◌, not, map,
  find, length, leb, leb→le, ◌==◌, lookup, nat_eq, string_eq, All, arith, Bool-cases, inl, inr,
}
use travel_plan_agent.Common.Text.{Unicode, is_empty}
use travel_plan_agent.Planning.Models.{PlanItem, PlanCandidate, PlanningPoi, TripSpec}
use travel_plan_agent.Planning.Repair.{is_required_name}
use travel_plan_agent.Lifecycle.Models.{PlanLock, EditOperation}
use travel_plan_agent.Lifecycle.Grounding.{DatedItem}
use travel_plan_agent.Lifecycle.Impact.{given}
use travel_plan_agent.Lifecycle.Actions.{candidate_items, is_protected, source_in, takes_away}
use travel_plan_agent.Lifecycle.Fingerprints.{Digest}
use travel_plan_agent.Weather.Models.{DailyWeatherRisk}
use travel_plan_agent.Weather.Repair.{
  WeatherRepairActionKind, WeatherRepairAction, WeatherRepairPlan, WeatherImpactResult, safe_dates,
  move_action, optional_choice, required_choice, Choice, choice, with_action, after_choice,
  actions_for, plan_with, build_weather_repair_plan, operation_of, repair_plan_to_edit_patch,
}
use travel_plan_agent.Weather.Repair.Dates.{is_safe_target, contains-safe_dates, find-ok}

module _ ⦃u : Unicode⦄ (trip : TripSpec) (items : List (String × DatedItem))
    (risks : List DailyWeatherRisk) (locks : List PlanLock) where
  -- By the kind of an action: only a required place is moved, and it is moved to another day that is
  -- safe; only places that are not required are replaced or removed.
  abbrev IsSafeFor : WeatherRepairActionKind → ℕ → PlanItem → Option ℕ → Type 0
  IsSafeFor WeatherRepairActionKind.move_to_safe_date date i target =
      (is_required_name trip i.name ≡ true) × (is_safe_target risks locks date target ≡ true)
  IsSafeFor WeatherRepairActionKind.replace_with_indoor date i target =
      is_required_name trip i.name ≡ false
  IsSafeFor WeatherRepairActionKind.remove_optional_item date i target =
      is_required_name trip i.name ≡ false

  abbrev IsSafeOn : WeatherRepairActionKind → Option ℕ → Option DatedItem → Type 0
  IsSafeOn kind target none = ⊥
  IsSafeOn kind target (some (date, i)) = IsSafeFor kind date i target

  abbrev IsSafe : WeatherRepairAction → Type 0
  IsSafe a = IsSafeOn a.kind a.target_date (lookup a.item_id items)

  optional_choice-ok :
      (id : String) (date : ℕ) (i : PlanItem) (alternatives : List PlanningPoi) (c : Choice)
      → is_required_name trip i.name ≡ false
      → optional_choice id alternatives ≡ c
      → (c.0.item_id ≡ id) × IsSafeOn c.0.kind c.0.target_date (some (date, i))
  optional_choice-ok id date i [] c optional h = rw (← h) (refl, optional)
  optional_choice-ok id date i (p ∷ alternatives) c optional h = rw (← h) (refl, optional)

  required_choice-ok :
      (id : String) (date : ℕ) (i : PlanItem) (alternatives : List PlanningPoi) (c : Choice)
      (o : Option ℕ)
      → is_required_name trip i.name ≡ true
      → find (λ (d : ℕ). not (d == date)) (safe_dates risks locks) ≡ o
      → required_choice id alternatives o ≡ some c
      → (c.0.item_id ≡ id) × IsSafeOn c.0.kind c.0.target_date (some (date, i))
  required_choice-ok id date i alternatives c none required q h = absurd (cc h)
  required_choice-ok id date i alternatives c (some t) required q h =
      let same : (move_action id t, alternatives) ≡ c = ground (arith, h) in
      let (other, within) = find-ok (λ (d : ℕ). not (d == date)) (safe_dates risks locks) t q in
      let safe = contains-safe_dates locks t risks within in
      rw (← same) (refl, (required, ground (arith, other, safe)))

  choice-ok :
      (id : String) (o : Option DatedItem) (alternatives : List PlanningPoi) (c : Choice)
      → choice trip (safe_dates risks locks) id o alternatives ≡ some c
      → (c.0.item_id ≡ id) × IsSafeOn c.0.kind c.0.target_date o
  choice-ok id none alternatives c h = absurd (cc h)
  choice-ok id (some (date, i)) alternatives c h =
      elim (Bool-cases (is_required_name trip i.name)) [
        | inl required ↦
            required_choice-ok id date i alternatives c
              (find (λ (d : ℕ). not (d == date)) (safe_dates risks locks)) required refl
              (ground (arith, h, required))
        | inr optional ↦
            optional_choice-ok id date i alternatives c optional (ground (arith, h, optional))
      ]

  after_choice-ok :
      (o : Option Choice) (rest : List PlanningPoi → Option (List WeatherRepairAction))
      (actions : List WeatherRepairAction)
      → after_choice o rest ≡ some actions
      → (c : Choice) × (others : List WeatherRepairAction) × (o ≡ some c)
        × (rest c.1 ≡ some others)
        × (actions ≡ c.0 ∷ others)
  after_choice-ok none rest actions h = absurd (cc h)
  after_choice-ok (some (a, alternatives)) rest actions h = more (rest alternatives) refl h
    where
      more :
          (r : Option (List WeatherRepairAction))
          → rest alternatives ≡ r
          → with_action a r ≡ some actions
          → (c : Choice) × (others : List WeatherRepairAction) × ((some (a, alternatives)) ≡ some c)
            × (rest c.1 ≡ some others)
            × (actions ≡ c.0 ∷ others)
      more none q k = absurd (cc k)
      more (some others) q k = ((a, alternatives), others, refl, q, ground (arith, k))

  actions_for-IsSafe :
      (ids : List String) (alternatives : List PlanningPoi) (actions : List WeatherRepairAction)
      → actions_for trip items (safe_dates risks locks) ids alternatives ≡ some actions
      → (map (λ (a : WeatherRepairAction). a.item_id) actions ≡ ids) × All IsSafe actions
  actions_for-IsSafe [] alternatives actions h =
      let same : [] ≡ actions = ground (arith, h) in rw (← same) (refl, tt)
  actions_for-IsSafe (id ∷ ids) alternatives actions h =
      let (c, others, chosen, rest, same) =
        after_choice-ok (choice trip (safe_dates risks locks) id (lookup id items) alternatives)
          (actions_for trip items (safe_dates risks locks) ids) actions h in
      let (named, safe) = choice-ok id (lookup id items) alternatives c chosen in
      let (ids_same, all_safe) = actions_for-IsSafe ids c.1 others rest in
      let here : IsSafe c.0 = rw named safe in
      rw same (ground (arith, named, ids_same), (here, all_safe))

  -- The test of `apply_edit_patch` for required places.
  abbrev is_refused : EditOperation → Bool
  is_refused op = is_protected trip (source_in items (given op.item_id)) && takes_away op.kind

  unprotected :
      (id : String) (date : ℕ) (i : PlanItem)
      → lookup id items ≡ some (date, i)
      → is_required_name trip i.name ≡ false
      → is_protected trip (source_in items (given (some id))) ≡ false
  unprotected id date i q optional = elim (Bool-cases (is_empty id)) [
    | inl empty ↦ rw empty refl
    | inr named ↦ rw (named, q) optional
  ]

  IsSafeOn-unrefused :
      (kind : WeatherRepairActionKind) (a : WeatherRepairAction) (o : Option DatedItem)
      → lookup a.item_id items ≡ o
      → IsSafeOn kind a.target_date o
      → is_refused (operation_of kind a) ≡ false
  IsSafeOn-unrefused kind a none q safe = absurd safe
  IsSafeOn-unrefused WeatherRepairActionKind.move_to_safe_date a (some (date, i)) q safe =
      ground arith
  IsSafeOn-unrefused WeatherRepairActionKind.replace_with_indoor a (some (date, i)) q safe =
      rw (unprotected a.item_id date i q safe) refl
  IsSafeOn-unrefused WeatherRepairActionKind.remove_optional_item a (some (date, i)) q safe =
      rw (unprotected a.item_id date i q safe) refl

  all_unrefused :
      (actions : List WeatherRepairAction)
      → All IsSafe actions
      → All
          (λ (op : EditOperation). is_refused op ≡ false)
          (map (λ (a : WeatherRepairAction). operation_of a.kind a) actions)
  all_unrefused [] h = tt
  all_unrefused (a ∷ actions) (here, later) =
      (IsSafeOn-unrefused a.kind a (lookup a.item_id items) refl here, all_unrefused actions later)

-- What is said of a plan for the items of a candidate.
abbrev pub IsSafePlan :
    ⦃u : Unicode⦄
    → TripSpec
    → PlanCandidate
    → WeatherImpactResult
    → List DailyWeatherRisk
    → List PlanLock
    → WeatherRepairPlan
    → Type 0
IsSafePlan trip candidate impact risks locks plan =
    (map (λ (a : WeatherRepairAction). a.item_id) plan.actions ≡ impact.affected_item_ids)
    × (1 ≤ length plan.actions)
    × (length plan.actions ≤ 3)
    × All (IsSafe trip (candidate_items candidate) risks locks) plan.actions
    × All
        (λ (op : EditOperation). is_refused trip (candidate_items candidate) risks locks op ≡ false)
        (repair_plan_to_edit_patch plan)

module _ ⦃u : Unicode⦄ (trip : TripSpec) (digest : Digest) (event base : String)
    (candidate : PlanCandidate) (impact : WeatherImpactResult) where
  plan_with-ok :
      (o : Option (List WeatherRepairAction)) (plan : WeatherRepairPlan)
      → plan_with trip digest event base candidate impact o ≡ some plan
      → (o ≡ some plan.actions) × (1 ≤ length plan.actions) × (length plan.actions ≤ 3)
  plan_with-ok none plan h = absurd (cc h)
  plan_with-ok (some []) plan h = absurd (cc h)
  plan_with-ok (some (a ∷ actions)) plan h = elim (Bool-cases (leb (length (a ∷ actions)) 3)) [
    | inl few ↦
        let same : a ∷ actions ≡ plan.actions = ground (arith, h, few) in
        rw (← same) (refl, omega arith, leb→le _ _ few)
    | inr many ↦ absurd (ground (arith, h, many))
  ]

  -- A plan that is built has one action for each affected item, in their order, at least one and at most
  -- three. A required place is moved, to another day that a risk calls normal and that is not locked; an
  -- item that is not required is replaced or removed. The edit that the plan makes has no operation that
  -- is refused because it would take a required place away.
  pub build_weather_repair_plan-IsSafePlan :
      (risks : List DailyWeatherRisk) (alternatives : List PlanningPoi) (locks : List PlanLock)
      (plan : WeatherRepairPlan)
      → build_weather_repair_plan trip digest event base candidate impact risks alternatives locks
        ≡ some plan
      → IsSafePlan trip candidate impact risks locks plan
  unfolding build_weather_repair_plan repair_plan_to_edit_patch
  build_weather_repair_plan-IsSafePlan risks alternatives locks plan h =
      let items = candidate_items candidate in
      let (actions, some_action, few) =
        plan_with-ok
          (actions_for trip items (safe_dates risks locks) impact.affected_item_ids alternatives)
          plan h in
      let (named, safe) =
        actions_for-IsSafe trip items risks locks impact.affected_item_ids alternatives plan.actions
          actions in
      (named, some_action, few, safe, all_unrefused trip items risks locks plan.actions safe)
