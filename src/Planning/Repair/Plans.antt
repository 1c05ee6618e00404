-- ===== src/Planning/Repair/Plans.antt =====
-- A whole repair plan: what it removes is optional.
use travel_plan_agent.Common.{
  ℕ, ◌≡◌, refl, String, Bool, true, false, Option, none, some, List, [], ◌∷◌, ◌++◌, ◌||◌, str_eq,
  if◌then◌else◌, filter, contains, string_eq, pair_eq, nat_eq, Result, ok, raise, All, All-append,
  arith, subst,
}
use travel_plan_agent.Common.Text.{Unicode}
use travel_plan_agent.Planning.Models.{
  PlanningPoi, TripSpec, PlanCandidate, RepairAction, CandidateDraft, Violation, CriticReport,
  RepairPlan,
}
use travel_plan_agent.Planning.Repair.{
  poi_by_id, deduplicate, key_of, ActionKey, kind_eq, option_nat_eq,
}
use travel_plan_agent.Planning.Repair.Build.{
  for_budget, for_day, generate, collect, joined, build_repair_plan, planned, plan_or_stop,
}
use travel_plan_agent.Planning.Repair.Safe.{IsSafe, budget-All, day_limit-All}
use travel_plan_agent.Planning.Repair.Changes.{
  change_for_time-All, first_addition-All, place_missing-All,
}

module _ ⦃u : Unicode⦄ (trip : TripSpec) (candidate : PlanCandidate) (draft : CandidateDraft)
    (pois : List PlanningPoi) where
  abbrev AreSafe : List RepairAction → Type 0
  AreSafe = All (IsSafe trip candidate)

  budgeted : (o : Option ℕ) → AreSafe (for_budget trip candidate draft pois o)
  budgeted none = tt
  budgeted (some budget) = budget-All trip candidate (poi_by_id pois) budget

  limited : (type : String) (o : Option ℕ) → AreSafe (for_day trip candidate draft pois type o)
  limited type none = tt
  limited type (some day) = day_limit-All trip candidate (poi_by_id pois) day type

  either :
      (b : Bool) (xs ys : List RepairAction)
      → AreSafe xs
      → AreSafe ys
      → AreSafe (if b then xs else ys)
  either true xs ys hx hy = hx
  either false xs ys hx hy = hy

  generate-AreSafe : (v : Violation) → AreSafe (generate trip candidate draft pois v)
  unfolding generate
  generate-AreSafe v = either (str_eq v.type "budget_exceeded") _ _ (budgeted trip.total_budget) (
      either (str_eq v.type "walking_limit" || str_eq v.type "activity_time_limit") _ _
        (limited v.type v.day)
        (either (str_eq v.type "missing_must_visit") _ _
          (place_missing-All trip candidate draft pois _ trip.must_visit)
          (either (str_eq v.type "empty_plan") _ _ (first_addition-All trip candidate draft _)
            (change_for_time-All trip candidate draft pois v.type v.day v.entity_ids))))

  joined-AreSafe :
      (type : String) (actions : List RepairAction) (r : Result String (List RepairAction))
      (all : List RepairAction)
      → AreSafe actions
      → ((more : List RepairAction) → r ≡ ok more → AreSafe more)
      → joined type actions r ≡ ok all
      → AreSafe all
  joined-AreSafe type [] r all h k e = absurd (cc e)
  joined-AreSafe type (a ∷ actions) (raise t) all h k e = absurd (cc e)
  joined-AreSafe type (a ∷ actions) (ok more) all h k e =
      let same : a ∷ actions ++ more ≡ all = ground (arith, e) in
      subst AreSafe same (All-append (IsSafe trip candidate) (a ∷ actions) more h (k more refl))

  collect-AreSafe :
      (vs : List Violation) (all : List RepairAction)
      → collect trip candidate draft pois vs ≡ ok all
      → AreSafe all
  unfolding collect
  collect-AreSafe [] all e = let same : [] ≡ all = ground (arith, e) in subst AreSafe same tt
  collect-AreSafe (v ∷ vs) all e =
      joined-AreSafe v.type (generate trip candidate draft pois v)
        (collect trip candidate draft pois vs) all (generate-AreSafe v) (collect-AreSafe vs) e

  deduplicate-AreSafe :
      (seen : List ActionKey) (actions : List RepairAction)
      → AreSafe actions
      → AreSafe (deduplicate seen actions)
  unfolding deduplicate
  deduplicate-AreSafe seen [] h = tt
  deduplicate-AreSafe seen (a ∷ actions) (here, others) =
      kept (contains (key_of a) seen) (deduplicate-AreSafe seen actions others)
        (deduplicate-AreSafe (key_of a ∷ seen) actions others)
    where
      kept :
          (b : Bool)
          → AreSafe (deduplicate seen actions)
          → AreSafe (deduplicate (key_of a ∷ seen) actions)
          → AreSafe (elim b [
            | true ↦ deduplicate seen actions
            | false ↦ a ∷ deduplicate (key_of a ∷ seen) actions
          ])
      kept true h k = h
      kept false h k = (here, k)

  planned-AreSafe :
      (round : ℕ) (r : Result String (List RepairAction)) (plan : RepairPlan)
      → ((all : List RepairAction) → r ≡ ok all → AreSafe all)
      → planned trip candidate draft pois round r ≡ ok plan
      → AreSafe plan.actions
  planned-AreSafe round (raise t) plan k e = absurd (cc e)
  planned-AreSafe round (ok actions) plan k e =
      chosen (deduplicate [] actions) (deduplicate-AreSafe [] actions (k actions refl)) e
    where
      chosen :
          (xs : List RepairAction)
          → AreSafe xs
          → plan_or_stop trip candidate draft pois round xs ≡ ok plan
          → AreSafe plan.actions
      chosen [] h f = absurd (cc f)
      chosen (a ∷ xs) h f =
          let same : a ∷ xs ≡ plan.actions = ground (arith, f) in subst AreSafe same h

  -- Whatever violations a candidate has, every removal in the repair plan that is built for it takes,
  -- on the day it names, an activity of the candidate whose name matches no required place.
  pub build_repair_plan-IsSafe :
      (report : CriticReport) (round : ℕ) (plan : RepairPlan)
      → build_repair_plan trip candidate draft pois report round ≡ ok plan
      → All (IsSafe trip candidate) plan.actions
  unfolding build_repair_plan
  build_repair_plan-IsSafe report round plan e =
      let errors = filter (λ (v : Violation). v.is_error) candidate.violations in
      let repairable : report.repairable ≡ true = ground (arith, e) in
      planned-AreSafe round (collect trip candidate draft pois errors) plan (collect-AreSafe errors)
        (rw repairable at e)
