-- ===== src/Planning/Repair/Changes.antt =====
-- The changes for a violation of the times, and the actions that place or move.
use mathlib.Core.List.{Mem, mem-cons_self, mem-cons_of_mem}
use travel_plan_agent.Common.{
  ℕ, ◌≡◌, refl, String, Bool, true, false, Option, none, some, List, [], ◌∷◌, not, ◌==◌,
  if◌then◌else◌, filter, find, lookup, string_eq, nat_eq, All, All-append, arith, subst, any,
}
use travel_plan_agent.Common.Text.{Unicode}
use travel_plan_agent.Common.Sort.{sort_by}
use travel_plan_agent.Planning.Models.{
  PlanItem, DayPlan, PlanningPoi, TripSpec, PlanCandidate, RepairActionKind, RepairAction,
  CandidateDraft,
}
use travel_plan_agent.Planning.Repair.{
  is_required_name, poi_by_id, place_of, kind_eq, option_nat_eq,
}
use travel_plan_agent.Planning.Repair.Removals.{or_nothing}
use travel_plan_agent.Planning.Repair.Targets.{
  best_target_day, placed_of, placed, later, is_named, local_removal, move_or, first_change,
  change_on, change_for_time,
}
use travel_plan_agent.Planning.Repair.Build.{
  overlaps, addition, is_other, place_missing, place_required, placement, prepend, first_addition,
}
use travel_plan_agent.Planning.Repair.Safe.{
  All-filter, All-first, All-sort_by, IsPlanned, Spares, IsSafe, find-Mem,
}

module _ ⦃u : Unicode⦄ (trip : TripSpec) (candidate : PlanCandidate) where
  placed-All :
      (ids : List String) (d : DayPlan)
      → Mem d candidate.days
      → (items : List PlanItem) → ((item : PlanItem) → Mem item items → Mem item d.items)
      → All (λ (i : PlanItem × String). IsPlanned candidate d.date i.0 i.1) (placed items)
  unfolding placed
  placed-All ids d here [] within = tt
  placed-All ids d here (item ∷ items) within =
      All-append (λ (i : PlanItem × String). IsPlanned candidate d.date i.0 i.1)
        (placed_of item (place_of item)) (placed items) (at (place_of item) refl)
        (placed-All ids d here items (λ i m. within i (mem-cons_of_mem item m)))
    where
      at :
          (o : Option String)
          → place_of item ≡ o
          → All (λ (i : PlanItem × String). IsPlanned candidate d.date i.0 i.1) (placed_of item o)
      at none e = tt
      at (some id) e = (
        record {
          on = d;
          day_planned = here;
          item_planned = within item mem-cons_self;
          dated = refl;
          place = e;
        },
        tt,
      )

  module _ (draft : CandidateDraft) where
    move_or-All :
        (type : String) (day : ℕ) (id : String) (o : Option PlanningPoi)
        (others : List RepairAction)
        → All (IsSafe trip candidate) others
        → All (IsSafe trip candidate) (move_or trip draft type day id o others)
    move_or-All type day id none others h = h
    move_or-All type day id (some poi) others h =
        targeted (best_target_day trip draft poi (some day))
      where
        targeted :
            (o : Option ℕ)
            → All (IsSafe trip candidate) (elim o [
              | none ↦ others
              | some target ↦
                  record {
                    kind = RepairActionKind.move_poi;
                    source_violation_type = type;
                    poi_id = id;
                    from_day = some day;
                    to_day = some target;
                  }
                  ∷ []
            ])
        targeted none = h
        targeted (some target) = (tt, tt)

    first_change-All :
        (pois : List (String × PlanningPoi)) (type : String) (day : ℕ)
        (items : List (PlanItem × String))
        → All (λ (i : PlanItem × String). IsPlanned candidate day i.0 i.1) items
        → All (IsSafe trip candidate) (first_change trip draft pois type day items)
    unfolding first_change
    first_change-All pois type day [] h = tt
    first_change-All pois type day ((item, id) ∷ items) (here, others) =
        let later = first_change trip draft pois type day items in
        removed (is_required_name trip item.name) refl (
          move_or-All type day id (lookup id pois) later
            (first_change-All pois type day items others))
      where
        removed :
            (b : Bool)
            → is_required_name trip item.name ≡ b
            → All (IsSafe trip candidate) (
                move_or trip draft type day id
                  (lookup id pois)
                  (first_change trip draft pois type day items))
            → All (IsSafe trip candidate) (
                if not b
                then local_removal trip draft type day id ∷ []
                else move_or trip draft type day id
                    (lookup id pois)
                    (first_change trip draft pois type day items))
        removed true e h = h
        removed false e h = ((day, item, refl, here, e), tt)

    change_on-All :
        (pois : List PlanningPoi) (type : String) (ids : List String) (day : ℕ) (o : Option DayPlan)
        → ((d : DayPlan) → o ≡ some d → Mem d candidate.days × (d.date ≡ day))
        → All (IsSafe trip candidate) (change_on trip draft pois type day ids o)
    change_on-All pois type ids day none h = tt
    change_on-All pois type ids day (some d) h =
        let P = λ (i : PlanItem × String). IsPlanned candidate d.date i.0 i.1 in
        let named = λ (i : PlanItem × String). is_named ids i.1 in
        let (here, dated) = h d refl in
        let placed_here = placed-All ids d here d.items (λ i m. m) in
        subst
          (λ t. All (IsSafe trip candidate) (
            first_change trip draft (poi_by_id pois) type t
              (sort_by later (filter named (placed d.items)))))
          dated
          (first_change-All (poi_by_id pois) type d.date _ (
            All-sort_by P later (filter named (placed d.items)) (
              All-first P (λ i. named i ≡ true) (filter named (placed d.items))
                (All-filter P named (placed d.items) placed_here))))

    pub change_for_time-All :
        (pois : List PlanningPoi) (type : String) (o : Option ℕ) (ids : List String)
        → All (IsSafe trip candidate) (change_for_time trip draft candidate pois type o ids)
    unfolding change_for_time
    change_for_time-All pois type none ids = tt
    change_for_time-All pois type (some day) ids =
        change_on-All pois type ids day (find (λ d. d.date == day) candidate.days) (λ d e.
          let (here, dated) = find-Mem trip candidate (λ d. d.date == day) candidate.days d e in
          (here, ground arith))

    pub first_addition-All :
        (pois : List PlanningPoi) → All (IsSafe trip candidate) (first_addition trip draft pois)
    unfolding first_addition
    first_addition-All [] = tt
    first_addition-All (poi ∷ pois) =
        added (best_target_day trip draft poi none) (first_addition-All pois)
      where
        added :
            (o : Option ℕ)
            → All (IsSafe trip candidate) (first_addition trip draft pois)
            → All (IsSafe trip candidate) (elim o [
              | none ↦ first_addition trip draft pois
              | some target ↦ addition poi target ∷ []
            ])
        added none h = h
        added (some target) h = (tt, tt)

    Spares-if :
        (b : Bool) (a : RepairAction)
        → Spares trip candidate
            (if b then RepairActionKind.move_poi else RepairActionKind.insert_must_visit)
            a
    Spares-if true a = tt
    Spares-if false a = tt

    prepend-All :
        (poi : PlanningPoi) (current target : Option ℕ) (o : Option (List RepairAction))
        → All (IsSafe trip candidate) (or_nothing o)
        → All (IsSafe trip candidate) (or_nothing (prepend (placement poi current target) o))
    prepend-All poi current none o h = tt
    prepend-All poi current (some target) none h = tt
    prepend-All poi current (some target) (some actions) h =
        (Spares-if (is_other current target) _, h)

    prepend_found-All :
        (poi : Option PlanningPoi) (o : Option (List RepairAction))
        → All (IsSafe trip candidate) (or_nothing o)
        → All (IsSafe trip candidate) (or_nothing (prepend (place_required trip draft poi) o))
    prepend_found-All none o h = tt
    prepend_found-All (some poi) o h = prepend-All poi _ _ o h

    pub place_missing-All :
        (pois : List PlanningPoi) (items : List PlanItem) (names : List String)
        → All (IsSafe trip candidate) (or_nothing (place_missing trip draft pois items names))
    unfolding place_missing
    place_missing-All pois items [] = tt
    place_missing-All pois items (required ∷ names) =
        placed_or (any (λ (i : PlanItem). overlaps required i.name) items)
          (place_missing-All pois items names)
      where
        others : Option (List RepairAction)
        others = place_missing trip draft pois items names

        poi : Option PlanningPoi
        poi = find (λ (p : PlanningPoi). overlaps required p.name) pois

        placed_or :
            (b : Bool)
            → All (IsSafe trip candidate) (or_nothing others)
            → All
                (IsSafe trip candidate)
                (or_nothing (if b then others else prepend (place_required trip draft poi) others))
        placed_or true h = h
        placed_or false h = prepend_found-All poi others h
