-- ===== src/Planning/Repair/Effects.antt =====
-- What an applied repair plan changes, and what it leaves.
use travel_plan_agent.Common.{
  ℕ, ◌≡◌, ◌∙◌, refl, sym, ap, String, Bool, true, false, Option, none, some, List, [], ◌∷◌, not,
  ◌==◌, str_eq_iff, if◌then◌else◌, filter, lookup, insert, lookup-insert, contains, nat_eq,
  string_eq, Result, ok, raise, map, All, arith, Bool-cases, inl, inr, ==_iff,
}
use travel_plan_agent.Common.Dict.Unique.{IsUnique}
use travel_plan_agent.Planning.Models.{RepairAction, DraftDay, CandidateDraft, RepairPlan}
use travel_plan_agent.Planning.Repair.Apply.{
  ApplyError, key_error, unchanged, DayPois, day_pois, index_days, without, is_removal, change_day,
  on_day, take_off, apply_action, then_apply, apply_actions, same_days, or_empty, rebuilt, finished,
  apply_repair_plan,
}

-- The places that are not in a list.
abbrev pub others : List String → List String → List String
others named ids = filter (λ i. not (contains i named)) ids

abbrev pub others_at : List String → Option (List String) → Option (List String)
others_at named none = none
others_at named (some ids) = some (others named ids)

module _ (named : List String) where
  others-without :
      (id : String) (ids : List String)
      → contains id named ≡ true
      → others named (without id ids) ≡ others named ids
  unfolding without
  others-without id [] h = refl
  others-without id (i ∷ ids) h = ground (arith, str_eq_iff i id, others-without id ids)

  others-cons :
      (id : String) (ids : List String)
      → contains id named ≡ true
      → others named (id ∷ ids) ≡ others named ids
  others-cons id ids h = ground (arith, h)

  -- A change that others do not see.
  abbrev IsHidden : (List String → List String) → Type 0
  IsHidden change = (ids : List String) → others named (change ids) ≡ others named ids

  change_day-others :
      (change : List String → List String) (d : ℕ) (m m' : DayPois) (day : ℕ)
      → IsHidden change
      → change_day change d m ≡ ok m'
      → others_at named (lookup day m') ≡ others_at named (lookup day m)
  change_day-others change d m m' day hidden e = found (lookup d m) refl e
    where
      found :
          (o : Option (List String))
          → lookup d m ≡ o
          → (elim o [ none ↦ raise (key_error d) | some ids ↦ ok (insert d (change ids) m) ])
            ≡ ok m'
          → others_at named (lookup day m') ≡ others_at named (lookup day m)
      found none q f = absurd (cc f)
      found (some ids) q f =
          let same : insert d (change ids) m ≡ m' = ground (arith, f) in
          let step = lookup-insert d day (change ids) m in
          elim (Bool-cases (d == day)) [
            | inl here ↦
                let at : lookup day m ≡ some ids = ground (arith, q, ==_iff d day, here) in
                let now : lookup day m' ≡ some (change ids) = ground (arith, step, same, here) in
                rw (at, now) (ap some (hidden ids))
            | inr other ↦ ap (others_at named) (ground (arith, step, same, other))
          ]

  take_off-others :
      (id : String) (m : DayPois) (day : ℕ)
      → contains id named ≡ true
      → others_at named (lookup day (take_off id m)) ≡ others_at named (lookup day m)
  unfolding take_off lookup
  take_off-others id [] day h = refl
  take_off-others id ((d, ids) ∷ m) day h = elim (Bool-cases (d == day)) [
    | inl here ↦ rw here (ap some (others-without id ids h))
    | inr other ↦ rw other (take_off-others id m day h)
  ]

  on_day-others :
      (change : List String → List String) (o : Option ℕ) (m m' : DayPois) (day : ℕ)
      → IsHidden change
      → on_day change o m ≡ ok m'
      → others_at named (lookup day m') ≡ others_at named (lookup day m)
  on_day-others change none m m' day hidden e =
      let same : m ≡ m' = ground (arith, e) in
      ap (λ (n : DayPois). others_at named (lookup day n)) (sym same)
  on_day-others change (some d) m m' day hidden e = change_day-others change d m m' day hidden e

  apply_action-others :
      (a : RepairAction) (m m' : DayPois) (day : ℕ)
      → contains a.poi_id named ≡ true
      → apply_action a m ≡ ok m'
      → others_at named (lookup day m') ≡ others_at named (lookup day m)
  unfolding apply_action
  apply_action-others a m m' day h e = elim (Bool-cases (is_removal a.kind)) [
    | inl removes ↦
        on_day-others (without a.poi_id) a.from_day m m' day (λ ids. others-without a.poi_id ids h)
          (rw removes at e)
    | inr places ↦
        on_day-others (λ ids. a.poi_id ∷ ids) a.to_day (take_off a.poi_id m) m' day
          (λ ids. others-cons a.poi_id ids h) (rw places at e)
        ∙ take_off-others a.poi_id m day h
  ]

  pub apply_actions-others :
      (actions : List RepairAction) (m m' : DayPois) (day : ℕ)
      → All (λ (a : RepairAction). contains a.poi_id named ≡ true) actions
      → apply_actions actions m ≡ ok m'
      → others_at named (lookup day m') ≡ others_at named (lookup day m)
  unfolding apply_actions
  apply_actions-others [] m m' day h e =
      let same : m ≡ m' = ground (arith, e) in
      ap (λ (n : DayPois). others_at named (lookup day n)) (sym same)
  apply_actions-others (a ∷ actions) m m' day (here, rest) e =
      stepped (apply_action a m) refl e (λ n f. apply_actions-others actions n m' day rest f)
    where
      stepped :
          (r : Result ApplyError DayPois)
          → apply_action a m ≡ r
          → then_apply r (apply_actions actions) ≡ ok m'
          → ((n : DayPois)
              → apply_actions actions n ≡ ok m'
              → others_at named (lookup day m') ≡ others_at named (lookup day n))
          → others_at named (lookup day m') ≡ others_at named (lookup day m)
      stepped (raise t) q f k = absurd (cc f)
      stepped (ok n) q f k = k n f ∙ apply_action-others a m n day here q

-- The dates of the days, with their places.
abbrev pub dated : List DraftDay → List (ℕ × List String)
dated [] = []
dated (d ∷ days) = (d.date, d.poi_ids) ∷ dated days

-- Every day of a draft with distinct dates has its entry.
index_days-lookup :
    (days : List DraftDay) (m : DayPois) (day : ℕ)
    → IsUnique (dated days)
    → lookup day (index_days days m)
      ≡ (elim (lookup day (dated days)) [ none ↦ lookup day m | some ids ↦ some ids ])
unfolding lookup
index_days-lookup [] m day u = refl
index_days-lookup (d ∷ days) m day (fresh, u) = ground (
  arith,
  index_days-lookup days (insert d.date d.poi_ids m) day u,
  lookup-insert d.date day d.poi_ids m,
  ==_iff d.date day,
)

entries-found :
    (ds : List DraftDay) (m : DayPois)
    → IsUnique (dated ds)
    → ((day : ℕ) (ids : List String) → lookup day (dated ds) ≡ some ids → lookup day m ≡ some ids)
    → All (λ (d : DraftDay). lookup d.date m ≡ some d.poi_ids) ds
unfolding lookup
entries-found [] m u h = tt
entries-found (d ∷ ds) m (fresh, u) h = (
  h d.date d.poi_ids (ground (arith, ==_iff d.date d.date)),
  entries-found ds m u (λ day ids q. h day ids (ground (arith, q, fresh, ==_iff d.date day))),
)

-- A day without the places that are named.
abbrev pub untouched : List String → DraftDay → DraftDay
untouched named d = record d { poi_ids = others named d.poi_ids }

rebuilt-untouched :
    (named : List String) (base m : DayPois) (ds : List DraftDay)
    → All (λ (d : DraftDay). lookup d.date base ≡ some d.poi_ids) ds
    → ((day : ℕ) → others_at named (lookup day m) ≡ others_at named (lookup day base))
    → map (untouched named) (map (rebuilt m) ds) ≡ map (untouched named) ds
rebuilt-untouched named base m [] h same = refl
rebuilt-untouched named base m (d ∷ ds) (here, rest) same =
    let kept : others named (or_empty (lookup d.date m)) ≡ others named d.poi_ids =
      entry (lookup d.date m) (same d.date ∙ ap (others_at named) here) in
    let later = rebuilt-untouched named base m ds rest same in rw (kept, later)
  where
    entry :
        (o : Option (List String))
        → others_at named o ≡ some (others named d.poi_ids)
        → others named (or_empty o) ≡ others named d.poi_ids
    entry none e = absurd (cc e)
    entry (some ids) e = ground (arith, e)

-- An applied repair plan changes nothing but the places that its actions name: the draft has the same
-- days, and on each of them the other places stand in the same order. The days of the draft have
-- distinct dates.
pub apply_repair_plan-others :
    (named : List String) (draft : CandidateDraft) (plan : RepairPlan) (id : String)
    (draft' : CandidateDraft)
    → IsUnique (dated draft.days)
    → All (λ (a : RepairAction). contains a.poi_id named ≡ true) plan.actions
    → apply_repair_plan draft plan id ≡ ok draft'
    → map (untouched named) draft'.days ≡ map (untouched named) draft.days
unfolding apply_repair_plan day_pois
apply_repair_plan-others named draft plan id draft' u h e =
    applied (apply_actions plan.actions base) refl e
  where
    base : DayPois
    base = day_pois draft.days

    changed_days :
        (days : List DraftDay) (b : Bool)
        → map (untouched named) days ≡ map (untouched named) draft.days
        → (if b then raise unchanged else ok (record { id = id; days = days })) ≡ ok draft'
        → map (untouched named) draft'.days ≡ map (untouched named) draft.days
    changed_days days true k f = absurd (cc f)
    changed_days days false k f =
        let same : days ≡ draft'.days = ground (arith, f) in
        ap (map (untouched named)) (sym same) ∙ k

    applied :
        (r : Result ApplyError DayPois)
        → apply_actions plan.actions base ≡ r
        → finished draft id r ≡ ok draft'
        → map (untouched named) draft'.days ≡ map (untouched named) draft.days
    applied (raise t) q f = absurd (cc f)
    applied (ok m) q f =
        changed_days (map (rebuilt m) draft.days)
          (same_days (map (rebuilt m) draft.days) draft.days)
          (rebuilt-untouched named base m draft.days
            (entries-found draft.days base u
              (λ day ids k. index_days-lookup draft.days [] day u ∙ rw k))
            (λ day. apply_actions-others named plan.actions base m day h q))
          f
