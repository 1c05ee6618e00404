-- ===== src/Planning/Repair/Moves.antt =====
-- Where a place stands that an action moves, inserts or adds.
use travel_plan_agent.Common.{
  ℕ, ◌≡◌, ◌∙◌, refl, sym, ap, String, Bool, true, false, Option, none, some, List, [], ◌∷◌, ◌++◌,
  ◌==◌, str_eq_iff, lookup, insert, lookup-insert, contains, nat_eq, string_eq, Result, ok, raise,
  All, arith, Bool-cases, inl, inr,
}
use travel_plan_agent.Planning.Models.{RepairAction}
use travel_plan_agent.Planning.Repair.Apply.{
  ApplyError, key_error, DayPois, without, is_removal, change_day, take_off, apply_action,
  then_apply, apply_actions,
}
use travel_plan_agent.Planning.Repair.Effects.{others, others_at, apply_actions-others}

contains-without : (id : String) (ids : List String) → contains id (without id ids) ≡ false
unfolding without contains
contains-without id [] = refl
contains-without id (i ∷ ids) =
    ground (arith, str_eq_iff i id, str_eq_iff id i, contains-without id ids)

contains-others :
    (id : String) (named ids : List String)
    → contains id named ≡ false
    → contains id (others named ids) ≡ contains id ids
unfolding contains
contains-others id named [] h = refl
contains-others id named (i ∷ ids) h =
    ground (arith, str_eq_iff i id, str_eq_iff id i, h, contains-others id named ids)

abbrev pub holds : String → Option (List String) → Bool
holds id none = false
holds id (some ids) = contains id ids

holds-take_off :
    (id : String) (m : DayPois) (day : ℕ) → holds id (lookup day (take_off id m)) ≡ false
unfolding take_off lookup
holds-take_off id [] day = refl
holds-take_off id ((d, ids) ∷ m) day = elim (Bool-cases (d == day)) [
  | inl here ↦ rw here (contains-without id ids)
  | inr other ↦ rw other (holds-take_off id m day)
]

placed_at :
    (id : String) (m m' : DayPois) (target day : ℕ)
    → ((d : ℕ) → holds id (lookup d m) ≡ false)
    → change_day (λ ids. id ∷ ids) target m ≡ ok m'
    → holds id (lookup day m') ≡ (target == day)
unfolding contains
placed_at id m m' target day absent e = found (lookup target m) refl e
  where
    found :
        (o : Option (List String))
        → lookup target m ≡ o
        → (elim o [ none ↦ raise (key_error target) | some ids ↦ ok (insert target (id ∷ ids) m) ])
          ≡ ok m'
        → holds id (lookup day m') ≡ (target == day)
    found none q f = absurd (cc f)
    found (some ids) q f =
        let same : insert target (id ∷ ids) m ≡ m' = ground (arith, f) in
        let step = lookup-insert target day (id ∷ ids) m in
        elim (Bool-cases (target == day)) [
          | inl here ↦
              let now : lookup day m' ≡ some (id ∷ ids) = ground (arith, step, same, here) in
              rw (now, here) (ground (arith, str_eq_iff id id))
          | inr other ↦
              let now : lookup day m' ≡ lookup day m = ground (arith, step, same, other) in
              rw (now, other) (absent day)
        ]

action_placed :
    (a : RepairAction) (m m' : DayPois) (target day : ℕ)
    → is_removal a.kind ≡ false
    → a.to_day ≡ some target
    → apply_action a m ≡ ok m'
    → holds a.poi_id (lookup day m') ≡ (target == day)
unfolding apply_action
action_placed a m m' target day places to e =
    placed_at a.poi_id (take_off a.poi_id m) m' target day (holds-take_off a.poi_id m)
      (rw (places, to) at e)

holds-others :
    (id : String) (named : List String) (o p : Option (List String))
    → contains id named ≡ false
    → others_at named o ≡ others_at named p
    → holds id o ≡ holds id p
holds-others id named none none h e = refl
holds-others id named none (some ys) h e = absurd (cc e)
holds-others id named (some xs) none h e = absurd (cc e)
holds-others id named (some xs) (some ys) h e =
    let same : others named xs ≡ others named ys = ground (arith, e) in
    sym (contains-others id named xs h) ∙ ap (contains id) same ∙ contains-others id named ys h

-- A place that an action moves, inserts or adds to a day, and that no later action names, stands after
-- all actions on that day and on no other, whatever the actions before it did.
pub apply_actions-placed :
    (before : List RepairAction) (a : RepairAction) (after : List RepairAction)
    (named : List String) (m m' : DayPois) (target day : ℕ)
    → is_removal a.kind ≡ false
    → a.to_day ≡ some target
    → All (λ (b : RepairAction). contains b.poi_id named ≡ true) after
    → contains a.poi_id named ≡ false
    → apply_actions (before ++ a ∷ after) m ≡ ok m'
    → holds a.poi_id (lookup day m') ≡ (target == day)
unfolding apply_actions
apply_actions-placed [] a after named m m' target day places to h free e =
    stepped (apply_action a m) refl e
  where
    stepped :
        (r : Result ApplyError DayPois)
        → apply_action a m ≡ r
        → then_apply r (apply_actions after) ≡ ok m'
        → holds a.poi_id (lookup day m') ≡ (target == day)
    stepped (raise t) q f = absurd (cc f)
    stepped (ok n) q f =
        holds-others a.poi_id named (lookup day m') (lookup day n) free
          (apply_actions-others named after n m' day h f)
        ∙ action_placed a m n target day places to q
apply_actions-placed (b ∷ before) a after named m m' target day places to h free e =
    stepped (apply_action b m) e
      (λ n f. apply_actions-placed before a after named n m' target day places to h free f)
  where
    stepped :
        (r : Result ApplyError DayPois)
        → then_apply r (apply_actions (before ++ a ∷ after)) ≡ ok m'
        → ((n : DayPois)
            → apply_actions (before ++ a ∷ after) n ≡ ok m'
            → holds a.poi_id (lookup day m') ≡ (target == day))
        → holds a.poi_id (lookup day m') ≡ (target == day)
    stepped (raise t) f k = absurd (cc f)
    stepped (ok n) f k = k n f
