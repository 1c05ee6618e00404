-- ===== src/Lifecycle/Actions/Touches.antt =====
-- Which days of a draft a change of one day touches.
use travel_plan_agent.Common.{
  ℕ, ◌≡◌, ◌∙◌, refl, ap, String, true, false, Option, some, List, contains, lookup, insert,
  lookup-insert, nat_eq, string_eq, ==_iff, arith, ok, and_then-ok, or_raise-ok, or_raise,
}
use travel_plan_agent.Planning.Repair.Apply.{DayPois}
use travel_plan_agent.Lifecycle.Models.{action_error, key_error, value_error}
use travel_plan_agent.Lifecycle.Actions.{place_at, change_with, put_on}
use travel_plan_agent.Lifecycle.Actions.Days.{dates, dates-insert}

-- The days stay the same, and those that are not in the list keep their places.
pub record Touches (touched : List ℕ) (m m' : DayPois) : Type 0 where
  pub same_dates : dates m' ≡ dates m
  pub elsewhere : (day : ℕ) → contains day touched ≡ false → lookup day m' ≡ lookup day m

pub Touches-refl : (touched : List ℕ) (m : DayPois) → Touches touched m m
Touches-refl touched m = record { same_dates = refl; elsewhere = λ day h. refl }

pub Touches-trans :
    (touched : List ℕ) (m n k : DayPois)
    → Touches touched m n
    → Touches touched n k
    → Touches touched m k
Touches-trans touched m n k a b = record {
  same_dates = b.same_dates ∙ a.same_dates;
  elsewhere = λ day h. b.elsewhere day h ∙ a.elsewhere day h;
}

pub Touches-insert :
    (touched : List ℕ) (day : ℕ) (ids old : List String) (m : DayPois)
    → contains day touched ≡ true
    → lookup day m ≡ some old
    → Touches touched m (insert day ids m)
Touches-insert touched day ids old m c h = record {
  same_dates = dates-insert day ids old m h;
  elsewhere = λ d k. apart d k;
}
  where
    apart : (d : ℕ) → contains d touched ≡ false → lookup d (insert day ids m) ≡ lookup d m
    apart d k =
        let same = λ (e : day ≡ d). ap (λ (n : ℕ). contains n touched) e in
        ground (arith, lookup-insert day d ids m, ==_iff day d, same)

module _ (touched : List ℕ) (day : ℕ) (m m' : DayPois) (here : contains day touched ≡ true) where
  pub change_with-Touches :
      (change : List String → Option (List String))
      → change_with change day m ≡ ok m'
      → Touches touched m m'
  change_with-Touches change h =
      let (ids, found, h1) = and_then-ok (or_raise (lookup day m) key_error) _ h in
      let (ids', done, h2) = and_then-ok (or_raise (change ids) value_error) _ h1 in
      let stored : insert day ids' m ≡ m' = ground (arith, h2) in
      rw (← stored)
        (Touches-insert touched day ids' ids m here (or_raise-ok (lookup day m) key_error found))

  pub put_on-Touches :
      (index : Option ℕ) (id : String) → put_on index id day m ≡ ok m' → Touches touched m m'
  put_on-Touches index id h =
      let (ids, found, h1) =
        and_then-ok (or_raise (lookup day m) (action_error "date_out_of_range")) _ h in
      let stored : insert day (place_at index id ids) m ≡ m' = ground (arith, h1) in
      rw (← stored) (
        Touches-insert touched day (place_at index id ids) ids m here
          (or_raise-ok (lookup day m) (action_error "date_out_of_range") found))
