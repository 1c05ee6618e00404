-- ===== src/Lifecycle/Actions/Counts.antt =====
-- How often a place stands in a draft while an edit is applied.
use travel_plan_agent.Common.{
  ℕ, zero, suc, ◌+◌, ◌≡◌, refl, String, Option, none, some, List, [], ◌∷◌, ◌++◌, str_eq, str_eq_iff,
  if◌then◌else◌, lookup, insert, nat_eq, string_eq, ok, and_then-ok, or_raise-ok, or_raise, arith,
}
use travel_plan_agent.Planning.Repair.Apply.{DayPois}
use travel_plan_agent.Lifecycle.Models.{key_error, value_error, action_error}
use travel_plan_agent.Lifecycle.Actions.{
  kept_head, remove_first, replace_first, insert_at, place_at, change_with, put_on,
}

-- One, if two places are the same.
abbrev pub one : String → String → ℕ
one p id = if str_eq p id then 1 else 0

abbrev pub count : String → List String → ℕ
count p [] = 0
count p (i ∷ ids) = one p i + count p ids

abbrev pub total : String → DayPois → ℕ
total p [] = 0
total p ((day, ids) ∷ days) = count p ids + total p days

module _ (p : String) where
  pub count-append : (xs ys : List String) → count p (xs ++ ys) ≡ count p xs + count p ys
  count-append [] ys = omega arith
  count-append (x ∷ xs) ys = omega (arith, count-append xs ys)

  pub total-insert :
      (k : ℕ) (v old : List String) (m : DayPois)
      → lookup k m ≡ some old
      → total p (insert k v m) + count p old ≡ total p m + count p v
  unfolding lookup insert
  total-insert k v old [] h = absurd (cc h)
  total-insert k v old ((j, w) ∷ m) h = ground (arith, total-insert k v old m)

  count-remove_first :
      (id : String) (ids ids' : List String)
      → remove_first id ids ≡ some ids'
      → count p ids ≡ count p ids' + one p id
  count-remove_first id [] ids' h = absurd (cc h)
  count-remove_first id (i ∷ ids) ids' h =
      removed (remove_first id ids) (count-remove_first id ids) h
    where
      removed :
          (o : Option (List String))
          → ((found : List String) → o ≡ some found → count p ids ≡ count p found + one p id)
          → (if str_eq i id then some ids else kept_head i o) ≡ some ids'
          → count p (i ∷ ids) ≡ count p ids' + one p id
      removed none k h = ground (arith, str_eq_iff i id)
      removed (some found) k h = ground (arith, str_eq_iff i id, k found)

  count-replace_first :
      (old new : String) (ids ids' : List String)
      → replace_first old new ids ≡ some ids'
      → count p ids' + one p old ≡ count p ids + one p new
  count-replace_first old new [] ids' h = absurd (cc h)
  count-replace_first old new (i ∷ ids) ids' h =
      replaced (replace_first old new ids) (count-replace_first old new ids) h
    where
      replaced :
          (o : Option (List String))
          → ((found : List String)
              → o ≡ some found
              → count p found + one p old ≡ count p ids + one p new)
          → (if str_eq i old then some (new ∷ ids) else kept_head i o) ≡ some ids'
          → count p ids' + one p old ≡ count p (i ∷ ids) + one p new
      replaced none k h = ground (arith, str_eq_iff i old)
      replaced (some found) k h = ground (arith, str_eq_iff i old, k found)

  count-insert_at :
      (n : ℕ) (id : String) (ids : List String)
      → count p (insert_at n id ids) ≡ one p id + count p ids
  count-insert_at zero id ids = refl
  count-insert_at (suc n) id [] = refl
  count-insert_at (suc n) id (i ∷ ids) = omega (arith, count-insert_at n id ids)

  pub count-place_at :
      (index : Option ℕ) (id : String) (ids : List String)
      → count p (place_at index id ids) ≡ one p id + count p ids
  count-place_at none id ids = omega (arith, count-append ids (id ∷ []))
  count-place_at (some n) id ids = count-insert_at n id ids

  -- A change of one day that adds and takes away.
  change_with-total :
      (change : List String → Option (List String)) (less more : ℕ) (day : ℕ) (days days' : DayPois)
      → ((ids ids' : List String)
          → change ids ≡ some ids'
          → count p ids' + less ≡ count p ids + more)
      → change_with change day days ≡ ok days'
      → total p days' + less ≡ total p days + more
  change_with-total change less more day days days' k h =
      let (ids, found, h') = and_then-ok (or_raise (lookup day days) key_error) _ h in
      let (ids', done, h'') = and_then-ok (or_raise (change ids) value_error) _ h' in
      let stored : insert day ids' days ≡ days' = ground (arith, h'') in
      let at = or_raise-ok (lookup day days) key_error found in
      rw (← stored) (
        omega (
          arith,
          total-insert day ids' ids days at,
          k ids ids' (or_raise-ok (change ids) value_error done),
        ))

  pub remove_first-total :
      (id : String) (day : ℕ) (days days' : DayPois)
      → change_with (remove_first id) day days ≡ ok days'
      → total p days' + one p id ≡ total p days
  remove_first-total id day days days' h = omega (
    arith,
    change_with-total (remove_first id) (one p id) 0 day days days'
        (λ ids ids' k. omega (arith, count-remove_first id ids ids' k)) h,
  )

  pub replace_first-total :
      (old new : String) (day : ℕ) (days days' : DayPois)
      → change_with (replace_first old new) day days ≡ ok days'
      → total p days' + one p old ≡ total p days + one p new
  replace_first-total old new day days days' h =
      change_with-total (replace_first old new) (one p old) (one p new) day days days'
        (count-replace_first old new) h

  pub put_on-total :
      (index : Option ℕ) (id : String) (day : ℕ) (days days' : DayPois)
      → put_on index id day days ≡ ok days'
      → total p days' ≡ total p days + one p id
  put_on-total index id day days days' h =
      let (ids, found, h') =
        and_then-ok (or_raise (lookup day days) (action_error "date_out_of_range")) _ h in
      let stored : insert day (place_at index id ids) days ≡ days' = ground (arith, h') in
      rw (← stored) (
        omega (
          arith,
          total-insert day (place_at index id ids) ids days
              (or_raise-ok (lookup day days) (action_error "date_out_of_range") found),
          count-place_at index id ids,
        ))
