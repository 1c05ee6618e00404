-- ===== src/Lifecycle/Impact.antt =====
-- lifecycle/impact.py: which days and items an edit affects, and which locks it runs into. The tools
-- that the edit needs and the reasons are left out.
use travel_plan_agent.Common.{
  ℕ, String, Bool, true, false, Option, none, some, List, [], ◌∷◌, ◌++◌, ltb, not, map,
  if◌then◌else◌, filter, length, contains, lookup, insert, nat_eq, string_eq,
}
use travel_plan_agent.Common.Text.{is_empty, str_ltb}
use travel_plan_agent.Common.Sort.{sort_by}
use travel_plan_agent.Planning.Models.{PlanItem, DayPlan, PlanCandidate}
use travel_plan_agent.Planning.Repair.{distinct}
use travel_plan_agent.Lifecycle.Models.{LockKey, PlanLock, EditOperation, ImpactScope, ImpactResult}

-- `if item_id`: an identifier that is given and not empty.
abbrev pub given : Option String → Option String
given none = none
given (some id) = if is_empty id then none else some id

abbrev pub place_item : ℕ → Option String → List (String × ℕ) → List (String × ℕ)
place_item date none m = m
place_item date (some id) m = insert id date m

abbrev pub place_items : ℕ → List PlanItem → List (String × ℕ) → List (String × ℕ)
place_items date [] m = m
place_items date (i ∷ items) m = place_items date items (place_item date (given i.item_id) m)

abbrev pub place_days : List DayPlan → List (String × ℕ) → List (String × ℕ)
place_days [] m = m
place_days (d ∷ days) m = place_days days (place_items d.date d.items m)

-- `_item_locations`
unfoldable pub item_locations : PlanCandidate → List (String × ℕ)
item_locations candidate = place_days candidate.days []

abbrev pub located : Option String → List (String × ℕ) → Option ℕ
located none m = none
located (some id) m = lookup id m

abbrev pub optional {ℓ} : {A : Type ℓ} → Option A → List A
optional none = []
optional (some a) = a ∷ []

-- The dates that one operation adds to `affected_dates`.
abbrev pub dates_of : List (String × ℕ) → EditOperation → List ℕ
dates_of m op = optional (located (given op.item_id) m) ++ optional op.target_date

-- The item that one operation adds to `affected_items`.
abbrev pub items_of : List (String × ℕ) → EditOperation → List String
items_of m op = elim (located (given op.item_id) m) [
  | none ↦ []
  | some date ↦ optional (given op.item_id)
]

abbrev pub collected {ℓ} : {A : Type ℓ} → (EditOperation → List A) → List EditOperation → List A
collected f [] = []
collected f (op ∷ ops) = f op ++ collected f ops

abbrev is_conflict : List ℕ → List String → LockKey → Bool
is_conflict dates items (LockKey.day_lock date) = contains date dates
is_conflict dates items (LockKey.item_lock id) = contains id items

-- The order of the texts `day:<date>` and `item:<id>`.
abbrev lock_ltb : LockKey → LockKey → Bool
lock_ltb (LockKey.day_lock a) (LockKey.day_lock b) = ltb a b
lock_ltb (LockKey.day_lock a) (LockKey.item_lock b) = true
lock_ltb (LockKey.item_lock a) (LockKey.day_lock b) = false
lock_ltb (LockKey.item_lock a) (LockKey.item_lock b) = str_ltb a b

abbrev scope_of : ℕ → ℕ → ImpactScope
scope_of max_affected_days count =
    if ltb max_affected_days count
    then ImpactScope.requires_new_plan
    else if ltb 1 count
    then ImpactScope.multi_day
    else if ltb 0 count
    then ImpactScope.day
    else ImpactScope.item

unfoldable pub analyze_change_impact :
    PlanCandidate → List EditOperation → List PlanLock → ℕ → ImpactResult
unfolding item_locations contains lookup sort_by distinct
analyze_change_impact candidate operations locks max_affected_days =
    let locations = item_locations candidate in
    let dates = distinct [] (collected (dates_of locations) operations) in
    let items = distinct [] (collected (items_of locations) operations) in
    record {
      scope = scope_of max_affected_days (length dates);
      affected_dates = sort_by ltb dates;
      affected_item_ids = sort_by str_ltb items;
      preserved_dates = sort_by ltb (
          distinct [] (
            filter (λ (date : ℕ). not (contains date dates))
              (map (λ (d : DayPlan). d.date) candidate.days)));
      lock_conflicts =
          sort_by lock_ltb
            (filter (is_conflict dates items) (map (λ (l : PlanLock). l.lock_id) locks));
    }
