-- ===== src/Lifecycle/Actions/Days.antt =====
-- The days of a draft as a dictionary, and back.
use travel_plan_agent.Common.{
  ℕ, ◌+◌, ◌≡◌, ◌∙◌, refl, ap, String, none, some, List, [], ◌∷◌, ◌++◌, lookup, insert,
  lookup-insert, nat_eq, ==_iff, arith, map, All, beq_refl,
}
use travel_plan_agent.Common.Dict.Unique.{IsUnique}
use travel_plan_agent.Planning.Models.{DraftDay}
use travel_plan_agent.Planning.Repair.Apply.{DayPois, day_pois, index_days, rebuilt}
use travel_plan_agent.Planning.Repair.Effects.{dated}
use travel_plan_agent.Lifecycle.Actions.Counts.{count, total}

abbrev pub dates : DayPois → List ℕ
dates [] = []
dates ((day, ids) ∷ m) = day ∷ dates m

-- How often a place stands in a draft.
abbrev pub times : String → List DraftDay → ℕ
times p [] = 0
times p (d ∷ days) = count p d.poi_ids + times p days

pub dates-insert :
    (day : ℕ) (ids old : List String) (m : DayPois)
    → lookup day m ≡ some old
    → dates (insert day ids m) ≡ dates m
unfolding lookup insert
dates-insert day ids old [] h = absurd (cc h)
dates-insert day ids old ((d, is) ∷ m) h = ground (arith, dates-insert day ids old m)

insert_new :
    (day : ℕ) (ids : List String) (m : DayPois)
    → lookup day m ≡ none
    → insert day ids m ≡ m ++ (day, ids) ∷ []
unfolding lookup insert
insert_new day ids [] h = refl
insert_new day ids ((d, is) ∷ m) h = ground (arith, insert_new day ids m)

append_assoc : (m n k : DayPois) → (m ++ n) ++ k ≡ m ++ (n ++ k)
append_assoc [] n k = refl
append_assoc (x ∷ m) n k = ap (λ r. x ∷ r) (append_assoc m n k)

-- No day of a list has an entry yet.
abbrev AreNew : DayPois → List DraftDay → Type 0
AreNew m = All (λ (d : DraftDay). lookup d.date m ≡ none)

AreNew-insert :
    (day : ℕ) (ids : List String) (m : DayPois) (days : List DraftDay)
    → lookup day (dated days) ≡ none
    → AreNew m days
    → AreNew (insert day ids m) days
unfolding lookup
AreNew-insert day ids m [] h n = tt
AreNew-insert day ids m (d ∷ days) h (here, others) = (
  ground (arith, lookup-insert day d.date ids m, ==_iff d.date day, ==_iff day d.date),
  AreNew-insert day ids m days (ground (arith, h)) others,
)

index_days-new :
    (days : List DraftDay) (m : DayPois)
    → IsUnique (dated days)
    → AreNew m days
    → index_days days m ≡ m ++ dated days
index_days-new [] m u n = append_nil m
  where
    append_nil : (m : DayPois) → m ≡ m ++ []
    append_nil [] = refl
    append_nil (x ∷ m) = ap (λ r. x ∷ r) (append_nil m)
index_days-new (d ∷ days) m (fresh, u) (here, others) =
    index_days-new days (insert d.date d.poi_ids m) u
      (AreNew-insert d.date d.poi_ids m days fresh others)
    ∙ ap (λ r. r ++ dated days) (insert_new d.date d.poi_ids m here)
    ∙ append_assoc m ((d.date, d.poi_ids) ∷ []) (dated days)

all_new : (days : List DraftDay) → AreNew [] days
unfolding lookup
all_new [] = tt
all_new (d ∷ days) = (refl, all_new days)

-- The dictionary of a draft with distinct dates is the list of its days.
pub day_pois-eq-dated : (days : List DraftDay) → IsUnique (dated days) → day_pois days ≡ dated days
unfolding day_pois
day_pois-eq-dated days u = index_days-new days [] u (all_new days)

pub total-dated : (p : String) (days : List DraftDay) → total p (dated days) ≡ times p days
total-dated p [] = refl
total-dated p (d ∷ days) = omega (arith, total-dated p days)

-- Entries that a dictionary holds.
abbrev AreHeld : DayPois → DayPois → Type 0
AreHeld m = All (λ (e : ℕ × List String). lookup e.0 m ≡ some e.1)

AreHeld-cons :
    (day : ℕ) (ids : List String) (m xs : DayPois)
    → lookup day m ≡ none
    → AreHeld m xs
    → AreHeld ((day, ids) ∷ m) xs
unfolding lookup
AreHeld-cons day ids m [] h a = tt
AreHeld-cons day ids m ((d, is) ∷ xs) h (here, others) =
    (ground (arith, ==_iff day d), AreHeld-cons day ids m xs h others)

pub own_entries : (m : DayPois) → IsUnique m → AreHeld m m
unfolding lookup
own_entries [] u = tt
own_entries ((day, ids) ∷ m) (fresh, u) =
    (rw (beq_refl day), AreHeld-cons day ids m m fresh (own_entries m u))

times-held :
    (p : String) (m xs : DayPois) (days : List DraftDay)
    → AreHeld m xs
    → dates xs ≡ dates (dated days)
    → times p (map (rebuilt m) days) ≡ total p xs
times-held p m [] [] a h = refl
times-held p m [] (d ∷ days) a h = absurd (cc h)
times-held p m (x ∷ xs) [] a h = absurd (cc h)
times-held p m ((day, ids) ∷ xs) (d ∷ days) (here, others) h =
    let same : day ≡ d.date = ground (arith, h) in
    let rest_same : dates xs ≡ dates (dated days) = ground (arith, h) in
    let at : lookup d.date m ≡ some ids = rw (← same) here in
    rw at (omega (arith, times-held p m xs days others rest_same))

-- A draft that is rebuilt from a dictionary of the same dates has its places.
pub times-rebuilt :
    (p : String) (m : DayPois) (days : List DraftDay)
    → IsUnique m
    → dates m ≡ dates (dated days)
    → times p (map (rebuilt m) days) ≡ total p m
times-rebuilt p m days u h = times-held p m m days (own_entries m u) h

lookup-none-dates :
    (m m' : DayPois) (day : ℕ) → dates m ≡ dates m' → lookup day m ≡ none → lookup day m' ≡ none
unfolding lookup
lookup-none-dates [] [] day h k = refl
lookup-none-dates [] (x ∷ m') day h k = absurd (cc h)
lookup-none-dates (x ∷ m) [] day h k = absurd (cc h)
lookup-none-dates ((d, is) ∷ m) ((d', is') ∷ m') day h k =
    let same : dates m ≡ dates m' = ground (arith, h) in
    let head : d ≡ d' = ground (arith, h) in ground (arith, lookup-none-dates m m' day same)

pub IsUnique-dates : (m m' : DayPois) → dates m ≡ dates m' → IsUnique m → IsUnique m'
IsUnique-dates [] [] h u = tt
IsUnique-dates [] (x ∷ m') h u = absurd (cc h)
IsUnique-dates (x ∷ m) [] h u = absurd (cc h)
IsUnique-dates ((d, is) ∷ m) ((d', is') ∷ m') h (fresh, u) =
    let same : dates m ≡ dates m' = ground (arith, h) in
    let head : d ≡ d' = ground (arith, h) in
    (rw (← head) (lookup-none-dates m m' d same fresh), IsUnique-dates m m' same u)
