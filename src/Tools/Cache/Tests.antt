-- ===== src/Tools/Cache/Tests.antt =====
-- Small caches of tools/cache.py, with texts as keys and numbers as values.
use travel_plan_agent.Common.{
  ℕ, ◌≤◌, String, ◌≡◌, refl, true, none, some, List, [], ◌∷◌, arith, length, lookup, insert, delete,
  string_eq,
}
use travel_plan_agent.Common.Dict.Unique.{IsUnique}
use travel_plan_agent.Tools.Cache.{
  CacheLookup, Entry, Cache, evict_oldest, evict_if_needed, found, request, store,
}
use travel_plan_agent.Tools.Cache.Eviction.{length-evict_if_needed}
use travel_plan_agent.Tools.Cache.{loaded, finish}
use travel_plan_agent.Tools.Cache.Bounds.{IsValid}
use travel_plan_agent.Tools.Cache.Flight.{here, next, requests, Reach-single_flight, Reach-IsValid}

abbrev entry : ℕ → ℕ → ℕ → Entry ℕ
entry v expires inserted = record { value = v; expires_at = expires; inserted_at = inserted }

abbrev items : List (String × Entry ℕ)
items = ("rome", entry 1 50 10) ∷ ("oslo", entry 2 40 20) ∷ []

abbrev cache : Cache String ℕ
cache = record { max_entries = 2; entries = items; inflight = []; tasks = λ i. none; next_task = 0 }

items-IsUnique : IsUnique items
unfolding lookup
items-IsUnique = (refl, (refl, tt))

cache-IsValid : IsValid cache
cache-IsValid = record { bounded = omega arith; distinct = items-IsUnique }

length-evict_if_needed_example : length (evict_if_needed 1 items) ≤ 1
length-evict_if_needed_example = length-evict_if_needed 1 items

abbrev hit_oslo : CacheLookup ℕ
hit_oslo = record { value = 2; hit = true; expires_at_monotonic = 40 }

served : (request "oslo" 30 cache).0 ≡ found hit_oslo
unfolding request lookup
served = refl

-- Oslo is evicted, since the cache is full.
after_lima :
    (lookup "lima" (finish "lima" 0 30 60 (loaded 3 true) cache).1.entries ≡ some (entry 3 90 30))
    × (lookup "oslo" (finish "lima" 0 30 60 (loaded 3 true) cache).1.entries ≡ none)
unfolding finish store lookup insert delete evict_oldest
after_lima = (refl, refl)

-- Two callers ask for a key that is missing, then one of them for another.
abbrev empty : Cache String ℕ
empty = record { max_entries = 2; entries = []; inflight = []; tasks = λ i. none; next_task = 0 }

abbrev asked : Cache String ℕ
asked = (request "kyoto" 9 (request "lima" 8 (request "lima" 7 empty).1).1).1

asked_lem : asked.tasks 0 ≡ some "lima"
unfolding request lookup insert
asked_lem = refl

Reach-single_flight_example : ◌≡◌ {A = ℕ} 0 0
Reach-single_flight_example =
    Reach-single_flight {c = empty} {d = asked} (λ i. refl)
      (next (next (next here (requests "lima" 7)) (requests "lima" 8)) (requests "kyoto" 9)) 0 0
      "lima" asked_lem asked_lem

Reach-IsValid_example : IsValid (request "oslo" 46 (request "lima" 45 cache).1).1
Reach-IsValid_example =
    Reach-IsValid cache-IsValid (next (next here (requests "lima" 45)) (requests "oslo" 46))
