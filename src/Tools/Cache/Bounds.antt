-- ===== src/Tools/Cache/Bounds.antt =====
-- The invariant of the entries, what a hit returns and what a load leaves.
use travel_plan_agent.Common.{
  List, if◌then◌else◌, ℕ, ◌+◌, ◌≤◌, ◌<◌, ◌≡◌, ◌⊎◌, true, false, Option, none, some, ltb, length, Eq,
  ◌=?◌, lookup, length-delete-le, arith, Bool-cases, Option-cases, inl, inr,
}
use travel_plan_agent.Common.Dict.Unique.{
  IsUnique, insert-IsUnique, delete-IsUnique, filter-IsUnique,
}
use travel_plan_agent.Tools.Cache.{
  Entry, Cache, remove_expired, get_live_entry, Loaded, loaded, failed, join_or_start, after_lookup,
  request, store, land, finish,
}
use travel_plan_agent.Tools.Cache.Eviction.{length-evict_if_needed, evict_if_needed-IsUnique}

module _ {K V : Type 0} ⦃e : Eq K⦄ where
  -- At most the maximal number of entries, and no key twice.
  pub record IsValid (c : Cache K V) : Type 0 where
    pub bounded : length c.entries ≤ c.max_entries
    pub distinct : IsUnique c.entries

  get_live_entry-IsValid :
      (key : K) (now : ℕ) {c : Cache K V} → IsValid c → IsValid (get_live_entry key now c).1
  unfolding get_live_entry
  get_live_entry-IsValid key now {c} h = elim (Option-cases (lookup key c.entries)) [
    | inl miss ↦ rw (miss, get_live_entry) h
    | inr (entry, hit) ↦ elim (Bool-cases (ltb now entry.expires_at)) [
      | inl live ↦ rw (hit, get_live_entry, live) h
      | inr dead ↦
          rw (hit, get_live_entry, dead)
            (record {
              bounded = omega (arith, length-delete-le key c.entries, h.bounded);
              distinct = delete-IsUnique key c.entries h.distinct;
            })
    ]
  ]

  join_or_start-entries :
      (key : K) (c : Cache K V)
      → ((join_or_start key c).1.entries ≡ c.entries)
        × ((join_or_start key c).1.max_entries ≡ c.max_entries)
  unfolding join_or_start
  join_or_start-entries key c = ground arith

  after_IsValid :
      (c c' : Cache K V)
      → (c'.entries ≡ c.entries) × (c'.max_entries ≡ c.max_entries)
      → IsValid c
      → IsValid c'
  after_IsValid c c' same h = record {
    bounded = rw (same.0, same.1) h.bounded;
    distinct = rw (same.0) h.distinct;
  }

  -- A request keeps the invariant of the entries.
  pub request-IsValid :
      (key : K) (now : ℕ) {c : Cache K V} → IsValid c → IsValid (request key now c).1
  unfolding request
  request-IsValid key now {c} h =
      let (o, c') = get_live_entry key now c in served o c' (get_live_entry-IsValid key now h)
    where
      served :
          (o : Option (Entry V)) (c' : Cache K V)
          → IsValid c'
          → IsValid (after_lookup key (o, c')).1
      served (some entry) c' h' = h'
      served none c' h' =
          after_IsValid c' (join_or_start key c').1 (join_or_start-entries key c') h'

  store-IsValid :
      (key : K) (value : V) (now expires : ℕ) {c : Cache K V}
      → IsValid c
      → IsValid (store key value now expires c)
  unfolding store remove_expired
  store-IsValid key value now expires {c} h = record {
    bounded = length-evict_if_needed c.max_entries _;
    distinct =
        evict_if_needed-IsUnique c.max_entries _
          (insert-IsUnique key _ _ (filter-IsUnique _ c.entries h.distinct));
  }

  land-IsValid : (key : K) (task : ℕ) {c : Cache K V} → IsValid c → IsValid (land key task c)
  unfolding land
  land-IsValid key task {c} h = record { bounded = h.bounded; distinct = h.distinct }

  -- The end of a load keeps it, however the loader ended.
  pub finish-IsValid :
      (key : K) (task now ttl : ℕ) (r : Loaded V) {c : Cache K V}
      → IsValid c
      → IsValid (finish key task now ttl r c).1
  unfolding finish
  finish-IsValid key task now ttl failed h = land-IsValid key task h
  finish-IsValid key task now ttl (loaded value true) h =
      land-IsValid key task (store-IsValid key value now (now + ttl) h)
  finish-IsValid key task now ttl (loaded value false) h = land-IsValid key task h

  -- What the end of a load may leave of the entries: all of them, if the loader failed or its value is
  -- not to be cached; else only the new entry and old ones that have not expired, and exactly these if
  -- there is room for one more.
  abbrev pub Leaves : K → ℕ → ℕ → Loaded V → Cache K V → List (K × Entry V) → Type 0
  Leaves key now ttl failed c entries = entries ≡ c.entries
  Leaves key now ttl (loaded value false) c entries = entries ≡ c.entries
  Leaves key now ttl (loaded value true) c entries =
      ((k : K) (entry : Entry V)
        → lookup k entries ≡ some entry
        → ((k ≡ key)
            × (entry ≡ record { value = value; expires_at = now + ttl; inserted_at = now }))
          ⊎ ((lookup k c.entries ≡ some entry) × (now < entry.expires_at)))
      × (length (remove_expired now c.entries) < c.max_entries
          → (k : K)
          → lookup k entries ≡ (
              if key =? k
              then some (record { value = value; expires_at = now + ttl; inserted_at = now })
              else lookup k (remove_expired now c.entries)))
