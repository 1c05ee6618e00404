-- ===== src/Tools/Cache.antt =====
-- tools/cache.py: the TTL cache that loads each key once. The event loop runs a coroutine to its next
-- `await` without interruption, so `get_or_load` is two steps: `request`, up to the wait for the
-- loading task, and `finish`, what a task does when its loader has returned or raised. Times are
-- readings of the monotonic clock.
pub mod Bounds
pub mod Eviction
pub mod Flight
mod Tests
use travel_plan_agent.Common.{
  ℕ, zero, suc, ◌+◌, Bool, true, false, Option, none, some, List, [], ◌∷◌, ◌&&◌, ◌||◌, ltb, leb,
  ◌==◌, if◌then◌else◌, length, filter, not, Eq, ◌=?◌, lookup, insert, delete,
}

pub record CacheLookup {ℓ} (V : Type ℓ) : Type ℓ where
  pub value : V
  pub hit : Bool
  pub expires_at_monotonic : ℕ

-- `_CacheEntry`
pub record Entry {ℓ} (V : Type ℓ) : Type ℓ where
  pub value : V
  pub expires_at : ℕ
  pub inserted_at : ℕ

-- `tasks i` is the key that task `i` loads, while it runs; `next_task` numbers new tasks.
pub record Cache (K V : Type 0) : Type 0 where
  pub max_entries : ℕ
  pub entries : List (K × Entry V)
  pub inflight : List (K × ℕ)
  pub tasks : ℕ → Option K
  pub next_task : ℕ

-- The order of the eviction's key, (expires_at, inserted_at).
unfoldable pub before : {V : Type 0} → Entry V → Entry V → Bool
before a b =
    ltb a.expires_at b.expires_at
    || (a.expires_at == b.expires_at && ltb a.inserted_at b.inserted_at)

module _ {K V : Type 0} where
  -- `min(items, key=...)`: the first item with the least key.
  unfoldable pub oldest : K × Entry V → List (K × Entry V) → K × Entry V
  unfolding before
  oldest best [] = best
  oldest best (item ∷ rest) = oldest (if before item.1 best.1 then item else best) rest

  -- `_remove_expired`, on the entries.
  unfoldable pub remove_expired : ℕ → List (K × Entry V) → List (K × Entry V)
  remove_expired now = filter (λ item. not (leb item.1.expires_at now))

module _ {K V : Type 0} ⦃e : Eq K⦄ where
  unfoldable pub evict_oldest : List (K × Entry V) → List (K × Entry V)
  unfolding oldest
  evict_oldest [] = []
  evict_oldest (item ∷ rest) = delete (oldest item rest).0 (item ∷ rest)

  -- The `while` of `_evict_if_needed`: each round takes an entry, so their number is fuel enough.
  unfoldable pub evict : ℕ → ℕ → List (K × Entry V) → List (K × Entry V)
  evict zero limit m = m
  evict (suc fuel) limit m =
      let rest = evict fuel limit (evict_oldest m) in if ltb limit (length m) then rest else m

  unfoldable pub evict_if_needed : ℕ → List (K × Entry V) → List (K × Entry V)
  unfolding evict
  evict_if_needed limit m = evict (length m) limit m

  -- `_get_live_entry`: an entry that has expired is dropped as it is read.
  unfoldable pub get_live_entry : K → ℕ → Cache K V → Option (Entry V) × Cache K V
  get_live_entry key now c = elim (lookup key c.entries) [
    | none ↦ (none, c)
    | some entry ↦
        if ltb now entry.expires_at
        then (some entry, c)
        else (none, record c { entries = delete key c.entries })
  ]

-- How a request goes on: with a live entry, by waiting for a task of another caller, or by waiting
-- for a task that it has started.
pub data Served (V : Type 0) : Type 0 where
  found : CacheLookup V → Served V
  joined : ℕ → Served V
  started : ℕ → Served V

-- How a loader ends: with a value, and whether `should_cache` accepts it, or with an exception.
pub data Loaded (V : Type 0) : Type 0 where
  loaded : V → Bool → Loaded V
  failed : Loaded V

module _ {K V : Type 0} ⦃e : Eq K⦄ where
  -- The task that loads `key`, or a new one.
  unfoldable pub join_or_start : K → Cache K V → Served V × Cache K V
  join_or_start key c = elim (lookup key c.inflight) [
    | some task ↦ (joined task, c)
    | none ↦ (
      started c.next_task,
      record c {
        inflight = insert key c.next_task c.inflight;
        tasks = λ i. if i == c.next_task then some key else c.tasks i;
        next_task = suc c.next_task;
      },
    )
  ]

  abbrev pub after_lookup : K → Option (Entry V) × Cache K V → Served V × Cache K V
  after_lookup key (some entry, c) = (
    found (record { value = entry.value; hit = true; expires_at_monotonic = entry.expires_at }),
    c,
  )
  after_lookup key (none, c) = join_or_start key c

  -- `get_or_load`, up to the wait.
  unfoldable pub request : K → ℕ → Cache K V → Served V × Cache K V
  unfolding get_live_entry join_or_start
  request key now c = after_lookup key (get_live_entry key now c)

  -- The middle of `_load_and_cache`: a value that may be cached is stored.
  unfoldable pub store : K → V → ℕ → ℕ → Cache K V → Cache K V
  unfolding remove_expired evict_if_needed
  store key value now expires c = record c {
    entries = evict_if_needed c.max_entries (
        insert key (record { value = value; expires_at = expires; inserted_at = now })
          (remove_expired now c.entries));
  }

  -- Its `finally`: the task takes itself off the flights, if it is still the one of its key.
  unfoldable pub land : K → ℕ → Cache K V → Cache K V
  land key task c = record c {
    inflight = elim (lookup key c.inflight) [
      | none ↦ c.inflight
      | some t ↦ if t == task then delete key c.inflight else c.inflight
    ];
    tasks = λ i. if i == task then none else c.tasks i;
  }

  -- A task whose loader has ended at `now`: the lookup and the flag that it hands to its waiters.
  unfoldable pub finish :
      K → ℕ → ℕ → ℕ → Loaded V → Cache K V → Option (CacheLookup V × Bool) × Cache K V
  unfolding store land
  finish key task now ttl failed c = (none, land key task c)
  finish key task now ttl (loaded value cached) c =
      let result : CacheLookup V = record {
        value = value;
        hit = false;
        expires_at_monotonic = now + ttl;
      } in
      (
        some (result, cached),
        land key task (if cached then store key value now (now + ttl) c else c),
      )

-- The end of `get_or_load`, for the caller that started the task and for those that joined it.
unfoldable pub deliver : {V : Type 0} → Bool → CacheLookup V × Bool → CacheLookup V
deliver is_loader (result, cached) =
    if is_loader || not cached then result else record result { hit = true }
