-- ===== src/Tools/Cache/Flight.antt =====
-- Requests and loads in any order: no key is loaded twice at a time, and the entries stay bounded.
use travel_plan_agent.Common.{
  ℕ, ◌+◌, ◌<◌, ◌≡◌, true, false, none, some, ltb, Eq, lookup, lookup-insert, lookup-delete, arith,
  Bool-cases, Option-cases, inl, inr,
}
use travel_plan_agent.Tools.Cache.{
  Cache, get_live_entry, Loaded, loaded, failed, join_or_start, request, store, land, finish,
}
use travel_plan_agent.Tools.Cache.Bounds.{IsValid, request-IsValid, finish-IsValid}

module _ {K V : Type 0} ⦃e : Eq K⦄ where
  -- A task that runs is the flight of its key, and task numbers are used in order.
  pub record IsFlying (c : Cache K V) : Type 0 where
    pub flight : (i : ℕ) (k : K) → c.tasks i ≡ some k → lookup k c.inflight ≡ some i
    pub numbered : (i : ℕ) (k : K) → c.tasks i ≡ some k → i < c.next_task

  -- What the event loop may do next: serve a request, or end a task that runs.
  pub data Step (c : Cache K V) : Cache K V → Type 0 where
    requests : (key : K) (now : ℕ) → Step c (request key now c).1
    finishes :
        (key : K) (task now ttl : ℕ) (r : Loaded V)
        → c.tasks task ≡ some key
        → Step c (finish key task now ttl r c).1

  pub data Reach (c : Cache K V) : Cache K V → Type 0 where
    here : Reach c c
    next : {d d' : Cache K V} → Reach c d → Step d d' → Reach c d'

  join_or_start-IsFlying : (key : K) {c : Cache K V} → IsFlying c → IsFlying (join_or_start key c).1
  unfolding join_or_start
  join_or_start-IsFlying key {c} h = elim (Option-cases (lookup key c.inflight)) [
    | inr (t, flying) ↦ rw (flying, join_or_start) h
    | inl idle ↦
        rw (idle, join_or_start)
          (record {
            flight = λ i k q. ground (
              arith,
              lookup-insert key k c.next_task c.inflight,
              h.flight i k,
              h.numbered i k,
              e.beq_iff key k,
            );
            numbered = λ i k q. ground (arith, h.numbered i k);
          })
  ]

  request-IsFlying :
      (key : K) (now : ℕ) {c : Cache K V} → IsFlying c → IsFlying (request key now c).1
  unfolding request
  request-IsFlying key now {c} h = elim (Option-cases (lookup key c.entries)) [
    | inl miss ↦ rw (miss, get_live_entry) (join_or_start-IsFlying key h)
    | inr (entry, hit) ↦ elim (Bool-cases (ltb now entry.expires_at)) [
      | inl live ↦ rw (hit, get_live_entry, live) h
      | inr dead ↦
          rw (hit, get_live_entry, dead)
            (join_or_start-IsFlying key (record { flight = h.flight; numbered = h.numbered }))
    ]
  ]

  land-IsFlying :
      (key : K) (task : ℕ) {c : Cache K V}
      → IsFlying c
      → c.tasks task ≡ some key
      → IsFlying (land key task c)
  unfolding land
  land-IsFlying key task {c} h runs = record {
    flight = λ i k q. ground (
      arith,
      lookup-delete key k c.inflight,
      h.flight i k,
      h.flight task key runs,
      e.beq_iff key k,
    );
    numbered = λ i k q. ground (arith, h.numbered i k);
  }

  finish-IsFlying :
      (key : K) (task now ttl : ℕ) (r : Loaded V) {c : Cache K V}
      → IsFlying c
      → c.tasks task ≡ some key
      → IsFlying (finish key task now ttl r c).1
  unfolding finish
  finish-IsFlying key task now ttl failed h runs = land-IsFlying key task h runs
  finish-IsFlying key task now ttl (loaded value false) h runs = land-IsFlying key task h runs
  finish-IsFlying key task now ttl (loaded value true) {c} h runs =
      land-IsFlying key task {c = store key value now (now + ttl) c}
        (unfold store in record { flight = h.flight; numbered = h.numbered }) runs

  Step-IsFlying : {c d : Cache K V} → Step c d → IsFlying c → IsFlying d
  Step-IsFlying (requests key now) h = request-IsFlying key now h
  Step-IsFlying (finishes key task now ttl r runs) h = finish-IsFlying key task now ttl r h runs

  Reach-IsFlying : {c d : Cache K V} → IsFlying c → Reach c d → IsFlying d
  Reach-IsFlying h here = h
  Reach-IsFlying h (next r s) = Step-IsFlying s (Reach-IsFlying h r)

  -- From a cache with no task, after any requests and ends of loads in any order, two tasks that
  -- load the same key are the same task.
  pub Reach-single_flight :
      {c d : Cache K V}
      → ((i : ℕ) → c.tasks i ≡ none)
      → Reach c d
      → (i j : ℕ) (k : K) → d.tasks i ≡ some k
      → d.tasks j ≡ some k
      → i ≡ j
  Reach-single_flight idle r i j k p q =
      let h =
        Reach-IsFlying (record { flight = λ t k' s. cc (idle t); numbered = λ t k' s. cc (idle t) })
          r in
      cc (h.flight i k p, h.flight j k q)

  Step-IsValid : {c d : Cache K V} → Step c d → IsValid c → IsValid d
  Step-IsValid (requests key now) h = request-IsValid key now h
  Step-IsValid (finishes key task now ttl r runs) h = finish-IsValid key task now ttl r h

  -- After any requests and ends of loads in any order, however the loaders end and whatever the clock
  -- reads, the cache has at most the maximal number of entries and no key twice, if that was so before.
  pub Reach-IsValid : {c d : Cache K V} → IsValid c → Reach c d → IsValid d
  Reach-IsValid h here = h
  Reach-IsValid h (next r s) = Step-IsValid s (Reach-IsValid h r)
