-- ===== src/Tools/Cache/Eviction.antt =====
-- Which entries the eviction takes, and how many it leaves.
use travel_plan_agent.Common.{
  ℕ, zero, suc, ◌≤◌, ◌≡◌, ◌≢◌, refl, false, none, some, List, [], ◌∷◌, ltb, length, All, Eq, lookup,
  lookup-delete, length-delete_present, arith, Bool-cases, Option-cases, inl, inr,
}
use travel_plan_agent.Common.Dict.Unique.{IsUnique, delete-IsUnique, keys-present}
use travel_plan_agent.Tools.Cache.{Entry, before, oldest, evict_oldest, evict, evict_if_needed}

module _ {K V : Type 0} where
  -- Any property of all candidates holds of the oldest.
  oldest-All :
      (P : K × Entry V → Type 0) (best : K × Entry V) (rest : List (K × Entry V))
      → P best
      → All P rest
      → P (oldest best rest)
  unfolding oldest
  oldest-All P best [] b r = b
  oldest-All P best (item ∷ rest) b r = elim (Bool-cases (before item.1 best.1)) [
    | inl yes' ↦ rw (yes', oldest) (oldest-All P item rest r.0 r.1)
    | inr no' ↦ rw (no', oldest) (oldest-All P best rest b r.1)
  ]

  abbrev pub IsLeast : K × Entry V → List (K × Entry V) → Type 0
  IsLeast o = All (λ item. before item.1 o.1 ≡ false)

module _ {K V : Type 0} ⦃e : Eq K⦄ where
  oldest_present :
      (item : K × Entry V) (rest : List (K × Entry V))
      → lookup (oldest item rest).0 (item ∷ rest) ≢ none
  oldest_present item rest =
      let (here, later) = keys-present (item ∷ rest) (item ∷ rest) (λ k v q. λ r. cc) in
      oldest-All (λ i. lookup i.0 (item ∷ rest) ≢ none) item rest here later

  length-evict_oldest :
      (item : K × Entry V) (rest : List (K × Entry V))
      → length (evict_oldest (item ∷ rest)) ≤ length rest
  unfolding evict_oldest
  length-evict_oldest item rest = elim (Option-cases (lookup (oldest item rest).0 (item ∷ rest))) [
    | inl lost ↦ absurd (oldest_present item rest lost)
    | inr (v, here) ↦ omega (arith, length-delete_present (oldest item rest).0 v (item ∷ rest) here)
  ]

  evict_oldest-nil : evict_oldest {K = K} {V = V} [] ≡ []
  unfolding evict_oldest
  evict_oldest-nil = refl

  evict_bound :
      (fuel limit : ℕ) (m : List (K × Entry V))
      → length m ≤ fuel
      → length (evict fuel limit m) ≤ limit
  unfolding evict
  evict_bound zero limit m h = omega arith
  evict_bound (suc fuel) limit [] h = ground (arith, evict_oldest-nil, evict_bound fuel limit [])
  evict_bound (suc fuel) limit (item ∷ rest) h =
      elim (Bool-cases (ltb limit (length (item ∷ rest)))) [
        | inl over ↦ rw over (
            evict_bound fuel limit (evict_oldest (item ∷ rest))
              (omega (arith, length-evict_oldest item rest)))
        | inr under ↦ rw under (ground arith)
      ]

  -- The loop ends, and leaves at most the maximal number of entries.
  pub length-evict_if_needed :
      (limit : ℕ) (m : List (K × Entry V)) → length (evict_if_needed limit m) ≤ limit
  unfolding evict_if_needed
  length-evict_if_needed limit m = evict_bound (length m) limit m (omega arith)

  -- Eviction only takes entries away.
  lookup-evict_oldest :
      (k : K) (v : Entry V) (m : List (K × Entry V))
      → lookup k (evict_oldest m) ≡ some v
      → lookup k m ≡ some v
  unfolding evict_oldest
  lookup-evict_oldest k v [] h = h
  lookup-evict_oldest k v (item ∷ rest) h =
      ground (arith, lookup-delete (oldest item rest).0 k (item ∷ rest))

  lookup-evict :
      (fuel limit : ℕ) (k : K) (v : Entry V) (m : List (K × Entry V))
      → lookup k (evict fuel limit m) ≡ some v
      → lookup k m ≡ some v
  unfolding evict
  lookup-evict zero limit k v m h = h
  lookup-evict (suc fuel) limit k v m h = elim (Bool-cases (ltb limit (length m))) [
    | inl over ↦
        lookup-evict_oldest k v m (lookup-evict fuel limit k v (evict_oldest m) (rw over at h))
    | inr under ↦ rw under at h
  ]

  evict_oldest-IsUnique : (m : List (K × Entry V)) → IsUnique m → IsUnique (evict_oldest m)
  unfolding evict_oldest
  evict_oldest-IsUnique [] u = u
  evict_oldest-IsUnique (item ∷ rest) u = delete-IsUnique (oldest item rest).0 (item ∷ rest) u

  evict-IsUnique :
      (fuel limit : ℕ) (m : List (K × Entry V)) → IsUnique m → IsUnique (evict fuel limit m)
  unfolding evict
  evict-IsUnique zero limit m u = u
  evict-IsUnique (suc fuel) limit m u = elim (Bool-cases (ltb limit (length m))) [
    | inl over ↦ rw over (evict-IsUnique fuel limit (evict_oldest m) (evict_oldest-IsUnique m u))
    | inr under ↦ rw under u
  ]

  pub evict_if_needed-IsUnique :
      (limit : ℕ) (m : List (K × Entry V)) → IsUnique m → IsUnique (evict_if_needed limit m)
  unfolding evict_if_needed
  evict_if_needed-IsUnique limit m = evict-IsUnique (length m) limit m

  pub lookup-evict_if_needed :
      (limit : ℕ) (k : K) (v : Entry V) (m : List (K × Entry V))
      → lookup k (evict_if_needed limit m) ≡ some v
      → lookup k m ≡ some v
  unfolding evict_if_needed
  lookup-evict_if_needed limit k v m = lookup-evict (length m) limit k v m
