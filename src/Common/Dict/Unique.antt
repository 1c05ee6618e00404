-- ===== src/Common/Dict/Unique.antt =====
-- Dictionaries in which no key stands twice, and what a lookup says of the items.
use mathlib.Core.Path.{◌≡◌, refl, sym, subst₂}
use mathlib.Core.Logic.{◌≢◌, ◌⊎◌, inl, inr}
use mathlib.Core.Bool.{Bool, true, false}
use mathlib.Core.Option.{none, some}
use mathlib.Core.List.{List, [], ◌∷◌}
use native.Mathlib.Omega.{arith}
use travel_plan_agent.Common.Tests.{Bool-cases}
use travel_plan_agent.Common.Lists.{filter, All}
use travel_plan_agent.Common.Dict.{
  Eq, ◌=?◌, lookup, insert, delete, lookup-insert, lookup-delete, beq_refl,
}

module _ {ℓ κ} {K : Type ℓ} {V : Type κ} ⦃e : Eq K⦄ where
  abbrev pub IsUnique : List (K × V) → Type κ
  IsUnique [] = Unit
  IsUnique ((k, v) ∷ m) = (lookup k m ≡ none) × IsUnique m

  pub insert-IsUnique : (k : K) (v : V) (m : List (K × V)) → IsUnique m → IsUnique (insert k v m)
  unfolding lookup insert
  insert-IsUnique k v [] u = (refl, tt)
  insert-IsUnique k v ((j, w) ∷ m) (fresh, u) = elim (Bool-cases (j =? k)) [
    | inl same ↦ rw same (fresh, u)
    | inr other ↦ rw other (
      ground (arith, lookup-insert k j v m, e.beq_iff k j, e.beq_iff j k),
      insert-IsUnique k v m u,
    )
  ]

  pub delete-IsUnique : (k : K) (m : List (K × V)) → IsUnique m → IsUnique (delete k m)
  unfolding lookup delete
  delete-IsUnique k [] u = tt
  delete-IsUnique k ((j, w) ∷ m) (fresh, u) = elim (Bool-cases (j =? k)) [
    | inl same ↦ rw same (delete-IsUnique k m u)
    | inr other ↦ rw other (ground (arith, lookup-delete k j m), delete-IsUnique k m u)
  ]

  -- A filter on the items of a dictionary with distinct keys.
  pub lookup-filter :
      (k : K) (p : K × V → Bool) (m : List (K × V)) (v : V)
      → IsUnique m
      → lookup k (filter p m) ≡ some v
      → (lookup k m ≡ some v) × (p (k, v) ≡ true)
  unfolding lookup
  lookup-filter k p [] v u h = cc
  lookup-filter k p ((j, w) ∷ m) v (fresh, u) h =
      ground (arith, e.beq_iff j k, lookup-filter k p m v u)

  pub lookup-filter-none :
      (k : K) (p : K × V → Bool) (m : List (K × V))
      → lookup k m ≡ none
      → lookup k (filter p m) ≡ none
  unfolding lookup
  lookup-filter-none k p [] h = refl
  lookup-filter-none k p ((j, w) ∷ m) h = ground (arith, lookup-filter-none k p m)

  keep-IsUnique :
      (b : Bool) (k : K) (v : V) (m : List (K × V))
      → lookup k m ≡ none
      → IsUnique m
      → IsUnique (elim b [ true ↦ (k, v) ∷ m | false ↦ m ])
  keep-IsUnique true k v m fresh u = (fresh, u)
  keep-IsUnique false k v m fresh u = u

  pub filter-IsUnique : (p : K × V → Bool) (m : List (K × V)) → IsUnique m → IsUnique (filter p m)
  filter-IsUnique p [] u = tt
  filter-IsUnique p ((j, w) ∷ m) (fresh, u) =
      keep-IsUnique (p (j, w)) j w (filter p m) (lookup-filter-none j p m fresh)
        (filter-IsUnique p m u)

  -- A property of all items, and a new one.
  pub All-insert {μ} :
      (P : K × V → Type μ) (k : K) (v : V) (m : List (K × V))
      → All P m
      → P (k, v)
      → All P (insert k v m)
  unfolding insert
  All-insert P k v [] a p = (p, tt)
  All-insert P k v ((j, w) ∷ m) (here, others) p = elim (Bool-cases (j =? k)) [
    | inl same ↦
        rw same (subst₂ (λ i x. P (i, x)) (sym ((e.beq_iff j k).0 same)) (λ i. v) p, others)
    | inr other ↦ rw other (here, All-insert P k v m others p)
  ]

  pub All-delete {μ} :
      (P : K × V → Type μ) (k : K) (m : List (K × V)) → All P m → All P (delete k m)
  unfolding delete
  All-delete P k [] a = tt
  All-delete P k ((j, w) ∷ m) (here, others) = elim (Bool-cases (j =? k)) [
    | inl same ↦ rw same (All-delete P k m others)
    | inr other ↦ rw other (here, All-delete P k m others)
  ]

  -- A property of all items holds of what a lookup finds.
  pub All-lookup {μ} :
      (P : K × V → Type μ) (k : K) (v : V) (m : List (K × V))
      → All P m
      → lookup k m ≡ some v
      → P (k, v)
  unfolding lookup
  All-lookup P k v [] a h = absurd (cc)
  All-lookup P k v ((j, w) ∷ m) (here, later) h = elim (Bool-cases (j =? k)) [
    | inl same ↦
        let this : w ≡ v = ground (arith, same, h) in
        subst₂ (λ x y. P (x, y)) ((e.beq_iff j k).0 same) this here
    | inr other ↦ All-lookup P k v m later (rw other at h)
  ]

  -- Every item's key is found.
  pub keys-present :
      (xs m : List (K × V))
      → ((k : K) (v : V) → lookup k xs ≡ some v → lookup k m ≢ none)
      → All (λ item. lookup item.0 m ≢ none) xs
  unfolding lookup
  keys-present [] m h = tt
  keys-present ((j, w) ∷ xs) m h =
      (h j w (rw (beq_refl j)), keys-present xs m (λ k v q. behind k v q (Bool-cases (j =? k))))
    where
      behind :
          (k : K) (v : V)
          → lookup k xs ≡ some v
          → ((j =? k) ≡ true) ⊎ ((j =? k) ≡ false)
          → lookup k m ≢ none
      behind k v q (inl same) = h k w (rw same)
      behind k v q (inr other) = h k v (rw other q)

  -- With distinct keys, every item is what its key finds.
  pub items-found :
      (xs m : List (K × V))
      → IsUnique xs
      → ((k : K) (v : V) → lookup k xs ≡ some v → lookup k m ≡ some v)
      → All (λ item. lookup item.0 m ≡ some item.1) xs
  unfolding lookup
  items-found [] m u h = tt
  items-found ((j, w) ∷ xs) m (fresh, u) h = (
    h j w (rw (beq_refl j)),
    items-found xs m u (λ k v q. h k v (ground (arith, q, fresh, e.beq_iff j k))),
  )
