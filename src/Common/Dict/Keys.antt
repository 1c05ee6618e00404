-- ===== src/Common/Dict/Keys.antt =====
-- The keys of a dictionary: filters on keys, and dictionaries whose keys are in a list.
use Prim.Native.Nat.{◌+◌, ◌≤◌}
use mathlib.Core.Path.{◌≡◌, refl, ap}
use mathlib.Core.Logic.{inl, inr}
use mathlib.Core.Bool.{Bool, true, false, ◌||◌, ◌&&◌}
use mathlib.Core.Option.{none}
use mathlib.Core.List.{List, [], ◌∷◌}
use native.Mathlib.Omega.{arith}
use travel_plan_agent.Common.Tests.{Bool-cases}
use travel_plan_agent.Common.Lists.{filter, All, length}
use travel_plan_agent.Common.Dict.{Eq, ◌=?◌, contains, lookup, insert, delete, beq_refl}
use travel_plan_agent.Common.Dict.Unique.{IsUnique, delete-IsUnique}

module _ {ℓ κ} {K : Type ℓ} {V : Type κ} ⦃e : Eq K⦄ where
  -- `k in d`
  unfoldable pub has_key : K → List (K × V) → Bool
  has_key k [] = false
  has_key k ((j, v) ∷ m) = j =? k || has_key k m

  pub has_key-insert :
      (k j : K) (v : V) (m : List (K × V)) → has_key j (insert k v m) ≡ (k =? j || has_key j m)
  unfolding has_key insert
  has_key-insert k j v [] = ground arith
  has_key-insert k j v ((i, w) ∷ m) =
      ground (arith, has_key-insert k j v m, e.beq_iff i k, e.beq_iff i j, e.beq_iff k j)

  -- `{k: v for k, v in d.items() if p(k)}`
  abbrev pub filter_keys : (K → Bool) → List (K × V) → List (K × V)
  filter_keys p = filter (λ (x : K × V). p x.0)

  pub has_key-filter_keys :
      (p : K → Bool) (k : K) (m : List (K × V)) → has_key k (filter_keys p m) ≡ (p k && has_key k m)
  unfolding has_key
  has_key-filter_keys p k [] = ground arith
  has_key-filter_keys p k ((j, v) ∷ m) = elim (Bool-cases (j =? k)) [
    | inl same ↦
        let at : j ≡ k = (e.beq_iff j k).0 same in
        rw at (ground (arith, has_key-filter_keys p k m, beq_refl k))
    | inr other ↦ ground (arith, has_key-filter_keys p k m, other)
  ]

  pub filter_keys-All :
      (p : K → Bool) (m : List (K × V)) → All (λ (x : K × V). p x.0 ≡ true) (filter_keys p m)
  filter_keys-All p [] = tt
  filter_keys-All p ((j, v) ∷ m) = elim (Bool-cases (p j)) [
    | inl kept ↦ rw kept (kept, filter_keys-All p m)
    | inr gone ↦ rw gone (filter_keys-All p m)
  ]

  -- A new key that is deleted again.
  pub delete-insert_new :
      (k : K) (v : V) (m : List (K × V)) → lookup k m ≡ none → delete k (insert k v m) ≡ m
  unfolding lookup insert delete
  delete-insert_new k v [] h = rw (beq_refl k) refl
  delete-insert_new k v ((j, w) ∷ m) h = elim (Bool-cases (j =? k)) [
    | inl same ↦ ground (arith, h, same)
    | inr other ↦
        rw (other, other)
          (ap (λ (n : List (K × V)). (j, w) ∷ n)
            (delete-insert_new k v m (ground (arith, h, other))))
  ]

  length-delete_missing :
      (k : K) (m : List (K × V)) → lookup k m ≡ none → length (delete k m) ≡ length m
  unfolding lookup delete
  length-delete_missing k [] h = refl
  length-delete_missing k ((j, v) ∷ m) h = ground (arith, length-delete_missing k m)

  length-delete_unique :
      (k : K) (m : List (K × V)) → IsUnique m → length m ≤ length (delete k m) + 1
  unfolding lookup delete
  length-delete_unique k [] u = omega arith
  length-delete_unique k ((j, v) ∷ m) (fresh, u) = elim (Bool-cases (j =? k)) [
    | inl same ↦
        let at : j ≡ k = (e.beq_iff j k).0 same in
        let none_left : lookup k m ≡ none = rw (← at) fresh in
        rw same (omega (arith, length-delete_missing k m none_left))
    | inr other ↦ rw other (omega (arith, length-delete_unique k m u))
  ]

  contains-delete :
      (i : K) (ids : List K) (m : List (K × V))
      → All (λ (x : K × V). contains x.0 (i ∷ ids) ≡ true) m
      → All (λ (x : K × V). contains x.0 ids ≡ true) (delete i m)
  unfolding contains delete
  contains-delete i ids [] h = tt
  contains-delete i ids ((j, v) ∷ m) (here, later) = elim (Bool-cases (j =? i)) [
    | inl same ↦ rw same (contains-delete i ids m later)
    | inr other ↦ rw other (ground (arith, here, other), contains-delete i ids m later)
  ]

  -- A dictionary with distinct keys, all of which are in a list, has at most as many items.
  pub length-contained :
      (ids : List K) (m : List (K × V))
      → IsUnique m
      → All (λ (x : K × V). contains x.0 ids ≡ true) m
      → length m ≤ length ids
  unfolding contains
  length-contained [] [] u h = omega arith
  length-contained [] (x ∷ m) u h = absurd (cc (h.0))
  length-contained (i ∷ ids) m u h = omega (
    arith,
    length-delete_unique i m u,
    length-contained ids (delete i m) (delete-IsUnique i m u) (contains-delete i ids m h),
  )
