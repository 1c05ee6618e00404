-- ===== src/Common/Sort.antt =====
-- Python's stable `sorted`, by a strict order `lt` on the items (the order of their keys).
use mathlib.Core.List.{List, [], ◌∷◌, Perm}
use mathlib.Core.List.Perm
use mathlib.Core.Bool.{Bool, ◌||◌}
use mathlib.Core.Path.{◌≡◌, refl, ap, ◌∙◌}
use native.Mathlib.Omega.{arith}
use travel_plan_agent.Common.Dict.{Eq, ◌=?◌, contains}
use travel_plan_agent.Common.Tests.{if◌then◌else◌, Bool-cases}
use mathlib.Core.Logic.{inl, inr}

module _ {ℓ} {A : Type ℓ} (lt : A → A → Bool) where
  -- An item goes before the first one that is not less.
  unfoldable pub insert_by : A → List A → List A
  insert_by x [] = x ∷ []
  insert_by x (y ∷ ys) = let rest = insert_by x ys in if lt y x then y ∷ rest else x ∷ y ∷ ys

  unfoldable pub sort_by : List A → List A
  unfolding insert_by
  sort_by [] = []
  sort_by (x ∷ xs) = insert_by x (sort_by xs)

  insert_by-perm : (x : A) (ys : List A) → Perm (insert_by x ys) (x ∷ ys)
  unfolding insert_by
  insert_by-perm x [] = Perm.refl (x ∷ [])
  insert_by-perm x (y ∷ ys) = elim (Bool-cases (lt y x)) [
    | inl less ↦ rw less (Perm.trans (Perm.cons y (insert_by-perm x ys)) (Perm.swap x y ys))
    | inr other ↦ rw other (Perm.refl (x ∷ y ∷ ys))
  ]

  -- Sorting keeps the items.
  pub sort_by-perm : (xs : List A) → Perm (sort_by xs) xs
  unfolding sort_by
  sort_by-perm [] = Perm.refl []
  sort_by-perm (x ∷ xs) = Perm.trans (insert_by-perm x (sort_by xs)) (Perm.cons x (sort_by-perm xs))

  contains-insert_by :
      ⦃e : Eq A⦄ (a x : A) (ys : List A) → contains a (insert_by x ys) ≡ (a =? x || contains a ys)
  unfolding insert_by contains
  contains-insert_by a x [] = refl
  contains-insert_by a x (y ∷ ys) = ground (arith, contains-insert_by a x ys)

  pub contains-sort_by : ⦃e : Eq A⦄ (a : A) (xs : List A) → contains a (sort_by xs) ≡ contains a xs
  unfolding sort_by contains
  contains-sort_by a [] = refl
  contains-sort_by a (x ∷ xs) =
      contains-insert_by a x (sort_by xs) ∙ ap (λ b. a =? x || b) (contains-sort_by a xs)

  -- `min(xs, key=...)` of a list that is not empty: the first of the least.
  unfoldable pub least_by : A → List A → A
  least_by best [] = best
  least_by best (x ∷ xs) = least_by (if lt x best then x else best) xs
