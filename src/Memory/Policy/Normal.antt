-- ===== src/Memory/Policy/Normal.antt =====
-- The normal form of a preference value is one: normalizing it again changes nothing.
use mathlib.Core.List.{append-nil, append_assoc}
use travel_plan_agent.Common.{
  ◌≡◌, refl, sym, ap, ◌∙◌, String, true, false, List, [], ◌∷◌, ◌++◌, Result, ok, raise, contains,
  all, All, map, string_eq, Eq, ◌=?◌, arith, subst, Bool-cases, inl, inr,
}
use travel_plan_agent.Common.Text.{Unicode, is_empty}
use travel_plan_agent.Memory.Models.{
  MemoryCategory, PreferenceScalar, text, number, flag, PreferenceValue, scalar, items, object,
  MemoryError,
}
use travel_plan_agent.Memory.Policy.{
  Encoding, is_fresh, normalize_items, non_empty, normalize_list, normalize_choice,
  normalize_walking, schedule_fields, normalize_schedule, paces, budget_styles, normalize_category,
}

-- A property of all listed items holds of one that is contained.
All-contains {ℓ κ} :
    {A : Type ℓ} ⦃e : Eq A⦄ (P : A → Type κ) (a : A) (xs : List A)
    → All P xs
    → contains a xs ≡ true
    → P a
unfolding contains
All-contains P a [] h c = absurd (cc)
All-contains ⦃e⦄ P a (x ∷ xs) h c = elim (Bool-cases (a =? x)) [
  | inl same ↦ subst P (sym ((e.beq_iff a x).0 same)) h.0
  | inr other ↦ All-contains P a xs h.1 (ground (arith, other, c))
]

module _ ⦃u : Unicode⦄ (strip_idem : (s : String) → u.strip (u.strip s) ≡ u.strip s) where
  -- Texts as the loop leaves them, when the keys `seen` were seen before.
  abbrev Normal : List String → List String → Type 0
  Normal seen [] = Unit
  Normal seen (t ∷ ts) =
      (u.strip t ≡ t)
      × (is_empty t ≡ false)
      × (contains (u.casefold t) seen ≡ false)
      × Normal (u.casefold t ∷ seen) ts

  fresh_lem :
      (t : String) (seen : List String)
      → u.strip t ≡ t
      → is_empty t ≡ false
      → contains (u.casefold t) seen ≡ false
      → is_fresh (u.strip t) seen ≡ true
  unfolding is_fresh
  fresh_lem t seen stripped full fresh = rw (stripped, full, fresh)

  fresh-parts :
      (t : String) (seen : List String)
      → is_fresh t seen ≡ true
      → (is_empty t ≡ false) × (contains (u.casefold t) seen ≡ false)
  unfolding is_fresh
  fresh-parts t seen h = ground arith

  normalize_items-Normal :
      (ts acc seen : List String)
      → Normal seen ts
      → normalize_items (map text ts) acc seen ≡ ok (acc ++ ts)
  unfolding normalize_items
  normalize_items-Normal [] acc seen n = rw append-nil
  normalize_items-Normal (t ∷ ts) acc seen (stripped, full, fresh, later) =
      let new : is_fresh (u.strip t) seen ≡ true = fresh_lem t seen stripped full fresh in
      let rest = normalize_items-Normal ts (acc ++ t ∷ []) (u.casefold t ∷ seen) later in
      rw (new, stripped, normalize_items) (rest ∙ ap ok (append_assoc acc (t ∷ []) ts))

  Normal-normalize_items :
      (xs : List PreferenceScalar) (acc seen out : List String)
      → normalize_items xs acc seen ≡ ok out
      → (ts : List String) × (out ≡ acc ++ ts) × Normal seen ts
  unfolding normalize_items
  Normal-normalize_items [] acc seen out h = ([], rw append-nil (cc), tt)
  Normal-normalize_items (number n m ∷ xs) acc seen out h = absurd (cc)
  Normal-normalize_items (flag b ∷ xs) acc seen out h = absurd (cc)
  Normal-normalize_items (text t ∷ xs) acc seen out h =
      elim (Bool-cases (is_fresh (u.strip t) seen)) [
        | inr old ↦ Normal-normalize_items xs acc seen out (rw (old, normalize_items) at h)
        | inl new ↦
            let (ts, same, n) =
              Normal-normalize_items xs (acc ++ u.strip t ∷ []) (u.casefold (u.strip t) ∷ seen) out
                (rw (new, normalize_items) at h) in
            let (full, fresh) = fresh-parts (u.strip t) seen new in
            (
              u.strip t ∷ ts,
              same ∙ append_assoc acc (u.strip t ∷ []) ts,
              (strip_idem t, full, fresh, n),
            )
      ]

  -- What the loop has made is accepted as it is.
  again :
      (xs : List PreferenceScalar) (w : PreferenceValue)
      → non_empty (normalize_items xs [] []) ≡ ok w
      → normalize_list w ≡ ok w
  unfolding normalize_list
  again xs w h = again_from (normalize_items xs [] []) refl h
    where
      again_from :
          (r : Result MemoryError (List String))
          → normalize_items xs [] [] ≡ r
          → non_empty r ≡ ok w
          → normalize_list w ≡ ok w
      again_from (raise e) made h' = absurd (cc)
      again_from (ok []) made h' = absurd (cc)
      again_from (ok (t ∷ ts)) made h' =
          let (ts', same, n) = Normal-normalize_items xs [] [] (t ∷ ts) made in
          let normal : Normal [] (t ∷ ts) = subst (Normal []) (sym same) n in
          let value : items (map text (t ∷ ts)) ≡ w = cc in
          subst (λ v. normalize_list v ≡ ok v) value
            (ap non_empty (normalize_items-Normal (t ∷ ts) [] [] normal))

  normalize_list_idem : (v w : PreferenceValue) → normalize_list v ≡ ok w → normalize_list w ≡ ok w
  unfolding normalize_list
  normalize_list_idem (object fields) w h = absurd (cc)
  normalize_list_idem (scalar x) w h = again (x ∷ []) w h
  normalize_list_idem (items xs) w h = again xs w h

  normalize_choice_idem :
      (choices : List String)
      → All (λ c. u.lower (u.strip c) ≡ c) choices
      → (v w : PreferenceValue) → normalize_choice choices v ≡ ok w
      → normalize_choice choices w ≡ ok w
  unfolding normalize_choice
  normalize_choice_idem choices fixed (scalar (text t)) w h =
      elim (Bool-cases (contains (u.lower (u.strip t)) choices)) [
        | inr out ↦ absurd (ground arith)
        | inl within ↦
            let chosen = u.lower (u.strip t) in
            let same : u.lower (u.strip chosen) ≡ chosen =
              All-contains (λ c. u.lower (u.strip c) ≡ c) chosen choices fixed within in
            let value : scalar (text chosen) ≡ w = ground arith in
            subst (λ v. normalize_choice choices v ≡ ok v) value (rw (same, within))
      ]
  normalize_choice_idem choices fixed (scalar (number n m)) w h = absurd (cc)
  normalize_choice_idem choices fixed (scalar (flag b)) w h = absurd (cc)
  normalize_choice_idem choices fixed (items xs) w h = absurd (cc)
  normalize_choice_idem choices fixed (object fields) w h = absurd (cc)

normalize_walking_idem :
    (v w : PreferenceValue) → normalize_walking v ≡ ok w → normalize_walking w ≡ ok w
unfolding normalize_walking
normalize_walking_idem (scalar (number n m)) (scalar (number k l)) h = ground arith
normalize_walking_idem (scalar (text t)) w h = absurd (cc)
normalize_walking_idem (scalar (flag b)) w h = absurd (cc)
normalize_walking_idem (items xs) w h = absurd (cc)
normalize_walking_idem (object fields) w h = absurd (cc)
normalize_walking_idem (scalar (number n m)) w h = absurd (ground arith)

normalize_schedule_idem :
    (v w : PreferenceValue) → normalize_schedule v ≡ ok w → normalize_schedule w ≡ ok w
unfolding normalize_schedule
normalize_schedule_idem (object fields) w h =
    elim (Bool-cases (all (λ f. contains f.0 schedule_fields) fields)) [
      | inl within ↦
          let value : object fields ≡ w = ground arith in
          subst (λ v. normalize_schedule v ≡ ok v) value (rw within)
      | inr out ↦ absurd (ground arith)
    ]
normalize_schedule_idem (scalar x) w h = absurd (cc)
normalize_schedule_idem (items xs) w h = absurd (cc)

-- Each category's normal form is accepted and kept by that category, if `strip` is idempotent and
-- `lower` and `strip` keep the listed choices.
pub normalize_category_idem :
    ⦃u : Unicode⦄ ⦃enc : Encoding⦄
    → ((s : String) → u.strip (u.strip s) ≡ u.strip s)
    → All (λ c. u.lower (u.strip c) ≡ c) paces
    → All (λ c. u.lower (u.strip c) ≡ c) budget_styles
    → (c : MemoryCategory) (v w : PreferenceValue) → normalize_category c v ≡ ok w
    → normalize_category c w ≡ ok w
unfolding normalize_category
normalize_category_idem si ps bs MemoryCategory.pace v w h = normalize_choice_idem si paces ps v w h
normalize_category_idem si ps bs MemoryCategory.budget_style v w h =
    normalize_choice_idem si budget_styles bs v w h
normalize_category_idem si ps bs MemoryCategory.walking_tolerance v w h =
    normalize_walking_idem v w h
normalize_category_idem si ps bs MemoryCategory.schedule_preferences v w h =
    normalize_schedule_idem v w h
normalize_category_idem si ps bs MemoryCategory.preferred_categories v w h =
    normalize_list_idem si v w h
normalize_category_idem si ps bs MemoryCategory.avoided_categories v w h =
    normalize_list_idem si v w h
normalize_category_idem si ps bs MemoryCategory.preferred_transport v w h =
    normalize_list_idem si v w h
normalize_category_idem si ps bs MemoryCategory.food_preferences v w h =
    normalize_list_idem si v w h
normalize_category_idem si ps bs MemoryCategory.accessibility_needs v w h =
    normalize_list_idem si v w h
