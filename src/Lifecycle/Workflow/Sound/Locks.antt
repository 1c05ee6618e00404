-- ===== src/Lifecycle/Workflow/Sound/Locks.antt =====
-- The fingerprint of what a lock is about stands in the plan that it is taken from.
use travel_plan_agent.Common.{
  ℕ, ◌≡◌, refl, ap, ◌∙◌, String, Bool, true, Option, none, some, List, [], ◌∷◌, ◌&&◌, str_eq,
  str_eq_iff, ◌==◌, any, find, arith, Bool-cases, inl, inr, if◌then◌else◌, string_eq,
}
use travel_plan_agent.Planning.Models.{DayPlan, PlanCandidate}
use travel_plan_agent.Lifecycle.Models.{LockKey, day_lock, item_lock}
use travel_plan_agent.Lifecycle.Grounding.{DatedItem, items_with_id}
use travel_plan_agent.Lifecycle.Fingerprints.{Digest, day_fingerprint, item_fingerprint}
use travel_plan_agent.Lifecycle.Workflow.Selection.{
  has_item_id, fingerprint_of, day_fingerprint_of, item_fingerprint_of,
}
use travel_plan_agent.Lifecycle.Workflow.Preview.{last_day, guarded_fingerprint, is_fingerprint}
use travel_plan_agent.Lifecycle.Workflow.Sound.{is_day, is_item, holds}

any-find {ℓ} :
    {A : Type ℓ} (p q : A → Bool) (xs : List A) (a : A)
    → find p xs ≡ some a
    → q a ≡ true
    → any (λ x. p x && q x) xs ≡ true
any-find p q [] a h k = absurd (cc h)
any-find p q (x ∷ xs) a h k = elim (Bool-cases (p x)) [
  | inl here ↦
      let same : x ≡ a = ground (arith, h, here) in
      let holds_here : q x ≡ true = ap q same ∙ k in rw (here, holds_here)
  | inr other ↦ ground (arith, other, h, any-find p q xs a)
]

any-last_day :
    (date : ℕ) (q : DayPlan → Bool) (days : List DayPlan) (d : DayPlan)
    → last_day date days ≡ some d
    → q d ≡ true
    → any (λ (x : DayPlan). x.date == date && q x) days ≡ true
any-last_day date q [] d h k = absurd (cc h)
any-last_day date q (x ∷ days) d h k = after (last_day date days) (any-last_day date q days d) h
  where
    after :
        (o : Option DayPlan)
        → (o ≡ some d → q d ≡ true → any (λ (x : DayPlan). x.date == date && q x) days ≡ true)
        → (elim o [ some later ↦ some later | none ↦ if x.date == date then some x else none ])
          ≡ some d
        → any (λ (x : DayPlan). x.date == date && q x) (x ∷ days) ≡ true
    after (some later) ih e = ground (arith, ih e k)
    after none ih e = elim (Bool-cases (x.date == date)) [
      | inl here ↦
          let same : x ≡ d = ground (arith, e, here) in
          let holds_here : q x ≡ true = ap q same ∙ k in rw (here, holds_here)
      | inr other ↦ absurd (ground (arith, e, other))
    ]

module _ (digest : Digest) where
  day_holds :
      (date : ℕ) (fingerprint : String) (days : List DayPlan) (o : Option DayPlan)
      → day_fingerprint_of digest o ≡ some fingerprint
      → ((d : DayPlan)
          → o ≡ some d
          → str_eq (day_fingerprint digest d) fingerprint ≡ true
          → any (is_day digest date fingerprint) days ≡ true)
      → any (is_day digest date fingerprint) days ≡ true
  day_holds date fingerprint days none h k = absurd (cc h)
  day_holds date fingerprint days (some d) h k =
      k d refl (ground (arith, h, str_eq_iff (day_fingerprint digest d) fingerprint))

  item_holds :
      (id fingerprint : String) (items : List DatedItem) (o : Option DatedItem)
      → find (has_item_id id) items ≡ o
      → item_fingerprint_of digest o ≡ some fingerprint
      → any (is_item digest id fingerprint) items ≡ true
  item_holds id fingerprint items none q h = absurd (cc h)
  item_holds id fingerprint items (some e) q h =
      any-find (has_item_id id)
        (λ (e : DatedItem). str_eq (item_fingerprint digest e.1 e.0) fingerprint) items e q
        (ground (arith, h, str_eq_iff (item_fingerprint digest e.1 e.0) fingerprint))

  -- A lock that is taken holds of the plan.
  pub fingerprint_of-holds :
      (candidate : PlanCandidate) (key : LockKey) (fingerprint : String)
      → fingerprint_of digest candidate key ≡ some fingerprint
      → holds digest candidate key fingerprint ≡ true
  unfolding fingerprint_of
  fingerprint_of-holds candidate (day_lock date) fingerprint h =
      day_holds date fingerprint candidate.days
        (find (λ (d : DayPlan). d.date == date) candidate.days) h
        (λ d q k.
          any-find (λ (d : DayPlan). d.date == date)
            (λ (d : DayPlan). str_eq (day_fingerprint digest d) fingerprint) candidate.days d q k)
  fingerprint_of-holds candidate (item_lock id) fingerprint h =
      item_holds id fingerprint (items_with_id candidate.days)
        (find (has_item_id id) (items_with_id candidate.days)) refl h

  is_fingerprint-eq :
      (o : Option String) (expected : String) → is_fingerprint o expected ≡ true → o ≡ some expected
  is_fingerprint-eq none expected h = absurd (cc h)
  is_fingerprint-eq (some found) expected h = ap some ((str_eq_iff found expected).0 h)

  -- A lock that the guard of the preview accepts holds of the new plan.
  pub guarded_fingerprint-holds :
      (candidate : PlanCandidate) (key : LockKey) (expected : String)
      → is_fingerprint (guarded_fingerprint digest candidate key) expected ≡ true
      → holds digest candidate key expected ≡ true
  guarded_fingerprint-holds candidate (day_lock date) expected h =
      day_holds date expected candidate.days (last_day date candidate.days)
        (is_fingerprint-eq (day_fingerprint_of digest (last_day date candidate.days)) expected h)
        (λ d q k.
          any-last_day date (λ (d : DayPlan). str_eq (day_fingerprint digest d) expected)
            candidate.days d q k)
  guarded_fingerprint-holds candidate (item_lock id) expected h =
      fingerprint_of-holds candidate (item_lock id) expected
        (is_fingerprint-eq (fingerprint_of digest candidate (item_lock id)) expected h)
