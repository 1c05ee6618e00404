-- ===== src/Weather/Repair/Dates.antt =====
-- The days that weather/repair.py holds to be safe.
use travel_plan_agent.Common.{
  ℕ, ◌≡◌, refl, sym, subst, Bool, true, false, Option, none, some, List, [], ◌∷◌, ◌&&◌, not, map,
  filter, find, any, ◌==◌, ==_iff, contains, nat_eq, string_eq, arith, Bool-cases, inl, inr,
}
use travel_plan_agent.Lifecycle.Models.{PlanLock}
use travel_plan_agent.Weather.Models.{DailyWeatherRisk, is_normal}
use travel_plan_agent.Weather.Repair.{is_locked, safe_dates}

module _ (risks : List DailyWeatherRisk) (locks : List PlanLock) where
  -- A day that some risk calls normal, and that is not locked.
  abbrev pub is_safe : ℕ → Bool
  is_safe date =
      any (λ (r : DailyWeatherRisk). r.date == date && is_normal r.level) risks
      && not (is_locked locks date)

  abbrev pub is_safe_target : ℕ → Option ℕ → Bool
  is_safe_target date none = false
  is_safe_target date (some t) = not (t == date) && is_safe t

-- One more risk, whose date is kept or not.
is_safe-step :
    (locks : List PlanLock) (date : ℕ) (r : DailyWeatherRisk) (risks : List DailyWeatherRisk)
    (kept : Bool)
    → (is_normal r.level && not (is_locked locks r.date)) ≡ kept
    → contains date (
        map
          (λ (x : DailyWeatherRisk). x.date)
          (elim kept [
            | true ↦
                r
                ∷ filter
                    (λ (x : DailyWeatherRisk). is_normal x.level && not (is_locked locks x.date))
                    risks
            | false ↦
                filter
                  (λ (x : DailyWeatherRisk). is_normal x.level && not (is_locked locks x.date))
                  risks
          ]))
      ≡ true
    → (contains date (safe_dates risks locks) ≡ true → is_safe risks locks date ≡ true)
    → is_safe (r ∷ risks) locks date ≡ true
unfolding contains
is_safe-step locks date r risks false q h k = ground (arith, k h)
is_safe-step locks date r risks true q h k = elim (Bool-cases (date == r.date)) [
  | inl same ↦
      let at : date ≡ r.date = (==_iff date r.date).0 same in
      subst (λ (d : ℕ). is_safe (r ∷ risks) locks d ≡ true) (sym at)
        (ground (arith, q, (==_iff r.date r.date).1 refl))
  | inr other ↦ ground (arith, k (ground (arith, h, other)))
]

pub contains-safe_dates :
    (locks : List PlanLock) (date : ℕ) (risks : List DailyWeatherRisk)
    → contains date (safe_dates risks locks) ≡ true
    → is_safe risks locks date ≡ true
unfolding contains
contains-safe_dates locks date [] h = absurd (cc h)
contains-safe_dates locks date (r ∷ risks) h =
    is_safe-step locks date r risks (is_normal r.level && not (is_locked locks r.date)) refl h
      (contains-safe_dates locks date risks)

pub find-ok :
    (p : ℕ → Bool) (xs : List ℕ) (x : ℕ)
    → find p xs ≡ some x
    → (p x ≡ true) × (contains x xs ≡ true)
unfolding contains
find-ok p [] x h = absurd (cc h)
find-ok p (y ∷ ys) x h = elim (Bool-cases (p y)) [
  | inl holds ↦
      let same : y ≡ x = ground (arith, h, holds) in
      subst (λ (z : ℕ). (p z ≡ true) × (contains z (y ∷ ys) ≡ true)) same
        (holds, ground (arith, (==_iff y y).1 refl))
  | inr fails ↦
      let (holds, within) = find-ok p ys x (ground (arith, h, fails)) in
      (holds, ground (arith, within))
]
