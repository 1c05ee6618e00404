-- ===== src/Weather/Policy/Levels.antt =====
-- A day that is hotter, colder or windier has no lower level of risk.
use travel_plan_agent.Common.{
  ℕ, ◌≤◌, ◌≡◌, refl, sym, ◌∙◌, String, Bool, true, false, Option, none, some, List, [], ◌∷◌, ◌++◌,
  ◌||◌, ◌&&◌, not, any, leb, arith,
}
use travel_plan_agent.Weather.Models.{
  ℤ, int_leb, WeatherRiskKind, WeatherRiskLevel, WeatherPhenomenon, DailyWeather,
}
use travel_plan_agent.Weather.Policy.{
  Sign, RiskPayload, classify_daily_weather, signs, severe_sign, warning_sign, unknown_sign, graded,
  has_severe, has_warning, level_by, either, is_at_least, is_freezing, is_heavy_rain,
  is_thunderstorm, is_snow_or_ice, is_rain, is_low_visibility, is_unknown, wind_of, or_zero,
}

abbrev pub rank : WeatherRiskLevel → ℕ
rank WeatherRiskLevel.normal = 0
rank WeatherRiskLevel.unknown = 1
rank WeatherRiskLevel.warning = 2
rank WeatherRiskLevel.severe = 3

any-append {ℓ} :
    {A : Type ℓ} (p : A → Bool) (xs ys : List A) → any p (xs ++ ys) ≡ (any p xs || any p ys)
any-append p [] ys = refl
any-append p (x ∷ xs) ys = ground (arith, any-append p xs ys)

has_severe-append : (xs ys : List Sign) → has_severe (xs ++ ys) ≡ (has_severe xs || has_severe ys)
has_severe-append xs ys = any-append _ xs ys

has_warning-append :
    (xs ys : List Sign) → has_warning (xs ++ ys) ≡ (has_warning xs || has_warning ys)
has_warning-append xs ys = any-append _ xs ys

module _ (k : WeatherRiskKind) (c : String) where
  has_severe-severe_sign : (b : Bool) → has_severe (severe_sign b k c) ≡ b
  has_severe-severe_sign b = ground arith

  has_warning-severe_sign : (b : Bool) → has_warning (severe_sign b k c) ≡ false
  has_warning-severe_sign b = ground arith

  has_severe-warning_sign : (b : Bool) → has_severe (warning_sign b k c) ≡ false
  has_severe-warning_sign b = ground arith

  has_warning-warning_sign : (b : Bool) → has_warning (warning_sign b k c) ≡ b
  has_warning-warning_sign b = ground arith

module _ (k : WeatherRiskKind) (c e : String) where
  has_severe-graded : (a b : Bool) → has_severe (graded a b k c e) ≡ a
  has_severe-graded a b = ground arith

  has_warning-graded : (a b : Bool) → has_warning (graded a b k c e) ≡ (not a && b)
  has_warning-graded a b = ground arith

has_severe-unknown_sign : (b : Bool) → has_severe (unknown_sign b) ≡ false
has_severe-unknown_sign b = ground arith

has_warning-unknown_sign : (b : Bool) → has_warning (unknown_sign b) ≡ false
has_warning-unknown_sign b = ground arith

abbrev is_grave : DailyWeather → Bool
is_grave day =
    either is_heavy_rain day
    || (either is_thunderstorm day
        || (either is_snow_or_ice day || (is_at_least 38 day.high_celsius || leb 8 (wind_of day))))

abbrev is_serious : DailyWeather → Bool
is_serious day =
    either is_rain day
    || (either is_low_visibility day
        || (is_at_least 35 day.high_celsius
            || (is_freezing day.low_celsius || leb 6 (wind_of day))))

has_severe-signs : (day : DailyWeather) → has_severe (signs day) ≡ is_grave day
has_severe-signs day =
    simp
      (
        has_severe-append, has_severe-severe_sign, has_severe-warning_sign, has_severe-graded,
        has_severe-unknown_sign,
      )
      (ground arith)

has_warning-signs :
    (day : DailyWeather)
    → (is_grave day || has_warning (signs day)) ≡ (is_grave day || is_serious day)
has_warning-signs day =
    simp
      (
        has_warning-append, has_warning-severe_sign, has_warning-warning_sign, has_warning-graded,
        has_warning-unknown_sign,
      )
      (ground arith)

-- The level by the readings.
rank-level :
    (fingerprint : RiskPayload → String) (day : DailyWeather)
    → rank (classify_daily_weather fingerprint day).level
      ≡ rank (level_by (is_grave day) (is_serious day) (either is_unknown day))
unfolding classify_daily_weather
rank-level fingerprint day = ground (arith, has_severe-signs day, has_warning-signs day)

-- As in the code, a reading that is
-- missing, which is also what becomes of one that cannot be read, counts as harmless.
abbrev is_no_hotter : Option ℤ → Option ℤ → Bool
is_no_hotter none t = true
is_no_hotter (some s) none = false
is_no_hotter (some s) (some t) = int_leb s t

abbrev is_no_colder : Option ℤ → Option ℤ → Bool
is_no_colder none t = true
is_no_colder (some s) none = false
is_no_colder (some s) (some t) = int_leb t s

abbrev is_no_windier : Option ℕ → Option ℕ → Bool
is_no_windier none t = true
is_no_windier (some s) none = false
is_no_windier (some s) (some t) = leb s t

int_leb_trans : (a b c : ℤ) → int_leb a b ≡ true → int_leb b c ≡ true → int_leb a c ≡ true
int_leb_trans a b c h k = ground arith

-- A day is no harsher than another one: the phenomena are the same, and the other day is at least as
-- hot, as cold and as windy.
pub record IsMilder (day day' : DailyWeather) : Type 0 where
  pub by_day : day.day_phenomenon ≡ day'.day_phenomenon
  pub by_night : day.night_phenomenon ≡ day'.night_phenomenon
  pub hot : is_no_hotter day.high_celsius day'.high_celsius ≡ true
  pub cold : is_no_colder day.low_celsius day'.low_celsius ≡ true
  pub wind_by_day : is_no_windier day.day_wind_level day'.day_wind_level ≡ true
  pub wind_by_night : is_no_windier day.night_wind_level day'.night_wind_level ≡ true

is_at_least_hotter :
    (bound : ℕ) (s t : Option ℤ)
    → is_no_hotter s t ≡ true
    → is_at_least bound s ≡ true
    → is_at_least bound t ≡ true
is_at_least_hotter bound none t h k = absurd (cc k)
is_at_least_hotter bound (some s) none h k = absurd (cc h)
is_at_least_hotter bound (some s) (some t) h k = int_leb_trans (ℤ.pos bound) s t k h

is_freezing_colder :
    (s t : Option ℤ) → is_no_colder s t ≡ true → is_freezing s ≡ true → is_freezing t ≡ true
is_freezing_colder none t h k = absurd (cc k)
is_freezing_colder (some s) none h k = absurd (cc h)
is_freezing_colder (some s) (some t) h k = int_leb_trans t s (ℤ.pos 0) h k

or_zero_windier : (s t : Option ℕ) → is_no_windier s t ≡ true → or_zero s ≤ or_zero t
or_zero_windier none t h = omega arith
or_zero_windier (some s) none h = absurd (cc h)
or_zero_windier (some s) (some t) h = ground (arith, h)

either_same :
    (p : WeatherPhenomenon → Bool) (day day' : DailyWeather)
    → IsMilder day day'
    → either p day ≡ either p day'
either_same p day day' m = rw (m.by_day, m.by_night) refl

wind_of_windier : (day day' : DailyWeather) → IsMilder day day' → wind_of day ≤ wind_of day'
wind_of_windier day day' m = ground (
  arith,
  or_zero_windier day.day_wind_level day'.day_wind_level m.wind_by_day,
  or_zero_windier day.night_wind_level day'.night_wind_level m.wind_by_night,
)

leb_windier : (bound m n : ℕ) → m ≤ n → leb bound m ≡ true → leb bound n ≡ true
leb_windier bound m n h k = ground arith

or_true :
    (a b a' b' : Bool)
    → (a ≡ true → a' ≡ true)
    → (b ≡ true → b' ≡ true)
    → (a || b) ≡ true
    → (a' || b') ≡ true
or_true a b a' b' h k o = ground arith

module _ (day day' : DailyWeather) (m : IsMilder day day') where
  same_test : (p : WeatherPhenomenon → Bool) → either p day ≡ true → either p day' ≡ true
  same_test p h = sym (either_same p day day' m) ∙ h

  is_grave_harsher : is_grave day ≡ true → is_grave day' ≡ true
  is_grave_harsher = or_true _ _ _ _ (same_test is_heavy_rain) (
      or_true _ _ _ _ (same_test is_thunderstorm) (
        or_true _ _ _ _ (same_test is_snow_or_ice) (
          or_true _ _ _ _ (is_at_least_hotter 38 day.high_celsius day'.high_celsius m.hot)
            (leb_windier 8 (wind_of day) (wind_of day') (wind_of_windier day day' m)))))

  is_serious_harsher : is_serious day ≡ true → is_serious day' ≡ true
  is_serious_harsher = or_true _ _ _ _ (same_test is_rain) (
      or_true _ _ _ _ (same_test is_low_visibility) (
        or_true _ _ _ _ (is_at_least_hotter 35 day.high_celsius day'.high_celsius m.hot) (
          or_true _ _ _ _ (is_freezing_colder day.low_celsius day'.low_celsius m.cold)
            (leb_windier 6 (wind_of day) (wind_of day') (wind_of_windier day day' m)))))

rank-level_by :
    (a b c a' b' : Bool)
    → (a ≡ true → a' ≡ true)
    → (b ≡ true → b' ≡ true)
    → rank (level_by a b c) ≤ rank (level_by a' b' c)
rank-level_by a b c a' b' h k = ground arith

-- A day with the same phenomena that is at least as hot, as cold and as windy has no lower level of
-- risk, in the order normal, unknown, warning, severe. As in the code, a reading that is
-- missing, which is also what becomes of one that cannot be read, counts as harmless.
pub classify_daily_weather-rank :
    (fingerprint : RiskPayload → String) (day day' : DailyWeather)
    → IsMilder day day'
    → rank (classify_daily_weather fingerprint day).level
      ≤ rank (classify_daily_weather fingerprint day').level
classify_daily_weather-rank fingerprint day day' m =
    rw
      (rank-level fingerprint day, rank-level fingerprint day', ← either_same is_unknown day day' m)
      (rank-level_by (is_grave day) (is_serious day) (either is_unknown day) (is_grave day')
        (is_serious day') (is_grave_harsher day day' m) (is_serious_harsher day day' m))
