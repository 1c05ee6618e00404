-- ===== src/Weather/Persistence/Cuts.antt =====
-- Dictionaries that are cut to some keys, as weather/persistence.py cuts those of a session.
use travel_plan_agent.Common.{
  ℕ, zero, suc, ◌≤◌, ◌≡◌, ◌∙◌, refl, sym, ap, String, Bool, true, false, Option, none, some, List,
  [], ◌∷◌, ◌||◌, map, filter, take, length, str_eq, contains, insert, All, filter_keys, has_key,
  has_key-insert, has_key-filter_keys, filter_keys-All, length-contained, string_eq, str_eq_iff,
  arith, Bool-cases, inl, inr,
}
use travel_plan_agent.Common.Dict.Unique.{IsUnique, filter-IsUnique}
use travel_plan_agent.Common.Sort.{sort_by, insert_by}
use travel_plan_agent.Weather.Models.{WeatherSnapshot}
use travel_plan_agent.Weather.Persistence.{values, fetched_later, retained_ids, retained}

abbrev pub IsNamed : String × WeatherSnapshot → Type 0
IsNamed e = e.0 ≡ e.1.snapshot_id

pub length-map {ℓ κ} :
    {A : Type ℓ} {B : Type κ} (f : A → B) (xs : List A) → length (map f xs) ≡ length xs
length-map f [] = refl
length-map f (x ∷ xs) = omega (arith, length-map f xs)

-- A dictionary that is cut to the keys in a list.
pub length_cut {ℓ} :
    {V : Type ℓ} (ids : List String) (m : List (String × V))
    → IsUnique m
    → length (filter_keys (λ id. contains id ids) m) ≤ length ids
length_cut ids m u =
    length-contained ids (filter_keys (λ id. contains id ids) m)
      (filter-IsUnique (λ e. contains e.0 ids) m u) (filter_keys-All (λ id. contains id ids) m)

module _ (id : String) where
  contains-take :
      (n : ℕ) (xs : List WeatherSnapshot)
      → contains id (map (λ (s : WeatherSnapshot). s.snapshot_id) (take n xs)) ≡ true
      → contains id (map (λ (s : WeatherSnapshot). s.snapshot_id) xs) ≡ true
  unfolding contains
  contains-take zero xs h = absurd (cc h)
  contains-take (suc n) [] h = absurd (cc h)
  contains-take (suc n) (x ∷ xs) h = ground (arith, h, contains-take n xs)

  contains-insert_by :
      (x : WeatherSnapshot) (xs : List WeatherSnapshot)
      → contains id (map (λ (s : WeatherSnapshot). s.snapshot_id) (insert_by fetched_later x xs))
        ≡ (str_eq id x.snapshot_id || contains id (map (λ (s : WeatherSnapshot). s.snapshot_id) xs))
  unfolding contains insert_by
  contains-insert_by x [] = refl
  contains-insert_by x (y ∷ ys) = ground (arith, contains-insert_by x ys)

  contains_sort :
      (xs : List WeatherSnapshot)
      → contains id (map (λ (s : WeatherSnapshot). s.snapshot_id) (sort_by fetched_later xs))
        ≡ contains id (map (λ (s : WeatherSnapshot). s.snapshot_id) xs)
  unfolding contains sort_by
  contains_sort [] = refl
  contains_sort (x ∷ xs) =
      contains-insert_by x (sort_by fetched_later xs)
      ∙ ap (λ b. str_eq id x.snapshot_id || b) (contains_sort xs)

  has_key-values :
      (m : List (String × WeatherSnapshot))
      → All IsNamed m
      → contains id (map (λ (s : WeatherSnapshot). s.snapshot_id) (values m)) ≡ true
      → has_key id m ≡ true
  unfolding contains has_key
  has_key-values [] h c = absurd (cc c)
  has_key-values ((k, s) ∷ m) (here, later) c =
      ground (arith, c, here, str_eq_iff id s.snapshot_id, str_eq_iff k id, has_key-values m later)

  pub has_key-retained :
      (m : List (String × WeatherSnapshot))
      → All IsNamed m
      → contains id (retained_ids m) ≡ true
      → has_key id m ≡ true
  has_key-retained m h c =
      has_key-values m h
        (sym (contains_sort (values m)) ∙ contains-take 2 (sort_by fetched_later (values m)) c)

pub All-filter {ℓ κ} :
    {A : Type ℓ} (P : A → Type κ) (p : A → Bool) (xs : List A) → All P xs → All P (filter p xs)
All-filter P p [] h = tt
All-filter P p (x ∷ xs) (here, later) = kept (p x) (All-filter P p xs later)
  where
    kept :
        (b : Bool)
        → All P (filter p xs)
        → All P (elim b [ true ↦ x ∷ filter p xs | false ↦ filter p xs ])
    kept true rest = (here, rest)
    kept false rest = rest

-- Keys that are in one dictionary are in another one, after both are cut to the same keys.
pub cut_within {ℓ κ} :
    {V : Type ℓ} {W : Type κ} (ids : List String) (m : List (String × V)) (m' : List (String × W))
    → ((id : String) → has_key id m ≡ true → has_key id m' ≡ true)
    → (id : String) → has_key id (filter_keys (λ i. contains i ids) m) ≡ true
    → has_key id (filter_keys (λ i. contains i ids) m') ≡ true
cut_within ids m m' h id k = ground (
  arith,
  has_key-filter_keys (λ i. contains i ids) id m,
  has_key-filter_keys (λ i. contains i ids) id m',
  h id,
  k,
)

-- The same after both get a key.
pub insert_within {ℓ κ} :
    {V : Type ℓ} {W : Type κ} (k : String) (v : V) (w : W) (m : List (String × V))
    (m' : List (String × W))
    → ((id : String) → has_key id m ≡ true → has_key id m' ≡ true)
    → (id : String) → has_key id (insert k v m) ≡ true
    → has_key id (insert k w m') ≡ true
insert_within k v w m m' h id a =
    ground (arith, has_key-insert k id v m, has_key-insert k id w m', h id, a)

pub retained_ok :
    (ids : List String) (previous : Option String) (id : String)
    → retained ids previous ≡ some id
    → contains id ids ≡ true
retained_ok ids none id h = absurd (cc h)
retained_ok ids (some i) id h = elim (Bool-cases (contains i ids)) [
  | inl kept ↦ ground (arith, h, kept)
  | inr gone ↦ ground (arith, h, gone)
]
