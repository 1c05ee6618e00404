-- ===== src/Planning/Repair.antt =====
-- planning/repair.py: what the generators of repair actions share. The order of two scores
-- `4 * likes - 5 * dislikes` is compared without subtraction.
pub mod Removals
pub mod Targets
pub mod Build
pub mod Apply
pub mod Effects
pub mod Moves
pub mod Safe
pub mod Changes
pub mod Plans
mod Tests
use travel_plan_agent.Common.{
  ℕ, ◌+◌, ◌*◌, String, Bool, true, false, Option, none, some, List, [], ◌∷◌, ◌++◌, ◌&&◌, ◌||◌, not,
  ltb, leb, ◌==◌, str_eq, if◌then◌else◌, filter, any, map, length, contains, lookup, insert, refl,
  string_eq, pair_eq, Eq, ◌=?◌, ◌≡◌, ◌↔◌, arith,
}
use travel_plan_agent.Common.Text.{Unicode, normalize, occurs, str_ltb}
use travel_plan_agent.Planning.Models.{
  ItemType, PlanItem, DayPlan, PlanningPoi, TripSpec, PlanCandidate, RepairActionKind,
  remove_optional_poi, move_poi, reorder_optional_poi, insert_must_visit, add_available_poi,
  RepairAction,
}

abbrev same_option : Option ℕ → Option ℕ → Bool
same_option none none = true
same_option none (some b) = false
same_option (some a) none = false
same_option (some a) (some b) = a == b

same_option_iff : (a b : Option ℕ) → (same_option a b ≡ true) ↔ (a ≡ b)
same_option_iff none none = ground arith
same_option_iff none (some b) = ground arith
same_option_iff (some a) none = ground arith
same_option_iff (some a) (some b) = ground arith

abbrev same_kind : RepairActionKind → RepairActionKind → Bool
same_kind remove_optional_poi remove_optional_poi = true
same_kind move_poi move_poi = true
same_kind reorder_optional_poi reorder_optional_poi = true
same_kind insert_must_visit insert_must_visit = true
same_kind add_available_poi add_available_poi = true
same_kind _ _ = false

same_kind_iff : (a b : RepairActionKind) → (same_kind a b ≡ true) ↔ (a ≡ b)
same_kind_iff a b = ground arith

-- `list(dict.fromkeys(xs))`, for the items of a set.
unfoldable pub distinct : {A : Type 0} ⦃e : Eq A⦄ → List A → List A → List A
distinct seen [] = []
distinct seen (x ∷ xs) = elim (contains x seen) [
  | true ↦ distinct seen xs
  | false ↦ x ∷ distinct (x ∷ seen) xs
]

pub contains-distinct :
    {A : Type 0} ⦃e : Eq A⦄ (a : A) (seen xs : List A)
    → contains a (distinct seen xs) ≡ (contains a xs && not (contains a seen))
unfolding distinct contains
contains-distinct a seen [] = refl
contains-distinct ⦃e⦄ a seen (x ∷ xs) =
    ground (arith, contains-distinct a seen xs, contains-distinct a (x ∷ seen) xs, e.beq_iff a x)

module _ ⦃u : Unicode⦄ where
  -- `_is_required_name`
  unfoldable pub is_required_name : TripSpec → String → Bool
  is_required_name trip name =
      any
        (λ required.
          occurs (normalize required) (normalize name)
          || occurs (normalize name) (normalize required))
        trip.must_visit

  -- `terms & others`, with the terms of a place as a set.
  abbrev pub common_terms : List String → List String → ℕ
  common_terms categories others =
      length
        (filter (λ t. contains t (map normalize others)) (distinct [] (map normalize categories)))

  -- `_preference_score`, as the two counts.
  unfoldable pub preference_score : PlanningPoi → TripSpec → ℕ × ℕ
  preference_score poi trip =
      (common_terms poi.categories trip.interests, common_terms poi.categories trip.avoid)

abbrev pub score_ltb : ℕ × ℕ → ℕ × ℕ → Bool
score_ltb (likes, dislikes) (likes', dislikes') =
    ltb (4 * likes + 5 * dislikes') (4 * likes' + 5 * dislikes)

-- `{poi.facts.id: poi for poi in pois}`
abbrev index_pois : List PlanningPoi → List (String × PlanningPoi) → List (String × PlanningPoi)
index_pois [] m = m
index_pois (p ∷ ps) m = index_pois ps (insert p.id p m)

unfoldable pub poi_by_id : List PlanningPoi → List (String × PlanningPoi)
poi_by_id pois = index_pois pois []

abbrev pub is_activity : ItemType → Bool
is_activity ItemType.activity = true
is_activity ItemType.meal = false
is_activity ItemType.rest = false
is_activity ItemType.transport = false

-- The activities with a place: those that can be removed or moved.
abbrev pub place_of : PlanItem → Option String
place_of item = if is_activity item.type then item.poi_id else none

instance abbrev option_nat_eq : Eq (Option ℕ)
option_nat_eq = record { beq = same_option; beq_iff = same_option_iff }

instance abbrev kind_eq : Eq RepairActionKind
kind_eq = record { beq = same_kind; beq_iff = same_kind_iff }

-- The key of `_deduplicate_actions`, which keeps the first action of each key.
abbrev pub ActionKey : Type 0
ActionKey = (RepairActionKind × String) × (Option ℕ × Option ℕ)

abbrev pub key_of : RepairAction → ActionKey
key_of a = ((a.kind, a.poi_id), (a.from_day, a.to_day))

unfoldable pub deduplicate : List ActionKey → List RepairAction → List RepairAction
deduplicate seen [] = []
deduplicate seen (a ∷ rest) = elim (contains (key_of a) seen) [
  | true ↦ deduplicate seen rest
  | false ↦ a ∷ deduplicate (key_of a ∷ seen) rest
]
