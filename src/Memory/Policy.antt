-- ===== src/Memory/Policy.antt =====
-- memory/policy.py: what a preference may hold, and its normal form. The JSON text of a value, the
-- search for a long number and the SHA-256 digest of a payload are parameters.
pub mod Normal
use travel_plan_agent.Common.{
  String, Bool, true, false, Option, List, [], ◌∷◌, ◌++◌, ◌&&◌, ◌||◌, ltb, not, if◌then◌else◌,
  Result, ok, raise, contains, any, all, map, string_eq,
}
use travel_plan_agent.Common.Text.{Unicode, occurs, is_empty}
use travel_plan_agent.Memory.Models.{
  MemoryCategory, PreferenceScope, PreferenceScalar, text, number, flag, PreferenceField,
  PreferenceValue, scalar, items, object, MemoryError, invalid_preference_value,
  sensitive_memory_rejected,
}

-- `json.dumps(value, ...)`, the regular expression, and `preference_content_hash`'s digest of the
-- canonical JSON of its payload.
pub record Encoding : Type 0 where
  pub dumps : PreferenceValue → String
  pub has_long_number : String → Bool
  pub digest : MemoryCategory → PreferenceValue → PreferenceScope → Option String → String

abbrev pub forbidden_markers : List String
forbidden_markers =
    "身份证" ∷ "护照" ∷ "银行卡" ∷ "信用卡" ∷ "支付密码" ∷ "passport" ∷ "identity card" ∷ "credit card"
    ∷ "payment password" ∷ []

module _ ⦃u : Unicode⦄ ⦃enc : Encoding⦄ where
  -- `_reject_sensitive_value`
  unfoldable pub is_sensitive : PreferenceValue → Bool
  is_sensitive value =
      let normalized = u.casefold (enc.dumps value) in
      any (λ marker. occurs marker normalized) forbidden_markers || enc.has_long_number normalized

module _ ⦃u : Unicode⦄ where
  -- `text and key not in seen`
  unfoldable pub is_fresh : String → List String → Bool
  is_fresh stripped seen = not (is_empty stripped) && not (contains (u.casefold stripped) seen)

  -- The loop over the values of a list: the normalized texts so far, and the keys that were seen.
  unfoldable pub normalize_items :
      List PreferenceScalar → List String → List String → Result MemoryError (List String)
  normalize_items [] normalized seen = ok normalized
  normalize_items (text t ∷ rest) normalized seen = elim (is_fresh (u.strip t) seen) [
    | true ↦ normalize_items rest (normalized ++ u.strip t ∷ []) (u.casefold (u.strip t) ∷ seen)
    | false ↦ normalize_items rest normalized seen
  ]
  normalize_items (number n m ∷ rest) normalized seen = raise invalid_preference_value
  normalize_items (flag b ∷ rest) normalized seen = raise invalid_preference_value

  abbrev non_empty : Result MemoryError (List String) → Result MemoryError PreferenceValue
  non_empty (raise e) = raise e
  non_empty (ok []) = raise invalid_preference_value
  non_empty (ok (t ∷ ts)) = ok (items (map text (t ∷ ts)))

  -- `values = value if isinstance(value, list) else [value]`; an object is not a text.
  unfoldable pub normalize_list : PreferenceValue → Result MemoryError PreferenceValue
  unfolding normalize_items
  normalize_list (items xs) = non_empty (normalize_items xs [] [])
  normalize_list (scalar x) = non_empty (normalize_items (x ∷ []) [] [])
  normalize_list (object fields) = raise invalid_preference_value

  unfoldable pub normalize_choice :
      List String → PreferenceValue → Result MemoryError PreferenceValue
  normalize_choice choices (scalar (text t)) =
      let chosen = u.lower (u.strip t) in
      if contains chosen choices then ok (scalar (text chosen)) else raise invalid_preference_value
  normalize_choice choices (scalar (number n m)) = raise invalid_preference_value
  normalize_choice choices (scalar (flag b)) = raise invalid_preference_value
  normalize_choice choices (items xs) = raise invalid_preference_value
  normalize_choice choices (object fields) = raise invalid_preference_value

-- A negative number is below the range unless `int` makes it 0.
unfoldable pub normalize_walking : PreferenceValue → Result MemoryError PreferenceValue
normalize_walking (scalar (number negative meters)) =
    if (negative && ltb 0 meters) || ltb 50_000 meters
    then raise invalid_preference_value
    else ok (scalar (number false meters))
normalize_walking (scalar (text t)) = raise invalid_preference_value
normalize_walking (scalar (flag b)) = raise invalid_preference_value
normalize_walking (items xs) = raise invalid_preference_value
normalize_walking (object fields) = raise invalid_preference_value

abbrev pub schedule_fields : List String
schedule_fields = "earliest_start" ∷ "latest_end" ∷ "avoid_early_start" ∷ []

unfoldable pub normalize_schedule : PreferenceValue → Result MemoryError PreferenceValue
normalize_schedule (object fields) =
    if all (λ f. contains f.0 schedule_fields) fields
    then ok (object fields)
    else raise invalid_preference_value
normalize_schedule (scalar x) = raise invalid_preference_value
normalize_schedule (items xs) = raise invalid_preference_value

abbrev pub paces : List String
paces = "relaxed" ∷ "balanced" ∷ "intensive" ∷ []

abbrev pub budget_styles : List String
budget_styles = "economy" ∷ "balanced" ∷ "comfort" ∷ []

module _ ⦃u : Unicode⦄ ⦃enc : Encoding⦄ where
  -- The part of `normalize_preference_value` behind the sensitivity check.
  unfoldable pub normalize_category :
      MemoryCategory → PreferenceValue → Result MemoryError PreferenceValue
  normalize_category MemoryCategory.pace value = normalize_choice paces value
  normalize_category MemoryCategory.walking_tolerance value = normalize_walking value
  normalize_category MemoryCategory.budget_style value = normalize_choice budget_styles value
  normalize_category MemoryCategory.schedule_preferences value = normalize_schedule value
  normalize_category MemoryCategory.preferred_categories value = normalize_list value
  normalize_category MemoryCategory.avoided_categories value = normalize_list value
  normalize_category MemoryCategory.preferred_transport value = normalize_list value
  normalize_category MemoryCategory.food_preferences value = normalize_list value
  normalize_category MemoryCategory.accessibility_needs value = normalize_list value

  unfoldable pub normalize_preference_value :
      MemoryCategory → PreferenceValue → Result MemoryError PreferenceValue
  unfolding is_sensitive normalize_category
  normalize_preference_value category value =
      if is_sensitive value
      then raise sensitive_memory_rejected
      else normalize_category category value

  unfoldable pub preference_content_hash :
      MemoryCategory → PreferenceValue → PreferenceScope → Option String → String
  preference_content_hash = enc.digest
