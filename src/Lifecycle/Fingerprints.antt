-- ===== src/Lifecycle/Fingerprints.antt =====
-- lifecycle/fingerprints.py. The digest of a JSON text is a parameter, with one function for each kind
-- of payload. The theme and the area of a day are left out, as they are of the model of a day.
use travel_plan_agent.Common.{
  ℕ, ◌+◌, String, Option, none, some, List, [], ◌∷◌, map, lookup, insert, string_eq, nat_eq,
  pair_eq, if◌then◌else◌,
}
use travel_plan_agent.Common.Text.{Unicode, normalize, is_empty}
use travel_plan_agent.Planning.Models.{ItemType, PlanItem, DayPlan, PlanCandidate}

-- What `day_fingerprint` reads of an item.
pub record ItemPart : Type 0 where
  pub id : Option String
  pub poi : Option String
  pub name : String
  pub start : ℕ
  pub end : ℕ
  pub travel : ℕ
  pub distance : ℕ

pub record DayPayload : Type 0 where
  pub date : ℕ
  pub items : List ItemPart
  pub cost : ℕ
  pub travel : ℕ
  pub walking : ℕ

pub record ItemPayload : Type 0 where
  pub item_id : Option String
  pub poi_id : Option String
  pub name : String
  pub day : ℕ
  pub start : ℕ
  pub end : ℕ
  pub type : ItemType

-- `_hash` of the payloads, `stable_item_id` of a session for a candidate, a place or name, a day and
-- an occurrence, `new_item_id` of a request, and the hash of a token.
pub record Digest : Type 0 where
  pub day_hash : DayPayload → String
  pub item_hash : ItemPayload → String
  pub stable_item_id : String → String → ℕ → ℕ → String
  pub new_item_id : String → ℕ → String
  pub approval_hash : String → String

abbrev item_part : PlanItem → ItemPart
item_part i = record {
  id = i.item_id;
  poi = i.poi_id;
  name = i.name;
  start = i.start_at;
  end = i.end_at;
  travel = i.travel_from_previous_minutes;
  distance = i.distance_from_previous_meters;
}

module _ (digest : Digest) where
  unfoldable pub item_fingerprint : PlanItem → ℕ → String
  item_fingerprint i day = digest.item_hash (record {
    item_id = i.item_id;
    poi_id = i.poi_id;
    name = i.name;
    day = day;
    start = i.start_at;
    end = i.end_at;
    type = i.type;
  })

  unfoldable pub day_fingerprint : DayPlan → String
  day_fingerprint d = digest.day_hash (record {
    date = d.date;
    items = map item_part d.items;
    cost = d.known_estimated_cost;
    travel = d.total_travel_minutes;
    walking = d.walking_distance_meters;
  })

  module _ ⦃u : Unicode⦄ where
    -- `item.poi_id or item.name.strip().casefold()`
    abbrev identity : PlanItem → String
    identity i = elim i.poi_id [
      | none ↦ normalize i.name
      | some id ↦ if is_empty id then normalize i.name else id
    ]

    abbrev count_at : Option ℕ → ℕ
    count_at none = 0
    count_at (some n) = n

    abbrev seen : ℕ → PlanItem → List ((ℕ × String) × ℕ) → ℕ
    seen date i counts = count_at (lookup (date, identity i) counts)

    -- `item.item_id or stable_item_id(...)`
    abbrev id_of : String → ℕ → PlanItem → ℕ → String
    id_of candidate_id date i occurrence =
        let fresh = digest.stable_item_id candidate_id (identity i) date occurrence in
        elim i.item_id [ none ↦ fresh | some id ↦ if is_empty id then fresh else id ]

    abbrev with_ids :
        String
        → ℕ
        → List PlanItem
        → List ((ℕ × String) × ℕ)
        → List PlanItem × List ((ℕ × String) × ℕ)
    with_ids candidate_id date [] counts = ([], counts)
    with_ids candidate_id date (i ∷ items) counts =
        let n = seen date i counts in
        let (others, counts') =
          with_ids candidate_id date items (insert (date, identity i) (n + 1) counts) in
        (record i { item_id = some (id_of candidate_id date i n) } ∷ others, counts')

    abbrev days_with_ids : String → List DayPlan → List ((ℕ × String) × ℕ) → List DayPlan
    days_with_ids candidate_id [] counts = []
    days_with_ids candidate_id (d ∷ days) counts =
        let (items, counts') = with_ids candidate_id d.date d.items counts in
        record d { items = items } ∷ days_with_ids candidate_id days counts'

    unfoldable pub with_stable_item_ids : PlanCandidate → PlanCandidate
    unfolding lookup insert normalize
    with_stable_item_ids candidate = record candidate {
      days = days_with_ids candidate.id candidate.days [];
    }
