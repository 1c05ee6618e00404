-- ===== src/Memory/Repository.antt =====
-- memory/repository.py: `InMemoryPreferenceRepository`. Each method holds the lock, so it is one step.
-- The SQLite class does the same by SQL. A stored record is a copy, as a value is here.
pub mod Owners
use travel_plan_agent.Common.{
  ℕ, String, Bool, true, false, Option, none, some, List, [], ◌∷◌, ◌&&◌, ◌||◌, not, ltb, ◌==◌,
  str_eq, if◌then◌else◌, Result, ok, raise, Exec, pure, throw, ◌>>=◌, ◌>>◌, filter, find, length,
  map, lookup, insert, delete, string_eq, pair_eq,
}
use travel_plan_agent.Common.Text.{str_ltb}
use travel_plan_agent.Common.Sort.{sort_by}
use travel_plan_agent.Memory.Models.{
  PreferenceMemory, MemoryProposal, PersonalizationSettings, MemoryError, not_found,
  duplicate_memory_id, duplicate_proposal_id, stale_memory_revision, stale_personalization_revision,
  is_active, is_none,
}

pub record Store : Type 0 where
  pub memories : List (String × PreferenceMemory)
  pub proposals : List (String × MemoryProposal)
  pub settings : List ((String × String) × PersonalizationSettings)

abbrev pub empty_store : Store
empty_store = record { memories = []; proposals = []; settings = [] }

abbrev pub StoreM : Type 0 → Type 0
StoreM A = Exec Store MemoryError A

-- The tests of the owner.
abbrev pub owns : String → String → PreferenceMemory → Bool
owns tenant user m = str_eq m.tenant_id tenant && str_eq m.user_id user

abbrev pub owns_proposal : String → String → MemoryProposal → Bool
owns_proposal tenant user p = str_eq p.tenant_id tenant && str_eq p.user_id user

abbrev pub values {ℓ} : {K V : Type ℓ} → List (K × V) → List V
values m = map (λ item. item.1) m

-- The order of `sort(key=(updated_at, memory_id), reverse=True)`.
abbrev pub newer : PreferenceMemory → PreferenceMemory → Bool
newer a b =
    ltb b.updated_at a.updated_at
    || (a.updated_at == b.updated_at && str_ltb b.memory_id a.memory_id)

unfoldable pub list_memories : String → String → Bool → ℕ → Store → List PreferenceMemory
list_memories tenant user include_inactive now s =
    sort_by newer (
      filter (λ m. owns tenant user m && (include_inactive || is_active m now)) (values s.memories))

abbrev pub owned :
    String → String → String → Option PreferenceMemory → Result MemoryError PreferenceMemory
owned tenant user id none = raise (not_found id)
owned tenant user id (some m) = if owns tenant user m then ok m else raise (not_found id)

unfoldable pub get_memory : String → String → String → StoreM PreferenceMemory
get_memory tenant user id s = (owned tenant user id (lookup id s.memories), s)

unfoldable pub create_memory : PreferenceMemory → StoreM Unit
create_memory m s = elim (lookup m.memory_id s.memories) [
  | some old ↦ (raise duplicate_memory_id, s)
  | none ↦ (ok tt, record s { memories = insert m.memory_id m s.memories })
]

-- The compare-and-set of `save_memory`.
abbrev pub save_over : PreferenceMemory → ℕ → PreferenceMemory → StoreM Unit
save_over m expected current s =
    if not (owns m.tenant_id m.user_id current)
    then (raise (not_found m.memory_id), s)
    else if not (current.revision == expected)
    then (raise stale_memory_revision, s)
    else (ok tt, record s { memories = insert m.memory_id m s.memories })

unfoldable pub save_memory : PreferenceMemory → ℕ → StoreM Unit
save_memory m expected s = elim (lookup m.memory_id s.memories) [
  | none ↦ (raise (not_found m.memory_id), s)
  | some current ↦ save_over m expected current s
]

abbrev pub remove_memory : String → StoreM Unit
remove_memory id s = (ok tt, record s { memories = delete id s.memories })

unfoldable pub delete_memory : String → String → String → StoreM Unit
unfolding get_memory
delete_memory tenant user id = do get_memory tenant user id; remove_memory id

abbrev pub delete_all {ℓ} : {V : Type ℓ} → List String → List (String × V) → List (String × V)
delete_all [] m = m
delete_all (k ∷ ks) m = delete_all ks (delete k m)

abbrev pub owned_ids : String → String → List (String × PreferenceMemory) → List String
owned_ids tenant user m = map (λ item. item.0) (filter (λ item. owns tenant user item.1) m)

unfoldable pub clear_memories : String → String → StoreM ℕ
clear_memories tenant user s =
    let ids = owned_ids tenant user s.memories in
    (ok (length ids), record s { memories = delete_all ids s.memories })

unfoldable pub find_content_hash : String → String → String → Store → Option PreferenceMemory
find_content_hash tenant user hash s =
    find (λ m. owns tenant user m && str_eq m.content_hash hash && is_none m.revoked_at)
      (values s.memories)

unfoldable pub create_proposal : MemoryProposal → StoreM Unit
create_proposal p s = elim (lookup p.proposal_id s.proposals) [
  | some old ↦ (raise duplicate_proposal_id, s)
  | none ↦ (ok tt, record s { proposals = insert p.proposal_id p s.proposals })
]

abbrev pub owned_proposal :
    String → String → String → Option MemoryProposal → Result MemoryError MemoryProposal
owned_proposal tenant user id none = raise (not_found id)
owned_proposal tenant user id (some p) =
    if owns_proposal tenant user p then ok p else raise (not_found id)

unfoldable pub get_proposal : String → String → String → StoreM MemoryProposal
get_proposal tenant user id s = (owned_proposal tenant user id (lookup id s.proposals), s)

unfoldable pub save_proposal : MemoryProposal → StoreM Unit
save_proposal p s = elim (lookup p.proposal_id s.proposals) [
  | none ↦ (raise (not_found p.proposal_id), s)
  | some current ↦
      if owns_proposal p.tenant_id p.user_id current
      then (ok tt, record s { proposals = insert p.proposal_id p s.proposals })
      else (raise (not_found p.proposal_id), s)
]

-- The default settings, which the first read stores.
abbrev pub default_settings : String → String → ℕ → PersonalizationSettings
default_settings tenant user now = record {
  tenant_id = tenant;
  user_id = user;
  enabled = true;
  revision = 1;
  updated_at = now;
}

unfoldable pub get_personalization : String → String → ℕ → StoreM PersonalizationSettings
get_personalization tenant user now s = elim (lookup (tenant, user) s.settings) [
  | some item ↦ (ok item, s)
  | none ↦
      let item = default_settings tenant user now in
      (ok item, record s { settings = insert (tenant, user) item s.settings })
]

-- The two tests of `save_personalization`: the revision that the caller expects, if any, must be the
-- stored one; where nothing is stored, it must be absent or 0.
abbrev pub settings_fit : Option PersonalizationSettings → Option ℕ → Bool
settings_fit (some current) none = false
settings_fit (some current) (some expected) = current.revision == expected
settings_fit none none = true
settings_fit none (some expected) = expected == 0

unfoldable pub save_personalization : PersonalizationSettings → Option ℕ → StoreM Unit
save_personalization settings expected s =
    let key : String × String = (settings.tenant_id, settings.user_id) in
    if settings_fit (lookup key s.settings) expected
    then (ok tt, record s { settings = insert key settings s.settings })
    else (raise stale_personalization_revision, s)
