-- ===== src/Memory/Service/Isolation.antt =====
-- What each call on the memories leaves to other owners.
use travel_plan_agent.Common.{
  ℕ, ◌≡◌, String, true, false, Option, none, some, lookup, string_eq, arith,
}
use travel_plan_agent.Common.Text.{Unicode}
use travel_plan_agent.Common.Dict.Unique.{IsUnique}
use travel_plan_agent.Memory.Models.{
  validate_memory, validate_proposal, PreferenceMemory, MemoryProposal, Principal,
}
use travel_plan_agent.Memory.Policy.{Encoding, normalize_preference_value, preference_content_hash}
use travel_plan_agent.Memory.Repository.{
  Store, owns, create_memory, save_memory, create_proposal, save_proposal,
}
use travel_plan_agent.Memory.Repository.Owners.{
  IsForeign, create_memory-keeps, save_memory-keeps, delete_memory-keeps, clear_memories-keeps,
  create_memory_unique, save_memory_unique, delete_memory_unique, clear_memories_unique,
}
use travel_plan_agent.Memory.Service.{
  PreferenceCreateRequest, PreferenceUpdateRequest, MemoryProposalRequest, explicit_memory,
  keep_or_create, create_explicit, updated_value, updated_memory, new_proposal, revoked_memory,
  update, propose, revoke, delete, clear,
}
use travel_plan_agent.Memory.Service.Keeps.{
  Keeps, Keeps-pure, Keeps-lift, Keeps-find_hash, Keeps-on_store, Keeps-bind, Keeps-bind-get,
  Keeps-stored,
}

-- A memory of another owner is stored under `id`, and no key is stored twice.
abbrev pub Holds : Principal → String → PreferenceMemory → Store → Type 0
Holds who id m s =
    IsUnique s.memories
    × (lookup id s.memories ≡ some m)
    × (owns who.tenant_id who.user_id m ≡ false)

module _ (who : Principal) (id : String) (m : PreferenceMemory) where
  foreign : {s : Store} → Holds who id m s → IsForeign who.tenant_id who.user_id id m s
  foreign (u, stored, other) = record { stored = stored; foreign = other }

  create_memory-Holds :
      (new : PreferenceMemory) (s : Store)
      → Holds who id m s
      → Holds who id m (create_memory new s).1
  create_memory-Holds new s h =
      let f = create_memory-keeps who.tenant_id who.user_id id m (foreign h) new in
      (create_memory_unique s h.0 new, f.stored, f.foreign)

  save_memory-Holds :
      (new : PreferenceMemory) (expected : ℕ)
      → owns who.tenant_id who.user_id new ≡ true
      → (s : Store) → Holds who id m s
      → Holds who id m (save_memory new expected s).1
  save_memory-Holds new expected mine s h =
      let f = save_memory-keeps who.tenant_id who.user_id id m (foreign h) new expected mine in
      (save_memory_unique s h.0 new expected, f.stored, f.foreign)

  pub keep_or_create-Holds :
      (o : Option PreferenceMemory) (new : PreferenceMemory)
      → Keeps (Holds who id m) (keep_or_create o new)
  unfolding keep_or_create
  keep_or_create-Holds (some existing) new = Keeps-pure existing
  keep_or_create-Holds none new =
      Keeps-bind _ _ (Keeps-lift (validate_memory new))
        (λ _. Keeps-stored (create_memory new) new (create_memory-Holds new))

  pub save_proposal-Holds :
      (p : MemoryProposal) (s : Store) → Holds who id m s → Holds who id m (save_proposal p s).1
  unfolding save_proposal
  save_proposal-Holds p s h = ground (arith, h)

  pub create_explicit-Holds :
      ⦃u : Unicode⦄ ⦃enc : Encoding⦄ (r : PreferenceCreateRequest) (run : Option String) (now : ℕ)
      (new : String)
      → Keeps (Holds who id m) (create_explicit who r run now new)
  unfolding create_explicit
  create_explicit-Holds r run now new =
      Keeps-bind _ _ (Keeps-lift (normalize_preference_value r.category r.value)) (λ value.
        Keeps-bind _ _
          (Keeps-find_hash who (preference_content_hash r.category value r.scope r.scope_key))
          (λ existing. keep_or_create-Holds existing (explicit_memory who r run now new value)))

  pub update-Holds :
      ⦃u : Unicode⦄ ⦃enc : Encoding⦄ (key : String) (r : PreferenceUpdateRequest) (now : ℕ)
      → Keeps (Holds who id m) (update who key r now)
  unfolding update
  update-Holds key r now = Keeps-bind-get who key _ (λ current mine.
      Keeps-bind _ _ (Keeps-lift (updated_value current.category r.value current.value)) (λ value.
        let new = updated_memory current r now value in
        Keeps-stored (save_memory new r.expected_revision) new
          (save_memory-Holds new r.expected_revision mine)))

  create_proposal-Holds :
      (p : MemoryProposal) (s : Store) → Holds who id m s → Holds who id m (create_proposal p s).1
  unfolding create_proposal
  create_proposal-Holds p s h = ground (arith, h)

  pub propose-Holds :
      ⦃u : Unicode⦄ ⦃enc : Encoding⦄ (r : MemoryProposalRequest) (now : ℕ) (new : String)
      → Keeps (Holds who id m) (propose who r now new)
  unfolding propose
  propose-Holds r now new =
      Keeps-bind _ _ (Keeps-lift (normalize_preference_value r.category r.value)) (λ value.
        let p = new_proposal who r now new value in
        Keeps-bind _ _ (Keeps-lift (validate_proposal p))
          (λ _. Keeps-stored (create_proposal p) p (create_proposal-Holds p)))

  pub revoke-Holds :
      (key : String) (expected now later : ℕ)
      → Keeps (Holds who id m) (revoke who key expected now later)
  unfolding revoke
  revoke-Holds key expected now later = Keeps-bind-get who key _ (λ current mine.
      let new = revoked_memory current now later in
      Keeps-stored (save_memory new expected) new (save_memory-Holds new expected mine))

  pub delete-Holds : (key : String) → Keeps (Holds who id m) (delete who key)
  unfolding delete
  delete-Holds key = Keeps-on_store _ (λ s h.
      let f = delete_memory-keeps who.tenant_id who.user_id id m (foreign h) key in
      (delete_memory_unique s h.0 who.tenant_id who.user_id key, f.stored, f.foreign))

  pub clear-Holds : Keeps (Holds who id m) (clear who)
  unfolding clear
  clear-Holds = Keeps-on_store _ (λ s h.
      let f = clear_memories-keeps who.tenant_id who.user_id id m {s = s} h.0 (foreign h) in
      (clear_memories_unique s h.0 who.tenant_id who.user_id, f.stored, f.foreign))
