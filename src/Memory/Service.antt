-- ===== src/Memory/Service.antt =====
-- memory/service.py: `PreferenceMemoryService` over the in-memory repository. The clock reading, the
-- new identifiers and the policy's encoding are arguments. The awaits of a method run one after the
-- other here: no other method runs between them. Traces and logs are left out.
pub mod Proposals
pub mod Keeps
pub mod Isolation
pub mod Requests
mod Tests
pub mod Decisions
pub mod Memories
use travel_plan_agent.Common.{
  ℕ, ◌+◌, String, Bool, true, false, Option, none, some, List, Result, ok, Exec, pure, ◌>>=◌, ◌>>◌,
  lookup, insert, string_eq, pair_eq,
}
use travel_plan_agent.Common.Text.{Unicode}
use travel_plan_agent.Memory.Models.{
  MemoryCategory, MemorySource, ConfirmationStatus, PreferenceScope, ProposalStatus,
  PreferenceValue, PreferenceMemory, MemoryProposal, PersonalizationSettings, Principal,
  validate_memory, validate_proposal, MemoryError, stale_personalization_revision,
  proposal_not_pending, pending_at,
}
use travel_plan_agent.Memory.Policy.{Encoding, normalize_preference_value, preference_content_hash}
use travel_plan_agent.Memory.Repository.{
  Store, StoreM, empty_store, list_memories, get_memory, create_memory, save_memory, delete_memory,
  clear_memories, find_content_hash, create_proposal, get_proposal, save_proposal,
  get_personalization, save_personalization,
}

-- What `_decisions` holds: the memory of a confirmation, or the proposal of a rejection.
pub data Decision : Type 0 where
  confirmed_memory : PreferenceMemory → Decision
  rejected_proposal : MemoryProposal → Decision

abbrev pub DecisionKey : Type 0
DecisionKey = (String × String) × (String × String)

pub record Service : Type 0 where
  pub store : Store
  pub decisions : List (DecisionKey × Decision)

abbrev pub ServiceM : Type 0 → Type 0
ServiceM A = Exec Service MemoryError A

-- A call of the repository.
abbrev pub on_store : {A : Type 0} → StoreM A → ServiceM A
on_store m s = let (r, t) = m s.store in (r, record s { store = t })

abbrev pub lift : {A : Type 0} → Result MemoryError A → ServiceM A
lift r s = (r, s)

abbrev pub decide : DecisionKey → Decision → ServiceM Unit
decide key d s = (ok tt, record s { decisions = insert key d s.decisions })

abbrev pub decided : DecisionKey → ServiceM (Option Decision)
decided key s = (ok (lookup key s.decisions), s)

pub record PreferenceCreateRequest : Type 0 where
  pub category : MemoryCategory
  pub value : PreferenceValue
  pub scope : PreferenceScope
  pub scope_key : Option String
  pub expires_at : Option ℕ

pub record PreferenceUpdateRequest : Type 0 where
  pub value : Option PreferenceValue
  pub expires_at : Option ℕ
  pub expected_revision : ℕ

pub record MemoryProposalRequest : Type 0 where
  pub category : MemoryCategory
  pub value : PreferenceValue
  pub scope : PreferenceScope
  pub scope_key : Option String
  pub source : MemorySource
  pub source_run_id : Option String
  pub reason : String
  pub expires_at : Option ℕ

abbrev pub decision_key : Principal → String → String → DecisionKey
decision_key who proposal_id request_id = ((who.tenant_id, who.user_id), (proposal_id, request_id))

-- The answer of the repository's `find_content_hash`.
abbrev pub find_hash : Principal → String → ServiceM (Option PreferenceMemory)
find_hash who hash s = (ok (find_content_hash who.tenant_id who.user_id hash s.store), s)

unfoldable pub get : Principal → String → ServiceM PreferenceMemory
unfolding get_memory
get who id = on_store (get_memory who.tenant_id who.user_id id)

-- An old memory is returned as it is; a new one is validated, and stored.
unfoldable pub keep_or_create :
    Option PreferenceMemory → PreferenceMemory → ServiceM PreferenceMemory
unfolding create_memory validate_memory
keep_or_create (some existing) m = pure existing
keep_or_create none m = do lift (validate_memory m); on_store (create_memory m); pure m

module _ ⦃u : Unicode⦄ ⦃enc : Encoding⦄ where
  -- The memory that `create_explicit` builds.
  abbrev pub explicit_memory :
      Principal
      → PreferenceCreateRequest
      → Option String
      → ℕ
      → String
      → PreferenceValue
      → PreferenceMemory
  explicit_memory who r run now id value = record {
    memory_id = id;
    tenant_id = who.tenant_id;
    user_id = who.user_id;
    category = r.category;
    value = value;
    scope = r.scope;
    scope_key = r.scope_key;
    source = MemorySource.explicit_user;
    source_run_id = run;
    confirmation_status = ConfirmationStatus.confirmed;
    revision = 1;
    created_at = now;
    updated_at = now;
    expires_at = r.expires_at;
    revoked_at = none;
    content_hash = preference_content_hash r.category value r.scope r.scope_key;
  }

  unfoldable pub create_explicit :
      Principal → PreferenceCreateRequest → Option String → ℕ → String → ServiceM PreferenceMemory
  unfolding keep_or_create preference_content_hash
  create_explicit who r run now id = do
    value ← lift (normalize_preference_value r.category r.value)
    existing ← find_hash who (preference_content_hash r.category value r.scope r.scope_key)
    keep_or_create existing (explicit_memory who r run now id value)

  abbrev pub updated_value :
      MemoryCategory → Option PreferenceValue → PreferenceValue → Result MemoryError PreferenceValue
  updated_value category none old = ok old
  updated_value category (some value) old = normalize_preference_value category value

  -- The copies that `update` and `propose` store.
  abbrev pub updated_memory :
      PreferenceMemory → PreferenceUpdateRequest → ℕ → PreferenceValue → PreferenceMemory
  updated_memory current r now value = record current {
    value = value;
    expires_at = r.expires_at;
    revision = current.revision + 1;
    updated_at = now;
    content_hash = preference_content_hash current.category value current.scope current.scope_key;
  }

  abbrev pub new_proposal :
      Principal → MemoryProposalRequest → ℕ → String → PreferenceValue → MemoryProposal
  new_proposal who r now id value = record {
    proposal_id = id;
    tenant_id = who.tenant_id;
    user_id = who.user_id;
    category = r.category;
    value = value;
    scope = r.scope;
    scope_key = r.scope_key;
    source = r.source;
    source_run_id = r.source_run_id;
    reason = r.reason;
    status = ProposalStatus.pending;
    created_at = now;
    expires_at = r.expires_at;
    resolved_at = none;
    memory_id = none;
    content_hash = preference_content_hash r.category value r.scope r.scope_key;
  }

  unfoldable pub update :
      Principal → String → PreferenceUpdateRequest → ℕ → ServiceM PreferenceMemory
  unfolding get save_memory preference_content_hash
  update who id r now = do
    current ← get who id
    value ← lift (updated_value current.category r.value current.value)
    on_store (save_memory (updated_memory current r now value) r.expected_revision)
    pure (updated_memory current r now value)

  unfoldable pub propose : Principal → MemoryProposalRequest → ℕ → String → ServiceM MemoryProposal
  unfolding create_proposal validate_proposal preference_content_hash
  propose who r now id = do
    value ← lift (normalize_preference_value r.category r.value)
    lift (validate_proposal (new_proposal who r now id value))
    on_store (create_proposal (new_proposal who r now id value))
    pure (new_proposal who r now id value)

-- The clock is read twice, for `revoked_at` and for `updated_at`.
abbrev pub revoked_memory : PreferenceMemory → ℕ → ℕ → PreferenceMemory
revoked_memory current now later = record current {
  revoked_at = some now;
  updated_at = later;
  revision = current.revision + 1;
}

unfoldable pub revoke : Principal → String → ℕ → ℕ → ℕ → ServiceM PreferenceMemory
unfolding get save_memory
revoke who id expected now later = do
  current ← get who id
  on_store (save_memory (revoked_memory current now later) expected)
  pure (revoked_memory current now later)

unfoldable pub delete : Principal → String → ServiceM Unit
unfolding delete_memory
delete who id = on_store (delete_memory who.tenant_id who.user_id id)

unfoldable pub clear : Principal → ServiceM ℕ
unfolding clear_memories
clear who = on_store (clear_memories who.tenant_id who.user_id)
