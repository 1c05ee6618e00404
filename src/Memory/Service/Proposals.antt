-- ===== src/Memory/Service/Proposals.antt =====
-- memory/service.py: the decisions on proposals, and personalization. A decision is replayed for the
-- same request; `checked` and `now` are the two readings of the clock.
use travel_plan_agent.Common.{
  ℕ, ◌+◌, String, Bool, true, false, Option, none, some, if◌then◌else◌, not, ◌==◌, pure, throw,
  ◌>>=◌, ◌>>◌,
}
use travel_plan_agent.Common.Text.{is_empty}
use travel_plan_agent.Memory.Models.{
  MemorySource, ConfirmationStatus, ProposalStatus, PreferenceMemory, MemoryProposal,
  PersonalizationSettings, Principal, stale_personalization_revision, proposal_not_pending,
  pending_at,
}
use travel_plan_agent.Memory.Repository.{
  get_proposal, save_proposal, get_personalization, save_personalization,
}
use travel_plan_agent.Memory.Service.{
  Decision, confirmed_memory, rejected_proposal, ServiceM, on_store, decide, decided, decision_key,
  find_hash, get, keep_or_create,
}

-- The memory of a confirmed proposal.
abbrev pub proposed_memory : Principal → MemoryProposal → ℕ → String → PreferenceMemory
proposed_memory who p now id = record {
  memory_id = id;
  tenant_id = who.tenant_id;
  user_id = who.user_id;
  category = p.category;
  value = p.value;
  scope = p.scope;
  scope_key = p.scope_key;
  source = MemorySource.explicit_user;
  source_run_id = p.source_run_id;
  confirmation_status = ConfirmationStatus.confirmed;
  revision = 1;
  created_at = now;
  updated_at = now;
  expires_at = p.expires_at;
  revoked_at = none;
  content_hash = p.content_hash;
}

-- A proposal that is no longer pending, on a second confirmation: `proposal.memory_id` is its memory.
unfoldable pub confirmed_before :
    Principal → String → String → ProposalStatus → Option String → ServiceM PreferenceMemory
unfolding get
confirmed_before who proposal_id request_id ProposalStatus.confirmed (some memory_id) =
    if is_empty memory_id then throw proposal_not_pending else (do
      result ← get who memory_id
      decide (decision_key who proposal_id request_id) (confirmed_memory result)
      pure result)
confirmed_before who proposal_id request_id _ _ = throw proposal_not_pending

-- The resolved copies of a proposal.
abbrev pub confirmed_proposal : MemoryProposal → ℕ → PreferenceMemory → MemoryProposal
confirmed_proposal p now memory = record p {
  status = ProposalStatus.confirmed;
  resolved_at = some now;
  memory_id = some memory.memory_id;
}

abbrev pub refused_proposal : MemoryProposal → ℕ → MemoryProposal
refused_proposal p now = record p { status = ProposalStatus.rejected; resolved_at = some now }

-- A pending proposal.
unfoldable pub confirm_pending :
    Principal → String → String → MemoryProposal → ℕ → String → ServiceM PreferenceMemory
unfolding keep_or_create save_proposal
confirm_pending who proposal_id request_id p now id = do
  existing ← find_hash who p.content_hash
  memory ← keep_or_create existing (proposed_memory who p now id)
  on_store (save_proposal (confirmed_proposal p now memory))
  decide (decision_key who proposal_id request_id) (confirmed_memory memory)
  pure memory

unfoldable pub confirm_fresh :
    Principal → String → String → ℕ → ℕ → String → ServiceM PreferenceMemory
unfolding get_proposal confirmed_before confirm_pending pending_at
confirm_fresh who proposal_id request_id checked now id = do
  p ← on_store (get_proposal who.tenant_id who.user_id proposal_id)
  if pending_at p checked
      then confirm_pending who proposal_id request_id p now id
      else confirmed_before who proposal_id request_id p.status p.memory_id

-- `isinstance(replay, PreferenceMemory)`
abbrev pub replayed_memory : Option Decision → ServiceM PreferenceMemory → ServiceM PreferenceMemory
replayed_memory (some (confirmed_memory m)) fresh = pure m
replayed_memory (some (rejected_proposal p)) fresh = fresh
replayed_memory none fresh = fresh

unfoldable pub confirm_proposal :
    Principal → String → String → ℕ → ℕ → String → ServiceM PreferenceMemory
unfolding confirm_fresh
confirm_proposal who proposal_id request_id checked now id = do
  replay ← decided (decision_key who proposal_id request_id)
  replayed_memory replay (confirm_fresh who proposal_id request_id checked now id)

abbrev pub is_rejected : ProposalStatus → Bool
is_rejected ProposalStatus.rejected = true
is_rejected ProposalStatus.pending = false
is_rejected ProposalStatus.confirmed = false
is_rejected ProposalStatus.expired = false

unfoldable pub reject_fresh : Principal → String → String → ℕ → ℕ → ServiceM MemoryProposal
unfolding get_proposal save_proposal pending_at
reject_fresh who proposal_id request_id checked now = do
  p ← on_store (get_proposal who.tenant_id who.user_id proposal_id)
  let key = decision_key who proposal_id request_id
  if is_rejected p.status
      then (do decide key (rejected_proposal p); pure p)
      else if not (pending_at p checked)
      then throw proposal_not_pending
      else (do
        on_store (save_proposal (refused_proposal p now))
        decide key (rejected_proposal (refused_proposal p now))
        pure (refused_proposal p now))

abbrev pub replayed_proposal : Option Decision → ServiceM MemoryProposal → ServiceM MemoryProposal
replayed_proposal (some (rejected_proposal p)) fresh = pure p
replayed_proposal (some (confirmed_memory m)) fresh = fresh
replayed_proposal none fresh = fresh

unfoldable pub reject_proposal : Principal → String → String → ℕ → ℕ → ServiceM MemoryProposal
unfolding reject_fresh
reject_proposal who proposal_id request_id checked now = do
  replay ← decided (decision_key who proposal_id request_id)
  replayed_proposal replay (reject_fresh who proposal_id request_id checked now)

unfoldable pub personalization : Principal → ℕ → ServiceM PersonalizationSettings
unfolding get_personalization
personalization who now = on_store (get_personalization who.tenant_id who.user_id now)

-- `request.expected_revision is not None and request.expected_revision != current.revision`
abbrev pub is_stale : Option ℕ → ℕ → Bool
is_stale none revision = false
is_stale (some expected) revision = not (expected == revision)

abbrev pub updated_settings : PersonalizationSettings → Bool → ℕ → PersonalizationSettings
updated_settings current enabled now = record current {
  enabled = enabled;
  revision = current.revision + 1;
  updated_at = now;
}

unfoldable pub update_personalization :
    Principal → Bool → Option ℕ → ℕ → ServiceM PersonalizationSettings
unfolding personalization save_personalization
update_personalization who enabled expected now = do
  current ← personalization who now
  if is_stale expected current.revision then throw stale_personalization_revision else (do
    on_store (save_personalization (updated_settings current enabled now) (some current.revision))
    pure (updated_settings current enabled now))
