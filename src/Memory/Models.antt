-- ===== src/Memory/Models.antt =====
-- memory/models.py and memory/errors.py. Times are readings of the UTC clock.
use travel_plan_agent.Common.{
  ℕ, String, Bool, true, false, Option, none, some, List, ◌&&◌, ltb, not, if◌then◌else◌, Result, ok,
  raise,
}
use travel_plan_agent.Common.Text.{is_empty}

pub data MemoryCategory : Type 0 where
  pace preferred_categories avoided_categories walking_tolerance preferred_transport :
      MemoryCategory
  food_preferences schedule_preferences accessibility_needs budget_style : MemoryCategory

pub data MemorySource : Type 0 where
  explicit_user repeated_behavior single_action model_inference imported : MemorySource

pub data ConfirmationStatus : Type 0 where
  pending confirmed rejected : ConfirmationStatus

pub data PreferenceScope : Type 0 where
  global destination travel_party : PreferenceScope

pub data ProposalStatus : Type 0 where
  pending confirmed rejected expired : ProposalStatus

-- A number is its sign and what `int` makes of its magnitude, so an integer or a finite float.
pub data PreferenceScalar : Type 0 where
  text : String → PreferenceScalar
  number : Bool → ℕ → PreferenceScalar
  flag : Bool → PreferenceScalar

pub data PreferenceField : Type 0 where
  one : PreferenceScalar → PreferenceField
  many : List PreferenceScalar → PreferenceField

pub data PreferenceValue : Type 0 where
  scalar : PreferenceScalar → PreferenceValue
  items : List PreferenceScalar → PreferenceValue
  object : List (String × PreferenceField) → PreferenceValue

pub record PreferenceMemory : Type 0 where
  pub memory_id : String
  pub tenant_id : String
  pub user_id : String
  pub category : MemoryCategory
  pub value : PreferenceValue
  pub scope : PreferenceScope
  pub scope_key : Option String
  pub source : MemorySource
  pub source_run_id : Option String
  pub confirmation_status : ConfirmationStatus
  pub revision : ℕ
  pub created_at : ℕ
  pub updated_at : ℕ
  pub expires_at : Option ℕ
  pub revoked_at : Option ℕ
  pub content_hash : String

-- `expires_at is None or expires_at > current`
abbrev pub lives_at : Option ℕ → ℕ → Bool
lives_at none now = true
lives_at (some t) now = ltb now t

abbrev pub is_none {ℓ} : {A : Type ℓ} → Option A → Bool
is_none none = true
is_none (some a) = false

abbrev is_confirmed : ConfirmationStatus → Bool
is_confirmed ConfirmationStatus.pending = false
is_confirmed ConfirmationStatus.confirmed = true
is_confirmed ConfirmationStatus.rejected = false

-- The validators of a scope, of `PreferenceMemory` and of `MemoryProposal`: a copy with `model_copy`
-- does not run them.
abbrev valid_scope : PreferenceScope → Option String → Bool
valid_scope PreferenceScope.global none = true
valid_scope PreferenceScope.global (some k) = false
valid_scope PreferenceScope.destination none = false
valid_scope PreferenceScope.destination (some k) = not (is_empty k)
valid_scope PreferenceScope.travel_party none = false
valid_scope PreferenceScope.travel_party (some k) = not (is_empty k)

abbrev is_inference : MemorySource → Bool
is_inference MemorySource.model_inference = true
is_inference MemorySource.explicit_user = false
is_inference MemorySource.repeated_behavior = false
is_inference MemorySource.single_action = false
is_inference MemorySource.imported = false

-- `active_at`
unfoldable pub is_active : PreferenceMemory → ℕ → Bool
is_active m now =
    is_confirmed m.confirmation_status && is_none m.revoked_at && lives_at m.expires_at now

pub record MemoryProposal : Type 0 where
  pub proposal_id : String
  pub tenant_id : String
  pub user_id : String
  pub category : MemoryCategory
  pub value : PreferenceValue
  pub scope : PreferenceScope
  pub scope_key : Option String
  pub source : MemorySource
  pub source_run_id : Option String
  pub reason : String
  pub status : ProposalStatus
  pub created_at : ℕ
  pub expires_at : Option ℕ
  pub resolved_at : Option ℕ
  pub memory_id : Option String
  pub content_hash : String

abbrev is_pending : ProposalStatus → Bool
is_pending ProposalStatus.pending = true
is_pending ProposalStatus.confirmed = false
is_pending ProposalStatus.rejected = false
is_pending ProposalStatus.expired = false

-- `pending_at`
unfoldable pub pending_at : MemoryProposal → ℕ → Bool
pending_at p now = is_pending p.status && lives_at p.expires_at now

pub record PersonalizationSettings : Type 0 where
  pub tenant_id : String
  pub user_id : String
  pub enabled : Bool
  pub revision : ℕ
  pub updated_at : ℕ

pub record Principal : Type 0 where
  pub tenant_id : String
  pub user_id : String

-- The errors, with their codes. The last two are the errors of the validators.
pub data MemoryError : Type 0 where
  not_found : String → MemoryError
  duplicate_memory_id duplicate_proposal_id stale_memory_revision : MemoryError
  stale_personalization_revision proposal_not_pending : MemoryError
  invalid_preference_value unsupported_preference_category sensitive_memory_rejected : MemoryError
  invalid_memory invalid_proposal : MemoryError

unfoldable pub validate_memory : PreferenceMemory → Result MemoryError (Unit {0})
validate_memory m =
    if not (valid_scope m.scope m.scope_key)
    then raise invalid_memory
    else if is_inference m.source && is_confirmed m.confirmation_status
    then raise invalid_memory
    else if not (lives_at m.expires_at m.created_at)
    then raise invalid_memory
    else ok tt

unfoldable pub validate_proposal : MemoryProposal → Result MemoryError (Unit {0})
validate_proposal p = if valid_scope p.scope p.scope_key then ok tt else raise invalid_proposal
